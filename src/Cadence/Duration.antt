-- ===== src/Cadence/Duration.antt =====
-- The texts that `parseDurationMs` accepts (src/scheduler/cadence.ts).
use openronin.Common.{
  ℕ, ◌+◌, ◌-◌, ◌*◌, ◌<◌, ◌≡◌, ◌↔◌, refl, true, false, Option, none, some, List, [], ◌∷◌, ◌++◌, Text,
  All, arith, Bool-cases, inl, inr, ◌⊎◌,
}
use openronin.Cadence.{is_digit, to_lower, unit_ms, finish, scan, parse_duration_ms}

-- The number that decimal digits stand for, continuing `n`.
abbrev pub value_from : ℕ → List ℕ → ℕ
value_from n [] = n
value_from n (d ∷ ds) = value_from (n * 10 + d) ds

-- The characters of decimal digits.
abbrev pub digits_text : List ℕ → Text
digits_text [] = []
digits_text (d ∷ ds) = (b'0' + d) ∷ digits_text ds

is_digit_text : (d : ℕ) → d < 10 → is_digit (b'0' + d) ≡ true
unfolding is_digit
is_digit_text d h = ground arith

sub_digit : (d : ℕ) → (b'0' + d) - b'0' ≡ d
sub_digit d = omega arith

unit-not-digit : (u f : ℕ) → unit_ms (to_lower u) ≡ some f → is_digit u ≡ false
unfolding unit_ms to_lower is_digit
unit-not-digit u f h = ground arith

scan-digits_text :
    (n : ℕ) (ds : List ℕ) (u f : ℕ)
    → All (λ d. d < 10) ds
    → unit_ms (to_lower u) ≡ some f
    → scan n (digits_text ds ++ u ∷ []) ≡ some (value_from n ds * f)
unfolding scan finish
scan-digits_text n [] u f h e = rw (unit-not-digit u f e) (rw e)
scan-digits_text n (d ∷ ds) u f (p, h) e =
    rw (is_digit_text d p, sub_digit d) (scan-digits_text (n * 10 + d) ds u f h e)

-- The letter of a unit, of either case, with its milliseconds.
abbrev pub IsUnit : ℕ → ℕ → Type 0
IsUnit u f =
    (((u ≡ b's') ⊎ (u ≡ b'S')) × (f ≡ 1000))
    ⊎ ((((u ≡ b'm') ⊎ (u ≡ b'M')) × (f ≡ 60_000))
        ⊎ ((((u ≡ b'h') ⊎ (u ≡ b'H')) × (f ≡ 3_600_000))
            ⊎ (((u ≡ b'd') ⊎ (u ≡ b'D')) × (f ≡ 86_400_000))))

unit_ms_iff : (u f : ℕ) → (unit_ms (to_lower u) ≡ some f) ↔ IsUnit u f
unfolding unit_ms to_lower
unit_ms_iff u f = (λ h. ground (arith, h), λ h. ground (arith, h))

-- What the accepted texts are, with the milliseconds that they stand for.
pub record IsDuration (s : Text) (ms : ℕ) : Type 0 where
  pub first : ℕ
  pub others : List ℕ
  pub unit : ℕ
  pub factor : ℕ
  pub first_digit : first < 10
  pub other_digits : All (λ d. d < 10) others
  pub known_unit : IsUnit unit factor
  pub text : s ≡ digits_text (first ∷ others) ++ unit ∷ []
  pub amount : ms ≡ value_from first others * factor

-- Every text of digits and a unit is read, as the number times the unit.
pub parse_duration_ms_complete :
    (s : Text) (ms : ℕ) → IsDuration s ms → parse_duration_ms s ≡ some ms
unfolding parse_duration_ms
parse_duration_ms_complete s ms h =
    rw (h.text, h.amount, is_digit_text h.first h.first_digit, sub_digit h.first)
      (scan-digits_text h.first h.others h.unit h.factor h.other_digits
        ((unit_ms_iff h.unit h.factor).1 h.known_unit))

-- What `scan` accepts after the number `n`.
record IsTail (n : ℕ) (s : Text) (ms : ℕ) : Type 0 where
  others : List ℕ
  unit : ℕ
  factor : ℕ
  other_digits : All (λ d. d < 10) others
  known_unit : unit_ms (to_lower unit) ≡ some factor
  text : s ≡ digits_text others ++ unit ∷ []
  amount : ms ≡ value_from n others * factor

finish_sound :
    (n c : ℕ) (o : Option ℕ) (cs : Text) (ms : ℕ)
    → finish n o cs ≡ some ms
    → (f : ℕ) × (o ≡ some f) × (cs ≡ []) × (ms ≡ n * f)
unfolding finish
finish_sound n c (some f) [] ms h = (f, refl, refl, ground arith)
finish_sound n c none [] ms h = cc
finish_sound n c none (_ ∷ _) ms h = cc
finish_sound n c (some f) (_ ∷ _) ms h = cc

digit_parts : (c : ℕ) → is_digit c ≡ true → (c - b'0' < 10) × (c ≡ b'0' + (c - b'0'))
unfolding is_digit
digit_parts c h = ground arith

scan_sound : (n : ℕ) (s : Text) (ms : ℕ) → scan n s ≡ some ms → IsTail n s ms
unfolding scan
scan_sound n [] ms h = cc
scan_sound n (c ∷ cs) ms h = elim (Bool-cases (is_digit c)) [
  | inl yes_digit ↦
      let t = scan_sound (n * 10 + (c - b'0')) cs ms (rw yes_digit at h) in
      let (small, same) = digit_parts c yes_digit in
      record {
        others = (c - b'0') ∷ t.others;
        unit = t.unit;
        factor = t.factor;
        other_digits = (small, t.other_digits);
        known_unit = t.known_unit;
        text = cc (t.text, same);
        amount = t.amount;
      }
  | inr no_digit ↦
      let (f, known, ends, same) =
        finish_sound n c (unit_ms (to_lower c)) cs ms (rw no_digit at h) in
      record {
        others = [];
        unit = c;
        factor = f;
        other_digits = tt;
        known_unit = known;
        text = cc ends;
        amount = same;
      }
]

parse_duration_ms_sound : (s : Text) (ms : ℕ) → parse_duration_ms s ≡ some ms → IsDuration s ms
unfolding parse_duration_ms
parse_duration_ms_sound [] ms h = cc
parse_duration_ms_sound (c ∷ cs) ms h = elim (Bool-cases (is_digit c)) [
  | inl yes_digit ↦
      let t = scan_sound (c - b'0') cs ms (rw yes_digit at h) in
      let (small, same) = digit_parts c yes_digit in
      record {
        first = c - b'0';
        others = t.others;
        unit = t.unit;
        factor = t.factor;
        first_digit = small;
        other_digits = t.other_digits;
        known_unit = (unit_ms_iff t.unit t.factor).0 t.known_unit;
        text = cc (t.text, same);
        amount = t.amount;
      }
  | inr no_digit ↦ absurd (cc (rw no_digit at h))
]

-- A text is read as `ms` milliseconds exactly when it is one or more decimal digits and one of the
-- letters s, m, h, d of either case, and `ms` is the number times the unit; every other text is
-- refused.
pub parse_duration_ms_iff : (s : Text) (ms : ℕ) → (parse_duration_ms s ≡ some ms) ↔ IsDuration s ms
parse_duration_ms_iff s ms = (parse_duration_ms_sound s ms, parse_duration_ms_complete s ms)
