-- ===== src/Sql/Order.antt =====
-- The orders that ORDER BY terms are, and their least row.
use openronin.Common.{
  ℕ, Bool, true, false, none, some, List, [], ◌∷◌, ◌≡◌, ◌≢◌, refl, leb, All, Memᴰ, arith, ◌⊎◌,
  subst, inl, inr, Option-cases, if_intro,
}
use openronin.Sql.{first_by, then_by}

-- What an ORDER BY term must satisfy for LIMIT 1 to be well defined.
pub record IsOrder {ℓ} {A : Type ℓ} (leq : A → A → Bool) : Type ℓ where
  pub total : (a b : A) → leq a b ≡ false → leq b a ≡ true
  pub trans : (a b c : A) → leq a b ≡ true → leq b c ≡ true → leq a c ≡ true

-- A row of the table that is below every row of it.
abbrev pub IsLeast {ℓ} : {A : Type ℓ} → (A → A → Bool) → A → List A → Type ℓ
IsLeast leq m xs = Memᴰ m xs × All (λ y. leq m y ≡ true) xs

pub leb_by-IsOrder {ℓ} : {A : Type ℓ} (key : A → ℕ) → IsOrder (λ a b. leb (key a) (key b))
leb_by-IsOrder key = record { total = λ a b h. ground arith; trans = λ a b c h k. ground arith }

module _ {ℓ} {A : Type ℓ} {l₁ l₂ : A → A → Bool} (o₁ : IsOrder l₁) (o₂ : IsOrder l₂) where
  then_by_total : (a b : A) → then_by l₁ l₂ a b ≡ false → then_by l₁ l₂ b a ≡ true
  unfolding then_by
  then_by_total a b h = ground (arith, o₁.total a b, o₂.total a b)

  then_by_trans :
      (a b c : A) → then_by l₁ l₂ a b ≡ true → then_by l₁ l₂ b c ≡ true → then_by l₁ l₂ a c ≡ true
  unfolding then_by
  then_by_trans a b c h k =
      ground (arith, o₁.trans a b c, o₁.trans c a b, o₁.trans b c a, o₂.trans a b c)

  pub then_by-IsOrder : IsOrder (then_by l₁ l₂)
  then_by-IsOrder = record { total = then_by_total; trans = then_by_trans }

module _ {ℓ} {A : Type ℓ} (leq : A → A → Bool) where
  -- A table with a row has a least one.
  pub first_by-mem : {x : A} (xs : List A) → Memᴰ x xs → (m : A) × (first_by leq xs ≡ some m)
  unfolding first_by
  first_by-mem [] h = elim h [ ]
  first_by-mem (x ∷ xs) h = elim (Option-cases (first_by leq xs)) [
    | inl e ↦ rw (e, first_by) (x, refl)
    | inr (y, e) ↦
        rw (e, first_by) (if_intro (λ o. (m : A) × (o ≡ some m)) (leq x y) (x, refl) (y, refl))
  ]

module _ {ℓ} {A : Type ℓ} {leq : A → A → Bool} (o : IsOrder leq) where
  pub leq_refl : (a : A) → leq a a ≡ true
  leq_refl a = ground (arith, o.total a a)

  All-trans :
      (x m : A) (xs : List A)
      → leq x m ≡ true
      → All (λ y. leq m y ≡ true) xs
      → All (λ y. leq x y ≡ true) xs
  All-trans x m [] h k = tt
  All-trans x m (y ∷ xs) h (p, k) = (o.trans x m y h p, All-trans x m xs h k)

  first_by-cons-ne-none : (x : A) (xs : List A) → first_by leq (x ∷ xs) ≢ none
  unfolding first_by
  first_by-cons-ne-none x xs = ground arith

  alone : (xs : List A) → first_by leq xs ≡ none → (P : A → Type 0) → All P xs
  alone [] h P = tt
  alone (x ∷ xs) h P = absurd (first_by-cons-ne-none x xs h)

  head_IsLeast : (x : A) (xs : List A) → All (λ y. leq x y ≡ true) xs → IsLeast leq x (x ∷ xs)
  head_IsLeast x xs h = (Memᴰ.head refl, (leq_refl x, h))

  first_by_head :
      (x : A) (xs : List A) {m : A}
      → first_by leq (x ∷ xs) ≡ some m
      → (first_by leq xs ≡ none) × (x ≡ m)
        ⊎ ((y : A) × (first_by leq xs ≡ some y) × (leq x y ≡ true) × (x ≡ m))
        ⊎ ((y : A) × (first_by leq xs ≡ some y) × (leq x y ≡ false) × (y ≡ m))
  unfolding first_by
  first_by_head x xs h = ground arith

  -- The row that `first_by` returns is one of the table, and below every row of it.
  pub first_by-IsLeast : (xs : List A) {m : A} → first_by leq xs ≡ some m → IsLeast leq m xs
  unfolding first_by
  first_by-IsLeast [] h = cc
  first_by-IsLeast (x ∷ xs) {m} h = elim (first_by_head x xs h) [
    | inl (e, same) ↦ subst (λ z. IsLeast leq z (x ∷ xs)) same (head_IsLeast x xs (alone xs e _))
    | inr (inl (y, e, le, same)) ↦
        subst (λ z. IsLeast leq z (x ∷ xs)) same
          (head_IsLeast x xs (All-trans x y xs le (first_by-IsLeast xs e).1))
    | inr (inr (y, e, gt, same)) ↦
        let (found, least) = first_by-IsLeast xs e in
        subst (λ z. IsLeast leq z (x ∷ xs)) same (Memᴰ.tail found, (o.total x y gt, least))
  ]
