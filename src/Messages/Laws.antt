-- ===== src/Messages/Laws.antt =====
-- The program recognises what it wrote (src/lanes/messages.ts).
use openronin.Common.{
  ℕ, true, false, ◌≡◌, refl, [], ◌∷◌, ◌++◌, Text, arith, if_true, if_false, if_case, ==_refl, ap,
  ◌∙◌,
}
use openronin.Messages.{is_space, trim_start, starts_with, is_bot_message, with_prefix}

pub starts_with-append : (p t : Text) → starts_with (p ++ t) p ≡ true
unfolding starts_with
starts_with-append [] t = refl
starts_with-append (c ∷ p) t = rw (==_refl c) (starts_with-append p t)

-- `trimStart` leaves a text that begins with the prefix.
trim_start-prefix :
    (c : ℕ) (p t : Text) → is_space c ≡ false → starts_with t (c ∷ p) ≡ true → trim_start t ≡ t
unfolding trim_start starts_with
trim_start-prefix c p [] h e = ground (arith, e)
trim_start-prefix c p (x ∷ t) h e =
    let same : x ≡ c = ground (arith, e) in if_false (is_space x) _ _ (ap is_space same ∙ h)

with_prefix-starts_with : (p t : Text) → starts_with (with_prefix p t) p ≡ true
unfolding with_prefix
with_prefix-starts_with p t =
    if_case (λ (q : Text). starts_with q p ≡ true) (starts_with t p) (λ e. e)
      (λ _. starts_with-append p (32 ∷ t))

with_prefix_id : (p t : Text) → starts_with t p ≡ true → with_prefix p t ≡ t
unfolding with_prefix
with_prefix_id p t e = if_true (starts_with t p) _ _ e

-- Where the prefix begins with another character than white space, every text that gets the prefix is
-- recognised, and gets it only once.
pub with_prefix-recognised :
    (c : ℕ) (p t : Text)
    → is_space c ≡ false
    → (is_bot_message (c ∷ p) (with_prefix (c ∷ p) t) ≡ true)
      × (with_prefix (c ∷ p) (with_prefix (c ∷ p) t) ≡ with_prefix (c ∷ p) t)
unfolding is_bot_message
with_prefix-recognised c p t h =
    let q = with_prefix (c ∷ p) t in
    let begins = with_prefix-starts_with (c ∷ p) t in
    (rw (trim_start-prefix c p q h begins) rw begins refl, with_prefix_id (c ∷ p) q begins)
