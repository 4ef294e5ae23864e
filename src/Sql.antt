-- ===== src/Sql.antt =====
-- The statements that the storage code sends to SQLite, over a table as the list of its rows in
-- rowid order: SELECT with a WHERE clause, UPDATE, DELETE, COUNT and ORDER BY … LIMIT 1.
pub mod Laws
pub mod Order
use openronin.Common.{
  ℕ, zero, suc, Bool, true, false, if◌then◌else◌, Option, none, some, List, [], ◌∷◌,
}

module _ {ℓ} {A : Type ℓ} where
  -- `SELECT … WHERE p`, read by `.all()`
  unfoldable pub select_all : (A → Bool) → List A → List A
  select_all p [] = []
  select_all p (x ∷ xs) = let rest = select_all p xs in if p x then x ∷ rest else rest

  -- `SELECT … WHERE p`, read by `.get()`: the first row
  unfoldable pub select : (A → Bool) → List A → Option A
  select p [] = none
  select p (x ∷ xs) = let rest = select p xs in if p x then some x else rest

  -- `UPDATE … SET f WHERE p`
  unfoldable pub update : (A → Bool) → (A → A) → List A → List A
  update p f [] = []
  update p f (x ∷ xs) = (if p x then f x else x) ∷ update p f xs

  -- `result.changes` of that UPDATE, and `COUNT(*) … WHERE p`
  unfoldable pub count : (A → Bool) → List A → ℕ
  count p [] = 0
  count p (x ∷ xs) = let rest = count p xs in if p x then suc rest else rest

  -- `ORDER BY … LIMIT 1`: a row that is below all the others in the order `leq`
  unfoldable pub first_by : (A → A → Bool) → List A → Option A
  first_by leq [] = none
  first_by leq (x ∷ xs) = elim (first_by leq xs) [
    | none ↦ some x
    | some y ↦ if leq x y then some x else some y
  ]

  -- Two ORDER BY terms: the second decides where the first does not.
  unfoldable pub then_by : (A → A → Bool) → (A → A → Bool) → A → A → Bool
  then_by first second a b = if first a b then (if first b a then second a b else true) else false
