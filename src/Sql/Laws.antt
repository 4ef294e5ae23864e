-- ===== src/Sql/Laws.antt =====
-- What the statements do to a table, row by row.
use openronin.Common.{
  none, some, ◌++◌, arith, Bool, true, false, if◌then◌else◌, List, [], ◌∷◌, ◌≡◌, refl, All, Memᴰ,
  Bool-cases, inl, inr, ap, sym, ◌⊎◌, ◌∙◌,
}
use mathlib.Core.Option.{map as option_map, some_inj}
use openronin.Sql.{select, select_all, update, count}

module _ {ℓ} {A : Type ℓ} where
  -- A row of the updated table, from the row that it was.
  abbrev pub updated : (A → Bool) → (A → A) → A → A
  updated p f x = if p x then f x else x

  pub All-update {κ} :
      (P : A → Type κ) (p : A → Bool) (f : A → A) (xs : List A)
      → All (λ x. P (updated p f x)) xs
      → All P (update p f xs)
  unfolding update
  All-update P p f [] h = tt
  All-update P p f (x ∷ xs) (h, hs) = (h, All-update P p f xs hs)

  pub All-select_all {κ} :
      (P : A → Type κ) (p : A → Bool) (xs : List A)
      → All (λ x. p x ≡ true → P x) xs
      → All P (select_all p xs)
  unfolding select_all
  All-select_all P p [] h = tt
  All-select_all P p (x ∷ xs) (h, hs) = elim (Bool-cases (p x)) [
    | inl e ↦ rw e (h e, All-select_all P p xs hs)
    | inr e ↦ rw e (All-select_all P p xs hs)
  ]

  pub All-intro {κ} : (P : A → Type κ) (xs : List A) → ((x : A) → P x) → All P xs
  All-intro P [] h = tt
  All-intro P (x ∷ xs) h = (h x, All-intro P xs h)

  pub All-imp {κ μ} :
      (P : A → Type κ) (Q : A → Type μ) (xs : List A) → ((x : A) → P x → Q x) → All P xs → All Q xs
  All-imp P Q [] h k = tt
  All-imp P Q (x ∷ xs) h (p, k) = (h x p, All-imp P Q xs h k)

  -- A row that a query returns is a row of the table, and meets the WHERE clause.
  mem-keep :
      {x y : A} {xs ys : List A} {P : Type 0}
      → (Memᴰ x ys → Memᴰ x xs × P)
      → (x ≡ y → P)
      → Memᴰ x (y ∷ ys)
      → Memᴰ x (y ∷ xs) × P
  mem-keep ih here (Memᴰ.head e) = (Memᴰ.head e, here e)
  mem-keep ih here (Memᴰ.tail m) = let (m', p) = ih m in (Memᴰ.tail m', p)

  pub mem-select_all :
      (p : A → Bool) {x : A} (xs : List A) → Memᴰ x (select_all p xs) → Memᴰ x xs × (p x ≡ true)
  unfolding select_all
  mem-select_all p [] m = elim m [ ]
  mem-select_all p {x} (y ∷ xs) m = elim (Bool-cases (p y)) [
    | inl e ↦ mem-keep (mem-select_all p xs) (λ same. ap p same ∙ e) (rw e at m)
    | inr e ↦ let (m', h) = mem-select_all p xs (rw e at m) in (Memᴰ.tail m', h)
  ]

  -- A row of the table that meets the WHERE clause is found.
  pub select_all-mem :
      (p : A → Bool) {x : A} (xs : List A) → Memᴰ x xs → p x ≡ true → Memᴰ x (select_all p xs)
  unfolding select_all
  select_all-mem p [] m h = elim m [ ]
  select_all-mem p (y ∷ xs) (Memᴰ.head e) h = rw (sym (ap p e) ∙ h) (Memᴰ.head e)
  select_all-mem p (y ∷ xs) (Memᴰ.tail m) h = elim (Bool-cases (p y)) [
    | inl t ↦ rw t (Memᴰ.tail (select_all-mem p xs m h))
    | inr t ↦ rw t (select_all-mem p xs m h)
  ]

  -- A row that an update does not select stays.
  pub update-mem :
      (p : A → Bool) (f : A → A) {x : A} (xs : List A)
      → Memᴰ x xs
      → p x ≡ false
      → Memᴰ x (update p f xs)
  unfolding update
  update-mem p f [] m h = elim m [ ]
  update-mem p f (y ∷ xs) (Memᴰ.head e) h = rw (sym (ap p e) ∙ h) (Memᴰ.head e)
  update-mem p f (y ∷ xs) (Memᴰ.tail m) h = Memᴰ.tail (update-mem p f xs m h)

  pub append-mem : {x : A} (xs ys : List A) → Memᴰ x xs → Memᴰ x (xs ++ ys)
  append-mem [] ys m = elim m [ ]
  append-mem (y ∷ xs) ys (Memᴰ.head e) = Memᴰ.head e
  append-mem (y ∷ xs) ys (Memᴰ.tail m) = Memᴰ.tail (append-mem xs ys m)

  pub append-mem_last : (xs : List A) (x : A) → Memᴰ x (xs ++ x ∷ [])
  append-mem_last [] x = Memᴰ.head refl
  append-mem_last (y ∷ xs) x = Memᴰ.tail (append-mem_last xs x)

  -- The row that `.get()` returns is a row of the table, and meets the WHERE clause.
  pub select-mem :
      (p : A → Bool) (xs : List A) {x : A} → select p xs ≡ some x → Memᴰ x xs × (p x ≡ true)
  unfolding select
  select-mem p [] e = ground arith
  select-mem p (y ∷ xs) e = elim (Bool-cases (p y)) [
    | inl t ↦ let same = some_inj.0 (rw t at e) in (Memᴰ.head (sym same), sym (ap p same) ∙ t)
    | inr t ↦ let (m, h) = select-mem p xs (rw t at e) in (Memᴰ.tail m, h)
  ]

  -- A row of the updated table comes from one that was there.
  pub mem-update :
      (p : A → Bool) (f : A → A) {x : A} (xs : List A)
      → Memᴰ x (update p f xs)
      → (y : A) × Memᴰ y xs × (x ≡ updated p f y)
  unfolding update
  mem-update p f [] m = elim m [ ]
  mem-update p f (y ∷ xs) (Memᴰ.head e) = (y, Memᴰ.head refl, e)
  mem-update p f (y ∷ xs) (Memᴰ.tail m) = let (z, n, e) = mem-update p f xs m in (z, Memᴰ.tail n, e)

  -- The first row that a query finds is still the first where the other query keeps it.
  pub select-select_all :
      (p q : A → Bool) (xs : List A) {x : A}
      → select p xs ≡ some x
      → q x ≡ true
      → select p (select_all q xs) ≡ some x
  unfolding select select_all
  select-select_all p q [] e h = e
  select-select_all p q (y ∷ ys) e h = elim (Bool-cases (p y)) [
    | inl t ↦ let same = some_inj.0 (rw t at e) in rw (ap q same ∙ h) rw t (ap some same)
    | inr t ↦ elim (Bool-cases (q y)) [
      | inl r ↦ rw r rw t (select-select_all p q ys (rw t at e) h)
      | inr r ↦ rw r (select-select_all p q ys (rw t at e) h)
    ]
  ]

  pub mem-append_last : (xs : List A) (x : A) {y : A} → Memᴰ y (xs ++ x ∷ []) → Memᴰ y xs ⊎ (y ≡ x)
  mem-append_last [] x (Memᴰ.head e) = inr e
  mem-append_last [] x (Memᴰ.tail m) = elim m [ ]
  mem-append_last (z ∷ xs) x (Memᴰ.head e) = inl (Memᴰ.head e)
  mem-append_last (z ∷ xs) x (Memᴰ.tail m) = elim (mem-append_last xs x m) [
    | inl n ↦ inl (Memᴰ.tail n)
    | inr e ↦ inr e
  ]

  -- Two updates in a row of the same rows are one.
  pub update-update :
      (p : A → Bool) (f g : A → A) (xs : List A)
      → ((x : A) → p (f x) ≡ p x)
      → update p g (update p f xs) ≡ update p (λ x. g (f x)) xs
  unfolding update
  update-update p f g [] h = refl
  update-update p f g (x ∷ xs) h = elim (Bool-cases (p x)) [
    | inl e ↦ rw (e, h x, e, update-update p f g xs h) refl
    | inr e ↦ rw (e, e, update-update p f g xs h) refl
  ]

  -- The first row that a query finds after an update that keeps its WHERE clause.
  pub select-update :
      (p q : A → Bool) (f : A → A) (xs : List A)
      → ((x : A) → p (updated q f x) ≡ p x)
      → {x : A} → select p xs ≡ some x
      → select p (update q f xs) ≡ some (updated q f x)
  unfolding select update
  select-update p q f [] h e = ground arith
  select-update p q f (y ∷ ys) h e = elim (Bool-cases (p y)) [
    | inl t ↦ rw (h y, t) (ap (option_map (updated q f)) (rw t at e))
    | inr t ↦ rw (h y, t) (select-update p q f ys h (rw t at e))
  ]

  pub select-update_same :
      (p : A → Bool) (f : A → A) (xs : List A)
      → ((x : A) → p (f x) ≡ p x)
      → {x : A} → select p xs ≡ some x
      → select p (update p f xs) ≡ some (f x)
  unfolding select update
  select-update_same p f [] h e = ground arith
  select-update_same p f (y ∷ ys) h e = elim (Bool-cases (p y)) [
    | inl t ↦ rw (t, h y, t) (ap (option_map f) (rw t at e))
    | inr t ↦ rw (t, t) (select-update_same p f ys h (rw t at e))
  ]

  pub select-append :
      (p : A → Bool) (xs ys : List A) {x : A} → select p xs ≡ some x → select p (xs ++ ys) ≡ some x
  unfolding select
  select-append p [] ys e = ground arith
  select-append p (y ∷ xs) ys e = elim (Bool-cases (p y)) [
    | inl t ↦ rw t (rw t at e)
    | inr t ↦ rw t (select-append p xs ys (rw t at e))
  ]

  pub select-append_none :
      (p : A → Bool) (xs : List A) {x : A}
      → select p xs ≡ none
      → p x ≡ true
      → select p (xs ++ x ∷ []) ≡ some x
  unfolding select
  select-append_none p [] e h = rw h refl
  select-append_none p (y ∷ xs) e h = elim (Bool-cases (p y)) [
    | inl t ↦ ground arith
    | inr t ↦ rw t (select-append_none p xs (rw t at e) h)
  ]

  -- An update that changes no row that it selects changes nothing.
  pub update_id :
      (p : A → Bool) (f : A → A) (xs : List A)
      → All (λ x. p x ≡ true → f x ≡ x) xs
      → update p f xs ≡ xs
  unfolding update
  update_id p f [] h = refl
  update_id p f (x ∷ xs) (h, hs) = elim (Bool-cases (p x)) [
    | inl e ↦ rw (e, h e, update_id p f xs hs) refl
    | inr e ↦ rw (e, update_id p f xs hs) refl
  ]

  pub count_zero : (p : A → Bool) (xs : List A) → All (λ x. p x ≡ false) xs → count p xs ≡ 0
  unfolding count
  count_zero p [] h = refl
  count_zero p (x ∷ xs) (h, hs) = rw h (count_zero p xs hs)

-- A member of a longer list, seen through a function.
pub mem_image {ℓ κ} :
    {A : Type ℓ} {B : Type κ} (f : A → B) {x y : A} {ys : List A} {zs : List B}
    → (Memᴰ x ys → Memᴰ (f x) zs)
    → Memᴰ x (y ∷ ys)
    → Memᴰ (f x) (f y ∷ zs)
mem_image f ih (Memᴰ.head e) = Memᴰ.head (ap f e)
mem_image f ih (Memᴰ.tail m) = Memᴰ.tail (ih m)

pub update_last {ℓ} :
    {A : Type ℓ} (p : A → Bool) (f : A → A) (xs : List A) (y : A)
    → All (λ x. p x ≡ false) xs
    → p y ≡ true
    → update p f (xs ++ y ∷ []) ≡ xs ++ f y ∷ []
unfolding update
update_last p f [] y h e = rw e refl
update_last p f (x ∷ xs) y (k, h) e = rw (k, update_last p f xs y h e) refl

-- A member of a longer list is its head or a member of the rest.
pub mem_cases {ℓ} : {A : Type ℓ} {x y : A} {ys : List A} → Memᴰ x (y ∷ ys) → (x ≡ y) ⊎ Memᴰ x ys
mem_cases (Memᴰ.head e) = inl e
mem_cases (Memᴰ.tail m) = inr m
