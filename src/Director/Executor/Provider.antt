-- ===== src/Director/Executor/Provider.antt =====
-- The provider as the executor sees it, and effects that call it (src/director/executor.ts).
use openronin.Common.{ℕ, String, Bool, Option, none, some, List, [], ◌∷◌, ◌++◌, Text}
use openronin.Director.Types.{MergeStrategy}
use openronin.Director.Decisions.{Tables}

-- the methods of the provider that the executor calls
pub data VcsCall : Type 0 where
  create_issue_call : (title body : String) (labels : List String) → VcsCall
  post_comment : (number : ℕ) (body : String) → VcsCall
  add_labels : (number : ℕ) (labels : List String) → VcsCall
  remove_labels : (number : ℕ) (labels : List String) → VcsCall
  close_item : (number : ℕ) → VcsCall
  approve_pull_request : (number : ℕ) (body : Option String) → VcsCall
  merge_pull_request : (number : ℕ) (strategy : MergeStrategy) → VcsCall

-- what a method resolves to, all kinds in one type, or the message of its rejection
pub record Reply : Type 0 where
  pub number : ℕ
  pub url : String
  pub merged : Bool
  pub sha : Option String
  pub reason : Option Text

pub data Answer : Type 0 where
  resolved : Reply → Answer
  refused : Text → Answer

pub record Vcs : Type 0 where
  pub answer : List VcsCall → VcsCall → Answer
  pub not_built : Option Text
  pub is_transient : Text → Bool

pub record State : Type 0 where
  pub log : List VcsCall
  pub db : Tables

pub data Ran (A : Type 0) : Type 0 where
  ok : A → State → Ran A
  err : Text → State → Ran A

abbrev pub Exec : Type 0 → Type 0
Exec A = State → Ran A

infixl 5 ◌>>=◌ ◌>>◌
abbrev pub bind : {A B : Type 0} → Ran A → (A → Exec B) → Ran B
bind (ok a s) f = f a s
bind (err e s) f = err e s

abbrev pub ◌>>=◌ : {A B : Type 0} → Exec A → (A → Exec B) → Exec B
◌>>=◌ m f s = bind (m s) f

abbrev pub ◌>>◌ : {A B : Type 0} → Exec A → Exec B → Exec B
m >> n = m >>= λ _. n

abbrev pub pure : {A : Type 0} → A → Exec A
pure a s = ok a s

abbrev pub throw : {A : Type 0} → Text → Exec A
throw e s = err e s

abbrev pub of_answer : Answer → State → Ran Reply
of_answer (resolved r) s = ok r s
of_answer (refused e) s = err e s

module _ (vcs : Vcs) where
  -- a call of the provider is logged, whatever it answers
  unfoldable pub call : VcsCall → Exec Reply
  call c s = of_answer (vcs.answer s.log c) (record s { log = s.log ++ c ∷ [] })

  abbrev build : Option Text → Exec (Unit {0})
  build none = pure tt
  build (some e) = throw e

  unfoldable pub get_vcs : Exec (Unit {0})
  get_vcs = build vcs.not_built
