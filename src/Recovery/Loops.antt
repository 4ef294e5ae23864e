-- ===== src/Recovery/Loops.antt =====
-- A task whose process dies each time it runs, over many startups (src/scheduler/index.ts).
use openronin.Common.{
  ℕ, zero, suc, ◌≤◌, ◌<◌, ◌≡◌, refl, true, false, Option, none, some, List, [], ◌∷◌, ◌++◌, arith,
  Text, length, take, take-append, take-take, length-append, length-take_full, ◌∙◌, ap,
  if◌then◌else◌, map,
}
use openronin.Store.{Task, pending, running, done, is_running}
use openronin.Recovery.{
  to_abandon, abandon, reset, stamps, add_stamp, is_looping, error_limit, recover_stuck_tasks,
  Tables,
}
use openronin.Sql.{update}

-- Both UPDATE statements of the sweep, on one row.
pub recover_task : ℕ → Task → Task
recover_task now t =
    let t' : Task = if to_abandon t then abandon now t else t in
    if is_running t'.status then reset t' else t'

-- The sweep over the table is that, row by row.
sweep_rows :
    (now : ℕ) (ts : List Task)
    → update (λ t. is_running t.status) reset (update to_abandon (abandon now) ts)
      ≡ map (recover_task now) ts
unfolding recover_task update
sweep_rows now [] = refl
sweep_rows now (t ∷ ts) = rw (sweep_rows now ts) refl

pub recover_stuck_tasks-tasks :
    {C : Type 0} (s : Tables C) (now : ℕ)
    → (recover_stuck_tasks s now).0.db.tasks ≡ map (recover_task now) s.db.tasks
unfolding recover_stuck_tasks
recover_stuck_tasks-tasks s now = sweep_rows now s.db.tasks

-- `dequeue` marks the task running, and the process dies.
pub crash : ℕ → Task → Task
unfolding recover_task
crash now t = recover_task now (record t { status = running })

pub crashes : ℕ → ℕ → Task → Task
crashes now zero t = t
crashes now (suc n) t = crash now (crashes now n t)

crash_survives :
    (now : ℕ) (t : Task)
    → is_looping t.last_error ≡ false
    → ((crash now t).status ≡ pending) × ((crash now t).last_error ≡ some (add_stamp t.last_error))
unfolding crash to_abandon reset
crash_survives now t h = rw h (refl, refl)

crash_abandons : (now : ℕ) (t : Task) → is_looping t.last_error ≡ true → (crash now t).status ≡ done
unfolding crash to_abandon abandon
crash_abandons now t h = rw h refl

one : Option Text
one = some (add_stamp none)

two : Option Text
two = some (add_stamp one)

three : Option Text
three = some (add_stamp two)

few_stamps :
    (is_looping none ≡ false)
    × (is_looping one ≡ false)
    × (is_looping two ≡ false)
    × (is_looping three ≡ true)
unfolding stamps add_stamp one two three
few_stamps = (refl, refl, refl, refl)

-- A task that had no error and whose process dies each time it runs is put back after the first
-- three crashes, and is abandoned as done after the fourth.
pub crashes_give_up :
    (now : ℕ) (t : Task)
    → t.last_error ≡ none
    → ((crashes now 1 t).status ≡ pending)
      × ((crashes now 2 t).status ≡ pending)
      × ((crashes now 3 t).status ≡ pending)
      × ((crashes now 4 t).status ≡ done)
unfolding crashes one two three
crashes_give_up now t h =
    let (no_error, at_one, at_two, at_three) = few_stamps in
    let (p₁, e₁) = crash_survives now t (rw h no_error) in
    let e₁' : (crashes now 1 t).last_error ≡ one = e₁ ∙ ap (λ e. some (add_stamp e)) h in
    let (p₂, e₂) = crash_survives now (crashes now 1 t) (rw e₁' at_one) in
    let e₂' : (crashes now 2 t).last_error ≡ two = e₂ ∙ ap (λ e. some (add_stamp e)) e₁' in
    let (p₃, e₃) = crash_survives now (crashes now 2 t) (rw e₂' at_two) in
    let e₃' : (crashes now 3 t).last_error ≡ three = e₃ ∙ ap (λ e. some (add_stamp e)) e₂' in
    (p₁, p₂, p₃, crash_abandons now (crashes now 3 t) (rw e₃' at_three))

take_of_long : (n : ℕ) (e ys zs : Text) → n ≤ length e → take n ((e ++ ys) ++ zs) ≡ take n e
take_of_long n e ys zs h =
    take-append n (e ++ ys) zs (omega (arith, length-append e ys)) ∙ take-append n e ys h

add_stamp_long : (e : Text) → error_limit ≤ length e → add_stamp (some e) ≡ take error_limit e
unfolding add_stamp
add_stamp_long e h = take_of_long error_limit e _ _ h

long_crashes :
    (now n : ℕ) (t : Task) (e : Text)
    → t.last_error ≡ some e
    → error_limit ≤ length e
    → is_looping (some e) ≡ false
    → is_looping (some (take error_limit e)) ≡ false
    → ((crashes now (suc n) t).status ≡ pending)
      × ((crashes now (suc n) t).last_error ≡ some (take error_limit e))
unfolding crashes
long_crashes now zero t e h long few few' =
    let (p, same) = crash_survives now t (rw h few) in
    (p, same ∙ ap (λ o. some (add_stamp o)) h ∙ ap some (add_stamp_long e long))
long_crashes now (suc n) t e h long few few' =
    let (p, same) = long_crashes now n t e h long few few' in
    let (p', same') = crash_survives now (crashes now (suc n) t) (rw same few') in
    let cut : error_limit ≤ length (take error_limit e) =
      omega (arith, length-take_full error_limit e long) in
    (
      p',
      same'
          ∙ ap (λ o. some (add_stamp o)) same
          ∙ ap some (add_stamp_long (take error_limit e) cut ∙ take-take error_limit e),
    )

few_not_looping : (e : Text) → stamps e < 3 → is_looping (some e) ≡ false
few_not_looping e h = ground arith

-- A task whose error text already has 1024 characters or more, with fewer than three marks in it
-- and in its first 1024 characters, is put back after every crash, however many there are: the new
-- mark is cut off, so it is never counted.
pub crashes_never_give_up :
    (now n : ℕ) (t : Task) (e : Text)
    → t.last_error ≡ some e
    → error_limit ≤ length e
    → stamps e < 3
    → stamps (take error_limit e) < 3
    → (crashes now (suc n) t).status ≡ pending
crashes_never_give_up now n t e h long few few' =
    (long_crashes now n t e h long (few_not_looping e few)
      (few_not_looping (take error_limit e) few')).0
