-- ===== src/Tests/Sweeping.antt =====
-- The sweep at startup on concrete data.
use openronin.Common.{
  ℕ, zero, suc, ◌<◌, ◌≡◌, refl, ap, none, some, [], ◌∷◌, Text, arith, length, take,
}
use openronin.Store.{pending, done, normal}
use openronin.Recovery.{Tables, recover_stuck_tasks, stamps, remove, stamp_mark}
use openronin.Recovery.Sweep.{IsIdle, recover_stuck_tasks-IsIdle}
use openronin.Recovery.Loops.{crashes, crashes_give_up, crashes_never_give_up}
use openronin.Tests.Data.{a_task, shop}

abbrev tables : Tables ℕ
tables = record { db = shop; runs = []; deploys = [] }

recover_stuck_tasks-IsIdle_example : IsIdle (recover_stuck_tasks tables 1000).0
recover_stuck_tasks-IsIdle_example = recover_stuck_tasks-IsIdle tables 1000

crashes_give_up_example :
    ((crashes 1000 1 (a_task 1 pending normal none)).status ≡ pending)
    × ((crashes 1000 2 (a_task 1 pending normal none)).status ≡ pending)
    × ((crashes 1000 3 (a_task 1 pending normal none)).status ≡ pending)
    × ((crashes 1000 4 (a_task 1 pending normal none)).status ≡ done)
crashes_give_up_example = crashes_give_up 1000 (a_task 1 pending normal none) refl

xs : ℕ → Text
xs zero = []
xs (suc n) = b'x' ∷ xs n

remove-xs : (n : ℕ) → remove stamp_mark zero (xs n) ≡ xs n
unfolding remove xs
remove-xs zero = refl
remove-xs (suc n) = rw (remove-xs n) refl

stamps-xs : (n : ℕ) → stamps (xs n) < 3
unfolding stamps
stamps-xs n = rw (remove-xs n) (omega arith)

length-xs : (n : ℕ) → length (xs n) ≡ n
unfolding xs
length-xs zero = refl
length-xs (suc n) = ap suc (length-xs n)

take-xs : (n : ℕ) → take n (xs n) ≡ xs n
unfolding xs
take-xs zero = refl
take-xs (suc n) = ap (λ t. b'x' ∷ t) (take-xs n)

crashes_never_give_up_example :
    (crashes 1000 100 (a_task 1 pending normal (some (xs 1024)))).status ≡ pending
crashes_never_give_up_example =
    crashes_never_give_up 1000 99 (a_task 1 pending normal (some (xs 1024))) (xs 1024) refl
      (omega (arith, length-xs 1024)) (stamps-xs 1024) (rw (take-xs 1024) (stamps-xs 1024))
