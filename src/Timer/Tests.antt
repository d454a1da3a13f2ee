-- ===== src/Timer/Tests.antt =====
-- Two timers in one list.
use final_libs.Prelude.{
  ℕ, ◌≡◌, ◌≢◌, refl, true, false, none, some, List, [], ◌∷◌, arith, ◌==◌, if◌then◌else◌, ◌+◌, ◌*◌,
  ◌<◌, ◌≤◌, Ensures, test_ne, pos, Agrees, Bool-cases, inl, inr, ◌>>=◌,
}
use final_libs.Dlist.Cells.{DNode, DList, Store, write}
use final_libs.Dlist.Chain.{has, distinct, sum_sizes}
use final_libs.Dlist.Inv.{IsList, IsStore, put, IsStore-put}
use final_libs.Timer.{Time, Timer, Timers, Callback, timeout, rearm, visit, process, top}
use final_libs.Timer.Visit.{Effect, ActsAs}
use final_libs.Dlist.{pop, push, is_empty, count_out, unowned}
use final_libs.Timer.Clock.{ns, timeout_lem}
use final_libs.Timer.Sweep.{Processed, sweep, process_lem}
use final_libs.Timer.Fate.{Scanned, scan_lem}
use final_libs.Timer.Top.{IsFirst, top_lem}
use final_libs.Timer.Service.{timer_del, timer_add, TimerAdded, timer_add_lem}

abbrev at_noon : Time
at_noon = record { sec = 12; nsec = 999_000_000 }

abbrev later : Time
later = record { sec = 13; nsec = 100_000_000 }

-- a timer of 100 milliseconds that fires once, and one of 5 seconds that fires again and again
abbrev once : Timer
once = record {
  start = at_noon;
  cb = true;
  arg = 1;
  interval = 0;
  expiration = 100;
  valid = true;
  triggered = false;
}

abbrev often : Timer
often = record {
  start = at_noon;
  cb = true;
  arg = 2;
  interval = 5000;
  expiration = 5000;
  valid = true;
  triggered = false;
}

abbrev loose : DNode
loose = record { prev = none; next = none; owner = none; data_size = 64; user_data = 0 }

abbrev no_list : DList
no_list = record { head = none; tail = none; size = 0; total_data_size = 0 }

abbrev two_nodes : Store
two_nodes = record {
  nodes = λ b.
      if b == 3
      then (record { prev = none; next = some 5; owner = some 0; data_size = 64; user_data = 30 })
      else if b == 5
      then (record { prev = some 3; next = none; owner = some 0; data_size = 64; user_data = 50 })
      else loose;
  lists = λ k.
      if k == 0
      then (record { head = some 3; tail = some 5; size = 2; total_data_size = 128 })
      else no_list;
}

abbrev service : Timers
service = record {
  store = two_nodes;
  timers = λ p. if p == 30 then once else often;
  freed = λ _. false;
  timer_list = 0;
  backup_list = 1;
  destroyed = [];
}

abbrev nowhere : ℕ → List ℕ
nowhere _ = []

abbrev exact : ℕ → ℕ
exact _ = 0

zero-IsList : IsList 0 two_nodes 0 (3 ∷ 5 ∷ [])
unfolding has distinct sum_sizes
zero-IsList = record {
  head = refl;
  tail = refl;
  linked = (refl, refl, refl, (refl, refl, tt, tt));
  unique = refl;
  owned = λ a o. ground arith;
  size = refl;
  total = refl;
}

other-IsList : (k : ℕ) → k ≢ 0 → IsList 0 two_nodes k []
unfolding has distinct sum_sizes
other-IsList k ne =
    let other = test_ne k 0 ne in
    record {
      head = rw other refl;
      tail = rw other refl;
      linked = tt;
      unique = refl;
      owned = λ a o. absurd (ground arith);
      size = rw other refl;
      total = rw other refl;
    }

two-IsStore : IsStore exact two_nodes (put nowhere 0 (3 ∷ 5 ∷ []))
two-IsStore = IsStore-put exact two_nodes nowhere 0 (3 ∷ 5 ∷ []) zero-IsList other-IsList

timeout_lem_example :
    (ns at_noon + 100 * 1_000_000 ≤ ns later → timeout once later ≡ true)
    × (timeout once later ≡ true → ns at_noon + 100 * 1_000_000 < ns later + 1_000_000)
timeout_lem_example = timeout_lem once later (omega arith)

top_lem_example : Ensures (IsFirst service (3 ∷ 5 ∷ [])) (top service)
top_lem_example = top_lem service (3 ∷ 5 ∷ []) zero-IsList (omega arith) (
  ((λ e. absurd (omega (arith, e))), refl, omega arith),
  (((λ e. absurd (omega (arith, e))), refl, omega arith), tt),
)

-- a callback that deletes the timer at 50
abbrev deleting : Callback
deleting arg s = do (r, s') ← timer_del s (some 50); some s'

abbrev deletion : Effect
deletion arg freed tm =
    if freed 50 then none else some (write tm 50 (record (tm 50) { valid = false }))

deleting-ActsAs : ActsAs deleting deletion
unfolding timer_del
deleting-ActsAs arg s = elim (Bool-cases (s.freed 50)) [
  | inl gone ↦ rw gone refl
  | inr alive ↦ rw alive refl
]

process_lem_example :
    Agrees
      (Processed exact service (put nowhere 0 (3 ∷ 5 ∷ [])) 0 [])
      (sweep deletion later
        (λ a. (two_nodes.nodes a).user_data)
        (3 ∷ 5 ∷ [])
        service.timers
        service.freed)
      (process 3 deleting later 0 service)
process_lem_example =
    process_lem deleting deletion later deleting-ActsAs (3 ∷ 5 ∷ []) service
      (put nowhere 0 (3 ∷ 5 ∷ [])) two-IsStore refl refl (λ e. absurd (omega (arith, e)))

-- The first timer fires and deletes the second one, and both nodes are destroyed.
deletion_run :
    Ensures
      (λ w. (w.expired ≡ 1) × (w.dead ≡ 3 ∷ 5 ∷ []))
      (sweep deletion later
        (λ a. (two_nodes.nodes a).user_data)
        (3 ∷ 5 ∷ [])
        service.timers
        service.freed)
unfolding timeout rearm write
deletion_run = (refl, refl)

-- The second timer deletes the first one, which is freed: its callback uses freed memory.
abbrev backwards : Callback
backwards arg s = if arg == 2 then (do (r, s') ← timer_del s (some 30); some s') else some s

abbrev much_later : Time
much_later = record { sec = 20; nsec = 0 }

use_after_free : process 3 backwards much_later 0 service ≡ none
unfolding process visit timeout rearm timer_del pop push is_empty count_out unowned write
use_after_free = refl

scan_lem_example :
    Ensures (Scanned service later (3 ∷ 5 ∷ [])) (process 3 (λ _ s. some s) later 0 service)
unfolding has
scan_lem_example =
    scan_lem later (3 ∷ 5 ∷ []) service (put nowhere 0 (3 ∷ 5 ∷ [])) two-IsStore refl refl
      (λ e. absurd (omega (arith, e)))
      ((λ b there e. ground arith), ((λ b there e. ground arith), tt))
      (
        (λ _. (refl, (omega arith, omega arith, omega arith))),
        ((λ _. (refl, (omega arith, omega arith, omega arith))), tt),
      )

timer_add_lem_example :
    Ensures
      (TimerAdded exact service (put nowhere 0 (3 ∷ 5 ∷ [])) 8 80 250 later)
      (timer_add service 8 80 (some later) (pos 250) (pos 0) true 4)
timer_add_lem_example =
    timer_add_lem service 8 80 later 250 0 4 two-IsStore refl (omega arith) (omega arith)
