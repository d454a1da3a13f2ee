-- ===== src/Mbuf/Tests.antt =====
-- Concrete buffers of fmbuf/fmbuf.c.
use final_libs.Prelude.{
  ℕ, ◌+◌, ◌<◌, ◌≡◌, ◌↔◌, refl, List, [], ◌∷◌, none, some, true, arith, Ensures,
}
use final_libs.Mbuf.{Mbuf, create, vpop, free}
use final_libs.Mbuf.Inv.{IsValid, contents, create-IsValid}
use final_libs.Mbuf.Queue
use final_libs.Mbuf.Pop.{LikePop, vpop-LikePop}
use final_libs.Mbuf.Run.{Op, put, get, run, run_queue, run_refines}
use final_libs.Mbuf.Resize.{rewind, alloc, realloc}
use final_libs.Mbuf.Resize.Rewind.{Allocated, rewind_undefined, alloc_lem}
use final_libs.Mbuf.Resize.Realloc.{Resized, realloc_lem}

-- 7, 8, then 9, round the end of the memory
abbrev wrapped : Mbuf
wrapped = record { size = 3; head = 2; tail = 1; buf = 9 ∷ 0 ∷ 7 ∷ 8 ∷ [] }

wrapped-IsValid : IsValid wrapped
wrapped-IsValid = record {
  memory = refl;
  small = omega arith;
  head_in = omega arith;
  tail_in = omega arith;
}

-- 5, 6 in the middle
abbrev middle : Mbuf
middle = record { size = 4; head = 1; tail = 3; buf = 0 ∷ 5 ∷ 6 ∷ 0 ∷ 0 ∷ [] }

middle-IsValid : IsValid middle
middle-IsValid = record {
  memory = refl;
  small = omega arith;
  head_in = omega arith;
  tail_in = omega arith;
}

abbrev script : List Op
script = get 2 ∷ put (1 ∷ 2 ∷ []) ∷ put (4 ∷ []) ∷ get 3 ∷ get 1 ∷ []

abbrev fresh : ℕ → ℕ
fresh i = 170 + i

script-replies :
    run_queue 3 (7 ∷ 8 ∷ 9 ∷ []) script
    ≡ (0, 7 ∷ 8 ∷ []) ∷ (0, []) ∷ (1, []) ∷ (0, 9 ∷ 1 ∷ 2 ∷ []) ∷ (1, []) ∷ []
unfolding run_queue Queue.push Queue.pop
script-replies = refl

run_refines_example : run wrapped script ≡ some (run_queue 3 (contents wrapped) script)
run_refines_example = run_refines script wrapped-IsValid

vpop-LikePop_example : Ensures (LikePop wrapped 3) (vpop wrapped true 3)
vpop-LikePop_example = vpop-LikePop 3 wrapped-IsValid

realloc_lem_example : Ensures (Resized wrapped 6) (realloc fresh wrapped 6)
realloc_lem_example = realloc_lem fresh 6 wrapped-IsValid (omega arith)

alloc_lem_example : Ensures (Allocated middle 2) (alloc middle 2)
alloc_lem_example = alloc_lem 2 middle-IsValid (omega arith)

rewind_undefined_example : (rewind wrapped ≡ none) ↔ (1 < 2)
rewind_undefined_example = rewind_undefined wrapped-IsValid

create-IsValid_example : IsValid (create 3) × (contents (create 3) ≡ []) × (free (create 3) ≡ 3)
create-IsValid_example = create-IsValid 3 (omega arith)
