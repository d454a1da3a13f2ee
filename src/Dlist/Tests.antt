-- ===== src/Dlist/Tests.antt =====
-- Concrete stores of flist/fdlist.c.
use final_libs.Prelude.{
  ℕ, ◌≡◌, ◌≢◌, refl, none, some, List, [], ◌∷◌, arith, ◌==◌, if◌then◌else◌, Ensures, test_ne,
}
use final_libs.Dlist.Cells.{DNode, DList, Store}
use final_libs.Dlist.Chain.{has, distinct, sum_sizes}
use final_libs.Dlist.Inv.{IsList, IsStore, put, IsStore-put}
use final_libs.Dlist.Delete.{Deleted, delete_node_lem}
use final_libs.Dlist.Move.{Done, moved, stays, move_node_lem, update_node_size-total}
use final_libs.Dlist.{delete_node, move_node, update_node_size}

abbrev loose : DNode
loose = record { prev = none; next = none; owner = none; data_size = 7; user_data = 0 }

abbrev no_list : DList
no_list = record { head = none; tail = none; size = 0; total_data_size = 0 }

-- The list 0 holds the nodes 3 and 5, of 10 and 20 bytes; the other lists are empty.
abbrev pair : Store
pair = record {
  nodes = λ b.
      if b == 3
      then (record { prev = none; next = some 5; owner = some 0; data_size = 10; user_data = 1 })
      else if b == 5
      then (record { prev = some 3; next = none; owner = some 0; data_size = 20; user_data = 2 })
      else loose;
  lists = λ k.
      if k == 0
      then (record { head = some 3; tail = some 5; size = 2; total_data_size = 30 })
      else no_list;
}

-- the counters of bytes are right
abbrev exact : ℕ → ℕ
exact _ = 0

abbrev nowhere : ℕ → List ℕ
nowhere _ = []

pair-zero : IsList 0 pair 0 (3 ∷ 5 ∷ [])
unfolding has distinct sum_sizes
pair-zero = record {
  head = refl;
  tail = refl;
  linked = (refl, refl, refl, (refl, refl, tt, tt));
  unique = refl;
  owned = λ a o. ground arith;
  size = refl;
  total = refl;
}

pair-empty : (k : ℕ) → k ≢ 0 → IsList 0 pair k []
unfolding has distinct sum_sizes
pair-empty k ne =
    let other = test_ne k 0 ne in
    record {
      head = rw other refl;
      tail = rw other refl;
      linked = tt;
      unique = refl;
      owned = λ a o. absurd (ground arith);
      size = rw other refl;
      total = rw other refl;
    }

abbrev pair_lists : ℕ → List ℕ
pair_lists = put nowhere 0 (3 ∷ 5 ∷ [])

pair-IsStore : IsStore exact pair pair_lists
pair-IsStore = IsStore-put exact pair nowhere 0 (3 ∷ 5 ∷ []) pair-zero pair-empty

delete_node_lem_example : Ensures (Deleted exact pair_lists 0 5) (delete_node pair 5)
delete_node_lem_example = delete_node_lem 0 5 pair-IsStore refl

move_node_lem_example :
    Ensures (Done exact (moved (stays pair 0 1) pair_lists 3 0 1)) (move_node pair 3 (some 1))
move_node_lem_example = move_node_lem 3 0 1 pair-IsStore refl

update_node_size-total_example : ((update_node_size pair 3 100).lists 0).total_data_size ≡ 30
update_node_size-total_example = update_node_size-total pair 3 0 100 refl (omega arith)
