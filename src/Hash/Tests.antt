-- ===== src/Hash/Tests.antt =====
-- Calls on concrete tables of fhash/fhash_core.c.
mod Nodes
use mathlib.Core.Option
use final_libs.Prelude.{
  ℕ, ◌+◌, ◌^◌, ◌≤◌, ◌<◌, ◌≡◌, refl, Bool, true, false, Option, none, some, List, [], ◌∷◌, arith,
  Ensures,
}
use final_libs.Hash.Node.{Bytes, Node, data_sz, node_init, node_key, node_value, node_set}
use final_libs.Hash.Node.Layout.{Sound, Filled, node_set-Filled}
use final_libs.Hash.Opt.{Opt}
use final_libs.Hash.Mgr.{Mgr, applicable_node, mgr_add}
use final_libs.Hash.Mgr.Lookup.{lookup, valid_count}
use final_libs.Hash.Mgr.Inv.{IsBucket}
use final_libs.Hash.Mgr.Changes.{Changed, mgr_add_lem}
use final_libs.Hash.Mgr.Choice.{BestFit, applicable_node-BestFit}
use final_libs.Hash.Table.{
  Table, index_size, tbl_set, tbl_set_node, tbl_set_only, tbl_get, tbl_del, tbl_fetch_and_del,
}
use final_libs.Hash.Table.View.{view, update}
use final_libs.Hash.Table.Branches.{Stands, Grown, SetOnly, Fetched}
use final_libs.Hash.Table.Ops.{
  tbl_get_lem, tbl_set_lem, tbl_set_node_lem, tbl_set_only_lem, tbl_del_lem, tbl_fetch_and_del_lem,
}
use final_libs.Hash.Core.{next_node, migrate, perform_nodes, rounds, try_rehash, iter_release}
use final_libs.Hash.Core.Walk.{NextNode, nodes_from, next_node_lem}
use final_libs.Hash.Core.Whole.{whole_lem}
use final_libs.Hash.Core.Moves.{Migrated, Performed, migrate_lem, perform_nodes_lem}
use final_libs.Hash.Core.Inv.{value_of}
use final_libs.Hash.Core.Rehash.{Kept, try_rehash_lem, iter_release_lem}
use final_libs.Hash.Api.{create, set, get, del, fetch_and_del, rehash}
use final_libs.Hash.Api.Laws.{Is, FetchDone, create_lem, get_lem, del_lem, fetch_and_del_lem}
use final_libs.Hash.Api.Set.{SameKeys, set_lem, set-SameKeys}
use final_libs.Hash.Api.Rehash.{Rehashed, rehash_lem}
use final_libs.Hash.Samples.{
  bytes_opt, bytes_opt-Lawful, fresh, empty_table, empty_table-IsFhash, one_key, one_key-IsFhash,
  one_key_iterated, one_key_iterated-IsFhash, one_delayed, one_delayed-IsFhash,
}

set_lem_example :
    Ensures
      (Is bytes_opt (update bytes_opt (value_of bytes_opt one_key) (99 ∷ []) (some (6 ∷ []))))
      (set fresh bytes_opt one_key (99 ∷ []) (6 ∷ []))
set_lem_example =
    set_lem bytes_opt-Lawful one_key one_key-IsFhash (99 ∷ []) fresh (6 ∷ []) refl refl
      (omega arith)

set-SameKeys_example :
    Ensures
      (SameKeys bytes_opt one_key_iterated)
      (set fresh bytes_opt one_key_iterated (99 ∷ []) (6 ∷ []))
set-SameKeys_example =
    set-SameKeys bytes_opt-Lawful one_key_iterated one_key_iterated-IsFhash (99 ∷ []) fresh (6 ∷ [])
      refl refl (omega arith)

get_lem_example :
    get bytes_opt one_delayed (99 ∷ []) ≡ some (value_of bytes_opt one_delayed (99 ∷ []))
get_lem_example = get_lem bytes_opt-Lawful one_delayed one_delayed-IsFhash (99 ∷ []) refl

del_lem_example :
    Ensures
      (Is bytes_opt (
        update bytes_opt
          (value_of bytes_opt one_delayed)
          (99 ∷ [])
          (lookup bytes_opt (99 ∷ []) one_delayed.delayed.nodes)))
      (del bytes_opt one_delayed (99 ∷ []))
del_lem_example = del_lem bytes_opt-Lawful one_delayed one_delayed-IsFhash (99 ∷ []) refl

fetch_and_del_lem_example :
    Ensures
      (FetchDone bytes_opt one_key (97 ∷ 98 ∷ []) 8)
      (fetch_and_del bytes_opt one_key (97 ∷ 98 ∷ []) 8)
fetch_and_del_lem_example =
    fetch_and_del_lem bytes_opt-Lawful one_key one_key-IsFhash (97 ∷ 98 ∷ []) 8 refl

rehash_lem_example : Ensures (Rehashed bytes_opt one_key 5) (rehash bytes_opt one_key 5)
rehash_lem_example = rehash_lem bytes_opt-Lawful one_key 5 one_key-IsFhash (omega arith)

iter_release_lem_example : Ensures (Kept bytes_opt one_delayed) (iter_release bytes_opt one_delayed)
iter_release_lem_example =
    iter_release_lem bytes_opt-Lawful one_delayed one_delayed-IsFhash (omega arith) (omega arith)
      (omega arith)

abbrev table : Table
table = one_key.current

abbrev Added : Table → Type 0
Added t' =
    Stands bytes_opt (update bytes_opt (view bytes_opt table) (99 ∷ []) (some (6 ∷ []))) t'
    × Grown 1 table t'
