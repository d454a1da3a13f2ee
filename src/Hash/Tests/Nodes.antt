-- ===== src/Hash/Tests/Nodes.antt =====
-- Calls on concrete nodes and buckets of fhash/fhash_core.c, and walks of concrete tables.
use final_libs.Prelude.{
  ◌<◌, ◌≡◌, refl, true, false, none, some, List, [], ◌∷◌, arith, Ensures, slice,
}
use final_libs.Hash.Node.{Node, data_sz, node_init, node_key, node_value}
use final_libs.Hash.Mgr.{Mgr, applicable_node}
use final_libs.Hash.Mgr.Lookup.{lookup, valid_count}
use final_libs.Hash.Mgr.Choice.{BestFit, applicable_node-BestFit}
use final_libs.Hash.Table.{Table}
use final_libs.Hash.Table.View.{view, update}
use final_libs.Hash.Table.Branches.{Stands, Grown}
use final_libs.Hash.Core.{migrate, rounds}
use final_libs.Hash.Core.Walk.{nodes_from}
use final_libs.Hash.Core.Whole.{whole_lem}
use final_libs.Hash.Core.Moves.{Migrated, migrate_lem}
use final_libs.Hash.Samples.{
  bytes_opt, bytes_opt-Lawful, differ, empty_table, empty_table-IsFhash, one_key, one_key-IsFhash,
}

-- A free node of 24 bytes, one of 16, and one with no memory
abbrev free_nodes : List Node
free_nodes =
    (record { real_sz = 24; valid = false; key_sz = 0; value_sz = 0; memory = [] })
    ∷ (record { real_sz = 16; valid = false; key_sz = 0; value_sz = 0; memory = [] })
    ∷ node_init
    ∷ []

free_nodes-count : valid_count free_nodes < 3
unfolding valid_count
free_nodes-count = omega arith

applicable_node-BestFit_example :
    Ensures (BestFit (data_sz 2 4) free_nodes) (applicable_node false 2 4 free_nodes)
applicable_node-BestFit_example = applicable_node-BestFit 2 4 free_nodes free_nodes-count

-- the bucket of the key 97 98
abbrev bucket : Mgr
bucket = record {
  used = 1;
  nodes =
      (record {
        real_sz = 10;
        valid = true;
        key_sz = 2;
        value_sz = 1;
        memory = 97 ∷ 98 ∷ 0 ∷ 173 ∷ 174 ∷ 175 ∷ 176 ∷ 177 ∷ 5 ∷ 0 ∷ [];
      })
      ∷ [];
}

other_key : lookup bytes_opt (99 ∷ []) bucket.nodes ≡ none
unfolding lookup node_key slice differ
other_key = refl

-- the delayed node of the key 99
abbrev node : Node
node = record {
  real_sz = 10;
  valid = true;
  key_sz = 1;
  value_sz = 1;
  memory = 99 ∷ 0 ∷ 172 ∷ 173 ∷ 174 ∷ 175 ∷ 176 ∷ 177 ∷ 6 ∷ 0 ∷ [];
}

abbrev table : Table
table = one_key.current

abbrev NodeAdded : Table → Type 0
NodeAdded t' =
    Stands bytes_opt (update bytes_opt (view bytes_opt table) (99 ∷ []) (some (node_value node))) t'
    × Grown 1 table t'

migrate_lem_example :
    Ensures
      (Migrated bytes_opt (nodes_from table.mgrs 0 0) empty_table.current)
      (migrate (rounds table.mgrs) bytes_opt table 0 0 empty_table.current)
migrate_lem_example =
    migrate_lem bytes_opt-Lawful (rounds table.mgrs) table 0 0 empty_table.current
      empty_table-IsFhash.table (whole_lem bytes_opt table one_key-IsFhash.table).0
      (omega (arith, whole_lem bytes_opt table one_key-IsFhash.table))
      (omega (arith, whole_lem bytes_opt table one_key-IsFhash.table))
