-- ===== src/Hash/Table/Ops.antt =====
-- fhash/fhash_core.c: the operations of a table against the map that it stands for.
use final_libs.Prelude.{ℕ, ◌≡◌, ◌≢◌, true, false, none, some, arith, ◌==◌, Ensures}
use final_libs.Hash.Node.{Bytes, Node, node_key, node_value}
use final_libs.Hash.Node.Layout.{Sound}
use final_libs.Hash.Opt.{Opt, Lawful}
use final_libs.Hash.Mgr.Changes.{mgr_get-lookup}
use final_libs.Hash.Table.{
  Table, size_max, tbl_set, tbl_set_node, tbl_set_only, tbl_get, tbl_del, tbl_fetch_and_del,
}
use final_libs.Hash.Table.View.{IsTable, view, update, home-IsBucket}
use final_libs.Hash.Table.Branches.{
  Stands, Grown, SetOnly, Fetched, locate_lem, find-Found, set_found_lem, set_node_found_lem,
  set_only_found_lem, del_found_lem, fetch_found_lem,
}

module _ {opt : Opt} (law : Lawful opt) (t : Table) (is : IsTable opt t) (key : Bytes) where
  -- On a well-formed table `_hash_tbl_get` returns the value of the key, or NULL if it has
  -- none.
  pub tbl_get_lem : tbl_get opt t key ≡ some (view opt t key)
  unfolding tbl_get
  tbl_get_lem =
      let (m, at_home, b, value) = home-IsBucket law t is key in
      rw (at_home, mgr_get-lookup opt m key, value)

  -- `_hash_tbl_set` on a well-formed table whose node count is not SIZE_MAX is defined. The
  -- table stays well formed, the key has the value and all other keys have the value they had;
  -- the node count grows by one at most, and the number of buckets stays.
  pub tbl_set_lem :
      (fresh : ℕ → ℕ) (value : Bytes)
      → t.slots_used ≢ size_max
      → Ensures
          (λ t'. Stands opt (update opt (view opt t) key (some value)) t' × Grown 1 t t')
          (tbl_set fresh opt t key value)
  unfolding tbl_set
  tbl_set_lem fresh value room =
      let (m, found, at_home, b, here) = locate_lem law t is key in
      let not_full : (t.slots_used == size_max) ≡ false = ground arith in
      rw (not_full, found)
        (set_found_lem law t is key m at_home b fresh value _ (find-Found law t is key m))

  -- `_hash_tbl_set_only` on a well-formed table is defined. If the key has no value it returns
  -- 0 and changes nothing; else it returns 1, the table stays well formed, the key has the new
  -- value, and all other keys have the value they had.
  pub tbl_set_only_lem :
      (fresh : ℕ → ℕ) (value : Bytes)
      → Ensures (SetOnly opt t key value) (tbl_set_only fresh opt t key value)
  unfolding tbl_set_only
  tbl_set_only_lem fresh value =
      let (m, found, at_home, b, here) = locate_lem law t is key in
      rw found
        (set_only_found_lem law t is key m at_home b fresh value _ (find-Found law t is key m) here)

  -- `_hash_tbl_del` on a well-formed table is defined and keeps it well formed; the key then
  -- has no value, and all other keys have the value they had.
  pub tbl_del_lem : Ensures (Stands opt (update opt (view opt t) key none)) (tbl_del opt t key)
  unfolding tbl_del
  tbl_del_lem =
      let (m, found, at_home, b, here) = locate_lem law t is key in
      rw found (del_found_lem law t is key m at_home b _ (find-Found law t is key m) here)

  -- `_hash_tbl_fetch_and_del` on a well-formed table is defined. It copies the first
  -- `value_sz` bytes of the key's value, or all if there are fewer, or returns NULL if there
  -- is no value; the table is then as after `_hash_tbl_del`.
  pub tbl_fetch_and_del_lem :
      (value_sz : ℕ) → Ensures (Fetched opt t key value_sz) (tbl_fetch_and_del opt t key value_sz)
  unfolding tbl_fetch_and_del
  tbl_fetch_and_del_lem value_sz =
      let (m, found, at_home, b, here) = locate_lem law t is key in
      rw found
        (fetch_found_lem law t is key m at_home b value_sz _ (find-Found law t is key m) here)

  -- `_hash_tbl_set_node` of a sound and valid node, on a well-formed table whose node count is
  -- not SIZE_MAX, is defined. The table stays well formed, the node's key has the node's value
  -- and all other keys have the value they had; the node count grows by one at most, and the
  -- number of buckets stays.
  pub tbl_set_node_lem :
      (node : Node)
      → Sound node
      → node.valid ≡ true
      → node_key node ≡ key
      → t.slots_used ≢ size_max
      → Ensures
          (λ t'.
            Stands opt (update opt (view opt t) key (some (node_value node))) t' × Grown 1 t t')
          (tbl_set_node opt t node)
  unfolding tbl_set_node
  tbl_set_node_lem node sound valid is_key room =
      let (m, found, at_home, b, here) = locate_lem law t is key in
      let not_full : (t.slots_used == size_max) ≡ false = ground arith in
      rw (is_key, not_full, found)
        (set_node_found_lem law t is key m at_home b node _ sound valid is_key
          (find-Found law t is key m))
