-- ===== src/Hash/Table.antt =====
-- fhash/fhash_core.c, TABLE: buckets by the hash of the key, and the counters beside them.
pub mod View
pub mod Branches
pub mod Ops
use final_libs.Prelude.{
  ℕ, ◌+◌, ◌-◌, ◌%◌, ◌^◌, ◌<◌, Bool, true, false, not, Option, none, some, List, ltb, ◌==◌,
  if◌then◌else◌, ◌>>=◌, ◌>>◌, guard, length, get_elem?, set, replicate, take,
}
use final_libs.Hash.Node.{Bytes, Node, node_key, node_value}
use final_libs.Hash.Opt.{Opt}
use final_libs.Hash.Mgr.{
  Mgr, size, mgr_init, find, mgr_set, mgr_add, mgr_move, mgr_add_node, mgr_del, mgr_get,
}

-- `_fhash`. `index_size` is the length of the list of buckets. `slots_used` counts nodes in memory
-- and cannot wrap; `index_used` is a `uint32_t`.
pub record Table : Type 0 where
  pub index_used : ℕ
  pub slots_used : ℕ
  pub mgrs : List Mgr

abbrev pub index_size : Table → ℕ
index_size t = length t.mgrs

-- SIZE_MAX
abbrev pub size_max : ℕ
size_max = 2 ^ 64 - 1

-- `_hash_tbl_calculate_idx`
abbrev pub calculate_idx : Opt → Table → Bytes → ℕ
calculate_idx opt t key = opt.hash_alg key % index_size t

-- `_hash_tbl_create`
unfoldable pub tbl_create : ℕ → Option Table
tbl_create init_size =
    guard (ltb 0 init_size)
    >> some (record { index_used = 0; slots_used = 0; mgrs = replicate init_size mgr_init })

-- The counters after an addition. `old_used` of the source is the size of the bucket.
unfoldable pub count_added : Table → Mgr → Table
count_added t m = record t {
  slots_used = t.slots_used + 1;
  index_used = if size m == 0 then (t.index_used + 1) % 2 ^ 32 else t.index_used;
}

-- The counters after a removal that leaves the bucket `m'`
unfoldable pub count_removed : Table → Mgr → Table
count_removed t m' = record t {
  slots_used = t.slots_used - 1;
  index_used = if m'.used == 0 then (t.index_used + 2 ^ 32 - 1) % 2 ^ 32 else t.index_used;
}

abbrev pub put_bucket : Table → ℕ → Mgr → Table
put_bucket t i m = record t { mgrs = set t.mgrs i m }

-- The search in the bucket of the key: the index and the bucket, and the node if it is there.
unfoldable pub locate : Opt → Table → Bytes → Option (ℕ × Mgr × Option ℕ)
locate opt t key = do
  m ← get_elem? t.mgrs (calculate_idx opt t key)
  some (calculate_idx opt t key, m, find opt true key m.nodes)

-- the two branches of `_hash_tbl_set`
unfoldable pub set_found : (ℕ → ℕ) → Table → Bytes → Bytes → ℕ → Mgr → Option ℕ → Option Table
set_found fresh t key value i m none = do
  m' ← mgr_add fresh m key value
  some (count_added (put_bucket t i m') m)
set_found fresh t key value i m (some j) = do
  m' ← mgr_set fresh m j key value
  some (put_bucket t i m')

unfoldable pub tbl_set : (ℕ → ℕ) → Opt → Table → Bytes → Bytes → Option Table
tbl_set fresh opt t key value = do
  guard (not (t.slots_used == size_max))
  (i, m, found) ← locate opt t key
  set_found fresh t key value i m found

-- the two branches of `_hash_tbl_set_node`
unfoldable pub set_node_found : Table → Node → ℕ → Mgr → Option ℕ → Option Table
set_node_found t node i m none = do
  m' ← mgr_add_node m node
  some (count_added (put_bucket t i m') m)
set_node_found t node i m (some j) = do m' ← mgr_move m j node; some (put_bucket t i m')

unfoldable pub tbl_set_node : Opt → Table → Node → Option Table
tbl_set_node opt t node = do
  guard (not (t.slots_used == size_max))
  (i, m, found) ← locate opt t (node_key node)
  set_node_found t node i m found

-- `_hash_tbl_set_only`, with its result 0 or 1
unfoldable pub set_only_found :
    (ℕ → ℕ) → Table → Bytes → Bytes → ℕ → Mgr → Option ℕ → Option (ℕ × Table)
set_only_found fresh t key value i m none = some (0, t)
set_only_found fresh t key value i m (some j) = do
  m' ← mgr_set fresh m j key value
  some (1, put_bucket t i m')

unfoldable pub tbl_set_only : (ℕ → ℕ) → Opt → Table → Bytes → Bytes → Option (ℕ × Table)
tbl_set_only fresh opt t key value = do
  (i, m, found) ← locate opt t key
  set_only_found fresh t key value i m found

-- `_hash_tbl_get`: the bytes at the returned pointer, or NULL
unfoldable pub tbl_get : Opt → Table → Bytes → Option (Option Bytes)
tbl_get opt t key = do m ← get_elem? t.mgrs (calculate_idx opt t key); some (mgr_get opt m key)

-- `_hash_tbl_del`
unfoldable pub del_found : Table → ℕ → Mgr → Option ℕ → Option Table
del_found t i m none = some t
del_found t i m (some j) = do m' ← mgr_del m j; some (count_removed (put_bucket t i m') m')

unfoldable pub tbl_del : Opt → Table → Bytes → Option Table
tbl_del opt t key = do (i, m, found) ← locate opt t key; del_found t i m found

-- `_hash_tbl_fetch_and_del`: what is copied to `value`, of at most `value_sz` bytes, or NULL
unfoldable pub fetch_found : Table → ℕ → ℕ → Mgr → Option ℕ → Option (Option Bytes × Table)
fetch_found t value_sz i m none = some (none, t)
fetch_found t value_sz i m (some j) = do
  node ← get_elem? m.nodes j
  let copy_sz = if ltb value_sz node.value_sz then value_sz else node.value_sz
  m' ← mgr_del m j
  some (some (take copy_sz (node_value node)), count_removed (put_bucket t i m') m')

unfoldable pub tbl_fetch_and_del : Opt → Table → Bytes → ℕ → Option (Option Bytes × Table)
tbl_fetch_and_del opt t key value_sz = do
  (i, m, found) ← locate opt t key
  fetch_found t value_sz i m found
