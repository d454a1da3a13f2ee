-- ===== src/Hash/Mgr.antt =====
-- fhash/fhash_core.c, NODE_MGR: the nodes of one bucket.
pub mod Choice
pub mod Lookup
pub mod Inv
pub mod Changes
use mathlib.Core.Option
use final_libs.Prelude.{
  ℕ, suc, ◌+◌, ◌-◌, ◌*◌, ◌<◌, Bool, true, false, not, ◌&&◌, ◌||◌, Option, none, some, List, [], ◌∷◌,
  ◌++◌, ltb, ◌==◌, if◌then◌else◌, ◌>>=◌, length, get_elem?, set, replicate,
}
use final_libs.Hash.Node.{
  Bytes, Node, data_sz, node_init, node_key, node_value, node_set, node_move, invalidate,
}
use final_libs.Hash.Opt.{Opt, same}

-- `_fhash_node_mgr`. `size` is the length of the node list. The counters count nodes in memory, of
-- 40 bytes each, and cannot wrap.
pub record Mgr : Type 0 where
  pub used : ℕ
  pub nodes : List Node

abbrev pub size : Mgr → ℕ
size m = length m.nodes

-- `_hash_nodemgr_init`
abbrev pub mgr_init : Mgr
mgr_init = record { used = 0; nodes = [] }

-- `node->valid == target`
abbrev pub is_target : Bool → Node → Bool
is_target true n = n.valid
is_target false n = not n.valid

-- `_hash_nodemgr_find`, as an index: the first node in the wanted state with the key
unfoldable pub find : Opt → Bool → Bytes → List Node → Option ℕ
find opt target key [] = none
find opt target key (n ∷ ns) =
    if is_target target n && same opt (node_key n) key
    then some 0
    else Option.map suc (find opt target key ns)

-- NODELIST_ENLARGE_COEFFICIENT
abbrev pub enlarge_coefficient : ℕ
enlarge_coefficient = 2

unfoldable pub enlarge : Mgr → Mgr
enlarge m =
    let new_size = if size m == 0 then 1 else size m * enlarge_coefficient in
    record m { nodes = m.nodes ++ replicate (new_size - size m) node_init }

-- `_hash_nodemgr_first`
unfoldable pub first : Bool → List Node → Option ℕ
first target [] = none
first target (n ∷ ns) = if is_target target n then some 0 else Option.map suc (first target ns)

-- one round of the loop of `_hash_nodemgr_applicable_node`: the best node so far, with its waste
unfoldable pub better : Bool → ℕ → ℕ → Node → Option (ℕ × ℕ) → Option (ℕ × ℕ)
better target new_sz i n best =
    if not (is_target target n) || ltb n.real_sz new_sz then best else elim best [
      | none ↦ some (i, n.real_sz - new_sz)
      | some (j, lowest) ↦
          if ltb (n.real_sz - new_sz) lowest then some (i, n.real_sz - new_sz) else some (j, lowest)
    ]

unfoldable pub best_from : Bool → ℕ → ℕ → List Node → Option (ℕ × ℕ) → Option (ℕ × ℕ)
best_from target new_sz i [] best = best
best_from target new_sz i (n ∷ ns) best =
    best_from target new_sz (i + 1) ns (better target new_sz i n best)

unfoldable pub applicable_node : Bool → ℕ → ℕ → List Node → Option ℕ
applicable_node target key_sz value_sz ns =
    elim (best_from target (data_sz key_sz value_sz) 0 ns none) [
      | some (i, _) ↦ some i
      | none ↦ first target ns
    ]

-- `_hash_nodemgr_set`: the node is given as its index.
unfoldable pub mgr_set : (ℕ → ℕ) → Mgr → ℕ → Bytes → Bytes → Option Mgr
mgr_set fresh m i key value = do
  n ← get_elem? m.nodes i
  n' ← node_set fresh n key value
  some (record m { nodes = set m.nodes i n' })

-- The node that an addition fills: the first new one, or a free one. `none` is the failed assertion.
unfoldable pub place_to_add : Mgr → Option ℕ → Option (ℕ × Mgr)
place_to_add m free_node =
    if m.used == size m then some (size m, enlarge m) else (do i ← free_node; some (i, m))

-- `_hash_nodemgr_add`
unfoldable pub mgr_add : (ℕ → ℕ) → Mgr → Bytes → Bytes → Option Mgr
mgr_add fresh m key value = do
  (i, m') ← place_to_add m (applicable_node false (length key) (length value) m.nodes)
  m'' ← mgr_set fresh m' i key value
  some (record m'' { used = m''.used + 1 })

-- `_hash_node_move` onto the node with this index
unfoldable pub mgr_move : Mgr → ℕ → Node → Option Mgr
mgr_move m i node = do
  dst ← get_elem? m.nodes i
  some (record m { nodes = set m.nodes i (node_move dst node) })

-- `_hash_nodemgr_add_node`
unfoldable pub mgr_add_node : Mgr → Node → Option Mgr
mgr_add_node m node = do
  (i, m') ← place_to_add m (first false m.nodes)
  m'' ← mgr_move m' i node
  some (record m'' { used = m''.used + 1 })

-- `_hash_nodemgr_del`; it runs on a valid node, so `used` is not 0.
unfoldable pub mgr_del : Mgr → ℕ → Option Mgr
mgr_del m i = do
  n ← get_elem? m.nodes i
  some (record { used = m.used - 1; nodes = set m.nodes i (invalidate n) })

-- `_hash_nodemgr_get`: the bytes at the returned pointer, or NULL
unfoldable pub mgr_get : Opt → Mgr → Bytes → Option Bytes
mgr_get opt m key = elim (find opt true key m.nodes) [
  | none ↦ none
  | some i ↦ Option.map node_value (get_elem? m.nodes i)
]
