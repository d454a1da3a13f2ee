-- ===== src/Hash/Core.antt =====
-- fhash/fhash_core.c, from the iterator to the open interface. A call that gets NULL for the table
-- does nothing; here there is a table.
pub mod Walk
pub mod Taken
pub mod Rehash
pub mod Inv
pub mod Whole
pub mod Moves
use final_libs.Prelude.{
  ℕ, zero, suc, ◌+◌, ◌-◌, ◌*◌, ◌/◌, ◌%◌, ◌^◌, ◌<◌, Bool, true, false, not, ◌&&◌, ◌||◌, Option, none,
  some, List, [], ◌∷◌, ltb, leb, ◌==◌, if◌then◌else◌, ◌>>=◌, ◌>>◌, guard, length, get_elem?, set,
}
use mathlib.Core.Option
use final_libs.Hash.Node.{Bytes, Node, node_init, node_key, node_value}
use final_libs.Hash.Opt.{Opt}
use final_libs.Hash.Mgr.{Mgr, size, mgr_init, find, mgr_set, mgr_add, mgr_del, mgr_get}
use final_libs.Hash.Table.{
  Table, index_size, put_bucket, tbl_create, tbl_set, tbl_set_node, tbl_set_only, tbl_get, tbl_del,
  tbl_fetch_and_del,
}

-- `struct fhash` without `temporary`, which is always NULL. The flags are those of `mask`.
pub record Fhash : Type 0 where
  pub iter_refs : ℕ
  pub auto_rehash : Bool
  pub rehashing : Bool
  pub performing : Bool
  pub current : Table
  pub delayed : Mgr

-- the loop of `_hash_nodemgr_next`: the first valid node from `slot` on
unfoldable pub next_valid : List Node → ℕ → Option ℕ
next_valid [] slot = none
next_valid (n ∷ ns) zero = if n.valid then some 0 else Option.map suc (next_valid ns 0)
next_valid (n ∷ ns) (suc slot) = Option.map suc (next_valid ns slot)

-- The loop of `_hash_tbl_next` from a bucket and a slot on: bucket and slot of the next valid node.
-- At the end of a bucket the slot goes back to 0.
unfoldable pub next_node : List Mgr → ℕ → ℕ → Option (ℕ × ℕ)
next_node [] index slot = none
next_node (m ∷ ms) zero slot =
    let rest = next_node ms 0 0 in
    elim (next_valid m.nodes slot) [
      | some j ↦ some (0, j)
      | none ↦ Option.map (λ (i, j). (suc i, j)) rest
    ]
next_node (m ∷ ms) (suc index) slot = Option.map (λ (i, j). (suc i, j)) (next_node ms index slot)

-- `_hash_node_init` on a node of a table
unfoldable pub init_at : Table → ℕ → ℕ → Option Table
init_at t i j = do
  m ← get_elem? t.mgrs i
  some (put_bucket t i (record m { nodes = set m.nodes j node_init }))

unfoldable pub node_at : Table → ℕ → ℕ → Option Node
node_at t i j = get_elem? t.mgrs i >>= λ m. get_elem? m.nodes j

-- The loop of `_hash_rehash`: from the iterator's position on, every valid node of `old` is moved
-- to `new`. The loop has fuel for its rounds.
unfoldable pub migrate : ℕ → Opt → Table → ℕ → ℕ → Table → Option (Table × Table)
migrate zero opt old index slot new = none
migrate (suc fuel) opt old index slot new = elim (next_node old.mgrs index slot) [
  | none ↦ some (old, new)
  | some (i, j) ↦ node_at old i j >>= λ n. tbl_set_node opt new n >>= λ new'.
      init_at old i j >>= λ old'. migrate fuel opt old' i (j + 1) new'
]

-- as many rounds as there are nodes, and one to see the end
unfoldable pub rounds : List Mgr → ℕ
rounds [] = 1
rounds (m ∷ ms) = size m + rounds ms

-- the loop of `_hash_perform_actions`: the nodes, the table and `used` of the actions
unfoldable pub perform_nodes : Opt → List Node → Table → ℕ → Option (List Node × Table × ℕ)
perform_nodes opt [] t used = some ([], t, used)
perform_nodes opt (n ∷ ns) t used =
    if n.valid
    then (do
      t' ← tbl_set_node opt t n
      (ns', t'', used') ← perform_nodes opt ns t' (used - 1)
      some (node_init ∷ ns', t'', used'))
    else (do (ns', t'', used') ← perform_nodes opt ns t used; some (n ∷ ns', t'', used'))

unfoldable pub perform_actions : Opt → Fhash → Option Fhash
perform_actions opt h = do
  (ns, t, used) ← perform_nodes opt h.delayed.nodes h.current h.delayed.used
  guard (used == 0)
  some (record h { performing = false; current = t; delayed = record { used = used; nodes = ns } })

-- UINT32_MAX
abbrev pub uint32_max : ℕ
uint32_max = 2 ^ 32 - 1

-- AUTO_REHASH_THRESHOLD
abbrev pub auto_rehash_threshold : ℕ
auto_rehash_threshold = 4

-- FHASH_REHASH_SIZE
unfoldable pub rehash_size : Table → ℕ
rehash_size t = if leb (index_size t) (uint32_max / 2) then index_size t * 2 else uint32_max

unfoldable pub need_rehash : Table → Bool
need_rehash t = ltb auto_rehash_threshold (t.slots_used / index_size t)

unfoldable pub can_rehash : Fhash → Bool
can_rehash h =
    not (ltb 0 h.iter_refs)
    && (not (h.rehashing || h.performing) && not (index_size h.current == uint32_max))

-- `fhash_iter_new`, as far as it changes the table
unfoldable pub iter_new : Fhash → Fhash
iter_new h = record h { iter_refs = (h.iter_refs + 1) % 2 ^ 32 }

-- `fhash_iter_release`, over the function that tries a rehash
unfoldable pub release_with : (Fhash → Option Fhash) → Opt → Fhash → Option Fhash
release_with try opt h =
    let h' = record h { iter_refs = (h.iter_refs + 2 ^ 32 - 1) % 2 ^ 32 } in
    if ltb 0 h'.iter_refs
    then some h'
    else (do h'' ← perform_actions opt h'; if h''.auto_rehash then try h'' else some h'')

-- `_hash_try_rehash` during a rehash; `none` stands for a second rehash inside the first.
unfoldable pub try_nested : Fhash → Option Fhash
try_nested h = if can_rehash h then none else some h

-- `_hash_rehash`
unfoldable pub rehash_to : Opt → Fhash → ℕ → Option Fhash
rehash_to opt h new_size = do
  guard (h.iter_refs == 0)
  new ← tbl_create new_size
  let h' = iter_new (record h { rehashing = true })
  (old', new') ← migrate (rounds h.current.mgrs) opt h.current 0 0 new
  h'' ← release_with try_nested opt (record h' { current = old' })
  some (record h'' { current = new'; rehashing = false })

unfoldable pub try_rehash : Opt → Fhash → Option Fhash
try_rehash opt h =
    if can_rehash h && need_rehash h.current
    then rehash_to opt h (rehash_size h.current)
    else some h

-- `fhash_iter_release`
unfoldable pub iter_release : Opt → Fhash → Option Fhash
iter_release opt h = release_with (try_rehash opt) opt h
