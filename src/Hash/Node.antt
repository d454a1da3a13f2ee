-- ===== src/Hash/Node.antt =====
-- fhash/fhash_core.c, NODE: one node and the memory that holds its key and its value.
pub mod Layout
use final_libs.Prelude.{
  ℕ, ◌+◌, ◌*◌, ◌/◌, Bool, true, false, Option, none, some, List, [], ◌∷◌, ltb, if◌then◌else◌, ◌>>=◌,
  length, slice, write_at, realloc_cells,
}

-- What a pointer and a size stand for, as far as the size goes.
abbrev pub Bytes : Type 0
Bytes = List ℕ

-- `_fhash_node`. `«data»` is the memory behind the pointer, empty for NULL.
pub record Node : Type 0 where
  pub real_sz : ℕ
  pub valid : Bool
  pub key_sz : ℕ
  pub value_sz : ℕ
  pub memory : List ℕ

-- FHASH_KEY_REALSZ on a machine with pointers of 8 bytes
unfoldable pub key_real_sz : ℕ → ℕ
key_real_sz key_sz = (key_sz / 4 + 1) * 8

-- FHASH_DATASZ
unfoldable pub data_sz : ℕ → ℕ → ℕ
data_sz key_sz value_sz = key_real_sz key_sz + value_sz + 1

-- `_hash_node_init`
abbrev pub node_init : Node
node_init = record { real_sz = 0; valid = false; key_sz = 0; value_sz = 0; memory = [] }

-- The bytes that `_hash_node_key` and `_hash_node_value` point to, with the sizes of the node.
unfoldable pub node_key : Node → Bytes
node_key n = slice n.memory 0 n.key_sz

unfoldable pub node_value : Node → Bytes
node_value n = slice n.memory (key_real_sz n.key_sz) n.value_sz

-- `fresh` is what `realloc` leaves in new bytes.
module _ (fresh : ℕ → ℕ) where
  unfoldable pub try_enlarge : Node → ℕ → ℕ → Node
  try_enlarge n key_sz value_sz =
      let new_sz = data_sz key_sz value_sz in
      if ltb n.real_sz new_sz
      then record n { memory = realloc_cells fresh n.memory new_sz; real_sz = new_sz }
      else n

  unfoldable pub set_key : Node → Bytes → Option Node
  set_key n key = do
    let n' = try_enlarge n (length key) n.value_sz
    m ← write_at n'.memory 0 key
    m' ← write_at m (length key) (0 ∷ [])
    some (record n' { memory = m'; key_sz = length key })

  unfoldable pub set_value : Node → Bytes → Option Node
  set_value n value = do
    let n' = try_enlarge n n.key_sz (length value)
    let at_value = key_real_sz n'.key_sz
    m ← write_at n'.memory at_value value
    m' ← write_at m (at_value + length value) (0 ∷ [])
    some (record n' { memory = m'; value_sz = length value })

  unfoldable pub node_set : Node → Bytes → Bytes → Option Node
  node_set n key value = do
    let n' = try_enlarge n (length key) (length value)
    n'' ← set_key (record n' { valid = true; key_sz = length key; value_sz = length value }) key
    set_value n'' value

-- `_hash_node_move`: the destination's memory is freed.
unfoldable pub node_move : Node → Node → Node
node_move dst src = src

-- `_hash_nodemgr_del` on the node
unfoldable pub invalidate : Node → Node
invalidate n = record n { valid = false }
