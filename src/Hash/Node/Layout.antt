-- ===== src/Hash/Node/Layout.antt =====
-- fhash/fhash_core.c: the key and the value of a node do not run into each other, nor out of the
-- memory of the node.
use final_libs.Prelude.{
  ℕ, ◌+◌, ◌≤◌, ◌≡◌, refl, ap, true, some, [], ◌∷◌, arith, length, length-slice, splice,
  write_at-splice, length-splice, length-realloc_cells, slice-splice_self, slice-splice_before,
  Ensures,
}
use final_libs.Hash.Node.{
  Bytes, Node, key_real_sz, data_sz, node_init, node_key, node_value, try_enlarge, set_key,
  set_value, node_set,
}

-- The memory is as large as recorded, and what a valid node records fits.
pub record Sound (n : Node) : Type 0 where
  pub memory : length n.memory ≡ n.real_sz
  pub fits : n.valid ≡ true → data_sz n.key_sz n.value_sz ≤ n.real_sz

pub init-Sound : Sound node_init
init-Sound = record { memory = refl; fits = λ h. ground arith }

-- The value that a valid node shows has the recorded size.
pub length-node_value : (n : Node) → Sound n → n.valid ≡ true → length (node_value n) ≡ n.value_sz
unfolding node_value data_sz
length-node_value n s e =
    length-slice n.memory (key_real_sz n.key_sz) n.value_sz (omega (arith, s.memory, s.fits e))

-- a node with room for a key and a value of these sizes
record HasRoom (n : Node) (k v : ℕ) : Type 0 where
  memory : length n.memory ≡ n.real_sz
  room : data_sz k v ≤ n.real_sz

module _ (fresh : ℕ → ℕ) where
  try_enlarge-HasRoom :
      (n : Node) (k v : ℕ) → length n.memory ≡ n.real_sz → HasRoom (try_enlarge fresh n k v) k v
  unfolding try_enlarge
  try_enlarge-HasRoom n k v h = ground (arith, length-realloc_cells fresh n.memory (data_sz k v))

  -- With room, nothing is enlarged again.
  try_enlarge-idle : (n : Node) (k v : ℕ) → data_sz k v ≤ n.real_sz → try_enlarge fresh n k v ≡ n
  unfolding try_enlarge
  try_enlarge-idle n k v h = ground arith

-- what `_hash_node_set` leaves in the node
pub record Filled (key value : Bytes) (n : Node) : Type 0 where
  pub sound : Sound n
  pub is_valid : n.valid ≡ true
  pub holds_key : node_key n ≡ key
  pub holds_value : node_value n ≡ value

module _ (fresh : ℕ → ℕ) (key value : Bytes) (n : Node) where
  abbrev with_key : Node
  with_key = record n {
    memory = splice (splice n.memory 0 key) (length key) (0 ∷ []);
    key_sz = length key;
  }

  abbrev at_value : ℕ
  at_value = key_real_sz (length key)

  abbrev with_value : Node
  with_value = record n {
    memory = splice (splice n.memory at_value value) (at_value + length value) (0 ∷ []);
    value_sz = length value;
  }

  set_key-with_key :
      HasRoom n (length key) (length value)
      → n.value_sz ≡ length value
      → set_key fresh n key ≡ some with_key
  unfolding set_key data_sz key_real_sz
  set_key-with_key h e = rw (
    try_enlarge-idle fresh n (length key) n.value_sz (omega (arith, h.room)),
    write_at-splice n.memory 0 key (omega (arith, h.room)),
    write_at-splice (splice n.memory 0 key) (length key) (0 ∷ [])
        (ground (arith, h.room, length-splice n.memory 0 key)),
  )

  set_value-with_value :
      HasRoom n (length key) (length value)
      → n.key_sz ≡ length key
      → set_value fresh n value ≡ some with_value
  unfolding set_value data_sz
  set_value-with_value h e =
      let value_at : key_real_sz n.key_sz ≡ at_value = ap key_real_sz e in
      rw (
        try_enlarge-idle fresh n n.key_sz (length value) (rw e h.room),
        value_at,
        write_at-splice n.memory at_value value (omega (arith, h.room)),
        write_at-splice (splice n.memory at_value value) (at_value + length value) (0 ∷ [])
            (ground (arith, h.room, length-splice n.memory at_value value)),
      )

  -- the room stays, and what the key occupies stays when the value is written
  with_key-HasRoom :
      HasRoom n (length key) (length value) → HasRoom with_key (length key) (length value)
  unfolding data_sz key_real_sz
  with_key-HasRoom h = ground (
    arith,
    length-splice n.memory 0 key,
    length-splice (splice n.memory 0 key) (length key) (0 ∷ []),
  )

  with_value-Filled :
      HasRoom n (length key) (length value)
      → n.valid ≡ true
      → n.key_sz ≡ length key
      → node_key n ≡ key
      → Filled key value with_value
  unfolding data_sz key_real_sz node_key node_value
  with_value-Filled h ok e k =
      let m = splice n.memory at_value value in
      let value_at : key_real_sz n.key_sz ≡ at_value = ap key_real_sz e in
      record {
        sound = record {
          memory = ground (
            arith,
            length-splice n.memory at_value value,
            length-splice m (at_value + length value) (0 ∷ []),
          );
          fits = λ _. ground (arith, h.room);
        };
        is_valid = ok;
        holds_key = ground (
          arith,
          k,
          length-splice n.memory at_value value,
          slice-splice_before m (at_value + length value) (0 ∷ []) 0 n.key_sz,
          slice-splice_before n.memory at_value value 0 n.key_sz,
        );
        holds_value = ground (
          arith,
          length-splice n.memory at_value value,
          slice-splice_before m (at_value + length value) (0 ∷ []) at_value (length value),
          slice-splice_self n.memory at_value value,
        );
      }

  node_key-with_key : HasRoom n (length key) (length value) → node_key with_key ≡ key
  unfolding data_sz key_real_sz node_key
  node_key-with_key h = ground (
    arith,
    length-splice n.memory 0 key,
    slice-splice_before (splice n.memory 0 key) (length key) (0 ∷ []) 0 (length key),
    slice-splice_self n.memory 0 key,
  )

-- `_hash_node_set` on a node whose memory is as large as recorded writes inside that memory,
-- which it enlarges first where needed. The node is then valid, reads back exactly the key and
-- the value that were given, and is sound again.
pub node_set-Filled :
    (fresh : ℕ → ℕ) (n : Node) (key value : Bytes)
    → Sound n
    → Ensures (Filled key value) (node_set fresh n key value)
unfolding node_set
node_set-Filled fresh n key value h =
    let room = try_enlarge-HasRoom fresh n (length key) (length value) h.memory in
    let n1 = record (try_enlarge fresh n (length key) (length value)) {
      valid = true;
      key_sz = length key;
      value_sz = length value;
    } in
    let room1 : HasRoom n1 (length key) (length value) = record {
      memory = room.memory;
      room = room.room;
    } in
    let n2 = with_key fresh key value n1 in
    let room2 = with_key-HasRoom fresh key value n1 room1 in
    rw
      (
        set_key-with_key fresh key value n1 room1 refl,
        set_value-with_value fresh key value n2 room2 refl,
      )
      (with_value-Filled fresh key value n2 room2 refl refl
        (node_key-with_key fresh key value n1 room1))
