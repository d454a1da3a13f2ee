-- ===== src/Hash/Mgr/Changes.antt =====
-- fhash/fhash_core.c: what the operations of a bucket do to what it holds.
use final_libs.Prelude.{
  ℕ, suc, ◌+◌, ◌-◌, ◌*◌, ◌<◌, ◌≡◌, refl, sym, ap, ◌∙◌, true, Option, none, some, [], ◌++◌, arith,
  if◌then◌else◌, length, get_elem?, set, replicate, subst, inl, inr, Bool-cases, Option-cases, ◌==◌,
  All-append, All-replicate, All-get_elem?, get_elem?-append_length, Ensures, Ensures-bind,
  Ensures-mono,
}
use final_libs.Hash.Node.{
  Bytes, Node, node_init, node_key, node_value, node_set, node_move, invalidate,
}
use final_libs.Hash.Node.Layout.{Sound, init-Sound, node_set-Filled}
use final_libs.Hash.Opt.{Opt, same, Lawful}
use final_libs.Hash.Mgr.{
  Mgr, size, enlarge_coefficient, find, enlarge, mgr_set, place_to_add, mgr_add, mgr_move,
  mgr_add_node, mgr_del, mgr_get,
}
use final_libs.Hash.Mgr.Lookup.{
  to_nat, hit, lookup, count, find-lookup, find-none, fresh_nodes, valid_count, valid_count-le,
}
use final_libs.Hash.Mgr.Inv.{IsBucket, Reads, fill_lem, free_lem, invalidate-Sound}
use final_libs.Hash.Mgr.Choice.{FreeAt, first-FreeAt, applicable_node-BestFit}

-- The result is a bucket that reads as before but for `key`, which reads as `v`, and that has
-- `used` valid nodes.
abbrev pub Changed : Opt → Bytes → Option Bytes → ℕ → Mgr → Mgr → Type 0
Changed opt key v used m m' = IsBucket opt m' × Reads opt key v m m' × (m'.used ≡ used)

pub mgr_get-lookup :
    (opt : Opt) (m : Mgr) (key : Bytes) → mgr_get opt m key ≡ lookup opt key m.nodes
unfolding mgr_get
mgr_get-lookup opt m key = elim (Option-cases (find opt true key m.nodes)) [
  | inl e ↦ rw (e, mgr_get) (sym (find-none opt key m.nodes e))
  | inr (i, e) ↦
      let (n, at_i, hits, value) = find-lookup opt key m.nodes e in
      rw (e, mgr_get) (rw (at_i, value))
]

module _ (fresh : ℕ → ℕ) {opt : Opt} (law : Lawful opt) (m : Mgr) (b : IsBucket opt m) where
  -- a write of the node `i`, when that is the node of the key
  pub mgr_set_lem :
      (i : ℕ) (n : Node) (key value : Bytes)
      → get_elem? m.nodes i ≡ some n
      → hit opt key n ≡ true
      → Ensures (Changed opt key (some value) m.used m) (mgr_set fresh m i key value)
  unfolding mgr_set
  mgr_set_lem i n key value at_i h = rw at_i (
      Ensures-bind (Changed opt key (some value) m.used m) (node_set fresh n key value) _
        (node_set-Filled fresh n key value (All-get_elem? Sound m.nodes i b.sound at_i))
        (λ n' f.
          let (b', reads) =
            fill_lem law m i n n' key b at_i f.sound f.is_valid f.holds_key (inr h) in
          let kept : m.used + 1 - to_nat n.valid ≡ m.used = ground arith in
          (
            subst (λ k. IsBucket opt (record m { used = k; nodes = set m.nodes i n' })) kept b',
            λ q. rw (← f.holds_value) (reads q),
            refl,
          )))

  pub mgr_del_lem :
      (i : ℕ) (n : Node) (key : Bytes)
      → get_elem? m.nodes i ≡ some n
      → hit opt key n ≡ true
      → Ensures (λ m'. Changed opt key none (m.used - 1) m m' × (0 < m.used)) (mgr_del m i)
  unfolding mgr_del invalidate
  mgr_del_lem i n key at_i h =
      let sound = invalidate-Sound n (All-get_elem? Sound m.nodes i b.sound at_i) in
      let (b', reads, pos) = free_lem law m i n (invalidate n) key b at_i h sound refl in
      rw at_i ((b', reads, refl), pos)

  -- After enlargement the bucket reads as before, and its first new node is free.
  enlarge_lem :
      let m' = enlarge m in
      IsBucket opt m'
      × ((q : Bytes) → lookup opt q m'.nodes ≡ lookup opt q m.nodes)
      × FreeAt m'.nodes (size m)
  unfolding enlarge count
  enlarge_lem =
      let new_size = if size m == 0 then 1 else size m * enlarge_coefficient in
      let k = new_size - size m in
      let some_new : k ≡ suc (k - 1) = ground arith in
      (
        record {
          counted = b.counted ∙ sym (fresh_nodes opt [] m.nodes k).2;
          sound =
              All-append Sound m.nodes (replicate k node_init) b.sound
                (All-replicate Sound k node_init init-Sound);
          distinct = λ q. rw (fresh_nodes opt q m.nodes k).1 (b.distinct q);
        },
        λ q. (fresh_nodes opt q m.nodes k).0,
        (
          node_init,
          ap (λ j. get_elem? (m.nodes ++ replicate j node_init) (size m)) some_new
              ∙ get_elem?-append_length m.nodes (replicate (k - 1) node_init) node_init,
          refl,
        ),
      )

  -- Whatever free node an addition proposes, the place that is taken is free, in a bucket that reads
  -- as before.
  place_to_add_lem :
      (proposed : Option ℕ)
      → (valid_count m.nodes < size m → Ensures (FreeAt m.nodes) proposed)
      → Ensures
          (λ (i, m').
            IsBucket opt m'
            × ((q : Bytes) → lookup opt q m'.nodes ≡ lookup opt q m.nodes)
            × FreeAt m'.nodes i
            × (m'.used ≡ m.used))
          (place_to_add m proposed)
  unfolding place_to_add enlarge
  place_to_add_lem proposed h = elim (Bool-cases (m.used == size m)) [
    | inl full ↦ rw full (enlarge_lem.0, enlarge_lem.1, enlarge_lem.2, refl)
    | inr room ↦ rw room (
        Ensures-bind _ proposed _ (h (ground (arith, b.counted, valid_count-le m.nodes)))
          (λ i at_i. (b, (λ q. refl), at_i, refl)))
  ]

-- what a write to a free place leaves, before `used` is raised
abbrev Filling : Opt → Bytes → Bytes → Mgr → Mgr → Type 0
Filling opt key value m m' =
    IsBucket opt (record m' { used = m'.used + 1 })
    × Reads opt key (some value) m m'
    × (m'.used ≡ m.used)

module _ {opt : Opt} (law : Lawful opt) (m : Mgr) (b : IsBucket opt m) (i : ℕ)
    (free_at : FreeAt m.nodes i) (key : Bytes) (unfound : lookup opt key m.nodes ≡ none) where
  fill_free :
      (n' : Node)
      → Sound n'
      → n'.valid ≡ true
      → node_key n' ≡ key
      → Filling opt key (node_value n') m (record m { nodes = set m.nodes i n' })
  fill_free n' sound valid same_key =
      let (n, at_i, free) = free_at in
      let (b', reads) =
        fill_lem law m i n n' key b at_i sound valid same_key (inl (free, unfound)) in
      let raised : m.used + 1 - to_nat n.valid ≡ m.used + 1 = ground arith in
      (
        subst (λ k. IsBucket opt (record m { used = k; nodes = set m.nodes i n' })) raised b',
        reads,
        refl,
      )

  mgr_set-Filling :
      (fresh : ℕ → ℕ) (value : Bytes)
      → Ensures (Filling opt key value m) (mgr_set fresh m i key value)
  unfolding mgr_set
  mgr_set-Filling fresh value =
      let (n, at_i, free) = free_at in
      rw at_i (
        Ensures-bind (Filling opt key value m) (node_set fresh n key value) _
          (node_set-Filled fresh n key value (All-get_elem? Sound m.nodes i b.sound at_i))
          (λ n' f.
            let (b', reads, used) = fill_free n' f.sound f.is_valid f.holds_key in
            (b', (λ q. rw (← f.holds_value) (reads q)), used)))

  mgr_move-Filling :
      (node : Node)
      → Sound node
      → node.valid ≡ true
      → node_key node ≡ key
      → Ensures (Filling opt key (node_value node) m) (mgr_move m i node)
  unfolding mgr_move node_move
  mgr_move-Filling node sound valid same_key = rw free_at.1 (fill_free node sound valid same_key)

module _ (fresh : ℕ → ℕ) {opt : Opt} (law : Lawful opt) (m : Mgr) (b : IsBucket opt m) where
  -- `_hash_nodemgr_add` of a key that a well-formed bucket does not hold is defined: the
  -- assertion behind the search for a node holds. The bucket stays well formed with one valid
  -- node more, the key has the value, and all other keys read as before.
  pub mgr_add_lem :
      (key value : Bytes)
      → lookup opt key m.nodes ≡ none
      → Ensures (Changed opt key (some value) (m.used + 1) m) (mgr_add fresh m key value)
  unfolding mgr_add
  mgr_add_lem key value unfound =
      Ensures-bind (Changed opt key (some value) (m.used + 1) m) (place_to_add m _) _
        (place_to_add_lem fresh law m b _ (λ h.
          Ensures-mono (FreeAt m.nodes) _
            (applicable_node-BestFit (length key) (length value) m.nodes h)
            (λ i (n, at_i, free, _). (n, at_i, free))))
        (λ (i, m') (b', same, free_at, used).
          Ensures-bind _ (mgr_set fresh m' i key value) _
            (mgr_set-Filling law m' b' i free_at key (same key ∙ unfound) fresh value)
            (λ m'' (b'', reads, used').
              (b'', (λ q. rw (← same q) (reads q)), ap (λ k. k + 1) (used' ∙ used))))

  -- The same of `_hash_nodemgr_add_node` and the key and value of a node that is moved in.
  pub mgr_add_node_lem :
      (node : Node)
      → Sound node
      → node.valid ≡ true
      → lookup opt (node_key node) m.nodes ≡ none
      → Ensures
          (Changed opt (node_key node) (some (node_value node)) (m.used + 1) m)
          (mgr_add_node m node)
  unfolding mgr_add_node
  mgr_add_node_lem node sound valid unfound =
      Ensures-bind _ (place_to_add m _) _
        (place_to_add_lem fresh law m b _
          (λ h. let (i, found, free_at) = first-FreeAt m.nodes h in rw found free_at))
        (λ (i, m') (b', same, free_at, used).
          Ensures-bind _ (mgr_move m' i node) _
            (mgr_move-Filling law m' b' i free_at (node_key node) (same (node_key node) ∙ unfound)
              node sound valid refl)
            (λ m'' (b'', reads, used').
              (b'', (λ q. rw (← same q) (reads q)), ap (λ k. k + 1) (used' ∙ used))))

  -- a node moved onto the node of its key
  pub mgr_move_lem :
      (i : ℕ) (n node : Node)
      → get_elem? m.nodes i ≡ some n
      → hit opt (node_key node) n ≡ true
      → Sound node
      → node.valid ≡ true
      → Ensures (Changed opt (node_key node) (some (node_value node)) m.used m) (mgr_move m i node)
  unfolding mgr_move node_move
  mgr_move_lem i n node at_i h sound valid =
      let (b', reads) = fill_lem law m i n node (node_key node) b at_i sound valid refl (inr h) in
      let kept : m.used + 1 - to_nat n.valid ≡ m.used = ground arith in
      rw at_i (
        subst (λ k. IsBucket opt (record m { used = k; nodes = set m.nodes i node })) kept b',
        reads,
        refl,
      )
