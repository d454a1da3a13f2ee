-- ===== src/Cache/Add.antt =====
-- fcache/fcache.c: `_fcache_add_node`.
use final_libs.Prelude.{
  ℕ, ◌+◌, ◌<◌, ◌≤◌, ◌^◌, ◌≡◌, ◌≢◌, refl, sym, ap, ◌∙◌, true, false, ◌||◌, none, some, List, [], ◌∷◌,
  ◌++◌, arith, ◌==◌, if◌then◌else◌, ◌>>=◌, inl, inr, Bool-cases, length, length-append, test_eq,
  test_ne, Ensures, Ensures-bind,
}
use native.Mathlib.Decide.{ℕ_discrete}
use final_libs.Dlist.Cells.{Ptr}
use final_libs.Dlist.Chain.{has}
use final_libs.Dlist.Inv.{has-append}
use final_libs.CacheList.{
  Key, Heap, c_string, make_node, set_nodekey, set_nodedata, push, destroy_node,
}
use final_libs.CacheList.Keys.{Clean}
use final_libs.CacheList.Laws.{Pushed, push_heap}
use final_libs.Cache.Lookup.{Index, most_nodes, is_unfit_key, bind, same_key}
use final_libs.Cache.Pair.{two, IsHeap-congr, put-inactive}
use final_libs.Cache.Inv.{inside, IsCache}
use final_libs.Cache.Used.{inside_alive}
use final_libs.Cache.Removal.{same_key_eq, same_key_refl}
use final_libs.Cache.{Cache, inactive, add_node}
use final_libs.Cache.Make.{Made, keyed_lem, objects_lem}

-- the size of a key that is not empty
pub some_key_size :
    (key : Key) (key_size : ℕ)
    → is_unfit_key key ≡ false
    → length key ≤ key_size
    → (key_size == 0) ≡ false
some_key_size [] key_size given fits = absurd (ground arith)
some_key_size (c ∷ key) key_size given fits =
    test_ne key_size 0 (λ z. absurd (omega (arith, z, fits)))

bind_new :
    (g : Key → Ptr) (key : Key) (a b : ℕ) (q : Key)
    → g key ≡ none
    → g q ≡ some b
    → bind g key (some a) q ≡ some b
bind_new g key a b q new at_q = elim (Bool-cases (same_key key q)) [
  | inl same ↦ absurd (ground (arith, at_q, new, ap g (same_key_eq key q same)))
  | inr other ↦ rw other at_q
]

module _ {ix : Index} where
  -- the cache with a new node at the tail of its inactive list
  pub record Added (e : ℕ → ℕ) (c : Cache ix) (g : Key → Ptr) (xs ys : List ℕ) (a : ℕ) (key : Key)
      (value value_size : ℕ) (r : ℕ × Cache ix) : Type 0 where
    pub status : r.0 ≡ 0
    pub cache : IsCache e r.1 (bind g key (some a)) xs (ys ++ a ∷ [])
    pub object : (r.1.heap.store.nodes a).user_data ≡ value
    pub size : (r.1.heap.store.nodes a).data_size ≡ value_size
    pub objects :
        (b : ℕ) → b ≢ a → (r.1.heap.store.nodes b).user_data ≡ (c.heap.store.nodes b).user_data
    pub sizes :
        (b : ℕ) → b ≢ a → (r.1.heap.store.nodes b).data_size ≡ (c.heap.store.nodes b).data_size
    pub same : r.1 ≡ record c { index = r.1.index; heap = r.1.heap }

  added :
      {e : ℕ → ℕ} {g : Key → Ptr} {xs ys : List ℕ} (c : Cache ix) (a : ℕ) (key : Key)
      (value value_size : ℕ) (t : ix.Table) (h2 : Heap) (r : ℕ × Heap)
      → IsCache e c g xs ys
      → c.heap.live a ≡ false
      → g key ≡ none
      → is_unfit_key key ≡ false
      → length xs + length ys + 1 < 2 ^ 64
      → Made e c.heap (two xs ys) a key value h2
      → ix.Stands t (bind g key (some a))
      → Pushed e h2 (two xs ys) inactive a value_size r
      → Added e c g xs ys a key value value_size (0, record c { index = t; heap = r.1 })
  unfolding has
  added {e} {g} {xs} {ys} c a key value value_size t h2 r is dead new given room made stands
        pushed =
      record {
        status = refl;
        cache = record {
          heap = IsHeap-congr _ _ (put-inactive xs ys (ys ++ a ∷ [])) pushed.heap;
          index = stands;
          listed = λ q b found. elim (Bool-cases (same_key key q)) [
            | inl same ↦
                let b_a : b ≡ a = ground (arith, found, same) in
                let q_key = same_key_eq key q same in
                (
                  now b ∙ ground (arith, test_eq b a b_a),
                  ap (λ k. c_string (k b)) pushed.keys
                      ∙ ap (λ n. c_string (h2.keys n)) b_a
                      ∙ made.key_there
                      ∙ ap some q_key,
                )
            | inr other ↦
                let (there, b_key) = is.listed q b (ground (arith, found, other)) in
                (
                  now b ∙ ground (arith, there),
                  ap (λ k. c_string (k b)) pushed.keys
                      ∙ ap c_string (made.keys b (old b there))
                      ∙ b_key,
                )
          ];
          keyed = λ b there. elim (ℕ_discrete b a) [
            | yes same ↦ (
              key,
              ap (λ k. c_string (k b)) pushed.keys
                  ∙ ap (λ n. c_string (h2.keys n)) same
                  ∙ made.key_there,
              rw (same_key_refl key) (ap some (sym same)),
              given,
            )
            | no differ ↦
                let before : inside b xs ys ≡ true =
                  ground (arith, there, now b, test_ne b a differ) in
                let (q, b_key, at_q, some_key) = is.keyed b before in
                (
                  q,
                  ap (λ k. c_string (k b)) pushed.keys ∙ ap c_string (made.keys b differ) ∙ b_key,
                  bind_new g key a b q new at_q,
                  some_key,
                )
          ];
          small = omega (arith, length-append ys (a ∷ []), room);
        };
        object = pushed.objects a ∙ made.object;
        size = pushed.size;
        objects = λ b ne. pushed.objects b ∙ ap (λ m. m.user_data) (made.nodes b ne);
        sizes = λ b ne. pushed.sizes b ne ∙ ap (λ m. m.data_size) (made.nodes b ne);
        same = refl;
      }
    where
      now : (b : ℕ) → inside b xs (ys ++ a ∷ []) ≡ (inside b xs ys || (b == a))
      now b = ground (arith, has-append b ys (a ∷ []))

      old : (b : ℕ) → inside b xs ys ≡ true → b ≢ a
      old b there same =
          absurd (ground (arith, inside_alive b is.heap there, ap c.heap.live same, dead))

  -- `_fcache_add_node` of a key that is not in the cache
  pub add_node_lem :
      {e : ℕ → ℕ} {g : Key → Ptr} {xs ys : List ℕ} (c : Cache ix) (a : ℕ) (key : Key)
      (key_size value value_size : ℕ)
      → IsCache e c g xs ys
      → c.heap.live a ≡ false
      → g key ≡ none
      → is_unfit_key key ≡ false
      → Clean key
      → length key ≤ key_size
      → (value == 0) ≡ false
      → length xs + length ys + 1 < 2 ^ 64
      → a < 2 ^ 64
      → ix.used c.index + 1 < most_nodes
      → Ensures
          (Added e c g xs ys a key value value_size)
          (add_node c a key key_size value value_size)
  unfolding add_node
  add_node_lem {e} {g} {xs} {ys} c a key key_size value value_size is dead new given clean fits obj
        room pointer counted =
      let P = Added e c g xs ys a key value value_size in
      let sized = some_key_size key key_size given fits in
      Ensures-bind {P = Made e c.heap (two xs ys) a key 0} P
        (set_nodekey (make_node c.heap a key_size) a key key_size) _
        (keyed_lem a is.heap dead key key_size clean fits sized)
        (λ h1 made1.
          Ensures-bind {P = Made e c.heap (two xs ys) a key value} P (set_nodedata h1 a value) _
            (objects_lem a value made1 obj)
            (λ h2 made.
              Ensures-bind {P = λ t. ix.Stands t (bind g key (some a))} P (ix.set c.index key a) _
                (ix.set_stands c.index g key a is.index given pointer counted)
                (λ t stands.
                  Ensures-bind {P = Pushed e h2 (two xs ys) inactive a value_size} P
                    (push h2 inactive a value_size)
                    (λ (status, h3).
                      if status == 0 then some (0, record c { index = t; heap = h3 }) else (do
                        index' ← ix.del t key
                        h4 ← destroy_node h3 a
                        some (0, record c { index = index'; heap = h4 })))
                    (push_heap inactive a value_size made.heap made.living made.free)
                    (λ (status, h3) pushed. rw (test_eq status 0 pushed.status) (
                      added c a key value value_size t h2 (status, h3) is dead new given room made
                        stands pushed)))))
