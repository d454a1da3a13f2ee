-- ===== src/Cache/Get.antt =====
-- fcache/fcache.c: `fcache_get_obj`.
use final_libs.Prelude.{
  ℕ, ◌≡◌, refl, sym, ap, subst, ◌∙◌, Bool, true, false, ◌&&◌, Option, none, some, List, arith, ◌==◌,
  ◌>>=◌, add_size, Ensures, Ensures-bind, Ensures-mono, Ensures-if,
}
use final_libs.Dlist.Cells.{Ptr}
use final_libs.Dlist.Chain.{has}
use final_libs.CacheList.{Key, c_string, node_owner, get_nodedata, move_node}
use final_libs.CacheList.Laws.{IsHeap, Kept, Kept-refl, Kept-trans}
use final_libs.Cache.Lookup.{Index, is_unfit_key}
use final_libs.Cache.Pair.{two, Becomes}
use final_libs.Cache.Touch.{touch_active, touch_inactive}
use final_libs.Cache.Inv.{inside, IsCache, IsCache-moved, balance_nodes_lem}
use final_libs.Cache.{Cache, active, balance_interval, with_heap, balance_nodes, count_op, get_obj}
use final_libs.Cache.Used.{
  used_by, used, used_at, counted, object_at, same_count, inside_alive, object-Kept,
}

module _ {ix : Index} where
  -- the call is the one that balances
  abbrev pub is_due : Cache ix → Bool
  is_due c = c.enable_balance && (add_size c.op_count 1 == balance_interval)

  -- the cache with these lists
  pub record Settled (e : ℕ → ℕ) (c : Cache ix) (g : Key → Ptr) (lists : List ℕ × List ℕ)
      (c' : Cache ix) : Type 0 where
    pub cache : IsCache e c' g lists.0 lists.1
    pub kept : Kept c.heap c'.heap

  -- Only the heap and the index matter.
  pub IsCache-same :
      {e : ℕ → ℕ} {g : Key → Ptr} {xs ys : List ℕ} {c : Cache ix} (c' : Cache ix)
      → IsCache e c g xs ys
      → c.heap ≡ c'.heap
      → c.index ≡ c'.index
      → IsCache e c' g xs ys
  IsCache-same {e} {g} {xs} {ys} c' is heap index = record {
    heap = subst (λ h. IsHeap e h (two xs ys)) heap is.heap;
    index = subst (λ t. ix.Stands t g) index is.index;
    listed = λ q a e'.
        let (here, key) = is.listed q a e' in
        (here, ap (λ h. c_string (h.keys a)) (sym heap) ∙ key);
    keyed = λ a here.
        let (q, key, at_q, some_key) = is.keyed a here in
        (q, ap (λ h. c_string (h.keys a)) (sym heap) ∙ key, at_q, some_key);
    small = is.small;
  }

  count_op_lem :
      {e : ℕ → ℕ} {g : Key → Ptr} {xs ys : List ℕ} (c : Cache ix)
      → IsCache e c g xs ys
      → Ensures (Settled e c g (counted (is_due c) xs ys)) (count_op c)
  unfolding count_op
  count_op_lem {e} {g} {xs} {ys} c is =
      let op_count = add_size c.op_count 1 in
      let P = Settled e c g (counted (is_due c) xs ys) in
      let stays : (c' : Cache ix)
          → is_due c ≡ false
          → c.heap ≡ c'.heap
          → c.index ≡ c'.index
          → P c' =
        λ c' not_due heap index.
          subst (λ b. Settled e c g (counted b xs ys) c') (sym not_due)
            (record {
              cache = IsCache-same c' is heap index;
              kept = subst (Kept c.heap) heap (Kept-refl c.heap);
            }) in
      Ensures-if P c.enable_balance _ _
        (λ on.
          Ensures-if P (op_count == balance_interval) _ _
            (λ now.
              let due : is_due c ≡ true = ground (arith, on, now) in
              let reset = record c { op_count = 0 } in
              Ensures-mono P (balance_nodes reset)
                (balance_nodes_lem reset (IsCache-same reset is refl refl))
                (λ c' balanced.
                  subst (λ b. Settled e c g (counted b xs ys) c') (sym due)
                    (record { cache = balanced.cache; kept = balanced.kept })))
            (λ later. stays (record c { op_count = op_count }) (ground (arith, later)) refl refl))
        (λ off. stays c (ground (arith, off)) refl refl)

  -- a use of the node moves it, and answers with its object
  use_node :
      {e : ℕ → ℕ} {g : Key → Ptr} {xs ys : List ℕ} (c : Cache ix) (a : ℕ)
      → IsCache e c g xs ys
      → inside a xs ys ≡ true
      → Ensures
          (λ r. Becomes e c.heap (used a xs ys).0 (used a xs ys).1 r.1)
          (move_node c.heap a active)
  use_node {e} {g} {xs} {ys} c a is here = cases (has a xs) refl
    where
      cases :
          (b : Bool)
          → has a xs ≡ b
          → Ensures
              (λ r. Becomes e c.heap (used_by b a xs ys).0 (used_by b a xs ys).1 r.1)
              (move_node c.heap a active)
      cases true e' = touch_active a xs ys is.heap (omega (arith, is.small)) e'
      cases false e' = touch_inactive a xs ys is.heap (ground (arith, here, e'))

  -- `fcache_get_obj`: the object under the key or NULL
  pub record Got (e : ℕ → ℕ) (c : Cache ix) (g : Key → Ptr) (key : Key) (lists : List ℕ × List ℕ)
      (r : ℕ × Cache ix) : Type 0 where
    pub object : r.0 ≡ object_at c.heap (g key)
    pub settled : Settled e c g lists r.1

  -- what `fcache_get_obj` does with the node that the index gives
  abbrev answer : Cache ix → Ptr → Option (ℕ × Cache ix)
  answer c1 none = some (0, c1)
  answer c1 (some a) = do
    _ ← node_owner c1.heap a
    (_, h) ← move_node c1.heap a active
    obj ← get_nodedata h a
    some (obj, with_heap c1 h)

  answer_lem :
      {e : ℕ → ℕ} {g : Key → Ptr} {xs ys : List ℕ} (c1 : Cache ix) (key : Key) (p : Ptr)
      → g key ≡ p
      → IsCache e c1 g xs ys
      → Ensures
          (λ r. (r.0 ≡ object_at c1.heap p) × Settled e c1 g (used_at p xs ys) r.1)
          (answer c1 p)
  unfolding node_owner get_nodedata
  answer_lem c1 key none at_key is = (refl, record { cache = is; kept = Kept-refl c1.heap })
  answer_lem {e} {g} {xs} {ys} c1 key (some a) at_key is =
      let (here, _) = is.listed key a at_key in
      let alive : c1.heap.live a ≡ true = inside_alive a is.heap here in
      let P = λ (r : ℕ × Cache ix).
        (r.0 ≡ object_at c1.heap (some a)) × Settled e c1 g (used a xs ys) r.1 in
      let (same, count) = same_count (has a xs) a xs ys refl here in
      rw alive (
        Ensures-bind {P = λ r. Becomes e c1.heap (used a xs ys).0 (used a xs ys).1 r.1} P
          (move_node c1.heap a active)
          (λ (_, h). get_nodedata h a >>= λ obj. some (obj, with_heap c1 h)) (use_node c1 a is here)
          (λ (_, h) becomes.
            let alive' : h.live a ≡ true = ap (λ v. v a) becomes.1.live ∙ alive in
            rw alive' (
              (becomes.1.info a).0,
              record {
                cache = IsCache-moved c1 (used a xs ys).0 (used a xs ys).1 h is becomes same count;
                kept = becomes.1;
              },
            )))

  -- For a key that is not empty and shorter than 2 ^ 31, `fcache_get_obj` on a well-formed
  -- cache, over a table that keeps the laws of Cache.Lookup.Index, as that of fhash_str.c
  -- does, is defined. It returns the object under the key, or NULL if there is none, and the
  -- cache stays well formed with the same keys, objects and sizes. If this is the call that
  -- balances, the lists are balanced first; then the node of the key, if there is one, goes
  -- behind the other active nodes.
  pub get_obj_lem :
      {e : ℕ → ℕ} {g : Key → Ptr} {xs ys : List ℕ} (c : Cache ix) (key : Key)
      → IsCache e c g xs ys
      → is_unfit_key key ≡ false
      → let (xs', ys') = counted (is_due c) xs ys in
        Ensures (Got e c g key (used_at (g key) xs' ys')) (get_obj c key)
  unfolding get_obj
  get_obj_lem {e} {g} {xs} {ys} c key is given =
      let lists = counted (is_due c) xs ys in
      let P = Got e c g key (used_at (g key) lists.0 lists.1) in
      Ensures-bind {P = Settled e c g lists} P (count_op c) _ (count_op_lem c is) (λ c1 settled.
        let found = ix.get_stands c1.index g key settled.cache.index given in
        rw found (
          Ensures-mono P (answer c1 (g key)) (answer_lem c1 key (g key) refl settled.cache)
            (λ r done. record {
              object = done.0 ∙ object-Kept (g key) settled.kept;
              settled = record { cache = done.1.cache; kept = Kept-trans settled.kept done.1.kept };
            })))
