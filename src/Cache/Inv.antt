-- ===== src/Cache/Inv.antt =====
-- fcache/fcache.c: what holds of a cache between two calls, and `_fcache_balance_nodes`.
use final_libs.Prelude.{
  ℕ, ◌+◌, ◌-◌, ◌/◌, ◌<◌, ◌^◌, ◌≡◌, refl, ap, ◌∙◌, Bool, true, false, ◌||◌, some, List, ◌++◌, arith,
  leb, length, take, drop, length-append, length-take, length-drop, append-nil, add_size, Ensures,
  Ensures-bind, Ensures-if,
}
use final_libs.Dlist.Cells.{Ptr}
use final_libs.Dlist.Chain.{has}
use final_libs.CacheList.{Key, Heap, c_string, list_size}
use final_libs.CacheList.Laws.{IsHeap, Kept, Kept-refl}
use final_libs.Cache.Lookup.{Index, is_unfit_key}
use final_libs.Cache.Pair.{two, Becomes, move_first_lem}
use final_libs.Cache.Touch.{has-shift}
use final_libs.Cache.{Cache, active, inactive, with_heap, move_first, balance_nodes}

-- the nodes of the two lists
abbrev pub inside : ℕ → List ℕ → List ℕ → Bool
inside a xs ys = has a xs || has a ys

module _ {ix : Index} where
  -- The cache has the active nodes `xs` and the inactive nodes `ys`, from the oldest to the latest,
  -- and its index is `g`: each node is in the index under its own key, and no other node is.
  pub record IsCache (e : ℕ → ℕ) (c : Cache ix) (g : Key → Ptr) (xs ys : List ℕ) : Type 0 where
    pub heap : IsHeap e c.heap (two xs ys)
    pub index : ix.Stands c.index g
    pub listed :
        (q : Key) (a : ℕ)
        → g q ≡ some a
        → (inside a xs ys ≡ true) × (c_string (c.heap.keys a) ≡ some q)
    pub keyed :
        (a : ℕ)
        → inside a xs ys ≡ true
        → (q : Key) × (c_string (c.heap.keys a) ≡ some q)
          × (g q ≡ some a)
          × (is_unfit_key q ≡ false)
    pub small : length xs + length ys < 2 ^ 64

  -- The same nodes in another order, or in other lists.
  pub IsCache-moved :
      {e : ℕ → ℕ} {g : Key → Ptr} {xs ys : List ℕ} (c : Cache ix) (xs' ys' : List ℕ) (h' : Heap)
      → IsCache e c g xs ys
      → Becomes e c.heap xs' ys' h'
      → ((b : ℕ) → inside b xs' ys' ≡ inside b xs ys)
      → length xs' + length ys' ≡ length xs + length ys
      → IsCache e (with_heap c h') g xs' ys'
  IsCache-moved {e} {g} {xs} {ys} c xs' ys' h' is (heap, kept) same count = record {
    heap = heap;
    index = is.index;
    listed = λ q a e'.
        let (here, key) = is.listed q a e' in
        (same a ∙ here, ap (λ k. c_string (k a)) kept.keys ∙ key);
    keyed = λ a here.
        let (q, key, at_q, some_key) = is.keyed a (ground (arith, same a, here)) in
        (q, ap (λ k. c_string (k a)) kept.keys ∙ key, at_q, some_key);
    small = omega (arith, count, is.small);
  }

-- how many active nodes are too many
abbrev pub surplus : List ℕ → List ℕ → ℕ
surplus xs ys = length xs - (length xs + length ys) / 2

abbrev pub fewer_active : List ℕ → List ℕ → List ℕ
fewer_active xs ys = drop (surplus xs ys) xs

abbrev pub more_inactive : List ℕ → List ℕ → List ℕ
more_inactive xs ys = ys ++ take (surplus xs ys) xs

module _ {ix : Index} where
  -- the cache with these lists, and all else as before
  pub record Rearranged (e : ℕ → ℕ) (c : Cache ix) (g : Key → Ptr) (xs ys : List ℕ) (c' : Cache ix)
      : Type 0 where
    pub cache : IsCache e c' g xs ys
    pub kept : Kept c.heap c'.heap
    pub same : c' ≡ with_heap c c'.heap

  -- `_fcache_balance_nodes` of a well-formed cache is defined. The active nodes beyond half of
  -- all nodes, the oldest ones, go behind the inactive ones in their order; the index, the
  -- keys, the objects and the sizes stay.
  pub balance_nodes_lem :
      {e : ℕ → ℕ} {g : Key → Ptr} {xs ys : List ℕ} (c : Cache ix)
      → IsCache e c g xs ys
      → Ensures (Rearranged e c g (fewer_active xs ys) (more_inactive xs ys)) (balance_nodes c)
  unfolding balance_nodes
  balance_nodes_lem {e} {g} {xs} {ys} c is =
      let n : list_size c.heap active ≡ length xs =
        omega (arith, (is.heap.lists active).size, is.small) in
      let m : list_size c.heap inactive ≡ length ys =
        omega (arith, (is.heap.lists inactive).size, is.small) in
      let total : add_size (length ys) (length xs) ≡ length xs + length ys =
        omega (arith, is.small) in
      let P = Rearranged e c g (fewer_active xs ys) (more_inactive xs ys) in
      rw (n, m, total)
        (Ensures-if P (leb (length xs) ((length xs + length ys) / 2)) _ _
          (λ balanced.
            let none_over : surplus xs ys ≡ 0 = ground arith in
            rw (none_over, append-nil ys)
              (record { cache = is; kept = Kept-refl c.heap; same = refl }))
          (λ _.
            Ensures-bind {P = Becomes e c.heap (fewer_active xs ys) (more_inactive xs ys)} P
              (move_first (surplus xs ys) c.heap) _
              (move_first_lem (surplus xs ys) c.heap xs ys is.heap)
              (λ h' becomes. record {
                cache =
                    IsCache-moved c (fewer_active xs ys) (more_inactive xs ys) h' is becomes
                      (λ b. has-shift b (surplus xs ys) xs ys)
                      (omega (
                        arith,
                        length-append ys (take (surplus xs ys) xs),
                        length-take (surplus xs ys) xs,
                        length-drop (surplus xs ys) xs,
                      ));
                kept = becomes.1;
                same = refl;
              })))
