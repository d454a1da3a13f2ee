-- ===== src/Cache/Unset.antt =====
-- fcache/fcache.c: `fcache_set_obj` of NULL under a key of the cache, which takes the object out.
use final_libs.Prelude.{
  ℕ, ◌+◌, ◌-◌, ◌<◌, ◌≤◌, ◌^◌, ◌≡◌, ◌≢◌, refl, sym, ap, subst, ◌∙◌, true, false, not, ◌&&◌, none,
  some, List, [], ◌∷◌, arith, ltb, leb, ◌==◌, if◌then◌else◌, ◌>>=◌, inl, inr, Bool-cases, length,
  test_eq, test_ne, Ensures, Ensures-bind, Ensures-mono, Ensures-some,
}
use native.Mathlib.Decide.{ℕ_discrete}
use final_libs.Dlist.Cells.{DNode, Ptr}
use final_libs.Dlist.Chain.{has, distinct, sum_sizes}
use final_libs.Dlist.Inv.{sum_sizes-congr}
use final_libs.Dlist.Delete.{remove}
use final_libs.Dlist.Kept.{one_list}
use final_libs.CacheList.{Key, Heap, delete, node_size, list_size}
use final_libs.CacheList.Laws.{IsHeap, Kept-refl, delete_heap, has-remove}
use final_libs.Cache.Lookup.{Index, is_unfit_key}
use final_libs.Cache.Pair.{two, Becomes, IsHeap-congr, put-active, put-inactive}
use final_libs.Cache.Touch.{length-remove}
use final_libs.Cache.Inv.{inside, IsCache}
use final_libs.Cache.Used.{inside_alive}
use final_libs.Cache.Get.{IsCache-same}
use final_libs.Cache.Removal.{forget, also_freed, Removed, del_node_lem}
use final_libs.Cache.Room.{exact, bytes}
use final_libs.Cache.Books.{Sized, length-sum_sizes, check_balance_lem}
use final_libs.Cache.{
  Cache, active, inactive, del_node, check_balance, check_and_drop_nodes, grow_size, store_obj,
  set_obj,
}

has-remove_self :
    (b a : ℕ) (xs : List ℕ) → distinct xs ≡ true → has b (remove a xs) ≡ (not (b == a) && has b xs)
unfolding has distinct
has-remove_self b a [] unique = ground arith
has-remove_self b a (x ∷ xs) unique = elim (ℕ_discrete a x) [
  | yes here ↦
      let alone : has x xs ≡ false = ground (arith, unique) in
      rw (test_eq a x here) (elim (ℕ_discrete b a) [
        | yes same ↦ rw (test_eq b a same) (ap (λ z. has z xs) (same ∙ here) ∙ alone)
        | no differ ↦
            let differ' : b ≢ x = λ e. differ (e ∙ sym here) in
            rw (test_ne b a differ, test_ne b x differ') refl
      ])
  | no other ↦
      rw (test_ne a x other)
        (ground (arith, has-remove_self b a xs (ground (arith, unique)), other))
]

remove_absent : (a : ℕ) (xs : List ℕ) → has a xs ≡ false → remove a xs ≡ xs
unfolding has
remove_absent a [] out = refl
remove_absent a (x ∷ xs) out = ground (arith, remove_absent a xs)

module _ {e : ℕ → ℕ} {h : Heap} (a : ℕ) (xs ys : List ℕ) (is : IsHeap e h (two xs ys)) where
  -- the node is in one of the lists only
  apart_active : has a xs ≡ true → has a ys ≡ false
  apart_active here = elim (Bool-cases (has a ys)) [
    | inl there ↦ absurd (ground (arith, one_list active inactive a is.lists here there))
    | inr out ↦ out
  ]

  delete-inside :
      inside a xs ys ≡ true → Ensures (Becomes e h (remove a xs) (remove a ys)) (delete h a)
  delete-inside here = elim (Bool-cases (has a xs)) [
    | inl e' ↦
        Ensures-mono (Becomes e h (remove a xs) (remove a ys)) (delete h a)
          (delete_heap active a is e')
          (λ h' done. (
            subst (λ zs. IsHeap e h' (two (remove a xs) zs))
                (sym (remove_absent a ys (apart_active e')))
                (IsHeap-congr _ _ (put-active xs ys (remove a xs)) done.heap),
            done.kept,
          ))
    | inr out ↦
        Ensures-mono (Becomes e h (remove a xs) (remove a ys)) (delete h a)
          (delete_heap inactive a is (ground (arith, here, out)))
          (λ h' done. (
            subst (λ zs. IsHeap e h' (two zs (remove a ys))) (sym (remove_absent a xs out))
                (IsHeap-congr _ _ (put-inactive xs ys (remove a ys)) done.heap),
            done.kept,
          ))
  ]

  others_inside : (b : ℕ) → inside b (remove a xs) (remove a ys) ≡ (not (b == a) && inside b xs ys)
  others_inside b = ground (
    arith,
    has-remove_self b a xs (is.lists active).unique,
    has-remove_self b a ys (is.lists inactive).unique,
  )

  lengths_removed :
      inside a xs ys ≡ true
      → length (remove a xs) + length (remove a ys) + 1 ≡ length xs + length ys
  lengths_removed here = elim (Bool-cases (has a xs)) [
    | inl e' ↦
        omega (arith, length-remove a xs e', ap length (remove_absent a ys (apart_active e')))
    | inr out ↦
        omega (
          arith,
          length-remove a ys (ground (arith, here, out)),
          ap length (remove_absent a xs out),
        )
  ]

sum_sizes-remove_le :
    (h : ℕ → DNode) (a : ℕ) (xs : List ℕ) → sum_sizes h (remove a xs) ≤ sum_sizes h xs
unfolding sum_sizes
sum_sizes-remove_le h a [] = omega arith
sum_sizes-remove_le h a (x ∷ xs) = ground (arith, sum_sizes-remove_le h a xs)

length-remove_le : (a : ℕ) (xs : List ℕ) → length (remove a xs) ≤ length xs
length-remove_le a [] = omega arith
length-remove_le a (x ∷ xs) = ground (arith, length-remove_le a xs)

module _ {ix : Index} where
  -- what is left of a cache without the node `a`
  pub record Unset (c : Cache ix) (g : Key → Ptr) (a : ℕ) (xs ys : List ℕ) (r : ℕ × Cache ix)
      : Type 0 where
    pub status : r.0 ≡ 0
    pub cache : IsCache exact r.1 (forget g (a ∷ [])) (remove a xs) (remove a ys)
    pub freed : r.1.freed ≡ also_freed c.frees c.freed (c.heap.store.nodes a).user_data
    pub dead : r.1.heap.live a ≡ false
    pub others : (b : ℕ) → (r.1.heap.store.nodes b).user_data ≡ (c.heap.store.nodes b).user_data

  module _ {g : Key → Ptr} {xs ys : List ℕ} (c : Cache ix) (a fresh : ℕ) (key : Key) (key_size : ℕ)
      (is : IsCache exact c g xs ys) (at_key : g key ≡ some a) (given : is_unfit_key key ≡ false)
      (some_size : 0 < key_size) where
    -- with no bytes asked for, nothing is dropped
    nothing_to_grow : check_and_drop_nodes c (some a) 0 ≡ some (0, c)
    unfolding check_and_drop_nodes grow_size node_size
    nothing_to_grow =
        let living = inside_alive a is.heap (is.listed key a at_key).0 in
        let none_more : (if leb (c.heap.store.nodes a).data_size 0
              then 0 - (c.heap.store.nodes a).data_size
              else 0)
            ≡ 0 =
          ground arith in
        rw (living, none_more) refl

    removed : Ensures (Removed exact c g a (remove a xs) (remove a ys)) (del_node c a)
    removed =
        let here = (is.listed key a at_key).0 in
        del_node_lem c c.heap a (remove a xs) (remove a ys) is (Kept-refl c.heap) here
          (delete-inside a xs ys is.heap here) (others_inside a xs ys is.heap)
          (omega (arith, length-remove_le a xs, length-remove_le a ys))

    -- the call up to the end that decides on balancing
    unset_steps :
        set_obj c fresh key key_size 0 0
        ≡ (del_node c a >>= (λ c'. some (0, c')) >>= λ (ret, c2). check_balance ret c2)
    unfolding set_obj store_obj
    unset_steps =
        let sized : (key_size == 0) ≡ false =
          test_ne key_size 0 (λ z. absurd (omega (arith, z, some_size))) in
        let found : ix.get c.index key ≡ some (some a) =
          ix.get_stands c.index g key is.index given ∙ ap some at_key in
        let fits : ltb c.max_size 0 ≡ false = ground arith in
        rw (sized, fits, found, nothing_to_grow) refl

    -- `fcache_set_obj` of NULL and 0 bytes, under a key of a well-formed cache that counts
    -- its bytes right, over a table that keeps the laws of Cache.Lookup.Index, as that of
    -- fhash_str.c does, where other nodes are left and every node has some bytes, is defined
    -- and returns 0. The object under the key is freed, its node is gone, and every other
    -- node, key and object stays.
    pub unset_lem :
        2 ≤ length xs + length ys
        → bytes c.heap.store.nodes xs ys < 2 ^ 64
        → Sized c.heap.store.nodes xs
        → Sized c.heap.store.nodes ys
        → Ensures (Unset c g a xs ys) (set_obj c fresh key key_size 0 0)
    unset_lem others word sized sized' =
        let P = Unset c g a xs ys in
        let h = c.heap.store.nodes in
        let left : length (remove a xs) + length (remove a ys) + 1 ≡ length xs + length ys =
          lengths_removed a xs ys is.heap (is.listed key a at_key).0 in
        let counts : (zs : List ℕ) → Sized h zs → length (remove a zs) ≤ sum_sizes h (remove a zs) =
          λ zs some_each.
            length-sum_sizes h (remove a zs) (λ b there. some_each b (has-remove b a zs there)) in
        rw unset_steps (
          Ensures-bind {P = λ r. (r.0 ≡ 0) × Removed exact c g a (remove a xs) (remove a ys) r.1} P
            (del_node c a >>= λ c'. some (0, c')) (λ (ret, c2). check_balance ret c2)
            (Ensures-bind {P = Removed exact c g a (remove a xs) (remove a ys)} _ (del_node c a)
              (λ c'. some (0, c')) removed (λ c' gone. (refl, gone)))
            (λ r (zero_status, gone).
              let same : (zs : List ℕ) → sum_sizes r.1.heap.store.nodes zs ≡ sum_sizes h zs =
                λ zs. sum_sizes-congr h r.1.heap.store.nodes zs (λ b _. (gone.info b).1) in
              let same_bytes : bytes r.1.heap.store.nodes (remove a xs) (remove a ys)
                  ≡ bytes h (remove a xs) (remove a ys) =
                omega (arith, same (remove a xs), same (remove a ys)) in
              rw zero_status (
                Ensures-mono P (check_balance 0 r.1)
                  (check_balance_lem r.1 gone.cache
                    (omega (
                      arith,
                      same_bytes,
                      sum_sizes-remove_le h a xs,
                      sum_sizes-remove_le h a ys,
                      word,
                    ))
                    (omega (arith, same_bytes, counts xs sized, counts ys sized'))
                    (omega (arith, left, others)))
                  (λ r' done. record {
                    status = done.0;
                    cache =
                        IsCache-same r'.1 gone.cache (sym (ap (λ d. d.heap) done.1))
                          (sym (ap (λ d. d.index) done.1));
                    freed = ap (λ d. d.freed) done.1 ∙ gone.freed;
                    dead = ap (λ d. d.heap.live a) done.1 ∙ gone.dead;
                    others =
                        λ b. ap (λ d. (d.heap.store.nodes b).user_data) done.1 ∙ (gone.info b).0;
                  }))))

    -- `fcache_set_obj` of NULL and 0 bytes, under the key of the only node of a well-formed
    -- cache that counts its bytes right and does not balance yet, over a table that keeps
    -- the laws of Cache.Lookup.Index, as that of fhash_str.c does, is undefined: it divides
    -- by the number of nodes that are left.
    pub unset_last :
        length xs + length ys ≡ 1
        → c.enable_balance ≡ false
        → set_obj c fresh key key_size 0 0 ≡ none
    unfolding check_balance
    unset_last alone off =
        let (c', done, gone) =
          Ensures-some (Removed exact c g a (remove a xs) (remove a ys)) (del_node c a) removed in
        let left : length (remove a xs) + length (remove a ys) + 1 ≡ length xs + length ys =
          lengths_removed a xs ys is.heap (is.listed key a at_key).0 in
        let n : list_size c'.heap active ≡ 0 =
          omega (arith, (gone.cache.heap.lists active).size, left, alone) in
        let m : list_size c'.heap inactive ≡ 0 =
          omega (arith, (gone.cache.heap.lists inactive).size, left, alone) in
        unset_steps ∙ rw done (rw (gone.enable_balance ∙ off, n, m) refl)
