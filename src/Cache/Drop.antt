-- ===== src/Cache/Drop.antt =====
-- fcache/fcache.c: the loop of `_fcache_check_and_drop_nodes`.
use final_libs.Prelude.{
  ℕ, zero, suc, ◌+◌, ◌<◌, ◌≤◌, ◌^◌, ◌≡◌, refl, sym, ap, subst, ◌∙◌, Bool, false, not, ◌&&◌, none,
  some, List, [], ◌∷◌, arith, ltb, ◌==◌, if◌then◌else◌, ◌>>=◌, inl, inr, Bool-cases, length, drop,
  test_eq, test_ne, ne_of_test, add_size, Ensures, Ensures-bind, Ensures-mono, Ensures-if,
}
use native.Mathlib.Decide.{ℕ_discrete}
use final_libs.Dlist.Cells.{DNode, Ptr}
use final_libs.Dlist.Chain.{has, distinct, has_self, sum_sizes}
use final_libs.Dlist.Inv.{sum_sizes-congr}
use final_libs.Dlist.Kept.{SameInfo, one_list}
use final_libs.CacheList.{Key, Heap, pop_node, node_size}
use final_libs.CacheList.Laws.{Kept, delete_free, Kept-refl}
use final_libs.Cache.Lookup.{Index}
use final_libs.Cache.Pair.{Nothing, Out, pop_inactive_nil, pop_inactive_cons}
use final_libs.Cache.Inv.{inside, IsCache, IsCache-moved}
use final_libs.Cache.Removal.{forget, forget_at, also_freed, Removed, del_node_lem}
use final_libs.Cache.{Cache, active, inactive, with_heap, del_node, drop_nodes}

-- The nodes that the loop drops: the oldest ones, until `need` bytes are counted from `done` on.
abbrev pub enough : (ℕ → ℕ) → ℕ → ℕ → List ℕ → List ℕ
enough sz done need [] = []
enough sz done need (y ∷ ys) =
    let rest = enough sz (done + sz y) need ys in if ltb done need then y ∷ rest else []

pub enough-congr :
    (sz sz' : ℕ → ℕ) (done need : ℕ) (ys : List ℕ)
    → ((b : ℕ) → sz' b ≡ sz b)
    → enough sz' done need ys ≡ enough sz done need ys
enough-congr sz sz' done need [] same = refl
enough-congr sz sz' done need (y ∷ ys) same =
    ap (λ zs. if ltb done need then y ∷ zs else [])
      (ap (λ n. enough sz' (done + n) need ys) (same y)
        ∙ enough-congr sz sz' (done + sz y) need ys same)

-- They are enough, if all nodes are.
pub enough_lem :
    (h : ℕ → DNode) (done need : ℕ) (ys : List ℕ)
    → need ≤ done + sum_sizes h ys
    → need ≤ done + sum_sizes h (enough (λ b. (h b).data_size) done need ys)
unfolding sum_sizes
enough_lem h done need [] all = all
enough_lem h done need (y ∷ ys) all = elim (Bool-cases (ltb done need)) [
  | inl more ↦
      let size = (h y).data_size in
      rw more (omega (arith, enough_lem h (done + size) need ys (omega (arith, all))))
  | inr fine ↦ rw fine (ground (arith, fine))
]

-- `obj_free` is called for the nodes, one after the other
abbrev pub freed_all : Bool → (ℕ → ℕ) → List ℕ → List ℕ → List ℕ
freed_all frees obj freed [] = freed
freed_all frees obj freed (a ∷ xs) = freed_all frees obj (also_freed frees freed (obj a)) xs

pub freed_all-congr :
    (frees : Bool) (obj obj' : ℕ → ℕ) (freed xs : List ℕ)
    → ((b : ℕ) → obj' b ≡ obj b)
    → freed_all frees obj' freed xs ≡ freed_all frees obj freed xs
freed_all-congr frees obj obj' freed [] same = refl
freed_all-congr frees obj obj' freed (a ∷ xs) same =
    ap (λ o. freed_all frees obj' (also_freed frees freed o) xs) (same a)
    ∙ freed_all-congr frees obj obj' (also_freed frees freed (obj a)) xs same

forget-forget :
    (g : Key → Ptr) (y : ℕ) (gone : List ℕ) (q : Key)
    → forget (forget g (y ∷ [])) gone q ≡ forget g (y ∷ gone) q
unfolding has
forget-forget g y gone q = cases (g q)
  where
    cases : (p : Ptr) → forget_at gone (forget_at (y ∷ []) p) ≡ forget_at (y ∷ gone) p
    cases none = refl
    cases (some a) = elim (Bool-cases (a == y)) [ inl e ↦ rw e refl | inr e ↦ rw e refl ]

forget_nil : (g : Key → Ptr) → forget g [] ≡ g
unfolding has
forget_nil g i q = cases (g q) i
  where
    cases : (p : Ptr) → forget_at [] p ≡ p
    cases none = refl
    cases (some a) = refl

module _ {ix : Index} where
  -- the cache after the nodes `gone` are dropped from the inactive ones
  pub record Dropped (e : ℕ → ℕ) (c : Cache ix) (g : Key → Ptr) (xs ys gone : List ℕ)
      (c' : Cache ix) : Type 0 where
    pub cache : IsCache e c' (forget g gone) xs (drop (length gone) ys)
    pub freed : c'.freed ≡ freed_all c.frees (λ b. (c.heap.store.nodes b).user_data) c.freed gone
    pub info : SameInfo c.heap.store c'.heap.store
    pub used : ix.used c'.index ≤ ix.used c.index
    pub others : (b : ℕ) → has b gone ≡ false → c'.heap.live b ≡ c.heap.live b
    pub frees : c'.frees ≡ c.frees
    pub max_size : c'.max_size ≡ c.max_size
    pub op_count : c'.op_count ≡ c.op_count
    pub enable_balance : c'.enable_balance ≡ c.enable_balance

  pub Dropped-none :
      {e : ℕ → ℕ} {g : Key → Ptr} {xs ys : List ℕ} (c : Cache ix) (h' : Heap)
      → IsCache e (with_heap c h') g xs ys
      → Kept c.heap h'
      → Dropped e c g xs ys [] (with_heap c h')
  Dropped-none {e} {g} {xs} {ys} c h' is kept = record {
    cache = subst (λ g'. IsCache e (with_heap c h') g' xs ys) (sym (forget_nil g)) is;
    freed = refl;
    info = kept.info;
    used = omega arith;
    others = λ b _. ap (λ v. v b) kept.live;
    frees = refl;
    max_size = refl;
    op_count = refl;
    enable_balance = refl;
  }

  -- one node dropped, then others
  Dropped-cons :
      {e : ℕ → ℕ} {g : Key → Ptr} {xs ys : List ℕ} (c c1 c' : Cache ix) (y : ℕ) (gone : List ℕ)
      → Removed e c g y xs ys c1
      → Dropped e c1 (forget g (y ∷ [])) xs ys gone c'
      → Dropped e c g xs (y ∷ ys) (y ∷ gone) c'
  unfolding has
  Dropped-cons {e} {g} {xs} {ys} c c1 c' y gone one rest = record {
    cache =
        subst (λ g'. IsCache e c' g' xs (drop (length gone) ys)) (λ i q. forget-forget g y gone q i)
          rest.cache;
    freed =
        rest.freed
        ∙ ap (λ b. freed_all b (λ b. (c1.heap.store.nodes b).user_data) c1.freed gone) one.frees
        ∙ freed_all-congr c.frees (λ b. (c.heap.store.nodes b).user_data)
            (λ b. (c1.heap.store.nodes b).user_data) c1.freed gone (λ b. (one.info b).0)
        ∙ ap (λ freed. freed_all c.frees (λ b. (c.heap.store.nodes b).user_data) freed gone)
            one.freed;
    info = λ b. ((rest.info b).0 ∙ (one.info b).0, (rest.info b).1 ∙ (one.info b).1);
    used = omega (arith, rest.used, one.used);
    others = λ b out.
        rest.others b (ground (arith, out)) ∙ one.others b (ne_of_test b y (ground (arith, out)));
    frees = rest.frees ∙ one.frees;
    max_size = rest.max_size ∙ one.max_size;
    op_count = rest.op_count ∙ one.op_count;
    enable_balance = rest.enable_balance ∙ one.enable_balance;
  }

  -- a node popped from the inactive list, and deleted
  drop_one :
      {e : ℕ → ℕ} {g : Key → Ptr} (c : Cache ix) (y : ℕ) (xs ys : List ℕ) (h : Heap) (r : Ptr)
      → IsCache e c g xs (y ∷ ys)
      → Out e c.heap xs ys y (r, h)
      → Ensures (Removed e c g y xs ys) (del_node (with_heap c h) y)
  unfolding has distinct
  drop_one {e} {g} c y xs ys h r is (_, (is_h, kept), free, living) =
      del_node_lem c h y xs ys is kept (ground (arith, has_self y ys))
        (rw (delete_free h y living free) (is_h, Kept-refl h)) others (omega arith)
    where
      out : (has y xs ≡ false) × (has y ys ≡ false)
      out =
          let unique = (is.heap.lists inactive).unique in
          (
            elim (Bool-cases (has y xs)) [
              | inl there ↦
                  absurd
                    (ground (arith, one_list active inactive y is.heap.lists there (has_self y ys)))
              | inr away ↦ away
            ],
            ground (arith, unique),
          )

      others : (b : ℕ) → inside b xs ys ≡ (not (b == y) && inside b xs (y ∷ ys))
      others b = elim (ℕ_discrete b y) [
        | yes same ↦
            let not_x : has b xs ≡ false = ap (λ z. has z xs) same ∙ out.0 in
            let not_y : has b ys ≡ false = ap (λ z. has z ys) same ∙ out.1 in
            rw (test_eq b y same, not_x, not_y) refl
        | no differ ↦ rw (test_ne b y differ) refl
      ]

  pub drop_nodes_lem :
      {e : ℕ → ℕ} (fuel : ℕ) {g : Key → Ptr} (c : Cache ix) (xs ys : List ℕ) (done need : ℕ)
      → IsCache e c g xs ys
      → length ys < fuel
      → done + sum_sizes c.heap.store.nodes ys < 2 ^ 64
      → Ensures
          (Dropped e c g xs ys (enough (λ b. (c.heap.store.nodes b).data_size) done need ys))
          (drop_nodes fuel c done need)
  unfolding drop_nodes node_size sum_sizes
  drop_nodes_lem zero c xs ys done need is fuel_left small = absurd (omega (arith, fuel_left))
  drop_nodes_lem {e} (suc fuel) {g} c xs [] done need is fuel_left small =
      let P = Dropped e c g xs [] [] in
      Ensures-if P (ltb done need) _ _
        (λ more.
          Ensures-bind {P = Nothing e c.heap xs []} P (pop_node c.heap inactive)
            (λ (r, h). elim r [
              | none ↦ some (with_heap c h)
              | some a ↦ (do
                data_size ← node_size h a
                c' ← del_node (with_heap c h) a
                drop_nodes fuel c' (add_size done data_size) need)
            ])
            (pop_inactive_nil c.heap xs is.heap)
            (λ (r, h) (nothing, becomes).
              rw nothing
                (Dropped-none c h (IsCache-moved c xs [] h is becomes (λ b. refl) refl) becomes.1)))
        (λ fine. Dropped-none c c.heap is (Kept-refl c.heap))
  drop_nodes_lem {e} (suc fuel) {g} c xs (y ∷ ys) done need is fuel_left small =
      let sz = λ (b : ℕ). (c.heap.store.nodes b).data_size in
      let P = Dropped e c g xs (y ∷ ys) (enough sz done need (y ∷ ys)) in
      Ensures-if P (ltb done need) _ _
        (λ more.
          let gone = enough sz (done + sz y) need ys in
          let picked : y ∷ gone ≡ enough sz done need (y ∷ ys) = rw more refl in
          Ensures-bind {P = Out e c.heap xs ys y} P (pop_node c.heap inactive)
            (λ (r, h). elim r [
              | none ↦ some (with_heap c h)
              | some a ↦ (do
                data_size ← node_size h a
                c' ← del_node (with_heap c h) a
                drop_nodes fuel c' (add_size done data_size) need)
            ])
            (pop_inactive_cons c.heap y xs ys is.heap)
            (λ (r, h) popped.
              let (node, (_, kept), _, living) = popped in
              rw (node, living)
                (Ensures-bind {P = Removed e c g y xs ys} P (del_node (with_heap c h) y)
                  (λ c'. drop_nodes fuel c' (add_size done (h.store.nodes y).data_size) need)
                  (drop_one c y xs ys h r is popped)
                  (λ c1 one.
                    let same_sizes : sum_sizes c1.heap.store.nodes ys
                        ≡ sum_sizes c.heap.store.nodes ys =
                      sum_sizes-congr c.heap.store.nodes c1.heap.store.nodes ys
                        (λ b _. (one.info b).1) in
                    let counted : add_size done (h.store.nodes y).data_size ≡ done + sz y =
                      omega (arith, (kept.info y).1, small) in
                    rw counted (
                      Ensures-mono P (drop_nodes fuel c1 (done + sz y) need)
                        (drop_nodes_lem fuel c1 xs ys (done + sz y) need one.cache
                          (omega (arith, fuel_left)) (omega (arith, same_sizes, small)))
                        (λ c' rest.
                          subst (λ zs. Dropped e c g xs (y ∷ ys) zs c') picked
                            (Dropped-cons c c1 c' y gone one (
                              subst (λ zs. Dropped e c1 (forget g (y ∷ [])) xs ys zs c')
                                (enough-congr sz (λ b. (c1.heap.store.nodes b).data_size)
                                  (done + sz y) need ys (λ b. (one.info b).1))
                                rest))))))))
        (λ fine.
          let picked : [] ≡ enough sz done need (y ∷ ys) = rw fine refl in
          subst (λ zs. Dropped e c g xs (y ∷ ys) zs c) picked
            (Dropped-none c c.heap is (Kept-refl c.heap)))
