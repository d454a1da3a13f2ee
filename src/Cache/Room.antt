-- ===== src/Cache/Room.antt =====
-- fcache/fcache.c: `_fcache_check_and_drop_nodes` for a new node, in a cache that counts its bytes
-- right.
use final_libs.Prelude.{
  ℕ, zero, suc, ◌+◌, ◌-◌, ◌<◌, ◌≤◌, ◌^◌, ◌≡◌, refl, sym, ap, subst, ◌∙◌, Bool, true, false, ◌||◌,
  Option, none, some, List, [], ◌∷◌, arith, ltb, leb, ◌==◌, if◌then◌else◌, length, take, drop,
  Ensures, Ensures-bind, Ensures-mono, Ensures-if,
}
use final_libs.Dlist.Cells.{DNode, Ptr}
use final_libs.Dlist.Chain.{sum_sizes}
use final_libs.Dlist.Inv.{sum_sizes-congr, sum_sizes-append}
use final_libs.CacheList.{Key, list_size, list_data_size}
use final_libs.CacheList.Laws.{Kept-refl}
use final_libs.Cache.Lookup.{Index}
use final_libs.Cache.Inv.{
  IsCache, fewer_active, more_inactive, surplus, Rearranged, balance_nodes_lem,
}
use final_libs.Cache.Used.{counted}
use final_libs.Cache.Drop.{
  enough, enough-congr, freed_all, freed_all-congr, Dropped, Dropped-none, drop_nodes_lem,
}
use final_libs.Cache.{
  Cache, active, inactive, free_size, balance_nodes, drop_nodes, drop_enough, check_and_drop_nodes,
  grow_size, move_back,
}

-- the counters of bytes are right
abbrev pub exact : ℕ → ℕ
exact _ = 0

-- the bytes of the two lists
abbrev pub bytes : (ℕ → DNode) → List ℕ → List ℕ → ℕ
bytes h xs ys = sum_sizes h xs + sum_sizes h ys

-- A balance moves bytes from one list to the other.
pub counted-bytes :
    (h : ℕ → DNode) (b : Bool) (xs ys : List ℕ)
    → bytes h (counted b xs ys).0 (counted b xs ys).1 ≡ bytes h xs ys
unfolding sum_sizes
counted-bytes h false xs ys = refl
counted-bytes h true xs ys =
    omega (arith, sum_sizes-append h ys (take (surplus xs ys) xs), cut (surplus xs ys) xs)
  where
    cut : (n : ℕ) (xs : List ℕ) → sum_sizes h xs ≡ sum_sizes h (take n xs) + sum_sizes h (drop n xs)
    cut zero xs = omega arith
    cut (suc n) [] = omega arith
    cut (suc n) (x ∷ xs) = omega (arith, cut n xs)

module _ {ix : Index} where
  -- the bytes that have to go for a new node of this size
  abbrev pub shortage : Cache ix → List ℕ → List ℕ → ℕ → ℕ
  shortage c xs ys size = bytes c.heap.store.nodes xs ys + size - c.max_size

  pub totals :
      {g : Key → Ptr} {xs ys : List ℕ} (c : Cache ix)
      → IsCache exact c g xs ys
      → bytes c.heap.store.nodes xs ys < 2 ^ 64
      → (list_data_size c.heap active ≡ sum_sizes c.heap.store.nodes xs)
        × (list_data_size c.heap inactive ≡ sum_sizes c.heap.store.nodes ys)
  totals c is small = (
    omega (arith, (is.heap.lists active).total, small),
    omega (arith, (is.heap.lists inactive).total, small),
  )

  Dropped-after :
      {e : ℕ → ℕ} {g : Key → Ptr} {xs ys gone : List ℕ} (c c1 c2 : Cache ix)
      → Rearranged e c g xs ys c1
      → Dropped e c1 g xs ys gone c2
      → Dropped e c g xs ys gone c2
  Dropped-after {e} {g} {xs} {ys} {gone} c c1 c2 one rest = record {
    cache = rest.cache;
    freed =
        rest.freed
        ∙ freed_all-congr c1.frees (λ b. (c.heap.store.nodes b).user_data)
            (λ b. (c1.heap.store.nodes b).user_data) c1.freed gone (λ b. (one.kept.info b).0)
        ∙ ap (λ d. freed_all d.frees (λ b. (c.heap.store.nodes b).user_data) d.freed gone) one.same;
    info = λ b. ((rest.info b).0 ∙ (one.kept.info b).0, (rest.info b).1 ∙ (one.kept.info b).1);
    used = omega (arith, rest.used, ap (λ d. ix.used d.index) one.same);
    others = λ b out. rest.others b out ∙ ap (λ v. v b) one.kept.live;
    frees = rest.frees ∙ ap (λ d. d.frees) one.same;
    max_size = rest.max_size ∙ ap (λ d. d.max_size) one.same;
    op_count = rest.op_count ∙ ap (λ d. d.op_count) one.same;
    enable_balance = rest.enable_balance ∙ ap (λ d. d.enable_balance) one.same;
  }

  -- the oldest inactive nodes that make up for `need` bytes
  abbrev pub victims : Cache ix → List ℕ → ℕ → List ℕ
  victims c ys need = enough (λ b. (c.heap.store.nodes b).data_size) 0 need ys

  -- Status 0: the nodes are dropped. Status 1: no node is.
  abbrev pub Cleared : Bool → Cache ix → (Key → Ptr) → List ℕ × List ℕ → ℕ → ℕ × Cache ix → Type 0
  Cleared true c g (xs, ys) need (status, c') =
      (status ≡ 0) × Dropped exact c g xs ys (victims c ys need) c'
  Cleared false c g (xs, ys) need (status, c') = (status ≡ 1) × Rearranged exact c g xs ys c'

  drop_enough_lem :
      {g : Key → Ptr} (c : Cache ix) (xs ys : List ℕ) (need : ℕ)
      → IsCache exact c g xs ys
      → sum_sizes c.heap.store.nodes ys < 2 ^ 64
      → Ensures (Cleared true c g (xs, ys) need) (drop_enough c none need)
  unfolding drop_enough move_back
  drop_enough_lem {g} c xs ys need is small =
      let n : list_size c.heap inactive ≡ length ys =
        omega (arith, (is.heap.lists inactive).size, is.small) in
      rw n (
        Ensures-bind {P = Dropped exact c g xs ys (victims c ys need)}
          (Cleared true c g (xs, ys) need) (drop_nodes (suc (length ys)) c 0 need) _
          (drop_nodes_lem (suc (length ys)) c xs ys 0 need is (omega arith) (omega (arith, small)))
          (λ c2 dropped. (refl, dropped)))

  -- whether the lists are balanced first, the lists then, and whether the inactive nodes will do
  abbrev pub balances : Cache ix → List ℕ → ℕ → Bool
  balances c ys need = ltb (sum_sizes c.heap.store.nodes ys) need

  abbrev pub at_hand : Cache ix → List ℕ → List ℕ → ℕ → List ℕ × List ℕ
  at_hand c xs ys need = counted (balances c ys need) xs ys

  abbrev pub suffices : Cache ix → List ℕ → List ℕ → ℕ → Bool
  suffices c xs ys need = leb need (sum_sizes c.heap.store.nodes (at_hand c xs ys need).1)

  abbrev pub Outcome : Cache ix → (Key → Ptr) → List ℕ → List ℕ → ℕ → ℕ × Cache ix → Type 0
  Outcome c g xs ys need = Cleared (suffices c xs ys need) c g (at_hand c xs ys need) need

  outcome :
      (g : Key → Ptr) (c : Cache ix) (xs ys : List ℕ) (need : ℕ) (b b' : Bool)
      (o : Option (ℕ × Cache ix))
      → balances c ys need ≡ b
      → leb need (sum_sizes c.heap.store.nodes (counted b xs ys).1) ≡ b'
      → Ensures (Cleared b' c g (counted b xs ys) need) o
      → Ensures (Outcome c g xs ys need) o
  outcome g c xs ys need b b' o is_b is_b' done =
      subst
        (λ b0.
          Ensures
            (Cleared (leb need (sum_sizes c.heap.store.nodes (counted b0 xs ys).1)) c g
              (counted b0 xs ys) need)
            o)
        (sym is_b)
        (subst (λ b1. Ensures (Cleared b1 c g (counted b xs ys) need) o) (sym is_b') done)

  victims_zero : (c : Cache ix) (ys : List ℕ) → victims c ys 0 ≡ []
  victims_zero c [] = refl
  victims_zero c (y ∷ ys) = refl

  -- after a balance
  again :
      {g : Key → Ptr} (xs ys : List ℕ) (c c1 : Cache ix) (need : ℕ)
      → balances c ys need ≡ true
      → Rearranged exact c g (fewer_active xs ys) (more_inactive xs ys) c1
      → bytes c.heap.store.nodes (fewer_active xs ys) (more_inactive xs ys) < 2 ^ 64
      → Ensures (Outcome c g xs ys need) (
          if leb need (list_data_size c1.heap inactive)
          then drop_enough c1 none need
          else some (1, c1))
  again {g} xs ys c c1 need balanced re small =
      let xs1 = fewer_active xs ys in
      let ys1 = more_inactive xs ys in
      let h = c.heap.store.nodes in
      let P = Outcome c g xs ys need in
      let same : (zs : List ℕ) → sum_sizes c1.heap.store.nodes zs ≡ sum_sizes h zs =
        λ zs. sum_sizes-congr h c1.heap.store.nodes zs (λ b _. (re.kept.info b).1) in
      let (_, total) = totals c1 re.cache (omega (arith, same xs1, same ys1, small)) in
      let total' : list_data_size c1.heap inactive ≡ sum_sizes h ys1 = total ∙ same ys1 in
      rw total' (
        Ensures-if P (leb need (sum_sizes h ys1)) _ _
          (λ fine. outcome g c xs ys need true true (drop_enough c1 none need) balanced fine (
            Ensures-mono (Cleared true c g (xs1, ys1) need) (drop_enough c1 none need)
              (drop_enough_lem c1 xs1 ys1 need re.cache (omega (arith, same ys1, small)))
              (λ (status, c2) (zero_status, dropped). (
                zero_status,
                Dropped-after c c1 c2 re (
                    subst (λ gone. Dropped exact c1 g xs1 ys1 gone c2)
                      (enough-congr (λ b. (h b).data_size) (λ b. (c1.heap.store.nodes b).data_size)
                        0 need ys1 (λ b. (re.kept.info b).1))
                      dropped),
              ))))
          (λ few. outcome g c xs ys need true false (some (1, c1)) balanced few (refl, re)))

  -- `_fcache_check_and_drop_nodes` for a new node
  pub clear_lem :
      {g : Key → Ptr} {xs ys : List ℕ} (c : Cache ix) (size : ℕ)
      → IsCache exact c g xs ys
      → bytes c.heap.store.nodes xs ys ≤ c.max_size
      → c.max_size < 2 ^ 64
      → Ensures (Outcome c g xs ys (shortage c xs ys size)) (check_and_drop_nodes c none size)
  unfolding check_and_drop_nodes grow_size
  clear_lem {g} {xs} {ys} c size is full word =
      let (active_total, inactive_total) = totals c is (omega (arith, full, word)) in
      let h = c.heap.store.nodes in
      let need = shortage c xs ys size in
      let P = Outcome c g xs ys need in
      let free : free_size c ≡ c.max_size - bytes h xs ys =
        omega (arith, active_total, inactive_total, full, word) in
      rw free (
        Ensures-if P (size == 0 || leb size (c.max_size - bytes h xs ys)) _ _
          (λ fits.
            let nothing : need ≡ 0 = ground (arith, full, fits) in
            let none_gone = ap (victims c ys) nothing ∙ victims_zero c ys in
            outcome g c xs ys need false true (some (0, c)) (ground (arith, nothing))
              (ground (arith, nothing))
              (
                refl,
                subst (λ gone. Dropped exact c g xs ys gone c) (sym none_gone)
                    (Dropped-none c c.heap is (Kept-refl c.heap)),
              ))
          (λ short.
            let drop_size : size - (c.max_size - bytes h xs ys) ≡ need =
              ground (arith, full, short) in
            rw (drop_size, inactive_total)
              (Ensures-if P (leb need (sum_sizes h ys)) _ _
                (λ fine.
                  outcome g c xs ys need false true (drop_enough c none need) (ground (arith, fine))
                    fine (drop_enough_lem c xs ys need is (omega (arith, full, word))))
                (λ few.
                  Ensures-bind {P = Rearranged exact c g (fewer_active xs ys) (more_inactive xs ys)}
                    P (balance_nodes c) _ (balance_nodes_lem c is)
                    (λ c1 re.
                      again xs ys c c1 need (ground (arith, few)) re
                        (omega (arith, counted-bytes h true xs ys, full, word)))))))
