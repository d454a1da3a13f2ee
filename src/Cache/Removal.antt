-- ===== src/Cache/Removal.antt =====
-- fcache/fcache.c: `_fcache_del_node`, of a node in a list or just taken out of one.
use final_libs.Prelude.{
  ℕ, zero, suc, ◌+◌, ◌≤◌, ◌≡◌, ◌≢◌, refl, sym, ap, subst, ◌∙◌, Bool, true, false, not, ◌&&◌, none,
  some, List, [], ◌∷◌, ◌++◌, arith, ◌==◌, if◌then◌else◌, inl, inr, Bool-cases, Option-cases, length,
  test_eq, test_ne, Ensures, Ensures-bind,
}
use native.Mathlib.Decide.{ℕ_discrete}
use final_libs.Dlist.Cells.{Ptr, write_self, write-other}
use final_libs.Dlist.Chain.{has}
use final_libs.Dlist.Kept.{SameInfo}
use final_libs.CacheList.{Key, Heap, c_string, delete, destroy_node, get_nodekey, get_nodedata}
use final_libs.CacheList.Laws.{Kept}
use final_libs.Cache.Lookup.{Index, is_unfit_key, bind, same_key}
use final_libs.Cache.Pair.{two, Becomes}
use final_libs.Cache.Inv.{inside, IsCache}
use final_libs.Cache.Used.{inside_alive}
use final_libs.Cache.{Cache, with_heap, free_obj, del_node}

-- the index without the nodes `gone`
abbrev pub forget_at : List ℕ → Ptr → Ptr
forget_at gone none = none
forget_at gone (some a) = if has a gone then none else some a

abbrev pub forget : (Key → Ptr) → List ℕ → Key → Ptr
forget g gone q = forget_at gone (g q)

pub same_key_eq : (k q : Key) → same_key k q ≡ true → k ≡ q
unfolding same_key
same_key_eq [] [] e = refl
same_key_eq [] (d ∷ q) e = absurd (ground arith)
same_key_eq (c ∷ k) [] e = absurd (ground arith)
same_key_eq (c ∷ k) (d ∷ q) e =
    let head : c ≡ d = ground arith in let tail : k ≡ q = same_key_eq k q (ground arith) in cc

pub same_key_refl : (k : Key) → same_key k k ≡ true
unfolding same_key
same_key_refl [] = refl
same_key_refl (c ∷ k) = ground (arith, same_key_refl k)

-- `obj_free` is called, if there is one
abbrev pub also_freed : Bool → List ℕ → ℕ → List ℕ
also_freed frees freed obj = if frees then freed ++ obj ∷ [] else freed

no_node : (b : ℕ) → has b [] ≡ true → ⊥
unfolding has
no_node b e = ground (arith, e)

-- what the index still gives is another node
not_forgotten : (a b : ℕ) (p : Ptr) → forget_at (a ∷ []) p ≡ some b → (p ≡ some b) × (b ≢ a)
unfolding has
not_forgotten a b none found = absurd (ground arith)
not_forgotten a b (some x) found = elim (ℕ_discrete x a) [
  | yes same ↦ absurd (ground (arith, test_eq x a same))
  | no other ↦
      let kept : some x ≡ some b = ground (arith, test_ne x a other) in
      let same : x ≡ b = cc kept in (kept, λ e. other (same ∙ e))
]

still_there : (a b : ℕ) → (b == a) ≡ false → forget_at (a ∷ []) (some b) ≡ some b
unfolding has
still_there a b e = ground (arith, e)

module _ {ix : Index} where
  -- the cache after the node `a` is deleted
  pub record Removed (e : ℕ → ℕ) (c : Cache ix) (g : Key → Ptr) (a : ℕ) (xs ys : List ℕ)
      (c' : Cache ix) : Type 0 where
    pub cache : IsCache e c' (forget g (a ∷ [])) xs ys
    pub freed : c'.freed ≡ also_freed c.frees c.freed (c.heap.store.nodes a).user_data
    pub info : SameInfo c.heap.store c'.heap.store
    pub used : ix.used c'.index ≤ ix.used c.index
    pub dead : c'.heap.live a ≡ false
    pub others : (b : ℕ) → b ≢ a → c'.heap.live b ≡ c.heap.live b
    pub frees : c'.frees ≡ c.frees
    pub max_size : c'.max_size ≡ c.max_size
    pub op_count : c'.op_count ≡ c.op_count
    pub enable_balance : c'.enable_balance ≡ c.enable_balance

  -- Taking the key of a node out of the index takes out the node.
  forget_one :
      {e : ℕ → ℕ} {g : Key → Ptr} {xs ys : List ℕ} (c : Cache ix) (a : ℕ) (key : Key)
      → IsCache e c g xs ys
      → c_string (c.heap.keys a) ≡ some key
      → g key ≡ some a
      → (q : Key) → bind g key none q ≡ forget g (a ∷ []) q
  unfolding has
  forget_one {e} {g} c a key is its_key at_key q = elim (Bool-cases (same_key key q)) [
    | inl same ↦
        let at_q : g q ≡ some a = ap g (sym (same_key_eq key q same)) ∙ at_key in
        rw (same, at_q, test_eq a a refl) refl
    | inr other ↦ elim (Option-cases (g q)) [
      | inl nothing ↦ rw (other, nothing) refl
      | inr (b, at_q) ↦
          let (_, b_key) = is.listed q b at_q in
          let differ : b ≢ a = λ same.
            let k : some q ≡ some key =
              sym b_key ∙ ap (λ n. c_string (c.heap.keys n)) same ∙ its_key in
            let k' : key ≡ q = cc k in
            absurd (ground (arith, other, ap (same_key key) (sym k'), same_key_refl key)) in
          rw (other, at_q, test_ne b a differ) refl
    ]
  ]

  pub free_obj_lem :
      (c : Cache ix) (obj : ℕ)
      → free_obj c obj ≡ record c { freed = also_freed c.frees c.freed obj }
  unfolding free_obj
  free_obj_lem c obj = cases c.frees
    where
      cases :
          (b : Bool)
          → (if b then record c { freed = c.freed ++ obj ∷ [] } else c)
            ≡ record c { freed = also_freed b c.freed obj }
      cases true = refl
      cases false = refl

  -- `_fcache_del_node` of a node of the cache, in a heap that differs from the cache's in links
  -- only, and in which `fcache_list_delete_node` leaves the other nodes.
  pub del_node_lem :
      {e : ℕ → ℕ} {g : Key → Ptr} {xs ys : List ℕ} (c : Cache ix) (h : Heap) (a : ℕ)
      (xs' ys' : List ℕ)
      → IsCache e c g xs ys
      → Kept c.heap h
      → inside a xs ys ≡ true
      → Ensures (Becomes e h xs' ys') (delete h a)
      → ((b : ℕ) → inside b xs' ys' ≡ (not (b == a) && inside b xs ys))
      → length xs' + length ys' ≤ length xs + length ys
      → Ensures (Removed e c g a xs' ys') (del_node (with_heap c h) a)
  unfolding del_node get_nodekey get_nodedata destroy_node
  del_node_lem {e} {g} {xs} {ys} c h a xs' ys' is kept here deleted others fewer =
      let (key, its_key, at_key, given) = is.keyed a here in
      let living : h.live a ≡ true = ap (λ v. v a) kept.live ∙ inside_alive a is.heap here in
      let its_key' : c_string (h.keys a) ≡ some key =
        ap (λ k. c_string (k a)) kept.keys ∙ its_key in
      let P = Removed e c g a xs' ys' in
      rw (living, its_key', free_obj_lem (with_heap c h) (h.store.nodes a).user_data)
        (Ensures-bind {P = λ t. ix.Stands t (bind g key none) × (ix.used t ≤ ix.used c.index)} P
          (ix.del c.index key) _ (ix.del_stands c.index g key is.index given)
          (λ t (stands, fewer_used).
            Ensures-bind {P = Becomes e h xs' ys'} P (delete h a) _ deleted (λ h' becomes.
              let living' : h'.live a ≡ true = ap (λ v. v a) becomes.1.live ∙ living in
              rw living' (record {
                cache = record {
                  heap = record {
                    lists = becomes.0.lists;
                    alive = λ l b there.
                        write-other h'.live a false b (apart l b there) ∙ becomes.0.alive l b there;
                  };
                  index =
                      subst (ix.Stands t) (λ i q. forget_one c a key is its_key at_key q i) stands;
                  listed = λ q b found. listed' h' becomes q b found;
                  keyed = λ b there. keyed' h' becomes b there;
                  small = omega (arith, fewer, is.small);
                };
                freed = ap (also_freed c.frees c.freed) (kept.info a).0;
                info = λ b. (
                  (becomes.1.info b).0 ∙ (kept.info b).0,
                  (becomes.1.info b).1 ∙ (kept.info b).1,
                );
                used = fewer_used;
                dead = write_self h'.live a false;
                others = λ b ne.
                    write-other h'.live a false b ne
                    ∙ ap (λ v. v b) becomes.1.live
                    ∙ ap (λ v. v b) kept.live;
                frees = refl;
                max_size = refl;
                op_count = refl;
                enable_balance = refl;
              }))))
    where
      apart : (l b : ℕ) → has b (two xs' ys' l) ≡ true → b ≢ a
      apart l b there same = absurd (cases l there)
        where
          gone : inside b xs' ys' ≡ false
          gone = others b ∙ rw (test_eq b a same) refl

          cases : (l : ℕ) → has b (two xs' ys' l) ≡ true → ⊥
          cases zero e' = ground (arith, gone)
          cases (suc zero) e' = ground (arith, gone)
          cases (suc (suc l)) e' = no_node b e'

      listed' :
          (h' : Heap)
          → Becomes e h xs' ys' h'
          → (q : Key) (b : ℕ) → forget g (a ∷ []) q ≡ some b
          → (inside b xs' ys' ≡ true) × (c_string (h'.keys b) ≡ some q)
      listed' h' becomes q b found =
          let (at_q, ne) = not_forgotten a b (g q) found in
          let (there, b_key) = is.listed q b at_q in
          (
            others b ∙ rw (test_ne b a ne) there,
            ap (λ k. c_string (k b)) (becomes.1.keys ∙ kept.keys) ∙ b_key,
          )

      keyed' :
          (h' : Heap)
          → Becomes e h xs' ys' h'
          → (b : ℕ) → inside b xs' ys' ≡ true
          → (q : Key) × (c_string (h'.keys b) ≡ some q)
            × (forget g (a ∷ []) q ≡ some b)
            × (is_unfit_key q ≡ false)
      keyed' h' becomes b there =
          let not_a : (b == a) ≡ false = ground (arith, others b, there) in
          let (q, b_key, at_q, some_key) = is.keyed b (ground (arith, others b, there)) in
          (
            q,
            ap (λ k. c_string (k b)) (becomes.1.keys ∙ kept.keys) ∙ b_key,
            ap (forget_at (a ∷ [])) at_q ∙ still_there a b not_a,
            some_key,
          )
