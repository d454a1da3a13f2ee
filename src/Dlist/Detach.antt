-- ===== src/Dlist/Detach.antt =====
-- flist/fdlist.c: a node taken out of its list.
use final_libs.Prelude.{
  ℕ, ◌≡◌, ◌≢◌, refl, sym, ap, subst, ◌∙◌, true, false, none, some, List, [], ◌∷◌, ◌++◌, arith, ◌==◌,
  if◌then◌else◌, test_eq, test_ne,
}
use native.Mathlib.Decide.{ℕ_discrete}
use final_libs.Dlist.Cells.{
  DNode, Store, Ptr, same_ptr, put_node, put_list, write, write_self, write-other,
}
use final_libs.Dlist.Chain.{
  first_or, last_from, last_of, has, distinct, Linked, Joined, has_self, has-later, has-last,
  distinct-tail, head_apart, Linked-split,
}
use final_libs.Dlist.Inv.{IsList, has-append}
use final_libs.Dlist.{set_next, set_prev, unlink}

-- What the different nodes of a list with `a` in the middle say.
pub distinct-middle :
    (ys : List ℕ) (a : ℕ) (zs : List ℕ)
    → distinct (ys ++ a ∷ zs) ≡ true
    → (distinct (ys ++ zs) ≡ true)
      × (distinct ys ≡ true)
      × (distinct zs ≡ true)
      × (has a ys ≡ false)
      × (has a zs ≡ false)
      × ((b : ℕ) → has b ys ≡ true → has b zs ≡ false)
unfolding distinct has
distinct-middle [] a zs d = ground arith
distinct-middle (y ∷ ys) a zs d =
    let (both, front, back, out_front, out_back, apart) = distinct-middle ys a zs (ground arith) in
    (
      ground (arith, has-append y ys zs, has-append y ys (a ∷ zs)),
      ground (arith, has-append y ys (a ∷ zs)),
      back,
      ground (arith, has-append y ys (a ∷ zs)),
      out_back,
      λ b e. elim (ℕ_discrete b y) [
        | yes here ↦ ap (λ m. has m zs) here ∙ ground (arith, has-append y ys (a ∷ zs))
        | no later ↦ apart b (ground arith)
      ],
    )

-- an unchanged part of a list: only the link back of its first node may differ
pub Linked-keep :
    (h h' : ℕ → DNode) (l : ℕ) (xs : List ℕ) (q : Ptr)
    → distinct xs ≡ true
    → ((b : ℕ) → has b xs ≡ true → (h' b).owner ≡ (h b).owner)
    → ((b : ℕ) → has b xs ≡ true → (h' b).next ≡ (h b).next)
    → ((b : ℕ)
        → has b xs ≡ true
        → same_ptr (some b) (first_or xs none) ≡ false
        → (h' b).prev ≡ (h b).prev)
    → Linked h l xs q
    → Linked h' l xs q
Linked-keep h h' l [] q d owners nexts prevs k = tt
Linked-keep h h' l (a ∷ []) q d owners nexts prevs (o, n, b, k) =
    (owners a (has_self a []) ∙ o, nexts a (has_self a []) ∙ n, tt, tt)
Linked-keep h h' l (a ∷ x ∷ xs) q d owners nexts prevs (o, n, b, k) =
    let unlike : (y : ℕ) → has y (x ∷ xs) ≡ true → (y == a) ≡ false =
      λ y e. test_ne y a (head_apart a y (x ∷ xs) d e) in
    (
      owners a (has_self a (x ∷ xs)) ∙ o,
      nexts a (has_self a (x ∷ xs)) ∙ n,
      prevs x (has-later x a (x ∷ xs) (has_self x xs)) (unlike x (has_self x xs)) ∙ b,
      Linked-keep h h' l (x ∷ xs) q (distinct-tail a (x ∷ xs) d)
          (λ y e. owners y (has-later y a (x ∷ xs) e)) (λ y e. nexts y (has-later y a (x ∷ xs) e))
          (λ y e _. prevs y (has-later y a (x ∷ xs) e) (unlike y e)) k,
    )

pub last_from-middle :
    (y : ℕ) (ys : List ℕ) (a : ℕ) (zs : List ℕ) → last_from y (ys ++ a ∷ zs) ≡ last_from a zs
last_from-middle y [] a zs = refl
last_from-middle y (x ∷ ys) a zs = last_from-middle x ys a zs

-- the store after the branch of `fdlist_delete_node` for a node between `ys` and `zs`
abbrev pub unlinked : Store → ℕ → List ℕ → List ℕ → Store
unlinked s l [] [] = put_list s l (record (s.lists l) { head = none; tail = none })
unlinked s l [] (z ∷ zs) = put_list s l (record (s.lists l) { head = some z })
unlinked s l (y ∷ ys) [] =
    let t = last_from y ys in
    put_node (put_list s l (record (s.lists l) { tail = some t })) t
      (record (s.nodes t) { next = none })
unlinked s l (y ∷ ys) (z ∷ zs) =
    let t = last_from y ys in
    let s' = put_node s t (record (s.nodes t) { next = some z }) in
    put_node s' z (record (s'.nodes z) { prev = some t })

-- `b` is not in a list that has all of `xs`
pub differs : (b c : ℕ) (xs : List ℕ) → has b xs ≡ false → has c xs ≡ true → c ≢ b
differs b c xs out inside here = absurd (ground (arith, out, inside, ap (λ m. has m xs) here))

module _ {d : ℕ} {s : Store} {l : ℕ} (ys : List ℕ) (a : ℕ) (zs : List ℕ)
    (is : IsList d s l (ys ++ a ∷ zs)) where
  abbrev pub facts :
      (distinct (ys ++ zs) ≡ true)
      × (distinct ys ≡ true)
      × (distinct zs ≡ true)
      × (has a ys ≡ false)
      × (has a zs ≡ false)
      × ((b : ℕ) → has b ys ≡ true → has b zs ≡ false)
  facts = distinct-middle ys a zs is.unique

  abbrev pub parts :
      Linked s.nodes l ys (some a) × Joined s.nodes ys (a ∷ zs) × Linked s.nodes l (a ∷ zs) none
  parts = Linked-split s.nodes l ys (a ∷ zs) none is.linked

-- The branches come to that store.
pub unlink-unlinked :
    {d : ℕ} {s : Store} {l : ℕ} (ys : List ℕ) (a : ℕ) (zs : List ℕ)
    → IsList d s l (ys ++ a ∷ zs)
    → unlink s l a ≡ some (unlinked s l ys zs)
unfolding unlink set_next set_prev
unlink-unlinked {d} {s} {l} [] a [] is = rw (is.head, is.tail, test_eq a a refl) refl
unlink-unlinked {d} {s} {l} [] a (z ∷ zs) is =
    let last_ne = test_ne a (last_from z zs) (λ e.
      differs a (last_from z zs) (z ∷ zs) (facts [] a (z ∷ zs) is).4 (has-last z zs) (sym e)) in
    rw (is.head, is.tail, test_eq a a refl, last_ne, is.linked.1) refl
unlink-unlinked {d} {s} {l} (y ∷ ys) a [] is =
    let first_ne =
      test_ne a y (λ e. differs a y (y ∷ ys) (facts (y ∷ ys) a [] is).3 (has_self y ys) (sym e)) in
    rw
      (
        is.head,
        is.tail,
        last_from-middle y ys a [],
        first_ne,
        test_eq a a refl,
        (parts (y ∷ ys) a [] is).1,
      )
      refl
unlink-unlinked {d} {s} {l} (y ∷ ys) a (z ∷ zs) is =
    let first_ne =
      test_ne a y
        (λ e. differs a y (y ∷ ys) (facts (y ∷ ys) a (z ∷ zs) is).3 (has_self y ys) (sym e)) in
    let last_ne = test_ne a (last_from z zs) (λ e.
      differs a (last_from z zs) (z ∷ zs) (facts (y ∷ ys) a (z ∷ zs) is).4 (has-last z zs)
        (sym e)) in
    let (_, back, (_, on, _, _)) = parts (y ∷ ys) a (z ∷ zs) is in
    let t_ne =
      differs a (last_from y ys) (y ∷ ys) (facts (y ∷ ys) a (z ∷ zs) is).3 (has-last y ys) in
    rw (is.head, is.tail, last_from-middle y ys a (z ∷ zs), first_ne, last_ne, back, on)
      (rw
        (
          write-other s.nodes (last_from y ys) (record (s.nodes (last_from y ys)) { next = some z })
              a (λ e. t_ne (sym e)),
          back,
          on,
        )
        refl)

written-next :
    (h : ℕ → DNode) (t : ℕ) (p : Ptr) (b : ℕ)
    → write h t (record (h t) { next = p }) b
      ≡ record (h b) { next = if b == t then p else (h b).next }
written-next h t p b = elim (ℕ_discrete b t) [
  | yes here ↦ rw (test_eq b t here) (
      subst (λ c. write h t (record (h t) { next = p }) c ≡ record (h c) { next = p }) (sym here)
        (write_self h t _))
  | no other ↦ rw (test_ne b t other) (write-other h t _ b other)
]

written-prev :
    (h : ℕ → DNode) (z : ℕ) (p : Ptr) (b : ℕ)
    → write h z (record (h z) { prev = p }) b
      ≡ record (h b) { prev = if b == z then p else (h b).prev }
written-prev h z p b = elim (ℕ_discrete b z) [
  | yes here ↦ rw (test_eq b z here) (
      subst (λ c. write h z (record (h z) { prev = p }) c ≡ record (h c) { prev = p }) (sym here)
        (write_self h z _))
  | no other ↦ rw (test_ne b z other) (write-other h z _ b other)
]

-- the links that `unlinked` writes: on for the last of `ys`, back for the first of `zs`
abbrev pub next_after : List ℕ → List ℕ → ℕ → Ptr → Ptr
next_after ys zs b old = if same_ptr (some b) (last_of ys) then first_or zs none else old

abbrev pub prev_after : List ℕ → List ℕ → ℕ → Ptr → Ptr
prev_after [] zs b old = old
prev_after (y ∷ ys) zs b old =
    if same_ptr (some b) (first_or zs none) then last_of (y ∷ ys) else old

-- What has happened to each node.
pub node_after :
    (s : Store) (l : ℕ) (ys zs : List ℕ) (b : ℕ)
    → (unlinked s l ys zs).nodes b ≡ record (s.nodes b) {
      next = next_after ys zs b (s.nodes b).next;
      prev = prev_after ys zs b (s.nodes b).prev;
    }
node_after s l [] [] b = refl
node_after s l [] (z ∷ zs) b = refl
node_after s l (y ∷ ys) [] b = written-next s.nodes (last_from y ys) none b
node_after s l (y ∷ ys) (z ∷ zs) b =
    let t = last_from y ys in
    let h = write s.nodes t (record (s.nodes t) { next = some z }) in
    written-prev h z (some t) b
    ∙ ap (λ (n : DNode). record n { prev = if b == z then some t else n.prev })
        (written-next s.nodes t (some z) b)
