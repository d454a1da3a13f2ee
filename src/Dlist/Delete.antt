-- ===== src/Dlist/Delete.antt =====
-- flist/fdlist.c: `fdlist_delete_node` against the lists of a store.
use final_libs.Prelude.{
  ℕ, ◌+◌, ◌%◌, ◌^◌, ◌≡◌, ◌≢◌, refl, sym, ap, ap₂, subst, ◌∙◌, true, false, none, some, List, [],
  ◌∷◌, ◌++◌, arith, ◌==◌, if◌then◌else◌, inl, inr, Bool-cases, length-append, append-nil, test_eq,
  ne_of_test, sub_size, Ensures,
}
use native.Mathlib.Decide.{ℕ_discrete}
use final_libs.Dlist.Cells.{DNode, Store, Ptr, same_ptr, write_self, write-other}
use final_libs.Dlist.Chain.{
  first_or, last_from, last_of, has, Linked, Joined, sum_sizes, owner_of, has_self, Linked-append,
  Linked-change,
}
use final_libs.Dlist.Inv.{
  IsList, IsStore, put, sum_sizes-congr, sum_sizes-append, has-append, IsList-frame, IsStore-put,
  not_last, not_first, one_owner,
}
use final_libs.Dlist.Detach.{
  Linked-keep, last_from-middle, differs, unlinked, facts, parts, unlink-unlinked, next_after,
  prev_after, node_after,
}
use final_libs.Dlist.{unowned, count_out, delete_node}

-- where a list is cut to take a node out
pub split_at :
    (a : ℕ) (xs : List ℕ) → has a xs ≡ true → (ys : List ℕ) × (zs : List ℕ) × (xs ≡ ys ++ a ∷ zs)
unfolding has
split_at a [] e = absurd (ground arith)
split_at a (x ∷ xs) e = elim (ℕ_discrete a x) [
  | yes here ↦ ([], xs, ap (λ m. m ∷ xs) (sym here))
  | no later ↦ let (ys, zs, e') = split_at a xs (ground arith) in (x ∷ ys, zs, ap (λ ms. x ∷ ms) e')
]

lists_after :
    {d : ℕ} {s : Store} {l : ℕ} (ys : List ℕ) (a : ℕ) (zs : List ℕ)
    → IsList d s l (ys ++ a ∷ zs)
    → (unlinked s l ys zs).lists l
      ≡ record (s.lists l) { head = first_or (ys ++ zs) none; tail = last_of (ys ++ zs) }
lists_after {d} {s} {l} [] a [] is = write_self s.lists l _
lists_after {d} {s} {l} [] a (z ∷ zs) is =
    write_self s.lists l _ ∙ ap (λ t. record (s.lists l) { head = some z; tail = t }) is.tail
lists_after {d} {s} {l} (y ∷ ys) a [] is =
    write_self s.lists l _
    ∙ ap₂ (λ p t. record (s.lists l) { head = p; tail = t }) is.head
        (ap (λ ms. some (last_from y ms)) (sym (append-nil ys)))
lists_after {d} {s} {l} (y ∷ ys) a (z ∷ zs) is =
    ap₂ (λ p t. record (s.lists l) { head = p; tail = t }) is.head
      (is.tail ∙ ap some (last_from-middle y ys a (z ∷ zs) ∙ sym (last_from-middle y ys z zs)))

other_list :
    (s : Store) (l : ℕ) (ys zs : List ℕ) (k : ℕ) → k ≢ l → (unlinked s l ys zs).lists k ≡ s.lists k
other_list s l [] [] k ne = write-other s.lists l _ k ne
other_list s l [] (z ∷ zs) k ne = write-other s.lists l _ k ne
other_list s l (y ∷ ys) [] k ne = write-other s.lists l _ k ne
other_list s l (y ∷ ys) (z ∷ zs) k ne = refl

-- the link back over the gap
Joined-after :
    (s : Store) (l : ℕ) (h : ℕ → DNode) (ys zs : List ℕ)
    → ((b : ℕ) → has b zs ≡ true → h b ≡ (unlinked s l ys zs).nodes b)
    → Joined h ys zs
Joined-after s l h [] zs same = tt
Joined-after s l h (y ∷ ys) [] same = tt
Joined-after s l h (y ∷ ys) (z ∷ zs) same =
    ap (λ m. m.prev) (same z (has_self z zs) ∙ node_after s l (y ∷ ys) (z ∷ zs) z)
    ∙ rw (test_eq z z refl)

prev_kept :
    (ys zs : List ℕ) (b : ℕ) (old : Ptr)
    → same_ptr (some b) (first_or zs none) ≡ false
    → prev_after ys zs b old ≡ old
prev_kept [] zs b old e = refl
prev_kept (y ∷ ys) zs b old e = rw e

next_kept : (ys zs : List ℕ) (b : ℕ) (old : Ptr) → has b ys ≡ false → next_after ys zs b old ≡ old
next_kept ys zs b old e = rw (not_last b ys e)

module _ {d : ℕ} {s : Store} {l : ℕ} (ys : List ℕ) (a : ℕ) (zs : List ℕ)
    (is : IsList d s l (ys ++ a ∷ zs)) where
  abbrev pub s1 : Store
  s1 = unlinked s l ys zs

  abbrev pub s2 : Store
  s2 = unowned s1 a

  abbrev pub s3 : Store
  s3 = count_out s2 l (s2.nodes a).data_size

  -- every other node, and its new links
  other : (b : ℕ) → b ≢ a → s2.nodes b ≡ s1.nodes b
  unfolding unowned
  other b ne = write-other s1.nodes a _ b ne

  after :
      (b : ℕ)
      → b ≢ a
      → s2.nodes b ≡ record (s.nodes b) {
        next = next_after ys zs b (s.nodes b).next;
        prev = prev_after ys zs b (s.nodes b).prev;
      }
  after b ne = other b ne ∙ node_after s l ys zs b

  free : (s2.nodes a).owner ≡ none
  unfolding unowned
  free = ap (λ m. m.owner) (write_self s1.nodes a _)

  pub free' : (s3.nodes a).owner ≡ none
  unfolding count_out
  free' = free

  same_size : (s2.nodes a).data_size ≡ (s.nodes a).data_size
  unfolding unowned
  same_size =
      ap (λ m. m.data_size) (write_self s1.nodes a _)
      ∙ ap (λ m. m.data_size) (node_after s l ys zs a)

  front_ne : (b : ℕ) → has b ys ≡ true → b ≢ a
  front_ne b e = differs a b ys (facts ys a zs is).3 e

  back_ne : (b : ℕ) → has b zs ≡ true → b ≢ a
  back_ne b e = differs a b zs (facts ys a zs is).4 e

  out_of_front : (b : ℕ) → has b zs ≡ true → has b ys ≡ false
  out_of_front b e = elim (Bool-cases (has b ys)) [
    | inl e' ↦ absurd (ground (arith, (facts ys a zs is).5 b e'))
    | inr e' ↦ e'
  ]

  linked' : Linked s2.nodes l (ys ++ zs) none
  linked' =
      let (front, _, (_, _, _, back)) = parts ys a zs is in
      Linked-append s2.nodes l ys zs none
        (Linked-change s.nodes s2.nodes l ys (some a) (first_or zs none) (facts ys a zs is).1
          (λ b e. ap (λ m. m.owner) (after b (front_ne b e)))
          (λ b e. ap (λ m. m.next) (after b (front_ne b e)))
          (λ b e _.
            ap (λ m. m.prev) (after b (front_ne b e))
            ∙ prev_kept ys zs b _ (not_first b zs ((facts ys a zs is).5 b e)))
          front)
        (Joined-after s l s2.nodes ys zs (λ b e. other b (back_ne b e)))
        (Linked-keep s.nodes s2.nodes l zs none (facts ys a zs is).2
          (λ b e. ap (λ m. m.owner) (after b (back_ne b e)))
          (λ b e. ap (λ m. m.next) (after b (back_ne b e)) ∙ next_kept ys zs b _ (out_of_front b e))
          (λ b e ne. ap (λ m. m.prev) (after b (back_ne b e)) ∙ prev_kept ys zs b _ ne) back)

  counted : s3.lists l ≡ record (s2.lists l) {
    size = sub_size (s2.lists l).size 1;
    total_data_size = sub_size (s2.lists l).total_data_size ((s2.nodes a).data_size % 2 ^ 64);
  }
  unfolding count_out
  counted = write_self s2.lists l _

  sizes' : sum_sizes s2.nodes (ys ++ zs) + (s2.nodes a).data_size ≡ sum_sizes s.nodes (ys ++ a ∷ zs)
  unfolding sum_sizes
  sizes' = omega (
    arith,
    same_size,
    sum_sizes-append s2.nodes ys zs,
    sum_sizes-append s.nodes ys (a ∷ zs),
    sum_sizes-congr s.nodes s2.nodes ys (λ b e. ap (λ m. m.data_size) (after b (front_ne b e))),
    sum_sizes-congr s.nodes s2.nodes zs (λ b e. ap (λ m. m.data_size) (after b (back_ne b e))),
  )

  owned' : (b : ℕ) → (s2.nodes b).owner ≡ some l → has b (ys ++ zs) ≡ true
  unfolding has
  owned' b o = elim (ℕ_discrete b a) [
    | yes here ↦ absurd (ground (arith, free, o, ap (λ m. (s2.nodes m).owner) here))
    | no ne ↦
        let inside = is.owned b (sym (ap (λ m. m.owner) (after b ne)) ∙ o) in
        ground (arith, inside, has-append b ys (a ∷ zs), has-append b ys zs)
  ]

  list_of :
      s2.lists l ≡ record (s.lists l) { head = first_or (ys ++ zs) none; tail = last_of (ys ++ zs) }
  unfolding unowned
  list_of = lists_after ys a zs is

  pub deleted : IsList d s3 l (ys ++ zs)
  unfolding count_out
  deleted = record {
    head = ap (λ d. d.head) counted ∙ ap (λ d. d.head) list_of;
    tail = ap (λ d. d.tail) counted ∙ ap (λ d. d.tail) list_of;
    linked = linked';
    unique = (facts ys a zs is).0;
    owned = owned';
    size = omega (
      arith,
      ap (λ d. d.size) counted,
      ap (λ d. d.size) list_of,
      is.size,
      length-append ys zs,
      length-append ys (a ∷ zs),
    );
    total = omega (
      arith,
      ap (λ d. d.total_data_size) counted,
      ap (λ d. d.total_data_size) list_of,
      is.total,
      sizes',
    );
  }

  outside :
      (b : ℕ) → has b (ys ++ a ∷ zs) ≡ false → (has b ys ≡ false) × (b ≢ a) × (has b zs ≡ false)
  unfolding has
  outside b e = (
    ground (arith, has-append b ys (a ∷ zs)),
    ne_of_test b a (ground (arith, has-append b ys (a ∷ zs))),
    ground (arith, has-append b ys (a ∷ zs)),
  )

  -- another list is not touched
  pub untouched : {d' : ℕ} (k : ℕ) (xs : List ℕ) → k ≢ l → IsList d' s k xs → IsList d' s3 k xs
  unfolding count_out unowned
  untouched {d'} k xs ne is_k =
      IsList-frame s3 is_k (write-other s2.lists l _ k ne ∙ other_list s l ys zs k ne)
        (λ b e.
          let o = owner_of s.nodes k xs none b is_k.linked e in
          let out = one_owner s (ys ++ a ∷ zs) b is ne o in
          let (not_front, not_here, not_back) = outside b out in
          after b not_here
          ∙ ap₂ (λ n p. record (s.nodes b) { next = n; prev = p }) (next_kept ys zs b _ not_front)
              (prev_kept ys zs b _ (not_first b zs not_back)))
        (λ b o. elim (ℕ_discrete b a) [
          | yes here ↦ absurd (ground (arith, free, o, ap (λ m. (s2.nodes m).owner) here))
          | no ne' ↦ sym (ap (λ m. m.owner) (after b ne')) ∙ o
        ])

abbrev pub remove : ℕ → List ℕ → List ℕ
remove a [] = []
remove a (x ∷ xs) = if a == x then xs else x ∷ remove a xs

remove-middle :
    (ys : List ℕ) (a : ℕ) (zs : List ℕ) → has a ys ≡ false → remove a (ys ++ a ∷ zs) ≡ ys ++ zs
unfolding has
remove-middle [] a zs e = rw (test_eq a a refl) refl
remove-middle (y ∷ ys) a zs e = ground (arith, remove-middle ys a zs)

-- The node is returned, belongs to no list, and is gone from its own; the other lists stay.
abbrev pub Deleted : (ℕ → ℕ) → (ℕ → List ℕ) → ℕ → ℕ → Ptr × Store → Type 0
Deleted e f l a (r, s') =
    (r ≡ some a) × IsStore e s' (put f l (remove a (f l))) × ((s'.nodes a).owner ≡ none)

-- In a store whose lists hold the given nodes, `fdlist_delete_node` of a node that belongs to a
-- list is defined: it follows no NULL. It returns the node, which then belongs to no list. Its
-- list holds its other nodes in their order, with head, tail and size right, each linked on to
-- the next one and back to the one before; the back link of the first node is left open. The
-- bytes of the node are counted out, and every other list holds what it held.
pub delete_node_lem :
    {e : ℕ → ℕ} {s : Store} {f : ℕ → List ℕ} (l a : ℕ)
    → IsStore e s f
    → (s.nodes a).owner ≡ some l
    → Ensures (Deleted e f l a) (delete_node s a)
unfolding delete_node
delete_node_lem {e} {s} {f} l a is o =
    let (ys, zs, cut) = split_at a (f l) ((is l).owned a o) in
    let is_l : IsList (e l) s l (ys ++ a ∷ zs) = subst (IsList (e l) s l) cut (is l) in
    let rest : ys ++ zs ≡ remove a (f l) =
      sym (remove-middle ys a zs (facts ys a zs is_l).3) ∙ ap (remove a) (sym cut) in
    rw (o, delete_node)
      (rw (unlink-unlinked ys a zs is_l) (
        refl,
        IsStore-put e (s3 ys a zs is_l) f l (remove a (f l))
            (subst (IsList (e l) (s3 ys a zs is_l) l) rest (deleted ys a zs is_l))
            (λ k ne. untouched ys a zs is_l k (f k) ne (is k)),
        free' ys a zs is_l,
      ))
