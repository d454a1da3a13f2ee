-- ===== src/Dlist/Push.antt =====
-- flist/fdlist.c: `fdlist_push` against the lists of a store.
use final_libs.Prelude.{
  ℕ, ◌+◌, ◌≡◌, ◌≢◌, refl, sym, ap, subst, ◌∙◌, true, false, none, some, List, [], ◌∷◌, ◌++◌, arith,
  if◌then◌else◌, inl, inr, Bool-cases, length-append, test_eq, test_ne, ne_of_test, Ensures,
  add_size,
}
use native.Mathlib.Decide.{ℕ_discrete}
use final_libs.Dlist.Cells.{DNode, Store, same_ptr, put_node, put_list, write_self, write-other}
use final_libs.Dlist.Chain.{
  first_or, last_from, last_of, has, distinct, Linked, Joined, sum_sizes, owner_of, has_self,
  has-last, Linked-append, Linked-change,
}
use final_libs.Dlist.Inv.{
  IsList, IsStore, put, sum_sizes-congr, sum_sizes-append, has-append, IsList-frame, is_empty_lem,
  IsStore-put, not_last, one_owner,
}
use final_libs.Dlist.{set_next, count_in, link_last, push}

distinct-snoc :
    (xs : List ℕ) (a : ℕ) → distinct xs ≡ true → has a xs ≡ false → distinct (xs ++ a ∷ []) ≡ true
unfolding distinct has
distinct-snoc [] a d out = refl
distinct-snoc (x ∷ xs) a d out = ground (arith, distinct-snoc xs a, has-append x xs (a ∷ []))

last_from-snoc : (x : ℕ) (xs : List ℕ) (a : ℕ) → last_from x (xs ++ a ∷ []) ≡ a
last_from-snoc x [] a = refl
last_from-snoc x (y ∷ xs) a = last_from-snoc y xs a

last_of-snoc : (xs : List ℕ) (a : ℕ) → last_of (xs ++ a ∷ []) ≡ some a
last_of-snoc [] a = refl
last_of-snoc (x ∷ xs) a = ap some (last_from-snoc x xs a)

-- the node `a` when it becomes the last one of the list `l`
abbrev pub entered : Store → ℕ → ℕ → Store
entered s l a =
    put_node s a (record (s.nodes a) { next = none; prev = (s.lists l).tail; owner = some l })

-- the store with the node linked behind the nodes `xs`
abbrev pub attached : Store → ℕ → ℕ → List ℕ → Store
attached s l a [] = put_list (entered s l a) l (record (s.lists l) { head = some a; tail = some a })
attached s l a (x ∷ xs) =
    let s1 = entered s l a in
    let t = last_from x xs in
    put_list (put_node s1 t (record (s1.nodes t) { next = some a })) l
      (record (s.lists l) { tail = some a })

Joined-last : (a : ℕ) (h : ℕ → DNode) (xs : List ℕ) → (h a).prev ≡ last_of xs → Joined h xs (a ∷ [])
Joined-last a h [] e = tt
Joined-last a h (x ∷ xs) e = e

module _ {d : ℕ} {s : Store} {l : ℕ} (a : ℕ) (free : (s.nodes a).owner ≡ none) where
  apart : {xs : List ℕ} → IsList d s l xs → (b : ℕ) → has b xs ≡ true → b ≢ a
  apart {xs} is b e here =
      let o = owner_of s.nodes l xs none b is.linked e in
      absurd (ground (arith, ap (λ m. (s.nodes m).owner) here))

  pub link_last-attached :
      (xs : List ℕ) → IsList d s l xs → link_last (entered s l a) l a ≡ some (attached s l a xs)
  unfolding link_last set_next
  link_last-attached [] is = rw (is_empty_lem [] is)
  link_last-attached (x ∷ xs) is = rw (is_empty_lem (x ∷ xs) is, is.tail)

  -- the nodes after it: the node itself, the one that was last, and all others
  at_node :
      (xs : List ℕ) (is : IsList d s l xs)
      → (attached s l a xs).nodes a
        ≡ record (s.nodes a) { next = none; prev = (s.lists l).tail; owner = some l }
  at_node [] is = write_self s.nodes a _
  at_node (x ∷ xs) is =
      write-other _ (last_from x xs) _ a (λ e. apart is (last_from x xs) (has-last x xs) (sym e))
      ∙ write_self s.nodes a _

  at_last :
      (x : ℕ) (xs : List ℕ) (is : IsList d s l (x ∷ xs))
      → let t = last_from x xs in
        (attached s l a (x ∷ xs)).nodes t ≡ record (s.nodes t) { next = some a }
  at_last x xs is =
      write_self _ (last_from x xs) _
      ∙ ap (λ (m : DNode). record m { next = some a })
          (write-other s.nodes a _ (last_from x xs) (apart is (last_from x xs) (has-last x xs)))

  elsewhere :
      (xs : List ℕ) (is : IsList d s l xs) (b : ℕ)
      → b ≢ a
      → same_ptr (some b) (last_of xs) ≡ false
      → (attached s l a xs).nodes b ≡ s.nodes b
  elsewhere [] is b ne _ = write-other s.nodes a _ b ne
  elsewhere (x ∷ xs) is b ne not_last =
      write-other _ (last_from x xs) _ b (ne_of_test b (last_from x xs) not_last)
      ∙ write-other s.nodes a _ b ne

  -- What a node of the list has got: a link on, if it was the last one.
  member :
      (xs : List ℕ) (is : IsList d s l xs) (b : ℕ)
      → has b xs ≡ true
      → (attached s l a xs).nodes b ≡ record (s.nodes b) {
        next = if same_ptr (some b) (last_of xs) then some a else (s.nodes b).next;
      }
  unfolding has
  member [] is b e = absurd (ground arith)
  member (x ∷ xs) is b e = elim (ℕ_discrete b (last_from x xs)) [
    | yes here ↦ rw (test_eq b (last_from x xs) here) (
        subst (λ t. (attached s l a (x ∷ xs)).nodes t ≡ record (s.nodes t) { next = some a })
          (sym here) (at_last x xs is))
    | no other ↦
        let differs = test_ne b (last_from x xs) other in
        rw differs (elsewhere (x ∷ xs) is b (apart is b e) differs)
  ]

  -- no node but `a` has got another owner
  owner-kept :
      (xs : List ℕ) (is : IsList d s l xs) (b : ℕ)
      → b ≢ a
      → ((attached s l a xs).nodes b).owner ≡ (s.nodes b).owner
  owner-kept [] is b ne = ap (λ m. m.owner) (elsewhere [] is b ne refl)
  owner-kept (x ∷ xs) is b ne = elim (ℕ_discrete b (last_from x xs)) [
    | yes here ↦
        subst (λ t. ((attached s l a (x ∷ xs)).nodes t).owner ≡ (s.nodes t).owner) (sym here)
          (ap (λ m. m.owner) (at_last x xs is))
    | no other ↦ ap (λ m. m.owner) (elsewhere (x ∷ xs) is b ne (test_ne b (last_from x xs) other))
  ]

  list_of :
      (xs : List ℕ) (is : IsList d s l xs)
      → (attached s l a xs).lists l
        ≡ record (s.lists l) { head = first_or (xs ++ a ∷ []) none; tail = some a }
  list_of [] is = write_self s.lists l _
  list_of (x ∷ xs) is =
      write_self s.lists l _ ∙ ap (λ p. record (s.lists l) { head = p; tail = some a }) is.head

  other_list :
      (xs : List ℕ) (is : IsList d s l xs) (k : ℕ) → k ≢ l → (attached s l a xs).lists k ≡ s.lists k
  other_list [] is k ne = write-other s.lists l _ k ne
  other_list (x ∷ xs) is k ne = write-other s.lists l _ k ne

  module _ (xs : List ℕ) (is : IsList d s l xs) where
    abbrev s2 : Store
    s2 = attached s l a xs

    abbrev s3 : Store
    s3 = count_in s2 l (s2.nodes a).data_size

    not_in : has a xs ≡ false
    not_in = elim (Bool-cases (has a xs)) [ inl e ↦ absurd (apart is a e refl) | inr e ↦ e ]

    linked' : Linked s2.nodes l (xs ++ a ∷ []) none
    linked' =
        let here = at_node xs is in
        Linked-append s2.nodes l xs (a ∷ []) none
          (Linked-change s.nodes s2.nodes l xs none (some a) is.unique
            (λ b e. ap (λ m. m.owner) (member xs is b e))
            (λ b e. ap (λ m. m.next) (member xs is b e))
            (λ b e _. ap (λ m. m.prev) (member xs is b e)) is.linked)
          (Joined-last a s2.nodes xs (ap (λ m. m.prev) here ∙ is.tail))
          (ap (λ m. m.owner) here, ap (λ m. m.next) here, tt, tt)

    total' : sum_sizes s2.nodes (xs ++ a ∷ []) ≡ sum_sizes s.nodes xs + (s2.nodes a).data_size
    unfolding sum_sizes
    total' = omega (
      arith,
      sum_sizes-append s2.nodes xs (a ∷ []),
      sum_sizes-congr s.nodes s2.nodes xs (λ b e. ap (λ m. m.data_size) (member xs is b e)),
    )

    counted : s3.lists l ≡ record (s2.lists l) {
      size = add_size (s2.lists l).size 1;
      total_data_size = add_size (s2.lists l).total_data_size (s2.nodes a).data_size;
    }
    unfolding count_in
    counted = write_self s2.lists l _

    owned' : (b : ℕ) → (s2.nodes b).owner ≡ some l → has b (xs ++ a ∷ []) ≡ true
    owned' b o = has-append b xs (a ∷ []) ∙ elim (ℕ_discrete b a) [
      | yes here ↦ rw here (ground (arith, has_self a []))
      | no other ↦ rw (is.owned b (sym (owner-kept xs is b other) ∙ o)) refl
    ]

    pushed : IsList d s3 l (xs ++ a ∷ [])
    unfolding count_in
    pushed =
        let here = list_of xs is in
        record {
          head = ap (λ d. d.head) counted ∙ ap (λ d. d.head) here;
          tail = ap (λ d. d.tail) counted ∙ ap (λ d. d.tail) here ∙ sym (last_of-snoc xs a);
          linked = linked';
          unique = distinct-snoc xs a is.unique not_in;
          owned = owned';
          size = omega (
            arith,
            ap (λ d. d.size) counted,
            ap (λ d. d.size) here,
            is.size,
            length-append xs (a ∷ []),
          );
          total = omega (
            arith,
            ap (λ d. d.total_data_size) counted,
            ap (λ d. d.total_data_size) here,
            is.total,
            total',
          );
        }

    -- another list is not touched
    untouched : {d' : ℕ} (k : ℕ) (ys : List ℕ) → k ≢ l → IsList d' s k ys → IsList d' s3 k ys
    unfolding count_in
    untouched {d'} k ys ne other =
        IsList-frame s3 other (write-other s2.lists l _ k ne ∙ other_list xs is k ne)
          (λ b e.
            let o = owner_of s.nodes k ys none b other.linked e in
            elsewhere xs is b
              (λ here. absurd (ground (arith, o, ap (λ m. (s.nodes m).owner) here, free)))
              (not_last b xs (one_owner s xs b is ne o)))
          (λ b o. elim (ℕ_discrete b a) [
            | yes here ↦
                let o' = ap (λ m. m.owner) (at_node xs is) in
                absurd (ground (arith, o, ap (λ m. (s2.nodes m).owner) here, o', ne))
            | no elsewhere' ↦ sym (owner-kept xs is b elsewhere') ∙ o
          ])

-- In a store whose lists hold the given nodes, `fdlist_push` of a node that belongs to no list
-- is defined. Its list then holds the node behind those that it held, with head, tail, links and
-- size right and the bytes of the node counted in, and every other list holds what it held.
pub push_lem :
    {e : ℕ → ℕ} {s : Store} {f : ℕ → List ℕ} (l a : ℕ)
    → IsStore e s f
    → (s.nodes a).owner ≡ none
    → Ensures (λ s'. IsStore e s' (put f l (f l ++ a ∷ []))) (push s l a)
unfolding push
push_lem {e} {s} {f} l a is free = rw (link_last-attached a free (f l) (is l)) (
    IsStore-put e (s3 a free (f l) (is l)) f l (f l ++ a ∷ []) (pushed a free (f l) (is l))
      (λ k ne. untouched a free (f l) (is l) k (f k) ne (is k)))
