-- ===== src/Dlist/Inv.antt =====
-- flist/fdlist.c: the invariant of a store of lists, and what keeps it for a list that is not touched.
use final_libs.Prelude.{
  ℕ, ◌+◌, ◌%◌, ◌^◌, ◌≡◌, ◌≢◌, refl, sym, ap, ap₂, subst, ◌∙◌, Bool, true, false, ◌||◌, none, some,
  List, [], ◌∷◌, ◌++◌, arith, ◌==◌, if◌then◌else◌, length, inl, inr, Bool-cases, test_eq, test_ne,
}
use native.Mathlib.Decide.{ℕ_discrete}
use final_libs.Dlist.Cells.{DNode, Store, Ptr, same_ptr}
use final_libs.Dlist.Chain.{
  first_or, last_from, last_of, has, distinct, Backed, Linked, sum_sizes, owner_of, has_self,
  has-later, has-last,
}
use final_libs.Dlist.{is_empty}

-- The list `l` of the store holds the nodes `xs`, from head to tail. Its counter of bytes is `d` above
-- what the nodes say, as numbers of 64 bits.
pub record IsList (d : ℕ) (s : Store) (l : ℕ) (xs : List ℕ) : Type 0 where
  pub head : (s.lists l).head ≡ first_or xs none
  pub tail : (s.lists l).tail ≡ last_of xs
  pub linked : Linked s.nodes l xs none
  pub unique : distinct xs ≡ true
  pub owned : (a : ℕ) → (s.nodes a).owner ≡ some l → has a xs ≡ true
  pub size : (s.lists l).size ≡ length xs % 2 ^ 64
  pub total : (s.lists l).total_data_size ≡ (sum_sizes s.nodes xs + d) % 2 ^ 64

-- Every list of the store holds the nodes that `f` gives it, with what `e` gives it to count beyond.
abbrev pub IsStore : (ℕ → ℕ) → Store → (ℕ → List ℕ) → Type 0
IsStore e s f = (l : ℕ) → IsList (e l) s l (f l)

-- the lists with `xs` for the list `l`
abbrev pub put : (ℕ → List ℕ) → ℕ → List ℕ → ℕ → List ℕ
put f l xs k = if l == k then xs else f k

Linked-congr :
    (h h' : ℕ → DNode) (l : ℕ) (xs : List ℕ) (q : Ptr)
    → ((b : ℕ) → has b xs ≡ true → h' b ≡ h b)
    → Linked h l xs q
    → Linked h' l xs q
Linked-congr h h' l [] q same k = tt
Linked-congr h h' l (a ∷ xs) q same (o, n, b, k) =
    let here = same a (has_self a xs) in
    (
      ap (λ m. m.owner) here ∙ o,
      ap (λ m. m.next) here ∙ n,
      back xs (λ y e. same y (has-later y a xs e)) b,
      Linked-congr h h' l xs q (λ y e. same y (has-later y a xs e)) k,
    )
  where
    back : (ys : List ℕ) → ((b : ℕ) → has b ys ≡ true → h' b ≡ h b) → Backed h a ys → Backed h' a ys
    back [] same b = tt
    back (y ∷ ys) same b = ap (λ m. m.prev) (same y (has_self y ys)) ∙ b

pub sum_sizes-congr :
    (h h' : ℕ → DNode) (xs : List ℕ)
    → ((b : ℕ) → has b xs ≡ true → (h' b).data_size ≡ (h b).data_size)
    → sum_sizes h' xs ≡ sum_sizes h xs
unfolding sum_sizes
sum_sizes-congr h h' [] same = refl
sum_sizes-congr h h' (a ∷ xs) same =
    ap₂ (λ m n. m + n) (same a (has_self a xs))
      (sum_sizes-congr h h' xs (λ y e. same y (has-later y a xs e)))

pub sum_sizes-append :
    (h : ℕ → DNode) (xs ys : List ℕ) → sum_sizes h (xs ++ ys) ≡ sum_sizes h xs + sum_sizes h ys
unfolding sum_sizes
sum_sizes-append h [] ys = omega arith
sum_sizes-append h (a ∷ xs) ys = omega (arith, sum_sizes-append h xs ys)

pub has-append : (a : ℕ) (xs ys : List ℕ) → has a (xs ++ ys) ≡ (has a xs || has a ys)
unfolding has
has-append a [] ys = refl
has-append a (x ∷ xs) ys = ground (arith, has-append a xs ys)

-- A list whose nodes and ends are not written, and that gets no new node, stays as it is.
pub IsList-frame :
    {d : ℕ} {s : Store} {k : ℕ} {ys : List ℕ} (s' : Store)
    → IsList d s k ys
    → s'.lists k ≡ s.lists k
    → ((b : ℕ) → has b ys ≡ true → s'.nodes b ≡ s.nodes b)
    → ((b : ℕ) → (s'.nodes b).owner ≡ some k → (s.nodes b).owner ≡ some k)
    → IsList d s' k ys
IsList-frame {d} {s} {k} {ys} s' is same_list same_nodes no_new = record {
  head = ap (λ d. d.head) same_list ∙ is.head;
  tail = ap (λ d. d.tail) same_list ∙ is.tail;
  linked = Linked-congr s.nodes s'.nodes k ys none same_nodes is.linked;
  unique = is.unique;
  owned = λ a o. is.owned a (no_new a o);
  size = ap (λ d. d.size) same_list ∙ is.size;
  total =
      ap (λ d. d.total_data_size) same_list
      ∙ is.total
      ∙ ap (λ n. (n + d) % 2 ^ 64)
          (sym
            (sum_sizes-congr s.nodes s'.nodes ys (λ b e. ap (λ m. m.data_size) (same_nodes b e))));
}

abbrev pub no_nodes : List ℕ → Bool
no_nodes [] = true
no_nodes (_ ∷ _) = false

-- `fdlist_empty` answers whether the list has no node.
pub is_empty_lem :
    {d : ℕ} {s : Store} {l : ℕ} (xs : List ℕ) → IsList d s l xs → is_empty (s.lists l) ≡ no_nodes xs
unfolding is_empty
is_empty_lem [] is = rw (is.tail, is.head, is.size) refl
is_empty_lem (x ∷ xs) is = rw is.tail refl

-- one list of a store changed
pub IsStore-put :
    (e : ℕ → ℕ) (s' : Store) (f : ℕ → List ℕ) (l : ℕ) (xs : List ℕ)
    → IsList (e l) s' l xs
    → ((k : ℕ) → k ≢ l → IsList (e k) s' k (f k))
    → IsStore e s' (put f l xs)
IsStore-put e s' f l xs here others k = elim (ℕ_discrete l k) [
  | yes here_k ↦ rw (test_eq l k here_k) (subst (λ j. IsList (e j) s' j xs) here_k here)
  | no ne ↦ rw (test_ne l k ne) (others k (λ same. ne (sym same)))
]

-- a node that is not in a list is not its last one
pub not_last : (b : ℕ) (xs : List ℕ) → has b xs ≡ false → same_ptr (some b) (last_of xs) ≡ false
not_last b [] e = refl
not_last b (x ∷ xs) e =
    test_ne b (last_from x xs)
      (λ same. absurd (ground (arith, ap (λ m. has m (x ∷ xs)) same, has-last x xs)))

-- no node belongs to two lists
pub one_owner :
    {d : ℕ} (s : Store) {l k : ℕ} (xs : List ℕ) (b : ℕ)
    → IsList d s l xs
    → k ≢ l
    → (s.nodes b).owner ≡ some k
    → has b xs ≡ false
one_owner {d} s {l} {k} xs b is ne o = elim (Bool-cases (has b xs)) [
  | inl e ↦
      let o' = owner_of s.nodes l xs none b is.linked e in
      let same : k ≡ l = cc (sym o ∙ o') in absurd (ne same)
  | inr e ↦ e
]

pub not_first :
    (b : ℕ) (xs : List ℕ) → has b xs ≡ false → same_ptr (some b) (first_or xs none) ≡ false
not_first b [] e = refl
not_first b (x ∷ xs) e =
    test_ne b x (λ same. absurd (ground (arith, ap (λ m. has m (x ∷ xs)) same, has_self x xs)))
