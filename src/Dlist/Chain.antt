-- ===== src/Dlist/Chain.antt =====
-- flist/fdlist.c: what it is for nodes to be linked into a list, and into the lists of a store.
use final_libs.Prelude.{
  ℕ, ◌+◌, ◌≡◌, ◌≢◌, refl, ap, ◌∙◌, Bool, true, false, not, ◌&&◌, ◌||◌, none, some, List, [], ◌∷◌,
  ◌++◌, arith, ◌==◌, if◌then◌else◌,
}
use native.Mathlib.Decide.{ℕ_discrete}
use final_libs.Dlist.Cells.{DNode, Ptr, same_ptr}

abbrev pub first_or : List ℕ → Ptr → Ptr
first_or [] q = q
first_or (a ∷ _) q = some a

abbrev pub last_from : ℕ → List ℕ → ℕ
last_from a [] = a
last_from a (b ∷ xs) = last_from b xs

abbrev pub last_of : List ℕ → Ptr
last_of [] = none
last_of (a ∷ xs) = some (last_from a xs)

unfoldable pub has : ℕ → List ℕ → Bool
has a [] = false
has a (b ∷ xs) = (a == b) || has a xs

unfoldable pub distinct : List ℕ → Bool
distinct [] = true
distinct (a ∷ xs) = not (has a xs) && distinct xs

-- the first of the nodes `xs`, if there is one, is linked back to `a`
abbrev pub Backed : (ℕ → DNode) → ℕ → List ℕ → Type 0
Backed h a [] = Unit {0}
Backed h a (b ∷ _) = (h b).prev ≡ some a

-- The nodes `xs` of the list `l` are linked one after the other, and to `q` behind. What the first
-- one is linked back to is left open: a deletion of the head leaves the old link there.
abbrev pub Linked : (ℕ → DNode) → ℕ → List ℕ → Ptr → Type 0
Linked h l [] q = Unit {0}
Linked h l (a ∷ xs) q =
    ((h a).owner ≡ some l) × ((h a).next ≡ first_or xs q) × Backed h a xs × Linked h l xs q

-- the back link between two parts of a list
abbrev pub Joined : (ℕ → DNode) → List ℕ → List ℕ → Type 0
Joined h [] ys = Unit {0}
Joined h (a ∷ xs) ys = Backed h (last_from a xs) ys

unfoldable pub sum_sizes : (ℕ → DNode) → List ℕ → ℕ
sum_sizes h [] = 0
sum_sizes h (a ∷ xs) = (h a).data_size + sum_sizes h xs

module _ (h : ℕ → DNode) (l : ℕ) where
  Backed-append :
      (a : ℕ) (xs ys : List ℕ) → Backed h a xs → Joined h (a ∷ xs) ys → Backed h a (xs ++ ys)
  Backed-append a [] ys b j = j
  Backed-append a (x ∷ xs) ys b j = b

  first_or-append : (xs ys : List ℕ) (q : Ptr) → first_or (xs ++ ys) q ≡ first_or xs (first_or ys q)
  first_or-append [] ys q = refl
  first_or-append (x ∷ xs) ys q = refl

  pub Linked-append :
      (xs ys : List ℕ) (q : Ptr)
      → Linked h l xs (first_or ys q)
      → Joined h xs ys
      → Linked h l ys q
      → Linked h l (xs ++ ys) q
  Linked-append [] ys q front j back = back
  Linked-append (a ∷ []) ys q (o, n, b, front) j back = (o, n, j, back)
  Linked-append (a ∷ x ∷ xs) ys q (o, n, b, front) j back =
      (o, n, b, Linked-append (x ∷ xs) ys q front j back)

  pub Linked-split :
      (xs ys : List ℕ) (q : Ptr)
      → Linked h l (xs ++ ys) q
      → Linked h l xs (first_or ys q) × Joined h xs ys × Linked h l ys q
  Linked-split [] ys q k = (tt, tt, k)
  Linked-split (a ∷ []) ys q (o, n, b, k) = ((o, n, tt, tt), b, k)
  Linked-split (a ∷ x ∷ xs) ys q (o, n, b, k) =
      let (front, j, back) = Linked-split (x ∷ xs) ys q k in ((o, n, b, front), j, back)

  pub owner_of :
      (xs : List ℕ) (q : Ptr) (a : ℕ) → Linked h l xs q → has a xs ≡ true → (h a).owner ≡ some l
  unfolding has
  owner_of [] q a k e = absurd (ground arith)
  owner_of (x ∷ xs) q a (o, n, b, k) e = elim (ℕ_discrete a x) [
    | yes here ↦ ap (λ m. (h m).owner) here ∙ o
    | no later ↦ owner_of xs q a k (ground arith)
  ]

pub has_self : (a : ℕ) (xs : List ℕ) → has a (a ∷ xs) ≡ true
unfolding has
has_self a xs = ground arith

pub has-later : (y a : ℕ) (xs : List ℕ) → has y xs ≡ true → has y (a ∷ xs) ≡ true
unfolding has
has-later y a xs e = ground arith

pub has-last : (a : ℕ) (xs : List ℕ) → has (last_from a xs) (a ∷ xs) ≡ true
has-last a [] = has_self a []
has-last a (x ∷ xs) = has-later (last_from x xs) a (x ∷ xs) (has-last x xs)

pub distinct-tail : (a : ℕ) (xs : List ℕ) → distinct (a ∷ xs) ≡ true → distinct xs ≡ true
unfolding distinct
distinct-tail a xs d = ground arith

-- the first of different nodes is none of the others
pub head_apart : (a y : ℕ) (xs : List ℕ) → distinct (a ∷ xs) ≡ true → has y xs ≡ true → y ≢ a
unfolding distinct
head_apart a y xs d e same = absurd (ground (arith, ap (λ z. has z xs) same))

-- A change that keeps the owners, the links back but for the first node, and the links on but for
-- the last, which then goes to `q'`.
pub Linked-change :
    (h h' : ℕ → DNode) (l : ℕ) (xs : List ℕ) (q q' : Ptr)
    → distinct xs ≡ true
    → ((b : ℕ) → has b xs ≡ true → (h' b).owner ≡ (h b).owner)
    → ((b : ℕ)
        → has b xs ≡ true
        → (h' b).next ≡ (if same_ptr (some b) (last_of xs) then q' else (h b).next))
    → ((b : ℕ)
        → has b xs ≡ true
        → same_ptr (some b) (first_or xs none) ≡ false
        → (h' b).prev ≡ (h b).prev)
    → Linked h l xs q
    → Linked h' l xs q'
Linked-change h h' l [] q q' d owners nexts prevs k = tt
Linked-change h h' l (a ∷ []) q q' d owners nexts prevs (o, n, b, k) =
    (owners a (has_self a []) ∙ o, nexts a (has_self a []) ∙ ground arith, tt, tt)
Linked-change h h' l (a ∷ x ∷ xs) q q' d owners nexts prevs (o, n, b, k) =
    let unlike : (y : ℕ) → has y (x ∷ xs) ≡ true → (y == a) ≡ false =
      λ y e. let ne = head_apart a y (x ∷ xs) d e in ground arith in
    let not_last : (a == last_from x xs) ≡ false =
      let ne = head_apart a (last_from x xs) (x ∷ xs) d (has-last x xs) in ground arith in
    (
      owners a (has_self a (x ∷ xs)) ∙ o,
      nexts a (has_self a (x ∷ xs)) ∙ rw not_last n,
      prevs x (has-later x a (x ∷ xs) (has_self x xs)) (unlike x (has_self x xs)) ∙ b,
      Linked-change h h' l (x ∷ xs) q q' (distinct-tail a (x ∷ xs) d)
          (λ y e. owners y (has-later y a (x ∷ xs) e)) (λ y e. nexts y (has-later y a (x ∷ xs) e))
          (λ y e _. prevs y (has-later y a (x ∷ xs) e) (unlike y e)) k,
    )
