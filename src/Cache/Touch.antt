-- ===== src/Cache/Touch.antt =====
-- fcache/fcache.c: a node of the cache moved behind the other nodes of one of its lists.
use final_libs.Prelude.{
  ℕ, zero, suc, ◌+◌, ◌<◌, ◌^◌, ◌%◌, ◌≡◌, refl, sym, ap, subst, Bool, true, false, ◌||◌, List, [],
  ◌∷◌, ◌++◌, arith, ◌==◌, test_eq, test_ne, ==_iff, length, take, drop, Ensures, Ensures-mono,
}
use native.Mathlib.Decide.{ℕ_discrete}
use final_libs.Dlist.Chain.{has}
use final_libs.Dlist.Inv.{has-append}
use final_libs.Dlist.Delete.{remove}
use final_libs.Dlist.Move.{moved, stays, carried}
use final_libs.CacheList.{Heap, move_node}
use final_libs.CacheList.Laws.{IsHeap, move_heap}
use final_libs.Cache.{active, inactive}
use final_libs.Cache.Pair.{two, IsHeap-congr, Becomes}

-- the node `a` behind the others of its list
abbrev pub to_back : ℕ → List ℕ → List ℕ
to_back a xs = remove a xs ++ a ∷ []

-- a list whose counter says 1
to_back_alone :
    (n a : ℕ) (xs : List ℕ)
    → n ≡ length xs % 2 ^ 64
    → (n == 1) ≡ true
    → length xs < 2 ^ 64
    → has a xs ≡ true
    → xs ≡ to_back a xs
unfolding has
to_back_alone n a [] size one small inside = absurd (ground arith)
to_back_alone n a (x ∷ []) size one small inside =
    let same : a ≡ x = ground arith in rw (test_eq a x same) (ap (λ c. c ∷ []) (sym same))
to_back_alone n a (x ∷ y ∷ xs) size one small inside =
    let one' : n ≡ 1 = (==_iff n 1).0 one in absurd (omega (arith, size, one', small))

carried_within :
    (a : ℕ) (xs ys : List ℕ) (k : ℕ)
    → carried (two xs ys) a active active k ≡ two (to_back a xs) ys k
carried_within a xs ys zero = refl
carried_within a xs ys (suc zero) = refl
carried_within a xs ys (suc (suc k)) =
    let far = test_ne 0 (suc (suc k)) (λ e. absurd (omega (arith, e))) in rw far refl

carried_over :
    (a : ℕ) (xs ys : List ℕ) (k : ℕ)
    → carried (two xs ys) a inactive active k ≡ two (xs ++ a ∷ []) (remove a ys) k
carried_over a xs ys zero = refl
carried_over a xs ys (suc zero) = refl
carried_over a xs ys (suc (suc k)) =
    let far = test_ne 0 (suc (suc k)) (λ e. absurd (omega (arith, e))) in
    let far' = test_ne 1 (suc (suc k)) (λ e. absurd (omega (arith, e))) in rw (far, far') refl

module _ {e : ℕ → ℕ} {h : Heap} (a : ℕ) (xs ys : List ℕ) (is : IsHeap e h (two xs ys)) where
  -- an active node stays in the active list
  within :
      (b : Bool) (h' : Heap)
      → stays h.store active active ≡ b
      → length xs < 2 ^ 64
      → has a xs ≡ true
      → IsHeap e h' (moved b (two xs ys) a active active)
      → IsHeap e h' (two (to_back a xs) ys)
  within true h' alone small inside is' =
      subst (λ zs. IsHeap e h' (two zs ys))
        (to_back_alone (h.store.lists active).size a xs (is.lists active).size alone small inside)
        is'
  within false h' others small inside is' = IsHeap-congr _ _ (carried_within a xs ys) is'

  -- an active node that is used again
  pub touch_active :
      length xs < 2 ^ 64
      → has a xs ≡ true
      → Ensures (λ r. Becomes e h (to_back a xs) ys r.1) (move_node h a active)
  touch_active small inside =
      Ensures-mono (λ r. Becomes e h (to_back a xs) ys r.1) (move_node h a active)
        (move_heap a active active is inside)
        (λ r done.
          (within (stays h.store active active) r.1 refl small inside done.heap, done.kept))

  -- an inactive node that is used again
  pub touch_inactive :
      has a ys ≡ true
      → Ensures (λ r. Becomes e h (xs ++ a ∷ []) (remove a ys) r.1) (move_node h a active)
  touch_inactive inside =
      Ensures-mono (λ r. Becomes e h (xs ++ a ∷ []) (remove a ys) r.1) (move_node h a active)
        (move_heap a inactive active is inside)
        (λ r done. (IsHeap-congr _ _ (carried_over a xs ys) done.heap, done.kept))

-- What the moves do not change: which nodes there are, and how many.
pub has-to_back : (b a : ℕ) (xs : List ℕ) → has a xs ≡ true → has b (to_back a xs) ≡ has b xs
unfolding has
has-to_back b a [] inside = absurd (ground arith)
has-to_back b a (x ∷ xs) inside = elim (ℕ_discrete a x) [
  | yes same ↦
      rw (test_eq a x same) (ground (arith, has-append b xs (a ∷ []), ap (λ c. b == c) same))
  | no other ↦ rw (test_ne a x other) (ground (arith, has-to_back b a xs, test_ne a x other))
]

pub has-over :
    (b a : ℕ) (xs ys : List ℕ)
    → has a ys ≡ true
    → (has b (xs ++ a ∷ []) || has b (remove a ys)) ≡ (has b xs || has b ys)
has-over b a xs ys inside = ground (
  arith,
  has-to_back b a ys inside,
  has-append b xs (a ∷ []),
  has-append b (remove a ys) (a ∷ []),
)

pub has-shift :
    (b n : ℕ) (xs ys : List ℕ)
    → (has b (drop n xs) || has b (ys ++ take n xs)) ≡ (has b xs || has b ys)
unfolding has
has-shift b n xs ys = ground (arith, has-append b ys (take n xs), cut n xs)
  where
    cut : (n : ℕ) (xs : List ℕ) → has b xs ≡ (has b (take n xs) || has b (drop n xs))
    cut zero xs = refl
    cut (suc n) [] = refl
    cut (suc n) (x ∷ xs) = ground (arith, cut n xs)

pub length-remove : (a : ℕ) (xs : List ℕ) → has a xs ≡ true → length (remove a xs) + 1 ≡ length xs
unfolding has
length-remove a [] inside = absurd (ground arith)
length-remove a (x ∷ xs) inside = elim (ℕ_discrete a x) [
  | yes same ↦ rw (test_eq a x same) (omega arith)
  | no other ↦
      let far = test_ne a x other in
      let deeper = length-remove a xs (ground arith) in rw far (omega (arith, deeper))
]
