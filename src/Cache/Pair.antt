-- ===== src/Cache/Pair.antt =====
-- fcache/fcache.c: the active and the inactive list of a cache, and a node that goes from one to the
-- other.
use final_libs.Prelude.{
  ℕ, zero, suc, ◌≡◌, refl, ap, subst, ◌∙◌, true, none, some, List, [], ◌∷◌, ◌++◌, arith, ◌>>=◌,
  test_ne, take, drop, append-nil, append_assoc, Ensures, Ensures-bind, Ensures-mono,
}
use final_libs.Dlist.Cells.{Ptr}
use final_libs.Dlist.Chain.{has, has_self}
use final_libs.Dlist.Inv.{IsList, put}
use final_libs.CacheList.{Heap, push, pop_node, node_size}
use final_libs.CacheList.Laws.{
  IsHeap, Kept, Kept-refl, Kept-trans, push_heap, pop_heap, Pushed-Kept,
}
use final_libs.Cache.{active, inactive, move_first}

-- the lists of a heap with the two lists of a cache
abbrev pub two : List ℕ → List ℕ → ℕ → List ℕ
two xs ys zero = xs
two xs ys (suc zero) = ys
two xs ys (suc (suc k)) = []

pub put-active : (xs ys zs : List ℕ) (k : ℕ) → put (two xs ys) active zs k ≡ two zs ys k
put-active xs ys zs zero = refl
put-active xs ys zs (suc zero) = refl
put-active xs ys zs (suc (suc k)) =
    rw (test_ne 0 (suc (suc k)) (λ e. absurd (omega (arith, e)))) refl

pub put-inactive : (xs ys zs : List ℕ) (k : ℕ) → put (two xs ys) inactive zs k ≡ two xs zs k
put-inactive xs ys zs zero = refl
put-inactive xs ys zs (suc zero) = refl
put-inactive xs ys zs (suc (suc k)) =
    rw (test_ne 1 (suc (suc k)) (λ e. absurd (omega (arith, e)))) refl

-- the same lists, written in another way
pub IsHeap-congr :
    {e : ℕ → ℕ} {h : Heap} (f f' : ℕ → List ℕ)
    → ((k : ℕ) → f k ≡ f' k)
    → IsHeap e h f
    → IsHeap e h f'
IsHeap-congr {e} {h} f f' same is = record {
  lists = λ k. subst (IsList (e k) h.store k) (same k) (is.lists k);
  alive = λ k a inside. is.alive k a (ap (has a) (same k) ∙ inside);
}

-- the heap with these lists, and all else as before
abbrev pub Becomes : (ℕ → ℕ) → Heap → List ℕ → List ℕ → Heap → Type 0
Becomes e h xs ys h' = IsHeap e h' (two xs ys) × Kept h h'

-- a node that was popped: it belongs to no list, and is not freed
abbrev pub Out : (ℕ → ℕ) → Heap → List ℕ → List ℕ → ℕ → Ptr × Heap → Type 0
Out e h xs ys a (r, h') =
    (r ≡ some a) × Becomes e h xs ys h' × ((h'.store.nodes a).owner ≡ none) × (h'.live a ≡ true)

abbrev pub Nothing : (ℕ → ℕ) → Heap → List ℕ → List ℕ → Ptr × Heap → Type 0
Nothing e h xs ys (r, h') = (r ≡ none) × Becomes e h xs ys h'

module _ {e : ℕ → ℕ} (h : Heap) where
  pub pop_active_nil :
      (ys : List ℕ) → IsHeap e h (two [] ys) → Ensures (Nothing e h [] ys) (pop_node h active)
  pop_active_nil ys is =
      Ensures-mono (Nothing e h [] ys) (pop_node h active) (pop_heap active is) (λ r popped.
        (popped.node, (IsHeap-congr _ (two [] ys) (put-active [] ys []) popped.heap, popped.kept)))

  pub pop_active_cons :
      (a : ℕ) (xs ys : List ℕ)
      → IsHeap e h (two (a ∷ xs) ys)
      → Ensures (Out e h xs ys a) (pop_node h active)
  pop_active_cons a xs ys is =
      Ensures-mono (Out e h xs ys a) (pop_node h active) (pop_heap active is) (λ r popped. (
        popped.node,
        (IsHeap-congr _ (two xs ys) (put-active (a ∷ xs) ys xs) popped.heap, popped.kept),
        popped.free a popped.node,
        ap (λ v. v a) popped.kept.live ∙ is.alive active a (has_self a xs),
      ))

  pub pop_inactive_nil :
      (xs : List ℕ) → IsHeap e h (two xs []) → Ensures (Nothing e h xs []) (pop_node h inactive)
  pop_inactive_nil xs is =
      Ensures-mono (Nothing e h xs []) (pop_node h inactive) (pop_heap inactive is) (λ r popped. (
        popped.node,
        (IsHeap-congr _ (two xs []) (put-inactive xs [] []) popped.heap, popped.kept),
      ))

  pub pop_inactive_cons :
      (a : ℕ) (xs ys : List ℕ)
      → IsHeap e h (two xs (a ∷ ys))
      → Ensures (Out e h xs ys a) (pop_node h inactive)
  pop_inactive_cons a xs ys is =
      Ensures-mono (Out e h xs ys a) (pop_node h inactive) (pop_heap inactive is) (λ r popped. (
        popped.node,
        (IsHeap-congr _ (two xs ys) (put-inactive xs (a ∷ ys) ys) popped.heap, popped.kept),
        popped.free a popped.node,
        ap (λ v. v a) popped.kept.live ∙ is.alive inactive a (has_self a ys),
      ))

  pub push-inactive :
      (a data_size : ℕ) (xs ys : List ℕ)
      → IsHeap e h (two xs ys)
      → h.live a ≡ true
      → (h.store.nodes a).owner ≡ none
      → (h.store.nodes a).data_size ≡ data_size
      → Ensures (λ r. Becomes e h xs (ys ++ a ∷ []) r.1) (push h inactive a data_size)
  push-inactive a data_size xs ys is living free same =
      Ensures-mono _ (push h inactive a data_size) (push_heap inactive a data_size is living free)
        (λ r pushed. (
          IsHeap-congr _ (two xs (ys ++ a ∷ [])) (put-inactive xs ys (ys ++ a ∷ [])) pushed.heap,
          Pushed-Kept pushed same,
        ))

-- The first `n` nodes of the active list go behind the inactive ones, in their order.
pub move_first_lem :
    {e : ℕ → ℕ} (n : ℕ) (h : Heap) (xs ys : List ℕ)
    → IsHeap e h (two xs ys)
    → Ensures (Becomes e h (drop n xs) (ys ++ take n xs)) (move_first n h)
unfolding move_first node_size
move_first_lem zero h xs ys is = (rw (append-nil ys) is, Kept-refl h)
move_first_lem {e} (suc n) h [] ys is =
    Ensures-bind {P = Nothing e h [] ys} (Becomes e h [] (ys ++ [])) (pop_node h active)
      (λ (r, h'). elim r [
        | none ↦ some h'
        | some a ↦ (do
          data_size ← node_size h' a
          (_, h'') ← push h' inactive a data_size
          move_first n h'')
      ])
      (pop_active_nil h ys is) (λ (r, h') (node, (is', kept)). rw (node, append-nil ys) (is', kept))
move_first_lem {e} (suc n) h (x ∷ xs) ys is =
    let goal = Becomes e h (drop n xs) (ys ++ x ∷ take n xs) in
    Ensures-bind {P = Out e h xs ys x} goal (pop_node h active)
      (λ (r, h'). elim r [
        | none ↦ some h'
        | some a ↦ (do
          data_size ← node_size h' a
          (_, h'') ← push h' inactive a data_size
          move_first n h'')
      ])
      (pop_active_cons h x xs ys is)
      (λ (r, h') (node, (is', kept), free, living).
        let size = (h'.store.nodes x).data_size in
        rw (node, living)
          (Ensures-bind {P = λ r. Becomes e h' xs (ys ++ x ∷ []) r.1} goal (push h' inactive x size)
            (λ (_, h''). move_first n h'') (push-inactive h' x size xs ys is' living free refl)
            (λ (_, h'') (is'', kept').
              Ensures-mono goal (move_first n h'') (move_first_lem n h'' xs (ys ++ x ∷ []) is'')
                (λ h3 (is3, kept3). (
                  subst (λ zs. IsHeap e h3 (two (drop n xs) zs))
                      (append_assoc ys (x ∷ []) (take n xs)) is3,
                  Kept-trans (Kept-trans kept kept') kept3,
                )))))
