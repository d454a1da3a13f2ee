-- ===== src/Timer/Walk.antt =====
-- flist/fdlist.c: `fdlist_foreach` over the nodes of a list.
use final_libs.Prelude.{
  ℕ, zero, suc, ◌≤◌, ◌^◌, ◌<◌, ◌≡◌, refl, ap, ◌∙◌, Option, ◌>>=◌, none, some, List, [], ◌∷◌, arith,
  length,
}
use final_libs.Dlist.Cells.{Store}
use final_libs.Dlist.Chain.{first_or, Linked}
use final_libs.Dlist.Inv.{IsList}
use final_libs.Timer.{foreach}

module _ {ℓ} {A : Type ℓ} (visit : ℕ → A → Option A) where
  -- one node after the other
  abbrev pub fold : List ℕ → A → Option A
  fold [] top = some top
  fold (a ∷ xs) top = visit a top >>= fold xs

  foreach-Linked :
      (s : Store) (l fuel : ℕ) (xs : List ℕ) (top : A)
      → Linked s.nodes l xs none
      → length xs ≤ fuel
      → foreach fuel s visit (first_or xs none) top ≡ fold xs top
  unfolding foreach
  foreach-Linked s l zero [] top k enough = refl
  foreach-Linked s l (suc fuel) [] top k enough = refl
  foreach-Linked s l zero (a ∷ xs) top k enough = absurd (omega (arith, enough))
  foreach-Linked s l (suc fuel) (a ∷ xs) top (o, n, b, k) enough = rw n (
      ap (λ (g : A → Option A). visit a top >>= g)
        (λ i top'. foreach-Linked s l fuel xs top' k (omega (arith, enough)) i))

  -- The walk ends within the size of the list, and visits its nodes in their order.
  pub foreach_lem :
      {d : ℕ} {s : Store} {l : ℕ} (xs : List ℕ) (top : A)
      → IsList d s l xs
      → length xs < 2 ^ 64
      → foreach (s.lists l).size s visit (s.lists l).head top ≡ fold xs top
  foreach_lem {d} {s} {l} xs top is small =
      let size = is.size in
      ap (λ p. foreach (s.lists l).size s visit p top) is.head
      ∙ foreach-Linked s l (s.lists l).size xs top is.linked (omega (arith, size, small))
