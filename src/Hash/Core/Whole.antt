-- ===== src/Hash/Core/Whole.antt =====
-- fhash/fhash_core.c: the nodes that a walk of a whole table has before it.
use final_libs.Prelude.{
  ℕ, zero, suc, ◌+◌, ◌≤◌, ◌<◌, ◌≡◌, ◌≢◌, refl, sym, ap, ◌∙◌, none, some, List, [], ◌∷◌, ◌++◌, arith,
  ◌>>=◌, get_elem?, All, All-append,
}
use final_libs.Hash.Node.{Bytes, Node}
use final_libs.Hash.Node.Layout.{Sound}
use final_libs.Hash.Opt.{Opt}
use final_libs.Hash.Mgr.{Mgr}
use final_libs.Hash.Mgr.Lookup.{valid_count, valid_count-le, lookup, count, count-eq_zero}
use final_libs.Hash.Mgr.Inv.{IsBucket}
use final_libs.Hash.Table.{Table, calculate_idx}
use final_libs.Hash.Table.View.{IsTable, view, sum_used}
use final_libs.Hash.Core.{rounds}
use final_libs.Hash.Core.Walk.{nodes_from}
use final_libs.Hash.Core.Taken.{or_else, Pending}

module _ (opt : Opt) where
  append_lem :
      (q : Bytes) (xs ys : List Node)
      → (lookup opt q (xs ++ ys) ≡ or_else (lookup opt q xs) (lookup opt q ys))
        × (count opt q (xs ++ ys) ≡ count opt q xs + count opt q ys)
  unfolding lookup count
  append_lem q [] ys = (refl, omega arith)
  append_lem q (n ∷ xs) ys = ground (arith, append_lem q xs ys)

  -- `q` is at most in the bucket `home`.
  abbrev Placed : Bytes → ℕ → List Mgr → Type 0
  Placed q home ms =
      (i : ℕ) (m : Mgr) → get_elem? ms i ≡ some m → home ≢ i → lookup opt q m.nodes ≡ none

  nowhere :
      (q : Bytes) (ms : List Mgr)
      → ((i : ℕ) (m : Mgr) → get_elem? ms i ≡ some m → lookup opt q m.nodes ≡ none)
      → lookup opt q (nodes_from ms 0 0) ≡ none
  unfolding nodes_from lookup
  nowhere q [] none_at = refl
  nowhere q (m ∷ ms) none_at =
      (append_lem q m.nodes (nodes_from ms 0 0)).0
      ∙ ap (λ o. or_else o (lookup opt q (nodes_from ms 0 0))) (none_at 0 m refl)
      ∙ nowhere q ms (λ i. none_at (suc i))

  at_home :
      (q : Bytes) (home : ℕ) (ms : List Mgr)
      → All (IsBucket opt) ms
      → Placed q home ms
      → (lookup opt q (nodes_from ms 0 0) ≡ (get_elem? ms home >>= λ m. lookup opt q m.nodes))
        × (count opt q (nodes_from ms 0 0) ≤ 1)
  unfolding nodes_from lookup count
  at_home q home [] b placed = (refl, omega arith)
  at_home q zero (m ∷ ms) b placed =
      let (reads, counts) = append_lem q m.nodes (nodes_from ms 0 0) in
      let rest = nowhere q ms (λ i x at_i. placed (suc i) x at_i (omega arith)) in
      let none_left = count-eq_zero opt q (nodes_from ms 0 0) rest in
      (ground (arith, reads, rest), omega (arith, counts, none_left, b.0.distinct q))
  at_home q (suc home) (m ∷ ms) b placed =
      let (reads, counts) = append_lem q m.nodes (nodes_from ms 0 0) in
      let here = placed 0 m refl (omega arith) in
      let (later, few) =
        at_home q home ms b.1 (λ i x at_i ne. placed (suc i) x at_i (omega arith)) in
      (
        reads ∙ ap (λ o. or_else o (lookup opt q (nodes_from ms 0 0))) here ∙ later,
        omega (arith, counts, count-eq_zero opt q m.nodes here, few),
      )

  All-Sound : (ms : List Mgr) → All (IsBucket opt) ms → All Sound (nodes_from ms 0 0)
  unfolding nodes_from
  All-Sound [] b = tt
  All-Sound (m ∷ ms) b = All-append Sound m.nodes (nodes_from ms 0 0) b.0.sound (All-Sound ms b.1)

  valid_count-append :
      (xs ys : List Node) → valid_count (xs ++ ys) ≡ valid_count xs + valid_count ys
  unfolding valid_count
  valid_count-append [] ys = omega arith
  valid_count-append (n ∷ xs) ys = omega (arith, valid_count-append xs ys)

  valid_count-nodes_from :
      (ms : List Mgr) → All (IsBucket opt) ms → valid_count (nodes_from ms 0 0) ≡ sum_used ms
  unfolding nodes_from sum_used valid_count
  valid_count-nodes_from [] b = refl
  valid_count-nodes_from (m ∷ ms) b = omega (
    arith,
    valid_count-append m.nodes (nodes_from ms 0 0),
    b.0.counted,
    valid_count-nodes_from ms b.1,
  )

  sum_used-rounds : (ms : List Mgr) → All (IsBucket opt) ms → sum_used ms < rounds ms
  unfolding sum_used rounds
  sum_used-rounds [] b = omega arith
  sum_used-rounds (m ∷ ms) b =
      omega (arith, b.0.counted, valid_count-le m.nodes, sum_used-rounds ms b.1)

  -- In a well-formed table the nodes that a walk from the start has before it have no key
  -- twice, read as the table does at every key, are as many as `slots_used` says, and are
  -- fewer than the rounds that a rehash is given.
  pub whole_lem :
      (t : Table)
      → IsTable opt t
      → Pending opt (nodes_from t.mgrs 0 0)
        × ((q : Bytes) → lookup opt q (nodes_from t.mgrs 0 0) ≡ view opt t q)
        × (valid_count (nodes_from t.mgrs 0 0) ≡ t.slots_used)
        × (t.slots_used < rounds t.mgrs)
  unfolding view
  whole_lem t is =
      let home : (q : Bytes) → Placed q (calculate_idx opt t q) t.mgrs =
        λ q i m at_i. is.placed q i m at_i in
      (
        record {
          sound = All-Sound t.mgrs is.buckets;
          distinct = λ q. (at_home q (calculate_idx opt t q) t.mgrs is.buckets (home q)).1;
        },
        λ q. (at_home q (calculate_idx opt t q) t.mgrs is.buckets (home q)).0,
        valid_count-nodes_from t.mgrs is.buckets ∙ sym is.counted,
        omega (arith, is.counted, sum_used-rounds t.mgrs is.buckets),
      )
