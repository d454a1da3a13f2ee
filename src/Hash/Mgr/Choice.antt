-- ===== src/Hash/Mgr/Choice.antt =====
-- fhash/fhash_core.c: which node an addition fills.
use final_libs.Prelude.{
  ℕ, suc, ◌+◌, ◌-◌, ◌≤◌, ◌<◌, ◌≡◌, refl, sym, ap, subst, ◌⊎◌, ◌∙◌, Bool, false, not, ◌||◌, Option,
  none, some, List, [], ◌∷◌, arith, length, get_elem?, lt_of_get_elem?, inl, inr, Bool-cases, ltb,
  Ensures,
}
use native.Mathlib.Decide.{dec_lt}
use final_libs.Hash.Node.{Node, data_sz}
use final_libs.Hash.Mgr.{first, better, best_from, applicable_node}
use final_libs.Hash.Mgr.Lookup.{valid_count}

-- the node of that index is not in use
abbrev pub FreeAt : List Node → ℕ → Type 0
FreeAt ns i = (n : Node) × (get_elem? ns i ≡ some n) × (n.valid ≡ false)

pub first-FreeAt :
    (ns : List Node)
    → valid_count ns < length ns
    → (i : ℕ) × (first false ns ≡ some i) × FreeAt ns i
unfolding first valid_count
first-FreeAt [] h = absurd (omega arith)
first-FreeAt (n ∷ ns) h = elim (Bool-cases n.valid) [
  | inl e ↦
      let (i, found, (m, at_i, free)) = first-FreeAt ns (ground arith) in
      (suc i, rw (e, found), (m, at_i, free))
  | inr e ↦ (0, rw e, (n, refl, e))
]

real_of : Node → ℕ
real_of n = n.real_sz

valid_of : Node → Bool
valid_of n = n.valid

-- The best node wastes no more than `n` would.
abbrev Beats : ℕ → Option (ℕ × ℕ) → Node → Type 0
Beats new_sz none n = ⊥
Beats new_sz (some (i, waste)) n = new_sz + waste ≤ n.real_sz

module _ (new_sz : ℕ) (all : List Node) where
  -- what the loop knows of its best node so far: a free node with room
  abbrev Good : Option (ℕ × ℕ) → Type 0
  Good none = Unit {0}
  Good (some (i, waste)) =
      (n : Node) × (get_elem? all i ≡ some n) × (n.valid ≡ false) × (new_sz + waste ≡ n.real_sz)

  -- and no node before `i` with the same merits is better
  abbrev BestBefore : ℕ → Option (ℕ × ℕ) → Type 0
  BestBefore i best =
      (j : ℕ) (n : Node)
      → j < i
      → get_elem? all j ≡ some n
      → n.valid ≡ false
      → new_sz ≤ n.real_sz
      → Beats new_sz best n

  module _ (i : ℕ) (n : Node) where
    -- A round keeps the best node, which is then no worse than `n`, or takes `n`.
    Round : Option (ℕ × ℕ) → Option (ℕ × ℕ) → Type 0
    Round best best' =
        ((best' ≡ best) × (n.valid ≡ false → new_sz ≤ n.real_sz → Beats new_sz best n))
        ⊎ (best' ≡ some (i, n.real_sz - new_sz))
          × (n.valid ≡ false)
          × (new_sz ≤ n.real_sz)
          × ((m : Node) → Beats new_sz best m → n.real_sz ≤ m.real_sz)

    better-Round : (best : Option (ℕ × ℕ)) → Round best (better false new_sz i n best)
    unfolding Round better
    better-Round none = elim (Bool-cases (not (not n.valid) || ltb n.real_sz new_sz)) [
      | inl skip ↦ rw skip (inl (refl, λ e k. ground arith))
      | inr fits ↦ rw fits (inr (refl, ground arith, ground arith, λ m h. absurd h))
    ]
    better-Round (some (j, lowest)) =
        elim (Bool-cases (not (not n.valid) || ltb n.real_sz new_sz)) [
          | inl skip ↦ rw skip (inl (refl, λ e k. absurd (ground arith)))
          | inr fits ↦ elim (Bool-cases (ltb (n.real_sz - new_sz) lowest)) [
            | inl e ↦ rw (fits, e) (inr (refl, ground arith, ground arith, λ m h. ground arith))
            | inr e ↦ rw (fits, e) (inl (refl, λ _ k. ground arith))
          ]
        ]

    module _ (at_i : get_elem? all i ≡ some n) (best : Option (ℕ × ℕ)) where
      Round-Good : (best' : Option (ℕ × ℕ)) → Round best best' → Good best → Good best'
      unfolding Round
      Round-Good best' (inl (e, _)) g = subst Good (sym e) g
      Round-Good best' (inr (e, free, fits, _)) g = subst Good (sym e) (n, at_i, free, omega arith)

      Round-BestBefore :
          (best' : Option (ℕ × ℕ)) → Round best best' → BestBefore i best → BestBefore (i + 1) best'
      unfolding Round real_of valid_of
      Round-BestBefore best' (inl (e, beats)) b j m h at_j free fits =
          subst (λ t. Beats new_sz t m) (sym e)
            (elim (dec_lt j i) [
              | yes before ↦ b j m before at_j free fits
              | no here ↦
                  let at : j ≡ i = omega arith in
                  let node : n ≡ m = cc in
                  subst (Beats new_sz best) node (
                    beats (ap valid_of node ∙ free)
                      (subst (λ t. new_sz ≤ t) (sym (ap real_of node)) fits))
            ])
      Round-BestBefore best' (inr (e, free', fits', better')) b j m h at_j free fits =
          subst (λ t. Beats new_sz t m) (sym e)
            (elim (dec_lt j i) [
              | yes before ↦ omega (arith, better' m (b j m before at_j free fits))
              | no here ↦
                  let at : j ≡ i = omega arith in
                  let node : n ≡ m = cc in omega (arith, ap real_of node)
            ])

  best_from-Good :
      (i : ℕ) (ns : List Node) (best : Option (ℕ × ℕ))
      → ((j : ℕ) → get_elem? all (i + j) ≡ get_elem? ns j)
      → Good best
      → BestBefore i best
      → let best' = best_from false new_sz i ns best in
        Good best' × BestBefore (i + length ns) best'
  unfolding best_from
  best_from-Good i [] best same g b = (g, λ j m h. b j m (omega arith))
  best_from-Good i (n ∷ ns) best same g b =
      let at_i : get_elem? all i ≡ some n =
        ap (get_elem? all) {x = i} {y = i + 0} (omega arith) ∙ same 0 in
      let best' = better false new_sz i n best in
      let round = better-Round i n best in
      let rest =
        best_from-Good (i + 1) ns best'
          (λ j. ap (get_elem? all) {x = i + 1 + j} {y = i + suc j} (omega arith) ∙ same (suc j))
          (Round-Good i n at_i best best' round g) (Round-BestBefore i n at_i best best' round b) in
      (rest.0, λ j m h. rest.1 j m (omega arith))

-- The node that `_hash_nodemgr_applicable_node` chooses: a free one, and if any free node has
-- room, one that has room and is the smallest of those.
abbrev pub BestFit : ℕ → List Node → ℕ → Type 0
BestFit new_sz ns i =
    (n : Node) × (get_elem? ns i ≡ some n)
    × (n.valid ≡ false)
    × ((j : ℕ) (m : Node)
        → get_elem? ns j ≡ some m
        → m.valid ≡ false
        → new_sz ≤ m.real_sz
        → (new_sz ≤ n.real_sz) × (n.real_sz ≤ m.real_sz))

-- In a bucket that has a free node, the search for the place of a new key and value succeeds. It
-- yields a free node. If some free node has room for the new data, the chosen one has room too
-- and no free node with room is smaller.
pub applicable_node-BestFit :
    (key_sz value_sz : ℕ) (ns : List Node)
    → valid_count ns < length ns
    → Ensures (BestFit (data_sz key_sz value_sz) ns) (applicable_node false key_sz value_sz ns)
unfolding applicable_node
applicable_node-BestFit key_sz value_sz ns h =
    let new_sz = data_sz key_sz value_sz in
    let (g, b) =
      best_from-Good new_sz ns 0 ns none (λ j. ap (get_elem? ns) {x = 0 + j} (omega arith)) tt
        (λ j m lt. absurd (omega arith)) in
    chosen (best_from false new_sz 0 ns none) g b
  where
    chosen :
        (best : Option (ℕ × ℕ))
        → Good (data_sz key_sz value_sz) ns best
        → BestBefore (data_sz key_sz value_sz) ns (0 + length ns) best
        → Ensures
            (BestFit (data_sz key_sz value_sz) ns)
            (elim best [ some (i, _) ↦ some i | none ↦ first false ns ])
    chosen none g b =
        let (i, found, (n, at_i, free)) = first-FreeAt ns h in
        rw found (
          n,
          at_i,
          free,
          λ j m at_j free' fits.
              absurd (b j m (omega (arith, lt_of_get_elem? ns j m at_j)) at_j free' fits),
        )
    chosen (some (i, waste)) (n, at_i, free, size_eq) b = (
      n,
      at_i,
      free,
      λ j m at_j free' fits. (
        omega arith,
        omega (arith, b j m (omega (arith, lt_of_get_elem? ns j m at_j)) at_j free' fits),
      ),
    )
