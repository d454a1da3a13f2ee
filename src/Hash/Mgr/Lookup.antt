-- ===== src/Hash/Mgr/Lookup.antt =====
-- fhash/fhash_core.c: what a list of nodes means, and how a write to one node changes it.
use final_libs.Prelude.{
  ℕ, zero, suc, ◌+◌, ◌≤◌, ◌≡◌, refl, Bool, true, false, ◌&&◌, Option, none, some, List, [], ◌∷◌,
  ◌++◌, arith, if◌then◌else◌, inl, inr, Bool-cases, Option-cases, length, get_elem?, set, replicate,
}
use final_libs.Hash.Node.{Bytes, Node, node_init, node_key, node_value}
use final_libs.Hash.Opt.{Opt, same}
use final_libs.Hash.Mgr.{find}

abbrev pub to_nat : Bool → ℕ
to_nat true = 1
to_nat false = 0

-- the number of valid nodes
unfoldable pub valid_count : List Node → ℕ
valid_count [] = 0
valid_count (n ∷ ns) = to_nat n.valid + valid_count ns

module _ (opt : Opt) where
  abbrev pub hit : Bytes → Node → Bool
  hit q n = n.valid && same opt (node_key n) q

  -- the value of the first valid node with the key
  unfoldable pub lookup : Bytes → List Node → Option Bytes
  lookup q [] = none
  lookup q (n ∷ ns) = if hit q n then some (node_value n) else lookup q ns

  -- the number of valid nodes with the key
  unfoldable pub count : Bytes → List Node → ℕ
  count q [] = 0
  count q (n ∷ ns) = to_nat (hit q n) + count q ns

  pub lookup-eq_none : (q : Bytes) (ns : List Node) → count q ns ≡ 0 → lookup q ns ≡ none
  unfolding lookup count
  lookup-eq_none q [] h = refl
  lookup-eq_none q (n ∷ ns) h = ground (arith, lookup-eq_none q ns)

  pub count-eq_zero : (q : Bytes) (ns : List Node) → lookup q ns ≡ none → count q ns ≡ 0
  unfolding lookup count
  count-eq_zero q [] h = refl
  count-eq_zero q (n ∷ ns) h = ground (arith, count-eq_zero q ns)

  -- The search finds the node that the lookup reads.
  pub find-lookup :
      (q : Bytes) (ns : List Node) {i : ℕ}
      → find opt true q ns ≡ some i
      → (n : Node) × (get_elem? ns i ≡ some n)
        × (hit q n ≡ true)
        × (lookup q ns ≡ some (node_value n))
  unfolding find lookup
  find-lookup q [] h = absurd (ground arith)
  find-lookup q (n ∷ ns) {i} h = elim (Bool-cases (hit q n)) [
    | inl e ↦ (n, ground arith, e, rw e)
    | inr e ↦ elim (Option-cases (find opt true q ns)) [
      | inl unfound ↦ absurd (ground arith)
      | inr (j, found) ↦
          let (m, at_j, hits, value) = find-lookup q ns found in
          (m, ground arith, hits, ground arith)
    ]
  ]

  pub find-none : (q : Bytes) (ns : List Node) → find opt true q ns ≡ none → lookup q ns ≡ none
  unfolding find lookup
  find-none q [] h = refl
  find-none q (n ∷ ns) h = ground (arith, find-none q ns)

  pub count-set :
      (q : Bytes) (ns : List Node) (i : ℕ) (n n' : Node)
      → get_elem? ns i ≡ some n
      → count q (set ns i n') + to_nat (hit q n) ≡ count q ns + to_nat (hit q n')
  unfolding count
  count-set q [] i n n' h = ground arith
  count-set q (m ∷ ns) zero n n' h = ground arith
  count-set q (m ∷ ns) (suc i) n n' h = ground (arith, count-set q ns i n n')

  count-get_elem? :
      (q : Bytes) (ns : List Node) (i : ℕ) (n : Node)
      → get_elem? ns i ≡ some n
      → to_nat (hit q n) ≤ count q ns
  unfolding count
  count-get_elem? q [] i n h = absurd (ground arith)
  count-get_elem? q (m ∷ ns) zero n h = ground arith
  count-get_elem? q (m ∷ ns) (suc i) n h = ground (arith, count-get_elem? q ns i n)

  -- A write to one node, when the key is in one node at most before and after.
  pub lookup-set :
      (q : Bytes) (ns : List Node) (i : ℕ) (n n' : Node)
      → get_elem? ns i ≡ some n
      → count q ns ≤ 1
      → count q (set ns i n') ≤ 1
      → lookup q (set ns i n')
        ≡ (if hit q n' then some (node_value n') else if hit q n then none else lookup q ns)
  unfolding lookup count
  lookup-set q [] i n n' h a b = ground arith
  lookup-set q (m ∷ ns) zero n n' h a b = ground (arith, lookup-eq_none q ns)
  lookup-set q (m ∷ ns) (suc i) n n' h a b =
      ground (arith, lookup-set q ns i n n', count-set q ns i n n', count-get_elem? q ns i n)

  -- New nodes are not valid, and change nothing.
  pub fresh_nodes :
      (q : Bytes) (ns : List Node) (k : ℕ)
      → let ns' = ns ++ replicate k node_init in
        (lookup q ns' ≡ lookup q ns)
        × (count q ns' ≡ count q ns)
        × (valid_count ns' ≡ valid_count ns)
  unfolding lookup count valid_count
  fresh_nodes q [] zero = (refl, refl, refl)
  fresh_nodes q [] (suc k) = ground (arith, fresh_nodes q [] k)
  fresh_nodes q (n ∷ ns) k = ground (arith, fresh_nodes q ns k)

pub valid_count-set :
    (ns : List Node) (i : ℕ) (n n' : Node)
    → get_elem? ns i ≡ some n
    → valid_count (set ns i n') + to_nat n.valid ≡ valid_count ns + to_nat n'.valid
unfolding valid_count
valid_count-set [] i n n' h = ground arith
valid_count-set (m ∷ ns) zero n n' h = ground arith
valid_count-set (m ∷ ns) (suc i) n n' h = ground (arith, valid_count-set ns i n n')

pub valid_count-le : (ns : List Node) → valid_count ns ≤ length ns
unfolding valid_count
valid_count-le [] = omega arith
valid_count-le (n ∷ ns) = ground (arith, valid_count-le ns)
