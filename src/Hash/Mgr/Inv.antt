-- ===== src/Hash/Mgr/Inv.antt =====
-- fhash/fhash_core.c: the invariant of a bucket, and the two ways in which a write keeps it.
use final_libs.Prelude.{
  ℕ, ◌+◌, ◌-◌, ◌≤◌, ◌<◌, ◌≡◌, refl, sym, ◌∙◌, true, false, Option, none, some, List, [], ◌∷◌, arith,
  if◌then◌else◌, get_elem?, set, All, All-set, ◌⊎◌, inl, inr,
}
use final_libs.Hash.Node.{Bytes, Node, node_key, node_value, invalidate}
use final_libs.Hash.Node.Layout.{Sound}
use final_libs.Hash.Opt.{Opt, same, Lawful}
use final_libs.Hash.Mgr.{Mgr, mgr_init}
use final_libs.Hash.Mgr.Lookup.{
  to_nat, valid_count, valid_count-set, hit, lookup, count, count-eq_zero, count-set, lookup-set,
}

-- `used` counts the valid nodes, every node is sound, and no key is in two valid nodes.
pub record IsBucket (opt : Opt) (m : Mgr) : Type 0 where
  pub counted : m.used ≡ valid_count m.nodes
  pub sound : All Sound m.nodes
  pub distinct : (q : Bytes) → count opt q m.nodes ≤ 1

pub init-IsBucket : (opt : Opt) → IsBucket opt mgr_init
unfolding valid_count count
init-IsBucket opt = record { counted = refl; sound = tt; distinct = λ q. omega arith }

-- The bucket `m'` reads as `m`, but for the key `k`, which reads as `v`.
abbrev pub Reads : Opt → Bytes → Option Bytes → Mgr → Mgr → Type 0
Reads opt k v m m' =
    (q : Bytes) → lookup opt q m'.nodes ≡ (if same opt k q then v else lookup opt q m.nodes)

module _ {opt : Opt} (law : Lawful opt) where
  same_congr : (a k q : Bytes) → same opt a k ≡ true → same opt a q ≡ same opt k q
  same_congr a k q e = ground (arith, law.same_symm a k, law.same_trans k a q, law.same_trans a k q)

  pub lookup_congr :
      (k q : Bytes) (ns : List Node) → same opt k q ≡ true → lookup opt k ns ≡ lookup opt q ns
  unfolding lookup
  lookup_congr k q [] e = refl
  lookup_congr k q (n ∷ ns) e = ground (
    arith,
    lookup_congr k q ns e,
    law.same_trans (node_key n) k q,
    law.same_trans (node_key n) q k,
    law.same_symm k q,
  )

  -- A node is filled with `key`: one that was not valid, when the key was nowhere, or the node of
  -- the key itself.
  pub fill_lem :
      (m : Mgr) (i : ℕ) (n n' : Node) (key : Bytes)
      → IsBucket opt m
      → get_elem? m.nodes i ≡ some n
      → Sound n'
      → n'.valid ≡ true
      → node_key n' ≡ key
      → ((n.valid ≡ false) × (lookup opt key m.nodes ≡ none)) ⊎ (hit opt key n ≡ true)
      → let m' = record m { used = m.used + 1 - to_nat n.valid; nodes = set m.nodes i n' } in
        IsBucket opt m' × Reads opt key (some (node_value n')) m m'
  fill_lem m i n n' key b at_i sound' valid' key' old = (
    record {
      counted = ground (arith, b.counted, valid_count-set m.nodes i n n' at_i);
      sound = All-set Sound m.nodes i n' b.sound sound';
      distinct = few;
    },
    λ q. reads q,
  )
    where
      hit' : (q : Bytes) → hit opt q n' ≡ same opt key q
      hit' q = ground (arith, valid', key')

      facts :
          (q : Bytes)
          → (hit opt q n ≡ same opt key q)
            ⊎ ((n.valid ≡ false) × (same opt key q ≡ true → count opt q m.nodes ≡ 0))
      facts q = elim old [
        | inl (free_node, unfound) ↦ inr (
          free_node,
          λ e. count-eq_zero opt q m.nodes (sym (lookup_congr key q m.nodes e) ∙ unfound),
        )
        | inr h ↦ inl (ground (arith, same_congr (node_key n) key q))
      ]

      few : (q : Bytes) → count opt q (set m.nodes i n') ≤ 1
      few q = ground (arith, facts q, hit' q, count-set opt q m.nodes i n n' at_i, b.distinct q)

      reads :
          (q : Bytes)
          → lookup opt q (set m.nodes i n')
            ≡ (if same opt key q then some (node_value n') else lookup opt q m.nodes)
      reads q =
          ground
            (arith, facts q, hit' q, lookup-set opt q m.nodes i n n' at_i (b.distinct q) (few q))

  -- The node of `key` gives way to one that is not valid.
  pub free_lem :
      (m : Mgr) (i : ℕ) (n n' : Node) (key : Bytes)
      → IsBucket opt m
      → get_elem? m.nodes i ≡ some n
      → hit opt key n ≡ true
      → Sound n'
      → n'.valid ≡ false
      → let m' = record m { used = m.used - 1; nodes = set m.nodes i n' } in
        IsBucket opt m' × Reads opt key none m m' × (0 < m.used)
  free_lem m i n n' key b at_i h sound' free' = (
    record {
      counted = ground (arith, b.counted, valid_count-set m.nodes i n n' at_i);
      sound = All-set Sound m.nodes i n' b.sound sound';
      distinct = few;
    },
    λ q. ground (arith, same_hit q, lookup-set opt q m.nodes i n n' at_i (b.distinct q) (few q)),
    ground (arith, b.counted, valid_count-set m.nodes i n n' at_i),
  )
    where
      same_hit : (q : Bytes) → hit opt q n ≡ same opt key q
      same_hit q = ground (arith, same_congr (node_key n) key q)

      few : (q : Bytes) → count opt q (set m.nodes i n') ≤ 1
      few q = ground (arith, count-set opt q m.nodes i n n' at_i, b.distinct q)

pub invalidate-Sound : (n : Node) → Sound n → Sound (invalidate n)
unfolding invalidate
invalidate-Sound n s = record { memory = s.memory; fits = λ e. cc }
