-- ===== src/Hash/Core/Moves.antt =====
-- fhash/fhash_core.c: the loops of `_hash_rehash` and of `_hash_perform_actions`.
use final_libs.Prelude.{
  ℕ, zero, suc, ◌+◌, ◌-◌, ◌≤◌, ◌<◌, ◌≡◌, refl, sym, ap, subst, ◌∙◌, some, List, [], ◌∷◌, arith, inl,
  inr, Option-cases, All, Ensures, Ensures-bind, Ensures-mono, Ensures-if, get_elem?, set,
}
use final_libs.Hash.Node.{Bytes, Node, node_init}
use final_libs.Hash.Node.Layout.{Sound, init-Sound}
use final_libs.Hash.Opt.{Opt, Lawful}
use final_libs.Hash.Mgr.{Mgr}
use final_libs.Hash.Mgr.Lookup.{valid_count, count}
use final_libs.Hash.Table.{Table, size_max, put_bucket}
use final_libs.Hash.Table.View.{IsTable, view}
use final_libs.Hash.Core.{next_node, node_at, init_at, migrate, perform_nodes}
use final_libs.Hash.Core.Walk.{Free, Stop, nodes_from, NextNode, next_node_lem, nodes_from-set}
use final_libs.Hash.Core.Taken.{
  or_else, Pending, Taken, stop_lem, skip-Free, Taken-Free, Taken-step,
}

abbrev Both : Opt → List Node → Table → Table × Table → Type 0
Both opt ns new (old', new') = Taken opt ns new new' × Unit {0}

node_at_lem :
    (t : Table) (i j : ℕ) {m : Mgr} {n : Node}
    → get_elem? t.mgrs i ≡ some m
    → get_elem? m.nodes j ≡ some n
    → node_at t i j ≡ some n
unfolding node_at
node_at_lem t i j at_i at_j = rw at_i at_j

init_at_lem :
    (t : Table) (i j : ℕ) {m : Mgr}
    → get_elem? t.mgrs i ≡ some m
    → init_at t i j ≡ some (put_bucket t i (record m { nodes = set m.nodes j node_init }))
unfolding init_at
init_at_lem t i j at_i = rw at_i

-- The nodes `ns` are moved into `new`.
abbrev pub Migrated : Opt → List Node → Table → Table × Table → Type 0
Migrated opt ns new (old', new') = Taken opt ns new new'

-- The nodes `ns` are moved into `t` and cleared, and `used` is counted down by one for each.
abbrev pub Performed : Opt → List Node → Table → ℕ → List Node × Table × ℕ → Type 0
Performed opt ns t used (ns', t', used') =
    Taken opt ns t t' × (All Free ns' × All Sound ns' × (used' ≡ used - valid_count ns))

module _ {opt : Opt} (law : Lawful opt) where
  migrate_from :
      (fuel : ℕ) (old : Table) (index slot : ℕ) (new : Table)
      → IsTable opt new
      → Pending opt (nodes_from old.mgrs index slot)
      → valid_count (nodes_from old.mgrs index slot) < fuel
      → new.slots_used + valid_count (nodes_from old.mgrs index slot) < size_max
      → Ensures
          (Both opt (nodes_from old.mgrs index slot) new)
          (migrate fuel opt old index slot new)
  unfolding migrate
  migrate_from zero old index slot new is p enough room = absurd (omega arith)
  migrate_from (suc fuel) old index slot new is p enough room =
      let answer = next_node_lem old.mgrs index slot in
      elim (Option-cases (next_node old.mgrs index slot)) [
        | inl e ↦
            rw (e, migrate)
              (
                Taken-Free opt (nodes_from old.mgrs index slot) new
                    (subst (NextNode old.mgrs index slot) e answer) is,
                tt,
              )
        | inr ((i, j), e) ↦
            let (m, n, at_i, at_j, stop) : NextNode old.mgrs index slot (some (i, j)) =
              subst (NextNode old.mgrs index slot) e answer in
            let (p', sound, fewer, _, _) = stop_lem opt stop p in
            let old' = put_bucket old i (record m { nodes = set m.nodes j node_init }) in
            let behind : nodes_from old'.mgrs i (j + 1) ≡ nodes_from old.mgrs i (suc j) =
              ap (nodes_from old'.mgrs i) (omega arith)
              ∙ nodes_from-set old.mgrs i j m node_init at_i in
            let found = node_at_lem old i j at_i at_j in
            let cleared = init_at_lem old i j at_i in
            rw (e, migrate)
              (rw (found, cleared)
                (Taken-step law new is stop p (ground arith) (λ _. Unit {0}) (λ (o, n'). n')
                  (λ new'. migrate fuel opt old' i (j + 1) new')
                  (λ new' is' slots.
                    subst (λ ns. Ensures (Both opt ns new') (migrate fuel opt old' i (j + 1) new'))
                      behind
                      (migrate_from fuel old' i (j + 1) new' is'
                        (subst (Pending opt) (sym behind) p')
                        (omega (arith, ap valid_count behind, fewer, enough))
                        (omega (arith, ap valid_count behind, fewer, room, slots.0))))))
      ]

  -- The loop of `_hash_rehash`, from an iterator position on, ends within one round for each
  -- valid node that is left and one more, given that no two of these nodes have the same key,
  -- that the new table is well formed, and that it has room to count them. It is defined, and
  -- the new table then has all those nodes over what it had, and as many buckets.
  pub migrate_lem :
      (fuel : ℕ) (old : Table) (index slot : ℕ) (new : Table)
      → IsTable opt new
      → Pending opt (nodes_from old.mgrs index slot)
      → valid_count (nodes_from old.mgrs index slot) < fuel
      → new.slots_used + valid_count (nodes_from old.mgrs index slot) < size_max
      → Ensures
          (Migrated opt (nodes_from old.mgrs index slot) new)
          (migrate fuel opt old index slot new)
  migrate_lem fuel old index slot new is p enough room =
      let ns = nodes_from old.mgrs index slot in
      Ensures-mono {P = Both opt ns new} (Migrated opt ns new) (migrate fuel opt old index slot new)
        (migrate_from fuel old index slot new is p enough room) (λ (old', new') (taken, _). taken)

  -- The loop of `_hash_perform_actions` over nodes of which no two have the same key is
  -- defined on a well-formed table with room to count them. The table then has all valid ones
  -- of these nodes over what it had, no node is valid any more, and `used` is lowered by their
  -- number.
  pub perform_nodes_lem :
      (ns : List Node) (t : Table) (used : ℕ)
      → IsTable opt t
      → Pending opt ns
      → t.slots_used + valid_count ns < size_max
      → Ensures (Performed opt ns t used) (perform_nodes opt ns t used)
  unfolding perform_nodes valid_count
  perform_nodes_lem [] t used is p room = (Taken-Free opt [] t tt is, (tt, tt, omega arith))
  perform_nodes_lem (n ∷ ns) t used is p room =
      Ensures-if (Performed opt (n ∷ ns) t used) n.valid _ _
        (λ valid.
          let stop : Stop (n ∷ ns) ns n = ([], refl, tt, valid) in
          let (p', _, fewer, _, _) = stop_lem opt stop p in
          Taken-step law t is stop p (ground arith)
            (λ (ns', t', used').
              All Free ns' × All Sound ns' × (used' ≡ used - valid_count (n ∷ ns)))
            (λ (ns', t', used'). t') _
            (λ t' is' slots.
              Ensures-bind {P = Performed opt ns t' (used - 1)} _ _ _
                (perform_nodes_lem ns t' (used - 1) is' p' (omega (arith, fewer, room, slots.0)))
                (λ (ns', t'', used') (taken, (free, sound, left)).
                  (taken, ((refl, free), (init-Sound, sound), omega (arith, left, fewer))))))
        (λ free_node.
          let (reads, fewer) = skip-Free opt (n ∷ []) ns (free_node, tt) in
          let few : (q : Bytes) → count opt q ns ≤ 1 =
            λ q. subst (λ k. k ≤ 1) (reads q).1 (p.distinct q) in
          Ensures-bind {P = Performed opt ns t used} _ _ _
            (perform_nodes_lem ns t used is (record { sound = p.sound.1; distinct = few })
              (omega (arith, fewer, room)))
            (λ (ns', t'', used') ((is'', view'', slots), (free, sound, left)). (
              (
                is'',
                (λ q. view'' q ∙ ap (λ o. or_else o (view opt t q)) (sym (reads q).0)),
                (omega (arith, slots.0, fewer), slots.1),
              ),
              ((free_node, free), (p.sound.0, sound), omega (arith, left, fewer)),
            )))
