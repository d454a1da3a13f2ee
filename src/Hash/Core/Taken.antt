-- ===== src/Hash/Core/Taken.antt =====
-- fhash/fhash_core.c: nodes that are moved into a table one after the other.
use final_libs.Prelude.{
  suc, ◌≤◌, ◌≡◌, ◌≢◌, refl, ap, subst, ◌∙◌, true, Option, none, some, List, [], ◌∷◌, ◌++◌, arith,
  if◌then◌else◌, All, Ensures, Ensures-bind, Ensures-mono, ◌>>=◌,
}
use final_libs.Hash.Node.{Bytes, Node, node_key, node_value}
use final_libs.Hash.Node.Layout.{Sound}
use final_libs.Hash.Opt.{Opt, same, Lawful}
use final_libs.Hash.Mgr.Lookup.{valid_count, lookup, count, lookup-eq_none}
use final_libs.Hash.Table.{Table, size_max, tbl_set_node}
use final_libs.Hash.Table.View.{IsTable, view}
use final_libs.Hash.Table.Branches.{Grown}
use final_libs.Hash.Table.Ops.{tbl_set_node_lem}
use final_libs.Hash.Core.Walk.{Free, Stop}

abbrev pub or_else : Option Bytes → Option Bytes → Option Bytes
or_else none w = w
or_else (some v) w = some v

-- Nodes with no two for one key.
pub record Pending (opt : Opt) (ns : List Node) : Type 0 where
  pub sound : All Sound ns
  pub distinct : (q : Bytes) → count opt q ns ≤ 1

-- The table `new'` has the nodes `ns` over what `new` has.
abbrev pub Taken : Opt → List Node → Table → Table → Type 0
Taken opt ns new new' =
    IsTable opt new'
    × ((q : Bytes) → view opt new' q ≡ or_else (lookup opt q ns) (view opt new q))
    × Grown (valid_count ns) new new'

pub skip-Free :
    (opt : Opt) (skipped rest : List Node)
    → All Free skipped
    → ((q : Bytes)
        → (lookup opt q (skipped ++ rest) ≡ lookup opt q rest)
          × (count opt q (skipped ++ rest) ≡ count opt q rest))
      × (valid_count (skipped ++ rest) ≡ valid_count rest)
unfolding lookup count valid_count
skip-Free opt [] rest free = (λ q. (refl, refl), refl)
skip-Free opt (n ∷ ns) rest free =
    let (same_reads, same_count) = skip-Free opt ns rest free.1 in
    (λ q. ground (arith, same_reads q, free.0), ground (arith, same_count, free.0))

Sound-rest : (skipped rest : List Node) → All Sound (skipped ++ rest) → All Sound rest
Sound-rest [] rest h = h
Sound-rest (n ∷ ns) rest h = Sound-rest ns rest h.1

-- What a stop says of the nodes: the stopped one, and the rest.
pub stop_lem :
    (opt : Opt) {all rest : List Node} {n : Node}
    → Stop all rest n
    → Pending opt all
    → Pending opt rest
      × Sound n
      × (valid_count all ≡ suc (valid_count rest))
      × ((q : Bytes)
          → lookup opt q all
            ≡ (if same opt (node_key n) q then some (node_value n) else lookup opt q rest))
      × ((q : Bytes) → same opt (node_key n) q ≡ true → lookup opt q rest ≡ none)
unfolding lookup count valid_count
stop_lem opt {all} {rest} {n} (skipped, e, free, valid) p =
    let (reads, counts) = skip-Free opt skipped (n ∷ rest) free in
    let sound = Sound-rest skipped (n ∷ rest) (subst (All Sound) e p.sound) in
    let few : (q : Bytes) → count opt q (n ∷ rest) ≤ 1 =
      λ q. subst (λ k. k ≤ 1) (ap (count opt q) e ∙ (reads q).1) (p.distinct q) in
    (
      record { sound = sound.1; distinct = λ q. ground (arith, few q) },
      sound.0,
      ap valid_count e ∙ counts ∙ ground arith,
      λ q. ap (lookup opt q) e ∙ (reads q).0 ∙ ground arith,
      λ q same_key. lookup-eq_none opt q rest (ground (arith, few q)),
    )

-- All nodes free: nothing is left to take.
pub Taken-Free :
    (opt : Opt) (ns : List Node) (new : Table)
    → All Free ns
    → IsTable opt new
    → Taken opt ns new new
unfolding lookup
Taken-Free opt [] new free is = (is, (λ q. refl), (omega arith, refl))
Taken-Free opt (n ∷ ns) new free is =
    let (_, reads, slots) = Taken-Free opt ns new free.1 is in
    (is, (λ q. ground (arith, free.0, reads q)), (omega (arith, slots.0), refl))

module _ {opt : Opt} (law : Lawful opt) where
  -- The stopped node is moved into the table, and then the rest.
  pub Taken-step :
      {all rest : List Node} {n : Node} (new : Table)
      → IsTable opt new
      → Stop all rest n
      → Pending opt all
      → new.slots_used ≢ size_max
      → {A : Type 0} (P : A → Type 0) (table : A → Table) (next : Table → Option A)
      → ((new' : Table)
          → IsTable opt new'
          → Grown 1 new new'
          → Ensures (λ a. Taken opt rest new' (table a) × P a) (next new'))
      → Ensures (λ a. Taken opt all new (table a) × P a) (tbl_set_node opt new n >>= next)
  Taken-step {all} {rest} {n} new is stop p room P table next step =
      let (p', sound, fewer, reads, none_left) = stop_lem opt stop p in
      Ensures-bind _ (tbl_set_node opt new n) next
        (tbl_set_node_lem law new is (node_key n) n sound stop.3 refl room)
        (λ new' ((is', view'), slots).
          Ensures-mono (λ a. Taken opt all new (table a) × P a) (next new') (step new' is' slots)
            (λ a ((is'', view'', slots''), more). (
              (
                is'',
                (λ q. ground (arith, view'' q, view' q, reads q, none_left q)),
                (omega (arith, slots.0, slots''.0, fewer), slots''.1 ∙ slots.1),
              ),
              more,
            )))
