-- ===== src/Hash/Core/Walk.antt =====
-- fhash/fhash_core.c, ITERATOR: the nodes that a walk has before it, and where it stops next.
use final_libs.Prelude.{
  ℕ, zero, suc, ◌≡◌, refl, sym, ap, subst, ◌∙◌, Bool, true, false, Option, none, some, List, [],
  ◌∷◌, ◌++◌, arith, if◌then◌else◌, inl, inr, Option-cases, get_elem?, set, drop, All, All-append,
  append_assoc,
}
use mathlib.Core.Option
use final_libs.Hash.Node.{Node}
use final_libs.Hash.Mgr.{Mgr}
use final_libs.Hash.Core.{next_valid, next_node}

-- the nodes from a bucket and a slot on, in the order of the walk
unfoldable pub nodes_from : List Mgr → ℕ → ℕ → List Node
nodes_from [] index slot = []
nodes_from (m ∷ ms) zero slot = drop slot m.nodes ++ nodes_from ms 0 0
nodes_from (m ∷ ms) (suc index) slot = nodes_from ms index slot

abbrev pub Free : Node → Type 0
Free n = n.valid ≡ false

-- A stop in a list of nodes: the rest of the walk is free nodes, or free nodes and a valid one.
abbrev pub Stop : (all rest : List Node) (n : Node) → Type 0
Stop all rest n =
    (skipped : List Node) × (all ≡ skipped ++ n ∷ rest) × All Free skipped × (n.valid ≡ true)

Stop-shift :
    (n : Node) {all rest : List Node} {v : Node} → Free n → Stop all rest v → Stop (n ∷ all) rest v
Stop-shift n free_node (skipped, e, free, valid) =
    (n ∷ skipped, ap (λ ns. n ∷ ns) e, (free_node, free), valid)

Stop-append :
    {all rest : List Node} {v : Node} (more : List Node)
    → Stop all rest v
    → Stop (all ++ more) (rest ++ more) v
Stop-append {rest = rest} {v} more (skipped, e, free, valid) =
    (skipped, ap (λ ns. ns ++ more) e ∙ append_assoc skipped (v ∷ rest) more, free, valid)

Stop-before :
    (free_nodes : List Node) {all rest : List Node} {v : Node}
    → All Free free_nodes
    → Stop all rest v
    → Stop (free_nodes ++ all) rest v
Stop-before free_nodes {rest = rest} {v} before (skipped, e, free, valid) = (
  free_nodes ++ skipped,
  ap (λ ns. free_nodes ++ ns) e ∙ sym (append_assoc free_nodes skipped (v ∷ rest)),
  All-append Free free_nodes skipped before free,
  valid,
)

-- what an answer of the search in one bucket says
abbrev NextValid : List Node → ℕ → Option ℕ → Type 0
NextValid ns slot none = All Free (drop slot ns)
NextValid ns slot (some j) =
    (n : Node) × (get_elem? ns j ≡ some n) × Stop (drop slot ns) (drop (suc j) ns) n

NextValid-shift :
    (n : Node) (ns : List Node) (slot : ℕ) (o : Option ℕ)
    → NextValid ns slot o
    → NextValid (n ∷ ns) (suc slot) (Option.map suc o)
NextValid-shift n ns slot none h = h
NextValid-shift n ns slot (some j) h = h

NextValid-skip :
    (n : Node) (ns : List Node) (o : Option ℕ)
    → Free n
    → NextValid ns 0 o
    → NextValid (n ∷ ns) 0 (Option.map suc o)
NextValid-skip n ns none free h = (free, h)
NextValid-skip n ns (some j) free (v, at_j, stop) = (v, at_j, Stop-shift n free stop)

NextValid-first :
    (n : Node) (ns : List Node) (b : Bool)
    → n.valid ≡ b
    → NextValid ns 0 (next_valid ns 0)
    → NextValid (n ∷ ns) 0 (if b then some 0 else Option.map suc (next_valid ns 0))
NextValid-first n ns true valid later = (n, refl, ([], refl, tt, valid))
NextValid-first n ns false valid later = NextValid-skip n ns (next_valid ns 0) valid later

next_valid_lem : (ns : List Node) (slot : ℕ) → NextValid ns slot (next_valid ns slot)
unfolding next_valid
next_valid_lem [] zero = tt
next_valid_lem [] (suc slot) = tt
next_valid_lem (n ∷ ns) zero = NextValid-first n ns n.valid refl (next_valid_lem ns 0)
next_valid_lem (n ∷ ns) (suc slot) =
    NextValid-shift n ns slot (next_valid ns slot) (next_valid_lem ns slot)

-- what an answer of the search in the table says
abbrev pub NextNode : List Mgr → ℕ → ℕ → Option (ℕ × ℕ) → Type 0
NextNode ms index slot none = All Free (nodes_from ms index slot)
NextNode ms index slot (some (i, j)) =
    (m : Mgr) × (n : Node) × (get_elem? ms i ≡ some m)
    × (get_elem? m.nodes j ≡ some n)
    × Stop (nodes_from ms index slot) (nodes_from ms i (suc j)) n

NextNode-shift :
    (m : Mgr) (ms : List Mgr) (index slot : ℕ) (o : Option (ℕ × ℕ))
    → NextNode ms index slot o
    → NextNode (m ∷ ms) (suc index) slot (Option.map (λ (i, j). (suc i, j)) o)
unfolding nodes_from
NextNode-shift m ms index slot none h = h
NextNode-shift m ms index slot (some (i, j)) h = h

NextNode-skip :
    (m : Mgr) (ms : List Mgr) (slot : ℕ) (o : Option (ℕ × ℕ))
    → All Free (drop slot m.nodes)
    → NextNode ms 0 0 o
    → NextNode (m ∷ ms) 0 slot (Option.map (λ (i, j). (suc i, j)) o)
unfolding nodes_from
NextNode-skip m ms slot none free h = All-append Free (drop slot m.nodes) _ free h
NextNode-skip m ms slot (some (i, j)) free (m', n, at_i, at_j, stop) =
    (m', n, at_i, at_j, Stop-before (drop slot m.nodes) free stop)

-- The iterator's search from a bucket and a slot on answers with the first valid node that the
-- walk still has before it, with only free nodes skipped, and the walk then goes on behind that
-- node. It answers that there is none exactly when all nodes before it are free.
pub next_node_lem :
    (ms : List Mgr) (index slot : ℕ) → NextNode ms index slot (next_node ms index slot)
unfolding next_node nodes_from
next_node_lem [] index slot = tt
next_node_lem (m ∷ ms) zero slot =
    let here = next_valid_lem m.nodes slot in
    elim (Option-cases (next_valid m.nodes slot)) [
      | inl e ↦
          rw (e, next_node)
            (NextNode-skip m ms slot (next_node ms 0 0) (subst (NextValid m.nodes slot) e here)
              (next_node_lem ms 0 0))
      | inr (j, e) ↦
          let (n, at_j, stop) : NextValid m.nodes slot (some j) =
            subst (NextValid m.nodes slot) e here in
          rw (e, next_node) (m, n, refl, at_j, Stop-append (nodes_from ms 0 0) stop)
    ]
next_node_lem (m ∷ ms) (suc index) slot =
    NextNode-shift m ms index slot (next_node ms index slot) (next_node_lem ms index slot)

drop-set_before : (ns : List Node) (j : ℕ) (n : Node) → drop (suc j) (set ns j n) ≡ drop (suc j) ns
drop-set_before [] j n = ground arith
drop-set_before (m ∷ ns) zero n = refl
drop-set_before (m ∷ ns) (suc j) n = drop-set_before ns j n

-- A write to the node where the walk stopped is behind the walk.
pub nodes_from-set :
    (ms : List Mgr) (i j : ℕ) (m : Mgr) (n : Node)
    → get_elem? ms i ≡ some m
    → nodes_from (set ms i (record m { nodes = set m.nodes j n })) i (suc j)
      ≡ nodes_from ms i (suc j)
unfolding nodes_from
nodes_from-set [] i j m n h = absurd (ground arith)
nodes_from-set (x ∷ ms) zero j m n h =
    let same_bucket : x ≡ m = cc in
    ap (λ ns. ns ++ nodes_from ms 0 0)
      (drop-set_before m.nodes j n ∙ ap (λ b. drop (suc j) b.nodes) (sym same_bucket))
nodes_from-set (x ∷ ms) (suc i) j m n h = nodes_from-set ms i j m n h
