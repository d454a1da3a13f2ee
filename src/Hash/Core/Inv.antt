-- ===== src/Hash/Core/Inv.antt =====
-- fhash/fhash_core.c: the invariant of `struct fhash`, and the map that it stands for.
use final_libs.Prelude.{
  ℕ, zero, suc, ◌<◌, ◌≡◌, ◌≢◌, refl, sym, ap, false, Option, none, some, List, [], ◌∷◌, arith,
  length, get_elem?, replicate, All, All-replicate, length-replicate, Option-cases, inl, inr,
}
use final_libs.Hash.Node.{Bytes, Node}
use final_libs.Hash.Opt.{Opt}
use final_libs.Hash.Mgr.{Mgr, mgr_init}
use final_libs.Hash.Mgr.Lookup.{lookup, valid_count}
use final_libs.Hash.Mgr.Inv.{IsBucket, init-IsBucket}
use final_libs.Hash.Table.{Table, calculate_idx, tbl_create}
use final_libs.Hash.Table.View.{IsTable, view, sum_used}
use final_libs.Hash.Core.{Fhash}
use final_libs.Hash.Core.Walk.{Free}
use final_libs.Hash.Core.Taken.{or_else}

-- Between calls: no key is both in the table and delayed, and without iterators nothing is delayed.
pub record IsFhash (opt : Opt) (h : Fhash) : Type 0 where
  pub table : IsTable opt h.current
  pub actions : IsBucket opt h.delayed
  pub apart : (q : Bytes) → lookup opt q h.delayed.nodes ≢ none → view opt h.current q ≡ none
  pub settled : h.iter_refs ≡ 0 → h.delayed.used ≡ 0
  pub not_rehashing : h.rehashing ≡ false

-- the value of a key: the one in the table, or else the delayed one
abbrev pub value_of : Opt → Fhash → Bytes → Option Bytes
value_of opt h q = or_else (view opt h.current q) (lookup opt q h.delayed.nodes)

-- free nodes read as no nodes
pub lookup-Free : (opt : Opt) (q : Bytes) (ns : List Node) → All Free ns → lookup opt q ns ≡ none
unfolding lookup
lookup-Free opt q [] free = refl
lookup-Free opt q (n ∷ ns) free = ground (arith, free.0, lookup-Free opt q ns free.1)

pub Free-of_count : (ns : List Node) → valid_count ns ≡ 0 → All Free ns
unfolding valid_count
Free-of_count [] e = tt
Free-of_count (n ∷ ns) e = (ground arith, Free-of_count ns (ground arith))

pub count_of_Free : (ns : List Node) → All Free ns → valid_count ns ≡ 0
unfolding valid_count
count_of_Free [] free = refl
count_of_Free (n ∷ ns) free = ground (arith, free.0, count_of_Free ns free.1)

empty_bucket :
    (size i : ℕ) (m : Mgr) → get_elem? (replicate size mgr_init) i ≡ some m → m ≡ mgr_init
empty_bucket zero i m h = absurd (ground arith)
empty_bucket (suc size) zero m h = cc
empty_bucket (suc size) (suc i) m h = empty_bucket size i m h

sum_used-empty : (size : ℕ) → sum_used (replicate size mgr_init) ≡ 0
unfolding sum_used
sum_used-empty zero = refl
sum_used-empty (suc size) = omega (arith, sum_used-empty size)

-- A new table of `size` buckets has no key.
pub tbl_create_lem :
    (opt : Opt) (size : ℕ)
    → 0 < size
    → (t : Table) × (tbl_create size ≡ some t)
      × IsTable opt t
      × ((q : Bytes) → view opt t q ≡ none)
      × (length t.mgrs ≡ size)
      × (t.slots_used ≡ 0)
unfolding tbl_create view lookup
tbl_create_lem opt size pos =
    let t : Table = record { index_used = 0; slots_used = 0; mgrs = replicate size mgr_init } in
    (
      t,
      ground arith,
      record {
        some_buckets = ground (arith, length-replicate size mgr_init);
        buckets = All-replicate (IsBucket opt) size mgr_init (init-IsBucket opt);
        placed = λ q i m at_i ne. ap (λ b. lookup opt q b.nodes) (empty_bucket size i m at_i);
        counted = sym (sum_used-empty size);
      },
      λ q. elim (Option-cases (get_elem? (replicate size mgr_init) (calculate_idx opt t q))) [
        | inl e ↦ rw e
        | inr (m, e) ↦ rw e (ap (λ b. lookup opt q b.nodes) (empty_bucket size _ m e))
      ],
      length-replicate size mgr_init,
      refl,
    )
