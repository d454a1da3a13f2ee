-- ===== src/Hash/Api/Laws.antt =====
-- fhash/fhash_core.c, OPEN API: each call against the map that the table stands for.
use mathlib.Core.Option
use final_libs.Prelude.{
  ℕ, ◌≡◌, refl, ap, Bool, false, Option, none, some, arith, if◌then◌else◌, ◌==◌, inr, ◌⊎◌, take,
  Ensures, Ensures-bind, Ensures-if,
}
use final_libs.Hash.Node.{Bytes}
use final_libs.Hash.Opt.{Opt, Lawful}
use final_libs.Hash.Mgr.Lookup.{lookup}
use final_libs.Hash.Mgr.Inv.{init-IsBucket, lookup_congr}
use final_libs.Hash.Mgr.Changes.{mgr_get-lookup}
use final_libs.Hash.Table.{Table, tbl_del, tbl_fetch_and_del}
use final_libs.Hash.Table.View.{view, update}
use final_libs.Hash.Table.Branches.{Stands, Fetched}
use final_libs.Hash.Table.Ops.{tbl_get_lem, tbl_del_lem, tbl_fetch_and_del_lem}
use final_libs.Hash.Core.{Fhash}
use final_libs.Hash.Core.Taken.{or_else}
use final_libs.Hash.Core.Inv.{IsFhash, value_of, tbl_create_lem}
use final_libs.Hash.Api.{is_null, create, or_delayed, get, del, fetch_and_del}

-- the call is defined, and the table then stands for the map `f`
abbrev pub Is : Opt → (Bytes → Option Bytes) → Fhash → Type 0
Is opt f h' = IsFhash opt h' × ((q : Bytes) → value_of opt h' q ≡ f q)

-- `fhash_create` is defined for every size and flag, and gives a well-formed table in which no
-- key has a value.
pub create_lem :
    (opt : Opt) (init_size : ℕ) (auto : Bool) → Ensures (Is opt (λ _. none)) (create init_size auto)
unfolding create lookup
create_lem opt init_size auto =
    let (t, created, is, empty, _, _) =
      tbl_create_lem opt (if init_size == 0 then 10 else init_size) (ground arith) in
    rw created (
      record {
        table = is;
        actions = init-IsBucket opt;
        apart = λ q _. empty q;
        settled = λ _. refl;
        not_rehashing = refl;
      },
      λ q. rw (empty q),
    )

or_delayed_lem :
    (opt : Opt) (h : Fhash) (key : Bytes) (found : Option Bytes)
    → or_delayed opt h key found ≡ or_else found (lookup opt key h.delayed.nodes)
unfolding or_delayed
or_delayed_lem opt h key none = mgr_get-lookup opt h.delayed key
or_delayed_lem opt h key (some v) = refl

-- `fhash_fetch_and_del`: what it copies, and the table after it
abbrev pub FetchDone : Opt → Fhash → Bytes → ℕ → Option Bytes × Fhash → Type 0
FetchDone opt h key value_sz (out, h') =
    (out ≡ (if value_sz == 0 then none else Option.map (take value_sz) (view opt h.current key)))
    × Is opt (update opt (value_of opt h) key (lookup opt key h.delayed.nodes)) h'

module _ {opt : Opt} (law : Lawful opt) (h : Fhash) (is : IsFhash opt h) (key : Bytes) where
  -- On a well-formed table `fhash_get` of a key that is not NULL or empty returns the value of
  -- the key in the table if there is one, else the delayed value, else NULL.
  pub get_lem : is_null key ≡ false → get opt h key ≡ some (value_of opt h key)
  unfolding get
  get_lem given =
      rw (given, tbl_get_lem law h.current is.table key)
        (ap some (or_delayed_lem opt h key (view opt h.current key)))

  -- The table is changed and the delayed nodes are not, where the key is not delayed or is deleted.
  pub with_table :
      (v : Option Bytes) (t' : Table)
      → Stands opt (update opt (view opt h.current) key v) t'
      → (lookup opt key h.delayed.nodes ≡ none) ⊎ (v ≡ none)
      → IsFhash opt (record h { current = t' })
  with_table v t' (is', reads) settled = record {
    table = is';
    actions = is.actions;
    apart = λ q some_delayed. ground (
      arith,
      reads q,
      is.apart q some_delayed,
      settled,
      lookup_congr law key q h.delayed.nodes,
      some_delayed,
    );
    settled = is.settled;
    not_rehashing = is.not_rehashing;
  }

  -- the map with the key in the table changed: a delayed value of the key shows
  pub table_value :
      (v : Option Bytes) (t' : Table)
      → Stands opt (update opt (view opt h.current) key v) t'
      → (q : Bytes)
      → value_of opt (record h { current = t' }) q
        ≡ update opt (value_of opt h) key (or_else v (lookup opt key h.delayed.nodes)) q
  table_value v t' (_, reads) q = ground (arith, reads q, lookup_congr law key q h.delayed.nodes)

  -- On a well-formed table `fhash_del` of a key that is not NULL or empty is defined and keeps
  -- the table well formed. Every other key keeps its value, and the key has the value that is
  -- delayed for it, if any.
  pub del_lem :
      is_null key ≡ false
      → Ensures
          (Is opt (update opt (value_of opt h) key (lookup opt key h.delayed.nodes)))
          (del opt h key)
  unfolding del
  del_lem given = rw given (
      Ensures-bind {P = Stands opt (update opt (view opt h.current) key none)} _
        (tbl_del opt h.current key) _ (tbl_del_lem law h.current is.table key)
        (λ t stands. (with_table none t stands (inr refl), table_value none t stands)))

  -- On a well-formed table `fhash_fetch_and_del` of a key that is not NULL or empty is
  -- defined. With a destination it copies the first `value_sz` bytes of the value in the
  -- table, or all if there are fewer, and returns NULL if there is no value there; without one
  -- it returns NULL. In both cases the table is then as after `fhash_del`.
  pub fetch_and_del_lem :
      (value_sz : ℕ)
      → is_null key ≡ false
      → Ensures (FetchDone opt h key value_sz) (fetch_and_del opt h key value_sz)
  unfolding fetch_and_del
  fetch_and_del_lem value_sz given = rw given (
      Ensures-if (FetchDone opt h key value_sz) (value_sz == 0) _ _
        (λ no_room.
          Ensures-bind (FetchDone opt h key value_sz) (del opt h key) _ (del_lem given)
            (λ h' done. (rw no_room, done)))
        (λ room.
          Ensures-bind {P = Fetched opt h.current key value_sz} (FetchDone opt h key value_sz)
            (tbl_fetch_and_del opt h.current key value_sz)
            (λ (out, t). some (out, record h { current = t }))
            (tbl_fetch_and_del_lem law h.current is.table key value_sz)
            (λ (out, t) (copied, stands).
              (rw room copied, (with_table none t stands (inr refl), table_value none t stands)))))
