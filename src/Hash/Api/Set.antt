-- ===== src/Hash/Api/Set.antt =====
-- fhash/fhash_core.c, OPEN API: `fhash_set`, at once, in place, or delayed by an iteration.
use final_libs.Prelude.{
  ℕ, ◌+◌, ◌<◌, ◌≡◌, ◌≢◌, refl, ◌∙◌, Bool, true, false, Option, none, some, arith, if◌then◌else◌,
  ◌==◌, ltb, inl, inr, Option-cases, Ensures, Ensures-bind, Ensures-mono, Ensures-if,
}
use final_libs.Hash.Node.{Bytes}
use final_libs.Hash.Opt.{Opt, same, Lawful}
use final_libs.Hash.Mgr.{Mgr, find, mgr_add, mgr_set}
use final_libs.Hash.Mgr.Lookup.{lookup, find-lookup, find-none}
use final_libs.Hash.Mgr.Inv.{IsBucket}
use final_libs.Hash.Mgr.Changes.{mgr_set_lem, mgr_add_lem}
use final_libs.Hash.Table.{size_max, tbl_set, tbl_set_only}
use final_libs.Hash.Table.View.{view, view_congr, update}
use final_libs.Hash.Table.Branches.{Stands, Grown, SetOnly}
use final_libs.Hash.Table.Ops.{tbl_set_lem, tbl_set_only_lem}
use final_libs.Hash.Core.{Fhash, try_rehash}
use final_libs.Hash.Core.Inv.{IsFhash, value_of, lookup-Free}
use final_libs.Hash.Core.Rehash.{nothing_delayed, try_rehash_lem}
use final_libs.Hash.Api.{is_null, delay_found, set_delay, set_iterated, set_now, set}
use final_libs.Hash.Api.Laws.{Is, with_table, table_value}

abbrev pub is_some : Option Bytes → Bool
is_some none = false
is_some (some _) = true

-- the table has got no new key, and lost none
abbrev pub SameKeys : Opt → Fhash → Fhash → Type 0
SameKeys opt h h' = (q : Bytes) → is_some (view opt h'.current q) ≡ is_some (view opt h.current q)

module _ {opt : Opt} (law : Lawful opt) (h : Fhash) (is : IsFhash opt h) (key : Bytes) where
  -- the key is not delayed, since it is in the table, or since there is no iterator
  settled_key : view opt h.current key ≢ none → lookup opt key h.delayed.nodes ≡ none
  settled_key present = elim (Option-cases (lookup opt key h.delayed.nodes)) [
    | inl e ↦ e
    | inr (v, e) ↦ absurd (present (is.apart key (λ e'. absurd (ground (arith, e, e')))))
  ]

  present_is : view opt h.current key ≢ none → is_some (view opt h.current key) ≡ true
  present_is present = elim (Option-cases (view opt h.current key)) [
    | inl e ↦ absurd (present e)
    | inr (v, e) ↦ rw e
  ]

  nothing_here : h.iter_refs ≡ 0 → lookup opt key h.delayed.nodes ≡ none
  nothing_here idle = lookup-Free opt key h.delayed.nodes (nothing_delayed opt h is idle)

module _ {opt : Opt} (law : Lawful opt) (h : Fhash) (is : IsFhash opt h) (key : Bytes)
    (fresh : ℕ → ℕ) (value : Bytes) where
  abbrev Delayed : Mgr → Type 0
  Delayed m' =
      IsBucket opt m'
      × ((q : Bytes)
          → lookup opt q m'.nodes
            ≡ (if same opt key q then some value else lookup opt q h.delayed.nodes))

  delay_found_lem :
      Ensures Delayed (delay_found fresh h.delayed key value (find opt true key h.delayed.nodes))
  unfolding delay_found
  delay_found_lem = elim (Option-cases (find opt true key h.delayed.nodes)) [
    | inl e ↦
        rw (e, delay_found)
          (Ensures-mono Delayed (mgr_add fresh h.delayed key value)
            (mgr_add_lem fresh law h.delayed is.actions key value
              (find-none opt key h.delayed.nodes e))
            (λ m' (b, reads, _). (b, reads)))
    | inr (j, e) ↦
        let (n, at_j, hits, _) = find-lookup opt key h.delayed.nodes e in
        rw (e, delay_found)
          (Ensures-mono Delayed (mgr_set fresh h.delayed j key value)
            (mgr_set_lem fresh law h.delayed is.actions j n key value at_j hits)
            (λ m' (b, reads, _). (b, reads)))
  ]

  abbrev Bound : Fhash → Type 0
  Bound = Is opt (update opt (value_of opt h) key (some value))

  abbrev BoundInPlace : Fhash → Type 0
  BoundInPlace h' = Bound h' × SameKeys opt h h'

  set_delay_lem :
      0 < h.iter_refs
      → view opt h.current key ≡ none
      → Ensures BoundInPlace (set_delay fresh opt h key value)
  unfolding set_delay
  set_delay_lem iterated absent =
      Ensures-bind BoundInPlace
        (delay_found fresh h.delayed key value (find opt true key h.delayed.nodes)) _
        delay_found_lem
        (λ m' (b, reads). (
          (
            record {
              table = is.table;
              actions = b;
              apart = λ q some_delayed. ground (
                arith,
                reads q,
                is.apart q,
                view_congr law h.current is.table key q,
                absent,
                some_delayed,
              );
              settled = λ none_left. absurd (omega arith);
              not_rehashing = is.not_rehashing;
            },
            λ q. ground (arith, reads q, view_congr law h.current is.table key q, absent),
          ),
          λ q. refl,
        ))

  set_iterated_lem : 0 < h.iter_refs → Ensures BoundInPlace (set_iterated fresh opt h key value)
  unfolding set_iterated
  set_iterated_lem iterated =
      Ensures-bind {P = SetOnly opt h.current key value} BoundInPlace
        (tbl_set_only fresh opt h.current key value)
        (λ (success, t).
          if success == 0
          then set_delay fresh opt (record h { current = t }) key value
          else some (record h { current = t }))
        (tbl_set_only_lem law h.current is.table key fresh value)
        (λ (success, t) done. elim done [
          | inl (absent, zero_status, unchanged) ↦
              let failed : (success == 0) ≡ true = ground arith in
              rw (failed, unchanged) (set_delay_lem iterated absent)
          | inr (present, one_status, stands) ↦
              let done_now : (success == 0) ≡ false = ground arith in
              rw done_now (
                (
                  with_table law h is key (some value) t stands
                      (inl (settled_key law h is key present)),
                  table_value law h is key (some value) t stands,
                ),
                λ q. ground (
                  arith,
                  stands.1 q,
                  present_is law h is key present,
                  view_congr law h.current is.table key q,
                ),
              )
        ])

  set_now_lem :
      h.iter_refs ≡ 0
      → h.current.slots_used + 1 < size_max
      → Ensures Bound (set_now fresh opt h key value)
  unfolding set_now
  set_now_lem idle room =
      Ensures-bind
        {P = λ t'.
          Stands opt (update opt (view opt h.current) key (some value)) t' × Grown 1 h.current t'}
        Bound (tbl_set fresh opt h.current key value) _
        (tbl_set_lem law h.current is.table key fresh value (omega (arith, room)))
        (λ t (stands, grown).
          let h' = record h { current = t } in
          let is' =
            with_table law h is key (some value) t stands (inl (nothing_here law h is key idle)) in
          Ensures-if Bound h'.auto_rehash _ _
            (λ _.
              Ensures-mono Bound (try_rehash opt h')
                (try_rehash_lem law h' is' (omega (arith, grown.0, room)))
                (λ r (is_r, same_r).
                  (is_r, λ q. same_r q ∙ table_value law h is key (some value) t stands q)))
            (λ _. (is', table_value law h is key (some value) t stands)))

  -- With a key and a value that are not NULL or empty, lawful hash and compare functions, and
  -- room to count one node more, `fhash_set` on a well-formed table is defined whatever new
  -- memory holds. The table stays well formed, the key has the value, and every other key has
  -- the value it had, whether an iteration delays the key or an automatic rehash follows.
  pub set_lem :
      is_null key ≡ false
      → is_null value ≡ false
      → h.current.slots_used + 1 < size_max
      → Ensures Bound (set fresh opt h key value)
  unfolding set
  set_lem given given_value room =
      rw (given, given_value)
        (Ensures-if Bound (ltb 0 h.iter_refs) _ _
          (λ some_iterator.
            Ensures-mono Bound (set_iterated fresh opt h key value)
              (set_iterated_lem (ground arith)) (λ h' (bound, _). bound))
          (λ no_iterator. set_now_lem (ground arith) room))

  -- With a key and a value that are not NULL or empty, and one or more iterators on a
  -- well-formed table, `fhash_set` brings no key into the table and takes none out.
  pub set-SameKeys :
      is_null key ≡ false
      → is_null value ≡ false
      → 0 < h.iter_refs
      → Ensures (SameKeys opt h) (set fresh opt h key value)
  unfolding set
  set-SameKeys given given_value iterated =
      let some_iterator : ltb 0 h.iter_refs ≡ true = ground arith in
      rw (given, given_value, some_iterator)
        (Ensures-mono (SameKeys opt h) (set_iterated fresh opt h key value)
          (set_iterated_lem iterated) (λ h' (_, keys). keys))
