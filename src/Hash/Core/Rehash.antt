-- ===== src/Hash/Core/Rehash.antt =====
-- fhash/fhash_core.c: a rehash, and the end of an iteration.
use final_libs.Prelude.{
  ℕ, ◌+◌, ◌-◌, ◌%◌, ◌^◌, ◌<◌, ◌≡◌, ◌≢◌, refl, sym, ap, subst, ◌∙◌, Bool, true, false, ◌&&◌, none,
  some, List, [], ◌∷◌, arith, ◌==◌, ltb, All, Ensures, Ensures-bind, Ensures-mono, Ensures-if,
}
use final_libs.Hash.Node.{Bytes, Node}
use final_libs.Hash.Node.Layout.{Sound}
use final_libs.Hash.Opt.{Opt, Lawful}
use final_libs.Hash.Mgr.Lookup.{lookup, count-eq_zero}
use final_libs.Hash.Mgr.Inv.{IsBucket}
use final_libs.Hash.Table.{Table, index_size, size_max}
use final_libs.Hash.Table.View.{IsTable, view}
use final_libs.Hash.Core.{
  Fhash, rounds, migrate, perform_nodes, perform_actions, rehash_size, need_rehash, can_rehash,
  iter_new, release_with, try_nested, rehash_to, try_rehash, iter_release,
}
use final_libs.Hash.Core.Walk.{Free, nodes_from}
use final_libs.Hash.Core.Taken.{or_else}
use final_libs.Hash.Core.Whole.{whole_lem}
use final_libs.Hash.Core.Moves.{Migrated, migrate_lem, Performed, perform_nodes_lem}
use final_libs.Hash.Core.Inv.{
  IsFhash, value_of, lookup-Free, Free-of_count, count_of_Free, tbl_create_lem,
}

perform_nodes-Free :
    (opt : Opt) (ns : List Node) (t : Table) (used : ℕ)
    → All Free ns
    → perform_nodes opt ns t used ≡ some (ns, t, used)
unfolding perform_nodes
perform_nodes-Free opt [] t used free = refl
perform_nodes-Free opt (n ∷ ns) t used free =
    ground (arith, free.0, perform_nodes-Free opt ns t used free.1)

-- a bucket of free nodes
Free-IsBucket :
    (opt : Opt) (ns : List Node)
    → All Free ns
    → All Sound ns
    → IsBucket opt (record { used = 0; nodes = ns })
Free-IsBucket opt ns free sound = record {
  counted = sym (count_of_Free ns free);
  sound = sound;
  distinct = λ q. omega (arith, count-eq_zero opt q ns (lookup-Free opt q ns free));
}

pub nothing_delayed :
    (opt : Opt) (h : Fhash) → IsFhash opt h → h.iter_refs ≡ 0 → All Free h.delayed.nodes
nothing_delayed opt h is idle =
    Free-of_count h.delayed.nodes (sym is.actions.counted ∙ is.settled idle)

-- What a call keeps that does not change the map.
abbrev pub Kept : Opt → Fhash → Fhash → Type 0
Kept opt h h' = IsFhash opt h' × ((q : Bytes) → value_of opt h' q ≡ value_of opt h q)

module _ {opt : Opt} (law : Lawful opt) where
  -- the end of the iteration inside `_hash_rehash`
  release_nested :
      (h : Fhash)
      → h.iter_refs ≡ 1
      → h.rehashing ≡ true
      → h.delayed.used ≡ 0
      → All Free h.delayed.nodes
      → release_with try_nested opt h ≡ some (record h { iter_refs = 0; performing = false })
  unfolding release_with perform_actions try_nested can_rehash
  release_nested h one rehashing unused free = ground (
    arith,
    one,
    rehashing,
    unused,
    perform_nodes-Free opt h.delayed.nodes h.current h.delayed.used free,
  )

  -- A rehash keeps the map, and has the size that is asked for.
  pub rehash_to_lem :
      (h : Fhash) (new_size : ℕ)
      → IsFhash opt h
      → h.iter_refs ≡ 0
      → h.current.slots_used < size_max
      → 0 < new_size
      → Ensures
          (λ h'. Kept opt h h' × (index_size h'.current ≡ new_size))
          (rehash_to opt h new_size)
  unfolding rehash_to iter_new
  rehash_to_lem h new_size is idle room pos =
      let (new, created, new_is, empty, buckets, none_used) = tbl_create_lem opt new_size pos in
      let (pending, reads, counts, enough) = whole_lem opt h.current is.table in
      let free = nothing_delayed opt h is idle in
      let no_iterator : (h.iter_refs == 0) ≡ true = ground arith in
      rw (no_iterator, created)
        (Ensures-bind {P = Migrated opt (nodes_from h.current.mgrs 0 0) new} _
          (migrate (rounds h.current.mgrs) opt h.current 0 0 new) _
          (migrate_lem law (rounds h.current.mgrs) h.current 0 0 new new_is pending
            (omega (arith, counts, enough)) (omega (arith, counts, none_used, room)))
          (λ (old', new') (new_is', reads', grown).
            let nested = record h {
              iter_refs = (h.iter_refs + 1) % 2 ^ 32;
              rehashing = true;
              current = old';
            } in
            rw (release_nested nested (omega (arith, idle)) refl (is.settled idle) free) (
              (
                record {
                  table = new_is';
                  actions = is.actions;
                  apart = λ q some_delayed.
                      absurd (some_delayed (lookup-Free opt q h.delayed.nodes free));
                  settled = λ _. is.settled idle;
                  not_rehashing = refl;
                },
                λ q.
                    ap (λ o. or_else o (lookup opt q h.delayed.nodes))
                      (ground (arith, reads' q, reads q, empty q)),
              ),
              grown.1 ∙ buckets,
            )))

  pub can_rehash_idle : (h : Fhash) (more : Bool) → (can_rehash h && more) ≡ true → h.iter_refs ≡ 0
  unfolding can_rehash
  can_rehash_idle h more e = ground arith

  pub rehash_size_pos : (t : Table) → 0 < index_size t → 0 < rehash_size t
  unfolding rehash_size
  rehash_size_pos t pos = ground arith

  -- On a well-formed table whose node count is below SIZE_MAX `_hash_try_rehash` is defined,
  -- and whether it does a rehash or not the table stays well formed and every key keeps its
  -- value.
  pub try_rehash_lem :
      (h : Fhash)
      → IsFhash opt h
      → h.current.slots_used < size_max
      → Ensures (Kept opt h) (try_rehash opt h)
  unfolding try_rehash
  try_rehash_lem h is room =
      Ensures-if (Kept opt h) (can_rehash h && need_rehash h.current) _ _
        (λ can.
          Ensures-mono (Kept opt h) _
            (rehash_to_lem h (rehash_size h.current) is
              (can_rehash_idle h (need_rehash h.current) can) room
              (rehash_size_pos h.current is.table.some_buckets))
            (λ h' (kept, _). kept))
        (λ _. (is, λ q. refl))

  -- the last iterator is released: what is delayed goes into the table
  perform_actions_lem :
      (h : Fhash)
      → IsTable opt h.current
      → IsBucket opt h.delayed
      → ((q : Bytes) → lookup opt q h.delayed.nodes ≢ none → view opt h.current q ≡ none)
      → h.rehashing ≡ false
      → h.current.slots_used + h.delayed.used < size_max
      → Ensures (λ h'. Kept opt h h' × (h'.current.slots_used < size_max)) (perform_actions opt h)
  unfolding perform_actions
  perform_actions_lem h table actions apart idle room =
      Ensures-bind {P = Performed opt h.delayed.nodes h.current h.delayed.used} _ _ _
        (perform_nodes_lem law h.delayed.nodes h.current h.delayed.used table
          (record { sound = actions.sound; distinct = actions.distinct })
          (omega (arith, actions.counted, room)))
        (λ (ns, t, used) ((table', reads, grown), (free, sound, left)).
          let none_left : used ≡ 0 = omega (arith, left, actions.counted) in
          let counted_down : (used == 0) ≡ true = ground arith in
          rw counted_down (
            (
              record {
                table = table';
                actions =
                    subst (λ k. IsBucket opt (record { used = k; nodes = ns })) (sym none_left)
                      (Free-IsBucket opt ns free sound);
                apart = λ q some_delayed. absurd (some_delayed (lookup-Free opt q ns free));
                settled = λ _. none_left;
                not_rehashing = idle;
              },
              λ q. ground (arith, reads q, apart q, lookup-Free opt q ns free),
            ),
            omega (arith, grown.0, actions.counted, room),
          ))

  -- `fhash_iter_release` on a well-formed table with one or more iterators, and room to count
  -- the delayed nodes too, is defined. It keeps the table well formed and keeps the value of
  -- every key, for the last iterator, when the delayed nodes move into the table and a rehash
  -- may follow, and for one before it.
  pub iter_release_lem :
      (h : Fhash)
      → IsFhash opt h
      → 0 < h.iter_refs
      → h.iter_refs < 2 ^ 32
      → h.current.slots_used + h.delayed.used < size_max
      → Ensures (Kept opt h) (iter_release opt h)
  unfolding iter_release release_with
  iter_release_lem h is pos small room =
      let h' = record h { iter_refs = (h.iter_refs + 2 ^ 32 - 1) % 2 ^ 32 } in
      Ensures-if (Kept opt h) (ltb 0 h'.iter_refs) _ _
        (λ more. (
          record {
            table = is.table;
            actions = is.actions;
            apart = is.apart;
            settled = λ none_left. absurd (ground arith);
            not_rehashing = is.not_rehashing;
          },
          λ q. refl,
        ))
        (λ last.
          Ensures-bind (Kept opt h) (perform_actions opt h') _
            (perform_actions_lem h' is.table is.actions is.apart is.not_rehashing room)
            (λ h'' ((is'', same), room'').
              Ensures-if (Kept opt h) h''.auto_rehash _ _
                (λ _.
                  Ensures-mono (Kept opt h) (try_rehash opt h'') (try_rehash_lem h'' is'' room'')
                    (λ r (is_r, same_r). (is_r, λ q. same_r q ∙ same q)))
                (λ _. (is'', same))))
