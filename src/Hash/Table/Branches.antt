-- ===== src/Hash/Table/Branches.antt =====
-- fhash/fhash_core.c, TABLE: what each branch does to the bucket of the key.
use mathlib.Core.Option
use final_libs.Prelude.{
  ℕ, ◌+◌, ◌-◌, ◌<◌, ◌≤◌, ◌≡◌, ◌≢◌, refl, sym, ap, ◌∙◌, true, Option, none, some, arith,
  if◌then◌else◌, get_elem?, inl, inr, Bool-cases, Option-cases, length-set, All-get_elem?, Ensures,
  Ensures-bind, subst, take, ltb, ◌⊎◌, take_of_length_le,
}
use final_libs.Hash.Node.{Bytes, Node, node_key, node_value}
use final_libs.Hash.Node.Layout.{Sound, length-node_value}
use final_libs.Hash.Opt.{Opt, same, Lawful}
use final_libs.Hash.Mgr.{Mgr, find, mgr_add_node, mgr_move}
use final_libs.Hash.Mgr.Lookup.{lookup, hit, find-lookup, find-none}
use final_libs.Hash.Mgr.Inv.{IsBucket}
use final_libs.Hash.Mgr.Changes.{
  Changed, mgr_set_lem, mgr_add_lem, mgr_add_node_lem, mgr_move_lem, mgr_del_lem,
}
use final_libs.Hash.Table.{
  Table, index_size, calculate_idx, locate, put_bucket, count_added, count_removed, set_found,
  set_node_found, set_only_found, del_found, fetch_found,
}
use final_libs.Hash.Table.View.{
  IsTable, used-le-sum_used, view, view_congr, update, home-IsBucket, view-changed, IsTable-changed,
}

-- The result is a table that stands for the map `f`.
abbrev pub Stands : Opt → (Bytes → Option Bytes) → Table → Type 0
Stands opt f t' = IsTable opt t' × ((q : Bytes) → view opt t' q ≡ f q)

-- `_hash_tbl_set_only` binds a key that is there and answers 1, or changes nothing and answers 0.
abbrev pub SetOnly : Opt → Table → Bytes → Bytes → ℕ × Table → Type 0
SetOnly opt t key value (status, t') =
    ((view opt t key ≡ none) × (status ≡ 0) × (t' ≡ t))
    ⊎ (view opt t key ≢ none)
      × (status ≡ 1)
      × Stands opt (update opt (view opt t) key (some value)) t'

-- What `_hash_tbl_fetch_and_del` copies is the start of the value, and the key is gone.
abbrev pub Fetched : Opt → Table → Bytes → ℕ → Option Bytes × Table → Type 0
Fetched opt t key value_sz (out, t') =
    (out ≡ Option.map (take value_sz) (view opt t key))
    × Stands opt (update opt (view opt t) key none) t'

-- an addition: `slots_used` grows by 1 at most, and the buckets stay as many
abbrev pub Grown : ℕ → Table → Table → Type 0
Grown k t t' = (t'.slots_used ≤ t.slots_used + k) × (index_size t' ≡ index_size t)

module _ {opt : Opt} (law : Lawful opt) (t : Table) (is : IsTable opt t) (key : Bytes) where
  -- what the search in the bucket `m` says
  abbrev pub Found : Mgr → Option ℕ → Type 0
  Found m none = lookup opt key m.nodes ≡ none
  Found m (some j) =
      (n : Node) × (get_elem? m.nodes j ≡ some n)
      × (hit opt key n ≡ true)
      × (lookup opt key m.nodes ≡ some (node_value n))

  pub find-Found : (m : Mgr) → Found m (find opt true key m.nodes)
  find-Found m = elim (Option-cases (find opt true key m.nodes)) [
    | inl e ↦ rw e (find-none opt key m.nodes e)
    | inr (j, e) ↦ rw e (find-lookup opt key m.nodes e)
  ]

  pub locate_lem :
      (m : Mgr) × (locate opt t key ≡ some (calculate_idx opt t key, m, find opt true key m.nodes))
      × (get_elem? t.mgrs (calculate_idx opt t key) ≡ some m)
      × IsBucket opt m
      × (lookup opt key m.nodes ≡ view opt t key)
  unfolding locate
  locate_lem =
      let (m, at_home, b, value) = home-IsBucket law t is key in (m, rw at_home, at_home, b, value)

  module _ (m : Mgr) (at_home : get_elem? t.mgrs (calculate_idx opt t key) ≡ some m)
      (b : IsBucket opt m) where
    -- the bucket put back, with the counters of an addition, of a removal, or as they were
    abbrev pub Written : Option Bytes → Table → Type 0
    Written v = Stands opt (update opt (view opt t) key v)

    added :
        (v : Option Bytes) (m' : Mgr)
        → Changed opt key v (m.used + 1) m m'
        → Written v (count_added (put_bucket t (calculate_idx opt t key) m') m)
    unfolding count_added
    added v m' c =
        let t' = count_added (put_bucket t (calculate_idx opt t key) m') m in
        (
          IsTable-changed law t is key v (m.used + 1) m m' at_home c t' refl (omega arith),
          view-changed law t is key v (m.used + 1) m m' at_home c t' refl,
        )

    kept :
        (v : Option Bytes) (m' : Mgr)
        → Changed opt key v m.used m m'
        → Written v (put_bucket t (calculate_idx opt t key) m')
    kept v m' c =
        let t' = put_bucket t (calculate_idx opt t key) m' in
        (
          IsTable-changed law t is key v m.used m m' at_home c t' refl refl,
          view-changed law t is key v m.used m m' at_home c t' refl,
        )

    removed :
        (m' : Mgr)
        → Changed opt key none (m.used - 1) m m'
        → 0 < m.used
        → Written none (count_removed (put_bucket t (calculate_idx opt t key) m') m')
    unfolding count_removed
    removed m' c pos =
        let t' = count_removed (put_bucket t (calculate_idx opt t key) m') m' in
        let slots : t.slots_used - 1 + m.used ≡ t.slots_used + (m.used - 1) =
          omega (arith, is.counted, used-le-sum_used t.mgrs (calculate_idx opt t key) m at_home) in
        (
          IsTable-changed law t is key none (m.used - 1) m m' at_home c t' refl slots,
          view-changed law t is key none (m.used - 1) m m' at_home c t' refl,
        )

    abbrev pub Moved : Option Bytes → Table → Type 0
    Moved v t' = Written v t' × Grown 1 t t'

    pub set_found_lem :
        (fresh : ℕ → ℕ) (value : Bytes) (found : Option ℕ)
        → Found m found
        → Ensures
            (Moved (some value))
            (set_found fresh t key value (calculate_idx opt t key) m found)
    unfolding set_found count_added
    set_found_lem fresh value none h =
        Ensures-bind (Moved (some value)) _
          (λ m'. some (count_added (put_bucket t (calculate_idx opt t key) m') m))
          (mgr_add_lem fresh law m b key value h)
          (λ m' c. (
            added (some value) m' c,
            (omega arith, length-set t.mgrs (calculate_idx opt t key) m'),
          ))
    set_found_lem fresh value (some j) (n, at_j, hits, _) =
        Ensures-bind (Moved (some value)) _ (λ m'. some (put_bucket t (calculate_idx opt t key) m'))
          (mgr_set_lem fresh law m b j n key value at_j hits)
          (λ m' c.
            (kept (some value) m' c, (omega arith, length-set t.mgrs (calculate_idx opt t key) m')))

    pub set_node_found_lem :
        (node : Node) (found : Option ℕ)
        → Sound node
        → node.valid ≡ true
        → node_key node ≡ key
        → Found m found
        → Ensures
            (Moved (some (node_value node)))
            (set_node_found t node (calculate_idx opt t key) m found)
    unfolding set_node_found count_added
    set_node_found_lem node none sound valid is_key h =
        Ensures-bind (Moved (some (node_value node))) _
          (λ m'. some (count_added (put_bucket t (calculate_idx opt t key) m') m))
          (subst
            (λ k.
              Ensures (Changed opt k (some (node_value node)) (m.used + 1) m) (mgr_add_node m node))
            is_key
            (mgr_add_node_lem (λ _. 0) law m b node sound valid
              (subst (λ k. lookup opt k m.nodes ≡ none) (sym is_key) h)))
          (λ m' c. (
            added (some (node_value node)) m' c,
            (omega arith, length-set t.mgrs (calculate_idx opt t key) m'),
          ))
    set_node_found_lem node (some j) sound valid is_key (n, at_j, hits, _) =
        Ensures-bind (Moved (some (node_value node))) _
          (λ m'. some (put_bucket t (calculate_idx opt t key) m'))
          (subst
            (λ k. Ensures (Changed opt k (some (node_value node)) m.used m) (mgr_move m j node))
            is_key
            (mgr_move_lem (λ _. 0) law m b j n node at_j
              (subst (λ k. hit opt k n ≡ true) (sym is_key) hits) sound valid))
          (λ m' c. (
            kept (some (node_value node)) m' c,
            (omega arith, length-set t.mgrs (calculate_idx opt t key) m'),
          ))

    pub set_only_found_lem :
        (fresh : ℕ → ℕ) (value : Bytes) (found : Option ℕ)
        → Found m found
        → lookup opt key m.nodes ≡ view opt t key
        → Ensures
            (SetOnly opt t key value)
            (set_only_found fresh t key value (calculate_idx opt t key) m found)
    unfolding set_only_found
    set_only_found_lem fresh value none h same_view = inl (sym same_view ∙ h, refl, refl)
    set_only_found_lem fresh value (some j) (n, at_j, hits, here) same_view =
        Ensures-bind (SetOnly opt t key value) _
          (λ m'. some (1, put_bucket t (calculate_idx opt t key) m'))
          (mgr_set_lem fresh law m b j n key value at_j hits)
          (λ m' c. inr ((λ e. cc (sym here ∙ same_view ∙ e)), refl, kept (some value) m' c))

    -- where the key is not found, the map without it is the map
    without :
        lookup opt key m.nodes ≡ none → lookup opt key m.nodes ≡ view opt t key → Written none t
    without h same_view = (
      is,
      λ q. elim (Bool-cases (same opt key q)) [
        | inl e ↦ rw e (sym (view_congr law t is key q e) ∙ sym same_view ∙ h)
        | inr e ↦ rw e
      ],
    )

    pub del_found_lem :
        (found : Option ℕ)
        → Found m found
        → lookup opt key m.nodes ≡ view opt t key
        → Ensures (Written none) (del_found t (calculate_idx opt t key) m found)
    unfolding del_found
    del_found_lem none h same_view = without h same_view
    del_found_lem (some j) (n, at_j, hits, _) same_view =
        Ensures-bind {P = λ m'. Changed opt key none (m.used - 1) m m' × (0 < m.used)} _ _ _
          (mgr_del_lem (λ _. 0) law m b j n key at_j hits) (λ m' (c, pos). removed m' c pos)

    pub fetch_found_lem :
        (value_sz : ℕ) (found : Option ℕ)
        → Found m found
        → lookup opt key m.nodes ≡ view opt t key
        → Ensures
            (Fetched opt t key value_sz)
            (fetch_found t value_sz (calculate_idx opt t key) m found)
    unfolding fetch_found
    fetch_found_lem value_sz none h same_view =
        (ap (Option.map (take value_sz)) (sym h ∙ same_view), without h same_view)
    fetch_found_lem value_sz (some j) (n, at_j, hits, here) same_view =
        let sound = All-get_elem? Sound m.nodes j b.sound at_j in
        let all_bytes = length-node_value n sound (ground arith) in
        let copied : take (if ltb value_sz n.value_sz then value_sz else n.value_sz) (node_value n)
            ≡ take value_sz (node_value n) =
          ground (
            arith,
            all_bytes,
            take_of_length_le n.value_sz (node_value n),
            take_of_length_le value_sz (node_value n),
          ) in
        rw (at_j, copied)
          (Ensures-bind {P = λ m'. Changed opt key none (m.used - 1) m m' × (0 < m.used)} _ _ _
            (mgr_del_lem (λ _. 0) law m b j n key at_j hits)
            (λ m' (c, pos).
              (ap (Option.map (take value_sz)) (sym here ∙ same_view), removed m' c pos)))
