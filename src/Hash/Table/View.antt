-- ===== src/Hash/Table/View.antt =====
-- fhash/fhash_core.c: a table as a map from keys to values, and a change of one bucket.
use final_libs.Prelude.{
  ℕ, zero, suc, ◌+◌, ◌%◌, ◌≤◌, ◌<◌, ◌≡◌, ◌≢◌, sym, ap, subst, ◌∙◌, true, false, Option, none, some,
  List, [], ◌∷◌, arith, if◌then◌else◌, length, get_elem?, set, inl, inr, Bool-cases, All, All-set,
  All-get_elem?, length-set, get_elem?-set_self, get_elem?-set_ne, get_elem?-lt, lt_of_get_elem?,
  ◌>>=◌,
}
use native.Mathlib.Decide.{ℕ_discrete}
use final_libs.Hash.Node.{Bytes}
use final_libs.Hash.Opt.{Opt, same, Lawful}
use final_libs.Hash.Mgr.{Mgr}
use final_libs.Hash.Mgr.Lookup.{lookup}
use final_libs.Hash.Mgr.Inv.{IsBucket, lookup_congr}
use final_libs.Hash.Mgr.Changes.{Changed}
use final_libs.Hash.Table.{Table, index_size, calculate_idx}

unfoldable pub sum_used : List Mgr → ℕ
sum_used [] = 0
sum_used (m ∷ ms) = m.used + sum_used ms

-- Every bucket is one, a key is only in the bucket of its hash, and `slots_used` counts the nodes.
pub record IsTable (opt : Opt) (t : Table) : Type 0 where
  pub some_buckets : 0 < index_size t
  pub buckets : All (IsBucket opt) t.mgrs
  pub placed :
      (q : Bytes) (i : ℕ) (m : Mgr)
      → get_elem? t.mgrs i ≡ some m
      → calculate_idx opt t q ≢ i
      → lookup opt q m.nodes ≡ none
  pub counted : t.slots_used ≡ sum_used t.mgrs

-- the value of a key
unfoldable pub view : Opt → Table → Bytes → Option Bytes
view opt t q = get_elem? t.mgrs (calculate_idx opt t q) >>= λ m. lookup opt q m.nodes

-- the map with the key `k` changed to `v`
abbrev pub update : Opt → (Bytes → Option Bytes) → Bytes → Option Bytes → Bytes → Option Bytes
update opt f k v q = if same opt k q then v else f q

sum_used-set :
    (ms : List Mgr) (i : ℕ) (m m' : Mgr)
    → get_elem? ms i ≡ some m
    → sum_used (set ms i m') + m.used ≡ sum_used ms + m'.used
unfolding sum_used
sum_used-set [] i m m' h = absurd (ground arith)
sum_used-set (x ∷ ms) zero m m' h = ground arith
sum_used-set (x ∷ ms) (suc i) m m' h = ground (arith, sum_used-set ms i m m' h)

pub used-le-sum_used :
    (ms : List Mgr) (i : ℕ) (m : Mgr) → get_elem? ms i ≡ some m → m.used ≤ sum_used ms
unfolding sum_used
used-le-sum_used [] i m h = absurd (ground arith)
used-le-sum_used (x ∷ ms) zero m h = ground arith
used-le-sum_used (x ∷ ms) (suc i) m h = ground (arith, used-le-sum_used ms i m h)

module _ {opt : Opt} (law : Lawful opt) (t : Table) (is : IsTable opt t) where
  -- the bucket of a key
  pub home-IsBucket :
      (q : Bytes)
      → (m : Mgr) × (get_elem? t.mgrs (calculate_idx opt t q) ≡ some m)
        × IsBucket opt m
        × (lookup opt q m.nodes ≡ view opt t q)
  unfolding view
  home-IsBucket q =
      let (m, e) = get_elem?-lt t.mgrs (calculate_idx opt t q) (ground (arith, is.some_buckets)) in
      (m, e, All-get_elem? (IsBucket opt) t.mgrs _ is.buckets e, rw e)

  same-home : (k q : Bytes) → same opt k q ≡ true → calculate_idx opt t k ≡ calculate_idx opt t q
  same-home k q e = ap (λ h. h % index_size t) (law.hash_congr k q e)

  pub view_congr : (k q : Bytes) → same opt k q ≡ true → view opt t k ≡ view opt t q
  unfolding view
  view_congr k q e =
      let (m, at_home, b, value) = home-IsBucket k in
      sym value ∙ lookup_congr law k q m.nodes e ∙ rw (← same-home k q e, at_home)

  -- The home bucket of `key` is changed at `key` alone. The counters are the caller's.
  module _ (key : Bytes) (v : Option Bytes) (u : ℕ) (m m' : Mgr)
      (at_home : get_elem? t.mgrs (calculate_idx opt t key) ≡ some m)
      (changed : Changed opt key v u m m') (t' : Table)
      (mgrs : t'.mgrs ≡ set t.mgrs (calculate_idx opt t key) m') where
    abbrev home : ℕ
    home = calculate_idx opt t key

    same_size : index_size t' ≡ index_size t
    same_size = ap length mgrs ∙ length-set t.mgrs home m'

    same_idx : (q : Bytes) → calculate_idx opt t' q ≡ calculate_idx opt t q
    same_idx q = ap (λ n. opt.hash_alg q % n) same_size

    at_home' : get_elem? t'.mgrs home ≡ some m'
    at_home' =
        ap (λ ms. get_elem? ms home) mgrs
        ∙ get_elem?-set_self t.mgrs home m' (lt_of_get_elem? t.mgrs home m at_home)

    elsewhere : (j : ℕ) → home ≢ j → get_elem? t'.mgrs j ≡ get_elem? t.mgrs j
    elsewhere j ne = ap (λ ms. get_elem? ms j) mgrs ∙ get_elem?-set_ne t.mgrs home j m' ne

    away : (q : Bytes) → home ≢ calculate_idx opt t q → same opt key q ≡ false
    away q ne = elim (Bool-cases (same opt key q)) [
      | inl e ↦ absurd (ne (same-home key q e))
      | inr e ↦ e
    ]

    pub view-changed : (q : Bytes) → view opt t' q ≡ update opt (view opt t) key v q
    unfolding view
    view-changed q = elim (ℕ_discrete home (calculate_idx opt t q)) [
      | yes here ↦ rw (same_idx q, ← here, at_home', at_home) (changed.1 q)
      | no ne ↦ rw (same_idx q, elsewhere (calculate_idx opt t q) ne, away q ne)
    ]

    placed' :
        (q : Bytes) (i : ℕ) (x : Mgr)
        → get_elem? t'.mgrs i ≡ some x
        → calculate_idx opt t' q ≢ i
        → lookup opt q x.nodes ≡ none
    placed' q i x at_i ne = elim (ℕ_discrete home i) [
      | yes here ↦
          let bucket : m' ≡ x = cc at_home' in
          let apart : home ≢ calculate_idx opt t q = λ e. ne (same_idx q ∙ sym e ∙ here) in
          subst (λ y. lookup opt q y.nodes ≡ none) bucket
            (changed.1 q ∙ rw (away q apart) (is.placed q home m at_home (λ e. apart (sym e))))
      | no other ↦ is.placed q i x (sym (elsewhere i other) ∙ at_i) (λ e. ne (same_idx q ∙ e))
    ]

    pub IsTable-changed : t'.slots_used + m.used ≡ t.slots_used + u → IsTable opt t'
    IsTable-changed slots = record {
      some_buckets = rw same_size is.some_buckets;
      buckets = rw mgrs (All-set (IsBucket opt) t.mgrs home m' is.buckets changed.0);
      placed = placed';
      counted =
          omega
            (arith, is.counted, changed.2, ap sum_used mgrs, sum_used-set t.mgrs home m m' at_home);
    }
