-- ===== src/Hash/Api/Frame.antt =====
-- fhash/fhash_core.c, OPEN API: what the calls do to the iterators and to the count of the nodes.
use final_libs.Prelude.{
  ℕ, ◌+◌, ◌-◌, ◌^◌, ◌%◌, ◌≤◌, ◌≡◌, refl, Bool, true, false, ◌&&◌, Option, none, some, arith, ltb,
  ◌==◌, if◌then◌else◌, guard, Gives, Gives-if, Gives-some, Gives-bind, get_elem?,
}
use final_libs.Hash.Node.{Bytes}
use final_libs.Hash.Opt.{Opt}
use final_libs.Hash.Mgr.{Mgr, mgr_del}
use final_libs.Hash.Table.{
  Table, tbl_fetch_and_del, fetch_found, locate, count_removed, tbl_set, tbl_create,
}
use final_libs.Hash.Core.{
  Fhash, try_rehash, rehash_to, release_with, perform_actions, try_nested, can_rehash, need_rehash,
  rehash_size, iter_new, migrate, rounds, perform_nodes,
}
use final_libs.Hash.Api.{is_null, create, set_now, fetch_and_del}

-- A call leaves no iterator.
abbrev pub IsIdle : Fhash → Type 0
IsIdle h = h.iter_refs ≡ 0

perform_actions-IsIdle : (opt : Opt) (h : Fhash) → IsIdle h → Gives IsIdle (perform_actions opt h)
unfolding perform_actions
perform_actions-IsIdle opt h idle =
    Gives-bind IsIdle (perform_nodes opt h.delayed.nodes h.current h.delayed.used) _
      (λ (ns, t, used) _. Gives-bind IsIdle (guard (used == 0)) _ (λ u _. Gives-some IsIdle _ idle))

try_nested-IsIdle : (h : Fhash) → IsIdle h → Gives IsIdle (try_nested h)
unfolding try_nested
try_nested-IsIdle h idle =
    Gives-if IsIdle (can_rehash h) _ _ (λ _ a e. absurd (ground (arith, e)))
      (λ _. Gives-some IsIdle h idle)

release-IsIdle :
    (opt : Opt) (h : Fhash) → h.iter_refs ≡ 1 → Gives IsIdle (release_with try_nested opt h)
unfolding release_with
release-IsIdle opt h one =
    let h' = record h { iter_refs = (h.iter_refs + 2 ^ 32 - 1) % 2 ^ 32 } in
    let idle : h'.iter_refs ≡ 0 = omega (arith, one) in
    Gives-if IsIdle (ltb 0 h'.iter_refs) _ _ (λ _. Gives-some IsIdle h' idle)
      (λ _. Gives-bind IsIdle (perform_actions opt h') _ (λ h'' e.
        let idle' = perform_actions-IsIdle opt h' idle h'' e in
        Gives-if IsIdle h''.auto_rehash _ _ (λ _. try_nested-IsIdle h'' idle')
          (λ _. Gives-some IsIdle h'' idle')))

rehash_to-IsIdle :
    (opt : Opt) (h : Fhash) (size : ℕ) → IsIdle h → Gives IsIdle (rehash_to opt h size)
unfolding rehash_to iter_new
rehash_to-IsIdle opt h size idle = Gives-bind IsIdle (guard (h.iter_refs == 0)) _ (λ u _.
    Gives-bind IsIdle (tbl_create size) _ (λ new _.
      Gives-bind IsIdle (migrate (rounds h.current.mgrs) opt h.current 0 0 new) _ (λ (old', new') _.
        let nested = record h {
          iter_refs = (h.iter_refs + 1) % 2 ^ 32;
          rehashing = true;
          current = old';
        } in
        Gives-bind IsIdle (release_with try_nested opt nested) _
          (λ h'' e. Gives-some IsIdle _ (release-IsIdle opt nested (omega (arith, idle)) h'' e)))))

try_rehash-IsIdle : (opt : Opt) (h : Fhash) → IsIdle h → Gives IsIdle (try_rehash opt h)
unfolding try_rehash
try_rehash-IsIdle opt h idle =
    Gives-if IsIdle (can_rehash h && need_rehash h.current) _ _
      (λ _. rehash_to-IsIdle opt h (rehash_size h.current) idle) (λ _. Gives-some IsIdle h idle)

pub create-IsIdle : (init_size : ℕ) (auto : Bool) → Gives IsIdle (create init_size auto)
unfolding create
create-IsIdle init_size auto =
    Gives-bind IsIdle (tbl_create (if init_size == 0 then 10 else init_size)) _
      (λ t _. Gives-some IsIdle _ refl)

-- Without an iterator `fhash_set` leaves none.
pub set_now-IsIdle :
    (fresh : ℕ → ℕ) (opt : Opt) (h : Fhash) (key value : Bytes)
    → IsIdle h
    → Gives IsIdle (set_now fresh opt h key value)
unfolding set_now
set_now-IsIdle fresh opt h key value idle =
    Gives-bind IsIdle (tbl_set fresh opt h.current key value) _ (λ t _.
      Gives-if IsIdle h.auto_rehash _ _ (λ _. try_rehash-IsIdle opt (record h { current = t }) idle)
        (λ _. Gives-some IsIdle _ idle))

-- what `fhash_fetch_and_del` leaves of the iterators and of the count of nodes
abbrev pub Fewer : Fhash → Option Bytes × Fhash → Type 0
Fewer h (out, h') = (h'.iter_refs ≡ h.iter_refs) × (h'.current.slots_used ≤ h.current.slots_used)

abbrev FewerNodes : Table → Option Bytes × Table → Type 0
FewerNodes t (out, t') = t'.slots_used ≤ t.slots_used

fetch_found-FewerNodes :
    (t : Table) (value_sz i : ℕ) (m : Mgr) (found : Option ℕ)
    → Gives (FewerNodes t) (fetch_found t value_sz i m found)
unfolding fetch_found count_removed
fetch_found-FewerNodes t value_sz i m none = Gives-some (FewerNodes t) (none, t) (omega arith)
fetch_found-FewerNodes t value_sz i m (some j) =
    Gives-bind (FewerNodes t) (get_elem? m.nodes j) _ (λ node _.
      Gives-bind (FewerNodes t) (mgr_del m j) _ (λ m' _.
        let fewer : t.slots_used - 1 ≤ t.slots_used = omega arith in
        Gives-some (FewerNodes t) _ fewer))

pub fetch_and_del-Fewer :
    (opt : Opt) (h : Fhash) (key : Bytes) (value_sz : ℕ)
    → (value_sz == 0) ≡ false
    → Gives (Fewer h) (fetch_and_del opt h key value_sz)
unfolding fetch_and_del tbl_fetch_and_del
fetch_and_del-Fewer opt h key value_sz room = rw room (
    Gives-if (Fewer h) (is_null key) _ _ (λ _. Gives-some (Fewer h) (none, h) (refl, omega arith))
      (λ _.
        Gives-bind (Fewer h) (tbl_fetch_and_del opt h.current key value_sz) _
          (λ r e. Gives-some (Fewer h) _ (refl, fetched r e))))
  where
    fetched : Gives (FewerNodes h.current) (tbl_fetch_and_del opt h.current key value_sz)
    fetched =
        Gives-bind (FewerNodes h.current) (locate opt h.current key) _
          (λ (i, m, found) _. fetch_found-FewerNodes h.current value_sz i m found)
