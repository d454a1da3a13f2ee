-- ===== src/Timer/Fate.antt =====
-- fev/fev_tmsvc_sl_mod.c: which timers `_process` fires, keeps and destroys, when callbacks leave the
-- timers alone.
use final_libs.Prelude.{
  ℕ, suc, ◌≡◌, ◌≢◌, refl, sym, subst, ne_of_test, ap, ap₂, ◌∙◌, Bool, true, false, not, ◌&&◌, ◌||◌,
  List, [], ◌∷◌, ◌++◌, arith, ltb, ◌==◌, if◌then◌else◌, inl, inr, Bool-cases, length, Ensures,
  Ensures-bind, Agrees-Ensures, some, ◌>>=◌, All,
}
use final_libs.Dlist.Cells.{write, write_self, write-other}
use final_libs.Dlist.Chain.{has, has_self, has-later}
use final_libs.Dlist.Inv.{IsStore}
use final_libs.Timer.{Timers, Timer, Time, timeout, rearm, process}
use final_libs.Timer.Clock.{IsRearmable, rearm_interval}
use final_libs.Timer.Sweep.{Swept, sweep, add_outcome, process_lem}
use final_libs.Timer.Visit.{Effect, Outcome, settled, outcome}

-- the timers stay as they are
abbrev pub quiet : Effect
quiet arg freed tm = some tm

-- the timer at `p` is there, and has not been deleted
abbrev pub is_on : ℕ → Timer → Bool
is_on p t = not (p == 0 || (not t.valid || not t.cb))

-- it fires at `now`
abbrev pub fires : Time → ℕ → Timer → Bool
fires now p t = is_on p t && timeout t now

-- its node stays: it is periodic, or its time has not come
abbrev pub lives : Time → ℕ → Timer → Bool
lives now p t = is_on p t && (ltb 0 t.interval || not (timeout t now))

abbrev pub pick : (ℕ → Bool) → List ℕ → List ℕ
pick f [] = []
pick f (a ∷ xs) = let rest = pick f xs in if f a then a ∷ rest else rest

-- no two of the nodes lead to one timer
abbrev pub Apart : (ℕ → ℕ) → List ℕ → Type 0
Apart timer_at [] = Unit {0}
Apart timer_at (a ∷ xs) = ((b : ℕ) → has b xs ≡ true → timer_at b ≢ timer_at a) × Apart timer_at xs

-- a node leads to NULL, or to a timer that is not freed
abbrev pub IsHeld : (ℕ → Timer) → (ℕ → Bool) → ℕ → Type 0
IsHeld tm freed p = p ≢ 0 → (freed p ≡ false) × IsRearmable (tm p)

record Fate (now : Time) (p : ℕ) (tm : ℕ → Timer) (freed : ℕ → Bool) (o : Outcome) : Type 0 where
  fired : o.fired ≡ fires now p (tm p)
  stays : o.stays ≡ lives now p (tm p)
  others : (q : ℕ) → q ≢ p → o.timers q ≡ tm q
  others_held : (q : ℕ) → q ≢ p → o.freed q ≡ freed q

-- a timer that is on, with the timers after its callback
settled-Fate :
    (now : Time) (p : ℕ) (tm tm' : ℕ → Timer) (freed : ℕ → Bool) (fired : Bool)
    → is_on p (tm p) ≡ true
    → timeout (tm p) now ≡ fired
    → (tm' p).interval ≡ (tm p).interval
    → ((q : ℕ) → q ≢ p → tm' q ≡ tm q)
    → Fate now p tm freed (settled fired p tm' freed)
settled-Fate now p tm tm' freed fired on due same others = record {
  fired = rw (on, due) refl;
  stays = rw (on, due, same) refl;
  others = others;
  others_held = λ q ne. kept (ltb 0 (tm' p).interval || not fired) q ne;
}
  where
    kept : (b : Bool) (q : ℕ) → q ≢ p → (if b then freed else write freed p true) q ≡ freed q
    kept true q ne = refl
    kept false q ne = write-other freed p true q ne

outcome-Fate :
    (now : Time) (p : ℕ) (tm : ℕ → Timer) (freed : ℕ → Bool)
    → IsHeld tm freed p
    → Ensures (Fate now p tm freed) (outcome quiet now p tm freed)
outcome-Fate now p tm freed held = elim (Bool-cases (p == 0)) [
  | inl nothing ↦ rw nothing (record {
    fired = rw nothing refl;
    stays = rw nothing refl;
    others = λ q ne. refl;
    others_held = λ q ne. refl;
  })
  | inr there ↦
      let (alive, fits) = held (ne_of_test p 0 there) in
      elim (Bool-cases (not (tm p).valid || not (tm p).cb)) [
        | inl off ↦
            rw (there, alive, off)
              (record {
                fired = rw (there, off) refl;
                stays = rw (there, off) refl;
                others = λ q ne. refl;
                others_held = λ q ne. write-other freed p true q ne;
              })
        | inr on ↦
            let on' : is_on p (tm p) ≡ true = rw (there, on) refl in
            elim (Bool-cases (timeout (tm p) now)) [
              | inl due ↦
                  rw (there, alive, on, due)
                    (Ensures-bind (Fate now p tm freed) (rearm (tm p) >>= λ t. some (write tm p t))
                      _
                      (Ensures-bind {P = λ t. t.interval ≡ (tm p).interval}
                        (λ tm'.
                          ((tm' p).interval ≡ (tm p).interval) × ((q : ℕ) → q ≢ p → tm' q ≡ tm q))
                        (rearm (tm p)) _ (rearm_interval (tm p) fits)
                        (λ t same. (
                          ap (λ u. u.interval) (write_self tm p t) ∙ same,
                          λ q ne. write-other tm p t q ne,
                        )))
                      (λ tm' (same, others).
                        settled-Fate now p tm tm' freed true on' due same others))
              | inr early ↦
                  rw (there, alive, on, early)
                    (settled-Fate now p tm tm freed false on' early refl (λ q ne. refl))
            ]
      ]
]

module _ (now : Time) (timer_at : ℕ → ℕ) (tm0 : ℕ → Timer) where
  abbrev pub fires_at : ℕ → Bool
  fires_at a = fires now (timer_at a) (tm0 (timer_at a))

  abbrev pub lives_at : ℕ → Bool
  lives_at a = lives now (timer_at a) (tm0 (timer_at a))

  All-IsHeld :
      (xs : List ℕ) (freed freed' : ℕ → Bool)
      → All (λ a. IsHeld tm0 freed (timer_at a)) xs
      → ((b : ℕ) → has b xs ≡ true → freed' (timer_at b) ≡ freed (timer_at b))
      → All (λ a. IsHeld tm0 freed' (timer_at a)) xs
  All-IsHeld [] freed freed' held same = tt
  All-IsHeld (a ∷ xs) freed freed' (held, rest) same = (
    (λ there. (same a (has_self a xs) ∙ (held there).0, (held there).1)),
    All-IsHeld xs freed freed' rest (λ b there. same b (has-later b a xs there)),
  )

  -- what a sweep counts and keeps
  record Picked (xs : List ℕ) (w : Swept) : Type 0 where
    expired : w.expired ≡ length (pick fires_at xs)
    kept : w.kept ≡ pick lives_at xs
    dead : w.dead ≡ pick (λ a. not (lives_at a)) xs

  sweep_lem :
      (xs : List ℕ) (tm : ℕ → Timer) (freed : ℕ → Bool)
      → Apart timer_at xs
      → All (λ a. IsHeld tm0 freed (timer_at a)) xs
      → ((b : ℕ) → has b xs ≡ true → tm (timer_at b) ≡ tm0 (timer_at b))
      → Ensures (Picked xs) (sweep quiet now timer_at xs tm freed)
  sweep_lem [] tm freed apart held same = record { expired = refl; kept = refl; dead = refl }
  sweep_lem (a ∷ xs) tm freed (differ, apart) (held, rest_held) same =
      let p = timer_at a in
      let here = same a (has_self a xs) in
      let held' : IsHeld tm freed p =
        λ there. ((held there).0, subst IsRearmable (sym here) (held there).1) in
      Ensures-bind {P = Fate now p tm freed} (Picked (a ∷ xs)) (outcome quiet now p tm freed) _
        (outcome-Fate now p tm freed held')
        (λ o fate.
          Ensures-bind {P = Picked xs} (Picked (a ∷ xs))
            (sweep quiet now timer_at xs o.timers o.freed) (λ rest. some (add_outcome o a rest))
            (sweep_lem xs o.timers o.freed apart
              (All-IsHeld xs freed o.freed rest_held
                (λ b there. fate.others_held (timer_at b) (differ b there)))
              (λ b there.
                fate.others (timer_at b) (differ b there) ∙ same b (has-later b a xs there)))
            (λ w picked. record {
              expired =
                  ap₂ (λ b n. if b then suc n else n) (fate.fired ∙ ap (fires now p) here)
                    picked.expired
                  ∙ length_if (fires_at a) (pick fires_at xs);
              kept =
                  ap₂ (λ b zs. if b then a ∷ zs else zs) (fate.stays ∙ ap (lives now p) here)
                    picked.kept;
              dead =
                  ap₂ (λ b zs. if b then zs else a ∷ zs) (fate.stays ∙ ap (lives now p) here)
                    picked.dead
                  ∙ not_if (lives_at a) (pick (λ q. not (lives_at q)) xs);
            }))
    where
      length_if :
          (b : Bool) (zs : List ℕ)
          → (if b then suc (length zs) else length zs) ≡ length (if b then a ∷ zs else zs)
      length_if true zs = refl
      length_if false zs = refl

      not_if :
          (b : Bool) (zs : List ℕ) → (if b then zs else a ∷ zs) ≡ (if not b then a ∷ zs else zs)
      not_if true zs = refl
      not_if false zs = refl

-- what `_process` does to the nodes `xs` of a service
pub record Scanned (s : Timers) (now : Time) (xs : List ℕ) (r : ℕ × Timers) : Type 0 where
  pub expired : r.0 ≡ length (pick (fires_at now (λ a. (s.store.nodes a).user_data) s.timers) xs)
  pub lists : ℕ → List ℕ
  pub store : IsStore (λ _. 0) r.1.store lists
  pub waiting :
      lists r.1.timer_list ≡ pick (lives_at now (λ a. (s.store.nodes a).user_data) s.timers) xs
  pub backup_empty : lists r.1.backup_list ≡ []
  pub destroyed :
      r.1.destroyed
      ≡ s.destroyed
        ++ pick (λ a. not (lives_at now (λ b. (s.store.nodes b).user_data) s.timers a)) xs

-- `_process` on a service whose list holds the nodes `xs` and counts their bytes right, with an
-- empty backup list, nodes that lead to different timers, and callbacks that change nothing,
-- where no timer of the nodes is freed and its next period fits a `long`, is defined and ends
-- within one round for each node and one more. It counts as expired exactly the timers that are
-- valid, have a callback and have timed out. The nodes that wait for the next tick are, in their
-- order, those of valid timers with a callback that repeat or have not timed out; the others are
-- destroyed.
pub scan_lem :
    (now : Time) (xs : List ℕ) (s : Timers) (f : ℕ → List ℕ)
    → IsStore (λ _. 0) s.store f
    → f s.timer_list ≡ xs
    → f s.backup_list ≡ []
    → s.timer_list ≢ s.backup_list
    → Apart (λ a. (s.store.nodes a).user_data) xs
    → All (λ a. IsHeld s.timers s.freed (s.store.nodes a).user_data) xs
    → Ensures (Scanned s now xs) (process (suc (length xs)) (λ _ s'. some s') now 0 s)
scan_lem now xs s f is at_l at_b differ apart held =
    let timer_at = λ (a : ℕ). (s.store.nodes a).user_data in
    Agrees-Ensures (Scanned s now xs) (sweep quiet now timer_at xs s.timers s.freed)
      (process (suc (length xs)) (λ _ s'. some s') now 0 s)
      (process_lem (λ _ s'. some s') quiet now (λ _ _. refl) xs s f is at_l at_b differ)
      (sweep_lem now timer_at s.timers xs s.timers s.freed apart held (λ b _. refl))
      (λ w r done picked. record {
        expired = omega (arith, done.expired, picked.expired);
        lists = done.lists;
        store = done.store;
        waiting = ap done.lists done.swapped ∙ done.waiting ∙ picked.kept;
        backup_empty = ap done.lists done.swapped_back ∙ done.now_empty;
        destroyed = done.destroyed ∙ ap (λ zs. s.destroyed ++ zs) picked.dead;
      })
