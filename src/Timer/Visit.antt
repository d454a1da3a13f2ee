-- ===== src/Timer/Visit.antt =====
-- fev/fev_tmsvc_sl_mod.c: a visit of one node by `_process`, for callbacks that change timers only.
use final_libs.Prelude.{
  ℕ, ◌≡◌, refl, sym, subst, Bool, true, false, not, ◌||◌, Option, none, some, List, [], ◌∷◌, ◌++◌,
  ltb, ◌==◌, if◌then◌else◌, ◌>>=◌, inl, inr, Bool-cases, Ensures, Ensures-bind, Ensures-both,
  Agrees, Agrees-bind, Agrees-some,
}
use final_libs.Dlist.Cells.{write}
use final_libs.Dlist.Inv.{IsStore, put}
use final_libs.Dlist.Push.{push_lem}
use final_libs.Dlist.Kept.{SameInfo, push-SameInfo}
use final_libs.Dlist.{push}
use final_libs.Timer.{
  Timers, Timer, Time, Callback, timer_of, put_timer, timeout, rearm, destroy_timer, fire_timer,
  visit,
}

-- what a callback does to the timers that are not freed, given its argument; a use of a freed timer
-- is undefined
abbrev pub Effect : Type 0
Effect = ℕ → (ℕ → Bool) → (ℕ → Timer) → Option (ℕ → Timer)

-- Callbacks change timers, as fev_tmsvc_timer_del and _reset do, and leave the lists alone.
abbrev pub ActsAs : Callback → Effect → Type 0
ActsAs call effect =
    (arg : ℕ) (s : Timers)
    → call arg s ≡ (effect arg s.freed s.timers >>= λ tm. some (record s { timers = tm }))

-- what becomes of one timer: whether it fires, whether its node stays, and the timers then
pub record Outcome : Type 0 where
  pub fired : Bool
  pub stays : Bool
  pub timers : ℕ → Timer
  pub freed : ℕ → Bool

abbrev pub fire : Effect → ℕ → (ℕ → Timer) → (ℕ → Bool) → Option (ℕ → Timer)
fire effect p tm freed = do
  tm' ← effect (tm p).arg freed tm
  t ← rearm (tm' p)
  some (write tm' p t)

abbrev pub settled : Bool → ℕ → (ℕ → Timer) → (ℕ → Bool) → Outcome
settled fired p tm freed =
    let stays = ltb 0 (tm p).interval || not fired in
    record {
      fired = fired;
      stays = stays;
      timers = tm;
      freed = if stays then freed else write freed p true;
    }

abbrev pub outcome : Effect → Time → ℕ → (ℕ → Timer) → (ℕ → Bool) → Option Outcome
outcome effect now p tm freed =
    if p == 0
    then some (record { fired = false; stays = false; timers = tm; freed = freed })
    else if freed p
    then none
    else if not (tm p).valid || not (tm p).cb
    then some (record { fired = false; stays = false; timers = tm; freed = write freed p true })
    else if timeout (tm p) now
    then (fire effect p tm freed >>= λ tm'. some (settled true p tm' freed))
    else some (settled false p tm freed)

-- the service after a visit of the node `a`
pub record Visited (e : ℕ → ℕ) (s : Timers) (f : ℕ → List ℕ) (a : ℕ) (o : Outcome)
    (r : Bool × Timers) : Type 0 where
  pub fired : r.0 ≡ o.fired
  pub lists :
      IsStore e r.1.store (if o.stays then put f s.backup_list (f s.backup_list ++ a ∷ []) else f)
  pub info : SameInfo s.store r.1.store
  pub timers : r.1.timers ≡ o.timers
  pub freed : r.1.freed ≡ o.freed
  pub destroyed : r.1.destroyed ≡ (if o.stays then s.destroyed else s.destroyed ++ a ∷ [])
  pub timer_list : r.1.timer_list ≡ s.timer_list
  pub backup_list : r.1.backup_list ≡ s.backup_list

-- the node is destroyed
ended :
    {e : ℕ → ℕ} {f : ℕ → List ℕ} (a : ℕ) (s : Timers) (fired : Bool) (tm : ℕ → Timer)
    (freed : ℕ → Bool)
    → IsStore e s.store f
    → Visited e s f a
        (record { fired = fired; stays = false; timers = tm; freed = freed })
        (fired, record s { timers = tm; destroyed = s.destroyed ++ a ∷ []; freed = freed })
ended a s fired tm freed is = record {
  fired = refl;
  lists = is;
  info = λ b. (refl, refl);
  timers = refl;
  freed = refl;
  destroyed = refl;
  timer_list = refl;
  backup_list = refl;
}

-- the end of a visit: the node goes to the backup list, or is destroyed
settle :
    {e : ℕ → ℕ} {f : ℕ → List ℕ} (a : ℕ) (s : Timers) (fired : Bool) (stays : Bool) (tm : ℕ → Timer)
    → let p = (s.store.nodes a).user_data in
      let freed = if stays then s.freed else write s.freed p true in
      IsStore e s.store f
      → (s.store.nodes a).owner ≡ none
      → (p == 0) ≡ false
      → s.freed p ≡ false
      → Ensures
          (Visited e s f a (record { fired = fired; stays = stays; timers = tm; freed = freed }))
          (if stays
            then (push s.store s.backup_list a >>= λ store.
                some (fired, record s { timers = tm; store = store }))
            else (destroy_timer (record s { timers = tm }) a >>= λ s'. some (fired, s')))
settle {e} {f} a s fired false tm is free there alive =
    rw (there, alive) (ended a s fired tm (write s.freed (s.store.nodes a).user_data true) is)
settle {e} {f} a s fired true tm is free there alive =
    let b = s.backup_list in
    Ensures-bind {P = λ s'. IsStore e s' (put f b (f b ++ a ∷ [])) × SameInfo s.store s'}
      (Visited e s f a (record { fired = fired; stays = true; timers = tm; freed = s.freed }))
      (push s.store b a) (λ store. some (fired, record s { timers = tm; store = store }))
      (Ensures-both _ _ (push s.store b a) (push_lem b a is free) (push-SameInfo b a (is b) free))
      (λ store (lists, info). record {
        fired = refl;
        lists = lists;
        info = info;
        timers = refl;
        freed = refl;
        destroyed = refl;
        timer_list = refl;
        backup_list = refl;
      })

fire_timer-fire :
    (call : Callback) (effect : Effect) (p : ℕ) (s : Timers)
    → ActsAs call effect
    → s.freed p ≡ false
    → Agrees
        (λ tm r. r ≡ record s { timers = tm })
        (fire effect p s.timers s.freed)
        (fire_timer call p s)
fire_timer-fire call effect p s acts alive =
    rw acts (rest (effect (s.timers p).arg s.freed s.timers))
  where
    wrote :
        (tm : ℕ → Timer) (o : Option Timer)
        → Agrees
            (λ tm' r. r ≡ record s { timers = tm' })
            (o >>= λ t. some (write tm p t))
            (o >>= λ t. some (put_timer (record s { timers = tm }) p t))
    wrote tm none = tt
    wrote tm (some t) = refl

    rest :
        (o : Option (ℕ → Timer))
        → Agrees
            (λ tm r. r ≡ record s { timers = tm })
            (o >>= λ tm. rearm (tm p) >>= λ t. some (write tm p t))
            ((o >>= λ tm. some (record s { timers = tm })) >>= λ s'.
              timer_of s' p >>= λ t. rearm t >>= λ t'. some (put_timer s' p t'))
    rest none = tt
    rest (some tm) = rw alive (wrote tm (rearm (tm p)))

module _ {e : ℕ → ℕ} {f : ℕ → List ℕ} (call : Callback) (effect : Effect) (now : Time)
    (acts : ActsAs call effect) where
  -- the part of a visit behind the callback
  settled_lem :
      (fired : Bool) (a : ℕ) (s : Timers) (tm : ℕ → Timer)
      → let p = (s.store.nodes a).user_data in
        let s1 = record s { timers = tm } in
        IsStore e s.store f
        → (s.store.nodes a).owner ≡ none
        → (p == 0) ≡ false
        → s.freed p ≡ false
        → Agrees (Visited e s f a) (some (settled fired p tm s.freed)) (
            timer_of s1 p >>= λ t1.
            if ltb 0 t1.interval || not fired
            then (push s.store s.backup_list a >>= λ store.
                some (fired, record s1 { store = store }))
            else (destroy_timer s1 a >>= λ s2. some (fired, s2)))
  settled_lem fired a s tm is free there alive =
      let p = (s.store.nodes a).user_data in
      let stays = ltb 0 (tm p).interval || not fired in
      let call =
        if stays
        then (push s.store s.backup_list a >>= λ store.
            some (fired, record s { timers = tm; store = store }))
        else (destroy_timer (record s { timers = tm }) a >>= λ s'. some (fired, s')) in
      let done : Agrees (Visited e s f a) (some (settled fired p tm s.freed)) call =
        Agrees-some (Visited e s f a) (settled fired p tm s.freed) call
          (settle a s fired stays tm is free there alive) in
      subst
        (λ b. Agrees (Visited e s f a) (some (settled fired p tm s.freed)) (
          (if b then none else some (tm p)) >>= λ t1.
          if ltb 0 t1.interval || not fired
          then (push s.store s.backup_list a >>= λ store.
              some (fired, record s { timers = tm; store = store }))
          else (destroy_timer (record s { timers = tm }) a >>= λ s'. some (fired, s'))))
        (sym alive) done

  fired_lem :
      (a : ℕ) (s : Timers)
      → let p = (s.store.nodes a).user_data in
        IsStore e s.store f
        → (s.store.nodes a).owner ≡ none
        → (p == 0) ≡ false
        → s.freed p ≡ false
        → Agrees
            (Visited e s f a)
            (fire effect p s.timers s.freed >>= λ tm'. some (settled true p tm' s.freed))
            (fire_timer call p s >>= λ s1. timer_of s1 p >>= λ t1.
              if ltb 0 t1.interval || false
              then (push s1.store s1.backup_list a >>= λ store.
                  some (true, record s1 { store = store }))
              else (destroy_timer s1 a >>= λ s2. some (true, s2)))
  fired_lem a s is free there alive =
      let p = (s.store.nodes a).user_data in
      Agrees-bind (Visited e s f a) (fire effect p s.timers s.freed) (fire_timer call p s) _ _
        (fire_timer-fire call effect p s acts alive)
        (λ tm s1 same. rw same (settled_lem true a s tm is free there alive))

  -- The visit is defined exactly if the outcome is.
  pub visit_lem :
      (a : ℕ) (s : Timers)
      → IsStore e s.store f
      → (s.store.nodes a).owner ≡ none
      → Agrees
          (Visited e s f a)
          (outcome effect now (s.store.nodes a).user_data s.timers s.freed)
          (visit call now a s)
  unfolding visit
  visit_lem a s is free =
      let p = (s.store.nodes a).user_data in
      let t = s.timers p in
      elim (Bool-cases (p == 0)) [
        | inl nothing ↦ rw nothing (ended a s false s.timers s.freed is)
        | inr there ↦ elim (Bool-cases (s.freed p)) [
          | inl gone ↦ rw (there, gone) tt
          | inr alive ↦ elim (Bool-cases (not t.valid || not t.cb)) [
            | inl dead ↦
                rw (there, alive, dead) (ended a s false s.timers (write s.freed p true) is)
            | inr on ↦ elim (Bool-cases (timeout t now)) [
              | inl due ↦ rw (there, alive, on, due) (fired_lem a s is free there alive)
              | inr early ↦
                  rw (there, alive, on, early) (settled_lem false a s s.timers is free there alive)
            ]
          ]
        ]
      ]
