-- ===== src/Timer/Service.antt =====
-- fev/fev_timer_service.c: the calls of a user. What `clock_gettime` answers is an argument, `none`
-- for a failure. A pointer to a timer that is NULL is `none`; the timers have an owner.
use final_libs.Prelude.{
  ℕ, ltb, ◌<◌, ◌+◌, ◌-◌, ◌^◌, ◌≡◌, ◌≢◌, refl, ap, ◌∙◌, Bool, true, false, not, ◌||◌, Option, none,
  some, List, [], ◌∷◌, ◌++◌, arith, leb, if◌then◌else◌, ◌>>=◌, ℤ, pos, negsuc, is_negative, abs,
  sub, minus_one, Ensures, Ensures-bind, Ensures-both,
}
use final_libs.Dlist.Cells.{DNode, Ptr, put_node, write, write_self, write-other}
use final_libs.Dlist.Inv.{IsStore, put}
use final_libs.Dlist.Push.{push_lem}
use final_libs.Dlist.Kept.{SameInfo, push-SameInfo, put_free-IsStore}
use final_libs.Dlist.{push}
use final_libs.Timer.{
  Timers, Timer, Time, Callback, time_ms, long, deadline, process, add, put_timer, new_timer,
  timer_of,
}

-- LONG_MIN
abbrev pub long_min : ℤ
long_min = negsuc (2 ^ 63 - 1)

-- `_process_expired` when the clock answers; it aborts if not.
unfoldable pub process_expired : ℕ → Callback → Option Time → Timers → Option (ℕ × Timers)
process_expired fuel call clock s = do now ← clock; process fuel call now 0 s

-- `fev_tmsvc_timer_add` in the blocks `a` for the node and `p` for the timer
unfoldable pub timer_add : Timers → ℕ → ℕ → Option Time → ℤ → ℤ → Bool → ℕ → Option (Ptr × Timers)
timer_add s a p clock delay interval cb arg =
    if is_negative delay || (is_negative interval || not cb) then some (none, s) else elim clock [
      | none ↦ some (none, s)
      | some now ↦ (do
        s' ←
            add
              (new_timer s p (record {
                start = now;
                cb = cb;
                arg = arg;
                interval = abs interval;
                expiration = abs delay;
                valid = true;
                triggered = false;
              }))
              a p
        some (some p, s'))
    ]

-- `fev_tmsvc_timer_del`, and `_del`. A timer that is freed cannot be read or written.
unfoldable pub timer_del : Timers → Ptr → Option (ℕ × Timers)
timer_del s none = some (1, s)
timer_del s (some p) = do t ← timer_of s p; some (0, put_timer s p (record t { valid = false }))

-- `fev_tmsvc_timer_reset`
unfoldable pub timer_reset : Timers → Ptr → Option Time → Option (ℕ × Timers)
timer_reset s none clock = some (1, s)
timer_reset s (some p) none = timer_of s p >>= λ _. some (1, s)
timer_reset s (some p) (some now) = do
  t ← timer_of s p
  some (0, put_timer s p (record t { start = now }))

-- `fev_tmsvc_timer_resetn`
unfoldable pub timer_resetn : Timers → Ptr → Option Time → ℤ → Option (ℕ × Timers)
timer_resetn s none clock expiration = some (1, s)
timer_resetn s (some p) clock (negsuc n) = timer_of s p >>= λ _. some (1, s)
timer_resetn s (some p) none (pos n) = timer_of s p >>= λ _. some (1, s)
timer_resetn s (some p) (some now) (pos n) = do
  t ← timer_of s p
  some (0, put_timer s p (record t { start = now; expiration = n }))

unfoldable pub timer_valid : Timers → Ptr → Option Bool
timer_valid s none = some false
timer_valid s (some p) = do t ← timer_of s p; some t.valid

unfoldable pub timer_starttime : Timers → Ptr → Option ℤ
timer_starttime s none = some minus_one
timer_starttime s (some p) = do
  t ← timer_of s p
  start_ms ← long (time_ms t.start)
  some (pos start_ms)

-- `fev_tmsvc_timer_remaining`, which aborts if the clock fails
unfoldable pub timer_remaining : Timers → Ptr → Option Time → Option ℤ
timer_remaining s none clock = some long_min
timer_remaining s (some p) clock = do
  t ← timer_of s p
  now ← clock
  now_ms ← long (time_ms now)
  end_ms ← deadline t
  some (sub end_ms now_ms)

unfoldable pub timer_expiration : Timers → Ptr → Option ℤ
timer_expiration s none = some minus_one
timer_expiration s (some p) = do t ← timer_of s p; some (pos t.expiration)

unfoldable pub timer_interval : Timers → Ptr → Option ℤ
timer_interval s none = some minus_one
timer_interval s (some p) = do t ← timer_of s p; some (pos t.interval)

unfoldable pub timer_data : Timers → Ptr → Option ℕ
timer_data s none = some 0
timer_data s (some p) = do t ← timer_of s p; some t.arg

sub_self : (n d : ℕ) → sub (n + d) n ≡ pos d
sub_self n d = let le : leb n (n + d) ≡ true = ground arith in rw le (ap pos (omega arith))

-- The service after a timer is added: the node `a` leads to it, at the end of the list.
pub record TimerAdded (e : ℕ → ℕ) (s : Timers) (f : ℕ → List ℕ) (a p delay : ℕ) (now : Time)
    (r : Ptr × Timers) : Type 0 where
  pub handle : r.0 ≡ some p
  pub lists : IsStore e r.1.store (put f s.timer_list (f s.timer_list ++ a ∷ []))
  pub leads : (r.1.store.nodes a).user_data ≡ p
  pub remaining : timer_remaining r.1 r.0 (some now) ≡ some (pos delay)
  pub valid : timer_valid r.1 r.0 ≡ some true
  pub others : (q : ℕ) → q ≢ p → r.1.timers q ≡ s.timers q
  pub others_lead : (b : ℕ) → b ≢ a → (r.1.store.nodes b).user_data ≡ (s.store.nodes b).user_data

-- `fev_tmsvc_timer_add` on well-formed lists, with times that are not negative, of which the
-- interval and the end in milliseconds fit a `long`, a callback, a clock that answers and a node
-- that is in no list is defined. It returns the new timer, which is valid and has the delay as
-- its remaining time; its node is at the end of the list, and no other timer or node leads
-- elsewhere.
pub timer_add_lem :
    {e : ℕ → ℕ} {f : ℕ → List ℕ} (s : Timers) (a p : ℕ) (now : Time) (delay interval arg : ℕ)
    → IsStore e s.store f
    → (s.store.nodes a).owner ≡ none
    → time_ms now + delay < 2 ^ 63
    → interval < 2 ^ 63
    → Ensures
        (TimerAdded e s f a p delay now)
        (timer_add s a p (some now) (pos delay) (pos interval) true arg)
unfolding timer_add add timer_remaining timer_valid
timer_add_lem {e} {f} s a p now delay interval arg is free fits _ =
    let t : Timer = record {
      start = now;
      cb = true;
      arg = arg;
      interval = interval;
      expiration = delay;
      valid = true;
      triggered = false;
    } in
    let n : DNode = record {
      prev = none;
      next = none;
      owner = none;
      data_size = 64;
      user_data = p;
    } in
    let s1 = put_node s.store a n in
    let now_fits : ltb (time_ms now) (2 ^ 63) ≡ true = ground (arith, fits) in
    let end_fits : ltb (time_ms now + delay) (2 ^ 63) ≡ true = ground (arith, fits) in
    let remaining : (do now_ms ← long (time_ms now); end_ms ← deadline t; some (sub end_ms now_ms))
        ≡ some (pos delay) =
      rw (now_fits, end_fits) (ap some (sub_self (time_ms now) delay)) in
    let stored = write_self s.store.nodes a n in
    let made = write_self s.timers p t in
    let is1 = put_free-IsStore a n is free refl in
    let free1 : (s1.nodes a).owner ≡ none = ap (λ m. m.owner) stored in
    let l = s.timer_list in
    let P = TimerAdded e s f a p delay now in
    let Q = λ (s' : Timers).
      IsStore e s'.store (put f l (f l ++ a ∷ []))
      × SameInfo s1 s'.store
      × (s'.timers ≡ write s.timers p t)
      × (s'.freed ≡ write s.freed p false) in
    let added = record (new_timer s p t) { store = s1 } in
    Ensures-bind {P = Q} P (push s1 l a >>= λ store. some (record added { store = store }))
      (λ s'. some (some p, s'))
      (Ensures-bind {P = λ store. IsStore e store (put f l (f l ++ a ∷ [])) × SameInfo s1 store} Q
        (push s1 l a) (λ store. some (record added { store = store }))
        (Ensures-both _ _ (push s1 l a) (push_lem l a is1 free1) (push-SameInfo l a (is1 l) free1))
        (λ store (lists, info). (lists, info, refl, refl)))
      (λ s' (lists, info, timers, freed).
        let here : timer_of s' p ≡ some t =
          rw (ap (λ fr. fr p) freed ∙ write_self s.freed p false)
            (ap some (ap (λ tm. tm p) timers ∙ made)) in
        record {
          handle = refl;
          lists = lists;
          leads = (info a).0 ∙ ap (λ m. m.user_data) stored;
          remaining =
              ap
                (λ o. o >>= λ x. long (time_ms now) >>= λ now_ms.
                  deadline x >>= λ end_ms. some (sub end_ms now_ms))
                here
              ∙ remaining;
          valid = ap (λ o. o >>= λ x. some x.valid) here;
          others = λ q ne. ap (λ tm. tm q) timers ∙ write-other s.timers p t q ne;
          others_lead =
              λ b ne. (info b).0 ∙ ap (λ m. m.user_data) (write-other s.store.nodes a n b ne);
        })
