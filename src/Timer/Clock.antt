-- ===== src/Timer/Clock.antt =====
-- fev/fev_tmsvc_modules.c: when `fev_tmmod_timeout` fires, and when a timer fires again.
use final_libs.Prelude.{
  ℕ, ◌+◌, ◌*◌, ◌≤◌, ◌<◌, ◌≡◌, refl, true, arith, ltb, ◌^◌, ◌/◌, ◌%◌, Ensures, Ensures-mono,
  Bool-cases, inl, inr,
}
use final_libs.Timer.{Time, Timer, timeout, rearm, ns_per_second, ns_per_ms, ms_per_second}

-- a time in nanoseconds
abbrev pub ns : Time → ℕ
ns t = t.sec * 1_000_000_000 + t.nsec

-- `fev_tmmod_timeout` is exact to a millisecond: with less than a second of nanoseconds in
-- `now`, it fires if the expiration has passed since the start, and does not fire a millisecond
-- or more before that.
pub timeout_lem :
    (t : Timer) (now : Time)
    → now.nsec < ns_per_second
    → (ns t.start + t.expiration * 1_000_000 ≤ ns now → timeout t now ≡ true)
      × (timeout t now ≡ true → ns t.start + t.expiration * 1_000_000 < ns now + 1_000_000)
unfolding timeout
timeout_lem t now normal = (λ late. ground (arith, normal, late), λ fired. ground (arith, fired))

-- the numbers of the next period are `long`s
abbrev pub IsRearmable : Timer → Type 0
IsRearmable t =
    (t.interval * ns_per_ms < 2 ^ 63)
    × (t.start.sec + t.interval / ms_per_second < 2 ^ 63)
    × (t.start.nsec + ns_per_second ≤ 2 ^ 63)

-- the tests of `rearm` for `long`
fits : (n : ℕ) → n < 2 ^ 63 → ltb n (2 ^ 63) ≡ true
fits n small = ground arith

-- A timer that repeats starts, after it has fired, exactly one interval later, however late it
-- fired, with the interval as its expiration; it stays valid.
pub rearm_lem :
    (t : Timer)
    → 0 < t.interval
    → IsRearmable t
    → Ensures
        (λ t'.
          (ns t'.start ≡ ns t.start + t.interval * 1_000_000)
          × (t'.expiration ≡ t.interval)
          × (t'.interval ≡ t.interval)
          × (t'.valid ≡ t.valid))
        (rearm t)
unfolding rearm
rearm_lem t some_interval (period, sec, nsec) =
    let on : ltb 0 t.interval ≡ true = ground arith in
    let sec' = fits (t.start.sec + t.interval / ms_per_second) sec in
    let period' = fits (t.interval * ns_per_ms) period in
    let nsec' =
      fits (t.start.nsec + (t.interval * ns_per_ms) % ns_per_second) (omega (arith, nsec)) in
    rw (on, sec', period', nsec') (omega arith, refl, refl, refl)

pub rearm_interval :
    (t : Timer) → IsRearmable t → Ensures (λ t'. t'.interval ≡ t.interval) (rearm t)
unfolding rearm
rearm_interval t long_enough = elim (Bool-cases (ltb 0 t.interval)) [
  | inl on ↦
      Ensures-mono (λ t'. t'.interval ≡ t.interval) (rearm t)
        (rearm_lem t (ground arith) long_enough) (λ t' (_, _, same, _). same)
  | inr off ↦ rw off refl
]
