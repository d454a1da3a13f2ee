-- ===== src/Timer.antt =====
-- fev/fev_tmsvc_modules.c and fev/fev_tmsvc_sl_mod.c: timers in a list that is scanned at each tick.
pub mod Clock
pub mod Walk
pub mod Visit
pub mod Sweep
pub mod Fate
pub mod Top
pub mod Service
mod Tests
use final_libs.Prelude.{
  ℕ, zero, suc, ◌+◌, ◌-◌, ◌*◌, ◌/◌, ◌%◌, Bool, true, false, not, ◌&&◌, ◌||◌, Option, none, some,
  List, [], ◌∷◌, ◌++◌, ltb, leb, ◌==◌, if◌then◌else◌, ◌>>=◌, ◌>>◌, guard, ◌^◌,
}
use final_libs.Dlist.Cells.{Store, Ptr, write}
use final_libs.Dlist.{pop, push, create}

abbrev pub ns_per_second : ℕ
ns_per_second = 1_000_000_000

abbrev pub ns_per_ms : ℕ
ns_per_ms = 1_000_000

abbrev pub ms_per_second : ℕ
ms_per_second = 1000

-- `struct timespec` of a clock that counts from 0
pub record Time : Type 0 where
  pub sec : ℕ
  pub nsec : ℕ

-- TIMEMS
abbrev pub time_ms : Time → ℕ
time_ms t = t.sec * ms_per_second + t.nsec / ns_per_ms

-- `struct _ftimer_node`: the callback is `cb` if it is not NULL; `owner` is left out.
pub record Timer : Type 0 where
  pub start : Time
  pub cb : Bool
  pub arg : ℕ
  pub interval : ℕ
  pub expiration : ℕ
  pub valid : Bool
  pub triggered : Bool

-- `fev_tmmod_timeout`. The difference of nanoseconds may be negative, and C divides towards 0.
unfoldable pub timeout : Timer → Time → Bool
timeout t now =
    if ltb now.sec t.start.sec
    then false
    else if now.sec == t.start.sec && ltb now.nsec t.start.nsec
    then false
    else (let sec_ms = (now.sec - t.start.sec) * ms_per_second in
        if leb t.start.nsec now.nsec
        then leb t.expiration (sec_ms + (now.nsec - t.start.nsec) / ns_per_ms)
        else leb (t.expiration + (t.start.nsec - now.nsec) / ns_per_ms) sec_ms)

-- a number that a `long` can hold; C leaves a sum or product beyond undefined.
abbrev pub long : ℕ → Option ℕ
long n = guard (ltb n (2 ^ 63)) >> some n

-- `tm_sl_data` with the memory it works on: the lists, the timers that the nodes lead to (0 is
-- NULL), which of them are freed, and the nodes that are destroyed with their timers.
pub record Timers : Type 0 where
  pub store : Store
  pub timers : ℕ → Timer
  pub freed : ℕ → Bool
  pub timer_list : ℕ
  pub backup_list : ℕ
  pub destroyed : List ℕ

-- the timer at `p`, which a freed one is not
abbrev pub timer_of : Timers → ℕ → Option Timer
timer_of s p = if s.freed p then none else some (s.timers p)

abbrev pub put_timer : Timers → ℕ → Timer → Timers
put_timer s p t = record s { timers = write s.timers p t }

-- `calloc` of a timer in a block that is not in use
abbrev pub new_timer : Timers → ℕ → Timer → Timers
new_timer s p t = record (put_timer s p t) { freed = write s.freed p false }

-- `_init`, at two lists that are not in use
unfoldable pub init : Store → (ℕ → Timer) → ℕ → ℕ → Timers
init store timers l b = record {
  store = create (create store l) b;
  timers = timers;
  freed = λ _. false;
  timer_list = l;
  backup_list = b;
  destroyed = [];
}

-- the next period of a timer that has fired, in `long`s
unfoldable pub rearm : Timer → Option Timer
rearm t =
    if ltb 0 t.interval
    then (do
      sec ← long (t.start.sec + t.interval / ms_per_second)
      period ← long (t.interval * ns_per_ms)
      nsec ← long (t.start.nsec + period % ns_per_second)
      some (record t {
        expiration = t.interval;
        start = record { sec = sec; nsec = nsec };
        triggered = true;
      }))
    else some (record t { triggered = true })

-- `_destroy_timer` of a node that is in no list. The timer of the node is freed, which may be done
-- once; nothing is done for NULL.
abbrev pub destroy_timer : Timers → ℕ → Option Timers
destroy_timer s a =
    let p = (s.store.nodes a).user_data in
    let s' = record s { destroyed = s.destroyed ++ a ∷ [] } in
    if p == 0
    then some s'
    else if s.freed p
    then none
    else some (record s' { freed = write s.freed p true })

-- what a callback does to the memory, given its argument
abbrev pub Callback : Type 0
Callback = ℕ → Timers → Option Timers

-- the callback of the timer at `p`, and what is written to the timer behind it
abbrev pub fire_timer : Callback → ℕ → Timers → Option Timers
fire_timer call p s = do
  s' ← call (s.timers p).arg s
  t ← timer_of s' p
  t' ← rearm t
  some (put_timer s' p t')

-- the body of the loop of `_process`, for the node `a`: whether its timer has fired
unfoldable pub visit : Callback → Time → ℕ → Timers → Option (Bool × Timers)
visit call now a s =
    let p = (s.store.nodes a).user_data in
    if p == 0 then (do s' ← destroy_timer s a; some (false, s')) else (do
      t ← timer_of s p
      if not t.valid || not t.cb then (do s' ← destroy_timer s a; some (false, s')) else (do
        s1 ← (if timeout t now then fire_timer call p s else some s)
        t1 ← timer_of s1 p
        (if ltb 0 t1.interval || not (timeout t now)
            then (do
              store ← push s1.store s1.backup_list a
              some (timeout t now, record s1 { store = store }))
            else (do s2 ← destroy_timer s1 a; some (timeout t now, s2)))))

-- the loop of `_process`, and the swap of the lists behind it; a round of fuel for each node that is
-- popped, and one
unfoldable pub process : ℕ → Callback → Time → ℕ → Timers → Option (ℕ × Timers)
process zero call now expired s = none
process (suc fuel) call now expired s = do
  (r, store) ← pop s.store s.timer_list
  elim r [
    | none ↦ some (
      expired,
      record s { store = store; timer_list = s.backup_list; backup_list = s.timer_list },
    )
    | some a ↦ (do
      (fired, s') ← visit call now a (record s { store = store })
      process fuel call now (if fired then suc expired else expired) s')
  ]

-- `_add`, with a node that is made for the timer at `p`; sizeof(ftimer_node) is 64.
unfoldable pub add : Timers → ℕ → ℕ → Option Timers
add s a p = do
  let s1 = record s {
    store = record s.store {
      nodes =
          write s.store.nodes a
            (record { prev = none; next = none; owner = none; data_size = 64; user_data = p });
    };
  }
  store ← push s1.store s1.timer_list a
  some (record s1 { store = store })

-- `fdlist_foreach` from the node `p` on, with a callback that does not stop it
unfoldable pub foreach {ℓ} : {A : Type ℓ} → ℕ → Store → (ℕ → A → Option A) → Ptr → A → Option A
foreach fuel s visit none top = some top
foreach zero s visit (some a) top = none
foreach (suc fuel) s visit (some a) top = do
  top' ← visit a top
  foreach fuel s visit (s.nodes a).next top'

abbrev pub deadline : Timer → Option ℕ
deadline t = long (time_ms t.start + t.expiration)

-- `_node_each`, with the timer at hand or NULL
unfoldable pub node_each : Timers → ℕ → Ptr → Option Ptr
node_each s a top =
    let p = (s.store.nodes a).user_data in
    if p == 0 then none else (do
      t ← timer_of s p
      if not t.valid then some top else elim top [
        | none ↦ some (some p)
        | some q ↦ (do
          t' ← timer_of s q
          timer_ms ← deadline t
          min_ms ← deadline t'
          some (if ltb timer_ms min_ms then some p else some q))
      ])

-- `_top`, with a round of fuel for each node that the list counts
unfoldable pub top : Timers → Option Ptr
top s = let d = s.store.lists s.timer_list in foreach d.size s.store (node_each s) d.head none
