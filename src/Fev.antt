-- ===== src/Fev.antt =====
-- fev/fev.c and fev/fev_epoll.c: the registry of events, and the loop over those that are ready.
-- Descriptors are not negative.
pub mod Kernel
pub mod Synced
pub mod Fired
mod Tests
use final_libs.Prelude.{
  ℕ, zero, suc, ◌+◌, Bool, true, false, not, ◌&&◌, ◌||◌, Option, none, some, List, [], ◌∷◌, ltb,
  leb, ◌==◌, if◌then◌else◌, ◌>>=◌, ℤ, pos, negsuc, minus_one,
}
use final_libs.Dlist.Cells.{write}
use final_libs.Fev.Kernel.{Mask, Op, ctl_add, ctl_mod, ctl_del, Epoll}

-- FEV_NIL
abbrev pub nil : Mask
nil = record { read = false; write = false; error = false }

abbrev pub is_nil : Mask → Bool
is_nil m = not m.read && (not m.write && not m.error)

-- `mask & (FEV_READ | FEV_WRITE)`
abbrev pub read_write : Mask → Mask
read_write m = record { read = m.read; write = m.write; error = false }

-- `a | b`
abbrev pub merge : Mask → Mask → Mask
merge a b = record {
  read = a.read || b.read;
  write = a.write || b.write;
  error = a.error || b.error;
}

-- `a & ~b`
abbrev pub without : Mask → Mask → Mask
without a b = record {
  read = a.read && not b.read;
  write = a.write && not b.write;
  error = a.error && not b.error;
}

abbrev pub same_bit : Bool → Bool → Bool
same_bit true b = b
same_bit false b = not b

abbrev pub same_mask : Mask → Mask → Bool
same_mask a b = same_bit a.read b.read && (same_bit a.write b.write && same_bit a.error b.error)

-- `fev_event`; a callback is a number, and NULL is `none`.
pub record Event : Type 0 where
  pub mask : Mask
  pub fire_idx : ℕ
  pub pread : Option ℕ
  pub pwrite : Option ℕ
  pub arg : ℕ

-- `struct fev_state` with the state of epoll; `fevents` and `firelist` have `max_ev_size` entries.
pub record Fev (os : Epoll) : Type 0 where
  pub kernel : os.State
  pub fevents : ℕ → Event
  pub firelist : ℕ → ℕ
  pub max_ev_size : ℕ
  pub fire_num : ℕ
  pub in_processing : Bool

-- `fev_create` with an open epoll
unfoldable pub create : {os : Epoll} → os.State → ℕ → Fev os
create kernel max_ev_size = record {
  kernel = kernel;
  fevents = λ _. record { mask = nil; fire_idx = 0; pread = none; pwrite = none; arg = 0 };
  firelist = λ _. 0;
  max_ev_size = max_ev_size;
  fire_num = 0;
  in_processing = false;
}

-- what a callback does, given its name, the descriptor, the mask and its argument
abbrev pub Callback : Epoll → Type 0
Callback os = ℕ → ℕ → Mask → ℕ → Fev os → Option (Fev os)

module _ {os : Epoll} where
  abbrev pub put_event : Fev os → ℕ → Event → Fev os
  put_event s fd e = record s { fevents = write s.fevents fd e }

  -- `_fev_add_firelist`, a write outside of the list if it is full
  unfoldable pub add_firelist : Fev os → ℕ → Option (Fev os)
  add_firelist s fd =
      if ltb s.fire_num s.max_ev_size
      then some (record s {
        firelist = write s.firelist s.fire_num fd;
        fevents = write s.fevents fd (record (s.fevents fd) { fire_idx = s.fire_num });
        fire_num = suc s.fire_num;
      })
      else none

  unfoldable pub is_fired : Fev os → ℕ → Bool
  is_fired s fd = let idx = (s.fevents fd).fire_idx in ltb idx s.fire_num && (s.firelist idx == fd)

  -- `fev_state_addevent`, and whether it succeeds
  unfoldable pub addevent : Fev os → ℕ → Mask → Bool × Fev os
  addevent s fd mask =
      let e = s.fevents fd in
      let op = if is_nil e.mask then ctl_add else ctl_mod in
      let mask' = merge mask e.mask in
      let r = os.ctl s.kernel op fd (read_write mask') in
      if r.0
      then (true, put_event (record s { kernel = r.1 }) fd (record e { mask = mask' }))
      else (false, record s { kernel = r.1 })

  -- `fev_state_delevent`, and whether it succeeds
  unfoldable pub delevent : Fev os → ℕ → Mask → Bool × Fev os
  delevent s fd delmask =
      let e = s.fevents fd in
      let mask = without e.mask delmask in
      let op = if is_nil mask then ctl_del else ctl_mod in
      let r = os.ctl s.kernel op fd (read_write mask) in
      (r.0, put_event (record s { kernel = r.1 }) fd (record e { mask = mask }))

  -- `fev_get_mask(fev, fd) < 0`
  abbrev pub is_outside : Fev os → ℕ → Bool
  is_outside s fd = leb s.max_ev_size fd

  unfoldable pub reg_event : Fev os → ℕ → Mask → Option ℕ → Option ℕ → ℕ → ℤ × Fev os
  reg_event s fd mask pread pwrite arg =
      let m = read_write mask in
      let r = addevent s fd m in
      if is_outside s fd
      then (minus_one, s)
      else if is_nil m
      then (negsuc 1, s)
      else if not (is_nil (s.fevents fd).mask)
      then (negsuc 2, s)
      else if not r.0
      then (negsuc 3, r.1)
      else (
        pos 0,
        put_event r.1 fd (record (r.1.fevents fd) { pread = pread; pwrite = pwrite; arg = arg }),
      )

  unfoldable pub add_event : Fev os → ℕ → Mask → ℤ × Fev os
  add_event s fd mask =
      let m = read_write mask in
      let r = addevent s fd m in
      if is_outside s fd
      then (minus_one, s)
      else if is_nil m
      then (pos 0, s)
      else if is_nil (s.fevents fd).mask
      then (negsuc 1, s)
      else if same_mask (s.fevents fd).mask m
      then (pos 0, s)
      else if not r.0
      then (negsuc 2, r.1)
      else (pos 0, r.1)

  unfoldable pub del_event : Fev os → ℕ → Mask → Option (ℤ × Fev os)
  del_event s fd mask =
      let m = read_write mask in
      let r = delevent s fd m in
      if is_outside s fd
      then some (minus_one, s)
      else if is_nil (s.fevents fd).mask
      then some (pos 0, s)
      else if is_nil m
      then some (pos 0, s)
      else if not r.0
      then some (negsuc 1, r.1)
      else if is_nil (r.1.fevents fd).mask
      then (do s' ← add_firelist r.1 fd; some (pos 0, s'))
      else some (pos 0, r.1)

  -- a callback that is called if it is there and `wanted`, and whether it is called
  unfoldable pub call_if :
      Callback os → Option ℕ → Bool → ℕ → Mask → Fev os → Option (Bool × Fev os)
  call_if call none wanted fd mask s = some (false, s)
  call_if call (some cb) false fd mask s = some (false, s)
  call_if call (some cb) true fd mask s = do
    s' ← call cb fd mask (s.fevents fd).arg s
    some (true, s')

  -- the body of the loop of `fev_state_poll`: what it adds to `process`
  unfoldable pub handle : Callback os → Fev os → ℕ → Mask → Option (ℕ × Fev os)
  handle call s fd mask = if is_fired s fd then some (0, s) else (do
    let e = s.fevents fd
    (called, s1) ← call_if call e.pread ((e.mask.read && mask.read) || mask.error) fd mask s
    if called && mask.error then some (0, s1) else (do
      let e1 = s1.fevents fd
      (called1, s2) ←
          call_if call e1.pwrite ((e1.mask.write && mask.write) || mask.error) fd mask s1
      some (1, s2)))

  -- the loop of `fev_state_poll`, over what epoll_wait has answered
  unfoldable pub handle_all : Callback os → Fev os → List (ℕ × Mask) → ℕ → Option (ℕ × Fev os)
  handle_all call s [] process = some (process, s)
  handle_all call s ((fd, mask) ∷ ready) process = do
    (n, s') ← handle call s fd mask
    handle_all call s' ready (process + n)

-- what epoll_wait answers: a failure, by an interrupt or not, or the descriptors that are ready
pub data Waited : Type 0 where
  failed : Bool → Waited
  ready : List (ℕ × Mask) → Waited

module _ {os : Epoll} where
  unfoldable pub state_poll : Callback os → Fev os → Waited → Option (ℤ × Fev os)
  state_poll call s (failed interrupted) = some (if interrupted then pos 0 else minus_one, s)
  state_poll call s (ready events) = do
    (process, s') ← handle_all call s events 0
    some (pos process, s')

  -- `fev_poll`, with what the modules do before and after
  unfoldable pub poll :
      Callback os → (Fev os → Fev os) → (Fev os → Fev os) → Fev os → Waited → Option (ℤ × Fev os)
  poll call prepoll postpoll s waited = if s.in_processing then some (negsuc 1, s) else (do
    (num, s') ← state_poll call (prepoll (record s { in_processing = true; fire_num = 0 })) waited
    some (num, postpoll (record s' { in_processing = false })))
