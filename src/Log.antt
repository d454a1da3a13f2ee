-- ===== src/Log.antt =====
-- flog/flog.c: messages that go to a file at once, or through the buffer of their thread.
pub mod Disk
pub mod Wire
pub mod Send
pub mod Empty
pub mod Fetch
pub mod Process
pub mod Order
pub mod Numbers
pub mod Serve
pub mod Drain
pub mod Post
pub mod Run
pub mod Short
pub mod Sync
pub mod Header
pub mod Cookie
pub mod Stamp
pub mod Write
pub mod Settings
mod Samples
mod Tests
use final_libs.Prelude.{
  ℕ, zero, suc, ◌+◌, ◌-◌, ◌^◌, ◌%◌, min, Bool, true, false, not, ◌&&◌, ◌||◌, Option, none, some,
  List, [], ◌∷◌, ◌++◌, ltb, leb, ◌==◌, if◌then◌else◌, ◌>>=◌, ◌>>◌, guard, add_size, length, take,
  drop, replicate, read_at, write_at,
}
use final_libs.Dlist.Cells.{write}
use final_libs.Mbuf
use final_libs.Mbuf.{Mbuf, Place, null, in_place, copied, rawget}
use final_libs.Log.Disk.{
  File, Answer, World, Notice, error_write, error_async_push, error_async_pop, buffer_full,
  user_buffer_released, truncated, put_file, event_notice, log_write,
}
use final_libs.Log.Wire.{
  Head, head_size, print_head, parse_head, number_of, pto_fetch_msg, pto_thread_quit,
}

-- LOG_MAX_LEN_PER_MSG
abbrev pub max_len_per_msg : ℕ
max_len_per_msg = 4096

abbrev pub newline : List ℕ
newline = 10 ∷ []

-- the first LOG_MAX_LEN_PER_MSG bytes
abbrev pub cut : List ℕ → List ℕ
cut log = take max_len_per_msg log

-- `_log_snprintf` of a text that `vsnprintf` would print, into `max_len` bytes: what is copied, and
-- what is returned
unfoldable pub log_snprintf : World → ℕ → List ℕ → List ℕ × ℕ × World
log_snprintf w max_len text =
    if ltb (length text) max_len
    then (text, length text, w)
    else (take (max_len - 1) text, length text - 1, event_notice w truncated)

-- what a thread keeps, until it is destroyed
pub record Thread : Type 0 where
  pub plog_buf : Mbuf
  pub alive : Bool

-- `fmbuf_push` of one block after the other, until one is refused
unfoldable pub push_all : Mbuf → List (List ℕ) → Option (Bool × Mbuf)
push_all b [] = some (true, b)
push_all b (block ∷ blocks) = do
  (failed, b') ← Mbuf.push b (some block) (length block)
  elim (failed == 0) [ true ↦ push_all b' blocks | false ↦ some (false, b') ]

-- `_log_async_write` in the thread with the buffer `b`; `wakes` says that eventfd_write succeeds.
unfoldable pub async_write : Bool → Mbuf → World → ℕ → List ℕ → List ℕ → Option (ℕ × Mbuf × World)
async_write wakes b w p header log =
    let log' = cut log in
    let body = length header + length log' + 1 in
    if ltb (Mbuf.free b) (head_size + body) then some (0, b, event_notice w buffer_full) else (do
      let f = w.files p
      let aid = suc f.last_aid
      let w1 = put_file w p (record f { last_aid = aid })
      let head : Head = record { id = pto_fetch_msg; f = p; aid = aid; len = body % 2 ^ 16 }
      (pushed, b') ← push_all b (print_head head ∷ header ∷ log' ∷ newline ∷ [])
      if pushed && wakes
          then (let w2 =
                if ltb max_len_per_msg (length log) then event_notice w1 truncated else w1 in
              some (length log', b', w2))
          else some (0, b', event_notice w1 error_async_push))

-- the bytes at a place that a reader has found, with `room` bytes for a copy; NULL leads nowhere.
unfoldable pub read_place : ℕ → Mbuf → ℕ → Place → Option (List ℕ)
read_place room b n null = none
read_place room b n (in_place a) = read_at b.buf a n
read_place room b n (copied bytes) = guard (leb (length bytes) room) >> some bytes

module _ (kernel : ℕ → Answer) (clock : ℕ → ℕ) (patience : ℕ) where
  -- the end of `_log_pto_fetch_msg`, for a message that is found at `place`
  unfoldable pub fetch_found : Thread → World → Head → Place → Option (ℕ × Thread × World)
  fetch_found t w head place = do
    tmsg ← read_place max_len_per_msg t.plog_buf (head_size + head.len) place
    (writen, w1) ← log_write kernel clock patience w head.f (drop head_size tmsg)
    (_, _, b) ← Mbuf.pop t.plog_buf false (head_size + head.len)
    some (
      0,
      record t { plog_buf = b },
      if ltb writen head.len then event_notice w1 error_write else w1,
    )

  unfoldable pub fetch_content : Thread → World → Head → Place → Option (ℕ × Thread × World)
  fetch_content t w head null = some (1, t, event_notice w error_async_pop)
  fetch_content t w head place = fetch_found t w head place

  unfoldable pub pto_fetch : Thread → World → Option (ℕ × Thread × World)
  pto_fetch t w =
      if ltb (Mbuf.used t.plog_buf) head_size
      then some (1, t, event_notice w error_async_pop)
      else (do
        rheader ← rawget t.plog_buf true head_size
        bytes ← read_place head_size t.plog_buf head_size rheader
        let head = parse_head bytes
        let f = w.files head.f
        if not (head.aid == suc f.curr_aid) then some (1, t, w) else (do
          place ← rawget t.plog_buf true (head_size + head.len)
          fetch_content t (put_file w head.f (record f { curr_aid = suc f.curr_aid })) head place))

  unfoldable pub pto_quit : Thread → World → Option (ℕ × Thread × World)
  pto_quit t w = do
    (_, _, b) ← Mbuf.pop t.plog_buf false 1
    some (1, record { plog_buf = b; alive = false }, event_notice w user_buffer_released)

  -- `g_pto_tbl`
  unfoldable pub pto : ℕ → Thread → World → Option (ℕ × Thread × World)
  pto zero t w = pto_fetch t w
  pto (suc zero) t w = pto_quit t w
  pto (suc (suc id)) t w = none

  -- the loop of `_log_async_process`, with a round of fuel for each message in the buffer and one
  unfoldable pub process : ℕ → ℕ → Thread → World → Option (ℕ × Thread × World)
  process zero nprocessed t w = none
  process (suc fuel) nprocessed t w =
      if Mbuf.is_empty t.plog_buf then some (nprocessed, t, w) else (do
        rid ← rawget t.plog_buf true 1
        id ← read_place 1 t.plog_buf 1 rid
        (ret, t', w') ← pto (number_of id) t w
        elim (ret == 0) [
          | true ↦ process fuel (suc nprocessed) t' w'
          | false ↦ some (nprocessed, t', w')
        ])

  -- a message takes more than 15 bytes of the buffer, so a round for each byte is enough
  unfoldable pub async_process : Thread → World → Option (ℕ × Thread × World)
  async_process t w = process (suc (Mbuf.used t.plog_buf)) 0 t w

  -- A round of the fetcher through the table of threads, in some order; a thread that has been
  -- destroyed is no longer in the table.
  unfoldable pub round : List ℕ → (ℕ → Thread) → World → Option (ℕ × (ℕ → Thread) × World)
  round [] threads w = some (0, threads, w)
  round (efd ∷ order) threads w = do
    (n, t, w1) ←
        if (threads efd).alive then async_process (threads efd) w else some (0, threads efd, w)
    (more, threads', w') ← round order (write threads efd t) w1
    some (n + more, threads', w')

  -- the rounds of the fetcher, until one processes nothing
  unfoldable pub rounds : ℕ → List ℕ → (ℕ → Thread) → World → Option ((ℕ → Thread) × World)
  rounds zero order threads w = none
  rounds (suc fuel) order threads w = do
    (n, threads', w') ← round order threads w
    elim (n == 0) [ true ↦ some (threads', w') | false ↦ rounds fuel order threads' w' ]

  -- `_log_sync_write_to_kernel`
  unfoldable pub sync_write_to_kernel : World → ℕ → List ℕ → List ℕ → Option (ℕ × World)
  sync_write_to_kernel w p header log = do
    (a, w1) ← log_write kernel clock patience w p header
    (b, w2) ← log_write kernel clock patience w1 p log
    (c, w3) ← log_write kernel clock patience w2 p newline
    let writen = add_size (add_size a b) c
    some (
      writen,
      if ltb writen (length log + length header) then event_notice w3 error_write else w3,
    )

  unfoldable pub sync_write : World → ℕ → List ℕ → List ℕ → Option (ℕ × World)
  sync_write w p header log =
      if ltb max_len_per_msg (length log)
      then sync_write_to_kernel (event_notice w truncated) p header (cut log)
      else sync_write_to_kernel w p header log

  -- `_log_sync_write_f`. What the array `log` holds behind the text and its zero byte is not read.
  unfoldable pub sync_write_f : World → ℕ → List ℕ → List ℕ → Option (ℕ × World)
  sync_write_f w p header text = do
    let (printed, len, w1) = log_snprintf w (max_len_per_msg + 1) text
    let array = take (max_len_per_msg + 1) (printed ++ replicate (max_len_per_msg + 1) 0)
    log ← read_at array 0 len
    sync_write_to_kernel w1 p header log
