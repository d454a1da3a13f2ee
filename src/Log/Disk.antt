-- ===== src/Log/Disk.antt =====
-- flog/flog.c: a log file, and the bytes that reach it. What the system answers to each call of
-- `write`, and its clock, are parameters.
use final_libs.Prelude.{
  ℕ, zero, suc, ◌+◌, ◌/◌, min, Bool, true, false, ◌&&◌, Option, none, some, List, [], ◌∷◌, ◌++◌,
  ltb, leb, ◌==◌, if◌then◌else◌, ◌>>=◌, add_size, sub_size, length, take,
}
use final_libs.Dlist.Cells.{write}

-- `struct flog_file_t`, and the file at its descriptor: what it holds, what the files hold that it
-- has been renamed to, each with the time in its name, what `write` has taken in all, and how often
-- it has been called
pub record File : Type 0 where
  pub file_size : ℕ
  pub last_flush_time : ℕ
  pub rolling_size : ℕ
  pub flush_interval : ℕ
  pub async : Bool
  pub debug : Bool
  pub lv : ℕ
  pub last_aid : ℕ
  pub curr_aid : ℕ
  pub content : List ℕ
  pub rolled : List (ℕ × List ℕ)
  pub output : List ℕ
  pub writes : ℕ

-- what a call of `write` comes to: a failure, by an interrupt or not, or so many bytes at most
pub data Answer : Type 0 where
  failed : Bool → Answer
  wrote : ℕ → Answer

-- what the rest of a process sees: flog_event_t
pub data Notice : Type 0 where
  error_write : Notice
  error_async_push : Notice
  error_async_pop : Notice
  truncated : Notice
  buffer_full : Notice
  user_buffer_released : Notice
  logger_closed : Notice

-- the files, each at the pointer to it, and the notices that the callback has got, the latest last
pub record World : Type 0 where
  pub files : ℕ → File
  pub notices : List Notice

abbrev pub put_file : World → ℕ → File → World
put_file w p f = record w { files = write w.files p f }

unfoldable pub event_notice : World → Notice → World
event_notice w n = record w { notices = w.notices ++ n ∷ [] }

unfoldable pub flush_file : File → ℕ → File
flush_file f now = record f { last_flush_time = now }

unfoldable pub rolling_enabled : File → Bool
rolling_enabled f = ltb 0 f.rolling_size && ltb f.rolling_size f.file_size

-- `rename` to a name with this time: a file that has the name is replaced. Names differ in the time
-- only, which has milliseconds.
unfoldable pub rename : ℕ → List ℕ → List (ℕ × List ℕ) → List (ℕ × List ℕ)
rename time content [] = (time, content) ∷ []
rename time content ((other, old) ∷ files) =
    let rest = rename time content files in if other == time then rest else (other, old) ∷ rest

-- `_log_roll_file`, where the system can rename and open a file; if not, the process is aborted.
unfoldable pub roll_file : File → ℕ → File
roll_file f now_ms = record f {
  rolled = rename now_ms f.content f.rolled;
  content = [];
  file_size = 0;
}

-- `_log_try_flush_and_rollfile`, at a time in milliseconds; `time` has seconds.
unfoldable pub try_flush_and_rollfile : File → ℕ → File
try_flush_and_rollfile f now_ms =
    let now = now_ms / 1000 in
    let has_flush = leb (f.last_flush_time + f.flush_interval) now in
    let f1 = if has_flush then flush_file f now else f in
    if rolling_enabled f1
    then roll_file (if has_flush then f1 else flush_file f1 now) now_ms
    else f1

module _ (kernel : ℕ → Answer) (clock : ℕ → ℕ) where
  -- the loop of `_log_write_to_kernel`, with `remain_len`; each round writes the whole of `log`
  unfoldable pub write_loop : ℕ → File → List ℕ → ℕ → Option (ℕ × File)
  write_loop zero f log remain = none
  write_loop (suc fuel) f log remain =
      let len = length log in
      let f' = record f { writes = suc f.writes } in
      elim (kernel f.writes) [
        | failed true ↦ write_loop fuel f' log remain
        | failed false ↦ some (sub_size len remain, f')
        | wrote k ↦
            (let real_len = min k len in
              let remain' = sub_size remain real_len in
              let f2 = record f' {
                content = f'.content ++ take real_len log;
                output = f'.output ++ take real_len log;
              } in
              elim (remain' == 0) [
                | true ↦ some (sub_size len remain', f2)
                | false ↦ write_loop fuel f2 log remain'
              ])
      ]

  unfoldable pub write_to_kernel : ℕ → File → List ℕ → Option (ℕ × File)
  write_to_kernel fuel f log =
      if length log == 0 then some (0, f) else write_loop fuel f log (length log)

  unfoldable pub log_write : ℕ → World → ℕ → List ℕ → Option (ℕ × World)
  log_write fuel w p log = do
    (n, f) ← write_to_kernel fuel (w.files p) log
    let f' = record f { file_size = add_size f.file_size n }
    some (n, put_file w p (try_flush_and_rollfile f' (clock f.writes)))
