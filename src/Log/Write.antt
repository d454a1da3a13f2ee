-- ===== src/Log/Write.antt =====
-- flog/flog.c: `flog_write`, for a file that is not NULL.
use final_libs.Prelude.{
  ℕ, ◌≡◌, true, false, Option, some, List, [], ◌++◌, ltb, if◌then◌else◌, ◌>>=◌, length, ◌⊎◌, ◌==◌,
}
use final_libs.Mbuf
use final_libs.Mbuf.{Mbuf}
use final_libs.Log.Disk.{Answer, World, event_notice, truncated}
use final_libs.Log.{async_write, sync_write, cut, newline, max_len_per_msg}
use final_libs.Log.Header.{Header, IsHeader, get_header, cookie}
use final_libs.Log.Send.{Logged}
use final_libs.Log.Serve.{written}

-- what a thread has: its buffer and its header
module _ (kernel : ℕ → Answer) (clock : ℕ → ℕ) (patience : ℕ) (time_text ms_text : ℕ → List ℕ) where
  -- `flog_write` at the time `now`, with the header `h` of the thread and its buffer `b`
  unfoldable pub flog_write :
      Mbuf → Header → World → ℕ → ℕ → ℕ → List ℕ → Option (ℕ × Mbuf × Header × World)
  flog_write b h w p now nsec log = do
    (header, h') ← get_header time_text ms_text h now nsec
    if (w.files p).async
        then (do (n, b', w') ← async_write true b w p header log; some (n, b', h', w'))
        else (do (n, w') ← sync_write kernel clock patience w p header log; some (n, b, h', w'))

-- the files when a text that is cut has been reported
abbrev pub reported : World → List ℕ → World
reported w log = if ltb max_len_per_msg (length log) then event_notice w truncated else w

-- what `_log_sync_write_to_kernel` leaves: the text in the file, and its length as the result
pub record Written (w : World) (p : ℕ) (log : List ℕ) (r : ℕ × World) : Type 0 where
  pub count : r.0 ≡ length log
  pub text : (q : ℕ) → written r.1 q ≡ written w q ++ (if p == q then log else [])
  pub notices : r.1.notices ≡ w.notices

-- what `flog_write` leaves: the header with its cookie, and either the message in the buffer of the
-- thread, or the text in the file
pub record Wrote (b : Mbuf) (h : Header) (w : World) (p : ℕ) (header log : List ℕ)
    (r : ℕ × Mbuf × Header × World) : Type 0 where
  pub is : IsHeader r.2
  pub cookie : cookie r.2 ≡ cookie h
  pub mode :
      (((w.files p).async ≡ true) × Logged b w p header log (r.0, r.1, r.3))
      ⊎ (((w.files p).async ≡ false)
          × (r.1 ≡ b)
          × Written (reported w log) p (header ++ (cut log ++ newline)) (r.0, r.3))
