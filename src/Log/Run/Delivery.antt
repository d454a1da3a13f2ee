-- ===== src/Log/Run/Delivery.antt =====
-- flog/flog.c: what the files hold after calls in any order and the rounds of the fetcher.
use final_libs.Prelude.{ℕ, suc, ◌≡◌, ◌∙◌, List, [], ◌∷◌, arith, length, All, Ensures, Ensures-bind}
use final_libs.Log.Disk.{Answer}
use final_libs.Log.{rounds}
use final_libs.Log.Fetch.{Holds, Willing}
use final_libs.Log.Order.{Waiting}
use final_libs.Log.Serve.{written}
use final_libs.Log.Drain.{rounds_lem}
use final_libs.Log.Run.{System, Action, step, run, run_and_drain}
use final_libs.Log.Run.Kept.{IsAction, IsRunning, Runs, step_lem}

-- Nothing waits, and `write` has taken for each file the texts of the calls that did not return 0,
-- in their order.
pub record Delivered (s : System) : Type 0 where
  pub empty : (i : ℕ) → Holds (s.threads i).plog_buf []
  pub text : (p : ℕ) → written s.world p ≡ s.taken p

module _ (kernel : ℕ → Answer) (clock : ℕ → ℕ) (willing : Willing kernel) (patience : ℕ)
    (table : List ℕ) (k : ℕ) where
  run_lem :
      (actions : List Action) (ws : Waiting) (s : System)
      → IsRunning table k (length actions) ws s
      → All (IsAction table) actions
      → Ensures (Runs table k 0) (run kernel clock (suc patience) table actions s)
  unfolding run
  run_lem [] ws s is calls = (ws, is)
  run_lem (a ∷ actions) ws s is (call, calls) =
      Ensures-bind (Runs table k 0) (step kernel clock (suc patience) table a s) _
        (step_lem kernel clock willing patience table k (length actions) a ws s is call)
        (λ s' (ws', is'). run_lem actions ws' s' is' calls)

  -- Calls of `_log_async_write` and `_log_async_process` are made in any order, each at once,
  -- by threads of the table that all run. Messages may wait in their buffers at the start:
  -- their numbers follow those of their files in one common order, up to the last number that
  -- each file has given, and every number stays below 2 ^ 31. Each call has a header and a
  -- text that are not empty and together take at most 4096 bytes with the head and the line
  -- feed; the eventfd of a thread can be written, and the system writes at least 2 ^ 16 bytes
  -- at a call. Then all calls are defined, and so are the rounds of the fetcher after them,
  -- with one round more than there are messages and calls. Afterwards all buffers are empty,
  -- and `write` has taken for each file, before and after it was renamed, what it had taken
  -- before, what waited, and the messages of exactly the calls that did not return 0, in the
  -- order of the calls.
  pub run_and_drain_lem :
      (actions : List Action) (ws : Waiting) (s : System)
      → IsRunning table k (length actions) ws s
      → All (IsAction table) actions
      → Ensures Delivered (run_and_drain kernel clock (suc patience) table (suc k) actions s)
  unfolding run_and_drain
  run_and_drain_lem actions ws s is calls =
      Ensures-bind Delivered (run kernel clock (suc patience) table actions s) _
        (run_lem actions ws s is calls)
        (λ s' (left, is').
          Ensures-bind Delivered
            (rounds kernel clock (suc patience) (suc k) table s'.threads s'.world) _
            (rounds_lem kernel clock willing patience table (suc k) s'.threads s'.world left
              is'.pending (omega (arith, is'.bound)))
            (λ r drained. record {
              empty = drained.empty;
              text = λ p. drained.text p ∙ is'.text p;
            }))
