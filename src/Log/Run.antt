-- ===== src/Log/Run.antt =====
-- flog/flog.c: calls of `_log_async_write` and `_log_async_process` in any order, each of them at
-- once, and then the rounds of the fetcher.
pub mod Kept
pub mod Delivery
use final_libs.Prelude.{
  ℕ, zero, suc, ◌+◌, ◌^◌, ◌<◌, ◌≤◌, ◌≡◌, refl, ap, sym, subst, ◌∙◌, true, false, Option, none, some,
  List, [], ◌∷◌, ◌++◌, arith, ltb, ◌==◌, if◌then◌else◌, ◌>>=◌, length, length-append, All,
  append_assoc, append-nil, Bool-cases, inl, inr, Ensures, Ensures-if, Ensures-bind, Ensures-mono,
}
use final_libs.Dlist.Cells.{write, write_self, write-other}
use final_libs.Dlist.Chain.{has}
use final_libs.Mbuf
use final_libs.Log.Disk.{World, Answer}
use final_libs.Log.Wire.{head_size}
use final_libs.Log.{Thread, async_write, async_process, rounds, cut, newline, max_len_per_msg}

-- the threads, the files, and for each file the texts of the calls that did not return 0
pub record System : Type 0 where
  pub threads : ℕ → Thread
  pub world : World
  pub taken : ℕ → List ℕ

pub data Action : Type 0 where
  logs : ℕ → ℕ → List ℕ → List ℕ → Action
  fetches : ℕ → Action

module _ (kernel : ℕ → Answer) (clock : ℕ → ℕ) (patience : ℕ) (table : List ℕ) where
  unfoldable pub step : Action → System → Option System
  step (logs i p header log) s = do
    let t = s.threads i
    (n, b, w) ← async_write true t.plog_buf s.world p header log
    let all = s.taken p ++ (header ++ (cut log ++ newline))
    some (record {
      threads = write s.threads i (record t { plog_buf = b });
      world = w;
      taken = if n == 0 then s.taken else write s.taken p all;
    })
  step (fetches i) s = do
    let t = s.threads i
    (n, t', w) ←
        if t.alive then async_process kernel clock patience t s.world else some (0, t, s.world)
    some (record s { threads = write s.threads i t'; world = w })

  unfoldable pub run : List Action → System → Option System
  run [] s = some s
  run (a ∷ actions) s = do s' ← step a s; run actions s'

  unfoldable pub run_and_drain : ℕ → List Action → System → Option System
  run_and_drain fuel actions s = do
    s' ← run actions s
    (threads, w) ← rounds kernel clock patience fuel table s'.threads s'.world
    some (record s' { threads = threads; world = w })
