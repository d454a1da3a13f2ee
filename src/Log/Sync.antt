-- ===== src/Log/Sync.antt =====
-- flog/flog.c: `flog_writef` of a file that is written at once.
use final_libs.Prelude.{
  ℕ, ◌+◌, ◌-◌, ◌<◌, ◌≤◌, ◌≡◌, refl, false, none, List, ◌++◌, arith, ltb, length, length-take, take,
  replicate, read_at-none,
}
use final_libs.Log.Disk.{Answer, World}
use final_libs.Log.{max_len_per_msg, log_snprintf, sync_write_f}

-- `_log_sync_write_f` of a text that `vsnprintf` would print with more than 4098 bytes is
-- undefined: it reads behind the array that it has printed to.
pub sync_write_f-cut :
    (kernel : ℕ → Answer) (clock : ℕ → ℕ) (patience : ℕ) (w : World) (p : ℕ) (header text : List ℕ)
    → max_len_per_msg + 2 < length text
    → sync_write_f kernel clock patience w p header text ≡ none
unfolding sync_write_f log_snprintf
sync_write_f-cut kernel clock patience w p header text long =
    let over : ltb (length text) (max_len_per_msg + 1) ≡ false = ground (arith, long) in
    let printed = take (max_len_per_msg + 1 - 1) text in
    let array = take (max_len_per_msg + 1) (printed ++ replicate (max_len_per_msg + 1) 0) in
    let size : length array ≤ max_len_per_msg + 1 =
      omega
        (arith, length-take (max_len_per_msg + 1) (printed ++ replicate (max_len_per_msg + 1) 0)) in
    rw (over, read_at-none array 0 (length text - 1) (omega (arith, size, long))) refl
