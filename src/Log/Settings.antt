-- ===== src/Log/Settings.antt =====
-- flog/flog.c: levels and limits of a logger.
use final_libs.Prelude.{
  ℕ, ◌+◌, ◌%◌, Bool, false, Option, none, some, ltb, leb, ◌==◌, if◌then◌else◌, ℤ, pos, minus_one,
}
use final_libs.Log.Disk.{File}
use final_libs.Log.Wire.{head_size}
use final_libs.Log.{max_len_per_msg}

-- `flog_set_level`, at a logger that is not NULL
unfoldable pub set_level : File → ℕ → ℕ × File
set_level f level = (f.lv, record f { lv = level % 8 })

unfoldable pub get_level : Option File → ℤ
get_level none = minus_one
get_level (some f) = pos f.lv

-- `flog_is_trace_enabled` and the others, each with its level
unfoldable pub is_enabled : ℕ → Option File → Bool
is_enabled level none = false
is_enabled level (some f) = leb f.lv level

unfoldable pub set_rolling_size : File → ℕ → File
set_rolling_size f size = record f { rolling_size = size }

unfoldable pub set_flush_interval : File → ℕ → File
set_flush_interval f sec = record f { flush_interval = sec }

-- LOG_DEFAULT_LOCAL_BUFFER_SIZE
abbrev pub default_local_buffer_size : ℕ
default_local_buffer_size = 10_485_760

-- the size that `flog_set_buffer_size` sets
unfoldable pub buffer_size : ℕ → ℕ
buffer_size size =
    let size' = if size == 0 then default_local_buffer_size else size in
    let min_size = head_size + max_len_per_msg in if ltb size' min_size then min_size else size'
