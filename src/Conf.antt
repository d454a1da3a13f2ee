-- ===== src/Conf.antt =====
-- fconf/fconf.c and fconf/fconf_core.c: files of keys and values.
pub mod Trim
pub mod Split
pub mod Line
pub mod Load
mod Tests
use final_libs.Prelude.{
  ℕ, zero, suc, ◌+◌, ◌-◌, ◌*◌, Bool, true, false, ◌||◌, Option, none, some, List, [], ◌∷◌, ◌++◌,
  ltb, leb, ◌==◌, if◌then◌else◌, ◌>>=◌, take, drop, replicate, get_elem?, length, ℤ, pos, negsuc,
  minus_one,
}

-- a string without the zero byte that ends it, or the bytes of a buffer
abbrev pub Bytes : Type 0
Bytes = List ℕ

-- CONF_BUFF_LEN
abbrev pub conf_buff_len : ℕ
conf_buff_len = 1024 * 1024

-- READ_LINE_LEN
abbrev pub read_line_len : ℕ
read_line_len = 1024

abbrev pub blank : ℕ
blank = 32

abbrev pub lf : ℕ
lf = 10

abbrev pub numsign : ℕ
numsign = 35

abbrev pub equals : ℕ
equals = 61

unfoldable pub trim_left : Bytes → Bytes
trim_left [] = []
trim_left (c ∷ str) = if c == blank then trim_left str else c ∷ str

-- whether the byte at `i` is a blank
unfoldable pub blank_at : Bytes → ℕ → Bool
blank_at str i = elim (get_elem? str i) [ none ↦ false | some c ↦ c == blank ]

-- `_trim_right` from the byte at `i` backwards: a zero byte that is written at `i` ends the string there.
unfoldable pub trim_right_from : ℕ → Bytes → Bytes
trim_right_from zero str = if blank_at str 0 then take 0 str else str
trim_right_from (suc i) str =
    if blank_at str (suc i) then trim_right_from i (take (suc i) str) else str

unfoldable pub trim_right : Bytes → Bytes
trim_right [] = []
trim_right (c ∷ str) = trim_right_from (length str) (c ∷ str)

unfoldable pub trim : Bytes → Bytes
trim str = trim_right (trim_left str)

-- `strchr`: the bytes before the first `c` and those behind it
unfoldable pub strchr : Bytes → ℕ → Option (Bytes × Bytes)
strchr [] c = none
strchr (d ∷ str) c =
    if d == c then some ([], str) else do (before, behind) ← strchr str c; some (d ∷ before, behind)

-- what `fconf_readkv` returns, and leaves in `key` and `value`
pub record Pair : Type 0 where
  pub code : ℤ
  pub key : Option Bytes
  pub value : Option Bytes

unfoldable pub check_key : Bytes → Bytes → Pair
check_key key value = record {
  code = elim (strchr key blank) [ none ↦ pos 0 | some _ ↦ negsuc 2 ];
  key = some key;
  value = some value;
}

-- the line split at the `=`, if there is one
unfoldable pub split_line : Option (Bytes × Bytes) → Pair
split_line none = record { code = negsuc 1; key = none; value = none }
split_line (some (key, value)) = check_key (trim key) (trim value)

unfoldable pub readkv : Bytes → Pair
readkv [] = record { code = negsuc 0; key = none; value = none }
readkv (c ∷ str) = split_line (strchr (c ∷ str) equals)

-- The three loops of `fconf_readline` walk through the bytes from `start` on, with `start` beside
-- them; a walk that reaches the end of the buffer reads outside of it.
unfoldable pub skip_blanks : Bytes → ℕ → Option (Bytes × ℕ)
skip_blanks [] start = none
skip_blanks (c ∷ buf) start =
    if c == lf
    then some (c ∷ buf, start)
    else if c == blank
    then skip_blanks buf (suc start)
    else some (c ∷ buf, start)

-- the bytes up to a zero byte, a line feed or a number sign, and a zero byte, go to a line with
-- `room` bytes
unfoldable pub copy_line : ℕ → Bytes → ℕ → Option (Bytes × Bytes × ℕ)
copy_line room [] start = none
copy_line zero (c ∷ buf) start = none
copy_line (suc room) (c ∷ buf) start =
    if c == 0 || (c == lf || c == numsign)
    then some ([], c ∷ buf, start)
    else (do (line, buf', start') ← copy_line room buf (suc start); some (c ∷ line, buf', start'))

unfoldable pub next_line : Bytes → ℕ → Option ℕ
next_line [] start = none
next_line (c ∷ buf) start = if c == lf then some (suc start) else next_line buf (suc start)

-- whether a walk stands at the zero byte
unfoldable pub at_end : Bytes → Bool
at_end [] = false
at_end (c ∷ buf) = c == 0

-- `fconf_readline`, with the line before and after
unfoldable pub readline : ℕ → Bytes → ℕ → Bytes → Option (ℤ × Bytes)
readline room buf start line = do
  (buf', start') ← skip_blanks (drop start buf) start
  if at_end buf' then some (minus_one, line) else (do
    (line', buf2, start2) ← copy_line room buf' start'
    next ← next_line buf2 start2
    some (pos next, line'))

-- what `pfunc` is called with, one call after the other
abbrev pub Calls : Type 0
Calls = List (Option Bytes × Option Bytes)

abbrev pub is_zero : ℤ → Bool
is_zero (pos zero) = true
is_zero (pos (suc n)) = false
is_zero (negsuc n) = false

-- the loop of `fconf_load`, with the calls so far
unfoldable pub load_loop : ℕ → Bytes → ℕ → ℤ → Bytes → Calls → Option (ℕ × Calls)
load_loop zero buf size next line calls = none
load_loop (suc fuel) buf size (negsuc n) line calls = some (0, calls)
load_loop (suc fuel) buf size (pos zero) line calls = some (0, calls)
load_loop (suc fuel) buf size (pos (suc n)) [] calls = do
  (next, line) ← readline read_line_len buf (suc n) []
  load_loop fuel buf size next line calls
load_loop (suc fuel) buf size (pos (suc n)) (c ∷ line) calls =
    let pair = readkv (c ∷ line) in
    if is_zero pair.code
    then (let calls' = calls ++ (pair.key, pair.value) ∷ [] in
        if leb size n then some (0, calls') else (do
          (next, line') ← readline read_line_len buf (suc n) (c ∷ line)
          load_loop fuel buf size next line' calls'))
    else some (1, calls)

-- `fconf_load` of a file with these bytes, or of none that can be read. `read` fills the buffer with
-- all of them; the zero byte behind them must fit into it. A round for each byte and one is enough.
unfoldable pub load : Option Bytes → Option (ℕ × Calls)
load none = some (0, [])
load (some file) =
    if leb conf_buff_len (length file) then none else if length file == 0 then some (0, []) else (do
      let buf = file ++ replicate (conf_buff_len - length file) 0
      (next, line) ← readline read_line_len buf 0 []
      load_loop (suc (length file)) buf (length file) next line [])
