-- ===== src/Conf/Load.antt =====
-- fconf/fconf.c: `fconf_load` of a whole file.
use final_libs.Prelude.{
  ℕ, zero, suc, ◌+◌, ◌-◌, ◌<◌, ◌≤◌, ◌≡◌, refl, ap, sym, ◌∙◌, false, Option, some, List, [],
  Bool-cases, inl, inr, ◌∷◌, ◌++◌, map, arith, leb, ◌==◌, if◌then◌else◌, ◌>>=◌, drop, length,
  length-append, All, replicate, pos, append_assoc, drop-drop, drop-append_self,
}
use final_libs.Conf.{
  Bytes, Calls, conf_buff_len, read_line_len, is_zero, readkv, readline, load_loop, load,
}
use final_libs.Conf.Line.{Line, IsLine, print_line, length-print_line, readline_lem, readline_end}

abbrev pub print_file : List Line → Bytes
print_file [] = []
print_file (l ∷ ls) = print_line l ++ print_file ls

-- What the texts of a file come to, one after the other: an empty one is skipped, one that is no
-- assignment ends the loading with 1, and any other goes to the callback.
abbrev pub outcome : List Bytes → Calls → ℕ × Calls
outcome [] calls = (0, calls)
outcome ([] ∷ ts) calls = outcome ts calls
outcome ((c ∷ t) ∷ ts) calls =
    let pair = readkv (c ∷ t) in
    if is_zero pair.code then outcome ts (calls ++ (pair.key, pair.value) ∷ []) else (1, calls)

abbrev pub texts : List Line → List Bytes
texts = map (λ l. l.text)

-- a line that fits into the buffer of `fconf_load`
abbrev pub Fits : Line → Type 0
Fits l = IsLine l × (length l.text < read_line_len)

module _ (buf : Bytes) (size : ℕ) where
  -- the next line is read, and the loop goes on
  abbrev advance : ℕ → ℕ → Bytes → Calls → Option (ℕ × Calls)
  advance fuel m t calls = do
    (next, line) ← readline read_line_len buf m t
    load_loop fuel buf size next line calls

  -- a round of the loop, with the text that has been read
  round_lem :
      (fuel n : ℕ) (t : Bytes) (ts : List Bytes) (calls : Calls)
      → n < size
      → ((calls' : Calls) → advance fuel (suc n) t calls' ≡ some (outcome ts calls'))
      → load_loop (suc fuel) buf size (pos (suc n)) t calls ≡ some (outcome (t ∷ ts) calls)
  unfolding load_loop
  round_lem fuel n [] ts calls inside next = next calls
  round_lem fuel n (c ∷ t) ts calls inside next =
      let pair = readkv (c ∷ t) in
      let before_end : leb size n ≡ false = ground arith in
      elim (Bool-cases (is_zero pair.code)) [
        | inl good ↦ rw (good, before_end) (next (calls ++ (pair.key, pair.value) ∷ []))
        | inr bad ↦ rw bad refl
      ]

  advance_lem :
      (ls : List Line) (fuel m : ℕ) (t behind : Bytes) (calls : Calls)
      → All Fits ls
      → drop m buf ≡ print_file ls ++ 0 ∷ behind
      → size ≡ m + length (print_file ls)
      → length ls < fuel
      → advance fuel m t calls ≡ some (outcome (texts ls) calls)
  unfolding load_loop
  advance_lem ls zero m t behind calls fit here sized enough = absurd (omega (arith, enough))
  advance_lem [] (suc fuel) m t behind calls fit here sized enough =
      rw (readline_end read_line_len m buf t behind here) refl
  advance_lem (l ∷ ls) (suc fuel) m t behind calls ((is, room), fit) here sized enough =
      let rest = print_file ls ++ 0 ∷ behind in
      let line = print_line l in
      let here' : drop m buf ≡ line ++ rest =
        here ∙ append_assoc line (print_file ls) (0 ∷ behind) in
      let n = m + l.indent + length l.text + length l.comment in
      let at : m + length line ≡ suc n = omega (arith, length-print_line l) in
      let there : drop (suc n) buf ≡ rest =
        ap (λ k. drop k buf) (sym at)
        ∙ sym (drop-drop m (length line) buf)
        ∙ ap (drop (length line)) here'
        ∙ drop-append_self (length line) line rest refl in
      let sized' : size ≡ suc n + length (print_file ls) =
        omega (arith, sized, at, length-append line (print_file ls)) in
      rw (readline_lem read_line_len m buf t rest l is here' room) (
        ap (λ k. load_loop (suc fuel) buf size (pos k) l.text calls) at
        ∙ round_lem fuel n l.text (texts ls) calls (omega (arith, sized')) (λ calls'.
          advance_lem ls fuel (suc n) l.text behind calls' fit there sized'
            (omega (arith, enough))))

length_le-print_file : (ls : List Line) → length ls ≤ length (print_file ls)
length_le-print_file [] = omega arith
length_le-print_file (l ∷ ls) = omega (
  arith,
  length_le-print_file ls,
  length-print_line l,
  length-append (print_line l) (print_file ls),
)

-- the buffer of `fconf_load` with a file in it
abbrev loaded : Bytes → Bytes
loaded file = file ++ replicate (conf_buff_len - length file) 0

load-advance :
    (file : Bytes)
    → 0 < length file
    → length file < conf_buff_len
    → load (some file) ≡ advance (loaded file) (length file) (suc (length file)) 0 [] []
unfolding load
load-advance file some_bytes small =
    let room : leb conf_buff_len (length file) ≡ false = ground arith in
    let more : (length file == 0) ≡ false = ground arith in rw (room, more) refl

replicate_pos : (k : ℕ) → 0 < k → replicate {A = ℕ} k 0 ≡ 0 ∷ replicate (k - 1) 0
replicate_pos zero pos' = absurd (omega arith)
replicate_pos (suc k) pos' =
    ap (λ j. 0 ∷ replicate {A = ℕ} j 0) {x = k} {y = suc k - 1} (omega arith)

-- `fconf_load` of a file of lines that each end with a line feed, shorter than its buffer, is
-- defined. A line is blanks, a text of fewer than 1024 bytes, and a comment after a number sign;
-- a text starts with no blank and holds no zero byte, line feed or number sign. The texts are
-- taken in their order: an empty one is skipped, one that `fconf_readkv` accepts goes to the
-- callback as a key and a value, and the first one that it rejects ends the loading with 1; if
-- there is none, it ends with 0.
pub load_lem :
    (ls : List Line)
    → All Fits ls
    → length (print_file ls) < conf_buff_len
    → load (some (print_file ls)) ≡ some (outcome (texts ls) [])
unfolding load
load_lem [] fit small = refl
load_lem (l ∷ ls) fit small =
    let file = print_file (l ∷ ls) in
    let lines = length_le-print_file (l ∷ ls) in
    load-advance file (omega (arith, lines)) small
    ∙ advance_lem (loaded file) (length file) (l ∷ ls) (suc (length file)) 0 []
        (replicate (conf_buff_len - length file - 1) 0) [] fit
        (ap (λ z. file ++ z) (replicate_pos (conf_buff_len - length file) (omega (arith, small))))
        (omega arith) (omega (arith, lines))
