-- ===== src/Conf/Line.antt =====
-- fconf/fconf_core.c: `fconf_readline` on one line of a buffer.
use final_libs.Prelude.{
  ℕ, zero, suc, ◌+◌, ◌<◌, ◌≡◌, ◌≢◌, ◌⊎◌, inl, inr, refl, ap, ◌∙◌, false, some, [], ◌∷◌, ◌++◌, arith,
  test_ne, drop, length, length-append, length-replicate, append_assoc, All, pos, minus_one,
}
use final_libs.Conf.{Bytes, blank, lf, numsign, skip_blanks, copy_line, next_line, at_end, readline}
use final_libs.Conf.Trim.{blanks, StartsDark}
use final_libs.Conf.Split.{Without}

-- A line: blanks, a text, and a comment. The text starts with no blank, and holds no zero byte, line
-- feed or number sign; the comment is empty or starts with a number sign.
pub record Line : Type 0 where
  pub indent : ℕ
  pub text : Bytes
  pub comment : Bytes

abbrev pub IsPlain : ℕ → Type 0
IsPlain c = (c ≢ 0) × ((c ≢ lf) × (c ≢ numsign))

abbrev pub IsComment : Bytes → Type 0
IsComment [] = Unit {0}
IsComment (c ∷ str) = (c ≡ numsign) × Without lf str

pub record IsLine (l : Line) : Type 0 where
  pub starts : StartsDark l.text
  pub plain : All IsPlain l.text
  pub comment : IsComment l.comment

abbrev pub print_line : Line → Bytes
print_line l = blanks l.indent ++ (l.text ++ (l.comment ++ lf ∷ []))

-- a walk stands at a byte that is neither a blank nor the end
abbrev AtText : Bytes → Type 0
AtText [] = ⊥
AtText (c ∷ str) = (c ≢ blank) × (c ≢ 0)

skip_blanks_lem :
    (n start : ℕ) (s : Bytes) → AtText s → skip_blanks (blanks n ++ s) start ≡ some (s, start + n)
unfolding skip_blanks
skip_blanks_lem zero start [] at = elim at [ ]
skip_blanks_lem zero start (c ∷ s) at = rw (test_ne c blank at.0) (ground arith)
skip_blanks_lem (suc n) start s at =
    skip_blanks_lem n (suc start) s at ∙ ap (λ k. some (s, k)) (omega arith)

-- where a text stops
abbrev Stops : Bytes → Type 0
Stops [] = ⊥
Stops (c ∷ s) = (c ≡ lf) ⊎ (c ≡ numsign)

copy_line_lem :
    (room start : ℕ) (text s : Bytes)
    → All IsPlain text
    → Stops s
    → length text < room
    → copy_line room (text ++ s) start ≡ some (text, s, start + length text)
unfolding copy_line
copy_line_lem zero start text s plain stops fits = absurd (omega (arith, fits))
copy_line_lem (suc room) start [] [] plain stops fits = elim stops [ ]
copy_line_lem (suc room) start [] (c ∷ s) plain stops fits = ground (arith, stops)
copy_line_lem (suc room) start (c ∷ text) s plain stops fits =
    let (no_end, others) = plain.0 in
    rw
      (
        test_ne c 0 no_end,
        test_ne c lf others.0,
        test_ne c numsign others.1,
        copy_line_lem room (suc start) text s plain.1 stops (omega (arith, fits)),
      )
      (ap (λ k. some (c ∷ text, s, k)) (omega arith))

next_line_lem :
    (start : ℕ) (s rest : Bytes)
    → Without lf s
    → next_line (s ++ lf ∷ rest) start ≡ some (start + length s + 1)
unfolding next_line
next_line_lem start [] rest free = ap some (omega arith)
next_line_lem start (c ∷ s) rest free =
    rw (test_ne c lf free.0) (next_line_lem (suc start) s rest free.1 ∙ ap some (omega arith))

-- a line on which `fconf_readline` stands with its three walks before it
readline_walks :
    (room n start start2 next : ℕ) (buf line s text s2 : Bytes)
    → skip_blanks (drop n buf) n ≡ some (s, start)
    → at_end s ≡ false
    → copy_line room s start ≡ some (text, s2, start2)
    → next_line s2 start2 ≡ some next
    → readline room buf n line ≡ some (pos next, text)
unfolding readline
readline_walks room n start start2 next buf line s text s2 skipped more copied found =
    rw (skipped, more, copied, found) refl

at_text :
    (text comment rest : Bytes)
    → StartsDark text
    → All IsPlain text
    → IsComment comment
    → AtText (text ++ (comment ++ lf ∷ rest))
at_text [] [] rest dark plain is =
    ((λ e. absurd (omega (arith, e))), (λ e. absurd (omega (arith, e))))
at_text [] (c ∷ comment) rest dark plain (sign, _) =
    ((λ e. absurd (omega (arith, e, sign))), (λ e. absurd (omega (arith, e, sign))))
at_text (c ∷ text) comment rest dark plain is = (dark, plain.0.0)

not_at_end : (s : Bytes) → AtText s → at_end s ≡ false
unfolding at_end
not_at_end [] at = elim at [ ]
not_at_end (c ∷ s) at = test_ne c 0 at.1

comment-Stops : (comment rest : Bytes) → IsComment comment → Stops (comment ++ lf ∷ rest)
comment-Stops [] rest is = inl refl
comment-Stops (c ∷ comment) rest is = inr is.0

no_lf_in : (comment : Bytes) → IsComment comment → Without lf comment
no_lf_in [] is = tt
no_lf_in (c ∷ comment) (sign, free) = ((λ e. absurd (omega (arith, e, sign))), free)

print_line_rest :
    (l : Line) (rest : Bytes)
    → print_line l ++ rest ≡ blanks l.indent ++ (l.text ++ (l.comment ++ lf ∷ rest))
print_line_rest l rest =
    append_assoc (blanks l.indent) (l.text ++ (l.comment ++ lf ∷ [])) rest
    ∙ ap (λ s. blanks l.indent ++ s)
        (append_assoc l.text (l.comment ++ lf ∷ []) rest
          ∙ ap (λ s. l.text ++ s) (append_assoc l.comment (lf ∷ []) rest))

pub length-print_line :
    (l : Line) → length (print_line l) ≡ l.indent + length l.text + length l.comment + 1
length-print_line l = omega (
  arith,
  length-append (blanks l.indent) (l.text ++ (l.comment ++ lf ∷ [])),
  length-append l.text (l.comment ++ lf ∷ []),
  length-append l.comment (lf ∷ []),
  length-replicate l.indent blank,
)

-- `fconf_readline` reads the text of a line and goes to the next one, where the text and a zero byte
-- fit into the line.
pub readline_lem :
    (room n : ℕ) (buf line rest : Bytes) (l : Line)
    → IsLine l
    → drop n buf ≡ print_line l ++ rest
    → length l.text < room
    → readline room buf n line ≡ some (pos (n + length (print_line l)), l.text)
readline_lem room n buf line rest l is here fits =
    let tail = l.comment ++ lf ∷ rest in
    let at = at_text l.text l.comment rest is.starts is.plain is.comment in
    readline_walks room n (n + l.indent) (n + l.indent + length l.text)
      (n + l.indent + length l.text + length l.comment + 1) buf line (l.text ++ tail) l.text tail
      (ap (λ s. skip_blanks s n) (here ∙ print_line_rest l rest)
        ∙ skip_blanks_lem l.indent n (l.text ++ tail) at)
      (not_at_end (l.text ++ tail) at)
      (copy_line_lem room (n + l.indent) l.text tail is.plain
        (comment-Stops l.comment rest is.comment) fits)
      (next_line_lem (n + l.indent + length l.text) l.comment rest (no_lf_in l.comment is.comment))
    ∙ ap (λ k. some (pos k, l.text)) (omega (arith, length-print_line l))

-- At a zero byte there is no further line.
pub readline_end :
    (room n : ℕ) (buf line rest : Bytes)
    → drop n buf ≡ 0 ∷ rest
    → readline room buf n line ≡ some (minus_one, line)
unfolding readline skip_blanks at_end
readline_end room n buf line rest here = rw here refl
