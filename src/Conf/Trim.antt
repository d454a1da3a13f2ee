-- ===== src/Conf/Trim.antt =====
-- fconf/fconf.c: `trim` takes the blanks around a text away.
use final_libs.Prelude.{
  ℕ, zero, suc, ◌+◌, ◌≡◌, ◌≢◌, refl, ap, sym, ◌∙◌, true, false, [], ◌∷◌, ◌++◌, arith, test_ne, take,
  replicate, length, length-append, length-replicate, take-append_self, append-nil, append_assoc,
}
use final_libs.Conf.{Bytes, blank, trim_left, blank_at, trim_right_from, trim_right, trim}

abbrev pub blanks : ℕ → Bytes
blanks n = replicate n blank

-- the first byte is no blank
abbrev pub StartsDark : Bytes → Type 0
StartsDark [] = Unit {0}
StartsDark (c ∷ str) = c ≢ blank

-- the last byte is no blank
abbrev pub EndsDark : Bytes → Type 0
EndsDark [] = Unit {0}
EndsDark (c ∷ []) = c ≢ blank
EndsDark (c ∷ d ∷ str) = EndsDark (d ∷ str)

trim_left-dark : (str : Bytes) → StartsDark str → trim_left str ≡ str
unfolding trim_left
trim_left-dark [] dark = refl
trim_left-dark (c ∷ str) dark = rw (test_ne c blank dark) refl

pub trim_left_lem : (n : ℕ) (str : Bytes) → StartsDark str → trim_left (blanks n ++ str) ≡ str
unfolding trim_left
trim_left_lem zero str dark = trim_left-dark str dark
trim_left_lem (suc n) str dark = trim_left_lem n str dark

trim_left-blanks : (m n : ℕ) → trim_left (blanks m ++ blanks n) ≡ []
unfolding trim_left
trim_left-blanks zero zero = refl
trim_left-blanks zero (suc n) = trim_left-blanks zero n
trim_left-blanks (suc m) n = trim_left-blanks m n

-- blanks at the end of a text, counted from behind
blanks_snoc : (n : ℕ) → blanks (suc n) ≡ blanks n ++ blank ∷ []
blanks_snoc zero = refl
blanks_snoc (suc n) = ap (λ t. blank ∷ t) (blanks_snoc n)

last_dark : (c : ℕ) (str : Bytes) → EndsDark (c ∷ str) → blank_at (c ∷ str) (length str) ≡ false
unfolding blank_at
last_dark c [] dark = test_ne c blank dark
last_dark c (d ∷ str) dark = last_dark d str dark

blank_behind : (str more : Bytes) → blank_at (str ++ blank ∷ more) (length str) ≡ true
unfolding blank_at
blank_behind [] more = refl
blank_behind (c ∷ str) more = blank_behind str more

trim_right_from-dark : (i : ℕ) (str : Bytes) → blank_at str i ≡ false → trim_right_from i str ≡ str
unfolding trim_right_from
trim_right_from-dark zero str dark = rw dark refl
trim_right_from-dark (suc i) str dark = rw dark refl

trim_right_from_blank :
    (i : ℕ) (str : Bytes)
    → blank_at str (suc i) ≡ true
    → trim_right_from (suc i) str ≡ trim_right_from i (take (suc i) str)
unfolding trim_right_from
trim_right_from_blank i str at = rw at refl

-- a walk from the last of `n` blanks behind a text that does not end in one
trim_right_from_lem :
    (n i c : ℕ) (str : Bytes)
    → i ≡ length str + n
    → EndsDark (c ∷ str)
    → trim_right_from i ((c ∷ str) ++ blanks n) ≡ c ∷ str
trim_right_from_lem zero i c str e dark =
    let at_last : i ≡ length str = omega (arith, e) in
    ap (λ t. trim_right_from i (c ∷ t)) (append-nil str)
    ∙ trim_right_from-dark i (c ∷ str) (ap (blank_at (c ∷ str)) at_last ∙ last_dark c str dark)
trim_right_from_lem (suc n) zero c str e dark = absurd (omega (arith, e))
trim_right_from_lem (suc n) (suc i) c str e dark =
    let text = (c ∷ str) ++ blanks n in
    let line : (c ∷ str) ++ blanks (suc n) ≡ text ++ blank ∷ [] =
      ap (λ t. (c ∷ str) ++ t) (blanks_snoc n)
      ∙ sym (append_assoc (c ∷ str) (blanks n) (blank ∷ [])) in
    let size : length text ≡ suc i =
      omega (arith, e, length-append (c ∷ str) (blanks n), length-replicate n blank) in
    ap (trim_right_from (suc i)) line
    ∙ trim_right_from_blank i (text ++ blank ∷ [])
        (ap (blank_at (text ++ blank ∷ [])) (sym size) ∙ blank_behind text [])
    ∙ ap (trim_right_from i) (take-append_self (suc i) text (blank ∷ []) size)
    ∙ trim_right_from_lem n i c str (omega (arith, e)) dark

-- `trim` of a text that neither starts nor ends with a blank, with blanks around it
pub trim_lem :
    (before after : ℕ) (str : Bytes)
    → StartsDark str
    → EndsDark str
    → trim (blanks before ++ (str ++ blanks after)) ≡ str
unfolding trim trim_right trim_left
trim_lem before after [] starts ends = ap trim_right (trim_left-blanks before after)
trim_lem before after (c ∷ str) starts ends =
    ap trim_right (trim_left_lem before (c ∷ str ++ blanks after) starts)
    ∙ trim_right_from_lem after (length (str ++ blanks after)) c str
        (omega (arith, length-append str (blanks after), length-replicate after blank)) ends
