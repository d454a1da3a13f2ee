-- ===== src/Conf/Split.antt =====
-- fconf/fconf.c: `fconf_readkv` splits a line at the first `=`.
use final_libs.Prelude.{
  ℕ, ◌≡◌, ◌≢◌, refl, ap, ap₂, ◌∙◌, none, some, [], ◌∷◌, ◌++◌, arith, test_ne, All, All-append,
  All-replicate, pos,
}
use final_libs.Conf.{Bytes, blank, equals, strchr, trim, split_line, check_key, readkv}
use final_libs.Conf.Trim.{blanks, StartsDark, EndsDark, trim_lem}

-- no byte is `c`
abbrev pub Without : ℕ → Bytes → Type 0
Without c = All (λ d. d ≢ c)

pub strchr-Without : (c : ℕ) (str : Bytes) → Without c str → strchr str c ≡ none
unfolding strchr
strchr-Without c [] free = refl
strchr-Without c (d ∷ str) free = rw (test_ne d c free.0, strchr-Without c str free.1) refl

pub strchr_at :
    (c : ℕ) (before behind : Bytes)
    → Without c before
    → strchr (before ++ c ∷ behind) c ≡ some (before, behind)
unfolding strchr
strchr_at c [] behind free = ground arith
strchr_at c (d ∷ before) behind free =
    rw (test_ne d c free.0, strchr_at c before behind free.1) refl

-- a key that is no part of its surroundings: it has neither blanks nor `=`
pub record IsKey (key : Bytes) : Type 0 where
  pub no_blank : Without blank key
  pub no_equals : Without equals key

Without-StartsDark : (key : Bytes) → Without blank key → StartsDark key
Without-StartsDark [] free = tt
Without-StartsDark (c ∷ key) free = free.0

Without-EndsDark : (key : Bytes) → Without blank key → EndsDark key
Without-EndsDark [] free = tt
Without-EndsDark (c ∷ []) free = free.0
Without-EndsDark (c ∷ d ∷ key) free = Without-EndsDark (d ∷ key) free.1

-- blanks, a key, blanks, `=`, blanks, a value, and blanks
abbrev pub assignment : ℕ → Bytes → ℕ → ℕ → Bytes → ℕ → Bytes
assignment a key b c value d =
    (blanks a ++ (key ++ blanks b)) ++ equals ∷ (blanks c ++ (value ++ blanks d))

readkv-check_key :
    (line key value : Bytes)
    → strchr line equals ≡ some (key, value)
    → readkv line ≡ check_key (trim key) (trim value)
unfolding readkv strchr split_line
readkv-check_key [] key value e = absurd (ground arith)
readkv-check_key (c ∷ line) key value e = ap split_line e

-- `fconf_readkv` of a key, `=` and a value, with any number of blanks before and behind the key
-- and the value, returns 0 with that key and that value, if the key holds no blank and no `=`,
-- and the value neither starts nor ends with a blank.
pub readkv_lem :
    (key value : Bytes) (a b c d : ℕ)
    → IsKey key
    → StartsDark value
    → EndsDark value
    → readkv (assignment a key b c value d)
      ≡ record { code = pos 0; key = some key; value = some value }
unfolding check_key
readkv_lem key value a b c d is starts ends =
    let left = blanks a ++ (key ++ blanks b) in
    let right = blanks c ++ (value ++ blanks d) in
    let spaces =
      λ (n : ℕ). All-replicate (λ e. e ≢ equals) n blank (λ e. absurd (omega (arith, e))) in
    let free : Without equals left =
      All-append _ (blanks a) (key ++ blanks b) (spaces a)
        (All-append _ key (blanks b) is.no_equals (spaces b)) in
    readkv-check_key (left ++ equals ∷ right) left right (strchr_at equals left right free)
    ∙ ap₂ check_key
        (trim_lem a b key (Without-StartsDark key is.no_blank) (Without-EndsDark key is.no_blank))
        (trim_lem c d value starts ends)
    ∙ rw (strchr-Without blank key is.no_blank) refl
