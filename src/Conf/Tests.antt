-- ===== src/Conf/Tests.antt =====
-- Concrete files.
use final_libs.Prelude.{◌≡◌, refl, none, some, List, [], ◌∷◌, arith, All, pos}
use final_libs.Conf.{Bytes, trim, readkv, readline, skip_blanks, copy_line, next_line, load}
use final_libs.Conf.Split.{IsKey, assignment, readkv_lem}
use final_libs.Conf.Line.{Line}
use final_libs.Conf.Load.{print_file, texts, outcome, Fits, load_lem}

-- "ab"
abbrev name : Bytes
name = 97 ∷ 98 ∷ []

-- "x y"
abbrev words : Bytes
words = 120 ∷ 32 ∷ 121 ∷ []

-- "ab =  x y "
abbrev setting : Bytes
setting = assignment 0 name 1 2 words 1

name-IsKey : IsKey name
name-IsKey = record {
  no_blank = ((λ e. absurd (omega (arith, e))), ((λ e. absurd (omega (arith, e))), tt));
  no_equals = ((λ e. absurd (omega (arith, e))), ((λ e. absurd (omega (arith, e))), tt));
}

readkv_lem_example : readkv setting ≡ record { code = pos 0; key = some name; value = some words }
readkv_lem_example =
    readkv_lem name words 0 1 2 1 name-IsKey (λ e. absurd (omega (arith, e)))
      (λ e. absurd (omega (arith, e)))

-- a line with a comment only, one with a setting, and one without a `=`
abbrev three_lines : List Line
three_lines =
    record { indent = 1; text = []; comment = 35 ∷ 61 ∷ [] }
    ∷ record { indent = 0; text = 97 ∷ 61 ∷ 98 ∷ []; comment = 35 ∷ [] }
    ∷ record { indent = 2; text = 97 ∷ []; comment = [] }
    ∷ []

three-Fit : All Fits three_lines
three-Fit = (
  (
    record { starts = tt; plain = tt; comment = (refl, ((λ e. absurd (omega (arith, e))), tt)) },
    omega arith,
  ),
  (
    (
      record {
        starts = λ e. absurd (omega (arith, e));
        plain = (
          (
            (λ e. absurd (omega (arith, e))),
            ((λ e. absurd (omega (arith, e))), (λ e. absurd (omega (arith, e)))),
          ),
          (
            (
              (λ e. absurd (omega (arith, e))),
              ((λ e. absurd (omega (arith, e))), (λ e. absurd (omega (arith, e)))),
            ),
            (
              (
                (λ e. absurd (omega (arith, e))),
                ((λ e. absurd (omega (arith, e))), (λ e. absurd (omega (arith, e)))),
              ),
              tt,
            ),
          ),
        );
        comment = (refl, tt);
      },
      omega arith,
    ),
    (
      (
        record {
          starts = λ e. absurd (omega (arith, e));
          plain = (
            (
              (λ e. absurd (omega (arith, e))),
              ((λ e. absurd (omega (arith, e))), (λ e. absurd (omega (arith, e)))),
            ),
            tt,
          );
          comment = tt;
        },
        omega arith,
      ),
      tt,
    ),
  ),
)

load_lem_example : load (some (print_file three_lines)) ≡ some (outcome (texts three_lines) [])
load_lem_example = load_lem three_lines three-Fit (omega arith)

-- The file calls back once and then fails.
fails_third : outcome (texts three_lines) [] ≡ (1, (some (97 ∷ []), some (98 ∷ [])) ∷ [])
unfolding readkv final_libs.Conf.strchr final_libs.Conf.split_line final_libs.Conf.check_key trim
    final_libs.Conf.trim_left final_libs.Conf.trim_right final_libs.Conf.trim_right_from
    final_libs.Conf.blank_at
fails_third = refl

-- A last line without a line feed is read beyond the buffer.
no_line_feed : readline 16 (97 ∷ 61 ∷ 98 ∷ 0 ∷ 0 ∷ []) 0 [] ≡ none
unfolding readline skip_blanks copy_line next_line final_libs.Conf.at_end
no_line_feed = refl
