-- ===== src/Hash/Opt.antt =====
-- include/flibs/fhash_core.h: the two functions that a table is created with.
use final_libs.Prelude.{ℕ, ◌≡◌, Bool, true, ◌==◌}
use final_libs.Hash.Node.{Bytes}

-- `fhash_opt`. Of `compare` only the test against 0 is read, so a result is a number.
pub record Opt : Type 0 where
  pub hash_alg : Bytes → ℕ
  pub compare : Bytes → Bytes → ℕ

-- `!opt->compare(a, b)`
abbrev pub same : Opt → Bytes → Bytes → Bool
same opt a b = opt.compare a b == 0

-- What the table asks of them: keys that compare as 0 are an equivalence, and hash alike.
pub record Lawful (opt : Opt) : Type 0 where
  pub same_refl : (a : Bytes) → same opt a a ≡ true
  pub same_symm : (a b : Bytes) → same opt a b ≡ same opt b a
  pub same_trans : (a b c : Bytes) → same opt a b ≡ true → same opt b c ≡ true → same opt a c ≡ true
  pub hash_congr : (a b : Bytes) → same opt a b ≡ true → opt.hash_alg a ≡ opt.hash_alg b
