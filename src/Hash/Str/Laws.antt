-- ===== src/Hash/Str/Laws.antt =====
-- fhash/fhash_str.c: the functions of the table are lawful on strings.
use final_libs.Prelude.{◌≡◌, ◌≢◌, refl, ap, subst, true, [], ◌∷◌, arith, ◌==◌, length, All}
use final_libs.Hash.Node.{Bytes}
use final_libs.Hash.Opt.{Lawful}
use final_libs.Hash.Str.{strncmp, compare_bytes, str_compare, str_opt}

compare_self : (a : Bytes) → compare_bytes a a ≡ 0
unfolding compare_bytes
compare_self [] = refl
compare_self (x ∷ a) = ground (arith, compare_self a)

eq_of_compare : (a b : Bytes) → (compare_bytes a b == 0) ≡ true → a ≡ b
unfolding compare_bytes
eq_of_compare [] [] h = refl
eq_of_compare [] (_ ∷ _) h = absurd (ground arith)
eq_of_compare (_ ∷ _) [] h = absurd (ground arith)
eq_of_compare (x ∷ a) (y ∷ b) h = ground (arith, eq_of_compare a b)

compare_symm : (a b : Bytes) → compare_bytes a b ≡ compare_bytes b a
unfolding compare_bytes
compare_symm [] [] = refl
compare_symm [] (_ ∷ _) = refl
compare_symm (_ ∷ _) [] = refl
compare_symm (x ∷ a) (y ∷ b) = ground (arith, compare_symm a b)

pub str_compare_self : (a : Bytes) → str_compare a a ≡ 0
unfolding str_compare
str_compare_self a =
    let same : (length a == length a) ≡ true = ground arith in rw same (compare_self a)

pub eq_of_str_compare : (a b : Bytes) → (str_compare a b == 0) ≡ true → a ≡ b
unfolding str_compare
eq_of_str_compare a b h = eq_of_compare a b (ground (arith, h))

str_compare_symm : (a b : Bytes) → str_compare a b ≡ str_compare b a
unfolding str_compare
str_compare_symm a b = ground (arith, compare_symm a b)

pub str_opt-Lawful : Lawful str_opt
str_opt-Lawful = record {
  same_refl = λ a. rw (str_compare_self a);
  same_symm = λ a b. ap (λ n. n == 0) (str_compare_symm a b);
  same_trans = λ a b c h k. subst (λ x. (str_compare a x == 0) ≡ true) (eq_of_str_compare b c k) h;
  hash_congr = λ a b h. ap str_opt.hash_alg (eq_of_str_compare a b h);
}

-- Without zero bytes, `_hash_str_compare` is what `strncmp` says of as many bytes.
pub str_compare-strncmp :
    (a b : Bytes)
    → All (λ x. x ≢ 0) a
    → length a ≡ length b
    → str_compare a b ≡ strncmp (length a) a b
unfolding str_compare compare_bytes strncmp
str_compare-strncmp a b text same =
    let lengths : (length a == length b) ≡ true = ground (arith, same) in
    rw lengths (walk a b text same)
  where
    walk :
        (a b : Bytes)
        → All (λ x. x ≢ 0) a
        → length a ≡ length b
        → compare_bytes a b ≡ strncmp (length a) a b
    walk [] [] text same = refl
    walk [] (y ∷ b) text same = absurd (omega (arith, same))
    walk (x ∷ a) [] text same = absurd (omega (arith, same))
    walk (x ∷ a) (y ∷ b) text same = ground (arith, text.0, walk a b text.1 (omega (arith, same)))
