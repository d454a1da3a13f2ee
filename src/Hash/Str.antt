-- ===== src/Hash/Str.antt =====
-- fhash/fhash_str.c: a table whose keys are strings and whose values are pointers. A string is the
-- list of its bytes without the zero byte at its end.
pub mod Laws
use mathlib.Core.Option
use final_libs.Prelude.{
  ℕ, zero, suc, ◌^◌, Bool, true, false, Option, none, some, List, [], ◌∷◌, ltb, ◌==◌, if◌then◌else◌,
  ◌>>=◌, ◌>>◌, guard, length,
}
use final_libs.Log.Wire.{bytes_of, number_of}
use final_libs.Hash.Node.{Bytes}
use final_libs.Hash.Opt.{Opt}
use final_libs.Hash.Fnv.{hash_or_default}
use final_libs.Hash.Core.{Fhash}
use final_libs.Hash.Api.{create, set, get, fetch_and_del}

-- `strncmp`, as far as it is read: 0 or not. It stops behind a zero byte.
unfoldable pub strncmp : ℕ → Bytes → Bytes → ℕ
strncmp zero a b = 0
strncmp (suc n) (x ∷ a) (y ∷ b) =
    let rest = strncmp n a b in if x == y then (if x == 0 then 0 else rest) else 1
strncmp (suc n) [] b = 1
strncmp (suc n) (x ∷ a) [] = 1

-- byte by byte, for lists of one length
unfoldable pub compare_bytes : Bytes → Bytes → ℕ
compare_bytes (x ∷ a) (y ∷ b) = let rest = compare_bytes a b in if x == y then rest else 1
compare_bytes [] [] = 0
compare_bytes [] (y ∷ b) = 1
compare_bytes (x ∷ a) [] = 1

-- `_hash_str_compare`. In strings there is no zero byte for `strncmp` to stop at.
unfoldable pub str_compare : Bytes → Bytes → ℕ
str_compare a b = if length a == length b then compare_bytes a b else 1

abbrev pub str_opt : Opt
str_opt = record { hash_alg = hash_or_default none; compare = str_compare }

-- `(key_sz_t)strlen(key)` is the length of the string; one that `key_sz_t` cannot hold is not read.
abbrev pub sized : Bytes → Option Bytes
sized key = guard (ltb (length key) (2 ^ 31)) >> some key

-- `fhash_str_create`
unfoldable pub str_create : ℕ → Bool → Option Fhash
str_create init_size auto = create init_size auto

-- `fhash_str_set`; a pointer is NULL, or a number in 8 bytes.
unfoldable pub str_set : (ℕ → ℕ) → Fhash → Bytes → Option ℕ → Option Fhash
str_set fresh h key none = some h
str_set fresh h key (some p) = do k ← sized key; set fresh str_opt h k (bytes_of 8 p)

-- `fhash_str_get`
unfoldable pub str_get : Fhash → Bytes → Option (Option ℕ)
str_get h key = do k ← sized key; value ← get str_opt h k; some (Option.map number_of value)

-- `fhash_str_del`
unfoldable pub str_del : Fhash → Bytes → Option (Option ℕ × Fhash)
str_del h key = do
  k ← sized key
  (value, h') ← fetch_and_del str_opt h k 8
  some (Option.map number_of value, h')
