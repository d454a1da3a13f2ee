-- ===== src/Hash/Fnv.antt =====
-- fhash/fhash_core.c, HASH ALGORITHM: the hash of a table that is created without one.
use final_libs.Prelude.{ℕ, zero, suc, ◌+◌, ◌*◌, ◌/◌, ◌%◌, ◌^◌, [], ◌∷◌, Option, none, some}
use final_libs.Hash.Node.{Bytes}

-- `^` on numbers of `bits` bits
unfoldable pub xor : ℕ → ℕ → ℕ → ℕ
xor zero a b = 0
xor (suc bits) a b = (a + b) % 2 + 2 * xor bits (a / 2) (b / 2)

-- FNV_32_PRIME
abbrev pub fnv_32_prime : ℕ
fnv_32_prime = 16777619

-- the loop of `_hash_fnv_algorithm`, from the value `hval` on
unfoldable pub fnv_from : ℕ → Bytes → ℕ
fnv_from hval [] = hval
fnv_from hval (byte ∷ bytes) = fnv_from (xor 32 (hval * fnv_32_prime % 2 ^ 32) byte) bytes

abbrev pub fnv : Bytes → ℕ
fnv = fnv_from 0

-- The hash function of a new table: `opt.hash_alg`, unless that is NULL
abbrev pub hash_or_default : Option (Bytes → ℕ) → Bytes → ℕ
hash_or_default none = fnv
hash_or_default (some hash_alg) = hash_alg
