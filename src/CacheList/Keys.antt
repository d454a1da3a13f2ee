-- ===== src/CacheList/Keys.antt =====
-- fcache/fcache_list.c: the key in the buffer of a node.
use final_libs.Prelude.{
  ℕ, zero, suc, ◌+◌, ◌-◌, ◌≤◌, ◌<◌, ◌≡◌, ◌≢◌, refl, ap, some, List, [], ◌∷◌, ◌++◌, arith, ltb,
  if◌then◌else◌, length, replicate, length-replicate, All, splice, write_at, write_at-splice,
  test_ne, Ensures,
}
use final_libs.CacheList.{Key, strncpy, c_string}

-- no letter of the key is the end of a string
abbrev pub Clean : Key → Type 0
Clean = All (λ c. c ≢ 0)

length-strncpy : (key : Key) (n : ℕ) → length (strncpy key n) ≡ n
length-strncpy key zero = refl
length-strncpy [] (suc n) = ap suc (length-strncpy [] n)
length-strncpy (c ∷ key) (suc n) = ap suc (length-strncpy key n)

c_string-strncpy :
    (key : Key) (n : ℕ) (behind : List ℕ)
    → Clean key
    → length key < n
    → c_string (strncpy key n ++ behind) ≡ some key
unfolding c_string
c_string-strncpy key zero behind clean room = absurd (omega arith)
c_string-strncpy [] (suc n) behind clean room = refl
c_string-strncpy (c ∷ key) (suc n) behind clean room =
    rw (test_ne c 0 clean.0, c_string-strncpy key n behind clean.1 (omega arith)) refl

-- the buffer that `fcache_list_make_node` asks for
abbrev pub buffer_size : ℕ → ℕ
buffer_size key_size = 8 + (if ltb 8 key_size then key_size - 8 else 0) + 1

-- `strncpy` of a key and the byte behind it stays within the buffer of a node that was made for
-- it, and the string that is then read there is the key, if the key has no zero byte and is no
-- longer than `key_size`.
pub strncpy_fits :
    (key : Key) (key_size : ℕ)
    → Clean key
    → length key ≤ key_size
    → Ensures
        (λ bytes. c_string bytes ≡ some key)
        (write_at (replicate (buffer_size key_size) 0) 0 (strncpy key (key_size + 1)))
unfolding splice
strncpy_fits key key_size clean fits =
    let bytes = strncpy key (key_size + 1) in
    let room : 0 + length bytes ≤ length (replicate (buffer_size key_size) 0) = ground (
      arith,
      length-strncpy key (key_size + 1),
      length-replicate {A = ℕ} (buffer_size key_size) 0,
    ) in
    let written = write_at-splice (replicate (buffer_size key_size) 0) 0 bytes room in
    rw written (c_string-strncpy key (key_size + 1) _ clean (omega arith))
