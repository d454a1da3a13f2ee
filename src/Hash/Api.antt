-- ===== src/Hash/Api.antt =====
-- fhash/fhash_core.c, OPEN API. A key or a value is the bytes at the pointer; NULL and a size of 0
-- or less are the empty list.
pub mod Laws
pub mod Set
pub mod Rehash
pub mod Frame
use final_libs.Prelude.{
  ℕ, suc, Bool, true, false, ◌||◌, Option, none, some, List, [], ◌∷◌, ltb, ◌==◌, if◌then◌else◌,
  ◌>>=◌, ◌>>◌, length,
}
use final_libs.Hash.Node.{Bytes}
use final_libs.Hash.Opt.{Opt}
use final_libs.Hash.Mgr.{Mgr, mgr_init, find, mgr_set, mgr_add, mgr_get}
use final_libs.Hash.Table.{
  Table, index_size, tbl_create, tbl_set, tbl_set_only, tbl_get, tbl_del, tbl_fetch_and_del,
}
use final_libs.Hash.Core.{Fhash, can_rehash, rehash_size, rehash_to, try_rehash}

abbrev pub is_null : Bytes → Bool
is_null [] = true
is_null (_ ∷ _) = false

-- DEFAULT_TABLE_SIZE
abbrev pub default_table_size : ℕ
default_table_size = 10

-- `fhash_create`, with the flag FHASH_MASK_AUTO_REHASH
unfoldable pub create : ℕ → Bool → Option Fhash
create init_size auto = do
  t ← tbl_create (if init_size == 0 then default_table_size else init_size)
  some (record {
    iter_refs = 0;
    auto_rehash = auto;
    rehashing = false;
    performing = false;
    current = t;
    delayed = mgr_init;
  })

-- the two branches of `_hash_set_delay`
unfoldable pub delay_found : (ℕ → ℕ) → Mgr → Bytes → Bytes → Option ℕ → Option Mgr
delay_found fresh m key value none = mgr_add fresh m key value
delay_found fresh m key value (some i) = mgr_set fresh m i key value

unfoldable pub set_delay : (ℕ → ℕ) → Opt → Fhash → Bytes → Bytes → Option Fhash
set_delay fresh opt h key value = do
  m ← delay_found fresh h.delayed key value (find opt true key h.delayed.nodes)
  some (record h { delayed = m })

unfoldable pub set_iterated : (ℕ → ℕ) → Opt → Fhash → Bytes → Bytes → Option Fhash
set_iterated fresh opt h key value = do
  (success, t) ← tbl_set_only fresh opt h.current key value
  if success == 0
      then set_delay fresh opt (record h { current = t }) key value
      else some (record h { current = t })

unfoldable pub set_now : (ℕ → ℕ) → Opt → Fhash → Bytes → Bytes → Option Fhash
set_now fresh opt h key value = do
  t ← tbl_set fresh opt h.current key value
  let h' = record h { current = t }
  if h'.auto_rehash then try_rehash opt h' else some h'

-- `fhash_set`
unfoldable pub set : (ℕ → ℕ) → Opt → Fhash → Bytes → Bytes → Option Fhash
set fresh opt h key value =
    if is_null key || is_null value
    then some h
    else if ltb 0 h.iter_refs
    then set_iterated fresh opt h key value
    else set_now fresh opt h key value

-- the value in the table, or else the delayed one
unfoldable pub or_delayed : Opt → Fhash → Bytes → Option Bytes → Option Bytes
or_delayed opt h key none = mgr_get opt h.delayed key
or_delayed opt h key (some v) = some v

-- `fhash_get`
unfoldable pub get : Opt → Fhash → Bytes → Option (Option Bytes)
get opt h key =
    if is_null key
    then some none
    else do found ← tbl_get opt h.current key; some (or_delayed opt h key found)

-- `fhash_del`
unfoldable pub del : Opt → Fhash → Bytes → Option Fhash
del opt h key =
    if is_null key
    then some h
    else do t ← tbl_del opt h.current key; some (record h { current = t })

-- `fhash_fetch_and_del`; a `value_sz` of 0 also stands for a NULL destination.
unfoldable pub fetch_and_del : Opt → Fhash → Bytes → ℕ → Option (Option Bytes × Fhash)
fetch_and_del opt h key value_sz =
    if is_null key
    then some (none, h)
    else if value_sz == 0
    then (do h' ← del opt h key; some (none, h'))
    else (do
      (out, t) ← tbl_fetch_and_del opt h.current key value_sz
      some (out, record h { current = t }))

-- `fhash_rehash`, with its result 0 or 1
unfoldable pub rehash : Opt → Fhash → ℕ → Option (ℕ × Fhash)
rehash opt h new_size =
    if can_rehash h
    then (if new_size == index_size h.current then some (1, h) else (do
      h' ← rehash_to opt h (if new_size == 0 then rehash_size h.current else new_size)
      some (0, h')))
    else some (1, h)
