-- ===== src/Cache/Table.antt =====
-- Tables of fhash/fhash_str.c with one key and with two, and caches over them.
use final_libs.Prelude.{
  ℕ, ◌≡◌, [], ◌∷◌, refl, true, Option, none, some, arith, ◌>>=◌, Ensures, Ensures-bind,
  Ensures-both, Ensures-some, write_at, realloc_cells, tabulate, splice,
}
use final_libs.Log.Wire.{bytes_of}
use final_libs.Hash.Fnv.{fnv_from, xor}
use final_libs.Hash.Node.{node_set, set_key, set_value, try_enlarge, data_sz, key_real_sz}
use final_libs.Hash.Mgr.{find, mgr_add, place_to_add, mgr_set, enlarge}
use final_libs.Hash.Table.{tbl_create, tbl_set, locate, set_found, count_added}
use final_libs.Hash.Core.{Fhash, need_rehash, can_rehash, try_rehash}
use final_libs.Hash.Api
use final_libs.Hash.Api.{create, set_now}
use final_libs.Hash.Str.{str_create, str_set}
use final_libs.Cache.Lookup.{Index}
use final_libs.Cache.Strings.{StandsFor, strings}
use final_libs.Cache.Samples.{
  key_a, key_b, pair_index, pair_over, pair_over-IsCache, lone_index, lone_over, lone_over-IsCache,
}
use final_libs.Cache.Inv.{IsCache}
use final_libs.Cache.Room.{exact}
use final_libs.Cache.{Cache}

-- what new memory holds
abbrev pub blank_memory : ℕ → ℕ
blank_memory _ = 0

abbrev empty_table : Option Fhash
empty_table = str_create 0 true

abbrev one_key : Option Fhash
one_key = empty_table >>= λ h. str_set blank_memory h key_b (some 5)

abbrev two_keys : Option Fhash
two_keys = one_key >>= λ h. str_set blank_memory h key_a (some 3)

abbrev Counts : ℕ → Fhash → Type 0
Counts n h = h.current.slots_used ≡ n

empty_table-Counts : Ensures (Counts 0) empty_table
unfolding str_create create tbl_create
empty_table-Counts = refl

one_key-Counts : Ensures (Counts 1) one_key
unfolding str_create str_set create tbl_create Api.set bytes_of set_now tbl_set locate fnv_from xor
    set_found find mgr_add place_to_add mgr_set enlarge node_set set_key set_value try_enlarge
    need_rehash can_rehash try_rehash count_added write_at data_sz key_real_sz realloc_cells
    tabulate splice
one_key-Counts = refl

two_keys-Counts : Ensures (Counts 2) two_keys
unfolding str_create str_set create tbl_create Api.set bytes_of set_now tbl_set locate fnv_from xor
    set_found find mgr_add place_to_add mgr_set enlarge node_set set_key set_value try_enlarge
    need_rehash can_rehash try_rehash count_added write_at data_sz key_real_sz realloc_cells
    tabulate splice
two_keys-Counts = refl

abbrev texts : Index
texts = strings blank_memory

empty_table-Stands : Ensures (λ h. StandsFor h (λ _. none) × Counts 0 h) empty_table
empty_table-Stands = Ensures-both _ _ empty_table texts.create_stands empty_table-Counts

one_key-Stands : Ensures (λ h. StandsFor h lone_index × Counts 1 h) one_key
one_key-Stands =
    Ensures-both (λ h. StandsFor h lone_index) (Counts 1) one_key
      (Ensures-bind (λ h. StandsFor h lone_index) empty_table
        (λ h. str_set blank_memory h key_b (some 5)) empty_table-Stands
        (λ h (stands, counts).
          texts.set_stands h (λ _. none) key_b 5 stands refl (omega arith) (omega (arith, counts))))
      one_key-Counts

two_keys-Stands : Ensures (λ h. StandsFor h pair_index × Counts 2 h) two_keys
two_keys-Stands =
    Ensures-both (λ h. StandsFor h pair_index) (Counts 2) two_keys
      (Ensures-bind (λ h. StandsFor h pair_index) one_key
        (λ h. str_set blank_memory h key_a (some 3)) one_key-Stands
        (λ h (stands, counts).
          texts.set_stands h lone_index key_a 3 stands refl (omega arith) (omega (arith, counts))))
      two_keys-Counts

pub one_table : (h : Fhash) × (one_key ≡ some h) × (StandsFor h lone_index × Counts 1 h)
one_table = Ensures-some (λ h. StandsFor h lone_index × Counts 1 h) one_key one_key-Stands

pub two_table : (h : Fhash) × (two_keys ≡ some h) × (StandsFor h pair_index × Counts 2 h)
two_table = Ensures-some (λ h. StandsFor h pair_index × Counts 2 h) two_keys two_keys-Stands

abbrev pub text_pair : Cache texts
text_pair = pair_over texts two_table.0

pub text_pair-IsCache : IsCache exact text_pair pair_index (3 ∷ []) (5 ∷ [])
text_pair-IsCache = pair_over-IsCache texts two_table.0 two_table.2.0

pub text_pair-used : texts.used text_pair.index ≡ 2
text_pair-used = two_table.2.1

abbrev pub text_lone : Cache texts
text_lone = lone_over texts one_table.0

pub text_lone-IsCache : IsCache exact text_lone lone_index [] (5 ∷ [])
text_lone-IsCache = lone_over-IsCache texts one_table.0 one_table.2.0
