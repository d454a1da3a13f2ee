-- ===== src/Cache/Lookup.antt =====
-- The index of a cache: what fcache/fcache.c asks of include/flibs/fhash_str.h, a hash table from
-- string keys to nodes.
use final_libs.Prelude.{
  ℕ, ◌+◌, ◌-◌, ◌^◌, ◌<◌, ◌≤◌, leb, length, ◌≡◌, Bool, true, false, ◌&&◌, Option, none, some, [],
  ◌∷◌, ◌==◌, if◌then◌else◌, Ensures,
}
use final_libs.Dlist.Cells.{Ptr}
use final_libs.CacheList.{Key}

-- one letter after the other
unfoldable pub same_key : Key → Key → Bool
same_key [] [] = true
same_key [] (_ ∷ _) = false
same_key (_ ∷ _) [] = false
same_key (c ∷ k) (d ∷ q) = (c == d) && same_key k q

-- the map with one key bound to `p`
abbrev pub bind : (Key → Ptr) → Key → Ptr → Key → Ptr
bind g key p q = if same_key key q then p else g q

-- a key that `fhash_str` does not take: an empty one, or one with a length that is no `key_sz_t`
abbrev pub is_unfit_key : Key → Bool
is_unfit_key [] = true
is_unfit_key (c ∷ key) = leb (2 ^ 31) (length (c ∷ key))

-- the most nodes that a table counts, SIZE_MAX
abbrev pub most_nodes : ℕ
most_nodes = 2 ^ 64 - 1

-- What a cache asks of its table. `Stands t g` says that the table is well formed and gives to each
-- key what `g` gives it; `used` is how many nodes it counts. Hash/Str is one (Cache/Strings).
pub record Index : Type 1 where
  pub Table : Type 0
  pub Stands : Table → (Key → Ptr) → Type 0
  pub used : Table → ℕ
  pub create : Option Table
  pub get : Table → Key → Option Ptr
  pub set : Table → Key → ℕ → Option Table
  pub del : Table → Key → Option Table
  pub create_stands : Ensures (λ t. Stands t (λ _. none)) create
  pub get_stands :
      (t : Table) (g : Key → Ptr) (key : Key)
      → Stands t g
      → is_unfit_key key ≡ false
      → get t key ≡ some (g key)
  pub set_stands :
      (t : Table) (g : Key → Ptr) (key : Key) (a : ℕ)
      → Stands t g
      → is_unfit_key key ≡ false
      → a < 2 ^ 64
      → used t + 1 < most_nodes
      → Ensures (λ t'. Stands t' (bind g key (some a))) (set t key a)
  pub del_stands :
      (t : Table) (g : Key → Ptr) (key : Key)
      → Stands t g
      → is_unfit_key key ≡ false
      → Ensures (λ t'. Stands t' (bind g key none) × (used t' ≤ used t)) (del t key)
