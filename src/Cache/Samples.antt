-- ===== src/Cache/Samples.antt =====
-- A table of strings as a function, and two caches over any table that finds their keys.
use final_libs.Prelude.{
  ℕ, zero, suc, ◌≡◌, ◌≢◌, refl, sym, ap, ◌∙◌, true, false, ◌||◌, none, some, [], ◌∷◌, ◌++◌, arith,
  ◌==◌, if◌then◌else◌, inl, inr, Bool-cases, replicate, test_ne,
}
use native.Mathlib.Decide.{ℕ_discrete}
use final_libs.Dlist.Cells.{DNode, DList, Ptr}
use final_libs.Dlist.Chain.{has, distinct, sum_sizes}
use final_libs.Dlist.Inv.{IsList}
use final_libs.CacheList.{Key, Heap, c_string}
use final_libs.CacheList.Laws.{IsHeap}
use final_libs.Cache.Lookup.{Index, same_key, bind}
use final_libs.Cache.Pair.{two}
use final_libs.Cache.Inv.{IsCache}
use final_libs.Cache.Removal.{same_key_eq}
use final_libs.Cache.Room.{exact}
use final_libs.Cache.{Cache}

abbrev pub functions : Index
functions = record {
  Table = Key → Ptr;
  Stands = λ t g. (q : Key) → t q ≡ g q;
  used = λ _. 0;
  create = some (λ _. none);
  get = λ t key. some (t key);
  set = λ t key a. some (bind t key (some a));
  del = λ t key. some (bind t key none);
  create_stands = λ _. refl;
  get_stands = λ t g key stands _. ap some (stands key);
  set_stands = λ t g key a stands _ _ _ q. bound t g key (some a) stands q;
  del_stands = λ t g key stands _. (λ q. bound t g key none stands q, omega arith);
}
  where
    bound :
        (t g : Key → Ptr) (key : Key) (p : Ptr)
        → ((q : Key) → t q ≡ g q)
        → (q : Key) → bind t key p q ≡ bind g key p q
    bound t g key p stands q = elim (Bool-cases (same_key key q)) [
      | inl e ↦ rw e refl
      | inr e ↦ rw e (stands q)
    ]

abbrev pub key_a : Key
key_a = 97 ∷ []

abbrev pub key_b : Key
key_b = 98 ∷ []

abbrev pub key_c : Key
key_c = 99 ∷ []

abbrev nobody : DNode
nobody = record { prev = none; next = none; owner = none; data_size = 0; user_data = 0 }

-- a node alone in its list
abbrev alone : ℕ → ℕ → ℕ → DNode
alone l data_size obj = record {
  prev = none;
  next = none;
  owner = some l;
  data_size = data_size;
  user_data = obj;
}

abbrev no_list : DList
no_list = record { head = none; tail = none; size = 0; total_data_size = 0 }

abbrev list_of : ℕ → ℕ → DList
list_of a data_size = record { head = some a; tail = some a; size = 1; total_data_size = data_size }

-- The node 3 is active and has 4 bytes, under "a"; the node 5 is inactive and has 6, under "b".
abbrev pub pair_heap : Heap
pair_heap = record {
  store = record {
    nodes = λ b. if b == 3 then alone 0 4 11 else if b == 5 then alone 1 6 12 else nobody;
    lists = λ k. if k == 0 then list_of 3 4 else if k == 1 then list_of 5 6 else no_list;
  };
  keys = λ b. if b == 3 then key_a ++ replicate 8 0 else key_b ++ replicate 8 0;
  live = λ b. (b == 3) || (b == 5);
}

abbrev pub pair_index : Key → Ptr
pair_index q = if same_key key_a q then some 3 else if same_key key_b q then some 5 else none

-- a cache with the two nodes, over a table that finds them
abbrev pub pair_over : (ix : Index) → ix.Table → Cache ix
pair_over ix table = record {
  index = table;
  heap = pair_heap;
  frees = true;
  max_size = 10;
  op_count = 1999;
  enable_balance = true;
  freed = [];
}

pair-zero : IsList 0 pair_heap.store 0 (3 ∷ [])
unfolding has distinct sum_sizes
pair-zero = record {
  head = refl;
  tail = refl;
  linked = (refl, refl, tt, tt);
  unique = refl;
  owned = λ a o. ground arith;
  size = refl;
  total = refl;
}

pair-one : IsList 0 pair_heap.store 1 (5 ∷ [])
unfolding has distinct sum_sizes
pair-one = record {
  head = refl;
  tail = refl;
  linked = (refl, refl, tt, tt);
  unique = refl;
  owned = λ a o. ground arith;
  size = refl;
  total = refl;
}

pair-other : (k : ℕ) → IsList 0 pair_heap.store (suc (suc k)) []
unfolding has distinct sum_sizes
pair-other k =
    let far = test_ne (suc (suc k)) 0 (λ e. absurd (omega (arith, e))) in
    let far' = test_ne (suc (suc k)) 1 (λ e. absurd (omega (arith, e))) in
    record {
      head = rw (far, far') refl;
      tail = rw (far, far') refl;
      linked = tt;
      unique = refl;
      owned = λ a o. absurd (ground arith);
      size = rw (far, far') refl;
      total = rw (far, far') refl;
    }

pub pair-IsHeap : IsHeap exact pair_heap (two (3 ∷ []) (5 ∷ []))
unfolding has
pair-IsHeap = record { lists = lists; alive = alive }
  where
    lists : (k : ℕ) → IsList 0 pair_heap.store k (two (3 ∷ []) (5 ∷ []) k)
    lists zero = pair-zero
    lists (suc zero) = pair-one
    lists (suc (suc k)) = pair-other k

    alive : (l a : ℕ) → has a (two (3 ∷ []) (5 ∷ []) l) ≡ true → pair_heap.live a ≡ true
    alive zero a there = ground arith
    alive (suc zero) a there = ground arith
    alive (suc (suc l)) a there = absurd (ground arith)

pub pair_over-IsCache :
    (ix : Index) (table : ix.Table)
    → ix.Stands table pair_index
    → IsCache exact (pair_over ix table) pair_index (3 ∷ []) (5 ∷ [])
unfolding has c_string same_key
pair_over-IsCache ix table stands = record {
  heap = pair-IsHeap;
  index = stands;
  listed = λ q a found. elim (Bool-cases (same_key key_a q)) [
    | inl e ↦
        let at_3 : a ≡ 3 = ground arith in
        (ground arith, ap (λ n. c_string (pair_heap.keys n)) at_3 ∙ ap some (same_key_eq key_a q e))
    | inr e ↦ elim (Bool-cases (same_key key_b q)) [
      | inl e' ↦
          let at_5 : a ≡ 5 = ground arith in
          (
            ground arith,
            ap (λ n. c_string (pair_heap.keys n)) at_5 ∙ ap some (same_key_eq key_b q e'),
          )
      | inr e' ↦ absurd (ground arith)
    ]
  ];
  keyed = λ a there. elim (ℕ_discrete a 3) [
    | yes at_3 ↦ (key_a, ap (λ n. c_string (pair_heap.keys n)) at_3, ap some (sym at_3), refl)
    | no not_3 ↦
        let at_5 : a ≡ 5 = ground arith in
        (key_b, ap (λ n. c_string (pair_heap.keys n)) at_5, ap some (sym at_5), refl)
  ];
  small = omega arith;
}

abbrev pub pair : Cache functions
pair = pair_over functions pair_index

-- Only the node 5 is left, and the cache does not balance yet.
abbrev pub lone_heap : Heap
lone_heap = record {
  store = record {
    nodes = λ b. if b == 5 then alone 1 6 12 else nobody;
    lists = λ k. if k == 1 then list_of 5 6 else no_list;
  };
  keys = λ b. key_b ++ replicate 8 0;
  live = λ b. b == 5;
}

abbrev pub lone_index : Key → Ptr
lone_index q = if same_key key_b q then some 5 else none

abbrev pub lone_over : (ix : Index) → ix.Table → Cache ix
lone_over ix table = record {
  index = table;
  heap = lone_heap;
  frees = true;
  max_size = 10;
  op_count = 0;
  enable_balance = false;
  freed = [];
}

pub lone_over-IsCache :
    (ix : Index) (table : ix.Table)
    → ix.Stands table lone_index
    → IsCache exact (lone_over ix table) lone_index [] (5 ∷ [])
unfolding has distinct sum_sizes c_string same_key
lone_over-IsCache ix table stands = record {
  heap = record { lists = lists; alive = alive };
  index = stands;
  listed = λ q a found. elim (Bool-cases (same_key key_b q)) [
    | inl e ↦ (ground arith, ap some (same_key_eq key_b q e))
    | inr e ↦ absurd (ground arith)
  ];
  keyed = λ a there. let at_5 : a ≡ 5 = ground arith in (key_b, refl, ap some (sym at_5), refl);
  small = omega arith;
}
  where
    bare : (k : ℕ) → k ≢ 1 → IsList 0 lone_heap.store k []
    bare k ne =
        let far = test_ne k 1 ne in
        record {
          head = rw far refl;
          tail = rw far refl;
          linked = tt;
          unique = refl;
          owned = λ a o. absurd (ground arith);
          size = rw far refl;
          total = rw far refl;
        }

    lists : (k : ℕ) → IsList 0 lone_heap.store k (two [] (5 ∷ []) k)
    lists zero = bare 0 (λ e. absurd (omega (arith, e)))
    lists (suc zero) = record {
      head = refl;
      tail = refl;
      linked = (refl, refl, tt, tt);
      unique = refl;
      owned = λ a o. ground arith;
      size = refl;
      total = refl;
    }
    lists (suc (suc k)) = bare (suc (suc k)) (λ e. absurd (omega (arith, e)))

    alive : (l a : ℕ) → has a (two [] (5 ∷ []) l) ≡ true → lone_heap.live a ≡ true
    alive zero a there = absurd (ground arith)
    alive (suc zero) a there = ground arith
    alive (suc (suc l)) a there = absurd (ground arith)
