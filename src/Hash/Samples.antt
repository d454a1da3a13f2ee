-- ===== src/Hash/Samples.antt =====
-- Concrete tables of fhash/fhash_core.c, with keys that are compared byte by byte.
use final_libs.Prelude.{
  ℕ, ◌+◌, ◌≡◌, refl, ap, subst, true, false, Option, none, some, [], ◌∷◌, arith, if◌then◌else◌,
  ◌==◌, Ensures, slice, splice, write_at, tabulate, realloc_cells,
}
use final_libs.Hash.Node.{
  Bytes, key_real_sz, data_sz, node_key, try_enlarge, set_key, set_value, node_set,
}
use final_libs.Hash.Opt.{Opt, Lawful}
use final_libs.Hash.Fnv.{xor, fnv_from, fnv}
use final_libs.Hash.Mgr.{
  find, enlarge, first, better, best_from, applicable_node, mgr_set, place_to_add, mgr_add,
}
use final_libs.Hash.Table.{
  tbl_create, tbl_set, locate, set_found, count_added, tbl_set_only, set_only_found,
}
use final_libs.Hash.Core.{Fhash, try_rehash, can_rehash, need_rehash}
use final_libs.Hash.Core.Inv.{IsFhash}
use final_libs.Hash.Api.{create, set, set_now, set_iterated, set_delay, delay_found}
use final_libs.Hash.Api.Laws.{Is, create_lem}
use final_libs.Hash.Api.Set.{set_lem}

-- 0 for equal keys
unfoldable pub differ : Bytes → Bytes → ℕ
differ [] [] = 0
differ [] (_ ∷ _) = 1
differ (_ ∷ _) [] = 1
differ (a ∷ rest) (b ∷ rest') = if a == b then differ rest rest' else 1

abbrev pub bytes_opt : Opt
bytes_opt = record { hash_alg = fnv; compare = differ }

differ_self : (a : Bytes) → differ a a ≡ 0
unfolding differ
differ_self [] = refl
differ_self (x ∷ a) = ground (arith, differ_self a)

eq_of_same : (a b : Bytes) → (differ a b == 0) ≡ true → a ≡ b
unfolding differ
eq_of_same [] [] h = refl
eq_of_same [] (_ ∷ _) h = absurd (ground arith)
eq_of_same (_ ∷ _) [] h = absurd (ground arith)
eq_of_same (x ∷ a) (y ∷ b) h = ground (arith, eq_of_same a b)

differ_symm : (a b : Bytes) → differ a b ≡ differ b a
unfolding differ
differ_symm [] [] = refl
differ_symm [] (_ ∷ _) = refl
differ_symm (_ ∷ _) [] = refl
differ_symm (x ∷ a) (y ∷ b) = ground (arith, differ_symm a b)

pub bytes_opt-Lawful : Lawful bytes_opt
bytes_opt-Lawful = record {
  same_refl = λ a. rw (differ_self a);
  same_symm = λ a b. ap (λ n. n == 0) (differ_symm a b);
  same_trans = λ a b c h k. subst (λ x. (differ a x == 0) ≡ true) (eq_of_same b c k) h;
  hash_congr = λ a b h. ap fnv (eq_of_same a b h);
}

-- The published FNV-1 step on one byte, from 0.
fnv-test : fnv (97 ∷ 98 ∷ []) ≡ 1627429073
unfolding fnv_from xor
fnv-test = refl

abbrev pub fresh : ℕ → ℕ
fresh i = 170 + i

-- a new table of two buckets
abbrev pub empty_table : Fhash
empty_table = record {
  iter_refs = 0;
  auto_rehash = true;
  rehashing = false;
  performing = false;
  current = record {
    index_used = 0;
    slots_used = 0;
    mgrs = (record { used = 0; nodes = [] }) ∷ (record { used = 0; nodes = [] }) ∷ [];
  };
  delayed = record { used = 0; nodes = [] };
}

empty_table-created : create 2 true ≡ some empty_table
unfolding create tbl_create
empty_table-created = refl

-- what an `Ensures` says of the result
ensured : {A : Type 0} (P : A → Type 0) (o : Option A) (a : A) → o ≡ some a → Ensures P o → P a
ensured P o a e h = subst (Ensures P) e h

pub empty_table-IsFhash : IsFhash bytes_opt empty_table
empty_table-IsFhash =
    (ensured (Is bytes_opt (λ _. none)) (create 2 true) empty_table empty_table-created
      (create_lem bytes_opt 2 true)).0

-- then the key 97 98 set to 5
abbrev pub one_key : Fhash
one_key = record empty_table {
  current = record {
    index_used = 1;
    slots_used = 1;
    mgrs =
        (record { used = 0; nodes = [] })
        ∷ (record {
          used = 1;
          nodes =
              (record {
                real_sz = 10;
                valid = true;
                key_sz = 2;
                value_sz = 1;
                memory = 97 ∷ 98 ∷ 0 ∷ 173 ∷ 174 ∷ 175 ∷ 176 ∷ 177 ∷ 5 ∷ 0 ∷ [];
              })
              ∷ [];
        })
        ∷ [];
  };
}

one_key-set : set fresh bytes_opt empty_table (97 ∷ 98 ∷ []) (5 ∷ []) ≡ some one_key
unfolding set set_now tbl_set locate find set_found count_added mgr_add place_to_add enlarge
    applicable_node best_from better first data_sz key_real_sz mgr_set node_set set_key set_value
    try_enlarge write_at splice realloc_cells tabulate xor fnv_from try_rehash can_rehash
    need_rehash
one_key-set = refl

pub one_key-IsFhash : IsFhash bytes_opt one_key
one_key-IsFhash =
    (ensured _ (set fresh bytes_opt empty_table (97 ∷ 98 ∷ []) (5 ∷ [])) one_key one_key-set (
      set_lem bytes_opt-Lawful empty_table empty_table-IsFhash (97 ∷ 98 ∷ []) fresh (5 ∷ []) refl
        refl (omega arith))).0

abbrev pub one_key_iterated : Fhash
one_key_iterated = record one_key { iter_refs = 1 }

pub one_key_iterated-IsFhash : IsFhash bytes_opt one_key_iterated
one_key_iterated-IsFhash = record {
  table = one_key-IsFhash.table;
  actions = one_key-IsFhash.actions;
  apart = one_key-IsFhash.apart;
  settled = λ e. absurd (omega arith);
  not_rehashing = refl;
}

-- and the key 99 set to 6 during the iteration
abbrev pub one_delayed : Fhash
one_delayed = record one_key_iterated {
  delayed = record {
    used = 1;
    nodes =
        (record {
          real_sz = 10;
          valid = true;
          key_sz = 1;
          value_sz = 1;
          memory = 99 ∷ 0 ∷ 172 ∷ 173 ∷ 174 ∷ 175 ∷ 176 ∷ 177 ∷ 6 ∷ 0 ∷ [];
        })
        ∷ [];
  };
}

one_delayed-set : set fresh bytes_opt one_key_iterated (99 ∷ []) (6 ∷ []) ≡ some one_delayed
unfolding set set_iterated set_delay delay_found tbl_set_only set_only_found locate find mgr_add
    place_to_add enlarge applicable_node best_from better first data_sz key_real_sz mgr_set node_set
    set_key set_value try_enlarge write_at splice realloc_cells tabulate xor fnv_from slice node_key
    differ
one_delayed-set = refl

pub one_delayed-IsFhash : IsFhash bytes_opt one_delayed
one_delayed-IsFhash =
    (ensured _ (set fresh bytes_opt one_key_iterated (99 ∷ []) (6 ∷ [])) one_delayed one_delayed-set
      (set_lem bytes_opt-Lawful one_key_iterated one_key_iterated-IsFhash (99 ∷ []) fresh (6 ∷ [])
        refl refl (omega arith))).0
