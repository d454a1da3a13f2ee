-- ===== src/Cache/Strings.antt =====
-- fhash/fhash_str.c as the table of a cache.
use mathlib.Core.Option
use final_libs.Prelude.{
  ℕ, ◌+◌, ◌^◌, ◌<◌, ◌≤◌, ◌≡◌, refl, ap, sym, ◌∙◌, true, false, Option, none, some, [], ◌∷◌, arith,
  ◌==◌, ◌>>=◌, if◌then◌else◌, length, ltb, take, take_of_length_le, Bool-cases, inl, inr, Ensures,
  Ensures-bind, Ensures-Gives,
}
use final_libs.Dlist.Cells.{Ptr}
use final_libs.Log.Wire.{bytes_of, number_of, number_of-bytes_of, length-bytes_of}
use final_libs.CacheList.{Key}
use final_libs.Cache.Lookup.{Index, same_key, bind, is_unfit_key, most_nodes}
use final_libs.Cache.Removal.{same_key_eq, same_key_refl}
use final_libs.Hash.Opt.{same}
use final_libs.Hash.Node.{Bytes}
use final_libs.Hash.Core.{Fhash}
use final_libs.Hash.Core.Inv.{value_of, lookup-Free}
use final_libs.Hash.Core.Taken.{or_else}
use final_libs.Hash.Core.Rehash.{nothing_delayed}
use final_libs.Hash.Table.View.{view}
use final_libs.Hash.Api.{is_null, set, fetch_and_del, create}
use final_libs.Hash.Api.Laws.{Is, FetchDone, create_lem, get_lem, fetch_and_del_lem}
use final_libs.Hash.Api.Set.{set_lem}
use final_libs.Hash.Api.Frame.{Fewer, create-IsIdle, set_now-IsIdle, fetch_and_del-Fewer}
use final_libs.Hash.Str.{str_opt, str_create, str_set, str_get, str_del}
use final_libs.Hash.Str.Laws.{str_opt-Lawful, str_compare_self, eq_of_str_compare}

-- a pointer, as the bytes of a value
abbrev pub print_ptr : Ptr → Option Bytes
print_ptr p = Option.map (bytes_of 8) p

-- The table has no iterator, and its values are the pointers of `g`, each in 8 bytes.
pub record StandsFor (h : Fhash) (g : Key → Ptr) : Type 0 where
  pub is : Is str_opt (λ q. print_ptr (g q)) h
  pub idle : h.iter_refs ≡ 0
  pub word : (q : Key) (a : ℕ) → g q ≡ some a → a < 2 ^ 64

null_bytes : (a : ℕ) → is_null (bytes_of 8 a) ≡ false
unfolding bytes_of
null_bytes a = refl

or_else-none : (v : Option Bytes) → or_else v none ≡ v
or_else-none none = refl
or_else-none (some v) = refl

fit_null : (key : Key) → is_unfit_key key ≡ false → is_null key ≡ false
fit_null [] fit = fit
fit_null (c ∷ key) fit = refl

fit_length : (key : Key) → is_unfit_key key ≡ false → ltb (length key) (2 ^ 31) ≡ true
fit_length [] fit = absurd (ground (arith, fit))
fit_length (c ∷ key) fit = ground (arith, fit)

read_ptr : (p : Ptr) → ((a : ℕ) → p ≡ some a → a < 2 ^ 64) → Option.map number_of (print_ptr p) ≡ p
read_ptr none word = refl
read_ptr (some a) word = ap some (number_of-bytes_of 8 a (omega (arith, word a refl)))

read_taken :
    (p : Ptr)
    → ((a : ℕ) → p ≡ some a → a < 2 ^ 64)
    → Option.map number_of (Option.map (take 8) (print_ptr p)) ≡ p
read_taken none word = refl
read_taken (some a) word =
    ap (λ bs. some (number_of bs))
      (take_of_length_le 8 (bytes_of 8 a) (omega (arith, length-bytes_of 8 a)))
    ∙ read_ptr (some a) word

pub create_ok : Ensures (λ h. StandsFor h (λ _. none)) (str_create 0 true)
unfolding str_create
create_ok =
    Ensures-Gives (λ h. StandsFor h (λ _. none)) (create 0 true) (create_lem str_opt 0 true)
      (create-IsIdle 0 true)
      (λ h is idle. record { is = is; idle = idle; word = λ q a e. absurd (ground (arith, e)) })

pub get_ok :
    (h : Fhash) (g : Key → Ptr) (key : Key)
    → StandsFor h g
    → is_unfit_key key ≡ false
    → str_get h key ≡ some (g key)
unfolding str_get
get_ok h g key is fit =
    rw (fit_length key fit, get_lem str_opt-Lawful h is.is.0 key (fit_null key fit), is.is.1 key)
      (ap some (read_ptr (g key) (is.word key)))

bound :
    (g : Key → Ptr) (key : Key) (p : Ptr) (old : Bytes → Option Bytes)
    → ((q : Key) → old q ≡ print_ptr (g q))
    → (q : Key) → (if same str_opt key q then print_ptr p else old q) ≡ print_ptr (bind g key p q)
bound g key p old is q = elim (Bool-cases (same_key key q)) [
  | inl e ↦
      let e' : same str_opt key q ≡ true =
        ap (λ k. same str_opt key k) (sym (same_key_eq key q e))
        ∙ ap (λ n. n == 0) (str_compare_self key) in
      rw (e, e') refl
  | inr e ↦ elim (Bool-cases (same str_opt key q)) [
    | inl hit ↦
        let same_text : key ≡ q = eq_of_str_compare key q hit in
        absurd (ground (arith, e, ap (same_key key) (sym same_text), same_key_refl key))
    | inr miss ↦ rw (e, miss) (is q)
  ]
]

bound_word :
    (g : Key → Ptr) (key : Key) (p : Ptr)
    → ((a : ℕ) → p ≡ some a → a < 2 ^ 64)
    → ((q : Key) (a : ℕ) → g q ≡ some a → a < 2 ^ 64)
    → (q : Key) (a : ℕ) → bind g key p q ≡ some a
    → a < 2 ^ 64
bound_word g key p new word q a found = elim (Bool-cases (same_key key q)) [
  | inl e ↦ new a (ground (arith, e, found))
  | inr e ↦ word q a (ground (arith, e, found))
]

pub set_ok :
    (fresh : ℕ → ℕ) (h : Fhash) (g : Key → Ptr) (key : Key) (a : ℕ)
    → StandsFor h g
    → is_unfit_key key ≡ false
    → a < 2 ^ 64
    → h.current.slots_used + 1 < most_nodes
    → Ensures (λ h'. StandsFor h' (bind g key (some a))) (str_set fresh h key (some a))
unfolding str_set set
set_ok fresh h g key a is fit small room =
    let idle : ltb 0 h.iter_refs ≡ false = ground (arith, is.idle) in
    let some_bytes : is_null (bytes_of 8 a) ≡ false = null_bytes a in
    rw (fit_length key fit) (
      Ensures-Gives (λ h'. StandsFor h' (bind g key (some a)))
        (set fresh str_opt h key (bytes_of 8 a))
        (set_lem str_opt-Lawful h is.is.0 key fresh (bytes_of 8 a) (fit_null key fit) some_bytes
          room)
        (rw (fit_null key fit, some_bytes, idle)
          (set_now-IsIdle fresh str_opt h key (bytes_of 8 a) is.idle))
        (λ h' (ok, reads) idle'. record {
          is = (ok, λ q. reads q ∙ bound g key (some a) (value_of str_opt h) is.is.1 q);
          idle = idle';
          word = bound_word g key (some a) (λ b e. ground (arith, e, small)) is.word;
        }))

pub del_ok :
    (h : Fhash) (g : Key → Ptr) (key : Key)
    → StandsFor h g
    → is_unfit_key key ≡ false
    → Ensures
        (λ r.
          (r.0 ≡ g key)
          × StandsFor r.1 (bind g key none)
          × (r.1.current.slots_used ≤ h.current.slots_used))
        (str_del h key)
unfolding str_del
del_ok h g key is fit =
    let none_delayed =
      lookup-Free str_opt key h.delayed.nodes (nothing_delayed str_opt h is.is.0 is.idle) in
    let value : Option.map number_of (Option.map (take 8) (view str_opt h.current key)) ≡ g key =
      ap (λ v. Option.map number_of (Option.map (take 8) v))
        (sym (or_else-none (view str_opt h.current key))
          ∙ ap (or_else (view str_opt h.current key)) (sym none_delayed)
          ∙ is.is.1 key)
      ∙ read_taken (g key) (is.word key) in
    rw (fit_length key fit) (
      Ensures-bind {P = λ r. FetchDone str_opt h key 8 r × Fewer h r} _
        (fetch_and_del str_opt h key 8) _
        (Ensures-Gives (λ r. FetchDone str_opt h key 8 r × Fewer h r)
          (fetch_and_del str_opt h key 8)
          (fetch_and_del_lem str_opt-Lawful h is.is.0 key 8 (fit_null key fit))
          (fetch_and_del-Fewer str_opt h key 8 refl) (λ r done fewer. (done, fewer)))
        (λ (out, h') ((read, (ok, reads)), (idle, fewer)). (
          ap (Option.map number_of) read ∙ value,
          record {
            is = (
              ok,
              λ q.
                  reads q
                  ∙ ap (λ v. if same str_opt key q then v else value_of str_opt h q) none_delayed
                  ∙ bound g key none (value_of str_opt h) is.is.1 q,
            );
            idle = idle ∙ is.idle;
            word = bound_word g key none (λ b e. absurd (ground (arith, e))) is.word;
          },
          fewer,
        )))

-- The table of strings is what the cache asks for, whatever new memory holds.
abbrev pub strings : (ℕ → ℕ) → Index
strings fresh = record {
  Table = Fhash;
  Stands = StandsFor;
  used = λ h. h.current.slots_used;
  create = str_create 0 true;
  get = str_get;
  set = λ h key a. str_set fresh h key (some a);
  del = λ h key. (do (_, h') ← str_del h key; some h');
  create_stands = create_ok;
  get_stands = get_ok;
  set_stands = set_ok fresh;
  del_stands = λ h g key is fit.
      Ensures-bind _ (str_del h key) _ (del_ok h g key is fit)
        (λ r (_, stands, fewer). (stands, fewer));
}
