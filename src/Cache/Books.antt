-- ===== src/Cache/Books.antt =====
-- fcache/fcache.c: which nodes and bytes are left by `_fcache_check_and_drop_nodes`, and the end of
-- `fcache_set_obj`, which decides whether to balance from now on.
use final_libs.Prelude.{
  ℕ, zero, suc, ◌+◌, ◌<◌, ◌≤◌, ◌^◌, ◌/◌, ◌≡◌, refl, Bool, true, false, not, ◌&&◌, List, [], ◌∷◌,
  arith, ltb, leb, ◌==◌, if◌then◌else◌, inl, inr, Bool-cases, length, take, drop, length-append,
  length-take, length-drop, add_size, sub_size, test_ne, Ensures, Ensures-if,
}
use native.Mathlib.Nat.{div-eq-sub-div}
use final_libs.Dlist.Cells.{DNode, Ptr}
use final_libs.Dlist.Chain.{has, has_self, has-later, sum_sizes}
use final_libs.CacheList.{Key, list_size, list_data_size}
use final_libs.Cache.Lookup.{Index}
use final_libs.Cache.Inv.{inside, IsCache, surplus}
use final_libs.Cache.Used.{counted}
use final_libs.Cache.Touch.{has-shift}
use final_libs.Cache.Drop.{enough}
use final_libs.Cache.Room.{exact, bytes, totals}
use final_libs.Cache.{Cache, active, inactive, balance_interval, check_balance}

-- What is dropped and what is left.
pub sum_sizes-enough :
    (h : ℕ → DNode) (done need : ℕ) (ys : List ℕ)
    → let gone = enough (λ b. (h b).data_size) done need ys in
      sum_sizes h gone + sum_sizes h (drop (length gone) ys) ≡ sum_sizes h ys
unfolding sum_sizes
sum_sizes-enough h done need [] = refl
sum_sizes-enough h done need (y ∷ ys) = elim (Bool-cases (ltb done need)) [
  | inl more ↦ rw more (omega (arith, sum_sizes-enough h (done + (h y).data_size) need ys))
  | inr fine ↦ rw fine (omega arith)
]

pub has-enough :
    (sz : ℕ → ℕ) (done need b : ℕ) (ys : List ℕ)
    → has b (enough sz done need ys) ≡ true
    → has b ys ≡ true
unfolding has
has-enough sz done need b [] there = there
has-enough sz done need b (y ∷ ys) there =
    ground (arith, there, has-enough sz (done + sz y) need b ys)

pub has-drop : (b n : ℕ) (ys : List ℕ) → has b (drop n ys) ≡ true → has b ys ≡ true
has-drop b zero ys there = there
has-drop b (suc n) [] there = there
has-drop b (suc n) (y ∷ ys) there = has-later b y ys (has-drop b n ys there)

-- every node has some bytes
abbrev pub Sized : (ℕ → DNode) → List ℕ → Type 0
Sized h xs = (b : ℕ) → has b xs ≡ true → 0 < (h b).data_size

pub length-sum_sizes : (h : ℕ → DNode) (xs : List ℕ) → Sized h xs → length xs ≤ sum_sizes h xs
unfolding sum_sizes
length-sum_sizes h [] sized = omega arith
length-sum_sizes h (x ∷ xs) sized = omega (
  arith,
  sized x (has_self x xs),
  length-sum_sizes h xs (λ b there. sized b (has-later b x xs there)),
)

pub counted-inside :
    (b : ℕ) (f : Bool) (xs ys : List ℕ)
    → inside b (counted f xs ys).0 (counted f xs ys).1 ≡ inside b xs ys
counted-inside b false xs ys = refl
counted-inside b true xs ys = has-shift b (surplus xs ys) xs ys

pub counted-length :
    (f : Bool) (xs ys : List ℕ)
    → length (counted f xs ys).0 + length (counted f xs ys).1 ≡ length xs + length ys
counted-length false xs ys = refl
counted-length true xs ys = omega (
  arith,
  length-append ys (take (surplus xs ys) xs),
  length-take (surplus xs ys) xs,
  length-drop (surplus xs ys) xs,
)

div_pos : (a b : ℕ) → 0 < b → b ≤ a → a / b ≡ 0 → ⊥
div_pos a b pos le z = omega (arith, div-eq-sub-div {m = b} {n = a} pos le, z)

module _ {ix : Index} where
  -- The end of `fcache_set_obj` divides by no 0 if every node has some bytes.
  pub check_balance_lem :
      {g : Key → Ptr} {xs ys : List ℕ} (c : Cache ix)
      → IsCache exact c g xs ys
      → bytes c.heap.store.nodes xs ys < 2 ^ 64
      → length xs + length ys ≤ bytes c.heap.store.nodes xs ys
      → 0 < length xs + length ys
      → Ensures
          (λ r. (r.0 ≡ 0) × (r.1 ≡ record c { enable_balance = r.1.enable_balance }))
          (check_balance 0 c)
  unfolding check_balance
  check_balance_lem {g} {xs} {ys} c is word sized some_node =
      let (total, total') = totals c is word in
      let n : list_size c.heap active ≡ length xs =
        omega (arith, (is.heap.lists active).size, is.small) in
      let m : list_size c.heap inactive ≡ length ys =
        omega (arith, (is.heap.lists inactive).size, is.small) in
      let count = add_size (list_size c.heap inactive) (list_size c.heap active) in
      let current = add_size (list_data_size c.heap inactive) (list_data_size c.heap active) in
      let count_lem : count ≡ length xs + length ys = omega (arith, n, m, is.small) in
      let current_lem : current ≡ bytes c.heap.store.nodes xs ys =
        omega (arith, total, total', word) in
      let some_count : (count == 0) ≡ false =
        test_ne count 0 (λ z. absurd (omega (arith, z, count_lem, some_node))) in
      let some_avg : (current / count == 0) ≡ false = test_ne (current / count) 0 (λ z. absurd (
        div_pos current count (omega (arith, count_lem, some_node))
          (omega (arith, count_lem, current_lem, sized)) z)) in
      let P = λ (r : ℕ × Cache ix).
        (r.0 ≡ 0) × (r.1 ≡ record c { enable_balance = r.1.enable_balance }) in
      Ensures-if P (not c.enable_balance && true) _ _
        (λ _.
          rw (some_count, some_avg)
            (refl, on (leb (sub_size c.max_size current / (current / count)) balance_interval)))
        (λ _. (refl, refl))
    where
      on :
          (b : Bool)
          → let c' = if b then record c { enable_balance = true } else c in
            c' ≡ record c { enable_balance = c'.enable_balance }
      on true = refl
      on false = refl
