-- ===== src/Prelude/Memory.antt =====
-- The bytes of one C object as a list: reads and writes of a block at an offset, and their laws.
use Prim.Native.Nat.{ℕ, zero, suc, ◌+◌, ◌-◌, ◌≤◌, ◌<◌}
use mathlib.Core.Path.{◌≡◌, refl, ap, ap₂, ◌∙◌}
use mathlib.Core.List.{List, [], ◌∷◌, ◌++◌}
use mathlib.Core.Option.{Option, none, some}
use native.Mathlib.Omega.{arith}
use final_libs.Prelude.Tests.{leb, if◌then◌else◌}
use final_libs.Prelude.Lists.{
  length, take, drop, length-append, length-take, length-drop, take-append_le, drop-append_add,
  take-length, take-add, drop-drop, drop-take, take-take, drop-append_le,
}

module _ {ℓ} {A : Type ℓ} where
  -- the `n` cells from offset `a` on
  unfoldable pub slice : List A → ℕ → ℕ → List A
  slice m a n = take n (drop a m)

  -- `m` with `xs` written over the cells from offset `a` on
  unfoldable pub splice : List A → ℕ → List A → List A
  splice m zero xs = xs ++ drop (length xs) m
  splice [] (suc a) xs = []
  splice (y ∷ m) (suc a) xs = y ∷ splice m a xs

  -- the source of a `memcpy` or `memmove` of `n` bytes
  unfoldable pub read_at : List A → ℕ → ℕ → Option (List A)
  read_at m a n = if leb (a + n) (length m) then some (slice m a n) else none

  -- the destination of a `memcpy` or `memmove`
  unfoldable pub write_at : List A → ℕ → List A → Option (List A)
  write_at m a xs = if leb (a + length xs) (length m) then some (splice m a xs) else none

  pub read_at-slice : (m : List A) (a n : ℕ) → a + n ≤ length m → read_at m a n ≡ some (slice m a n)
  unfolding read_at
  read_at-slice m a n h = ground arith

  pub read_at-none : (m : List A) (a n : ℕ) → length m < a + n → read_at m a n ≡ none
  unfolding read_at
  read_at-none m a n h = ground arith

  pub write_at-splice :
      (m : List A) (a : ℕ) (xs : List A)
      → a + length xs ≤ length m
      → write_at m a xs ≡ some (splice m a xs)
  unfolding write_at
  write_at-splice m a xs h = ground arith

  pub length-slice : (m : List A) (a n : ℕ) → a + n ≤ length m → length (slice m a n) ≡ n
  unfolding slice
  length-slice m a n h = omega (arith, length-take n (drop a m), length-drop a m)

  pub length-splice :
      (m : List A) (a : ℕ) (xs : List A)
      → a + length xs ≤ length m
      → length (splice m a xs) ≡ length m
  unfolding splice
  length-splice m zero xs h =
      omega (arith, length-append xs (drop (length xs) m), length-drop (length xs) m)
  length-splice [] (suc a) xs h = refl
  length-splice (y ∷ m) (suc a) xs h = ap suc (length-splice m a xs (omega arith))

  pub slice-zero : (m : List A) (a : ℕ) → slice m a 0 ≡ []
  unfolding slice
  slice-zero m a = refl

  pub slice-take : (m : List A) (n : ℕ) → slice m 0 n ≡ take n m
  unfolding slice
  slice-take m n = refl

  pub slice-add : (m : List A) (a n k : ℕ) → slice m a (n + k) ≡ slice m a n ++ slice m (a + n) k
  unfolding slice
  slice-add m a n k =
      take-add n k (drop a m) ∙ ap (λ t. take n (drop a m) ++ take k t) (drop-drop a n m)

  take-splice :
      (m : List A) (a n : ℕ) (xs : List A)
      → n ≤ a
      → a ≤ length m
      → take n (splice m a xs) ≡ take n m
  unfolding splice
  take-splice m a zero xs h k = refl
  take-splice m zero (suc n) xs h k = absurd (omega arith)
  take-splice [] (suc a) (suc n) xs h k = absurd (omega arith)
  take-splice (y ∷ m) (suc a) (suc n) xs h k =
      ap (λ t. y ∷ t) (take-splice m a n xs (omega arith) (omega arith))

  -- What lies before a write keeps its bytes.
  pub slice-splice_before :
      (m : List A) (t : ℕ) (xs : List A) (a n : ℕ)
      → a + n ≤ t
      → t ≤ length m
      → slice (splice m t xs) a n ≡ slice m a n
  unfolding slice splice
  slice-splice_before m t xs zero n h k = take-splice m t n xs (omega arith) k
  slice-splice_before m zero xs (suc a) n h k = absurd (omega arith)
  slice-splice_before [] (suc t) xs (suc a) n h k = absurd (omega arith)
  slice-splice_before (y ∷ m) (suc t) xs (suc a) n h k =
      slice-splice_before m t xs a n (omega arith) (omega arith)

  drop-splice :
      (m : List A) (t : ℕ) (xs : List A) (k : ℕ)
      → t ≤ length m
      → drop (t + length xs + k) (splice m t xs) ≡ drop (t + length xs + k) m
  unfolding splice
  drop-splice m zero xs k h =
      ap (λ j. drop j (xs ++ drop (length xs) m)) {y = length xs + k} (omega arith)
      ∙ drop-append_add k xs (drop (length xs) m)
      ∙ drop-drop (length xs) k m
      ∙ ap (λ j. drop j m) (omega arith)
  drop-splice [] (suc t) xs k h = absurd (omega arith)
  drop-splice (y ∷ m) (suc t) xs k h =
      ap (λ j. drop j (y ∷ splice m t xs)) {y = suc (t + length xs + k)} (omega arith)
      ∙ drop-splice m t xs k (omega arith)
      ∙ ap (λ j. drop j (y ∷ m)) {x = suc (t + length xs + k)} (omega arith)

  -- What lies behind a write keeps its bytes.
  pub slice-splice_after :
      (m : List A) (t : ℕ) (xs : List A) (a n : ℕ)
      → t + length xs ≤ a
      → t ≤ length m
      → slice (splice m t xs) a n ≡ slice m a n
  unfolding slice
  slice-splice_after m t xs a n h k =
      let e : a ≡ t + length xs + (a - (t + length xs)) = omega arith in
      ap (λ j. take n (drop j (splice m t xs))) e
      ∙ ap (take n) (drop-splice m t xs (a - (t + length xs)) k)
      ∙ ap (λ j. take n (drop j m)) (omega arith)

  -- What was written is read back.
  pub slice-splice_self :
      (m : List A) (t : ℕ) (xs : List A) → t ≤ length m → slice (splice m t xs) t (length xs) ≡ xs
  unfolding slice splice
  slice-splice_self m zero xs h =
      take-append_le (length xs) xs (drop (length xs) m) (omega arith) ∙ take-length xs
  slice-splice_self [] (suc t) xs h = absurd (omega arith)
  slice-splice_self (y ∷ m) (suc t) xs h = slice-splice_self m t xs (omega arith)

  -- A write just behind some cells extends what is read from them.
  pub slice-splice_extend :
      (m : List A) (a n t : ℕ) (xs : List A)
      → a + n ≡ t
      → t ≤ length m
      → slice (splice m t xs) a (n + length xs) ≡ slice m a n ++ xs
  slice-splice_extend m a n t xs e h =
      slice-add (splice m t xs) a n (length xs)
      ∙ ap₂ ◌++◌ (slice-splice_before m t xs a n (omega arith) h)
          (ap (λ k. slice (splice m t xs) k (length xs)) e ∙ slice-splice_self m t xs h)

  -- `realloc` to `n` cells: the old cells as far as they fit, and new ones with what is in them
  unfoldable pub tabulate : (ℕ → A) → ℕ → List A
  tabulate f zero = []
  tabulate f (suc n) = tabulate f n ++ f n ∷ []

  unfoldable pub realloc_cells : (ℕ → A) → List A → ℕ → List A
  realloc_cells fresh m n = take n (m ++ tabulate fresh n)

  length-tabulate : (f : ℕ → A) (n : ℕ) → length (tabulate f n) ≡ n
  unfolding tabulate
  length-tabulate f zero = refl
  length-tabulate f (suc n) =
      omega (arith, length-append (tabulate f n) (f n ∷ []), length-tabulate f n)

  pub length-realloc_cells : (f : ℕ → A) (m : List A) (n : ℕ) → length (realloc_cells f m n) ≡ n
  unfolding realloc_cells
  length-realloc_cells f m n = omega (
    arith,
    length-take n (m ++ tabulate f n),
    length-append m (tabulate f n),
    length-tabulate f n,
  )

  -- What fits into the new memory keeps its place and its bytes.
  pub slice-realloc_cells :
      (f : ℕ → A) (m : List A) (k a n : ℕ)
      → a + n ≤ length m
      → a + n ≤ k
      → slice (realloc_cells f m k) a n ≡ slice m a n
  unfolding slice realloc_cells
  slice-realloc_cells f m k a n h i =
      let ys = tabulate f k in
      ap (take n) (drop-take k a (m ++ ys))
      ∙ take-take (k - a) n (drop a (m ++ ys)) (omega arith)
      ∙ ap (take n) (drop-append_le a m ys (omega arith))
      ∙ take-append_le n (drop a m) ys (omega (arith, length-drop a m))
