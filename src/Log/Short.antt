-- ===== src/Log/Short.antt =====
-- flog/flog.c: `_log_write_to_kernel` when a call of `write` takes a part of the message only.
use final_libs.Prelude.{
  ℕ, zero, suc, ◌+◌, ◌-◌, ◌*◌, ◌^◌, ◌<◌, ◌≤◌, ◌≡◌, refl, false, none, List, arith, ◌==◌, min,
  length, sub_size,
}
use final_libs.Log.Disk.{File, Answer, wrote, write_loop, write_to_kernel}

module _ (kernel : ℕ → Answer) (clock : ℕ → ℕ) where
  -- Whole writes from a count on that is far from 0 do not come to an end soon.
  never_done :
      (fuel : ℕ) (f : File) (log : List ℕ) (remain : ℕ)
      → ((i : ℕ) → f.writes ≤ i → (k : ℕ) × (kernel i ≡ wrote k) × (2 ^ 16 ≤ k))
      → length log < 2 ^ 16
      → fuel * 2 ^ 16 < remain
      → remain < 2 ^ 64
      → write_loop kernel clock fuel f log remain ≡ none
  unfolding write_loop
  never_done zero f log remain whole small far big = refl
  never_done (suc fuel) f log remain whole small far big =
      let (k, answer, enough) = whole f.writes (omega arith) in
      let len = length log in
      let left : sub_size remain (min k len) ≡ remain - len =
        omega (arith, small, far, big, enough) in
      let more : (sub_size remain (min k len) == 0) ≡ false = ground (arith, left, small, far) in
      rw (write_loop, answer, more)
        (never_done fuel _ log (sub_size remain (min k len))
          (λ i later. whole i (omega (arith, later))) small (omega (arith, left, far, small))
          (omega (arith, left, big)))

  -- The second write of a message goes beyond what is left of it, and the count wraps.
  overshoot :
      (fuel : ℕ) (f : File) (log : List ℕ) (remain : ℕ)
      → ((i : ℕ) → f.writes ≤ i → (n : ℕ) × (kernel i ≡ wrote n) × (2 ^ 16 ≤ n))
      → 0 < remain
      → remain < length log
      → length log < 2 ^ 16
      → fuel ≤ 2 ^ 40
      → write_loop kernel clock fuel f log remain ≡ none
  unfolding write_loop
  overshoot zero f log remain whole some_left part small bounded = refl
  overshoot (suc fuel) f log remain whole some_left part small bounded =
      let (n, answer, enough) = whole f.writes (omega arith) in
      let len = length log in
      let left : sub_size remain (min n len) ≡ remain + 2 ^ 64 - len =
        omega (arith, some_left, part, small, enough) in
      let more : (sub_size remain (min n len) == 0) ≡ false = ground (arith, left, small) in
      rw (write_loop, answer, more)
        (never_done fuel _ log (sub_size remain (min n len))
          (λ i later. whole i (omega (arith, later))) small (omega (arith, left, bounded, small))
          (omega (arith, left, part)))

  -- When the first call of `write` for a message of less than 2 ^ 16 bytes takes some of its
  -- bytes but not all, and every later call takes at least 2 ^ 16 or all,
  -- `_log_write_to_kernel` does not return within 2 ^ 40 rounds of its loop.
  pub short_write :
      (fuel : ℕ) (f : File) (log : List ℕ) (k : ℕ)
      → kernel f.writes ≡ wrote k
      → ((i : ℕ) → f.writes < i → (n : ℕ) × (kernel i ≡ wrote n) × (2 ^ 16 ≤ n))
      → 0 < k
      → k < length log
      → length log < 2 ^ 16
      → fuel ≤ 2 ^ 40
      → write_to_kernel kernel clock fuel f log ≡ none
  unfolding write_to_kernel write_loop
  short_write zero f log k first whole some_bytes short small bounded =
      let more : (length log == 0) ≡ false = ground (arith, short) in rw more refl
  short_write (suc fuel) f log k first whole some_bytes short small bounded =
      let len = length log in
      let more : (len == 0) ≡ false = ground (arith, short) in
      let left : sub_size len (min k len) ≡ len - k = omega (arith, short, small) in
      let rest : (sub_size len (min k len) == 0) ≡ false = ground (arith, left, short) in
      rw (more, write_loop, first, rest)
        (overshoot fuel _ log (sub_size len (min k len)) (λ i later. whole i (omega (arith, later)))
          (omega (arith, left, short)) (omega (arith, left, some_bytes, short)) small
          (omega (arith, bounded)))
