-- ===== src/Log/Order.antt =====
-- flog/flog.c: the messages that wait in the buffers of all threads, in the order of their numbers.
use final_libs.Prelude.{
  ℕ, suc, ◌≤◌, ◌≡◌, ◌≢◌, refl, ap, sym, subst, ◌∙◌, Bool, true, false, List, [], ◌∷◌, ◌++◌, arith,
  ◌==◌, if◌then◌else◌, length, All, Bool-cases, inl, inr,
}
use native.Mathlib.Decide.{ℕ_discrete}
use final_libs.Dlist.Cells.{write, write_self, write-other}
use final_libs.Log.Send.{Msg}

-- Messages that wait, each with its thread, in the order in which they got their numbers.
abbrev pub Waiting : Type 0
Waiting = List (ℕ × Msg)

abbrev pub queue : ℕ → Waiting → List Msg
queue i [] = []
queue i ((j, m) ∷ ms) = if j == i then m ∷ queue i ms else queue i ms

-- without the first message of a thread
abbrev pub remove : ℕ → Waiting → Waiting
remove i [] = []
remove i ((j, m) ∷ ms) = if j == i then ms else (j, m) ∷ remove i ms

abbrev pub bump : (ℕ → ℕ) → ℕ → ℕ → ℕ
bump c p = write c p (suc (c p))

-- The numbers go on from those that the files have got to.
abbrev pub InOrder : (ℕ → ℕ) → Waiting → Type 0
InOrder c [] = Unit {0}
InOrder c ((j, m) ∷ ms) = (m.aid ≡ suc (c m.file)) × InOrder (bump c m.file) ms

-- what waits for a file
abbrev pub text_for : ℕ → Waiting → List ℕ
text_for p [] = []
text_for p ((j, m) ∷ ms) = if m.file == p then m.text ++ text_for p ms else text_for p ms

pub bump-bump : (c : ℕ → ℕ) (p q : ℕ) → p ≢ q → bump (bump c p) q ≡ bump (bump c q) p
unfolding write
bump-bump c p q ne =
    let at : (r : ℕ) → bump (bump c p) q r ≡ bump (bump c q) p r = λ r. ground (arith, ne) in
    λ i r. at r i

pub skip :
    (i j : ℕ) (x : Msg) (ws : Waiting) (b : Bool) {ms : List Msg}
    → (j == i) ≡ b
    → queue i ((j, x) ∷ ws) ≡ ms
    → (if b then x ∷ queue i ws else queue i ws) ≡ ms
skip i j x ws b e first = ap (λ t. if t then x ∷ queue i ws else queue i ws) (sym e) ∙ first

le_bump : (c : ℕ → ℕ) (p q : ℕ) → c q ≤ bump c p q
unfolding write
le_bump c p q = elim (ℕ_discrete p q) [
  | yes e ↦ ground (arith, ap c e)
  | no ne ↦ ground (arith, ne)
]

-- the first message of a thread has at least the next number of its file
first-InOrder :
    (c : ℕ → ℕ) (i : ℕ) (m : Msg) (ms : List Msg) (ws : Waiting)
    → InOrder c ws
    → queue i ws ≡ m ∷ ms
    → suc (c m.file) ≤ m.aid
unfolding write
first-InOrder c i m ms [] order first = absurd (ground (arith, first))
first-InOrder c i m ms ((j, x) ∷ ws) (at, order) first = elim (Bool-cases (j == i)) [
  | inl mine ↦
      let first' : x ∷ queue i ws ≡ m ∷ ms = skip i j x ws true mine first in
      let same : x ≡ m = cc in
      ground (arith, at, ap (λ (y : Msg). y.aid) same, ap (λ (y : Msg). c y.file) same)
  | inr other ↦
      let rest = first-InOrder (bump c x.file) i m ms ws order (skip i j x ws false other first) in
      omega (arith, rest, le_bump c x.file m.file)
]

-- A message that has the next number of its file is the first one of the file.
apart :
    (c : ℕ → ℕ) (i : ℕ) (m x : Msg) (ms : List Msg) (ws : Waiting)
    → InOrder (bump c x.file) ws
    → queue i ws ≡ m ∷ ms
    → m.aid ≡ suc (c m.file)
    → x.file ≢ m.file
apart c i m x ms ws order first ready same =
    let later = first-InOrder (bump c x.file) i m ms ws order first in
    let bumped : bump c x.file m.file ≡ suc (c m.file) =
      ap (bump c x.file) (sym same)
      ∙ write_self c x.file (suc (c x.file))
      ∙ ap (λ p. suc (c p)) same in
    absurd (omega (arith, later, bumped, ready))

module _ (i : ℕ) (m : Msg) (ms : List Msg) where
  pub remove-InOrder :
      (c : ℕ → ℕ) (ws : Waiting)
      → InOrder c ws
      → queue i ws ≡ m ∷ ms
      → m.aid ≡ suc (c m.file)
      → InOrder (bump c m.file) (remove i ws)
  remove-InOrder c [] order first ready = absurd (ground (arith, first))
  remove-InOrder c ((j, x) ∷ ws) (at, order) first ready = elim (Bool-cases (j == i)) [
    | inl mine ↦
        let first' : x ∷ queue i ws ≡ m ∷ ms = skip i j x ws true mine first in
        let same : x ≡ m = cc in rw mine (subst (λ y. InOrder (bump c y.file) ws) same order)
    | inr other ↦
        let first' = skip i j x ws false other first in
        let ne = apart c i m x ms ws order first' ready in
        let kept = write-other c x.file (suc (c x.file)) m.file (λ e. ne (sym e)) in
        let kept' = write-other c m.file (suc (c m.file)) x.file ne in
        rw other (
          at ∙ ap suc (sym kept'),
          subst (λ d. InOrder d (remove i ws)) (bump-bump c x.file m.file ne)
              (remove-InOrder (bump c x.file) ws order first' (ready ∙ ap suc (sym kept))),
        )
  ]

  pub text_for-remove :
      (c : ℕ → ℕ) (p : ℕ) (ws : Waiting)
      → InOrder c ws
      → queue i ws ≡ m ∷ ms
      → m.aid ≡ suc (c m.file)
      → text_for p ws ≡ (if m.file == p then m.text else []) ++ text_for p (remove i ws)
  text_for-remove c p [] order first ready = absurd (ground (arith, first))
  text_for-remove c p ((j, x) ∷ ws) (at, order) first ready = elim (Bool-cases (j == i)) [
    | inl mine ↦
        let first' : x ∷ queue i ws ≡ m ∷ ms = skip i j x ws true mine first in
        let same : m ≡ x = cc in
        rw mine (
          subst
            (λ y. text_for p ((j, y) ∷ ws) ≡ (if m.file == p then m.text else []) ++ text_for p ws)
            same (split (m.file == p) (text_for p ws)))
    | inr other ↦
        let first' = skip i j x ws false other first in
        let ne = apart c i m x ms ws order first' ready in
        let kept = write-other c x.file (suc (c x.file)) m.file (λ e. ne (sym e)) in
        let rest = text_for-remove (bump c x.file) p ws order first' (ready ∙ ap suc (sym kept)) in
        rw other (elim (Bool-cases (x.file == p)) [
          | inl its ↦
              let not_m : (m.file == p) ≡ false = ground (arith, its, ne) in
              rw (its, not_m)
                (ap (λ t. x.text ++ t)
                  (rest
                    ∙ ap (λ (b : Bool). (if b then m.text else []) ++ text_for p (remove i ws))
                        not_m))
          | inr not_its ↦ rw not_its rest
        ])
  ]
    where
      split :
          (b : Bool) (t : List ℕ) → (if b then m.text ++ t else t) ≡ (if b then m.text else []) ++ t
      split true t = refl
      split false t = refl

  pub queue-remove_self : (ws : Waiting) → queue i ws ≡ m ∷ ms → queue i (remove i ws) ≡ ms
  queue-remove_self [] first = absurd (ground (arith, first))
  queue-remove_self ((j, x) ∷ ws) first = elim (Bool-cases (j == i)) [
    | inl mine ↦ let first' : x ∷ queue i ws ≡ m ∷ ms = skip i j x ws true mine first in rw mine cc
    | inr other ↦ rw (other, other) (queue-remove_self ws (skip i j x ws false other first))
  ]

  pub length-remove : (ws : Waiting) → queue i ws ≡ m ∷ ms → suc (length (remove i ws)) ≡ length ws
  length-remove [] first = absurd (ground (arith, first))
  length-remove ((j, x) ∷ ws) first = elim (Bool-cases (j == i)) [
    | inl mine ↦ rw mine refl
    | inr other ↦ rw other (ap suc (length-remove ws (skip i j x ws false other first)))
  ]

pub queue-remove_other : (i k : ℕ) (ws : Waiting) → k ≢ i → queue k (remove i ws) ≡ queue k ws
queue-remove_other i k [] ne = refl
queue-remove_other i k ((j, x) ∷ ws) ne = elim (Bool-cases (j == i)) [
  | inl mine ↦ let not_k : (j == k) ≡ false = ground (arith, mine, ne) in rw (mine, not_k) refl
  | inr other ↦ rw other (ap (λ t. if j == k then x ∷ t else t) (queue-remove_other i k ws ne))
]

pub All-remove : (P : ℕ × Msg → Type 0) (i : ℕ) (ws : Waiting) → All P ws → All P (remove i ws)
All-remove P i [] are = tt
All-remove P i ((j, x) ∷ ws) (is, are) = elim (Bool-cases (j == i)) [
  | inl mine ↦ rw mine are
  | inr other ↦ rw other (is, All-remove P i ws are)
]

pub All-queue : (P : Msg → Type 0) (i : ℕ) (ws : Waiting) → All (λ e. P e.1) ws → All P (queue i ws)
All-queue P i [] are = tt
All-queue P i ((j, x) ∷ ws) (is, are) = elim (Bool-cases (j == i)) [
  | inl mine ↦ rw mine (is, All-queue P i ws are)
  | inr other ↦ rw other (All-queue P i ws are)
]
