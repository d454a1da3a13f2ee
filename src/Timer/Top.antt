-- ===== src/Timer/Top.antt =====
-- fev/fev_tmsvc_sl_mod.c: `_top`, the timer that expires first.
use final_libs.Prelude.{
  ℕ, ◌+◌, ◌≢◌, ◌==◌, not, test_ne, ◌≤◌, ◌<◌, ◌^◌, ◌≡◌, refl, sym, ap, ◌∙◌, Bool, true, false, none,
  some, List, [], ◌∷◌, arith, ltb, if◌then◌else◌, ◌⊎◌, inl, inr, Bool-cases, All, length, Ensures,
}
use final_libs.Dlist.Cells.{Ptr}
use final_libs.Dlist.Chain.{has, has_self, has-later}
use final_libs.Dlist.Inv.{IsList}
use final_libs.Timer.Walk.{fold, foreach_lem}
use final_libs.Timer.{Timers, Timer, time_ms, node_each, top}

module _ (s : Timers) where
  -- the timer of a node
  abbrev pub timer_at : ℕ → Timer
  timer_at a = s.timers (s.store.nodes a).user_data

  abbrev pub due : Timer → ℕ
  due t = time_ms t.start + t.expiration

  -- the timer that `_node_each` has at hand then, where nothing overflows
  abbrev chosen : ℕ → Ptr → Ptr
  chosen a held =
      let p = (s.store.nodes a).user_data in
      if not (s.timers p).valid then held else elim held [
        | none ↦ some p
        | some q ↦ if ltb (due (s.timers p)) (due (s.timers q)) then some p else some q
      ]

  abbrev all_chosen : List ℕ → Ptr → Ptr
  all_chosen [] held = held
  all_chosen (a ∷ xs) held = all_chosen xs (chosen a held)

  -- a node leads to a timer that is not freed, whose milliseconds are a `long`
  abbrev pub IsTimed : ℕ → Type 0
  IsTimed a =
      let p = (s.store.nodes a).user_data in
      (p ≢ 0) × (s.freed p ≡ false) × (due (s.timers p) < 2 ^ 63)

  abbrev AtHand : Ptr → Type 0
  AtHand none = Unit {0}
  AtHand (some q) = (s.freed q ≡ false) × (due (s.timers q) < 2 ^ 63)

  node_each-chosen :
      (a : ℕ) (held : Ptr)
      → IsTimed a
      → AtHand held
      → (node_each s a held ≡ some (chosen a held)) × AtHand (chosen a held)
  unfolding node_each
  node_each-chosen a none (there, alive, small) held =
      let p = (s.store.nodes a).user_data in
      let some_timer : (p == 0) ≡ false = test_ne p 0 there in
      elim (Bool-cases (s.timers p).valid) [
        | inl on ↦ rw (some_timer, alive, on) (refl, (alive, small))
        | inr off ↦ rw (some_timer, alive, off) (refl, tt)
      ]
  node_each-chosen a (some q) (there, alive, small) (alive_q, held) =
      let p = (s.store.nodes a).user_data in
      let some_timer : (p == 0) ≡ false = test_ne p 0 there in
      elim (Bool-cases (s.timers p).valid) [
        | inl on ↦
            rw
              (
                some_timer,
                alive,
                alive_q,
                on,
                is_long (due (s.timers p)) small,
                is_long (due (s.timers q)) held,
              )
              (refl, either (ltb (due (s.timers p)) (due (s.timers q))))
        | inr off ↦ rw (some_timer, alive, off) (refl, (alive_q, held))
      ]
    where
      is_long : (n : ℕ) → n < 2 ^ 63 → ltb n (2 ^ 63) ≡ true
      is_long n h = ground arith

      either : (b : Bool) → AtHand (if b then some (s.store.nodes a).user_data else some q)
      either true = (alive, small)
      either false = (alive_q, held)

  fold-chosen :
      (xs : List ℕ) (held : Ptr)
      → All IsTimed xs
      → AtHand held
      → fold (node_each s) xs held ≡ some (all_chosen xs held)
  fold-chosen [] held timed small = refl
  fold-chosen (a ∷ xs) held (timed, rest) small =
      let (step, small') = node_each-chosen a held timed small in
      rw step (fold-chosen xs (chosen a held) rest small')

  abbrev NotLater : ℕ → Ptr → Type 0
  NotLater p none = Unit {0}
  NotLater p (some q) = due (s.timers p) ≤ due (s.timers q)

  abbrev pub OneOf : List ℕ → ℕ → Type 0
  OneOf xs p =
      (a : ℕ) × (has a xs ≡ true) × ((s.store.nodes a).user_data ≡ p) × ((s.timers p).valid ≡ true)

  -- no valid timer of the nodes expires before the one at `p`
  abbrev pub Least : List ℕ → ℕ → Type 0
  Least xs p = All (λ a. (timer_at a).valid ≡ true → due (s.timers p) ≤ due (timer_at a)) xs

  abbrev Best : List ℕ → Ptr → Ptr → Type 0
  Best xs start none = (start ≡ none) × All (λ a. (timer_at a).valid ≡ false) xs
  Best xs start (some p) = ((start ≡ some p) ⊎ OneOf xs p) × NotLater p start × Least xs p

  skip_first :
      (x : ℕ) (xs : List ℕ) (start r : Ptr)
      → (timer_at x).valid ≡ false
      → Best xs start r
      → Best (x ∷ xs) start r
  skip_first x xs start none off (nothing, rest) = (nothing, (off, rest))
  skip_first x xs start (some p) off (from, not_later, least) = (
    elim from [ inl e ↦ inl e | inr (a, here, at, on) ↦ inr (a, has-later a x xs here, at, on) ],
    not_later,
    ((λ on. absurd (ground (arith, on, off))), least),
  )

  -- The first node is valid: the search goes on from it, or from the better one before it.
  take_first :
      (x : ℕ) (xs : List ℕ) (r : Ptr)
      → let p = (s.store.nodes x).user_data in
        (timer_at x).valid ≡ true → Best xs (some p) r → Best (x ∷ xs) none r
  take_first x xs none on (nothing, _) = absurd (ground arith)
  take_first x xs (some p) on (from, not_later, least) = (
    inr (elim from [
      | inl e ↦
          let same : (s.store.nodes x).user_data ≡ p = cc e in
          (x, has_self x xs, same, ap (λ q. (s.timers q).valid) (sym same) ∙ on)
      | inr (a, here, at, valid) ↦ (a, has-later a x xs here, at, valid)
    ]),
    tt,
    ((λ _. not_later), least),
  )

  keep_or_take :
      (x q : ℕ) (xs : List ℕ) (b : Bool) (r : Ptr)
      → let p = (s.store.nodes x).user_data in
        (timer_at x).valid ≡ true
        → ltb (due (s.timers p)) (due (s.timers q)) ≡ b
        → Best xs (if b then some p else some q) r
        → Best (x ∷ xs) (some q) r
  keep_or_take x q xs true none on earlier (nothing, _) = absurd (ground arith)
  keep_or_take x q xs false none on later (nothing, _) = absurd (ground arith)
  keep_or_take x q xs true (some p) on earlier (from, not_later, least) = (
    inr (elim from [
      | inl e ↦
          let same : (s.store.nodes x).user_data ≡ p = cc e in
          (x, has_self x xs, same, ap (λ o. (s.timers o).valid) (sym same) ∙ on)
      | inr (a, here, at, valid) ↦ (a, has-later a x xs here, at, valid)
    ]),
    ground (arith, not_later, earlier),
    ((λ _. not_later), least),
  )
  keep_or_take x q xs false (some p) on later (from, not_later, least) = (
    elim from [
      | inl e ↦ inl e
      | inr (a, here, at, valid) ↦ inr (a, has-later a x xs here, at, valid)
    ],
    not_later,
    ((λ _. ground (arith, not_later, later)), least),
  )

  best_lem : (xs : List ℕ) (start : Ptr) → Best xs start (all_chosen xs start)
  best_lem [] none = (refl, tt)
  best_lem [] (some p) = (inl refl, omega arith, tt)
  best_lem (x ∷ xs) start = elim (Bool-cases (timer_at x).valid) [
    | inl on ↦ rw on (valid_case start on (λ p. best_lem xs p))
    | inr off ↦ rw off (skip_first x xs start _ off (best_lem xs start))
  ]
    where
      valid_case :
          (start : Ptr)
          → (timer_at x).valid ≡ true
          → ((p : Ptr) → Best xs p (all_chosen xs p))
          → let p = (s.store.nodes x).user_data in
            Best (x ∷ xs) start (
              all_chosen xs (elim start [
                | none ↦ some p
                | some q ↦ if ltb (due (s.timers p)) (due (s.timers q)) then some p else some q
              ]))
      valid_case none on rest = take_first x xs _ on (rest (some (s.store.nodes x).user_data))
      valid_case (some q) on rest =
          let p = (s.store.nodes x).user_data in
          let b = ltb (due (s.timers p)) (due (s.timers q)) in
          keep_or_take x q xs b _ on refl (rest (if b then some p else some q))

-- What `_top` answers about the nodes of a list.
abbrev pub IsFirst : Timers → List ℕ → Ptr → Type 0
IsFirst s xs none = All (λ a. (timer_at s a).valid ≡ false) xs
IsFirst s xs (some p) = OneOf s xs p × Least s xs p

-- `_top` on a service whose list holds the given nodes, fewer than 2 ^ 64, each of which leads
-- to a timer that is not freed and whose end in milliseconds fits a `long`, is defined. It is
-- NULL only if no timer of the list is valid; if not, it is a valid timer of the list, and no
-- valid timer of the list expires before it, as counted in milliseconds.
pub top_lem :
    {d : ℕ} (s : Timers) (xs : List ℕ)
    → IsList d s.store s.timer_list xs
    → length xs < 2 ^ 64
    → All (IsTimed s) xs
    → Ensures (IsFirst s xs) (top s)
unfolding top
top_lem s xs is small timed =
    rw (foreach_lem (node_each s) xs none is small, fold-chosen s xs none timed tt)
      (answer _ (best_lem s xs none))
  where
    answer : (r : Ptr) → Best s xs none r → IsFirst s xs r
    answer none (_, off) = off
    answer (some p) (from, _, least) = elim from [
      | inl e ↦ absurd (ground arith)
      | inr one ↦ (one, least)
    ]
