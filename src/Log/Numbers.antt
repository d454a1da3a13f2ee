-- ===== src/Log/Numbers.antt =====
-- flog/flog.c: the numbers that files have given to messages, and a message that is added to those
-- that wait.
use final_libs.Prelude.{
  ℕ, suc, ◌≡◌, refl, ap, sym, ◌∙◌, true, false, List, [], ◌∷◌, ◌++◌, map, arith, ◌==◌,
  if◌then◌else◌, append-nil, append_assoc, Bool-cases, inl, inr,
}
use native.Mathlib.Decide.{ℕ_discrete}
use final_libs.Log.Send.{Msg, frame, concat}
use final_libs.Log.Order.{Waiting, queue, remove, bump, bump-bump, InOrder, text_for, skip}

-- the numbers of the files when all that wait have been fetched
abbrev pub last_of : (ℕ → ℕ) → Waiting → ℕ → ℕ
last_of c [] = c
last_of c ((j, m) ∷ ws) = last_of (bump c m.file) ws

pub last_of-remove :
    (i : ℕ) (m : Msg) (ms : List Msg) (c : ℕ → ℕ) (ws : Waiting)
    → queue i ws ≡ m ∷ ms
    → last_of (bump c m.file) (remove i ws) ≡ last_of c ws
last_of-remove i m ms c [] first = absurd (ground (arith, first))
last_of-remove i m ms c ((j, x) ∷ ws) first = elim (Bool-cases (j == i)) [
  | inl mine ↦
      let first' : x ∷ queue i ws ≡ m ∷ ms = skip i j x ws true mine first in
      let same : m ≡ x = cc in rw mine (ap (λ (y : Msg). last_of (bump c y.file) ws) same)
  | inr other ↦ rw other (
      ap (λ d. last_of d (remove i ws)) (swap m.file x.file)
      ∙ last_of-remove i m ms (bump c x.file) ws (skip i j x ws false other first))
]
  where
    swap : (p q : ℕ) → bump (bump c p) q ≡ bump (bump c q) p
    swap p q = elim (ℕ_discrete p q) [
      | yes e ↦ ap (λ r. bump (bump c p) r) (sym e) ∙ ap (λ r. bump (bump c r) p) e
      | no ne ↦ bump-bump c p q ne
    ]

module _ (i : ℕ) (m : Msg) where
  pub last_of-append :
      (c : ℕ → ℕ) (ws : Waiting) → last_of c (ws ++ (i, m) ∷ []) ≡ bump (last_of c ws) m.file
  last_of-append c [] = refl
  last_of-append c ((j, x) ∷ ws) = last_of-append (bump c x.file) ws

  pub append-InOrder :
      (c : ℕ → ℕ) (ws : Waiting)
      → InOrder c ws
      → m.aid ≡ suc (last_of c ws m.file)
      → InOrder c (ws ++ (i, m) ∷ [])
  append-InOrder c [] order next = (next, tt)
  append-InOrder c ((j, x) ∷ ws) (at, order) next =
      (at, append-InOrder (bump c x.file) ws order next)

  pub text_for-append :
      (p : ℕ) (ws : Waiting)
      → text_for p (ws ++ (i, m) ∷ []) ≡ text_for p ws ++ (if m.file == p then m.text else [])
  text_for-append p [] = elim (Bool-cases (m.file == p)) [
    | inl its ↦ rw its (append-nil m.text)
    | inr not_its ↦ rw not_its refl
  ]
  text_for-append p ((j, x) ∷ ws) = elim (Bool-cases (x.file == p)) [
    | inl its ↦ rw its (
        ap (λ t. x.text ++ t) (text_for-append p ws)
        ∙ sym (append_assoc x.text (text_for p ws) (if m.file == p then m.text else [])))
    | inr not_its ↦ rw not_its (text_for-append p ws)
  ]

  pub queue-append :
      (k : ℕ) (ws : Waiting)
      → queue k (ws ++ (i, m) ∷ []) ≡ queue k ws ++ (if i == k then m ∷ [] else [])
  queue-append k [] = refl
  queue-append k ((j, x) ∷ ws) = elim (Bool-cases (j == k)) [
    | inl its ↦ rw its (ap (λ t. x ∷ t) (queue-append k ws))
    | inr not_its ↦ rw not_its (queue-append k ws)
  ]

pub frames-append :
    (ms : List Msg) (m : Msg) → concat (map frame (ms ++ m ∷ [])) ≡ concat (map frame ms) ++ frame m
frames-append [] m = append-nil (frame m)
frames-append (x ∷ ms) m =
    ap (λ t. frame x ++ t) (frames-append ms m)
    ∙ sym (append_assoc (frame x) (concat (map frame ms)) (frame m))
