-- ===== src/Log/Serve.antt =====
-- flog/flog.c: the messages that wait when `_log_async_process` has served one thread.
use final_libs.Prelude.{
  ℕ, suc, ◌+◌, ◌/◌, ◌<◌, ◌≡◌, ◌≢◌, refl, ap, sym, subst, ◌∙◌, true, false, ◌&&◌, List, [], ◌∷◌,
  ◌++◌, arith, ltb, leb, ◌==◌, if◌then◌else◌, length, append-nil, append_assoc, All, Bool-cases,
  inl, inr,
}
use native.Mathlib.Decide.{ℕ_discrete}
use final_libs.Dlist.Cells.{write_self, write-other, write_part}
use final_libs.Log.Disk.{
  put_file, File, World, try_flush_and_rollfile, flush_file, roll_file, rolling_enabled,
}
use final_libs.Log.Send.{Msg}
use final_libs.Log.Fetch.{stored, delivered, serve}
use final_libs.Log.Order.{
  Waiting, queue, remove, bump, InOrder, text_for, remove-InOrder, text_for-remove,
  queue-remove_self, queue-remove_other, length-remove, All-remove,
}
use final_libs.Log.Numbers.{last_of, last_of-remove}

-- all that `write` has taken for a file, before and after it was renamed
abbrev pub written : World → ℕ → List ℕ
written w p = (w.files p).output

abbrev pub curr : World → ℕ → ℕ
curr w p = (w.files p).curr_aid

-- the last number that a file has given
abbrev pub given : World → ℕ → ℕ
given w p = (w.files p).last_aid

-- Flushing and rolling keep what has been written, and the numbers of the file.
settled :
    (f : File) (now_ms : ℕ)
    → ((try_flush_and_rollfile f now_ms).curr_aid ≡ f.curr_aid)
      × ((try_flush_and_rollfile f now_ms).output ≡ f.output)
      × ((try_flush_and_rollfile f now_ms).last_aid ≡ f.last_aid)
unfolding try_flush_and_rollfile rolling_enabled flush_file roll_file
settled f now_ms = elim (Bool-cases (leb (f.last_flush_time + f.flush_interval) (now_ms / 1000))) [
  | inl now_due ↦ elim (Bool-cases (ltb 0 f.rolling_size && ltb f.rolling_size f.file_size)) [
    | inl rolls ↦ rw (now_due, rolls) (refl, refl, refl)
    | inr stays ↦ rw (now_due, stays) (refl, refl, refl)
  ]
  | inr early ↦ elim (Bool-cases (ltb 0 f.rolling_size && ltb f.rolling_size f.file_size)) [
    | inl rolls ↦ rw (early, rolls) (refl, refl, refl)
    | inr stays ↦ rw (early, stays) (refl, refl, refl)
  ]
]

module _ (clock : ℕ → ℕ) where
  curr-delivered : (w : World) (m : Msg) → curr (delivered clock w m) ≡ bump (curr w) m.file
  curr-delivered w m =
      let f = w.files m.file in
      let f' = stored clock (record f { curr_aid = suc f.curr_aid }) m.text in
      let at : (p : ℕ) → curr (delivered clock w m) p ≡ bump (curr w) m.file p = λ p.
        elim (ℕ_discrete p m.file) [
          | yes same ↦
              ap (curr (delivered clock w m)) same
              ∙ ap (λ (g : File). g.curr_aid) (write_self w.files m.file f')
              ∙ (settled _ (clock (suc f.writes))).0
              ∙ sym (ap (bump (curr w) m.file) same ∙ write_self (curr w) m.file (suc f.curr_aid))
          | no other ↦
              ap (λ (g : File). g.curr_aid) (write-other w.files m.file f' p other)
              ∙ sym (write-other (curr w) m.file (suc f.curr_aid) p other)
        ] in
      λ i p. at p i

  given-delivered : (w : World) (m : Msg) (p : ℕ) → given (delivered clock w m) p ≡ given w p
  given-delivered w m p =
      let f = w.files m.file in
      write_part (λ (g : File). g.last_aid) w.files m.file
        (stored clock (record f { curr_aid = suc f.curr_aid }) m.text)
        (settled _ (clock (suc f.writes))).2 p

  pub written-stored :
      (w : World) (p : ℕ) (f : File) (text : List ℕ) (q : ℕ)
      → f.output ≡ written w p
      → written (put_file w p (stored clock f text)) q
        ≡ written w q ++ (if p == q then text else [])
  written-stored w p f text q same_text =
      let f' = stored clock f text in
      elim (ℕ_discrete q p) [
        | yes same ↦
            let its : (p == q) ≡ true = ground (arith, same) in
            rw its (
              ap (written (put_file w p f')) same
              ∙ ap (λ (g : File). g.output) (write_self w.files p f')
              ∙ (settled _ (clock (suc f.writes))).1
              ∙ ap (λ t. t ++ text) (same_text ∙ ap (written w) (sym same)))
        | no other ↦
            let not_its : (p == q) ≡ false = ground (arith, other) in
            rw not_its (
              ap (λ (g : File). g.output) (write-other w.files p f' q other)
              ∙ sym (append-nil (written w q)))
      ]

  written-delivered :
      (w : World) (m : Msg) (p : ℕ)
      → written (delivered clock w m) p ≡ written w p ++ (if m.file == p then m.text else [])
  written-delivered w m p =
      let f = w.files m.file in
      written-stored w m.file (record f { curr_aid = suc f.curr_aid }) m.text p refl

  -- What a thread leaves of the messages `ws` that wait, when `_log_async_process` has served it.
  pub record After (P : ℕ × Msg → Type 0) (i : ℕ) (ws : Waiting) (w : World)
      (s : ℕ × List Msg × World) : Type 0 where
    pub left : Waiting
    pub own : queue i left ≡ s.1
    pub others : (k : ℕ) → k ≢ i → queue k left ≡ queue k ws
    pub in_order : InOrder (curr s.2) left
    pub count : s.0 + length left ≡ length ws
    pub text : (p : ℕ) → written s.2 p ++ text_for p left ≡ written w p ++ text_for p ws
    pub sound : All P left
    pub idle : s.0 ≡ 0 → (left ≡ ws) × (s.2 ≡ w)
    pub numbers : last_of (curr s.2) left ≡ last_of (curr w) ws
    pub given : (p : ℕ) → given s.2 p ≡ given w p

  pub serve_lem :
      (P : ℕ × Msg → Type 0) (i : ℕ) (ms : List Msg) (ws : Waiting) (w : World)
      → queue i ws ≡ ms
      → InOrder (curr w) ws
      → All P ws
      → After P i ws w (serve clock ms w)
  serve_lem P i [] ws w at order sound = record {
    left = ws;
    own = at;
    others = λ k ne. refl;
    in_order = order;
    count = omega arith;
    text = λ p. refl;
    sound = sound;
    idle = λ e. (refl, refl);
    numbers = refl;
    given = λ p. refl;
  }
  serve_lem P i (m ∷ ms) ws w at order sound =
      let w1 = delivered clock w m in
      elim (Bool-cases (m.aid == suc (w.files m.file).curr_aid)) [
        | inl next ↦
            let ready : m.aid ≡ suc (curr w m.file) = ground (arith, next) in
            let order1 : InOrder (curr w1) (remove i ws) =
              subst (λ c. InOrder c (remove i ws)) (sym (curr-delivered w m))
                (remove-InOrder i m ms (curr w) ws order at ready) in
            let rest =
              serve_lem P i ms (remove i ws) w1 (queue-remove_self i m ms ws at) order1
                (All-remove P i ws sound) in
            rw next (record {
              left = rest.left;
              own = rest.own;
              others = λ k ne. rest.others k ne ∙ queue-remove_other i k ws ne;
              in_order = rest.in_order;
              count = omega (arith, rest.count, length-remove i m ms ws at);
              text = λ p.
                  rest.text p
                  ∙ ap (λ t. t ++ text_for p (remove i ws)) (written-delivered w m p)
                  ∙ append_assoc (written w p) (if m.file == p then m.text else [])
                      (text_for p (remove i ws))
                  ∙ ap (λ t. written w p ++ t)
                      (sym (text_for-remove i m ms (curr w) p ws order at ready));
              sound = rest.sound;
              idle = λ e. absurd (ground (arith, e));
              numbers =
                  rest.numbers
                  ∙ ap (λ c. last_of c (remove i ws)) (curr-delivered w m)
                  ∙ last_of-remove i m ms (curr w) ws at;
              given = λ p. rest.given p ∙ given-delivered w m p;
            })
        | inr later ↦ rw later (record {
          left = ws;
          own = at;
          others = λ k ne. refl;
          in_order = order;
          count = omega arith;
          text = λ p. refl;
          sound = sound;
          idle = λ e. (refl, refl);
          numbers = refl;
          given = λ p. refl;
        })
      ]

  -- the thread of the first message that waits is not idle
  pub serve-first :
      (i : ℕ) (m : Msg) (ws : Waiting) (w : World)
      → InOrder (curr w) ((i, m) ∷ ws)
      → 0 < (serve clock (queue i ((i, m) ∷ ws)) w).0
  serve-first i m ws w (at, order) =
      let mine : (i == i) ≡ true = ground arith in
      let ready : (m.aid == suc (curr w m.file)) ≡ true = ground (arith, at) in
      rw (mine, ready) (omega arith)
