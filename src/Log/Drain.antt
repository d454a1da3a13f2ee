-- ===== src/Log/Drain.antt =====
-- flog/flog.c: the rounds of the fetcher, until the buffers of all threads are empty.
use final_libs.Prelude.{
  ℕ, zero, suc, ◌+◌, ◌<◌, ◌≡◌, refl, ap, sym, subst, ◌∙◌, true, some, List, [], ◌∷◌, ◌++◌, arith,
  ◌==◌, if◌then◌else◌, length, append-nil, All, Bool-cases, inl, inr, Ensures, Ensures-if,
  Ensures-bind, Ensures-mono,
}
use native.Mathlib.Decide.{ℕ_discrete}
use final_libs.Dlist.Cells.{write, write_self, write-other}
use final_libs.Dlist.Chain.{has}
use final_libs.Log.Disk.{World, Answer}
use final_libs.Log.{Thread, async_process, round, rounds}
use final_libs.Log.Send.{Msg}
use final_libs.Log.Fetch.{IsMsg, Holds, Willing, serve, Served}
use final_libs.Log.Process.{async_process_lem}
use final_libs.Log.Order.{Waiting, queue, InOrder, text_for, All-queue}
use final_libs.Log.Serve.{written, curr, After, serve_lem, serve-first}

-- a message of a thread in the table
abbrev pub IsKnown : List ℕ → ℕ × Msg → Type 0
IsKnown table e = IsMsg e.1 × (has e.0 table ≡ true)

-- The messages `ws` wait in the buffers of the threads of the table, all of which run.
pub record IsPending (table : List ℕ) (threads : ℕ → Thread) (w : World) (ws : Waiting)
    : Type 0 where
  pub alive : (i : ℕ) → (threads i).alive ≡ true
  pub holds : (i : ℕ) → Holds (threads i).plog_buf (queue i ws)
  pub in_order : InOrder (curr w) ws
  pub sound : All (IsKnown table) ws

-- a round of the fetcher through the threads `order`
record Rounded (table order : List ℕ) (ws : Waiting) (w : World) (r : ℕ × (ℕ → Thread) × World)
    : Type 0 where
  pub left : Waiting
  pub pending : IsPending table r.1 r.2 left
  pub count : r.0 + length left ≡ length ws
  pub text : (p : ℕ) → written r.2 p ++ text_for p left ≡ written w p ++ text_for p ws
  pub moved : (i : ℕ) (m : Msg) (rest : Waiting) → ws ≡ (i, m) ∷ rest → has i order ≡ true → 0 < r.0

-- the end of the rounds: nothing waits
pub record Drained (ws : Waiting) (w : World) (r : (ℕ → Thread) × World) : Type 0 where
  pub empty : (i : ℕ) → Holds (r.0 i).plog_buf []
  pub text : (p : ℕ) → written r.1 p ≡ written w p ++ text_for p ws

pub are_Msgs : (table : List ℕ) (ws : Waiting) → All (IsKnown table) ws → All (λ e. IsMsg e.1) ws
are_Msgs table [] known = tt
are_Msgs table (e ∷ ws) (is, known) = (is.0, are_Msgs table ws known)

module _ (kernel : ℕ → Answer) (clock : ℕ → ℕ) (willing : Willing kernel) (patience : ℕ)
    (table : List ℕ) where
  -- the threads after one of them has been served
  pub write-IsPending :
      (efd : ℕ) (threads : ℕ → Thread) (w : World) (ws : Waiting) (r : ℕ × Thread × World)
      → IsPending table threads w ws
      → Served 0 (threads efd) (serve clock (queue efd ws) w) r
      → (after : After clock (IsKnown table) efd ws w (serve clock (queue efd ws) w))
      → IsPending table (write threads efd r.1) r.2 after.left
  write-IsPending efd threads w ws r is done after = record {
    alive = λ i. elim (ℕ_discrete i efd) [
      | yes same ↦
          ap (λ (t : Thread). t.alive)
            (ap (write threads efd r.1) same ∙ write_self threads efd r.1)
          ∙ done.alive
          ∙ is.alive efd
      | no other ↦ ap (λ (t : Thread). t.alive) (write-other threads efd r.1 i other) ∙ is.alive i
    ];
    holds = λ i. elim (ℕ_discrete i efd) [
      | yes same ↦
          subst (λ k. Holds (write threads efd r.1 k).plog_buf (queue k after.left)) (sym same)
            (subst (λ (t : Thread). Holds t.plog_buf (queue efd after.left))
              (sym (write_self threads efd r.1))
              (subst (Holds r.1.plog_buf) (sym after.own) done.holds))
      | no other ↦
          subst (λ (t : Thread). Holds t.plog_buf (queue i after.left))
            (sym (write-other threads efd r.1 i other))
            (subst (Holds (threads i).plog_buf) (sym (after.others i other)) (is.holds i))
    ];
    in_order = subst (λ w'. InOrder (curr w') after.left) (sym done.world) after.in_order;
    sound = after.sound;
  }

  -- a thread that is served
  pub serve_alive :
      (i : ℕ) (threads : ℕ → Thread) (w : World) (ws : Waiting)
      → IsPending table threads w ws
      → Ensures (Served 0 (threads i) (serve clock (queue i ws) w)) (
          if (threads i).alive
          then async_process kernel clock (suc patience) (threads i) w
          else some (0, threads i, w))
  serve_alive i threads w ws is =
      Ensures-if (Served 0 (threads i) (serve clock (queue i ws) w)) (threads i).alive _ _
        (λ _.
          async_process_lem kernel clock willing patience (queue i ws) (threads i) w (is.holds i)
            (All-queue IsMsg i ws (are_Msgs table ws is.sound)))
        (λ dead. absurd (ground (arith, dead, is.alive i)))

  round_lem :
      (order : List ℕ) (threads : ℕ → Thread) (w : World) (ws : Waiting)
      → IsPending table threads w ws
      → Ensures (Rounded table order ws w) (round kernel clock (suc patience) order threads w)
  unfolding round has
  round_lem [] threads w ws is = record {
    left = ws;
    pending = is;
    count = omega arith;
    text = λ p. refl;
    moved = λ i m rest e there. absurd (ground (arith, there));
  }
  round_lem (efd ∷ order) threads w ws is =
      let t = threads efd in
      let s = serve clock (queue efd ws) w in
      let after =
        serve_lem clock (IsKnown table) efd (queue efd ws) ws w refl is.in_order is.sound in
      let P = Rounded table (efd ∷ order) ws w in
      Ensures-bind P
        (if t.alive then async_process kernel clock (suc patience) t w else some (0, t, w)) _
        (serve_alive efd threads w ws is)
        (λ r done.
          let threads1 = write threads efd r.1 in
          let is1 = write-IsPending efd threads w ws r is done after in
          Ensures-bind P (round kernel clock (suc patience) order threads1 r.2) _
            (round_lem order threads1 r.2 after.left is1)
            (λ q rest. record {
              left = rest.left;
              pending = rest.pending;
              count = omega (arith, rest.count, after.count, done.count);
              text = λ p.
                  rest.text p
                  ∙ ap (λ w'. written w' p ++ text_for p after.left) done.world
                  ∙ after.text p;
              moved = λ i m more e there. elim (Bool-cases (s.0 == 0)) [
                | inl idle ↦
                    let same = (after.idle (ground (arith, idle))).0 in
                    elim (ℕ_discrete i efd) [
                      | yes own ↦
                          let first =
                            subst (λ v. 0 < (serve clock (queue i v) w).0) (sym e)
                              (serve-first clock i m more w
                                (subst (InOrder (curr w)) e is.in_order)) in
                          omega (
                            arith,
                            subst (λ k. 0 < (serve clock (queue k ws) w).0) own first,
                            done.count,
                          )
                      | no other ↦
                          omega
                            (arith, rest.moved i m more (same ∙ e) (ground (arith, there, other)))
                    ]
                | inr busy ↦ ground (arith, busy, done.count)
              ];
            }))

  idle-Drained :
      (ws left : Waiting) (w : World) (r : ℕ × (ℕ → Thread) × World)
      → IsPending table r.1 r.2 left
      → length left ≡ 0
      → ((p : ℕ) → written r.2 p ++ text_for p left ≡ written w p ++ text_for p ws)
      → Drained ws w (r.1, r.2)
  idle-Drained ws [] w r pending none_left text = record {
    empty = pending.holds;
    text = λ p. sym (append-nil (written r.2 p)) ∙ text p;
  }
  idle-Drained ws (e ∷ left) w r pending none_left text = absurd (omega (arith, none_left))

  -- a round that processes nothing, with messages that wait
  not_stuck :
      (ws : Waiting) (w : World) (r : ℕ × (ℕ → Thread) × World)
      → All (IsKnown table) ws
      → Rounded table table ws w r
      → r.0 ≡ 0
      → length ws ≡ 0
  not_stuck [] w r sound done idle = refl
  not_stuck ((i, m) ∷ ws) w r (is, sound) done idle =
      absurd (omega (arith, idle, done.moved i m ws refl is.1))

  -- Threads of the table, all running, hold messages in their buffers that wait for files. The
  -- numbers of the messages follow those of their files, in one common order. Each message has
  -- a pointer below 2 ^ 64, a number below 2 ^ 31, some text, and at most 4096 bytes with its
  -- head. The system writes at least 2 ^ 16 bytes at a call. Then the rounds of the fetcher,
  -- with one round more than there are messages, are defined: all buffers are empty, and
  -- `write` has taken for every file, before and after it was renamed, what it had taken
  -- before and then exactly the text of its messages, in the order of their numbers.
  pub rounds_lem :
      (fuel : ℕ) (threads : ℕ → Thread) (w : World) (ws : Waiting)
      → IsPending table threads w ws
      → length ws < fuel
      → Ensures (Drained ws w) (rounds kernel clock (suc patience) fuel table threads w)
  unfolding rounds
  rounds_lem zero threads w ws is enough = absurd (omega (arith, enough))
  rounds_lem (suc fuel) threads w ws is enough =
      Ensures-bind (Drained ws w) (round kernel clock (suc patience) table threads w) _
        (round_lem table threads w ws is)
        (λ r done. elim (Bool-cases (r.0 == 0)) [
          | inl idle ↦
              let none_wait = not_stuck ws w r is.sound done (ground (arith, idle)) in
              rw idle (
                idle-Drained ws done.left w r done.pending (omega (arith, none_wait, done.count))
                  done.text)
          | inr busy ↦ rw busy (
              Ensures-mono (Drained ws w) (rounds kernel clock (suc patience) fuel table r.1 r.2)
                (rounds_lem fuel r.1 r.2 done.left done.pending
                  (ground (arith, busy, done.count, enough)))
                (λ q rest. record { empty = rest.empty; text = λ p. rest.text p ∙ done.text p }))
        ])
