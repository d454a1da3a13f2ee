-- ===== src/Log/Post.antt =====
-- flog/flog.c: a message that `_log_async_write` adds to those that wait.
use final_libs.Prelude.{
  ℕ, suc, ◌+◌, ◌^◌, ◌<◌, ◌≡◌, refl, ap, sym, subst, ◌∙◌, true, false, List, [], ◌∷◌, ◌++◌, arith,
  ltb, ◌==◌, ◌⊎◌, if◌then◌else◌, length, append-nil, All-append, Bool-cases, inl, inr, Ensures,
  Ensures-mono,
}
use native.Mathlib.Decide.{ℕ_discrete}
use final_libs.Dlist.Cells.{write, write_self, write-other, write_part}
use final_libs.Mbuf
use final_libs.Mbuf.{Mbuf}
use final_libs.Mbuf.Inv.{IsValid}
use final_libs.Log.Disk.{File, World, Notice, event_notice, truncated, buffer_full}
use final_libs.Log.Wire.{head_size}
use final_libs.Log.{Thread, async_write, cut, max_len_per_msg}
use final_libs.Log.Send.{Msg, frame, Sent, numbered, Logged, async_write_lem}
use final_libs.Log.Fetch.{Holds}
use final_libs.Log.Order.{Waiting, queue, InOrder}
use final_libs.Log.Numbers.{last_of, append-InOrder, queue-append, frames-append}
use final_libs.Log.Serve.{curr, given, written}
use final_libs.Log.Drain.{IsPending, IsKnown}

module _ (i : ℕ) (m : Msg) (table : List ℕ) where
  -- the threads when a message of one of them is in its buffer
  pub append-IsPending :
      (threads : ℕ → Thread) (w w' : World) (ws : Waiting) (b : Mbuf)
      → IsPending table threads w ws
      → IsKnown table (i, m)
      → m.aid ≡ suc (last_of (curr w) ws m.file)
      → Sent (threads i).plog_buf (frame m) b
      → curr w' ≡ curr w
      → IsPending table
          (write threads i (record (threads i) { plog_buf = b }))
          w'
          (ws ++ (i, m) ∷ [])
  append-IsPending threads w w' ws b is known next sent same =
      let t = record (threads i) { plog_buf = b } in
      record {
        alive = λ k. write_part (λ (t : Thread). t.alive) threads i t refl k ∙ is.alive k;
        holds = λ k. elim (ℕ_discrete k i) [
          | yes own ↦
              let mine : (i == k) ≡ true = ground (arith, own) in
              let left =
                queue-append i m k ws ∙ ap (λ b'. queue k ws ++ (if b' then m ∷ [] else [])) mine in
              let held = subst (λ j. Holds (threads j).plog_buf (queue k ws)) own (is.holds k) in
              subst (λ (t' : Thread). Holds t'.plog_buf (queue k (ws ++ (i, m) ∷ [])))
                (sym (ap (write threads i t) own ∙ write_self threads i t))
                (subst (Holds b) (sym left) (
                  sent.valid,
                  sent.contents
                      ∙ ap (λ xs. xs ++ frame m) held.1
                      ∙ sym (frames-append (queue k ws) m),
                ))
          | no other ↦
              let not_mine : (i == k) ≡ false = ground (arith, other) in
              let left =
                queue-append i m k ws
                ∙ ap (λ b'. queue k ws ++ (if b' then m ∷ [] else [])) not_mine
                ∙ append-nil (queue k ws) in
              subst (λ (t' : Thread). Holds t'.plog_buf (queue k (ws ++ (i, m) ∷ [])))
                (sym (write-other threads i t k other))
                (subst (Holds (threads k).plog_buf) (sym left) (is.holds k))
        ];
        in_order =
            subst (λ c. InOrder c (ws ++ (i, m) ∷ [])) (sym same)
              (append-InOrder i m (curr w) ws is.in_order next);
        sound = All-append _ ws ((i, m) ∷ []) is.sound (known, tt);
      }

-- what a call with a message of a file leaves of the files: the contents and the number of the next
-- one to fetch stay, and the last number goes up
pub record Numbered (w : World) (p : ℕ) (w' : World) : Type 0 where
  pub curr : curr w' ≡ curr w
  pub written : (q : ℕ) → written w' q ≡ written w q
  pub given : given w' ≡ write (given w) p (suc (given w p))

-- the files when a number has been taken
pub numbered-Numbered : (w : World) (p : ℕ) → Numbered w p (numbered w p)
numbered-Numbered w p =
    let f = record (w.files p) { last_aid = suc (w.files p).last_aid } in
    let same = write_part (λ (g : File). g.curr_aid) w.files p f refl in
    let given_at : (q : ℕ) → given (numbered w p) q ≡ write (given w) p (suc (given w p)) q = λ q.
      elim (ℕ_discrete q p) [
        | yes own ↦
            ap (given (numbered w p)) own
            ∙ ap (λ (g : File). g.last_aid) (write_self w.files p f)
            ∙ sym (
                ap (write (given w) p (suc (given w p))) own
                ∙ write_self (given w) p (suc (given w p)))
        | no other ↦
            ap (λ (g : File). g.last_aid) (write-other w.files p f q other)
            ∙ sym (write-other (given w) p (suc (given w p)) q other)
      ] in
    record {
      curr = λ i q. same q i;
      written = write_part (λ (g : File). g.output) w.files p f refl;
      given = λ i q. given_at q i;
    }

notice-Numbered :
    {w : World} {p : ℕ} (w' : World) (n : Notice)
    → Numbered w p w'
    → Numbered w p (event_notice w' n)
unfolding event_notice
notice-Numbered w' n is = record { curr = is.curr; written = is.written; given = is.given }

pub Logged-Numbered :
    (b : Mbuf) (w : World) (p : ℕ) (header log : List ℕ) (r : ℕ × Mbuf × World)
    → Logged b w p header log r
    → Numbered w p r.2
Logged-Numbered b w p header log r is =
    subst (Numbered w p) (sym is.world) (elim (Bool-cases (ltb max_len_per_msg (length log))) [
      | inl long ↦ rw long (notice-Numbered (numbered w p) truncated (numbered-Numbered w p))
      | inr short ↦ rw short (numbered-Numbered w p)
    ])

-- A call either finds the buffer full and leaves it, or its whole message is in the buffer.
pub async_write_cases :
    (b : Mbuf) (w : World) (p : ℕ) (header log : List ℕ)
    → IsValid b
    → 0 < length header
    → 0 < length log
    → length header + 4097 < 2 ^ 16
    → Ensures
        (λ r. (r ≡ (0, b, event_notice w buffer_full)) ⊎ Logged b w p header log r)
        (async_write true b w p header log)
unfolding async_write
async_write_cases b w p header log v some_header some_log small =
    let total = head_size + (length header + length (cut log) + 1) in
    elim (Bool-cases (ltb (Mbuf.free b) total)) [
      | inl full ↦ rw full (inl refl)
      | inr room ↦
          Ensures-mono _ (async_write true b w p header log)
            (async_write_lem b w p header log v some_header (ground (arith, room)) some_log small)
            (λ r logged. inr logged)
    ]
