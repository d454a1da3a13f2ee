-- ===== src/Log/Run/Kept.antt =====
-- flog/flog.c: what a call or a fetch keeps, whatever came before it.
use final_libs.Prelude.{
  ℕ, suc, ◌+◌, ◌^◌, ◌<◌, ◌≤◌, ◌≡◌, refl, ap, ap₂, sym, Bool, subst, ◌∙◌, true, false, some, List,
  [], ◌∷◌, ◌++◌, arith, ◌==◌, if◌then◌else◌, length, length-append, length-take, append_assoc,
  append-nil, inl, inr, Ensures, Ensures-bind,
}
use native.Mathlib.Decide.{ℕ_discrete}
use final_libs.Dlist.Cells.{write, write_self, write-other, write_part}
use final_libs.Dlist.Chain.{has}
use final_libs.Mbuf.{Mbuf}
use final_libs.Log.Disk.{World, Answer, event_notice, buffer_full}
use final_libs.Log.Wire.{head_size}
use final_libs.Log.{async_write, async_process, cut, newline, max_len_per_msg}
use final_libs.Log.Send.{Logged, msg_of}
use final_libs.Log.Fetch.{IsMsg, Willing}
use final_libs.Log.Order.{Waiting, queue, bump, text_for}
use final_libs.Log.Numbers.{last_of, last_of-append, text_for-append}
use final_libs.Log.Serve.{written, curr, given, serve_lem}
use final_libs.Log.Drain.{IsPending, IsKnown, write-IsPending, serve_alive}
use final_libs.Log.Post.{append-IsPending, Logged-Numbered, async_write_cases}
use final_libs.Log.Run.{System, Action, logs, fetches, step}

-- a call of a thread of the table with some text that fits into the array of the fetcher
pub record IsCall (table : List ℕ) (i p : ℕ) (header log : List ℕ) : Type 0 where
  pub known : has i table ≡ true
  pub file : p < 256 ^ 8
  pub some_header : 0 < length header
  pub some_log : 0 < length log
  pub fits : head_size + (length header + length (cut log) + 1) ≤ max_len_per_msg

abbrev pub IsAction : List ℕ → Action → Type 0
IsAction table (logs i p header log) = IsCall table i p header log
IsAction table (fetches i) = has i table ≡ true

-- The messages `ws` wait, with `n` actions to come and room for `k` messages in all.
pub record IsRunning (table : List ℕ) (k n : ℕ) (ws : Waiting) (s : System) : Type 0 where
  pub pending : IsPending table s.threads s.world ws
  pub numbers : given s.world ≡ last_of (curr s.world) ws
  pub room : (p : ℕ) → given s.world p + n < 2 ^ 31
  pub text : (p : ℕ) → written s.world p ++ text_for p ws ≡ s.taken p
  pub bound : length ws + n ≤ k

abbrev pub Runs : List ℕ → ℕ → ℕ → System → Type 0
Runs table k n s = (ws : Waiting) × IsRunning table k n ws s

bump_le : (c : ℕ → ℕ) (p q : ℕ) → bump c p q ≤ suc (c q)
unfolding write
bump_le c p q = elim (ℕ_discrete p q) [
  | yes e ↦ ground (arith, ap c e)
  | no ne ↦ ground (arith, ne)
]

write-append :
    (f : ℕ → List ℕ) (p : ℕ) (xs : List ℕ) (q : ℕ)
    → write f p (f p ++ xs) q ≡ f q ++ (if p == q then xs else [])
write-append f p xs q = elim (ℕ_discrete q p) [
  | yes e ↦
      let own : (p == q) ≡ true = ground (arith, e) in
      ap (write f p (f p ++ xs)) e
      ∙ write_self f p (f p ++ xs)
      ∙ ap (λ a. f a ++ xs) (sym e)
      ∙ ap (λ (b : Bool). f q ++ (if b then xs else [])) (sym own)
  | no ne ↦
      let other : (p == q) ≡ false = ground (arith, ne) in
      write-other f p (f p ++ xs) q ne
      ∙ sym (append-nil (f q))
      ∙ ap (λ (b : Bool). f q ++ (if b then xs else [])) (sym other)
]

not_zero : (n : ℕ) → 0 < n → (n == 0) ≡ false
not_zero n some_n = ground arith

write_same : {A : Type 0} (f : ℕ → A) (a : ℕ) → write f a (f a) ≡ f
write_same f a =
    let at : (b : ℕ) → write f a (f a) b ≡ f b = λ b. write_part (λ c. c) f a (f a) refl b in
    λ i b. at b i

module _ (kernel : ℕ → Answer) (clock : ℕ → ℕ) (willing : Willing kernel) (patience : ℕ)
    (table : List ℕ) (k : ℕ) where
  Logged-IsRunning :
      (n i p : ℕ) (header log : List ℕ) (ws : Waiting) (s : System) (r : ℕ × Mbuf × World)
      → IsRunning table k (suc n) ws s
      → IsCall table i p header log
      → Logged (s.threads i).plog_buf s.world p header log r
      → IsRunning table k n (ws ++ (i, msg_of s.world p header log) ∷ []) (record {
        threads = write s.threads i (record (s.threads i) { plog_buf = r.1 });
        world = r.2;
        taken = write s.taken p (s.taken p ++ (header ++ (cut log ++ newline)));
      })
  Logged-IsRunning n i p header log ws s r is call logged =
      let m = msg_of s.world p header log in
      let new = Logged-Numbered (s.threads i).plog_buf s.world p header log r logged in
      let lengths = length-append header (cut log ++ newline) in
      let lengths' = length-append (cut log) newline in
      let msg : IsMsg m = record {
        file = call.file;
        aid = omega (arith, is.room p);
        some_text = omega (arith, lengths, lengths');
        fits = omega (arith, lengths, lengths', call.fits);
      } in
      record {
        pending =
            append-IsPending i m table s.threads s.world r.2 ws r.1 is.pending (msg, call.known)
              (λ j. suc (is.numbers j p)) logged.sent new.curr;
        numbers =
            new.given
            ∙ ap (λ c. bump c p) is.numbers
            ∙ sym (last_of-append i m (curr s.world) ws)
            ∙ ap (λ c. last_of c (ws ++ (i, m) ∷ [])) (sym new.curr);
        room = λ q. omega (arith, is.room q, ap (λ c. c q) new.given, bump_le (given s.world) p q);
        text = λ q.
            ap₂ (λ xs ys. xs ++ ys) (new.written q) (text_for-append i m q ws)
            ∙ sym (append_assoc (written s.world q) (text_for q ws) (if p == q then m.text else []))
            ∙ ap (λ t. t ++ (if p == q then m.text else [])) (is.text q)
            ∙ sym (write-append s.taken p m.text q);
        bound = omega (arith, is.bound, length-append ws ((i, m) ∷ []));
      }

  full-IsRunning :
      (n i : ℕ) (ws : Waiting) (s : System)
      → IsRunning table k (suc n) ws s
      → IsRunning table k n ws (record {
        threads = write s.threads i (s.threads i);
        world = event_notice s.world buffer_full;
        taken = s.taken;
      })
  unfolding event_notice
  full-IsRunning n i ws s is =
      let order = is.pending in
      record {
        pending =
            subst (λ f. IsPending table f (event_notice s.world buffer_full) ws)
              (sym (write_same s.threads i))
              (record {
                alive = order.alive;
                holds = order.holds;
                in_order = order.in_order;
                sound = order.sound;
              });
        numbers = is.numbers;
        room = λ p. omega (arith, is.room p);
        text = is.text;
        bound = omega (arith, is.bound);
      }

  pub step_lem :
      (n : ℕ) (a : Action) (ws : Waiting) (s : System)
      → IsRunning table k (suc n) ws s
      → IsAction table a
      → Ensures (Runs table k n) (step kernel clock (suc patience) table a s)
  unfolding step
  step_lem n (logs i p header log) ws s is call =
      let t = s.threads i in
      Ensures-bind (Runs table k n) (async_write true t.plog_buf s.world p header log) _
        (async_write_cases t.plog_buf s.world p header log (is.pending.holds i).0 call.some_header
          call.some_log (omega (arith, call.fits)))
        (λ r case. elim case [
          | inl full ↦
              subst
                (λ (q : ℕ × Mbuf × World). Runs table k n (record {
                  threads = write s.threads i (record t { plog_buf = q.1 });
                  world = q.2;
                  taken =
                      if q.0 == 0
                      then s.taken
                      else write s.taken p (s.taken p ++ (header ++ (cut log ++ newline)));
                }))
                (sym full) (ws, full-IsRunning n i ws s is)
          | inr logged ↦
              let some_text : 0 < r.0 =
                omega (arith, logged.accepted, call.some_log, length-take max_len_per_msg log) in
              rw (not_zero r.0 some_text) (
                ws ++ (i, msg_of s.world p header log) ∷ [],
                Logged-IsRunning n i p header log ws s r is call logged,
              )
        ])
  step_lem n (fetches i) ws s is known =
      let t = s.threads i in
      let order = is.pending in
      let after =
        serve_lem clock (IsKnown table) i (queue i ws) ws s.world refl order.in_order order.sound in
      Ensures-bind (Runs table k n)
        (if t.alive
          then async_process kernel clock (suc patience) t s.world
          else some (0, t, s.world))
        _ (serve_alive kernel clock willing patience table i s.threads s.world ws order)
        (λ r done. (
          after.left,
          record {
            pending =
                write-IsPending kernel clock willing patience table i s.threads s.world ws r order
                  done after;
            numbers =
                (λ j p. (ap (λ w'. given w' p) done.world ∙ after.given p) j)
                ∙ is.numbers
                ∙ sym after.numbers
                ∙ ap (λ w'. last_of (curr w') after.left) (sym done.world);
            room = λ p. omega (arith, is.room p, ap (λ w'. given w' p) done.world, after.given p);
            text = λ p.
                ap (λ w'. written w' p ++ text_for p after.left) done.world
                ∙ after.text p
                ∙ is.text p;
            bound = omega (arith, is.bound, after.count);
          },
        ))
