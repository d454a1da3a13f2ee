-- ===== src/Log/Send.antt =====
-- flog/flog.c: what `_log_async_write` leaves in the buffer of its thread.
use final_libs.Prelude.{
  ℕ, suc, ◌+◌, ◌^◌, ◌%◌, ◌<◌, ◌≤◌, ◌≡◌, refl, ap, sym, subst, ◌∙◌, Bool, true, false, ◌&&◌, some,
  List, [], ◌∷◌, ◌++◌, arith, ltb, leb, if◌then◌else◌, length, length-append, length-take,
  take-length, append-nil, append_assoc, All, Ensures, Ensures-bind, Ensures-mono,
}
use final_libs.Mbuf
use final_libs.Mbuf.{Mbuf}
use final_libs.Mbuf.Queue
use final_libs.Mbuf.Inv.{IsValid, contents, length-contents, used-add-free}
use final_libs.Mbuf.Push.{push_refines}
use final_libs.Log.Disk.{World, put_file, event_notice, truncated}
use final_libs.Log.Wire.{Head, head_size, print_head, length-print_head}
use final_libs.Log.{cut, newline, max_len_per_msg, push_all, async_write}

-- a message: its file, its number, and the bytes that go to the file
pub record Msg : Type 0 where
  pub file : ℕ
  pub aid : ℕ
  pub text : List ℕ

abbrev pub head_of : Msg → Head
head_of m = record { id = 0; f = m.file; aid = m.aid; len = length m.text }

abbrev pub frame : Msg → List ℕ
frame m = print_head (head_of m) ++ m.text

abbrev pub concat : List (List ℕ) → List ℕ
concat [] = []
concat (xs ∷ xss) = xs ++ concat xss

abbrev pub HasBytes : List ℕ → Type 0
HasBytes xs = 0 < length xs

pub record Sent (b : Mbuf) (xs : List ℕ) (b' : Mbuf) : Type 0 where
  pub valid : IsValid b'
  pub size : b'.size ≡ b.size
  pub contents : contents b' ≡ contents b ++ xs

-- one block that fits
pub push_block :
    (b : Mbuf) (xs : List ℕ)
    → IsValid b
    → HasBytes xs
    → length xs ≤ Mbuf.free b
    → Ensures (λ r. (r.0 ≡ 0) × Sent b xs r.1) (Mbuf.push b (some xs) (length xs))
unfolding Queue.push
push_block b xs v some_bytes fits =
    let room : (ltb 0 (length xs) && leb (length (contents b) + length xs) b.size) ≡ true =
      ground (arith, some_bytes, fits, length-contents v, used-add-free v) in
    Ensures-mono _ (Mbuf.push b (some xs) (length xs)) (push_refines xs (length xs) v (omega arith))
      (λ r (valid, size, reply).
        let queue : (r.0, contents r.1) ≡ (0, contents b ++ xs) =
          reply
          ∙ ap (Queue.push b.size (contents b)) (take-length xs)
          ∙ ap (λ (t : Bool). if t then (0, contents b ++ xs) else (1, contents b)) room in
        (
          ap (λ (q : ℕ × List ℕ). q.0) queue,
          record { valid = valid; size = size; contents = ap (λ (q : ℕ × List ℕ). q.1) queue },
        ))

pub free_after :
    (b : Mbuf) (xs : List ℕ) (b' : Mbuf)
    → IsValid b
    → Sent b xs b'
    → Mbuf.free b' + length xs ≡ Mbuf.free b
free_after b xs b' v sent = omega (
  arith,
  used-add-free v,
  used-add-free sent.valid,
  length-contents v,
  length-contents sent.valid,
  ap length sent.contents,
  length-append (contents b) xs,
  sent.size,
)

pub append-Sent :
    (b : Mbuf) (xs ys : List ℕ) (b1 b2 : Mbuf) → Sent b xs b1 → Sent b1 ys b2 → Sent b (xs ++ ys) b2
append-Sent b xs ys b1 b2 first second = record {
  valid = second.valid;
  size = second.size ∙ first.size;
  contents = second.contents ∙ ap (λ zs. zs ++ ys) first.contents ∙ append_assoc (contents b) xs ys;
}

-- blocks that fit
pub push_all_lem :
    (blocks : List (List ℕ)) (b : Mbuf)
    → IsValid b
    → All HasBytes blocks
    → length (concat blocks) ≤ Mbuf.free b
    → Ensures (λ r. (r.0 ≡ true) × Sent b (concat blocks) r.1) (push_all b blocks)
unfolding push_all
push_all_lem [] b v some_bytes fits =
    (refl, record { valid = v; size = refl; contents = sym (append-nil (contents b)) })
push_all_lem (xs ∷ blocks) b v (bytes, more_bytes) fits =
    let lengths = length-append xs (concat blocks) in
    Ensures-bind _ (Mbuf.push b (some xs) (length xs)) _
      (push_block b xs v bytes (omega (arith, fits, lengths)))
      (λ r (pushed, sent).
        let free_in_r = free_after b xs r.1 v sent in
        rw (pushed) (
          Ensures-mono _ (push_all r.1 blocks)
            (push_all_lem blocks r.1 sent.valid more_bytes
              (omega (arith, fits, lengths, free_in_r)))
            (λ q (all, rest). (all, append-Sent b xs (concat blocks) r.1 q.1 sent rest))))

-- the message of a call of `flog_write`
abbrev pub msg_of : World → ℕ → List ℕ → List ℕ → Msg
msg_of w p header log = record {
  file = p;
  aid = suc (w.files p).last_aid;
  text = header ++ (cut log ++ newline);
}

-- the files when the number of a message has been taken
abbrev pub numbered : World → ℕ → World
numbered w p = put_file w p (record (w.files p) { last_aid = suc (w.files p).last_aid })

pub record Logged (b : Mbuf) (w : World) (p : ℕ) (header log : List ℕ) (r : ℕ × Mbuf × World)
    : Type 0 where
  pub accepted : r.0 ≡ length (cut log)
  pub sent : Sent b (frame (msg_of w p header log)) r.1
  pub world : r.2 ≡ (
      if ltb max_len_per_msg (length log)
      then event_notice (numbered w p) truncated
      else numbered w p)

module _ (b : Mbuf) (w : World) (p : ℕ) (header log : List ℕ) (v : IsValid b)
    (some_header : 0 < length header)
    (fits : head_size + (length header + length (cut log) + 1) ≤ Mbuf.free b) where
  abbrev msg : Msg
  msg = msg_of w p header log

  abbrev head : Head
  head = record {
    id = 0;
    f = p;
    aid = suc (w.files p).last_aid;
    len = (length header + length (cut log) + 1) % 2 ^ 16;
  }

  room : ltb (Mbuf.free b) (head_size + (length header + length (cut log) + 1)) ≡ false
  room = ground (arith, fits)

  length-text : length msg.text ≡ length header + length (cut log) + 1
  length-text =
      omega (arith, length-append header (cut log ++ newline), length-append (cut log) newline)

  -- `_log_async_write` of a text that is not empty, under a header that is not empty and with
  -- which the longest text has less than 2 ^ 16 bytes, on a valid buffer with room for all,
  -- with an eventfd that can be written, leaves the whole message behind what the buffer
  -- holds: its head with the next number of the file, the header, the first 4096 bytes of the
  -- text and a line feed. It returns the length of the text that it took, and reports
  -- truncation exactly when it cut the text.
  pub async_write_lem :
      0 < length log
      → length header + 4097 < 2 ^ 16
      → Ensures (Logged b w p header log) (async_write true b w p header log)
  unfolding async_write
  async_write_lem some_log small =
      let blocks = print_head head ∷ header ∷ cut log ∷ newline ∷ [] in
      let cut_len = length-take max_len_per_msg log in
      let same_len : head.len ≡ length msg.text = omega (arith, length-text, cut_len, small) in
      let same_head : head ≡ head_of msg =
        λ i. record { id = 0; f = p; aid = suc (w.files p).last_aid; len = same_len i } in
      let same : concat blocks ≡ frame msg =
        ap (λ h. print_head h ++ (header ++ (cut log ++ (newline ++ [])))) same_head in
      let len : length (concat blocks) ≡ head_size + length msg.text =
        ap length same
        ∙ length-append (print_head (head_of msg)) msg.text
        ∙ ap (λ n. n + length msg.text) (length-print_head (head_of msg)) in
      rw room (
        Ensures-bind _ (push_all b blocks) _
          (push_all_lem blocks b v
            (
              omega (arith, length-print_head head),
              (some_header, (omega (arith, some_log, cut_len), (omega arith, tt))),
            )
            (omega (arith, len, length-text, fits)))
          (λ r (all, sent). rw all (record {
            accepted = refl;
            sent = subst (λ xs. Sent b xs r.1) same sent;
            world = refl;
          })))
