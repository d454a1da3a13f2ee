-- ===== src/Log/Empty.antt =====
-- flog/flog.c: a call of `_log_async_write` with an empty text.
use final_libs.Prelude.{
  ℕ, suc, ◌+◌, ◌^◌, ◌%◌, ◌<◌, ◌≤◌, ◌≡◌, refl, ap, subst, ◌∙◌, true, false, some, List, [], ◌∷◌,
  ◌++◌, arith, ltb, length, Ensures, Ensures-bind, Ensures-mono,
}
use final_libs.Mbuf
use final_libs.Mbuf.{Mbuf}
use final_libs.Mbuf.Queue
use final_libs.Mbuf.Inv.{IsValid}
use final_libs.Mbuf.Push.{push_refines}
use final_libs.Log.Disk.{World}
use final_libs.Log.Wire.{Head, head_size, print_head, length-print_head}
use final_libs.Log.{newline, push_all, async_write}
use final_libs.Log.Send.{HasBytes, Sent, append-Sent, free_after, push_block}

-- an empty block is refused
push_empty :
    {b : Mbuf} {xs : List ℕ} (c : Mbuf)
    → Sent b xs c
    → Ensures (λ r. (r.0 ≡ 1) × Sent b xs r.1) (Mbuf.push c (some []) 0)
unfolding Queue.push
push_empty c sent =
    Ensures-mono _ (Mbuf.push c (some []) 0) (push_refines [] 0 sent.valid (omega arith))
      (λ r (valid, size, reply). (
        ap (λ (q : ℕ × List ℕ). q.0) reply,
        record {
          valid = valid;
          size = size ∙ sent.size;
          contents = ap (λ (q : ℕ × List ℕ). q.1) reply ∙ sent.contents;
        },
      ))

-- two blocks, and an empty one, which is refused
push_two :
    (b : Mbuf) (xs ys : List ℕ)
    → IsValid b
    → HasBytes xs
    → HasBytes ys
    → length xs + length ys ≤ Mbuf.free b
    → Ensures
        (λ r. (r.0 ≡ false) × Sent b (xs ++ ys) r.1)
        (push_all b (xs ∷ ys ∷ [] ∷ newline ∷ []))
unfolding push_all
push_two b xs ys v some_xs some_ys fits =
    Ensures-bind _ (Mbuf.push b (some xs) (length xs)) _
      (push_block b xs v some_xs (omega (arith, fits)))
      (λ r (pushed, sent).
        let free_in_r = free_after b xs r.1 v sent in
        rw pushed (
          Ensures-bind _ (Mbuf.push r.1 (some ys) (length ys)) _
            (push_block r.1 ys sent.valid some_ys (omega (arith, fits, free_in_r)))
            (λ q (pushed', sent'). rw pushed' (
              Ensures-bind _ (Mbuf.push q.1 (some []) 0) _
                (push_empty q.1 (append-Sent b xs ys r.1 q.1 sent sent'))
                (λ z (refused, sent''). rw refused (refl, sent''))))))

-- `_log_async_write` of an empty text, under a header that is not empty, on a valid buffer with
-- room for all, returns 0. It leaves the head and the header in the buffer without the line
-- feed, so that the head announces one byte more than there is.
pub async_write_empty :
    (b : Mbuf) (w : World) (p : ℕ) (header : List ℕ)
    → IsValid b
    → 0 < length header
    → head_size + (length header + 1) ≤ Mbuf.free b
    → length header + 1 < 2 ^ 16
    → Ensures
        (λ r.
          (r.0 ≡ 0)
          × Sent b
              (print_head (record {
                id = 0;
                f = p;
                aid = suc (w.files p).last_aid;
                len = length header + 1;
              })
                ++ header)
              r.1)
        (async_write true b w p header [])
unfolding async_write
async_write_empty b w p header v some_header fits small =
    let announced : Head = record {
      id = 0;
      f = p;
      aid = suc (w.files p).last_aid;
      len = (length header + 0 + 1) % 2 ^ 16;
    } in
    let h : Head = record {
      id = 0;
      f = p;
      aid = suc (w.files p).last_aid;
      len = length header + 1;
    } in
    let same_len : (length header + 0 + 1) % 2 ^ 16 ≡ length header + 1 = omega (arith, small) in
    let same : print_head announced ++ header ≡ print_head h ++ header =
      ap (λ n. print_head (record h { len = n }) ++ header) same_len in
    let roomy : ltb (Mbuf.free b) (head_size + (length header + 0 + 1)) ≡ false =
      ground (arith, fits) in
    let head_len = length-print_head announced in
    rw roomy (
      Ensures-bind _ (push_all b (print_head announced ∷ header ∷ [] ∷ newline ∷ [])) _
        (push_two b (print_head announced) header v (omega (arith, head_len)) some_header
          (omega (arith, head_len, fits)))
        (λ r (refused, sent). rw refused (refl, subst (λ xs. Sent b xs r.1) same sent)))
