-- ===== src/Log/Process.antt =====
-- flog/flog.c: `_log_async_process` on the messages of one thread.
use final_libs.Prelude.{
  ℕ, zero, suc, ◌+◌, ◌<◌, ◌≤◌, ◌≡◌, ◌≢◌, refl, ap, subst, ◌∙◌, true, false, some, List, [], ◌∷◌,
  ◌++◌, map, arith, ltb, ◌==◌, length, length-append, take, drop, take-append_self,
  drop-append_self, append_assoc, All, Ensures, Ensures-bind, Ensures-mono, Ensures-eq, Bool-cases,
  inl, inr,
}
use final_libs.Mbuf
use final_libs.Mbuf.{Mbuf, Place, null, in_place, copied, rawget}
use final_libs.Mbuf.Inv.{contents, length-contents, is_empty_lem}
use final_libs.Dlist.Cells.{write_self, write-write}
use final_libs.Log.Disk.{File, World, Answer, put_file}
use final_libs.Log.Wire.{
  IsHead, head_size, print_head, parse_head, length-print_head, parse_head-print_head, number_of,
}
use final_libs.Log.{
  max_len_per_msg, Thread, read_place, fetch_found, fetch_content, pto_fetch, pto, process,
  async_process,
}
use final_libs.Log.Send.{Msg, head_of, frame, concat}
use final_libs.Log.Fetch.{
  Holds, IsMsg, Served, Willing, delivered, length_le-frames, log_write_lem, place-take, pop-drop,
  serve, stored,
}

module _ (kernel : ℕ → Answer) (clock : ℕ → ℕ) (willing : Willing kernel) where
  module _ (patience : ℕ) (t : Thread) (m : Msg) (ms : List Msg) (holds : Holds t.plog_buf (m ∷ ms))
      (is : IsMsg m) where
    abbrev rest : List ℕ
    rest = concat (map frame ms)

    abbrev size : ℕ
    size = head_size + length m.text

    length-frame : length (frame m) ≡ size
    length-frame =
        length-append (print_head (head_of m)) m.text
        ∙ ap (λ n. n + length m.text) (length-print_head (head_of m))

    head_taken : take head_size (contents t.plog_buf) ≡ print_head (head_of m)
    head_taken =
        ap (take head_size) (holds.1 ∙ append_assoc (print_head (head_of m)) m.text rest)
        ∙ take-append_self head_size (print_head (head_of m)) (m.text ++ rest)
            (length-print_head (head_of m))

    head_of-IsHead : IsHead (head_of m)
    head_of-IsHead =
        let fits = is.fits in
        let aid = is.aid in
        record { f = is.file; aid = omega (arith, aid); len = omega (arith, fits) }

    head_found : parse_head (take head_size (contents t.plog_buf)) ≡ head_of m
    head_found = ap parse_head head_taken ∙ parse_head-print_head (head_of m) head_of-IsHead

    frame_taken : take size (contents t.plog_buf) ≡ frame m
    frame_taken = ap (take size) holds.1 ∙ take-append_self size (frame m) rest length-frame

    text_found : drop head_size (take size (contents t.plog_buf)) ≡ m.text
    text_found =
        ap (drop head_size) frame_taken
        ∙ drop-append_self head_size (print_head (head_of m)) m.text (length-print_head (head_of m))

    frame_dropped : drop size (contents t.plog_buf) ≡ rest
    frame_dropped = ap (drop size) holds.1 ∙ drop-append_self size (frame m) rest length-frame

    enough : size ≤ length (contents t.plog_buf)
    enough = omega (arith, ap length holds.1, length-append (frame m) rest, length-frame)

    -- the state after the message has been fetched into `w`
    abbrev Fetched : World → ℕ × Thread × World → Type 0
    Fetched w r =
        (r.0 ≡ 0)
        × Holds r.1.plog_buf ms
        × (r.1.alive ≡ t.alive)
        × (r.2 ≡ put_file w m.file (stored clock (w.files m.file) m.text))

    fetch_found_lem :
        (w : World) (p : Place)
        → read_place max_len_per_msg t.plog_buf size p ≡ some (take size (contents t.plog_buf))
        → Ensures (Fetched w) (fetch_found kernel clock (suc patience) t w (head_of m) p)
    unfolding fetch_found
    fetch_found_lem w p read =
        let some_text = is.some_text in
        let fits = is.fits in
        let no_less : ltb (length m.text) (length m.text) ≡ false = ground arith in
        rw
          (
            read,
            text_found,
            log_write_lem kernel clock willing patience w m.file m.text some_text
                (omega (arith, fits)),
          )
          (Ensures-bind (Fetched w) (Mbuf.pop t.plog_buf false size) _
            (pop-drop t.plog_buf size holds.0 (omega (arith, some_text)) enough)
            (λ r (valid, left). rw no_less (refl, (valid, left ∙ frame_dropped), refl, refl)))

    fetch_content_lem :
        (w : World) (p : Place)
        → p ≢ null
        → read_place max_len_per_msg t.plog_buf size p ≡ some (take size (contents t.plog_buf))
        → Ensures (Fetched w) (fetch_content kernel clock (suc patience) t w (head_of m) p)
    unfolding fetch_content
    fetch_content_lem w null there read = absurd (there refl)
    fetch_content_lem w (in_place a) there read = fetch_found_lem w (in_place a) read
    fetch_content_lem w (copied xs) there read = fetch_found_lem w (copied xs) read

    read_head :
        Ensures
          (λ p.
            (p ≢ null)
            × (read_place head_size t.plog_buf head_size p
                ≡ some (take head_size (contents t.plog_buf))))
          (rawget t.plog_buf true head_size)
    read_head =
        place-take t.plog_buf head_size head_size holds.0 (omega arith) (omega (arith, enough))
          (omega arith)

    long_enough : ltb (Mbuf.used t.plog_buf) head_size ≡ false
    long_enough = ground (arith, enough, length-contents holds.0)

    -- a message that is the next one of its file
    pto_fetch_ready :
        (w : World)
        → (m.aid == suc (w.files m.file).curr_aid) ≡ true
        → Ensures
            (λ r.
              (r.0 ≡ 0)
              × Holds r.1.plog_buf ms
              × (r.1.alive ≡ t.alive)
              × (r.2 ≡ delivered clock w m))
            (pto_fetch kernel clock (suc patience) t w)
    unfolding pto_fetch
    pto_fetch_ready w next =
        let f = w.files m.file in
        let f' : File = record f { curr_aid = suc f.curr_aid } in
        let w1 = put_file w m.file f' in
        let fits = is.fits in
        let in_w1 : put_file w1 m.file (stored clock (w1.files m.file) m.text)
            ≡ delivered clock w m =
          ap (λ g. put_file w1 m.file (stored clock g m.text)) (write_self w.files m.file f')
          ∙ ap (λ (fs : ℕ → File). record w { files = fs })
              (write-write w.files m.file f' (stored clock f' m.text)) in
        rw long_enough (
          Ensures-bind _ (rawget t.plog_buf true head_size) _ read_head (λ p (there, read).
            rw (read, head_found, next)
              (Ensures-bind _ (rawget t.plog_buf true size) _
                (place-take t.plog_buf size max_len_per_msg holds.0 (omega arith) enough fits)
                (λ q (there', read').
                  Ensures-mono _ (fetch_content kernel clock (suc patience) t w1 (head_of m) q)
                    (fetch_content_lem w1 q there' read')
                    (λ r (ok, left, alive, world). (ok, left, alive, world ∙ in_w1))))))

    -- a message that is not
    pto_fetch_waits :
        (w : World)
        → (m.aid == suc (w.files m.file).curr_aid) ≡ false
        → Ensures (λ r. r ≡ (1, t, w)) (pto_fetch kernel clock (suc patience) t w)
    unfolding pto_fetch
    pto_fetch_waits w later = rw long_enough (
        Ensures-bind _ (rawget t.plog_buf true head_size) _ read_head
          (λ p (there, read). rw (read, head_found, later) refl))

    id_found :
        Ensures
          (λ p. (p ≢ null) × (read_place 1 t.plog_buf 1 p ≡ some (0 ∷ [])))
          (rawget t.plog_buf true 1)
    unfolding print_head
    id_found =
        Ensures-mono _ (rawget t.plog_buf true 1)
          (place-take t.plog_buf 1 1 holds.0 (omega arith) (omega (arith, enough)) (omega arith))
          (λ p (there, read). (there, read ∙ ap (λ xs. some (take 1 xs)) holds.1))

  process_lem :
      (patience : ℕ) (ms : List Msg) (fuel n : ℕ) (t : Thread) (w : World)
      → Holds t.plog_buf ms
      → All IsMsg ms
      → length ms < fuel
      → Ensures (Served n t (serve clock ms w)) (process kernel clock (suc patience) fuel n t w)
  unfolding process pto number_of
  process_lem patience ms zero n t w holds are few = absurd (omega (arith, few))
  process_lem patience [] (suc fuel) n t w holds are few =
      let empty : Mbuf.is_empty t.plog_buf ≡ true =
        is_empty_lem holds.0 ∙ ap (λ xs. length xs == 0) holds.1 in
      rw empty (record { count = omega arith; holds = holds; alive = refl; world = refl })
  process_lem patience (m ∷ ms) (suc fuel) n t w holds (is, are) few =
      let some_bytes : Mbuf.is_empty t.plog_buf ≡ false =
        is_empty_lem holds.0 ∙ ground (arith, enough patience t m ms holds is) in
      let P = Served n t (serve clock (m ∷ ms) w) in
      rw some_bytes (
        Ensures-bind P (rawget t.plog_buf true 1) _ (id_found patience t m ms holds is)
          (λ p (there, read). rw read (elim (Bool-cases (m.aid == suc (w.files m.file).curr_aid)) [
            | inl next ↦
                Ensures-bind P (pto_fetch kernel clock (suc patience) t w) _
                  (pto_fetch_ready patience t m ms holds is w next)
                  (λ r (ok, left, alive, world). rw ok (
                    Ensures-mono P (process kernel clock (suc patience) fuel (suc n) r.1 r.2)
                      (process_lem patience ms fuel (suc n) r.1 r.2 left are (omega (arith, few)))
                      (λ q rest.
                        let rest' =
                          subst (λ w'. Served (suc n) r.1 (serve clock ms w') q) world rest in
                        rw next (record {
                          count = omega (arith, rest'.count);
                          holds = rest'.holds;
                          alive = rest'.alive ∙ alive;
                          world = rest'.world;
                        }))))
            | inr later ↦
                rw
                  (Ensures-eq _ (1, t, w) (pto_fetch_waits patience t m ms holds is w later), later)
                  (record { count = omega arith; holds = holds; alive = refl; world = refl })
          ])))

  pub async_process_lem :
      (patience : ℕ) (ms : List Msg) (t : Thread) (w : World)
      → Holds t.plog_buf ms
      → All IsMsg ms
      → Ensures (Served 0 t (serve clock ms w)) (async_process kernel clock (suc patience) t w)
  unfolding async_process
  async_process_lem patience ms t w holds are =
      process_lem patience ms (suc (Mbuf.used t.plog_buf)) 0 t w holds are
        (omega (arith, length_le-frames ms, ap length holds.1, length-contents holds.0))
