-- ===== src/Log/Fetch.antt =====
-- flog/flog.c: how a message is found in a buffer and written to its file.
use final_libs.Prelude.{
  ℕ, suc, ◌+◌, ◌^◌, ◌<◌, ◌≤◌, min, ◌≡◌, ◌≢◌, refl, ap, ◌∙◌, Bool, true, false, ◌&&◌, some, List, [],
  ◌∷◌, ◌++◌, map, arith, ltb, leb, ◌==◌, if◌then◌else◌, length, length-append, take, drop,
  take-length, Ensures, Ensures-mono, add_size, sub_size, length-take,
}
use final_libs.Mbuf
use final_libs.Mbuf.{Mbuf, Place, null, in_place, copied, rawget}
use final_libs.Mbuf.Queue
use final_libs.Mbuf.Inv.{IsValid, contents, length-contents}
use final_libs.Mbuf.Pop.{pop_refines, ReadsAs, rawget-ReadsAs}
use final_libs.Log.Disk.{
  File, World, Answer, wrote, put_file, write_loop, write_to_kernel, log_write,
  try_flush_and_rollfile,
}
use final_libs.Log.Wire.{head_size, print_head}
use final_libs.Log.{max_len_per_msg, Thread, read_place}
use final_libs.Log.Send.{Msg, frame, concat}

-- a message that fits into the array of the fetcher
pub record IsMsg (m : Msg) : Type 0 where
  pub file : m.file < 256 ^ 8
  pub aid : m.aid < 2 ^ 31
  pub some_text : 0 < length m.text
  pub fits : head_size + length m.text ≤ max_len_per_msg

-- The buffer holds these messages.
abbrev pub Holds : Mbuf → List Msg → Type 0
Holds b ms = IsValid b × (contents b ≡ concat (map frame ms))

-- Each call of `write` takes all bytes of a message.
abbrev pub Willing : (ℕ → Answer) → Type 0
Willing kernel = (i : ℕ) → (k : ℕ) × (kernel i ≡ wrote k) × (2 ^ 16 ≤ k)

read-ReadsAs :
    (b : Mbuf) (n room : ℕ) (xs : List ℕ) (p : Place)
    → length xs ≤ room
    → ReadsAs b n xs p
    → (p ≢ null) × (read_place room b n p ≡ some xs)
unfolding read_place
read-ReadsAs b n room xs null fits found = elim found [ ]
read-ReadsAs b n room xs (in_place a) fits found = ((λ e. absurd (ground (arith, e))), found)
read-ReadsAs b n room xs (copied ys) fits found =
    let small : leb (length ys) room ≡ true = ground (arith, fits, ap length found) in
    ((λ e. absurd (ground (arith, e))), rw small (ap some found))

-- the place that is found for the oldest bytes, read
pub place-take :
    (b : Mbuf) (n room : ℕ)
    → IsValid b
    → 0 < n
    → n ≤ length (contents b)
    → n ≤ room
    → Ensures
        (λ p. (p ≢ null) × (read_place room b n p ≡ some (take n (contents b))))
        (rawget b true n)
place-take b n room v some_bytes enough fits =
    Ensures-mono _ (rawget b true n)
      (rawget-ReadsAs n v some_bytes (omega (arith, enough, length-contents v)))
      (λ p found.
        read-ReadsAs b n room (take n (contents b)) p
          (omega (arith, fits, length-take n (contents b))) found)

pub pop-drop :
    (b : Mbuf) (n : ℕ)
    → IsValid b
    → 0 < n
    → n ≤ length (contents b)
    → Ensures (λ r. IsValid r.2 × (contents r.2 ≡ drop n (contents b))) (Mbuf.pop b false n)
unfolding Queue.pop
pop-drop b n v some_bytes enough =
    let after : Bool → List ℕ = λ t.
      (let q : ℕ × List ℕ × List ℕ =
          if t then (0, take n (contents b), drop n (contents b)) else (1, [], contents b) in
        q.2) in
    let go : (ltb 0 n && leb n (length (contents b))) ≡ true = ground (arith, some_bytes, enough) in
    Ensures-mono _ (Mbuf.pop b false n) (pop_refines false n v)
      (λ r (valid, size, status, bytes, rest). (valid, rest ∙ ap (λ (t : Bool). after t) go))

pub length_le-frames : (ms : List Msg) → length ms ≤ length (concat (map frame ms))
unfolding print_head
length_le-frames [] = omega arith
length_le-frames (m ∷ ms) =
    omega (arith, length_le-frames ms, length-append (frame m) (concat (map frame ms)))

-- the state after the messages of a thread have been served, `n` messages before them
pub record Served (n : ℕ) (t : Thread) (s : ℕ × List Msg × World) (r : ℕ × Thread × World)
    : Type 0 where
  pub count : r.0 ≡ n + s.0
  pub holds : Holds r.1.plog_buf s.1
  pub alive : r.1.alive ≡ t.alive
  pub world : r.2 ≡ s.2

module _ (clock : ℕ → ℕ) where
  -- a file with the bytes written at its end, flushed and rolled if it is time
  abbrev pub stored : File → List ℕ → File
  stored f log =
      try_flush_and_rollfile
        (record f {
          writes = suc f.writes;
          content = f.content ++ log;
          output = f.output ++ log;
          file_size = add_size f.file_size (length log);
        })
        (clock (suc f.writes))

  -- the files when a message has been fetched
  abbrev pub delivered : World → Msg → World
  delivered w m =
      let f = w.files m.file in
      put_file w m.file (stored (record f { curr_aid = suc f.curr_aid }) m.text)

  -- `_log_async_process` on the messages of a thread: those that are next go to their files, up to the
  -- first one that is not.
  abbrev pub serve : List Msg → World → ℕ × List Msg × World
  serve [] w = (0, [], w)
  serve (m ∷ ms) w =
      let (n, left, w') = serve ms (delivered w m) in
      if m.aid == suc (w.files m.file).curr_aid then (suc n, left, w') else (0, m ∷ ms, w)

module _ (kernel : ℕ → Answer) (clock : ℕ → ℕ) (willing : Willing kernel) where
  write_all :
      (f : File) (log : List ℕ) (k patience : ℕ)
      → kernel f.writes ≡ wrote k
      → length log ≤ k
      → length log < 2 ^ 16
      → write_loop kernel clock (suc patience) f log (length log)
        ≡ some (
          length log,
          record f { writes = suc f.writes; content = f.content ++ log; output = f.output ++ log },
        )
  unfolding write_loop
  write_all f log k patience answer enough small =
      let len = length log in
      let all : min k len ≡ len = omega (arith, enough) in
      let none_left : sub_size len (min k len) ≡ 0 = omega (arith, enough, small) in
      let counted : sub_size len (sub_size len (min k len)) ≡ len = omega (arith, enough, small) in
      let taken : take (min k len) log ≡ log = ap (λ n. take n log) all ∙ take-length log in
      rw (write_loop, answer, none_left)
        (λ i. some (
          counted i,
          record f {
            writes = suc f.writes;
            content = f.content ++ taken i;
            output = f.output ++ taken i;
          },
        ))

  pub log_write_lem :
      (patience : ℕ) (w : World) (p : ℕ) (log : List ℕ)
      → 0 < length log
      → length log < 2 ^ 16
      → log_write kernel clock (suc patience) w p log
        ≡ some (length log, put_file w p (stored clock (w.files p) log))
  unfolding log_write write_to_kernel
  log_write_lem patience w p log some_bytes small =
      let (k, answer, whole) = willing (w.files p).writes in
      let more : (length log == 0) ≡ false = ground (arith, some_bytes) in
      rw (more, write_all (w.files p) log k patience answer (omega (arith, small, whole)) small)
        refl
