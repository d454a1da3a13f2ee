-- ===== src/Mbuf/Pop.antt =====
-- fmbuf/fmbuf.c: `fmbuf_pop`, `fmbuf_vpop` and `fmbuf_rawget` against the bounded queue.
use final_libs.Prelude.{
  ℕ, ◌+◌, ◌-◌, ◌≤◌, ◌<◌, ◌≡◌, List, ◌++◌, [], some, arith, ltb, leb, if◌then◌else◌, length, take,
  drop, slice, read_at, read_at-slice, length-append, length-slice, Bool, slice-add, inl, inr,
  Bool-cases, true, false, slice-zero, Ensures, ◌&&◌, append_assoc, ap, sym, ◌∙◌, append-nil,
  add_size, sub_size, take-append_self, drop-append_self,
}
use final_libs.Mbuf.{
  Mbuf, Place, null, in_place, copied, rawget, vpop, wrap, pop, tail_use, copy_out, used,
}
use final_libs.Mbuf.Inv.{IsValid, contents, length-contents, used-add-free}
use final_libs.Mbuf.Queue
use native.Mathlib.Decide.{dec_le}

-- the buffer when `n` bytes are taken
abbrev pub taken : Mbuf → ℕ → Mbuf
taken r n =
    if leb n (r.size + 1 - r.head)
    then record r { head = wrap r (r.head + n) }
    else record r { head = n - (r.size + 1 - r.head) }

-- the bytes that leave
abbrev pub front : Mbuf → ℕ → List ℕ
front r n =
    if leb n (r.size + 1 - r.head)
    then slice r.buf r.head n
    else slice r.buf r.head (r.size + 1 - r.head) ++ slice r.buf 0 (n - (r.size + 1 - r.head))

module _ {r : Mbuf} (v : IsValid r) (n : ℕ) (some_bytes : 0 < n) (enough : n ≤ used r) where
  taken-IsValid : IsValid (taken r n)
  unfolding wrap used
  taken-IsValid = ground arith

  -- The contents are the bytes that leave and those that stay.
  contents-split : contents r ≡ front r n ++ contents (taken r n)
  unfolding wrap used
  contents-split =
      let room = r.size + 1 - r.head in
      ground (
        arith,
        slice-add r.buf r.head n (r.tail - r.head - n),
        slice-add r.buf r.head n (room - n),
        slice-add r.buf 0 (n - room) (r.tail - (n - room)),
        slice-zero r.buf 0,
        append-nil (slice r.buf r.head n),
        append_assoc (slice r.buf r.head n) (slice r.buf (r.head + n) (room - n))
            (slice r.buf 0 r.tail),
        append_assoc (slice r.buf r.head room) (slice r.buf 0 (n - room))
            (slice r.buf (n - room) (r.tail - (n - room))),
      )

  length-front : length (front r n) ≡ n
  unfolding used
  length-front =
      let room = r.size + 1 - r.head in
      ground (
        arith,
        length-slice r.buf r.head n,
        length-slice r.buf r.head room,
        length-slice r.buf 0 (n - room),
        length-append (slice r.buf r.head room) (slice r.buf 0 (n - room)),
      )

  -- In the queue's words: the first `n` bytes, and the rest.
  take-contents : take n (contents r) ≡ front r n
  take-contents =
      ap (take n) contents-split
      ∙ take-append_self n (front r n) (contents (taken r n)) length-front

  drop-contents : drop n (contents r) ≡ contents (taken r n)
  drop-contents =
      ap (drop n) contents-split
      ∙ drop-append_self n (front r n) (contents (taken r n)) length-front

  -- the test of every reader
  accepts : (ltb 0 n && leb n (used r)) ≡ true
  accepts = ground arith

  in_queue : (ltb 0 n && leb n (length (contents r))) ≡ true
  in_queue = ground (arith, length-contents v)

  copy_out-slice :
      (dst : Bool) (a k : ℕ)
      → 0 < k
      → a + k ≤ r.size + 1
      → copy_out dst r.buf a k ≡ some (if dst then slice r.buf a k else [])
  unfolding copy_out
  copy_out-slice dst a k p h = ground (arith, read_at-slice r.buf a k)

  pop-taken : (dst : Bool) → pop r dst n ≡ some (0, if dst then front r n else [], taken r n)
  unfolding pop tail_use
  pop-taken dst = elim (dec_le n (r.size + 1 - r.head)) [
    | yes s ↦ rw accepts (ground (arith, copy_out-slice dst r.head n, used-add-free v))
    | no s ↦
        let room = r.size + 1 - r.head in
        let at_end : add_size (sub_size r.size r.head) 1 ≡ room = omega arith in
        let left : sub_size n room ≡ n - room = ground (arith, used-add-free v) in
        let over : leb n room ≡ false = ground arith in
        let in_memory : n - room ≤ r.size + 1 = ground (arith, used-add-free v) in
        rw
          (
            accepts,
            at_end,
            over,
            left,
            copy_out-slice dst r.head room (omega arith) (omega arith),
            copy_out-slice dst 0 (n - room) (omega arith) (omega arith),
          )
          (ground arith)
  ]

pop-refused :
    (r : Mbuf) (dst : Bool) (n : ℕ)
    → (ltb 0 n && leb n (used r)) ≡ false
    → pop r dst n ≡ some (1, [], r)
unfolding pop
pop-refused r dst n stop = rw stop

-- What a call of pop leaves and copies, by the queue's rule.
abbrev pub Popped : Mbuf → Bool → ℕ → ℕ × List ℕ × Mbuf → Type 0
Popped r dst n (status, bytes, r') =
    let (status', front', rest) = Queue.pop (contents r) n in
    IsValid r'
    × (r'.size ≡ r.size)
    × (status ≡ status')
    × (bytes ≡ (if dst then front' else []))
    × (contents r' ≡ rest)

-- On a valid buffer `fmbuf_pop` reads no byte outside it, keeps it valid, and answers as the
-- bounded queue does: with 1 to `used` bytes asked for it drops the oldest `size`, copies them
-- in order to the destination if there is one, and returns 0; otherwise it changes nothing and
-- returns 1.
pub pop_refines :
    {r : Mbuf} (dst : Bool) (n : ℕ) → IsValid r → Ensures (Popped r dst n) (pop r dst n)
unfolding Queue.pop
pop_refines {r} dst n v = elim (Bool-cases (ltb 0 n && leb n (used r))) [
  | inl go ↦
      let p : 0 < n = ground arith in
      let q : n ≤ used r = ground arith in
      rw (pop-taken v n p q dst) (
        ground (
          arith,
          taken-IsValid v n p q,
          in_queue v n p q,
          take-contents v n p q,
          drop-contents v n p q,
        ))
  | inr stop ↦ rw (pop-refused r dst n stop) (ground (arith, length-contents v))
]

-- the bytes that the returned pointer leads to, before anything else is written
abbrev pub place_bytes : Mbuf → ℕ → Place → List ℕ
place_bytes r n null = []
place_bytes r n (in_place a) = slice r.buf a n
place_bytes r n (copied xs) = xs

abbrev pub status : Place → ℕ
status null = 1
status _ = 0

-- where the bytes that leave are found
abbrev found : Mbuf → ℕ → Place
found r n = if leb n (r.size + 1 - r.head) then in_place r.head else copied (front r n)

module _ {r : Mbuf} (v : IsValid r) (n : ℕ) (some_bytes : 0 < n) (enough : n ≤ used r) where
  readers-found :
      (rawget r true n ≡ some (found r n)) × (vpop r true n ≡ some (found r n, taken r n))
  unfolding rawget vpop tail_use
  readers-found =
      let go = accepts v n some_bytes enough in
      let room = r.size + 1 - r.head in
      let at_end : add_size (sub_size r.size r.head) 1 ≡ room = omega arith in
      elim (dec_le n room) [
        | yes s ↦
            let under : leb n room ≡ true = ground arith in
            (rw (go, at_end, under), rw (go, at_end, under))
        | no s ↦
            let over : leb n room ≡ false = ground arith in
            let left : sub_size n room ≡ n - room = ground (arith, used-add-free v) in
            let first = read_at-slice r.buf r.head room (omega arith) in
            let second = read_at-slice r.buf 0 (n - room) (ground (arith, used-add-free v)) in
            (rw (go, at_end, over, left, first, second), rw (go, at_end, over, left, first, second))
      ]

readers-refused :
    (r : Mbuf) (n : ℕ)
    → (ltb 0 n && leb n (used r)) ≡ false
    → (rawget r true n ≡ some null) × (vpop r true n ≡ some (null, r))
unfolding rawget vpop
readers-refused r n stop = (rw stop, rw stop)

-- What the two other readers have to do with pop.
abbrev pub LikePop : Mbuf → ℕ → Place × Mbuf → Type 0
LikePop r n (place, r') =
    (rawget r true n ≡ some place) × (pop r true n ≡ some (status place, place_bytes r n place, r'))

-- On a valid buffer and with a destination, `fmbuf_vpop` returns the pointer that `fmbuf_rawget`
-- returns. It is NULL exactly when `fmbuf_pop` fails, leads to the bytes that `fmbuf_pop`
-- copies, and the buffer is left as by `fmbuf_pop`.
pub vpop-LikePop : {r : Mbuf} (n : ℕ) → IsValid r → Ensures (LikePop r n) (vpop r true n)
vpop-LikePop {r} n v = elim (Bool-cases (ltb 0 n && leb n (used r))) [
  | inl go ↦
      let p : 0 < n = ground arith in
      let q : n ≤ used r = ground arith in
      rw (readers-found v n p q).1 (ground (arith, readers-found v n p q, pop-taken v n p q true))
  | inr stop ↦
      rw (readers-refused r n stop).1
        (ground (arith, readers-refused r n stop, pop-refused r true n stop))
]

-- the bytes that are found at a place: those of the buffer there, or those that are copied
abbrev pub ReadsAs : Mbuf → ℕ → List ℕ → Place → Type 0
ReadsAs r n xs null = ⊥
ReadsAs r n xs (in_place a) = read_at r.buf a n ≡ some xs
ReadsAs r n xs (copied ys) = ys ≡ xs

-- `fmbuf_rawget` finds the oldest bytes.
pub rawget-ReadsAs :
    {r : Mbuf} (n : ℕ)
    → IsValid r
    → 0 < n
    → n ≤ used r
    → Ensures (ReadsAs r n (take n (contents r))) (rawget r true n)
rawget-ReadsAs {r} n v p q =
    let same = sym (take-contents v n p q) in
    let length_buf = v.memory in
    let in_range = v.head_in in
    let behind =
      slice r.buf r.head (r.size + 1 - r.head) ++ slice r.buf 0 (n - (r.size + 1 - r.head)) in
    rw (readers-found v n p q).0 (elim (dec_le n (r.size + 1 - r.head)) [
      | yes s ↦
          let under : leb n (r.size + 1 - r.head) ≡ true = ground arith in
          rw under (
            read_at-slice r.buf r.head n (omega (arith, s, length_buf, in_range))
            ∙ ap some
                (ap (λ (b : Bool). if b then slice r.buf r.head n else behind) (sym under) ∙ same))
      | no s ↦
          let over : leb n (r.size + 1 - r.head) ≡ false = ground arith in
          rw over (ap (λ (b : Bool). if b then slice r.buf r.head n else behind) (sym over) ∙ same)
    ])
