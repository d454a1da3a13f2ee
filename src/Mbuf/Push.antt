-- ===== src/Mbuf/Push.antt =====
-- fmbuf/fmbuf.c: `fmbuf_push` against the bounded queue.
use final_libs.Prelude.{
  ℕ, ◌+◌, ◌-◌, ◌≤◌, ◌<◌, ◌≡◌, List, ◌++◌, some, arith, ltb, leb, length, take, slice, splice,
  read_at-slice, write_at-splice, length-slice, length-splice, slice-add, slice-splice_after,
  slice-splice_self, slice-splice_extend, inl, inr, Bool-cases, false, slice-zero, slice-take,
  Ensures, ◌&&◌, append_assoc, length-take, append-nil, add_size, sub_size,
}
use final_libs.Mbuf.{Mbuf, free, tail_free, wrap, push_bytes, push}
use final_libs.Mbuf.Inv.{IsValid, contents, length-contents, used-add-free}
use final_libs.Mbuf.Queue
use native.Mathlib.Decide.{dec_le}

-- the buffer after a write that does not pass the end
abbrev straight : Mbuf → List ℕ → Mbuf
straight r xs = record r { buf = splice r.buf r.tail xs; tail = wrap r (r.tail + length xs) }

-- the buffer after a write that goes on at the start
abbrev around : Mbuf → List ℕ → List ℕ → Mbuf
around r xs ys = record r { buf = splice (splice r.buf r.tail xs) 0 ys; tail = length ys }

module _ {r : Mbuf} (v : IsValid r) (xs : List ℕ) (some_bytes : 0 < length xs)
    (fits : length xs ≤ free r) where
  straight_lem :
      length xs ≤ r.size + 1 - r.tail
      → IsValid (straight r xs) × (contents (straight r xs) ≡ contents r ++ xs)
  unfolding wrap free
  straight_lem h =
      let buf' = splice r.buf r.tail xs in
      let valid : IsValid (straight r xs) = ground (arith, length-splice r.buf r.tail xs) in
      (
        valid,
        ground (
          arith,
          slice-splice_extend r.buf r.head (r.tail - r.head) r.tail xs,
          slice-splice_extend r.buf 0 r.tail r.tail xs,
          slice-splice_after r.buf r.tail xs r.head (r.size + 1 - r.head),
          slice-zero buf' 0,
          append-nil (slice r.buf r.head (r.tail - r.head) ++ xs),
          append_assoc (slice r.buf r.head (r.size + 1 - r.head)) (slice r.buf 0 r.tail) xs,
        ),
      )

module _ {r : Mbuf} (v : IsValid r) (xs ys : List ℕ) (some_bytes : 0 < length ys)
    (fits : length xs + length ys ≤ free r) where
  around_lem :
      length xs ≡ r.size + 1 - r.tail
      → IsValid (around r xs ys) × (contents (around r xs ys) ≡ contents r ++ (xs ++ ys))
  unfolding free
  around_lem h =
      let m = splice r.buf r.tail xs in
      let valid : IsValid (around r xs ys) =
        ground (arith, length-splice r.buf r.tail xs, length-splice m 0 ys) in
      (
        valid,
        ground (
          arith,
          length-splice r.buf r.tail xs,
          slice-splice_extend r.buf r.head (r.tail - r.head) r.tail xs,
          slice-splice_after m 0 ys r.head (r.size + 1 - r.head),
          slice-splice_self m 0 ys,
          append_assoc (slice r.buf r.head (r.tail - r.head)) xs ys,
        ),
      )

module _ {r : Mbuf} (v : IsValid r) (src : List ℕ) (size : ℕ) (enough : size ≤ length src) where
  push_bytes-straight :
      size ≤ r.size + 1 - r.tail → push_bytes r src size ≡ some (0, straight r (take size src))
  unfolding push_bytes tail_free
  push_bytes-straight h =
      let xs = take size src in
      ground (
        arith,
        length-take size src,
        read_at-slice src 0 size,
        slice-take src size,
        write_at-splice r.buf r.tail xs,
      )

  push_bytes-around :
      let room = r.size + 1 - r.tail in
      room < size
      → size ≤ r.size
      → push_bytes r src size ≡ some (0, around r (take room src) (slice src room (size - room)))
  unfolding push_bytes tail_free
  push_bytes-around h k =
      let room = r.size + 1 - r.tail in
      let xs = take room src in
      let ys = slice src room (size - room) in
      let at_end : add_size (tail_free r) 1 ≡ room = omega arith in
      let over : leb size room ≡ false = ground arith in
      let left : sub_size size room ≡ size - room = omega arith in
      let len_xs : length xs ≡ room = omega (arith, length-take room src) in
      let len_ys : length ys ≡ size - room = length-slice src room (size - room) (omega arith) in
      rw (
        at_end,
        over,
        left,
        read_at-slice src 0 room (omega arith),
        slice-take,
        write_at-splice r.buf r.tail xs (omega arith),
        read_at-slice src room (size - room) (omega arith),
        write_at-splice (splice r.buf r.tail xs) 0 ys
            (omega (arith, length-splice r.buf r.tail xs (omega arith))),
        len_ys,
      )

-- What a call of push leaves, by the queue's rule.
abbrev pub Pushed : Mbuf → List ℕ → ℕ × Mbuf → Type 0
Pushed r xs (status, r') =
    IsValid r' × (r'.size ≡ r.size) × ((status, contents r') ≡ Queue.push r.size (contents r) xs)

-- On a valid buffer, with `size` bytes to read at `src`, `fmbuf_push` touches no byte outside
-- the two objects, keeps the buffer valid, and answers and changes the contents as the bounded
-- queue does: all bytes are appended and 0 is returned if they are one or more and fit, and
-- otherwise nothing changes and 1 is returned.
pub push_refines :
    {r : Mbuf} (src : List ℕ) (size : ℕ)
    → IsValid r
    → size ≤ length src
    → Ensures (Pushed r (take size src)) (push r (some src) size)
unfolding push push_bytes Queue.push
push_refines {r} src size v h = elim (Bool-cases (ltb 0 size && leb size (free r))) [
  | inl go ↦ elim (dec_le size (r.size + 1 - r.tail)) [
    | yes s ↦
        rw (go, push_bytes-straight v src size h s)
          (ground (
            arith,
            straight_lem v (take size src),
            length-take size src,
            length-contents v,
            used-add-free v,
          ))
    | no s ↦
        let room = r.size + 1 - r.tail in
        rw (go, push_bytes-around v src size h (omega arith) (ground (arith, used-add-free v)))
          (ground (
            arith,
            around_lem v (take room src) (slice src room (size - room)),
            length-take size src,
            length-take room src,
            length-slice src room (size - room),
            slice-take src size,
            slice-take src room,
            slice-add src 0 room (size - room),
            length-contents v,
            used-add-free v,
          ))
  ]
  | inr stop ↦ rw stop (ground (arith, length-contents v, length-take size src, used-add-free v))
]
