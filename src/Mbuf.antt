-- ===== src/Mbuf.antt =====
-- The functions of fmbuf/fmbuf.c: a byte buffer with a head and a tail that go round.
-- A pointer into the buffer is its offset from MBUF_START, and `none` is undefined behaviour.
pub mod Inv
pub mod Queue
pub mod Resize
pub mod Run
mod Tests
pub mod Push
pub mod Pop
use final_libs.Prelude.{
  ℕ, ◌+◌, Bool, ◌&&◌, Option, none, some, List, [], ◌++◌, ◌==◌, ltb, leb, if◌then◌else◌, ◌>>=◌,
  add_size, sub_size, replicate, read_at, write_at,
}

-- `struct _mbuf`. `buf` is the memory from MBUF_START on: `size` bytes and the reserved one.
pub record Mbuf : Type 0 where
  pub size : ℕ
  pub head : ℕ
  pub tail : ℕ
  pub buf : List ℕ

-- `calloc` fills with zeros. The 8 bytes of `buf` that sizeof(fmbuf) counts besides are left out: an
-- access to them is undefined here, so what is defined stays in the bytes that are asked for.
pub create : ℕ → Mbuf
create size = record { size = size; head = 0; tail = 0; buf = replicate (size + 1) 0 }

-- MBUF_USED, in `size_t` arithmetic
pub used : Mbuf → ℕ
used r =
    if leb r.head r.tail
    then sub_size r.tail r.head
    else add_size (sub_size r.size (sub_size r.head r.tail)) 1

-- MBUF_FREE
pub free : Mbuf → ℕ
free r =
    if leb r.head r.tail
    then sub_size r.size (sub_size r.tail r.head)
    else sub_size (sub_size r.head r.tail) 1

pub tail_free : Mbuf → ℕ
tail_free r = sub_size r.size r.tail

pub head_free : Mbuf → ℕ
head_free r = r.head

pub is_empty : Mbuf → Bool
unfolding used
is_empty r = used r == 0

-- `if (p > MBUF_END) p = MBUF_START`
pub wrap : Mbuf → ℕ → ℕ
wrap r p = if ltb r.size p then 0 else p

-- The two branches of `fmbuf_push` behind its guard. `src` is the memory that the caller's
-- pointer reaches.
push_bytes : Mbuf → List ℕ → ℕ → Option (ℕ × Mbuf)
unfolding tail_free wrap
push_bytes r src size =
    let room = add_size (tail_free r) 1 in
    if leb size room
    then (do
      bytes ← read_at src 0 size
      buf ← write_at r.buf r.tail bytes
      some (0, record r { buf = buf; tail = wrap r (r.tail + size) }))
    else (do
      bytes ← read_at src 0 room
      buf ← write_at r.buf r.tail bytes
      let left = sub_size size room
      rest ← read_at src room left
      buf' ← write_at buf 0 rest
      some (0, record r { buf = buf'; tail = left }))

-- The result is 0 or 1, as in the source; `none` for `src` is a NULL `data`.
pub push : Mbuf → Option (List ℕ) → ℕ → Option (ℕ × Mbuf)
unfolding push_bytes free
push r none size = some (1, r)
push r (some src) size =
    if ltb 0 size && leb size (free r) then push_bytes r src size else some (1, r)

-- MBUF_COPY: what is copied to a destination that may be NULL
copy_out : Bool → List ℕ → ℕ → ℕ → Option (List ℕ)
copy_out dst m a n = if dst && ltb 0 n then read_at m a n else some []

-- `tail_use`: the bytes from the head to the end of the memory
pub tail_use : Mbuf → ℕ
tail_use r = add_size (sub_size r.size r.head) 1

-- `dst` says that `data` is not NULL. The bytes are those that go to `*data`.
pub pop : Mbuf → Bool → ℕ → Option (ℕ × List ℕ × Mbuf)
unfolding copy_out tail_use wrap used
pop r dst size =
    if ltb 0 size && leb size (used r)
    then (if leb size (tail_use r)
        then (do
          bytes ← copy_out dst r.buf r.head size
          some (0, bytes, record r { head = wrap r (r.head + size) }))
        else (do
          bytes ← copy_out dst r.buf r.head (tail_use r)
          let left = sub_size size (tail_use r)
          rest ← copy_out dst r.buf 0 left
          some (0, bytes ++ rest, record r { head = left })))
    else some (1, [], r)

-- What `fmbuf_vpop` and `fmbuf_rawget` return: NULL, a pointer into the buffer, or the caller's
-- memory with the bytes that were copied there.
pub data Place : Type 0 where
  null : Place
  in_place : ℕ → Place
  copied : List ℕ → Place

-- `fmbuf_rawget`
pub rawget : Mbuf → Bool → ℕ → Option Place
unfolding used tail_use
rawget r dst size =
    if dst && (ltb 0 size && leb size (used r))
    then (if leb size (tail_use r) then some (in_place r.head) else (do
      bytes ← read_at r.buf r.head (tail_use r)
      rest ← read_at r.buf 0 (sub_size size (tail_use r))
      some (copied (bytes ++ rest))))
    else some null

-- `fmbuf_vpop`: the same choice of place, and the head moves.
pub vpop : Mbuf → Bool → ℕ → Option (Place × Mbuf)
unfolding used tail_use wrap
vpop r dst size =
    if dst && (ltb 0 size && leb size (used r))
    then (if leb size (tail_use r)
        then some (in_place r.head, record r { head = wrap r (r.head + size) })
        else (do
          bytes ← read_at r.buf r.head (tail_use r)
          let left = sub_size size (tail_use r)
          rest ← read_at r.buf 0 left
          some (copied (bytes ++ rest), record r { head = left })))
    else some (null, r)
