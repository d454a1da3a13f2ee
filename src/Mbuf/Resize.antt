-- ===== src/Mbuf/Resize.antt =====
-- fmbuf/fmbuf.c: the functions that move the ends or the memory of a buffer by hand. Moving a
-- pointer off the memory is undefined behaviour, as it is in C.
pub mod Rewind
pub mod Realloc
use final_libs.Prelude.{
  ℕ, ◌+◌, ◌-◌, ◌&&◌, Option, none, some, ◌==◌, ltb, leb, if◌then◌else◌, ◌>>=◌, ◌>>◌, guard,
  add_size, sub_size, read_at, write_at, realloc_cells,
}
use final_libs.Mbuf.{Mbuf, used, free, tail_free, head_free}

-- FMBUF_SEEK_LEFT
abbrev pub seek_left : ℕ
seek_left = 0

-- a pointer moved by `offset`, within the `size + 1` bytes and the place behind them
pub move_pointer : Mbuf → ℕ → ℕ → ℕ → Option ℕ
move_pointer r p offset direction =
    if direction == seek_left
    then guard (leb offset p) >> some (p - offset)
    else guard (leb (p + offset) (r.size + 1)) >> some (p + offset)

pub head_seek : Mbuf → ℕ → ℕ → Option Mbuf
unfolding move_pointer
head_seek r offset direction = do
  p ← move_pointer r r.head offset direction
  some (record r { head = p })

pub tail_seek : Mbuf → ℕ → ℕ → Option Mbuf
unfolding move_pointer
tail_seek r offset direction = do
  p ← move_pointer r r.tail offset direction
  some (record r { tail = p })

pub clear : Mbuf → Mbuf
clear r = record r { head = 0; tail = 0 }

pub rewind : Mbuf → Option Mbuf
unfolding head_seek tail_seek head_free used
rewind r = if head_free r == 0 then some r else do
  bytes ← read_at r.buf r.head (used r)
  buf ← write_at r.buf 0 bytes
  r' ← head_seek (record r { buf = buf }) (head_free r) seek_left
  tail_seek r' (head_free r) seek_left

-- the second half of `fmbuf_alloc`
take_tail : Mbuf → ℕ → Option ℕ × Mbuf
unfolding tail_free
take_tail r n =
    if leb n (tail_free r) then (some r.tail, record r { tail = r.tail + n }) else (none, r)

-- The pointer that is returned, or NULL.
pub alloc : Mbuf → ℕ → Option (Option ℕ × Mbuf)
unfolding tail_free
alloc r n = do r' ← if ltb (tail_free r) n then rewind r else some r; some (take_tail r' n)

-- The first half of `_decrease_buf`: the buffer to shrink, and the size to shrink it to
fit_linear : Mbuf → ℕ → Option (Mbuf × ℕ)
fit_linear r size =
    if ltb size r.tail
    then (do r' ← rewind r; some (r', if ltb size r'.tail then r'.tail else size))
    else some (r, size)

-- In what follows `fresh` is what `realloc` leaves in bytes that are new.
module _ (fresh : ℕ → ℕ) where
  pub increase : Mbuf → ℕ → Option Mbuf
  unfolding used
  increase r size =
      let new = realloc_cells fresh r.buf (size + 1) in
      let increased = sub_size size r.size in
      let left_used = r.tail in
      let right_used = sub_size (used r) left_used in
      if leb r.head r.tail
      then some (record { size = size; head = r.head; tail = r.tail; buf = new })
      else if leb left_used right_used && leb left_used increased
      then (do
        bytes ← read_at new 0 left_used
        buf ← write_at new (r.size + 1) bytes
        let t = r.size + 1 + left_used
        some (record { size = size; head = r.head; tail = if ltb size t then 0 else t; buf = buf }))
      else (do
        bytes ← read_at new r.head right_used
        buf ← write_at new (r.head + increased) bytes
        some (record { size = size; head = r.head + increased; tail = r.tail; buf = buf }))

  pub decrease : Mbuf → ℕ → Option Mbuf
  unfolding used free
  decrease r size =
      let left_used = r.tail in
      let right_used = sub_size (used r) left_used in
      let decreased = sub_size r.size size in
      let move = if leb decreased (free r) then decreased else free r in
      let actual = sub_size r.size move in
      if leb r.head r.tail
      then (do
        (r', size') ← fit_linear r size
        some (record {
          size = size';
          head = r'.head;
          tail = r'.tail;
          buf = realloc_cells fresh r'.buf (size' + 1);
        }))
      else (do
        bytes ← read_at r.buf r.head right_used
        dst ← guard (leb move r.head) >> some (r.head - move)
        buf ← write_at r.buf dst bytes
        some (record {
          size = actual;
          head = dst;
          tail = r.tail;
          buf = realloc_cells fresh buf (actual + 1);
        }))

  pub realloc : Mbuf → ℕ → Option Mbuf
  realloc r size =
      if r.size == size
      then some r
      else if ltb r.size size
      then increase r size
      else decrease r size
