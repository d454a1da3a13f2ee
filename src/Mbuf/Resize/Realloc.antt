-- ===== src/Mbuf/Resize/Realloc.antt =====
-- fmbuf/fmbuf.c: `fmbuf_realloc` keeps the bytes, whichever way the buffer grows or shrinks.
use final_libs.Prelude.{
  ℕ, ◌+◌, ◌-◌, ◌^◌, ◌≤◌, ◌<◌, ◌≡◌, refl, List, arith, ltb, leb, if◌then◌else◌, slice, splice,
  read_at-slice, write_at-splice, length-slice, length-splice, inl, inr, Bool-cases, true, false,
  slice-zero, Ensures, Ensures-bind, ◌&&◌, append-nil, sub_size, slice-splice_self,
  slice-splice_extend, slice-splice_before, ◌==◌, max, length-realloc_cells, slice-realloc_cells,
  realloc_cells,
}
use native.Mathlib.Decide.{dec_le}
use final_libs.Mbuf.{Mbuf, used, free}
use final_libs.Mbuf.Inv.{IsValid, contents, used-add-free}
use final_libs.Mbuf.Resize.{rewind, increase, decrease, fit_linear, realloc}
use final_libs.Mbuf.Resize.Rewind.{rewind_lem}

-- what a call of realloc keeps and changes
abbrev pub Resized : Mbuf → ℕ → Mbuf → Type 0
Resized r size r' = IsValid r' × (r'.size ≡ max size (used r)) × (contents r' ≡ contents r)

module _ (fresh : ℕ → ℕ) {r : Mbuf} (v : IsValid r) (size : ℕ) (small : size < 2 ^ 63)
    (grows : r.size < size) where
  abbrev grown : List ℕ
  grown = realloc_cells fresh r.buf (size + 1)

  keeps : (a n : ℕ) → a + n ≤ r.size + 1 → slice grown a n ≡ slice r.buf a n
  keeps a n h = slice-realloc_cells fresh r.buf (size + 1) a n (omega arith) (omega arith)

  -- the first bytes moved behind the last ones
  left_moved :
      r.tail < r.head
      → r.tail ≤ size - r.size
      → let t = r.size + 1 + r.tail in
        Resized r size (record {
          size = size;
          head = r.head;
          tail = if ltb size t then 0 else t;
          buf = splice grown (r.size + 1) (slice grown 0 r.tail);
        })
  unfolding used
  left_moved h k =
      let xs = slice grown 0 r.tail in
      let m = splice grown (r.size + 1) xs in
      let right = r.size + 1 - r.head in
      ground (
        arith,
        length-realloc_cells fresh r.buf (size + 1),
        length-splice grown (r.size + 1) xs,
        length-slice grown 0 r.tail,
        slice-splice_extend grown r.head right (r.size + 1) xs,
        keeps r.head right,
        keeps 0 r.tail,
        slice-zero m 0,
        append-nil (slice m r.head (right + r.tail)),
      )

  -- the last bytes moved to the new end
  right_moved :
      r.tail < r.head
      → let right = r.size + 1 - r.head in
        let h = r.head + (size - r.size) in
        Resized r size (record {
          size = size;
          head = h;
          tail = r.tail;
          buf = splice grown h (slice grown r.head right);
        })
  unfolding used
  right_moved h =
      let right = r.size + 1 - r.head in
      let dst = r.head + (size - r.size) in
      let xs = slice grown r.head right in
      ground (
        arith,
        length-realloc_cells fresh r.buf (size + 1),
        length-splice grown dst xs,
        length-slice grown r.head right,
        slice-splice_self grown dst xs,
        slice-splice_before grown dst xs 0 r.tail,
        keeps r.head right,
        keeps 0 r.tail,
      )

  increase_lem : Ensures (Resized r size) (increase fresh r size)
  unfolding increase used
  increase_lem = elim (dec_le r.head r.tail) [
    | yes h ↦
        ground (arith, length-realloc_cells fresh r.buf (size + 1), keeps r.head (r.tail - r.head))
    | no h ↦
        let right = r.size + 1 - r.head in
        let n = length-realloc_cells fresh r.buf (size + 1) in
        let wrapped : leb r.head r.tail ≡ false = ground arith in
        let right_used : sub_size (used r) r.tail ≡ right = ground arith in
        let increased : sub_size size r.size ≡ size - r.size = omega arith in
        elim (Bool-cases (leb r.tail right && leb r.tail (size - r.size))) [
          | inl e ↦
              rw
                (
                  right_used,
                  wrapped,
                  increased,
                  e,
                  read_at-slice grown 0 r.tail (omega arith),
                  write_at-splice grown (r.size + 1) (slice grown 0 r.tail)
                      (ground (arith, length-slice grown 0 r.tail)),
                )
                (left_moved (omega arith) (ground arith))
          | inr e ↦
              rw
                (
                  right_used,
                  wrapped,
                  increased,
                  e,
                  read_at-slice grown r.head right (omega arith),
                  write_at-splice grown (r.head + (size - r.size)) (slice grown r.head right)
                      (ground (arith, length-slice grown r.head right)),
                )
                (right_moved (omega arith))
        ]
  ]

module _ (fresh : ℕ → ℕ) {r : Mbuf} (v : IsValid r) (size : ℕ) (shrinks : size < r.size) where
  -- the last bytes moved down by `move`
  abbrev lowered : ℕ → Mbuf
  lowered move = record {
    size = r.size - move;
    head = r.head - move;
    tail = r.tail;
    buf =
        realloc_cells fresh
          (splice r.buf (r.head - move) (slice r.buf r.head (r.size + 1 - r.head)))
          (r.size - move + 1);
  }

  lowered_lem :
      (move : ℕ)
      → r.tail + move < r.head
      → IsValid (lowered move) × (contents (lowered move) ≡ contents r)
  lowered_lem move h =
      let right = r.size + 1 - r.head in
      let dst = r.head - move in
      let xs = slice r.buf r.head right in
      let m = splice r.buf dst xs in
      ground (
        arith,
        length-splice r.buf dst xs,
        length-slice r.buf r.head right,
        length-realloc_cells fresh m (r.size - move + 1),
        slice-realloc_cells fresh m (r.size - move + 1) dst right,
        slice-realloc_cells fresh m (r.size - move + 1) 0 r.tail,
        slice-splice_self r.buf dst xs,
        slice-splice_before r.buf dst xs 0 r.tail,
      )

  -- the memory of a buffer that does not go round cut behind its tail
  cut_lem :
      {r' : Mbuf} (n : ℕ)
      → IsValid r'
      → r'.head ≤ r'.tail
      → r'.tail ≤ n
      → n ≤ r'.size
      → contents r' ≡ contents r
      → let cut = record r' { size = n; buf = realloc_cells fresh r'.buf (n + 1) } in
        IsValid cut × (contents cut ≡ contents r)
  cut_lem {r'} n v' h k l same = ground (
    arith,
    same,
    length-realloc_cells fresh r'.buf (n + 1),
    slice-realloc_cells fresh r'.buf (n + 1) r'.head (r'.tail - r'.head),
  )

  decrease-wrapped : r.tail < r.head → Ensures (Resized r size) (decrease fresh r size)
  unfolding decrease used free
  decrease-wrapped h =
      let right = r.size + 1 - r.head in
      let xs = slice r.buf r.head right in
      let room = r.head - r.tail - 1 in
      let move = if leb (r.size - size) room then r.size - size else room in
      let small_move : r.tail + move < r.head = ground arith in
      let wrapped : leb r.head r.tail ≡ false = ground arith in
      let right_used : sub_size (used r) r.tail ≡ right = ground arith in
      let room_eq : free r ≡ room = ground arith in
      let decreased : sub_size r.size size ≡ r.size - size = omega arith in
      let actual : sub_size r.size move ≡ r.size - move = omega arith in
      let in_memory : leb move r.head ≡ true = ground arith in
      rw
        (
          right_used,
          room_eq,
          wrapped,
          decreased,
          actual,
          read_at-slice r.buf r.head right (omega arith),
          in_memory,
          write_at-splice r.buf (r.head - move) xs
              (ground (arith, length-slice r.buf r.head right)),
        )
        (ground (arith, lowered_lem move small_move))

  abbrev Fitted : Mbuf × ℕ → Type 0
  Fitted (r', n) =
      IsValid r'
      × (r'.head ≤ r'.tail)
      × (r'.tail ≤ n)
      × (n ≤ r'.size)
      × (contents r' ≡ contents r)
      × (n ≡ max size (used r))

  fit_linear-Fitted : r.head ≤ r.tail → Ensures Fitted (fit_linear r size)
  unfolding fit_linear used
  fit_linear-Fitted h = elim (Bool-cases (ltb size r.tail)) [
    | inl e ↦ rw e (
        Ensures-bind Fitted (rewind r) _ (rewind_lem v h)
          (λ r' (v', at_start, same_size, same, room).
            ground (arith, v', used-add-free v, used-add-free v')))
    | inr e ↦ rw e (v, h, ground arith, omega arith, refl, ground arith)
  ]

  decrease-linear : r.head ≤ r.tail → Ensures (Resized r size) (decrease fresh r size)
  unfolding decrease
  decrease-linear h =
      let straight : leb r.head r.tail ≡ true = ground arith in
      rw straight (
        Ensures-bind (Resized r size) (fit_linear r size) _ (fit_linear-Fitted h)
          (λ (r', n) (v', order, in_size, smaller, same, size_eq).
            let (valid, kept) = cut_lem n v' order in_size smaller same in (valid, size_eq, kept)))

-- `fmbuf_realloc` of a valid buffer to a size below 2 ^ 63 is defined whatever the new memory
-- holds. The bytes and their order are kept, the result is valid, and its size is the size asked
-- for, or the number of bytes in use if that is larger.
pub realloc_lem :
    (fresh : ℕ → ℕ) {r : Mbuf} (size : ℕ)
    → IsValid r
    → size < 2 ^ 63
    → Ensures (Resized r size) (realloc fresh r size)
unfolding realloc
realloc_lem fresh {r} size v small = elim (Bool-cases (r.size == size)) [
  | inl e ↦ rw e (ground (arith, used-add-free v))
  | inr ne ↦ elim (Bool-cases (ltb r.size size)) [
    | inl g ↦ rw (ne, g) (increase_lem fresh v size small (ground arith))
    | inr s ↦
        let shrinks : size < r.size = ground arith in
        rw (ne, s)
          (elim (dec_le r.head r.tail) [
            | yes h ↦ decrease-linear fresh v size shrinks h
            | no h ↦ decrease-wrapped fresh v size shrinks (omega arith)
          ])
  ]
]
