-- ===== src/Mbuf/Resize/Rewind.antt =====
-- fmbuf/fmbuf.c: `fmbuf_rewind` and `fmbuf_alloc`, the functions of a buffer used as an array.
use final_libs.Prelude.{
  ℕ, ◌+◌, ◌-◌, ◌≤◌, ◌<◌, ◌≡◌, refl, ◌++◌, none, some, arith, ltb, leb, slice, splice, read_at-slice,
  read_at-none, write_at-splice, length-slice, length-splice, slice-add, inl, inr, Bool-cases,
  false, Ensures, slice-splice_self, ◌↔◌, ◌==◌, Option, ◌>>=◌,
}
use native.Mathlib.Decide.{dec_lt}
use final_libs.Mbuf.{Mbuf, used, free, tail_free, head_free}
use final_libs.Mbuf.Inv.{IsValid, contents, used-add-free}
use final_libs.Mbuf.Resize.{rewind, take_tail, alloc, head_seek, tail_seek, move_pointer}

-- the buffer with its bytes moved to the start
abbrev pub rewound : Mbuf → Mbuf
rewound r = record r {
  head = 0;
  tail = r.tail - r.head;
  buf = splice r.buf 0 (slice r.buf r.head (r.tail - r.head));
}

rewind-rewound : {r : Mbuf} → IsValid r → 0 < r.head → r.head ≤ r.tail → rewind r ≡ some (rewound r)
unfolding rewind used head_free head_seek tail_seek move_pointer
rewind-rewound {r} v p h =
    let n = r.tail - r.head in
    let ne : (r.head == 0) ≡ false = ground arith in
    let u : used r ≡ n = ground arith in
    rw
      (
        ne,
        u,
        read_at-slice r.buf r.head n (omega arith),
        write_at-splice r.buf 0 (slice r.buf r.head n)
            (omega (arith, length-slice r.buf r.head n (omega arith))),
      )
      (ground arith)

-- On a valid buffer whose bytes do not go round, `fmbuf_rewind` is defined, keeps the buffer
-- valid, its size and its bytes, and brings the head to the start, so that all free bytes stand
-- behind the tail.
pub rewind_lem :
    {r : Mbuf}
    → IsValid r
    → r.head ≤ r.tail
    → Ensures
        (λ r'.
          IsValid r'
          × (r'.head ≡ 0)
          × (r'.size ≡ r.size)
          × (contents r' ≡ contents r)
          × (tail_free r' ≡ free r))
        (rewind r)
unfolding rewind free tail_free head_free
rewind_lem {r} v h = elim (Bool-cases (r.head == 0)) [
  | inl z ↦ rw z (ground arith)
  | inr p ↦
      let n = r.tail - r.head in
      let m = slice r.buf r.head n in
      rw (rewind-rewound v (ground arith) h) (
        ground (
          arith,
          length-slice r.buf r.head n,
          length-splice r.buf 0 m,
          slice-splice_self r.buf 0 m,
        ))
]

rewind-wrapped : {r : Mbuf} → IsValid r → r.tail < r.head → rewind r ≡ none
unfolding rewind used head_free head_seek tail_seek move_pointer
rewind-wrapped {r} v h =
    let n = r.size + 1 + r.tail - r.head in
    let ne : (r.head == 0) ≡ false = ground arith in
    let u : used r ≡ n = ground arith in
    elim (Bool-cases (r.tail == 0)) [
      | inl z ↦
          let m = slice r.buf r.head n in
          rw
            (
              ne,
              u,
              read_at-slice r.buf r.head n (ground arith),
              write_at-splice r.buf 0 m (ground (arith, length-slice r.buf r.head n)),
            )
            (ground arith)
      | inr p ↦ rw (ne, u, read_at-none r.buf r.head n (ground arith))
    ]

-- `fmbuf_rewind` on a valid buffer is undefined exactly when the bytes go round the end: it then
-- copies from behind the memory, or moves the tail before the start.
pub rewind_undefined : {r : Mbuf} → IsValid r → (rewind r ≡ none) ↔ (r.tail < r.head)
rewind_undefined {r} v = (
  λ e. elim (dec_lt r.tail r.head) [
    | yes h ↦ h
    | no h ↦ absurd (rw e at (rewind_lem v (omega arith)))
  ],
  rewind-wrapped v,
)

-- What a call of alloc leaves: `n` bytes more behind the contents, whatever they hold, or nothing.
abbrev pub Allocated : Mbuf → ℕ → Option ℕ × Mbuf → Type 0
Allocated r n (some t, r') =
    (n ≤ free r) × IsValid r' × (r'.tail ≡ t + n) × (contents r' ≡ contents r ++ slice r'.buf t n)
Allocated r n (none, r') = (free r < n) × IsValid r' × (contents r' ≡ contents r)

take_tail-Allocated :
    (r : Mbuf) {r' : Mbuf} (n : ℕ)
    → IsValid r'
    → r'.head ≤ r'.tail
    → contents r' ≡ contents r
    → (n ≤ tail_free r' → n ≤ free r)
    → (tail_free r' < n → free r < n)
    → Allocated r n (take_tail r' n)
unfolding take_tail
take_tail-Allocated r {r'} n v h same enough short = elim (Bool-cases (leb n (tail_free r'))) [
  | inl e ↦ rw e (
    enough (ground arith),
    ground (arith, used-add-free v),
    refl,
    ground (arith, same, used-add-free v, slice-add r'.buf r'.head (r'.tail - r'.head) n),
  )
  | inr e ↦ rw e (short (ground arith), v, same)
]

-- On a valid buffer whose bytes do not go round, `fmbuf_alloc` succeeds exactly when `size`
-- bytes are free. It then returns the start of `size` bytes at the end of the contents, which
-- are otherwise unchanged, and the buffer stays valid. When it fails, the contents are
-- unchanged.
pub alloc_lem :
    {r : Mbuf} (n : ℕ) → IsValid r → r.head ≤ r.tail → Ensures (Allocated r n) (alloc r n)
unfolding alloc free
alloc_lem {r} n v h = elim (Bool-cases (ltb (tail_free r) n)) [
  | inl e ↦ rw e (moved (rewind r) (rewind_lem v h))
  | inr e ↦
      rw e (
        take_tail-Allocated r n v h refl (λ k. ground (arith, used-add-free v)) (λ k. ground arith))
]
  where
    moved :
        (o : Option Mbuf)
        → Ensures
            (λ r'.
              IsValid r'
              × (r'.head ≡ 0)
              × (r'.size ≡ r.size)
              × (contents r' ≡ contents r)
              × (tail_free r' ≡ free r))
            o
        → Ensures (Allocated r n) (o >>= λ r'. some (take_tail r' n))
    moved none e = e
    moved (some r') (v', zero_head, same_size, same, room) =
        take_tail-Allocated r n v' (omega arith) same (λ k. omega arith) (λ k. omega arith)
