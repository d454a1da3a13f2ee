-- ===== src/Mbuf/Inv.antt =====
-- fmbuf/fmbuf.c: the representation invariant of a buffer, and the bytes that it holds.
use final_libs.Prelude.{
  ℕ, ◌+◌, ◌-◌, ◌^◌, ◌≤◌, ◌<◌, ◌≡◌, ap, sym, ◌==◌, List, ◌++◌, [], arith, leb, if◌then◌else◌, length,
  slice, length-append, length-slice, length-replicate, inl, inr, Bool-cases, slice-zero,
}
use final_libs.Mbuf.{Mbuf, create, used, free, tail_free, tail_use, is_empty}

-- Head and tail stand on one of the `size + 1` bytes. An object is smaller than half the addresses.
pub record IsValid (r : Mbuf) : Type 0 where
  pub memory : length r.buf ≡ r.size + 1
  pub small : r.size < 2 ^ 63
  pub head_in : r.head ≤ r.size
  pub tail_in : r.tail ≤ r.size

-- What the buffer holds, oldest byte first.
abbrev pub contents : Mbuf → List ℕ
contents r =
    if leb r.head r.tail
    then slice r.buf r.head (r.tail - r.head)
    else slice r.buf r.head (r.size + 1 - r.head) ++ slice r.buf 0 r.tail

pub length-contents : {r : Mbuf} → IsValid r → length (contents r) ≡ used r
unfolding used
length-contents {r} v = elim (Bool-cases (leb r.head r.tail)) [
  | inl e ↦ rw e (ground (arith, length-slice r.buf r.head (r.tail - r.head)))
  | inr e ↦ rw e (
      ground (
        arith,
        length-append (slice r.buf r.head (r.size + 1 - r.head)) (slice r.buf 0 r.tail),
        length-slice r.buf r.head (r.size + 1 - r.head),
        length-slice r.buf 0 r.tail,
      ))
]

-- In a valid buffer no `size_t` computation wraps: used and free bytes make up the size, and the
-- two rooms at the end are what their names say.
pub used-add-free :
    {r : Mbuf}
    → IsValid r
    → (used r + free r ≡ r.size)
      × (tail_free r + r.tail ≡ r.size)
      × (tail_use r + r.head ≡ r.size + 1)
unfolding used free tail_free tail_use
used-add-free v = ground arith

-- A new buffer is valid, and empty.
pub create-IsValid :
    (size : ℕ)
    → size < 2 ^ 63
    → IsValid (create size) × (contents (create size) ≡ []) × (free (create size) ≡ size)
unfolding create free
create-IsValid size h = (
  record {
    memory = length-replicate (size + 1) 0;
    small = h;
    head_in = omega arith;
    tail_in = omega arith;
  },
  slice-zero _ 0,
  omega arith,
)

pub is_empty_lem : {r : Mbuf} → IsValid r → is_empty r ≡ (length (contents r) == 0)
unfolding is_empty
is_empty_lem {r} v = ap (λ n. n == 0) (sym (length-contents v))
