-- ===== src/Log/Wire.antt =====
-- flog/flog.c: the head of a message in a thread's buffer, `log_fetch_msg_head_t`, as its bytes.
use final_libs.Prelude.{
  ℕ, zero, suc, ◌+◌, ◌*◌, ◌/◌, ◌%◌, ◌^◌, ◌<◌, ◌≡◌, refl, ap, List, [], ◌∷◌, ◌++◌, arith, length,
  take, drop, length-append,
}

-- a number in `w` bytes, the lowest first
unfoldable pub bytes_of : ℕ → ℕ → List ℕ
bytes_of zero n = []
bytes_of (suc w) n = n % 256 ∷ bytes_of w (n / 256)

unfoldable pub number_of : List ℕ → ℕ
number_of [] = 0
number_of (b ∷ bs) = b + 256 * number_of bs

pub number_of-bytes_of : (w n : ℕ) → n < 256 ^ w → number_of (bytes_of w n) ≡ n
unfolding number_of bytes_of
number_of-bytes_of zero n small = omega (arith, small)
number_of-bytes_of (suc w) n small =
    let rest = number_of-bytes_of w (n / 256) (grind (arith, small)) in omega (arith, rest)

pub length-bytes_of : (w n : ℕ) → length (bytes_of w n) ≡ w
unfolding bytes_of
length-bytes_of zero n = refl
length-bytes_of (suc w) n = ap suc (length-bytes_of w (n / 256))

-- LOG_PTO_FETCH_MSG, LOG_PTO_THREAD_QUIT
abbrev pub pto_fetch_msg : ℕ
pto_fetch_msg = 0

abbrev pub pto_thread_quit : ℕ
pto_thread_quit = 1

-- `log_fetch_msg_head_t`, packed: the protocol, the pointer to the file, the number of the message, and
-- its length
pub record Head : Type 0 where
  pub id : ℕ
  pub f : ℕ
  pub aid : ℕ
  pub len : ℕ

abbrev pub head_size : ℕ
head_size = 15

unfoldable pub print_head : Head → List ℕ
print_head h = h.id ∷ (bytes_of 8 h.f ++ (bytes_of 4 h.aid ++ bytes_of 2 h.len))

unfoldable pub parse_head : List ℕ → Head
parse_head bs = record {
  id = number_of (take 1 bs);
  f = number_of (take 8 (drop 1 bs));
  aid = number_of (take 4 (drop 9 bs));
  len = number_of (take 2 (drop 13 bs));
}

pub record IsHead (h : Head) : Type 0 where
  pub f : h.f < 256 ^ 8
  pub aid : h.aid < 256 ^ 4
  pub len : h.len < 256 ^ 2

pub length-print_head : (h : Head) → length (print_head h) ≡ head_size
unfolding print_head
length-print_head h = omega (
  arith,
  length-append (bytes_of 8 h.f) (bytes_of 4 h.aid ++ bytes_of 2 h.len),
  length-append (bytes_of 4 h.aid) (bytes_of 2 h.len),
  length-bytes_of 8 h.f,
  length-bytes_of 4 h.aid,
  length-bytes_of 2 h.len,
)

pub parse_head-print_head : (h : Head) → IsHead h → parse_head (print_head h) ≡ h
unfolding parse_head print_head number_of bytes_of
parse_head-print_head h is =
    let at_id : h.id + 0 ≡ h.id = omega arith in
    let at_f = number_of-bytes_of 8 h.f is.f in
    let at_aid = number_of-bytes_of 4 h.aid is.aid in
    let at_len = number_of-bytes_of 2 h.len is.len in
    λ i. record { id = at_id i; f = at_f i; aid = at_aid i; len = at_len i }
