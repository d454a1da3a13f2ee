-- ===== src/Mbuf/Queue.antt =====
-- What fmbuf/fmbuf.c promises of push and pop: a bounded queue of bytes, oldest first. A call moves
-- a whole block of bytes or nothing.
use final_libs.Prelude.{ℕ, ◌+◌, List, [], ◌++◌, ◌&&◌, ltb, leb, if◌then◌else◌, length, take, drop}

abbrev pub Queue : Type 0
Queue = List ℕ

unfoldable pub push : ℕ → Queue → List ℕ → ℕ × Queue
push cap q xs = if ltb 0 (length xs) && leb (length q + length xs) cap then (0, q ++ xs) else (1, q)

unfoldable pub pop : Queue → ℕ → ℕ × List ℕ × Queue
pop q n = if ltb 0 n && leb n (length q) then (0, take n q, drop n q) else (1, [], q)
