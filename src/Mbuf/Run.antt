-- ===== src/Mbuf/Run.antt =====
-- fmbuf/fmbuf.c: what a client sees of a sequence of calls on one buffer.
use final_libs.Prelude.{
  ℕ, ◌≡◌, List, [], ◌∷◌, Option, none, some, true, ◌>>=◌, length, take-length, refl, arith, Ensures,
  ap,
}
use final_libs.Mbuf.{Mbuf, push, pop}
use final_libs.Mbuf.Inv.{IsValid, contents}
use final_libs.Mbuf.Push.{Pushed, push_refines}
use final_libs.Mbuf.Pop.{Popped, pop_refines}
use final_libs.Mbuf.Queue
use final_libs.Mbuf.Queue.{Queue}

-- `fmbuf_push` of some bytes, `fmbuf_pop` of so many bytes
pub data Op : Type 0 where
  put : List ℕ → Op
  get : ℕ → Op

-- the status and the bytes that were copied
abbrev pub Reply : Type 0
Reply = ℕ × List ℕ

pub run : Mbuf → List Op → Option (List Reply)
run r [] = some []
run r (put xs ∷ ops) = do
  (s, r') ← push r (some xs) (length xs)
  replies ← run r' ops
  some ((s, []) ∷ replies)
run r (get n ∷ ops) = do
  (s, bytes, r') ← pop r true n
  replies ← run r' ops
  some ((s, bytes) ∷ replies)

-- the same calls on the queue
unfoldable pub run_queue : ℕ → Queue → List Op → List Reply
run_queue cap q [] = []
run_queue cap q (put xs ∷ ops) = let (s, q') = Queue.push cap q xs in (s, []) ∷ run_queue cap q' ops
run_queue cap q (get n ∷ ops) =
    let (s, bytes, q') = Queue.pop q n in (s, bytes) ∷ run_queue cap q' ops

-- `ops` on the buffer and on its queue give the same replies.
abbrev Agree : List Op → Mbuf → Type 0
Agree ops r = run r ops ≡ some (run_queue r.size (contents r) ops)

module _ (r : Mbuf) (ops : List Op) (rest_agree : (r' : Mbuf) → IsValid r' → Agree ops r') where
  put-Agree :
      (xs : List ℕ) (o : Option (ℕ × Mbuf))
      → push r (some xs) (length xs) ≡ o
      → Ensures (Pushed r xs) o
      → Agree (put xs ∷ ops) r
  unfolding run run_queue
  put-Agree xs none e h = absurd h
  put-Agree xs (some (s, r')) e (v, same_size, queue) =
      rw (e, rest_agree r' v, ← queue)
        (ap (λ k. some ((s, []) ∷ run_queue k (contents r') ops)) same_size)

  get-Agree :
      (n : ℕ) (o : Option (ℕ × List ℕ × Mbuf))
      → pop r true n ≡ o
      → Ensures (Popped r true n) o
      → Agree (get n ∷ ops) r
  unfolding run run_queue
  get-Agree n none e h = absurd h
  get-Agree n (some (s, out, r')) e (v, same_size, status, bytes, rest) =
      let (status_of, front, _) = Queue.pop (contents r) n in
      rw (e, rest_agree r' v, status, bytes, ← rest)
        (ap (λ k. some ((status_of, front) ∷ run_queue k (contents r') ops)) same_size)

-- No sequence of pushes and pops on a valid buffer is undefined, and none tells the buffer from
-- the bounded queue of its contents: every status and every copied byte is the queue's.
pub run_refines :
    (ops : List Op) {r : Mbuf} → IsValid r → run r ops ≡ some (run_queue r.size (contents r) ops)
unfolding run run_queue
run_refines [] v = refl
run_refines (put xs ∷ ops) {r} v =
    put-Agree r ops (λ r' v'. run_refines ops v') xs _ refl
      (rw (take-length xs) at (push_refines xs (length xs) v (omega arith)))
run_refines (get n ∷ ops) {r} v =
    get-Agree r ops (λ r' v'. run_refines ops v') n _ refl (pop_refines true n v)
