-- ===== src/Log/Tests.antt =====
-- Two threads that log to one file.
use final_libs.Prelude.{
  ℕ, ◌^◌, ◌≤◌, ◌≡◌, refl, ap, true, none, List, [], ◌∷◌, ◌++◌, map, arith, ◌==◌, if◌then◌else◌,
  length, length-replicate, replicate, All, Ensures, Bool-cases, inl, inr,
}
use final_libs.Dlist.Cells.{write}
use final_libs.Dlist.Chain.{has}
use final_libs.Mbuf
use final_libs.Mbuf.{Mbuf}
use final_libs.Mbuf.Inv.{length-contents, used-add-free}
use final_libs.Log.Disk.{Answer, wrote, write_to_kernel}
use final_libs.Log.Wire.{print_head, bytes_of}
use final_libs.Log.{Thread, async_write, rounds, sync_write_f}
use final_libs.Log.Send.{Msg, frame, concat, Sent}
use final_libs.Log.Fetch.{IsMsg, Holds}
use final_libs.Log.Order.{Waiting, queue}
use final_libs.Log.Drain.{IsPending, Drained, rounds_lem}
use final_libs.Log.Header.{Header}
use final_libs.Log.Run.{System, Action, logs, fetches, run_and_drain}
use final_libs.Log.Run.Kept.{IsCall, IsAction, IsRunning}
use final_libs.Log.Run.Delivery.{Delivered, run_and_drain_lem}
use final_libs.Log.Empty.{async_write_empty}
use final_libs.Log.Short.{short_write}
use final_libs.Log.Sync.{sync_write_f-cut}
use final_libs.Log.Samples.{log_file, world, whole, whole-Willing, clock, buffer, buffer-Holds}

-- thread 1 has taken the first number, and thread 0 the second
abbrev first_msg : Msg
first_msg = record { file = 7; aid = 1; text = 97 ∷ 10 ∷ [] }

abbrev second_msg : Msg
second_msg = record { file = 7; aid = 2; text = 98 ∷ 10 ∷ [] }

abbrev two_wait : Waiting
two_wait = (1, first_msg) ∷ (0, second_msg) ∷ []

abbrev threads : ℕ → Thread
threads i = record { plog_buf = buffer (queue i two_wait); alive = true }

first_msg-IsMsg : IsMsg first_msg
first_msg-IsMsg = record {
  file = omega arith;
  aid = omega arith;
  some_text = omega arith;
  fits = omega arith;
}

second_msg-IsMsg : IsMsg second_msg
second_msg-IsMsg = record {
  file = omega arith;
  aid = omega arith;
  some_text = omega arith;
  fits = omega arith;
}

two_fit : (i : ℕ) → length (concat (map frame (queue i two_wait))) ≤ 64
unfolding print_head bytes_of
two_fit i = elim (Bool-cases (1 == i)) [
  | inl one ↦ elim (Bool-cases (0 == i)) [
    | inl zero' ↦ rw (one, zero') (omega arith)
    | inr not_zero ↦ rw (one, not_zero) (omega arith)
  ]
  | inr not_one ↦ elim (Bool-cases (0 == i)) [
    | inl zero' ↦ rw (not_one, zero') (omega arith)
    | inr not_zero ↦ rw (not_one, not_zero) (omega arith)
  ]
]

two-IsPending : IsPending (0 ∷ 1 ∷ []) threads world two_wait
unfolding write has
two-IsPending = record {
  alive = λ i. refl;
  holds = λ i. buffer-Holds (queue i two_wait) (two_fit i);
  in_order = (refl, (refl, tt));
  sound = ((first_msg-IsMsg, refl), ((second_msg-IsMsg, refl), tt));
}

rounds_lem_example :
    Ensures (Drained two_wait world) (rounds whole clock 1 3 (0 ∷ 1 ∷ []) threads world)
rounds_lem_example =
    rounds_lem whole clock whole-Willing 0 (0 ∷ 1 ∷ []) 3 threads world two_wait two-IsPending
      (omega arith)

empty_buffer : Holds (buffer []) []
empty_buffer = buffer-Holds [] (omega arith)

-- two threads that have logged nothing so far
abbrev idle : System
idle = record {
  threads = λ _. record { plog_buf = buffer []; alive = true };
  world = record { files = λ _. record log_file { last_aid = 0 }; notices = [] };
  taken = λ _. [];
}

-- the second thread logs, the first one too, and the fetcher comes to the first one before the second
abbrev actions : List Action
actions =
    logs 1 7 (91 ∷ 93 ∷ 32 ∷ []) (104 ∷ 105 ∷ [])
    ∷ logs 0 7 (91 ∷ 93 ∷ 32 ∷ []) (104 ∷ 111 ∷ [])
    ∷ fetches 0
    ∷ fetches 1
    ∷ []

idle-IsRunning : IsRunning (0 ∷ 1 ∷ []) 4 4 [] idle
idle-IsRunning = record {
  pending = record { alive = λ i. refl; holds = λ i. empty_buffer; in_order = tt; sound = tt };
  numbers = refl;
  room = λ p. omega arith;
  text = λ p. refl;
  bound = omega arith;
}

actions-IsAction : All (IsAction (0 ∷ 1 ∷ [])) actions
unfolding has
actions-IsAction =
    let call : (i : ℕ)
        → has i (0 ∷ 1 ∷ []) ≡ true
        → (c : ℕ) → IsCall (0 ∷ 1 ∷ []) i 7 (91 ∷ 93 ∷ 32 ∷ []) (104 ∷ c ∷ []) =
      λ i known c. record {
        known = known;
        file = omega arith;
        some_header = omega arith;
        some_log = omega arith;
        fits = omega arith;
      } in
    (call 1 refl 105, (call 0 refl 111, (refl, (refl, tt))))

run_and_drain_lem_example :
    Ensures Delivered (run_and_drain whole clock 1 (0 ∷ 1 ∷ []) 5 actions idle)
run_and_drain_lem_example =
    run_and_drain_lem whole clock whole-Willing 0 (0 ∷ 1 ∷ []) 4 actions [] idle idle-IsRunning
      actions-IsAction

free_bytes : Mbuf.free (buffer []) ≡ 64
free_bytes =
    omega (
      arith,
      used-add-free empty_buffer.0,
      length-contents empty_buffer.0,
      ap length empty_buffer.1,
    )

-- a header that has not been used, with an empty cookie
abbrev blank_header : Header
blank_header = record {
  bytes = replicate 24 0 ++ 91 ∷ 93 ∷ 32 ∷ 0 ∷ replicate 256 0;
  cookie_len = 3;
  last_time = 0;
  last_time_str = replicate 21 0;
}

abbrev zeros : ℕ → ℕ → List ℕ
zeros n t = replicate n 48

async_write_empty_example :
    Ensures
      (λ r.
        (r.0 ≡ 0)
        × Sent
            (buffer [])
            (print_head (record { id = 0; f = 7; aid = 3; len = 4 }) ++ 91 ∷ 93 ∷ 32 ∷ [])
            r.1)
      (async_write true (buffer []) world 7 (91 ∷ 93 ∷ 32 ∷ []) [])
async_write_empty_example =
    async_write_empty (buffer []) world 7 (91 ∷ 93 ∷ 32 ∷ []) empty_buffer.0 (omega arith)
      (omega (arith, free_bytes)) (omega arith)

-- a system that takes one byte of the first write
abbrev short_first : ℕ → Answer
short_first i = if i == 0 then wrote 1 else wrote (2 ^ 16)

short_write_example : write_to_kernel short_first clock 1000 log_file (104 ∷ 105 ∷ 10 ∷ []) ≡ none
short_write_example =
    short_write short_first clock 1000 log_file (104 ∷ 105 ∷ 10 ∷ []) 1 refl
      (λ i later. (2 ^ 16, ground (arith, later), omega arith)) (omega arith) (omega arith)
      (omega arith) (omega arith)

sync_write_f-cut_example :
    sync_write_f whole clock 1 world 7 (91 ∷ 93 ∷ 32 ∷ []) (replicate 5000 97) ≡ none
sync_write_f-cut_example =
    sync_write_f-cut whole clock 1 world 7 (91 ∷ 93 ∷ 32 ∷ []) (replicate 5000 97)
      (omega (arith, length-replicate {A = ℕ} 5000 97))
