-- ===== src/Log/Samples.antt =====
-- A file, a system that writes everything, and buffers with messages.
use final_libs.Prelude.{
  ℕ, ◌-◌, ◌^◌, ◌≤◌, refl, true, false, List, [], ◌++◌, map, arith, length, length-append,
  length-replicate, replicate, slice, take-append_self,
}
use final_libs.Mbuf.{Mbuf}
use final_libs.Log.Disk.{File, World, Answer, wrote}
use final_libs.Log.Send.{Msg, frame, concat}
use final_libs.Log.Fetch.{Holds, Willing}

abbrev pub log_file : File
log_file = record {
  file_size = 0;
  last_flush_time = 0;
  rolling_size = 20;
  flush_interval = 0;
  async = true;
  debug = false;
  lv = 0;
  last_aid = 2;
  curr_aid = 0;
  content = [];
  rolled = [];
  output = [];
  writes = 0;
}

abbrev pub world : World
world = record { files = λ _. log_file; notices = [] }

-- a system that writes everything
abbrev pub whole : ℕ → Answer
whole i = wrote (2 ^ 16)

abbrev pub whole-Willing : Willing whole
whole-Willing i = (2 ^ 16, refl, omega arith)

abbrev pub clock : ℕ → ℕ
clock i = i

-- a buffer of 64 bytes that holds these messages
abbrev pub buffer : List Msg → Mbuf
buffer ms =
    let bytes = concat (map frame ms) in
    record {
      size = 64;
      head = 0;
      tail = length bytes;
      buf = bytes ++ replicate (65 - length bytes) 0;
    }

pub buffer-Holds : (ms : List Msg) → length (concat (map frame ms)) ≤ 64 → Holds (buffer ms) ms
unfolding slice
buffer-Holds ms fits =
    let bytes = concat (map frame ms) in
    (
      record {
        memory = omega (
          arith,
          fits,
          length-append bytes (replicate (65 - length bytes) 0),
          length-replicate {A = ℕ} (65 - length bytes) 0,
        );
        small = omega arith;
        head_in = omega arith;
        tail_in = fits;
      },
      ground (arith, take-append_self (length bytes) bytes (replicate (65 - length bytes) 0) refl),
    )
