-- ===== src/Fev/Tests.antt =====
-- A system that refuses to add a descriptor twice, and to change or delete one that is not there.
use final_libs.Prelude.{ℕ, ◌≡◌, refl, true, false, Bool, none, some, Option, arith, ◌==◌, Ensures}
use final_libs.Dlist.Cells.{write}
use final_libs.Fev.Kernel.{Mask, Op, ctl_add, ctl_mod, ctl_del, wanted, Epoll}
use final_libs.Fev.{Fev, nil, reg_event, add_event, del_event, delevent, add_firelist, handle}
use final_libs.Fev.Synced.{IsSynced, Deleted, calls-IsSynced}
use final_libs.Fev.Fired.{here, next, by_reg, fired_ignored, del_event_full}

abbrev table_ctl : (ℕ → Option Mask) → Op → ℕ → Mask → Option Mask → Bool × (ℕ → Option Mask)
table_ctl s ctl_add fd m none = (true, write s fd (some m))
table_ctl s ctl_add fd m (some _) = (false, s)
table_ctl s ctl_mod fd m none = (false, s)
table_ctl s ctl_mod fd m (some _) = (true, write s fd (some m))
table_ctl s ctl_del fd m none = (false, s)
table_ctl s ctl_del fd m (some _) = (true, write s fd none)

table_ctl_succeeds :
    (s : ℕ → Option Mask) (op : Op) (fd : ℕ) (m : Mask) (q : ℕ) (old : Option Mask)
    → (table_ctl s op fd m old).0 ≡ true
    → (table_ctl s op fd m old).1 q ≡ write s fd (wanted op m) q
table_ctl_succeeds s ctl_add fd m q none ok = refl
table_ctl_succeeds s ctl_add fd m q (some _) ok = absurd (ground arith)
table_ctl_succeeds s ctl_mod fd m q none ok = absurd (ground arith)
table_ctl_succeeds s ctl_mod fd m q (some _) ok = refl
table_ctl_succeeds s ctl_del fd m q none ok = absurd (ground arith)
table_ctl_succeeds s ctl_del fd m q (some _) ok = refl

table_ctl_fails :
    (s : ℕ → Option Mask) (op : Op) (fd : ℕ) (m : Mask) (q : ℕ) (old : Option Mask)
    → (table_ctl s op fd m old).0 ≡ false
    → (table_ctl s op fd m old).1 q ≡ s q
table_ctl_fails s ctl_add fd m q none bad = absurd (ground arith)
table_ctl_fails s ctl_add fd m q (some _) bad = refl
table_ctl_fails s ctl_mod fd m q none bad = refl
table_ctl_fails s ctl_mod fd m q (some _) bad = absurd (ground arith)
table_ctl_fails s ctl_del fd m q none bad = refl
table_ctl_fails s ctl_del fd m q (some _) bad = absurd (ground arith)

abbrev table_os : Epoll
table_os = record {
  State = ℕ → Option Mask;
  interest = λ s. s;
  ctl = λ s op fd m. table_ctl s op fd m (s fd);
  ctl_succeeds = λ s op fd m q ok. table_ctl_succeeds s op fd m q (s fd) ok;
  ctl_fails = λ s op fd m q bad. table_ctl_fails s op fd m q (s fd) bad;
}

abbrev read_only : Mask
read_only = record { read = true; write = false; error = false }

-- descriptor 3 of 8 is read
abbrev reading : Fev table_os
reading = record {
  kernel = write (λ _. none) 3 (some read_only);
  fevents = λ q. record {
    mask = record { read = q == 3; write = false; error = false };
    fire_idx = 0;
    pread = some 1;
    pwrite = none;
    arg = 0;
  };
  firelist = λ _. 0;
  max_ev_size = 8;
  fire_num = 0;
  in_processing = true;
}

-- the same after descriptor 3 is deleted
abbrev deleted : Fev table_os
deleted = record {
  kernel = write reading.kernel 3 none;
  fevents =
      write (write reading.fevents 3 (record (reading.fevents 3) { mask = nil })) 3
        (record (reading.fevents 3) { mask = nil; fire_idx = 0 });
  firelist = write reading.firelist 0 3;
  max_ev_size = 8;
  fire_num = 1;
  in_processing = true;
}

fired_ignored_example :
    handle (λ _ _ _ _ s. some s) (reg_event deleted 3 read_only (some 2) none 0).1 3 read_only
    ≡ some (0, (reg_event deleted 3 read_only (some 2) none 0).1)
unfolding del_event delevent add_firelist write
fired_ignored_example =
    fired_ignored (λ _ _ _ _ s. some s) reading deleted
      (reg_event deleted 3 read_only (some 2) none 0).1 3 read_only read_only refl refl refl
      (next here (by_reg deleted 3 read_only (some 2) none 0))

reading-IsSynced : IsSynced reading
unfolding write
reading-IsSynced q = ground arith

calls-IsSynced_example :
    IsSynced (reg_event reading 5 read_only none none 0).1
    × (IsSynced (add_event reading 5 read_only).1 × Ensures Deleted (del_event reading 5 read_only))
calls-IsSynced_example =
    calls-IsSynced reading 5 read_only none none 0 reading-IsSynced (omega arith)

del_event_full_example : del_event (record reading { fire_num = 8 }) 3 read_only ≡ none
unfolding write
del_event_full_example =
    del_event_full (record reading { fire_num = 8 }) 3 read_only (omega arith) refl refl refl refl
