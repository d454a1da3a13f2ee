-- ===== src/Fev/Kernel.antt =====
-- What fev/fev_epoll.c asks of the operating system: epoll_ctl, over the events that each descriptor
-- is registered for.
use final_libs.Prelude.{ℕ, ◌≡◌, Bool, true, false, Option, none, some}
use final_libs.Dlist.Cells.{write}

-- FEV_READ, FEV_WRITE and FEV_ERROR of a mask; for the system EPOLLIN, EPOLLOUT, and either of EPOLLHUP
-- and EPOLLERR
pub record Mask : Type 0 where
  pub read : Bool
  pub write : Bool
  pub error : Bool

pub data Op : Type 0 where
  ctl_add : Op
  ctl_mod : Op
  ctl_del : Op

-- what a call that succeeds sets for its descriptor
abbrev pub wanted : Op → Mask → Option Mask
wanted ctl_add m = some m
wanted ctl_mod m = some m
wanted ctl_del m = none

pub record Epoll : Type 1 where
  pub State : Type 0
  pub interest : State → ℕ → Option Mask
  pub ctl : State → Op → ℕ → Mask → Bool × State
  pub ctl_succeeds :
      (s : State) (op : Op) (fd : ℕ) (m : Mask) (q : ℕ)
      → (ctl s op fd m).0 ≡ true
      → interest (ctl s op fd m).1 q ≡ write (interest s) fd (wanted op m) q
  pub ctl_fails :
      (s : State) (op : Op) (fd : ℕ) (m : Mask) (q : ℕ)
      → (ctl s op fd m).0 ≡ false
      → interest (ctl s op fd m).1 q ≡ interest s q
