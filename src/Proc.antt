-- ===== src/Proc.antt =====
-- The process table of kernel/proc.c and kernel/proc.h: `struct proc` and the file-level variables.
-- A pointer to `proc[i]` is written `suc i`, and the null pointer is 0; a sleep channel is such an
-- address too. An `int` is its 32-bit pattern. Each critical section runs as one step.
pub mod Lottery
pub mod Stride
pub mod Alloc
pub mod Life
mod Tests
use cs202_lab.Prelude.{ℕ, zero, suc, Bool, true, false, List, ◌==◌, ◌&&◌, not}

pub data ProcState : Type 0 where
  unused used sleeping runnable running zombie : ProcState

abbrev pub is_unused : ProcState → Bool
is_unused ProcState.unused = true
is_unused _ = false

abbrev pub is_runnable : ProcState → Bool
is_runnable ProcState.runnable = true
is_runnable _ = false

abbrev pub is_running : ProcState → Bool
is_running ProcState.running = true
is_running _ = false

abbrev pub is_sleeping : ProcState → Bool
is_sleeping ProcState.sleeping = true
is_sleeping _ = false

abbrev pub is_zombie : ProcState → Bool
is_zombie ProcState.zombie = true
is_zombie _ = false

abbrev pub Ptr : Type 0
Ptr = ℕ

-- `struct proc`, less the registers, the page table, the open files and the name.
pub record Proc : Type 0 where
  pub state : ProcState
  pub chan : Ptr
  pub killed : ℕ
  pub xstate : ℕ
  pub pid : ℕ
  pub sys_call_cnt : ℕ
  pub sched_cnt : ℕ
  pub tickets : ℕ
  pub tickets_winning_range_beginning : ℕ
  pub tickets_winning_range_end : ℕ
  pub stride_pass : ℕ
  pub parent : Ptr
  pub sz : ℕ

-- The table and the static variables of the file.
pub record Kernel : Type 0 where
  pub procs : List Proc
  pub initproc : Ptr
  pub nextpid : ℕ
  pub total_tickets : ℕ
  pub set_cnt : ℕ
  pub r_x : ℕ

-- The test of the lottery's loops: `p->state != UNUSED && p->tickets != 0`.
abbrev pub holds_tickets : Proc → Bool
holds_tickets p = not (is_unused p.state) && not (p.tickets == 0)
