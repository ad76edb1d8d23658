-- ===== src/Proc/Alloc.antt =====
-- Process slots of kernel/proc.c: `allocpid`, `allocproc`, `freeproc` and `fork`, in the LOTTERY
-- build. Whether `kalloc`, `proc_pagetable` and `uvmcopy` find memory is an argument.
pub mod Slot
pub mod Numbers
use mathlib.Core.Option
use cs202_lab.Prelude.{
  ℕ, zero, suc, ◌+◌, ◌<◌, Bool, true, false, List, [], ◌∷◌, ◌&&◌, Option, none, some, if◌then◌else◌,
  add32, modify, get_elem?,
}
use cs202_lab.Proc.{Proc, ProcState, Kernel, Ptr, is_unused}
use cs202_lab.Proc.Lottery.{set_proc_tickets}

-- `allocpid`: the next number, and the counter moved on.
abbrev pub allocpid : Kernel → Kernel × ℕ
allocpid k = (record k { nextpid = add32 k.nextpid 1 }, k.nextpid)

-- The fields that `freeproc` resets; `schedCnt` and the winning range keep their values.
abbrev pub cleared : Proc → Proc
cleared p = record p {
  state = ProcState.unused;
  chan = 0;
  killed = 0;
  xstate = 0;
  pid = 0;
  sys_call_cnt = 0;
  tickets = 0;
  stride_pass = 0;
  parent = 0;
  sz = 0;
}

unfoldable pub freeproc : ℕ → Kernel → Kernel
freeproc i k = record k { procs = modify k.procs i cleared }

unfoldable pub first_unused : List Proc → Option ℕ
first_unused [] = none
first_unused (p ∷ ps) = if is_unused p.state then some 0 else Option.map suc (first_unused ps)

-- The slot `i` gets a pid, the state USED, a zeroed run count and ten tickets.
unfoldable pub claim : ℕ → Kernel → Kernel
claim i k =
    let (k', pid') = allocpid k in
    set_proc_tickets (suc i) 10 (record k' {
      procs =
          modify k'.procs i (λ p. record p { pid = pid'; state = ProcState.used; sched_cnt = 0 });
    })

-- `allocproc`: the new process, or the null pointer. `mem` is whether `kalloc` gives a trapframe,
-- `map_ok` whether `proc_pagetable` succeeds.
unfoldable pub allocproc : Bool → Bool → Kernel → Kernel × Ptr
unfolding claim freeproc first_unused
allocproc mem map_ok k = elim (first_unused k.procs) [
  | none ↦ (k, 0)
  | some i ↦ if mem && map_ok then (claim i k, suc i) else (freeproc i (claim i k), 0)
]

-- The child as `fork` leaves it: the parent's size, the parent link, RUNNABLE.
abbrev pub child_of : Ptr → ℕ → Proc → Proc
child_of cur size p = record p { sz = size; parent = cur; state = ProcState.runnable }

abbrev pub sz_of : Ptr → Kernel → ℕ
sz_of zero k = 0
sz_of (suc i) k = elim (get_elem? k.procs i) [ none ↦ 0 | some p ↦ p.sz ]

abbrev pub pid_of : ℕ → Kernel → ℕ
pid_of i k = elim (get_elem? k.procs i) [ none ↦ 0 | some p ↦ p.pid ]

-- The part of `fork` behind `allocproc`. `copy_ok` is whether `uvmcopy` succeeds; `none` is -1.
abbrev pub fork_into : Ptr → Bool → Kernel × Ptr → Kernel × Option ℕ
fork_into cur copy_ok (k, zero) = (k, none)
fork_into cur copy_ok (k, suc i) =
    if copy_ok
    then (record k { procs = modify k.procs i (child_of cur (sz_of cur k)) }, some (pid_of i k))
    else (freeproc i k, none)

unfoldable pub fork : Ptr → Bool → Bool → Bool → Kernel → Kernel × Option ℕ
unfolding allocproc
fork cur mem map_ok copy_ok k = fork_into cur copy_ok (allocproc mem map_ok k)
