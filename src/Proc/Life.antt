-- ===== src/Proc/Life.antt =====
-- The life of a process in kernel/proc.c: `reparent`, `exit`, `wait`, `sleep`, `wakeup`, `kill` and
-- `yield`, on the table. `cur` is `myproc()`.
pub mod Wakeup
pub mod Wait
pub mod Exit
pub mod Kill
use cs202_lab.Prelude.{
  ℕ, zero, suc, ◌+◌, Bool, true, false, not, List, [], ◌∷◌, ◌==◌, ◌&&◌, ◌||◌, Option, none, some,
  if◌then◌else◌, modify, get_elem?, length,
}
use cs202_lab.Proc.{Proc, ProcState, Kernel, Ptr, is_sleeping, is_zombie}
use cs202_lab.Proc.Alloc.{freeproc}

-- The body of the loop of `wakeup`, for the process with pointer `ptr`.
abbrev pub wake_one : Ptr → Ptr → Ptr → Proc → Proc
wake_one cur chan' ptr p =
    if not (ptr == cur) && (is_sleeping p.state && (p.chan == chan'))
    then record p { state = ProcState.runnable }
    else p

unfoldable pub wake_from : Ptr → Ptr → Ptr → List Proc → List Proc
wake_from cur chan' ptr [] = []
wake_from cur chan' ptr (p ∷ ps) = wake_one cur chan' ptr p ∷ wake_from cur chan' (suc ptr) ps

unfoldable pub wakeup : Ptr → Ptr → Kernel → Kernel
wakeup cur chan' k = record k { procs = wake_from cur chan' 1 k.procs }

-- `sleep` up to `sched`, and what it does once it runs again.
unfoldable pub sleep : Ptr → Ptr → Kernel → Kernel
sleep zero chan' k = k
sleep (suc i) chan' k = record k {
  procs = modify k.procs i (λ p. record p { chan = chan'; state = ProcState.sleeping });
}

unfoldable pub sleep_return : Ptr → Kernel → Kernel
sleep_return zero k = k
sleep_return (suc i) k = record k { procs = modify k.procs i (λ p. record p { chan = 0 }) }

-- `yield` up to `sched`.
unfoldable pub yield : Ptr → Kernel → Kernel
yield zero k = k
yield (suc i) k = record k {
  procs = modify k.procs i (λ p. record p { state = ProcState.runnable });
}

-- `kill`: the first slot with that pid; `false` is -1.
abbrev pub kill_one : Proc → Proc
kill_one p =
    if is_sleeping p.state
    then record p { killed = 1; state = ProcState.runnable }
    else record p { killed = 1 }

unfoldable pub kill_scan : ℕ → List Proc → List Proc × Bool
kill_scan n [] = ([], false)
kill_scan n (p ∷ ps) =
    let (ps', found) = kill_scan n ps in
    if p.pid == n then (kill_one p ∷ ps, true) else (p ∷ ps', found)

unfoldable pub kill : ℕ → Kernel → Kernel × Bool
unfolding kill_scan
kill n k = let (ps, found) = kill_scan n k.procs in (record k { procs = ps }, found)

-- `reparent`: one round of its loop for the slot `i`, and the loop over `n` slots from `i`.
unfoldable pub reparent_one : Ptr → ℕ → Kernel → Kernel
unfolding wakeup
reparent_one cur i k = elim (get_elem? k.procs i) [
  | none ↦ k
  | some p ↦
      if p.parent == cur
      then wakeup cur k.initproc
          (record k { procs = modify k.procs i (λ q. record q { parent = k.initproc }) })
      else k
]

unfoldable pub reparent_loop : Ptr → ℕ → ℕ → Kernel → Kernel
reparent_loop cur zero i k = k
reparent_loop cur (suc n) i k = reparent_loop cur n (suc i) (reparent_one cur i k)

unfoldable pub reparent : Ptr → Kernel → Kernel
unfolding reparent_loop reparent_one
reparent cur k = reparent_loop cur (length k.procs) 0 k

abbrev pub parent_of : ℕ → Kernel → Ptr
parent_of i k = elim (get_elem? k.procs i) [ none ↦ 0 | some p ↦ p.parent ]

abbrev pub zombie_with : ℕ → Proc → Proc
zombie_with status p = record p { xstate = status; state = ProcState.zombie }

-- `exit` of the process in slot `i`, from `acquire(&wait_lock)` to `sched`; `none` is the panic of
-- the init process.
unfoldable pub exit_state : ℕ → ℕ → Kernel → Kernel
exit_state i status k =
    let k' = reparent (suc i) k in
    let k'' = wakeup (suc i) (parent_of i k') k' in
    record k'' { procs = modify k''.procs i (zombie_with status) }

unfoldable pub exit : ℕ → ℕ → Kernel → Option Kernel
exit i status k = if suc i == k.initproc then none else some (exit_state i status k)

-- One scan of the table in `wait`.
pub data Scan : Type 0 where
  -- a zombie child, in this slot
  found : ℕ → Scan
  -- no zombie child; whether there is any child
  none_ready : Bool → Scan

abbrev pub shift_scan : Bool → Scan → Scan
shift_scan child (Scan.found i) = Scan.found (suc i)
shift_scan child (Scan.none_ready kids) = Scan.none_ready (child || kids)

unfoldable pub scan_children : Ptr → List Proc → Scan
scan_children cur [] = Scan.none_ready false
scan_children cur (p ∷ ps) =
    if (p.parent == cur) && is_zombie p.state
    then Scan.found 0
    else shift_scan (p.parent == cur) (scan_children cur ps)

-- A round of the loop of `wait`: it returns -1, returns a pid, or goes to sleep.
pub data WaitRound : Type 0 where
  error : WaitRound
  reaped : ℕ → Kernel → WaitRound
  sleeps : Kernel → WaitRound

-- `killed` is `myproc()->killed != 0`, `copied` is `addr == 0 || copyout(…) >= 0`.
abbrev pub wait_finish : Ptr → Bool → Bool → Kernel → Scan → WaitRound
wait_finish cur killed copied k (Scan.found i) =
    if copied
    then elim (get_elem? k.procs i) [
      | none ↦ WaitRound.error
      | some p ↦ WaitRound.reaped p.pid (freeproc i k)
    ]
    else WaitRound.error
wait_finish cur killed copied k (Scan.none_ready kids) =
    if not kids || killed then WaitRound.error else WaitRound.sleeps (sleep cur cur k)

unfoldable pub wait_round : Ptr → Bool → Bool → Kernel → WaitRound
unfolding scan_children
wait_round cur killed copied k = wait_finish cur killed copied k (scan_children cur k.procs)
