-- ===== src/Proc/Stride.antt =====
-- The stride scheduler of kernel/proc.c (LAB2 = STRIDE): `findMinStride`, one round of `scheduler`
-- and `set_proc_tickets` in that build. Passes and tickets are signed, compared by `slt`.
pub mod Minimum
use cs202_lab.Prelude.{
  ℕ, zero, suc, ◌+◌, ◌-◌, ◌/◌, ◌%◌, ◌^◌, Bool, true, false, not, List, [], ◌∷◌, ◌==◌, ◌&&◌, ltb,
  slt, Option, none, some, if◌then◌else◌, add32, u32_mod, modify, get_elem?,
}
use cs202_lab.Proc.{Proc, ProcState, Kernel, Ptr, is_runnable, is_unused}
use cs202_lab.Proc.Lottery.{count_set, Turn, dispatch}

abbrev pub stride_num : ℕ
stride_num = 60

-- `STRIDE_NUM / tickets` on `int`: towards zero, and -1 at 0, as the RISC-V division has it.
abbrev pub stride_of : ℕ → ℕ
stride_of t =
    if t == 0
    then u32_mod - 1
    else if ltb t (2 ^ 31)
    then stride_num / t
    else (u32_mod - stride_num / (u32_mod - t)) % u32_mod

-- `set_proc_tickets` under STRIDE.
unfoldable pub set_proc_tickets : Ptr → ℕ → Kernel → Kernel
set_proc_tickets zero n k = k
set_proc_tickets (suc i) n k = count_set (record k {
  procs =
      modify k.procs i
        (λ p. record p { tickets = n % u32_mod; stride_pass = stride_of (n % u32_mod) });
})

-- The test of the second loop against the best process so far.
abbrev pub better : Proc → Proc → Bool
better m p =
    not (is_unused p.state)
    && (is_runnable p.state && (slt 0 p.tickets && slt p.stride_pass m.stride_pass))

-- The second loop, from index `j`, with `minp` as its index and what it points to.
unfoldable pub min_loop : ℕ → Proc → ℕ → List Proc → ℕ × Proc
min_loop mi m j [] = (mi, m)
min_loop mi m j (p ∷ ps) =
    min_loop (if better m p then j else mi) (if better m p then p else m) (suc j) ps

-- The first loop, from index `i`: the first RUNNABLE process starts the second loop.
unfoldable pub find_from : ℕ → List Proc → Option (ℕ × Proc)
unfolding min_loop
find_from i [] = none
find_from i (p ∷ ps) =
    if is_runnable p.state then some (min_loop i p (suc i) ps) else find_from (suc i) ps

abbrev pub pointer : Option (ℕ × Proc) → Ptr
pointer none = 0
pointer (some (i, p)) = suc i

unfoldable pub find_min_stride : List Proc → Ptr
unfolding find_from
find_min_stride ps = pointer (find_from 0 ps)

-- One round of `scheduler` under STRIDE: with no process to run it goes round again.
abbrev pub start_stride : Proc → Proc
start_stride p = record p {
  state = ProcState.running;
  sched_cnt = add32 p.sched_cnt 1;
  stride_pass = add32 p.stride_pass (stride_of p.tickets);
}

abbrev pub stride_dispatch : Ptr → Kernel → Turn
stride_dispatch zero k = Turn.pass 0 k
stride_dispatch (suc i) k = elim (get_elem? k.procs i) [
  | none ↦ Turn.fault
  | some p ↦
      if is_runnable p.state
      then Turn.switch (suc i) (record k { procs = modify k.procs i start_stride })
      else Turn.pass (suc i) k
]

unfoldable pub stride_round : Kernel → Turn
stride_round k = stride_dispatch (find_min_stride k.procs) k
