-- ===== src/Proc/Lottery.antt =====
-- The lottery scheduler of kernel/proc.c (the build's LAB2 = LOTTERY): ticket ranges, the draw, and
-- one round of `scheduler`.
pub mod Ranges
pub mod Fair
pub mod Round
use Prim.Native.Nat.{bit_xor}
use mathlib.Core.Option
use cs202_lab.Prelude.{
  ℕ, zero, suc, ◌+◌, ◌*◌, ◌/◌, ◌%◌, ◌^◌, Bool, true, false, List, [], ◌∷◌, ◌==◌, ◌&&◌, ◌||◌, leb,
  Option, none, some, if◌then◌else◌, add32, u32_mod, modify, get_elem?, map,
}
use cs202_lab.Proc.{
  Proc, ProcState, Kernel, Ptr, holds_tickets, is_runnable, is_running, is_sleeping,
}

-- The body of the loop of `calculate_procs_ticket` for one process, from the running total.
abbrev pub give_range : ℕ → Proc → Proc
give_range total p =
    if holds_tickets p
    then record p {
      tickets_winning_range_beginning = add32 total 1;
      tickets_winning_range_end = add32 total p.tickets;
    }
    else p

abbrev pub next_total : ℕ → Proc → ℕ
next_total total p = if holds_tickets p then add32 total p.tickets else total

unfoldable pub assign_ranges : ℕ → List Proc → List Proc
assign_ranges total [] = []
assign_ranges total (p ∷ ps) = give_range total p ∷ assign_ranges (next_total total p) ps

unfoldable pub sum_tickets : ℕ → List Proc → ℕ
sum_tickets total [] = total
sum_tickets total (p ∷ ps) = sum_tickets (next_total total p) ps

unfoldable pub calculate_procs_ticket : Kernel → Kernel
calculate_procs_ticket k = record k {
  procs = assign_ranges 0 k.procs;
  total_tickets = sum_tickets 0 k.procs;
}

-- The reset of `schedCnt` at the third call.
abbrev pub clear_sched_cnt : Proc → Proc
clear_sched_cnt p =
    if is_runnable p.state || is_running p.state || is_sleeping p.state
    then record p { sched_cnt = 0 }
    else p

abbrev pub count_set : Kernel → Kernel
count_set k =
    if add32 k.set_cnt 1 == 3
    then record k { set_cnt = 3; procs = map clear_sched_cnt k.procs }
    else record k { set_cnt = add32 k.set_cnt 1 }

-- `set_proc_tickets` under LOTTERY. The null pointer is reported and ignored.
unfoldable pub set_proc_tickets : Ptr → ℕ → Kernel → Kernel
unfolding calculate_procs_ticket
set_proc_tickets zero n k = k
set_proc_tickets (suc i) n k = count_set (
    calculate_procs_ticket
      (record k { procs = modify k.procs i (λ p. record p { tickets = n % u32_mod }) }))

-- `rand_int`: Marsaglia's xorshift on 32 bits.
abbrev pub xor_shl : ℕ → ℕ → ℕ
xor_shl x s = bit_xor x (x * 2 ^ s % u32_mod)

abbrev pub xor_shr : ℕ → ℕ → ℕ
xor_shr x s = bit_xor x (x / 2 ^ s)

unfoldable pub rand_int : Kernel → Kernel × ℕ
rand_int k = let x = xor_shl (xor_shr (xor_shl k.r_x 13) 17) 5 in (record k { r_x = x }, x)

-- The test of the search loop: `p` takes part, and its range holds ticket `w`.
abbrev pub in_range : ℕ → Proc → Bool
in_range w p =
    holds_tickets p
    && (leb p.tickets_winning_range_beginning w && leb w p.tickets_winning_range_end)

-- The loop that looks for the holder of a ticket: the index of the first process in range.
unfoldable pub find_holder : ℕ → List Proc → Option ℕ
find_holder w [] = none
find_holder w (p ∷ ps) = if in_range w p then some 0 else Option.map suc (find_holder w ps)

-- The draw of `scheduler`. The local `p` keeps its value when no process holds the ticket.
-- `n % 0` is `n`, as the RISC-V remainder instruction has it.
abbrev pub winner_ticket : ℕ → Kernel → ℕ
winner_ticket random k = (random % k.total_tickets + 1) % u32_mod

abbrev pub winner_or : Ptr → Option ℕ → Ptr
winner_or p none = p
winner_or p (some i) = suc i

unfoldable pub draw : ℕ → Ptr → Kernel → Ptr
draw random p k = winner_or p (find_holder (winner_ticket random k) k.procs)

-- One round of the loop of `scheduler`, up to `swtch`.
pub data Turn : Type 0 where
  -- `acquire(&p->lock)` through the null pointer
  fault : Turn
  -- the winner is not RUNNABLE: the round ends
  pass : Ptr → Kernel → Turn
  -- `swtch` to the winner
  switch : Ptr → Kernel → Turn

abbrev pub start_running : Proc → Proc
start_running p = record p { state = ProcState.running; sched_cnt = add32 p.sched_cnt 1 }

unfoldable pub dispatch : Ptr → Kernel → Turn
dispatch zero k = Turn.fault
dispatch (suc i) k = elim (get_elem? k.procs i) [
  | none ↦ Turn.fault
  | some p ↦
      if is_runnable p.state
      then Turn.switch (suc i) (record k { procs = modify k.procs i start_running })
      else Turn.pass (suc i) k
]

unfoldable pub lottery_round : Ptr → Kernel → Turn
lottery_round p k = let (k', random) = rand_int k in dispatch (draw random p k') k'
