-- ===== src/Proc/Tests.antt =====
-- Runs of the process table's functions, and the theorems at concrete tables.
use cs202_lab.Prelude.{
  ℕ, zero, suc, ◌≡◌, refl, true, false, not, [], ◌∷◌, ◌==◌, some, arith, get_elem?, all_of, map,
  ◌&&◌, ◌⊎◌, inl, inr,
}
use cs202_lab.Proc.{
  Proc, ProcState, Kernel, Ptr, holds_tickets, is_runnable, is_unused, is_zombie, is_sleeping,
}
use cs202_lab.Proc.Lottery.{
  assign_ranges, set_proc_tickets, rand_int, find_holder, draw, Turn, dispatch, lottery_round,
}
use cs202_lab.Proc.Lottery.Fair.{IsFresh, count_below, draw_fair}
use cs202_lab.Proc.Lottery.Round.{lottery_round-winner, TurnFor, draw-freeproc}
use cs202_lab.Proc.Alloc.{allocproc, fork, freeproc, first_unused}
use cs202_lab.Proc.Alloc.Numbers.{IsNumbered, fork-IsNumbered}
use cs202_lab.Proc.Stride.{find_min_stride}
use cs202_lab.Proc.Stride.Minimum.{find_min_stride_lem, no_better}
use cs202_lab.Proc.Life.{kill, exit, exit_state, parent_of, wait_round, WaitRound, scan_children}
use cs202_lab.Proc.Life.Wait.{IsFreed, Outcome, outcome, wait_round-reaped}
use cs202_lab.Proc.Life.Exit.{parents, adopt, exit_lem, wait_after_exit}
use cs202_lab.Proc.Life.Kill.{kill_zero_dooms}

-- A process in a state, with its number, tickets, winning range and parent.
abbrev proc : ProcState → ℕ → ℕ → ℕ → ℕ → Ptr → Proc
proc st n t lo hi par = record {
  state = st;
  chan = 0;
  killed = 0;
  xstate = 0;
  pid = n;
  sys_call_cnt = 0;
  sched_cnt = 0;
  tickets = t;
  tickets_winning_range_beginning = lo;
  tickets_winning_range_end = hi;
  stride_pass = 2;
  parent = par;
  sz = 4096;
}

abbrev unused_slot : Proc
unused_slot = record (proc ProcState.unused 0 0 0 0 0) { sz = 0; stride_pass = 0 }

-- init with 10 tickets, a RUNNABLE child with 30, and a free slot.
abbrev table : Kernel
table = record {
  procs =
      proc ProcState.running 1 10 1 10 0 ∷ proc ProcState.runnable 2 30 11 40 1 ∷ unused_slot ∷ [];
  initproc = 1;
  nextpid = 3;
  total_tickets = 40;
  set_cnt = 0;
  r_x = 37;
}

table-IsFresh : IsFresh table
unfolding assign_ranges
table-IsFresh = record { ranges = refl; total = refl; small = omega arith }

draw_low : draw 9 0 table ≡ 1
unfolding draw find_holder
draw_low = refl

draw_high : draw 50 0 table ≡ 2
unfolding draw find_holder
draw_high = refl

draw_fair_example : count_below 40 (λ r. draw r 0 table == 2) ≡ 30
draw_fair_example = draw_fair 0 1 table table-IsFresh

lottery_round-winner_example :
    (i : ℕ) × (p : Proc) × (get_elem? table.procs i ≡ some p)
    × (holds_tickets p ≡ true)
    × (draw (rand_int table).1 0 (rand_int table).0 ≡ suc i)
    × TurnFor i p (rand_int table).0 (lottery_round 0 table)
lottery_round-winner_example = lottery_round-winner 0 table table-IsFresh (omega arith)

-- Ticket 21 was the child's; once it is freed, nobody holds it and `p` stays null.
draw-freeproc_example : draw 20 0 (freeproc 1 table) ≡ 0
unfolding draw find_holder
draw-freeproc_example = draw-freeproc 0 1 20 table table-IsFresh (omega arith) refl

-- A fault of the scheduler that the stale total leads to.
stale_fault : dispatch (draw 20 0 (freeproc 1 table)) (freeproc 1 table) ≡ Turn.fault
unfolding draw find_holder freeproc dispatch
stale_fault = refl

-- The slots of the table that are in use, and their numbers.
table_live :
    (i : ℕ) (p : Proc)
    → get_elem? table.procs i ≡ some p
    → is_unused p.state ≡ false
    → ((i ≡ 0) × (p.pid ≡ 1)) ⊎ ((i ≡ 1) × (p.pid ≡ 2))
table_live zero p at live = inl (refl, ground arith)
table_live (suc zero) p at live = inr (refl, ground arith)
table_live (suc (suc zero)) p at live = absurd (ground arith)
table_live (suc (suc (suc i))) p at live = absurd (ground arith)

table-IsNumbered : IsNumbered table
table-IsNumbered = record {
  bounded = λ i p at live. elim (table_live i p at live) [
    | inl (_, n) ↦ (omega arith, omega arith)
    | inr (_, n) ↦ (omega arith, omega arith)
  ];
  apart = λ i j p q atp atq livep liveq same. elim (table_live i p atp livep) [
    | inl (hi, n) ↦ elim (table_live j q atq liveq) [
      | inl (hj, m) ↦ omega arith
      | inr (hj, m) ↦ absurd (omega arith)
    ]
    | inr (hi, n) ↦ elim (table_live j q atq liveq) [
      | inl (hj, m) ↦ absurd (omega arith)
      | inr (hj, m) ↦ omega arith
    ]
  ];
  started = omega arith;
}

fork-IsNumbered_example : IsNumbered (fork 2 true true false table).0
fork-IsNumbered_example = fork-IsNumbered 2 true true false table (omega arith) table-IsNumbered

fork_run : (fork 2 true true true table).1 ≡ some 3
unfolding fork set_proc_tickets assign_ranges
fork_run = refl

find_min_stride_lem_example :
    ((find_min_stride table.procs ≡ 0)
      × (all_of (λ p. not (is_runnable p.state)) table.procs ≡ true))
    ⊎ ((i : ℕ) × (m : Proc) × (find_min_stride table.procs ≡ suc i)
        × (get_elem? table.procs i ≡ some m)
        × (is_runnable m.state ≡ true)
        × (all_of (no_better m) table.procs ≡ true))
find_min_stride_lem_example = find_min_stride_lem table.procs

-- The child has exited.
abbrev after_exit : Kernel
after_exit = record table {
  procs =
      proc ProcState.running 1 10 1 10 0 ∷ proc ProcState.zombie 2 30 11 40 1 ∷ unused_slot ∷ [];
}

reap_run : wait_round 1 false true after_exit ≡ WaitRound.reaped 2 (freeproc 1 after_exit)
unfolding wait_round scan_children freeproc
reap_run = refl

wait_round-reaped_example :
    (i : ℕ) × (p : Proc) × (get_elem? after_exit.procs i ≡ some p)
    × (p.parent ≡ 1)
    × (is_zombie p.state ≡ true)
    × (2 ≡ p.pid)
    × IsFreed i p after_exit (freeproc 1 after_exit)
wait_round-reaped_example = wait_round-reaped 1 false true after_exit reap_run

wait_after_exit_example :
    outcome (wait_round (parent_of 1 (exit_state 1 7 table)) false true (exit_state 1 7 table))
    ≡ Outcome.reaps
wait_after_exit_example = wait_after_exit 1 7 table false (omega arith)

exit_lem_example :
    (k' : Kernel) × (p : Proc) × (exit 1 7 table ≡ some k')
    × (get_elem? k'.procs 1 ≡ some p)
    × (is_zombie p.state ≡ true)
    × (p.xstate ≡ 7)
    × (parents k' ≡ map (adopt 2 1) (parents table))
    × (all_of (λ q. not (is_sleeping q.state && (q.chan == parent_of 1 k'))) k'.procs ≡ true)
exit_lem_example = exit_lem 1 7 table (omega arith) (λ (e : 2 ≡ 1). omega arith)

kill_zero_dooms_example :
    ((kill 0 table).1 ≡ true)
    × ((allocproc true true (kill 0 table).0).1 ≡ suc 2)
    × (q : Proc) × (get_elem? (allocproc true true (kill 0 table).0).0.procs 2 ≡ some q)
    × (q.killed ≡ 1)
kill_zero_dooms_example = kill_zero_dooms table 2 refl (unfold first_unused in refl)
