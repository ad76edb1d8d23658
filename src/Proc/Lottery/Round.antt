-- ===== src/Proc/Lottery/Round.antt =====
-- One round of the lottery scheduler, and the draws that a freed process leaves without a winner.
use native.Mathlib.Nat.{mod-lt, mod-eq_of_lt}
use cs202_lab.Prelude.{
  ℕ, zero, suc, ◌+◌, ◌%◌, ◌<◌, ◌≤◌, ◌≡◌, refl, true, List, [], ◌∷◌, none, some, if◌then◌else◌,
  u32_mod, arith, modify, get_elem?, ap, ◌∙◌, sym,
}
use cs202_lab.Proc.{Proc, Kernel, Ptr, holds_tickets, is_runnable}
use cs202_lab.Proc.Lottery.{
  assign_ranges, find_holder, draw, winner_ticket, Turn, dispatch, lottery_round, rand_int,
  start_running,
}
use cs202_lab.Proc.Lottery.Ranges.{
  share, shares, shares_before, share_at, find_holder-holds, find_holder-below, head_wins,
  next_total-share,
}
use cs202_lab.Proc.Lottery.Fair.{IsFresh, draw_found, draw-interval, winner_ticket-small}
use cs202_lab.Proc.Alloc.{cleared, freeproc}

-- A random number counts modulo the total.
winner_ticket-mod :
    (r : ℕ) (k : Kernel)
    → 0 < k.total_tickets
    → winner_ticket r k ≡ winner_ticket (r % k.total_tickets) k
winner_ticket-mod r k h =
    rw (mod-eq_of_lt {n = r % k.total_tickets} {m = k.total_tickets} (mod-lt r h)) refl

rand_int-IsFresh : (k : Kernel) → IsFresh k → IsFresh (rand_int k).0
unfolding rand_int
rand_int-IsFresh k v = record { ranges = v.ranges; total = v.total; small = v.small }

-- `rand_int` leaves the table alone.
procs-rand_int : (k : Kernel) → (rand_int k).0.procs ≡ k.procs
unfolding rand_int
procs-rand_int k = refl

total_tickets-rand_int : (k : Kernel) → (rand_int k).0.total_tickets ≡ k.total_tickets
unfolding rand_int
total_tickets-rand_int k = refl

draw_holder :
    (r : ℕ) (prior : Ptr) (k : Kernel) {i : ℕ}
    → find_holder (winner_ticket r k) k.procs ≡ some i
    → draw r prior k ≡ suc i
unfolding draw
draw_holder r prior k e = rw e

-- What a round with winner `i` does.
abbrev pub TurnFor : ℕ → Proc → Kernel → Turn → Type 0
TurnFor i p k t = t ≡ (
    if is_runnable p.state
    then Turn.switch (suc i) (record k { procs = modify k.procs i start_running })
    else Turn.pass (suc i) k)

dispatch-TurnFor :
    (i : ℕ) (k : Kernel) {p : Proc}
    → get_elem? k.procs i ≡ some p
    → TurnFor i p k (dispatch (suc i) k)
unfolding dispatch
dispatch-TurnFor i k e = rw (e, dispatch)

draw-none :
    (r : ℕ) (prior : Ptr) (k : Kernel)
    → find_holder (winner_ticket r k) k.procs ≡ none
    → draw r prior k ≡ prior
unfolding draw
draw-none r prior k e = rw e

draw_winner :
    (r : ℕ) (prior : Ptr) (k : Kernel)
    → IsFresh k
    → 0 < k.total_tickets
    → (i : ℕ) × (p : Proc) × (get_elem? k.procs i ≡ some p)
      × (holds_tickets p ≡ true)
      × (draw r prior k ≡ suc i)
draw_winner r prior k v h =
    let (i, e) = draw_found (r % k.total_tickets) k v (mod-lt r h) in
    let e' = winner_ticket-mod r k h in
    let (p, at, holds) = find_holder-holds _ k.procs e in
    (i, p, at, holds, draw_holder r prior k (rw e' e))

-- With a fresh table and at least one ticket in play, a round never faults, whatever the
-- scheduler's `p` held: the random number picks a process that is not UNUSED and has tickets;
-- that process runs, with one more run counted, if it is RUNNABLE, and else nothing changes but
-- the state of the generator.
pub lottery_round-winner :
    (prior : Ptr) (k : Kernel)
    → IsFresh k
    → 0 < k.total_tickets
    → (i : ℕ) × (p : Proc) × (get_elem? k.procs i ≡ some p)
      × (holds_tickets p ≡ true)
      × (draw (rand_int k).1 prior (rand_int k).0 ≡ suc i)
      × TurnFor i p (rand_int k).0 (lottery_round prior k)
unfolding lottery_round
lottery_round-winner prior k v h =
    let k' = (rand_int k).0 in
    let r = (rand_int k).1 in
    let (i, p, at, holds, e) =
      draw_winner r prior k' (rand_int-IsFresh k v) (rw total_tickets-rand_int h) in
    (i, p, (rw procs-rand_int at at), holds, e, rw e (dispatch-TurnFor i k' at))

find_holder-freed :
    (i base r : ℕ) (ps : List Proc)
    → base + shares ps < u32_mod
    → base + shares_before i ps ≤ r
    → r < base + shares_before i ps + share_at i ps
    → find_holder (r + 1) (modify (assign_ranges base ps) i cleared) ≡ none
unfolding find_holder assign_ranges
find_holder-freed i base r [] h le lt = refl
find_holder-freed zero base r (p ∷ ps) h le lt =
    rw (next_total-share base p (omega arith))
      (rw (find_holder-below (base + share p) r ps (omega arith) (omega arith)) refl)
find_holder-freed (suc i) base r (p ∷ ps) h le lt =
    rw (head_wins base r p (omega arith), next_total-share base p (omega arith))
      (ground (arith, find_holder-freed i (base + share p) r ps))

-- `freeproc` leaves the ranges and the total as they were. After it every random number that would
-- have drawn the freed process draws nobody, and the scheduler is left with the `p` of its round
-- before, at the first round the null pointer.
pub draw-freeproc :
    (prior : Ptr) (i r : ℕ) (k : Kernel)
    → IsFresh k
    → r < k.total_tickets
    → draw r prior k ≡ suc i
    → draw r prior (freeproc i k) ≡ prior
unfolding freeproc
draw-freeproc prior i r k v h e =
    draw-none r prior (freeproc i k) (rw (freeproc, winner_ticket-small r k h small) freed)
  where
    small : k.total_tickets < u32_mod
    small = omega (arith, v.total, v.small)

    within : (shares_before i k.procs ≤ r) × (r < shares_before i k.procs + share_at i k.procs)
    within = ground (arith, draw-interval prior i r k v h)

    freed : find_holder (r + 1) (modify k.procs i cleared) ≡ none
    freed =
        ap (λ ps. find_holder (r + 1) (modify ps i cleared)) (sym v.ranges)
        ∙ find_holder-freed i 0 r k.procs (omega (arith, v.small)) (omega (arith, within.0))
            (omega (arith, within.1))
