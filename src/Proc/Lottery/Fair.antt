-- ===== src/Proc/Lottery/Fair.antt =====
-- The odds of the draw: a process wins with as many random numbers as it has tickets.
use cs202_lab.Prelude.{
  ℕ, zero, suc, ◌+◌, ◌-◌, ◌%◌, ◌<◌, ◌≤◌, ◌≡◌, refl, Bool, List, [], ◌∷◌, ◌==◌, ◌&&◌, leb, ltb,
  Option, none, some, if◌then◌else◌, u32_mod, arith, map, modify, ap, ◌∙◌, ap₂, Bool-cases, inl,
  inr, min, sym,
}
use native.Mathlib.Nat.{mod-eq_of_lt}
use cs202_lab.Proc.{Proc, Kernel, Ptr}
use cs202_lab.Proc.Lottery.{
  assign_ranges, find_holder, give_range, next_total, draw, winner_ticket, winner_or,
  calculate_procs_ticket, set_proc_tickets, clear_sched_cnt, count_set,
}
use cs202_lab.Proc.Lottery.Ranges.{
  share, shares, shares_before, share_at, is_at, sum_tickets-shares, find_holder-assign_ranges,
  find_holder-within,
}

-- The ranges and the total are those of the table as it stands, and the total fits 32 bits.
pub record IsFresh (k : Kernel) : Type 0 where
  pub ranges : assign_ranges 0 k.procs ≡ k.procs
  pub total : k.total_tickets ≡ shares k.procs
  pub small : shares k.procs < u32_mod

share-give_range : (base : ℕ) (p : Proc) → share (give_range base p) ≡ share p
share-give_range base p = ground arith

give_range_idem : (base : ℕ) (p : Proc) → give_range base (give_range base p) ≡ give_range base p
give_range_idem base p = ground arith

next_total-give_range :
    (base b : ℕ) (p : Proc) → next_total base (give_range b p) ≡ next_total base p
next_total-give_range base b p = ground arith

shares-assign_ranges : (base : ℕ) (ps : List Proc) → shares (assign_ranges base ps) ≡ shares ps
unfolding assign_ranges
shares-assign_ranges base [] = refl
shares-assign_ranges base (p ∷ ps) =
    ap₂ ◌+◌ (share-give_range base p) (shares-assign_ranges (next_total base p) ps)

assign_ranges_idem :
    (base : ℕ) (ps : List Proc) → assign_ranges base (assign_ranges base ps) ≡ assign_ranges base ps
unfolding assign_ranges
assign_ranges_idem base [] = refl
assign_ranges_idem base (p ∷ ps) =
    rw (next_total-give_range base base p)
      (ap₂ ◌∷◌ (give_range_idem base p) (assign_ranges_idem (next_total base p) ps))

give_range-clear :
    (base : ℕ) (p : Proc)
    → give_range base (clear_sched_cnt p) ≡ clear_sched_cnt (give_range base p)
give_range-clear base p = ground arith

next_total-clear : (base : ℕ) (p : Proc) → next_total base (clear_sched_cnt p) ≡ next_total base p
next_total-clear base p = ground arith

assign_ranges-clear :
    (base : ℕ) (ps : List Proc)
    → assign_ranges base (map clear_sched_cnt ps) ≡ map clear_sched_cnt (assign_ranges base ps)
unfolding assign_ranges
assign_ranges-clear base [] = refl
assign_ranges-clear base (p ∷ ps) =
    rw (next_total-clear base p)
      (ap₂ ◌∷◌ (give_range-clear base p) (assign_ranges-clear (next_total base p) ps))

share-clear : (p : Proc) → share (clear_sched_cnt p) ≡ share p
share-clear p = ground arith

shares-clear : (ps : List Proc) → shares (map clear_sched_cnt ps) ≡ shares ps
shares-clear [] = refl
shares-clear (p ∷ ps) = ap₂ ◌+◌ (share-clear p) (shares-clear ps)

-- `calculate_procs_ticket` makes any table fresh, when its tickets sum up below 2^32.
calculate-IsFresh : (k : Kernel) → shares k.procs < u32_mod → IsFresh (calculate_procs_ticket k)
unfolding calculate_procs_ticket
calculate-IsFresh k h = record {
  ranges = assign_ranges_idem 0 k.procs;
  total = omega (arith, shares-assign_ranges 0 k.procs, sum_tickets-shares 0 k.procs (omega arith));
  small = rw (shares-assign_ranges 0 k.procs) h;
}

clear-IsFresh :
    (k : Kernel) (n : ℕ)
    → IsFresh k
    → IsFresh (record k { set_cnt = n; procs = map clear_sched_cnt k.procs })
clear-IsFresh k n v = record {
  ranges = assign_ranges-clear 0 k.procs ∙ ap (map clear_sched_cnt) v.ranges;
  total = rw (shares-clear k.procs) v.total;
  small = rw (shares-clear k.procs) v.small;
}

count_set-IsFresh : (k : Kernel) → IsFresh k → IsFresh (count_set k)
count_set-IsFresh k v = elim (Bool-cases ((k.set_cnt + 1) % u32_mod == 3)) [
  | inl e ↦ rw e (clear-IsFresh k 3 v)
  | inr e ↦ rw e (record { ranges = v.ranges; total = v.total; small = v.small })
]

-- Setting a process's tickets makes the ranges and the total those of the new table, from whatever
-- state, as long as the tickets that take part sum up below 2^32.
pub set_proc_tickets-IsFresh :
    (i n : ℕ) (k : Kernel)
    → shares (modify k.procs i (λ p. record p { tickets = n % u32_mod })) < u32_mod
    → IsFresh (set_proc_tickets (suc i) n k)
unfolding set_proc_tickets
set_proc_tickets-IsFresh i n k h =
    let k' = record k { procs = modify k.procs i (λ p. record p { tickets = n % u32_mod }) } in
    count_set-IsFresh _ (calculate-IsFresh k' h)

-- How many numbers below `n` pass a test.
unfoldable pub count_below : ℕ → (ℕ → Bool) → ℕ
count_below zero test = 0
count_below (suc n) test = (if test n then 1 else 0) + count_below n test

count_below-interval :
    (n a b : ℕ) → a ≤ b → count_below n (λ r. leb a r && ltb r b) ≡ min n b - min n a
unfolding count_below
count_below-interval zero a b h = omega arith
count_below-interval (suc n) a b h = ground (arith, count_below-interval n a b h)

count_below-congr :
    (n : ℕ) (f g : ℕ → Bool) → ((r : ℕ) → r < n → f r ≡ g r) → count_below n f ≡ count_below n g
unfolding count_below
count_below-congr zero f g h = refl
count_below-congr (suc n) f g h =
    ap₂ (λ b m. (if b then 1 else 0) + m) (h n (omega arith))
      (count_below-congr n f g (λ r l. h r (omega arith)))

shares_before-add-share_at :
    (i : ℕ) (ps : List Proc) → shares_before i ps + share_at i ps ≤ shares ps
shares_before-add-share_at i [] = omega arith
shares_before-add-share_at zero (p ∷ ps) = omega arith
shares_before-add-share_at (suc i) (p ∷ ps) = omega (arith, shares_before-add-share_at i ps)

pub winner_ticket-small :
    (r : ℕ) (k : Kernel)
    → r < k.total_tickets
    → k.total_tickets < u32_mod
    → winner_ticket r k ≡ r + 1
winner_ticket-small r k h s = rw (mod-eq_of_lt h) (omega arith)

-- On a fresh table every draw finds the holder of its ticket.
pub draw_found :
    (r : ℕ) (k : Kernel)
    → IsFresh k
    → r < k.total_tickets
    → (i : ℕ) × (find_holder (winner_ticket r k) k.procs ≡ some i)
draw_found r k v h =
    rw (winner_ticket-small r k h (omega (arith, v.total, v.small)), ← v.ranges)
      (find_holder-within 0 r k.procs (omega (arith, v.small)) (omega arith)
        (omega (arith, v.total)))

pub is_at-holder :
    (i r : ℕ) (k : Kernel)
    → IsFresh k
    → r < k.total_tickets
    → is_at i (find_holder (winner_ticket r k) k.procs)
      ≡ (leb (shares_before i k.procs) r && ltb r (shares_before i k.procs + share_at i k.procs))
is_at-holder i r k v h = rw (winner_ticket-small r k h (omega (arith, v.total, v.small))) (
    ap (λ ps. is_at i (find_holder (r + 1) ps)) (sym v.ranges)
    ∙ find_holder-assign_ranges i 0 r k.procs (omega (arith, v.small))
    ∙ ground arith)

winner_or-eq-is_at :
    (p : Ptr) (i : ℕ) (o : Option ℕ) {j : ℕ} → o ≡ some j → (winner_or p o == suc i) ≡ is_at i o
winner_or-eq-is_at p i none e = cc
winner_or-eq-is_at p i (some j) e = ground arith

pub draw-interval :
    (prior : Ptr) (i r : ℕ) (k : Kernel)
    → IsFresh k
    → r < k.total_tickets
    → (draw r prior k == suc i)
      ≡ (leb (shares_before i k.procs) r && ltb r (shares_before i k.procs + share_at i k.procs))
unfolding draw
draw-interval prior i r k v h =
    winner_or-eq-is_at prior i (find_holder (winner_ticket r k) k.procs) (draw_found r k v h).1
    ∙ is_at-holder i r k v h

-- The lottery is fair. On a fresh table, of the `total_tickets` residues that a random number can
-- leave, exactly as many draw process `i` as it has tickets (none if it is UNUSED or has none),
-- whatever the scheduler's `p` was before.
pub draw_fair :
    (prior : Ptr) (i : ℕ) (k : Kernel)
    → IsFresh k
    → count_below k.total_tickets (λ r. draw r prior k == suc i) ≡ share_at i k.procs
draw_fair prior i k v =
    count_below-congr k.total_tickets _ _ (λ r h. draw-interval prior i r k v h)
    ∙ count_below-interval k.total_tickets (shares_before i k.procs)
        (shares_before i k.procs + share_at i k.procs) (omega arith)
    ∙ omega (arith, shares_before-add-share_at i k.procs, v.total)
