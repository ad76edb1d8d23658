-- ===== src/Proc/Alloc/Slot.antt =====
-- What claiming a slot does to the table: the fields of each process across `set_proc_tickets` and
-- `allocproc`, and that process numbers stay apart.
use cs202_lab.Prelude.{
  ℕ, zero, suc, ◌%◌, ◌<◌, ◌≡◌, ◌≢◌, refl, true, false, List, [], ◌∷◌, ◌==◌, some, arith, get_elem?,
  modify, map, u32_mod, Bool-cases, inl, inr, add32, ◌∙◌, Option-cases, ◌⊎◌, modify-origin, length,
  length-map, length-modify, ap,
}
use cs202_lab.Proc.{Proc, Kernel, is_unused}
use cs202_lab.Proc.Lottery.{
  assign_ranges, give_range, next_total, calculate_procs_ticket, clear_sched_cnt, count_set,
  set_proc_tickets,
}
use cs202_lab.Proc.Alloc.{first_unused, claim}

-- Two versions of a process that differ at most in the run count and the winning range.
pub record SameCore (p q : Proc) : Type 0 where
  pub state : q.state ≡ p.state
  pub pid : q.pid ≡ p.pid
  pub killed : q.killed ≡ p.killed
  pub tickets : q.tickets ≡ p.tickets
  pub parent : q.parent ≡ p.parent

SameCore-give_range : (b : ℕ) (p : Proc) → SameCore p (give_range b p)
SameCore-give_range b p = ground arith

SameCore-clear : (p : Proc) → SameCore p (clear_sched_cnt p)
SameCore-clear p = ground arith

SameCore-trans : {p q r : Proc} → SameCore p q → SameCore q r → SameCore p r
SameCore-trans a b = record {
  state = b.state ∙ a.state;
  pid = b.pid ∙ a.pid;
  killed = b.killed ∙ a.killed;
  tickets = b.tickets ∙ a.tickets;
  parent = b.parent ∙ a.parent;
}

-- The process that stood at an index before, with the same core.
abbrev pub CameFrom : List Proc → ℕ → Proc → Type 0
CameFrom ps j q = (p : Proc) × (get_elem? ps j ≡ some p) × SameCore p q

assign_ranges-CameFrom :
    (b : ℕ) (ps : List Proc) (j : ℕ) {q : Proc}
    → get_elem? (assign_ranges b ps) j ≡ some q
    → CameFrom ps j q
unfolding assign_ranges
assign_ranges-CameFrom b [] j e = cc
assign_ranges-CameFrom b (p ∷ ps) zero {q} e = (p, refl, ground (arith, SameCore-give_range b p))
assign_ranges-CameFrom b (p ∷ ps) (suc j) e = assign_ranges-CameFrom (next_total b p) ps j e

clear-CameFrom :
    (ps : List Proc) (j : ℕ) {q : Proc}
    → get_elem? (map clear_sched_cnt ps) j ≡ some q
    → CameFrom ps j q
clear-CameFrom [] j e = cc
clear-CameFrom (p ∷ ps) zero e = (p, refl, ground (arith, SameCore-clear p))
clear-CameFrom (p ∷ ps) (suc j) e = clear-CameFrom ps j e

count_set-CameFrom :
    (k : Kernel) (j : ℕ) {q : Proc}
    → get_elem? (count_set k).procs j ≡ some q
    → CameFrom k.procs j q
count_set-CameFrom k j {q} e = elim (Bool-cases (add32 k.set_cnt 1 == 3)) [
  | inl h ↦ clear-CameFrom k.procs j (rw h at e)
  | inr h ↦ (
    q,
    (rw h at e),
    record { state = refl; pid = refl; killed = refl; tickets = refl; parent = refl },
  )
]

-- A process of the table after `set_proc_tickets` was in the table before, the target with its old
-- tickets.
pub set_proc_tickets-CameFrom :
    (i n : ℕ) (k : Kernel) (j : ℕ) {q : Proc}
    → get_elem? (set_proc_tickets (suc i) n k).procs j ≡ some q
    → CameFrom (modify k.procs i (λ p. record p { tickets = n % u32_mod })) j q
unfolding set_proc_tickets calculate_procs_ticket
set_proc_tickets-CameFrom i n k j e =
    let (p, at, same) =
      count_set-CameFrom
        (calculate_procs_ticket
          (record k { procs = modify k.procs i (λ p. record p { tickets = n % u32_mod }) }))
        j e in
    let (p', at', same') = assign_ranges-CameFrom 0 _ j at in (p', at', SameCore-trans same' same)

pub first_unused-is_unused :
    (ps : List Proc) (i : ℕ) {p : Proc}
    → first_unused ps ≡ some i
    → get_elem? ps i ≡ some p
    → is_unused p.state ≡ true
unfolding first_unused
first_unused-is_unused [] i e at = cc
first_unused-is_unused (p ∷ ps) zero e at = elim (Bool-cases (is_unused p.state)) [
  | inl h ↦ ground arith
  | inr h ↦ elim (Option-cases (first_unused ps)) [
    | inl n ↦ absurd (ground arith)
    | inr (j, f) ↦ absurd (ground arith)
  ]
]
first_unused-is_unused (p ∷ ps) (suc i) e at = elim (Bool-cases (is_unused p.state)) [
  | inl h ↦ absurd (ground arith)
  | inr h ↦ elim (Option-cases (first_unused ps)) [
    | inl n ↦ absurd (ground arith)
    | inr (j, f) ↦ first_unused-is_unused ps i (ground arith) at
  ]
]

-- Where a process of the claimed table comes from: it is the new one, or an old one.
pub claim-CameFrom :
    (i : ℕ) (k : Kernel) (j : ℕ) {q : Proc}
    → get_elem? (claim i k).procs j ≡ some q
    → ((j ≡ i)
        × (x : Proc) × (get_elem? k.procs i ≡ some x)
        × (q.pid ≡ k.nextpid)
        × (is_unused q.state ≡ false)
        × (q.killed ≡ x.killed))
      ⊎ ((j ≢ i)
          × (p : Proc) × (get_elem? k.procs j ≡ some p)
          × (q.state ≡ p.state)
          × (q.pid ≡ p.pid))
unfolding claim
claim-CameFrom i k j e =
    let (p, at, same) = set_proc_tickets-CameFrom i 10 _ j e in
    elim (modify-origin _ i j _ at) [
      | inl (here, x, at', eq) ↦ elim (modify-origin k.procs i i _ at') [
        | inl (_, y, at'', eq') ↦ inl (
          here,
          y,
          at'',
          ground (arith, same.pid),
          ground (arith, same.state),
          ground (arith, same.killed),
        )
        | inr (ne, _) ↦ absurd (ne refl)
      ]
      | inr (ne, at') ↦ elim (modify-origin k.procs i j _ at') [
        | inl (here, _, _, _) ↦ absurd (ne here)
        | inr (_, at'') ↦ inr (ne, p, at'', same.state, same.pid)
      ]
    ]

length-assign_ranges : (b : ℕ) (ps : List Proc) → length (assign_ranges b ps) ≡ length ps
unfolding assign_ranges
length-assign_ranges b [] = refl
length-assign_ranges b (p ∷ ps) = ap suc (length-assign_ranges (next_total b p) ps)

length-count_set : (k : Kernel) → length (count_set k).procs ≡ length k.procs
length-count_set k = elim (Bool-cases (add32 k.set_cnt 1 == 3)) [
  | inl h ↦ rw h (length-map clear_sched_cnt k.procs)
  | inr h ↦ rw h refl
]

pub length-claim : (i : ℕ) (k : Kernel) → length (claim i k).procs ≡ length k.procs
unfolding claim set_proc_tickets calculate_procs_ticket
length-claim i k =
    length-count_set _ ∙ length-assign_ranges 0 _ ∙ length-modify _ i _ ∙ length-modify k.procs i _

pub first_unused-lt : (ps : List Proc) (i : ℕ) → first_unused ps ≡ some i → i < length ps
unfolding first_unused
first_unused-lt [] i e = absurd (ground arith)
first_unused-lt (p ∷ ps) zero e = omega arith
first_unused-lt (p ∷ ps) (suc i) e = elim (Bool-cases (is_unused p.state)) [
  | inl h ↦ absurd (ground arith)
  | inr h ↦ elim (Option-cases (first_unused ps)) [
    | inl n ↦ absurd (ground arith)
    | inr (j, f) ↦ omega (arith, first_unused-lt ps i (ground arith))
  ]
]
