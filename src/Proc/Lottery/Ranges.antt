-- ===== src/Proc/Lottery/Ranges.antt =====
-- Which tickets win for which process, after `calculate_procs_ticket`.
use mathlib.Core.Option
use cs202_lab.Prelude.{
  ℕ, zero, suc, ◌+◌, ◌<◌, ◌≤◌, ◌≡◌, refl, Bool, true, false, List, [], ◌∷◌, ◌==◌, ◌&&◌, leb, ltb,
  Option, none, some, if◌then◌else◌, u32_mod, arith, Bool-cases, Option-cases, inl, inr, get_elem?,
  ◌∙◌,
}
use cs202_lab.Proc.{Proc, holds_tickets}
use cs202_lab.Proc.Lottery.{
  assign_ranges, sum_tickets, find_holder, give_range, next_total, in_range,
}

-- The tickets with which a process takes part in the draw.
abbrev pub share : Proc → ℕ
share p = if holds_tickets p then p.tickets else 0

abbrev pub shares : List Proc → ℕ
shares [] = 0
shares (p ∷ ps) = share p + shares ps

-- The shares of the processes before index `i`, and the share at it.
abbrev pub shares_before : ℕ → List Proc → ℕ
shares_before i [] = 0
shares_before zero (p ∷ ps) = 0
shares_before (suc i) (p ∷ ps) = share p + shares_before i ps

abbrev pub share_at : ℕ → List Proc → ℕ
share_at i [] = 0
share_at zero (p ∷ ps) = share p
share_at (suc i) (p ∷ ps) = share_at i ps

abbrev pub is_at : ℕ → Option ℕ → Bool
is_at i none = false
is_at i (some j) = j == i

pub next_total-share :
    (base : ℕ) (p : Proc) → base + share p < u32_mod → next_total base p ≡ base + share p
next_total-share base p h = ground arith

pub sum_tickets-shares :
    (base : ℕ) (ps : List Proc)
    → base + shares ps < u32_mod
    → sum_tickets base ps ≡ base + shares ps
unfolding sum_tickets
sum_tickets-shares base [] h = omega arith
sum_tickets-shares base (p ∷ ps) h =
    rw (next_total-share base p (omega arith))
      (sum_tickets-shares (base + share p) ps (omega arith) ∙ omega arith)

-- Ticket `r + 1` is held by the process at `i` exactly when it lies in that process's share.
pub head_wins :
    (base r : ℕ) (p : Proc)
    → base + share p < u32_mod
    → in_range (r + 1) (give_range base p) ≡ (leb base r && ltb r (base + share p))
head_wins base r p h = ground arith

is_at-suc_zero : (o : Option ℕ) → is_at 0 (Option.map suc o) ≡ false
is_at-suc_zero none = refl
is_at-suc_zero (some j) = ground arith

is_at-suc-suc : (i : ℕ) (o : Option ℕ) → is_at (suc i) (Option.map suc o) ≡ is_at i o
is_at-suc-suc i none = refl
is_at-suc-suc i (some j) = ground arith

pub find_holder-assign_ranges :
    (i base r : ℕ) (ps : List Proc)
    → base + shares ps < u32_mod
    → is_at i (find_holder (r + 1) (assign_ranges base ps))
      ≡ (leb (base + shares_before i ps) r && ltb r (base + shares_before i ps + share_at i ps))
unfolding find_holder assign_ranges
find_holder-assign_ranges i base r [] h = ground arith
find_holder-assign_ranges zero base r (p ∷ ps) h =
    rw (head_wins base r p (omega arith))
      (ground (arith, is_at-suc_zero (find_holder (r + 1) (assign_ranges (next_total base p) ps))))
find_holder-assign_ranges (suc i) base r (p ∷ ps) h =
    rw (head_wins base r p (omega arith), next_total-share base p (omega arith))
      (ground (
        arith,
        is_at-suc-suc i (find_holder (r + 1) (assign_ranges (base + share p) ps)),
        find_holder-assign_ranges i (base + share p) r ps,
      ))

-- A ticket up to the base is held by nobody.
pub find_holder-below :
    (base r : ℕ) (ps : List Proc)
    → base + shares ps < u32_mod
    → r < base
    → find_holder (r + 1) (assign_ranges base ps) ≡ none
unfolding find_holder assign_ranges
find_holder-below base r [] h lt = refl
find_holder-below base r (p ∷ ps) h lt =
    rw (head_wins base r p (omega arith), next_total-share base p (omega arith))
      (ground (arith, find_holder-below (base + share p) r ps))

-- A ticket within the total is held by somebody.
pub find_holder-within :
    (base r : ℕ) (ps : List Proc)
    → base + shares ps < u32_mod
    → base ≤ r
    → r < base + shares ps
    → (i : ℕ) × (find_holder (r + 1) (assign_ranges base ps) ≡ some i)
unfolding find_holder assign_ranges
find_holder-within base r [] h le lt = absurd (omega arith)
find_holder-within base r (p ∷ ps) h le lt =
    rw (head_wins base r p (omega arith), next_total-share base p (omega arith))
      (elim (Bool-cases (ltb r (base + share p))) [
        | inl e ↦ (0, ground arith)
        | inr e ↦
            let (j, f) =
              find_holder-within (base + share p) r ps (omega arith) (ground arith) (omega arith) in
            (suc j, ground arith)
      ])

-- What the loop finds is in the table and takes part in the draw.
pub find_holder-holds :
    (w : ℕ) (ps : List Proc) {i : ℕ}
    → find_holder w ps ≡ some i
    → (p : Proc) × (get_elem? ps i ≡ some p) × (holds_tickets p ≡ true)
unfolding find_holder
find_holder-holds w [] h = cc
find_holder-holds w (p ∷ ps) {i} h = elim (Bool-cases (in_range w p)) [
  | inl e ↦ (p, ground arith, ground arith)
  | inr e ↦ elim (Option-cases (find_holder w ps)) [
    | inl n ↦ absurd (ground arith)
    | inr (j, f) ↦ let (q, at, holds) = find_holder-holds w ps f in (q, ground arith, holds)
  ]
]
