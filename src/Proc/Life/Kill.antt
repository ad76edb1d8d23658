-- ===== src/Proc/Life/Kill.antt =====
-- What `kill` does, and what it does to a slot that is not in use.
use cs202_lab.Prelude.{
  ℕ, suc, ◌<◌, ◌≡◌, ◌⊎◌, inl, inr, refl, Bool, true, false, not, List, [], ◌∷◌, ◌==◌, some,
  if◌then◌else◌, arith, get_elem?, modify, all_of, Bool-cases, ◌∙◌, Option-cases,
  get_elem?-modify_self, get_elem?-lt, length, length-modify,
}
use cs202_lab.Proc.{Proc, Kernel, is_unused}
use cs202_lab.Proc.Alloc.{first_unused, claim, allocproc}
use cs202_lab.Proc.Alloc.Slot.{claim-CameFrom, first_unused-lt, length-claim}
use cs202_lab.Proc.Life.{kill_scan, kill_one, kill}

kill_scan_lem :
    (n : ℕ) (ps : List Proc)
    → ((kill_scan n ps ≡ (ps, false)) × (all_of (λ p. not (p.pid == n)) ps ≡ true))
      ⊎ ((i : ℕ) × (p : Proc) × (get_elem? ps i ≡ some p)
          × (p.pid ≡ n)
          × (kill_scan n ps ≡ (modify ps i kill_one, true)))
unfolding kill_scan
kill_scan_lem n [] = inl (refl, refl)
kill_scan_lem n (p ∷ ps) = elim (Bool-cases (p.pid == n)) [
  | inl e ↦ inr (0, p, refl, ground arith, rw (e, kill_scan) refl)
  | inr e ↦ elim (kill_scan_lem n ps) [
    | inl (same, others) ↦ inl (rw (e, kill_scan, same) refl, rw e others)
    | inr (i, q, at, pid', same) ↦ inr (suc i, q, at, pid', rw (e, kill_scan, same) refl)
  ]
]

-- `kill` returns -1 and changes nothing when no slot has the number. Else it marks one process with
-- that number killed, makes it RUNNABLE if it sleeps, and changes nothing else.
pub kill_lem :
    (n : ℕ) (k : Kernel)
    → ((kill n k ≡ (k, false)) × (all_of (λ p. not (p.pid == n)) k.procs ≡ true))
      ⊎ ((i : ℕ) × (p : Proc) × (get_elem? k.procs i ≡ some p)
          × (p.pid ≡ n)
          × (kill n k ≡ (record k { procs = modify k.procs i kill_one }, true)))
unfolding kill
kill_lem n k = elim (kill_scan_lem n k.procs) [
  | inl (same, others) ↦ inl (rw same refl, others)
  | inr (i, p, at, pid', same) ↦ inr (i, p, at, pid', rw same refl)
]

-- Every UNUSED slot has the number 0, and no other slot has it.
abbrev pub zero_if_unused : Proc → Bool
zero_if_unused p = if is_unused p.state then p.pid == 0 else not (p.pid == 0)

kill_scan-zero :
    (ps : List Proc) (i : ℕ)
    → all_of zero_if_unused ps ≡ true
    → first_unused ps ≡ some i
    → kill_scan 0 ps ≡ (modify ps i kill_one, true)
unfolding kill_scan first_unused
kill_scan-zero [] i h e = cc
kill_scan-zero (p ∷ ps) i h e = elim (Bool-cases (is_unused p.state)) [
  | inl u ↦
      let z : i ≡ 0 = ground arith in let pz : (p.pid == 0) ≡ true = ground arith in rw (z, pz) refl
  | inr u ↦ elim (Option-cases (first_unused ps)) [
    | inl n ↦ absurd (ground arith)
    | inr (j, f) ↦
        let ih = kill_scan-zero ps j (ground arith) f in
        let z : i ≡ suc j = ground arith in
        let pz : (p.pid == 0) ≡ false = ground arith in rw (z, pz, ih) refl
  ]
]

is_unused-kill_one : (p : Proc) → is_unused p.state ≡ true → is_unused (kill_one p).state ≡ true
is_unused-kill_one p h = ground arith

first_unused-kill :
    (ps : List Proc) (i : ℕ)
    → first_unused ps ≡ some i
    → first_unused (modify ps i kill_one) ≡ some i
unfolding first_unused
first_unused-kill [] i e = cc
first_unused-kill (p ∷ ps) i e = elim (Bool-cases (is_unused p.state)) [
  | inl u ↦ let z : i ≡ 0 = ground arith in rw (z, is_unused-kill_one p u) refl
  | inr u ↦ elim (Option-cases (first_unused ps)) [
    | inl n ↦ absurd (ground arith)
    | inr (j, f) ↦
        let ih = first_unused-kill ps j f in let z : i ≡ suc j = ground arith in rw (z, u, ih) refl
  ]
]

killed-kill_one : (p : Proc) → (kill_one p).killed ≡ 1
killed-kill_one p = ground arith

claim-killed :
    (i : ℕ) (k : Kernel) {p : Proc}
    → get_elem? k.procs i ≡ some p
    → i < length k.procs
    → (q : Proc) × (get_elem? (claim i k).procs i ≡ some q) × (q.killed ≡ p.killed)
claim-killed i k {p} at lt =
    let (q, at') = get_elem?-lt (claim i k).procs i (omega (arith, length-claim i k)) in
    elim (claim-CameFrom i k i at') [
      | inl (_, x, atx, _, _, same) ↦ (q, at', ground arith)
      | inr (ne, _, _, _, _) ↦ absurd (ne refl)
    ]

allocproc-claim :
    (k : Kernel) {i : ℕ}
    → first_unused k.procs ≡ some i
    → allocproc true true k ≡ (claim i k, suc i)
unfolding allocproc
allocproc-claim k e = rw (e, allocproc) refl

-- When the UNUSED slots and no others have the number 0 and some slot is UNUSED, `kill(0)` succeeds,
-- and the process that the next `allocproc` starts in that slot is marked killed from its birth.
pub kill_zero_dooms :
    (k : Kernel) (i : ℕ)
    → all_of zero_if_unused k.procs ≡ true
    → first_unused k.procs ≡ some i
    → ((kill 0 k).1 ≡ true)
      × ((allocproc true true (kill 0 k).0).1 ≡ suc i)
      × (q : Proc) × (get_elem? (allocproc true true (kill 0 k).0).0.procs i ≡ some q)
      × (q.killed ≡ 1)
unfolding kill
kill_zero_dooms k i h e =
    let scan = kill_scan-zero k.procs i h e in
    let lt = first_unused-lt k.procs i e in
    let k' = record k { procs = modify k.procs i kill_one } in
    let (p, at) = get_elem?-lt k.procs i lt in
    let (q, at', same) =
      claim-killed i k' (get_elem?-modify_self k.procs i kill_one at)
        (omega (arith, length-modify k.procs i kill_one)) in
    let start = allocproc-claim k' (first_unused-kill k.procs i e) in
    rw (scan, start) (refl, refl, q, at', same ∙ killed-kill_one p)
