-- ===== src/Proc/Alloc/Numbers.antt =====
-- Process numbers stay apart across `allocproc`, `freeproc` and `fork`.
use cs202_lab.Prelude.{
  ℕ, zero, suc, ◌+◌, ◌<◌, ◌≡◌, refl, Bool, true, false, ◌&&◌, some, arith, get_elem?, u32_mod,
  Bool-cases, inl, inr, add32, sym, ◌∙◌, Option-cases, ◌⊎◌, modify-origin, get_elem?-modify_self,
  get_elem?-lt, length, ap,
}
use cs202_lab.Proc.{Proc, Kernel, Ptr, is_unused, is_runnable}
use cs202_lab.Proc.Lottery.{calculate_procs_ticket, set_proc_tickets}
use cs202_lab.Proc.Alloc.{
  freeproc, first_unused, claim, allocproc, fork, fork_into, child_of, sz_of, pid_of,
}
use cs202_lab.Proc.Alloc.Slot.{claim-CameFrom, first_unused-lt, length-claim}

-- The process numbers in use are positive, below the next one, and belong to one process each.
pub record IsNumbered (k : Kernel) : Type 0 where
  pub bounded :
      (i : ℕ) (p : Proc)
      → get_elem? k.procs i ≡ some p
      → is_unused p.state ≡ false
      → (0 < p.pid) × (p.pid < k.nextpid)
  pub apart :
      (i j : ℕ) (p q : Proc)
      → get_elem? k.procs i ≡ some p
      → get_elem? k.procs j ≡ some q
      → is_unused p.state ≡ false
      → is_unused q.state ≡ false
      → p.pid ≡ q.pid
      → i ≡ j
  pub started : 0 < k.nextpid

nextpid-claim : (i : ℕ) (k : Kernel) → (claim i k).nextpid ≡ add32 k.nextpid 1
unfolding claim set_proc_tickets calculate_procs_ticket
nextpid-claim i k = ground arith

claim-IsNumbered :
    (i : ℕ) (k : Kernel) → k.nextpid + 1 < u32_mod → IsNumbered k → IsNumbered (claim i k)
claim-IsNumbered i k room v = record {
  bounded = λ j q at live. rw nextpid-claim (elim (claim-CameFrom i k j at) [
    | inl (_, _, _, new, _, _) ↦ (omega (arith, v.started), omega arith)
    | inr (_, p, at', st, pid') ↦
        let (lo, hi) = v.bounded j p at' (rw (← st) live) in (omega arith, omega arith)
  ]);
  apart = λ j l q r atq atr liveq liver same. elim (claim-CameFrom i k j atq) [
    | inl (hj, _, _, newq, _, _) ↦ elim (claim-CameFrom i k l atr) [
      | inl (hl, _, _, _, _, _) ↦ hj ∙ sym hl
      | inr (_, p, at', st, pid') ↦
          let (lo, hi) = v.bounded l p at' (rw (← st) liver) in absurd (omega arith)
    ]
    | inr (_, p, atp, stp, pidp) ↦ elim (claim-CameFrom i k l atr) [
      | inl (hl, _, _, newr, _, _) ↦
          let (lo, hi) = v.bounded j p atp (rw (← stp) liveq) in absurd (omega arith)
      | inr (_, p', atp', stp', pidp') ↦
          v.apart j l p p' atp atp' (rw (← stp) liveq) (rw (← stp') liver) (sym pidp ∙ same ∙ pidp')
    ]
  ];
  started = rw nextpid-claim (omega arith);
}

-- `freeproc` leaves the other processes and the counter alone.
freeproc-IsNumbered : (i : ℕ) (k : Kernel) → IsNumbered k → IsNumbered (freeproc i k)
unfolding freeproc
freeproc-IsNumbered i k v = record {
  bounded = λ j q at live. elim (modify-origin k.procs i j _ at) [
    | inl (_, x, _, eq) ↦ absurd (ground arith)
    | inr (_, at') ↦ v.bounded j q at' live
  ];
  apart = λ j l q r atq atr liveq liver same. elim (modify-origin k.procs i j _ atq) [
    | inl (_, x, _, eq) ↦ absurd (ground arith)
    | inr (_, atq') ↦ elim (modify-origin k.procs i l _ atr) [
      | inl (_, x, _, eq) ↦ absurd (ground arith)
      | inr (_, atr') ↦ v.apart j l q r atq' atr' liveq liver same
    ]
  ];
  started = v.started;
}

allocproc-IsNumbered :
    (mem map_ok : Bool) (k : Kernel)
    → k.nextpid + 1 < u32_mod
    → IsNumbered k
    → IsNumbered (allocproc mem map_ok k).0
unfolding allocproc
allocproc-IsNumbered mem map_ok k room v = elim (Option-cases (first_unused k.procs)) [
  | inl e ↦ rw (e, allocproc) v
  | inr (i, e) ↦ elim (Bool-cases (mem && map_ok)) [
    | inl h ↦ rw (e, allocproc, h) (claim-IsNumbered i k room v)
    | inr h ↦ rw (e, allocproc, h) (freeproc-IsNumbered i (claim i k) (claim-IsNumbered i k room v))
  ]
]

-- `allocproc` gives up, or claims a slot.
allocproc-cases :
    (mem map_ok : Bool) (k : Kernel)
    → ((allocproc mem map_ok k).1 ≡ 0)
      ⊎ ((j : ℕ) × (j < length k.procs) × (allocproc mem map_ok k ≡ (claim j k, suc j)))
unfolding allocproc
allocproc-cases mem map_ok k = elim (Option-cases (first_unused k.procs)) [
  | inl e ↦ inl (rw (e, allocproc) refl)
  | inr (j, e) ↦ elim (Bool-cases (mem && map_ok)) [
    | inl h ↦ inr (j, first_unused-lt k.procs j e, rw (e, allocproc, h) refl)
    | inr h ↦ inl (rw (e, allocproc, h) refl)
  ]
]

-- A process that `allocproc` hands out is not UNUSED.
allocproc-live :
    (mem map_ok : Bool) (k : Kernel) (i : ℕ) (q : Proc)
    → (allocproc mem map_ok k).1 ≡ suc i
    → get_elem? (allocproc mem map_ok k).0.procs i ≡ some q
    → is_unused q.state ≡ false
allocproc-live mem map_ok k i q e at = elim (allocproc-cases mem map_ok k) [
  | inl n ↦ absurd (ground arith)
  | inr (j, lt, c) ↦
      let here : suc j ≡ suc i = sym (ap (λ r. r.1) c) ∙ e in
      let at' : get_elem? (claim j k).procs i ≡ some q =
        ap (λ r. get_elem? r.0.procs i) (sym c) ∙ at in
      elim (claim-CameFrom j k i at') [
        | inl (_, x, _, _, live, _) ↦ live
        | inr (ne, _, _, _, _) ↦ absurd (ne (omega arith))
      ]
]

fork_into-IsNumbered :
    (cur : Ptr) (copy_ok : Bool) (k : Kernel) (ptr : Ptr)
    → ((i : ℕ) (q : Proc) → ptr ≡ suc i → get_elem? k.procs i ≡ some q → is_unused q.state ≡ false)
    → IsNumbered k
    → IsNumbered (fork_into cur copy_ok (k, ptr)).0
fork_into-IsNumbered cur copy_ok k zero live v = v
fork_into-IsNumbered cur false k (suc i) live v = freeproc-IsNumbered i k v
fork_into-IsNumbered cur true k (suc i) live v = record {
  bounded = λ j q at run. elim (modify-origin k.procs i j _ at) [
    | inl (_, x, at', eq) ↦ ground (arith, v.bounded i x at' (live i x refl at'))
    | inr (_, at') ↦ v.bounded j q at' run
  ];
  apart = λ j l q r atq atr runq runr same. elim (modify-origin k.procs i j _ atq) [
    | inl (hj, x, atx, eqx) ↦ elim (modify-origin k.procs i l _ atr) [
      | inl (hl, _, _, _) ↦ hj ∙ sym hl
      | inr (_, atr') ↦ hj ∙ v.apart i l x r atx atr' (live i x refl atx) runr (ground arith)
    ]
    | inr (_, atq') ↦ elim (modify-origin k.procs i l _ atr) [
      | inl (hl, y, aty, eqy) ↦
          v.apart j i q y atq' aty runq (live i y refl aty) (ground arith) ∙ sym hl
      | inr (_, atr') ↦ v.apart j l q r atq' atr' runq runr same
    ]
  ];
  started = v.started;
}

-- `fork` keeps the process numbers in use apart, on its error paths too, as long as the counter
-- does not wrap.
pub fork-IsNumbered :
    (cur : Ptr) (mem map_ok copy_ok : Bool) (k : Kernel)
    → k.nextpid + 1 < u32_mod
    → IsNumbered k
    → IsNumbered (fork cur mem map_ok copy_ok k).0
unfolding fork
fork-IsNumbered cur mem map_ok copy_ok k room v =
    fork_into-IsNumbered cur copy_ok _ _ (allocproc-live mem map_ok k)
      (allocproc-IsNumbered mem map_ok k room v)

-- What `fork` returns once a slot is claimed.
abbrev ChildFacts : Ptr → Kernel → Kernel → ℕ → Type 0
ChildFacts cur k k' n =
    (n ≡ k.nextpid)
    × (i : ℕ) × (q : Proc) × (get_elem? k'.procs i ≡ some q)
    × (is_runnable q.state ≡ true)
    × (q.parent ≡ cur)
    × (q.pid ≡ n)

child_facts :
    (cur : Ptr) (copy_ok : Bool) (j : ℕ) (k : Kernel) {n : ℕ}
    → j < length k.procs
    → (fork_into cur copy_ok (claim j k, suc j)).1 ≡ some n
    → ChildFacts cur k (fork_into cur copy_ok (claim j k, suc j)).0 n
child_facts cur false j k lt e = cc
child_facts cur true j k lt e =
    let (q, at) = get_elem?-lt (claim j k).procs j (omega (arith, length-claim j k)) in
    elim (claim-CameFrom j k j at) [
      | inl (_, x, _, new, _, _) ↦
          let same : pid_of j (claim j k) ≡ q.pid = rw (at, pid_of) refl in
          (
            ground arith,
            j,
            child_of cur (sz_of cur (claim j k)) q,
            get_elem?-modify_self (claim j k).procs j _ at,
            refl,
            refl,
            ground arith,
          )
      | inr (ne, _, _, _, _) ↦ absurd (ne refl)
    ]

-- A `fork` that succeeds returns the next process number, and leaves a RUNNABLE child with that
-- number and the caller for its parent.
pub fork_child :
    (cur : Ptr) (mem map_ok copy_ok : Bool) (k : Kernel) {n : ℕ}
    → (fork cur mem map_ok copy_ok k).1 ≡ some n
    → (n ≡ k.nextpid)
      × (i : ℕ) × (q : Proc) × (get_elem? (fork cur mem map_ok copy_ok k).0.procs i ≡ some q)
      × (is_runnable q.state ≡ true)
      × (q.parent ≡ cur)
      × (q.pid ≡ n)
unfolding fork
fork_child cur mem map_ok copy_ok k {n} e = elim (allocproc-cases mem map_ok k) [
  | inl z ↦ absurd (ground arith)
  | inr (j, lt, c) ↦ rw c (child_facts cur copy_ok j k lt (rw c at e))
]
