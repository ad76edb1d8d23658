-- ===== src/Proc/Life/Wait.antt =====
-- When `wait` returns, with what, and when it sleeps.
use cs202_lab.Prelude.{
  length, length-modify, get_elem?-modify_self, get_elem?-modify_ne, ◌⊎◌, ℕ, zero, suc, ◌≡◌, refl,
  Bool, true, false, not, List, [], ◌∷◌, ◌==◌, ◌&&◌, some, if◌then◌else◌, arith, get_elem?, any_of,
  Bool-cases, inl, inr,
}
use cs202_lab.Proc.{Proc, Kernel, Ptr, is_unused, is_zombie}
use cs202_lab.Proc.Alloc.{cleared, freeproc}
use cs202_lab.Proc.Life.{Scan, shift_scan, scan_children, WaitRound, wait_finish, wait_round}

abbrev pub is_child : Ptr → Proc → Bool
is_child cur p = p.parent == cur

abbrev pub is_zombie_child : Ptr → Proc → Bool
is_zombie_child cur p = (p.parent == cur) && is_zombie p.state

shift_scan-zero : (b : Bool) (s : Scan) → shift_scan b s ≡ Scan.found 0 → ⊥
shift_scan-zero b (Scan.found i) h = ground arith
shift_scan-zero b (Scan.none_ready kids) h = cc

shift_scan-suc :
    (b : Bool) (s : Scan) (i : ℕ) → shift_scan b s ≡ Scan.found (suc i) → s ≡ Scan.found i
shift_scan-suc b (Scan.found j) i h = ground arith
shift_scan-suc b (Scan.none_ready kids) i h = cc

scan_children-found :
    (cur : Ptr) (ps : List Proc) (i : ℕ)
    → scan_children cur ps ≡ Scan.found i
    → (p : Proc) × (get_elem? ps i ≡ some p) × (is_zombie_child cur p ≡ true)
unfolding scan_children
scan_children-found cur [] i h = cc
scan_children-found cur (p ∷ ps) zero h = elim (Bool-cases (is_zombie_child cur p)) [
  | inl e ↦ (p, refl, e)
  | inr e ↦ absurd (shift_scan-zero (is_child cur p) (scan_children cur ps) (rw e at h))
]
scan_children-found cur (p ∷ ps) (suc i) h = elim (Bool-cases (is_zombie_child cur p)) [
  | inl e ↦ absurd (ground arith)
  | inr e ↦
      scan_children-found cur ps i
        (shift_scan-suc (is_child cur p) (scan_children cur ps) i (rw e at h))
]

scan_children_lem :
    (cur : Ptr) (ps : List Proc)
    → any_of (is_zombie_child cur) ps ≡ false
    → scan_children cur ps ≡ Scan.none_ready (any_of (is_child cur) ps)
unfolding scan_children
scan_children_lem cur [] h = refl
scan_children_lem cur (p ∷ ps) h = ground (arith, scan_children_lem cur ps)

scan_children_some :
    (cur : Ptr) (ps : List Proc)
    → any_of (is_zombie_child cur) ps ≡ true
    → (i : ℕ) × (scan_children cur ps ≡ Scan.found i)
unfolding scan_children
scan_children_some cur [] h = cc
scan_children_some cur (p ∷ ps) h = elim (Bool-cases (is_zombie_child cur p)) [
  | inl e ↦ (0, ground arith)
  | inr e ↦ let (i, f) = scan_children_some cur ps (ground arith) in (suc i, ground arith)
]

-- What a round of `wait` ends in.
pub data Outcome : Type 0 where
  fails reaps blocks : Outcome

abbrev pub outcome : WaitRound → Outcome
outcome WaitRound.error = Outcome.fails
outcome (WaitRound.reaped pid k) = Outcome.reaps
outcome (WaitRound.sleeps k) = Outcome.blocks

-- A round of `wait` reaps when some child is a zombie and the status can be copied out, fails when
-- it cannot be copied, or when no child is a zombie and there is no child or the caller is killed,
-- and else sleeps.
pub outcome-wait_round :
    (cur : Ptr) (killed copied : Bool) (k : Kernel)
    → outcome (wait_round cur killed copied k) ≡ (
        if any_of (is_zombie_child cur) k.procs
        then if copied then Outcome.reaps else Outcome.fails
        else if any_of (is_child cur) k.procs && not killed
        then Outcome.blocks
        else Outcome.fails)
unfolding wait_round
outcome-wait_round cur killed copied k = elim (Bool-cases (any_of (is_zombie_child cur) k.procs)) [
  | inl e ↦
      let (i, f) = scan_children_some cur k.procs e in
      let (p, at, z) = scan_children-found cur k.procs i f in rw (f, e) (ground arith)
  | inr e ↦ rw (scan_children_lem cur k.procs e, e) (ground arith)
]

-- The table `k'` once slot `i` with process `p` has been freed: the slot is UNUSED with no number, no
-- parent, no tickets and nothing left to wait for; its run count and its winning range are not reset.
-- No other slot and no other variable has changed.
pub record IsFreed (i : ℕ) (p : Proc) (k k' : Kernel) : Type 0 where
  pub slot : Proc
  pub there : get_elem? k'.procs i ≡ some slot
  pub unused : is_unused slot.state ≡ true
  pub no_pid : slot.pid ≡ 0
  pub no_parent : slot.parent ≡ 0
  pub not_killed : slot.killed ≡ 0
  pub no_chan : slot.chan ≡ 0
  pub no_status : slot.xstate ≡ 0
  pub no_size : slot.sz ≡ 0
  pub no_tickets : slot.tickets ≡ 0
  pub no_pass : slot.stride_pass ≡ 0
  pub no_calls : slot.sys_call_cnt ≡ 0
  pub same_count : slot.sched_cnt ≡ p.sched_cnt
  pub same_beginning : slot.tickets_winning_range_beginning ≡ p.tickets_winning_range_beginning
  pub same_end : slot.tickets_winning_range_end ≡ p.tickets_winning_range_end
  pub others : (j : ℕ) → (j ≡ i) ⊎ (get_elem? k'.procs j ≡ get_elem? k.procs j)
  pub slots : length k'.procs ≡ length k.procs
  pub same_initproc : k'.initproc ≡ k.initproc
  pub same_nextpid : k'.nextpid ≡ k.nextpid
  pub same_total : k'.total_tickets ≡ k.total_tickets
  pub same_set_cnt : k'.set_cnt ≡ k.set_cnt
  pub same_random : k'.r_x ≡ k.r_x

freeproc-IsFreed :
    (i : ℕ) (p : Proc) (k : Kernel) → get_elem? k.procs i ≡ some p → IsFreed i p k (freeproc i k)
unfolding freeproc
freeproc-IsFreed i p k at = record {
  slot = cleared p;
  there = get_elem?-modify_self k.procs i cleared at;
  unused = refl;
  no_pid = refl;
  no_parent = refl;
  not_killed = refl;
  no_chan = refl;
  no_status = refl;
  no_size = refl;
  no_tickets = refl;
  no_pass = refl;
  no_calls = refl;
  same_count = refl;
  same_beginning = refl;
  same_end = refl;
  others = λ j. elim (Bool-cases (j == i)) [
    | inl e ↦ inl (ground arith)
    | inr ne ↦ inr (get_elem?-modify_ne k.procs cleared (λ (e : i ≡ j). ground arith))
  ];
  slots = length-modify k.procs i cleared;
  same_initproc = refl;
  same_nextpid = refl;
  same_total = refl;
  same_set_cnt = refl;
  same_random = refl;
}

-- A pid that `wait` returns is that of a zombie child. The slot of this child is then UNUSED, with no
-- number, parent, kill mark, channel, status, size, tickets, pass or system call count; no other slot
-- and no other variable changes.
pub wait_round-reaped :
    (cur : Ptr) (killed copied : Bool) (k : Kernel) {n : ℕ} {k' : Kernel}
    → wait_round cur killed copied k ≡ WaitRound.reaped n k'
    → (i : ℕ) × (p : Proc) × (get_elem? k.procs i ≡ some p)
      × (p.parent ≡ cur)
      × (is_zombie p.state ≡ true)
      × (n ≡ p.pid)
      × IsFreed i p k k'
unfolding wait_round
wait_round-reaped cur killed copied k {n} {k'} h = from (scan_children cur k.procs) refl h
  where
    from :
        (s : Scan)
        → scan_children cur k.procs ≡ s
        → wait_finish cur killed copied k s ≡ WaitRound.reaped n k'
        → (i : ℕ) × (p : Proc) × (get_elem? k.procs i ≡ some p)
          × (p.parent ≡ cur)
          × (is_zombie p.state ≡ true)
          × (n ≡ p.pid)
          × IsFreed i p k k'
    from (Scan.found i) e r =
        let (p, at, z) = scan_children-found cur k.procs i e in
        let done : freeproc i k ≡ k' = ground (arith, r, at) in
        (i, p, at, ground arith, ground arith, ground arith, rw done at (freeproc-IsFreed i p k at))
    from (Scan.none_ready kids) e r = absurd (ground arith)
