-- ===== src/Proc/Life/Exit.antt =====
-- What `exit` leaves behind: no orphans, and a parent that can reap.
use cs202_lab.Prelude.{
  ℕ, zero, suc, ◌<◌, ◌≡◌, ◌≢◌, refl, Bool, true, false, List, [], ◌∷◌, ◌==◌, none, some,
  if◌then◌else◌, arith, get_elem?, modify, Bool-cases, inl, inr, length, map, ap, ap₂, ◌∙◌, sym,
  get_elem?-modify_self, get_elem?-modify_ne, Option-cases, any_of-get_elem?, all_of,
  all_of-pointwise, not, ◌&&◌, length-map, length-modify, get_elem?-lt, get_or,
}
use cs202_lab.Proc.{Proc, Kernel, Ptr, is_zombie, is_sleeping}
use cs202_lab.Proc.Life.{
  reparent_one, reparent_loop, reparent, wakeup, exit, exit_state, parent_of, zombie_with,
  wait_round,
}
use cs202_lab.Proc.Life.Wakeup.{parents-wake_from, wakeup-awake}
use cs202_lab.Proc.Life.Wait.{is_zombie_child, Outcome, outcome, outcome-wait_round}

abbrev pub parents : Kernel → List Ptr
parents k = map (λ p. p.parent) k.procs

abbrev pub adopt : Ptr → Ptr → Ptr → Ptr
adopt cur init x = if x == cur then init else x

-- One function applied at the indices `i`, …, `i + n - 1`.
abbrev modify_from : (Ptr → Ptr) → ℕ → ℕ → List Ptr → List Ptr
modify_from f zero i xs = xs
modify_from f (suc n) i xs = modify_from f n (suc i) (modify xs i f)

modify_from-suc :
    (f : Ptr → Ptr) (n i : ℕ) (x : Ptr) (xs : List Ptr)
    → modify_from f n (suc i) (x ∷ xs) ≡ x ∷ modify_from f n i xs
modify_from-suc f zero i x xs = refl
modify_from-suc f (suc n) i x xs = modify_from-suc f n (suc i) x (modify xs i f)

modify_from-map : (f : Ptr → Ptr) (xs : List Ptr) → modify_from f (length xs) 0 xs ≡ map f xs
modify_from-map f [] = refl
modify_from-map f (x ∷ xs) =
    modify_from-suc f (length xs) 0 (f x) xs ∙ ap (λ ys. f x ∷ ys) (modify_from-map f xs)

modify-map :
    (ps : List Proc) (i : ℕ) (v : Ptr)
    → map (λ p. p.parent) (modify ps i (λ q. record q { parent = v }))
      ≡ modify (map (λ p. p.parent) ps) i (λ x. v)
modify-map [] i v = refl
modify-map (p ∷ ps) zero v = refl
modify-map (p ∷ ps) (suc i) v = ap (λ ys. p.parent ∷ ys) (modify-map ps i v)

modify-hit :
    (ps : List Proc) (i : ℕ) (cur v : Ptr) {p : Proc}
    → get_elem? ps i ≡ some p
    → (p.parent == cur) ≡ true
    → modify (map (λ q. q.parent) ps) i (λ x. v) ≡ modify (map (λ q. q.parent) ps) i (adopt cur v)
modify-hit [] i cur v e h = refl
modify-hit (q ∷ ps) zero cur v e h = ground arith
modify-hit (q ∷ ps) (suc i) cur v e h = ap (λ ys. q.parent ∷ ys) (modify-hit ps i cur v e h)

modify-miss :
    (ps : List Proc) (i : ℕ) (cur v : Ptr) {p : Proc}
    → get_elem? ps i ≡ some p
    → (p.parent == cur) ≡ false
    → map (λ q. q.parent) ps ≡ modify (map (λ q. q.parent) ps) i (adopt cur v)
modify-miss [] i cur v e h = refl
modify-miss (q ∷ ps) zero cur v e h = ground arith
modify-miss (q ∷ ps) (suc i) cur v e h = ap (λ ys. q.parent ∷ ys) (modify-miss ps i cur v e h)

modify-none :
    (ps : List Proc) (i : ℕ) (f : Ptr → Ptr)
    → get_elem? ps i ≡ none
    → map (λ q. q.parent) ps ≡ modify (map (λ q. q.parent) ps) i f
modify-none [] i f e = refl
modify-none (q ∷ ps) zero f e = cc
modify-none (q ∷ ps) (suc i) f e = ap (λ ys. q.parent ∷ ys) (modify-none ps i f e)

initproc-reparent_one :
    (cur : Ptr) (i : ℕ) (k : Kernel) → (reparent_one cur i k).initproc ≡ k.initproc
unfolding reparent_one wakeup
initproc-reparent_one cur i k = ground arith

parents-reparent_one :
    (cur : Ptr) (i : ℕ) (k : Kernel)
    → parents (reparent_one cur i k) ≡ modify (parents k) i (adopt cur k.initproc)
unfolding reparent_one
parents-reparent_one cur i k = elim (Option-cases (get_elem? k.procs i)) [
  | inl e ↦ rw (e, reparent_one) (modify-none k.procs i (adopt cur k.initproc) e)
  | inr (p, e) ↦ elim (Bool-cases (p.parent == cur)) [
    | inl h ↦
        rw (e, reparent_one, h)
          (parents-wake_from cur k.initproc 1 _
            ∙ modify-map k.procs i k.initproc
            ∙ modify-hit k.procs i cur k.initproc e h)
    | inr h ↦ rw (e, reparent_one, h) (modify-miss k.procs i cur k.initproc e h)
  ]
]

parents-reparent_loop :
    (cur : Ptr) (n i : ℕ) (k : Kernel)
    → parents (reparent_loop cur n i k) ≡ modify_from (adopt cur k.initproc) n i (parents k)
unfolding reparent_loop
parents-reparent_loop cur zero i k = refl
parents-reparent_loop cur (suc n) i k =
    parents-reparent_loop cur n (suc i) (reparent_one cur i k)
    ∙ ap₂ (λ init ps. modify_from (adopt cur init) n (suc i) ps) (initproc-reparent_one cur i k)
        (parents-reparent_one cur i k)

-- `reparent` hands exactly the children of the process to init and leaves every other parent link.
pub parents-reparent :
    (cur : Ptr) (k : Kernel) → parents (reparent cur k) ≡ map (adopt cur k.initproc) (parents k)
unfolding reparent
parents-reparent cur k =
    parents-reparent_loop cur (length k.procs) 0 k
    ∙ ap (λ n. modify_from (adopt cur k.initproc) n 0 (parents k))
        (sym (length-map (λ p. p.parent) k.procs))
    ∙ modify_from-map (adopt cur k.initproc) (parents k)

parents-zombie :
    (ps : List Proc) (i status : ℕ)
    → map (λ p. p.parent) (modify ps i (zombie_with status)) ≡ map (λ p. p.parent) ps
parents-zombie [] i status = refl
parents-zombie (p ∷ ps) zero status = refl
parents-zombie (p ∷ ps) (suc i) status = ap (λ ys. p.parent ∷ ys) (parents-zombie ps i status)

parents-exit_state :
    (i status : ℕ) (k : Kernel) → parents (exit_state i status k) ≡ parents (reparent (suc i) k)
unfolding exit_state wakeup
parents-exit_state i status k =
    parents-zombie _ i status ∙ parents-wake_from (suc i) _ 1 (reparent (suc i) k).procs

get_or-parents :
    (ps : List Proc) (i : ℕ)
    → (elim (get_elem? ps i) [ none ↦ 0 | some p ↦ p.parent ]) ≡ get_or (map (λ p. p.parent) ps) i 0
get_or-parents [] i = refl
get_or-parents (p ∷ ps) zero = refl
get_or-parents (p ∷ ps) (suc i) = get_or-parents ps i

parent_of-exit_state :
    (i status : ℕ) (k : Kernel)
    → parent_of i (exit_state i status k) ≡ parent_of i (reparent (suc i) k)
parent_of-exit_state i status k =
    get_or-parents (exit_state i status k).procs i
    ∙ ap (λ ps. get_or ps i 0) (parents-exit_state i status k)
    ∙ sym (get_or-parents (reparent (suc i) k).procs i)

length-exit_state :
    (i status : ℕ) (k : Kernel) → length (exit_state i status k).procs ≡ length k.procs
length-exit_state i status k =
    sym (length-map (λ p. p.parent) (exit_state i status k).procs)
    ∙ ap length (parents-exit_state i status k ∙ parents-reparent (suc i) k)
    ∙ length-map (adopt (suc i) k.initproc) (parents k)
    ∙ length-map (λ p. p.parent) k.procs

exit_zombie :
    (i status : ℕ) (k : Kernel)
    → i < length k.procs
    → (p : Proc) × (get_elem? (exit_state i status k).procs i ≡ some p)
      × (is_zombie p.state ≡ true)
      × (p.xstate ≡ status)
unfolding exit_state
exit_zombie i status k h =
    let before = (wakeup (suc i) (parent_of i (reparent (suc i) k)) (reparent (suc i) k)).procs in
    let (x, e) =
      get_elem?-lt before i (
        omega (arith, length-exit_state i status k, length-modify before i (zombie_with status))) in
    (zombie_with status x, get_elem?-modify_self before i (zombie_with status) e, refl, refl)

parent_of-at :
    (i : ℕ) (k : Kernel) {p : Proc} → get_elem? k.procs i ≡ some p → parent_of i k ≡ p.parent
parent_of-at i k e = rw (e, parent_of)

exit_awake :
    (i status : ℕ) (k : Kernel) (j : ℕ) (q : Proc)
    → j ≢ i
    → get_elem? (exit_state i status k).procs j ≡ some q
    → is_sleeping q.state ≡ true
    → q.chan ≢ parent_of i (exit_state i status k)
unfolding exit_state
exit_awake i status k j q ne e asleep =
    rw parent_of-exit_state
      (wakeup-awake (suc i) c j k' {p = q} (λ (h : suc i ≡ suc j). ne (omega arith)) before asleep)
  where
    k' : Kernel
    k' = reparent (suc i) k

    c : Ptr
    c = parent_of i k'

    before : get_elem? (wakeup (suc i) c k').procs j ≡ some q
    before =
        sym (
          get_elem?-modify_ne (wakeup (suc i) c k').procs (zombie_with status)
            (λ (h : i ≡ j). ne (sym h)))
        ∙ e

awake-at :
    (ps : List Proc) (i j : ℕ) (q p : Proc)
    → j ≡ i
    → get_elem? ps j ≡ some q
    → get_elem? ps i ≡ some p
    → is_zombie p.state ≡ true
    → is_sleeping q.state ≡ false
awake-at ps i j q p same e at z =
    let one : some p ≡ some q = sym at ∙ ap (get_elem? ps) (sym same) ∙ e in ground arith

exit_none_asleep :
    (i status : ℕ) (k : Kernel)
    → i < length k.procs
    → all_of
        (λ q. not (is_sleeping q.state && (q.chan == parent_of i (exit_state i status k))))
        (exit_state i status k).procs
      ≡ true
exit_none_asleep i status k h =
    let (p, at, z, x) = exit_zombie i status k h in
    all_of-pointwise _ (exit_state i status k).procs λ j q e. elim (Bool-cases (j == i)) [
      | inl same ↦
          let here : j ≡ i = ground arith in
          let dead : is_sleeping q.state ≡ false = awake-at _ i j q p here e at z in rw dead refl
      | inr other ↦ elim (Bool-cases (is_sleeping q.state)) [
        | inl asleep ↦
            let ne = exit_awake i status k j q (λ (s : j ≡ i). ground arith) e asleep in
            ground arith
        | inr awake ↦ rw awake refl
      ]
    ]

-- The process that exits finds its parent's `wait` ready: a round of `wait` by the parent that it has
-- at that point reaps, if the status can be copied out.
pub wait_after_exit :
    (i status : ℕ) (k : Kernel) (killed : Bool)
    → i < length k.procs
    → outcome (wait_round (parent_of i (exit_state i status k)) killed true (exit_state i status k))
      ≡ Outcome.reaps
wait_after_exit i status k killed h =
    let k' = exit_state i status k in
    let (p, at, z, x) = exit_zombie i status k h in
    let owner = parent_of-at i k' at in
    let child : is_zombie_child (parent_of i k') p ≡ true = ground arith in
    rw
      (
        outcome-wait_round (parent_of i k') killed true k',
        any_of-get_elem? (is_zombie_child (parent_of i k')) k'.procs i at child,
      )
      refl

-- `exit` of a process other than init succeeds. It makes the process a ZOMBIE with the given status,
-- hands exactly its children to init, and leaves no process asleep on the address of the process's
-- parent: a parent that sleeps in `wait` has been woken.
pub exit_lem :
    (i status : ℕ) (k : Kernel)
    → i < length k.procs
    → suc i ≢ k.initproc
    → (k' : Kernel) × (p : Proc) × (exit i status k ≡ some k')
      × (get_elem? k'.procs i ≡ some p)
      × (is_zombie p.state ≡ true)
      × (p.xstate ≡ status)
      × (parents k' ≡ map (adopt (suc i) k.initproc) (parents k))
      × (all_of (λ q. not (is_sleeping q.state && (q.chan == parent_of i k'))) k'.procs ≡ true)
unfolding exit
exit_lem i status k h ne =
    let (p, at, z, x) = exit_zombie i status k h in
    (
      exit_state i status k,
      p,
      ground arith,
      at,
      z,
      x,
      parents-exit_state i status k ∙ parents-reparent (suc i) k,
      exit_none_asleep i status k h,
    )
