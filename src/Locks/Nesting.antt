-- ===== src/Locks/Nesting.antt =====
-- `push_off` and `pop_off` match up, and a critical section restores the interrupt enable.
use cs202_lab.Prelude.{
  ℕ, zero, suc, ◌+◌, ◌-◌, ◌≡◌, ◌≢◌, refl, true, false, ◌==◌, Option, none, some, arith, Bool-cases,
  inl, inr,
}
use cs202_lab.Locks.{Cpu, Spinlock, push_off, pop_off, holding, Attempt, acquire, release, initlock}

-- With a `push_off` open, interrupts are off.
abbrev pub IsValid : Cpu → Type 0
IsValid c = c.noff ≢ 0 → c.intr ≡ false

abbrev pub push_all : ℕ → Cpu → Cpu
push_all zero c = c
push_all (suc n) c = push_all n (push_off c)

abbrev pub pop_all : ℕ → Cpu → Option Cpu
pop_all zero c = some c
pop_all (suc n) c = elim (pop_off c) [ none ↦ none | some d ↦ pop_all n d ]

-- A state of the CPU from which one more `pop_off` leads back to the enable of `c`.
record Inside (c d : Cpu) (n : ℕ) : Type 0 where
  noff : d.noff ≡ c.noff + suc n
  intr : d.intr ≡ false
  saved : c.noff ≡ 0 → d.intena ≡ c.intr
  kept : c.noff ≢ 0 → c.intr ≡ false

push-Inside : (c : Cpu) → IsValid c → Inside c (push_off c) 0
unfolding push_off
push-Inside c v = record { noff = omega arith; intr = refl; saved = λ z. ground arith; kept = v }

push-Inside-suc : (c d : Cpu) (n : ℕ) → Inside c d n → Inside c (push_off d) (suc n)
unfolding push_off
push-Inside-suc c d n i = record {
  noff = omega (arith, i.noff);
  intr = refl;
  saved = λ z. ground (arith, i.saved z, i.noff);
  kept = i.kept;
}

-- The last `pop_off` leaves the sections of `c`.
pop-last :
    (c d : Cpu)
    → Inside c d 0
    → (e : Cpu) × (pop_off d ≡ some e) × (e.noff ≡ c.noff) × (e.intr ≡ c.intr)
unfolding pop_off
pop-last c d i = elim (Bool-cases (c.noff == 0)) [
  | inl z ↦
      let z' : c.noff ≡ 0 = ground arith in
      (
        record d { noff = 0; intr = c.intr },
        ground (arith, i.noff, i.intr, i.saved z'),
        omega arith,
        refl,
      )
  | inr p ↦
      let p' : c.noff ≢ 0 = λ (q : c.noff ≡ 0). ground arith in
      let off = i.kept p' in
      (
        record d { noff = d.noff - 1; intr = false },
        ground (arith, i.noff, i.intr),
        omega (arith, i.noff),
        ground arith,
      )
]

pop-Inside :
    (c d : Cpu) (n : ℕ) → Inside c d (suc n) → (e : Cpu) × (pop_off d ≡ some e) × Inside c e n
unfolding pop_off
pop-Inside c d n i = (
  record d { noff = d.noff - 1; intr = false },
  ground (arith, i.noff, i.intr),
  record { noff = omega (arith, i.noff); intr = refl; saved = i.saved; kept = i.kept },
)

pop_all-Inside :
    (n : ℕ) (c d : Cpu)
    → Inside c d n
    → (e : Cpu) × (pop_all (suc n) d ≡ some e) × (e.noff ≡ c.noff) × (e.intr ≡ c.intr)
pop_all-Inside zero c d i =
    let (e, run, noff', intr') = pop-last c d i in (e, rw (run, pop_all) refl, noff', intr')
pop_all-Inside (suc n) c d i =
    let (d', run, i') = pop-Inside c d n i in
    let (e, rest, noff', intr') = pop_all-Inside n c d' i' in
    (e, rw (run, pop_all) rest, noff', intr')

push_all-Inside : (n m k : ℕ) (c d : Cpu) → k ≡ m + n → Inside c d m → Inside c (push_all n d) k
push_all-Inside zero m k c d e i = let e' : k ≡ m = omega arith in rw e' i
push_all-Inside (suc n) m k c d e i =
    push_all-Inside n (suc m) k c (push_off d) (omega arith) (push-Inside-suc c d m i)

-- `push_off` and `pop_off` match up: any number of the one and as many of the other never panic,
-- and bring back the nesting depth and the interrupt enable, on or off, that the CPU had.
pub push_pop :
    (n : ℕ) (c : Cpu)
    → IsValid c
    → (e : Cpu) × (pop_all n (push_all n c) ≡ some e) × (e.noff ≡ c.noff) × (e.intr ≡ c.intr)
push_pop zero c v = (c, refl, refl, refl)
push_pop (suc n) c v =
    pop_all-Inside n c (push_all n (push_off c))
      (push_all-Inside n 0 n c (push_off c) (omega arith) (push-Inside c v))

-- A CPU that has acquired a lock holds it with interrupts off, and its release frees the lock and
-- brings back the nesting depth and the interrupt enable from before.
pub acquire-release :
    (id : ℕ) (lk lk' : Spinlock) (c c' : Cpu)
    → IsValid c
    → acquire id lk c ≡ Attempt.done lk' c'
    → (lk.locked ≡ false)
      × (holding id lk' ≡ true)
      × (c'.intr ≡ false)
      × (e : Cpu) × (release id lk' c' ≡ Attempt.done initlock e)
      × (e.noff ≡ c.noff)
      × (e.intr ≡ c.intr)
unfolding acquire release
acquire-release id lk lk' c c' v h = elim (Bool-cases lk.locked) [
  | inl t ↦ absurd (ground arith)
  | inr f ↦
      let i = push-Inside c v in
      let (e, run, noff', intr') = pop-last c (push_off c) i in
      let same : c' ≡ push_off c = ground arith in
      let held : holding id lk' ≡ true = ground arith in
      (f, held, (rw same i.intr), e, rw (held, same, run) refl, noff', intr')
]
