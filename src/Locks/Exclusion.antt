-- ===== src/Locks/Exclusion.antt =====
-- A lock has one holder, which alone can release it.
use cs202_lab.Prelude.{ℕ, ◌≡◌, ◌≢◌, ◌⊎◌, refl, true, false, none, some, arith, Bool-cases, inl, inr}
use cs202_lab.Locks.{
  Cpu, Spinlock, push_off, holding, Attempt, acquire, release, Sleeplock, acquiresleep,
  releasesleep, holdingsleep,
}

-- While a CPU holds a lock, another CPU's `acquire` spins and its `release` panics, and a second
-- `acquire` of the holder panics.
pub holding_exclusive :
    (id other : ℕ) (lk : Spinlock) (c : Cpu)
    → holding id lk ≡ true
    → other ≢ id
    → (acquire other lk c ≡ Attempt.spins (push_off c))
      × (release other lk c ≡ Attempt.panics)
      × (acquire id lk c ≡ Attempt.panics)
unfolding acquire release
holding_exclusive id other lk c h ne = (ground arith, ground arith, ground arith)

-- A process that finds a sleep lock taken sleeps. One that gets it holds it, and no process with
-- another pid does, and until its release every attempt sleeps.
pub acquiresleep_lem :
    (pid other : ℕ) (lk : Sleeplock)
    → other ≢ pid
    → ((lk.locked ≡ true) × (acquiresleep pid lk ≡ none))
      ⊎ ((lk' : Sleeplock) × (acquiresleep pid lk ≡ some lk')
          × (lk.locked ≡ false)
          × (holdingsleep pid lk' ≡ true)
          × (holdingsleep other lk' ≡ false)
          × (acquiresleep other lk' ≡ none)
          × (acquiresleep other (releasesleep lk') ≢ none))
unfolding acquiresleep holdingsleep releasesleep
acquiresleep_lem pid other lk ne = elim (Bool-cases lk.locked) [
  | inl t ↦ inl (t, ground arith)
  | inr f ↦ inr (
    record { locked = true; pid = pid },
    ground arith,
    f,
    ground arith,
    ground arith,
    refl,
    (λ e. ground arith),
  )
]
