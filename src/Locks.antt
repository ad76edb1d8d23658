-- ===== src/Locks.antt =====
-- Locks of kernel/spinlock.c and kernel/sleeplock.c. A CPU is its `struct cpu` fields and its
-- interrupt enable; the CPU with number `id` is the pointer `suc id`, as in a lock's `cpu` field.
-- The test-and-set is one step: an attempt at a taken lock spins.
pub mod Nesting
pub mod Exclusion
mod Tests
use cs202_lab.Prelude.{
  ℕ, zero, suc, ◌+◌, ◌-◌, Bool, true, false, not, ◌==◌, ◌&&◌, ltb, Option, none, some,
  if◌then◌else◌,
}

pub record Cpu : Type 0 where
  pub noff : ℕ
  pub intena : Bool
  -- the SIE bit of sstatus
  pub intr : Bool

pub record Spinlock : Type 0 where
  pub locked : Bool
  pub cpu : ℕ

-- `initlock`
abbrev pub initlock : Spinlock
initlock = record { locked = false; cpu = 0 }

unfoldable pub push_off : Cpu → Cpu
push_off c = record {
  noff = c.noff + 1;
  intena = if c.noff == 0 then c.intr else c.intena;
  intr = false;
}

-- `pop_off`: `none` is a panic.
unfoldable pub pop_off : Cpu → Option Cpu
pop_off c =
    if c.intr
    then none
    else if ltb c.noff 1
    then none
    else some (record c {
      noff = c.noff - 1;
      intr = if (c.noff - 1 == 0) && c.intena then true else c.intr;
    })

-- `holding` on the CPU `id`.
abbrev pub holding : ℕ → Spinlock → Bool
holding id lk = lk.locked && (lk.cpu == suc id)

pub data Attempt : Type 0 where
  panics : Attempt
  -- the loop on the atomic swap goes on
  spins : Cpu → Attempt
  done : Spinlock → Cpu → Attempt

unfoldable pub acquire : ℕ → Spinlock → Cpu → Attempt
acquire id lk c =
    if holding id lk
    then Attempt.panics
    else if lk.locked
    then Attempt.spins (push_off c)
    else Attempt.done (record { locked = true; cpu = suc id }) (push_off c)

abbrev pub released : Option Cpu → Attempt
released none = Attempt.panics
released (some c) = Attempt.done initlock c

unfoldable pub release : ℕ → Spinlock → Cpu → Attempt
release id lk c = if not (holding id lk) then Attempt.panics else released (pop_off c)

-- `struct sleeplock`, whose fields its spinlock guards.
pub record Sleeplock : Type 0 where
  pub locked : Bool
  pub pid : ℕ

-- `initsleeplock`
abbrev pub initsleeplock : Sleeplock
initsleeplock = record { locked = false; pid = 0 }

-- One round of the loop of `acquiresleep` for the process `pid`: `none` is to sleep on the lock.
unfoldable pub acquiresleep : ℕ → Sleeplock → Option Sleeplock
acquiresleep pid' lk = if lk.locked then none else some (record { locked = true; pid = pid' })

unfoldable pub releasesleep : Sleeplock → Sleeplock
releasesleep lk = initsleeplock

unfoldable pub holdingsleep : ℕ → Sleeplock → Bool
holdingsleep pid' lk = lk.locked && (lk.pid == pid')
