-- ===== src/Locks/Tests.antt =====
-- The theorems on locks at concrete locks and CPUs.
use cs202_lab.Prelude.{◌≡◌, refl, true, false}
use cs202_lab.Locks.{Cpu, Spinlock, push_off, holding, Attempt, acquire, release, initlock}
use cs202_lab.Locks.Nesting.{acquire-release}

-- A CPU with interrupts on, outside every section.
abbrev idle : Cpu
idle = record { noff = 0; intena = false; intr = true }

abbrev held_by_two : Spinlock
held_by_two = record { locked = true; cpu = 3 }

acquire_run : acquire 2 initlock idle ≡ Attempt.done held_by_two (push_off idle)
unfolding acquire
acquire_run = refl

acquire-release_example :
    (initlock.locked ≡ false)
    × (holding 2 held_by_two ≡ true)
    × ((push_off idle).intr ≡ false)
    × (e : Cpu) × (release 2 held_by_two (push_off idle) ≡ Attempt.done initlock e)
    × (e.noff ≡ 0)
    × (e.intr ≡ true)
acquire-release_example =
    acquire-release 2 initlock held_by_two idle (push_off idle) (λ ne. absurd (ne refl)) acquire_run
