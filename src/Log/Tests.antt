-- ===== src/Log/Tests.antt =====
-- Runs of the log, and the theorems at a concrete transaction.
use cs202_lab.Prelude.{
  ℕ, zero, suc, ◌+◌, ◌≡◌, refl, false, List, [], ◌∷◌, none, some, if◌then◌else◌, leb, ◌==◌, arith,
  take,
}
use cs202_lab.Log.{Block, View, Log, apply, commit_steps, recover, begin_op, log_write}
use cs202_lab.Log.Install.{replaced}
use cs202_lab.Log.Crash.{crash_lem}
use cs202_lab.Log.Session.{Session, Step, Reach}
use cs202_lab.Log.Space.{Reserved, Accepted, log_write_safe}

abbrev blank : Block
blank = 0 ∷ 0 ∷ 0 ∷ 0 ∷ []

abbrev disk : View
disk b = blank

-- What the cache holds when blocks 40 and 41 have been written.
abbrev cached : View
cached b = if b == 40 then 7 ∷ [] else if b == 41 then 8 ∷ [] else blank

-- The log area starts at block 2; the crash is after the header and the first home block.
crash_lem_example :
    (recover 2 (apply (take 4 (commit_steps 2 (40 ∷ 41 ∷ []) cached).1) disk)).0 41
    ≡ (if leb 4 2 then disk 41 else replaced (40 ∷ 41 ∷ []) cached disk 41)
crash_lem_example = crash_lem 2 (40 ∷ 41 ∷ []) cached disk refl (omega arith) refl 41 refl 4

-- A log in an area of `size'` blocks.
abbrev log_of : ℕ → ℕ → List ℕ → Log
log_of size' calls bs = record {
  start = 2;
  size = size';
  outstanding = calls;
  committing = false;
  blocks = bs;
  view = disk;
  pins = λ b. 0;
}

abbrev idle : Session
idle = record { log = log_of 31 0 []; calls = [] }

idle-Reserved : Reserved idle
idle-Reserved = record {
  fits = omega arith;
  counted = refl;
  each = refl;
  logged = refl;
  few = omega arith;
  idle = refl;
}

begin_run : begin_op idle.log ≡ some (log_of 31 1 [])
unfolding begin_op
begin_run = refl

log_write_safe_example : Accepted 50 [] (log_of 31 1 []) (log_write 50 (log_of 31 1 []))
log_write_safe_example =
    log_write_safe 50 0 [] idle-Reserved (omega arith)
      (Reach.next Reach.here (Step.begin idle (log_of 31 1 []) begin_run)) refl refl

abbrev countdown : ℕ → List ℕ
countdown zero = []
countdown (suc n) = (100 + n) ∷ countdown n

-- Three calls have logged ten blocks each, and one of them writes a block of its own again.
full_run : log_write 100 (log_of 31 3 (countdown 30)) ≡ none
unfolding log_write
full_run = refl

-- In the area of LOGSIZE blocks that mkfs makes there is no room for a thirtieth block.
mkfs_run : log_write 50 (log_of 30 3 (countdown 29)) ≡ none
unfolding log_write
mkfs_run = refl
