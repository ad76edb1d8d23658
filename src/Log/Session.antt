-- ===== src/Log/Session.antt =====
-- The file-system calls that are in progress, and the blocks that each has written.
use cs202_lab.Prelude.{
  ℕ, zero, suc, ◌+◌, ◌-◌, ◌*◌, ◌≤◌, ◌≡◌, inl, inr, refl, Bool, true, List, [], ◌∷◌, ◌++◌, ◌==◌,
  ◌||◌, leb, ltb, if◌then◌else◌, arith, length, any_of, all_of, some, Bool-cases, get_elem?, set,
}
use cs202_lab.Log.{Log, max_op_blocks, begin_op, end_op, log_write, Write}

abbrev pub holds : ℕ → List ℕ → Bool
holds b bs = any_of (λ c. c == b) bs

-- The log, and the different blocks that each call between its `begin_op` and `end_op` has written.
pub record Session : Type 0 where
  pub log : Log
  pub calls : List (List ℕ)

-- A call keeps to MAXOPBLOCKS blocks, each of which it may write any number of times.
abbrev pub may_write : ℕ → List ℕ → Bool
may_write b bs = holds b bs || ltb (length bs) max_op_blocks

abbrev pub written_with : ℕ → List ℕ → List ℕ
written_with b bs = if holds b bs then bs else b ∷ bs

abbrev pub remove_at {ℓ} : {A : Type ℓ} → List A → ℕ → List A
remove_at [] i = []
remove_at (x ∷ xs) zero = xs
remove_at (x ∷ xs) (suc i) = x ∷ remove_at xs i

-- The steps of such calls. A commit is part of the `end_op` that makes it.
pub data Step : Session → Session → Type 0 where
  begin :
      (s : Session) (l : Log)
      → begin_op s.log ≡ some l
      → Step s (record { log = l; calls = [] ∷ s.calls })
  write :
      (s : Session) (b i : ℕ) (bs : List ℕ) (l : Log)
      → get_elem? s.calls i ≡ some bs
      → may_write b bs ≡ true
      → log_write b s.log ≡ some l
      → Step s (record { log = l; calls = set s.calls i (written_with b bs) })
  finish :
      (s : Session) (i : ℕ) (bs : List ℕ) (l : Log) (ws : List Write)
      → get_elem? s.calls i ≡ some bs
      → end_op s.log ≡ some (l, ws)
      → Step s (record { log = l; calls = remove_at s.calls i })

pub data Reach (s : Session) : Session → Type 0 where
  here : Reach s s
  next : {t u : Session} → Reach s t → Step t u → Reach s u

-- How many blocks the calls may still write that they have not written yet.
abbrev pub spare : List (List ℕ) → ℕ
spare [] = 0
spare (bs ∷ cs) = (max_op_blocks - length bs) + spare cs

abbrev pub keeps_to : List ℕ → Bool
keeps_to bs = leb (length bs) max_op_blocks

-- All blocks of a call are in the log.
abbrev pub is_logged : List ℕ → List ℕ → Bool
is_logged blocks bs = all_of (λ b. holds b blocks) bs

pub spare-le : (cs : List (List ℕ)) → spare cs ≤ length cs * max_op_blocks
spare-le [] = omega arith
spare-le (bs ∷ cs) = omega (arith, spare-le cs)

pub spare-set :
    (cs : List (List ℕ)) (i : ℕ) (bs bs' : List ℕ)
    → get_elem? cs i ≡ some bs
    → spare (set cs i bs') + (max_op_blocks - length bs) ≡ spare cs + (max_op_blocks - length bs')
spare-set [] i bs bs' e = cc
spare-set (c ∷ cs) zero bs bs' e = ground arith
spare-set (c ∷ cs) (suc i) bs bs' e = omega (arith, spare-set cs i bs bs' e)

pub spare-at :
    (cs : List (List ℕ)) (i : ℕ) (bs : List ℕ)
    → get_elem? cs i ≡ some bs
    → max_op_blocks - length bs ≤ spare cs
spare-at [] i bs e = cc
spare-at (c ∷ cs) zero bs e = ground arith
spare-at (c ∷ cs) (suc i) bs e = omega (arith, spare-at cs i bs e)

pub spare-remove_at : (cs : List (List ℕ)) (i : ℕ) → spare (remove_at cs i) ≤ spare cs
spare-remove_at [] i = omega arith
spare-remove_at (c ∷ cs) zero = omega arith
spare-remove_at (c ∷ cs) (suc i) = omega (arith, spare-remove_at cs i)

module _ (test : List ℕ → Bool) where
  pub all_of-set :
      (cs : List (List ℕ)) (i : ℕ) (bs : List ℕ)
      → all_of test cs ≡ true
      → test bs ≡ true
      → all_of test (set cs i bs) ≡ true
  all_of-set [] i bs h t = refl
  all_of-set (c ∷ cs) zero bs h t = ground arith
  all_of-set (c ∷ cs) (suc i) bs h t = ground (arith, all_of-set cs i bs)

  pub all_of-remove_at :
      (cs : List (List ℕ)) (i : ℕ) → all_of test cs ≡ true → all_of test (remove_at cs i) ≡ true
  all_of-remove_at [] i h = refl
  all_of-remove_at (c ∷ cs) zero h = ground arith
  all_of-remove_at (c ∷ cs) (suc i) h = ground (arith, all_of-remove_at cs i)

pub length-remove_at :
    (cs : List (List ℕ)) (i : ℕ) {bs : List ℕ}
    → get_elem? cs i ≡ some bs
    → suc (length (remove_at cs i)) ≡ length cs
length-remove_at [] i e = cc
length-remove_at (c ∷ cs) zero e = refl
length-remove_at (c ∷ cs) (suc i) e = omega (arith, length-remove_at cs i e)

pub holds-append : (b c : ℕ) (bs : List ℕ) → holds b bs ≡ true → holds b (bs ++ c ∷ []) ≡ true
holds-append b c [] h = ground arith
holds-append b c (x ∷ bs) h = ground (arith, holds-append b c bs)

pub holds-last : (b : ℕ) (bs : List ℕ) → holds b (bs ++ b ∷ []) ≡ true
holds-last b [] = let self : (b == b) ≡ true = ground arith in rw self refl
holds-last b (x ∷ bs) = ground (arith, holds-last b bs)

-- More in the log.
pub is_logged-append :
    (c : ℕ) (blocks bs : List ℕ)
    → is_logged blocks bs ≡ true
    → is_logged (blocks ++ c ∷ []) bs ≡ true
is_logged-append c blocks [] h = refl
is_logged-append c blocks (b ∷ bs) h =
    ground (arith, holds-append b c blocks, is_logged-append c blocks bs)

pub all_logged-append :
    (c : ℕ) (blocks : List ℕ) (cs : List (List ℕ))
    → all_of (is_logged blocks) cs ≡ true
    → all_of (is_logged (blocks ++ c ∷ [])) cs ≡ true
all_logged-append c blocks [] h = refl
all_logged-append c blocks (bs ∷ cs) h =
    ground (arith, is_logged-append c blocks bs, all_logged-append c blocks cs)

-- A block that a call has written is in the log.
pub holds-is_logged :
    (b : ℕ) (blocks bs : List ℕ)
    → is_logged blocks bs ≡ true
    → holds b bs ≡ true
    → holds b blocks ≡ true
holds-is_logged b blocks [] h e = cc
holds-is_logged b blocks (x ∷ bs) h e = elim (Bool-cases (x == b)) [
  | inl k ↦ let same : x ≡ b = ground arith in let h' = rw same at h in ground arith
  | inr k ↦ holds-is_logged b blocks bs (ground arith) (ground arith)
]
