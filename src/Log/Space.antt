-- ===== src/Log/Space.antt =====
-- The space accounting of `begin_op` and `log_write`.
use cs202_lab.Prelude.{
  ℕ, suc, ◌+◌, ◌-◌, ◌<◌, ◌≤◌, ◌≡◌, ◌⊎◌, inl, inr, refl, true, false, List, [], ◌∷◌, ◌++◌, ◌==◌, leb,
  ltb, arith, length, all_of, Option, none, some, if◌then◌else◌, length-append, sub32, Bool-cases,
  get_elem?, set, length-set, ◌∙◌, all_of-get_elem?,
}
use cs202_lab.Log.{Log, log_size, begin_op, end_op_start, end_op, log_write, commit, Write}
use cs202_lab.Log.Session.Step.{begin, write, finish}
use cs202_lab.Log.Session.Reach.{here, next}
use cs202_lab.Log.Session.{
  holds, Session, may_write, written_with, remove_at, Step, Reach, spare, keeps_to, is_logged,
  spare-le, spare-set, spare-at, spare-remove_at, all_of-set, all_of-remove_at, length-remove_at,
  holds-last, all_logged-append, holds-is_logged,
}

-- The blocks in the log and those still to come fit, and what the calls have written is in the log.
pub record Reserved (s : Session) : Type 0 where
  pub fits : length s.log.blocks + spare s.calls ≤ log_size
  pub counted : s.log.outstanding ≡ length s.calls
  pub each : all_of keeps_to s.calls ≡ true
  pub logged : all_of (is_logged s.log.blocks) s.calls ≡ true
  pub few : length s.calls ≤ 3
  pub idle : s.log.committing ≡ false

begin-Reserved :
    (s : Session) (l : Log)
    → begin_op s.log ≡ some l
    → Reserved s
    → Reserved (record { log = l; calls = [] ∷ s.calls })
unfolding begin_op
begin-Reserved s l e v = ground (arith, spare-le s.calls)

-- What a `log_write` that succeeds does to the accounting.
record Logged (b : ℕ) (l l' : Log) : Type 0 where
  size : l'.size ≡ l.size
  outstanding : l'.outstanding ≡ l.outstanding
  committing : l'.committing ≡ l.committing
  blocks :
      ((holds b l.blocks ≡ true) × (l'.blocks ≡ l.blocks))
      ⊎ ((holds b l.blocks ≡ false) × (l'.blocks ≡ l.blocks ++ b ∷ []))

log_write-Logged : (b : ℕ) (l l' : Log) → log_write b l ≡ some l' → Logged b l l'
unfolding log_write
log_write-Logged b l l' e = record {
  size = ground arith;
  outstanding = ground arith;
  committing = ground arith;
  blocks = ground arith;
}

-- The log after a write that is absorbed, and after one that adds a block.
module _ (s : Session) (b i : ℕ) (bs : List ℕ) (l : Log) (at : get_elem? s.calls i ≡ some bs)
    (may : may_write b bs ≡ true) (done : Logged b s.log l) (v : Reserved s) where
  still_logged : all_of (is_logged l.blocks) s.calls ≡ true
  still_logged = elim done.blocks [
    | inl (h, e) ↦ rw e v.logged
    | inr (h, e) ↦ rw e (all_logged-append b s.log.blocks s.calls v.logged)
  ]

  now_there : holds b l.blocks ≡ true
  now_there = elim done.blocks [
    | inl (h, e) ↦ rw e h
    | inr (h, e) ↦ rw e (holds-last b s.log.blocks)
  ]

  old : is_logged l.blocks bs ≡ true
  old = all_of-get_elem? (is_logged l.blocks) s.calls i still_logged at

  old_keeps : keeps_to bs ≡ true
  old_keeps = all_of-get_elem? keeps_to s.calls i v.each at

  -- A block that the call had written is in the log already.
  length-blocks : length l.blocks + (if holds b bs then 1 else 0) ≤ length s.log.blocks + 1
  length-blocks = elim (Bool-cases (holds b bs)) [
    | inl h ↦
        let was = all_of-get_elem? (is_logged s.log.blocks) s.calls i v.logged at in
        let there = holds-is_logged b s.log.blocks bs was h in
        elim done.blocks [
          | inl (g, e) ↦ rw (h, e) (omega arith)
          | inr (g, e) ↦ absurd (ground (arith, there, g))
        ]
    | inr h ↦ elim done.blocks [
      | inl (g, e) ↦ rw (h, e) (omega arith)
      | inr (g, e) ↦ rw (h, e) (omega (arith, length-append s.log.blocks (b ∷ [])))
    ]
  ]

  write-Reserved : Reserved (record { log = l; calls = set s.calls i (written_with b bs) })
  write-Reserved =
      let sum = spare-set s.calls i bs (written_with b bs) at in
      let len = length-set s.calls i (written_with b bs) in
      record {
        fits = ground (arith, sum, v.fits, length-blocks, may, old_keeps);
        counted = done.outstanding ∙ v.counted ∙ omega (arith, len);
        each =
            all_of-set keeps_to s.calls i (written_with b bs) v.each
              (ground (arith, may, old_keeps));
        logged =
            all_of-set (is_logged l.blocks) s.calls i (written_with b bs) still_logged
              (ground (arith, old, now_there));
        few = omega (arith, v.few, len);
        idle = done.committing ∙ v.idle;
      }

-- What `end_op` does to the accounting.
record Ended (l l' : Log) : Type 0 where
  size : l'.size ≡ l.size
  outstanding : l'.outstanding ≡ sub32 l.outstanding 1
  committing : l'.committing ≡ false
  blocks : length l'.blocks ≤ length l.blocks
  kept : (l'.blocks ≡ l.blocks) ⊎ (sub32 l.outstanding 1 ≡ 0)

end_op-Ended :
    (l l' : Log) (ws : List Write) → l.committing ≡ false → end_op l ≡ some (l', ws) → Ended l l'
unfolding end_op end_op_start commit
end_op-Ended l l' ws idle e = elim (Bool-cases (sub32 l.outstanding 1 == 0)) [
  | inl h ↦ ground arith
  | inr h ↦ ground arith
]

finish-Reserved :
    (s : Session) (i : ℕ) (bs : List ℕ) (l : Log) (ws : List Write)
    → get_elem? s.calls i ≡ some bs
    → end_op s.log ≡ some (l, ws)
    → Reserved s
    → Reserved (record { log = l; calls = remove_at s.calls i })
finish-Reserved s i bs l ws at e v =
    let d = end_op-Ended s.log l ws v.idle e in
    let len = length-remove_at s.calls i at in
    record {
      fits = omega (arith, v.fits, d.blocks, spare-remove_at s.calls i);
      counted = omega (arith, d.outstanding, v.counted, v.few, len);
      each = all_of-remove_at keeps_to s.calls i v.each;
      logged = elim d.kept [
        | inl same ↦ rw same (all_of-remove_at (is_logged s.log.blocks) s.calls i v.logged)
        | inr z ↦ nothing (remove_at s.calls i) (omega (arith, z, v.counted, v.few, len))
      ];
      few = omega (arith, v.few, len);
      idle = d.committing;
    }
  where
    nothing : (cs : List (List ℕ)) → length cs ≡ 0 → all_of (is_logged l.blocks) cs ≡ true
    nothing [] z = refl
    nothing (c ∷ cs) z = absurd (omega arith)

pub Step-Reserved : {s t : Session} → Step s t → Reserved s → Reserved t
Step-Reserved (begin s l e) v = begin-Reserved s l e v
Step-Reserved (write s b i bs l at may e) v =
    write-Reserved s b i bs l at may (log_write-Logged b s.log l e) v
Step-Reserved (finish s i bs l ws at e) v = finish-Reserved s i bs l ws at e v

size-begin_op : (l l' : Log) → begin_op l ≡ some l' → l'.size ≡ l.size
unfolding begin_op
size-begin_op l l' e = ground arith

size-Step : {s t : Session} → Step s t → Reserved s → t.log.size ≡ s.log.size
size-Step (begin s l e) v = size-begin_op s.log l e
size-Step (write s b i bs l at may e) v = (log_write-Logged b s.log l e).size
size-Step (finish s i bs l ws at e) v = (end_op-Ended s.log l ws v.idle e).size

pub Reach-Reserved :
    {s t : Session} → Reserved s → Reach s t → Reserved t × (t.log.size ≡ s.log.size)
Reach-Reserved v here = (v, refl)
Reach-Reserved v (next r st) =
    let (w, e) = Reach-Reserved v r in (Step-Reserved st w, size-Step st w ∙ e)

-- What `log_write` does for a call that has written `bs`.
abbrev pub Accepted : ℕ → List ℕ → Log → Option Log → Type 0
Accepted b bs l none = (length l.blocks ≡ log_size) × (holds b bs ≡ true)
Accepted b bs l (some l') =
    (length l.blocks < log_size)
    × (holds b l'.blocks ≡ true)
    × (length l'.blocks ≡ (if holds b l.blocks then length l.blocks else suc (length l.blocks)))

log_write-Accepted :
    (b : ℕ) (bs : List ℕ) (l : Log)
    → length l.blocks ≤ log_size
    → log_size < l.size
    → 0 < l.outstanding
    → (length l.blocks < log_size) ⊎ (holds b bs ≡ true)
    → Accepted b bs l (log_write b l)
unfolding log_write
log_write-Accepted b bs l le roomy busy h = elim (Bool-cases (leb log_size (length l.blocks))) [
  | inl full ↦ rw full (ground arith, ground arith)
  | inr room ↦
      let fine : leb (l.size - 1) (length l.blocks) ≡ false = ground arith in
      let begun : ltb l.outstanding 1 ≡ false = ground arith in
      elim (Bool-cases (holds b l.blocks)) [
        | inl g ↦ rw (room, fine, begun, g) (ground arith, g, rw g refl)
        | inr g ↦
            let grown : length (l.blocks ++ b ∷ []) ≡ suc (length l.blocks) =
              length-append l.blocks (b ∷ []) ∙ omega arith in
            rw (room, fine, begun, g) (ground arith, holds-last b l.blocks, rw g grown)
      ]
]

-- In a log area of more than LOGSIZE blocks, whatever calls have begun, written and ended before,
-- each with at most MAXOPBLOCKS different blocks: a write by such a call of one of its blocks, or of
-- a new one within this number, leaves the block in the log, which grows by one if it was not there,
-- and else not at all. `log_write` panics only when LOGSIZE blocks are in the log, and then the block
-- is one that the call has written before.
pub log_write_safe :
    {s t : Session} (b i : ℕ) (bs : List ℕ)
    → Reserved s
    → log_size < s.log.size
    → Reach s t
    → get_elem? t.calls i ≡ some bs
    → may_write b bs ≡ true
    → Accepted b bs t.log (log_write b t.log)
log_write_safe {s} {t} b i bs v roomy r at may =
    let (w, e) = Reach-Reserved v r in
    let sp = spare-at t.calls i bs at in
    let len = length-remove_at t.calls i at in
    log_write-Accepted b bs t.log (omega (arith, w.fits)) (omega (arith, e, roomy))
      (omega (arith, w.counted, len)) (ground (arith, sp, w.fits, may))
