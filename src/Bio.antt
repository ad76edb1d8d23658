-- ===== src/Bio.antt =====
-- The buffer cache of kernel/bio.c. The doubly linked list is the list of the buffers from
-- `head.next`, the most recently used, to `head.prev`. A buffer's place in `bcache.buf` is its `slot`.
-- Each buffer's sleep lock is that of Locks, and is not part of this state.
pub mod Cache
mod Tests
use mathlib.Core.Option
use cs202_lab.Prelude.{
  ℕ, zero, suc, ◌+◌, ◌-◌, Bool, true, false, not, List, [], ◌∷◌, ◌==◌, ◌&&◌, ◌||◌, Option, none,
  some, if◌then◌else◌, add32, sub32,
}

pub record Buf : Type 0 where
  pub slot : ℕ
  pub valid : Bool
  pub dev : ℕ
  pub blockno : ℕ
  pub refcnt : ℕ

abbrev pub has_key : ℕ → ℕ → Buf → Bool
has_key dev' blockno' b = (b.dev == dev') && (b.blockno == blockno')

-- `binit`: each of the `n` zeroed buffers goes to the front.
unfoldable pub binit_from : ℕ → ℕ → List Buf → List Buf
binit_from zero i bs = bs
binit_from (suc n) i bs =
    binit_from n (suc i) (record { slot = i; valid = false; dev = 0; blockno = 0; refcnt = 0 } ∷ bs)

unfoldable pub binit : ℕ → List Buf
unfolding binit_from
binit nbuf = binit_from nbuf 0 []

-- The first loop of `bget`: the cached block, one more time in use, and its slot.
unfoldable pub find_cached : ℕ → ℕ → List Buf → Option (ℕ × List Buf)
find_cached dev' blockno' [] = none
find_cached dev' blockno' (b ∷ bs) =
    if has_key dev' blockno' b
    then some (b.slot, record b { refcnt = add32 b.refcnt 1 } ∷ bs)
    else Option.map (λ r. (r.0, b ∷ r.1)) (find_cached dev' blockno' bs)

abbrev pub recycled : ℕ → ℕ → Buf → Buf
recycled dev' blockno' b = record b { dev = dev'; blockno = blockno'; valid = false; refcnt = 1 }

-- The second loop, from the end of the list: the least recently used buffer that nobody uses.
unfoldable pub recycle : ℕ → ℕ → List Buf → Option (ℕ × List Buf)
recycle dev' blockno' [] = none
recycle dev' blockno' (b ∷ bs) = elim (recycle dev' blockno' bs) [
  | some r ↦ some (r.0, b ∷ r.1)
  | none ↦ if b.refcnt == 0 then some (b.slot, recycled dev' blockno' b ∷ bs) else none
]

-- `bget` up to `acquiresleep`: `none` is the panic.
unfoldable pub bget : ℕ → ℕ → List Buf → Option (ℕ × List Buf)
unfolding find_cached recycle
bget dev' blockno' bs = elim (find_cached dev' blockno' bs) [
  | some r ↦ some r
  | none ↦ recycle dev' blockno' bs
]

-- `brelse` behind `releasesleep`: the count goes down, and an unused buffer goes to the front.
unfoldable pub take_slot : ℕ → List Buf → Option (Buf × List Buf)
take_slot i [] = none
take_slot i (b ∷ bs) =
    if b.slot == i then some (b, bs) else Option.map (λ r. (r.0, b ∷ r.1)) (take_slot i bs)

unfoldable pub change_count : ℕ → (ℕ → ℕ) → List Buf → List Buf
change_count i f [] = []
change_count i f (b ∷ bs) =
    if b.slot == i then record b { refcnt = f b.refcnt } ∷ bs else b ∷ change_count i f bs

unfoldable pub brelse : ℕ → List Buf → List Buf
unfolding take_slot change_count
brelse i bs = elim (take_slot i bs) [
  | none ↦ bs
  | some (b, rest) ↦
      if sub32 b.refcnt 1 == 0
      then record b { refcnt = sub32 b.refcnt 1 } ∷ rest
      else change_count i (λ n. sub32 n 1) bs
]

unfoldable pub bpin : ℕ → List Buf → List Buf
unfolding change_count
bpin i bs = change_count i (λ n. add32 n 1) bs

unfoldable pub bunpin : ℕ → List Buf → List Buf
unfolding change_count
bunpin i bs = change_count i (λ n. sub32 n 1) bs
