-- ===== src/Fs/Blocks.antt =====
-- Blocks of a file: `balloc`, `bfree`, `bzero`, `bmap` and `itrunc` of kernel/fs.c. A block is seen as
-- bytes, or as the 32-bit words of an indirect block, each as the buffer cache shows it; it is used in
-- one of the two ways at a time. `none` is a panic, but for that of `log_write`: it makes `log` none for
-- good, which is then the panic of the calls above. The disk has fewer than 2^31 blocks.
use cs202_lab.Prelude.{
  ℕ, zero, suc, ◌+◌, ◌-◌, ◌*◌, ◌/◌, ◌%◌, min, Bool, not, ◌==◌, ◌&&◌, Option, none, some,
  if◌then◌else◌,
}
use cs202_lab.Log.{Log, log_write}

-- The blocks as the buffer cache shows them, and the log of the transaction.
pub record Disk : Type 0 where
  pub bytes : ℕ → ℕ → ℕ
  pub words : ℕ → ℕ → ℕ
  pub log : Option Log

-- `log_write(bp)` of block `b`, after any number of them.
abbrev pub log_call : ℕ → Option Log → Option Log
log_call b none = none
log_call b (some l) = log_write b l

abbrev pub logged : ℕ → Disk → Disk
logged b d = record d { log = log_call b d.log }

-- `x & (1 << k)` as a test, `x | 1 << k` and `x & ~(1 << k)`.
abbrev pub bit : ℕ → ℕ → Bool
bit zero x = x % 2 == 1
bit (suc k) x = bit k (x / 2)

abbrev pub set_bit : ℕ → ℕ → ℕ
set_bit zero x = x / 2 * 2 + 1
set_bit (suc k) x = x % 2 + set_bit k (x / 2) * 2

abbrev pub clear_bit : ℕ → ℕ → ℕ
clear_bit zero x = x / 2 * 2
clear_bit (suc k) x = x % 2 + clear_bit k (x / 2) * 2

-- `BPB`, `NDIRECT` and `NINDIRECT`
abbrev pub bpb : ℕ
bpb = 8192

abbrev pub ndirect : ℕ
ndirect = 12

abbrev pub nindirect : ℕ
nindirect = 256

-- `bzero`
abbrev pub bzero : ℕ → Disk → Disk
bzero b d = record {
  bytes = λ c i. if c == b then 0 else d.bytes c i;
  words = λ c i. if c == b then 0 else d.words c i;
  log = log_call b d.log;
}

-- A write of one byte of a block.
abbrev pub put_byte : ℕ → ℕ → ℕ → Disk → Disk
put_byte b i x d = record d { bytes = λ c j. if (c == b) && (j == i) then x else d.bytes c j }

-- `bmapstart` of the super block.
module _ (bmapstart : ℕ) where
  -- `BBLOCK`
  abbrev pub bblock : ℕ → ℕ
  bblock b = b / bpb + bmapstart

  -- Whether the bit map has the bit of a block.
  abbrev pub is_used : ℕ → Disk → Bool
  is_used b d = bit (b % bpb % 8) (d.bytes (bblock b) (b % bpb / 8))

  -- `bp->data[bi/8] |= m` and `bp->data[bi/8] &= ~m`, with the `log_write` behind them
  abbrev pub mark_used : ℕ → Disk → Disk
  mark_used b d = logged (bblock b) (
      put_byte (bblock b) (b % bpb / 8) (set_bit (b % bpb % 8) (d.bytes (bblock b) (b % bpb / 8)))
        d)

  abbrev pub mark_free : ℕ → Disk → Disk
  mark_free b d = logged (bblock b) (
      put_byte (bblock b) (b % bpb / 8) (clear_bit (b % bpb % 8) (d.bytes (bblock b) (b % bpb / 8)))
        d)

  -- The inner loop of `balloc`, with `n` bits to go from block `b`: the first free block.
  unfoldable pub scan_bits : ℕ → ℕ → Disk → Option ℕ
  scan_bits zero b d = none
  scan_bits (suc n) b d = let more = scan_bits n (suc b) d in if is_used b d then more else some b

  -- The outer loop, with `n` blocks of the map to go.
  abbrev pub found_or : Disk → Option (ℕ × Disk) → Option ℕ → Option (ℕ × Disk)
  found_or d more none = more
  found_or d more (some b) = some (b, bzero b (mark_used b d))

  unfoldable pub scan_map : ℕ → ℕ → ℕ → Disk → Option (ℕ × Disk)
  unfolding scan_bits
  scan_map size zero b d = none
  scan_map size (suc n) b d =
      found_or d (scan_map size n (b + bpb) d) (scan_bits (min bpb (size - b)) b d)

  -- `size` is that of the super block.
  unfoldable pub balloc : ℕ → Disk → Option (ℕ × Disk)
  unfolding scan_map
  balloc size d = scan_map size ((size + bpb - 1) / bpb) 0 d

  unfoldable pub bfree : ℕ → Disk → Option Disk
  bfree b d = if not (is_used b d) then none else some (mark_free b d)
