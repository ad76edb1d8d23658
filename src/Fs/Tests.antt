-- ===== src/Fs/Tests.antt =====
-- The theorems on the blocks of the disk and of files, and a path, at concrete inputs.
use cs202_lab.Prelude.{
  false, ℕ, ◌/◌, ◌&&◌, if◌then◌else◌, sym, arith, replicate, ◌≡◌, refl, List, [], ◌∷◌, ◌==◌, some,
  zero, suc, ◌%◌, ap, inl, inr, ◌∙◌, get_or,
}
use cs202_lab.Fs.{skipelem}
use cs202_lab.Fs.Blocks.{Disk, log_call, balloc}
use cs202_lab.Fs.Bmap.{Content, bmap, itrunc}
use cs202_lab.Fs.Marks.{MapUsed, Balloced, balloc_lem}
use cs202_lab.Fs.Stable.{Placed, bmap_lem}
use cs202_lab.Log.{Log}
use cs202_lab.Fs.Room.{HasRoom}
use cs202_lab.Fs.Rw.{get_kernel, put_kernel, readi, writei}
use cs202_lab.Fs.Sound.{slot, IsReady, IsSound}
use cs202_lab.Fs.Free.{free_below}
use cs202_lab.Fs.Written.{Written, writei_lem}
use cs202_lab.Strings.{Memory}
use cs202_lab.Fs.RoundTrip.{Restored, writei-readi}
use cs202_lab.Fs.Read.{IsFull, available, ReadBytes, readi_lem}
use cs202_lab.Fs.Words.{slot_cases, slot-direct, slot-last, slot-middle}
use cs202_lab.Fs.Truncate.{Truncated, itrunc_lem}

-- "//a//b"
abbrev path_text : List ℕ
path_text = 47 ∷ 47 ∷ 97 ∷ 47 ∷ 47 ∷ 98 ∷ []

skip_run : skipelem path_text ≡ some (98 ∷ [], 97 ∷ [])
unfolding skipelem
skip_run = refl

-- The log of one transaction, which has written nothing.
abbrev new_log : Log
new_log = record {
  start = 10;
  size = 31;
  outstanding = 1;
  committing = false;
  blocks = [];
  view = λ b. [];
  pins = λ b. 0;
}

-- A disk of six blocks, with blocks 0 and 2 in use, where 2 holds the bit map.
abbrev small : Disk
small = record {
  bytes = λ b i. if (b == 2) && (i == 0) then 5 else 7;
  words = λ b i. 0;
  log = some new_log;
}

small-MapUsed : MapUsed 2 6 small
small-MapUsed c lt = let low : 0 ≡ c / 8192 = omega arith in rw (sym low) refl

abbrev small_after : Disk
small_after = record {
  bytes = λ b i. if b == 1 then 0 else if (b == 2) && (i == 0) then 7 else small.bytes b i;
  words = λ b i. if b == 1 then 0 else small.words b i;
  log = log_call 1 (log_call 2 small.log);
}

balloc_run : balloc 2 6 small ≡ some (1, small_after)
unfolding balloc
balloc_run = refl

balloc_lem_example : Balloced 2 6 3 9 small (balloc 2 6 small)
balloc_lem_example = balloc_lem 2 6 3 9 small (omega arith) small-MapUsed

abbrev empty_file : Content
empty_file = record { addrs = replicate 13 0; size = 0 }

bmap_lem_example : Placed 2 6 3 4 20 small (bmap 2 6 empty_file 20 small)
bmap_lem_example =
    bmap_lem 2 6 3 4 20 empty_file small (omega arith) (omega arith) (λ (e : 3 ≡ 4). omega arith)
      (omega arith) small-MapUsed refl

-- A file with block 1.
abbrev one_block : Content
one_block = record { addrs = 1 ∷ replicate 12 0; size = 100 }

itrunc_lem_example : Truncated 2 one_block 1 small_after (itrunc 2 one_block small_after)
itrunc_lem_example = itrunc_lem 2 one_block 1 small_after

small-IsReady : IsReady 2 6 small
small-IsReady = record {
  zero_used = refl;
  map_used = small-MapUsed;
  room = λ c lt. let low : 0 ≡ c / 8192 = omega arith in rw (sym low) (omega arith);
}

-- Every slot of the empty file is a hole.
zeros : (n k : ℕ) → ◌≡◌ {A = ℕ} (get_or (replicate n 0) k 0) 0
zeros zero k = refl
zeros (suc n) zero = refl
zeros (suc n) (suc k) = zeros n k

empty_file-hole : (k : ℕ) → slot empty_file small k ≡ 0
empty_file-hole k = elim (slot_cases k) [
  | inl h ↦ slot-direct k empty_file small h ∙ zeros 13 k
  | inr (inl e) ↦ ap (slot empty_file small) e ∙ slot-last empty_file small
  | inr (inr (h, g)) ↦ slot-middle k empty_file small h g
]

empty_file-IsSound : IsSound 2 6 empty_file small
empty_file-IsSound = record {
  ready = small-IsReady;
  entries = refl;
  within = λ k le ne. absurd (ne (empty_file-hole k));
  used = λ k le ne. absurd (ne (empty_file-hole k));
  once = λ k l le le' ne e. absurd (ne (empty_file-hole k));
  apart = λ k c le lt ne e. absurd (ne (empty_file-hole k));
}

-- Ten bytes of a memory where each byte is its address, into the empty file.
abbrev low_bytes : ℕ → ℕ
low_bytes a = a % 256

small-HasRoom : HasRoom 8 small.log
small-HasRoom = (omega arith, omega arith, omega arith)

small-free : free_below 2 6 small ≡ 4
unfolding free_below
small-free = refl

writei_lem_example :
    Written 2 6 0 low_bytes
      (get_kernel low_bytes)
      50
      3
      10
      0
      empty_file
      small
      (writei 2 6 (get_kernel low_bytes) 3 50 0 10 empty_file small)
writei_lem_example =
    writei_lem 2 6 low_bytes (get_kernel low_bytes) (λ src m. refl) 3 0 3 50 0 10 empty_file small
      (omega arith) (omega arith) (omega arith) (omega arith) empty_file-IsSound
      (omega (arith, small-free)) small-HasRoom

one_block-IsFull : IsFull 100 one_block small
unfolding slot
one_block-IsFull zero lt e = absurd (omega (arith, e))
one_block-IsFull (suc k) lt e = absurd (omega arith)

-- The 10 bytes from 95 on, of which the file has 5.
readi_lem_example :
    ReadBytes 2 6 303 300 95
      (available 2 6 95 10 one_block)
      one_block
      small
      low_bytes
      (readi 2 6 put_kernel 300 95 10 one_block small low_bytes)
readi_lem_example =
    readi_lem 2 6 303 300 95 10 one_block small low_bytes (omega arith) (omega arith) (omega arith)
      one_block-IsFull

-- The same ten bytes, read back.
writei-readi_example :
    (ip' : Content) × (d' : Disk) × (writei 2 6 (get_kernel low_bytes) 3 50 0 10 empty_file small
      ≡ some (some 10, (ip', d')))
    × IsSound 2 6 ip' d'
    × ((q dst : ℕ) (m : Memory)
        → Restored 2 6 low_bytes 50 q dst 10 ip' d' m (readi 2 6 put_kernel dst 0 10 ip' d' m))
writei-readi_example =
    writei-readi 2 6 3 low_bytes 50 0 10 empty_file small (omega arith) (omega arith)
      empty_file-IsSound (λ k lt. absurd (omega arith)) (omega arith) (omega (arith, small-free))
      small-HasRoom refl
