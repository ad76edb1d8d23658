-- ===== src/Fs/Bmap.antt =====
-- `bmap` and `itrunc`, over the blocks of Fs/Blocks.
use cs202_lab.Prelude.{
  ℕ, zero, suc, ◌+◌, ◌-◌, List, [], ◌∷◌, ◌==◌, ◌&&◌, ltb, Option, none, some, if◌then◌else◌, get_or,
  set, take, replicate,
}
use cs202_lab.Fs.Blocks.{Disk, log_call, ndirect, nindirect, balloc, bfree}

-- The fields of `struct inode` that its own lock guards: `addrs`, with NDIRECT + 1 entries, and `size`.
pub record Content : Type 0 where
  pub addrs : List ℕ
  pub size : ℕ

-- `a[j] = x` in an indirect block, and its `log_write`.
abbrev pub put_word : ℕ → ℕ → ℕ → Disk → Disk
put_word b j x d = record d {
  words = λ c i. if (c == b) && (i == j) then x else d.words c i;
  log = log_call b d.log;
}

module _ (bmapstart sb_size : ℕ) where
  -- `if((addr = ip->addrs[i]) == 0) ip->addrs[i] = addr = balloc(ip->dev);`
  abbrev pub fill_slot : ℕ → Content → Option (ℕ × Disk) → Option (ℕ × (Content × Disk))
  fill_slot i ip none = none
  fill_slot i ip (some (b, d)) = some (b, (record ip { addrs = set ip.addrs i b }, d))

  unfoldable pub slot_block : ℕ → Content → Disk → Option (ℕ × (Content × Disk))
  slot_block i ip d =
      let new = fill_slot i ip (balloc bmapstart sb_size d) in
      if get_or ip.addrs i 0 == 0 then new else some (get_or ip.addrs i 0, (ip, d))

  -- The same for `a[j]` of the indirect block.
  abbrev pub fill_word : ℕ → ℕ → Content → Option (ℕ × Disk) → Option (ℕ × (Content × Disk))
  fill_word b j ip none = none
  fill_word b j ip (some (x, d)) = some (x, (ip, put_word b j x d))

  abbrev pub word_block : ℕ → Option (ℕ × (Content × Disk)) → Option (ℕ × (Content × Disk))
  word_block j none = none
  word_block j (some (b, (ip, d))) =
      let new = fill_word b j ip (balloc bmapstart sb_size d) in
      if d.words b j == 0 then new else some (d.words b j, (ip, d))

  unfoldable pub bmap : Content → ℕ → Disk → Option (ℕ × (Content × Disk))
  unfolding slot_block
  bmap ip bn d =
      if ltb bn ndirect
      then slot_block bn ip d
      else if ltb (bn - ndirect) nindirect
      then word_block (bn - ndirect) (slot_block ndirect ip d)
      else none

-- The rest of a loop of `itrunc`, behind a `bfree`.
abbrev pub and_then : (Disk → Option Disk) → Option Disk → Option Disk
and_then more none = none
and_then more (some d) = more d

module _ (bmapstart : ℕ) where
  abbrev pub free_if : ℕ → Disk → Option Disk
  free_if b d = if b == 0 then some d else bfree bmapstart b d

  -- The loop on the direct blocks.
  unfoldable pub free_direct : List ℕ → Disk → Option Disk
  free_direct [] d = some d
  free_direct (b ∷ bs) d = and_then (free_direct bs) (free_if b d)

  -- The loop on the words of the indirect block `b`, with `n` to go from `j`.
  unfoldable pub free_words : ℕ → ℕ → ℕ → Disk → Option Disk
  free_words zero j b d = some d
  free_words (suc n) j b d = and_then (free_words n (suc j) b) (free_if (d.words b j) d)

  unfoldable pub free_indirect : ℕ → Disk → Option Disk
  unfolding free_words
  free_indirect b d =
      let all = and_then (bfree bmapstart b) (free_words nindirect 0 b d) in
      if b == 0 then some d else all

  -- `itrunc`, less the write of the inode by `iupdate`.
  abbrev pub truncated : Option Disk → Option (Content × Disk)
  truncated none = none
  truncated (some d) = some (record { addrs = replicate (ndirect + 1) 0; size = 0 }, d)

  unfoldable pub itrunc : Content → Disk → Option (Content × Disk)
  unfolding free_direct free_indirect
  itrunc ip d =
      truncated (
        and_then (free_indirect (get_or ip.addrs ndirect 0))
          (free_direct (take ndirect ip.addrs) d))
