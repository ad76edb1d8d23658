-- ===== src/Fs/Stable.antt =====
-- `bmap` gives a block of the file a place, and gives the same place ever after.
use cs202_lab.Prelude.{
  ℕ, ◌+◌, ◌-◌, ◌<◌, ◌≡◌, ◌≢◌, ◌⊎◌, inl, inr, refl, ap, ◌∙◌, true, false, ◌||◌, ltb, Option, none,
  some, get_or, length, arith, Bool-cases,
}
use cs202_lab.Fs.Blocks.{Disk, ndirect, nindirect, is_used}
use cs202_lab.Fs.Bmap.{Content, slot_block, word_block, bmap}
use cs202_lab.Fs.Marks.{Filled, MapUsed}
use cs202_lab.Fs.Slots.{
  SlotDone, WordDone, slot_block-SlotDone, slot_again, word_block-WordDone, Grown-zero, Grown-full,
}

module _ (bmapstart size : ℕ) where
  -- What `bmap` of block `bn` of the file does, by its result; `c1` and `c2` are two blocks of the disk.
  abbrev pub Placed : ℕ → ℕ → ℕ → Disk → Option (ℕ × (Content × Disk)) → Type 0
  Placed c1 c2 bn d none =
      (ltb bn (ndirect + nindirect) ≡ false)
      ⊎ ((is_used bmapstart c1 d || is_used bmapstart c2 d) ≡ true)
  Placed c1 c2 bn d (some (a, (ip, d'))) =
      (a ≢ 0) × (bmap bmapstart size ip bn d' ≡ some (a, (ip, d')))

  pub bmap-direct :
      (ip : Content) (bn : ℕ) (d : Disk)
      → ltb bn ndirect ≡ true
      → bmap bmapstart size ip bn d ≡ slot_block bmapstart size bn ip d
  unfolding bmap
  bmap-direct ip bn d h = rw h refl

  pub bmap-indirect :
      (ip : Content) (bn : ℕ) (d : Disk)
      → ltb bn ndirect ≡ false
      → ltb (bn - ndirect) nindirect ≡ true
      → bmap bmapstart size ip bn d
        ≡ word_block bmapstart size (bn - ndirect) (slot_block bmapstart size ndirect ip d)
  unfolding bmap
  bmap-indirect ip bn d h k = rw (h, k) refl

  bmap-beyond :
      (ip : Content) (bn : ℕ) (d : Disk)
      → ltb bn ndirect ≡ false
      → ltb (bn - ndirect) nindirect ≡ false
      → bmap bmapstart size ip bn d ≡ none
  unfolding bmap
  bmap-beyond ip bn d h k = rw (h, k) refl

  full_used :
      (c1 c2 : ℕ) (d : Disk)
      → c1 < size
      → Filled bmapstart 0 size d
      → (is_used bmapstart c1 d || is_used bmapstart c2 d) ≡ true
  full_used c1 c2 d lt full = rw (full c1 (omega arith) lt) refl

  direct-Placed :
      (c1 c2 bn : ℕ) (d : Disk) (o : Option (ℕ × (Content × Disk)))
      → c1 < size
      → ltb bn ndirect ≡ true
      → SlotDone bmapstart size bn d o
      → Placed c1 c2 bn d o
  direct-Placed c1 c2 bn d none lt h full = inr (full_used c1 c2 d lt full)
  direct-Placed c1 c2 bn d (some (b, (ip, d'))) lt h (ne, at, _) =
      (ne, bmap-direct ip bn d' h ∙ slot_again bmapstart size bn b ip d' ne at)

  word-Placed :
      (c1 c2 bn b : ℕ) (ip : Content) (d d' : Disk) (o : Option (ℕ × (Content × Disk)))
      → ltb bn ndirect ≡ false
      → ltb (bn - ndirect) nindirect ≡ true
      → b ≢ 0
      → get_or ip.addrs ndirect 0 ≡ b
      → (Filled bmapstart 0 size d' → (is_used bmapstart c1 d || is_used bmapstart c2 d) ≡ true)
      → WordDone bmapstart size (bn - ndirect) b ip d' o
      → Placed c1 c2 bn d o
  word-Placed c1 c2 bn b ip d d' none h k ne at full w = inr (full w)
  word-Placed c1 c2 bn b ip d d' (some (a, (ip', d''))) h k ne at full (ne', same, again) =
      let at' = ap (λ (x : Content). get_or x.addrs ndirect 0) same ∙ at in
      (
        ne',
        bmap-indirect ip' bn d'' h k
            ∙ ap (word_block bmapstart size (bn - ndirect))
                (slot_again bmapstart size ndirect b ip' d'' ne at')
            ∙ again,
      )

  indirect-Placed :
      (c1 c2 bn : ℕ) (d : Disk) (o : Option (ℕ × (Content × Disk)))
      → c1 < size
      → c2 < size
      → c1 ≢ c2
      → MapUsed bmapstart size d
      → is_used bmapstart 0 d ≡ true
      → ltb bn ndirect ≡ false
      → ltb (bn - ndirect) nindirect ≡ true
      → SlotDone bmapstart size ndirect d o
      → Placed c1 c2 bn d (word_block bmapstart size (bn - ndirect) o)
  indirect-Placed c1 c2 bn d none lt lt' ne m z h k full = inr (full_used c1 c2 d lt full)
  indirect-Placed c1 c2 bn d (some (b, (ip, d'))) lt lt' ne m z h k (bne, at, grown) =
      word-Placed c1 c2 bn b ip d d' _ h k bne at
        (λ full. Grown-full bmapstart size c1 c2 d d' lt lt' ne m grown full)
        (word_block-WordDone bmapstart size (bn - ndirect) b ip d'
          (Grown-zero bmapstart size d d' (omega arith) m grown z))

  -- On a disk where block 0 and the bit map are in use, `bmap` panics, apart from its `log_write`, only
  -- for a block of the file from MAXFILE on, or when at most one block of the disk is free. Else it
  -- returns an address other than 0, and from then on the same call returns this address and changes
  -- nothing.
  pub bmap_lem :
      (c1 c2 bn : ℕ) (ip : Content) (d : Disk)
      → c1 < size
      → c2 < size
      → c1 ≢ c2
      → ndirect < length ip.addrs
      → MapUsed bmapstart size d
      → is_used bmapstart 0 d ≡ true
      → Placed c1 c2 bn d (bmap bmapstart size ip bn d)
  bmap_lem c1 c2 bn ip d lt lt' ne len m z = elim (Bool-cases (ltb bn ndirect)) [
    | inl h ↦ rw (bmap-direct ip bn d h) (
        direct-Placed c1 c2 bn d _ lt h
          (slot_block-SlotDone bmapstart size bn ip d (ground arith) z))
    | inr h ↦ elim (Bool-cases (ltb (bn - ndirect) nindirect)) [
      | inl k ↦ rw (bmap-indirect ip bn d h k) (
          indirect-Placed c1 c2 bn d _ lt lt' ne m z h k
            (slot_block-SlotDone bmapstart size ndirect ip d len z))
      | inr k ↦ rw (bmap-beyond ip bn d h k) (inl (ground arith))
    ]
  ]
