-- ===== src/Fs/Slots.antt =====
-- The two places of `bmap` that allocate: an entry of `addrs`, and a word of the indirect block.
use cs202_lab.Prelude.{
  ℕ, ◌<◌, ◌≡◌, ◌≢◌, ◌⊎◌, inl, inr, refl, sym, ap, ◌∙◌, true, false, ◌==◌, ◌&&◌, ◌||◌, Option, none,
  some, get_or, length, get_or-set_self, arith, Bool-cases,
}
use cs202_lab.Fs.Blocks.{Disk, is_used, bzero, mark_used, balloc}
use cs202_lab.Fs.Bmap.{Content, put_word, fill_slot, slot_block, fill_word, word_block}
use cs202_lab.Fs.Marks.{Filled, First, MapUsed, balloc-First, First-marks}

module _ (bmapstart size : ℕ) where
  -- A disk that is as before, or on which one free block has been allocated.
  abbrev pub Grown : Disk → Disk → Type 0
  Grown d d' =
      (d' ≡ d)
      ⊎ ((r : ℕ) × (is_used bmapstart r d ≡ false) × (d' ≡ bzero r (mark_used bmapstart r d)))

  -- What `slot_block` does.
  abbrev pub SlotDone : ℕ → Disk → Option (ℕ × (Content × Disk)) → Type 0
  SlotDone i d none = Filled bmapstart 0 size d
  SlotDone i d (some (b, (ip, d'))) = (b ≢ 0) × (get_or ip.addrs i 0 ≡ b) × Grown d d'

  -- The free block that is found is not block 0.
  not_zero :
      (r : ℕ) (d : Disk) → is_used bmapstart 0 d ≡ true → is_used bmapstart r d ≡ false → r ≢ 0
  not_zero r d z free e = let used = ap (λ x. is_used bmapstart x d) e in cc

  fill_slot-SlotDone :
      (i : ℕ) (ip : Content) (d : Disk) (o : Option (ℕ × Disk))
      → i < length ip.addrs
      → is_used bmapstart 0 d ≡ true
      → First bmapstart size d o
      → SlotDone i d (fill_slot bmapstart size i ip o)
  fill_slot-SlotDone i ip d none lt z f = f
  fill_slot-SlotDone i ip d (some (b, d')) lt z (hi, free, f, e) =
      (not_zero b d z free, get_or-set_self ip.addrs i b 0 lt, inr (b, free, e))

  pub slot_block-SlotDone :
      (i : ℕ) (ip : Content) (d : Disk)
      → i < length ip.addrs
      → is_used bmapstart 0 d ≡ true
      → SlotDone i d (slot_block bmapstart size i ip d)
  unfolding slot_block
  slot_block-SlotDone i ip d lt z = elim (Bool-cases (get_or ip.addrs i 0 == 0)) [
    | inl e ↦
        rw e
          (fill_slot-SlotDone i ip d (balloc bmapstart size d) lt z (balloc-First bmapstart size d))
    | inr e ↦ rw e ((λ h. ground arith), refl, inl refl)
  ]

  pub slot_again :
      (i b : ℕ) (ip : Content) (d : Disk)
      → b ≢ 0
      → get_or ip.addrs i 0 ≡ b
      → slot_block bmapstart size i ip d ≡ some (b, (ip, d))
  unfolding slot_block
  slot_again i b ip d ne e =
      let old : (get_or ip.addrs i 0 == 0) ≡ false = ground arith in rw (old, e) refl

  -- What the test of a word of the indirect block `b` does.
  abbrev pub WordDone : ℕ → ℕ → Content → Disk → Option (ℕ × (Content × Disk)) → Type 0
  WordDone j b ip d none = Filled bmapstart 0 size d
  WordDone j b ip d (some (a, (ip', d'))) =
      (a ≢ 0)
      × (ip' ≡ ip)
      × (word_block bmapstart size j (some (b, (ip', d'))) ≡ some (a, (ip', d')))

  pub word_again :
      (j b a : ℕ) (ip : Content) (d : Disk)
      → a ≢ 0
      → d.words b j ≡ a
      → word_block bmapstart size j (some (b, (ip, d))) ≡ some (a, (ip, d))
  word_again j b a ip d ne e =
      let old : (d.words b j == 0) ≡ false = ground arith in rw (old, e) refl

  fill_word-WordDone :
      (j b : ℕ) (ip : Content) (d : Disk) (o : Option (ℕ × Disk))
      → is_used bmapstart 0 d ≡ true
      → First bmapstart size d o
      → WordDone j b ip d (fill_word bmapstart size b j ip o)
  fill_word-WordDone j b ip d none z f = f
  fill_word-WordDone j b ip d (some (x, d')) z (hi, free, f, e) =
      let ne = not_zero x d z free in
      let here : ((b == b) && (j == j)) ≡ true = ground arith in
      let word : (put_word b j x d').words b j ≡ x = rw here refl in
      (ne, refl, word_again j b x ip (put_word b j x d') ne word)

  pub word_block-WordDone :
      (j b : ℕ) (ip : Content) (d : Disk)
      → is_used bmapstart 0 d ≡ true
      → WordDone j b ip d (word_block bmapstart size j (some (b, (ip, d))))
  word_block-WordDone j b ip d z = elim (Bool-cases (d.words b j == 0)) [
    | inl e ↦
        rw e
          (fill_word-WordDone j b ip d (balloc bmapstart size d) z (balloc-First bmapstart size d))
    | inr e ↦
        let ne : d.words b j ≢ 0 = λ h. ground arith in
        rw e (ne, refl, word_again j b (d.words b j) ip d ne refl)
  ]

  -- A mark that is set on the grown disk, off the new block, was set before.
  pub Grown-zero :
      (d d' : Disk)
      → 0 < size
      → MapUsed bmapstart size d
      → Grown d d'
      → is_used bmapstart 0 d ≡ true
      → is_used bmapstart 0 d' ≡ true
  Grown-zero d d' pos m (inl e) z = ap (is_used bmapstart 0) e ∙ z
  Grown-zero d d' pos m (inr (r, free, e)) z =
      ap (is_used bmapstart 0) e ∙ First-marks bmapstart size 0 r d pos m free ∙ ground arith

  -- A disk that is full after it has grown had one free block at most.
  pub Grown-full :
      (c1 c2 : ℕ) (d d' : Disk)
      → c1 < size
      → c2 < size
      → c1 ≢ c2
      → MapUsed bmapstart size d
      → Grown d d'
      → Filled bmapstart 0 size d'
      → (is_used bmapstart c1 d || is_used bmapstart c2 d) ≡ true
  Grown-full c1 c2 d d' lt lt' ne m (inl e) full =
      let used = sym (ap (is_used bmapstart c1) e) ∙ full c1 (omega arith) lt in rw used refl
  Grown-full c1 c2 d d' lt lt' ne m (inr (r, free, e)) full =
      let p =
        sym (ap (is_used bmapstart c1) e ∙ First-marks bmapstart size c1 r d lt m free)
        ∙ full c1 (omega arith) lt in
      let q =
        sym (ap (is_used bmapstart c2) e ∙ First-marks bmapstart size c2 r d lt' m free)
        ∙ full c2 (omega arith) lt' in
      elim (Bool-cases (c1 == r)) [
        | inl at ↦ let other : (c2 == r) ≡ false = ground arith in ground (arith, p, q)
        | inr off ↦ ground (arith, p, q)
      ]
