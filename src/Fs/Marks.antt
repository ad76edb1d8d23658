-- ===== src/Fs/Marks.antt =====
-- Which blocks `balloc` and `bfree` find in use, and leave so.
use cs202_lab.Prelude.{
  ℕ, zero, suc, ◌+◌, ◌-◌, ◌*◌, ◌/◌, ◌<◌, ◌≤◌, ◌≡◌, ◌≢◌, min, refl, sym, ap, ◌∙◌, true, false, ◌==◌,
  ◌||◌, leb, Option, none, some, if◌then◌else◌, arith, Bool-cases, inl, inr,
}
use cs202_lab.Fs.Blocks.{
  Disk, bpb, bzero, bblock, is_used, mark_used, mark_free, scan_bits, found_or, scan_map, balloc,
  bfree,
}
use cs202_lab.Fs.Bits.{mark_used_lem, mark_free_lem}

module _ (bmapstart : ℕ) where
  -- The blocks from `a` to before `b` are in use.
  abbrev pub Filled : ℕ → ℕ → Disk → Type 0
  Filled a b d = (c : ℕ) → a ≤ c → c < b → is_used bmapstart c d ≡ true

  -- What the inner loop finds.
  abbrev Scanned : ℕ → ℕ → Disk → Option ℕ → Type 0
  Scanned n b d none = Filled b (b + n) d
  Scanned n b d (some r) = (b ≤ r) × (r < b + n) × (is_used bmapstart r d ≡ false) × Filled b r d

  Filled-cons :
      (b e : ℕ) (d : Disk) → is_used bmapstart b d ≡ true → Filled (suc b) e d → Filled b e d
  Filled-cons b e d u h c le lt = elim (Bool-cases (c == b)) [
    | inl s ↦ let same : c ≡ b = ground arith in ap (λ x. is_used bmapstart x d) same ∙ u
    | inr s ↦ h c (ground arith) lt
  ]

  Scanned-cons :
      (n b : ℕ) (d : Disk) (o : Option ℕ)
      → is_used bmapstart b d ≡ true
      → Scanned n (suc b) d o
      → Scanned (suc n) b d o
  Scanned-cons n b d none u h = Filled-cons b (b + suc n) d u (λ c le lt. h c le (omega arith))
  Scanned-cons n b d (some r) u (lo, hi, free, h) =
      (omega (arith, lo), omega (arith, hi), free, Filled-cons b r d u h)

  scan_bits-Scanned : (n b : ℕ) (d : Disk) → Scanned n b d (scan_bits bmapstart n b d)
  unfolding scan_bits
  scan_bits-Scanned zero b d = λ c le lt. absurd (omega arith)
  scan_bits-Scanned (suc n) b d = elim (Bool-cases (is_used bmapstart b d)) [
    | inl u ↦
        rw u
          (Scanned-cons n b d (scan_bits bmapstart n (suc b) d) u (scan_bits-Scanned n (suc b) d))
    | inr u ↦ rw u (omega arith, omega arith, u, λ c le lt. absurd (omega arith))
  ]

  -- The first free block, marked and zeroed.
  abbrev pub First : ℕ → Disk → Option (ℕ × Disk) → Type 0
  First size d none = Filled 0 size d
  First size d (some (r, d')) =
      (r < size)
      × (is_used bmapstart r d ≡ false)
      × Filled 0 r d
      × (d' ≡ bzero r (mark_used bmapstart r d))

  -- The blocks below `b`, and below `e`, of the disk.
  Filled-join : (b e f : ℕ) (d : Disk) → Filled 0 b d → Filled f e d → f ≤ b → Filled 0 e d
  Filled-join b e f d below from le c lo lt = elim (Bool-cases (leb f c)) [
    | inl y ↦ from c (ground arith) lt
    | inr y ↦ below c lo (ground arith)
  ]

  found_or-First :
      (size n b : ℕ) (d : Disk) (more : Option (ℕ × Disk)) (o : Option ℕ)
      → Filled 0 (min b size) d
      → n ≤ size - b
      → Scanned n b d o
      → (Filled 0 (min (b + n) size) d → First size d more)
      → First size d (found_or bmapstart d more o)
  found_or-First size n b d more none h le s k = k below
    where
      below : Filled 0 (min (b + n) size) d
      below c lo lt = elim (Bool-cases (leb b c)) [
        | inl y ↦ s c (ground arith) (omega arith)
        | inr y ↦ h c lo (ground arith)
      ]
  found_or-First size n b d more (some r) h le (lo, hi, free, s) k = (
    omega (arith, hi, lo),
    free,
    Filled-join (min b size) r b d h s (omega (arith, hi, lo)),
    refl,
  )

  scan_map-First :
      (size n b : ℕ) (d : Disk)
      → size ≤ b + n * bpb
      → Filled 0 (min b size) d
      → First size d (scan_map bmapstart size n b d)
  unfolding scan_map
  scan_map-First size zero b d en h = λ c lo lt. h c lo (omega arith)
  scan_map-First size (suc n) b d en h =
      found_or-First size (min bpb (size - b)) b d _ _ h (omega arith)
        (scan_bits-Scanned (min bpb (size - b)) b d)
        (λ below.
          scan_map-First size n (b + bpb) d (omega arith) (λ c lo lt. below c lo (omega arith)))

  pub balloc-First : (size : ℕ) (d : Disk) → First size d (balloc bmapstart size d)
  unfolding balloc
  balloc-First size d =
      scan_map-First size ((size + bpb - 1) / bpb) 0 d (omega arith)
        (λ x lo hi. absurd (omega arith))

  -- The blocks of the bit map are themselves in use.
  abbrev pub MapUsed : ℕ → Disk → Type 0
  MapUsed size d = (c : ℕ) → c < size → is_used bmapstart (bblock bmapstart c) d ≡ true

  bzero-is_used :
      (r c : ℕ) (d : Disk)
      → bblock bmapstart c ≢ r
      → is_used bmapstart c (bzero r d) ≡ is_used bmapstart c d
  bzero-is_used r c d ne =
      let other : (bblock bmapstart c == r) ≡ false = ground arith in rw other refl

  pub bzero-zero : (r i : ℕ) (d : Disk) → (bzero r d).bytes r i ≡ 0
  bzero-zero r i d = let same : (r == r) ≡ true = ground arith in rw same refl

  -- What `balloc` does, seen at block `c` and at byte `i`.
  abbrev pub Balloced : ℕ → ℕ → ℕ → Disk → Option (ℕ × Disk) → Type 0
  Balloced size c i d none = is_used bmapstart c d ≡ true
  Balloced size c i d (some (r, d')) =
      (r < size)
      × (is_used bmapstart r d ≡ false)
      × ((leb r c || is_used bmapstart c d) ≡ true)
      × (is_used bmapstart c d' ≡ (if c == r then true else is_used bmapstart c d))
      × (d'.bytes r i ≡ 0)

  -- The marks on a disk after `balloc` of block `r`.
  pub First-marks :
      (size c r : ℕ) (d : Disk)
      → c < size
      → MapUsed size d
      → is_used bmapstart r d ≡ false
      → is_used bmapstart c (bzero r (mark_used bmapstart r d))
        ≡ (if c == r then true else is_used bmapstart c d)
  First-marks size c r d lt m free =
      bzero-is_used r c (mark_used bmapstart r d) apart ∙ mark_used_lem bmapstart r c d
    where
      apart : bblock bmapstart c ≢ r
      apart s =
          let used : is_used bmapstart r d ≡ true =
            sym (ap (λ x. is_used bmapstart x d) s) ∙ m c lt in
          cc

  First-Balloced :
      (size c i : ℕ) (d : Disk) (o : Option (ℕ × Disk))
      → c < size
      → MapUsed size d
      → First size d o
      → Balloced size c i d o
  First-Balloced size c i d none lt m f = f c (omega arith) lt
  First-Balloced size c i d (some (r, d')) lt m (hi, free, f, e) = (hi, free, before, marks, zeros)
    where
      before : (leb r c || is_used bmapstart c d) ≡ true
      before = elim (Bool-cases (leb r c)) [
        | inl y ↦ rw y refl
        | inr y ↦ rw (y, f c (omega arith) (ground arith)) refl
      ]

      marks : is_used bmapstart c d' ≡ (if c == r then true else is_used bmapstart c d)
      marks = ap (is_used bmapstart c) e ∙ First-marks size c r d lt m free

      zeros : d'.bytes r i ≡ 0
      zeros = ap (λ x. x.bytes r i) e ∙ bzero-zero r i (mark_used bmapstart r d)

  -- On a disk whose bit map is itself in use, `balloc` panics, apart from its `log_write`, only if every
  -- block is in use. Else it returns the first free block, marks it and no other, and fills it with
  -- zeros.
  pub balloc_lem :
      (size c i : ℕ) (d : Disk)
      → c < size
      → MapUsed size d
      → Balloced size c i d (balloc bmapstart size d)
  balloc_lem size c i d lt m = First-Balloced size c i d _ lt m (balloc-First size d)

  -- What `bfree` of block `b` does, seen at block `c`.
  abbrev pub Bfreed : ℕ → ℕ → Disk → Option Disk → Type 0
  Bfreed b c d none = is_used bmapstart b d ≡ false
  Bfreed b c d (some d') =
      (is_used bmapstart b d ≡ true)
      × (is_used bmapstart c d' ≡ (if c == b then false else is_used bmapstart c d))

  -- `bfree` panics exactly on a free block, and else clears its mark and no other.
  pub bfree_lem : (b c : ℕ) (d : Disk) → Bfreed b c d (bfree bmapstart b d)
  unfolding bfree
  bfree_lem b c d = elim (Bool-cases (is_used bmapstart b d)) [
    | inl u ↦ rw u (u, mark_free_lem bmapstart b c d)
    | inr u ↦ rw u u
  ]

  -- On a disk whose bit map is itself in use, a block that `balloc` returned can be freed, and then
  -- the marks are as before.
  pub balloc-bfree :
      (size c r : ℕ) (d d' : Disk)
      → c < size
      → MapUsed size d
      → balloc bmapstart size d ≡ some (r, d')
      → (d'' : Disk) × (bfree bmapstart r d' ≡ some d'')
        × (is_used bmapstart c d'' ≡ is_used bmapstart c d)
  unfolding bfree
  balloc-bfree size c r d d' lt m e =
      let at_c = balloc_lem size c 0 d lt m in
      let (hi, free, _, marks, _) : Balloced size c 0 d (some (r, d')) = rw e at at_c in
      let at_r = balloc_lem size r 0 d hi m in
      let (_, _, _, own, _) : Balloced size r 0 d (some (r, d')) = rw e at at_r in
      let self : (r == r) ≡ true = ground arith in
      let used : is_used bmapstart r d' ≡ true = own ∙ rw self refl in
      (mark_free bmapstart r d', rw used refl, mark_free_lem bmapstart r c d' ∙ back hi free marks)
    where
      back :
          r < size
          → is_used bmapstart r d ≡ false
          → is_used bmapstart c d' ≡ (if c == r then true else is_used bmapstart c d)
          → (if c == r then false else is_used bmapstart c d') ≡ is_used bmapstart c d
      back hi free marks = elim (Bool-cases (c == r)) [
        | inl s ↦
            let same : r ≡ c = ground arith in
            rw s (sym (ap (λ x. is_used bmapstart x d) (sym same) ∙ free))
        | inr s ↦ rw s (marks ∙ rw s refl)
      ]
