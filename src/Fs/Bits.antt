-- ===== src/Fs/Bits.antt =====
-- Setting and clearing a bit, and the mark of a block in the bit map.
use cs202_lab.Prelude.{
  ℕ, zero, suc, ◌+◌, ◌*◌, ◌/◌, ◌%◌, ◌<◌, ◌≡◌, ◌≢◌, refl, ap, ap₂, ◌∙◌, true, false, ◌==◌, ◌&&◌,
  if◌then◌else◌, arith, Bool-cases, inl, inr,
}
use cs202_lab.Fs.Blocks.{
  Disk, bit, set_bit, clear_bit, bpb, put_byte, bblock, is_used, mark_used, mark_free,
}

half : (r y : ℕ) → r < 2 → (r + y * 2) / 2 ≡ y
half r y h = omega arith

pub bit-set_bit : (k x : ℕ) → bit k (set_bit k x) ≡ true
bit-set_bit zero x = ground arith
bit-set_bit (suc k) x =
    ap (bit k) (half (x % 2) (set_bit k (x / 2)) (omega arith)) ∙ bit-set_bit k (x / 2)

pub bit-set_bit_ne : (j k x : ℕ) → j ≢ k → bit j (set_bit k x) ≡ bit j x
bit-set_bit_ne zero zero x ne = absurd (ne refl)
bit-set_bit_ne zero (suc k) x ne = ground arith
bit-set_bit_ne (suc j) zero x ne = ap (bit j) (omega arith)
bit-set_bit_ne (suc j) (suc k) x ne =
    ap (bit j) (half (x % 2) (set_bit k (x / 2)) (omega arith))
    ∙ bit-set_bit_ne j k (x / 2) (λ e. ne (ap suc e))

pub bit-clear_bit : (k x : ℕ) → bit k (clear_bit k x) ≡ false
bit-clear_bit zero x = ground arith
bit-clear_bit (suc k) x =
    ap (bit k) (half (x % 2) (clear_bit k (x / 2)) (omega arith)) ∙ bit-clear_bit k (x / 2)

pub bit-clear_bit_ne : (j k x : ℕ) → j ≢ k → bit j (clear_bit k x) ≡ bit j x
bit-clear_bit_ne zero zero x ne = absurd (ne refl)
bit-clear_bit_ne zero (suc k) x ne = ground arith
bit-clear_bit_ne (suc j) zero x ne = ap (bit j) (omega arith)
bit-clear_bit_ne (suc j) (suc k) x ne =
    ap (bit j) (half (x % 2) (clear_bit k (x / 2)) (omega arith))
    ∙ bit-clear_bit_ne j k (x / 2) (λ e. ne (ap suc e))

module _ (bmapstart : ℕ) where
  -- A write of one byte that changes only the bit of `b` in it.
  abbrev BitOnly : ℕ → ℕ → Disk → Type 0
  BitOnly b x d =
      (j : ℕ) → j ≢ b % bpb % 8 → bit j x ≡ bit j (d.bytes (bblock bmapstart b) (b % bpb / 8))

  put_byte-other :
      (b c x : ℕ) (d : Disk)
      → c ≢ b
      → BitOnly b x d
      → is_used bmapstart c (put_byte (bblock bmapstart b) (b % bpb / 8) x d)
        ≡ is_used bmapstart c d
  put_byte-other b c x d ne keep =
      elim (Bool-cases
        ((c / bpb + bmapstart == b / bpb + bmapstart) && (c % bpb / 8 == b % bpb / 8))) [
          | inl same ↦
              let block : bblock bmapstart b ≡ bblock bmapstart c = ground arith in
              let byte : b % bpb / 8 ≡ c % bpb / 8 = ground arith in
              rw same (
                keep (c % bpb % 8) (λ e. ne (ground arith))
                ∙ ap₂ (λ q i. bit (c % bpb % 8) (d.bytes q i)) block byte)
          | inr other ↦ rw other refl
        ]

  put_byte_self :
      (b x : ℕ) (d : Disk)
      → is_used bmapstart b (put_byte (bblock bmapstart b) (b % bpb / 8) x d) ≡ bit (b % bpb % 8) x
  put_byte_self b x d =
      let here : ((bblock bmapstart b == bblock bmapstart b) && (b % bpb / 8 == b % bpb / 8))
          ≡ true =
        ground arith in
      rw here refl

  -- Marking a block used, or free, is seen at this block and at no other.
  pub mark_used_lem :
      (b c : ℕ) (d : Disk)
      → is_used bmapstart c (mark_used bmapstart b d)
        ≡ (if c == b then true else is_used bmapstart c d)
  mark_used_lem b c d = elim (Bool-cases (c == b)) [
    | inl e ↦
        let same : c ≡ b = ground arith in
        rw (e, same) (put_byte_self b _ d ∙ bit-set_bit (b % bpb % 8) _)
    | inr e ↦
        rw e (put_byte-other b c _ d (ground arith) (λ j ne. bit-set_bit_ne j (b % bpb % 8) _ ne))
  ]

  pub mark_free_lem :
      (b c : ℕ) (d : Disk)
      → is_used bmapstart c (mark_free bmapstart b d)
        ≡ (if c == b then false else is_used bmapstart c d)
  mark_free_lem b c d = elim (Bool-cases (c == b)) [
    | inl e ↦
        let same : c ≡ b = ground arith in
        rw (e, same) (put_byte_self b _ d ∙ bit-clear_bit (b % bpb % 8) _)
    | inr e ↦
        rw e (put_byte-other b c _ d (ground arith) (λ j ne. bit-clear_bit_ne j (b % bpb % 8) _ ne))
  ]
