-- ===== src/Fs/Touched.antt =====
-- The bytes and blocks that a part of a write has reached.
use cs202_lab.Prelude.{
  ◌==◌, ◌≢◌, ℕ, zero, suc, ◌+◌, ◌-◌, ◌*◌, ◌/◌, ◌%◌, ◌≤◌, ◌≡◌, ◌≢◌, ◌⊎◌, inl, inr, sym, ap, ◌∙◌,
  Bool, true, false, List, ◌&&◌, ltb, leb, if◌then◌else◌, length, arith, Bool-cases,
}
use cs202_lab.Fs.Blocks.{Disk}
use cs202_lab.Fs.Bmap.{Content}
use cs202_lab.Fs.Rw.{bsize, slice, piece}
use cs202_lab.Fs.Sound.{slot, byte_at}

-- What `either_copyin` gives: the bytes of the source, or a failure after a part of them.
abbrev pub Copied : (ℕ → ℕ) → ℕ → ℕ → List ℕ × Bool → Type 0
Copied source src m (bs, true) = bs ≡ slice source src m
Copied source src m (bs, false) = length bs ≤ m

-- The blocks of a file that a range touches.
abbrev pub blocks_touched : ℕ → ℕ → ℕ
blocks_touched off zero = 0
blocks_touched off (suc n) = (off % bsize + n) / bsize + 1

-- A round takes one of them.
pub touched_rest :
    (off n k : ℕ)
    → k ≡ suc n - piece (suc n) off
    → blocks_touched (off + piece (suc n) off) k + 1 ≤ blocks_touched off (suc n)
touched_rest off n zero e = omega arith
touched_rest off n (suc k) e =
    let turn : (off + piece (suc n) off) % bsize ≡ 0 = omega (arith, e) in omega (arith, e, turn)

-- The byte at `p` after a write of the range from `off` to `last`.
abbrev pub Replaced : (ℕ → ℕ) → ℕ → ℕ → ℕ → ℕ → Content → Disk → Content → Disk → Type 0
Replaced source src p off last ip d ip' d' =
    byte_at ip' d' p
    ≡ (if leb off p && ltb p last then source (src + (p - off)) else byte_at ip d p)

-- Nothing is left, or a copy has failed.
abbrev pub Complete : (ℕ → ℕ → List ℕ × Bool) → ℕ → Type 0
Complete get left = (left ≡ 0) ⊎ ((a : ℕ) × (m : ℕ) × ((get a m).1 ≡ false))

-- Whether the range from `off` to `last` has bytes of block `j` of the file, and that `j` is no hole
-- then; nor is it one if it was none before.
abbrev pub touches : ℕ → ℕ → ℕ → Bool
touches j off last = ltb off last && ltb (j * bsize) last && ltb off (suc j * bsize)

abbrev pub IsThere : ℕ → ℕ → ℕ → Content → Disk → Content → Disk → Type 0
IsThere j off last ip d ip' d' =
    (slot ip' d' j ≢ 0) ⊎ ((slot ip d j ≡ 0) × (touches j off last ≡ false))

module _ (j : ℕ) where
  -- Nothing has been written yet.
  pub none-IsThere :
      (off : ℕ) (ip : Content) (d d' : Disk)
      → slot ip d' j ≡ slot ip d j
      → IsThere j off off ip d ip d'
  none-IsThere off ip d d' same = elim (Bool-cases (slot ip d j == 0)) [
    | inl z ↦ inr (ground arith, ground arith)
    | inr z ↦ inl (λ e. ground (arith, same))
  ]

  -- A file that has grown first.
  pub grown-IsThere :
      (off last : ℕ) (ip ip' ip'' : Content) (d d' d'' : Disk)
      → (slot ip d j ≢ 0 → slot ip' d' j ≡ slot ip d j)
      → IsThere j off last ip' d' ip'' d''
      → IsThere j off last ip d ip'' d''
  grown-IsThere off last ip ip' ip'' d d' d'' kept (inl h) = inl h
  grown-IsThere off last ip ip' ip'' d d' d'' kept (inr (z, t)) =
      elim (Bool-cases (slot ip d j == 0)) [
        | inl h ↦ inr (ground arith, t)
        | inr h ↦ let ne : slot ip d j ≢ 0 = λ e. ground arith in absurd (ne (sym (kept ne) ∙ z))
      ]

  -- The block of a piece is there, and the rest of the range takes no block away.
  pub more-IsThere :
      (m off last : ℕ) (ip ip' ip'' : Content) (d d' d'' : Disk)
      → slot ip d (off / bsize) ≢ 0
      → slot ip' d' j ≡ slot ip d j
      → off % bsize + m ≤ bsize
      → IsThere j (off + m) last ip' d' ip'' d''
      → IsThere j off last ip d ip'' d''
  more-IsThere m off last ip ip' ip'' d d' d'' ne same room (inl h) = inl h
  more-IsThere m off last ip ip' ip'' d d' d'' ne same room (inr (z, t)) =
      let hole : slot ip d j ≡ 0 = sym same ∙ z in
      let other : j ≢ off / bsize = λ e. ne (ap (slot ip d) (sym e) ∙ hole) in
      inr (hole, ground (arith, other, t))
