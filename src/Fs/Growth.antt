-- ===== src/Fs/Growth.antt =====
-- A file that takes one free block into a hole stays sound, and reads as before.
use cs202_lab.Prelude.{
  ℕ, ◌*◌, ◌/◌, ◌%◌, ◌<◌, ◌≤◌, ◌≡◌, ◌≢◌, ◌⊎◌, inl, inr, refl, sym, ap, ◌∙◌, true, ◌==◌, length,
  arith, Bool-cases,
}
use cs202_lab.Fs.Blocks.{Disk, bblock, is_used}
use cs202_lab.Fs.Bmap.{Content}
use cs202_lab.Fs.Rw.{maxfile, bsize}
use cs202_lab.Fs.Sound.{
  slot, byte_in, byte_in-same, byte_at, IsReady, IsSound, IsTaken, Taken-new, Taken-old, Taken-kept,
  Taken-used, Taken-ne,
}

byte_in-zero : (a i : ℕ) (d : Disk) → d.bytes a i ≡ 0 → byte_in a d i ≡ 0
byte_in-zero a i d h = elim (Bool-cases (a == 0)) [ inl z ↦ rw z refl | inr z ↦ rw z h ]

module _ (bmapstart size : ℕ) where
  pub Taken-IsReady :
      (r : ℕ) (d d' : Disk)
      → IsReady bmapstart size d
      → IsTaken bmapstart size r d d'
      → IsReady bmapstart size d'
  Taken-IsReady r d d' ready taken = record {
    zero_used = Taken-kept bmapstart size ready taken 0 (omega (arith, taken.low)) ready.zero_used;
    map_used = λ c lt.
        Taken-kept bmapstart size ready taken (bblock bmapstart c) (ready.room c lt)
          (ready.map_used c lt);
    room = ready.room;
  }

  -- `ip'` on `d'` is `ip` on `d` with the new block `r` in the hole at slot `k`.
  pub record IsFilled (k r : ℕ) (ip ip' : Content) (d d' : Disk) : Type 0 where
    pub taken : IsTaken bmapstart size r d d'
    pub hole : slot ip d k ≡ 0
    pub at_hole : slot ip' d' k ≡ r
    pub others : (l : ℕ) → l ≤ maxfile → l ≢ k → slot ip' d' l ≡ slot ip d l
    pub entries : length ip'.addrs ≡ length ip.addrs

  module _ {k r : ℕ} {ip ip' : Content} {d d' : Disk} (sound : IsSound bmapstart size ip d)
      (filled : IsFilled k r ip ip' d d') where
    -- A block that is in a slot now is the new one, or was there before.
    origin :
        (l : ℕ)
        → l ≤ maxfile
        → ((l ≡ k) × (slot ip' d' l ≡ r)) ⊎ ((l ≢ k) × (slot ip' d' l ≡ slot ip d l))
    origin l le = elim (Bool-cases (l == k)) [
      | inl e ↦
          let same : l ≡ k = ground arith in inl (same, ap (slot ip' d') same ∙ filled.at_hole)
      | inr e ↦ let other : l ≢ k = λ h. ground arith in inr (other, filled.others l le other)
    ]

    old_used : (l : ℕ) → l ≤ maxfile → l ≢ k → slot ip' d' l ≢ 0 → slot ip d l ≢ r
    old_used l le ne some_block =
        let old : slot ip d l ≢ 0 = λ z. some_block (filled.others l le ne ∙ z) in
        Taken-ne bmapstart size sound.ready filled.taken (slot ip d l) (sound.used l le old)

    filled-within : (l : ℕ) → l ≤ maxfile → slot ip' d' l ≢ 0 → slot ip' d' l < size
    filled-within l le ne = elim (origin l le) [
      | inl (_, e) ↦ omega (arith, e, filled.taken.low)
      | inr (_, e) ↦ omega (arith, e, sound.within l le (λ z. ne (e ∙ z)))
    ]

    filled-used :
        (l : ℕ) → l ≤ maxfile → slot ip' d' l ≢ 0 → is_used bmapstart (slot ip' d' l) d' ≡ true
    filled-used l le ne = elim (origin l le) [
      | inl (_, e) ↦
          ap (λ b. is_used bmapstart b d') e ∙ Taken-used bmapstart size sound.ready filled.taken
      | inr (_, e) ↦
          let old : slot ip d l ≢ 0 = λ z. ne (e ∙ z) in
          ap (λ b. is_used bmapstart b d') e
          ∙ Taken-kept bmapstart size sound.ready filled.taken (slot ip d l) (sound.within l le old)
              (sound.used l le old)
    ]

    filled-once :
        (l m : ℕ)
        → l ≤ maxfile
        → m ≤ maxfile
        → slot ip' d' l ≢ 0
        → slot ip' d' l ≡ slot ip' d' m
        → l ≡ m
    filled-once l m le le' ne same = elim (origin l le) [
      | inl (at, e) ↦ elim (origin m le') [
        | inl (at', _) ↦ at ∙ sym at'
        | inr (off, e') ↦ absurd (old_used m le' off (λ z. ne (same ∙ z)) (sym e' ∙ sym same ∙ e))
      ]
      | inr (off, e) ↦ elim (origin m le') [
        | inl (at, e') ↦ absurd (old_used l le off ne (sym e ∙ same ∙ e'))
        | inr (_, e') ↦ sound.once l m le le' (λ z. ne (e ∙ z)) (sym e ∙ same ∙ e')
      ]
    ]

    filled-apart :
        (l c : ℕ) → l ≤ maxfile → c < size → slot ip' d' l ≢ 0 → slot ip' d' l ≢ bblock bmapstart c
    filled-apart l c le lt ne same = elim (origin l le) [
      | inl (_, e) ↦ absurd (
          Taken-ne bmapstart size sound.ready filled.taken (bblock bmapstart c)
            (sound.ready.map_used c lt) (sym same ∙ e))
      | inr (_, e) ↦ absurd (sound.apart l c le lt (λ z. ne (e ∙ z)) (sym e ∙ same))
    ]

    pub Filled-IsSound : IsSound bmapstart size ip' d'
    Filled-IsSound = record {
      ready = Taken-IsReady r d d' sound.ready filled.taken;
      entries = filled.entries ∙ sound.entries;
      within = filled-within;
      used = filled-used;
      once = filled-once;
      apart = filled-apart;
    }

    -- The bytes of the file are the same.
    pub Filled-byte_at : (p : ℕ) → p < maxfile * bsize → byte_at ip' d' p ≡ byte_at ip d p
    Filled-byte_at p lt = elim (origin (p / bsize) (omega arith)) [
      | inl (at, e) ↦
          let was : slot ip d (p / bsize) ≡ 0 = ap (slot ip d) at ∙ filled.hole in
          let now : byte_in r d' (p % bsize) ≡ 0 =
            byte_in-zero r (p % bsize) d'
              (Taken-new bmapstart size sound.ready filled.taken (p % bsize)) in
          ap (λ b. byte_in b d' (p % bsize)) e ∙ now ∙ sym (ap (λ b. byte_in b d (p % bsize)) was)
      | inr (off, e) ↦
          ap (λ b. byte_in b d' (p % bsize)) e
          ∙ byte_in-same (slot ip d (p / bsize)) (p % bsize) d d' (λ ne.
            Taken-old bmapstart size sound.ready filled.taken (slot ip d (p / bsize)) (p % bsize)
              (Taken-ne bmapstart size sound.ready filled.taken (slot ip d (p / bsize))
                (sound.used (p / bsize) (omega arith) ne))
              (sound.apart (p / bsize) r (omega arith) filled.taken.low ne))
    ]
