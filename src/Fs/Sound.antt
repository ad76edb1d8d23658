-- ===== src/Fs/Sound.antt =====
-- The blocks of a file by their slots, what keeps files and bit map apart, and the bytes of a file.
use cs202_lab.Prelude.{
  ℕ, ◌+◌, ◌-◌, ◌/◌, ◌%◌, ◌<◌, ◌≤◌, ◌≡◌, ◌≢◌, inl, inr, refl, ap, ◌∙◌, true, false, ◌==◌, ◌&&◌, ltb,
  if◌then◌else◌, get_or, length, arith, Bool-cases,
}
use cs202_lab.Fs.Blocks.{Disk, ndirect, bpb, bblock, bit, is_used, bzero, mark_used}
use cs202_lab.Fs.Bmap.{Content}
use cs202_lab.Fs.Rw.{maxfile, bsize}
use cs202_lab.Fs.Marks.{First-marks, bzero-zero}

-- Slot `k` of a file below MAXFILE is the address of its block `k`; slot MAXFILE is that of the
-- indirect block. 0 is a hole.
unfoldable pub slot : Content → Disk → ℕ → ℕ
slot ip d k =
    if ltb k ndirect
    then get_or ip.addrs k 0
    else if k == maxfile
    then get_or ip.addrs ndirect 0
    else if get_or ip.addrs ndirect 0 == 0
    then 0
    else d.words (get_or ip.addrs ndirect 0) (k - ndirect)

-- The byte of a file at a position, where a hole has zeros.
abbrev pub byte_in : ℕ → Disk → ℕ → ℕ
byte_in a d i = if a == 0 then 0 else d.bytes a i

abbrev pub byte_at : Content → Disk → ℕ → ℕ
byte_at ip d p = byte_in (slot ip d (p / bsize)) d (p % bsize)

pub byte_in-same :
    (a i : ℕ) (d d' : Disk) → (a ≢ 0 → d'.bytes a i ≡ d.bytes a i) → byte_in a d' i ≡ byte_in a d i
byte_in-same a i d d' h = elim (Bool-cases (a == 0)) [
  | inl z ↦ rw z refl
  | inr z ↦ rw z (h (λ e. ground arith))
]

module _ (bmapstart size : ℕ) where
  -- Block 0 and the bit map are in use.
  pub record IsReady (d : Disk) : Type 0 where
    pub zero_used : is_used bmapstart 0 d ≡ true
    pub map_used : (c : ℕ) → c < size → is_used bmapstart (bblock bmapstart c) d ≡ true
    pub room : (c : ℕ) → c < size → bblock bmapstart c < size

  -- The blocks that a file holds are in use, each in one slot, and none is of the bit map.
  pub record IsSound (ip : Content) (d : Disk) : Type 0 where
    pub ready : IsReady d
    pub entries : length ip.addrs ≡ ndirect + 1
    pub within : (k : ℕ) → k ≤ maxfile → slot ip d k ≢ 0 → slot ip d k < size
    pub used : (k : ℕ) → k ≤ maxfile → slot ip d k ≢ 0 → is_used bmapstart (slot ip d k) d ≡ true
    pub once :
        (k l : ℕ) → k ≤ maxfile → l ≤ maxfile → slot ip d k ≢ 0 → slot ip d k ≡ slot ip d l → k ≡ l
    pub apart :
        (k c : ℕ) → k ≤ maxfile → c < size → slot ip d k ≢ 0 → slot ip d k ≢ bblock bmapstart c

  -- `d'` is `d` after `balloc` of block `r`, but for words.
  pub record IsTaken (r : ℕ) (d d' : Disk) : Type 0 where
    pub low : r < size
    pub free : is_used bmapstart r d ≡ false
    pub bytes : (b i : ℕ) → d'.bytes b i ≡ (bzero r (mark_used bmapstart r d)).bytes b i

  module _ {r : ℕ} {d d' : Disk} (ready : IsReady d) (taken : IsTaken r d d') where
    pub Taken-marks :
        (c : ℕ)
        → c < size
        → is_used bmapstart c d' ≡ (if c == r then true else is_used bmapstart c d)
    Taken-marks c lt =
        ap (bit (c % bpb % 8)) (taken.bytes (bblock bmapstart c) (c % bpb / 8))
        ∙ First-marks bmapstart size c r d lt ready.map_used taken.free

    pub Taken-new : (i : ℕ) → d'.bytes r i ≡ 0
    Taken-new i = taken.bytes r i ∙ bzero-zero bmapstart r i (mark_used bmapstart r d)

    pub Taken-old : (b i : ℕ) → b ≢ r → b ≢ bblock bmapstart r → d'.bytes b i ≡ d.bytes b i
    Taken-old b i ne ne' =
        let other : (b == r) ≡ false = ground arith in
        let off : ((b == bblock bmapstart r) && (i == r % bpb / 8)) ≡ false = ground arith in
        taken.bytes b i ∙ rw (other, off) refl

    -- What was in use still is.
    pub Taken-kept :
        (c : ℕ) → c < size → is_used bmapstart c d ≡ true → is_used bmapstart c d' ≡ true
    Taken-kept c lt u = Taken-marks c lt ∙ ground arith

    pub Taken-used : is_used bmapstart r d' ≡ true
    Taken-used = Taken-marks r taken.low ∙ ground arith

    pub Taken-ne : (b : ℕ) → is_used bmapstart b d ≡ true → b ≢ r
    Taken-ne b u e =
        let f : is_used bmapstart b d ≡ false = ap (λ x. is_used bmapstart x d) e ∙ taken.free in cc
