-- ===== src/Fs/Put.antt =====
-- A write of bytes into a block of a sound file.
use cs202_lab.Prelude.{
  ℕ, zero, suc, ◌+◌, ◌-◌, ◌*◌, ◌/◌, ◌%◌, ◌<◌, ◌≤◌, ◌≡◌, ◌≢◌, inl, inr, refl, sym, ap, ◌∙◌, true,
  false, List, ◌==◌, ◌&&◌, ltb, leb, if◌then◌else◌, get_or, length, arith, Bool-cases,
}
use cs202_lab.Fs.Blocks.{logged, Disk, bpb, bit, bblock, is_used}
use cs202_lab.Fs.Bmap.{Content}
use cs202_lab.Fs.Rw.{maxfile, bsize, slice, overwrite, put_bytes}
use cs202_lab.Fs.Sound.{slot, byte_in, byte_in-same, byte_at, IsSound}
use cs202_lab.Fs.Free.{free_below}

pub length-slice : (f : ℕ → ℕ) (o m : ℕ) → length (slice f o m) ≡ m
unfolding slice
length-slice f o zero = refl
length-slice f o (suc m) = ap suc (length-slice f (suc o) m)

pub get_or-slice : (f : ℕ → ℕ) (o m i : ℕ) → i < m → get_or (slice f o m) i 0 ≡ f (o + i)
unfolding slice
get_or-slice f o zero i lt = absurd (omega arith)
get_or-slice f o (suc m) zero lt = ap f (omega arith)
get_or-slice f o (suc m) (suc i) lt = get_or-slice f (suc o) m i (omega arith) ∙ ap f (omega arith)

put_bytes-other :
    (a o b i : ℕ) (bs : List ℕ) (d : Disk) → b ≢ a → (put_bytes a o bs d).bytes b i ≡ d.bytes b i
put_bytes-other a o b i bs d ne = let other : (b == a) ≡ false = ground arith in rw other refl

put_bytes_self :
    (a o i : ℕ) (bs : List ℕ) (d : Disk)
    → (put_bytes a o bs d).bytes a i ≡ overwrite o bs (d.bytes a) i
put_bytes_self a o i bs d = let self : (a == a) ≡ true = ground arith in rw self refl

pub slot-put_bytes :
    (a o : ℕ) (bs : List ℕ) (ip : Content) (d : Disk) (k : ℕ)
    → slot ip (put_bytes a o bs d) k ≡ slot ip d k
unfolding slot
slot-put_bytes a o bs ip d k = refl

module _ (bmapstart size : ℕ) {ip : Content} {d : Disk} (s : IsSound bmapstart size ip d) (k : ℕ)
    (le : k < maxfile) (ne : slot ip d k ≢ 0) (o : ℕ) (bs : List ℕ) where
  abbrev pub written : Disk
  written = put_bytes (slot ip d k) o bs d

  written-is_used : (c : ℕ) → c < size → is_used bmapstart c written ≡ is_used bmapstart c d
  written-is_used c lt = ap (bit (c % bpb % 8)) (
      put_bytes-other (slot ip d k) o (bblock bmapstart c) (c % bpb / 8) bs d
        (λ e. s.apart k c (omega arith) lt ne (sym e)))

  pub written-free : (n : ℕ) → n ≤ size → free_below bmapstart n written ≡ free_below bmapstart n d
  unfolding free_below
  written-free zero h = refl
  written-free (suc n) h = rw (written-is_used n (omega arith), written-free n (omega arith)) refl

  pub written-IsSound : IsSound bmapstart size ip written
  written-IsSound = record {
    ready = record {
      zero_used =
          written-is_used 0 (omega (arith, s.within k (omega arith) ne)) ∙ s.ready.zero_used;
      map_used =
          λ c lt. written-is_used (bblock bmapstart c) (s.ready.room c lt) ∙ s.ready.map_used c lt;
      room = s.ready.room;
    };
    entries = s.entries;
    within = λ l h g.
        rw (slot-put_bytes (slot ip d k) o bs ip d l)
          (s.within l h (λ z. g (slot-put_bytes (slot ip d k) o bs ip d l ∙ z)));
    used = λ l h g.
        let same = slot-put_bytes (slot ip d k) o bs ip d l in
        let old : slot ip d l ≢ 0 = λ z. g (same ∙ z) in
        ap (λ b. is_used bmapstart b written) same
        ∙ written-is_used (slot ip d l) (s.within l h old)
        ∙ s.used l h old;
    once = λ l m h h' g e.
        let same = slot-put_bytes (slot ip d k) o bs ip d l in
        let same' = slot-put_bytes (slot ip d k) o bs ip d m in
        s.once l m h h' (λ z. g (same ∙ z)) (sym same ∙ e ∙ same');
    apart = λ l c h lt g e.
        let same = slot-put_bytes (slot ip d k) o bs ip d l in
        s.apart l c h lt (λ z. g (same ∙ z)) (sym same ∙ e);
  }

  -- The bytes of the file are those that were written, in their range.
  pub byte_at-written :
      (p : ℕ)
      → p < maxfile * bsize
      → o + length bs ≤ bsize
      → byte_at ip written p ≡ (
          if leb (k * bsize + o) p && ltb p (k * bsize + o + length bs)
          then get_or bs (p - (k * bsize + o)) 0
          else byte_at ip d p)
  byte_at-written p lt room =
      ap (λ b. byte_in b written (p % bsize)) (slot-put_bytes (slot ip d k) o bs ip d (p / bsize))
      ∙ elim (Bool-cases (p / bsize == k)) [ inl e ↦ here e | inr e ↦ there e ]
    where
      here :
          (p / bsize == k) ≡ true
          → byte_in (slot ip d (p / bsize)) written (p % bsize) ≡ (
              if leb (k * bsize + o) p && ltb p (k * bsize + o + length bs)
              then get_or bs (p - (k * bsize + o)) 0
              else byte_at ip d p)
      here e =
          let at : p / bsize ≡ k = ground arith in
          let some_block : (slot ip d k == 0) ≡ false = ground arith in
          let q : p ≡ k * bsize + p % bsize = omega arith in
          let range : (leb o (p % bsize) && ltb (p % bsize) (o + length bs))
              ≡ (leb (k * bsize + o) p && ltb p (k * bsize + o + length bs)) =
            ground arith in
          let spot : p % bsize - o ≡ p - (k * bsize + o) = omega arith in
          rw (at, some_block, put_bytes_self (slot ip d k) o (p % bsize) bs d, range, spot) refl

      there :
          (p / bsize == k) ≡ false
          → byte_in (slot ip d (p / bsize)) written (p % bsize) ≡ (
              if leb (k * bsize + o) p && ltb p (k * bsize + o + length bs)
              then get_or bs (p - (k * bsize + o)) 0
              else byte_at ip d p)
      there e =
          let off : (leb (k * bsize + o) p && ltb p (k * bsize + o + length bs)) ≡ false =
            ground arith in
          rw off (
            byte_in-same (slot ip d (p / bsize)) (p % bsize) d written (λ g.
              put_bytes-other (slot ip d k) o (slot ip d (p / bsize)) (p % bsize) bs d
                (λ same. other (s.once (p / bsize) k (omega arith) (omega arith) g same))))
        where
          other : p / bsize ≢ k
          other h = ground arith

-- `log_write` changes the log alone.
pub slot-logged : (b k : ℕ) (ip : Content) (d : Disk) → slot ip (logged b d) k ≡ slot ip d k
unfolding slot
slot-logged b k ip d = refl

pub byte_at-logged :
    (b p : ℕ) (ip : Content) (d : Disk) → byte_at ip (logged b d) p ≡ byte_at ip d p
unfolding slot
byte_at-logged b p ip d = refl

pub logged-IsSound :
    (bmapstart size b : ℕ) (ip : Content) (d : Disk)
    → IsSound bmapstart size ip d
    → IsSound bmapstart size ip (logged b d)
unfolding slot
logged-IsSound bmapstart size b ip d s = record {
  ready = record {
    zero_used = s.ready.zero_used;
    map_used = s.ready.map_used;
    room = s.ready.room;
  };
  entries = s.entries;
  within = s.within;
  used = s.used;
  once = s.once;
  apart = s.apart;
}

pub free_below-logged :
    (bmapstart n b : ℕ) (d : Disk) → free_below bmapstart n (logged b d) ≡ free_below bmapstart n d
unfolding free_below
free_below-logged bmapstart zero b d = refl
free_below-logged bmapstart (suc n) b d = rw (free_below-logged bmapstart n b d) refl
