-- ===== src/Fs/Extend.antt =====
-- `bmap` on a sound file: a block put where there was none.
use cs202_lab.Prelude.{
  ℕ, ◌+◌, ◌-◌, ◌<◌, ◌≡◌, ◌≢◌, inl, inr, refl, sym, ap, ◌∙◌, true, false, ◌==◌, ◌&&◌, ltb, get_or,
  set, length-set, get_or-set_self, get_or-set_ne, arith, Bool-cases,
}
use cs202_lab.Fs.Blocks.{Disk, ndirect, nindirect, is_used, bzero, mark_used}
use cs202_lab.Fs.Bmap.{Content, put_word}
use cs202_lab.Fs.Rw.{maxfile}
use cs202_lab.Fs.Sound.{slot, IsSound, IsTaken, Taken-ne}
use cs202_lab.Fs.Growth.{IsFilled}
use cs202_lab.Fs.Words.{word_in, slot-direct, slot-last, slot-middle, slot_cases}

module _ (bmapstart size : ℕ) where
  pub balloc-Taken :
      (r : ℕ) (d : Disk)
      → r < size
      → is_used bmapstart r d ≡ false
      → IsTaken bmapstart size r d (bzero r (mark_used bmapstart r d))
  balloc-Taken r d lt free = record { low = lt; free = free; bytes = λ b i. refl }

  -- Words of blocks in use are not touched.
  balloc-word :
      (r b j : ℕ) (d : Disk)
      → (b ≢ 0 → b ≢ r)
      → word_in b j (bzero r (mark_used bmapstart r d)) ≡ word_in b j d
  balloc-word r b j d h = elim (Bool-cases (b == 0)) [
    | inl z ↦ rw z refl
    | inr z ↦
        let ne = h (λ e. ground arith) in
        let other : (b == r) ≡ false = ground arith in rw (z, other) refl
  ]

  module _ (r : ℕ) (ip : Content) (d : Disk) (s : IsSound bmapstart size ip d) (low : r < size)
      (free : is_used bmapstart r d ≡ false) where
    abbrev pub next : Disk
    next = bzero r (mark_used bmapstart r d)

    -- The indirect block is not the new one.
    indirect_ne : get_or ip.addrs ndirect 0 ≢ 0 → get_or ip.addrs ndirect 0 ≢ r
    indirect_ne ne =
        let at = slot-last ip d in
        let used = s.used maxfile (omega arith) (λ z. ne (sym at ∙ z)) in
        Taken-ne bmapstart size s.ready (balloc-Taken r d low free) (get_or ip.addrs ndirect 0)
          (rw at at used)

    -- A direct block.
    direct-others :
        (i l : ℕ)
        → i < ndirect
        → l ≢ i
        → slot (record ip { addrs = set ip.addrs i r }) next l ≡ slot ip d l
    direct-others i l lt ne = elim (slot_cases l) [
      | inl h ↦
          slot-direct l _ next h
          ∙ get_or-set_ne ip.addrs r 0 (λ e. ne (sym e))
          ∙ sym (slot-direct l ip d h)
      | inr (inl e) ↦
          ap (slot _ next) e
          ∙ slot-last _ next
          ∙ get_or-set_ne ip.addrs r 0 (omega arith)
          ∙ sym (slot-last ip d)
          ∙ sym (ap (slot ip d) e)
      | inr (inr (h, g)) ↦
          slot-middle l _ next h g
          ∙ ap (λ b. word_in b (l - ndirect) next) (get_or-set_ne ip.addrs r 0 (omega arith))
          ∙ balloc-word r (get_or ip.addrs ndirect 0) (l - ndirect) d indirect_ne
          ∙ sym (slot-middle l ip d h g)
    ]

    pub direct-IsFilled :
        (i : ℕ)
        → i < ndirect
        → get_or ip.addrs i 0 ≡ 0
        → IsFilled bmapstart size i r ip (record ip { addrs = set ip.addrs i r }) d next
    direct-IsFilled i lt z =
        let h : ltb i ndirect ≡ true = ground arith in
        record {
          taken = balloc-Taken r d low free;
          hole = slot-direct i ip d h ∙ z;
          at_hole =
              slot-direct i _ next h ∙ get_or-set_self ip.addrs i r 0 (omega (arith, s.entries));
          others = λ l le ne. direct-others i l lt ne;
          entries = length-set ip.addrs i r;
        }

    -- The indirect block itself, with no words in it.
    indirect-others :
        (l : ℕ)
        → get_or ip.addrs ndirect 0 ≡ 0
        → l ≢ maxfile
        → slot (record ip { addrs = set ip.addrs ndirect r }) next l ≡ slot ip d l
    indirect-others l z ne = elim (slot_cases l) [
      | inl h ↦
          slot-direct l _ next h
          ∙ get_or-set_ne ip.addrs r 0 (λ e. ground arith)
          ∙ sym (slot-direct l ip d h)
      | inr (inl e) ↦ absurd (ne e)
      | inr (inr (h, g)) ↦
          slot-middle l _ next h g
          ∙ ap (λ b. word_in b (l - ndirect) next)
              (get_or-set_self ip.addrs ndirect r 0 (omega (arith, s.entries)))
          ∙ blank (l - ndirect)
          ∙ sym (ap (λ b. word_in b (l - ndirect) d) z)
          ∙ sym (slot-middle l ip d h g)
    ]
      where
        blank : (j : ℕ) → word_in r j next ≡ 0
        blank j =
            let self : (r == r) ≡ true = ground arith in
            elim (Bool-cases (r == 0)) [ inl e ↦ rw e refl | inr e ↦ rw (e, self) refl ]

    pub indirect-IsFilled :
        get_or ip.addrs ndirect 0 ≡ 0
        → IsFilled bmapstart size maxfile r ip (record ip { addrs = set ip.addrs ndirect r }) d next
    indirect-IsFilled z = record {
      taken = balloc-Taken r d low free;
      hole = slot-last ip d ∙ z;
      at_hole = slot-last _ next ∙ get_or-set_self ip.addrs ndirect r 0 (omega (arith, s.entries));
      others = λ l le ne. indirect-others l z ne;
      entries = length-set ip.addrs ndirect r;
    }

    -- A word of the indirect block.
    word-others :
        (j l : ℕ)
        → get_or ip.addrs ndirect 0 ≢ 0
        → l ≢ ndirect + j
        → slot ip (put_word (get_or ip.addrs ndirect 0) j r next) l ≡ slot ip d l
    word-others j l some_block ne = elim (slot_cases l) [
      | inl h ↦ slot-direct l ip _ h ∙ sym (slot-direct l ip d h)
      | inr (inl e) ↦
          ap (slot ip _) e ∙ slot-last ip _ ∙ sym (slot-last ip d) ∙ sym (ap (slot ip d) e)
      | inr (inr (h, g)) ↦
          slot-middle l ip _ h g
          ∙ elsewhere (l - ndirect) (λ e. ground arith)
          ∙ balloc-word r (get_or ip.addrs ndirect 0) (l - ndirect) d indirect_ne
          ∙ sym (slot-middle l ip d h g)
    ]
      where
        b : ℕ
        b = get_or ip.addrs ndirect 0

        elsewhere : (m : ℕ) → m ≢ j → word_in b m (put_word b j r next) ≡ word_in b m next
        elsewhere m off =
            let other : (m == j) ≡ false = ground arith in
            elim (Bool-cases (b == 0)) [ inl e ↦ rw e refl | inr e ↦ rw (e, other) (ground arith) ]

    pub word-IsFilled :
        (j : ℕ)
        → j < nindirect
        → get_or ip.addrs ndirect 0 ≢ 0
        → d.words (get_or ip.addrs ndirect 0) j ≡ 0
        → IsFilled bmapstart size
            (ndirect + j)
            r
            ip
            ip
            d
            (put_word (get_or ip.addrs ndirect 0) j r next)
    word-IsFilled j lt some_block z =
        let h : ltb (ndirect + j) ndirect ≡ false = ground arith in
        let g : (ndirect + j == maxfile) ≡ false = ground arith in
        let back : ndirect + j - ndirect ≡ j = omega arith in
        let self : ((b == b) && (j == j)) ≡ true = ground arith in
        let there : (b == 0) ≡ false = ground arith in
        record {
          taken = record { low = low; free = free; bytes = λ c i. refl };
          hole = slot-middle (ndirect + j) ip d h g ∙ rw (there, back) z;
          at_hole = slot-middle (ndirect + j) ip _ h g ∙ rw (there, back, self) refl;
          others = λ l le ne. word-others j l some_block ne;
          entries = refl;
        }
      where
        b : ℕ
        b = get_or ip.addrs ndirect 0
