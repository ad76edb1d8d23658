-- ===== src/Fs/Bmapped.antt =====
-- What `bmap` does to a sound file.
use cs202_lab.Prelude.{
  suc, ℕ, ◌+◌, ◌-◌, ◌<◌, ◌≤◌, ◌≡◌, ◌≢◌, inl, inr, refl, sym, ap, ◌∙◌, true, false, ◌==◌, ltb,
  Option, none, some, get_or, arith, Bool-cases,
}
use cs202_lab.Fs.Blocks.{bblock, log_call, Disk, ndirect, nindirect, is_used, balloc}
use cs202_lab.Log.{Log}
use cs202_lab.Fs.Room.{HasRoom, HasRoom-le, log_call-HasRoom}
use cs202_lab.Fs.Bmap.{Content, fill_slot, slot_block, fill_word, word_block, bmap}
use cs202_lab.Fs.Rw.{maxfile}
use cs202_lab.Fs.Marks.{First, balloc-First}
use cs202_lab.Fs.Stable.{bmap-direct, bmap-indirect}
use cs202_lab.Fs.Sound.{slot, IsReady, IsSound}
use cs202_lab.Fs.Free.{free_below, free_below-Filled, Taken-free}
use cs202_lab.Fs.Growth.{IsFilled}
use cs202_lab.Fs.Words.{slot-direct, slot-last, slot-middle, HasGrown, stays, grows, HasGrown-trans}
use cs202_lab.Fs.Extend.{direct-IsFilled, indirect-IsFilled, word-IsFilled}

module _ (bmapstart size : ℕ) where
  -- What giving slot `k` a block does: no block is free, or the file has one there.
  abbrev Slotted : ℕ → Content → Disk → Option (ℕ × (Content × Disk)) → Type 0
  Slotted k ip d none = free_below bmapstart size d ≡ 0
  Slotted k ip d (some (b, (ip', d'))) =
      HasGrown bmapstart size 1 ip d ip' d' × (b ≢ 0) × (slot ip' d' k ≡ b)

  new_ne : (r : ℕ) (d : Disk) → IsReady bmapstart size d → is_used bmapstart r d ≡ false → r ≢ 0
  new_ne r d ready free e =
      let f : is_used bmapstart 0 d ≡ false = sym (ap (λ x. is_used bmapstart x d) e) ∙ free in
      let u = ready.zero_used in cc

  -- The calls of `log_write` in `balloc`, and with the one for the indirect block.
  balloc-HasRoom :
      (r : ℕ) (o : Option Log) (n : ℕ)
      → HasRoom (n + 3) o
      → HasRoom n (log_call r (log_call (bblock bmapstart r) o))
  balloc-HasRoom r o n h = log_call-HasRoom r n _ (
      log_call-HasRoom (bblock bmapstart r) (suc n) o
        (HasRoom-le (suc (suc n)) (n + 3) o (omega arith) h))

  word-HasRoom :
      (b r : ℕ) (o : Option Log) (n : ℕ)
      → HasRoom (n + 3) o
      → HasRoom n (log_call b (log_call r (log_call (bblock bmapstart r) o)))
  word-HasRoom b r o n h = log_call-HasRoom b n _ (
      log_call-HasRoom r (suc n) _ (
        log_call-HasRoom (bblock bmapstart r) (suc (suc n)) o
          (HasRoom-le (suc (suc (suc n))) (n + 3) o (omega arith) h)))

  -- From a hole that is filled.
  filled-Slotted :
      (k r : ℕ) (ip ip' : Content) (d d' : Disk)
      → IsSound bmapstart size ip d
      → ip'.size ≡ ip.size
      → IsFilled bmapstart size k r ip ip' d d'
      → ((n : ℕ) → HasRoom (n + 3) d.log → HasRoom n d'.log)
      → Slotted k ip d (some (r, (ip', d')))
  filled-Slotted k r ip ip' d d' s e f room = (
    grows bmapstart size k r ip ip' d d' s f (Taken-free bmapstart size s.ready f.taken) e room,
    new_ne r d s.ready f.taken.free,
    f.at_hole,
  )

  fill_direct-Slotted :
      (i : ℕ) (ip : Content) (d : Disk) (o : Option (ℕ × Disk))
      → IsSound bmapstart size ip d
      → i < ndirect
      → get_or ip.addrs i 0 ≡ 0
      → First bmapstart size d o
      → Slotted i ip d (fill_slot bmapstart size i ip o)
  fill_direct-Slotted i ip d none s lt z f = free_below-Filled bmapstart size d f
  fill_direct-Slotted i ip d (some (r, d')) s lt z (low, free, _, e) = rw e (
      filled-Slotted i r ip _ d _ s refl (direct-IsFilled bmapstart size r ip d s low free i lt z)
        (balloc-HasRoom r d.log))

  fill_indirect-Slotted :
      (ip : Content) (d : Disk) (o : Option (ℕ × Disk))
      → IsSound bmapstart size ip d
      → get_or ip.addrs ndirect 0 ≡ 0
      → First bmapstart size d o
      → Slotted maxfile ip d (fill_slot bmapstart size ndirect ip o)
  fill_indirect-Slotted ip d none s z f = free_below-Filled bmapstart size d f
  fill_indirect-Slotted ip d (some (r, d')) s z (low, free, _, e) = rw e (
      filled-Slotted maxfile r ip _ d _ s refl
        (indirect-IsFilled bmapstart size r ip d s low free z) (balloc-HasRoom r d.log))

  slot_block-direct :
      (i : ℕ) (ip : Content) (d : Disk)
      → IsSound bmapstart size ip d
      → i < ndirect
      → Slotted i ip d (slot_block bmapstart size i ip d)
  unfolding slot_block
  slot_block-direct i ip d s lt = elim (Bool-cases (get_or ip.addrs i 0 == 0)) [
    | inl e ↦ rw e (
        fill_direct-Slotted i ip d (balloc bmapstart size d) s lt (ground arith)
          (balloc-First bmapstart size d))
    | inr e ↦
        rw e (stays bmapstart size 1 ip d s, (λ h. ground arith), slot-direct i ip d (ground arith))
  ]

  slot_block-indirect :
      (ip : Content) (d : Disk)
      → IsSound bmapstart size ip d
      → Slotted maxfile ip d (slot_block bmapstart size ndirect ip d)
  unfolding slot_block
  slot_block-indirect ip d s = elim (Bool-cases (get_or ip.addrs ndirect 0 == 0)) [
    | inl e ↦ rw e (
        fill_indirect-Slotted ip d (balloc bmapstart size d) s (ground arith)
          (balloc-First bmapstart size d))
    | inr e ↦ rw e (stays bmapstart size 1 ip d s, (λ h. ground arith), slot-last ip d)
  ]

  fill_word-Slotted :
      (j : ℕ) (ip : Content) (d : Disk) (o : Option (ℕ × Disk))
      → IsSound bmapstart size ip d
      → j < nindirect
      → get_or ip.addrs ndirect 0 ≢ 0
      → d.words (get_or ip.addrs ndirect 0) j ≡ 0
      → First bmapstart size d o
      → Slotted (ndirect + j) ip d (fill_word bmapstart size (get_or ip.addrs ndirect 0) j ip o)
  fill_word-Slotted j ip d none s lt ne z f = free_below-Filled bmapstart size d f
  fill_word-Slotted j ip d (some (r, d')) s lt ne z (low, free, _, e) = rw e (
      filled-Slotted (ndirect + j) r ip _ d _ s refl
        (word-IsFilled bmapstart size r ip d s low free j lt ne z)
        (word-HasRoom (get_or ip.addrs ndirect 0) r d.log))

  word_block-Slotted :
      (j : ℕ) (ip : Content) (d : Disk)
      → IsSound bmapstart size ip d
      → j < nindirect
      → get_or ip.addrs ndirect 0 ≢ 0
      → Slotted
          (ndirect + j)
          ip
          d
          (word_block bmapstart size j (some (get_or ip.addrs ndirect 0, (ip, d))))
  word_block-Slotted j ip d s lt ne =
      elim (Bool-cases (d.words (get_or ip.addrs ndirect 0) j == 0)) [
        | inl e ↦ rw e (
            fill_word-Slotted j ip d (balloc bmapstart size d) s lt ne (ground arith)
              (balloc-First bmapstart size d))
        | inr e ↦
            let h : ltb (ndirect + j) ndirect ≡ false = ground arith in
            let g : (ndirect + j == maxfile) ≡ false = ground arith in
            let back : ndirect + j - ndirect ≡ j = omega arith in
            let there : (get_or ip.addrs ndirect 0 == 0) ≡ false = ground arith in
            rw e (
              stays bmapstart size 1 ip d s,
              (λ z. ground arith),
              slot-middle (ndirect + j) ip d h g ∙ rw (there, back) refl,
            )
      ]

  -- What `bmap` of block `k` of a sound file does: it panics only when at most one block of the disk is
  -- free; else it gives the address of the block, and the file holds the same bytes.
  abbrev pub Bmapped : ℕ → Content → Disk → Option (ℕ × (Content × Disk)) → Type 0
  Bmapped k ip d none = free_below bmapstart size d < 2
  Bmapped k ip d (some (b, (ip', d'))) =
      HasGrown bmapstart size 2 ip d ip' d' × (b ≢ 0) × (slot ip' d' k ≡ b)

  Slotted-Bmapped :
      (k : ℕ) (ip : Content) (d : Disk) (o : Option (ℕ × (Content × Disk)))
      → IsSound bmapstart size ip d
      → Slotted k ip d o
      → Bmapped k ip d o
  Slotted-Bmapped k ip d none s h = omega (arith, h)
  Slotted-Bmapped k ip d (some (b, (ip', d'))) s (g, ne, at) =
      (HasGrown-weaken ip d ip' d' g, ne, at)
    where
      HasGrown-weaken :
          (ip : Content) (d : Disk) (ip' : Content) (d' : Disk)
          → HasGrown bmapstart size 1 ip d ip' d'
          → HasGrown bmapstart size 2 ip d ip' d'
      HasGrown-weaken ip d ip' d' g = record {
        sound = g.sound;
        length_same = g.length_same;
        free = omega (arith, g.free);
        same = g.same;
        room = λ k h. g.room k (HasRoom-le (k + 3) (k + 6) d.log (omega arith) h);
        kept = g.kept;
      }

  second-Bmapped :
      (k : ℕ) (ip ip' : Content) (d d' : Disk) (o : Option (ℕ × (Content × Disk)))
      → HasGrown bmapstart size 1 ip d ip' d'
      → Slotted k ip' d' o
      → Bmapped k ip d o
  second-Bmapped k ip ip' d d' none g h = omega (arith, g.free, h)
  second-Bmapped k ip ip' d d' (some (b, (ip'', d''))) g (g', ne, at) =
      (HasGrown-trans bmapstart size ip ip' ip'' d d' d'' g g', ne, at)

  then_word-Bmapped :
      (k : ℕ) (ip : Content) (d : Disk) (o : Option (ℕ × (Content × Disk)))
      → ndirect ≤ k
      → k < maxfile
      → Slotted maxfile ip d o
      → Bmapped k ip d (word_block bmapstart size (k - ndirect) o)
  then_word-Bmapped k ip d none lo hi h = omega (arith, h)
  then_word-Bmapped k ip d (some (b, (ip', d'))) lo hi (g, ne, at) =
      let at' : b ≡ get_or ip'.addrs ndirect 0 = sym at ∙ slot-last ip' d' in
      let k' : ndirect + (k - ndirect) ≡ k = omega arith in
      let h = word_block-Slotted (k - ndirect) ip' d' g.sound (omega arith) (λ z. ne (at' ∙ z)) in
      second-Bmapped k ip ip' d d' _ g (rw (k', ← at') at h)

  pub bmap-Bmapped :
      (k : ℕ) (ip : Content) (d : Disk)
      → k < maxfile
      → IsSound bmapstart size ip d
      → Bmapped k ip d (bmap bmapstart size ip k d)
  bmap-Bmapped k ip d lt s = elim (Bool-cases (ltb k ndirect)) [
    | inl h ↦
        rw (bmap-direct bmapstart size ip k d h)
          (Slotted-Bmapped k ip d _ s (slot_block-direct k ip d s (ground arith)))
    | inr h ↦
        let more : ltb (k - ndirect) nindirect ≡ true = ground arith in
        rw (bmap-indirect bmapstart size ip k d h more)
          (then_word-Bmapped k ip d _ (ground arith) lt (slot_block-indirect ip d s))
  ]
