-- ===== src/Fs/Written.antt =====
-- What `writei` returns.
use cs202_lab.Prelude.{
  ℕ, ◌+◌, ◌-◌, ◌*◌, ◌^◌, ◌<◌, ◌≤◌, ◌≡◌, ◌⊎◌, inl, inr, refl, sym, ◌∙◌, Bool, true, false, List,
  ◌&&◌, ◌||◌, ltb, leb, Option, none, some, if◌then◌else◌, add32, arith, Bool-cases,
}
use cs202_lab.Log.{Log}
use cs202_lab.Fs.Blocks.{Disk, log_call, logged}
use cs202_lab.Fs.Room.{HasRoom, log_call-HasRoom}
use cs202_lab.Fs.Put.{logged-IsSound}
use cs202_lab.Fs.Bmap.{Content}
use cs202_lab.Fs.Rw.{unless_panicked, maxfile, bsize, write_done, writei}
use cs202_lab.Fs.Sound.{slot, IsSound}
use cs202_lab.Fs.Free.{free_below}
use cs202_lab.Fs.Touched.{Copied, blocks_touched, Replaced, Complete, IsThere}
use cs202_lab.Fs.Round.{Wrote}
use cs202_lab.Fs.Write.{write_loop-Wrote}

-- The writes that are refused: from beyond the end, or to beyond the greatest size.
abbrev pub refused : ℕ → ℕ → Content → Bool
refused off n ip = ltb ip.size off || ltb (maxfile * bsize) (off + n)

-- The tests of `writei` with their wrap-around.
refused_tests :
    (off n : ℕ) (ip : Content)
    → off < 2 ^ 32
    → n < 2 ^ 32
    → ((ltb ip.size off || ltb (add32 off n) off) || ltb (maxfile * bsize) (add32 off n))
      ≡ refused off n ip
refused_tests off n ip h g = ground arith

module _ (bmapstart size : ℕ) where
  resize-IsSound :
      (ip : Content) (d : Disk) (x : ℕ)
      → IsSound bmapstart size ip d
      → IsSound bmapstart size (record ip { size = x }) d
  unfolding slot
  resize-IsSound ip d x s = record {
    ready = s.ready;
    entries = s.entries;
    within = s.within;
    used = s.used;
    once = s.once;
    apart = s.apart;
  }

  -- What `writei` does, seen at block `j` and position `p` of the file.
  abbrev pub Written :
      ℕ
      → (ℕ → ℕ)
      → (ℕ → ℕ → List ℕ × Bool)
      → ℕ
      → ℕ
      → ℕ
      → ℕ
      → Content
      → Disk
      → Option (Option ℕ × (Content × Disk))
      → Type 0
  Written j source get src p n off ip d none = ⊥
  Written j source get src p n off ip d (some (none, (ip', d'))) =
      (refused off n ip ≡ true) × (ip' ≡ ip) × (d' ≡ d)
  Written j source get src p n off ip d (some (some tot, (ip', d'))) =
      (refused off n ip ≡ false)
      × (tot ≤ n)
      × Complete get (n - tot)
      × IsSound bmapstart size ip' d'
      × (ip'.size ≡ (if ltb ip.size (off + tot) then off + tot else ip.size))
      × (((leb (off + tot) p && ltb p (off + n)) ≡ true)
          ⊎ Replaced source src p off (off + tot) ip d ip' d')
      × IsThere j off (off + tot) ip d ip' d'

  module _ (source : ℕ → ℕ) (get : ℕ → ℕ → List ℕ × Bool)
      (copies : (src m : ℕ) → Copied source src m (get src m)) where
    write_done-Written :
        (iblock j p n off src : ℕ) (ip : Content) (d : Disk)
        (o : Option (ℕ × (ℕ × (Content × Disk))))
        → refused off n ip ≡ false
        → Wrote bmapstart size j 1 source get src p n off ip d o
        → Written j source get src p n off ip d (write_done bmapstart size get iblock n o)
    unfolding slot
    write_done-Written iblock j p n off src ip d none r w = w
    write_done-Written iblock j p n off src ip d (some (left, (last, (ip', d')))) r
          (few, done, at, s, e, w, there, has) =
        running (log_call iblock d'.log) (log_call-HasRoom iblock 0 d'.log has)
      where
        running :
            (o : Option Log)
            → HasRoom 0 o
            → Written j source get src p n off ip d (
                unless_panicked o (
                  some (n - left),
                  (
                    record ip' { size = if ltb ip'.size last then last else ip'.size },
                    logged iblock d',
                  ),
                ))
        running none h = absurd h
        running (some l) h =
            let back : n - (n - left) ≡ left = omega (arith, few) in
            (
              r,
              omega arith,
              rw back done,
              logged-IsSound bmapstart size iblock _ d' (resize-IsSound ip' d' _ s),
              rw (at, e) refl,
              rw at at w,
              rw at at there,
            )

    -- `writei`, from a source that is copied out byte by byte where copying succeeds, on a disk with two
    -- free blocks for each block that the range touches, in a transaction with room in its log for one
    -- block, and for seven for each of these: it does not panic, and on a sound file it refuses exactly
    -- the ranges that begin behind the end or reach beyond the greatest size, and then changes nothing.
    -- Else it writes all `n` bytes, or stops where a copy has failed: the bytes up to there are those of
    -- the source, those outside the range are as before, the size has grown to the end of what was
    -- written, the blocks of the file are still its own and in use, every block that was written to is
    -- there, and none that was there is gone.
    pub writei_lem :
        (iblock j p src off n : ℕ) (ip : Content) (d : Disk)
        → j ≤ maxfile
        → p < maxfile * bsize
        → off < 2 ^ 32
        → n < 2 ^ 32
        → IsSound bmapstart size ip d
        → 2 * blocks_touched off n ≤ free_below bmapstart size d
        → HasRoom (1 + 7 * blocks_touched off n) d.log
        → Written j source get src p n off ip d (writei bmapstart size get iblock src off n ip d)
    unfolding writei
    writei_lem iblock j p src off n ip d low_j low lt lt' s free has =
        let tests = refused_tests off n ip lt lt' in
        elim (Bool-cases (ltb ip.size off || ltb (add32 off n) off)) [
          | inl h ↦ rw h (sym tests ∙ rw h refl, refl, refl)
          | inr h ↦ elim (Bool-cases (ltb (maxfile * bsize) (add32 off n))) [
            | inl g ↦ rw (h, g) (sym tests ∙ rw (h, g) refl, refl, refl)
            | inr g ↦
                let fine : refused off n ip ≡ false = sym tests ∙ rw (h, g) refl in
                rw (h, g)
                  (write_done-Written iblock j p n off src ip d _ fine (
                    write_loop-Wrote bmapstart size source get copies p low j low_j 1 n n off src ip
                      d (omega arith) (ground arith) s free has))
          ]
        ]
