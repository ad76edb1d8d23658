-- ===== src/Fs/Write.antt =====
-- The loop of `writei` on a sound file.
use cs202_lab.Prelude.{
  ℕ, zero, suc, ◌+◌, ◌-◌, ◌*◌, ◌/◌, ◌%◌, ◌<◌, ◌≤◌, ◌≡◌, ◌≢◌, inl, inr, refl, sym, ap, ◌∙◌, Bool,
  true, false, List, Option, none, some, arith,
}
use cs202_lab.Fs.Blocks.{Disk, logged}
use cs202_lab.Fs.Room.{HasRoom, HasRoom-le, log_call-HasRoom}
use cs202_lab.Fs.Bmap.{Content, bmap}
use cs202_lab.Fs.Rw.{maxfile, bsize, piece, put_bytes, at_block, after_get, write_loop}
use cs202_lab.Fs.Sound.{slot, IsSound}
use cs202_lab.Fs.Free.{free_below}
use cs202_lab.Fs.Bmapped.{Bmapped, bmap-Bmapped}
use cs202_lab.Fs.Put.{
  slot-logged, byte_at-logged, logged-IsSound, free_below-logged, slot-put_bytes, written-free,
  written-IsSound,
}
use cs202_lab.Fs.Touched.{Copied, blocks_touched, touched_rest, none-IsThere}
use cs202_lab.Fs.Round.{Wrote, more-Wrote, piece-Replaced, fail-Wrote, grown-Wrote}

module _ (bmapstart size : ℕ) where
  module _ (source : ℕ → ℕ) (get : ℕ → ℕ → List ℕ × Bool)
      (copies : (src m : ℕ) → Copied source src m (get src m)) (p : ℕ) (low : p < maxfile * bsize)
      (j : ℕ) (low_j : j ≤ maxfile) (c : ℕ) where
    -- What the loop goes on with, `m` bytes on.
    abbrev GoesOn :
        ℕ → ℕ → ℕ → ℕ → ℕ → ℕ → (Content → Disk → Option (ℕ × (ℕ × (Content × Disk)))) → Type 0
    GoesOn calls m n off src least more =
        (ip : Content) (d : Disk)
        → IsSound bmapstart size ip d
        → least ≤ free_below bmapstart size d + 2
        → HasRoom calls d.log
        → Wrote bmapstart size j c source get (src + m) p (n - m) (off + m) ip d (more ip d)

    after_get-Wrote :
        (calls m n off src a least : ℕ) (ip : Content) (d : Disk)
        (more : Content → Disk → Option (ℕ × (ℕ × (Content × Disk)))) (r : List ℕ × Bool)
        → IsSound bmapstart size ip d
        → off / bsize < maxfile
        → slot ip d (off / bsize) ≡ a
        → a ≢ 0
        → off % bsize + m ≤ bsize
        → m ≤ n
        → least ≤ free_below bmapstart size d + 2
        → get src m ≡ r
        → Copied source src m r
        → c ≤ calls
        → HasRoom (suc calls) d.log
        → GoesOn calls m n off src least more
        → Wrote bmapstart size j c source get src p n off ip d
            (after_get bmapstart size get (more ip) n off a ip d r)
    after_get-Wrote calls m n off src a least ip d more (bs, true) s le at ne room few free e cp ge
          has k =
        let ne' : slot ip d (off / bsize) ≢ 0 = λ z. ne (sym at ∙ z) in
        let to = put_bytes a (off % bsize) bs d in
        let s' =
          rw at at (written-IsSound bmapstart size s (off / bsize) le ne' (off % bsize) bs) in
        let f = rw at at (
          written-free bmapstart size s (off / bsize) le ne' (off % bsize) bs size (omega arith)) in
        more-Wrote bmapstart size source get copies p low j low_j c m n off src ip ip d
          (logged a to) _ few refl
          (byte_at-logged a p ip to
            ∙ piece-Replaced bmapstart size source get copies p low j low_j c m off src a bs ip d s
                le at ne room cp)
          ne' (slot-logged a j ip to ∙ slot-put_bytes a (off % bsize) bs ip d j) room
          (k ip (logged a to) (logged-IsSound bmapstart size a ip to s')
            (omega (arith, f, free, free_below-logged bmapstart size a to))
            (log_call-HasRoom a calls d.log has))
    after_get-Wrote calls m n off src a least ip d more (bs, false) s le at ne room few free e cp ge
          has k =
        fail-Wrote bmapstart size source get copies p low j low_j c m n off src a bs ip d s le at ne
          room few cp (ap (λ r. r.1) e) (HasRoom-le c (suc calls) d.log (omega arith) has)

    at_block-Wrote :
        (calls m n off src least : ℕ) (ip : Content) (d : Disk)
        (more : Content → Disk → Option (ℕ × (ℕ × (Content × Disk))))
        (o : Option (ℕ × (Content × Disk)))
        → off / bsize < maxfile
        → off % bsize + m ≤ bsize
        → m ≤ n
        → 2 ≤ least
        → least ≤ free_below bmapstart size d
        → Bmapped bmapstart size (off / bsize) ip d o
        → c ≤ calls
        → HasRoom (calls + 7) d.log
        → GoesOn calls m n off src least more
        → Wrote bmapstart size j c source get src p n off ip d (
            at_block
              (λ a ip' d'. after_get bmapstart size get (more ip') n off a ip' d' (get src m))
              o)
    at_block-Wrote calls m n off src least ip d more none le room few two free b ge has k =
        absurd (omega (arith, b))
    at_block-Wrote calls m n off src least ip d more (some (a, (ip', d'))) le room few two free
          (g, ne, at) ge has k =
        grown-Wrote bmapstart size source get copies p low j low_j c n off src ip ip' d d' _
          (g.same p low) g.length_same (g.kept j low_j)
          (after_get-Wrote calls m n off src a least ip' d' more (get src m) g.sound le at ne room
            few (omega (arith, g.free)) refl (copies src m) ge
            (g.room (suc calls) (HasRoom-le (suc calls + 6) (calls + 7) d.log (omega arith) has)) k)

    pub write_loop-Wrote :
        (fuel n off src : ℕ) (ip : Content) (d : Disk)
        → n ≤ fuel
        → off + n ≤ maxfile * bsize
        → IsSound bmapstart size ip d
        → 2 * blocks_touched off n ≤ free_below bmapstart size d
        → HasRoom (c + 7 * blocks_touched off n) d.log
        → Wrote bmapstart size j c source get src p n off ip d
            (write_loop bmapstart size get fuel n off src ip d)
    unfolding write_loop
    write_loop-Wrote fuel zero off src ip d en fits s free has = (
      omega arith,
      inl refl,
      omega arith,
      s,
      refl,
      inr (ground arith),
      none-IsThere j off ip d d refl,
      HasRoom-le c (c + 7 * 0) d.log (omega arith) has,
    )
    write_loop-Wrote zero (suc n) off src ip d en fits s free has = absurd (omega arith)
    write_loop-Wrote (suc fuel) (suc n) off src ip d en fits s free has =
        let m = piece (suc n) off in
        let fewer = touched_rest off n (suc n - m) refl in
        let calls = c + 7 * blocks_touched (off + m) (suc n - m) in
        at_block-Wrote calls m (suc n) off src (2 * blocks_touched off (suc n)) ip d
          (λ ip' d'. write_loop bmapstart size get fuel (suc n - m) (off + m) (src + m) ip' d')
          (bmap bmapstart size ip (off / bsize) d) (omega arith) (omega arith) (omega arith)
          (omega arith) free (bmap-Bmapped bmapstart size (off / bsize) ip d (omega arith) s)
          (omega arith)
          (HasRoom-le (calls + 7) (c + 7 * blocks_touched off (suc n)) d.log (omega (arith, fewer))
            has)
          (λ ip' d' s' least has'.
            write_loop-Wrote fuel (suc n - m) (off + m) (src + m) ip' d' (omega arith) (omega arith)
              s' (omega (arith, fewer, least)) has')
