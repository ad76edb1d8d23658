-- ===== src/Fs/Round.antt =====
-- A round of `writei` on a sound file: a piece that is written, a copy that fails, and a file that
-- has grown first.
use cs202_lab.Prelude.{
  ℕ, ◌+◌, ◌-◌, ◌*◌, ◌/◌, ◌%◌, ◌<◌, ◌≤◌, ◌≡◌, ◌≢◌, ◌⊎◌, inl, inr, refl, sym, ap, ◌∙◌, Bool, true,
  false, List, ◌&&◌, ltb, leb, Option, none, some, if◌then◌else◌, get_or, length, arith, Bool-cases,
}
use cs202_lab.Fs.Blocks.{Disk}
use cs202_lab.Fs.Bmap.{Content}
use cs202_lab.Fs.Room.{HasRoom}
use cs202_lab.Fs.Rw.{maxfile, bsize, slice, put_bytes}
use cs202_lab.Fs.Sound.{slot, byte_at, IsSound}
use cs202_lab.Fs.Put.{slot-put_bytes, length-slice, get_or-slice, written-IsSound, byte_at-written}
use cs202_lab.Fs.Touched.{
  Copied, Replaced, Complete, IsThere, none-IsThere, grown-IsThere, more-IsThere,
}

module _ (bmapstart size : ℕ) where
  -- What the loop of `writei` does, seen at position `p` and block `j`: with `left` of `n` bytes to go when it stops,
  -- nothing is claimed of the bytes that were to be written then.
  abbrev pub Wrote :
      ℕ
      → ℕ
      → (ℕ → ℕ)
      → (ℕ → ℕ → List ℕ × Bool)
      → ℕ
      → ℕ
      → ℕ
      → ℕ
      → Content
      → Disk
      → Option (ℕ × (ℕ × (Content × Disk)))
      → Type 0
  Wrote j c source get src p n off ip d none = ⊥
  Wrote j c source get src p n off ip d (some (left, (last, (ip', d')))) =
      (left ≤ n)
      × Complete get left
      × (last ≡ off + (n - left))
      × IsSound bmapstart size ip' d'
      × (ip'.size ≡ ip.size)
      × (((leb last p && ltb p (off + n)) ≡ true) ⊎ Replaced source src p off last ip d ip' d')
      × IsThere j off last ip d ip' d'
      × HasRoom c d'.log

  module _ (source : ℕ → ℕ) (get : ℕ → ℕ → List ℕ × Bool)
      (copies : (src m : ℕ) → Copied source src m (get src m)) (p : ℕ) (low : p < maxfile * bsize)
      (j : ℕ) (low_j : j ≤ maxfile) (c : ℕ) where
    pub more-Wrote :
        (m n off src : ℕ) (ip ip' : Content) (d d' : Disk) (o : Option (ℕ × (ℕ × (Content × Disk))))
        → m ≤ n
        → ip'.size ≡ ip.size
        → Replaced source src p off (off + m) ip d ip' d'
        → slot ip d (off / bsize) ≢ 0
        → slot ip' d' j ≡ slot ip d j
        → off % bsize + m ≤ bsize
        → Wrote j c source get (src + m) p (n - m) (off + m) ip' d' o
        → Wrote j c source get src p n off ip d o
    more-Wrote m n off src ip ip' d d' none le e r ne same room w = w
    more-Wrote m n off src ip ip' d d' (some (left, (last, (ip'', d'')))) le e r ne same room
          (few, done, at, s, e', w, there, left_room) =
        (
          omega (arith, few),
          done,
          omega (arith, at, few),
          s,
          e' ∙ e,
          bytes w,
          more-IsThere j m off last ip ip' ip'' d d' d'' ne same room there,
          left_room,
        )
      where
        bytes :
            (((leb last p && ltb p (off + m + (n - m))) ≡ true)
              ⊎ Replaced source (src + m) p (off + m) last ip' d' ip'' d'')
            → (((leb last p && ltb p (off + n)) ≡ true)
                ⊎ Replaced source src p off last ip d ip'' d'')
        bytes (inl unknown) = inl (ground arith)
        bytes (inr known) = elim (Bool-cases (leb (off + m) p)) [
          | inl far ↦
              let spot : src + m + (p - (off + m)) ≡ src + (p - off) = ground arith in
              inr (ground (arith, known, r, ap source spot, at, few))
          | inr near ↦ inr (ground (arith, known, r, at, few))
        ]

    -- The disk after a piece has been written at `off`.
    pub piece-Replaced :
        (m off src a : ℕ) (bs : List ℕ) (ip : Content) (d : Disk)
        → IsSound bmapstart size ip d
        → off / bsize < maxfile
        → slot ip d (off / bsize) ≡ a
        → a ≢ 0
        → off % bsize + m ≤ bsize
        → bs ≡ slice source src m
        → Replaced source src p off (off + m) ip d ip (put_bytes a (off % bsize) bs d)
    piece-Replaced m off src a bs ip d s le at ne room e =
        let ne' : slot ip d (off / bsize) ≢ 0 = λ z. ne (sym at ∙ z) in
        let len : length bs ≡ m = ap length e ∙ length-slice source src m in
        let w =
          byte_at-written bmapstart size s (off / bsize) le ne' (off % bsize) bs p low
            (omega (arith, len)) in
        let start : off / bsize * bsize + off % bsize ≡ off = omega arith in
        let w' = rw (at, start) at w in
        w'
        ∙ ap (λ l. if leb off p && ltb p (off + l) then get_or bs (p - off) 0 else byte_at ip d p)
            len
        ∙ elim (Bool-cases (leb off p && ltb p (off + m))) [
          | inl h ↦
              let inside : p - off < m = ground arith in
              rw h (
                ap (λ (l : List ℕ). get_or l (p - off) 0) e
                ∙ get_or-slice source src m (p - off) inside)
          | inr h ↦ rw h refl
        ]

    pub fail-Wrote :
        (m n off src a : ℕ) (bs : List ℕ) (ip : Content) (d : Disk)
        → IsSound bmapstart size ip d
        → off / bsize < maxfile
        → slot ip d (off / bsize) ≡ a
        → a ≢ 0
        → off % bsize + m ≤ bsize
        → m ≤ n
        → length bs ≤ m
        → (get src m).1 ≡ false
        → HasRoom c d.log
        → Wrote j c source get src p n off ip d
            (some (n, (off, (ip, put_bytes a (off % bsize) bs d))))
    fail-Wrote m n off src a bs ip d s le at ne room few len bad has =
        let ne' : slot ip d (off / bsize) ≢ 0 = λ z. ne (sym at ∙ z) in
        let w =
          byte_at-written bmapstart size s (off / bsize) le ne' (off % bsize) bs p low
            (omega (arith, len)) in
        let start : off / bsize * bsize + off % bsize ≡ off = omega arith in
        let w' = rw (at, start) at w in
        let s' = written-IsSound bmapstart size s (off / bsize) le ne' (off % bsize) bs in
        let s'' = rw at at s' in
        (
          omega arith,
          inr (src, m, bad),
          omega arith,
          s'',
          refl,
          bytes w',
          none-IsThere j off ip d (put_bytes a (off % bsize) bs d)
              (slot-put_bytes a (off % bsize) bs ip d j),
          has,
        )
      where
        bytes :
            byte_at ip (put_bytes a (off % bsize) bs d) p ≡ (
              if leb off p && ltb p (off + length bs)
              then get_or bs (p - off) 0
              else byte_at ip d p)
            → (((leb off p && ltb p (off + n)) ≡ true)
                ⊎ Replaced source src p off off ip d ip (put_bytes a (off % bsize) bs d))
        bytes w = elim (Bool-cases (leb off p && ltb p (off + n))) [
          | inl h ↦ inl h
          | inr h ↦ inr (ground (arith, w))
        ]

    -- A file that has grown first.
    pub grown-Wrote :
        (n off src : ℕ) (ip ip' : Content) (d d' : Disk) (o : Option (ℕ × (ℕ × (Content × Disk))))
        → byte_at ip' d' p ≡ byte_at ip d p
        → ip'.size ≡ ip.size
        → (slot ip d j ≢ 0 → slot ip' d' j ≡ slot ip d j)
        → Wrote j c source get src p n off ip' d' o
        → Wrote j c source get src p n off ip d o
    grown-Wrote n off src ip ip' d d' none e e' kept w = w
    grown-Wrote n off src ip ip' d d' (some (left, (last, (ip'', d'')))) e e' kept
          (few, done, at, s, z, w, there, left_room) =
        (
          few,
          done,
          at,
          s,
          z ∙ e',
          bytes w,
          grown-IsThere j off last ip ip' ip'' d d' d'' kept there,
          left_room,
        )
      where
        bytes :
            (((leb last p && ltb p (off + n)) ≡ true)
              ⊎ Replaced source src p off last ip' d' ip'' d'')
            → (((leb last p && ltb p (off + n)) ≡ true)
                ⊎ Replaced source src p off last ip d ip'' d'')
        bytes (inl unknown) = inl unknown
        bytes (inr known) =
            inr
              (known ∙ ap (λ x. if leb off p && ltb p last then source (src + (p - off)) else x) e)
