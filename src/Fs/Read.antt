-- ===== src/Fs/Read.antt =====
-- `readi` on a file without holes, into the memory of the kernel.
use cs202_lab.Prelude.{
  ℕ, zero, suc, ◌+◌, ◌-◌, ◌*◌, ◌/◌, ◌%◌, ◌^◌, ◌<◌, ◌≤◌, ◌≡◌, ◌≢◌, ◌⊎◌, inl, inr, refl, sym, ap, ◌∙◌,
  min, Bool, true, false, ◌==◌, ◌&&◌, ◌||◌, ltb, leb, Option, none, some, if◌then◌else◌, get_or,
  add32, arith, Bool-cases,
}
use cs202_lab.Strings.{Memory}
use cs202_lab.Fs.Blocks.{Disk, ndirect, nindirect}
use cs202_lab.Fs.Bmap.{Content, bmap, word_block}
use cs202_lab.Fs.Rw.{
  maxfile, bsize, slice, overwrite, piece, put_kernel, read_loop, read_done, readi,
}
use cs202_lab.Fs.Sound.{slot, byte_at}
use cs202_lab.Fs.Slots.{slot_again, word_again}
use cs202_lab.Fs.Stable.{bmap-direct, bmap-indirect}
use cs202_lab.Fs.Words.{word_in, slot-direct, slot-middle}
use cs202_lab.Fs.Put.{length-slice, get_or-slice}

-- No hole below the size.
abbrev pub IsFull : ℕ → Content → Disk → Type 0
IsFull x ip d = (k : ℕ) → k * bsize < x → slot ip d k ≢ 0

module _ (bmapstart size : ℕ) where
  -- `bmap` of a block that is there.
  bmap_there :
      (k : ℕ) (ip : Content) (d : Disk)
      → k < maxfile
      → slot ip d k ≢ 0
      → bmap bmapstart size ip k d ≡ some (slot ip d k, (ip, d))
  bmap_there k ip d lt ne = elim (Bool-cases (ltb k ndirect)) [
    | inl h ↦
        let at = slot-direct k ip d h in
        bmap-direct bmapstart size ip k d h
        ∙ slot_again bmapstart size k (slot ip d k) ip d ne (sym at)
    | inr h ↦
        let more : ltb (k - ndirect) nindirect ≡ true = ground arith in
        let g : (k == maxfile) ≡ false = ground arith in
        let at = slot-middle k ip d h g in
        let b = get_or ip.addrs ndirect 0 in
        let word = nonzero_word b (λ z. ne (at ∙ z)) in
        bmap-indirect bmapstart size ip k d h more
        ∙ ap (word_block bmapstart size (k - ndirect))
            (slot_again bmapstart size ndirect b ip d word.0 refl)
        ∙ word_again bmapstart size (k - ndirect) b (slot ip d k) ip d ne (word.1 ∙ sym at)
  ]
    where
      nonzero_word :
          (b : ℕ)
          → word_in b (k - ndirect) d ≢ 0
          → (b ≢ 0) × (d.words b (k - ndirect) ≡ word_in b (k - ndirect) d)
      nonzero_word b h = elim (Bool-cases (b == 0)) [
        | inl z ↦ absurd (h (rw z refl))
        | inr z ↦ ((λ e. ground arith), rw z refl)
      ]

  -- The memory after the bytes from `off` have been copied to `dst`.
  abbrev pub ReadTo : ℕ → ℕ → ℕ → Content → Disk → Memory → Memory → ℕ → Type 0
  ReadTo dst off n ip d m m' q =
      m' q ≡ (if leb dst q && ltb q (dst + n) then byte_at ip d (off + (q - dst)) else m q)

  -- What the loop of `readi` does, seen at address `q`.
  abbrev pub Loaded :
      ℕ → ℕ → ℕ → ℕ → Content → Disk → Memory → Option (Bool × (Content × (Disk × Memory))) → Type 0
  Loaded q dst off n ip d m none = ⊥
  Loaded q dst off n ip d m (some (done, (ip', (d', m')))) =
      (done ≡ true) × (ip' ≡ ip) × (d' ≡ d) × ReadTo dst off n ip d m m' q

  piece-ReadTo :
      (q dst off n : ℕ) (ip : Content) (d : Disk) (m : Memory)
      → off / bsize < maxfile
      → slot ip d (off / bsize) ≢ 0
      → off % bsize + n ≤ bsize
      → ReadTo dst off n ip d m
          (overwrite dst (slice (d.bytes (slot ip d (off / bsize))) (off % bsize) n) m)
          q
  piece-ReadTo q dst off n ip d m le ne room =
      let f = d.bytes (slot ip d (off / bsize)) in
      let len = length-slice f (off % bsize) n in
      rw len (elim (Bool-cases (leb dst q && ltb q (dst + n))) [
        | inl h ↦
            let inside : q - dst < n = ground arith in
            let block : (off + (q - dst)) / bsize ≡ off / bsize = omega arith in
            let spot : (off + (q - dst)) % bsize ≡ off % bsize + (q - dst) = omega arith in
            let there : (slot ip d (off / bsize) == 0) ≡ false = ground arith in
            rw h (get_or-slice f (off % bsize) n (q - dst) inside ∙ rw (block, spot, there) refl)
        | inr h ↦ rw h refl
      ])

  more-Loaded :
      (q k dst off n : ℕ) (ip : Content) (d : Disk) (m m' : Memory)
      (o : Option (Bool × (Content × (Disk × Memory))))
      → k ≤ n
      → ReadTo dst off k ip d m m' q
      → Loaded q (dst + k) (off + k) (n - k) ip d m' o
      → Loaded q dst off n ip d m o
  more-Loaded q k dst off n ip d m m' none le r w = w
  more-Loaded q k dst off n ip d m m' (some (done, (ip', (d', m'')))) le r (e, e1, e2, w) =
      (e, e1, e2, bytes (Bool-cases (leb (dst + k) q)))
    where
      bytes : (leb (dst + k) q ≡ true) ⊎ (leb (dst + k) q ≡ false) → ReadTo dst off n ip d m m'' q
      bytes (inl far) =
          let spot : leb (dst + k) q ≡ true → off + k + (q - (dst + k)) ≡ off + (q - dst) =
            λ h. ground arith in
          ground (arith, w, r, ap (byte_at ip d) (spot far))
      bytes (inr near) = ground (arith, w, r)

  read_loop-Loaded :
      (q fuel n dst off : ℕ) (ip : Content) (d : Disk) (m : Memory)
      → n ≤ fuel
      → off + n ≤ ip.size
      → ip.size ≤ maxfile * bsize
      → IsFull ip.size ip d
      → Loaded q dst off n ip d m (read_loop bmapstart size put_kernel fuel n off dst ip d m)
  unfolding read_loop
  read_loop-Loaded q fuel zero dst off ip d m en fits big full = (refl, refl, refl, ground arith)
  read_loop-Loaded q zero (suc n) dst off ip d m en fits big full = absurd (omega arith)
  read_loop-Loaded q (suc fuel) (suc n) dst off ip d m en fits big full =
      let k = piece (suc n) off in
      let m' = overwrite dst (slice (d.bytes (slot ip d (off / bsize))) (off % bsize) k) m in
      let ne = full (off / bsize) (omega arith) in
      rw (bmap_there (off / bsize) ip d (omega arith) ne) (
        more-Loaded q k dst off (suc n) ip d m m' _ (omega arith)
          (piece-ReadTo q dst off k ip d m (omega arith) ne (omega arith))
          (read_loop-Loaded q fuel (suc n - k) (dst + k) (off + k) ip d m' (omega arith)
            (omega arith) big full))

  -- How much of a range `readi` gives.
  abbrev pub available : ℕ → ℕ → Content → ℕ
  available off n ip =
      if ltb ip.size off || leb (2 ^ 32) (off + n) then 0 else min n (ip.size - off)

  -- What `readi` does where it gives the bytes of a range, seen at address `q`.
  abbrev pub ReadBytes :
      ℕ
      → ℕ
      → ℕ
      → ℕ
      → Content
      → Disk
      → Memory
      → Option (Option ℕ × (Content × (Disk × Memory)))
      → Type 0
  ReadBytes q dst off count ip d m none = ⊥
  ReadBytes q dst off count ip d m (some (none, r)) = ⊥
  ReadBytes q dst off count ip d m (some (some tot, (ip', (d', m')))) =
      (tot ≡ count) × (ip' ≡ ip) × (d' ≡ d) × ReadTo dst off count ip d m m' q

  read_done-ReadBytes :
      (q dst off n : ℕ) (ip : Content) (d : Disk) (m : Memory)
      (o : Option (Bool × (Content × (Disk × Memory))))
      → Loaded q dst off n ip d m o
      → ReadBytes q dst off n ip d m (read_done bmapstart size put_kernel n o)
  read_done-ReadBytes q dst off n ip d m none w = w
  read_done-ReadBytes q dst off n ip d m (some (true, r)) (e, e', e'', w) = (refl, e', e'', w)
  read_done-ReadBytes q dst off n ip d m (some (false, r)) (e, e', e'', w) = absurd (ground arith)

  -- `readi` into the memory of the kernel, of a file that has no hole below its size. From behind the
  -- end, or where the range wraps around, it gives no byte; else as many as the range has before the
  -- end of the file. They are the bytes of the file from the offset on, the rest of the memory is as
  -- before, and so are the inode and the disk: it neither panics nor allocates a block.
  pub readi_lem :
      (q dst off n : ℕ) (ip : Content) (d : Disk) (m : Memory)
      → off < 2 ^ 32
      → n < 2 ^ 32
      → ip.size ≤ maxfile * bsize
      → IsFull ip.size ip d
      → ReadBytes q dst off
          (available off n ip)
          ip
          d
          m
          (readi bmapstart size put_kernel dst off n ip d m)
  unfolding readi
  readi_lem q dst off n ip d m lt lt' big full =
      elim (Bool-cases (ltb ip.size off || ltb (add32 off n) off)) [
        | inl h ↦
            let zero_count : available off n ip ≡ 0 = ground arith in
            rw (h, zero_count) (refl, refl, refl, ground arith)
        | inr h ↦
            let count = if ltb ip.size (add32 off n) then ip.size - off else n in
            let same : available off n ip ≡ count = ground arith in
            let fits : off + count ≤ ip.size = ground arith in
            rw (h, same)
              (read_done-ReadBytes q dst off count ip d m _
                (read_loop-Loaded q count count dst off ip d m (omega arith) fits big full))
      ]
