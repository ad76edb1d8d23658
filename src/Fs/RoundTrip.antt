-- ===== src/Fs/RoundTrip.antt =====
-- `readi` after `writei`.
use cs202_lab.Prelude.{
  ℕ, ◌+◌, ◌-◌, ◌*◌, ◌^◌, ◌<◌, ◌≤◌, ◌≡◌, ◌≢◌, ◌⊎◌, inl, inr, refl, ap, ◌∙◌, true, false, ◌&&◌, ltb,
  leb, Option, none, some, if◌then◌else◌, arith, Bool-cases,
}
use mathlib.Core.Path.{subst}
use cs202_lab.Strings.{Memory}
use cs202_lab.Fs.Blocks.{Disk}
use cs202_lab.Fs.Bmap.{Content}
use cs202_lab.Fs.Room.{HasRoom}
use cs202_lab.Fs.Rw.{maxfile, bsize, put_kernel, get_kernel, readi, writei}
use cs202_lab.Fs.Sound.{slot, byte_at, IsSound}
use cs202_lab.Fs.Free.{free_below}
use cs202_lab.Fs.Touched.{blocks_touched, Replaced, Complete, IsThere}
use cs202_lab.Fs.Written.{refused, Written, writei_lem}
use cs202_lab.Fs.Read.{IsFull, available, ReadBytes, readi_lem}

module _ (bmapstart size : ℕ) where
  -- What `readi` copies to `dst`, seen at address `q`: the `n` bytes of `mem` from `src` on.
  abbrev pub Restored :
      Memory
      → ℕ
      → ℕ
      → ℕ
      → ℕ
      → Content
      → Disk
      → Memory
      → Option (Option ℕ × (Content × (Disk × Memory)))
      → Type 0
  Restored mem src q dst n ip d m none = ⊥
  Restored mem src q dst n ip d m (some (none, r)) = ⊥
  Restored mem src q dst n ip d m (some (some tot, (ip', (d', m')))) =
      (tot ≡ n)
      × (ip' ≡ ip)
      × (d' ≡ d)
      × (m' q ≡ (if leb dst q && ltb q (dst + n) then mem (src + (q - dst)) else m q))

  module _ (mem : Memory) (src off n : ℕ) (ip : Content) (d : Disk) (lt : off < 2 ^ 32)
      (lt' : n < 2 ^ 32) (sound : IsSound bmapstart size ip d) (full : IsFull ip.size ip d)
      (big : ip.size ≤ maxfile * bsize)
      (free : 2 * blocks_touched off n ≤ free_below bmapstart size d)
      (fine : refused off n ip ≡ false) where
    abbrev Facts : Option (Option ℕ × (Content × Disk)) → Type 0
    Facts o =
        (j p : ℕ)
        → j ≤ maxfile
        → p < maxfile * bsize
        → Written bmapstart size j mem (get_kernel mem) src p n off ip d o

    module _ (ip' : Content) (d' : Disk) (facts : Facts (some (some n, (ip', d')))) where
      new_size : ip'.size ≡ (if ltb ip.size (off + n) then off + n else ip.size)
      new_size = let (r, few, done, s, e, w, there) = facts 0 0 (omega arith) (omega arith) in e

      written-IsFull : IsFull ip'.size ip' d'
      written-IsFull k less =
          let e = new_size in
          let low : k ≤ maxfile = ground arith in
          let (r, few, done, s, e', w, there) = facts k 0 low (omega arith) in from low there
        where
          from : k ≤ maxfile → IsThere k off (off + n) ip d ip' d' → slot ip' d' k ≢ 0
          from low (inl h) = h
          from low (inr (z, t)) = elim (Bool-cases (ltb (k * bsize) ip.size)) [
            | inl h ↦ absurd (full k (ground arith) z)
            | inr h ↦ let e = new_size in absurd (ground arith)
          ]

      stored : (i : ℕ) → i < n → byte_at ip' d' (off + i) ≡ mem (src + i)
      stored i less =
          let inside : off + i < maxfile * bsize = ground arith in
          let (r, few, done, s, e', w, there) = facts 0 (off + i) (omega arith) inside in from w
        where
          from :
              (((leb (off + n) (off + i) && ltb (off + i) (off + n)) ≡ true)
                ⊎ Replaced mem src (off + i) off (off + n) ip d ip' d')
              → byte_at ip' d' (off + i) ≡ mem (src + i)
          from (inl h) = absurd (ground arith)
          from (inr h) =
              let here : (leb off (off + i) && ltb (off + i) (off + n)) ≡ true = ground arith in
              let back : off + i - off ≡ i = omega arith in h ∙ rw (here, back) refl

      read_back :
          (q dst : ℕ) (m : Memory)
          → Restored mem src q dst n ip' d' m (readi bmapstart size put_kernel dst off n ip' d' m)
      read_back q dst m =
          let e = new_size in
          let all : available bmapstart size off n ip' ≡ n = ground arith in
          let small : ip'.size ≤ maxfile * bsize = ground arith in
          from _
            (rw all at (readi_lem bmapstart size q dst off n ip' d' m lt lt' small written-IsFull))
        where
          from :
              (o : Option (Option ℕ × (Content × (Disk × Memory))))
              → ReadBytes bmapstart size q dst off n ip' d' m o
              → Restored mem src q dst n ip' d' m o
          from none f = f
          from (some (none, r)) f = f
          from (some (some tot, (ip'', (d'', m'')))) (e, e1, e2, w) =
              (e, e1, e2, bytes (Bool-cases (leb dst q && ltb q (dst + n))))
            where
              bytes :
                  (((leb dst q && ltb q (dst + n)) ≡ true)
                    ⊎ ((leb dst q && ltb q (dst + n)) ≡ false))
                  → m'' q ≡ (if leb dst q && ltb q (dst + n) then mem (src + (q - dst)) else m q)
              bytes (inl h) = rw h (rw h at w ∙ stored (q - dst) (ground arith))
              bytes (inr h) = rw h (rw h at w)

    stored_all :
        (o : Option (Option ℕ × (Content × Disk)))
        → Facts o
        → (ip' : Content) × (d' : Disk) × (o ≡ some (some n, (ip', d')))
          × IsSound bmapstart size ip' d'
          × ((q dst : ℕ) (m : Memory)
              → Restored mem src q dst n ip' d' m
                  (readi bmapstart size put_kernel dst off n ip' d' m))
    stored_all none facts = absurd (facts 0 0 (omega arith) (omega arith))
    stored_all (some (none, (ip', d'))) facts =
        let (r, same, same') = facts 0 0 (omega arith) (omega arith) in
        absurd (ground (arith, r, fine))
    stored_all (some (some tot, (ip', d'))) facts =
        let (r, few, done, s, e, w, there) = facts 0 0 (omega arith) (omega arith) in
        whole tot (complete tot few done) facts s
      where
        complete : (tot : ℕ) → tot ≤ n → Complete (get_kernel mem) (n - tot) → tot ≡ n
        complete tot few (inl z) = omega arith
        complete tot few (inr (a, m, bad)) = absurd (ground (arith, bad))

        whole :
            (tot : ℕ)
            → tot ≡ n
            → Facts (some (some tot, (ip', d')))
            → IsSound bmapstart size ip' d'
            → (ip'' : Content) × (d'' : Disk) × (◌≡◌ {A = Option (Option ℕ × (Content × Disk))}
                (some (some tot, (ip', d')))
                (some (some n, (ip'', d''))))
              × IsSound bmapstart size ip'' d''
              × ((q dst : ℕ) (m : Memory)
                  → Restored mem src q dst n ip'' d'' m
                      (readi bmapstart size put_kernel dst off n ip'' d'' m))
        whole tot e facts s =
            let facts' = subst (λ t. Facts (some (some t, (ip', d')))) e facts in
            (ip', d', ap (λ t. some (some t, (ip', d'))) e, s, read_back ip' d' facts')

  -- In a sound file without holes below its size, and on a disk with two free blocks for each block
  -- that the range touches, in a transaction with room in its log for one block, and for seven for
  -- each of these, `writei` of `n` bytes of kernel memory to a range that begins in the file and ends
  -- within the greatest size writes them all and leaves a sound file; and `readi` of that range then
  -- copies the same `n` bytes to any place of any memory, changing nothing else.
  pub writei-readi :
      (iblock : ℕ) (mem : Memory) (src off n : ℕ) (ip : Content) (d : Disk)
      → off < 2 ^ 32
      → n < 2 ^ 32
      → IsSound bmapstart size ip d
      → IsFull ip.size ip d
      → ip.size ≤ maxfile * bsize
      → 2 * blocks_touched off n ≤ free_below bmapstart size d
      → HasRoom (1 + 7 * blocks_touched off n) d.log
      → refused off n ip ≡ false
      → (ip' : Content) × (d' : Disk) × (writei bmapstart size
            (get_kernel mem)
            iblock
            src
            off
            n
            ip
            d
          ≡ some (some n, (ip', d')))
        × IsSound bmapstart size ip' d'
        × ((q dst : ℕ) (m : Memory)
            → Restored mem src q dst n ip' d' m
                (readi bmapstart size put_kernel dst off n ip' d' m))
  writei-readi iblock mem src off n ip d lt lt' s full big free has fine =
      stored_all mem src off n ip d lt lt' s full big free fine _ (λ j p low_j low.
        writei_lem bmapstart size mem (get_kernel mem) (λ a m. refl) iblock j p src off n ip d low_j
          low lt lt' s free has)
