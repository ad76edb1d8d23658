-- ===== src/File/Chunks.antt =====
-- The loop of `filewrite` and its transactions.
use cs202_lab.Prelude.{
  ℕ, zero, suc, ◌+◌, ◌-◌, ◌*◌, ◌<◌, ◌≤◌, ◌≡◌, refl, ◌⊎◌, Bool, true, false, List, [], ◌∷◌, ◌==◌,
  ◌&&◌, leb, ltb, Option, none, some, if◌then◌else◌, arith, all_of, Bool-cases, inl, inr,
}
use cs202_lab.Log.{max_op_blocks}
use cs202_lab.Fs.Touched.{blocks_touched}
use cs202_lab.File.{Call, max_chunk, Writei, advance, wrote_all, write_chunks, write_inode}

-- A transaction asks for a byte or more, and the blocks that its range touches, as many blocks of the
-- bit map, the indirect block and the inode are no more than MAXOPBLOCKS.
abbrev pub fits_op : Call → Bool
fits_op (a, (o, m)) = ltb 0 m && leb (2 * blocks_touched o m + 2) max_op_blocks

abbrev pub total : List Call → ℕ
total [] = 0
total ((a, (o, m)) ∷ cs) = m + total cs

-- Each transaction begins where the one before ends, in the memory and in the file.
abbrev pub in_order : ℕ → ℕ → List Call → Bool
in_order addr off' [] = true
in_order addr off' ((a, (o, m)) ∷ cs) =
    (a == addr) && (o == off') && in_order (addr + m) (off' + m) cs

-- What the loop gives, started at `addr` and `off'` with `left` bytes to go.
record Ran (addr off' left : ℕ) (out : Option (ℕ × (ℕ × List Call))) : Type 0 where
  stop : ℕ
  remain : ℕ
  calls : List Call
  result : out ≡ some (stop, (remain, calls))
  sizes : all_of fits_op calls ≡ true
  order : in_order addr off' calls ≡ true
  done : ((remain ≡ 0) × (stop ≡ off' + left) × (total calls ≡ left)) ⊎ (0 < remain)

wrote_all-advance :
    (off' n1 : ℕ) (r : Option ℕ) → wrote_all n1 r ≡ true → advance off' r ≡ off' + n1
wrote_all-advance off' n1 none h = cc
wrote_all-advance off' n1 (some r) h = ground arith

abbrev chunk : ℕ → ℕ
chunk left = if ltb max_chunk left then max_chunk else left

chunk_lem :
    (left : ℕ)
    → (left == 0) ≡ false
    → (0 < chunk left) × (chunk left ≤ max_chunk) × (chunk left ≤ left)
chunk_lem left h = ground arith

chunk-fits_op :
    (addr off' left : ℕ) → (left == 0) ≡ false → fits_op (addr, (off', chunk left)) ≡ true
chunk-fits_op addr off' left h =
    let (pos, small', le) = chunk_lem left h in few (chunk left) pos small'
  where
    few : (m : ℕ) → 0 < m → m ≤ max_chunk → fits_op (addr, (off', m)) ≡ true
    few zero pos le = absurd (omega arith)
    few (suc m) pos le =
        let count : 2 * blocks_touched off' (suc m) + 2 ≤ max_op_blocks = omega arith in
        ground arith

write_chunks-Ran :
    (writei : Writei) (fuel addr off' left : ℕ)
    → left < fuel
    → Ran addr off' left (write_chunks writei fuel addr off' left)
unfolding write_chunks
write_chunks-Ran writei zero addr off' left lt = absurd (omega arith)
write_chunks-Ran writei (suc fuel) addr off' left lt = elim (Bool-cases (left == 0)) [
  | inl z ↦ record {
    stop = off';
    remain = 0;
    calls = [];
    result = rw (z, write_chunks) refl;
    sizes = refl;
    order = refl;
    done = inl (refl, ground arith, ground arith);
  }
  | inr nz ↦
      let r = writei addr off' (chunk left) in
      let (pos, small', le) = chunk_lem left nz in
      elim (Bool-cases (wrote_all (chunk left) r)) [
        | inl ok ↦
            let on = wrote_all-advance off' (chunk left) r ok in
            let ih =
              write_chunks-Ran writei fuel (addr + chunk left) (advance off' r) (left - chunk left)
                (omega arith) in
            record {
              stop = ih.stop;
              remain = ih.remain;
              calls = (addr, (off', chunk left)) ∷ ih.calls;
              result = rw (nz, ok, ih.result, write_chunks) refl;
              sizes = rw (chunk-fits_op addr off' left nz) ih.sizes;
              order = let o = rw on at ih.order in ground arith;
              done = elim ih.done [
                | inl (z, at, sum) ↦ inl (z, omega arith, omega arith)
                | inr more ↦ inr more
              ];
            }
        | inr bad ↦ record {
          stop = advance off' r;
          remain = left;
          calls = (addr, (off', chunk left)) ∷ [];
          result = rw (nz, bad, write_chunks) refl;
          sizes = rw (chunk-fits_op addr off' left nz) refl;
          order = ground arith;
          done = inr (ground arith);
        }
      ]
]

-- `filewrite` on an inode always ends, whatever `writei` returns, given more fuel than bytes. Each of
-- its transactions asks `writei` for at least one byte, and the blocks that the range touches, as many
-- of the bit map, the indirect block and the inode's are at most MAXOPBLOCKS. The transactions follow
-- each other without a gap from the address and the offset on. It returns `n` only when their counts
-- add up to `n` and the offset has moved by `n`, and else -1.
pub write_inode_lem :
    (writei : Writei) (fuel addr off' n : ℕ)
    → n < fuel
    → (stop : ℕ) × (ret : Option ℕ) × (calls : List Call) × (write_inode writei fuel addr off' n
        ≡ some (stop, (ret, calls)))
      × (all_of fits_op calls ≡ true)
      × (in_order addr off' calls ≡ true)
      × (((ret ≡ some n) × (stop ≡ off' + n) × (total calls ≡ n)) ⊎ (ret ≡ none))
unfolding write_inode
write_inode_lem writei fuel addr off' n lt =
    let ran = write_chunks-Ran writei fuel addr off' n lt in
    (
      ran.stop,
      (if ran.remain == 0 then some n else none),
      ran.calls,
      rw ran.result refl,
      ran.sizes,
      ran.order,
      elim ran.done [
        | inl (z, at, sum) ↦ inl (rw z refl, at, sum)
        | inr more ↦ let nz : (ran.remain == 0) ≡ false = ground arith in inr (rw nz refl)
      ],
    )
