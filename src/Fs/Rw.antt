-- ===== src/Fs/Rw.antt =====
-- `readi` and `writei` of kernel/fs.c, over `bmap`. What `either_copyout` does to the state of the
-- caller's memory, and what `either_copyin` reads from it, are arguments: each says whether it
-- succeeded, and one that fails may have copied a part. `none` is a panic.
use cs202_lab.Prelude.{
  ℕ, zero, suc, ◌+◌, ◌-◌, ◌*◌, ◌/◌, ◌%◌, min, Bool, true, false, List, [], ◌∷◌, ◌==◌, ◌&&◌, ◌||◌,
  ltb, leb, Option, none, some, if◌then◌else◌, get_or, length, add32,
}
use cs202_lab.Strings.{Memory}
use cs202_lab.Log.{Log}
use cs202_lab.Fs.Blocks.{Disk, log_call, logged, ndirect, nindirect}
use cs202_lab.Fs.Bmap.{Content, bmap}

-- `BSIZE` and `MAXFILE`
abbrev pub bsize : ℕ
bsize = 1024

abbrev pub maxfile : ℕ
maxfile = ndirect + nindirect

-- `m` bytes from offset `o`.
unfoldable pub slice : (ℕ → ℕ) → ℕ → ℕ → List ℕ
slice f o zero = []
slice f o (suc m) = f o ∷ slice f (suc o) m

-- Bytes written from offset `o` on.
abbrev pub overwrite : ℕ → List ℕ → (ℕ → ℕ) → ℕ → ℕ
overwrite o bs f i = if leb o i && ltb i (o + length bs) then get_or bs (i - o) 0 else f i

-- A write into the buffer of block `b`.
abbrev pub put_bytes : ℕ → ℕ → List ℕ → Disk → Disk
put_bytes b o bs d = record d {
  bytes = λ c i. if c == b then overwrite o bs (d.bytes b) i else d.bytes c i;
}

-- A result, unless `log_write` has panicked.
abbrev pub unless_panicked : {R : Type 0} → Option Log → R → Option R
unless_panicked none r = none
unless_panicked (some l) r = some r

-- `min(n - tot, BSIZE - off%BSIZE)`, with `left` for `n - tot`.
abbrev pub piece : ℕ → ℕ → ℕ
piece left off = min left (bsize - off % bsize)

-- The rest of a round, at the block that `bmap` gives.
abbrev pub at_block :
    {R : Type 0} → (ℕ → Content → Disk → Option R) → Option (ℕ × (Content × Disk)) → Option R
at_block more none = none
at_block more (some (a, (ip, d))) = more a ip d

-- `either_copyout` and `either_copyin` for a kernel address: `memmove`.
abbrev pub put_kernel : ℕ → List ℕ → Memory → Memory × Bool
put_kernel dst bs m = (overwrite dst bs m, true)

abbrev pub get_kernel : Memory → ℕ → ℕ → List ℕ × Bool
get_kernel m src n = (slice m src n, true)

module _ (bmapstart sb_size : ℕ) where
  module _ {S : Type 0} (put : ℕ → List ℕ → S → S × Bool) where
    -- The loop of `readi`: `false` is `tot = -1`.
    abbrev pub after_put :
        (S → Option (Bool × (Content × (Disk × S))))
        → Content
        → Disk
        → S × Bool
        → Option (Bool × (Content × (Disk × S)))
    after_put more ip d (s, true) = more s
    after_put more ip d (s, false) = some (false, (ip, (d, s)))

    unfoldable pub read_loop :
        ℕ → ℕ → ℕ → ℕ → Content → Disk → S → Option (Bool × (Content × (Disk × S)))
    read_loop fuel zero off dst ip d s = some (true, (ip, (d, s)))
    read_loop zero (suc left) off dst ip d s = none
    read_loop (suc fuel) (suc left) off dst ip d s =
        let m = piece (suc left) off in
        at_block
          (λ a ip' d'.
            after_put (read_loop fuel (suc left - m) (off + m) (dst + m) ip' d') ip' d'
              (put dst (slice (d'.bytes a) (off % bsize) m) s))
          (bmap bmapstart sb_size ip (off / bsize) d)

    -- The count that `readi` returns.
    abbrev pub read_done :
        ℕ → Option (Bool × (Content × (Disk × S))) → Option (Option ℕ × (Content × (Disk × S)))
    read_done n none = none
    read_done n (some (true, r)) = some (some n, r)
    read_done n (some (false, r)) = some (none, r)

    -- `readi`: the inner `none` is -1.
    unfoldable pub readi :
        ℕ → ℕ → ℕ → Content → Disk → S → Option (Option ℕ × (Content × (Disk × S)))
    unfolding read_loop
    readi dst off n ip d s =
        let count = if ltb ip.size (add32 off n) then ip.size - off else n in
        if ltb ip.size off || ltb (add32 off n) off
        then some (some 0, (ip, (d, s)))
        else read_done count (read_loop count count off dst ip d s)

  module _ (get : ℕ → ℕ → List ℕ × Bool) where
    -- The loop of `writei`: what is left, where it stopped, and the inode.
    abbrev pub after_get :
        (Disk → Option (ℕ × (ℕ × (Content × Disk))))
        → ℕ
        → ℕ
        → ℕ
        → Content
        → Disk
        → List ℕ × Bool
        → Option (ℕ × (ℕ × (Content × Disk)))
    after_get more left off a ip d (bs, true) = more (logged a (put_bytes a (off % bsize) bs d))
    after_get more left off a ip d (bs, false) =
        some (left, (off, (ip, put_bytes a (off % bsize) bs d)))

    unfoldable pub write_loop : ℕ → ℕ → ℕ → ℕ → Content → Disk → Option (ℕ × (ℕ × (Content × Disk)))
    write_loop fuel zero off src ip d = some (0, (off, (ip, d)))
    write_loop zero (suc left) off src ip d = none
    write_loop (suc fuel) (suc left) off src ip d =
        let m = piece (suc left) off in
        at_block
          (λ a ip' d'.
            after_get (write_loop fuel (suc left - m) (off + m) (src + m) ip') (suc left) off a ip'
              d' (get src m))
          (bmap bmapstart sb_size ip (off / bsize) d)

    -- What follows the loop. Of `iupdate` there is its `log_write` of the inode's block alone. If any
    -- `log_write` has panicked, the call has not come to an end.
    abbrev pub write_done :
        ℕ → ℕ → Option (ℕ × (ℕ × (Content × Disk))) → Option (Option ℕ × (Content × Disk))
    write_done iblock n none = none
    write_done iblock n (some (left, (off, (ip, d)))) = unless_panicked (log_call iblock d.log) (
      some (n - left),
      (record ip { size = if ltb ip.size off then off else ip.size }, logged iblock d),
    )

    -- `writei` in a transaction, of an inode in block `iblock`: the inner `none` is -1.
    unfoldable pub writei : ℕ → ℕ → ℕ → ℕ → Content → Disk → Option (Option ℕ × (Content × Disk))
    unfolding write_loop
    writei iblock src off n ip d =
        if ltb ip.size off || ltb (add32 off n) off
        then some (none, (ip, d))
        else if ltb (maxfile * bsize) (add32 off n)
        then some (none, (ip, d))
        else write_done iblock n (write_loop n n off src ip d)
