-- ===== src/Log.antt =====
-- The write-ahead log of kernel/log.c. A block is its 32-bit words. `view` is what `bread` returns
-- for each block (the buffer cache over the disk), and every `bwrite` is one entry of a list of disk
-- writes, so that a crash is a prefix of that list. Of the header in memory the model holds the
-- first `n` block numbers, the ones that the code reads.
pub mod Header
pub mod Install
pub mod Trace
pub mod Crash
pub mod Session
pub mod Space
mod Tests
use cs202_lab.Prelude.{
  ℕ, zero, suc, ◌+◌, ◌-◌, ◌*◌, ◌<◌, ◌≡◌, Bool, true, false, List, [], ◌∷◌, ◌++◌, ◌==◌, ◌||◌, leb,
  ltb, Option, none, some, if◌then◌else◌, length, get_or, set, any_of, sub32,
}

abbrev pub Block : Type 0
Block = List ℕ

abbrev pub View : Type 0
View = ℕ → Block

abbrev pub Write : Type 0
Write = ℕ × Block

unfoldable pub update {ℓ} : {A : Type ℓ} → (ℕ → A) → ℕ → A → ℕ → A
update f a v b = if b == a then v else f b

-- The disk after a list of writes, oldest first.
unfoldable pub apply : List Write → View → View
unfolding update
apply [] d = d
apply ((a, w) ∷ ws) d = apply ws (update d a w)

abbrev pub log_size : ℕ
log_size = 30

abbrev pub max_op_blocks : ℕ
max_op_blocks = 10

-- `struct log`, with what `bread` sees and the pins of the cached blocks.
pub record Log : Type 0 where
  pub start : ℕ
  pub size : ℕ
  pub outstanding : ℕ
  pub committing : Bool
  pub blocks : List ℕ
  pub view : View
  pub pins : ℕ → ℕ

-- `write_log`: the cached blocks to the log area, from position `tail`.
unfoldable pub write_log_from : ℕ → ℕ → List ℕ → View → View × List Write
unfolding update
write_log_from start tail [] v = (v, [])
write_log_from start tail (b ∷ bs) v =
    let to = start + tail + 1 in
    let (v', ws) = write_log_from start (suc tail) bs (update v to (v b)) in (v', (to, v b) ∷ ws)

-- `install_trans`: the log area to the home blocks, from position `tail`.
unfoldable pub install_from : ℕ → ℕ → List ℕ → View → View × List Write
unfolding update
install_from start tail [] v = (v, [])
install_from start tail (b ∷ bs) v =
    let data' = v (start + tail + 1) in
    let (v', ws) = install_from start (suc tail) bs (update v b data') in (v', (b, data') ∷ ws)

-- The `bunpin` of each block in `install_trans(0)`.
unfoldable pub unpin_all : List ℕ → (ℕ → ℕ) → ℕ → ℕ
unfolding update
unpin_all [] pins = pins
unpin_all (b ∷ bs) pins = unpin_all bs (update pins b (pins b - 1))

-- The header in the words of its block: `n`, then the block numbers.
unfoldable pub put_blocks : ℕ → List ℕ → Block → Block
put_blocks i [] w = w
put_blocks i (b ∷ bs) w = put_blocks (suc i) bs (set w (suc i) b)

unfoldable pub get_blocks : ℕ → ℕ → Block → List ℕ
get_blocks zero i w = []
get_blocks (suc n) i w = get_or w (suc i) 0 ∷ get_blocks n (suc i) w

unfoldable pub header_words : List ℕ → Block → Block
unfolding put_blocks
header_words bs w = put_blocks 0 bs (set w 0 (length bs))

-- `write_head` and `read_head`.
unfoldable pub write_head : ℕ → List ℕ → View → View × List Write
unfolding update header_words
write_head start bs v = let w = header_words bs (v start) in (update v start w, (start, w) ∷ [])

unfoldable pub read_head : ℕ → View → List ℕ
unfolding get_blocks
read_head start v = get_blocks (get_or (v start) 0 0) 0 (v start)

-- `commit`: the new view, and the disk writes in their order.
unfoldable pub commit_steps : ℕ → List ℕ → View → View × List Write
commit_steps start bs v =
    let (v1, logged) = write_log_from start 0 bs v in
    let (v2, head) = write_head start bs v1 in
    let (v3, home) = install_from start 0 bs v2 in
    let (v4, erase) = write_head start [] v3 in (v4, logged ++ (head ++ (home ++ erase)))

abbrev pub commit_writes : ℕ → List ℕ → View → View × List Write
commit_writes start [] v = (v, [])
commit_writes start (b ∷ bs) v = commit_steps start (b ∷ bs) v

unfoldable pub commit : Log → Log × List Write
commit l =
    let (v, ws) = commit_writes l.start l.blocks l.view in
    (record l { view = v; blocks = []; pins = unpin_all l.blocks l.pins }, ws)

-- `recover_from_log` on the disk that a crash left: what `bread` sees is then the disk.
unfoldable pub recover : ℕ → View → View × List Write
unfolding read_head install_from write_head
recover start d =
    let (v, home) = install_from start 0 (read_head start d) d in
    let (v', erase) = write_head start [] v in (v', home ++ erase)

-- `initlog`: the part behind `initlock`.
unfoldable pub initlog : ℕ → ℕ → View → Log × List Write
unfolding recover
initlog logstart nlog d =
    let (v, ws) = recover logstart d in
    (
      record {
        start = logstart;
        size = nlog;
        outstanding = 0;
        committing = false;
        blocks = [];
        view = v;
        pins = λ b. 0;
      },
      ws,
    )

-- One round of the loop of `begin_op`: `none` is to sleep.
unfoldable pub begin_op : Log → Option Log
begin_op l =
    if l.committing
    then none
    else if ltb log_size (length l.blocks + (l.outstanding + 1) * max_op_blocks)
    then none
    else some (record l { outstanding = l.outstanding + 1 })

-- `end_op` up to the release of the lock: `none` is the panic, and the Boolean is `do_commit`.
unfoldable pub end_op_start : Log → Option (Log × Bool)
end_op_start l =
    if l.committing
    then none
    else if sub32 l.outstanding 1 == 0
    then some (record l { outstanding = sub32 l.outstanding 1; committing = true }, true)
    else some (record l { outstanding = sub32 l.outstanding 1 }, false)

unfoldable pub end_op : Log → Option (Log × List Write)
end_op l = elim (end_op_start l) [
  | none ↦ none
  | some (l', do_commit) ↦
      if do_commit
      then some (record (commit l').0 { committing = false }, (commit l').1)
      else some (l', [])
]

-- `log_write` of block `b`: `none` is a panic. An old entry absorbs the write.
unfoldable pub log_write : ℕ → Log → Option Log
unfolding update
log_write b l =
    if leb log_size (length l.blocks) || leb (l.size - 1) (length l.blocks)
    then none
    else if ltb l.outstanding 1
    then none
    else if any_of (λ c. c == b) l.blocks
    then some l
    else some (record l { blocks = l.blocks ++ (b ∷ []); pins = update l.pins b (l.pins b + 1) })
