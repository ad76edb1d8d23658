-- ===== src/File.antt =====
-- The file table of kernel/file.c: `filealloc`, `filedup`, `fileclose`, and the loop of `filewrite`
-- on an inode. A pointer into the table is an index, and an inode or a pipe its address. `writei` is
-- an argument: the count that it returns for an address, an offset and a count, or `none` for -1.
-- Offsets stay below 2^32.
pub mod Table
pub mod Chunks
mod Tests
use mathlib.Core.Option
use cs202_lab.Prelude.{
  ℕ, zero, suc, ◌+◌, ◌-◌, ◌*◌, ◌/◌, Bool, true, false, not, List, [], ◌∷◌, ◌==◌, ◌&&◌, ltb, slt,
  Option, none, some, if◌then◌else◌, get_elem?, modify, add32, sub32,
}

pub data FileType : Type 0 where
  fd_none fd_pipe fd_inode fd_device : FileType

-- `struct file`
pub record File : Type 0 where
  pub kind : FileType
  pub ref : ℕ
  pub readable : Bool
  pub writable : Bool
  pub pipe : ℕ
  pub ip : ℕ
  pub off : ℕ
  pub major : ℕ

-- `filealloc`: the first unused entry, or none.
unfoldable pub filealloc : List File → Option (ℕ × List File)
filealloc [] = none
filealloc (f ∷ fs) =
    if f.ref == 0
    then some (0, record f { ref = 1 } ∷ fs)
    else Option.map (λ r. (suc r.0, f ∷ r.1)) (filealloc fs)

-- `filedup`: `none` is the panic.
unfoldable pub filedup : ℕ → List File → Option (List File)
filedup i fs = elim (get_elem? fs i) [
  | none ↦ none
  | some f ↦
      if slt f.ref 1 then none else some (modify fs i (λ g. record g { ref = add32 g.ref 1 }))
]

-- What `fileclose` does once it has released the table.
pub data Release : Type 0 where
  nothing : Release
  -- `pipeclose(pipe, writable)`
  close_pipe : ℕ → Bool → Release
  -- `iput(ip)` between `begin_op` and `end_op`
  put_inode : ℕ → Release

abbrev pub release_of : File → Release
release_of f = elim f.kind [
  | FileType.fd_none ↦ Release.nothing
  | FileType.fd_pipe ↦ Release.close_pipe f.pipe f.writable
  | FileType.fd_inode ↦ Release.put_inode f.ip
  | FileType.fd_device ↦ Release.put_inode f.ip
]

-- `fileclose`: `none` is the panic.
unfoldable pub fileclose : ℕ → List File → Option (List File × Release)
fileclose i fs = elim (get_elem? fs i) [
  | none ↦ none
  | some f ↦
      if slt f.ref 1
      then none
      else if slt 0 (sub32 f.ref 1)
      then some (modify fs i (λ g. record g { ref = sub32 g.ref 1 }), Release.nothing)
      else some (modify fs i (λ g. record g { ref = 0; kind = FileType.fd_none }), release_of f)
]

-- `max` of `filewrite`: the bytes that one transaction can take.
abbrev pub max_chunk : ℕ
max_chunk = (10 - 1 - 1 - 2) / 2 * 1024

-- A call of `writei` from an address, at an offset and with a count, returns -1 or a count. What it
-- does to the file is not part of this state, and it may return anything each time.
abbrev pub Writei : Type 0
Writei = ℕ → ℕ → ℕ → Option ℕ

-- The offset after a write, and whether all of the `n1` bytes were written.
abbrev pub advance : ℕ → Option ℕ → ℕ
advance off' none = off'
advance off' (some r) = off' + r

abbrev pub wrote_all : ℕ → Option ℕ → Bool
wrote_all n1 none = false
wrote_all n1 (some r) = r == n1

-- A transaction, by the address, the offset and the count that it hands to `writei`.
abbrev pub Call : Type 0
Call = ℕ × (ℕ × ℕ)

-- The loop of `filewrite` at the address `addr + i`, with `left` of the `n` bytes to go: the offset at
-- its end, the bytes to go then, and the transactions it made.
unfoldable pub write_chunks : Writei → ℕ → ℕ → ℕ → ℕ → Option (ℕ × (ℕ × List Call))
write_chunks writei zero addr off' left = none
write_chunks writei (suc fuel) addr off' left =
    let n1 = if ltb max_chunk left then max_chunk else left in
    let r = writei addr off' n1 in
    let rest = write_chunks writei fuel (addr + n1) (advance off' r) (left - n1) in
    if left == 0
    then some (off', (0, []))
    else if wrote_all n1 r
    then Option.map (λ o. (o.0, (o.1.0, (addr, (off', n1)) ∷ o.1.1))) rest
    else some (advance off' r, (left, (addr, (off', n1)) ∷ []))

-- The branch of `filewrite` for an inode: the new offset, `n` or -1 as `none`, and the transactions.
abbrev pub finish_write : ℕ → Option (ℕ × (ℕ × List Call)) → Option (ℕ × (Option ℕ × List Call))
finish_write n none = none
finish_write n (some (off', (left, calls))) =
    some (off', (if left == 0 then some n else none, calls))

unfoldable pub write_inode : Writei → ℕ → ℕ → ℕ → ℕ → Option (ℕ × (Option ℕ × List Call))
unfolding write_chunks
write_inode writei fuel addr off' n = finish_write n (write_chunks writei fuel addr off' n)
