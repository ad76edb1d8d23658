-- ===== src/Pipe.antt =====
-- Pipes of kernel/pipe.c: a ring of PIPESIZE bytes with two 32-bit counters. The user's memory is a
-- function: `copyin` of the byte at offset `i` gives it or fails, `copyout` at `i` succeeds or not.
-- A call of `pipewrite` or `piperead` runs until it returns or sleeps; `killed` is `pr->killed`.
pub mod Ring
pub mod Stream
mod Tests
use cs202_lab.Prelude.{
  ℕ, zero, suc, ◌+◌, ◌%◌, Bool, true, false, not, List, [], ◌∷◌, ◌++◌, ◌==◌, ◌&&◌, ◌||◌, Option,
  none, some, if◌then◌else◌, get_or, set, add32,
}

abbrev pub pipe_size : ℕ
pipe_size = 512

-- `struct pipe`; the lock is held across each call.
pub record Pipe : Type 0 where
  pub bytes : List ℕ
  pub nread : ℕ
  pub nwrite : ℕ
  pub readopen : Bool
  pub writeopen : Bool

-- The pipe that `pipealloc` sets up in the page `page`.
unfoldable pub fresh_pipe : List ℕ → Pipe
fresh_pipe page = record { bytes = page; nread = 0; nwrite = 0; readopen = true; writeopen = true }

-- `pipeclose`, and whether it gives the page back.
unfoldable pub pipeclose : Bool → Pipe → Pipe × Bool
pipeclose writable p =
    if writable
    then (record p { writeopen = false }, not p.readopen)
    else (record p { readopen = false }, not p.writeopen)

-- `pi->data[pi->nwrite++ % PIPESIZE] = ch`
unfoldable pub put : ℕ → Pipe → Pipe
put ch p = record p { bytes = set p.bytes (p.nwrite % pipe_size) ch; nwrite = add32 p.nwrite 1 }

-- `ch = pi->data[pi->nread++ % PIPESIZE]`
unfoldable pub take_byte : Pipe → ℕ × Pipe
take_byte p = (get_or p.bytes (p.nread % pipe_size) 0, record p { nread = add32 p.nread 1 })

abbrev pub is_full : Pipe → Bool
is_full p = p.nwrite == add32 p.nread pipe_size

abbrev pub is_empty : Pipe → Bool
is_empty p = p.nread == p.nwrite

-- How a stretch of `pipewrite` ends, after `i` bytes in all.
pub data WriteEnd : Type 0 where
  -- the reader is gone or the caller is killed: -1
  broken : ℕ → Pipe → WriteEnd
  -- asleep on a full pipe
  sleeps : ℕ → Pipe → WriteEnd
  -- returns `i`
  returns : ℕ → Pipe → WriteEnd

-- The loop of `pipewrite` with `rest` bytes to go.
unfoldable pub write_from : Bool → (ℕ → Option ℕ) → ℕ → ℕ → Pipe → WriteEnd
unfolding put
write_from killed copyin zero i p = WriteEnd.returns i p
write_from killed copyin (suc rest) i p =
    if not p.readopen || killed
    then WriteEnd.broken i p
    else if is_full p
    then WriteEnd.sleeps i p
    else elim (copyin i) [
      | none ↦ WriteEnd.returns i p
      | some ch ↦ write_from killed copyin rest (suc i) (put ch p)
    ]

unfoldable pub pipewrite : Bool → (ℕ → Option ℕ) → ℕ → Pipe → WriteEnd
unfolding write_from
pipewrite killed copyin n p = write_from killed copyin n 0 p

-- How a stretch of `piperead` ends.
pub data ReadEnd : Type 0 where
  -- killed while waiting: -1
  killed : ReadEnd
  -- asleep on an empty pipe
  waits : ReadEnd
  -- returns the count of bytes delivered, which are listed
  got : ℕ → List ℕ → Pipe → ReadEnd

-- The copy loop: bytes copied out so far are `out`. A byte whose `copyout` fails is taken all the
-- same.
unfoldable pub read_from : (ℕ → Bool) → ℕ → ℕ → List ℕ → Pipe → ReadEnd
unfolding take_byte
read_from copyout zero i out p = ReadEnd.got i out p
read_from copyout (suc rest) i out p =
    if is_empty p
    then ReadEnd.got i out p
    else (let (ch, p') = take_byte p in
        let more = read_from copyout rest (suc i) (out ++ (ch ∷ [])) p' in
        if copyout i then more else ReadEnd.got i out p')

unfoldable pub piperead : Bool → (ℕ → Bool) → ℕ → Pipe → ReadEnd
unfolding read_from
piperead is_killed copyout n p =
    if is_empty p && p.writeopen
    then if is_killed then ReadEnd.killed else ReadEnd.waits
    else read_from copyout n 0 [] p
