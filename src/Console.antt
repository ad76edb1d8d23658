-- ===== src/Console.antt =====
-- The console of kernel/console.c: the edited input ring with its three 32-bit indices. The characters
-- that go to the UART are listed. A call of `consoleread` runs until it returns or sleeps; `copyin`
-- and `copyout` are those of Pipe.
pub mod Line
mod Tests
use cs202_lab.Prelude.{
  ℕ, zero, suc, ◌+◌, ◌-◌, ◌%◌, Bool, true, false, not, List, [], ◌∷◌, ◌++◌, ◌==◌, ◌&&◌, ◌||◌, ltb,
  leb, Option, none, some, if◌then◌else◌, get_or, set, add32, sub32, length,
}

abbrev pub input_buf : ℕ
input_buf = 128

-- `cons`
pub record Cons : Type 0 where
  pub buf : List ℕ
  pub r : ℕ
  pub w : ℕ
  pub e : ℕ

-- `consputc`: what it sends, for a character or `BACKSPACE`.
abbrev pub consputc : ℕ → List ℕ
consputc c = if c == 0x100 then 8 ∷ 32 ∷ 8 ∷ [] else c ∷ []

-- `consolewrite`: the count it returns and what it hands to `uartputc`.
unfoldable pub consolewrite : (ℕ → Option ℕ) → ℕ → ℕ → ℕ × List ℕ
consolewrite copyin zero i = (i, [])
consolewrite copyin (suc rest) i = elim (copyin i) [
  | none ↦ (i, [])
  | some c ↦ let (n, sent) = consolewrite copyin rest (suc i) in (n, c ∷ sent)
]

-- How a stretch of `consoleread` ends.
pub data LineEnd : Type 0 where
  -- killed while waiting: -1
  killed : LineEnd
  -- asleep with no line, `n` bytes still to go
  waits : ℕ → List ℕ → Cons → LineEnd
  -- returns the count of the bytes delivered, which are listed
  got : ℕ → List ℕ → Cons → LineEnd

-- The loop of `consoleread` with `n` bytes of `target` to go and `out` delivered.
unfoldable pub read_line : Bool → (ℕ → Bool) → ℕ → ℕ → List ℕ → Cons → LineEnd
read_line is_killed copyout target zero out k = LineEnd.got target out k
read_line is_killed copyout target (suc n) out k =
    let c = get_or k.buf (k.r % input_buf) 0 in
    let k' = record k { r = add32 k.r 1 } in
    let out' = out ++ (c ∷ []) in
    let more = read_line is_killed copyout target n out' k' in
    if k.r == k.w
    then if is_killed then LineEnd.killed else LineEnd.waits (suc n) out k
    else if c == 4
    then if ltb (suc n) target
      then LineEnd.got (target - suc n) out (record k' { r = sub32 k'.r 1 })
      else LineEnd.got (target - suc n) out k'
    else if not (copyout (length out))
    then LineEnd.got (target - suc n) out k'
    else if c == 10
    then LineEnd.got (target - n) out' k'
    else more

unfoldable pub consoleread : Bool → (ℕ → Bool) → ℕ → Cons → LineEnd
unfolding read_line
consoleread is_killed copyout n k = read_line is_killed copyout n n [] k

-- What an interrupt does: the new state, what is echoed, whether `consoleread` is woken, and whether
-- the process list is printed.
pub record Effect : Type 0 where
  pub cons : Cons
  pub sent : List ℕ
  pub woken : Bool
  pub dump : Bool

-- The loop of kill line, for at most `n` characters.
unfoldable pub kill_line : ℕ → Cons → Cons × List ℕ
kill_line zero k = (k, [])
kill_line (suc n) k =
    let (k', sent) = kill_line n (record k { e = sub32 k.e 1 }) in
    if not (k.e == k.w) && not (get_or k.buf (sub32 k.e 1 % input_buf) 0 == 10)
    then (k', consputc 0x100 ++ sent)
    else (k, [])

abbrev pub backspace : Cons → Effect
backspace k =
    if not (k.e == k.w)
    then record {
      cons = record k { e = sub32 k.e 1 };
      sent = consputc 0x100;
      woken = false;
      dump = false;
    }
    else record { cons = k; sent = []; woken = false; dump = false }

-- The character that is stored, at the edit index.
abbrev pub insert : ℕ → Cons → Cons
insert c k = record k { buf = set k.buf (k.e % input_buf) c; e = add32 k.e 1 }

abbrev pub ends_line : ℕ → Cons → Bool
ends_line c k = (c == 10) || ((c == 4) || (k.e == add32 k.r input_buf))

-- The default case, for a character that is stored as `c`.
abbrev pub accept : ℕ → Cons → Effect
accept c k =
    let k' = insert c k in
    if ends_line c k'
    then record { cons = record k' { w = k'.e }; sent = consputc c; woken = true; dump = false }
    else record { cons = k'; sent = consputc c; woken = false; dump = false }

-- `consoleintr`. The kill loop stops within `e - w` characters.
unfoldable pub consoleintr : ℕ → Cons → Effect
unfolding kill_line
consoleintr c k =
    if c == 16
    then record { cons = k; sent = []; woken = false; dump = true }
    else if c == 21
    then (let (k', sent') = kill_line (sub32 k.e k.w) k in
        record { cons = k'; sent = sent'; woken = false; dump = false })
    else if (c == 8) || (c == 127)
    then backspace k
    else if not (c == 0) && ltb (sub32 k.e k.r) input_buf
    then accept (if c == 13 then 10 else c) k
    else record { cons = k; sent = []; woken = false; dump = false }
