-- ===== src/Ulib.antt =====
-- user/ulib.c over the memory of Strings. A `char` is a byte, unsigned as on RISC-V, and an `int` its
-- 32-bit pattern. A loop that runs to a terminator takes fuel, and `none` is that it ran out. The
-- standard input of `gets` is the list of bytes that `read` gives; `stat` only calls the kernel.
pub mod Copy
pub mod Text
mod Tests
use cs202_lab.Prelude.{
  ℕ, zero, suc, ◌+◌, ◌-◌, ◌*◌, ◌%◌, Bool, true, false, not, List, [], ◌∷◌, ◌==◌, ◌&&◌, ◌||◌, leb,
  ltb, slt, Option, none, some, if◌then◌else◌, sub32, u32_mod,
}
use cs202_lab.Strings.{Memory, store}

-- `strcpy`: the memory it leaves.
unfoldable pub strcpy : ℕ → ℕ → ℕ → Memory → Option Memory
unfolding store
strcpy zero s t m = none
strcpy (suc fuel) s t m =
    let m' = store m s (m t) in
    let rest = strcpy fuel (suc s) (suc t) m' in if m t == 0 then some m' else rest

unfoldable pub strcmp : ℕ → ℕ → ℕ → Memory → Option ℕ
strcmp zero p q m = none
strcmp (suc fuel) p q m =
    let rest = strcmp fuel (suc p) (suc q) m in
    if not (m p == 0) && (m p == m q) then rest else some (sub32 (m p) (m q))

-- `strlen`, with `n` characters counted.
unfoldable pub count_from : ℕ → ℕ → ℕ → Memory → Option ℕ
count_from zero n s m = none
count_from (suc fuel) n s m =
    let rest = count_from fuel (suc n) s m in if m (s + n) == 0 then some n else rest

unfoldable pub strlen : ℕ → ℕ → Memory → Option ℕ
unfolding count_from
strlen fuel s m = count_from fuel 0 s m

unfoldable pub memset : ℕ → ℕ → ℕ → Memory → Memory
unfolding store
memset dst c zero m = m
memset dst c (suc n) m = memset (suc dst) c n (store m dst (c % 256))

-- `strchr`: the address, or 0.
unfoldable pub strchr : ℕ → ℕ → ℕ → Memory → Option ℕ
strchr zero s c m = none
strchr (suc fuel) s c m =
    let rest = strchr fuel (suc s) c m in
    if m s == 0 then some 0 else if m s == c then some s else rest

-- The loop of `gets` with room for `n` bytes and a terminator at `at`.
unfoldable pub gets_from : ℕ → ℕ → List ℕ → Memory → Memory × List ℕ
unfolding store
gets_from zero at input m = (store m at 0, input)
gets_from (suc n) at [] m = (store m at 0, [])
gets_from (suc n) at (c ∷ input) m =
    let m' = store m at c in
    let rest = gets_from n (suc at) input m' in
    if (c == 10) || (c == 13) then (store m' (suc at) 0, input) else rest

-- `gets` with a `max` that is not negative.
unfoldable pub gets : ℕ → ℕ → List ℕ → Memory → Memory × List ℕ
unfolding gets_from
gets buf max input m = gets_from (max - 1) buf input m

abbrev pub is_digit : ℕ → Bool
is_digit c = leb 48 c && leb c 57

-- `atoi`, with the number read so far.
unfoldable pub atoi_from : ℕ → ℕ → ℕ → Memory → Option ℕ
atoi_from zero n s m = none
atoi_from (suc fuel) n s m =
    let rest = atoi_from fuel ((n * 10 + m s - 48) % u32_mod) (suc s) m in
    if is_digit (m s) then rest else some n

unfoldable pub atoi : ℕ → ℕ → Memory → Option ℕ
unfolding atoi_from
atoi fuel s m = atoi_from fuel 0 s m

-- The loops of `memmove`: upwards, and downwards from the ends.
unfoldable pub copy_up : ℕ → ℕ → ℕ → Memory → Memory
unfolding store
copy_up dst src zero m = m
copy_up dst src (suc n) m = copy_up (suc dst) (suc src) n (store m dst (m src))

unfoldable pub copy_down : ℕ → ℕ → ℕ → Memory → Memory
unfolding store
copy_down dst src zero m = m
copy_down dst src (suc n) m = copy_down dst src n (store m (dst + n) (m (src + n)))

-- A count that is negative as an `int` copies nothing.
unfoldable pub memmove : ℕ → ℕ → ℕ → Memory → Memory
unfolding copy_up copy_down
memmove dst src n m =
    let count = if slt 0 n then n else 0 in
    if ltb dst src then copy_up dst src count m else copy_down dst src count m

unfoldable pub memcmp : ℕ → ℕ → ℕ → Memory → ℕ
memcmp s1 s2 zero m = 0
memcmp s1 s2 (suc n) m =
    let rest = memcmp (suc s1) (suc s2) n m in
    if not (m s1 == m s2) then sub32 (m s1) (m s2) else rest

unfoldable pub memcpy : ℕ → ℕ → ℕ → Memory → Memory
unfolding memmove
memcpy dst src n m = memmove dst src n m
