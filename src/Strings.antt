-- ===== src/Strings.antt =====
-- kernel/string.c over a memory of bytes. An address range that a call uses lies below 2^64, so
-- address arithmetic does not wrap. A comparison returns an `int`, as its 32-bit pattern.
pub mod Move
pub mod Copy
pub mod Compare
mod Tests
use cs202_lab.Prelude.{
  ℕ, zero, suc, ◌+◌, ◌%◌, Bool, true, false, not, ◌==◌, ◌&&◌, ltb, Option, none, some,
  if◌then◌else◌, sub32,
}

abbrev pub Memory : Type 0
Memory = ℕ → ℕ

unfoldable pub store : Memory → ℕ → ℕ → Memory
store m a x b = if b == a then x else m b

-- `memset`: the loop with `n` bytes to go at `dst`.
unfoldable pub memset : ℕ → ℕ → ℕ → Memory → Memory
unfolding store
memset dst c zero m = m
memset dst c (suc n) m = memset (suc dst) c n (store m dst (c % 256))

-- `memcmp`.
unfoldable pub memcmp : ℕ → ℕ → ℕ → Memory → ℕ
memcmp s1 s2 zero m = 0
memcmp s1 s2 (suc n) m =
    if not (m s1 == m s2) then sub32 (m s1) (m s2) else memcmp (suc s1) (suc s2) n m

-- The loops of `memmove`: from the end downwards, and from the start upwards.
unfoldable pub move_down : ℕ → ℕ → ℕ → Memory → Memory
unfolding store
move_down d s zero m = m
move_down d s (suc n) m = move_down d s n (store m (d + n) (m (s + n)))

unfoldable pub move_up : ℕ → ℕ → ℕ → Memory → Memory
unfolding store
move_up d s zero m = m
move_up d s (suc n) m = move_up (suc d) (suc s) n (store m d (m s))

unfoldable pub memmove : ℕ → ℕ → ℕ → Memory → Memory
unfolding move_down move_up
memmove dst src n m =
    if n == 0
    then m
    else if ltb src dst && ltb dst (src + n)
    then move_down dst src n m
    else move_up dst src n m

unfoldable pub memcpy : ℕ → ℕ → ℕ → Memory → Memory
unfolding memmove
memcpy dst src n m = memmove dst src n m

-- `strncmp`.
unfoldable pub strncmp : ℕ → ℕ → ℕ → Memory → ℕ
strncmp p q zero m = 0
strncmp p q (suc n) m =
    if not (m p == 0) && (m p == m q) then strncmp (suc p) (suc q) n m else sub32 (m p) (m q)

-- `strncpy`: the copy loop, and the loop that fills up with zeros. `n` is 0 for a negative count.
unfoldable pub zero_fill : ℕ → ℕ → Memory → Memory
unfolding store
zero_fill s zero m = m
zero_fill s (suc n) m = zero_fill (suc s) n (store m s 0)

unfoldable pub strncpy : ℕ → ℕ → ℕ → Memory → Memory
unfolding store zero_fill
strncpy s t zero m = m
strncpy s t (suc n) m =
    let more = strncpy (suc s) (suc t) n (store m s (m t)) in
    if m t == 0 then zero_fill (suc s) n (store m s (m t)) else more

-- `safestrcpy`: the loop behind `--n`, and the terminator. `n` is 0 for a count that is not positive.
unfoldable pub safe_loop : ℕ → ℕ → ℕ → Memory → Memory
unfolding store
safe_loop s t zero m = store m s 0
safe_loop s t (suc n) m =
    let more = safe_loop (suc s) (suc t) n (store m s (m t)) in
    if m t == 0 then store (store m s (m t)) (suc s) 0 else more

unfoldable pub safestrcpy : ℕ → ℕ → ℕ → Memory → Memory
unfolding safe_loop
safestrcpy s t zero m = m
safestrcpy s t (suc n) m = safe_loop s t n m

-- `strlen`, on fuel.
unfoldable pub strlen_from : ℕ → ℕ → ℕ → Memory → Option ℕ
strlen_from zero s n m = none
strlen_from (suc fuel) s n m =
    let more = strlen_from fuel s (suc n) m in if m (s + n) == 0 then some n else more

unfoldable pub strlen : ℕ → ℕ → Memory → Option ℕ
unfolding strlen_from
strlen fuel s m = strlen_from fuel s 0 m
