-- ===== src/Strings/Copy.antt =====
-- `safestrcpy` and `strncpy`: what they write, and where.
use cs202_lab.Prelude.{
  ℕ, zero, suc, ◌+◌, ◌-◌, ◌<◌, ◌≤◌, ◌≡◌, ◌≢◌, refl, false, ◌==◌, ◌&&◌, ◌||◌, leb, ltb,
  if◌then◌else◌, arith, ap, ◌∙◌, Bool-cases, inl, inr, ◌⊎◌,
}
use cs202_lab.Strings.{Memory, store, zero_fill, strncpy, safe_loop, safestrcpy}

-- The string at `t` ends within `n` bytes, at `stop t n`, or is cut there.
abbrev pub stop : ℕ → ℕ → Memory → ℕ
stop t zero m = 0
stop t (suc n) m = if m t == 0 then 0 else suc (stop (suc t) n m)

stop-congr :
    (t n : ℕ) (m : Memory) (s x : ℕ) → (s < t) ⊎ (t + n ≤ s) → stop t n (store m s x) ≡ stop t n m
unfolding store
stop-congr t zero m s x h = refl
stop-congr t (suc n) m s x h = ground (arith, stop-congr (suc t) n m s x (omega arith))

stop-le : (t n : ℕ) (m : Memory) → stop t n m ≤ n
stop-le t zero m = omega arith
stop-le t (suc n) m = ground (arith, stop-le (suc t) n m)

-- The bytes that `safestrcpy` leaves: the copied characters, a terminator, and behind the end of a
-- string that was not cut a second one.
abbrev pub safe_copy : ℕ → ℕ → ℕ → Memory → Memory
safe_copy s t n m a =
    let k = stop t n m in
    if leb s a && ltb a (s + k)
    then m (t + (a - s))
    else if (a == s + k) || ((a == s + k + 1) && ltb k n)
    then 0
    else m a

-- The copied range, moved on by one byte.
copied-step :
    (s t k : ℕ) (m : Memory) (a y : ℕ)
    → (s < t) ⊎ (t + suc k ≤ s)
    → a ≢ s
    → (if leb (suc s) a && ltb a (suc s + k) then store m s (m t) (suc t + (a - suc s)) else y)
      ≡ (if leb s a && ltb a (s + suc k) then m (t + (a - s)) else y)
unfolding store
copied-step s t k m a y h ne = elim (Bool-cases (leb s a)) [
  | inl over ↦ let e : suc t + (a - suc s) ≡ t + (a - s) = ground arith in ground (arith, ap m e)
  | inr under ↦ ground arith
]

safe_copy-step :
    (s t n : ℕ) (m : Memory) (a : ℕ)
    → (s + suc n < t) ⊎ (t + suc n ≤ s)
    → (m t == 0) ≡ false
    → safe_copy (suc s) (suc t) n (store m s (m t)) a ≡ safe_copy s t (suc n) m a
safe_copy-step s t n m a h nz =
    rw (stop-congr (suc t) n m s (m t) (omega arith), nz)
      (elim (Bool-cases (a == s)) [
        | inl at ↦
            let e : t + (a - s) ≡ t = ground arith in
            unfold store in ground (arith, ap m e, stop-le (suc t) n m)
        | inr off ↦
            let k = stop (suc t) n m in
            let step =
              copied-step s t k m a
                (if (a == s + suc k) || ((a == s + suc k + 1) && ltb (suc k) (suc n))
                  then 0
                  else m a)
                (omega (arith, stop-le (suc t) n m)) (λ (q : a ≡ s). ground arith) in
            unfold store in ground (arith, step)
      ])

safe_loop-more :
    (s t n : ℕ) (m : Memory)
    → (m t == 0) ≡ false
    → safe_loop s t (suc n) m ≡ safe_loop (suc s) (suc t) n (store m s (m t))
unfolding safe_loop
safe_loop-more s t n m nz = rw (nz, safe_loop) refl

safe_loop_lem :
    (s t n : ℕ) (m : Memory) (a : ℕ)
    → (s + n < t) ⊎ (t + n ≤ s)
    → safe_loop s t n m a ≡ safe_copy s t n m a
unfolding safe_loop
safe_loop_lem s t zero m a h = unfold store in ground arith
safe_loop_lem s t (suc n) m a h = elim (Bool-cases (m t == 0)) [
  | inl z ↦ rw (z, safe_loop) (unfold store in ground arith)
  | inr nz ↦
      ap (λ (u : Memory). u a) (safe_loop-more s t n m nz)
      ∙ safe_loop_lem (suc s) (suc t) n (store m s (m t)) a (omega arith)
      ∙ safe_copy-step s t n m a h nz
]

-- `safestrcpy` with a positive count always terminates its copy within the `n + 1` bytes at `s`: for
-- a source that does not overlap them, the characters of the string up to its end or to `n` of them
-- stand at `s`, a zero stands behind them, a second one if the string was not cut, and no other byte
-- changes.
pub safestrcpy_lem :
    (s t n : ℕ) (m : Memory) (a : ℕ)
    → (s + n < t) ⊎ (t + n ≤ s)
    → (stop t n m ≤ n)
      × (safestrcpy s t (suc n) m (s + stop t n m) ≡ 0)
      × (safestrcpy s t (suc n) m a ≡ safe_copy s t n m a)
unfolding safestrcpy
safestrcpy_lem s t n m a h = (
  stop-le t n m,
  ground (arith, safe_loop_lem s t n m (s + stop t n m) h),
  safe_loop_lem s t n m a h,
)

zero_fill_lem :
    (s n : ℕ) (m : Memory) (a : ℕ)
    → zero_fill s n m a ≡ (if leb s a && ltb a (s + n) then 0 else m a)
unfolding zero_fill
zero_fill_lem s zero m a = ground arith
zero_fill_lem s (suc n) m a = zero_fill_lem (suc s) n (store m s 0) a ∙ unfold store in ground arith

-- The bytes that `strncpy` leaves.
abbrev pub padded_copy : ℕ → ℕ → ℕ → Memory → Memory
padded_copy s t n m a =
    if leb s a && ltb a (s + stop t n m)
    then m (t + (a - s))
    else if leb s a && ltb a (s + n)
    then 0
    else m a

padded_copy-step :
    (s t n : ℕ) (m : Memory) (a : ℕ)
    → (s + n < t) ⊎ (t + suc n ≤ s)
    → (m t == 0) ≡ false
    → padded_copy (suc s) (suc t) n (store m s (m t)) a ≡ padded_copy s t (suc n) m a
padded_copy-step s t n m a h nz =
    rw (stop-congr (suc t) n m s (m t) (omega arith), nz)
      (elim (Bool-cases (a == s)) [
        | inl at ↦
            let e : t + (a - s) ≡ t = ground arith in
            unfold store in ground (arith, ap m e, stop-le (suc t) n m)
        | inr off ↦
            let k = stop (suc t) n m in
            let step =
              copied-step s t k m a (if leb s a && ltb a (s + suc n) then 0 else m a)
                (omega (arith, stop-le (suc t) n m)) (λ (q : a ≡ s). ground arith) in
            unfold store in ground (arith, step)
      ])

strncpy-more :
    (s t n : ℕ) (m : Memory)
    → (m t == 0) ≡ false
    → strncpy s t (suc n) m ≡ strncpy (suc s) (suc t) n (store m s (m t))
unfolding strncpy
strncpy-more s t n m nz = rw (nz, strncpy) refl

-- `strncpy` copies the string at `t`, cut after `n` characters, to `s`, fills the rest of the `n`
-- bytes with zeros, and changes no other byte, for a source that does not overlap the target.
pub strncpy_lem :
    (s t n : ℕ) (m : Memory) (a : ℕ)
    → (s + n ≤ t) ⊎ (t + n ≤ s)
    → strncpy s t n m a ≡ padded_copy s t n m a
unfolding strncpy
strncpy_lem s t zero m a h = ground arith
strncpy_lem s t (suc n) m a h = elim (Bool-cases (m t == 0)) [
  | inl z ↦
      rw (z, strncpy) (zero_fill_lem (suc s) n (store m s (m t)) a ∙ unfold store in ground arith)
  | inr nz ↦
      ap (λ (u : Memory). u a) (strncpy-more s t n m nz)
      ∙ strncpy_lem (suc s) (suc t) n (store m s (m t)) a (omega arith)
      ∙ padded_copy-step s t n m a (omega arith) nz
]
