-- ===== src/Ulib/Copy.antt =====
-- What the copying functions of user/ulib.c leave in memory.
use cs202_lab.Prelude.{
  ℕ, zero, suc, ◌+◌, ◌-◌, ◌^◌, ◌<◌, ◌≤◌, ◌≡◌, ◌⊎◌, List, [], ◌∷◌, ◌==◌, ◌&&◌, leb, ltb, slt,
  if◌then◌else◌, arith, ap, sym, ◌∙◌, Bool-cases, inl, inr, length,
}
use cs202_lab.Strings.{Memory, store}
use cs202_lab.Strings.Move.{memmove_lem}
use cs202_lab.Strings.{memmove as kernel_memmove}
use cs202_lab.Ulib.{gets_from, gets, copy_up, copy_down, memmove}

copy_down_lem :
    (d s n : ℕ) (m : Memory) (a : ℕ)
    → s ≤ d
    → copy_down d s n m a ≡ (if leb d a && ltb a (d + n) then m (s + (a - d)) else m a)
unfolding copy_down store
copy_down_lem d s zero m a h = ground arith
copy_down_lem d s (suc n) m a h = elim (Bool-cases (a == d + n)) [
  | inl at ↦
      let e : s + (a - d) ≡ s + n = ground arith in
      ground (arith, copy_down_lem d s n (store m (d + n) (m (s + n))) a h, ap m e)
  | inr off ↦ ground (arith, copy_down_lem d s n (store m (d + n) (m (s + n))) a h)
]

copy_up_lem :
    (d s n : ℕ) (m : Memory) (a : ℕ)
    → d ≤ s
    → copy_up d s n m a ≡ (if leb d a && ltb a (d + n) then m (s + (a - d)) else m a)
unfolding copy_up store
copy_up_lem d s zero m a h = ground arith
copy_up_lem d s (suc n) m a h =
    let ih = copy_up_lem (suc d) (suc s) n (store m d (m s)) a (omega arith) in
    elim (Bool-cases (a == d)) [
      | inl at ↦ let e : s + (a - d) ≡ s = ground arith in ground (arith, ih, ap m e)
      | inr off ↦ elim (Bool-cases (leb d a)) [
        | inl over ↦
            let e : suc s + (a - suc d) ≡ s + (a - d) = ground arith in ground (arith, ih, ap m e)
        | inr under ↦ ground (arith, ih)
      ]
    ]

user_memmove_lem :
    (dst src n : ℕ) (m : Memory) (a : ℕ)
    → n < 2 ^ 31
    → memmove dst src n m a ≡ (if leb dst a && ltb a (dst + n) then m (src + (a - dst)) else m a)
unfolding memmove
user_memmove_lem dst src n m a h = elim (Bool-cases (ltb dst src)) [
  | inl up ↦ rw (count, up, memmove) (copy_up_lem dst src n m a (ground arith))
  | inr down ↦ rw (count, down, memmove) (copy_down_lem dst src n m a (ground arith))
]
  where
    count : (if slt 0 n then n else 0) ≡ n
    count = ground arith

-- The `memmove` of user programs and that of the kernel leave the same memory, for every count that
-- is not negative as an `int`, although they choose their direction by different tests.
pub memmove-kernel :
    (dst src n : ℕ) (m : Memory) (a : ℕ)
    → n < 2 ^ 31
    → memmove dst src n m a ≡ kernel_memmove dst src n m a
memmove-kernel dst src n m a h = user_memmove_lem dst src n m a h ∙ sym (memmove_lem dst src n m a)

gets_from-outside :
    (n at : ℕ) (input : List ℕ) (m : Memory) (a : ℕ)
    → (a < at) ⊎ (at + n < a)
    → (gets_from n at input m).0 a ≡ m a
unfolding gets_from store
gets_from-outside zero at input m a h = ground arith
gets_from-outside (suc n) at [] m a h = ground arith
gets_from-outside (suc n) at (c ∷ input) m a h =
    let ih = gets_from-outside n (suc at) input (store m at c) a (omega arith) in ground (arith, ih)

gets_from-rest :
    (n at : ℕ) (input : List ℕ) (m : Memory) → length input ≤ length (gets_from n at input m).1 + n
unfolding gets_from
gets_from-rest zero at input m = omega arith
gets_from-rest (suc n) at [] m = omega arith
gets_from-rest (suc n) at (c ∷ input) m =
    ground (arith, gets_from-rest n (suc at) input (store m at c))

-- `gets` with a positive `max` changes no byte but the `max` at `buf`, and takes fewer than `max`
-- bytes of its input.
pub gets_bounds :
    (buf max : ℕ) (input : List ℕ) (m : Memory) (a : ℕ)
    → 0 < max
    → (a < buf) ⊎ (buf + max ≤ a)
    → ((gets buf max input m).0 a ≡ m a) × (length input < length (gets buf max input m).1 + max)
unfolding gets
gets_bounds buf max input m a h out = (
  gets_from-outside (max - 1) buf input m a (omega arith),
  omega (arith, gets_from-rest (max - 1) buf input m),
)
