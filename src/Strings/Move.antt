-- ===== src/Strings/Move.antt =====
-- `memset` and `memmove`, byte by byte, for ranges that overlap too.
use cs202_lab.Prelude.{
  ℕ, zero, suc, ◌+◌, ◌-◌, ◌%◌, ◌<◌, ◌≤◌, ◌≡◌, false, ◌==◌, ◌&&◌, leb, ltb, if◌then◌else◌, arith, ap,
  ◌∙◌, Bool-cases, inl, inr, ◌⊎◌,
}
use cs202_lab.Strings.{Memory, store, memset, move_down, move_up, memmove}

-- `memset` sets the `n` bytes from `dst` on to the low byte of `c`, and no other byte.
pub memset_lem :
    (dst c n : ℕ) (m : Memory) (a : ℕ)
    → memset dst c n m a ≡ (if leb dst a && ltb a (dst + n) then c % 256 else m a)
unfolding memset
memset_lem dst c zero m a = ground arith
memset_lem dst c (suc n) m a =
    memset_lem (suc dst) c n (store m dst (c % 256)) a ∙ unfold store in ground arith

move_down_lem :
    (d s n : ℕ) (m : Memory) (a : ℕ)
    → s < d
    → move_down d s n m a ≡ (if leb d a && ltb a (d + n) then m (s + (a - d)) else m a)
unfolding move_down store
move_down_lem d s zero m a h = ground arith
move_down_lem d s (suc n) m a h = elim (Bool-cases (a == d + n)) [
  | inl at ↦
      let e : s + (a - d) ≡ s + n = ground arith in
      ground (arith, move_down_lem d s n (store m (d + n) (m (s + n))) a h, ap m e)
  | inr off ↦ ground (arith, move_down_lem d s n (store m (d + n) (m (s + n))) a h)
]

move_up_lem :
    (d s n : ℕ) (m : Memory) (a : ℕ)
    → (d ≤ s) ⊎ (s + n ≤ d)
    → move_up d s n m a ≡ (if leb d a && ltb a (d + n) then m (s + (a - d)) else m a)
unfolding move_up store
move_up_lem d s zero m a h = ground arith
move_up_lem d s (suc n) m a h =
    let ih = move_up_lem (suc d) (suc s) n (store m d (m s)) a (omega arith) in
    elim (Bool-cases (a == d)) [
      | inl at ↦ let e : s + (a - d) ≡ s = ground arith in ground (arith, ih, ap m e)
      | inr off ↦ elim (Bool-cases (leb d a)) [
        | inl over ↦
            let e : suc s + (a - suc d) ≡ s + (a - d) = ground arith in ground (arith, ih, ap m e)
        | inr under ↦ ground (arith, ih)
      ]
    ]

-- `memmove` puts at `dst` the `n` bytes that were at `src` before the call, whether or not the two
-- ranges overlap, and changes no other byte.
pub memmove_lem :
    (dst src n : ℕ) (m : Memory) (a : ℕ)
    → memmove dst src n m a ≡ (if leb dst a && ltb a (dst + n) then m (src + (a - dst)) else m a)
unfolding memmove
memmove_lem dst src n m a = elim (Bool-cases (n == 0)) [
  | inl z ↦ rw (z, memmove) (ground arith)
  | inr p ↦ elim (Bool-cases (ltb src dst && ltb dst (src + n))) [
    | inl o ↦ rw (p, o, memmove) (move_down_lem dst src n m a (ground arith))
    | inr o ↦ rw (p, o, memmove) (move_up_lem dst src n m a (apart o))
  ]
]
  where
    apart : (ltb src dst && ltb dst (src + n)) ≡ false → (dst ≤ src) ⊎ (src + n ≤ dst)
    apart o = ground arith
