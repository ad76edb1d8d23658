-- ===== src/Strings/Compare.antt =====
-- What the results of `memcmp` and `strncmp` say of the bytes.
use cs202_lab.Prelude.{
  ℕ, zero, suc, ◌+◌, ◌<◌, ◌≤◌, ◌≡◌, ◌≢◌, refl, Bool, true, ◌==◌, ◌&&◌, ◌||◌, arith, ap, Bool-cases,
  inl, inr, sub32, some,
}
use cs202_lab.Strings.{Memory, memcmp, strncmp, strlen_from, strlen}

-- The `n` bytes from `p` on are those from `q` on.
abbrev pub same_bytes : ℕ → ℕ → ℕ → Memory → Bool
same_bytes p q zero m = true
same_bytes p q (suc n) m = (m p == m q) && same_bytes (suc p) (suc q) n m

-- The strings at `p` and `q`, cut after `n` bytes, are equal.
abbrev pub same_string : ℕ → ℕ → ℕ → Memory → Bool
same_string p q zero m = true
same_string p q (suc n) m = (m p == m q) && ((m p == 0) || same_string (suc p) (suc q) n m)

abbrev pub IsBytes : Memory → Type 0
IsBytes m = (a : ℕ) → m a < 256

sub32-zero : (x y : ℕ) → x < 256 → y < 256 → (sub32 x y == 0) ≡ (x == y)
sub32-zero x y h k = ground arith

-- `memcmp` returns 0 exactly when the two ranges hold the same bytes.
pub memcmp-zero : (p q n : ℕ) (m : Memory) → IsBytes m → (memcmp p q n m == 0) ≡ same_bytes p q n m
unfolding memcmp
memcmp-zero p q zero m h = refl
memcmp-zero p q (suc n) m h =
    ground (arith, sub32-zero (m p) (m q) (h p) (h q), memcmp-zero (suc p) (suc q) n m h)

-- `strncmp` returns 0 exactly when the two strings, cut after `n` bytes, are equal.
pub strncmp-zero :
    (p q n : ℕ) (m : Memory) → IsBytes m → (strncmp p q n m == 0) ≡ same_string p q n m
unfolding strncmp
strncmp-zero p q zero m h = refl
strncmp-zero p q (suc n) m h =
    ground (arith, sub32-zero (m p) (m q) (h p) (h q), strncmp-zero (suc p) (suc q) n m h)

-- The string at `s` ends `n` bytes on.
abbrev pub EndsAt : ℕ → ℕ → Memory → Type 0
EndsAt s n m = (m (s + n) ≡ 0) × ((j : ℕ) → j < n → m (s + j) ≢ 0)

strlen_from-EndsAt :
    (fuel s i n : ℕ) (m : Memory)
    → EndsAt s n m
    → i ≤ n
    → n < i + fuel
    → strlen_from fuel s i m ≡ some n
unfolding strlen_from
strlen_from-EndsAt zero s i n m e le lt = absurd (omega arith)
strlen_from-EndsAt (suc fuel) s i n m e le lt = elim (Bool-cases (i == n)) [
  | inl at ↦
      let same : i ≡ n = ground arith in let z = ap (λ k. m (s + k)) same in ground (arith, e.0)
  | inr off ↦ ground (arith, e.1 i, strlen_from-EndsAt fuel s (suc i) n m e)
]

-- `strlen` returns the length of a terminated string, given more fuel than that.
pub strlen_lem : (fuel s n : ℕ) (m : Memory) → EndsAt s n m → n < fuel → strlen fuel s m ≡ some n
unfolding strlen
strlen_lem fuel s n m e lt = strlen_from-EndsAt fuel s 0 n m e (omega arith) (omega arith)
