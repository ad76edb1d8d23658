-- ===== src/Ulib/Text.antt =====
-- What the string functions of user/ulib.c return on terminated strings.
use cs202_lab.Prelude.{
  ℕ, zero, suc, ◌<◌, ◌≡◌, ◌≢◌, ◌==◌, arith, ap, ◌∙◌, Bool-cases, inl, inr, sub32, some,
  if◌then◌else◌,
}
use cs202_lab.Strings.{Memory}
use cs202_lab.Strings.Compare.{EndsAt, IsBytes, same_string}
use cs202_lab.Ulib.{strcmp, strchr}

EndsAt-suc : (s n : ℕ) (m : Memory) → EndsAt s (suc n) m → EndsAt (suc s) n m
EndsAt-suc s n m e =
    (ap m (omega arith) ∙ e.0, λ j lt z. e.1 (suc j) (omega arith) (ap m (omega arith) ∙ z))

EndsAt-first : (s n : ℕ) (m : Memory) → EndsAt s (suc n) m → m s ≢ 0
EndsAt-first s n m e z = e.1 0 (omega arith) (ap m (omega arith) ∙ z)

sub32-zero : (x y : ℕ) → x < 256 → y < 256 → (sub32 x y == 0) ≡ (x == y)
sub32-zero x y h k = ground arith

-- `strcmp` returns, given more fuel than the length of the first string, and returns 0 exactly when
-- the two strings are equal.
pub strcmp_lem :
    (fuel p q n : ℕ) (m : Memory)
    → IsBytes m
    → EndsAt p n m
    → n < fuel
    → (r : ℕ) × (strcmp fuel p q m ≡ some r) × ((r == 0) ≡ same_string p q (suc n) m)
unfolding strcmp
strcmp_lem zero p q n m b e lt = absurd (omega arith)
strcmp_lem (suc fuel) p q zero m b e lt =
    let z : m p ≡ 0 = ap m (omega arith) ∙ e.0 in
    (sub32 (m p) (m q), ground arith, ground (arith, sub32-zero (m p) (m q) (b p) (b q)))
strcmp_lem (suc fuel) p q (suc n) m b e lt =
    let nz = EndsAt-first p n m e in
    elim (Bool-cases (m p == m q)) [
      | inl same ↦
          let (r, run, eq) =
            strcmp_lem fuel (suc p) (suc q) n m b (EndsAt-suc p n m e) (omega arith) in
          (r, ground arith, ground arith)
      | inr other ↦
          (sub32 (m p) (m q), ground arith, ground (arith, sub32-zero (m p) (m q) (b p) (b q)))
    ]

-- What `strchr` looks for: the first `c` among `n` characters, or 0.
abbrev pub first_at : ℕ → ℕ → ℕ → Memory → ℕ
first_at s c zero m = 0
first_at s c (suc n) m = if m s == c then s else first_at (suc s) c n m

-- `strchr` returns the address of the first `c` in a terminated string, or the null pointer if there
-- is none, given more fuel than the string is long.
pub strchr_lem :
    (fuel s c n : ℕ) (m : Memory)
    → EndsAt s n m
    → n < fuel
    → strchr fuel s c m ≡ some (first_at s c n m)
unfolding strchr
strchr_lem zero s c n m e lt = absurd (omega arith)
strchr_lem (suc fuel) s c zero m e lt = let z : m s ≡ 0 = ap m (omega arith) ∙ e.0 in ground arith
strchr_lem (suc fuel) s c (suc n) m e lt =
    let nz = EndsAt-first s n m e in
    let ih = strchr_lem fuel (suc s) c n m (EndsAt-suc s n m e) (omega arith) in ground arith
