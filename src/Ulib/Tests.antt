-- ===== src/Ulib/Tests.antt =====
-- The theorems on user/ulib.c at a concrete memory.
use cs202_lab.Prelude.{ℕ, ◌%◌, ◌≡◌, refl, List, [], ◌∷◌, get_or, some}
use cs202_lab.Strings.{Memory}
use cs202_lab.Ulib.{atoi}

-- "ab" at 0, "ac" at 3 and "42" at 6.
abbrev page : Memory
page a = get_or (97 ∷ 98 ∷ 0 ∷ 97 ∷ 99 ∷ 0 ∷ 52 ∷ 50 ∷ 0 ∷ []) a 0 % 256

atoi_run : atoi 9 6 page ≡ some 42
unfolding atoi
atoi_run = refl

abbrev keys : List ℕ
keys = 97 ∷ 98 ∷ 99 ∷ []
