-- ===== src/Grep.antt =====
-- The regular expressions of user/grep.c. A string is the list of its characters before the NUL, so
-- that the end of the list stands for the test against '\0'.
pub mod Matches
mod Tests
use cs202_lab.Prelude.{ℕ, Bool, true, false, not, List, [], ◌∷◌, ◌==◌, ◌&&◌, ◌||◌, if◌then◌else◌}

-- `c=='.' || c==*text`
abbrev pub fits : ℕ → ℕ → Bool
fits c x = (c == b'.') || (c == x)

abbrev pub is_nil : List ℕ → Bool
is_nil [] = true
is_nil (x ∷ xs) = false

-- `re[1] == '*'`, for `re + 1`.
abbrev pub starred : List ℕ → Bool
starred [] = false
starred (d ∷ re) = d == b'*'

-- The loop of `matchstar` for `c`, with `k` for `matchhere(re, ·)`.
unfoldable pub match_star : ℕ → (List ℕ → Bool) → List ℕ → Bool
match_star c k [] = k []
match_star c k (x ∷ text) = k (x ∷ text) || (fits c x && match_star c k text)

-- The last test of `matchhere`: one character, then `k` for `matchhere(re+1, ·)`.
abbrev pub match_one : ℕ → (List ℕ → Bool) → List ℕ → Bool
match_one c k [] = false
match_one c k (x ∷ text) = fits c x && k text

mutual
  pub match_here : List ℕ → List ℕ → Bool
  match_here [] text = true
  match_here (c ∷ rest) text =
      if starred rest
      then match_star c (match_after rest) text
      else if (c == b'$') && is_nil rest
      then is_nil text
      else match_one c (match_here rest) text

  -- `matchhere(re+2, ·)`, from `re + 1`.
  pub match_after : List ℕ → List ℕ → Bool
  match_after [] text = true
  match_after (d ∷ re) text = match_here re text

-- The loop of `match` over the suffixes of the text, the empty one included.
unfoldable pub match_any : List ℕ → List ℕ → Bool
match_any re [] = match_here re []
match_any re (x ∷ text) = match_here re (x ∷ text) || match_any re text

unfoldable pub match : List ℕ → List ℕ → Bool
unfolding match_any
match [] text = match_any [] text
match (c ∷ re) text = if c == b'^' then match_here re text else match_any (c ∷ re) text
