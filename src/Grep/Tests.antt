-- ===== src/Grep/Tests.antt =====
-- Runs of the matcher, and the theorem at a concrete expression.
use cs202_lab.Prelude.{ℕ, ◌≡◌, ◌↔◌, refl, true, false, List, [], ◌∷◌}
use cs202_lab.Grep.{match, match_here, match_star}
use cs202_lab.Grep.Matches.{Meaning, match_iff}

-- `^b*a$`
abbrev pattern_text : List ℕ
pattern_text = b'^' ∷ b'b' ∷ b'*' ∷ b'a' ∷ b'$' ∷ []

match_hit : match pattern_text (b'b' ∷ b'b' ∷ b'a' ∷ []) ≡ true
unfolding match match_here match_star
match_hit = refl

match_miss : match pattern_text (b'b' ∷ b'a' ∷ b'c' ∷ []) ≡ false
unfolding match match_here match_star
match_miss = refl

match_iff_example :
    (match pattern_text (b'b' ∷ b'a' ∷ []) ≡ true) ↔ Meaning pattern_text (b'b' ∷ b'a' ∷ [])
match_iff_example = match_iff pattern_text (b'b' ∷ b'a' ∷ [])
