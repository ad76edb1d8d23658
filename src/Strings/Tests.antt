-- ===== src/Strings/Tests.antt =====
-- Runs of the functions of kernel/string.c, and the theorems at a concrete memory.
use cs202_lab.Prelude.{◌+◌, ◌-◌, ◌≡◌, ◌&&◌, leb, ltb, [], ◌∷◌, get_or, if◌then◌else◌}
use cs202_lab.Strings.{Memory, memmove}
use cs202_lab.Strings.Move.{memmove_lem}

-- "abc" at 0 and "abd" at 4, each with a terminator, and zeros elsewhere.
abbrev words : Memory
words a = get_or (97 ∷ 98 ∷ 99 ∷ 0 ∷ 97 ∷ 98 ∷ 100 ∷ []) a 0

-- An overlapping move.
memmove_lem_example :
    memmove 1 0 3 words 3 ≡ (if leb 1 3 && ltb 3 (1 + 3) then words (0 + (3 - 1)) else words 3)
memmove_lem_example = memmove_lem 1 0 3 words 3
