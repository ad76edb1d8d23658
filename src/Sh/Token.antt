-- ===== src/Sh/Token.antt =====
-- `gettoken` and `peek`.
use cs202_lab.Prelude.{ℕ, Bool, false, not, [], ◌∷◌, ◌==◌, ◌&&◌, if◌then◌else◌}
use cs202_lab.Sh.{Text, one_of, whitespace, symbols}

unfoldable pub skip_white : Text → Text
skip_white [] = []
skip_white (c ∷ ts) = let rest = skip_white ts in if one_of whitespace c then rest else c ∷ ts

abbrev pub is_plain : ℕ → Bool
is_plain c = not (one_of whitespace c) && not (one_of symbols c)

-- The loop of the default case: the bytes it passes, and the text behind them.
unfoldable pub word : Text → Text
word [] = []
word (c ∷ ts) = let rest = word ts in if is_plain c then c ∷ rest else []

unfoldable pub after_word : Text → Text
after_word [] = []
after_word (c ∷ ts) = let rest = after_word ts in if is_plain c then rest else c ∷ ts

-- What `gettoken` returns: a kind, which is 0 at the end, `a` for a word, `+` for ">>" and else the
-- symbol; the token; and the rest of the line.
abbrev pub Token : Type 0
Token = ℕ × (Text × Text)

-- The case of '>', behind it.
unfoldable pub greater : Text → Token
unfolding skip_white
greater [] = (b'>', (b'>' ∷ [], []))
greater (d ∷ ts) =
    if d == b'>'
    then (b'+', (b'>' ∷ b'>' ∷ [], skip_white ts))
    else (b'>', (b'>' ∷ [], skip_white (d ∷ ts)))

-- The switch of `gettoken`, and the white space behind the token.
unfoldable pub token_at : Text → Token
unfolding skip_white word after_word greater
token_at [] = (0, ([], []))
token_at (c ∷ ts) =
    if one_of (b'|' ∷ b'(' ∷ b')' ∷ b';' ∷ b'&' ∷ b'<' ∷ []) c
    then (c, (c ∷ [], skip_white ts))
    else if c == b'>'
    then greater ts
    else (b'a', (word (c ∷ ts), skip_white (after_word (c ∷ ts))))

unfoldable pub gettoken : Text → Token
unfolding token_at
gettoken ts = token_at (skip_white ts)

-- `peek`: whether the next byte is one of the set.
abbrev pub next_in : Text → Text → Bool
next_in toks [] = false
next_in toks (c ∷ ts) = one_of toks c

unfoldable pub peek : Text → Text → Bool
unfolding skip_white
peek toks ts = next_in toks (skip_white ts)
