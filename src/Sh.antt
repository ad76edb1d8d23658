-- ===== src/Sh.antt =====
-- The parser of the shell, user/sh.c. A line is the list of its bytes up to the terminator, and `*ps` the
-- part of it that is still to be read; a word, between `q` and `eq`, is the list of its bytes, which
-- `nulterminate` makes a string of. `malloc` does not fail. The parsers run on fuel.
pub mod Token
pub mod Parse
pub mod Words
pub mod Simple
pub mod Total
pub mod Print
pub mod Pieces
pub mod RoundTrip
mod Tests
use cs202_lab.Prelude.{ℕ, zero, suc, Bool, true, false, List, [], ◌∷◌, ◌==◌, ◌||◌, any_of}

-- `panics` is a call of `panic`; `out_of_fuel` has no counterpart in the program.
pub data Result (A : Type 0) : Type 0 where
  ok : A → Result A
  panics out_of_fuel : Result A

abbrev pub Text : Type 0
Text = List ℕ

-- A parser gives its value and the rest of the line.
abbrev pub Parser : Type 0 → Type 0
Parser A = Text → Result (A × Text)

abbrev pub pure : {A : Type 0} → A → Parser A
pure a ts = Result.ok (a, ts)

abbrev pub panic : {A : Type 0} → Parser A
panic ts = Result.panics

abbrev pub bind : {A B : Type 0} → Result (A × Text) → (A → Parser B) → Result (B × Text)
bind (Result.ok (a, ts)) f = f a ts
bind Result.panics f = Result.panics
bind Result.out_of_fuel f = Result.out_of_fuel

infixl 5 ◌>>=◌ ◌>>◌
abbrev pub ◌>>=◌ : {A B : Type 0} → Parser A → (A → Parser B) → Parser B
◌>>=◌ p f ts = bind (p ts) f

abbrev pub ◌>>◌ : {A B : Type 0} → Parser A → Parser B → Parser B
p >> q = p >>= λ _. q

-- `strchr(set, c)` as a test.
abbrev pub one_of : Text → ℕ → Bool
one_of set c = any_of (λ d. d == c) set

-- " \t\r\n\v" and "<|>&;()"
abbrev pub whitespace : Text
whitespace = 32 ∷ 9 ∷ 13 ∷ 10 ∷ 11 ∷ []

abbrev pub symbols : Text
symbols = b'<' ∷ b'|' ∷ b'>' ∷ b'&' ∷ b';' ∷ b'(' ∷ b')' ∷ []

abbrev pub maxargs : ℕ
maxargs = 10

-- How a redirection opens its file: O_RDONLY at 0, O_WRONLY|O_CREATE|O_TRUNC at 1, or
-- O_WRONLY|O_CREATE at 1.
pub record Redir : Type 0 where
  pub file : Text
  pub mode : ℕ
  pub fd : ℕ

-- `struct cmd` and its kinds.
pub data Cmd : Type 0 where
  exec : List Text → Cmd
  redir : Cmd → Redir → Cmd
  pipe : Cmd → Cmd → Cmd
  seq : Cmd → Cmd → Cmd
  back : Cmd → Cmd
