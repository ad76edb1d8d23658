-- ===== src/Sh/Parse.antt =====
-- The parsers, from `parseredirs` up to `parsecmd`. The white space that `peek` skips is skipped by the
-- next `gettoken` or `peek` as well, so that `peek` need not move the text on, but at the end.
use cs202_lab.Prelude.{
  ℕ, zero, suc, ◌+◌, ◌*◌, List, [], ◌∷◌, ◌++◌, ◌==◌, leb, if◌then◌else◌, length,
}
use cs202_lab.Sh.{Result, Text, Parser, pure, bind, ◌>>=◌, maxargs, Redir, Cmd}
use cs202_lab.Sh.Token.{Token, skip_white, gettoken, peek}

-- The redirection for the kind of its token.
abbrev pub redir_of : ℕ → Text → Redir
redir_of tok file' =
    if tok == b'<'
    then record { file = file'; mode = 0; fd = 0 }
    else if tok == b'>'
    then record { file = file'; mode = 0x601; fd = 1 }
    else record { file = file'; mode = 0x201; fd = 1 }

-- A token that has to be a word.
abbrev pub need_word : Token → Result (Text × Text)
need_word (kind, (tok, rest)) = if kind == b'a' then Result.ok (tok, rest) else Result.panics

-- The loop of `parseredirs`: the redirections, in their order.
unfoldable pub redirs : ℕ → Parser (List Redir)
redirs zero ts = Result.out_of_fuel
redirs (suc fuel) ts =
    let more = bind (need_word (gettoken (gettoken ts).1.1)) λ file' rest.
      bind (redirs fuel rest) λ rs rest'. Result.ok (redir_of (gettoken ts).0 file' ∷ rs, rest') in
    if peek (b'<' ∷ b'>' ∷ []) ts then more else Result.ok ([], ts)

-- `redircmd` around a command, for each redirection in turn.
abbrev pub wrap : Cmd → List Redir → Cmd
wrap c [] = c
wrap c (r ∷ rs) = wrap (Cmd.redir c r) rs

-- The loop of `parseexec`: the arguments behind the first `argc`, and the redirections between them,
-- which wrap the command whose `argv` goes on filling.
unfoldable pub args : ℕ → ℕ → Parser (List Text × List Redir)
unfolding redirs
args zero argc ts = Result.out_of_fuel
args (suc fuel) argc ts =
    let more = bind (need_word (gettoken ts)) λ word' rest.
      if leb maxargs (suc argc)
      then Result.panics
      else bind (redirs fuel rest) λ rs rest'.
        bind (args fuel (suc argc) rest')
          λ o rest''. Result.ok ((word' ∷ o.0, rs ++ o.1), rest'') in
    if peek (b'|' ∷ b')' ∷ b'&' ∷ b';' ∷ []) ts
    then Result.ok (([], []), ts)
    else if (gettoken ts).0 == 0
    then Result.ok (([], []), (gettoken ts).1.1)
    else more

-- The branch of `parseexec` without parentheses.
unfoldable pub simple : ℕ → Parser Cmd
unfolding args
simple fuel = do rs ← redirs fuel; o ← args fuel 0; pure (wrap (Cmd.exec o.0) (rs ++ o.1))

-- The loop of `parseline` on '&'.
unfoldable pub backs : ℕ → Cmd → Parser Cmd
backs zero c ts = Result.out_of_fuel
backs (suc fuel) c ts =
    let more = backs fuel (Cmd.back c) (gettoken ts).1.1 in
    if peek (b'&' ∷ []) ts then more else Result.ok (c, ts)

unfoldable mutual
  pub parse_line : ℕ → Parser Cmd
  parse_line zero ts = Result.out_of_fuel
  parse_line (suc fuel) ts = bind (parse_pipe fuel ts) λ c rest.
      bind (backs fuel c rest) λ c' rest'.
        let more =
          bind (parse_line fuel (gettoken rest').1.1)
            λ d rest''. Result.ok (Cmd.seq c' d, rest'') in
        if peek (b';' ∷ []) rest' then more else Result.ok (c', rest')

  pub parse_pipe : ℕ → Parser Cmd
  parse_pipe zero ts = Result.out_of_fuel
  parse_pipe (suc fuel) ts = bind (parse_exec fuel ts) λ c rest.
      let more =
        bind (parse_pipe fuel (gettoken rest).1.1) λ d rest'. Result.ok (Cmd.pipe c d, rest') in
      if peek (b'|' ∷ []) rest then more else Result.ok (c, rest)

  pub parse_exec : ℕ → Parser Cmd
  parse_exec zero ts = Result.out_of_fuel
  parse_exec (suc fuel) ts =
      let block = parse_block fuel ts in
      let plain = simple fuel ts in if peek (b'(' ∷ []) ts then block else plain

  pub parse_block : ℕ → Parser Cmd
  parse_block zero ts = Result.out_of_fuel
  parse_block (suc fuel) ts =
      let inner = bind (parse_line fuel (gettoken ts).1.1) λ c rest.
        let close =
          bind (redirs fuel (gettoken rest).1.1) λ rs rest'. Result.ok (wrap c rs, rest') in
        if peek (b')' ∷ []) rest then close else Result.panics in
      if peek (b'(' ∷ []) ts then inner else Result.panics

-- The last test of `parsecmd`: nothing is left over.
abbrev pub finish : Cmd → Text → Result Cmd
finish c [] = Result.ok c
finish c (t ∷ ts) = Result.panics

abbrev pub whole : Result (Cmd × Text) → Result Cmd
whole (Result.ok (c, rest)) = finish c (skip_white rest)
whole Result.panics = Result.panics
whole Result.out_of_fuel = Result.out_of_fuel

-- `parsecmd`, less `nulterminate`.
unfoldable pub parsecmd : Text → Result Cmd
unfolding parse_line
parsecmd ts = whole (parse_line (4 * length ts + 4) ts)
