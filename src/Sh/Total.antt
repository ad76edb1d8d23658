-- ===== src/Sh/Total.antt =====
-- Every run of the parser ends, and gives well-formed commands.
use cs202_lab.Prelude.{ℕ, zero, suc, ◌+◌, ◌*◌, ◌≤◌, [], ◌∷◌, length, arith}
use cs202_lab.Sh.{Result, Text, Parser, Cmd}
use cs202_lab.Sh.Token.{skip_white, gettoken, peek}
use cs202_lab.Sh.Parse.{
  redirs, backs, parse_line, parse_pipe, parse_exec, parse_block, finish, whole, parsecmd,
}
use cs202_lab.Sh.Words.{if_intro, peek-Taken}
use cs202_lab.Sh.Simple.{
  Ensures, bind-Ensures, AllRedirs, IsCmd, redirs-Ensures, wrap-IsCmd, simple-Ensures,
  backs-Ensures,
}

-- A parser with `fuel` works on every text whose length leaves `k` to spare.
abbrev Works : Parser Cmd → ℕ → ℕ → Type 0
Works p k fuel = (ts : Text) → 4 * length ts + k ≤ fuel → Ensures (length ts) IsCmd (p ts)

abbrev AllWork : ℕ → Type 0
AllWork fuel =
    Works (parse_line fuel) 4 fuel
    × Works (parse_pipe fuel) 3 fuel
    × Works (parse_exec fuel) 2 fuel
    × Works (parse_block fuel) 1 fuel

line_step : (fuel : ℕ) → AllWork fuel → Works (parse_line (suc fuel)) 4 (suc fuel)
unfolding parse_line
line_step fuel (line, pipe, _, _) ts h =
    bind-Ensures (length ts) (length ts) IsCmd IsCmd (parse_pipe fuel ts) _ (pipe ts (omega arith))
      (λ c rest le c_ok.
        bind-Ensures (length rest) (length ts) IsCmd IsCmd (backs fuel c rest) _
          (backs-Ensures fuel c rest (omega arith) c_ok)
          (λ c' rest' le' c'_ok.
            if_intro (Ensures (length ts) IsCmd) (peek (b';' ∷ []) rest')
              (λ p.
                let t = peek-Taken (b';' ∷ []) rest' p in
                let us = (gettoken rest').1.1 in
                bind-Ensures (length us) (length ts) IsCmd IsCmd (parse_line fuel us) _
                  (line us (omega (arith, t.0)))
                  (λ d rest'' le'' d_ok. (omega (arith, t.0), (c'_ok, d_ok))))
              (λ _. (omega arith, c'_ok))))

pipe_step : (fuel : ℕ) → AllWork fuel → Works (parse_pipe (suc fuel)) 3 (suc fuel)
unfolding parse_pipe
pipe_step fuel (_, pipe, exec, _) ts h =
    bind-Ensures (length ts) (length ts) IsCmd IsCmd (parse_exec fuel ts) _ (exec ts (omega arith))
      (λ c rest le c_ok.
        if_intro (Ensures (length ts) IsCmd) (peek (b'|' ∷ []) rest)
          (λ p.
            let t = peek-Taken (b'|' ∷ []) rest p in
            let us = (gettoken rest).1.1 in
            bind-Ensures (length us) (length ts) IsCmd IsCmd (parse_pipe fuel us) _
              (pipe us (omega (arith, t.0)))
              (λ d rest' le' d_ok. (omega (arith, t.0), (c_ok, d_ok))))
          (λ _. (omega arith, c_ok)))

exec_step : (fuel : ℕ) → AllWork fuel → Works (parse_exec (suc fuel)) 2 (suc fuel)
unfolding parse_exec
exec_step fuel (_, _, _, block) ts h =
    if_intro (Ensures (length ts) IsCmd) (peek (b'(' ∷ []) ts) (λ _. block ts (omega arith))
      (λ _. simple-Ensures fuel ts (omega arith))

block_step : (fuel : ℕ) → AllWork fuel → Works (parse_block (suc fuel)) 1 (suc fuel)
unfolding parse_block
block_step fuel (line, _, _, _) ts h =
    if_intro (Ensures (length ts) IsCmd) (peek (b'(' ∷ []) ts)
      (λ p.
        let t = peek-Taken (b'(' ∷ []) ts p in
        let us = (gettoken ts).1.1 in
        bind-Ensures (length us) (length ts) IsCmd IsCmd (parse_line fuel us) _
          (line us (omega (arith, t.0)))
          (λ c rest le c_ok.
            if_intro (Ensures (length ts) IsCmd) (peek (b')' ∷ []) rest)
              (λ q.
                let t' = peek-Taken (b')' ∷ []) rest q in
                let vs = (gettoken rest).1.1 in
                bind-Ensures (length vs) (length ts) AllRedirs IsCmd (redirs fuel vs) _
                  (redirs-Ensures fuel vs (omega (arith, t.0, t'.0)))
                  (λ rs rest' le' ok'. (omega (arith, t.0, t'.0), wrap-IsCmd c rs c_ok ok')))
              (λ _. tt)))
      (λ _. tt)

all_work : (fuel : ℕ) → AllWork fuel
all_work zero = (
  λ ts h. absurd (omega arith),
  λ ts h. absurd (omega arith),
  λ ts h. absurd (omega arith),
  λ ts h. absurd (omega arith),
)
all_work (suc fuel) =
    let below = all_work fuel in
    (line_step fuel below, pipe_step fuel below, exec_step fuel below, block_step fuel below)

-- What `parsecmd` gives: a well-formed command, or a panic.
abbrev pub Parsed : Result Cmd → Type 0
Parsed (Result.ok c) = IsCmd c
Parsed Result.panics = Unit
Parsed Result.out_of_fuel = ⊥

finish-Parsed : (c : Cmd) (ts : Text) → IsCmd c → Parsed (finish c ts)
finish-Parsed c [] h = h
finish-Parsed c (t ∷ ts) h = tt

whole-Parsed : (n : ℕ) (r : Result (Cmd × Text)) → Ensures n IsCmd r → Parsed (whole r)
whole-Parsed n (Result.ok (c, rest)) (le, h) = finish-Parsed c (skip_white rest) h
whole-Parsed n Result.panics h = tt
whole-Parsed n Result.out_of_fuel h = h

-- On every line `parsecmd` ends with a command or a panic, never for want of fuel; and in the command
-- every `argv` has fewer than MAXARGS words, and the words and the files of redirections are not empty
-- and have neither white space nor symbols in them, and each redirection is of one of the three kinds.
pub parsecmd-Parsed : (ts : Text) → Parsed (parsecmd ts)
unfolding parsecmd
parsecmd-Parsed ts =
    whole-Parsed (length ts) (parse_line (4 * length ts + 4) ts)
      ((all_work (4 * length ts + 4)).0 ts (omega arith))
