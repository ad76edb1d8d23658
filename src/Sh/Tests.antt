-- ===== src/Sh/Tests.antt =====
-- Runs of the shell's parser, and its theorems at a line.
use cs202_lab.Prelude.{arith, ◌≡◌, refl, [], ◌∷◌}
use cs202_lab.Sh.{Result, Text, Cmd}
use cs202_lab.Sh.Token.{gettoken, peek}
use cs202_lab.Sh.Parse.{simple, backs, parsecmd}
use cs202_lab.Sh.Print.{print}
use cs202_lab.Sh.RoundTrip.{parsecmd-print}
use cs202_lab.Sh.Total.{Parsed, parsecmd-Parsed}

-- "ls >f|wc;" and "a&"
abbrev line : Text
line = b'l' ∷ b's' ∷ b' ' ∷ b'>' ∷ b'f' ∷ b'|' ∷ b'w' ∷ b'c' ∷ b';' ∷ b'a' ∷ b'&' ∷ []

parsecmd_run :
    parsecmd line
    ≡ Result.ok (
        Cmd.seq
          (Cmd.pipe
            (Cmd.redir
              (Cmd.exec ((b'l' ∷ b's' ∷ []) ∷ []))
              (record { file = b'f' ∷ []; mode = 0x601; fd = 1 }))
            (Cmd.exec ((b'w' ∷ b'c' ∷ []) ∷ [])))
          (Cmd.back (Cmd.exec ((b'a' ∷ []) ∷ []))))
unfolding parsecmd peek simple gettoken backs
parsecmd_run = refl

parsecmd-Parsed_example : Parsed (parsecmd line)
parsecmd-Parsed_example = parsecmd-Parsed line

-- "(ls )>>f" behind a pipe
abbrev command : Cmd
command = Cmd.pipe (Cmd.exec ((b'a' ∷ []) ∷ [])) (
    Cmd.redir (Cmd.exec ((b'l' ∷ b's' ∷ []) ∷ []))
      (record { file = b'f' ∷ []; mode = 0x201; fd = 1 }))

parsecmd-print_example : parsecmd (print command []) ≡ Result.ok command
parsecmd-print_example =
    parsecmd-print command (
      (omega arith, ((refl, tt), tt)),
      (((refl, tt), refl), (omega arith, ((refl, (refl, tt)), tt))),
    )
