-- ===== src/Console/Tests.antt =====
-- The theorems on the console at a ring with a typed word.
use cs202_lab.Prelude.{ℕ, zero, suc, ◌≡◌, refl, true, false, List, [], ◌∷◌, arith}
use cs202_lab.Console.{Cons, LineEnd, consoleread, consoleintr}
use cs202_lab.Console.Line.{IsValid, consoleintr-IsValid}

abbrev letters : ℕ → List ℕ
letters zero = []
letters (suc n) = 97 ∷ letters n

-- A line of three bytes is ready, and two more are being edited.
abbrev typed : Cons
typed = record { buf = 97 ∷ 97 ∷ 10 ∷ letters 125; r = 0; w = 3; e = 5 }

typed-IsValid : IsValid typed
typed-IsValid = record {
  storage = refl;
  reads = omega arith;
  writes = omega arith;
  edits = omega arith;
  ordered = omega arith;
  bounded = omega arith;
}

consoleintr-IsValid_example : IsValid (consoleintr 13 typed).cons
consoleintr-IsValid_example = consoleintr-IsValid 13 typed typed-IsValid

read_run :
    consoleread false (λ i. true) 9 typed
    ≡ LineEnd.got 3 (97 ∷ 97 ∷ 10 ∷ []) (record typed { r = 3 })
unfolding consoleread
read_run = refl
