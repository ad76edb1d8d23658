-- ===== src/Pipe/Tests.antt =====
-- Runs of a pipe, and the theorems at a pipe whose counters are about to wrap.
use cs202_lab.Prelude.{
  ℕ, zero, suc, ◌≡◌, ◌⊎◌, refl, true, false, List, [], ◌∷◌, Option, none, some, if◌then◌else◌,
  arith, ltb,
}
use cs202_lab.Pipe.{Pipe, pipewrite, ReadEnd, piperead}
use cs202_lab.Pipe.Ring.{IsValid, contents}
use cs202_lab.Pipe.Stream.{WriteFacts, ReadFacts, pipewrite_lem, piperead_lem}

abbrev ones : ℕ → List ℕ
ones zero = []
ones (suc n) = 1 ∷ ones n

-- Two bytes, one on each side of the wrap-around.
abbrev wrapping : Pipe
wrapping = record {
  bytes = ones 512;
  nread = 0xffffffff;
  nwrite = 1;
  readopen = true;
  writeopen = true;
}

wrapping-IsValid : IsValid wrapping
wrapping-IsValid = record {
  storage = refl;
  reads = omega arith;
  writes = omega arith;
  bounded = omega arith;
}

-- Three bytes of the caller, the third of which cannot be read.
abbrev caller : ℕ → Option ℕ
caller i = if ltb i 2 then some 9 else none

pipewrite_lem_example : WriteFacts caller 3 0 wrapping (pipewrite false caller 3 wrapping)
pipewrite_lem_example = pipewrite_lem false caller 3 wrapping wrapping-IsValid

piperead_lem_example :
    ((contents wrapping ≡ [])
      × (wrapping.writeopen ≡ true)
      × (piperead false (λ i. true) 5 wrapping ≡ (if false then ReadEnd.killed else ReadEnd.waits)))
    ⊎ ReadFacts (λ i. true) 5 0 [] wrapping (piperead false (λ i. true) 5 wrapping)
piperead_lem_example = piperead_lem false (λ i. true) 5 wrapping wrapping-IsValid
