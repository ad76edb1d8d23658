-- ===== src/Pipe/Stream.antt =====
-- A pipe is a byte stream: what a write appends and what a read delivers.
use mathlib.Core.List.{append-nil, append_assoc}
use cs202_lab.Prelude.{
  ℕ, zero, suc, ◌+◌, ◌<◌, ◌≡◌, ◌⊎◌, inl, inr, refl, Bool, true, false, not, List, [], ◌∷◌, ◌++◌,
  ◌&&◌, ◌||◌, arith, length, ap, ◌∙◌, sym, Option, none, some, if◌then◌else◌, Bool-cases,
  Option-cases,
}
use cs202_lab.Pipe.{
  Pipe, pipe_size, put, take_byte, is_full, is_empty, WriteEnd, write_from, pipewrite, ReadEnd,
  read_from, piperead,
}
use cs202_lab.Pipe.Ring.{IsValid, contents, held, put_lem, take_byte_lem}

-- The bytes that `copyin` gives from offset `i` on begin with these.
abbrev pub Fetched : (ℕ → Option ℕ) → ℕ → List ℕ → Type 0
Fetched copyin i [] = Unit {0}
Fetched copyin i (b ∷ bs) = (copyin i ≡ some b) × Fetched copyin (suc i) bs

-- From offset `i` and pipe `p`, the bytes up to offset `j` were appended, which gave `q`.
pub record Sent (copyin : ℕ → Option ℕ) (i : ℕ) (p : Pipe) (j : ℕ) (q : Pipe) : Type 0 where
  pub bytes : List ℕ
  pub fetched : Fetched copyin i bytes
  pub offset : j ≡ i + length bytes
  pub appended : contents q ≡ contents p ++ bytes
  pub valid : IsValid q

-- What holds at each end of a stretch of `pipewrite` that had `rest` bytes to go.
abbrev pub WriteFacts : (ℕ → Option ℕ) → ℕ → ℕ → Pipe → WriteEnd → Type 0
WriteFacts copyin rest i p (WriteEnd.broken j q) = Sent copyin i p j q × (j < i + rest)
WriteFacts copyin rest i p (WriteEnd.sleeps j q) =
    Sent copyin i p j q × (j < i + rest) × (held q ≡ pipe_size)
WriteFacts copyin rest i p (WriteEnd.returns j q) =
    Sent copyin i p j q × ((j ≡ i + rest) ⊎ ((j < i + rest) × (copyin j ≡ none)))

nothing : (copyin : ℕ → Option ℕ) (i : ℕ) (p : Pipe) → IsValid p → Sent copyin i p i p
nothing copyin i p v = record {
  bytes = [];
  fetched = tt;
  offset = omega arith;
  appended = sym (append-nil (contents p));
  valid = v;
}

one_more :
    (copyin : ℕ → Option ℕ) (i ch : ℕ) (p : Pipe) {j : ℕ} {q : Pipe}
    → copyin i ≡ some ch
    → contents (put ch p) ≡ contents p ++ (ch ∷ [])
    → Sent copyin (suc i) (put ch p) j q
    → Sent copyin i p j q
one_more copyin i ch p e c s = record {
  bytes = ch ∷ s.bytes;
  fetched = (e, s.fetched);
  offset = omega (arith, s.offset);
  appended = s.appended ∙ ap (λ xs. xs ++ s.bytes) c ∙ append_assoc (contents p) (ch ∷ []) s.bytes;
  valid = s.valid;
}

held_full : (p : Pipe) → IsValid p → is_full p ≡ true → held p ≡ pipe_size
held_full p v e = ground arith

WriteFacts-more :
    (copyin : ℕ → Option ℕ) (rest i ch : ℕ) (p : Pipe) (e : WriteEnd)
    → copyin i ≡ some ch
    → contents (put ch p) ≡ contents p ++ (ch ∷ [])
    → WriteFacts copyin rest (suc i) (put ch p) e
    → WriteFacts copyin (suc rest) i p e
WriteFacts-more copyin rest i ch p (WriteEnd.broken j q) f c (s, lt) =
    (one_more copyin i ch p f c s, omega arith)
WriteFacts-more copyin rest i ch p (WriteEnd.sleeps j q) f c (s, lt, full) =
    (one_more copyin i ch p f c s, omega arith, full)
WriteFacts-more copyin rest i ch p (WriteEnd.returns j q) f c (s, end') = (
  one_more copyin i ch p f c s,
  elim end' [ inl e ↦ inl (omega arith) | inr (lt, n) ↦ inr (omega arith, n) ],
)

write_from-WriteFacts :
    (killed : Bool) (copyin : ℕ → Option ℕ) (rest i : ℕ) (p : Pipe)
    → IsValid p
    → WriteFacts copyin rest i p (write_from killed copyin rest i p)
unfolding write_from
write_from-WriteFacts killed copyin zero i p v = (nothing copyin i p v, inl (omega arith))
write_from-WriteFacts killed copyin (suc rest) i p v =
    elim (Bool-cases (not p.readopen || killed)) [
      | inl b ↦ rw (b, write_from) (nothing copyin i p v, omega arith)
      | inr b ↦ elim (Bool-cases (is_full p)) [
        | inl f ↦ rw (b, f, write_from) (nothing copyin i p v, omega arith, held_full p v f)
        | inr f ↦ elim (Option-cases (copyin i)) [
          | inl e ↦ rw (b, f, e, write_from) (nothing copyin i p v, inr (omega arith, e))
          | inr (ch, e) ↦
              let (v', c) = put_lem ch p v f in
              rw (b, f, e, write_from)
                (WriteFacts-more copyin rest i ch p _ e c
                  (write_from-WriteFacts killed copyin rest (suc i) (put ch p) v'))
        ]
      ]
    ]

-- `pipewrite` appends bytes of the caller, in order and from the first on, to what the pipe holds,
-- however it ends. It sleeps only on a pipe that holds PIPESIZE bytes, gives up only before the
-- end, and returns its count only at the end or where `copyin` fails.
pub pipewrite_lem :
    (killed : Bool) (copyin : ℕ → Option ℕ) (n : ℕ) (p : Pipe)
    → IsValid p
    → WriteFacts copyin n 0 p (pipewrite killed copyin n p)
unfolding pipewrite
pipewrite_lem killed copyin n p v = write_from-WriteFacts killed copyin n 0 p v

-- What a copy loop of `piperead` with `rest` bytes to go and `out` delivered has done at its end.
pub record Delivered (copyout : ℕ → Bool) (rest i : ℕ) (out : List ℕ) (p : Pipe) (j : ℕ)
    (out' : List ℕ) (q : Pipe) : Type 0 where
  pub bytes : List ℕ
  pub shown : out' ≡ out ++ bytes
  pub offset : j ≡ i + length bytes
  pub valid : IsValid q
  pub taken :
      ((contents p ≡ bytes ++ contents q) × ((j ≡ i + rest) ⊎ (contents q ≡ [])))
      ⊎ ((lost : ℕ) × (copyout j ≡ false) × (contents p ≡ bytes ++ (lost ∷ contents q)))

abbrev pub ReadFacts : (ℕ → Bool) → ℕ → ℕ → List ℕ → Pipe → ReadEnd → Type 0
ReadFacts copyout rest i out p ReadEnd.killed = ⊥
ReadFacts copyout rest i out p ReadEnd.waits = ⊥
ReadFacts copyout rest i out p (ReadEnd.got j out' q) = Delivered copyout rest i out p j out' q

contents-empty : (p : Pipe) → IsValid p → is_empty p ≡ true → contents p ≡ []
contents-empty p v e = let z : held p ≡ 0 = ground (arith, v.reads) in rw z refl

ReadFacts-more :
    (copyout : ℕ → Bool) (rest i ch : ℕ) (out : List ℕ) (p p' : Pipe) (e : ReadEnd)
    → contents p ≡ ch ∷ contents p'
    → ReadFacts copyout rest (suc i) (out ++ (ch ∷ [])) p' e
    → ReadFacts copyout (suc rest) i out p e
ReadFacts-more copyout rest i ch out p p' (ReadEnd.got j out' q) c d = record {
  bytes = ch ∷ d.bytes;
  shown = d.shown ∙ append_assoc out (ch ∷ []) d.bytes;
  offset = omega (arith, d.offset);
  valid = d.valid;
  taken = elim d.taken [
    | inl (t, end') ↦
        inl (c ∙ ap (λ bs. ch ∷ bs) t, elim end' [ inl e ↦ inl (omega arith) | inr e ↦ inr e ])
    | inr (lost, f, t) ↦ inr (lost, f, c ∙ ap (λ bs. ch ∷ bs) t)
  ];
}
ReadFacts-more copyout rest i ch out p p' ReadEnd.killed c d = d
ReadFacts-more copyout rest i ch out p p' ReadEnd.waits c d = d

read_from-ReadFacts :
    (copyout : ℕ → Bool) (rest i : ℕ) (out : List ℕ) (p : Pipe)
    → IsValid p
    → ReadFacts copyout rest i out p (read_from copyout rest i out p)
unfolding read_from
read_from-ReadFacts copyout zero i out p v = record {
  bytes = [];
  shown = sym (append-nil out);
  offset = omega arith;
  valid = v;
  taken = inl (refl, inl (omega arith));
}
read_from-ReadFacts copyout (suc rest) i out p v = elim (Bool-cases (is_empty p)) [
  | inl e ↦
      rw (e, read_from)
        (record {
          bytes = [];
          shown = sym (append-nil out);
          offset = omega arith;
          valid = v;
          taken = inl (refl, inr (contents-empty p v e));
        })
  | inr e ↦
      let (v', c) = take_byte_lem p v e in
      elim (Bool-cases (copyout i)) [
        | inl ok ↦
            rw (e, ok, read_from)
              (ReadFacts-more copyout rest i (take_byte p).0 out p (take_byte p).1 _ c (
                read_from-ReadFacts copyout rest (suc i) (out ++ ((take_byte p).0 ∷ []))
                  (take_byte p).1 v'))
        | inr bad ↦
            rw (e, bad, read_from)
              (record {
                bytes = [];
                shown = sym (append-nil out);
                offset = omega arith;
                valid = v';
                taken = inr ((take_byte p).0, bad, c);
              })
      ]
]

-- `piperead` fails or waits only on an empty pipe with a writer. Else it delivers the oldest bytes
-- in their order and keeps the rest: it stops at the count asked for, or when the pipe is empty, or
-- where `copyout` fails, and there alone one byte is taken that is not delivered.
pub piperead_lem :
    (is_killed : Bool) (copyout : ℕ → Bool) (n : ℕ) (p : Pipe)
    → IsValid p
    → ((contents p ≡ [])
        × (p.writeopen ≡ true)
        × (piperead is_killed copyout n p ≡ (if is_killed then ReadEnd.killed else ReadEnd.waits)))
      ⊎ ReadFacts copyout n 0 [] p (piperead is_killed copyout n p)
unfolding piperead
piperead_lem is_killed copyout n p v = elim (Bool-cases (is_empty p && p.writeopen)) [
  | inl w ↦ inl (contents-empty p v (ground arith), ground arith, rw w refl)
  | inr w ↦ inr (rw w (read_from-ReadFacts copyout n 0 [] p v))
]
