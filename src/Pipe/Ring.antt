-- ===== src/Pipe/Ring.antt =====
-- The bytes that a pipe holds, oldest first, and the two ring operations on them.
use cs202_lab.Prelude.{
  ℕ, zero, suc, ◌+◌, ◌%◌, ◌<◌, ◌≤◌, ◌≡◌, refl, false, List, [], ◌∷◌, ◌++◌, arith, length, get_or,
  set, ap, ap₂, ◌∙◌, length-set, get_or-set_self, get_or-set_ne, sub32, add32, u32_mod,
}
use cs202_lab.Pipe.{Pipe, pipe_size, put, take_byte, is_full, is_empty}

-- The `n` bytes from counter `r` on.
abbrev pub window : List ℕ → ℕ → ℕ → List ℕ
window bytes r zero = []
window bytes r (suc n) = get_or bytes (r % pipe_size) 0 ∷ window bytes (r + 1) n

-- How many bytes the counters stand for, across their wrap-around.
abbrev pub held : Pipe → ℕ
held p = sub32 p.nwrite p.nread

abbrev pub contents : Pipe → List ℕ
contents p = window p.bytes p.nread (held p)

pub record IsValid (p : Pipe) : Type 0 where
  pub storage : length p.bytes ≡ pipe_size
  pub reads : p.nread < u32_mod
  pub writes : p.nwrite < u32_mod
  pub bounded : held p ≤ pipe_size

window-congr :
    (bytes : List ℕ) (r r' n : ℕ)
    → r % pipe_size ≡ r' % pipe_size
    → window bytes r n ≡ window bytes r' n
window-congr bytes r r' zero e = refl
window-congr bytes r r' (suc n) e =
    ap₂ ◌∷◌ (ap (λ i. get_or bytes i 0) e) (window-congr bytes (r + 1) (r' + 1) n (omega arith))

pub length-window : (bytes : List ℕ) (r n : ℕ) → length (window bytes r n) ≡ n
length-window bytes r zero = refl
length-window bytes r (suc n) = ap suc (length-window bytes (r + 1) n)

window-set :
    (bytes : List ℕ) (x n r i : ℕ)
    → length bytes ≡ pipe_size
    → n < pipe_size
    → i ≡ (r + n) % pipe_size
    → window (set bytes i x) r (suc n) ≡ window bytes r n ++ (x ∷ [])
window-set bytes x zero r i len lt e =
    let at : i ≡ r % pipe_size = omega arith in
    rw at (ap (λ c. c ∷ []) (get_or-set_self bytes (r % pipe_size) x 0 (omega arith)))
window-set bytes x (suc n) r i len lt e =
    ap₂ ◌∷◌
      (get_or-set_ne bytes {i = i} {j = r % pipe_size} x 0 (λ (q : i ≡ r % pipe_size). omega arith))
      (window-set bytes x n (r + 1) i len (omega arith) (omega arith))

-- A byte put into a pipe that is not full goes behind the bytes held.
pub put_lem :
    (ch : ℕ) (p : Pipe)
    → IsValid p
    → is_full p ≡ false
    → IsValid (put ch p) × (contents (put ch p) ≡ contents p ++ (ch ∷ []))
unfolding put
put_lem ch p v free =
    let room : held p < pipe_size = ground arith in
    let grown : sub32 (add32 p.nwrite 1) p.nread ≡ suc (held p) =
      omega (arith, v.reads, v.writes, room) in
    (
      record {
        storage = length-set p.bytes (p.nwrite % pipe_size) ch ∙ v.storage;
        reads = v.reads;
        writes = omega arith;
        bounded = rw grown room;
      },
      rw grown (
          window-set p.bytes ch (held p) p.nread (p.nwrite % pipe_size) v.storage room
            (omega (arith, v.reads, v.writes))),
    )

-- A byte taken from a pipe that is not empty is the oldest one.
pub take_byte_lem :
    (p : Pipe)
    → IsValid p
    → is_empty p ≡ false
    → IsValid (take_byte p).1 × (contents p ≡ (take_byte p).0 ∷ contents (take_byte p).1)
unfolding take_byte
take_byte_lem p v some_left =
    let less : held p ≡ suc (sub32 p.nwrite (add32 p.nread 1)) = ground arith in
    (
      record {
        storage = v.storage;
        reads = omega arith;
        writes = v.writes;
        bounded = omega (arith, v.bounded, less);
      },
      rw less (
          ap (λ bs. get_or p.bytes (p.nread % pipe_size) 0 ∷ bs)
            (window-congr p.bytes (p.nread + 1) (add32 p.nread 1) _ (omega arith))),
    )
