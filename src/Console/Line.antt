-- ===== src/Console/Line.antt =====
-- The indices of the console's ring stay in order, and kill line erases one line.
use cs202_lab.Prelude.{
  ℕ, zero, suc, ◌+◌, ◌%◌, ◌<◌, ◌≤◌, ◌≡◌, ◌⊎◌, inl, inr, refl, Bool, false, not, List, [], ◌∷◌, ◌++◌,
  ◌==◌, ◌&&◌, ◌||◌, ltb, arith, if◌then◌else◌, get_or, add32, sub32, u32_mod, length, length-set,
  length-append, Bool-cases,
}
use cs202_lab.Console.{
  input_buf, Cons, LineEnd, read_line, consoleread, kill_line, backspace, insert, ends_line, accept,
  consoleintr,
}

-- The read index, the write index and the edit index follow each other within the ring.
pub record IsValid (k : Cons) : Type 0 where
  pub storage : length k.buf ≡ input_buf
  pub reads : k.r < u32_mod
  pub writes : k.w < u32_mod
  pub edits : k.e < u32_mod
  pub ordered : sub32 k.w k.r ≤ sub32 k.e k.r
  pub bounded : sub32 k.e k.r ≤ input_buf

erase-IsValid :
    (k : Cons) → IsValid k → (k.e == k.w) ≡ false → IsValid (record k { e = sub32 k.e 1 })
erase-IsValid k v ne =
    let d : (k.e < k.w) ⊎ (k.w < k.e) = ground arith in
    record {
      storage = v.storage;
      reads = v.reads;
      writes = v.writes;
      edits = omega arith;
      ordered = omega (arith, v.reads, v.writes, v.edits, v.ordered, v.bounded);
      bounded = omega (arith, v.reads, v.writes, v.edits, v.ordered, v.bounded);
    }

kill_line-IsValid : (n : ℕ) (k : Cons) → IsValid k → IsValid (kill_line n k).0
unfolding kill_line
kill_line-IsValid zero k v = v
kill_line-IsValid (suc n) k v = elim (Bool-cases (k.e == k.w)) [
  | inl at ↦ rw at v
  | inr off ↦ elim (Bool-cases (get_or k.buf (sub32 k.e 1 % input_buf) 0 == 10)) [
    | inl nl ↦ rw (off, nl) v
    | inr other ↦ rw (off, other) (kill_line-IsValid n _ (erase-IsValid k v off))
  ]
]

insert-IsValid : (c : ℕ) (k : Cons) → IsValid k → sub32 k.e k.r < input_buf → IsValid (insert c k)
insert-IsValid c k v room = record {
  storage = omega (arith, length-set k.buf (k.e % input_buf) c, v.storage);
  reads = v.reads;
  writes = v.writes;
  edits = omega arith;
  ordered = omega (arith, v.reads, v.writes, v.edits, v.ordered, room);
  bounded = omega (arith, v.reads, v.writes, v.edits, v.ordered, room);
}

commit-IsValid : (k : Cons) → IsValid k → IsValid (record k { w = k.e })
commit-IsValid k v = record {
  storage = v.storage;
  reads = v.reads;
  writes = v.edits;
  edits = v.edits;
  ordered = omega arith;
  bounded = v.bounded;
}

accept-IsValid :
    (c : ℕ) (k : Cons) → IsValid k → sub32 k.e k.r < input_buf → IsValid (accept c k).cons
accept-IsValid c k v room = elim (Bool-cases (ends_line c (insert c k))) [
  | inl h ↦ rw h (commit-IsValid (insert c k) (insert-IsValid c k v room))
  | inr h ↦ rw h (insert-IsValid c k v room)
]

backspace-IsValid : (k : Cons) → IsValid k → IsValid (backspace k).cons
backspace-IsValid k v = elim (Bool-cases (k.e == k.w)) [
  | inl at ↦ rw at v
  | inr off ↦ rw off (erase-IsValid k v off)
]

-- Whatever character comes in, `consoleintr` keeps the indices of the ring in order: the line that
-- is edited starts where the readers' bytes end, and the ring never overflows.
pub consoleintr-IsValid : (c : ℕ) (k : Cons) → IsValid k → IsValid (consoleintr c k).cons
unfolding consoleintr
consoleintr-IsValid c k v = elim (Bool-cases (c == 16)) [
  | inl p ↦ rw p v
  | inr p ↦ elim (Bool-cases (c == 21)) [
    | inl u ↦ rw (p, u) (kill_line-IsValid (sub32 k.e k.w) k v)
    | inr u ↦ elim (Bool-cases ((c == 8) || (c == 127))) [
      | inl b ↦ rw (p, u, b) (backspace-IsValid k v)
      | inr b ↦ elim (Bool-cases (not (c == 0) && ltb (sub32 k.e k.r) input_buf)) [
        | inl d ↦ rw (p, u, b, d) (accept-IsValid (if c == 13 then 10 else c) k v (ground arith))
        | inr d ↦ rw (p, u, b, d) v
      ]
    ]
  ]
]

-- Where kill line stops.
abbrev pub IsErased : Cons → Cons → Type 0
IsErased k k' =
    (k'.w ≡ k.w)
    × (k'.r ≡ k.r)
    × (k'.buf ≡ k.buf)
    × ((k'.e ≡ k.w) ⊎ (get_or k.buf (sub32 k'.e 1 % input_buf) 0 ≡ 10))

erase_closer :
    (k : Cons) (n : ℕ)
    → IsValid k
    → (k.e == k.w) ≡ false
    → sub32 k.e k.w ≤ suc n
    → sub32 (sub32 k.e 1) k.w ≤ n
erase_closer k n v ne le =
    let d : (k.e < k.w) ⊎ (k.w < k.e) = ground arith in omega (arith, v.writes, v.edits, le)

kill_line-IsErased :
    (n : ℕ) (k : Cons) → IsValid k → sub32 k.e k.w ≤ n → IsErased k (kill_line n k).0
unfolding kill_line
kill_line-IsErased zero k v le = (refl, refl, refl, inl (omega (arith, v.writes, v.edits, le)))
kill_line-IsErased (suc n) k v le = elim (Bool-cases (k.e == k.w)) [
  | inl at ↦ rw at (refl, refl, refl, inl (ground arith))
  | inr off ↦ elim (Bool-cases (get_or k.buf (sub32 k.e 1 % input_buf) 0 == 10)) [
    | inl nl ↦ rw (off, nl) (refl, refl, refl, inr (ground arith))
    | inr other ↦
        rw (off, other) (kill_line-IsErased n _ (erase-IsValid k v off) (erase_closer k n v off le))
  ]
]

-- Kill line erases back to the start of the edited text or to a newline, and moves no other index.
-- The bound on its loop is enough.
pub consoleintr_kill : (k : Cons) → IsValid k → IsErased k (consoleintr 21 k).cons
unfolding consoleintr
consoleintr_kill k v = kill_line-IsErased (sub32 k.e k.w) k v (omega arith)

-- What holds of the console after a stretch of `consoleread`.
abbrev pub Kept : ℕ → LineEnd → Type 0
Kept target LineEnd.killed = Unit {0}
Kept target (LineEnd.waits n out k) = IsValid k × (k.r ≡ k.w) × (length out + n ≡ target)
Kept target (LineEnd.got n out k) = IsValid k × (n ≤ target) × (length out ≡ n)

advance-IsValid :
    (k : Cons) → IsValid k → (k.r == k.w) ≡ false → IsValid (record k { r = add32 k.r 1 })
advance-IsValid k v ne =
    let d : (k.r < k.w) ⊎ (k.w < k.r) = ground arith in
    record {
      storage = v.storage;
      reads = omega arith;
      writes = v.writes;
      edits = v.edits;
      ordered = omega (arith, v.reads, v.writes, v.edits, v.ordered, v.bounded);
      bounded = omega (arith, v.reads, v.writes, v.edits, v.ordered, v.bounded);
    }

back-IsValid : (k : Cons) → IsValid k → IsValid (record k { r = sub32 (add32 k.r 1) 1 })
back-IsValid k v = let same : sub32 (add32 k.r 1) 1 ≡ k.r = omega (arith, v.reads) in rw same v

read_line-Kept :
    (is_killed : Bool) (copyout : ℕ → Bool) (target n : ℕ) (out : List ℕ) (k : Cons)
    → IsValid k
    → length out + n ≡ target
    → Kept target (read_line is_killed copyout target n out k)
unfolding read_line
read_line-Kept is_killed copyout target zero out k v h = (v, omega arith, omega arith)
read_line-Kept is_killed copyout target (suc n) out k v h = elim (Bool-cases (k.r == k.w)) [
  | inl empty ↦ elim (Bool-cases is_killed) [
    | inl dead ↦ rw (empty, dead, read_line) tt
    | inr alive ↦ rw (empty, alive, read_line) (v, ground arith, h)
  ]
  | inr some_left ↦
      let v' = advance-IsValid k v some_left in
      let c = get_or k.buf (k.r % input_buf) 0 in
      let grown = length-append out (c ∷ []) in
      elim (Bool-cases (c == 4)) [
        | inl eof ↦ elim (Bool-cases (ltb (suc n) target)) [
          | inl later ↦
              rw (some_left, eof, later, read_line) (back-IsValid k v, omega arith, omega arith)
          | inr first ↦ rw (some_left, eof, first, read_line) (v', omega arith, omega arith)
        ]
        | inr no_eof ↦ elim (Bool-cases (copyout (length out))) [
          | inr bad ↦ rw (some_left, no_eof, bad, read_line) (v', omega arith, omega arith)
          | inl good ↦ elim (Bool-cases (c == 10)) [
            | inl nl ↦ rw (some_left, no_eof, good, nl, read_line) (v', omega arith, omega arith)
            | inr more ↦
                rw (some_left, no_eof, good, more, read_line)
                  (read_line-Kept is_killed copyout target n (out ++ (c ∷ [])) _ v' (omega arith))
          ]
        ]
      ]
]

-- `consoleread` keeps the indices in order and sleeps only when no finished line is left. It returns
-- at most the count asked for, and has delivered as many bytes as it returns.
pub consoleread-Kept :
    (is_killed : Bool) (copyout : ℕ → Bool) (n : ℕ) (k : Cons)
    → IsValid k
    → Kept n (consoleread is_killed copyout n k)
unfolding consoleread
consoleread-Kept is_killed copyout n k v = read_line-Kept is_killed copyout n n [] k v (omega arith)
