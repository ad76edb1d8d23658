-- ===== src/Vm/CopyIn.antt =====
-- `copyin` brings the bytes that a user address range holds.
use cs202_lab.Prelude.{
  ℕ, zero, suc, ◌+◌, ◌-◌, ◌%◌, ◌<◌, ◌≤◌, ◌≡◌, ◌≢◌, ◌⊎◌, inl, inr, refl, Bool, true, false, ◌&&◌,
  leb, ltb, Option, none, some, if◌then◌else◌, arith, ap, sym, ◌∙◌, Bool-cases,
}
use cs202_lab.Strings.{Memory, memmove}
use cs202_lab.Strings.Move.{memmove_lem}
use cs202_lab.Vm.{Vm, pg_round_down}
use cs202_lab.Vm.Unmap.{walkaddr_lem}
use cs202_lab.Vm.Copy.{chunk, at_page, copyin_loop, copyin}
use cs202_lab.Vm.Phys.{page_at, phys, page_at-bytes, page_at-same}

-- What `copyin` does, by its result: `some (false, v')` is -1.
abbrev pub CopiedIn : ℕ → ℕ → ℕ → ℕ → Vm → Option (Bool × Vm) → Type 0
CopiedIn root dst srcva len v none = ⊥
CopiedIn root dst srcva len v (some (false, v')) =
    (j : ℕ) × (j < len) × (page_at root v (srcva + j) ≡ 0)
CopiedIn root dst srcva len v (some (true, v')) =
    (a : ℕ)
    → v'.bytes a ≡ (
        if leb dst a && ltb a (dst + len)
        then v.bytes (phys root v (srcva + (a - dst)))
        else v.bytes a)

-- No byte of the range comes from the target.
abbrev pub Apart : ℕ → ℕ → ℕ → ℕ → Vm → Type 0
Apart root dst srcva len v = (i j : ℕ) → i < len → j < len → phys root v (srcva + i) ≢ dst + j

-- The bytes after one round of `n` bytes.
abbrev moved : ℕ → ℕ → ℕ → ℕ → Vm → Vm
moved pa dst srcva n v = record v {
  bytes = memmove dst (pa + (srcva - pg_round_down srcva)) n v.bytes;
}

moved-bytes :
    (root dst srcva n pa a : ℕ) (v : Vm)
    → page_at root v srcva ≡ pa
    → srcva % 4096 + n ≤ 4096
    → (moved pa dst srcva n v).bytes a ≡ (
        if leb dst a && ltb a (dst + n)
        then v.bytes (phys root v (srcva + (a - dst)))
        else v.bytes a)
moved-bytes root dst srcva n pa a v page room =
    memmove_lem dst (pa + (srcva - pg_round_down srcva)) n v.bytes a
    ∙ elim (Bool-cases (leb dst a && ltb a (dst + n))) [
      | inl h ↦
          let within : srcva % 4096 + (a - dst) < 4096 = ground (arith, room) in
          let spot : pa + (srcva - pg_round_down srcva) + (a - dst)
              ≡ phys root v (srcva + (a - dst)) =
            omega (arith, page_at-same root v srcva (a - dst) within, page) in
          rw h (ap v.bytes spot)
      | inr h ↦ rw h refl
    ]

Apart-later :
    (root dst srcva len n : ℕ) (v : Vm) (b : Memory)
    → n ≤ len
    → Apart root dst srcva len v
    → Apart root (dst + n) (srcva + n) (len - n) (record v { bytes = b })
Apart-later root dst srcva len n v b le h i j lti ltj e =
    let p = page_at-bytes root v b (srcva + n + i) in
    let q : page_at root v (srcva + (n + i)) ≡ page_at root v (srcva + n + i) =
      ap (page_at root v) (omega arith) in
    h (n + i) (n + j) (omega arith) (omega arith) (omega (arith, p, q, e))

-- A byte after the rounds that follow the first one.
then-bytes :
    (root dst srcva len n pa : ℕ) (v v' : Vm) (a : ℕ)
    → page_at root v srcva ≡ pa
    → srcva % 4096 + n ≤ 4096
    → n ≤ len
    → Apart root dst srcva len v
    → CopiedIn root (dst + n) (srcva + n) (len - n) (moved pa dst srcva n v) (some (true, v'))
    → v'.bytes a ≡ (
        if leb dst a && ltb a (dst + len)
        then v.bytes (phys root v (srcva + (a - dst)))
        else v.bytes a)
then-bytes root dst srcva len n pa v v' a page room le h c =
    c a ∙ elim (Bool-cases (leb (dst + n) a && ltb a (dst + n + (len - n)))) [
      | inl far ↦
          let p = page_at-bytes root v b (srcva + n + (a - (dst + n))) in
          let shift : srcva + n + (a - (dst + n)) ≡ srcva + (a - dst) = ground arith in
          let q = ap (page_at root v) shift in
          let spot : phys root (moved pa dst srcva n v) (srcva + n + (a - (dst + n))) ≡ from =
            omega (arith, p, q, shift) in
          let whole : (leb dst a && ltb a (dst + len)) ≡ true = ground arith in
          rw (far, whole)
            (ap b spot ∙ moved-bytes root dst srcva n pa from v page room ∙ rw (clear far) refl)
      | inr near ↦ rw near (moved-bytes root dst srcva n pa a v page room ∙ ground arith)
    ]
  where
    b : Memory
    b = (moved pa dst srcva n v).bytes

    from : ℕ
    from = phys root v (srcva + (a - dst))

    clear :
        (leb (dst + n) a && ltb a (dst + n + (len - n))) ≡ true
        → (leb dst from && ltb from (dst + n)) ≡ false
    clear far = elim (Bool-cases (leb dst from && ltb from (dst + n))) [
      | inl hit ↦
          let i : a - dst < len = ground arith in
          let j : from - dst < len = ground arith in
          let e : from ≡ dst + (from - dst) = ground arith in
          absurd (h (a - dst) (from - dst) i j e)
      | inr miss ↦ miss
    ]

then-CopiedIn :
    (root dst srcva len n pa : ℕ) (v : Vm) (o : Option (Bool × Vm))
    → page_at root v srcva ≡ pa
    → srcva % 4096 + n ≤ 4096
    → n ≤ len
    → Apart root dst srcva len v
    → CopiedIn root (dst + n) (srcva + n) (len - n) (moved pa dst srcva n v) o
    → CopiedIn root dst srcva len v o
then-CopiedIn root dst srcva len n pa v none page room le h c = c
then-CopiedIn root dst srcva len n pa v (some (false, v')) page room le h (j, lt, z) =
    let b = (moved pa dst srcva n v).bytes in
    let p = page_at-bytes root v b (srcva + n + j) in
    let q : page_at root v (srcva + (n + j)) ≡ page_at root v (srcva + n + j) =
      ap (page_at root v) (omega arith) in
    (n + j, omega arith, q ∙ sym p ∙ z)
then-CopiedIn root dst srcva len n pa v (some (true, v')) page room le h c =
    λ a. then-bytes root dst srcva len n pa v v' a page room le h c

chunk_lem :
    (va len : ℕ)
    → (0 < chunk va (suc len))
      × (chunk va (suc len) ≤ suc len)
      × (va % 4096 + chunk va (suc len) ≤ 4096)
chunk_lem va len = ground arith

-- The first test of a round.
at_page-CopiedIn :
    (root dst srcva len pa : ℕ) (v : Vm) (f : ℕ → Vm → Option (Bool × Vm))
    → page_at root v srcva ≡ pa
    → 0 < len
    → (pa ≢ 0 → CopiedIn root dst srcva len v (f pa v))
    → CopiedIn root dst srcva len v (at_page f (some (pa, v)))
at_page-CopiedIn root dst srcva len zero v f page pos h =
    (0, pos, ap (page_at root v) (omega arith) ∙ page)
at_page-CopiedIn root dst srcva len (suc pa) v f page pos h = h (λ e. omega (arith, e))

-- A round ends at the end of a page, or of the count.
chunk_end :
    (va len : ℕ)
    → (va + chunk va (suc len) ≡ pg_round_down va + 4096) ⊎ (suc len - chunk va (suc len) ≡ 0)
chunk_end va len = elim (Bool-cases (ltb (suc len) (4096 - va % 4096))) [
  | inl short ↦ inr (ground arith)
  | inr long ↦ inl (ground arith)
]

next-Apart :
    (root dst s s' len : ℕ) (v : Vm)
    → (s ≡ s') ⊎ (len ≡ 0)
    → Apart root dst s len v
    → Apart root dst s' len v
next-Apart root dst s s' zero v c h = λ i j lt lt' e. absurd (omega arith)
next-Apart root dst s s' (suc len) v (inl e) h = rw (← e) h
next-Apart root dst s s' (suc len) v (inr z) h = absurd (omega arith)

next-CopiedIn :
    (fuel root dst s s' len : ℕ) (v : Vm)
    → (s ≡ s') ⊎ (len ≡ 0)
    → CopiedIn root dst s' len v (copyin_loop fuel root dst s' len v)
    → CopiedIn root dst s len v (copyin_loop fuel root dst s' len v)
unfolding copyin_loop
next-CopiedIn fuel root dst s s' zero v c h = λ a. ground arith
next-CopiedIn fuel root dst s s' (suc len) v (inl e) h = rw e h
next-CopiedIn fuel root dst s s' (suc len) v (inr z) h = absurd (omega arith)

copyin_loop-CopiedIn :
    (fuel root dst srcva len : ℕ) (v : Vm)
    → len ≤ fuel
    → Apart root dst srcva len v
    → CopiedIn root dst srcva len v (copyin_loop fuel root dst srcva len v)
unfolding copyin_loop
copyin_loop-CopiedIn fuel root dst srcva zero v le h = λ a. ground arith
copyin_loop-CopiedIn zero root dst srcva (suc len) v le h = absurd (omega arith)
copyin_loop-CopiedIn (suc fuel) root dst srcva (suc len) v le h =
    let n = chunk srcva (suc len) in
    let va0 = pg_round_down srcva in
    let pa = page_at root v srcva in
    let (pos, fits, room) = chunk_lem srcva len in
    rw (walkaddr_lem root va0 v) (
      at_page-CopiedIn root dst srcva (suc len) pa v
        (λ pa' w.
          copyin_loop fuel root (dst + n) (va0 + 4096) (suc len - n) (moved pa' dst srcva n w))
        refl (omega arith)
        (λ ne. then-CopiedIn root dst srcva (suc len) n pa v _ refl room fits h (
          next-CopiedIn fuel root (dst + n) (srcva + n) (va0 + 4096) (suc len - n)
            (moved pa dst srcva n v) (chunk_end srcva len)
            (copyin_loop-CopiedIn fuel root (dst + n) (va0 + 4096) (suc len - n)
              (moved pa dst srcva n v) (omega arith)
              (next-Apart root (dst + n) (srcva + n) (va0 + 4096) (suc len - n)
                (moved pa dst srcva n v) (chunk_end srcva len)
                (Apart-later root dst srcva (suc len) n v _ fits h))))))

-- `copyin` always returns. It returns -1 only if some byte of the range is in no user page; else it
-- leaves at `dst` the bytes that the user's range held before, and changes no other byte, provided that
-- no byte of the range comes from the target.
pub copyin_lem :
    (root dst srcva len : ℕ) (v : Vm)
    → Apart root dst srcva len v
    → CopiedIn root dst srcva len v (copyin root dst srcva len v)
unfolding copyin
copyin_lem root dst srcva len v h = copyin_loop-CopiedIn len root dst srcva len v (omega arith) h
