-- ===== src/File/Table.antt =====
-- Reference counts of the file table.
use cs202_lab.Prelude.{
  ℕ, zero, suc, ◌+◌, ◌^◌, ◌<◌, ◌≡◌, ◌⊎◌, inl, inr, refl, true, false, not, List, [], ◌∷◌, ◌==◌, slt,
  none, some, arith, get_elem?, modify, add32, sub32, all_of, ap, Bool-cases, get_elem?-modify_self,
  all_of,
}
use cs202_lab.File.{File, FileType, filealloc, filedup, fileclose, Release, release_of}

-- What `filealloc` has done when it returns an entry.
pub record Allocated (fs : List File) (i : ℕ) (fs' : List File) : Type 0 where
  pub file : File
  pub here : get_elem? fs i ≡ some file
  pub unused : file.ref ≡ 0
  pub table : fs' ≡ modify fs i (λ f. record f { ref = 1 })

Allocated-suc :
    (f : File) (fs fs' : List File) (i : ℕ)
    → Allocated fs i fs'
    → Allocated (f ∷ fs) (suc i) (f ∷ fs')
Allocated-suc f fs fs' i a = record {
  file = a.file;
  here = a.here;
  unused = a.unused;
  table = ap (λ gs. f ∷ gs) a.table;
}

-- `filealloc` returns the null pointer only when every entry is in use. Else it takes an unused entry,
-- gives it its first reference, and changes no other.
pub filealloc_lem :
    (fs : List File)
    → ((filealloc fs ≡ none) × (all_of (λ f. not (f.ref == 0)) fs ≡ true))
      ⊎ ((i : ℕ) × (fs' : List File) × (filealloc fs ≡ some (i, fs')) × Allocated fs i fs')
unfolding filealloc
filealloc_lem [] = inl (refl, refl)
filealloc_lem (f ∷ fs) = elim (Bool-cases (f.ref == 0)) [
  | inl free ↦ inr (
    0,
    record f { ref = 1 } ∷ fs,
    rw (free, filealloc) refl,
    record { file = f; here = refl; unused = ground arith; table = refl },
  )
  | inr used ↦ elim (filealloc_lem fs) [
    | inl (e, all) ↦ inl (rw (used, filealloc, e) refl, rw used all)
    | inr (i, fs', e, a) ↦
        inr (suc i, f ∷ fs', rw (used, filealloc, e) refl, Allocated-suc f fs fs' i a)
  ]
]

modify-twice :
    (fs : List File) (i : ℕ) (g h : File → File) {f : File}
    → get_elem? fs i ≡ some f
    → h (g f) ≡ f
    → modify (modify fs i g) i h ≡ fs
modify-twice [] i g h e same = refl
modify-twice (x ∷ xs) zero g h e same = ground arith
modify-twice (x ∷ xs) (suc i) g h e same = ap (λ ys. x ∷ ys) (modify-twice xs i g h e same)

-- A `filedup` of an entry in use and then a `fileclose` leave the table as it was and release nothing,
-- as long as the count does not overflow.
pub filedup-fileclose :
    (i : ℕ) (fs : List File) {f : File}
    → get_elem? fs i ≡ some f
    → 0 < f.ref
    → f.ref + 1 < 2 ^ 31
    → (fs' : List File) × (filedup i fs ≡ some fs') × (fileclose i fs' ≡ some (fs, Release.nothing))
unfolding filedup fileclose
filedup-fileclose i fs {f} at pos room =
    let up = λ (g : File). record g { ref = add32 g.ref 1 } in
    let down = λ (g : File). record g { ref = sub32 g.ref 1 } in
    let live : slt f.ref 1 ≡ false = ground arith in
    let live' : slt (add32 f.ref 1) 1 ≡ false = ground arith in
    let kept : slt 0 (sub32 (add32 f.ref 1) 1) ≡ true = ground arith in
    let back : sub32 (add32 f.ref 1) 1 ≡ f.ref = omega arith in
    let same : down (up f) ≡ f = ap (λ n. record f { ref = n }) back in
    (
      modify fs i up,
      rw (at, live, filedup) refl,
      rw
          (
            get_elem?-modify_self fs i up at,
            live',
            kept,
            modify-twice fs i up down at same,
            fileclose,
          )
          refl,
    )

-- The last `fileclose` of an entry frees it and releases what it stood for: its pipe end or its inode.
pub fileclose_last :
    (i : ℕ) (fs : List File) {f : File}
    → get_elem? fs i ≡ some f
    → f.ref ≡ 1
    → (fs' : List File) × (g : File) × (fileclose i fs ≡ some (fs', release_of f))
      × (get_elem? fs' i ≡ some g)
      × (g.ref ≡ 0)
unfolding fileclose
fileclose_last i fs {f} at one =
    let clear = λ (g : File). record g { ref = 0; kind = FileType.fd_none } in
    let live : slt f.ref 1 ≡ false = ground arith in
    let last : slt 0 (sub32 f.ref 1) ≡ false = ground arith in
    (
      modify fs i clear,
      clear f,
      rw (at, live, last, fileclose) refl,
      get_elem?-modify_self fs i clear at,
      refl,
    )
