-- ===== src/Sysfile/Descriptors.antt =====
-- A descriptor from `sys_dup` is a new name of the file, which `sys_close` takes back.
use cs202_lab.Prelude.{
  ℕ, ◌+◌, ◌^◌, ◌<◌, ◌≡◌, refl, ap, ◌∙◌, Bool, true, false, not, List, [], ◌∷◌, ◌||◌, slt, Option,
  none, some, get_or, get_elem?, set, length, all_of, arith,
}
use cs202_lab.File.{File, Release}
use cs202_lab.File.Table.{filedup-fileclose}
use cs202_lab.Sysfile.{
  Fds, nofile, argfd, later, fdalloc, with_files, give_file, dup_file, closed, close_file, sys_dup,
  sys_close,
}

abbrev pub is_some : Option ℕ → Bool
is_some none = false
is_some (some f) = true

-- What `fdalloc` does.
abbrev Allocated : ℕ → List (Option ℕ) → Option (ℕ × List (Option ℕ)) → Type 0
Allocated f o none = all_of is_some o ≡ true
Allocated f o (some (fd, o')) =
    (fd < length o) × (get_or o' fd none ≡ some f) × (set o' fd none ≡ o)

later-Allocated :
    (f g : ℕ) (o : List (Option ℕ)) (r : Option (ℕ × List (Option ℕ)))
    → Allocated f o r
    → Allocated f (some g ∷ o) (later (some g) r)
later-Allocated f g o none h = h
later-Allocated f g o (some (fd, o')) (lt, at, back) =
    (omega (arith, lt), at, ap (λ x. some g ∷ x) back)

fdalloc-Allocated : (f : ℕ) (o : List (Option ℕ)) → Allocated f o (fdalloc f o)
unfolding fdalloc
fdalloc-Allocated f [] = refl
fdalloc-Allocated f (none ∷ o) = (omega arith, refl, refl)
fdalloc-Allocated f (some g ∷ o) = later-Allocated f g o (fdalloc f o) (fdalloc-Allocated f o)

-- `sys_dup` of a descriptor `n`, followed by `sys_close` of the new one, by the result of `sys_dup`.
abbrev pub Duplicated : ℕ → Fds → Option (Option ℕ × Fds) → Type 0
Duplicated f s none = ⊥
Duplicated f s (some (none, s')) = (all_of is_some s.ofile ≡ true) × (s' ≡ s)
Duplicated f s (some (some fd, s')) =
    (argfd fd s' ≡ some f) × (sys_close fd s' ≡ some (some Release.nothing, s))

argfd-low : (fd : ℕ) (s : Fds) → fd < nofile → argfd fd s ≡ get_or s.ofile fd none
unfolding argfd
argfd-low fd s lt =
    let inside : (slt fd 0 || not (slt fd nofile)) ≡ false = ground arith in rw inside refl

give_file-Duplicated :
    (f : ℕ) (s : Fds) (file : File) (r : Option (ℕ × List (Option ℕ)))
    → length s.ofile ≡ nofile
    → get_elem? s.files f ≡ some file
    → 0 < file.ref
    → file.ref + 1 < 2 ^ 31
    → Allocated f s.ofile r
    → Duplicated f s (give_file f s r)
unfolding sys_close
give_file-Duplicated f s file none len at pos room full = (full, refl)
give_file-Duplicated f s file (some (fd, o)) len at pos room (lt, has, back) =
    let (fs, up, down) = filedup-fileclose f s.files at pos room in
    let s' : Fds = record { ofile = o; files = fs } in
    let found : argfd fd s' ≡ some f = argfd-low fd s' (omega (arith, lt, len)) ∙ has in
    let step : give_file f s (some (fd, o)) ≡ some (some fd, s') = ap (with_files fd o) up in
    let shut : sys_close fd s' ≡ some (some Release.nothing, s) =
      ap (close_file fd s') found
      ∙ ap (closed (set o fd none)) down
      ∙ ap (λ x. some (some Release.nothing, record { ofile = x; files = s.files })) back in
    rw step (found, shut)

-- In a process with NOFILE descriptors, `sys_dup` of one that is open, on a file whose count is positive
-- and does not overflow, never panics. It returns -1 only when all descriptors are open, and then
-- changes nothing. Else the new descriptor names the same file, and `sys_close` of it succeeds,
-- releases nothing and leaves descriptors and file table as they were.
pub sys_dup-sys_close :
    (n f : ℕ) (s : Fds) (file : File)
    → length s.ofile ≡ nofile
    → argfd n s ≡ some f
    → get_elem? s.files f ≡ some file
    → 0 < file.ref
    → file.ref + 1 < 2 ^ 31
    → Duplicated f s (sys_dup n s)
unfolding sys_dup
sys_dup-sys_close n f s file len has at pos room =
    let step : sys_dup n s ≡ give_file f s (fdalloc f s.ofile) = ap (dup_file s) has in
    rw step (
      give_file-Duplicated f s file (fdalloc f s.ofile) len at pos room
        (fdalloc-Allocated f s.ofile))
