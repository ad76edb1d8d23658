-- ===== src/Sysfile.antt =====
-- File descriptors of kernel/sysfile.c: `argfd`, `fdalloc`, `sys_dup` and `sys_close`, over the file
-- table of File. The system call argument is its 32-bit pattern; `argint` does not fail.
pub mod Descriptors
mod Tests
use cs202_lab.Prelude.{
  ℕ, zero, suc, Bool, true, false, not, List, [], ◌∷◌, ◌||◌, slt, Option, none, some, if◌then◌else◌,
  get_or, set,
}
use cs202_lab.File.{File, Release, filedup, fileclose}

-- `ofile` of the calling process, with the file table.
pub record Fds : Type 0 where
  pub ofile : List (Option ℕ)
  pub files : List File

-- `NOFILE`
abbrev pub nofile : ℕ
nofile = 16

-- `argfd`: the file of the descriptor, if it has one.
unfoldable pub argfd : ℕ → Fds → Option ℕ
argfd fd s = if slt fd 0 || not (slt fd nofile) then none else get_or s.ofile fd none

-- One more slot is passed over.
abbrev pub later : Option ℕ → Option (ℕ × List (Option ℕ)) → Option (ℕ × List (Option ℕ))
later x none = none
later x (some (fd, o)) = some (suc fd, x ∷ o)

-- `fdalloc`: the descriptor, and `ofile` with the file in it.
unfoldable pub fdalloc : ℕ → List (Option ℕ) → Option (ℕ × List (Option ℕ))
fdalloc f [] = none
fdalloc f (none ∷ o) = some (0, some f ∷ o)
fdalloc f (some g ∷ o) = later (some g) (fdalloc f o)

-- `sys_dup`, in its three steps: the outer `none` is a panic, the inner one is -1.
abbrev pub with_files : ℕ → List (Option ℕ) → Option (List File) → Option (Option ℕ × Fds)
with_files fd o none = none
with_files fd o (some fs) = some (some fd, record { ofile = o; files = fs })

abbrev pub give_file : ℕ → Fds → Option (ℕ × List (Option ℕ)) → Option (Option ℕ × Fds)
give_file f s none = some (none, s)
give_file f s (some (fd, o)) = with_files fd o (filedup f s.files)

abbrev pub dup_file : Fds → Option ℕ → Option (Option ℕ × Fds)
dup_file s none = some (none, s)
dup_file s (some f) = give_file f s (fdalloc f s.ofile)

unfoldable pub sys_dup : ℕ → Fds → Option (Option ℕ × Fds)
sys_dup n s = dup_file s (argfd n s)

-- `sys_close`: what is released, or -1.
abbrev pub closed : List (Option ℕ) → Option (List File × Release) → Option (Option Release × Fds)
closed o none = none
closed o (some (fs, r)) = some (some r, record { ofile = o; files = fs })

abbrev pub close_file : ℕ → Fds → Option ℕ → Option (Option Release × Fds)
close_file n s none = some (none, s)
close_file n s (some f) = closed (set s.ofile n none) (fileclose f s.files)

unfoldable pub sys_close : ℕ → Fds → Option (Option Release × Fds)
sys_close n s = close_file n s (argfd n s)
