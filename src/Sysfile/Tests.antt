-- ===== src/Sysfile/Tests.antt =====
-- A duplicated descriptor, and the theorem at it.
use cs202_lab.Prelude.{◌≡◌, refl, true, [], ◌∷◌, none, some, replicate, arith}
use cs202_lab.File.{File, FileType}
use cs202_lab.Sysfile.{Fds, argfd, sys_dup}
use cs202_lab.Sysfile.Descriptors.{Duplicated, sys_dup-sys_close}

abbrev console_file : File
console_file = record {
  kind = FileType.fd_device;
  ref = 3;
  readable = true;
  writable = true;
  pipe = 0;
  ip = 5;
  off = 0;
  major = 1;
}

-- Descriptor 2 is open, and 0 is the first that is not.
abbrev fds : Fds
fds = record { ofile = none ∷ none ∷ some 0 ∷ replicate 13 none; files = console_file ∷ [] }

argfd_run : argfd 2 fds ≡ some 0
unfolding argfd
argfd_run = refl

sys_dup-sys_close_example : Duplicated 0 fds (sys_dup 2 fds)
sys_dup-sys_close_example =
    sys_dup-sys_close 2 0 fds console_file refl argfd_run refl (omega arith) (omega arith)
