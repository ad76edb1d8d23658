-- ===== src/File/Tests.antt =====
-- The theorems on the file table at a concrete table.
use cs202_lab.Prelude.{ℕ, ◌+◌, ◌≡◌, ◌⊎◌, true, List, [], ◌∷◌, Option, none, some, arith, all_of}
use cs202_lab.File.{Call, File, FileType, write_inode}
use cs202_lab.File.Chunks.{fits_op, in_order, total, write_inode_lem}

abbrev entry : FileType → ℕ → File
entry k n = record {
  kind = k;
  ref = n;
  readable = true;
  writable = true;
  pipe = 0x80010000;
  ip = 7;
  off = 0;
  major = 0;
}

abbrev files : List File
files = entry FileType.fd_pipe 1 ∷ entry FileType.fd_inode 2 ∷ entry FileType.fd_none 0 ∷ []

-- A disk that takes every write: 5000 bytes go in two transactions.
write_inode_lem_example :
    (stop : ℕ) × (ret : Option ℕ) × (calls : List Call) × (write_inode
        (λ a off n. some n)
        5001
        4096
        700
        5000
      ≡ some (stop, (ret, calls)))
    × (all_of fits_op calls ≡ true)
    × (in_order 4096 700 calls ≡ true)
    × (((ret ≡ some 5000) × (stop ≡ 700 + 5000) × (total calls ≡ 5000)) ⊎ (ret ≡ none))
write_inode_lem_example = write_inode_lem (λ a off n. some n) 5001 4096 700 5000 (omega arith)
