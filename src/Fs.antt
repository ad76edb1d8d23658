-- ===== src/Fs.antt =====
-- Parts of kernel/fs.c. Fs/Blocks and Fs/Bmap have the blocks of the disk and of a file. This file has
-- the table of in-memory inodes behind `iget` and `idup`, and `skipelem`, on
-- the bytes of a path up to its terminator. The name that `skipelem` copies is a list of bytes; one
-- that is shorter than DIRSIZ has its terminator behind it.
pub mod Itable
pub mod Path
pub mod Blocks
pub mod Bits
pub mod Marks
pub mod Bmap
pub mod Slots
pub mod Stable
pub mod Truncate
pub mod Rw
pub mod Sound
pub mod Growth
pub mod Free
pub mod Extend
pub mod Bmapped
pub mod Put
pub mod Touched
pub mod Round
pub mod Write
pub mod Written
pub mod RoundTrip
pub mod Read
pub mod Room
pub mod Words
mod Tests
use cs202_lab.Prelude.{
  ℕ, zero, suc, Bool, true, false, List, [], ◌∷◌, ◌==◌, ◌&&◌, slt, Option, none, some,
  if◌then◌else◌, modify, add32, take,
}

-- The fields of `struct inode` that the table's lock guards, and `valid`.
pub record Inode : Type 0 where
  pub dev : ℕ
  pub inum : ℕ
  pub ref : ℕ
  pub valid : Bool

-- Where the loop of `iget` ends: at an entry for the inode, with an empty slot, or with neither.
pub data Place : Type 0 where
  hit empty : ℕ → Place
  full : Place

abbrev pub holds_inode : ℕ → ℕ → Inode → Bool
holds_inode dev' inum' ip = slt 0 ip.ref && ((ip.dev == dev') && (ip.inum == inum'))

-- `empty`, after a look at slot `i`.
abbrev pub remember : Option ℕ → ℕ → Inode → Option ℕ
remember (some j) i ip = some j
remember none i ip = if ip.ref == 0 then some i else none

abbrev pub place_of : Option ℕ → Place
place_of none = Place.full
place_of (some j) = Place.empty j

unfoldable pub find_inode : ℕ → ℕ → ℕ → Option ℕ → List Inode → Place
find_inode dev' inum' i slot [] = place_of slot
find_inode dev' inum' i slot (ip ∷ ips) =
    let more = find_inode dev' inum' (suc i) (remember slot i ip) ips in
    if holds_inode dev' inum' ip then Place.hit i else more

-- `iget`: `none` is the panic.
abbrev pub use_place : ℕ → ℕ → List Inode → Place → Option (ℕ × List Inode)
use_place dev' inum' ips (Place.hit i) =
    some (i, modify ips i (λ ip. record ip { ref = add32 ip.ref 1 }))
use_place dev' inum' ips (Place.empty i) =
    some (i, modify ips i (λ ip. record { dev = dev'; inum = inum'; ref = 1; valid = false }))
use_place dev' inum' ips Place.full = none

unfoldable pub iget : ℕ → ℕ → List Inode → Option (ℕ × List Inode)
unfolding find_inode
iget dev' inum' ips = use_place dev' inum' ips (find_inode dev' inum' 0 none ips)

unfoldable pub idup : ℕ → List Inode → List Inode
idup i ips = modify ips i (λ ip. record ip { ref = add32 ip.ref 1 })

abbrev pub dirsiz : ℕ
dirsiz = 14

abbrev pub is_slash : ℕ → Bool
is_slash c = c == 47

unfoldable pub drop_slashes : List ℕ → List ℕ
drop_slashes [] = []
drop_slashes (c ∷ path) = let rest = drop_slashes path in if is_slash c then rest else c ∷ path

-- The second loop: the bytes it passes, and the path behind them.
unfoldable pub element : List ℕ → List ℕ
element [] = []
element (c ∷ path) = let rest = element path in if is_slash c then [] else c ∷ rest

unfoldable pub after_element : List ℕ → List ℕ
after_element [] = []
after_element (c ∷ path) = let rest = after_element path in if is_slash c then c ∷ path else rest

-- `skipelem`: the path behind the element and the name, or the null pointer.
abbrev pub skip_from : List ℕ → Option (List ℕ × List ℕ)
skip_from [] = none
skip_from (c ∷ path) =
    some (drop_slashes (after_element (c ∷ path)), take dirsiz (element (c ∷ path)))

unfoldable pub skipelem : List ℕ → Option (List ℕ × List ℕ)
unfolding drop_slashes element after_element
skipelem path = skip_from (drop_slashes path)
