-- ===== src/Bio/Tests.antt =====
-- Runs of the buffer cache, and the theorems at a concrete cache.
use cs202_lab.Prelude.{
  ℕ, ◌≡◌, ◌⊎◌, refl, true, false, not, List, [], ◌∷◌, ◌==◌, none, some, any_of, all_of, arith,
}
use cs202_lab.Bio.{Buf, has_key, bget}
use cs202_lab.Bio.Cache.{Unique, Hit, Recycle, bget_lem}

abbrev buffer : ℕ → ℕ → ℕ → Buf
buffer i n count = record { slot = i; valid = true; dev = 1; blockno = n; refcnt = count }

-- Block 7 is in use, and block 9 is cached.
abbrev cache : List Buf
cache = buffer 0 7 1 ∷ buffer 1 9 0 ∷ []

bget_run : bget 1 8 cache ≡ some (1, buffer 0 7 1 ∷ record (buffer 1 8 1) { valid = false } ∷ [])
unfolding bget
bget_run = refl

bget_lem_example :
    ((r : ℕ × List Buf) × (bget 1 9 cache ≡ some r) × Hit 1 9 cache r)
    ⊎ (((any_of (has_key 1 9) cache ≡ false)
          × (r : ℕ × List Buf) × (bget 1 9 cache ≡ some r)
          × Recycle 1 9 cache r)
        ⊎ ((any_of (has_key 1 9) cache ≡ false)
            × (all_of (λ b. not (b.refcnt == 0)) cache ≡ true)
            × (bget 1 9 cache ≡ none)))
bget_lem_example = bget_lem 1 9 cache

cache-Unique : Unique cache
cache-Unique d n ne = ground arith
