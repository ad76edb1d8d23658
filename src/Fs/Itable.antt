-- ===== src/Fs/Itable.antt =====
-- The table of in-memory inodes has one entry for an inode.
use cs202_lab.Prelude.{
  ℕ, suc, ◌-◌, ◌≤◌, ◌≡◌, ◌⊎◌, inl, inr, refl, true, false, not, List, [], ◌∷◌, ◌==◌, Option, none,
  some, arith, any_of, all_of, modify, add32, Bool-cases, get_elem?,
}
use cs202_lab.Fs.{Inode, Place, holds_inode, remember, find_inode, use_place, iget}

-- What the loop gives from slot `i` on.
abbrev Placed : ℕ → ℕ → ℕ → Option ℕ → List Inode → Place → Type 0
Placed d n i slot ips (Place.hit j) =
    (i ≤ j) × (ip : Inode) × (get_elem? ips (j - i) ≡ some ip) × (holds_inode d n ip ≡ true)
Placed d n i slot ips (Place.empty j) =
    (any_of (holds_inode d n) ips ≡ false)
    × ((slot ≡ some j)
        ⊎ ((i ≤ j) × (ip : Inode) × (get_elem? ips (j - i) ≡ some ip) × (ip.ref ≡ 0)))
Placed d n i slot ips Place.full =
    (any_of (holds_inode d n) ips ≡ false)
    × (slot ≡ none)
    × (all_of (λ ip. not (ip.ref == 0)) ips ≡ true)

deeper :
    (ip : Inode) (ips : List Inode) (j i : ℕ) {x : Inode}
    → suc i ≤ j
    → get_elem? ips (j - suc i) ≡ some x
    → get_elem? (ip ∷ ips) (j - i) ≡ some x
deeper ip ips j i h e = let s : j - i ≡ suc (j - suc i) = omega arith in rw s e

remember-none :
    (slot : Option ℕ) (i : ℕ) (ip : Inode)
    → remember slot i ip ≡ none
    → (slot ≡ none) × ((ip.ref == 0) ≡ false)
remember-none none i ip e = (refl, ground arith)
remember-none (some j) i ip e = cc

remember-some :
    (slot : Option ℕ) (i : ℕ) (ip : Inode) {j : ℕ}
    → remember slot i ip ≡ some j
    → (slot ≡ some j) ⊎ ((i ≡ j) × (ip.ref ≡ 0))
remember-some none i ip e = inr (ground arith)
remember-some (some k) i ip e = inl e

Placed-later :
    (d n i : ℕ) (slot : Option ℕ) (ip : Inode) (ips : List Inode) (p : Place)
    → holds_inode d n ip ≡ false
    → Placed d n (suc i) (remember slot i ip) ips p
    → Placed d n i slot (ip ∷ ips) p
Placed-later d n i slot ip ips (Place.hit j) h (le, x, at, key) =
    (omega arith, x, deeper ip ips j i le at, key)
Placed-later d n i slot ip ips Place.full h (no_hit, unset, used) =
    let (a, b) = remember-none slot i ip unset in (rw h no_hit, a, rw b used)
Placed-later d n i slot ip ips (Place.empty j) h (no_hit, seen) = (
  rw h no_hit,
  elim seen [
    | inl e ↦ elim (remember-some slot i ip e) [
      | inl before ↦ inl before
      | inr (here, free) ↦ let s : j - i ≡ 0 = omega arith in inr (omega arith, ip, rw s refl, free)
    ]
    | inr (le, x, at, free) ↦ inr (omega arith, x, deeper ip ips j i le at, free)
  ],
)

find_inode-Placed :
    (d n i : ℕ) (slot : Option ℕ) (ips : List Inode)
    → Placed d n i slot ips (find_inode d n i slot ips)
unfolding find_inode
find_inode-Placed d n i none [] = (refl, refl, refl)
find_inode-Placed d n i (some j) [] = (refl, inl refl)
find_inode-Placed d n i slot (ip ∷ ips) = elim (Bool-cases (holds_inode d n ip)) [
  | inl h ↦ let s : i - i ≡ 0 = omega arith in rw (h, find_inode) (omega arith, ip, rw s refl, h)
  | inr h ↦
      rw (h, find_inode)
        (Placed-later d n i slot ip ips (find_inode d n (suc i) (remember slot i ip) ips) h
          (find_inode-Placed d n (suc i) (remember slot i ip) ips))
]

-- `iget` counts one reference more on an entry that holds the inode, if there is one. Else it takes
-- a slot that nobody refers to, and panics exactly when there is none.
pub iget_lem :
    (d n : ℕ) (ips : List Inode)
    → ((i : ℕ) × (ip : Inode) × (get_elem? ips i ≡ some ip)
        × (holds_inode d n ip ≡ true)
        × (iget d n ips ≡ some (i, modify ips i (λ x. record x { ref = add32 x.ref 1 }))))
      ⊎ (((any_of (holds_inode d n) ips ≡ false)
            × (i : ℕ) × (ip : Inode) × (get_elem? ips i ≡ some ip)
            × (ip.ref ≡ 0)
            × (iget d n ips
                ≡ some
                    (i, modify ips i (λ x. record { dev = d; inum = n; ref = 1; valid = false }))))
          ⊎ ((any_of (holds_inode d n) ips ≡ false)
              × (all_of (λ ip. not (ip.ref == 0)) ips ≡ true)
              × (iget d n ips ≡ none)))
unfolding iget
iget_lem d n ips = from (find_inode d n 0 none ips) refl (find_inode-Placed d n 0 none ips)
  where
    from :
        (p : Place)
        → find_inode d n 0 none ips ≡ p
        → Placed d n 0 none ips p
        → ((i : ℕ) × (ip : Inode) × (get_elem? ips i ≡ some ip)
            × (holds_inode d n ip ≡ true)
            × (use_place d n ips (find_inode d n 0 none ips)
                ≡ some (i, modify ips i (λ x. record x { ref = add32 x.ref 1 }))))
          ⊎ (((any_of (holds_inode d n) ips ≡ false)
                × (i : ℕ) × (ip : Inode) × (get_elem? ips i ≡ some ip)
                × (ip.ref ≡ 0)
                × (use_place d n ips (find_inode d n 0 none ips)
                    ≡ some (
                      i,
                      modify ips i (λ x. record { dev = d; inum = n; ref = 1; valid = false }),
                    )))
              ⊎ ((any_of (holds_inode d n) ips ≡ false)
                  × (all_of (λ ip. not (ip.ref == 0)) ips ≡ true)
                  × (use_place d n ips (find_inode d n 0 none ips) ≡ none)))
    from (Place.hit i) e (le, ip, at, key) =
        let s : i - 0 ≡ i = omega arith in inl (i, ip, rw s at at, key, rw e refl)
    from (Place.empty i) e (no_hit, inl bad) = absurd (ground arith)
    from (Place.empty i) e (no_hit, inr (le, ip, at, free)) =
        let s : i - 0 ≡ i = omega arith in inr (inl (no_hit, i, ip, rw s at at, free, rw e refl))
    from Place.full e (no_hit, unset, used) = inr (inr (no_hit, used, rw e refl))
