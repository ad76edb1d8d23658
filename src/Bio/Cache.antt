-- ===== src/Bio/Cache.antt =====
-- A block has at most one buffer, and no buffer in use is given to another block.
use cs202_lab.Prelude.{
  ℕ, ◌+◌, ◌<◌, ◌≤◌, ◌≡◌, ◌≢◌, ◌⊎◌, inl, inr, refl, true, false, not, List, [], ◌∷◌, ◌==◌, ◌&&◌,
  none, some, if◌then◌else◌, arith, any_of, all_of, Bool-cases, Option-cases, ap, add32, ◌++◌,
}
use cs202_lab.Bio.{Buf, has_key, find_cached, recycled, recycle, bget}

-- How many buffers hold the block.
abbrev pub copies : ℕ → ℕ → List Buf → ℕ
copies d n [] = 0
copies d n (b ∷ bs) = (if has_key d n b then 1 else 0) + copies d n bs

-- No block of a device other than 0, the device of the empty buffers, has two buffers.
abbrev pub Unique : List Buf → Type 0
Unique bs = (d n : ℕ) → d ≢ 0 → copies d n bs ≤ 1

copies-found :
    (d n d' n' : ℕ) (bs : List Buf) {r : ℕ × List Buf}
    → find_cached d n bs ≡ some r
    → (copies d' n' r.1 ≡ copies d' n' bs) × (0 < copies d n bs)
unfolding find_cached
copies-found d n d' n' [] e = absurd (ground arith)
copies-found d n d' n' (b ∷ bs) e = elim (Bool-cases (has_key d n b)) [
  | inl h ↦ ground arith
  | inr h ↦ elim (Option-cases (find_cached d n bs)) [
    | inl z ↦ absurd (ground arith)
    | inr (r', f) ↦ ground (arith, copies-found d n d' n' bs f)
  ]
]

copies-none : (d n : ℕ) (bs : List Buf) → find_cached d n bs ≡ none → copies d n bs ≡ 0
unfolding find_cached
copies-none d n [] e = refl
copies-none d n (b ∷ bs) e = elim (Bool-cases (has_key d n b)) [
  | inl h ↦ absurd (ground arith)
  | inr h ↦ elim (Option-cases (find_cached d n bs)) [
    | inl z ↦ ground (arith, copies-none d n bs z)
    | inr (r', f) ↦ absurd (ground arith)
  ]
]

copies-recycled :
    (d n d' n' : ℕ) (bs : List Buf) {r : ℕ × List Buf}
    → recycle d n bs ≡ some r
    → copies d' n' r.1 ≤ copies d' n' bs + (if (d == d') && (n == n') then 1 else 0)
unfolding recycle
copies-recycled d n d' n' [] e = absurd (ground arith)
copies-recycled d n d' n' (b ∷ bs) e = elim (Option-cases (recycle d n bs)) [
  | inl z ↦ ground arith
  | inr (r', f) ↦ ground (arith, copies-recycled d n d' n' bs f)
]

-- `bget` leaves every block with at most one buffer, and the block asked for with exactly one.
pub bget-Unique :
    (d n : ℕ) (bs : List Buf) {r : ℕ × List Buf}
    → d ≢ 0
    → Unique bs
    → bget d n bs ≡ some r
    → Unique r.1
unfolding bget
bget-Unique d n bs nz u e d' n' nz' = elim (Option-cases (find_cached d n bs)) [
  | inl z ↦
      ground
        (arith, copies-recycled d n d' n' bs (rw (z, bget) at e), copies-none d n bs z, u d' n' nz')
  | inr (r', f) ↦ ground (arith, copies-found d n d' n' bs f, u d' n' nz')
]

-- The block is in the cache: the first buffer that holds it, with one user more.
pub record Hit (d n : ℕ) (bs : List Buf) (r : ℕ × List Buf) : Type 0 where
  pub pre : List Buf
  pub post : List Buf
  pub buf : Buf
  pub split : bs ≡ pre ++ (buf ∷ post)
  pub key : has_key d n buf ≡ true
  pub first : any_of (has_key d n) pre ≡ false
  pub result : r ≡ (buf.slot, pre ++ (record buf { refcnt = add32 buf.refcnt 1 } ∷ post))

-- It is not: the last buffer of the list that nobody uses now stands for it.
pub record Recycle (d n : ℕ) (bs : List Buf) (r : ℕ × List Buf) : Type 0 where
  pub pre : List Buf
  pub post : List Buf
  pub buf : Buf
  pub split : bs ≡ pre ++ (buf ∷ post)
  pub free : buf.refcnt ≡ 0
  pub last : all_of (λ b. not (b.refcnt == 0)) post ≡ true
  pub result : r ≡ (buf.slot, pre ++ (recycled d n buf ∷ post))

find_cached_lem :
    (d n : ℕ) (bs : List Buf)
    → ((find_cached d n bs ≡ none) × (any_of (has_key d n) bs ≡ false))
      ⊎ ((r : ℕ × List Buf) × (find_cached d n bs ≡ some r) × Hit d n bs r)
unfolding find_cached
find_cached_lem d n [] = inl (refl, refl)
find_cached_lem d n (b ∷ bs) = elim (Bool-cases (has_key d n b)) [
  | inl h ↦ inr (
    (b.slot, record b { refcnt = add32 b.refcnt 1 } ∷ bs),
    rw (h, find_cached) refl,
    record { pre = []; post = bs; buf = b; split = refl; key = h; first = refl; result = refl },
  )
  | inr h ↦ elim (find_cached_lem d n bs) [
    | inl (e, others) ↦ inl (rw (h, e, find_cached) refl, rw h others)
    | inr (r, e, hit) ↦ inr (
      (r.0, b ∷ r.1),
      rw (h, e, find_cached) refl,
      record {
        pre = b ∷ hit.pre;
        post = hit.post;
        buf = hit.buf;
        split = ap (λ l. b ∷ l) hit.split;
        key = hit.key;
        first = rw h hit.first;
        result = ap (λ q. (q.0, b ∷ q.1)) hit.result;
      },
    )
  ]
]

recycle_lem :
    (d n : ℕ) (bs : List Buf)
    → ((recycle d n bs ≡ none) × (all_of (λ b. not (b.refcnt == 0)) bs ≡ true))
      ⊎ ((r : ℕ × List Buf) × (recycle d n bs ≡ some r) × Recycle d n bs r)
unfolding recycle
recycle_lem d n [] = inl (refl, refl)
recycle_lem d n (b ∷ bs) = elim (recycle_lem d n bs) [
  | inl (e, busy) ↦ elim (Bool-cases (b.refcnt == 0)) [
    | inl z ↦ inr (
      (b.slot, recycled d n b ∷ bs),
      rw (e, recycle, z) refl,
      record {
        pre = [];
        post = bs;
        buf = b;
        split = refl;
        free = ground arith;
        last = busy;
        result = refl;
      },
    )
    | inr p ↦ inl (rw (e, recycle, p) refl, rw p busy)
  ]
  | inr (r, e, got) ↦ inr (
    (r.0, b ∷ r.1),
    rw (e, recycle) refl,
    record {
      pre = b ∷ got.pre;
      post = got.post;
      buf = got.buf;
      split = ap (λ l. b ∷ l) got.split;
      free = got.free;
      last = got.last;
      result = ap (λ q. (q.0, b ∷ q.1)) got.result;
    },
  )
]

-- `bget` uses the buffer that holds the block, if one does, and counts one user more. Else it takes
-- the least recently used buffer that nobody uses, for this block alone, and panics exactly when
-- there is none. All other buffers, and the order, stay as they are.
pub bget_lem :
    (d n : ℕ) (bs : List Buf)
    → ((r : ℕ × List Buf) × (bget d n bs ≡ some r) × Hit d n bs r)
      ⊎ (((any_of (has_key d n) bs ≡ false)
            × (r : ℕ × List Buf) × (bget d n bs ≡ some r)
            × Recycle d n bs r)
          ⊎ ((any_of (has_key d n) bs ≡ false)
              × (all_of (λ b. not (b.refcnt == 0)) bs ≡ true)
              × (bget d n bs ≡ none)))
unfolding bget
bget_lem d n bs = elim (find_cached_lem d n bs) [
  | inr (r, e, hit) ↦ inl (r, rw (e, bget) refl, hit)
  | inl (e, absent) ↦ elim (recycle_lem d n bs) [
    | inr (r, f, got) ↦ inr (inl (absent, r, rw (e, bget) f, got))
    | inl (f, busy) ↦ inr (inr (absent, busy, rw (e, bget) f))
  ]
]
