-- ===== src/Virtio/Chain.antt =====
-- `alloc3_desc`, which takes three descriptors or gives back what it took.
use cs202_lab.Prelude.{
  ℕ, ◌<◌, ◌≡◌, ◌≢◌, ◌⊎◌, refl, ap, ◌∙◌, true, false, List, [], ◌∷◌, ◌==◌, Option, none, some, arith,
}
use cs202_lab.Virtio.{
  num, Driver, store, find_free, freed, free_desc, free_each, alloc_each, alloc3_desc, empty_desc,
}
use cs202_lab.Virtio.Marks.{
  Alloced, Found, after, find_free-Found, free_desc_taken, given_back, gone, only_two, stays-IsBack,
  still_free, store_cases, store_ne, two-IsBack,
}

free_each_cons :
    (i : ℕ) (idx : List ℕ) (s s' : Driver)
    → free_desc i s ≡ some s'
    → free_each (i ∷ idx) s ≡ free_each idx s'
unfolding free_each
free_each_cons i idx s s' e = rw e refl

free_each_nil : (s : Driver) → free_each [] s ≡ some s
unfolding free_each
free_each_nil s = refl

-- The third descriptor.
third :
    (a b : ℕ) (s : Driver) (o : Option ℕ)
    → find_free num 0 (store b false (store a false s.free)) ≡ o
    → Found num 0 (store b false (store a false s.free)) o
    → a < num
    → b < num
    → s.free a ≡ true
    → s.free b ≡ true
    → a ≢ b
    → Alloced s (alloc_each 1 (a ∷ b ∷ []) (after b (after a s)))
unfolding alloc_each
third a b s none e f la lb fa fb ne =
    let not_a : (a == b) ≡ false = ground arith in
    let not_b : (b == a) ≡ false = ground arith in
    let self_a : (a == a) ≡ true = ground arith in
    let self : (b == b) ≡ true = ground arith in
    let s2 = after b (after a s) in
    let back : free_each (a ∷ b ∷ []) s2 ≡ some (freed b (freed a s2)) =
      free_each_cons a (b ∷ []) s2 (freed a s2) (free_desc_taken a s2 la (rw (not_a, self_a) refl))
      ∙ free_each_cons b [] (freed a s2) _
          (free_desc_taken b (freed a s2) lb (rw (not_b, self) refl))
      ∙ free_each_nil _ in
    let among : (i : ℕ) → i < num → s.free i ≡ true → (i ≡ a) ⊎ (i ≡ b) =
      λ i lt free. only_two a b i s.free (f i (omega arith) lt) free in
    rw (e, back)
      (
        (λ i j k t. ground (
          arith,
          among i t.low_a t.free_a,
          among j t.low_b t.free_b,
          among k t.low_c t.free_c,
          t.ne_ab,
          t.ne_ac,
          t.ne_bc,
        )),
        two-IsBack a b s fa fb,
      )
third a b s (some c) e (fc, lc) la lb fa fb ne =
    let (ne_bc, f1) = still_free b c (store a false s.free) fc in
    let (ne_ac, free_c) = still_free a c s.free f1 in
    rw e (
      a,
      b,
      c,
      record {
        low_a = la;
        low_b = lb;
        low_c = lc;
        free_a = fa;
        free_b = fb;
        free_c = free_c;
        ne_ab = ne;
        ne_ac = ne_ac;
        ne_bc = ne_bc;
      },
      refl,
      refl,
    )

-- The second.
second :
    (a : ℕ) (s : Driver) (o : Option ℕ)
    → find_free num 0 (store a false s.free) ≡ o
    → Found num 0 (store a false s.free) o
    → a < num
    → s.free a ≡ true
    → Alloced s (alloc_each 2 (a ∷ []) (after a s))
unfolding alloc_each
second a s none e f la fa =
    let self : (a == a) ≡ true = ground arith in
    let back : free_each (a ∷ []) (after a s) ≡ some (freed a (after a s)) =
      free_each_cons a [] (after a s) _ (free_desc_taken a (after a s) la (rw self refl))
      ∙ free_each_nil _ in
    let among : (i : ℕ) → i < num → s.free i ≡ true → i ≡ a =
      λ i lt free. gone a i s.free (f i (omega arith) lt) free in
    rw (e, back)
      (
        (λ i j k t. omega (arith, among i t.low_a t.free_a, among j t.low_b t.free_b, t.ne_ab)),
        record {
          marks =
              λ i. given_back a i s.free (store a false s.free) fa (store_cases a i false s.free);
          descs = λ i g. store_ne a i empty_desc s.desc (λ z. ground (arith, ap s.free z));
          busy = refl;
          info = refl;
          avail_idx = refl;
        },
      )
second a s (some b) e (fb, lb) la fa =
    let (ne, free_b) = still_free a b s.free fb in
    rw e (third a b s _ refl (find_free-Found num 0 _) la lb fa free_b ne)

-- From any state, `alloc3_desc` takes three different free descriptors. Where there are no three, it
-- gives back what it had taken, and returns -1. It never panics.
pub alloc3_desc_lem : (s : Driver) → Alloced s (alloc3_desc s)
unfolding alloc3_desc alloc_each
alloc3_desc_lem s = first (find_free num 0 s.free) refl (find_free-Found num 0 s.free)
  where
    first :
        (o : Option ℕ)
        → find_free num 0 s.free ≡ o
        → Found num 0 s.free o
        → Alloced s (alloc_each 3 [] s)
    first none e f =
        rw (e, free_each_nil s)
          ((λ i j k t. ground (arith, f i (omega arith) t.low_a, t.free_a)), stays-IsBack s)
    first (some a) e (fa, la) = rw e (second a s _ refl (find_free-Found num 0 _) la fa)
