-- ===== src/Proc/Stride/Minimum.antt =====
-- `findMinStride` picks a RUNNABLE process of least pass.
use cs202_lab.Prelude.{
  ℕ, suc, ◌-◌, ◌≤◌, ◌≡◌, ◌⊎◌, inl, inr, refl, Bool, true, false, not, List, [], ◌∷◌, ◌&&◌, slt,
  Option, none, some, arith, get_elem?, all_of, Bool-cases, ap, sym, ◌∙◌,
}
use cs202_lab.Proc.{Proc, is_runnable}
use cs202_lab.Proc.Stride.{better, min_loop, find_from, pointer, find_min_stride}

-- `p` does not beat `m`: it is not RUNNABLE with positive tickets and a smaller pass.
abbrev pub no_better : Proc → Proc → Bool
no_better m p = not (is_runnable p.state && (slt 0 p.tickets && slt p.stride_pass m.stride_pass))

-- What the second loop ends with, started at index `j` of the list.
record Least (mi : ℕ) (m : Proc) (j : ℕ) (ps : List Proc) (out : ℕ × Proc) : Type 0 where
  least : all_of (no_better out.1) ps ≡ true
  keeps : (q : Proc) → no_better m q ≡ true → no_better out.1 q ≡ true
  runnable : is_runnable m.state ≡ true → is_runnable out.1.state ≡ true
  place : ((out.0 ≡ mi) × (out.1 ≡ m)) ⊎ ((j ≤ out.0) × (get_elem? ps (out.0 - j) ≡ some out.1))

slt_self : (p : Proc) → no_better p p ≡ true
slt_self p = ground arith

no_better_trans : (m p q : Proc) → better m p ≡ true → no_better m q ≡ true → no_better p q ≡ true
no_better_trans m p q h k = ground arith

no_better_of_not : (m p : Proc) → better m p ≡ false → no_better m p ≡ true
no_better_of_not m p h = ground arith

further :
    (p : Proc) (ps : List Proc) (n j : ℕ) {q : Proc}
    → suc j ≤ n
    → get_elem? ps (n - suc j) ≡ some q
    → get_elem? (p ∷ ps) (n - j) ≡ some q
further p ps n j h e = let s : n - j ≡ suc (n - suc j) = omega arith in rw s e

here : (p : Proc) (ps : List Proc) (n j : ℕ) → n ≡ j → get_elem? (p ∷ ps) (n - j) ≡ some p
here p ps n j e = let s : n - j ≡ 0 = omega arith in rw s refl

Least-take :
    (mi : ℕ) (m : Proc) (j : ℕ) (p : Proc) (ps : List Proc) (out : ℕ × Proc)
    → better m p ≡ true
    → Least j p (suc j) ps out
    → Least mi m j (p ∷ ps) out
Least-take mi m j p ps out e l = record {
  least = rw (l.keeps p (slt_self p)) l.least;
  keeps = λ q h. l.keeps q (no_better_trans m p q e h);
  runnable = λ _. l.runnable (ground arith);
  place = elim l.place [
    | inl (at, same) ↦ inr (omega arith, here p ps out.0 j at ∙ ap some (sym same))
    | inr (le, at) ↦ inr (omega arith, further p ps out.0 j le at)
  ];
}

Least-skip :
    (mi : ℕ) (m : Proc) (j : ℕ) (p : Proc) (ps : List Proc) (out : ℕ × Proc)
    → better m p ≡ false
    → Least mi m (suc j) ps out
    → Least mi m j (p ∷ ps) out
Least-skip mi m j p ps out e l = record {
  least = rw (l.keeps p (no_better_of_not m p e)) l.least;
  keeps = l.keeps;
  runnable = l.runnable;
  place = elim l.place [
    | inl same ↦ inl same
    | inr (le, at) ↦ inr (omega arith, further p ps out.0 j le at)
  ];
}

min_loop-Least : (mi : ℕ) (m : Proc) (j : ℕ) (ps : List Proc) → Least mi m j ps (min_loop mi m j ps)
unfolding min_loop
min_loop-Least mi m j [] = record {
  least = refl;
  keeps = λ q h. h;
  runnable = λ h. h;
  place = inl (refl, refl);
}
min_loop-Least mi m j (p ∷ ps) = elim (Bool-cases (better m p)) [
  | inl e ↦ rw e (Least-take mi m j p ps _ e (min_loop-Least j p (suc j) ps))
  | inr e ↦ rw e (Least-skip mi m j p ps _ e (min_loop-Least mi m (suc j) ps))
]

-- What the two loops find from index `i` on.
abbrev Picked : ℕ → List Proc → Option (ℕ × Proc) → Type 0
Picked i ps none = all_of (λ p. not (is_runnable p.state)) ps ≡ true
Picked i ps (some (n, m)) =
    (i ≤ n)
    × (get_elem? ps (n - i) ≡ some m)
    × (is_runnable m.state ≡ true)
    × (all_of (no_better m) ps ≡ true)

Picked-skip :
    (i : ℕ) (p : Proc) (ps : List Proc) (o : Option (ℕ × Proc))
    → is_runnable p.state ≡ false
    → Picked (suc i) ps o
    → Picked i (p ∷ ps) o
Picked-skip i p ps none e h = ground arith
Picked-skip i p ps (some (n, m)) e (le, at, run, least) =
    (omega arith, further p ps n i le at, run, rw e least)

Picked-first :
    (i : ℕ) (p : Proc) (ps : List Proc) (out : ℕ × Proc)
    → is_runnable p.state ≡ true
    → Least i p (suc i) ps out
    → Picked i (p ∷ ps) (some out)
Picked-first i p ps (n, m) e l = elim l.place [
  | inl (at, same) ↦ (omega arith, here p ps n i at ∙ ap some (sym same), l.runnable e, least)
  | inr (le, at) ↦ (omega arith, further p ps n i le at, l.runnable e, least)
]
  where
    least : all_of (no_better m) (p ∷ ps) ≡ true
    least = rw (l.keeps p (slt_self p)) l.least

find_from-Picked : (i : ℕ) (ps : List Proc) → Picked i ps (find_from i ps)
unfolding find_from
find_from-Picked i [] = refl
find_from-Picked i (p ∷ ps) = elim (Bool-cases (is_runnable p.state)) [
  | inl e ↦ rw (e, find_from) (Picked-first i p ps _ e (min_loop-Least i p (suc i) ps))
  | inr e ↦
      rw (e, find_from) (Picked-skip i p ps (find_from (suc i) ps) e (find_from-Picked (suc i) ps))
]

-- `findMinStride` returns the null pointer exactly when no process is RUNNABLE. Else it returns a
-- RUNNABLE process, and no RUNNABLE process with positive tickets has a smaller pass.
pub find_min_stride_lem :
    (ps : List Proc)
    → ((find_min_stride ps ≡ 0) × (all_of (λ p. not (is_runnable p.state)) ps ≡ true))
      ⊎ ((i : ℕ) × (m : Proc) × (find_min_stride ps ≡ suc i)
          × (get_elem? ps i ≡ some m)
          × (is_runnable m.state ≡ true)
          × (all_of (no_better m) ps ≡ true))
unfolding find_min_stride
find_min_stride_lem ps = from (find_from 0 ps) refl (find_from-Picked 0 ps)
  where
    from :
        (o : Option (ℕ × Proc))
        → find_from 0 ps ≡ o
        → Picked 0 ps o
        → ((pointer (find_from 0 ps) ≡ 0) × (all_of (λ p. not (is_runnable p.state)) ps ≡ true))
          ⊎ ((i : ℕ) × (m : Proc) × (pointer (find_from 0 ps) ≡ suc i)
              × (get_elem? ps i ≡ some m)
              × (is_runnable m.state ≡ true)
              × (all_of (no_better m) ps ≡ true))
    from none e h = inl (rw e refl, h)
    from (some (n, m)) e (le, at, run, least) =
        let z : n - 0 ≡ n = omega arith in inr (n, m, rw e refl, rw z at at, run, least)
