-- ===== src/Proc/Life/Wakeup.antt =====
-- What `wakeup` does to each process.
use mathlib.Core.Option
use native.Mathlib.Nat.{add-zero}
use cs202_lab.Prelude.{
  ℕ, zero, suc, ◌+◌, ◌≡◌, ◌≢◌, refl, true, List, [], ◌∷◌, Option, none, some, arith, get_elem?, map,
  ap, ap₂, ◌∙◌, length,
}
use cs202_lab.Proc.{Proc, Kernel, is_sleeping}
use cs202_lab.Proc.Life.{wake_one, wake_from, wakeup}

pub get_elem?-wake_from :
    (cur c ptr j : ℕ) (ps : List Proc)
    → get_elem? (wake_from cur c ptr ps) j ≡ Option.map (wake_one cur c (ptr + j)) (get_elem? ps j)
unfolding wake_from
get_elem?-wake_from cur c ptr j [] = refl
get_elem?-wake_from cur c ptr zero (p ∷ ps) = rw add-zero refl
get_elem?-wake_from cur c ptr (suc j) (p ∷ ps) =
    get_elem?-wake_from cur c (suc ptr) j ps
    ∙ ap (λ n. Option.map (wake_one cur c n) (get_elem? ps j)) (omega arith)

pub length-wake_from :
    (cur c ptr : ℕ) (ps : List Proc) → length (wake_from cur c ptr ps) ≡ length ps
unfolding wake_from
length-wake_from cur c ptr [] = refl
length-wake_from cur c ptr (p ∷ ps) = ap suc (length-wake_from cur c (suc ptr) ps)

parent-wake_one : (cur c ptr : ℕ) (p : Proc) → (wake_one cur c ptr p).parent ≡ p.parent
parent-wake_one cur c ptr p = ground arith

pub parents-wake_from :
    (cur c ptr : ℕ) (ps : List Proc)
    → map (λ p. p.parent) (wake_from cur c ptr ps) ≡ map (λ p. p.parent) ps
unfolding wake_from
parents-wake_from cur c ptr [] = refl
parents-wake_from cur c ptr (p ∷ ps) =
    ap₂ ◌∷◌ (parent-wake_one cur c ptr p) (parents-wake_from cur c (suc ptr) ps)

-- The caller's own slot is left alone.
pub get_elem?-wake_self :
    (cur c i : ℕ) (ps : List Proc)
    → cur ≡ suc i
    → get_elem? (wake_from cur c 1 ps) i ≡ get_elem? ps i
get_elem?-wake_self cur c i ps e = rw (get_elem?-wake_from cur c 1 i ps) (same (get_elem? ps i))
  where
    same : (o : Option Proc) → Option.map (wake_one cur c (1 + i)) o ≡ o
    same none = refl
    same (some p) = ground arith

-- After `wakeup` no process but the caller sleeps on the channel.
pub wakeup-awake :
    (cur c i : ℕ) (k : Kernel) {p : Proc}
    → cur ≢ suc i
    → get_elem? (wakeup cur c k).procs i ≡ some p
    → is_sleeping p.state ≡ true
    → p.chan ≢ c
unfolding wakeup
wakeup-awake cur c i k {p} ne e asleep = awake (get_elem? k.procs i) (rw get_elem?-wake_from at e)
  where
    awake : (o : Option Proc) → Option.map (wake_one cur c (1 + i)) o ≡ some p → p.chan ≢ c
    awake none e = cc
    awake (some q) e = ground arith
