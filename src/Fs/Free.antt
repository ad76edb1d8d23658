-- ===== src/Fs/Free.antt =====
-- How many blocks of the disk are free.
use cs202_lab.Prelude.{
  ℕ, zero, suc, ◌+◌, ◌≤◌, ◌≡◌, inl, inr, false, ◌==◌, ltb, if◌then◌else◌, arith, Bool-cases,
}
use cs202_lab.Fs.Blocks.{Disk, is_used}
use cs202_lab.Fs.Marks.{Filled}
use cs202_lab.Fs.Sound.{IsReady, IsTaken, Taken-marks}

module _ (bmapstart : ℕ) where
  -- The free blocks below block `n`.
  unfoldable pub free_below : ℕ → Disk → ℕ
  free_below zero d = 0
  free_below (suc n) d = free_below n d + (if is_used bmapstart n d then 0 else 1)

  pub free_below-Filled : (n : ℕ) (d : Disk) → Filled bmapstart 0 n d → free_below n d ≡ 0
  unfolding free_below
  free_below-Filled zero d h = omega arith
  free_below-Filled (suc n) d h =
      let below = free_below-Filled n d (λ c lo lt. h c lo (omega arith)) in
      rw (h n (omega arith) (omega arith)) (omega (arith, below))

  module _ (size : ℕ) {r : ℕ} {d d' : Disk} (ready : IsReady bmapstart size d)
      (taken : IsTaken bmapstart size r d d') where
    free_below_step :
        (n : ℕ) → n ≤ size → free_below n d ≡ free_below n d' + (if ltb r n then 1 else 0)
    unfolding free_below
    free_below_step zero le = ground arith
    free_below_step (suc n) le =
        let below = free_below_step n (omega arith) in
        let mark = Taken-marks bmapstart size ready taken n (omega arith) in
        elim (Bool-cases (n == r)) [
          | inl e ↦
              let same : r ≡ n = ground arith in
              let was : is_used bmapstart n d ≡ false = rw same at (taken.free) in
              rw (mark, e, was) (ground (arith, below))
          | inr e ↦ rw (mark, e) (ground (arith, below))
        ]

    -- One block is taken.
    pub Taken-free : free_below size d ≡ suc (free_below size d')
    Taken-free = let h = free_below_step size (omega arith) in let lt = taken.low in ground arith
