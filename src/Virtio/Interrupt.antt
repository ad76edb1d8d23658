-- ===== src/Virtio/Interrupt.antt =====
-- `virtio_disk_intr` on the entries that the device has added to its ring.
use cs202_lab.Prelude.{
  ℕ, zero, suc, ◌+◌, ◌%◌, ◌^◌, ◌<◌, ◌≡◌, inl, inr, refl, sym, ap, ◌∙◌, Bool, true, false, not, ◌==◌,
  ◌||◌, Option, none, some, if◌then◌else◌, arith, Bool-cases,
}
use cs202_lab.Virtio.{
  num, Driver, and_then, completed, complete, intr_loop, pending, virtio_disk_intr,
}

-- The entry `k` rounds on: which request it is of, and whether the device reports a failure or the
-- request has no buffer.
abbrev pub entry : Driver → ℕ → ℕ
entry s k = s.used_ring ((s.used_idx + k) % 2 ^ 16 % num)

abbrev pub is_null : Option ℕ → Bool
is_null none = true
is_null (some b) = false

abbrev pub is_broken : Driver → ℕ → Bool
is_broken s id = not (s.status id == 0) || is_null (s.info id)

abbrev pub is_of : ℕ → Option ℕ → Bool
is_of b none = false
is_of b (some c) = b == c

-- Some of the next `n` entries, from the one `k` rounds on, is of buffer `b`.
unfoldable pub completes : ℕ → ℕ → ℕ → Driver → Bool
completes b zero k s = false
completes b (suc n) k s = is_of b (s.info (entry s k)) || completes b n (suc k) s

-- What the interrupt does with `n` entries to go.
abbrev pub Handled : ℕ → ℕ → Driver → Option Driver → Type 0
Handled b n s none = (k : ℕ) × (k < n) × (is_broken s (entry s k) ≡ true)
Handled b n s (some s') =
    ((k : ℕ) → k < n → is_broken s (entry s k) ≡ false)
    × (s'.used_idx ≡ s.used_end)
    × (s'.busy b ≡ (if completes b n 0 s then false else s.busy b))
    × (s'.free ≡ s.free)
    × (s'.desc ≡ s.desc)
    × (s'.info ≡ s.info)

entry_here : (s : Driver) → s.used_idx < 2 ^ 16 → entry s 0 ≡ s.used_ring (s.used_idx % num)
entry_here s lt =
    let at : (s.used_idx + 0) % 2 ^ 16 ≡ s.used_idx = omega arith in
    ap (λ i. s.used_ring (i % num)) at

-- An entry seen from a round later.
entry_next :
    (c k : ℕ) (s : Driver) → s.used_idx < 2 ^ 16 → entry (completed c s) k ≡ entry s (suc k)
entry_next c k s lt =
    let at : ((s.used_idx + 1) % 2 ^ 16 + k) % 2 ^ 16 ≡ (s.used_idx + suc k) % 2 ^ 16 =
      omega arith in
    ap (λ i. s.used_ring (i % num)) at

completes_next :
    (b c n k : ℕ) (s : Driver)
    → s.used_idx < 2 ^ 16
    → completes b n k (completed c s) ≡ completes b n (suc k) s
unfolding completes
completes_next b c zero k s lt = refl
completes_next b c (suc n) k s lt = rw (entry_next c k s lt, completes_next b c n (suc k) s lt) refl

broken_next :
    (c k : ℕ) (s : Driver)
    → s.used_idx < 2 ^ 16
    → is_broken (completed c s) (entry (completed c s) k) ≡ is_broken s (entry s (suc k))
broken_next c k s lt = ap (is_broken s) (entry_next c k s lt)

-- A round that has completed the request of buffer `c`.
round-Handled :
    (b c n : ℕ) (s : Driver) (o : Option Driver)
    → s.used_idx < 2 ^ 16
    → (s.status (entry s 0) == 0) ≡ true
    → s.info (entry s 0) ≡ some c
    → Handled b n (completed c s) o
    → Handled b (suc n) s o
unfolding completes
round-Handled b c n s none lt g i (k, less, bad) =
    (suc k, omega arith, sym (broken_next c k s lt) ∙ bad)
round-Handled b c n s (some s') lt g i (good, at, busy, e, e', e'') = (fine, at, marks, e, e', e'')
  where
    fine : (k : ℕ) → k < suc n → is_broken s (entry s k) ≡ false
    fine zero less = rw (g, i) refl
    fine (suc k) less = sym (broken_next c k s lt) ∙ good k (omega arith)

    marks : s'.busy b ≡ (if completes b (suc n) 0 s then false else s.busy b)
    marks =
        let later = completes_next b c n 0 s lt in
        rw i (
          busy
          ∙ rw later (elim (Bool-cases (b == c)) [
            | inl e ↦
                rw e
                  (elim (Bool-cases (completes b n 1 s)) [ inl h ↦ rw h refl | inr h ↦ rw h refl ])
            | inr e ↦ rw e refl
          ]))

complete-Handled :
    (b n : ℕ) (s : Driver) (good : Bool) (o : Option ℕ)
    → s.used_idx < 2 ^ 16
    → (s.status (entry s 0) == 0) ≡ good
    → s.info (entry s 0) ≡ o
    → ((c : ℕ) → Handled b n (completed c s) (intr_loop n (completed c s)))
    → Handled b (suc n) s (and_then (intr_loop n) (complete s good o))
complete-Handled b n s false o lt g i later = (0, omega arith, rw g refl)
complete-Handled b n s true none lt g i later = (0, omega arith, rw (g, i) refl)
complete-Handled b n s true (some c) lt g i later = round-Handled b c n s _ lt g i (later c)

intr_loop-Handled :
    (b n : ℕ) (s : Driver)
    → s.used_idx < 2 ^ 16
    → s.used_end < 2 ^ 16
    → pending s ≡ n
    → Handled b n s (intr_loop n s)
unfolding intr_loop completes
intr_loop-Handled b zero s lt lt' e =
    let done : (s.used_idx == s.used_end) ≡ true = ground arith in
    rw done ((λ k l. absurd (omega arith)), ground arith, refl, refl, refl, refl)
intr_loop-Handled b (suc n) s lt lt' e =
    let more : (s.used_idx == s.used_end) ≡ false = ground arith in
    let later = λ (c : ℕ). intr_loop-Handled b n (completed c s) (omega arith) lt' (omega arith) in
    rw more (
      rw (entry_here s lt) at (
        complete-Handled b n s (s.status (entry s 0) == 0) (s.info (entry s 0)) lt refl refl later))

-- `virtio_disk_intr`, with both 16-bit counters in range, goes through exactly the entries that the
-- device has added since, in fewer than 2^16 rounds. It panics only at one whose status is not 0, or
-- that belongs to no buffer. Else all of them are good, the driver has caught up with the device, a
-- buffer is done if an entry is of it and as before if none is, and no descriptor has changed.
pub virtio_disk_intr_lem :
    (b : ℕ) (s : Driver)
    → s.used_idx < 2 ^ 16
    → s.used_end < 2 ^ 16
    → Handled b (pending s) s (virtio_disk_intr s)
unfolding virtio_disk_intr
virtio_disk_intr_lem b s lt lt' = intr_loop-Handled b (pending s) s lt lt' refl
