-- ===== src/Virtio/Finish.antt =====
-- Requests to the disk that are done: `virtio_disk_rw` behind its second sleep.
use cs202_lab.Prelude.{
  ℕ, suc, ◌<◌, ◌≡◌, inl, inr, refl, sym, ap, ◌∙◌, Bool, true, false, not, ◌==◌, ◌&&◌, none, some,
  if◌then◌else◌, arith, Bool-cases,
}
use cs202_lab.Virtio.{
  num, Desc, Driver, store, freed, free_chain, has_next, empty_desc, rw_start, rw_finish,
}
use cs202_lab.Virtio.Marks.{free_desc_taken, store_ne, among, store_three, Trio}
use cs202_lab.Virtio.InFlight.{IsChain, IsChain-same, IsChain-Keeps, Keeps, Started, rw_start_lem}

chain_on :
    (fuel i j : ℕ) (s : Driver)
    → i < num
    → s.free i ≡ false
    → has_next (s.desc i).flags ≡ true
    → (s.desc i).next ≡ j
    → free_chain (suc fuel) i s ≡ free_chain fuel j (freed i s)
unfolding free_chain
chain_on fuel i j s lt h f e = rw (free_desc_taken i s lt h, f, e) refl

chain_end :
    (fuel i : ℕ) (s : Driver)
    → i < num
    → s.free i ≡ false
    → has_next (s.desc i).flags ≡ false
    → free_chain (suc fuel) i s ≡ some (freed i s)
unfolding free_chain
chain_end fuel i s lt h f = rw (free_desc_taken i s lt h, f) refl

-- The driver once a request is done: its three descriptors are free and empty, the others and the
-- buffers are as before.
abbrev pub Finished : ℕ → ℕ → ℕ → Driver → Driver → Type 0
Finished i0 i1 i2 s s' =
    ((i : ℕ) → s'.free i ≡ (if among i0 i1 i2 i then true else s.free i))
    × ((i : ℕ) → s'.desc i ≡ (if among i0 i1 i2 i then empty_desc else s.desc i))
    × ((i : ℕ) → s'.info i ≡ (if i == i0 then none else s.info i))
    × (s'.busy ≡ s.busy)

-- A chain of three descriptors in use, finished by its first descriptor: no panic, and these three
-- are free and empty, while every other descriptor stays as it is.
pub rw_finish_lem :
    (i0 i1 i2 : ℕ) (s : Driver)
    → IsChain i0 i1 i2 s
    → (s' : Driver) × (rw_finish i0 s ≡ some s') × Finished i0 i1 i2 s s'
unfolding rw_finish
rw_finish_lem i0 i1 i2 s c =
    let s0 = record s { info = store i0 none s.info } in
    let s1 = freed i0 s0 in
    let s2 = freed i1 s1 in
    let at1 : s1.desc i1 ≡ s.desc i1 = store_ne i0 i1 empty_desc s.desc (λ e. c.ne01 (sym e)) in
    let at2 : s2.desc i2 ≡ s.desc i2 =
      store_ne i1 i2 empty_desc s1.desc (λ e. c.ne12 (sym e))
      ∙ store_ne i0 i2 empty_desc s.desc (λ e. c.ne02 (sym e)) in
    let used1 : s1.free i1 ≡ false = store_ne i0 i1 true s.free (λ e. c.ne01 (sym e)) ∙ c.used1 in
    let used2 : s2.free i2 ≡ false =
      store_ne i1 i2 true s1.free (λ e. c.ne12 (sym e))
      ∙ store_ne i0 i2 true s.free (λ e. c.ne02 (sym e))
      ∙ c.used2 in
    (
      freed i2 s2,
      chain_on 7 i0 i1 s0 c.low0 c.used0 c.flag0 c.next0
          ∙ chain_on 6 i1 i2 s1 c.low1 used1 (ap (λ (d : Desc). has_next d.flags) at1 ∙ c.flag1)
              (ap (λ (d : Desc). d.next) at1 ∙ c.next1)
          ∙ chain_end 5 i2 s2 c.low2 used2 (ap (λ (d : Desc). has_next d.flags) at2 ∙ c.flag2),
      (
        (λ i. store_three i0 i1 i2 i true s.free),
        (λ i. store_three i0 i1 i2 i empty_desc s.desc),
        (λ i. refl),
        refl,
      ),
    )

-- What a finished request leaves to the others.
pub Finished-Keeps :
    (i0 i1 i2 j0 j1 j2 : ℕ) (s s' : Driver)
    → IsChain j0 j1 j2 s
    → ((j : ℕ) → among j0 j1 j2 j ≡ true → among i0 i1 i2 j ≡ false)
    → Finished i0 i1 i2 s s'
    → IsChain j0 j1 j2 s'
Finished-Keeps i0 i1 i2 j0 j1 j2 s s' c apart (marks, descs, infos, busy) =
    IsChain-same j0 j1 j2 s s' c (λ j h free.
      let out = apart j h in
      let m = marks j in let d = descs j in (rw out at m ∙ free, rw out at d))

-- The three descriptors were free.
Trio-free :
    (i0 i1 i2 i : ℕ) (s : Driver) → Trio s i0 i1 i2 → among i0 i1 i2 i ≡ true → s.free i ≡ true
Trio-free i0 i1 i2 i s t h = elim (Bool-cases (i == i0)) [
  | inl e ↦ let at : i ≡ i0 = ground arith in ap s.free at ∙ t.free_a
  | inr e ↦ elim (Bool-cases (i == i1)) [
    | inl g ↦ let at : i ≡ i1 = ground arith in ap s.free at ∙ t.free_b
    | inr g ↦ let at : i ≡ i2 = ground arith in ap s.free at ∙ t.free_c
  ]
]

-- A request that was sent, and is finished in a later state where other requests may have been sent
-- and finished, but what was in use when it was sent still is: it finishes without a panic, and the
-- descriptors that become free are just those that it took.
pub rw_start-rw_finish :
    (b blockno i0 : ℕ) (write : Bool) (s s' s'' : Driver)
    → rw_start b blockno write s ≡ some (some i0, s')
    → Keeps s' s''
    → (t : Driver) × (rw_finish i0 s'' ≡ some t)
      × ((i : ℕ) → t.free i ≡ (if s.free i && not (s'.free i) then true else s''.free i))
rw_start-rw_finish b blockno i0 write s s' s'' e k = from (rw e at (rw_start_lem b blockno write s))
  where
    from :
        Started b blockno write s (some (some i0, s'))
        → (t : Driver) × (rw_finish i0 s'' ≡ some t)
          × ((i : ℕ) → t.free i ≡ (if s.free i && not (s'.free i) then true else s''.free i))
    from (i1, i2, t, c, r, k', marks) =
        let (done, e', (free, f2, f3, f4)) =
          rw_finish_lem i0 i1 i2 s'' (IsChain-Keeps i0 i1 i2 s' s'' c k) in
        (done, e', λ i. ground (arith, marks i, free i, Trio-free i0 i1 i2 i s t))
