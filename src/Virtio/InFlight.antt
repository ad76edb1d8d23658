-- ===== src/Virtio/InFlight.antt =====
-- Requests to the disk: `virtio_disk_rw` builds a chain of three descriptors, and gives it back when
-- the request is done.
use cs202_lab.Prelude.{
  ℕ, ◌%◌, ◌<◌, ◌≡◌, ◌≢◌, ◌⊎◌, inl, inr, refl, ap, ◌∙◌, Bool, true, false, List, Option, none, some,
  if◌then◌else◌, arith, Bool-cases,
}
use cs202_lab.Virtio.{
  num, Desc, Driver, store, has_next, alloc3_desc, request, head_desc, data_desc, status_desc,
  submit, submit_at, rw_start, add16,
}
use cs202_lab.Virtio.Marks.{Trio, taken, IsBack, Alloced, store_ne, store_self, among, store_three}
use cs202_lab.Virtio.Chain.{alloc3_desc_lem}

-- Three descriptors in use that form a chain.
pub record IsChain (i0 i1 i2 : ℕ) (s : Driver) : Type 0 where
  pub low0 : i0 < num
  pub low1 : i1 < num
  pub low2 : i2 < num
  pub ne01 : i0 ≢ i1
  pub ne02 : i0 ≢ i2
  pub ne12 : i1 ≢ i2
  pub used0 : s.free i0 ≡ false
  pub used1 : s.free i1 ≡ false
  pub used2 : s.free i2 ≡ false
  pub flag0 : has_next (s.desc i0).flags ≡ true
  pub flag1 : has_next (s.desc i1).flags ≡ true
  pub flag2 : has_next (s.desc i2).flags ≡ false
  pub next0 : (s.desc i0).next ≡ i1
  pub next1 : (s.desc i1).next ≡ i2

-- Descriptors in use stay as they are.
pub record Keeps (s s' : Driver) : Type 0 where
  pub marks : (i : ℕ) → s.free i ≡ false → s'.free i ≡ false
  pub descs : (i : ℕ) → s.free i ≡ false → s'.desc i ≡ s.desc i
  pub infos : (i : ℕ) → s.free i ≡ false → s'.info i ≡ s.info i

-- A chain whose own descriptors are the same in another state.
pub IsChain-same :
    (i0 i1 i2 : ℕ) (s s' : Driver)
    → IsChain i0 i1 i2 s
    → ((i : ℕ)
        → among i0 i1 i2 i ≡ true
        → s.free i ≡ false
        → (s'.free i ≡ false) × (s'.desc i ≡ s.desc i))
    → IsChain i0 i1 i2 s'
IsChain-same i0 i1 i2 s s' c same =
    let (used0, desc0) = same i0 (ground arith) c.used0 in
    let (used1, desc1) = same i1 (ground arith) c.used1 in
    let (used2, desc2) = same i2 (ground arith) c.used2 in
    record {
      low0 = c.low0;
      low1 = c.low1;
      low2 = c.low2;
      ne01 = c.ne01;
      ne02 = c.ne02;
      ne12 = c.ne12;
      used0 = used0;
      used1 = used1;
      used2 = used2;
      flag0 = ap (λ (d : Desc). has_next d.flags) desc0 ∙ c.flag0;
      flag1 = ap (λ (d : Desc). has_next d.flags) desc1 ∙ c.flag1;
      flag2 = ap (λ (d : Desc). has_next d.flags) desc2 ∙ c.flag2;
      next0 = ap (λ (d : Desc). d.next) desc0 ∙ c.next0;
      next1 = ap (λ (d : Desc). d.next) desc1 ∙ c.next1;
    }

pub IsChain-Keeps :
    (i0 i1 i2 : ℕ) (s s' : Driver) → IsChain i0 i1 i2 s → Keeps s s' → IsChain i0 i1 i2 s'
IsChain-Keeps i0 i1 i2 s s' c k = IsChain-same i0 i1 i2 s s' c (λ i m h. (k.marks i h, k.descs i h))

-- The request as the device finds it.
pub record IsRequest (b blockno : ℕ) (write : Bool) (i0 i1 i2 : ℕ) (s s' : Driver) : Type 0 where
  pub header : s'.ops i0 ≡ request blockno write
  pub desc0 : s'.desc i0 ≡ head_desc i0 i1
  pub desc1 : s'.desc i1 ≡ data_desc b write i2
  pub desc2 : s'.desc i2 ≡ status_desc i0
  pub owner : s'.info i0 ≡ some b
  pub waits : s'.busy b ≡ true
  pub queued : s'.avail_ring (s.avail_idx % num) ≡ i0
  pub counted : s'.avail_idx ≡ add16 s.avail_idx 1

-- What `virtio_disk_rw` does up to its second sleep.
abbrev pub Started : ℕ → ℕ → Bool → Driver → Option (Option ℕ × Driver) → Type 0
Started b blockno write s none = ⊥
Started b blockno write s (some (none, s')) = ((i j k : ℕ) → ¬ (Trio s i j k)) × IsBack s s'
Started b blockno write s (some (some i0, s')) =
    (i1 : ℕ) × (i2 : ℕ) × Trio s i0 i1 i2
    × IsChain i0 i1 i2 s'
    × IsRequest b blockno write i0 i1 i2 s s'
    × Keeps s s'
    × ((i : ℕ) → s'.free i ≡ (if among i0 i1 i2 i then false else s.free i))

-- The three descriptors once they are filled in.
module _ (b blockno : ℕ) (write : Bool) (i0 i1 i2 : ℕ) (s : Driver) (t : Trio s i0 i1 i2) where
  abbrev sent : Driver
  sent = submit b blockno write i0 i1 i2 (taken i0 i1 i2 s)

  sent-desc0 : sent.desc i0 ≡ head_desc i0 i1
  sent-desc0 =
      store_ne i2 i0 (status_desc i0)
        (store i1 (data_desc b write i2) (store i0 (head_desc i0 i1) s.desc)) t.ne_ac
      ∙ store_ne i1 i0 (data_desc b write i2) (store i0 (head_desc i0 i1) s.desc) t.ne_ab
      ∙ store_self i0 (head_desc i0 i1) s.desc

  sent-desc1 : sent.desc i1 ≡ data_desc b write i2
  sent-desc1 =
      store_ne i2 i1 (status_desc i0)
        (store i1 (data_desc b write i2) (store i0 (head_desc i0 i1) s.desc)) t.ne_bc
      ∙ store_self i1 (data_desc b write i2) (store i0 (head_desc i0 i1) s.desc)

  sent-desc2 : sent.desc i2 ≡ status_desc i0
  sent-desc2 =
      store_self i2 (status_desc i0)
        (store i1 (data_desc b write i2) (store i0 (head_desc i0 i1) s.desc))

  data-has_next : has_next (data_desc b write i2).flags ≡ true
  data-has_next = elim (Bool-cases write) [ inl h ↦ rw h refl | inr h ↦ rw h refl ]

  sent-used :
      (i : ℕ) → ((i ≡ i0) ⊎ ((i ≡ i1) ⊎ (i ≡ i2))) ⊎ (s.free i ≡ false) → sent.free i ≡ false
  sent-used i h = ground arith

  sent-IsChain : IsChain i0 i1 i2 sent
  sent-IsChain = record {
    low0 = t.low_a;
    low1 = t.low_b;
    low2 = t.low_c;
    ne01 = t.ne_ab;
    ne02 = t.ne_ac;
    ne12 = t.ne_bc;
    used0 = sent-used i0 (inl (inl refl));
    used1 = sent-used i1 (inl (inr (inl refl)));
    used2 = sent-used i2 (inl (inr (inr refl)));
    flag0 = ap (λ (d : Desc). has_next d.flags) sent-desc0;
    flag1 = ap (λ (d : Desc). has_next d.flags) sent-desc1 ∙ data-has_next;
    flag2 = ap (λ (d : Desc). has_next d.flags) sent-desc2;
    next0 = ap (λ (d : Desc). d.next) sent-desc0;
    next1 = ap (λ (d : Desc). d.next) sent-desc1;
  }

  sent-IsRequest : IsRequest b blockno write i0 i1 i2 s sent
  sent-IsRequest = record {
    header = store_self i0 (request blockno write) s.ops;
    desc0 = sent-desc0;
    desc1 = sent-desc1;
    desc2 = sent-desc2;
    owner = store_self i0 (some b) s.info;
    waits = store_self b true s.busy;
    queued = store_self (s.avail_idx % num) i0 s.avail_ring;
    counted = refl;
  }

  -- A descriptor in use is none of the three.
  used_ne : (i j : ℕ) → s.free i ≡ false → s.free j ≡ true → i ≢ j
  used_ne i j h g e = ground (arith, ap s.free e)

  sent-Keeps : Keeps s sent
  sent-Keeps = record {
    marks = λ i h. sent-used i (inr h);
    descs = λ i h.
        store_ne i2 i (status_desc i0)
          (store i1 (data_desc b write i2) (store i0 (head_desc i0 i1) s.desc))
          (used_ne i i2 h t.free_c)
        ∙ store_ne i1 i (data_desc b write i2) (store i0 (head_desc i0 i1) s.desc)
            (used_ne i i1 h t.free_b)
        ∙ store_ne i0 i (head_desc i0 i1) s.desc (used_ne i i0 h t.free_a);
    infos = λ i h. store_ne i0 i (some b) s.info (used_ne i i0 h t.free_a);
  }

-- From any state, `virtio_disk_rw` does not panic before its second sleep. It sleeps for want of
-- descriptors only if no three are free, and has then changed no mark; else it fills in three free
-- descriptors as a chain with the request, its buffer waiting, and puts the chain in the ring of the
-- device. The descriptors that were in use, and the buffers of their requests, stay as they are.
pub rw_start_lem :
    (b blockno : ℕ) (write : Bool) (s : Driver)
    → Started b blockno write s (rw_start b blockno write s)
unfolding rw_start
rw_start_lem b blockno write s = from (alloc3_desc s) (alloc3_desc_lem s)
  where
    from :
        (o : Option (Option (List ℕ) × Driver))
        → Alloced s o
        → Started b blockno write s (submit_at b blockno write o)
    from none f = f
    from (some (none, s')) f = f
    from (some (some idx, s')) (i0, i1, i2, t, e, e') =
        rw (e, e')
          (
            i1,
            i2,
            t,
            sent-IsChain b blockno write i0 i1 i2 s t,
            sent-IsRequest b blockno write i0 i1 i2 s t,
            sent-Keeps b blockno write i0 i1 i2 s t,
            (λ i. store_three i0 i1 i2 i false s.free),
          )
