-- ===== src/Virtio.antt =====
-- The disk driver of kernel/virtio_disk.c behind `virtio_disk_init`, with the NUM descriptors that it
-- shares with the device. An address that a descriptor holds is named by what it is the address of.
-- `woken` lists the channels of the calls of `wakeup`, the last one first. The registers of the device
-- are not part of the state, and `none` is a panic.
pub mod Marks
pub mod Chain
pub mod InFlight
pub mod Finish
pub mod Interrupt
mod Tests
use cs202_lab.Prelude.{
  ℕ, zero, suc, ◌+◌, ◌*◌, ◌/◌, ◌%◌, ◌^◌, ◌-◌, Bool, true, false, List, [], ◌∷◌, ◌++◌, ◌==◌, leb,
  Option, none, some, if◌then◌else◌, get_or,
}
use cs202_lab.Fs.Rw.{bsize}

-- `NUM`
abbrev pub num : ℕ
num = 8

-- 0, `&disk.ops[i]`, `b->data` and `&disk.info[i].status`
pub data Address : Type 0 where
  null : Address
  op_of : ℕ → Address
  data_of : ℕ → Address
  status_of : ℕ → Address

-- `struct virtq_desc`
pub record Desc : Type 0 where
  pub addr : Address
  pub len : ℕ
  pub flags : ℕ
  pub next : ℕ

-- `struct virtio_blk_req`
pub record Request : Type 0 where
  pub kind : ℕ
  pub reserved : ℕ
  pub sector : ℕ

-- What `wakeup` is called with: `&disk.free[0]` or a buffer.
pub data Channel : Type 0 where
  free_channel : Channel
  buffer_channel : ℕ → Channel

-- `struct disk`, with `b->disk` of the buffers as `busy`.
pub record Driver : Type 0 where
  pub desc : ℕ → Desc
  pub avail_ring : ℕ → ℕ
  pub avail_idx : ℕ
  pub used_ring : ℕ → ℕ
  pub used_end : ℕ
  pub free : ℕ → Bool
  pub used_idx : ℕ
  pub info : ℕ → Option ℕ
  pub status : ℕ → ℕ
  pub ops : ℕ → Request
  pub busy : ℕ → Bool
  pub woken : List Channel

-- An entry of an array.
abbrev pub store : {A : Type 0} → ℕ → A → (ℕ → A) → ℕ → A
store i x f j = if j == i then x else f j

-- 16-bit counters.
abbrev pub add16 : ℕ → ℕ → ℕ
add16 a b = (a + b) % 2 ^ 16

-- `alloc_desc`, with `n` descriptors from `i` on to look at.
unfoldable pub find_free : ℕ → ℕ → (ℕ → Bool) → Option ℕ
find_free zero i free = none
find_free (suc n) i free = if free i then some i else find_free n (suc i) free

abbrev pub mark_taken : Driver → Option ℕ → Option (ℕ × Driver)
mark_taken s none = none
mark_taken s (some i) = some (i, record s { free = store i false s.free })

abbrev pub alloc_desc : Driver → Option (ℕ × Driver)
alloc_desc s = mark_taken s (find_free num 0 s.free)

abbrev pub empty_desc : Desc
empty_desc = record { addr = Address.null; len = 0; flags = 0; next = 0 }

abbrev pub freed : ℕ → Driver → Driver
freed i s = record s {
  desc = store i empty_desc s.desc;
  free = store i true s.free;
  woken = Channel.free_channel ∷ s.woken;
}

unfoldable pub free_desc : ℕ → Driver → Option Driver
free_desc i s = if leb num i then none else if s.free i then none else some (freed i s)

-- What follows a call that may panic.
abbrev pub and_then : {R : Type 0} → (Driver → Option R) → Option Driver → Option R
and_then more none = none
and_then more (some s) = more s

-- `flags & VRING_DESC_F_NEXT`
abbrev pub has_next : ℕ → Bool
has_next flags = flags % 2 == 1

-- `free_chain`, where a chain has no more than `fuel` descriptors.
unfoldable pub free_chain : ℕ → ℕ → Driver → Option Driver
free_chain zero i s = none
free_chain (suc fuel) i s =
    let flag = (s.desc i).flags in
    let nxt = (s.desc i).next in
    and_then (λ s'. elim (has_next flag) [ true ↦ free_chain fuel nxt s' | false ↦ some s' ])
      (free_desc i s)

-- `alloc3_desc`: the loop that gives back, and the one that takes `n` more. The inner `none` is -1.
unfoldable pub free_each : List ℕ → Driver → Option Driver
free_each [] s = some s
free_each (i ∷ idx) s = and_then (free_each idx) (free_desc i s)

abbrev pub gives_up : Option Driver → Option (Option (List ℕ) × Driver)
gives_up none = none
gives_up (some s) = some (none, s)

abbrev pub alloc_next :
    (List ℕ → Driver → Option (Option (List ℕ) × Driver))
    → List ℕ
    → Driver
    → Option (ℕ × Driver)
    → Option (Option (List ℕ) × Driver)
alloc_next more idx s none = gives_up (free_each idx s)
alloc_next more idx s (some (i, s')) = more (idx ++ i ∷ []) s'

unfoldable pub alloc_each : ℕ → List ℕ → Driver → Option (Option (List ℕ) × Driver)
alloc_each zero idx s = some (some idx, s)
alloc_each (suc n) idx s = alloc_next (alloc_each n) idx s (alloc_desc s)

unfoldable pub alloc3_desc : Driver → Option (Option (List ℕ) × Driver)
unfolding alloc_each
alloc3_desc s = alloc_each 3 [] s

-- `virtio_disk_rw` in a round that has its descriptors: the request and the three descriptors.
abbrev pub request : ℕ → Bool → Request
request blockno write = record {
  kind = if write then 1 else 0;
  reserved = 0;
  sector = blockno * (bsize / 512) % 2 ^ 32;
}

abbrev pub head_desc : ℕ → ℕ → Desc
head_desc i0 i1 = record { addr = Address.op_of i0; len = 16; flags = 1; next = i1 }

abbrev pub data_desc : ℕ → Bool → ℕ → Desc
data_desc b write i2 = record {
  addr = Address.data_of b;
  len = bsize;
  flags = if write then 1 else 3;
  next = i2;
}

abbrev pub status_desc : ℕ → Desc
status_desc i0 = record { addr = Address.status_of i0; len = 1; flags = 2; next = 0 }

abbrev pub submit : ℕ → ℕ → Bool → ℕ → ℕ → ℕ → Driver → Driver
submit b blockno write i0 i1 i2 s = record s {
  ops = store i0 (request blockno write) s.ops;
  desc =
      store i2 (status_desc i0)
        (store i1 (data_desc b write i2) (store i0 (head_desc i0 i1) s.desc));
  status = store i0 255 s.status;
  busy = store b true s.busy;
  info = store i0 (some b) s.info;
  avail_ring = store (s.avail_idx % num) i0 s.avail_ring;
  avail_idx = add16 s.avail_idx 1;
}

-- `virtio_disk_rw` up to its second sleep: the first descriptor of the request, or a sleep for want
-- of descriptors.
abbrev pub submit_at : ℕ → ℕ → Bool → Option (Option (List ℕ) × Driver) → Option (Option ℕ × Driver)
submit_at b blockno write none = none
submit_at b blockno write (some (none, s)) = some (none, s)
submit_at b blockno write (some (some idx, s)) = some (
  some (get_or idx 0 0),
  submit b blockno write (get_or idx 0 0) (get_or idx 1 0) (get_or idx 2 0) s,
)

unfoldable pub rw_start : ℕ → ℕ → Bool → Driver → Option (Option ℕ × Driver)
unfolding alloc3_desc
rw_start b blockno write s = submit_at b blockno write (alloc3_desc s)

-- `virtio_disk_rw` behind its second sleep.
unfoldable pub rw_finish : ℕ → Driver → Option Driver
unfolding free_chain
rw_finish i0 s = free_chain num i0 (record s { info = store i0 none s.info })

-- A round of the loop of `virtio_disk_intr`; the buffer of an entry that has none is the null pointer.
abbrev pub completed : ℕ → Driver → Driver
completed b s = record s {
  busy = store b false s.busy;
  woken = Channel.buffer_channel b ∷ s.woken;
  used_idx = add16 s.used_idx 1;
}

abbrev pub complete : Driver → Bool → Option ℕ → Option Driver
complete s false o = none
complete s true none = none
complete s true (some b) = some (completed b s)

abbrev pub complete_one : Driver → Option Driver
complete_one s =
    let id = s.used_ring (s.used_idx % num) in complete s (s.status id == 0) (s.info id)

abbrev pub intr_round : (Driver → Option Driver) → Driver → Bool → Option Driver
intr_round more s true = some s
intr_round more s false = and_then more (complete_one s)

unfoldable pub intr_loop : ℕ → Driver → Option Driver
intr_loop zero s = if s.used_idx == s.used_end then some s else none
intr_loop (suc fuel) s = intr_round (intr_loop fuel) s (s.used_idx == s.used_end)

-- The entries that the device has added since.
abbrev pub pending : Driver → ℕ
pending s = (s.used_end + 2 ^ 16 - s.used_idx) % 2 ^ 16

unfoldable pub virtio_disk_intr : Driver → Option Driver
unfolding intr_loop
virtio_disk_intr s = intr_loop (pending s) s
