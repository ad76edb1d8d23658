-- ===== src/Virtio/Tests.antt =====
-- The theorems on the disk driver at a driver that has just been set up.
use cs202_lab.Prelude.{
  ℕ, ◌≡◌, refl, true, false, not, ◌&&◌, if◌then◌else◌, none, some, arith, [], ltb,
}
use cs202_lab.Virtio.{
  Driver, empty_desc, find_free, alloc_each, alloc3_desc, submit, completed, pending, rw_start,
  rw_finish, virtio_disk_intr, store,
}
use cs202_lab.Virtio.Marks.{taken}
use cs202_lab.Virtio.InFlight.{Keeps, Started, rw_start_lem}
use cs202_lab.Virtio.Finish.{rw_start-rw_finish}
use cs202_lab.Virtio.Interrupt.{Handled, virtio_disk_intr_lem}

abbrev fresh : Driver
fresh = record {
  desc = λ i. empty_desc;
  avail_ring = λ i. 0;
  avail_idx = 0;
  used_ring = λ i. 0;
  used_end = 0;
  free = λ i. ltb i 8;
  used_idx = 0;
  info = λ i. none;
  status = λ i. 0;
  ops = λ i. record { kind = 0; reserved = 0; sector = 0 };
  busy = λ i. false;
  woken = [];
}

-- A write of buffer 3 to block 7.
rw_start_lem_example : Started 3 7 true fresh (rw_start 3 7 true fresh)
rw_start_lem_example = rw_start_lem 3 7 true fresh

abbrev sent : Driver
sent = submit 3 7 true 0 1 2 (taken 0 1 2 fresh)

sent_run : rw_start 3 7 true fresh ≡ some (some 0, sent)
unfolding rw_start alloc3_desc alloc_each find_free
sent_run = refl

-- The device has written the block.
abbrev served : Driver
served = record sent { used_end = 1; status = store 0 0 sent.status }

virtio_disk_intr_lem_example : Handled 3 (pending served) served (virtio_disk_intr served)
virtio_disk_intr_lem_example = virtio_disk_intr_lem 3 served (omega arith) (omega arith)

completed-Keeps : Keeps sent (completed 3 served)
completed-Keeps = record { marks = λ i h. h; descs = λ i h. refl; infos = λ i h. refl }

rw_start-rw_finish_example :
    (t : Driver) × (rw_finish 0 (completed 3 served) ≡ some t)
    × ((i : ℕ)
        → t.free i
          ≡ (if fresh.free i && not (sent.free i) then true else (completed 3 served).free i))
rw_start-rw_finish_example =
    rw_start-rw_finish 3 7 0 true fresh sent (completed 3 served) sent_run completed-Keeps
