-- ===== src/Virtio/Tests.antt =====
-- A write of block 5 from buffer 0 to a disk that was just set up.
use mitcppos.Prelude.{
  ℕ, ◌+◌, ◌*◌, ◌≡◌, refl, Bool, true, false, Option, none, some, ok, ◌==◌, if◌then◌else◌,
}
use mitcppos.Virtio.{
  begin_with, alloc_first, alloc_second, alloc_third, alloc_desc, alloc_desc_loop, put_free, num,
  Disk, Three, Places, init_free, rw_begin, rw_end, start, alloc3_desc,
}
use mitcppos.Virtio.Descriptors.Requests.{system, Step, Reach, Sound, rw_end-Reach}

abbrev blank : Disk
blank = record {
  free = λ i. false;
  desc = λ i. record { addr = 0; len = 0; flags = 0; next = 0 };
  info = λ i. record { b = none; status = 0 };
  ops = λ i. record { type = 0; reserved = 0; sector = 0 };
  ring = λ i. 0;
  idx = 0;
  used_idx = 0;
  busy = λ b. false;
  wakeups = 0;
}

abbrev places : Places
places = record {
  op_at = λ i. 0x1000 + i * 16;
  status_at = λ i. 0x2000 + i;
  data_at = λ b. 0x3000 + b * 1024;
}

abbrev ready : Disk
ready = init_free num 0 blank

abbrev begun : Disk
begun =
    start places true 5 0 (0, 1, 2) (put_free 2 false (put_free 1 false (put_free 0 false ready)))

begins_here : rw_begin places true 5 0 ready ≡ ok (some (0, 1, 2), begun)
unfolding rw_begin begin_with alloc3_desc alloc_first alloc_second alloc_third alloc_desc
    alloc_desc_loop init_free
begins_here = refl

abbrev one_request : ℕ → Option (ℕ × ℕ)
one_request h = if h == 0 then some (1, 2) else none

after_begin : Reach places (system ready (λ _. none)) (system begun one_request)
after_begin = Reach.next Reach.here (Step.begins true 5 0 0 1 2 begins_here)

rw_end-Reach_example :
    Sound (system begun one_request)
    × ((write : Bool) (blockno b : ℕ)
        → (r : Option Three × Disk) × (rw_begin places write blockno b begun ≡ ok r))
    × ((i j k : ℕ) → one_request i ≡ some (j, k) → (d : Disk) × (rw_end i begun ≡ ok d))
rw_end-Reach_example = rw_end-Reach places blank (system begun one_request) after_begin
