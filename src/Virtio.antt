-- ===== src/Virtio.antt =====
-- kernel/virtio_disk.c: the descriptors of the disk driver. The device's registers are not part of the
-- model; what it writes to the `used` ring and to `status` is an argument or a step of its own.
use mitcppos.Prelude.{
  ℕ, zero, suc, ◌+◌, ◌*◌, ◌/◌, ◌%◌, ◌^◌, Bool, true, false, Option, none, some, leb, ◌==◌,
  if◌then◌else◌, Outcome, ok, panic, out_of_fuel, ◌>>=◌,
}
use mitcppos.Riscv.{flag}
use mitcppos.Log.{bsize}
pub mod Descriptors
mod Tests

-- `NUM`
abbrev pub num : ℕ
num = 8

abbrev pub vring_desc_f_next : ℕ
vring_desc_f_next = 1

abbrev pub vring_desc_f_write : ℕ
vring_desc_f_write = 2

abbrev pub virtio_blk_t_in : ℕ
virtio_blk_t_in = 0

abbrev pub virtio_blk_t_out : ℕ
virtio_blk_t_out = 1

-- `struct virtq_desc`
pub record Desc : Type 0 where
  pub addr : ℕ
  pub len : ℕ
  pub flags : ℕ
  pub next : ℕ

-- `struct virtio_blk_req`
pub record Request : Type 0 where
  pub type : ℕ
  pub reserved : ℕ
  pub sector : ℕ

-- An element of `disk.info`, with `b` the number of the buffer.
pub record Info : Type 0 where
  pub b : Option ℕ
  pub status : ℕ

-- `busy` is the field `disk` of each buffer; `wakeups` counts the calls of `wakeup(&disk.free[0])`.
pub record Disk : Type 0 where
  pub free : ℕ → Bool
  pub desc : ℕ → Desc
  pub info : ℕ → Info
  pub ops : ℕ → Request
  pub ring : ℕ → ℕ
  pub idx : ℕ
  pub used_idx : ℕ
  pub busy : ℕ → Bool
  pub wakeups : ℕ

abbrev pub put_desc : (i : ℕ) → Desc → Disk → Disk
put_desc i v d = record d { desc = λ j. if j == i then v else d.desc j }

abbrev pub put_free : (i : ℕ) → Bool → Disk → Disk
put_free i v d = record d { free = λ j. if j == i then v else d.free j }

abbrev pub put_info : (i : ℕ) → Info → Disk → Disk
put_info i v d = record d { info = λ j. if j == i then v else d.info j }

abbrev pub put_busy : (b : ℕ) → Bool → Disk → Disk
put_busy b v d = record d { busy = λ c. if c == b then v else d.busy c }

-- The end of `virtio_disk_init`, with `n` rounds left, from `i` on.
unfoldable pub init_free : (n i : ℕ) → Disk → Disk
init_free zero i d = d
init_free (suc n) i d = init_free n (i + 1) (put_free i true d)

-- The loop of `alloc_desc` with `n` rounds left, from `i` on.
unfoldable pub alloc_desc_loop : (n i : ℕ) → Disk → Option (ℕ × Disk)
alloc_desc_loop zero i d = none
alloc_desc_loop (suc n) i d =
    let rest = alloc_desc_loop n (i + 1) d in
    if d.free i then some (i, put_free i false d) else rest

-- none where the source returns -1
unfoldable pub alloc_desc : Disk → Option (ℕ × Disk)
alloc_desc d = alloc_desc_loop num 0 d

-- What `free_desc` does to the descriptor.
unfoldable pub cleared : (i : ℕ) → Disk → Disk
cleared i d =
    let d₁ = put_free i true (put_desc i (record { addr = 0; len = 0; flags = 0; next = 0 }) d) in
    record d₁ { wakeups = d₁.wakeups + 1 }

pub free_desc : (i : ℕ) → Disk → Outcome Disk
free_desc i d =
    if leb num i
    then panic "free_desc 1"
    else (if d.free i then panic "free_desc 2" else ok (cleared i d))

-- The loop of `free_chain`, with a round for each descriptor.
unfoldable pub free_chain_loop : (fuel i : ℕ) → Disk → Outcome Disk
free_chain_loop zero i d = out_of_fuel
free_chain_loop (suc fuel) i d =
    let v = d.desc i in
    let go_on = if flag v.flags vring_desc_f_next then free_chain_loop fuel v.next else ok in
    free_desc i d >>= go_on

pub free_chain : (i : ℕ) → Disk → Outcome Disk
free_chain i d = free_chain_loop num i d

abbrev pub Three : Type 0
Three = ℕ × ℕ × ℕ

-- The rounds of the loop of `alloc3_desc`, the last one first, each for what `alloc_desc` returned;
-- where it failed, the descriptors of the rounds before are freed again.
unfoldable pub alloc_third : (a b : ℕ) → Disk → Option (ℕ × Disk) → Outcome (Option Three × Disk)
alloc_third a b d none = free_desc a d >>= free_desc b >>= λ d'. ok (none, d')
alloc_third a b d (some (c, d')) = ok (some (a, b, c), d')

unfoldable pub alloc_second : (a : ℕ) → Disk → Option (ℕ × Disk) → Outcome (Option Three × Disk)
alloc_second a d none = free_desc a d >>= λ d'. ok (none, d')
alloc_second a d (some (b, d')) = alloc_third a b d' (alloc_desc d')

unfoldable pub alloc_first : Disk → Option (ℕ × Disk) → Outcome (Option Three × Disk)
alloc_first d none = ok (none, d)
alloc_first d (some (a, d')) = alloc_second a d' (alloc_desc d')

unfoldable pub alloc3_desc : Disk → Outcome (Option Three × Disk)
alloc3_desc d = alloc_first d (alloc_desc d)

-- Where the structures lie in memory.
pub record Places : Type 0 where
  pub op_at : ℕ → ℕ
  pub status_at : ℕ → ℕ
  pub data_at : ℕ → ℕ

module _ (at : Places) where
  -- The request of `virtio_disk_rw` for block `blockno` and buffer `b`, in the descriptors that it
  -- has, up to where the device is told.
  unfoldable pub start : (write : Bool) (blockno b : ℕ) → Three → Disk → Disk
  start write blockno b (i, j, k) d =
      let type = if write then virtio_blk_t_out else virtio_blk_t_in in
      let sector = blockno * (bsize / 512) % 2 ^ 32 in
      let access = if write then 0 else vring_desc_f_write in
      let d₁ = record d {
        ops =
            λ m. if m == i then record { type = type; reserved = 0; sector = sector } else d.ops m;
      } in
      let d₂ =
        put_desc i (record { addr = at.op_at i; len = 16; flags = vring_desc_f_next; next = j })
          d₁ in
      let d₃ =
        put_desc j
          (record {
            addr = at.data_at b;
            len = bsize;
            flags = access + vring_desc_f_next;
            next = k;
          })
          d₂ in
      let d₄ = put_info i (record (d₃.info i) { status = 0xff }) d₃ in
      let d₅ =
        put_desc k (record { addr = at.status_at i; len = 1; flags = vring_desc_f_write; next = 0 })
          d₄ in
      let d₆ = put_info i (record (d₅.info i) { b = some b }) (put_busy b true d₅) in
      record d₆ {
        ring = λ m. if m == d₆.idx % num then i else d₆.ring m;
        idx = (d₆.idx + 1) % 2 ^ 16;
      }

  -- `virtio_disk_rw` behind `alloc3_desc`.
  unfoldable pub begin_with :
      (write : Bool) (blockno b : ℕ) → Option Three × Disk → Option Three × Disk
  begin_with write blockno b (none, d) = (none, d)
  begin_with write blockno b (some t, d) = (some t, start write blockno b t d)

  -- `virtio_disk_rw` up to the sleep for the request, with its descriptors; or up to a sleep for
  -- descriptors, in which it has none.
  unfoldable pub rw_begin : (write : Bool) (blockno b : ℕ) → Disk → Outcome (Option Three × Disk)
  rw_begin write blockno b d = alloc3_desc d >>= λ r. ok (begin_with write blockno b r)

-- The end of `virtio_disk_rw`, once the buffer is not busy.
unfoldable pub rw_end : (i : ℕ) → Disk → Outcome Disk
rw_end i d = free_chain i (put_info i (record (d.info i) { b = none }) d)

-- The body of the loop of `virtio_disk_intr`, for the request `id`. A request without a buffer would
-- be a null pointer.
unfoldable pub complete : (id : ℕ) → Disk → Option ℕ → Outcome Disk
complete id d none = panic "null pointer"
complete id d (some b) = ok (record (put_busy b false d) { used_idx = (d.used_idx + 1) % 2 ^ 16 })

-- The loop, for the index and the ring that the device has written. The requests that it may have
-- completed are at most `num`.
unfoldable pub intr_loop : (fuel used : ℕ) (ids : ℕ → ℕ) → Disk → Outcome Disk
intr_loop zero used ids d = if d.used_idx == used then ok d else out_of_fuel
intr_loop (suc fuel) used ids d =
    let id = ids (d.used_idx % num) in
    let round =
      if (d.info id).status == 0
      then (complete id d (d.info id).b >>= intr_loop fuel used ids)
      else panic "virtio_disk_intr status" in
    if d.used_idx == used then ok d else round

unfoldable pub virtio_disk_intr : (used : ℕ) (ids : ℕ → ℕ) → Disk → Outcome Disk
virtio_disk_intr used ids d = intr_loop num used ids d
