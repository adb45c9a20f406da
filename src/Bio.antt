-- ===== src/Bio.antt =====
-- kernel/bio.c: the buffer cache, a ring of buffers through `prev` and `next`, the one used last at
-- its head. What a function does under `bcache.lock` is one step of the model; so is what it does
-- under the sleep lock of a buffer.
use mitcppos.Prelude.{
  ℕ, zero, suc, ◌+◌, ◌-◌, ◌*◌, ◌%◌, ◌^◌, Bool, true, false, not, ◌&&◌, Option, none, some, ◌==◌,
  if◌then◌else◌, Outcome, ok, panic, out_of_fuel, ◌>>=◌,
}
use mitcppos.Riscv.{nbuf}
use mitcppos.Sleeplock.{Sleeplock, initsleeplock, acquiresleep, releasesleep, holdingsleep}
pub mod Ring
pub mod Init
pub mod Lookup
mod Tests

-- `prev` and `next` are numbers of buffers.
pub record Buf : Type 0 where
  pub valid : Bool
  pub dev : ℕ
  pub blockno : ℕ
  pub lock : Sleeplock
  pub refcnt : ℕ
  pub prev : ℕ
  pub next : ℕ
  pub contents : ℕ → ℕ

-- Buffer `nbuf` is `bcache.head`. `disk` is what `virtio_disk_rw` reads and writes.
pub record Bcache : Type 0 where
  pub buf : ℕ → Buf
  pub disk : (dev blockno : ℕ) → ℕ → ℕ

abbrev pub head : ℕ
head = nbuf

abbrev pub put_buf : ℕ → Buf → Bcache → Bcache
put_buf b v c = record c { buf = λ i. if i == b then v else c.buf i }

abbrev pub set_next : (b to : ℕ) → Bcache → Bcache
set_next b to c = put_buf b (record (c.buf b) { next = to }) c

abbrev pub set_prev : (b to : ℕ) → Bcache → Bcache
set_prev b to c = put_buf b (record (c.buf b) { prev = to }) c

-- `b` goes behind the head: four of the lines of `binit` and of `brelse`.
pub link_front : (b : ℕ) → Bcache → Bcache
link_front b c =
    let c₁ = set_next b (c.buf head).next c in
    let c₂ = set_prev b head c₁ in let c₃ = set_prev (c₂.buf head).next b c₂ in set_next head b c₃

pub unlink : (b : ℕ) → Bcache → Bcache
unlink b c =
    let c₁ = set_prev (c.buf b).next (c.buf b).prev c in set_next (c₁.buf b).prev (c₁.buf b).next c₁

-- The loop of `binit` with `n` buffers left, from buffer `b` on.
pub binit_loop : (n b : ℕ) → Bcache → Bcache
binit_loop zero b c = c
binit_loop (suc n) b c =
    let c' = link_front b c in
    binit_loop n (b + 1) (put_buf b (record (c'.buf b) { lock = initsleeplock }) c')

pub binit : Bcache → Bcache
binit c = binit_loop nbuf 0 (set_next head head (set_prev head head c))

-- The loops of `bget`, along `next` from `b` for the block, and along `prev` for a buffer not in use.
pub find_block : (fuel dev blockno b : ℕ) → Bcache → Outcome (Option ℕ)
find_block zero dev blockno b c = out_of_fuel
find_block (suc fuel) dev blockno b c =
    let rest = find_block fuel dev blockno (c.buf b).next c in
    if b == head
    then ok none
    else (if ((c.buf b).dev == dev) && ((c.buf b).blockno == blockno) then ok (some b) else rest)

pub find_unused : (fuel b : ℕ) → Bcache → Outcome (Option ℕ)
find_unused zero b c = out_of_fuel
find_unused (suc fuel) b c =
    let rest = find_unused fuel (c.buf b).prev c in
    if b == head then ok none else (if (c.buf b).refcnt == 0 then ok (some b) else rest)

abbrev pub uint_size : ℕ
uint_size = 2 ^ 32

pub bpin : (b : ℕ) → Bcache → Bcache
bpin b c = put_buf b (record (c.buf b) { refcnt = ((c.buf b).refcnt + 1) % uint_size }) c

pub recycle : (dev blockno b : ℕ) → Bcache → Bcache
recycle dev blockno b c =
    put_buf b (record (c.buf b) { dev = dev; blockno = blockno; valid = false; refcnt = 1 }) c

-- `bget` up to its `acquiresleep`, which `block_buf` is.
pub bget : (dev blockno : ℕ) → Bcache → Outcome (ℕ × Bcache)
bget dev blockno c =
    let second : Option ℕ → Outcome (ℕ × Bcache) =
      λ o. elim o [ none ↦ panic "bget: no buffers" | some b ↦ ok (b, recycle dev blockno b c) ] in
    let first : Option ℕ → Outcome (ℕ × Bcache) = λ o. elim o [
      | none ↦ find_unused (suc nbuf) (c.buf head).prev c >>= second
      | some b ↦ ok (b, bpin b c)
    ] in
    find_block (suc nbuf) dev blockno (c.buf head).next c >>= first

-- `none` where the caller sleeps
pub block_buf : (pid b : ℕ) → Bcache → Option Bcache
block_buf pid b c = elim (acquiresleep pid (c.buf b).lock) [
  | none ↦ none
  | some lk ↦ some (put_buf b (record (c.buf b) { lock = lk }) c)
]

-- `bread` behind its `bget`
pub bread_locked : (b : ℕ) → Bcache → Bcache
bread_locked b c =
    put_buf b
      (record (c.buf b) {
        valid = true;
        contents =
            if (c.buf b).valid then (c.buf b).contents else c.disk (c.buf b).dev (c.buf b).blockno;
      })
      c

pub bwrite : (pid b : ℕ) → Bcache → Outcome Bcache
bwrite pid b c =
    if not (holdingsleep pid (c.buf b).lock)
    then panic "bwrite"
    else ok (record c {
      disk = λ dev blockno.
          if (dev == (c.buf b).dev) && (blockno == (c.buf b).blockno)
          then (c.buf b).contents
          else c.disk dev blockno;
    })

pub bunpin : (b : ℕ) → Bcache → Bcache
bunpin b c =
    put_buf b (record (c.buf b) { refcnt = ((c.buf b).refcnt + uint_size - 1) % uint_size }) c

-- The part of `brelse` under `bcache.lock`.
pub release_buf : (b : ℕ) → Bcache → Bcache
release_buf b c =
    let c' = bunpin b c in if (c'.buf b).refcnt == 0 then link_front b (unlink b c') else c'

pub brelse : (pid b : ℕ) → Bcache → Outcome Bcache
brelse pid b c =
    if not (holdingsleep pid (c.buf b).lock)
    then panic "brelse"
    else ok (release_buf b (put_buf b (record (c.buf b) { lock = releasesleep (c.buf b).lock }) c))
