-- ===== src/Spinlock.antt =====
-- kernel/spinlock.c: locks that spin, and the nesting of `push_off` and `pop_off`. What one
-- instruction does to the lock is one definition here; `acquire` and `release` are their sequences,
-- which the steps of `Spinlock.Exclusion` interleave.
use mitcppos.Prelude.{
  ℕ, ◌+◌, ◌-◌, Bool, true, false, ◌&&◌, not, Option, none, some, ltb, ◌==◌, if◌then◌else◌, Outcome,
  ok, panic,
}
pub mod Nesting
pub mod Exclusion
mod Tests

-- `cpu` is the holder's number.
pub record Spinlock : Type 0 where
  pub locked : Bool
  pub cpu : Option ℕ

-- A processor's `noff` and `intena`, and whether its interrupts are on.
pub record Cpu : Type 0 where
  pub noff : ℕ
  pub intena : Bool
  pub intr : Bool

pub initlock : Spinlock
initlock = record { locked = false; cpu = none }

pub push_off : Cpu → Cpu
push_off c = record {
  noff = c.noff + 1;
  intena = if c.noff == 0 then c.intr else c.intena;
  intr = false;
}

pub pop_off : Cpu → Outcome Cpu
pop_off c =
    if c.intr
    then panic "pop_off - interruptible"
    else (if ltb c.noff 1
        then panic "pop_off"
        else ok (record c { noff = c.noff - 1; intr = (c.noff == 1) && c.intena }))

-- the holder is processor `me`
unfoldable pub held_by : (me : ℕ) → Option ℕ → Bool
held_by me none = false
held_by me (some c) = c == me

unfoldable pub holding : (me : ℕ) → Spinlock → Bool
holding me lk = lk.locked && held_by me lk.cpu

-- `acquire` up to its loop
pub acquire_enter : (me : ℕ) → Cpu → Spinlock → Outcome Cpu
acquire_enter me c lk = if holding me lk then panic "acquire" else ok (push_off c)

-- `__sync_lock_test_and_set(&lk->locked, 1)`: the old value, and the lock
pub test_and_set : Spinlock → Bool × Spinlock
test_and_set lk = (lk.locked, record lk { locked = true })

-- the rest of `acquire`
pub acquire_done : (me : ℕ) → Spinlock → Spinlock
acquire_done me lk = record lk { cpu = some me }

-- `release` up to the clearing of `lk->cpu`
pub release_enter : (me : ℕ) → Spinlock → Outcome Spinlock
release_enter me lk = if not (holding me lk) then panic "release" else ok (record lk { cpu = none })

-- `__sync_lock_release(&lk->locked)`, which `pop_off` follows
pub lock_release : Spinlock → Spinlock
lock_release lk = record lk { locked = false }
