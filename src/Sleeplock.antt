-- ===== src/Sleeplock.antt =====
-- kernel/sleeplock.c: locks whose waiters sleep. Each function holds the spin lock `lk->lk` over what
-- it does, and is one step; `acquiresleep` in a state where it would sleep returns `none`. Whom
-- `wakeup` makes runnable is not part of the state: a waiter may try again at any time.
use mitcppos.Prelude.{ℕ, Bool, true, false, ◌&&◌, Option, none, some, ◌==◌, if◌then◌else◌}

pub record Sleeplock : Type 0 where
  pub locked : Bool
  pub pid : ℕ

pub initsleeplock : Sleeplock
initsleeplock = record { locked = false; pid = 0 }

-- `pid` is that of the calling process; woken up, a sleeper makes another call.
pub acquiresleep : (pid : ℕ) → Sleeplock → Option Sleeplock
acquiresleep pid lk = if lk.locked then none else some (record { locked = true; pid = pid })

pub releasesleep : Sleeplock → Sleeplock
releasesleep lk = record { locked = false; pid = 0 }

pub holdingsleep : (pid : ℕ) → Sleeplock → Bool
holdingsleep pid lk = lk.locked && lk.pid == pid
