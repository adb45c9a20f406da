-- ===== src/Log/Reserve.antt =====
-- Reservation: `begin_op` admits an operation only if `LOGSIZE` blocks are enough for all that the
-- operations in progress may still write.
use mitcppos.Prelude.{
  ℕ, zero, suc, ◌+◌, ◌-◌, ◌≤◌, ◌<◌, ◌≡◌, refl, arith, Bool, true, false, List, [], ◌∷◌, length,
  length-append, set, get_elem?, some, inl, inr, Bool-cases, ltb, ◌||◌, leb, if◌then◌else◌, ◌==◌,
  length-set,
}
use mitcppos.Log.Allowance.{
  sum, remove, AllAtMost, sum-le, sum-set, each-set, sum-remove, length-remove, each-remove,
  get-length, get-sum,
}
use mitcppos.Log.Kept.{blocks-commit}
use mitcppos.Log.{
  Log, Run, done, asleep, crashed, panicked, ◌>>=◌, commit, begin_op, end_enter, end_commit,
  log_write, log_check, log_append, log_size, max_op_blocks,
}

-- The log, and for each operation in progress the writes that it may still make.
pub record System : Type 0 where
  pub log : Log
  pub left : List ℕ

abbrev pub system : Log → List ℕ → System
system s l = record { log = s; left = l }

-- What the file system calls in progress do to the log, in any order. An operation makes
-- `MAXOPBLOCKS` calls of `log_write` at most.
pub data Step (start : ℕ) : System → System → Type 0 where
  begins :
      {s s' : Log} {l : List ℕ}
      → begin_op s ≡ done s'
      → Step start (system s l) (system s' (max_op_blocks ∷ l))
  -- The checks of this call were some time before: the step does not depend on them.
  writes :
      {s : Log} {l : List ℕ} (i r b : ℕ)
      → get_elem? l i ≡ some (suc r)
      → Step start (system s l) (system (log_append b s) (set l i r))
  ends :
      {s s' : Log} {l : List ℕ} (i r : ℕ)
      → get_elem? l i ≡ some r
      → end_enter s ≡ done s'
      → Step start (system s l) (system s' (remove l i))
  commits :
      {s s' : Log} {l : List ℕ}
      → s.committing ≡ true
      → end_commit start s ≡ done s'
      → Step start (system s l) (system s' l)

pub data Reach (start : ℕ) (s : System) : System → Type 0 where
  here : Reach start s s
  next : {t u : System} → Reach start s t → Step start t u → Reach start s u

pub record Reserved (s : System) : Type 0 where
  pub counted : s.log.outstanding ≡ length s.left
  pub room : length s.log.blocks + sum s.left ≤ log_size
  pub each : AllAtMost max_op_blocks s.left
  pub quiet : s.log.committing ≡ true → length s.left ≡ 0

Reserved-begins :
    (s s' : Log) (l : List ℕ)
    → begin_op s ≡ done s'
    → Reserved (system s l)
    → Reserved (system s' (max_op_blocks ∷ l))
unfolding begin_op sum
Reserved-begins s s' l e inv = record {
  counted = ground arith;
  room = ground (arith, sum-le max_op_blocks l inv.each);
  each = (omega arith, inv.each);
  quiet = ground arith;
}

Reserved-writes :
    (s : Log) (l : List ℕ) (i r b : ℕ)
    → get_elem? l i ≡ some (suc r)
    → Reserved (system s l)
    → Reserved (system (log_append b s) (set l i r))
unfolding log_append
Reserved-writes s l i r b e inv = record {
  counted = ground (arith, length-set l i r);
  room = ground (arith, sum-set l i r e, length-append s.blocks (b ∷ []));
  each = each-set max_op_blocks l i r e inv.each;
  quiet = ground (arith, length-set l i r);
}

Reserved-ends :
    (s s' : Log) (l : List ℕ) (i r : ℕ)
    → get_elem? l i ≡ some r
    → end_enter s ≡ done s'
    → Reserved (system s l)
    → Reserved (system s' (remove l i))
unfolding end_enter
Reserved-ends s s' l i r e run inv = record {
  counted = ground (arith, length-remove l i r e);
  room = ground (arith, sum-remove l i);
  each = each-remove max_op_blocks l i inv.each;
  quiet = ground (arith, length-remove l i r e);
}

Reserved-commits :
    (start : ℕ) (s s' : Log) (l : List ℕ)
    → s.committing ≡ true
    → end_commit start s ≡ done s'
    → Reserved (system s l)
    → Reserved (system s' l)
unfolding end_commit
Reserved-commits start s s' l c run inv = go (commit start s) refl run
  where
    go :
        (r : Run)
        → commit start s ≡ r
        → (r >>= λ t. done (record t { committing = false })) ≡ done s'
        → Reserved (system s' l)
    go (done t) e f =
        let (blocks, outstanding) = blocks-commit start s t e in
        record {
          counted = ground (arith, inv.counted);
          room = ground (arith, inv.room);
          each = inv.each;
          quiet = ground (arith, inv.quiet c);
        }
    go (asleep t) e f = absurd (ground arith)
    go (crashed d) e f = absurd (ground arith)
    go (panicked p) e f = absurd (ground arith)

-- Every step of the file system calls keeps the reservation.
pub Step-Reserved : {start : ℕ} {s t : System} → Step start s t → Reserved s → Reserved t
Step-Reserved (begins {s} {s'} {l} e) inv = Reserved-begins s s' l e inv
Step-Reserved (writes {s} {l} i r b e) inv = Reserved-writes s l i r b e inv
Step-Reserved (ends {s} {s'} {l} i r h e) inv = Reserved-ends s s' l i r h e inv
Step-Reserved {start} (commits {s} {s'} {l} c e) inv = Reserved-commits start s s' l c e inv

pub Reach-Reserved : {start : ℕ} {s t : System} → Reserved s → Reach start s t → Reserved t
Reach-Reserved inv here = inv
Reach-Reserved inv (next r st) = Step-Reserved st (Reach-Reserved inv r)

branch-done : (b : Bool) (x y : Log) → (u : Log) × ((if b then done x else done y) ≡ done u)
branch-done true x y = (x, refl)
branch-done false x y = (y, refl)

-- What becomes of a call of `log_write` for block `b` by an operation that may make `r` more.
pub data Allowed (size b : ℕ) (s : Log) : (r : ℕ) → Type 0 where
  spent : Allowed size b s 0
  appended :
      {r : ℕ}
      → length s.blocks < log_size
      → log_write size b s ≡ done (log_append b s)
      → Allowed size b s (suc r)
  refused :
      {r : ℕ}
      → length s.blocks + 1 ≡ log_size
      → size ≡ log_size
      → log_write size b s ≡ panicked "too big a transaction"
      → Allowed size b s (suc r)

log_write-Allowed :
    (size b r : ℕ) (s : Log)
    → length s.blocks < log_size
    → log_size ≤ size
    → 0 < s.outstanding
    → Allowed size b s (suc r)
unfolding log_write log_check
log_write-Allowed size b r s small big active =
    elim (Bool-cases (leb log_size (length s.blocks) || leb (size - 1) (length s.blocks))) [
      | inl full ↦ refused (ground (arith, full)) (ground (arith, full)) (rw full refl)
      | inr room ↦
          let inside : ltb s.outstanding 1 ≡ false = ground (arith, active) in
          appended small (rw (room, inside) refl)
    ]

end_enter-done : (s : Log) → s.committing ≡ false → (u : Log) × (end_enter s ≡ done u)
unfolding end_enter
end_enter-done s quiet = rw quiet (branch-done (s.outstanding == 1) _ _)

r-Allowed :
    (size b r : ℕ) (s : Log)
    → length s.blocks + r ≤ log_size
    → log_size ≤ size
    → 0 < s.outstanding
    → Allowed size b s r
r-Allowed size b zero s room big active = spent
r-Allowed size b (suc r) s room big active =
    log_write-Allowed size b r s (omega (arith, room)) big active

-- Wherever the operations in progress have got to, in whatever order they ran, each within its
-- allowance of `MAXOPBLOCKS` calls of `log_write`, in a log of `size` blocks, at least `LOGSIZE`: a
-- call of `log_write` that an operation may still make finds fewer than `LOGSIZE` blocks, and
-- appends its block; or it panics, and then `size` is just `LOGSIZE` and one place of `LOGSIZE` is
-- left. And no operation ends while a commit is in progress. The step that appends does not rest on
-- the checks of `log_write`, which the code makes before it has the lock.
pub Reach-Allowed :
    {start size : ℕ} {s t : System} (i r b : ℕ)
    → log_size ≤ size
    → Reserved s
    → Reach start s t
    → get_elem? t.left i ≡ some r
    → Allowed size b t.log r × ((u : Log) × (end_enter t.log ≡ done u))
Reach-Allowed {size} {t} i r b big inv reach e =
    let inv' = Reach-Reserved inv reach in
    let some_left = get-length t.left i r e in
    let some_room = get-sum t.left i r e in
    (
      r-Allowed size b r t.log (omega (arith, inv'.room, some_room)) big
          (omega (arith, inv'.counted, some_left)),
      end_enter-done t.log (ground (arith, inv'.quiet, some_left)),
    )
