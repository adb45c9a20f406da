-- ===== src/Log.antt =====
-- kernel/log.c: the write-ahead log. The buffer cache is seen through what it promises: `bread`
-- finds in a buffer what the kernel last left there (`view`), `bwrite` copies a buffer to the disk,
-- and a pinned buffer is not recycled. The disk writes one block at a time, and the power may fail
-- before any write: `budget` is the number of writes until then.
pub mod Header
pub mod Loops
pub mod Recover
pub mod Crash
pub mod Total
pub mod Kept
pub mod Allowance
pub mod Reserve
mod Tests
use mitcppos.Prelude.{
  ℕ, zero, suc, ◌+◌, ◌-◌, ◌*◌, Bool, true, false, ◌||◌, List, [], ◌∷◌, ◌++◌, length, has, ltb, leb,
  ◌==◌, if◌then◌else◌, String,
}
use mitcppos.Mem.{Mem, load32, store32}

abbrev pub Block : Type 0
Block = Mem

abbrev pub Disk : Type 0
Disk = ℕ → Block

abbrev pub update {ℓ} : {A : Type ℓ} → (ℕ → A) → ℕ → A → ℕ → A
update f b v = λ c. if c == b then v else f c

abbrev pub bsize : ℕ
bsize = 1024

abbrev pub max_op_blocks : ℕ
max_op_blocks = 10

abbrev pub log_size : ℕ
log_size = max_op_blocks * 3

-- `log`, with the buffers and the disk. `blocks` is `lh.block[0..lh.n)`; `log.start` and
-- `log.size`, which only `initlog` writes, are parameters below. `log.dev` is the one disk.
pub record Log : Type 0 where
  pub disk : Disk
  pub view : Disk
  pub pins : ℕ → ℕ
  pub blocks : List ℕ
  pub outstanding : ℕ
  pub committing : Bool
  pub budget : ℕ

-- `crashed` has what the disk held when the power failed. `asleep` is a call that waits on `&log`.
pub data Run : Type 0 where
  done : Log → Run
  asleep : Log → Run
  crashed : Disk → Run
  panicked : String → Run

infixl 5 ◌>>=◌
abbrev pub ◌>>=◌ : Run → (Log → Run) → Run
done s >>= f = f s
asleep s >>= f = asleep s
crashed d >>= f = crashed d
panicked p >>= f = panicked p

abbrev pub write_block : ℕ → ℕ → Log → Run
write_block zero b s = crashed s.disk
write_block (suc n) b s = done (record s { disk = update s.disk b (s.view b); budget = n })

pub bwrite : (b : ℕ) → Log → Run
bwrite b s = write_block s.budget b s

abbrev bpin : (b : ℕ) → Log → Log
bpin b s = record s { pins = update s.pins b (s.pins b + 1) }

-- `if(recovering == 0) bunpin(b);`
abbrev pub bunpin_unless : Bool → (b : ℕ) → Log → Log
bunpin_unless recovering b s = record s {
  pins = if recovering then s.pins else update s.pins b (s.pins b - 1);
}

-- `memmove(dst->data, src->data, BSIZE)`
abbrev pub copy_block : (dst src : ℕ) → Log → Log
copy_block dst src s = record s { view = update s.view dst (s.view src) }

-- `struct logheader` in a block: `n` at offset 0, `block[i]` at offset `4 + 4 * i`
pub get_blocks : (n i : ℕ) → Block → List ℕ
get_blocks zero i d = []
get_blocks (suc n) i d = load32 d (4 + 4 * i) ∷ get_blocks n (i + 1) d

pub put_blocks : (i : ℕ) → List ℕ → Block → Block
put_blocks i [] d = d
put_blocks i (b ∷ bs) d = put_blocks (i + 1) bs (store32 d (4 + 4 * i) b)

-- the block numbers of a header block
pub header : Block → List ℕ
header d = get_blocks (load32 d 0) 0 d

pub set_header : List ℕ → Block → Block
set_header bs d = put_blocks 0 bs (store32 d 0 (length bs))

module _ (start : ℕ) where
  pub install_loop : Bool → (tail : ℕ) → List ℕ → Log → Run
  install_loop recovering tail [] s = done s
  install_loop recovering tail (b ∷ bs) s = bwrite b (copy_block b (start + tail + 1) s) >>= λ s'.
      install_loop recovering (tail + 1) bs (bunpin_unless recovering b s')

  pub install_trans : Bool → Log → Run
  install_trans recovering s = install_loop recovering 0 s.blocks s

  -- The header's `n` is an `int`; `write_head` leaves no negative one.
  pub read_head : Log → Log
  read_head s = record s { blocks = header (s.view start) }

  pub write_head : Log → Run
  write_head s =
      bwrite start (record s { view = update s.view start (set_header s.blocks (s.view start)) })

  pub recover_from_log : Log → Run
  recover_from_log s =
      install_trans true (read_head s) >>= λ s'. write_head (record s' { blocks = [] })

  pub write_log_loop : (tail : ℕ) → List ℕ → Log → Run
  write_log_loop tail [] s = done s
  write_log_loop tail (b ∷ bs) s =
      bwrite (start + tail + 1) (copy_block (start + tail + 1) b s) >>= λ s'.
      write_log_loop (tail + 1) bs s'

  pub write_log : Log → Run
  write_log s = write_log_loop 0 s.blocks s

  pub commit : Log → Run
  commit s =
      if ltb 0 (length s.blocks)
      then (do
        s₁ ← write_log s
        s₂ ← write_head s₁
        s₃ ← install_trans false s₂
        write_head (record s₃ { blocks = [] }))
      else done s

-- One round of the loop of `begin_op`; woken up, a sleeper makes another.
pub begin_op : Log → Run
begin_op s =
    if s.committing || ltb log_size (length s.blocks + (s.outstanding + 1) * max_op_blocks)
    then asleep s
    else done (record s { outstanding = s.outstanding + 1 })

-- The first part of `end_op`, under the lock: the flag says whether this call is to commit. The
-- source decrements an `int`; each call here has its `begin_op`, so that the count is not 0 before.
pub end_enter : Log → Run
end_enter s =
    let s' = record s { outstanding = s.outstanding - 1 } in
    if s.committing
    then panicked "log.committing"
    else (if s.outstanding == 1 then done (record s' { committing = true }) else done s')

-- The second part: the commit, without the lock, and the end of it.
pub end_commit : (start : ℕ) → Log → Run
end_commit start s = commit start s >>= λ s'. done (record s' { committing = false })

pub end_op : (start : ℕ) → Log → Run
end_op start s = do s' ← end_enter s; if s'.committing then end_commit start s' else done s'

-- The checks of `log_write`, which it makes without the lock.
pub log_check : (size : ℕ) → Log → Run
log_check size s =
    if leb log_size (length s.blocks) || leb (size - 1) (length s.blocks)
    then panicked "too big a transaction"
    else (if ltb s.outstanding 1 then panicked "log_write outside of trans" else done s)

-- The rest, under the lock, some time later; `b` is the number of the caller's buffer.
pub log_append : (b : ℕ) → Log → Log
log_append b s = if has b s.blocks then s else record (bpin b s) { blocks = s.blocks ++ (b ∷ []) }

-- Both with no other process in between.
pub log_write : (size b : ℕ) → Log → Run
log_write size b s = log_check size s >>= λ s'. done (log_append b s')

-- The kernel's state when it starts on what a disk holds.
pub reboot : Disk → (budget : ℕ) → Log
reboot d n = record {
  disk = d;
  view = d;
  pins = λ _. 0;
  blocks = [];
  outstanding = 0;
  committing = false;
  budget = n;
}

-- The header takes `4 * (LOGSIZE + 1)` bytes.
pub initlog : (start : ℕ) → Log → Run
initlog start s =
    if leb bsize (4 * (log_size + 1))
    then panicked "initlog: too big logheader"
    else recover_from_log start s
