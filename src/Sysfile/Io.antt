-- ===== src/Sysfile/Io.antt =====
-- kernel/file.c with pipes and inodes: what `fileclose` closes, `filestat`, `fileread` and
-- `filewrite`. Pipes stand by their addresses. `devsw` is the table of device drivers, `st` the
-- address of the local variable in `filestat`, and `ch` that in `pipewrite` and `piperead`.
use mitcppos.Prelude.{
  ℕ, zero, suc, ◌+◌, ◌-◌, ◌*◌, ◌/◌, ◌%◌, ◌^◌, Bool, true, not, Option, none, some, [], ltb, leb,
  ◌==◌, if◌then◌else◌, Outcome, ok, panic, out_of_fuel, ◌>>=◌,
}
use mitcppos.Prelude.Int.{ℤ, pos, negsuc, minus_one}
use mitcppos.Mem.{Mem, store_le, store64, store32}
use mitcppos.Kalloc.{Kmem}
use mitcppos.Vm.User.{copyout}
use mitcppos.Pipe.{Pipe, State, Turn, returns, sleeps, pipeclose, piperead, pipewrite}
use mitcppos.File.{File, fd_none, fd_pipe, fd_inode, fd_device, Ftable, put_file, fileclose}
use mitcppos.Log.{bsize, max_op_blocks}
use mitcppos.Fs.{FsState}
use mitcppos.Fs.Inodes.{ilock, iunlock, iput}
use mitcppos.Fs.Content.{Around, Stat, stati, readi, writei}
use mitcppos.Fs.Dir.{is_ℤ}

abbrev pub ndev : ℕ
ndev = 10

-- The file table with the pipes and inodes behind it. `fs` has the memory.
pub record Files : Type 0 where
  pub table : Ftable
  pub pipes : ℕ → Pipe
  pub fs : FsState

abbrev pub put_fs : Files → FsState → Files
put_fs w s = record w { fs = s }

abbrev pub put_kmem : Files → Kmem → Files
put_kmem w k = record w { fs = record w.fs { kmem = k } }

abbrev pub put_pipe : (pi : ℕ) → Files → State → Files
put_pipe pi w s = record w {
  pipes = λ i. if i == pi then s.pipe else w.pipes i;
  fs = record w.fs { kmem = s.kmem };
}

abbrev pub pipe_state : (pi : ℕ) → Files → State
pipe_state pi w = record { pipe = w.pipes pi; kmem = w.fs.kmem; woken = [] }

-- How a turn of a call ends: with a result, or asleep with `i` bytes done.
pub data Io : Type 0 where
  done : (r : ℤ) → Files → Io
  asleep : (i : ℕ) → Files → Io

-- A read or write function of a driver; none is a null pointer.
pub record Driver : Type 0 where
  pub read : Option ((addr : ℕ) (n : ℤ) → Files → Outcome Io)
  pub write : Option ((addr : ℕ) (n : ℤ) → Files → Outcome Io)

-- A size as `uint`, and as the count that `readi` returns.
abbrev pub uint_of : ℤ → ℕ
uint_of (pos n) = n % 2 ^ 32
uint_of (negsuc n) = 2 ^ 32 - 1 - n % 2 ^ 32

pub pipe_turn : (pi : ℕ) → Files → Turn → Io
pipe_turn pi w (returns r s) = done r (put_pipe pi w s)
pipe_turn pi w (sleeps i s) = asleep i (put_pipe pi w s)

-- `f->off += r` for `r` above 0, then `iunlock`
pub advance : (pid f : ℕ) → Files → ℤ × FsState → Outcome Files
advance pid f w (r, s) =
    let by : ℕ = elim r [ pos n ↦ n | negsuc _ ↦ 0 ] in
    let v = record (w.table f) { off = ((w.table f).off + by) % 2 ^ 32 } in
    iunlock pid (w.table f).ip s >>= λ s'. ok (record w { table = put_file f v w.table; fs = s' })

-- `struct stat` in memory
pub write_stat : (at : ℕ) → Stat → Mem → Mem
write_stat at st m =
    let numbers = store32 (store32 m at st.dev) (at + 4) st.ino in
    let kinds = store_le 2 (store_le 2 numbers (at + 8) st.type) (at + 10) st.nlink in
    store64 kinds (at + 16) st.size

module _ (env : Around) (kernel_end : ℕ) where
  -- The end of `fileclose`, with the entry as it was at the last reference.
  unfoldable pub close_last : Option File × Ftable → Files → Outcome Files
  close_last (none, t) w = ok (record w { table = t })
  close_last (some ff, t) w =
      let w' = record w { table = t } in
      elim ff.type [
        | fd_none ↦ ok w'
        | fd_pipe ↦ pipeclose kernel_end ff.pipe ff.writable (pipe_state ff.pipe w') >>= λ s.
            ok (put_pipe ff.pipe w' s)
        | fd_inode ↦ iput env.sb env.pid ff.ip w'.fs >>= λ s. ok (put_fs w' s)
        | fd_device ↦ iput env.sb env.pid ff.ip w'.fs >>= λ s. ok (put_fs w' s)
      ]

  unfoldable pub close_file : (f : ℕ) → Files → Outcome Files
  close_file f w = fileclose f w.table >>= λ r. close_last r w

  pub filestat : (st f addr : ℕ) → Files → Outcome (ℤ × Files)
  filestat st f addr w =
      let ip = (w.table f).ip in
      let of_inode = ilock env.sb env.pid ip w.fs >>= λ s.
      let stat = stati (s.inode ip) in
      iunlock env.pid ip s >>= λ s'.
      let filled = record s' { kmem = record s'.kmem { mem = write_stat st stat s'.kmem.mem } } in
      copyout env.pagetable addr st 24 filled.kmem >>= λ (r, k).
      ok (
        elim r as (λ _. ℤ) [ pos _ ↦ pos 0 | negsuc _ ↦ minus_one ],
        put_kmem (put_fs w filled) k,
      ) in
      elim (w.table f).type [
        | fd_none ↦ ok (minus_one, w)
        | fd_pipe ↦ ok (minus_one, w)
        | fd_inode ↦ of_inode
        | fd_device ↦ of_inode
      ]

  -- What both calls do with a device: `driver` is its function.
  pub of_device :
      (major : ℕ) (driver : Option ((addr : ℕ) (n : ℤ) → Files → Outcome Io)) (addr : ℕ) (n : ℤ)
      → Files
      → Outcome Io
  of_device major none addr n w = ok (done minus_one w)
  of_device major (some go) addr n w = if leb ndev major then ok (done minus_one w) else go addr n w

  module _ (devsw : ℕ → Driver) (ch : ℕ) (killed : Bool) where
    -- A turn. `readi` takes the size as `uint`.
    pub fileread : (f addr : ℕ) (n : ℤ) → Files → Outcome Io
    fileread f addr n w =
        let file = w.table f in
        let of_inode = ilock env.sb env.pid file.ip w.fs >>= λ s.
        readi env file.ip true addr file.off (uint_of n) s >>= λ (r, s').
        advance env.pid f w (r, s') >>= λ w'. ok (done r w') in
        let of_pipe = piperead env.pagetable ch killed addr n (pipe_state file.pipe w) >>= λ t.
        ok (pipe_turn file.pipe w t) in
        if not file.readable then ok (done minus_one w) else (elim file.type [
          | fd_none ↦ panic "fileread"
          | fd_pipe ↦ of_pipe
          | fd_inode ↦ of_inode
          | fd_device ↦ of_device file.major (devsw file.major).read addr n w
        ])

    -- the most bytes of one transaction
    abbrev pub max_write : ℕ
    max_write = (max_op_blocks - 1 - 1 - 2) / 2 * bsize

    -- The loop of `filewrite` with `left` bytes to write from `addr` on, `n` in all.
    pub write_inode : (fuel f addr left n : ℕ) → Files → Outcome Io
    write_inode zero f addr left n w = if left == 0 then ok (done (pos n) w) else out_of_fuel
    write_inode (suc fuel) f addr left n w =
        let file = w.table f in
        let n1 = if ltb max_write left then max_write else left in
        let more = write_inode fuel f ((addr + n1) % 2 ^ 64) (left - n1) n in
        let turn = ilock env.sb env.pid file.ip w.fs >>= λ s.
        writei env file.ip true addr file.off n1 s >>= λ (r, s').
        advance env.pid f w (r, s') >>= λ w'.
        if is_ℤ r n1 then more w' else ok (done minus_one w') in
        if left == 0 then ok (done (pos n) w) else turn

    pub filewrite : (f addr : ℕ) (n : ℤ) → Files → Outcome Io
    filewrite f addr n w =
        let file = w.table f in
        let of_inode : Outcome Io = elim n [
          | pos m ↦ write_inode m f addr m m w
          | negsuc _ ↦ ok (done minus_one w)
        ] in
        let of_pipe = pipewrite env.pagetable ch killed addr n (pipe_state file.pipe w) >>= λ t.
        ok (pipe_turn file.pipe w t) in
        if not file.writable then ok (done minus_one w) else (elim file.type [
          | fd_none ↦ panic "filewrite"
          | fd_pipe ↦ of_pipe
          | fd_inode ↦ of_inode
          | fd_device ↦ of_device file.major (devsw file.major).write addr n w
        ])
