-- ===== src/Fs/Content.antt =====
-- kernel/fs.c: reading and writing what an inode holds. The bytes of a buffer stand in the kernel's
-- memory while they are copied. The counts that `readi` and `writei` return are sizes of parts of a
-- file, which an `int` holds.
use mitcppos.Prelude.{
  ℕ, zero, suc, ◌+◌, ◌-◌, ◌*◌, ◌/◌, ◌%◌, ◌^◌, Bool, ◌||◌, ◌∷◌, ltb, ◌==◌, if◌then◌else◌, Outcome,
  ok, out_of_fuel, ◌>>=◌,
}
use mitcppos.Prelude.Int.{ℤ, pos, negsuc, minus_one}
use mitcppos.Mem.{Mem}
use mitcppos.Kalloc.{Kmem}
use mitcppos.Log.{bsize}
use mitcppos.Proc.Memory.{either_copyout, either_copyin}
use mitcppos.Fs.{Superblock, Inode, FsState, maxfile, put_inode}
use mitcppos.Fs.Inodes.{bmap, iupdate}
pub mod Read

-- What the functions find around them: the superblock, the calling process's number and page table,
-- where the buffer of a block has its `data`, and where `dirlookup` and `dirlink` have `de`.
pub record Around : Type 0 where
  pub sb : Superblock
  pub pid : ℕ
  pub pagetable : ℕ
  pub data_at : ℕ → ℕ
  pub de : ℕ

-- `struct stat`
pub record Stat : Type 0 where
  pub dev : ℕ
  pub ino : ℕ
  pub type : ℕ
  pub nlink : ℕ
  pub size : ℕ

pub stati : Inode → Stat
stati ip = record { dev = ip.dev; ino = ip.inum; type = ip.type; nlink = ip.nlink; size = ip.size }

-- The block's bytes in the buffer at `at`, and back.
pub fill_buf : (at : ℕ) → Mem → Kmem → Kmem
fill_buf at bytes k = record k {
  mem = λ a. if ltb a at || ltb (at + bsize - 1) a then k.mem a else bytes (a - at);
}

pub buf_bytes : (at : ℕ) → Kmem → Mem
buf_bytes at k = λ i. k.mem (at + i)

abbrev pub chunk : (left off : ℕ) → ℕ
chunk left off = if ltb left (bsize - off % bsize) then left else bsize - off % bsize

module _ (env : Around) where
  -- What follows the copy of `m` bytes in `readi`: `more`, or the end with `tot = -1`.
  pub read_on :
      (more : FsState → Outcome (ℤ × FsState)) → FsState → ℤ × Kmem → Outcome (ℤ × FsState)
  read_on more s (pos _, k) = more (record s { kmem = k })
  read_on more s (negsuc _, k) = ok (minus_one, record s { kmem = k })

  -- The loop of `readi` with fuel `fuel`, and `left` bytes left of `n`.
  pub readi_loop :
      (fuel ip : ℕ) (user_dst : Bool) (dst off left n : ℕ) → FsState → Outcome (ℤ × FsState)
  readi_loop zero ip user_dst dst off left n s = if left == 0 then ok (pos n, s) else out_of_fuel
  readi_loop (suc fuel) ip user_dst dst off left n s =
      let m = chunk left off in
      let more = readi_loop fuel ip user_dst (dst + m) (off + m) (left - m) n in
      let at = env.data_at in
      let copied : ℕ × FsState → Outcome (ℤ × FsState) = λ (b, s').
        either_copyout env.pagetable user_dst dst (at b + off % bsize) m
          (fill_buf (at b) (s'.block b) s'.kmem)
        >>= read_on more s' in
      if left == 0 then ok (pos n, s) else (bmap env.sb ip (off / bsize) s >>= copied)

  pub readi : (ip : ℕ) (user_dst : Bool) (dst off n : ℕ) → FsState → Outcome (ℤ × FsState)
  readi ip user_dst dst off n s =
      let size = (s.inode ip).size in
      let n' = if ltb size (off + n) then size - off else n in
      if ltb size off || ltb ((off + n) % 2 ^ 32) off
      then ok (pos 0, s)
      else readi_loop n' ip user_dst dst off n' n' s

  -- The end of `writei`, at offset `off` with `tot` bytes written.
  pub writei_end : (ip off tot : ℕ) → FsState → Outcome (ℤ × FsState)
  writei_end ip off tot s =
      let v = s.inode ip in
      let grown = if ltb v.size off then put_inode ip (record v { size = off }) s else s in
      ok (pos tot, iupdate env.sb ip grown)

  -- What follows the copy to the buffer of block `b`, with the `log_write` if it succeeded. Where it
  -- failed, the bytes that were copied stay in the buffer.
  pub write_on :
      (more stop : FsState → Outcome (ℤ × FsState)) (b : ℕ)
      → FsState
      → ℤ × Kmem
      → Outcome (ℤ × FsState)
  write_on more stop b s (pos _, k) = more (record s {
    kmem = k;
    block = λ c. if c == b then buf_bytes (env.data_at b) k else s.block c;
    logged = b ∷ s.logged;
  })
  write_on more stop b s (negsuc _, k) = stop (record s {
    kmem = k;
    block = λ c. if c == b then buf_bytes (env.data_at b) k else s.block c;
  })

  pub writei_loop :
      (fuel ip : ℕ) (user_src : Bool) (src off left tot : ℕ) → FsState → Outcome (ℤ × FsState)
  writei_loop zero ip user_src src off left tot s =
      if left == 0 then writei_end ip off tot s else out_of_fuel
  writei_loop (suc fuel) ip user_src src off left tot s =
      let m = chunk left off in
      let more = writei_loop fuel ip user_src (src + m) (off + m) (left - m) (tot + m) in
      let at = env.data_at in
      let copied : ℕ × FsState → Outcome (ℤ × FsState) = λ (b, s').
        either_copyin env.pagetable (at b + off % bsize) user_src src m
          (fill_buf (at b) (s'.block b) s'.kmem)
        >>= write_on more (writei_end ip off tot) b s' in
      if left == 0 then writei_end ip off tot s else (bmap env.sb ip (off / bsize) s >>= copied)

  pub writei : (ip : ℕ) (user_src : Bool) (src off n : ℕ) → FsState → Outcome (ℤ × FsState)
  writei ip user_src src off n s =
      if ltb (s.inode ip).size off
        || ltb ((off + n) % 2 ^ 32) off
        || ltb (maxfile * bsize) (off + n)
      then ok (minus_one, s)
      else writei_loop n ip user_src src off n 0 s
