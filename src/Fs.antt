-- ===== src/Fs.antt =====
-- kernel/fs.c: the file system over the buffer cache and the log. A block is its bytes, `bread` is a
-- look at it, and a change with its `log_write` is a new block; the kernel has one disk. Each
-- function runs by itself; `Outcome.out_of_fuel` also stands for a wait for a sleep lock that is
-- held, since in such a run nobody releases it.
use mitcppos.Prelude.{
  ℕ, zero, suc, ◌+◌, ◌-◌, ◌*◌, ◌/◌, ◌%◌, ◌^◌, ◌<◌, Bool, true, false, List, ◌∷◌, ◌==◌,
  if◌then◌else◌,
}
use mitcppos.Mem.{Mem, load32}
use mitcppos.Kalloc.{Kmem}
use mitcppos.Log.{bsize}
use mitcppos.Sleeplock.{Sleeplock}
pub mod Blocks
pub mod Inodes
pub mod Content
pub mod Dir
pub mod Path
mod Tests

abbrev pub ninode : ℕ
ninode = 50

abbrev pub rootdev : ℕ
rootdev = 1

abbrev pub rootino : ℕ
rootino = 1

abbrev pub ndirect : ℕ
ndirect = 12

abbrev pub nindirect : ℕ
nindirect = bsize / 4

abbrev pub maxfile : ℕ
maxfile = ndirect + nindirect

-- `sizeof(struct dinode)`
abbrev pub dinode_size : ℕ
dinode_size = 64

abbrev pub ipb : ℕ
ipb = bsize / dinode_size

-- bits of a block of the bitmap
abbrev pub bpb : ℕ
bpb = bsize * 8

abbrev pub dirsiz : ℕ
dirsiz = 14

-- `sizeof(struct dirent)`: the number, then the name
abbrev pub dirent_size : ℕ
dirent_size = 16

abbrev pub t_dir : ℕ
t_dir = 1

abbrev pub t_file : ℕ
t_file = 2

abbrev pub t_device : ℕ
t_device = 3

abbrev pub fsmagic : ℕ
fsmagic = 0x10203040

pub record Superblock : Type 0 where
  pub magic : ℕ
  pub size : ℕ
  pub nblocks : ℕ
  pub ninodes : ℕ
  pub nlog : ℕ
  pub logstart : ℕ
  pub inodestart : ℕ
  pub bmapstart : ℕ

-- `IBLOCK(i, sb)` and `BBLOCK(b, sb)`
abbrev pub iblock : Superblock → ℕ → ℕ
iblock sb i = i / ipb + sb.inodestart

abbrev pub bblock : Superblock → ℕ → ℕ
bblock sb b = b / bpb + sb.bmapstart

-- Fields of type `short` are kept as their 16 bits.
pub record Inode : Type 0 where
  pub dev : ℕ
  pub inum : ℕ
  pub ref : ℕ
  pub lock : Sleeplock
  pub valid : Bool
  pub type : ℕ
  pub major : ℕ
  pub minor : ℕ
  pub nlink : ℕ
  pub size : ℕ
  pub addrs : ℕ → ℕ

-- The blocks, the numbers given to `log_write`, the last one first, the table `icache.inode`, and the
-- kernel's memory.
pub record FsState : Type 0 where
  pub block : ℕ → Mem
  pub logged : List ℕ
  pub inode : ℕ → Inode
  pub kmem : Kmem

-- a change of block `b` and its `log_write`
abbrev pub log_block : (b : ℕ) → Mem → FsState → FsState
log_block b bytes s = record s {
  block = λ c. if c == b then bytes else s.block c;
  logged = b ∷ s.logged;
}

abbrev pub put_inode : (ip : ℕ) → Inode → FsState → FsState
put_inode ip v s = record s { inode = λ i. if i == ip then v else s.inode i }

abbrev pub set_addr : (i addr : ℕ) → Inode → Inode
set_addr i addr v = record v { addrs = λ j. if j == i then addr else v.addrs j }

-- `readsb` of a disk: block 1
pub readsb : FsState → Superblock
readsb s = record {
  magic = load32 (s.block 1) 0;
  size = load32 (s.block 1) 4;
  nblocks = load32 (s.block 1) 8;
  ninodes = load32 (s.block 1) 12;
  nlog = load32 (s.block 1) 16;
  logstart = load32 (s.block 1) 20;
  inodestart = load32 (s.block 1) 24;
  bmapstart = load32 (s.block 1) 28;
}
