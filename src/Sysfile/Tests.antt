-- ===== src/Sysfile/Tests.antt =====
-- A process with file 3 at descriptor 0.
use mitcppos.Prelude.{true, false, none, some, [], ◌==◌, if◌then◌else◌, refl, ◌+◌, ◌*◌, arith}
use mitcppos.Prelude.Int.{pos}
use mitcppos.Sleeplock.{initsleeplock}
use mitcppos.File.{Ftable, fd_none}
use mitcppos.Fs.{FsState}
use mitcppos.Fs.Content.{Around}
use mitcppos.Proc.{Proc, running, nowhere}
use mitcppos.Sysfile.Descriptors.{sys_dup}
use mitcppos.Sysfile.Descriptors.Dup
use mitcppos.Sysfile.Descriptors.Dup.{Open, sys_dup-Ends}
use mitcppos.Sysfile.Io.{Files}
use mitcppos.Sysfile.Pipes.{pipealloc}
use mitcppos.Sysfile.Pipes.Alloc.{Untyped, Piped, pipealloc-Piped}

abbrev one_open : Proc
one_open = record {
  state = running;
  parent = none;
  chan = nowhere;
  killed = false;
  xstate = 0;
  pid = 1;
  kstack = 0;
  sz = 0;
  pagetable = 0;
  trapframe = 0;
  context = record { ra = 0; sp = 0; saved = λ _. 0 };
  ofile = λ fd. if fd == 0 then some 3 else none;
  cwd = none;
  name = λ _. 0;
  vma = [];
}

abbrev files : Ftable
files = λ f. record {
  type = fd_none;
  ref = if f == 3 then 1 else 0;
  readable = true;
  writable = true;
  pipe = 0;
  ip = 0;
  off = 0;
  major = 0;
}

one_open-Open : Open one_open files
unfolding Open
one_open-Open fd f h e = ground (arith, e)

sys_dup-Ends_example : Dup.Ends (pos 0) one_open files (sys_dup (pos 0) one_open files)
sys_dup-Ends_example = sys_dup-Ends (pos 0) one_open files one_open-Open

-- An empty disk, and a free page.
abbrev one_page : FsState
one_page = record {
  block = λ b i. 0;
  logged = [];
  inode = λ i. record {
    dev = 0;
    inum = 0;
    ref = 0;
    lock = initsleeplock;
    valid = false;
    type = 0;
    major = 0;
    minor = 0;
    nlink = 0;
    size = 0;
    addrs = λ j. 0;
  };
  kmem = record { mem = λ a. 0; freelist = 0x80001000 };
}

abbrev no_pipes : Files
no_pipes = record {
  table = files;
  pipes = λ i. record { buf = λ j. 0; nread = 0; nwrite = 0; readopen = false; writeopen = false };
  fs = one_page;
}

abbrev around : Around
around = record {
  sb = record {
    magic = 0x10203040;
    size = 16;
    nblocks = 7;
    ninodes = 16;
    nlog = 0;
    logstart = 2;
    inodestart = 2;
    bmapstart = 3;
  };
  pid = 1;
  pagetable = 0;
  data_at = λ b. 65536 + b * 1024;
  de = 0;
}

files-Untyped : Untyped files
unfolding Untyped
files-Untyped i h = refl

pipealloc-Piped_example : Piped no_pipes (pipealloc around 0x80000000 no_pipes)
pipealloc-Piped_example = pipealloc-Piped around 0x80000000 no_pipes files-Untyped
