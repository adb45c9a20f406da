-- ===== src/Lib.antt =====
-- xv6, a small Unix-like kernel for RISC-V, with memory-mapped files: its core as a model, and proofs
-- about it. Paths are from the repository's root.
--
-- The kernel's parts build on one another. The page allocator (kernel/kalloc.c) keeps free pages on
-- a list that runs through the pages; page tables (kernel/vm.c) are pages of it; the log
-- (kernel/log.c) writes the blocks of a transaction to the disk through the buffer cache, and makes
-- it atomic against power failure. Byte strings (kernel/string.c) serve all of these.
--
-- Files. `Mem` is byte-addressed memory, a function from addresses to bytes, with little-endian
-- words; a C pointer is an address. `Str` models kernel/string.c on it, function by function. `Riscv`
-- has the constants and macros of kernel/riscv.h, kernel/memlayout.h and kernel/param.h, and `Bits`
-- the laws of `|`. `Kalloc` models kernel/kalloc.c: its state is the memory and the head of the list.
-- `Vm` models kernel/vm.c over that state, with its copying functions in `Vm.User`. `Log` models
-- kernel/log.c; the buffer cache is there what its interface promises, and `Bio` models it by itself.
-- `Pipe` models kernel/pipe.c over the memory of `Kalloc` and the copying functions of `Vm.User`; the
-- functions hold the pipe's lock except where they sleep, and are modelled as turns between sleeps.
-- `Spinlock` and `Sleeplock` model kernel/spinlock.c and kernel/sleeplock.c, and `Bio` models
-- kernel/bio.c, a function from buffer numbers to buffers with the links as numbers.
-- `File` models the table of kernel/file.c, a function from entry numbers to entries, and `Mmap` the
-- table of memory-mapped regions of kernel/sysfile.c, `sys_mmap` and the loop of `sys_munmap`.
-- `Proc` models kernel/proc.c: the table is a function from entry numbers to processes. `Proc.Memory`
-- has what a process does with pages, and `Proc.Life` `fork`, `exit` and `wait`, over an interface
-- `FileOps` to files and inodes.
-- `Fs` models kernel/fs.c: a block is its bytes, which a function looks at and gives to the log, and
-- the table of inodes is a function from entry numbers. `Fs.Blocks` has the bitmap, `Fs.Inodes` the
-- inodes, `Fs.Content` reading and writing, `Fs.Dir` directories and `Fs.Path` path names.
-- `Sysfile` models kernel/sysfile.c: `Sysfile.Descriptors` the descriptors of a process, and
-- `Sysfile.Names` the calls on names (`sys_link`, `sys_unlink`, `create`, `sys_mkdir`, `sys_mknod`,
-- `sys_chdir`) over `Fs`, between `begin_op` and `end_op`. `Sysfile.Io` has the rest of kernel/file.c,
-- over inodes and pipes, `Sysfile.Pipes` `pipealloc` and `sys_pipe`, and `Sysfile.Open` `sys_open`,
-- `sys_exec`, and reading and writing; `Sysfile.Regions` has `mmap_handler`, `sys_munmap` and the page fault
-- of kernel/trap.c.
-- `Console` models kernel/console.c, `consoleintr`, `consoleread` and `consolewrite`, with the indices
-- as 32-bit words, and `Uart` the ring of characters to send of kernel/uart.c.
-- `Virtio` models the descriptors of kernel/virtio_disk.c, and `Printf` what kernel/printf.c prints.
-- `Exec` models kernel/exec.c over `Fs` and `Vm`, and `Syscall` kernel/syscall.c, with kernel/sysproc.c in
-- `Syscall.Sysproc`.
-- `Ulib` models user/ulib.c over memory, and `Uprintf` what user/printf.c prints.
-- `Grep` models the matcher of user/grep.c on lists of characters.
-- `Prelude` is what all share: `Outcome` is the result of code that may call `panic`. Proofs stand in
-- the modules below each of these, and tests with concrete inputs in its `Tests`.
--
-- Locks. A function that holds one spin lock over what it does to shared state is one step of the
-- model. `end_op`, which commits without the lock, is two steps (`end_enter`, `end_commit`), and
-- what may run between them is a relation in `Log.Reserve`; so is `log_write`, which makes its checks
-- without the lock (`log_check`, `log_append`). The end of `exit` is in sections: `exit_wake_init`, the
-- reading of the parent, and `exit_zombie`, which allows for a parent that has changed. `acquire` and
-- `release` themselves are split into what they do to the lock, and `Spinlock.Exclusion` interleaves that.
--
-- Bounds and fuel. A loop that the source bounds by a counter recurs on the rounds left. `strlen`,
-- `freerange`, `mappages` and the copying functions take fuel; `Outcome.out_of_fuel` is what they
-- return without it. `freerange` is given a round for each byte, `mappages` one for each page,
-- `copyout`, `copyin` and `copyinstr` one for each byte, and `freewalk` one for each of the three
-- levels; the loops of `bget` are given one for each buffer and one more, `readi` and `writei` one for
-- each byte, and the walks over a directory one for each entry and two more. The functions on path
-- names take their fuel as an argument. Words are natural numbers; where the source's arithmetic may
-- wrap, the model writes the modulus out, as in `pgroundup`.
--
-- Not modelled: device registers, trap entry and start-up code, which are access to hardware; the
-- user programs but the matcher of grep.
pub mod Prelude
pub mod Mem
pub mod Str
pub mod Riscv
pub mod Kalloc
pub mod Log
pub mod Bits
pub mod Vm
pub mod Pipe
pub mod Spinlock
pub mod Sleeplock
pub mod Bio
pub mod File
pub mod Mmap
pub mod Proc
pub mod Fs
pub mod Grep
pub mod Sysfile
pub mod Console
pub mod Uart
pub mod Virtio
pub mod Printf
pub mod Exec
pub mod Syscall
pub mod Uprintf
pub mod Ulib
