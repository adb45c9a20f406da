-- ===== src/Sysfile/Pipes.antt =====
-- `pipealloc` of kernel/pipe.c and `sys_pipe` of kernel/sysfile.c.
use mitcppos.Prelude.{
  ℕ, zero, suc, ◌+◌, ◌%◌, ◌^◌, Bool, true, false, Option, none, some, ◌==◌, if◌then◌else◌, Outcome,
  ok, ◌>>=◌,
}
use mitcppos.Prelude.Int.{ℤ, pos, negsuc, minus_one}
use mitcppos.Mem.{store32}
use mitcppos.Kalloc.{Kmem, kalloc}
use mitcppos.Vm.User.{copyout}
use mitcppos.Pipe.{Pipe}
use mitcppos.File.{File, fd_pipe, Ftable, put_file, filealloc}
use mitcppos.Proc.{Proc}
use mitcppos.Fs.Content.{Around}
use mitcppos.Sysfile.Descriptors.{fdalloc, put_fd}
use mitcppos.Sysfile.Io.{Files, put_kmem, close_file}
pub mod Alloc

-- The fields of a pipe's end.
abbrev pub pipe_end : (readable : Bool) (pi : ℕ) → File → File
pipe_end true pi f = record f { type = fd_pipe; readable = true; writable = false; pipe = pi }
pipe_end false pi f = record f { type = fd_pipe; readable = false; writable = true; pipe = pi }

-- With the page `pi`, the pipe at its start and the two files.
unfoldable pub new_pipe : (f0 f1 pi : ℕ) → Files → Files
new_pipe f0 f1 pi w =
    let fresh = record (w.pipes pi) { readopen = true; writeopen = true; nwrite = 0; nread = 0 } in
    let t = put_file f0 (pipe_end true pi (w.table f0)) w.table in
    record w {
      pipes = λ i. if i == pi then fresh else w.pipes i;
      table = put_file f1 (pipe_end false pi (t f1)) t;
    }

module _ (env : Around) (kernel_end : ℕ) where
  -- `bad:` closes the files that there are; there is no page yet.
  unfoldable pub alloc_page : (f0 f1 : ℕ) → Files → Outcome (Option (ℕ × ℕ) × Files)
  alloc_page f0 f1 w =
      let (pi, k) = kalloc w.fs.kmem in
      let w' = put_kmem w k in
      let undone = close_file env kernel_end f0 w' >>= close_file env kernel_end f1 >>= λ w''.
      ok (none, w'') in
      if pi == 0 then undone else ok (some (f0, f1), new_pipe f0 f1 pi w')

  -- With the result of the second `filealloc`.
  unfoldable pub alloc_second :
      (f0 : ℕ) → Files → Option (ℕ × Ftable) → Outcome (Option (ℕ × ℕ) × Files)
  alloc_second f0 w none = close_file env kernel_end f0 w >>= λ w'. ok (none, w')
  alloc_second f0 w (some (f1, t)) = alloc_page f0 f1 (record w { table = t })

  unfoldable pub alloc_files : Files → Option (ℕ × Ftable) → Outcome (Option (ℕ × ℕ) × Files)
  alloc_files w none = ok (none, w)
  alloc_files w (some (f0, t)) = alloc_second f0 (record w { table = t }) (filealloc t)

  -- The two files; none where the source returns -1.
  unfoldable pub pipealloc : Files → Outcome (Option (ℕ × ℕ) × Files)
  pipealloc w = alloc_files w (filealloc w.table)

  -- The last steps of `sys_pipe` where it fails, for the process as it is then.
  pub close_both : (rf wf : ℕ) → Proc → Files → Outcome (ℤ × Proc × Files)
  close_both rf wf p w = close_file env kernel_end rf w >>= close_file env kernel_end wf >>= λ w'.
      ok (minus_one, p, w')

  -- The copies of the two descriptors, as two numbers in memory at `fds`.
  pub copy_fds : (fds fdarray rf wf fd0 fd1 : ℕ) → Proc → Files → Outcome (ℤ × Proc × Files)
  copy_fds fds fdarray rf wf fd0 fd1 p w =
      let k = w.fs.kmem in
      let filled = record k { mem = store32 (store32 k.mem fds fd0) (fds + 4) fd1 } in
      let undo : Kmem → Outcome (ℤ × Proc × Files) =
        λ k'. close_both rf wf (put_fd fd1 none (put_fd fd0 none p)) (put_kmem w k') in
      let second : ℤ × Kmem → Outcome (ℤ × Proc × Files) =
        λ (r, k'). elim r [ pos _ ↦ ok (pos 0, p, put_kmem w k') | negsuc _ ↦ undo k' ] in
      let first : ℤ × Kmem → Outcome (ℤ × Proc × Files) = λ (r, k'). elim r [
        | pos _ ↦ copyout env.pagetable ((fdarray + 4) % 2 ^ 64) (fds + 4) 4 k' >>= second
        | negsuc _ ↦ undo k'
      ] in
      copyout env.pagetable fdarray fds 4 filled >>= first

  -- With the second descriptor.
  pub pipe_fds :
      (fds fdarray rf wf fd0 : ℕ) → Proc → Files → Option (ℕ × Proc) → Outcome (ℤ × Proc × Files)
  pipe_fds fds fdarray rf wf fd0 p w none = close_both rf wf (put_fd fd0 none p) w
  pipe_fds fds fdarray rf wf fd0 p w (some (fd1, p')) = copy_fds fds fdarray rf wf fd0 fd1 p' w

  -- With the first descriptor.
  pub pipe_fd :
      (fds fdarray rf wf : ℕ) → Proc → Files → Option (ℕ × Proc) → Outcome (ℤ × Proc × Files)
  pipe_fd fds fdarray rf wf p w none = close_both rf wf p w
  pipe_fd fds fdarray rf wf p w (some (fd0, p')) =
      pipe_fds fds fdarray rf wf fd0 p' w (fdalloc wf p')

  pub with_pipe : (fds fdarray : ℕ) → Proc → Option (ℕ × ℕ) × Files → Outcome (ℤ × Proc × Files)
  with_pipe fds fdarray p (none, w) = ok (minus_one, p, w)
  with_pipe fds fdarray p (some (rf, wf), w) = pipe_fd fds fdarray rf wf p w (fdalloc rf p)

  -- `fds` is the address of the local variables `fd0` and `fd1`.
  pub sys_pipe : (fds fdarray : ℕ) → Proc → Files → Outcome (ℤ × Proc × Files)
  sys_pipe fds fdarray p w = pipealloc w >>= with_pipe fds fdarray p
