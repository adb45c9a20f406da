-- ===== src/Sysfile/Descriptors.antt =====
-- kernel/sysfile.c: the file descriptors of a process.
pub mod Dup
use mitcppos.Prelude.{
  ℕ, zero, suc, ◌+◌, Bool, true, false, Option, none, some, leb, ◌==◌, if◌then◌else◌, Outcome, ok,
  ◌>>=◌,
}
use mitcppos.Prelude.Int.{ℤ, pos, negsuc, minus_one}
use mitcppos.File.{File, Ftable, filedup, fileclose}
use mitcppos.Proc.Life.{nofile}
use mitcppos.Proc.{Proc}

-- A descriptor with its file.
with_file : (fd : ℕ) → Option ℕ → Option (ℕ × ℕ)
with_file fd none = none
with_file fd (some f) = some (fd, f)

pub argfd : (fd : ℤ) → Proc → Option (ℕ × ℕ)
unfolding with_file
argfd (negsuc _) p = none
argfd (pos fd) p = if leb nofile fd then none else with_file fd (p.ofile fd)

abbrev pub put_fd : (fd : ℕ) → Option ℕ → Proc → Proc
put_fd fd o p = record p { ofile = λ i. if i == fd then o else p.ofile i }

-- The body of the loop of `fdalloc`, for what descriptor `fd` has; `rest` are the rounds after.
pub fdalloc_at : (fd f : ℕ) → Proc → (rest : Option (ℕ × Proc)) → Option ℕ → Option (ℕ × Proc)
fdalloc_at fd f p rest none = some (fd, put_fd fd (some f) p)
fdalloc_at fd f p rest (some _) = rest

-- The loop with `n` rounds left, from `fd` on.
pub fdalloc_loop : (n fd f : ℕ) → Proc → Option (ℕ × Proc)
fdalloc_loop zero fd f p = none
fdalloc_loop (suc n) fd f p = fdalloc_at fd f p (fdalloc_loop n (fd + 1) f p) (p.ofile fd)

-- none where the source returns -1
pub fdalloc : (f : ℕ) → Proc → Option (ℕ × Proc)
fdalloc f p = fdalloc_loop nofile 0 f p

-- Behind `fdalloc` in `sys_dup`.
pub dup_to : (f : ℕ) → Proc → Ftable → Option (ℕ × Proc) → Outcome (ℤ × Proc × Ftable)
dup_to f p t none = ok (minus_one, p, t)
dup_to f p t (some (fd, p')) = filedup f t >>= λ t'. ok (pos fd, p', t')

pub dup_file : Proc → Ftable → Option (ℕ × ℕ) → Outcome (ℤ × Proc × Ftable)
dup_file p t none = ok (minus_one, p, t)
dup_file p t (some (_, f)) = dup_to f p t (fdalloc f p)

pub sys_dup : (fd : ℤ) → Proc → Ftable → Outcome (ℤ × Proc × Ftable)
sys_dup fd p t = dup_file p t (argfd fd p)

-- With the file whose pipe or inode `fileclose` then closes.
pub close_fd : Proc → Ftable → Option (ℕ × ℕ) → Outcome (ℤ × Option File × Proc × Ftable)
close_fd p t none = ok (minus_one, none, p, t)
close_fd p t (some (fd, f)) = fileclose f t >>= λ (ff, t'). ok (pos 0, ff, put_fd fd none p, t')

pub sys_close : (fd : ℤ) → Proc → Ftable → Outcome (ℤ × Option File × Proc × Ftable)
sys_close fd p t = close_fd p t (argfd fd p)
