-- ===== src/File.antt =====
-- kernel/file.c: the table of open files and its reference counts. Each function is one step under
-- `ftable.lock`.
use mitcppos.Prelude.{
  ℕ, zero, suc, ◌+◌, ◌-◌, Bool, true, false, Option, none, some, ltb, ◌==◌, if◌then◌else◌, Outcome,
  ok, panic,
}
pub mod Count
mod Tests

abbrev pub nfile : ℕ
nfile = 100

pub data FileType : Type 0 where
  fd_none fd_pipe fd_inode fd_device : FileType

-- `pipe` and `ip` are addresses.
pub record File : Type 0 where
  pub type : FileType
  pub ref : ℕ
  pub readable : Bool
  pub writable : Bool
  pub pipe : ℕ
  pub ip : ℕ
  pub off : ℕ
  pub major : ℕ

-- the array `ftable.file`
abbrev pub Ftable : Type 0
Ftable = ℕ → File

abbrev pub put_file : ℕ → File → Ftable → Ftable
put_file f v t = λ i. if i == f then v else t i

-- The loop of `filealloc` with `n` entries left, from `f` on.
pub filealloc_loop : (n f : ℕ) → Ftable → Option (ℕ × Ftable)
filealloc_loop zero f t = none
filealloc_loop (suc n) f t =
    let rest = filealloc_loop n (f + 1) t in
    if (t f).ref == 0 then some (f, put_file f (record (t f) { ref = 1 }) t) else rest

-- `none` where the source returns 0
pub filealloc : Ftable → Option (ℕ × Ftable)
filealloc t = filealloc_loop nfile 0 t

pub filedup : (f : ℕ) → Ftable → Outcome Ftable
filedup f t =
    if ltb (t f).ref 1
    then panic "filedup"
    else ok (put_file f (record (t f) { ref = (t f).ref + 1 }) t)

-- `fileclose` up to the `release`: with the last reference the entry as it was, whose pipe or inode
-- is then closed.
unfoldable pub fileclose : (f : ℕ) → Ftable → Outcome (Option File × Ftable)
fileclose f t =
    if ltb (t f).ref 1
    then panic "fileclose"
    else (if ltb 0 ((t f).ref - 1)
        then ok (none, put_file f (record (t f) { ref = (t f).ref - 1 }) t)
        else ok (
          some (record (t f) { ref = (t f).ref - 1 }),
          put_file f (record (t f) { ref = 0; type = fd_none }) t,
        ))
