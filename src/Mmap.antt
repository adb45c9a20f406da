-- ===== src/Mmap.antt =====
-- kernel/sysfile.c: the table of memory-mapped regions of a process, as `sys_mmap` fills it and the
-- loop of `sys_munmap` changes it. The arguments are those that `argaddr`, `argint` and `argfd` fetch.
use mitcppos.Prelude.{
  ℕ, zero, suc, ◌+◌, ◌-◌, ◌%◌, ◌^◌, Bool, true, false, not, ◌&&◌, ◌||◌, Option, none, some, List,
  [], ◌∷◌, ◌==◌, if◌then◌else◌, Outcome, ok, panic, ◌>>=◌, replicate,
}
use mitcppos.Prelude.Int.{ℤ, pos, negsuc, pos_part, neg_part, ltb_ℤ, sub_ℕ}
use mitcppos.Riscv.{flag}
use mitcppos.File.{File, Ftable, filedup}
pub mod Regions
pub mod Shrink
mod Tests

abbrev pub prot_write : ℕ
prot_write = 2

abbrev pub map_shared : ℕ
map_shared = 1

abbrev pub word : ℕ
word = 2 ^ 64

abbrev pub err : ℕ
err = word - 1

-- `length` is an `int`; `vfile` is the number of the file in the table of open files.
pub record Mmapitem : Type 0 where
  pub used : Bool
  pub addr : ℕ
  pub length : ℤ
  pub prot : ℕ
  pub flags : ℕ
  pub vfd : ℕ
  pub vfile : ℕ
  pub offset : ℕ

-- What of a process and of the kernel the calls change.
pub record State : Type 0 where
  pub sz : ℕ
  pub vma : List Mmapitem
  pub files : Ftable

-- an `int` added to a `uint64`
pub add64 : ℕ → ℤ → ℕ
add64 a (pos n) = (a + n) % word
add64 a (negsuc n) = (a + (word - suc n)) % word

-- The first unused entry is filled.
pub fill_first : Mmapitem → List Mmapitem → Option (List Mmapitem)
fill_first v [] = none
fill_first v (x ∷ xs) =
    let rest = elim (fill_first v xs) as (λ _. Option (List Mmapitem)) [
      | none ↦ none
      | some ys ↦ some (x ∷ ys)
    ] in
    if x.used then rest else some (v ∷ xs)

abbrev pub new_item : (length : ℤ) (prot flags fd vfile sz : ℕ) → Mmapitem
new_item length prot flags fd vfile sz = record {
  used = true;
  addr = sz;
  length = length;
  prot = prot;
  flags = flags;
  vfd = fd;
  vfile = vfile;
  offset = 0;
}

pub sys_mmap :
    (addr : ℕ) (length : ℤ) (prot flags fd vfile : ℕ) (offset : ℤ) → State → Outcome (ℕ × State)
sys_mmap addr length prot flags fd vfile offset s =
    let filled : Option (List Mmapitem) → Outcome (ℕ × State) = λ o. elim o [
      | none ↦ panic "no empty mmapitem!"
      | some vma ↦ filedup vfile s.files >>= λ t.
          ok (s.sz, record { sz = add64 s.sz length; vma = vma; files = t })
    ] in
    if not (addr == 0) || not (pos_part offset + neg_part offset == 0) || ltb_ℤ length (pos 0)
    then ok (err, s)
    else (if not (s.files vfile).writable && flag prot prot_write && flags == map_shared
        then ok (err, s)
        else filled (fill_first (new_item length prot flags fd vfile s.sz) s.vma))

-- The loop of `sys_munmap`: the place of the entry that it stopped at, and the table; `none` where it
-- ran to the end.
pub munmap_loop : (addr : ℕ) (length : ℤ) (i : ℕ) → List Mmapitem → Option (ℕ × List Mmapitem)
munmap_loop addr length i [] = none
munmap_loop addr length i (x ∷ xs) =
    let rest = elim (munmap_loop addr length (i + 1) xs) as (λ _. Option (ℕ × List Mmapitem)) [
      | none ↦ none
      | some (j, ys) ↦ some (j, x ∷ ys)
    ] in
    let shorter =
      sub_ℕ (pos_part x.length + neg_part length) (pos_part length + neg_part x.length) in
    if x.used && not (ltb_ℤ x.length length)
    then (if x.addr == addr
        then some (i, record x { addr = add64 x.addr length; length = shorter } ∷ xs)
        else (if add64 x.addr length == add64 x.addr x.length
            then some (i, record x { length = shorter } ∷ xs)
            else rest))
    else rest

abbrev pub maxmmapitem : ℕ
maxmmapitem = 16

-- `memset(&p->vma, 0, sizeof(p->vma))`
pub unmapped : List Mmapitem
unmapped = replicate maxmmapitem (record (new_item (pos 0) 0 0 0 0 0) { used = false })
