-- ===== src/Sysfile/Descriptors/Dup.antt =====
-- `sys_dup` and `sys_close` of kernel/sysfile.c on the descriptors and the table of files.
use mitcppos.Prelude.{
  ℕ, zero, suc, ◌+◌, ◌<◌, ◌≤◌, ◌≡◌, ◌≢◌, ◌⊎◌, refl, sym, ap, ◌∙◌, inl, inr, true, false, Option,
  none, some, leb, ◌==◌, arith, Outcome, ok, Bool-cases,
}
use mitcppos.Prelude.Int.{ℤ, pos, negsuc, minus_one}
use mitcppos.Proc.Life.{nofile}
use mitcppos.File.Count.{fileclose-filedup}
use mitcppos.File.{Ftable, filedup, fileclose}
use mitcppos.Proc.{Proc}
use mitcppos.Sysfile.Descriptors.{
  with_file, argfd, put_fd, fdalloc_at, fdalloc_loop, fdalloc, dup_to, dup_file, sys_dup, close_fd,
  sys_close,
}

-- `fd` is the lowest descriptor that is not in use, which then is for `f`.
Fresh : (lo f : ℕ) → Proc → Option (ℕ × Proc) → Type 0
Fresh lo f p none = (i : ℕ) → lo ≤ i → i < nofile → p.ofile i ≢ none
Fresh lo f p (some (fd, p')) =
    (fd < nofile)
    × (p.ofile fd ≡ none)
    × (p' ≡ put_fd fd (some f) p)
    × ((i : ℕ) → lo ≤ i → i < fd → p.ofile i ≢ none)

used_from :
    (lo g : ℕ) (p : Proc) (n : ℕ)
    → p.ofile lo ≡ some g
    → ((i : ℕ) → lo + 1 ≤ i → i < n → p.ofile i ≢ none)
    → (i : ℕ) → lo ≤ i
    → i < n
    → p.ofile i ≢ none
used_from lo g p n e h i a b = elim (Bool-cases (i == lo)) [
  | inl same ↦
      let at : i ≡ lo = ground (arith, same) in
      λ k. absurd (ground (arith, sym e ∙ ap p.ofile (sym at) ∙ k))
  | inr other ↦ h i (ground (arith, other, a)) b
]

fdalloc_at-Fresh :
    (lo f : ℕ) (p : Proc) (rest : Option (ℕ × Proc)) (o : Option ℕ)
    → lo < nofile
    → p.ofile lo ≡ o
    → Fresh (lo + 1) f p rest
    → Fresh lo f p (fdalloc_at lo f p rest o)
unfolding fdalloc_at Fresh
fdalloc_at-Fresh lo f p rest none h e fresh = (h, e, refl, λ i a b. absurd (omega (arith, a, b)))
fdalloc_at-Fresh lo f p none (some g) h e fresh = used_from lo g p nofile e fresh
fdalloc_at-Fresh lo f p (some (fd, p')) (some g) h e (short, free, same, before) =
    (short, free, same, used_from lo g p fd e before)

fdalloc_loop-Fresh :
    (n lo f : ℕ) (p : Proc) → lo + n ≡ nofile → Fresh lo f p (fdalloc_loop n lo f p)
unfolding fdalloc_loop Fresh
fdalloc_loop-Fresh zero lo f p h = λ i a b. absurd (omega (arith, h, a, b))
fdalloc_loop-Fresh (suc n) lo f p h =
    fdalloc_at-Fresh lo f p _ (p.ofile lo) (omega (arith, h)) refl
      (fdalloc_loop-Fresh n (lo + 1) f p (omega (arith, h)))

with_file-some :
    (fd : ℕ) (x : Option ℕ) (o f : ℕ) → with_file fd x ≡ some (o, f) → (fd ≡ o) × (x ≡ some f)
unfolding with_file
with_file-some fd none o f e = absurd (ground (arith, e))
with_file-some fd (some g) o f e = (ground (arith, e), ground (arith, e))

argfd-some :
    (fd : ℤ) (p : Proc) (o f : ℕ) → argfd fd p ≡ some (o, f) → (o < nofile) × (p.ofile o ≡ some f)
unfolding argfd
argfd-some (negsuc n) p o f e = absurd (ground (arith, e))
argfd-some (pos fd) p o f e = elim (Bool-cases (leb nofile fd)) [
  | inl h ↦ absurd (ground (arith, e, h))
  | inr h ↦
      let found : with_file fd (p.ofile fd) ≡ some (o, f) = ground (arith, e, h) in
      let (same, its) = with_file-some fd (p.ofile fd) o f found in
      (ground (arith, h, same), ap p.ofile (sym same) ∙ its)
]

-- The files of open descriptors are in use.
unfoldable pub Open : Proc → Ftable → Type 0
Open p t = (fd f : ℕ) → fd < nofile → p.ofile fd ≡ some f → 0 < (t f).ref

pub record Duplicated (f new : ℕ) (p : Proc) (t : Ftable) (p' : Proc) (t' : Ftable) : Type 0 where
  pub inside : new < nofile
  pub free : p.ofile new ≡ none
  pub lowest : (i : ℕ) → i < new → p.ofile i ≢ none
  pub its : p'.ofile new ≡ some f
  pub others : (i : ℕ) → i ≢ new → p'.ofile i ≡ p.ofile i
  pub counted : filedup f t ≡ ok t'

-- `sys_close` of `new` leaves the descriptors and the table of files as in `p` and `t`.
pub ClosesTo : (new : ℕ) (p' : Proc) (t' : Ftable) (p : Proc) (t : Ftable) → Type 0
ClosesTo new p' t' p t =
    (p'' : Proc) × (t'' : Ftable) × (sys_close (pos new) p' t' ≡ ok (pos 0, none, p'', t''))
    × ((i : ℕ) → p''.ofile i ≡ p.ofile i)
    × ((i : ℕ) → t'' i ≡ t i)

pub Ends : (fd : ℤ) → Proc → Ftable → Outcome (ℤ × Proc × Ftable) → Type 0
Ends fd p t r =
    ((r ≡ ok (minus_one, p, t)) × ((argfd fd p ≡ none) ⊎ ((i : ℕ) → i < nofile → p.ofile i ≢ none)))
    ⊎ ((f : ℕ) × (new : ℕ) × (old : ℕ) × (p' : Proc) × (t' : Ftable) × (argfd fd p ≡ some (old, f))
        × (r ≡ ok (pos new, p', t'))
        × Duplicated f new p t p' t'
        × ClosesTo new p' t' p t)

closes :
    (f new : ℕ) (p : Proc) (t t' t'' : Ftable)
    → new < nofile
    → p.ofile new ≡ none
    → fileclose f t' ≡ ok (none, t'')
    → ((i : ℕ) → t'' i ≡ t i)
    → ClosesTo new (put_fd new (some f) p) t' p t
unfolding ClosesTo sys_close close_fd argfd with_file
closes f new p t t' t'' h free run same =
    let inside : leb nofile new ≡ false = ground (arith, h) in
    let self : (new == new) ≡ true = ground arith in
    (
      put_fd new none (put_fd new (some f) p),
      t'',
      simp (inside, self, run) refl,
      λ i. elim (Bool-cases (i == new)) [
        | inl e ↦ let at : i ≡ new = ground (arith, e) in rw e (sym (ap p.ofile at ∙ free))
        | inr e ↦ rw e refl
      ],
      same,
    )

dup_to-Ends :
    (fd : ℤ) (old f : ℕ) (p : Proc) (t : Ftable) (o : Option (ℕ × Proc))
    → argfd fd p ≡ some (old, f)
    → 0 < (t f).ref
    → Fresh 0 f p o
    → Ends fd p t (dup_to f p t o)
unfolding dup_to Ends Fresh
dup_to-Ends fd old f p t none e h full = inl (refl, inr (λ i b. full i (omega arith) b))
dup_to-Ends fd old f p t (some (new, p')) e h (inside, free, same, before) =
    let (t', t'', run, close, back) = fileclose-filedup f t h in
    inr (
      f,
      new,
      old,
      put_fd new (some f) p,
      t',
      e,
      simp (run, same) refl,
      record {
        inside = inside;
        free = free;
        lowest = λ i b. before i (omega arith) b;
        its = ground arith;
        others = λ i n. ground (arith, n);
        counted = run;
      },
      closes f new p t t' t'' inside free close back,
    )

dup_file-Ends :
    (fd : ℤ) (p : Proc) (t : Ftable) (o : Option (ℕ × ℕ))
    → argfd fd p ≡ o
    → Open p t
    → Ends fd p t (dup_file p t o)
unfolding dup_file Open fdalloc Ends
dup_file-Ends fd p t none e open_files = inl (refl, inl e)
dup_file-Ends fd p t (some (old, f)) e open_files =
    let (inside, its) = argfd-some fd p old f e in
    dup_to-Ends fd old f p t (fdalloc f p) e (open_files old f inside its)
      (fdalloc_loop-Fresh nofile 0 f p refl)

-- `sys_dup` for a process whose open descriptors have files in use. Either it returns -1 and
-- changes nothing, and then the descriptor is not open or all are in use. Or it returns the lowest
-- descriptor that was free, which now has the file too, with one more reference counted and no
-- other descriptor changed; and `sys_close` of it then returns 0, closes no file, and leaves all
-- descriptors and the table of files as they were.
pub sys_dup-Ends : (fd : ℤ) (p : Proc) (t : Ftable) → Open p t → Ends fd p t (sys_dup fd p t)
unfolding sys_dup
sys_dup-Ends fd p t open_files = dup_file-Ends fd p t (argfd fd p) refl open_files
