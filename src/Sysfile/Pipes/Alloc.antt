-- ===== src/Sysfile/Pipes/Alloc.antt =====
-- What `pipealloc` leaves in the table of files, whether it succeeds or not.
use mitcppos.Prelude.{
  ℕ, ◌<◌, ◌≤◌, ◌≡◌, ◌≢◌, ◌⊎◌, refl, sym, ap, ◌∙◌, true, false, Option, none, some, inl, inr,
  Outcome, ok, arith, ltb, ◌==◌, Bool-cases,
}
use mathlib.Core.Path.{subst}
use mitcppos.Kalloc.{kalloc}
use mitcppos.Kalloc.Chain.{kalloc-none, kalloc-head}
use mitcppos.File.{File, fd_none, Ftable, nfile, put_file, filealloc, fileclose}
use mitcppos.File.Count.{Allocated, filealloc-Allocated}
use mitcppos.Fs.Content.{Around}
use mitcppos.Sysfile.Io.{Files, put_kmem, close_file, close_last}
use mitcppos.Sysfile.Pipes.{pipe_end, new_pipe, alloc_page, alloc_second, alloc_files, pipealloc}

-- An entry with one reference, before its type is set.
abbrev held : File → File
held v = record v { ref = 1 }

freed : (v : File) → v.ref ≡ 0 → v.type ≡ fd_none → record v { ref = 0; type = fd_none } ≡ v
freed v e f =
    ap (λ n. record v { ref = n; type = fd_none }) (sym e) ∙ ap (λ t. record v { type = t }) (sym f)

-- Entries that are not in use have no type.
unfoldable pub Untyped : Ftable → Type 0
Untyped t = (i : ℕ) → (t i).ref ≡ 0 → (t i).type ≡ fd_none

-- The result of `close_file` on an entry that was just handed out.
close_held :
    (env : Around) (kernel_end f : ℕ) (w : Files) (v : File)
    → w.table f ≡ held v
    → v.type ≡ fd_none
    → close_file env kernel_end f w
      ≡ ok (record w { table = put_file f (record v { ref = 0; type = fd_none }) w.table })
unfolding close_file close_last fileclose
close_held env kernel_end f w v e untyped = rw (e, untyped) refl

-- Files, pipes and inodes are as they were.
pub record SameFiles (w w' : Files) : Type 0 where
  pub same_table : (i : ℕ) → w'.table i ≡ w.table i
  pub same_pipes : w'.pipes ≡ w.pipes
  pub same_fs : w'.fs ≡ w.fs

-- The two ends of a new pipe.
pub record NewPipe (w : Files) (f0 f1 : ℕ) (w' : Files) : Type 0 where
  pub before : f0 < f1
  pub in_table : f1 < nfile
  pub unused0 : (w.table f0).ref ≡ 0
  pub unused1 : (w.table f1).ref ≡ 0
  pub pi : ℕ
  pub its_page : pi ≡ w.fs.kmem.freelist
  pub is_page : pi ≢ 0
  pub reader : w'.table f0 ≡ pipe_end true pi (held (w.table f0))
  pub writer : w'.table f1 ≡ pipe_end false pi (held (w.table f1))
  pub others : (i : ℕ) → i ≢ f0 → i ≢ f1 → w'.table i ≡ w.table i
  pub open_ends : ((w'.pipes pi).readopen ≡ true) × ((w'.pipes pi).writeopen ≡ true)
  pub no_bytes : (w'.pipes pi).nread ≡ (w'.pipes pi).nwrite
  pub other_pipes : (i : ℕ) → i ≢ pi → w'.pipes i ≡ w.pipes i

-- At most one file is free, or no page.
pub Exhausted : Files → Type 0
Exhausted w =
    ((f : ℕ) × ((i : ℕ) → i < nfile → i ≢ f → 0 < (w.table i).ref)) ⊎ (w.fs.kmem.freelist ≡ 0)

pub data Piped (w : Files) : Outcome (Option (ℕ × ℕ) × Files) → Type 0 where
  failed : (w' : Files) → SameFiles w w' → Exhausted w → Piped w (ok (none, w'))
  made : (f0 f1 : ℕ) (w' : Files) → NewPipe w f0 f1 w' → Piped w (ok (some (f0, f1), w'))

module _ (env : Around) (kernel_end : ℕ) (w : Files) (untyped : Untyped w.table) where
  -- One entry handed out, and closed again.
  closed_again :
      (f : ℕ) (t : Ftable)
      → (w.table f).ref ≡ 0
      → (i : ℕ) → (i ≢ f → t i ≡ w.table i)
      → put_file f (record (w.table f) { ref = 0; type = fd_none }) t i ≡ w.table i
  unfolding Untyped
  closed_again f t free i others = elim (Bool-cases (i == f)) [
    | inl e ↦
        let it : i ≡ f = ground (arith, e) in rw (e, it) (freed (w.table f) free (untyped f free))
    | inr e ↦ rw e (others (ground (arith, e)))
  ]

  module _ (f0 : ℕ) (t : Ftable) (low : f0 < nfile) (free0 : (w.table f0).ref ≡ 0)
      (before0 : (i : ℕ) → 0 ≤ i → i < f0 → 0 < (w.table i).ref) (one0 : t f0 ≡ held (w.table f0))
      (others0 : (i : ℕ) → i ≢ f0 → t i ≡ w.table i) where
    no_second :
        Allocated nfile 0 t none
        → Piped w (alloc_second env kernel_end f0 (record w { table = t }) none)
    unfolding alloc_second Allocated Exhausted Untyped
    no_second busy =
        let w₁ = record w { table = t } in
        rw (close_held env kernel_end f0 w₁ (w.table f0) one0 (untyped f0 free0)) (
          failed
            (record w { table = put_file f0 (record (w.table f0) { ref = 0; type = fd_none }) t })
            (record {
              same_table = λ i. closed_again f0 t free0 i (others0 i);
              same_pipes = refl;
              same_fs = refl;
            })
            (inl (
              f0,
              λ i lt other.
                  subst (λ v. 0 < v.ref) (others0 i other)
                    (busy i (omega arith) (omega (arith, lt))),
            )))

    module _ (f1 : ℕ) (t' : Ftable) (in_table : f1 < nfile) (free1' : (t f1).ref ≡ 0)
        (one1' : t' f1 ≡ held (t f1)) (others1 : (i : ℕ) → i ≢ f1 → t' i ≡ t i) where
      apart : f1 ≢ f0
      apart e =
          let z = ap (λ v. v.ref) one0 in
          let y = ap (λ i. (t i).ref) e in absurd (omega (arith, free1', y, z))

      free1 : (w.table f1).ref ≡ 0
      free1 = ap (λ v. v.ref) (sym (others0 f1 apart)) ∙ free1'

      one1 : t' f1 ≡ held (w.table f1)
      one1 = one1' ∙ ap held (others0 f1 apart)

      still0 : t' f0 ≡ held (w.table f0)
      still0 = others1 f0 (λ e. apart (sym e)) ∙ one0

      in_order : f0 < f1
      in_order = elim (Bool-cases (ltb f1 f0)) [
        | inl e ↦
            let busy = before0 f1 (omega arith) (ground (arith, e)) in
            absurd (omega (arith, busy, free1))
        | inr e ↦ ground (arith, e, apart)
      ]

      others : (i : ℕ) → i ≢ f0 → i ≢ f1 → t' i ≡ w.table i
      others i a b = others1 i b ∙ others0 i a

      -- Without a page.
      no_page :
          w.fs.kmem.freelist ≡ 0
          → Piped w (alloc_page env kernel_end f0 f1 (record w { table = t' }))
      unfolding alloc_page Exhausted Untyped
      no_page none_left =
          let w₁ = record w { table = t' } in
          let t₂ = put_file f0 (record (w.table f0) { ref = 0; type = fd_none }) t' in
          let kept : t₂ f1 ≡ held (w.table f1) =
            let other : (f1 == f0) ≡ false = ground (arith, apart) in rw other one1 in
          rw (kalloc-none w.fs.kmem none_left) (
            rw (close_held env kernel_end f0 w₁ (w.table f0) still0 (untyped f0 free0)) (
              rw
                (close_held env kernel_end f1 (record w { table = t₂ }) (w.table f1) kept
                  (untyped f1 free1))
                (failed _
                  (record {
                    same_table = λ i. elim (Bool-cases (i == f1)) [
                      | inl e ↦
                          let it : i ≡ f1 = ground (arith, e) in
                          rw (e, it) (freed (w.table f1) free1 (untyped f1 free1))
                      | inr e ↦
                          let other : i ≢ f1 = ground (arith, e) in
                          rw e (closed_again f0 t' free0 i (λ a. others i a other))
                    ];
                    same_pipes = refl;
                    same_fs = refl;
                  })
                  (inr none_left))))

      its_page : (kalloc w.fs.kmem).0 ≡ w.fs.kmem.freelist
      its_page = kalloc-head w.fs.kmem

      -- With a page.
      with_page :
          w.fs.kmem.freelist ≢ 0
          → Piped w (alloc_page env kernel_end f0 f1 (record w { table = t' }))
      unfolding alloc_page new_pipe
      with_page some_left =
          let k = w.fs.kmem in
          let page : ((kalloc k).0 == 0) ≡ false = ground (arith, its_page, some_left) in
          let differ : (f0 == f1) ≡ false = ground (arith, apart) in
          let differ' : (f1 == f0) ≡ false = ground (arith, apart) in
          rw page (
            made f0 f1
              (new_pipe f0 f1 (kalloc k).0 (put_kmem (record w { table = t' }) (kalloc k).1))
              (record {
                before = in_order;
                in_table = in_table;
                unused0 = free0;
                unused1 = free1;
                pi = (kalloc k).0;
                its_page = its_page;
                is_page = ground (arith, its_page, some_left);
                reader = rw differ (rw still0 (ground arith));
                writer = rw differ' (rw one1 (ground arith));
                others = λ i a b.
                    let e0 : (i == f0) ≡ false = ground (arith, a) in
                    let e1 : (i == f1) ≡ false = ground (arith, b) in rw (e1, e0) (others i a b);
                open_ends = (ground arith, ground arith);
                no_bytes = ground arith;
                other_pipes = λ i a. ground (arith, a);
              }))

      page_or_not : Piped w (alloc_page env kernel_end f0 f1 (record w { table = t' }))
      page_or_not = elim (Bool-cases (w.fs.kmem.freelist == 0)) [
        | inl e ↦ no_page (ground (arith, e))
        | inr e ↦ with_page (ground (arith, e))
      ]

    second :
        (r : Option (ℕ × Ftable))
        → Allocated nfile 0 t r
        → Piped w (alloc_second env kernel_end f0 (record w { table = t }) r)
    unfolding Allocated alloc_second
    second none busy = no_second busy
    second (some (f1, t')) (lo, hi, free, before, one, others) =
        page_or_not f1 t' (omega (arith, hi)) free one others

  first :
      (r : Option (ℕ × Ftable))
      → Allocated nfile 0 w.table r
      → Piped w (alloc_files env kernel_end w r)
  unfolding Allocated alloc_files Exhausted
  first none busy =
      failed w (record { same_table = λ i. refl; same_pipes = refl; same_fs = refl })
        (inl (0, λ i lt other. busy i (omega arith) (omega (arith, lt))))
  first (some (f0, t)) (lo, hi, free, before, one, others) =
      second f0 t (omega (arith, hi)) free before one others (filealloc t) (filealloc-Allocated t)

-- `pipealloc` where entries of the file table that are not in use have no type: it ends. Either it
-- returns two different entries that were not in use, which now have one reference each and are the
-- two ends, one to read and one to write, of an empty pipe in the page at the head of the free
-- list; no other entry or pipe changes. Or it returns none: then files, pipes, inodes and memory
-- are as they were, and at most one entry was not in use, or there was no page.
pub pipealloc-Piped :
    (env : Around) (kernel_end : ℕ) (w : Files)
    → Untyped w.table
    → Piped w (pipealloc env kernel_end w)
unfolding pipealloc
pipealloc-Piped env kernel_end w untyped =
    first env kernel_end w untyped (filealloc w.table) (filealloc-Allocated w.table)
