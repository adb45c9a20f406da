-- ===== src/Vm/Mappages.antt =====
-- `mappages`: the pages of the range get the entries, and no other address changes.
use native.Mathlib.Decide.{dec_lt}
use mitcppos.Prelude.{
  ℕ, zero, suc, ◌+◌, ◌-◌, ◌*◌, ◌/◌, ◌%◌, ◌^◌, ◌≤◌, ◌<◌, ◌≡◌, refl, sym, ap, ◌∙◌, ◌⊎◌, inl, inr,
  true, false, some, List, arith, leb, ◌==◌, if◌then◌else◌, ok,
}
use mitcppos.Prelude.Int.{ℤ, pos, minus_one}
use mitcppos.Mem.{load64, store64}
use mitcppos.Riscv.{pgsize, phystop, px, flag, pte_v, maxva, pgrounddown}
use mitcppos.Kalloc.{Kmem}
use mitcppos.Vm.{walk_loop, walk, make_pte, mappages_loop, mappages}
use mitcppos.Vm.Pte.{make_pte_fields}
use mitcppos.Vm.Tree.{entry, Places, Tree, px-lt}
use mitcppos.Vm.Walk.{leaf_prefix, Ends, Walked, entry-Ends, walk_loop-Walked}
use mitcppos.Vm.Map.{Tree-written, entry-written, same_path_two}

module _ (kernel_end : ℕ) (positive : 0 < kernel_end) (root : ℕ) where
  -- A tree whose top table is `root`, over the free pages of `k`.
  pub record Space (k : Kmem) : Type 0 where
    pub free : List ℕ
    pub place : Places
    pub tree : Tree kernel_end k free place
    pub top : place root ≡ some (2, 0)

  -- the entry of an address
  abbrev pub at : Kmem → (va : ℕ) → ℕ
  at k va = entry 2 root va k.mem

  -- What a mapping of one page has done.
  record Stepped (a pa perm : ℕ) (k k' : Kmem) : Type 0 where
    space : Space k'
    entries :
        (va : ℕ)
        → va < maxva
        → at k' va ≡ (if va / pgsize == a / pgsize then make_pte pa perm else at k va)

  map_step :
      (a pa perm : ℕ) (k : Kmem) (place : Places) (out : ℕ × Kmem)
      → place root ≡ some (2, 0)
      → a < maxva
      → pa % pgsize ≡ 0
      → pa < phystop
      → perm < 2 ^ 10
      → (w : Walked kernel_end place 2 root 0 a k out) → (s : ℕ)
      → w.places s ≡ some (0, leaf_prefix 2 0 a)
      → out.0 ≡ s + 8 * px 0 a
      → Ends 2 root a out.1.mem s
      → Stepped a pa perm k
          (record out.1 { mem = store64 out.1.mem (s + 8 * px 0 a) (make_pte pa perm) })
  map_step a pa perm k place out top small al below flags w s placed here ends =
      let v = make_pte pa perm in
      let fits = (make_pte_fields pa perm al below flags).3 in
      record {
        space = record {
          free = w.free;
          place = w.places;
          tree =
              Tree-written kernel_end out.1 w.free w.places w.tree s (leaf_prefix 2 0 a) (px 0 a) v
                placed (px-lt 0 a);
          top = w.kept root 2 0 top;
        };
        entries = λ va h.
            entry-written kernel_end out.1 w.free w.places w.tree s (leaf_prefix 2 0 a) (px 0 a) v
              placed (px-lt 0 a) 2 root 0 a va (w.kept root 2 0 top) ends refl refl fits
            ∙ ap (λ b. if b then v else at out.1 va) (same_path_two va a h small)
            ∙ ap (λ e. if va / pgsize == a / pgsize then v else e) (w.same 2 root 0 va top);
      }

  -- What `mappages` has done to the `len` bytes from `a` on when it returns `r`.
  pub record Mapped (a len pa perm : ℕ) (k : Kmem) (out : ℤ × Kmem) : Type 0 where
    pub space : Space out.1
    pub others : (va : ℕ) → va < maxva → (va < a) ⊎ (a + len ≤ va) → at out.1 va ≡ at k va
    pub pages :
        (out.0 ≡ minus_one)
        ⊎ ((out.0 ≡ pos 0)
            × ((va : ℕ)
                → a ≤ va
                → va < a + len
                → at out.1 va ≡ make_pte (pa + (va - va % pgsize - a)) perm))

  abbrev pub Unmapped : (a len : ℕ) → Kmem → Type 0
  Unmapped a len k = (va : ℕ) → a ≤ va → va < a + len → flag (at k va) pte_v ≡ false

  -- The round of the loop when `walk` finds no memory.
  loop_full :
      (f a last pa perm : ℕ) (k : Kmem)
      → a < maxva
      → (walk_loop 2 root a true k).0 ≡ 0
      → mappages_loop (suc f) root a last pa perm k ≡ ok (minus_one, (walk_loop 2 root a true k).1)
  unfolding mappages_loop walk
  loop_full f a last pa perm k small e =
      let in_range : leb maxva a ≡ false = ground arith in
      let null : ((walk_loop 2 root a true k).0 == 0) ≡ true = ground arith in rw (in_range, null)

  -- The round of the loop when `walk` finds a vacant entry.
  loop_vacant :
      (f a last pa perm pte : ℕ) (k : Kmem)
      → a < maxva
      → (walk_loop 2 root a true k).0 ≡ pte
      → 0 < pte
      → flag (load64 (walk_loop 2 root a true k).1.mem pte) pte_v ≡ false
      → let k' = (walk_loop 2 root a true k).1 in
        let k'' = record k' { mem = store64 k'.mem pte (make_pte pa perm) } in
        mappages_loop (suc f) root a last pa perm k ≡ (
          if a == last
          then ok (pos 0, k'')
          else mappages_loop f root (a + pgsize) last (pa + pgsize) perm k'')
  unfolding mappages_loop walk
  loop_vacant f a last pa perm pte k small e nonzero vacant =
      let in_range : leb maxva a ≡ false = ground arith in
      let null : (pte == 0) ≡ false = ground arith in rw (in_range, e, null, vacant)

  -- One round: it fails and leaves the entries as they are, or maps the page of `a`.
  round_cases :
      (f a last pa perm : ℕ) (k : Kmem)
      → Space k
      → a < maxva
      → pa % pgsize ≡ 0
      → pa < phystop
      → perm < 2 ^ 10
      → flag (at k a) pte_v ≡ false
      → ((k' : Kmem) × (mappages_loop (suc f) root a last pa perm k ≡ ok (minus_one, k'))
          × Space k'
          × ((va : ℕ) → at k' va ≡ at k va))
        ⊎ ((k' : Kmem) × (mappages_loop (suc f) root a last pa perm k ≡ (
              if a == last
              then ok (pos 0, k')
              else mappages_loop f root (a + pgsize) last (pa + pgsize) perm k'))
            × Stepped a pa perm k k')
  round_cases f a last pa perm k space small pal below flags unmapped =
      let out = walk_loop 2 root a true k in
      let w =
        walk_loop-Walked kernel_end positive a 2 root 0 k space.free space.place space.tree
          space.top in
      elim w.leaf [
        | inl e ↦ inl (
          out.1,
          loop_full f a last pa perm k small e,
          record {
            free = w.free;
            place = w.places;
            tree = w.tree;
            top = w.kept root 2 0 space.top;
          },
          λ va. w.same 2 root 0 va space.top,
        )
        | inr (s, placed, here, ends) ↦
            let page = w.tree.page s 0 (leaf_prefix 2 0 a) placed in
            let value : load64 out.1.mem (s + 8 * px 0 a) ≡ at k a =
              sym (entry-Ends 2 root a out.1.mem s ends) ∙ w.same 2 root 0 a space.top in
            inr (
              _,
              loop_vacant f a last pa perm (s + 8 * px 0 a) k small here (omega (arith, page.above))
                  (ap (λ v. flag v pte_v) value ∙ unmapped),
              map_step a pa perm k space.place out space.top small pal below flags w s placed here
                  ends,
            )
      ]

  -- The last page.
  Mapped-last :
      (a pa perm : ℕ) (k k' : Kmem)
      → a % pgsize ≡ 0
      → a < maxva
      → Stepped a pa perm k k'
      → Mapped a (1 * pgsize) pa perm k (pos 0, k')
  Mapped-last a pa perm k k' al small stepped = record {
    space = stepped.space;
    others = λ va h out. ground (arith, stepped.entries va);
    pages = inr (
      refl,
      λ va lo hi.
          let e : pa + (va - va % pgsize - a) ≡ pa = omega arith in
          rw e (ground (arith, stepped.entries va)),
    );
  }

  -- The pages behind the first.
  Mapped-more :
      (n a pa perm : ℕ) (k k' : Kmem) (out : ℤ × Kmem)
      → a % pgsize ≡ 0
      → a + suc n * pgsize < maxva
      → Stepped a pa perm k k'
      → Mapped (a + pgsize) (suc n * pgsize) (pa + pgsize) perm k' out
      → Mapped a (suc (suc n) * pgsize) pa perm k out
  Mapped-more n a pa perm k k' out al small stepped rest = record {
    space = rest.space;
    others = λ va h away. rest.others va h (ground arith) ∙ ground (arith, stepped.entries va);
    pages = elim rest.pages [
      | inl e ↦ inl e
      | inr (e, pages) ↦ inr (
        e,
        λ va lo hi. elim (dec_lt va (a + pgsize)) [
          | yes first ↦
              let e : pa + (va - va % pgsize - a) ≡ pa = omega arith in
              rest.others va (omega arith) (inl first) ∙ rw e (ground (arith, stepped.entries va))
          | no later ↦
              pages va (omega arith) (omega arith) ∙ ap (λ b. make_pte b perm) (omega arith)
        ],
      )
    ];
  }

  mappages_loop-Mapped :
      (n a pa perm : ℕ) (k : Kmem)
      → Space k
      → a % pgsize ≡ 0
      → a + n * pgsize < maxva
      → pa % pgsize ≡ 0
      → pa + n * pgsize < phystop
      → perm < 2 ^ 10
      → Unmapped a (suc n * pgsize) k
      → (out : ℤ × Kmem) × (mappages_loop (suc n) root a (a + n * pgsize) pa perm k ≡ ok out)
        × Mapped a (suc n * pgsize) pa perm k out
  mappages_loop-Mapped zero a pa perm k space al in_range pal below flags unmapped =
      elim (round_cases 0 a (a + 0 * pgsize) pa perm k space (omega arith) pal (omega arith) flags
        (unmapped a (omega arith) (omega arith))) [
          | inl (k', run, space', same) ↦ (
            (minus_one, k'),
            run,
            record { space = space'; others = λ va h out. same va; pages = inl refl },
          )
          | inr (k', run, stepped) ↦
              let last : (a == a + 0 * pgsize) ≡ true = ground arith in
              ((pos 0, k'), rw (run, last), Mapped-last a pa perm k k' al (omega arith) stepped)
        ]
  mappages_loop-Mapped (suc n) a pa perm k space al in_range pal below flags unmapped =
      elim (round_cases (suc n) a (a + suc n * pgsize) pa perm k space (omega arith) pal
        (omega arith) flags (unmapped a (omega arith) (omega arith))) [
          | inl (k', run, space', same) ↦ (
            (minus_one, k'),
            run,
            record { space = space'; others = λ va h out. same va; pages = inl refl },
          )
          | inr (k', run, stepped) ↦
              let more : (a == a + suc n * pgsize) ≡ false = ground arith in
              let e : a + suc n * pgsize ≡ a + pgsize + n * pgsize = omega arith in
              let (out, run', rest) =
                mappages_loop-Mapped n (a + pgsize) (pa + pgsize) perm k' stepped.space
                  (omega arith) (omega arith) (omega arith) (omega arith) flags
                  (λ va lo hi.
                    ap (λ v. flag v pte_v) (stepped.entries va (omega arith))
                    ∙ ground (arith, unmapped va)) in
              (
                out,
                rw (run, more)
                    (ap (λ z. mappages_loop (suc n) root (a + pgsize) z (pa + pgsize) perm k') e
                      ∙ run'),
                Mapped-more n a pa perm k k' out al in_range stepped rest,
              )
        ]

  -- `mappages` of `n + 1` pages that are not mapped, from the aligned address `va` on, in a
  -- well-formed address space, where the last page begins below `MAXVA`, the physical address `pa`
  -- is aligned and its last page begins below `PHYSTOP`, and `perm` is below 2^10: it does not
  -- panic, it returns 0 or -1, and if 0 then each address of the range has the entry for its page
  -- of the memory from `pa` on, with `perm` and the valid bit. In either case no address outside
  -- the range changes, and the tables stay a tree apart from the free pages.
  pub mappages-Mapped :
      (n va pa perm : ℕ) (k : Kmem)
      → Space k
      → va % pgsize ≡ 0
      → va + n * pgsize < maxva
      → pa % pgsize ≡ 0
      → pa + n * pgsize < phystop
      → perm < 2 ^ 10
      → Unmapped va (suc n * pgsize) k
      → (out : ℤ × Kmem) × (mappages root va (suc n * pgsize) pa perm k ≡ ok out)
        × Mapped va (suc n * pgsize) pa perm k out
  unfolding mappages
  mappages-Mapped n va pa perm k space al in_range pal below flags unmapped =
      let first : pgrounddown va ≡ va = omega arith in
      let last : pgrounddown (va + suc n * pgsize - 1) ≡ va + n * pgsize = omega arith in
      let rounds : (va + n * pgsize - va) / pgsize ≡ n = omega arith in
      rw (first, last, rounds)
        (mappages_loop-Mapped n va pa perm k space al in_range pal below flags unmapped)
