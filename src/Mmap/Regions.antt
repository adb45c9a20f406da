-- ===== src/Mmap/Regions.antt =====
-- The regions that `sys_mmap` of kernel/sysfile.c makes do not overlap.
use mitcppos.Prelude.{
  ℕ, zero, suc, ◌+◌, ◌%◌, ◌≤◌, ◌<◌, ◌≡◌, ◌≢◌, ◌⊎◌, ltb, refl, sym, ◌∙◌, ap, inl, inr, true, false,
  not, ◌&&◌, some, List, [], ◌∷◌, set, get_elem?, get_elem?-set_self, get_elem?-set_ne, length,
  ◌==◌, arith, ok, Bool-cases, Option-cases,
}
use mitcppos.Prelude.Int.{pos, pos_part, ltb_ℤ}
use mitcppos.Riscv.{flag}
use mitcppos.File.Count.{filedup-ref}
use mitcppos.Mmap.{
  Mmapitem, State, fill_first, new_item, sys_mmap, add64, word, prot_write, map_shared,
}

-- behind the region
abbrev pub limit : Mmapitem → ℕ
limit x = x.addr + pos_part x.length

pub record Regions (sz : ℕ) (vma : List Mmapitem) : Type 0 where
  pub below : (i : ℕ) (x : Mmapitem) → get_elem? vma i ≡ some x → x.used ≡ true → limit x ≤ sz
  pub apart :
      (i j : ℕ) (x y : Mmapitem)
      → get_elem? vma i ≡ some x
      → get_elem? vma j ≡ some y
      → x.used ≡ true
      → y.used ≡ true
      → i ≢ j
      → (limit x ≤ y.addr) ⊎ (limit y ≤ x.addr)

fill_first-set :
    (v : Mmapitem) (xs ys : List Mmapitem)
    → fill_first v xs ≡ some ys
    → (k : ℕ) × (k < length xs)
      × (ys ≡ set xs k v)
      × ((x : Mmapitem) × (get_elem? xs k ≡ some x) × (x.used ≡ false))
unfolding fill_first
fill_first-set v [] ys e = absurd (ground (arith, e))
fill_first-set v (x ∷ xs) ys e = elim (Bool-cases x.used) [
  | inl busy ↦ elim (Option-cases (fill_first v xs)) [
    | inl f ↦ absurd (ground (arith, e, f, busy))
    | inr (zs, f) ↦
        let (k, less, same, old) = fill_first-set v xs zs f in
        let split : ys ≡ x ∷ zs = ground (arith, e, f, busy) in
        (suc k, omega (arith, less), split ∙ ap (x ∷◌) same, old)
  ]
  | inr free ↦ (zero, omega arith, ground (arith, e, free), (x, refl, free))
]

pub set_cases :
    (k : ℕ) (v : Mmapitem) (xs : List Mmapitem)
    → k < length xs
    → (i : ℕ) (x : Mmapitem) → get_elem? (set xs k v) i ≡ some x
    → ((i ≡ k) × (x ≡ v)) ⊎ ((i ≢ k) × (get_elem? xs i ≡ some x))
set_cases k v xs h i x e = elim (Bool-cases (i == k)) [
  | inl f ↦
      let same : i ≡ k = ground (arith, f) in
      let here = get_elem?-set_self xs k v h in
      let there : get_elem? (set xs k v) k ≡ some x = ap (get_elem? (set xs k v)) (sym same) ∙ e in
      inl (same, ground (arith, here, there))
  | inr f ↦
      let other : k ≢ i = ground (arith, f) in
      inr (ground (arith, f), sym (get_elem?-set_ne xs v other) ∙ e)
]

Regions-set :
    (sz n k : ℕ) (v : Mmapitem) (xs : List Mmapitem)
    → k < length xs
    → v.addr ≡ sz
    → pos_part v.length ≡ n
    → Regions sz xs
    → Regions (sz + n) (set xs k v)
Regions-set sz n k v xs h at len r = record {
  below = λ i x e u. elim (set_cases k v xs h i x e) [
    | inl (f, same) ↦ ground (arith, same, at, len)
    | inr (f, old) ↦ omega (arith, r.below i x old u)
  ];
  apart = λ i j x y e f u w ne. elim (set_cases k v xs h i x e) [
    | inl (a, same) ↦ elim (set_cases k v xs h j y f) [
      | inl (b, same') ↦ absurd (ne (a ∙ sym b))
      | inr (b, old) ↦ inr (ground (arith, same, at, r.below j y old w))
    ]
    | inr (a, old) ↦ elim (set_cases k v xs h j y f) [
      | inl (b, same) ↦ inl (ground (arith, same, at, r.below i x old u))
      | inr (b, old') ↦ r.apart i j x y old old' u w ne
    ]
  ];
}

fill_first-some :
    (v : Mmapitem) (xs : List Mmapitem) (k : ℕ) (x : Mmapitem)
    → get_elem? xs k ≡ some x
    → x.used ≡ false
    → (ys : List Mmapitem) × (fill_first v xs ≡ some ys)
unfolding fill_first
fill_first-some v [] k x e free = absurd (ground (arith, e))
fill_first-some v (y ∷ ys) zero x e free =
    let unused : y.used ≡ false = ground (arith, e, free) in (v ∷ ys, simp unused refl)
fill_first-some v (y ∷ ys) (suc k) x e free =
    let (zs, f) = fill_first-some v ys k x e free in
    elim (Bool-cases y.used) [
      | inl busy ↦ (y ∷ zs, simp (busy, f) refl)
      | inr unused ↦ (v ∷ ys, simp unused refl)
    ]

-- The mapping is in a place `k` of the table that was not in use.
pub record Mapped (n prot flags fd vfile k : ℕ) (s s' : State) : Type 0 where
  pub sz_after : s'.sz ≡ s.sz + n
  pub in_table : k < length s.vma
  pub vma_after : s'.vma ≡ set s.vma k (new_item (pos n) prot flags fd vfile s.sz)
  pub was_unused : (x : Mmapitem) × (get_elem? s.vma k ≡ some x) × (x.used ≡ false)
  pub counted : (s'.files vfile).ref ≡ (s.files vfile).ref + 1
  pub other_files : (f : ℕ) → f ≢ vfile → s'.files f ≡ s.files f

module _ (n prot flags fd vfile : ℕ) (s : State) where
  -- `sys_mmap` of `n` bytes at address and offset 0, with an unused place in the table of regions,
  -- an open file, a permission that the file grants or a private mapping, and an end of the memory
  -- that stays below 2^64: it returns the old end of the memory, which grows by `n`; it fills one
  -- unused place of the table with that region, and no other place changes; it counts one more
  -- reference to the file, and leaves all other files as they were.
  pub sys_mmap-Mapped :
      (i : ℕ) (x : Mmapitem)
      → get_elem? s.vma i ≡ some x
      → x.used ≡ false
      → 0 < (s.files vfile).ref
      → (not (s.files vfile).writable && flag prot prot_write && flags == map_shared) ≡ false
      → s.sz + n < word
      → (s' : State) × (k : ℕ) × (sys_mmap 0 (pos n) prot flags fd vfile (pos 0) s ≡ ok (s.sz, s'))
        × Mapped n prot flags fd vfile k s s'
  unfolding sys_mmap add64
  sys_mmap-Mapped i x e free ref allowed fits =
      let v = new_item (pos n) prot flags fd vfile s.sz in
      let (vma, filled) = fill_first-some v s.vma i x e free in
      let (k, less, same, old) = fill_first-set v s.vma vma filled in
      let counted : ltb (s.files vfile).ref 1 ≡ false = ground (arith, ref) in
      let (t, dup, more, others) = filedup-ref vfile s.files ref in
      let fit : (s.sz + n) % word ≡ s.sz + n = omega (arith, fits) in
      let nonneg : ltb_ℤ (pos n) (pos 0) ≡ false = ground arith in
      (
        record { sz = s.sz + n; vma = vma; files = t },
        k,
        rw (nonneg, allowed, filled, dup, fit) refl,
        record {
          sz_after = refl;
          in_table = less;
          vma_after = same;
          was_unused = old;
          counted = more;
          other_files = others;
        },
      )

  -- If before the regions did not overlap and ended within the memory, so they do after `sys_mmap`
  -- under the same conditions.
  sys_mmap-Regions :
      (i : ℕ) (x : Mmapitem)
      → Regions s.sz s.vma
      → get_elem? s.vma i ≡ some x
      → x.used ≡ false
      → 0 < (s.files vfile).ref
      → (not (s.files vfile).writable && flag prot prot_write && flags == map_shared) ≡ false
      → s.sz + n < word
      → (s' : State) × (sys_mmap 0 (pos n) prot flags fd vfile (pos 0) s ≡ ok (s.sz, s'))
        × Regions s'.sz s'.vma
  sys_mmap-Regions i x r e free ref allowed fits =
      let (s', k, run, m) = sys_mmap-Mapped i x e free ref allowed fits in
      (
        s',
        run,
        rw (m.sz_after, m.vma_after)
            (Regions-set s.sz n k (new_item (pos n) prot flags fd vfile s.sz) s.vma m.in_table refl
              refl r),
      )
