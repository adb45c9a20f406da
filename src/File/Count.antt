-- ===== src/File/Count.antt =====
-- The reference counts of kernel/file.c.
use mitcppos.Prelude.{
  ℕ, zero, suc, ◌+◌, ◌-◌, ◌≤◌, ◌<◌, ◌≡◌, ◌≢◌, refl, sym, ap, ◌∙◌, true, false, Option, none, some,
  ltb, ◌==◌, ok, arith, inl, inr, Bool-cases,
}
use mitcppos.File.{File, Ftable, nfile, filealloc, filealloc_loop, filedup, fileclose, put_file}

pub filedup-ref :
    (f : ℕ) (t : Ftable)
    → 0 < (t f).ref
    → (t' : Ftable) × (filedup f t ≡ ok t')
      × ((t' f).ref ≡ (t f).ref + 1)
      × ((g : ℕ) → g ≢ f → t' g ≡ t g)
unfolding filedup
filedup-ref f t h =
    let enough : ltb (t f).ref 1 ≡ false = ground (arith, h) in
    (
      put_file f (record (t f) { ref = (t f).ref + 1 }) t,
      rw enough refl,
      ground arith,
      λ g other. ground (arith, other),
    )

-- What `filealloc` finds: the first entry without a reference, which now has one; or all are in use.
unfoldable pub Allocated : (n f : ℕ) → Ftable → Option (ℕ × Ftable) → Type 0
Allocated n f t none = (i : ℕ) → f ≤ i → i < f + n → 0 < (t i).ref
Allocated n f t (some (g, t')) =
    (f ≤ g)
    × (g < f + n)
    × ((t g).ref ≡ 0)
    × ((i : ℕ) → f ≤ i → i < g → 0 < (t i).ref)
    × (t' g ≡ record (t g) { ref = 1 })
    × ((i : ℕ) → i ≢ g → t' i ≡ t i)

in_use :
    (f g : ℕ) (t : Ftable)
    → 0 < (t f).ref
    → ((i : ℕ) → f + 1 ≤ i → i < g → 0 < (t i).ref)
    → (i : ℕ) → f ≤ i
    → i < g
    → 0 < (t i).ref
in_use f g t h later i lo hi = elim (Bool-cases (i == f)) [
  | inl e ↦ let same : i ≡ f = ground (arith, e) in rw same h
  | inr e ↦ later i (ground (arith, e, lo)) hi
]

Allocated-suc :
    (n f : ℕ) (t : Ftable) (r : Option (ℕ × Ftable))
    → 0 < (t f).ref
    → Allocated n (f + 1) t r
    → Allocated (suc n) f t r
unfolding Allocated
Allocated-suc n f t none h a = λ i lo hi. in_use f (f + 1 + n) t h a i lo (omega (arith, hi))
Allocated-suc n f t (some (g, t')) h (lo, hi, free, before, one, others) =
    (omega (arith, lo), omega (arith, hi), free, in_use f g t h before, one, others)

filealloc_loop-Allocated : (n f : ℕ) (t : Ftable) → Allocated n f t (filealloc_loop n f t)
unfolding filealloc_loop Allocated
filealloc_loop-Allocated zero f t = λ i lo hi. absurd (omega (arith, lo, hi))
filealloc_loop-Allocated (suc n) f t = elim (Bool-cases ((t f).ref == 0)) [
  | inl e ↦ rw e (
    omega arith,
    omega arith,
    ground (arith, e),
    λ i lo hi. absurd (omega (arith, lo, hi)),
    ground arith,
    λ i other. ground (arith, other),
  )
  | inr e ↦
      let busy : 0 < (t f).ref = ground (arith, e) in
      rw e (
        Allocated-suc n f t (filealloc_loop n (f + 1) t) busy
          (filealloc_loop-Allocated n (f + 1) t))
]

-- `filealloc` returns the first entry of the table without a reference, and gives it one, leaving
-- its other fields and the other entries as they are; it returns none only if all entries are in
-- use.
pub filealloc-Allocated : (t : Ftable) → Allocated nfile 0 t (filealloc t)
unfolding filealloc
filealloc-Allocated t = filealloc_loop-Allocated nfile 0 t

put_file_self : (f : ℕ) (v : File) (t : Ftable) → put_file f v t f ≡ v
put_file_self f v t = ground arith

dropped :
    (f : ℕ) (t : Ftable) (i : ℕ)
    → let t' = put_file f (record (t f) { ref = (t f).ref + 1 }) t in
      put_file f (record (t' f) { ref = (t' f).ref - 1 }) t' i ≡ t i
dropped f t i = elim (Bool-cases (i == f)) [
  | inl e ↦
      let same : i ≡ f = ground (arith, e) in
      let self : (f == f) ≡ true = ground arith in
      let back : (t f).ref + 1 - 1 ≡ (t f).ref = omega arith in rw (e, self, back) (ap t (sym same))
  | inr e ↦ rw e refl
]

-- For an entry in use, `filedup` and then `fileclose` do not panic, close nothing, and leave the
-- table as it was.
pub fileclose-filedup :
    (f : ℕ) (t : Ftable)
    → 0 < (t f).ref
    → (t' : Ftable) × (t'' : Ftable) × (filedup f t ≡ ok t')
      × (fileclose f t' ≡ ok (none, t''))
      × ((i : ℕ) → t'' i ≡ t i)
unfolding filedup fileclose
fileclose-filedup f t h =
    let up = record (t f) { ref = (t f).ref + 1 } in
    let t' = put_file f up t in
    let dup : ltb (t f).ref 1 ≡ false = ground (arith, h) in
    let here : t' f ≡ up = put_file_self f up t in
    let held : ltb (t' f).ref 1 ≡ false = ap (λ x. ltb x.ref 1) here ∙ ground arith in
    let more : ltb 0 ((t' f).ref - 1) ≡ true =
      ap (λ x. ltb 0 (x.ref - 1)) here ∙ ground (arith, h) in
    (
      t',
      put_file f (record (t' f) { ref = (t' f).ref - 1 }) t',
      rw dup refl,
      rw (held, more) refl,
      λ i. dropped f t i,
    )
