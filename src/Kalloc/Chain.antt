-- ===== src/Kalloc/Chain.antt =====
-- The free list as a chain of distinct pages, and what `kfree` and `kalloc` do to it.
use mitcppos.Prelude.{
  ℕ, ◌+◌, ◌%◌, ◌^◌, ◌≤◌, ◌<◌, ◌≡◌, refl, sym, ◌∙◌, arith, false, true, List, [], ◌∷◌, has,
  Bool-cases, inl, inr, ◌⊎◌, ok, ◌==◌,
}
use mitcppos.Mem.{Mem, load64, store64, load_le_same, load-store_self, store_le_outside}
use mitcppos.Str.{memset}
use mitcppos.Str.Copy.{memset_lem}
use mitcppos.Riscv.{pgsize, phystop}
use mitcppos.Kalloc.{Kmem, kalloc, kfree}

-- no byte but those of the page `q` differs
abbrev pub SameOutside : (q : ℕ) → Mem → Mem → Type 0
SameOutside q m m' = (a : ℕ) → (a < q) ⊎ (q + pgsize ≤ a) → m' a ≡ m a

pub memset_same : (m : Mem) (q c : ℕ) → SameOutside q m (memset m q c pgsize)
memset_same m q c a out = ground (arith, memset_lem m q c pgsize a)

module _ (kernel_end : ℕ) where
  -- a page that the allocator may hand out
  pub record IsPage (pa : ℕ) : Type 0 where
    pub aligned : pa % pgsize ≡ 0
    pub above : kernel_end ≤ pa
    pub below : pa < phystop

  -- From `p` the chain leads through the distinct pages `xs` to the null pointer.
  abbrev pub Chain : Mem → (p : ℕ) → List ℕ → Type 0
  Chain m p [] = p ≡ 0
  Chain m p (x ∷ xs) = (p ≡ x) × IsPage x × (has x xs ≡ false) × Chain m (load64 m x) xs

  abbrev pub IsFree : Kmem → List ℕ → Type 0
  IsFree k xs = Chain k.mem k.freelist xs

  pub Chain-frame :
      (q : ℕ) (m m' : Mem) (p : ℕ) (xs : List ℕ)
      → q % pgsize ≡ 0
      → SameOutside q m m'
      → has q xs ≡ false
      → Chain m p xs
      → Chain m' p xs
  Chain-frame q m m' p [] al same out c = c
  Chain-frame q m m' p (x ∷ xs) al same out (e, page, fresh, c) =
      let next : load64 m' x ≡ load64 m x =
        load_le_same 8 m' m x (λ a lo hi. same a (ground arith)) in
      (e, page, fresh, rw next (Chain-frame q m m' (load64 m x) xs al same (ground arith) c))

  pub Chain-IsPage :
      (m : Mem) (p : ℕ) (xs : List ℕ) (q : ℕ) → Chain m p xs → has q xs ≡ true → IsPage q
  Chain-IsPage m p [] q c h = cc
  Chain-IsPage m p (x ∷ xs) q (e, page, fresh, c) h = elim (Bool-cases (q == x)) [
    | inl here ↦ ground arith
    | inr there ↦ Chain-IsPage m (load64 m x) xs q c (ground arith)
  ]

  Chain-small : (m : Mem) (p : ℕ) (xs : List ℕ) → Chain m p xs → p < 2 ^ 64
  Chain-small m p [] c = omega arith
  Chain-small m p (x ∷ xs) (e, page, fresh, c) = omega arith

  -- `kfree` of a page that is not on the list puts it in front of the list, and writes to no other
  -- page.
  pub kfree-Chain :
      (pa : ℕ) (k : Kmem) (xs : List ℕ)
      → IsFree k xs
      → IsPage pa
      → has pa xs ≡ false
      → (k' : Kmem) × (kfree kernel_end pa k ≡ ok k')
        × IsFree k' (pa ∷ xs)
        × SameOutside pa k.mem k'.mem
  unfolding kfree
  kfree-Chain pa k xs c page fresh =
      let junk = memset k.mem pa 1 pgsize in
      let m' = store64 junk pa k.freelist in
      let link : load64 m' pa ≡ k.freelist =
        load-store_self 8 junk pa k.freelist (Chain-small k.mem k.freelist xs c) in
      let same : SameOutside pa k.mem m' = λ a out.
        store_le_outside 8 junk pa k.freelist a (ground arith) ∙ memset_same k.mem pa 1 a out in
      let tail : Chain m' k.freelist xs =
        Chain-frame pa k.mem m' k.freelist xs page.aligned same fresh c in
      (record { mem = m'; freelist = pa }, ground arith, (refl, page, fresh, rw link tail), same)

  -- With a page on the list, `kalloc` hands out the first free page, filled with 5, takes it off
  -- the list, and writes to no other page.
  pub kalloc-Chain :
      (k : Kmem) (x : ℕ) (xs : List ℕ)
      → 0 < kernel_end
      → IsFree k (x ∷ xs)
      → ((kalloc k).0 ≡ x)
        × IsFree (kalloc k).1 xs
        × ((a : ℕ) → x ≤ a → a < x + pgsize → (kalloc k).1.mem a ≡ 5)
        × SameOutside x k.mem (kalloc k).1.mem
  unfolding kalloc
  kalloc-Chain k x xs pos (e, page, fresh, c) =
      let m' = memset k.mem x 5 pgsize in
      let same : SameOutside x k.mem m' = memset_same k.mem x 5 in
      let nonzero : (x == 0) ≡ false = ground arith in
      rw (e, nonzero)
        (
          refl,
          Chain-frame x k.mem m' (load64 k.mem x) xs page.aligned same fresh c,
          λ a lo hi. ground (arith, memset_lem k.mem x 5 pgsize a),
          same,
        )

-- What `kalloc` returns is the head of the list, and 0 leaves all as it was.
pub kalloc-head : (k : Kmem) → (kalloc k).0 ≡ k.freelist
unfolding kalloc
kalloc-head k = elim (Bool-cases (k.freelist == 0)) [
  | inl e ↦ rw e (sym (ground (arith, e)))
  | inr e ↦ rw e refl
]

pub kalloc-none : (k : Kmem) → k.freelist ≡ 0 → kalloc k ≡ (0, k)
unfolding kalloc
kalloc-none k h = let e : (k.freelist == 0) ≡ true = ground (arith, h) in rw e refl
