-- ===== src/Kalloc/Boot.antt =====
-- `freerange` and `kinit`: at boot every page of physical memory gets on the free list.
use mitcppos.Prelude.{
  ℕ, zero, suc, ◌+◌, ◌*◌, ◌%◌, ◌≤◌, ◌<◌, ◌≡◌, refl, ◌↔◌, arith, Bool, false, true, List, [], ◌∷◌,
  has, Bool-cases, inl, inr, ok, panic, ltb, leb, ◌||◌, not, ◌==◌,
}
use mitcppos.Riscv.{pgsize, phystop, pgroundup}
use mitcppos.Kalloc.{Kmem, kalloc, kfree, freerange_loop, freerange, kinit}
use mitcppos.Kalloc.Chain.{IsPage, IsFree, Chain-IsPage, kfree-Chain}

-- With an empty list `kalloc` returns the null pointer and changes nothing.
pub kalloc_empty : (k : Kmem) → k.freelist ≡ 0 → kalloc k ≡ (0, k)
unfolding kalloc
kalloc_empty k e = let none_free : (k.freelist == 0) ≡ true = ground arith in rw none_free

module _ (kernel_end : ℕ) where
  -- the test of `kfree`
  abbrev refuses : (pa : ℕ) → Bool
  refuses pa = not (pa % pgsize == 0) || ltb pa kernel_end || leb phystop pa

  -- `kfree` panics exactly when it is given what is not a page of the allocator.
  pub kfree-eq-panic :
      (pa : ℕ) (k : Kmem) → (kfree kernel_end pa k ≡ panic "kfree") ↔ ¬ (IsPage kernel_end pa)
  unfolding kfree
  kfree-eq-panic pa k = elim (Bool-cases (refuses pa)) [
    | inl e ↦ rw e (λ _ page. ground (arith, page.aligned), λ _. refl)
    | inr e ↦ rw e (λ bad. cc, λ no_page. absurd (no_page (ground arith)))
  ]

  -- What the loop of `freerange` has done when it ends, started with the list `xs`.
  record Freed (p pa_end : ℕ) (xs : List ℕ) (k' : Kmem) (ys : List ℕ) : Type 0 where
    free : IsFree kernel_end k' ys
    kept : (q : ℕ) → has q xs ≡ true → has q ys ≡ true
    all : (q : ℕ) → q % pgsize ≡ 0 → p ≤ q → q + pgsize ≤ pa_end → has q ys ≡ true

  freerange_loop_lem :
      (fuel p pa_end : ℕ) (k : Kmem) (xs : List ℕ)
      → IsFree kernel_end k xs
      → ((q : ℕ) → has q xs ≡ true → q < p)
      → p % pgsize ≡ 0
      → kernel_end ≤ p
      → pa_end ≤ phystop
      → p ≤ pa_end + pgsize
      → pa_end + pgsize < p + pgsize * fuel
      → (k' : Kmem) × (ys : List ℕ) × (freerange_loop kernel_end fuel p pa_end k ≡ ok k')
        × Freed p pa_end xs k' ys
  unfolding freerange_loop
  freerange_loop_lem zero p pa_end k xs c low al above below near enough = absurd (omega arith)
  freerange_loop_lem (suc fuel) p pa_end k xs c low al above below near enough =
      elim (Bool-cases (leb (p + pgsize) pa_end)) [
        | inl more ↦
            let fresh : has p xs ≡ false = ground (arith, low p) in
            let (k₁, freed, free, _) = kfree-Chain kernel_end p k xs c (ground arith) fresh in
            let (k', ys, run, done) =
              freerange_loop_lem fuel (p + pgsize) pa_end k₁ (p ∷ xs) free
                (λ q h. ground (arith, low q)) (ground arith) (ground arith) below (ground arith)
                (ground arith) in
            (
              k',
              ys,
              rw (more, freed) run,
              record {
                free = done.free;
                kept = λ q h. done.kept q (ground arith);
                all = λ q qa lo hi. ground (arith, done.all q qa, done.kept q);
              },
            )
        | inr stop ↦
            (k, xs, rw stop, record { free = c; kept = λ q h. h; all = λ q qa lo hi. ground arith })
      ]

  -- If the kernel ends within physical memory and the list is empty before, then `kinit` does not
  -- panic, and its free list holds every page from there to the end of memory, each once.
  pub kinit-IsFree :
      (k : Kmem)
      → kernel_end ≤ phystop
      → k.freelist ≡ 0
      → (k' : Kmem) × (ys : List ℕ) × (kinit kernel_end k ≡ ok k')
        × IsFree kernel_end k' ys
        × ((q : ℕ) → (has q ys ≡ true) ↔ IsPage kernel_end q)
  unfolding kinit freerange
  kinit-IsFree k below e =
      let (k', ys, run, done) =
        freerange_loop_lem (suc phystop) (pgroundup kernel_end) phystop k [] e (λ q h. cc)
          (omega arith) (omega arith) (omega arith) (omega arith) (omega arith) in
      (
        k',
        ys,
        run,
        done.free,
        λ q. (
          Chain-IsPage kernel_end k'.mem k'.freelist ys q done.free,
          λ page. done.all q page.aligned (ground arith) (ground arith),
        ),
      )
