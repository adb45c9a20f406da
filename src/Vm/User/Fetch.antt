-- ===== src/Vm/User/Fetch.antt =====
-- What `copyin` of kernel/vm.c brings from user memory, over any number of pages.
use mitcppos.Prelude.{
  ℕ, zero, suc, ◌+◌, ◌-◌, ◌<◌, ◌≤◌, ◌≡◌, refl, sym, ap, ◌∙◌, true, false, Option, none, some, inl,
  inr, ok, arith, ◌==◌, Bool-cases, ltb,
}
use mitcppos.Prelude.Int.{ℤ, pos, minus_one}
use mitcppos.Mem.{Mem}
use mitcppos.Str.{memmove}
use mitcppos.Str.Copy.{within, memmove_lem}
use mitcppos.Riscv.{pgsize, pgrounddown}
use mitcppos.Kalloc.{Kmem}
use mitcppos.Vm.{walkaddr}
use mitcppos.Vm.User.{chunk, copyin, copyin_loop}
use mitcppos.Vm.User.Bytes.{user_addr, user_byte}
use mitcppos.Vm.User.Total.{chunk-le, chunk-pos}
use mitcppos.Vm.User.Strings.{Kept}

-- `u` is what the process has at `srcva`, whatever stands in the `n` bytes at `dst`.
unfoldable pub Source : (pagetable dst srcva n : ℕ) (u : ℕ → Option ℕ) → Kmem → Type 0
Source pagetable dst srcva n u k =
    (m : Mem)
    → Kept dst n k.mem m
    → (i : ℕ) → i < n
    → user_byte pagetable (srcva + i) (record k { mem = m }) ≡ u i

-- All bytes were copied, or those before the first one that is not mapped.
pub data Brought (dst n : ℕ) (u : ℕ → Option ℕ) (k : Kmem) : ℤ × Kmem → Type 0 where
  all_of_them :
      (k' : Kmem)
      → ((i : ℕ) → i < n → u i ≡ some (k'.mem (dst + i)))
      → Kept dst n k.mem k'.mem
      → k'.freelist ≡ k.freelist
      → Brought dst n u k (pos 0, k')
  up_to :
      (j : ℕ) (k' : Kmem)
      → j < n
      → u j ≡ none
      → ((i : ℕ) → i < j → u i ≡ some (k'.mem (dst + i)))
      → Kept dst n k.mem k'.mem
      → k'.freelist ≡ k.freelist
      → Brought dst n u k (minus_one, k')

module _ (pagetable : ℕ) where
  same_page : (va len i : ℕ) → i < chunk va len → pgrounddown (va + i) ≡ pgrounddown va
  same_page va len i h = ground (arith, h)

  next_page : (va len : ℕ) → chunk va len < len → pgrounddown va + pgsize ≡ va + chunk va len
  next_page va len h = ground (arith, h)

  -- The bytes of one page.
  addr_here :
      (va len i : ℕ) (k : Kmem)
      → i < chunk va len
      → (walkaddr pagetable (pgrounddown va) k == 0) ≡ false
      → user_addr pagetable (va + i) k
        ≡ some (walkaddr pagetable (pgrounddown va) k + (va + i - pgrounddown va))
  unfolding user_addr
  addr_here va len i k h e = rw (same_page va len i h, e) refl

  byte_here :
      (va len i : ℕ) (k : Kmem)
      → i < chunk va len
      → (walkaddr pagetable (pgrounddown va) k == 0) ≡ false
      → user_byte pagetable (va + i) k
        ≡ some (k.mem (walkaddr pagetable (pgrounddown va) k + (va + i - pgrounddown va)))
  unfolding user_byte
  byte_here va len i k h e =
      ap (λ (o : Option ℕ). elim o as (λ _. Option ℕ) [ none ↦ none | some a ↦ some (k.mem a) ])
        (addr_here va len i k h e)

  no_addr :
      (va : ℕ) (k : Kmem)
      → (walkaddr pagetable (pgrounddown va) k == 0) ≡ true
      → user_addr pagetable (va + 0) k ≡ none
  unfolding user_addr
  no_addr va k e = let at : va + 0 ≡ va = omega arith in rw (at, e) refl

  none_here :
      (va : ℕ) (k : Kmem)
      → (walkaddr pagetable (pgrounddown va) k == 0) ≡ true
      → user_byte pagetable (va + 0) k ≡ none
  unfolding user_byte
  none_here va k e =
      ap (λ (o : Option ℕ). elim o as (λ _. Option ℕ) [ none ↦ none | some a ↦ some (k.mem a) ])
        (no_addr va k e)

  module _ (dst va len : ℕ) (u : ℕ → Option ℕ) (k : Kmem)
      (src : Source pagetable dst va len u k) where
    abbrev here : ℕ
    here = walkaddr pagetable (pgrounddown va) k

    -- The memory with the chunk copied.
    abbrev after : Mem
    after = memmove k.mem dst (here + (va - pgrounddown va)) (chunk va len)

    after-Kept : Kept dst len k.mem after
    after-Kept a o =
        let le = chunk-le va len in
        memmove_lem k.mem dst (here + (va - pgrounddown va)) (chunk va len) a
        ∙ ground (arith, o, le)

    now : (i : ℕ) → i < len → user_byte pagetable (va + i) k ≡ u i
    unfolding Source
    now i h = src k.mem (λ a o. refl) i h

    copied_here : (here == 0) ≡ false → (i : ℕ) → i < chunk va len → u i ≡ some (after (dst + i))
    copied_here e i h =
        let le = chunk-le va len in
        let low : pgrounddown va ≤ va = omega arith in
        let at : here + (va - pgrounddown va) + (dst + i - dst) ≡ here + (va + i - pgrounddown va) =
          omega (arith, low) in
        let inside : within dst (chunk va len) (dst + i) ≡ true = ground (arith, h) in
        let moved : after (dst + i) ≡ k.mem (here + (va + i - pgrounddown va)) =
          memmove_lem k.mem dst (here + (va - pgrounddown va)) (chunk va len) (dst + i)
          ∙ rw inside (ap k.mem at) in
        sym (now i (omega (arith, h, le))) ∙ byte_here va len i k h e ∙ ap some (sym moved)

    -- What there is to copy behind the chunk.
    rest_Source :
        Source pagetable
          (dst + chunk va len)
          (pgrounddown va + pgsize)
          (len - chunk va len)
          (λ i. u (chunk va len + i))
          (record k { mem = after })
    unfolding Source
    rest_Source m kept i h =
        let n = chunk va len in
        let at : pgrounddown va + pgsize + i ≡ va + (n + i) =
          let p = next_page va len (omega (arith, h)) in omega (arith, p) in
        rw at (
          src m (λ a o. kept a (let le = chunk-le va len in ground (arith, o, le)) ∙ after-Kept a o)
            (n + i) (omega (arith, h)))

    -- The bytes of the chunk, then those behind it.
    joined :
        (c : ℕ) (m m' : Mem) (l : ℕ)
        → ((i : ℕ) → i < c → u i ≡ some (m (dst + i)))
        → ((a : ℕ) → a < dst + c → m' a ≡ m a)
        → ((i : ℕ) → i < l → u (c + i) ≡ some (m' (dst + c + i)))
        → (i : ℕ) → i < c + l
        → u i ≡ some (m' (dst + i))
    joined c m m' l first same behind i h = elim (Bool-cases (ltb i c)) [
      | inl e ↦
          let early : i < c = ground (arith, e) in
          first i early ∙ ap some (sym (same (dst + i) (omega (arith, early))))
      | inr e ↦
          let at : c + (i - c) ≡ i = ground (arith, e) in
          let at' : dst + c + (i - c) ≡ dst + i = ground (arith, e) in
          ap u (sym at) ∙ behind (i - c) (ground (arith, e, h)) ∙ ap (λ a. some (m' a)) at'
    ]

    later :
        (here == 0) ≡ false
        → (r : ℤ × Kmem)
        → Brought
            (dst + chunk va len)
            (len - chunk va len)
            (λ i. u (chunk va len + i))
            (record k { mem = after })
            r
        → Brought dst len u k r
    later e _ (all_of_them k' bytes kept free) =
        let le = chunk-le va len in
        all_of_them k'
          (λ i h.
            joined (chunk va len) after k'.mem (len - chunk va len) (copied_here e)
              (λ a l. kept a (inl l)) bytes i (omega (arith, h, le)))
          (λ a o. kept a (ground (arith, o, le)) ∙ after-Kept a o) free
    later e _ (up_to j k' h missing bytes kept free) =
        let le = chunk-le va len in
        up_to (chunk va len + j) k' (omega (arith, h, le)) missing
          (joined (chunk va len) after k'.mem j (copied_here e) (λ a l. kept a (inl l)) bytes)
          (λ a o. kept a (ground (arith, o, le)) ∙ after-Kept a o) free

  -- The call returns, and has done that.
  loop-Brought :
      (fuel dst va len : ℕ) (u : ℕ → Option ℕ) (k : Kmem)
      → len < fuel
      → Source pagetable dst va len u k
      → (r : ℤ × Kmem) × (copyin_loop fuel pagetable dst va len k ≡ ok r) × Brought dst len u k r
  unfolding copyin_loop
  loop-Brought zero dst va len u k h src = absurd (omega (arith, h))
  loop-Brought (suc fuel) dst va len u k h src = elim (Bool-cases (len == 0)) [
    | inl e ↦
        let none_left : len ≡ 0 = ground (arith, e) in
        rw e (
          (pos 0, k),
          refl,
          all_of_them k (λ i l. absurd (omega (arith, l, none_left))) (λ a o. refl) refl,
        )
    | inr e ↦
        let some_left : 0 < len = ground (arith, e) in
        let fewer : len - chunk va len < fuel =
          omega (arith, h, some_left, chunk-le va len, chunk-pos va len some_left) in
        elim (Bool-cases (walkaddr pagetable (pgrounddown va) k == 0)) [
          | inl f ↦
              let missing : u 0 ≡ none =
                sym (now dst va len u k src 0 some_left) ∙ none_here va k f in
              rw (e, f)
                (
                  (minus_one, k),
                  refl,
                  up_to 0 k some_left missing (λ i l. absurd (omega (arith, l))) (λ a o. refl) refl,
                )
          | inr f ↦
              let n = chunk va len in
              let (r, ends, its) =
                loop-Brought fuel (dst + n) (pgrounddown va + pgsize) (len - n) (λ i. u (n + i))
                  (record k { mem = after dst va len u k src }) fewer
                  (rest_Source dst va len u k src) in
              rw (e, f) ((r, ends, later dst va len u k src f r its))
        ]
  ]

-- `copyin` of `len` bytes, where `u` says for each address of the range which byte the process has
-- there, or that none is mapped, and says so whatever stands in the destination: it ends, over
-- however many pages. If all are mapped it returns 0, and the bytes stand at the destination in
-- order; else it returns -1, and the bytes before the first one that is not mapped stand there. It
-- writes nowhere else.
pub copyin-Brought :
    (pagetable dst srcva len : ℕ) (u : ℕ → Option ℕ) (k : Kmem)
    → Source pagetable dst srcva len u k
    → (r : ℤ × Kmem) × (copyin pagetable dst srcva len k ≡ ok r) × Brought dst len u k r
unfolding copyin
copyin-Brought pagetable dst srcva len u k src =
    loop-Brought pagetable (suc len) dst srcva len u k (omega arith) src
