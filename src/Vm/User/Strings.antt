-- ===== src/Vm/User/Strings.antt =====
-- `copyinstr` of kernel/vm.c ends, and keeps to the buffer that it is given.
use mitcppos.Prelude.{
  ℕ, zero, suc, ◌+◌, ◌-◌, ◌<◌, ◌≤◌, ◌≡◌, ◌≢◌, ◌⊎◌, refl, ◌∙◌, Bool, true, false, inl, inr, Outcome,
  ok, arith, ◌==◌, if◌then◌else◌, Bool-cases, ltb,
}
use mitcppos.Prelude.Int.{ℤ, pos, minus_one}
use mathlib.Core.Path.{subst}
use mitcppos.Mem.{Mem, store}
use mitcppos.Str.Length.{IsString}
use mitcppos.Riscv.{pgsize, pgrounddown}
use mitcppos.Kalloc.{Kmem}
use mitcppos.Vm.{walkaddr}
use mitcppos.Vm.User.{chunk, copy_chars, copyinstr_loop, copyinstr}
use mitcppos.Vm.User.Total.{chunk-le, chunk-pos}

-- Nothing outside the `n` bytes at `dst` changes.
abbrev pub Kept : (dst n : ℕ) (m m' : Mem) → Type 0
Kept dst n m m' = (a : ℕ) → (a < dst) ⊎ (dst + n ≤ a) → m' a ≡ m a

-- What the inner loop does.
data Chars (n dst max : ℕ) (m : Mem) : Bool × ℕ × ℕ × Mem → Type 0 where
  ended :
      (j d mx : ℕ) (m' : Mem)
      → j < n
      → IsString m' dst j
      → Kept dst n m m'
      → Chars n dst max m (true, d, mx, m')
  goes_on :
      (d mx : ℕ) (m' : Mem)
      → d ≡ dst + n
      → mx ≡ max - n
      → ((i : ℕ) → i < n → m' (dst + i) ≢ 0)
      → Kept dst n m m'
      → Chars n dst max m (false, d, mx, m')

chars_from :
    (dst n : ℕ) (m : Mem)
    → m dst ≢ 0
    → ((i : ℕ) → i < n → m (dst + 1 + i) ≢ 0)
    → (i : ℕ) → i < suc n
    → m (dst + i) ≢ 0
chars_from dst n m h t zero lt = let at : dst + 0 ≡ dst = omega arith in rw at h
chars_from dst n m h t (suc i) lt =
    let at : dst + suc i ≡ dst + 1 + i = omega arith in rw at (t i (omega (arith, lt)))

-- A character in front.
chars_more :
    (n dst max c : ℕ) (m : Mem) (r : Bool × ℕ × ℕ × Mem)
    → c ≢ 0
    → Chars n (dst + 1) (max - 1) (store m dst c) r
    → Chars (suc n) dst max m r
chars_more n dst max c m _ h (ended j d mx m' lt str kept) =
    let first : m' dst ≡ c = kept dst (inl (omega arith)) ∙ ground arith in
    ended (suc j) d mx m' (omega (arith, lt))
      (record {
        nul = let at : dst + suc j ≡ dst + 1 + j = omega arith in rw at str.nul;
        chars = chars_from dst j m' (λ z. h (subst (λ x. x ≡ 0) first z)) str.chars;
      })
      (λ a o. kept a (ground (arith, o)) ∙ ground (arith, o))
chars_more n dst max c m _ h (goes_on d mx m' e f chars kept) =
    let first : m' dst ≡ c = kept dst (inl (omega arith)) ∙ ground arith in
    goes_on d mx m' (omega (arith, e)) (omega (arith, f))
      (chars_from dst n m' (λ z. h (subst (λ x. x ≡ 0) first z)) chars)
      (λ a o. kept a (ground (arith, o)) ∙ ground (arith, o))

copy_chars-Chars : (n p dst max : ℕ) (m : Mem) → Chars n dst max m (copy_chars n p dst max m)
unfolding copy_chars
copy_chars-Chars zero p dst max m =
    goes_on dst max m (omega arith) (omega arith) (λ i lt. absurd (omega (arith, lt))) (λ a o. refl)
copy_chars-Chars (suc n) p dst max m = elim (Bool-cases (m p == 0)) [
  | inl e ↦
      let at : dst + 0 ≡ dst = omega arith in
      rw e (
        ended 0 dst max (store m dst 0) (omega arith)
          (record { nul = ground (arith, at); chars = λ i lt. absurd (omega (arith, lt)) })
          (λ a o. ground (arith, o)))
  | inr e ↦ rw e (
      chars_more n dst max (m p) m _ (ground (arith, e))
        (copy_chars-Chars n (p + 1) (dst + 1) (max - 1) (store m dst (m p))))
]

-- What `copyinstr` does: -1, or a string of fewer than `max` characters at `dst`.
pub data Fetched (dst max : ℕ) (k : Kmem) : ℤ × Kmem → Type 0 where
  failed :
      (k' : Kmem)
      → k'.freelist ≡ k.freelist
      → Kept dst max k.mem k'.mem
      → Fetched dst max k (minus_one, k')
  fetched :
      (j : ℕ) (k' : Kmem)
      → j < max
      → IsString k'.mem dst j
      → k'.freelist ≡ k.freelist
      → Kept dst max k.mem k'.mem
      → Fetched dst max k (pos 0, k')

chars_after :
    (dst n j : ℕ) (m m' : Mem)
    → ((i : ℕ) → i < n → m (dst + i) ≢ 0)
    → ((i : ℕ) → i < n → m' (dst + i) ≡ m (dst + i))
    → IsString m' (dst + n) j
    → IsString m' dst (n + j)
chars_after dst n j m m' before same str = record {
  nul = let at : dst + (n + j) ≡ dst + n + j = omega arith in rw at str.nul;
  chars = λ i lt. elim (Bool-cases (ltb i n)) [
    | inl e ↦ let early : i < n = ground (arith, e) in rw (same i early) (before i early)
    | inr e ↦
        let at : dst + i ≡ dst + n + (i - n) = ground (arith, e) in
        let late : i - n < j = ground (arith, e, lt) in rw at (str.chars (i - n) late)
  ];
}

-- What a round and those behind it do.
later :
    (n dst max : ℕ) (k : Kmem) (m : Mem) (r : ℤ × Kmem)
    → n ≤ max
    → ((i : ℕ) → i < n → m (dst + i) ≢ 0)
    → Kept dst n k.mem m
    → Fetched (dst + n) (max - n) (record k { mem = m }) r
    → Fetched dst max k r
later n dst max k m _ h chars kept (failed k' free kept') =
    failed k' free (λ a o. kept' a (ground (arith, o, h)) ∙ kept a (ground (arith, o, h)))
later n dst max k m _ h chars kept (fetched j k' lt str free kept') =
    fetched (n + j) k' (omega (arith, lt, h))
      (chars_after dst n j m k'.mem chars (λ i l. kept' (dst + i) (inl (omega (arith, l)))) str)
      free (λ a o. kept' a (ground (arith, o, h)) ∙ kept a (ground (arith, o, h)))

-- The call returns, and has done that.
unfoldable pub Fetches : (dst max : ℕ) (k : Kmem) → Outcome (ℤ × Kmem) → Type 0
Fetches dst max k o = (r : ℤ × Kmem) × (o ≡ ok r) × Fetched dst max k r

round :
    (n dst max : ℕ) (k : Kmem) (r : Bool × ℕ × ℕ × Mem)
    (next : (dst max : ℕ) → Kmem → Outcome (ℤ × Kmem))
    → n ≤ max
    → ((k' : Kmem) → Fetches (dst + n) (max - n) k' (next (dst + n) (max - n) k'))
    → Chars n dst max k.mem r
    → Fetches dst max k (
        let (got_null, dst', max', m) = r in
        let k' = record k { mem = m } in if got_null then ok (pos 0, k') else next dst' max' k')
unfolding Fetches
round n dst max k _ next h rest (ended j d mx m' lt str kept) = (
  (pos 0, record k { mem = m' }),
  refl,
  fetched j (record k { mem = m' }) (omega (arith, lt, h)) str refl
      (λ a o. kept a (ground (arith, o, h))),
)
round n dst max k _ next h rest (goes_on d mx m' e f chars kept) =
    let (r, ends, its) = rest (record k { mem = m' }) in
    (r, rw (e, f) ends, later n dst max k m' r h chars kept its)

copyinstr_loop-Fetches :
    (fuel pagetable dst srcva max : ℕ) (k : Kmem)
    → max < fuel
    → Fetches dst max k (copyinstr_loop fuel pagetable dst srcva max k)
unfolding copyinstr_loop Fetches
copyinstr_loop-Fetches zero pagetable dst srcva max k h = absurd (omega (arith, h))
copyinstr_loop-Fetches (suc fuel) pagetable dst srcva max k h =
    let va0 = pgrounddown srcva in
    let pa0 = walkaddr pagetable va0 k in
    let n = chunk srcva max in
    elim (Bool-cases (max == 0)) [
      | inl e ↦ rw e (((minus_one, k), refl, failed k refl (λ a o. refl)))
      | inr e ↦
          let some_left : 0 < max = ground (arith, e) in
          let fewer : max - n < fuel =
            omega (arith, h, some_left, chunk-le srcva max, chunk-pos srcva max some_left) in
          elim (Bool-cases (pa0 == 0)) [
            | inl f ↦ rw (e, f) (((minus_one, k), refl, failed k refl (λ a o. refl)))
            | inr f ↦
                rw (e, f)
                  (round n dst max k (copy_chars n (pa0 + (srcva - va0)) dst max k.mem)
                    (λ d mx. copyinstr_loop fuel pagetable d (va0 + pgsize) mx) (chunk-le srcva max)
                    (λ k'.
                      copyinstr_loop-Fetches fuel pagetable (dst + n) (va0 + pgsize) (max - n) k'
                        fewer)
                    (copy_chars-Chars n (pa0 + (srcva - va0)) dst max k.mem))
          ]
    ]

pub copyinstr-Fetches :
    (pagetable dst srcva max : ℕ) (k : Kmem)
    → Fetches dst max k (copyinstr pagetable dst srcva max k)
unfolding copyinstr
copyinstr-Fetches pagetable dst srcva max k =
    copyinstr_loop-Fetches (suc max) pagetable dst srcva max k (omega arith)
