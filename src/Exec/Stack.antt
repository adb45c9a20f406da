-- ===== src/Exec/Stack.antt =====
-- The arguments that kernel/exec.c pushes on the new stack.
use mitcppos.Prelude.{
  ℕ, zero, suc, ◌+◌, ◌-◌, ◌*◌, ◌%◌, ◌^◌, ◌<◌, ◌≤◌, ◌≡◌, ◌≢◌, refl, Option, none, some, inl, inr,
  Outcome, ok, out_of_fuel, arith, ltb, ◌==◌, if◌then◌else◌, Bool-cases,
}
use mitcppos.Prelude.Int.{ℤ, pos, negsuc}
use mathlib.Core.Path.{subst}
use mitcppos.Mem.{load64}
use mitcppos.Str.{strlen}
use mitcppos.Str.Length.{strlen-lt}
use mitcppos.Kalloc.{Kmem}
use mitcppos.Vm.User.{copyout}
use mitcppos.Vm.User.Total.{copyout-Returns}
use mitcppos.Exec.{maxarg, push, Args, bad, pushed, copied_arg, push_arg, push_args}

abbrev with_place : (argc sp : ℕ) (ustack : ℕ → ℕ) → ℕ → ℕ
with_place argc sp ustack i = if i == argc then sp else ustack i

-- The place of `n` bytes below `hi`: the highest multiple of 16 that leaves room for them.
pub record Below (hi n lo : ℕ) : Type 0 where
  pub aligned : lo % 16 ≡ 0
  pub room : lo + n ≤ hi
  pub near : hi < lo + n + 16

module _ (fuel pagetable argv base top : ℕ) (k₀ : Kmem) where
  -- Argument `i`, which is there, and has `len` characters.
  pub record IsArg (i len : ℕ) (k : Kmem) : Type 0 where
    pub there : load64 k.mem (argv + 8 * i) ≢ 0
    pub measured : strlen fuel k.mem (load64 k.mem (argv + 8 * i)) ≡ some len

  -- How the arguments should be pushed, one after the other, from memory `k₀` on: after `argc` of
  -- them, the stack pointer, where they are, and the memory.
  pub data Pushes : (argc sp : ℕ) (ustack : ℕ → ℕ) → Kmem → Type 0 where
    none_yet : Pushes 0 top (λ _. 0) k₀
    one_more :
        {argc sp : ℕ} {ustack : ℕ → ℕ} {k : Kmem} (len lo r : ℕ) (k' : Kmem)
        → Pushes argc sp ustack k
        → IsArg argc len k
        → Below sp (len + 1) lo
        → base ≤ lo
        → copyout pagetable lo (load64 k.mem (argv + 8 * argc)) (len + 1) k ≡ ok (pos r, k')
        → Pushes (suc argc) lo (with_place argc lo ustack) k'

  -- How the loop ends, and after which arguments.
  pub data Ends : Outcome Args → Type 0 where
    all_pushed :
        (argc sp : ℕ) (ustack : ℕ → ℕ) (k : Kmem)
        → Pushes argc sp ustack k
        → argc ≤ maxarg
        → load64 k.mem (argv + 8 * argc) ≡ 0
        → Ends (ok (pushed argc sp ustack k))
    too_many :
        (sp : ℕ) (ustack : ℕ → ℕ) (k : Kmem)
        → Pushes maxarg sp ustack k
        → load64 k.mem (argv + 8 * maxarg) ≢ 0
        → Ends (ok (bad k))
    no_room :
        (argc sp len lo : ℕ) (ustack : ℕ → ℕ) (k : Kmem)
        → Pushes argc sp ustack k
        → argc < maxarg
        → IsArg argc len k
        → Below sp (len + 1) lo
        → lo < base
        → Ends (ok (bad k))
    no_page :
        (argc sp len lo n : ℕ) (ustack : ℕ → ℕ) (k k' : Kmem)
        → Pushes argc sp ustack k
        → argc < maxarg
        → IsArg argc len k
        → Below sp (len + 1) lo
        → base ≤ lo
        → copyout pagetable lo (load64 k.mem (argv + 8 * argc)) (len + 1) k ≡ ok (negsuc n, k')
        → Ends (ok (bad k'))
    no_end :
        (argc sp : ℕ) (ustack : ℕ → ℕ) (k : Kmem)
        → Pushes argc sp ustack k
        → argc < maxarg
        → load64 k.mem (argv + 8 * argc) ≢ 0
        → strlen fuel k.mem (load64 k.mem (argv + 8 * argc)) ≡ none
        → Ends out_of_fuel

  -- Between the base and the top.
  Pushes-low :
      {argc sp : ℕ} {ustack : ℕ → ℕ} {k : Kmem}
      → base ≤ top
      → Pushes argc sp ustack k
      → (base ≤ sp) × (sp ≤ top)
  Pushes-low h none_yet = (h, omega arith)
  Pushes-low h (one_more len lo r k' p arg b fits done) =
      let up = (Pushes-low h p).1 in (fits, omega (arith, up, b.room))

  push-Below : (sp n : ℕ) → n ≤ sp → sp < 2 ^ 64 → Below sp n (push sp n)
  push-Below sp n h early =
      let e : (sp + (2 ^ 64 - n)) % 2 ^ 64 ≡ sp - n = omega (arith, h, early) in
      record { aligned = omega arith; room = omega (arith, e, h); near = omega (arith, e, h) }

  copied-Ends :
      (more : (sp : ℕ) → (ℕ → ℕ) → Kmem → Outcome Args) (argc sp lo len : ℕ) (ustack : ℕ → ℕ)
      (k : Kmem)
      → Pushes argc sp ustack k
      → argc < maxarg
      → ((sp' : ℕ) (ustack' : ℕ → ℕ) (k' : Kmem)
          → Pushes (suc argc) sp' ustack' k'
          → Ends (more sp' ustack' k'))
      → IsArg argc len k
      → Below sp (len + 1) lo
      → base ≤ lo
      → (r : ℤ) (k' : Kmem)
      → copyout pagetable lo (load64 k.mem (argv + 8 * argc)) (len + 1) k ≡ ok (r, k')
      → Ends (copied_arg more argc lo ustack (r, k'))
  unfolding copied_arg
  copied-Ends more argc sp lo len ustack k p less next arg b fits (pos r) k' done =
      next lo (with_place argc lo ustack) k' (one_more len lo r k' p arg b fits done)
  copied-Ends more argc sp lo len ustack k p less next arg b fits (negsuc n) k' done =
      no_page argc sp len lo n ustack k k' p less arg b fits done

  module _ (fuel_small : fuel ≤ base) (base_low : base ≤ top) (top_small : top < 2 ^ 64) where
    arg-Ends :
        (more : (sp : ℕ) → (ℕ → ℕ) → Kmem → Outcome Args) (argc sp : ℕ) (ustack : ℕ → ℕ) (k : Kmem)
        → Pushes argc sp ustack k
        → argc < maxarg
        → ((sp' : ℕ) (ustack' : ℕ → ℕ) (k' : Kmem)
            → Pushes (suc argc) sp' ustack' k'
            → Ends (more sp' ustack' k'))
        → load64 k.mem (argv + 8 * argc) ≢ 0
        → (r : Option ℕ) → strlen fuel k.mem (load64 k.mem (argv + 8 * argc)) ≡ r
        → Ends (push_arg more pagetable base (load64 k.mem (argv + 8 * argc)) argc sp ustack k r)
    unfolding push_arg
    arg-Ends more argc sp ustack k p less next there none e = no_end argc sp ustack k p less there e
    arg-Ends more argc sp ustack k p less next there (some len) e =
        let arg = load64 k.mem (argv + 8 * argc) in
        let between = Pushes-low base_low p in
        let short : len + 1 ≤ sp =
          let l = strlen-lt fuel k.mem arg len e in omega (arith, l, fuel_small, between.0) in
        let b = push-Below sp (len + 1) short (omega (arith, between.1, top_small)) in
        let its : IsArg argc len k = record { there = there; measured = e } in
        let lo = push sp (len + 1) in
        elim (Bool-cases (ltb lo base)) [
          | inl f ↦ rw f (no_room argc sp len lo ustack k p less its b (ground (arith, f)))
          | inr f ↦
              let ((r, k'), done) = copyout-Returns pagetable lo arg (len + 1) k in
              rw (f, done)
                (copied-Ends more argc sp lo len ustack k p less next its b (ground (arith, f)) r k'
                  done)
        ]

    loop-Ends :
        (n argc sp : ℕ) (ustack : ℕ → ℕ) (k : Kmem)
        → n + argc ≡ maxarg
        → Pushes argc sp ustack k
        → Ends (push_args n fuel pagetable argv base argc sp ustack k)
    unfolding push_args
    loop-Ends zero argc sp ustack k h p = elim (Bool-cases (load64 k.mem (argv + 8 * argc) == 0)) [
      | inl e ↦ rw e (all_pushed argc sp ustack k p (omega (arith, h)) (ground (arith, e)))
      | inr e ↦
          let all : argc ≡ maxarg = omega (arith, h) in
          rw e (
            too_many sp ustack k (subst (λ x. Pushes x sp ustack k) all p)
              (subst (λ x. load64 k.mem (argv + 8 * x) ≢ 0) all (ground (arith, e))))
    ]
    loop-Ends (suc n) argc sp ustack k h p =
        elim (Bool-cases (load64 k.mem (argv + 8 * argc) == 0)) [
          | inl e ↦ rw e (all_pushed argc sp ustack k p (omega (arith, h)) (ground (arith, e)))
          | inr e ↦ rw e (
              arg-Ends (push_args n fuel pagetable argv base (argc + 1)) argc sp ustack k p
                (omega (arith, h))
                (λ sp' us k' p'.
                  let up : suc argc ≡ argc + 1 = omega arith in
                  loop-Ends n (argc + 1) sp' us k' (omega (arith, h))
                    (subst (λ x. Pushes x sp' us k') up p'))
                (ground (arith, e)) (strlen fuel k.mem (load64 k.mem (argv + 8 * argc))) refl)
        ]

-- For a stack from `base` to `top`, below 2^64, with a fuel of `strlen` that is at most `base`: the
-- loop of `exec` over the arguments ends, unless one of them has no NUL within the fuel. It pushes
-- the arguments in their order, each as read from `argv[i]`: `copyout` of its bytes with the NUL to
-- the highest multiple of 16 below the last place that leaves room for them, which is not below
-- `base`, and is put down in `ustack[i]`. It has pushed all, at most `MAXARG`, up to the null
-- pointer; or it gives up after some of them: there are more than `MAXARG`, or the place for the
-- next one is below `base`, or the copy of the next one fails.
pub push_args-Ends :
    (fuel pagetable argv base top : ℕ) (k : Kmem)
    → fuel ≤ base
    → base ≤ top
    → top < 2 ^ 64
    → Ends fuel pagetable argv base top k
        (push_args maxarg fuel pagetable argv base 0 top (λ _. 0) k)
push_args-Ends fuel pagetable argv base top k short fits early =
    loop-Ends fuel pagetable argv base top k short fits early maxarg 0 top (λ _. 0) k (omega arith)
      none_yet
