-- ===== src/Console/Read.antt =====
-- What `consoleread` of kernel/console.c hands out: the characters of the queue, in order.
use mitcppos.Prelude.{
  ℕ, zero, suc, ◌+◌, ◌-◌, ◌*◌, ◌%◌, ◌^◌, ◌<◌, ◌≤◌, ◌≡◌, ◌≢◌, ◌⊎◌, refl, sym, ap, ◌∙◌, inl, inr,
  Bool, true, false, List, [], ◌∷◌, ltb, ◌==◌, if◌then◌else◌, arith, Bool-cases, length, Outcome,
  ok,
}
use mitcppos.Prelude.Int.{pos, minus_one}
use mathlib.Core.Path.{subst}
use mitcppos.Mem.{Mem, store}
use mitcppos.Kalloc.{Kmem}
use mitcppos.Str.Copy.{memmove_byte}
use mitcppos.Proc.Memory.{either_copyout}
use mitcppos.Console.{input_buf, newline, ctrl_d, Cons}
use mitcppos.Prelude.Rings.{slice}
use mitcppos.Console.Line.{queue, line, Ready}
use mitcppos.Console.Input.{Turn, returns, sleeps, read_char, consoleread_loop, consoleread}

-- The characters at the front of the queue that one call may return: up to `n`, up to the end of a
-- line, and none behind a control-D.
pub handed : (n : ℕ) → List ℕ → List ℕ
handed zero q = []
handed (suc n) [] = []
handed (suc n) (c ∷ q) =
    let rest = handed n q in if c == ctrl_d then [] else (if c == newline then c ∷ [] else c ∷ rest)

-- The bytes stand in memory from `a` on.
pub Bytes : Mem → (a : ℕ) → List ℕ → Type 0
Bytes m a [] = Unit
Bytes m a (c ∷ cs) = (m a ≡ c) × Bytes m (a + 1) cs

-- The queue ends before the call would.
pub waits : (n : ℕ) → List ℕ → Bool
waits zero q = false
waits (suc n) [] = true
waits (suc n) (c ∷ q) =
    let rest = waits n q in if c == ctrl_d then false else (if c == newline then false else rest)

-- What stays in the queue. A control-D stays where it ends a call that has characters to return.
pub kept : (target n : ℕ) → List ℕ → List ℕ
kept target zero q = q
kept target (suc n) [] = []
kept target (suc n) (c ∷ q) =
    let rest = kept target n q in
    let stop = if ltb (suc n) target then c ∷ q else q in
    if c == ctrl_d then stop else (if c == newline then q else rest)

-- How the call ends.
pub ending : (killed : Bool) (target n dst : ℕ) → List ℕ → Cons → Kmem → Turn
ending killed target n dst q s k =
    let count = length (handed n q) in
    let waiting = if killed then returns minus_one s k else sleeps (n - count) (dst + count) s k in
    if waits n q then waiting else returns (pos (target - n + count)) s k

module _ (pagetable ch : ℕ) (killed : Bool) (target : ℕ) where
  pub record Handed (q : List ℕ) (n dst : ℕ) (s : Cons) (k : Kmem) (r : Outcome Turn) : Type 0 where
    pub s' : Cons
    pub k' : Kmem
    pub ends : r ≡ ok (ending killed target n dst q s' k')
    pub bytes : Bytes k'.mem dst (handed n q)
    pub left : queue s' ≡ kept target n q
    pub same_line : line s' ≡ line s
    pub ready : Ready s'
    pub others : (a : ℕ) → a ≢ ch → (a < dst) ⊎ (dst + n ≤ a) → k'.mem a ≡ k.mem a

  abbrev front : Cons → ℕ
  front s = s.buf (s.r % input_buf)

  -- The state behind the front character, and the memory with it at `dst`.
  behind : Cons → Cons
  behind s = record s { r = (s.r + 1) % 2 ^ 32 }

  with_char : (c dst : ℕ) → Kmem → Kmem
  with_char c dst k = record k { mem = store (store k.mem ch c) dst c }

  copied :
      (c dst : ℕ) (k : Kmem)
      → either_copyout pagetable false dst ch 1 (record k { mem = store k.mem ch c })
        ≡ ok (pos 0, with_char c dst k)
  unfolding either_copyout with_char
  copied c dst k =
      let stored : store k.mem ch c ch ≡ c = ground arith in
      rw (memmove_byte (store k.mem ch c) dst ch, stored) refl

  module _ (s : Cons) (ready : Ready s) (early : s.e + 2 * input_buf < 2 ^ 32)
      (more : s.r ≢ s.w) where
    next : (s.r + 1) % 2 ^ 32 ≡ s.r + 1
    next = omega (arith, early, ready.read, ready.written)

    queue-front : queue s ≡ front s ∷ queue (behind s)
    unfolding queue slice behind
    queue-front =
        let one : s.w - s.r ≡ suc (s.w - (s.r + 1)) = ground (arith, more, ready.read) in
        rw (next, one) refl

    behind-Ready : Ready (behind s)
    unfolding behind
    behind-Ready = record {
      read = ground (arith, next, more, ready.read);
      written = ready.written;
      room = ground (arith, next, ready.room);
      one_line = ready.one_line;
    }

    -- `cons.r--` behind `cons.r++`
    back : Cons
    back = record s { r = ((s.r + 1) % 2 ^ 32 + (2 ^ 32 - 1)) % 2 ^ 32 }

    back_r : ((s.r + 1) % 2 ^ 32 + (2 ^ 32 - 1)) % 2 ^ 32 ≡ s.r
    back_r = omega (arith, early, ready.read, ready.written)

    queue-back : queue back ≡ queue s
    unfolding queue back
    queue-back = ap (λ r. slice input_buf (s.w - r) r s.buf) back_r

    back-Ready : Ready back
    unfolding back
    back-Ready = record {
      read = omega (arith, back_r, ready.read);
      written = ready.written;
      room = omega (arith, back_r, ready.room);
      one_line = ready.one_line;
    }

  -- The three ways to go on from the front character `c`.
  at_eof :
      (n dst c : ℕ) (q : List ℕ) (s s₁ : Cons) (k : Kmem)
      → (c == ctrl_d) ≡ true
      → queue s₁ ≡ (if ltb (suc n) target then c ∷ q else q)
      → line s₁ ≡ line s
      → Ready s₁
      → Handed (c ∷ q) (suc n) dst s k (ok (returns (pos (target - suc n)) s₁ k))
  unfolding handed waits kept ending Bytes
  at_eof n dst c q s s₁ k e left same r =
      let none_more : target - suc n + 0 ≡ target - suc n = omega arith in
      record {
        s' = s₁;
        k' = k;
        ends = rw (e, none_more) refl;
        bytes = rw e tt;
        left = rw e left;
        same_line = same;
        ready = r;
        others = λ a ne h. refl;
      }

  at_newline :
      (n dst c : ℕ) (q : List ℕ) (s s₁ : Cons) (k : Kmem)
      → n < target
      → (c == ctrl_d) ≡ false
      → (c == newline) ≡ true
      → queue s₁ ≡ q
      → line s₁ ≡ line s
      → Ready s₁
      → Handed (c ∷ q) (suc n) dst s k (ok (returns (pos (target - n)) s₁ (with_char c dst k)))
  unfolding handed waits kept ending Bytes with_char
  at_newline n dst c q s s₁ k h e f left same r =
      let one : target - suc n + 1 ≡ target - n = omega (arith, h) in
      record {
        s' = s₁;
        k' = with_char c dst k;
        ends = rw (e, f, one) refl;
        bytes = rw (e, f) ((ground arith, tt));
        left = rw (e, f) left;
        same_line = same;
        ready = r;
        others = λ a ne h'. ground (arith, ne, h');
      }

  at_other :
      (n dst c : ℕ) (q : List ℕ) (s s₁ : Cons) (k : Kmem) (o : Outcome Turn)
      → n < target
      → (ch < dst) ⊎ (dst + suc n ≤ ch)
      → (c == ctrl_d) ≡ false
      → (c == newline) ≡ false
      → line s₁ ≡ line s
      → Handed q n (dst + 1) s₁ (with_char c dst k) o
      → Handed (c ∷ q) (suc n) dst s k o
  unfolding handed waits kept ending Bytes with_char
  at_other n dst c q s s₁ k o h apart e f same r =
      let len = length (handed n q) in
      let fewer : suc n - suc len ≡ n - len = omega arith in
      let later : dst + suc len ≡ dst + 1 + len = omega arith in
      let all : target - suc n + suc len ≡ target - n + len = omega (arith, h) in
      record {
        s' = r.s';
        k' = r.k';
        ends = r.ends ∙ rw (e, f, fewer, later, all) refl;
        bytes =
            rw (e, f)
              ((r.others dst (ground (arith, apart)) (inl (omega arith)) ∙ ground arith, r.bytes));
        left = rw (e, f) r.left;
        same_line = r.same_line ∙ same;
        ready = r.ready;
        others = λ a ne h'. r.others a ne (ground (arith, h')) ∙ ground (arith, ne, h');
      }

  at_empty :
      (n dst : ℕ) (s : Cons) (k : Kmem)
      → Ready s
      → queue s ≡ []
      → Handed []
          (suc n)
          dst
          s
          k
          (ok (if killed then returns minus_one s k else sleeps (suc n) dst s k))
  unfolding handed waits kept ending Bytes
  at_empty n dst s k ready e =
      let all : suc n - 0 ≡ suc n = omega arith in
      let here : dst + 0 ≡ dst = omega arith in
      record {
        s' = s;
        k' = k;
        ends = rw (all, here) refl;
        bytes = tt;
        left = e;
        same_line = refl;
        ready = ready;
        others = λ a ne h. refl;
      }

  empty_run :
      (n dst : ℕ) (s : Cons) (k : Kmem)
      → (s.r == s.w) ≡ true
      → consoleread_loop pagetable ch false killed target (suc n) dst s k
        ≡ ok (if killed then returns minus_one s k else sleeps (suc n) dst s k)
  unfolding consoleread_loop
  empty_run n dst s k e = simp (e) refl

  at_none :
      (dst : ℕ) (s : Cons) (k : Kmem)
      → Ready s
      → Handed (queue s) 0 dst s k (consoleread_loop pagetable ch false killed target 0 dst s k)
  unfolding handed waits kept ending Bytes consoleread_loop
  at_none dst s k ready =
      let all : target - 0 + 0 ≡ target = omega arith in
      record {
        s' = s;
        k' = k;
        ends = rw all refl;
        bytes = tt;
        left = refl;
        same_line = refl;
        ready = ready;
        others = λ a ne h. refl;
      }

  queue_empty : (s : Cons) → s.r ≡ s.w → queue s ≡ []
  unfolding queue slice
  queue_empty s e =
      let none_left : s.w - s.r ≡ 0 = omega (arith, e) in
      ap (λ n. slice input_buf n s.r s.buf) none_left

  -- With a character at the front.
  going :
      (n dst : ℕ) (s : Cons) (k : Kmem) (ready : Ready s) (early : s.e + 2 * input_buf < 2 ^ 32)
      (more : s.r ≢ s.w)
      → n < target
      → (ch < dst) ⊎ (dst + suc n ≤ ch)
      → Handed (queue (behind s)) n (dst + 1) (behind s) (with_char (front s) dst k) (
          consoleread_loop pagetable ch false killed target n
            (dst + 1)
            (behind s)
            (with_char (front s) dst k))
      → Handed
          (front s ∷ queue (behind s))
          (suc n)
          dst
          s
          k
          (consoleread_loop pagetable ch false killed target (suc n) dst s k)
  unfolding consoleread_loop read_char behind back line
  going n dst s k ready early more h apart rest =
      let c = front s in
      let q = queue (behind s) in
      let some_left : (s.r == s.w) ≡ false = ground (arith, more) in
      elim (Bool-cases (c == ctrl_d)) [
        | inl e ↦ elim (Bool-cases (ltb (suc n) target)) [
          | inl t ↦
              simp (some_left, e, t)
                (at_eof n dst c q s (back s ready early more) k e
                  (rw t (queue-back s ready early more ∙ queue-front s ready early more)) refl
                  (back-Ready s ready early more))
          | inr t ↦
              simp (some_left, e, t)
                (at_eof n dst c q s (behind s) k e (rw t refl) refl
                  (behind-Ready s ready early more))
        ]
        | inr e ↦ elim (Bool-cases (c == newline)) [
          | inl f ↦
              simp (some_left, e, copied c dst k, f)
                (at_newline n dst c q s (behind s) k h e f refl refl
                  (behind-Ready s ready early more))
          | inr f ↦
              simp (some_left, e, copied c dst k, f)
                (at_other n dst c q s (behind s) k _ h apart e f refl rest)
        ]
      ]

  loop-Handed :
      (n dst : ℕ) (s : Cons) (k : Kmem)
      → n ≤ target
      → (ch < dst) ⊎ (dst + n ≤ ch)
      → Ready s
      → s.e + 2 * input_buf < 2 ^ 32
      → Handed (queue s) n dst s k (consoleread_loop pagetable ch false killed target n dst s k)
  unfolding behind
  loop-Handed zero dst s k h apart ready early = at_none dst s k ready
  loop-Handed (suc n) dst s k h apart ready early = elim (Bool-cases (s.r == s.w)) [
    | inl e ↦
        let none_left : queue s ≡ [] = queue_empty s (ground (arith, e)) in
        subst
          (λ q.
            Handed q (suc n) dst s k
              (consoleread_loop pagetable ch false killed target (suc n) dst s k))
          (sym none_left)
          (subst (Handed [] (suc n) dst s k) (sym (empty_run n dst s k e))
            (at_empty n dst s k ready none_left))
    | inr e ↦
        let more : s.r ≢ s.w = ground (arith, e) in
        subst
          (λ q.
            Handed q (suc n) dst s k
              (consoleread_loop pagetable ch false killed target (suc n) dst s k))
          (sym (queue-front s ready early more))
          (going n dst s k ready early more h apart (
            loop-Handed n (dst + 1) (behind s) (with_char (front s) dst k) (omega (arith, h))
              (ground (arith, apart)) (behind-Ready s ready early more) early))
  ]

-- One turn of `consoleread` to kernel memory apart from its local character, on a well-formed ring
-- within the first 2^32 - 256 characters: it hands out the characters at the front of the queue, in
-- order, up to the count asked for, a newline or a control-D, which is left in the queue behind
-- characters. They stand at the destination, and it returns their number; if the queue ends before,
-- it goes to sleep with that much done, or returns -1 if the process was killed. The line being
-- edited and other memory stay as they were, and the ring stays well-formed.
pub consoleread-Handed :
    (pagetable ch : ℕ) (killed : Bool) (n dst : ℕ) (s : Cons) (k : Kmem)
    → (ch < dst) ⊎ (dst + n ≤ ch)
    → Ready s
    → s.e + 2 * input_buf < 2 ^ 32
    → Handed pagetable ch killed n
        (queue s)
        n
        dst
        s
        k
        (consoleread pagetable ch false killed dst n s k)
unfolding consoleread
consoleread-Handed pagetable ch killed n dst s k apart ready early =
    loop-Handed pagetable ch killed n n dst s k (omega arith) apart ready early
