-- ===== src/Pipe/Read.antt =====
-- `piperead` of kernel/pipe.c against the queue: a turn takes bytes from its front, and puts them into
-- the caller's buffer in order.
use mitcppos.Prelude.{
  ℕ, zero, suc, ◌+◌, ◌%◌, ◌^◌, ◌≤◌, ◌<◌, ◌≡◌, ◌≢◌, ◌⊎◌, refl, sym, ◌∙◌, ap, inl, inr, false, Option,
  none, some, List, [], ◌∷◌, ◌++◌, length, get_elem?, arith, ok, Bool-cases, Option-cases,
}
use mitcppos.Mem.{Mem, store, store_self}
use mitcppos.Kalloc.{Kmem}
use mitcppos.Vm.User.Bytes.{user_addr, copyout-none, copyout-some}
use mitcppos.Pipe.{State, get, is_empty, piperead_loop}
use mitcppos.Pipe.Queue.{Ring, contents, get-Ring, contents-get, contents_nil}

-- `d` is where the user's buffer at `addr` is mapped, whatever `ch` and the buffer hold.
pub record Target (pagetable ch addr : ℕ) (d : ℕ → Option ℕ) (n : ℕ) (k : Kmem) : Type 0 where
  pub mapped :
      (m : Mem)
      → ((a : ℕ) → a ≢ ch → ((j : ℕ) → j < n → d j ≢ some a) → m a ≡ k.mem a)
      → (i : ℕ) → i < n
      → user_addr pagetable ((addr + i) % 2 ^ 64) (record k { mem = m }) ≡ d i
  pub apart : (i j a : ℕ) → i < n → j < n → d i ≡ some a → d j ≡ some a → i ≡ j
  pub clear : (j : ℕ) → j < n → d j ≢ some ch

-- From `s` to `s'` the bytes `xs` came out of the pipe, for the places from `i` on.
pub record Reads (ch : ℕ) (d : ℕ → Option ℕ) (n i : ℕ) (xs : List ℕ) (s s' : State) : Type 0 where
  pub queued : contents s.pipe ≡ xs ++ contents s'.pipe
  pub ring : Ring s'.pipe
  pub delivered :
      (j a : ℕ) → j < length xs → d (i + j) ≡ some a → get_elem? xs j ≡ some (s'.kmem.mem a)
  pub outside :
      (a : ℕ) → a ≢ ch → ((j : ℕ) → i ≤ j → j < n → d j ≢ some a) → s'.kmem.mem a ≡ s.kmem.mem a

-- The loop stops behind the last byte asked for, or at an empty pipe, or it took a byte for which no
-- page is mapped.
pub Stopped : (d : ℕ → Option ℕ) (n i : ℕ) (xs : List ℕ) → ℕ × State → Type 0
Stopped d n i xs (i', s') =
    ((i' ≡ i + length xs) × (i' ≤ n) × ((i' ≡ n) ⊎ (contents s'.pipe ≡ [])))
    ⊎ ((suc i' ≡ i + length xs) × (i' < n) × (d i' ≡ none))

module _ (pagetable ch addr : ℕ) (d : ℕ → Option ℕ) (n : ℕ) where
  Reads-nil : (i : ℕ) (s : State) → Ring s.pipe → Reads ch d n i [] s s
  Reads-nil i s r = record {
    queued = refl;
    ring = r;
    delivered = λ j a h e. absurd (omega (arith, h));
    outside = λ a h f. refl;
  }

  -- a byte taken, and put at `a`
  abbrev one_read : State → ℕ → State
  one_read s a = record s {
    pipe = (get s.pipe).1;
    kmem = record s.kmem { mem = store (store s.kmem.mem ch (get s.pipe).0) a (get s.pipe).0 };
  }

  abbrev one_lost : State → State
  one_lost s = record s {
    pipe = (get s.pipe).1;
    kmem = record s.kmem { mem = store s.kmem.mem ch (get s.pipe).0 };
  }

  Target-one_read :
      (i a : ℕ) (s : State)
      → i < n
      → d i ≡ some a
      → Target pagetable ch addr d n s.kmem
      → Target pagetable ch addr d n (one_read s a).kmem
  Target-one_read i a s b e t = record {
    mapped = λ m same. t.mapped m (λ x h f.
        let other : x ≢ a = λ same_a. f i b (e ∙ ap some (sym same_a)) in
        same x h f ∙ ground (arith, h, other));
    apart = t.apart;
    clear = t.clear;
  }

  Reads-lost :
      (i : ℕ) (s : State)
      → Ring s.pipe
      → is_empty s.pipe ≡ false
      → d i ≡ none
      → Reads ch d n i ((get s.pipe).0 ∷ []) s (one_lost s)
  Reads-lost i s r f fault = record {
    queued = contents-get s.pipe r f;
    ring = get-Ring s.pipe r f;
    delivered = λ j a h e.
        let first : i + j ≡ i = omega (arith, h) in
        absurd (ground (arith, sym fault ∙ ap d (sym first) ∙ e));
    outside = λ a h g. ground (arith, h);
  }

  kept_by_rest :
      (i a : ℕ) (xs : List ℕ) (s s' : State)
      → i < n
      → d i ≡ some a
      → Target pagetable ch addr d n s.kmem
      → Reads ch d n (i + 1) xs (one_read s a) s'
      → s'.kmem.mem a ≡ (get s.pipe).0
  kept_by_rest i a xs s s' b e t w =
      w.outside a (λ same. t.clear i b (e ∙ ap some same))
        (λ j lo hi same. let twice = t.apart i j a b hi e same in omega (arith, twice, lo))
      ∙ store_self (store s.kmem.mem ch (get s.pipe).0) a (get s.pipe).0

  delivered_cons :
      (i a : ℕ) (xs : List ℕ) (s s' : State)
      → i < n
      → d i ≡ some a
      → Target pagetable ch addr d n s.kmem
      → Reads ch d n (i + 1) xs (one_read s a) s'
      → (j x : ℕ) → j < suc (length xs)
      → d (i + j) ≡ some x
      → get_elem? ((get s.pipe).0 ∷ xs) j ≡ some (s'.kmem.mem x)
  delivered_cons i a xs s s' b e t w zero x h g =
      let here : i + 0 ≡ i = omega arith in
      let same : a ≡ x = ground (arith, sym e ∙ ap d (sym here) ∙ g) in
      ap some (sym (kept_by_rest i a xs s s' b e t w) ∙ ap s'.kmem.mem same)
  delivered_cons i a xs s s' b e t w (suc j) x h g =
      let shift : i + 1 + j ≡ i + suc j = omega arith in
      w.delivered j x (omega (arith, h)) (ap d shift ∙ g)

  Reads-cons :
      (i a : ℕ) (xs : List ℕ) (s s' : State)
      → i < n
      → Ring s.pipe
      → is_empty s.pipe ≡ false
      → d i ≡ some a
      → Target pagetable ch addr d n s.kmem
      → Reads ch d n (i + 1) xs (one_read s a) s'
      → Reads ch d n i ((get s.pipe).0 ∷ xs) s s'
  Reads-cons i a xs s s' b r f e t w = record {
    queued = contents-get s.pipe r f ∙ ap ((get s.pipe).0 ∷◌) w.queued;
    ring = w.ring;
    delivered = delivered_cons i a xs s s' b e t w;
    outside = λ x h g.
        let other : x ≢ a = λ same. g i (omega arith) b (e ∙ ap some (sym same)) in
        w.outside x h (λ j lo hi. g j (omega (arith, lo)) hi) ∙ ground (arith, h, other);
  }

  Stopped-cons :
      (i c : ℕ) (xs : List ℕ) (i' : ℕ) (s' : State)
      → Stopped d n (i + 1) xs (i', s')
      → Stopped d n i (c ∷ xs) (i', s')
  unfolding Stopped
  Stopped-cons i c xs i' s' (inl (at, b, why)) = inl (omega (arith, at), b, why)
  Stopped-cons i c xs i' s' (inr (at, b, fault)) = inr (omega (arith, at), b, fault)

  -- The copying loop of `piperead` on a well-formed pipe, into a buffer whose mapping does not
  -- change with `ch` and the buffer's own bytes and in which no two places share an address: it
  -- ends, having taken bytes off the front of the queue, which from place `i` on stand in the
  -- buffer in order. It stops when all that were asked for are read, or the queue is empty, or at a
  -- place that is not mapped, for which it has taken a byte. The pipe stays well-formed, and no
  -- memory but `ch` and the buffer changes.
  pub piperead_loop-Stopped :
      (left i : ℕ) (s : State)
      → i + left ≡ n
      → Ring s.pipe
      → Target pagetable ch addr d n s.kmem
      → (xs : List ℕ) × (i' : ℕ) × (s' : State) × (piperead_loop pagetable ch false addr left i s
          ≡ ok (i', s'))
        × Reads ch d n i xs s s'
        × Stopped d n i xs (i', s')
  unfolding piperead_loop Stopped
  piperead_loop-Stopped zero i s e r t =
      ([], i, s, refl, Reads-nil i s r, inl (omega arith, omega (arith, e), inl (omega (arith, e))))
  piperead_loop-Stopped (suc left) i s e r t = elim (Bool-cases (is_empty s.pipe)) [
    | inl f ↦ (
      [],
      i,
      s,
      rw f refl,
      Reads-nil i s r,
      inl (omega arith, omega (arith, e), inr (contents_nil s.pipe r f)),
    )
    | inr f ↦ elim (Option-cases (d i)) [
      | inl fault ↦
          let stuck = copyout-none pagetable ch ((addr + i) % 2 ^ 64) (one_lost s).kmem (
            t.mapped (one_lost s).kmem.mem (λ x h g. ground (arith, h)) i (omega (arith, e))
            ∙ fault) in
          (
            (get s.pipe).0 ∷ [],
            i,
            one_lost s,
            rw (f, stuck) refl,
            Reads-lost i s r f fault,
            inr (omega arith, omega (arith, e), fault),
          )
      | inr (a, here) ↦
          let moved = copyout-some pagetable ch ((addr + i) % 2 ^ 64) a (one_lost s).kmem (
            t.mapped (one_lost s).kmem.mem (λ x h g. ground (arith, h)) i (omega (arith, e))
            ∙ here) in
          let b : i < n = omega (arith, e) in
          let (xs, i', s', run, reads, stopped) =
            piperead_loop-Stopped left (i + 1) (one_read s a) (omega (arith, e))
              (get-Ring s.pipe r f) (Target-one_read i a s b here t) in
          (
            (get s.pipe).0 ∷ xs,
            i',
            s',
            rw (f, moved, store_self) run,
            Reads-cons i a xs s s' b r f here t reads,
            Stopped-cons i (get s.pipe).0 xs i' s' stopped,
          )
    ]
  ]
