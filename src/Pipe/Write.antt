-- ===== src/Pipe/Write.antt =====
-- `pipewrite` of kernel/pipe.c against the queue: a turn appends bytes of the caller's buffer, and
-- says how many.
use mitcppos.Prelude.{
  ℕ, zero, suc, ◌+◌, ◌%◌, ◌^◌, ◌<◌, ◌≡◌, ◌≢◌, ◌⊎◌, refl, sym, ◌∙◌, ap, inl, inr, true, false,
  Option, none, some, List, [], ◌∷◌, ◌++◌, length, get_elem?, arith, ok, Bool-cases, Option-cases,
}
use mitcppos.Prelude.Int.{pos}
use mitcppos.Mem.{Mem, store, store_self}
use mitcppos.Kalloc.{Kmem}
use mitcppos.Vm.User.Bytes.{user_byte, copyin-none, copyin-some}
use mitcppos.Pipe.{State, Turn, returns, sleeps, nread_chan, put, is_full, pipewrite_loop, pipesize}
use mitcppos.Pipe.Queue.{
  Ring, put-readopen, contents, length-contents, is_full_iff, put-Ring, contents-put,
}

-- `u` is the user's buffer at `addr`: what is mapped there, whatever `ch` holds
unfoldable pub Buffer : (pagetable ch addr : ℕ) (u : ℕ → Option ℕ) (n : ℕ) → Kmem → Type 0
Buffer pagetable ch addr u n k =
    (m : Mem)
    → ((a : ℕ) → a ≢ ch → m a ≡ k.mem a)
    → (i : ℕ) → i < n
    → user_byte pagetable ((addr + i) % 2 ^ 64) (record k { mem = m }) ≡ u i

-- From `s` to `s'` the bytes `xs`, those from place `i` of the buffer on, went into the pipe.
pub record Writes (ch : ℕ) (u : ℕ → Option ℕ) (i : ℕ) (xs : List ℕ) (s s' : State) : Type 0 where
  pub copied : (j : ℕ) → j < length xs → u (i + j) ≡ get_elem? xs j
  pub queued : contents s'.pipe ≡ contents s.pipe ++ xs
  pub ring : Ring s'.pipe
  pub woken : s'.woken ≡ nread_chan ∷ s.woken
  pub outside : (a : ℕ) → a ≢ ch → s'.kmem.mem a ≡ s.kmem.mem a

-- A return with all bytes written, or at the first that is not mapped; or a sleep on a full pipe.
pub Ended : (ch : ℕ) (u : ℕ → Option ℕ) (n i : ℕ) (xs : List ℕ) (s : State) → Turn → Type 0
Ended ch u n i xs s (returns r s') =
    Writes ch u i xs s s'
    × (r ≡ pos (i + length xs))
    × ((i + length xs ≡ n) ⊎ ((i + length xs < n) × (u (i + length xs) ≡ none)))
Ended ch u n i xs s (sleeps m s') =
    Writes ch u i xs s s' × (m ≡ i + length xs) × (m < n) × (length (contents s'.pipe) ≡ pipesize)

append_nil : (xs : List ℕ) → xs ≡ xs ++ []
append_nil [] = refl
append_nil (x ∷ xs) = ap (x ∷◌) (append_nil xs)

append_one : (xs ys : List ℕ) (c : ℕ) → (xs ++ (c ∷ [])) ++ ys ≡ xs ++ (c ∷ ys)
append_one [] ys c = refl
append_one (x ∷ xs) ys c = ap (x ∷◌) (append_one xs ys c)

Writes-nil :
    (ch : ℕ) (u : ℕ → Option ℕ) (i : ℕ) (s : State)
    → Ring s.pipe
    → Writes ch u i [] s (record s { woken = nread_chan ∷ s.woken })
Writes-nil ch u i s r = record {
  copied = λ j h. absurd (omega (arith, h));
  queued = append_nil (contents s.pipe);
  ring = r;
  woken = refl;
  outside = λ a h. refl;
}

copied_cons :
    (u : ℕ → Option ℕ) (i c : ℕ) (xs : List ℕ)
    → u i ≡ some c
    → ((j : ℕ) → j < length xs → u (i + 1 + j) ≡ get_elem? xs j)
    → (j : ℕ) → j < suc (length xs)
    → u (i + j) ≡ get_elem? (c ∷ xs) j
copied_cons u i c xs e h zero b = ap u (omega arith) ∙ e
copied_cons u i c xs e h (suc j) b = ap u (omega arith) ∙ h j (omega (arith, b))

module _ (pagetable ch addr : ℕ) (u : ℕ → Option ℕ) (n : ℕ) where
  abbrev one_more : State → ℕ → State
  one_more s c = record s {
    pipe = put c s.pipe;
    kmem = record s.kmem { mem = store s.kmem.mem ch c };
  }

  Writes-cons :
      (i c : ℕ) (xs : List ℕ) (s s' : State)
      → Ring s.pipe
      → is_full s.pipe ≡ false
      → u i ≡ some c
      → Writes ch u (i + 1) xs (one_more s c) s'
      → Writes ch u i (c ∷ xs) s s'
  Writes-cons i c xs s s' r f e w = record {
    copied = copied_cons u i c xs e w.copied;
    queued = w.queued ∙ ap (◌++ xs) (contents-put s.pipe c r f) ∙ append_one (contents s.pipe) xs c;
    ring = w.ring;
    woken = w.woken;
    outside = λ a h. w.outside a h ∙ ground (arith, h);
  }

  Ended-cons :
      (i c : ℕ) (xs : List ℕ) (s : State) (t : Turn)
      → Ring s.pipe
      → is_full s.pipe ≡ false
      → u i ≡ some c
      → Ended ch u n (i + 1) xs (one_more s c) t
      → Ended ch u n i (c ∷ xs) s t
  unfolding Ended
  Ended-cons i c xs s (returns r s') ring f e (w, x, y) =
      let shift : i + 1 + length xs ≡ i + suc (length xs) = omega arith in
      (
        Writes-cons i c xs s s' ring f e w,
        x ∙ ap pos shift,
        elim y [
          | inl all ↦ inl (sym shift ∙ all)
          | inr (less, fault) ↦ inr (omega (arith, less), ap u (sym shift) ∙ fault)
        ],
      )
  Ended-cons i c xs s (sleeps m s') ring f e (w, x, y, z) =
      (Writes-cons i c xs s s' ring f e w, x ∙ omega arith, y, z)

  -- A turn of `pipewrite` on a well-formed pipe with an open reader, for a process that is not
  -- killed and whose buffer does not change with the variable `ch`: it ends, it appends to the
  -- queue of unread bytes the bytes of the buffer from place `i` on, in order, and it wakes the
  -- readers. It ends with a return once all are written or the next one is not mapped, or with a
  -- sleep, bytes still being left, on a queue of `PIPESIZE` bytes. The pipe stays well-formed, and
  -- no memory but `ch` changes.
  pub pipewrite_loop-Ended :
      (left i : ℕ) (s : State)
      → i + left ≡ n
      → Ring s.pipe
      → s.pipe.readopen ≡ true
      → Buffer pagetable ch addr u n s.kmem
      → (xs : List ℕ) × (t : Turn) × (pipewrite_loop pagetable ch false addr left i s ≡ ok t)
        × Ended ch u n i xs s t
  unfolding pipewrite_loop Ended Buffer
  pipewrite_loop-Ended zero i s e r opened b =
      ([], _, refl, (Writes-nil ch u i s r, ap pos (omega arith), inl (omega (arith, e))))
  pipewrite_loop-Ended (suc left) i s e r opened b = elim (Bool-cases (is_full s.pipe)) [
    | inl f ↦ (
      [],
      sleeps i (record s { woken = nread_chan ∷ s.woken }),
      simp (opened, f) refl,
      (
        Writes-nil ch u i s r,
        omega arith,
        omega (arith, e),
        ground (arith, f, is_full_iff s.pipe r, length-contents s.pipe),
      ),
    )
    | inr f ↦ elim (Option-cases (u i)) [
      | inl fault ↦
          let stuck =
            copyin-none pagetable ch ((addr + i) % 2 ^ 64) s.kmem
              (b s.kmem.mem (λ a h. refl) i (omega (arith, e)) ∙ fault) in
          (
            [],
            returns (pos i) (record s { woken = nread_chan ∷ s.woken }),
            simp (opened, f, stuck) refl,
            (
              Writes-nil ch u i s r,
              ap pos (omega arith),
              inr (omega (arith, e), ap u (omega arith) ∙ fault),
            ),
          )
      | inr (c, here) ↦
          let moved =
            copyin-some pagetable ch ((addr + i) % 2 ^ 64) c s.kmem
              (b s.kmem.mem (λ a h. refl) i (omega (arith, e)) ∙ here) in
          let (xs, t, run, ended) =
            pipewrite_loop-Ended left (i + 1) (one_more s c) (omega (arith, e))
              (put-Ring s.pipe c r f) (put-readopen s.pipe c ∙ opened)
              (λ m same. b m (λ a h. same a h ∙ ground (arith, h))) in
          (c ∷ xs, t, simp (opened, f, moved, store_self) run, Ended-cons i c xs s t r f here ended)
    ]
  ]
