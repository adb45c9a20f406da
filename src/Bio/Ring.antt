-- ===== src/Bio/Ring.antt =====
-- The ring of buffers in kernel/bio.c, and the loops of `bget` over it.
use mitcppos.Prelude.{
  ℕ, zero, suc, ◌<◌, ◌≡◌, ◌↔◌, refl, ◌∙◌, ap, fun_ext, Bool, true, false, ◌&&◌, Option, none, some,
  inl, inr, Bool-cases, Option-cases, List, [], ◌∷◌, has, ◌==◌, if◌then◌else◌, arith, ok,
}
use mitcppos.Riscv.{nbuf}
use mitcppos.Bio.{Buf, Bcache, head, put_buf, find_block, find_unused}

abbrev pub put_first : ℕ → Option (List ℕ) → Option (List ℕ)
put_first b none = none
put_first b (some xs) = some (b ∷ xs)

-- the buffers from `b` on along `step`, up to the head
unfoldable pub visit : (step : ℕ → ℕ) (fuel b : ℕ) → Option (List ℕ)
visit step zero b = none
visit step (suc fuel) b =
    let rest = put_first b (visit step fuel (step b)) in if b == head then some [] else rest

abbrev pub next_of : Bcache → ℕ → ℕ
next_of c b = (c.buf b).next

abbrev pub prev_of : Bcache → ℕ → ℕ
prev_of c b = (c.buf b).prev

unfoldable pub Complete : List ℕ → Type 0
Complete xs = (b : ℕ) → (has b xs ≡ true) ↔ (b < nbuf)

-- Both ways round the ring lead past every buffer and back to the head.
pub record Lru (c : Bcache) : Type 0 where
  pub forward : List ℕ
  pub backward : List ℕ
  pub visit_next : visit (next_of c) (suc nbuf) (c.buf head).next ≡ some forward
  pub visit_prev : visit (prev_of c) (suc nbuf) (c.buf head).prev ≡ some backward
  pub all_forward : Complete forward
  pub all_backward : Complete backward

unfoldable pub same_block : (dev blockno : ℕ) → Buf → Bool
same_block dev blockno b = (b.dev == dev) && (b.blockno == blockno)

-- What a search of `xs` finds: a buffer for which the test holds, or that there is none.
unfoldable pub Found : (ℕ → Bool) → List ℕ → Option ℕ → Type 0
Found test xs none = (b : ℕ) → has b xs ≡ true → test b ≡ false
Found test xs (some b) = (has b xs ≡ true) × (test b ≡ true)

some_inj : {x y : List ℕ} → some x ≡ some y → x ≡ y
some_inj e = ground (arith, e)

visit_step :
    (step : ℕ → ℕ) (fuel b : ℕ) (xs : List ℕ)
    → visit step (suc fuel) b ≡ some xs
    → (b == head) ≡ false
    → (ys : List ℕ) × (visit step fuel (step b) ≡ some ys) × (xs ≡ b ∷ ys)
unfolding visit
visit_step step fuel b xs e f = elim (Option-cases (visit step fuel (step b))) [
  | inl g ↦ absurd (ground (arith, e, f, g))
  | inr (ys, g) ↦ (ys, g, ground (arith, e, f, g))
]

visit_end :
    (step : ℕ → ℕ) (fuel b : ℕ) (xs : List ℕ)
    → visit step (suc fuel) b ≡ some xs
    → (b == head) ≡ true
    → xs ≡ []
unfolding visit
visit_end step fuel b xs e f = ground (arith, e, f)

Found-cons :
    (test : ℕ → Bool) (b : ℕ) (xs : List ℕ) (o : Option ℕ)
    → test b ≡ false
    → Found test xs o
    → Found test (b ∷ xs) o
unfolding Found
Found-cons test b xs none f h = λ a e. ground (arith, h a, e, f)
Found-cons test b xs (some a) f (here, found) = (ground (arith, here), found)

pub find_block-Found :
    (fuel dev blockno b : ℕ) (c : Bcache) (xs : List ℕ)
    → visit (next_of c) fuel b ≡ some xs
    → (o : Option ℕ) × (find_block fuel dev blockno b c ≡ ok o)
      × Found (λ a. same_block dev blockno (c.buf a)) xs o
unfolding find_block visit Found same_block
find_block-Found zero dev blockno b c xs e = absurd (ground (arith, e))
find_block-Found (suc fuel) dev blockno b c xs e = elim (Bool-cases (b == head)) [
  | inl at ↦
      let nothing = visit_end (next_of c) fuel b xs e at in
      (none, rw at refl, λ a h. ground (arith, nothing, h))
  | inr at ↦
      let (ys, later, split) = visit_step (next_of c) fuel b xs e at in
      elim (Bool-cases (same_block dev blockno (c.buf b))) [
        | inl same ↦ (some b, rw (at, same) refl, (ground (arith, split), same))
        | inr other ↦
            let (o, run, found) = find_block-Found fuel dev blockno (c.buf b).next c ys later in
            (
              o,
              rw (at, other) run,
              rw split (Found-cons (λ a. same_block dev blockno (c.buf a)) b ys o other found),
            )
      ]
]

pub find_unused-Found :
    (fuel b : ℕ) (c : Bcache) (xs : List ℕ)
    → visit (prev_of c) fuel b ≡ some xs
    → (o : Option ℕ) × (find_unused fuel b c ≡ ok o) × Found (λ a. (c.buf a).refcnt == 0) xs o
unfolding find_unused visit Found
find_unused-Found zero b c xs e = absurd (ground (arith, e))
find_unused-Found (suc fuel) b c xs e = elim (Bool-cases (b == head)) [
  | inl at ↦
      let nothing = visit_end (prev_of c) fuel b xs e at in
      (none, rw at refl, λ a h. ground (arith, nothing, h))
  | inr at ↦
      let (ys, later, split) = visit_step (prev_of c) fuel b xs e at in
      elim (Bool-cases ((c.buf b).refcnt == 0)) [
        | inl same ↦ (some b, rw (at, same) refl, (ground (arith, split), same))
        | inr other ↦
            let (o, run, found) = find_unused-Found fuel (c.buf b).prev c ys later in
            (
              o,
              rw (at, other) run,
              rw split (Found-cons (λ a. (c.buf a).refcnt == 0) b ys o other found),
            )
      ]
]

next_kept :
    (c : Bcache) (b : ℕ) (v : Buf)
    → v.next ≡ (c.buf b).next
    → (i : ℕ) → next_of (put_buf b v c) i ≡ next_of c i
next_kept c b v e i = ground (arith, e)

prev_kept :
    (c : Bcache) (b : ℕ) (v : Buf)
    → v.prev ≡ (c.buf b).prev
    → (i : ℕ) → prev_of (put_buf b v c) i ≡ prev_of c i
prev_kept c b v e i = ground (arith, e)

-- What a change of other fields keeps.
pub Lru-put_buf :
    (c : Bcache) (b : ℕ) (v : Buf)
    → v.next ≡ (c.buf b).next
    → v.prev ≡ (c.buf b).prev
    → Lru c
    → Lru (put_buf b v c)
Lru-put_buf c b v e f l =
    let nexts : next_of (put_buf b v c) ≡ next_of c = fun_ext (λ i. next_kept c b v e i) in
    let prevs : prev_of (put_buf b v c) ≡ prev_of c = fun_ext (λ i. prev_kept c b v f i) in
    record {
      forward = l.forward;
      backward = l.backward;
      visit_next = ap (λ step. visit step (suc nbuf) (step head)) nexts ∙ l.visit_next;
      visit_prev = ap (λ step. visit step (suc nbuf) (step head)) prevs ∙ l.visit_prev;
      all_forward = l.all_forward;
      all_backward = l.all_backward;
    }
