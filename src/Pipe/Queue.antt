-- ===== src/Pipe/Queue.antt =====
-- The ring of kernel/pipe.c as a queue of bytes: the bytes written and not yet read, in order. The
-- counters wrap at 2^32, which `PIPESIZE` divides.
use mitcppos.Prelude.{
  ℕ, zero, suc, ◌+◌, ◌-◌, ◌%◌, ◌≤◌, ◌<◌, ◌≡◌, ◌≢◌, ◌↔◌, refl, sym, ap, ◌∙◌, true, false, List, [],
  ◌∷◌, ◌++◌, length, arith, ◌==◌, if◌then◌else◌,
}
use mitcppos.Pipe.{Pipe, pipesize, uint_size, put, get, is_full, is_empty}

unfoldable pub count : Pipe → ℕ
count p = (p.nwrite + uint_size - p.nread) % uint_size

-- `n` bytes of the ring from the place of counter `i` on
pub ring_from : (buf : ℕ → ℕ) (i n : ℕ) → List ℕ
ring_from buf i zero = []
ring_from buf i (suc n) = buf (i % pipesize) ∷ ring_from buf (i + 1) n

pub contents : Pipe → List ℕ
contents p = ring_from p.buf p.nread (count p)

pub record Ring (p : Pipe) : Type 0 where
  pub nread_fits : p.nread < uint_size
  pub nwrite_fits : p.nwrite < uint_size
  pub fits : count p ≤ pipesize

length-ring_from : (buf : ℕ → ℕ) (i n : ℕ) → length (ring_from buf i n) ≡ n
unfolding ring_from
length-ring_from buf i zero = refl
length-ring_from buf i (suc n) = ap suc (length-ring_from buf (i + 1) n)

pub length-contents : (p : Pipe) → length (contents p) ≡ count p
unfolding contents
length-contents p = length-ring_from p.buf p.nread (count p)

ring_from_snoc :
    (buf : ℕ → ℕ) (i n : ℕ)
    → ring_from buf i (suc n) ≡ ring_from buf i n ++ (buf ((i + n) % pipesize) ∷ [])
unfolding ring_from
ring_from_snoc buf i zero = ap (λ j. buf (j % pipesize) ∷ []) (omega arith)
ring_from_snoc buf i (suc n) = ap (buf (i % pipesize) ∷◌) (
    ring_from_snoc buf (i + 1) n
    ∙ ap (λ j. ring_from buf (i + 1) n ++ (buf (j % pipesize) ∷ [])) (omega arith))

ring_from_congr :
    (f g : ℕ → ℕ) (i j n : ℕ)
    → i % pipesize ≡ j % pipesize
    → ((d : ℕ) → d < n → f ((i + d) % pipesize) ≡ g ((i + d) % pipesize))
    → ring_from f i n ≡ ring_from g j n
unfolding ring_from
ring_from_congr f g i j zero e h = refl
ring_from_congr f g i j (suc n) e h =
    let zeroth : i + 0 ≡ i = omega arith in
    let first : f (i % pipesize) ≡ g (j % pipesize) =
      ap (λ x. f (x % pipesize)) (sym zeroth)
      ∙ h 0 (omega arith)
      ∙ ap (λ x. g (x % pipesize)) zeroth
      ∙ ap g e in
    let later : (d : ℕ) → i + 1 + d ≡ i + (d + 1) = λ d. omega arith in
    let rest = ring_from_congr f g (i + 1) (j + 1) n (omega (arith, e)) (λ d b.
      ap (λ x. f (x % pipesize)) (later d)
      ∙ h (d + 1) (omega (arith, b))
      ∙ ap (λ x. g (x % pipesize)) (sym (later d))) in
    rw (first, rest)

pub is_full_iff : (p : Pipe) → Ring p → (is_full p ≡ true) ↔ (count p ≡ pipesize)
unfolding count
is_full_iff p r = ground (arith, r.nread_fits, r.nwrite_fits, r.fits)

pub is_empty_iff : (p : Pipe) → Ring p → (is_empty p ≡ true) ↔ (count p ≡ 0)
unfolding count
is_empty_iff p r = ground (arith, r.nread_fits, r.nwrite_fits, r.fits)

count-put : (p : Pipe) (c : ℕ) → Ring p → is_full p ≡ false → count (put c p) ≡ suc (count p)
unfolding count put
count-put p c r h = ground (arith, r.nread_fits, r.nwrite_fits, r.fits)

pub put-Ring : (p : Pipe) (c : ℕ) → Ring p → is_full p ≡ false → Ring (put c p)
unfolding put
put-Ring p c r h = record {
  nread_fits = r.nread_fits;
  nwrite_fits = omega arith;
  fits = ground (arith, count-put p c r h, r.fits, is_full_iff p r);
}

end_of : (p : Pipe) → Ring p → (p.nread + count p) % pipesize ≡ p.nwrite % pipesize
unfolding count
end_of p r = omega (arith, r.nread_fits, r.nwrite_fits)

pub put-readopen : (p : Pipe) (c : ℕ) → (put c p).readopen ≡ p.readopen
unfolding put
put-readopen p c = refl

pub contents-put :
    (p : Pipe) (c : ℕ) → Ring p → is_full p ≡ false → contents (put c p) ≡ contents p ++ (c ∷ [])
unfolding contents put
contents-put p c r h =
    let n = count p in
    let small : n < pipesize = ground (arith, is_full_iff p r, r.fits) in
    let last : (p.nread + n) % pipesize ≡ p.nwrite % pipesize = end_of p r in
    let f : ℕ → ℕ = λ j. if j == p.nwrite % pipesize then c else p.buf j in
    let new : f ((p.nread + n) % pipesize) ≡ c = ground (arith, last) in
    let old : ring_from f p.nread n ≡ ring_from p.buf p.nread n =
      ring_from_congr f p.buf p.nread p.nread n refl (λ d b.
        let apart : (p.nread + d) % pipesize ≢ p.nwrite % pipesize =
          λ e. omega (arith, e, last, b, small) in
        ground (arith, apart)) in
    ap (ring_from f p.nread) (count-put p c r h)
    ∙ ring_from_snoc f p.nread n
    ∙ ap (λ x. ring_from f p.nread n ++ (x ∷ [])) new
    ∙ ap (◌++ (c ∷ [])) old

count-get : (p : Pipe) → Ring p → is_empty p ≡ false → suc (count (get p).1) ≡ count p
unfolding count get
count-get p r h = ground (arith, r.nread_fits, r.nwrite_fits, r.fits)

pub get-Ring : (p : Pipe) → Ring p → is_empty p ≡ false → Ring (get p).1
unfolding get
get-Ring p r h = record {
  nread_fits = omega arith;
  nwrite_fits = r.nwrite_fits;
  fits = omega (arith, count-get p r h, r.fits);
}

first_of :
    (buf : ℕ → ℕ) (i n : ℕ) → ring_from buf i (suc n) ≡ buf (i % pipesize) ∷ ring_from buf (i + 1) n
unfolding ring_from
first_of buf i n = refl

pub contents-get :
    (p : Pipe) → Ring p → is_empty p ≡ false → contents p ≡ (get p).0 ∷ contents (get p).1
unfolding contents get
contents-get p r h =
    let n = count (get p).1 in
    ap (ring_from p.buf p.nread) (sym (count-get p r h))
    ∙ first_of p.buf p.nread n
    ∙ ap (p.buf (p.nread % pipesize) ∷◌) (
        ring_from_congr p.buf p.buf (p.nread + 1) ((p.nread + 1) % uint_size) n (omega arith)
          (λ d b. refl))

pub contents_nil : (p : Pipe) → Ring p → is_empty p ≡ true → contents p ≡ []
unfolding contents ring_from
contents_nil p r h =
    let none_left : count p ≡ 0 = ground (arith, is_empty_iff p r, h) in rw none_left refl
