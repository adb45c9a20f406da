-- ===== src/Mmap/Shrink.antt =====
-- Which region the loop of `sys_munmap` in kernel/sysfile.c shrinks, and how.
use mitcppos.Prelude.{
  ℕ, zero, suc, ◌+◌, ◌-◌, ◌≤◌, ◌<◌, ◌≡◌, ◌≢◌, refl, sym, ◌∙◌, ap, inl, inr, true, false, not, ◌&&◌,
  Option, none, some, List, [], ◌∷◌, set, get_elem?, length, ◌==◌, if◌then◌else◌, arith, Bool-cases,
  and_left, and_right,
}
use mitcppos.Prelude.Int.{ℤ, pos, negsuc, pos_part, neg_part, ltb_ℤ, sub_ℕ}
use mathlib.Core.Path.{subst}
use mitcppos.Mmap.{Mmapitem, munmap_loop, add64, word}
use mitcppos.Mmap.Regions.{limit, Regions, set_cases}

-- A region that may be shrunk by `n` bytes.
pub Fits : (n : ℕ) → Mmapitem → Type 0
Fits n x = (x.used ≡ true) × ((l : ℕ) × (x.length ≡ pos l) × (n ≤ l))

-- Without its first `n` bytes, and without any.
abbrev pub behind : (n : ℕ) → Mmapitem → Mmapitem
behind n x = record x { addr = x.addr + n; length = pos (pos_part x.length - n) }

abbrev pub emptied : Mmapitem → Mmapitem
emptied x = record x { length = pos 0 }

-- The loop from place `i` on.
pub data Found (addr n i : ℕ) (xs : List Mmapitem) : Option (ℕ × List Mmapitem) → Type 0 where
  nowhere :
      ((k : ℕ) (x : Mmapitem)
        → get_elem? xs k ≡ some x
        → Fits n x
        → (x.addr ≢ addr) × (x.length ≢ pos n))
      → Found addr n i xs none
  front :
      (j k : ℕ) (x : Mmapitem) (ys : List Mmapitem)
      → j ≡ i + k
      → k < length xs
      → get_elem? xs k ≡ some x
      → Fits n x
      → x.addr ≡ addr
      → ys ≡ set xs k (behind n x)
      → Found addr n i xs (some (j, ys))
  whole :
      (j k : ℕ) (x : Mmapitem) (ys : List Mmapitem)
      → j ≡ i + k
      → k < length xs
      → get_elem? xs k ≡ some x
      → Fits n x
      → x.length ≡ pos n
      → ys ≡ set xs k (emptied x)
      → Found addr n i xs (some (j, ys))

-- The regions end below 2^64.
Below : List Mmapitem → Type 0
Below xs = (k : ℕ) (x : Mmapitem) → get_elem? xs k ≡ some x → x.used ≡ true → limit x < word

-- Behind an entry that is passed over.
later :
    (addr n i : ℕ) (x : Mmapitem) (xs : List Mmapitem) (r : Option (ℕ × List Mmapitem))
    → (Fits n x → (x.addr ≢ addr) × (x.length ≢ pos n))
    → Found addr n (i + 1) xs r
    → Found addr n i (x ∷ xs) (elim r as (λ _. Option (ℕ × List Mmapitem)) [
      | none ↦ none
      | some (j, ys) ↦ some (j, x ∷ ys)
    ])
later addr n i x xs none pass (nowhere h) = nowhere (λ k y e f.
    elim k as (λ k. get_elem? (x ∷ xs) k ≡ some y → (y.addr ≢ addr) × (y.length ≢ pos n)) [
      | zero ↦ λ e'.
          let same : x ≡ y = ground (arith, e') in
          subst (λ z. Fits n z → (z.addr ≢ addr) × (z.length ≢ pos n)) same pass f
      | suc k' ↦ λ e'. h k' y e' f
    ]
      e)
later addr n i x xs (some (j, ys)) pass (front _ k y _ at lt e f same s) =
    front j (suc k) y (x ∷ ys) (omega (arith, at)) (omega (arith, lt)) e f same (ap (x ∷◌) s)
later addr n i x xs (some (j, ys)) pass (whole _ k y _ at lt e f same s) =
    whole j (suc k) y (x ∷ ys) (omega (arith, at)) (omega (arith, lt)) e f same (ap (x ∷◌) s)

-- The length that is left.
abbrev shorter : (n : ℕ) → ℤ → ℤ
shorter n z = sub_ℕ (pos_part z + neg_part (pos n)) (n + neg_part z)

shorter-fits : (n l : ℕ) (z : ℤ) → z ≡ pos l → n ≤ l → shorter n z ≡ pos (pos_part z - n)
shorter-fits n l (pos m) e h = let same : m ≡ l = ground (arith, e) in ground (arith, same, h)
shorter-fits n l (negsuc m) e h = absurd (ground (arith, e))

add64-fits : (a l : ℕ) (z : ℤ) → z ≡ pos l → a + l < word → add64 a z ≡ a + l
unfolding add64
add64-fits a l (pos m) e h = let same : m ≡ l = ground (arith, e) in omega (arith, same, h)
add64-fits a l (negsuc m) e h = absurd (ground (arith, e))

long_enough : (n l : ℕ) (z : ℤ) → z ≡ pos l → not (ltb_ℤ z (pos n)) ≡ true → n ≤ l
long_enough n l (pos m) e h = ground (arith, e, h)
long_enough n l (negsuc m) e h = absurd (ground (arith, e))

-- The regions that are left.
unfoldable pub Still : (sz : ℕ) → Option (ℕ × List Mmapitem) → Type 0
Still sz none = Unit
Still sz (some (j, ys)) = Regions sz ys

module _ (addr n : ℕ) where
  -- What the loop does with an entry that is long enough.
  abbrev step :
      (i : ℕ) → Mmapitem → List Mmapitem → Option (ℕ × List Mmapitem) → Option (ℕ × List Mmapitem)
  step i x xs r =
      if x.addr == addr
      then some (i, record x { addr = add64 x.addr (pos n); length = shorter n x.length } ∷ xs)
      else (if add64 x.addr (pos n) == add64 x.addr x.length
          then some (i, record x { length = shorter n x.length } ∷ xs)
          else elim r as (λ _. Option (ℕ × List Mmapitem)) [
            | none ↦ none
            | some (j, ys) ↦ some (j, x ∷ ys)
          ])

  module _ (i l : ℕ) (x : Mmapitem) (xs : List Mmapitem) (r : Option (ℕ × List Mmapitem))
      (u : x.used ≡ true) (z : x.length ≡ pos l) (h : n ≤ l) (fits : x.addr + l < word) where
    its : Fits n x
    unfolding Fits
    its = (u, (l, z, h))

    cut : add64 x.addr (pos n) ≡ x.addr + n
    cut = add64-fits x.addr n (pos n) refl (omega (arith, fits, h))

    entry : Found addr n (i + 1) xs r → Found addr n i (x ∷ xs) (step i x xs r)
    entry rest = elim (Bool-cases (x.addr == addr)) [
      | inl e ↦
          simp (e, cut, shorter-fits n l x.length z h)
            (front i 0 x (behind n x ∷ xs) (omega arith) (omega arith) refl its (ground (arith, e))
              refl)
      | inr e ↦ elim (Bool-cases (x.addr + n == x.addr + l)) [
        | inl f ↦
            let same : n ≡ l = ground (arith, f) in
            let none_left : shorter n x.length ≡ pos 0 =
              shorter-fits n l x.length z h
              ∙ ap (λ y. pos (pos_part y - n)) z
              ∙ ap pos (omega (arith, same)) in
            simp (e, cut, add64-fits x.addr l x.length z fits, f, none_left)
              (whole i 0 x (emptied x ∷ xs) (omega arith) (omega arith) refl its
                (z ∙ ap pos (sym same)) refl)
        | inr f ↦
            simp (e, cut, add64-fits x.addr l x.length z fits, f)
              (later addr n i x xs r
                (λ o. (
                  ground (arith, e),
                  λ w. let same : pos n ≡ pos l = sym w ∙ z in ground (arith, f, same),
                ))
                rest)
      ]
    ]

  is_pos : (z : ℤ) → not (ltb_ℤ z (pos n)) ≡ true → (l : ℕ) × (z ≡ pos l)
  is_pos (pos l) h = (l, refl)
  is_pos (negsuc m) h = absurd (ground (arith, h))

  passes : (x : Mmapitem) → Fits n x → (x.used && not (ltb_ℤ x.length (pos n))) ≢ false
  unfolding Fits
  passes x (u, (l, z, h)) n0 =
      let long : not (ltb_ℤ x.length (pos n)) ≡ true =
        ap (λ y. not (ltb_ℤ y (pos n))) z ∙ ground (arith, h) in
      absurd (ground (arith, u, long, n0))

  found :
      (i : ℕ) (xs : List Mmapitem) → Below xs → Found addr n i xs (munmap_loop addr (pos n) i xs)
  unfolding munmap_loop Below Fits
  found i [] b = nowhere (λ k x e f. absurd (ground (arith, e)))
  found i (x ∷ xs) b =
      let rest = found (i + 1) xs (λ k y e u. b (suc k) y e u) in
      let r = munmap_loop addr (pos n) (i + 1) xs in
      elim (Bool-cases (x.used && not (ltb_ℤ x.length (pos n)))) [
        | inr f ↦ rw f (later addr n i x xs r (λ o. absurd (passes x o f)) rest)
        | inl e ↦
            let (l, z) = is_pos x.length (and_right x.used _ e) in
            let u = and_left x.used _ e in
            let top = b 0 x refl u in
            let fits : x.addr + l < word = subst (λ y. x.addr + pos_part y < word) z top in
            rw e
              (entry i l x xs r u z (long_enough n l x.length z (and_right x.used _ e)) fits rest)
      ]

  -- A region within the old one in its place.
  narrower :
      (sz k : ℕ) (x v : Mmapitem) (xs : List Mmapitem)
      → k < length xs
      → get_elem? xs k ≡ some x
      → x.used ≡ true
      → x.addr ≤ v.addr
      → limit v ≤ limit x
      → Regions sz xs
      → Regions sz (set xs k v)
  narrower sz k x v xs lt e u lo hi r = record {
    below = λ i y f w. elim (set_cases k v xs lt i y f) [
      | inl (a, same) ↦ let old = r.below k x e u in ground (arith, same, hi, old)
      | inr (a, old) ↦ r.below i y old w
    ];
    apart = λ i j y y' f g w w' ne. elim (set_cases k v xs lt i y f) [
      | inl (a, same) ↦ elim (set_cases k v xs lt j y' g) [
        | inl (b, same') ↦ absurd (ne (a ∙ sym b))
        | inr (b, old) ↦
            let sides = r.apart k j x y' e old u w' (λ c. ne (a ∙ c)) in
            ground (arith, same, lo, hi, sides)
      ]
      | inr (a, old) ↦ elim (set_cases k v xs lt j y' g) [
        | inl (b, same) ↦
            let sides = r.apart i k y x old e w u (λ c. ne (c ∙ sym b)) in
            ground (arith, same, lo, hi, sides)
        | inr (b, old') ↦ r.apart i j y y' old old' w w' ne
      ]
    ];
  }

  still :
      (sz i : ℕ) (xs : List Mmapitem) (r : Option (ℕ × List Mmapitem))
      → Regions sz xs
      → Found addr n i xs r
      → Still sz r
  unfolding Still Fits
  still sz i xs none r (nowhere h) = tt
  still sz i xs (some (j, ys)) r (front _ k x _ at lt e (u, (l, z, h)) same s) = rw s (
      narrower sz k x (behind n x) xs lt e u (omega arith)
        (let len = ap pos_part z in ground (arith, h, len)) r)
  still sz i xs (some (j, ys)) r (whole _ k x _ at lt e (u, (l, z, h)) same s) =
      rw s (narrower sz k x (emptied x) xs lt e u (omega arith) (omega arith) r)

-- The loop of `sys_munmap` for `n` bytes from 0 on at an address, on regions that do not overlap
-- and end within a memory of less than 2^64 bytes: it shrinks at most one region, which is in use
-- and has at least `n` bytes. Either the region begins at the address and loses its first `n`
-- bytes, or it has exactly `n` bytes, wherever it is, and loses all; it finds none only where there
-- is no such region. The regions still do not overlap and end within the memory.
pub munmap_loop-Found :
    (addr n sz : ℕ) (vma : List Mmapitem)
    → Regions sz vma
    → sz < word
    → Found addr n 0 vma (munmap_loop addr (pos n) 0 vma)
      × Still sz (munmap_loop addr (pos n) 0 vma)
unfolding Below
munmap_loop-Found addr n sz vma r small =
    let f = found addr n 0 vma (λ k x e u. let b = r.below k x e u in omega (arith, b, small)) in
    (f, still addr n sz 0 vma (munmap_loop addr (pos n) 0 vma) r f)
