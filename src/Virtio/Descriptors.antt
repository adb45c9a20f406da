-- ===== src/Virtio/Descriptors.antt =====
-- The descriptors of kernel/virtio_disk.c: who has them, over requests in any order.
pub mod Requests
use mitcppos.Prelude.{
  ℕ, zero, suc, ◌+◌, ◌<◌, ◌≤◌, ◌≡◌, ◌≢◌, ◌⊎◌, refl, sym, ap, ◌∙◌, inl, inr, Bool, true, false,
  Option, none, some, leb, ◌||◌, ◌==◌, if◌then◌else◌, arith, Bool-cases, Outcome, ok, ◌>>=◌,
}
use mitcppos.Riscv.{flag}
use mitcppos.Virtio.{
  num, vring_desc_f_next, Desc, Disk, put_free, alloc_desc_loop, alloc_desc, cleared, free_desc,
  Three, alloc_third, alloc_second, alloc_first, alloc3_desc, free_chain_loop, free_chain,
}

-- What `alloc_desc` returns: the first free descriptor, from `lo` on.
Got : (lo : ℕ) → Disk → Option (ℕ × Disk) → Type 0
Got lo d none = (i : ℕ) → lo ≤ i → i < num → d.free i ≡ false
Got lo d (some (i, d')) = (i < num) × (d.free i ≡ true) × (d' ≡ put_free i false d)

Got-later :
    (lo : ℕ) (d : Disk) (o : Option (ℕ × Disk)) → d.free lo ≡ false → Got (lo + 1) d o → Got lo d o
unfolding Got
Got-later lo d none e g = λ i a b. elim (Bool-cases (i == lo)) [
  | inl h ↦ let at : i ≡ lo = ground (arith, h) in ap d.free at ∙ e
  | inr h ↦ g i (ground (arith, h, a)) b
]
Got-later lo d (some (i, d')) e g = g

alloc_desc_loop-Got : (n lo : ℕ) (d : Disk) → lo + n ≡ num → Got lo d (alloc_desc_loop n lo d)
unfolding alloc_desc_loop Got
alloc_desc_loop-Got zero lo d e = λ i a b. absurd (omega (arith, e, a, b))
alloc_desc_loop-Got (suc n) lo d e = elim (Bool-cases (d.free lo)) [
  | inl h ↦ rw h ((omega (arith, e), h, refl))
  | inr h ↦ rw h (Got-later lo d _ h (alloc_desc_loop-Got n (lo + 1) d (omega (arith, e))))
]

alloc_desc-Got : (d : Disk) → Got 0 d (alloc_desc d)
unfolding alloc_desc
alloc_desc-Got d = alloc_desc_loop-Got num 0 d refl

free_desc-ok : (i : ℕ) (d : Disk) → i < num → d.free i ≡ false → free_desc i d ≡ ok (cleared i d)
unfolding free_desc
free_desc-ok i d h e = let inside : leb num i ≡ false = ground (arith, h) in rw (inside, e) refl

abbrev pub one_of : (m i j k : ℕ) → Bool
one_of m i j k = m == i || m == j || m == k

-- Three descriptors that were free are taken.
pub record Took (d : Disk) (i j k : ℕ) (d' : Disk) : Type 0 where
  pub in_first : i < num
  pub in_second : j < num
  pub in_third : k < num
  pub one_two : i ≢ j
  pub one_three : i ≢ k
  pub two_three : j ≢ k
  pub first_free : d.free i ≡ true
  pub second_free : d.free j ≡ true
  pub third_free : d.free k ≡ true
  pub taken : (m : ℕ) → d'.free m ≡ (if one_of m i j k then false else d.free m)
  pub same : d'.desc ≡ d.desc

-- Or the same are free as before.
unfoldable pub Takes : (d : Disk) → Option Three → Disk → Type 0
Takes d none d' =
    ((m : ℕ) → d'.free m ≡ d.free m) × ((m : ℕ) → d.free m ≡ false → d'.desc m ≡ d.desc m)
Takes d (some (i, j, k)) d' = Took d i j k d'

unfoldable pub Ends : (d : Disk) → Outcome (Option Three × Disk) → Type 0
Ends d r = (o : Option Three) × (d' : Disk) × (r ≡ ok (o, d')) × Takes d o d'

restored :
    (d d₁ : Disk) (i j m : ℕ)
    → d.free i ≡ true
    → d.free j ≡ true
    → d₁.free m ≡ (if m == i || m == j then false else d.free m)
    → (cleared j (cleared i d₁)).free m ≡ d.free m
unfolding cleared
restored d d₁ i j m fi fj e = ground (arith, fi, fj, e)

untouched :
    (d d₁ : Disk) (i j m : ℕ)
    → d.free i ≡ true
    → d.free j ≡ true
    → d.free m ≡ false
    → d₁.desc ≡ d.desc
    → (cleared j (cleared i d₁)).desc m ≡ d.desc m
unfolding cleared
untouched d d₁ i j m fi fj f e = ground (arith, fi, fj, f, ap (λ (t : ℕ → Desc). t m) e)

alloc_third-Ends :
    (d d₁ : Disk) (i j : ℕ) (o : Option (ℕ × Disk))
    → i < num
    → j < num
    → i ≢ j
    → d.free i ≡ true
    → d.free j ≡ true
    → ((m : ℕ) → d₁.free m ≡ (if m == i || m == j then false else d.free m))
    → d₁.desc ≡ d.desc
    → Got 0 d₁ o
    → Ends d (alloc_third i j d₁ o)
unfolding alloc_third Ends Takes Got cleared
alloc_third-Ends d d₁ i j none hi hj ne fi fj e same full =
    let first : d₁.free i ≡ false = ground (arith, e i) in
    let second : (cleared i d₁).free j ≡ false = ground (arith, e j, ne) in
    let done = cleared j (cleared i d₁) in
    (
      none,
      done,
      simp (free_desc-ok i d₁ hi first, free_desc-ok j (cleared i d₁) hj second) refl,
      (λ m. restored d d₁ i j m fi fj (e m), λ m f. untouched d d₁ i j m fi fj f same),
    )
alloc_third-Ends d d₁ i j (some (k, d₂)) hi hj ne fi fj e same (hk, fk, e') = (
  some (i, j, k),
  d₂,
  refl,
  record {
    in_first = hi;
    in_second = hj;
    in_third = hk;
    one_two = ne;
    one_three = ground (arith, e k, fk);
    two_three = ground (arith, e k, fk);
    first_free = fi;
    second_free = fj;
    third_free = ground (arith, e k, fk);
    taken = λ m. ap (λ (x : Disk). x.free m) e' ∙ ground (arith, e m);
    same = ap (λ (x : Disk). x.desc) e' ∙ same;
  },
)

alloc_second-Ends :
    (d d₁ : Disk) (i : ℕ) (o : Option (ℕ × Disk))
    → i < num
    → d.free i ≡ true
    → d₁ ≡ put_free i false d
    → Got 0 d₁ o
    → Ends d (alloc_second i d₁ o)
unfolding alloc_second Ends Takes Got cleared
alloc_second-Ends d d₁ i none hi fi e full =
    let first : d₁.free i ≡ false = ap (λ (x : Disk). x.free i) e ∙ ground arith in
    (
      none,
      cleared i d₁,
      simp (free_desc-ok i d₁ hi first) refl,
      (
        λ m. ground (arith, fi, ap (λ (x : Disk). x.free m) e),
        λ m f. ground (arith, fi, f, ap (λ (x : Disk). x.desc m) e),
      ),
    )
alloc_second-Ends d d₁ i (some (j, d₂)) hi fi e (hj, fj, e') =
    let before : (m : ℕ) → d₁.free m ≡ (if m == i then false else d.free m) =
      λ m. ap (λ (x : Disk). x.free m) e in
    alloc_third-Ends d d₂ i j (alloc_desc d₂) hi hj (ground (arith, before j, fj)) fi
      (ground (arith, before j, fj))
      (λ m. ap (λ (x : Disk). x.free m) e' ∙ ground (arith, before m))
      (ap (λ (x : Disk). x.desc) e' ∙ ap (λ (x : Disk). x.desc) e) (alloc_desc-Got d₂)

alloc_first-Ends : (d : Disk) (o : Option (ℕ × Disk)) → Got 0 d o → Ends d (alloc_first d o)
unfolding alloc_first Ends Takes Got
alloc_first-Ends d none full = (none, d, refl, (λ m. refl, λ m f. refl))
alloc_first-Ends d (some (i, d₁)) (hi, fi, e) =
    alloc_second-Ends d d₁ i (alloc_desc d₁) hi fi e (alloc_desc-Got d₁)

pub alloc3_desc-Ends : (d : Disk) → Ends d (alloc3_desc d)
unfolding alloc3_desc
alloc3_desc-Ends d = alloc_first-Ends d (alloc_desc d) (alloc_desc-Got d)

-- A request's descriptors: taken, and linked in this order.
pub record Chain (d : Disk) (h j k : ℕ) : Type 0 where
  pub in_first : h < num
  pub in_second : j < num
  pub in_third : k < num
  pub one_two : h ≢ j
  pub one_three : h ≢ k
  pub two_three : j ≢ k
  pub first_taken : d.free h ≡ false
  pub second_taken : d.free j ≡ false
  pub third_taken : d.free k ≡ false
  pub first_goes_on : flag (d.desc h).flags vring_desc_f_next ≡ true
  pub second_goes_on : flag (d.desc j).flags vring_desc_f_next ≡ true
  pub third_ends : flag (d.desc k).flags vring_desc_f_next ≡ false
  pub to_second : (d.desc h).next ≡ j
  pub to_third : (d.desc j).next ≡ k

free_chain_more :
    (fuel i n : ℕ) (d : Disk)
    → i < num
    → d.free i ≡ false
    → flag (d.desc i).flags vring_desc_f_next ≡ true
    → (d.desc i).next ≡ n
    → free_chain_loop (suc fuel) i d ≡ free_chain_loop fuel n (cleared i d)
unfolding free_chain_loop
free_chain_more fuel i n d h f go e = simp (go, free_desc-ok i d h f, e) refl

free_chain_last :
    (fuel i : ℕ) (d : Disk)
    → i < num
    → d.free i ≡ false
    → flag (d.desc i).flags vring_desc_f_next ≡ false
    → free_chain_loop (suc fuel) i d ≡ ok (cleared i d)
unfolding free_chain_loop
free_chain_last fuel i d h f go = simp (go, free_desc-ok i d h f) refl

cleared_free : (i m : ℕ) (d : Disk) → i ≢ m → (cleared i d).free m ≡ d.free m
unfolding cleared
cleared_free i m d ne = ground (arith, ne)

cleared_desc : (i m : ℕ) (d : Disk) → i ≢ m → (cleared i d).desc m ≡ d.desc m
unfolding cleared
cleared_desc i m d ne = ground (arith, ne)

-- `free_chain` of a request's first descriptor frees the three.
pub free_chain-Chain :
    (d : Disk) (h j k : ℕ)
    → Chain d h j k
    → free_chain h d ≡ ok (cleared k (cleared j (cleared h d)))
unfolding free_chain
free_chain-Chain d h j k c =
    let d₁ = cleared h d in
    let d₂ = cleared j d₁ in
    let at_j : d₁.desc j ≡ d.desc j = cleared_desc h j d c.one_two in
    let at_k : d₂.desc k ≡ d.desc k =
      cleared_desc j k d₁ c.two_three ∙ cleared_desc h k d c.one_three in
    let goes : flag (d₁.desc j).flags vring_desc_f_next ≡ true =
      ap (λ v. flag v.flags vring_desc_f_next) at_j ∙ c.second_goes_on in
    let ends : flag (d₂.desc k).flags vring_desc_f_next ≡ false =
      ap (λ v. flag v.flags vring_desc_f_next) at_k ∙ c.third_ends in
    free_chain_more 7 h j d c.in_first c.first_taken c.first_goes_on c.to_second
    ∙ free_chain_more 6 j k d₁ c.in_second (cleared_free h j d c.one_two ∙ c.second_taken) goes
        (ap (λ v. v.next) at_j ∙ c.to_third)
    ∙ free_chain_last 5 k d₂ c.in_third
        (cleared_free j k d₁ c.two_three ∙ cleared_free h k d c.one_three ∙ c.third_taken) ends
