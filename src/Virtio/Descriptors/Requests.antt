-- ===== src/Virtio/Descriptors/Requests.antt =====
-- Requests to the disk in any order: none loses its descriptors, and none are lost.
use mitcppos.Prelude.{
  ℕ, suc, ◌+◌, ◌%◌, ◌<◌, ◌≤◌, ◌≡◌, ◌≢◌, ◌⊎◌, refl, sym, ap, ◌∙◌, inl, inr, Bool, true, false,
  Option, none, some, ◌==◌, if◌then◌else◌, arith, Bool-cases, ok, zero, OnOk, on_ok, on_panic,
  on_fuel, OnOk-bind, OnOk-ok, ok_inj,
}
use mathlib.Core.Path.{subst}
use mitcppos.Riscv.{flag}
use mitcppos.Virtio.{
  num, vring_desc_f_next, Desc, Disk, put_info, put_free, init_free, cleared, Three, Places, start,
  begin_with, rw_begin, rw_end, complete, intr_loop, virtio_disk_intr,
}
use mitcppos.Virtio.Descriptors.{
  one_of, Took, Takes, Ends, alloc3_desc-Ends, Chain, free_chain-Chain,
}

-- The disk, and for each request in flight, by its first descriptor, the two others.
pub record System : Type 0 where
  pub disk : Disk
  pub requests : ℕ → Option (ℕ × ℕ)

abbrev pub system : Disk → (ℕ → Option (ℕ × ℕ)) → System
system d q = record { disk = d; requests = q }

abbrev put_request : (i : ℕ) → Option (ℕ × ℕ) → (ℕ → Option (ℕ × ℕ)) → ℕ → Option (ℕ × ℕ)
put_request i v q = λ h. if h == i then v else q h

module _ (at : Places) where
  -- A process begins or ends a request, or finds too few descriptors; the device writes the status
  -- of a request; or it interrupts.
  pub data Step : System → System → Type 0 where
    begins :
        {d d' : Disk} {q : ℕ → Option (ℕ × ℕ)} (write : Bool) (blockno b i j k : ℕ)
        → rw_begin at write blockno b d ≡ ok (some (i, j, k), d')
        → Step (system d q) (system d' (put_request i (some (j, k)) q))
    waits :
        {d d' : Disk} {q : ℕ → Option (ℕ × ℕ)} (write : Bool) (blockno b : ℕ)
        → rw_begin at write blockno b d ≡ ok (none, d')
        → Step (system d q) (system d' q)
    ends :
        {d d' : Disk} {q : ℕ → Option (ℕ × ℕ)} (i j k : ℕ)
        → q i ≡ some (j, k)
        → rw_end i d ≡ ok d'
        → Step (system d q) (system d' (put_request i none q))
    answers :
        {d : Disk} {q : ℕ → Option (ℕ × ℕ)} (i status : ℕ)
        → Step (system d q) (system (put_info i (record (d.info i) { status = status }) d) q)
    interrupts :
        {d d' : Disk} {q : ℕ → Option (ℕ × ℕ)} (used : ℕ) (ids : ℕ → ℕ)
        → virtio_disk_intr used ids d ≡ ok d'
        → Step (system d q) (system d' q)

  pub data Reach (s : System) : System → Type 0 where
    here : Reach s s
    next : {t u : System} → Reach s t → Step t u → Reach s u

-- No descriptor of one request is of the other.
pub Disjoint : (h j k h' j' k' : ℕ) → Type 0
Disjoint h j k h' j' k' = (m : ℕ) → one_of m h j k ≡ true → one_of m h' j' k' ≡ false

pub record Sound (s : System) : Type 0 where
  pub chain : (h j k : ℕ) → s.requests h ≡ some (j, k) → Chain s.disk h j k
  pub apart :
      (h j k h' j' k' : ℕ)
      → s.requests h ≡ some (j, k)
      → s.requests h' ≡ some (j', k')
      → h ≢ h'
      → Disjoint h j k h' j' k'
  pub no_leak :
      (m : ℕ)
      → m < num
      → s.disk.free m ≡ false
      → (h : ℕ) × (j : ℕ) × (k : ℕ) × (s.requests h ≡ some (j, k)) × (one_of m h j k ≡ true)

-- A request's chain stays, if its descriptors do.
Chain-same :
    (d d' : Disk) (h j k : ℕ)
    → ((m : ℕ) → one_of m h j k ≡ true → (d'.free m ≡ d.free m) × (d'.desc m ≡ d.desc m))
    → Chain d h j k
    → Chain d' h j k
Chain-same d d' h j k same c =
    let at_h = same h (ground arith) in
    let at_j = same j (ground arith) in
    let at_k = same k (ground arith) in
    record {
      in_first = c.in_first;
      in_second = c.in_second;
      in_third = c.in_third;
      one_two = c.one_two;
      one_three = c.one_three;
      two_three = c.two_three;
      first_taken = at_h.0 ∙ c.first_taken;
      second_taken = at_j.0 ∙ c.second_taken;
      third_taken = at_k.0 ∙ c.third_taken;
      first_goes_on = ap (λ v. flag v.flags vring_desc_f_next) at_h.1 ∙ c.first_goes_on;
      second_goes_on = ap (λ v. flag v.flags vring_desc_f_next) at_j.1 ∙ c.second_goes_on;
      third_ends = ap (λ v. flag v.flags vring_desc_f_next) at_k.1 ∙ c.third_ends;
      to_second = ap (λ v. v.next) at_h.1 ∙ c.to_second;
      to_third = ap (λ v. v.next) at_j.1 ∙ c.to_third;
    }

-- A descriptor of a chain is taken.
taken_of : (d : Disk) (h j k m : ℕ) → Chain d h j k → one_of m h j k ≡ true → d.free m ≡ false
taken_of d h j k m c e = elim (Bool-cases (m == h)) [
  | inl a ↦ let same : m ≡ h = ground (arith, a) in ap d.free same ∙ c.first_taken
  | inr a ↦ elim (Bool-cases (m == j)) [
    | inl b ↦ let same : m ≡ j = ground (arith, b) in ap d.free same ∙ c.second_taken
    | inr b ↦ let same : m ≡ k = ground (arith, a, b, e) in ap d.free same ∙ c.third_taken
  ]
]

-- The same requests over a disk in which free descriptors are free, and those of requests the same.
Sound-same :
    (d d' : Disk) (q : ℕ → Option (ℕ × ℕ))
    → ((m : ℕ) → d'.free m ≡ d.free m)
    → ((m : ℕ) → d.free m ≡ false → d'.desc m ≡ d.desc m)
    → Sound (system d q)
    → Sound (system d' q)
Sound-same d d' q free same w = record {
  chain = λ h j k e.
      let c = w.chain h j k e in
      Chain-same d d' h j k (λ m o. (free m, same m (taken_of d h j k m c o))) c;
  apart = w.apart;
  no_leak = λ m h f. w.no_leak m h (sym (free m) ∙ f);
}

Begun : (q : ℕ → Option (ℕ × ℕ)) → Option Three × Disk → Type 0
Begun q (none, d) = Sound (system d q)
Begun q (some (i, j, k), d) = Sound (system d (put_request i (some (j, k)) q))

-- The new request's chain.
Chain-start :
    (at : Places) (write : Bool) (blockno b : ℕ) (d d₁ : Disk) (i j k : ℕ)
    → Took d i j k d₁
    → Chain (start at write blockno b (i, j, k) d₁) i j k
unfolding start
Chain-start at write blockno b d d₁ i j k t = record {
  in_first = t.in_first;
  in_second = t.in_second;
  in_third = t.in_third;
  one_two = t.one_two;
  one_three = t.one_three;
  two_three = t.two_three;
  first_taken = ground (arith, t.taken i);
  second_taken = ground (arith, t.taken j);
  third_taken = ground (arith, t.taken k);
  first_goes_on = ground (arith, t.one_two, t.one_three);
  second_goes_on = ground (arith, t.two_three);
  third_ends = ground arith;
  to_second = ground (arith, t.one_two, t.one_three);
  to_third = ground (arith, t.two_three);
}

-- What `start` leaves of the other descriptors.
start_others :
    (at : Places) (write : Bool) (blockno b : ℕ) (d d₁ : Disk) (i j k m : ℕ)
    → Took d i j k d₁
    → one_of m i j k ≡ false
    → ((start at write blockno b (i, j, k) d₁).free m ≡ d.free m)
      × ((start at write blockno b (i, j, k) d₁).desc m ≡ d.desc m)
unfolding start
start_others at write blockno b d d₁ i j k m t e =
    (ground (arith, t.taken m, e), ground (arith, ap (λ (f : ℕ → Desc). f m) t.same, e))

-- A descriptor that was free is of no request.
free_of :
    (d : Disk) (q : ℕ → Option (ℕ × ℕ)) (h h' j k m i i' : ℕ)
    → Sound (system d q)
    → q h ≡ some (j, k)
    → one_of m h j k ≡ true
    → (d' : Disk) → Took d h' i i' d'
    → one_of m h' i i' ≡ false
free_of d q h h' j k m i i' w e o d' t =
    let gone = taken_of d h j k m (w.chain h j k e) o in
    ground (arith, gone, t.first_free, t.second_free, t.third_free)

put_cases :
    (q : ℕ → Option (ℕ × ℕ)) (i j k h j' k' : ℕ)
    → put_request i (some (j, k)) q h ≡ some (j', k')
    → ((h ≡ i) × (j ≡ j') × (k ≡ k')) ⊎ ((h ≢ i) × (q h ≡ some (j', k')))
put_cases q i j k h j' k' e = elim (Bool-cases (h == i)) [
  | inl a ↦
      let both : ◌≡◌ {A = Option (ℕ × ℕ)} (some (j, k)) (some (j', k')) = ground (arith, a, e) in
      inl (ground (arith, a), ground (arith, both), ground (arith, both))
  | inr a ↦ inr (ground (arith, a), ground (arith, a, e))
]

module _ (at : Places) (write : Bool) (blockno b : ℕ) (d d₁ : Disk) (q : ℕ → Option (ℕ × ℕ))
    (i j k : ℕ) (w : Sound (system d q)) (t : Took d i j k d₁) where
  started : Disk
  started = start at write blockno b (i, j, k) d₁

  -- An old request and the new one.
  old_new :
      (h j' k' : ℕ)
      → q h ≡ some (j', k')
      → (m : ℕ) → one_of m h j' k' ≡ true
      → one_of m i j k ≡ false
  old_new h j' k' e m o = free_of d q h i j' k' m j k w e o d₁ t

  new_old : (h j' k' : ℕ) → q h ≡ some (j', k') → Disjoint i j k h j' k'
  unfolding Disjoint
  new_old h j' k' e m o = elim (Bool-cases (one_of m h j' k')) [
    | inl a ↦ absurd (ground (arith, o, old_new h j' k' e m a))
    | inr a ↦ a
  ]

  started-Chain :
      (h j' k' : ℕ) → put_request i (some (j, k)) q h ≡ some (j', k') → Chain started h j' k'
  unfolding started
  started-Chain h j' k' e = elim (put_cases q i j k h j' k' e) [
    | inl (same, same', same'') ↦
        rw (same, ← same', ← same'') (Chain-start at write blockno b d d₁ i j k t)
    | inr (other, old) ↦
        Chain-same d started h j' k'
          (λ m o. start_others at write blockno b d d₁ i j k m t (old_new h j' k' old m o))
          (w.chain h j' k' old)
  ]

  started-apart :
      (h j' k' h' j'' k'' : ℕ)
      → put_request i (some (j, k)) q h ≡ some (j', k')
      → put_request i (some (j, k)) q h' ≡ some (j'', k'')
      → h ≢ h'
      → Disjoint h j' k' h' j'' k''
  unfolding Disjoint
  started-apart h j' k' h' j'' k'' e e' ne = elim (put_cases q i j k h j' k' e) [
    | inl (s, s', s'') ↦ elim (put_cases q i j k h' j'' k'' e') [
      | inl (r, _, _) ↦ absurd (ne (s ∙ sym r))
      | inr (_, old) ↦ rw (s, ← s', ← s'') (new_old h' j'' k'' old)
    ]
    | inr (_, old) ↦ elim (put_cases q i j k h' j'' k'' e') [
      | inl (r, r', r'') ↦ rw (r, ← r', ← r'') (old_new h j' k' old)
      | inr (_, old') ↦ w.apart h j' k' h' j'' k'' old old' ne
    ]
  ]

  started-no_leak :
      (m : ℕ)
      → m < num
      → started.free m ≡ false
      → (h : ℕ) × (j' : ℕ) × (k' : ℕ) × (put_request i (some (j, k)) q h ≡ some (j', k'))
        × (one_of m h j' k' ≡ true)
  unfolding started
  started-no_leak m inside f = elim (Bool-cases (one_of m i j k)) [
    | inl a ↦ (i, j, k, ground arith, a)
    | inr a ↦
        let before = (start_others at write blockno b d d₁ i j k m t a).0 in
        let (h, j', k', e, o) = w.no_leak m inside (sym before ∙ f) in
        let apart : one_of h i j k ≡ false = old_new h j' k' e h (ground arith) in
        let other : (h == i) ≡ false = ground (arith, apart) in (h, j', k', rw other e, o)
  ]

Begun-begin_with :
    (at : Places) (write : Bool) (blockno b : ℕ) (d d₁ : Disk) (q : ℕ → Option (ℕ × ℕ))
    (o : Option Three)
    → Sound (system d q)
    → Takes d o d₁
    → Begun q (begin_with at write blockno b (o, d₁))
unfolding Begun begin_with Takes started
Begun-begin_with at write blockno b d d₁ q none w (free, same) = Sound-same d d₁ q free same w
Begun-begin_with at write blockno b d d₁ q (some (i, j, k)) w t = record {
  chain = started-Chain at write blockno b d d₁ q i j k w t;
  apart = started-apart at write blockno b d d₁ q i j k w t;
  no_leak = started-no_leak at write blockno b d d₁ q i j k w t;
}

ended_free :
    (d : Disk) (i j k m : ℕ)
    → (cleared k (cleared j (cleared i d))).free m ≡ (if one_of m i j k then true else d.free m)
unfolding cleared
ended_free d i j k m = ground arith

ended_desc :
    (d : Disk) (i j k m : ℕ)
    → one_of m i j k ≡ false
    → (cleared k (cleared j (cleared i d))).desc m ≡ d.desc m
unfolding cleared
ended_desc d i j k m e = ground (arith, e)

none_cases :
    (q : ℕ → Option (ℕ × ℕ)) (i h j' k' : ℕ)
    → put_request i none q h ≡ some (j', k')
    → (h ≢ i) × (q h ≡ some (j', k'))
none_cases q i h j' k' e = elim (Bool-cases (h == i)) [
  | inl a ↦ absurd (ground (arith, a, e))
  | inr a ↦ (ground (arith, a), ground (arith, a, e))
]

same_pair :
    (q : ℕ → Option (ℕ × ℕ)) (i j k h j' k' m : ℕ)
    → h ≡ i
    → q i ≡ some (j, k)
    → q h ≡ some (j', k')
    → one_of m h j' k' ≡ true
    → one_of m i j k ≡ true
same_pair q i j k h j' k' m s e e' o =
    let both : ◌≡◌ {A = Option (ℕ × ℕ)} (some (j, k)) (some (j', k')) = sym e ∙ ap q (sym s) ∙ e' in
    ground (arith, both, s, o)

ended : Disk → (i j k : ℕ) → Disk
ended d i j k = cleared k (cleared j (cleared i d))

module _ (d : Disk) (q : ℕ → Option (ℕ × ℕ)) (i j k : ℕ) (w : Sound (system d q))
    (e : q i ≡ some (j, k)) where
  Sound-ended : Sound (system (ended d i j k) (put_request i none q))
  unfolding ended Disjoint
  Sound-ended = record {
    chain = λ h j' k' e'.
        let (ne, old) = none_cases q i h j' k' e' in
        Chain-same d (ended d i j k) h j' k'
          (λ m o.
            let other : one_of m i j k ≡ false = w.apart h j' k' i j k old e ne m o in
            (ended_free d i j k m ∙ rw other refl, ended_desc d i j k m other))
          (w.chain h j' k' old);
    apart = λ h j' k' h' j'' k'' e₁ e₂ ne.
        w.apart h j' k' h' j'' k'' (none_cases q i h j' k' e₁).1 (none_cases q i h' j'' k'' e₂).1
          ne;
    no_leak = λ m inside f.
        let other : one_of m i j k ≡ false = ground (arith, f, ended_free d i j k m) in
        let was : d.free m ≡ false = ground (arith, f, ended_free d i j k m) in
        let (h, j', k', e', o) = w.no_leak m inside was in
        let ne : (h == i) ≡ false = elim (Bool-cases (h == i)) [
          | inl a ↦
              absurd (ground (arith, other, same_pair q i j k h j' k' m (ground (arith, a)) e e' o))
          | inr a ↦ a
        ] in
        (h, j', k', rw ne e', o);
  }

abbrev unbound : (i : ℕ) → Disk → Disk
unbound i d = put_info i (record (d.info i) { b = none }) d

rw_end-ended :
    (d : Disk) (q : ℕ → Option (ℕ × ℕ)) (i j k : ℕ)
    → Sound (system d q)
    → q i ≡ some (j, k)
    → (rw_end i d ≡ ok (ended (unbound i d) i j k))
unfolding rw_end ended
rw_end-ended d q i j k w e =
    free_chain-Chain (unbound i d) i j k
      (Chain-same d (unbound i d) i j k (λ m o. (refl, refl)) (w.chain i j k e))

-- Nothing that happens to the descriptors.
SameDescs : Disk → Disk → Type 0
SameDescs d d' = ((m : ℕ) → d'.free m ≡ d.free m) × ((m : ℕ) → d'.desc m ≡ d.desc m)

complete-SameDescs :
    (id : ℕ) (d₀ d : Disk) (o : Option ℕ) → SameDescs d₀ d → OnOk (SameDescs d₀) (complete id d o)
unfolding complete SameDescs
complete-SameDescs id d₀ d none h = on_panic
complete-SameDescs id d₀ d (some b) h = on_ok h

intr_loop-SameDescs :
    (fuel used : ℕ) (ids : ℕ → ℕ) (d₀ d : Disk)
    → SameDescs d₀ d
    → OnOk (SameDescs d₀) (intr_loop fuel used ids d)
unfolding intr_loop
intr_loop-SameDescs zero used ids d₀ d h = elim (Bool-cases (d.used_idx == used)) [
  | inl e ↦ simp (e) (on_ok h)
  | inr e ↦ simp (e) on_fuel
]
intr_loop-SameDescs (suc fuel) used ids d₀ d h = elim (Bool-cases (d.used_idx == used)) [
  | inl e ↦ simp (e) (on_ok h)
  | inr e ↦ elim (Bool-cases ((d.info (ids (d.used_idx % num))).status == 0)) [
    | inl f ↦
        simp (e, f)
          (OnOk-bind (SameDescs d₀)
            (complete-SameDescs (ids (d.used_idx % num)) d₀ d (d.info (ids (d.used_idx % num))).b h)
            (intr_loop-SameDescs fuel used ids d₀))
    | inr f ↦ simp (e, f) on_panic
  ]
]

Step-Sound : (at : Places) (s t : System) → Step at s t → Sound s → Sound t
unfolding rw_begin Ends Begun virtio_disk_intr SameDescs
Step-Sound at _ _ (Step.begins {d} {d'} {q} write blockno b i j k e) w =
    let (o, d₁, run, t) = alloc3_desc-Ends d in
    let result : begin_with at write blockno b (o, d₁) ≡ (some (i, j, k), d') =
      ok_inj (sym (rw run refl) ∙ e) in
    subst (Begun q) result (Begun-begin_with at write blockno b d d₁ q o w t)
Step-Sound at _ _ (Step.waits {d} {d'} {q} write blockno b e) w =
    let (o, d₁, run, t) = alloc3_desc-Ends d in
    let result : begin_with at write blockno b (o, d₁) ≡ (none, d') =
      ok_inj (sym (rw run refl) ∙ e) in
    subst (Begun q) result (Begun-begin_with at write blockno b d d₁ q o w t)
Step-Sound at _ _ (Step.ends {d} {d'} {q} i j k e run) w =
    let result : ended (unbound i d) i j k ≡ d' = ok_inj (sym (rw_end-ended d q i j k w e) ∙ run) in
    let w' = Sound-same d (unbound i d) q (λ m. refl) (λ m f. refl) w in
    subst (λ x. Sound (system x (put_request i none q))) result
      (Sound-ended (unbound i d) q i j k w' e)
Step-Sound at _ _ (Step.answers {d} {q} i status) w = Sound-same d _ q (λ m. refl) (λ m f. refl) w
Step-Sound at _ _ (Step.interrupts {d} {d'} {q} used ids run) w =
    let (free, same) = OnOk-ok (
      subst (OnOk (SameDescs d)) run
        (intr_loop-SameDescs num used ids d d (λ m. refl, λ m. refl))) in
    Sound-same d d' q free (λ m f. same m) w

Sound-initial : (d : Disk) → ((m : ℕ) → m < num → d.free m ≡ true) → Sound (system d (λ _. none))
Sound-initial d free = record {
  chain = λ h j k e. absurd (ground (arith, e));
  apart = λ h j k h' j' k' e e' ne. absurd (ground (arith, e));
  no_leak = λ m inside f. absurd (ground (arith, f, free m inside));
}

Reach-Sound : (at : Places) (s t : System) → Reach at s t → Sound s → Sound t
Reach-Sound at s _ Reach.here w = w
Reach-Sound at s _ (Reach.next r step) w = Step-Sound at _ _ step (Reach-Sound at s _ r w)

init_free-free :
    (n i : ℕ) (d : Disk) (m : ℕ)
    → ((i ≤ m) × (m < i + n)) ⊎ (d.free m ≡ true)
    → (init_free n i d).free m ≡ true
unfolding init_free
init_free-free zero i d m (inl (a, b)) = absurd (omega (arith, a, b))
init_free-free zero i d m (inr e) = e
init_free-free (suc n) i d m h =
    init_free-free n (i + 1) (put_free i true d) m
      (elim (Bool-cases (m == i)) [ inl e ↦ inr (rw e refl) | inr e ↦ ground (arith, h, e) ])

-- However requests to the disk begin, wait, are answered, are completed by interrupts and end, from
-- a disk that was just set up: each request in flight has three descriptors of its own, marked as
-- taken and linked in order, which no other has, and no descriptor is taken without a request. So a
-- request that begins or ends does not panic.
pub rw_end-Reach :
    (at : Places) (d : Disk) (s : System)
    → Reach at (system (init_free num 0 d) (λ _. none)) s
    → Sound s
      × ((write : Bool) (blockno b : ℕ)
          → (r : Option Three × Disk) × (rw_begin at write blockno b s.disk ≡ ok r))
      × ((i j k : ℕ) → s.requests i ≡ some (j, k) → (d' : Disk) × (rw_end i s.disk ≡ ok d'))
unfolding rw_begin Ends
rw_end-Reach at d s r =
    let d₀ = init_free num 0 d in
    let first =
      Sound-initial d₀ (λ m h. init_free-free num 0 d m (inl (omega arith, omega (arith, h)))) in
    let w = Reach-Sound at (system d₀ (λ _. none)) s r first in
    (
      w,
      λ write blockno b.
          let (o, d₁, run, _) = alloc3_desc-Ends s.disk in
          (begin_with at write blockno b (o, d₁), rw run refl),
      λ i j k e. (ended (unbound i s.disk) i j k, rw_end-ended s.disk s.requests i j k w e),
    )
