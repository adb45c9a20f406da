-- ===== src/Fs/Path/Skip.antt =====
-- `skipelem` of kernel/fs.c: one element of a path name.
use mitcppos.Prelude.{
  ℕ, zero, suc, ◌+◌, ◌-◌, ◌<◌, ◌≤◌, ◌≡◌, ◌≢◌, ◌⊎◌, refl, sym, ap, ◌∙◌, inl, inr, Bool, true, false,
  not, ◌&&◌, Option, none, some, ◌==◌, arith, Outcome, ok, Bool-cases,
}
use mitcppos.Mem.{Mem}
use mitcppos.Str.Copy.{memmove_lem}
use mitcppos.Fs.{dirsiz}
use mitcppos.Fs.Path.{slash, skip_slashes, skip_name, copy_name, skipelem_from, skipelem}

abbrev pub is_slash : ℕ → Bool
is_slash c = c == slash

abbrev pub is_name : ℕ → Bool
is_name c = not (c == slash) && not (c == 0)

-- `b` is the first place from `a` on with a character that is not in `class`.
pub record Run (class : ℕ → Bool) (m : Mem) (a b : ℕ) : Type 0 where
  pub forward : a ≤ b
  pub all : (i : ℕ) → a ≤ i → i < b → class (m i) ≡ true
  pub stops : class (m b) ≡ false

Run_here : {class : ℕ → Bool} {m : Mem} {a : ℕ} → class (m a) ≡ false → Run class m a a
Run_here e = record {
  forward = omega arith;
  all = λ i lo hi. absurd (omega (arith, lo, hi));
  stops = e;
}

Run_more :
    {class : ℕ → Bool} {m : Mem} {a b : ℕ}
    → class (m a) ≡ true
    → Run class m (a + 1) b
    → Run class m a b
Run_more {class} {m} {a} e r = record {
  forward = omega (arith, r.forward);
  all = λ i lo hi. elim (Bool-cases (i == a)) [
    | inl h ↦ let same : i ≡ a = ground (arith, h) in ap (λ j. class (m j)) same ∙ e
    | inr h ↦ r.all i (ground (arith, h, lo)) hi
  ];
  stops = r.stops;
}

Run_same :
    {class : ℕ → Bool} {m m' : Mem} {a b : ℕ}
    → ((i : ℕ) → a ≤ i → i ≤ b → m' i ≡ m i)
    → Run class m' a b
    → Run class m a b
Run_same {class} {m} {m'} {a} {b} h r = record {
  forward = r.forward;
  all = λ i lo hi. ap class (sym (h i lo (omega (arith, hi)))) ∙ r.all i lo hi;
  stops = ap class (sym (h b r.forward (omega arith))) ∙ r.stops;
}

-- With the end of the string at `e`, in reach of the fuel.
skip_slashes-Run :
    (fuel : ℕ) (m : Mem) (path e : ℕ)
    → m e ≡ 0
    → path ≤ e
    → e < path + fuel
    → (q : ℕ) × (skip_slashes fuel m path ≡ ok q) × Run is_slash m path q × (q ≤ e)
unfolding skip_slashes
skip_slashes-Run zero m path e z lo hi = absurd (omega (arith, lo, hi))
skip_slashes-Run (suc fuel) m path e z lo hi = elim (Bool-cases (m path == slash)) [
  | inl h ↦
      let next : path + 1 ≤ e = elim (Bool-cases (path == e)) [
        | inl same ↦
            absurd (let p : path ≡ e = ground (arith, same) in ground (arith, h, z, ap m p))
        | inr ne ↦ ground (arith, ne, lo)
      ] in
      let (q, run, r, till) = skip_slashes-Run fuel m (path + 1) e z next (omega (arith, hi)) in
      (q, rw h run, Run_more h r, till)
  | inr h ↦ (path, rw h refl, Run_here h, lo)
]

skip_name-Run :
    (fuel : ℕ) (m : Mem) (path e : ℕ)
    → m e ≡ 0
    → path ≤ e
    → e < path + fuel
    → (q : ℕ) × (skip_name fuel m path ≡ ok q) × Run is_name m path q × (q ≤ e)
unfolding skip_name
skip_name-Run zero m path e z lo hi = absurd (omega (arith, lo, hi))
skip_name-Run (suc fuel) m path e z lo hi = elim (Bool-cases (is_name (m path))) [
  | inl h ↦
      let next : path + 1 ≤ e = elim (Bool-cases (path == e)) [
        | inl same ↦
            absurd (let p : path ≡ e = ground (arith, same) in ground (arith, h, z, ap m p))
        | inr ne ↦ ground (arith, ne, lo)
      ] in
      let (q, run, r, till) = skip_name-Run fuel m (path + 1) e z next (omega (arith, hi)) in
      (q, rw h run, Run_more h r, till)
  | inr h ↦ (path, rw h refl, Run_here h, lo)
]

-- The element from `s` to `path`, cut to `DIRSIZ` characters, at `name`, with the 0 that ends it if
-- there is room.
pub record Named (m m' : Mem) (name s path : ℕ) : Type 0 where
  pub chars : (i : ℕ) → i < dirsiz → i < path - s → m' (name + i) ≡ m (s + i)
  pub ended : path - s < dirsiz → m' (name + (path - s)) ≡ 0
  pub others : (a : ℕ) → (a < name) ⊎ (name + dirsiz ≤ a) → m' a ≡ m a

copy_name-Named : (m : Mem) (name s path : ℕ) → Named m (copy_name m name s path) name s path
unfolding copy_name
copy_name-Named m name s path = record {
  chars = λ i h h'. ground (
    arith,
    memmove_lem m name s dirsiz (name + i),
    memmove_lem m name s (path - s) (name + i),
    h,
    h',
  );
  ended = λ h. ground (arith, h);
  others =
      λ a h. ground (arith, memmove_lem m name s dirsiz a, memmove_lem m name s (path - s) a, h);
}

longer_by :
    {m : Mem} (from till : ℕ)
    → Run is_name m from till
    → is_slash (m from) ≡ false
    → m from ≢ 0
    → from < till
longer_by {m} from till n s nz = elim (Bool-cases (from == till)) [
  | inl h ↦
      let same : till ≡ from = ground (arith, h) in
      let stop : is_name (m from) ≡ false = ap (λ j. is_name (m j)) (sym same) ∙ n.stops in
      absurd (ground (arith, stop, s, nz))
  | inr h ↦ ground (arith, h, n.forward)
]

-- The element begins at `from`. Without one, `from` is the end of the path.
pub Skips : (m : Mem) (path name e from : ℕ) → Outcome (Option ℕ × Mem) → Type 0
Skips m path name e from r =
    Run is_slash m path from
    × (((m from ≡ 0) × (r ≡ ok (none, m)))
        ⊎ ((till : ℕ) × (rest : ℕ) × (m' : Mem) × (r ≡ ok (some rest, m'))
            × (from < till)
            × Run is_name m from till
            × Run is_slash m till rest
            × (rest ≤ e)
            × Named m m' name from till))

module _ (fuel : ℕ) (m : Mem) (path name e : ℕ) (z : m e ≡ 0) (lo : path ≤ e) (hi : e < path + fuel)
    (apart : (e < name) ⊎ (name + dirsiz ≤ path)) where
  element :
      (from : ℕ)
      → Run is_slash m path from
      → from ≤ e
      → m from ≢ 0
      → Skips m path name e from (skipelem_from fuel m name from)
  unfolding skipelem_from Skips
  element from r h nz =
      let is : (m from == 0) ≡ false = ground (arith, nz) in
      let (till, run, n, before) = skip_name-Run fuel m from e z h (omega (arith, hi, r.forward)) in
      let named = copy_name-Named m name from till in
      let m' = copy_name m name from till in
      let same : (i : ℕ) → till ≤ i → i ≤ e → m' i ≡ m i =
        λ i a b. named.others i (ground (arith, apart, a, b, n.forward, r.forward)) in
      let (rest, run', r', rest_before) =
        skip_slashes-Run fuel m' till e (same e before (omega arith) ∙ z) before
          (omega (arith, hi, r.forward, n.forward)) in
      let longer : from < till = longer_by from till n r.stops nz in
      (
        r,
        inr (
          till,
          rest,
          m',
          rw (is, run, run') refl,
          longer,
          n,
          Run_same (λ i a b. same i a (omega (arith, b, rest_before))) r',
          rest_before,
          named,
        ),
      )

  -- `skipelem` on a path that ends at `e`, within the fuel, and lies apart from the buffer `name`:
  -- it ends. After the leading slashes it is at the end of the path and returns a null pointer and
  -- the memory as it was; or at an element, of which it copies the first `DIRSIZ` characters to
  -- `name`, with a 0 behind them if there is room, and it returns the place behind the slashes that
  -- follow. It changes no memory but the buffer.
  pub skipelem-Skips : (from : ℕ) × Skips m path name e from (skipelem fuel m path name)
  unfolding skipelem Skips skipelem_from
  skipelem-Skips =
      let (from, run, r, before) = skip_slashes-Run fuel m path e z lo hi in
      elim (Bool-cases (m from == 0)) [
        | inl h ↦ (from, rw run (r, inl (ground (arith, h), rw h refl)))
        | inr h ↦ (from, rw run (element from r before (ground (arith, h))))
      ]
