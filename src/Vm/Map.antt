-- ===== src/Vm/Map.antt =====
-- Writing a leaf entry: the addresses of its page see it, and no other address does.
use mathlib.Core.Path.{ap₂}
use native.Mathlib.Nat.{pow-suc}
use mitcppos.Prelude.{
  ℕ, zero, suc, ◌+◌, ◌*◌, ◌/◌, ◌^◌, ◌≤◌, ◌<◌, ◌≡◌, ◌≢◌, refl, sym, ap, ◌∙◌, ◌⊎◌, inl, inr, Bool,
  ◌&&◌, some, List, arith, ◌==◌, Bool-cases, if◌then◌else◌,
}
use mitcppos.Mem.{load64, store64, load-store_outside, load-store_self, store_le_outside}
use mitcppos.Riscv.{pgsize, px, flag, pte2pa, pte_v, maxva}
use mitcppos.Kalloc.{Kmem}
use mitcppos.Kalloc.Chain.{Chain-frame}
use mitcppos.Vm.Tree.{entry, Places, Tree, entry_leaf, entry_valid, entry_invalid, px-lt}
use mitcppos.Vm.Grow.{slot_apart}
use mitcppos.Vm.Walk.{leaf_prefix, Ends}

digit_bounds :
    (p c n : ℕ)
    → c < 512
    → (p * (n * 512) ≤ (p * 512 + c) * n) × ((p * 512 + c + 1) * n ≤ (p + 1) * (n * 512))
digit_bounds p c n h = (grind arith, grind arith)

leaf_prefix_low : (l p va : ℕ) → p * 512 ^ l ≤ leaf_prefix l p va
leaf_prefix_low zero p va = omega arith
leaf_prefix_low (suc l) p va =
    let c = px (suc l) va in
    rw (pow-suc 512 l) (
      omega (
        arith,
        leaf_prefix_low l (p * 512 + c) va,
        (digit_bounds p c (512 ^ l) (px-lt (suc l) va)).0,
      ))

leaf_prefix_high : (l p va : ℕ) → leaf_prefix l p va < (p + 1) * 512 ^ l
leaf_prefix_high zero p va = omega arith
leaf_prefix_high (suc l) p va =
    let c = px (suc l) va in
    rw (pow-suc 512 l) (
      omega (
        arith,
        leaf_prefix_high l (p * 512 + c) va,
        (digit_bounds p c (512 ^ l) (px-lt (suc l) va)).1,
      ))

mul_mono : (a b n : ℕ) → a ≤ b → a * n ≤ b * n
mul_mono a b n h = grind arith

ne-cases : (a b : ℕ) → a ≢ b → (a < b) ⊎ (b < a)
ne-cases a b ne = ground arith

-- Different indices lead to different leaf tables.
leaf_prefix_ne :
    (l p a b va va' : ℕ) → a ≢ b → leaf_prefix l (p * 512 + a) va ≢ leaf_prefix l (p * 512 + b) va'
leaf_prefix_ne l p a b va va' ne e = elim (ne-cases a b ne) [
  | inl lt ↦ absurd (
      omega (
        arith,
        leaf_prefix_high l (p * 512 + a) va,
        leaf_prefix_low l (p * 512 + b) va',
        mul_mono (p * 512 + a + 1) (p * 512 + b) (512 ^ l) (omega arith),
      ))
  | inr gt ↦ absurd (
      omega (
        arith,
        leaf_prefix_high l (p * 512 + b) va',
        leaf_prefix_low l (p * 512 + a) va,
        mul_mono (p * 512 + b + 1) (p * 512 + a) (512 ^ l) (omega arith),
      ))
]

-- the two addresses have the same indices from `m` down
abbrev pub same_path : (m a b : ℕ) → Bool
same_path zero a b = px 0 a == px 0 b
same_path (suc l) a b = (px (suc l) a == px (suc l) b) && same_path l a b

-- Below `MAXVA` these are the addresses of one page.
pub same_path_two : (a b : ℕ) → a < maxva → b < maxva → same_path 2 a b ≡ (a / pgsize == b / pgsize)
same_path_two a b ha hb = ground arith

module _ (kernel_end : ℕ) (k : Kmem) (free : List ℕ) (place : Places)
    (tree : Tree kernel_end k free place) (s x j v : ℕ) (at : place s ≡ some (0, x))
    (small : j < 512) where
  abbrev pub written : Kmem
  written = record k { mem = store64 k.mem (s + 8 * j) v }

  ne_of_level : (q m y : ℕ) → place q ≡ some (suc m, y) → q ≢ s
  ne_of_level q m y e qs = absurd (ground (arith, ap place qs))

  written_old :
      (q m y i : ℕ)
      → place q ≡ some (m, y)
      → i < 512
      → (q ≢ s) ⊎ (i ≢ j)
      → load64 written.mem (q + 8 * i) ≡ load64 k.mem (q + 8 * i)
  written_old q m y i e h ne = load-store_outside 8 8 k.mem (s + 8 * j) (q + 8 * i) v (
      ground (
        arith,
        slot_apart q i s j (tree.page q m y e).aligned (tree.page s 0 x at).aligned h small,
      ))

  -- A table above the leaves is not written.
  written_table :
      (q m y i : ℕ)
      → place q ≡ some (suc m, y)
      → i < 512
      → load64 written.mem (q + 8 * i) ≡ load64 k.mem (q + 8 * i)
  written_table q m y i e h = written_old q (suc m) y i e h (inl (ne_of_level q m y e))

  pub Tree-written : Tree kernel_end written free place
  Tree-written = record {
    chain =
        Chain-frame kernel_end s k.mem written.mem k.freelist free (tree.page s 0 x at).aligned
          (λ a out. store_le_outside 8 k.mem (s + 8 * j) v a (ground arith)) (tree.used s 0 x at)
          tree.chain;
    page = tree.page;
    used = tree.used;
    child = λ q m y i e h valid.
        let same = written_table q m y i e h in
        ap (λ u. place (pte2pa u)) same
        ∙ tree.child q m y i e h (sym (ap (λ u. flag u pte_v) same) ∙ valid);
  }

  -- A walk that leads to another leaf table does not see the write.
  entry-written_away :
      (m q y a : ℕ)
      → place q ≡ some (m, y)
      → leaf_prefix m y a ≢ x
      → entry m q a written.mem ≡ entry m q a k.mem
  entry-written_away zero q y a e ne =
      entry_leaf q a written.mem
      ∙ written_old q 0 y (px 0 a) e (px-lt 0 a) (inl (λ qs. ne (ground (arith, ap place qs))))
      ∙ sym (entry_leaf q a k.mem)
  entry-written_away (suc l) q y a e ne =
      let u = load64 k.mem (q + 8 * px (suc l) a) in
      let same = written_table q l y (px (suc l) a) e (px-lt (suc l) a) in
      elim (Bool-cases (flag u pte_v)) [
        | inl valid ↦
            entry_valid l q a written.mem u same valid
            ∙ entry-written_away l (pte2pa u) (y * 512 + px (suc l) a) a
                (tree.child q l y (px (suc l) a) e (px-lt (suc l) a) valid) ne
            ∙ sym (entry_valid l q a k.mem u refl valid)
        | inr invalid ↦
            entry_invalid l q a written.mem u same invalid
            ∙ sym (entry_invalid l q a k.mem u refl invalid)
      ]

  -- The write is seen by the addresses of the page whose walk ends at the leaf table `s`, and by no
  -- other.
  pub entry-written :
      (m q y va a : ℕ)
      → place q ≡ some (m, y)
      → Ends m q va k.mem s
      → leaf_prefix m y va ≡ x
      → px 0 va ≡ j
      → v < 2 ^ 64
      → entry m q a written.mem ≡ (if same_path m a va then v else entry m q a k.mem)
  entry-written zero q y va a e ends px_x px_j fits = elim (Bool-cases (px 0 a == px 0 va)) [
    | inl here ↦ rw here (
        entry_leaf q a written.mem
        ∙ ap₂ (λ t i. load64 written.mem (t + 8 * i)) ends (ground arith)
        ∙ load-store_self 8 k.mem (s + 8 * j) v fits)
    | inr there ↦ rw there (
        entry_leaf q a written.mem
        ∙ written_old q 0 y (px 0 a) e (px-lt 0 a) (inr (ground arith))
        ∙ sym (entry_leaf q a k.mem))
  ]
  entry-written (suc l) q y va a e (valid, ends) px_x px_j fits =
      elim (Bool-cases (px (suc l) a == px (suc l) va)) [
        | inl here ↦
            let i = px (suc l) va in
            let u = load64 k.mem (q + 8 * i) in
            let eq : px (suc l) a ≡ i = ground arith in
            let old : load64 k.mem (q + 8 * px (suc l) a) ≡ u =
              ap (λ n. load64 k.mem (q + 8 * n)) eq in
            let same : load64 written.mem (q + 8 * px (suc l) a) ≡ u =
              written_table q l y (px (suc l) a) e (px-lt (suc l) a) ∙ old in
            let below = tree.child q l y i e (px-lt (suc l) va) valid in
            rw here (
              entry_valid l q a written.mem u same valid
              ∙ entry-written l (pte2pa u) (y * 512 + i) va a below ends px_x px_j fits
              ∙ ap (λ z. if same_path l a va then v else z)
                  (sym (entry_valid l q a k.mem u old valid)))
        | inr there ↦ rw there (
            entry-written_away (suc l) q y a e (λ eq.
              leaf_prefix_ne l y (px (suc l) a) (px (suc l) va) a va (ground arith)
                (eq ∙ sym px_x)))
      ]
