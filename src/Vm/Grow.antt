-- ===== src/Vm/Grow.antt =====
-- Adding a table: the tree grows by a page of zeroes, and no entry changes.
use Prim.Native.Nat.{bit_or}
use mitcppos.Prelude.{
  ℕ, zero, suc, ◌+◌, ◌*◌, ◌%◌, ◌≤◌, ◌<◌, ◌≡◌, ◌≢◌, refl, sym, ap, ◌∙◌, ◌⊎◌, inl, inr, true, false,
  some, List, ◌∷◌, arith, ◌==◌, if◌then◌else◌, Bool-cases,
}
use mitcppos.Mem.{
  Mem, load64, load_le_same, load-store_outside, load-store_self, load_le-zero, store_le_outside,
}
use mitcppos.Str.Copy.{memset_lem}
use mitcppos.Str.{memset}
use mitcppos.Riscv.{pgsize, px, flag, pte2pa, pa2pte, pte_v}
use mitcppos.Kalloc.{Kmem, kalloc}
use mitcppos.Kalloc.Chain.{IsPage, SameOutside, Chain-frame, kalloc-Chain, memset_same}
use mitcppos.Vm.{new_table}
use mitcppos.Vm.Pte.{table_pte_fields}
use mitcppos.Vm.Tree.{entry, Places, Tree, IsZero, entry-zero, entry_valid, entry_invalid, px-lt}

abbrev pub place_at : Places → ℕ → ℕ × ℕ → Places
place_at place pg x = λ t. if t == pg then some x else place t

-- Eight bytes of a page other than `q` do not change when only `q` does.
pub load-SameOutside :
    (q t i : ℕ) (m m' : Mem)
    → SameOutside q m m'
    → q % pgsize ≡ 0
    → t % pgsize ≡ 0
    → t ≢ q
    → i < 512
    → load64 m' (t + 8 * i) ≡ load64 m (t + 8 * i)
load-SameOutside q t i m m' same qa ta ne h =
    load_le_same 8 m' m (t + 8 * i) (λ a lo hi. same a (ground arith))

-- Two entries of tables are the same or lie apart.
pub slot_apart :
    (t i s j : ℕ)
    → t % pgsize ≡ 0
    → s % pgsize ≡ 0
    → i < 512
    → j < 512
    → (t ≡ s) × (i ≡ j) ⊎ ((t + 8 * i + 8 ≤ s + 8 * j) ⊎ (s + 8 * j + 8 ≤ t + 8 * i))
slot_apart t i s j ta sa hi hj = ground arith

pub slot-cases : (t i : ℕ) (q j : ℕ) → (q ≡ t) × (j ≡ i) ⊎ ((q ≢ t) ⊎ (j ≢ i))
slot-cases t i q j = ground arith

module _ (kernel_end : ℕ) (pos : 0 < kernel_end) (k : Kmem) (pg : ℕ) (free : List ℕ)
    (place : Places) (tree : Tree kernel_end k (pg ∷ free) place) (t l p i : ℕ)
    (at : place t ≡ some (suc l, p)) (small : i < 512)
    (vacant : flag (load64 k.mem (t + 8 * i)) pte_v ≡ false) where
  abbrev pub grown : Kmem
  grown = new_table pg (t + 8 * i) (kalloc k).1

  abbrev pub place' : Places
  place' = place_at place pg (l, p * 512 + i)

  t-IsPage : IsPage kernel_end t
  t-IsPage = tree.page t (suc l) p at

  pg-IsPage : IsPage kernel_end pg
  pg-IsPage = tree.chain.1

  table_ne_pg : (q lq pq : ℕ) → place q ≡ some (lq, pq) → q ≢ pg
  table_ne_pg q lq pq e = ground (arith, tree.used q lq pq e)

  zeroed : Mem
  zeroed = memset (kalloc k).1.mem pg 0 pgsize

  zeroed_same : SameOutside pg k.mem zeroed
  unfolding zeroed
  zeroed_same a out =
      memset_same (kalloc k).1.mem pg 0 a out
      ∙ (kalloc-Chain kernel_end k pg free pos tree.chain).3 a out

  zeroed-IsZero : (j : ℕ) → j < 512 → load64 zeroed (pg + 8 * j) ≡ 0
  unfolding zeroed
  zeroed-IsZero j h =
      load_le-zero 8 (memset (kalloc k).1.mem pg 0 pgsize) (pg + 8 * j)
        (λ a lo hi. ground (arith, memset_lem (kalloc k).1.mem pg 0 pgsize a))

  -- the new entry
  pub grown_slot : load64 grown.mem (t + 8 * i) ≡ bit_or (pa2pte pg) pte_v
  grown_slot =
      load-store_self 8 _ (t + 8 * i) (bit_or (pa2pte pg) pte_v)
        ((table_pte_fields pg pg-IsPage.aligned pg-IsPage.below).2)

  -- another entry of an old table
  pub grown_old :
      (q lq pq j : ℕ)
      → place q ≡ some (lq, pq)
      → j < 512
      → ((q ≢ t) ⊎ (j ≢ i))
      → load64 grown.mem (q + 8 * j) ≡ load64 k.mem (q + 8 * j)
  unfolding zeroed
  grown_old q lq pq j e h ne =
      let qa = (tree.page q lq pq e).aligned in
      load-store_outside 8 8 zeroed (t + 8 * i) (q + 8 * j) (bit_or (pa2pte pg) pte_v)
        (ground (arith, slot_apart q j t i qa t-IsPage.aligned h small))
      ∙ load-SameOutside pg q j k.mem zeroed zeroed_same pg-IsPage.aligned qa
          (table_ne_pg q lq pq e) h

  pub grown_new : IsZero pg grown.mem
  unfolding zeroed
  grown_new j h =
      load-store_outside 8 8 zeroed (t + 8 * i) (pg + 8 * j) (bit_or (pa2pte pg) pte_v) (
        ground (
          arith,
          slot_apart pg j t i pg-IsPage.aligned t-IsPage.aligned h small,
          table_ne_pg t (suc l) p at,
        ))
      ∙ zeroed-IsZero j h

  -- No entry changes.
  pub entry-grown :
      (level q x va : ℕ)
      → place q ≡ some (level, x)
      → entry level q va grown.mem ≡ entry level q va k.mem
  unfolding entry
  entry-grown zero q x va e = grown_old q 0 x (px 0 va) e (px-lt 0 va) (ground arith)
  entry-grown (suc m) q x va e = elim (slot-cases t i q (px (suc m) va)) [
    | inl (qt, ji) ↦
        let new : load64 grown.mem (q + 8 * px (suc m) va) ≡ bit_or (pa2pte pg) pte_v =
          rw (qt, ji) grown_slot in
        let fields = table_pte_fields pg pg-IsPage.aligned pg-IsPage.below in
        entry_valid m q va grown.mem (bit_or (pa2pte pg) pte_v) new fields.1
        ∙ ap (λ s. entry m s va grown.mem) fields.0
        ∙ entry-zero m pg va grown.mem grown_new
        ∙ sym (entry_invalid m q va k.mem (load64 k.mem (t + 8 * i)) (rw (qt, ji)) vacant)
    | inr other ↦
        let old = grown_old q (suc m) x (px (suc m) va) e (px-lt (suc m) va) other in
        let v = load64 k.mem (q + 8 * px (suc m) va) in
        elim (Bool-cases (flag v pte_v)) [
          | inl valid ↦
              let below = tree.child q m x (px (suc m) va) e (px-lt (suc m) va) valid in
              entry_valid m q va grown.mem v old valid
              ∙ entry-grown m (pte2pa v) (x * 512 + px (suc m) va) va below
              ∙ sym (entry_valid m q va k.mem v refl valid)
          | inr invalid ↦
              entry_invalid m q va grown.mem v old invalid
              ∙ sym (entry_invalid m q va k.mem v refl invalid)
        ]
  ]

  pub place'_old : (q lq pq : ℕ) → place q ≡ some (lq, pq) → place' q ≡ some (lq, pq)
  place'_old q lq pq e = ground (arith, table_ne_pg q lq pq e)

  child-grown :
      (q m x j : ℕ)
      → place' q ≡ some (suc m, x)
      → j < 512
      → flag (load64 grown.mem (q + 8 * j)) pte_v ≡ true
      → place' (pte2pa (load64 grown.mem (q + 8 * j))) ≡ some (m, x * 512 + j)
  child-grown q m x j e h valid = elim (Bool-cases (q == pg)) [
    | inl new ↦ absurd (ground (arith, grown_new j h))
    | inr old ↦ elim (slot-cases t i q j) [
      | inl (qt, ji) ↦
          let new : load64 grown.mem (q + 8 * j) ≡ bit_or (pa2pte pg) pte_v =
            rw (qt, ji) grown_slot in
          let fields = table_pte_fields pg pg-IsPage.aligned pg-IsPage.below in
          ap (λ v. place' (pte2pa v)) new ∙ ap place' fields.0 ∙ ground (arith, at)
      | inr other ↦
          let was : place q ≡ some (suc m, x) = ground arith in
          let same = grown_old q (suc m) x j was h other in
          let below = tree.child q m x j was h (sym (ap (λ v. flag v pte_v) same) ∙ valid) in
          ap (λ v. place' (pte2pa v)) same
          ∙ place'_old (pte2pa (load64 k.mem (q + 8 * j))) m (x * 512 + j) below
    ]
  ]

  pub Tree-grown : Tree kernel_end grown free place'
  unfolding zeroed
  Tree-grown = record {
    chain =
        let kept = kalloc-Chain kernel_end k pg free pos tree.chain in
        let pg_out = tree.chain.2 in
        let fl = (kalloc k).1.freelist in
        let c₁ =
          Chain-frame kernel_end pg (kalloc k).1.mem zeroed fl free pg-IsPage.aligned
            (memset_same (kalloc k).1.mem pg 0) pg_out kept.1 in
        Chain-frame kernel_end t zeroed grown.mem fl free t-IsPage.aligned
          (λ a out.
            store_le_outside 8 zeroed (t + 8 * i) (bit_or (pa2pte pg) pte_v) a (ground arith))
          (ground (arith, tree.used t (suc l) p at)) c₁;
    page = λ q m x e. ground (arith, tree.page q m x, pg-IsPage);
    used = λ q m x e. ground (arith, tree.used q m x, tree.chain.2);
    child = child-grown;
  }
