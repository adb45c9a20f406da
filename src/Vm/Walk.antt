-- ===== src/Vm/Walk.antt =====
-- `walk` with `alloc`: it keeps the tree and every entry, and ends at the entry of the address unless
-- the memory runs out.
use mathlib.Core.Path.{subst}
use mitcppos.Prelude.{
  ℕ, zero, suc, ◌+◌, ◌*◌, ◌<◌, ◌≡◌, ◌≢◌, refl, sym, ap, ◌∙◌, ◌⊎◌, inl, inr, true, false, some, List,
  [], ◌∷◌, arith, ◌==◌, Bool-cases, if◌then◌else◌,
}
use mitcppos.Mem.{Mem, load64}
use mitcppos.Riscv.{px, flag, pte2pa, pte_v}
use mitcppos.Kalloc.{Kmem, kalloc}
use mitcppos.Kalloc.Chain.{kalloc-Chain}
use mitcppos.Kalloc.Boot.{kalloc_empty}
use mitcppos.Vm.{walk_loop, new_table}
use mitcppos.Vm.Pte.{table_pte_fields}
use mitcppos.Vm.Tree.{entry, Places, Tree, entry_leaf, entry_valid, px-lt}
use mitcppos.Vm.Grow.{
  place_at, entry-grown, Tree-grown, grown_slot, grown_old, place'_old, slot-cases,
}

valid_ne_vacant :
    (m : Mem) (t j q i : ℕ)
    → flag (load64 m (t + 8 * j)) pte_v ≡ false
    → flag (load64 m (q + 8 * i)) pte_v ≡ true
    → (q ≢ t) ⊎ (i ≢ j)
valid_ne_vacant m t j q i vacant valid = elim (slot-cases t j q i) [
  | inl (qt, ij) ↦ absurd (ground arith)
  | inr other ↦ other
]

-- the part of the address that leads to the leaf table, below a table at `level` with prefix `p`
abbrev pub leaf_prefix : (level p va : ℕ) → ℕ
leaf_prefix zero p va = p
leaf_prefix (suc l) p va = leaf_prefix l (p * 512 + px (suc l) va) va

-- The walk for `va` from `t` meets valid entries down to the leaf table `s`.
abbrev pub Ends : (level t va : ℕ) → Mem → (s : ℕ) → Type 0
Ends zero t va m s = t ≡ s
Ends (suc l) t va m s =
    (flag (load64 m (t + 8 * px (suc l) va)) pte_v ≡ true)
    × Ends l (pte2pa (load64 m (t + 8 * px (suc l) va))) va m s

pub entry-Ends :
    (level t va : ℕ) (m : Mem) (s : ℕ)
    → Ends level t va m s
    → entry level t va m ≡ load64 m (s + 8 * px 0 va)
entry-Ends zero t va m s e = entry_leaf t va m ∙ ap (λ q. load64 m (q + 8 * px 0 va)) e
entry-Ends (suc l) t va m s (valid, below) =
    entry_valid l t va m _ refl valid ∙ entry-Ends l _ va m s below

pub record Walked (kernel_end : ℕ) (place : Places) (level t p va : ℕ) (k : Kmem) (out : ℕ × Kmem)
    : Type 0 where
  pub free : List ℕ
  pub places : Places
  pub tree : Tree kernel_end out.1 free places
  pub kept : (q m x : ℕ) → place q ≡ some (m, x) → places q ≡ some (m, x)
  pub same : (m q x a : ℕ) → place q ≡ some (m, x) → entry m q a out.1.mem ≡ entry m q a k.mem
  pub links :
      (q m x j : ℕ)
      → place q ≡ some (suc m, x)
      → j < 512
      → flag (load64 k.mem (q + 8 * j)) pte_v ≡ true
      → load64 out.1.mem (q + 8 * j) ≡ load64 k.mem (q + 8 * j)
  pub leaf :
      (out.0 ≡ 0)
      ⊎ ((s : ℕ) × (places s ≡ some (0, leaf_prefix level p va))
          × (out.0 ≡ s + 8 * px 0 va)
          × Ends level t va out.1.mem s)

module _ (kernel_end : ℕ) (pos : 0 < kernel_end) (va : ℕ) where
  -- A walk through a valid entry is the walk of the table below.
  lift_valid :
      (l t p : ℕ) (k : Kmem) (place : Places)
      → place t ≡ some (suc l, p)
      → place (pte2pa (load64 k.mem (t + 8 * px (suc l) va))) ≡ some (l, p * 512 + px (suc l) va)
      → flag (load64 k.mem (t + 8 * px (suc l) va)) pte_v ≡ true
      → (out : ℕ × Kmem)
      → Walked kernel_end place l
          (pte2pa (load64 k.mem (t + 8 * px (suc l) va)))
          (p * 512 + px (suc l) va)
          va
          k
          out
      → Walked kernel_end place (suc l) t p va k out
  lift_valid l t p k place at below valid out w = record {
    free = w.free;
    places = w.places;
    tree = w.tree;
    kept = w.kept;
    same = w.same;
    links = w.links;
    leaf = elim w.leaf [
      | inl e ↦ inl e
      | inr (s, placed, here, value) ↦
          let link = w.links t l p (px (suc l) va) at (px-lt (suc l) va) valid in
          inr (
            s,
            placed,
            here,
            (
              ap (λ v. flag v pte_v) link ∙ valid,
              subst (λ v. Ends l (pte2pa v) va out.1.mem s) (sym link) value,
            ),
          )
    ];
  }

  -- A walk that adds a table.
  lift_grown :
      (l t p : ℕ) (k : Kmem) (free : List ℕ) (place : Places)
      → Tree kernel_end k free place
      → place t ≡ some (suc l, p)
      → flag (load64 k.mem (t + 8 * px (suc l) va)) pte_v ≡ false
      → ((t' p' : ℕ) (k' : Kmem) (free' : List ℕ) (place' : Places)
          → Tree kernel_end k' free' place'
          → place' t' ≡ some (l, p')
          → Walked kernel_end place' l t' p' va k' (walk_loop l t' va true k'))
      → let (pg, k') = kalloc k in
        Walked kernel_end place (suc l) t p va k (
          if pg == 0
          then (0, k')
          else walk_loop l pg va true (new_table pg (t + 8 * px (suc l) va) k'))
  lift_grown l t p k [] place tree at invalid rec = rw (kalloc_empty k tree.chain) (record {
    free = [];
    places = place;
    tree = tree;
    kept = λ q m x e. e;
    same = λ m q x a e. refl;
    links = λ q m x j e h v. refl;
    leaf = inl refl;
  })
  lift_grown l t p k (pg ∷ free) place tree at invalid rec =
      let j = px (suc l) va in
      let small = px-lt (suc l) va in
      let got : (kalloc k).0 ≡ pg = (kalloc-Chain kernel_end k pg free pos tree.chain).0 in
      let page = tree.chain.1 in
      let nonzero : (pg == 0) ≡ false = ground (arith, page.above) in
      let fields = table_pte_fields pg page.aligned page.below in
      let grown = new_table pg (t + 8 * j) (kalloc k).1 in
      let place' = place_at place pg (l, p * 512 + j) in
      let w =
        rec pg (p * 512 + j) grown free place'
          (Tree-grown kernel_end pos k pg free place tree t l p j at small invalid)
          (ground arith) in
      let kept = λ (q m x : ℕ).
        place'_old kernel_end pos k pg free place tree t l p j at small invalid q m x in
      let slot = grown_slot kernel_end pos k pg free place tree t l p j at small invalid in
      let before = entry-grown kernel_end pos k pg free place tree t l p j at small invalid in
      rw (got, nonzero)
        (record {
          free = w.free;
          places = w.places;
          tree = w.tree;
          kept = λ q m x e. w.kept q m x (kept q m x e);
          same = λ m q x a e. w.same m q x a (kept q m x e) ∙ before m q x a e;
          links = λ q m x i e h v.
              let old =
                grown_old kernel_end pos k pg free place tree t l p j at small invalid q (suc m) x i
                  e h (valid_ne_vacant k.mem t j q i invalid v) in
              w.links q m x i (kept q (suc m) x e) h (ap (λ u. flag u pte_v) old ∙ v) ∙ old;
          leaf = elim w.leaf [
            | inl e ↦ inl e
            | inr (s, placed, here, value) ↦
                let link =
                  w.links t l p j (kept t (suc l) p at) small
                    (ap (λ v. flag v pte_v) slot ∙ fields.1)
                  ∙ slot in
                inr (
                  s,
                  placed,
                  here,
                  (
                    ap (λ v. flag v pte_v) link ∙ fields.1,
                    subst (λ q. Ends l q va (walk_loop l pg va true grown).1.mem s)
                        (sym (ap pte2pa link ∙ fields.0)) value,
                  ),
                )
          ];
        })

  pub walk_loop-Walked :
      (level t p : ℕ) (k : Kmem) (free : List ℕ) (place : Places)
      → Tree kernel_end k free place
      → place t ≡ some (level, p)
      → Walked kernel_end place level t p va k (walk_loop level t va true k)
  unfolding walk_loop
  walk_loop-Walked zero t p k free place tree at = record {
    free = free;
    places = place;
    tree = tree;
    kept = λ q m x e. e;
    same = λ m q x a e. refl;
    links = λ q m x j e h v. refl;
    leaf = inr (t, at, refl, refl);
  }
  walk_loop-Walked (suc l) t p k free place tree at =
      let j = px (suc l) va in
      let v = load64 k.mem (t + 8 * j) in
      elim (Bool-cases (flag v pte_v)) [
        | inl valid ↦
            let below = tree.child t l p j at (px-lt (suc l) va) valid in
            rw valid (
              lift_valid l t p k place at below valid (walk_loop l (pte2pa v) va true k)
                (walk_loop-Walked l (pte2pa v) (p * 512 + j) k free place tree below))
        | inr invalid ↦
            rw invalid (lift_grown l t p k free place tree at invalid (walk_loop-Walked l))
      ]
