-- ===== src/Fs/Inodes/Cache.antt =====
-- `iget` of kernel/fs.c: the one entry of the table for an inode.
use mitcppos.Prelude.{
  ℕ, zero, suc, ◌+◌, ◌<◌, ◌≤◌, ◌≡◌, ◌≢◌, ◌⊎◌, refl, sym, ap, ◌∙◌, inl, inr, true, false, Option,
  none, some, ◌==◌, if◌then◌else◌, arith, Outcome, ok, panic, Bool-cases,
}
use mathlib.Core.Path.{subst}
use mitcppos.Fs.{Inode, FsState, ninode}
use mitcppos.Fs.Inodes.{holds, or_empty, iget_loop, iget_entry, iget}

-- No two entries in use are for the same inode.
unfoldable pub Unique : FsState → Type 0
Unique s =
    (a b : ℕ)
    → a < ninode
    → b < ninode
    → 0 < (s.inode a).ref
    → holds (s.inode a).dev (s.inode a).inum (s.inode b) ≡ true
    → a ≡ b

pub record Got (dev inum ip : ℕ) (s s' : FsState) : Type 0 where
  pub inside : ip < ninode
  pub its : holds dev inum (s'.inode ip) ≡ true
  pub counted : (s'.inode ip).ref ≡ (s.inode ip).ref + 1
  pub kept :
      (s'.inode ip ≡ record (s.inode ip) { ref = (s.inode ip).ref + 1 })
      ⊎ (((s.inode ip).ref ≡ 0) × ((s'.inode ip).valid ≡ false))
  pub others : (a : ℕ) → a ≢ ip → s'.inode a ≡ s.inode a
  pub same_blocks : s'.block ≡ s.block
  pub same_log : s'.logged ≡ s.logged
  pub unique : Unique s'

pub Ends : (dev inum : ℕ) → FsState → Outcome (ℕ × FsState) → Type 0
Ends dev inum s r =
    ((ip : ℕ) × (s' : FsState) × (r ≡ ok (ip, s')) × Got dev inum ip s s')
    ⊎ ((r ≡ panic "iget: no inodes")
        × ((a : ℕ) → a < ninode → (0 < (s.inode a).ref) × (holds dev inum (s.inode a) ≡ false)))

-- The free entry that the loop leaves, when it began with the first argument.
Free : (n ip : ℕ) (t : ℕ → Inode) → Option ℕ → Option ℕ → Type 0
Free n ip t (some e) o = o ≡ some e
Free n ip t none none = (j : ℕ) → ip ≤ j → j < ip + n → 0 < (t j).ref
Free n ip t none (some e) = (e < ip + n) × ((t e).ref ≡ 0)

Looked : (n ip dev inum : ℕ) (t : ℕ → Inode) (empty : Option ℕ) → Option ℕ × Option ℕ → Type 0
Looked n ip dev inum t empty (some i, _) = (i < ip + n) × (holds dev inum (t i) ≡ true)
Looked n ip dev inum t empty (none, e) =
    ((j : ℕ) → ip ≤ j → j < ip + n → holds dev inum (t j) ≡ false) × Free n ip t empty e

Free-here :
    (n ip : ℕ) (t : ℕ → Inode) (o : Option ℕ)
    → (t ip).ref ≡ 0
    → Free n (ip + 1) t (some ip) o
    → Free (suc n) ip t none o
unfolding Free
Free-here n ip t o z e = subst (Free (suc n) ip t none) (sym e) (omega arith, z)

Free-there :
    (n ip : ℕ) (t : ℕ → Inode) (o : Option ℕ)
    → 0 < (t ip).ref
    → Free n (ip + 1) t none o
    → Free (suc n) ip t none o
unfolding Free
Free-there n ip t none u l = λ j lo hi. elim (Bool-cases (j == ip)) [
  | inl e ↦ let same : j ≡ ip = ground (arith, e) in rw same u
  | inr e ↦ l j (ground (arith, e, lo)) (omega (arith, hi))
]
Free-there n ip t (some e) u l = (omega (arith, l.0), l.1)

Free-more :
    (n ip : ℕ) (t : ℕ → Inode) (e : ℕ) (o : Option ℕ)
    → Free n (ip + 1) t (or_empty (some e) ip (t ip).ref) o
    → Free (suc n) ip t (some e) o
unfolding Free or_empty
Free-more n ip t e o l = l

-- No entry holds it from `ip` on, if `ip` does not and none does from the next on.
not_from :
    (n ip : ℕ) (dev inum : ℕ) (t : ℕ → Inode)
    → holds dev inum (t ip) ≡ false
    → ((j : ℕ) → ip + 1 ≤ j → j < ip + 1 + n → holds dev inum (t j) ≡ false)
    → (j : ℕ) → ip ≤ j
    → j < ip + suc n
    → holds dev inum (t j) ≡ false
not_from n ip dev inum t here later j lo hi = elim (Bool-cases (j == ip)) [
  | inl e ↦ let same : j ≡ ip = ground (arith, e) in ap (λ k. holds dev inum (t k)) same ∙ here
  | inr e ↦ later j (ground (arith, e, lo)) (omega (arith, hi))
]

-- One round more, where entry `ip` is not the inode's.
Free-later :
    (n ip : ℕ) (t : ℕ → Inode) (o : Option ℕ)
    → Free n (ip + 1) t (or_empty none ip (t ip).ref) o
    → Free (suc n) ip t none o
unfolding Free or_empty
Free-later n ip t o l = elim (Bool-cases ((t ip).ref == 0)) [
  | inl e ↦
      Free-here n ip t o (ground (arith, e))
        (subst (λ b. Free n (ip + 1) t (if b then some ip else none) o) e l)
  | inr e ↦
      Free-there n ip t o (ground (arith, e))
        (subst (λ b. Free n (ip + 1) t (if b then some ip else none) o) e l)
]

Looked-later :
    (n ip dev inum : ℕ) (t : ℕ → Inode) (empty : Option ℕ) (r : Option ℕ × Option ℕ)
    → holds dev inum (t ip) ≡ false
    → Looked n (ip + 1) dev inum t (or_empty empty ip (t ip).ref) r
    → Looked (suc n) ip dev inum t empty r
unfolding Looked
Looked-later n ip dev inum t empty (some i, e) h l = (ground (arith, l.0), l.1)
Looked-later n ip dev inum t (some e) (none, o) h l =
    (not_from n ip dev inum t h l.0, Free-more n ip t e o l.1)
Looked-later n ip dev inum t none (none, o) h l =
    (not_from n ip dev inum t h l.0, Free-later n ip t o l.1)

iget_loop-Looked :
    (n ip dev inum : ℕ) (t : ℕ → Inode) (empty : Option ℕ)
    → Looked n ip dev inum t empty (iget_loop n ip dev inum empty t)
unfolding iget_loop Looked Free
iget_loop-Looked zero ip dev inum t (some e) = (λ j lo hi. absurd (omega (arith, lo, hi)), refl)
iget_loop-Looked zero ip dev inum t none =
    (λ j lo hi. absurd (omega (arith, lo, hi)), λ j lo hi. absurd (omega (arith, lo, hi)))
iget_loop-Looked (suc n) ip dev inum t empty = elim (Bool-cases (holds dev inum (t ip))) [
  | inl e ↦ rw e (omega arith, e)
  | inr e ↦ rw e (
      Looked-later n ip dev inum t empty _ e
        (iget_loop-Looked n (ip + 1) dev inum t (or_empty empty ip (t ip).ref)))
]

iget_entry-Ends :
    (dev inum : ℕ) (s : FsState) (r : Option ℕ × Option ℕ)
    → Unique s
    → Looked ninode 0 dev inum s.inode none r
    → Ends dev inum s (iget_entry dev inum s r)
unfolding iget_entry Ends Looked Free Unique holds
iget_entry-Ends dev inum s (some ip, e) u l = inl (
  ip,
  _,
  refl,
  record {
    inside = l.0;
    its = ground (arith, l.1);
    counted = ground arith;
    kept = inl (ground arith);
    others = λ a f. ground (arith, f);
    same_blocks = refl;
    same_log = refl;
    unique = λ a b ha hb hr h. ground (arith, u a b, ha, hb, hr, h, l.1);
  },
)
iget_entry-Ends dev inum s (none, none) u l =
    inr (refl, λ a h. (ground (arith, l.1 a, h), ground (arith, l.0 a, h)))
iget_entry-Ends dev inum s (none, some ip) u l = inl (
  ip,
  _,
  refl,
  record {
    inside = l.1.0;
    its = ground arith;
    counted = ground (arith, l.1.1);
    kept = inr (l.1.1, ground arith);
    others = λ a f. ground (arith, f);
    same_blocks = refl;
    same_log = refl;
    unique = λ a b ha hb hr h. ground (arith, u a b, ha, hb, hr, h, l.0 a, l.0 b);
  },
)

-- `iget` on a table in which no two entries in use are for the same inode: it ends. Either it
-- returns an entry for the inode with one more reference, which was in use for it and is else as
-- before, or had no reference and is now marked as not read; no other entry, no block and no record
-- of the log changes, and still no two entries in use are for the same inode. Or it panics, and
-- then all entries are in use for other inodes.
pub iget-Ends : (dev inum : ℕ) (s : FsState) → Unique s → Ends dev inum s (iget dev inum s)
unfolding iget
iget-Ends dev inum s u =
    iget_entry-Ends dev inum s _ u (iget_loop-Looked ninode 0 dev inum s.inode none)
