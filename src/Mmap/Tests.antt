-- ===== src/Mmap/Tests.antt =====
-- A process with one region, that maps a second file.
use mitcppos.Prelude.{
  ℕ, suc, zero, ◌≡◌, refl, sym, ◌∙◌, true, false, [], ◌∷◌, ok, arith, some, get_elem?,
}
use mitcppos.Prelude.Int.{pos}
use mitcppos.File.{Ftable, fd_inode}
use mitcppos.Mmap.{Mmapitem, State, new_item, sys_mmap, munmap_loop}
use mitcppos.Mmap.Shrink.{Found, Still, munmap_loop-Found}
use mitcppos.Mmap.Regions.{Regions, limit, Mapped, sys_mmap-Mapped}

abbrev shared_files : Ftable
shared_files = λ f. record {
  type = fd_inode;
  ref = 1;
  readable = true;
  writable = true;
  pipe = 0;
  ip = 256;
  off = 0;
  major = 0;
}

abbrev unused_item : Mmapitem
unused_item = record (new_item (pos 0) 0 0 0 0 0) { used = false }

abbrev one_region : State
one_region = record {
  sz = 12288;
  vma = new_item (pos 8192) 3 1 3 7 4096 ∷ unused_item ∷ [];
  files = shared_files;
}

only_first :
    (i : ℕ) (x : Mmapitem)
    → get_elem? one_region.vma i ≡ some x
    → x.used ≡ true
    → (i ≡ 0) × (limit x ≡ 12288)
only_first zero x e u = (refl, ground (arith, e))
only_first (suc zero) x e u = absurd (ground (arith, e, u))
only_first (suc (suc i)) x e u = absurd (ground (arith, e))

one_region-Regions : Regions one_region.sz one_region.vma
one_region-Regions = record {
  below = λ i x e u. omega (arith, (only_first i x e u).1);
  apart = λ i j x y e f u w ne. absurd (ne ((only_first i x e u).0 ∙ sym (only_first j y f w).0));
}

sys_mmap-Mapped_example :
    (s' : State) × (k : ℕ) × (sys_mmap 0 (pos 4096) 3 1 4 9 (pos 0) one_region ≡ ok (12288, s'))
    × Mapped 4096 3 1 4 9 k one_region s'
sys_mmap-Mapped_example =
    sys_mmap-Mapped 4096 3 1 4 9 one_region 1 unused_item refl refl (omega arith) refl (omega arith)

munmap_loop-Found_example :
    Found 4096 4096 0 one_region.vma (munmap_loop 4096 (pos 4096) 0 one_region.vma)
    × Still 12288 (munmap_loop 4096 (pos 4096) 0 one_region.vma)
munmap_loop-Found_example =
    munmap_loop-Found 4096 4096 12288 one_region.vma one_region-Regions (omega arith)
