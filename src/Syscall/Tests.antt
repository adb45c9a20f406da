-- ===== src/Syscall/Tests.antt =====
-- A process without pages asks for a string.
use mitcppos.Prelude.{◌≡◌, refl, ok, some, [], none, false}
use mitcppos.Prelude.Int.{ℤ, pos, negsuc}
use mitcppos.Kalloc.{Kmem}
use mitcppos.Proc.{Proc, running, nowhere}
use mitcppos.Syscall.{fetchstr, to_int, call_of, call_mmap, syscalls}
use mitcppos.Syscall.Fetch.{Got, fetchstr-Got}

abbrev empty : Kmem
empty = record { mem = λ a. 0; freelist = 0 }

abbrev caller : Proc
caller = record {
  state = running;
  parent = none;
  chan = nowhere;
  killed = false;
  xstate = 0;
  pid = 1;
  kstack = 0;
  sz = 4096;
  pagetable = 8192;
  trapframe = 4096;
  context = record { ra = 0; sp = 0; saved = λ _. 0 };
  ofile = λ _. none;
  cwd = none;
  name = λ _. 0;
  vma = [];
}

int_of_ones : to_int 18446744073709551615 ≡ negsuc 0
unfolding to_int
int_of_ones = refl

call_22 : call_of (pos 22) ≡ some call_mmap
unfolding call_of syscalls
call_22 = refl

fetchstr-Got_example : (v : ℤ × Kmem) × (fetchstr caller 0 100 16 empty ≡ ok v) × Got 100 16 empty v
fetchstr-Got_example = fetchstr-Got caller 0 100 16 empty
