-- ===== src/Syscall/Fetch.antt =====
-- What `fetchstr` of kernel/syscall.c leaves in its buffer.
use mitcppos.Prelude.{ℕ, ◌<◌, ◌≡◌, refl, ok}
use mitcppos.Prelude.Int.{ℤ, pos, minus_one}
use mitcppos.Str.Length.{IsString, strlen-some}
use mitcppos.Kalloc.{Kmem}
use mitcppos.Vm.User.Strings.{Kept, Fetched, failed, fetched, Fetches, copyinstr-Fetches}
use mitcppos.Proc.{Proc}
use mitcppos.Syscall.{fetchstr, string_length}

-- What `fetchstr` does: -1, or the length of the string that now stands in the `max` bytes at `buf`.
pub data Got (buf max : ℕ) (k : Kmem) : ℤ × Kmem → Type 0 where
  nothing :
      (k' : Kmem)
      → k'.freelist ≡ k.freelist
      → Kept buf max k.mem k'.mem
      → Got buf max k (minus_one, k')
  string :
      (j : ℕ) (k' : Kmem)
      → j < max
      → IsString k'.mem buf j
      → k'.freelist ≡ k.freelist
      → Kept buf max k.mem k'.mem
      → Got buf max k (pos j, k')

measured :
    (buf max : ℕ) (k : Kmem) (r : ℤ × Kmem)
    → Fetched buf max k r
    → (v : ℤ × Kmem) × (string_length buf max r ≡ ok v) × Got buf max k v
unfolding string_length
measured buf max k _ (failed k' free kept) = ((minus_one, k'), refl, nothing k' free kept)
measured buf max k _ (fetched j k' lt str free kept) = (
  (pos j, k'),
  simp (string_length, strlen-some max k'.mem buf j lt str) refl,
  string j k' lt str free kept,
)

-- `fetchstr` returns, whatever stands at the user address. It returns -1, or the length of the
-- string that then stands at `buf`, which ends within its `max` bytes. It writes nowhere else.
pub fetchstr-Got :
    (p : Proc) (addr buf max : ℕ) (k : Kmem)
    → (v : ℤ × Kmem) × (fetchstr p addr buf max k ≡ ok v) × Got buf max k v
unfolding fetchstr Fetches
fetchstr-Got p addr buf max k =
    let (r, ends, its) = copyinstr-Fetches p.pagetable buf addr max k in
    rw ends (measured buf max k r its)
