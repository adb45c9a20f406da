-- ===== src/Pipe/Tests.antt =====
-- A pipe whose counters are about to wrap, and a caller with one user page.
use mitcppos.Prelude.{
  ℕ, zero, suc, ◌∙◌, Bool-cases, inl, inr, ◌<◌, ◌≡◌, ◌≢◌, refl, ap, fun_ext, true, false, Option,
  some, none, List, [], ◌==◌, if◌then◌else◌, ok, arith,
}
use mitcppos.Prelude.Int.{ℤ}
use mitcppos.Mem.{Mem, store, store_le, load_le}
use mitcppos.Kalloc.{Kmem}
use mitcppos.Vm.{make_pte, walkaddr, walk_loop}
use mitcppos.Vm.User.{copyin}
use mitcppos.Vm.User.Fetch.{Source, Brought, copyin-Brought}
use mitcppos.Vm.User.Bytes.{user_byte, user_addr}
use mitcppos.Pipe.{State, Turn, pipewrite_loop, piperead_loop}
use mitcppos.Pipe.Queue.{Ring, count}
use mitcppos.Pipe.Read.{Target, Reads, Stopped, piperead_loop-Stopped}
use mitcppos.Pipe.Write.{Buffer, Ended, pipewrite_loop-Ended}

-- three tables, and a page at 0x87ff9000 with the bytes 7 and 9 at 5 and 6
abbrev user_mem : Mem
user_mem =
    store_le 8
      (store_le 8
        (store_le 8 (store (store (λ _. 0) 0x87ff9005 7) 0x87ff9006 9) 0x87fff000
          (make_pte 0x87ffe000 0))
        0x87ffe000 (make_pte 0x87ffd000 0))
      0x87ffd000 (make_pte 0x87ff9000 22)

abbrev user_kmem : Kmem
user_kmem = record { mem = user_mem; freelist = 0 }

abbrev one_byte : State
one_byte = record {
  pipe = record { buf = λ _. 3; nread = 0xffffffff; nwrite = 0; readopen = true; writeopen = true };
  kmem = user_kmem;
  woken = [];
}

abbrev two_bytes : ℕ → Option ℕ
two_bytes i = if i == 0 then some 7 else some 9

one_byte-Ring : Ring one_byte.pipe
unfolding count
one_byte-Ring = record { nread_fits = omega arith; nwrite_fits = omega arith; fits = omega arith }

user_byte_first :
    (c : ℕ) → user_byte 0x87fff000 5 (record user_kmem { mem = store user_mem 256 c }) ≡ some 7
unfolding user_byte user_addr walkaddr walk_loop load_le store_le
user_byte_first c = refl

user_byte_second :
    (c : ℕ) → user_byte 0x87fff000 6 (record user_kmem { mem = store user_mem 256 c }) ≡ some 9
unfolding user_byte user_addr walkaddr walk_loop load_le store_le
user_byte_second c = refl

only_at_pt :
    (m m' : Mem) → ((a : ℕ) → a ≢ 256 → m a ≡ m' a) → (a : ℕ) → m a ≡ store m' 256 (m 256) a
only_at_pt m m' h a = elim (Bool-cases (a == 256)) [
  | inl e ↦ rw e (ap m (ground (arith, e)))
  | inr e ↦ rw e (h a (ground (arith, e)))
]

only_at : (m m' : Mem) → ((a : ℕ) → a ≢ 256 → m a ≡ m' a) → m ≡ store m' 256 (m 256)
only_at m m' h = fun_ext (λ a. only_at_pt m m' h a)

two_bytes-Buffer : Buffer 0x87fff000 256 5 two_bytes 2 user_kmem
unfolding Buffer
two_bytes-Buffer m same zero h =
    ap (λ x. user_byte 0x87fff000 5 (record user_kmem { mem = x })) (only_at m user_mem same)
    ∙ user_byte_first (m 256)
two_bytes-Buffer m same (suc zero) h =
    ap (λ x. user_byte 0x87fff000 6 (record user_kmem { mem = x })) (only_at m user_mem same)
    ∙ user_byte_second (m 256)
two_bytes-Buffer m same (suc (suc i)) h = absurd (omega (arith, h))

pipewrite_loop-Ended_example :
    (xs : List ℕ) × (t : Turn) × (pipewrite_loop 0x87fff000 256 false 5 2 0 one_byte ≡ ok t)
    × Ended 256 two_bytes 2 0 xs one_byte t
pipewrite_loop-Ended_example =
    pipewrite_loop-Ended 0x87fff000 256 5 two_bytes 2 2 0 one_byte refl one_byte-Ring refl
      two_bytes-Buffer

abbrev slot : ℕ → Option ℕ
slot i = if i == 0 then some 0x87ff9005 else none

user_addr_slot :
    (c x : ℕ)
    → user_addr 0x87fff000 5 (record user_kmem { mem = store (store user_mem 256 c) 0x87ff9005 x })
      ≡ some 0x87ff9005
unfolding user_addr walkaddr walk_loop load_le store_le
user_addr_slot c x = refl

agrees :
    (m : Mem)
    → ((a : ℕ) → a ≢ 256 → ((j : ℕ) → j < 1 → slot j ≢ some a) → m a ≡ user_mem a)
    → (a : ℕ) → m a ≡ store (store user_mem 256 (m 256)) 0x87ff9005 (m 0x87ff9005) a
agrees m h a = elim (Bool-cases (a == 0x87ff9005)) [
  | inl e ↦ rw e (ap m (ground (arith, e)))
  | inr e ↦ elim (Bool-cases (a == 256)) [
    | inl f ↦ rw (e, f) (ap m (ground (arith, f)))
    | inr f ↦
        let other : (j : ℕ) → j < 1 → slot j ≢ some a = λ j b. ground (arith, e) in
        rw (e, f) (h a (ground (arith, f)) other)
  ]
]

slot-Target : Target 0x87fff000 256 5 slot 1 user_kmem
slot-Target = record {
  mapped = λ m same i h.
      let first : i ≡ 0 = omega (arith, h) in
      let memory : m ≡ store (store user_mem 256 (m 256)) 0x87ff9005 (m 0x87ff9005) =
        fun_ext (agrees m same) in
      rw first (
        ap (λ x. user_addr 0x87fff000 5 (record user_kmem { mem = x })) memory
        ∙ user_addr_slot (m 256) (m 0x87ff9005));
  apart = λ i j a h g e f. omega (arith, h, g);
  clear = λ j h e. ground (arith, e);
}

piperead_loop-Stopped_example :
    (xs : List ℕ) × (i : ℕ) × (s : State) × (piperead_loop 0x87fff000 256 false 5 1 0 one_byte
      ≡ ok (i, s))
    × Reads 256 slot 1 0 xs one_byte s
    × Stopped slot 1 0 xs (i, s)
piperead_loop-Stopped_example =
    piperead_loop-Stopped 0x87fff000 256 5 slot 1 1 0 one_byte refl one_byte-Ring slot-Target

one_byte-Source : Source 0x87fff000 256 5 1 two_bytes user_kmem
unfolding Source
one_byte-Source m kept zero h =
    ap (λ x. user_byte 0x87fff000 5 (record user_kmem { mem = x }))
      (only_at m user_mem (λ a ne. kept a (ground (arith, ne))))
    ∙ user_byte_first (m 256)
one_byte-Source m kept (suc i) h = absurd (omega (arith, h))

copyin-Brought_example :
    (r : ℤ × Kmem) × (copyin 0x87fff000 256 5 1 user_kmem ≡ ok r)
    × Brought 256 1 two_bytes user_kmem r
copyin-Brought_example = copyin-Brought 0x87fff000 256 5 1 two_bytes user_kmem one_byte-Source
