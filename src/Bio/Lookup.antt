-- ===== src/Bio/Lookup.antt =====
-- `bget` of kernel/bio.c: the one buffer for a block.
use mitcppos.Prelude.{
  ℕ, ◌+◌, ◌%◌, ◌<◌, ◌≡◌, ◌≢◌, ◌⊎◌, refl, true, false, Option, none, some, inl, inr, ◌==◌, arith,
  Outcome, ok, panic, ◌>>=◌, suc,
}
use mitcppos.Riscv.{nbuf}
use mitcppos.Bio.{Bcache, head, bget, bpin, recycle, find_unused, uint_size}
use mitcppos.Bio.Ring.{
  Lru, Complete, Found, same_block, find_block-Found, find_unused-Found, Lru-put_buf,
}

-- No two buffers hold the same block of a device other than 0, which `binit` leaves them with.
unfoldable pub Unique : Bcache → Type 0
Unique c =
    (a b : ℕ)
    → a < nbuf
    → b < nbuf
    → (c.buf a).dev ≢ 0
    → same_block (c.buf a).dev (c.buf a).blockno (c.buf b) ≡ true
    → a ≡ b

pub record Got (dev blockno b : ℕ) (c c' : Bcache) : Type 0 where
  pub inside : b < nbuf
  pub its_dev : (c'.buf b).dev ≡ dev
  pub its_blockno : (c'.buf b).blockno ≡ blockno
  pub counted : (c'.buf b).refcnt ≡ ((c.buf b).refcnt + 1) % uint_size
  pub stale :
      (same_block dev blockno (c.buf b) ≡ true)
      ⊎ (((c.buf b).refcnt ≡ 0) × ((c'.buf b).valid ≡ false))
  pub others : (a : ℕ) → a ≢ b → c'.buf a ≡ c.buf a
  pub lru : Lru c'
  pub unique : Unique c'

-- Neither the block nor a buffer that is not in use is there.
pub Exhausted : (dev blockno : ℕ) → Bcache → Type 0
Exhausted dev blockno c =
    (b : ℕ)
    → b < nbuf
    → (same_block dev blockno (c.buf b) ≡ false) × (((c.buf b).refcnt == 0) ≡ false)

Unique-bpin : (b : ℕ) (c : Bcache) → Unique c → Unique (bpin b c)
unfolding Unique bpin same_block
Unique-bpin b c u = λ x y hx hy hd e. ground (arith, u x y, hx, hy, hd, e)

Got-bpin :
    (dev blockno b : ℕ) (c : Bcache)
    → b < nbuf
    → same_block dev blockno (c.buf b) ≡ true
    → Lru c
    → Unique c
    → Got dev blockno b c (bpin b c)
unfolding bpin same_block
Got-bpin dev blockno b c h e l u = record {
  inside = h;
  its_dev = ground (arith, e);
  its_blockno = ground (arith, e);
  counted = ground arith;
  stale = inl e;
  others = λ a f. ground (arith, f);
  lru = Lru-put_buf c b _ refl refl l;
  unique = Unique-bpin b c u;
}

Unique-recycle :
    (dev blockno b : ℕ) (c : Bcache)
    → ((a : ℕ) → a < nbuf → same_block dev blockno (c.buf a) ≡ false)
    → Unique c
    → Unique (recycle dev blockno b c)
unfolding Unique recycle same_block
Unique-recycle dev blockno b c none_has u =
    λ x y hx hy hd e. ground (arith, u x y, none_has x, none_has y, hx, hy, hd, e)

Got-recycle :
    (dev blockno b : ℕ) (c : Bcache)
    → b < nbuf
    → (c.buf b).refcnt ≡ 0
    → ((a : ℕ) → a < nbuf → same_block dev blockno (c.buf a) ≡ false)
    → Lru c
    → Unique c
    → Got dev blockno b c (recycle dev blockno b c)
unfolding recycle
Got-recycle dev blockno b c h e none_has l u = record {
  inside = h;
  its_dev = ground arith;
  its_blockno = ground arith;
  counted = ground (arith, e);
  stale = inr (e, ground arith);
  others = λ a f. ground (arith, f);
  lru = Lru-put_buf c b _ refl refl l;
  unique = Unique-recycle dev blockno b c none_has u;
}

pub Ends : (dev blockno : ℕ) → Bcache → Outcome (ℕ × Bcache) → Type 0
Ends dev blockno c r =
    ((b : ℕ) × (c' : Bcache) × (r ≡ ok (b, c')) × Got dev blockno b c c')
    ⊎ ((r ≡ panic "bget: no buffers") × Exhausted dev blockno c)

module _ (dev blockno : ℕ) (c : Bcache) (l : Lru c) (u : Unique c) where
  not_cached :
      ((a : ℕ) → a < nbuf → same_block dev blockno (c.buf a) ≡ false)
      → (o : Option ℕ) → Found (λ a. (c.buf a).refcnt == 0) l.backward o
      → Ends dev blockno c
          (elim o [ none ↦ panic "bget: no buffers" | some b ↦ ok (b, recycle dev blockno b c) ])
  unfolding Ends Found Exhausted Complete
  not_cached h none found = inr (refl, λ b s. (h b s, found b ((l.all_backward b).1 s)))
  not_cached h (some b) (there, unused) = inl (
    b,
    recycle dev blockno b c,
    refl,
    Got-recycle dev blockno b c ((l.all_backward b).0 there) (ground (arith, unused)) h l u,
  )

  cached_or_not :
      (o : Option ℕ)
      → Found (λ a. same_block dev blockno (c.buf a)) l.forward o
      → Ends dev blockno c (elim o [
        | none ↦ find_unused (suc nbuf) (c.buf head).prev c >>= λ p. elim p [
          | none ↦ panic "bget: no buffers"
          | some b ↦ ok (b, recycle dev blockno b c)
        ]
        | some b ↦ ok (b, bpin b c)
      ])
  unfolding Ends Found Complete
  cached_or_not (some b) (there, same) =
      inl (b, bpin b c, refl, Got-bpin dev blockno b c ((l.all_forward b).0 there) same l u)
  cached_or_not none found =
      let (p, run, unused) =
        find_unused-Found (suc nbuf) (c.buf head).prev c l.backward l.visit_prev in
      rw run (not_cached (λ a h. found a ((l.all_forward a).1 h)) p unused)

  -- `bget` on a well-linked cache in which no two buffers hold the same block of a device other
  -- than 0: it ends. Either it returns a buffer for the block, with its reference count one higher,
  -- which held the block before or was unused and is now marked as not read; then no other buffer
  -- changes, the links are kept, and still no two buffers hold the same block. Or it panics, and
  -- then no buffer holds the block and none is unused.
  pub bget-Ends : Ends dev blockno c (bget dev blockno c)
  unfolding bget
  bget-Ends =
      let (o, run, found) =
        find_block-Found (suc nbuf) dev blockno (c.buf head).next c l.forward l.visit_next in
      rw run (cached_or_not o found)
