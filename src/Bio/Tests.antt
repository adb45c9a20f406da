-- ===== src/Bio/Tests.antt =====
-- The cache as `binit` leaves it.
use mitcppos.Prelude.{false}
use mitcppos.Sleeplock.{initsleeplock}
use mitcppos.Bio.{Bcache, binit, bget}
use mitcppos.Bio.Init.{binit-Lru, binit-dev}
use mitcppos.Bio.Lookup.{Unique, Ends, bget-Ends}

-- what the loader leaves in `bcache`
abbrev zeroed : Bcache
zeroed = record {
  buf = λ b. record {
    valid = false;
    dev = 0;
    blockno = 0;
    lock = initsleeplock;
    refcnt = 0;
    prev = 0;
    next = 0;
    contents = λ i. 0;
  };
  disk = λ dev blockno i. 0;
}

zeroed-Unique : Unique (binit zeroed)
unfolding Unique
zeroed-Unique x y hx hy h e = absurd (h (binit-dev zeroed x))

bget-Ends_example : Ends 1 33 (binit zeroed) (bget 1 33 (binit zeroed))
bget-Ends_example = bget-Ends 1 33 (binit zeroed) (binit-Lru zeroed) zeroed-Unique
