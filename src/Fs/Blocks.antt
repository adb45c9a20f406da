-- ===== src/Fs/Blocks.antt =====
-- kernel/fs.c: the bitmap of used blocks.
use Prim.Native.Nat.{bit_or}
use mitcppos.Prelude.{
  ℕ, zero, suc, ◌+◌, ◌-◌, ◌*◌, ◌/◌, ◌%◌, ◌^◌, Bool, true, false, not, Option, none, some, ltb, ◌==◌,
  if◌then◌else◌, Outcome, ok, panic,
}
use mitcppos.Mem.{Mem, store}
use mitcppos.Str.{memset}
use mitcppos.Riscv.{flag}
use mitcppos.Log.{bsize}
use mitcppos.Fs.{Superblock, FsState, bpb, bblock, log_block}
pub mod Bits
pub mod Search
pub mod Alloc

unfoldable pub bzero : (bno : ℕ) → FsState → FsState
bzero bno s = log_block bno (memset (s.block bno) 0 0 bsize) s

-- `(bp->bytes[bi/8] & m) != 0`, with `m = 1 << (bi % 8)`
abbrev pub test_bit : Mem → (bi : ℕ) → Bool
test_bit bytes bi = flag (bytes (bi / 8)) (2 ^ (bi % 8))

-- `bp->bytes[bi/8] |= m`
abbrev pub set_bit : Mem → (bi : ℕ) → Mem
set_bit bytes bi = store bytes (bi / 8) (bit_or (bytes (bi / 8)) (2 ^ (bi % 8)))

-- `bp->bytes[bi/8] &= ~m`, where the bit is set
abbrev pub clear_bit : Mem → (bi : ℕ) → Mem
clear_bit bytes bi = store bytes (bi / 8) (bytes (bi / 8) - 2 ^ (bi % 8))

-- The inner loop of `balloc` with `n` rounds left: the first clear bit from `bi` on.
unfoldable pub clear_from : (n bi : ℕ) → Mem → Option ℕ
clear_from zero bi bytes = none
clear_from (suc n) bi bytes =
    let rest = clear_from n (bi + 1) bytes in if test_bit bytes bi then rest else some bi

module _ (sb : Superblock) where
  -- The rounds of the inner loop for the block of the bitmap that begins with bit `b`.
  abbrev pub bits_here : (b : ℕ) → ℕ
  bits_here b = if ltb (sb.size - b) bpb then sb.size - b else bpb

  -- What `balloc` does with the result of the inner loop.
  unfoldable pub balloc_at :
      (b : ℕ) → FsState → (rest : Outcome (ℕ × FsState)) → Option ℕ → Outcome (ℕ × FsState)
  balloc_at b s rest none = rest
  balloc_at b s rest (some bi) =
      let bp = bblock sb b in ok (b + bi, bzero (b + bi) (log_block bp (set_bit (s.block bp) bi) s))

  -- The outer loop with `n` rounds left.
  unfoldable pub balloc_loop : (n b : ℕ) → FsState → Outcome (ℕ × FsState)
  balloc_loop zero b s = panic "balloc: out of blocks"
  balloc_loop (suc n) b s =
      balloc_at b s (balloc_loop n (b + bpb) s) (clear_from (bits_here b) 0 (s.block (bblock sb b)))

  unfoldable pub balloc : FsState → Outcome (ℕ × FsState)
  balloc s = balloc_loop ((sb.size + bpb - 1) / bpb) 0 s

  pub bfree : (b : ℕ) → FsState → Outcome FsState
  bfree b s =
      let bp = bblock sb b in
      if not (test_bit (s.block bp) (b % bpb))
      then panic "freeing free block"
      else ok (log_block bp (clear_bit (s.block bp) (b % bpb)) s)
