-- ===== src/Log/Header.antt =====
-- The header block: what `write_head` writes is what `read_head` reads.
use mitcppos.Prelude.{ℕ, ◌+◌, ◌*◌, ◌≤◌, ◌<◌, ◌^◌, ◌≡◌, refl, ◌∙◌, arith, List, [], ◌∷◌, length, inl}
use mathlib.Core.Path.{ap₂}
use mitcppos.Mem.{load32, store32, load-store_self, load-store_outside}
use mitcppos.Log.{Block, get_blocks, put_blocks, header, set_header}

-- block numbers are of type `uint`
abbrev pub AreWords : List ℕ → Type 0
AreWords [] = Unit
AreWords (b ∷ bs) = (b < 2 ^ 32) × AreWords bs

load-put_blocks :
    (i : ℕ) (bs : List ℕ) (d : Block) (a : ℕ)
    → a + 4 ≤ 4 + 4 * i
    → load32 (put_blocks i bs d) a ≡ load32 d a
unfolding put_blocks
load-put_blocks i [] d a h = refl
load-put_blocks i (b ∷ bs) d a h =
    load-put_blocks (i + 1) bs (store32 d (4 + 4 * i) b) a (omega arith)
    ∙ load-store_outside 4 4 d (4 + 4 * i) a b (inl h)

get-put_blocks :
    (i : ℕ) (bs : List ℕ) (d : Block)
    → AreWords bs
    → get_blocks (length bs) i (put_blocks i bs d) ≡ bs
unfolding get_blocks put_blocks
get-put_blocks i [] d w = refl
get-put_blocks i (b ∷ bs) d (w, ws) =
    let d' = store32 d (4 + 4 * i) b in
    ap₂ ◌∷◌
      (load-put_blocks (i + 1) bs d' (4 + 4 * i) (omega arith)
        ∙ load-store_self 4 d (4 + 4 * i) b (omega arith))
      (get-put_blocks (i + 1) bs d' ws)

-- For fewer than 2^32 block numbers of 32 bits each, the header that `write_head` writes is read
-- back by `read_head` as the same list of block numbers.
pub header-set_header :
    (bs : List ℕ) (d : Block) → AreWords bs → length bs < 2 ^ 32 → header (set_header bs d) ≡ bs
unfolding header set_header
header-set_header bs d w small =
    let n : load32 (put_blocks 0 bs (store32 d 0 (length bs))) 0 ≡ length bs =
      load-put_blocks 0 bs (store32 d 0 (length bs)) 0 (omega arith)
      ∙ load-store_self 4 d 0 (length bs) (omega arith) in
    rw n (get-put_blocks 0 bs (store32 d 0 (length bs)) w)
