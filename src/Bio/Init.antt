-- ===== src/Bio/Init.antt =====
-- `binit` of kernel/bio.c makes the ring of buffers, whatever memory held.
use mitcppos.Prelude.{
  ℕ, zero, suc, ◌+◌, ◌∙◌, ◌<◌, ◌≡◌, ◌↔◌, refl, true, some, List, [], ◌∷◌, has, arith,
}
use mitcppos.Riscv.{nbuf}
use mitcppos.Sleeplock.{initsleeplock}
use mitcppos.Bio.{Buf, Bcache, head, binit, binit_loop, link_front, put_buf, set_next, set_prev}
use mitcppos.Bio.Ring.{Lru, visit, next_of, prev_of, Complete}

abbrev down : List ℕ
down =
    29 ∷ 28 ∷ 27 ∷ 26 ∷ 25 ∷ 24 ∷ 23 ∷ 22 ∷ 21 ∷ 20 ∷ 19 ∷ 18 ∷ 17 ∷ 16 ∷ 15 ∷ 14 ∷ 13 ∷ 12 ∷ 11
    ∷ 10 ∷ 9 ∷ 8 ∷ 7 ∷ 6 ∷ 5 ∷ 4 ∷ 3 ∷ 2 ∷ 1 ∷ 0 ∷ []

abbrev up : List ℕ
up =
    0 ∷ 1 ∷ 2 ∷ 3 ∷ 4 ∷ 5 ∷ 6 ∷ 7 ∷ 8 ∷ 9 ∷ 10 ∷ 11 ∷ 12 ∷ 13 ∷ 14 ∷ 15 ∷ 16 ∷ 17 ∷ 18 ∷ 19 ∷ 20
    ∷ 21 ∷ 22 ∷ 23 ∷ 24 ∷ 25 ∷ 26 ∷ 27 ∷ 28 ∷ 29 ∷ []

has-down : (b : ℕ) → (has b down ≡ true) ↔ (b < nbuf)
has-down b = ground arith

has-up : (b : ℕ) → (has b up ≡ true) ↔ (b < nbuf)
has-up b = ground arith

binit_next :
    (c : Bcache) → visit (next_of (binit c)) (suc nbuf) ((binit c).buf head).next ≡ some down
unfolding visit binit binit_loop link_front
binit_next c = refl

binit_prev : (c : Bcache) → visit (prev_of (binit c)) (suc nbuf) ((binit c).buf head).prev ≡ some up
unfolding visit binit binit_loop link_front
binit_prev c = refl

-- Whatever the cache held before, `binit` leaves a ring: from the head, both along `next` and along
-- `prev`, one comes past every buffer and back to the head.
pub binit-Lru : (c : Bcache) → Lru (binit c)
unfolding Complete
binit-Lru c = record {
  forward = down;
  backward = up;
  visit_next = binit_next c;
  visit_prev = binit_prev c;
  all_forward = has-down;
  all_backward = has-up;
}

put_buf-dev :
    (b : ℕ) (v : Buf) (c : Bcache) (x : ℕ)
    → v.dev ≡ (c.buf b).dev
    → ((put_buf b v c).buf x).dev ≡ (c.buf x).dev
put_buf-dev b v c x e = ground (arith, e)

link_front-dev : (b : ℕ) (c : Bcache) (x : ℕ) → ((link_front b c).buf x).dev ≡ (c.buf x).dev
unfolding link_front
link_front-dev b c x =
    let c₁ = set_next b (c.buf head).next c in
    let c₂ = set_prev b head c₁ in
    let c₃ = set_prev (c₂.buf head).next b c₂ in
    put_buf-dev head _ c₃ x refl
    ∙ put_buf-dev (c₂.buf head).next _ c₂ x refl
    ∙ put_buf-dev b _ c₁ x refl
    ∙ put_buf-dev b _ c x refl

binit_loop-dev : (n b : ℕ) (c : Bcache) (x : ℕ) → ((binit_loop n b c).buf x).dev ≡ (c.buf x).dev
unfolding binit_loop
binit_loop-dev zero b c x = refl
binit_loop-dev (suc n) b c x =
    let c' = link_front b c in
    binit_loop-dev n (b + 1) (put_buf b (record (c'.buf b) { lock = initsleeplock }) c') x
    ∙ put_buf-dev b _ c' x refl
    ∙ link_front-dev b c x

pub binit-dev : (c : Bcache) (x : ℕ) → ((binit c).buf x).dev ≡ (c.buf x).dev
unfolding binit
binit-dev c x =
    let c₁ = set_prev head head c in
    binit_loop-dev nbuf 0 (set_next head head c₁) x
    ∙ put_buf-dev head _ c₁ x refl
    ∙ put_buf-dev head _ c x refl
