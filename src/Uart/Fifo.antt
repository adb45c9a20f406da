-- ===== src/Uart/Fifo.antt =====
-- The ring of kernel/uart.c sends the characters in the order in which it was given them.
use mitcppos.Prelude.{
  ℕ, suc, ◌+◌, ◌-◌, ◌%◌, ◌^◌, ◌<◌, ◌≤◌, ◌≡◌, ◌≢◌, refl, sym, ap, ◌∙◌, inl, inr, Bool, true, false,
  List, [], ◌∷◌, ◌++◌, ◌==◌, arith, Bool-cases, length,
}
use mathlib.Core.List.{reverse, reverse-cons, append_assoc}
use mitcppos.Prelude.Rings.{slice, slice_more, Turning, slice_store, length-slice}
use mitcppos.Uart.{
  uart_tx_buf_size, Uart, send_one, uartstart, Put, returns, sleeps, store_tx, uartputc,
}

-- The characters that wait.
unfoldable pub pending : Uart → List ℕ
pending u = slice uart_tx_buf_size (u.tx_w - u.tx_r) u.tx_r u.tx_buf

-- All characters so far, in order.
unfoldable pub stream : Uart → List ℕ
stream u = reverse u.sent ++ pending u

-- How many characters the device takes before it says no.
unfoldable pub accepted : List Bool → ℕ
accepted [] = 0
accepted (false ∷ idle) = 0
accepted (true ∷ idle) = accepted idle + 1

pub record Ready (u : Uart) : Type 0 where
  pub read : u.tx_r ≤ u.tx_w
  pub room : u.tx_w ≤ u.tx_r + uart_tx_buf_size
  pub early : u.tx_w < 2 ^ 64

-- The ring has sent characters from its front, as many as the device took.
pub record Started (idle : List Bool) (u u' : Uart) : Type 0 where
  pub same_stream : stream u' ≡ stream u
  pub fewer : length (pending u') ≡ length (pending u) - accepted idle
  pub ready : Ready u'
  pub same_end : u'.tx_w ≡ u.tx_w

turning : Turning uart_tx_buf_size
unfolding Turning
turning i j a b = ground (arith, a, b)

length-pending : (u : Uart) → length (pending u) ≡ u.tx_w - u.tx_r
unfolding pending
length-pending u = length-slice uart_tx_buf_size (u.tx_w - u.tx_r) u.tx_r u.tx_buf

module _ (u : Uart) (ready : Ready u) (more : u.tx_r ≢ u.tx_w) where
  next : (u.tx_r + 1) % 2 ^ 64 ≡ u.tx_r + 1
  next = ground (arith, more, ready.read, ready.early)

  pending_front : pending u ≡ u.tx_buf (u.tx_r % uart_tx_buf_size) ∷ pending (send_one u)
  unfolding pending slice
  pending_front =
      let one : u.tx_w - u.tx_r ≡ suc (u.tx_w - (u.tx_r + 1)) = ground (arith, more, ready.read) in
      rw (next, one) refl

  send_one-Ready : Ready (send_one u)
  send_one-Ready = record {
    read = ground (arith, next, more, ready.read);
    room = ground (arith, next, ready.room);
    early = ready.early;
  }

  stream_kept : stream (send_one u) ≡ stream u
  unfolding stream
  stream_kept =
      let c = u.tx_buf (u.tx_r % uart_tx_buf_size) in
      ap (λ l. l ++ pending (send_one u)) (reverse-cons c u.sent)
      ∙ append_assoc (reverse u.sent) (c ∷ []) (pending (send_one u))
      ∙ ap (λ l. reverse u.sent ++ l) (sym pending_front)

uartstart-Started : (idle : List Bool) (u : Uart) → Ready u → Started idle u (uartstart idle u)
unfolding uartstart accepted
uartstart-Started [] u ready = record {
  same_stream = refl;
  fewer = omega arith;
  ready = ready;
  same_end = refl;
}
uartstart-Started (false ∷ idle) u ready = record {
  same_stream = refl;
  fewer = omega arith;
  ready = ready;
  same_end = refl;
}
uartstart-Started (true ∷ idle) u ready = elim (Bool-cases (u.tx_w == u.tx_r)) [
  | inl e ↦ rw e (record {
    same_stream = refl;
    fewer = ground (arith, e, length-pending u);
    ready = ready;
    same_end = refl;
  })
  | inr e ↦
      let more : u.tx_r ≢ u.tx_w = ground (arith, e) in
      let r = uartstart-Started idle (send_one u) (send_one-Ready u ready more) in
      let one : length (pending u) ≡ suc (length (pending (send_one u))) =
        ap length (pending_front u ready more) in
      rw e (record {
        same_stream = r.same_stream ∙ stream_kept u ready more;
        fewer = omega (arith, r.fewer, one);
        ready = r.ready;
        same_end = r.same_end;
      })
]

module _ (c : ℕ) (u : Uart) (ready : Ready u) (space : u.tx_w ≢ u.tx_r + uart_tx_buf_size)
    (early : u.tx_w + 1 < 2 ^ 64) where
  after : (u.tx_w + 1) % 2 ^ 64 ≡ u.tx_w + 1
  after = omega (arith, early)

  store_tx-Ready : Ready (store_tx c u)
  store_tx-Ready = record {
    read = ground (arith, after, ready.read);
    room = ground (arith, after, space, ready.room);
    early = ground (arith, after, early);
  }

  pending_added : pending (store_tx c u) ≡ pending u ++ c ∷ []
  unfolding pending
  pending_added =
      let n = u.tx_w - u.tx_r in
      let buf = (store_tx c u).tx_buf in
      let longer : u.tx_w + 1 - u.tx_r ≡ suc n = omega (arith, ready.read) in
      let at : u.tx_r + n ≡ u.tx_w = omega (arith, ready.read) in
      let its : buf (u.tx_w % uart_tx_buf_size) ≡ c = ground arith in
      rw (after, longer)
        (slice_more uart_tx_buf_size n u.tx_r buf
          ∙ ap (λ k. slice uart_tx_buf_size n u.tx_r buf ++ buf (k % uart_tx_buf_size) ∷ []) at
          ∙ ap (λ x. slice uart_tx_buf_size n u.tx_r buf ++ x ∷ []) its
          ∙ ap (◌++ c ∷ []) (
              slice_store uart_tx_buf_size turning n u.tx_r u.tx_w c u.tx_buf
                (omega (arith, ready.read)) (omega (arith, ready.room, space))))

  stream_added : stream (store_tx c u) ≡ stream u ++ c ∷ []
  unfolding stream
  stream_added =
      ap (λ l. reverse u.sent ++ l) pending_added
      ∙ sym (append_assoc (reverse u.sent) (pending u) (c ∷ []))

-- What one turn of `uartputc` does.
pub data Sends (c : ℕ) (idle : List Bool) (u : Uart) : Put → Type 0 where
  no_room : length (pending u) ≡ uart_tx_buf_size → Sends c idle u (sleeps u)
  queued :
      (u' : Uart)
      → length (pending u) < uart_tx_buf_size
      → stream u' ≡ stream u ++ c ∷ []
      → length (pending u') ≡ length (pending u) + 1 - accepted idle
      → Ready u'
      → u'.tx_w ≡ u.tx_w + 1
      → Sends c idle u (returns u')

-- `uartputc` on a ring with at most 32 characters waiting, long before the indices wrap, whatever
-- the device answers: it goes to sleep exactly when 32 wait, and changes nothing; otherwise the
-- characters sent and then those waiting, in order, are what they were with the new one behind
-- them, as many leave the ring from its front as the device took, the ring stays well-formed, and
-- the index of its end is one higher.
pub uartputc-Sends :
    (c : ℕ) (idle : List Bool) (u : Uart)
    → Ready u
    → u.tx_w + uart_tx_buf_size < 2 ^ 64
    → Sends c idle u (uartputc c idle u)
unfolding uartputc
uartputc-Sends c idle u ready early =
    let full : (u.tx_r + uart_tx_buf_size) % 2 ^ 64 ≡ u.tx_r + uart_tx_buf_size =
      omega (arith, early, ready.read) in
    elim (Bool-cases (u.tx_w == u.tx_r + uart_tx_buf_size)) [
      | inl e ↦ rw (full, e) (no_room (ground (arith, e, length-pending u)))
      | inr e ↦
          let space : u.tx_w ≢ u.tx_r + uart_tx_buf_size = ground (arith, e) in
          let soon : u.tx_w + 1 < 2 ^ 64 = omega (arith, early) in
          let s = uartstart-Started idle (store_tx c u) (store_tx-Ready c u ready space soon) in
          let longer : length (pending (store_tx c u)) ≡ length (pending u) + 1 =
            length-pending (store_tx c u)
            ∙ ground (arith, after c u ready space soon, length-pending u, ready.read) in
          rw (full, e)
            (queued (uartstart idle (store_tx c u))
              (ground (arith, length-pending u, space, ready.room, ready.read))
              (s.same_stream ∙ stream_added c u ready space soon) (omega (arith, s.fewer, longer))
              s.ready (s.same_end ∙ after c u ready space soon))
    ]
