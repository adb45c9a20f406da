-- ===== src/Console/Output/Stream.antt =====
-- What `consolewrite` of kernel/console.c puts into the ring of kernel/uart.c.
use mitcppos.Prelude.{
  ℕ, zero, suc, ◌+◌, ◌%◌, ◌^◌, ◌<◌, ◌≤◌, ◌≡◌, ◌≢◌, ◌⊎◌, refl, sym, ap, ◌∙◌, Bool, false, List, [],
  ◌∷◌, ◌++◌, Outcome, ok, length, arith,
}
use mathlib.Core.Path.{subst}
use mathlib.Core.List.{append_assoc, append-nil}
use mitcppos.Prelude.Int.{pos}
use mitcppos.Mem.{Mem, store}
use mitcppos.Str.Copy.{memmove_byte}
use mitcppos.Kalloc.{Kmem}
use mitcppos.Proc.Memory.{either_copyin}
use mitcppos.Uart.{Uart, uart_tx_buf_size, Put}
use mitcppos.Uart.Fifo.{Ready, Sends, no_room, queued, stream, pending, uartputc-Sends}
use mitcppos.Console.Output.{
  Written, done, asleep, put_byte, write_byte, consolewrite_loop, consolewrite,
}

-- The `n` bytes from `a` on.
unfoldable pub bytes : Mem → (a n : ℕ) → List ℕ
bytes m a zero = []
bytes m a (suc n) = m a ∷ bytes m (a + 1) n

-- How the loop ends, with `left` bytes to write from byte `i` on, at `a`.
pub data Streamed (c_at a left i : ℕ) (u : Uart) (k : Kmem) : Written → Type 0 where
  all_written :
      (j : ℕ) (u' : Uart) (k' : Kmem)
      → j ≡ i + left
      → stream u' ≡ stream u ++ bytes k.mem a left
      → Ready u'
      → ((b : ℕ) → b ≢ c_at → k'.mem b ≡ k.mem b)
      → Streamed c_at a left i u k (done j u' k')
  waits :
      (n j : ℕ) (u' : Uart) (k' : Kmem)
      → n < left
      → j ≡ i + n
      → stream u' ≡ stream u ++ bytes k.mem a n
      → length (pending u') ≡ uart_tx_buf_size
      → Ready u'
      → ((b : ℕ) → b ≢ c_at → k'.mem b ≡ k.mem b)
      → Streamed c_at a left i u k (asleep j u' k')

bytes_same :
    (m m' : Mem) (c_at a n : ℕ)
    → (c_at < a) ⊎ (a + n ≤ c_at)
    → ((b : ℕ) → b ≢ c_at → m' b ≡ m b)
    → bytes m' a n ≡ bytes m a n
unfolding bytes
bytes_same m m' c_at a zero apart same = refl
bytes_same m m' c_at a (suc n) apart same =
    let here : m' a ≡ m a = same a (ground (arith, apart)) in
    rw here (ap (m a ∷◌) (bytes_same m m' c_at (a + 1) n (ground (arith, apart)) same))

module _ (pagetable c_at src : ℕ) (idle : ℕ → List Bool) where
  -- The byte at `a` is in the local variable.
  abbrev fetched : (a : ℕ) → Kmem → Kmem
  fetched a k = record k { mem = store k.mem c_at (k.mem a) }

  fetched-same : (a : ℕ) (k : Kmem) (b : ℕ) → b ≢ c_at → (fetched a k).mem b ≡ k.mem b
  fetched-same a k b ne = ground (arith, ne)

  -- One byte in front of the rest.
  one_more :
      (a left i : ℕ) (u u' : Uart) (k : Kmem) (w : Written)
      → (c_at < a) ⊎ (a + suc left ≤ c_at)
      → stream u' ≡ stream u ++ k.mem a ∷ []
      → Streamed c_at (a + 1) left (i + 1) u' (fetched a k) w
      → Streamed c_at a (suc left) i u k w
  unfolding bytes
  one_more a left i u u' k _ apart first (all_written j u'' k'' e st ready same) =
      let tail =
        bytes_same k.mem (fetched a k).mem c_at (a + 1) left (ground (arith, apart))
          (fetched-same a k) in
      all_written j u'' k'' (omega (arith, e))
        (st
          ∙ ap (stream u' ++◌) tail
          ∙ ap (◌++ bytes k.mem (a + 1) left) first
          ∙ append_assoc (stream u) (k.mem a ∷ []) (bytes k.mem (a + 1) left))
        ready (λ b ne. same b ne ∙ fetched-same a k b ne)
  one_more a left i u u' k _ apart first (waits n j u'' k'' lt e st full ready same) =
      let tail =
        bytes_same k.mem (fetched a k).mem c_at (a + 1) n (ground (arith, apart, lt))
          (fetched-same a k) in
      waits (suc n) j u'' k'' (omega (arith, lt)) (omega (arith, e))
        (st
          ∙ ap (stream u' ++◌) tail
          ∙ ap (◌++ bytes k.mem (a + 1) n) first
          ∙ append_assoc (stream u) (k.mem a ∷ []) (bytes k.mem (a + 1) n))
        full ready (λ b ne. same b ne ∙ fetched-same a k b ne)

  copied : (a : ℕ) (k : Kmem) → either_copyin pagetable c_at false a 1 k ≡ ok (pos 0, fetched a k)
  unfolding either_copyin
  copied a k = rw (memmove_byte k.mem c_at a) refl

  -- The outcome of a run from byte `i` on.
  unfoldable pub Streams : (a left i : ℕ) (u : Uart) (k : Kmem) → Outcome Written → Type 0
  Streams a left i u k o = (w : Written) × (o ≡ ok w) × Streamed c_at a left i u k w

  turn :
      (a left i : ℕ) (u : Uart) (k : Kmem) (more : Uart → Kmem → Outcome Written) (p : Put)
      → (c_at < a) ⊎ (a + suc left ≤ c_at)
      → Ready u
      → Sends (k.mem a) (idle i) u p
      → ((u' : Uart)
          → Ready u'
          → u'.tx_w ≡ u.tx_w + 1
          → Streams (a + 1) left (i + 1) u' (fetched a k) (more u' (fetched a k)))
      → Streams a (suc left) i u k (put_byte pagetable c_at false src idle more i (fetched a k) p)
  unfolding Streams put_byte bytes
  turn a left i u k more _ apart ready (no_room full) next = (
    asleep i u (fetched a k),
    refl,
    waits 0 i u (fetched a k) (omega arith) (omega arith) (sym (append-nil (stream u))) full ready
        (fetched-same a k),
  )
  turn a left i u k more _ apart ready (queued u' lt st len ready' grows) next =
      let (w, ends, its) = next u' ready' grows in
      (w, ends, one_more a left i u u' k w apart st its)

  loop-Streams :
      (left i : ℕ) (u : Uart) (k : Kmem)
      → (c_at < src + i) ⊎ (src + i + left ≤ c_at)
      → src + i + left < 2 ^ 64
      → Ready u
      → u.tx_w + left + uart_tx_buf_size < 2 ^ 64
      → Streams (src + i) left i u k (consolewrite_loop pagetable c_at false src idle left i u k)
  unfolding Streams consolewrite_loop bytes write_byte
  loop-Streams zero i u k apart fits ready early = (
    done i u k,
    refl,
    all_written i u k (omega arith) (sym (append-nil (stream u))) ready (λ b ne. refl),
  )
  loop-Streams (suc left) i u k apart fits ready early =
      let at : (src + i) % 2 ^ 64 ≡ src + i = omega (arith, fits) in
      let c : (fetched (src + i) k).mem c_at ≡ k.mem (src + i) = ground arith in
      let next : src + i + 1 ≡ src + (i + 1) = omega arith in
      rw (at, copied (src + i) k, c)
        (turn (src + i) left i u k (consolewrite_loop pagetable c_at false src idle left (i + 1)) _
          apart ready (uartputc-Sends (k.mem (src + i)) (idle i) u ready (omega (arith, early)))
          (λ u' ready' grows. rw next (
            loop-Streams left (i + 1) u' (fetched (src + i) k) (ground (arith, apart))
              (omega (arith, fits)) ready' (omega (arith, early, grows)))))

-- One turn of `consolewrite` of `n` bytes of kernel memory apart from its local character, on a
-- well-formed ring of the UART long before its indices wrap, whatever the device answers: either it
-- writes all bytes, and the characters sent and waiting, in order, are what they were with those
-- bytes behind them; or it falls asleep at a byte before the end, with the bytes before it added
-- so, and then the ring is full. The ring stays well-formed, and no memory but the local character
-- changes.
pub consolewrite-Streams :
    (pagetable c_at src : ℕ) (idle : ℕ → List Bool) (n : ℕ) (u : Uart) (k : Kmem)
    → (c_at < src) ⊎ (src + n ≤ c_at)
    → src + n < 2 ^ 64
    → Ready u
    → u.tx_w + n + uart_tx_buf_size < 2 ^ 64
    → (w : Written) × (consolewrite pagetable c_at false src idle (pos n) u k ≡ ok w)
      × Streamed c_at src n 0 u k w
unfolding consolewrite Streams
consolewrite-Streams pagetable c_at src idle n u k apart fits ready early =
    let at : src + 0 ≡ src = omega arith in
    let (w, ends, its) =
      loop-Streams pagetable c_at src idle n 0 u k (ground (arith, apart)) (omega (arith, fits))
        ready early in
    (w, ends, subst (λ a. Streamed c_at a n 0 u k w) at its)
