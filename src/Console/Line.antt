-- ===== src/Console/Line.antt =====
-- `consoleintr` of kernel/console.c as the editing of a line.
use mitcppos.Prelude.{
  ℕ, zero, suc, ◌+◌, ◌-◌, ◌*◌, ◌%◌, ◌^◌, ◌<◌, ◌≤◌, ◌≡◌, ◌≢◌, refl, inl, inr, sym, ap, ◌∙◌, false,
  not, ◌&&◌, ◌||◌, List, [], ◌∷◌, ◌++◌, ltb, ◌==◌, if◌then◌else◌, arith, Bool-cases, length,
}
use mitcppos.Prelude.Rings.{slice, slice_more, slice_join, length-slice, Turning, slice_store}
use mitcppos.Console.{
  input_buf, newline, ctrl_d, ctrl_h, ctrl_p, ctrl_u, Cons, rub_out, kill_line, append, commit_line,
  store_char, take_char, consoleintr,
}

-- The characters for `consoleread`, and those of the line that is being edited.
unfoldable pub queue : Cons → List ℕ
queue s = slice input_buf (s.w - s.r) s.r s.buf

unfoldable pub line : Cons → List ℕ
line s = slice input_buf (s.e - s.w) s.w s.buf

pub record Ready (s : Cons) : Type 0 where
  pub read : s.r ≤ s.w
  pub written : s.w ≤ s.e
  pub room : s.e ≤ s.r + input_buf
  pub one_line : (i : ℕ) → s.w ≤ i → i < s.e → s.buf (i % input_buf) ≢ newline

turning : Turning input_buf
unfolding Turning
turning i j a b = ground (arith, a, b)

drop_last : List ℕ → List ℕ
drop_last [] = []
drop_last (x ∷ []) = []
drop_last (x ∷ y ∷ l) = x ∷ drop_last (y ∷ l)

drop_last_added : (l : List ℕ) (x : ℕ) → drop_last (l ++ x ∷ []) ≡ l
unfolding drop_last
drop_last_added [] x = refl
drop_last_added (y ∷ []) x = refl
drop_last_added (y ∷ z ∷ l) x = ap (y ∷◌) (drop_last_added (z ∷ l) x)

-- A character at the end of the line, which it may complete.
typed : (c : ℕ) → List ℕ × List ℕ → List ℕ × List ℕ
typed c (q, l) =
    if c == newline || c == ctrl_d || length q + length l + 1 == input_buf
    then (q ++ (l ++ c ∷ []), [])
    else (q, l ++ c ∷ [])

-- A character that edits nothing.
taken : (c : ℕ) → List ℕ × List ℕ → List ℕ × List ℕ
taken c (q, l) =
    if not (c == 0) && ltb (length q + length l) input_buf
    then typed (if c == 13 then newline else c) (q, l)
    else (q, l)

-- What an input character does to the queue and the line.
pub edit : (c : ℕ) → List ℕ × List ℕ → List ℕ × List ℕ
edit c (q, l) =
    if c == ctrl_p
    then (q, l)
    else (if c == ctrl_u
        then (q, [])
        else (if c == ctrl_h || c == 127 then (q, drop_last l) else taken c (q, l)))

pub record Edits (s s' : Cons) (ends : List ℕ × List ℕ) : Type 0 where
  pub its_queue : queue s' ≡ ends.0
  pub its_line : line s' ≡ ends.1
  pub ready : Ready s'
  pub reader : s'.r ≡ s.r

module _ (s : Cons) (ok_s : Ready s) (early : s.e + 2 * input_buf < 2 ^ 32) where
  stays : Edits s s (queue s, line s)
  stays = record { its_queue = refl; its_line = refl; ready = ok_s; reader = refl }

  rubbed : s.e ≢ s.w → Edits s (rub_out s) (queue s, drop_last (line s))
  unfolding queue line
  rubbed ne =
      let back : (s.e + (2 ^ 32 - 1)) % 2 ^ 32 ≡ s.e - 1 =
        ground (arith, early, ne, ok_s.written) in
      let one : s.e - s.w ≡ suc (s.e - 1 - s.w) = ground (arith, ne, ok_s.written) in
      record {
        its_queue = refl;
        its_line =
            simp (back, one)
              (sym (
                ap drop_last (slice_more input_buf (s.e - 1 - s.w) s.w s.buf)
                ∙ drop_last_added (slice input_buf (s.e - 1 - s.w) s.w s.buf) _));
        ready = record {
          read = ok_s.read;
          written = ground (arith, back, ne, ok_s.written);
          room = ground (arith, back, ok_s.room);
          one_line = λ i a b. ok_s.one_line i a (ground (arith, b, back));
        };
        reader = refl;
      }

  queue_length : length (queue s) ≡ s.w - s.r
  unfolding queue
  queue_length = length-slice input_buf (s.w - s.r) s.r s.buf

  line_length : length (line s) ≡ s.e - s.w
  unfolding line
  line_length = length-slice input_buf (s.e - s.w) s.w s.buf

  module _ (c : ℕ) (room : s.e < s.r + input_buf) where
    next : (s.e + 1) % 2 ^ 32 ≡ s.e + 1
    next = omega (arith, early)

    queue_kept : slice input_buf (s.w - s.r) s.r (append c s).buf ≡ queue s
    unfolding queue
    queue_kept =
        slice_store input_buf turning (s.w - s.r) s.r s.e c s.buf
          (omega (arith, ok_s.read, ok_s.written)) room

    line_added : slice input_buf (suc (s.e - s.w)) s.w (append c s).buf ≡ line s ++ c ∷ []
    unfolding line
    line_added =
        let at : s.w + (s.e - s.w) ≡ s.e = omega (arith, ok_s.written) in
        let its : (append c s).buf (s.e % input_buf) ≡ c = ground arith in
        slice_more input_buf (s.e - s.w) s.w (append c s).buf
        ∙ ap
            (λ k.
              slice input_buf (s.e - s.w) s.w (append c s).buf
              ++ (append c s).buf (k % input_buf) ∷ [])
            at
        ∙ ap (λ x. slice input_buf (s.e - s.w) s.w (append c s).buf ++ x ∷ []) its
        ∙ ap (◌++ c ∷ []) (
            slice_store input_buf turning (s.e - s.w) s.w s.e c s.buf (omega (arith, ok_s.written))
              (omega (arith, room, ok_s.read)))

    added : c ≢ newline → Edits s (append c s) (queue s, line s ++ c ∷ [])
    unfolding queue line
    added other =
        let longer : s.e + 1 - s.w ≡ suc (s.e - s.w) = omega (arith, ok_s.written) in
        record {
          its_queue = queue_kept;
          its_line =
              ap (λ k. slice input_buf (k - s.w) s.w (append c s).buf) next
              ∙ ap (λ k. slice input_buf k s.w (append c s).buf) longer
              ∙ line_added;
          ready = record {
            read = ok_s.read;
            written = ground (arith, next, ok_s.written);
            room = ground (arith, next, room);
            one_line = λ i a b. ground (arith, ok_s.one_line i, a, b, next, other, room, ok_s.read);
          };
          reader = refl;
        }

    committed : Edits s (commit_line (append c s)) (queue s ++ (line s ++ c ∷ []), [])
    unfolding queue line slice
    committed =
        let all : s.e + 1 - s.r ≡ s.w - s.r + suc (s.e - s.w) =
          omega (arith, ok_s.read, ok_s.written) in
        let from : s.r + (s.w - s.r) ≡ s.w = omega (arith, ok_s.read) in
        let none_left : (s.e + 1) % 2 ^ 32 - (s.e + 1) % 2 ^ 32 ≡ 0 = omega arith in
        record {
          its_queue =
              ap (λ k. slice input_buf (k - s.r) s.r (append c s).buf) next
              ∙ ap (λ k. slice input_buf k s.r (append c s).buf) all
              ∙ slice_join input_buf (s.w - s.r) (suc (s.e - s.w)) s.r (append c s).buf
              ∙ ap
                  (λ k.
                    slice input_buf (s.w - s.r) s.r (append c s).buf
                    ++ slice input_buf (suc (s.e - s.w)) k (append c s).buf)
                  from
              ∙ ap (◌++ slice input_buf (suc (s.e - s.w)) s.w (append c s).buf) queue_kept
              ∙ ap (queue s ++◌) line_added;
          its_line = ap (λ k. slice input_buf k ((s.e + 1) % 2 ^ 32) (append c s).buf) none_left;
          ready = record {
            read = ground (arith, next, ok_s.read, ok_s.written);
            written = omega arith;
            room = ground (arith, next, room);
            one_line = λ i a b. absurd (omega (arith, a, b));
          };
          reader = refl;
        }

    stored : Edits s (store_char c s) (typed c (queue s, line s))
    unfolding store_char typed
    stored =
        let full : (length (queue s) + length (line s) + 1 == input_buf)
            ≡ ((s.e + 1) % 2 ^ 32 == (s.r + input_buf) % 2 ^ 32) =
          ground (arith, queue_length, line_length, next, early, ok_s.read, ok_s.written) in
        elim (Bool-cases
          (c == newline || c == ctrl_d || (s.e + 1) % 2 ^ 32 == (s.r + input_buf) % 2 ^ 32)) [
            | inl e ↦ rw (full, e) committed
            | inr e ↦ rw (full, e) (added (ground (arith, e)))
          ]

  took : (c : ℕ) → Edits s (take_char c s) (taken c (queue s, line s))
  unfolding take_char taken
  took c =
      let same : ltb (length (queue s) + length (line s)) input_buf
          ≡ ltb ((s.e + (2 ^ 32 - s.r)) % 2 ^ 32) input_buf =
        ground (arith, queue_length, line_length, early, ok_s.read, ok_s.written, ok_s.room) in
      elim (Bool-cases (not (c == 0) && ltb ((s.e + (2 ^ 32 - s.r)) % 2 ^ 32) input_buf)) [
        | inl e ↦
            let room : s.e < s.r + input_buf =
              ground (arith, e, early, ok_s.read, ok_s.written, ok_s.room) in
            rw (same, e) (stored (if c == 13 then newline else c) room)
        | inr e ↦ rw (same, e) stays
      ]

empty_line : (s : Cons) → s.e ≡ s.w → line s ≡ []
unfolding line slice
empty_line s e =
    let none_left : s.e - s.w ≡ 0 = omega (arith, e) in
    ap (λ k. slice input_buf k s.w s.buf) none_left

-- After one character of a killed line.
killed_more :
    (s s' : Cons) → Edits (rub_out s) s' (queue (rub_out s), []) → Edits s s' (queue s, [])
unfolding queue
killed_more s s' h = record {
  its_queue = h.its_queue;
  its_line = h.its_line;
  ready = h.ready;
  reader = h.reader;
}

killed :
    (n : ℕ) (s : Cons)
    → Ready s
    → s.e + 2 * input_buf < 2 ^ 32
    → s.e ≡ s.w + n
    → Edits s (kill_line n s) (queue s, [])
unfolding kill_line
killed zero s ok_s early e = record {
  its_queue = refl;
  its_line = empty_line s (omega (arith, e));
  ready = ok_s;
  reader = refl;
}
killed (suc n) s ok_s early e =
    let back : (s.e + (2 ^ 32 - 1)) % 2 ^ 32 ≡ s.e - 1 = omega (arith, early, e) in
    let ne : s.e ≢ s.w = λ k. absurd (omega (arith, e, k)) in
    let more : (s.e == s.w) ≡ false = ground (arith, ne) in
    let last : s.buf ((s.e + (2 ^ 32 - 1)) % 2 ^ 32 % input_buf) ≢ newline = λ k.
      ok_s.one_line (s.e - 1) (omega (arith, e)) (omega (arith, e))
        (ap (λ i. s.buf (i % input_buf)) (sym back) ∙ k) in
    let in_line : (s.buf ((s.e + (2 ^ 32 - 1)) % 2 ^ 32 % input_buf) == newline) ≡ false =
      ground (arith, last) in
    simp (more, in_line)
      (killed_more s _ (
        killed n (rub_out s) (rubbed s ok_s early ne).ready (omega (arith, early, back))
          (omega (arith, back, e))))

erased_none : (s : Cons) → Ready s → s.e ≡ s.w → Edits s s (queue s, drop_last (line s))
unfolding drop_last
erased_none s ok_s e = record {
  its_queue = refl;
  its_line = empty_line s e ∙ sym (ap drop_last (empty_line s e));
  ready = ok_s;
  reader = refl;
}

erased :
    (s : Cons)
    → Ready s
    → s.e + 2 * input_buf < 2 ^ 32
    → Edits s (if s.e == s.w then s else rub_out s) (queue s, drop_last (line s))
erased s ok_s early = elim (Bool-cases (s.e == s.w)) [
  | inl e ↦ simp (e) (erased_none s ok_s (ground (arith, e)))
  | inr e ↦ simp (e) (rubbed s ok_s early (ground (arith, e)))
]

-- `consoleintr` on a ring whose indices are in order, with at most `INPUT_BUF` characters and no
-- newline in the line being edited, and within the first 2^32 - 256 characters: the reader's queue
-- and the line change as a line editor says. Backspace drops the last character of the line,
-- control-U all of it, and any other character but 0 is added, a return as a newline, if there is
-- room; at a newline, a control-D or the last place the line joins the queue. The ring stays
-- well-formed, and the read index where it was.
pub consoleintr-Edits :
    (c : ℕ) (s : Cons)
    → Ready s
    → s.e + 2 * input_buf < 2 ^ 32
    → Edits s (consoleintr c s) (edit c (queue s, line s))
unfolding consoleintr edit
consoleintr-Edits c s ok_s early = elim (Bool-cases (c == ctrl_p)) [
  | inl p ↦ simp (p) (stays s ok_s early)
  | inr p ↦ elim (Bool-cases (c == ctrl_u)) [
    | inl u ↦
        let rounds : (s.e + (2 ^ 32 - s.w)) % 2 ^ 32 ≡ s.e - s.w =
          omega (arith, early, ok_s.written) in
        simp (p, u, rounds) (killed (s.e - s.w) s ok_s early (omega (arith, ok_s.written)))
    | inr u ↦ elim (Bool-cases (c == ctrl_h || c == 127)) [
      | inl h ↦ simp (p, u, h) (erased s ok_s early)
      | inr h ↦ simp (p, u, h) (took s ok_s early c)
    ]
  ]
]
