-- ===== src/Console.antt =====
-- kernel/console.c: the ring of input characters and its editing. `echo` has what was given to
-- `consputc`, the last one first, and `wakeups` counts the calls of `wakeup(&cons.r)`.
use mitcppos.Prelude.{
  ℕ, zero, suc, ◌+◌, ◌-◌, ◌%◌, ◌^◌, Bool, true, false, not, ◌&&◌, ◌||◌, List, ◌∷◌, ltb, ◌==◌,
  if◌then◌else◌,
}
pub mod Input
pub mod Line
pub mod Read
pub mod Output
mod Tests

abbrev pub input_buf : ℕ
input_buf = 128

abbrev pub backspace : ℕ
backspace = 0x100

-- `C(x)`
abbrev pub ctrl : ℕ → ℕ
ctrl x = x - 64

abbrev pub newline : ℕ
newline = 10

abbrev pub ctrl_d : ℕ
ctrl_d = ctrl 68

abbrev pub ctrl_h : ℕ
ctrl_h = ctrl 72

abbrev pub ctrl_p : ℕ
ctrl_p = ctrl 80

abbrev pub ctrl_u : ℕ
ctrl_u = ctrl 85

pub record Cons : Type 0 where
  pub buf : ℕ → ℕ
  pub r : ℕ
  pub w : ℕ
  pub e : ℕ
  pub echo : List ℕ
  pub wakeups : ℕ

-- `cons.e--; consputc(BACKSPACE);`
abbrev pub rub_out : Cons → Cons
rub_out s = record s { e = (s.e + (2 ^ 32 - 1)) % 2 ^ 32; echo = backspace ∷ s.echo }

-- The loop of the case `C('U')` with `n` rounds left.
pub kill_line : (n : ℕ) → Cons → Cons
kill_line zero s = s
kill_line (suc n) s =
    let last = s.buf ((s.e + (2 ^ 32 - 1)) % 2 ^ 32 % input_buf) in
    let rest = kill_line n (rub_out s) in
    if not (s.e == s.w) && not (last == newline) then rest else s

-- `c` at the edit index. A character of the device is a byte, so that `char` keeps it.
abbrev pub append : (c : ℕ) → Cons → Cons
append c s = record s {
  buf = λ i. if i == s.e % input_buf then c else s.buf i;
  e = (s.e + 1) % 2 ^ 32;
  echo = c ∷ s.echo;
}

-- the line is complete
abbrev pub commit_line : Cons → Cons
commit_line s = record s { w = s.e; wakeups = s.wakeups + 1 }

unfoldable pub store_char : (c : ℕ) → Cons → Cons
store_char c s =
    let s' = append c s in
    if c == newline || c == ctrl_d || s'.e == (s.r + input_buf) % 2 ^ 32 then commit_line s' else s'

-- The default case.
unfoldable pub take_char : (c : ℕ) → Cons → Cons
take_char c s =
    if not (c == 0) && ltb ((s.e + (2 ^ 32 - s.r)) % 2 ^ 32) input_buf
    then store_char (if c == 13 then newline else c) s
    else s

-- `procdump` prints, and changes nothing here.
unfoldable pub consoleintr : (c : ℕ) → Cons → Cons
consoleintr c s =
    let erased = if s.e == s.w then s else rub_out s in
    if c == ctrl_p
    then s
    else (if c == ctrl_u
        then kill_line ((s.e + (2 ^ 32 - s.w)) % 2 ^ 32) s
        else (if c == ctrl_h || c == 127 then erased else take_char c s))
