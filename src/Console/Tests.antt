-- ===== src/Console/Tests.antt =====
-- The ring at the start, and with "ab" typed.
use mitcppos.Prelude.{
  ℕ, ◌≡◌, refl, Bool, List, [], ◌∷◌, inl, true, false, ok, ◌==◌, if◌then◌else◌, arith,
}
use mitcppos.Prelude.Int.{pos}
use mitcppos.Kalloc.{Kmem}
use mitcppos.Console.{Cons, ctrl_h, newline, consoleintr, take_char, store_char}
use mitcppos.Uart.{Uart}
use mitcppos.Uart.Fifo
use mitcppos.Console.Output.{Written, consolewrite}
use mitcppos.Console.Output.Stream.{Streamed, consolewrite-Streams}
use mitcppos.Console.Input.{consoleread}
use mitcppos.Console.Read.{Handed, consoleread-Handed}
use mitcppos.Console.Line.{Ready, Edits, edit, queue, line, consoleintr-Edits}

abbrev at_start : Cons
at_start = record { buf = λ i. 0; r = 0; w = 0; e = 0; echo = []; wakeups = 0 }

at_start-Ready : Ready at_start
at_start-Ready = record {
  read = omega arith;
  written = omega arith;
  room = omega arith;
  one_line = λ i a b. absurd (omega (arith, b));
}

-- "ab", then a backspace and a newline
after_line : Cons
after_line = consoleintr newline (consoleintr ctrl_h (consoleintr 98 (consoleintr 97 at_start)))

line_of_two : after_line.w ≡ 2
unfolding after_line consoleintr take_char store_char
line_of_two = refl

consoleintr-Edits_example :
    Edits at_start (consoleintr 97 at_start) (edit 97 (queue at_start, line at_start))
consoleintr-Edits_example = consoleintr-Edits 97 at_start at_start-Ready (omega arith)

-- "hi" and a newline wait.
abbrev three_wait : Cons
three_wait = record at_start {
  buf = λ i. if i == 0 then 104 else (if i == 1 then 105 else newline);
  w = 3;
  e = 3;
}

three_wait-Ready : Ready three_wait
three_wait-Ready = record {
  read = omega arith;
  written = omega arith;
  room = omega arith;
  one_line = λ i a b. absurd (omega (arith, a, b));
}

abbrev no_memory : Kmem
no_memory = record { mem = λ i. 0; freelist = 0 }

consoleread-Handed_example :
    Handed 0 100 false 10
      (queue three_wait)
      10
      200
      three_wait
      no_memory
      (consoleread 0 100 false false 200 10 three_wait no_memory)
consoleread-Handed_example =
    consoleread-Handed 0 100 false 10 200 three_wait no_memory (inl (omega arith)) three_wait-Ready
      (omega arith)

-- A UART that has sent nothing, and takes one character in the first call.
abbrev quiet : Uart
quiet = record { tx_buf = λ i. 0; tx_w = 0; tx_r = 0; sent = []; wakeups = 0 }

abbrev answers : ℕ → List Bool
answers i = if i == 0 then true ∷ [] else []

quiet-Ready : Fifo.Ready quiet
quiet-Ready = record { read = omega arith; room = omega arith; early = omega arith }

consolewrite-Streams_example :
    (w : Written) × (consolewrite 0 100 false 200 answers (pos 3) quiet no_memory ≡ ok w)
    × Streamed 100 200 3 0 quiet no_memory w
consolewrite-Streams_example =
    consolewrite-Streams 0 100 200 answers 3 quiet no_memory (inl (omega arith)) (omega arith)
      quiet-Ready (omega arith)
