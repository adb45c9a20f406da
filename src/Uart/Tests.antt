-- ===== src/Uart/Tests.antt =====
-- The ring at the start, with two characters given and one taken by the device.
use mitcppos.Prelude.{◌≡◌, refl, [], ◌∷◌, true, false, arith}
use mitcppos.Uart.{Uart, uartputc, uartstart}
use mitcppos.Uart.Fifo.{Ready, Sends, uartputc-Sends}

abbrev at_start : Uart
at_start = record { tx_buf = λ i. 0; tx_w = 0; tx_r = 0; sent = []; wakeups = 0 }

abbrev busy : Uart
busy = record at_start { tx_buf = λ i. 104; tx_w = 3; tx_r = 1; sent = 104 ∷ [] }

one_goes_out : (uartstart (true ∷ false ∷ []) busy).tx_r ≡ 2
unfolding uartstart
one_goes_out = refl

busy-Ready : Ready busy
busy-Ready = record { read = omega arith; room = omega arith; early = omega arith }

uartputc-Sends_example : Sends 105 (true ∷ false ∷ []) busy (uartputc 105 (true ∷ false ∷ []) busy)
uartputc-Sends_example = uartputc-Sends 105 (true ∷ false ∷ []) busy busy-Ready (omega arith)
