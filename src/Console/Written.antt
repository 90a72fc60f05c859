-- ===== src/Console/Written.antt =====
-- kernel/console.c on kernel/drivers/pc16550.c: a text on its way to the line.
use i80k.Base.{
  ap, ℕ, ◌+◌, ◌-◌, ◌*◌, ◌^◌, ◌≡◌, ◌≤◌, ◌<◌, ◌∙◌, arith, true, some, List, [], ◌∷◌, ◌++◌, length,
  take, drop, take_all, drop_all, bit_and, length-append,
}
use i80k.Cf20.{Bus}
use i80k.RingBuffer.Index.{IsValid}
use i80k.RingBuffer.Refine.{contents}
use i80k.RingBuffer.Fifo
use i80k.Serial.{IoDevice, Line}
use i80k.Serial.Pc16550.{uart_start_xmit, uart_handler}
use i80k.Serial.Pc16550.Transmits.{Transmitter, uart_start_xmit-Enabled}
use i80k.Serial.Pc16550.Drains.{uart_handler-sends}
use i80k.Console.{Console, console_puts}
use i80k.Console.Output.{console_puts_started, console_puts-latest}

-- The driver's side of the console.
abbrev pub line_of : {S : Type 0} → Console S → Line S
line_of c = record { rx_ring = c.rx_ring; tx_ring = c.tx_ring; ports = c.driver }

latest_all : (n : ℕ) (xs : List ℕ) → length xs ≤ n → Fifo.latest n xs ≡ xs
latest_all n xs h = ap (λ k. drop k xs) {x = length xs - n} {y = 0} (omega arith)

module _ {S : Type 0} (bus : Bus S) (u : IoDevice) (t : Transmitter bus u) where
  -- A text that is put on a bound console with nothing left to send, and that fits its ring with
  -- its line break: if the FIFO is then found empty often enough, whatever the interrupt enable
  -- register was, the handler ends, with any fuel above that number, and has written the text and its line break, and no other byte, to the
  -- line; nothing is left to send.
  pub console_puts-written :
      {bits : ℕ} (fuel : ℕ) (s : List ℕ) (c : Console S)
      → IsValid bits c.tx_ring
      → contents c.tx_ring ≡ []
      → c.binded ≡ true
      → length s + 2 < 2 ^ bits
      → length s + 2 ≤ t.pending (uart_start_xmit bus u c.driver) * 16
      → t.pending (uart_start_xmit bus u c.driver) < fuel
      → (l : Line S) × (uart_handler bus u fuel
            (line_of (console_puts (uart_start_xmit bus u) s c).1)
          ≡ some l)
        × (contents l.tx_ring ≡ [])
        × (t.written l.ports ≡ t.written c.driver ++ (s ++ (13 ∷ 10 ∷ [])))
  console_puts-written {bits} fuel s c v nothing bound fits often enough =
      let c' = (console_puts (uart_start_xmit bus u) s c).1 in
      let out = s ++ (13 ∷ 10 ∷ []) in
      let size : length out ≡ length s + 2 = length-append s (13 ∷ 10 ∷ []) in
      let (v', queued) = console_puts-latest (uart_start_xmit bus u) s c v in
      let all : contents c'.tx_ring ≡ out =
        queued
        ∙ ap (λ q. Fifo.latest (2 ^ bits - 1) (q ++ out)) nothing
        ∙ latest_all (2 ^ bits - 1) out (omega (arith, size)) in
      let started : c'.driver ≡ uart_start_xmit bus u c.driver =
        console_puts_started (uart_start_xmit bus u) s c bound in
      let (on, quiet) = uart_start_xmit-Enabled bus u t c.driver in
      let n = t.pending c'.driver in
      let same : n ≡ t.pending (uart_start_xmit bus u c.driver) = ap t.pending started in
      let (l, runs, valid, left, wrote, rx) =
        uart_handler-sends bus u t fuel (line_of c') v' (ap (λ q. bit_and (t.ier q) 2) started ∙ on)
          (omega (arith, same)) in
      (
        l,
        runs,
        left ∙ ap (drop (n * 16)) all ∙ drop_all (n * 16) out (omega (arith, size, same)),
        wrote
            ∙ ap (λ q. t.written c'.driver ++ take (n * 16) q) all
            ∙ ap (λ q. t.written c'.driver ++ q) (take_all (n * 16) out (omega (arith, size, same)))
            ∙ ap (λ w. w ++ out) (ap t.written started ∙ quiet),
      )
