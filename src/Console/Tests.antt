-- ===== src/Console/Tests.antt =====
-- A line that remembers what was written to it, and whose FIFO runs empty three times.
use i80k.Base.{refl, ◌≡◌, arith, true, some, [], ◌∷◌}
use i80k.RingBuffer.Refine.{contents}
use i80k.RingBuffer.Tests.{wrapped, empty_ring, empty_ring-IsValid, empty_ring-contents}
use i80k.Serial.{Line}
use i80k.Serial.Pc16550.{uart_start_xmit, uart_handler}
use i80k.Serial.Pc16550.Tests.{Port, port_bus, com1, com1_transmits}
use i80k.Console.{Console, console_puts}
use i80k.Console.Written.{line_of, console_puts-written}

abbrev quiet : Console Port
quiet = record {
  rx_ring = wrapped;
  tx_ring = empty_ring;
  binded = true;
  driver = record { empties = 3; log = b'>' ∷ []; enabled = 5 };
}

console_puts-written_example :
    (l : Line Port) × (uart_handler port_bus com1 4
        (line_of (console_puts (uart_start_xmit port_bus com1) (b'h' ∷ b'i' ∷ []) quiet).1)
      ≡ some l)
    × (contents l.tx_ring ≡ [])
    × (l.ports.log ≡ b'>' ∷ b'h' ∷ b'i' ∷ 13 ∷ 10 ∷ [])
unfolding com1_transmits uart_start_xmit
console_puts-written_example =
    console_puts-written port_bus com1 com1_transmits 4 (b'h' ∷ b'i' ∷ []) quiet empty_ring-IsValid
      empty_ring-contents refl (omega arith) (omega arith) (omega arith)
