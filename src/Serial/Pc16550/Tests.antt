-- ===== src/Serial/Pc16550/Tests.antt =====
-- A line at port 1016 that remembers what was written to its FIFO, and whose FIFO runs empty as
-- often as it is told.
use i80k.Base.{
  refl, ℕ, zero, suc, ◌-◌, ◌+◌, ◌*◌, ◌%◌, ◌<◌, Bool, true, false, ◌≡◌, arith, none, some, List, [],
  ◌∷◌, ◌++◌, ◌==◌, if◌then◌else◌, bit_and, take, drop,
}
use i80k.Base.Word.{ok}
use i80k.Cf20.{Bus}
use i80k.RingBuffer.Index.{IsValid}
use i80k.RingBuffer.Refine.{contents}
use i80k.RingBuffer.Tests.{wrapped, wrapped-IsValid, empty_ring}
use i80k.Interrupts.{irq_ack, p8259a_irq_ack}
use i80k.Serial.{IoDevice, Line}
use i80k.Serial.Pc16550.{uart_handler}
use i80k.Serial.Pc16550.Transmits.{Transmitter}
use i80k.Serial.Pc16550.Drains.{uart_handler-sends}

pub record Port : Type 0 where
  pub empties : ℕ
  pub log : List ℕ
  pub enabled : ℕ

-- The FIFOs are on, and their bits are set in the status.
abbrev pub status_of : ℕ → Bool → ℕ
status_of zero on = 193
status_of (suc n) true = 194
status_of (suc n) false = 193

abbrev pub asks : ℕ → Bool
asks ier = bit_and ier 2 == 2

abbrev pub port_bus : Bus Port
port_bus = record {
  inb = λ port s.
      if port == 1018
      then (status_of s.empties (asks (s.enabled % 256)), record s { empties = s.empties - 1 })
      else if port == 1017
      then (s.enabled % 256, s)
      else (0, s);
  outb = λ port b s.
      if port == 1016
      then record s { log = s.log ++ (b ∷ []) }
      else if port == 1017
      then record s { enabled = b }
      else s;
}

abbrev pub com1 : IoDevice
com1 = record {
  port = 1016;
  irq = ok 4;
  freq = 4915200;
  pic = record {
    chip = record { port = 32; irq = 0; irq_base = 0; irq_max = 8; idt_offset = 32 };
    slave = none;
  };
}

pub status_no_pending : (n : ℕ) (on : Bool) → n ≡ 0 → bit_and (status_of n on) 1 ≡ 1
status_no_pending zero on e = refl
status_no_pending (suc n) on e = absurd (omega (arith, e))

pub status_not_enabled : (n ier : ℕ) → bit_and ier 2 ≡ 0 → bit_and (status_of n (asks ier)) 1 ≡ 1
status_not_enabled zero ier e = refl
status_not_enabled (suc n) ier e = rw e refl

pub status_tells :
    (n k ier : ℕ)
    → n ≡ suc k
    → bit_and ier 2 ≡ 2
    → (fifos : ℕ) × (status_of n (asks ier) ≡ 16 * fifos + 2) × (fifos < 16) × (n - 1 ≡ k)
status_tells zero k ier e on = absurd (omega (arith, e))
status_tells (suc n) k ier e on = (12, rw on refl, omega arith, omega (arith, e))

unfoldable pub com1_transmits : Transmitter port_bus com1
unfolding irq_ack p8259a_irq_ack
com1_transmits = record {
  pending = λ s. s.empties;
  written = λ s. s.log;
  ier = λ s. s.enabled % 256;
  ier_byte = λ s. omega arith;
  ier_read = λ s. refl;
  ier_set = λ s b h. omega (arith, h);
  ier_set_written = λ s b. refl;
  no_pending = λ s e. status_no_pending s.empties (asks (s.enabled % 256)) e;
  not_enabled = λ s e. status_not_enabled s.empties (s.enabled % 256) e;
  tells = λ s n e on. status_tells s.empties n (s.enabled % 256) e on;
  told_written = λ s. refl;
  told_ier = λ s. refl;
  takes = λ s b. refl;
  takes_pending = λ s b. refl;
  takes_ier = λ s b. refl;
  acknowledges = λ s. refl;
}

abbrev busy_line : Line Port
busy_line = record {
  rx_ring = empty_ring;
  tx_ring = wrapped;
  ports = record { empties = 2; log = []; enabled = 7 };
}

uart_handler-sends_example :
    (l : Line Port) × (uart_handler port_bus com1 3 busy_line ≡ some l)
    × IsValid 2 l.tx_ring
    × (contents l.tx_ring ≡ drop 32 (contents wrapped))
    × (l.ports.log ≡ take 32 (contents wrapped))
    × (l.rx_ring ≡ empty_ring)
unfolding com1_transmits
uart_handler-sends_example =
    uart_handler-sends port_bus com1 com1_transmits 3 busy_line wrapped-IsValid refl (omega arith)
