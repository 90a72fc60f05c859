-- ===== src/Serial/P8251.antt =====
-- kernel/drivers/p8251.c: the driver of the 8251, which takes and gives a byte at each interrupt.
--
-- The line has the command that was last sent, in `cmd`. The timer that gives the baud rate is set
-- by its own driver.
use i80k.Base.{ℕ, Option, none, some, ◌==◌, if◌then◌else◌, bit_and, bit_or}
use i80k.Cf20.{Bus}
use i80k.RingBuffer.{RingBuffer, queue, dequeue}
use i80k.Interrupts.{irq_enable, irq_ack}
use i80k.Serial.{IoDevice, Line}

pub record P8251 (S : Type 0) : Type 0 where
  pub line : Line S
  pub cmd : ℕ

abbrev pub cmd_port : IoDevice → ℕ
cmd_port u = bit_or u.port 1

module _ {S : Type 0} (bus : Bus S) (u : IoDevice) where
  abbrev pub with_ports : Line S → S → Line S
  with_ports l s = record l { ports = s }

  pub p8251a_cmd : ℕ → P8251 S → P8251 S
  p8251a_cmd command p = record {
    line = with_ports p.line (bus.outb (cmd_port u) command p.line.ports);
    cmd = command;
  }

  -- After the timer is set, and up to the entry in the interrupt table.
  pub uart_initialize : RingBuffer → RingBuffer → S → P8251 S
  unfolding p8251a_cmd
  uart_initialize rxq txq s =
      let s1 = bus.outb (cmd_port u) 0 (bus.outb (cmd_port u) 0 (bus.outb (cmd_port u) 0 s)) in
      let s2 = bus.outb (cmd_port u) 77 (bus.outb (cmd_port u) 64 s1) in
      p8251a_cmd 36 (record {
        line = record { rx_ring = rxq; tx_ring = txq; ports = irq_enable bus u.pic u.irq s2 };
        cmd = 0;
      })

  pub receive_ready : P8251 S → P8251 S
  receive_ready p =
      let (byte, s) = bus.inb u.port p.line.ports in
      record p {
        line = record { rx_ring = queue p.line.rx_ring byte; tx_ring = p.line.tx_ring; ports = s };
      }

  abbrev pub give : Option ℕ → RingBuffer → P8251 S → P8251 S
  give none tx p = record {
    line = record { rx_ring = p.line.rx_ring; tx_ring = tx; ports = p.line.ports };
    cmd = 4;
  }
  give (some byte) tx p = record p {
    line = record {
      rx_ring = p.line.rx_ring;
      tx_ring = tx;
      ports = bus.outb u.port byte p.line.ports;
    };
  }

  pub transmit_ready : P8251 S → P8251 S
  transmit_ready p = let (byte, tx) = dequeue p.line.tx_ring in give byte tx p

  abbrev pub if_rx_ready : ℕ → P8251 S → P8251 S
  if_rx_ready status p = if bit_and status 2 == 2 then receive_ready p else p

  abbrev pub if_tx_ready : ℕ → P8251 S → P8251 S
  if_tx_ready status p = if bit_and status 1 == 1 then transmit_ready p else p

  -- The handler between the two commands that it sends.
  pub exchange : P8251 S → P8251 S
  unfolding receive_ready transmit_ready
  exchange p =
      let (status, s) = bus.inb (cmd_port u) p.line.ports in
      if_tx_ready status (if_rx_ready status (record p { line = with_ports p.line s }))

  pub uart_handler : P8251 S → P8251 S
  unfolding exchange p8251a_cmd
  uart_handler p =
      let p1 = exchange (p8251a_cmd (bit_and p.cmd 223) p) in
      let p2 = p8251a_cmd (bit_or p1.cmd 32) p1 in
      record p2 { line = with_ports p2.line (irq_ack bus u.pic u.irq p2.line.ports) }

  pub uart_start_xmit : P8251 S → P8251 S
  unfolding p8251a_cmd
  uart_start_xmit p = p8251a_cmd (bit_or p.cmd 1) p
