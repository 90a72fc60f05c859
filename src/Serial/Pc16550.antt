-- ===== src/Serial/Pc16550.antt =====
-- kernel/drivers/pc16550.c: the driver of the 16550. The waiting loops run on fuel.
pub mod Transfer
pub mod Transmits
pub mod Drains
pub mod Tests
use i80k.Base.{
  ℕ, zero, suc, ◌+◌, ◌/◌, true, false, Option, none, some, ◌==◌, if◌then◌else◌, bit_and, bit_or,
}
use i80k.Base.Word.{u16}
use i80k.Cf20.{Bus}
use i80k.RingBuffer.{RingBuffer, is_empty, queue, dequeue}
use i80k.Interrupts.{irq_enable, irq_ack}
use i80k.Serial.{IoDevice, Line}

abbrev pub tx_fifo_size : ℕ
tx_fifo_size = 16

abbrev pub rx_fifo_trigger : ℕ
rx_fifo_trigger = 14

abbrev pub ier_port : IoDevice → ℕ
ier_port u = u16 (u.port + 1)

abbrev pub isr_port : IoDevice → ℕ
isr_port u = u16 (u.port + 2)

abbrev pub line_ctrl_port : IoDevice → ℕ
line_ctrl_port u = u16 (u.port + 3)

abbrev pub mcr_port : IoDevice → ℕ
mcr_port u = u16 (u.port + 4)

abbrev pub lsr_port : IoDevice → ℕ
lsr_port u = u16 (u.port + 5)

abbrev pub msr_port : IoDevice → ℕ
msr_port u = u16 (u.port + 6)

module _ {S : Type 0} (bus : Bus S) (u : IoDevice) where
  pub pc16550_set_baud_rate : ℕ → S → S
  pc16550_set_baud_rate baud_rate s =
      let (lcr, s1) = bus.inb (line_ctrl_port u) s in
      let s2 = bus.outb (line_ctrl_port u) (bit_or lcr 128) s1 in
      let div = u.freq / 16 / baud_rate in
      let s3 = bus.outb u.port (bit_and div 255) s2 in
      let s4 = bus.outb (ier_port u) (bit_and (div / 256) 255) s3 in
      bus.outb (line_ctrl_port u) (bit_and (bit_or lcr 128) 127) s4

  pub pc16550_disable_tx_int : S → S
  pc16550_disable_tx_int s =
      let (ier, s') = bus.inb (ier_port u) s in bus.outb (ier_port u) (bit_and ier 253) s'

  unfoldable pub uart_start_xmit : S → S
  uart_start_xmit s =
      let (ier, s') = bus.inb (ier_port u) s in bus.outb (ier_port u) (bit_or ier 2) s'

  -- Up to the entry in the interrupt table, which is `interrupts_handle`.
  pub uart_initialize : RingBuffer → RingBuffer → ℕ → S → Line S
  unfolding pc16550_set_baud_rate
  uart_initialize rxq txq baud_rate s =
      let s1 = bus.outb (isr_port u) 199 s in
      let s2 = bus.outb (line_ctrl_port u) 3 s1 in
      let s3 = bus.outb (ier_port u) 5 s2 in
      let s4 = pc16550_set_baud_rate baud_rate s3 in
      let s5 = bus.outb (mcr_port u) 2 s4 in
      record { rx_ring = rxq; tx_ring = txq; ports = irq_enable bus u.pic u.irq s5 }

  -- `n` bytes from the port into the ring.
  pub receive : ℕ → RingBuffer → S → RingBuffer × S
  receive zero r s = (r, s)
  receive (suc n) r s = let (byte, s') = bus.inb u.port s in receive n (queue r byte) s'

  -- Bytes while the line status says that there are some.
  pub receive_all : ℕ → ℕ → RingBuffer → S → Option (RingBuffer × S)
  receive_all zero status r s = none
  receive_all (suc fuel) status r s =
      let (byte, s1) = bus.inb u.port s in
      let (status', s2) = bus.inb (lsr_port u) s1 in
      let rest = receive_all fuel status' (queue r byte) s2 in
      if bit_and status 1 == 1 then rest else some (r, s)

  abbrev pub sent : Option ℕ → S → S
  sent none s = s
  sent (some byte) s = bus.outb u.port byte s

  -- At most `n` bytes of the ring to the port.
  pub transmit : ℕ → RingBuffer → S → RingBuffer × S
  transmit zero r s = (r, s)
  transmit (suc n) r s =
      let rest = transmit n (dequeue r).1 (sent (dequeue r).0 s) in
      if is_empty r then (r, s) else rest

  abbrev pub with_rx : Line S → RingBuffer × S → Line S
  with_rx l (r, s) = record l { rx_ring = r; ports = s }

  abbrev pub with_tx : Line S → RingBuffer × S → Line S
  with_tx l (r, s) = record l { tx_ring = r; ports = s }

  abbrev pub timed_out : Line S → Option (RingBuffer × S) → Option (Line S)
  timed_out l none = none
  timed_out l (some p) = some (with_rx l p)

  abbrev pub rx_timeout : ℕ → Line S → Option (Line S)
  rx_timeout fuel l =
      let (status, s) = bus.inb (lsr_port u) l.ports in
      timed_out l (receive_all fuel status l.rx_ring s)

  abbrev pub tx_empty : Line S → Line S
  tx_empty l =
      if is_empty l.tx_ring
      then record l { ports = pc16550_disable_tx_int l.ports }
      else with_tx l (transmit tx_fifo_size l.tx_ring l.ports)

  abbrev pub status_read : ℕ → Line S → Line S
  status_read port l = record l { ports = (bus.inb port l.ports).1 }

  -- The cases of the handler, by the number of the interrupt.
  pub serve : ℕ → ℕ → Line S → Option (Line S)
  unfolding receive receive_all transmit pc16550_disable_tx_int
  serve fuel id l =
      if id == 2
      then some (with_rx l (receive rx_fifo_trigger l.rx_ring l.ports))
      else if id == 6
      then rx_timeout fuel l
      else if id == 3
      then some (status_read (lsr_port u) l)
      else if id == 1
      then some (tx_empty l)
      else if id == 0
      then some (status_read (msr_port u) l)
      else some l

  abbrev pub isr_read : Line S → ℕ × Line S
  isr_read l = let (isr, s) = bus.inb (isr_port u) l.ports in (isr, record l { ports = s })

  -- The loop of the handler on the value of the interrupt status.
  pub serve_all : ℕ → ℕ → Line S → Option (Line S)
  unfolding serve
  serve_all zero isr l = none
  serve_all (suc fuel) isr l = elim (bit_and isr 1 == 1) [
    | true ↦ some l
    | false ↦ elim (serve fuel (bit_and (isr / 2) 7) l) [
      | none ↦ none
      | some l' ↦ let (isr', l'') = isr_read l' in serve_all fuel isr' l''
    ]
  ]

  abbrev pub acknowledged : Option (Line S) → Option (Line S)
  acknowledged none = none
  acknowledged (some l) = some (record l { ports = irq_ack bus u.pic u.irq l.ports })

  pub uart_handler : ℕ → Line S → Option (Line S)
  unfolding serve_all
  uart_handler fuel l = let (isr, l') = isr_read l in acknowledged (serve_all fuel isr l')
