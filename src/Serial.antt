-- ===== src/Serial.antt =====
-- kernel/drivers/pc16550.c and kernel/drivers/p8251.c: the serial line, between its two rings and
-- the ports of the machine.
pub mod Pc16550
pub mod Bytes
pub mod P8251
use i80k.Base.{ℕ}
use i80k.Base.Word.{Ret}
use i80k.RingBuffer.{RingBuffer}
use i80k.Interrupts.{Pic}

-- `struct io_device` of a serial line, with the interrupt controllers of the board.
pub record IoDevice : Type 0 where
  pub port : ℕ
  pub irq : Ret
  pub freq : ℕ
  pub pic : Pic

-- The rings of a driver, and the hardware.
pub record Line (S : Type 0) : Type 0 where
  pub rx_ring : RingBuffer
  pub tx_ring : RingBuffer
  pub ports : S
