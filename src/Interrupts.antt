-- ===== src/Interrupts.antt =====
-- kernel/boards/interrupts.c and kernel/boards/drivers/p8259a.c: the interrupt controllers.
--
-- A `struct pic` is a chip with its slave; every board fills its functions with those of the
-- 8259A. An interrupt request is a C `int`, which may be negative.
use i80k.Base.{
  ℕ, ◌+◌, ◌-◌, ◌^◌, ◌&&◌, Option, none, some, List, leb, ltb, if◌then◌else◌, bit_and, bit_or, set,
}
use i80k.Base.Word.{u8, u16, Ret, ok, err}
use i80k.Cf20.{Bus}

pub record Chip : Type 0 where
  pub port : ℕ
  pub irq : ℕ
  pub irq_base : ℕ
  pub irq_max : ℕ
  pub idt_offset : ℕ

pub record Pic : Type 0 where
  pub chip : Chip
  pub slave : Option Chip

abbrev pub pic_data : Chip → ℕ
pic_data c = u16 (c.port + 1)

-- `1 << irq`, in 8 bits.
abbrev pub irq_mask : ℕ → ℕ
irq_mask irq = u8 (2 ^ irq)

-- The handlers, by their interrupt.
abbrev pub idt_entries : ℕ
idt_entries = 256

pub interrupts_handle : Ret → ℕ → List ℕ → List ℕ
interrupts_handle (err e) handler idt = idt
interrupts_handle (ok index) handler idt =
    if leb idt_entries index then idt else set idt index handler

abbrev pub from_slave : Option Chip → ℕ → Ret
from_slave none irq = err 1
from_slave (some c) irq =
    if leb c.irq_base irq && ltb irq c.irq_max
    then ok (c.idt_offset + (irq - c.irq_base))
    else err 1

pub interrupts_from_irq : Pic → Ret → Ret
interrupts_from_irq p (err e) = err 1
interrupts_from_irq p (ok irq) =
    if leb p.chip.irq_base irq && ltb irq p.chip.irq_max
    then ok (p.chip.idt_offset + irq)
    else from_slave p.slave irq

module _ {S : Type 0} (bus : Bus S) where
  abbrev pub command_words : Chip → Option Chip → S → S
  command_words c none s = bus.outb (pic_data c) c.idt_offset (bus.outb c.port 23 s)
  command_words c (some slave) s =
      bus.outb (pic_data c) (irq_mask slave.irq)
        (bus.outb (pic_data c) c.idt_offset (bus.outb c.port 21 s))

  pub p8259a_initialize : Chip → Option Chip → S → S
  p8259a_initialize c slave s =
      bus.outb (pic_data c) 255 (bus.outb (pic_data c) 1 (command_words c slave s))

  pub p8259a_irq_enable : Chip → ℕ → S → S
  p8259a_irq_enable c irq s =
      let (value, s') = bus.inb (pic_data c) s in
      bus.outb (pic_data c) (bit_and value (255 - irq_mask irq)) s'

  pub p8259a_irq_disable : Chip → ℕ → S → S
  p8259a_irq_disable c irq s =
      let (value, s') = bus.inb (pic_data c) s in
      bus.outb (pic_data c) (bit_or value (irq_mask irq)) s'

  unfoldable pub p8259a_irq_ack : Chip → S → S
  p8259a_irq_ack c s = bus.outb c.port 32 s

  abbrev pub slave_initialize : Option Chip → S → S
  slave_initialize none s = s
  slave_initialize (some c) s = p8259a_initialize c none s

  -- `interrupts_initialize` after the table is cleared, on a board that has a controller.
  pub interrupts_initialize : Pic → S → S
  unfolding p8259a_initialize
  interrupts_initialize p s = slave_initialize p.slave (p8259a_initialize p.chip p.slave s)

  -- The functions of the slave are called with the master.
  abbrev pub slave_enable : Chip → Option Chip → ℕ → S → S
  slave_enable master none irq s = s
  slave_enable master (some c) irq s =
      if ltb irq c.irq_max then p8259a_irq_enable master (irq - c.irq_base) s else s

  pub irq_enable : Pic → Ret → S → S
  unfolding p8259a_irq_enable
  irq_enable p (err e) s = s
  irq_enable p (ok irq) s =
      if ltb irq p.chip.irq_max
      then p8259a_irq_enable p.chip irq s
      else slave_enable p.chip p.slave irq s

  abbrev pub slave_disable : Chip → Option Chip → ℕ → S → S
  slave_disable master none irq s = s
  slave_disable master (some c) irq s =
      if ltb irq c.irq_max then p8259a_irq_disable master (irq - c.irq_base) s else s

  pub irq_disable : Pic → Ret → S → S
  unfolding p8259a_irq_disable
  irq_disable p (err e) s = s
  irq_disable p (ok irq) s =
      if ltb irq p.chip.irq_max
      then p8259a_irq_disable p.chip irq s
      else slave_disable p.chip p.slave irq s

  abbrev pub slave_ack : Option Chip → ℕ → S → S
  slave_ack none irq s = s
  slave_ack (some c) irq s = if leb c.irq_base irq then p8259a_irq_ack c s else s

  unfoldable pub irq_ack : Pic → Ret → S → S
  unfolding p8259a_irq_ack
  irq_ack p (err e) s = s
  irq_ack p (ok irq) s = p8259a_irq_ack p.chip (slave_ack p.slave irq s)
