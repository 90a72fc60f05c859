-- ===== src/Cf20.antt =====
-- kernel/drivers/block/cf20: the requests of the compact flash driver, and its commands.
--
-- The ports of the machine are an interface; `S` is what stands behind them. A request is known
-- by the task that waits for it; the allocation of a request succeeds.
pub mod Transfer
pub mod Queued
pub mod Behind
pub mod Told
pub mod Identity
mod Tests
use i80k.Base.{
  ℕ, zero, suc, ◌+◌, ◌-◌, ◌*◌, ◌/◌, ◌^◌, Bool, true, false, ◌||◌, Option, none, some, List, [], ◌∷◌,
  ◌++◌, ◌==◌, ltb, if◌then◌else◌, bit_and, bit_or,
}
use i80k.Base.Word.{u8, u16, u32, sub16, Ret, to_int}

-- Reading and writing a byte at a port.
pub record Bus (S : Type 0) : Type 0 where
  pub inb : ℕ → S → ℕ × S
  pub outb : ℕ → ℕ → S → S

pub record Registers : Type 0 where
  pub data_port : ℕ
  pub error : ℕ
  pub features : ℕ
  pub sector_count : ℕ
  pub lba_low : ℕ
  pub lba_mid : ℕ
  pub lba_high : ℕ
  pub card_head : ℕ
  pub cmd : ℕ
  pub status : ℕ
  pub dev_ctrl : ℕ

pub record Private : Type 0 where
  pub irq : ℕ
  pub sector_sz : ℕ
  pub regs : Registers

abbrev pub cf20_sector_size : ℕ
cf20_sector_size = 512

-- What `cf20_probe` sets.
abbrev pub private_of : ℕ → ℕ → Private
private_of irq port = record {
  irq = irq;
  sector_sz = cf20_sector_size;
  regs = record {
    data_port = port;
    error = u16 (port + 1);
    features = u16 (port + 1);
    sector_count = u16 (port + 2);
    lba_low = u16 (port + 3);
    lba_mid = u16 (port + 4);
    lba_high = u16 (port + 5);
    card_head = u16 (port + 6);
    cmd = u16 (port + 7);
    status = u16 (port + 7);
    dev_ctrl = u16 (port + 7);
  };
}

pub data BioState : Type 0 where
  read_cmd : BioState
  read_sector : BioState
  write_cmd : BioState
  write_sector : BioState
  done : BioState
  error : BioState

abbrev pub bio_done : BioState → Bool
bio_done done = true
bio_done read_cmd = false
bio_done read_sector = false
bio_done write_cmd = false
bio_done write_sector = false
bio_done error = false

pub record BioRequest : Type 0 where
  pub state : BioState
  pub block : ℕ
  pub count : ℕ
  pub buf : ℕ

abbrev pub Memory : Type 0
Memory = ℕ → ℕ

abbrev pub poke : {A : Type 0} → ℕ → A → (ℕ → A) → ℕ → A
poke a v f q = if q == a then v else f q

-- The calls of other parts.
pub data Call : Type 0 where
  irq_ack : ℕ → Call
  scheduler_wake_up : ℕ → Call

-- `request_of` is what the `wait_state` of a task points to. The latest call is the first.
pub record Driver (S : Type 0) : Type 0 where
  pub requests : List ℕ
  pub request_of : ℕ → BioRequest
  pub memory : Memory
  pub bus : S
  pub calls : List Call

module _ {S : Type 0} (io : Bus S) (pdev : Private) where
  send_sectors : ℕ → ℕ → ℕ → S → S
  send_sectors command block count s =
      let s1 = io.outb pdev.regs.sector_count (if ltb count 256 then u8 count else 0) s in
      let s2 = io.outb pdev.regs.lba_low (u8 block) s1 in
      let s3 = io.outb pdev.regs.lba_mid (u8 (block / 2 ^ 8)) s2 in
      let s4 = io.outb pdev.regs.lba_high (u8 (block / 2 ^ 16)) s3 in
      let head = bit_or (bit_or 0xa0 (2 ^ 6)) (bit_and (block / 2 ^ 24) 0xf) in
      let s5 = io.outb pdev.regs.card_head (u8 head) s4 in io.outb pdev.regs.cmd command s5

  pub cf20_send_read_sectors : ℕ → ℕ → S → S
  unfolding send_sectors
  cf20_send_read_sectors = send_sectors 0x20

  pub cf20_send_write_sectors : ℕ → ℕ → S → S
  unfolding send_sectors
  cf20_send_write_sectors = send_sectors 0x30

  -- The loop of `cf20_read_sector`.
  pub read_bytes : ℕ → ℕ → Memory × S → Memory × S
  read_bytes zero buf (mem, s) = (mem, s)
  read_bytes (suc n) buf (mem, s) =
      let (v, s') = io.inb pdev.regs.data_port s in
      read_bytes n (u16 (buf + 1)) (poke buf v mem, s')

  pub cf20_read_sector : ℕ → Memory × S → Memory × S
  unfolding read_bytes
  cf20_read_sector = read_bytes pdev.sector_sz

  -- The loop of `cf20_write_sector`.
  pub write_bytes : ℕ → ℕ → Memory → S → S
  write_bytes zero buf mem s = s
  write_bytes (suc n) buf mem s =
      write_bytes n (u16 (buf + 1)) mem (io.outb pdev.regs.data_port (mem buf) s)

  pub cf20_write_sector : ℕ → Memory → S → S
  unfolding write_bytes
  cf20_write_sector = write_bytes pdev.sector_sz

  -- The request after a sector.
  abbrev pub advance : BioRequest → BioRequest
  advance r = record {
    state = if sub16 r.count 1 == 0 then done else r.state;
    block = u32 (r.block + 1);
    count = sub16 r.count 1;
    buf = u16 (r.buf + pdev.sector_sz);
  }

  abbrev pub advanced : ℕ → Memory × S → Driver S → Driver S
  advanced task (mem, s) d = record d {
    request_of = poke task (advance (d.request_of task)) d.request_of;
    memory = mem;
    bus = s;
  }

  -- The part of the handler that moves a sector.
  pub transfer : ℕ → BioState → Driver S → Driver S
  unfolding cf20_read_sector cf20_write_sector
  transfer task read_sector d =
      advanced task (cf20_read_sector (d.request_of task).buf (d.memory, d.bus)) d
  transfer task write_sector d =
      advanced task (d.memory, cf20_write_sector (d.request_of task).buf d.memory d.bus) d
  transfer task read_cmd d = d
  transfer task write_cmd d = d
  transfer task done d = d
  transfer task error d = d

  -- The part of the handler that sends a command.
  pub send : ℕ → BioState → Driver S → Driver S
  unfolding cf20_send_read_sectors cf20_send_write_sectors
  send task read_cmd d = record d {
    bus = cf20_send_read_sectors (d.request_of task).block (d.request_of task).count d.bus;
  }
  send task write_cmd d = record d {
    bus = cf20_send_write_sectors (d.request_of task).block (d.request_of task).count d.bus;
  }
  send task read_sector d = d
  send task write_sector d = d
  send task done d = d
  send task error d = d

  -- The task at the head of the queue that is left, after one that was woken.
  abbrev pub prepare_next : List ℕ → Driver S → Driver S
  prepare_next [] d = d
  prepare_next (task ∷ rest) d = send task (d.request_of task).state d

  abbrev pub finish : ℕ → List ℕ → Driver S → Driver S
  finish task rest d =
      let state = (d.request_of task).state in
      if bio_done state
      then prepare_next rest
          (record d { requests = rest; calls = scheduler_wake_up task ∷ d.calls })
      else send task state d

  abbrev pub handle : List ℕ → Driver S → Driver S
  handle [] d = d
  handle (task ∷ rest) d = finish task rest (transfer task (d.request_of task).state d)

  pub cf20_handler : Driver S → Driver S
  unfolding transfer send
  cf20_handler d = handle d.requests (record d { calls = irq_ack pdev.irq ∷ d.calls })

  abbrev pub invalid : ℕ → ℕ → Bool
  invalid count buf = count == 0 || ltb 256 count || buf == 0

  abbrev pub sleep_with : ℕ → BioRequest → Driver S → Driver S
  sleep_with task r d = record d {
    requests = d.requests ++ (task ∷ []);
    request_of = poke task r d.request_of;
  }

  abbrev pub ask_read : ℕ → ℕ → ℕ → ℕ → Driver S → List ℕ → Driver S
  ask_read task buf block count d [] =
      sleep_with task (record { state = read_sector; block = block; count = count; buf = buf })
        (record d { bus = cf20_send_read_sectors block count d.bus })
  ask_read task buf block count d (first ∷ others) =
      sleep_with task (record { state = read_cmd; block = block; count = count; buf = buf }) d

  -- `cf20_read_block` until the task sleeps; none for -ERR_INVAL.
  pub cf20_read_block : ℕ → ℕ → ℕ → ℕ → Driver S → Option (Driver S)
  unfolding cf20_send_read_sectors
  cf20_read_block task buf block count d =
      if invalid count buf then none else some (ask_read task buf block count d d.requests)

  abbrev pub ask_write : ℕ → ℕ → ℕ → ℕ → Driver S → List ℕ → Driver S
  ask_write task buf block count d [] =
      sleep_with task (record { state = write_sector; block = block; count = count; buf = buf })
        (record d { bus = cf20_send_write_sectors block count d.bus })
  ask_write task buf block count d (first ∷ others) =
      sleep_with task (record { state = write_cmd; block = block; count = count; buf = buf }) d

  -- `cf20_write_block` until the task sleeps; none for -ERR_INVAL.
  pub cf20_write_block : ℕ → ℕ → ℕ → ℕ → Driver S → Option (Driver S)
  unfolding cf20_send_write_sectors
  cf20_write_block task buf block count d =
      if invalid count buf then none else some (ask_write task buf block count d d.requests)

  -- What either of the two returns when the task runs again.
  pub bytes_moved : ℕ → ℕ → Driver S → Ret
  bytes_moved task count d = to_int (u16 (sub16 count (d.request_of task).count * pdev.sector_sz))

  -- As many interrupts, one after the other.
  pub interrupts : ℕ → Driver S → Driver S
  unfolding cf20_handler
  interrupts zero d = d
  interrupts (suc n) d = interrupts n (cf20_handler d)
