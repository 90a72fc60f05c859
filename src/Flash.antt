-- ===== src/Flash.antt =====
-- kernel/drivers/block/cfi/cfi.c: the driver of the flash chip with the system's ROM.
--
-- Far memory is an interface, on a state of the chip; `copy` is `fmemcpy` to the buffer of the
-- caller. The loop that waits for the chip runs on fuel. A far pointer is its 32 bits.
pub mod Address
pub mod Chip
pub mod Written
mod Tests
use i80k.Base.{
  ℕ, zero, suc, ◌+◌, ◌*◌, ◌/◌, ◌%◌, ◌^◌, Bool, true, false, ◌&&◌, Option, none, some, List, [], ◌∷◌,
  ◌++◌, ◌==◌, if◌then◌else◌, take, drop, bit_and,
}
use i80k.Base.Word.{u16, u32, Ret, ok, err, to_int}

pub record FarMemory (S : Type 0) : Type 0 where
  pub read : ℕ → S → ℕ × S
  pub store : ℕ → ℕ → S → S
  pub copy : ℕ → ℕ → S → List ℕ × S

pub record CfiPrivate : Type 0 where
  pub base : ℕ
  pub reg0 : ℕ
  pub reg1 : ℕ
  pub addr0 : ℕ
  pub addr1 : ℕ

-- `struct cfi_flash`
pub record CfiFlash : Type 0 where
  pub vendor_id : ℕ
  pub chip_id : ℕ
  pub base_addr : ℕ
  pub sector_count : ℕ
  pub sector_size : ℕ
  pub sector_shift : ℕ

-- The fields of `struct blkdev` that the driver sets.
pub record FlashDevice : Type 0 where
  pub block_size : ℕ
  pub block_shift : ℕ
  pub block_count : ℕ
  pub drv_data : CfiPrivate

pub cfi_get_block_addr : FlashDevice → ℕ → ℕ
cfi_get_block_addr dev block =
    let offset = u32 (block * dev.block_size) in
    let off_high = u32 (offset / 2 ^ 16 * 2 ^ 16 * 2 ^ 12) in
    let off_low = offset % 2 ^ 16 in u32 (dev.drv_data.base + off_high + off_low)

-- `addr++` moves the offset of a far pointer.
abbrev pub far_next : ℕ → ℕ
far_next addr = addr / 2 ^ 16 * 2 ^ 16 + u16 (addr % 2 ^ 16 + 1)

abbrev pub private_of : ℕ → CfiPrivate
private_of base = record {
  base = base;
  reg0 = u32 (base + 21845);
  reg1 = u32 (base + 10922);
  addr0 = base;
  addr1 = u32 (base + 1);
}

abbrev pub device_of : CfiFlash → FlashDevice
device_of cfg = record {
  block_size = cfg.sector_size;
  block_shift = cfg.sector_shift;
  block_count = cfg.sector_count;
  drv_data = private_of cfg.base_addr;
}

abbrev pub and_then : {A B : Type 0} → Option A → (A → Option B) → Option B
and_then none f = none
and_then (some a) f = f a

module _ {S : Type 0} (mem : FarMemory S) where
  pub cfi_toggle_wait : ℕ → ℕ → S → Option S
  cfi_toggle_wait zero addr s = none
  cfi_toggle_wait (suc fuel) addr s =
      let (byte0, s1) = mem.read addr s in
      let (byte1, s2) = mem.read addr s1 in
      let rest = cfi_toggle_wait fuel addr s2 in
      if bit_and byte0 64 == bit_and byte1 64 then some s2 else rest

  -- The writes that open a command.
  abbrev pub unlock : CfiPrivate → S → S
  unlock pdev s = mem.store pdev.reg1 85 (mem.store pdev.reg0 170 s)

  abbrev pub erase_command : CfiPrivate → ℕ → S → S
  erase_command pdev addr s =
      mem.store addr 48 (unlock pdev (mem.store pdev.reg0 128 (unlock pdev s)))

  abbrev pub program_command : CfiPrivate → ℕ → ℕ → S → S
  program_command pdev addr byte s = mem.store addr byte (mem.store pdev.reg0 160 (unlock pdev s))

  pub cfi_erase_block : ℕ → CfiPrivate → ℕ → S → Option S
  unfolding cfi_toggle_wait
  cfi_erase_block fuel pdev addr s = cfi_toggle_wait fuel addr (erase_command pdev addr s)

  pub cfi_write_byte : ℕ → CfiPrivate → ℕ → ℕ → S → Option S
  unfolding cfi_toggle_wait
  cfi_write_byte fuel pdev addr byte s =
      cfi_toggle_wait fuel addr (program_command pdev addr byte s)

  -- The bytes of a block.
  pub write_bytes : ℕ → CfiPrivate → ℕ → List ℕ → S → Option S
  unfolding cfi_write_byte
  write_bytes fuel pdev addr [] s = some s
  write_bytes fuel pdev addr (byte ∷ bytes) s =
      and_then (cfi_write_byte fuel pdev addr byte s) (write_bytes fuel pdev (far_next addr) bytes)

  -- The loop of `cfi_write_block`, with so many blocks left.
  pub write_blocks : ℕ → FlashDevice → ℕ → ℕ → List ℕ → S → Option S
  unfolding cfi_get_block_addr cfi_erase_block write_bytes
  write_blocks fuel dev zero block bytes s = some s
  write_blocks fuel dev (suc n) block bytes s =
      let addr = cfi_get_block_addr dev block in
      and_then (cfi_erase_block fuel dev.drv_data addr s) (λ s1.
        and_then (write_bytes fuel dev.drv_data addr (take dev.block_size bytes) s1)
          (write_blocks fuel dev n (u32 (block + 1)) (drop dev.block_size bytes)))

  abbrev pub returning : Ret → Option S → Option (Ret × S)
  returning r none = none
  returning r (some s) = some (r, s)

  -- What is returned is counted in an `int`.
  pub cfi_write_block : ℕ → FlashDevice → ℕ → List ℕ → ℕ → S → Option (Ret × S)
  unfolding write_blocks
  cfi_write_block fuel dev block bytes count s =
      returning (to_int (count * dev.block_size)) (write_blocks fuel dev count block bytes s)

  -- The loop of `cfi_read_block`.
  pub read_blocks : FlashDevice → ℕ → ℕ → S → List ℕ × S
  unfolding cfi_get_block_addr
  read_blocks dev zero block s = ([], s)
  read_blocks dev (suc n) block s =
      let (bytes, s1) = mem.copy (cfi_get_block_addr dev block) dev.block_size s in
      let (more, s2) = read_blocks dev n (u32 (block + 1)) s1 in (bytes ++ more, s2)

  pub cfi_read_block : FlashDevice → ℕ → ℕ → S → (Ret × List ℕ) × S
  unfolding read_blocks
  cfi_read_block dev block count s =
      let (bytes, s') = read_blocks dev count block s in
      ((to_int (count * dev.block_size), bytes), s')

  -- The numbers of the vendor and of the chip.
  pub cfi_identity : CfiPrivate → S → (ℕ × ℕ) × S
  cfi_identity pdev s =
      let (vendor_id, s1) = mem.read pdev.addr0 (mem.store pdev.reg0 144 (unlock pdev s)) in
      let (dev_id, s2) = mem.read pdev.addr1 s1 in
      ((vendor_id, dev_id), mem.store pdev.reg0 240 (unlock pdev s2))

  -- The device that is registered, if the board has a flash with a configuration, calloc gives both
  -- structures, and the chip is the one that is expected.
  pub cfi_probe : Bool → Bool → Option CfiFlash → S → Option FlashDevice × S
  unfolding cfi_identity
  cfi_probe can_alloc can_alloc' none s = (none, s)
  cfi_probe can_alloc can_alloc' (some cfg) s =
      let ((vendor_id, chip_id), s') = cfi_identity (private_of cfg.base_addr) s in
      if can_alloc
      then (if cfg.vendor_id == vendor_id && cfg.chip_id == chip_id
          then (if can_alloc' then some (device_of cfg) else none, s')
          else (none, s'))
      else (none, s)
