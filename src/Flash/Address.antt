-- ===== src/Flash/Address.antt =====
-- kernel/drivers/block/cfi/cfi.c: the far address of a block, and the place in memory that it names.
use i80k.Base.{ℕ, ◌+◌, ◌*◌, ◌/◌, ◌%◌, ◌^◌, ◌≡◌, ◌<◌, arith}
use i80k.Base.Word.{u32}
use i80k.Flash.{FlashDevice, cfi_get_block_addr}

-- What the processor makes of a far pointer: the segment times 16, and the offset.
abbrev pub physical : ℕ → ℕ
physical addr = addr / 2 ^ 16 * 16 + addr % 2 ^ 16

-- On a chip that starts at a segment and ends within the megabyte of the processor, the far address
-- of a block names the place that is as many bytes behind the start as the blocks before it have.
pub cfi_get_block_addr-physical :
    (dev : FlashDevice) (block : ℕ)
    → dev.drv_data.base % 2 ^ 16 ≡ 0
    → physical dev.drv_data.base + block * dev.block_size < 2 ^ 20
    → physical (cfi_get_block_addr dev block) ≡ physical dev.drv_data.base + block * dev.block_size
unfolding cfi_get_block_addr
cfi_get_block_addr-physical dev block aligned inside =
    let bytes = block * dev.block_size in
    let base = dev.drv_data.base in by_offset base bytes aligned inside
  where
    by_offset :
        (base offset : ℕ)
        → base % 2 ^ 16 ≡ 0
        → physical base + offset < 2 ^ 20
        → physical (u32 (base + u32 (u32 offset / 2 ^ 16 * 2 ^ 16 * 2 ^ 12) + u32 offset % 2 ^ 16))
          ≡ physical base + offset
    by_offset base offset aligned inside = omega (arith, aligned, inside)
