-- ===== src/Blkdev/Trim.antt =====
-- `blk_block_trim_range` and `blk_trim_range`: what is left of a transfer on the device.
use i80k.Base.{ℕ, ◌+◌, ◌-◌, ◌*◌, ◌^◌, ◌<◌, min, ◌≡◌, arith}
use i80k.Blkdev.{BlkDev, block_trim_range, trim_range}

module _ {S : Type 0} (dev : BlkDev S) where
  -- Where `block + count` does not wrap, the count is cut to the blocks that the device has from
  -- the start of the transfer on.
  pub block_trim_range-min :
      (block count : ℕ)
      → count < 2 ^ 16
      → block + count < 2 ^ 32
      → dev.block_count < 2 ^ 32
      → block_trim_range dev block count ≡ min count (dev.block_count - block)
  unfolding block_trim_range
  block_trim_range-min block count small sum total = ground arith

  -- On a device whose size in bytes is a non-negative `off_t`, a length is cut to the bytes that
  -- the device has from a non-negative offset on, if `offset + len` does not overflow.
  pub trim_range-min :
      (offset len : ℕ)
      → len < 2 ^ 16
      → dev.block_size * dev.block_count < 2 ^ 31
      → offset + len < 2 ^ 31
      → trim_range dev offset len ≡ min len (dev.block_size * dev.block_count - offset)
  unfolding trim_range
  trim_range-min offset len small total sum = ground arith
