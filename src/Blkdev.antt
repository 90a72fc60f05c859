-- ===== src/Blkdev.antt =====
-- kernel/core/blkdev.c: block devices, and byte access to them.
-- A driver is a pair of functions over a state of the hardware. A read returns the bytes that land
-- at the pointer it was given; a write takes the bytes from the pointer on. `malloc` of the
-- temporary buffer is an argument, `can_alloc`.
pub mod Trim
pub mod Disk
pub mod Read
pub mod Write
pub mod WriteParts
pub mod RoundTrip
mod Tests
use i80k.Base.{
  ℕ, ◌+◌, ◌-◌, ◌*◌, ◌/◌, ◌%◌, ◌^◌, min, Bool, true, not, Option, none, some, List, [], ◌++◌, ◌==◌,
  leb, ltb, if◌then◌else◌, is_none, take, drop, slice, blit,
}
use i80k.Base.Word.{Ret, ok, err, u16, u32, sub32, slt32, to_int}
use i80k.Base.Io.{Res, val, stop, Io, pure, ◌>>=◌}

abbrev pub err_io : ℕ
err_io = 5

abbrev pub err_no_mem : ℕ
err_no_mem = 12

abbrev pub err_inval : ℕ
err_inval = 22

-- What fills `read` and `write`: the functions of this file, or the driver's own.
pub data Reader (S : Type 0) : Type 0 where
  default_read : Reader S
  own_read : (ℕ → ℕ → S → (Ret × List ℕ) × S) → Reader S

pub data Writer (S : Type 0) : Type 0 where
  default_write : Writer S
  own_write : (List ℕ → ℕ → ℕ → S → Ret × S) → Writer S

-- `struct blkdev`; an unset function is none.
pub record BlkDev (S : Type 0) : Type 0 where
  pub name : List ℕ
  pub block_size : ℕ
  pub block_shift : ℕ
  pub block_count : ℕ
  pub read_block : Option (ℕ → ℕ → S → (Ret × List ℕ) × S)
  pub write_block : Option (List ℕ → ℕ → ℕ → S → Ret × S)
  pub read : Option (Reader S)
  pub write : Option (Writer S)

-- Between the parts of a default transfer: the bytes read, or still to write; the length left; the
-- next block; `bytes_read` or `bytes_written`.
pub record Progress : Type 0 where
  pub bytes : List ℕ
  pub left : ℕ
  pub block : ℕ
  pub done : ℕ

module _ {S : Type 0} where
  -- `blk_block_trim_range`: `block + count` is a sum of `uint32_t`, the result a `size_t`.
  pub block_trim_range : BlkDev S → ℕ → ℕ → ℕ
  block_trim_range dev block count =
      if leb dev.block_count block
      then 0
      else if count == 0
      then 0
      else if ltb dev.block_count (u32 (block + count))
      then u16 (sub32 dev.block_count block)
      else count

  -- `blk_trim_range`: offsets are 32-bit patterns of the signed `off_t`.
  pub trim_range : BlkDev S → ℕ → ℕ → ℕ
  trim_range dev offset len =
      let total_size = u32 (dev.block_size * dev.block_count) in
      if not (slt32 offset total_size)
      then 0
      else if len == 0
      then 0
      else if slt32 total_size (u32 (offset + len))
      then u16 (sub32 total_size offset)
      else len

  -- The call of `dev->read_block` on the trimmed count; `buf` tells whether the pointer is set.
  abbrev pub run_read :
      Option (ℕ → ℕ → S → (Ret × List ℕ) × S) → Bool → ℕ → ℕ → S → (Ret × List ℕ) × S
  run_read none buf block count s = ((err err_inval, []), s)
  run_read (some f) buf block count s =
      if not buf
      then ((err err_inval, []), s)
      else if count == 0
      then ((ok 0, []), s)
      else f block count s

  abbrev pub run_write : Option (List ℕ → ℕ → ℕ → S → Ret × S) → List ℕ → ℕ → ℕ → S → Ret × S
  run_write none bytes block count s = (err err_inval, s)
  run_write (some f) bytes block count s = if count == 0 then (ok 0, s) else f bytes block count s

  -- `blk_read_block`
  pub read_block : Option (BlkDev S) → Bool → ℕ → ℕ → S → (Ret × List ℕ) × S
  read_block none buf block count s = ((err err_inval, []), s)
  read_block (some dev) buf block count s =
      run_read dev.read_block buf block (block_trim_range dev block count) s

  -- `blk_write_block`
  pub write_block : Option (BlkDev S) → Option (List ℕ) → ℕ → ℕ → S → Ret × S
  write_block none buf block count s = (err err_inval, s)
  write_block (some dev) none block count s = (err err_inval, s)
  write_block (some dev) (some bytes) block count s =
      run_write dev.write_block bytes block (block_trim_range dev block count) s

  -- `err < 0` and `(size_t)err != want`
  abbrev pub expect : {A : Type 0} → ℕ → Ret → A → S → Res A × S
  expect want (ok n) a s = if n == want then (val a, s) else (stop err_io, s)
  expect want (err e) a s = (stop e, s)

  -- The blocks that a call must deliver whole.
  pub read_blocks : BlkDev S → ℕ → ℕ → Io S (List ℕ)
  unfolding read_block
  read_blocks dev block count s =
      let ((r, bytes), s') = read_block (some dev) true block count s in
      expect (u32 (dev.block_size * count)) r bytes s'

  pub write_blocks : BlkDev S → List ℕ → ℕ → ℕ → Io S ℕ
  unfolding write_block
  write_blocks dev bytes block count s =
      let (r, s') = write_block (some dev) (some bytes) block count s in
      expect (u32 (dev.block_size * count)) r (u32 (dev.block_size * count)) s'

  -- "Handle partial first block."
  pub read_first : BlkDev S → ℕ → ℕ → Io S Progress
  unfolding read_blocks
  read_first dev offset len =
      let block = offset / dev.block_size in
      let block_offset = offset % dev.block_size in
      if block_offset == 0
      then pure (record { bytes = []; left = len; block = block; done = 0 })
      else do
        temp ← read_blocks dev block 1
        let tocopy = min (dev.block_size - block_offset) len
        pure (record {
          bytes = slice temp block_offset tocopy;
          left = len - tocopy;
          block = block + 1;
          done = tocopy;
        })

  -- "Handle middle blocks."
  pub read_middle : BlkDev S → Progress → Io S Progress
  unfolding read_blocks
  read_middle dev p = do
    let num_blocks = p.left / 2 ^ dev.block_shift
    bytes ← read_blocks dev p.block num_blocks
    pure (record {
      bytes = p.bytes ++ bytes;
      left = p.left - dev.block_size * num_blocks;
      block = p.block + num_blocks;
      done = p.done + dev.block_size * num_blocks;
    })

  -- "Handle partial last block."
  pub read_last : BlkDev S → Progress → Io S Progress
  unfolding read_blocks
  read_last dev p = if p.left == 0 then pure p else do
    temp ← read_blocks dev p.block 1
    pure (record p { bytes = p.bytes ++ take p.left temp; done = p.done + p.left })

  pub write_first : BlkDev S → List ℕ → ℕ → ℕ → Io S Progress
  unfolding read_blocks write_blocks
  write_first dev buf offset len =
      let block = offset / dev.block_size in
      let block_offset = offset % dev.block_size in
      if block_offset == 0
      then pure (record { bytes = buf; left = len; block = block; done = 0 })
      else do
        temp ← read_blocks dev block 1
        let tocopy = min (dev.block_size - block_offset) len
        _ ← write_blocks dev (blit temp block_offset (take tocopy buf)) block 1
        pure (record {
          bytes = drop tocopy buf;
          left = len - tocopy;
          block = block + 1;
          done = tocopy;
        })

  pub write_middle : BlkDev S → Progress → Io S Progress
  unfolding write_blocks
  write_middle dev p = do
    let num_blocks = p.left / 2 ^ dev.block_shift
    n ← write_blocks dev p.bytes p.block num_blocks
    pure (record {
      bytes = drop n p.bytes;
      left = p.left - n;
      block = p.block + num_blocks;
      done = p.done + n;
    })

  pub write_last : BlkDev S → Progress → Io S Progress
  unfolding read_blocks write_blocks
  write_last dev p = if p.left == 0 then pure p else do
    temp ← read_blocks dev p.block 1
    _ ← write_blocks dev (blit temp 0 (take p.left p.bytes)) p.block 1
    pure (record p { done = p.done + p.left })

  -- The label `err:` of `blk_default_read`: the bytes read as an `int`, or the error. What an
  -- erroneous transfer left in the buffer is not kept.
  abbrev pub read_result : Res Progress × S → (Ret × List ℕ) × S
  read_result (val p, s) = ((to_int p.done, p.bytes), s)
  read_result (stop e, s) = ((err e, []), s)

  abbrev pub write_result : Res Progress × S → Ret × S
  write_result (val p, s) = (to_int p.done, s)
  write_result (stop e, s) = (err e, s)

  pub blk_default_read : (ℕ → Bool) → BlkDev S → ℕ → ℕ → S → (Ret × List ℕ) × S
  unfolding read_first read_middle read_last
  blk_default_read can_alloc dev offset len s =
      if can_alloc dev.block_size
      then read_result
          ((do p ← read_first dev offset len; q ← read_middle dev p; read_last dev q) s)
      else ((err err_no_mem, []), s)

  pub blk_default_write : (ℕ → Bool) → BlkDev S → List ℕ → ℕ → ℕ → S → Ret × S
  unfolding write_first write_middle write_last
  blk_default_write can_alloc dev buf offset len s =
      if can_alloc dev.block_size
      then write_result
          ((do p ← write_first dev buf offset len; q ← write_middle dev p; write_last dev q) s)
      else (err err_no_mem, s)

  -- The call of `dev->read` on the trimmed length.
  pub call_read : (ℕ → Bool) → BlkDev S → Option (Reader S) → Bool → ℕ → ℕ → S → (Ret × List ℕ) × S
  unfolding blk_default_read
  call_read can_alloc dev none buf offset len s = ((err err_inval, []), s)
  call_read can_alloc dev (some default_read) buf offset len s =
      if not buf
      then ((err err_inval, []), s)
      else if len == 0
      then ((ok 0, []), s)
      else blk_default_read can_alloc dev offset len s
  call_read can_alloc dev (some (own_read f)) buf offset len s =
      if not buf
      then ((err err_inval, []), s)
      else if len == 0
      then ((ok 0, []), s)
      else f offset len s

  -- A call of an unset `dev->write`, which registration excludes, is modelled as a refusal.
  pub call_write : (ℕ → Bool) → BlkDev S → Option (Writer S) → List ℕ → ℕ → ℕ → S → Ret × S
  unfolding blk_default_write
  call_write can_alloc dev none bytes offset len s = (err err_inval, s)
  call_write can_alloc dev (some default_write) bytes offset len s =
      if len == 0 then (ok 0, s) else blk_default_write can_alloc dev bytes offset len s
  call_write can_alloc dev (some (own_write f)) bytes offset len s =
      if len == 0 then (ok 0, s) else f bytes offset len s

  pub blk_read : (ℕ → Bool) → Option (BlkDev S) → Bool → ℕ → ℕ → S → (Ret × List ℕ) × S
  unfolding call_read
  blk_read can_alloc none buf offset len s = ((err err_inval, []), s)
  blk_read can_alloc (some dev) buf offset len s =
      call_read can_alloc dev dev.read buf offset (trim_range dev offset len) s

  -- The guard of `blk_write` is on `dev->read`.
  pub blk_write : (ℕ → Bool) → Option (BlkDev S) → Option (List ℕ) → ℕ → ℕ → S → Ret × S
  unfolding call_write
  blk_write can_alloc none buf offset len s = (err err_inval, s)
  blk_write can_alloc (some dev) none offset len s = (err err_inval, s)
  blk_write can_alloc (some dev) (some bytes) offset len s =
      if is_none dev.read
      then (err err_inval, s)
      else call_write can_alloc dev dev.write bytes offset (trim_range dev offset len) s
