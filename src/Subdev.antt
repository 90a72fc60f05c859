-- ===== src/Subdev.antt =====
-- kernel/core/subdev.c: the partitions of a master boot record, published as devices of their own.
pub mod Window
mod Tests
use i80k.Base.{
  ℕ, ◌+◌, ◌*◌, ◌^◌, Bool, true, false, not, ◌||◌, ◌&&◌, Option, none, some, List, [], ◌∷◌, ◌++◌,
  ◌==◌, leb, ltb, if◌then◌else◌, slice, take, get_or, is_none,
}
use i80k.Base.Word.{Ret, ok, err, u32}
use i80k.Blkdev.{
  BlkDev, Reader, Writer, own_read, own_write, read_block, write_block, blk_read, blk_write,
  err_inval, err_io, err_no_mem,
}
use i80k.Registry.{with_defaults, blk_dev_add, blk_register_subdevice}

abbrev pub err_no_dev : ℕ
err_no_dev = 19

abbrev pub mbr_size : ℕ
mbr_size = 512

-- `struct mbr_entry`, less the cylinder, head and sector numbers, which nothing reads.
pub record MbrEntry : Type 0 where
  pub status : ℕ
  pub kind : ℕ
  pub lba_start : ℕ
  pub lba_len : ℕ

-- A `uint32_t` at a place in a buffer, on this little-endian machine.
abbrev pub le32_at : List ℕ → ℕ → ℕ
le32_at buf p =
    get_or buf p 0
    + 2 ^ 8 * get_or buf (p + 1) 0
    + 2 ^ 16 * get_or buf (p + 2) 0
    + 2 ^ 24 * get_or buf (p + 3) 0

-- `entries[i]`, sixteen bytes each from byte 446 on.
pub entry_at : List ℕ → ℕ → MbrEntry
entry_at buf i =
    let p = 446 + 16 * i in
    record {
      status = get_or buf p 0;
      kind = get_or buf (p + 4) 0;
      lba_start = le32_at buf (p + 8);
      lba_len = le32_at buf (p + 12);
    }

abbrev pub is_err : Ret → Bool
is_err (ok n) = false
is_err (err e) = true

-- `sizeof(struct blksubdev)` on the target.
abbrev pub sizeof_subdev : ℕ
sizeof_subdev = 30

module _ {S : Type 0} where
  pub mbr_is_valid_entry : BlkDev S → MbrEntry → Ret
  mbr_is_valid_entry dev entry =
      if entry.kind == 0
      then err err_no_dev
      else if not (entry.status == 0x80) && not (entry.status == 0)
      then err err_no_dev
      else if entry.lba_len == 0
      then err err_no_dev
      else if leb dev.block_count entry.lba_start
      then err err_inval
      else if ltb dev.block_count (u32 (entry.lba_start + entry.lba_len))
      then err err_inval
      else ok 0

  pub subdev_read_block : BlkDev S → ℕ → ℕ → ℕ → S → (Ret × List ℕ) × S
  subdev_read_block parent offset block count s =
      read_block (some parent) true (u32 (block + offset)) count s

  pub subdev_write_block : BlkDev S → ℕ → List ℕ → ℕ → ℕ → S → Ret × S
  subdev_write_block parent offset bytes block count s =
      write_block (some parent) (some bytes) (u32 (block + offset)) count s

  -- The offset in bytes is a product and a sum of 32-bit words.
  pub subdev_read : (ℕ → Bool) → BlkDev S → ℕ → ℕ → ℕ → S → (Ret × List ℕ) × S
  subdev_read can_alloc parent start offset len s =
      blk_read can_alloc (some parent) true (u32 (offset + u32 (start * parent.block_size))) len s

  pub subdev_write : (ℕ → Bool) → BlkDev S → ℕ → List ℕ → ℕ → ℕ → S → Ret × S
  subdev_write can_alloc parent start bytes offset len s =
      blk_write can_alloc (some parent) (some bytes)
        (u32 (offset + u32 (start * parent.block_size))) len s

  -- The device that `mbr_publish_device` fills in. `index + 1` is one digit, and the name has room
  -- for eleven bytes and its end.
  pub subdevice : (ℕ → Bool) → BlkDev S → MbrEntry → ℕ → BlkDev S
  unfolding subdev_read_block subdev_write_block subdev_read subdev_write
  subdevice can_alloc dev entry index = record {
    name = take 11 (dev.name ++ ((b'0' + (index + 1)) ∷ []));
    block_size = dev.block_size;
    block_shift = dev.block_shift;
    block_count = entry.lba_len;
    read_block = some (subdev_read_block dev entry.lba_start);
    write_block = some (subdev_write_block dev entry.lba_start);
    read = some (own_read (subdev_read can_alloc dev entry.lba_start));
    write = some (own_write (subdev_write can_alloc dev entry.lba_start));
  }

  pub mbr_publish_device :
      (ℕ → Bool) → BlkDev S → MbrEntry → ℕ → List (BlkDev S) → Ret × List (BlkDev S)
  unfolding mbr_is_valid_entry subdevice
  mbr_publish_device can_alloc dev entry index devices =
      if is_err (mbr_is_valid_entry dev entry)
      then (err err_no_dev, devices)
      else if not (can_alloc 12)
      then (err err_no_mem, devices)
      else if not (can_alloc sizeof_subdev)
      then (err err_no_mem, devices)
      else (ok 0, blk_register_subdevice (some (subdevice can_alloc dev entry index)) devices)

  -- The loop over the entries, whose results are ignored.
  pub publish_all : (ℕ → Bool) → BlkDev S → List ℕ → List ℕ → List (BlkDev S) → List (BlkDev S)
  unfolding mbr_publish_device entry_at
  publish_all can_alloc dev buf [] devices = devices
  publish_all can_alloc dev buf (i ∷ is) devices =
      publish_all can_alloc dev buf is
        (mbr_publish_device can_alloc dev (entry_at buf i) i devices).1

  -- What `mbr_probe` makes of the sector that it read.
  pub mbr_read : (ℕ → Bool) → BlkDev S → Ret → List ℕ → List (BlkDev S) → Ret × List (BlkDev S)
  unfolding publish_all
  mbr_read can_alloc dev (err e) buf devices = (err e, devices)
  mbr_read can_alloc dev (ok len) buf devices =
      if not (len == mbr_size)
      then (err err_io, devices)
      else if not (get_or buf 510 0 == 0x55) || not (get_or buf 511 0 == 0xaa)
      then (err err_io, devices)
      else (ok 0, publish_all can_alloc dev buf (0 ∷ 1 ∷ 2 ∷ 3 ∷ []) devices)

  pub mbr_probe : (ℕ → Bool) → BlkDev S → List (BlkDev S) → S → (Ret × List (BlkDev S)) × S
  unfolding mbr_read
  mbr_probe can_alloc dev devices s =
      let ((len, buf), s') = blk_read can_alloc (some dev) true 0 mbr_size s in
      if can_alloc mbr_size
      then (mbr_read can_alloc dev len buf devices, s')
      else ((ok 0, devices), s)

  -- `blk_register`: the device, and then the partitions that a probe finds on it.
  pub blk_register : (ℕ → Bool) → Option (BlkDev S) → List (BlkDev S) → S → List (BlkDev S) × S
  unfolding mbr_probe
  blk_register can_alloc none devices s = (devices, s)
  blk_register can_alloc (some dev) devices s =
      let ((result, published), s') =
        mbr_probe can_alloc (with_defaults dev) (blk_dev_add (some dev) devices).1 s in
      (published, s')
