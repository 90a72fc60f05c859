-- ===== src/Subdev/Window.antt =====
-- A published partition is a disk of its own: the window on its parent that the entry names.
use i80k.Base.{
  ◌-◌, min, some, true, false, is_none, ℕ, ◌+◌, ◌*◌, ◌^◌, ◌≤◌, ◌<◌, ◌≡◌, refl, ap, ◌∙◌, arith, Bool,
  List, length, slice, blit, take, slice-slice, slice-blit_inside, length-slice, length-take,
  ==_of_ne,
}
use native.Mathlib.Nat.{mul-le-mul_left}
use i80k.Base.Word.{ok, u32}
use i80k.Blkdev.Read.{blk_read-slice}
use i80k.Blkdev.WriteParts.{blk_write-blit}
use i80k.Blkdev.{default_read, default_write, BlkDev}
use i80k.Blkdev.Disk.{IsDisk, count_small, read_whole, write_whole}
use i80k.Subdev.{
  subdev_read, subdev_write, MbrEntry, mbr_is_valid_entry, subdevice, subdev_read_block,
  subdev_write_block,
}

module _ {S : Type 0} {dev : BlkDev S} {view : S → List ℕ} (d : IsDisk dev view) where
  -- An entry that the check accepts, and whose end does not wrap, lies on the device.
  valid_entry_inside :
      (entry : MbrEntry)
      → mbr_is_valid_entry dev entry ≡ ok 0
      → entry.lba_start + entry.lba_len < 2 ^ 32
      → (0 < entry.lba_len) × (entry.lba_start + entry.lba_len ≤ dev.block_count)
  unfolding mbr_is_valid_entry
  valid_entry_inside entry h no_wrap = ground arith

  module _ (can_alloc : ℕ → Bool) (entry : MbrEntry) (index : ℕ)
      (valid : mbr_is_valid_entry dev entry ≡ ok 0)
      (no_wrap : entry.lba_start + entry.lba_len < 2 ^ 32) where
    abbrev pub window : S → List ℕ
    window s = slice (view s) (dev.block_size * entry.lba_start) (dev.block_size * entry.lba_len)

    inside : entry.lba_start + entry.lba_len ≤ dev.block_count
    inside = (valid_entry_inside entry valid no_wrap).1

    bytes_inside :
        dev.block_size * entry.lba_start + dev.block_size * entry.lba_len
        ≤ dev.block_size * dev.block_count
    bytes_inside = omega (arith, mul-le-mul_left dev.block_size inside)

    fits :
        (block count : ℕ)
        → block + count ≤ entry.lba_len
        → dev.block_size * block + dev.block_size * count ≤ dev.block_size * entry.lba_len
    fits block count h = omega (arith, mul-le-mul_left dev.block_size h)

    placed :
        (block : ℕ)
        → block ≤ entry.lba_len
        → u32 (block + entry.lba_start) ≡ block + entry.lba_start
    placed block h = omega (arith, inside, count_small d)

    -- The byte where a block of the partition starts on the parent.
    start_byte :
        (block : ℕ)
        → dev.block_size * (block + entry.lba_start)
          ≡ dev.block_size * entry.lba_start + dev.block_size * block
    start_byte block = omega arith

    reads :
        (block count : ℕ) (s : S)
        → 0 < count
        → block + count ≤ entry.lba_len
        → dev.block_size * count < 2 ^ 15
        → (s' : S) × (subdev_read_block dev entry.lba_start block count s ≡ (
          (
            ok (dev.block_size * count),
            slice (window s) (dev.block_size * block) (dev.block_size * count),
          ),
          s',
        ))
          × (window s' ≡ window s)
    unfolding subdev_read_block
    reads block count s pos h small =
        let (s', e, same) =
          d.reads (block + entry.lba_start) count s pos (omega (arith, inside)) small in
        let through =
          read_whole d (block + entry.lba_start) count s (omega (arith, inside)) small in
        let cut =
          slice-slice (view s) (dev.block_size * entry.lba_start) (dev.block_size * entry.lba_len)
            (dev.block_size * block) (dev.block_size * count) (fits block count h) in
        (
          s',
          rw
              (
                placed block (omega arith),
                through,
                ==_of_ne count 0 (omega arith),
                e,
                start_byte block,
                cut,
              )
              refl,
          ap (λ v. slice v (dev.block_size * entry.lba_start) (dev.block_size * entry.lba_len))
              same,
        )

    writes :
        (bytes : List ℕ) (block count : ℕ) (s : S)
        → 0 < count
        → block + count ≤ entry.lba_len
        → dev.block_size * count < 2 ^ 15
        → dev.block_size * count ≤ length bytes
        → (s' : S) × (subdev_write_block dev entry.lba_start bytes block count s
            ≡ (ok (dev.block_size * count), s'))
          × (window s'
              ≡ blit (window s) (dev.block_size * block) (take (dev.block_size * count) bytes))
    unfolding subdev_write_block
    writes bytes block count s pos h small long =
        let (s', e, same) =
          d.writes bytes (block + entry.lba_start) count s pos (omega (arith, inside)) small long in
        let through =
          write_whole d bytes (block + entry.lba_start) count s (omega (arith, inside)) small in
        (
          s',
          rw (placed block (omega arith), through, ==_of_ne count 0 (omega arith), e) refl,
          ap (λ v. slice v (dev.block_size * entry.lba_start) (dev.block_size * entry.lba_len))
                (same
                  ∙ ap (λ p. blit (view s) p (take (dev.block_size * count) bytes))
                      (start_byte block))
              ∙ slice-blit_inside (view s) (dev.block_size * entry.lba_start)
                  (dev.block_size * entry.lba_len) (dev.block_size * block)
                  (take (dev.block_size * count) bytes)
                  (omega (arith, length-take (dev.block_size * count) bytes, fits block count h)),
        )

    -- A published partition is a disk: its whole blocks are read and written through the calls on
    -- its parent, and are the parent's bytes that the entry names.
    pub subdevice-IsDisk : IsDisk (subdevice can_alloc dev entry index) window
    unfolding subdevice
    subdevice-IsDisk = record {
      shift = d.shift;
      size_is_int = d.size_is_int;
      total_is_off = omega (arith, bytes_inside, d.total_is_off);
      sized = sized;
      reader = subdev_read_block dev entry.lba_start;
      reader_set = refl;
      reads = reads;
      writer = subdev_write_block dev entry.lba_start;
      writer_set = refl;
      writes = writes;
    }
      where
        sized : (s : S) → length (window s) ≡ dev.block_size * entry.lba_len
        sized s =
            length-slice (view s) (dev.block_size * entry.lba_start)
              (dev.block_size * entry.lba_len) (omega (arith, d.sized s, bytes_inside))

    -- Where a byte of the partition stands on the parent.
    placed_byte :
        (offset : ℕ)
        → offset ≤ dev.block_size * entry.lba_len
        → u32 (offset + u32 (entry.lba_start * dev.block_size))
          ≡ dev.block_size * entry.lba_start + offset
    placed_byte offset h =
        let start = dev.block_size * entry.lba_start in
        let swap : entry.lba_start * dev.block_size ≡ start = omega arith in
        omega (arith, swap, bytes_inside, d.total_is_off)

    -- A read inside a published partition, on a parent whose reads are the default ones: it yields
    -- the partition's bytes.
    subdev_read-slice :
        (offset len : ℕ) (s : S)
        → dev.read ≡ some default_read
        → can_alloc dev.block_size ≡ true
        → len < 2 ^ 15
        → offset + len ≤ dev.block_size * entry.lba_len
        → (s' : S) × (subdev_read can_alloc dev entry.lba_start offset len s
            ≡ ((ok len, slice (window s) offset len), s'))
          × (window s' ≡ window s)
    unfolding subdev_read
    subdev_read-slice offset len s set mem small h =
        let start = dev.block_size * entry.lba_start in
        let all : min len (dev.block_size * dev.block_count - (start + offset)) ≡ len =
          omega (arith, bytes_inside) in
        let (s', e, same) =
          blk_read-slice d can_alloc (start + offset) len s set mem small
            (omega (arith, bytes_inside, d.total_is_off)) in
        (
          s',
          rw
              (
                placed_byte offset (omega arith),
                e,
                all,
                slice-slice (view s) start (dev.block_size * entry.lba_len) offset len h,
              )
              refl,
          ap (λ v. slice v start (dev.block_size * entry.lba_len)) same,
        )

    -- A write inside a published partition, on a parent with the default functions: the partition
    -- holds the bytes at the offset, and its other bytes are kept.
    subdev_write-blit :
        (bytes : List ℕ) (offset len : ℕ) (s : S)
        → is_none dev.read ≡ false
        → dev.write ≡ some default_write
        → can_alloc dev.block_size ≡ true
        → len < 2 ^ 15
        → len ≤ length bytes
        → offset + len ≤ dev.block_size * entry.lba_len
        → (s' : S) × (subdev_write can_alloc dev entry.lba_start bytes offset len s ≡ (ok len, s'))
          × (window s' ≡ blit (window s) offset (take len bytes))
    unfolding subdev_write
    subdev_write-blit bytes offset len s readable set mem small long h =
        let start = dev.block_size * entry.lba_start in
        let all : min len (dev.block_size * dev.block_count - (start + offset)) ≡ len =
          omega (arith, bytes_inside) in
        let (s', e, same) =
          blk_write-blit d can_alloc bytes (start + offset) len s readable set mem small long
            (omega (arith, bytes_inside, d.total_is_off)) in
        (
          s',
          rw (placed_byte offset (omega arith), e, all) refl,
          ap (λ v. slice v start (dev.block_size * entry.lba_len))
                (same ∙ ap (λ n. blit (view s) (start + offset) (take n bytes)) all)
              ∙ slice-blit_inside (view s) start (dev.block_size * entry.lba_len) offset
                  (take len bytes) (omega (arith, length-take len bytes)),
        )
