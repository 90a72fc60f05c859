-- ===== src/Blkdev/Disk.antt =====
-- What a driver promises: its device is an array of bytes, and whole blocks in range are read from
-- it and written to it.
use i80k.Base.{
  ℕ, zero, suc, ◌+◌, ◌*◌, ◌/◌, ◌%◌, ◌^◌, ◌≤◌, ◌<◌, ◌≡◌, refl, ap, ap₂, true, ◌==◌, blit-nil,
  ==_of_ne, sym, arith, some, List, length, take, slice, blit,
}
use i80k.Base.Word.{Ret, ok, u32}
use i80k.Base.Io.{Yields, yields}
use i80k.Blkdev.{
  BlkDev, block_trim_range, run_read, run_write, read_block, write_block, read_blocks, write_blocks,
}
use i80k.Blkdev.Trim.{block_trim_range-min}
use native.Mathlib.Nat.{one-le-pow, mul-zero, div-add-mod, mod-lt}

pub record IsDisk {S : Type 0} (dev : BlkDev S) (view : S → List ℕ) : Type 0 where
  -- The geometry that the block layer takes for granted.
  pub shift : dev.block_size ≡ 2 ^ dev.block_shift
  pub size_is_int : dev.block_size < 2 ^ 15
  pub total_is_off : dev.block_size * dev.block_count < 2 ^ 31
  pub sized : (s : S) → length (view s) ≡ dev.block_size * dev.block_count
  pub reader : ℕ → ℕ → S → (Ret × List ℕ) × S
  pub reader_set : dev.read_block ≡ some reader
  pub reads :
      (block count : ℕ) (s : S)
      → 0 < count
      → block + count ≤ dev.block_count
      → dev.block_size * count < 2 ^ 15
      → (s' : S) × (reader block count s ≡ (
        (
          ok (dev.block_size * count),
          slice (view s) (dev.block_size * block) (dev.block_size * count),
        ),
        s',
      ))
        × (view s' ≡ view s)
  pub writer : List ℕ → ℕ → ℕ → S → Ret × S
  pub writer_set : dev.write_block ≡ some writer
  pub writes :
      (bytes : List ℕ) (block count : ℕ) (s : S)
      → 0 < count
      → block + count ≤ dev.block_count
      → dev.block_size * count < 2 ^ 15
      → dev.block_size * count ≤ length bytes
      → (s' : S) × (writer bytes block count s ≡ (ok (dev.block_size * count), s'))
        × (view s' ≡ blit (view s) (dev.block_size * block) (take (dev.block_size * count) bytes))

module _ {S : Type 0} {dev : BlkDev S} {view : S → List ℕ} (d : IsDisk dev view) where
  pub size_pos : 0 < dev.block_size
  size_pos = omega (arith, d.shift, one-le-pow dev.block_shift 2 (omega arith))

  pub count_small : dev.block_count < 2 ^ 31
  count_small = grind (arith, size_pos, d.total_is_off)

  -- Where a position stands between the blocks of the disk.
  pub split_pos : (x : ℕ) → dev.block_size * (x / dev.block_size) + x % dev.block_size ≡ x
  split_pos x = div-add-mod x dev.block_size

  pub rest-lt : (x : ℕ) → x % dev.block_size < dev.block_size
  rest-lt x = mod-lt x (size_pos)

  pub shifted : (x : ℕ) → x / 2 ^ dev.block_shift ≡ x / dev.block_size
  shifted x = ap (λ n. x / n) (sym d.shift)

  -- A block that holds a byte of the disk is a block of the disk.
  pub block-lt :
      (b x : ℕ)
      → dev.block_size * b ≤ x
      → x < dev.block_size * dev.block_count
      → b + 1 ≤ dev.block_count
  block-lt b x h k = grind (arith, size_pos)

  pub block-le :
      (b : ℕ) → dev.block_size * b ≤ dev.block_size * dev.block_count → b ≤ dev.block_count
  block-le b h = grind (arith, size_pos)

  -- A call that stays on the device is not cut.
  trim_inside :
      (block count : ℕ)
      → block + count ≤ dev.block_count
      → dev.block_size * count < 2 ^ 15
      → block_trim_range dev block count ≡ count
  trim_inside block count inside small =
      let c : count < 2 ^ 15 = grind (arith, size_pos) in
      omega (
        arith,
        block_trim_range-min dev block count (omega arith) (omega (arith, count_small))
            (omega (arith, count_small)),
      )

  word : (n : ℕ) → dev.block_size * n < 2 ^ 15 → u32 (dev.block_size * n) ≡ dev.block_size * n
  word n small = omega arith

  exact :
      (n : ℕ)
      → dev.block_size * n < 2 ^ 15
      → (dev.block_size * n == u32 (dev.block_size * n)) ≡ true
  exact n small = ground arith

  pub read_whole :
      (block count : ℕ) (s : S)
      → block + count ≤ dev.block_count
      → dev.block_size * count < 2 ^ 15
      → read_block (some dev) true block count s ≡ run_read (some d.reader) true block count s
  unfolding read_block
  read_whole block count s inside small =
      ap₂ (λ f n. run_read f true block n s) d.reader_set (trim_inside block count inside small)

  pub write_whole :
      (bytes : List ℕ) (block count : ℕ) (s : S)
      → block + count ≤ dev.block_count
      → dev.block_size * count < 2 ^ 15
      → write_block (some dev) (some bytes) block count s
        ≡ run_write (some d.writer) bytes block count s
  unfolding write_block
  write_whole bytes block count s inside small =
      ap₂ (λ f n. run_write f bytes block n s) d.writer_set (trim_inside block count inside small)

  -- Blocks in range are read as they stand on the disk.
  pub read_blocks-slice :
      (block count : ℕ) (s : S)
      → block + count ≤ dev.block_count
      → dev.block_size * count < 2 ^ 15
      → Yields
          (λ bytes s'.
            (bytes ≡ slice (view s) (dev.block_size * block) (dev.block_size * count))
            × (view s' ≡ view s))
          (read_blocks dev block count s)
  unfolding read_blocks
  read_blocks-slice block zero s inside small =
      rw (read_whole block 0 s inside small, mul-zero) (yields (refl, refl))
  read_blocks-slice block (suc n) s inside small =
      let (s', e, same) = d.reads block (suc n) s (omega arith) inside small in
      rw
        (
          read_whole block (suc n) s inside small,
          ==_of_ne (suc n) 0 (omega arith),
          e,
          exact (suc n) small,
        )
        (yields (refl, same))

  -- Blocks in range are written over what stood there.
  pub write_blocks-blit :
      (bytes : List ℕ) (block count : ℕ) (s : S)
      → block + count ≤ dev.block_count
      → dev.block_size * count < 2 ^ 15
      → dev.block_size * count ≤ length bytes
      → Yields
          (λ n s'.
            (n ≡ dev.block_size * count)
            × (view s'
                ≡ blit (view s) (dev.block_size * block) (take (dev.block_size * count) bytes)))
          (write_blocks dev bytes block count s)
  unfolding write_blocks
  write_blocks-blit bytes block zero s inside small enough =
      rw (write_whole bytes block 0 s inside small, mul-zero)
        (yields (refl, sym (blit-nil (view s) (dev.block_size * block))))
  write_blocks-blit bytes block (suc n) s inside small enough =
      let (s', e, new) = d.writes bytes block (suc n) s (omega arith) inside small enough in
      rw
        (
          write_whole bytes block (suc n) s inside small,
          ==_of_ne (suc n) 0 (omega arith),
          e,
          exact (suc n) small,
        )
        (yields (word (suc n) small, new))
