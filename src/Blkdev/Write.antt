-- ===== src/Blkdev/Write.antt =====
-- The first part of `blk_default_write` on a disk, and what holds between the parts.
use i80k.Base.{
  ℕ, ◌+◌, ◌-◌, ◌*◌, ◌/◌, ◌%◌, ◌≤◌, ◌<◌, min, ◌≡◌, refl, ap, ap₂, sym, ◌∙◌, arith, Bool-split, inl,
  inr, List, length, take, drop, slice, blit, blit-nil, blit-blit-slice, take_all, length-take,
  length-blit, length-slice, eq_of_==, ◌==◌,
}
use i80k.Base.Io.{pure, Yields, yields, Yields-bind}
use i80k.Blkdev.{BlkDev, Progress, write_first}
use i80k.Blkdev.Disk.{IsDisk, read_blocks-slice, write_blocks-blit, split_pos, rest-lt, block-lt}

module _ {S : Type 0} {dev : BlkDev S} {view : S → List ℕ} (d : IsDisk dev view) where
  -- A block of the disk, as a range of it.
  pub block-inside :
      (b : ℕ)
      → b + 1 ≤ dev.block_count
      → dev.block_size * b + dev.block_size * 1 ≤ dev.block_size * dev.block_count
  block-inside b h = grind arith

  -- Reading a block, changing some bytes of it and writing it back changes those bytes of the disk.
  pub patched :
      (b q : ℕ) (src temp : List ℕ) (s s' s'' : S)
      → b + 1 ≤ dev.block_count
      → q + length src ≤ dev.block_size
      → temp ≡ slice (view s) (dev.block_size * b) (dev.block_size * 1)
      → view s' ≡ view s
      → view s'' ≡ blit (view s') (dev.block_size * b) (take (dev.block_size * 1) (blit temp q src))
      → view s'' ≡ blit (view s) (dev.block_size * b + q) src
  patched b q src temp s s' s'' inside fits t same new =
      new
      ∙ ap₂ (λ v x. blit v (dev.block_size * b) x) same
          (take_all (dev.block_size * 1) (blit temp q src)
              (omega (arith, length-blit temp q src, temp_length))
            ∙ ap (λ x. blit x q src) t)
      ∙ blit-blit-slice (view s) (dev.block_size * b) (dev.block_size * 1) q src
          (omega (arith, d.sized s, block-inside b inside)) (omega arith)
    where
      temp_length : length temp ≡ dev.block_size * 1
      temp_length =
          ap length t
          ∙ length-slice (view s) (dev.block_size * b) (dev.block_size * 1)
              (omega (arith, d.sized s, block-inside b inside))

  -- After some parts of a write of the first `len` bytes of `buf` from `offset` on, begun in the
  -- state `s`: what is done is on the disk, which is otherwise as it was.
  pub record Writing (s : S) (buf : List ℕ) (offset len : ℕ) (p : Progress) (s' : S) : Type 0 where
    pub new : view s' ≡ blit (view s) offset (take p.done buf)
    pub bytes : p.bytes ≡ drop p.done buf
    pub whole : p.done + p.left ≡ len
    pub aligned : 0 < p.left → offset + p.done ≡ dev.block_size * p.block
    pub in_range : p.block ≤ dev.block_count

  module _ (buf : List ℕ) (offset len : ℕ) (s : S) (enough : len ≤ length buf)
      (inside : offset + len ≤ dev.block_size * dev.block_count) where
    abbrev copied : ℕ
    copied = min (dev.block_size - offset % dev.block_size) len

    abbrev partial_start : Progress
    partial_start = record {
      bytes = drop copied buf;
      left = len - copied;
      block = offset / dev.block_size + 1;
      done = copied;
    }

    abbrev aligned_start : Progress
    aligned_start = record { bytes = buf; left = len; block = offset / dev.block_size; done = 0 }

    pub write_first-Writing :
        0 < len → Yields (Writing s buf offset len) (write_first dev buf offset len s)
    unfolding write_first
    write_first-Writing pos = elim (Bool-split (offset % dev.block_size == 0)) [
      | inl e ↦ rw e (
          yields {a = aligned_start} (record {
            new = sym (blit-nil (view s) offset);
            bytes = refl;
            whole = omega arith;
            aligned =
                λ h. omega (arith, split_pos d offset, eq_of_== (offset % dev.block_size) 0 e);
            in_range = omega (arith, lt);
          }))
      | inr e ↦ rw e (
          Yields-bind (read_blocks-slice d b 1 s lt (omega (arith, d.size_is_int)))
            λ temp s1 (t, same).
              Yields-bind {k = λ n. pure partial_start}
                (write_blocks-blit d (blit temp q (take copied buf)) b 1 s1 lt
                  (omega (arith, d.size_is_int))
                  (omega (arith, length-blit temp q (take copied buf), temp_length temp t)))
                λ n s2 (_, new). yields {a = partial_start} (record {
                  new =
                      patched b q (take copied buf) temp s s1 s2 lt
                        (omega (arith, rest-lt d offset, length-take copied buf)) t same new
                      ∙ ap (λ o. blit (view s) o (take copied buf)) (split_pos d offset);
                  bytes = refl;
                  whole = omega arith;
                  aligned = λ h. omega (arith, split_pos d offset, rest-lt d offset);
                  in_range = lt;
                }))
    ]
      where
        b : ℕ
        b = offset / dev.block_size

        q : ℕ
        q = offset % dev.block_size

        lt : b + 1 ≤ dev.block_count
        lt = block-lt d b offset (omega (arith, split_pos d offset)) (omega arith)

        temp_length :
            (temp : List ℕ)
            → temp ≡ slice (view s) (dev.block_size * b) (dev.block_size * 1)
            → length temp ≡ dev.block_size * 1
        temp_length temp t =
            ap length t
            ∙ length-slice (view s) (dev.block_size * b) (dev.block_size * 1)
                (omega (arith, d.sized s, block-inside b lt))
