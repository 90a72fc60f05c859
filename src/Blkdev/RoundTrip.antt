-- ===== src/Blkdev/RoundTrip.antt =====
-- What `blk_write` stores, `blk_read` returns.
use i80k.Base.{
  ℕ, ◌+◌, ◌-◌, ◌*◌, ◌^◌, ◌≤◌, ◌<◌, min, ◌≡◌, ap, ap₂, ◌∙◌, arith, Bool, true, some, List, length,
  slice, blit, take, is_none, take_all, slice-blit,
}
use i80k.Base.Word.{ok}
use i80k.Blkdev.{BlkDev, blk_read, blk_write, default_read, default_write}
use i80k.Blkdev.Disk.{IsDisk}
use i80k.Blkdev.Read.{blk_read-slice}
use i80k.Blkdev.WriteParts.{blk_write-blit}

module _ {S : Type 0} {dev : BlkDev S} {view : S → List ℕ} (d : IsDisk dev view) where
  -- After a write of bytes that fit the device from an offset on, a read of the same range returns
  -- them, and both calls return their number. The bytes before the range and those after it are
  -- the disk's as before.
  pub blk_read-blk_write :
      (can_alloc : ℕ → Bool) (buf : List ℕ) (offset : ℕ) (s : S)
      → dev.read ≡ some default_read
      → dev.write ≡ some default_write
      → can_alloc dev.block_size ≡ true
      → length buf < 2 ^ 15
      → offset + length buf ≤ dev.block_size * dev.block_count
      → (s' : S) × (blk_write can_alloc (some dev) (some buf) offset (length buf) s
          ≡ (ok (length buf), s'))
        × (view s' ≡ blit (view s) offset buf)
        × ((s'' : S) × (blk_read can_alloc (some dev) true offset (length buf) s'
              ≡ ((ok (length buf), buf), s''))
            × (view s'' ≡ view s'))
  blk_read-blk_write can_alloc buf offset s reads writes mem small inside =
      let (s', wrote, new) =
        blk_write-blit d can_alloc buf offset n s (ap is_none reads) writes mem small (omega arith)
          (omega (arith, d.total_is_off)) in
      let (s'', got, same) =
        blk_read-slice d can_alloc offset n s' reads mem small (omega (arith, d.total_is_off)) in
      let new' : view s' ≡ blit (view s) offset buf =
        new
        ∙ ap (blit (view s) offset) (ap (λ k. take k buf) fits ∙ take_all n buf (omega arith)) in
      (
        s',
        wrote ∙ ap (λ k. (ok k, s')) fits,
        new',
        (
          s'',
          got
              ∙ ap₂ (λ k bytes. ((ok k, bytes), s'')) fits
                  (ap₂ (λ v k. slice v offset k) new' fits
                    ∙ slice-blit (view s) offset n buf (omega (arith, d.sized s)) (omega arith)),
          same,
        ),
      )
    where
      n : ℕ
      n = length buf

      fits : min n (dev.block_size * dev.block_count - offset) ≡ n
      fits = omega arith
