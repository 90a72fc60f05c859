-- ===== src/Blkdev/Read.antt =====
-- `blk_default_read` and `blk_read` on a disk: the bytes asked for, wherever they start and end.
use i80k.Base.{
  ℕ, zero, suc, ◌+◌, ◌-◌, ◌*◌, ◌/◌, ◌%◌, ◌^◌, ◌≤◌, ◌<◌, min, ◌≡◌, refl, ap, ap₂, sym, ◌∙◌, arith,
  Bool, true, false, Bool-split, inl, inr, some, List, [], ◌++◌, take, slice, slice_split,
  slice-slice, eq_of_==, ==_of_ne, ◌==◌,
}
use i80k.Base.Word.{ok, to_int, to_int_small}
use i80k.Base.Io.{Res, pure, Yields, yields, Yields-bind}
use i80k.Blkdev.{
  BlkDev, Progress, call_read, read_result, read_first, read_middle, read_last, blk_default_read,
  blk_read, default_read, trim_range,
}
use i80k.Blkdev.Disk.{
  IsDisk, size_pos, read_blocks-slice, split_pos, rest-lt, shifted, block-lt, block-le,
}
use i80k.Blkdev.Trim.{trim_range-min}
use native.Mathlib.Nat.{mul-zero}

module _ {S : Type 0} {dev : BlkDev S} {view : S → List ℕ} (d : IsDisk dev view) where
  -- After some parts of a read of `len` bytes from `offset` on, begun in the state `s`: what is done
  -- is what stood there, and what is left starts with a block, if anything is left.
  record Reading (s : S) (offset len : ℕ) (p : Progress) (s' : S) : Type 0 where
    same : view s' ≡ view s
    bytes : p.bytes ≡ slice (view s) offset p.done
    whole : p.done + p.left ≡ len
    aligned : 0 < p.left → offset + p.done ≡ dev.block_size * p.block
    in_range : p.block ≤ dev.block_count

  -- The results of `read_first`: nothing to do, and the end of a block.
  abbrev aligned_start : ℕ → ℕ → Progress
  aligned_start offset len = record {
    bytes = [];
    left = len;
    block = offset / dev.block_size;
    done = 0;
  }

  abbrev copied : ℕ → ℕ → ℕ
  copied offset len = min (dev.block_size - offset % dev.block_size) len

  abbrev partial_start : List ℕ → ℕ → ℕ → Progress
  partial_start temp offset len = record {
    bytes = slice temp (offset % dev.block_size) (copied offset len);
    left = len - copied offset len;
    block = offset / dev.block_size + 1;
    done = copied offset len;
  }

  aligned-Reading :
      (offset len : ℕ) (s : S)
      → (offset % dev.block_size == 0) ≡ true
      → offset / dev.block_size + 1 ≤ dev.block_count
      → Reading s offset len (aligned_start offset len) s
  aligned-Reading offset len s e lt = record {
    same = refl;
    bytes = refl;
    whole = omega arith;
    aligned = λ h. omega (arith, split_pos d offset, eq_of_== (offset % dev.block_size) 0 e);
    in_range = omega arith;
  }

  partial-Reading :
      (offset len : ℕ) (s s' : S) (temp : List ℕ)
      → temp ≡ slice (view s) (dev.block_size * (offset / dev.block_size)) (dev.block_size * 1)
      → view s' ≡ view s
      → offset / dev.block_size + 1 ≤ dev.block_count
      → Reading s offset len (partial_start temp offset len) s'
  partial-Reading offset len s s' temp e same lt = record {
    same = same;
    bytes =
        ap (λ t. slice t (offset % dev.block_size) (copied offset len)) e
        ∙ slice-slice (view s) (dev.block_size * (offset / dev.block_size)) (dev.block_size * 1)
            (offset % dev.block_size) (copied offset len) (omega (arith, rest-lt d offset))
        ∙ ap (λ n. slice (view s) n (copied offset len)) (split_pos d offset);
    whole = omega arith;
    aligned = λ h. omega (arith, split_pos d offset, rest-lt d offset);
    in_range = lt;
  }

  read_first-Reading :
      (offset len : ℕ) (s : S)
      → 0 < len
      → offset + len ≤ dev.block_size * dev.block_count
      → Yields (Reading s offset len) (read_first dev offset len s)
  unfolding read_first
  read_first-Reading offset len s pos inside = elim (Bool-split (offset % dev.block_size == 0)) [
    | inl e ↦ rw e (yields (aligned-Reading offset len s e lt))
    | inr e ↦ rw e (
        Yields-bind
          (read_blocks-slice d (offset / dev.block_size) 1 s lt (omega (arith, d.size_is_int)))
          λ temp s' (e, same). yields (partial-Reading offset len s s' temp e same lt))
  ]
    where
      lt : offset / dev.block_size + 1 ≤ dev.block_count
      lt =
          block-lt d (offset / dev.block_size) offset (omega (arith, split_pos d offset))
            (omega arith)

  module _ {offset len : ℕ} {s s' : S} {p : Progress} (r : Reading s offset len p s')
      (inside : offset + len ≤ dev.block_size * dev.block_count) where
    -- The next `n` blocks are the next bytes, if the read needs that many.
    next_blocks :
        (n : ℕ)
        → dev.block_size * n ≤ p.left
        → (slice (view s') (dev.block_size * p.block) (dev.block_size * n)
            ≡ slice (view s) (offset + p.done) (dev.block_size * n))
          × (p.block + n ≤ dev.block_count)
    next_blocks zero h = (rw mul-zero, omega (arith, r.in_range))
    next_blocks (suc n) h =
        let some_left : 0 < p.left = grind (arith, size_pos d) in
        (
          ap₂ (λ v o. slice v o (dev.block_size * suc n)) r.same (sym (r.aligned some_left)),
          block-le d (p.block + suc n) (omega (arith, r.aligned some_left, r.whole)),
        )

    abbrev after_blocks : ℕ → List ℕ → Progress
    after_blocks n bytes = record {
      bytes = p.bytes ++ bytes;
      left = p.left - dev.block_size * n;
      block = p.block + n;
      done = p.done + dev.block_size * n;
    }

    after_blocks-Reading :
        (n : ℕ) (bytes : List ℕ) (s'' : S)
        → dev.block_size * n ≤ p.left
        → bytes ≡ slice (view s') (dev.block_size * p.block) (dev.block_size * n)
        → view s'' ≡ view s'
        → Reading s offset len (after_blocks n bytes) s''
    after_blocks-Reading n bytes s'' h e same = record {
      same = same ∙ r.same;
      bytes =
          ap₂ ◌++◌ r.bytes (e ∙ (next_blocks n h).0)
          ∙ sym (slice_split (view s) offset p.done (dev.block_size * n));
      whole = omega (arith, r.whole);
      aligned = λ l. omega (arith, r.aligned (omega arith));
      in_range = (next_blocks n h).1;
    }

    read_middle-Reading :
        len < 2 ^ 15
        → Yields
            (λ q s''. Reading s offset len q s'' × (q.left < dev.block_size))
            (read_middle dev p s')
    unfolding read_middle
    read_middle-Reading small = rw (shifted d p.left) (
        Yields-bind
          (read_blocks-slice d p.block n s' (next_blocks n fits).1 (omega (arith, r.whole)))
          λ bytes s'' (e, same). yields (
            after_blocks-Reading n bytes s'' fits e same,
            omega (arith, split_pos d p.left, rest-lt d p.left),
          ))
      where
        n : ℕ
        n = p.left / dev.block_size

        fits : dev.block_size * n ≤ p.left
        fits = omega (arith, split_pos d p.left)

    abbrev after_last : List ℕ → Progress
    after_last temp = record p { bytes = p.bytes ++ take p.left temp; done = p.done + p.left }

    read_last-slice :
        p.left < dev.block_size
        → Yields
            (λ q s''. (q.done ≡ len) × (q.bytes ≡ slice (view s) offset len) × (view s'' ≡ view s))
            (read_last dev p s')
    unfolding read_last
    read_last-slice short = elim (Bool-split (p.left == 0)) [
      | inl e ↦
          let z : p.done ≡ len = omega (arith, r.whole, eq_of_== p.left 0 e) in
          rw e (yields (z, r.bytes ∙ ap (slice (view s) offset) z, r.same))
      | inr e ↦ rw e (
          let l : 0 < p.left = ne_zero e in
          Yields-bind {k = λ temp. pure (after_last temp)}
            (read_blocks-slice d p.block 1 s'
              (block-lt d p.block (offset + p.done) (omega (arith, r.aligned l))
                (omega (arith, r.whole)))
              (omega (arith, d.size_is_int)))
            λ temp s'' (t, same). yields {a = after_last temp} (
              r.whole,
              ap₂ ◌++◌ r.bytes (tail_bytes l temp t)
                  ∙ sym (slice_split (view s) offset p.done p.left)
                  ∙ ap (slice (view s) offset) r.whole,
              same ∙ r.same,
            ))
    ]
      where
        ne_zero : (p.left == 0) ≡ false → 0 < p.left
        ne_zero e = ground arith

        tail_bytes :
            0 < p.left
            → (temp : List ℕ)
            → temp ≡ slice (view s') (dev.block_size * p.block) (dev.block_size * 1)
            → take p.left temp ≡ slice (view s) (offset + p.done) p.left
        tail_bytes l temp t =
            ap (take p.left) t
            ∙ slice-slice (view s') (dev.block_size * p.block) (dev.block_size * 1) 0 p.left
                (omega arith)
            ∙ ap₂ (λ v o. slice v o p.left) r.same (omega (arith, r.aligned l))

  -- What the parts have read is what the call returns.
  read_result-slice :
      (offset len : ℕ) (s : S) {r : Res Progress × S}
      → len < 2 ^ 15
      → Yields
          (λ q s''. (q.done ≡ len) × (q.bytes ≡ slice (view s) offset len) × (view s'' ≡ view s))
          r
      → (s' : S) × (read_result r ≡ ((ok len, slice (view s) offset len), s')) × (view s' ≡ view s)
  read_result-slice offset len s small (yields {s = s''} (done, bytes, same)) =
      (s'', ap₂ (λ n b. ((n, b), s'')) (ap to_int done ∙ to_int_small _ small) bytes, same)

  -- A read that stays on the device, of at least one and fewer than 2 ^ 15 bytes, returns their
  -- number and the bytes that the disk holds from the offset on, and leaves the disk as it was.
  blk_default_read-slice :
      (can_alloc : ℕ → Bool) (offset len : ℕ) (s : S)
      → can_alloc dev.block_size ≡ true
      → 0 < len
      → len < 2 ^ 15
      → offset + len ≤ dev.block_size * dev.block_count
      → (s' : S) × (blk_default_read can_alloc dev offset len s
          ≡ ((ok len, slice (view s) offset len), s'))
        × (view s' ≡ view s)
  unfolding blk_default_read
  blk_default_read-slice can_alloc offset len s mem pos small inside = rw mem (
      read_result-slice offset len s small (
        Yields-bind (read_first-Reading offset len s pos inside) λ p s' r.
          Yields-bind (read_middle-Reading r inside small)
            λ q s'' (r', short). read_last-slice r' inside short))

  called_read-slice :
      (can_alloc : ℕ → Bool) (offset n : ℕ) (s : S)
      → can_alloc dev.block_size ≡ true
      → n < 2 ^ 15
      → (0 < n → offset + n ≤ dev.block_size * dev.block_count)
      → (s' : S) × (call_read can_alloc dev (some default_read) true offset n s
          ≡ ((ok n, slice (view s) offset n), s'))
        × (view s' ≡ view s)
  unfolding call_read
  called_read-slice can_alloc offset zero s mem small inside = (s, refl, refl)
  called_read-slice can_alloc offset (suc n) s mem small inside =
      rw (==_of_ne (suc n) 0 (omega arith)) (
        blk_default_read-slice can_alloc offset (suc n) s mem (omega arith) small
          (inside (omega arith)))

  -- `blk_read` of a range, on a device whose reads are the default ones: it reads what the disk
  -- holds of the range, which may end past the device.
  pub blk_read-slice :
      (can_alloc : ℕ → Bool) (offset len : ℕ) (s : S)
      → dev.read ≡ some default_read
      → can_alloc dev.block_size ≡ true
      → len < 2 ^ 15
      → offset + len < 2 ^ 31
      → (s' : S) × (blk_read can_alloc (some dev) true offset len s ≡ (
        (
          ok (min len (dev.block_size * dev.block_count - offset)),
          slice (view s) offset (min len (dev.block_size * dev.block_count - offset)),
        ),
        s',
      ))
        × (view s' ≡ view s)
  unfolding blk_read call_read
  blk_read-slice can_alloc offset len s set mem small no_wrap =
      rw (trimmed, called)
        (called_read-slice can_alloc offset (min len (dev.block_size * dev.block_count - offset)) s
          mem (omega arith) (λ h. omega arith))
    where
      total : ℕ
      total = dev.block_size * dev.block_count

      trimmed : trim_range dev offset len ≡ min len (total - offset)
      trimmed = trim_range-min dev offset len (omega arith) d.total_is_off no_wrap

      called :
          call_read can_alloc dev dev.read true offset (min len (total - offset)) s
          ≡ call_read can_alloc dev (some default_read) true offset (min len (total - offset)) s
      called = ap (λ f. call_read can_alloc dev f true offset (min len (total - offset)) s) set
