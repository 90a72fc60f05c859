-- ===== src/Blkdev/WriteParts.antt =====
-- `blk_default_write` and `blk_write` on a disk: the bytes of the range are replaced, no others.
use i80k.Base.{
  ℕ, zero, suc, ◌+◌, ◌-◌, ◌*◌, ◌/◌, ◌^◌, ◌≤◌, ◌<◌, min, ◌≡◌, refl, ap, ap₂, sym, ◌∙◌, arith, Bool,
  true, false, Bool-split, inl, inr, some, List, length, take, drop, blit, is_none, blit-nil,
  blit_join, take_split, drop-drop, length-take, length-drop, length-blit, length-slice, eq_of_==,
  ==_of_ne, ◌==◌,
}
use i80k.Base.Word.{ok, to_int, to_int_small}
use i80k.Base.Io.{Res, pure, Yields, yields, Yields-bind}
use i80k.Blkdev.{
  BlkDev, Progress, write_result, write_middle, write_last, blk_default_write, blk_write,
  call_write, default_write, trim_range,
}
use i80k.Blkdev.Trim.{trim_range-min}
use i80k.Blkdev.Disk.{
  IsDisk, size_pos, read_blocks-slice, write_blocks-blit, split_pos, rest-lt, shifted, block-lt,
  block-le,
}
use native.Mathlib.Nat.{mul-zero}
use i80k.Blkdev.Write.{Writing, block-inside, patched, write_first-Writing}

module _ {S : Type 0} {dev : BlkDev S} {view : S → List ℕ} (d : IsDisk dev view) where
  module _ {buf : List ℕ} {offset len : ℕ} {s s' : S} {p : Progress}
      (w : Writing d s buf offset len p s') (enough : len ≤ length buf)
      (inside : offset + len ≤ dev.block_size * dev.block_count) where
    -- Writing the next `k` bytes behind those that are done.
    extended :
        (k : ℕ) (s'' : S)
        → k ≤ p.left
        → view s'' ≡ blit (view s') (offset + p.done) (take k p.bytes)
        → view s'' ≡ blit (view s) offset (take (p.done + k) buf)
    extended k s'' h new =
        new
        ∙ ap₂ (λ v x. blit v (offset + p.done) (take k x)) w.new w.bytes
        ∙ blit_join (view s) offset (offset + p.done) (take p.done buf) (take k (drop p.done buf))
            (omega (arith, length-take p.done buf, w.whole))
        ∙ ap (blit (view s) offset) (sym (take_split p.done k buf))

    length_rest : length p.bytes ≡ length buf - p.done
    length_rest = ap length w.bytes ∙ length-drop p.done buf

    next_blocks : (n : ℕ) → dev.block_size * n ≤ p.left → p.block + n ≤ dev.block_count
    next_blocks zero h = omega (arith, w.in_range)
    next_blocks (suc n) h =
        let some_left : 0 < p.left = grind (arith, size_pos d) in
        block-le d (p.block + suc n) (omega (arith, w.aligned some_left, w.whole))

    -- Where nothing is written it does not matter where.
    next_place :
        (n : ℕ) (x : List ℕ)
        → dev.block_size * n ≤ p.left
        → blit (view s') (dev.block_size * p.block) (take (dev.block_size * n) x)
          ≡ blit (view s') (offset + p.done) (take (dev.block_size * n) x)
    next_place zero x h =
        rw mul-zero (
          blit-nil (view s') (dev.block_size * p.block)
          ∙ sym (blit-nil (view s') (offset + p.done)))
    next_place (suc n) x h =
        let some_left : 0 < p.left = grind (arith, size_pos d) in
        ap (λ o. blit (view s') o (take (dev.block_size * suc n) x)) (sym (w.aligned some_left))

    abbrev after_blocks : ℕ → ℕ → Progress
    after_blocks n k = record {
      bytes = drop k p.bytes;
      left = p.left - k;
      block = p.block + n;
      done = p.done + k;
    }

    after_blocks-Writing :
        (n k : ℕ) (s'' : S)
        → dev.block_size * n ≤ p.left
        → k ≡ dev.block_size * n
        → view s'' ≡ blit (view s') (dev.block_size * p.block) (take (dev.block_size * n) p.bytes)
        → Writing d s buf offset len (after_blocks n k) s''
    after_blocks-Writing n k s'' h e new = record {
      new = extended k s'' (omega arith) (
          new
          ∙ next_place n p.bytes h
          ∙ ap (λ j. blit (view s') (offset + p.done) (take j p.bytes)) (sym e));
      bytes = ap (drop k) w.bytes ∙ drop-drop k p.done buf;
      whole = omega (arith, w.whole);
      aligned = λ l. omega (arith, w.aligned (omega arith));
      in_range = next_blocks n h;
    }

    write_middle-Writing :
        len < 2 ^ 15
        → Yields
            (λ q s''. Writing d s buf offset len q s'' × (q.left < dev.block_size))
            (write_middle dev p s')
    unfolding write_middle
    write_middle-Writing small = rw (shifted d p.left) (
        Yields-bind
          (write_blocks-blit d p.bytes p.block n s' (next_blocks n fits) (omega (arith, w.whole))
            (omega (arith, length_rest, w.whole)))
          λ k s'' (e, new). yields {a = after_blocks n k} (
            after_blocks-Writing n k s'' fits e new,
            omega (arith, split_pos d p.left, rest-lt d p.left),
          ))
      where
        n : ℕ
        n = p.left / dev.block_size

        fits : dev.block_size * n ≤ p.left
        fits = omega (arith, split_pos d p.left)

    abbrev after_last : Progress
    after_last = record p { done = p.done + p.left }

    write_last-blit :
        p.left < dev.block_size
        → Yields
            (λ q s''. (q.done ≡ len) × (view s'' ≡ blit (view s) offset (take len buf)))
            (write_last dev p s')
    unfolding write_last
    write_last-blit short = elim (Bool-split (p.left == 0)) [
      | inl e ↦
          let z : p.done ≡ len = omega (arith, w.whole, eq_of_== p.left 0 e) in
          rw e (yields (z, w.new ∙ ap (λ n. blit (view s) offset (take n buf)) z))
      | inr e ↦ rw e (
          let l : 0 < p.left = ne_zero e in
          let lt : p.block + 1 ≤ dev.block_count =
            block-lt d p.block (offset + p.done) (omega (arith, w.aligned l))
              (omega (arith, w.whole)) in
          Yields-bind (read_blocks-slice d p.block 1 s' lt (omega (arith, d.size_is_int)))
            λ temp s1 (t, same).
              Yields-bind {k = λ n. pure after_last}
                (write_blocks-blit d (blit temp 0 (take p.left p.bytes)) p.block 1 s1 lt
                  (omega (arith, d.size_is_int))
                  (omega (
                    arith,
                    length-blit temp 0 (take p.left p.bytes),
                    ap length t,
                    length-slice (view s') (dev.block_size * p.block) (dev.block_size * 1)
                        (omega (arith, d.sized s', block-inside d p.block lt)),
                  )))
                λ n s2 (_, new). yields {a = after_last} (
                  w.whole,
                  extended p.left s2 (omega arith) (
                        patched d p.block 0 (take p.left p.bytes) temp s' s1 s2 lt
                          (omega (arith, length-take p.left p.bytes)) t same new
                        ∙ ap (λ o. blit (view s') o (take p.left p.bytes))
                            (omega (arith, w.aligned l)))
                      ∙ ap (λ n. blit (view s) offset (take n buf)) w.whole,
                ))
    ]
      where
        ne_zero : (p.left == 0) ≡ false → 0 < p.left
        ne_zero e = ground arith

  write_result-blit :
      (buf : List ℕ) (offset len : ℕ) (s : S) {r : Res Progress × S}
      → len < 2 ^ 15
      → Yields (λ q s''. (q.done ≡ len) × (view s'' ≡ blit (view s) offset (take len buf))) r
      → (s' : S) × (write_result r ≡ (ok len, s')) × (view s' ≡ blit (view s) offset (take len buf))
  write_result-blit buf offset len s small (yields {s = s''} (done, new)) =
      (s'', ap (λ n. (n, s'')) (ap to_int done ∙ to_int_small _ small), new)

  -- A write that stays on the device, of at least one and fewer than 2 ^ 15 bytes, returns their
  -- number, and leaves the disk with those bytes from the offset on and no other change.
  blk_default_write-blit :
      (can_alloc : ℕ → Bool) (buf : List ℕ) (offset len : ℕ) (s : S)
      → can_alloc dev.block_size ≡ true
      → 0 < len
      → len < 2 ^ 15
      → len ≤ length buf
      → offset + len ≤ dev.block_size * dev.block_count
      → (s' : S) × (blk_default_write can_alloc dev buf offset len s ≡ (ok len, s'))
        × (view s' ≡ blit (view s) offset (take len buf))
  unfolding blk_default_write
  blk_default_write-blit can_alloc buf offset len s mem pos small enough inside = rw mem (
      write_result-blit buf offset len s small (
        Yields-bind (write_first-Writing d buf offset len s enough inside pos) λ p s' w.
          Yields-bind (write_middle-Writing w enough inside small)
            λ q s'' (w', short). write_last-blit w' enough inside short))

  called_write-blit :
      (can_alloc : ℕ → Bool) (buf : List ℕ) (offset n : ℕ) (s : S)
      → can_alloc dev.block_size ≡ true
      → n < 2 ^ 15
      → n ≤ length buf
      → (0 < n → offset + n ≤ dev.block_size * dev.block_count)
      → (s' : S) × (call_write can_alloc dev (some default_write) buf offset n s ≡ (ok n, s'))
        × (view s' ≡ blit (view s) offset (take n buf))
  unfolding call_write
  called_write-blit can_alloc buf offset zero s mem small enough inside =
      (s, refl, sym (blit-nil (view s) offset))
  called_write-blit can_alloc buf offset (suc n) s mem small enough inside =
      rw (==_of_ne (suc n) 0 (omega arith)) (
        blk_default_write-blit can_alloc buf offset (suc n) s mem (omega arith) small enough
          (inside (omega arith)))

  -- `blk_write` of a range, on a device with the default functions, whose range may end past the
  -- device: it writes, and counts, the bytes that fall on the device.
  pub blk_write-blit :
      (can_alloc : ℕ → Bool) (buf : List ℕ) (offset len : ℕ) (s : S)
      → is_none dev.read ≡ false
      → dev.write ≡ some default_write
      → can_alloc dev.block_size ≡ true
      → len < 2 ^ 15
      → len ≤ length buf
      → offset + len < 2 ^ 31
      → (s' : S) × (blk_write can_alloc (some dev) (some buf) offset len s
          ≡ (ok (min len (dev.block_size * dev.block_count - offset)), s'))
        × (view s'
            ≡ blit (view s) offset (take (min len (dev.block_size * dev.block_count - offset)) buf))
  unfolding blk_write
  blk_write-blit can_alloc buf offset len s readable set mem small enough no_wrap =
      rw (readable, trimmed, called)
        (called_write-blit can_alloc buf offset
          (min len (dev.block_size * dev.block_count - offset)) s mem (omega arith) (omega arith)
          (λ h. omega arith))
    where
      total : ℕ
      total = dev.block_size * dev.block_count

      trimmed : trim_range dev offset len ≡ min len (total - offset)
      trimmed = trim_range-min dev offset len (omega arith) d.total_is_off no_wrap

      called :
          call_write can_alloc dev dev.write buf offset (min len (total - offset)) s
          ≡ call_write can_alloc dev (some default_write) buf offset (min len (total - offset)) s
      called = ap (λ f. call_write can_alloc dev f buf offset (min len (total - offset)) s) set
