-- ===== src/Inode/Reads.antt =====
-- kernel/drivers/fs/ext2/io.c: a whole read of a file.
use native.Mathlib.Nat.{div-add-mod', mod-lt, add-mul}
use i80k.Base.{
  ap, ℕ, ◌+◌, ◌-◌, ◌*◌, ◌/◌, ◌%◌, ◌^◌, ◌<◌, ◌≤◌, min, ◌≡◌, refl, sym, ◌∙◌, arith, some, List, ◌==◌,
  ltb, if◌then◌else◌, length, ==_of_ne, Option-split, length-replicate, Bool-split, eq_of_==,
  lt_of_ltb, le_of_not_ltb, inl, inr,
}
use i80k.Base.Word.{u16, u32, ok}
use i80k.Inode.{
  Volume, Inode, fill_block, or_stale, ext2_read_block, file_block_to_fs_block, read_trimmed,
  ext2_file_len, ext2_read_inode, read_head,
}
use i80k.Inode.Bytes.{bytes, bytes-at}
use i80k.Inode.Places.{FileByte, content-FileByte}
use i80k.Inode.Contents.{
  content, Whole, Reached, block_fits, block_part, the_bytes, read_tail-Reached,
  read_middle-Reached,
}

module _ (v : Volume) (inode : Inode) (stale : ℕ → List ℕ) (pos : 0 < v.block_size) where
  read_head-Reached :
      (offset total : ℕ)
      → Whole v inode stale pos
      → 0 < total
      → offset + total ≤ 2 ^ 16 * v.block_size
      → (n : ℕ) × Reached v inode stale pos offset total n (read_head v inode stale offset total)
  unfolding read_head
  read_head-Reached offset total whole some_of room =
      elim (Bool-split (offset % v.block_size == 0)) [
        | inl e ↦
            let aligned = eq_of_== (offset % v.block_size) 0 e in
            let at : first_block * v.block_size ≡ offset + 0 = omega (arith, start, aligned) in
            (0, rw (e) record { got = refl; left = omega arith; place = λ h. at })
        | inr e ↦ (
          tocopy,
          rw (e) record {
            got =
                block_part v inode stale pos first_block (offset % v.block_size) tocopy whole
                  inside_block
                ∙ bytes-at (content v inode stale) tocopy start;
            left = inside_total;
            place = λ h.
                ap (λ b. b * v.block_size)
                  (block_fits v inode stale pos (first_block + 1)
                    (omega (arith, next h, room, h, inside_total)))
                ∙ next h;
          },
        )
      ]
    where
      first_block : ℕ
      first_block = u16 (offset / v.block_size)

      tocopy : ℕ
      tocopy = min total (v.block_size - offset % v.block_size)

      split : offset / v.block_size * v.block_size + offset % v.block_size ≡ offset
      split = div-add-mod' offset v.block_size

      start : first_block * v.block_size + offset % v.block_size ≡ offset
      start =
          ap (λ b. b * v.block_size + offset % v.block_size)
            (block_fits v inode stale pos (offset / v.block_size)
              (omega (arith, split, some_of, room)))
          ∙ split

      inside_block : offset % v.block_size + tocopy ≤ v.block_size
      inside_block = let low = mod-lt offset {m = v.block_size} pos in ground arith

      inside_total : tocopy + (total - tocopy) ≡ total
      inside_total = ground arith

      next : 0 < total - tocopy → (first_block + 1) * v.block_size ≡ offset + tocopy
      next h =
          let low = mod-lt offset {m = v.block_size} pos in
          let full : tocopy ≡ v.block_size - offset % v.block_size = ground arith in
          omega (arith, start, add-mul first_block 1 v.block_size, full, low)

  -- A read with bytes to read returns them.
  read_trimmed-bytes :
      (fuel offset total : ℕ)
      → Whole v inode stale pos
      → 0 < total
      → total < fuel
      → total < 2 ^ 15
      → offset + total ≤ 2 ^ 16 * v.block_size
      → read_trimmed fuel v inode stale offset total
        ≡ some (the_bytes v inode stale pos offset total)
  read_trimmed-bytes fuel offset total whole some_of enough small room =
      let (n, head) = read_head-Reached offset total whole some_of room in
      let (n', c', run, r', short) =
        read_middle-Reached v inode stale pos fuel offset total n
          (read_head v inode stale offset total) whole head room
          (omega (arith, head.left, enough)) in
      let not_none = ==_of_ne total 0 (omega (arith, some_of)) in
      rw (not_none, run)
        (ap some (read_tail-Reached v inode stale pos offset total n' c' whole r' short small))

  blocks-Whole :
      ((at n : ℕ) (xs : List ℕ) → v.blk_read at n ≡ some xs → length xs ≡ n)
      → ((file_block : ℕ) → length (stale file_block) ≡ v.block_size)
      → Whole v inode stale pos
  unfolding fill_block ext2_read_block
  blocks-Whole reads room file_block =
      elim (Bool-split (file_block_to_fs_block v inode file_block == 0)) [
        | inl e ↦ rw (e) (length-replicate v.block_size 0)
        | inr e ↦
            rw (e)
              (on_disk file_block (u32 (file_block_to_fs_block v inode file_block * v.block_size)))
      ]
    where
      on_disk : (b at : ℕ) → length (or_stale (stale b) (v.blk_read at v.block_size)) ≡ v.block_size
      on_disk b at = elim (Option-split (v.blk_read at v.block_size)) [
        | inl e ↦ rw (e) (room b)
        | inr (xs, e) ↦ rw (e) (reads at v.block_size xs e)
      ]

  -- A read gives the content from the offset on, as much as was asked for or as there is.
  ext2_read_inode-content :
      (fuel offset len size : ℕ)
      → ((at n : ℕ) (xs : List ℕ) → v.blk_read at n ≡ some xs → length xs ≡ n)
      → ((file_block : ℕ) → length (stale file_block) ≡ v.block_size)
      → ext2_file_len v inode ≡ ok size
      → size ≤ 2 ^ 16 * v.block_size
      → len < 2 ^ 15
      → len < fuel
      → ext2_read_inode fuel v inode stale offset len
        ≡ some (the_bytes v inode stale pos offset (min len (size - offset)))
  unfolding ext2_read_inode
  ext2_read_inode-content fuel offset len size reads room sized fits small enough =
      elim (Bool-split (ltb size offset)) [
        | inl e ↦
            let past = lt_of_ltb size offset e in
            let nothing : 0 ≡ min len (size - offset) = omega (arith, past) in
            rw (sized, e) (ap (λ n. some (the_bytes v inode stale pos offset n)) nothing)
        | inr e ↦
            let inside = le_of_not_ltb size offset e in
            let trimmed_len : (if ltb (offset + len) size then len else u16 (size - offset))
                ≡ min len (size - offset) =
              ground arith in
            rw (sized, e, trimmed_len) (trimmed inside)
      ]
    where
      trimmed :
          offset ≤ size
          → read_trimmed fuel v inode stale offset (min len (size - offset))
            ≡ some (the_bytes v inode stale pos offset (min len (size - offset)))
      trimmed inside = elim (Bool-split (min len (size - offset) == 0)) [
        | inl e ↦
            let none_left = eq_of_== (min len (size - offset)) 0 e in
            rw (e) (ap (λ n. some (the_bytes v inode stale pos offset n)) (sym none_left))
        | inr e ↦
            let some_left : 0 < min len (size - offset) = ground arith in
            read_trimmed-bytes fuel offset (min len (size - offset)) (blocks-Whole reads room)
              some_left (omega (arith, enough)) (omega (arith, small)) (omega (arith, inside, fits))
      ]

  -- On a device whose reads have the length that is asked for, and with blocks of 4 to 4099 bytes: a
  -- read of a file ends. What it returns are the bytes of the file from the offset on, as many as
  -- were asked for or as there are, each from the place on the device that the pointers of the inode
  -- lead to.
  pub ext2_read_inode-bytes :
      (fuel offset len size : ℕ)
      → ((at n : ℕ) (xs : List ℕ) → v.blk_read at n ≡ some xs → length xs ≡ n)
      → ((file_block : ℕ) → length (stale file_block) ≡ v.block_size)
      → 0 < v.block_size / 4
      → v.block_size / 4 ≤ 2 ^ 10
      → ext2_file_len v inode ≡ ok size
      → size ≤ 2 ^ 16 * v.block_size
      → len < 2 ^ 15
      → len < fuel
      → (c : ℕ → ℕ) × (ext2_read_inode fuel v inode stale offset len
          ≡ some (ok (min len (size - offset)), bytes c offset (min len (size - offset))))
        × ((i : ℕ) → FileByte v inode stale i (c i))
  ext2_read_inode-bytes fuel offset len size reads room some_pointers pointers sized fits small
        enough =
      (
        content v inode stale,
        ext2_read_inode-content fuel offset len size reads room sized fits small enough,
        content-FileByte v inode stale some_pointers pointers,
      )
