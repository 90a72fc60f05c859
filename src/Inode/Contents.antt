-- ===== src/Inode/Contents.antt =====
-- kernel/drivers/fs/ext2/io.c: what a read of a file returns, against the bytes of the file.
use native.Mathlib.Nat.{
  mul-add-div_right, mul-add-mod_self_right, mod-eq_of_lt, div-eq_of_lt, lt_of_mul-lt-mul_right,
  add-mul,
}
use i80k.Base.{
  ap, ap₂, ℕ, zero, suc, ◌+◌, ◌-◌, ◌*◌, ◌/◌, ◌%◌, ◌^◌, ◌<◌, ◌≤◌, ◌≡◌, refl, sym, ◌∙◌, arith, false,
  some, List, ◌++◌, ◌==◌, ltb, if◌then◌else◌, get_or, slice, length, Bool-split, eq_of_==,
  lt_of_ltb, le_of_not_ltb, inl, inr,
}
use i80k.Base.Word.{u16, Ret, ok, to_int, to_int_small}
use i80k.Inode.{Volume, Inode, Cursor, fill_block, read_middle, read_tail}
use i80k.Inode.Bytes.{
  bytes, length-bytes, bytes-at, bytes_join, slice-bytes, bytes-agree, list-bytes,
}

-- The bytes of a file, one after the other through its blocks.
abbrev pub content : Volume → Inode → (ℕ → List ℕ) → ℕ → ℕ
content v inode stale p = get_or (fill_block v inode stale (p / v.block_size)) (p % v.block_size) 0

module _ (v : Volume) (inode : Inode) (stale : ℕ → List ℕ) (pos : 0 < v.block_size) where
  -- Every block that is filled has its size.
  abbrev pub Whole : Type 0
  Whole = (file_block : ℕ) → length (fill_block v inode stale file_block) ≡ v.block_size

  block-bytes :
      (file_block : ℕ)
      → Whole
      → fill_block v inode stale file_block
        ≡ bytes (content v inode stale) (file_block * v.block_size) v.block_size
  block-bytes file_block whole =
      let xs = fill_block v inode stale file_block in
      list-bytes xs
      ∙ ap (λ n. bytes (λ i. get_or xs i 0) 0 n) (whole file_block)
      ∙ bytes-agree (λ i. get_or xs i 0) (content v inode stale) 0 (file_block * v.block_size)
          v.block_size place
    where
      place :
          (j : ℕ)
          → j < v.block_size
          → get_or (fill_block v inode stale file_block) (0 + j) 0
            ≡ content v inode stale (file_block * v.block_size + j)
      place j h =
          let q : (file_block * v.block_size + j) / v.block_size ≡ file_block =
            mul-add-div_right pos file_block j ∙ omega (arith, div-eq_of_lt h) in
          let r : (file_block * v.block_size + j) % v.block_size ≡ j =
            mul-add-mod_self_right file_block v.block_size j ∙ mod-eq_of_lt h in
          let z : 0 + j ≡ j = omega arith in rw (q, r, z) refl

  -- A cursor after the first `n` bytes from an offset on, with `total` to read.
  pub record Reached (offset total n : ℕ) (c : Cursor) : Type 0 where
    pub got : c.buf ≡ bytes (content v inode stale) offset n
    pub left : n + c.len ≡ total
    pub place : 0 < c.len → c.file_block * v.block_size ≡ offset + n

  -- The number of a block that holds a byte below the bound does not wrap.
  pub block_fits : (b : ℕ) → b * v.block_size < 2 ^ 16 * v.block_size → u16 b ≡ b
  block_fits b h = let small = lt_of_mul-lt-mul_right v.block_size h in omega (arith, small)

  pub block_part :
      (file_block d n : ℕ)
      → Whole
      → d + n ≤ v.block_size
      → slice (fill_block v inode stale file_block) d n
        ≡ bytes (content v inode stale) (file_block * v.block_size + d) n
  block_part file_block d n whole h =
      ap (λ xs. slice xs d n) (block-bytes file_block whole)
      ∙ slice-bytes (content v inode stale) (file_block * v.block_size) v.block_size d n h

  abbrev as_result : List ℕ → Ret × List ℕ
  as_result buf = (to_int (length buf), buf)

  -- What a read of `total` bytes that are there returns.
  abbrev pub the_bytes : ℕ → ℕ → Ret × List ℕ
  the_bytes offset total = (ok total, bytes (content v inode stale) offset total)

  returned :
      (offset total : ℕ) (buf : List ℕ)
      → buf ≡ bytes (content v inode stale) offset total
      → total < 2 ^ 15
      → as_result buf ≡ the_bytes offset total
  returned offset total buf e small =
      let count : to_int (length (bytes (content v inode stale) offset total)) ≡ ok total =
        ap to_int (length-bytes (content v inode stale) offset total) ∙ to_int_small total small in
      ap as_result e ∙ rw (count) refl

  pub read_tail-Reached :
      (offset total n : ℕ) (c : Cursor)
      → Whole
      → Reached offset total n c
      → c.len < v.block_size
      → total < 2 ^ 15
      → read_tail v inode stale c ≡ the_bytes offset total
  unfolding read_tail
  read_tail-Reached offset total n c whole r short small =
      returned offset total
        (if c.len == 0
          then c.buf
          else c.buf ++ slice (fill_block v inode stale c.file_block) 0 c.len)
        (elim (Bool-split (c.len == 0))
          as (λ s.
            (if c.len == 0
              then c.buf
              else c.buf ++ slice (fill_block v inode stale c.file_block) 0 c.len)
            ≡ bytes (content v inode stale) offset total) [
              | inl e ↦
                  let all : n ≡ total = omega (arith, r.left, eq_of_== c.len 0 e) in
                  rw (e) (r.got ∙ ap (λ k. bytes (content v inode stale) offset k) all)
              | inr e ↦ rw (e) (last e)
            ])
        small
    where
      last :
          (c.len == 0) ≡ false
          → c.buf ++ slice (fill_block v inode stale c.file_block) 0 c.len
            ≡ bytes (content v inode stale) offset total
      last e =
          let some_left : 0 < c.len = ground arith in
          let at : c.file_block * v.block_size + 0 ≡ offset + n =
            omega (arith, r.place some_left) in
          ap₂ (λ xs ys. xs ++ ys) r.got
            (block_part c.file_block 0 c.len whole (omega (arith, short))
              ∙ bytes-at (content v inode stale) c.len at)
          ∙ sym (bytes_join (content v inode stale) offset n c.len)
          ∙ ap (λ k. bytes (content v inode stale) offset k) r.left

  pub read_middle-Reached :
      (fuel offset total n : ℕ) (c : Cursor)
      → Whole
      → Reached offset total n c
      → offset + total ≤ 2 ^ 16 * v.block_size
      → c.len < fuel
      → (n' : ℕ) × (c' : Cursor) × (read_middle fuel v inode stale c ≡ some c')
        × Reached offset total n' c'
        × (c'.len < v.block_size)
  unfolding read_middle
  read_middle-Reached zero offset total n c whole r room enough = absurd (omega (arith, enough))
  read_middle-Reached (suc fuel) offset total n c whole r room enough =
      elim (Bool-split (ltb c.len v.block_size)) [
        | inl e ↦
            let run : read_middle (suc fuel) v inode stale c ≡ some c = rw (e) refl in
            (n, c, run, r, lt_of_ltb c.len v.block_size e)
        | inr e ↦
            let wide = le_of_not_ltb c.len v.block_size e in
            let (n', c', run, r', short) =
              read_middle-Reached fuel offset total (n + v.block_size) (next_cursor c) whole
                (turn wide) room (omega (arith, enough, wide, pos)) in
            let first : read_middle (suc fuel) v inode stale c ≡ some c' = rw (e) run in
            (n', c', first, r', short)
      ]
    where
      next_cursor : Cursor → Cursor
      next_cursor d = record {
        file_block = u16 (d.file_block + 1);
        len = d.len - v.block_size;
        buf = d.buf ++ fill_block v inode stale d.file_block;
      }

      turn : v.block_size ≤ c.len → Reached offset total (n + v.block_size) (next_cursor c)
      turn wide =
          let at = r.place (omega (arith, wide, pos)) in
          let next : (c.file_block + 1) * v.block_size ≡ offset + (n + v.block_size) =
            omega (arith, at, add-mul c.file_block 1 v.block_size) in
          record {
            got =
                ap₂ (λ xs ys. xs ++ ys) r.got
                  (block-bytes c.file_block whole
                    ∙ bytes-at (content v inode stale) v.block_size at)
                ∙ sym (bytes_join (content v inode stale) offset n v.block_size);
            left = omega (arith, r.left, wide);
            place = λ h.
                ap (λ b. b * v.block_size)
                  (block_fits (c.file_block + 1) (omega (arith, next, room, r.left, h)))
                ∙ next;
          }
