-- ===== src/Inode.antt =====
-- kernel/drivers/fs/ext2/io.c and file.c: the bytes of a file, through the pointers of its inode.
--
-- `blk_read` gives the bytes at an offset of the device, or none where it fails. Where a
-- block is read in vain, the array or the part of the buffer that is to hold block `b` of the file
-- keeps what was in it, `stale b`. A `uint` has 16 bits, also where it holds the
-- number of a block.
pub mod Bytes
pub mod Contents
mod Places
pub mod Reads
pub mod Tests
use i80k.Base.{
  ℕ, zero, suc, ◌+◌, ◌-◌, ◌*◌, ◌/◌, ◌%◌, ◌^◌, min, Bool, true, false, ◌&&◌, Option, none, some,
  List, [], ◌∷◌, ◌++◌, ◌==◌, ltb, if◌then◌else◌, get_or, replicate, slice, length, bit_and,
}
use i80k.Base.Word.{u16, u32, Ret, ok, err, to_int}
use i80k.BlockMap.{ext2_calculate_block_pointer_pos}

pub record Volume : Type 0 where
  pub block_size : ℕ
  pub large_file : Bool
  pub blk_read : ℕ → ℕ → Option (List ℕ)
  pub can_alloc : Bool

-- `i_block` is read past its 15 pointers where the code does so.
pub record Inode : Type 0 where
  pub mode : ℕ
  pub size : ℕ
  pub i_block : ℕ → ℕ

abbrev pub s_ifmt : ℕ
s_ifmt = 61440

abbrev pub s_ifreg : ℕ
s_ifreg = 32768

abbrev pub is_reg : Inode → Bool
is_reg inode = bit_and inode.mode s_ifmt == s_ifreg

-- The length as a signed number of 32 bits.
pub ext2_file_len : Volume → Inode → Ret
ext2_file_len v inode =
    if v.large_file && is_reg inode
    then err 134
    else if ltb inode.size (2 ^ 31)
    then ok inode.size
    else err (2 ^ 32 - inode.size)

-- The pointer at a position of a block.
abbrev pub le32 : List ℕ → ℕ → ℕ
le32 table i =
    get_or table (4 * i) 0
    + get_or table (4 * i + 1) 0 * 2 ^ 8
    + get_or table (4 * i + 2) 0 * 2 ^ 16
    + get_or table (4 * i + 3) 0 * 2 ^ 24

pub ext2_get_block : Volume → ℕ → Option (List ℕ)
ext2_get_block v bnum =
    if v.can_alloc then v.blk_read (u32 (bnum * v.block_size)) v.block_size else none

abbrev pub or_stale : List ℕ → Option (List ℕ) → List ℕ
or_stale stale none = stale
or_stale stale (some bytes) = bytes

-- The buffer after `ext2_read_block`, whose result is not looked at.
pub ext2_read_block : Volume → List ℕ → ℕ → List ℕ
ext2_read_block v stale bnum = or_stale stale (v.blk_read (u32 (bnum * v.block_size)) v.block_size)

-- A block on the way down, if there is one.
pub load : Volume → ℕ → Option (List ℕ)
unfolding ext2_get_block
load v current = if current == 0 then none else ext2_get_block v current

-- The rest of the loop, at the position `p` of a block that was loaded. The last position is for
-- the caller.
pub dig : Volume → ℕ → List ℕ → Option (List ℕ) → Option (List ℕ)
unfolding load
dig v p ps none = none
dig v p [] (some table) = some table
dig v p (q ∷ qs) (some table) = dig v q qs (load v (u16 (le32 table p)))

-- `ext2_get_indirect_block_pointer_cache_block` for the positions of a level that is not 0.
pub indirect_table : Volume → Inode → List ℕ → Option (List ℕ)
unfolding dig
indirect_table v inode [] = none
indirect_table v inode (pos ∷ []) = none
indirect_table v inode (pos ∷ p ∷ ps) = dig v p ps (load v (u16 (inode.i_block pos)))

-- The last of the positions.
abbrev last_pos : List ℕ → ℕ
last_pos [] = 0
last_pos (p ∷ []) = p
last_pos (p ∷ q ∷ ps) = last_pos (q ∷ ps)

-- The final entry of the final table; 0 if there was an error.
abbrev pub final_entry : ℕ → Option (List ℕ) → ℕ
final_entry p none = 0
final_entry p (some table) = le32 table p

-- The level stays 0 where the positions are refused.
abbrev pub entry_at : Volume → Inode → ℕ → Option (ℕ × List ℕ) → ℕ
entry_at v inode fileblock none = inode.i_block fileblock
entry_at v inode fileblock (some (zero, pos)) = inode.i_block fileblock
entry_at v inode fileblock (some (suc level, pos)) =
    final_entry (last_pos pos) (indirect_table v inode pos)

pub file_block_to_fs_block : Volume → Inode → ℕ → ℕ
unfolding indirect_table
file_block_to_fs_block v inode fileblock =
    entry_at v inode fileblock (ext2_calculate_block_pointer_pos (v.block_size / 4) fileblock)

-- A block of the file in a buffer: zeros where it has no place on the device.
pub fill_block : Volume → Inode → (ℕ → List ℕ) → ℕ → List ℕ
unfolding file_block_to_fs_block ext2_read_block
fill_block v inode stale file_block =
    let phys_block = file_block_to_fs_block v inode file_block in
    if phys_block == 0
    then replicate v.block_size 0
    else ext2_read_block v (stale file_block) phys_block

-- `file_block`, `len`, and the bytes that the buffer of the caller has so far.
pub record Cursor : Type 0 where
  pub file_block : ℕ
  pub len : ℕ
  pub buf : List ℕ

-- The partial first block.
pub read_head : Volume → Inode → (ℕ → List ℕ) → ℕ → ℕ → Cursor
unfolding fill_block
read_head v inode stale offset len =
    let file_block = u16 (offset / v.block_size) in
    let block_offset = offset % v.block_size in
    let tocopy = min len (v.block_size - block_offset) in
    if block_offset == 0 then record { file_block = file_block; len = len; buf = [] } else record {
      file_block = u16 (file_block + 1);
      len = len - tocopy;
      buf = slice (fill_block v inode stale file_block) block_offset tocopy;
    }

-- The middle blocks, on fuel.
pub read_middle : ℕ → Volume → Inode → (ℕ → List ℕ) → Cursor → Option Cursor
unfolding fill_block
read_middle zero v inode stale c = none
read_middle (suc fuel) v inode stale c =
    let rest = read_middle fuel v inode stale (record {
      file_block = u16 (c.file_block + 1);
      len = c.len - v.block_size;
      buf = c.buf ++ fill_block v inode stale c.file_block;
    }) in
    if ltb c.len v.block_size then some c else rest

-- The partial last block, and what is returned.
pub read_tail : Volume → Inode → (ℕ → List ℕ) → Cursor → Ret × List ℕ
unfolding fill_block
read_tail v inode stale c =
    let buf =
      if c.len == 0
      then c.buf
      else c.buf ++ slice (fill_block v inode stale c.file_block) 0 c.len in
    (to_int (length buf), buf)

abbrev then_tail : Volume → Inode → (ℕ → List ℕ) → Option Cursor → Option (Ret × List ℕ)
then_tail v inode stale none = none
then_tail v inode stale (some c) = some (read_tail v inode stale c)

-- The read of a length that is trimmed.
abbrev read_trimmed : ℕ → Volume → Inode → (ℕ → List ℕ) → ℕ → ℕ → Option (Ret × List ℕ)
read_trimmed fuel v inode stale offset len =
    if len == 0
    then some (ok 0, [])
    else then_tail v inode stale
        (read_middle fuel v inode stale (read_head v inode stale offset len))

-- The comparisons are of signed numbers, and the offset is not negative.
abbrev read_upto : ℕ → Volume → Inode → (ℕ → List ℕ) → ℕ → ℕ → Ret → Option (Ret × List ℕ)
read_upto fuel v inode stale offset len (err e) = some (ok 0, [])
read_upto fuel v inode stale offset len (ok size) =
    if ltb size offset
    then some (ok 0, [])
    else read_trimmed fuel v inode stale offset
        (if ltb (offset + len) size then len else u16 (size - offset))

-- The result and the bytes that are written to the buffer, if the fuel is enough.
pub ext2_read_inode : ℕ → Volume → Inode → (ℕ → List ℕ) → ℕ → ℕ → Option (Ret × List ℕ)
unfolding ext2_file_len read_head read_middle read_tail
ext2_read_inode fuel v inode stale offset len =
    read_upto fuel v inode stale offset len (ext2_file_len v inode)

pub ext2_read_file : ℕ → Volume → Inode → (ℕ → List ℕ) → ℕ → ℕ → Option (Ret × List ℕ)
unfolding ext2_read_inode
ext2_read_file fuel v inode stale offset len =
    let got = ext2_read_inode fuel v inode stale offset len in
    if is_reg inode then got else some (err 2, [])
