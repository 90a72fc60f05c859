-- ===== src/Ext2/Dir.antt =====
-- kernel/drivers/fs/ext2/dir.c: looking up a name in a directory, where malloc gives the buffer.
--
-- The loop over the entries of a block runs on fuel: the length of an entry can wrap to 0. The
-- results are none where the fuel is used up, and where the code reads past its buffer.
pub mod Entries
pub mod Blocks
use i80k.Base.{
  ℕ, zero, suc, ◌+◌, ◌*◌, ◌/◌, ◌^◌, Bool, true, false, ◌&&◌, Option, none, some, List, [], ◌∷◌,
  ◌++◌, ◌==◌, leb, ltb, if◌then◌else◌, get_or, slice, length, drop, bit_and,
}
use i80k.Base.Word.{u16, u32, Ret, ok, err}
use i80k.Inode.{Inode, s_ifmt, ext2_read_inode}
use i80k.Ext2.{Ext2, volume, block_size, le16_at, le32_at}

abbrev pub s_ifdir : ℕ
s_ifdir = 16384

abbrev pub is_dir : Inode → Bool
is_dir inode = bit_and inode.mode s_ifmt == s_ifdir

unfoldable pub same_bytes : List ℕ → List ℕ → Bool
same_bytes [] [] = true
same_bytes [] (d ∷ ds) = false
same_bytes (c ∷ cs) [] = false
same_bytes (c ∷ cs) (d ∷ ds) = c == d && same_bytes cs ds

-- `ROUNDUP(rec_len, 4)`, on an unsigned `int`.
abbrev pub round_up : ℕ → ℕ
round_up n = u16 (n + 3) / 4 * 4

-- The entry at a place of the buffer, or what the entries after it come to.
pub at_entry : List ℕ → ℕ → List ℕ → ℕ → Option (Option ℕ) → Option (Option ℕ)
unfolding same_bytes
at_entry name size buf pos rest =
    if ltb size (pos + 8)
    then none
    else if le16_at buf (pos + 4) == 0
    then some none
    else if get_or buf (pos + 6) 0 == length name
    then (if ltb size (pos + 8 + length name)
        then none
        else if same_bytes (slice buf (pos + 8) (length name)) name
        then some (some (le32_at buf pos))
        else rest)
    else rest

-- The loop over the entries of a block: the number of the inode, if one has the name.
pub scan : ℕ → List ℕ → ℕ → List ℕ → ℕ → Option (Option ℕ)
unfolding at_entry
scan zero name size buf pos = none
scan (suc fuel) name size buf pos =
    let rest = scan fuel name size buf (u16 (pos + round_up (le16_at buf (pos + 4)))) in
    if ltb pos size then at_entry name size buf pos rest else some none

-- The buffer after a read.
abbrev pub overlay : List ℕ → List ℕ → List ℕ
overlay bytes buf = bytes ++ drop (length bytes) buf

abbrev pub scanned : ℕ → Option (Option ℕ) → Option (Ret × ℕ) → Option (Ret × ℕ)
scanned inum none next = none
scanned inum (some none) next = next
scanned inum (some (some found)) next = some (ok 1, found)

-- What the read of a block comes to; `next` is for the block after it.
abbrev pub block_read :
    ℕ
    → List ℕ
    → ℕ
    → List ℕ
    → ℕ
    → (List ℕ → Option (Ret × ℕ))
    → Option (Ret × List ℕ)
    → Option (Ret × ℕ)
block_read fuel name size buf inum next none = none
block_read fuel name size buf inum next (some (err e, bytes)) = some (err e, inum)
block_read fuel name size buf inum next (some (ok zero, bytes)) = some (ok 0, inum)
block_read fuel name size buf inum next (some (ok (suc k), bytes)) =
    scanned inum (scan fuel name size (overlay bytes buf) 0) (next (overlay bytes buf))

-- A whole block is read into the buffer, and the part of a last one through an array.
abbrev pub holds_before : Ext2 → Inode → List ℕ → ℕ → List ℕ
holds_before fs dir buf b = if leb ((b + 1) * block_size fs.sb) dir.size then buf else fs.array

-- The loop over the blocks, with so many left; what is returned, and `*inum`.
pub lookup_blocks : ℕ → ℕ → Ext2 → Inode → List ℕ → ℕ → List ℕ → ℕ → Option (Ret × ℕ)
unfolding scan
lookup_blocks zero fuel fs dir name blocknum buf inum = some (err 1, inum)
lookup_blocks (suc n) fuel fs dir name blocknum buf inum =
    let size = block_size fs.sb in
    block_read fuel name size buf inum
      (λ buf'. lookup_blocks n fuel fs dir name (suc blocknum) buf' inum)
      (ext2_read_inode fuel (volume fs) dir (holds_before fs dir buf) (u32 (blocknum * size))
        (u16 size))

-- `buf` is what malloc gives.
pub ext2_dir_lookup : ℕ → Ext2 → Inode → List ℕ → List ℕ → ℕ → Option (Ret × ℕ)
unfolding lookup_blocks
ext2_dir_lookup fuel fs dir buf name inum =
    if is_dir dir then lookup_blocks 1025 fuel fs dir name 0 buf inum else some (err 20, inum)
