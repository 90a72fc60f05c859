-- ===== src/Ext2/Address.antt =====
-- kernel/drivers/fs/ext2/ext2.c: the place of an inode on the device.
use i80k.Base.{
  ap, ℕ, ◌+◌, ◌-◌, ◌*◌, ◌/◌, ◌%◌, ◌^◌, ◌≡◌, ◌<◌, ◌≤◌, ◌∙◌, arith, some, List, get_elem?,
}
use i80k.Base.Word.{u16, u32}
use native.Mathlib.Nat.{div-add-mod', mod-lt, div-le_self}
use i80k.Ext2.{SuperBlock, block_size, ext2_inode_size, inode_place, placed, get_inode_addr}

-- An inode of a group that has a descriptor: its place is inside a block, and as many bytes into
-- the table of the group as the inodes before it take, but modulo 2 ^ 16. The inodes beyond the
-- first 64 KB of a table are looked for at its start.
pub get_inode_addr-place :
    (sb : SuperBlock) (gd : List ℕ) (num table : ℕ)
    → 0 < num
    → num < 2 ^ 32
    → get_elem? gd ((num - 1) / sb.inodes_per_group) ≡ some table
    → 0 < block_size sb
    → table < 2 ^ 31
    → (num - 1) % sb.inodes_per_group * ext2_inode_size sb < 2 ^ 32
    → (block place : ℕ) × (get_inode_addr sb gd num ≡ some (block, place))
      × (place < block_size sb)
      × (block * block_size sb + place
          ≡ table * block_size sb + u16 ((num - 1) % sb.inodes_per_group * ext2_inode_size sb))
unfolding get_inode_addr inode_place
get_inode_addr-place sb gd num table pos small group some_size low bytes =
    let n : u32 (num + (2 ^ 32 - 1)) ≡ num - 1 = omega (arith, pos, small) in
    let size = block_size sb in
    let whole = (num - 1) % sb.inodes_per_group * ext2_inode_size sb in
    let offset = u16 (u32 whole) in
    let same : offset ≡ u16 whole = ap u16 {x = u32 whole} {y = whole} (omega (arith, bytes)) in
    let quotient : offset / size ≤ offset = div-le_self offset size in
    let block : u32 (table + offset / size) ≡ table + offset / size =
      omega (arith, low, quotient, mod-lt (u32 whole) {m = 2 ^ 16} (omega arith)) in
    (
      u32 (table + offset / size),
      offset % size,
      ap (λ k. placed sb k (get_elem? gd (k / sb.inodes_per_group))) n
          ∙ ap (placed sb (num - 1)) group,
      mod-lt offset some_size,
      ap (λ b. b * size + offset % size) block ∙ omega (arith, div-add-mod' offset size, same),
    )
