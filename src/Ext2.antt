-- ===== src/Ext2.antt =====
-- kernel/drivers/fs/ext2/ext2.c: mounting, and where an inode is on the device.
--
-- A read of the device gives what `blk_read` returns, and the bytes that it stores. Numbers on the
-- device have their least byte first, as on the target.
pub mod Address
pub mod Dir
pub mod Walk
use i80k.Base.{
  ℕ, zero, suc, ◌+◌, ◌-◌, ◌*◌, ◌/◌, ◌%◌, ◌^◌, Bool, true, false, Option, none, some, List, [], ◌∷◌,
  ◌==◌, ltb, if◌then◌else◌, get_or, get_elem?, bit_and,
}
use i80k.Base.Word.{u16, u32, Ret, ok, err}
use i80k.Inode.{Volume, Inode}

-- The fields of `struct ext2_super_block` that are used.
pub record SuperBlock : Type 0 where
  pub blocks_count : ℕ
  pub log_block_size : ℕ
  pub blocks_per_group : ℕ
  pub inodes_per_group : ℕ
  pub magic : ℕ
  pub rev_level : ℕ
  pub inode_size : ℕ
  pub feature_ro_compat : ℕ

-- `gd` has `bg_inode_table` of each group. `array` is what an array on the stack holds.
pub record Ext2 : Type 0 where
  pub sb : SuperBlock
  pub gd : List ℕ
  pub root_inode : Inode
  pub blk_read : ℕ → ℕ → Ret × List ℕ
  pub can_alloc : Bool
  pub array : List ℕ

abbrev pub le16_at : List ℕ → ℕ → ℕ
le16_at bytes i = get_or bytes i 0 + get_or bytes (i + 1) 0 * 2 ^ 8

abbrev pub le32_at : List ℕ → ℕ → ℕ
le32_at bytes i = le16_at bytes i + le16_at bytes (i + 2) * 2 ^ 16

pub super_block : List ℕ → SuperBlock
super_block bytes = record {
  blocks_count = le32_at bytes 4;
  log_block_size = le32_at bytes 24;
  blocks_per_group = le32_at bytes 32;
  inodes_per_group = le32_at bytes 40;
  magic = le16_at bytes 56;
  rev_level = le32_at bytes 76;
  inode_size = le16_at bytes 88;
  feature_ro_compat = le32_at bytes 100;
}

abbrev pub block_size : SuperBlock → ℕ
block_size sb = u32 (1024 * 2 ^ sb.log_block_size)

abbrev pub ext2_inode_size : SuperBlock → ℕ
ext2_inode_size sb = if sb.rev_level == 0 then 128 else sb.inode_size

abbrev pub has_large_file : SuperBlock → Bool
has_large_file sb = bit_and sb.feature_ro_compat 2 == 2

pub parse_inode : List ℕ → Inode
parse_inode bytes = record {
  mode = le16_at bytes 0;
  size = le32_at bytes 4;
  i_block = λ i. le32_at bytes (40 + 4 * i);
}

-- What the reads of a file see of the file system.
abbrev pub bytes_if_read : Ret × List ℕ → Option (List ℕ)
bytes_if_read (ok n, bytes) = some bytes
bytes_if_read (err e, bytes) = none

abbrev pub volume : Ext2 → Volume
volume fs = record {
  block_size = block_size fs.sb;
  large_file = has_large_file fs.sb;
  blk_read = λ offset len. bytes_if_read (fs.blk_read offset len);
  can_alloc = fs.can_alloc;
}

-- A value, or an error that is returned.
pub data Answer (A : Type 0) : Type 0 where
  got : A → Answer A
  fails : ℕ → Answer A

-- The block of the inode table, and the place in the block, from the first block of the table.
pub inode_place : SuperBlock → ℕ → ℕ → ℕ × ℕ
inode_place sb n table =
    let offset = u16 (u32 (n % sb.inodes_per_group * ext2_inode_size sb)) in
    (u32 (table + offset / block_size sb), offset % block_size sb)

abbrev pub placed : SuperBlock → ℕ → Option ℕ → Option (ℕ × ℕ)
placed sb n none = none
placed sb n (some table) = some (inode_place sb n table)

-- None where the group is past the descriptors.
pub get_inode_addr : SuperBlock → List ℕ → ℕ → Option (ℕ × ℕ)
unfolding inode_place
get_inode_addr sb gd num =
    let n = u32 (num + (2 ^ 32 - 1)) in placed sb n (get_elem? gd (n / sb.inodes_per_group))

abbrev pub inode_read : Ret × List ℕ → Answer Inode
inode_read (ok n, bytes) = got (parse_inode bytes)
inode_read (err e, bytes) = fails e

abbrev pub load_at : Ext2 → Option (ℕ × ℕ) → Option (Answer Inode)
load_at fs none = none
load_at fs (some (block, block_offset)) =
    some (inode_read (fs.blk_read (u32 (u32 (block * block_size fs.sb) + block_offset)) 128))

pub ext2_load_inode : Ext2 → ℕ → Option (Answer Inode)
unfolding get_inode_addr parse_inode
ext2_load_inode fs num = load_at fs (get_inode_addr fs.sb fs.gd num)

-- The group count, a signed number in the code.
pub group_count : SuperBlock → ℕ
group_count sb =
    u16 (u32 (sb.blocks_count + sb.blocks_per_group + (2 ^ 32 - 1)) / sb.blocks_per_group)

pub group_descs : ℕ → ℕ → List ℕ → List ℕ
group_descs zero i bytes = []
group_descs (suc n) i bytes = le32_at bytes (32 * i + 8) ∷ group_descs n (suc i) bytes

abbrev pub mounted : Ext2 → Option (Answer Inode) → Option (Answer Ext2)
mounted fs none = none
mounted fs (some (fails e)) = some (fails e)
mounted fs (some (got root)) = some (got (record fs { root_inode = root }))

abbrev pub with_groups : Ext2 → Ret × List ℕ → Option (Answer Ext2)
with_groups fs (err e, bytes) = some (fails 4)
with_groups fs (ok n, bytes) =
    let fs' = record fs { gd = group_descs (group_count fs.sb) 0 bytes } in
    mounted fs' (ext2_load_inode fs' 2)

abbrev pub check_super : Ext2 → Option (Answer Ext2)
check_super fs =
    if fs.sb.magic == 61267
    then (if ltb 1 fs.sb.rev_level
        then some (fails 134)
        else if bit_and fs.sb.feature_ro_compat (2 ^ 32 - 2) == 0
        then (if fs.can_alloc
            then with_groups fs (
                fs.blk_read (if block_size fs.sb == 4096 then 4096 else 2048)
                  (u16 (32 * group_count fs.sb)))
            else some (fails 12))
        else some (fails 134))
    else some (fails 1)

abbrev pub super_read : Ext2 → Ret × List ℕ → Option (Answer Ext2)
super_read fs (err e, bytes) = some (fails e)
super_read fs (ok n, bytes) = check_super (record fs { sb = super_block bytes })

-- The file system on a device, if one is named. `blank` is what calloc gives.
pub ext2_mount : List ℕ → Bool → Option (ℕ → ℕ → Ret × List ℕ) → Option (Answer Ext2)
unfolding super_block group_descs ext2_load_inode
ext2_mount array can_alloc none = some (fails 22)
ext2_mount array can_alloc (some blk_read) =
    let fs : Ext2 = record {
      sb = super_block [];
      gd = [];
      root_inode = parse_inode [];
      blk_read = blk_read;
      can_alloc = can_alloc;
      array = array;
    } in
    if can_alloc then super_read fs (blk_read 1024 1024) else some (fails 12)
