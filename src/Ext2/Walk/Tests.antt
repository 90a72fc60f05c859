-- ===== src/Ext2/Walk/Tests.antt =====
-- A file system whose root directory has the one entry "a", with the number 11.
use i80k.Base.{refl, ap, ℕ, ◌+◌, ◌*◌, ◌≡◌, ◌<◌, arith, true, some, [], ◌∷◌}
use i80k.Base.Word.{ok}
use i80k.Inode.Tests.{entry_block, one_block_dir, first_block, no_second_block}
use i80k.Ext2.{SuperBlock, Ext2, parse_inode, get_inode_addr, inode_place, ext2_load_inode}
use i80k.Ext2.Address.{get_inode_addr-place}
use i80k.Ext2.Dir.{holds_before, overlay, ext2_dir_lookup}
use i80k.Ext2.Dir.Entries.{DirEntry, Entries, entry, at_end, find_name}
use i80k.Ext2.Dir.{same_bytes}
use i80k.Ext2.Dir.Blocks.{Holds, looked_up, block, no_more, ext2_dir_lookup-first}
use i80k.Ext2.Walk.{components, at_name, ext2_walk}
use i80k.Ext2.Walk.Resolved.{arrived, ext2_walk-last}

-- A separator at the end leaves an empty name.
two_names :
    components true (b'/' ∷ b'a' ∷ b'/' ∷ b'/' ∷ b'b' ∷ b'/' ∷ [])
    ≡ (b'a' ∷ []) ∷ (b'b' ∷ []) ∷ [] ∷ []
unfolding components
two_names = refl

abbrev one_group : SuperBlock
one_group = record {
  blocks_count = 100;
  log_block_size = 0;
  blocks_per_group = 8192;
  inodes_per_group = 1024;
  magic = 61267;
  rev_level = 1;
  inode_size = 128;
  feature_ro_compat = 0;
}

abbrev small_fs : Ext2
small_fs = record {
  sb = one_group;
  gd = 7 ∷ [];
  root_inode = one_block_dir;
  blk_read = λ at n. (ok n, entry_block);
  can_alloc = true;
  array = [];
}

abbrev entry_a : DirEntry
entry_a = record { inum = 11; rec_len = 1024; name = b'a' ∷ [] }

entry_a-Entries : Entries 1024 (overlay entry_block []) 0 (entry_a ∷ [])
entry_a-Entries = entry entry_a 255 refl refl refl refl refl (omega arith) (omega arith) at_end

root-Holds : Holds 3 small_fs one_block_dir 1 0 [] (entry_a ∷ [])
root-Holds =
    block 1023 (first_block (holds_before small_fs one_block_dir [])) entry_a-Entries (omega arith)
      (no_more (no_second_block (holds_before small_fs one_block_dir entry_block)))

found_a : find_name (b'a' ∷ []) (entry_a ∷ []) ≡ some 11
unfolding find_name same_bytes
found_a = refl

ext2_walk-last_example :
    ext2_walk 2 3 small_fs [] [] 3 one_block_dir (at_name ((b'a' ∷ []) ∷ [])) 0 ≡ some (ok 0, 11)
unfolding ext2_load_inode get_inode_addr inode_place parse_inode
ext2_walk-last_example =
    ext2_walk-last 3 small_fs [] [] 3 0 1 one_block_dir one_block_dir (parse_inode entry_block) 0 0
      [] (b'a' ∷ []) (entry_a ∷ []) 11 arrived refl (omega arith) (omega arith) root-Holds
      (ap (λ o. (looked_up 0 o).1) found_a) refl refl

ext2_dir_lookup-first_example :
    ext2_dir_lookup 3 small_fs one_block_dir [] (b'b' ∷ []) 4
    ≡ some (looked_up 4 (find_name (b'b' ∷ []) (entry_a ∷ [])))
ext2_dir_lookup-first_example =
    ext2_dir_lookup-first 1 (b'b' ∷ []) [] 4 (entry_a ∷ []) refl (omega arith) (omega arith)
      root-Holds

-- The inode 601 is 76800 bytes into the table, and is looked for at 11264.
get_inode_addr-place_example :
    (block place : ℕ) × (get_inode_addr one_group (7 ∷ []) 601 ≡ some (block, place))
    × (place < 1024)
    × (block * 1024 + place ≡ 18432)
get_inode_addr-place_example =
    get_inode_addr-place one_group (7 ∷ []) 601 7 (omega arith) (omega arith) refl (omega arith)
      (omega arith) (omega arith)
