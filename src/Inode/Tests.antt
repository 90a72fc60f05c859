-- ===== src/Inode/Tests.antt =====
-- A file of 10 bytes on a device full of the byte 7, with blocks of 4 bytes.
use i80k.Base.{
  ap, ℕ, ◌+◌, ◌<◌, ◌≡◌, refl, sym, ◌∙◌, arith, false, true, some, List, [], ◌∷◌, length, replicate,
  length-replicate,
}
use i80k.Base.Word.{ok}
use i80k.Inode.{
  Volume, Inode, or_stale, ext2_read_inode, ext2_file_len, read_head, read_middle, read_tail,
  fill_block, file_block_to_fs_block, ext2_read_block, entry_at,
}
use i80k.BlockMap.Tests.{first_direct}
use i80k.Inode.Places.{FileByte}
use i80k.Inode.Reads.{ext2_read_inode-bytes}

abbrev sevens : Volume
sevens = record {
  block_size = 4;
  large_file = false;
  blk_read = λ at n. some (replicate n 7);
  can_alloc = true;
}

abbrev ten_bytes : Inode
ten_bytes = record { mode = 33188; size = 10; i_block = λ i. i + 20 }

abbrev old_bytes : ℕ → List ℕ
old_bytes b = b ∷ 2 ∷ 3 ∷ 4 ∷ []

positive : 0 < sevens.block_size
positive = omega arith

ten_bytes_len : ext2_file_len sevens ten_bytes ≡ ok 10
unfolding ext2_file_len
ten_bytes_len = refl

-- Three bytes are left from 7 on.
ext2_read_inode-bytes_example :
    (c : ℕ → ℕ) × (ext2_read_inode 6 sevens ten_bytes old_bytes 7 5
      ≡ some (ok 3, c 7 ∷ c 8 ∷ c 9 ∷ []))
    × ((i : ℕ) → FileByte sevens ten_bytes old_bytes i (c i))
ext2_read_inode-bytes_example =
    ext2_read_inode-bytes sevens ten_bytes old_bytes positive 6 7 5 10
      (λ at n xs e. sym (ap (λ o. length (or_stale [] o)) e) ∙ length-replicate n 7) (λ b. refl)
      (omega arith) (omega arith) ten_bytes_len (omega arith) (omega arith) (omega arith)

-- A directory of one block of 1024 bytes, on a device of such blocks: the entry "a" with the number
-- 11.
abbrev pub entry_block : List ℕ
entry_block = 11 ∷ 0 ∷ 0 ∷ 0 ∷ 0 ∷ 4 ∷ 1 ∷ 1 ∷ b'a' ∷ replicate 1015 0

abbrev pub entry_blocks : Volume
entry_blocks = record {
  block_size = 1024;
  large_file = false;
  blk_read = λ at n. some entry_block;
  can_alloc = true;
}

abbrev pub one_block_dir : Inode
one_block_dir = record { mode = 16877; size = 1024; i_block = λ i. 5 }

pub first_block :
    (stale : ℕ → List ℕ)
    → ext2_read_inode 3 entry_blocks one_block_dir stale 0 1024 ≡ some (ok 1024, entry_block)
unfolding ext2_read_inode ext2_file_len read_head read_middle read_tail fill_block
    file_block_to_fs_block ext2_read_block
first_block stale =
    let at : file_block_to_fs_block entry_blocks one_block_dir 0 ≡ 5 =
      ap (entry_at entry_blocks one_block_dir 0) first_direct in
    rw (fill_block, at) refl

pub no_second_block :
    (stale : ℕ → List ℕ)
    → ext2_read_inode 3 entry_blocks one_block_dir stale 1024 1024 ≡ some (ok 0, [])
unfolding ext2_read_inode ext2_file_len
no_second_block stale = refl
