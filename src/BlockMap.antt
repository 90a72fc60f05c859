-- ===== src/BlockMap.antt =====
-- kernel/drivers/fs/ext2/io.c: which pointers lead to a block of a file.
pub mod Located
pub mod Tests
use i80k.Base.{
  ℕ, ◌+◌, ◌-◌, ◌*◌, ◌/◌, ◌%◌, Bool, Option, none, some, List, [], ◌∷◌, ltb, if◌then◌else◌,
}
use i80k.Base.Word.{u32}

abbrev pub ndir_blocks : ℕ
ndir_blocks = 12

abbrev pub ind_block : ℕ
ind_block = 12

abbrev pub dind_block : ℕ
dind_block = 13

abbrev pub tind_block : ℕ
tind_block = 14

-- `ext2_calculate_block_pointer_pos` for `k` pointers in a block: the level and the positions, or
-- none for its -1. Each subtraction follows a test that its second number is the lesser.
pub ext2_calculate_block_pointer_pos : ℕ → ℕ → Option (ℕ × List ℕ)
ext2_calculate_block_pointer_pos k block =
    let b1 = block - ndir_blocks in
    let b2 = b1 - k in
    let k2 = u32 (k * k) in
    let b3 = b2 - k2 in
    if ltb block ndir_blocks
    then some (0, block ∷ [])
    else if ltb b1 k
    then some (1, ind_block ∷ b1 ∷ [])
    else if ltb b2 k2
    then some (2, dind_block ∷ b2 / k ∷ b2 % k ∷ [])
    else if ltb b3 (u32 (k2 * k))
    then some (3, tind_block ∷ b3 / k2 ∷ b3 % k2 / k ∷ b3 % k2 % k ∷ [])
    else none
