-- ===== src/BlockMap/Tests.antt =====
-- Blocks of a file with four pointers in a block.
use i80k.Base.{◌≡◌, refl, arith, some, none, [], ◌∷◌}
use i80k.BlockMap.{ext2_calculate_block_pointer_pos}
use i80k.BlockMap.Located.{Located, ext2_calculate_block_pointer_pos-Located}

-- A direct block.
pub first_direct : ext2_calculate_block_pointer_pos 256 0 ≡ some (0, 0 ∷ [])
unfolding ext2_calculate_block_pointer_pos
first_direct = refl

first_double : ext2_calculate_block_pointer_pos 4 16 ≡ some (2, 13 ∷ 0 ∷ 0 ∷ [])
unfolding ext2_calculate_block_pointer_pos
first_double = refl

last_triple : ext2_calculate_block_pointer_pos 4 95 ≡ some (3, 14 ∷ 3 ∷ 3 ∷ 3 ∷ [])
unfolding ext2_calculate_block_pointer_pos
last_triple = refl

too_big : ext2_calculate_block_pointer_pos 4 96 ≡ none
unfolding ext2_calculate_block_pointer_pos
too_big = refl

ext2_calculate_block_pointer_pos-Located_example :
    Located 256 70000 (ext2_calculate_block_pointer_pos 256 70000)
ext2_calculate_block_pointer_pos-Located_example =
    ext2_calculate_block_pointer_pos-Located 256 (omega arith) (omega arith) 70000
