-- ===== src/Registry/Tests.antt =====
-- Two devices without functions of their own, registered and removed.
use i80k.Base.{ℕ, ◌≡◌, refl, none, some, [], ◌∷◌}
use i80k.Blkdev.{BlkDev}
use i80k.Registry.{blk_open}

abbrev named : ℕ → BlkDev ℕ
named c = record {
  name = c ∷ [];
  block_size = 4;
  block_shift = 2;
  block_count = 4;
  read_block = none;
  write_block = none;
  read = none;
  write = none;
}

not_there : blk_open (some (8 ∷ [])) (named 7 ∷ []) ≡ none
unfolding blk_open
not_there = refl
