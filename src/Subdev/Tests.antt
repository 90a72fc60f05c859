-- ===== src/Subdev/Tests.antt =====
-- A card of four blocks of four bytes, whose middle two blocks are a partition.
use i80k.Base.{
  ℕ, ◌*◌, ◌≡◌, refl, ◌∙◌, arith, Bool, true, some, List, [], ◌∷◌, length, slice, blit, take,
  length-blit,
}
use i80k.Base.Word.{Ret, ok}
use i80k.Blkdev.{BlkDev, default_read, default_write}
use i80k.Blkdev.Disk.{IsDisk}
use i80k.Subdev.{MbrEntry, mbr_is_valid_entry, subdevice}
use i80k.Subdev.Window.{subdevice-IsDisk}

abbrev Card : Type 0
Card = (bytes : List ℕ) × (length bytes ≡ 16)

abbrev bytes_of : Card → List ℕ
bytes_of c = c.0

abbrev card_read : ℕ → ℕ → Card → (Ret × List ℕ) × Card
card_read block count c = ((ok (4 * count), slice c.0 (4 * block) (4 * count)), c)

abbrev card_write : List ℕ → ℕ → ℕ → Card → Ret × Card
card_write bytes block count c = (
  ok (4 * count),
  (
    blit c.0 (4 * block) (take (4 * count) bytes),
    length-blit c.0 (4 * block) (take (4 * count) bytes) ∙ c.1,
  ),
)

abbrev card : BlkDev Card
card = record {
  name = b's' ∷ b'd' ∷ [];
  block_size = 4;
  block_shift = 2;
  block_count = 4;
  read_block = some card_read;
  write_block = some card_write;
  read = some default_read;
  write = some default_write;
}

card-IsDisk : IsDisk card bytes_of
card-IsDisk = record {
  shift = refl;
  size_is_int = omega arith;
  total_is_off = omega arith;
  sized = λ c. c.1;
  reader = card_read;
  reader_set = refl;
  reads = λ block count c pos inside small. (c, refl, refl);
  writer = card_write;
  writer_set = refl;
  writes = λ bytes block count c pos inside small enough.
      ((card_write bytes block count c).1, refl, refl);
}

abbrev counting : Card
counting = (0 ∷ 1 ∷ 2 ∷ 3 ∷ 4 ∷ 5 ∷ 6 ∷ 7 ∷ 8 ∷ 9 ∷ 10 ∷ 11 ∷ 12 ∷ 13 ∷ 14 ∷ 15 ∷ [], refl)

abbrev plenty : ℕ → Bool
plenty n = true

abbrev middle : MbrEntry
middle = record { status = 0x80; kind = 6; lba_start = 1; lba_len = 2 }

middle_valid : mbr_is_valid_entry card middle ≡ ok 0
unfolding mbr_is_valid_entry
middle_valid = refl

abbrev wrapping : MbrEntry
wrapping = record { status = 0x80; kind = 6; lba_start = 3; lba_len = 4294967294 }

subdevice-IsDisk_example : IsDisk (subdevice plenty card middle 0) (λ c. slice (bytes_of c) 4 8)
subdevice-IsDisk_example = subdevice-IsDisk card-IsDisk plenty middle 0 middle_valid (omega arith)
