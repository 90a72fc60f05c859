-- ===== src/Blkdev/Tests.antt =====
-- Block devices on small inputs: a card of four blocks of four bytes.
use i80k.Base.{
  ℕ, ◌*◌, ◌≡◌, refl, ◌∙◌, arith, Bool, true, false, some, List, [], ◌∷◌, length, slice, blit, take,
  length-blit,
}
use i80k.Base.Word.{Ret, ok, err}
use i80k.Blkdev.{
  BlkDev, default_read, default_write, block_trim_range, trim_range, read_block, read_blocks,
  read_first, read_middle, read_last, call_read, blk_default_read, blk_read, blk_write,
}
use i80k.Blkdev.Disk.{IsDisk}
use i80k.Blkdev.Trim.{trim_range-min}
use i80k.Blkdev.Read.{blk_read-slice}
use i80k.Blkdev.WriteParts.{blk_write-blit}
use i80k.Blkdev.RoundTrip.{blk_read-blk_write}

abbrev Card : Type 0
Card = (bytes : List ℕ) × (length bytes ≡ 16)

abbrev bytes_of : Card → List ℕ
bytes_of c = c.0

abbrev card_read : ℕ → ℕ → Card → (Ret × List ℕ) × Card
card_read block count c = ((ok (4 * count), slice c.0 (4 * block) (4 * count)), c)

abbrev card_write : List ℕ → ℕ → ℕ → Card → Ret × Card
card_write bytes block count c = (
  ok (4 * count),
  (
    blit c.0 (4 * block) (take (4 * count) bytes),
    length-blit c.0 (4 * block) (take (4 * count) bytes) ∙ c.1,
  ),
)

abbrev card : BlkDev Card
card = record {
  name = b's' ∷ b'd' ∷ b'a' ∷ [];
  block_size = 4;
  block_shift = 2;
  block_count = 4;
  read_block = some card_read;
  write_block = some card_write;
  read = some default_read;
  write = some default_write;
}

card-IsDisk : IsDisk card bytes_of
card-IsDisk = record {
  shift = refl;
  size_is_int = omega arith;
  total_is_off = omega arith;
  sized = λ c. c.1;
  reader = card_read;
  reader_set = refl;
  reads = λ block count c pos inside small. (c, refl, refl);
  writer = card_write;
  writer_set = refl;
  writes = λ bytes block count c pos inside small enough.
      ((card_write bytes block count c).1, refl, refl);
}

abbrev counting : Card
counting = (0 ∷ 1 ∷ 2 ∷ 3 ∷ 4 ∷ 5 ∷ 6 ∷ 7 ∷ 8 ∷ 9 ∷ 10 ∷ 11 ∷ 12 ∷ 13 ∷ 14 ∷ 15 ∷ [], refl)

abbrev plenty : ℕ → Bool
plenty n = true

-- A read over the end of the first block, two whole blocks, and a part of the last.
reads_across :
    (blk_read plenty (some card) true 2 11 counting).0
    ≡ (ok 11, 2 ∷ 3 ∷ 4 ∷ 5 ∷ 6 ∷ 7 ∷ 8 ∷ 9 ∷ 10 ∷ 11 ∷ 12 ∷ [])
unfolding blk_read call_read trim_range block_trim_range blk_default_read read_first read_middle
    read_last read_blocks read_block
reads_across = refl

no_memory : (blk_read (λ n. false) (some card) true 2 11 counting).0 ≡ (err 12, [])
unfolding blk_read call_read trim_range blk_default_read
no_memory = refl

trim_range-min_example : trim_range card 13 5 ≡ 3
trim_range-min_example = trim_range-min card 13 5 (omega arith) (omega arith) (omega arith)

blk_read-slice_example :
    (s' : Card) × (blk_read plenty (some card) true 13 9 counting ≡ ((ok 3, 13 ∷ 14 ∷ 15 ∷ []), s'))
    × (s'.0 ≡ counting.0)
blk_read-slice_example =
    blk_read-slice card-IsDisk plenty 13 9 counting refl refl (omega arith) (omega arith)

blk_write-blit_example :
    (s' : Card) × (blk_write plenty (some card) (some (7 ∷ 7 ∷ [])) 15 2 counting ≡ (ok 1, s'))
    × (s'.0 ≡ blit counting.0 15 (7 ∷ []))
blk_write-blit_example =
    blk_write-blit card-IsDisk plenty (7 ∷ 7 ∷ []) 15 2 counting refl refl refl (omega arith)
      (omega arith) (omega arith)

blk_read-blk_write_example :
    (s' : Card) × (blk_write plenty (some card) (some (7 ∷ 8 ∷ [])) 3 2 counting ≡ (ok 2, s'))
    × (s'.0 ≡ blit counting.0 3 (7 ∷ 8 ∷ []))
    × ((s'' : Card) × (blk_read plenty (some card) true 3 2 s' ≡ ((ok 2, 7 ∷ 8 ∷ []), s''))
        × (s''.0 ≡ s'.0))
blk_read-blk_write_example =
    blk_read-blk_write card-IsDisk plenty (7 ∷ 8 ∷ []) 3 counting refl refl refl (omega arith)
      (omega arith)
