-- ===== src/Ext2/Dir/Blocks.antt =====
-- kernel/drivers/fs/ext2/dir.c: the entries of all blocks of a directory.
use i80k.Base.{
  ap, ap₂, sym, refl, ℕ, zero, suc, ◌*◌, ◌^◌, ◌≡◌, ◌≤◌, ◌<◌, ◌∙◌, arith, true, Option, none, some,
  List, [], ◌++◌, length,
}
use i80k.Base.Word.{u16, u32, Ret, ok}
use i80k.Inode.{Inode, ext2_read_inode}
use i80k.Ext2.{Ext2, volume, block_size}
use i80k.Ext2.Dir.{
  is_dir, holds_before, overlay, scanned, block_read, lookup_blocks, ext2_dir_lookup,
}
use i80k.Ext2.Dir.Entries.{
  DirEntry, Entries, find_name, first_of, find_name-nil, find_name-append, scan-find_name,
}

-- The next `n` blocks of a directory hold the entries, and there are no further blocks. A block is
-- read into the buffer that held the one before.
pub data Holds (fuel : ℕ) (fs : Ext2) (dir : Inode) : ℕ → ℕ → List ℕ → List DirEntry → Type 0 where
  no_more :
      {k : ℕ} {buf bytes : List ℕ}
      → ext2_read_inode fuel
          (volume fs)
          dir
          (holds_before fs dir buf)
          (u32 (k * block_size fs.sb))
          (u16 (block_size fs.sb))
        ≡ some (ok 0, bytes)
      → Holds fuel fs dir 0 k buf []
  block :
      {n k : ℕ} {buf bytes : List ℕ} {es es' : List DirEntry} (count : ℕ)
      → ext2_read_inode fuel
          (volume fs)
          dir
          (holds_before fs dir buf)
          (u32 (k * block_size fs.sb))
          (u16 (block_size fs.sb))
        ≡ some (ok (suc count), bytes)
      → Entries (block_size fs.sb) (overlay bytes buf) 0 es
      → length es < fuel
      → Holds fuel fs dir n (suc k) (overlay bytes buf) es'
      → Holds fuel fs dir (suc n) k buf (es ++ es')

-- What a lookup returns, and `*inum`, which is as before where no entry has the name.
abbrev pub looked_up : ℕ → Option ℕ → Ret × ℕ
looked_up inum none = (ok 0, inum)
looked_up inum (some found) = (ok 1, found)

scanned_first :
    (inum : ℕ) (here later : Option ℕ)
    → scanned inum (some here) (some (looked_up inum later))
      ≡ some (looked_up inum (first_of here later))
scanned_first inum none later = refl
scanned_first inum (some found) later = refl

lookup_blocks-find_name :
    {fuel : ℕ} {fs : Ext2} {dir : Inode} (rounds n k : ℕ) (name buf : List ℕ) (inum : ℕ)
    (es : List DirEntry)
    → block_size fs.sb ≤ 2 ^ 15
    → Holds fuel fs dir n k buf es
    → n < rounds
    → lookup_blocks rounds fuel fs dir name k buf inum ≡ some (looked_up inum (find_name name es))
unfolding lookup_blocks
lookup_blocks-find_name zero n k name buf inum es small held enough = absurd (omega (arith, enough))
lookup_blocks-find_name {fuel} {fs} {dir} (suc rounds) _ k name buf inum _ small (no_more reads)
      enough =
    ap
      (block_read fuel name (block_size fs.sb) buf inum
        (λ buf'. lookup_blocks rounds fuel fs dir name (suc k) buf' inum))
      reads
    ∙ ap (λ o. some (looked_up inum o)) (sym (find_name-nil name))
lookup_blocks-find_name {fuel} {fs} {dir} (suc rounds) _ k name buf inum _ small
      (block {n} {bytes} {es} {es'} count reads entries fuel_left more) enough =
    ap
      (block_read fuel name (block_size fs.sb) buf inum
        (λ buf'. lookup_blocks rounds fuel fs dir name (suc k) buf' inum))
      reads
    ∙ ap₂ (scanned inum)
        (scan-find_name fuel name (block_size fs.sb) (overlay bytes buf) 0 es small entries
          fuel_left)
        (lookup_blocks-find_name rounds n (suc k) name (overlay bytes buf) inum es' small more
          (omega (arith, enough)))
    ∙ scanned_first inum (find_name name es) (find_name name es')
    ∙ ap (λ o. some (looked_up inum o)) (sym (find_name-append name es es'))

-- In a directory of at most 1024 blocks of at most 2 ^ 15 bytes, each a sequence of entries with
-- fewer entries than the fuel, a lookup ends. It finds the inode of the first entry with the name;
-- where no entry has it, it returns 0 and leaves `*inum` as it was.
pub ext2_dir_lookup-first :
    {fuel : ℕ} {fs : Ext2} {dir : Inode} (n : ℕ) (name buf : List ℕ) (inum : ℕ) (es : List DirEntry)
    → is_dir dir ≡ true
    → block_size fs.sb ≤ 2 ^ 15
    → n ≤ 1024
    → Holds fuel fs dir n 0 buf es
    → ext2_dir_lookup fuel fs dir buf name inum ≡ some (looked_up inum (find_name name es))
unfolding ext2_dir_lookup
ext2_dir_lookup-first n name buf inum es directory small few held =
    rw directory (lookup_blocks-find_name 1025 n 0 name buf inum es small held (omega (arith, few)))
