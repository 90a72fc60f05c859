-- ===== src/Inode/Places.antt =====
-- kernel/drivers/fs/ext2/io.c: where the bytes of a file are on the device, through the pointers of
-- its inode and of its indirect blocks.
use i80k.Base.{
  ap, ℕ, zero, suc, ◌+◌, ◌*◌, ◌/◌, ◌%◌, ◌^◌, ◌<◌, ◌≤◌, ◌≡◌, ◌≢◌, refl, sym, ◌∙◌, arith, false,
  Option, none, some, List, [], ◌∷◌, ◌==◌, if◌then◌else◌, get_or, Bool-split, eq_of_==, inl, inr,
  subst, replicate, Option-split,
}
use i80k.Base.Word.{u16}
use i80k.BlockMap.{ext2_calculate_block_pointer_pos}
use i80k.BlockMap.Located.{
  Located, direct, single, double, triple, beyond, ext2_calculate_block_pointer_pos-Located,
}
use i80k.Inode.{
  Volume, Inode, load, dig, final_entry, ext2_get_block, le32, indirect_table, entry_at,
  file_block_to_fs_block, fill_block, ext2_read_block,
}
use i80k.Inode.Contents.{content}

-- The four bytes of a pointer of a block on the device, the least first; 0 where the block is the
-- block 0 or is not read.
abbrev pub number_in : Option (List ℕ) → ℕ → ℕ
number_in none i = 0
number_in (some table) i =
    get_or table (4 * i) 0
    + 256 * get_or table (4 * i + 1) 0
    + 65536 * get_or table (4 * i + 2) 0
    + 16777216 * get_or table (4 * i + 3) 0

abbrev pub stored_block : Volume → ℕ → Option (List ℕ)
stored_block v n =
    if n == 0
    then none
    else if v.can_alloc
    then v.blk_read (n * v.block_size % 2 ^ 32) v.block_size
    else none

-- The code keeps 16 bits of the number of an indirect block.
abbrev pub pointer : Volume → ℕ → ℕ → ℕ
pointer v n i = number_in (stored_block v (n % 2 ^ 16)) i

-- The block of the device that holds block `b` of a file, with `k` pointers in a block. A block past
-- the last pointer is looked for in the inode.
pub data HeldBy (v : Volume) (inode : Inode) (k b : ℕ) : ℕ → Type 0 where
  by_inode : b < 12 → HeldBy v inode k b (inode.i_block b)
  by_single : (p : ℕ) → p < k → b ≡ 12 + p → HeldBy v inode k b (pointer v (inode.i_block 12) p)
  by_double :
      (p q : ℕ)
      → p < k
      → q < k
      → b ≡ 12 + k + (k * p + q)
      → HeldBy v inode k b (pointer v (pointer v (inode.i_block 13) p) q)
  by_triple :
      (p q r : ℕ)
      → p < k
      → q < k
      → r < k
      → b ≡ 12 + k + k * k + (k * (k * p + q) + r)
      → HeldBy v inode k b (pointer v (pointer v (pointer v (inode.i_block 14) p) q) r)
  by_none : 12 + k + k * k + k * k * k ≤ b → HeldBy v inode k b (inode.i_block b)

-- A byte of a file: 0 where its block has no place on the device, and what was in the way where the
-- block is not read.
pub data FileByte (v : Volume) (inode : Inode) (stale : ℕ → List ℕ) (i : ℕ) : ℕ → Type 0 where
  hole : HeldBy v inode (v.block_size / 4) (i / v.block_size) 0 → FileByte v inode stale i 0
  on_device :
      (n : ℕ) (xs : List ℕ)
      → HeldBy v inode (v.block_size / 4) (i / v.block_size) n
      → n ≢ 0
      → v.blk_read (n * v.block_size % 2 ^ 32) v.block_size ≡ some xs
      → FileByte v inode stale i (get_or xs (i % v.block_size) 0)
  not_read :
      (n : ℕ)
      → HeldBy v inode (v.block_size / 4) (i / v.block_size) n
      → n ≢ 0
      → v.blk_read (n * v.block_size % 2 ^ 32) v.block_size ≡ none
      → FileByte v inode stale i (get_or (stale (i / v.block_size)) (i % v.block_size) 0)

le32-number_in : (table : List ℕ) (i : ℕ) → le32 table i ≡ number_in (some table) i
le32-number_in table i = omega arith

final_entry-number_in : (p : ℕ) (t : Option (List ℕ)) → final_entry p t ≡ number_in t p
final_entry-number_in p none = refl
final_entry-number_in p (some table) = le32-number_in table p

one_more :
    (v : Volume) (p q : ℕ) (t : Option (List ℕ))
    → final_entry q (dig v p (q ∷ []) t) ≡ final_entry q (load v (u16 (number_in t p)))
unfolding dig load
one_more v p q none = refl
one_more v p q (some table) =
    ap (λ n. final_entry q (dig v q [] (load v (u16 n)))) (le32-number_in table p)
    ∙ last (load v (u16 (number_in (some table) p)))
  where
    last : (t : Option (List ℕ)) → final_entry q (dig v q [] t) ≡ final_entry q t
    last none = refl
    last (some table') = refl

two_more :
    (v : Volume) (p q r : ℕ) (t : Option (List ℕ))
    → final_entry r (dig v p (q ∷ r ∷ []) t)
      ≡ final_entry r (load v (u16 (number_in (load v (u16 (number_in t p))) q)))
unfolding dig load
two_more v p q r none = refl
two_more v p q r (some table) =
    ap (λ n. final_entry r (dig v q (r ∷ []) (load v (u16 n)))) (le32-number_in table p)
    ∙ one_more v q r (load v (u16 (number_in (some table) p)))

module _ (v : Volume) (inode : Inode) (k b : ℕ) where
  entry_at-HeldBy :
      (r : Option (ℕ × List ℕ)) → Located k b r → HeldBy v inode k b (entry_at v inode b r)
  unfolding indirect_table dig load ext2_get_block
  entry_at-HeldBy _ (direct low) = by_inode low
  entry_at-HeldBy _ (single {p} lt e) =
      subst (HeldBy v inode k b)
        (sym (
          loaded p (load v (u16 (inode.i_block 12)))
          ∙ final_entry-number_in p (load v (u16 (inode.i_block 12)))))
        (by_single p lt e)
    where
      loaded : (p : ℕ) (t : Option (List ℕ)) → final_entry p (dig v p [] t) ≡ final_entry p t
      loaded p none = refl
      loaded p (some table) = refl
  entry_at-HeldBy _ (double {p} {q} lt lt' e) =
      let t = load v (u16 (inode.i_block 13)) in
      subst (HeldBy v inode k b)
        (sym (one_more v p q t ∙ final_entry-number_in q (load v (u16 (number_in t p)))))
        (by_double p q lt lt' e)
  entry_at-HeldBy _ (triple {p} {q} {r} lt lt' lt'' e) =
      let t = load v (u16 (inode.i_block 14)) in
      let t' = load v (u16 (number_in t p)) in
      subst (HeldBy v inode k b)
        (sym (two_more v p q r t ∙ final_entry-number_in r (load v (u16 (number_in t' q)))))
        (by_triple p q r lt lt' lt'' e)
  entry_at-HeldBy _ (beyond past) = by_none past

-- The block that the code reads is the one that holds the block of the file.
file_block_to_fs_block-HeldBy :
    (v : Volume) (inode : Inode)
    → 0 < v.block_size / 4
    → v.block_size / 4 ≤ 2 ^ 10
    → (b : ℕ) → HeldBy v inode (v.block_size / 4) b (file_block_to_fs_block v inode b)
unfolding file_block_to_fs_block
file_block_to_fs_block-HeldBy v inode some_pointers pointers b =
    let k = v.block_size / 4 in
    entry_at-HeldBy v inode k b (ext2_calculate_block_pointer_pos k b)
      (ext2_calculate_block_pointer_pos-Located k some_pointers pointers b)

get_or-replicate : (n i : ℕ) → get_or (replicate {A = ℕ} n 0) i 0 ≡ 0
get_or-replicate zero i = refl
get_or-replicate (suc n) zero = refl
get_or-replicate (suc n) (suc i) = get_or-replicate n i

-- What the code fills its buffers with are the bytes of the file.
pub content-FileByte :
    (v : Volume) (inode : Inode) (stale : ℕ → List ℕ)
    → 0 < v.block_size / 4
    → v.block_size / 4 ≤ 2 ^ 10
    → (i : ℕ) → FileByte v inode stale i (content v inode stale i)
unfolding fill_block ext2_read_block
content-FileByte v inode stale some_pointers pointers i =
    elim (Bool-split (file_block_to_fs_block v inode b == 0)) [
      | inl e ↦
          let none_there = eq_of_== (file_block_to_fs_block v inode b) 0 e in
          let nothing : content v inode stale i ≡ 0 =
            rw e (get_or-replicate v.block_size (i % v.block_size)) in
          subst (FileByte v inode stale i) (sym nothing)
            (hole (subst (HeldBy v inode (v.block_size / 4) b) none_there held))
      | inr e ↦ elim (Option-split (v.blk_read at v.block_size)) [
        | inl failed ↦
            let kept : content v inode stale i ≡ get_or (stale b) (i % v.block_size) 0 =
              rw (e, failed) refl in
            subst (FileByte v inode stale i) (sym kept)
              (not_read (file_block_to_fs_block v inode b) held (ne_of_== e) failed)
        | inr (xs, done) ↦
            let read : content v inode stale i ≡ get_or xs (i % v.block_size) 0 =
              rw (e, done) refl in
            subst (FileByte v inode stale i) (sym read)
              (on_device (file_block_to_fs_block v inode b) xs held (ne_of_== e) done)
      ]
    ]
  where
    b : ℕ
    b = i / v.block_size

    at : ℕ
    at = file_block_to_fs_block v inode b * v.block_size % 2 ^ 32

    held : HeldBy v inode (v.block_size / 4) b (file_block_to_fs_block v inode b)
    held = file_block_to_fs_block-HeldBy v inode some_pointers pointers b

    ne_of_== : {n : ℕ} → (n == 0) ≡ false → n ≢ 0
    ne_of_== e same = ground arith
