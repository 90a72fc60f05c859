-- ===== src/Ext2/Walk/Resolved.antt =====
-- kernel/drivers/fs/ext2/dir.c: paths without symbolic links, and what their last component finds.
use i80k.Base.{
  ap, sym, refl, ℕ, suc, ◌+◌, ◌*◌, ◌^◌, ◌≡◌, ◌≤◌, ◌∙◌, inl, inr, arith, true, false, some, List, [],
  ◌∷◌, ◌++◌, length, Bool-split, Option-split,
}
use i80k.Base.Word.{ok}
use i80k.Inode.{Inode}
use i80k.Ext2.{Ext2, block_size, got, ext2_load_inode}
use i80k.Ext2.Dir.{is_dir, ext2_dir_lookup}
use i80k.Ext2.Dir.Entries.{DirEntry, find_name}
use i80k.Ext2.Dir.Blocks.{Holds, looked_up, ext2_dir_lookup-first}
use i80k.Ext2.Walk.{is_lnk, at_name, at_inode, found_entry, at_loaded, ext2_walk, ext2_read_link}

-- Names that lead from a directory to another, each found in the one before and a directory itself.
pub data Leads (fuel : ℕ) (fs : Ext2) (buf : List ℕ)
    : Inode → ℕ → List (List ℕ) → Inode → ℕ → Type 0 where
  arrived : {dir : Inode} {inum : ℕ} → Leads fuel fs buf dir inum [] dir inum
  down :
      {dir inode dir' : Inode} {inum inum' : ℕ} {name : List ℕ} {names : List (List ℕ)} (sub : ℕ)
      → ext2_dir_lookup fuel fs dir buf name inum ≡ some (ok 1, sub)
      → ext2_load_inode fs sub ≡ some (got inode)
      → is_lnk inode ≡ false
      → is_dir inode ≡ true
      → Leads fuel fs buf inode sub names dir' inum'
      → Leads fuel fs buf dir inum (name ∷ names) dir' inum'

module _ (fuel : ℕ) (fs : Ext2) (buf stale : List ℕ) (depth : ℕ) where
  loaded_dir :
      (turns : ℕ) (dir inode : Inode) (name : List ℕ) (rest : List (List ℕ)) (sub : ℕ)
      → ext2_load_inode fs sub ≡ some (got inode)
      → is_lnk inode ≡ false
      → is_dir inode ≡ true
      → ext2_walk (suc turns) fuel fs buf stale depth dir (at_inode (name ∷ rest)) sub
        ≡ ext2_walk turns fuel fs buf stale depth inode (at_name (name ∷ rest)) sub
  unfolding ext2_walk
  loaded_dir turns dir inode name rest sub loads no_link directory =
      ap
        (at_loaded (ext2_walk turns fuel fs buf stale) fs depth dir (name ∷ rest) sub
          (λ i. ext2_read_link fuel fs i stale 512))
        loads
      ∙ rw (no_link, directory) refl

  loaded_last :
      (turns : ℕ) (dir inode : Inode) (sub : ℕ)
      → ext2_load_inode fs sub ≡ some (got inode)
      → is_lnk inode ≡ false
      → ext2_walk (suc turns) fuel fs buf stale depth dir (at_inode []) sub ≡ some (ok 0, sub)
  unfolding ext2_walk
  loaded_last turns dir inode sub loads no_link =
      ap
        (at_loaded (ext2_walk turns fuel fs buf stale) fs depth dir [] sub
          (λ i. ext2_read_link fuel fs i stale 512))
        loads
      ∙ elim (Bool-split (is_dir inode)) [
        | inl d ↦ rw (no_link, d) refl
        | inr f ↦ rw (no_link, f) refl
      ]

  looked :
      (turns n : ℕ) (dir : Inode) (name : List ℕ) (rest : List (List ℕ)) (inum sub : ℕ)
      → ext2_dir_lookup fuel fs dir buf name inum ≡ some (ok n, sub)
      → ext2_walk (suc turns) fuel fs buf stale depth dir (at_name (name ∷ rest)) inum
        ≡ ext2_walk turns fuel fs buf stale depth dir (at_inode rest) sub
  unfolding ext2_walk
  looked turns n dir name rest inum sub found =
      ap (found_entry (ext2_walk turns fuel fs buf stale depth dir) rest) found

  entered :
      (turns : ℕ) (dir inode : Inode) (names : List (List ℕ)) (last : List ℕ) (sub : ℕ)
      → ext2_load_inode fs sub ≡ some (got inode)
      → is_lnk inode ≡ false
      → is_dir inode ≡ true
      → ext2_walk (suc turns) fuel fs buf stale depth dir (at_inode (names ++ (last ∷ []))) sub
        ≡ ext2_walk turns fuel fs buf stale depth inode (at_name (names ++ (last ∷ []))) sub
  entered turns dir inode [] last sub loads no_link directory =
      loaded_dir turns dir inode last [] sub loads no_link directory
  entered turns dir inode (name ∷ names) last sub loads no_link directory =
      loaded_dir turns dir inode name (names ++ (last ∷ [])) sub loads no_link directory

  last_found :
      (n : ℕ) (dir : Inode) (inum : ℕ) (last : List ℕ) (es : List DirEntry) (target : ℕ)
      → is_dir dir ≡ true
      → block_size fs.sb ≤ 2 ^ 15
      → n ≤ 1024
      → Holds fuel fs dir n 0 buf es
      → (looked_up inum (find_name last es)).1 ≡ target
      → (r : ℕ) × (ext2_dir_lookup fuel fs dir buf last inum ≡ some (ok r, target))
  last_found n dir inum last es target directory small few held meant =
      let looked = ext2_dir_lookup-first n last buf inum es directory small few held in
      elim (Option-split (find_name last es)) [
        | inl e ↦
            let same : inum ≡ target = ap (λ o. (looked_up inum o).1) (sym e) ∙ meant in
            (0, looked ∙ ap (λ o. some (looked_up inum o)) e ∙ ap (λ i. some (ok 0, i)) same)
        | inr (i, e) ↦
            let same : i ≡ target = ap (λ o. (looked_up inum o).1) (sym e) ∙ meant in
            (1, looked ∙ ap (λ o. some (looked_up inum o)) e ∙ ap (λ i. some (ok 1, i)) same)
      ]

  walk_down :
      (turns : ℕ) (dir dir' : Inode) (inum inum' : ℕ) (names : List (List ℕ)) (last : List ℕ)
      → Leads fuel fs buf dir inum names dir' inum'
      → ext2_walk
          (length names * 2 + turns)
          fuel
          fs
          buf
          stale
          depth
          dir
          (at_name (names ++ (last ∷ [])))
          inum
        ≡ ext2_walk turns fuel fs buf stale depth dir' (at_name (last ∷ [])) inum'
  walk_down turns dir _ inum _ _ last arrived =
      ap (λ n. ext2_walk n fuel fs buf stale depth dir (at_name (last ∷ [])) inum) {x = 0 + turns}
        {y = turns} (omega arith)
  walk_down turns dir dir' inum inum' _ last
        (down {inode} {name} {names} sub found loads no_link directory more) =
      let t = length names * 2 + turns in
      ap
        (λ n.
          ext2_walk n fuel fs buf stale depth dir (at_name (name ∷ (names ++ (last ∷ [])))) inum)
        {x = suc (length names) * 2 + turns} {y = suc (suc t)} (omega arith)
      ∙ looked (suc t) 1 dir name (names ++ (last ∷ [])) inum sub found
      ∙ entered t dir inode names last sub loads no_link directory
      ∙ walk_down turns inode dir' sub inum' names last more

  -- Where names, perhaps none, lead to a directory of at most 1024 blocks, each a sequence of
  -- entries, and one more name follows: the walk ends, with 2 turns for each name. It returns 0 and
  -- the inode of the first entry with that name, if it can be loaded and is not a symbolic link.
  -- Where no entry has the name it returns 0 all the same, with the number that stood in `*inum`
  -- before the name was looked up, if that inode can be loaded and is not a symbolic link: the number
  -- of the last directory, or what the caller left there if no name came before.
  pub ext2_walk-last :
      (spare n : ℕ) (dir dir' inode : Inode) (inum inum' : ℕ) (names : List (List ℕ))
      (last : List ℕ) (es : List DirEntry) (target : ℕ)
      → Leads fuel fs buf dir inum names dir' inum'
      → is_dir dir' ≡ true
      → block_size fs.sb ≤ 2 ^ 15
      → n ≤ 1024
      → Holds fuel fs dir' n 0 buf es
      → (looked_up inum' (find_name last es)).1 ≡ target
      → ext2_load_inode fs target ≡ some (got inode)
      → is_lnk inode ≡ false
      → ext2_walk
          (length names * 2 + suc (suc spare))
          fuel
          fs
          buf
          stale
          depth
          dir
          (at_name (names ++ (last ∷ [])))
          inum
        ≡ some (ok 0, target)
  ext2_walk-last spare n dir dir' inode inum inum' names last es target leads directory small few
        held meant loads no_link =
      let (r, found) = last_found n dir' inum' last es target directory small few held meant in
      walk_down (suc (suc spare)) dir dir' inum inum' names last leads
      ∙ looked (suc spare) r dir' last [] inum' target found
      ∙ loaded_last spare dir' inode target loads no_link
