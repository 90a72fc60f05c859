-- ===== src/Ext2/Walk.antt =====
-- kernel/drivers/fs/ext2/dir.c and file.c: following a path from an inode, and opening a file.
--
-- A path is cut at its separators before it is followed. The loop, its jump back and the call for a
-- symbolic link take turns. `buf` is what malloc gives for a directory, `stale` what an
-- array on the stack holds.
pub mod Resolved
mod Tests
use i80k.Base.{
  ℕ, zero, suc, ◌+◌, ◌*◌, ◌/◌, ◌%◌, ◌^◌, Bool, true, false, Option, none, some, List, [], ◌∷◌, ◌==◌,
  leb, ltb, if◌then◌else◌, get_or, length, take, bit_and,
}
use i80k.Base.Word.{u16, u32, Ret, ok, err}
use i80k.Inode.{Inode, s_ifmt, ext2_file_len, ext2_read_inode}
use i80k.Ext2.{Ext2, volume, Answer, got, fails, ext2_load_inode}
use i80k.Ext2.Dir.{is_dir, ext2_dir_lookup}

abbrev pub s_iflnk : ℕ
s_iflnk = 40960

abbrev pub is_lnk : Inode → Bool
is_lnk inode = bit_and inode.mode s_ifmt == s_iflnk

abbrev pub add_first : ℕ → List (List ℕ) → List (List ℕ)
add_first c [] = (c ∷ []) ∷ []
add_first c (name ∷ names) = (c ∷ name) ∷ names

-- The components of a path, where separators are skipped at the start, if asked for, and after a
-- separator. The last component may be empty.
pub components : Bool → List ℕ → List (List ℕ)
components skipping [] = [] ∷ []
components skipping (c ∷ cs) =
    let after = components true cs in
    let inside = add_first c (components false cs) in
    if c == b'/' then (if skipping then after else [] ∷ after) else inside

-- The first bytes of `i_block`.
abbrev pub link_bytes : ℕ → ℕ → (ℕ → ℕ) → List ℕ
link_bytes zero i bytes = []
link_bytes (suc n) i bytes = bytes i ∷ link_bytes n (suc i) bytes

-- The byte at a place of the pointers.
abbrev pub block_byte : Inode → ℕ → ℕ
block_byte inode i = inode.i_block (i / 4) / 2 ^ (8 * (i % 4)) % 2 ^ 8

-- The text up to its final zero.
pub text_of : List ℕ → List ℕ
text_of [] = []
text_of (c ∷ cs) = let rest = text_of cs in if c == 0 then [] else c ∷ rest

abbrev pub link_read : Option (Ret × List ℕ) → Option (Answer (List ℕ))
link_read none = none
link_read (some (err e, bytes)) = some (fails e)
link_read (some (ok n, bytes)) = some (got (text_of bytes))

abbrev pub link_of_length : ℕ → Ext2 → Inode → List ℕ → ℕ → Ret → Option (Answer (List ℕ))
link_of_length fuel fs inode stale len (err e) = some (fails 12)
link_of_length fuel fs inode stale len (ok linklen) =
    let long = link_read (ext2_read_inode fuel (volume fs) inode (λ b. stale) 0 linklen) in
    let short = some (got (text_of (link_bytes linklen 0 (block_byte inode)))) in
    if ltb len (linklen + 1) then some (fails 12) else if ltb 60 linklen then long else short

-- The text of a symbolic link, with room for `len` bytes.
pub ext2_read_link : ℕ → Ext2 → Inode → List ℕ → ℕ → Option (Answer (List ℕ))
unfolding text_of
ext2_read_link fuel fs inode stale len =
    link_of_length fuel fs inode stale len (ext2_file_len (volume fs) inode)

-- Where the loop stands: before a component, or at the inode in `*inum`, with the components after
-- it.
pub data Stage : Type 0 where
  at_name : List (List ℕ) → Stage
  at_inode : List (List ℕ) → Stage

abbrev pub starts_with_separator : List ℕ → Bool
starts_with_separator [] = false
starts_with_separator (c ∷ cs) = c == b'/'

abbrev pub found_entry :
    (Stage → ℕ → Option (Ret × ℕ)) → List (List ℕ) → Option (Ret × ℕ) → Option (Ret × ℕ)
found_entry next rest none = none
found_entry next rest (some (err e, inum)) = some (err e, inum)
found_entry next rest (some (ok n, inum)) = next (at_inode rest) inum

-- After the call for a symbolic link.
abbrev pub followed :
    (Stage → ℕ → Option (Ret × ℕ)) → List (List ℕ) → Option (Ret × ℕ) → Option (Ret × ℕ)
followed next rest none = none
followed next rest (some (err e, inum)) = some (err e, inum)
followed next [] (some (ok n, inum)) = some (ok 0, inum)
followed next (c ∷ rest) (some (ok n, inum)) = next (at_inode (c ∷ rest)) inum

abbrev pub into_dir :
    (Inode → Stage → ℕ → Option (Ret × ℕ)) → Inode → List (List ℕ) → ℕ → Option (Ret × ℕ)
into_dir next inode [] inum = some (ok 0, inum)
into_dir next inode (c ∷ rest) inum = next inode (at_name (c ∷ rest)) inum

abbrev pub at_other : List (List ℕ) → ℕ → Option (Ret × ℕ)
at_other [] inum = some (ok 0, inum)
at_other (c ∷ rest) inum = some (err 2, inum)

-- The call for a link, if there may be one more.
abbrev pub follow :
    (ℕ → Inode → Stage → ℕ → Option (Ret × ℕ))
    → Ext2
    → ℕ
    → Inode
    → List (List ℕ)
    → ℕ
    → Option (Answer (List ℕ))
    → Option (Ret × ℕ)
follow next fs depth dir rest inum none = none
follow next fs depth dir rest inum (some (fails e)) = some (err e, inum)
follow next fs zero dir rest inum (some (got link)) = some (err 2, inum)
follow next fs (suc depth) dir rest inum (some (got link)) = followed (next (suc depth) dir) rest (
    next depth (if starts_with_separator link then fs.root_inode else dir)
      (at_name (components true link)) inum)

abbrev pub at_loaded :
    (ℕ → Inode → Stage → ℕ → Option (Ret × ℕ))
    → Ext2
    → ℕ
    → Inode
    → List (List ℕ)
    → ℕ
    → (Inode → Option (Answer (List ℕ)))
    → Option (Answer Inode)
    → Option (Ret × ℕ)
at_loaded next fs depth dir rest inum read_link none = none
at_loaded next fs depth dir rest inum read_link (some (fails e)) = some (err e, inum)
at_loaded next fs depth dir rest inum read_link (some (got inode)) =
    let link = follow next fs depth dir rest inum (read_link inode) in
    let below = into_dir (next depth) inode rest inum in
    if is_lnk inode then link else if is_dir inode then below else at_other rest inum

-- `ext2_walk` in so many turns: `depth` more calls for links are allowed. What is returned, and
-- `*inum`.
pub ext2_walk : ℕ → ℕ → Ext2 → List ℕ → List ℕ → ℕ → Inode → Stage → ℕ → Option (Ret × ℕ)
unfolding ext2_read_link
ext2_walk zero fuel fs buf stale depth dir stage inum = none
ext2_walk (suc turns) fuel fs buf stale depth dir (at_name []) inum = some (ok 0, inum)
ext2_walk (suc turns) fuel fs buf stale depth dir (at_name (name ∷ rest)) inum =
    found_entry (ext2_walk turns fuel fs buf stale depth dir) rest
      (ext2_dir_lookup fuel fs dir buf name inum)
ext2_walk (suc turns) fuel fs buf stale depth dir (at_inode rest) inum =
    at_loaded (ext2_walk turns fuel fs buf stale) fs depth dir rest inum
      (λ inode. ext2_read_link fuel fs inode stale 512) (ext2_load_inode fs inum)

-- The path is cut to 511 bytes.
pub ext2_lookup : ℕ → ℕ → Ext2 → List ℕ → List ℕ → List ℕ → ℕ → Option (Ret × ℕ)
unfolding components ext2_walk
ext2_lookup turns fuel fs buf stale path inum =
    ext2_walk turns fuel fs buf stale 3 fs.root_inode (at_name (components true (take 511 path)))
      inum

abbrev pub open_found : Ext2 → Option (Ret × ℕ) → Option (Answer Inode)
open_found fs none = none
open_found fs (some (err e, inum)) = some (fails e)
open_found fs (some (ok n, inum)) = ext2_load_inode fs inum

-- The inode of the file, where calloc gives the handle; `inum` is what the variable held before.
pub ext2_open_file : ℕ → ℕ → Ext2 → List ℕ → List ℕ → List ℕ → ℕ → Option (Answer Inode)
unfolding ext2_lookup
ext2_open_file turns fuel fs buf stale path inum =
    open_found fs (ext2_lookup turns fuel fs buf stale path inum)
