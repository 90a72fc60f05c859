-- ===== src/Ext2/Dir/Entries.antt =====
-- kernel/drivers/fs/ext2/dir.c: the entries of a block, and the first that has a name.
use i80k.Base.{
  ap, sym, refl, ℕ, zero, suc, ◌+◌, ◌*◌, ◌^◌, ◌≡◌, ◌≤◌, ◌<◌, ◌∙◌, inl, inr, arith, Bool, true,
  false, ◌&&◌, Option, none, some, List, [], ◌∷◌, ◌++◌, ◌==◌, ltb, if◌then◌else◌, get_or, slice,
  length, Bool-split, ltb_of_le, eq_of_==,
}
use i80k.Base.Word.{u16}
use i80k.Ext2.{le16_at, le32_at}
use i80k.Ext2.Dir.{same_bytes, round_up, at_entry, scan}

pub record DirEntry : Type 0 where
  pub inum : ℕ
  pub rec_len : ℕ
  pub name : List ℕ

-- A block of a directory, from a position on, is a sequence of entries up to its end. Each has
-- room for its name, and a length that is a positive multiple of 4.
pub data Entries (size : ℕ) (buf : List ℕ) : ℕ → List DirEntry → Type 0 where
  at_end : Entries size buf size []
  entry :
      {pos : ℕ} {es : List DirEntry} (e : DirEntry) (quads : ℕ)
      → e.rec_len ≡ suc quads * 4
      → le16_at buf (pos + 4) ≡ e.rec_len
      → get_or buf (pos + 6) 0 ≡ length e.name
      → slice buf (pos + 8) (length e.name) ≡ e.name
      → le32_at buf pos ≡ e.inum
      → 8 + length e.name ≤ e.rec_len
      → pos + e.rec_len ≤ size
      → Entries size buf (pos + e.rec_len) es
      → Entries size buf pos (e ∷ es)

unfoldable pub find_name : List ℕ → List DirEntry → Option ℕ
find_name name [] = none
find_name name (e ∷ es) = if same_bytes e.name name then some e.inum else find_name name es

and_right : (a b : Bool) → (a && b) ≡ true → b ≡ true
and_right true b h = h
and_right false b h = absurd cc

same_bytes-length : (cs ds : List ℕ) → same_bytes cs ds ≡ true → length cs ≡ length ds
unfolding same_bytes
same_bytes-length [] [] h = refl
same_bytes-length [] (d ∷ ds) h = absurd cc
same_bytes-length (c ∷ cs) [] h = absurd cc
same_bytes-length (c ∷ cs) (d ∷ ds) h =
    ap suc (same_bytes-length cs ds (and_right (c == d) (same_bytes cs ds) h))

-- What the code does with an entry, against the list of entries.
at_entry-find_name :
    (name buf : List ℕ) (size pos : ℕ) (e : DirEntry) (es : List DirEntry)
    (rest : Option (Option ℕ))
    → 0 < e.rec_len
    → le16_at buf (pos + 4) ≡ e.rec_len
    → get_or buf (pos + 6) 0 ≡ length e.name
    → slice buf (pos + 8) (length e.name) ≡ e.name
    → le32_at buf pos ≡ e.inum
    → 8 + length e.name ≤ e.rec_len
    → pos + e.rec_len ≤ size
    → rest ≡ some (find_name name es)
    → at_entry name size buf pos rest ≡ some (find_name name (e ∷ es))
unfolding at_entry find_name
at_entry-find_name name buf size pos e es rest some_len len name_len text number room inside later =
    let header : ltb size (pos + 8) ≡ false = ground (arith, room, inside) in
    let counted : (le16_at buf (pos + 4) == 0) ≡ false = ground (arith, len, some_len) in
    elim (Bool-split (length e.name == length name)) [
      | inl same ↦
          let equal : length e.name ≡ length name = eq_of_== (length e.name) (length name) same in
          let body : ltb size (pos + 8 + length name) ≡ false =
            ground (arith, equal, room, inside) in
          let test : (get_or buf (pos + 6) 0 == length name) ≡ true =
            ap (λ n. n == length name) name_len ∙ same in
          let found : slice buf (pos + 8) (length name) ≡ e.name =
            ap (λ n. slice buf (pos + 8) n) (sym equal) ∙ text in
          rw (header, counted, test, body, found, number, later)
            (elim (Bool-split (same_bytes e.name name)) [ inl t ↦ rw t refl | inr f ↦ rw f refl ])
      | inr other ↦
          let test : (get_or buf (pos + 6) 0 == length name) ≡ false =
            ap (λ n. n == length name) name_len ∙ other in
          let differs : same_bytes e.name name ≡ false =
            elim (Bool-split (same_bytes e.name name)) [
              | inl t ↦ absurd (ground (arith, other, same_bytes-length e.name name t))
              | inr f ↦ f
            ] in
          rw (header, counted, test, differs, later) refl
    ]

next_pos :
    (size pos len quads : ℕ)
    → size ≤ 2 ^ 15
    → len ≡ suc quads * 4
    → pos + len ≤ size
    → u16 (pos + round_up len) ≡ pos + len
next_pos size pos len quads small multiple inside = omega (arith, small, multiple, inside)

-- A block of at most 2 ^ 15 bytes that is a sequence of entries from the position on: with more
-- fuel than entries the loop ends, and it has found the inode of the first entry with the name, or
-- none if no entry has it.
pub scan-find_name :
    (fuel : ℕ) (name : List ℕ) (size : ℕ) (buf : List ℕ) (pos : ℕ) (es : List DirEntry)
    → size ≤ 2 ^ 15
    → Entries size buf pos es
    → length es < fuel
    → scan fuel name size buf pos ≡ some (find_name name es)
unfolding scan find_name
scan-find_name zero name size buf pos es small block enough = absurd (omega (arith, enough))
scan-find_name (suc fuel) name size buf _ _ small at_end enough =
    rw (ltb_of_le size size (omega arith)) refl
scan-find_name (suc fuel) name size buf pos _ small
      (entry {es} e quads multiple len name_len text number room inside more) enough =
    let before : ltb pos size ≡ true = ground (arith, room, inside) in
    let next : u16 (pos + round_up (le16_at buf (pos + 4))) ≡ pos + e.rec_len =
      ap (λ n. u16 (pos + round_up n)) len
      ∙ next_pos size pos e.rec_len quads small multiple inside in
    rw before (
      at_entry-find_name name buf size pos e es
        (scan fuel name size buf (u16 (pos + round_up (le16_at buf (pos + 4)))))
        (omega (arith, room)) len name_len text number room inside
        (ap (scan fuel name size buf) next
          ∙ scan-find_name fuel name size buf (pos + e.rec_len) es small more
              (omega (arith, enough))))

abbrev pub first_of : Option ℕ → Option ℕ → Option ℕ
first_of none later = later
first_of (some found) later = some found

pub find_name-append :
    (name : List ℕ) (es es' : List DirEntry)
    → find_name name (es ++ es') ≡ first_of (find_name name es) (find_name name es')
unfolding find_name
find_name-append name [] es' = refl
find_name-append name (e ∷ es) es' = elim (Bool-split (same_bytes e.name name)) [
  | inl t ↦ rw t refl
  | inr f ↦ rw f (find_name-append name es es')
]

pub find_name-nil : (name : List ℕ) → find_name name [] ≡ none
unfolding find_name
find_name-nil name = refl
