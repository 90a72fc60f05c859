-- ===== src/Malloc/Free.antt =====
-- libc/malloc.c: `free` gives the bytes of the block back, joined with those of its free buddies.
use i80k.Base.{
  ap, ℕ, zero, suc, ◌+◌, ◌-◌, ◌≤◌, min, ◌≡◌, refl, subst, arith, Option, none, some, List, [], ◌∷◌,
  ◌++◌,
}
use i80k.Malloc.{Heap, Table, put, getbuddy, fb_add, fb_remove, merge, free}
use i80k.Malloc.Index.{enough, Sized, getindex-Sized}
use i80k.Malloc.Cover.{
  cover, cover_table, Aligned, more, cover_table-put, cover-getbuddy, fb_remove-cover,
}
use i80k.Malloc.Alloc.{TableAligned, TableAligned-put}
use i80k.Malloc.Valid.{Live, cover_live, AllHeaded, IsValid}

-- What putting a block back does to the table.
abbrev Back : ℕ → ℕ → Table → Table → Type 0
Back i zone table table' =
    TableAligned table'
    × ((x : ℕ) → cover_table 13 table' x ≡ cover_table 13 table x + cover i zone x)

fb_add-Back :
    (i zone : ℕ) (table : Table)
    → i ≤ 12
    → Aligned i zone
    → TableAligned table
    → Back i zone table (fb_add i zone table)
unfolding fb_add
fb_add-Back i zone table high a all = (
  TableAligned-put i (zone ∷ table i) table all (more a (all i)),
  λ x.
      let p = cover_table-put 13 i (zone ∷ table i) table x (omega (arith, high)) in
      omega (arith, p),
)

merge-Back :
    (rounds i zone : ℕ) (table : Table) (o : Option (List ℕ))
    → i + rounds ≤ 12
    → Aligned i zone
    → TableAligned table
    → fb_remove (getbuddy i zone) (table i) ≡ o
    → Back i zone table (merge rounds i zone table o)
unfolding merge
merge-Back rounds i zone table none high a all e =
    fb_add-Back i zone table (omega (arith, high)) a all
merge-Back zero i zone table (some rest) high a all e =
    fb_add-Back i zone table (omega (arith, high)) a all
merge-Back (suc rounds) i zone table (some rest) high a all e =
    let b = getbuddy i zone in
    let z' = min zone b in
    let table' = put i rest table in
    let (a', joined) = cover-getbuddy i zone a in
    let (all_rest, gone) = fb_remove-cover i b (table i) rest e (all i) in
    let next : suc i ≡ i + 1 = omega arith in
    let (all', counts) =
      merge-Back rounds (i + 1) z' table' (fb_remove (getbuddy (i + 1) z') (table' (i + 1)))
        (omega (arith, high)) (subst (λ n. Aligned n z') next a')
        (TableAligned-put i rest table all all_rest) refl in
    (
      all',
      λ x.
          let c = counts x in
          let g = gone x in
          let j = joined x in
          let p = cover_table-put 13 i rest table x (omega (arith, high)) in
          let same = ap (λ n. cover n z' x) next in omega (arith, c, g, j, p, same),
    )

cover_live-middle :
    (before after : Live) (z i x : ℕ)
    → cover_live (before ++ ((z, i) ∷ after)) x ≡ cover i z x + cover_live (before ++ after) x
cover_live-middle [] after z i x = refl
cover_live-middle ((w, j) ∷ before) after z i x =
    omega (arith, cover_live-middle before after z i x)

AllHeaded-middle :
    (size_of : ℕ → ℕ) (before after : Live) (z i : ℕ)
    → AllHeaded size_of (before ++ ((z, i) ∷ after))
    → (Aligned i z × Sized i (size_of z)) × AllHeaded size_of (before ++ after)
AllHeaded-middle size_of [] after z i (AllHeaded.more a s all) = ((a, s), all)
AllHeaded-middle size_of ((w, j) ∷ before) after z i (AllHeaded.more a s all) =
    let (here, rest) = AllHeaded-middle size_of before after z i all in
    (here, AllHeaded.more a s rest)

-- A block that was handed out is freed: the call returns, and every byte of the heap is in one block
-- again, where the block is no longer handed out and the others still are.
pub free-IsValid :
    (h : Heap) (before after : Live) (zone index : ℕ)
    → IsValid h (before ++ ((zone, index) ∷ after))
    → (h' : Heap) × (free enough (some (zone + 2)) h ≡ some h') × IsValid h' (before ++ after)
unfolding free
free-IsValid h before after zone index valid =
    let ((a, sized), headed) = AllHeaded-middle h.size_of before after zone index valid.headed in
    let at : zone + 2 - 2 ≡ zone = omega arith in
    let (all, counts) =
      merge-Back (12 - index) index zone h.table (fb_remove (getbuddy index zone) (h.table index))
        (omega (arith, sized.high)) a valid.aligned refl in
    (
      record h {
        table =
            merge (12 - index) index zone h.table (fb_remove (getbuddy index zone) (h.table index));
      },
      rw (at, getindex-Sized index (h.size_of zone) sized) refl,
      record {
        tiled = λ x.
            let c = counts x in
            let m = cover_live-middle before after zone index x in
            let t = valid.tiled x in omega (arith, c, m, t);
        aligned = all;
        headed = headed;
        pages = valid.pages;
      },
    )
