-- ===== src/Malloc/Given.antt =====
-- libc/malloc.c: what `malloc` yields on a heap whose bytes are each in one block.
use native.Mathlib.Nat.{two-pow-succ}
use i80k.Base.{
  ap, ℕ, suc, ◌+◌, ◌-◌, ◌^◌, ◌≤◌, ◌<◌, ◌≡◌, refl, sym, ◌∙◌, arith, Bool, true, false, Option, none,
  some, [], ◌∷◌, ltb, Bool-split, inl, inr, ==_of_ne, ltb_of_le, lt_of_ltb, le_of_not_ltb,
}
use i80k.Base.Word.{u16, pow_le_to}
use i80k.Malloc.{Heap, Table, find_free, from_free, allocate, malloc}
use i80k.Malloc.Index.{enough, Sized, Sized-upto, getindex-Sized}
use i80k.Malloc.Cover.{cover}
use i80k.Malloc.Alloc.{Found, find_free-Found, find_free-none}
use i80k.Malloc.Valid.{Live, inside, IsValid, handed-IsValid}

-- What `malloc` yields. A block is handed out that has room for the size and the header, and every
-- byte of the heap is in one block again; or no free block has the room, and no page is given.
pub data Outcome (grant : Bool) (size : ℕ) (h : Heap) (live : Live)
    : Option (Option ℕ × Heap) → Type 0 where
  refused :
      grant ≡ false
      → ((j : ℕ) → j ≤ 12 → size + 2 ≤ 2 ^ j → 3 ≤ j → h.table j ≡ [])
      → Outcome grant size h live (some (none, h))
  granted :
      {h' : Heap} (zone index : ℕ)
      → size + 2 ≤ 2 ^ index
      → IsValid h' ((zone, index) ∷ live)
      → Outcome grant size h live (some (some (zone + 2), h'))

Sized-le : (i j n : ℕ) → Sized i n → n ≤ 2 ^ j → 3 ≤ j → i ≤ j
Sized-le i j n s room low = elim (Bool-split (ltb j i)) [
  | inl e ↦
      let less = lt_of_ltb j i e in
      let up = pow_le_to (suc j) i less in
      let tight = s.tight (omega (arith, less, low)) in
      absurd (omega (arith, up, two-pow-succ j, tight, room))
  | inr e ↦ le_of_not_ltb j i e
]

grown : (n x : ℕ) → inside (n + 2 ^ 12) x ≡ inside n x + cover 12 n x
grown n x = ground arith

module _ (size index : ℕ) (h : Heap) (live : Live) (valid : IsValid h live)
    (sized : Sized index (size + 2)) (room : h.heap_size + 2 ^ 12 < 2 ^ 15) where
  from_free-Outcome :
      (grant : Bool) (o : Option (ℕ × ℕ × Table))
      → Found index h.table o
      → (o ≡ none → (j : ℕ) → index ≤ j → j ≤ 12 → h.table j ≡ [])
      → Outcome grant size h live (some (from_free grant (size + 2) index h o))
  from_free-Outcome grant (some (zone, i, table)) found empty =
      let (low, high, a, all, counts) = found (zone, i, table) refl in
      granted zone index sized.fits (
        handed-IsValid (size + 2) index zone i h.heap_size table h.size_of live sized low high a all
          valid.headed valid.pages
          (λ x. let c = counts x in let t = valid.tiled x in omega (arith, c, t)))
  from_free-Outcome false none found empty =
      refused refl
        (λ j high fits low. empty refl j (Sized-le index j (size + 2) sized fits low) high)
  from_free-Outcome true none found empty =
      let word : u16 (h.heap_size + 2 ^ 12) ≡ h.heap_size + 2 ^ 12 = omega (arith, room) in
      granted h.heap_size index sized.fits (
        handed-IsValid (size + 2) index h.heap_size 12 (u16 (h.heap_size + 2 ^ 12)) h.table
          h.size_of live sized sized.high (omega arith) valid.pages valid.aligned valid.headed
          (valid.pages.0 + 1, word ∙ omega (arith, valid.pages.1))
          (λ x.
            let t = valid.tiled x in
            let g = grown h.heap_size x in
            ap (λ n. n) (omega (arith, t, g)) ∙ ap (λ n. inside n x) (sym word)))

  allocate-Outcome :
      (grant : Bool) → Outcome grant size h live (some (allocate grant (size + 2) index h))
  unfolding allocate
  allocate-Outcome grant =
      let rounds : index + (12 - index) ≡ 12 = omega (arith, sized.high) in
      rw (ltb_of_le 12 index sized.high) (
        from_free-Outcome grant (find_free (12 - index) index h.table (h.table index))
          (find_free-Found (12 - index) index h.table (h.table index) (omega (arith, rounds))
            valid.aligned refl)
          (λ missing j low high.
            find_free-none (12 - index) index j h.table (h.table index) refl missing low
              (omega (arith, rounds, high))))

-- On a heap each of whose bytes is in one block, a call for a size up to a page, less the header,
-- returns.
pub malloc-Outcome :
    (grant : Bool) (size : ℕ) (h : Heap) (live : Live)
    → IsValid h live
    → 0 < size
    → size + 2 ≤ 2 ^ 12
    → h.heap_size + 2 ^ 12 < 2 ^ 15
    → Outcome grant size h live (malloc enough grant size h)
unfolding malloc
malloc-Outcome grant size h live valid pos small room =
    let (index, sized) = Sized-upto 9 (size + 2) (omega arith) (omega (arith, small)) in
    let word : u16 (size + 2) ≡ size + 2 = omega (arith, small) in
    rw
      (
        ==_of_ne size 0 (λ e. absurd (omega (arith, e, pos))),
        word,
        getindex-Sized index (size + 2) sized,
      )
      (allocate-Outcome size index h live valid sized room grant)
