-- ===== src/Malloc/Valid.antt =====
-- libc/malloc.c: every byte of the heap is in one block, free or handed out, and `malloc` keeps it so.
use native.Mathlib.Nat.{one-le-pow}
use i80k.Base.{
  ap, ℕ, zero, suc, ◌+◌, ◌-◌, ◌^◌, ◌≤◌, ◌≡◌, ◌≢◌, refl, sym, subst, arith, List, [], ◌∷◌, ◌==◌, ltb,
  if◌then◌else◌, ==_of_ne, ==_self,
}
use i80k.Malloc.{Heap, Table, divide}
use i80k.Malloc.Index.{Sized}
use i80k.Malloc.Cover.{cover, cover_table, Aligned}
use i80k.Malloc.Alloc.{Aligned-lower, TableAligned, Cut, divide-Cut}

-- The blocks handed out, each with its index.
abbrev pub Live : Type 0
Live = List (ℕ × ℕ)

abbrev pub cover_live : Live → ℕ → ℕ
cover_live [] x = 0
cover_live ((z, i) ∷ bs) x = cover i z x + cover_live bs x

abbrev pub inside : ℕ → ℕ → ℕ
inside n x = if ltb x n then 1 else 0

-- Each block that was handed out is aligned, and its header tells its index.
pub data AllHeaded (size_of : ℕ → ℕ) : Live → Type 0 where
  nothing : AllHeaded size_of []
  more :
      {z i : ℕ} {bs : Live}
      → Aligned i z
      → Sized i (size_of z)
      → AllHeaded size_of bs
      → AllHeaded size_of ((z, i) ∷ bs)

pub record IsValid (h : Heap) (live : Live) : Type 0 where
  pub tiled : (x : ℕ) → cover_table 13 h.table x + cover_live live x ≡ inside h.heap_size x
  pub aligned : TableAligned h.table
  pub headed : AllHeaded h.size_of live
  pub pages : Aligned 12 h.heap_size

pub cover_self : (i z : ℕ) → cover i z z ≡ 1
cover_self i z = let pos : 1 ≤ 2 ^ i = one-le-pow i 2 (omega arith) in ground arith

-- A header written outside the live blocks.
AllHeaded-set :
    (size_of : ℕ → ℕ) (bs : Live) (zone n : ℕ)
    → cover_live bs zone ≡ 0
    → AllHeaded size_of bs
    → AllHeaded (λ z. if z == zone then n else size_of z) bs
AllHeaded-set size_of [] zone n off nothing = nothing
AllHeaded-set size_of ((z, i) ∷ bs) zone n off (more a s all) =
    let self = cover_self i z in
    let ne : z ≢ zone = λ e. absurd (omega (arith, off, self, ap (cover i z) e)) in
    more a (subst (Sized i) (rw (==_of_ne z zone ne) refl) s)
      (AllHeaded-set size_of bs zone n (omega (arith, off)) all)

Aligned-below : (k index z : ℕ) → Aligned (index + k) z → Aligned index z
Aligned-below zero index z a = subst (λ n. Aligned n z) {x = index + 0} {y = index} (omega arith) a
Aligned-below (suc k) index z a = Aligned-below k index z (
    Aligned-lower (index + k) z
      (subst (λ n. Aligned n z) {x = index + suc k} {y = suc (index + k)} (omega arith) a))

-- A block that the free blocks, the live ones and a new page make room for is handed out.
pub handed-IsValid :
    (full index zone i size : ℕ) (table : Table) (size_of : ℕ → ℕ) (live : Live)
    → Sized index full
    → index ≤ i
    → i ≤ 12
    → Aligned i zone
    → TableAligned table
    → AllHeaded size_of live
    → Aligned 12 size
    → ((x : ℕ) → cover_table 13 table x + cover i zone x + cover_live live x ≡ inside size x)
    → IsValid
        (record {
          heap_size = size;
          table = divide (i - index) index zone table;
          size_of = λ z. if z == zone then full else size_of z;
        })
        ((zone, index) ∷ live)
handed-IsValid full index zone i size table size_of live sized low high a all headed pages tiled =
    record {
      tiled = whole;
      aligned = cut.0;
      headed =
          more below (subst (Sized index) (rw (==_self zone) refl) sized)
            (AllHeaded-set size_of live zone full apart headed);
      pages = pages;
    }
  where
    at : index + (i - index) ≡ i
    at = omega (arith, low)

    cut : Cut index (index + (i - index)) zone table (divide (i - index) index zone table)
    cut =
        divide-Cut (i - index) index zone table (omega (arith, at, high))
          (subst (λ k. Aligned k zone) (sym at) a) all

    below : Aligned index zone
    below = Aligned-below (i - index) index zone (subst (λ k. Aligned k zone) (sym at) a)

    whole :
        (x : ℕ)
        → cover_table 13 (divide (i - index) index zone table) x
            + (cover index zone x + cover_live live x)
          ≡ inside size x
    whole x =
        let c = cut.1 x in
        let t = tiled x in let same = ap (λ k. cover k zone x) at in omega (arith, c, t, same)

    apart : cover_live live zone ≡ 0
    apart = let w = whole zone in let self = cover_self index zone in ground arith
