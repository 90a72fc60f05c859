-- ===== src/Malloc/Alloc.antt =====
-- libc/malloc.c: a block is taken from the free ones, or from a new page, and cut to size.
use native.Mathlib.Nat.{two-pow-succ}
use i80k.Base.{
  ap, ℕ, zero, suc, ◌+◌, ◌*◌, ◌≤◌, ◌≡◌, refl, sym, ◌∙◌, subst, arith, Option, none, some, List, [],
  ◌∷◌, ◌==◌, Bool-split, inl, inr, eq_of_==,
}
use i80k.Malloc.{Table, put, getbuddy, fb_add, find_free, divide}
use i80k.Malloc.Cover.{
  cover, cover_list, cover_table, Aligned, AllAligned, more, cover_table-put, cover_joined,
  getbuddy_up,
}

abbrev pub TableAligned : Table → Type 0
TableAligned table = (i : ℕ) → AllAligned i (table i)

pub TableAligned-put :
    (i : ℕ) (l : List ℕ) (table : Table)
    → TableAligned table
    → AllAligned i l
    → TableAligned (put i l table)
TableAligned-put i l table all a j = elim (Bool-split (j == i)) [
  | inl e ↦ rw e (subst (λ k. AllAligned k l) (sym (eq_of_== j i e)) a)
  | inr e ↦ rw e (all j)
]

pub Aligned-lower : (i z : ℕ) → Aligned (suc i) z → Aligned i z
Aligned-lower i z (q, e) = (q + q, omega (arith, e, ap (λ (t : ℕ). t * q) (two-pow-succ i)))

-- What cutting a block down to `index` does to the table.
abbrev pub Cut : ℕ → ℕ → ℕ → Table → Table → Type 0
Cut index i z table table' =
    TableAligned table'
    × ((x : ℕ) → cover_table 13 table' x + cover index z x ≡ cover_table 13 table x + cover i z x)

pub divide-Cut :
    (k index z : ℕ) (table : Table)
    → index + k ≤ 12
    → Aligned (index + k) z
    → TableAligned table
    → Cut index (index + k) z table (divide k index z table)
unfolding divide fb_add
divide-Cut zero index z table small a all =
    (all, λ x. omega (arith, ap (λ i. cover i z x) {x = index + 0} {y = index} (omega arith)))
divide-Cut (suc k) index z table small a all =
    let i = index + k in
    let next : index + suc k ≡ suc i = omega arith in
    let above : Aligned (suc i) z = subst (λ n. Aligned n z) next a in
    let b = getbuddy_up i z above in
    let below = Aligned-lower i z above in
    let buddy : Aligned i (getbuddy i z) = (below.0 + 1, b ∙ omega (arith, below.1)) in
    let table' = put i (getbuddy i z ∷ table i) table in
    let (all', counts) =
      divide-Cut k index z table' (omega (arith, small)) below
        (TableAligned-put i (getbuddy i z ∷ table i) table all (more buddy (all i))) in
    (
      all',
      λ x.
          let c = counts x in
          let p = cover_table-put 13 i (getbuddy i z ∷ table i) table x (omega (arith, small)) in
          let joined = cover_joined i z x in
          let up = ap (λ n. cover i n x) b in
          let top = ap (λ n. cover n z x) next in omega (arith, c, p, joined, up, top),
    )

-- The block that a search finds, and the table without it.
abbrev pub Taken : ℕ → Table → ℕ × ℕ × Table → Type 0
Taken index table (z, i, table') =
    (index ≤ i)
    × (i ≤ 12)
    × Aligned i z
    × TableAligned table'
    × ((x : ℕ) → cover_table 13 table x ≡ cover_table 13 table' x + cover i z x)

take_first :
    (i z : ℕ) (zs : List ℕ) (table : Table)
    → i ≤ 12
    → TableAligned table
    → AllAligned i (z ∷ zs)
    → z ∷ zs ≡ table i
    → Taken i table (z, i, put i zs table)
take_first i z zs table small all (more a rest) e = (
  omega arith,
  small,
  a,
  TableAligned-put i zs table all rest,
  λ x.
      let p = cover_table-put 13 i zs table x (omega (arith, small)) in
      let l = ap (λ l. cover_list i l x) e in omega (arith, p, l),
)

abbrev pub Found : ℕ → Table → Option (ℕ × ℕ × Table) → Type 0
Found index table o = (r : ℕ × ℕ × Table) → o ≡ some r → Taken index table r

pub find_free-Found :
    (rounds i : ℕ) (table : Table) (l : List ℕ)
    → i + rounds ≤ 12
    → TableAligned table
    → l ≡ table i
    → Found i table (find_free rounds i table l)
unfolding find_free
find_free-Found rounds i table (z ∷ zs) small all e r found =
    let same : (z, i, put i zs table) ≡ r = cc in
    subst (Taken i table) same
      (take_first i z zs table (omega (arith, small)) all (subst (AllAligned i) (sym e) (all i)) e)
find_free-Found zero i table [] small all e r found = absurd cc
find_free-Found (suc rounds) i table [] small all e (z, j, t) found =
    let (low, high, a, all', counts) =
      find_free-Found rounds (i + 1) table (table (i + 1)) (omega (arith, small)) all refl (z, j, t)
        found in
    (omega (arith, low), high, a, all', counts)

-- A search that finds nothing has seen only empty lists.
pub find_free-none :
    (rounds i j : ℕ) (table : Table) (l : List ℕ)
    → l ≡ table i
    → find_free rounds i table l ≡ none
    → i ≤ j
    → j ≤ i + rounds
    → table j ≡ []
unfolding find_free
find_free-none rounds i j table (z ∷ zs) e missing low high = absurd cc
find_free-none zero i j table [] e missing low high =
    ap table {x = j} {y = i} (omega (arith, low, high)) ∙ sym e
find_free-none (suc rounds) i j table [] e missing low high = elim (Bool-split (j == i)) [
  | inl same ↦ ap table (eq_of_== j i same) ∙ sym e
  | inr other ↦
      let next : i + 1 ≤ j = ground arith in
      find_free-none rounds (i + 1) j table (table (i + 1)) refl missing next (omega (arith, high))
]
