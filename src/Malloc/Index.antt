-- ===== src/Malloc/Index.antt =====
-- libc/malloc.c: the index of a size, where the loop of `getindex` ends and where it does not.
use native.Mathlib.Nat.{two-pow-succ}
use i80k.Base.{
  ap, ℕ, zero, suc, ◌+◌, ◌-◌, ◌*◌, ◌^◌, ◌≤◌, ◌<◌, ◌≡◌, ◌⊎◌, inl, inr, refl, ◌∙◌, arith, Bool,
  Option, none, some, ltb, ltb_of_lt, ltb_of_le, ==_of_ne, Bool-split, lt_of_ltb, le_of_not_ltb,
  leb, leb→le, lt_of_not_leb,
}
use i80k.Base.Word.{u16, pow_le, pow_le_to}
use i80k.Malloc.{Heap, doublings, from_min, getindex, malloc}

-- The turns that are enough for every size up to a page.
abbrev pub enough : ℕ
enough = 13

-- The index of a size: the least from 3 on whose blocks hold it.
pub record Sized (i n : ℕ) : Type 0 where
  pub low : 3 ≤ i
  pub high : i ≤ 12
  pub fits : n ≤ 2 ^ i
  pub tight : 3 < i → 2 ^ i < n + n

pub Sized-upto : (d n : ℕ) → 3 + d ≤ 12 → n ≤ 2 ^ (3 + d) → (i : ℕ) × Sized i n
Sized-upto zero n h fits = (
  3,
  record { low = omega arith; high = omega arith; fits = fits; tight = λ k. absurd (omega arith) },
)
Sized-upto (suc d) n h fits = elim (Bool-split (leb n (2 ^ (3 + d)))) [
  | inl e ↦ Sized-upto d n (omega (arith, h)) (leb→le n (2 ^ (3 + d)) e)
  | inr e ↦
      let more = lt_of_not_leb n (2 ^ (3 + d)) e in
      let next : 3 + suc d ≡ suc (3 + d) = omega arith in
      let double : 2 ^ (3 + suc d) ≡ 2 ^ (3 + d) + 2 ^ (3 + d) =
        ap (λ (k : ℕ). 2 ^ k) next ∙ two-pow-succ (3 + d) in
      (
        3 + suc d,
        record {
          low = omega arith;
          high = h;
          fits = fits;
          tight = λ k. omega (arith, double, more);
        },
      )
]

doublings_lem :
    (d j fuel index n : ℕ)
    → j + d ≤ 15
    → d < fuel
    → n ≤ 2 ^ (j + d)
    → (0 < d → 2 ^ (j + d) < n + n)
    → doublings fuel (2 ^ j) n index ≡ some (index + d)
unfolding doublings
doublings_lem zero j zero index n h enough fits tight = absurd (omega arith)
doublings_lem (suc d) j zero index n h enough fits tight = absurd (omega arith)
doublings_lem zero j (suc fuel) index n h enough fits tight =
    let same : 2 ^ (j + 0) ≡ 2 ^ j = ap (λ (k : ℕ). 2 ^ k) {x = j + 0} {y = j} (omega arith) in
    rw (ltb_of_le (2 ^ j) n (omega (arith, fits, same)))
      (ap some {x = index} {y = index + 0} (omega arith))
doublings_lem (suc d) j (suc fuel) index n h enough fits tight =
    let next : j + suc d ≡ suc j + d = omega arith in
    let same = ap (λ (k : ℕ). 2 ^ k) next in
    let double = two-pow-succ j in
    let below : 2 ^ suc j ≤ 2 ^ (suc j + d) = pow_le (suc j) d in
    let short : 2 ^ suc j ≤ 2 ^ 15 = pow_le_to (suc j) 15 (omega (arith, h)) in
    let word : u16 (2 ^ j * 2) ≡ 2 ^ suc j = omega (arith, double, short) in
    rw (ltb_of_lt (2 ^ j) n (omega (arith, tight (omega arith), same, double, below)), word)
      (doublings_lem d (suc j) fuel (index + 1) n (omega (arith, h)) (omega (arith, enough))
          (omega (arith, fits, same)) (λ pos. omega (arith, tight (omega arith), same))
        ∙ ap some {x = index + 1 + d} {y = index + suc d} (omega arith))

-- The index that is computed is that of the size.
pub getindex-Sized : (i n : ℕ) → Sized i n → getindex enough n ≡ some i
unfolding getindex doublings
getindex-Sized i n s =
    let d = i - 3 in
    let at : 3 + d ≡ i = omega (arith, s.low) in
    let same : 2 ^ (3 + d) ≡ 2 ^ i = ap (λ (k : ℕ). 2 ^ k) at in
    doublings_lem d 3 enough 3 n (omega (arith, s.high)) (omega (arith, s.high))
      (omega (arith, s.fits, same)) (λ pos. omega (arith, s.tight (omega (arith, at, pos)), same))
    ∙ ap some at

-- 0, or a power of two that is a 16-bit word: what doubling makes of 1.
Doubled : ℕ → Type 0
Doubled from = (from ≡ 0) ⊎ ((j : ℕ) × (j ≤ 15) × (from ≡ 2 ^ j))

doubled : (from : ℕ) → Doubled from → Doubled (u16 (from * 2))
unfolding Doubled
doubled from (inl zero_now) = inl (omega (arith, zero_now))
doubled from (inr (j, small, e)) = elim (Bool-split (ltb j 15)) [
  | inl more ↦
      let lt = lt_of_ltb j 15 more in
      let short : 2 ^ suc j ≤ 2 ^ 15 = pow_le_to (suc j) 15 (omega (arith, lt)) in
      inr (suc j, omega (arith, lt), omega (arith, e, two-pow-succ j, short))
  | inr last ↦
      let ge = le_of_not_ltb j 15 last in
      let top : j ≡ 15 = omega (arith, ge, small) in
      inl (omega (arith, e, ap (λ (k : ℕ). 2 ^ k) top))
]

Doubled-le : (from : ℕ) → Doubled from → from ≤ 2 ^ 15
unfolding Doubled
Doubled-le from (inl z) = omega (arith, z)
Doubled-le from (inr (j, small, e)) = omega (arith, e, pow_le_to j 15 small)

doublings-none :
    (fuel from n index : ℕ) → Doubled from → 2 ^ 15 < n → doublings fuel from n index ≡ none
unfolding doublings
doublings-none zero from n index d h = refl
doublings-none (suc fuel) from n index d h =
    rw (ltb_of_lt from n (omega (arith, Doubled-le from d, h)))
      (doublings-none fuel (u16 (from * 2)) n (index + 1) (doubled from d) h)

from_min-none : (fuel n : ℕ) (o : Option ℕ) → 2 ^ 15 < n → from_min fuel n o ≡ none
unfolding Doubled
from_min-none fuel n none h = refl
from_min-none fuel n (some m) h = doublings-none fuel 8 n m (inr (3, omega arith, omega arith)) h

-- For a size whose block would be larger than 2 ^ 15 bytes, the search for the index does not end:
-- the doubled block size wraps to 0.
pub malloc-none :
    (fuel : ℕ) (grant : Bool) (size : ℕ) (h : Heap)
    → 2 ^ 15 < size + 2
    → size + 2 < 2 ^ 16
    → malloc fuel grant size h ≡ none
unfolding malloc getindex
malloc-none fuel grant size h large small =
    let word : u16 (size + 2) ≡ size + 2 = omega arith in
    rw
      (
        ==_of_ne size 0 (λ e. absurd (omega (arith, e, large))),
        word,
        from_min-none fuel (size + 2) (doublings fuel 1 8 0) large,
      )
      refl
