-- ===== src/Base/Slice.antt =====
-- Ranges of a byte array: reading one (`slice`), overwriting one (`blit`, the effect of a memcpy).
use Prim.Native.Nat.{ℕ, zero, suc, ◌+◌, ◌≤◌}
use mathlib.Core.Path.{◌≡◌, refl, ap, ◌∙◌, sym}
use mathlib.Core.List.{List, [], ◌∷◌, ◌++◌}
use native.Mathlib.Omega.{arith}
use i80k.Base.Lists.{length, take, drop, length-take, length-drop, drop-drop, take_split}

module _ {ℓ} {A : Type ℓ} where
  -- The `n` items from index `p` on, or those of them that there are.
  abbrev pub slice : List A → ℕ → ℕ → List A
  slice xs p n = take n (drop p xs)

  -- `memcpy(dst + p, src, length src)`; a write past the end of `dst` is dropped.
  abbrev pub blit : List A → ℕ → List A → List A
  blit [] p src = []
  blit (d ∷ ds) zero [] = d ∷ ds
  blit (d ∷ ds) zero (s ∷ src) = s ∷ blit ds zero src
  blit (d ∷ ds) (suc p) src = d ∷ blit ds p src

module _ {ℓ} {A : Type ℓ} where
  pub length-blit : (dst : List A) (p : ℕ) (src : List A) → length (blit dst p src) ≡ length dst
  length-blit [] p src = refl
  length-blit (d ∷ ds) zero [] = refl
  length-blit (d ∷ ds) zero (s ∷ src) = ap suc (length-blit ds zero src)
  length-blit (d ∷ ds) (suc p) src = ap suc (length-blit ds p src)

  pub blit-nil : (dst : List A) (p : ℕ) → blit dst p [] ≡ dst
  blit-nil [] p = refl
  blit-nil (d ∷ ds) zero = refl
  blit-nil (d ∷ ds) (suc p) = ap (λ r. d ∷ r) (blit-nil ds p)

  -- Two adjacent writes are one.
  pub blit_join :
      (dst : List A) (p q : ℕ) (xs ys : List A)
      → q ≡ p + length xs
      → blit (blit dst p xs) q ys ≡ blit dst p (xs ++ ys)
  blit_join [] p q xs ys e = refl
  blit_join (d ∷ ds) zero zero [] ys e = refl
  blit_join (d ∷ ds) zero (suc q) [] ys e = absurd (omega arith)
  blit_join (d ∷ ds) zero zero (x ∷ xs) ys e = absurd (omega arith)
  blit_join (d ∷ ds) zero (suc q) (x ∷ xs) ys e =
      ap (λ r. x ∷ r) (blit_join ds zero q xs ys (omega arith))
  blit_join (d ∷ ds) (suc p) zero xs ys e = absurd (omega arith)
  blit_join (d ∷ ds) (suc p) (suc q) xs ys e =
      ap (λ r. d ∷ r) (blit_join ds p q xs ys (omega arith))

  -- What was written is read back.
  pub slice-blit :
      (dst : List A) (p n : ℕ) (src : List A)
      → p + length src ≤ length dst
      → n ≡ length src
      → slice (blit dst p src) p n ≡ src
  slice-blit [] p zero [] h e = refl
  slice-blit [] p (suc n) [] h e = absurd (omega arith)
  slice-blit [] p n (s ∷ src) h e = absurd (omega arith)
  slice-blit (d ∷ ds) zero zero [] h e = refl
  slice-blit (d ∷ ds) zero (suc n) [] h e = absurd (omega arith)
  slice-blit (d ∷ ds) zero zero (s ∷ src) h e = absurd (omega arith)
  slice-blit (d ∷ ds) zero (suc n) (s ∷ src) h e =
      ap (λ r. s ∷ r) (slice-blit ds zero n src (omega arith) (omega arith))
  slice-blit (d ∷ ds) (suc p) n src h e = slice-blit ds p n src (omega arith) e

  pub length-slice : (xs : List A) (p n : ℕ) → p + n ≤ length xs → length (slice xs p n) ≡ n
  length-slice xs p n h = omega (arith, length-take n (drop p xs), length-drop p xs)

  -- A range is the range of its first `m` items and that of the rest.
  pub slice_split :
      (xs : List A) (p m n : ℕ) → slice xs p (m + n) ≡ slice xs p m ++ slice xs (p + m) n
  slice_split xs p m n =
      take_split m n (drop p xs) ∙ ap (λ r. take m (drop p xs) ++ take n r) (drop-drop m p xs)

  -- Reading inside what was read.
  pub slice-slice :
      (xs : List A) (p n q m : ℕ) → q + m ≤ n → slice (slice xs p n) q m ≡ slice xs (p + q) m
  slice-slice xs p n q m h = inner n q (drop p xs) h ∙ ap (take m) (drop-drop q p xs)
    where
      front : (k j : ℕ) (ys : List A) → j ≤ k → take j (take k ys) ≡ take j ys
      front k zero ys h = refl
      front zero (suc j) ys h = absurd (omega arith)
      front (suc k) (suc j) [] h = refl
      front (suc k) (suc j) (y ∷ ys) h = ap (λ r. y ∷ r) (front k j ys (omega arith))

      inner : (k j : ℕ) (ys : List A) → j + m ≤ k → take m (drop j (take k ys)) ≡ take m (drop j ys)
      inner k zero ys h = front k m ys (omega arith)
      inner zero (suc j) ys h = absurd (omega arith)
      inner (suc k) (suc j) [] h = refl
      inner (suc k) (suc j) (y ∷ ys) h = inner k j ys (omega arith)

  blit-blit-take :
      (xs : List A) (n q : ℕ) (src : List A)
      → n ≤ length xs
      → q + length src ≤ n
      → blit xs 0 (blit (take n xs) q src) ≡ blit xs q src
  blit-blit-take [] n q src h k = refl
  blit-blit-take (x ∷ xs) zero zero [] h k = refl
  blit-blit-take (x ∷ xs) zero zero (s ∷ src) h k = absurd (omega arith)
  blit-blit-take (x ∷ xs) zero (suc q) src h k = absurd (omega arith)
  blit-blit-take (x ∷ xs) (suc n) zero [] h k =
      ap (λ r. x ∷ r)
        (ap (blit xs 0) (sym (blit-nil (take n xs) 0))
          ∙ blit-blit-take xs n 0 [] (omega arith) (omega arith)
          ∙ blit-nil xs 0)
  blit-blit-take (x ∷ xs) (suc n) zero (s ∷ src) h k =
      ap (λ r. s ∷ r) (blit-blit-take xs n 0 src (omega arith) (omega arith))
  blit-blit-take (x ∷ xs) (suc n) (suc q) src h k =
      ap (λ r. x ∷ r) (blit-blit-take xs n q src (omega arith) (omega arith))

  -- Overwriting a part of a range that was read out, and writing the range back.
  pub blit-blit-slice :
      (xs : List A) (p n q : ℕ) (src : List A)
      → p + n ≤ length xs
      → q + length src ≤ n
      → blit xs p (blit (slice xs p n) q src) ≡ blit xs (p + q) src
  blit-blit-slice [] p n q src h k = refl
  blit-blit-slice (x ∷ xs) zero n q src h k =
      blit-blit-take (x ∷ xs) n q src (omega arith) k ∙ ap (λ j. blit (x ∷ xs) j src) (omega arith)
  blit-blit-slice (x ∷ xs) (suc p) n q src h k =
      ap (λ r. x ∷ r) (blit-blit-slice xs p n q src (omega arith) k)
      ∙ ap (λ j. blit (x ∷ xs) j src) {x = suc (p + q)} {y = suc p + q} (omega arith)

  take-blit :
      (xs : List A) (n q : ℕ) (src : List A)
      → q + length src ≤ n
      → take n (blit xs q src) ≡ blit (take n xs) q src
  take-blit [] zero q src h = refl
  take-blit [] (suc n) q src h = refl
  take-blit (x ∷ xs) zero q src h = refl
  take-blit (x ∷ xs) (suc n) zero [] h = refl
  take-blit (x ∷ xs) (suc n) zero (s ∷ src) h = ap (λ r. s ∷ r) (take-blit xs n 0 src (omega arith))
  take-blit (x ∷ xs) (suc n) (suc q) src h = ap (λ r. x ∷ r) (take-blit xs n q src (omega arith))

  -- A write inside a range, seen through the range.
  pub slice-blit_inside :
      (xs : List A) (p n q : ℕ) (src : List A)
      → q + length src ≤ n
      → slice (blit xs (p + q) src) p n ≡ blit (slice xs p n) q src
  slice-blit_inside [] zero zero q src h = refl
  slice-blit_inside [] zero (suc n) q src h = refl
  slice-blit_inside [] (suc p) zero q src h = refl
  slice-blit_inside [] (suc p) (suc n) q src h = refl
  slice-blit_inside (x ∷ xs) zero n q src h =
      ap (λ j. take n (blit (x ∷ xs) j src)) {x = 0 + q} {y = q} (omega arith)
      ∙ take-blit (x ∷ xs) n q src h
  slice-blit_inside (x ∷ xs) (suc p) n q src h =
      ap (λ j. slice (blit (x ∷ xs) j src) (suc p) n) {x = suc p + q} {y = suc (p + q)}
        (omega arith)
      ∙ slice-blit_inside xs p n q src h
