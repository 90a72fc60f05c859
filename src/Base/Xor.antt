-- ===== src/Base/Xor.antt =====
-- Toggling one binary digit: what `^` with a power of two does to a number that it divides.
use Prim.Native.Nat.{
  ℕ, zero, suc, ◌+◌, ◌*◌, ◌/◌, ◌%◌, ◌^◌, ◌≤◌, ◌<◌, bit_xor, bit_xor-bitwise, differ, digits,
}
use mathlib.Core.Path.{◌≡◌, refl, sym, ap, ap₂, ◌∙◌}
use native.Mathlib.Nat.{two-pow-succ, one-le-pow}
use native.Mathlib.Omega.{arith}

abbrev odd_digits : ℕ → ℕ → ℕ → ℕ
odd_digits rounds x y = digits (λ y'. y') differ rounds x y

-- The rounds past the length of the first number change nothing.
spare_rounds :
    (x y : ℕ) {big small : ℕ} → x ≤ small → small ≤ big → odd_digits big x y ≡ odd_digits small x y
spare_rounds zero y {big = zero} {small = zero} p q = refl
spare_rounds zero y {big = suc big} {small = zero} p q = refl
spare_rounds zero y {big = zero} {small = suc small} p q = refl
spare_rounds zero y {big = suc big} {small = suc small} p q = refl
spare_rounds (suc x) y {big = zero} {small = small} p q = absurd (omega arith)
spare_rounds (suc x) y {big = suc big} {small = zero} p q = absurd (omega arith)
spare_rounds (suc x) y {big = suc big} {small = suc small} p q =
    let rest =
      spare_rounds (suc x / 2) (y / 2) {big = big} {small = small} (omega arith) (omega arith) in
    ap (λ n. n * 2 + differ (suc x % 2) (y % 2)) rest

bit_xor-zero : (y : ℕ) → bit_xor 0 y ≡ y
bit_xor-zero y = bit_xor-bitwise 0 y

bit_xor-half :
    (x y : ℕ) → 0 < x → bit_xor x y ≡ bit_xor (x / 2) (y / 2) * 2 + differ (x % 2) (y % 2)
bit_xor-half zero y pos = absurd (omega arith)
bit_xor-half (suc x) y pos =
    bit_xor-bitwise (suc x) y
    ∙ ap (λ n. n * 2 + differ (suc x % 2) (y % 2))
        (spare_rounds (suc x / 2) (y / 2) {big = x} {small = suc x / 2} (omega arith) (omega arith)
          ∙ sym (bit_xor-bitwise (suc x / 2) (y / 2)))

bit_xor-scaled : (i w : ℕ) → bit_xor (2 ^ i) (2 ^ i * w) ≡ 2 ^ i * bit_xor 1 w
bit_xor-scaled zero w = ap (bit_xor 1) {x = 2 ^ 0 * w} {y = w} (omega arith) ∙ omega arith
bit_xor-scaled (suc i) w =
    bit_xor-half (2 ^ suc i) (2 ^ suc i * w) positive
    ∙ ap₂ (λ m n. m * 2 + n) (ap₂ bit_xor half_left half_right ∙ bit_xor-scaled i w)
        (ap₂ differ even_left even_right)
    ∙ omega (arith, ap (λ (t : ℕ). t * bit_xor 1 w) double)
  where
    double : 2 ^ suc i ≡ 2 ^ i + 2 ^ i
    double = two-pow-succ i

    positive : 0 < 2 ^ suc i
    positive = one-le-pow (suc i) 2 (omega arith)

    spread : 2 ^ suc i * w ≡ 2 ^ i * w + 2 ^ i * w
    spread = ap (λ (t : ℕ). t * w) double ∙ omega arith

    half_left : 2 ^ suc i / 2 ≡ 2 ^ i
    half_left = omega (arith, double)

    half_right : 2 ^ suc i * w / 2 ≡ 2 ^ i * w
    half_right = omega (arith, spread)

    even_left : 2 ^ suc i % 2 ≡ 0
    even_left = omega (arith, double)

    even_right : 2 ^ suc i * w % 2 ≡ 0
    even_right = omega (arith, spread)

bit_xor-one : (w : ℕ) → bit_xor 1 w ≡ w / 2 * 2 + differ 1 (w % 2)
bit_xor-one w =
    bit_xor-half 1 w (omega arith)
    ∙ ap (λ n. n * 2 + differ 1 (w % 2)) {x = bit_xor (1 / 2) (w / 2)} {y = w / 2}
        (bit_xor-zero (w / 2))

-- A multiple of `2 ^ i` moves up by `2 ^ i` if its next digit is 0, and down if that is 1.
pub bit_xor_up : (i q : ℕ) → bit_xor (2 ^ i) (2 ^ i * (q + q)) ≡ 2 ^ i * (q + q) + 2 ^ i
bit_xor_up i q =
    bit_xor-scaled i (q + q)
    ∙ ap (λ (t : ℕ). 2 ^ i * t) {x = bit_xor 1 (q + q)} {y = q + q + 1}
        (bit_xor-one (q + q) ∙ ap₂ (λ m n. m * 2 + n) half (ap (differ 1) even) ∙ omega arith)
    ∙ omega arith
  where
    half : (q + q) / 2 ≡ q
    half = omega arith

    even : (q + q) % 2 ≡ 0
    even = omega arith

pub bit_xor_down : (i q : ℕ) → bit_xor (2 ^ i) (2 ^ i * (q + q + 1)) ≡ 2 ^ i * (q + q)
bit_xor_down i q =
    bit_xor-scaled i (q + q + 1)
    ∙ ap (λ (t : ℕ). 2 ^ i * t) {x = bit_xor 1 (q + q + 1)} {y = q + q}
        (bit_xor-one (q + q + 1) ∙ ap₂ (λ m n. m * 2 + n) half (ap (differ 1) odd) ∙ omega arith)
  where
    half : (q + q + 1) / 2 ≡ q
    half = omega arith

    odd : (q + q + 1) % 2 ≡ 1
    odd = omega arith
