-- ===== src/Base/Word.antt =====
-- Machine words of the target (16-bit `int` and `size_t`, 32-bit `long`), and masks.
use Prim.Native.Nat.{
  ℕ, zero, suc, ◌+◌, ◌-◌, ◌*◌, ◌/◌, ◌%◌, ◌^◌, ◌≤◌, ◌<◌, min, ◌∣◌, bit_and, bit_and-bitwise, digits,
}
use mathlib.Core.Path.{◌≡◌, refl, ap, sym, subst, ◌∙◌}
use mathlib.Core.Bool.{Bool}
use native.Mathlib.Nat.{
  two-pow-succ, one-le-pow, mod-add-div', mod-lt, mod-eq_of_lt, add-mul-mod_self_right,
  mod-mod_of_dvd, dvd-mul_left, mul-le-mul_left,
}
use native.Mathlib.Omega.{arith}
use i80k.Base.Tests.{ltb, if◌then◌else◌}

abbrev pub u8 : ℕ → ℕ
u8 n = n % 2 ^ 8

abbrev pub u16 : ℕ → ℕ
u16 n = n % 2 ^ 16

abbrev pub u32 : ℕ → ℕ
u32 n = n % 2 ^ 32

-- `a - b` on 16-bit and 32-bit unsigned words.
abbrev pub sub16 : ℕ → ℕ → ℕ
sub16 a b = (a + 2 ^ 16 - b) % 2 ^ 16

abbrev pub sub32 : ℕ → ℕ → ℕ
sub32 a b = (a + 2 ^ 32 - b) % 2 ^ 32

-- `a < b` on the 32-bit patterns of two signed numbers.
abbrev pub slt32 : ℕ → ℕ → Bool
slt32 a b = ltb (u32 (a + 2 ^ 31)) (u32 (b + 2 ^ 31))

-- A C `int` that a function returns: `ok n` is n, and `err e` is -e, with e > 0.
pub data Ret : Type 0 where
  ok : ℕ → Ret
  err : ℕ → Ret

-- The conversion of a number to a 16-bit `int`.
abbrev pub to_int : ℕ → Ret
to_int n = if ltb (u16 n) (2 ^ 15) then ok (u16 n) else err (2 ^ 16 - u16 n)

pub to_int_small : (n : ℕ) → n < 2 ^ 15 → to_int n ≡ ok n
to_int_small n h = ground arith

-- `&` a digit at a time, from the recursion that the native operation stands for: any fuel that is
-- at least the first number will do.
abbrev lesser_digits : ℕ → ℕ → ℕ → ℕ
lesser_digits rounds x y = digits (λ y'. zero) min rounds x y

lesser_digits_enough :
    (x y : ℕ) {big small : ℕ}
    → x ≤ small
    → small ≤ big
    → lesser_digits big x y ≡ lesser_digits small x y
lesser_digits_enough zero y {big = zero} {small = zero} p q = refl
lesser_digits_enough zero y {big = suc big} {small = zero} p q = refl
lesser_digits_enough zero y {big = zero} {small = suc small} p q = refl
lesser_digits_enough zero y {big = suc big} {small = suc small} p q = refl
lesser_digits_enough (suc x) y {big = zero} {small = small} p q = absurd (omega arith)
lesser_digits_enough (suc x) y {big = suc big} {small = zero} p q = absurd (omega arith)
lesser_digits_enough (suc x) y {big = suc big} {small = suc small} p q =
    ap (λ rest. rest * 2 + min (suc x % 2) (y % 2))
      (lesser_digits_enough (suc x / 2) (y / 2) {big = big} {small = small} (omega arith)
        (omega arith))

pub bit_and-half : (x y : ℕ) → bit_and x y ≡ bit_and (x / 2) (y / 2) * 2 + min (x % 2) (y % 2)
bit_and-half zero y =
    let nothing = λ (z : ℕ). bit_and-bitwise 0 z in omega (arith, nothing y, nothing (y / 2))
bit_and-half (suc x) y =
    let step = bit_and-bitwise (suc x) y in
    let rest = bit_and-bitwise (suc x / 2) (y / 2) in
    let enough =
      lesser_digits_enough (suc x / 2) (y / 2) {big = x} {small = suc x / 2} (omega arith)
        (omega arith) in
    omega (arith, step, rest, enough)

-- No digit survives a mask of no ones.
bit_and-nothing : (bound x : ℕ) → x < bound → bit_and x 0 ≡ 0
bit_and-nothing zero x p = absurd (omega arith)
bit_and-nothing (suc bound) zero p = bit_and-bitwise 0 0
bit_and-nothing (suc bound) (suc x) p =
    let rest = bit_and-nothing bound (suc x / 2) (omega arith) in
    omega (arith, rest, bit_and-half (suc x) 0)

pub bit_and-zero : (x : ℕ) → bit_and x 0 ≡ 0
bit_and-zero x = bit_and-nothing (x + 1) x (omega arith)

half_mod : (k a : ℕ) → a % 2 ^ suc k ≡ a / 2 % 2 ^ k * 2 + a % 2
half_mod k a =
    ap (λ n. n % 2 ^ suc k) {x = a} {y = rest + a / 2 / 2 ^ k * 2 ^ suc k} whole
    ∙ add-mul-mod_self_right rest (a / 2 / 2 ^ k) (2 ^ suc k)
    ∙ mod-eq_of_lt {n = rest} {m = 2 ^ suc k} small
  where
    rest : ℕ
    rest = a / 2 % 2 ^ k * 2 + a % 2

    double : 2 ^ suc k ≡ 2 ^ k + 2 ^ k
    double = two-pow-succ k

    whole : a ≡ rest + a / 2 / 2 ^ k * 2 ^ suc k
    whole =
        omega
          (arith, mod-add-div' (a / 2) (2 ^ k), double, ap (λ (t : ℕ). a / 2 / 2 ^ k * t) double)

    small : rest < 2 ^ suc k
    small = omega (arith, mod-lt (a / 2) {m = 2 ^ k} (one-le-pow k 2 (omega arith)), double)

-- A mask of `k` ones is the remainder by `2 ^ k`.
pub bit_and_ones : (k a : ℕ) → bit_and a (2 ^ k - 1) ≡ a % 2 ^ k
bit_and_ones zero a = bit_and-zero a ∙ omega arith
bit_and_ones (suc k) a = omega (
  arith,
  half_mod k a,
  two-pow-succ k,
  one-le-pow k 2 (omega arith),
  bit_and-half a (2 ^ suc k - 1),
  bit_and_ones k (a / 2),
  ap (bit_and (a / 2)) {x = (2 ^ suc k - 1) / 2} {y = 2 ^ k - 1}
      (omega (arith, two-pow-succ k, one-le-pow k 2 (omega arith))),
)

pub two_pow_add : (j k : ℕ) → 2 ^ (j + k) ≡ 2 ^ j * 2 ^ k
two_pow_add zero k = ap (λ (n : ℕ). 2 ^ n) {x = 0 + k} {y = k} (omega arith) ∙ omega arith
two_pow_add (suc j) k =
    ap (λ (n : ℕ). 2 ^ n) {x = suc j + k} {y = suc (j + k)} (omega arith)
    ∙ omega (
      arith,
      two-pow-succ (j + k),
      two_pow_add j k,
      ap (λ (t : ℕ). t * 2 ^ k) {x = 2 ^ suc j} {y = 2 ^ j + 2 ^ j} (two-pow-succ j),
    )

-- The difference of two indices below a power of two, reduced modulo it, does not see the
-- wrap-around of the machine word.
pub sub16-mod : (k h t : ℕ) → k ≤ 16 → t < 2 ^ k → sub16 h t % 2 ^ k ≡ (h + 2 ^ k - t) % 2 ^ k
sub16-mod k h t small lt =
    mod-mod_of_dvd P {b = 65536} (h + 65536 - t) divides
    ∙ ap (λ n. n % P) {x = h + 65536 - t} {y = h + P - t + (m - 1) * P} spread
    ∙ add-mul-mod_self_right (h + P - t) (m - 1) P
  where
    P : ℕ
    P = 2 ^ k

    m : ℕ
    m = 2 ^ (16 - k)

    whole : 65536 ≡ m * P
    whole = ap (λ (n : ℕ). 2 ^ n) {x = 16} {y = 16 - k + k} (omega arith) ∙ two_pow_add (16 - k) k

    divides : P ∣ 65536
    divides = subst (λ n. P ∣ n) (sym whole) (dvd-mul_left P m)

    parts : m * P ≡ (m - 1) * P + P
    parts =
        ap (λ (t : ℕ). t * P) {x = m} {y = m - 1 + 1}
          (omega (arith, one-le-pow (16 - k) 2 (omega arith)))
        ∙ omega arith

    spread : h + 65536 - t ≡ h + P - t + (m - 1) * P
    spread = omega (arith, whole, parts)

-- Powers of two grow with the exponent.
pub pow_le : (j d : ℕ) → 2 ^ j ≤ 2 ^ (j + d)
pow_le j d =
    let one : 1 ≤ 2 ^ d = one-le-pow d 2 (omega arith) in
    omega (arith, two_pow_add j d, mul-le-mul_left (2 ^ j) one)

pub pow_le_to : (j k : ℕ) → j ≤ k → 2 ^ j ≤ 2 ^ k
pow_le_to j k h =
    let e : j + (k - j) ≡ k = omega arith in
    omega (arith, pow_le j (k - j), ap (λ (n : ℕ). 2 ^ n) e)
