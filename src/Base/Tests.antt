-- ===== src/Base/Tests.antt =====
-- Boolean tests on the native numbers, the conditional, and case splits that keep their equation.
use Prim.Native.Nat.{ℕ, ◌≤◌, ◌<◌, compare, Ordering}
use mathlib.Core.Path.{◌≡◌, refl}
use mathlib.Core.Logic.{◌≢◌, ◌↔◌, ◌⊎◌, inl, inr}
use mathlib.Core.Bool.{Bool, true, false}
use mathlib.Core.Option.{Option, none, some}
use native.Mathlib.Omega.{arith}

abbrev pub ltb : ℕ → ℕ → Bool
ltb m n = elim (compare m n) [ Ordering.lt ↦ true | _ ↦ false ]

abbrev pub leb : ℕ → ℕ → Bool
leb m n = elim (compare m n) [ Ordering.gt ↦ false | _ ↦ true ]

infix 50 ◌==◌
abbrev pub ◌==◌ : ℕ → ℕ → Bool
m == n = elim (compare m n) [ Ordering.eq ↦ true | _ ↦ false ]

infix 1 if◌then◌else◌
abbrev pub if◌then◌else◌ {ℓ} : {A : Type ℓ} → Bool → A → A → A
if true then s else t = s
if false then s else t = t

pub lt_of_ltb : (m n : ℕ) → ltb m n ≡ true → m < n
lt_of_ltb m n h = ground arith

pub le_of_not_ltb : (m n : ℕ) → ltb m n ≡ false → n ≤ m
le_of_not_ltb m n h = ground arith

pub leb→le : (m n : ℕ) → leb m n ≡ true → m ≤ n
leb→le m n h = ground arith

pub lt_of_not_leb : (m n : ℕ) → leb m n ≡ false → n < m
lt_of_not_leb m n h = ground arith

pub ltb_of_lt : (m n : ℕ) → m < n → ltb m n ≡ true
ltb_of_lt m n h = ground arith

pub ltb_of_le : (m n : ℕ) → n ≤ m → ltb m n ≡ false
ltb_of_le m n h = ground arith

pub eq_of_== : (m n : ℕ) → (m == n) ≡ true → m ≡ n
eq_of_== m n h = ground arith

pub ==_iff : (m n : ℕ) → ((m == n) ≡ true) ↔ (m ≡ n)
==_iff m n = ground arith

pub ==_self : (n : ℕ) → (n == n) ≡ true
==_self n = ground arith

pub ==_of_ne : (m n : ℕ) → m ≢ n → (m == n) ≡ false
==_of_ne m n h = ground arith

-- A computed test with the equation that it gives.
pub Bool-split : (b : Bool) → (b ≡ true) ⊎ (b ≡ false)
Bool-split true = inl refl
Bool-split false = inr refl

pub Option-split {ℓ} : {A : Type ℓ} (o : Option A) → (o ≡ none) ⊎ ((a : A) × (o ≡ some a))
Option-split none = inl refl
Option-split (some a) = inr (a, refl)

pub none≢some {ℓ} : {A : Type ℓ} {a : A} → none ≢ some a
none≢some h = cc

abbrev pub is_none {ℓ} : {A : Type ℓ} → Option A → Bool
is_none none = true
is_none (some a) = false
