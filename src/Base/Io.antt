-- ===== src/Base/Io.antt =====
-- Driver code: a computation over a state that ends with a value or stops with an error code.
-- The state reached is kept in both cases.
use Prim.Native.Nat.{ℕ}

-- `stop e` is the return of -e.
pub data Res (A : Type 0) : Type 0 where
  val : A → Res A
  stop : ℕ → Res A

abbrev pub Io : Type 0 → Type 0 → Type 0
Io S A = S → Res A × S

abbrev pub pure : {S A : Type 0} → A → Io S A
pure a s = (val a, s)

abbrev pub fail : {S A : Type 0} → ℕ → Io S A
fail e s = (stop e, s)

module _ {S A B : Type 0} where
  abbrev pub and_then : Res A × S → (A → Io S B) → Res B × S
  and_then r k = elim r.0 [ val a ↦ k a r.1 | stop e ↦ (stop e, r.1) ]

  infixl 5 ◌>>=◌
  abbrev pub ◌>>=◌ : Io S A → (A → Io S B) → Io S B
  m >>= k = λ s. and_then (m s) k

-- A run that ends with a value, of which `P` holds together with the final state.
pub data Yields {S A : Type 0} (P : A → S → Type 0) : Res A × S → Type 0 where
  yields : {a : A} {s : S} → P a s → Yields P (val a, s)

module _ {S A : Type 0} {P : A → S → Type 0} where
  pub Yields-bind :
      {B : Type 0} {Q : B → S → Type 0} {r : Res A × S} {k : A → Io S B}
      → Yields P r
      → ((a : A) (s : S) → P a s → Yields Q (k a s))
      → Yields Q (and_then r k)
  Yields-bind (yields p) next = next _ _ p

  pub Yields-map :
      {Q : A → S → Type 0} {r : Res A × S}
      → Yields P r
      → ((a : A) (s : S) → P a s → Q a s)
      → Yields Q r
  Yields-map (yields p) weaken = yields (weaken _ _ p)
