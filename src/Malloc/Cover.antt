-- ===== src/Malloc/Cover.antt =====
-- libc/malloc.c: the bytes that blocks cover, and how a block and its buddy make a larger one.
use native.Mathlib.Nat.{two-pow-succ}
use i80k.Base.{
  bit_xor, ap, ℕ, zero, suc, ◌+◌, ◌*◌, ◌/◌, ◌%◌, ◌^◌, ◌≤◌, ◌<◌, min, ◌≡◌, inl, inr, refl, sym, ◌∙◌,
  subst, arith, ◌&&◌, Option, none, some, List, [], ◌∷◌, ◌==◌, leb, ltb, if◌then◌else◌, Bool-split,
  eq_of_==, ==_of_ne,
}
use i80k.Base.Xor.{bit_xor_up, bit_xor_down}
use i80k.Malloc.{Table, put, getbuddy, fb_remove, keep_block}

-- 1 for the bytes of the block, 0 for the others.
abbrev pub cover : ℕ → ℕ → ℕ → ℕ
cover i z x = if leb z x && ltb x (z + 2 ^ i) then 1 else 0

abbrev pub cover_list : ℕ → List ℕ → ℕ → ℕ
cover_list i [] x = 0
cover_list i (z ∷ zs) x = cover i z x + cover_list i zs x

-- The free blocks of the indices below `n`.
abbrev pub cover_table : ℕ → Table → ℕ → ℕ
cover_table zero table x = 0
cover_table (suc n) table x = cover_list n (table n) x + cover_table n table x

abbrev pub Aligned : ℕ → ℕ → Type 0
Aligned i z = (q : ℕ) × (z ≡ 2 ^ i * q)

-- The blocks of a list are aligned to their size.
pub data AllAligned (i : ℕ) : List ℕ → Type 0 where
  nothing : AllAligned i []
  more : {z : ℕ} {zs : List ℕ} → Aligned i z → AllAligned i zs → AllAligned i (z ∷ zs)

cover_table_above :
    (n j : ℕ) (l : List ℕ) (table : Table) (x : ℕ)
    → n ≤ j
    → cover_table n (put j l table) x ≡ cover_table n table x
cover_table_above zero j l table x h = refl
cover_table_above (suc n) j l table x h =
    let rest = cover_table_above n j l table x (omega (arith, h)) in
    rw (==_of_ne n j (λ e. absurd (omega (arith, e, h)))) (omega (arith, rest))

-- Another list at an index changes the cover by the difference of the lists.
pub cover_table-put :
    (n j : ℕ) (l : List ℕ) (table : Table) (x : ℕ)
    → j < n
    → cover_table n (put j l table) x + cover_list j (table j) x
      ≡ cover_table n table x + cover_list j l x
cover_table-put zero j l table x h = absurd (omega arith)
cover_table-put (suc n) j l table x h = elim (Bool-split (n == j)) [
  | inl e ↦
      let same = eq_of_== n j e in
      let above = cover_table_above n j l table x (omega (arith, same)) in
      let moved : cover_list n (table n) x ≡ cover_list j (table j) x =
        ap (λ k. cover_list k (table k) x) same in
      let now : cover_list n l x ≡ cover_list j l x = ap (λ k. cover_list k l x) same in
      rw e (omega (arith, above, moved, now))
  | inr e ↦
      let less : j < n = ground arith in
      let rest = cover_table-put n j l table x less in rw e (omega (arith, rest))
]

pub cover_joined : (i z x : ℕ) → cover i z x + cover i (z + 2 ^ i) x ≡ cover (suc i) z x
cover_joined i z x = let double = two-pow-succ i in ground arith

-- Two blocks that make the larger one at `m`.
abbrev pub Makes : ℕ → ℕ → ℕ → ℕ → Type 0
Makes i z b m = Aligned (suc i) m × ((x : ℕ) → cover i z x + cover i b x ≡ cover (suc i) m x)

Makes-up : (i z q : ℕ) → z ≡ 2 ^ i * (q + q) → Makes i z (getbuddy i z) (min z (getbuddy i z))
unfolding getbuddy
Makes-up i z q e =
    let b : getbuddy i z ≡ z + 2 ^ i =
      ap (bit_xor (2 ^ i)) e ∙ bit_xor_up i q ∙ ap (λ n. n + 2 ^ i) (sym e) in
    subst (λ b. Makes i z b (min z b)) (sym b)
      (subst (Makes i z (z + 2 ^ i)) {x = z} {y = min z (z + 2 ^ i)} (omega arith)
        ((q, omega (arith, e, ap (λ (t : ℕ). t * q) (two-pow-succ i))), λ x. cover_joined i z x))

Makes-down : (i z q : ℕ) → z ≡ 2 ^ i * (q + q + 1) → Makes i z (getbuddy i z) (min z (getbuddy i z))
unfolding getbuddy
Makes-down i z q e =
    let c = 2 ^ i * (q + q) in
    let b : getbuddy i z ≡ c = ap (bit_xor (2 ^ i)) e ∙ bit_xor_down i q in
    let above : z ≡ c + 2 ^ i = omega (arith, e) in
    subst (λ b. Makes i z b (min z b)) (sym b)
      (subst (Makes i z c) {x = c} {y = min z c} (omega (arith, above)) (
        (q, omega (arith, ap (λ (t : ℕ). t * q) (two-pow-succ i))),
        λ x.
            let joined = cover_joined i c x in
            let same = ap (λ n. cover i n x) above in omega (arith, joined, same),
      ))

-- A block and its buddy are the larger block that starts at the first of them.
pub cover-getbuddy : (i z : ℕ) → Aligned i z → Makes i z (getbuddy i z) (min z (getbuddy i z))
cover-getbuddy i z (q, e) = elim (Bool-split (q % 2 == 0)) [
  | inl even ↦
      let p : q ≡ q / 2 + q / 2 = ground arith in Makes-up i z (q / 2) (e ∙ ap (λ n. 2 ^ i * n) p)
  | inr odd ↦
      let p : q ≡ q / 2 + q / 2 + 1 = ground arith in
      Makes-down i z (q / 2) (e ∙ ap (λ n. 2 ^ i * n) p)
]

pub getbuddy_up : (i z : ℕ) → Aligned (suc i) z → getbuddy i z ≡ z + 2 ^ i
unfolding getbuddy
getbuddy_up i z (q, e) =
    let double = two-pow-succ i in
    let spread : z ≡ 2 ^ i * (q + q) = omega (arith, e, ap (λ (t : ℕ). t * q) double) in
    ap (bit_xor (2 ^ i)) spread ∙ bit_xor_up i q ∙ ap (λ n. n + 2 ^ i) (sym spread)

-- What a removal leaves of a list.
abbrev pub Removed : ℕ → ℕ → List ℕ → List ℕ → Type 0
Removed i b zs rest =
    AllAligned i rest × ((x : ℕ) → cover_list i zs x ≡ cover_list i rest x + cover i b x)

Removed-later :
    (i b z : ℕ) (zs rest : List ℕ) (o : Option (List ℕ))
    → Aligned i z
    → ((rest' : List ℕ) → o ≡ some rest' → Removed i b zs rest')
    → keep_block z o ≡ some rest
    → Removed i b (z ∷ zs) rest
Removed-later i b z zs rest none a ind e = absurd cc
Removed-later i b z zs rest (some rest') a ind e =
    let (all, counts) = ind rest' refl in
    let same : z ∷ rest' ≡ rest = cc in
    subst (Removed i b (z ∷ zs)) same (more a all, λ x. let n = counts x in omega (arith, n))

Removed-first :
    (i b z : ℕ) (zs rest : List ℕ)
    → AllAligned i zs
    → z ≡ b
    → some zs ≡ some rest
    → Removed i b (z ∷ zs) rest
Removed-first i b z zs rest all same e =
    let left : zs ≡ rest = cc in
    subst (Removed i b (z ∷ zs)) left (all, λ x. omega (arith, ap (λ n. cover i n x) same))

pub fb_remove-cover :
    (i b : ℕ) (zs rest : List ℕ)
    → fb_remove b zs ≡ some rest
    → AllAligned i zs
    → Removed i b zs rest
unfolding fb_remove
fb_remove-cover i b [] rest e all = absurd cc
fb_remove-cover i b (z ∷ zs) rest e (more a all) = elim (Bool-split (z == b)) [
  | inl t ↦ Removed-first i b z zs rest all (eq_of_== z b t) (rw t at e)
  | inr t ↦
      Removed-later i b z zs rest (fb_remove b zs) a
        (λ rest' e'. fb_remove-cover i b zs rest' e' all) (rw t at e)
]
