-- ===== src/Inode/Bytes.antt =====
-- Ranges of a sequence of bytes as lists.
use i80k.Base.{
  ap, ap₂, ℕ, zero, suc, ◌+◌, ◌<◌, ◌≤◌, ◌≡◌, refl, sym, ◌∙◌, arith, List, [], ◌∷◌, ◌++◌, get_or,
  slice, take, length,
}

-- As many items of a sequence, from one on.
abbrev pub bytes : (ℕ → ℕ) → ℕ → ℕ → List ℕ
bytes c p zero = []
bytes c p (suc n) = c p ∷ bytes c (p + 1) n

pub length-bytes : (c : ℕ → ℕ) (p n : ℕ) → length (bytes c p n) ≡ n
length-bytes c p zero = refl
length-bytes c p (suc n) = ap suc (length-bytes c (p + 1) n)

pub bytes-at : (c : ℕ → ℕ) {p q : ℕ} (n : ℕ) → p ≡ q → bytes c p n ≡ bytes c q n
bytes-at c n e = ap (λ r. bytes c r n) e

pub bytes_join : (c : ℕ → ℕ) (p m n : ℕ) → bytes c p (m + n) ≡ bytes c p m ++ bytes c (p + m) n
bytes_join c p zero n =
    let e : 0 + n ≡ n = omega arith in
    let f : p ≡ p + 0 = omega arith in ap (λ k. bytes c p k) e ∙ bytes-at c n f
bytes_join c p (suc m) n =
    let e : suc m + n ≡ suc (m + n) = omega arith in
    let f : p + 1 + m ≡ p + suc m = omega arith in
    ap (λ k. bytes c p k) e
    ∙ ap (λ r. c p ∷ r)
        (bytes_join c (p + 1) m n ∙ ap (λ r. bytes c (p + 1) m ++ r) (bytes-at c n f))

take-bytes : (c : ℕ → ℕ) (p m n : ℕ) → n ≤ m → take n (bytes c p m) ≡ bytes c p n
take-bytes c p m zero h = refl
take-bytes c p zero (suc n) h = absurd (omega (arith, h))
take-bytes c p (suc m) (suc n) h = ap (λ r. c p ∷ r) (take-bytes c (p + 1) m n (omega (arith, h)))

pub slice-bytes :
    (c : ℕ → ℕ) (p m d n : ℕ) → d + n ≤ m → slice (bytes c p m) d n ≡ bytes c (p + d) n
slice-bytes c p m zero n h =
    let e : p ≡ p + 0 = omega arith in take-bytes c p m n (omega (arith, h)) ∙ bytes-at c n e
slice-bytes c p zero (suc d) n h = absurd (omega (arith, h))
slice-bytes c p (suc m) (suc d) n h =
    let e : p + 1 + d ≡ p + suc d = omega arith in
    slice-bytes c (p + 1) m d n (omega (arith, h)) ∙ bytes-at c n e

-- Sequences that agree on a range.
pub bytes-agree :
    (c d : ℕ → ℕ) (p q n : ℕ)
    → ((j : ℕ) → j < n → c (p + j) ≡ d (q + j))
    → bytes c p n ≡ bytes d q n
bytes-agree c d p q zero same = refl
bytes-agree c d p q (suc n) same =
    let here : c p ≡ d q = ap c (plus_zero p) ∙ same 0 (omega arith) ∙ sym (ap d (plus_zero q)) in
    ap₂ (λ x r. x ∷ r) here
      (bytes-agree c d (p + 1) (q + 1) n
        (λ j h. ap c (shift p j) ∙ same (suc j) (omega (arith, h)) ∙ sym (ap d (shift q j))))
  where
    plus_zero : (k : ℕ) → k ≡ k + 0
    plus_zero k = omega arith

    shift : (k j : ℕ) → k + 1 + j ≡ k + suc j
    shift k j = omega arith

pub list-bytes : (xs : List ℕ) → xs ≡ bytes (λ i. get_or xs i 0) 0 (length xs)
list-bytes [] = refl
list-bytes (x ∷ xs) =
    ap (λ r. x ∷ r)
      (list-bytes xs
        ∙ bytes-agree (λ i. get_or xs i 0) (λ i. get_or (x ∷ xs) i 0) 0 1 (length xs)
            (λ j h.
              ap (λ k. get_or xs k 0) (first j) ∙ sym (ap (λ k. get_or (x ∷ xs) k 0) (second j))))
  where
    first : (j : ℕ) → 0 + j ≡ j
    first j = omega arith

    second : (j : ℕ) → 1 + j ≡ suc j
    second j = omega arith
