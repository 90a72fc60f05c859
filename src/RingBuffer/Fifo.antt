-- ===== src/RingBuffer/Fifo.antt =====
-- What the ring stands for: a queue of at most `cap` bytes, oldest first, that drops its oldest
-- byte to take a new one when it is full.
use i80k.Base.{
  ℕ, suc, ◌-◌, ◌≤◌, ◌<◌, ◌≡◌, ap, ◌∙◌, arith, List, [], ◌∷◌, ◌++◌, ◌==◌, if◌then◌else◌, Option,
  none, some, length, drop, append-nil, Bool-split, inl, inr, eq_of_==, ==_of_ne, length-append,
  length-drop, append_assoc,
}

unfoldable pub push : ℕ → List ℕ → ℕ → List ℕ
push cap q x = if length q == cap then drop 1 q ++ (x ∷ []) else q ++ (x ∷ [])

unfoldable pub push_all : ℕ → List ℕ → List ℕ → List ℕ
unfolding push
push_all cap q [] = q
push_all cap q (x ∷ xs) = push_all cap (push cap q x) xs

unfoldable pub pop : List ℕ → Option ℕ × List ℕ
pop [] = (none, [])
pop (x ∷ q) = (some x, q)

-- The last `n` items.
abbrev pub latest : ℕ → List ℕ → List ℕ
latest n xs = drop (length xs - n) xs

pub length-push :
    (cap : ℕ) (q : List ℕ) (x : ℕ) → 0 < cap → length q ≤ cap → length (push cap q x) ≤ cap
unfolding push
length-push cap q x h k =
    ground (arith, length-append q (x ∷ []), length-append (drop 1 q) (x ∷ []), length-drop 1 q)

latest-push :
    (cap : ℕ) (q : List ℕ) (x : ℕ) (xs : List ℕ)
    → 0 < cap
    → length q ≤ cap
    → latest cap (push cap q x ++ xs) ≡ latest cap (q ++ (x ∷ xs))
unfolding push
latest-push cap [] x xs h k = rw (==_of_ne 0 cap (omega arith))
latest-push cap (y ∷ q) x xs h k = elim (Bool-split (suc (length q) == cap)) [
  | inl full ↦
      rw (full, append_assoc q (x ∷ []) xs)
        (ap (λ n. drop n (y ∷ (q ++ x ∷ xs))) {x = suc (length (q ++ x ∷ xs) - cap)}
          {y = suc (length (q ++ x ∷ xs)) - cap}
          (omega (arith, eq_of_== (suc (length q)) cap full, length-append q (x ∷ xs))))
  | inr more ↦ rw (more, append_assoc q (x ∷ []) xs)
]

-- Pushing a run of bytes keeps the last `cap` of all.
pub push_all-latest :
    (cap : ℕ) (q xs : List ℕ) → 0 < cap → length q ≤ cap → push_all cap q xs ≡ latest cap (q ++ xs)
unfolding push_all
push_all-latest cap q [] h k =
    rw append-nil (ap (λ n. drop n q) {x = 0} {y = length q - cap} (omega arith))
push_all-latest cap q (x ∷ xs) h k =
    push_all-latest cap (push cap q x) xs h (length-push cap q x h k) ∙ latest-push cap q x xs h k
