-- ===== src/Scheduler/Queue.antt =====
-- kernel/core/scheduler.c: where `task_put` puts a task.
use i80k.Base.{
  subst, ℕ, ◌+◌, ◌≤◌, ◌<◌, ◌≡◌, refl, sym, ap, ◌∙◌, arith, some, List, [], ◌∷◌, ◌++◌, append-nil,
  ◌==◌, if◌then◌else◌, ltb_of_lt, ltb_of_le, Bool-split, inl, inr, lt_of_ltb, le_of_not_ltb,
}
use i80k.Scheduler.{Store, level, lower, tail, put_loop, task_put}

-- How often an address stands on a list.
abbrev pub one : ℕ → ℕ → ℕ
one p q = if q == p then 1 else 0

abbrev pub count : ℕ → List ℕ → ℕ
count q [] = 0
count q (p ∷ ps) = one p q + count q ps

pub data All (P : ℕ → Type 0) : List ℕ → Type 0 where
  nothing : All P []
  more : {x : ℕ} {xs : List ℕ} → P x → All P xs → All P (x ∷ xs)

-- No task stands after one of a lower priority.
pub data Sorted (order : ℕ → ℕ) : List ℕ → Type 0 where
  empty : Sorted order []
  step :
      {x : ℕ} {xs : List ℕ}
      → All (λ y. order y ≤ order x) xs
      → Sorted order xs
      → Sorted order (x ∷ xs)

pub count-append : (q : ℕ) (xs ys : List ℕ) → count q (xs ++ ys) ≡ count q xs + count q ys
count-append q [] ys = omega arith
count-append q (x ∷ xs) ys = omega (arith, count-append q xs ys)

pub All-map : {P Q : ℕ → Type 0} {xs : List ℕ} → ((x : ℕ) → P x → Q x) → All P xs → All Q xs
All-map f nothing = nothing
All-map f (more p ps) = more (f _ p) (All-map f ps)

-- A list with one more item.
All-insert :
    {P : ℕ → Type 0} (xs ys : List ℕ) (p : ℕ) → P p → All P (xs ++ ys) → All P (xs ++ (p ∷ ys))
All-insert [] ys p pp all = more pp all
All-insert (x ∷ xs) ys p pp (more q all) = more q (All-insert xs ys p pp all)

module _ (task : Store) (p : ℕ) where
  abbrev pub order : ℕ → ℕ
  order t = level (task t)

  tail-append : (xs : List ℕ) (y : ℕ) (ys : List ℕ) → tail (xs ++ (y ∷ ys)) ≡ tail (y ∷ ys)
  tail-append [] y ys = refl
  tail-append (x ∷ []) y ys = refl
  tail-append (x ∷ w ∷ xs) y ys = tail-append (w ∷ xs) y ys

  tail-All :
      {P : ℕ → Type 0} (y : ℕ) (ys : List ℕ)
      → All P (y ∷ ys)
      → (t : ℕ) × (tail (y ∷ ys) ≡ some t) × P t
  tail-All y [] (more q all) = (y, refl, q)
  tail-All y (w ∷ ys) (more q all) = tail-All w ys all

  put_loop_insert :
      (hi : List ℕ) (t : ℕ) (lo : List ℕ)
      → All (λ q. level (task p) ≤ level (task q)) hi
      → level (task t) < level (task p)
      → put_loop task (hi ++ (t ∷ lo)) p ≡ some (hi ++ (p ∷ t ∷ lo))
  unfolding put_loop
  put_loop_insert [] t lo all h = rw (ltb_of_lt (level (task t)) (level (task p)) h) refl
  put_loop_insert (x ∷ hi) t lo (more q all) h =
      rw (ltb_of_le (level (task x)) (level (task p)) q, put_loop_insert hi t lo all h) refl

  -- A task goes after all those of its priority and above, and before those below it: the queue is
  -- first in, first out among equals, and the assertion is not reached.
  pub task_put-insert :
      (hi lo : List ℕ)
      → All (λ q. level (task p) ≤ level (task q)) hi
      → All (λ q. level (task q) < level (task p)) lo
      → task_put task (hi ++ lo) p ≡ some (hi ++ (p ∷ lo))
  unfolding task_put put_loop
  task_put-insert [] [] above below = refl
  task_put-insert (x ∷ hi) [] above below =
      let (t, e, high) = tail-All x hi above in
      ap (λ l. task_put task l p) (append-nil (x ∷ hi))
      ∙ rw (e, ltb_of_le (level (task t)) (level (task p)) high) refl
  task_put-insert hi (y ∷ lo) above (more b below) =
      let (t, e, low) = tail-All y lo (more b below) in
      rw (tail-append hi y lo, e, ltb_of_lt (level (task t)) (level (task p)) low)
        (put_loop_insert hi y lo above b)

  -- Every sorted queue has a place for the task.
  pub split-Sorted :
      (list : List ℕ)
      → Sorted order list
      → (hi : List ℕ) × (lo : List ℕ) × (list ≡ hi ++ lo)
        × All (λ q. level (task p) ≤ level (task q)) hi
        × All (λ q. level (task q) < level (task p)) lo
  split-Sorted [] empty = ([], [], refl, nothing, nothing)
  split-Sorted (x ∷ xs) (step top rest) = elim (Bool-split (lower task x p)) [
    | inl e ↦
        let low = lt_of_ltb (order x) (order p) e in
        ([], x ∷ xs, refl, nothing, more low (All-map (λ y h. omega (arith, h, low)) top))
    | inr e ↦
        let (hi, lo, same, above, below) = split-Sorted xs rest in
        (x ∷ hi, lo, ap (λ l. x ∷ l) same, more (le_of_not_ltb (order x) (order p) e) above, below)
  ]

  Sorted-insert :
      (hi lo : List ℕ)
      → All (λ q. level (task p) ≤ level (task q)) hi
      → All (λ q. level (task q) < level (task p)) lo
      → Sorted order (hi ++ lo)
      → Sorted order (hi ++ (p ∷ lo))
  Sorted-insert [] lo above below sorted = step (All-map (λ y h. omega (arith, h)) below) sorted
  Sorted-insert (x ∷ hi) lo (more h above) below (step top rest) =
      step (All-insert hi lo p h top) (Sorted-insert hi lo above below rest)

  count_insert : (q : ℕ) (hi lo : List ℕ) → count q (hi ++ (p ∷ lo)) ≡ count q (hi ++ lo) + one p q
  count_insert q hi lo = omega (arith, count-append q hi (p ∷ lo), count-append q hi lo)

  -- What putting a task on a sorted queue yields: it succeeds, the queue stays sorted, and holds the
  -- task once more and the others as often as before.
  pub task_put-Sorted :
      (list : List ℕ)
      → Sorted (λ q. level (task q)) list
      → (put : List ℕ) × (task_put task list p ≡ some put)
        × Sorted (λ q. level (task q)) put
        × ((q : ℕ) → count q put ≡ count q list + one p q)
  task_put-Sorted list sorted =
      let (hi, lo, same, above, below) = split-Sorted list sorted in
      (
        hi ++ (p ∷ lo),
        ap (λ l. task_put task l p) same ∙ task_put-insert hi lo above below,
        Sorted-insert hi lo above below (subst (Sorted order) same sorted),
        λ q. count_insert q hi lo ∙ ap (λ l. count q l + one p q) (sym same),
      )
