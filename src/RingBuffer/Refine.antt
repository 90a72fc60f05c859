-- ===== src/RingBuffer/Refine.antt =====
-- A valid ring behaves as the queue of the bytes that it holds.
use i80k.Base.{
  ℕ, zero, suc, ◌+◌, ◌-◌, ◌%◌, ◌^◌, ◌≤◌, ◌<◌, ◌≡◌, refl, ap, ap₂, sym, ◌∙◌, arith, List, [], ◌∷◌,
  ◌++◌, length, get_or, get_or-set_self, get_or-set_ne, length-set, none, some, get_elem?,
}
use native.Mathlib.Nat.{mod-add-mod, mod-lt}
use i80k.RingBuffer.{RingBuffer, num_items, next_index, place}
use i80k.RingBuffer.Index.{
  IsValid, mod-ne, one-lt-size, num_items-lt, head_pos, num_items_of_pos, next_index-mod,
}

-- `f i`, `f (i + 1)`, and so on: `c` of them.
abbrev pub run : (ℕ → ℕ) → ℕ → ℕ → List ℕ
run f i zero = []
run f i (suc c) = f i ∷ run f (i + 1) c

-- The byte at a position that goes round the ring.
abbrev pub cell : RingBuffer → ℕ → ℕ
cell r i = get_or r.buffer (i % (r.buffer_mask + 1)) 0

-- The bytes from the tail to the head.
abbrev pub contents : RingBuffer → List ℕ
contents r = run (cell r) r.tail_index (num_items r)

pub length-run : (f : ℕ → ℕ) (i c : ℕ) → length (run f i c) ≡ c
length-run f i zero = refl
length-run f i (suc c) = ap suc (length-run f (i + 1) c)

pub run_past : (f : ℕ → ℕ) (i c k : ℕ) → c ≤ k → get_elem? (run f i c) k ≡ none
run_past f i zero k h = refl
run_past f i (suc c) zero h = absurd (omega arith)
run_past f i (suc c) (suc k) h = run_past f (i + 1) c k (omega arith)

pub run_at : (f : ℕ → ℕ) (i c k : ℕ) → k < c → get_elem? (run f i c) k ≡ some (f (i + k))
run_at f i zero k h = absurd (omega arith)
run_at f i (suc c) zero h = ap (λ n. some (f n)) {x = i} {y = i + 0} (omega arith)
run_at f i (suc c) (suc k) h =
    run_at f (i + 1) c k (omega arith)
    ∙ ap (λ n. some (f n)) {x = i + 1 + k} {y = i + suc k} (omega arith)

run_same :
    (f g : ℕ → ℕ) (i k c : ℕ) → ((d : ℕ) → d < c → f (i + d) ≡ g (k + d)) → run f i c ≡ run g k c
run_same f g i k zero h = refl
run_same f g i k (suc c) h =
    ap₂ ◌∷◌
      (ap f {x = i} {y = i + 0} (omega arith)
        ∙ h 0 (omega arith)
        ∙ ap g {x = k + 0} {y = k} (omega arith))
      (run_same f g (i + 1) (k + 1) c λ d lt.
        ap f {x = i + 1 + d} {y = i + suc d} (omega arith)
        ∙ h (suc d) (omega arith)
        ∙ ap g {x = k + suc d} {y = k + 1 + d} (omega arith))

run_snoc : (f : ℕ → ℕ) (i c : ℕ) → run f i (suc c) ≡ run f i c ++ (f (i + c) ∷ [])
run_snoc f i zero = ap (λ n. f n ∷ []) {x = i} {y = i + 0} (omega arith)
run_snoc f i (suc c) =
    ap (λ r. f i ∷ r)
      (run_snoc f (i + 1) c
        ∙ ap (λ n. run f (i + 1) c ++ (f n ∷ [])) {x = i + 1 + c} {y = i + suc c} (omega arith))

module _ {bits : ℕ} {r : RingBuffer} (v : IsValid bits r) where
  -- One place further round is one place further.
  cell_next : (i d : ℕ) → i < 2 ^ bits → cell r (next_index r i + d) ≡ cell r (i + 1 + d)
  cell_next i d h =
      ap (λ n. get_or r.buffer n 0) {x = (next_index r i + d) % (r.buffer_mask + 1)}
        {y = (i + 1 + d) % (r.buffer_mask + 1)}
        (rw (v.mask, next_index-mod v i h) (mod-add-mod (i + 1) (2 ^ bits) d))

  pub place-IsValid : (x : ℕ) → IsValid bits (place r x)
  unfolding place
  place-IsValid x = record {
    some_room = v.some_room;
    small = v.small;
    mask = v.mask;
    storage = length-set r.buffer r.head_index x ∙ v.storage;
    tail_in = v.tail_in;
    head_in = omega (
      arith,
      next_index-mod v r.head_index v.head_in,
      mod-lt (r.head_index + 1) {m = 2 ^ bits} (omega (arith, one-lt-size v)),
    );
  }

  num_items-place :
      (x : ℕ) → suc (num_items r) < 2 ^ bits → num_items (place r x) ≡ suc (num_items r)
  unfolding place
  num_items-place x room = num_items_of_pos (place-IsValid x) (suc (num_items r)) room (
      next_index-mod v r.head_index v.head_in
      ∙ ap (λ n. (n + 1) % 2 ^ bits) (head_pos v)
      ∙ mod-add-mod (r.tail_index + num_items r) (2 ^ bits) 1
      ∙ ap (λ n. n % 2 ^ bits) {x = r.tail_index + num_items r + 1}
          {y = r.tail_index + suc (num_items r)} (omega arith))

  place_here : (x : ℕ) → cell (place r x) (r.tail_index + num_items r) ≡ x
  unfolding place
  place_here x =
      rw (v.mask, ← head_pos v)
        (get_or-set_self r.buffer r.head_index x 0 (omega (arith, v.storage)))

  place_elsewhere :
      (x d : ℕ) → d < num_items r → cell (place r x) (r.tail_index + d) ≡ cell r (r.tail_index + d)
  unfolding place
  place_elsewhere x d lt =
      get_or-set_ne r.buffer r.head_index ((r.tail_index + d) % (r.buffer_mask + 1)) x 0 λ e.
        mod-ne (r.tail_index + d) (num_items r - d) (2 ^ bits) (omega arith)
          (omega (arith, num_items-lt v))
          (ap (λ n. (r.tail_index + d) % n) (sym v.mask)
            ∙ sym e
            ∙ head_pos v
            ∙ ap (λ n. n % 2 ^ bits) {x = r.tail_index + num_items r}
                {y = r.tail_index + d + (num_items r - d)} (omega arith))

  pub contents-place :
      (x : ℕ) → suc (num_items r) < 2 ^ bits → contents (place r x) ≡ contents r ++ (x ∷ [])
  unfolding place
  contents-place x room =
      ap (run (cell (place r x)) r.tail_index) (num_items-place x room)
      ∙ run_snoc (cell (place r x)) r.tail_index (num_items r)
      ∙ ap₂ (λ xs y. xs ++ (y ∷ []))
          (run_same (cell (place r x)) (cell r) r.tail_index r.tail_index (num_items r)
            (place_elsewhere x))
          (place_here x)

-- The ring with its oldest byte given up.
abbrev pub advance : RingBuffer → RingBuffer
advance r = record r { tail_index = next_index r r.tail_index }

module _ {bits : ℕ} {r : RingBuffer} (v : IsValid bits r) (some_item : 0 < num_items r) where
  pub advance-IsValid : IsValid bits (advance r)
  advance-IsValid = record {
    some_room = v.some_room;
    small = v.small;
    mask = v.mask;
    storage = v.storage;
    tail_in = omega (
      arith,
      next_index-mod v r.tail_index v.tail_in,
      mod-lt (r.tail_index + 1) {m = 2 ^ bits} (omega (arith, one-lt-size v)),
    );
    head_in = v.head_in;
  }

  pub num_items-advance : num_items (advance r) ≡ num_items r - 1
  num_items-advance =
      num_items_of_pos advance-IsValid (num_items r - 1) (omega (arith, num_items-lt v)) (
        head_pos v
        ∙ ap (λ n. n % 2 ^ bits) {x = r.tail_index + num_items r}
            {y = r.tail_index + 1 + (num_items r - 1)} (omega arith)
        ∙ sym (mod-add-mod (r.tail_index + 1) (2 ^ bits) (num_items r - 1))
        ∙ ap (λ n. (n + (num_items r - 1)) % 2 ^ bits)
            (sym (next_index-mod v r.tail_index v.tail_in)))

  pub contents-advance : contents r ≡ cell r r.tail_index ∷ contents (advance r)
  contents-advance =
      ap (run (cell r) r.tail_index) {x = num_items r} {y = suc (num_items r - 1)} (omega arith)
      ∙ ap (λ xs. cell r r.tail_index ∷ xs)
          (run_same (cell r) (cell r) (r.tail_index + 1) (next_index r r.tail_index)
              (num_items r - 1) (λ d lt. sym (cell_next v r.tail_index d v.tail_in))
            ∙ ap (run (cell r) (next_index r r.tail_index)) (sym num_items-advance))
