-- ===== src/RingBuffer/Index.antt =====
-- The index arithmetic of the ring: masks are remainders, and nothing wraps.
use i80k.Base.{
  ℕ, ◌+◌, ◌-◌, ◌%◌, ◌^◌, ◌≤◌, ◌<◌, ◌≡◌, ◌≢◌, ◌↔◌, arith, bit_and, length, ap, ◌∙◌, true, ◌==◌,
  eq_of_==,
}
use i80k.Base.Word.{u16, sub16, bit_and_ones, sub16-mod}
use native.Mathlib.Nat.{pow-le-pow_right, mod-add-mod, mod-eq_of_lt, mod-eq-sub-mod}
use native.Mathlib.Decide.{dec_lt, dec_le}
use i80k.RingBuffer.{RingBuffer, num_items, is_full, is_empty, next_index}

-- A ring of `2 ^ bits` cells: the documented demand that the size is a power of two, which
-- `size_t` bounds.
pub record IsValid (bits : ℕ) (r : RingBuffer) : Type 0 where
  pub some_room : 0 < bits
  pub small : bits < 16
  pub mask : r.buffer_mask + 1 ≡ 2 ^ bits
  pub storage : length r.buffer ≡ 2 ^ bits
  pub tail_in : r.tail_index < 2 ^ bits
  pub head_in : r.head_index < 2 ^ bits

-- Two positions less than `n` apart have different remainders.
pub mod-ne : (i d n : ℕ) → 0 < d → d < n → i % n ≢ (i + d) % n
mod-ne i d n pos lt = elim (dec_lt (i % n + d) n) [
  | yes p ↦ omega (arith, mod-add-mod i n d, mod-eq_of_lt p)
  | no p ↦ omega (
    arith,
    mod-add-mod i n d,
    mod-eq-sub-mod {n = i % n + d} {m = n} (omega arith),
    mod-eq_of_lt {n = i % n + d - n} {m = n} (omega arith),
  )
]

module _ {bits : ℕ} {r : RingBuffer} (v : IsValid bits r) where
  pub masked : (a : ℕ) → bit_and a r.buffer_mask ≡ a % 2 ^ bits
  masked a =
      ap (bit_and a) {x = r.buffer_mask} {y = 2 ^ bits - 1} (omega arith) ∙ bit_and_ones bits a

  pub size-le : 2 ^ bits ≤ 32768
  size-le = pow-le-pow_right {n = 2} (omega arith) {i = bits} {j = 15} (omega arith)

  pub one-lt-size : 1 < 2 ^ bits
  one-lt-size = pow-le-pow_right {n = 2} (omega arith) {i = 1} {j = bits} (omega arith)

  num_items-mod : num_items r ≡ (r.head_index + 2 ^ bits - r.tail_index) % 2 ^ bits
  unfolding num_items
  num_items-mod =
      masked (sub16 r.head_index r.tail_index)
      ∙ sub16-mod bits r.head_index r.tail_index (omega arith) (omega arith)

  pub num_items_ahead : r.tail_index ≤ r.head_index → num_items r ≡ r.head_index - r.tail_index
  num_items_ahead h = omega (
    arith,
    num_items-mod,
    mod-eq-sub-mod {n = r.head_index + 2 ^ bits - r.tail_index} {m = 2 ^ bits} (omega arith),
    mod-eq_of_lt {n = r.head_index + 2 ^ bits - r.tail_index - 2 ^ bits} {m = 2 ^ bits}
        (omega arith),
  )

  pub num_items_behind :
      r.head_index < r.tail_index → num_items r ≡ r.head_index + 2 ^ bits - r.tail_index
  num_items_behind h =
      num_items-mod ∙ mod-eq_of_lt {n = r.head_index + 2 ^ bits - r.tail_index} (omega arith)

  -- At most one cell less than there are is in use.
  pub num_items-lt : num_items r < 2 ^ bits
  num_items-lt = elim (dec_le r.tail_index r.head_index) [
    | yes p ↦ omega (arith, num_items_ahead p)
    | no p ↦ omega (arith, num_items_behind (omega arith))
  ]

  -- The head is `num_items` cells past the tail.
  pub head_pos : r.head_index ≡ (r.tail_index + num_items r) % 2 ^ bits
  head_pos = elim (dec_le r.tail_index r.head_index) [
    | yes p ↦ omega (
      arith,
      num_items_ahead p,
      mod-eq_of_lt {n = r.tail_index + num_items r} {m = 2 ^ bits}
          (omega (arith, num_items_ahead p)),
    )
    | no p ↦ omega (
      arith,
      num_items_behind (omega arith),
      mod-eq-sub-mod {n = r.tail_index + num_items r} {m = 2 ^ bits}
          (omega (arith, num_items_behind (omega arith))),
      mod-eq_of_lt {n = r.tail_index + num_items r - 2 ^ bits} {m = 2 ^ bits}
          (omega (arith, num_items_behind (omega arith))),
    )
  ]

  -- The number of items is determined by the two positions.
  pub num_items_of_pos :
      (c : ℕ) → c < 2 ^ bits → r.head_index ≡ (r.tail_index + c) % 2 ^ bits → num_items r ≡ c
  num_items_of_pos c small e = elim (dec_lt (r.tail_index + c) (2 ^ bits)) [
    | yes p ↦ omega (arith, mod-eq_of_lt p, num_items_ahead (omega (arith, mod-eq_of_lt p)))
    | no p ↦
        let low : r.head_index ≡ r.tail_index + c - 2 ^ bits = omega (
          arith,
          mod-eq-sub-mod {n = r.tail_index + c} {m = 2 ^ bits} (omega arith),
          mod-eq_of_lt {n = r.tail_index + c - 2 ^ bits} {m = 2 ^ bits} (omega arith),
        ) in
        omega (arith, num_items_behind (omega arith))
  ]

  pub next_index-mod : (i : ℕ) → i < 2 ^ bits → next_index r i ≡ (i + 1) % 2 ^ bits
  next_index-mod i h =
      masked (u16 (i + 1))
      ∙ ap (λ n. n % 2 ^ bits) {x = u16 (i + 1)} {y = i + 1} (omega (arith, size-le))

  pub is_full_iff : (is_full r ≡ true) ↔ (num_items r ≡ r.buffer_mask)
  unfolding is_full num_items
  is_full_iff = ground arith

  pub is_empty_iff : (is_empty r ≡ true) ↔ (num_items r ≡ 0)
  unfolding is_empty
  is_empty_iff = (
    (λ h. omega (arith, num_items_ahead (ground arith), eq_of_== r.head_index r.tail_index h)),
    (λ h. same (omega (arith, head_pos, mod-eq_of_lt v.tail_in, shift h))),
  )
    where
      shift : num_items r ≡ 0 → (r.tail_index + num_items r) % 2 ^ bits ≡ r.tail_index % 2 ^ bits
      shift h =
          ap (λ n. n % 2 ^ bits) {x = r.tail_index + num_items r} {y = r.tail_index} (omega arith)

      same : r.head_index ≡ r.tail_index → (r.head_index == r.tail_index) ≡ true
      same h = ground arith
