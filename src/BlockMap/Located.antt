-- ===== src/BlockMap/Located.antt =====
-- kernel/drivers/fs/ext2/io.c: the positions of a block of a file, against the order in which the
-- pointers count the blocks.
use native.Mathlib.Nat.{mul-le-mul, div-add-mod, mod-lt, div-lt_iff_lt-mul}
use i80k.Base.{
  ℕ, ◌+◌, ◌-◌, ◌*◌, ◌/◌, ◌%◌, ◌^◌, ◌≤◌, ◌<◌, ◌≡◌, refl, arith, Bool, true, false, Option, none,
  some, List, [], ◌∷◌, ltb, if◌then◌else◌, lt_of_ltb, le_of_not_ltb,
}
use i80k.Base.Word.{u32}
use i80k.BlockMap.{ext2_calculate_block_pointer_pos}

-- Where block `b` of a file stands, with `k` pointers in a block: twelve blocks are pointed to from
-- the inode; the next k from its single, k * k from its double and k * k * k from its triple
-- indirect block, in order.
pub data Located (k b : ℕ) : Option (ℕ × List ℕ) → Type 0 where
  direct : b < 12 → Located k b (some (0, b ∷ []))
  single : {p : ℕ} → p < k → b ≡ 12 + p → Located k b (some (1, 12 ∷ p ∷ []))
  double :
      {p q : ℕ} → p < k → q < k → b ≡ 12 + k + (k * p + q) → Located k b (some (2, 13 ∷ p ∷ q ∷ []))
  triple :
      {p q r : ℕ}
      → p < k
      → q < k
      → r < k
      → b ≡ 12 + k + k * k + (k * (k * p + q) + r)
      → Located k b (some (3, 14 ∷ p ∷ q ∷ r ∷ []))
  beyond : 12 + k + k * k + k * k * k ≤ b → Located k b none

choose :
    {k b : ℕ} (test : Bool) {s t : Option (ℕ × List ℕ)}
    → (test ≡ true → Located k b s)
    → (test ≡ false → Located k b t)
    → Located k b (if test then s else t)
choose true holds fails = holds refl
choose false holds fails = fails refl

module _ (k : ℕ) (pos : 0 < k) (small : k ≤ 2 ^ 10) where
  square_small : k * k ≤ 2 ^ 20
  square_small = mul-le-mul small small

  cube_small : k * k * k ≤ 2 ^ 30
  cube_small = mul-le-mul square_small small

  square : u32 (k * k) ≡ k * k
  square = omega (arith, square_small)

  cube : u32 (k * k * k) ≡ k * k * k
  cube = omega (arith, cube_small)

  square_pos : 0 < k * k
  square_pos = mul-le-mul pos pos

  -- Every block is found where it stands, and those past the last pointer are refused.
  pub ext2_calculate_block_pointer_pos-Located :
      (b : ℕ) → Located k b (ext2_calculate_block_pointer_pos k b)
  unfolding ext2_calculate_block_pointer_pos
  ext2_calculate_block_pointer_pos-Located b =
      rw (square, cube)
        (choose (ltb b 12) (λ e. direct (lt_of_ltb b 12 e))
          (λ n0.
            choose (ltb b1 k)
              (λ e. single (lt_of_ltb b1 k e) (omega (arith, le_of_not_ltb b 12 n0)))
              (λ n1.
                choose (ltb b2 (k * k))
                  (λ e.
                    in_double (le_of_not_ltb b 12 n0) (le_of_not_ltb b1 k n1)
                      (lt_of_ltb b2 (k * k) e))
                  (λ n2.
                    choose (ltb b3 (k * k * k))
                      (λ e.
                        in_triple (le_of_not_ltb b 12 n0) (le_of_not_ltb b1 k n1)
                          (le_of_not_ltb b2 (k * k) n2) (lt_of_ltb b3 (k * k * k) e))
                      (λ n3.
                        let h0 = le_of_not_ltb b 12 n0 in
                        let h1 = le_of_not_ltb b1 k n1 in
                        let h2 = le_of_not_ltb b2 (k * k) n2 in
                        let h3 = le_of_not_ltb b3 (k * k * k) n3 in
                        beyond (omega (arith, h0, h1, h2, h3)))))))
    where
      b1 : ℕ
      b1 = b - 12

      b2 : ℕ
      b2 = b1 - k

      b3 : ℕ
      b3 = b2 - k * k

      in_double : 12 ≤ b → k ≤ b1 → b2 < k * k → Located k b (some (2, 13 ∷ b2 / k ∷ b2 % k ∷ []))
      in_double h0 h1 h =
          double ((div-lt_iff_lt-mul {k = k} {x = b2} {y = k} pos).1 h) (mod-lt b2 {m = k} pos)
            (omega (arith, h0, h1, div-add-mod b2 k))

      in_triple :
          12 ≤ b
          → k ≤ b1
          → k * k ≤ b2
          → b3 < k * k * k
          → Located k b (some (3, 14 ∷ b3 / (k * k) ∷ b3 % (k * k) / k ∷ b3 % (k * k) % k ∷ []))
      in_triple h0 h1 h2 h =
          let x = b3 % (k * k) in
          triple ((div-lt_iff_lt-mul {k = k * k} {x = b3} {y = k} square_pos).1 (omega (arith, h)))
            ((div-lt_iff_lt-mul {k = k} {x = x} {y = k} pos).1 (mod-lt b3 {m = k * k} square_pos))
            (mod-lt x {m = k} pos)
            (omega (arith, h0, h1, h2, div-add-mod b3 (k * k), div-add-mod x k))
