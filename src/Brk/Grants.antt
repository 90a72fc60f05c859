-- ===== src/Brk/Grants.antt =====
-- libc/brk.c and kernel/heap.c: what `sbrk` grants.
use i80k.Base.{
  ap, refl, ℕ, ◌+◌, ◌^◌, ◌≡◌, ◌≤◌, ◌<◌, ◌∙◌, ◌⊎◌, inl, inr, arith, true, false, Bool-split,
  lt_of_ltb, le_of_not_ltb, eq_of_==, ◌||◌, ◌==◌, ltb,
}
use i80k.Base.Word.{u16}
use i80k.Brk.{Brk, minus_one, heap_brk, moved, known, sbrk}

-- The heap is between its bounds, which are addresses, and the library knows its end or nothing.
pub record IsSound (b : Brk) : Type 0 where
  pub some_base : 0 < b.heap_base
  pub above : b.heap_base ≤ b.heap
  pub below : b.heap ≤ b.heap_max
  pub bounded : b.heap_max < minus_one
  pub agree : (b.lib_brk ≡ 0) ⊎ (b.lib_brk ≡ b.heap)

known_end : (b : Brk) → IsSound b → known b (heap_brk 0 b) ≡ record b { lib_brk = b.heap }
unfolding heap_brk
known_end b v = by_agree v.agree
  where
    by_agree :
        (b.lib_brk ≡ 0) ⊎ (b.lib_brk ≡ b.heap)
        → known b (heap_brk 0 b) ≡ record b { lib_brk = b.heap }
    by_agree (inl z) = rw z refl
    by_agree (inr e) =
        let set : (b.lib_brk == 0) ≡ false = ground (arith, e, v.above, v.some_base) in
        rw set (ap (λ x. record b { lib_brk = x }) e)

granted :
    (b : Brk) (start end : ℕ)
    → 0 < end
    → b.heap_base ≤ end
    → end ≤ b.heap_max
    → b.heap_max < minus_one
    → moved start end (heap_brk end b) ≡ (start, record b { heap = end; lib_brk = end })
unfolding heap_brk
granted b start end some_end above below bounded =
    let not_query : (end == 0) ≡ false = ground (arith, some_end) in
    let inside : (ltb end b.heap_base || ltb b.heap_max end) ≡ false =
      ground (arith, above, below) in
    let no_error : (end == minus_one) ≡ false = ground (arith, below, bounded) in
    let as_asked : ltb end end ≡ false = ground arith in
    rw (not_query, inside, no_error, as_asked) refl

refused :
    (b : Brk) (start end : ℕ)
    → 0 < end
    → b.heap_max < end
    → moved start end (heap_brk end b) ≡ (minus_one, b)
unfolding heap_brk
refused b start end some_end past =
    let not_query : (end == 0) ≡ false = ground (arith, some_end) in
    let outside : (ltb end b.heap_base || ltb b.heap_max end) ≡ true = ground (arith, past) in
    rw (not_query, outside) refl

queried :
    (b : Brk) (start : ℕ)
    → b.heap < minus_one
    → moved start 0 (heap_brk 0 b) ≡ (start, record b { lib_brk = b.heap })
unfolding heap_brk
queried b start bounded =
    let no_error : (b.heap == minus_one) ≡ false = ground (arith, bounded) in
    let not_less : ltb b.heap 0 ≡ false = ground arith in rw (no_error, not_less) refl

-- An increment that stays below 2 ^ 16: where the heap has room, its end moves by the increment and
-- the old end is returned; where it has not, -1 is returned and the heap is as before. The heap
-- stays sound. If the new end is just 2 ^ 16, the old end is returned although nothing was granted.
pub sbrk-grants :
    (increment : ℕ) (b : Brk)
    → IsSound b
    → b.heap + increment ≤ 2 ^ 16
    → ((b.heap + increment ≤ b.heap_max)
        × (sbrk increment b
            ≡ (b.heap, record b { heap = b.heap + increment; lib_brk = b.heap + increment })))
      ⊎ ((b.heap_max < b.heap + increment)
          × (b.heap + increment < 2 ^ 16)
          × (sbrk increment b ≡ (minus_one, record b { lib_brk = b.heap })))
      ⊎ ((b.heap + increment ≡ 2 ^ 16)
          × (sbrk increment b ≡ (b.heap, record b { lib_brk = b.heap })))
unfolding sbrk
sbrk-grants increment b v small =
    let b1 : Brk = record b { lib_brk = b.heap } in
    let sum = b.heap + increment in
    let stepped : sbrk increment b ≡ moved b.heap (u16 sum) (heap_brk (u16 sum) b1) =
      ap
        (λ (b' : Brk).
          moved b'.lib_brk (u16 (b'.lib_brk + increment))
            (heap_brk (u16 (b'.lib_brk + increment)) b'))
        (known_end b v) in
    let at =
      λ (end : ℕ) (same : u16 sum ≡ end). stepped ∙ ap (λ e. moved b.heap e (heap_brk e b1)) same in
    elim (Bool-split (ltb b.heap_max sum)) [
      | inr room ↦
          let fits : sum ≤ b.heap_max = le_of_not_ltb b.heap_max sum room in
          inl (
            fits,
            at sum (omega (arith, fits, v.bounded))
                ∙ granted b1 b.heap sum (omega (arith, v.some_base, v.above))
                    (omega (arith, v.above)) fits v.bounded,
          )
      | inl past ↦
          let over : b.heap_max < sum = lt_of_ltb b.heap_max sum past in
          elim (Bool-split (sum == 2 ^ 16)) [
            | inl whole ↦
                let just : sum ≡ 2 ^ 16 = eq_of_== sum (2 ^ 16) whole in
                inr (
                  inr (
                    just,
                    at 0 (omega (arith, just))
                        ∙ queried b1 b.heap (omega (arith, v.below, v.bounded)),
                  ))
            | inr less ↦
                let low : sum < 2 ^ 16 = ground (arith, less, small) in
                inr (
                  inl (
                    over,
                    low,
                    at sum (omega (arith, low)) ∙ refused b1 b.heap sum (omega (arith, over)) over,
                  ))
          ]
    ]
