-- ===== src/RingBuffer/Ops.antt =====
-- The operations of kernel/core/ringbuffer.c against the queue of the bytes that the ring holds.
use i80k.Base.{
  ℕ, suc, ◌+◌, ◌%◌, ◌^◌, ◌≤◌, ◌<◌, ◌≡◌, refl, ap, ap₂, sym, subst, ◌∙◌, arith, List, [], ◌∷◌, ◌++◌,
  Bool-split, inl, inr, length, leb→le, lt_of_not_leb, get_or, drop, get_elem?, Option, none, some,
  true, false, ==_iff, ==_of_ne, if◌then◌else◌, ◌≢◌, leb, bit_and, Bool, ◌==◌,
}
use i80k.Base.Word.{u16}
use native.Mathlib.Nat.{pow-le-pow_right, mod-eq_of_lt}
use mathlib.Core.Bool.{false≢true}
use i80k.RingBuffer.{
  RingBuffer, init, num_items, is_full, is_empty, make_room, place, queue, dequeue, peek,
}
use i80k.RingBuffer.Index.{
  IsValid, masked, one-lt-size, size-le, num_items-lt, is_full_iff, is_empty_iff, num_items_ahead,
}
use i80k.RingBuffer.Fifo
use i80k.RingBuffer.Refine.{
  run, cell, contents, length-run, run_past, run_at, advance, advance-IsValid, num_items-advance,
  contents-advance, place-IsValid, contents-place,
}

-- A ring set up over a storage of `2 ^ bits` bytes is valid and holds nothing.
init-IsValid :
    (bits : ℕ) (buf : List ℕ)
    → 0 < bits
    → bits < 16
    → length buf ≡ 2 ^ bits
    → IsValid bits (init buf (length buf)) × (contents (init buf (length buf)) ≡ [])
unfolding init
init-IsValid bits buf h k e = (valid, ap (run (cell (init buf (length buf))) 0) none_yet)
  where
    valid : IsValid bits (init buf (length buf))
    valid = record {
      some_room = h;
      small = k;
      mask = omega (arith, low, high);
      storage = e;
      tail_in = omega (arith, low);
      head_in = omega (arith, low);
    }
      where
        low : 1 < 2 ^ bits
        low = pow-le-pow_right {n = 2} (omega arith) {i = 1} {j = bits} (omega arith)

        high : 2 ^ bits ≤ 32768
        high = pow-le-pow_right {n = 2} (omega arith) {i = bits} {j = 15} (omega arith)

    none_yet : num_items (init buf (length buf)) ≡ 0
    none_yet = num_items_ahead valid (omega arith)

module _ {bits : ℕ} {r : RingBuffer} (v : IsValid bits r) where
  pub length-contents : length (contents r) ≡ num_items r
  length-contents = length-run (cell r) r.tail_index (num_items r)

  -- What queueing does first.
  record Roomy (s : RingBuffer) : Type 0 where
    valid : IsValid bits s
    room : suc (num_items s) < 2 ^ bits
    kept :
        contents s
        ≡ (if length (contents r) == r.buffer_mask then drop 1 (contents r) else contents r)

  make_room-Roomy : Roomy (make_room r)
  unfolding make_room
  make_room-Roomy = elim (Bool-split (is_full r)) [
    | inl full ↦
        let c : num_items r ≡ r.buffer_mask = (is_full_iff v).0 full in
        let some_item : 0 < num_items r = omega (arith, one-lt-size v, v.mask) in
        rw full (record {
          valid = advance-IsValid v some_item;
          room = omega (arith, num_items-advance v some_item, num_items-lt v);
          kept =
              ap (drop 1) (sym (contents-advance v some_item))
              ∙ ap (λ b. if b then drop 1 (contents r) else contents r) {x = true}
                  {y = length (contents r) == r.buffer_mask}
                  (sym ((==_iff (length (contents r)) r.buffer_mask).1 (length-contents ∙ c)));
        })
    | inr free ↦ rw free (record {
      valid = v;
      room = omega (arith, num_items-lt v, not_mask free, v.mask);
      kept =
          ap (λ b. if b then drop 1 (contents r) else contents r) {x = false}
            {y = length (contents r) == r.buffer_mask}
            (sym (
              ==_of_ne (length (contents r)) r.buffer_mask
                (omega (arith, length-contents, not_mask free))));
    })
  ]
    where
      not_mask : is_full r ≡ false → num_items r ≢ r.buffer_mask
      not_mask free e = false≢true (sym free ∙ (is_full_iff v).1 e)

  pub buffer_mask-queue : (x : ℕ) → (queue r x).buffer_mask ≡ r.buffer_mask
  unfolding queue make_room place
  buffer_mask-queue x = ground arith

  -- Queueing a byte keeps the ring valid and is a push on the bounded queue of its bytes: it
  -- appends the byte, and drops the oldest one first if the ring was full.
  pub queue_refines :
      (x : ℕ)
      → IsValid bits (queue r x) × (contents (queue r x) ≡ Fifo.push r.buffer_mask (contents r) x)
  unfolding queue Fifo.push
  queue_refines x =
      let s = make_room-Roomy in
      (
        place-IsValid s.valid x,
        contents-place s.valid x s.room
            ∙ ap (λ q. q ++ (x ∷ [])) s.kept
            ∙ cond_append (length (contents r) == r.buffer_mask) (drop 1 (contents r)) (contents r),
      )
    where
      cond_append :
          (b : Bool) (p q : List ℕ)
          → (if b then p else q) ++ (x ∷ []) ≡ (if b then p ++ (x ∷ []) else q ++ (x ∷ []))
      cond_append true p q = refl
      cond_append false p q = refl

  -- On a ring that holds bytes, dequeueing returns the oldest and leaves the rest; on an empty one
  -- it returns none and changes nothing. The ring stays valid.
  pub dequeue_refines :
      IsValid bits (dequeue r).1 × (((dequeue r).0, contents (dequeue r).1) ≡ Fifo.pop (contents r))
  unfolding dequeue Fifo.pop
  dequeue_refines = elim (Bool-split (is_empty r)) [
    | inl e ↦
        let z : contents r ≡ [] = ap (run (cell r) r.tail_index) ((is_empty_iff v).0 e) in
        rw e (v, subst (λ q. ◌≡◌ {A = Option ℕ × List ℕ} (none, q) (Fifo.pop q)) (sym z) refl)
    | inr e ↦
        let n : 0 < num_items r = some_item e in
        rw e (
          advance-IsValid v n,
          ap (λ x. (some x, contents (advance r))) (ap (λ i. get_or r.buffer i 0) (sym at_tail))
              ∙ ap Fifo.pop (sym (contents-advance v n)),
        )
  ]
    where
      at_tail : r.tail_index % (r.buffer_mask + 1) ≡ r.tail_index
      at_tail = mod-eq_of_lt (omega (arith, v.mask, v.tail_in))

      some_item : is_empty r ≡ false → 0 < num_items r
      some_item e = omega (arith, not_zero)
        where
          not_zero : num_items r ≢ 0
          not_zero z = false≢true (sym e ∙ (is_empty_iff v).1 z)

  -- Peeking returns the byte at the given place in the queue, or none past its end.
  peek-get_elem? : (index : ℕ) → peek r index ≡ get_elem? (contents r) index
  unfolding peek
  peek-get_elem? index = elim (Bool-split (leb (num_items r) index)) [
    | inl past ↦
        rw past (sym (run_past (cell r) r.tail_index (num_items r) index (leb→le _ _ past)))
    | inr inside ↦ rw inside (
        let lt : index < num_items r = lt_of_not_leb (num_items r) index inside in
        ap some (ap (λ i. get_or r.buffer i 0) (wrapped index lt))
        ∙ sym (run_at (cell r) r.tail_index (num_items r) index lt))
  ]
    where
      wrapped :
          (i : ℕ)
          → i < num_items r
          → bit_and (u16 (r.tail_index + i)) r.buffer_mask
            ≡ (r.tail_index + i) % (r.buffer_mask + 1)
      wrapped i lt =
          masked v (u16 (r.tail_index + i))
          ∙ ap₂ (λ m n. m % n) {x = u16 (r.tail_index + i)} {y = r.tail_index + i}
              (omega (arith, num_items-lt v, size-le v)) (sym v.mask)
