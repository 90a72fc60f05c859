-- ===== src/RingBuffer/Arrays.antt =====
-- `ring_buffer_queue_arr` and `ring_buffer_dequeue_arr` of kernel/core/ringbuffer.c.
use i80k.Base.{
  ℕ, zero, suc, ◌-◌, ◌^◌, ◌≡◌, refl, ap, ap₂, sym, ◌∙◌, arith, List, [], ◌∷◌, ◌++◌, Bool-split, inl,
  inr, Option-split, take_all, drop_all, none≢some, drop, take, Option, none, some, ◌⊎◌, true,
  false, length,
}
use mathlib.Core.Bool.{false≢true}
use i80k.RingBuffer.{
  RingBuffer, num_items, is_empty, queue, queue_arr, dequeue, dequeue_loop, dequeue_arr,
}
use i80k.RingBuffer.Index.{IsValid, one-lt-size, num_items-lt, is_empty_iff}
use i80k.RingBuffer.Fifo
use i80k.RingBuffer.Refine.{run, cell, contents}
use i80k.RingBuffer.Ops.{length-contents, buffer_mask-queue, queue_refines, dequeue_refines}

pop-none :
    (q q' : List ℕ) → ◌≡◌ {A = Option ℕ × List ℕ} (none, q') (Fifo.pop q) → (q ≡ []) × (q' ≡ [])
unfolding Fifo.pop
pop-none [] q' h = (refl, cc)
pop-none (x ∷ q) q' h = absurd (none≢some (ap (λ (p : Option ℕ × List ℕ). p.0) h))

pop-some :
    (q q' : List ℕ) (x : ℕ) → ◌≡◌ {A = Option ℕ × List ℕ} (some x, q') (Fifo.pop q) → q ≡ x ∷ q'
unfolding Fifo.pop
pop-some [] q' x h = absurd (none≢some (ap (λ (p : Option ℕ × List ℕ). p.0) (sym h)))
pop-some (y ∷ q) q' x h = cc

push_all-contents :
    {bits : ℕ} {r : RingBuffer} (bytes : List ℕ)
    → IsValid bits r
    → IsValid bits (queue_arr r bytes)
      × (contents (queue_arr r bytes) ≡ Fifo.push_all r.buffer_mask (contents r) bytes)
unfolding queue_arr Fifo.push_all
push_all-contents [] v = (v, refl)
push_all-contents {r} (x ∷ bytes) v =
    let (w, one) = queue_refines v x in
    let (w', rest) = push_all-contents {r = queue r x} bytes w in
    (w', rest ∙ ap₂ (λ m q. Fifo.push_all m q bytes) (buffer_mask-queue v x) one)

-- Queueing an array of bytes keeps the ring valid and leaves it with the last bytes of all that it
-- was given, as many as it can hold, in order.
pub queue_arr-latest :
    {bits : ℕ} {r : RingBuffer} (bytes : List ℕ)
    → IsValid bits r
    → IsValid bits (queue_arr r bytes)
      × (contents (queue_arr r bytes) ≡ Fifo.latest (2 ^ bits - 1) (contents r ++ bytes))
queue_arr-latest {bits} {r} bytes v =
    let (w, all) = push_all-contents bytes v in
    (
      w,
      all
          ∙ Fifo.push_all-latest r.buffer_mask (contents r) bytes
              (omega (arith, one-lt-size v, v.mask))
              (omega (arith, length-contents v, num_items-lt v, v.mask))
          ∙ ap (λ n. Fifo.latest n (contents r ++ bytes)) {x = r.buffer_mask} {y = 2 ^ bits - 1}
              (omega (arith, v.mask)),
    )

-- A ring is empty, or gives its oldest byte.
pub dequeue_cases :
    {bits : ℕ} {r : RingBuffer}
    → IsValid bits r
    → ((is_empty r ≡ true) × (contents r ≡ []))
      ⊎ ((byte : ℕ) × (is_empty r ≡ false)
          × ((dequeue r).0 ≡ some byte)
          × IsValid bits (dequeue r).1
          × (contents r ≡ byte ∷ contents (dequeue r).1))
dequeue_cases {r} v = elim (Bool-split (is_empty r)) [
  | inl e ↦ inl (e, ap (run (cell r) r.tail_index) ((is_empty_iff v).0 e))
  | inr e ↦
      let (w, d) = dequeue_refines v in
      elim (Option-split (dequeue r).0) [
        | inl gone ↦
            let z =
              pop-none (contents r) (contents (dequeue r).1)
                (ap (λ o. (o, contents (dequeue r).1)) (sym gone) ∙ d) in
            let none_left : num_items r ≡ 0 = sym (length-contents v) ∙ ap length z.0 in
            absurd (false≢true (sym e ∙ (is_empty_iff v).1 none_left))
        | inr (byte, got) ↦ inr (
          byte,
          e,
          got,
          w,
          pop-some (contents r) (contents (dequeue r).1) byte
              (ap (λ o. (o, contents (dequeue r).1)) (sym got) ∙ d),
        )
      ]
]

pub queue_arr-cons :
    (r : RingBuffer) (byte : ℕ) (bytes : List ℕ)
    → queue_arr (queue r byte) bytes ≡ queue_arr r (byte ∷ bytes)
unfolding queue_arr
queue_arr-cons r byte bytes = refl

pub queue_arr-append :
    (r : RingBuffer) (xs ys : List ℕ) → queue_arr (queue_arr r xs) ys ≡ queue_arr r (xs ++ ys)
unfolding queue_arr
queue_arr-append r [] ys = refl
queue_arr-append r (x ∷ xs) ys = queue_arr-append (queue r x) xs ys

pub queue_arr-nil : (r : RingBuffer) → queue_arr r [] ≡ r
unfolding queue_arr
queue_arr-nil r = refl

abbrev Taken : ℕ → ℕ → RingBuffer → List ℕ × RingBuffer → Type 0
Taken bits len r out =
    IsValid bits out.1 × (out.0 ≡ take len (contents r)) × (contents out.1 ≡ drop len (contents r))

dequeue_loop-Taken :
    {bits : ℕ} {r : RingBuffer} (len : ℕ) → IsValid bits r → Taken bits len r (dequeue_loop len r)
unfolding dequeue_loop
dequeue_loop-Taken zero v = (v, refl, refl)
dequeue_loop-Taken {bits} {r} (suc len) v = elim (Option-split (dequeue r).0) [
  | inl e ↦
      let (w, d) = dequeue_refines v in
      let (z, z') =
        pop-none (contents r) (contents (dequeue r).1)
          (ap (λ o. (o, contents (dequeue r).1)) (sym e) ∙ d) in
      rw (e, dequeue_loop) (w, ap (take (suc len)) (sym z), z' ∙ ap (drop (suc len)) (sym z))
  | inr (x, e) ↦
      let (w, d) = dequeue_refines v in
      let q : contents r ≡ x ∷ contents (dequeue r).1 =
        pop-some (contents r) (contents (dequeue r).1) x
          (ap (λ o. (o, contents (dequeue r).1)) (sym e) ∙ d) in
      let (w', got, left) = dequeue_loop-Taken {r = (dequeue r).1} len w in
      rw (e, dequeue_loop)
        (
          w',
          ap (λ bs. x ∷ bs) got ∙ ap (take (suc len)) (sym q),
          left ∙ ap (drop (suc len)) (sym q),
        )
]

-- Dequeueing an array returns the oldest bytes, up to the number asked for, leaves the rest, and
-- keeps the ring valid.
dequeue_arr-take :
    {bits : ℕ} {r : RingBuffer} (len : ℕ)
    → IsValid bits r
    → IsValid bits (dequeue_arr r len).1
      × ((dequeue_arr r len).0 ≡ take len (contents r))
      × (contents (dequeue_arr r len).1 ≡ drop len (contents r))
unfolding dequeue_arr
dequeue_arr-take {bits} {r} len v = elim (Bool-split (is_empty r)) [
  | inl e ↦
      let z : contents r ≡ [] = ap (run (cell r) r.tail_index) ((is_empty_iff v).0 e) in
      rw e (
        v,
        sym (ap (take len) z ∙ take_all len [] (omega arith)),
        z ∙ sym (ap (drop len) z ∙ drop_all len [] (omega arith)),
      )
  | inr e ↦ rw e (dequeue_loop-Taken len v)
]
