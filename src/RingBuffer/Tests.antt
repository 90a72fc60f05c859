-- ===== src/RingBuffer/Tests.antt =====
-- The ring on small inputs.
use i80k.Base.{◌≡◌, refl, arith, [], ◌∷◌}
use i80k.RingBuffer.{
  RingBuffer, is_empty, is_full, num_items, make_room, place, queue, queue_arr, dequeue,
  dequeue_loop, dequeue_arr,
}
use i80k.RingBuffer.Fifo
use i80k.RingBuffer.Index.{IsValid}
use i80k.RingBuffer.Refine.{contents}
use i80k.RingBuffer.Ops.{queue_refines, dequeue_refines}

-- Four cells that hold 8, then 9, round the end.
abbrev pub wrapped : RingBuffer
wrapped = record { buffer = 9 ∷ 5 ∷ 5 ∷ 8 ∷ []; buffer_mask = 3; tail_index = 3; head_index = 1 }

pub wrapped-IsValid : IsValid 2 wrapped
wrapped-IsValid = omega arith

pub wrapped-contents : contents wrapped ≡ 8 ∷ 9 ∷ []
unfolding num_items
wrapped-contents = refl

overwriting : (dequeue_arr (queue_arr wrapped (1 ∷ 2 ∷ 3 ∷ [])) 9).0 ≡ 1 ∷ 2 ∷ 3 ∷ []
unfolding queue_arr queue make_room is_full place dequeue_arr dequeue_loop dequeue is_empty
overwriting = refl

queue_refines_example :
    IsValid 2 (queue wrapped 7) × (contents (queue wrapped 7) ≡ Fifo.push 3 (contents wrapped) 7)
queue_refines_example = queue_refines wrapped-IsValid 7

dequeue_refines_example :
    IsValid 2 (dequeue wrapped).1
    × (((dequeue wrapped).0, contents (dequeue wrapped).1) ≡ Fifo.pop (contents wrapped))
dequeue_refines_example = dequeue_refines wrapped-IsValid

-- Eight cells that hold nothing.
abbrev pub empty_ring : RingBuffer
empty_ring = record {
  buffer = 0 ∷ 0 ∷ 0 ∷ 0 ∷ 0 ∷ 0 ∷ 0 ∷ 0 ∷ [];
  buffer_mask = 7;
  tail_index = 5;
  head_index = 5;
}

pub empty_ring-IsValid : IsValid 3 empty_ring
empty_ring-IsValid = omega arith

pub empty_ring-contents : contents empty_ring ≡ []
unfolding num_items
empty_ring-contents = refl
