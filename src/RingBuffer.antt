-- ===== src/RingBuffer.antt =====
-- kernel/core/ringbuffer.c and kernel/core/ringbuffer.h: the byte queue between the console and
-- the serial line. A function that updates `*buffer` returns the new ring; one that stores a byte
-- through `data` returns it as an option.
pub mod Fifo
pub mod Index
pub mod Refine
pub mod Ops
pub mod Arrays
pub mod Tests
use i80k.Base.{
  ℕ, zero, suc, ◌+◌, Bool, true, false, Option, none, some, List, [], ◌∷◌, ◌==◌, leb, if◌then◌else◌,
  bit_and, get_or, set,
}
use i80k.Base.Word.{u16, sub16}

-- `struct ring_buffer_t`
pub record RingBuffer : Type 0 where
  pub buffer : List ℕ
  pub buffer_mask : ℕ
  pub tail_index : ℕ
  pub head_index : ℕ

pub init : List ℕ → ℕ → RingBuffer
init buf buf_size = record {
  buffer = buf;
  buffer_mask = sub16 buf_size 1;
  tail_index = 0;
  head_index = 0;
}

pub is_empty : RingBuffer → Bool
is_empty r = r.head_index == r.tail_index

pub num_items : RingBuffer → ℕ
num_items r = bit_and (sub16 r.head_index r.tail_index) r.buffer_mask

pub is_full : RingBuffer → Bool
is_full r = bit_and (sub16 r.head_index r.tail_index) r.buffer_mask == r.buffer_mask

-- `(i + 1) & RING_BUFFER_MASK(buffer)`
abbrev pub next_index : RingBuffer → ℕ → ℕ
next_index r i = bit_and (u16 (i + 1)) r.buffer_mask

-- A full ring loses its oldest byte.
pub make_room : RingBuffer → RingBuffer
make_room r = if is_full r then record r { tail_index = next_index r r.tail_index } else r

pub place : RingBuffer → ℕ → RingBuffer
place r byte = record r {
  buffer = set r.buffer r.head_index byte;
  head_index = next_index r r.head_index;
}

pub queue : RingBuffer → ℕ → RingBuffer
queue r byte = place (make_room r) byte

pub queue_arr : RingBuffer → List ℕ → RingBuffer
queue_arr r [] = r
queue_arr r (byte ∷ bytes) = queue_arr (queue r byte) bytes

pub dequeue : RingBuffer → Option ℕ × RingBuffer
dequeue r = if is_empty r then (none, r) else (
  some (get_or r.buffer r.tail_index 0),
  record r { tail_index = next_index r r.tail_index },
)

-- The loop of `ring_buffer_dequeue_arr`, with `len - cnt` rounds left.
pub dequeue_loop : ℕ → RingBuffer → List ℕ × RingBuffer
dequeue_loop zero r = ([], r)
dequeue_loop (suc n) r = elim (dequeue r).0 [
  | none ↦ ([], (dequeue r).1)
  | some byte ↦ let (bytes, r') = dequeue_loop n (dequeue r).1 in (byte ∷ bytes, r')
]

-- The list is what lands in `data`; the C function returns its length.
pub dequeue_arr : RingBuffer → ℕ → List ℕ × RingBuffer
dequeue_arr r len = let taken = dequeue_loop len r in if is_empty r then ([], r) else taken

pub peek : RingBuffer → ℕ → Option ℕ
peek r index =
    if leb (num_items r) index
    then none
    else some (get_or r.buffer (bit_and (u16 (r.tail_index + index)) r.buffer_mask) 0)
