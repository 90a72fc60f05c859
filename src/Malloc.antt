-- ===== src/Malloc.antt =====
-- libc/malloc.c: the buddy allocator of the heap.
--
-- Addresses are offsets from `heap`; an offset is not null. The free blocks of a size form a list,
-- whose links stand in the blocks. `grant` tells whether `sbrk` gives a further page.
pub mod Index
pub mod Cover
pub mod Alloc
pub mod Valid
pub mod Given
pub mod Free
mod Tests
use i80k.Base.{
  ℕ, zero, suc, ◌+◌, ◌-◌, ◌*◌, ◌^◌, min, bit_xor, Bool, true, false, Option, none, some, List, [],
  ◌∷◌, ◌==◌, ltb, if◌then◌else◌,
}
use i80k.Base.Word.{u16}

abbrev pub max_index : ℕ
max_index = 12

abbrev pub page_size : ℕ
page_size = 2 ^ max_index

abbrev pub min_size : ℕ
min_size = 8

-- `fb_table`, as the offsets of the free blocks of each index.
abbrev pub Table : Type 0
Table = ℕ → List ℕ

abbrev pub put : ℕ → List ℕ → Table → Table
put i list table j = if j == i then list else table j

-- `size_of` is the field `size` of the header that stands at an offset.
pub record Heap : Type 0 where
  pub heap_size : ℕ
  pub table : Table
  pub size_of : ℕ → ℕ

-- A loop of `getindex`: `while (from < size) { from <<= 1; index++; }` on 16-bit words, on fuel.
pub doublings : ℕ → ℕ → ℕ → ℕ → Option ℕ
doublings zero from size index = none
doublings (suc fuel) from size index =
    let rest = doublings fuel (u16 (from * 2)) size (index + 1) in
    if ltb from size then rest else some index

abbrev pub from_min : ℕ → ℕ → Option ℕ → Option ℕ
from_min fuel size none = none
from_min fuel size (some min_index) = doublings fuel min_size size min_index

pub getindex : ℕ → ℕ → Option ℕ
unfolding doublings
getindex fuel size = from_min fuel size (doublings fuel 1 min_size 0)

pub getbuddy : ℕ → ℕ → ℕ
getbuddy index zone = bit_xor (2 ^ index) zone

pub fb_add : ℕ → ℕ → Table → Table
fb_add index zone table = put index (zone ∷ table index) table

abbrev pub keep_block : ℕ → Option (List ℕ) → Option (List ℕ)
keep_block z none = none
keep_block z (some zs) = some (z ∷ zs)

-- `fb_remove` on the list of an index: the list without the block, if it is there.
pub fb_remove : ℕ → List ℕ → Option (List ℕ)
fb_remove zone [] = none
fb_remove zone (z ∷ zs) =
    let rest = fb_remove zone zs in if z == zone then some zs else keep_block z rest

-- `fb_pop` from an index on, for `rounds` indices more: the block, its index and the table left.
pub find_free : ℕ → ℕ → Table → List ℕ → Option (ℕ × ℕ × Table)
find_free rounds i table (z ∷ zs) = some (z, i, put i zs table)
find_free zero i table [] = none
find_free (suc rounds) i table [] = find_free rounds (i + 1) table (table (i + 1))

-- `while (i-- > index) fb_add(i, getbuddy(i, zone))`, from `index + rounds` down.
pub divide : ℕ → ℕ → ℕ → Table → Table
unfolding getbuddy fb_add
divide zero index zone table = table
divide (suc rounds) index zone table =
    divide rounds index zone (fb_add (index + rounds) (getbuddy (index + rounds) zone) table)

-- The block is cut to its size and gets its header.
abbrev pub hand_out : ℕ → ℕ → Heap → ℕ × ℕ × Table → Heap
hand_out full_size index h (zone, i, table) = record h {
  table = divide (i - index) index zone table;
  size_of = λ z. if z == zone then full_size else h.size_of z;
}

abbrev pub grow : Heap → Heap
grow h = record h { heap_size = u16 (h.heap_size + page_size) }

abbrev pub from_free : Bool → ℕ → ℕ → Heap → Option (ℕ × ℕ × Table) → Option ℕ × Heap
from_free grant full_size index h (some (zone, i, table)) =
    (some (zone + 2), hand_out full_size index h (zone, i, table))
from_free false full_size index h none = (none, h)
from_free true full_size index h none =
    (some (h.heap_size + 2), hand_out full_size index (grow h) (h.heap_size, max_index, h.table))

pub allocate : Bool → ℕ → ℕ → Heap → Option ℕ × Heap
unfolding find_free divide
allocate grant full_size index h =
    if ltb max_index index
    then (none, h)
    else from_free grant full_size index h
        (find_free (max_index - index) index h.table (h.table index))

abbrev pub allocate_at : Bool → ℕ → Heap → Option ℕ → Option (Option ℕ × Heap)
allocate_at grant full_size h none = none
allocate_at grant full_size h (some index) = some (allocate grant full_size index h)

-- `malloc`; none if a loop of `getindex` has not ended.
pub malloc : ℕ → Bool → ℕ → Heap → Option (Option ℕ × Heap)
unfolding getindex allocate
malloc fuel grant size h =
    if size == 0
    then some (none, h)
    else allocate_at grant (u16 (size + 2)) h (getindex fuel (u16 (size + 2)))

-- The loop of `free`, for `rounds` indices more, on what `fb_remove` of the buddy yields.
pub merge : ℕ → ℕ → ℕ → Table → Option (List ℕ) → Table
unfolding getbuddy fb_add fb_remove
merge rounds i zone table none = fb_add i zone table
merge zero i zone table (some rest) = fb_add i zone table
merge (suc rounds) i zone table (some rest) =
    let zone' = min zone (getbuddy i zone) in
    let table' = put i rest table in
    merge rounds (i + 1) zone' table' (fb_remove (getbuddy (i + 1) zone') (table' (i + 1)))

abbrev pub free_at : ℕ → Heap → Option ℕ → Option Heap
free_at zone h none = none
free_at zone h (some i) = some (record h {
  table = merge (max_index - i) i zone h.table (fb_remove (getbuddy i zone) (h.table i));
})

pub free : ℕ → Option ℕ → Heap → Option Heap
unfolding getindex merge
free fuel none h = some h
free fuel (some ptr) h = free_at (ptr - 2) h (getindex fuel (h.size_of (ptr - 2)))
