-- ===== src/Pages.antt =====
-- kernel/page.c: the allocator of far memory, a free list for each order of blocks.
--
-- A far pointer is its 32 bits, the segment above the offset. The circular list of an order is the
-- sequence of the addresses of its blocks, and `magic` is the word that the code keeps in a block.
-- The operations return none where the code leaves the array of free lists.
pub mod Split
pub mod Alloc
mod Tests
use i80k.Base.{
  ℕ, zero, suc, ◌+◌, ◌-◌, ◌*◌, ◌/◌, ◌%◌, ◌^◌, Bool, true, false, Option, none, some, List, [], ◌∷◌,
  ◌++◌, ◌==◌, leb, ltb, if◌then◌else◌, bit_xor, get_elem?, set, replicate,
}
use i80k.Base.Word.{u16, u32, sub16}

abbrev pub max_order : ℕ
max_order = 7

abbrev pub page_shift : ℕ
page_shift = 10

abbrev pub page_magic : ℕ
page_magic = 3735902810

pub record Pages : Type 0 where
  pub free_areas : List (List ℕ)
  pub magic : ℕ → ℕ

-- `struct page`
pub record Page : Type 0 where
  pub addr : ℕ
  pub order : ℕ

abbrev pub marked : ℕ → ℕ → (ℕ → ℕ) → ℕ → ℕ
marked a v f q = if q == a then v else f q

-- A 16-bit `int` in 32 bits, with its sign.
abbrev pub extended : ℕ → ℕ
extended n = if ltb n (2 ^ 15) then n else n + (2 ^ 32 - 2 ^ 16)

-- `1 << (order + PAGE_SHIFT)`, an `int`.
abbrev pub block_bit : ℕ → ℕ
block_bit order = extended (u16 (2 ^ (order + page_shift)))

pub page_buddy : ℕ → ℕ → ℕ
page_buddy addr order =
    let base = addr / 2 ^ 16 * 2 ^ 16 in u32 (base + bit_xor (block_bit order) (addr - base))

abbrev pub with_area : Pages → ℕ → List ℕ → Pages
with_area p order l = record p { free_areas = set p.free_areas order l }

abbrev pub pushed : Pages → ℕ → ℕ → Option (List ℕ) → Option Pages
pushed p addr order none = none
pushed p addr order (some l) = some (record {
  free_areas = set p.free_areas order (addr ∷ l);
  magic = marked addr page_magic p.magic;
})

pub page_push : ℕ → ℕ → Pages → Option Pages
page_push addr order p = pushed p addr order (get_elem? p.free_areas order)

abbrev pub queued : Pages → ℕ → ℕ → Option (List ℕ) → Option Pages
queued p addr order none = none
queued p addr order (some l) = some (record {
  free_areas = set p.free_areas order (l ++ (addr ∷ []));
  magic = marked addr page_magic p.magic;
})

pub page_queue : ℕ → ℕ → Pages → Option Pages
page_queue addr order p = queued p addr order (get_elem? p.free_areas order)

abbrev pub popped : Pages → ℕ → Option (List ℕ) → Option (Option ℕ × Pages)
popped p order none = none
popped p order (some []) = some (none, p)
popped p order (some (a ∷ l)) =
    some (some a, record { free_areas = set p.free_areas order l; magic = marked a 0 p.magic })

pub page_pop : ℕ → Pages → Option (Option ℕ × Pages)
page_pop order p = popped p order (get_elem? p.free_areas order)

-- The loop that looks for a block, with `n` orders left above `index`: the block and its order.
abbrev pub found :
    ℕ
    → Option (Option ℕ × Pages)
    → Option (Option (ℕ × ℕ) × Pages)
    → Option (Option (ℕ × ℕ) × Pages)
found index none next = none
found index (some (some a, p)) next = some (some (a, index), p)
found index (some (none, p)) next = next

pub find_zone : ℕ → ℕ → Pages → Option (Option (ℕ × ℕ) × Pages)
unfolding page_pop
find_zone zero index p = found index (page_pop index p) (some (none, p))
find_zone (suc n) index p = found index (page_pop index p) (find_zone n (suc index) p)

-- The loop that gives back the upper halves, from `index - 1` down to `order + 1`, where there are
-- `n` of them.
abbrev pub and_then : {A B : Type 0} → Option A → (A → Option B) → Option B
and_then none f = none
and_then (some a) f = f a

pub give_back : ℕ → ℕ → ℕ → Pages → Option Pages
unfolding page_buddy page_push
give_back zero zone order p = some p
give_back (suc n) zone order p =
    and_then (page_push (page_buddy zone (order + suc n)) (order + suc n) p)
      (give_back n zone order)

-- `--index` of 0 is 2 ^ 16 - 1, an order that no list has.
abbrev pub split_zone : ℕ → Option (ℕ × ℕ) × Pages → Option (Option Page × Pages)
split_zone order (none, p) = some (none, p)
split_zone order (some (zone, index), p) =
    if index == 0
    then none
    else and_then (give_back (index - 1 - order) zone order p)
        (λ p'. some (some (record { addr = zone; order = order }), p'))

-- Where calloc gives the structure.
pub page_alloc : ℕ → Pages → Option (Option Page × Pages)
unfolding find_zone give_back
page_alloc order p =
    if leb max_order order
    then some (none, p)
    else and_then (find_zone (max_order - order) order p) (split_zone order)

-- The loop of `page_free` looks at no other buddy, and ends above the last order.
pub merge_blocks : ℕ → ℕ → ℕ → ℕ → ℕ × ℕ
unfolding page_buddy
merge_blocks zero addr buddy order = (addr, order)
merge_blocks (suc n) addr buddy order =
    let lower = if leb addr buddy then addr else buddy in
    merge_blocks n lower (page_buddy lower (suc order)) (suc order)

pub page_free : Option Page → Pages → Option Pages
unfolding page_buddy page_push merge_blocks
page_free none p = some p
page_free (some page) p =
    let buddy = page_buddy page.addr page.order in
    if p.magic buddy == page_magic
    then (let (addr, order) = merge_blocks (max_order - page.order) page.addr buddy page.order in
        page_push addr order p)
    else page_push page.addr page.order p

pub page_add : ℕ → ℕ → Pages → Option Pages
unfolding page_queue
page_add area order p = if leb max_order order then some p else page_queue area order p

pub page_initialize : Pages → Pages
page_initialize p = record p { free_areas = replicate max_order [] }

-- kernel/mem.c: the RAM of the board, a segment of 64 KB at a time. Whether a segment is found to
-- be bad changes nothing.
pub add_segments : ℕ → ℕ → Pages → Option Pages
unfolding page_add
add_segments zero seg p = some p
add_segments (suc n) seg p =
    and_then (page_add (seg * 2 ^ 16) 6 p) (add_segments n (u16 (seg + 4096)))

pub mem_initialize : ℕ → ℕ → Pages → Option Pages
unfolding add_segments page_initialize
mem_initialize segment count p = add_segments count segment (page_initialize p)
