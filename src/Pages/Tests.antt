-- ===== src/Pages/Tests.antt =====
-- Two segments of memory; a page of 2 KB from a block of 4 KB; and a page that is released.
use i80k.Base.{refl, ℕ, ◌+◌, ◌^◌, ◌≡◌, ◌≢◌, arith, ◌⊎◌, Option, none, some, List, [], ◌∷◌}
use i80k.Pages.{
  Pages, Page, page_magic, page_buddy, page_free, mem_initialize, add_segments, page_add,
  page_queue, page_initialize,
}
use i80k.Pages.Split.{units, HasOrders, OnList}
use i80k.Pages.Alloc.{page_free-freed}

abbrev unmarked : Pages
unmarked = record { free_areas = []; magic = λ a. 0 }

abbrev areas_of : Option Pages → Option (List (List ℕ))
areas_of none = none
areas_of (some p) = some p.free_areas

two_segments :
    areas_of (mem_initialize 4096 2 unmarked)
    ≡ some ([] ∷ [] ∷ [] ∷ [] ∷ [] ∷ [] ∷ (268435456 ∷ 536870912 ∷ []) ∷ [])
unfolding mem_initialize add_segments page_add page_queue page_initialize
two_segments = refl

-- The buddy of 32 KB is in the segment before.
buddy_below : page_buddy 268435456 5 ≡ 268402688
unfolding page_buddy
buddy_below = refl

abbrev one_block : Pages
one_block = record {
  free_areas = [] ∷ [] ∷ (268435456 ∷ []) ∷ [] ∷ [] ∷ [] ∷ [] ∷ [];
  magic = λ a. 0;
}

abbrev small_page : Page
small_page = record { addr = 268435456; order = 1 }

page_free-freed_example :
    ((one_block.magic (page_buddy 268435456 1) ≡ page_magic)
      × (page_free (some small_page) one_block ≡ none))
    ⊎ ((one_block.magic (page_buddy 268435456 1) ≢ page_magic)
        × ((p' : Pages) × (page_free (some small_page) one_block ≡ some p')
            × HasOrders p'
            × (units p' ≡ units one_block + 2 ^ 1)
            × OnList 268435456 1 one_block p'))
page_free-freed_example = page_free-freed small_page one_block refl (omega arith)
