-- ===== src/Pages/Alloc.antt =====
-- kernel/page.c: what an allocation gives and what it loses, and what a release gives back.
use i80k.Base.{
  ap, refl, ℕ, zero, suc, ◌+◌, ◌-◌, ◌^◌, ◌≡◌, ◌≢◌, ◌≤◌, ◌<◌, ◌∙◌, inl, inr, ◌⊎◌, arith, false,
  Option, none, some, List, [], ◌∷◌, ◌==◌, leb, if◌then◌else◌, length, get_elem?, Bool-split,
  eq_of_==,
}
use i80k.Pages.{
  Pages, Page, max_order, page_magic, pushed, page_push, page_buddy, merge_blocks, page_free,
}
use i80k.Pages.Split.{units, HasOrders, OnList, page_push-units}

-- The lists of all orders from `lo` on are empty.
abbrev pub NoneFrom : Pages → ℕ → Type 0
NoneFrom p lo = (k : ℕ) → lo ≤ k → k < max_order → get_elem? p.free_areas k ≡ some []

-- The least order from `lo` on whose list is not empty is `k`, and `zone` is the first of that list.
abbrev pub FirstAt : Pages → ℕ → ℕ → ℕ → Type 0
FirstAt p lo k zone =
    ((j : ℕ) → lo ≤ j → j < k → get_elem? p.free_areas j ≡ some [])
    × ((l : List ℕ) × (get_elem? p.free_areas k ≡ some (zone ∷ l)))

data Found (p : Pages) (lo : ℕ) : Option (Option (ℕ × ℕ) × Pages) → Type 0 where
  leaves : NoneFrom p lo → Found p lo none
  at_order :
      (zone k : ℕ) (p' : Pages)
      → lo ≤ k
      → k < max_order
      → FirstAt p lo k zone
      → HasOrders p'
      → units p' + 2 ^ k ≡ units p
      → Found p lo (some (some (zone, k), p'))

get_elem?_past : (ls : List (List ℕ)) (k : ℕ) → length ls ≤ k → get_elem? ls k ≡ none
get_elem?_past [] k h = refl
get_elem?_past (l ∷ ls) zero h = absurd (omega (arith, h))
get_elem?_past (l ∷ ls) (suc k) h = get_elem?_past ls k (omega arith)

-- What an allocation of an order below the last comes to.
pub data Allocated (order : ℕ) (p : Pages) : Option (Option Page × Pages) → Type 0 where
  -- Without a block of the order or above, the code leaves its lists.
  no_memory : NoneFrom p order → Allocated order p none
  -- A block of the least order is asked for and is on its list: the code leaves its lists.
  least : (zone : ℕ) → order ≡ 0 → FirstAt p order 0 zone → Allocated order p none
  -- The first block of just the order.
  whole :
      (zone : ℕ) (p' : Pages)
      → FirstAt p order order zone
      → HasOrders p'
      → units p' + 2 ^ order ≡ units p
      → Allocated order p (some (some (record { addr = zone; order = order }), p'))
  -- The first block of the least larger order that has one, of which the start is given and as much
  -- is lost.
  halved :
      (zone k : ℕ) (p' : Pages)
      → order < k
      → FirstAt p order k zone
      → HasOrders p'
      → units p' + 2 ^ order + 2 ^ order ≡ units p
      → Allocated order p (some (some (record { addr = zone; order = order }), p'))

merge_blocks_order : (n addr buddy order : ℕ) → (merge_blocks n addr buddy order).1 ≡ n + order
unfolding merge_blocks
merge_blocks_order zero addr buddy order = omega arith
merge_blocks_order (suc n) addr buddy order =
    merge_blocks_order n (if leb addr buddy then addr else buddy)
      (page_buddy (if leb addr buddy then addr else buddy) (suc order)) (suc order)
    ∙ omega arith

page_push-past : (a k : ℕ) (p : Pages) → HasOrders p → max_order ≤ k → page_push a k p ≡ none
unfolding page_push
page_push-past a k p h le = ap (pushed p a k) (get_elem?_past p.free_areas k (omega (arith, h)))

ne_of_== : (m n : ℕ) → (m == n) ≡ false → m ≢ n
ne_of_== m n e same = ground arith

-- A page of an order below the last, on lists for all orders: if the word at the place of its
-- buddy is not the mark of a free block, the page becomes the first of the list of its order, the
-- other lists and marks are as before, and all its memory is free again; if it is, the code leaves
-- the array of its lists.
pub page_free-freed :
    (page : Page) (p : Pages)
    → HasOrders p
    → page.order < max_order
    → ((p.magic (page_buddy page.addr page.order) ≡ page_magic) × (page_free (some page) p ≡ none))
      ⊎ ((p.magic (page_buddy page.addr page.order) ≢ page_magic)
          × ((p' : Pages) × (page_free (some page) p ≡ some p')
              × HasOrders p'
              × (units p' ≡ units p + 2 ^ page.order)
              × OnList page.addr page.order p p'))
unfolding page_free
page_free-freed page p h lt =
    let buddy = page_buddy page.addr page.order in
    elim (Bool-split (p.magic buddy == page_magic)) [
      | inl e ↦
          let n = max_order - page.order in
          let (addr, order) = merge_blocks n page.addr buddy page.order in
          inl (
            eq_of_== (p.magic buddy) page_magic e,
            rw e (
                page_push-past addr order p h
                  (omega (arith, merge_blocks_order n page.addr buddy page.order, lt))),
          )
      | inr e ↦
          let (p', push, h', sum, placed) = page_push-units page.addr page.order p h lt in
          inr (ne_of_== (p.magic buddy) page_magic e, (p', rw e push, h', sum, placed))
    ]
