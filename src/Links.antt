-- ===== src/Links.antt =====
-- kernel/core/list.h: circular lists through the `prev` and `next` of nodes.
--
-- A node is known by its address, and the address of a structure is that of its node. 0 is null.
pub mod Rings
pub mod Insert
pub mod Delete
mod Tests
use i80k.Base.{
  ℕ, zero, suc, ◌+◌, Bool, true, false, not, ◌&&◌, Option, none, some, ◌==◌, if◌then◌else◌,
}

-- The links of all nodes.
pub record Links : Type 0 where
  pub prev : ℕ → ℕ
  pub next : ℕ → ℕ

abbrev pub store : ℕ → ℕ → (ℕ → ℕ) → ℕ → ℕ
store a v f q = if q == a then v else f q

abbrev pub set_prev : ℕ → ℕ → Links → Links
set_prev a v m = record m { prev = store a v m.prev }

abbrev pub set_next : ℕ → ℕ → Links → Links
set_next a v m = record m { next = store a v m.next }

pub list_initialize : ℕ → Links → Links
list_initialize list m = set_next list list (set_prev list list m)

pub list_clear_node : ℕ → Links → Links
list_clear_node item m = set_next item 0 (set_prev item 0 m)

pub list_in_list : ℕ → Links → Bool
list_in_list item m = not ((m.prev item == 0) && (m.next item == 0))

-- Each `let` is a statement.
pub list_add_head : ℕ → ℕ → Links → Links
list_add_head list item m =
    let m1 = set_next item (m.next list) m in
    let m2 = set_prev item list m1 in
    let m3 = set_prev (m2.next list) item m2 in set_next list item m3

pub list_add_tail : ℕ → ℕ → Links → Links
list_add_tail list item m =
    let m1 = set_prev item (m.prev list) m in
    let m2 = set_next item list m1 in
    let m3 = set_next (m2.prev list) item m2 in set_prev list item m3

pub list_delete : ℕ → Links → Links
unfolding list_clear_node
list_delete item m =
    let m1 = set_prev (m.next item) (m.prev item) m in
    let m2 = set_next (m1.prev item) (m1.next item) m1 in list_clear_node item m2

pub list_peek_head : ℕ → Links → Option ℕ
list_peek_head list m = if m.next list == list then none else some (m.next list)

pub list_peek_tail : ℕ → Links → Option ℕ
list_peek_tail list m = if m.prev list == list then none else some (m.prev list)

pub list_remove_head : ℕ → Links → Option ℕ × Links
unfolding list_delete
list_remove_head list m =
    let item = m.next list in if item == list then (none, m) else (some item, list_delete item m)

pub list_remove_tail : ℕ → Links → Option ℕ × Links
unfolding list_delete
list_remove_tail list m =
    let item = m.prev list in if item == list then (none, m) else (some item, list_delete item m)

pub list_prev : ℕ → ℕ → Links → Option ℕ
list_prev list item m = if m.prev item == list then none else some (m.prev item)

pub list_prev_wrap : ℕ → ℕ → Links → Option ℕ
list_prev_wrap list item m =
    if not (m.prev item == list)
    then some (m.prev item)
    else if not (m.prev (m.prev item) == list)
    then some (m.prev (m.prev item))
    else none

pub list_next : ℕ → ℕ → Links → Option ℕ
list_next list item m = if m.next item == list then none else some (m.next item)

pub list_next_wrap : ℕ → ℕ → Links → Option ℕ
list_next_wrap list item m =
    if not (m.next item == list)
    then some (m.next item)
    else if not (m.next (m.next item) == list)
    then some (m.next (m.next item))
    else none

pub list_is_empty : ℕ → Links → Bool
list_is_empty list m = m.next list == list

-- The loop of `list_for_every` as `list_length` runs it, on fuel.
pub count_nodes : ℕ → ℕ → ℕ → ℕ → Links → Option ℕ
count_nodes zero list node cnt m = none
count_nodes (suc fuel) list node cnt m =
    let rest = count_nodes fuel list (m.next node) (cnt + 1) m in
    if node == list then some cnt else rest

pub list_length : ℕ → ℕ → Links → Option ℕ
unfolding count_nodes
list_length fuel list m = count_nodes fuel list (m.next list) 0 m
