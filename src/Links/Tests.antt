-- ===== src/Links/Tests.antt =====
-- A list with its head at 10 and the nodes 20 and 30.
use i80k.Base.{◌≡◌, refl, arith, false, some, [], ◌∷◌}
use i80k.Links.{
  Links, list_initialize, list_add_tail, list_delete, list_in_list, list_prev_wrap, list_next_wrap,
  list_peek_tail,
}
use i80k.Links.Rings.{Ring}
use i80k.Links.Insert.{list_initialize-Ring, list_add_tail-Ring, add_before-Ring}
use i80k.Links.Delete.{list_delete-Ring}

abbrev blank : Links
blank = record { prev = λ p. 0; next = λ p. 0 }

abbrev one_node : Links
one_node = list_add_tail 10 20 (list_initialize 10 blank)

abbrev two_nodes : Links
two_nodes = list_add_tail 10 30 one_node

one_node-Ring : Ring one_node 10 (20 ∷ [])
one_node-Ring =
    list_add_tail-Ring (list_initialize 10 blank) 10 20 [] (list_initialize-Ring blank 10)
      (omega arith, tt)

two_nodes-Ring : Ring two_nodes 10 (20 ∷ 30 ∷ [])
two_nodes-Ring =
    list_add_tail-Ring one_node 10 30 (20 ∷ []) one_node-Ring (omega arith, (omega arith, tt))

wraps : (list_next_wrap 10 30 two_nodes ≡ some 20) × (list_prev_wrap 10 20 two_nodes ≡ some 30)
unfolding list_initialize list_add_tail list_next_wrap list_prev_wrap
wraps = (refl, refl)

last_one : list_peek_tail 10 two_nodes ≡ some 30
unfolding list_initialize list_add_tail list_peek_tail
last_one = refl

add_before-Ring_example : Ring (list_add_tail 30 25 two_nodes) 10 (20 ∷ 25 ∷ 30 ∷ [])
add_before-Ring_example =
    add_before-Ring two_nodes 10 30 25 (20 ∷ []) [] two_nodes-Ring
      (omega arith, (omega arith, (omega arith, tt)))

list_delete-Ring_example :
    Ring (list_delete 20 two_nodes) 10 (30 ∷ [])
    × (list_in_list 20 (list_delete 20 two_nodes) ≡ false)
list_delete-Ring_example = list_delete-Ring two_nodes 10 20 [] (30 ∷ []) two_nodes-Ring
