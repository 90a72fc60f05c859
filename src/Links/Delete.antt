-- ===== src/Links/Delete.antt =====
-- kernel/core/list.h: a node is taken off a list, and the nodes of a list are counted.
use i80k.Base.{
  ap, subst, sym, refl, arith, ℕ, zero, suc, ◌+◌, ◌<◌, ◌≡◌, ◌≢◌, ◌∙◌, false, Option, none, some,
  List, [], ◌∷◌, ◌++◌, append-nil, length, ◌==◌, ==_of_ne, ==_self,
}
use i80k.Links.{
  Links, store, list_delete, list_clear_node, list_in_list, list_remove_head, list_length,
  count_nodes,
}
use i80k.Links.Rings.{NotIn, Distinct, Steps, Ring, Ring-rotate}
use i80k.Links.Insert.{last_ne, flip}

-- The neighbours of a node joined, and the node cleared.
abbrev without : ℕ → ℕ → ℕ → Links → Links
without a w item m = record {
  prev = store item 0 (store w a m.prev);
  next = store item 0 (store a w m.next);
}

unlink :
    (m : Links) (w item x : ℕ) (xs : List ℕ)
    → Steps m x xs item
    → Distinct (x ∷ xs)
    → NotIn item (x ∷ xs)
    → NotIn w xs
    → w ≢ item
    → Steps (without (m.prev item) w item m) x xs w
unlink m w item x [] (n, b) d (ne, h) wx apart = (
  rw (==_of_ne x item ne, ap (λ p. x == p) b ∙ ==_self x) refl,
  rw (==_of_ne w item apart, ==_self w) b,
)
unlink m w item x (y ∷ ys) (n, b, s) (nx, d) (ne, h) (wy, off) apart =
    let last = last_ne m y ys item x s nx in
    (
      rw (==_of_ne x item ne, ==_of_ne x (m.prev item) (flip last)) n,
      rw (==_of_ne y item h.0, ==_of_ne y w wy) b,
      unlink m w item y ys s d h off apart,
    )

-- Seen from the node, what is left is the list of its next node.
delete_seen :
    (m : Links) (item w : ℕ) (ws : List ℕ) → Ring m item (w ∷ ws) → Ring (list_delete item m) w ws
unfolding list_delete list_clear_node
delete_seen m item w ws r =
    let (n, b, s) = r.steps in
    let ((ne, off), (d, rest)) = r.distinct in
    let free : NotIn item (w ∷ ws) = (ne, off) in
    rw (n, ==_of_ne item w (flip ne))
      record { steps = unlink m w item w ws s (d, rest) free d ne; distinct = (d, rest) }

-- A node of a list that is deleted leaves the others in their order, and is on no list.
pub list_delete-Ring :
    (m : Links) (list item : ℕ) (ys zs : List ℕ)
    → Ring m list (ys ++ (item ∷ zs))
    → Ring (list_delete item m) list (ys ++ zs) × (list_in_list item (list_delete item m) ≡ false)
unfolding list_delete list_clear_node list_in_list
list_delete-Ring m list item ys zs r =
    (left zs (Ring-rotate m list item ys zs r), rw (==_self item) refl)
  where
    left :
        (ws : List ℕ) → Ring m item (ws ++ (list ∷ ys)) → Ring (list_delete item m) list (ys ++ ws)
    left [] seen =
        subst (λ ns. Ring (list_delete item m) list ns) (sym (append-nil ys))
          (delete_seen m item list ys seen)
    left (w ∷ ws) seen =
        Ring-rotate (list_delete item m) w list ws ys
          (delete_seen m item w (ws ++ (list ∷ ys)) seen)

abbrev first : List ℕ → Option ℕ
first [] = none
first (x ∷ xs) = some x

abbrev rest_of : List ℕ → List ℕ
rest_of [] = []
rest_of (x ∷ xs) = xs

-- Removing the head takes the first node of a list off it, and nothing off an empty one.
pub list_remove_head-Ring :
    (m : Links) (list : ℕ) (xs : List ℕ)
    → Ring m list xs
    → ((list_remove_head list m).0 ≡ first xs) × Ring (list_remove_head list m).1 list (rest_of xs)
unfolding list_remove_head
list_remove_head-Ring m list [] r = rw (r.steps.0, ==_self list) (refl, r)
list_remove_head-Ring m list (x ∷ xs) r =
    rw (r.steps.0, ==_of_ne x list r.distinct.0.0) (refl, (list_delete-Ring m list x [] xs r).0)

-- Walking a list meets each of its nodes once.
count_nodes-Steps :
    (m : Links) (list f : ℕ) (xs : List ℕ) (fuel cnt : ℕ)
    → Steps m f xs list
    → NotIn list xs
    → length xs < fuel
    → count_nodes fuel list (m.next f) cnt m ≡ some (cnt + length xs)
unfolding count_nodes
count_nodes-Steps m list f xs zero cnt s off h = ground arith
count_nodes-Steps m list f [] (suc fuel) cnt s off h =
    rw (s.0, ==_self list) (ap some (omega arith))
count_nodes-Steps m list f (x ∷ xs) (suc fuel) cnt s off h =
    let rest : count_nodes fuel list (m.next x) (cnt + 1) m ≡ some ((cnt + 1) + length xs) =
      count_nodes-Steps m list x xs fuel (cnt + 1) s.2 off.1 (omega arith) in
    rw (s.0, ==_of_ne x list off.0) (rest ∙ ap some (omega arith))

-- The length of a list is the number of its nodes, on any fuel beyond that.
list_length-Ring :
    (m : Links) (list : ℕ) (xs : List ℕ) (fuel : ℕ)
    → Ring m list xs
    → length xs < fuel
    → list_length fuel list m ≡ some (length xs)
unfolding list_length
list_length-Ring m list xs fuel r h =
    count_nodes-Steps m list list xs fuel 0 r.steps r.distinct.0 h ∙ ap some (omega arith)
