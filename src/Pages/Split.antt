-- ===== src/Pages/Split.antt =====
-- kernel/page.c: how much memory is free before and after.
use i80k.Base.{
  ==_self, ==_of_ne, ap, refl, ℕ, ◌≢◌, zero, suc, ◌+◌, ◌*◌, ◌^◌, ◌≡◌, ◌<◌, ◌∙◌, arith, Option, none,
  some, List, [], ◌∷◌, length, get_elem?, set, length-set,
}
use i80k.Pages.{Pages, max_order, page_magic, marked, pushed, popped, page_push, page_pop}

-- The free memory, in blocks of the least order.
abbrev pub units_from : ℕ → List (List ℕ) → ℕ
units_from i [] = 0
units_from i (l ∷ ls) = length l * 2 ^ i + units_from (suc i) ls

abbrev pub units : Pages → ℕ
units p = units_from 0 p.free_areas

get_elem?_below :
    (ls : List (List ℕ)) (k : ℕ) → k < length ls → (l : List ℕ) × (get_elem? ls k ≡ some l)
get_elem?_below [] k h = absurd (omega (arith, h))
get_elem?_below (l ∷ ls) zero h = (l, refl)
get_elem?_below (l ∷ ls) (suc k) h = get_elem?_below ls k (omega arith)

-- A list that grows or shrinks by one block.
units-set :
    (i : ℕ) (ls : List (List ℕ)) (k : ℕ) (l l' : List ℕ)
    → get_elem? ls k ≡ some l
    → length l' ≡ suc (length l)
    → units_from i (set ls k l') ≡ units_from i ls + 2 ^ (i + k)
units-set i [] k l l' e more = absurd cc
units-set i (x ∷ ls) zero l l' e more =
    let same : length x ≡ length l = ap length {x = x} {y = l} cc in
    let one : length l' ≡ length x + 1 = omega (arith, more, same) in
    let at : i + 0 ≡ i = omega arith in
    omega (arith, ap (λ (n : ℕ). n * 2 ^ i) one, ap (λ (n : ℕ). 2 ^ n) at)
units-set i (x ∷ ls) (suc k) l l' e more =
    let at : suc i + k ≡ i + suc k = omega arith in
    omega (arith, units-set (suc i) ls k l l' e more, ap (λ (n : ℕ). 2 ^ n) at)

units-set_less :
    (i : ℕ) (ls : List (List ℕ)) (k : ℕ) (l l' : List ℕ)
    → get_elem? ls k ≡ some l
    → length l ≡ suc (length l')
    → units_from i (set ls k l') + 2 ^ (i + k) ≡ units_from i ls
units-set_less i [] k l l' e less = absurd cc
units-set_less i (x ∷ ls) zero l l' e less =
    let same : length x ≡ length l = ap length {x = x} {y = l} cc in
    let one : length x ≡ length l' + 1 = omega (arith, less, same) in
    let at : i + 0 ≡ i = omega arith in
    omega (arith, ap (λ (n : ℕ). n * 2 ^ i) one, ap (λ (n : ℕ). 2 ^ n) at)
units-set_less i (x ∷ ls) (suc k) l l' e less =
    let at : suc i + k ≡ i + suc k = omega arith in
    omega (arith, units-set_less (suc i) ls k l l' e less, ap (λ (n : ℕ). 2 ^ n) at)

-- The array has a list for every order.
abbrev pub HasOrders : Pages → Type 0
HasOrders p = length p.free_areas ≡ max_order

pub get_elem?-set_self :
    (ls : List (List ℕ)) (k : ℕ) (l l' : List ℕ)
    → get_elem? ls k ≡ some l
    → get_elem? (set ls k l') k ≡ some l'
get_elem?-set_self [] k l l' e = absurd cc
get_elem?-set_self (x ∷ ls) zero l l' e = refl
get_elem?-set_self (x ∷ ls) (suc k) l l' e = get_elem?-set_self ls k l l' e

pub get_elem?-set_other :
    (ls : List (List ℕ)) (k j : ℕ) (l : List ℕ) → j ≢ k → get_elem? (set ls k l) j ≡ get_elem? ls j
get_elem?-set_other [] k j l ne = refl
get_elem?-set_other (x ∷ ls) zero zero l ne = absurd (ne refl)
get_elem?-set_other (x ∷ ls) zero (suc j) l ne = refl
get_elem?-set_other (x ∷ ls) (suc k) zero l ne = refl
get_elem?-set_other (x ∷ ls) (suc k) (suc j) l ne =
    get_elem?-set_other ls k j l (λ e. ne (ap suc e))

-- A block that was put on a list: it is the first of that list and is marked; all else is as before.
pub record OnList (a k : ℕ) (p p' : Pages) : Type 0 where
  pub below : List ℕ
  pub before : get_elem? p.free_areas k ≡ some below
  pub first : get_elem? p'.free_areas k ≡ some (a ∷ below)
  pub others : (j : ℕ) → j ≢ k → get_elem? p'.free_areas j ≡ get_elem? p.free_areas j
  pub is_marked : p'.magic a ≡ page_magic
  pub other_marks : (q : ℕ) → q ≢ a → p'.magic q ≡ p.magic q

pub page_push-units :
    (a k : ℕ) (p : Pages)
    → HasOrders p
    → k < max_order
    → (p' : Pages) × (page_push a k p ≡ some p')
      × HasOrders p'
      × (units p' ≡ units p + 2 ^ k)
      × OnList a k p p'
unfolding page_push
page_push-units a k p h lt =
    let (l, e) = get_elem?_below p.free_areas k (omega (arith, h, lt)) in
    (
      record { free_areas = set p.free_areas k (a ∷ l); magic = marked a page_magic p.magic },
      ap (pushed p a k) e,
      length-set p.free_areas k (a ∷ l) ∙ h,
      units-set 0 p.free_areas k l (a ∷ l) e refl
          ∙ ap (λ n. units p + 2 ^ n) {x = 0 + k} {y = k} (omega arith),
      record {
        below = l;
        before = e;
        first = get_elem?-set_self p.free_areas k l (a ∷ l) e;
        others = λ j ne. get_elem?-set_other p.free_areas k j (a ∷ l) ne;
        is_marked = rw (==_self a) refl;
        other_marks = λ q ne. rw (==_of_ne q a ne) refl;
      },
    )

-- What popping an order that there is finds.
pub data Popped (k : ℕ) (p : Pages) : Option (Option ℕ × Pages) → Type 0 where
  nothing : get_elem? p.free_areas k ≡ some [] → Popped k p (some (none, p))
  block :
      (a : ℕ) (l : List ℕ) (p' : Pages)
      → get_elem? p.free_areas k ≡ some (a ∷ l)
      → HasOrders p'
      → units p' + 2 ^ k ≡ units p
      → Popped k p (some (some a, p'))

popped-Popped :
    (k : ℕ) (p : Pages) (l : List ℕ)
    → HasOrders p
    → get_elem? p.free_areas k ≡ some l
    → Popped k p (popped p k (some l))
popped-Popped k p [] h e = nothing e
popped-Popped k p (a ∷ l) h e =
    block a l (record { free_areas = set p.free_areas k l; magic = marked a 0 p.magic }) e
      (length-set p.free_areas k l ∙ h)
      (ap (λ n. units_from 0 (set p.free_areas k l) + 2 ^ n) {x = k} {y = 0 + k} (omega arith)
        ∙ units-set_less 0 p.free_areas k (a ∷ l) l e refl)

pub page_pop-Popped : (k : ℕ) (p : Pages) → HasOrders p → k < max_order → Popped k p (page_pop k p)
unfolding page_pop
page_pop-Popped k p h lt =
    let (l, e) = get_elem?_below p.free_areas k (omega (arith, h, lt)) in
    rw e (popped-Popped k p l h e)
