-- ===== src/Links/Insert.antt =====
-- kernel/core/list.h: a node is added to a list.
use i80k.Base.{
  ap, ℕ, ◌≡◌, ◌≢◌, refl, sym, ◌∙◌, subst, List, [], ◌∷◌, ◌++◌, append_assoc, ◌==◌, ==_of_ne,
  ==_self,
}
use i80k.Links.{Links, store, list_initialize, list_add_head, list_add_tail}
use i80k.Links.Rings.{
  NotIn, Distinct, Steps, Ring, Steps-append, NotIn-append, NotIn-split, Distinct-append, Apart,
  Ring-rotate,
}

-- The node between two neighbours.
abbrev between : ℕ → ℕ → ℕ → Links → Links
between a b item m = record {
  prev = store b item (store item a m.prev);
  next = store a item (store item b m.next);
}

-- The last of the nodes is none that stands before them.
pub last_ne :
    (m : Links) (f : ℕ) (xs : List ℕ) (t p : ℕ) → Steps m f xs t → NotIn p (f ∷ xs) → m.prev t ≢ p
last_ne m f [] t p (n, b) (ne, h) e = ne (sym b ∙ e)
last_ne m f (x ∷ xs) t p (n, b, s) (ne, h) e = last_ne m x xs t p s h e

pub flip : {a b : ℕ} → a ≢ b → b ≢ a
flip ne e = ne (sym e)

relink :
    (m : Links) (f : ℕ) (xs : List ℕ) (t item : ℕ)
    → Steps m f xs t
    → Distinct (f ∷ xs)
    → NotIn item (f ∷ xs)
    → NotIn t xs
    → item ≢ t
    → Steps (between (m.prev t) t item m) f xs item
relink m f [] t item (n, b) d (ne, h) off apart =
    (rw (ap (λ p. f == p) b ∙ ==_self f) refl, rw (==_of_ne item t apart, ==_self item) b)
relink m f (x ∷ xs) t item (n, b, s) (nf, d) (ne, h) (xt, off) apart =
    let last = last_ne m x xs t f s nf in
    (
      rw (==_of_ne f (m.prev t) (flip last), ==_of_ne f item ne) n,
      rw (==_of_ne x t xt, ==_of_ne x item h.0) b,
      relink m x xs t item s d h off apart,
    )

between-Ring :
    (m : Links) (list item : ℕ) (xs : List ℕ)
    → Ring m list xs
    → NotIn item (list ∷ xs)
    → Ring (between (m.prev list) list item m) list (xs ++ (item ∷ []))
between-Ring m list item xs r fresh =
    let (ne, off) = fresh in
    let m' = between (m.prev list) list item m in
    let last = last_ne m list xs list item r.steps fresh in
    let after : m'.next item ≡ list =
      rw (==_of_ne item (m.prev list) (flip last), ==_self item) refl in
    let before : m'.prev list ≡ item = rw (==_self list) refl in
    record {
      steps =
          Steps-append m' list xs item [] list
            (relink m list xs list item r.steps r.distinct fresh r.distinct.0 (flip ne))
            (after, before);
      distinct = (
        NotIn-append list xs (item ∷ []) r.distinct.0 (flip ne, tt),
        Distinct-append xs (item ∷ []) r.distinct.1 (tt, tt) (single xs off),
      );
    }
  where
    single : (ys : List ℕ) → NotIn item ys → Apart ys (item ∷ [])
    single [] h = tt
    single (y ∷ ys) (n, h) = ((flip n, tt), single ys h)

-- An initialised list is empty.
pub list_initialize-Ring : (m : Links) (list : ℕ) → Ring (list_initialize list m) list []
unfolding list_initialize
list_initialize-Ring m list = record {
  steps = (rw (==_self list) refl, rw (==_self list) refl);
  distinct = (tt, tt);
}

-- A node added at the tail is the last one.
pub list_add_tail-Ring :
    (m : Links) (list item : ℕ) (xs : List ℕ)
    → Ring m list xs
    → NotIn item (list ∷ xs)
    → Ring (list_add_tail list item m) list (xs ++ (item ∷ []))
unfolding list_add_tail
list_add_tail-Ring m list item xs r fresh =
    rw (==_of_ne list item fresh.0) (between-Ring m list item xs r fresh)

-- Adding in front of an entry, which is adding at the tail of the list seen from it.
pub add_before-Ring :
    (m : Links) (list e item : ℕ) (ys zs : List ℕ)
    → Ring m list (ys ++ (e ∷ zs))
    → NotIn item (list ∷ (ys ++ (e ∷ zs)))
    → Ring (list_add_tail e item m) list (ys ++ (item ∷ (e ∷ zs)))
add_before-Ring m list e item ys zs r (ne, fresh) =
    let (off_ys, (off_e, off_zs)) = NotIn-split item ys (e ∷ zs) fresh in
    let m' = list_add_tail e item m in
    let seen : Ring m' e ((zs ++ (list ∷ ys)) ++ (item ∷ [])) =
      list_add_tail-Ring m e item (zs ++ (list ∷ ys)) (Ring-rotate m list e ys zs r)
        (off_e, NotIn-append item zs (list ∷ ys) off_zs (ne, off_ys)) in
    let split : Ring m' e (zs ++ (list ∷ (ys ++ (item ∷ [])))) =
      subst (λ ns. Ring m' e ns) (append_assoc zs (list ∷ ys) (item ∷ [])) seen in
    subst (λ ns. Ring m' list ns) (append_assoc ys (item ∷ []) (e ∷ zs))
      (Ring-rotate m' e list zs (ys ++ (item ∷ [])) split)

-- Adding at the head of a list is adding at the tail of the list seen from its first entry.
head-tail :
    (m : Links) (list item x : ℕ)
    → list ≢ item
    → x ≢ item
    → m.next list ≡ x
    → m.prev x ≡ list
    → list_add_head list item m ≡ list_add_tail x item m
unfolding list_add_head list_add_tail
head-tail m list item x ne other n p = rw (==_of_ne list item ne, n, ==_of_ne x item other, p) refl

-- A node added at the head is the first one.
list_add_head-Ring :
    (m : Links) (list item : ℕ) (xs : List ℕ)
    → Ring m list xs
    → NotIn item (list ∷ xs)
    → Ring (list_add_head list item m) list (item ∷ xs)
list_add_head-Ring m list item [] r fresh =
    let (n, p) = r.steps in
    subst (λ m'. Ring m' list (item ∷ [])) (sym (head-tail m list item list fresh.0 fresh.0 n p))
      (list_add_tail-Ring m list item [] r fresh)
list_add_head-Ring m list item (x ∷ xs) r fresh =
    let (n, p, s) = r.steps in
    subst (λ m'. Ring m' list (item ∷ (x ∷ xs)))
      (sym (head-tail m list item x fresh.0 fresh.1.0 n p))
      (add_before-Ring m list x item [] xs r fresh)
