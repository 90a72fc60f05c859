-- ===== src/Links/Rings.antt =====
-- kernel/core/list.h: the nodes of a list in order, as the links tell them.
use i80k.Base.{ap, ℕ, ◌≡◌, ◌≢◌, sym, List, [], ◌∷◌, ◌++◌}
use i80k.Links.{Links}

-- The address is not on the list.
abbrev pub NotIn : ℕ → List ℕ → Type 0
NotIn p [] = Unit {0}
NotIn p (x ∷ xs) = (x ≢ p) × NotIn p xs

abbrev pub Distinct : List ℕ → Type 0
Distinct [] = Unit {0}
Distinct (x ∷ xs) = NotIn x xs × Distinct xs

-- From a node through those of a list to a node, with every link also back.
abbrev pub Steps : Links → ℕ → List ℕ → ℕ → Type 0
Steps m f [] t = (m.next f ≡ t) × (m.prev t ≡ f)
Steps m f (x ∷ xs) t = (m.next f ≡ x) × (m.prev x ≡ f) × Steps m x xs t

-- The list with the head node `list` holds the nodes `xs`, all different.
pub record Ring (m : Links) (list : ℕ) (xs : List ℕ) : Type 0 where
  pub steps : Steps m list xs list
  pub distinct : Distinct (list ∷ xs)

pub Steps-append :
    (m : Links) (f : ℕ) (xs : List ℕ) (e : ℕ) (ys : List ℕ) (t : ℕ)
    → Steps m f xs e
    → Steps m e ys t
    → Steps m f (xs ++ (e ∷ ys)) t
Steps-append m f [] e ys t (n, p) s = (n, p, s)
Steps-append m f (x ∷ xs) e ys t (n, p, r) s = (n, p, Steps-append m x xs e ys t r s)

pub Steps-split :
    (m : Links) (f : ℕ) (xs : List ℕ) (e : ℕ) (ys : List ℕ) (t : ℕ)
    → Steps m f (xs ++ (e ∷ ys)) t
    → Steps m f xs e × Steps m e ys t
Steps-split m f [] e ys t (n, p, s) = ((n, p), s)
Steps-split m f (x ∷ xs) e ys t (n, p, r) =
    let (a, b) = Steps-split m x xs e ys t r in ((n, p, a), b)

pub NotIn-append : (p : ℕ) (xs ys : List ℕ) → NotIn p xs → NotIn p ys → NotIn p (xs ++ ys)
NotIn-append p [] ys a b = b
NotIn-append p (x ∷ xs) ys (ne, a) b = (ne, NotIn-append p xs ys a b)

pub NotIn-split : (p : ℕ) (xs ys : List ℕ) → NotIn p (xs ++ ys) → NotIn p xs × NotIn p ys
NotIn-split p [] ys h = (tt, h)
NotIn-split p (x ∷ xs) ys (ne, h) = let (a, b) = NotIn-split p xs ys h in ((ne, a), b)

-- No node of the one list is on the other.
abbrev pub Apart : List ℕ → List ℕ → Type 0
Apart [] ys = Unit {0}
Apart (x ∷ xs) ys = NotIn x ys × Apart xs ys

pub Distinct-split :
    (xs ys : List ℕ) → Distinct (xs ++ ys) → Distinct xs × Distinct ys × Apart xs ys
Distinct-split [] ys d = (tt, d, tt)
Distinct-split (x ∷ xs) ys (n, d) =
    let (a, b) = NotIn-split x xs ys n in
    let (dx, dy, ap) = Distinct-split xs ys d in ((a, dx), dy, (b, ap))

pub Distinct-append :
    (xs ys : List ℕ) → Distinct xs → Distinct ys → Apart xs ys → Distinct (xs ++ ys)
Distinct-append [] ys dx dy h = dy
Distinct-append (x ∷ xs) ys (n, dx) dy (b, h) =
    (NotIn-append x xs ys n b, Distinct-append xs ys dx dy h)

Apart-cons : (xs : List ℕ) (y : ℕ) (ys : List ℕ) → NotIn y xs → Apart xs ys → Apart xs (y ∷ ys)
Apart-cons [] y ys n h = tt
Apart-cons (x ∷ xs) y ys (ne, n) (b, h) = ((λ e. ne (sym e), b), Apart-cons xs y ys n h)

pub Apart-sym : (xs ys : List ℕ) → Apart xs ys → Apart ys xs
Apart-sym [] ys h = Apart-nil ys
  where
    Apart-nil : (zs : List ℕ) → Apart zs []
    Apart-nil [] = tt
    Apart-nil (z ∷ zs) = (tt, Apart-nil zs)
Apart-sym (x ∷ xs) ys (n, h) = Apart-cons ys x xs n (Apart-sym xs ys h)

-- A list seen from another of its nodes.
pub Ring-rotate :
    (m : Links) (list e : ℕ) (xs ys : List ℕ)
    → Ring m list (xs ++ (e ∷ ys))
    → Ring m e (ys ++ (list ∷ xs))
Ring-rotate m list e xs ys r =
    let (there, back) = Steps-split m list xs e ys list r.steps in
    let (dx, dy, h) = Distinct-split (list ∷ xs) (e ∷ ys) r.distinct in
    record {
      steps = Steps-append m e ys list xs e back there;
      distinct = Distinct-append (e ∷ ys) (list ∷ xs) dy dx (Apart-sym (list ∷ xs) (e ∷ ys) h);
    }
