-- ===== src/Mounts/Prefix.antt =====
-- kernel/core/fs.c: `find_mount` cuts a path only where a field of it ends.
use i80k.Base.{
  subst, ap, ℕ, ◌≡◌, refl, ◌∙◌, Bool, true, false, Option, none, some, List, [], ◌∷◌, ◌++◌,
  append-nil, ◌==◌, if◌then◌else◌, eq_of_==,
}
use i80k.Mounts.{FsMount, strip, trimmed_path, or_later, search}

-- What a mount's path leaves of a path: all of it, or a path from a separator on.
pub data Under (path : List ℕ) : List ℕ → List ℕ → Type 0 where
  whole : {mount : List ℕ} → path ≡ mount → Under path mount (b'/' ∷ [])
  part : {mount rest : List ℕ} → path ≡ mount ++ (b'/' ∷ rest) → Under path mount (b'/' ∷ rest)

strip-append : (mount path rest : List ℕ) → strip mount path ≡ some rest → path ≡ mount ++ rest
unfolding strip
strip-append [] path rest e = cc
strip-append (c ∷ cs) [] rest e = absurd cc
strip-append (c ∷ cs) (d ∷ ds) rest e =
    by_test (d == c) refl e (λ later. strip-append cs ds rest later)
  where
    by_test :
        (b : Bool)
        → (d == c) ≡ b
        → (if b then strip cs ds else none) ≡ some rest
        → (strip cs ds ≡ some rest → ds ≡ cs ++ rest)
        → (d ∷ ds) ≡ (c ∷ cs) ++ rest
    by_test true same e ind = ap (λ x. x ∷ ds) (eq_of_== d c same) ∙ ap (λ l. c ∷ l) (ind e)
    by_test false same e ind = absurd cc

trimmed_path-Under :
    (mount path rest : List ℕ) (stripped : Option (List ℕ))
    → strip mount path ≡ stripped
    → trimmed_path stripped ≡ some rest
    → Under path mount rest
trimmed_path-Under mount path rest none s e = absurd cc
trimmed_path-Under mount path rest (some []) s e =
    let r : (b'/' ∷ []) ≡ rest = cc in
    subst (Under path mount) r (whole (strip-append mount path [] s ∙ append-nil mount))
trimmed_path-Under mount path rest (some (c ∷ cs)) s e = by_test (c == b'/') refl e
  where
    by_test :
        (b : Bool)
        → (c == b'/') ≡ b
        → (if b then some (c ∷ cs) else none) ≡ some rest
        → Under path mount rest
    by_test true same e =
        let slash = eq_of_== c b'/' same in
        let r : (b'/' ∷ cs) ≡ rest = cc in
        subst (Under path mount) r
          (part (strip-append mount path (c ∷ cs) s ∙ ap (λ x. mount ++ (x ∷ cs)) slash))
    by_test false same e = absurd cc

-- A path is on the mount that is found for it: it is the mount's own or goes on with a separator
-- after it. The file system gets the rest of it, and "/" for the mount itself.
pub search-Under :
    {D : Type 0} (path : List ℕ) (ms : List (FsMount D)) (m : FsMount D) (rest : List ℕ)
    → search path ms ≡ some (m, rest)
    → Under path m.path rest
unfolding search
search-Under path [] m rest e = absurd cc
search-Under {D = D} path (x ∷ ms) m rest e =
    by_strip (trimmed_path (strip x.path path)) refl e (λ later. search-Under path ms m rest later)
  where
    by_strip :
        (t : Option (List ℕ))
        → trimmed_path (strip x.path path) ≡ t
        → or_later x t (search path ms) ≡ some (m, rest)
        → (search path ms ≡ some (m, rest) → Under path m.path rest)
        → Under path m.path rest
    by_strip none same e ind = ind e
    by_strip (some r) same e ind =
        let mount : x ≡ m = cc in
        let left : r ≡ rest = cc in
        subst (λ y. Under path y rest) (ap (λ (y : FsMount D). y.path) mount)
          (subst (Under path x.path) left
            (trimmed_path-Under x.path path r (strip x.path path) refl same))
