-- ===== src/Descriptors/Slots.antt =====
-- kernel/core/task.c: which descriptor is given out, and what the others are after.
use i80k.Base.{
  subst, ap, ℕ, zero, suc, ◌≡◌, ◌≢◌, refl, sym, ◌∙◌, true, false, Option, none, some, List, [], ◌∷◌,
  ◌++◌, get_elem?, length, Bool-split, inl, inr,
}
use i80k.Base.Word.{ok}
use i80k.Descriptors.{
  DescKind, Descriptor, is_unset, desc_unset, desc_file, desc_dir, task_set_desc, later_slot,
  fill_slot, put_result, table_of, task_put_desc, task_get_desc, if_set, task_reset_desc,
  reset_slot,
}

-- Every descriptor of the list is in use.
pub data Used : List Descriptor → Type 0 where
  none_left : Used []
  in_use :
      {d : Descriptor} {ds : List Descriptor} → is_unset d.kind ≡ false → Used ds → Used (d ∷ ds)

-- The first descriptor that is not in use is set, and the others are kept; or none is left.
pub data Given (kind : DescKind) (handle : ℕ) (ds : List Descriptor)
    : Option (ℕ × List Descriptor) → Type 0 where
  full : Used ds → Given kind handle ds none
  slot :
      (before after : List Descriptor) (d : Descriptor)
      → ds ≡ before ++ (d ∷ after)
      → Used before
      → is_unset d.kind ≡ true
      → Given kind handle ds (some (length before, before ++ (task_set_desc d kind handle ∷ after)))

next_slot :
    (kind : DescKind) (handle : ℕ) (d : Descriptor) (ds : List Descriptor)
    (r : Option (ℕ × List Descriptor))
    → is_unset d.kind ≡ false
    → Given kind handle ds r
    → Given kind handle (d ∷ ds) (later_slot d r)
next_slot kind handle d ds _ used (full all) = full (in_use used all)
next_slot kind handle d ds _ used (slot before after x same all free) =
    slot (d ∷ before) after x (ap (λ l. d ∷ l) same) (in_use used all) free

fill_slot-Given :
    (kind : DescKind) (handle : ℕ) (ds : List Descriptor)
    → Given kind handle ds (fill_slot kind handle ds)
unfolding fill_slot
fill_slot-Given kind handle [] = full none_left
fill_slot-Given kind handle (d ∷ ds) = elim (Bool-split (is_unset d.kind)) [
  | inl e ↦ rw e (slot [] ds d refl none_left e)
  | inr e ↦
      rw e
        (next_slot kind handle d ds (fill_slot kind handle ds) e (fill_slot-Given kind handle ds))
]

-- A descriptor is put in the first place of the table that is not in use, and no other place
-- changes; the call fails exactly when all places are in use.
task_put_desc-Given :
    (beyond : List Descriptor) (t : Option (List Descriptor)) (kind : DescKind) (handle : ℕ)
    → (r : Option (ℕ × List Descriptor)) × (task_put_desc beyond t kind handle
        ≡ put_result (table_of beyond t) r)
      × Given kind handle (table_of beyond t) r
unfolding task_put_desc
task_put_desc-Given beyond t kind handle = (
  fill_slot kind handle (table_of beyond t),
  refl,
  fill_slot-Given kind handle (table_of beyond t),
)

get_elem?-middle :
    (before after : List Descriptor) (x : Descriptor)
    → get_elem? (before ++ (x ∷ after)) (length before) ≡ some x
get_elem?-middle [] after x = refl
get_elem?-middle (d ∷ before) after x = get_elem?-middle before after x

get_elem?-beside :
    (before after : List Descriptor) (x y : Descriptor) (fd : ℕ)
    → fd ≢ length before
    → get_elem? (before ++ (x ∷ after)) fd ≡ get_elem? (before ++ (y ∷ after)) fd
get_elem?-beside [] after x y zero ne = absurd (ne refl)
get_elem?-beside [] after x y (suc fd) ne = refl
get_elem?-beside (d ∷ before) after x y zero ne = refl
get_elem?-beside (d ∷ before) after x y (suc fd) ne =
    get_elem?-beside before after x y fd (λ e. ne (ap suc e))

set_and_got :
    (d : Descriptor) (kind : DescKind) (handle : ℕ)
    → is_unset kind ≡ false
    → if_set (some (task_set_desc d kind handle)) ≡ some (record { kind = kind; handle = handle })
unfolding task_set_desc
set_and_got d desc_unset handle used = absurd cc
set_and_got d desc_file handle used = refl
set_and_got d desc_dir handle used = refl

-- What the tables before and after a descriptor was given out have to do with each other.
abbrev pub Handed :
    List Descriptor → Option (List Descriptor) → DescKind → ℕ → ℕ → List Descriptor → Type 0
Handed beyond t kind handle fd ds =
    (task_get_desc (some (table_of beyond t)) fd ≡ none)
    × (task_get_desc (some ds) fd ≡ some (record { kind = kind; handle = handle }))
    × ((other : ℕ)
        → other ≢ fd
        → task_get_desc (some ds) other ≡ task_get_desc (some (table_of beyond t)) other)

handed :
    (beyond : List Descriptor) (t : Option (List Descriptor)) (kind : DescKind) (handle fd : ℕ)
    (ds : List Descriptor) (r : Option (ℕ × List Descriptor))
    → is_unset kind ≡ false
    → Given kind handle (table_of beyond t) r
    → r ≡ some (fd, ds)
    → Handed beyond t kind handle fd ds
unfolding task_get_desc
handed beyond t kind handle fd ds _ used (full all) e = absurd cc
handed beyond t kind handle fd ds _ used (slot before after d same all free) e =
    let at : length before ≡ fd = cc in
    let left : before ++ (task_set_desc d kind handle ∷ after) ≡ ds = cc in
    subst (λ i. Handed beyond t kind handle i ds) at
      (subst (Handed beyond t kind handle (length before)) left (
        ap (λ l. if_set (get_elem? l (length before))) same
            ∙ ap if_set (get_elem?-middle before after d)
            ∙ rw free refl,
        ap if_set (get_elem?-middle before after (task_set_desc d kind handle))
            ∙ set_and_got d kind handle used,
        λ other ne.
            ap if_set (get_elem?-beside before after (task_set_desc d kind handle) d other ne)
            ∙ ap (λ l. if_set (get_elem? l other)) (sym same),
      ))

-- A descriptor that was given out was not in use, and is got back with its kind and its handle; the
-- other descriptors are as before.
pub task_get_desc-task_put_desc :
    (beyond : List Descriptor) (t : Option (List Descriptor)) (kind : DescKind) (handle fd : ℕ)
    (ds : List Descriptor)
    → is_unset kind ≡ false
    → task_put_desc beyond t kind handle ≡ (ok fd, ds)
    → Handed beyond t kind handle fd ds
task_get_desc-task_put_desc beyond t kind handle fd ds used e =
    let (r, result, given) = task_put_desc-Given beyond t kind handle in
    handed beyond t kind handle fd ds r used given (given_of r (sym result ∙ e))
  where
    given_of :
        (r : Option (ℕ × List Descriptor))
        → put_result (table_of beyond t) r ≡ (ok fd, ds)
        → r ≡ some (fd, ds)
    given_of none h = absurd cc
    given_of (some (i, ds')) h = cc

-- A descriptor that was reset is not in use, and the others are as before.
pub task_get_desc-task_reset_desc :
    (ds : List Descriptor) (fd : ℕ)
    → (task_get_desc (some (task_reset_desc ds fd)) fd ≡ none)
      × ((other : ℕ)
          → other ≢ fd
          → task_get_desc (some (task_reset_desc ds fd)) other ≡ task_get_desc (some ds) other)
unfolding task_get_desc task_reset_desc
task_get_desc-task_reset_desc ds fd = (gone ds fd, λ other ne. beside ds fd other ne)
  where
    gone : (xs : List Descriptor) (i : ℕ) → if_set (get_elem? (reset_slot xs i) i) ≡ none
    gone [] i = refl
    gone (x ∷ xs) zero = refl
    gone (x ∷ xs) (suc i) = gone xs i

    beside :
        (xs : List Descriptor) (i j : ℕ)
        → j ≢ i
        → if_set (get_elem? (reset_slot xs i) j) ≡ if_set (get_elem? xs j)
    beside [] i j ne = refl
    beside (x ∷ xs) zero zero ne = absurd (ne refl)
    beside (x ∷ xs) zero (suc j) ne = refl
    beside (x ∷ xs) (suc i) zero ne = refl
    beside (x ∷ xs) (suc i) (suc j) ne = beside xs i j (λ e. ne (ap suc e))
