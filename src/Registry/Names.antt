-- ===== src/Registry/Names.antt =====
-- Devices by name: registering, opening and removing them.
use i80k.Base.{
  Bool-split, inl, inr, ℕ, ◌≡◌, ◌≢◌, refl, sym, ap, ap₂, ◌∙◌, Bool, true, false, ◌&&◌, Option, none,
  some, List, [], ◌∷◌, ◌++◌, ◌==◌, if◌then◌else◌, eq_of_==, ==_self,
}
use i80k.Blkdev.{BlkDev}
use i80k.Registry.{
  same_name, with_defaults, blk_dev_add, blk_register_subdevice, find_device, remove_device,
  blk_open, blk_unregister,
}

pub same_name_self : (a : List ℕ) → same_name a a ≡ true
unfolding same_name
same_name_self [] = refl
same_name_self (x ∷ xs) = rw (==_self x, same_name_self xs) refl

and_parts : (b c : Bool) → (b && c) ≡ true → (b ≡ true) × (c ≡ true)
and_parts true c h = (refl, h)
and_parts false c h = absurd cc

pub eq_of_same_name : (a b : List ℕ) → same_name a b ≡ true → a ≡ b
unfolding same_name
eq_of_same_name [] [] h = refl
eq_of_same_name [] (y ∷ ys) h = absurd cc
eq_of_same_name (x ∷ xs) [] h = absurd cc
eq_of_same_name (x ∷ xs) (y ∷ ys) h =
    let (e, rest) = and_parts (x == y) (same_name xs ys) h in
    ap₂ (λ c cs. c ∷ cs) (eq_of_== x y e) (eq_of_same_name xs ys rest)

pub same_name_of_ne : (a b : List ℕ) → a ≢ b → same_name a b ≡ false
same_name_of_ne a b ne = elim (Bool-split (same_name a b)) [
  | inl e ↦ absurd (ne (eq_of_same_name a b e))
  | inr e ↦ e
]

passed :
    {A : Type 0} (b : Bool) (a : A) (o : Option A)
    → (if b then some a else o) ≡ none
    → (b ≡ false) × (o ≡ none)
passed true a o h = absurd cc
passed false a o h = (refl, h)

module _ {S : Type 0} where
  find_append_new :
      (name : List ℕ) (dev : BlkDev S) (devices : List (BlkDev S))
      → find_device name devices ≡ none
      → dev.name ≡ name
      → find_device name (devices ++ (dev ∷ [])) ≡ some dev
  unfolding find_device
  find_append_new name dev [] h e = rw (ap (λ n. same_name n name) e, same_name_self name) refl
  find_append_new name dev (d ∷ devices) h e =
      let (other, rest) = passed (same_name d.name name) d (find_device name devices) h in
      rw other (find_append_new name dev devices rest e)

  find_append_other :
      (name : List ℕ) (dev : BlkDev S) (devices : List (BlkDev S))
      → dev.name ≢ name
      → find_device name (devices ++ (dev ∷ [])) ≡ find_device name devices
  unfolding find_device
  find_append_other name dev [] ne = rw (same_name_of_ne dev.name name ne) refl
  find_append_other name dev (d ∷ devices) ne = elim (Bool-split (same_name d.name name)) [
    | inl t ↦ rw t refl
    | inr t ↦ rw t (find_append_other name dev devices ne)
  ]

  -- A device that is registered under a name that is free is the one that the name opens, and
  -- what the other names open does not change.
  blk_open-blk_register_subdevice :
      (dev : BlkDev S) (devices : List (BlkDev S))
      → blk_open (some dev.name) devices ≡ none
      → (blk_open (some dev.name) (blk_register_subdevice (some dev) devices)
          ≡ some (with_defaults dev))
        × ((other : List ℕ)
            → dev.name ≢ other
            → blk_open (some other) (blk_register_subdevice (some dev) devices)
              ≡ blk_open (some other) devices)
  unfolding blk_open blk_register_subdevice with_defaults blk_dev_add
  blk_open-blk_register_subdevice dev devices free = (
    find_append_new dev.name (with_defaults dev) devices free refl,
    λ other ne. find_append_other other (with_defaults dev) devices ne,
  )

  remove-found :
      (name : List ℕ) (devices : List (BlkDev S))
      → (remove_device name devices).0 ≡ find_device name devices
  unfolding remove_device find_device
  remove-found name [] = refl
  remove-found name (dev ∷ devices) = elim (Bool-split (same_name dev.name name)) [
    | inl t ↦ rw t refl
    | inr t ↦ rw t (remove-found name devices)
  ]

  remove_other :
      (name other : List ℕ) (devices : List (BlkDev S))
      → name ≢ other
      → find_device other (remove_device name devices).1 ≡ find_device other devices
  unfolding remove_device find_device
  remove_other name other [] ne = refl
  remove_other name other (dev ∷ devices) ne = elim (Bool-split (same_name dev.name name)) [
    | inl t ↦ rw (t, other_name t) refl
    | inr t ↦ rw (t) (
        ap (λ (r : Option (BlkDev S)). if same_name dev.name other then some dev else r)
          (remove_other name other devices ne))
  ]
    where
      other_name : same_name dev.name name ≡ true → same_name dev.name other ≡ false
      other_name t =
          same_name_of_ne dev.name other (λ e. ne (sym (eq_of_same_name dev.name name t) ∙ e))

  -- Unregistering a name yields the device that the name opens, and what the other names open does
  -- not change.
  blk_open-blk_unregister :
      (name : List ℕ) (devices : List (BlkDev S))
      → ((blk_unregister (some name) devices).0 ≡ blk_open (some name) devices)
        × ((other : List ℕ)
            → name ≢ other
            → blk_open (some other) (blk_unregister (some name) devices).1
              ≡ blk_open (some other) devices)
  unfolding blk_open blk_unregister
  blk_open-blk_unregister name devices =
      (remove-found name devices, λ other ne. remove_other name other devices ne)
