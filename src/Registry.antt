-- ===== src/Registry.antt =====
-- kernel/core/blkdev.c: the list of registered block devices.
mod Names
mod Tests
use i80k.Base.{
  ℕ, Bool, true, false, ◌&&◌, Option, none, some, List, [], ◌∷◌, ◌++◌, ◌==◌, if◌then◌else◌,
}
use i80k.Blkdev.{BlkDev, Reader, Writer, default_read, default_write}

-- `!strcmp(a, b)` on texts without their final zero.
pub same_name : List ℕ → List ℕ → Bool
same_name [] [] = true
same_name [] (y ∷ ys) = false
same_name (x ∷ xs) [] = false
same_name (x ∷ xs) (y ∷ ys) = (x == y) && same_name xs ys

abbrev pub or_default : {A : Type 0} → Option A → A → Option A
or_default none d = some d
or_default (some a) d = some a

module _ {S : Type 0} where
  -- The default functions for those that the driver leaves unset.
  pub with_defaults : BlkDev S → BlkDev S
  with_defaults dev = record dev {
    read = or_default dev.read default_read;
    write = or_default dev.write default_write;
  }

  pub blk_dev_add : Option (BlkDev S) → List (BlkDev S) → Bool × List (BlkDev S)
  unfolding with_defaults
  blk_dev_add none devices = (false, devices)
  blk_dev_add (some dev) devices = (true, devices ++ (with_defaults dev ∷ []))

  -- `blk_register_subdevice`
  pub blk_register_subdevice : Option (BlkDev S) → List (BlkDev S) → List (BlkDev S)
  unfolding blk_dev_add
  blk_register_subdevice dev devices = (blk_dev_add dev devices).1

  pub find_device : List ℕ → List (BlkDev S) → Option (BlkDev S)
  unfolding same_name
  find_device name [] = none
  find_device name (dev ∷ devices) =
      if same_name dev.name name then some dev else find_device name devices

  pub remove_device : List ℕ → List (BlkDev S) → Option (BlkDev S) × List (BlkDev S)
  unfolding same_name
  remove_device name [] = (none, [])
  remove_device name (dev ∷ devices) =
      let (found, rest) = remove_device name devices in
      if same_name dev.name name then (some dev, devices) else (found, dev ∷ rest)

  pub blk_open : Option (List ℕ) → List (BlkDev S) → Option (BlkDev S)
  unfolding find_device
  blk_open none devices = none
  blk_open (some name) devices = find_device name devices

  pub blk_unregister : Option (List ℕ) → List (BlkDev S) → Option (BlkDev S) × List (BlkDev S)
  unfolding remove_device
  blk_unregister none devices = (none, devices)
  blk_unregister (some name) devices = remove_device name devices
