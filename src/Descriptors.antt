-- ===== src/Descriptors.antt =====
-- kernel/core/task.c: the table of the files and directories that a task has open.
pub mod Slots
pub mod Tests
use i80k.Base.{
  ℕ, zero, suc, ◌+◌, ◌*◌, ◌/◌, ◌++◌, Bool, true, false, Option, none, some, List, [], ◌∷◌,
  if◌then◌else◌, set, get_elem?, replicate,
}
use i80k.Base.Word.{Ret, ok, err}

-- `desc_t`
pub data DescKind : Type 0 where
  desc_unset : DescKind
  desc_file : DescKind
  desc_dir : DescKind

abbrev pub is_unset : DescKind → Bool
is_unset desc_unset = true
is_unset desc_file = false
is_unset desc_dir = false

-- `struct descriptor`
pub record Descriptor : Type 0 where
  pub kind : DescKind
  pub handle : ℕ

abbrev pub max_fd : ℕ
max_fd = 16

abbrev pub blank : Descriptor
blank = record { kind = desc_unset; handle = 0 }

pub task_set_desc : Descriptor → DescKind → ℕ → Descriptor
task_set_desc d desc_unset handle = record d { kind = desc_unset }
task_set_desc d desc_file handle = record { kind = desc_file; handle = handle }
task_set_desc d desc_dir handle = record { kind = desc_dir; handle = handle }

abbrev pub later_slot : Descriptor → Option (ℕ × List Descriptor) → Option (ℕ × List Descriptor)
later_slot d none = none
later_slot d (some (i, ds)) = some (suc i, d ∷ ds)

-- The loop of `task_put_desc`.
pub fill_slot : DescKind → ℕ → List Descriptor → Option (ℕ × List Descriptor)
unfolding task_set_desc
fill_slot kind handle [] = none
fill_slot kind handle (d ∷ ds) =
    let rest = fill_slot kind handle ds in
    if is_unset d.kind then some (0, task_set_desc d kind handle ∷ ds) else later_slot d rest

abbrev pub put_result : List Descriptor → Option (ℕ × List Descriptor) → Ret × List Descriptor
put_result ds none = (err 12, ds)
put_result ds (some (i, ds')) = (ok i, ds')

-- `MAX_FD * sizeof(desc_t)` bytes, of 2 bytes for each `desc_t`, have room for so many structures of
-- 4 bytes.
abbrev pub allocated : ℕ
allocated = max_fd * 2 / 4

-- The table in use: a new one if there is none yet, where calloc gives it. A new table has the bytes
-- of its allocation cleared; its other entries are `beyond`, what memory holds after it.
abbrev pub table_of : List Descriptor → Option (List Descriptor) → List Descriptor
table_of beyond none = replicate allocated blank ++ beyond
table_of beyond (some ds) = ds

pub task_put_desc :
    List Descriptor → Option (List Descriptor) → DescKind → ℕ → Ret × List Descriptor
unfolding fill_slot
task_put_desc beyond t kind handle =
    put_result (table_of beyond t) (fill_slot kind handle (table_of beyond t))

abbrev pub if_set : Option Descriptor → Option Descriptor
if_set none = none
if_set (some d) = if is_unset d.kind then none else some d

-- For a descriptor in the table; the code does not check that it is.
pub task_get_desc : Option (List Descriptor) → ℕ → Option Descriptor
task_get_desc none fd = none
task_get_desc (some ds) fd = if_set (get_elem? ds fd)

abbrev pub reset_slot : List Descriptor → ℕ → List Descriptor
reset_slot [] fd = []
reset_slot (d ∷ ds) zero = record d { kind = desc_unset } ∷ ds
reset_slot (d ∷ ds) (suc fd) = d ∷ reset_slot ds fd

pub task_reset_desc : List Descriptor → ℕ → List Descriptor
task_reset_desc ds fd = reset_slot ds fd
