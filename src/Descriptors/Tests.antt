-- ===== src/Descriptors/Tests.antt =====
-- A task without a table opens its first file, where the memory after the allocation is cleared.
use i80k.Base.{◌≡◌, refl, none, some, List, [], ◌∷◌, replicate}
use i80k.Base.Word.{ok, err}
use i80k.Descriptors.{desc_file, Descriptor, blank, fill_slot, task_set_desc, task_put_desc}

abbrev pub cleared : List Descriptor
cleared = replicate 8 blank

abbrev pub with_file : List Descriptor
with_file = record { kind = desc_file; handle = 5 } ∷ replicate 15 blank

pub first_file : task_put_desc cleared none desc_file 5 ≡ (ok 0, with_file)
unfolding task_put_desc fill_slot task_set_desc
first_file = refl

abbrev pub full_table : List Descriptor
full_table = replicate 16 (record { kind = desc_file; handle = 9 })

pub no_descriptor : task_put_desc [] (some full_table) desc_file 5 ≡ (err 12, full_table)
unfolding task_put_desc fill_slot
no_descriptor = refl
