-- ===== src/Syscalls/Tests.antt =====
-- A task without descriptors opens a file on a mount at "/a", reads it and closes it; a task that
-- has all descriptors in use opens it in vain.
use i80k.Base.{ℕ, ◌≡◌, refl, none, some, List, [], ◌∷◌, replicate}
use i80k.Base.Word.{ok, err}
use i80k.FsPath.Tests.{untidy}
use i80k.Mounts.Tests.{untidy_path, outer, table, on_outer, at_outer, outer-Mounted}
use i80k.Descriptors.{blank, task_get_desc}
use i80k.Descriptors.Tests.{cleared, first_file, with_file, full_table, no_descriptor}
use i80k.Syscalls.{Process, sys_open, sys_read, sys_close}
use i80k.Syscalls.Files.{sys_open-full, sys_read-sys_open, sys_close-sys_open}

abbrev path : List ℕ
path = untidy

abbrev fresh : Process ℕ
fresh = record { mounts = (table, 0); descriptors = none; beyond = cleared; files = []; dirs = [] }

sys_close-sys_open_example :
    (q q' : Process ℕ) × (sys_open 5 path fresh ≡ some (ok 0, q))
    × (sys_close 0 q ≡ some (ok 0, q'))
    × (q'.mounts ≡ (table, 0))
    × (q'.files ≡ [])
    × ((i : ℕ) → task_get_desc q'.descriptors i ≡ task_get_desc (some (replicate 16 blank)) i)
sys_close-sys_open_example =
    sys_close-sys_open fresh path (b'a' ∷ b'/' ∷ b'f' ∷ []) (b'/' ∷ b'f' ∷ []) table outer 0 refl
      untidy_path on_outer at_outer outer-Mounted 5 0 1 0 refl 0 with_file first_file 0 0 refl

sys_read-sys_open_example :
    (q : Process ℕ) × (sys_open 5 path fresh ≡ some (ok 0, q))
    × (sys_read 0 3 q ≡ some ((ok 3, 65 ∷ 65 ∷ 65 ∷ []), record q { mounts = (q.mounts.0, 0) }))
sys_read-sys_open_example =
    sys_read-sys_open fresh path (b'a' ∷ b'/' ∷ b'f' ∷ []) (b'/' ∷ b'f' ∷ []) table outer 0 refl
      untidy_path on_outer at_outer outer-Mounted 5 0 1 0 refl 0 with_file first_file 3
      (ok 3, 65 ∷ 65 ∷ 65 ∷ []) 0 refl

abbrev busy : Process ℕ
busy = record {
  mounts = (table, 0);
  descriptors = some full_table;
  beyond = [];
  files = [];
  dirs = [];
}

sys_open-full_example : sys_open 5 path busy ≡ some (err 12, busy)
sys_open-full_example =
    sys_open-full busy path (b'a' ∷ b'/' ∷ b'f' ∷ []) (b'/' ∷ b'f' ∷ []) table outer 0 refl
      untidy_path on_outer at_outer outer-Mounted 5 0 1 0 refl 12 0 full_table 0 no_descriptor refl
