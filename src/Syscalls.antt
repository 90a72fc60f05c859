-- ===== src/Syscalls.antt =====
-- kernel/syscall_fs.c: the file calls of a task, on the file system and the task's descriptors.
--
-- The state is that of the current task. A handle is at the address that malloc gave for it; one
-- that was freed is not in the state, and the calls return none where the code follows a pointer
-- to it. `beyond` is what stands in memory after a new table of descriptors, and is not written
-- otherwise. Flags, modes and offsets are ignored by the code.
pub mod Files
mod Tests
use i80k.Base.{ℕ, Bool, Option, none, some, List, [], ◌∷◌, ◌==◌, if◌then◌else◌}
use i80k.Base.Word.{Ret, ok, err}
use i80k.Mounts.{FsMount, State, FileHandle, fs_open_file, fs_close_file}
use i80k.Mounts.Calls.{DirHandle, Fs, fs_close_dir, fs_mount, err_inval, err_not_supp}
use i80k.Mounts.Files.{fs_read_file, fs_write_file}
use i80k.Descriptors.{
  Descriptor, DescKind, desc_unset, desc_file, desc_dir, task_put_desc, task_get_desc,
  task_reset_desc,
}

pub record Process (D : Type 0) : Type 0 where
  pub mounts : State D
  pub descriptors : Option (List Descriptor)
  pub beyond : List Descriptor
  pub files : List (ℕ × FileHandle)
  pub dirs : List (ℕ × DirHandle)

pub handle_at : {A : Type 0} → ℕ → List (ℕ × A) → Option A
handle_at a [] = none
handle_at a ((b, h) ∷ hs) = if b == a then some h else handle_at a hs

pub freed : {A : Type 0} → ℕ → List (ℕ × A) → List (ℕ × A)
freed a [] = []
freed a ((b, h) ∷ hs) = let rest = freed a hs in if b == a then hs else (b, h) ∷ rest

-- A handle is freed only by a call that succeeds.
abbrev pub after_close : {A : Type 0} → Ret → ℕ → List (ℕ × A) → List (ℕ × A)
after_close (ok n) a hs = freed a hs
after_close (err e) a hs = hs

abbrev pub reset_table : Option (List Descriptor) → ℕ → Option (List Descriptor)
reset_table none fd = none
reset_table (some ds) fd = some (task_reset_desc ds fd)

module _ {D : Type 0} where
  -- `fs_close_file` of the handle at an address, with its `free`.
  abbrev pub file_closed : ℕ → Process D → Option (Ret × State D) → Option (Ret × Process D)
  file_closed a p none = none
  file_closed a p (some (r, s)) = some (r, record p { mounts = s; files = after_close r a p.files })

  abbrev pub close_file_with : ℕ → Option FileHandle → Process D → Option (Ret × Process D)
  close_file_with a none p = none
  close_file_with a (some h) p = file_closed a p (fs_close_file h p.mounts)

  abbrev pub close_file_at : ℕ → Process D → Option (Ret × Process D)
  close_file_at a p = close_file_with a (handle_at a p.files) p

  abbrev pub dir_closed : ℕ → Process D → Option (Ret × State D) → Option (Ret × Process D)
  dir_closed a p none = none
  dir_closed a p (some (r, s)) = some (r, record p { mounts = s; dirs = after_close r a p.dirs })

  abbrev pub close_dir_with : ℕ → Option DirHandle → Process D → Option (Ret × Process D)
  close_dir_with a none p = none
  close_dir_with a (some h) p = dir_closed a p (fs_close_dir h p.mounts)

  abbrev pub close_dir_at : ℕ → Process D → Option (Ret × Process D)
  close_dir_at a p = close_dir_with a (handle_at a p.dirs) p

  abbrev pub returning : Ret → Option (Ret × Process D) → Option (Ret × Process D)
  returning r none = none
  returning r (some (ignored, p)) = some (r, p)

  -- What `sys_open` makes of the descriptor that it asks for.
  abbrev pub described : ℕ → Process D → Ret × List Descriptor → Option (Ret × Process D)
  described a p (ok fd, ds) = some (ok fd, record p { descriptors = some ds })
  described a p (err e, ds) =
      returning (err e) (close_file_at a (record p { descriptors = some ds }))

  abbrev pub file_opened :
      ℕ → Process D → Option ((Ret × Option FileHandle) × State D) → Option (Ret × Process D)
  file_opened a p none = none
  file_opened a p (some ((err e, h), s)) = some (err e, record p { mounts = s })
  file_opened a p (some ((ok n, none), s)) = none
  file_opened a p (some ((ok n, some h), s)) =
      described a (record p { mounts = s; files = (a, h) ∷ p.files })
        (task_put_desc p.beyond p.descriptors desc_file a)

  -- The handle is allocated at the address.
  pub sys_open : ℕ → List ℕ → Process D → Option (Ret × Process D)
  unfolding handle_at freed
  sys_open a path p = file_opened a p (fs_open_file path p.mounts)

  abbrev pub data_read :
      Process D → Option ((Ret × List ℕ) × State D) → Option ((Ret × List ℕ) × Process D)
  data_read p none = none
  data_read p (some (r, s)) = some (r, record p { mounts = s })

  abbrev pub read_handle : ℕ → Option FileHandle → Process D → Option ((Ret × List ℕ) × Process D)
  read_handle count none p = none
  read_handle count (some h) p = data_read p (fs_read_file h 0 count p.mounts)

  abbrev pub read_kind : DescKind → ℕ → ℕ → Process D → Option ((Ret × List ℕ) × Process D)
  read_kind desc_unset a count p = some ((err err_not_supp, []), p)
  read_kind desc_dir a count p = some ((err err_not_supp, []), p)
  read_kind desc_file a count p = read_handle count (handle_at a p.files) p

  abbrev pub read_desc : ℕ → Option Descriptor → Process D → Option ((Ret × List ℕ) × Process D)
  read_desc count none p = some ((err err_inval, []), p)
  read_desc count (some x) p = read_kind x.kind x.handle count p

  -- What is returned, and the bytes that are stored.
  pub sys_read : ℕ → ℕ → Process D → Option ((Ret × List ℕ) × Process D)
  unfolding handle_at
  sys_read fd count p = read_desc count (task_get_desc p.descriptors fd) p

  abbrev pub data_written : Process D → Option (Ret × State D) → Option (Ret × Process D)
  data_written p none = none
  data_written p (some (r, s)) = some (r, record p { mounts = s })

  abbrev pub write_handle : List ℕ → Option FileHandle → Process D → Option (Ret × Process D)
  write_handle bytes none p = none
  write_handle bytes (some h) p = data_written p (fs_write_file h bytes 0 p.mounts)

  abbrev pub write_kind : DescKind → ℕ → List ℕ → Process D → Option (Ret × Process D)
  write_kind desc_unset a bytes p = some (err err_not_supp, p)
  write_kind desc_dir a bytes p = some (err err_not_supp, p)
  write_kind desc_file a bytes p = write_handle bytes (handle_at a p.files) p

  abbrev pub write_desc : List ℕ → Option Descriptor → Process D → Option (Ret × Process D)
  write_desc bytes none p = some (err err_inval, p)
  write_desc bytes (some x) p = write_kind x.kind x.handle bytes p

  pub sys_write : ℕ → List ℕ → Process D → Option (Ret × Process D)
  unfolding handle_at
  sys_write fd bytes p = write_desc bytes (task_get_desc p.descriptors fd) p

  -- The descriptor is reset whatever closing the file returned.
  abbrev pub desc_reset : ℕ → Option (Ret × Process D) → Option (Ret × Process D)
  desc_reset fd none = none
  desc_reset fd (some (ignored, p)) =
      some (ok 0, record p { descriptors = reset_table p.descriptors fd })

  abbrev pub close_kind : DescKind → ℕ → ℕ → Process D → Option (Ret × Process D)
  close_kind desc_unset a fd p = some (err err_not_supp, p)
  close_kind desc_file a fd p = desc_reset fd (close_file_at a p)
  close_kind desc_dir a fd p = desc_reset fd (close_dir_at a p)

  abbrev pub close_desc : ℕ → Option Descriptor → Process D → Option (Ret × Process D)
  close_desc fd none p = some (err err_inval, p)
  close_desc fd (some x) p = close_kind x.kind x.handle fd p

  pub sys_close : ℕ → Process D → Option (Ret × Process D)
  unfolding handle_at freed
  sys_close fd p = close_desc fd (task_get_desc p.descriptors fd) p

  abbrev pub process_mounted : Process D → Option (Ret × State D) → Option (Ret × Process D)
  process_mounted p none = none
  process_mounted p (some (r, s)) = some (r, record p { mounts = s })

  -- As `fs_mount`, whose arguments come in another order.
  pub sys_mount :
      Bool → Option (Option ℕ) → ℕ → List ℕ → Option (Fs D) → Process D → Option (Ret × Process D)
  sys_mount can_alloc source a target fs p =
      process_mounted p (fs_mount can_alloc a target fs source p.mounts)
