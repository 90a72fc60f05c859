-- ===== src/Mounts/Calls.antt =====
-- kernel/core/fs.c: mounting, and the calls on a path or a directory.
--
-- The booleans say whether malloc gives what is asked for; an address that is an argument is the
-- one that it gives.
pub mod Balance
use i80k.Base.{ℕ, Bool, true, false, ◌&&◌, Option, none, some, List, [], ◌∷◌, ◌==◌, if◌then◌else◌}
use i80k.Base.Word.{Ret, ok, err}
use i80k.Mounts.{
  with_path, normal_path, FsApi, FsMount, State, find_mount, put_mount, find_address, err_no_entry,
  put_result, failing, FileHandle, opened, closed,
}

abbrev pub err_no_mem : ℕ
err_no_mem = 12

abbrev pub err_no_dev : ℕ
err_no_dev = 19

abbrev pub err_inval : ℕ
err_inval = 22

abbrev pub err_not_supp : ℕ
err_not_supp = 134

-- `struct fs`, without its name, and with its function that mounts.
pub record Fs (D : Type 0) : Type 0 where
  pub api : FsApi D
  pub mount : Option ℕ → D → (Ret × ℕ) × D

abbrev pub starts_with_separator : List ℕ → Bool
starts_with_separator [] = false
starts_with_separator (c ∷ cs) = c == b'/'

-- `struct dirhandle`
pub record DirHandle : Type 0 where
  pub cookie : ℕ
  pub mount : ℕ

module _ {D : Type 0} where
  abbrev pub returning : {R : Type 0} → R → Option (State D) → Option (R × State D)
  returning r none = none
  returning r (some s) = some (r, s)

  abbrev pub with_call :
      FsMount D → List ℕ → State D → Option (ℕ → List ℕ → D → Ret × D) → Option (Ret × State D)
  with_call m rest (ms, d) none = returning (err err_not_supp) (put_mount m.address ms d)
  with_call m rest (ms, d) (some f) =
      let (r, d') = f m.cookie rest d in returning r (put_mount m.address ms d')

  abbrev pub call_on :
      (FsApi D → Option (ℕ → List ℕ → D → Ret × D))
      → Option (FsMount D × List ℕ) × List (FsMount D)
      → D
      → Option (Ret × State D)
  call_on pick (none, ms) d = some (err err_no_entry, (ms, d))
  call_on pick (some (m, rest), ms) d = with_call m rest (ms, d) (pick m.api)

  pub remove_file_at : List ℕ → State D → Option (Ret × State D)
  unfolding find_mount put_mount
  remove_file_at path (ms, d) = call_on (λ api. api.remove) (find_mount path ms) d

  pub make_dir_at : List ℕ → State D → Option (Ret × State D)
  unfolding find_mount put_mount
  make_dir_at path (ms, d) = call_on (λ api. api.mkdir) (find_mount path ms) d

  -- The end of `fs_create_file`: without memory for the handle it returns what the file system
  -- returned.
  abbrev pub created : Bool → ℕ → Ret × ℕ → State D → Option ((Ret × Option FileHandle) × State D)
  created can_alloc a (err e, cookie) (ms, d) = failing e (put_mount a ms d)
  created true a (ok n, cookie) s = some ((ok 0, some (record { cookie = cookie; mount = a })), s)
  created false a (ok n, cookie) (ms, d) = returning (ok n, none) (put_mount a ms d)

  abbrev pub with_create :
      Bool
      → FsMount D
      → List ℕ
      → ℕ
      → State D
      → Option (ℕ → List ℕ → ℕ → D → (Ret × ℕ) × D)
      → Option ((Ret × Option FileHandle) × State D)
  with_create can_alloc m rest len (ms, d) none = failing 1 (put_mount m.address ms d)
  with_create can_alloc m rest len (ms, d) (some f) =
      let (r, d') = f m.cookie rest len d in created can_alloc m.address r (ms, d')

  abbrev pub create_on :
      Bool
      → ℕ
      → Option (FsMount D × List ℕ) × List (FsMount D)
      → D
      → Option ((Ret × Option FileHandle) × State D)
  create_on can_alloc len (none, ms) d = some ((err err_no_entry, none), (ms, d))
  create_on can_alloc len (some (m, rest), ms) d =
      with_create can_alloc m rest len (ms, d) m.api.create

  pub create_file_at : Bool → List ℕ → ℕ → State D → Option ((Ret × Option FileHandle) × State D)
  unfolding find_mount put_mount
  create_file_at can_alloc path len (ms, d) = create_on can_alloc len (find_mount path ms) d

  abbrev pub dir_fails : ℕ → Option (State D) → Option ((Ret × Option DirHandle) × State D)
  dir_fails e s = returning (err e, none) s

  abbrev pub dir_opened : Bool → ℕ → Ret × ℕ → State D → Option ((Ret × Option DirHandle) × State D)
  dir_opened can_alloc a (err e, cookie) (ms, d) = dir_fails e (put_mount a ms d)
  dir_opened true a (ok n, cookie) s =
      some ((ok 0, some (record { cookie = cookie; mount = a })), s)
  dir_opened false a (ok n, cookie) (ms, d) = dir_fails err_no_mem (put_mount a ms d)

  abbrev pub with_opendir :
      Bool
      → FsMount D
      → List ℕ
      → State D
      → Option (ℕ → List ℕ → D → (Ret × ℕ) × D)
      → Option ((Ret × Option DirHandle) × State D)
  with_opendir can_alloc m rest (ms, d) none = dir_fails err_not_supp (put_mount m.address ms d)
  with_opendir can_alloc m rest (ms, d) (some f) =
      let (r, d') = f m.cookie rest d in dir_opened can_alloc m.address r (ms, d')

  abbrev pub open_dir_on :
      Bool
      → Option (FsMount D × List ℕ) × List (FsMount D)
      → D
      → Option ((Ret × Option DirHandle) × State D)
  open_dir_on can_alloc (none, ms) d = some ((err err_no_entry, none), (ms, d))
  open_dir_on can_alloc (some (m, rest), ms) d = with_opendir can_alloc m rest (ms, d) m.api.opendir

  pub open_dir_at : Bool → List ℕ → State D → Option ((Ret × Option DirHandle) × State D)
  unfolding find_mount put_mount
  open_dir_at can_alloc path (ms, d) = open_dir_on can_alloc (find_mount path ms) d

  abbrev pub with_closedir : DirHandle → State D → Option (ℕ → D → Ret × D) → Option (Ret × State D)
  with_closedir h s none = some (err err_not_supp, s)
  with_closedir h (ms, d) (some f) = closed h.mount (f h.cookie d) ms

  abbrev pub close_dir_on : DirHandle → Option (FsMount D) → State D → Option (Ret × State D)
  close_dir_on h none s = none
  close_dir_on h (some m) s = with_closedir h s m.api.closedir

  pub fs_close_dir : DirHandle → State D → Option (Ret × State D)
  unfolding find_address closed
  fs_close_dir h (ms, d) = close_dir_on h (find_address h.mount ms) (ms, d)

  -- What `mount` does with the answer of the file system.
  abbrev pub new_mount : Bool → ℕ → List ℕ → Fs D → (Ret × ℕ) × D → List (FsMount D) → Ret × State D
  new_mount can_alloc a path fs ((err e, cookie), d) ms = (err e, (ms, d))
  new_mount false a path fs ((ok n, cookie), d) ms = (err err_no_mem, (ms, d))
  new_mount true a path fs ((ok n, cookie), d) ms =
      (ok 0, (record { address = a; path = path; cookie = cookie; ref = 1; api = fs.api } ∷ ms, d))

  -- The device that is named, if one is.
  abbrev pub mount_device : Bool → ℕ → List ℕ → Fs D → Option (Option ℕ) → State D → Ret × State D
  mount_device can_alloc a path fs none (ms, d) = new_mount can_alloc a path fs (fs.mount none d) ms
  mount_device can_alloc a path fs (some none) s = (err err_no_dev, s)
  mount_device can_alloc a path fs (some (some dev)) (ms, d) =
      new_mount can_alloc a path fs (fs.mount (some dev) d) ms

  abbrev pub mount_at :
      Bool
      → ℕ
      → List ℕ
      → Fs D
      → Option (Option ℕ)
      → Option (FsMount D × List ℕ) × List (FsMount D)
      → D
      → Option (Ret × State D)
  mount_at can_alloc a path fs device (some (m, rest), ms) d =
      returning (err err_inval) (put_mount m.address ms d)
  mount_at can_alloc a path fs device (none, ms) d =
      some (mount_device can_alloc a path fs device (ms, d))

  -- `fs_mount`, with a normalised path, of a file system that was found or not. `device` is the outcome of `blk_open`, if a
  -- device is named.
  pub mount_normal :
      Bool → ℕ → List ℕ → Option (Fs D) → Option (Option ℕ) → State D → Option (Ret × State D)
  unfolding find_mount put_mount
  mount_normal can_alloc a path none device s = some (err err_no_entry, s)
  mount_normal can_alloc a path (some fs) device (ms, d) =
      if starts_with_separator path
      then mount_at can_alloc a path fs device (find_mount path ms) d
      else some (err err_inval, (ms, d))

  -- The calls, on a path as the caller gives it.
  pub fs_remove_file : List ℕ → State D → Option (Ret × State D)
  unfolding normal_path remove_file_at
  fs_remove_file path s = with_path (normal_path path) (λ p. remove_file_at p s)

  pub fs_make_dir : List ℕ → State D → Option (Ret × State D)
  unfolding normal_path make_dir_at
  fs_make_dir path s = with_path (normal_path path) (λ p. make_dir_at p s)

  pub fs_create_file : Bool → List ℕ → ℕ → State D → Option ((Ret × Option FileHandle) × State D)
  unfolding normal_path create_file_at
  fs_create_file can_alloc path len s =
      with_path (normal_path path) (λ p. create_file_at can_alloc p len s)

  pub fs_open_dir : Bool → List ℕ → State D → Option ((Ret × Option DirHandle) × State D)
  unfolding normal_path open_dir_at
  fs_open_dir can_alloc path s = with_path (normal_path path) (λ p. open_dir_at can_alloc p s)

  -- Without the file system the path is not looked at.
  pub fs_mount :
      Bool → ℕ → List ℕ → Option (Fs D) → Option (Option ℕ) → State D → Option (Ret × State D)
  unfolding normal_path mount_normal
  fs_mount can_alloc a path none device s = some (err err_no_entry, s)
  fs_mount can_alloc a path (some fs) device s =
      with_path (normal_path path) (λ p. mount_normal can_alloc a p (some fs) device s)
