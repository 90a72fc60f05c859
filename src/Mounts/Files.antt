-- ===== src/Mounts/Files.antt =====
-- kernel/core/fs.c: the calls on an open file, and loading a file into memory.
pub mod Loads
use i80k.Base.{ℕ, Option, none, some, List, [], ◌∷◌, ◌==◌, if◌then◌else◌, min}
use i80k.Base.Word.{Ret, ok, err}
use i80k.Mounts.{FsMount, State, FileHandle, find_address, fs_open_file, fs_close_file}

module _ {D : Type 0} where
  abbrev pub read_on :
      FileHandle → ℕ → ℕ → Option (FsMount D) → State D → Option ((Ret × List ℕ) × State D)
  read_on h offset len none s = none
  read_on h offset len (some m) (ms, d) =
      let (r, d') = m.api.read h.cookie offset len d in some (r, (ms, d'))

  -- What is returned, and the bytes that are stored.
  pub fs_read_file : FileHandle → ℕ → ℕ → State D → Option ((Ret × List ℕ) × State D)
  unfolding find_address
  fs_read_file h offset len (ms, d) = read_on h offset len (find_address h.mount ms) (ms, d)

  abbrev pub with_write :
      FileHandle
      → List ℕ
      → ℕ
      → Option (ℕ → List ℕ → ℕ → D → Ret × D)
      → State D
      → Option (Ret × State D)
  with_write h bytes offset none s = some (err 1, s)
  with_write h bytes offset (some f) (ms, d) =
      let (r, d') = f h.cookie bytes offset d in some (r, (ms, d'))

  abbrev pub write_on :
      FileHandle → List ℕ → ℕ → Option (FsMount D) → State D → Option (Ret × State D)
  write_on h bytes offset none s = none
  write_on h bytes offset (some m) s = with_write h bytes offset m.api.write s

  pub fs_write_file : FileHandle → List ℕ → ℕ → State D → Option (Ret × State D)
  unfolding find_address
  fs_write_file h bytes offset (ms, d) = write_on h bytes offset (find_address h.mount ms) (ms, d)

  abbrev pub truncate_on : FileHandle → ℕ → Option (FsMount D) → State D → Option (Ret × State D)
  truncate_on h len none s = none
  truncate_on h len (some m) (ms, d) =
      let (r, d') = m.api.truncate h.cookie len d in some (r, (ms, d'))

  pub fs_truncate_file : Option FileHandle → ℕ → State D → Option (Ret × State D)
  unfolding find_address
  fs_truncate_file none len s = some (err 22, s)
  fs_truncate_file (some h) len (ms, d) = truncate_on h len (find_address h.mount ms) (ms, d)

  abbrev pub stat_on : FileHandle → Option (FsMount D) → State D → Option ((Ret × ℕ) × State D)
  stat_on h none s = none
  stat_on h (some m) (ms, d) = let (r, d') = m.api.stat h.cookie d in some (r, (ms, d'))

  -- The size is all of `struct file_stat` that is kept.
  pub fs_stat_file : FileHandle → State D → Option ((Ret × ℕ) × State D)
  unfolding find_address
  fs_stat_file h (ms, d) = stat_on h (find_address h.mount ms) (ms, d)

  abbrev pub loaded : Ret × List ℕ → Option (Ret × State D) → Option ((Ret × List ℕ) × State D)
  loaded r none = none
  loaded r (some (ignored, s)) = some (r, s)

  abbrev pub load_close :
      FileHandle → Option ((Ret × List ℕ) × State D) → Option ((Ret × List ℕ) × State D)
  load_close h none = none
  load_close h (some (r, s)) = loaded r (fs_close_file h s)

  -- The size is used whatever the file system returns with it.
  abbrev pub load_read :
      FileHandle → ℕ → Option ((Ret × ℕ) × State D) → Option ((Ret × List ℕ) × State D)
  load_read h maxlen none = none
  load_read h maxlen (some ((ignored, size), s)) =
      load_close h (fs_read_file h 0 (min maxlen size) s)

  abbrev pub load_opened :
      ℕ → Option ((Ret × Option FileHandle) × State D) → Option ((Ret × List ℕ) × State D)
  load_opened maxlen none = none
  load_opened maxlen (some ((err e, h), s)) = some ((err e, []), s)
  load_opened maxlen (some ((ok n, none), s)) = none
  load_opened maxlen (some ((ok n, some h), s)) = load_read h maxlen (fs_stat_file h s)

  pub fs_load_file : List ℕ → ℕ → State D → Option ((Ret × List ℕ) × State D)
  unfolding fs_open_file fs_stat_file fs_read_file fs_close_file
  fs_load_file path maxlen s = load_opened maxlen (fs_open_file path s)

-- The text after the byte, as often as it stands at the front.
abbrev pub skip : ℕ → List ℕ → List ℕ
skip b [] = []
skip b (c ∷ cs) = let rest = skip b cs in if c == b then rest else c ∷ cs

pub trim_name : List ℕ → List ℕ
trim_name name = skip b'/' (skip b' ' name)
