-- ===== src/Mounts.antt =====
-- kernel/core/fs.c: the mounts, their reference counts, and the handles of open files.
--
-- A mount is known by its address. Paths are texts without their final zero; a function whose name
-- ends in `_at` is what the code does with a path once it is normalised. The operations return none where the code follows a pointer to a mount that was
-- freed.
pub mod Counts
pub mod Prefix
mod Paths
pub mod Calls
pub mod Files
pub mod Tests
use i80k.Base.{
  ℕ, zero, suc, ◌+◌, ◌-◌, ◌*◌, ◌++◌, take, length, ◌^◌, Bool, true, false, Option, none, some, List,
  [], ◌∷◌, ◌==◌, if◌then◌else◌,
}
use i80k.Base.Word.{Ret, ok, err, u16, sub16}
use i80k.FsPath.{fs_normalize_path}

abbrev pub err_no_entry : ℕ
err_no_entry = 2

-- The functions of a file system, over a state `D` of its own; an Option where it need not have
-- the function. `read` gives the bytes that it stores with what it returns, `stat` the size.
pub record FsApi (D : Type 0) : Type 0 where
  pub unmount : ℕ → D → D
  pub open_file : ℕ → List ℕ → D → (Ret × ℕ) × D
  pub close_file : ℕ → D → Ret × D
  pub read : ℕ → ℕ → ℕ → D → (Ret × List ℕ) × D
  pub write : Option (ℕ → List ℕ → ℕ → D → Ret × D)
  pub truncate : ℕ → ℕ → D → Ret × D
  pub stat : ℕ → D → (Ret × ℕ) × D
  pub remove : Option (ℕ → List ℕ → D → Ret × D)
  pub mkdir : Option (ℕ → List ℕ → D → Ret × D)
  pub create : Option (ℕ → List ℕ → ℕ → D → (Ret × ℕ) × D)
  pub opendir : Option (ℕ → List ℕ → D → (Ret × ℕ) × D)
  pub closedir : Option (ℕ → D → Ret × D)

-- `struct fs_mount`, with its address; `ref` is a 16-bit pattern.
pub record FsMount (D : Type 0) : Type 0 where
  pub address : ℕ
  pub path : List ℕ
  pub cookie : ℕ
  pub ref : ℕ
  pub api : FsApi D

-- `struct filehandle`
pub record FileHandle : Type 0 where
  pub cookie : ℕ
  pub mount : ℕ

-- `FS_MAX_PATH_LEN`
abbrev pub max_path_len : ℕ
max_path_len = 128

-- The text of a buffer, up to its final zero.
pub text_of : List ℕ → List ℕ
text_of [] = []
text_of (c ∷ cs) = let rest = text_of cs in if c == 0 then [] else c ∷ rest

abbrev pub text_in : Option (List ℕ) → Option (List ℕ)
text_in none = none
text_in (some buf) = some (text_of buf)

-- The copy of a path in `temppath`, by `strlcpy`, after `fs_normalize_path`; its fuel is enough.
pub normal_path : List ℕ → Option (List ℕ)
unfolding text_of
normal_path path =
    let text = take (max_path_len - 1) path in
    text_in (fs_normalize_path (4 * length text + 4) (text ++ (0 ∷ [])))

abbrev pub with_path : {A : Type 0} → Option (List ℕ) → (List ℕ → Option A) → Option A
with_path none f = none
with_path (some path) f = f path

-- What follows a mount's path in a path, if that starts with it.
pub strip : List ℕ → List ℕ → Option (List ℕ)
strip [] path = some path
strip (c ∷ cs) [] = none
strip (c ∷ cs) (d ∷ ds) = if d == c then strip cs ds else none

-- The path that the file system gets: from the next separator on, and "/" for the mount itself.
abbrev pub trimmed_path : Option (List ℕ) → Option (List ℕ)
trimmed_path none = none
trimmed_path (some []) = some (b'/' ∷ [])
trimmed_path (some (c ∷ cs)) = if c == b'/' then some (c ∷ cs) else none

abbrev pub State : Type 0 → Type 0
State D = List (FsMount D) × D

module _ {D : Type 0} where
  abbrev pub or_later :
      FsMount D → Option (List ℕ) → Option (FsMount D × List ℕ) → Option (FsMount D × List ℕ)
  or_later m none later = later
  or_later m (some rest) later = some (m, rest)

  -- The loop of `find_mount`.
  pub search : List ℕ → List (FsMount D) → Option (FsMount D × List ℕ)
  unfolding strip
  search path [] = none
  search path (m ∷ ms) = or_later m (trimmed_path (strip m.path path)) (search path ms)

  -- A change of the count of the mount at an address.
  pub count_ref : (ℕ → ℕ) → ℕ → List (FsMount D) → List (FsMount D)
  count_ref f a [] = []
  count_ref f a (m ∷ ms) =
      let rest = count_ref f a ms in
      if m.address == a then record m { ref = f m.ref } ∷ ms else m ∷ rest

  abbrev pub found_mount :
      List (FsMount D)
      → Option (FsMount D × List ℕ)
      → Option (FsMount D × List ℕ) × List (FsMount D)
  found_mount ms none = (none, ms)
  found_mount ms (some (m, rest)) = (some (m, rest), count_ref (λ n. u16 (n + 1)) m.address ms)

  -- `find_mount`; a path that does not start with a separator has no mount.
  pub find_mount : List ℕ → List (FsMount D) → Option (FsMount D × List ℕ) × List (FsMount D)
  unfolding search count_ref
  find_mount [] ms = (none, ms)
  find_mount (c ∷ cs) ms = if c == b'/' then found_mount ms (search (c ∷ cs) ms) else (none, ms)

  abbrev pub kept : FsMount D → Option (List (FsMount D) × D) → Option (List (FsMount D) × D)
  kept m none = none
  kept m (some (ms, d)) = some (m ∷ ms, d)

  -- `put_mount` of the mount at an address.
  pub put_mount : ℕ → List (FsMount D) → D → Option (List (FsMount D) × D)
  put_mount a [] d = none
  put_mount a (m ∷ ms) d =
      let rest = put_mount a ms d in
      if m.address == a
      then (let ref = sub16 m.ref 1 in
          if ref == 0
          then some (ms, m.api.unmount m.cookie d)
          else some (record m { ref = ref } ∷ ms, d))
      else kept m rest

  abbrev pub failing : ℕ → Option (State D) → Option ((Ret × Option FileHandle) × State D)
  failing e none = none
  failing e (some s) = some ((err e, none), s)

  -- What `fs_open_file` makes of the file system's answer.
  pub opened : ℕ → Ret × ℕ → State D → Option ((Ret × Option FileHandle) × State D)
  unfolding put_mount
  opened a (ok n, cookie) s = some ((ok 0, some (record { cookie = cookie; mount = a })), s)
  opened a (err e, cookie) (ms, d) = failing e (put_mount a ms d)

  abbrev pub open_on :
      Option (FsMount D × List ℕ) × List (FsMount D)
      → D
      → Option ((Ret × Option FileHandle) × State D)
  open_on (none, ms) d = some ((err err_no_entry, none), (ms, d))
  open_on (some (m, rest), ms) d =
      let (answer, d') = m.api.open_file m.cookie rest d in opened m.address answer (ms, d')

  -- `fs_open_file` of a path that is normalised, where malloc gives the handle.
  pub open_file_at : List ℕ → State D → Option ((Ret × Option FileHandle) × State D)
  unfolding find_mount opened
  open_file_at path (ms, d) = open_on (find_mount path ms) d

  pub fs_open_file : List ℕ → State D → Option ((Ret × Option FileHandle) × State D)
  unfolding normal_path open_file_at
  fs_open_file path s = with_path (normal_path path) (λ p. open_file_at p s)

  pub find_address : ℕ → List (FsMount D) → Option (FsMount D)
  find_address a [] = none
  find_address a (m ∷ ms) = if m.address == a then some m else find_address a ms

  abbrev pub put_result : Option (State D) → Option (Ret × State D)
  put_result none = none
  put_result (some s) = some (ok 0, s)

  pub closed : ℕ → Ret × D → List (FsMount D) → Option (Ret × State D)
  unfolding put_mount
  closed a (ok n, d) ms = put_result (put_mount a ms d)
  closed a (err e, d) ms = some (err e, (ms, d))

  abbrev pub close_on : FileHandle → Option (FsMount D) → State D → Option (Ret × State D)
  close_on h none s = none
  close_on h (some m) (ms, d) = closed h.mount (m.api.close_file h.cookie d) ms

  pub fs_close_file : FileHandle → State D → Option (Ret × State D)
  unfolding find_address closed
  fs_close_file h (ms, d) = close_on h (find_address h.mount ms) (ms, d)

  abbrev pub put_again : ℕ → Option (State D) → Option (Ret × State D)
  put_again a none = none
  put_again a (some (ms, d)) = put_result (put_mount a ms d)

  abbrev pub unmount_on :
      Option (FsMount D × List ℕ) × List (FsMount D) → D → Option (Ret × State D)
  unmount_on (none, ms) d = some (err err_no_entry, (ms, d))
  unmount_on (some (m, rest), ms) d = put_again m.address (put_mount m.address ms d)

  -- `fs_unmount` of a normalised path drops the count that the search added and one more.
  pub unmount_at : List ℕ → State D → Option (Ret × State D)
  unfolding find_mount put_mount
  unmount_at path (ms, d) = unmount_on (find_mount path ms) d

  pub fs_unmount : List ℕ → State D → Option (Ret × State D)
  unfolding normal_path unmount_at
  fs_unmount path s = with_path (normal_path path) (λ p. unmount_at p s)
