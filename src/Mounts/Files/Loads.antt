-- ===== src/Mounts/Files/Loads.antt =====
-- kernel/core/fs.c: what is loaded from a file, with the mounts as they were.
use i80k.Base.{ap, ℕ, ◌≡◌, ◌∙◌, some, List, ◌∷◌, min}
use i80k.Base.Word.{Ret, ok}
use i80k.Mounts.{
  FsMount, FileHandle, search, count_ref, opened, find_address, closed, close_on, fs_open_file,
  open_file_at, normal_path, with_path, fs_close_file, put_result,
}
use i80k.Mounts.Counts.{
  Mounted, put_mount-count_ref, find_address-count_ref, counted, add_one, open_step,
}
use i80k.Mounts.Files.{
  read_on, fs_read_file, stat_on, fs_stat_file, loaded, load_close, load_read, load_opened,
  fs_load_file,
}

-- A file that is open on the mount, and the mounts while it is open.
abbrev pub handle_on : {D : Type 0} → FsMount D → ℕ → FileHandle
handle_on m cookie = record { cookie = cookie; mount = m.address }

abbrev pub mounts_open : {D : Type 0} → FsMount D → List (FsMount D) → List (FsMount D)
mounts_open m ms = count_ref add_one m.address ms

module _ {D : Type 0} (cs rest : List ℕ) (ms : List (FsMount D)) (m : FsMount D) (d : D)
    (on : search (b'/' ∷ cs) ms ≡ some (m, rest)) (there : find_address m.address ms ≡ some m)
    (mounted : Mounted m.address ms) where
  pub counted_there :
      find_address m.address (mounts_open m ms) ≡ some (record m { ref = add_one m.ref })
  counted_there = find_address-count_ref add_one m.address ms ∙ ap (counted add_one) there

  -- Opening a file by a path that is normalised to the one on the mount.
  pub fs_open_file_open :
      (path : List ℕ) (n cookie : ℕ) (d1 : D)
      → normal_path path ≡ some (b'/' ∷ cs)
      → m.api.open_file m.cookie rest d ≡ ((ok n, cookie), d1)
      → fs_open_file path (ms, d) ≡ some ((ok 0, some (handle_on m cookie)), (mounts_open m ms, d1))
  unfolding fs_open_file opened
  fs_open_file_open path n cookie d1 normal opens =
      ap (λ o. with_path o (λ p. open_file_at p (ms, d))) normal
      ∙ open_step cs rest ms m d on there mounted ((ok n, cookie), d1) opens

  -- A read of a file that is open on the mount.
  pub fs_read_file_open :
      (cookie offset len : ℕ) (r : Ret × List ℕ) (d1 d2 : D)
      → m.api.read cookie offset len d1 ≡ (r, d2)
      → fs_read_file (handle_on m cookie) offset len (mounts_open m ms, d1)
        ≡ some (r, (mounts_open m ms, d2))
  unfolding fs_read_file
  fs_read_file_open cookie offset len r d1 d2 reads =
      ap (λ o. read_on (handle_on m cookie) offset len o (mounts_open m ms, d1)) counted_there
      ∙ ap (λ (a : (Ret × List ℕ) × D). some (a.0, (mounts_open m ms, a.1))) reads

  -- Closing a file that is open on the mount.
  pub fs_close_file_open :
      (cookie k : ℕ) (d1 d2 : D)
      → m.api.close_file cookie d1 ≡ (ok k, d2)
      → fs_close_file (handle_on m cookie) (mounts_open m ms, d1) ≡ some (ok 0, (ms, d2))
  unfolding fs_close_file closed
  fs_close_file_open cookie k d1 d2 closes =
      ap (λ o. close_on (handle_on m cookie) o (mounts_open m ms, d1)) counted_there
      ∙ ap (λ r. closed m.address r (mounts_open m ms)) closes
      ∙ ap put_result (put_mount-count_ref m.address ms d2 mounted)

  -- Where the file system opens and closes the file, as many bytes are read from its start as
  -- there is room for or as its size says, whatever is returned with the size; the mounts are as
  -- before.
  fs_load_file-read :
      (path : List ℕ) (maxlen n k cookie size : ℕ) (answer : Ret) (r : Ret × List ℕ)
      (d1 d2 d3 d4 : D)
      → normal_path path ≡ some (b'/' ∷ cs)
      → m.api.open_file m.cookie rest d ≡ ((ok n, cookie), d1)
      → m.api.stat cookie d1 ≡ ((answer, size), d2)
      → m.api.read cookie 0 (min maxlen size) d2 ≡ (r, d3)
      → m.api.close_file cookie d3 ≡ (ok k, d4)
      → fs_load_file path maxlen (ms, d) ≡ some (r, (ms, d4))
  unfolding fs_load_file fs_stat_file
  fs_load_file-read path maxlen n k cookie size answer r d1 d2 d3 d4 normal opens stats reads
        closes =
      let h = handle_on m cookie in
      ap (load_opened maxlen) (fs_open_file_open path n cookie d1 normal opens)
      ∙ ap (λ o. load_read h maxlen (stat_on h o (mounts_open m ms, d1))) counted_there
      ∙ ap (λ (a : (Ret × ℕ) × D). load_read h maxlen (some (a.0, (mounts_open m ms, a.1)))) stats
      ∙ ap (load_close h) (fs_read_file_open cookie 0 (min maxlen size) r d2 d3 reads)
      ∙ ap (loaded r) (fs_close_file_open cookie k d3 d4 closes)
