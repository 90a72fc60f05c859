-- ===== src/Syscalls/Files.antt =====
-- kernel/syscall_fs.c: a file that is opened, read and closed, and one that there is no descriptor
-- for.
use i80k.Base.{
  ap, ℕ, ◌≡◌, ◌≢◌, refl, sym, ◌∙◌, Option, some, List, ◌∷◌, ◌==◌, ==_self, eq_of_==, arith,
  Bool-split, inl, inr,
}
use i80k.Base.Word.{Ret, ok, err}
use i80k.Mounts.{normal_path, FsMount, search, find_address, fs_open_file}
use i80k.Mounts.Counts.{Mounted}
use i80k.Mounts.Files.Loads.{
  handle_on, mounts_open, fs_open_file_open, fs_read_file_open, fs_close_file_open,
}
use i80k.Descriptors.{
  Descriptor, desc_file, table_of, task_put_desc, task_get_desc, task_reset_desc,
}
use i80k.Descriptors.Slots.{task_get_desc-task_put_desc, task_get_desc-task_reset_desc}
use i80k.Syscalls.{
  Process, handle_at, freed, sys_open, file_opened, described, returning, file_closed,
  close_file_with, close_file_at, sys_read, read_desc, data_read, read_handle, sys_close,
  close_desc, desc_reset,
}

-- The state after the file system opened a file, with its descriptors as given.
abbrev pub with_file :
    {D : Type 0}
    → Process D
    → FsMount D
    → List (FsMount D)
    → ℕ
    → ℕ
    → D
    → Option (List Descriptor)
    → Process D
with_file p m ms a cookie d1 table = record p {
  mounts = (mounts_open m ms, d1);
  descriptors = table;
  files = (a, handle_on m cookie) ∷ p.files;
}

handle_at-new :
    {A : Type 0} (a : ℕ) (h : A) (hs : List (ℕ × A)) → handle_at a ((a, h) ∷ hs) ≡ some h
unfolding handle_at
handle_at-new a h hs = rw (==_self a) refl

freed-new : {A : Type 0} (a : ℕ) (h : A) (hs : List (ℕ × A)) → freed a ((a, h) ∷ hs) ≡ hs
unfolding freed
freed-new a h hs = rw (==_self a) refl

descriptors_restored :
    (beyond : List Descriptor) (t : Option (List Descriptor)) (ds : List Descriptor) (a fd : ℕ)
    → task_put_desc beyond t desc_file a ≡ (ok fd, ds)
    → (i : ℕ)
    → task_get_desc (some (task_reset_desc ds fd)) i ≡ task_get_desc (some (table_of beyond t)) i
descriptors_restored beyond t ds a fd put i =
    let (before, _, others) = task_get_desc-task_put_desc beyond t desc_file a fd ds refl put in
    let (reset, others') = task_get_desc-task_reset_desc ds fd in
    elim (Bool-split (i == fd)) [
      | inl e ↦
          let same : i ≡ fd = eq_of_== i fd e in
          ap (task_get_desc (some (task_reset_desc ds fd))) same
          ∙ reset
          ∙ sym before
          ∙ ap (task_get_desc (some (table_of beyond t))) (sym same)
      | inr e ↦ let ne : i ≢ fd = λ h. ground arith in others' i ne ∙ others i ne
    ]

module _ {D : Type 0} (p : Process D) (path cs rest : List ℕ) (ms : List (FsMount D))
    (m : FsMount D) (d : D) (here : p.mounts ≡ (ms, d))
    (normal : normal_path path ≡ some (b'/' ∷ cs)) (on : search (b'/' ∷ cs) ms ≡ some (m, rest))
    (there : find_address m.address ms ≡ some m) (mounted : Mounted m.address ms) where
  module _ (a n cookie : ℕ) (d1 : D)
      (opens : m.api.open_file m.cookie rest d ≡ ((ok n, cookie), d1)) where
    sys_open_step :
        sys_open a path p
        ≡ described a
            (with_file p m ms a cookie d1 p.descriptors)
            (task_put_desc p.beyond p.descriptors desc_file a)
    unfolding sys_open
    sys_open_step =
        ap (λ s. file_opened a p (fs_open_file path s)) here
        ∙ ap (file_opened a p)
            (fs_open_file_open cs rest ms m d on there mounted path n cookie d1 normal opens)

    close_file_step :
        (table : Option (List Descriptor)) (k : ℕ) (d2 : D)
        → m.api.close_file cookie d1 ≡ (ok k, d2)
        → close_file_at a (with_file p m ms a cookie d1 table)
          ≡ some (ok 0, record p { mounts = (ms, d2); descriptors = table })
    unfolding handle_at freed
    close_file_step table k d2 closes =
        let q = with_file p m ms a cookie d1 table in
        ap (λ o. close_file_with a o q) (handle_at-new a (handle_on m cookie) p.files)
        ∙ ap (file_closed a q)
            (fs_close_file_open cs rest ms m d on there mounted cookie k d1 d2 closes)
        ∙ ap (λ fs. some (ok 0, record p { mounts = (ms, d2); descriptors = table; files = fs }))
            (freed-new a (handle_on m cookie) p.files)

    -- A path that is normalised to one on the mount, of a file that the file system opens and closes:
    -- where there is no descriptor left, the file is closed again: the mounts are as before, the
    -- handle is freed, and the error is that of the descriptors.
    pub sys_open-full :
        (e k : ℕ) (ds : List Descriptor) (d2 : D)
        → task_put_desc p.beyond p.descriptors desc_file a ≡ (err e, ds)
        → m.api.close_file cookie d1 ≡ (ok k, d2)
        → sys_open a path p ≡ some (err e, record p { mounts = (ms, d2); descriptors = some ds })
    sys_open-full e k ds d2 full closes =
        sys_open_step
        ∙ ap (described a (with_file p m ms a cookie d1 p.descriptors)) full
        ∙ ap (returning (err e)) (close_file_step (some ds) k d2 closes)

    module _ (fd : ℕ) (ds : List Descriptor)
        (put : task_put_desc p.beyond p.descriptors desc_file a ≡ (ok fd, ds)) where
      sys_open_given : sys_open a path p ≡ some (ok fd, with_file p m ms a cookie d1 (some ds))
      sys_open_given =
          sys_open_step ∙ ap (described a (with_file p m ms a cookie d1 p.descriptors)) put

      given_desc : task_get_desc (some ds) fd ≡ some (record { kind = desc_file; handle = a })
      given_desc = (task_get_desc-task_put_desc p.beyond p.descriptors desc_file a fd ds refl put).1

      -- A path that is normalised to one on the mount, of a file that the file system opens: where a
      -- descriptor is left, it is returned, and a read of it gives what the file system reads at the
      -- start of the file.
      pub sys_read-sys_open :
          (count : ℕ) (r : Ret × List ℕ) (d2 : D)
          → m.api.read cookie 0 count d1 ≡ (r, d2)
          → (q : Process D) × (sys_open a path p ≡ some (ok fd, q))
            × (sys_read fd count q ≡ some (r, record q { mounts = (q.mounts.0, d2) }))
      unfolding sys_read
      sys_read-sys_open count r d2 reads =
          let q = with_file p m ms a cookie d1 (some ds) in
          (
            q,
            sys_open_given,
            ap (λ o. read_desc count o q) given_desc
                ∙ ap (λ o. read_handle count o q) (handle_at-new a (handle_on m cookie) p.files)
                ∙ ap (data_read q) (
                    fs_read_file_open cs rest ms m d on there mounted cookie 0 count r d1 d2 reads),
          )

      -- A path that is normalised to one on the mount, of a file that the file system opens and
      -- closes: where a descriptor is left, it is returned, and closing it returns 0 and leaves the
      -- mounts and the handles as they were, and every descriptor as it was in the table, or in the
      -- new table with what memory holds after its allocation.
      pub sys_close-sys_open :
          (k : ℕ) (d2 : D)
          → m.api.close_file cookie d1 ≡ (ok k, d2)
          → (q q' : Process D) × (sys_open a path p ≡ some (ok fd, q))
            × (sys_close fd q ≡ some (ok 0, q'))
            × (q'.mounts ≡ (ms, d2))
            × (q'.files ≡ p.files)
            × ((i : ℕ)
                → task_get_desc q'.descriptors i
                  ≡ task_get_desc (some (table_of p.beyond p.descriptors)) i)
      unfolding sys_close
      sys_close-sys_open k d2 closes =
          let q = with_file p m ms a cookie d1 (some ds) in
          let after : Process D = record p {
            mounts = (ms, d2);
            descriptors = some (task_reset_desc ds fd);
          } in
          (
            q,
            after,
            sys_open_given,
            ap (λ o. close_desc fd o q) given_desc
                ∙ ap (desc_reset fd) (close_file_step (some ds) k d2 closes),
            refl,
            refl,
            descriptors_restored p.beyond p.descriptors ds a fd put,
          )
