-- ===== src/Mounts/Calls/Balance.antt =====
-- kernel/core/fs.c: the calls on a path keep the counts, and an unmount undoes a mount.
use i80k.Base.{ap, ℕ, ◌≡◌, refl, ◌∙◌, true, Option, none, some, List, [], ◌∷◌, ==_self}
use i80k.Base.Word.{Ret, ok, err}
use i80k.Mounts.{
  FsMount, State, strip, trimmed_path, or_later, search, count_ref, found_mount, find_mount,
  put_result, find_address, unmount_at, closed,
}
use i80k.Mounts.Calls.{
  Fs, DirHandle, err_not_supp, returning, with_call, call_on, remove_file_at, make_dir_at,
  with_opendir, open_dir_on, dir_opened, open_dir_at, with_closedir, close_dir_on, fs_close_dir,
  mount_at, new_mount, mount_normal,
}
use i80k.Mounts.Counts.{
  Mounted, put_mount-count_ref, find_address-count_ref, counted, add_one, alone, fs_unmount-last,
}

strip_self : (path : List ℕ) → strip path path ≡ some []
unfolding strip
strip_self [] = refl
strip_self (c ∷ cs) = rw (==_self c) (strip_self cs)

-- The outcome of opening a device that is there, if one is named.
abbrev pub named : Option ℕ → Option (Option ℕ)
named none = none
named (some dev) = some (some dev)

module _ {D : Type 0} where
  -- The answer of a file system to a call that it need not have, and its state.
  abbrev pub answer : Option (ℕ → List ℕ → D → Ret × D) → ℕ → List ℕ → D → Ret × D
  answer none cookie rest d = (err err_not_supp, d)
  answer (some f) cookie rest d = f cookie rest d

  module _ (cs rest : List ℕ) (ms : List (FsMount D)) (m : FsMount D) (d : D)
      (on : search (b'/' ∷ cs) ms ≡ some (m, rest)) (mounted : Mounted m.address ms) where
    with_call_balanced :
        (o : Option (ℕ → List ℕ → D → Ret × D))
        → with_call m rest (count_ref add_one m.address ms, d) o
          ≡ some ((answer o m.cookie rest d).0, (ms, (answer o m.cookie rest d).1))
    with_call_balanced none =
        ap (returning (err err_not_supp)) (put_mount-count_ref m.address ms d mounted)
    with_call_balanced (some f) =
        ap (returning (f m.cookie rest d).0)
          (put_mount-count_ref m.address ms (f m.cookie rest d).1 mounted)

    -- Making a directory and removing a file return what the file system answers, or that it does
    -- not support the call, and leave the mounts as they were.
    calls_balanced :
        (make_dir_at (b'/' ∷ cs) (ms, d)
          ≡ some (
            (answer m.api.mkdir m.cookie rest d).0,
            (ms, (answer m.api.mkdir m.cookie rest d).1),
          ))
        × (remove_file_at (b'/' ∷ cs) (ms, d)
            ≡ some (
              (answer m.api.remove m.cookie rest d).0,
              (ms, (answer m.api.remove m.cookie rest d).1),
            ))
    unfolding make_dir_at remove_file_at find_mount
    calls_balanced = (
      ap (λ s. call_on (λ api. api.mkdir) (found_mount ms s) d) on ∙ with_call_balanced m.api.mkdir,
      ap (λ s. call_on (λ api. api.remove) (found_mount ms s) d) on
          ∙ with_call_balanced m.api.remove,
    )

    -- A directory that is opened and closed leaves the mounts as they were.
    fs_close_dir-fs_open_dir :
        (f : ℕ → List ℕ → D → (Ret × ℕ) × D) (g : ℕ → D → Ret × D) (n k cookie : ℕ) (d' d'' : D)
        → find_address m.address ms ≡ some m
        → m.api.opendir ≡ some f
        → m.api.closedir ≡ some g
        → f m.cookie rest d ≡ ((ok n, cookie), d')
        → g cookie d' ≡ (ok k, d'')
        → (h : DirHandle) × (s : State D) × (open_dir_at true (b'/' ∷ cs) (ms, d)
            ≡ some ((ok 0, some h), s))
          × (fs_close_dir h s ≡ some (ok 0, (ms, d'')))
    unfolding open_dir_at find_mount fs_close_dir closed
    fs_close_dir-fs_open_dir f g n k cookie d' d'' there has_open has_close opens closes =
        let h : DirHandle = record { cookie = cookie; mount = m.address } in
        let counted_ms = count_ref add_one m.address ms in
        (
          h,
          (counted_ms, d'),
          ap (λ s. open_dir_on true (found_mount ms s) d) on
              ∙ ap (λ o. with_opendir true m rest (counted_ms, d) o) has_open
              ∙ ap (λ (r : (Ret × ℕ) × D). dir_opened true m.address r.0 (counted_ms, r.1)) opens,
          ap (λ o. close_dir_on h o (counted_ms, d'))
                (find_address-count_ref add_one m.address ms ∙ ap (counted add_one) there)
              ∙ ap (λ o. with_closedir h (counted_ms, d') o) has_close
              ∙ ap (λ r. closed m.address r counted_ms) closes
              ∙ ap put_result (put_mount-count_ref m.address ms d'' mounted),
        )

  -- A mount at a path that has none, and its unmount, which tells the file system.
  fs_unmount-fs_mount :
      (cs : List ℕ) (ms : List (FsMount D)) (d d' : D) (a n cookie : ℕ) (fs : Fs D) (dev : Option ℕ)
      → search (b'/' ∷ cs) ms ≡ none
      → fs.mount dev d ≡ ((ok n, cookie), d')
      → (s : State D) × (mount_normal true a (b'/' ∷ cs) (some fs) (named dev) (ms, d)
          ≡ some (ok 0, s))
        × (unmount_at (b'/' ∷ cs) s ≡ some (ok 0, (ms, fs.api.unmount cookie d')))
  unfolding mount_normal find_mount search
  fs_unmount-fs_mount cs ms d d' a n cookie fs dev absent mounts =
      let path = b'/' ∷ cs in
      let m : FsMount D = record {
        address = a;
        path = path;
        cookie = cookie;
        ref = 1;
        api = fs.api;
      } in
      let found : search path (m ∷ ms) ≡ some (m, b'/' ∷ []) =
        ap (λ o. or_later m (trimmed_path o) (search path ms)) (strip_self path) in
      (
        (m ∷ ms, d'),
        ap (λ s. mount_at true a path fs (named dev) (found_mount ms s) d) absent
            ∙ by_device dev mounts,
        fs_unmount-last cs (b'/' ∷ []) [] ms m d' found alone refl,
      )
    where
      by_device :
          (o : Option ℕ)
          → fs.mount o d ≡ ((ok n, cookie), d')
          → mount_at true a (b'/' ∷ cs) fs (named o) (none, ms) d
            ≡ some (
              ok 0,
              (
                record { address = a; path = b'/' ∷ cs; cookie = cookie; ref = 1; api = fs.api }
                    ∷ ms,
                d',
              ),
            )
      by_device none e = ap (λ r. some (new_mount true a (b'/' ∷ cs) fs r ms)) e
      by_device (some x) e = ap (λ r. some (new_mount true a (b'/' ∷ cs) fs r ms)) e
