-- ===== src/Mounts/Counts.antt =====
-- kernel/core/fs.c: which mount a path is on, and the balance of its count.
use i80k.Base.{
  ap, ℕ, ◌+◌, ◌^◌, ◌<◌, ◌≡◌, ◌≢◌, refl, ◌∙◌, arith, true, Option, none, some, List, [], ◌∷◌, ◌++◌,
  ◌==◌, ==_self, ==_of_ne, Bool-split, inl, inr,
}
use i80k.Base.Word.{Ret, ok, err, u16, sub16}
use i80k.Mounts.{
  put_again, unmount_on, unmount_at, FsMount, FileHandle, search, count_ref, found_mount,
  find_mount, put_mount, kept, State, open_on, opened, open_file_at, find_address, close_on, closed,
  fs_close_file, put_result, failing,
}

abbrev pub add_one : ℕ → ℕ
add_one n = u16 (n + 1)

-- A mount is on the list under its address, with a count that is positive and has room for one.
pub data Mounted {D : Type 0} (a : ℕ) : List (FsMount D) → Type 0 where
  first :
      {m : FsMount D} {ms : List (FsMount D)}
      → m.address ≡ a
      → 0 < m.ref
      → m.ref < 2 ^ 15
      → Mounted a (m ∷ ms)
  later :
      {m : FsMount D} {ms : List (FsMount D)} → m.address ≢ a → Mounted a ms → Mounted a (m ∷ ms)

dropped : (n : ℕ) → n < 2 ^ 15 → sub16 (add_one n) 1 ≡ n
dropped n small = omega arith

-- No mount of the list is at the address.
pub data Apart {D : Type 0} (a : ℕ) : List (FsMount D) → Type 0 where
  alone : Apart a []
  other : {m : FsMount D} {ms : List (FsMount D)} → m.address ≢ a → Apart a ms → Apart a (m ∷ ms)

module _ {D : Type 0} where
  -- Dropping the count that was just added leaves the mounts as they were.
  pub put_mount-count_ref :
      (a : ℕ) (ms : List (FsMount D)) (d : D)
      → Mounted a ms
      → put_mount a (count_ref add_one a ms) d ≡ some (ms, d)
  unfolding put_mount count_ref
  put_mount-count_ref a [] d on = elim on [ ]
  put_mount-count_ref a (m ∷ ms) d (first here pos small) =
      let test : (m.address == a) ≡ true = ap (λ x. x == a) here ∙ ==_self a in
      let positive = λ (e : m.ref ≡ 0). absurd (omega (arith, e, pos)) in
      rw (test, test, dropped m.ref small, ==_of_ne m.ref 0 positive) refl
  put_mount-count_ref a (m ∷ ms) d (later ne more) =
      rw (==_of_ne m.address a ne, ==_of_ne m.address a ne)
        (ap (kept m) (put_mount-count_ref a ms d more))

  -- The last count of a mount takes it off the list.
  put_mount-last :
      (before after : List (FsMount D)) (m : FsMount D) (d : D)
      → Apart m.address before
      → m.ref ≡ 1
      → put_mount m.address (before ++ (m ∷ after)) d
        ≡ some (before ++ after, m.api.unmount m.cookie d)
  unfolding put_mount
  put_mount-last [] after m d apart one =
      let zero_left : sub16 m.ref 1 ≡ 0 = ap (λ n. sub16 n 1) one in
      rw (==_self m.address, zero_left) refl
  put_mount-last (x ∷ before) after m d (other ne apart) one =
      rw (==_of_ne x.address m.address ne) (ap (kept x) (put_mount-last before after m d apart one))

  Mounted-middle :
      (before after : List (FsMount D)) (m : FsMount D)
      → Apart m.address before
      → m.ref ≡ 1
      → Mounted m.address (before ++ (m ∷ after))
  Mounted-middle [] after m apart one = first refl (omega (arith, one)) (omega (arith, one))
  Mounted-middle (x ∷ before) after m (other ne apart) one =
      later ne (Mounted-middle before after m apart one)

  -- A mount without open handles is taken off the list and its file system is told; the other
  -- mounts stay.
  pub fs_unmount-last :
      (cs rest : List ℕ) (before after : List (FsMount D)) (m : FsMount D) (d : D)
      → search (b'/' ∷ cs) (before ++ (m ∷ after)) ≡ some (m, rest)
      → Apart m.address before
      → m.ref ≡ 1
      → unmount_at (b'/' ∷ cs) (before ++ (m ∷ after), d)
        ≡ some (ok 0, (before ++ after, m.api.unmount m.cookie d))
  unfolding unmount_at find_mount
  fs_unmount-last cs rest before after m d on apart one =
      let ms = before ++ (m ∷ after) in
      ap (λ s. unmount_on (found_mount ms s) d) on
      ∙ ap (put_again m.address)
          (put_mount-count_ref m.address ms d (Mounted-middle before after m apart one))
      ∙ ap put_result (put_mount-last before after m d apart one)

  abbrev pub counted : (ℕ → ℕ) → Option (FsMount D) → Option (FsMount D)
  counted f none = none
  counted f (some m) = some (record m { ref = f m.ref })

  pub find_address-count_ref :
      (f : ℕ → ℕ) (a : ℕ) (ms : List (FsMount D))
      → find_address a (count_ref f a ms) ≡ counted f (find_address a ms)
  unfolding find_address count_ref
  find_address-count_ref f a [] = refl
  find_address-count_ref f a (m ∷ ms) = elim (Bool-split (m.address == a)) [
    | inl e ↦ rw (e, e) refl
    | inr e ↦ rw (e, e) (find_address-count_ref f a ms)
  ]

  module _ (cs rest : List ℕ) (ms : List (FsMount D)) (m : FsMount D) (d : D)
      (on : search (b'/' ∷ cs) ms ≡ some (m, rest)) (there : find_address m.address ms ≡ some m)
      (mounted : Mounted m.address ms) where
    pub open_step :
        (r : (Ret × ℕ) × D)
        → m.api.open_file m.cookie rest d ≡ r
        → open_file_at (b'/' ∷ cs) (ms, d)
          ≡ opened m.address r.0 (count_ref add_one m.address ms, r.1)
    unfolding open_file_at find_mount
    open_step r e =
        ap (λ s. open_on (found_mount ms s) d) on
        ∙ ap (λ (r : (Ret × ℕ) × D). opened m.address r.0 (count_ref add_one m.address ms, r.1)) e

    -- Where the file system refuses to open a file, its error is passed on and the mounts are as
    -- before.
    fs_open_file-fails :
        (e cookie : ℕ) (d' : D)
        → m.api.open_file m.cookie rest d ≡ ((err e, cookie), d')
        → open_file_at (b'/' ∷ cs) (ms, d) ≡ some ((err e, none), (ms, d'))
    unfolding opened
    fs_open_file-fails e cookie d' fails =
        open_step ((err e, cookie), d') fails
        ∙ ap (failing e) (put_mount-count_ref m.address ms d' mounted)

    -- Where the file system opens the file and later closes it, the handle is on the mount that the
    -- path is on, and closing it leaves the mounts as they were before it was opened.
    fs_close_file-fs_open_file :
        (n k cookie : ℕ) (d' d'' : D)
        → m.api.open_file m.cookie rest d ≡ ((ok n, cookie), d')
        → m.api.close_file cookie d' ≡ (ok k, d'')
        → (h : FileHandle) × (s : State D) × (open_file_at (b'/' ∷ cs) (ms, d)
            ≡ some ((ok 0, some h), s))
          × (h.mount ≡ m.address)
          × (fs_close_file h s ≡ some (ok 0, (ms, d'')))
    unfolding opened fs_close_file closed
    fs_close_file-fs_open_file n k cookie d' d'' opens closes = (
      record { cookie = cookie; mount = m.address },
      (count_ref add_one m.address ms, d'),
      open_step ((ok n, cookie), d') opens,
      refl,
      ap
            (λ o.
              close_on (record { cookie = cookie; mount = m.address }) o
                (count_ref add_one m.address ms, d'))
            (find_address-count_ref add_one m.address ms ∙ ap (counted add_one) there)
          ∙ ap (λ r. closed m.address r (count_ref add_one m.address ms)) closes
          ∙ ap put_result (put_mount-count_ref m.address ms d'' mounted),
    )
