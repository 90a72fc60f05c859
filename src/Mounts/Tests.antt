-- ===== src/Mounts/Tests.antt =====
-- Two mounts, "/a" and "/a/b", of a file system that has the one file "/f" and counts the mounts that were taken off.
use i80k.Base.{
  ap, ℕ, ◌+◌, ◌≡◌, refl, arith, none, some, List, [], ◌∷◌, ◌==◌, if◌then◌else◌, get_or, replicate,
}
use i80k.Base.Word.{ok, err}
use i80k.FsPath.Tests.{untidy, untidy_normal}
use i80k.Mounts.{normal_path, text_of, text_in, FsApi, FsMount, find_address, strip, search}
use i80k.Mounts.Counts.{Mounted, first, later}
use i80k.Mounts.Calls.{Fs}
use i80k.Mounts.Prefix.{Under, search-Under}

abbrev one_file : FsApi ℕ
one_file = record {
  unmount = λ cookie d. d + 1;
  open_file = λ cookie path d. ((if get_or path 1 0 == b'f' then ok 0 else err 2, cookie), d);
  close_file = λ cookie d. (ok 0, d);
  read = λ cookie offset len d. ((ok len, replicate len 65), d);
  write = none;
  truncate = λ cookie len d. (ok 0, d);
  stat = λ cookie d. ((ok 0, 20), d);
  remove = none;
  mkdir = some (λ cookie path d. (ok 0, d + 10));
  create = none;
  opendir = some (λ cookie path d. ((ok 0, 7), d));
  closedir = some (λ cookie d. (ok 0, d));
}

abbrev pub outer : FsMount ℕ
outer = record { address = 100; path = b'/' ∷ b'a' ∷ []; cookie = 1; ref = 1; api = one_file }

abbrev inner : FsMount ℕ
inner = record {
  address = 200;
  path = b'/' ∷ b'a' ∷ b'/' ∷ b'b' ∷ [];
  cookie = 2;
  ref = 1;
  api = one_file;
}

-- The mounts are added at the head.
abbrev pub table : List (FsMount ℕ)
table = inner ∷ outer ∷ []

-- "/a/f" is the file "/f" on the outer mount.
pub on_outer : search (b'/' ∷ b'a' ∷ b'/' ∷ b'f' ∷ []) table ≡ some (outer, b'/' ∷ b'f' ∷ [])
unfolding search strip
on_outer = refl

search-Under_example : Under (b'/' ∷ b'a' ∷ b'/' ∷ b'f' ∷ []) (b'/' ∷ b'a' ∷ []) (b'/' ∷ b'f' ∷ [])
search-Under_example =
    search-Under (b'/' ∷ b'a' ∷ b'/' ∷ b'f' ∷ []) table outer (b'/' ∷ b'f' ∷ []) on_outer

pub outer-Mounted : Mounted 100 table
outer-Mounted = later (λ e. absurd (omega (arith, e))) (first refl (omega arith) (omega arith))

on_outer_none : search (b'/' ∷ b'a' ∷ b'/' ∷ b'x' ∷ []) table ≡ some (outer, b'/' ∷ b'x' ∷ [])
unfolding search strip
on_outer_none = refl

pub at_outer : find_address 100 table ≡ some outer
unfolding find_address
at_outer = refl

on_outer_self : search (b'/' ∷ b'a' ∷ []) table ≡ some (outer, b'/' ∷ [])
unfolding search strip
on_outer_self = refl

abbrev one_file_fs : Fs ℕ
one_file_fs = record { api = one_file; mount = λ dev d. ((ok 0, 9), d + 100) }

nothing_there : search (b'/' ∷ b'c' ∷ []) table ≡ none
unfolding search strip
nothing_there = refl

pub untidy_path : normal_path untidy ≡ some (b'/' ∷ b'a' ∷ b'/' ∷ b'f' ∷ [])
unfolding normal_path text_of
untidy_path = ap text_in untidy_normal
