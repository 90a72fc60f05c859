-- ===== src/FsPath/Tests.antt =====
-- Paths in buffers.
use i80k.FsPath.Ends.{fs_normalize_path-ends}
use i80k.Base.{◌++◌, ◌≤◌, ◌<◌, length, get_or, arith, ℕ, ◌≡◌, refl, some, List, [], ◌∷◌}
use i80k.FsPath.{backtrack, walk_back, turn, scan, fs_normalize_path}

abbrev messy : List ℕ
messy =
    b'/' ∷ b'a' ∷ b'/' ∷ b'.' ∷ b'.' ∷ b'/' ∷ b'/' ∷ b'.' ∷ b'b' ∷ b'/' ∷ b'.' ∷ b'/' ∷ 0 ∷ 99 ∷ []

-- "/a/..//.b/./" is "/.b".
normalized :
    fs_normalize_path 60 messy
    ≡ some (
        b'/' ∷ b'.' ∷ b'b' ∷ 0 ∷ b'.' ∷ b'/' ∷ b'/' ∷ b'.' ∷ b'b' ∷ b'/' ∷ b'.' ∷ b'/' ∷ 0 ∷ 99
        ∷ [])
unfolding fs_normalize_path scan turn backtrack walk_back
normalized = refl

fs_normalize_path-ends_example :
    (out : List ℕ) × (fs_normalize_path 52 messy ≡ some out)
    × (length out ≡ 14)
    × ((end : ℕ) × (end ≤ 12) × (get_or out end 0 ≡ 0))
    × ((i : ℕ) → 12 < i → get_or out i 0 ≡ get_or messy i 0)
fs_normalize_path-ends_example = fs_normalize_path-ends 12 messy (omega arith) refl

-- "/a/../a//f/"
abbrev pub untidy : List ℕ
untidy = b'/' ∷ b'a' ∷ b'/' ∷ b'.' ∷ b'.' ∷ b'/' ∷ b'a' ∷ b'/' ∷ b'/' ∷ b'f' ∷ b'/' ∷ []

pub untidy_normal :
    fs_normalize_path 48 (untidy ++ (0 ∷ []))
    ≡ some (b'/' ∷ b'a' ∷ b'/' ∷ b'f' ∷ 0 ∷ b'/' ∷ b'a' ∷ b'/' ∷ b'/' ∷ b'f' ∷ b'/' ∷ 0 ∷ [])
unfolding fs_normalize_path scan turn backtrack walk_back
untidy_normal = refl
