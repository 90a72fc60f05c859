-- ===== src/Mounts/Paths.antt =====
-- kernel/core/fs.c: every path is normalised to some path.
use i80k.Base.{
  ap, ℕ, ◌-◌, ◌<◌, ◌≡◌, refl, some, List, [], ◌∷◌, ◌++◌, take, length, get_or, length-append, arith,
}
use i80k.FsPath.Ends.{fs_normalize_path-ends}
use i80k.Mounts.{max_path_len, text_of, text_in, normal_path}

zero_behind : (text : List ℕ) → get_or (text ++ (0 ∷ [])) (length text) 0 ≡ 0
zero_behind [] = refl
zero_behind (c ∷ text) = zero_behind text

-- The fuel is enough for any path.
normal_path-ends : (path : List ℕ) → (out : List ℕ) × (normal_path path ≡ some out)
unfolding normal_path
normal_path-ends path =
    let text = take (max_path_len - 1) path in
    let room : length text < length (text ++ (0 ∷ [])) =
      omega (arith, length-append text (0 ∷ [])) in
    let (out, ends, _, _, _) =
      fs_normalize_path-ends (length text) (text ++ (0 ∷ [])) room (zero_behind text) in
    (text_of out, ap text_in ends)
