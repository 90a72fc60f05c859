-- ===== src/FsPath.antt =====
-- kernel/core/fs.c: the normalisation of a path, in place. The indices are `int` in the code; a text
-- of fewer than 2 ^ 15 characters, as each path is that fs.c normalises, keeps them in their range.
mod Bounds
pub mod Ends
pub mod Tests
use i80k.Base.{
  ℕ, zero, suc, ◌+◌, Bool, true, false, ◌||◌, Option, none, some, List, [], ◌∷◌, ◌==◌,
  if◌then◌else◌, get_or, set,
}

-- The states of `fs_normalize_path`.
pub data PathState : Type 0 where
  initial : PathState
  field_start : PathState
  in_field : PathState
  sep : PathState
  seen_sep : PathState
  dot : PathState
  seen_dot : PathState
  dotdot : PathState
  seen_dotdot : PathState

pub record Scan : Type 0 where
  pub state : PathState
  pub pos : ℕ
  pub outpos : ℕ
  pub path : List ℕ

-- How a turn of the loop ends: with the next turn, or with `outpos` and the path once `done` is set.
pub data Turn : Type 0 where
  again : Scan → Turn
  done : ℕ → List ℕ → Turn

-- The loop that walks backwards to the start of a field.
pub walk_back : List ℕ → ℕ → ℕ
walk_back path zero = zero
walk_back path (suc o) =
    let rest = walk_back path o in if get_or path o 0 == b'/' then suc o else rest

-- Consuming a field that was emitted.
pub backtrack : List ℕ → ℕ → ℕ
unfolding walk_back
backtrack path zero = zero
backtrack path (suc o) = walk_back path o

abbrev pub goto : PathState → Scan → Scan
goto st m = record m { state = st }

-- One turn, on the character at `pos`.
pub turn : PathState → Scan → ℕ → Turn
unfolding backtrack
turn initial m c =
    if c == b'/'
    then again (goto sep m)
    else if c == b'.'
    then again (goto dot m)
    else again (goto field_start m)
turn field_start m c =
    if c == b'.'
    then again (goto dot m)
    else if c == 0
    then done m.outpos m.path
    else again (goto in_field m)
turn in_field m c =
    if c == b'/'
    then again (goto sep m)
    else if c == 0
    then done m.outpos m.path
    else again (record m { path = set m.path m.outpos c; outpos = m.outpos + 1; pos = m.pos + 1 })
turn sep m c = again (record {
  state = seen_sep;
  pos = m.pos + 1;
  outpos = m.outpos + 1;
  path = set m.path m.outpos b'/';
})
turn seen_sep m c =
    if c == b'/'
    then again (record m { pos = m.pos + 1 })
    else if c == 0
    then done m.outpos m.path
    else again (goto field_start m)
turn dot m c = again (record m { state = seen_dot; pos = m.pos + 1 })
turn seen_dot m c =
    if c == b'.'
    then again (goto dotdot m)
    else if c == b'/'
    then again (record m { state = seen_sep; pos = m.pos + 1 })
    else if c == 0
    then done m.outpos m.path
    else again
        (record m { state = in_field; path = set m.path m.outpos b'.'; outpos = m.outpos + 1 })
turn dotdot m c = again (record m { state = seen_dotdot; pos = m.pos + 1 })
turn seen_dotdot m c =
    if c == b'/'
    then again (record m { state = seen_sep; pos = m.pos + 1; outpos = backtrack m.path m.outpos })
    else if c == 0
    then done (backtrack m.path m.outpos) m.path
    else again (record m {
      state = in_field;
      path = set (set m.path m.outpos b'.') (m.outpos + 1) b'.';
      outpos = m.outpos + 2;
    })

-- The loop, on fuel.
pub scan : ℕ → Turn → Option (ℕ × List ℕ)
unfolding turn
scan fuel (done o path) = some (o, path)
scan zero (again m) = none
scan (suc fuel) (again m) = scan fuel (turn m.state m (get_or m.path m.pos 0))

-- "don't end with trailing slashes"
abbrev pub trimmed : ℕ → List ℕ → ℕ
trimmed zero path = zero
trimmed (suc o) path = if get_or path o 0 == b'/' then o else suc o

abbrev pub terminated : Option (ℕ × List ℕ) → Option (List ℕ)
terminated none = none
terminated (some (o, path)) = some (set path (trimmed o path) 0)

abbrev pub at_start : List ℕ → Scan
at_start path = record { state = initial; pos = 0; outpos = 0; path = path }

pub fs_normalize_path : ℕ → List ℕ → Option (List ℕ)
unfolding scan
fs_normalize_path fuel path = terminated (scan fuel (again (at_start path)))
