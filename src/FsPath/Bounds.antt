-- ===== src/FsPath/Bounds.antt =====
-- kernel/core/fs.c: the normalisation of a path ends, and stays inside the text.
use i80k.Base.{
  ap, ℕ, zero, suc, ◌+◌, ◌-◌, ◌*◌, ◌≤◌, ◌<◌, ◌≡◌, ◌≢◌, refl, ◌∙◌, arith, Bool, true, false, List,
  ◌==◌, if◌then◌else◌, get_or, set, length, length-set, get_or-set_ne, eq_of_==, Bool-split, inl,
  inr,
}
use i80k.FsPath.{
  PathState, initial, field_start, in_field, sep, seen_sep, dot, seen_dot, dotdot, seen_dotdot,
  Scan, Turn, again, done, walk_back, backtrack, goto, turn,
}

-- How far the output is behind the input in a state.
abbrev lag : PathState → ℕ
lag initial = 0
lag field_start = 0
lag in_field = 0
lag sep = 0
lag seen_sep = 0
lag dot = 0
lag seen_dot = 1
lag dotdot = 1
lag seen_dotdot = 2

-- Whether the state is about to consume a character that it has seen.
abbrev ahead : PathState → ℕ
ahead initial = 0
ahead field_start = 0
ahead in_field = 0
ahead sep = 1
ahead seen_sep = 0
ahead dot = 1
ahead seen_dot = 0
ahead dotdot = 1
ahead seen_dotdot = 0

-- The turns that a state may take before it consumes a character.
abbrev rank : PathState → ℕ
rank initial = 3
rank field_start = 2
rank in_field = 1
rank sep = 0
rank seen_sep = 3
rank dot = 0
rank seen_dot = 2
rank dotdot = 0
rank seen_dotdot = 2

pub walk_back-le : (path : List ℕ) (o : ℕ) → walk_back path o ≤ o
unfolding walk_back
walk_back-le path zero = omega arith
walk_back-le path (suc o) = let h = walk_back-le path o in ground arith

pub backtrack-le : (path : List ℕ) (o : ℕ) → backtrack path o ≤ o
unfolding backtrack
backtrack-le path zero = omega arith
backtrack-le path (suc o) = let h = walk_back-le path o in omega (arith, h)

-- `n` is the length of the text, and `text` what the buffer held at first.
module _ (n : ℕ) (text : List ℕ) where
  -- The output is behind the input, which is inside the text, and what is not read yet is as it was.
  pub record Inside (m : Scan) : Type 0 where
    pub behind : lag m.state + m.outpos ≤ m.pos
    pub within : m.pos + ahead m.state ≤ n
    pub unread : (i : ℕ) → m.pos ≤ i → get_or m.path i 0 ≡ get_or text i 0
    pub size : length m.path ≡ length text

  abbrev pub work : Scan → ℕ
  work m = 4 * (n - m.pos) + rank m.state

  -- What a turn leaves of a loop with `w` turns to go.
  pub data Sound (w : ℕ) : Turn → Type 0 where
    goes_on : {m : Scan} → Inside m → work m < w → Sound w (again m)
    ends :
        {o : ℕ} {path : List ℕ}
        → o ≤ n
        → length path ≡ length text
        → ((i : ℕ) → n ≤ i → get_or path i 0 ≡ get_or text i 0)
        → Sound w (done o path)

  choose :
      {w : ℕ} (b : Bool) {s t : Turn}
      → (b ≡ true → Sound w s)
      → (b ≡ false → Sound w t)
      → Sound w (if b then s else t)
  choose true yes_case no_case = yes_case refl
  choose false yes_case no_case = no_case refl

  -- Another state at the same place.
  moved :
      (st : PathState) (m : Scan)
      → Inside m
      → rank st < rank m.state
      → lag st + m.outpos ≤ m.pos
      → m.pos + ahead st ≤ n
      → Sound (work m) (again (goto st m))
  moved st m h lower behind within =
      goes_on (record { behind = behind; within = within; unread = h.unread; size = h.size })
        (omega (arith, lower))

  -- The next place.
  stepped :
      (st : PathState) (m : Scan) (o : ℕ)
      → Inside m
      → m.pos < n
      → rank st < 4 + rank m.state
      → lag st + o ≤ m.pos + 1
      → ahead st ≡ 0
      → Sound (work m) (again (record { state = st; pos = m.pos + 1; outpos = o; path = m.path }))
  stepped st m o h inside lower behind still =
      goes_on
        (record {
          behind = behind;
          within = omega (arith, inside, still);
          unread = λ i le. h.unread i (omega (arith, le));
          size = h.size;
        })
        (omega (arith, inside, lower))

  -- A write behind the input, and the state and place that follow.
  wrote :
      (st : PathState) (m : Scan) (p o v : ℕ)
      → Inside m
      → m.outpos < p
      → m.pos ≤ p
      → 4 * (n - p) + rank st < work m
      → lag st + o ≤ p
      → p + ahead st ≤ n
      → Sound
          (work m)
          (again (record { state = st; pos = p; outpos = o; path = set m.path m.outpos v }))
  wrote st m p o v h before later less behind within =
      goes_on
        (record {
          behind = behind;
          within = within;
          unread = λ i le.
              get_or-set_ne m.path m.outpos i v 0 (λ e. absurd (omega (arith, e, le, before)))
              ∙ h.unread i (omega (arith, le, later));
          size = length-set m.path m.outpos v ∙ h.size;
        })
        less

  -- A character of the text stands before its end.
  not_end : (m : Scan) → Inside m → get_or text n 0 ≡ 0 → get_or m.path m.pos 0 ≢ 0 → m.pos < n
  not_end m h end_zero ne =
      let same = h.unread n (omega (arith, h.within)) in
      let at = λ (e : m.pos ≡ n). ne (ap (λ i. get_or m.path i 0) e ∙ same ∙ end_zero) in
      elim (Bool-split (m.pos == n)) [
        | inl e ↦ absurd (at (eq_of_== m.pos n e))
        | inr e ↦ let w = h.within in ground arith
      ]

  ended : (m : Scan) → Inside m → Sound (work m) (done m.outpos m.path)
  ended m h =
      ends (omega (arith, h.behind, h.within)) h.size
        (λ i le. h.unread i (omega (arith, le, h.within)))

  is_char : (c k : ℕ) → (c == suc k) ≡ true → c ≢ 0
  is_char c k h z = absurd (ground arith)

  not_zero : (c : ℕ) → (c == 0) ≡ false → c ≢ 0
  not_zero c h z = absurd (ground arith)

  abbrev here : PathState → ℕ → ℕ → List ℕ → Scan
  here st pos outpos path = record { state = st; pos = pos; outpos = outpos; path = path }

  -- The two dots at the start of a field.
  two_dots :
      (p o : ℕ) (path : List ℕ)
      → Inside (here seen_dotdot p o path)
      → Sound
          (work (here seen_dotdot p o path))
          (again (here in_field p (o + 2) (set (set path o b'.') (o + 1) b'.')))
  two_dots p o path h =
      goes_on
        (record {
          behind = omega (arith, h.behind);
          within = h.within;
          unread = λ i le.
              get_or-set_ne (set path o b'.') (o + 1) i b'.' 0
                (λ e. absurd (omega (arith, e, le, h.behind)))
              ∙ get_or-set_ne path o i b'.' 0 (λ e. absurd (omega (arith, e, le, h.behind)))
              ∙ h.unread i le;
          size = length-set (set path o b'.') (o + 1) b'.' ∙ length-set path o b'.' ∙ h.size;
        })
        (omega arith)

  pub turn-Sound :
      (st : PathState) (pos outpos : ℕ) (path : List ℕ)
      → get_or text n 0 ≡ 0
      → Inside (here st pos outpos path)
      → Sound
          (work (here st pos outpos path))
          (turn st (here st pos outpos path) (get_or path pos 0))
  unfolding turn
  turn-Sound initial p o path z h =
      let m = here initial p o path in
      let c = get_or path p 0 in
      let char = λ (ne : c ≢ 0). not_end m h z ne in
      choose (c == b'/')
        (λ e. moved sep m h (omega arith) h.behind (omega (arith, char (is_char c 46 e))))
        (λ _.
          choose (c == b'.')
            (λ e. moved dot m h (omega arith) h.behind (omega (arith, char (is_char c 45 e))))
            (λ _. moved field_start m h (omega arith) h.behind h.within))
  turn-Sound field_start p o path z h =
      let m = here field_start p o path in
      let c = get_or path p 0 in
      let char = λ (ne : c ≢ 0). not_end m h z ne in
      choose (c == b'.')
        (λ e. moved dot m h (omega arith) h.behind (omega (arith, char (is_char c 45 e))))
        (λ _.
          choose (c == 0) (λ _. ended m h)
            (λ _. moved in_field m h (omega arith) h.behind h.within))
  turn-Sound in_field p o path z h =
      let m = here in_field p o path in
      let c = get_or path p 0 in
      let char = λ (ne : c ≢ 0). not_end m h z ne in
      choose (c == b'/')
        (λ e. moved sep m h (omega arith) h.behind (omega (arith, char (is_char c 46 e))))
        (λ _.
          choose (c == 0) (λ _. ended m h)
            (λ e.
              let inside = char (not_zero c e) in
              wrote in_field m (p + 1) (o + 1) c h (omega (arith, h.behind)) (omega arith)
                (omega (arith, inside)) (omega (arith, h.behind)) (omega (arith, inside))))
  turn-Sound sep p o path z h =
      wrote seen_sep (here sep p o path) (p + 1) (o + 1) b'/' h (omega (arith, h.behind))
        (omega arith) (omega (arith, h.within)) (omega (arith, h.behind)) (omega (arith, h.within))
  turn-Sound seen_sep p o path z h =
      let m = here seen_sep p o path in
      let c = get_or path p 0 in
      choose (c == b'/')
        (λ e.
          stepped seen_sep m o h (not_end m h z (is_char c 46 e)) (omega arith)
            (omega (arith, h.behind)) refl)
        (λ _.
          choose (c == 0) (λ _. ended m h)
            (λ _. moved field_start m h (omega arith) h.behind h.within))
  turn-Sound dot p o path z h =
      stepped seen_dot (here dot p o path) o h (omega (arith, h.within)) (omega arith)
        (omega (arith, h.behind)) refl
  turn-Sound seen_dot p o path z h =
      let m = here seen_dot p o path in
      let c = get_or path p 0 in
      choose (c == b'.')
        (λ e.
          moved dotdot m h (omega arith) h.behind (omega (arith, not_end m h z (is_char c 45 e))))
        (λ _.
          choose (c == b'/')
            (λ e.
              stepped seen_sep m o h (not_end m h z (is_char c 46 e)) (omega arith)
                (omega (arith, h.behind)) refl)
            (λ _.
              choose (c == 0) (λ _. ended m h)
                (λ _.
                  wrote in_field m p (o + 1) b'.' h (omega (arith, h.behind)) (omega arith)
                    (omega arith) (omega (arith, h.behind)) h.within)))
  turn-Sound dotdot p o path z h =
      stepped seen_dotdot (here dotdot p o path) o h (omega (arith, h.within)) (omega arith)
        (omega (arith, h.behind)) refl
  turn-Sound seen_dotdot p o path z h =
      let m = here seen_dotdot p o path in
      let c = get_or path p 0 in
      let back = backtrack-le path o in
      choose (c == b'/')
        (λ e.
          stepped seen_sep m (backtrack path o) h (not_end m h z (is_char c 46 e)) (omega arith)
            (omega (arith, h.behind, back)) refl)
        (λ _.
          choose (c == 0)
            (λ _.
              ends (omega (arith, back, h.behind, h.within)) h.size
                (λ i le. h.unread i (omega (arith, le, h.within))))
            (λ _. two_dots p o path h))
