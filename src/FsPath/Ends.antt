-- ===== src/FsPath/Ends.antt =====
-- kernel/core/fs.c: the loop of the normalisation, and what it leaves of the buffer.
use i80k.Base.{
  ap, ℕ, zero, suc, ◌+◌, ◌*◌, ◌≤◌, ◌<◌, ◌≡◌, refl, ◌∙◌, arith, Option, some, List, get_or, set,
  length, length-set, get_or-set_ne, get_or-set_self,
}
use i80k.FsPath.{Turn, again, scan, trimmed, terminated, at_start, fs_normalize_path}
use i80k.FsPath.Bounds.{Sound, goes_on, ends, turn-Sound}

module _ (n : ℕ) (text : List ℕ) where
  -- A loop with enough fuel ends, and what it leaves is inside the text.
  abbrev Ended : Option (ℕ × List ℕ) → Type 0
  Ended r =
      (o : ℕ) × (path : List ℕ) × (r ≡ some (o, path))
      × (o ≤ n)
      × (length path ≡ length text)
      × ((i : ℕ) → n ≤ i → get_or path i 0 ≡ get_or text i 0)

  scan-Ended :
      (fuel : ℕ) {w : ℕ} {t : Turn}
      → get_or text n 0 ≡ 0
      → w ≤ fuel
      → Sound n text w t
      → Ended (scan fuel t)
  unfolding scan
  scan-Ended fuel z enough (ends {o = o} {path = path} le size beyond) =
      (o, path, refl, le, size, beyond)
  scan-Ended zero z enough (goes_on h less) = absurd (omega (arith, enough, less))
  scan-Ended (suc fuel) z enough (goes_on {m = m} h less) =
      scan-Ended fuel z (omega (arith, enough, less))
        (turn-Sound n text m.state m.pos m.outpos m.path z h)

  trimmed-le : (o : ℕ) (path : List ℕ) → trimmed o path ≤ o
  trimmed-le zero path = omega arith
  trimmed-le (suc o) path = ground arith

  -- Of a text of n characters and its end, in a buffer: the normalisation ends within 4 n + 4
  -- turns. It leaves a text of at most n characters, and what the buffer holds past the end of the
  -- old one is as it was.
  pub fs_normalize_path-ends :
      n < length text
      → get_or text n 0 ≡ 0
      → (out : List ℕ) × (fs_normalize_path (4 * n + 4) text ≡ some out)
        × (length out ≡ length text)
        × ((end : ℕ) × (end ≤ n) × (get_or out end 0 ≡ 0))
        × ((i : ℕ) → n < i → get_or out i 0 ≡ get_or text i 0)
  unfolding fs_normalize_path
  fs_normalize_path-ends room z = finish (
      scan-Ended (4 * n + 4) {w = 4 * n + 4} z (omega arith) (
        goes_on
          (record {
            behind = omega arith;
            within = omega arith;
            unread = λ i le. refl;
            size = refl;
          })
          (omega arith)))
    where
      finish :
          Ended (scan (4 * n + 4) (again (at_start text)))
          → (out : List ℕ) × (fs_normalize_path (4 * n + 4) text ≡ some out)
            × (length out ≡ length text)
            × ((end : ℕ) × (end ≤ n) × (get_or out end 0 ≡ 0))
            × ((i : ℕ) → n < i → get_or out i 0 ≡ get_or text i 0)
      finish (o, path, e, le, size, beyond) =
          let short = trimmed-le o path in
          (
            set path (trimmed o path) 0,
            ap terminated e,
            length-set path (trimmed o path) 0 ∙ size,
            (
              trimmed o path,
              omega (arith, short, le),
              get_or-set_self path (trimmed o path) 0 0 (omega (arith, short, le, size, room)),
            ),
            λ i past.
                get_or-set_ne path (trimmed o path) i 0 0
                  (λ same. absurd (omega (arith, same, past, short, le)))
                ∙ beyond i (omega (arith, past)),
          )
