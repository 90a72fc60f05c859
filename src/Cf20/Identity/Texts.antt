-- ===== src/Cf20/Identity/Texts.antt =====
-- kernel/drivers/block/cf20/cf20_cmds.c: the texts of a card's identity.
use i80k.Base.{
  ap, ℕ, zero, suc, ◌+◌, ◌-◌, ◌*◌, ◌/◌, ◌%◌, ◌^◌, ◌<◌, ◌≤◌, ◌≡◌, refl, ◌∙◌, arith, Bool, true,
  false, not, ◌&&◌, ◌||◌, ◌==◌, ltb, if◌then◌else◌, ==_of_ne, ltb_of_lt, ltb_of_le, lt_of_ltb,
  le_of_not_ltb, Bool-split, inl, inr,
}
use i80k.Base.Word.{u8}
use i80k.Cf20.{Memory, poke}
use i80k.Cf20.Identity.{
  Text, word, copy_words, copy_swapped, is_mark, trim, serial_of, firmware_of, model_of, no_text,
}

-- Whether a mark is at the index or after it, below the bound.
abbrev pub marked : ℕ → Text → ℕ → Bool
marked zero text i = false
marked (suc n) text i = (not (ltb n i) && is_mark (text n)) || marked n text i

marked-poke :
    (n m : ℕ) (v : ℕ) (text : Text) (i : ℕ) → n ≤ m → marked n (poke m v text) i ≡ marked n text i
marked-poke zero m v text i h = refl
marked-poke (suc n) m v text i h =
    rw (==_of_ne n m (omega (arith, h)), marked-poke n m v text i (omega (arith, h))) refl

marked_below : (n : ℕ) (text : Text) (i : ℕ) → marked n text i ≡ true → i < n
marked_below zero text i h = ground arith
marked_below (suc n) text i h = elim (Bool-split (marked n text i)) [
  | inl e ↦ let less = marked_below n text i e in omega (arith, less)
  | inr e ↦ here (is_mark (text n)) (rw⁻¹ e h)
]
  where
    here : (b : Bool) → ((not (ltb n i) && b) || false) ≡ true → i < suc n
    here true h' = ground arith
    here false h' = ground arith

-- Trimming keeps the characters that have a mark at or after them, and those past the bound.
pub trim-marked :
    (n : ℕ) (text : Text) (i : ℕ)
    → trim n text i ≡ (if ltb i n then (if marked n text i then text i else 0) else text i)
unfolding trim
trim-marked zero text i = ground arith
trim-marked (suc n) text i = elim (Bool-split (is_mark (text n))) [
  | inl e ↦ rw (e) (at_mark (marked n text i))
  | inr e ↦
      rw (e, trim-marked n (poke n 0 text) i, marked-poke n n 0 text i (omega arith))
        (at_blank (marked n text i) (marked_below n text i))
]
  where
    at_mark :
        (m : Bool)
        → text i
          ≡ (if ltb i (suc n) then (if (not (ltb n i) && true) || m then text i else 0) else text i)
    at_mark true = ground arith
    at_mark false = ground arith

    at_blank :
        (m : Bool)
        → (m ≡ true → i < n)
        → (if ltb i n then (if m then (poke n 0 text) i else 0) else (poke n 0 text) i) ≡ (
            if ltb i (suc n) then (if (not (ltb n i) && false) || m then text i else 0) else text i)
    at_blank true below = let h : i < n = below refl in ground arith
    at_blank false below = ground arith

-- Copied words are their bytes in order.
copy_words-bytes :
    (n at k : ℕ) (b : Memory) (text : Text) (i : ℕ)
    → ((j : ℕ) → b j < 2 ^ 8)
    → copy_words n at k b text i
      ≡ (if not (ltb i at) && ltb i (at + 2 * n) then b (2 * k + (i - at)) else text i)
unfolding copy_words
copy_words-bytes zero at k b text i byte = ground arith
copy_words-bytes (suc n) at k b text i byte =
    let rest =
      copy_words-bytes n (at + 2) (k + 1) b
        (poke (at + 1) (u8 (word b k / 2 ^ 8)) (poke at (u8 (word b k)) text)) i byte in
    let low : u8 (word b k) ≡ b (2 * k) = omega (arith, byte (2 * k)) in
    let high : u8 (word b k / 2 ^ 8) ≡ b (2 * k + 1) =
      omega (arith, byte (2 * k), byte (2 * k + 1)) in
    let first : i ≡ at → b (2 * k + (i - at)) ≡ b (2 * k) = λ e. ap b (omega (arith, e)) in
    let second : i ≡ at + 1 → b (2 * k + (i - at)) ≡ b (2 * k + 1) = λ e. ap b (omega (arith, e)) in
    let later : at + 2 ≤ i → b (2 * (k + 1) + (i - (at + 2))) ≡ b (2 * k + (i - at)) =
      λ e. ap b (omega (arith, e)) in
    rest ∙ rw (low, high) (ground arith)

-- The place of the other byte of a word.
abbrev pub other : ℕ → ℕ
other j = if j % 2 == 0 then j + 1 else j - 1

-- Copied words are their bytes, the two of each exchanged.
copy_swapped-bytes :
    (n at k : ℕ) (b : Memory) (text : Text) (i : ℕ)
    → ((j : ℕ) → b j < 2 ^ 8)
    → copy_swapped n at k b text i
      ≡ (if not (ltb i at) && ltb i (at + 2 * n) then b (2 * k + other (i - at)) else text i)
unfolding copy_swapped
copy_swapped-bytes zero at k b text i byte = ground arith
copy_swapped-bytes (suc n) at k b text i byte =
    let rest =
      copy_swapped-bytes n (at + 2) (k + 1) b
        (poke at (u8 (word b k / 2 ^ 8)) (poke (at + 1) (u8 (word b k)) text)) i byte in
    let low : u8 (word b k) ≡ b (2 * k) = omega (arith, byte (2 * k)) in
    let high : u8 (word b k / 2 ^ 8) ≡ b (2 * k + 1) =
      omega (arith, byte (2 * k), byte (2 * k + 1)) in
    let first : i ≡ at → b (2 * k + other (i - at)) ≡ b (2 * k + 1) = λ e. ap b (place_first e) in
    let second : i ≡ at + 1 → b (2 * k + other (i - at)) ≡ b (2 * k) = λ e. ap b (place_second e) in
    let later : at + 2 ≤ i → b (2 * (k + 1) + other (i - (at + 2))) ≡ b (2 * k + other (i - at)) =
      λ e. ap b (place_later e) in
    rest ∙ rw (low, high) (cases first second later)
  where
    place_first : i ≡ at → 2 * k + other (i - at) ≡ 2 * k + 1
    place_first e = ground arith

    place_second : i ≡ at + 1 → 2 * k + other (i - at) ≡ 2 * k
    place_second e = ground arith

    place_later : at + 2 ≤ i → 2 * (k + 1) + other (i - (at + 2)) ≡ 2 * k + other (i - at)
    place_later e = ground arith

    cases :
        {x y : ℕ}
        → (i ≡ at → y ≡ b (2 * k + 1))
        → (i ≡ at + 1 → y ≡ b (2 * k))
        → (at + 2 ≤ i → x ≡ y)
        → (if not (ltb i (at + 2)) && ltb i (at + 2 + 2 * n)
            then x
            else poke at (b (2 * k + 1)) (poke (at + 1) (b (2 * k)) text) i)
          ≡ (if not (ltb i at) && ltb i (at + 2 * suc n) then y else text i)
    cases first second later = ground arith

marked-agree :
    (n : ℕ) (text source : Text) (i : ℕ)
    → ((j : ℕ) → j < n → text j ≡ source j)
    → marked n text i ≡ marked n source i
marked-agree zero text source i same = refl
marked-agree (suc n) text source i same =
    rw (same n (omega arith), marked-agree n text source i (λ j h. same j (omega (arith, h)))) refl

-- A text that agrees with its source below the bound, and is 0 from there on, when it is trimmed.
trim-agree :
    (n : ℕ) (text source : Text) (i : ℕ)
    → ((j : ℕ) → j < n → text j ≡ source j)
    → (n ≤ i → text i ≡ 0)
    → trim n text i ≡ (if marked n source i then source i else 0)
trim-agree n text source i same past = elim (Bool-split (ltb i n)) [
  | inl e ↦
      let less = lt_of_ltb i n e in
      trim-marked n text i ∙ rw (marked-agree n text source i same, same i less, e) refl
  | inr e ↦
      let beyond = le_of_not_ltb i n e in
      trim-marked n text i ∙ rw (e, past beyond, no_mark beyond) refl
]
  where
    no_mark : n ≤ i → marked n source i ≡ false
    no_mark beyond = elim (Bool-split (marked n source i)) [
      | inl e ↦ absurd (omega (arith, beyond, marked_below n source i e))
      | inr e ↦ e
    ]

-- The bytes of a sector as the texts of the identity take them.
abbrev pub serial_bytes : Memory → Text
serial_bytes b j = b (20 + j)

abbrev pub firmware_bytes : Memory → Text
firmware_bytes b j = b (46 + other j)

abbrev pub model_bytes : Memory → Text
model_bytes b j = b (54 + other j)

serial-same :
    (b : Memory) (j : ℕ)
    → ((i : ℕ) → b i < 2 ^ 8)
    → poke 20 0 (copy_words 10 0 10 b no_text) j ≡ (if ltb j 20 then serial_bytes b j else 0)
serial-same b j byte =
    let whole : j - 0 ≡ j = omega arith in
    rw (copy_words-bytes 10 0 10 b no_text j byte, whole) (ground arith)

swapped-same :
    (n size k from : ℕ) (b : Memory) (j : ℕ)
    → ((i : ℕ) → b i < 2 ^ 8)
    → size ≡ 2 * n
    → from ≡ 2 * k
    → poke size 0 (copy_swapped n 0 k b no_text) j ≡ (if ltb j size then b (from + other j) else 0)
swapped-same n size k from b j byte e f =
    let whole : j - 0 ≡ j = omega arith in
    let same : b (2 * k + other (j - 0)) ≡ b (from + other j) = rw (whole, f) refl in
    rw (copy_swapped-bytes n 0 k b no_text j byte, same) (ground arith)

trimmed :
    (n : ℕ) (text source : Text) (i : ℕ)
    → ((j : ℕ) → text j ≡ (if ltb j n then source j else 0))
    → trim n text i ≡ (if marked n source i then source i else 0)
trimmed n text source i same =
    trim-agree n text source i (λ j h. same j ∙ rw (ltb_of_lt j n h) refl)
      (λ h. same i ∙ rw (ltb_of_le i n h) refl)

-- The texts are the bytes of the sector, up to the last that is neither a space nor 0: the serial
-- number in their order, the others with the bytes of each word exchanged.
pub texts-bytes :
    (b : Memory) (i : ℕ)
    → ((j : ℕ) → b j < 2 ^ 8)
    → (serial_of b i ≡ (if marked 20 (serial_bytes b) i then serial_bytes b i else 0))
      × (firmware_of b i ≡ (if marked 8 (firmware_bytes b) i then firmware_bytes b i else 0))
      × (model_of b i ≡ (if marked 40 (model_bytes b) i then model_bytes b i else 0))
unfolding serial_of firmware_of model_of
texts-bytes b i byte = (
  trimmed 20 (poke 20 0 (copy_words 10 0 10 b no_text)) (serial_bytes b) i
      (λ j. serial-same b j byte),
  trimmed 8 (poke 8 0 (copy_swapped 4 0 23 b no_text)) (firmware_bytes b) i
      (λ j. swapped-same 4 8 23 46 b j byte refl refl),
  trimmed 40 (poke 40 0 (copy_swapped 20 0 27 b no_text)) (model_bytes b) i
      (λ j. swapped-same 20 40 27 54 b j byte refl refl),
)
