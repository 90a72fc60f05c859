-- ===== src/Cf20/Told.antt =====
-- kernel/drivers/block/cf20/cf20_cmds.c: what a card reads off its registers.
use i80k.Base.{
  ap, ℕ, zero, suc, ◌+◌, ◌*◌, ◌/◌, ◌%◌, ◌^◌, ◌<◌, ◌≤◌, ◌≡◌, ◌≢◌, refl, sym, ◌∙◌, arith, Bool, true,
  false, ◌&&◌, ◌==◌, ltb, if◌then◌else◌, eq_of_==, bit_and, bit_or, Bool-split, inl, inr,
}
use i80k.Cf20.Queued.{command}
use i80k.Base.Word.{u8, u16, bit_and_ones}
use i80k.Cf20.{Bus, private_of, poke, cf20_send_read_sectors, cf20_send_write_sectors, send_sectors}

-- A card that keeps the last byte written to each port.
abbrev pub latches : Bus (ℕ → ℕ)
latches = record { inb = λ port s. (s port, s); outb = λ port v s. poke port v s }

abbrev pub told_block : ℕ → (ℕ → ℕ) → ℕ
told_block port s =
    s (port + 3) + s (port + 4) * 2 ^ 8 + s (port + 5) * 2 ^ 16 + s (port + 6) % 2 ^ 4 * 2 ^ 24

-- A count of 0 stands for 256.
abbrev pub told_count : ℕ → (ℕ → ℕ) → ℕ
told_count port s = if s (port + 2) == 0 then 256 else s (port + 2)

abbrev all_below : ℕ → (ℕ → Bool) → Bool
all_below zero f = true
all_below (suc n) f = f n && all_below n f

of_all_below : (n : ℕ) (f : ℕ → Bool) (x : ℕ) → all_below n f ≡ true → x < n → f x ≡ true
of_all_below zero f x h less = absurd (omega (arith, less))
of_all_below (suc n) f x h less = elim (Bool-split (f n)) [
  | inl e ↦ elim (Bool-split (x == n)) [
    | inl here ↦ ap f (eq_of_== x n here) ∙ e
    | inr other ↦ of_all_below n f x (sym (rw (e) refl) ∙ h) (below_other other)
  ]
  | inr e ↦ absurd (none_of (sym (ap (λ b. b && all_below n f) e) ∙ h))
]
  where
    none_of : false ≢ true
    none_of e = ground arith

    below_other : (x == n) ≡ false → x < n
    below_other e = ground arith

low_nibble : (x : ℕ) → x < 16 → u8 (bit_or 224 x) % 2 ^ 4 ≡ x
low_nibble x h =
    eq_of_== (u8 (bit_or 224 x) % 2 ^ 4) x
      (of_all_below 16 (λ y. u8 (bit_or 224 y) % 2 ^ 4 == y) x refl h)

-- The six bytes, each at its port.
abbrev six : ℕ → ℕ → ℕ → ℕ → ℕ → ℕ → ℕ → (ℕ → ℕ) → ℕ → ℕ
six port v2 v3 v4 v5 v6 v7 s = poke (port + 7) v7 (
    poke (port + 6) v6
      (poke (port + 5) v5 (poke (port + 4) v4 (poke (port + 3) v3 (poke (port + 2) v2 s)))))

six-at :
    (port v2 v3 v4 v5 v6 v7 : ℕ) (s : ℕ → ℕ)
    → let s' = six port v2 v3 v4 v5 v6 v7 s in
      (s' (port + 2) ≡ v2)
      × (s' (port + 3) ≡ v3)
      × (s' (port + 4) ≡ v4)
      × (s' (port + 5) ≡ v5)
      × (s' (port + 6) ≡ v6)
      × (s' (port + 7) ≡ v7)
six-at port v2 v3 v4 v5 v6 v7 s =
    (ground arith, ground arith, ground arith, ground arith, ground arith, ground arith)

abbrev head_of : ℕ → ℕ
head_of block = u8 (bit_or 224 (bit_and (block / 2 ^ 24) 15))

head_of-nibble : (block : ℕ) → head_of block % 2 ^ 4 ≡ block / 2 ^ 24 % 2 ^ 4
head_of-nibble block =
    ap (λ b. u8 (bit_or 224 b) % 2 ^ 4) (bit_and_ones 4 (block / 2 ^ 24))
    ∙ low_nibble (block / 2 ^ 24 % 2 ^ 4) (omega arith)

told_all :
    (port block count command : ℕ) (s : ℕ → ℕ)
    → block < 2 ^ 28
    → 0 < count
    → count ≤ 256
    → let s' =
        six port
          (if ltb count 256 then u8 count else 0)
          (u8 block)
          (u8 (block / 2 ^ 8))
          (u8 (block / 2 ^ 16))
          (head_of block)
          command
          s in
      (told_block port s' ≡ block) × (told_count port s' ≡ count) × (s' (port + 7) ≡ command)
told_all port block count command s low some_of few =
    let (e2, e3, e4, e5, e6, e7) =
      six-at port (if ltb count 256 then u8 count else 0) (u8 block) (u8 (block / 2 ^ 8))
        (u8 (block / 2 ^ 16)) (head_of block) command s in
    let counted : (if ltb count 256 then u8 count else 0) ≡ count % 256 = ground arith in
    (
      omega (arith, e3, e4, e5, e6, head_of-nibble block, low),
      ap (λ c. if c == 0 then 256 else c) (e2 ∙ counted) ∙ ground arith,
      e7,
    )

abbrev pub command_byte : Bool → ℕ
command_byte true = 0x20
command_byte false = 0x30

fits : (port i : ℕ) → port + 7 < 2 ^ 16 → i ≤ 7 → u16 (port + i) ≡ port + i
fits port i room small = omega (arith, room, small)

-- A card reads the block, the count and the command off its registers.
command-Told :
    (w : Bool) (irq port block count : ℕ) (s : ℕ → ℕ)
    → port + 7 < 2 ^ 16
    → block < 2 ^ 28
    → 0 < count
    → count ≤ 256
    → let s' = command latches (private_of irq port) w block count s in
      (told_block port s' ≡ block) × (told_count port s' ≡ count) × (s' (port + 7) ≡ command_byte w)
unfolding cf20_send_read_sectors cf20_send_write_sectors send_sectors
command-Told true irq port block count s room low some_of few =
    rw
      (
        fits port 2 room (omega arith),
        fits port 3 room (omega arith),
        fits port 4 room (omega arith),
        fits port 5 room (omega arith),
        fits port 6 room (omega arith),
        fits port 7 room (omega arith),
      )
      (told_all port block count 0x20 s low some_of few)
command-Told false irq port block count s room low some_of few =
    rw
      (
        fits port 2 room (omega arith),
        fits port 3 room (omega arith),
        fits port 4 room (omega arith),
        fits port 5 room (omega arith),
        fits port 6 room (omega arith),
        fits port 7 room (omega arith),
      )
      (told_all port block count 0x30 s low some_of few)
