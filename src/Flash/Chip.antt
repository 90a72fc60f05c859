-- ===== src/Flash/Chip.antt =====
-- kernel/drivers/block/cfi/cfi.c: the chip that the driver writes to, as its commands are documented.
use i80k.Base.{
  ap, refl, ℕ, suc, ◌+◌, ◌-◌, ◌%◌, ◌^◌, ◌≡◌, ◌≢◌, ◌≤◌, ◌<◌, ◌∙◌, ◌⊎◌, arith, Option, none, some,
  List, [], ◌∷◌, ◌==◌, ◌&&◌, if◌then◌else◌, bit_and, zero,
}
use i80k.Flash.{FarMemory, FlashDevice, CfiPrivate, private_of, unlock}
use i80k.Flash.Address.{physical}

abbrev pub run : (ℕ → ℕ) → ℕ → ℕ → List ℕ
run f i zero = []
run f i (suc n) = f i ∷ run f (i + 1) n

-- How much of a command the chip has seen.
pub data Cycle : Type 0 where
  idle : Cycle
  unlocking : Cycle
  unlocked : Cycle
  to_program : Cycle
  erase_opened : Cycle
  erase_unlocking : Cycle
  to_erase : Cycle

-- The writes that lead on in a command, by the 15 bits of the address and the byte: 0xAA at 0x5555
-- and 0x55 at 0x2AAA open it; then 0xA0 at 0x5555 is for a byte to be programmed, and 0x80, with the
-- opening once more, for a sector to be erased.
abbrev pub command : Cycle → ℕ → ℕ → Option Cycle
command idle a b = if a == 0x5555 && b == 0xaa then some unlocking else none
command unlocking a b = if a == 0x2aaa && b == 0x55 then some unlocked else none
command unlocked a b =
    if a == 0x5555 && b == 0xa0
    then some to_program
    else if a == 0x5555 && b == 0x80
    then some erase_opened
    else none
command erase_opened a b = if a == 0x5555 && b == 0xaa then some erase_unlocking else none
command erase_unlocking a b = if a == 0x2aaa && b == 0x55 then some to_erase else none
command to_program a b = none
command to_erase a b = none

-- A flash chip with sectors of the size of a block, its cells by their place in memory. While it
-- works on a command, every read of it flips a bit, and it works for so many reads. Programming sets
-- a cell that is erased, and 0x30 at the start of a sector sets all cells of the sector.
pub record Chip {S : Type 0} (mem : FarMemory S) (dev : FlashDevice) : Type 0 where
  pub cells : S → ℕ → ℕ
  pub cycle : S → Cycle
  pub busy : S → ℕ
  pub latency : ℕ
  pub still :
      (s : S) (a : ℕ)
      → busy s ≡ 0
      → bit_and (mem.read a s).0 64 ≡ bit_and (mem.read a (mem.read a s).1).0 64
  pub toggles :
      (s : S) (a n : ℕ)
      → busy s ≡ suc (suc n)
      → bit_and (mem.read a s).0 64 ≢ bit_and (mem.read a (mem.read a s).1).0 64
  pub read_busy : (s : S) (a : ℕ) → busy (mem.read a s).1 ≡ busy s - 1
  pub read_cells : (s : S) (a q : ℕ) → cells (mem.read a s).1 q ≡ cells s q
  pub read_cycle : (s : S) (a : ℕ) → cycle (mem.read a s).1 ≡ cycle s
  pub leads_on :
      (s : S) (a b : ℕ) (c : Cycle)
      → busy s ≡ 0
      → command (cycle s) (physical a % 2 ^ 15) b ≡ some c
      → (busy (mem.store a b s) ≡ 0)
        × (cycle (mem.store a b s) ≡ c)
        × ((q : ℕ) → cells (mem.store a b s) q ≡ cells s q)
  pub programs :
      (s : S) (a b : ℕ)
      → busy s ≡ 0
      → cycle s ≡ to_program
      → (busy (mem.store a b s) ≤ latency)
        × (cycle (mem.store a b s) ≡ idle)
        × (cells s (physical a) ≡ 255 → cells (mem.store a b s) (physical a) ≡ b)
        × ((q : ℕ) → q ≢ physical a → cells (mem.store a b s) q ≡ cells s q)
  pub erases :
      (s : S) (a : ℕ)
      → busy s ≡ 0
      → cycle s ≡ to_erase
      → physical a % dev.block_size ≡ 0
      → (busy (mem.store a 0x30 s) ≤ latency)
        × (cycle (mem.store a 0x30 s) ≡ idle)
        × ((q : ℕ)
            → physical a ≤ q
            → q < physical a + dev.block_size
            → cells (mem.store a 0x30 s) q ≡ 255)
        × ((q : ℕ)
            → (q < physical a) ⊎ (physical a + dev.block_size ≤ q)
            → cells (mem.store a 0x30 s) q ≡ cells s q)
  pub copies :
      (s : S) (a n : ℕ)
      → busy s ≡ 0
      → cycle s ≡ idle
      → a % 2 ^ 16 + n ≤ 2 ^ 16
      → (mem.copy a n s).0 ≡ run (cells s) (physical a) n

-- The registers of the driver stand at the addresses of the commands.
pub record Wired (dev : FlashDevice) : Type 0 where
  pub reg0 : physical dev.drv_data.reg0 % 2 ^ 15 ≡ 0x5555
  pub reg1 : physical dev.drv_data.reg1 % 2 ^ 15 ≡ 0x2aaa

-- With the chip at the start of a segment, and its 32 KB where 32 KB of memory start.
pub private_of-Wired :
    (dev : FlashDevice) (base : ℕ)
    → dev.drv_data ≡ private_of base
    → base % 2 ^ 16 ≡ 0
    → base < 2 ^ 32
    → physical base % 2 ^ 15 ≡ 0
    → Wired dev
private_of-Wired dev base same aligned wide low = record {
  reg0 = ap (λ (p : CfiPrivate). physical p.reg0 % 2 ^ 15) same ∙ omega (arith, aligned, wide, low);
  reg1 = ap (λ (p : CfiPrivate). physical p.reg1 % 2 ^ 15) same ∙ omega (arith, aligned, wide, low);
}

module _ {S : Type 0} (mem : FarMemory S) (dev : FlashDevice) (chip : Chip mem dev)
    (wired : Wired dev) where
  -- A chip that does not work waits at a place of a command, with the same cells.
  abbrev pub Waits : Cycle → S → S → Type 0
  Waits c s s' =
      (chip.busy s' ≡ 0) × (chip.cycle s' ≡ c) × ((q : ℕ) → chip.cells s' q ≡ chip.cells s q)

  led_on :
      (c c' : Cycle) (a b : ℕ) (s s' : S)
      → Waits c s s'
      → command c (physical a % 2 ^ 15) b ≡ some c'
      → Waits c' s (mem.store a b s')
  led_on c c' a b s s' (ready, at, same) next =
      let (ready', at', same') =
        chip.leads_on s' a b c' ready (ap (λ k. command k (physical a % 2 ^ 15) b) at ∙ next) in
      (ready', at', λ q. same' q ∙ same q)

  pub program_opened :
      (s : S)
      → Waits idle s s
      → Waits to_program s (mem.store dev.drv_data.reg0 160 (unlock mem dev.drv_data s))
  program_opened s start =
      let r0 = dev.drv_data.reg0 in
      let r1 = dev.drv_data.reg1 in
      let s1 = mem.store r0 170 s in
      let w1 = led_on idle unlocking r0 170 s s start (rw (wired.reg0) refl) in
      let w2 = led_on unlocking unlocked r1 85 s s1 w1 (rw (wired.reg1) refl) in
      led_on unlocked to_program r0 160 s (mem.store r1 85 s1) w2 (rw (wired.reg0) refl)

  pub erase_opened_twice :
      (s : S)
      → Waits idle s s
      → Waits to_erase s
          (unlock mem dev.drv_data (mem.store dev.drv_data.reg0 128 (unlock mem dev.drv_data s)))
  erase_opened_twice s start =
      let r0 = dev.drv_data.reg0 in
      let r1 = dev.drv_data.reg1 in
      let s1 = mem.store r0 170 s in
      let s2 = mem.store r1 85 s1 in
      let s3 = mem.store r0 128 s2 in
      let s4 = mem.store r0 170 s3 in
      let w1 = led_on idle unlocking r0 170 s s start (rw (wired.reg0) refl) in
      let w2 = led_on unlocking unlocked r1 85 s s1 w1 (rw (wired.reg1) refl) in
      let w3 = led_on unlocked erase_opened r0 128 s s2 w2 (rw (wired.reg0) refl) in
      let w4 = led_on erase_opened erase_unlocking r0 170 s s3 w3 (rw (wired.reg0) refl) in
      led_on erase_unlocking to_erase r1 85 s s4 w4 (rw (wired.reg1) refl)
