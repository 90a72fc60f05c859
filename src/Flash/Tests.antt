-- ===== src/Flash/Tests.antt =====
-- A chip with sectors of 4 bytes, which works for 3 reads on a command.
use i80k.Base.{
  refl, ℕ, zero, suc, ◌+◌, ◌*◌, ◌-◌, ◌%◌, ◌^◌, ◌≡◌, ◌≢◌, ◌<◌, ◌≤◌, arith, ◌⊎◌, inl, inr, ◌&&◌,
  Option, none, some, [], ◌∷◌, ◌==◌, leb, ltb, if◌then◌else◌, bit_and, ==_self, ==_of_ne,
}
use i80k.Base.Word.{ok}
use i80k.Flash.{
  FarMemory, FlashDevice, private_of, cfi_get_block_addr, cfi_write_block, cfi_read_block,
}
use i80k.Flash.Address.{physical, cfi_get_block_addr-physical}
use i80k.Flash.Chip.{run, Cycle, idle, to_program, to_erase, command, Chip}
use i80k.Flash.Written.{cfi_read_block-cfi_write_block}

-- The cells, the cycle, and for how many reads the chip works.
record Cells : Type 0 where
  cell : ℕ → ℕ
  at : Cycle
  left : ℕ

abbrev cell_read : ℕ → (ℕ → ℕ) → ℕ → ℕ
cell_read a c zero = c (physical a)
cell_read a c (suc n) = suc n % 2 * 64

abbrev erased : (ℕ → ℕ) → ℕ → ℕ → ℕ
erased c p q = if leb p q && ltb q (p + 4) then 255 else c q

abbrev programmed : (ℕ → ℕ) → ℕ → ℕ → ℕ → ℕ
programmed c p v q = if q == p then v else c q

abbrev cells : (ℕ → ℕ) → Cycle → ℕ → Cells
cells c k n = record { cell = c; at = k; left = n }

abbrev acted : ℕ → ℕ → (ℕ → ℕ) → Cycle → Cells
acted p v c to_program = cells (programmed c p v) idle 3
acted p v c to_erase = if v == 0x30 then cells (erased c p) idle 3 else cells c idle 0
acted p v c _ = cells c idle 0

abbrev led : ℕ → ℕ → (ℕ → ℕ) → Cycle → Option Cycle → Cells
led p v c k none = acted p v c k
led p v c k (some k') = cells c k' 0

abbrev stored : ℕ → ℕ → (ℕ → ℕ) → Cycle → ℕ → Cells
stored a v c k zero = led (physical a) v c k (command k (physical a % 2 ^ 15) v)
stored a v c k (suc n) = cells c k (suc n)

abbrev small_chip : FarMemory Cells
small_chip = record {
  read = λ a s. (cell_read a s.cell s.left, cells s.cell s.at (s.left - 1));
  store = λ a v s. stored a v s.cell s.at s.left;
  copy = λ a n s. (run s.cell (physical a) n, s);
}

abbrev rom : FlashDevice
rom = record { block_size = 4; block_shift = 2; block_count = 8; drv_data = private_of 3758096384 }

still_of :
    (a : ℕ) (c : ℕ → ℕ) (n : ℕ)
    → n ≡ 0
    → bit_and (cell_read a c n) 64 ≡ bit_and (cell_read a c (n - 1)) 64
still_of a c zero e = refl
still_of a c (suc n) e = absurd (omega (arith, e))

parity : (n : ℕ) → bit_and (suc (suc n) % 2 * 64) 64 ≢ bit_and (suc n % 2 * 64) 64
parity n = by_bit (n % 2) refl
  where
    by_bit : (b : ℕ) → n % 2 ≡ b → bit_and (suc (suc n) % 2 * 64) 64 ≢ bit_and (suc n % 2 * 64) 64
    by_bit zero e =
        let even : suc (suc n) % 2 ≡ 0 = omega (arith, e) in
        let odd : suc n % 2 ≡ 1 = omega (arith, e) in rw (even, odd) (λ h. omega (arith, h))
    by_bit (suc zero) e =
        let odd : suc (suc n) % 2 ≡ 1 = omega (arith, e) in
        let even : suc n % 2 ≡ 0 = omega (arith, e) in rw (even, odd) (λ h. omega (arith, h))
    by_bit (suc (suc b)) e = absurd (omega (arith, e))

toggles_of :
    (a : ℕ) (c : ℕ → ℕ) (m n : ℕ)
    → m ≡ suc (suc n)
    → bit_and (cell_read a c m) 64 ≢ bit_and (cell_read a c (m - 1)) 64
toggles_of a c zero n e = absurd (omega (arith, e))
toggles_of a c (suc zero) n e = absurd (omega (arith, e))
toggles_of a c (suc (suc k)) n e =
    let one_less : suc (suc k) - 1 ≡ suc k = omega arith in rw one_less (parity k)

inside : (p : ℕ) (c : ℕ → ℕ) (q : ℕ) → p ≤ q → q < p + 4 → erased c p q ≡ 255
inside p c q above below = ground (arith, above, below)

beyond : (p : ℕ) (c : ℕ → ℕ) (q : ℕ) → (q < p) ⊎ (p + 4 ≤ q) → erased c p q ≡ c q
beyond p c q (inl low) = ground (arith, low)
beyond p c q (inr high) = ground (arith, high)

chip_of : Chip small_chip rom
chip_of = record {
  cells = λ s. s.cell;
  cycle = λ s. s.at;
  busy = λ s. s.left;
  latency = 3;
  still = λ s a e. still_of a s.cell s.left e;
  toggles = λ s a n e. toggles_of a s.cell s.left n e;
  read_busy = λ s a. refl;
  read_cells = λ s a q. refl;
  read_cycle = λ s a. refl;
  leads_on = λ s a b c ready next. rw (ready, next) (refl, refl, λ q. refl);
  programs = λ s a b ready at.
      rw (ready, at)
        (
          omega arith,
          refl,
          λ blank. rw (==_self (physical a)) refl,
          λ q other. rw (==_of_ne q (physical a) other) refl,
        );
  erases = λ s a ready at start.
      rw (ready, at)
        (
          omega arith,
          refl,
          λ q above below. inside (physical a) s.cell q above below,
          λ q outside. beyond (physical a) s.cell q outside,
        );
  copies = λ s a n ready at room. refl;
}

abbrev blank_chip : Cells
blank_chip = cells (λ q. 7) idle 0

cfi_read_block-cfi_write_block_example :
    (s : Cells) × (cfi_write_block small_chip 4 rom 1 (1 ∷ 2 ∷ 3 ∷ 4 ∷ []) 1 blank_chip
      ≡ some (ok 4, s))
    × ((cfi_read_block small_chip rom 1 1 s).0 ≡ (ok 4, 1 ∷ 2 ∷ 3 ∷ 4 ∷ []))
    × ((q : ℕ) → (q < 917508) ⊎ (917512 ≤ q) → s.cell q ≡ 7)
unfolding cfi_get_block_addr chip_of
cfi_read_block-cfi_write_block_example =
    cfi_read_block-cfi_write_block small_chip rom chip_of 4 3758096384 1 (1 ∷ 2 ∷ 3 ∷ 4 ∷ [])
      blank_chip refl refl (omega arith) refl (refl, refl) (omega arith) refl refl (omega arith)

-- The second 64 KB of a chip at E000:0000.
cfi_get_block_addr-physical_example :
    physical (cfi_get_block_addr rom 16385) ≡ physical 3758096384 + 65540
cfi_get_block_addr-physical_example = cfi_get_block_addr-physical rom 16385 refl (omega arith)
