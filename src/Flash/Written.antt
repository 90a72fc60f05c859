-- ===== src/Flash/Written.antt =====
-- kernel/drivers/block/cfi/cfi.c: a block that is written to the chip and read back.
use i80k.Base.{
  ap, ap₂, sym, subst, refl, ℕ, zero, suc, ◌+◌, ◌-◌, ◌*◌, ◌%◌, ◌^◌, ◌≡◌, ◌≢◌, ◌≤◌, ◌<◌, ◌∙◌, ◌⊎◌,
  inl, inr, arith, Bool-split, Option, some, List, [], ◌∷◌, ◌++◌, ◌==◌, length, take, drop,
  take_all, append-nil, bit_and, eq_of_==,
}
use i80k.Base.Word.{u32, Ret, to_int}
use i80k.Flash.{
  FarMemory, FlashDevice, private_of, cfi_get_block_addr, far_next, and_then, cfi_toggle_wait,
  erase_command, program_command, cfi_erase_block, cfi_write_byte, unlock, write_bytes,
  write_blocks, returning, cfi_write_block, read_blocks, cfi_read_block,
}
use i80k.Flash.Address.{physical}
use i80k.Flash.Chip.{run, Chip, Wired, idle, program_opened, erase_opened_twice, private_of-Wired}

module _ {S : Type 0} (mem : FarMemory S) (dev : FlashDevice) (chip : Chip mem dev) where
  -- The chip is ready.
  abbrev pub Ready : S → Type 0
  Ready s = (chip.busy s ≡ 0) × (chip.cycle s ≡ idle)

  -- The chip is ready, with the same bytes.
  abbrev Settled : S → S → Type 0
  Settled s s' = Ready s' × ((q : ℕ) → chip.cells s' q ≡ chip.cells s q)

  few :
      (a : ℕ) (s : S) (n : ℕ)
      → chip.busy s ≡ n
      → bit_and (mem.read a s).0 64 ≡ bit_and (mem.read a (mem.read a s).1).0 64
      → n ≤ 1
  few a s zero e same = omega arith
  few a s (suc zero) e same = omega arith
  few a s (suc (suc n)) e same = absurd (chip.toggles s a n e same)

  wait_ends :
      (fuel a : ℕ) (s : S)
      → chip.busy s < fuel
      → chip.cycle s ≡ idle
      → (s' : S) × (cfi_toggle_wait mem fuel a s ≡ some s') × Settled s s'
  unfolding cfi_toggle_wait
  wait_ends zero a s enough at = absurd (omega (arith, enough))
  wait_ends (suc fuel) a s enough at =
      let s1 = (mem.read a s).1 in
      let s2 = (mem.read a s1).1 in
      let b0 = bit_and (mem.read a s).0 64 in
      let b1 = bit_and (mem.read a s1).0 64 in
      let left : chip.busy s2 ≡ chip.busy s - 1 - 1 =
        chip.read_busy s1 a ∙ ap (λ n. n - 1) (chip.read_busy s a) in
      let still_at = chip.read_cycle s1 a ∙ chip.read_cycle s a ∙ at in
      let same : (q : ℕ) → chip.cells s2 q ≡ chip.cells s q =
        λ q. chip.read_cells s1 a q ∙ chip.read_cells s a q in
      elim (Bool-split (b0 == b1)) [
        | inl e ↦
            let low : chip.busy s ≤ 1 = few a s (chip.busy s) refl (eq_of_== b0 b1 e) in
            rw e (s2, refl, ((left ∙ omega (arith, low), still_at), same))
        | inr e ↦
            let some_left : chip.busy s ≢ 0 = λ z. ground (arith, e, chip.still s a z) in
            let (s3, runs, (ready, same')) =
              wait_ends fuel a s2 (omega (arith, left, some_left, enough)) still_at in
            rw e (s3, runs, (ready, λ q. same' q ∙ same q))
      ]

  run_same :
      (f g : ℕ → ℕ) (i n : ℕ) → ((q : ℕ) → i ≤ q → q < i + n → f q ≡ g q) → run f i n ≡ run g i n
  run_same f g i zero same = refl
  run_same f g i (suc n) same =
      ap₂ (λ x xs. x ∷ xs) (same i (omega arith) (omega arith))
        (run_same f g (i + 1) n
          (λ q above below. same q (omega (arith, above)) (omega (arith, below))))

  -- Outside of so many bytes from a place on, the cells are as before.
  abbrev pub Kept : ℕ → ℕ → S → S → Type 0
  Kept place n s s' = (q : ℕ) → (q < place) ⊎ (place + n ≤ q) → chip.cells s' q ≡ chip.cells s q

  joined_writes :
      (place n m : ℕ) (s s1 s2 : S)
      → Kept place (suc n) s s1
      → Kept (place + 1) n s1 s2
      → Kept place (suc n) s s2
  joined_writes place n m s s1 s2 first rest q (inl low) =
      rest q (inl (omega (arith, low))) ∙ first q (inl low)
  joined_writes place n m s s1 s2 first rest q (inr high) =
      rest q (inr (omega (arith, high))) ∙ first q (inr high)

  module _ (wired : Wired dev) where
    erase_ends :
        (fuel a : ℕ) (s : S)
        → Ready s
        → chip.latency < fuel
        → physical a % dev.block_size ≡ 0
        → (s' : S) × (cfi_erase_block mem fuel dev.drv_data a s ≡ some s')
          × Ready s'
          × ((q : ℕ) → physical a ≤ q → q < physical a + dev.block_size → chip.cells s' q ≡ 255)
          × Kept (physical a) dev.block_size s s'
    unfolding cfi_erase_block
    erase_ends fuel a s (ready, at) enough start =
        let (ready1, at1, same1) = erase_opened_twice mem dev chip wired s (ready, at, λ q. refl) in
        let s1 =
          unlock mem dev.drv_data (mem.store dev.drv_data.reg0 128 (unlock mem dev.drv_data s)) in
        let (works, back, blank, others) = chip.erases s1 a ready1 at1 start in
        let (s', runs, (ready', same)) =
          wait_ends fuel a (erase_command mem dev.drv_data a s) (omega (arith, works, enough))
            back in
        (
          s',
          runs,
          ready',
          λ q above below. same q ∙ blank q above below,
          λ q outside. same q ∙ others q outside ∙ same1 q,
        )

    byte_ends :
        (fuel a b : ℕ) (s : S)
        → Ready s
        → chip.latency < fuel
        → chip.cells s (physical a) ≡ 255
        → (s' : S) × (cfi_write_byte mem fuel dev.drv_data a b s ≡ some s')
          × Ready s'
          × (chip.cells s' (physical a) ≡ b)
          × ((q : ℕ) → q ≢ physical a → chip.cells s' q ≡ chip.cells s q)
    unfolding cfi_write_byte
    byte_ends fuel a b s (ready, at) enough blank =
        let (ready1, at1, same1) = program_opened mem dev chip wired s (ready, at, λ q. refl) in
        let s1 = mem.store dev.drv_data.reg0 160 (unlock mem dev.drv_data s) in
        let (works, back, set, others) = chip.programs s1 a b ready1 at1 in
        let (s', runs, (ready', same)) =
          wait_ends fuel a (program_command mem dev.drv_data a b s) (omega (arith, works, enough))
            back in
        (
          s',
          runs,
          ready',
          same (physical a) ∙ set (same1 (physical a) ∙ blank),
          λ q other. same q ∙ others q other ∙ same1 q,
        )

    write_bytes_ends :
        (fuel a place : ℕ) (bytes : List ℕ) (s : S)
        → Ready s
        → chip.latency < fuel
        → a % 2 ^ 16 + length bytes ≤ 2 ^ 16
        → (0 < length bytes → physical a ≡ place)
        → ((q : ℕ) → place ≤ q → q < place + length bytes → chip.cells s q ≡ 255)
        → (s' : S) × (write_bytes mem fuel dev.drv_data a bytes s ≡ some s')
          × Ready s'
          × (run (chip.cells s') place (length bytes) ≡ bytes)
          × Kept place (length bytes) s s'
    unfolding write_bytes
    write_bytes_ends fuel a place [] s ready enough inside here erased =
        (s, refl, ready, refl, λ q outside. refl)
    write_bytes_ends fuel a place (b ∷ bytes) s ready enough inside here erased =
        let at : physical a ≡ place = here (omega arith) in
        let (s1, runs, ready1, set, others) =
          byte_ends fuel a b s ready enough
            (erased (physical a) (omega (arith, at)) (omega (arith, at))) in
        let (s2, rest, ready2, written, kept) =
          write_bytes_ends fuel (far_next a) (place + 1) bytes s1 ready1 enough
            (omega (arith, inside)) (λ more. omega (arith, inside, more, at))
            (λ q above below.
              others q (λ e. omega (arith, e, at, above))
              ∙ erased q (omega (arith, above)) (omega (arith, below))) in
        let first : chip.cells s2 place ≡ b =
          kept place (inl (omega arith)) ∙ ap (chip.cells s1) (sym at) ∙ set in
        (
          s2,
          ap (λ o. and_then o (write_bytes mem fuel dev.drv_data (far_next a) bytes)) runs ∙ rest,
          ready2,
          ap₂ (λ x xs. x ∷ xs) first written,
          joined_writes place (length bytes) 0 s s1 s2
              (λ q outside. others q (λ e. not_here q outside (e ∙ at))) kept,
        )
      where
        not_here : (q : ℕ) → (q < place) ⊎ (place + suc (length bytes) ≤ q) → q ≢ place
        not_here q (inl low) e = omega (arith, low, e)
        not_here q (inr high) e = omega (arith, high, e)

  -- A block of bytes that is written to a ready chip, at an address that starts a sector and does
  -- not leave its segment, where the chip starts at a segment and at a multiple of 32 KB: with more
  -- fuel than the chip works for, the write ends and returns the number of the bytes. A read of the
  -- block then gives the bytes, and no byte of the chip outside the block has changed.
  pub cfi_read_block-cfi_write_block :
      (fuel base block : ℕ) (bytes : List ℕ) (s : S)
      → dev.drv_data ≡ private_of base
      → base % 2 ^ 16 ≡ 0
      → base < 2 ^ 32
      → physical base % 2 ^ 15 ≡ 0
      → Ready s
      → chip.latency < fuel
      → length bytes ≡ dev.block_size
      → physical (cfi_get_block_addr dev block) % dev.block_size ≡ 0
      → cfi_get_block_addr dev block % 2 ^ 16 + dev.block_size ≤ 2 ^ 16
      → (s' : S) × (cfi_write_block mem fuel dev block bytes 1 s
          ≡ some (to_int (1 * dev.block_size), s'))
        × ((cfi_read_block mem dev block 1 s').0 ≡ (to_int (1 * dev.block_size), bytes))
        × Kept (physical (cfi_get_block_addr dev block)) dev.block_size s s'
  unfolding cfi_write_block write_blocks cfi_read_block read_blocks
  cfi_read_block-cfi_write_block fuel base block bytes s there aligned wide low ready enough whole
        start inside =
      let wired = private_of-Wired dev base there aligned wide low in
      let a = cfi_get_block_addr dev block in
      let size = dev.block_size in
      let r = to_int (1 * size) in
      let (s1, erases, ready1, erased, others) = erase_ends wired fuel a s ready enough start in
      let all : take size bytes ≡ bytes = take_all size bytes (omega (arith, whole)) in
      let (s2, writes, (ready2, at2), written, others') =
        write_bytes_ends wired fuel a (physical a) bytes s1 ready1 enough
          (omega (arith, inside, whole)) (λ more. refl)
          (λ q above below. erased q above (omega (arith, below, whole))) in
      let got : (mem.copy a size s2).0 ++ [] ≡ bytes =
        append-nil (mem.copy a size s2).0
        ∙ chip.copies s2 a size ready2 at2 inside
        ∙ ap (run (chip.cells s2) (physical a)) (sym whole)
        ∙ written in
      let last : Option S → Option (Ret × S) = λ o.
        returning mem r
          (and_then o (write_blocks mem fuel dev 0 (u32 (block + 1)) (drop size bytes))) in
      let kept : Kept (physical a) size s1 s2 =
        subst (λ n. Kept (physical a) n s1 s2) whole others' in
      (
        s2,
        ap
              (λ o. returning mem r (
                and_then o (λ s'.
                  and_then (write_bytes mem fuel dev.drv_data a (take size bytes) s')
                    (write_blocks mem fuel dev 0 (u32 (block + 1)) (drop size bytes)))))
              erases
            ∙ ap (λ l. last (write_bytes mem fuel dev.drv_data a l s1)) all
            ∙ ap last writes,
        ap (λ l. (r, l)) got,
        λ q outside. kept q outside ∙ others q outside,
      )
