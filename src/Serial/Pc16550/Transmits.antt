-- ===== src/Serial/Pc16550/Transmits.antt =====
-- kernel/drivers/pc16550.c: the 16550 as the driver finds it while it transmits.
use i80k.Base.{
  ap, sym, refl, ℕ, zero, suc, ◌+◌, ◌*◌, ◌/◌, ◌≡◌, ◌<◌, ◌∙◌, inl, inr, List, [], ◌∷◌, ◌++◌, take,
  drop, append-nil, append_assoc, bit_and, bit_or, arith, Bool, true, false, ◌&&◌, Bool-split, ◌==◌,
  eq_of_==, ltb, lt_of_ltb,
}
use i80k.Cf20.{Bus}
use i80k.Interrupts.{irq_ack}
use i80k.Serial.{IoDevice}
use i80k.Serial.Bytes.{outs}
use i80k.Serial.Pc16550.{ier_port, isr_port, uart_start_xmit, pc16550_disable_tx_int}

all_below : ℕ → (ℕ → Bool) → Bool
all_below zero f = true
all_below (suc n) f = f n && all_below n f

all_below-at : (n : ℕ) (f : ℕ → Bool) → all_below n f ≡ true → (k : ℕ) → k < n → f k ≡ true
unfolding all_below
all_below-at zero f all k h = absurd (omega (arith, h))
all_below-at (suc n) f all k h = elim (Bool-split (k == n)) [
  | inl e ↦ ap f (eq_of_== k n e) ∙ and_left (f n) (all_below n f) all
  | inr e ↦ all_below-at n f (and_right (f n) (all_below n f) all) k (ground (arith, e))
]
  where
    and_left : (x y : Bool) → (x && y) ≡ true → x ≡ true
    and_left true y h = refl
    and_left false y h = h

    and_right : (x y : Bool) → (x && y) ≡ true → y ≡ true
    and_right true y h = h
    and_right false y h = absurd cc

-- Bit 1 of the interrupt enable register.
bit_cleared : (b : ℕ) → b < 256 → bit_and (bit_and b 253) 2 ≡ 0
unfolding all_below
bit_cleared b h =
    eq_of_== (bit_and (bit_and b 253) 2) 0
      (all_below-at 256 (λ k. bit_and (bit_and k 253) 2 == 0) refl b h)

bit_set : (b : ℕ) → b < 256 → bit_and (bit_or b 2) 2 ≡ 2
unfolding all_below
bit_set b h =
    eq_of_== (bit_and (bit_or b 2) 2) 2
      (all_below-at 256 (λ k. bit_and (bit_or k 2) 2 == 2) refl b h)

masked_byte : (b : ℕ) → b < 256 → bit_and b 253 < 256
unfolding all_below
masked_byte b h =
    lt_of_ltb (bit_and b 253) 256 (all_below-at 256 (λ k. ltb (bit_and k 253) 256) refl b h)

set_byte : (b : ℕ) → b < 256 → bit_or b 2 < 256
unfolding all_below
set_byte b h = lt_of_ltb (bit_or b 2) 256 (all_below-at 256 (λ k. ltb (bit_or k 2) 256) refl b h)

-- What the status says whose low four bits are 2, whatever the bits of the FIFOs.
pub status_pending : (high : ℕ) → high < 16 → bit_and (16 * high + 2) 1 ≡ 0
unfolding all_below
status_pending high h =
    eq_of_== (bit_and (16 * high + 2) 1) 0
      (all_below-at 16 (λ k. bit_and (16 * k + 2) 1 == 0) refl high h)

pub status_id : (high : ℕ) → high < 16 → bit_and ((16 * high + 2) / 2) 7 ≡ 1
unfolding all_below
status_id high h =
    eq_of_== (bit_and ((16 * high + 2) / 2) 7) 1
      (all_below-at 16 (λ k. bit_and ((16 * k + 2) / 2) 7 == 1) refl high h)

pub take-nil : (n : ℕ) → take {A = ℕ} n [] ≡ []
take-nil zero = refl
take-nil (suc n) = refl

pub drop-nil : (n : ℕ) → drop {A = ℕ} n [] ≡ []
drop-nil zero = refl
drop-nil (suc n) = refl

-- A 16550 whose divisor latch is off and that only transmits. `ier` is its interrupt enable register,
-- `written` what was written to its FIFO, and `pending` how often the FIFO will still be found empty.
-- That it is empty is told only while bit 1 of the register is set: the low four bits of the status
-- are then 2, the high ones tell about the FIFOs, and reading the status takes the interrupt back.
pub record Transmitter {S : Type 0} (bus : Bus S) (u : IoDevice) : Type 0 where
  pub pending : S → ℕ
  pub written : S → List ℕ
  pub ier : S → ℕ
  pub ier_byte : (s : S) → ier s < 256
  pub ier_read : (s : S) → bus.inb (ier_port u) s ≡ (ier s, s)
  pub ier_set : (s : S) (b : ℕ) → b < 256 → ier (bus.outb (ier_port u) b s) ≡ b
  pub ier_set_written : (s : S) (b : ℕ) → written (bus.outb (ier_port u) b s) ≡ written s
  pub no_pending : (s : S) → pending s ≡ 0 → bit_and (bus.inb (isr_port u) s).0 1 ≡ 1
  pub not_enabled : (s : S) → bit_and (ier s) 2 ≡ 0 → bit_and (bus.inb (isr_port u) s).0 1 ≡ 1
  pub tells :
      (s : S) (n : ℕ)
      → pending s ≡ suc n
      → bit_and (ier s) 2 ≡ 2
      → (fifos : ℕ) × ((bus.inb (isr_port u) s).0 ≡ 16 * fifos + 2)
        × (fifos < 16)
        × (pending (bus.inb (isr_port u) s).1 ≡ n)
  pub told_written : (s : S) → written (bus.inb (isr_port u) s).1 ≡ written s
  pub told_ier : (s : S) → ier (bus.inb (isr_port u) s).1 ≡ ier s
  pub takes : (s : S) (b : ℕ) → written (bus.outb u.port b s) ≡ written s ++ (b ∷ [])
  pub takes_pending : (s : S) (b : ℕ) → pending (bus.outb u.port b s) ≡ pending s
  pub takes_ier : (s : S) (b : ℕ) → ier (bus.outb u.port b s) ≡ ier s
  pub acknowledges : (s : S) → written (irq_ack bus u.pic u.irq s) ≡ written s

module _ {S : Type 0} (bus : Bus S) (u : IoDevice) (t : Transmitter bus u) where
  -- The interrupt of an empty FIFO is enabled.
  abbrev pub Enabled : S → Type 0
  Enabled s = bit_and (t.ier s) 2 ≡ 2

  pub disabled :
      (s : S)
      → (bit_and (t.ier (pc16550_disable_tx_int bus u s)) 2 ≡ 0)
        × (t.written (pc16550_disable_tx_int bus u s) ≡ t.written s)
  unfolding pc16550_disable_tx_int
  disabled s =
      let low = masked_byte (t.ier s) (t.ier_byte s) in
      let now = ap (λ (r : ℕ × S). bus.outb (ier_port u) (bit_and r.0 253) r.1) (t.ier_read s) in
      (
        ap (λ q. bit_and (t.ier q) 2) now
            ∙ ap (λ b. bit_and b 2) (t.ier_set s (bit_and (t.ier s) 253) low)
            ∙ bit_cleared (t.ier s) (t.ier_byte s),
        ap t.written now ∙ t.ier_set_written s (bit_and (t.ier s) 253),
      )

  -- The start of a transmission enables the interrupt, and writes nothing to the FIFO.
  pub uart_start_xmit-Enabled :
      (s : S)
      → Enabled (uart_start_xmit bus u s) × (t.written (uart_start_xmit bus u s) ≡ t.written s)
  unfolding uart_start_xmit
  uart_start_xmit-Enabled s =
      let low = set_byte (t.ier s) (t.ier_byte s) in
      let now = ap (λ (r : ℕ × S). bus.outb (ier_port u) (bit_or r.0 2) r.1) (t.ier_read s) in
      (
        ap (λ q. bit_and (t.ier q) 2) now
            ∙ ap (λ b. bit_and b 2) (t.ier_set s (bit_or (t.ier s) 2) low)
            ∙ bit_set (t.ier s) (t.ier_byte s),
        ap t.written now ∙ t.ier_set_written s (bit_or (t.ier s) 2),
      )

  pub written-outs :
      (bs : List ℕ) (s : S)
      → (t.written (outs bus u.port bs s) ≡ t.written s ++ bs)
        × (t.pending (outs bus u.port bs s) ≡ t.pending s)
        × (t.ier (outs bus u.port bs s) ≡ t.ier s)
  unfolding outs
  written-outs [] s = (sym (append-nil (t.written s)), refl, refl)
  written-outs (b ∷ bs) s =
      let (w, p, i) = written-outs bs (bus.outb u.port b s) in
      (
        w ∙ ap (λ q. q ++ bs) (t.takes s b) ∙ append_assoc (t.written s) (b ∷ []) bs,
        p ∙ t.takes_pending s b,
        i ∙ t.takes_ier s b,
      )
