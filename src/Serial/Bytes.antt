-- ===== src/Serial/Bytes.antt =====
-- Bytes written to a port and read from it in a row, and the rings that they go to and come from.
use i80k.Base.{ℕ, zero, suc, List, [], ◌∷◌}
use i80k.Cf20.{Bus}

module _ {S : Type 0} (bus : Bus S) (port : ℕ) where
  unfoldable pub outs : List ℕ → S → S
  outs [] s = s
  outs (b ∷ bs) s = outs bs (bus.outb port b s)

  unfoldable pub ins : ℕ → S → List ℕ × S
  ins zero s = ([], s)
  ins (suc n) s = let (b, s') = bus.inb port s in let (bs, s'') = ins n s' in (b ∷ bs, s'')
