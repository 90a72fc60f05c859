-- ===== src/Console/Output.antt =====
-- kernel/console.c: what the rings of the console hold after its calls.
use i80k.Base.{
  ap, sym, refl, ℕ, ◌-◌, ◌^◌, ◌≡◌, ◌∙◌, true, inl, inr, ◌⊎◌, eq_of_==, Bool-split, List, [], ◌∷◌,
  ◌++◌, ◌==◌, if◌then◌else◌,
}
use i80k.Base.Word.{u8, ok, err}
use i80k.RingBuffer.{RingBuffer, queue, queue_arr, dequeue}
use i80k.RingBuffer.Index.{IsValid}
use i80k.RingBuffer.Refine.{contents}
use i80k.RingBuffer.Fifo
use i80k.RingBuffer.Arrays.{
  dequeue_cases, queue_arr-cons, queue_arr-nil, queue_arr-append, queue_arr-latest,
}
use i80k.Console.{
  Console, console_start_xmit, console_putchar, console_puts, console_getchar, queued, taken,
}

-- A newline is sent after a carriage return.
abbrev pub sent_as : ℕ → List ℕ
sent_as ch = if u8 ch == 10 then 13 ∷ 10 ∷ [] else u8 ch ∷ []

queue_one : (r : RingBuffer) (b : ℕ) → queue r b ≡ queue_arr r (b ∷ [])
queue_one r b = sym (queue_arr-nil (queue r b)) ∙ queue_arr-cons r b []

char_queued :
    (ch : ℕ) (r : RingBuffer)
    → queue (if u8 ch == 10 then queue r 13 else r) (u8 ch) ≡ queue_arr r (sent_as ch)
char_queued ch r = elim (Bool-split (u8 ch == 10)) [
  | inl e ↦ rw e (
      ap (queue (queue r 13)) (eq_of_== (u8 ch) 10 e)
      ∙ queue_one (queue r 13) 10
      ∙ queue_arr-cons r 13 (10 ∷ []))
  | inr e ↦ rw e (queue_one r (u8 ch))
]

module _ {S : Type 0} (uart_start_xmit : S → S) where
  pub start_xmit_tx : (c : Console S) → (console_start_xmit uart_start_xmit c).tx_ring ≡ c.tx_ring
  unfolding console_start_xmit
  start_xmit_tx c = elim (Bool-split c.binded) [ inl e ↦ rw e refl | inr e ↦ rw e refl ]

  pub console_puts_started :
      (s : List ℕ) (c : Console S)
      → c.binded ≡ true
      → (console_puts uart_start_xmit s c).1.driver ≡ uart_start_xmit c.driver
  unfolding console_puts console_start_xmit
  console_puts_started s c bound = rw bound refl

  -- A text is queued with a carriage return and a newline behind it: the ring then holds the last
  -- of all bytes, as many as it can.
  pub console_puts-latest :
      {bits : ℕ} (s : List ℕ) (c : Console S)
      → IsValid bits c.tx_ring
      → IsValid bits (console_puts uart_start_xmit s c).1.tx_ring
        × (contents (console_puts uart_start_xmit s c).1.tx_ring
            ≡ Fifo.latest (2 ^ bits - 1) (contents c.tx_ring ++ (s ++ (13 ∷ 10 ∷ []))))
  unfolding console_puts
  console_puts-latest s c v =
      let tx = queue_arr (queue_arr c.tx_ring s) (13 ∷ 10 ∷ []) in
      rw (start_xmit_tx (queued c tx), queue_arr-append c.tx_ring s (13 ∷ 10 ∷ []))
        (queue_arr-latest (s ++ (13 ∷ 10 ∷ [])) v)

  -- A character is queued, behind a carriage return if it is a newline: the ring then holds the
  -- last of all bytes, as many as it can.
  pub console_putchar-latest :
      {bits : ℕ} (ch : ℕ) (c : Console S)
      → IsValid bits c.tx_ring
      → IsValid bits (console_putchar uart_start_xmit ch c).1.tx_ring
        × (contents (console_putchar uart_start_xmit ch c).1.tx_ring
            ≡ Fifo.latest (2 ^ bits - 1) (contents c.tx_ring ++ sent_as ch))
  unfolding console_putchar
  console_putchar-latest ch c v =
      rw
        (
          start_xmit_tx
              (queued c (queue (if u8 ch == 10 then queue c.tx_ring 13 else c.tx_ring) (u8 ch))),
          char_queued ch c.tx_ring,
        )
        (queue_arr-latest (sent_as ch) v)

-- The next byte that was received is returned, or -1 if there is none, and is taken off the ring.
console_getchar-pop :
    {S : Type 0} {bits : ℕ} (c : Console S)
    → IsValid bits c.rx_ring
    → ((contents c.rx_ring ≡ []) × (console_getchar c ≡ (err 1, c)))
      ⊎ ((byte : ℕ) × (r : RingBuffer) × (console_getchar c
            ≡ (ok (u8 byte), record c { rx_ring = r }))
          × IsValid bits r
          × (contents c.rx_ring ≡ byte ∷ contents r))
unfolding console_getchar
console_getchar-pop c v = elim (dequeue_cases v) [
  | inl (e, z) ↦ inl (z, rw e refl)
  | inr (byte, e, got, w, q) ↦ inr (
    byte,
    (dequeue c.rx_ring).1,
    rw e (ap (λ o. (ok (u8 (taken o)), record c { rx_ring = (dequeue c.rx_ring).1 })) got),
    w,
    q,
  )
]
