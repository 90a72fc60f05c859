-- ===== src/Serial/Pc16550/Drains.antt =====
-- kernel/drivers/pc16550.c: a whole run of the interrupt handler while the line transmits.
use i80k.Base.{
  ap, ap₂, sym, subst, refl, ℕ, zero, suc, ◌+◌, ◌*◌, ◌/◌, ◌≡◌, ◌<◌, ◌∙◌, inl, inr, some, ◌++◌, take,
  drop, append-nil, append_assoc, drop-drop, take_split, bit_and, arith,
}
use i80k.Cf20.{Bus}
use i80k.RingBuffer.Index.{IsValid}
use i80k.RingBuffer.Refine.{contents}
use i80k.RingBuffer.Arrays.{dequeue_cases}
use i80k.Interrupts.{irq_ack}
use i80k.Serial.{IoDevice, Line}
use i80k.Serial.Pc16550.{
  transmit, tx_empty, pc16550_disable_tx_int, serve, serve_all, isr_read, acknowledged,
  uart_handler,
}
use i80k.Serial.Pc16550.Transfer.{transmit-oldest}
use i80k.Serial.Pc16550.Transmits.{
  Transmitter, Enabled, disabled, written-outs, take-nil, drop-nil, status_pending, status_id,
}

module _ {S : Type 0} (bus : Bus S) (u : IoDevice) (t : Transmitter bus u) where
  -- What some empty FIFOs do.
  abbrev Sent : ℕ → ℕ → Line S → Line S → Type 0
  Sent bits n l l' =
      IsValid bits l'.tx_ring
      × (contents l'.tx_ring ≡ drop n (contents l.tx_ring))
      × (t.written l'.ports ≡ t.written l.ports ++ take n (contents l.tx_ring))
      × (l'.rx_ring ≡ l.rx_ring)

  -- With nothing left to send the interrupt is disabled; otherwise the oldest bytes are sent.
  data Served (bits : ℕ) (l : Line S) : Line S → Type 0 where
    emptied :
        (l' : Line S)
        → ((n : ℕ) → Sent bits n l l')
        → bit_and (t.ier l'.ports) 2 ≡ 0
        → Served bits l l'
    filled :
        (l' : Line S)
        → Sent bits 16 l l'
        → t.pending l'.ports ≡ t.pending l.ports
        → t.ier l'.ports ≡ t.ier l.ports
        → Served bits l l'

  tx_empty-Served :
      {bits : ℕ} (l : Line S) → IsValid bits l.tx_ring → Served bits l (tx_empty bus u l)
  tx_empty-Served l v = elim (dequeue_cases v) [
    | inl (e, z) ↦
        let (off, same) = disabled bus u t l.ports in
        rw e (
          emptied (record l { ports = pc16550_disable_tx_int bus u l.ports })
            (λ n. (
              v,
              z ∙ sym (drop-nil n) ∙ sym (ap (drop n) z),
              same
                  ∙ sym (append-nil (t.written l.ports))
                  ∙ ap (λ q. t.written l.ports ++ q) (sym (take-nil n) ∙ sym (ap (take n) z)),
              refl,
            ))
            off)
    | inr (byte, e, got, w, q) ↦
        let (valid, left, out) = transmit-oldest bus u 16 l.tx_ring l.ports v in
        let (all, still, on) = written-outs bus u t (take 16 (contents l.tx_ring)) l.ports in
        let sends = transmit bus u 16 l.tx_ring l.ports in
        rw e (
          filled (record l { tx_ring = sends.0; ports = sends.1 })
            (valid, left, ap t.written out ∙ all, refl) (ap t.pending out ∙ still)
            (ap t.ier out ∙ on))
  ]

  joined :
      {bits : ℕ} (n : ℕ) (l l' l'' : Line S)
      → Sent bits 16 l l'
      → Sent bits n l' l''
      → Sent bits (16 + n) l l''
  joined n l l' l'' (v, left, out, rx) (v', left', out', rx') = (
    v',
    left' ∙ ap (drop n) left ∙ drop-drop n 16 (contents l.tx_ring),
    out'
        ∙ ap₂ (λ a b. a ++ take n b) out left
        ∙ append_assoc (t.written l.ports) (take 16 (contents l.tx_ring))
            (take n (drop 16 (contents l.tx_ring)))
        ∙ ap (λ q. t.written l.ports ++ q) (sym (take_split 16 n (contents l.tx_ring))),
    rx' ∙ rx,
  )

  serve_all_stops :
      (fuel isr : ℕ) (l : Line S) → bit_and isr 1 ≡ 1 → serve_all bus u (suc fuel) isr l ≡ some l
  unfolding serve_all
  serve_all_stops fuel isr l e = rw (e, serve_all) refl

  after_read :
      {bits : ℕ} (n : ℕ) (l l' : Line S) → Sent bits n (isr_read bus u l).1 l' → Sent bits n l l'
  after_read n l l' (w, left, out, rx) =
      (w, left, out ∙ ap (λ q. q ++ take n (contents l.tx_ring)) (t.told_written l.ports), rx)

  -- A status that tells of an empty FIFO.
  serve_all_empty :
      (fuel fifos isr : ℕ) (l : Line S)
      → isr ≡ 16 * fifos + 2
      → fifos < 16
      → serve_all bus u (suc fuel) isr l
        ≡ serve_all bus u fuel
            (isr_read bus u (tx_empty bus u l)).0
            (isr_read bus u (tx_empty bus u l)).1
  unfolding serve_all serve
  serve_all_empty fuel fifos isr l e low =
      let none_bit : bit_and isr 1 ≡ 0 = ap (λ i. bit_and i 1) e ∙ status_pending fifos low in
      let empty_id : bit_and (isr / 2) 7 ≡ 1 =
        ap (λ i. bit_and (i / 2) 7) e ∙ status_id fifos low in
      rw (none_bit, empty_id, serve_all) refl

  -- A run of the handler's loop from where the status is read.
  abbrev RunsOn : ℕ → ℕ → Line S → ℕ → Line S → Type 0
  RunsOn bits fuel l n l0 =
      (l' : Line S) × (serve_all bus u fuel (isr_read bus u l).0 (isr_read bus u l).1 ≡ some l')
      × Sent bits n l0 l'

  after_empty :
      {bits : ℕ} (k fuel : ℕ) (l1 l2 : Line S)
      → Served bits l1 l2
      → Enabled bus u t l1.ports
      → t.pending l1.ports ≡ k
      → ((l : Line S)
          → IsValid bits l.tx_ring
          → Enabled bus u t l.ports
          → t.pending l.ports ≡ k
          → RunsOn bits (suc fuel) l (k * 16) l)
      → RunsOn bits (suc fuel) l2 (suc k * 16) l1
  after_empty k fuel l1 _ (emptied l2 all off) on p again =
      let (w, left, out, rx) = all (suc k * 16) in
      (
        (isr_read bus u l2).1,
        serve_all_stops fuel (isr_read bus u l2).0 (isr_read bus u l2).1
            (t.not_enabled l2.ports off),
        (w, left, t.told_written l2.ports ∙ out, rx),
      )
  after_empty {bits} k fuel l1 _ (filled l2 once still ier_kept) on p again =
      let (l', runs, rest) = again l2 once.0 (ap (λ b. bit_and b 2) ier_kept ∙ on) (still ∙ p) in
      (
        l',
        runs,
        subst (λ n. Sent bits n l1 l') {x = 16 + k * 16} {y = suc k * 16} (omega arith)
            (joined (k * 16) l1 l2 l' once rest),
      )

  serve_all_sends :
      {bits : ℕ} (k fuel : ℕ) (l : Line S)
      → IsValid bits l.tx_ring
      → Enabled bus u t l.ports
      → t.pending l.ports ≡ k
      → k < fuel
      → RunsOn bits fuel l (k * 16) l
  serve_all_sends k zero l v on p f = absurd (omega (arith, f))
  serve_all_sends zero (suc fuel) l v on p f = (
    (isr_read bus u l).1,
    serve_all_stops fuel (isr_read bus u l).0 (isr_read bus u l).1 (t.no_pending l.ports p),
    (v, refl, t.told_written l.ports ∙ sym (append-nil (t.written l.ports)), refl),
  )
  serve_all_sends (suc k) (suc zero) l v on p f = absurd (omega (arith, f))
  serve_all_sends {bits} (suc k) (suc (suc fuel)) l v on p f =
      let l1 = (isr_read bus u l).1 in
      let (fifos, status, low, fewer) = t.tells l.ports k p on in
      let (l', runs, sent) =
        after_empty k fuel l1 (tx_empty bus u l1) (tx_empty-Served l1 v)
          (ap (λ b. bit_and b 2) (t.told_ier l.ports) ∙ on) fewer
          (λ l2 w on' p'. serve_all_sends k (suc fuel) l2 w on' p' (omega (arith, f))) in
      (
        l',
        serve_all_empty (suc fuel) fifos (isr_read bus u l).0 l1 status low ∙ runs,
        after_read (suc k * 16) l l' sent,
      )

  -- Where the interrupt is enabled and the FIFO is found empty k times, the handler ends with any
  -- fuel above k. It has then written the oldest 16 k bytes of the ring, in order and nothing else,
  -- or all if there are fewer; the ring keeps the others, and the ring of received bytes is as
  -- before.
  pub uart_handler-sends :
      {bits : ℕ} (fuel : ℕ) (l : Line S)
      → IsValid bits l.tx_ring
      → Enabled bus u t l.ports
      → t.pending l.ports < fuel
      → (l' : Line S) × (uart_handler bus u fuel l ≡ some l')
        × IsValid bits l'.tx_ring
        × (contents l'.tx_ring ≡ drop (t.pending l.ports * 16) (contents l.tx_ring))
        × (t.written l'.ports
            ≡ t.written l.ports ++ take (t.pending l.ports * 16) (contents l.tx_ring))
        × (l'.rx_ring ≡ l.rx_ring)
  unfolding uart_handler
  uart_handler-sends fuel l v on enough =
      let (l', runs, (valid, left, out, rx)) =
        serve_all_sends (t.pending l.ports) fuel l v on refl enough in
      (
        record l' { ports = irq_ack bus u.pic u.irq l'.ports },
        ap (acknowledged bus u) runs,
        valid,
        left,
        t.acknowledges l'.ports ∙ out,
        rx,
      )
