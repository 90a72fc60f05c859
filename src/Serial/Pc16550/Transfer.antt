-- ===== src/Serial/Pc16550/Transfer.antt =====
-- kernel/drivers/pc16550.c: the bytes between the rings and the FIFOs of the 16550.
use i80k.Base.{ap, sym, refl, ℕ, zero, suc, ◌-◌, ◌^◌, ◌≡◌, ◌∙◌, inl, inr, ◌++◌, take, drop}
use i80k.Cf20.{Bus}
use i80k.RingBuffer.{RingBuffer, queue, queue_arr, dequeue}
use i80k.RingBuffer.Index.{IsValid}
use i80k.RingBuffer.Refine.{contents}
use i80k.RingBuffer.Fifo
use i80k.RingBuffer.Arrays.{dequeue_cases, queue_arr-cons, queue_arr-nil, queue_arr-latest}
use i80k.Serial.{IoDevice}
use i80k.Serial.Bytes.{outs, ins}
use i80k.Serial.Pc16550.{transmit, receive, sent}

module _ {S : Type 0} (bus : Bus S) (u : IoDevice) where
  -- Transmitting sends the oldest bytes of the ring, in order, as many as asked for or as there
  -- are; the ring keeps the others.
  pub transmit-oldest :
      {bits : ℕ} (n : ℕ) (r : RingBuffer) (s : S)
      → IsValid bits r
      → IsValid bits (transmit bus u n r s).0
        × (contents (transmit bus u n r s).0 ≡ drop n (contents r))
        × ((transmit bus u n r s).1 ≡ outs bus u.port (take n (contents r)) s)
  unfolding transmit outs
  transmit-oldest zero r s v = (v, refl, refl)
  transmit-oldest (suc n) r s v = elim (dequeue_cases v) [
    | inl (e, z) ↦
        rw e
          (v, z ∙ sym (ap (drop (suc n)) z), sym (ap (λ q. outs bus u.port (take (suc n) q) s) z))
    | inr (byte, e, got, w, q) ↦
        let (w', left, out) = transmit-oldest n (dequeue r).1 (sent bus u (dequeue r).0 s) w in
        rw e (
          w',
          left ∙ sym (ap (drop (suc n)) q),
          out
              ∙ ap (λ o. outs bus u.port (take n (contents (dequeue r).1)) (sent bus u o s)) got
              ∙ sym (ap (λ c. outs bus u.port (take (suc n) c) s) q),
        )
  ]

  receive_queues :
      (n : ℕ) (r : RingBuffer) (s : S)
      → receive bus u n r s ≡ (queue_arr r (ins bus u.port n s).0, (ins bus u.port n s).1)
  unfolding receive ins
  receive_queues zero r s = ap (λ q. (q, s)) (sym (queue_arr-nil r))
  receive_queues (suc n) r s =
      let (byte, s') = bus.inb u.port s in
      receive_queues n (queue r byte) s'
      ∙ ap (λ q. (q, (ins bus u.port n s').1)) (queue_arr-cons r byte (ins bus u.port n s').0)

  -- Receiving reads as many bytes as asked for, and the ring is left with the last of all, as many
  -- as it can hold.
  pub receive-latest :
      {bits : ℕ} (n : ℕ) (r : RingBuffer) (s : S)
      → IsValid bits r
      → IsValid bits (receive bus u n r s).0
        × (contents (receive bus u n r s).0
            ≡ Fifo.latest (2 ^ bits - 1) (contents r ++ (ins bus u.port n s).0))
        × ((receive bus u n r s).1 ≡ (ins bus u.port n s).1)
  receive-latest n r s v =
      let (w, all) = queue_arr-latest (ins bus u.port n s).0 v in
      rw (receive_queues n r s) (w, all, refl)
