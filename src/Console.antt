-- ===== src/Console.antt =====
-- kernel/console.c: the console, which queues its bytes for the serial line and takes those that
-- the line has received. What starts a transmission is an argument, on a state of the driver.
pub mod Output
pub mod Written
mod Tests
use i80k.Base.{
  ℕ, ◌+◌, ◌%◌, ◌^◌, Bool, true, false, Option, none, some, List, [], ◌∷◌, ◌==◌, if◌then◌else◌,
  length, get_or,
}
use i80k.Base.Word.{u8, Ret, ok, err}
use i80k.RingBuffer.{RingBuffer, init, is_empty, queue, queue_arr, dequeue}

pub record Console (S : Type 0) : Type 0 where
  pub rx_ring : RingBuffer
  pub tx_ring : RingBuffer
  pub binded : Bool
  pub driver : S

-- The rings are set up over their storage.
pub console_initialize : {S : Type 0} → List ℕ → List ℕ → S → Console S
console_initialize rx_buf tx_buf s = record {
  rx_ring = init rx_buf (length rx_buf);
  tx_ring = init tx_buf (length tx_buf);
  binded = false;
  driver = s;
}

abbrev pub queued : {S : Type 0} → Console S → RingBuffer → Console S
queued c r = record c { tx_ring = r }

module _ {S : Type 0} (uart_start_xmit : S → S) where
  pub console_start_xmit : Console S → Console S
  console_start_xmit c = if c.binded then record c { driver = uart_start_xmit c.driver } else c

  -- After the driver of the serial line was initialized with the two rings.
  pub console_bind_uart : Console S → Console S
  unfolding console_start_xmit
  console_bind_uart c =
      let bound = record c { binded = true } in
      if is_empty c.tx_ring then bound else console_start_xmit bound

  pub console_putchar : ℕ → Console S → ℕ × Console S
  unfolding console_start_xmit
  console_putchar ch c =
      let r = if u8 ch == 10 then queue c.tx_ring 13 else c.tx_ring in
      (1, console_start_xmit (queued c (queue r (u8 ch))))

  pub console_puts : List ℕ → Console S → ℕ × Console S
  unfolding console_start_xmit
  console_puts s c =
      let r = queue_arr c.tx_ring s in
      (length s + 2, console_start_xmit (queued c (queue_arr r (13 ∷ 10 ∷ []))))

abbrev pub taken : Option ℕ → ℕ
taken none = 0
taken (some byte) = byte

pub console_getchar : {S : Type 0} → Console S → Ret × Console S
console_getchar c =
    let (byte, r) = dequeue c.rx_ring in
    if is_empty c.rx_ring then (err 1, c) else (ok (u8 (taken byte)), record c { rx_ring = r })
