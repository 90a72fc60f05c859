-- ===== src/Cf20/Tests.antt =====
-- A card on the ports from 768 on, whose data port gives 7, and two requests.
use i80k.Base.{ℕ, ◌+◌, ◌≡◌, refl, arith, true, false, [], ◌∷◌, ◌==◌, if◌then◌else◌}
use i80k.Cf20.{Bus, Private, private_of, read_sector, write_cmd, Memory, Driver, interrupts}
use i80k.Cf20.Queued.{Completes, block_call-Completes}
use i80k.Cf20.Behind.{Pending, interrupts_behind}
use i80k.Cf20.Identity.{serial_of, firmware_of, model_of}
use i80k.Cf20.Identity.Texts.{texts-bytes}

-- What stands behind the ports counts the bytes read.
abbrev sevens : Bus ℕ
sevens = record { inb = λ port s. (7, s + 1); outb = λ port v s. s }

abbrev card : Private
card = private_of 5 768

abbrev idle : Driver ℕ
idle = record {
  requests = [];
  request_of = λ task. record { state = read_sector; block = 0; count = 0; buf = 0 };
  memory = λ p. 0;
  bus = 0;
  calls = [];
}

block_call-Completes_example : Completes sevens card true 3 1000 40 2 idle
block_call-Completes_example =
    block_call-Completes sevens card true 3 1000 40 2 idle refl (omega arith) (omega arith)
      (omega arith) (omega arith) (omega arith)

abbrev two_requests : Driver ℕ
two_requests = record idle {
  requests = 3 ∷ 4 ∷ [];
  request_of = λ task.
      if task == 3
      then record { state = read_sector; block = 40; count = 2; buf = 1000 }
      else record { state = write_cmd; block = 90; count = 1; buf = 5000 };
}

interrupts_behind_example :
    (mem : Memory) × Pending sevens card false 4 []
      (two_requests.request_of 4)
      mem
      (interrupts sevens card (2 + 10) two_requests)
    × (mem ≡ (interrupts sevens card 2 two_requests).memory)
interrupts_behind_example =
    interrupts_behind sevens card 10 1 true false 3 4 [] two_requests
      (record { queue = refl; state = refl }) refl (omega arith) (omega arith) (omega arith) refl

-- A sector of the letter `A`.
abbrev letters : Memory
letters p = 65

texts-bytes_example :
    (serial_of letters 3 ≡ 65) × (firmware_of letters 3 ≡ 65) × (model_of letters 3 ≡ 65)
texts-bytes_example = texts-bytes letters 3 (λ j. omega arith)
