-- ===== src/Cf20/Queued.antt =====
-- kernel/drivers/block/cf20/cf20.c: a request on an empty queue, and one behind another.
use i80k.Base.{
  ap, ℕ, zero, suc, ◌*◌, ◌^◌, ◌<◌, ◌≤◌, ◌≡◌, refl, ◌∙◌, arith, Bool, true, false, Option, some, [],
  ◌∷◌, ◌++◌, ==_self,
}
use i80k.Base.Word.{u16, sub16, ok, to_int, to_int_small}
use i80k.Cf20.{
  Bus, Private, BioState, BioRequest, read_cmd, write_cmd, poke, Driver, interrupts, invalid,
  ask_read, ask_write, cf20_read_block, cf20_write_block, cf20_send_read_sectors,
  cf20_send_write_sectors, bytes_moved,
}
use i80k.Cf20.Transfer.{moving, Moved, interrupts-Moved}

abbrev pub command_state : Bool → BioState
command_state true = read_cmd
command_state false = write_cmd

module _ {S : Type 0} (io : Bus S) (pdev : Private) where
  -- The two calls, and their commands.
  abbrev pub block_call : Bool → ℕ → ℕ → ℕ → ℕ → Driver S → Option (Driver S)
  block_call true = cf20_read_block io pdev
  block_call false = cf20_write_block io pdev

  abbrev pub command : Bool → ℕ → ℕ → S → S
  command true = cf20_send_read_sectors io pdev
  command false = cf20_send_write_sectors io pdev

  -- The call sends its command, and as many interrupts as it asked for sectors move them and wake
  -- the task, which returns their bytes.
  pub record Completes (w : Bool) (task buf block count : ℕ) (d : Driver S) : Type 0 where
    pub asleep : Driver S
    pub at_last : Driver S
    pub asked : block_call w task buf block count d ≡ some asleep
    pub same : asleep.memory ≡ d.memory
    pub sent : asleep.bus ≡ command w block count d.bus
    pub run : interrupts io pdev count asleep ≡ at_last
    pub moved : Moved io pdev w task [] count buf asleep at_last
    pub result : bytes_moved io pdev task count at_last ≡ ok (count * pdev.sector_sz)

  valid_call :
      (count buf : ℕ) → 0 < count → count ≤ 256 → 0 < buf → invalid io pdev count buf ≡ false
  valid_call count buf some_of few there = ground arith

  abbrev first_asleep : Bool → ℕ → ℕ → ℕ → ℕ → Driver S → Driver S
  first_asleep w task buf block count d = record {
    requests = d.requests ++ (task ∷ []);
    request_of =
        poke task (record { state = moving w; block = block; count = count; buf = buf })
          d.request_of;
    memory = d.memory;
    bus = command w block count d.bus;
    calls = d.calls;
  }

  asked_first :
      (w : Bool) (task buf block count : ℕ) (d : Driver S)
      → d.requests ≡ []
      → 0 < count
      → count ≤ 256
      → 0 < buf
      → block_call w task buf block count d ≡ some (first_asleep w task buf block count d)
  unfolding cf20_read_block cf20_write_block
  asked_first true task buf block count d empty some_of few there =
      rw (valid_call count buf some_of few there)
        (ap (λ q. some (ask_read io pdev task buf block count d q)) empty)
  asked_first false task buf block count d empty some_of few there =
      rw (valid_call count buf some_of few there)
        (ap (λ q. some (ask_write io pdev task buf block count d q)) empty)

  -- A request on an empty queue is served in full.
  pub block_call-Completes :
      (w : Bool) (task buf block count : ℕ) (d : Driver S)
      → d.requests ≡ []
      → 0 < count
      → count ≤ 256
      → 0 < buf
      → buf < 2 ^ 16
      → count * pdev.sector_sz < 2 ^ 15
      → Completes w task buf block count d
  unfolding bytes_moved
  block_call-Completes w task buf block zero d empty some_of few there room fits =
      absurd (omega (arith, some_of))
  block_call-Completes w task buf block (suc k) d empty some_of few there room fits =
      let d0 = first_asleep w task buf block (suc k) d in
      let mine : d0.request_of task
          ≡ record { state = moving w; block = block; count = suc k; buf = buf } =
        rw (==_self task) refl in
      let (d', run, moved) =
        interrupts-Moved io pdev k w task [] buf d0
          (record {
            queue = ap (λ q. q ++ (task ∷ [])) empty;
            state = ap (λ (r : BioRequest). r.state) mine;
          })
          (ap (λ (r : BioRequest). r.count) mine) (ap (λ (r : BioRequest). r.buf) mine)
          (omega (arith, few)) room in
      record {
        asleep = d0;
        at_last = d';
        asked = asked_first w task buf block (suc k) d empty some_of few there;
        same = refl;
        sent = refl;
        run = run;
        moved = moved;
        result =
            ap (λ n. to_int (u16 (n * pdev.sector_sz))) (left_over d' moved)
            ∙ ap to_int (small (suc k * pdev.sector_sz) fits)
            ∙ to_int_small (suc k * pdev.sector_sz) fits;
      }
    where
      small : (n : ℕ) → n < 2 ^ 15 → u16 n ≡ n
      small n h = omega (arith, h)

      left_over :
          (d' : Driver S)
          → Moved io pdev w task [] (suc k) buf (first_asleep w task buf block (suc k) d) d'
          → sub16 (suc k) (d'.request_of task).count ≡ suc k
      left_over d' moved = omega (arith, moved.count, few)
