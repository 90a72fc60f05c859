-- ===== src/Cf20/Transfer.antt =====
-- kernel/drivers/block/cf20/cf20.c: the sectors of the request at the head of the queue.
use i80k.Base.{
  ap, ap₂, ℕ, zero, suc, ◌+◌, ◌*◌, ◌^◌, ◌<◌, ◌≡◌, ◌≢◌, refl, sym, ◌∙◌, arith, Bool, true, false,
  List, ◌∷◌, ◌++◌, ◌==◌, ==_of_ne, ==_self, replicate,
}
use i80k.Base.Word.{u16, sub16}
use i80k.Cf20.{
  Bus, Private, BioState, read_sector, write_sector, Memory, poke, Call, irq_ack, scheduler_wake_up,
  Driver, read_bytes, write_bytes, cf20_read_sector, cf20_write_sector, advanced, transfer, send,
  prepare_next, finish, handle, cf20_handler, interrupts,
}

abbrev pub moving : Bool → BioState
moving true = read_sector
moving false = write_sector

module _ {S : Type 0} (io : Bus S) (pdev : Private) where
  -- Bytes from the card to the memory, or from the memory to the card.
  pub move : Bool → ℕ → ℕ → Memory × S → Memory × S
  unfolding read_bytes write_bytes
  move true n buf (mem, s) = read_bytes io pdev n buf (mem, s)
  move false n buf (mem, s) = (mem, write_bytes io pdev n buf mem s)

  suc_add : (m n : ℕ) → suc m + n ≡ suc (m + n)
  suc_add m n = omega arith

  read_join :
      (m n buf : ℕ) (mem : Memory) (s : S)
      → buf < 2 ^ 16
      → read_bytes io pdev (m + n) buf (mem, s)
        ≡ read_bytes io pdev n (u16 (buf + m)) (read_bytes io pdev m buf (mem, s))
  unfolding read_bytes
  read_join zero n buf mem s small =
      let e : 0 + n ≡ n = omega arith in
      let a : buf ≡ u16 (buf + 0) = omega (arith, small) in
      ap₂ (λ k b. read_bytes io pdev k b (mem, s)) e a
  read_join (suc m) n buf mem s small =
      let (v, s') = io.inb pdev.regs.data_port s in
      ap (λ k. read_bytes io pdev k buf (mem, s)) (suc_add m n)
      ∙ read_join m n (u16 (buf + 1)) (poke buf v mem) s' (omega arith)
      ∙ ap (λ a. read_bytes io pdev n a (read_bytes io pdev m (u16 (buf + 1)) (poke buf v mem, s')))
          (omega (arith, small))

  write_join :
      (m n buf : ℕ) (mem : Memory) (s : S)
      → buf < 2 ^ 16
      → write_bytes io pdev (m + n) buf mem s
        ≡ write_bytes io pdev n (u16 (buf + m)) mem (write_bytes io pdev m buf mem s)
  unfolding write_bytes
  write_join zero n buf mem s small =
      let e : 0 + n ≡ n = omega arith in
      let a : buf ≡ u16 (buf + 0) = omega (arith, small) in
      ap₂ (λ k b. write_bytes io pdev k b mem s) e a
  write_join (suc m) n buf mem s small =
      let s' = io.outb pdev.regs.data_port (mem buf) s in
      ap (λ k. write_bytes io pdev k buf mem s) (suc_add m n)
      ∙ write_join m n (u16 (buf + 1)) mem s' (omega arith)
      ∙ ap (λ a. write_bytes io pdev n a mem (write_bytes io pdev m (u16 (buf + 1)) mem s'))
          (omega (arith, small))

  move_join :
      (w : Bool) (m n buf : ℕ) (ms : Memory × S)
      → buf < 2 ^ 16
      → move w (m + n) buf ms ≡ move w n (u16 (buf + m)) (move w m buf ms)
  unfolding move
  move_join true m n buf (mem, s) small = read_join m n buf mem s small
  move_join false m n buf (mem, s) small = ap (λ s'. (mem, s')) (write_join m n buf mem s small)

  -- The task at the head of the queue has a request whose command the card has.
  pub record Active (w : Bool) (task : ℕ) (rest : List ℕ) (d : Driver S) : Type 0 where
    pub queue : d.requests ≡ task ∷ rest
    pub state : (d.request_of task).state ≡ moving w

  -- The driver after as many sectors of a request, which are all, with the task off the queue.
  pub record Moved (w : Bool) (task : ℕ) (rest : List ℕ) (k buf : ℕ) (d d' : Driver S)
      : Type 0 where
    pub queue : d'.requests ≡ rest
    pub contents : (d'.memory, d'.bus) ≡ move w (k * pdev.sector_sz) buf (d.memory, d.bus)
    pub count : (d'.request_of task).count ≡ 0
    pub calls : d'.calls ≡ scheduler_wake_up task ∷ (replicate k (irq_ack pdev.irq) ++ d.calls)
    pub others : (q : ℕ) → q ≢ task → d'.request_of q ≡ d.request_of q

  abbrev acked : Driver S → Driver S
  acked d = record d { calls = irq_ack pdev.irq ∷ d.calls }

  abbrev sector_moved : Bool → ℕ → Driver S → Driver S
  sector_moved w task d =
      advanced io pdev task (move w pdev.sector_sz (d.request_of task).buf (d.memory, d.bus))
        (acked d)

  step :
      (w : Bool) (task : ℕ) (rest : List ℕ) (d : Driver S)
      → Active w task rest d
      → cf20_handler io pdev d ≡ finish io pdev task rest (sector_moved w task d)
  unfolding cf20_handler transfer move cf20_read_sector cf20_write_sector
  step true task rest d a =
      ap (λ q. handle io pdev q (acked d)) a.queue
      ∙ ap (λ st. finish io pdev task rest (transfer io pdev task st (acked d))) a.state
  step false task rest d a =
      ap (λ q. handle io pdev q (acked d)) a.queue
      ∙ ap (λ st. finish io pdev task rest (transfer io pdev task st (acked d))) a.state

  -- A sector that is not the last leaves the request active, with one fewer to go.
  step_more :
      (w : Bool) (task : ℕ) (rest : List ℕ) (d : Driver S)
      → Active w task rest d
      → (sub16 (d.request_of task).count 1 == 0) ≡ false
      → cf20_handler io pdev d ≡ sector_moved w task d
  unfolding send
  step_more true task rest d a more =
      step true task rest d a ∙ rw (==_self task, more, a.state) refl
  step_more false task rest d a more =
      step false task rest d a ∙ rw (==_self task, more, a.state) refl

  abbrev woken : Bool → ℕ → List ℕ → Driver S → Driver S
  woken w task rest d =
      let d' = sector_moved w task d in
      record d' { requests = rest; calls = scheduler_wake_up task ∷ d'.calls }

  -- The last one takes the task off the queue.
  step_last :
      (w : Bool) (task : ℕ) (rest : List ℕ) (d : Driver S)
      → Active w task rest d
      → (sub16 (d.request_of task).count 1 == 0) ≡ true
      → cf20_handler io pdev d ≡ prepare_next io pdev rest (woken w task rest d)
  step_last w task rest d a last = step w task rest d a ∙ rw (==_self task, last) refl

  replicate_shift :
      (k : ℕ) (c : Call) (cs : List Call) → replicate k c ++ (c ∷ cs) ≡ c ∷ (replicate k c ++ cs)
  replicate_shift zero c cs = refl
  replicate_shift (suc k) c cs = ap (λ rest. c ∷ rest) (replicate_shift k c cs)

  -- As many interrupts as the request at the head has sectors left move them all; then the next
  -- of the queue, if any, is prepared.
  pub interrupts-Moved :
      (k : ℕ) (w : Bool) (task : ℕ) (rest : List ℕ) (buf : ℕ) (d : Driver S)
      → Active w task rest d
      → (d.request_of task).count ≡ suc k
      → (d.request_of task).buf ≡ buf
      → suc k < 2 ^ 16
      → buf < 2 ^ 16
      → (d' : Driver S) × (interrupts io pdev (suc k) d ≡ prepare_next io pdev rest d')
        × Moved w task rest (suc k) buf d d'
  unfolding interrupts
  interrupts-Moved zero w task rest buf d a left at small room =
      let last : sub16 (d.request_of task).count 1 ≡ 0 = omega (arith, left) in
      (
        woken w task rest d,
        step_last w task rest d a (ap (λ n. n == 0) last),
        record {
          queue = refl;
          contents =
              ap (λ b. move w pdev.sector_sz b (d.memory, d.bus)) at
              ∙ ap (λ n. move w n buf (d.memory, d.bus)) (omega arith);
          count = rw (==_self task) last;
          calls = refl;
          others = λ q ne. rw (==_of_ne q task ne) refl;
        },
      )
  interrupts-Moved (suc k) w task rest buf d a left at small room =
      let fewer : sub16 (d.request_of task).count 1 ≡ suc k = omega (arith, left, small) in
      let more : (sub16 (d.request_of task).count 1 == 0) ≡ false =
        ==_of_ne (sub16 (d.request_of task).count 1) 0 (omega (arith, fewer)) in
      let d1 = sector_moved w task d in
      let (d', run, moved) =
        interrupts-Moved k w task rest (u16 (buf + pdev.sector_sz)) d1
          (record { queue = a.queue; state = rw (==_self task, more) a.state })
          (rw (==_self task) fewer) (rw (==_self task, at) refl) (omega (arith, small))
          (omega arith) in
      (
        d',
        ap (λ c. interrupts io pdev (suc k) c) (step_more w task rest d a more) ∙ run,
        record {
          queue = moved.queue;
          contents =
              moved.contents
              ∙ ap
                  (λ b.
                    move w (suc k * pdev.sector_sz) (u16 (buf + pdev.sector_sz))
                      (move w pdev.sector_sz b (d.memory, d.bus)))
                  at
              ∙ sym (move_join w pdev.sector_sz (suc k * pdev.sector_sz) buf (d.memory, d.bus) room)
              ∙ ap (λ n. move w n buf (d.memory, d.bus)) (omega arith);
          count = moved.count;
          calls =
              moved.calls
              ∙ ap (λ cs. scheduler_wake_up task ∷ cs)
                  (replicate_shift (suc k) (irq_ack pdev.irq) d.calls);
          others = λ q ne. moved.others q ne ∙ rw (==_of_ne q task ne) refl;
        },
      )
