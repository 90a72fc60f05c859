-- ===== src/Cf20/Behind.antt =====
-- kernel/drivers/block/cf20/cf20.c: what becomes of a request that waited behind another.
use i80k.Base.{
  ap, ℕ, zero, suc, ◌+◌, ◌^◌, ◌<◌, ◌≡◌, ◌≢◌, refl, sym, ◌∙◌, subst, arith, Bool, true, false, List,
  ◌∷◌,
}
use i80k.Cf20.{
  Bus, Private, BioRequest, Memory, irq_ack, Driver, transfer, send, handle, finish, cf20_handler,
  interrupts,
}
use i80k.Cf20.Transfer.{Active, interrupts-Moved}
use i80k.Cf20.Queued.{command_state}

module _ {S : Type 0} (io : Bus S) (pdev : Private) where
  -- A request whose command is not sent is at the head.
  pub record Pending (v : Bool) (task : ℕ) (rest : List ℕ) (r : BioRequest) (mem : Memory)
      (d : Driver S) : Type 0 where
    pub queue : d.requests ≡ task ∷ rest
    pub request : d.request_of task ≡ r
    pub state : (d.request_of task).state ≡ command_state v
    pub memory : d.memory ≡ mem

  send-Pending :
      (v : Bool) (task : ℕ) (rest : List ℕ) (r : BioRequest) (mem : Memory) (d : Driver S)
      → Pending v task rest r mem d
      → Pending v task rest r mem (send io pdev task (command_state v) d)
  unfolding send
  send-Pending true task rest r mem d p = record {
    queue = p.queue;
    request = p.request;
    state = p.state;
    memory = p.memory;
  }
  send-Pending false task rest r mem d p = record {
    queue = p.queue;
    request = p.request;
    state = p.state;
    memory = p.memory;
  }

  handled :
      (v : Bool) (task : ℕ) (rest : List ℕ) (r : BioRequest) (mem : Memory) (d : Driver S)
      → Pending v task rest r mem d
      → cf20_handler io pdev d
        ≡ send io pdev task (command_state v) (record d { calls = irq_ack pdev.irq ∷ d.calls })
  unfolding cf20_handler transfer
  handled true task rest r mem d p =
      ap (λ q. handle io pdev q (record d { calls = irq_ack pdev.irq ∷ d.calls })) p.queue
      ∙ ap
          (λ st.
            finish io pdev task rest
              (transfer io pdev task st (record d { calls = irq_ack pdev.irq ∷ d.calls })))
          p.state
      ∙ rw p.state refl
  handled false task rest r mem d p =
      ap (λ q. handle io pdev q (record d { calls = irq_ack pdev.irq ∷ d.calls })) p.queue
      ∙ ap
          (λ st.
            finish io pdev task rest
              (transfer io pdev task st (record d { calls = irq_ack pdev.irq ∷ d.calls })))
          p.state
      ∙ rw p.state refl

  -- An interrupt sends the command and changes no more.
  cf20_handler-Pending :
      (v : Bool) (task : ℕ) (rest : List ℕ) (r : BioRequest) (mem : Memory) (d : Driver S)
      → Pending v task rest r mem d
      → Pending v task rest r mem (cf20_handler io pdev d)
  cf20_handler-Pending v task rest r mem d p =
      subst (λ d'. Pending v task rest r mem d') (sym (handled v task rest r mem d p))
        (send-Pending v task rest r mem (record d { calls = irq_ack pdev.irq ∷ d.calls })
          (record { queue = p.queue; request = p.request; state = p.state; memory = p.memory }))

  interrupts-Pending :
      (n : ℕ) (v : Bool) (task : ℕ) (rest : List ℕ) (r : BioRequest) (mem : Memory) (d : Driver S)
      → Pending v task rest r mem d
      → Pending v task rest r mem (interrupts io pdev n d)
  unfolding interrupts
  interrupts-Pending zero v task rest r mem d p = p
  interrupts-Pending (suc n) v task rest r mem d p =
      interrupts-Pending n v task rest r mem (cf20_handler io pdev d)
        (cf20_handler-Pending v task rest r mem d p)

  interrupts_join :
      (m n : ℕ) (d : Driver S)
      → interrupts io pdev (m + n) d ≡ interrupts io pdev n (interrupts io pdev m d)
  unfolding interrupts
  interrupts_join zero n d = let e : 0 + n ≡ n = omega arith in ap (λ k. interrupts io pdev k d) e
  interrupts_join (suc m) n d =
      let e : suc m + n ≡ suc (m + n) = omega arith in
      ap (λ k. interrupts io pdev k d) e ∙ interrupts_join m n (cf20_handler io pdev d)

  -- A request behind one that has sectors left comes to the head when that one is done, and is
  -- still there, with no sector moved, after any number of further interrupts.
  pub interrupts_behind :
      (n k : ℕ) (w v : Bool) (task next : ℕ) (rest : List ℕ) (d : Driver S)
      → Active io pdev w task (next ∷ rest) d
      → (d.request_of task).count ≡ suc k
      → suc k < 2 ^ 16
      → (d.request_of task).buf < 2 ^ 16
      → next ≢ task
      → (d.request_of next).state ≡ command_state v
      → (mem : Memory) × Pending v next rest
          (d.request_of next)
          mem
          (interrupts io pdev (suc k + n) d)
        × (mem ≡ (interrupts io pdev (suc k) d).memory)
  interrupts_behind n k w v task next rest d a left small room apart waits =
      let (d1, run, moved) =
        interrupts-Moved io pdev k w task (next ∷ rest) (d.request_of task).buf d a left refl small
          room in
      let same = moved.others next apart in
      let state = ap (λ (r : BioRequest). r.state) same ∙ waits in
      let sent : interrupts io pdev (suc k) d ≡ send io pdev next (command_state v) d1 =
        run ∙ ap (λ st. send io pdev next st d1) state in
      let first : Pending v next rest (d.request_of next) d1.memory (interrupts io pdev (suc k) d) =
        subst (λ d'. Pending v next rest (d.request_of next) d1.memory d') (sym sent)
          (send-Pending v next rest (d.request_of next) d1.memory d1
            (record { queue = moved.queue; request = same; state = state; memory = refl })) in
      (
        d1.memory,
        subst (λ d'. Pending v next rest (d.request_of next) d1.memory d')
            (sym (interrupts_join (suc k) n d))
            (interrupts-Pending n v next rest (d.request_of next) d1.memory
              (interrupts io pdev (suc k) d) first),
        sym first.memory,
      )
