-- ===== src/Kthread/Started.antt =====
-- kernel/kthread.c: a thread that was started.
use i80k.Base.{
  ap, sym, subst, refl, ℕ, ◌+◌, ◌-◌, ◌^◌, ◌≡◌, ◌≢◌, ◌≤◌, ◌<◌, ◌∙◌, ◌⊎◌, inl, inr, arith, false,
  some, ltb, ==_self,
}
use i80k.Base.Word.{u16, to_int}
use i80k.Scheduler.Queue.{count, one}
use i80k.Scheduler.Invariant.{Runs, asleep_on}
use i80k.Scheduler.Turns.{scheduler_queue_new-Runs}
use i80k.Kthread.{
  Layout, Kernel, bootstrap_size, word_put, bootstrap_stack, with_scheduler, kthread_start,
}

-- The words of the first switch to a thread: its flags, with interrupts on, the data segment of the
-- kernel in both segment registers, and the two functions.
abbrev pub Prepared : Layout → ℕ → (ℕ → ℕ) → ℕ → Type 0
Prepared l fn memory sp =
    (memory sp ≡ 512)
    × (memory (sp + 2) ≡ l.kernel_ds)
    × (memory (sp + 4) ≡ l.kernel_ds)
    × (memory (sp + 12) ≡ l.bootstrap)
    × (memory (sp + 16) ≡ fn)

bootstrap_stack-Prepared :
    (l : Layout) (bst fn : ℕ) (memory : ℕ → ℕ) → Prepared l fn (bootstrap_stack l bst fn memory) bst
unfolding bootstrap_stack
bootstrap_stack-Prepared l bst fn memory =
    (ground arith, ground arith, ground arith, ground arith, ground arith)

bootstrap_stack_outside :
    (l : Layout) (bst fn : ℕ) (memory : ℕ → ℕ) (q : ℕ)
    → (q < bst) ⊎ (bst + bootstrap_size ≤ q)
    → bootstrap_stack l bst fn memory q ≡ memory q
unfolding bootstrap_stack
bootstrap_stack_outside l bst fn memory q (inl low) = ground (arith, low)
bootstrap_stack_outside l bst fn memory q (inr high) = ground (arith, high)

-- With a stack of at least 18 bytes inside the segment and a task that is on no queue: the thread
-- gets the next pid, which is returned, the priority, and the current task as its parent, and is
-- ready, while the current task keeps running and every task stays on at
-- most the queue of its state. Its stack pointer is 18 bytes below the end of its stack, where the
-- words of its first switch stand; no word outside its stack has changed.
pub kthread_start-Runs :
    (l : Layout) (stack new fn sz prio cur : ℕ) (k : Kernel)
    → Runs k.scheduler cur
    → new ≢ cur
    → count new k.scheduler.ready_list ≡ 0
    → asleep_on k.scheduler new ≡ 0
    → count new k.scheduler.zombies ≡ 0
    → bootstrap_size ≤ sz
    → stack + sz ≤ 2 ^ 16
    → (k' : Kernel) × (kthread_start l (some stack) (some new) fn sz prio k
        ≡ some (to_int k.scheduler.next_pid, k'))
      × Runs k'.scheduler cur
      × ((q : ℕ) → count q k'.scheduler.ready_list ≡ count q k.scheduler.ready_list + one new q)
      × ((k'.scheduler.task new).pid ≡ k.scheduler.next_pid)
      × ((k'.scheduler.task new).parent ≡ (k.scheduler.task cur).pid)
      × ((k'.scheduler.task new).prio ≡ prio)
      × ((k'.frame new).stack ≡ stack)
      × ((k'.frame new).ss ≡ l.kernel_ss)
      × ((k'.frame new).sp + bootstrap_size ≡ stack + sz)
      × Prepared l fn k'.memory (k'.frame new).sp
      × ((q : ℕ) → (q < stack) ⊎ (stack + sz ≤ q) → k'.memory q ≡ k.memory q)
unfolding kthread_start
kthread_start-Runs l stack new fn sz prio cur k runs other idle awake alive room inside =
    let (s', done, runs', pid, parent, prio_set, counts) =
      scheduler_queue_new-Runs new prio cur k.scheduler runs other idle awake alive in
    let bst = u16 (stack + sz - bootstrap_size) in
    let place : bst + bootstrap_size ≡ stack + sz = omega (arith, room, inside) in
    let mid : Kernel = record k {
      memory = bootstrap_stack l bst fn k.memory;
      frame = word_put new (record { stack = stack; ss = l.kernel_ss; sp = bst }) k.frame;
    } in
    let after : Kernel = record mid { scheduler = s' } in
    let enough : ltb sz bootstrap_size ≡ false = ground (arith, room) in
    let at : (after.frame new).sp ≡ bst = rw (==_self new) refl in
    (
      after,
      rw enough (ap (with_scheduler mid k.scheduler.next_pid) done),
      runs',
      counts,
      pid,
      parent,
      prio_set,
      rw (==_self new) refl,
      rw (==_self new) refl,
      ap (λ n. n + bootstrap_size) at ∙ place,
      subst (Prepared l fn after.memory) (sym at) (bootstrap_stack-Prepared l bst fn k.memory),
      λ q outside. kept q outside bst place,
    )
  where
    kept :
        (q : ℕ)
        → (q < stack) ⊎ (stack + sz ≤ q)
        → (bst : ℕ) → bst + bootstrap_size ≡ stack + sz
        → bootstrap_stack l bst fn k.memory q ≡ k.memory q
    kept q (inl low) bst place =
        bootstrap_stack_outside l bst fn k.memory q (inl (omega (arith, low, place, room)))
    kept q (inr high) bst place =
        bootstrap_stack_outside l bst fn k.memory q (inr (omega (arith, high, place)))
