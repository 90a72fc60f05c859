-- ===== src/Scheduler/Switch.antt =====
-- kernel/core/scheduler.c: the switch to the next task.
use i80k.Base.{
  ap₂, ==_self, ◌≢◌, ==_of_ne, ap, ℕ, ◌+◌, ◌≤◌, ◌≡◌, refl, sym, subst, ◌∙◌, arith, Bool, true,
  false, some, List, ◌∷◌,
}
use i80k.Scheduler.{
  Scheduler, Task, TaskState, ready, running, waiting, zombie, update, set_state, level, schedule,
  task_put, requeue, with_ready, then_run, switch, is_running,
}
use i80k.Scheduler.Queue.{count, one, All, Sorted, step}
use i80k.Scheduler.Invariant.{
  at_ready, at_waiting, at_zombie, asleep_on, Placed, level-update, put_ready-Placed,
}

abbrev pub one_if : Bool → ℕ → ℕ
one_if true n = n
one_if false n = 0

-- What is left of the previous task once its turn has ended.
abbrev Requeued : ℕ → Scheduler → Type 0
Requeued prev s =
    (s' : Scheduler) × (requeue prev s ≡ some s')
    × Placed s'
    × (s'.current ≡ s.current)
    × ((q : ℕ) → q ≢ prev → s'.task q ≡ s.task q)
    × ((q : ℕ) → asleep_on s' q ≡ asleep_on s q)
    × ((q : ℕ) → count q s'.zombies ≡ count q s.zombies)
    × ((q : ℕ)
        → count q s'.ready_list
          ≡ count q s.ready_list + one_if (is_running (s.task prev).state) (one prev q))

requeue_running :
    (prev : ℕ) (s : Scheduler)
    → is_running (s.task prev).state ≡ true
    → (put : List ℕ) × (task_put (update prev (set_state ready) s.task) s.ready_list prev
        ≡ some put)
      × Placed (record s { ready_list = put; task = update prev (set_state ready) s.task })
      × ((q : ℕ) → count q put ≡ count q s.ready_list + one prev q)
    → Requeued prev s
unfolding requeue
requeue_running prev s e (put, done, after, counts) = (
  record s { ready_list = put; task = update prev (set_state ready) s.task },
  rw e (ap (with_ready (record s { task = update prev (set_state ready) s.task })) done),
  after,
  refl,
  λ q ne. rw (==_of_ne q prev ne) refl,
  λ q. refl,
  λ q. refl,
  λ q. rw e (counts q),
)

requeue_idle :
    (prev : ℕ) (s : Scheduler) → Placed s → is_running (s.task prev).state ≡ false → Requeued prev s
unfolding requeue
requeue_idle prev s placed e =
    (s, rw e refl, placed, refl, λ q ne. refl, λ q. refl, λ q. refl, λ q. rw e (omega arith))

requeue-Placed : (prev : ℕ) (s : Scheduler) → Placed s → Requeued prev s
requeue-Placed prev s placed = go (s.task prev).state refl
  where
    go : (st : TaskState) → (s.task prev).state ≡ st → Requeued prev s
    go running e = requeue_running prev s (ap is_running e) (
        put_ready-Placed prev s placed (ap at_ready e)
          (omega (arith, placed.asleep_once prev, ap at_waiting e))
          (omega (arith, placed.dead_once prev, ap at_zombie e)))
    go ready e = requeue_idle prev s placed (ap is_running e)
    go waiting e = requeue_idle prev s placed (ap is_running e)
    go zombie e = requeue_idle prev s placed (ap is_running e)

-- A ready task that was taken off the ready list is set running.
run_next-Placed :
    (next : ℕ) (s : Scheduler)
    → Placed s
    → (s.task next).state ≡ ready
    → count next s.ready_list ≡ 0
    → Placed (record s { task = update next (set_state running) s.task })
run_next-Placed next s placed idle off =
    let a = ap at_waiting idle in
    let z = ap at_zombie idle in
    record {
      ready_once = λ q. let o = placed.ready_once q in ground arith;
      asleep_once = λ q. let o = placed.asleep_once q in ground arith;
      dead_once = λ q. let o = placed.dead_once q in ground arith;
      sorted =
          subst (λ f. Sorted f s.ready_list) (sym (level-update next running s.task)) placed.sorted;
    }

-- What a switch does: the first of the ready list is the running task, and it and the others are
-- where they belong.
abbrev pub Switched : Scheduler → ℕ → ℕ → List ℕ → Type 0
Switched s prev next rest =
    (s' : Scheduler) × (schedule s ≡ some s')
    × Placed s'
    × (s'.current ≡ some next)
    × ((s'.task next).state ≡ running)
    × All (λ q. level (s.task q) ≤ level (s.task next)) rest
    × ((q : ℕ) → asleep_on s' q ≡ asleep_on s q)
    × ((q : ℕ) → count q s'.zombies ≡ count q s.zombies)
    × ((q : ℕ)
        → count q s'.ready_list
          ≡ count q rest + one_if (is_running (s.task prev).state) (one prev q))

ready_of : (st : TaskState) → 1 ≤ at_ready st → st ≡ ready
ready_of ready h = refl
ready_of running h = absurd (omega arith)
ready_of waiting h = absurd (omega arith)
ready_of zombie h = absurd (omega arith)

pub head_ready :
    (s : Scheduler) (next : ℕ) (rest : List ℕ)
    → Placed s
    → s.ready_list ≡ next ∷ rest
    → (s.task next).state ≡ ready
head_ready s next rest placed e =
    let o = placed.ready_once next in
    let n = ap (count next) e in ready_of (s.task next).state (ground arith)

take_head-Placed :
    (s : Scheduler) (next : ℕ) (rest : List ℕ)
    → Placed s
    → s.ready_list ≡ next ∷ rest
    → Placed (record s { current = some next; ready_list = rest })
take_head-Placed s next rest placed e = record {
  ready_once = λ q. let o = placed.ready_once q in let n = ap (count q) e in omega (arith, n, o);
  asleep_once = placed.asleep_once;
  dead_once = placed.dead_once;
  sorted = tail_sorted (subst (Sorted (λ q. level (s.task q))) e placed.sorted);
}
  where
    tail_sorted : Sorted (λ q. level (s.task q)) (next ∷ rest) → Sorted (λ q. level (s.task q)) rest
    tail_sorted (step top below) = below

pub schedule-Switched :
    (s : Scheduler) (prev next : ℕ) (rest : List ℕ)
    → Placed s
    → s.current ≡ some prev
    → s.ready_list ≡ next ∷ rest
    → at_ready (s.task prev).state ≡ 0
    → Switched s prev next rest
unfolding schedule
schedule-Switched s prev next rest placed cur e idle =
    finish (requeue-Placed prev taken (take_head-Placed s next rest placed e))
  where
    first : (s.task next).state ≡ ready
    first = head_ready s next rest placed e

    ne : prev ≢ next
    ne same =
        absurd (omega (arith, idle, ap at_ready first, ap (λ p. at_ready (s.task p).state) same))

    once : count next rest ≡ 0
    once =
        let n : count next s.ready_list ≡ 1 + count next rest =
          ap (count next) e ∙ rw (==_self next) refl in
        omega (arith, n, placed.ready_once next, ap at_ready first)

    other : (b : Bool) → one_if b (one prev next) ≡ 0
    other true = rw (==_of_ne next prev (λ eq. ne (sym eq))) refl
    other false = refl

    highest :
        Sorted (λ q. level (s.task q)) (next ∷ rest)
        → All (λ q. level (s.task q) ≤ level (s.task next)) rest
    highest (step top below) = top

    taken : Scheduler
    taken = record s { current = some next; ready_list = rest }

    finish : Requeued prev taken → Switched s prev next rest
    finish (s', done, after, now, same, sleepers, dead, counts) = (
      record s' { task = update next (set_state running) s'.task },
      ap₂ (switch s) cur e ∙ ap (then_run next) done,
      run_next-Placed next s' after
          (ap (λ (t : Task). t.state) (same next (λ eq. ne (sym eq))) ∙ first)
          (omega (arith, counts next, once, other (is_running (s.task prev).state))),
      now,
      rw (==_self next) refl,
      highest (subst (Sorted (λ q. level (s.task q))) e placed.sorted),
      sleepers,
      dead,
      counts,
    )
