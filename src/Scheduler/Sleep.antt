-- ===== src/Scheduler/Sleep.antt =====
-- kernel/core/scheduler.c: a task that goes to sleep.
use i80k.Base.{
  ==_self, ==_of_ne, ap, ap₂, ℕ, ◌+◌, ◌≤◌, ◌≡◌, ◌≢◌, refl, sym, subst, ◌∙◌, arith, Bool, true,
  false, some, List, [], ◌∷◌, ◌++◌, append-nil, ◌==◌, if◌then◌else◌,
}
use i80k.Scheduler.{
  Scheduler, Store, Task, waiting, update, level, scheduler_sleep_on, SleepQueue, add_before,
  is_running, running, set_state, schedule, switch, then_run, requeue,
}
use i80k.Scheduler.Queue.{count, one, All, Sorted}
use i80k.Scheduler.{sleep, waiters_queue, blocked_queue, requests_queue}
use i80k.Scheduler.Queue.{count-append, All-map}
use i80k.Scheduler.Invariant.{Runs, at_ready, at_waiting, at_zombie, asleep_on, Placed, Sorted-by}
use i80k.Scheduler.Switch.{one_if, Switched, schedule-Switched, head_ready}

asleep_as : ℕ → Task → Task
asleep_as data_of t = record t { state = waiting; wait_state = data_of }

sleeper : SleepQueue → ℕ → ℕ → Scheduler → Scheduler
unfolding asleep_as
sleeper queue data_of cur s =
    add_before queue cur (record s { task = update cur (asleep_as data_of) s.task })

sleeper-asleep_on :
    (queue : SleepQueue) (data_of cur : ℕ) (s : Scheduler) (q : ℕ)
    → asleep_on (sleeper queue data_of cur s) q ≡ asleep_on s q + one cur q
unfolding sleeper
sleeper-asleep_on waiters_queue data_of cur s q = omega (arith, count-append q s.waiters (cur ∷ []))
sleeper-asleep_on blocked_queue data_of cur s q = omega (arith, count-append q s.blocked (cur ∷ []))
sleeper-asleep_on requests_queue data_of cur s q =
    omega (arith, count-append q s.requests (cur ∷ []))

-- The parts that going to sleep leaves as they are.
sleeper-rest :
    (queue : SleepQueue) (data_of cur : ℕ) (s : Scheduler)
    → ((sleeper queue data_of cur s).ready_list ≡ s.ready_list)
      × ((sleeper queue data_of cur s).zombies ≡ s.zombies)
      × ((sleeper queue data_of cur s).current ≡ s.current)
      × ((sleeper queue data_of cur s).task ≡ update cur (asleep_as data_of) s.task)
unfolding sleeper
sleeper-rest waiters_queue data_of cur s = (refl, refl, refl, refl)
sleeper-rest blocked_queue data_of cur s = (refl, refl, refl, refl)
sleeper-rest requests_queue data_of cur s = (refl, refl, refl, refl)

sleeper-level :
    (queue : SleepQueue) (data_of cur : ℕ) (s : Scheduler) (q : ℕ)
    → level ((sleeper queue data_of cur s).task q) ≡ level (s.task q)
unfolding asleep_as
sleeper-level queue data_of cur s q =
    ap (λ (task : Store). level (task q)) (sleeper-rest queue data_of cur s).3 ∙ same (q == cur)
  where
    same :
        (b : Bool) → level (if b then asleep_as data_of (s.task q) else s.task q) ≡ level (s.task q)
    same true = refl
    same false = refl

sleeper-state :
    (queue : SleepQueue) (data_of cur : ℕ) (s : Scheduler)
    → ((sleeper queue data_of cur s).task cur).state ≡ waiting
unfolding asleep_as
sleeper-state queue data_of cur s =
    ap (λ (task : Store). (task cur).state) (sleeper-rest queue data_of cur s).3
    ∙ rw (==_self cur) refl

sleeper-Placed :
    (queue : SleepQueue) (data_of cur : ℕ) (s : Scheduler)
    → Runs s cur
    → Placed (sleeper queue data_of cur s)
unfolding asleep_as
sleeper-Placed queue data_of cur s r =
    let (list, dead, now, tasks) = sleeper-rest queue data_of cur s in
    let placed = r.placed in
    let was_ready = ap at_ready r.runs in
    let was_waiting = ap at_waiting r.runs in
    let was_zombie = ap at_zombie r.runs in
    record {
      ready_once = λ q.
          let o = placed.ready_once q in
          let l = ap (count q) list in
          let t = ap (λ (task : Store). at_ready (task q).state) tasks in ground arith;
      asleep_once = λ q.
          let o = placed.asleep_once q in
          let l = sleeper-asleep_on queue data_of cur s q in
          let t = ap (λ (task : Store). at_waiting (task q).state) tasks in ground arith;
      dead_once = λ q.
          let o = placed.dead_once q in
          let l = ap (count q) dead in
          let t = ap (λ (task : Store). at_zombie (task q).state) tasks in ground arith;
      sorted =
          subst (Sorted (λ q. level ((sleeper queue data_of cur s).task q))) (sym list)
            (Sorted-by (λ q h. sym (sleeper-level queue data_of cur s q)) placed.sorted);
    }

-- The tasks that sleep on a queue, in their order.
abbrev pub sleepers_of : SleepQueue → Scheduler → List ℕ
sleepers_of waiters_queue s = s.waiters
sleepers_of blocked_queue s = s.blocked
sleepers_of requests_queue s = s.requests

-- Who comes to the end of a queue when a task goes to sleep on another, or on that one.
abbrev pub joined : SleepQueue → SleepQueue → ℕ → List ℕ
joined waiters_queue waiters_queue cur = cur ∷ []
joined blocked_queue blocked_queue cur = cur ∷ []
joined requests_queue requests_queue cur = cur ∷ []
joined _ _ cur = []

-- What a task leaves that went to sleep: it is the last of its queue, the other queues are as before,
-- it waits for what was given, and no other task but the next one has changed.
pub record Slept (queue : SleepQueue) (data_of cur next : ℕ) (s s' : Scheduler) : Type 0 where
  pub last :
      (other : SleepQueue) → sleepers_of other s' ≡ sleepers_of other s ++ joined queue other cur
  pub waits : (s'.task cur).state ≡ waiting
  pub waits_for : (s'.task cur).wait_state ≡ data_of
  pub others : (q : ℕ) → q ≢ cur → q ≢ next → s'.task q ≡ s.task q

-- A switch from a task that has stopped.
abbrev switched : ℕ → List ℕ → Scheduler → Scheduler
switched next rest s = record s {
  current = some next;
  ready_list = rest;
  task = update next (set_state running) s.task;
}

requeue_stopped :
    (prev : ℕ) (s : Scheduler) → is_running (s.task prev).state ≡ false → requeue prev s ≡ some s
unfolding requeue
requeue_stopped prev s e = rw e refl

schedule_stopped :
    (s : Scheduler) (prev next : ℕ) (rest : List ℕ)
    → s.current ≡ some prev
    → s.ready_list ≡ next ∷ rest
    → is_running (s.task prev).state ≡ false
    → schedule s ≡ some (switched next rest s)
unfolding schedule
schedule_stopped s prev next rest cur list stopped =
    ap₂ (switch s) cur list
    ∙ ap (then_run next)
        (requeue_stopped prev (record s { current = some next; ready_list = rest }) stopped)

sleeper-joined :
    (queue other : SleepQueue) (data_of cur : ℕ) (s : Scheduler)
    → sleepers_of other (sleeper queue data_of cur s)
      ≡ sleepers_of other s ++ joined queue other cur
unfolding sleeper
sleeper-joined waiters_queue waiters_queue data_of cur s = refl
sleeper-joined waiters_queue blocked_queue data_of cur s = sym (append-nil s.blocked)
sleeper-joined waiters_queue requests_queue data_of cur s = sym (append-nil s.requests)
sleeper-joined blocked_queue waiters_queue data_of cur s = sym (append-nil s.waiters)
sleeper-joined blocked_queue blocked_queue data_of cur s = refl
sleeper-joined blocked_queue requests_queue data_of cur s = sym (append-nil s.requests)
sleeper-joined requests_queue waiters_queue data_of cur s = sym (append-nil s.waiters)
sleeper-joined requests_queue blocked_queue data_of cur s = sym (append-nil s.blocked)
sleeper-joined requests_queue requests_queue data_of cur s = refl

switched-sleepers_of :
    (other : SleepQueue) (next : ℕ) (rest : List ℕ) (s : Scheduler)
    → sleepers_of other (switched next rest s) ≡ sleepers_of other s
switched-sleepers_of waiters_queue next rest s = refl
switched-sleepers_of blocked_queue next rest s = refl
switched-sleepers_of requests_queue next rest s = refl

switched-Slept :
    (queue : SleepQueue) (data_of cur next : ℕ) (rest : List ℕ) (s : Scheduler)
    → cur ≢ next
    → Slept queue data_of cur next s (switched next rest (sleeper queue data_of cur s))
unfolding asleep_as
switched-Slept queue data_of cur next rest s ne =
    let tasks = (sleeper-rest queue data_of cur s).3 in
    let now : (switched next rest (sleeper queue data_of cur s)).task cur
        ≡ asleep_as data_of (s.task cur) =
      rw (==_of_ne cur next ne) (ap (λ (task : Store). task cur) tasks ∙ rw (==_self cur) refl) in
    record {
      last = λ other.
          switched-sleepers_of other next rest (sleeper queue data_of cur s)
          ∙ sleeper-joined queue other data_of cur s;
      waits = ap (λ (t : Task). t.state) now;
      waits_for = ap (λ (t : Task). t.wait_state) now;
      others = λ q not_cur not_next.
          rw (==_of_ne q next not_next)
            (ap (λ (task : Store). task q) tasks ∙ rw (==_of_ne q cur not_cur) refl);
    }

-- The running task goes to sleep: it becomes the last on just the queue that it was given, where it
-- waits with the number that it was given; the other queues are as before. The highest of the ready
-- tasks, the first of them that became ready, runs in its place; no other task has changed.
pub scheduler_sleep_on-Runs :
    (queue : SleepQueue) (data_of cur next : ℕ) (rest : List ℕ) (s : Scheduler)
    → Runs s cur
    → s.ready_list ≡ next ∷ rest
    → (s' : Scheduler) × (scheduler_sleep_on queue data_of s ≡ some s')
      × Runs s' next
      × ((q : ℕ) → asleep_on s' q ≡ asleep_on s q + one cur q)
      × ((q : ℕ) → count q s'.ready_list ≡ count q rest)
      × All (λ q. level (s.task q) ≤ level (s.task next)) rest
      × Slept queue data_of cur next s s'
unfolding scheduler_sleep_on sleeper asleep_as
scheduler_sleep_on-Runs queue data_of cur next rest s r e = finish (
    schedule-Switched before cur next rest (sleeper-Placed queue data_of cur s r) (now ∙ r.here)
      (list ∙ e) (ap at_ready stopped))
  where
    before : Scheduler
    before = sleeper queue data_of cur s

    list : before.ready_list ≡ s.ready_list
    list = (sleeper-rest queue data_of cur s).0

    now : before.current ≡ s.current
    now = (sleeper-rest queue data_of cur s).2

    stopped : (before.task cur).state ≡ waiting
    stopped = sleeper-state queue data_of cur s

    ne : cur ≢ next
    ne eq = omega (
      arith,
      ap at_ready r.runs,
      ap at_ready (head_ready s next rest r.placed e),
      ap (λ q. at_ready (s.task q).state) eq,
    )

    same : {s' : Scheduler} → schedule before ≡ some s' → switched next rest before ≡ s'
    same done =
        let known =
          schedule_stopped before cur next rest (now ∙ r.here) (list ∙ e) (ap is_running stopped) in
        cc

    none_back : (q : ℕ) → one_if (is_running (before.task cur).state) (one cur q) ≡ 0
    none_back q = ap (λ st. one_if (is_running st) (one cur q)) stopped

    low :
        (q : ℕ)
        → level (before.task q) ≤ level (before.task next)
        → level (s.task q) ≤ level (s.task next)
    low q h =
        omega
          (arith, h, sleeper-level queue data_of cur s q, sleeper-level queue data_of cur s next)

    finish :
        Switched before cur next rest
        → (s' : Scheduler) × (scheduler_sleep_on queue data_of s ≡ some s')
          × Runs s' next
          × ((q : ℕ) → asleep_on s' q ≡ asleep_on s q + one cur q)
          × ((q : ℕ) → count q s'.ready_list ≡ count q rest)
          × All (λ q. level (s.task q) ≤ level (s.task next)) rest
          × Slept queue data_of cur next s s'
    finish (s', done, placed, here, runs, top, sleepers, dead, counts) = (
      s',
      ap (sleep queue data_of s) r.here ∙ done,
      record { placed = placed; here = here; runs = runs },
      λ q. sleepers q ∙ sleeper-asleep_on queue data_of cur s q,
      λ q. omega (arith, counts q, none_back q),
      All-map low top,
      subst (Slept queue data_of cur next s) (same done)
          (switched-Slept queue data_of cur next rest s ne),
    )
