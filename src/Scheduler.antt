-- ===== src/Scheduler.antt =====
-- kernel/core/scheduler.c: tasks, the queues that they stand on, and the switch between them.
--
-- A task is known by its address, and the queues hold addresses. The operations return none where
-- the code fails an assertion or reads through a null pointer.
pub mod Queue
pub mod Exit
pub mod Invariant
pub mod Switch
pub mod Sleep
pub mod Turns
pub mod Tests
use i80k.Base.{
  ℕ, ◌+◌, ◌^◌, Bool, true, false, ◌&&◌, ◌||◌, Option, none, some, List, [], ◌∷◌, ◌++◌, ◌==◌, ltb,
  leb, if◌then◌else◌,
}
use i80k.Base.Word.{u16}

-- `enum task_state`
pub data TaskState : Type 0 where
  ready : TaskState
  running : TaskState
  waiting : TaskState
  zombie : TaskState

abbrev pub is_running : TaskState → Bool
is_running running = true
is_running ready = false
is_running waiting = false
is_running zombie = false

-- `struct task`, less its context and its stack. Numbers are 16-bit patterns. `wait_state` is what
-- the pointer of that name points to.
pub record Task : Type 0 where
  pub state : TaskState
  pub pid : ℕ
  pub parent : ℕ
  pub prio : ℕ
  pub status : ℕ
  pub wait_state : ℕ

-- The order of the signed priorities, on their patterns.
abbrev pub level : Task → ℕ
level t = u16 (t.prio + 2 ^ 15)

abbrev pub Store : Type 0
Store = ℕ → Task

abbrev pub update : ℕ → (Task → Task) → Store → Store
update p f task q = if q == p then f (task q) else task q

abbrev pub set_state : TaskState → Task → Task
set_state st t = record t { state = st }

-- The variables of the scheduler, and the queues of its callers: `blocked` of the clock, and
-- `requests` of the block driver.
pub record Scheduler : Type 0 where
  pub current : Option ℕ
  pub next_pid : ℕ
  pub ready_list : List ℕ
  pub zombies : List ℕ
  pub waiters : List ℕ
  pub blocked : List ℕ
  pub requests : List ℕ
  pub task : Store

-- The queues that a task sleeps on.
pub data SleepQueue : Type 0 where
  waiters_queue : SleepQueue
  blocked_queue : SleepQueue
  requests_queue : SleepQueue

abbrev pub lower : Store → ℕ → ℕ → Bool
lower task p q = ltb (level (task p)) (level (task q))

abbrev pub tail : List ℕ → Option ℕ
tail [] = none
tail (x ∷ []) = some x
tail (x ∷ y ∷ ys) = tail (y ∷ ys)

-- The loop of `task_put`, which ends in the assertion.
pub put_loop : Store → List ℕ → ℕ → Option (List ℕ)
put_loop task [] p = none
put_loop task (t ∷ ts) p =
    let rest = put_loop task ts p in if lower task t p then some (p ∷ t ∷ ts) else after t rest
  where
    after : ℕ → Option (List ℕ) → Option (List ℕ)
    after t none = none
    after t (some ts) = some (t ∷ ts)

abbrev pub put_by_tail : Store → Option ℕ → List ℕ → ℕ → Option (List ℕ)
put_by_tail task none list p = some (p ∷ [])
put_by_tail task (some t) list p =
    if lower task t p then put_loop task list p else some (list ++ (p ∷ []))

pub task_put : Store → List ℕ → ℕ → Option (List ℕ)
unfolding put_loop
task_put task list p = put_by_tail task (tail list) list p

abbrev pub with_ready : Scheduler → Option (List ℕ) → Option Scheduler
with_ready s none = none
with_ready s (some list) = some (record s { ready_list = list })

abbrev pub then_run : ℕ → Option Scheduler → Option Scheduler
then_run next none = none
then_run next (some s) = some (record s { task = update next (set_state running) s.task })

-- The previous task goes back to the ready list if it is still running, which ends here.
pub requeue : ℕ → Scheduler → Option Scheduler
unfolding task_put
requeue prev s =
    if is_running (s.task prev).state
    then (let task = update prev (set_state ready) s.task in
        with_ready (record s { task = task }) (task_put task s.ready_list prev))
    else some s

abbrev pub switch : Scheduler → Option ℕ → List ℕ → Option Scheduler
switch s none list = some s
switch s (some prev) [] = some s
switch s (some prev) (next ∷ rest) =
    then_run next (requeue prev (record s { current = some next; ready_list = rest }))

-- `schedule`, less the switch of the processor's context.
pub schedule : Scheduler → Option Scheduler
unfolding requeue
schedule s = switch s s.current s.ready_list

pub scheduler_wake_up : ℕ → Scheduler → Option Scheduler
unfolding task_put
scheduler_wake_up p s =
    let task = update p (set_state ready) s.task in
    with_ready (record s { task = task }) (task_put task s.ready_list p)

abbrev pub queue_for : Scheduler → ℕ → Option ℕ → ℕ → Option Scheduler
queue_for s t none prio = none
queue_for s t (some cur) prio =
    let entry = λ (old : Task). record old {
      state = ready;
      pid = s.next_pid;
      parent = (s.task cur).pid;
      prio = prio;
    } in
    let task = update t entry s.task in
    with_ready (record s { next_pid = u16 (s.next_pid + 1); task = task })
      (task_put task s.ready_list t)

-- `scheduler_queue_new` returns the pid, which is `next_pid` of the state it starts in.
pub scheduler_queue_new : ℕ → ℕ → Scheduler → Option Scheduler
unfolding task_put
scheduler_queue_new t prio s = queue_for s t s.current prio

abbrev pub add_before : SleepQueue → ℕ → Scheduler → Scheduler
add_before waiters_queue p s = record s { waiters = s.waiters ++ (p ∷ []) }
add_before blocked_queue p s = record s { blocked = s.blocked ++ (p ∷ []) }
add_before requests_queue p s = record s { requests = s.requests ++ (p ∷ []) }

abbrev pub sleep : SleepQueue → ℕ → Scheduler → Option ℕ → Option Scheduler
sleep queue data_of s none = none
sleep queue data_of s (some cur) =
    let asleep = λ (t : Task). record t { state = waiting; wait_state = data_of } in
    schedule (add_before queue cur (record s { task = update cur asleep s.task }))

pub scheduler_sleep_on : SleepQueue → ℕ → Scheduler → Option Scheduler
unfolding schedule
scheduler_sleep_on queue data_of s = sleep queue data_of s s.current
