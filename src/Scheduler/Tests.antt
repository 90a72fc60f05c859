-- ===== src/Scheduler/Tests.antt =====
-- Three tasks: the kernel's, with pid 0 and the priority 0, and two of its children.
use i80k.Base.{
  ℕ, ◌+◌, ◌*◌, ◌%◌, ◌^◌, ◌≤◌, ◌≡◌, refl, arith, true, some, [], ◌∷◌, ◌==◌, if◌then◌else◌,
}
use i80k.Base.Word.{u16}
use i80k.Scheduler.{
  Scheduler, Store, Task, TaskState, ready, running, zombie, level, task_put, schedule,
  scheduler_sleep_on, blocked_queue,
}
use i80k.Scheduler.Queue.{All, nothing, more, empty, step, count, one, task_put-insert}
use i80k.Scheduler.Invariant.{Runs, asleep_on}
use i80k.Scheduler.Sleep.{Slept, scheduler_sleep_on-Runs}
use i80k.Scheduler.Turns.{schedule-Runs}
use i80k.Scheduler.Exit.{reaped, wait_turn, scheduler_exit}
use i80k.Scheduler.Exit.Deaths.{scheduler_exit-Runs}
use i80k.Scheduler.Exit.Waits.{wait_turn-reaped}

abbrev task_of : TaskState → ℕ → ℕ → Task
task_of st pid prio = record {
  state = st;
  pid = pid;
  parent = 0;
  prio = prio;
  status = 7;
  wait_state = 0;
}

-- The kernel's task at address 100 runs, 101 and 102 are ready, 103 is dead.
abbrev tasks : Store
tasks q =
    if q == 101
    then task_of ready 1 5
    else if q == 102
    then task_of ready 2 5
    else if q == 103
    then task_of zombie 3 0
    else task_of running (if q == 100 then 4 else 0) 0

abbrev pub system : Scheduler
system = record {
  current = some 100;
  next_pid = 5;
  ready_list = 101 ∷ 102 ∷ [];
  zombies = 103 ∷ [];
  waiters = [];
  blocked = [];
  requests = [];
  task = tasks;
}

pub system-Runs : Runs system 100
system-Runs = record {
  placed = record {
    ready_once = λ q. ground arith;
    asleep_once = λ q. omega arith;
    dead_once = λ q. ground arith;
    sorted = step (more (omega arith) nothing) (step nothing empty);
  };
  here = refl;
  runs = refl;
}

task_put-insert_example :
    task_put tasks (101 ∷ 102 ∷ 100 ∷ []) 101 ≡ some (101 ∷ 102 ∷ 101 ∷ 100 ∷ [])
task_put-insert_example =
    task_put-insert tasks 101 (101 ∷ 102 ∷ []) (100 ∷ [])
      (more (omega arith) (more (omega arith) nothing)) (more (omega arith) nothing)

schedule-Runs_example :
    (s' : Scheduler) × (schedule system ≡ some s')
    × Runs s' 101
    × All (λ q. level (tasks q) ≤ level (tasks 101)) (102 ∷ [])
    × ((q : ℕ) → count q s'.ready_list ≡ count q (102 ∷ []) + one 100 q)
    × ((q : ℕ) → asleep_on s' q ≡ asleep_on system q)
schedule-Runs_example = schedule-Runs 100 101 (102 ∷ []) system system-Runs refl

scheduler_sleep_on-Runs_example :
    (s' : Scheduler) × (scheduler_sleep_on blocked_queue 9 system ≡ some s')
    × Runs s' 101
    × ((q : ℕ) → asleep_on s' q ≡ asleep_on system q + one 100 q)
    × ((q : ℕ) → count q s'.ready_list ≡ count q (102 ∷ []))
    × All (λ q. level (tasks q) ≤ level (tasks 101)) (102 ∷ [])
    × Slept blocked_queue 9 100 101 system s'
scheduler_sleep_on-Runs_example =
    scheduler_sleep_on-Runs blocked_queue 9 100 101 (102 ∷ []) system system-Runs refl

scheduler_exit-Runs_example :
    (s' : Scheduler) × (scheduler_exit 1 system ≡ some s')
    × ((next' : ℕ) × Runs s' next')
    × ((q : ℕ) → count q s'.zombies ≡ count q (103 ∷ []) + one 100 q)
scheduler_exit-Runs_example =
    scheduler_exit-Runs 1 100 101 (102 ∷ []) system system-Runs (λ e. absurd (omega (arith, e)))
      refl

wait_turn-reaped_example :
    (t : ℕ) × (wait_turn 3 true system
      ≡ some (reaped t 3 (u16 ((tasks t).status % 2 ^ 8 * 2 ^ 8)), system))
    × (1 ≤ count t (103 ∷ []))
    × ((tasks t).pid ≡ 3)
wait_turn-reaped_example = wait_turn-reaped 103 true system (omega arith) (omega arith)
