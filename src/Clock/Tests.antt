-- ===== src/Clock/Tests.antt =====
-- A task that sleeps for a second and a nanosecond while another is ready.
use i80k.Base.{ℕ, ◌+◌, ◌≡◌, refl, arith, false, some, [], ◌∷◌, ◌==◌, if◌then◌else◌}
use i80k.Scheduler.{Scheduler, Store, Task, TaskState, ready, running, waiting, blocked_queue}
use i80k.Scheduler.Queue.{nothing, empty, step, one}
use i80k.Scheduler.Invariant.{Placed, Runs, asleep_on}
use i80k.Scheduler.Sleep.{Slept}
use i80k.Clock.{Clock, Timespec, clk_nanosleep, clk_wakeup}
use i80k.Clock.Wakeup.{Woken, clk_wakeup-Woken}
use i80k.Clock.Sleepers.{clk_nanosleep-Runs}

abbrev task_of : TaskState → Task
task_of st = record { state = st; pid = 1; parent = 0; prio = 0; status = 0; wait_state = 0 }

abbrev tasks : Store
tasks q = if q == 101 then task_of ready else task_of running

abbrev clock : Clock
clock = record {
  ticks = 3;
  now_ns = 2000000007;
  system = record {
    current = some 100;
    next_pid = 5;
    ready_list = 101 ∷ [];
    zombies = [];
    waiters = [];
    blocked = [];
    requests = [];
    task = tasks;
  };
}

clock-Runs : Runs clock.system 100
clock-Runs = record {
  placed = record {
    ready_once = λ q. ground arith;
    asleep_once = λ q. omega arith;
    dead_once = λ q. omega arith;
    sorted = step nothing empty;
  };
  here = refl;
  runs = refl;
}

abbrev request : Timespec
request = record { tv_sec = 1; tv_nsec = 1 }

clk_nanosleep-Runs_example :
    (c' : Clock) × (clk_nanosleep false request clock ≡ some c')
    × Runs c'.system 101
    × (c'.now_ns ≡ 2000000007)
    × (c'.ticks ≡ 3)
    × ((q : ℕ) → asleep_on c'.system q ≡ asleep_on clock.system q + one 100 q)
    × Slept blocked_queue 3000000008 100 101 clock.system c'.system
clk_nanosleep-Runs_example =
    clk_nanosleep-Runs false request clock 100 101 [] clock-Runs refl (omega arith) (omega arith)

-- Two tasks sleep, one until 5 and one until 9.
abbrev sleepers : Store
sleepers q =
    if q == 101
    then record (task_of waiting) { wait_state = 5 }
    else if q == 102
    then record (task_of waiting) { wait_state = 9 }
    else task_of running

abbrev asleep : Scheduler
asleep = record {
  current = some 100;
  next_pid = 5;
  ready_list = [];
  zombies = [];
  waiters = [];
  blocked = 101 ∷ 102 ∷ [];
  requests = [];
  task = sleepers;
}

asleep-Placed : Placed asleep
asleep-Placed = record {
  ready_once = λ q. omega arith;
  asleep_once = λ q. ground arith;
  dead_once = λ q. omega arith;
  sorted = empty;
}

clk_wakeup-Woken_example :
    (s' : Scheduler) × (clk_wakeup 7 asleep ≡ some s') × Woken 7 [] (101 ∷ 102 ∷ []) asleep s'
clk_wakeup-Woken_example = clk_wakeup-Woken 7 asleep asleep-Placed
