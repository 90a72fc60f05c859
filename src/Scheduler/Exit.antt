-- ===== src/Scheduler/Exit.antt =====
-- kernel/core/scheduler.c: the end of a task, and waiting for it.
pub mod Deaths
pub mod Waits
use i80k.Base.{
  ℕ, ◌+◌, ◌*◌, ◌%◌, ◌^◌, Bool, true, false, ◌&&◌, ◌||◌, Option, none, some, List, [], ◌∷◌, ◌++◌,
  ◌==◌, ltb, leb, if◌then◌else◌,
}
use i80k.Base.Word.{u16}
use i80k.Scheduler.{
  Scheduler, Store, Task, TaskState, zombie, update, SleepQueue, waiters_queue, schedule,
  scheduler_wake_up, scheduler_sleep_on,
}

-- -1 as a 16-bit pattern.
abbrev pub minus_one : ℕ
minus_one = 0xffff

-- The tests of the loop over the waiters.
pub waits_for : Task → Task → Bool
waits_for waiter dead =
    (ltb 0 waiter.wait_state && ltb waiter.wait_state (2 ^ 15) && (dead.pid == waiter.wait_state))
    || ((waiter.wait_state == minus_one) && (waiter.pid == dead.parent))

abbrev pub keep : ℕ → Option (ℕ × List ℕ) → Option (ℕ × List ℕ)
keep t none = none
keep t (some (found, rest)) = some (found, t ∷ rest)

-- The first waiter that the death wakes up, and the list without it.
pub first_waiter : Store → Task → List ℕ → Option (ℕ × List ℕ)
unfolding waits_for
first_waiter task dead [] = none
first_waiter task dead (t ∷ ts) =
    let rest = first_waiter task dead ts in
    if waits_for (task t) dead then some (t, ts) else keep t rest

abbrev pub wake_waiter : Scheduler → Option (ℕ × List ℕ) → Option Scheduler
wake_waiter s none = some s
wake_waiter s (some (t, rest)) = scheduler_wake_up t (record s { waiters = rest })

abbrev pub and_schedule : Option Scheduler → Option Scheduler
and_schedule none = none
and_schedule (some s) = schedule s

abbrev pub died : ℕ → ℕ → Scheduler → Scheduler
died cur status s = record s {
  task = update cur (λ t. record t { state = zombie; status = status }) s.task;
  zombies = s.zombies ++ (cur ∷ []);
}

abbrev pub exit_of : ℕ → Scheduler → Option ℕ → Option Scheduler
exit_of status s none = some s
exit_of status s (some cur) =
    if (s.task cur).pid == 0
    then some s
    else (let s' = died cur status s in
        and_schedule (wake_waiter s' (first_waiter s'.task (s'.task cur) s'.waiters)))

pub scheduler_exit : ℕ → Scheduler → Option Scheduler
unfolding schedule scheduler_wake_up first_waiter
scheduler_exit status s = exit_of status s s.current

-- How one turn of the loop of `scheduler_wait` ends. `reaped t pid status` returns the pid and the
-- status, with the task t freed. After `asleep` the task is off the processor, and its next turn
-- starts when it runs again.
pub data Wait : Type 0 where
  not_supported : Wait
  none_dead : Wait
  reaped : ℕ → ℕ → ℕ → Wait
  asleep : Wait

-- `task_find`
pub task_find : Store → List ℕ → ℕ → Option ℕ
task_find task [] pid = none
task_find task (t ∷ ts) pid = if (task t).pid == pid then some t else task_find task ts pid

-- `task_find_child_of`
pub task_find_child_of : Store → List ℕ → ℕ → Option ℕ
task_find_child_of task [] pid = none
task_find_child_of task (t ∷ ts) pid =
    if (task t).parent == pid then some t else task_find_child_of task ts pid

abbrev pub slept : Option Scheduler → Option (Wait × Scheduler)
slept none = none
slept (some s) = some (asleep, s)

-- What a turn does with the zombie that it found.
abbrev pub wait_found : ℕ → Bool → Scheduler → Option ℕ → Option (Wait × Scheduler)
wait_found pid no_hang s none =
    if no_hang then some (none_dead, s) else slept (scheduler_sleep_on waiters_queue pid s)
wait_found pid no_hang s (some t) =
    some (reaped t (s.task t).pid (u16 ((s.task t).status % 2 ^ 8 * 2 ^ 8)), s)

-- For -1 the search reads the current task's pid.
abbrev pub wait_any : Bool → Scheduler → Option ℕ → Option (Wait × Scheduler)
wait_any no_hang s none = none
wait_any no_hang s (some cur) =
    wait_found minus_one no_hang s (task_find_child_of s.task s.zombies (s.task cur).pid)

pub wait_turn : ℕ → Bool → Scheduler → Option (Wait × Scheduler)
unfolding scheduler_sleep_on task_find task_find_child_of
wait_turn pid no_hang s =
    if leb (2 ^ 15) pid && ltb pid minus_one
    then some (not_supported, s)
    else if pid == minus_one
    then wait_any no_hang s s.current
    else wait_found pid no_hang s (task_find s.task s.zombies pid)
