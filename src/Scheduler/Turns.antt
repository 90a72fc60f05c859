-- ===== src/Scheduler/Turns.antt =====
-- kernel/core/scheduler.c: turns, new tasks, and the end of a task.
use i80k.Base.{==_self, ◌≢◌, ==_of_ne, ap, ℕ, ◌+◌, ◌≤◌, ◌≡◌, refl, sym, ◌∙◌, some, List, ◌∷◌}
use i80k.Scheduler.{
  Scheduler, Task, ready, update, level, schedule, scheduler_queue_new, with_ready, is_running,
}
use i80k.Scheduler.Queue.{count, one, All}
use i80k.Base.Word.{u16}
use i80k.Scheduler.{queue_for}
use i80k.Scheduler.Invariant.{Runs, at_ready, asleep_on, Placed, put_task-Placed}
use i80k.Scheduler.Switch.{Switched, schedule-Switched, one_if}

-- The end of a turn: the first of the ready tasks runs, none of which has a higher priority, and the
-- task that ran is ready again.
pub schedule-Runs :
    (cur next : ℕ) (rest : List ℕ) (s : Scheduler)
    → Runs s cur
    → s.ready_list ≡ next ∷ rest
    → (s' : Scheduler) × (schedule s ≡ some s')
      × Runs s' next
      × All (λ q. level (s.task q) ≤ level (s.task next)) rest
      × ((q : ℕ) → count q s'.ready_list ≡ count q rest + one cur q)
      × ((q : ℕ) → asleep_on s' q ≡ asleep_on s q)
schedule-Runs cur next rest s r e =
    finish (schedule-Switched s cur next rest r.placed r.here e (ap at_ready r.runs))
  where
    finish :
        Switched s cur next rest
        → (s' : Scheduler) × (schedule s ≡ some s')
          × Runs s' next
          × All (λ q. level (s.task q) ≤ level (s.task next)) rest
          × ((q : ℕ) → count q s'.ready_list ≡ count q rest + one cur q)
          × ((q : ℕ) → asleep_on s' q ≡ asleep_on s q)
    finish (s', done, placed, here, runs, top, sleepers, dead, counts) = (
      s',
      done,
      record { placed = placed; here = here; runs = runs },
      top,
      λ q. counts q ∙ ap (λ st. count q rest + one_if (is_running st) (one cur q)) r.runs,
      sleepers,
    )

-- A new task gets the next pid and the current task as its parent, and is ready; the current task
-- keeps running.
pub scheduler_queue_new-Runs :
    (t prio cur : ℕ) (s : Scheduler)
    → Runs s cur
    → t ≢ cur
    → count t s.ready_list ≡ 0
    → asleep_on s t ≡ 0
    → count t s.zombies ≡ 0
    → (s' : Scheduler) × (scheduler_queue_new t prio s ≡ some s')
      × Runs s' cur
      × ((s'.task t).pid ≡ s.next_pid)
      × ((s'.task t).parent ≡ (s.task cur).pid)
      × ((s'.task t).prio ≡ prio)
      × ((q : ℕ) → count q s'.ready_list ≡ count q s.ready_list + one t q)
unfolding scheduler_queue_new
scheduler_queue_new-Runs t prio cur s r ne idle awake alive =
    let (put, done, placed, counts) =
      put_task-Placed entry t numbered (again r.placed) (λ old. refl) idle awake alive in
    (
      record numbered { ready_list = put; task = update t entry s.task },
      ap (λ c. queue_for s t c prio) r.here
          ∙ ap (with_ready (record numbered { task = update t entry s.task })) done,
      record {
        placed = placed;
        here = r.here;
        runs = rw (==_of_ne cur t (λ same. ne (sym same))) r.runs;
      },
      rw (==_self t) refl,
      rw (==_self t) refl,
      rw (==_self t) refl,
      counts,
    )
  where
    entry : Task → Task
    entry old = record old {
      state = ready;
      pid = s.next_pid;
      parent = (s.task cur).pid;
      prio = prio;
    }

    numbered : Scheduler
    numbered = record s { next_pid = u16 (s.next_pid + 1) }

    again : Placed s → Placed numbered
    again placed = record {
      ready_once = placed.ready_once;
      asleep_once = placed.asleep_once;
      dead_once = placed.dead_once;
      sorted = placed.sorted;
    }
