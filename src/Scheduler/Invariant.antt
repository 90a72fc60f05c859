-- ===== src/Scheduler/Invariant.antt =====
-- kernel/core/scheduler.c: every task stands on at most one queue, the one of its state.
use i80k.Base.{
  ==_self, ◌≢◌, ==_of_ne, ap, ℕ, ◌+◌, ◌≤◌, ◌≡◌, refl, fun_ext, arith, Bool, true, false, some, List,
  [], ◌∷◌, ◌==◌, if◌then◌else◌,
}
use i80k.Scheduler.{
  Scheduler, Store, Task, TaskState, ready, running, waiting, zombie, update, set_state, level,
  task_put, scheduler_wake_up, with_ready,
}
use i80k.Scheduler.Queue.{count, one, All, nothing, more, empty, Sorted, step, task_put-Sorted}

abbrev pub at_ready : TaskState → ℕ
at_ready ready = 1
at_ready running = 0
at_ready waiting = 0
at_ready zombie = 0

abbrev pub at_waiting : TaskState → ℕ
at_waiting ready = 0
at_waiting running = 0
at_waiting waiting = 1
at_waiting zombie = 0

abbrev pub at_zombie : TaskState → ℕ
at_zombie ready = 0
at_zombie running = 0
at_zombie waiting = 0
at_zombie zombie = 1

-- The queues that a sleeping task may stand on.
abbrev pub asleep_on : Scheduler → ℕ → ℕ
asleep_on s q = count q s.waiters + count q s.blocked + count q s.requests

pub record Placed (s : Scheduler) : Type 0 where
  pub ready_once : (q : ℕ) → count q s.ready_list ≤ at_ready (s.task q).state
  pub asleep_once : (q : ℕ) → asleep_on s q ≤ at_waiting (s.task q).state
  pub dead_once : (q : ℕ) → count q s.zombies ≤ at_zombie (s.task q).state
  pub sorted : Sorted (λ q. level (s.task q)) s.ready_list

abbrev pub levels : Store → ℕ → ℕ
levels task q = level (task q)

-- A change of state leaves the order of the priorities as it is.
pub level-update :
    (p : ℕ) (st : TaskState) (task : Store) → levels (update p (set_state st) task) ≡ levels task
level-update p st task = fun_ext (λ q. same q (q == p))
  where
    same : (q : ℕ) (b : Bool) → level (if b then set_state st (task q) else task q) ≡ level (task q)
    same q true = refl
    same q false = refl

-- A list sorted by one order is sorted by another that agrees with it on the list.
pub Sorted-by :
    {f g : ℕ → ℕ} {xs : List ℕ} → ((q : ℕ) → 1 ≤ count q xs → f q ≡ g q) → Sorted f xs → Sorted g xs
Sorted-by agree empty = empty
Sorted-by {f = f} {g = g} agree (step {x = x} {xs = xs} top below) =
    step (All_on xs (λ q h. agree q (ground arith)) top)
      (Sorted-by (λ q h. agree q (ground arith)) below)
  where
    here : f x ≡ g x
    here = agree x (let one_more = ==_self x in ground arith)

    All_on :
        (ys : List ℕ)
        → ((q : ℕ) → 1 ≤ count q ys → f q ≡ g q)
        → All (λ y. f y ≤ f x) ys
        → All (λ y. g y ≤ g x) ys
    All_on [] same nothing = nothing
    All_on (y ∷ ys) same (more p ps) =
        let e = same y (let one_more = ==_self y in ground arith) in
        more (omega (arith, e, p, here)) (All_on ys (λ q h. same q (ground arith)) ps)

-- A task that stands on no queue is filled in as a ready one and put on the ready list.
pub put_task-Placed :
    (f : Task → Task) (p : ℕ) (s : Scheduler)
    → Placed s
    → ((t : Task) → (f t).state ≡ ready)
    → count p s.ready_list ≡ 0
    → asleep_on s p ≡ 0
    → count p s.zombies ≡ 0
    → (put : List ℕ) × (task_put (update p f s.task) s.ready_list p ≡ some put)
      × Placed (record s { ready_list = put; task = update p f s.task })
      × ((q : ℕ) → count q put ≡ count q s.ready_list + one p q)
put_task-Placed f p s placed f_ready idle awake alive =
    let task = update p f s.task in
    let (put, done, order, counts) =
      task_put-Sorted task p s.ready_list (Sorted-by kept placed.sorted) in
    (
      put,
      done,
      record {
        ready_once = λ q.
            let n = counts q in
            let o = placed.ready_once q in let r = ap at_ready (f_ready (s.task q)) in ground arith;
        asleep_once = λ q. let o = placed.asleep_once q in ground arith;
        dead_once = λ q. let o = placed.dead_once q in ground arith;
        sorted = order;
      },
      counts,
    )
  where
    kept : (q : ℕ) → 1 ≤ count q s.ready_list → level (s.task q) ≡ level (update p f s.task q)
    kept q h =
        rw
          (==_of_ne q p
            (λ same. absurd (omega (arith, h, idle, ap (λ n. count n s.ready_list) same))))
          refl

pub put_ready-Placed :
    (p : ℕ) (s : Scheduler)
    → Placed s
    → at_ready (s.task p).state ≡ 0
    → asleep_on s p ≡ 0
    → count p s.zombies ≡ 0
    → (put : List ℕ) × (task_put (update p (set_state ready) s.task) s.ready_list p ≡ some put)
      × Placed (record s { ready_list = put; task = update p (set_state ready) s.task })
      × ((q : ℕ) → count q put ≡ count q s.ready_list + one p q)
put_ready-Placed p s placed idle =
    put_task-Placed (set_state ready) p s placed (λ t. refl)
      (omega (arith, placed.ready_once p, idle))

-- A sleeping task that was taken off its queue is woken up: it is ready, on the ready list.
pub scheduler_wake_up-Placed :
    (p : ℕ) (s : Scheduler)
    → Placed s
    → (s.task p).state ≡ waiting
    → asleep_on s p ≡ 0
    → (s' : Scheduler) × (scheduler_wake_up p s ≡ some s')
      × Placed s'
      × (s'.current ≡ s.current)
      × (s'.blocked ≡ s.blocked)
      × (s'.zombies ≡ s.zombies)
      × ((q : ℕ) → q ≢ p → s'.task q ≡ s.task q)
      × ((q : ℕ) → count q s'.ready_list ≡ count q s.ready_list + one p q)
unfolding scheduler_wake_up
scheduler_wake_up-Placed p s placed sleeping off =
    let idle : at_ready (s.task p).state ≡ 0 = ap at_ready sleeping in
    let awake : at_zombie (s.task p).state ≡ 0 = ap at_zombie sleeping in
    let (put, done, after, counts) =
      put_ready-Placed p s placed idle off (omega (arith, placed.dead_once p, awake)) in
    (
      record s { ready_list = put; task = update p (set_state ready) s.task },
      ap (with_ready (record s { task = update p (set_state ready) s.task })) done,
      after,
      refl,
      refl,
      refl,
      λ q ne. rw (==_of_ne q p ne) refl,
      counts,
    )

-- The current task is running: what holds while the kernel runs.
pub record Runs (s : Scheduler) (cur : ℕ) : Type 0 where
  pub placed : Placed s
  pub here : s.current ≡ some cur
  pub runs : (s.task cur).state ≡ running
