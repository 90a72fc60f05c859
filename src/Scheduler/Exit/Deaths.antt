-- ===== src/Scheduler/Exit/Deaths.antt =====
-- kernel/core/scheduler.c: the end of a task, and who wakes up of it.
use i80k.Base.{
  ==_self, ◌≢◌, ==_of_ne, ap, ℕ, ◌+◌, ◌≤◌, ◌≡◌, refl, ◌∙◌, arith, Bool, true, false, Option, none,
  some, List, [], ◌∷◌, ◌++◌, ◌==◌, if◌then◌else◌, Bool-split, inl, inr,
}
use i80k.Scheduler.{Scheduler, Store, Task, TaskState, ready, running, waiting, zombie, level}
use i80k.Scheduler.Queue.{count, one, All, nothing, more}
use i80k.Scheduler.Queue.{count-append}
use i80k.Scheduler.Invariant.{
  scheduler_wake_up-Placed, Runs, at_ready, at_waiting, at_zombie, asleep_on, Placed, Sorted-by,
}
use i80k.Scheduler.Switch.{schedule-Switched}
use i80k.Scheduler.Exit.{
  waits_for, first_waiter, keep, wake_waiter, and_schedule, died, exit_of, scheduler_exit,
}

-- What the search over the waiters finds: the first that waits for the dead task, if any.
pub data Search (task : Store) (dead : Task) (ws : List ℕ) : Option (ℕ × List ℕ) → Type 0 where
  nobody : All (λ t. waits_for (task t) dead ≡ false) ws → Search task dead ws none
  somebody :
      {t : ℕ} (before after : List ℕ)
      → ws ≡ before ++ (t ∷ after)
      → All (λ u. waits_for (task u) dead ≡ false) before
      → waits_for (task t) dead ≡ true
      → Search task dead ws (some (t, before ++ after))

Search-on :
    (task : Store) (dead : Task) (w : ℕ) (ws : List ℕ) (r : Option (ℕ × List ℕ))
    → waits_for (task w) dead ≡ false
    → Search task dead ws r
    → Search task dead (w ∷ ws) (keep w r)
Search-on task dead w ws _ passes (nobody none_of) = nobody (more passes none_of)
Search-on task dead w ws _ passes (somebody before after same passed found) =
    somebody (w ∷ before) after (ap (λ l. w ∷ l) same) (more passes passed) found

pub first_waiter-Search :
    (task : Store) (dead : Task) (ws : List ℕ) → Search task dead ws (first_waiter task dead ws)
unfolding first_waiter
first_waiter-Search task dead [] = nobody nothing
first_waiter-Search task dead (w ∷ ws) = elim (Bool-split (waits_for (task w) dead)) [
  | inl e ↦ rw e (somebody [] ws refl nothing e)
  | inr e ↦
      rw e
        (Search-on task dead w ws (first_waiter task dead ws) e (first_waiter-Search task dead ws))
]

died-Placed : (cur status : ℕ) (s : Scheduler) → Runs s cur → Placed (died cur status s)
died-Placed cur status s r =
    let placed = r.placed in
    let was_ready = ap at_ready r.runs in
    let was_waiting = ap at_waiting r.runs in
    let was_zombie = ap at_zombie r.runs in
    record {
      ready_once = λ q. let o = placed.ready_once q in ground arith;
      asleep_once = λ q. let o = placed.asleep_once q in ground arith;
      dead_once = λ q.
          let o = placed.dead_once q in let l = count-append q s.zombies (cur ∷ []) in ground arith;
      sorted = Sorted-by (λ q h. same q (q == cur)) placed.sorted;
    }
  where
    same :
        (q : ℕ) (b : Bool)
        → level (s.task q)
          ≡ level (if b then record (s.task q) { state = zombie; status = status } else s.task q)
    same q true = refl
    same q false = refl

-- What the death of `cur` leaves before the switch.
abbrev Mourned : Scheduler → ℕ → Option Scheduler → Type 0
Mourned s cur result =
    (s' : Scheduler) × (result ≡ some s')
    × Placed s'
    × (s'.current ≡ s.current)
    × (s'.zombies ≡ s.zombies)
    × (at_ready (s'.task cur).state ≡ 0)
    × ((q : ℕ) → count q s.ready_list ≤ count q s'.ready_list)

pub waiting_of : (st : TaskState) → 1 ≤ at_waiting st → st ≡ waiting
waiting_of waiting h = refl
waiting_of ready h = absurd (omega arith)
waiting_of running h = absurd (omega arith)
waiting_of zombie h = absurd (omega arith)

wake_waiter-Mourned :
    (cur : ℕ) (s : Scheduler) (dead : Task) (r : Option (ℕ × List ℕ))
    → Placed s
    → (s.task cur).state ≡ zombie
    → Search s.task dead s.waiters r
    → Mourned s cur (wake_waiter s r)
wake_waiter-Mourned cur s dead _ placed z (nobody none_of) =
    (s, refl, placed, refl, refl, ap at_ready z, λ q. omega arith)
wake_waiter-Mourned cur s dead _ placed z (somebody {t = t} before after same passed found) =
    let (s', done, placed', now, blocked, dead', others, counts) =
      scheduler_wake_up-Placed t (record s { waiters = before ++ after }) less sleeping off in
    (
      s',
      done,
      placed',
      now,
      dead',
      ap (λ (u : Task). at_ready u.state) (others cur apart) ∙ ap at_ready z,
      λ q. omega (arith, counts q),
    )
  where
    shorter : (q : ℕ) → count q s.waiters ≡ count q (before ++ after) + one t q
    shorter q =
        let all = ap (count q) same in
        omega (arith, all, count-append q before (t ∷ after), count-append q before after)

    sleeping : (s.task t).state ≡ waiting
    sleeping =
        let here : count t s.waiters ≡ count t (before ++ after) + 1 =
          shorter t ∙ rw (==_self t) refl in
        waiting_of (s.task t).state (omega (arith, here, placed.asleep_once t))

    off : asleep_on (record s { waiters = before ++ after }) t ≡ 0
    off =
        let here : count t s.waiters ≡ count t (before ++ after) + 1 =
          shorter t ∙ rw (==_self t) refl in
        omega (arith, here, placed.asleep_once t, ap at_waiting sleeping)

    apart : cur ≢ t
    apart e = absurd (
        omega
          (arith, ap at_zombie z, ap at_zombie sleeping, ap (λ p. at_zombie (s.task p).state) e))

    less : Placed (record s { waiters = before ++ after })
    less = record {
      ready_once = placed.ready_once;
      asleep_once = λ q. omega (arith, shorter q, placed.asleep_once q);
      dead_once = placed.dead_once;
      sorted = placed.sorted;
    }

nonempty : (q : ℕ) (xs : List ℕ) → 1 ≤ count q xs → (y : ℕ) × (ys : List ℕ) × (xs ≡ y ∷ ys)
nonempty q [] h = absurd (omega arith)
nonempty q (y ∷ ys) h = (y, ys, refl)

-- A task other than the first that exits stands on the list of the dead; if a task is ready, one
-- runs in its place, and every task is on the queue of its state.
pub scheduler_exit-Runs :
    (status cur next : ℕ) (rest : List ℕ) (s : Scheduler)
    → Runs s cur
    → (s.task cur).pid ≢ 0
    → s.ready_list ≡ next ∷ rest
    → (s' : Scheduler) × (scheduler_exit status s ≡ some s')
      × ((next' : ℕ) × Runs s' next')
      × ((q : ℕ) → count q s'.zombies ≡ count q s.zombies + one cur q)
unfolding scheduler_exit
scheduler_exit-Runs status cur next rest s r ne e = switched (
    wake_waiter-Mourned cur after (after.task cur)
      (first_waiter after.task (after.task cur) after.waiters) (died-Placed cur status s r) gone
      (first_waiter-Search after.task (after.task cur) after.waiters))
  where
    after : Scheduler
    after = died cur status s

    gone : (after.task cur).state ≡ zombie
    gone = rw (==_self cur) refl

    woken : Option Scheduler
    woken = wake_waiter after (first_waiter after.task (after.task cur) after.waiters)

    Result : Type 0
    Result =
        (s' : Scheduler) × (scheduler_exit status s ≡ some s')
        × ((next' : ℕ) × Runs s' next')
        × ((q : ℕ) → count q s'.zombies ≡ count q s.zombies + one cur q)

    start : scheduler_exit status s ≡ and_schedule woken
    start = ap (exit_of status s) r.here ∙ rw (==_of_ne (s.task cur).pid 0 ne) refl

    switched : Mourned after cur woken → Result
    switched (s1, done, placed, now, dead, idle, kept) =
        let n : count next s.ready_list ≡ 1 + count next rest =
          ap (count next) e ∙ rw (==_self next) refl in
        let (y, ys, list) = nonempty next s1.ready_list (omega (arith, n, kept next)) in
        let (s', done', placed', here', runs', top, sleepers, dead', counts) =
          schedule-Switched s1 cur y ys placed (now ∙ r.here) list idle in
        (
          s',
          start ∙ ap and_schedule done ∙ done',
          (y, record { placed = placed'; here = here'; runs = runs' }),
          λ q. dead' q ∙ ap (count q) dead ∙ count-append q s.zombies (cur ∷ []) ∙ omega arith,
        )
