-- ===== src/Scheduler/Exit/Waits.antt =====
-- kernel/core/scheduler.c: one turn of the loop of `scheduler_wait`, for a given pid.
use i80k.Base.{
  ap, ℕ, ◌+◌, ◌*◌, ◌%◌, ◌^◌, ◌≤◌, ◌<◌, ◌≡◌, ◌≢◌, refl, sym, ◌∙◌, arith, Bool, true, false, none,
  some, List, [], ◌∷◌, ◌==◌, Bool-split, inl, inr, eq_of_==, ==_of_ne, ==_self,
}
use i80k.Base.Word.{u16}
use i80k.Scheduler.{Scheduler, Store, waiters_queue}
use i80k.Scheduler.Queue.{All, nothing, more, count, one}
use i80k.Scheduler.Invariant.{Runs, asleep_on}
use i80k.Scheduler.Sleep.{scheduler_sleep_on-Runs}
use i80k.Scheduler.Exit.{reaped, none_dead, asleep, task_find, wait_found, wait_turn, slept}

task_find-found :
    (task : Store) (ws : List ℕ) (z : ℕ)
    → 1 ≤ count z ws
    → (t : ℕ) × (task_find task ws (task z).pid ≡ some t)
      × ((task t).pid ≡ (task z).pid)
      × (1 ≤ count t ws)
unfolding task_find
task_find-found task [] z h = absurd (omega arith)
task_find-found task (w ∷ ws) z h = elim (Bool-split ((task w).pid == (task z).pid)) [
  | inl e ↦ (w, rw e refl, eq_of_== (task w).pid (task z).pid e, ground arith)
  | inr e ↦
      let (t, found, same, there) = task_find-found task ws z (later e) in
      (t, rw e found, same, omega (arith, there))
]
  where
    later : ((task w).pid == (task z).pid) ≡ false → 1 ≤ count z ws
    later e =
        let ne : z ≢ w = λ same.
          let clash : false ≡ true =
            sym e ∙ ap (λ p. (task w).pid == (task p).pid) same ∙ ==_self (task w).pid in
          absurd cc in
        let other : one w z ≡ 0 = rw (==_of_ne z w ne) refl in omega (arith, h, other)

task_find-absent :
    (task : Store) (ws : List ℕ) (pid : ℕ)
    → All (λ t. (task t).pid ≢ pid) ws
    → task_find task ws pid ≡ none
unfolding task_find
task_find-absent task [] pid nothing = refl
task_find-absent task (w ∷ ws) pid (more ne all) =
    rw (==_of_ne (task w).pid pid ne) (task_find-absent task ws pid all)

-- A pid that is not negative is looked up among the dead.
turn_of :
    (pid : ℕ) (no_hang : Bool) (s : Scheduler)
    → pid < 2 ^ 15
    → wait_turn pid no_hang s ≡ wait_found pid no_hang s (task_find s.task s.zombies pid)
unfolding wait_turn
turn_of pid no_hang s h = ground arith

-- Where a dead task has the pid that is waited for, the turn ends: it yields the pid and the status
-- of a task that is dead and has that pid, names it as the one to be freed, and leaves it on the list
-- of the dead.
pub wait_turn-reaped :
    (z : ℕ) (no_hang : Bool) (s : Scheduler)
    → (s.task z).pid < 2 ^ 15
    → 1 ≤ count z s.zombies
    → (t : ℕ) × (wait_turn (s.task z).pid no_hang s
        ≡ some (reaped t (s.task z).pid (u16 ((s.task t).status % 2 ^ 8 * 2 ^ 8)), s))
      × (1 ≤ count t s.zombies)
      × ((s.task t).pid ≡ (s.task z).pid)
wait_turn-reaped z no_hang s small h =
    let (t, found, same, there) = task_find-found s.task s.zombies z h in
    (
      t,
      turn_of (s.task z).pid no_hang s small
          ∙ ap (wait_found (s.task z).pid no_hang s) found
          ∙ ap (λ p. some (reaped t p (u16 ((s.task t).status % 2 ^ 8 * 2 ^ 8)), s)) same,
      there,
      same,
    )

-- While no dead task has the pid, a turn that may not block returns at once, and one that may puts
-- the caller to sleep among the waiters, with the pid that it waits for.
wait_turn-none :
    (pid cur next : ℕ) (rest : List ℕ) (s : Scheduler)
    → Runs s cur
    → s.ready_list ≡ next ∷ rest
    → pid < 2 ^ 15
    → All (λ t. (s.task t).pid ≢ pid) s.zombies
    → (wait_turn pid true s ≡ some (none_dead, s))
      × ((s' : Scheduler) × (wait_turn pid false s ≡ some (asleep, s'))
          × Runs s' next
          × ((q : ℕ) → asleep_on s' q ≡ asleep_on s q + one cur q))
wait_turn-none pid cur next rest s r e small all =
    let absent = task_find-absent s.task s.zombies pid all in
    let (s', done, runs, sleepers, counts, top, slept_there) =
      scheduler_sleep_on-Runs waiters_queue pid cur next rest s r e in
    (
      turn_of pid true s small ∙ ap (wait_found pid true s) absent,
      (
        s',
        turn_of pid false s small ∙ ap (wait_found pid false s) absent ∙ ap slept done,
        runs,
        sleepers,
      ),
    )
