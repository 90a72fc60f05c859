-- ===== src/Kthread/Tests.antt =====
-- A thread on a stack of 510 bytes at 4096, with the function at 77.
use i80k.Base.{refl, ℕ, ◌+◌, ◌≡◌, ◌≤◌, ◌<◌, ◌⊎◌, some, arith}
use i80k.Base.Word.{ok}
use i80k.Scheduler.Queue.{count, one}
use i80k.Scheduler.Invariant.{Runs}
use i80k.Scheduler.Tests.{system, system-Runs}
use i80k.Kthread.{Layout, Kernel, kthread_start}
use i80k.Kthread.Started.{Prepared, kthread_start-Runs}

abbrev board : Layout
board = record { kernel_ds = 0; kernel_ss = 0; bootstrap = 1234 }

abbrev three_tasks : Kernel
three_tasks = record {
  scheduler = system;
  memory = λ a. 0;
  frame = λ t. record { stack = 0; ss = 0; sp = 0 };
}

kthread_start-Runs_example :
    (k : Kernel) × (kthread_start board (some 4096) (some 104) 77 510 0 three_tasks
      ≡ some (ok 5, k))
    × Runs k.scheduler 100
    × ((q : ℕ) → count q k.scheduler.ready_list ≡ count q system.ready_list + one 104 q)
    × ((k.scheduler.task 104).pid ≡ 5)
    × ((k.scheduler.task 104).parent ≡ (system.task 100).pid)
    × ((k.scheduler.task 104).prio ≡ 0)
    × ((k.frame 104).stack ≡ 4096)
    × ((k.frame 104).ss ≡ 0)
    × ((k.frame 104).sp + 18 ≡ 4606)
    × Prepared board 77 k.memory (k.frame 104).sp
    × ((q : ℕ) → (q < 4096) ⊎ (4606 ≤ q) → k.memory q ≡ 0)
kthread_start-Runs_example =
    kthread_start-Runs board 4096 104 77 510 0 100 three_tasks system-Runs (λ e. omega (arith, e))
      refl refl refl (omega arith) (omega arith)
