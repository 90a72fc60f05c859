-- ===== src/Kthread.antt =====
-- kernel/kthread.c: starting a thread of the kernel, with a stack that leads to its function.
--
-- Memory has a word at each even address. What malloc and calloc answer are arguments; the structure that
-- calloc gives is the one that the store of the scheduler has at its address. The addresses of
-- functions and the segments of the kernel are numbers of the board and the linker.
pub mod Started
mod Tests
use i80k.Base.{ℕ, ◌+◌, ◌-◌, ◌^◌, Option, none, some, ◌==◌, ltb, if◌then◌else◌}
use i80k.Base.Word.{u16, Ret, ok, err, to_int}
use i80k.Scheduler.{Scheduler, scheduler_queue_new}

pub record Layout : Type 0 where
  pub kernel_ds : ℕ
  pub kernel_ss : ℕ
  pub bootstrap : ℕ

-- `ctx` and `stack` of a `struct task`.
pub record Frame : Type 0 where
  pub stack : ℕ
  pub ss : ℕ
  pub sp : ℕ

pub record Kernel : Type 0 where
  pub scheduler : Scheduler
  pub memory : ℕ → ℕ
  pub frame : ℕ → Frame

-- `sizeof(struct bootstrap_stack)`: nine words.
abbrev pub bootstrap_size : ℕ
bootstrap_size = 18

abbrev pub word_put : {A : Type 0} → ℕ → A → (ℕ → A) → ℕ → A
word_put a v f q = if q == a then v else f q

-- The fields that are set: flags, es, ds, the bootstrap function and its argument.
pub bootstrap_stack : Layout → ℕ → ℕ → (ℕ → ℕ) → ℕ → ℕ
bootstrap_stack l bst fn memory = word_put (bst + 16) fn (
    word_put (bst + 12) l.bootstrap
      (word_put (bst + 4) l.kernel_ds (word_put (bst + 2) l.kernel_ds (word_put bst 512 memory))))

abbrev pub with_scheduler : Kernel → ℕ → Option Scheduler → Option (Ret × Kernel)
with_scheduler k pid none = none
with_scheduler k pid (some s) = some (to_int pid, record k { scheduler = s })

abbrev pub start_on : Layout → ℕ → ℕ → ℕ → ℕ → ℕ → Kernel → Option (Ret × Kernel)
start_on l stack new fn sz prio k =
    let bst = u16 (stack + sz - bootstrap_size) in
    with_scheduler
      (record k {
        memory = bootstrap_stack l bst fn k.memory;
        frame = word_put new (record { stack = stack; ss = l.kernel_ss; sp = bst }) k.frame;
      })
      k.scheduler.next_pid (scheduler_queue_new new prio k.scheduler)

abbrev pub with_task : Layout → ℕ → Option ℕ → ℕ → ℕ → ℕ → Kernel → Option (Ret × Kernel)
with_task l stack none fn sz prio k = some (err 12, k)
with_task l stack (some new) fn sz prio k = start_on l stack new fn sz prio k

abbrev pub with_stack : Layout → Option ℕ → Option ℕ → ℕ → ℕ → ℕ → Kernel → Option (Ret × Kernel)
with_stack l none new fn sz prio k = some (err 12, k)
with_stack l (some stack) new fn sz prio k = with_task l stack new fn sz prio k

pub kthread_start : Layout → Option ℕ → Option ℕ → ℕ → ℕ → ℕ → Kernel → Option (Ret × Kernel)
unfolding bootstrap_stack
kthread_start l stack new fn sz prio k =
    if ltb sz bootstrap_size then some (err 22, k) else with_stack l stack new fn sz prio k

-- The idle thread, with the lowest priority but one.
pub kthread_initialize : Layout → Option ℕ → Option ℕ → ℕ → Kernel → Option (Ret × Kernel)
unfolding kthread_start
kthread_initialize l stack new kernel_idle k =
    kthread_start l stack new kernel_idle 510 (2 ^ 16 - 32767) k
