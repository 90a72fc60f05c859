-- ===== src/Clock.antt =====
-- kernel/clk.c: the ticks of the clock, and the tasks that sleep until a deadline.
mod Sleepers
mod Wakeup
mod Tests
use i80k.Base.{
  ℕ, ◌+◌, ◌*◌, ◌/◌, ◌%◌, ◌^◌, Bool, true, false, not, ◌||◌, Option, none, some, List, [], ◌∷◌, ◌==◌,
  leb, if◌then◌else◌,
}
use i80k.Base.Word.{Ret, ok, err}
use i80k.Scheduler.{Scheduler, schedule, scheduler_wake_up, scheduler_sleep_on, blocked_queue}

abbrev pub u64 : ℕ → ℕ
u64 n = n % 2 ^ 64

abbrev pub s_to_ns : ℕ → ℕ
s_to_ns v = v * 1000000000

abbrev pub clock_inc_ms : ℕ
clock_inc_ms = 10

-- The variables of the clock, with the scheduler that it calls.
pub record Clock : Type 0 where
  pub ticks : ℕ
  pub now_ns : ℕ
  pub system : Scheduler

-- `struct timespec`
pub record Timespec : Type 0 where
  pub tv_sec : ℕ
  pub tv_nsec : ℕ

-- `list_delete`
pub delete : ℕ → List ℕ → List ℕ
delete p [] = []
delete p (q ∷ qs) = let rest = delete p qs in if q == p then qs else q ∷ rest

abbrev pub then_go : Option Scheduler → (Scheduler → Option Scheduler) → Option Scheduler
then_go none go = none
then_go (some s) go = go s

-- The loop of `clk_wakeup`; `wait_state` is the deadline.
pub wake_due : ℕ → List ℕ → Scheduler → Option Scheduler
unfolding delete
wake_due now [] s = some s
wake_due now (t ∷ ts) s =
    let go = λ (s' : Scheduler). wake_due now ts s' in
    if leb (s.task t).wait_state now
    then then_go (scheduler_wake_up t (record s { blocked = delete t s.blocked })) go
    else go s

pub clk_wakeup : ℕ → Scheduler → Option Scheduler
unfolding wake_due
clk_wakeup now s = wake_due now s.blocked s

abbrev pub with_system : Clock → Option Scheduler → Option Clock
with_system c none = none
with_system c (some s) = some (record c { system = s })

-- `clk_handler`, less the acknowledgement of the interrupt. Every second tick ends a turn.
pub clk_handler : Clock → Option Clock
unfolding clk_wakeup
clk_handler c =
    let ticks = u64 (c.ticks + 1) in
    let now = u64 (c.now_ns + clock_inc_ms * 1000000) in
    let woken = clk_wakeup now c.system in
    with_system (record c { ticks = ticks; now_ns = now })
      (if ticks % 2 == 0 then then_go woken schedule else woken)

-- `clk_gettime` of the monotonic clock, into a place that is given.
pub clk_gettime : Clock → Timespec
clk_gettime c = record { tv_sec = c.now_ns / s_to_ns 1; tv_nsec = c.now_ns % s_to_ns 1 }

abbrev pub deadline_of : Bool → Timespec → ℕ → ℕ
deadline_of true request now = u64 (s_to_ns request.tv_sec + request.tv_nsec)
deadline_of false request now = u64 (now + s_to_ns request.tv_sec + request.tv_nsec)

-- `clk_nanosleep` of the monotonic clock, up to the sleep; `absolute` is the flag TIMER_ABSTIME.
pub clk_nanosleep : Bool → Timespec → Clock → Option Clock
clk_nanosleep absolute request c =
    let deadline = deadline_of absolute request c.now_ns in
    if leb deadline c.now_ns
    then some c
    else with_system c (scheduler_sleep_on blocked_queue deadline c.system)
