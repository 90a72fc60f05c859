-- ===== src/Clock/Sleepers.antt =====
-- kernel/clk.c: reading the clock, and going to sleep.
use i80k.Base.{
  if◌then◌else◌, ap, subst, ℕ, ◌*◌, ◌^◌, ◌+◌, ◌≤◌, ◌<◌, ◌≡◌, refl, ◌∙◌, arith, Bool, true, false,
  some, List, ◌∷◌, leb,
}
use i80k.Scheduler.{scheduler_sleep_on, blocked_queue}
use i80k.Scheduler.Queue.{one}
use i80k.Scheduler.Invariant.{Runs, asleep_on}
use i80k.Scheduler.Sleep.{Slept, scheduler_sleep_on-Runs}
use i80k.Clock.{Clock, Timespec, s_to_ns, with_system, clk_gettime, deadline_of, clk_nanosleep}

-- The seconds and the nanoseconds that are read make up the time, with less than a second in
-- nanoseconds.
clk_gettime-s_to_ns :
    (c : Clock)
    → (s_to_ns (clk_gettime c).tv_sec + (clk_gettime c).tv_nsec ≡ c.now_ns)
      × ((clk_gettime c).tv_nsec < s_to_ns 1)
unfolding clk_gettime
clk_gettime-s_to_ns c = (omega arith, omega arith)

leb_of_le : (m n : ℕ) → m ≤ n → leb m n ≡ true
leb_of_le m n h = ground arith

leb_of_lt : (m n : ℕ) → n < m → leb m n ≡ false
leb_of_lt m n h = ground arith

-- A sleep whose deadline has passed changes nothing.
pub clk_nanosleep_past :
    (absolute : Bool) (request : Timespec) (c : Clock)
    → deadline_of absolute request c.now_ns ≤ c.now_ns
    → clk_nanosleep absolute request c ≡ some c
unfolding clk_nanosleep
clk_nanosleep_past absolute request c h =
    ap
      (λ b.
        if b
        then some c
        else with_system c
            (scheduler_sleep_on blocked_queue (deadline_of absolute request c.now_ns) c.system))
      (leb_of_le (deadline_of absolute request c.now_ns) c.now_ns h)

-- The time at which a sleep ends: the time that is asked for, after the present one if it is not
-- absolute.
abbrev pub ends_at : Bool → ℕ → Timespec → ℕ
ends_at true now request = request.tv_sec * 1000000000 + request.tv_nsec
ends_at false now request = now + (request.tv_sec * 1000000000 + request.tv_nsec)

deadline_of-ends_at :
    (absolute : Bool) (request : Timespec) (now : ℕ)
    → ends_at absolute now request < 2 ^ 64
    → deadline_of absolute request now ≡ ends_at absolute now request
deadline_of-ends_at true request now h = omega (arith, h)
deadline_of-ends_at false request now h = omega (arith, h)

-- A sleep that ends in the future, at a time of 64 bits: the running task becomes the last of the
-- sleepers of the clock, where it waits for just that time, and the first of the ready list runs in
-- its place; the time and the ticks are as before, and the other queues too.
pub clk_nanosleep-Runs :
    (absolute : Bool) (request : Timespec) (c : Clock) (cur next : ℕ) (rest : List ℕ)
    → Runs c.system cur
    → c.system.ready_list ≡ next ∷ rest
    → c.now_ns < ends_at absolute c.now_ns request
    → ends_at absolute c.now_ns request < 2 ^ 64
    → (c' : Clock) × (clk_nanosleep absolute request c ≡ some c')
      × Runs c'.system next
      × (c'.now_ns ≡ c.now_ns)
      × (c'.ticks ≡ c.ticks)
      × ((q : ℕ) → asleep_on c'.system q ≡ asleep_on c.system q + one cur q)
      × Slept blocked_queue (ends_at absolute c.now_ns request) cur next c.system c'.system
unfolding clk_nanosleep
clk_nanosleep-Runs absolute request c cur next rest r e h wide =
    let deadline = deadline_of absolute request c.now_ns in
    let due = deadline_of-ends_at absolute request c.now_ns wide in
    let (s', done, runs, sleepers, counts, top, there) =
      scheduler_sleep_on-Runs blocked_queue deadline cur next rest c.system r e in
    (
      record c { system = s' },
      ap
            (λ b.
              if b
              then some c
              else with_system c (scheduler_sleep_on blocked_queue deadline c.system))
            (leb_of_lt deadline c.now_ns (omega (arith, h, due)))
          ∙ ap (with_system c) done,
      runs,
      refl,
      refl,
      sleepers,
      subst (λ (d : ℕ). Slept blocked_queue d cur next c.system s') due there,
    )
