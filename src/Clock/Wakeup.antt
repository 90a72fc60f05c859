-- ===== src/Clock/Wakeup.antt =====
-- kernel/clk.c: which tasks a tick of the clock wakes up.
use i80k.Base.{
  ==_self, ==_of_ne, ◌≢◌, ap, ℕ, ◌+◌, ◌≤◌, ◌≡◌, refl, sym, ◌∙◌, arith, Bool, true, false, not, some,
  List, [], ◌∷◌, ◌++◌, append_assoc, leb, if◌then◌else◌, Bool-split, inl, inr,
}
use i80k.Scheduler.{Scheduler, Store, Task, waiting}
use i80k.Scheduler.Queue.{count, one, count-append}
use i80k.Scheduler.Invariant.{Placed, asleep_on, at_waiting, scheduler_wake_up-Placed}
use i80k.Scheduler.Exit.Deaths.{waiting_of}
use i80k.Clock.{delete, then_go, wake_due, clk_wakeup}

-- The tasks of a list that pass a test, in their order.
abbrev pub passing : (ℕ → Bool) → List ℕ → List ℕ
passing test [] = []
passing test (t ∷ ts) = if test t then t ∷ passing test ts else passing test ts

-- The deadline of the task has passed.
abbrev pub due : ℕ → Store → ℕ → Bool
due now task t = leb (task t).wait_state now

abbrev pub late : ℕ → Store → ℕ → Bool
late now task t = not (due now task t)

passing-agree :
    (f g : ℕ → Bool) (ts : List ℕ)
    → ((q : ℕ) → 1 ≤ count q ts → f q ≡ g q)
    → passing f ts ≡ passing g ts
passing-agree f g [] same = refl
passing-agree f g (t ∷ ts) same =
    let here = same t (let self = ==_self t in ground arith) in
    rw (here, passing-agree f g ts (λ q h. same q (ground arith))) refl

delete-append : (t : ℕ) (pre ts : List ℕ) → count t pre ≡ 0 → delete t (pre ++ (t ∷ ts)) ≡ pre ++ ts
unfolding delete
delete-append t [] ts none_before = rw (==_self t) refl
delete-append t (p ∷ pre) ts none_before =
    let apart : p ≢ t = λ e. absurd (let self = ==_self t in ground arith) in
    rw (==_of_ne p t apart) (ap (λ r. p ∷ r) (delete-append t pre ts (ground arith)))

-- What waking the due tasks of `ts` leads to, where `pre` is what was kept before them.
pub record Woken (now : ℕ) (pre ts : List ℕ) (s s' : Scheduler) : Type 0 where
  pub placed : Placed s'
  pub here : s'.current ≡ s.current
  pub left : s'.blocked ≡ pre ++ passing (late now s.task) ts
  pub ready_ones :
      (q : ℕ) → count q s'.ready_list ≡ count q s.ready_list + count q (passing (due now s.task) ts)
  pub dead : s'.zombies ≡ s.zombies

module _ (now t : ℕ) (pre ts : List ℕ) (s : Scheduler) (placed : Placed s)
    (e : s.blocked ≡ pre ++ (t ∷ ts)) where
  counts : (q : ℕ) → count q s.blocked ≡ count q pre + (one t q + count q ts)
  counts q = ap (count q) e ∙ count-append q pre (t ∷ ts)

  sleeping : (s.task t).state ≡ waiting
  sleeping =
      let self = ==_self t in
      let n = counts t in waiting_of (s.task t).state (let o = placed.asleep_once t in ground arith)

  once : asleep_on s t ≤ 1
  once = let o = placed.asleep_once t in let w = ap at_waiting sleeping in omega (arith, o, w)

  none_before : count t pre ≡ 0
  none_before = let self = ==_self t in let n = counts t in let o = once in ground arith

  none_after : count t ts ≡ 0
  none_after = let self = ==_self t in let n = counts t in let o = once in ground arith

  taken_off : Scheduler
  unfolding delete
  taken_off = record s { blocked = delete t s.blocked }

  taken_off-blocked : taken_off.blocked ≡ pre ++ ts
  unfolding taken_off
  taken_off-blocked = ap (delete t) e ∙ delete-append t pre ts none_before

  fewer : (q : ℕ) → count q (pre ++ ts) + one t q ≡ count q s.blocked
  fewer q = omega (arith, counts q, count-append q pre ts)

  off : asleep_on taken_off t ≡ 0
  unfolding taken_off
  off =
      let self = ==_self t in
      let b = ap (count t) taken_off-blocked in let n = fewer t in let o = once in ground arith

  taken_off-Placed : Placed taken_off
  unfolding taken_off
  taken_off-Placed = record {
    ready_once = placed.ready_once;
    asleep_once = λ q.
        let b = ap (count q) taken_off-blocked in omega (arith, b, fewer q, placed.asleep_once q);
    dead_once = placed.dead_once;
    sorted = placed.sorted;
  }

test_same :
    (now t : ℕ) (s s' : Scheduler) (ts : List ℕ)
    → ((q : ℕ) → q ≢ t → s'.task q ≡ s.task q)
    → count t ts ≡ 0
    → (q : ℕ) → 1 ≤ count q ts
    → due now s'.task q ≡ due now s.task q
test_same now t s s' ts others gone q h =
    ap (λ (u : Task). leb u.wait_state now)
      (others q (λ same. absurd (omega (arith, h, gone, ap (λ n. count n ts) same))))

abbrev Wakes : ℕ → List ℕ → List ℕ → Scheduler → Type 0
Wakes now pre ts s = (s' : Scheduler) × (wake_due now ts s ≡ some s') × Woken now pre ts s s'

Wakes-first :
    (now t : ℕ) (pre ts : List ℕ) (s : Scheduler)
    → Placed s
    → s.blocked ≡ pre ++ (t ∷ ts)
    → due now s.task t ≡ true
    → ((s1 : Scheduler) → Placed s1 → s1.blocked ≡ pre ++ ts → Wakes now pre ts s1)
    → Wakes now pre (t ∷ ts) s
unfolding wake_due taken_off
Wakes-first now t pre ts s placed e passed again =
    let (s1, done, placed1, here1, blocked1, dead1, others, ready1) =
      scheduler_wake_up-Placed t (taken_off now t pre ts s placed e)
        (taken_off-Placed now t pre ts s placed e) (sleeping now t pre ts s placed e)
        (off now t pre ts s placed e) in
    let (s', run, w) = again s1 placed1 (blocked1 ∙ taken_off-blocked now t pre ts s placed e) in
    let same = test_same now t s s1 ts others (none_after now t pre ts s placed e) in
    let same_due = passing-agree (due now s1.task) (due now s.task) ts same in
    (
      s',
      rw (passed) (ap (λ r. then_go r (λ s2. wake_due now ts s2)) done ∙ run),
      record {
        placed = w.placed;
        here = w.here ∙ here1;
        left =
            w.left
            ∙ rw (passed) (
                ap (λ r. pre ++ r)
                  (passing-agree (late now s1.task) (late now s.task) ts
                    (λ q h. ap not (same q h))));
        ready_ones = λ q.
            rw (passed)
              (let d = ap (count q) same_due in omega (arith, w.ready_ones q, ready1 q, d));
        dead = w.dead ∙ dead1;
      },
    )

Wakes-later :
    (now t : ℕ) (pre ts : List ℕ) (s : Scheduler)
    → due now s.task t ≡ false
    → Wakes now (pre ++ (t ∷ [])) ts s
    → Wakes now pre (t ∷ ts) s
unfolding wake_due
Wakes-later now t pre ts s ahead (s', run, w) = (
  s',
  rw (ahead) run,
  record {
    placed = w.placed;
    here = w.here;
    left = w.left ∙ append_assoc pre (t ∷ []) (passing (late now s.task) ts) ∙ rw (ahead) refl;
    ready_ones = λ q. rw (ahead) (w.ready_ones q);
    dead = w.dead;
  },
)

wake_due-Woken :
    (now : ℕ) (pre ts : List ℕ) (s : Scheduler)
    → Placed s
    → s.blocked ≡ pre ++ ts
    → Wakes now pre ts s
unfolding wake_due
wake_due-Woken now pre [] s placed e = (
  s,
  refl,
  record { placed = placed; here = refl; left = e; ready_ones = λ q. omega arith; dead = refl },
)
wake_due-Woken now pre (t ∷ ts) s placed e = elim (Bool-split (due now s.task t)) [
  | inl passed ↦
      Wakes-first now t pre ts s placed e passed
        (λ s1 placed1 e1. wake_due-Woken now pre ts s1 placed1 e1)
  | inr ahead ↦
      Wakes-later now t pre ts s ahead
        (wake_due-Woken now (pre ++ (t ∷ [])) ts s placed (e ∙ sym (append_assoc pre (t ∷ []) ts)))
]

-- The tasks whose deadline has passed are ready, the others sleep on in their order.
pub clk_wakeup-Woken :
    (now : ℕ) (s : Scheduler)
    → Placed s
    → (s' : Scheduler) × (clk_wakeup now s ≡ some s') × Woken now [] s.blocked s s'
unfolding clk_wakeup
clk_wakeup-Woken now s placed = wake_due-Woken now [] s.blocked s placed refl
