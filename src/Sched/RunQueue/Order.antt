-- ===== src/Sched/RunQueue/Order.antt =====
-- src/sched/runqueue/mod.rs: the orders of the two heaps.
use moss.Common.{ℕ, ◌≤◌, ◌<◌, ◌≡◌, ◌⊎◌, inl, inr, refl, true, Option, none, some, arith}
use Prim.Native.Nat.{compare, Ordering}
use moss.Sched.Time.{Instant}
use moss.Sched.BinaryHeap.{is_le, reverse, IsOrd}
use moss.Sched.RunnableTask.{RunnableTask, compare_with, compare_last_run, then_with}
use moss.Sched.RunQueue.{by_eligible, by_deadline}

compare_dual : (a b : ℕ) → compare b a ≡ reverse (compare a b)
compare_dual a b = ground arith

compare_trans :
    (a b c : ℕ)
    → is_le (compare a b) ≡ true
    → is_le (compare b c) ≡ true
    → is_le (compare a c) ≡ true
compare_trans a b c h k = ground arith

then_with_dual : (x y : Ordering) → then_with (reverse x) (reverse y) ≡ reverse (then_with x y)
then_with_dual Ordering.lt y = refl
then_with_dual Ordering.eq y = refl
then_with_dual Ordering.gt y = refl

lex_dual :
    (a b : ℕ) (p q : Ordering)
    → q ≡ reverse p
    → then_with (compare b a) q ≡ reverse (then_with (compare a b) p)
lex_dual a b p q h = rw (compare_dual a b, h) (then_with_dual (compare a b) p)

lex_trans :
    (a b c : ℕ) (p q r : Ordering)
    → (is_le p ≡ true → is_le q ≡ true → is_le r ≡ true)
    → is_le (then_with (compare a b) p) ≡ true
    → is_le (then_with (compare b c) q) ≡ true
    → is_le (then_with (compare a c) r) ≡ true
lex_trans a b c p q r t h k = ground arith

last_run_dual : (a b : Option Instant) → compare_last_run b a ≡ reverse (compare_last_run a b)
last_run_dual (some a) (some b) = compare_dual a.ticks b.ticks
last_run_dual (some a) none = refl
last_run_dual none (some b) = refl
last_run_dual none none = refl

last_run_trans :
    (a b c : Option Instant)
    → is_le (compare_last_run a b) ≡ true
    → is_le (compare_last_run b c) ≡ true
    → is_le (compare_last_run a c) ≡ true
last_run_trans (some a) (some b) (some c) h k = compare_trans a.ticks b.ticks c.ticks h k
last_run_trans (some a) b none h k = refl
last_run_trans none b none h k = refl
last_run_trans none none c h k = k
last_run_trans none (some b) c h k = ground arith
last_run_trans (some a) none (some c) h k = ground arith

-- The last run of a task is no later than that of another; one that never ran counts as the latest.
abbrev pub RanNoLater : Option Instant → Option Instant → Type 0
RanNoLater (some a) (some b) = a.ticks ≤ b.ticks
RanNoLater none (some b) = ⊥
RanNoLater a none = Unit

-- The deadline of the first task is earlier; or it is the same, and the task has run for less; or it has run for as long,
-- and its last run is no later.
abbrev pub ComesFirst : RunnableTask → RunnableTask → Type 0
ComesFirst t u =
    (t.sched_data.v_deadline < u.sched_data.v_deadline)
    ⊎ ((t.sched_data.v_deadline ≡ u.sched_data.v_deadline)
        × ((t.sched_data.v_runtime < u.sched_data.v_runtime)
            ⊎ ((t.sched_data.v_runtime ≡ u.sched_data.v_runtime)
                × RanNoLater t.sched_data.last_run u.sched_data.last_run)))

last_run-RanNoLater : (a b : Option Instant) → is_le (compare_last_run a b) ≡ true → RanNoLater a b
last_run-RanNoLater (some a) (some b) h = ground arith
last_run-RanNoLater (some a) none h = tt
last_run-RanNoLater none (some b) h = absurd (ground arith)
last_run-RanNoLater none none h = tt

lex_first :
    (a b : ℕ) (x : Ordering)
    → is_le (then_with (compare a b) x) ≡ true
    → (a < b) ⊎ ((a ≡ b) × (is_le x ≡ true))
lex_first a b x h = ground arith

pub compare_with-ComesFirst :
    (t u : RunnableTask) → is_le (compare_with t u) ≡ true → ComesFirst t u
unfolding compare_with
compare_with-ComesFirst t u h = elim (lex_first _ _ _ h) [
  | inl d ↦ inl d
  | inr (d, k) ↦ elim (lex_first _ _ _ k) [
    | inl r ↦ inr (d, inl r)
    | inr (r, l) ↦ inr (d, inr (r, last_run-RanNoLater _ _ l))
  ]
]

compare_with-dual : (a b : RunnableTask) → compare_with b a ≡ reverse (compare_with a b)
unfolding compare_with
compare_with-dual t u =
    let a = t.sched_data in
    let b = u.sched_data in
    lex_dual a.v_deadline b.v_deadline _ _
      (lex_dual a.v_runtime b.v_runtime _ _ (last_run_dual a.last_run b.last_run))

compare_with_trans :
    (a b c : RunnableTask)
    → is_le (compare_with a b) ≡ true
    → is_le (compare_with b c) ≡ true
    → is_le (compare_with a c) ≡ true
unfolding compare_with
compare_with_trans t u v =
    let a = t.sched_data in
    let b = u.sched_data in
    let c = v.sched_data in
    lex_trans a.v_deadline b.v_deadline c.v_deadline _ _ _ (
      lex_trans a.v_runtime b.v_runtime c.v_runtime _ _ _
        (last_run_trans a.last_run b.last_run c.last_run))

pub by_eligible-IsOrd : IsOrd RunnableTask by_eligible
unfolding by_eligible
by_eligible-IsOrd = record {
  dual = λ a b. compare_dual b.sched_data.v_eligible a.sched_data.v_eligible;
  trans = λ a b c h k.
      compare_trans c.sched_data.v_eligible b.sched_data.v_eligible a.sched_data.v_eligible k h;
}

pub by_deadline-IsOrd : IsOrd RunnableTask by_deadline
unfolding by_deadline
by_deadline-IsOrd = record {
  dual = λ a b. compare_with-dual b a;
  trans = λ a b c h k. compare_with_trans c b a k h;
}
