-- ===== src/Sched/RunnableTask.antt =====
-- src/sched/sched_task/mod.rs: a task on a run queue, with the data that the scheduler has taken from its `Work`.
use moss.Common.{
  ℕ, ℤ, ◌+◌, ◌-◌, ◌%◌, max, Bool, true, false, Option, none, some, List, if◌then◌else◌, ltb, leb,
  ◌==◌, Exec, done, panicked,
}
use Prim.Native.Nat.{compare, Ordering}
use moss.Sched.TaskStates.{TaskState}
use moss.Sched.Time.{
  Duration, Instant, cmp_instant, sub, add, as_nanos, virtual_time, u128_mod, saturating_add_u128,
}

infixl 6 ◌+ℤ◌
abbrev pub ◌+ℤ◌ : ℤ → ℤ → ℤ
ℤ.pos a +ℤ ℤ.pos b = ℤ.pos (a + b)
ℤ.pos a +ℤ ℤ.negsuc b = if ltb b a then ℤ.pos (a - b - 1) else ℤ.negsuc (b - a)
ℤ.negsuc a +ℤ ℤ.pos b = if ltb a b then ℤ.pos (b - a - 1) else ℤ.negsuc (a - b)
ℤ.negsuc a +ℤ ℤ.negsuc b = ℤ.negsuc (a + b + 1)

pub record SchedulerData : Type 0 where
  pub v_runtime : ℕ
  pub v_eligible : ℕ
  pub v_deadline : ℕ
  pub exec_start : Option Instant
  pub deadline : Option Instant
  pub last_run : Option Instant
  pub last_cpu : ℕ
  pub cpu_mask : List ℕ
  -- an i8
  pub priority : ℤ

-- What the scheduler uses of a `Work`: `priority` is what `task.priority()` answers.
pub record Work : Type 0 where
  pub state : TaskState
  pub sched_data : Option SchedulerData
  pub priority : ℤ

-- Every `Work` by its address.
abbrev pub Works : Type 0
Works = ℕ → Work

unfoldable pub put_work : ℕ → Work → Works → Works
put_work p w ws q = if q == p then w else ws q

abbrev pub store_state : ℕ → TaskState → Works → Works
store_state p s ws = put_work p (record (ws p) { state = s }) ws

-- A task whose `Work` is at the address `work`.
pub record RunnableTask : Type 0 where
  pub work : ℕ
  pub sched_data : SchedulerData

unfoldable pub into_runnable : ℕ → Works → Exec (RunnableTask × Works)
into_runnable p ws = elim (ws p).sched_data [
  | none ↦ panicked
  | some sd ↦ done (
    record { work = p; sched_data = record sd { priority = (ws p).priority } },
    put_work p (record (ws p) { sched_data = none }) ws,
  )
]

-- `drop` of `Drop for RunnableTask`
unfoldable pub drop : RunnableTask → Works → Works
drop t ws = put_work t.work (record (ws t.work) { sched_data = some t.sched_data }) ws

-- `DEFAULT_TIME_SLICE` and `SCHED_WEIGHT_BASE` of src/sched/mod.rs
abbrev pub default_time_slice : Duration
default_time_slice = record { secs = 0; nanos = 4000000 }

abbrev pub sched_weight_base : ℤ
sched_weight_base = ℤ.pos 1024

-- `if w <= 0 { 1 } else { w as u32 }`
abbrev clamp_weight : ℤ → ℕ
clamp_weight (ℤ.pos n) = if n == 0 then 1 else n
clamp_weight (ℤ.negsuc n) = 1

-- the weight of a priority
unfoldable pub weight_at : ℤ → ℕ
weight_at p = clamp_weight (p +ℤ sched_weight_base)

abbrev pub weight : RunnableTask → ℕ
weight t = weight_at t.sched_data.priority

abbrev pub yield_slice : RunnableTask → RunnableTask
yield_slice t = record t {
  sched_data = record t.sched_data {
    v_eligible = max t.sched_data.v_eligible t.sched_data.v_deadline;
  };
}

-- the virtual time that a slice lasts for a task of this weight
abbrev pub slice_of : ℕ → ℕ
slice_of w = virtual_time (as_nanos default_time_slice) w

abbrev pub replenish_deadline : RunnableTask → RunnableTask
replenish_deadline t = record t {
  sched_data = record t.sched_data {
    v_deadline = (t.sched_data.v_eligible + slice_of (weight t)) % u128_mod;
  };
}

-- the part of `tick` before its test, once it knows `dv_increment`
unfoldable pub charge : ℕ → Instant → RunnableTask → RunnableTask
charge dv_increment now t = record t {
  sched_data = record t.sched_data {
    v_runtime = saturating_add_u128 t.sched_data.v_runtime dv_increment;
    v_eligible = saturating_add_u128 t.sched_data.v_eligible dv_increment;
    exec_start = some now;
  };
}

-- the test: it answers whether another task is to be scheduled.
unfoldable pub check_deadline : RunnableTask → Bool × RunnableTask
check_deadline t =
    if leb t.sched_data.v_deadline t.sched_data.v_eligible
    then (true, replenish_deadline t)
    else (false, t)

abbrev pub tick_by : ℕ → Instant → RunnableTask → Bool × RunnableTask
tick_by dv_increment now t = check_deadline (charge dv_increment now t)

unfoldable pub tick : Instant → RunnableTask → Exec (Bool × RunnableTask)
tick now t = elim t.sched_data.exec_start [
  | none ↦ done (tick_by 0 now t)
  | some start ↦ elim (sub now start) [
    | panicked ↦ panicked
    | done delta ↦ done (tick_by (virtual_time (as_nanos delta) (weight t)) now t)
  ]
]

abbrev pub then_with : Ordering → Ordering → Ordering
then_with Ordering.eq p = p
then_with o p = o

abbrev pub compare_last_run : Option Instant → Option Instant → Ordering
compare_last_run (some a) (some b) = cmp_instant a b
compare_last_run (some a) none = Ordering.lt
compare_last_run none (some b) = Ordering.gt
compare_last_run none none = Ordering.eq

unfoldable pub compare_with : RunnableTask → RunnableTask → Ordering
compare_with t u = then_with (compare t.sched_data.v_deadline u.sched_data.v_deadline) (
    then_with (compare t.sched_data.v_runtime u.sched_data.v_runtime)
      (compare_last_run t.sched_data.last_run u.sched_data.last_run))

unfoldable pub inserting_into_runqueue : ℕ → RunnableTask → RunnableTask
inserting_into_runqueue vclock t = record t {
  sched_data = record t.sched_data {
    v_eligible = vclock;
    v_deadline = (vclock + slice_of (weight t)) % u128_mod;
    exec_start = none;
  };
}

abbrev is_due : Instant → Option Instant → Bool
is_due limit none = true
is_due limit (some d) = leb d.ticks limit.ticks

-- `about_to_execute`, but for the store of the state. The preemption interrupt is asked for at `deadline`.
unfoldable pub about_to_execute : Instant → RunnableTask → RunnableTask
about_to_execute now t =
    let slice_end = add now default_time_slice in
    record t {
      sched_data = record t.sched_data {
        exec_start = some now;
        deadline =
            if is_due slice_end t.sched_data.deadline
            then some slice_end
            else t.sched_data.deadline;
      };
    }

unfoldable pub refresh_priority : Works → RunnableTask → RunnableTask
refresh_priority ws t = record t {
  sched_data = record t.sched_data { priority = (ws t.work).priority };
}
