-- ===== src/Sched/RunQueue.antt =====
-- src/sched/runqueue/mod.rs: the run queue of a processor, over the heaps of the interface Sched/BinaryHeap.antt.
pub mod Order
pub mod Loops
pub mod Choice
pub mod Find
pub mod Insert
pub mod Leave
pub mod Stages
pub mod Next
pub mod Schedule
pub mod Dispatch
pub mod Busy
pub mod Balance
pub mod Total
pub mod Invariant
mod Tests
use moss.Common.{
  ℕ, zero, suc, ◌+◌, ◌-◌, ◌≤◌, Bool, true, false, Option, none, some, List, [], ◌∷◌, ◌++◌,
  if◌then◌else◌, leb, ◌==◌, Exec, done, panicked, ◌>>=◌,
}
use Prim.Native.Nat.{compare, Ordering}
use moss.Sched.TaskStates.{TaskState, FinalizePc, finalize_deactivation, is_finished}
use moss.Sched.Time.{
  Instant, VClock, new_vclock, fast_forward, advance, vclock_epsilon, saturating_add,
}
use moss.Sched.BinaryHeap.{BinaryHeap}
use moss.Sched.RunnableTask.{
  RunnableTask, Works, put_work, store_state, into_runnable, drop, weight, yield_slice, tick,
  compare_with, inserting_into_runqueue, about_to_execute, refresh_priority,
}

-- `cmp` of `Ord for ByEligible` and of `Ord for ByDeadline`
unfoldable pub by_eligible : RunnableTask → RunnableTask → Ordering
by_eligible a b = compare b.sched_data.v_eligible a.sched_data.v_eligible

unfoldable pub by_deadline : RunnableTask → RunnableTask → Ordering
by_deadline a b = compare_with b a

unfoldable pub is_task_eligible : RunnableTask → VClock → Bool
is_task_eligible t c = leb (t.sched_data.v_eligible - c.clk) vclock_epsilon

-- What other processors do to the state of the task that `schedule` takes off this one: before the load of
-- `finalize_deactivation`, and between it and the exchange.
pub record Wakers : Type 0 where
  pub before : TaskState → TaskState
  pub between : TaskState → TaskState

-- `finalize_deactivation` whole: its answer, and the state it leaves.
abbrev answer_of : FinalizePc × TaskState → Bool × TaskState
answer_of (FinalizePc.returned b, s) = (b, s)
answer_of (p, s) = (false, s)

unfoldable pub finalize_from : (TaskState → TaskState) → TaskState → Bool × TaskState
unfolding finalize_deactivation
finalize_from between s =
    let (p, s1) = finalize_deactivation FinalizePc.load s in
    answer_of (finalize_deactivation p (between s1))

abbrev pub finalize : Wakers → TaskState → Bool × TaskState
finalize w s = finalize_from w.between (w.before s)

-- the task with `last_cpu` set
abbrev pub leaves_cpu : ℕ → RunnableTask → RunnableTask
leaves_cpu cpu t = record t { sched_data = record t.sched_data { last_cpu = cpu } }

module _ (I : BinaryHeap RunnableTask by_eligible) (E : BinaryHeap RunnableTask by_deadline) where
  pub record RunQueue : Type 0 where
    pub total_weight : ℕ
    pub yield_requested : Bool
    pub ineligible : I.Heap
    pub eligible : E.Heap
    pub running_task : Option RunnableTask
    pub v_clock : VClock
    pub idle : RunnableTask

  -- the idle task is made by the architecture
  abbrev pub new_run_queue : RunnableTask → RunQueue
  new_run_queue idle = record {
    total_weight = 0;
    yield_requested = false;
    ineligible = I.empty;
    eligible = E.empty;
    running_task = none;
    v_clock = new_vclock;
    idle = idle;
  }

  unfoldable pub pop_now_eligible_task : RunQueue → Option (RunnableTask × RunQueue)
  pop_now_eligible_task q = elim (I.peek q.ineligible) [
    | none ↦ none
    | some t ↦
        if is_task_eligible t q.v_clock
        then elim (I.pop q.ineligible) [
          | none ↦ none
          | some r ↦ some (r.0, record q { ineligible = r.1 })
        ]
        else none
  ]

  -- the first loop of `find_next_task`, for at most so many rounds
  unfoldable pub admit : ℕ → RunQueue → RunQueue
  admit zero q = q
  admit (suc n) q = elim (pop_now_eligible_task q) [
    | none ↦ q
    | some r ↦ admit n (record r.1 { eligible = E.push r.0 r.1.eligible })
  ]

  -- The answer of `find_next_task`, and `deferred_drops` after it.
  pub record Search : Type 0 where
    pub found : Option RunnableTask
    pub queue : RunQueue
    pub deferred : List RunnableTask

  -- a finished task that the second loop comes across
  abbrev pub discard : RunnableTask → E.Heap → RunQueue → RunQueue
  discard best rest q = record q { total_weight = q.total_weight - weight best; eligible = rest }

  -- the second loop, for at most so many rounds
  unfoldable pub take_best : ℕ → Works → RunQueue → List RunnableTask → Search
  take_best zero ws q ds = record { found = none; queue = q; deferred = ds }
  take_best (suc n) ws q ds = elim (E.pop q.eligible) [
    | none ↦ record { found = none; queue = q; deferred = ds }
    | some r ↦
        let rest = take_best n ws (discard r.0 r.1 q) (ds ++ (r.0 ∷ [])) in
        if is_finished (ws r.0.work).state
        then rest
        else record { found = some r.0; queue = record q { eligible = r.1 }; deferred = ds }
  ]

  -- both loops, with a round for each task that they can find
  abbrev pub admit_all : RunQueue → RunQueue
  admit_all q = admit (I.len q.ineligible) q

  unfoldable pub look : Works → RunQueue → List RunnableTask → Search
  look ws q ds = let q' = admit_all q in take_best (E.len q'.eligible) ws q' ds

  -- what follows the loops, given what the call to itself would answer after the clock is put forward
  unfoldable pub or_fast_forward : (RunQueue → List RunnableTask → Search) → Search → Search
  or_fast_forward again s = elim s.found [
    | some t ↦ s
    | none ↦ elim (I.peek s.queue.ineligible) [
      | none ↦ s
      | some t ↦
          again (record s.queue { v_clock = fast_forward t.sched_data.v_eligible s.queue.v_clock })
            s.deferred
    ]
  ]

  unfoldable pub find_next_task_loop : ℕ → Works → RunQueue → List RunnableTask → Search
  find_next_task_loop zero ws q ds = look ws q ds
  find_next_task_loop (suc n) ws q ds = or_fast_forward (find_next_task_loop n ws) (look ws q ds)

  -- `find_next_task` calls itself at most once for each task that is not eligible.
  abbrev pub find_next_task : Works → RunQueue → List RunnableTask → Search
  find_next_task ws q ds = find_next_task_loop (I.len q.ineligible) ws q ds

  unfoldable pub place : RunnableTask → RunQueue → RunQueue
  place t q =
      if is_task_eligible t q.v_clock
      then record q { eligible = E.push t q.eligible }
      else record q { ineligible = I.push t q.ineligible }

  unfoldable pub enqueue : RunnableTask → Works → RunQueue → Works × RunQueue
  enqueue t ws q = (store_state t.work TaskState.runnable ws, place (refresh_priority ws t) q)

  unfoldable pub add_work : ℕ → Works → RunQueue → Exec (Works × RunQueue)
  add_work p ws q = elim (into_runnable p ws) [
    | panicked ↦ panicked
    | done r ↦
        let new_task = inserting_into_runqueue q.v_clock.clk r.0 in
        done (
          enqueue new_task r.1
            (record q { total_weight = saturating_add q.total_weight (weight new_task) }))
  ]

  abbrev pub request_yield : RunQueue → RunQueue
  request_yield q = record q { yield_requested = true }

  abbrev pub current : RunQueue → RunnableTask
  current q = elim q.running_task [ none ↦ q.idle | some t ↦ t ]

  -- Where `schedule` stands when it has dealt with the task that ran so far: `next` is that task if it keeps the
  -- processor.
  pub record Left : Type 0 where
    pub works : Works
    pub queue : RunQueue
    pub next : Option RunnableTask
    pub deferred : List RunnableTask

  -- the arm for Running and Woken
  unfoldable pub keep_or_requeue : Bool × RunnableTask → Works → RunQueue → Left
  keep_or_requeue (true, t) ws q =
      let r = enqueue t ws q in record { works = r.0; queue = r.1; next = none; deferred = [] }
  keep_or_requeue (false, t) ws q = record { works = ws; queue = q; next = some t; deferred = [] }

  unfoldable pub leave_runnable : Bool → Instant → RunnableTask → Works → RunQueue → Exec Left
  leave_runnable yielding now t ws q = elim (tick now (if yielding then yield_slice t else t)) [
    | panicked ↦ panicked
    | done r ↦ done (keep_or_requeue r ws q)
  ]

  abbrev pub without : RunnableTask → RunQueue → RunQueue
  without t q = record q { total_weight = q.total_weight - weight t }

  abbrev left_by : Exec (Works × RunQueue) → Exec Left
  left_by panicked = panicked
  left_by (done (ws, q)) = done (record { works = ws; queue = q; next = none; deferred = [] })

  -- the arm for PendingSleep and PendingStop
  unfoldable pub deactivate : Wakers → ℕ → RunnableTask → Works → RunQueue → Exec Left
  deactivate w cpu t ws q =
      let ws1 = drop (leaves_cpu cpu t) ws in
      let r = finalize w (ws1 t.work).state in
      let ws2 = store_state t.work r.1 ws1 in
      if r.0
      then done (record { works = ws2; queue = without t q; next = none; deferred = [] })
      else left_by (add_work t.work ws2 (without t q))

  -- What becomes of the task that ran so far, by the state that was loaded.
  unfoldable pub leave_current :
      TaskState → Wakers → ℕ → Bool → Instant → RunnableTask → Works → RunQueue → Exec Left
  leave_current TaskState.running w cpu yielding now t ws q = leave_runnable yielding now t ws q
  leave_current TaskState.woken w cpu yielding now t ws q = leave_runnable yielding now t ws q
  leave_current TaskState.pending_sleep w cpu yielding now t ws q = deactivate w cpu t ws q
  leave_current TaskState.pending_stop w cpu yielding now t ws q = deactivate w cpu t ws q
  leave_current s w cpu yielding now t ws q =
      done (record { works = ws; queue = without t q; next = none; deferred = t ∷ [] })

  -- What `schedule` comes to. `switched_to` is the task whose context the processor changes to, where it does.
  pub record Scheduled : Type 0 where
    pub works : Works
    pub queue : RunQueue
    pub deferred : List RunnableTask
    pub switched_to : Option RunnableTask

  abbrev pub is_other : Option ℕ → RunnableTask → Bool
  is_other none t = true
  is_other (some p) t = if t.work == p then false else true

  unfoldable pub run_next : Instant → Option ℕ → Works → Search → Scheduled
  run_next now prev ws s = elim s.found [
    | none ↦ record {
      works = ws;
      queue = s.queue;
      deferred = s.deferred;
      switched_to = some s.queue.idle;
    }
    | some t ↦
        let t' = about_to_execute now t in
        record {
          works = store_state t.work TaskState.running ws;
          queue = record s.queue { running_task = some t' };
          deferred = s.deferred;
          switched_to = if is_other prev t then some t' else none;
        }
  ]

  -- `next_task.or_else(|| self.find_next_task(..))`
  unfoldable pub next_or_find : Left → Search
  next_or_find l = elim l.next [
    | some t ↦ record { found = some t; queue = l.queue; deferred = l.deferred }
    | none ↦ find_next_task l.works l.queue l.deferred
  ]

  abbrev pub conclude : Instant → Option ℕ → Left → Scheduled
  conclude now prev l = run_next now prev l.works (next_or_find l)

  -- `schedule` once the clock has advanced: `yielding` is what it takes from `yield_requested`.
  unfoldable pub schedule_at : Wakers → ℕ → Instant → Works → RunQueue → Exec Scheduled
  schedule_at w cpu now ws q =
      let q1 = record q { yield_requested = false; running_task = none } in
      elim q.running_task [
        | none ↦
            let l : Left = record { works = ws; queue = q1; next = none; deferred = [] } in
            done (conclude now none l)
        | some cur ↦
            elim (leave_current (ws cur.work).state w cpu q.yield_requested now cur ws q1) [
              | panicked ↦ panicked
              | done l ↦ done (conclude now (some cur.work) l)
            ]
      ]

  unfoldable pub schedule : Wakers → ℕ → Instant → Works → RunQueue → Exec Scheduled
  schedule w cpu now ws q = elim (advance now q.total_weight q.v_clock) [
    | panicked ↦ panicked
    | done c ↦ schedule_at w cpu now ws (record q { v_clock = c })
  ]
