-- ===== src/Sched/RunQueue/Busy.antt =====
-- src/sched/runqueue/mod.rs: the processor does not go idle while a task can run.
use moss.Common.{
  ℕ, ◌+◌, ◌<◌, ◌≡◌, ◌≢◌, ◌⊎◌, inl, inr, refl, ap, Bool, true, false, some, List, [], arith,
  Option-cases, if◌then◌else◌,
}
use mathlib.Core.Path.{subst}
use moss.Mem.Frames.Sound.{Runs}
use moss.Sched.TaskStates.{TaskState, is_finished}
use moss.Sched.Time.{Instant, u128_mod}
use moss.Sched.BinaryHeap.{BinaryHeap}
use moss.Sched.BinaryHeap.Sums.{outside, outside-All}
use moss.Sched.RunnableTask.{
  RunnableTask, Works, store_state, yield_slice, refresh_priority, about_to_execute,
}
use moss.Sched.RunQueue.{
  by_eligible, by_deadline, RunQueue, Wakers, Left, find_next_task, next_or_find, run_next,
  conclude, leave_current, leave_runnable, keep_or_requeue, enqueue, schedule,
}
use moss.Sched.RunQueue.Loops.{waiting}
use moss.Sched.RunQueue.Choice.{sum?}
use moss.Sched.RunQueue.Find.{Chosen, find_next_task-Found}
use moss.Sched.RunQueue.Insert.{put_work-at, waiting-place}
use moss.Sched.RunQueue.Leave.{tick-Runs}
use moss.Sched.RunQueue.Stages.{opened, advance-Runs, schedule-running}

-- 1 for a task that is not finished
abbrev pub unfinished : Works → RunnableTask → ℕ
unfinished ws = outside (λ t. is_finished (ws t.work).state)

module _ (I : BinaryHeap RunnableTask by_eligible) (E : BinaryHeap RunnableTask by_deadline) where
  sum_nothing :
      (f : RunnableTask → ℕ) (q : RunQueue I E)
      → (I.contents q.ineligible ≡ []) × (E.contents q.eligible ≡ [])
      → waiting I E f q ≡ 0
  sum_nothing f q (a, b) = rw (a, b) refl

  -- If a task that is not finished waits on the run queue, then `find_next_task` answers one that is not finished,
  -- also when no task is eligible and the virtual clock has to be put forward: the calls that it makes to itself
  -- come to an end.
  pub find_next_task_answers :
      (ws : Works) (q : RunQueue I E) (ds : List RunnableTask)
      → 0 < waiting I E (unfinished ws) q
      → (t : RunnableTask) × ((find_next_task I E ws q ds).found ≡ some t)
        × (is_finished (ws t.work).state ≡ false)
  find_next_task_answers ws q ds h =
      let f = find_next_task-Found I E ws q ds in
      let s = find_next_task I E ws q ds in
      elim (Option-cases s.found) [
        | inr (t, e) ↦ (t, e, (subst (λ x. Chosen I E ws x s.queue) e f.chosen).0)
        | inl e ↦ absurd (
            let c =
              sum_nothing (unfinished ws) s.queue
                (subst (λ x. Chosen I E ws x s.queue) e f.chosen) in
            omega (
              arith,
              h,
              c,
              f.ran.kept (unfinished ws),
              ap (sum? (unfinished ws)) e,
              outside-All (λ t. is_finished (ws t.work).state) f.ran.new f.ran.finished,
            ))
      ]

  -- A task stays, or one that is not finished waits.
  abbrev IsBusy : Left I E → Type 0
  IsBusy l = 0 < sum? (λ t. 1) l.next + waiting I E (unfinished l.works) l.queue

  keep_or_requeue-IsBusy :
      (b : Bool) (t : RunnableTask) (ws : Works) (q : RunQueue I E)
      → IsBusy (keep_or_requeue I E (b, t) ws q)
  unfolding keep_or_requeue enqueue refresh_priority
  keep_or_requeue-IsBusy true t ws q =
      let ws' = store_state t.work TaskState.runnable ws in
      let e : is_finished (ws' t.work).state ≡ false =
        ap (λ w. is_finished w.state) (put_work-at t.work _ ws) in
      let k : unfinished ws' (refresh_priority ws t) ≡ 1 = rw (e, outside) refl in
      omega (arith, waiting-place I E (unfinished ws') (refresh_priority ws t) q, k)
  keep_or_requeue-IsBusy false t ws q = omega arith

  leave_runnable-IsBusy :
      (yielding : Bool) (now : Instant) (t : RunnableTask) (ws : Works) (q : RunQueue I E)
      → now.freq ≢ 0
      → Runs IsBusy (leave_runnable I E yielding now t ws q)
  unfolding leave_runnable
  leave_runnable-IsBusy yielding now t ws q h =
      let (r, e, _) = tick-Runs now (if yielding then yield_slice t else t) h in
      (
        keep_or_requeue I E r ws q,
        simp (e, leave_runnable) refl,
        keep_or_requeue-IsBusy r.0 r.1 ws q,
      )

  leave_current-IsBusy :
      (s : TaskState) (w : Wakers) (cpu : ℕ) (yielding : Bool) (now : Instant) (t : RunnableTask)
      (ws : Works) (q : RunQueue I E)
      → (s ≡ TaskState.running) ⊎ (s ≡ TaskState.woken)
      → now.freq ≢ 0
      → Runs IsBusy (leave_current I E s w cpu yielding now t ws q)
  unfolding leave_current
  leave_current-IsBusy s w cpu yielding now t ws q (inl e) h =
      rw e (leave_runnable-IsBusy yielding now t ws q h)
  leave_current-IsBusy s w cpu yielding now t ws q (inr e) h =
      rw e (leave_runnable-IsBusy yielding now t ws q h)

  next_found :
      (l : Left I E) → IsBusy l → (t : RunnableTask) × ((next_or_find I E l).found ≡ some t)
  unfolding next_or_find
  next_found l b = elim (Option-cases l.next) [
    | inr (t, e) ↦ (t, simp (e, next_or_find) refl)
    | inl e ↦
        let h : 0 < waiting I E (unfinished l.works) l.queue =
          omega (arith, b, ap (sum? (λ t. 1)) e) in
        let (t, k, _) = find_next_task_answers l.works l.queue l.deferred h in
        (t, simp (e, next_or_find) k)
  ]

  -- Where the frequency of the timer is not zero, the virtual clock is below 2 ^ 128, and the task that ran so far
  -- is in the state Running or Woken, `schedule` ends with a task that runs, whether or not one gave up its slice
  -- or used it up: the processor does not go idle.
  pub schedule-Runs :
      (w : Wakers) (cpu : ℕ) (now : Instant) (ws : Works) (q : RunQueue I E) (t : RunnableTask)
      → now.freq ≢ 0
      → q.v_clock.clk < u128_mod
      → q.running_task ≡ some t
      → ((ws t.work).state ≡ TaskState.running) ⊎ ((ws t.work).state ≡ TaskState.woken)
      → Runs
          (λ s. (u : RunnableTask) × (s.queue.running_task ≡ some u))
          (schedule I E w cpu now ws q)
  unfolding run_next
  schedule-Runs w cpu now ws q t n h e r =
      let (c, a, _) = advance-Runs now q.total_weight q.v_clock n h in
      let (l, k, b) =
        leave_current-IsBusy _ w cpu q.yield_requested now t ws (opened I E c q) r n in
      let (u, f) = next_found l b in
      (
        conclude I E now (some t.work) l,
        schedule-running I E w cpu now ws q c t l a e k,
        (about_to_execute now u, simp (f, run_next) refl),
      )
