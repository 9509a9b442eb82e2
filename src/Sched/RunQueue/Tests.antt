-- ===== src/Sched/RunQueue/Tests.antt =====
-- The theorems about the run queue (src/sched/runqueue/mod.rs) at a concrete queue, over heaps that are lists.
use moss.Common.{
  ℤ, ℕ, ◌*◌, ◌^◌, ◌≡◌, inl, refl, false, Option, none, some, [], ◌∷◌, arith, Exec, done, ◌==◌,
  if◌then◌else◌,
}
use moss.Mem.Frames.Sound.{Runs}
use moss.Sched.TaskStates.{TaskState, is_finished}
use moss.Sched.Time.{
  Instant, advance, saturating_add_u128, add, elapsed, run_for, saturating_add, sub, virtual_time,
}
use moss.Sched.BinaryHeap.{BinaryHeap}
use moss.Sched.RunnableTask.{
  Works, RunnableTask, tick, check_deadline, charge, refresh_priority, about_to_execute,
  compare_with, drop, inserting_into_runqueue, into_runnable, put_work, weight_at,
}
use moss.Sched.ListHeap.{list_heap, pop_list, merge}
use moss.Sched.RunQueue.{
  RunQueue, Wakers, Scheduled, find_next_task, schedule, schedule_at, leave_current, leave_runnable,
  run_next, next_or_find, keep_or_requeue, find_next_task_loop, enqueue, place, is_task_eligible,
  or_fast_forward, add_work, admit, by_deadline, by_eligible, deactivate, finalize_from, look,
  pop_now_eligible_task, take_best,
}
use moss.Sched.RunQueue.Busy.{schedule-Runs, find_next_task_answers}
use moss.Sched.RunQueue.Dispatch.{Dispatched, schedule-Dispatched}
use moss.Sched.RunQueue.Invariant.{Balanced, schedule-IsBalanced}

abbrev heap_i : BinaryHeap RunnableTask by_eligible
heap_i = list_heap by_eligible

abbrev heap_e : BinaryHeap RunnableTask by_deadline
heap_e = list_heap by_deadline

abbrev second : ℕ → Instant
second n = record { ticks = n * 1000000; freq = 1000000 }

abbrev task : ℕ → ℕ → ℕ → RunnableTask
task p el dl = record {
  work = p;
  sched_data = record {
    v_runtime = 0;
    v_eligible = el;
    v_deadline = dl;
    exec_start = none;
    deadline = none;
    last_run = none;
    last_cpu = 0;
    cpu_mask = [];
    priority = ℤ.pos 0;
  };
}

-- the first task runs, the others wait on the queue
abbrev works : Works
works p = record {
  state = if p == 1 then TaskState.running else TaskState.runnable;
  sched_data = none;
  priority = ℤ.pos 0;
}

-- The first task is at the end of its slice, the second can run, and the third is not eligible yet.
abbrev queue : RunQueue heap_i heap_e
queue = record {
  total_weight = 3072;
  yield_requested = false;
  ineligible = task 3 (2 ^ 70) (2 ^ 71) ∷ task 2 5 (2 ^ 60) ∷ [];
  eligible = [];
  running_task = some (task 1 (2 ^ 65) (2 ^ 65));
  v_clock = record { last_update = none; clk = 7 };
  idle = task 0 0 0;
}

abbrev no_wakers : Wakers
no_wakers = record { before = λ s. s; between = λ s. s }

-- who runs next
abbrev next_work : Exec (Scheduled heap_i heap_e) → Option ℕ
next_work (done s) = elim s.queue.running_task [ none ↦ none | some t ↦ some t.work ]
next_work _ = none

second_runs : next_work (schedule heap_i heap_e no_wakers 0 (second 3) works queue) ≡ some 2
unfolding pop_list merge schedule schedule_at leave_current leave_runnable run_next next_or_find
    keep_or_requeue find_next_task_loop enqueue place is_task_eligible or_fast_forward add_work
    admit by_deadline by_eligible deactivate finalize_from look pop_now_eligible_task take_best tick
    check_deadline charge refresh_priority about_to_execute compare_with drop
    inserting_into_runqueue into_runnable put_work weight_at advance saturating_add_u128 add elapsed
    run_for saturating_add sub virtual_time
second_runs = refl

schedule-Dispatched_example :
    Runs
      (Dispatched heap_i heap_e works queue)
      (schedule heap_i heap_e no_wakers 0 (second 3) works queue)
schedule-Dispatched_example =
    schedule-Dispatched heap_i heap_e no_wakers 0 (second 3) works queue (λ e. ground (arith, e))
      (omega arith)

schedule-Runs_example :
    Runs
      (λ s. (u : RunnableTask) × (s.queue.running_task ≡ some u))
      (schedule heap_i heap_e no_wakers 0 (second 3) works queue)
schedule-Runs_example =
    schedule-Runs heap_i heap_e no_wakers 0 (second 3) works queue (task 1 (2 ^ 65) (2 ^ 65))
      (λ e. ground (arith, e)) (omega arith) refl (inl refl)

find_next_task_answers_example :
    (t : RunnableTask) × ((find_next_task heap_i heap_e works queue []).found ≡ some t)
    × (is_finished (works t.work).state ≡ false)
find_next_task_answers_example = find_next_task_answers heap_i heap_e works queue [] (omega arith)

schedule-IsBalanced_example :
    Runs
      (Balanced (λ p. ℤ.pos 0) heap_i heap_e)
      (schedule heap_i heap_e no_wakers 0 (second 3) works queue)
unfolding weight_at
schedule-IsBalanced_example =
    schedule-IsBalanced (λ p. ℤ.pos 0) heap_i heap_e no_wakers 0 (second 3) works queue
      (λ e. ground (arith, e)) (omega arith)
      (λ p. refl, record { total = refl; fresh = refl; fits = omega arith })
