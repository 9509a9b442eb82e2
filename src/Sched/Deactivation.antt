-- ===== src/Sched/Deactivation.antt =====
-- src/sched/uspc_ret.rs and src/sched/runqueue/mod.rs: a task that leaves the processor, with wakers at work. The task's
-- processor calls `try_pending_sleep` or `try_pending_stop`, and then, where that answers true, the part of
-- `schedule` that deals with the task it ran so far.
use moss.Common.{Bool, true, false, ℕ, ◌+◌}
use moss.Sched.TaskStates.{
  TaskState, WakerAction, SleepPc, StopPc, FinalizePc, WakePc, try_pending_sleep, try_pending_stop,
  finalize_deactivation, wake, wake_on_load,
}

-- How it ends: the task's kernel work goes on; `schedule` keeps it or puts it back on a queue as one that runs
-- or was woken; it is off the processor; it was woken in time and is on a queue again; it is finished.
pub data Outcome : Type 0 where
  resumed kept deactivated requeued dropped : Outcome

pub data Owner : Type 0 where
  sleeping : SleepPc → Owner
  stopping : StopPc → Owner
  scheduling : Owner
  finalizing : FinalizePc → Owner
  requeueing : Owner
  settled : Outcome → Owner

-- the match of `schedule` on the state of the task it ran so far
abbrev pub schedule_on_load : TaskState → Owner
schedule_on_load TaskState.running = Owner.settled Outcome.kept
schedule_on_load TaskState.woken = Owner.settled Outcome.kept
schedule_on_load TaskState.pending_sleep = Owner.finalizing FinalizePc.load
schedule_on_load TaskState.pending_stop = Owner.finalizing FinalizePc.load
schedule_on_load _ = Owner.settled Outcome.dropped

abbrev on_sleep : SleepPc × TaskState → Owner × TaskState
on_sleep (p, s) = (Owner.sleeping p, s)

abbrev on_stop : StopPc × TaskState → Owner × TaskState
on_stop (p, s) = (Owner.stopping p, s)

abbrev on_finalize : FinalizePc × TaskState → Owner × TaskState
on_finalize (p, s) = (Owner.finalizing p, s)

-- One step of the task's processor. `requeueing` is `add_work`, which ends in `mark_runnable`.
unfoldable pub leave : Owner → TaskState → Owner × TaskState
unfolding try_pending_sleep try_pending_stop finalize_deactivation
leave (Owner.sleeping (SleepPc.returned true)) s = (Owner.scheduling, s)
leave (Owner.sleeping (SleepPc.returned false)) s = (Owner.settled Outcome.resumed, s)
leave (Owner.sleeping p) s = on_sleep (try_pending_sleep p s)
leave (Owner.stopping (StopPc.returned true)) s = (Owner.scheduling, s)
leave (Owner.stopping (StopPc.returned false)) s = (Owner.settled Outcome.resumed, s)
leave (Owner.stopping p) s = on_stop (try_pending_stop p s)
leave Owner.scheduling s = (schedule_on_load s, s)
leave (Owner.finalizing (FinalizePc.returned true)) s = (Owner.settled Outcome.deactivated, s)
leave (Owner.finalizing (FinalizePc.returned false)) s = (Owner.requeueing, s)
leave (Owner.finalizing p) s = on_finalize (finalize_deactivation p s)
leave Owner.requeueing s = (Owner.settled Outcome.requeued, TaskState.runnable)
leave (Owner.settled o) s = (Owner.settled o, s)

-- The task's processor, one waker, and how many times a waker has been told to put the task on a queue.
pub record System : Type 0 where
  pub state : TaskState
  pub owner : Owner
  pub waker : WakePc
  pub enqueued : ℕ

abbrev pub answer : WakePc → ℕ
answer (WakePc.returned WakerAction.enqueue) = 1
answer _ = 0

-- A step of the waker that has not returned.
abbrev pub waker_step : System → System
waker_step c =
    let (p, s) = wake c.waker c.state in
    record c { state = s; waker = p; enqueued = c.enqueued + answer p }

-- Any other waker has loaded the state `seen` at some time, and does its next access.
abbrev pub other_step : TaskState → System → System
other_step seen c =
    let (p, s) = wake (wake_on_load seen) c.state in
    record c { state = s; enqueued = c.enqueued + answer p }

abbrev pub owner_step : System → System
owner_step c = let (o, s) = leave c.owner c.state in record c { state = s; owner = o }

abbrev pub is_returned : WakePc → Bool
is_returned (WakePc.returned a) = true
is_returned _ = false
