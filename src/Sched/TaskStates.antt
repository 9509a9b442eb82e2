-- ===== src/Sched/TaskStates.antt =====
-- src/sched/sched_task/state.rs: the state machine of a task. Its methods run on several processors at once, so each
-- is a thread that takes one access of the atomic state at a time: a program counter, and a function that does
-- the access which it stands for. One atomic cell alone orders its accesses, whatever their `Ordering`.
use moss.Common.{Bool, true, false, if◌then◌else◌, ℕ, ◌==◌}

pub data TaskState : Type 0 where
  running runnable woken stopped sleeping finished pending_sleep pending_stop : TaskState

pub data WakerAction : Type 0 where
  enqueue prevented_sleep none : WakerAction

abbrev pub is_finished : TaskState → Bool
is_finished TaskState.finished = true
is_finished _ = false

abbrev rank : TaskState → ℕ
rank TaskState.running = 0
rank TaskState.runnable = 1
rank TaskState.woken = 2
rank TaskState.stopped = 3
rank TaskState.sleeping = 4
rank TaskState.finished = 5
rank TaskState.pending_sleep = 6
rank TaskState.pending_stop = 7

abbrev pub same_state : TaskState → TaskState → Bool
same_state a b = rank a == rank b

abbrev pub new : TaskState
new = TaskState.runnable

-- Where `try_pending_sleep` stands: before its load, before its exchange, and before the store that
-- clears Woken.
pub data SleepPc : Type 0 where
  load : SleepPc
  exchange : TaskState → SleepPc
  clear : SleepPc
  returned : Bool → SleepPc
  unreachable : SleepPc

-- the match on the state that was loaded
abbrev pub sleep_on_load : TaskState → SleepPc
sleep_on_load TaskState.running = SleepPc.exchange TaskState.running
sleep_on_load TaskState.runnable = SleepPc.exchange TaskState.runnable
sleep_on_load TaskState.woken = SleepPc.clear
sleep_on_load TaskState.finished = SleepPc.returned true
sleep_on_load _ = SleepPc.unreachable

-- the match on the state that the failed exchange found
abbrev pub sleep_on_conflict : TaskState → SleepPc
sleep_on_conflict TaskState.woken = SleepPc.clear
sleep_on_conflict TaskState.finished = SleepPc.returned true
sleep_on_conflict _ = SleepPc.unreachable

unfoldable pub try_pending_sleep : SleepPc → TaskState → SleepPc × TaskState
try_pending_sleep SleepPc.load s = (sleep_on_load s, s)
try_pending_sleep (SleepPc.exchange seen) s =
    if same_state s seen
    then (SleepPc.returned true, TaskState.pending_sleep)
    else (sleep_on_conflict s, s)
try_pending_sleep SleepPc.clear s = (SleepPc.returned false, TaskState.running)
try_pending_sleep (SleepPc.returned b) s = (SleepPc.returned b, s)
try_pending_sleep SleepPc.unreachable s = (SleepPc.unreachable, s)

-- `try_pending_stop`, likewise
pub data StopPc : Type 0 where
  load : StopPc
  exchange : TaskState → StopPc
  clear : StopPc
  returned : Bool → StopPc

abbrev pub stop_on_load : TaskState → StopPc
stop_on_load TaskState.running = StopPc.exchange TaskState.running
stop_on_load TaskState.runnable = StopPc.exchange TaskState.runnable
stop_on_load TaskState.woken = StopPc.clear
stop_on_load _ = StopPc.returned true

unfoldable pub try_pending_stop : StopPc → TaskState → StopPc × TaskState
try_pending_stop StopPc.load s = (stop_on_load s, s)
try_pending_stop (StopPc.exchange seen) s =
    if same_state s seen
    then (StopPc.returned true, TaskState.pending_stop)
    else (StopPc.returned false, s)
try_pending_stop StopPc.clear s = (StopPc.returned false, TaskState.running)
try_pending_stop (StopPc.returned b) s = (StopPc.returned b, s)

-- `finalize_deactivation`: the exchange remembers the state that was loaded and its target.
pub data FinalizePc : Type 0 where
  load : FinalizePc
  exchange : TaskState → TaskState → FinalizePc
  returned : Bool → FinalizePc

abbrev pub finalize_on_load : TaskState → FinalizePc
finalize_on_load TaskState.pending_sleep =
    FinalizePc.exchange TaskState.pending_sleep TaskState.sleeping
finalize_on_load TaskState.pending_stop =
    FinalizePc.exchange TaskState.pending_stop TaskState.stopped
finalize_on_load _ = FinalizePc.returned false

unfoldable pub finalize_deactivation : FinalizePc → TaskState → FinalizePc × TaskState
finalize_deactivation FinalizePc.load s = (finalize_on_load s, s)
finalize_deactivation (FinalizePc.exchange seen target) s =
    if same_state s seen then (FinalizePc.returned true, target) else (FinalizePc.returned false, s)
finalize_deactivation (FinalizePc.returned b) s = (FinalizePc.returned b, s)

-- `wake`: `retry` is the exchange whose failure goes back to the load, `take` the one of a task that sleeps
-- or is stopped.
pub data WakePc : Type 0 where
  load : WakePc
  take : TaskState → WakePc
  retry : TaskState → WakePc
  returned : WakerAction → WakePc

abbrev pub wake_on_load : TaskState → WakePc
wake_on_load TaskState.sleeping = WakePc.take TaskState.sleeping
wake_on_load TaskState.stopped = WakePc.take TaskState.stopped
wake_on_load TaskState.running = WakePc.retry TaskState.running
wake_on_load TaskState.runnable = WakePc.retry TaskState.runnable
wake_on_load TaskState.pending_sleep = WakePc.retry TaskState.pending_sleep
wake_on_load TaskState.pending_stop = WakePc.retry TaskState.pending_stop
wake_on_load _ = WakePc.returned WakerAction.none

unfoldable pub wake : WakePc → TaskState → WakePc × TaskState
wake WakePc.load s = (wake_on_load s, s)
wake (WakePc.take seen) s =
    if same_state s seen
    then (WakePc.returned WakerAction.enqueue, TaskState.runnable)
    else (WakePc.returned WakerAction.none, s)
wake (WakePc.retry seen) s =
    if same_state s seen
    then (WakePc.returned WakerAction.prevented_sleep, TaskState.woken)
    else (WakePc.load, s)
wake (WakePc.returned a) s = (WakePc.returned a, s)
