-- ===== src/Sched/Tests.antt =====
-- The theorems about a task that leaves its processor, at concrete interleavings.
use moss.Common.{true, false, ◌≡◌, ◌≢◌, ◌⊎◌, refl}
use moss.Sched.TaskStates.{
  TaskState, WakerAction, WakePc, wake, try_pending_sleep, finalize_deactivation,
}
use moss.Sched.Deactivation.{Outcome, Owner, System, leave}
use moss.Sched.Wakeups.{own, wakes, Reach, sleeps, next, is_asleep, no_lost_wakeup, enqueued_once}

-- The task goes to sleep undisturbed, and then a waker wakes it.
abbrev slept : System
slept = record {
  state = TaskState.sleeping;
  owner = Owner.settled Outcome.deactivated;
  waker = WakePc.load;
  enqueued = 0;
}

slept-Reach : Reach slept
unfolding leave try_pending_sleep finalize_deactivation
slept-Reach = next (next (next (next (next (next (next sleeps own) own) own) own) own) own) own

abbrev woken_up : System
woken_up = record {
  state = TaskState.runnable;
  owner = Owner.settled Outcome.deactivated;
  waker = WakePc.returned WakerAction.enqueue;
  enqueued = 1;
}

woken_up-Reach : Reach woken_up
unfolding wake
woken_up-Reach = next (next slept-Reach (wakes refl)) (wakes refl)

no_lost_wakeup_example : (is_asleep woken_up.state ≡ false) × (woken_up.enqueued ≡ 1)
no_lost_wakeup_example = no_lost_wakeup woken_up WakerAction.enqueue woken_up-Reach refl refl

enqueued_once_example :
    ((Outcome.deactivated ≢ Outcome.deactivated) × (slept.enqueued ≡ 0))
    ⊎ ((Outcome.deactivated ≡ Outcome.deactivated)
        × (((is_asleep TaskState.sleeping ≡ true) × (slept.enqueued ≡ 0))
            ⊎ ((is_asleep slept.state ≡ false) × (slept.enqueued ≡ 1))))
enqueued_once_example = enqueued_once slept Outcome.deactivated slept-Reach refl
