-- ===== src/Sched/Wakeups.antt =====
-- src/sched: no wake-up of a task is lost while it leaves the processor, and no task is put on a queue twice.
use moss.Common.{
  Bool, true, false, not, ◌&&◌, ◌||◌, if◌then◌else◌, ℕ, ◌+◌, ◌≡◌, ◌≢◌, ◌⊎◌, refl, arith,
}
use moss.Sched.TaskStates.{
  TaskState, WakerAction, SleepPc, StopPc, FinalizePc, WakePc, same_state, wake, wake_on_load,
  try_pending_sleep, try_pending_stop, finalize_deactivation,
}
use moss.Sched.Deactivation.{
  Outcome, Owner, System, leave, owner_step, waker_step, other_step, answer, is_returned,
}

-- One step of the task's processor, of the waker, or of any other waker.
pub data Step (c : System) : System → Type 0 where
  own : Step c (owner_step c)
  wakes : is_returned c.waker ≡ false → Step c (waker_step c)
  other : (seen : TaskState) → Step c (other_step seen c)

abbrev pub begin : Owner → System
begin o = record { state = TaskState.running; owner = o; waker = WakePc.load; enqueued = 0 }

-- What a running task and its wakers come to, from the call of `try_pending_sleep` or `try_pending_stop` on.
pub data Reach : System → Type 0 where
  sleeps : Reach (begin (Owner.sleeping SleepPc.load))
  stops : Reach (begin (Owner.stopping StopPc.load))
  next : {c d : System} → Reach c → Step c d → Reach d

-- Where the task's processor stands: it may still be woken without more ado, it has seen that it was, it
-- has asked to leave (and is about to exchange that state), the task is off it, or goes on.
data Phase : Type 0 where
  active clearing leaving away back bad : Phase
  exchanging : TaskState → Phase

abbrev phase : Owner → Phase
phase (Owner.sleeping SleepPc.load) = active
phase (Owner.sleeping (SleepPc.exchange TaskState.running)) = active
phase (Owner.sleeping SleepPc.clear) = clearing
phase (Owner.sleeping (SleepPc.returned true)) = leaving
phase (Owner.sleeping (SleepPc.returned false)) = back
phase (Owner.stopping StopPc.load) = active
phase (Owner.stopping (StopPc.exchange TaskState.running)) = active
phase (Owner.stopping StopPc.clear) = clearing
phase (Owner.stopping (StopPc.returned true)) = leaving
phase (Owner.stopping (StopPc.returned false)) = back
phase Owner.scheduling = leaving
phase (Owner.finalizing FinalizePc.load) = leaving
phase (Owner.finalizing (FinalizePc.exchange TaskState.pending_sleep TaskState.sleeping)) =
    exchanging TaskState.pending_sleep
phase (Owner.finalizing (FinalizePc.exchange TaskState.pending_stop TaskState.stopped)) =
    exchanging TaskState.pending_stop
phase (Owner.finalizing (FinalizePc.returned true)) = away
phase (Owner.finalizing (FinalizePc.returned false)) = back
phase Owner.requeueing = back
phase (Owner.settled Outcome.deactivated) = away
phase (Owner.settled Outcome.resumed) = back
phase (Owner.settled Outcome.kept) = back
phase (Owner.settled Outcome.requeued) = back
phase _ = bad

abbrev pub is_asleep : TaskState → Bool
is_asleep TaskState.sleeping = true
is_asleep TaskState.stopped = true
is_asleep _ = false

abbrev is_pending : TaskState → Bool
is_pending TaskState.pending_sleep = true
is_pending TaskState.pending_stop = true
is_pending _ = false

abbrev is_running : TaskState → Bool
is_running TaskState.running = true
is_running _ = false

abbrev is_woken : TaskState → Bool
is_woken TaskState.woken = true
is_woken _ = false

abbrev is_runnable : TaskState → Bool
is_runnable TaskState.runnable = true
is_runnable _ = false

-- the states that a phase allows
abbrev allows : Phase → TaskState → Bool
allows active s = is_running s || is_woken s
allows clearing s = is_woken s
allows leaving s = is_pending s || is_woken s
allows (exchanging a) s = is_pending a && same_state s a || is_woken s
allows away s = is_asleep s || (is_runnable s || is_woken s)
allows back s = is_running s || (is_runnable s || is_woken s)
allows bad s = false

-- No waker that started before has returned.
abbrev is_open : Phase → TaskState → Bool
is_open active s = is_running s
is_open leaving s = is_pending s
is_open (exchanging a) s = is_pending s
is_open away s = is_asleep s
is_open _ s = false

abbrev is_away : Phase → Bool
is_away away = true
is_away _ = false

abbrev told : Phase → TaskState → ℕ
told p s = if is_away p && not (is_asleep s) then 1 else 0

-- what the waker saw fits the phase
abbrev saw : Phase → TaskState → WakePc → Bool
saw p s WakePc.load = true
saw p s (WakePc.take a) = is_away p && is_asleep a && (not (is_asleep s) || same_state a s)
saw p s (WakePc.retry a) = not (is_asleep a)
saw p s (WakePc.returned WakerAction.enqueue) = is_away p && not (is_asleep s)
saw p s (WakePc.returned a) = not (is_open p s)

-- The three facts of a phase, a state, a waker and the count, which every step keeps.
abbrev Fits : Phase → TaskState → WakePc → ℕ → Type 0
Fits p s w n = (allows p s ≡ true) × (n ≡ told p s) × (saw p s w ≡ true)

abbrev Inv : System → Type 0
Inv c = Fits (phase c.owner) c.state c.waker c.enqueued

other-Fits :
    (seen : TaskState) (p : Phase) (s : TaskState) (w : WakePc) (n : ℕ)
    → Fits p s w n
    → Fits p (wake (wake_on_load seen) s).1 w (n + answer (wake (wake_on_load seen) s).0)
unfolding wake
other-Fits seen p s w n i = ground arith

wake-Fits :
    (p : Phase) (s : TaskState) (w : WakePc) (n : ℕ)
    → is_returned w ≡ false
    → Fits p s w n
    → Fits p (wake w s).1 (wake w s).0 (n + answer (wake w s).0)
unfolding wake
wake-Fits p s w n h i = ground arith

leave-Fits :
    (o : Owner) (s : TaskState) (w : WakePc) (n : ℕ)
    → Fits (phase o) s w n
    → Fits (phase (leave o s).0) (leave o s).1 w n
unfolding leave try_pending_sleep try_pending_stop finalize_deactivation
leave-Fits o s w n i = ground arith

Step-Inv : {c d : System} → Step c d → Inv c → Inv d
Step-Inv {c} own i = leave-Fits c.owner c.state c.waker c.enqueued i
Step-Inv {c} (wakes h) i = wake-Fits (phase c.owner) c.state c.waker c.enqueued h i
Step-Inv {c} (other seen) i = other-Fits seen (phase c.owner) c.state c.waker c.enqueued i

Reach-Inv : {c : System} → Reach c → Inv c
Reach-Inv sleeps = (refl, refl, refl)
Reach-Inv stops = (refl, refl, refl)
Reach-Inv (next r s) = Step-Inv s (Reach-Inv r)

-- A running task calls `try_pending_sleep` or `try_pending_stop`, any number of wakers call `wake`, in any
-- interleaving, and nothing else touches its state. When the task is off the processor and a waker
-- that started after the call has returned, the task is neither asleep nor stopped, and wakers were
-- told exactly once to enqueue it.
pub no_lost_wakeup :
    (c : System) (a : WakerAction)
    → Reach c
    → c.owner ≡ Owner.settled Outcome.deactivated
    → c.waker ≡ WakePc.returned a
    → (is_asleep c.state ≡ false) × (c.enqueued ≡ 1)
no_lost_wakeup c a r o w = ground (arith, Reach-Inv r)

-- A running task calls `try_pending_sleep` or `try_pending_stop`, any number of wakers call `wake`, in any
-- interleaving, and nothing else touches its state. When the call and what `schedule` does with it are
-- over, wakers were told to enqueue the task once where it is off the processor and neither asleep nor
-- stopped, and not at all where it is asleep or stopped or never left.
pub enqueued_once :
    (c : System) (o : Outcome)
    → Reach c
    → c.owner ≡ Owner.settled o
    → ((o ≢ Outcome.deactivated) × (c.enqueued ≡ 0))
      ⊎ ((o ≡ Outcome.deactivated)
          × (((is_asleep c.state ≡ true) × (c.enqueued ≡ 0))
              ⊎ ((is_asleep c.state ≡ false) × (c.enqueued ≡ 1))))
enqueued_once c o r q = ground (arith, Reach-Inv r)

-- A running task calls `try_pending_sleep` or `try_pending_stop`, any number of wakers call `wake`, in any
-- interleaving, and nothing else touches its state. Then `try_pending_sleep` does not come to its
-- `unreachable!`, and `schedule` does not take the task for a finished one.
pub never_unreachable :
    (c : System)
    → Reach c
    → (c.owner ≢ Owner.sleeping SleepPc.unreachable) × (c.owner ≢ Owner.settled Outcome.dropped)
never_unreachable c r = ground (arith, Reach-Inv r)
