-- ===== src/Sched/RunQueue/Dispatch.antt =====
-- src/sched/runqueue/mod.rs: the task that `schedule` puts on the processor.
use moss.Common.{
  ◌+◌, All, true, ℕ, ◌<◌, ◌≡◌, ◌≢◌, ◌⊎◌, inl, inr, refl, sym, ap, ◌∙◌, false, Option, none, some,
  [], arith, Option-cases, if◌then◌else◌,
}
use mathlib.Core.Path.{subst}
use moss.Mem.Frames.Sound.{Runs}
use moss.Sched.TaskStates.{TaskState, is_finished}
use moss.Sched.Time.{Instant, VClock, vclock_epsilon, u128_mod}
use moss.Sched.BinaryHeap.Sums.{All-map}
use moss.Sched.BinaryHeap.{BinaryHeap}
use moss.Sched.RunnableTask.{RunnableTask, Works, store_state, compare_with, about_to_execute}
use moss.Sched.RunQueue.{
  is_task_eligible, by_eligible, by_deadline, RunQueue, Wakers, Search, Left, Scheduled,
  next_or_find, run_next, is_other, conclude, schedule,
}
use moss.Sched.RunQueue.Loops.{is_ineligible}
use moss.Sched.RunQueue.Choice.{IsEarliest}
use moss.Sched.RunQueue.Find.{Chosen}
use moss.Sched.RunQueue.Insert.{put_work-at}
use moss.Sched.RunQueue.Next.{Settled, next_or_find-Settled}
use moss.Sched.RunQueue.Schedule.{Was-cases}
use moss.Sched.RunQueue.Stages.{Was, Departed, schedule-Departed}

module _ (I : BinaryHeap RunnableTask by_eligible) (E : BinaryHeap RunnableTask by_deadline) where
  -- The task that ran so far keeps the processor, and some of its slice is left.
  abbrev pub Stays : RunQueue I E → RunnableTask → Type 0
  Stays q t = Was I E q t.work × (t.sched_data.v_eligible < t.sched_data.v_deadline)

  -- The eligible time lies more than the tolerance ahead of the virtual clock.
  abbrev pub IsEarly : VClock → RunnableTask → Type 0
  IsEarly c u = c.clk + vclock_epsilon < u.sched_data.v_eligible

  ineligible-IsEarly : (c : VClock) (u : RunnableTask) → is_ineligible I E c u ≡ true → IsEarly c u
  unfolding is_task_eligible
  ineligible-IsEarly c u h = ground arith

  -- A task is taken from the queue: it is not finished, no eligible one that waits has an earlier deadline, and those
  -- apart are not eligible at the time of the virtual clock.
  abbrev pub IsBest : Works → RunQueue I E → RunQueue I E → RunnableTask → Type 0
  IsBest ws q q' t =
      (Was I E q t.work ⊎ (is_finished (ws t.work).state ≡ false))
      × IsEarliest I E t q'.eligible
      × All (IsEarly q'.v_clock) (I.contents q'.ineligible)

  abbrev pub DispatchedTo : Works → RunQueue I E → Scheduled I E → Option RunnableTask → Type 0
  DispatchedTo ws q s none =
      (I.contents s.queue.ineligible ≡ [])
      × (E.contents s.queue.eligible ≡ [])
      × (s.switched_to ≡ some q.idle)
  DispatchedTo ws q s (some t) =
      ((s.works t.work).state ≡ TaskState.running) × (Stays q t ⊎ IsBest ws q s.queue t)

  -- What runs after `schedule`.
  abbrev pub Dispatched : Works → RunQueue I E → Scheduled I E → Type 0
  Dispatched ws q s = DispatchedTo ws q s s.queue.running_task

  unfinished_before :
      (w : Wakers) (ws : Works) (q : RunQueue I E) (l : Left I E)
      → Departed I E w ws q l
      → (t : RunnableTask) → is_finished (l.works t.work).state ≡ false
      → Was I E q t.work ⊎ (is_finished (ws t.work).state ≡ false)
  unfinished_before w ws q l d t k = elim (Was-cases I E q t.work) [
    | inl w ↦ inl w
    | inr n ↦ inr (ap is_finished (sym (d.others t.work n)) ∙ k)
  ]

  -- The task that the last stage comes to, before it is set up to run.
  chosen_for :
      (w : Wakers) (ws : Works) (q : RunQueue I E) (l : Left I E) (s : Search I E)
      (t : RunnableTask)
      → Departed I E w ws q l
      → Settled I E l s
      → s.found ≡ some t
      → Stays q t ⊎ IsBest ws q s.queue t
  chosen_for w ws q l s t d n e = elim n.chosen [
    | inl (u, k, f) ↦ inl (d.stays t (k ∙ sym f ∙ e))
    | inr c ↦
        let (u, a, b) = subst (λ x. Chosen I E l.works x s.queue) e c in
        inr (
          unfinished_before w ws q l d t u,
          a,
          All-map (ineligible-IsEarly s.queue.v_clock) (I.contents s.queue.ineligible) b,
        )
  ]

  pub none_chosen :
      (l : Left I E) (s : Search I E)
      → Settled I E l s
      → s.found ≡ none
      → (I.contents s.queue.ineligible ≡ []) × (E.contents s.queue.eligible ≡ [])
  none_chosen l s n e = elim n.chosen [
    | inl (t, k, f) ↦ absurd (ground (arith, e, f))
    | inr c ↦ subst (λ x. Chosen I E l.works x s.queue) e c
  ]

  run_some :
      (now : Instant) (prev : Option ℕ) (wl ws : Works) (q : RunQueue I E) (s : Search I E)
      (t : RunnableTask)
      → s.found ≡ some t
      → Stays q t ⊎ IsBest ws q s.queue t
      → Dispatched ws q (run_next I E now prev wl s)
  unfolding run_next about_to_execute compare_with
  run_some now prev wl ws q s t e c =
      let t' = about_to_execute now t in
      let r : Scheduled I E = record {
        works = store_state t.work TaskState.running wl;
        queue = record s.queue { running_task = some t' };
        deferred = s.deferred;
        switched_to = if is_other I E prev t then some t' else none;
      } in
      let k : run_next I E now prev wl s ≡ r = simp (e, run_next) refl in
      subst (Dispatched ws q) (sym k) (ap (λ w. w.state) (put_work-at t.work _ wl), c)

  run_none :
      (now : Instant) (prev : Option ℕ) (wl ws : Works) (q : RunQueue I E) (s : Search I E)
      → s.found ≡ none
      → s.queue.running_task ≡ none
      → s.queue.idle ≡ q.idle
      → (I.contents s.queue.ineligible ≡ []) × (E.contents s.queue.eligible ≡ [])
      → Dispatched ws q (run_next I E now prev wl s)
  unfolding run_next
  run_none now prev wl ws q s e v i (a, b) =
      let r : Scheduled I E = record {
        works = wl;
        queue = s.queue;
        deferred = s.deferred;
        switched_to = some s.queue.idle;
      } in
      let k : run_next I E now prev wl s ≡ r = simp (e, run_next) refl in
      subst (Dispatched ws q) (sym k) (subst (DispatchedTo ws q r) (sym v) (a, b, ap some i))

  conclude-Dispatched :
      (w : Wakers) (now : Instant) (prev : Option ℕ) (ws : Works) (q : RunQueue I E) (l : Left I E)
      → Departed I E w ws q l
      → Dispatched ws q (conclude I E now prev l)
  conclude-Dispatched w now prev ws q l d =
      let n = next_or_find-Settled I E l in
      let s = next_or_find I E l in
      elim (Option-cases s.found) [
        | inr (t, e) ↦ run_some now prev l.works ws q s t e (chosen_for w ws q l s t d n e)
        | inl e ↦
            run_none now prev l.works ws q s e (n.vacant ∙ d.vacant) (n.idle_eq ∙ d.idle_eq)
              (none_chosen l s n e)
      ]

  -- Where the frequency of the timer is not zero and the virtual clock is below 2 ^ 128, `schedule` ends in one of
  -- three ways. The task that ran so far stays, and its eligible time has not reached its virtual deadline. Or a
  -- task runs that is not finished (or is the one that ran so far, queued again), such that no task of the heap of
  -- eligible tasks has an earlier deadline, or the same one and a shorter run time, or the same of both and an earlier
  -- last run, one that never ran counting as the latest; and the eligible time of each task of the other heap
  -- lies more than the tolerance ahead of the virtual clock. Or both heaps are empty, and the processor changes to the idle task. A task that runs has the
  -- state Running.
  pub schedule-Dispatched :
      (w : Wakers) (cpu : ℕ) (now : Instant) (ws : Works) (q : RunQueue I E)
      → now.freq ≢ 0
      → q.v_clock.clk < u128_mod
      → Runs (Dispatched ws q) (schedule I E w cpu now ws q)
  schedule-Dispatched w cpu now ws q n h =
      let (l, prev, e, d) = schedule-Departed I E w cpu now ws q n h in
      (conclude I E now prev l, e, conclude-Dispatched w now prev ws q l d)
