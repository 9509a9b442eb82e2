-- ===== src/Sched/RunQueue/Schedule.antt =====
-- src/sched/runqueue/mod.rs: `schedule` whole: no task is lost, and which one runs next.
use moss.Common.{
  ℕ, ◌+◌, ◌≤◌, ◌≡◌, ◌⊎◌, inl, inr, sym, ap, ◌∙◌, true, Option, some, All, arith, Bool-cases,
  Option-cases, ◌==◌,
}
use mathlib.Core.Option.{some-injective}
use moss.Sched.BinaryHeap.{BinaryHeap, sum}
use moss.Sched.RunnableTask.{RunnableTask, Works}
use moss.Sched.RunQueue.{by_eligible, by_deadline, RunQueue, Wakers, Scheduled}
use moss.Sched.RunQueue.Loops.{waiting}
use moss.Sched.RunQueue.Choice.{sum?, IsDone}
use moss.Sched.RunQueue.Insert.{by_work}
use moss.Sched.RunQueue.Leave.{off_measure, is_pending, is_off, IsLeftAlone}
use moss.Sched.RunQueue.Stages.{Was}

module _ (I : BinaryHeap RunnableTask by_eligible) (E : BinaryHeap RunnableTask by_deadline) where
  -- A task that is to be dropped ran so far, or was found to be finished.
  abbrev pub IsDropped : Works → RunQueue I E → RunnableTask → Type 0
  IsDropped ws q u = Was I E q u.work ⊎ IsDone ws u

  -- What `schedule` does with the tasks: each work that ran or waited runs, waits, is to be dropped, or leaves
  -- as `off`.
  pub record Kept (w : Wakers) (ws : Works) (q : RunQueue I E) (s : Scheduled I E) : Type 0 where
    pub off : Option ℕ
    pub kept :
        (g : ℕ → ℕ)
        → sum? (by_work g) s.queue.running_task
            + waiting I E (by_work g) s.queue
            + sum (by_work g) s.deferred
            + off_measure g off
          ≡ sum? (by_work g) q.running_task + waiting I E (by_work g) q
    pub off_state :
        (p : ℕ)
        → off ≡ some p
        → Was I E q p
          × (is_pending (ws p).state ≡ true)
          × ((is_off (s.works p).state ≡ true) ⊎ Was I E s.queue p)
    pub undisturbed :
        (t : RunnableTask)
        → q.running_task ≡ some t
        → is_pending (ws t.work).state ≡ true
        → IsLeftAlone w (ws t.work).state
        → off ≡ some t.work
    pub dropped : All (IsDropped ws q) s.deferred
    pub clock : q.v_clock.clk ≤ s.queue.v_clock.clk

  pub Was-cases : (q : RunQueue I E) (p : ℕ) → Was I E q p ⊎ (Was I E q p → ⊥)
  Was-cases q p = elim (Option-cases q.running_task) [
    | inl e ↦ inr (λ (t, k, w). absurd (ground (arith, e, k)))
    | inr (t, e) ↦ elim (Bool-cases (p == t.work)) [
      | inl b ↦ inl (t, e, ground (arith, b))
      | inr b ↦ inr (λ (u, k, w).
          let d : t ≡ u = some-injective t u (sym e ∙ k) in
          absurd (ground (arith, b, w, ap (λ x. x.work) d)))
    ]
  ]
