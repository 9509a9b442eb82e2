-- ===== src/Sched/RunQueue/Next.antt =====
-- src/sched/runqueue/mod.rs: the last stage of `schedule`: a task that stays, or a search.
use moss.Common.{
  ℕ, ◌+◌, ◌-◌, ◌≤◌, ◌≡◌, ◌⊎◌, inl, inr, refl, sym, ap, none, some, List, [], ◌++◌, All, arith,
  Option-cases,
}
use mathlib.Core.Path.{subst}
use mathlib.Core.List.{append-nil}
use moss.Sched.BinaryHeap.{BinaryHeap, sum}
use moss.Sched.RunnableTask.{RunnableTask, weight}
use moss.Sched.RunQueue.{by_eligible, by_deadline, Search, Left, find_next_task, next_or_find}
use moss.Sched.RunQueue.Loops.{waiting}
use moss.Sched.RunQueue.Choice.{sum?, IsDone}
use moss.Sched.RunQueue.Find.{Chosen, find_next_task-Found}

module _ (I : BinaryHeap RunnableTask by_eligible) (E : BinaryHeap RunnableTask by_deadline) where
  -- The search for the next task, which looks at the queue if the task that ran so far does not stay.
  pub record Settled (l : Left I E) (s : Search I E) : Type 0 where
    pub new : List RunnableTask
    pub deferred_eq : s.deferred ≡ l.deferred ++ new
    pub finished : All (IsDone l.works) new
    pub kept :
        (f : RunnableTask → ℕ)
        → sum? f s.found + waiting I E f s.queue + sum f new ≡ sum? f l.next + waiting I E f l.queue
    pub total : s.queue.total_weight ≡ l.queue.total_weight - sum weight new
    pub clock : l.queue.v_clock.clk ≤ s.queue.v_clock.clk
    pub vacant : s.queue.running_task ≡ l.queue.running_task
    pub idle_eq : s.queue.idle ≡ l.queue.idle
    pub chosen :
        ((t : RunnableTask) × (l.next ≡ some t) × (s.found ≡ some t))
        ⊎ Chosen I E l.works s.found s.queue

  stay-Settled :
      (l : Left I E) (t : RunnableTask) → l.next ≡ some t → Settled l (next_or_find I E l)
  unfolding next_or_find
  stay-Settled l t e =
      let s : Search I E = record { found = some t; queue = l.queue; deferred = l.deferred } in
      let k : next_or_find I E l ≡ s = simp (e, next_or_find) refl in
      subst (Settled l) (sym k) (record {
        new = [];
        deferred_eq = sym (append-nil l.deferred);
        finished = tt;
        kept = λ f. rw e (omega arith);
        total = omega arith;
        clock = omega arith;
        vacant = refl;
        idle_eq = refl;
        chosen = inl (t, e, refl);
      })

  find-Settled : (l : Left I E) → l.next ≡ none → Settled l (next_or_find I E l)
  unfolding next_or_find
  find-Settled l e =
      let s = find_next_task I E l.works l.queue l.deferred in
      let f = find_next_task-Found I E l.works l.queue l.deferred in
      let k : next_or_find I E l ≡ s = simp (e, next_or_find) refl in
      subst (Settled l) (sym k) (record {
        new = f.ran.new;
        deferred_eq = f.ran.deferred_eq;
        finished = f.ran.finished;
        kept = λ g. rw e (omega (arith, f.ran.kept g));
        total = f.ran.total;
        clock = f.ran.clock;
        vacant = ap (λ x. x.running_task) f.ran.same;
        idle_eq = ap (λ x. x.idle) f.ran.same;
        chosen = inr f.chosen;
      })

  pub next_or_find-Settled : (l : Left I E) → Settled l (next_or_find I E l)
  next_or_find-Settled l = elim (Option-cases l.next) [
    | inl e ↦ find-Settled l e
    | inr (t, e) ↦ stay-Settled l t e
  ]
