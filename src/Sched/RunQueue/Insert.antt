-- ===== src/Sched/RunQueue/Insert.antt =====
-- src/sched/runqueue/mod.rs: `enqueue` and `add_work`.
use moss.Common.{
  ℕ, ◌+◌, ◌≡◌, ◌≢◌, inl, inr, refl, ap, ◌∙◌, true, false, none, some, arith, Bool-cases, done, ◌==◌,
}
use moss.Mem.Frames.Sound.{Runs}
use moss.Sched.Time.{saturating_add}
use moss.Sched.BinaryHeap.{BinaryHeap}
use moss.Sched.RunnableTask.{
  SchedulerData, Work, RunnableTask, Works, put_work, into_runnable, weight,
  inserting_into_runqueue, refresh_priority,
}
use moss.Sched.RunQueue.{
  by_eligible, by_deadline, is_task_eligible, RunQueue, place, enqueue, add_work,
}
use moss.Sched.RunQueue.Loops.{waiting}

-- A number for each `Work` as a measure of the tasks on a queue.
abbrev pub by_work : (ℕ → ℕ) → RunnableTask → ℕ
by_work g t = g t.work

-- The task that `into_runnable` answers.
abbrev pub runnable_of : ℕ → Works → SchedulerData → RunnableTask
runnable_of p ws sd = record { work = p; sched_data = record sd { priority = (ws p).priority } }

pub into_runnable-done :
    (p : ℕ) (ws : Works) (sd : SchedulerData)
    → (ws p).sched_data ≡ some sd
    → into_runnable p ws
      ≡ done (runnable_of p ws sd, put_work p (record (ws p) { sched_data = none }) ws)
unfolding into_runnable
into_runnable-done p ws sd e = simp (e, into_runnable) refl

pub put_work-at : (p : ℕ) (w : Work) (ws : Works) → put_work p w ws p ≡ w
unfolding put_work
put_work-at p w ws = let e : (p == p) ≡ true = ground arith in simp (e, put_work) refl

pub put_work-other : (p q : ℕ) (w : Work) (ws : Works) → q ≢ p → put_work p w ws q ≡ ws q
unfolding put_work
put_work-other p q w ws n = let e : (q == p) ≡ false = ground arith in simp (e, put_work) refl

module _ (I : BinaryHeap RunnableTask by_eligible) (E : BinaryHeap RunnableTask by_deadline) where
  pub waiting-place :
      (f : RunnableTask → ℕ) (t : RunnableTask) (q : RunQueue I E)
      → waiting I E f (place I E t q) ≡ f t + waiting I E f q
  unfolding place
  waiting-place f t q = elim (Bool-cases (is_task_eligible t q.v_clock)) [
    | inl e ↦ rw (e, place) (omega (arith, E.sum-push f t q.eligible))
    | inr e ↦ rw (e, place) (omega (arith, I.sum-push f t q.ineligible))
  ]

  pub place-same :
      (t : RunnableTask) (q : RunQueue I E)
      → place I E t q ≡ record q {
        total_weight = (place I E t q).total_weight;
        ineligible = (place I E t q).ineligible;
        eligible = (place I E t q).eligible;
      }
  unfolding place
  place-same t q = elim (Bool-cases (is_task_eligible t q.v_clock)) [
    | inl e ↦ simp (e, place) refl
    | inr e ↦ simp (e, place) refl
  ]

  pub waiting-enqueue :
      (g : ℕ → ℕ) (t : RunnableTask) (ws : Works) (q : RunQueue I E)
      → waiting I E (by_work g) (enqueue I E t ws q).1 ≡ g t.work + waiting I E (by_work g) q
  unfolding enqueue refresh_priority
  waiting-enqueue g t ws q = waiting-place (by_work g) _ q

  -- What `add_work` does to the queue.
  pub record Inserted (p : ℕ) (ws : Works) (q : RunQueue I E) (r : Works × RunQueue I E)
      : Type 0 where
    pub others : (x : ℕ) → x ≢ p → (r.0 x).state ≡ (ws x).state
    pub kept : (g : ℕ → ℕ) → waiting I E (by_work g) r.1 ≡ g p + waiting I E (by_work g) q
    pub same : r.1 ≡ record q {
      total_weight = r.1.total_weight;
      ineligible = r.1.ineligible;
      eligible = r.1.eligible;
    }

  -- what `add_work` answers, once it has the task
  abbrev pub weighed : RunnableTask → RunQueue I E → RunQueue I E
  weighed t q = record q {
    total_weight = saturating_add q.total_weight (weight (inserting_into_runqueue q.v_clock.clk t));
  }

  abbrev pub added : RunnableTask × Works → RunQueue I E → Works × RunQueue I E
  added r q = enqueue I E (inserting_into_runqueue q.v_clock.clk r.0) r.1 (weighed r.0 q)

  pub add_work-done :
      (p : ℕ) (ws : Works) (q : RunQueue I E) (sd : SchedulerData)
      → (ws p).sched_data ≡ some sd
      → add_work I E p ws q
        ≡ done (added (runnable_of p ws sd, put_work p (record (ws p) { sched_data = none }) ws) q)
  unfolding add_work
  add_work-done p ws q sd e = simp (into_runnable-done p ws sd e, add_work) refl

  added-Inserted :
      (p : ℕ) (ws : Works) (w : Work) (q : RunQueue I E) (sd : SchedulerData)
      → Inserted p ws q (added (runnable_of p ws sd, put_work p w ws) q)
  unfolding enqueue inserting_into_runqueue refresh_priority
  added-Inserted p ws w q sd =
      let ws1 = put_work p w ws in
      record {
        others = λ x n. ap (λ v. v.state) (put_work-other p x _ ws1 n ∙ put_work-other p x w ws n);
        kept = λ g.
            waiting-enqueue g (inserting_into_runqueue q.v_clock.clk (runnable_of p ws sd)) ws1
              (weighed (runnable_of p ws sd) q);
        same =
            place-same
              (refresh_priority ws1 (inserting_into_runqueue q.v_clock.clk (runnable_of p ws sd)))
              (weighed (runnable_of p ws sd) q);
      }

  -- `add_work` for a work whose scheduler data is in its place.
  pub add_work-Inserted :
      (p : ℕ) (ws : Works) (q : RunQueue I E) (sd : SchedulerData)
      → (ws p).sched_data ≡ some sd
      → Runs (Inserted p ws q) (add_work I E p ws q)
  add_work-Inserted p ws q sd e = (_, add_work-done p ws q sd e, added-Inserted p ws _ q sd)
