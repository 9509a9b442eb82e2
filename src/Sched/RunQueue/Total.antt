-- ===== src/Sched/RunQueue/Total.antt =====
-- src/sched/runqueue/mod.rs: `add_work` and `schedule` keep `total_weight` the sum of the weights.
use moss.Common.{
  ℤ, ℕ, ◌+◌, ◌<◌, ◌≡◌, ◌≢◌, inl, inr, refl, sym, ap, ◌∙◌, Bool, true, false, none, some, arith,
  Bool-cases, if◌then◌else◌, leb, usize_mod,
}
use moss.Mem.Frames.Sound.{Runs}
use moss.Sched.RunQueue.Leave.{tick-Runs, tick_by-work, yields_work}
use moss.Sched.RunQueue.Balance.{
  Steady, Steady-put, Counts, Level, fresh_weight, weight_fresh, enqueue-Counts,
}
use moss.Sched.TaskStates.{TaskState}
use moss.Sched.Time.{Instant, saturating_add}
use moss.Sched.BinaryHeap.{BinaryHeap}
use moss.Sched.RunnableTask.{
  SchedulerData, RunnableTask, Works, put_work, store_state, weight, weight_at, yield_slice,
  tick_by, charge, check_deadline, inserting_into_runqueue,
}
use moss.Sched.RunQueue.{
  by_eligible, by_deadline, RunQueue, enqueue, add_work, keep_or_requeue, leave_runnable,
}
use moss.Sched.RunQueue.Insert.{weighed, added, runnable_of, add_work-done}

module _ (pr : ℕ → ℤ) (I : BinaryHeap RunnableTask by_eligible)
    (E : BinaryHeap RunnableTask by_deadline) where
  pub Steady-state :
      (p : ℕ) (s : TaskState) (ws : Works) → Steady pr ws → Steady pr (store_state p s ws)
  Steady-state p s ws h = Steady-put pr p _ ws (h p) h

  -- The same task with other data, but for its weight.
  Counts-same :
      (t u : RunnableTask) (q : RunQueue I E)
      → weight u ≡ weight t
      → u.work ≡ t.work
      → Counts pr I E (some t) q
      → Counts pr I E (some u) q
  Counts-same t u q e w c =
      let f = fresh_weight pr I E t (omega (arith, c.fresh)) in
      let z = weight_fresh pr I E u (e ∙ f ∙ ap (λ x. weight_at (pr x)) (sym w)) in
      record { total = omega (arith, c.total, e); fresh = omega (arith, c.fresh, z); fits = c.fits }

  keep_or_requeue-Level :
      (b : Bool) (u : RunnableTask) (ws : Works) (q : RunQueue I E)
      → Steady pr ws
      → Counts pr I E (some u) q
      → Level pr I E (keep_or_requeue I E (b, u) ws q)
  unfolding keep_or_requeue enqueue
  keep_or_requeue-Level true u ws q s c = record {
    steady = Steady-state u.work _ ws s;
    counts = enqueue-Counts pr I E u ws q s (omega (arith, c.fresh)) c;
  }
  keep_or_requeue-Level false u ws q s c = record { steady = s; counts = c }

  yields_weight : (b : Bool) (t : RunnableTask) → weight (if b then yield_slice t else t) ≡ weight t
  yields_weight true t = refl
  yields_weight false t = refl

  check_deadline-weight : (t : RunnableTask) → weight (check_deadline t).1 ≡ weight t
  unfolding check_deadline
  check_deadline-weight t =
      elim (Bool-cases (leb t.sched_data.v_deadline t.sched_data.v_eligible)) [
        | inl e ↦ simp (e, check_deadline) refl
        | inr e ↦ simp (e, check_deadline) refl
      ]

  tick_by-weight :
      (dv : ℕ) (now : Instant) (t : RunnableTask) → weight (tick_by dv now t).1 ≡ weight t
  unfolding charge
  tick_by-weight dv now t = check_deadline-weight (charge dv now t)

  pub leave_runnable-Level :
      (yielding : Bool) (now : Instant) (t : RunnableTask) (ws : Works) (q : RunQueue I E)
      → now.freq ≢ 0
      → Steady pr ws
      → Counts pr I E (some t) q
      → Runs (Level pr I E) (leave_runnable I E yielding now t ws q)
  unfolding leave_runnable
  leave_runnable-Level yielding now t ws q h s c =
      let t' = if yielding then yield_slice t else t in
      let (r, e, (dv, k)) = tick-Runs now t' h in
      let w = ap (λ x. weight x.1) k ∙ tick_by-weight dv now t' ∙ yields_weight yielding t in
      let x = ap (λ x. x.1.work) k ∙ tick_by-work dv now t' ∙ yields_work yielding t in
      (
        keep_or_requeue I E r ws q,
        simp (e, leave_runnable) refl,
        keep_or_requeue-Level r.0 r.1 ws q s (Counts-same t r.1 q w x c),
      )

  weighed-Counts :
      (p : ℕ) (ws : Works) (q : RunQueue I E) (sd : SchedulerData)
      → Steady pr ws
      → q.total_weight + weight_at (pr p) < usize_mod
      → Counts pr I E none q
      → Counts pr I E
          (some (inserting_into_runqueue q.v_clock.clk (runnable_of p ws sd)))
          (weighed I E (runnable_of p ws sd) q)
  unfolding inserting_into_runqueue saturating_add
  weighed-Counts p ws q sd s b c =
      let t = inserting_into_runqueue q.v_clock.clk (runnable_of p ws sd) in
      let e : weight t ≡ weight_at (pr p) = ap weight_at (s p) in
      let z = weight_fresh pr I E t e in
      record {
        total = ground (arith, c.total, e, b);
        fresh = omega (arith, z, c.fresh);
        fits = ground (arith, e, b);
      }

  -- `add_work` of a work that is not on a queue.
  pub add_work-Counts :
      (p : ℕ) (ws : Works) (q : RunQueue I E) (sd : SchedulerData)
      → (ws p).sched_data ≡ some sd
      → Steady pr ws
      → q.total_weight + weight_at (pr p) < usize_mod
      → Counts pr I E none q
      → Runs (λ r. Steady pr r.0 × Counts pr I E none r.1) (add_work I E p ws q)
  unfolding enqueue inserting_into_runqueue
  add_work-Counts p ws q sd e s b c =
      let ws1 = put_work p (record (ws p) { sched_data = none }) ws in
      let t = inserting_into_runqueue q.v_clock.clk (runnable_of p ws sd) in
      let s1 = Steady-put pr p _ ws (s p) s in
      let k = weighed-Counts p ws q sd s b c in
      (
        added I E (runnable_of p ws sd, ws1) q,
        add_work-done I E p ws q sd e,
        (
          Steady-state p _ ws1 s1,
          enqueue-Counts pr I E t ws1 (weighed I E (runnable_of p ws sd) q) s1
              (omega (arith, k.fresh)) k,
        ),
      )
