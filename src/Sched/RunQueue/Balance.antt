-- ===== src/Sched/RunQueue/Balance.antt =====
-- src/sched/runqueue/mod.rs: `total_weight` is the sum of the weights of the tasks of a run queue, as the comment on
-- `RunQueue` says: the part of `schedule` about the task that ran so far.
use moss.Common.{
  ℤ, ℕ, ◌+◌, ◌<◌, ◌≡◌, inl, inr, refl, sym, ap, ◌∙◌, true, Option, none, some, arith, Bool-cases,
  ◌==◌, usize_mod,
}
use moss.Sched.BinaryHeap.Sums.{outside}
use moss.Sched.BinaryHeap.{BinaryHeap}
use moss.Sched.RunnableTask.{
  Work, RunnableTask, Works, put_work, weight, weight_at, refresh_priority,
}
use moss.Sched.RunQueue.{by_eligible, by_deadline, is_task_eligible, RunQueue, place, enqueue, Left}
use moss.Sched.RunQueue.Loops.{waiting}
use moss.Sched.RunQueue.Insert.{waiting-place}
use moss.Sched.RunQueue.Choice.{sum?}

-- The priorities of the works are as `pr` says.
abbrev pub Steady : (ℕ → ℤ) → Works → Type 0
Steady pr ws = (p : ℕ) → (ws p).priority ≡ pr p

-- 1 for a task whose data has not the weight of its work's priority
abbrev pub stale : (ℕ → ℤ) → RunnableTask → ℕ
stale pr t = outside (λ u. weight u == weight_at (pr u.work)) t

module _ (pr : ℕ → ℤ) where
  pub Steady-put :
      (p : ℕ) (w : Work) (ws : Works)
      → w.priority ≡ pr p
      → Steady pr ws
      → Steady pr (put_work p w ws)
  unfolding put_work
  Steady-put p w ws e h x = elim (Bool-cases (x == p)) [
    | inl b ↦ rw (b, put_work) (e ∙ ap pr (sym (ground (arith, b))))
    | inr b ↦ rw (b, put_work) (h x)
  ]

module _ (pr : ℕ → ℤ) (I : BinaryHeap RunnableTask by_eligible)
    (E : BinaryHeap RunnableTask by_deadline) where
  -- `total_weight` counts the tasks that wait and `t`, none of which has another weight than its work's.
  pub record Counts (t : Option RunnableTask) (q : RunQueue I E) : Type 0 where
    pub total : q.total_weight ≡ sum? weight t + waiting I E weight q
    pub fresh : sum? (stale pr) t + waiting I E (stale pr) q ≡ 0
    pub fits : q.total_weight < usize_mod

  -- ... before the last stage of `schedule`
  pub record Level (l : Left I E) : Type 0 where
    pub steady : Steady pr l.works
    pub counts : Counts l.next l.queue

  place-total :
      (t : RunnableTask) (q : RunQueue I E) → (place I E t q).total_weight ≡ q.total_weight
  unfolding place
  place-total t q = elim (Bool-cases (is_task_eligible t q.v_clock)) [
    | inl e ↦ simp (e, place) refl
    | inr e ↦ simp (e, place) refl
  ]

  pub fresh_weight : (t : RunnableTask) → stale pr t ≡ 0 → weight t ≡ weight_at (pr t.work)
  fresh_weight t h = elim (Bool-cases (weight t == weight_at (pr t.work))) [
    | inl e ↦ ground (arith, e)
    | inr e ↦ absurd (let k : stale pr t ≡ 1 = rw (e, outside) refl in omega (arith, h, k))
  ]

  pub weight_fresh : (t : RunnableTask) → weight t ≡ weight_at (pr t.work) → stale pr t ≡ 0
  weight_fresh t h =
      let e : (weight t == weight_at (pr t.work)) ≡ true = ground (arith, h) in rw (e, outside) refl

  refreshed-weight :
      (ws : Works) (t : RunnableTask)
      → Steady pr ws
      → weight (refresh_priority ws t) ≡ weight_at (pr t.work)
  unfolding refresh_priority
  refreshed-weight ws t h = ap weight_at (h t.work)

  -- A task that is put on a queue that has counted it.
  pub enqueue-Counts :
      (t : RunnableTask) (ws : Works) (q : RunQueue I E)
      → Steady pr ws
      → stale pr t ≡ 0
      → Counts (some t) q
      → Counts none (enqueue I E t ws q).1
  unfolding enqueue refresh_priority
  enqueue-Counts t ws q s f c =
      let u = refresh_priority ws t in
      let w : weight u ≡ weight t = refreshed-weight ws t s ∙ sym (fresh_weight t f) in
      let z : stale pr u ≡ 0 = weight_fresh u (refreshed-weight ws t s) in
      record {
        total = omega (arith, place-total u q, c.total, w, waiting-place I E weight u q);
        fresh = omega (arith, c.fresh, z, waiting-place I E (stale pr) u q);
        fits = omega (arith, place-total u q, c.fits);
      }
