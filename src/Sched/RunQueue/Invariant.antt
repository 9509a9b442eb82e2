-- ===== src/Sched/RunQueue/Invariant.antt =====
-- src/sched/runqueue/mod.rs: `schedule` keeps `total_weight` the sum of the weights.
use moss.Common.{
  ℤ, ℕ, ◌+◌, ◌<◌, ◌≡◌, ◌≢◌, inl, inr, refl, sym, ap, ◌∙◌, Bool, Option, none, some, [], ◌∷◌, arith,
  Bool-cases, Option-cases, done, panicked, if◌then◌else◌, usize_mod,
}
use mathlib.Core.Path.{subst}
use moss.Mem.Frames.Sound.{Runs}
use moss.Sched.RunQueue.Total.{Steady-state, leave_runnable-Level, add_work-Counts}
use moss.Sched.RunQueue.Stages.{opened, advance-Runs, schedule-idle, schedule-running}
use moss.Sched.RunQueue.Next.{Settled, next_or_find-Settled}
use moss.Sched.RunQueue.Leave.{dropped_data, leave_current-Parted}
use moss.Sched.RunQueue.Balance.{Steady, stale, Steady-put, Counts, Level, fresh_weight}
use moss.Sched.TaskStates.{TaskState}
use moss.Sched.Time.{u128_mod, VClock, advance, Instant}
use moss.Sched.BinaryHeap.{BinaryHeap}
use moss.Sched.RunnableTask.{
  RunnableTask, Works, store_state, drop, weight, weight_at, about_to_execute,
}
use moss.Sched.RunQueue.{
  by_eligible, by_deadline, RunQueue, Wakers, finalize_from, Left, leaves_cpu, without, deactivate,
  leave_current,
}
use moss.Sched.RunQueue.{Search, Scheduled, run_next, is_other, next_or_find, conclude, schedule}

done-injective : {A : Type 0} {a b : A} → done a ≡ done b → a ≡ b
done-injective {a = a} h = ap (λ m. elim m [ done x ↦ x | panicked ↦ a ]) h

module _ (pr : ℕ → ℤ) (I : BinaryHeap RunnableTask by_eligible)
    (E : BinaryHeap RunnableTask by_deadline) where
  without-Counts :
      (t : RunnableTask) (q : RunQueue I E)
      → Counts pr I E (some t) q
      → Counts pr I E none (without I E t q)
  without-Counts t q c = record {
    total = omega (arith, c.total);
    fresh = omega (arith, c.fresh);
    fits = omega (arith, c.fits);
  }

  deactivate-Level :
      (w : Wakers) (cpu : ℕ) (t : RunnableTask) (ws : Works) (q : RunQueue I E)
      → Steady pr ws
      → Counts pr I E (some t) q
      → Runs (Level pr I E) (deactivate I E w cpu t ws q)
  unfolding deactivate drop
  deactivate-Level w cpu t ws q s c =
      let t' = leaves_cpu cpu t in
      let ws1 = drop t' ws in
      let r = finalize_from w.between (w.before (ws1 t.work).state) in
      let ws2 = store_state t.work r.1 ws1 in
      let s2 = Steady-state pr I E t.work r.1 ws1 (Steady-put pr t.work _ ws (s t.work) s) in
      let q1 = without I E t q in
      let c1 = without-Counts t q c in
      elim (Bool-cases r.0) [
        | inl e ↦ (
          record { works = ws2; queue = q1; next = none; deferred = [] },
          simp (e, deactivate) refl,
          record { steady = s2; counts = c1 },
        )
        | inr e ↦
            let f = fresh_weight pr I E t (omega (arith, c.fresh)) in
            let b : q1.total_weight + weight_at (pr t.work) < usize_mod =
              omega (arith, c.total, c.fits, f) in
            let (a, d, (s3, c3)) =
              add_work-Counts pr I E t.work ws2 q1 _ (dropped_data I E t' r.1 ws) s2 b c1 in
            (
              record { works = a.0; queue = a.1; next = none; deferred = [] },
              simp (e, d, deactivate) refl,
              record { steady = s3; counts = c3 },
            )
      ]

  dropping-Level :
      (t : RunnableTask) (ws : Works) (q : RunQueue I E)
      → Steady pr ws
      → Counts pr I E (some t) q
      → Runs
          (Level pr I E)
          (done (record { works = ws; queue = without I E t q; next = none; deferred = t ∷ [] }))
  dropping-Level t ws q s c = (_, refl, record { steady = s; counts = without-Counts t q c })

  leave_current-Level :
      (s : TaskState) (w : Wakers) (cpu : ℕ) (yielding : Bool) (now : Instant) (t : RunnableTask)
      (ws : Works) (q : RunQueue I E)
      → now.freq ≢ 0
      → Steady pr ws
      → Counts pr I E (some t) q
      → Runs (Level pr I E) (leave_current I E s w cpu yielding now t ws q)
  unfolding leave_current
  leave_current-Level TaskState.running w cpu yielding now t ws q h =
      leave_runnable-Level pr I E yielding now t ws q h
  leave_current-Level TaskState.woken w cpu yielding now t ws q h =
      leave_runnable-Level pr I E yielding now t ws q h
  leave_current-Level TaskState.pending_sleep w cpu yielding now t ws q h =
      deactivate-Level w cpu t ws q
  leave_current-Level TaskState.pending_stop w cpu yielding now t ws q h =
      deactivate-Level w cpu t ws q
  leave_current-Level TaskState.runnable w cpu yielding now t ws q h = dropping-Level t ws q
  leave_current-Level TaskState.stopped w cpu yielding now t ws q h = dropping-Level t ws q
  leave_current-Level TaskState.sleeping w cpu yielding now t ws q h = dropping-Level t ws q
  leave_current-Level TaskState.finished w cpu yielding now t ws q h = dropping-Level t ws q

  -- `total_weight` counts the tasks that wait and the one that runs, each with the weight that the priority of
  -- its work gives.
  abbrev pub IsBalanced : Works → RunQueue I E → Type 0
  IsBalanced ws q = Steady pr ws × Counts pr I E q.running_task q

  abbrev pub Balanced : Scheduled I E → Type 0
  Balanced s = IsBalanced s.works s.queue

  Settled-Counts :
      (l : Left I E) (s : Search I E)
      → Settled I E l s
      → Level pr I E l
      → Counts pr I E s.found s.queue
  Settled-Counts l s n v = record {
    total = omega (arith, n.total, n.kept weight, v.counts.total);
    fresh = omega (arith, n.kept (stale pr), v.counts.fresh);
    fits = omega (arith, n.total, v.counts.fits);
  }

  run_next-IsBalanced :
      (now : Instant) (prev : Option ℕ) (ws : Works) (s : Search I E)
      → s.queue.running_task ≡ none
      → Steady pr ws
      → Counts pr I E s.found s.queue
      → Balanced (run_next I E now prev ws s)
  unfolding run_next about_to_execute
  run_next-IsBalanced now prev ws s v st c = elim (Option-cases s.found) [
    | inl e ↦
        let r : Scheduled I E = record {
          works = ws;
          queue = s.queue;
          deferred = s.deferred;
          switched_to = some s.queue.idle;
        } in
        let k : run_next I E now prev ws s ≡ r = simp (e, run_next) refl in
        subst Balanced (sym k) (st, subst (λ x. Counts pr I E x s.queue) (e ∙ sym v) c)
    | inr (t, e) ↦
        let t' = about_to_execute now t in
        let r : Scheduled I E = record {
          works = store_state t.work TaskState.running ws;
          queue = record s.queue { running_task = some t' };
          deferred = s.deferred;
          switched_to = if is_other I E prev t then some t' else none;
        } in
        let k : run_next I E now prev ws s ≡ r = simp (e, run_next) refl in
        let c1 = subst (λ x. Counts pr I E x s.queue) e c in
        subst Balanced (sym k) (
          Steady-state pr I E t.work _ ws st,
          record { total = c1.total; fresh = c1.fresh; fits = c1.fits },
        )
  ]

  conclude-IsBalanced :
      (now : Instant) (prev : Option ℕ) (l : Left I E)
      → l.queue.running_task ≡ none
      → Level pr I E l
      → Balanced (conclude I E now prev l)
  conclude-IsBalanced now prev l v k =
      let n = next_or_find-Settled I E l in
      let s = next_or_find I E l in
      run_next-IsBalanced now prev l.works s (n.vacant ∙ v) k.steady (Settled-Counts l s n k)

  running-IsBalanced :
      (w : Wakers) (cpu : ℕ) (now : Instant) (ws : Works) (q : RunQueue I E) (c : VClock)
      (t : RunnableTask)
      → now.freq ≢ 0
      → advance now q.total_weight q.v_clock ≡ done c
      → q.running_task ≡ some t
      → Steady pr ws
      → Counts pr I E (some t) q
      → Runs Balanced (schedule I E w cpu now ws q)
  running-IsBalanced w cpu now ws q c t n a e s k =
      let q1 = opened I E c q in
      let k1 : Counts pr I E (some t) q1 = record {
        total = k.total;
        fresh = k.fresh;
        fits = k.fits;
      } in
      let (l, d, p) =
        leave_current-Parted I E (ws t.work).state w cpu q.yield_requested now t ws q1 n in
      let (l', d', v) =
        leave_current-Level (ws t.work).state w cpu q.yield_requested now t ws q1 n s k1 in
      let same : l' ≡ l = done-injective (sym d' ∙ d) in
      (
        conclude I E now (some t.work) l,
        schedule-running I E w cpu now ws q c t l a e d,
        conclude-IsBalanced now (some t.work) l (ap (λ x. x.running_task) p.same)
            (subst (Level pr I E) same v),
      )

  -- The invariant that the code documents: if `total_weight` is the sum of the weights of the tasks that run or
  -- wait, each of them weighs what the priority of its work gives, and the sum fits 64 bits, then, where the
  -- frequency of the timer is not zero and the virtual clock is below 2 ^ 128, `schedule` does not panic and all
  -- this holds again afterwards, for any way in which wakers interfere.
  pub schedule-IsBalanced :
      (w : Wakers) (cpu : ℕ) (now : Instant) (ws : Works) (q : RunQueue I E)
      → now.freq ≢ 0
      → q.v_clock.clk < u128_mod
      → IsBalanced ws q
      → Runs Balanced (schedule I E w cpu now ws q)
  schedule-IsBalanced w cpu now ws q n h (s, k) =
      let (c, a, _) = advance-Runs now q.total_weight q.v_clock n h in
      elim (Option-cases q.running_task) [
        | inr (t, e) ↦
            running-IsBalanced w cpu now ws q c t n a e s (subst (λ x. Counts pr I E x q) e k)
        | inl e ↦
            let l : Left I E = record {
              works = ws;
              queue = opened I E c q;
              next = none;
              deferred = [];
            } in
            let k1 = subst (λ x. Counts pr I E x q) e k in
            (
              conclude I E now none l,
              schedule-idle I E w cpu now ws q c a e,
              conclude-IsBalanced now none l refl (record {
                steady = s;
                counts = record { total = k1.total; fresh = k1.fresh; fits = k1.fits };
              }),
            )
      ]
