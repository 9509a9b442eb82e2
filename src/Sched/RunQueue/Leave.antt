-- ===== src/Sched/RunQueue/Leave.antt =====
-- src/sched/runqueue/mod.rs: the part of `schedule` about the task that ran so far.
use moss.Common.{
  ℕ, ◌+◌, ◌<◌, ◌≡◌, ◌≢◌, inl, inr, refl, sym, ap, ◌∙◌, Bool, true, false, Option, none, some, [],
  ◌∷◌, All, arith, Bool-cases, Option-cases, done, ◌==◌, if◌then◌else◌, leb,
}
use mathlib.Core.Path.{subst}
use mathlib.Core.Option.{some-injective}
use moss.Mem.Frames.Sound.{Runs}
use moss.Sched.TaskStates.{TaskState, finalize_deactivation}
use moss.Sched.Time.{Duration, Instant, elapsed, sub, as_nanos, virtual_time}
use moss.Sched.BinaryHeap.{BinaryHeap, sum}
use moss.Sched.RunnableTask.{
  RunnableTask, Works, store_state, drop, weight, yield_slice, tick, tick_by, charge,
  check_deadline, refresh_priority,
}
use moss.Sched.RunQueue.{
  by_eligible, by_deadline, RunQueue, Wakers, finalize_from, enqueue, Left, keep_or_requeue,
  leave_runnable, leaves_cpu, without, deactivate, leave_current,
}
use moss.Sched.RunQueue.Loops.{waiting}
use moss.Sched.RunQueue.Insert.{
  by_work, put_work-at, put_work-other, place-same, waiting-enqueue, add_work-Inserted,
}
use moss.Sched.RunQueue.Choice.{sum?}

abbrev pub off_measure : (ℕ → ℕ) → Option ℕ → ℕ
off_measure g none = 0
off_measure g (some p) = g p

abbrev pub is_pending : TaskState → Bool
is_pending TaskState.pending_sleep = true
is_pending TaskState.pending_stop = true
is_pending _ = false

abbrev pub is_off : TaskState → Bool
is_off TaskState.sleeping = true
is_off TaskState.stopped = true
is_off _ = false

-- No other processor changes the state while the task is taken off.
abbrev pub IsLeftAlone : Wakers → TaskState → Type 0
IsLeftAlone w s = (w.before s ≡ s) × (w.between s ≡ s)

finalize_from-undisturbed :
    (between : TaskState → TaskState) (s : TaskState)
    → is_pending s ≡ true
    → between s ≡ s
    → (finalize_from between s).0 ≡ true
unfolding finalize_from finalize_deactivation
finalize_from-undisturbed between TaskState.pending_sleep h b = ground arith
finalize_from-undisturbed between TaskState.pending_stop h b = ground arith
finalize_from-undisturbed between TaskState.running h b = absurd (ground arith)
finalize_from-undisturbed between TaskState.runnable h b = absurd (ground arith)
finalize_from-undisturbed between TaskState.woken h b = absurd (ground arith)
finalize_from-undisturbed between TaskState.stopped h b = absurd (ground arith)
finalize_from-undisturbed between TaskState.sleeping h b = absurd (ground arith)
finalize_from-undisturbed between TaskState.finished h b = absurd (ground arith)

pub finalize_from-off :
    (between : TaskState → TaskState) (s : TaskState)
    → (finalize_from between s).0 ≡ true
    → is_off (finalize_from between s).1 ≡ true
unfolding finalize_from finalize_deactivation
finalize_from-off between TaskState.pending_sleep h = ground arith
finalize_from-off between TaskState.pending_stop h = ground arith
finalize_from-off between TaskState.running h = absurd (ground arith)
finalize_from-off between TaskState.runnable h = absurd (ground arith)
finalize_from-off between TaskState.woken h = absurd (ground arith)
finalize_from-off between TaskState.stopped h = absurd (ground arith)
finalize_from-off between TaskState.sleeping h = absurd (ground arith)
finalize_from-off between TaskState.finished h = absurd (ground arith)

stored_off :
    (p q : ℕ) (s : TaskState) (ws : Works)
    → some p ≡ some q
    → is_off s ≡ true
    → (q ≡ p) × (is_off (store_state p s ws q).state ≡ true)
stored_off p q s ws h b =
    let e : p ≡ q = ground (arith, h) in
    (
      sym e,
      subst (λ x. is_off (store_state p s ws x).state ≡ true) e
          (ap (λ w. is_off w.state) (put_work-at p _ ws) ∙ b),
    )

pub sub-Runs : (a b : Instant) → a.freq ≢ 0 → (d : Duration) × (sub a b ≡ done d)
unfolding sub
sub-Runs a b h = let e : (a.freq == 0) ≡ false = ground arith in (elapsed a b, simp (e, sub) refl)

-- `tick` answers `tick_by` for some virtual time.
pub tick-Runs :
    (now : Instant) (t : RunnableTask)
    → now.freq ≢ 0
    → Runs (λ r. (dv : ℕ) × (r ≡ tick_by dv now t)) (tick now t)
unfolding tick
tick-Runs now t h = elim (Option-cases t.sched_data.exec_start) [
  | inl e ↦ (tick_by 0 now t, simp (e, tick) refl, (0, refl))
  | inr (start, e) ↦
      let (d, k) = sub-Runs now start h in
      let dv = virtual_time (as_nanos d) (weight t) in
      (tick_by dv now t, simp (e, k, tick) refl, (dv, refl))
]

check_deadline-work : (t : RunnableTask) → (check_deadline t).1.work ≡ t.work
unfolding check_deadline
check_deadline-work t = elim (Bool-cases (leb t.sched_data.v_deadline t.sched_data.v_eligible)) [
  | inl e ↦ simp (e, check_deadline) refl
  | inr e ↦ simp (e, check_deadline) refl
]

pub tick_by-work : (dv : ℕ) (now : Instant) (t : RunnableTask) → (tick_by dv now t).1.work ≡ t.work
unfolding charge
tick_by-work dv now t = check_deadline-work (charge dv now t)

pub yields_work : (b : Bool) (t : RunnableTask) → (if b then yield_slice t else t).work ≡ t.work
yields_work true t = refl
yields_work false t = refl

-- A task that `tick` leaves on the processor has used less than its slice.
abbrev HasBudget : Bool → RunnableTask → Type 0
HasBudget true u = Unit
HasBudget false u = u.sched_data.v_eligible < u.sched_data.v_deadline

check_deadline-HasBudget : (t : RunnableTask) → HasBudget (check_deadline t).0 (check_deadline t).1
unfolding check_deadline
check_deadline-HasBudget t =
    elim (Bool-cases (leb t.sched_data.v_deadline t.sched_data.v_eligible)) [
      | inl e ↦ simp (e, check_deadline) tt
      | inr e ↦ simp (e, check_deadline) (ground (arith, e))
    ]

module _ (I : BinaryHeap RunnableTask by_eligible) (E : BinaryHeap RunnableTask by_deadline) where
  -- What becomes of the tasks of a queue and of the task `t`, which is not in it, where `s` is the state of `t` that was
  -- loaded, and `l` what the code comes to. `off` is the work that goes to sleep or stops.
  pub record Parted (w : Wakers) (s : TaskState) (t : RunnableTask) (ws : Works) (q : RunQueue I E)
      (l : Left I E) : Type 0 where
    pub off : Option ℕ
    pub kept :
        (g : ℕ → ℕ)
        → sum? (by_work g) l.next
            + waiting I E (by_work g) l.queue
            + sum (by_work g) l.deferred
            + off_measure g off
          ≡ g t.work + waiting I E (by_work g) q
    pub off_state :
        (p : ℕ)
        → off ≡ some p
        → (p ≡ t.work) × (is_pending s ≡ true) × (is_off (l.works p).state ≡ true)
    pub undisturbed :
        is_pending s ≡ true → (ws t.work).state ≡ s → IsLeftAlone w s → off ≡ some t.work
    pub others : (p : ℕ) → p ≢ t.work → (l.works p).state ≡ (ws p).state
    pub dropped : All (λ u. u.work ≡ t.work) l.deferred
    pub stays :
        (u : RunnableTask)
        → l.next ≡ some u
        → (u.work ≡ t.work) × (u.sched_data.v_eligible < u.sched_data.v_deadline)
    pub same : l.queue ≡ record q {
      total_weight = l.queue.total_weight;
      ineligible = l.queue.ineligible;
      eligible = l.queue.eligible;
    }

  keep_or_requeue-Parted :
      (w : Wakers) (s : TaskState) (t u : RunnableTask) (b : Bool) (ws : Works) (q : RunQueue I E)
      → is_pending s ≡ false
      → u.work ≡ t.work
      → HasBudget b u
      → Parted w s t ws q (keep_or_requeue I E (b, u) ws q)
  unfolding keep_or_requeue enqueue
  keep_or_requeue-Parted w s t u true ws q pd e h = record {
    off = none;
    kept = λ g. omega (arith, waiting-enqueue I E g u ws q, ap g e);
    off_state = λ p h. absurd (ground (arith, h));
    undisturbed = λ a b c. absurd (ground (arith, a, pd));
    others = λ p n. ap (λ w. w.state) (put_work-other u.work p _ ws (λ k. n (k ∙ e)));
    dropped = tt;
    stays = λ v k. absurd (ground (arith, k));
    same = place-same I E (refresh_priority ws u) q;
  }
  keep_or_requeue-Parted w s t u false ws q pd e h = record {
    off = none;
    kept = λ g. omega (arith, ap g e);
    off_state = λ p h. absurd (ground (arith, h));
    undisturbed = λ a b c. absurd (ground (arith, a, pd));
    others = λ p n. refl;
    dropped = tt;
    stays = λ v k.
        let d : u ≡ v = some-injective u v k in
        subst (λ x. (x.work ≡ t.work) × (x.sched_data.v_eligible < x.sched_data.v_deadline)) d
          (e, h);
    same = refl;
  }

  leave_runnable-Parted :
      (wk : Wakers) (s : TaskState) (yielding : Bool) (now : Instant) (t : RunnableTask)
      (ws : Works) (q : RunQueue I E)
      → is_pending s ≡ false
      → now.freq ≢ 0
      → Runs (Parted wk s t ws q) (leave_runnable I E yielding now t ws q)
  unfolding leave_runnable
  leave_runnable-Parted wk s yielding now t ws q pd h =
      let t' = if yielding then yield_slice t else t in
      let (r, e, (dv, k)) = tick-Runs now t' h in
      let w : r.1.work ≡ t.work =
        ap (λ x. x.1.work) k ∙ tick_by-work dv now t' ∙ yields_work yielding t in
      (
        keep_or_requeue I E r ws q,
        simp (e, leave_runnable) refl,
        keep_or_requeue-Parted wk s t r.1 r.0 ws q pd w
            (subst (λ x. HasBudget x.0 x.1) (sym k) (check_deadline-HasBudget (charge dv now t'))),
      )

  dropping-Parted :
      (w : Wakers) (s : TaskState) (t : RunnableTask) (ws : Works) (q : RunQueue I E)
      → is_pending s ≡ false
      → Runs
          (Parted w s t ws q)
          (done (record { works = ws; queue = without I E t q; next = none; deferred = t ∷ [] }))
  dropping-Parted w s t ws q pd = (
    _,
    refl,
    record {
      off = none;
      kept = λ g. omega arith;
      off_state = λ p h. absurd (ground (arith, h));
      undisturbed = λ a b c. absurd (ground (arith, a, pd));
      others = λ p n. refl;
      dropped = (refl, tt);
      stays = λ v k. absurd (ground (arith, k));
      same = refl;
    },
  )

  -- The task was dropped, and its state stored.
  pub dropped_data :
      (t : RunnableTask) (s : TaskState) (ws : Works)
      → (store_state t.work s (drop t ws) t.work).sched_data ≡ some t.sched_data
  unfolding drop
  dropped_data t s ws =
      ap (λ w. w.sched_data) (put_work-at t.work _ (drop t ws))
      ∙ ap (λ w. w.sched_data) (put_work-at t.work _ ws)

  deactivated_others :
      (t : RunnableTask) (s : TaskState) (ws : Works) (p : ℕ)
      → p ≢ t.work
      → (store_state t.work s (drop t ws) p).state ≡ (ws p).state
  unfolding drop
  deactivated_others t s ws p n =
      ap (λ w. w.state) (put_work-other t.work p _ (drop t ws) n ∙ put_work-other t.work p _ ws n)

  dropped_state : (t : RunnableTask) (ws : Works) → (drop t ws t.work).state ≡ (ws t.work).state
  unfolding drop
  dropped_state t ws = ap (λ w. w.state) (put_work-at t.work _ ws)

  deactivate-Parted :
      (s : TaskState) (w : Wakers) (cpu : ℕ) (t : RunnableTask) (ws : Works) (q : RunQueue I E)
      → is_pending s ≡ true
      → Runs (Parted w s t ws q) (deactivate I E w cpu t ws q)
  unfolding deactivate
  deactivate-Parted s w cpu t ws q pd =
      let t' = leaves_cpu cpu t in
      let ws1 = drop t' ws in
      let r = finalize_from w.between (w.before (ws1 t.work).state) in
      let ws2 = store_state t.work r.1 ws1 in
      elim (Bool-cases r.0) [
        | inl e ↦ (
          record { works = ws2; queue = without I E t q; next = none; deferred = [] },
          simp (e, deactivate) refl,
          record {
            off = some t.work;
            kept = λ g. omega arith;
            off_state = λ p h.
                let k = stored_off t.work p r.1 ws1 h (finalize_from-off w.between _ e) in
                (k.0, pd, k.1);
            undisturbed = λ a b c. refl;
            others = λ p n. deactivated_others t' r.1 ws p n;
            dropped = tt;
            stays = λ v k. absurd (ground (arith, k));
            same = refl;
          },
        )
        | inr e ↦
            let (a, d, i) =
              add_work-Inserted I E t.work ws2 (without I E t q) _ (dropped_data t' r.1 ws) in
            (
              record { works = a.0; queue = a.1; next = none; deferred = [] },
              simp (e, d, deactivate) refl,
              record {
                off = none;
                kept = λ g. omega (arith, i.kept g);
                off_state = λ p h. absurd (ground (arith, h));
                undisturbed = λ a b c. absurd (
                    let k : w.before (ws1 t.work).state ≡ s =
                      ap w.before (dropped_state t' ws ∙ b) ∙ c.0 in
                    let f = ap (λ x. (finalize_from w.between x).0) k in
                    let y : true ≡ false =
                      sym (finalize_from-undisturbed w.between s a c.1) ∙ sym f ∙ e in
                    ground (arith, y));
                others = λ p n. i.others p n ∙ deactivated_others t' r.1 ws p n;
                dropped = tt;
                stays = λ v k. absurd (ground (arith, k));
                same = i.same;
              },
            )
      ]

  pub leave_current-Parted :
      (s : TaskState) (w : Wakers) (cpu : ℕ) (yielding : Bool) (now : Instant) (t : RunnableTask)
      (ws : Works) (q : RunQueue I E)
      → now.freq ≢ 0
      → Runs (Parted w s t ws q) (leave_current I E s w cpu yielding now t ws q)
  unfolding leave_current
  leave_current-Parted TaskState.running w cpu yielding now t ws q h =
      leave_runnable-Parted w _ yielding now t ws q refl h
  leave_current-Parted TaskState.woken w cpu yielding now t ws q h =
      leave_runnable-Parted w _ yielding now t ws q refl h
  leave_current-Parted TaskState.pending_sleep w cpu yielding now t ws q h =
      deactivate-Parted _ w cpu t ws q refl
  leave_current-Parted TaskState.pending_stop w cpu yielding now t ws q h =
      deactivate-Parted _ w cpu t ws q refl
  leave_current-Parted TaskState.runnable w cpu yielding now t ws q h =
      dropping-Parted w _ t ws q refl
  leave_current-Parted TaskState.stopped w cpu yielding now t ws q h =
      dropping-Parted w _ t ws q refl
  leave_current-Parted TaskState.sleeping w cpu yielding now t ws q h =
      dropping-Parted w _ t ws q refl
  leave_current-Parted TaskState.finished w cpu yielding now t ws q h =
      dropping-Parted w _ t ws q refl
