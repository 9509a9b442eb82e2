-- ===== src/Sched/RunQueue/Stages.antt =====
-- src/sched/runqueue/mod.rs: the stages of `schedule`: the clock, the task that ran so far, the next one.
use moss.Common.{
  ℕ, ◌+◌, ◌≤◌, ◌<◌, ◌≡◌, ◌≢◌, inl, inr, refl, sym, ap, ◌∙◌, true, false, Option, none, some, List,
  [], ◌∷◌, All, arith, Option-cases, done,
}
use mathlib.Core.Path.{subst}
use mathlib.Core.Option.{some-injective}
use moss.Mem.Frames.Sound.{Runs}
use moss.Sched.Time.{Duration, Instant, VClock, run_for, advance, u128_mod, saturating_add_u128}
use moss.Sched.BinaryHeap.{BinaryHeap, sum}
use moss.Sched.RunnableTask.{RunnableTask, Works}
use moss.Sched.RunQueue.{
  by_eligible, by_deadline, RunQueue, Wakers, Left, leave_current, conclude, schedule_at, schedule,
}
use moss.Sched.RunQueue.Loops.{waiting}
use moss.Sched.RunQueue.Choice.{sum?}
use moss.Sched.RunQueue.Insert.{by_work}
use moss.Sched.RunQueue.Leave.{
  off_measure, is_pending, is_off, IsLeftAlone, sub-Runs, Parted, leave_current-Parted,
}

run_for_mono :
    (d : Duration) (w k : ℕ) → k < u128_mod → (k ≤ run_for d w k) × (run_for d w k < u128_mod)
unfolding run_for saturating_add_u128
run_for_mono d w k h = ground arith

pub advance-Runs :
    (now : Instant) (w : ℕ) (c : VClock)
    → now.freq ≢ 0
    → c.clk < u128_mod
    → Runs (λ c'. (c.clk ≤ c'.clk) × (c'.clk < u128_mod)) (advance now w c)
unfolding advance
advance-Runs now w c n h = elim (Option-cases c.last_update) [
  | inl e ↦ (record c { last_update = some now }, simp (e, advance) refl, (omega arith, h))
  | inr (prev, e) ↦
      let (d, k) = sub-Runs now prev n in
      (
        record { last_update = some now; clk = run_for d w c.clk },
        simp (e, k, advance) refl,
        run_for_mono d w c.clk h,
      )
]

module _ (I : BinaryHeap RunnableTask by_eligible) (E : BinaryHeap RunnableTask by_deadline) where
  -- The queue that the task that ran so far has been taken from.
  abbrev pub opened : VClock → RunQueue I E → RunQueue I E
  opened c q = record q { yield_requested = false; running_task = none; v_clock = c }

  -- `schedule` with no task that ran so far, and with one.
  pub schedule-idle :
      (w : Wakers) (cpu : ℕ) (now : Instant) (ws : Works) (q : RunQueue I E) (c : VClock)
      → advance now q.total_weight q.v_clock ≡ done c
      → q.running_task ≡ none
      → schedule I E w cpu now ws q
        ≡ done (
            conclude I E now none
              (record { works = ws; queue = opened c q; next = none; deferred = [] }))
  unfolding schedule schedule_at
  schedule-idle w cpu now ws q c a e = simp (a, e, schedule, schedule_at) refl

  pub schedule-running :
      (w : Wakers) (cpu : ℕ) (now : Instant) (ws : Works) (q : RunQueue I E) (c : VClock)
      (t : RunnableTask) (l : Left I E)
      → advance now q.total_weight q.v_clock ≡ done c
      → q.running_task ≡ some t
      → leave_current I E (ws t.work).state w cpu q.yield_requested now t ws (opened c q) ≡ done l
      → schedule I E w cpu now ws q ≡ done (conclude I E now (some t.work) l)
  unfolding schedule schedule_at
  schedule-running w cpu now ws q c t l a e k = simp (a, e, k, schedule, schedule_at) refl

  -- The work `p` is that of the task that ran so far.
  abbrev pub Was : RunQueue I E → ℕ → Type 0
  Was q p = (t : RunnableTask) × (q.running_task ≡ some t) × (p ≡ t.work)

  -- What `schedule` has done when it has dealt with the task that ran so far.
  pub record Departed (w : Wakers) (ws : Works) (q : RunQueue I E) (l : Left I E) : Type 0 where
    pub off : Option ℕ
    pub kept :
        (g : ℕ → ℕ)
        → sum? (by_work g) l.next
            + waiting I E (by_work g) l.queue
            + sum (by_work g) l.deferred
            + off_measure g off
          ≡ sum? (by_work g) q.running_task + waiting I E (by_work g) q
    pub off_state :
        (p : ℕ)
        → off ≡ some p
        → Was q p × (is_pending (ws p).state ≡ true) × (is_off (l.works p).state ≡ true)
    pub undisturbed :
        (t : RunnableTask)
        → q.running_task ≡ some t
        → is_pending (ws t.work).state ≡ true
        → IsLeftAlone w (ws t.work).state
        → off ≡ some t.work
    pub others : (p : ℕ) → (Was q p → ⊥) → (l.works p).state ≡ (ws p).state
    pub dropped : All (λ u. Was q u.work) l.deferred
    pub stays :
        (u : RunnableTask)
        → l.next ≡ some u
        → Was q u.work × (u.sched_data.v_eligible < u.sched_data.v_deadline)
    pub vacant : l.queue.running_task ≡ none
    pub idle_eq : l.queue.idle ≡ q.idle
    pub clock : q.v_clock.clk ≤ l.queue.v_clock.clk

  idle-Departed :
      (w : Wakers) (ws : Works) (q : RunQueue I E) (c : VClock)
      → q.running_task ≡ none
      → q.v_clock.clk ≤ c.clk
      → Departed w ws q (record { works = ws; queue = opened c q; next = none; deferred = [] })
  idle-Departed w ws q c e h = record {
    off = none;
    kept = λ g. rw e (omega arith);
    off_state = λ p k. absurd (ground (arith, k));
    undisturbed = λ t k. absurd (ground (arith, e, k));
    others = λ p k. refl;
    dropped = tt;
    stays = λ u k. absurd (ground (arith, k));
    vacant = refl;
    idle_eq = refl;
    clock = h;
  }

  All-Was :
      (q : RunQueue I E) (t : RunnableTask) (us : List RunnableTask)
      → q.running_task ≡ some t
      → All (λ u. u.work ≡ t.work) us
      → All (λ u. Was q u.work) us
  All-Was q t [] e a = tt
  All-Was q t (u ∷ us) e (b, a) = ((t, e, b), All-Was q t us e a)

  Parted-Departed :
      (w : Wakers) (ws : Works) (q : RunQueue I E) (c : VClock) (t : RunnableTask) (l : Left I E)
      → q.running_task ≡ some t
      → q.v_clock.clk ≤ c.clk
      → Parted I E w (ws t.work).state t ws (opened c q) l
      → Departed w ws q l
  Parted-Departed w ws q c t l e h k = record {
    off = k.off;
    kept = λ g. rw e (k.kept g);
    off_state = λ p o.
        let (w, a, b) = k.off_state p o in ((t, e, w), ap (λ x. is_pending (ws x).state) w ∙ a, b);
    undisturbed = λ u o a b.
        let i : t ≡ u = some-injective t u (sym e ∙ o) in
        k.undisturbed (subst (λ x. is_pending (ws x.work).state ≡ true) (sym i) a) refl
          (subst (λ x. IsLeftAlone w (ws x.work).state) (sym i) b)
        ∙ ap (λ x. some x.work) i;
    others = λ p n. k.others p (λ w. n (t, e, w));
    dropped = All-Was q t l.deferred e k.dropped;
    stays = λ u b. let (w, d) = k.stays u b in ((t, e, w), d);
    vacant = ap (λ x. x.running_task) k.same;
    idle_eq = ap (λ x. x.idle) k.same;
    clock = omega (arith, h, ap (λ x. x.v_clock.clk) k.same);
  }

  -- `schedule` does not panic, and comes to its last stage.
  pub schedule-Departed :
      (w : Wakers) (cpu : ℕ) (now : Instant) (ws : Works) (q : RunQueue I E)
      → now.freq ≢ 0
      → q.v_clock.clk < u128_mod
      → (l : Left I E) × (prev : Option ℕ) × (schedule I E w cpu now ws q
          ≡ done (conclude I E now prev l))
        × Departed w ws q l
  schedule-Departed w cpu now ws q n h =
      let (c, a, (m, _)) = advance-Runs now q.total_weight q.v_clock n h in
      elim (Option-cases q.running_task) [
        | inl e ↦ (
          record { works = ws; queue = opened c q; next = none; deferred = [] },
          none,
          schedule-idle w cpu now ws q c a e,
          idle-Departed w ws q c e m,
        )
        | inr (t, e) ↦
            let (l, k, p) =
              leave_current-Parted I E (ws t.work).state w cpu q.yield_requested now t ws
                (opened c q) n in
            (
              l,
              some t.work,
              schedule-running w cpu now ws q c t l a e k,
              Parted-Departed w ws q c t l e m p,
            )
      ]
