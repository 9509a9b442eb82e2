-- ===== src/Sched/RunQueue/Choice.antt =====
-- src/sched/runqueue/mod.rs: what `find_next_task` answers, and what it does to the queue.
use moss.Common.{
  ℕ, zero, suc, ◌+◌, ◌-◌, ◌≤◌, ◌≡◌, inl, inr, refl, sym, ap, ◌∙◌, true, false, Option, none, some,
  List, [], ◌∷◌, ◌++◌, All, arith, Bool-cases,
}
use mathlib.Core.List.{append_assoc, append-nil}
use moss.Sched.TaskStates.{is_finished}
use moss.Sched.BinaryHeap.{BinaryHeap, sum, is_le}
use moss.Sched.BinaryHeap.Sums.{
  pop_cases, len_zero, len-pop, All-pop, sum-append, All-append, All-map,
}
use moss.Sched.RunnableTask.{RunnableTask, Works, weight, compare_with}
use moss.Sched.RunQueue.{by_eligible, by_deadline, RunQueue, Search, discard, take_best}
use moss.Sched.RunQueue.Order.{by_deadline-IsOrd, ComesFirst, compare_with-ComesFirst}
use moss.Sched.RunQueue.Loops.{waiting}

-- The measure of a task that may not be there.
abbrev pub sum? : (RunnableTask → ℕ) → Option RunnableTask → ℕ
sum? f none = 0
sum? f (some t) = f t

abbrev pub IsDone : Works → RunnableTask → Type 0
IsDone ws t = is_finished (ws t.work).state ≡ true

module _ (I : BinaryHeap RunnableTask by_eligible) (E : BinaryHeap RunnableTask by_deadline) where
  -- What a search does to the queue and to the list of tasks to drop, where it comes to `found`.
  pub record Ran (ws : Works) (q : RunQueue I E) (ds : List RunnableTask)
      (found : Option RunnableTask) (q' : RunQueue I E) (ds' : List RunnableTask) : Type 0 where
    pub new : List RunnableTask
    pub deferred_eq : ds' ≡ ds ++ new
    pub finished : All (IsDone ws) new
    pub kept :
        (f : RunnableTask → ℕ) → sum? f found + waiting I E f q' + sum f new ≡ waiting I E f q
    pub total : q'.total_weight ≡ q.total_weight - sum weight new
    pub clock : q.v_clock.clk ≤ q'.v_clock.clk
    pub same : q' ≡ record q {
      total_weight = q'.total_weight;
      ineligible = q'.ineligible;
      eligible = q'.eligible;
      v_clock = record q.v_clock { clk = q'.v_clock.clk };
    }

  pub Ran-trans :
      (ws : Works) (q q1 q2 : RunQueue I E) (ds ds1 ds2 : List RunnableTask)
      (f : Option RunnableTask)
      → Ran ws q ds none q1 ds1
      → Ran ws q1 ds1 f q2 ds2
      → Ran ws q ds f q2 ds2
  Ran-trans ws q q1 q2 ds ds1 ds2 f h k = record {
    new = h.new ++ k.new;
    deferred_eq = k.deferred_eq ∙ ap (λ d. d ++ k.new) h.deferred_eq ∙ append_assoc ds h.new k.new;
    finished = All-append (IsDone ws) h.new k.new h.finished k.finished;
    kept = λ g. omega (arith, h.kept g, k.kept g, sum-append g h.new k.new);
    total = omega (arith, h.total, k.total, sum-append weight h.new k.new);
    clock = omega (arith, h.clock, k.clock);
    same =
        k.same
        ∙ ap
            (λ (x : RunQueue I E). record x {
              total_weight = q2.total_weight;
              ineligible = q2.ineligible;
              eligible = q2.eligible;
              v_clock = record x.v_clock { clk = q2.v_clock.clk };
            })
            h.same;
  }

  pub Ran-nothing : (ws : Works) (q : RunQueue I E) (ds : List RunnableTask) → Ran ws q ds none q ds
  Ran-nothing ws q ds = record {
    new = [];
    deferred_eq = sym (append-nil ds);
    finished = tt;
    kept = λ f. omega arith;
    total = omega arith;
    clock = omega arith;
    same = refl;
  }

  -- The second loop drops a finished task.
  Ran-discard :
      (ws : Works) (q : RunQueue I E) (ds : List RunnableTask) (t : RunnableTask) (r : E.Heap)
      → E.pop q.eligible ≡ some (t, r)
      → IsDone ws t
      → Ran ws q ds none (discard I E t r q) (ds ++ (t ∷ []))
  Ran-discard ws q ds t r e d = record {
    new = t ∷ [];
    deferred_eq = refl;
    finished = (d, tt);
    kept = λ f. omega (arith, E.pop_sum f q.eligible t r e);
    total = omega arith;
    clock = omega arith;
    same = refl;
  }

  Ran-take :
      (ws : Works) (q : RunQueue I E) (ds : List RunnableTask) (t : RunnableTask) (r : E.Heap)
      → E.pop q.eligible ≡ some (t, r)
      → Ran ws q ds (some t) (record q { eligible = r }) ds
  Ran-take ws q ds t r e = record {
    new = [];
    deferred_eq = sym (append-nil ds);
    finished = tt;
    kept = λ f. omega (arith, E.pop_sum f q.eligible t r e);
    total = omega arith;
    clock = omega arith;
    same = refl;
  }

  -- No task of the heap has an earlier deadline than `t`, nor the same and a better claim by the rules for ties.
  abbrev pub IsEarliest : RunnableTask → E.Heap → Type 0
  IsEarliest t h = All (ComesFirst t) (E.contents h)

  -- What the second loop answers.
  abbrev pub BestOf : Works → Option RunnableTask → E.Heap → Type 0
  BestOf ws none h = E.contents h ≡ []
  BestOf ws (some t) h = (is_finished (ws t.work).state ≡ false) × IsEarliest t h

  pub record Taken (ws : Works) (q : RunQueue I E) (ds : List RunnableTask) (s : Search I E)
      : Type 0 where
    pub ran : Ran ws q ds s.found s.queue s.deferred
    pub best : BestOf ws s.found s.queue.eligible
    pub ineligible_eq : s.queue.ineligible ≡ q.ineligible
    pub clock_eq : s.queue.v_clock ≡ q.v_clock

  IsEarliest-popped :
      (h : E.Heap) (t : RunnableTask) (r : E.Heap) → E.pop h ≡ some (t, r) → IsEarliest t r
  unfolding by_deadline
  IsEarliest-popped h t r e =
      All-map (compare_with-ComesFirst t) (E.contents r) (
        All-pop E (λ u. is_le (compare_with t u)) h t r e
          (E.pop_greatest by_deadline-IsOrd h t r e))

  pub take_best-Taken :
      (n : ℕ) (ws : Works) (q : RunQueue I E) (ds : List RunnableTask)
      → E.len q.eligible ≤ n
      → Taken ws q ds (take_best I E n ws q ds)
  unfolding take_best
  take_best-Taken zero ws q ds h = record {
    ran = Ran-nothing ws q ds;
    best = len_zero E q.eligible (omega (arith, h));
    ineligible_eq = refl;
    clock_eq = refl;
  }
  take_best-Taken (suc n) ws q ds h = elim (pop_cases E q.eligible) [
    | inl (e, p, c) ↦
        rw (e, take_best)
          (record { ran = Ran-nothing ws q ds; best = c; ineligible_eq = refl; clock_eq = refl })
    | inr (t, r, e, p) ↦
        let l = len-pop E q.eligible t r e in
        let k = take_best-Taken n ws (discard I E t r q) (ds ++ (t ∷ [])) (omega (arith, h, l)) in
        elim (Bool-cases (is_finished (ws t.work).state)) [
          | inl d ↦
              rw (e, d, take_best)
                (record {
                  ran = Ran-trans ws q _ _ ds _ _ _ (Ran-discard ws q ds t r e d) k.ran;
                  best = k.best;
                  ineligible_eq = k.ineligible_eq;
                  clock_eq = k.clock_eq;
                })
          | inr d ↦
              rw (e, d, take_best)
                (record {
                  ran = Ran-take ws q ds t r e;
                  best = (d, IsEarliest-popped q.eligible t r e);
                  ineligible_eq = refl;
                  clock_eq = refl;
                })
        ]
  ]
