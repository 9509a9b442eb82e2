-- ===== src/Sched/RunQueue/Find.antt =====
-- src/sched/runqueue/mod.rs: `find_next_task` whole, with the rounds in which it puts the clock forward.
use moss.Common.{
  ℕ, zero, suc, ◌≤◌, ◌≡◌, inl, inr, refl, sym, ap, ◌∙◌, true, false, Option, none, some, List, [],
  arith, Option-cases,
}
use mathlib.Core.Path.{subst}
use moss.Sched.TaskStates.{is_finished}
use moss.Sched.Time.{VClock, fast_forward}
use moss.Sched.BinaryHeap.{BinaryHeap}
use moss.Sched.BinaryHeap.Sums.{pop_cases, len_zero, All-popped}
use moss.Sched.RunnableTask.{RunnableTask, Works}
use moss.Sched.RunQueue.{
  by_eligible, by_deadline, is_task_eligible, RunQueue, admit_all, Search, look, or_fast_forward,
  find_next_task_loop, find_next_task,
}
use moss.Sched.RunQueue.Loops.{
  waiting, is_ineligible, NoneEligible, Admitted, admit_all-Admitted, admit_all-shrinks,
}
use moss.Sched.RunQueue.Choice.{Ran, Ran-trans, Ran-nothing, IsEarliest, BestOf, take_best-Taken}

module _ (I : BinaryHeap RunnableTask by_eligible) (E : BinaryHeap RunnableTask by_deadline) where
  Ran-moved :
      (ws : Works) (q : RunQueue I E) (ds : List RunnableTask) (i : I.Heap) (e : E.Heap)
      → ((f : RunnableTask → ℕ)
          → waiting I E f (record q { ineligible = i; eligible = e }) ≡ waiting I E f q)
      → Ran I E ws q ds none (record q { ineligible = i; eligible = e }) ds
  Ran-moved ws q ds i e k =
      let n = Ran-nothing I E ws q ds in
      record {
        new = n.new;
        deferred_eq = n.deferred_eq;
        finished = n.finished;
        kept = λ f. omega (arith, k f);
        total = n.total;
        clock = n.clock;
        same = refl;
      }

  Ran-admit :
      (ws : Works) (q q' : RunQueue I E) (ds : List RunnableTask)
      → Admitted I E q q'
      → Ran I E ws q ds none q' ds
  Ran-admit ws q q' ds h =
      subst (λ x. Ran I E ws q ds none x ds) (sym h.same)
        (Ran-moved ws q ds q'.ineligible q'.eligible
          (λ f. ap (waiting I E f) (sym h.same) ∙ h.kept f))

  NoneEligible-eq :
      {c c' : VClock} {h h' : I.Heap}
      → c ≡ c'
      → h ≡ h'
      → NoneEligible I E c h
      → NoneEligible I E c' h'
  NoneEligible-eq {c} {c'} {h} {h'} d e n =
      subst (λ x. NoneEligible I E x h') d (subst (NoneEligible I E c) e n)

  -- What both loops come to.
  record Looked (ws : Works) (q : RunQueue I E) (ds : List RunnableTask) (s : Search I E)
      : Type 0 where
    ran : Ran I E ws q ds s.found s.queue s.deferred
    best : BestOf I E ws s.found s.queue.eligible
    none_eligible : NoneEligible I E s.queue.v_clock s.queue.ineligible
    ineligible_eq : s.queue.ineligible ≡ (admit_all I E q).ineligible

  look-Looked :
      (ws : Works) (q : RunQueue I E) (ds : List RunnableTask) → Looked ws q ds (look I E ws q ds)
  unfolding look
  look-Looked ws q ds =
      let a = admit_all-Admitted I E q in
      let q1 = admit_all I E q in
      let k = take_best-Taken I E (E.len q1.eligible) ws q1 ds (omega arith) in
      record {
        ran = Ran-trans I E ws q q1 _ ds ds _ _ (Ran-admit ws q q1 ds a) k.ran;
        best = k.best;
        none_eligible =
            NoneEligible-eq (sym (k.clock_eq ∙ ap (λ x. x.v_clock) a.same)) (sym k.ineligible_eq)
              a.none_eligible;
        ineligible_eq = k.ineligible_eq;
      }

  -- What `find_next_task` answers: a task that is not finished and is the first in the order of deadlines among
  -- those that are eligible, or none, where nothing waits.
  abbrev pub Chosen : Works → Option RunnableTask → RunQueue I E → Type 0
  Chosen ws none q = (I.contents q.ineligible ≡ []) × (E.contents q.eligible ≡ [])
  Chosen ws (some t) q =
      (is_finished (ws t.work).state ≡ false)
      × IsEarliest I E t q.eligible
      × NoneEligible I E q.v_clock q.ineligible

  pub record Found (ws : Works) (q : RunQueue I E) (ds : List RunnableTask) (s : Search I E)
      : Type 0 where
    pub ran : Ran I E ws q ds s.found s.queue s.deferred
    pub chosen : Chosen ws s.found s.queue

  -- The clock put forward to a task that was not eligible, which then is.
  Ran-forward :
      (ws : Works) (q : RunQueue I E) (ds : List RunnableTask) (t : RunnableTask)
      → is_task_eligible t q.v_clock ≡ false
      → Ran I E ws q ds none
          (record q { v_clock = fast_forward t.sched_data.v_eligible q.v_clock })
          ds
  unfolding is_task_eligible
  Ran-forward ws q ds t e =
      let n = Ran-nothing I E ws q ds in
      record {
        new = n.new;
        deferred_eq = n.deferred_eq;
        finished = n.finished;
        kept = n.kept;
        total = n.total;
        clock = ground arith;
        same = refl;
      }

  forward_eligible :
      (t : RunnableTask) (c : VClock)
      → is_task_eligible t (fast_forward t.sched_data.v_eligible c) ≡ true
  unfolding is_task_eligible
  forward_eligible t c = ground arith

  looked-Chosen :
      (ws : Works) (f : Option RunnableTask) (q : RunQueue I E)
      → BestOf I E ws f q.eligible
      → NoneEligible I E q.v_clock q.ineligible
      → (f ≡ none → I.contents q.ineligible ≡ [])
      → Chosen ws f q
  looked-Chosen ws none q b n k = (k refl, b)
  looked-Chosen ws (some t) q b n k = (b.0, b.1, n)

  Looked-Found :
      (ws : Works) (q : RunQueue I E) (ds : List RunnableTask) (s : Search I E)
      → Looked ws q ds s
      → (s.found ≡ none → I.contents s.queue.ineligible ≡ [])
      → Found ws q ds s
  Looked-Found ws q ds s l k = record {
    ran = l.ran;
    chosen = looked-Chosen ws s.found s.queue l.best l.none_eligible k;
  }

  module _ (again : RunQueue I E → List RunnableTask → Search I E) (s : Search I E) where
    stays_found : (t : RunnableTask) → s.found ≡ some t → or_fast_forward I E again s ≡ s
    unfolding or_fast_forward
    stays_found t e = simp (e, or_fast_forward) refl

    stays_empty :
        s.found ≡ none → I.peek s.queue.ineligible ≡ none → or_fast_forward I E again s ≡ s
    unfolding or_fast_forward
    stays_empty e p = simp (e, p, or_fast_forward) refl

    goes_again :
        (t : RunnableTask)
        → s.found ≡ none
        → I.peek s.queue.ineligible ≡ some t
        → or_fast_forward I E again s
          ≡ again
              (record s.queue { v_clock = fast_forward t.sched_data.v_eligible s.queue.v_clock })
              s.deferred
    unfolding or_fast_forward
    goes_again t e p = rw (e, p, or_fast_forward) refl

  -- With a round for each task that the first loop leaves.
  loop-Found :
      (n : ℕ) (ws : Works) (q : RunQueue I E) (ds : List RunnableTask)
      → I.len (admit_all I E q).ineligible ≤ n
      → Found ws q ds (find_next_task_loop I E n ws q ds)
  unfolding find_next_task_loop
  loop-Found zero ws q ds h =
      let l = look-Looked ws q ds in
      Looked-Found ws q ds _ l (λ e. len_zero I _ (omega (arith, h, ap I.len l.ineligible_eq)))
  loop-Found (suc n) ws q ds h =
      let l = look-Looked ws q ds in
      let s = look I E ws q ds in
      let again = find_next_task_loop I E n ws in
      elim (Option-cases s.found) [
        | inr (t, e) ↦
            subst (Found ws q ds) (sym (stays_found again s t e))
              (Looked-Found ws q ds s l (λ k. absurd (ground (arith, k, e))))
        | inl e ↦ elim (pop_cases I s.queue.ineligible) [
          | inl (_, p, c) ↦
              subst (Found ws q ds) (sym (stays_empty again s e p))
                (Looked-Found ws q ds s l (λ k. c))
          | inr (t, r, d, p) ↦
              let q1 = record s.queue {
                v_clock = fast_forward t.sched_data.v_eligible s.queue.v_clock;
              } in
              let b = All-popped I (is_ineligible I E s.queue.v_clock) _ t r d l.none_eligible in
              let k = admit_all-shrinks I E q1 t r d (forward_eligible t s.queue.v_clock) in
              let f =
                loop-Found n ws q1 s.deferred (omega (arith, h, k, ap I.len l.ineligible_eq)) in
              let ran0 : Ran I E ws q ds none s.queue s.deferred =
                subst (λ x. Ran I E ws q ds x s.queue s.deferred) e l.ran in
              let ran1 = Ran-forward ws s.queue s.deferred t (ground (arith, b)) in
              subst (Found ws q ds) (sym (goes_again again s t e p)) (record {
                ran =
                    Ran-trans I E ws q q1 _ ds s.deferred _ _
                      (Ran-trans I E ws q s.queue q1 ds s.deferred s.deferred none ran0 ran1) f.ran;
                chosen = f.chosen;
              })
        ]
      ]

  pub find_next_task-Found :
      (ws : Works) (q : RunQueue I E) (ds : List RunnableTask)
      → Found ws q ds (find_next_task I E ws q ds)
  find_next_task-Found ws q ds =
      loop-Found (I.len q.ineligible) ws q ds (admit_all-Admitted I E q).shorter
