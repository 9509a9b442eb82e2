-- ===== src/Sched/RunQueue/Loops.antt =====
-- src/sched/runqueue/mod.rs: what the two loops of `find_next_task` do.
use moss.Common.{
  ℕ, zero, suc, ◌+◌, ◌≤◌, ◌<◌, ◌≡◌, ◌⊎◌, inl, inr, refl, sym, ap, ◌∙◌, Bool, true, false, not, none,
  some, All, arith, Bool-cases,
}
use mathlib.Core.Path.{subst}
use mathlib.Core.Option as Option
use moss.Sched.Time.{VClock}
use moss.Sched.BinaryHeap.{BinaryHeap, sum, is_le}
use moss.Sched.BinaryHeap.Sums.{pop_cases, len_zero, len-pop, All-map}
use moss.Sched.RunnableTask.{RunnableTask}
use moss.Sched.RunQueue.{
  by_eligible, by_deadline, is_task_eligible, RunQueue, pop_now_eligible_task, admit, admit_all,
}
use moss.Sched.RunQueue.Order.{by_eligible-IsOrd}

module _ (I : BinaryHeap RunnableTask by_eligible) (E : BinaryHeap RunnableTask by_deadline) where
  -- The sum of a measure over the tasks that wait.
  abbrev pub waiting : (RunnableTask → ℕ) → RunQueue I E → ℕ
  waiting f q = sum f (I.contents q.ineligible) + sum f (E.contents q.eligible)

  abbrev pub is_ineligible : VClock → RunnableTask → Bool
  is_ineligible c t = not (is_task_eligible t c)

  -- Every task of the heap of those that are not eligible yet is not.
  abbrev pub NoneEligible : VClock → I.Heap → Type 0
  NoneEligible c h = All (λ t. is_ineligible c t ≡ true) (I.contents h)

  ineligible_after :
      (c : VClock) (t u : RunnableTask)
      → is_task_eligible t c ≡ false
      → is_le (by_eligible u t) ≡ true
      → is_ineligible c u ≡ true
  unfolding is_task_eligible by_eligible
  ineligible_after c t u h k = ground arith

  pub pop_now-cases :
      (q : RunQueue I E)
      → ((pop_now_eligible_task I E q ≡ none) × NoneEligible q.v_clock q.ineligible)
        ⊎ ((t : RunnableTask) × (r : I.Heap) × (pop_now_eligible_task I E q
              ≡ some (t, record q { ineligible = r }))
            × (I.pop q.ineligible ≡ some (t, r)))
  unfolding pop_now_eligible_task
  pop_now-cases q = elim (pop_cases I q.ineligible) [
    | inl (e, p, c) ↦ inl (
      rw (p, pop_now_eligible_task) refl,
      subst (All (λ t. is_ineligible q.v_clock t ≡ true)) (sym c) tt,
    )
    | inr (t, r, e, p) ↦ elim (Bool-cases (is_task_eligible t q.v_clock)) [
      | inl b ↦ inr (t, r, rw (p, b, e, pop_now_eligible_task) refl, e)
      | inr b ↦ inl (
        rw (p, b, pop_now_eligible_task) refl,
        All-map (λ u. ineligible_after q.v_clock t u b) (I.contents q.ineligible)
            (I.pop_greatest by_eligible-IsOrd q.ineligible t r e),
      )
    ]
  ]

  -- What the first loop makes of the queue.
  pub record Admitted (q q' : RunQueue I E) : Type 0 where
    pub same : q' ≡ record q { ineligible = q'.ineligible; eligible = q'.eligible }
    pub kept : (f : RunnableTask → ℕ) → waiting f q' ≡ waiting f q
    pub none_eligible : NoneEligible q.v_clock q'.ineligible
    pub shorter : I.len q'.ineligible ≤ I.len q.ineligible

  admit-Admitted : (n : ℕ) (q : RunQueue I E) → I.len q.ineligible ≤ n → Admitted q (admit I E n q)
  unfolding admit
  admit-Admitted zero q h = record {
    same = refl;
    kept = λ f. refl;
    none_eligible =
        subst (All (λ t. is_ineligible q.v_clock t ≡ true))
          (sym (len_zero I q.ineligible (omega (arith, h)))) tt;
    shorter = omega arith;
  }
  admit-Admitted (suc n) q h = elim (pop_now-cases q) [
    | inl (e, a) ↦
        rw (e, admit)
          (record { same = refl; kept = λ f. refl; none_eligible = a; shorter = omega arith })
    | inr (t, r, e, p) ↦
        let q1 = record q { ineligible = r; eligible = E.push t q.eligible } in
        let l = len-pop I q.ineligible t r p in
        let a = admit-Admitted n q1 (omega (arith, h, l)) in
        rw (e, admit)
          (record {
            same = a.same;
            kept = λ f.
                a.kept f ∙ omega (arith, E.sum-push f t q.eligible, I.pop_sum f q.ineligible t r p);
            none_eligible = a.none_eligible;
            shorter = omega (arith, a.shorter, l);
          })
  ]

  pub admit_all-Admitted : (q : RunQueue I E) → Admitted q (admit_all I E q)
  admit_all-Admitted q = admit-Admitted (I.len q.ineligible) q (omega arith)

  popped :
      (q : RunQueue I E) (t : RunnableTask) (r : I.Heap)
      → I.pop q.ineligible ≡ some (t, r)
      → is_task_eligible t q.v_clock ≡ true
      → pop_now_eligible_task I E q ≡ some (t, record q { ineligible = r })
  unfolding pop_now_eligible_task
  popped q t r e b =
      let p : I.peek q.ineligible ≡ some t =
        I.peek_pop q.ineligible ∙ ap (Option.map (λ r. r.0)) e in
      rw (p, b, e, pop_now_eligible_task) refl

  -- The loop takes a task out of the heap when the first is eligible.
  pub admit_all-shrinks :
      (q : RunQueue I E) (t : RunnableTask) (r : I.Heap)
      → I.pop q.ineligible ≡ some (t, r)
      → is_task_eligible t q.v_clock ≡ true
      → I.len (admit_all I E q).ineligible < I.len q.ineligible
  unfolding admit
  admit_all-shrinks q t r e b =
      let q1 = record q { ineligible = r; eligible = E.push t q.eligible } in
      let l = len-pop I q.ineligible t r e in
      let k = (admit-Admitted (I.len r) q1 (omega arith)).shorter in
      rw (l, popped q t r e b, admit) (omega (arith, k))
