-- ===== src/Sched/ListHeap.antt =====
-- An instance of the interface Sched/BinaryHeap.antt: a list, in which `pop` looks for a greatest value. With it the
-- theorems about the run queue (src/sched/runqueue/mod.rs) apply to concrete queues.
use moss.Common.{
  ℕ, ◌+◌, ◌≡◌, inl, inr, refl, sym, ap, ◌∙◌, true, false, Option, none, some, List, [], ◌∷◌, All,
  length, arith, Bool-cases, if◌then◌else◌,
}
use Prim.Native.Nat.{Ordering}
use mathlib.Core.Path.{subst}
use mathlib.Core.Option as Option
use mathlib.Core.Option.{some-injective}
use moss.Sched.BinaryHeap.{sum, is_le, IsOrd, BinaryHeap}
use moss.Sched.BinaryHeap.Sums.{All-map}

module _ {A : Type 0} (cmp : A → A → Ordering) where
  -- `x` before what was found in the rest of the list
  unfoldable pub merge : A → List A → Option (A × List A) → A × List A
  merge x xs none = (x, [])
  merge x xs (some (m, r)) = if is_le (cmp x m) then (m, x ∷ r) else (x, m ∷ r)

  unfoldable pub pop_list : List A → Option (A × List A)
  pop_list [] = none
  pop_list (x ∷ xs) = some (merge x xs (pop_list xs))

  pub pop_list-none : (xs : List A) → pop_list xs ≡ none → xs ≡ []
  unfolding pop_list
  pop_list-none [] e = refl
  pop_list-none (x ∷ xs) e = absurd (ground (arith, e))

  merge-sum :
      (f : A → ℕ) (x : A) (xs : List A) (o : Option (A × List A))
      → (o ≡ none → xs ≡ [])
      → ((m : A) (r : List A) → o ≡ some (m, r) → sum f xs ≡ f m + sum f r)
      → f x + sum f xs ≡ f (merge x xs o).0 + sum f (merge x xs o).1
  unfolding merge
  merge-sum f x xs none h k = rw (h refl) refl
  merge-sum f x xs (some (m, r)) h k = elim (Bool-cases (is_le (cmp x m))) [
    | inl e ↦ rw (e, merge) (omega (arith, k m r refl))
    | inr e ↦ rw (e, merge) (omega (arith, k m r refl))
  ]

  pub pop_list-sum :
      (f : A → ℕ) (xs : List A) (m : A) (r : List A)
      → pop_list xs ≡ some (m, r)
      → sum f xs ≡ f m + sum f r
  unfolding pop_list
  pop_list-sum f [] m r e = absurd (ground (arith, e))
  pop_list-sum f (x ∷ xs) m r e =
      merge-sum f x xs (pop_list xs) (pop_list-none xs) (pop_list-sum f xs)
      ∙ ap (λ p. f p.0 + sum f p.1) (some-injective _ _ e)

  module _ (o : IsOrd A cmp) where
    is_le_refl : (x : A) → is_le (cmp x x) ≡ true
    is_le_refl x = elim (Bool-cases (is_le (cmp x x))) [
      | inl e ↦ e
      | inr e ↦ ground (arith, e, o.dual x x)
    ]

    is_le_flip : (x m : A) → is_le (cmp x m) ≡ false → is_le (cmp m x) ≡ true
    is_le_flip x m e = ground (arith, e, o.dual x m)

    merge-greatest :
        (x : A) (xs : List A) (p : Option (A × List A))
        → (p ≡ none → xs ≡ [])
        → ((m : A) (r : List A) → p ≡ some (m, r) → All (λ y. is_le (cmp y m) ≡ true) xs)
        → All (λ y. is_le (cmp y (merge x xs p).0) ≡ true) (x ∷ xs)
    unfolding merge
    merge-greatest x xs none h k = (is_le_refl x, rw (h refl) tt)
    merge-greatest x xs (some (m, r)) h k = elim (Bool-cases (is_le (cmp x m))) [
      | inl e ↦
          let d : merge x xs (some (m, r)) ≡ (m, x ∷ r) = simp (e, merge) refl in
          subst (λ v. All (λ y. is_le (cmp y v.0) ≡ true) (x ∷ xs)) (sym d) (e, k m r refl)
      | inr e ↦
          let d : merge x xs (some (m, r)) ≡ (x, m ∷ r) = simp (e, merge) refl in
          subst (λ v. All (λ y. is_le (cmp y v.0) ≡ true) (x ∷ xs)) (sym d)
            (is_le_refl x, All-map (λ y l. o.trans y m x l (is_le_flip x m e)) xs (k m r refl))
    ]

    pub pop_list-greatest :
        (xs : List A) (m : A) (r : List A)
        → pop_list xs ≡ some (m, r)
        → All (λ y. is_le (cmp y m) ≡ true) xs
    unfolding pop_list
    pop_list-greatest [] m r e = absurd (ground (arith, e))
    pop_list-greatest (x ∷ xs) m r e =
        subst (λ v. All (λ y. is_le (cmp y v.0) ≡ true) (x ∷ xs)) (some-injective _ _ e)
          (merge-greatest x xs (pop_list xs) (pop_list-none xs) (pop_list-greatest xs))

  abbrev pub list_heap : BinaryHeap A cmp
  list_heap = record {
    Heap = List A;
    contents = λ h. h;
    empty = [];
    len = length;
    push = λ x h. x ∷ h;
    pop = pop_list;
    peek = λ h. Option.map (λ r. r.0) (pop_list h);
    contents-empty = refl;
    len-contents = λ h. refl;
    sum-push = λ f x h. refl;
    peek_pop = λ h. refl;
    pop_none = pop_list-none;
    pop_sum = pop_list-sum;
    pop_greatest = pop_list-greatest;
  }
