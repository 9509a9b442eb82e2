-- ===== src/Sched/BinaryHeap/Sums.antt =====
-- What the laws of the interface Sched/BinaryHeap.antt say of lengths and of predicates on the values of a heap.
use moss.Common.{
  ℕ, suc, ◌+◌, ◌≡◌, ◌⊎◌, inl, inr, refl, sym, ap, ◌∙◌, Bool, true, none, some, List, [], ◌∷◌, ◌++◌,
  All, length, arith, Bool-cases, Option-cases, if◌then◌else◌,
}
use Prim.Native.Nat.{Ordering}
use mathlib.Core.Option as Option
use moss.Sched.BinaryHeap.{BinaryHeap, sum}

pub sum-append {ℓ} :
    {A : Type ℓ} (f : A → ℕ) (xs ys : List A) → sum f (xs ++ ys) ≡ sum f xs + sum f ys
sum-append f [] ys = omega arith
sum-append f (x ∷ xs) ys = omega (arith, sum-append f xs ys)

sum-length {ℓ} : {A : Type ℓ} (xs : List A) → sum (λ x. 1) xs ≡ length xs
sum-length [] = refl
sum-length (x ∷ xs) = omega (arith, sum-length xs)

length_zero {ℓ} : {A : Type ℓ} (xs : List A) → length xs ≡ 0 → xs ≡ []
length_zero [] h = refl
length_zero (x ∷ xs) h = absurd (omega arith)

-- what a measure that is 1 outside `b` says
abbrev pub outside {ℓ} : {A : Type ℓ} → (A → Bool) → A → ℕ
outside b x = if b x then 0 else 1

pub All-outside {ℓ} :
    {A : Type ℓ} (b : A → Bool) (xs : List A) → sum (outside b) xs ≡ 0 → All (λ x. b x ≡ true) xs
All-outside b [] h = tt
All-outside b (x ∷ xs) h = elim (Bool-cases (b x)) [
  | inl e ↦ (e, All-outside b xs (omega (arith, h)))
  | inr e ↦ absurd (let k : outside b x ≡ 1 = rw (e, outside) refl in omega (arith, h, k))
]

pub outside-All {ℓ} :
    {A : Type ℓ} (b : A → Bool) (xs : List A) → All (λ x. b x ≡ true) xs → sum (outside b) xs ≡ 0
outside-All b [] h = refl
outside-All b (x ∷ xs) h =
    let k : outside b x ≡ 0 = rw (h.0, outside) refl in omega (arith, k, outside-All b xs h.1)

pub All-append {ℓ κ} :
    {A : Type ℓ} (P : A → Type κ) (xs ys : List A) → All P xs → All P ys → All P (xs ++ ys)
All-append P [] ys a b = b
All-append P (x ∷ xs) ys (p, a) b = (p, All-append P xs ys a b)

pub All-map {ℓ κ κ'} :
    {A : Type ℓ} {P : A → Type κ} {Q : A → Type κ'} (f : (a : A) → P a → Q a) (xs : List A)
    → All P xs
    → All Q xs
All-map f [] a = tt
All-map f (x ∷ xs) (a, b) = (f x a, All-map f xs b)

module _ {A : Type 0} {cmp : A → A → Ordering} (H : BinaryHeap A cmp) where
  -- A pop and the peek before it.
  pub pop_cases :
      (h : H.Heap)
      → ((H.pop h ≡ none) × (H.peek h ≡ none) × (H.contents h ≡ []))
        ⊎ ((x : A) × (r : H.Heap) × (H.pop h ≡ some (x, r)) × (H.peek h ≡ some x))
  pop_cases h = elim (Option-cases (H.pop h)) [
    | inl e ↦ inl (e, H.peek_pop h ∙ ap (Option.map (λ r. r.0)) e, H.pop_none h e)
    | inr (r, e) ↦ inr (r.0, r.1, e, H.peek_pop h ∙ ap (Option.map (λ r. r.0)) e)
  ]

  pub len-pop : (h : H.Heap) (x : A) (r : H.Heap) → H.pop h ≡ some (x, r) → H.len h ≡ suc (H.len r)
  len-pop h x r e = omega (
    arith,
    H.len-contents h,
    sum-length (H.contents h),
    H.pop_sum (λ x. 1) h x r e,
    sum-length (H.contents r),
    H.len-contents r,
  )

  pub len_zero : (h : H.Heap) → H.len h ≡ 0 → H.contents h ≡ []
  len_zero h e = length_zero (H.contents h) (sym (H.len-contents h) ∙ e)

  -- what holds of all values of a heap holds of those that a pop leaves
  pub All-pop :
      (b : A → Bool) (h : H.Heap) (x : A) (r : H.Heap)
      → H.pop h ≡ some (x, r)
      → All (λ y. b y ≡ true) (H.contents h)
      → All (λ y. b y ≡ true) (H.contents r)
  All-pop b h x r e a =
      All-outside b (H.contents r)
        (omega (arith, H.pop_sum (outside b) h x r e, outside-All b (H.contents h) a))

  pub All-popped :
      (b : A → Bool) (h : H.Heap) (x : A) (r : H.Heap)
      → H.pop h ≡ some (x, r)
      → All (λ y. b y ≡ true) (H.contents h)
      → b x ≡ true
  All-popped b h x r e a = elim (Bool-cases (b x)) [
    | inl d ↦ d
    | inr d ↦ absurd (
        let k : outside b x ≡ 1 = rw (d, outside) refl in
        omega (arith, k, H.pop_sum (outside b) h x r e, outside-All b (H.contents h) a))
  ]
