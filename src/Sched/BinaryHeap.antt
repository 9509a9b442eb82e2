-- ===== src/Sched/BinaryHeap.antt =====
-- What the run queue uses of `BinaryHeap` of the crate `alloc` (not part of the repository): a heap of values that
-- an `Ord` compares. `contents` lists its values in no particular order, so that a law on them is one on the sum
-- of any measure of the values.
pub mod Sums
use moss.Common.{ℕ, ◌+◌, ◌≡◌, Bool, true, false, Option, none, some, List, [], ◌∷◌, All, length}
use Prim.Native.Nat.{Ordering}
use mathlib.Core.Option as Option

abbrev pub sum {ℓ} : {A : Type ℓ} → (A → ℕ) → List A → ℕ
sum f [] = 0
sum f (x ∷ xs) = f x + sum f xs

abbrev pub is_le : Ordering → Bool
is_le Ordering.gt = false
is_le _ = true

abbrev pub reverse : Ordering → Ordering
reverse Ordering.lt = Ordering.gt
reverse Ordering.eq = Ordering.eq
reverse Ordering.gt = Ordering.lt

-- What the trait `Ord` asks of an implementation.
pub record IsOrd (A : Type 0) (cmp : A → A → Ordering) : Type 0 where
  pub dual : (a b : A) → cmp b a ≡ reverse (cmp a b)
  pub trans : (a b c : A) → is_le (cmp a b) ≡ true → is_le (cmp b c) ≡ true → is_le (cmp a c) ≡ true

pub record BinaryHeap (A : Type 0) (cmp : A → A → Ordering) : Type 1 where
  pub Heap : Type 0
  pub contents : Heap → List A
  pub empty : Heap
  pub len : Heap → ℕ
  pub push : A → Heap → Heap
  pub pop : Heap → Option (A × Heap)
  pub peek : Heap → Option A
  pub contents-empty : contents empty ≡ []
  pub len-contents : (h : Heap) → len h ≡ length (contents h)
  pub sum-push :
      (f : A → ℕ) (x : A) (h : Heap) → sum f (contents (push x h)) ≡ f x + sum f (contents h)
  pub peek_pop : (h : Heap) → peek h ≡ Option.map (λ r. r.0) (pop h)
  pub pop_none : (h : Heap) → pop h ≡ none → contents h ≡ []
  pub pop_sum :
      (f : A → ℕ) (h : Heap) (x : A) (r : Heap)
      → pop h ≡ some (x, r)
      → sum f (contents h) ≡ f x + sum f (contents r)
  pub pop_greatest :
      IsOrd A cmp
      → (h : Heap) (x : A) (r : Heap) → pop h ≡ some (x, r)
      → All (λ y. is_le (cmp y x) ≡ true) (contents h)
