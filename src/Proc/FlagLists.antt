-- ===== src/Proc/FlagLists.antt =====
-- Sets of flags as the lists of their bits: an instance of the interface that stands for the crate `bitflags`.
use moss.Common.{ℕ, Bool, true, false, ◌||◌, ◌&&◌, ◌==◌, ◌≡◌, refl, List, [], ◌∷◌, arith}
use moss.Proc.Bitflags.{Bitflags}

abbrev pub has : List ℕ → ℕ → Bool
has [] k = false
has (x ∷ xs) k = k == x || has xs k

abbrev pub has_all : List ℕ → List ℕ → Bool
has_all a [] = true
has_all a (k ∷ ks) = has a k && has_all a ks

has_all-weaken : (x : ℕ) (a b : List ℕ) → has_all a b ≡ true → has_all (x ∷ a) b ≡ true
has_all-weaken x a [] h = refl
has_all-weaken x a (k ∷ ks) h = ground (arith, has_all-weaken x a ks)

pub has_all_refl : (a : List ℕ) → has_all a a ≡ true
has_all_refl [] = refl
has_all_refl (x ∷ xs) = ground (arith, has_all-weaken x xs xs (has_all_refl xs))

has_trans : (a b : List ℕ) (k : ℕ) → has_all a b ≡ true → has b k ≡ true → has a k ≡ true
has_trans a [] k h q = cc
has_trans a (x ∷ b) k h q = ground (arith, has_trans a b k)

pub has_all_trans : (a b c : List ℕ) → has_all a b ≡ true → has_all b c ≡ true → has_all a c ≡ true
has_all_trans a b [] h q = refl
has_all_trans a b (k ∷ c) h q = ground (arith, has_trans a b k, has_all_trans a b c)

abbrev pub bits : Bitflags
bits = record {
  Flags = List ℕ;
  bit = λ k. k ∷ [];
  all = 6 ∷ 7 ∷ 8 ∷ [];
  empty = [];
  contains = has_all;
  contains_refl = has_all_refl;
  contains_trans = has_all_trans;
}
