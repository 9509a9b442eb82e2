-- ===== src/Mem/Frames/Weight.antt =====
-- libkernel/src/memory/allocators/phys.rs: blocks of frames, and sums over the lists of free blocks.
use moss.Common.{
  ℕ, zero, suc, ◌+◌, ◌-◌, ◌*◌, ◌/◌, ◌≤◌, ◌<◌, ◌≡◌, ◌≢◌, ◌⊎◌, inl, inr, refl, sym, ap, ◌∙◌, false,
  ◌&&◌, Option, none, some, List, [], ◌∷◌, All, ltb, leb, ◌==◌, if◌then◌else◌, min, arith,
  Bool-cases, Option-cases,
}
use mathlib.Core.Path.{subst}
use native.Mathlib.Nat.{two-pow-succ, one-le-pow, mul-div_cancel}
use moss.Mem.Frames.{buddy, pages, at_put, take_out}

-- A number for each block that is the sum of those of its halves.
abbrev pub Additive : (ℕ → ℕ → ℕ) → Type 0
Additive f = (o p : ℕ) → f (suc o) p ≡ f o p + f o (p + pages o)

-- 1 where the page is in the block of this order at `p`.
abbrev pub has_page : ℕ → ℕ → ℕ → ℕ
has_page x o p = if leb p x && ltb x (p + pages o) then 1 else 0

pub has_page-Additive : (x : ℕ) → Additive (has_page x)
has_page-Additive x o p = ground (arith, two-pow-succ o)

pub pages-Additive : Additive (λ o p. pages o)
pages-Additive o p = two-pow-succ o

abbrev pub sum_list : (ℕ → ℕ → ℕ) → ℕ → List ℕ → ℕ
sum_list f o [] = 0
sum_list f o (p ∷ ps) = f o p + sum_list f o ps

-- The sum over the lists of the orders below `n`.
abbrev pub weigh : (ℕ → ℕ → ℕ) → ℕ → (ℕ → List ℕ) → ℕ
weigh f zero lists = 0
weigh f (suc n) lists = weigh f n lists + sum_list f n (lists n)

weigh-at_put_ge :
    (f : ℕ → ℕ → ℕ) (n o : ℕ) (l : List ℕ) (lists : ℕ → List ℕ)
    → n ≤ o
    → weigh f n (at_put o l lists) ≡ weigh f n lists
weigh-at_put_ge f zero o l lists h = refl
weigh-at_put_ge f (suc n) o l lists h =
    let e : (n == o) ≡ false = ground arith in
    rw (e, weigh-at_put_ge f n o l lists (omega arith)) refl

pub weigh-at_put :
    (f : ℕ → ℕ → ℕ) (n o : ℕ) (l : List ℕ) (lists : ℕ → List ℕ)
    → o < n
    → weigh f n (at_put o l lists) + sum_list f o (lists o) ≡ weigh f n lists + sum_list f o l
weigh-at_put f zero o l lists h = absurd (omega arith)
weigh-at_put f (suc n) o l lists h = elim (Bool-cases (n == o)) [
  | inl e ↦
      let e' : n ≡ o = ground arith in
      rw (e, weigh-at_put_ge f n o l lists (omega (arith, e'))) (rw e' (omega arith))
  | inr e ↦ rw e (omega (arith, weigh-at_put f n o l lists (ground arith)))
]

abbrev pub IsIn : ℕ → List ℕ → Type 0
IsIn p [] = ⊥
IsIn p (q ∷ qs) = (p ≡ q) ⊎ IsIn p qs

-- A list without one of its elements.
pub record TakenOut (p : ℕ) (ps qs : List ℕ) : Type 1 where
  pub sum : (f : ℕ → ℕ → ℕ) (o : ℕ) → sum_list f o ps ≡ f o p + sum_list f o qs
  pub held : (P : ℕ → Type 0) → All P ps → P p × All P qs
  pub left : (q : ℕ) → q ≢ p → IsIn q ps → IsIn q qs

abbrev TakesOut : ℕ → List ℕ → Option (List ℕ) → Type 1
TakesOut p ps none = Unit
TakesOut p ps (some qs) = TakenOut p ps qs

pub TakenOut-head : (p : ℕ) (ps : List ℕ) → TakenOut p (p ∷ ps) ps
TakenOut-head p ps = record {
  sum = λ f o. refl;
  held = λ P h. h;
  left = λ q n i. elim i [ inl e ↦ absurd (n e) | inr j ↦ j ];
}

take_out-TakesOut : (p : ℕ) (ps : List ℕ) → TakesOut p ps (take_out p ps)
unfolding take_out
take_out-TakesOut p [] = tt
take_out-TakesOut p (x ∷ ps) = elim (Bool-cases (x == p)) [
  | inl e ↦
      let e' : x ≡ p = ground arith in
      rw e (subst (λ y. TakenOut p (y ∷ ps) ps) (sym e') (TakenOut-head p ps))
  | inr e ↦ elim (Option-cases (take_out p ps)) [
    | inl k ↦ rw (e, k) tt
    | inr (qs, k) ↦
        let i = subst (TakesOut p ps) k (take_out-TakesOut p ps) in
        rw (e, k)
          (record {
            sum = λ f o. omega (arith, i.sum f o);
            held = λ P h. ((i.held P h.1).0, (h.0, (i.held P h.1).1));
            left = λ q n j. elim j [ inl m ↦ inl m | inr m ↦ inr (i.left q n m) ];
          })
  ]
]

take_out-IsIn : (p : ℕ) (ps : List ℕ) → IsIn p ps → (qs : List ℕ) × (take_out p ps ≡ some qs)
unfolding take_out
take_out-IsIn p [] h = absurd h
take_out-IsIn p (x ∷ ps) h = elim (Bool-cases (x == p)) [
  | inl e ↦ (ps, rw e refl)
  | inr e ↦ elim h [
    | inl k ↦ absurd (ground arith)
    | inr k ↦ let (qs, m) = take_out-IsIn p ps k in (x ∷ qs, rw (e, m) refl)
  ]
]

-- A list that holds the element gives it up.
pub take_out-some :
    (p : ℕ) (ps : List ℕ) → IsIn p ps → (qs : List ℕ) × (take_out p ps ≡ some qs) × TakenOut p ps qs
take_out-some p ps h =
    let (qs, e) = take_out-IsIn p ps h in (qs, e, subst (TakesOut p ps) e (take_out-TakesOut p ps))

-- A block of this order that starts at `p`: aligned to its size, and within the managed frames.
pub record Block (base total o p : ℕ) : Type 0 where
  pub index : ℕ
  pub aligned : p ≡ index * pages o
  pub low : base ≤ p
  pub high : p + pages o ≤ base + total

pub pages-pos : (o : ℕ) → 0 < pages o
pages-pos o = one-le-pow o 2 (omega arith)

-- The two halves of a block.
pub record Halves (base total o p : ℕ) : Type 0 where
  pub other : buddy p o ≡ p + pages o
  pub lower : Block base total o p
  pub upper : Block base total o (p + pages o)

buddy-even : (o k : ℕ) → buddy (2 * k * pages o) o ≡ 2 * k * pages o + pages o
unfolding buddy
buddy-even o k = rw (mul-div_cancel (2 * k) (pages-pos o)) (ground arith)

buddy-odd : (o k : ℕ) → buddy ((2 * k + 1) * pages o) o ≡ (2 * k + 1) * pages o - pages o
unfolding buddy
buddy-odd o k = rw (mul-div_cancel (2 * k + 1) (pages-pos o)) (ground arith)

pub Block-Halves : (base total o p : ℕ) → Block base total (suc o) p → Halves base total o p
Block-Halves base total o p b =
    let e : p ≡ 2 * b.index * pages o = grind (arith, b.aligned, two-pow-succ o) in
    record {
      other = subst (λ q. buddy q o ≡ q + pages o) (sym e) (buddy-even o b.index);
      lower = record {
        index = 2 * b.index;
        aligned = e;
        low = b.low;
        high = omega (arith, b.high, two-pow-succ o);
      };
      upper = record {
        index = 2 * b.index + 1;
        aligned = grind (arith, e);
        low = omega (arith, b.low);
        high = omega (arith, b.high, two-pow-succ o);
      };
    }

-- A block and its buddy, where both are within the managed frames.
pub record Joined (base total o p : ℕ) : Type 0 where
  pub block : Block base total (suc o) (min p (buddy p o))
  pub sum : (f : ℕ → ℕ → ℕ) → Additive f → f (suc o) (min p (buddy p o)) ≡ f o p + f o (buddy p o)

module _ (base total o p j : ℕ) where
  join_even :
      p ≡ 2 * j * pages o
      → Block base total o p
      → Block base total o (buddy p o)
      → Joined base total o p
  join_even e b c =
      let d : buddy p o ≡ p + pages o =
        subst (λ q. buddy q o ≡ q + pages o) (sym e) (buddy-even o j) in
      let m : min p (buddy p o) ≡ p = omega (arith, d) in
      record {
        block = rw m (record {
          index = j;
          aligned = grind (arith, e, two-pow-succ o);
          low = b.low;
          high = omega (arith, c.high, d, two-pow-succ o);
        });
        sum = λ f a. rw (m, d) (a o p);
      }

  join_odd :
      p ≡ (2 * j + 1) * pages o
      → Block base total o p
      → Block base total o (buddy p o)
      → Joined base total o p
  join_odd e b c =
      let d : buddy p o ≡ p - pages o =
        subst (λ q. buddy q o ≡ q - pages o) (sym e) (buddy-odd o j) in
      let l : p ≡ 2 * j * pages o + pages o = grind (arith, e) in
      let m : min p (buddy p o) ≡ 2 * j * pages o = omega (arith, d, l) in
      let d' : buddy p o ≡ 2 * j * pages o = omega (arith, d, l) in
      record {
        block = rw m (record {
          index = j;
          aligned = grind (arith, two-pow-succ o);
          low = omega (arith, c.low, d');
          high = omega (arith, b.high, l, two-pow-succ o);
        });
        sum = λ f a. rw (m, d') (omega (arith, a o (2 * j * pages o), ap (f o) l));
      }

pub Block-Joined :
    (base total o p : ℕ)
    → Block base total o p
    → Block base total o (buddy p o)
    → Joined base total o p
Block-Joined base total o p b c =
    let parity : (b.index ≡ 2 * (b.index / 2)) ⊎ (b.index ≡ 2 * (b.index / 2) + 1) = omega arith in
    elim parity [
      | inl e ↦ join_even base total o p (b.index / 2) (b.aligned ∙ ap (λ k. k * pages o) e) b c
      | inr e ↦ join_odd base total o p (b.index / 2) (b.aligned ∙ ap (λ k. k * pages o) e) b c
    ]
