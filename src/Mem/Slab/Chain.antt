-- ===== src/Mem/Slab/Chain.antt =====
-- libkernel/src/memory/allocators/slab/slab.rs: the list of the free objects that is threaded through them.
use moss.Common.{
  ℕ, zero, suc, ◌+◌, ◌%◌, ◌^◌, ◌≤◌, ◌<◌, ◌≡◌, ◌≢◌, refl, sym, ap, ◌∙◌, true, false, Option, none,
  some, List, [], ◌∷◌, All, ◌==◌, if◌then◌else◌, arith,
}
use mathlib.Core.Path.{subst}
use moss.Mem.Frames.{Slab, at_put}
use moss.Mem.Slab.{Memory, u16_max, calc_obj_idx, capacity, write_links, link_of, link_to}
use moss.Mem.Slab.Slots.{IsPlaced, capacity_small, calc_obj_idx_ne}

pub at_put_self : {A : Type 0} (i : ℕ) (a : A) (f : ℕ → A) → at_put i a f i ≡ a
at_put_self i a f = let e : (i == i) ≡ true = ground arith in rw e refl

at_put_other : {A : Type 0} (i j : ℕ) (a : A) (f : ℕ → A) → i ≢ j → at_put i a f j ≡ f j
at_put_other i j a f n = let e : (j == i) ≡ false = ground (arith, n) in rw e refl

not_end : (j c : ℕ) → j < c → c ≤ 8192 → (j == u16_max) ≡ false
not_end j c h k = ground (arith, h, k)

link_of-small : (j c : ℕ) → j < c → c ≤ 8192 → link_of j ≡ some j
unfolding link_of
link_of-small j c h k = rw (not_end j c h k, link_of) refl

next_small : (n i : ℕ) → i + 1 < 8192 → (if suc n == 0 then u16_max else (i + 1) % 2 ^ 16) ≡ i + 1
next_small n i h = ground (arith, h)

-- The numbers from `i` on, `n` of them.
abbrev pub range : ℕ → ℕ → List ℕ
range zero i = []
range (suc n) i = i ∷ range n (suc i)

abbrev pub first : ℕ → ℕ → Option ℕ
first zero i = none
first (suc n) i = some i

pub first-eq : (n : ℕ) → 1 ≤ n → first n 0 ≡ some 0
first-eq zero h = absurd (omega arith)
first-eq (suc n) h = refl

module _ (s : Slab) where
  -- The objects of the list, from the link `o` on, are the free ones, in this order.
  abbrev pub Chain : Memory → Option ℕ → List ℕ → Type 0
  Chain m none [] = Unit
  Chain m none (i ∷ is) = ⊥
  Chain m (some j) [] = ⊥
  Chain m (some j) (i ∷ is) = (j ≡ i) × Chain m (link_of (m (calc_obj_idx s i))) is

  -- Memory that agrees at the starts of the free objects.
  pub Chain-agree :
      (m m' : Memory) (is : List ℕ) (o : Option ℕ)
      → All (λ i. m' (calc_obj_idx s i) ≡ m (calc_obj_idx s i)) is
      → Chain m o is
      → Chain m' o is
  Chain-agree m m' [] none a c = c
  Chain-agree m m' [] (some j) a c = c
  Chain-agree m m' (i ∷ is) none a c = c
  Chain-agree m m' (i ∷ is) (some j) (e, a) (k, c) =
      (k, Chain-agree m m' is _ a (subst (λ x. Chain m (link_of x) is) (sym e) c))

  -- A write to an object that is not in the list.
  pub untouched :
      (h : IsPlaced s) (m : Memory) (i v : ℕ) (is : List ℕ)
      → i < capacity s
      → All (λ j. j < capacity s) is
      → All (λ j. i ≢ j) is
      → All (λ j. at_put (calc_obj_idx s i) v m (calc_obj_idx s j) ≡ m (calc_obj_idx s j)) is
  untouched h m i v [] l a n = tt
  untouched h m i v (j ∷ is) l (b, a) (c, n) = (
    at_put_other (calc_obj_idx s i) (calc_obj_idx s j) v m (calc_obj_idx_ne s h i j l b c),
    untouched h m i v is l a n,
  )

  -- A link read back.
  link_of-link_to :
      (h : IsPlaced s) (m : Memory) (o : Option ℕ) (is : List ℕ)
      → All (λ j. j < capacity s) is
      → Chain m o is
      → link_of (link_to o) ≡ o
  unfolding link_of
  link_of-link_to h m none is a c = refl
  link_of-link_to h m (some j) [] a c = absurd c
  link_of-link_to h m (some j) (i ∷ is) (l, a) (e, c) =
      link_of-small j (capacity s) (omega (arith, l, e)) (capacity_small s h)

  pub Chain-push :
      (h : IsPlaced s) (m : Memory) (i : ℕ) (o : Option ℕ) (is : List ℕ)
      → i < capacity s
      → All (λ j. j < capacity s) is
      → All (λ j. i ≢ j) is
      → Chain m o is
      → Chain (at_put (calc_obj_idx s i) (link_to o) m) (some i) (i ∷ is)
  Chain-push h m i o is l a n c =
      let m' = at_put (calc_obj_idx s i) (link_to o) m in
      let e =
        ap link_of (at_put_self (calc_obj_idx s i) (link_to o) m) ∙ link_of-link_to h m o is a c in
      (
        refl,
        subst (λ x. Chain m' x is) (sym e)
            (Chain-agree m m' is o (untouched h m i (link_to o) is l a n) c),
      )

  write_links-before :
      (h : IsPlaced s) (n i j : ℕ) (m : Memory)
      → i + n ≤ capacity s
      → j < i
      → write_links n i s m (calc_obj_idx s j) ≡ m (calc_obj_idx s j)
  unfolding write_links
  write_links-before h zero i j m l k = refl
  write_links-before h (suc n) i j m l k =
      write_links-before h n (suc i) j _ (omega (arith, l)) (omega (arith, k))
      ∙ at_put_other (calc_obj_idx s i) (calc_obj_idx s j) _ m (
          calc_obj_idx_ne s h i j (omega (arith, l)) (omega (arith, l, k))
            (λ e. ground (arith, e, k)))

  link_of-next :
      (h : IsPlaced s) (n i : ℕ)
      → i + suc n ≤ capacity s
      → link_of (if n == 0 then u16_max else (i + 1) % 2 ^ 16) ≡ first n (suc i)
  unfolding link_of
  link_of-next h zero i l = refl
  link_of-next h (suc n) i l =
      let k = capacity_small s h in
      ap link_of (next_small n i (omega (arith, l, k)))
      ∙ link_of-small (i + 1) (capacity s) (omega (arith, l)) k
      ∙ ap some (omega arith)

  -- The loop of `new` threads all objects.
  pub write_links-Chain :
      (h : IsPlaced s) (n i : ℕ) (m : Memory)
      → i + n ≤ capacity s
      → Chain (write_links n i s m) (first n i) (range n i)
  unfolding write_links
  write_links-Chain h zero i m l = tt
  write_links-Chain h (suc n) i m l =
      let v = if n == 0 then u16_max else (i + 1) % 2 ^ 16 in
      let m1 = at_put (calc_obj_idx s i) v m in
      let k = write_links-Chain h n (suc i) m1 (omega (arith, l)) in
      let e =
        ap link_of (
          write_links-before h n (suc i) i m1 (omega (arith, l)) (omega arith)
          ∙ at_put_self (calc_obj_idx s i) v m)
        ∙ link_of-next h n i l in
      (refl, subst (λ x. Chain (write_links n (suc i) s m1) x (range n (suc i))) (sym e) k)

-- The list of a slab that differs in what it says of the list alone.
pub Chain-move :
    (s : Slab) (f : Option ℕ) (n : ℕ) (m : Memory) (is : List ℕ) (o : Option ℕ)
    → Chain s m o is
    → Chain (record s { next_free = f; num_free = n }) m o is
unfolding calc_obj_idx
Chain-move s f n m [] none c = c
Chain-move s f n m [] (some j) c = c
Chain-move s f n m (i ∷ is) none c = c
Chain-move s f n m (i ∷ is) (some j) (k, c) = (k, Chain-move s f n m is _ c)

pub Chain-head :
    (s : Slab) (m : Memory) (o : Option ℕ) (i : ℕ) (is : List ℕ)
    → Chain s m o (i ∷ is)
    → (o ≡ some i) × Chain s m (link_of (m (calc_obj_idx s i))) is
Chain-head s m none i is c = absurd c
Chain-head s m (some j) i is (e, c) = (ap some e, c)
