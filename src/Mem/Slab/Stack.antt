-- ===== src/Mem/Slab/Stack.antt =====
-- libkernel/src/memory/allocators/slab/slab.rs: a slab as a stack of free objects.
use moss.Common.{
  ℕ, zero, suc, ◌+◌, ◌-◌, ◌*◌, ◌/◌, ◌^◌, ◌≤◌, ◌<◌, ◌≡◌, ◌≢◌, refl, sym, ap, true, false, Option,
  none, some, List, [], ◌∷◌, All, length, ◌==◌, ◌&&◌, leb, arith, done, usize_mod,
}
use mathlib.Core.Path.{subst}
use moss.Mem.Frames.{Slab, at_put}
use moss.Mem.Frames.Sound.{Runs}
use moss.Mem.Slab.{
  Memory, slab_size_bytes, slab_max_obj_shift, calc_obj_idx, capacity, write_links, link_of,
  link_to, new, alloc_object, put_object,
}
use moss.Mem.Slab.Slots.{
  IsPlaced, calc_obj_idx_ne, calc_obj_idx-eq, contains-calc_obj_idx, idx-calc_obj_idx,
}
use moss.Mem.Slab.Chain.{
  Chain, Chain-head, Chain-move, Chain-agree, Chain-push, untouched, range, first-eq,
  write_links-Chain,
}
use native.Mathlib.Nat.{pow-le-pow_right, le-div_iff_mul-le, one-le-pow}

abbrev pub Distinct : List ℕ → Type 0
Distinct [] = Unit
Distinct (i ∷ is) = All (λ j. i ≢ j) is × Distinct is

-- The free objects of the slab `s` over the memory `m` are `is`, the next one first.
pub record Holds (m : Memory) (s : Slab) (is : List ℕ) : Type 0 where
  pub placed : IsPlaced s
  pub chain : Chain s m s.next_free is
  pub count : s.num_free ≡ length is
  pub small : All (λ i. i < capacity s) is
  pub distinct : Distinct is

-- What an allocation answers: none, where no object is free; or the address of the first of them, which is in the slab
-- and is that of no object that is free afterwards.
abbrev pub Answers : Memory → Slab → List ℕ → Option ℕ × Slab → Type 0
Answers m s [] r = r ≡ (none, s)
Answers m s (i ∷ is) r =
    (r.0 ≡ some (s.base + i * 2 ^ s.obj_shift))
    × (i < capacity s)
    × All (λ j. calc_obj_idx s i ≢ calc_obj_idx r.1 j) is
    × Holds m r.1 is

all_ne :
    (s : Slab) (h : IsPlaced s) (i : ℕ) (is : List ℕ)
    → i < capacity s
    → All (λ j. j < capacity s) is
    → All (λ j. i ≢ j) is
    → All (λ j. calc_obj_idx s i ≢ calc_obj_idx s j) is
all_ne s h i [] l a n = tt
all_ne s h i (j ∷ is) l (b, a) (c, n) = (calc_obj_idx_ne s h i j l b c, all_ne s h i is l a n)

alloc_some :
    (m : Memory) (s : Slab) (j k : ℕ)
    → s.num_free ≡ suc k
    → s.next_free ≡ some j
    → alloc_object m s
      ≡ done (
        some (calc_obj_idx s j),
        record s { next_free = link_of (m (calc_obj_idx s j)); num_free = s.num_free - 1 },
      )
unfolding alloc_object
alloc_some m s j k e f =
    let n : (s.num_free == 0) ≡ false = ground (arith, e) in simp (n, f, alloc_object) refl

-- Where the chain of links from `next_free` on through the memory goes through the distinct objects `is`, and
-- `num_free` is their number, `alloc_object` does not panic. If there are none, it answers none and changes
-- nothing; else it answers the address of the first one, which lies in the slab and is not the address of an
-- object that is free afterwards, and the rest of `is` are then the free objects in the same sense.
pub alloc_object-Answers :
    (m : Memory) (s : Slab) (is : List ℕ) → Holds m s is → Runs (Answers m s is) (alloc_object m s)
unfolding alloc_object calc_obj_idx capacity
alloc_object-Answers m s [] h =
    let n : (s.num_free == 0) ≡ true = ground (arith, h.count) in
    ((none, s), simp (n, alloc_object) refl, refl)
alloc_object-Answers m s (i ∷ is) h =
    let (f, c) = Chain-head s m s.next_free i is h.chain in
    let o = link_of (m (calc_obj_idx s i)) in
    let s' = record s { next_free = o; num_free = s.num_free - 1 } in
    (
      (some (calc_obj_idx s i), s'),
      alloc_some m s i (length is) h.count f,
      (
        ap some (calc_obj_idx-eq s h.placed i h.small.0),
        h.small.0,
        all_ne s h.placed i is h.small.0 h.small.1 h.distinct.0,
        record {
          placed = record { least = h.placed.least; most = h.placed.most; fits = h.placed.fits };
          chain = Chain-move s o (s.num_free - 1) m is o c;
          count = omega (arith, h.count);
          small = h.small.1;
          distinct = h.distinct.1;
        },
      ),
    )

-- What a release does to the memory and the slab.
abbrev pub Released : ℕ → List ℕ → Slab × Memory → Type 0
Released i is r = Holds r.1 r.0 (i ∷ is)

-- Where the free objects of a slab are `is`, and `i` is the number of an object of the slab that is not free,
-- `put_object` of the address of that object does not panic, and the free objects are then `i` and after it `is`.
pub put_object-Released :
    (m : Memory) (s : Slab) (i : ℕ) (is : List ℕ)
    → Holds m s is
    → i < capacity s
    → All (λ j. i ≢ j) is
    → Runs (Released i is) (put_object (s.base + i * 2 ^ s.obj_shift) m s)
unfolding put_object calc_obj_idx capacity
put_object-Released m s i is h l n =
    let ptr = calc_obj_idx s i in
    let m' = at_put ptr (link_to s.next_free) m in
    let s' = record s { num_free = s.num_free + 1; next_free = some i } in
    let e = contains-calc_obj_idx s h.placed i l in
    let d = idx-calc_obj_idx s h.placed i l in
    let k : put_object ptr m s ≡ done (s', m') = simp (e, d, put_object) refl in
    (
      (s', m'),
      subst (λ x. put_object x m s ≡ done (s', m')) (calc_obj_idx-eq s h.placed i l) k,
      record {
        placed = record { least = h.placed.least; most = h.placed.most; fits = h.placed.fits };
        chain =
            Chain-move s (some i) (s.num_free + 1) m' (i ∷ is) (some i)
              (Chain-push s h.placed m i s.next_free is l h.small n h.chain);
        count = omega (arith, h.count);
        small = (l, h.small);
        distinct = (n, h.distinct);
      },
    )

-- What the owners of objects write, at the starts of objects that are not free, does not matter.
pub write_object-Holds :
    (m : Memory) (s : Slab) (i v : ℕ) (is : List ℕ)
    → Holds m s is
    → i < capacity s
    → All (λ j. i ≢ j) is
    → Holds (at_put (calc_obj_idx s i) v m) s is
write_object-Holds m s i v is h l n = record {
  placed = h.placed;
  chain =
      Chain-agree s m (at_put (calc_obj_idx s i) v m) is s.next_free
        (untouched s h.placed m i v is l h.small n) h.chain;
  count = h.count;
  small = h.small;
  distinct = h.distinct;
}

range-small : (n i c : ℕ) → i + n ≤ c → All (λ j. j < c) (range n i)
range-small zero i c h = tt
range-small (suc n) i c h = (omega (arith, h), range-small n (suc i) c (omega (arith, h)))

range-above : (n i k : ℕ) → i < k → All (λ j. i ≢ j) (range n k)
range-above zero i k h = tt
range-above (suc n) i k h = (λ e. ground (arith, e, h), range-above n i (suc k) (omega (arith, h)))

range-Distinct : (n i : ℕ) → Distinct (range n i)
range-Distinct zero i = tt
range-Distinct (suc n) i = (range-above n i (suc i) (omega arith), range-Distinct n (suc i))

length-range : (n i : ℕ) → length (range n i) ≡ n
length-range zero i = refl
length-range (suc n) i = ap suc (length-range n (suc i))

-- For every size of objects from 2 bytes to 8 KiB, and a block of four pages that ends within the address space,
-- `new` does not panic, and the free objects of the slab that it makes at that address are all those that the
-- block has room for, in the order of their addresses.
pub new-Holds :
    (va k : ℕ) (m : Memory)
    → 1 ≤ k
    → k ≤ slab_max_obj_shift
    → va + slab_size_bytes < usize_mod
    → Runs
        (λ r.
          Holds r.1 r.0 (range (slab_size_bytes / 2 ^ k) 0) × (r.0.base ≡ va) × (r.0.obj_shift ≡ k))
        (new va slab_size_bytes k m)
unfolding new capacity
new-Holds va k m h1 h2 h3 =
    let c = slab_size_bytes / 2 ^ k in
    let s : Slab = record { obj_shift = k; num_free = c; next_free = some 0; base = va } in
    let p : IsPlaced s = record { least = h1; most = h2; fits = h3 } in
    let e : (leb 1 k && leb k slab_max_obj_shift) ≡ true = ground (arith, h1, h2) in
    let w : 2 ^ k ≤ slab_size_bytes = omega (arith, pow-le-pow_right {n = 2} (omega arith) h2) in
    let one : 1 ≤ c = (le-div_iff_mul-le (one-le-pow k 2 (omega arith))).1 (omega (arith, w)) in
    (
      (s, write_links c 0 s m),
      simp (e, new) refl,
      (
        record {
          placed = p;
          chain =
              subst (λ x. Chain s (write_links c 0 s m) x (range c 0)) (first-eq c one)
                (write_links-Chain s p c 0 m (omega arith));
          count = sym (length-range c 0);
          small = range-small c 0 c (omega arith);
          distinct = range-Distinct c 0;
        },
        refl,
        refl,
      ),
    )
