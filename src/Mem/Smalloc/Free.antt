-- ===== src/Mem/Smalloc/Free.antt =====
-- libkernel/src/memory/allocators/smalloc.rs: what `free` does, where the list of reservations has room.
use moss.Common.{
  ℕ, suc, ◌+◌, ◌-◌, ◌≤◌, ◌<◌, ◌≡◌, inl, inr, refl, Bool, true, false, not, ◌&&◌, ◌||◌, Option, none,
  some, List, [], ◌∷◌, All, ltb, leb, if◌then◌else◌, usize_mod, arith, Bool-cases, Option-cases, ok,
  err, KernelError, length, ap, ◌∙◌,
}
use mathlib.Core.Path.{subst}
use moss.Mem.Region.{Region, contains, end_address}
use moss.Mem.RegionList.{count, remove_at}
use moss.Mem.RegionList.Insert.{Spaced, Spaced-lower, inside, covered, merged-Spaced}
use moss.Mem.RegionList.Clear.{EndsBelow, merged-Inserted}
use moss.Mem.Smalloc.{Smalloc, returns, panics, spins, Outcome, reserving, position, cut, free}
use moss.Mem.Smalloc.Alloc.{reserved, reserving-room, requires_reallocation-room}

covered-below : (lo a : ℕ) (xs : List Region) → Spaced lo xs → a < lo → covered xs a ≡ false
covered-below lo a [] s h = refl
covered-below lo a (x ∷ xs) s h = ground (arith, covered-below (x.address + x.size + 1) a xs s.2)

-- What `position` finds: the region at the index, which holds the block, and the list without it.
record Found (lo : ℕ) (block : Region) (xs : List Region) (i : ℕ) (old : Region) : Type 0 where
  within : i < length xs
  low : old.address ≤ block.address
  high : block.address + block.size ≤ old.address + old.size
  short : old.address + old.size < usize_mod
  spaced : Spaced lo (remove_at i xs)
  fewer : suc (length (remove_at i xs)) ≡ length xs
  apart : (a : ℕ) → inside old a ≡ true → covered (remove_at i xs) a ≡ false
  split : (a : ℕ) → covered xs a ≡ (inside old a || covered (remove_at i xs) a)

abbrev Position : ℕ → Region → List Region → Option (ℕ × Region) → Type 0
Position lo block xs none = All (λ r. contains r block ≡ false) xs
Position lo block xs (some (i, old)) = Found lo block xs i old

holds :
    (x block : Region)
    → block.address + block.size < usize_mod
    → x.address + x.size < usize_mod
    → 0 < block.size
    → 0 < x.size
    → contains x block ≡ true
    → (x.address ≤ block.address) × (block.address + block.size ≤ x.address + x.size)
unfolding contains
holds x block f g p z h = ground arith

position-Position :
    (lo : ℕ) (block : Region) (xs : List Region)
    → Spaced lo xs
    → All (λ x. 0 < x.size) xs
    → block.address + block.size < usize_mod
    → 0 < block.size
    → Position lo block xs (position block xs)
unfolding position remove_at
position-Position lo block [] s z f p = tt
position-Position lo block (x ∷ xs) s z f p = elim (Bool-cases (contains x block)) [
  | inl e ↦
      rw (e, position)
        (record {
          within = omega arith;
          low = (holds x block f s.1 p z.0 e).0;
          high = (holds x block f s.1 p z.0 e).1;
          short = s.1;
          spaced = Spaced-lower _ lo xs (omega arith) s.2;
          fewer = refl;
          apart = λ a h. covered-below _ a xs s.2 (ground arith);
          split = λ a. refl;
        })
  | inr e ↦
      let ih = position-Position (x.address + x.size + 1) block xs s.2 z.1 f p in
      elim (Option-cases (position block xs)) [
        | inl q ↦ rw (e, position) (rw (q, position) (e, subst (Position _ block xs) q ih))
        | inr (k, q) ↦
            let j = subst (Position _ block xs) q ih in
            rw (e, position)
              (rw (q, position)
                (record {
                  within = omega (arith, j.within);
                  low = j.low;
                  high = j.high;
                  short = j.short;
                  spaced = (s.0, s.1, j.spaced);
                  fewer = ap suc j.fewer;
                  apart = λ a h. ground (
                    arith,
                    j.apart a,
                    j.split a,
                    covered-below (x.address + x.size + 1) a xs s.2,
                  );
                  split = λ a. ground (arith, j.split a);
                }))
      ]
]

-- A state of the allocator in which the reservations cover what the test says, and which is otherwise
-- as it was.
pub record Freed (self s : Smalloc) (test : ℕ → Bool) : Type 0 where
  pub memory : s.memory ≡ self.memory
  pub spaced : Spaced 0 s.res.regions
  pub covers : (a : ℕ) → covered s.res.regions a ≡ test a

reserved-Freed :
    (r : Region) (self s : Smalloc) (test test' : ℕ → Bool)
    → r.address + r.size < usize_mod
    → Freed self s test
    → ((a : ℕ) → (inside r a || test a) ≡ test' a)
    → Freed self (reserved r s) test'
unfolding reserved
reserved-Freed r self s test test' f g h =
    let m = merged-Spaced r s.res.regions g.spaced f in
    record {
      memory = g.memory;
      spaced = m.0;
      covers = λ a. m.1 a ∙ (ap (λ b. inside r a || b) (g.covers a) ∙ h a);
    }

EndsBelow-Spaced : (lo : ℕ) (xs : List Region) → Spaced lo xs → EndsBelow usize_mod xs
EndsBelow-Spaced lo [] s = tt
EndsBelow-Spaced lo (x ∷ xs) s = (s.1, EndsBelow-Spaced (x.address + x.size + 1) xs s.2)

length-reserved :
    (r : Region) (s : Smalloc) (test : ℕ → Bool) (self : Smalloc)
    → r.address + r.size < usize_mod
    → Freed self s test
    → count (reserved r s).res ≤ suc (count s.res)
unfolding reserved
length-reserved r s test self f g =
    (merged-Inserted 0 1 usize_mod (omega arith) (omega arith) r s.res.regions f
      (EndsBelow-Spaced 0 s.res.regions g.spaced)).longer

-- What `free` comes to.
abbrev pub Released : Region → Smalloc → Outcome (Unit {0}) → Type 0
Released block self panics = ⊥
Released block self spins = ⊥
Released block self (returns (err e, s)) =
    (e ≡ KernelError.no_mem_region)
    × (s ≡ self)
    × All (λ r. contains r block ≡ false) self.res.regions
Released block self (returns (ok _, s)) =
    Freed self s (λ a. covered self.res.regions a && not (inside block a))

module _ (block : Region) (self : Smalloc) (p : 0 < block.size)
    (room : count self.res + 1 < self.res.max) where
  taken : ℕ → Smalloc
  taken i = record self { res = record self.res { regions = remove_at i self.res.regions } }

  rest : ℕ → ℕ → Bool
  rest i a = covered (remove_at i self.res.regions) a

  with_left : ℕ → Region → ℕ → Bool
  with_left i old a = (leb old.address a && ltb a block.address) || rest i a

  taken-Freed :
      (i : ℕ) (old : Region) → Found 0 block self.res.regions i old → Freed self (taken i) (rest i)
  unfolding taken rest
  taken-Freed i old h = record { memory = refl; spaced = h.spaced; covers = λ a. refl }

  -- The part before the block is back, or there is none.
  left-Freed :
      (i : ℕ) (old : Region)
      → Found 0 block self.res.regions i old
      → ltb old.address block.address ≡ true
      → Freed self
          (reserved
            (record { address = old.address; size = block.address - old.address })
            (taken i))
          (with_left i old)
  unfolding with_left
  left-Freed i old h e =
      reserved-Freed _ self (taken i) (rest i) (with_left i old)
        (omega (arith, h.low, h.high, h.short)) (taken-Freed i old h) (λ a. ground (arith, h.low))

  whole :
      (i : ℕ) (old : Region) (a : ℕ)
      → Found 0 block self.res.regions i old
      → (covered self.res.regions a && not (inside block a)) ≡ (
          (leb (block.address + block.size) a && ltb a (old.address + old.size))
          || with_left i old a)
  unfolding with_left rest
  whole i old a h = ground (arith, h.split a, h.apart a, h.low, h.high)

  left_of : Region → Region
  left_of old = record { address = old.address; size = block.address - old.address }

  -- What `cut` does after the part before the block.
  ending : Region → Smalloc → Outcome (Unit {0})
  ending old s =
      if ltb (end_address block) (end_address old)
      then reserving
          (record { address = end_address block; size = end_address old - end_address block }) s
          (λ s'. returns (ok tt, s'))
      else returns (ok tt, s)

  cut-eq :
      (i : ℕ) (old : Region)
      → i < length self.res.regions
      → cut i old block self ≡ (
          if ltb old.address block.address
          then reserving (left_of old) (taken i) (ending old)
          else ending old (taken i))
  unfolding cut ending taken left_of
  cut-eq i old h = let e : leb (count self.res) i ≡ false = ground arith in rw (e, cut) refl

  ending-Released :
      (i : ℕ) (old : Region) (s : Smalloc)
      → Found 0 block self.res.regions i old
      → Freed self s (with_left i old)
      → count s.res < s.res.max
      → Released block self (ending old s)
  unfolding ending
  ending-Released i old s h g m =
      let a : end_address block ≡ block.address + block.size = omega (arith, h.high, h.short) in
      let b : end_address old ≡ old.address + old.size = omega (arith, h.short) in
      elim (Bool-cases (ltb (block.address + block.size) (old.address + old.size))) [
        | inl e ↦
            rw (a, b, e, ending)
              (rw (reserving-room _ s (λ s'. returns (ok tt, s')) m) (
                reserved-Freed _ self s (with_left i old) _ (ground (arith, h.short)) g
                  (λ x. ground (arith, whole i old x h))))
        | inr e ↦
            rw (a, b, e, ending)
              (record {
                memory = g.memory;
                spaced = g.spaced;
                covers = λ x. ground (arith, g.covers x, whole i old x h);
              })
      ]

  -- Where the block starts the region, there is no part before it.
  no_left :
      (i : ℕ) (old : Region) (a : ℕ)
      → Found 0 block self.res.regions i old
      → ltb old.address block.address ≡ false
      → rest i a ≡ with_left i old a
  unfolding with_left
  no_left i old a h e = let l : old.address ≡ block.address = ground (arith, h.low) in ground arith

  cut-Released :
      (i : ℕ) (old : Region)
      → Found 0 block self.res.regions i old
      → Released block self (cut i old block self)
  unfolding left_of taken reserved with_left
  cut-Released i old h =
      rw (cut-eq i old h.within) (elim (Bool-cases (ltb old.address block.address)) [
        | inl e ↦ rw e (
            rw (reserving-room (left_of old) (taken i) (ending old) (omega (arith, h.fewer))) (
              ending-Released i old (reserved (left_of old) (taken i)) h (left-Freed i old h e) (
                omega (
                  arith,
                  h.fewer,
                  length-reserved (left_of old) (taken i) (rest i) self
                      (omega (arith, h.low, h.high, h.short)) (taken-Freed i old h),
                ))))
        | inr e ↦ rw e (
            ending-Released i old (taken i) h
              (record {
                memory = refl;
                spaced = h.spaced;
                covers = λ a. (taken-Freed i old h).covers a ∙ no_left i old a h e;
              })
              (omega (arith, h.fewer)))
      ])

  -- For a block that is not empty and does not wrap, on a list of reservations that is in order, holds none
  -- that is empty, and has room for one more: `free` ends, and takes exactly the addresses of the block
  -- out of the reservations; or no reservation holds the block, and nothing changes.
  pub free-Released :
      (to_va : ℕ → ℕ) (n : ℕ)
      → self.res.max < usize_mod
      → Spaced 0 self.res.regions
      → All (λ r. 0 < r.size) self.res.regions
      → block.address + block.size < usize_mod
      → Released block self (free to_va (suc n) block.address block.size self)
  unfolding free
  free-Released to_va n w s z f =
      let k = position-Position 0 block self.res.regions s z f p in
      elim (Option-cases (position block self.res.regions)) [
        | inl q ↦ rw (q, free) (refl, refl, subst (Position 0 block self.res.regions) q k)
        | inr (x, q) ↦
            rw (q, free)
              (rw (requires_reallocation-room self.res room w, free)
                (cut-Released x.0 x.1 (subst (Position 0 block self.res.regions) q k)))
      ]
