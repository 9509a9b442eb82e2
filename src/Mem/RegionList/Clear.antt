-- ===== src/Mem/RegionList/Clear.antt =====
-- libkernel/src/memory/allocators/smalloc.rs: which places are clear of a list of regions, and what `insert_region` does to them.
use moss.Common.{
  ℕ, zero, suc, ◌+◌, ◌≤◌, ◌<◌, ◌≡◌, ◌⊎◌, inl, inr, ◌↔◌, refl, true, false, Option, none, some, List,
  [], ◌∷◌, All, ltb, usize_mod, arith, Option-cases, Bool-cases, length,
}
use mathlib.Core.Path.{subst}
use moss.Mem.Region.{Region, merge}
use moss.Mem.RegionList.{merge_first, absorb, place, merged}

-- The `size` bytes at `d` share no address with the region; an empty region does not lie within them.
abbrev pub ClearOf : ℕ → ℕ → Region → Type 0
ClearOf d size r = (r.address + r.size ≤ d) ⊎ (d + size ≤ r.address)

abbrev pub Clears : ℕ → ℕ → List Region → Type 0
Clears d size res = All (ClearOf d size) res

-- Every region ends below `top`.
abbrev pub EndsBelow : ℕ → List Region → Type 0
EndsBelow top res = All (λ r. r.address + r.size < top) res

module _ (d size top : ℕ) (p : 0 < size) (f : top ≤ usize_mod) where
  -- One region stands for two: as far up, and clear where both are.
  record Joins (m x r : Region) : Type 0 where
    below : m.address + m.size < top
    clear : ClearOf d size m ↔ (ClearOf d size x × ClearOf d size r)

  merge-Joins :
      (x r m : Region)
      → x.address + x.size < top
      → r.address + r.size < top
      → merge x r ≡ some m
      → Joins m x r
  unfolding merge
  merge-Joins x r m g h e = record {
    below = ground arith;
    clear = (λ c. ground arith, λ c. ground arith);
  }

  record Same (r : Region) (xs : List Region) (m : Region) (ys : List Region) : Type 0 where
    top_m : m.address + m.size < top
    top_ys : EndsBelow top ys
    shorter : length ys ≤ length xs
    forth : ClearOf d size m × Clears d size ys → ClearOf d size r × Clears d size xs
    back : ClearOf d size r × Clears d size xs → ClearOf d size m × Clears d size ys

  abbrev Scan : Region → List Region → Option (Region × List Region) → Type 0
  Scan r xs none = Unit
  Scan r xs (some (m, ys)) = Same r xs m ys

  merge_first-Scan :
      (r : Region) (xs : List Region)
      → r.address + r.size < top
      → EndsBelow top xs
      → Scan r xs (merge_first r xs)
  unfolding merge_first
  merge_first-Scan r [] g h = tt
  merge_first-Scan r (x ∷ xs) g h = elim (Option-cases (merge x r)) [
    | inr (m, e) ↦
        let j = merge-Joins x r m h.0 g e in
        rw (e, merge_first)
          (record {
            top_m = j.below;
            top_ys = h.1;
            shorter = omega arith;
            forth = λ c. let (a, b) = j.clear.0 c.0 in (b, (a, c.1));
            back = λ c. (j.clear.1 (c.1.0, c.0), c.1.1);
          })
    | inl e ↦ elim (Option-cases (merge_first r xs)) [
      | inl q ↦ rw (e, merge_first) (rw (q, merge_first) tt)
      | inr (k, q) ↦
          let i = subst (Scan r xs) q (merge_first-Scan r xs g h.1) in
          rw (e, merge_first)
            (rw (q, merge_first)
              (record {
                top_m = i.top_m;
                top_ys = (h.0, i.top_ys);
                shorter = omega (arith, i.shorter);
                forth = λ c. let (a, b) = i.forth (c.0, c.1.1) in (a, (c.1.0, b));
                back = λ c. let (a, b) = i.back (c.0, c.1.1) in (a, (c.1.0, b));
              }))
    ]
  ]

  Same-refl :
      (r : Region) (xs : List Region) → r.address + r.size < top → EndsBelow top xs → Same r xs r xs
  Same-refl r xs g h = record {
    top_m = g;
    top_ys = h;
    shorter = omega arith;
    forth = λ c. c;
    back = λ c. c;
  }

  absorb-Same :
      (n : ℕ) (r : Region) (xs : List Region)
      → r.address + r.size < top
      → EndsBelow top xs
      → Same r xs (absorb n r xs).0 (absorb n r xs).1
  unfolding absorb
  absorb-Same zero r xs g h = Same-refl r xs g h
  absorb-Same (suc n) r xs g h = elim (Option-cases (merge_first r xs)) [
    | inl q ↦ rw (q, absorb) (Same-refl r xs g h)
    | inr (k, q) ↦
        let i = subst (Scan r xs) q (merge_first-Scan r xs g h) in
        let j = absorb-Same n k.0 k.1 i.top_m i.top_ys in
        rw (q, absorb)
          (record {
            top_m = j.top_m;
            top_ys = j.top_ys;
            shorter = omega (arith, i.shorter, j.shorter);
            forth = λ c. i.forth (j.forth c);
            back = λ c. j.back (i.back c);
          })
  ]

  place-All :
      (P : Region → Type 0) (r : Region) (xs : List Region) → P r → All P xs → All P (place r xs)
  unfolding place
  place-All P r [] h k = (h, tt)
  place-All P r (x ∷ xs) h k = elim (Bool-cases (ltb r.address x.address)) [
    | inl e ↦ rw e (h, k)
    | inr e ↦ rw e (k.0, place-All P r xs h k.1)
  ]

  All-place :
      (P : Region → Type 0) (r : Region) (xs : List Region) → All P (place r xs) → P r × All P xs
  unfolding place
  All-place P r [] k = k
  All-place P r (x ∷ xs) k = elim (Bool-cases (ltb r.address x.address)) [
    | inl e ↦ let k' = subst (λ l. All P l) (stays x e) k in (k'.0, k'.1)
    | inr e ↦
        let k' = subst (λ l. All P l) (goes x e) k in
        let (a, b) = All-place P r xs k'.1 in (a, (k'.0, b))
  ]
    where
      stays : (x : Region) → ltb r.address x.address ≡ true → place r (x ∷ xs) ≡ r ∷ x ∷ xs
      stays x e = rw e

      goes : (x : Region) → ltb r.address x.address ≡ false → place r (x ∷ xs) ≡ x ∷ place r xs
      goes x e = rw e

  length-place : (r : Region) (xs : List Region) → length (place r xs) ≡ suc (length xs)
  unfolding place
  length-place r [] = refl
  length-place r (x ∷ xs) = ground (arith, length-place r xs)

  -- An insertion makes the list longer by one at most, and no region ends higher; a place is clear of the
  -- new list exactly when it is clear of the region and of the old list.
  pub record Inserted (r : Region) (xs : List Region) : Type 0 where
    pub top_kept : EndsBelow top (merged r xs)
    pub longer : length (merged r xs) ≤ suc (length xs)
    pub clear_forth : Clears d size (merged r xs) → ClearOf d size r × Clears d size xs
    pub clear_back : ClearOf d size r × Clears d size xs → Clears d size (merged r xs)

  -- For a region and a list whose regions end below some bound: an insertion adds one region at most, keeps the
  -- bound, and leaves clear exactly the places that were clear of the list and are clear of the region.
  pub merged-Inserted :
      (r : Region) (xs : List Region) → r.address + r.size < top → EndsBelow top xs → Inserted r xs
  unfolding merged
  merged-Inserted r xs g h =
      let j = absorb-Same (length xs) r xs g h in
      record {
        top_kept = place-All (λ x. x.address + x.size < top) _ _ j.top_m j.top_ys;
        longer = omega (
          arith,
          j.shorter,
          length-place (absorb (length xs) r xs).0 (absorb (length xs) r xs).1,
        );
        clear_forth = λ c. j.forth (All-place (ClearOf d size) _ _ c);
        clear_back = λ c. let (a, b) = j.back c in place-All (ClearOf d size) _ _ a b;
      }
