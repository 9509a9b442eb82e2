-- ===== src/Mem/RegionList/Insert.antt =====
-- libkernel/src/memory/allocators/smalloc.rs: `insert_region` keeps the list sorted and its regions apart, and adds the
-- addresses of the new region.
use moss.Common.{
  ℕ, zero, suc, ◌+◌, ◌-◌, ◌≤◌, ◌<◌, ◌≡◌, ◌⊎◌, inl, inr, refl, Bool, true, false, ◌&&◌, ◌||◌, Option,
  none, some, List, [], ◌∷◌, ltb, leb, usize_mod, arith, ◌∙◌, sym, min, max, Bool-cases, ap,
  Option-cases, length,
}
use mathlib.Core.Path.{subst}
use moss.Mem.Region.{Region, merge}
use moss.Mem.RegionList.{merge_first, absorb, place, merged}

-- The regions are in order from `lo` on, there is a gap after each, and each ends below 2 ^ 64.
abbrev pub Spaced : ℕ → List Region → Type 0
Spaced lo [] = Unit
Spaced lo (x ∷ xs) =
    (lo ≤ x.address) × (x.address + x.size < usize_mod) × Spaced (x.address + x.size + 1) xs

abbrev pub inside : Region → ℕ → Bool
inside r a = leb r.address a && ltb a (r.address + r.size)

-- Some region of the list covers the address.
abbrev pub covered : List Region → ℕ → Bool
covered [] a = false
covered (x ∷ xs) a = inside x a || covered xs a

-- No region of the list touches this one.
abbrev Untouched : Region → List Region → Type 0
Untouched r [] = Unit
Untouched r (x ∷ xs) =
    ((x.address + x.size < r.address) ⊎ (r.address + r.size < x.address)) × Untouched r xs

abbrev IsShort : Region → Type 0
IsShort r = r.address + r.size < usize_mod

pub Spaced-lower : (lo lo' : ℕ) (xs : List Region) → lo' ≤ lo → Spaced lo xs → Spaced lo' xs
Spaced-lower lo lo' [] h s = tt
Spaced-lower lo lo' (x ∷ xs) h s = (omega arith, s.1, s.2)

-- What a scan leaves: the list without one region, and that region merged into the new one.
abbrev Scanned : ℕ → Region → List Region → Option (Region × List Region) → Type 0
Scanned lo r xs none = Untouched r xs
Scanned lo r xs (some (m, ys)) =
    IsShort m
    × Spaced lo ys
    × (suc (length ys) ≡ length xs)
    × ((a : ℕ) → (inside m a || covered ys a) ≡ (inside r a || covered xs a))

-- Two regions have a gap between them, or merge into one that covers what they cover.
abbrev Merged : Region → Region → Option Region → Type 0
Merged x r none = (x.address + x.size < r.address) ⊎ (r.address + r.size < x.address)
Merged x r (some m) = IsShort m × ((a : ℕ) → inside m a ≡ (inside r a || inside x a))

merge-Merged : (x r : Region) → IsShort x → IsShort r → Merged x r (merge x r)
unfolding merge
merge-Merged x r f g =
    elim (Bool-cases (leb r.address (x.address + x.size) && leb x.address (r.address + r.size))) [
      | inl e ↦ subst (Merged x r) (sym (joined e)) (omega arith, λ a. ground arith)
      | inr e ↦ subst (Merged x r) (sym (apart e)) (ground arith)
    ]
  where
    joined :
        (leb r.address (x.address + x.size) && leb x.address (r.address + r.size)) ≡ true
        → merge x r
          ≡ some (record {
            address = min x.address r.address;
            size = max (x.address + x.size) (r.address + r.size) - min x.address r.address;
          })
    joined e = ground arith

    apart :
        (leb r.address (x.address + x.size) && leb x.address (r.address + r.size)) ≡ false
        → merge x r ≡ none
    apart e = ground arith

merge_first-Scanned :
    (lo : ℕ) (r : Region) (xs : List Region)
    → Spaced lo xs
    → IsShort r
    → Scanned lo r xs (merge_first r xs)
unfolding merge_first
merge_first-Scanned lo r [] s f = tt
merge_first-Scanned lo r (x ∷ xs) s f = elim (Option-cases (merge x r)) [
  | inr (m, e) ↦
      let p = subst (Merged x r) e (merge-Merged x r s.1 f) in
      rw (e, merge_first)
        (p.0, Spaced-lower _ lo xs (omega arith) s.2, refl, λ a. ground (arith, p.1 a))
  | inl e ↦
      let p = subst (Merged x r) e (merge-Merged x r s.1 f) in
      let ih = merge_first-Scanned (x.address + x.size + 1) r xs s.2 f in
      elim (Option-cases (merge_first r xs)) [
        | inl q ↦ rw (e, merge_first) (rw (q, merge_first) (p, subst (Scanned _ r xs) q ih))
        | inr (k, q) ↦
            let j = subst (Scanned _ r xs) q ih in
            rw (e, merge_first)
              (rw (q, merge_first) (j.0, (s.0, s.1, j.1), ap suc j.2, λ a. ground (arith, j.3 a)))
      ]
]

-- What the rounds of step 1 leave.
record Absorbed (lo : ℕ) (r : Region) (xs : List Region) (m : Region) (ys : List Region)
    : Type 0 where
  short : IsShort m
  spaced : Spaced lo ys
  untouched : Untouched m ys
  same : (a : ℕ) → (inside m a || covered ys a) ≡ (inside r a || covered xs a)

absorb-Absorbed :
    (n lo : ℕ) (r : Region) (xs : List Region)
    → length xs ≡ n
    → Spaced lo xs
    → IsShort r
    → Absorbed lo r xs (absorb n r xs).0 (absorb n r xs).1
unfolding absorb
absorb-Absorbed zero lo r [] e s f = record {
  short = f;
  spaced = s;
  untouched = tt;
  same = λ a. refl;
}
absorb-Absorbed zero lo r (x ∷ xs) e s f = absurd (omega arith)
absorb-Absorbed (suc n) lo r xs e s f = elim (Option-cases (merge_first r xs)) [
  | inl q ↦
      rw (q, absorb)
        (record {
          short = f;
          spaced = s;
          untouched = subst (Scanned lo r xs) q (merge_first-Scanned lo r xs s f);
          same = λ a. refl;
        })
  | inr (k, q) ↦
      let j = subst (Scanned lo r xs) q (merge_first-Scanned lo r xs s f) in
      let ih = absorb-Absorbed n lo k.0 k.1 (omega (arith, j.2)) j.1 j.0 in
      rw (q, absorb)
        (record {
          short = ih.short;
          spaced = ih.spaced;
          untouched = ih.untouched;
          same = λ a. ih.same a ∙ j.3 a;
        })
]

covered-place :
    (r : Region) (xs : List Region) (a : ℕ) → covered (place r xs) a ≡ (inside r a || covered xs a)
unfolding place
covered-place r [] a = refl
covered-place r (x ∷ xs) a = ground (arith, covered-place r xs a)

Spaced-place :
    (lo : ℕ) (r : Region) (xs : List Region)
    → lo ≤ r.address
    → IsShort r
    → Untouched r xs
    → Spaced lo xs
    → Spaced lo (place r xs)
unfolding place
Spaced-place lo r [] h f u s = (h, f, tt)
Spaced-place lo r (x ∷ xs) h f u s = elim (Bool-cases (ltb r.address x.address)) [
  | inl e ↦ rw e (h, f, (ground arith, s.1, s.2))
  | inr e ↦ rw e (s.0, s.1, Spaced-place (x.address + x.size + 1) r xs (ground arith) f u.1 s.2)
]

-- A list that is sorted with gaps between its regions is so after a region is inserted that does not wrap,
-- and covers exactly the addresses that it covered, and those of the region.
pub merged-Spaced :
    (r : Region) (xs : List Region)
    → Spaced 0 xs
    → r.address + r.size < usize_mod
    → Spaced 0 (merged r xs) × ((a : ℕ) → covered (merged r xs) a ≡ (inside r a || covered xs a))
unfolding merged
merged-Spaced r xs s f =
    let b = absorb-Absorbed (length xs) 0 r xs refl s f in
    (
      Spaced-place 0 _ _ (omega arith) b.short b.untouched b.spaced,
      λ a. covered-place _ _ a ∙ b.same a,
    )
