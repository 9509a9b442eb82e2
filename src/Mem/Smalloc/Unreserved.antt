-- ===== src/Mem/Smalloc/Unreserved.antt =====
-- libkernel/src/memory/allocators/smalloc.rs: what the walk over the free regions yields.
use moss.Common.{
  ◌++◌, ℕ, ◌+◌, ◌-◌, ◌≤◌, ◌<◌, ◌≡◌, ◌⊎◌, inl, inr, refl, true, false, not, ◌&&◌, ◌||◌, List, [],
  ◌∷◌, All, ltb, leb, usize_mod, arith, Bool-cases, ◌∙◌, ap,
}
use moss.Mem.Region.{Region, end_address, is_before, is_after}
use moss.Mem.RegionList.Insert.{Spaced, Spaced-lower, inside, covered}
use moss.Mem.Smalloc.Calls.{free_parts, free_regions}

covered-low : (lo a : ℕ) (xs : List Region) → Spaced lo xs → covered xs a ≡ true → lo ≤ a
covered-low lo a [] s h = ground arith
covered-low lo a (x ∷ xs) s h = ground (arith, covered-low (x.address + x.size + 1) a xs s.2)

covered-append :
    (xs ys : List Region) (a : ℕ) → covered (xs ++ ys) a ≡ (covered xs a || covered ys a)
covered-append [] ys a = refl
covered-append (x ∷ xs) ys a = ground (arith, covered-append xs ys a)

-- The reservation starts behind the region, or ends before the address.
abbrev Splits : Region → ℕ → Region → Type 0
Splits f a r = (f.address + f.size ≤ r.address) ⊎ (r.address + r.size ≤ a)

Splits-end :
    (f f' : Region) (a : ℕ) (xs : List Region)
    → f.address + f.size ≡ f'.address + f'.size
    → All (Splits f a) xs
    → All (Splits f' a) xs
Splits-end f f' a [] e c = tt
Splits-end f f' a (x ∷ xs) e c = (ground (arith, c.0), Splits-end f f' a xs e c.1)

-- The parts are what the fragment has unreserved, and the reservations left are as good as before for
-- addresses behind the fragment.
record Parted (f : Region) (res : List Region) (p : List Region × List Region) : Type 1 where
  exact : (a : ℕ) → covered p.0 a ≡ (inside f a && not (covered res a))
  later : (a : ℕ) → f.address + f.size ≤ a → All (Splits f a) res → covered p.1 a ≡ covered res a
  kept : (P : Region → Type 0) → All P res → All P p.1
  spaced : Spaced 0 p.1

module _ (f r : Region) (rs : List Region) (g : f.address + f.size < usize_mod)
    (h : r.address + r.size < usize_mod) (s : Spaced (r.address + r.size + 1) rs) where
  low : (a : ℕ) → covered rs a ≡ true → r.address + r.size + 1 ≤ a
  low a = covered-low (r.address + r.size + 1) a rs s

  before :
      (parts rest : List Region)
      → r.address + r.size ≤ f.address
      → Parted f rs (parts, rest)
      → Parted f (r ∷ rs) (parts, rest)
  before parts rest e i = record {
    exact = λ a. ground (arith, i.exact a);
    later = λ a k c. ground (arith, i.later a k c.1);
    kept = λ P c. i.kept P c.1;
    spaced = i.spaced;
  }

  after : 0 ≤ r.address → f.address + f.size ≤ r.address → Parted f (r ∷ rs) (f ∷ [], r ∷ rs)
  after z e = record {
    exact = λ a. ground (arith, low a);
    later = λ a k c. refl;
    kept = λ P c. c;
    spaced = (z, h, s);
  }

  -- The reservation reaches to the end of the fragment.
  eaten :
      (parts : List Region)
      → r.address < f.address + f.size
      → f.address + f.size ≤ r.address + r.size
      → ((a : ℕ) → covered parts a ≡ (inside f a && ltb a r.address))
      → Parted f (r ∷ rs) (parts, rs)
  eaten parts e k i = record {
    exact = λ a. i a ∙ ground (arith, low a);
    later = λ a l c. ground (arith, c.0);
    kept = λ P c. c.1;
    spaced = Spaced-lower _ 0 rs (omega arith) s;
  }

  -- A piece of the fragment is left behind the reservation.
  remains :
      (parts rest : List Region)
      → r.address < f.address + f.size
      → r.address + r.size < f.address + f.size
      → f.address ≤ r.address + r.size
      → Parted
          (record {
            address = r.address + r.size;
            size = f.address + f.size - (r.address + r.size);
          })
          rs
          (parts, rest)
      → (parts' : List Region)
      → ((a : ℕ) → covered parts' a ≡ ((inside f a && ltb a r.address) || covered parts a))
      → Parted f (r ∷ rs) (parts', rest)
  remains parts rest e k m i parts' j = record {
    exact = λ a. j a ∙ ground (arith, i.exact a, low a);
    later =
        λ a l c. ground (arith, i.later a (omega arith) (Splits-end f _ a rs (omega arith) c.1));
    kept = λ P c. i.kept P c.1;
    spaced = i.spaced;
  }

free_parts-Parted :
    (lo : ℕ) (f : Region) (res : List Region)
    → f.address + f.size < usize_mod
    → Spaced lo res
    → Parted f res (free_parts f res)
unfolding free_parts is_before is_after
free_parts-Parted lo f [] g s = record {
  exact = λ a. ground arith;
  later = λ a k c. refl;
  kept = λ P c. c;
  spaced = tt;
}
free_parts-Parted lo f (r ∷ rs) g s =
    let er : end_address r ≡ r.address + r.size = omega (arith, s.1) in
    let ef : end_address f ≡ f.address + f.size = omega arith in
    elim (Bool-cases (leb (r.address + r.size) f.address)) [
      | inl e ↦
          rw (er, e)
            (before f r rs g s.1 s.2 _ _ (ground arith)
              (free_parts-Parted (r.address + r.size + 1) f rs g s.2))
      | inr e ↦ elim (Bool-cases (leb (f.address + f.size) r.address)) [
        | inl k ↦ rw (er, ef, e, k) (after f r rs g s.1 s.2 (omega arith) (ground arith))
        | inr k ↦
            let ih =
              free_parts-Parted (r.address + r.size + 1)
                (record {
                  address = r.address + r.size;
                  size = f.address + f.size - (r.address + r.size);
                })
                rs (omega (arith, s.1)) s.2 in
            elim (Bool-cases (ltb f.address r.address)) [
              | inl m ↦ elim (Bool-cases (ltb (r.address + r.size) (f.address + f.size))) [
                | inl n ↦
                    rw (er, ef, e, k, m, n)
                      (remains f r rs g s.1 s.2 _ _ (ground arith) (ground arith) (ground arith) ih
                        _ (λ a. ground arith))
                | inr n ↦
                    rw (er, ef, e, k, m, n)
                      (eaten f r rs g s.1 s.2 _ (ground arith) (ground arith) (λ a. ground arith))
              ]
              | inr m ↦ elim (Bool-cases (leb (f.address + f.size) (r.address + r.size))) [
                | inl n ↦
                    rw (er, ef, e, k, m, n)
                      (eaten f r rs g s.1 s.2 _ (ground arith) (ground arith) (λ a. ground arith))
                | inr n ↦
                    rw (er, ef, e, k, m, n)
                      (remains f r rs g s.1 s.2 _ _ (ground arith) (ground arith) (ground arith) ih
                        _ (λ a. ground arith))
              ]
            ]
      ]
    ]

-- The reservation does not reach from the region into the memory region that follows.
abbrev Apart : Region → List Region → Region → Type 0
Apart m [] r = Unit
Apart m (m' ∷ ms) r = (m.address + m.size ≤ r.address) ⊎ (r.address + r.size ≤ m'.address)

-- No reservation reaches from a memory region into the next one.
abbrev pub Unbridged : List Region → List Region → Type 0
Unbridged [] res = Unit
Unbridged (m ∷ ms) res = All (Apart m ms) res × Unbridged ms res

Unbridged-kept :
    (ms res rest : List Region)
    → ((P : Region → Type 0) → All P res → All P rest)
    → Unbridged ms res
    → Unbridged ms rest
Unbridged-kept [] res rest k u = tt
Unbridged-kept (m ∷ ms) res rest k u = (k (Apart m ms) u.0, Unbridged-kept ms res rest k u.1)

-- For an address in the memory regions that follow.
Splits-Apart :
    (m : Region) (ms res : List Region) (lo a : ℕ)
    → Spaced lo ms
    → covered ms a ≡ true
    → All (Apart m ms) res
    → All (Splits m a) res
Splits-Apart m ms [] lo a s h c = tt
Splits-Apart m [] (r ∷ rs) lo a s h c = ground arith
Splits-Apart m (x ∷ ms) (r ∷ rs) lo a s h c = (
  ground (arith, c.0, covered-low x.address a (x ∷ ms) (omega arith, s.1, s.2)),
  Splits-Apart m (x ∷ ms) rs lo a s h c.1,
)

-- For lists of memory and of reservations that are in order with gaps between their regions, where no
-- reservation reaches from one memory region into the next: the walk yields exactly the addresses of the
-- memory that no reservation covers.
pub free_regions-covered :
    (lo : ℕ) (ms res : List Region)
    → Spaced lo ms
    → Spaced 0 res
    → Unbridged ms res
    → (a : ℕ) → covered (free_regions ms res) a ≡ (covered ms a && not (covered res a))
unfolding free_regions
free_regions-covered lo [] res s t u a = refl
free_regions-covered lo (m ∷ ms) res s t u a =
    let i = free_parts-Parted 0 m res s.1 t in
    let ih =
      free_regions-covered (m.address + m.size + 1) ms (free_parts m res).1 s.2 i.spaced
        (Unbridged-kept ms res _ i.kept u.1) a in
    covered-append (free_parts m res).0 (free_regions ms (free_parts m res).1) a
    ∙ elim (Bool-cases (covered ms a)) [
      | inl e ↦
          let l = covered-low (m.address + m.size + 1) a ms s.2 e in
          let same =
            i.later a (omega (arith, l))
              (Splits-Apart m ms res (m.address + m.size + 1) a s.2 e u.0) in
          ground (arith, i.exact a, ih, same, l)
      | inr e ↦ ground (arith, i.exact a, ih)
    ]

free_regions-nil : (ms : List Region) → free_regions ms [] ≡ ms
unfolding free_regions free_parts
free_regions-nil [] = refl
free_regions-nil (m ∷ ms) = ap (λ l. m ∷ l) (free_regions-nil ms)

-- Where the only reservation starts in the first memory region and reaches its end or beyond it, the walk
-- yields every address of the memory regions that follow, also those that the reservation covers.
pub free_regions-bridged :
    (m r : Region) (ms : List Region)
    → m.address + m.size < usize_mod
    → r.address + r.size < usize_mod
    → m.address < r.address
    → r.address < m.address + m.size
    → m.address + m.size ≤ r.address + r.size
    → (a : ℕ)
    → covered (free_regions (m ∷ ms) (r ∷ [])) a
      ≡ ((leb m.address a && ltb a r.address) || covered ms a)
unfolding free_regions free_parts is_before is_after
free_regions-bridged m r ms f g h k l a =
    let er : end_address r ≡ r.address + r.size = omega (arith, g) in
    let em : end_address m ≡ m.address + m.size = omega (arith, f) in
    let b : leb (r.address + r.size) m.address ≡ false = ground arith in
    let c : leb (m.address + m.size) r.address ≡ false = ground arith in
    let d : ltb m.address r.address ≡ true = ground arith in
    let e : ltb (r.address + r.size) (m.address + m.size) ≡ false = ground arith in
    rw (er, em, b, c, d, e, free_regions-nil ms) (ground arith)
