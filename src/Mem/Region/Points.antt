-- ===== src/Mem/Region/Points.antt =====
-- libkernel/src/memory/region.rs: the operations on regions, against the sets of addresses that the
-- regions cover.
use moss.Common.{
  ℕ, ◌+◌, ◌-◌, ◌≤◌, ◌<◌, min, max, true, ◌≡◌, ◌⊎◌, ◌↔◌, Option, none, some, done, usize_mod, arith,
  ltb, if◌then◌else◌, ◌&&◌,
}
use moss.Mem.Region.{Region, overlaps, merge, punch_hole, contains, contains_address, intersection}

-- The region ends below 2 ^ 64, so that its end address does not wrap.
abbrev pub Fits : Region → Type 0
Fits r = r.address + r.size < usize_mod

-- The region covers the address.
abbrev pub Covers : Region → ℕ → Type 0
Covers r a = (r.address ≤ a) × (a < r.address + r.size)

abbrev pub OptionCovers : Option Region → ℕ → Type 0
OptionCovers none a = ⊥
OptionCovers (some r) a = Covers r a

pub contains_address_iff :
    (r : Region) (a : ℕ) → Fits r → (contains_address r a ≡ true) ↔ Covers r a
unfolding contains_address
contains_address_iff r a f = ground arith

-- Two non-empty regions overlap exactly when they share an address.
pub overlaps_iff :
    (r s : Region)
    → Fits r
    → Fits s
    → 0 < r.size
    → 0 < s.size
    → (overlaps r s ≡ true) ↔ ((a : ℕ) × Covers r a × Covers s a)
unfolding overlaps
overlaps_iff r s f g p q = (
  λ h. (max r.address s.address, ground arith, ground arith),
  λ h. let (a, x, y) = h in ground arith,
)

-- One non-empty region contains another exactly when it covers every address of it.
pub contains_iff :
    (r s : Region)
    → Fits r
    → Fits s
    → 0 < r.size
    → 0 < s.size
    → (contains r s ≡ true) ↔ ((a : ℕ) → Covers s a → Covers r a)
unfolding contains
contains_iff r s f g p q = (
  λ h a c. ground arith,
  λ h.
      let x = h s.address (omega arith) in
      let y = h (s.address + s.size - 1) (omega arith) in ground arith,
)

-- `merge` answers the region that covers exactly the addresses of the two.
pub merge-some :
    (r s m : Region) (a : ℕ)
    → Fits r
    → Fits s
    → merge r s ≡ some m
    → Fits m × (Covers m a ↔ (Covers r a ⊎ Covers s a))
unfolding merge
merge-some r s m a f g h = (ground arith, (λ c. ground arith, λ c. ground arith))

-- `merge` refuses exactly the regions with a gap between them.
pub merge-none_iff :
    (r s : Region)
    → Fits r
    → Fits s
    → (merge r s ≡ none) ↔ ((r.address + r.size < s.address) ⊎ (s.address + s.size < r.address))
unfolding merge
merge-none_iff r s f g = (λ h. ground arith, λ h. ground arith)

-- `intersection` covers exactly the addresses that both regions cover; it is `none` when there are none.
pub intersection-Covers :
    (r s : Region) (a : ℕ)
    → Fits r
    → Fits s
    → OptionCovers (intersection r s) a ↔ (Covers r a × Covers s a)
unfolding intersection
intersection-Covers r s a f g = (λ h. ground arith, λ h. ground arith)

-- The part of a region before a hole, and the part after it.
abbrev pub left_of : Region → Region → Option Region
left_of r s =
    if ltb r.address s.address && ltb r.address (min (r.address + r.size) s.address)
    then some
        (record { address = r.address; size = min (r.address + r.size) s.address - r.address })
    else none

abbrev pub right_of : Region → Region → Option Region
right_of r s =
    if ltb (s.address + s.size) (r.address + r.size)
      && ltb (max r.address (s.address + s.size)) (r.address + r.size)
    then some (record {
      address = max r.address (s.address + s.size);
      size = r.address + r.size - max r.address (s.address + s.size);
    })
    else none

pub punch_hole_parts :
    (r s : Region) → Fits r → Fits s → punch_hole r s ≡ done (left_of r s, right_of r s)
unfolding punch_hole
punch_hole_parts r s f g = ground arith

left_of-Covers :
    (r s : Region) (a : ℕ) → OptionCovers (left_of r s) a ↔ (Covers r a × (a < s.address))
left_of-Covers r s a = (λ h. ground arith, λ h. ground arith)

right_of-Covers :
    (r s : Region) (a : ℕ) → OptionCovers (right_of r s) a ↔ (Covers r a × (s.address + s.size ≤ a))
right_of-Covers r s a = (λ h. ground arith, λ h. ground arith)

-- Where neither region wraps, no assertion of `punch_hole` fails, and it leaves two parts: the left
-- one covers exactly the addresses of the region before the hole, the right one those from its end.
pub punch_hole-Covers :
    (r s : Region)
    → Fits r
    → Fits s
    → (p : Option Region × Option Region) × (punch_hole r s ≡ done p)
      × ((a : ℕ) → OptionCovers p.0 a ↔ (Covers r a × (a < s.address)))
      × ((a : ℕ) → OptionCovers p.1 a ↔ (Covers r a × (s.address + s.size ≤ a)))
punch_hole-Covers r s f g =
    ((left_of r s, right_of r s), punch_hole_parts r s f g, left_of-Covers r s, right_of-Covers r s)
