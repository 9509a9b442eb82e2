-- ===== src/Mem/Map/Lookup.antt =====
-- libkernel/src/memory/proc_vm/memory_map/mod.rs: the searches of a map against plain searches of its areas.
use moss.Common.{
  ℕ, ◌+◌, ◌-◌, ◌≤◌, ◌<◌, ◌≡◌, ◌⊎◌, ◌↔◌, inl, inr, refl, Bool, true, Option, none, some, List, [],
  ◌∷◌, ◌++◌, All, ltb, leb, if◌then◌else◌, usize_mod, arith, sym, dec_lt, ◌∙◌, ◌&&◌, Bool-cases,
}
use mathlib.Core.List.{reverse, reverse-cons}
use moss.Mem.Region.{Region}
use moss.Mem.Region.Points.{Fits}
use moss.Mem.Vma.{Vma}
use moss.Mem.BTree.{key, last_le, range_from}
use moss.Mem.Map.{find_vma, is_region_free, find_gap, find_free_region, mmap_base, end_of}
use moss.Mem.Map.Order.{stop, Tiled, last_le-none, range_from-all}

abbrev pub covers : Vma → ℕ → Bool
covers v a = leb (key v) a && ltb a (stop v)

-- The first area that covers the address, by a search of all of them.
abbrev pub area_at : List Vma → ℕ → Option Vma
area_at [] a = none
area_at (v ∷ vs) a = if covers v a then some v else area_at vs a

area_at-none : (lo a : ℕ) (vs : List Vma) → Tiled lo vs → a < lo → area_at vs a ≡ none
area_at-none lo a [] t h = refl
area_at-none lo a (v ∷ vs) t h = ground (arith, area_at-none (stop v) a vs t.3)

-- In a map whose areas are in order and do not overlap, `find_vma` finds the area that covers the
-- address, if there is one.
pub find_vma-eq-area_at : (lo a : ℕ) (vs : List Vma) → Tiled lo vs → find_vma vs a ≡ area_at vs a
unfolding find_vma last_le
find_vma-eq-area_at lo a [] t = refl
find_vma-eq-area_at lo a (v ∷ vs) t = ground (
  arith,
  find_vma-eq-area_at (stop v) a vs t.3,
  last_le-none (stop v) a vs t.3,
  area_at-none (stop v) a vs t.3,
)

-- No area shares an address with the region.
abbrev pub Clear : Region → List Vma → Type 0
Clear r vs = All (λ v. (stop v ≤ r.address) ⊎ (r.address + r.size ≤ key v)) vs

Clear-above :
    (lo : ℕ) (r : Region) (vs : List Vma) → Tiled lo vs → r.address + r.size ≤ lo → Clear r vs
Clear-above lo r [] t h = tt
Clear-above lo r (v ∷ vs) t h = (inr (omega arith), Clear-above (stop v) r vs t.3 (omega arith))

free-skip :
    (r : Region) (v : Vma) (vs : List Vma)
    → stop v ≤ r.address
    → stop v < usize_mod
    → 0 < v.region.size
    → is_region_free (v ∷ vs) r ≡ is_region_free vs r
unfolding is_region_free last_le range_from
free-skip r v vs h f p = ground arith

free-decided :
    (lo : ℕ) (r : Region) (v : Vma) (vs : List Vma)
    → Tiled lo (v ∷ vs)
    → Fits r
    → 0 < r.size
    → r.address < stop v
    → is_region_free (v ∷ vs) r ≡ leb (r.address + r.size) (key v)
unfolding is_region_free last_le range_from
free-decided lo r v vs t f p h = ground (
  arith,
  last_le-none (stop v) r.address vs t.3 h,
  range_from-all (stop v) r.address vs t.3 (omega arith),
)

-- In such a map, for a region that is not empty and does not wrap, `is_region_free` answers whether every
-- area lies before or after the region.
pub is_region_free_iff :
    (lo : ℕ) (r : Region) (vs : List Vma)
    → Tiled lo vs
    → Fits r
    → 0 < r.size
    → (is_region_free vs r ≡ true) ↔ Clear r vs
unfolding is_region_free last_le range_from
is_region_free_iff lo r [] t f p = (λ h. tt, λ h. refl)
is_region_free_iff lo r (v ∷ vs) t f p = elim (dec_lt r.address (stop v)) [
  | yes q ↦ (
    λ h. (
      inr (ground (arith, free-decided lo r v vs t f p q)),
      Clear-above (stop v) r vs t.3 (ground (arith, free-decided lo r v vs t f p q)),
    ),
    λ h. ground (arith, free-decided lo r v vs t f p q),
  )
  | no q ↦
      let e = free-skip r v vs (omega arith) (t.2) (t.1) in
      let ih = is_region_free_iff (stop v) r vs t.3 f p in
      (λ h. (inl (omega arith), ih.0 (sym e ∙ h)), λ h. e ∙ ih.1 h.1)
]

-- The areas, from the last to the first: each ends at or below `hi`, where the next one in the list starts.
abbrev TiledDown : ℕ → List Vma → Type 0
TiledDown hi [] = Unit
TiledDown hi (v ∷ vs) =
    (stop v ≤ hi) × (0 < v.region.size) × (stop v < usize_mod) × TiledDown (key v) vs

Clear-below : (hi : ℕ) (r : Region) (vs : List Vma) → TiledDown hi vs → hi ≤ r.address → Clear r vs
Clear-below hi r [] t h = tt
Clear-below hi r (v ∷ vs) t h = (inl (omega arith), Clear-below (key v) r vs t.3 (omega arith))

find_gap-Clear :
    (len last hi : ℕ) (vs : List Vma) (r : Region)
    → TiledDown hi vs
    → find_gap len last vs ≡ some r
    → (r.size ≡ len) × Clear r vs × ((r.address + r.size ≡ last) ⊎ (r.address + r.size ≤ hi))
unfolding find_gap
find_gap-Clear len last hi [] r t h = (ground arith, tt, inl (ground arith))
find_gap-Clear len last hi (v ∷ vs) r t h =
    elim (Bool-cases (leb (end_of v) last && leb len (last - end_of v))) [
      | inl e ↦
          let hit : (r.size ≡ len) × (r.address + r.size ≡ last) × (stop v ≤ r.address) =
            ground arith in
          (hit.0, (inl hit.2, Clear-below (key v) r vs t.3 (omega arith)), inl hit.1)
      | inr e ↦
          let ih = find_gap-Clear len (key v) (key v) vs r t.3 (ground arith) in
          let under : r.address + r.size ≤ key v = omega arith in
          (ih.0, (inr under, ih.1), inr (omega arith))
    ]

down-snoc :
    (hi : ℕ) (us : List Vma) (v : Vma)
    → TiledDown hi us
    → stop v ≤ hi
    → All (λ u. stop v ≤ key u) us
    → 0 < v.region.size
    → stop v < usize_mod
    → TiledDown hi (us ++ v ∷ [])
down-snoc hi [] v t h a p f = (h, p, f, tt)
down-snoc hi (u ∷ us) v t h a p f = (t.0, t.1, t.2, down-snoc (key u) us v t.3 a.0 a.1 p f)

All-append {ℓ κ} :
    {A : Type ℓ} (P : A → Type κ) (xs ys : List A) → All P xs → All P ys → All P (xs ++ ys)
All-append P [] ys hx hy = hy
All-append P (x ∷ xs) ys hx hy = (hx.0, All-append P xs ys hx.1 hy)

All-of_append {ℓ κ} :
    {A : Type ℓ} (P : A → Type κ) (xs ys : List A) → All P (xs ++ ys) → All P xs × All P ys
All-of_append P [] ys h = (tt, h)
All-of_append P (x ∷ xs) ys h = let r = All-of_append P xs ys h.1 in ((h.0, r.0), r.1)

keys_above :
    (lo : ℕ) (us : List Vma)
    → (lo' : ℕ) → lo ≤ lo'
    → All (λ u. lo' ≤ key u) us
    → All (λ u. lo ≤ key u) us
keys_above lo [] lo' h a = tt
keys_above lo (u ∷ us) lo' h a = (omega arith, keys_above lo us lo' h a.1)

reverse-TiledDown :
    (lo : ℕ) (vs : List Vma)
    → Tiled lo vs
    → TiledDown usize_mod (reverse vs) × All (λ u. lo ≤ key u) (reverse vs)
reverse-TiledDown lo [] t = (tt, tt)
reverse-TiledDown lo (v ∷ vs) t =
    let ih = reverse-TiledDown (stop v) vs t.3 in
    rw (reverse-cons v vs) (
      down-snoc usize_mod (reverse vs) v ih.0 (omega arith) ih.1 t.1 t.2,
      All-append (λ u. lo ≤ key u) (reverse vs) (v ∷ [])
          (keys_above lo (reverse vs) (stop v) (omega arith) ih.1) (t.0, tt),
    )

Clear-of_reverse : (r : Region) (vs : List Vma) → Clear r (reverse vs) → Clear r vs
Clear-of_reverse r [] c = tt
Clear-of_reverse r (v ∷ vs) c =
    let s =
      All-of_append (λ v. (stop v ≤ r.address) ⊎ (r.address + r.size ≤ key v)) (reverse vs) (v ∷ [])
        (rw (reverse-cons v vs) at c) in
    (s.1.0, Clear-of_reverse r vs s.0)

-- In such a map, a region that `find_free_region` answers has the length asked for and shares no address
-- with any area.
pub find_free_region-Clear :
    (lo len : ℕ) (vs : List Vma) (r : Region)
    → Tiled lo vs
    → find_free_region vs len ≡ some r
    → (r.size ≡ len) × Clear r vs
unfolding find_free_region
find_free_region-Clear lo len vs r t h =
    let g = find_gap-Clear len mmap_base usize_mod (reverse vs) r (reverse-TiledDown lo vs t).0 h in
    (g.0, Clear-of_reverse r vs g.1)
