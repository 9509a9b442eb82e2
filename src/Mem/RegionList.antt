-- ===== src/Mem/RegionList.antt =====
-- libkernel/src/memory/allocators/smalloc.rs: `RegionList`. The raw memory behind the list is the list of its first `count`
-- regions; `max` is how many it can hold, and `buffer` the address of the memory.
pub mod Insert
pub mod Clear
mod Tests
use moss.Common.{
  ℕ, zero, suc, ◌-◌, ◌*◌, Bool, Option, none, some, List, [], ◌∷◌, ltb, leb, ◌==◌, if◌then◌else◌,
  wsub, Exec, done, panicked, length,
}
use moss.Mem.Region.{Region, merge}

pub record RegionList : Type 0 where
  pub regions : List Region
  pub max : ℕ
  pub buffer : ℕ

abbrev pub count : RegionList → ℕ
count l = length l.regions

unfoldable pub new : ℕ → ℕ → RegionList
new max region_ptr = record { regions = []; max = max; buffer = region_ptr }

-- `is_empty`
unfoldable pub list_is_empty : RegionList → Bool
list_is_empty l = count l == 0

unfoldable pub remove_at : ℕ → List Region → List Region
remove_at i [] = []
remove_at zero (x ∷ xs) = xs
remove_at (suc i) (x ∷ xs) = x ∷ remove_at i xs

-- One scan for a region that merges with the new one: the merged region, and the list without it.
unfoldable pub merge_first : Region → List Region → Option (Region × List Region)
unfolding merge
merge_first r [] = none
merge_first r (x ∷ xs) = elim (merge x r) [
  | some m ↦ some (m, xs)
  | none ↦ elim (merge_first r xs) [ none ↦ none | some (m, ys) ↦ some (m, x ∷ ys) ]
]

-- The loop of step 1, which starts again after each region that merged; there are at most as many such
-- rounds as regions.
unfoldable pub absorb : ℕ → Region → List Region → Region × List Region
absorb zero r xs = (r, xs)
absorb (suc n) r xs = elim (merge_first r xs) [ none ↦ (r, xs) | some (m, ys) ↦ absorb n m ys ]

-- Steps 2 to 4: before the first region that starts above the new one.
unfoldable pub place : Region → List Region → List Region
place r [] = r ∷ []
place r (x ∷ xs) = if ltb r.address x.address then r ∷ x ∷ xs else x ∷ place r xs

unfoldable pub merged : Region → List Region → List Region
unfolding absorb place
merged r xs = let (m, ys) = absorb (length xs) r xs in place m ys

unfoldable pub insert_region : RegionList → Region → Exec RegionList
unfolding merged
insert_region l r =
    if count l == l.max then panicked else done (record l { regions = merged r l.regions })

-- `self.count >= self.max - 1`, where a list that can hold none wraps
unfoldable pub requires_reallocation : RegionList → Bool
requires_reallocation l = leb (wsub l.max 1) (count l)
