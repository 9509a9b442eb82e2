-- ===== src/Mem/BTree.antt =====
-- `BTreeMap<VA, VMArea>` of Rust's standard library, as the list of its values in the order of their keys. The key
-- of an area is its start address: every insertion of the memory map is under that key, and no code changes
-- the start of an area in the map.
use moss.Common.{ℕ, Option, none, some, List, [], ◌∷◌, ltb, leb, ◌==◌, if◌then◌else◌}
use moss.Mem.Vma.{Vma}

abbrev pub key : Vma → ℕ
key v = v.region.address

-- `insert(key(v), v)`, which replaces the value at an equal key
unfoldable pub insert : Vma → List Vma → List Vma
insert v [] = v ∷ []
insert v (w ∷ vs) =
    let rest = insert v vs in
    if ltb (key v) (key w) then v ∷ w ∷ vs else if key v == key w then v ∷ vs else w ∷ rest

unfoldable pub remove : ℕ → List Vma → List Vma
remove k [] = []
remove k (w ∷ vs) = let rest = remove k vs in if k == key w then vs else w ∷ rest

unfoldable pub find : ℕ → List Vma → Option Vma
find k [] = none
find k (w ∷ vs) = let rest = find k vs in if k == key w then some w else rest

-- `range(..k).next_back()`
unfoldable pub last_lt : ℕ → List Vma → Option Vma
last_lt k [] = none
last_lt k (w ∷ vs) = elim (last_lt k vs) [
  | some x ↦ some x
  | none ↦ if ltb (key w) k then some w else none
]

-- `range(..=k).next_back()`
unfoldable pub last_le : ℕ → List Vma → Option Vma
last_le k [] = none
last_le k (w ∷ vs) = elim (last_le k vs) [
  | some x ↦ some x
  | none ↦ if leb (key w) k then some w else none
]

-- `range(k..)`
unfoldable pub range_from : ℕ → List Vma → List Vma
range_from k [] = []
range_from k (w ∷ vs) = let rest = range_from k vs in if leb k (key w) then w ∷ rest else rest
