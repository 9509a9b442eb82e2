-- ===== src/Mem/Map/Order.antt =====
-- The areas of a map in order, and what the operations of `BTreeMap` do in the middle of such a list.
use moss.Common.{
  ℕ, ◌+◌, ◌≤◌, ◌<◌, ◌≡◌, refl, none, some, List, [], ◌∷◌, ◌++◌, All, usize_mod, arith,
}
use moss.Mem.Vma.{Vma}
use moss.Mem.BTree.{key, insert, remove, find, last_lt, last_le, range_from}

-- Where an area ends, without wrap-around.
abbrev pub stop : Vma → ℕ
stop v = v.region.address + v.region.size

-- The areas are in order from `lo` on, none is empty, none overlaps another, and each ends below 2 ^ 64.
abbrev pub Tiled : ℕ → List Vma → Type 0
Tiled lo [] = Unit
Tiled lo (v ∷ vs) = (lo ≤ key v) × (0 < v.region.size) × (stop v < usize_mod) × Tiled (stop v) vs

pub Tiled-lower : (lo lo' : ℕ) (vs : List Vma) → lo' ≤ lo → Tiled lo vs → Tiled lo' vs
Tiled-lower lo lo' [] h t = tt
Tiled-lower lo lo' (v ∷ vs) h t = (omega arith, t.1, t.2, t.3)

-- Every key is below `k`.
abbrev pub Below : ℕ → List Vma → Type 0
Below k vs = All (λ w. key w < k) vs

pub Below-raise : (k k' : ℕ) (vs : List Vma) → k ≤ k' → Below k vs → Below k' vs
Below-raise k k' [] h b = tt
Below-raise k k' (v ∷ vs) h b = (omega arith, Below-raise k k' vs h b.1)

pub Below-append : (k : ℕ) (vs ws : List Vma) → Below k vs → Below k ws → Below k (vs ++ ws)
Below-append k [] ws b c = c
Below-append k (v ∷ vs) ws b c = (b.0, Below-append k vs ws b.1 c)

pub insert-front :
    (lo : ℕ) (v : Vma) (vs : List Vma) → Tiled lo vs → key v < lo → insert v vs ≡ v ∷ vs
unfolding insert
insert-front lo v [] t h = refl
insert-front lo v (w ∷ vs) t h = ground arith

-- An area goes behind those with smaller keys.
pub insert-append :
    (v : Vma) (k : ℕ) (us vs : List Vma)
    → key v ≡ k
    → Below k us
    → insert v (us ++ vs) ≡ us ++ insert v vs
unfolding insert
insert-append v k [] vs e b = refl
insert-append v k (u ∷ us) vs e b = ground (arith, insert-append v k us vs e b.1)

pub remove-middle :
    (v : Vma) (us vs : List Vma) → Below (key v) us → remove (key v) (us ++ v ∷ vs) ≡ us ++ vs
unfolding remove
remove-middle v [] vs b = ground arith
remove-middle v (u ∷ us) vs b = ground (arith, remove-middle v us vs b.1)

pub find-middle :
    (v : Vma) (us vs : List Vma) → Below (key v) us → find (key v) (us ++ v ∷ vs) ≡ some v
unfolding find
find-middle v [] vs b = ground arith
find-middle v (u ∷ us) vs b = ground (arith, find-middle v us vs b.1)

pub last_lt-none : (lo k : ℕ) (vs : List Vma) → Tiled lo vs → k ≤ lo → last_lt k vs ≡ none
unfolding last_lt
last_lt-none lo k [] t h = refl
last_lt-none lo k (v ∷ vs) t h = ground (arith, last_lt-none (stop v) k vs t.3)

pub last_le-none : (lo k : ℕ) (vs : List Vma) → Tiled lo vs → k < lo → last_le k vs ≡ none
unfolding last_le
last_le-none lo k [] t h = refl
last_le-none lo k (v ∷ vs) t h = ground (arith, last_le-none (stop v) k vs t.3)

pub range_from-all : (lo k : ℕ) (vs : List Vma) → Tiled lo vs → k ≤ lo → range_from k vs ≡ vs
unfolding range_from
range_from-all lo k [] t h = refl
range_from-all lo k (v ∷ vs) t h = ground (arith, range_from-all (stop v) k vs t.3)
