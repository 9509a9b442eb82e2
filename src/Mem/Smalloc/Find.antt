-- ===== src/Mem/Smalloc/Find.antt =====
-- libkernel/src/memory/allocators/smalloc.rs: `find_allocation_location` over all memory regions.
use moss.Common.{
  true, ℕ, suc, ◌+◌, ◌%◌, ◌≤◌, ◌<◌, ◌≡◌, inl, inr, List, [], ◌∷◌, usize_mod, arith, length,
}
use moss.Mem.Region.{Region, rounded_up, align_up-eq-done, is_power_of_two}
use moss.Mem.RegionList.Insert.{Spaced}
use moss.Mem.RegionList.Clear.{Clears}
use moss.Mem.Smalloc.{Location, at, passed, running, failed, settle, search_in}
use moss.Mem.Smalloc.Search.{
  IsRoomy, Within, WithinSome, Later, Settled, settle-Settled, skip_before-le, rounded_up-ge,
  rounded_up-le, rounded_up-mod, rounded_up-least,
}

-- Memory regions in order, none of them empty, none so high that aligning and adding a size wraps.
abbrev pub IsMemory : ℕ → ℕ → ℕ → List Region → Type 0
IsMemory size align lo [] = Unit
IsMemory size align lo (m ∷ ms) =
    (lo ≤ m.address)
    × (0 < m.size)
    × (m.address + m.size + align + size ≤ usize_mod)
    × IsMemory size align (m.address + m.size) ms

-- The search answers a place that fits, or there is none; in any case it ends.
pub data Searched (size align : ℕ) (mems res : List Region) : Location → Type 0 where
  found :
      {d : ℕ}
      → WithinSome mems d size
      → d % align ≡ 0
      → Clears d size res
      → Searched size align mems res (at d)
  absent :
      {rest : List Region}
      → ((d : ℕ) → WithinSome mems d size → d % align ≡ 0 → Clears d size res → ⊥)
      → Searched size align mems res (passed rest)

WithinSome-ge :
    (size align lo d : ℕ) (ms : List Region)
    → IsMemory size align lo ms
    → WithinSome ms d size
    → lo ≤ d
WithinSome-ge size align lo d [] k w = absurd w
WithinSome-ge size align lo d (m ∷ ms) k (inl w) = omega arith
WithinSome-ge size align lo d (m ∷ ms) k (inr w) =
    omega (arith, WithinSome-ge size align (m.address + m.size) d ms k.3 w)

-- The regions after the first, with the reservations that the search in it left.
Searched-next :
    (size align : ℕ) (m : Region) (ms res rest : List Region) (x : Location)
    → IsMemory size align (m.address + m.size) ms
    → Later size (m.address + m.size) res rest
    → ((d : ℕ) → Within m d size → d % align ≡ 0 → Clears d size res → ⊥)
    → Searched size align ms rest x
    → Searched size align (m ∷ ms) res x
Searched-next size align m ms res rest x k l u (found {d} w z c) =
    found (inr w) z (l.strengthen d (WithinSome-ge size align _ d ms k w) c)
Searched-next size align m ms res rest x k l u (absent v) =
    absent λ d w z c. elim w [ inl i ↦ u d i z c | inr i ↦ v d i z (l.weaken d c) ]

-- For a size and an alignment that are not zero, on memory regions and reservations in order that lie so low
-- that nothing wraps: the search ends, and answers an aligned place within one memory region that is
-- clear of every reservation; or there is no such place.
pub search_in-Searched :
    (size align lo : ℕ) (mems res : List Region)
    → 0 < size
    → 0 < align
    → is_power_of_two align ≡ true
    → IsMemory size align lo mems
    → Spaced 0 res
    → IsRoomy size align res
    → Searched size align mems res (search_in size align mems res)
unfolding search_in
search_in-Searched size align lo [] res p q two k s r = absent λ d w z c. w
search_in-Searched size align lo (m ∷ ms) res p q two k s r =
    rw (align_up-eq-done m.address align two, search_in)
      (go (settle (suc (length res)) m size align start res)
        (settle-Settled m size align p q two k.1 k.2 (suc (length res)) start res
          (omega (arith, skip_before-le start res)) (rounded_up-ge m.address align q fits)
          (omega (arith, rounded_up-le m.address align q fits))
          (rounded_up-mod m.address align q fits) s r)
        (λ rest s' r'.
          search_in-Searched size align (m.address + m.size) ms rest p q two k.3 s' r'))
  where
    start : ℕ
    start = rounded_up m.address align

    fits : m.address + align ≤ usize_mod
    fits = omega arith

    go :
        (x : Location)
        → Settled m size align start res x
        → ((rest : List Region)
            → Spaced 0 rest
            → IsRoomy size align rest
            → Searched size align ms rest (search_in size align ms rest))
        → Searched size align (m ∷ ms) res (elim x [
          | at a ↦ at a
          | passed rest ↦ search_in size align ms rest
          | running ↦ running
          | failed ↦ failed
        ])
    go (at d) (g, i, z, c) ih = found (inl i) z c
    go (passed rest) (l, s', r', u) ih =
        Searched-next size align m ms res rest _ k.3 l
          (λ d w z c. u d (rounded_up-least m.address align d q fits w.0 z) z w c) (ih rest s' r')
    go running h ih = absurd h
    go failed h ih = absurd h
