-- ===== src/Mem/Smalloc/Alloc.antt =====
-- libkernel/src/memory/allocators/smalloc.rs: what `alloc` answers, where the list of reservations has room.
use moss.Common.{
  ℕ, suc, ◌+◌, ◌-◌, ◌%◌, ◌≤◌, ◌<◌, ◌≡◌, inl, inr, refl, true, false, List, [], ◌∷◌, ◌==◌, usize_mod,
  arith, Bool-cases, ok, err, KernelError, sym,
}
use mathlib.Core.Path.{subst}
use moss.Mem.Region.{Region, page_size, is_power_of_two}
use moss.Mem.RegionList.{RegionList, count, merged, insert_region, requires_reallocation}
use moss.Mem.RegionList.Insert.{Spaced, merged-Spaced}
use moss.Mem.RegionList.Clear.{Clears, ClearOf, EndsBelow, Inserted, merged-Inserted}
use moss.Mem.Smalloc.{
  Smalloc, Location, at, passed, running, failed, returns, panics, spins, Outcome, reserving,
}
use moss.Mem.Smalloc.Search.{IsRoomy, WithinSome}
use moss.Mem.Smalloc.Find.{IsMemory, Searched, found, absent, search_in-Searched}
use moss.Mem.Smalloc.Calls.{null_page, find_allocation_location, alloc}

-- The lists are in order, and nothing lies so high that aligning and adding the size wraps.
pub record IsSound (size align : ℕ) (self : Smalloc) : Type 0 where
  pub memory : IsMemory size align 0 self.memory.regions
  pub spaced : Spaced 0 self.res.regions
  pub roomy : IsRoomy size align self.res.regions

top_of : ℕ → ℕ → ℕ
top_of size align = usize_mod + 1 - align - size

EndsBelow-IsRoomy :
    (size align : ℕ) (xs : List Region) → IsRoomy size align xs → EndsBelow (top_of size align) xs
unfolding top_of
EndsBelow-IsRoomy size align [] r = tt
EndsBelow-IsRoomy size align (x ∷ xs) r = (omega arith, EndsBelow-IsRoomy size align xs r.1)

IsRoomy-EndsBelow :
    (size align : ℕ) (xs : List Region) → EndsBelow (top_of size align) xs → IsRoomy size align xs
unfolding top_of
IsRoomy-EndsBelow size align [] r = tt
IsRoomy-EndsBelow size align (x ∷ xs) r = (omega arith, IsRoomy-EndsBelow size align xs r.1)

-- `reserving` where the list has room: the allocator goes on with the region in it.
unfoldable pub reserved : Region → Smalloc → Smalloc
reserved r self = record self { res = record self.res { regions = merged r self.res.regions } }

pub reserving-room :
    {A : Type 0} (r : Region) (self : Smalloc) (k : Smalloc → Outcome A)
    → count self.res < self.res.max
    → reserving r self k ≡ k (reserved r self)
unfolding insert_region reserved
reserving-room r self k h = ground arith

-- A list with room does not grow.
pub requires_reallocation-room :
    (l : RegionList) → count l + 1 < l.max → l.max < usize_mod → requires_reallocation l ≡ false
unfolding requires_reallocation
requires_reallocation-room l h w = ground arith

-- What `alloc` comes to. An address that it answers is not null, is aligned, lies with the whole block in one
-- memory region, and was clear of every reservation; then the reservations are the old ones and the
-- block, but for the zero page. Otherwise no place above the zero page fits.
abbrev pub Allocated : ℕ → ℕ → Smalloc → Outcome ℕ → Type 0
Allocated size align self panics = ⊥
Allocated size align self spins = ⊥
Allocated size align self (returns (err e, s)) =
    (e ≡ KernelError.no_memory)
    × (s.memory ≡ self.memory)
    × ((d : ℕ)
        → page_size ≤ d
        → WithinSome self.memory.regions d size
        → d % align ≡ 0
        → Clears d size self.res.regions
        → ⊥)
Allocated size align self (returns (ok d, s)) =
    (0 < d)
    × (d % align ≡ 0)
    × WithinSome self.memory.regions d size
    × Clears d size self.res.regions
    × (s.memory ≡ self.memory)
    × Spaced 0 s.res.regions
    × ((x k : ℕ)
        → 0 < k
        → (Clears x k s.res.regions
            → ClearOf x k (record { address = d; size = size }) × Clears x k self.res.regions)
          × (page_size ≤ x
              → ClearOf x k (record { address = d; size = size }) × Clears x k self.res.regions
              → Clears x k s.res.regions))

module _ (to_va : ℕ → ℕ) (size align : ℕ) (p : 0 < size) (two : is_power_of_two align ≡ true)
    (f : page_size + align + size ≤ usize_mod) where
  -- A state in the course of the call: at most the zero page has been reserved.
  record Stage (self s : Smalloc) : Type 0 where
    kept : s.memory ≡ self.memory
    sound : IsSound size align s
    room : count s.res + 1 < s.res.max
    word : s.res.max < usize_mod
    forth : (x k : ℕ) → 0 < k → Clears x k s.res.regions → Clears x k self.res.regions
    back :
        (x k : ℕ) → 0 < k → page_size ≤ x → Clears x k self.res.regions → Clears x k s.res.regions

  -- After an insertion of a region that lies low enough.
  reserved-IsSound :
      (r : Region) (s : Smalloc)
      → r.address + r.size + align + size ≤ usize_mod
      → IsSound size align s
      → IsSound size align (reserved r s)
  unfolding reserved top_of
  reserved-IsSound r s g h = record {
    memory = h.memory;
    spaced = (merged-Spaced r s.res.regions h.spaced (omega arith)).0;
    roomy =
        IsRoomy-EndsBelow size align _
          (merged-Inserted 0 size (top_of size align) p (omega arith) r s.res.regions (omega arith)
            (EndsBelow-IsRoomy size align _ h.roomy)).top_kept;
  }

  top_le : top_of size align ≤ usize_mod
  unfolding top_of
  top_le = omega arith

  inserted :
      (x k : ℕ) (r : Region) (s : Smalloc)
      → (o : 0 < k) → r.address + r.size + align + size ≤ usize_mod
      → IsSound size align s
      → Inserted x k (top_of size align) o top_le r s.res.regions
  unfolding top_of
  inserted x k r s o g h =
      merged-Inserted x k (top_of size align) o top_le r s.res.regions (omega arith)
        (EndsBelow-IsRoomy size align _ h.roomy)

  WithinSome-high :
      (lo d : ℕ) (ms : List Region)
      → IsMemory size align lo ms
      → WithinSome ms d size
      → d + size + align + size ≤ usize_mod
  WithinSome-high lo d [] k w = absurd w
  WithinSome-high lo d (m ∷ ms) k (inl w) = omega arith
  WithinSome-high lo d (m ∷ ms) k (inr w) = WithinSome-high (m.address + m.size) d ms k.3 w

  answer :
      (self s : Smalloc) (d : ℕ)
      → Stage self s
      → WithinSome s.memory.regions d size
      → d % align ≡ 0
      → Clears d size s.res.regions
      → 0 < d
      → Allocated size align self
          (reserving (record { address = d; size = size }) s (λ s'. returns (ok d, s')))
  unfolding reserved
  answer self s d g w z c o =
      let r : Region = record { address = d; size = size } in
      let high = WithinSome-high 0 d s.memory.regions g.sound.memory w in
      rw (reserving-room r s (λ s'. returns (ok d, s')) (omega (arith, g.room))) (
        o,
        z,
        subst (λ (m : RegionList). WithinSome m.regions d size) g.kept w,
        g.forth d size p c,
        g.kept,
        (reserved-IsSound r s high g.sound).spaced,
        λ x k u.
            let i = inserted x k r s u high g.sound in
            (
              λ e. let (a, b) = i.clear_forth e in (a, g.forth x k u b),
              λ l e. i.clear_back (e.0, g.back x k u l e.1),
            ),
      )

  refuse :
      (self s : Smalloc)
      → Stage self s
      → ((d : ℕ)
          → WithinSome s.memory.regions d size
          → d % align ≡ 0
          → Clears d size s.res.regions
          → ⊥)
      → Allocated size align self (returns (err KernelError.no_memory, s))
  refuse self s g v = (
    refl,
    g.kept,
    λ d l w z c.
        v d (subst (λ (m : RegionList). WithinSome m.regions d size) (sym g.kept) w) z
          (g.back d size p l c),
  )

  search :
      (s : Smalloc)
      → IsSound size align s
      → Searched size align s.memory.regions s.res.regions (find_allocation_location s size align)
  unfolding find_allocation_location
  search s h =
      search_in-Searched size align 0 s.memory.regions s.res.regions p (ground (arith, two)) two
        h.memory h.spaced h.roomy

  -- The rest of a call after the search.
  after : ℕ → Smalloc → Location → Outcome ℕ
  after n s x = elim x [
    | passed rest ↦ returns (err KernelError.no_memory, s)
    | running ↦ spins
    | failed ↦ panics
    | at address ↦ elim (address == 0) [
      | true ↦ reserving null_page s (λ s'. alloc to_va n size align s')
      | false ↦
          reserving (record { address = address; size = size }) s (λ s'. returns (ok address, s'))
    ]
  ]

  alloc-after :
      (n : ℕ) (s : Smalloc)
      → count s.res + 1 < s.res.max
      → s.res.max < usize_mod
      → alloc to_va (suc n) size align s ≡ after n s (find_allocation_location s size align)
  unfolding alloc after
  alloc-after n s h w = rw (requires_reallocation-room s.res h w, alloc) refl

  after-Allocated :
      (n : ℕ) (self s : Smalloc) (x : Location)
      → Stage self s
      → Searched size align s.memory.regions s.res.regions x
      → ((WithinSome s.memory.regions 0 size
          → Clears 0 size s.res.regions
          → Allocated size align self (reserving null_page s (λ s'. alloc to_va n size align s'))))
      → Allocated size align self (after n s x)
  unfolding after
  after-Allocated n self s x g (absent v) zero_case = refuse self s g v
  after-Allocated n self s x g (found {d} w z c) zero_case = elim (Bool-cases (d == 0)) [
    | inl e ↦
        let e' : d ≡ 0 = ground arith in
        rw (e, after)
          (zero_case (subst (λ d. WithinSome s.memory.regions d size) e' w)
            (subst (λ d. Clears d size s.res.regions) e' c))
    | inr e ↦ rw (e, after) (answer self s d g w z c (ground arith))
  ]

  -- Null is not clear of the zero page.
  zeroed-Stage :
      (self : Smalloc)
      → IsSound size align self
      → count self.res + 2 < self.res.max
      → self.res.max < usize_mod
      → Stage self (reserved null_page self)
  unfolding reserved
  zeroed-Stage self h m w = record {
    kept = refl;
    sound = reserved-IsSound null_page self f h;
    room = omega (arith, (inserted 0 size null_page self p f h).longer);
    word = w;
    forth = λ x k o c. ((inserted x k null_page self o f h).clear_forth c).1;
    back = λ x k o l c. (inserted x k null_page self o f h).clear_back (inl l, c);
  }

  not_null :
      (self : Smalloc)
      → IsSound size align self
      → Clears 0 size (reserved null_page self).res.regions
      → ⊥
  unfolding reserved
  not_null self h b =
      let c = ((inserted 0 size null_page self p f h).clear_forth b).0 in omega arith

  -- For a size that is not zero and an alignment that is a power of two, on lists that are in order, with room for two more
  -- reservations: `alloc` ends with two rounds of fuel, and answers as `Allocated` says.
  pub alloc-Allocated :
      (n : ℕ) (self : Smalloc)
      → IsSound size align self
      → count self.res + 2 < self.res.max
      → self.res.max < usize_mod
      → Allocated size align self (alloc to_va (suc (suc n)) size align self)
  alloc-Allocated n self h m w = rw (alloc-after (suc n) self (omega arith) w) (
      after-Allocated (suc n) self self (find_allocation_location self size align)
        (record {
          kept = refl;
          sound = h;
          room = omega arith;
          word = w;
          forth = λ x k o c. c;
          back = λ x k o l c. c;
        })
        (search self h)
        (λ u v.
          let g = zeroed-Stage self h m w in
          let z = reserved null_page self in
          rw
            (
              reserving-room null_page self (λ s'. alloc to_va (suc n) size align s') (omega arith),
              alloc-after n z g.room g.word,
            )
            (after-Allocated n self z (find_allocation_location z size align) g (search z g.sound)
              (λ a b. absurd (not_null self h b)))))
