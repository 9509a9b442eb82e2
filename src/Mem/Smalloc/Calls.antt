-- ===== src/Mem/Smalloc/Calls.antt =====
-- libkernel/src/memory/allocators/smalloc.rs: allocation, reservation, claiming of memory, and the walk over free regions.
use moss.Common.{
  ◌++◌, ℕ, zero, suc, ◌-◌, ◌/◌, Bool, true, false, Option, none, some, List, [], ◌∷◌, ltb, leb,
  ◌==◌, if◌then◌else◌, done, panicked, ok, err, KernelError,
}
use moss.Mem.Region.{Region, page_size, end_address, punch_hole, is_before, is_after}
use moss.Mem.RegionList.{list_is_empty, remove_at, requires_reallocation}
use moss.Mem.Smalloc.{
  Smalloc, Location, at, passed, running, failed, search_in, returns, panics, spins, Outcome,
  RegionListType, reserving, adding_memory, grow_region_list, position,
}

abbrev pub null_page : Region
null_page = record { address = 0; size = page_size }

unfoldable pub find_allocation_location : Smalloc → ℕ → ℕ → Location
unfolding search_in
find_allocation_location self size align = search_in size align self.memory.regions self.res.regions

unfoldable pub base_ram_base_address : Smalloc → Option ℕ
unfolding list_is_empty
base_ram_base_address self =
    if list_is_empty self.memory
    then none
    else elim self.memory.regions [ [] ↦ none | m ∷ ms ↦ some m.address ]

-- The free parts of one region, and the reservations for the regions that follow: what the calls of
-- `FreeRegionsIter::next` yield from one fragment. The starts and ends are in order by the tests before.
unfoldable pub free_parts : Region → List Region → List Region × List Region
unfolding is_before is_after
free_parts fragment [] = (fragment ∷ [], [])
free_parts fragment (r ∷ rs) =
    let remainder : Region = record {
      address = end_address r;
      size = end_address fragment - end_address r;
    } in
    let prefix : Region = record {
      address = fragment.address;
      size = r.address - fragment.address;
    } in
    let same = free_parts fragment rs in
    let later = free_parts remainder rs in
    if is_before r fragment
    then same
    else if is_after r fragment
    then (fragment ∷ [], r ∷ rs)
    else if ltb fragment.address r.address
    then (if ltb (end_address r) (end_address fragment)
        then (prefix ∷ later.0, later.1)
        else (prefix ∷ [], rs))
    else if leb (end_address fragment) (end_address r)
    then ([], rs)
    else later

unfoldable pub free_regions : List Region → List Region → List Region
unfolding free_parts
free_regions [] res = []
free_regions (m ∷ ms) res = let (parts, rest) = free_parts m res in parts ++ free_regions ms rest

unfoldable pub iter_free : Smalloc → List Region
unfolding free_regions
iter_free self = free_regions self.memory.regions self.res.regions

module _ (to_va : ℕ → ℕ) where
  -- `if list.requires_reallocation() { self.grow_region_list(kind)? }`, and what follows
  abbrev pub with_room :
      {A : Type 0} → ℕ → Bool → RegionListType → Smalloc → (Smalloc → Outcome A) → Outcome A
  with_room n full kind self k = elim full [
    | false ↦ k self
    | true ↦ elim (grow_region_list to_va n kind self) [
      | panics ↦ panics
      | spins ↦ spins
      | returns (r, self') ↦ elim r [ err e ↦ returns (err e, self') | ok _ ↦ k self' ]
    ]
  ]

  -- The second call, after the zero page is reserved, is one with less fuel.
  unfoldable pub alloc : ℕ → ℕ → ℕ → Smalloc → Outcome ℕ
  unfolding find_allocation_location
  alloc zero size align self = spins
  alloc (suc n) size align self =
      with_room n (requires_reallocation self.res) RegionListType.res self λ s.
        elim (find_allocation_location s size align) [
          | passed rest ↦ returns (err KernelError.no_memory, s)
          | running ↦ spins
          | failed ↦ panics
          | at address ↦ elim (address == 0) [
            | true ↦ reserving null_page s (λ s'. alloc n size align s')
            | false ↦
                reserving (record { address = address; size = size }) s
                  (λ s'. returns (ok address, s'))
          ]
        ]

  -- A page frame number is the address shifted by PAGE_SHIFT.
  unfoldable pub alloc_page : ℕ → Smalloc → Outcome ℕ
  alloc_page n self = elim (alloc n page_size page_size self) [
    | panics ↦ panics
    | spins ↦ spins
    | returns (r, s) ↦ elim r [
      | err e ↦ returns (err e, s)
      | ok pa ↦ returns (ok (pa / page_size), s)
    ]
  ]

  unfoldable pub add_reservation : ℕ → Region → Smalloc → Outcome (Unit {0})
  add_reservation n region self =
      with_room n (requires_reallocation self.res) RegionListType.res self
        λ s. reserving region s (λ s'. returns (ok tt, s'))

  unfoldable pub add_memory : ℕ → Region → Smalloc → Outcome (Unit {0})
  add_memory n region self =
      with_room n (requires_reallocation self.memory) RegionListType.mem self
        λ s. adding_memory region s (λ s'. returns (ok tt, s'))

  abbrev adding_part : Option Region → Smalloc → (Smalloc → Outcome (Unit {0})) → Outcome (Unit {0})
  adding_part none self k = k self
  adding_part (some r) self k = adding_memory r self k

  -- `claim_region`: the test `any` is the same search as `position`; the second one is after the growth.
  unfoldable pub claim_region : ℕ → Region → Smalloc → Outcome (Unit {0})
  unfolding position remove_at
  claim_region n region self = elim (position region self.memory.regions) [
    | none ↦ returns (err KernelError.invalid_value, self)
    | some _ ↦ with_room n (requires_reallocation self.memory) RegionListType.mem self λ s.
        elim (position region s.memory.regions) [
          | none ↦ panics
          | some (index, containing) ↦
              (let taken : Smalloc = record s {
                memory = record s.memory { regions = remove_at index s.memory.regions };
              } in
                elim (punch_hole containing region) [
                  | panicked ↦ panics
                  | done (left, right) ↦
                      adding_part left taken
                        (λ s1. adding_part right s1 (λ s2. returns (ok tt, s2)))
                ])
        ]
  ]
