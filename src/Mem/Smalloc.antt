-- ===== src/Mem/Smalloc.antt =====
-- libkernel/src/memory/allocators/smalloc.rs: the allocator of early boot, over its lists of memory and of reserved regions.
pub mod Search
pub mod Find
pub mod Calls
pub mod Alloc
pub mod Free
pub mod Unreserved
mod Tests
use moss.Common.{
  ℕ, zero, suc, ◌+◌, ◌-◌, ◌*◌, Bool, true, false, not, Option, none, some, List, [], ◌∷◌, ltb, leb,
  ◌==◌, if◌then◌else◌, Exec, done, panicked, Result, ok, err, KernelError, length,
}
use moss.Mem.Region.{Region, page_size, align_up, end_address, contains, overlaps}
use moss.Mem.RegionList.{RegionList, count, remove_at, insert_region, requires_reallocation}

-- What a search in one memory region comes to: an address, the reservations from `res_idx` on for the
-- regions that follow, no end within the rounds given, or a panic.
pub data Location : Type 0 where
  at : ℕ → Location
  passed : List Region → Location
  running : Location
  failed : Location

-- `while res_idx < self.res.count && self.res[res_idx].end_address() <= start { res_idx += 1 }`
unfoldable pub skip_before : ℕ → List Region → List Region
skip_before start [] = []
skip_before start (r ∷ rs) =
    let rest = skip_before start rs in if leb (end_address r) start then rest else r ∷ rs

-- `while mem_region.contains(candidate)`, for a candidate of this size that starts at `start`
unfoldable pub settle : ℕ → Region → ℕ → ℕ → ℕ → List Region → Location
unfolding skip_before contains overlaps align_up
settle zero mem size align start res = running
settle (suc n) mem size align start res =
    elim (contains mem (record { address = start; size = size })) [
      | false ↦ passed res
      | true ↦ elim (skip_before start res) [
        | [] ↦ at start
        | r ∷ rs ↦ elim (overlaps (record { address = start; size = size }) r) [
          | false ↦ at start
          | true ↦ elim (align_up (end_address r) align) [
            | panicked ↦ failed
            | done next ↦ settle n mem size align next (r ∷ rs)
          ]
        ]
      ]
    ]

-- The loop over the memory regions. A search in one makes at most one round for each reservation, and
-- one more.
unfoldable pub search_in : ℕ → ℕ → List Region → List Region → Location
search_in size align [] res = passed res
search_in size align (mem ∷ mems) res = elim (align_up mem.address align) [
  | panicked ↦ failed
  | done start ↦ elim (settle (suc (length res)) mem size align start res) [
    | at a ↦ at a
    | passed rest ↦ search_in size align mems rest
    | running ↦ running
    | failed ↦ failed
  ]
]

-- What comes of a call: a value, a panic, or no end within the fuel given.
pub data Run (A : Type 0) : Type 0 where
  returns : A → Run A
  panics : Run A
  spins : Run A

pub record Smalloc : Type 0 where
  pub memory : RegionList
  pub res : RegionList
  pub permit_region_realloc : Bool

pub data RegionListType : Type 0 where
  mem res : RegionListType

unfoldable pub new : RegionList → RegionList → Smalloc
new memory reserved_list = record {
  memory = memory;
  res = reserved_list;
  permit_region_realloc = false;
}

unfoldable pub permit_region_list_reallocs : Smalloc → Smalloc
permit_region_list_reallocs self = record self { permit_region_realloc = true }

abbrev pub Outcome : Type 0 → Type 0
Outcome A = Run (Result A × Smalloc)

-- `self.res.insert_region(r)`, and what follows
abbrev pub reserving : {A : Type 0} → Region → Smalloc → (Smalloc → Outcome A) → Outcome A
reserving r self k = elim (insert_region self.res r) [
  | panicked ↦ panics
  | done l ↦ k (record self { res = l })
]

abbrev pub adding_memory : {A : Type 0} → Region → Smalloc → (Smalloc → Outcome A) → Outcome A
adding_memory r self k = elim (insert_region self.memory r) [
  | panicked ↦ panics
  | done l ↦ k (record self { memory = l })
]

-- `position(|r| r.contains(region))`, with the region found
unfoldable pub position : Region → List Region → Option (ℕ × Region)
unfolding contains
position region [] = none
position region (r ∷ rs) =
    if contains r region
    then some (0, r)
    else elim (position region rs) [ none ↦ none | some (i, x) ↦ some (suc i, x) ]

-- `free` after the list was grown where it had to be: the entry at the index goes, and its parts before
-- and after the block come back. An index past the end would make the code copy from behind the list.
unfoldable pub cut : ℕ → Region → Region → Smalloc → Outcome (Unit {0})
unfolding remove_at
cut index old block self =
    if leb (count self.res) index
    then panics
    else (let taken : Smalloc = record self {
      res = record self.res { regions = remove_at index self.res.regions };
    } in
        let left : Region = record { address = old.address; size = block.address - old.address } in
        let right : Region = record {
          address = end_address block;
          size = end_address old - end_address block;
        } in
        let finish : Smalloc → Outcome (Unit {0}) = λ s.
          if ltb (end_address block) (end_address old)
          then reserving right s (λ s'. returns (ok tt, s'))
          else returns (ok tt, s) in
        if ltb old.address block.address then reserving left taken finish else finish taken)

-- The address of the new buffer is asked for as a physical one; `to_va` stands for the address
-- translator `T`. A region takes 16 bytes, aligned to 8.
module _ (to_va : ℕ → ℕ) where
  unfoldable mutual
    unfolding position cut

    pub free : ℕ → ℕ → ℕ → Smalloc → Outcome (Unit {0})
    free zero addr size self = spins
    free (suc n) addr size self =
        let block : Region = record { address = addr; size = size } in
        elim (position block self.res.regions) [
          | none ↦ returns (err KernelError.no_mem_region, self)
          | some (index, old) ↦ elim (requires_reallocation self.res) [
            | false ↦ cut index old block self
            | true ↦ elim (grow_region_list n RegionListType.res self) [
              | panics ↦ panics
              | spins ↦ spins
              | returns (r, self') ↦ elim r [
                | err e ↦ returns (err e, self')
                | ok _ ↦ cut index old block self'
              ]
            ]
          ]
        ]

    pub grow_region_list : ℕ → RegionListType → Smalloc → Outcome (Unit {0})
    grow_region_list zero kind self = spins
    grow_region_list (suc n) kind self =
        let list : RegionList = elim kind [ mem ↦ self.memory | res ↦ self.res ] in
        let new_max = list.max * 2 in
        elim self.permit_region_realloc [
          | false ↦ returns (err KernelError.no_memory, self)
          | true ↦ elim (search_in (new_max * 16) 8 self.memory.regions self.res.regions) [
            | passed rest ↦ returns (err KernelError.no_memory, self)
            | running ↦ spins
            | failed ↦ panics
            | at addr ↦
                (let grown : RegionList = record list { max = new_max; buffer = to_va addr } in
                  let self' : Smalloc = elim kind [
                    | mem ↦ record self { memory = grown }
                    | res ↦ record self { res = grown }
                  ] in
                  elim (free n list.buffer (list.max * 16) self') [
                    | panics ↦ panics
                    | spins ↦ spins
                    | returns (_, s) ↦
                        reserving (record { address = to_va addr; size = new_max * 16 }) s
                          (λ s'. returns (ok tt, s'))
                  ])
          ]
        ]
