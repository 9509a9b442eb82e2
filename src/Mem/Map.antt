-- ===== src/Mem/Map.antt =====
-- libkernel/src/memory/proc_vm/memory_map/mod.rs: the areas of a process. What only reads or writes the areas is a
-- function on their list; what also works on the page tables takes and returns a `Map`.
pub mod Order
pub mod Lookup
pub mod Carve
pub mod Unmap
pub mod View
pub mod Content
pub mod Effect
pub mod Calls
pub mod Remap
pub mod Fork
pub mod Cow
pub mod Munmap
mod Tests
use moss.Common.{
  ℕ, zero, suc, ◌+◌, ◌-◌, ◌%◌, min, max, Bool, true, false, not, ◌&&◌, ◌||◌, Option, none, some,
  List, [], ◌∷◌, ◌++◌, ltb, leb, ◌==◌, if◌then◌else◌, wadd, wsub, checked_add, Exec, done, panicked,
  Result, ok, err, KernelError,
}
use moss.Common
use mathlib.Core.List.{reverse}
use moss.Mem.Region
use moss.Mem.Region.{
  Region, page_size, end_address, expand_by, intersection, contains_address, page_aligned,
}
use moss.Mem.Vma.{
  Vma, Kind, FileMapping, Permissions, permissions_eq, can_merge_with, clone_with_new_region,
  is_file_backed,
}
use moss.Mem.Vma
use moss.Mem.BTree.{key, insert, remove, find, last_lt, last_le, range_from}
use moss.Mem.AddressSpace.{AddressSpace, pte_of}

abbrev pub mmap_base : ℕ
mmap_base = 0x4000_0000_0000

abbrev pub end_of : Vma → ℕ
end_of v = end_address v.region

unfoldable pub find_vma : List Vma → ℕ → Option Vma
unfolding contains_address
find_vma vmas addr = elim (last_le addr vmas) [
  | none ↦ none
  | some vma ↦ if contains_address vma.region addr then some vma else none
]

unfoldable pub is_region_free : List Vma → Region → Bool
is_region_free vmas region =
    let next_is_clear : Bool = elim (range_from region.address vmas) [
      | [] ↦ true
      | w ∷ ws ↦ if ltb (key w) (end_address region) then false else true
    ] in
    elim (last_le region.address vmas) [
      | none ↦ next_is_clear
      | some prev ↦ if ltb region.address (end_of prev) then false else next_is_clear
    ]

-- The loop of `find_free_region` over the areas from the last to the first.
unfoldable pub find_gap : ℕ → ℕ → List Vma → Option Region
find_gap len last_vma_end [] =
    if leb len last_vma_end
    then some (record { address = last_vma_end - len; size = len })
    else none
find_gap len last_vma_end (vma ∷ vs) =
    let rest = find_gap len (key vma) vs in
    if leb (end_of vma) last_vma_end && leb len (last_vma_end - end_of vma)
    then some (record { address = last_vma_end - len; size = len })
    else rest

unfoldable pub find_free_region : List Vma → ℕ → Option Region
unfolding find_gap
find_free_region vmas len = find_gap len mmap_base (reverse vmas)

-- the first half of `merge_vma`: absorb the next area
unfoldable pub merge_next : List Vma → Vma → Exec (Vma × List Vma)
merge_next vmas vma = elim (find (end_of vma) vmas) [
  | none ↦ done (vma, vmas)
  | some next ↦
      if can_merge_with vma next
      then elim (expand_by vma.region next.region.size) [
        | panicked ↦ panicked
        | done r ↦ done (record vma { region = r }, remove (key next) vmas)
      ]
      else done (vma, vmas)
]

-- the second half: be absorbed by the previous area, or be inserted
unfoldable pub merge_prev : List Vma → Vma → Exec (List Vma)
merge_prev vmas vma = elim (last_lt (key vma) vmas) [
  | none ↦ done (insert vma vmas)
  | some prev ↦
      if end_of prev == key vma && can_merge_with prev vma
      then elim (expand_by prev.region vma.region.size) [
        | panicked ↦ panicked
        | done r ↦ done (insert (record prev { region = r }) vmas)
      ]
      else done (insert vma vmas)
]

unfoldable pub merge_vma : List Vma → Vma → Exec (List Vma)
unfolding merge_next merge_prev
merge_vma vmas vma = elim (merge_next vmas vma) [
  | panicked ↦ panicked
  | done (v, vs) ↦ merge_prev vs v
]

-- The areas that `unmap_region` collects: the one before the region that reaches into it, then those
-- that start within it.
unfoldable pub starts_within : ℕ → List Vma → List Vma
starts_within unmap_end [] = []
starts_within unmap_end (vma ∷ vs) =
    let rest = starts_within unmap_end vs in if ltb (key vma) unmap_end then vma ∷ rest else []

unfoldable pub affected : List Vma → Region → List Vma
affected vmas r =
    let within = starts_within (end_address r) (range_from r.address vmas) in
    elim (last_lt r.address vmas) [
      | none ↦ within
      | some vma ↦ if ltb r.address (end_of vma) then vma ∷ within else within
    ]

-- `new_vma` of the last branch of the loop: the file offset moves with the start.
unfoldable pub truncated_front : Vma → ℕ → Vma
truncated_front vma unmap_end =
    let new_vma =
      clone_with_new_region vma
        (record { address = unmap_end; size = wsub (end_of vma) unmap_end }) in
    elim new_vma.kind [
      | Kind.file m ↦ record new_vma {
        kind = Kind.file (record m { offset = wadd m.offset (wsub unmap_end (key vma)) });
      }
      | _ ↦ new_vma
    ]

-- What the loop of `unmap_region` puts back of an area that it removed.
unfoldable pub put_back : Region → Vma → List Vma → List Vma
put_back r vma vmas =
    let unmap_start = r.address in
    let unmap_end = end_address r in
    let left =
      clone_with_new_region vma (record { address = key vma; size = wsub unmap_start (key vma) }) in
    let right =
      clone_with_new_region vma
        (record { address = unmap_end; size = wsub (end_of vma) unmap_end }) in
    if ltb (key vma) unmap_start && ltb unmap_end (end_of vma)
    then insert right (insert left vmas)
    else (let kept = if ltb (key vma) unmap_start then insert left vmas else vmas in
        if ltb unmap_end (end_of vma) then insert (truncated_front vma unmap_end) kept else kept)

module _ (AS : AddressSpace) where
  open AS use {Space, unmap_range, protect_range}

  pub record Map : Type 0 where
    pub vmas : List Vma
    pub space : Space

  -- The page tables' part of a change to an area; an empty list of pages where nothing is unmapped.
  unfoldable pub fixup_pg_tables : Region → Vma → Option Vma → Space → Result (List ℕ) × Space
  fixup_pg_tables fixup_region old_vma new_vma space =
      elim (intersection fixup_region old_vma.region) [
        | none ↦ (ok [], space)
        | some i ↦ elim new_vma [
          | none ↦ unmap_range i space
          | some new ↦
              if is_file_backed old_vma || is_file_backed new
              then unmap_range i space
              else if not (permissions_eq new.permissions old_vma.permissions)
              then (let (r, space') = protect_range i (pte_of new.permissions) space in
                  elim r [ ok _ ↦ (ok [], space') | err e ↦ (err e, space') ])
              else (ok [], space)
        ]
      ]

  -- One round of the loop of `unmap_region`. An area that is gone is the `unwrap` that panics; an error of
  -- the page tables ends the loop with the area removed.
  unfoldable pub unmap_one : Region → Option Vma → Vma → Map → Exec (Result (List ℕ) × Map)
  unmap_one r replace_with vma m = elim (find (key vma) m.vmas) [
    | none ↦ panicked
    | some _ ↦
        (let removed = remove (key vma) m.vmas in
          let (pages, space') = fixup_pg_tables r vma replace_with m.space in
          elim pages [
            | err e ↦ done (err e, record { vmas = removed; space = space' })
            | ok ps ↦ done (ok ps, record { vmas = put_back r vma removed; space = space' })
          ])
  ]

  unfoldable pub unmap_all :
      Region → Option Vma → List Vma → List ℕ → Map → Exec (Result (List ℕ) × Map)
  unmap_all r replace_with [] pages m = done (ok pages, m)
  unmap_all r replace_with (vma ∷ vs) pages m = elim (unmap_one r replace_with vma m) [
    | panicked ↦ panicked
    | done (res, m') ↦ elim res [
      | err e ↦ done (err e, m')
      | ok ps ↦ unmap_all r replace_with vs (pages ++ ps) m'
    ]
  ]

  unfoldable pub unmap_region : Region → Option Vma → Map → Exec (Result (List ℕ) × Map)
  unmap_region r replace_with m = unmap_all r replace_with (affected m.vmas r) [] m

  -- The result of `unmap_region` is dropped.
  unfoldable pub insert_and_merge : Vma → Map → Exec Map
  insert_and_merge vma m = elim (unmap_region vma.region (some vma) m) [
    | panicked ↦ panicked
    | done (_, m') ↦ elim (merge_vma m'.vmas vma) [
      | panicked ↦ panicked
      | done vs ↦ done (record m' { vmas = vs })
    ]
  ]
