-- ===== src/Mem/Map/Remap.antt =====
-- libkernel/src/memory/proc_vm/memory_map/mod.rs: `mremap`.
use moss.Common.{
  ℕ, ◌-◌, ◌%◌, min, Bool, true, false, not, ◌&&◌, ◌||◌, none, some, List, [], ◌∷◌, ◌++◌, ltb, leb,
  ◌==◌, if◌then◌else◌, wadd, Exec, done, panicked, Result, ok, err, KernelError,
}
use moss.Mem.Region.{
  Region, page_size, addr_is_page_aligned, from_start_end_address, overlaps, end_address,
  iter_pages,
}
use moss.Mem.Vma.{Vma, Kind, shrink_to}
use moss.Mem.BTree.{key}
use moss.Mem.AddressSpace.{AddressSpace}
use moss.Mem.Map.{end_of, find_vma, is_region_free, find_free_region, unmap_region}
use moss.Mem.Map.Effect
use moss.Mem.Map.Effect.{
  Eff, pure, fail, from_exec, ok_or, get_vmas, on_space, remove_unwrap, merging,
}

pub data RemapDestination : Type 0 where
  in_place_only may_move : RemapDestination
  fixed : ℕ → RemapDestination

abbrev is_fixed : RemapDestination → Bool
is_fixed (fixed a) = true
is_fixed _ = false

unfoldable pub align_len : ℕ → ℕ
align_len len = if len % page_size == 0 then len else wadd (len - len % page_size) page_size

-- the end of the first `new_len` bytes of the old region
unfoldable pub can_expand_in_place : List Vma → Vma → Region → ℕ → Exec Bool
can_expand_in_place vmas source old new_len =
    let new_end = wadd old.address new_len in
    let free : Exec Bool = elim (from_start_end_address (end_of source) new_end) [
      | panicked ↦ panicked
      | done r ↦ done (is_region_free vmas r)
    ] in
    if leb new_end (end_of source) then done true else free

unfoldable pub relocate_vma : Vma → Region → Vma
relocate_vma vma new_region = elim vma.kind [
  | Kind.file m ↦ record vma {
    region = new_region;
    kind = Kind.file (record m { len = min m.len new_region.size });
  }
  | _ ↦ record vma { region = new_region }
]

module _ (AS : AddressSpace) where
  open AS use {Space, unmap_range, translate, map_page, unmap}

  infixl 5 ◌>>=◌ ◌>>◌
  abbrev ◌>>=◌ : {A B : Type 0} → Eff AS A → (A → Eff AS B) → Eff AS B
  f >>= k = Effect.bind AS f k

  abbrev ◌>>◌ : {B : Type 0} → Eff AS (Unit {0}) → Eff AS B → Eff AS B
  f >> k = Effect.bind AS f (λ _. k)

  abbrev guard : Bool → KernelError → Eff AS (Unit {0})
  guard b e m = if b then done (ok tt, m) else done (err e, m)

  -- `merge_vma(source.shrink_to(from_start_end_address(start, end)))` under its test
  abbrev merging_part : Bool → Vma → ℕ → ℕ → Eff AS (Unit {0})
  merging_part b source start end =
      let part : Eff AS (Unit {0}) = do
        r ← from_exec AS (from_start_end_address start end)
        merging AS (shrink_to source r)
      in if b then part else pure AS tt

  unfoldable pub expand_in_place : Vma → Region → ℕ → Eff AS (ℕ × List ℕ)
  expand_in_place source old new_len =
      let new_end = wadd old.address new_len in
      let expand : Eff AS (ℕ × List ℕ) = do
        remove_unwrap AS (key source)
        r ← from_exec AS (from_start_end_address (key source) new_end)
        merging AS (record source { region = r })
        pure AS (old.address, [])
      in if leb new_end (end_of source) then pure AS (old.address, []) else expand

  unfoldable pub shrink_in_place : Vma → Region → ℕ → Eff AS (ℕ × List ℕ)
  shrink_in_place source old new_len = do
    let new_region : Region = record { address = old.address; size = new_len }
    removed ← from_exec AS (from_start_end_address (end_address new_region) (end_address old))
    freed ← on_space AS (unmap_range removed)
    remove_unwrap AS (key source)
    merging_part (ltb (key source) old.address) source (key source) old.address
    merging AS (shrink_to source new_region)
    merging_part (ltb (end_address old) (end_of source)) source (end_address old) (end_of source)
    pure AS (old.address, freed)

  -- What `let _ = self.address_space.unmap(page)` does to each page that was mapped.
  unfoldable pub unmap_each : List ℕ → Space → Space
  unmap_each [] s = s
  unmap_each (p ∷ ps) s = unmap_each ps (unmap p s).1

  -- The loop over the pages of the old and the new region; `mapped` are the new pages so far.
  unfoldable pub move_pages : List ℕ → List ℕ → List ℕ → Space → Result (Unit {0}) × Space
  unfolding unmap_each
  move_pages [] news mapped s = (ok tt, s)
  move_pages (o ∷ olds) [] mapped s = (ok tt, s)
  move_pages (o ∷ olds) (n ∷ news) mapped s = elim (translate s o) [
    | none ↦ move_pages olds news mapped s
    | some info ↦
        (let (r, s') = map_page info.pfn n info.perms s in
          elim r [
            | ok _ ↦ move_pages olds news (mapped ++ n ∷ []) s'
            | err e ↦ (err e, unmap_each mapped s')
          ])
  ]

  unfoldable pub move_preserved : Region → Region → ℕ → Eff AS (Unit {0})
  unfolding move_pages
  move_preserved old new preserved_len =
      let preserved_old : Region = record { address = old.address; size = preserved_len } in
      let preserved_new : Region = record { address = new.address; size = preserved_len } in
      let move : Eff AS (Unit {0}) = do
        on_space AS (move_pages (iter_pages preserved_old) (iter_pages preserved_new) [])
        pages ← on_space AS (unmap_range preserved_old)
        pure AS tt
      in if preserved_len == 0 then pure AS tt else move

  unfoldable pub unmap_tail : Region → ℕ → Eff AS (List ℕ)
  unmap_tail old preserved_len =
      let tail : Eff AS (List ℕ) = do
        r ← from_exec AS (from_start_end_address (wadd old.address preserved_len) (end_address old))
        on_space AS (unmap_range r)
      in if ltb preserved_len old.size then tail else pure AS []

  unfoldable pub move_selected_mapping : Vma → Region → Region → Bool → Eff AS (ℕ × List ℕ)
  move_selected_mapping source old new clobber_target = do
    freed ← if clobber_target then unmap_region AS new none else pure AS []
    move_preserved old new (min old.size new.size)
    tail ← unmap_tail old (min old.size new.size)
    remove_unwrap AS (key source)
    merging_part (ltb (key source) old.address) source (key source) old.address
    merging_part (ltb (end_address old) (end_of source)) source (end_address old) (end_of source)
    merging AS (relocate_vma (shrink_to source old) new)
    pure AS (new.address, freed ++ tail)

  -- The check of a fixed destination before anything changes.
  unfoldable pub check_fixed : RemapDestination → Vma → Region → ℕ → Eff AS (Unit {0})
  check_fixed (fixed new_addr) source old new_len = do
    let new_region : Region = record { address = new_addr; size = new_len }
    guard (addr_is_page_aligned new_addr) KernelError.invalid_value
    guard (not (overlaps new_region old || overlaps new_region source.region))
        KernelError.invalid_value
  check_fixed _ source old new_len = pure AS tt

  -- From `can_expand_in_place` on, for a destination that is not fixed.
  unfoldable pub grow : RemapDestination → Vma → Region → ℕ → Eff AS (ℕ × List ℕ)
  unfolding can_expand_in_place
  grow destination source old new_len = do
    vmas ← get_vmas AS
    fits ← from_exec AS (can_expand_in_place vmas source old new_len)
    if fits then expand_in_place source old new_len else elim destination [
      | in_place_only ↦ fail AS KernelError.no_memory
      | may_move ↦ (do
        new ← ok_or AS (find_free_region vmas new_len) KernelError.no_memory
        move_selected_mapping source old new false)
      | fixed a ↦ from_exec AS panicked
    ]

  abbrev resize : RemapDestination → Vma → Region → ℕ → Eff AS (ℕ × List ℕ)
  resize (fixed new_addr) source old new_len =
      move_selected_mapping source old (record { address = new_addr; size = new_len }) true
  resize destination source old new_len =
      if leb new_len old.size
      then shrink_in_place source old new_len
      else grow destination source old new_len

  unfoldable pub mremap : ℕ → ℕ → ℕ → RemapDestination → Eff AS (ℕ × List ℕ)
  unfolding align_len check_fixed
  mremap old_addr old_len new_len destination = do
    guard (addr_is_page_aligned old_addr && (not (old_len == 0) && not (new_len == 0)))
        KernelError.invalid_value
    let old : Region = record { address = old_addr; size = align_len old_len }
    vmas ← get_vmas AS
    source ← ok_or AS (find_vma vmas old_addr) KernelError.fault
    guard (leb (end_address old) (end_of source)) KernelError.fault
    check_fixed destination source old (align_len new_len)
    if align_len old_len == align_len new_len && not (is_fixed destination)
        then pure AS (old_addr, [])
        else resize destination source old (align_len new_len)
