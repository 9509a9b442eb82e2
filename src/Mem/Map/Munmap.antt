-- ===== src/Mem/Map/Munmap.antt =====
-- libkernel/src/memory/proc_vm/memory_map/mod.rs: the effect of `munmap` on every address, and its refusals.
use moss.Common.{
  ℕ, ◌+◌, ◌%◌, ◌<◌, ◌≡◌, ◌≢◌, ◌⊎◌, inl, inr, none, List, if◌then◌else◌, usize_mod, arith, ◌∙◌, sym,
  Exec, done, Result, ok, err, KernelError, ℕ_discrete,
}
use moss.Mem.Region.{Region, page_size, align_to_page_boundary}
use moss.Mem.Region.Pages.{IsPageHull, align_to_page_boundary_hull}
use moss.Mem.Vma.{Vma}
use moss.Mem.AddressSpace.{AddressSpace}
use moss.Mem.Map.{Map, unmap_region}
use moss.Mem.Map.Order.{Tiled}
use moss.Mem.Map.Unmap.{Carved, unmap_region-Carved}
use moss.Mem.Map.Carve.{carve}
use moss.Mem.Map.View.{inside, unmap_region-area_at}
use moss.Mem.Map.Content.{permissions_at, unmap_region-permissions}
use moss.Mem.Map.Calls.{munmap}

module _ (AS : AddressSpace) where
  munmap-eq :
      (range h : Region) (m : Map AS)
      → range.address % page_size ≡ 0
      → 0 < range.size
      → align_to_page_boundary range ≡ done h
      → munmap AS range m ≡ unmap_region AS h none m
  unfolding munmap
  munmap-eq range h m a p e = ground arith

  -- `munmap` answers EINVAL for a start that is not page-aligned and for an empty range, and then
  -- changes nothing.
  pub munmap-refused :
      (range : Region) (m : Map AS)
      → (range.address % page_size ≢ 0) ⊎ (range.size ≡ 0)
      → munmap AS range m ≡ done (err KernelError.invalid_value, m)
  unfolding munmap
  munmap-refused range m h = ground arith

  -- Where `munmap` succeeds on a map in order, with a page-aligned start, a size that is not zero and an end
  -- that rounds up below 2 ^ 64, the addresses from the start to the end rounded up to a page have no
  -- permissions left, every other address has those that it had, and the map is in order again.
  pub munmap-permissions :
      (range : Region) (lo a : ℕ) (m m' : Map AS) (ps : List ℕ)
      → range.address % page_size ≡ 0
      → 0 < range.size
      → range.address + range.size + page_size < usize_mod
      → Tiled lo m.vmas
      → munmap AS range m ≡ done (ok ps, m')
      → (h : Region) × IsPageHull range h
        × (permissions_at m'.vmas a ≡ (if inside h a then none else permissions_at m.vmas a))
        × Tiled lo m'.vmas
  munmap-permissions range lo a m m' ps al p f t q =
      let (h, e, hull) = align_to_page_boundary_hull range (omega arith) in
      let unmapped = sym (munmap-eq range h m al p e) ∙ q in
      (
        h,
        hull,
        unmap_region-permissions AS h none lo a m m' ps (omega arith) t unmapped,
        (unmap_region-area_at AS h none lo a m m' ps (omega arith) t unmapped).1,
      )

  answered :
      (target : List Vma) (x : Exec (Result (List ℕ) × Map AS))
      → Carved AS target x
      → (y : Result (List ℕ) × Map AS) × (x ≡ done y)
  answered target x (inl (e, m, q)) = (_, q)
  answered target x (inr (ps, m, q, v)) = (_, q)

  -- On such a map and range `munmap` does not panic.
  pub munmap-no_panic :
      (range : Region) (lo : ℕ) (m : Map AS)
      → range.address + range.size + page_size < usize_mod
      → Tiled lo m.vmas
      → (x : Result (List ℕ) × Map AS) × (munmap AS range m ≡ done x)
  munmap-no_panic range lo m f t = elim (ℕ_discrete (range.address % page_size) 0) [
    | no n ↦ (_, munmap-refused range m (inl n))
    | yes a ↦ elim (ℕ_discrete range.size 0) [
      | yes z ↦ (_, munmap-refused range m (inr z))
      | no p ↦
          let (h, e, hull) = align_to_page_boundary_hull range (omega arith) in
          answered (carve h m.vmas) (munmap AS range m) (
            rw (munmap-eq range h m a (omega arith) e)
              (unmap_region-Carved AS h none lo m (omega arith) t))
    ]
  ]
