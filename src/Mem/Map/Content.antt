-- ===== src/Mem/Map/Content.antt =====
-- libkernel/src/memory/proc_vm/memory_map/mod.rs: permissions and content of the addresses after `unmap_region`, and the
-- content of file-backed areas that it splits or that `merge_vma` joins.
use moss.Common.{
  ℕ, ◌+◌, ◌-◌, ◌%◌, ◌≤◌, ◌<◌, ◌≡◌, ◌≢◌, true, false, Option, none, some, List, [], ◌∷◌,
  if◌then◌else◌, usize_mod, arith, done, ok, Option-cases, inl, inr,
}
use moss.Mem.Region.{Region, page_size, expand_by}
use moss.Mem.Region.Points.{Fits, Covers}
use moss.Mem.Vma.{
  Vma, file, FileMapping, Permissions, clone_with_new_region, is_file_backed, can_merge_with,
}
use moss.Mem.Vma.Source.{zeroes, file_byte, source, IsSane}
use moss.Mem.BTree.{key, insert, find, last_lt}
use moss.Mem.AddressSpace.{AddressSpace}
use moss.Mem.Map.{Map, unmap_region, truncated_front, merge_vma, end_of}
use moss.Mem.Map.Order.{stop, Tiled}
use moss.Mem.Map.Lookup.{area_at}
use moss.Mem.Map.View.{inside, piece_at, map_option, unmap_region-area_at}

abbrev pub permissions_at : List Vma → ℕ → Option Permissions
permissions_at vs a = map_option (λ v. v.permissions) (area_at vs a)

piece_at-permissions : (r : Region) (a : ℕ) (v : Vma) → (piece_at r a v).permissions ≡ v.permissions
unfolding truncated_front clone_with_new_region
piece_at-permissions r a v = ground arith

-- A part that is left of an area that is not file-backed has the source that the area had.
piece_at-source :
    (r : Region) (a : ℕ) (v : Vma)
    → is_file_backed v ≡ false
    → IsSane v
    → Covers v.region a
    → inside r a ≡ false
    → source (piece_at r a v) a ≡ source v a
unfolding truncated_front clone_with_new_region
piece_at-source r a v n s c o = ground arith

-- The right part of a file-backed area that a region splits starts at the file offset of the whole.
piece_at-split :
    (r : Region) (a : ℕ) (v : Vma) (m : FileMapping)
    → v.kind ≡ file m
    → key v < r.address
    → r.address + r.size ≤ a
    → a < stop v
    → a - key v < m.len
    → source (piece_at r a v) a ≡ file_byte m.file (m.offset + (a - (r.address + r.size)))
unfolding clone_with_new_region
piece_at-split r a v m k l h s b = ground arith

area_at-Covers : (vs : List Vma) (a : ℕ) (v : Vma) → area_at vs a ≡ some v → Covers v.region a
area_at-Covers [] a v h = cc
area_at-Covers (w ∷ vs) a v h = ground (arith, area_at-Covers vs a v)

module _ (AS : AddressSpace) where
  -- Where `unmap_region` succeeds on a map in order, with a region that does not wrap, the addresses of
  -- the region have no permissions left and every other address has those that it had.
  pub unmap_region-permissions :
      (r : Region) (w : Option Vma) (lo a : ℕ) (m m' : Map AS) (ps : List ℕ)
      → Fits r
      → Tiled lo m.vmas
      → unmap_region AS r w m ≡ done (ok ps, m')
      → permissions_at m'.vmas a ≡ (if inside r a then none else permissions_at m.vmas a)
  unmap_region-permissions r w lo a m m' ps f t h = elim (Option-cases (area_at m.vmas a)) [
    | inl e ↦ ground (arith, unmap_region-area_at AS r w lo a m m' ps f t h)
    | inr (v, e) ↦
        ground (arith, unmap_region-area_at AS r w lo a m m' ps f t h, piece_at-permissions r a v)
  ]

  -- Where `unmap_region` succeeds on a map in order, with a region that does not wrap, an address outside
  -- the region whose area is anonymous or shared, with offsets that do not wrap, has an area
  -- afterwards, and its content has the same source.
  pub unmap_region-source :
      (r : Region) (w : Option Vma) (lo a : ℕ) (m m' : Map AS) (ps : List ℕ) (v : Vma)
      → Fits r
      → Tiled lo m.vmas
      → unmap_region AS r w m ≡ done (ok ps, m')
      → area_at m.vmas a ≡ some v
      → is_file_backed v ≡ false
      → IsSane v
      → inside r a ≡ false
      → (u : Vma) × (area_at m'.vmas a ≡ some u) × (source u a ≡ source v a)
  unmap_region-source r w lo a m m' ps v f t h e n s o = (
    piece_at r a v,
    ground (arith, unmap_region-area_at AS r w lo a m m' ps f t h),
    piece_at-source r a v n s (area_at-Covers m.vmas a v e) o,
  )

  -- Where `unmap_region` succeeds on a map in order, with a region that does not wrap and that starts
  -- within a file-backed area and ends within it, each file-backed address of the area behind the
  -- region has as its source a byte of the file other than the one that it had: the byte as far from
  -- the mapping's offset as the address is from the end of the region, and not from the start of the
  -- area.
  pub unmap_region-split_file :
      (r : Region) (w : Option Vma) (lo a : ℕ) (m m' : Map AS) (ps : List ℕ) (v : Vma)
      (f : FileMapping)
      → Fits r
      → Tiled lo m.vmas
      → unmap_region AS r w m ≡ done (ok ps, m')
      → area_at m.vmas a ≡ some v
      → v.kind ≡ file f
      → key v < r.address
      → r.address + r.size ≤ a
      → a - key v < f.len
      → (u : Vma) × (area_at m'.vmas a ≡ some u)
        × (source u a ≡ file_byte f.file (f.offset + (a - (r.address + r.size))))
        × (source u a ≢ source v a)
  unmap_region-split_file r w lo a m m' ps v f g t h e k l b c = (
    piece_at r a v,
    ground (arith, unmap_region-area_at AS r w lo a m m' ps g t h),
    piece_at-split r a v f k l b (area_at-Covers m.vmas a v e).1 c,
    λ x. ground (arith, piece_at-split r a v f k l b (area_at-Covers m.vmas a v e).1 c),
  )

-- A file-backed area whose mapping ends within it, followed by a file-backed area that continues it
-- page for page: `merge_vma` of the second extends the first over it, and the addresses of the second,
-- which had bytes of the file, are zero-filled.
pub merge_vma-file :
    (vs : List Vma) (u v : Vma) (f g : FileMapping) (a : ℕ)
    → last_lt (key v) vs ≡ some u
    → find (end_of v) vs ≡ none
    → end_of u ≡ key v
    → stop u < usize_mod
    → stop v < usize_mod
    → can_merge_with u v ≡ true
    → v.region.size % page_size ≡ 0
    → u.kind ≡ file f
    → v.kind ≡ file g
    → f.len ≤ u.region.size
    → Covers v.region a
    → a - key v < g.len
    → (w : Vma) × (merge_vma vs v ≡ done (insert w vs))
      × Covers w.region a
      × (source w a ≡ zeroes)
      × (source v a ≡ file_byte g.file (g.offset + (a - key v)))
unfolding merge_vma expand_by
merge_vma-file vs u v f g a p n e s t c q k k' l i b = (
  record u { region = record { address = u.region.address; size = u.region.size + v.region.size } },
  ground arith,
  ground arith,
  ground arith,
  ground arith,
)
