-- ===== src/Mem/Map/Tests.antt =====
-- The theorems about maps at concrete ones. The page tables of these tests keep no state and never fail.
use moss.Common.{
  Bool, ◌||◌, ℕ, ◌+◌, ◌-◌, true, false, ◌≡◌, ◌≢◌, refl, none, some, List, [], ◌∷◌, arith,
  if◌then◌else◌, done, ok,
}
use moss.Mem.Region.{Region, align_to_page_boundary, intersection}
use moss.Mem.Region.Pages.{IsPageHull}
use moss.Mem.Vma.{Vma, Kind, file, anon, FileMapping, Permissions, clone_with_new_region}
use moss.Mem.Vma.Source.{source, file_byte}
use moss.Mem.BTree.{insert, remove, find, last_lt, range_from}
use moss.Mem.AddressSpace.{AddressSpace}
use moss.Mem.Map.{
  Map, find_vma, find_gap, find_free_region, unmap_region, unmap_all, unmap_one, fixup_pg_tables,
  put_back, affected, starts_within, truncated_front,
}
use moss.Mem.Map.Order.{Tiled}
use moss.Mem.Map.Lookup.{area_at, Clear, find_vma-eq-area_at, find_free_region-Clear}
use moss.Mem.Map.Carve.{carve, pieces}
use moss.Mem.Map.Unmap.{Carved, unmap_region-Carved}
use moss.Mem.Map.View.{inside, piece_at, map_option, unmap_region-area_at}
use moss.Mem.Map.Content.{permissions_at, unmap_region-source, unmap_region-split_file}
use moss.Mem.Map.Calls.{munmap}
use moss.Mem.Map.Fork.{clone_as_cow}
use moss.Mem.Map.Cow.{Forked, clone_as_cow-Forked}
use moss.Mem.Map.Munmap.{munmap-permissions}

abbrev tables : AddressSpace
tables = record {
  Space = Unit {0};
  new_space = ok tt;
  map_page = λ va pfn p s. (ok tt, s);
  unmap = λ va s. (ok 0, s);
  protect_range = λ r p s. (ok tt, s);
  unmap_range = λ r s. (ok [], s);
  translate = λ s va. none;
  protect_and_clone_region = λ r p s s'. (ok tt, s, s');
}

abbrev rw_only : Permissions
rw_only = record { read = true; write = true; execute = false }

abbrev area : ℕ → ℕ → Kind → Vma
area a n k = record {
  region = record { address = a; size = n };
  name = "";
  kind = k;
  permissions = rw_only;
}

abbrev mapping : ℕ → ℕ → FileMapping
mapping o n = record { file = 1; offset = o; len = n }

abbrev heap : Vma
heap = area 0x1000 0x3000 anon

abbrev text : Vma
text = area 0x8000 0x3000 (file (mapping 0 0x3000))

abbrev areas : List Vma
areas = heap ∷ text ∷ []

abbrev at_start : Map tables
at_start = record { vmas = areas; space = tt }

areas-Tiled : Tiled 0 areas
areas-Tiled = omega arith

-- the page in the middle of the heap, and of the file-backed area
abbrev heap_page : Region
heap_page = record { address = 0x2000; size = 0x1000 }

abbrev text_page : Region
text_page = record { address = 0x9000; size = 0x1000 }

abbrev without_heap_page : Map tables
without_heap_page = record { vmas = carve heap_page areas; space = tt }

abbrev without_text_page : Map tables
without_text_page = record { vmas = carve text_page areas; space = tt }

heap_page-unmapped : unmap_region tables heap_page none at_start ≡ done (ok [], without_heap_page)
unfolding unmap_region unmap_all unmap_one fixup_pg_tables affected starts_within range_from last_lt
    find remove insert put_back truncated_front clone_with_new_region intersection carve pieces
heap_page-unmapped = refl

text_page-unmapped : unmap_region tables text_page none at_start ≡ done (ok [], without_text_page)
unfolding unmap_region unmap_all unmap_one fixup_pg_tables affected starts_within range_from last_lt
    find remove insert put_back truncated_front clone_with_new_region intersection carve pieces
text_page-unmapped = refl

-- A size that is not a whole number of pages.
abbrev part_of_page : Region
part_of_page = record { address = 0x2000; size = 0x800 }

heap_page-munmapped : munmap tables part_of_page at_start ≡ done (ok [], without_heap_page)
unfolding munmap align_to_page_boundary unmap_region unmap_all unmap_one fixup_pg_tables affected
    starts_within range_from last_lt find remove insert put_back truncated_front
    clone_with_new_region intersection carve pieces
heap_page-munmapped = refl

munmap-permissions_example :
    (h : Region) × IsPageHull part_of_page h
    × (permissions_at without_heap_page.vmas 0x2900
        ≡ (if inside h 0x2900 then none else permissions_at areas 0x2900))
    × Tiled 0 without_heap_page.vmas
munmap-permissions_example =
    munmap-permissions tables part_of_page 0 0x2900 at_start without_heap_page [] refl (omega arith)
      (omega arith) areas-Tiled heap_page-munmapped

unmap_region-Carved_example :
    Carved tables (carve heap_page areas) (unmap_region tables heap_page none at_start)
unmap_region-Carved_example =
    unmap_region-Carved tables heap_page none 0 at_start (omega arith) areas-Tiled

unmap_region-area_at_example :
    (area_at without_heap_page.vmas 0x3004 ≡ (
      if inside heap_page 0x3004
      then none
      else map_option (piece_at heap_page 0x3004) (area_at areas 0x3004)))
    × Tiled 0 without_heap_page.vmas
unmap_region-area_at_example =
    unmap_region-area_at tables heap_page none 0 0x3004 at_start without_heap_page [] (omega arith)
      areas-Tiled heap_page-unmapped

unmap_region-source_example :
    (u : Vma) × (area_at without_heap_page.vmas 0x3004 ≡ some u)
    × (source u 0x3004 ≡ source heap 0x3004)
unmap_region-source_example =
    unmap_region-source tables heap_page none 0 0x3004 at_start without_heap_page [] heap
      (omega arith) areas-Tiled heap_page-unmapped refl refl (omega arith) refl

unmap_region-split_file_example :
    (u : Vma) × (area_at without_text_page.vmas 0xa000 ≡ some u)
    × (source u 0xa000 ≡ file_byte 1 (0 + (0xa000 - (0x9000 + 0x1000))))
    × (source u 0xa000 ≢ source text 0xa000)
unmap_region-split_file_example =
    unmap_region-split_file tables text_page none 0 0xa000 at_start without_text_page [] text
      (mapping 0 0x3000) (omega arith) areas-Tiled text_page-unmapped refl refl (omega arith)
      (omega arith) (omega arith)

find_vma-eq-area_at_example : find_vma areas 0x3fff ≡ area_at areas 0x3fff
find_vma-eq-area_at_example = find_vma-eq-area_at 0 0x3fff areas areas-Tiled

abbrev hole : Region
hole = record { address = 0x4000; size = 0x4000 }

abbrev below_base : Region
below_base = record { address = 0x3fff_ffff_f000; size = 0x1000 }

free_page : find_free_region areas 0x1000 ≡ some below_base
unfolding find_free_region find_gap
free_page = refl

find_free_region-Clear_example : (below_base.size ≡ 0x1000) × Clear below_base areas
find_free_region-Clear_example =
    find_free_region-Clear 0 0x1000 areas below_base areas-Tiled free_page

-- the file from 0x3000 on, mapped where `text` ends
abbrev more_text : Vma
more_text = area 0xb000 0x1000 (file (mapping 0x3000 0x1000))

-- Page tables that keep whether a page is writable.
abbrev flags : AddressSpace
flags = record {
  Space = Bool;
  new_space = ok false;
  map_page = λ va pfn p s. (ok tt, s || p.write);
  unmap = λ va s. (ok 0, s);
  protect_range = λ r p s. (ok tt, s || p.write);
  unmap_range = λ r s. (ok [], s);
  translate = λ s va. none;
  protect_and_clone_region = λ r p s t. (ok tt, p.write, t || p.write);
}

abbrev parent : Map flags
parent = record { vmas = areas; space = true }

clone_as_cow-Forked_example : Forked flags parent (clone_as_cow flags parent)
clone_as_cow-Forked_example = clone_as_cow-Forked flags parent (omega arith, (omega arith, tt))
