-- ===== src/Mem/Region/Tests.antt =====
-- Runs of the operations on regions, and the theorems about them at concrete regions.
use moss.Common.{
  ℕ, ◌+◌, ◌*◌, ◌≤◌, ◌<◌, ◌≡◌, ◌↔◌, refl, Option, some, done, panicked, arith, [], ◌∷◌,
}
use moss.Mem.Region.{
  Region, merge, punch_hole, intersection, align_to_page_boundary, iter_pages,
  from_start_end_address,
}
use moss.Mem.Region.Points.{Covers, OptionCovers, punch_hole-Covers}
use moss.Mem.Region.Pages.{IsPageHull, align_to_page_boundary_hull}

-- [0x1050, 0x2f50), the region of the source's example, and [0x2000, 0x4000)
abbrev ragged : Region
ragged = record { address = 0x1050; size = 0x1f00 }

abbrev upper : Region
upper = record { address = 0x2000; size = 0x2000 }

abbrev joined : Region
joined = record { address = 0x1050; size = 0x2fb0 }

aligns : align_to_page_boundary ragged ≡ done (record { address = 0x1000; size = 0x2000 })
unfolding align_to_page_boundary
aligns = refl

pages : iter_pages (record { address = 0x10000; size = 2 * 4096 + 100 }) ≡ 0x10000 ∷ 0x11000 ∷ []
unfolding iter_pages
pages = refl

meets : intersection ragged upper ≡ some (record { address = 0x2000; size = 0xf50 })
unfolding intersection
meets = refl

backwards : from_start_end_address 2 1 ≡ panicked
unfolding from_start_end_address
backwards = refl

merged : merge ragged upper ≡ some joined
unfolding merge
merged = refl

punch_hole-Covers_example :
    (p : Option Region × Option Region) × (punch_hole upper ragged ≡ done p)
    × ((a : ℕ) → OptionCovers p.0 a ↔ (Covers upper a × (a < 0x1050)))
    × ((a : ℕ) → OptionCovers p.1 a ↔ (Covers upper a × (0x1050 + 0x1f00 ≤ a)))
punch_hole-Covers_example = punch_hole-Covers upper ragged (omega arith) (omega arith)

align_to_page_boundary_hull_example :
    (h : Region) × (align_to_page_boundary ragged ≡ done h) × IsPageHull ragged h
align_to_page_boundary_hull_example = align_to_page_boundary_hull ragged (omega arith)
