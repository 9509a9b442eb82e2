-- ===== src/Mem/Region/Pages.antt =====
-- libkernel/src/memory/region.rs: rounding to pages, and the pages of a region.
use moss.Common.{
  ℕ, zero, suc, ◌+◌, ◌-◌, ◌*◌, ◌/◌, ◌%◌, ◌≤◌, ◌<◌, ◌≡◌, refl, some, done, usize_mod, arith, length,
  get_elem?, ap, ◌∙◌,
}
use moss.Mem.Region.{Region, page_size, align_to_page_boundary, pages_from, iter_pages}
use moss.Mem.Region.Points.{Fits}

-- What it means to be the smallest page-aligned region around another.
pub record IsPageHull (r h : Region) : Type 0 where
  pub start_aligned : h.address % page_size ≡ 0
  pub size_aligned : h.size % page_size ≡ 0
  pub starts_below : h.address ≤ r.address
  pub ends_above : r.address + r.size ≤ h.address + h.size
  pub start_near : r.address < h.address + page_size
  pub end_near : h.address + h.size < r.address + r.size + page_size

-- Where the end rounds up below 2 ^ 64, `align_to_page_boundary` does not panic, and answers the page
-- hull: page-aligned at both ends, around the region, and less than a page longer on either side.
pub align_to_page_boundary_hull :
    (r : Region)
    → r.address + r.size + page_size ≤ usize_mod
    → (h : Region) × (align_to_page_boundary r ≡ done h) × IsPageHull r h
unfolding align_to_page_boundary
align_to_page_boundary_hull r f = (
  record {
    address = r.address - r.address % 4096;
    size =
        (r.address + r.size + 4095 - (r.address + r.size + 4095) % 4096)
        - (r.address - r.address % 4096);
  },
  ground arith,
  omega arith,
)

length-pages_from : (start count n : ℕ) → length (pages_from start count n) ≡ n
unfolding pages_from
length-pages_from start count zero = refl
length-pages_from start count (suc n) = ap suc (length-pages_from start (count + 1) n)

get_elem?-pages_from :
    (start count n i : ℕ)
    → i < n
    → start + page_size * (count + n) ≤ usize_mod
    → get_elem? (pages_from start count n) i ≡ some (start + page_size * (count + i))
unfolding pages_from
get_elem?-pages_from start count zero i h f = absurd (omega arith)
get_elem?-pages_from start count (suc n) zero h f = ground arith
get_elem?-pages_from start count (suc n) (suc i) h f =
    get_elem?-pages_from start (count + 1) n i (omega arith) (omega arith) ∙ ap some (omega arith)

-- `iter_pages` yields one address for each whole page of the region, the page starts in order: the
-- `i`th is `start + 4096 * i`, and that page lies inside the region.
pub iter_pages_lem :
    (r : Region) (i : ℕ)
    → Fits r
    → i < length (iter_pages r)
    → (length (iter_pages r) ≡ r.size / page_size)
      × (get_elem? (iter_pages r) i ≡ some (r.address + page_size * i))
      × (r.address + page_size * i + page_size ≤ r.address + r.size)
unfolding iter_pages
iter_pages_lem r i f h = (
  length-pages_from r.address 0 (r.size / page_size),
  get_elem?-pages_from r.address 0 (r.size / page_size) i
        (omega (arith, length-pages_from r.address 0 (r.size / page_size))) (omega arith)
      ∙ ap some (omega arith),
  omega (arith, length-pages_from r.address 0 (r.size / page_size)),
)
