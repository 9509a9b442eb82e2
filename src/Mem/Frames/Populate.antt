-- ===== src/Mem/Frames/Populate.antt =====
-- libkernel/src/memory/allocators/phys.rs: the state that the allocator starts in.
use moss.Common.{
  ℕ, zero, suc, ◌+◌, ◌-◌, ◌*◌, ◌/◌, ◌%◌, ◌≤◌, ◌<◌, ◌≡◌, inl, inr, refl, ap, ◌∙◌, true, false, leb,
  if◌then◌else◌, arith, Bool-cases, done, wadd, usize_mod,
}
use mathlib.Core.Path.{subst}
use moss.Mem.Region.{Region, page_size, rounded_up, end_address}
use moss.Mem.Smalloc.Search.{rounded_up-ge, rounded_up-mod}
use moss.Mem.Frames.{FrameState, Inner, pages, max_order}
use moss.Mem.Frames.Weight.{Block, has_page}
use moss.Mem.Frames.Sound.{
  Runs, free_weight, Sound, get_frame-eq, added, added-eq, added-Sound, added-weight, added-other,
  counted-Sound,
}
use moss.Mem.Frames.Calls.{is_kernel, populate_blocks, populate_free_region, new_frames}

-- The sum over the blocks whose first frame is not the kernel's, of so many.
abbrev pub sum_open : (ℕ → ℕ → ℕ) → (ℕ → FrameState) → ℕ → ℕ → ℕ
sum_open f state zero pfn = 0
sum_open f state (suc n) pfn =
    (if is_kernel (state pfn) then 0 else f max_order pfn)
    + sum_open f state n (pfn + pages max_order)

-- What the walk over `n` blocks comes to.
pub record Populated (base total : ℕ) (s : Inner) (state : ℕ → FrameState) (n pfn : ℕ) (s' : Inner)
    : Type 0 where
  pub sound : Sound base total s'
  pub weight : (f : ℕ → ℕ → ℕ) → free_weight f s' ≡ free_weight f s + sum_open f state n pfn

module _ (base total : ℕ) (state : ℕ → FrameState) where
  -- For frames that say what `state` says from `pfn` on, which starts a block of the largest order: the walk over the
  -- blocks does not panic, keeps the invariant, and frees each block whose first frame is not the kernel's.
  populate_blocks-Populated :
      (n k pfn : ℕ) (s : Inner)
      → Sound base total s
      → pfn ≡ k * pages max_order
      → base ≤ pfn
      → pfn + n * pages max_order ≤ base + total
      → ((q : ℕ) → pfn ≤ q → s.frame_list.state q ≡ state q)
      → Runs (Populated base total s state n pfn) (populate_blocks n pfn s)
  unfolding populate_blocks
  populate_blocks-Populated zero k pfn s h e l m a =
      (s, refl, record { sound = h; weight = λ f. omega arith })
  populate_blocks-Populated (suc n) k pfn s h e l m a =
      let b : Block base total max_order pfn = record {
        index = k;
        aligned = e;
        low = l;
        high = omega arith;
      } in
      let g = get_frame-eq base total s max_order pfn h b ∙ ap done (a pfn (omega arith)) in
      elim (Bool-cases (is_kernel (state pfn))) [
        | inl x ↦
            let (s', d, v) =
              populate_blocks-Populated n (k + 1) (pfn + pages max_order) s h (omega arith)
                (omega arith) (omega arith) (λ q y. a q (omega arith)) in
            (
              s',
              rw (g, populate_blocks) (rw (x, populate_blocks) d),
              record { sound = v.sound; weight = λ f. rw x (omega (arith, v.weight f)) },
            )
        | inr x ↦
            let s1 = added base total pfn max_order s in
            let s2 : Inner = record s1 { free_pages = wadd s1.free_pages (pages max_order) } in
            let h2 =
              counted-Sound base total s1 _
                (added-Sound base total s pfn max_order h (omega arith) b) in
            let (s', d, v) =
              populate_blocks-Populated n (k + 1) (pfn + pages max_order) s2 h2 (omega arith)
                (omega arith) (omega arith)
                (λ q y.
                  added-other base total s pfn max_order q (λ z. omega arith)
                  ∙ a q (omega arith)) in
            (
              s',
              rw (g, populate_blocks)
                  (rw (x, populate_blocks)
                    (rw (added-eq base total s pfn max_order h b, populate_blocks) d)),
              record {
                sound = v.sound;
                weight = λ f. rw x (
                    omega
                      (arith, v.weight f, added-weight base total f s pfn max_order (omega arith)));
              },
            )
      ]

sum_open-has_page :
    (state : ℕ → FrameState) (n i pfn x : ℕ)
    → i < n
    → is_kernel (state (pfn + i * pages max_order)) ≡ false
    → pfn + i * pages max_order ≤ x
    → x < pfn + i * pages max_order + pages max_order
    → 1 ≤ sum_open (has_page x) state n pfn
sum_open-has_page state zero i pfn x h e l m = absurd (omega arith)
sum_open-has_page state (suc n) zero pfn x h e l m =
    let e' : is_kernel (state pfn) ≡ false =
      subst (λ q. is_kernel (state q) ≡ false) (omega arith) e in
    rw e' (ground arith)
sum_open-has_page state (suc n) (suc i) pfn x h e l m =
    let p : pfn + suc i * pages max_order ≡ pfn + pages max_order + i * pages max_order =
      omega arith in
    let ih =
      sum_open-has_page state n i (pfn + pages max_order) x (omega arith)
        (subst (λ q. is_kernel (state q) ≡ false) p e) (omega arith) (omega arith) in
    omega (arith, ih)

pub new_frames-Sound :
    (r : Region) → Sound (r.address / page_size) (r.size / page_size) (new_frames r)
unfolding new_frames
new_frames-Sound r = record {
  base_eq = refl;
  total_eq = refl;
  blocks = λ o l. tt;
  listed = λ p o e. ground arith;
}

-- The largest aligned part of the region: its first page, and how many blocks it has.
unfoldable pub first_block : Region → ℕ
first_block r = rounded_up r.address (pages max_order * page_size) / page_size

unfoldable pub block_count : Region → ℕ
block_count r = (end_address r / page_size - first_block r) / pages max_order

pub first_block-bounds :
    (r : Region)
    → r.address + r.size + pages max_order * page_size ≤ usize_mod
    → (r.address / page_size ≤ first_block r)
      × (first_block r ≡ (first_block r / pages max_order) * pages max_order)
unfolding first_block
first_block-bounds r w =
    let u = rounded_up-ge r.address (pages max_order * page_size) (omega arith) (omega arith) in
    let z = rounded_up-mod r.address (pages max_order * page_size) (omega arith) (omega arith) in
    (omega (arith, u), omega (arith, z))

pub no_blocks : (e a : ℕ) → leb e a ≡ true → (e / page_size - a / page_size) / pages max_order ≡ 0
no_blocks e a h = let l : e ≤ a = ground arith in omega arith

pub whole_blocks :
    (e a b n : ℕ)
    → leb e a ≡ false
    → e ≡ b + n
    → b % page_size ≡ 0
    → a / page_size + (e / page_size - a / page_size) / pages max_order * pages max_order
      ≤ b / page_size + n / page_size
whole_blocks e a b n h d z = let l : a < e = ground arith in omega arith

pub populate_free_region-Populated :
    (r : Region) (s : Inner)
    → r.address % page_size ≡ 0
    → r.address + r.size + pages max_order * page_size ≤ usize_mod
    → Sound (r.address / page_size) (r.size / page_size) s
    → Runs
        (Populated
          (r.address / page_size)
          (r.size / page_size)
          s
          s.frame_list.state
          (block_count r)
          (first_block r))
        (populate_free_region r s)
unfolding populate_free_region first_block block_count
populate_free_region-Populated r s a w h =
    let (lo, k) = first_block-bounds r w in
    let e : end_address r ≡ r.address + r.size = omega arith in
    elim (Bool-cases (leb (end_address r) (rounded_up r.address (pages max_order * page_size)))) [
      | inl x ↦
          let z : block_count r ≡ 0 = no_blocks _ _ x in
          (
            s,
            rw (x, populate_free_region) refl,
            record { sound = h; weight = λ f. rw z (omega arith) },
          )
      | inr x ↦
          let (s', d, v) =
            populate_blocks-Populated (r.address / page_size) (r.size / page_size)
              s.frame_list.state (block_count r) (first_block r / pages max_order) (first_block r) s
              h k lo (whole_blocks _ _ r.address r.size x e a) (λ q y. refl) in
          (s', rw (x, populate_free_region) d, v)
    ]

-- Where the first frame of a block is not the kernel's, the walk frees every page of the block, also those whose
-- frames are marked as the kernel's.
pub kernel_page_freed :
    (base total n k pfn i x : ℕ) (s : Inner)
    → Sound base total s
    → pfn ≡ k * pages max_order
    → base ≤ pfn
    → pfn + n * pages max_order ≤ base + total
    → i < n
    → is_kernel (s.frame_list.state (pfn + i * pages max_order)) ≡ false
    → pfn + i * pages max_order ≤ x
    → x < pfn + i * pages max_order + pages max_order
    → Runs (λ s'. 1 ≤ free_weight (has_page x) s') (populate_blocks n pfn s)
kernel_page_freed base total n k pfn i x s h e l m a b c d =
    let (s', r, v) =
      populate_blocks-Populated base total s.frame_list.state n k pfn s h e l m (λ q y. refl) in
    (
      s',
      r,
      omega (arith, v.weight (has_page x), sum_open-has_page s.frame_list.state n i pfn x a b c d),
    )
