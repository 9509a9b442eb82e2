-- ===== src/Mem/Frames/Setup.antt =====
-- libkernel/src/memory/allocators/phys.rs: how the frames are marked for a new allocator, and which blocks it starts with.
use moss.Common.{
  ℕ, zero, suc, ◌+◌, ◌-◌, ◌*◌, ◌/◌, ◌%◌, ◌≤◌, ◌<◌, ◌≡◌, ◌⊎◌, inl, inr, refl, sym, ap, ◌∙◌, Bool,
  true, false, ◌&&◌, ◌||◌, ◌==◌, List, [], ◌∷◌, All, ltb, leb, if◌then◌else◌, arith, Bool-cases,
  ◌>>=◌, usize_mod,
}
use moss.Mem.Region.{Region, page_size, end_address, overlaps}
use moss.Mem.Smalloc.Search.{rounded_up-eq-mul}
use moss.Mem.Frames.{FrameState, Inner, pages, max_order}
use moss.Mem.Frames.Weight.{weigh}
use moss.Mem.Frames.Sound.{
  Runs, Runs-bind, free_weight, Sound, put_state, put_state-Sound, put_state-at, put_state-other,
  put_state-lists, set_frame-eq, managed_page,
}
use moss.Mem.Frames.Calls.{is_kernel, populate_free_region, mark_kernel, mark_reserved, new_frames}
use moss.Mem.Frames.Populate.{
  sum_open, new_frames-Sound, first_block, block_count, first_block-bounds,
  populate_free_region-Populated,
}

-- The frame is one of so many from `pfn` on.
abbrev pub within : ℕ → ℕ → ℕ → Bool
within pfn n q = leb pfn q && ltb q (pfn + n)

-- The frame lies in the frames of a reserved region, which are as many as it has whole pages from that of its start on.
abbrev pub is_reserved : List Region → ℕ → Bool
is_reserved [] q = false
is_reserved (x ∷ xs) q = within (x.address / page_size) (x.size / page_size) q || is_reserved xs q

module _ (base total : ℕ) where
  -- The frames of `kernel` are marked as the kernel's, and no others; there are no other changes to the blocks.
  record Marked (kernel : ℕ → Bool) (s s' : Inner) : Type 0 where
    pub sound : Sound base total s'
    pub frames :
        (q : ℕ)
        → base ≤ q
        → q < base + total
        → is_kernel (s'.frame_list.state q) ≡ (kernel q || is_kernel (s.frame_list.state q))
    pub lists : s'.free_lists ≡ s.free_lists

  marked_frame :
      (n pfn q : ℕ) (s : Inner)
      → (within (pfn + 1) n q
          || is_kernel ((put_state base total pfn FrameState.kernel s).frame_list.state q))
        ≡ (within pfn (suc n) q || is_kernel (s.frame_list.state q))
  marked_frame n pfn q s = elim (Bool-cases (q == pfn)) [
    | inl e ↦
        let k : q ≡ pfn = ground arith in
        ground (
          arith,
          e,
          ap (λ x. is_kernel ((put_state base total pfn FrameState.kernel s).frame_list.state x)) k,
          ap is_kernel (put_state-at base total s pfn FrameState.kernel),
        )
    | inr e ↦ ground (
      arith,
      e,
      ap is_kernel
          (put_state-other base total s pfn q FrameState.kernel (λ h. ground (arith, e, h))),
    )
  ]

  mark_kernel-Marked :
      (n pfn : ℕ) (s : Inner)
      → Sound base total s
      → Runs (Marked (within pfn n) s) (mark_kernel n pfn s)
  unfolding mark_kernel
  mark_kernel-Marked zero pfn s h =
      (s, refl, record { sound = h; frames = λ q l m. ground arith; lists = refl })
  mark_kernel-Marked (suc n) pfn s h =
      let l = s.frame_list in
      elim (Bool-cases (leb l.base_page pfn && ltb pfn (l.base_page + l.total_pages))) [
        | inl e ↦
            let (s', d, v) =
              mark_kernel-Marked n (pfn + 1) (put_state base total pfn FrameState.kernel s)
                (put_state-Sound base total s pfn FrameState.kernel (λ o x. ground arith) h) in
            (
              s',
              rw (e, mark_kernel)
                  (rw
                    (
                      set_frame-eq base total s pfn FrameState.kernel (
                          managed_page base total s pfn h (ground (arith, h.base_eq))
                            (ground (arith, h.base_eq, h.total_eq))),
                      mark_kernel,
                    )
                    d),
              record {
                sound = v.sound;
                frames = λ q a b. v.frames q a b ∙ marked_frame n pfn q s;
                lists = v.lists ∙ put_state-lists base total s pfn FrameState.kernel;
              },
            )
        | inr e ↦
            let (s', d, v) = mark_kernel-Marked n (pfn + 1) s h in
            (
              s',
              rw (e, mark_kernel) d,
              record {
                sound = v.sound;
                frames = λ q a b. v.frames q a b ∙ ground (arith, e, h.base_eq, h.total_eq);
                lists = v.lists;
              },
            )
      ]

module _ (r : Region) (a : r.address % page_size ≡ 0) (g : r.address + r.size < usize_mod) where
  -- A region that shares no address with the managed one has no frame there.
  apart :
      (x : Region) (q : ℕ)
      → x.address + x.size < usize_mod
      → overlaps x r ≡ false
      → r.address / page_size ≤ q
      → q < r.address / page_size + r.size / page_size
      → within (x.address / page_size) (x.size / page_size) q ≡ false
  unfolding overlaps
  apart x q f h l m = ground arith

  mark_reserved-Marked :
      (rs : List Region) (s : Inner)
      → All (λ (x : Region). x.address + x.size < usize_mod) rs
      → Sound (r.address / page_size) (r.size / page_size) s
      → Runs
          (Marked (r.address / page_size) (r.size / page_size) (is_reserved rs) s)
          (mark_reserved r rs s)
  unfolding mark_reserved
  mark_reserved-Marked [] s w h =
      (s, refl, record { sound = h; frames = λ q l m. refl; lists = refl })
  mark_reserved-Marked (x ∷ xs) s w h = elim (Bool-cases (overlaps x r)) [
    | inl e ↦
        let (s1, d1, v1) =
          mark_kernel-Marked (r.address / page_size) (r.size / page_size) (x.size / page_size)
            (x.address / page_size) s h in
        let (s2, d2, v2) = mark_reserved-Marked xs s1 w.1 v1.sound in
        (
          s2,
          rw (e, mark_reserved) (rw (d1, mark_reserved) d2),
          record {
            sound = v2.sound;
            frames = λ q l m. ground (arith, v2.frames q l m, v1.frames q l m);
            lists = v2.lists ∙ v1.lists;
          },
        )
    | inr e ↦
        let (s2, d2, v2) = mark_reserved-Marked xs s w.1 h in
        (
          s2,
          rw (e, mark_reserved) d2,
          record {
            sound = v2.sound;
            frames = λ q l m. ground (arith, v2.frames q l m, apart x q w.0 e l m);
            lists = v2.lists;
          },
        )
  ]

-- The first block: the first frame from the start of the region on whose number is a multiple of the size of the largest
-- blocks.
abbrev pub first_whole : Region → ℕ
first_whole r =
    (r.address + pages max_order * page_size - 1) / (pages max_order * page_size) * pages max_order

-- How many of the largest blocks lie between it and the end of the region.
abbrev pub whole_count : Region → ℕ
whole_count r = ((r.address + r.size) / page_size - first_whole r) / pages max_order

-- The sum over so many blocks of the largest order from `pfn` on, without those whose first frame is reserved.
abbrev pub sum_unreserved : (ℕ → ℕ → ℕ) → List Region → ℕ → ℕ → ℕ
sum_unreserved f rs zero pfn = 0
sum_unreserved f rs (suc n) pfn =
    (if is_reserved rs pfn then 0 else f max_order pfn)
    + sum_unreserved f rs n (pfn + pages max_order)

sum_open-eq :
    (f : ℕ → ℕ → ℕ) (rs : List Region) (state : ℕ → FrameState) (base total n pfn : ℕ)
    → ((q : ℕ) → base ≤ q → q < base + total → is_kernel (state q) ≡ is_reserved rs q)
    → base ≤ pfn
    → pfn + n * pages max_order ≤ base + total
    → sum_open f state n pfn ≡ sum_unreserved f rs n pfn
sum_open-eq f rs state base total zero pfn e l m = refl
sum_open-eq f rs state base total (suc n) pfn e l m =
    let k = e pfn l (omega arith) in
    let ih =
      sum_open-eq f rs state base total n (pfn + pages max_order) e (omega arith) (omega arith) in
    rw (k, ih) refl

first_block-eq :
    (r : Region)
    → r.address + pages max_order * page_size ≤ usize_mod
    → first_block r ≡ first_whole r
unfolding first_block
first_block-eq r w =
    omega (arith, rounded_up-eq-mul r.address (pages max_order * page_size) (omega arith) w)

block_count-eq :
    (r : Region)
    → r.address + r.size + pages max_order * page_size ≤ usize_mod
    → block_count r ≡ whole_count r
unfolding block_count
block_count-eq r w =
    let e : end_address r ≡ r.address + r.size = omega arith in
    ap (λ x. (x / page_size - first_block r) / pages max_order) e
    ∙ ap (λ x. ((r.address + r.size) / page_size - x) / pages max_order)
        (first_block-eq r (omega arith))

no_room : (e b : ℕ) → e ≤ b → (e - b) / pages max_order ≡ 0
no_room e b h = omega arith

has_room :
    (b a n : ℕ)
    → b < (a + n) / page_size
    → a % page_size ≡ 0
    → b + ((a + n) / page_size - b) / pages max_order * pages max_order
      ≤ a / page_size + n / page_size
has_room b a n h z = omega arith

blocks_within :
    (r : Region)
    → r.address % page_size ≡ 0
    → whole_count r ≡ 0
      ⊎ (first_whole r + whole_count r * pages max_order
          ≤ r.address / page_size + r.size / page_size)
blocks_within r a = elim (Bool-cases (leb ((r.address + r.size) / page_size) (first_whole r))) [
  | inl e ↦ inl (no_room _ _ (ground (arith, e)))
  | inr e ↦ inr (has_room (first_whole r) r.address r.size (ground (arith, e)) a)
]

or_false : (b : Bool) → (b || false) ≡ b
or_false true = refl
or_false false = refl

open_sum :
    (r : Region) (rs : List Region) (state : ℕ → FrameState) (f : ℕ → ℕ → ℕ)
    → r.address % page_size ≡ 0
    → r.address + r.size + pages max_order * page_size ≤ usize_mod
    → ((q : ℕ)
        → r.address / page_size ≤ q
        → q < r.address / page_size + r.size / page_size
        → is_kernel (state q) ≡ (is_reserved rs q || false))
    → sum_open f state (block_count r) (first_block r)
      ≡ sum_unreserved f rs (whole_count r) (first_whole r)
open_sum r rs state f a w e =
    ap (λ n. sum_open f state n (first_block r)) (block_count-eq r w)
    ∙ ap (sum_open f state (whole_count r)) (first_block-eq r (omega arith))
    ∙ elim (blocks_within r a) [
      | inl z ↦
          ap (λ n. sum_open f state n (first_whole r)) z
          ∙ sym (ap (λ n. sum_unreserved f rs n (first_whole r)) z)
      | inr b ↦
          sum_open-eq f rs state (r.address / page_size) (r.size / page_size) (whole_count r)
            (first_whole r) (λ q l m. e q l m ∙ or_false (is_reserved rs q))
            (omega (arith, (first_block-bounds r w).0, first_block-eq r (omega arith))) b
    ]

no_weight : (r : Region) (f : ℕ → ℕ → ℕ) → free_weight f (new_frames r) ≡ 0
unfolding new_frames
no_weight r f = refl

-- What a new allocator holds: the blocks of the largest order that lie within the region, but for those whose first
-- frame is reserved.
pub record Started (r : Region) (reserved : List Region) (s : Inner) : Type 0 where
  pub sound : Sound (r.address / page_size) (r.size / page_size) s
  pub weight :
      (f : ℕ → ℕ → ℕ) → free_weight f s ≡ sum_unreserved f reserved (whole_count r) (first_whole r)

-- Where a memory region is handed over that starts with a page and ends below 2 ^ 64 by the size of a largest block at
-- least, with reservations that do not wrap: the frames are marked and the free blocks found without a panic, the
-- invariant of the allocator holds, and its free blocks are exactly the blocks of the largest order among the whole
-- pages of the region from the first aligned one on, but for those whose first frame lies in a reservation. They are
-- compared by the sum of any function of the order and the first frame of a block.
pub populate_new_frames :
    (r : Region) (reserved : List Region)
    → r.address % page_size ≡ 0
    → r.address + r.size + pages max_order * page_size ≤ usize_mod
    → All (λ (x : Region). x.address + x.size < usize_mod) reserved
    → Runs
        (Started r reserved)
        (mark_reserved r reserved (new_frames r) >>= (λ s. populate_free_region r s))
unfolding new_frames
populate_new_frames r reserved a w b =
    Runs-bind (Started r reserved) (mark_reserved r reserved (new_frames r))
      (λ s. populate_free_region r s)
      (mark_reserved-Marked r a (omega arith) reserved (new_frames r) b (new_frames-Sound r))
      (λ s h.
        let (s', d, v) = populate_free_region-Populated r s a w h.sound in
        (
          s',
          d,
          record {
            sound = v.sound;
            weight = λ f.
                v.weight f
                ∙ omega (
                  arith,
                  ap (weigh f (max_order + 1)) h.lists,
                  no_weight r f,
                  open_sum r reserved s.frame_list.state f a w h.frames,
                );
          },
        ))
