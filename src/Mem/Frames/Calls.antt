-- ===== src/Mem/Frames/Calls.antt =====
-- libkernel/src/memory/allocators/phys.rs: queries, references and slabs, and how the allocator is set up from the early one.
use moss.Common.{
  ℕ, zero, suc, ◌+◌, ◌-◌, ◌*◌, ◌/◌, ◌%◌, Bool, true, false, ◌&&◌, Option, none, some, List, [], ◌∷◌,
  ltb, leb, ◌==◌, if◌then◌else◌, u32_mod, usize_mod, wadd, Exec, done, panicked, ◌>>=◌, ok, err,
}
use moss.Mem.Region.{Region, page_size, align_up, end_address, from_start_end_address, overlaps}
use moss.Mem.Smalloc.{Smalloc, Run, returns, panics, spins}
use moss.Mem.Smalloc.Calls.{claim_region, base_ram_base_address, iter_free}
use moss.Mem.Smalloc.Calls
use moss.Mem.Frames.{
  Slab, FrameState, Inner, max_order, slab_order, pages, get_frame, set_frame, add_to_free_list,
  free_frames,
}

-- `Clone` of an allocation
unfoldable pub clone_allocation : Region → Inner → Exec Inner
unfolding get_frame set_frame
clone_allocation region self = elim (get_frame self (region.address / page_size)) [
  | panicked ↦ panicked
  | done state ↦ elim state [
    | FrameState.allocated_head info ↦
        set_frame (region.address / page_size)
          (FrameState.allocated_head (record info { ref_count = (info.ref_count + 1) % u32_mod }))
          self
    | _ ↦ panicked
  ]
]

unfoldable pub into_slab : Region → Slab → Inner → Exec Inner
unfolding set_frame
into_slab region slab_info self =
    set_frame (region.address / page_size) (FrameState.slab slab_info) self

-- `free_slab`, for the frame with this number
unfoldable pub free_slab : ℕ → Inner → Exec Inner
unfolding get_frame set_frame free_frames
free_slab pfn self = elim (get_frame self pfn) [
  | panicked ↦ panicked
  | done state ↦ elim state [
    | FrameState.slab s ↦
        set_frame pfn (FrameState.allocated_head (record { ref_count = 1; order = slab_order }))
          self
        >>= (λ s.
            free_frames
              (record {
                address = (pfn * page_size) % usize_mod;
                size = page_size * pages slab_order;
              })
              s)
    | _ ↦ panicked
  ]
]

abbrev is_allocated_state : FrameState → Bool
is_allocated_state (FrameState.allocated_head info) = true
is_allocated_state (FrameState.allocated_tail head) = true
is_allocated_state _ = false

unfoldable pub is_allocated : ℕ → Inner → Exec Bool
unfolding get_frame
is_allocated pfn self = get_frame self pfn >>= (λ state. done (is_allocated_state state))

-- The loop follows a tail to its head; none where the rounds given are not enough.
unfoldable pub is_allocated_exclusive : ℕ → ℕ → Inner → Exec (Option Bool)
unfolding get_frame
is_allocated_exclusive zero pfn self = done none
is_allocated_exclusive (suc n) pfn self = elim (get_frame self pfn) [
  | panicked ↦ panicked
  | done state ↦ elim state [
    | FrameState.allocated_tail head ↦ is_allocated_exclusive n head self
    | FrameState.allocated_head info ↦ done (some (info.ref_count == 1))
    | _ ↦ done (some false)
  ]
]

abbrev pub is_kernel : FrameState → Bool
is_kernel FrameState.kernel = true
is_kernel _ = false

-- The loop of `populate_free_region`, over so many whole blocks.
unfoldable pub populate_blocks : ℕ → ℕ → Inner → Exec Inner
unfolding get_frame set_frame add_to_free_list
populate_blocks zero pfn self = done self
populate_blocks (suc n) pfn self = elim (get_frame self pfn) [
  | panicked ↦ panicked
  | done state ↦ elim (is_kernel state) [
    | true ↦ populate_blocks n (pfn + pages max_order) self
    | false ↦
        set_frame pfn (FrameState.free max_order) self
        >>= (λ s. add_to_free_list pfn max_order s)
        >>= (λ s.
            populate_blocks n (pfn + pages max_order)
              (record s { free_pages = wadd s.free_pages (pages max_order) }))
  ]
]

unfoldable pub populate_free_region : Region → Inner → Exec Inner
unfolding populate_blocks align_up
populate_free_region region self =
    align_up region.address (pages max_order * page_size) >>= λ aligned_start.
    if leb (end_address region) aligned_start
    then done self
    else populate_blocks
        ((end_address region / page_size - aligned_start / page_size) / pages max_order)
        (aligned_start / page_size) self

-- The walk over the page frames of a reserved region, those outside the managed ones left out.
unfoldable pub mark_kernel : ℕ → ℕ → Inner → Exec Inner
unfolding set_frame
mark_kernel zero pfn self = done self
mark_kernel (suc n) pfn self =
    let l = self.frame_list in
    if leb l.base_page pfn && ltb pfn (l.base_page + l.total_pages)
    then set_frame pfn FrameState.kernel self >>= (λ s. mark_kernel n (pfn + 1) s)
    else mark_kernel n (pfn + 1) self

unfoldable pub mark_reserved : Region → List Region → Inner → Exec Inner
unfolding mark_kernel overlaps
mark_reserved managed_region [] self = done self
mark_reserved managed_region (r ∷ rs) self =
    (if overlaps r managed_region
      then mark_kernel (r.size / page_size) (r.address / page_size) self
      else done self)
    >>= (λ s. mark_reserved managed_region rs s)

unfoldable pub new_frames : Region → Inner
new_frames managed_region = record {
  frame_list = record {
    base_page = managed_region.address / page_size;
    total_pages = managed_region.size / page_size;
    state = λ pfn. FrameState.uninitialized;
  };
  free_pages = 0;
  free_lists = λ order. [];
}

abbrev running_on : {A B : Type 0} → Exec A → (A → Run B) → Run B
running_on panicked k = panics
running_on (done a) k = k a

-- `to_va` is the address translator, and a `Frame` has this size and alignment.
module _ (to_va : ℕ → ℕ) (frame_size frame_align : ℕ) where
  unfoldable pub setup : ℕ → Smalloc → Region → Run (Smalloc × Inner)
  unfolding mark_reserved new_frames Calls.alloc
  setup n smalloc managed_region =
      elim (Calls.alloc to_va n ((managed_region.size / page_size) * frame_size) frame_align
        smalloc) [
          | panics ↦ panics
          | spins ↦ spins
          | returns (r, s) ↦ elim r [
            | err e ↦ panics
            | ok metadata ↦
                running_on (mark_reserved managed_region s.res.regions (new_frames managed_region))
                  (λ inner. returns (s, inner))
          ]
        ]

  unfoldable pub init_from_region : ℕ → Smalloc → Region → Run (Smalloc × Inner)
  unfolding setup populate_free_region claim_region
  init_from_region n smalloc region = elim (claim_region to_va n region smalloc) [
    | panics ↦ panics
    | spins ↦ spins
    | returns (r, s) ↦ elim r [
      | err e ↦ panics
      | ok _ ↦ elim (setup n s region) [
        | panics ↦ panics
        | spins ↦ spins
        | returns (s', inner) ↦
            running_on (populate_free_region region inner) (λ i. returns (s', i))
      ]
    ]
  ]

  abbrev populate_all : List Region → Inner → Exec Inner
  populate_all [] self = done self
  populate_all (r ∷ rs) self = populate_free_region r self >>= (λ s. populate_all rs s)

  abbrev last_end : Region → List Region → ℕ
  last_end m [] = end_address m
  last_end m (r ∷ rs) = last_end r rs

  unfoldable pub init : ℕ → Smalloc → Run Inner
  unfolding setup from_start_end_address iter_free
  init n smalloc = elim smalloc.memory.regions [
    | [] ↦ panics
    | m ∷ ms ↦ running_on (from_start_end_address m.address (last_end m ms)) (λ span.
        elim (setup n smalloc span) [
          | panics ↦ panics
          | spins ↦ spins
          | returns (s, inner) ↦ running_on (populate_all (iter_free s) inner) (λ i. returns i)
        ])
  ]
