-- ===== src/Mem/Slab/Manager.antt =====
-- libkernel/src/memory/allocators/slab/allocator.rs: the slabs of one size of objects, and `alloc_order` of mod.rs.
use moss.Common.{
  ℕ, zero, suc, ◌/◌, ◌^◌, Bool, true, false, Option, none, some, List, [], ◌∷◌, max, leb, ltb, ◌==◌,
  if◌then◌else◌, wsub, Exec, done, panicked, ok, err,
}
use moss.Mem.Region.{Region, page_size}
use moss.Mem.Frames.{Slab, FrameState, Inner, slab_order, get_frame, set_frame, alloc_frames}
use moss.Mem.Frames.Calls.{into_slab}
use moss.Mem.Slab.{SlabState, Memory, slab_max_obj_shift, new, alloc_object, state}

-- `size.next_power_of_two().ilog2()`, the least `k` from `i` on with `size ≤ 2 ^ k`, tried for `n` values of it. A layout
-- has a size and an alignment of at most 2 ^ 63.
unfoldable pub log2_ceil : ℕ → ℕ → ℕ → ℕ
log2_ceil zero i size = i
log2_ceil (suc n) i size =
    let rest = log2_ceil n (suc i) size in if leb size (2 ^ i) then i else rest

-- `alloc_order`, for a layout of this size and alignment
unfoldable pub alloc_order : ℕ → ℕ → Option ℕ
alloc_order size align =
    let order = log2_ceil 63 0 (max size align) in
    if ltb slab_max_obj_shift order then none else if order == 0 then some 1 else some order

abbrev pub max_free_slabs : ℕ
max_free_slabs = 32

-- The lists hold the first page frame of each slab.
pub record SlabManager : Type 0 where
  pub free : List ℕ
  pub partial : List ℕ
  pub free_list_sz : ℕ
  pub obj_shift : ℕ

abbrev pub new_manager : ℕ → SlabManager
new_manager obj_shift = record { free = []; partial = []; free_list_sz = 0; obj_shift = obj_shift }

-- The metadata of the frames, and the memory.
pub record Kernel : Type 0 where
  pub frames : Inner
  pub memory : Memory

abbrev is_partial : SlabState → Bool
is_partial SlabState.partial = true
is_partial _ = false

-- `partial.push_front` of a slab that has objects left
abbrev pub push_partial : ℕ → Slab → SlabManager → SlabManager
push_partial pfn s m = if is_partial (state s) then record m { partial = pfn ∷ m.partial } else m

-- The slab of the frame is now `s`.
unfoldable pub store_slab : ℕ → Slab → Kernel → Exec Kernel
unfolding set_frame
store_slab pfn s k = elim (set_frame pfn (FrameState.slab s) k.frames) [
  | panicked ↦ panicked
  | done frames ↦ done (record k { frames = frames })
]

abbrev Taken : Type 0
Taken = Option ℕ × SlabManager × Kernel

-- An object was allocated from the slab of this frame.
unfoldable pub took : ℕ → ℕ → Slab → SlabManager → Kernel → Exec Taken
took ptr pfn s m k = elim (store_slab pfn s k) [
  | panicked ↦ panicked
  | done k' ↦ done (some ptr, push_partial pfn s m, k')
]

-- the second part of `try_alloc`
unfoldable pub try_free : SlabManager → Kernel → Exec Taken
unfolding get_frame
try_free m k = elim m.free [
  | [] ↦ done (none, m, k)
  | pfn ∷ fs ↦
      let m1 = record m { free = fs; free_list_sz = wsub m.free_list_sz 1 } in
      elim (get_frame k.frames pfn) [
        | panicked ↦ panicked
        | done st ↦ elim st [
          | FrameState.slab s ↦ elim (alloc_object k.memory s) [
            | panicked ↦ panicked
            | done r ↦ elim r.0 [ none ↦ panicked | some ptr ↦ took ptr pfn r.1 m1 k ]
          ]
          | _ ↦ panicked
        ]
      ]
]

unfoldable pub try_alloc : SlabManager → Kernel → Exec Taken
unfolding get_frame
try_alloc m k = elim m.partial [
  | [] ↦ try_free m k
  | pfn ∷ ps ↦
      let m1 = record m { partial = ps } in
      elim (get_frame k.frames pfn) [
        | panicked ↦ panicked
        | done st ↦ elim st [
          | FrameState.slab s ↦ elim (alloc_object k.memory s) [
            | panicked ↦ panicked
            | done r ↦ elim r.0 [ none ↦ try_free m1 k | some ptr ↦ took ptr pfn r.1 m1 k ]
          ]
          | _ ↦ try_free m1 k
        ]
      ]
]

-- The address translator: the virtual address of a physical one.
module _ (to_va : ℕ → ℕ) where
  -- A new slab in the block `region`, and its first object.
  unfoldable pub alloc_new : Region → SlabManager → Kernel → Exec (ℕ × SlabManager × Kernel)
  alloc_new region m k = elim (new (to_va region.address) region.size m.obj_shift k.memory) [
    | panicked ↦ panicked
    | done r ↦ elim (alloc_object r.1 r.0) [
      | panicked ↦ panicked
      | done a ↦ elim a.0 [
        | none ↦ panicked
        | some ptr ↦ elim (into_slab region a.1 k.frames) [
          | panicked ↦ panicked
          | done frames ↦ done (
            ptr,
            push_partial (region.address / page_size) a.1 m,
            record { frames = frames; memory = r.1 },
          )
        ]
      ]
    ]
  ]

  unfoldable pub alloc : SlabManager → Kernel → Exec (ℕ × SlabManager × Kernel)
  alloc m k = elim (try_alloc m k) [
    | panicked ↦ panicked
    | done r ↦ elim r.0 [
      | some ptr ↦ done (ptr, r.1, r.2)
      | none ↦ elim (alloc_frames slab_order r.2.frames) [
        | panicked ↦ panicked
        | done f ↦ elim f.0 [
          | err e ↦ panicked
          | ok region ↦ alloc_new region r.1 (record r.2 { frames = f.1 })
        ]
      ]
    ]
  ]
