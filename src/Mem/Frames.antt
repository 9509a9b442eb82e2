-- ===== src/Mem/Frames.antt =====
-- libkernel/src/memory/allocators/phys.rs and frame.rs: the buddy allocator of page frames.
pub mod Weight
pub mod Sound
pub mod Release
pub mod Allocate
pub mod Cycle
pub mod Calls
pub mod Populate
pub mod Setup
mod Tests
use moss.Common.{
  ℕ, zero, suc, ◌+◌, ◌-◌, ◌*◌, ◌/◌, ◌%◌, ◌^◌, Bool, true, false, not, ◌&&◌, ◌||◌, Option, none,
  some, List, [], ◌∷◌, ltb, leb, ◌==◌, if◌then◌else◌, min, u32_mod, usize_mod, wadd, wsub, Exec,
  done, panicked, ◌>>=◌, Result, ok, err, KernelError,
}
use moss.Mem.Region.{Region, page_size, align_up, end_address}

pub record Slab : Type 0 where
  pub obj_shift : ℕ
  pub num_free : ℕ
  pub next_free : Option ℕ
  pub base : ℕ

pub record AllocatedInfo : Type 0 where
  pub ref_count : ℕ
  pub order : ℕ

pub data FrameState : Type 0 where
  uninitialized : FrameState
  free : ℕ → FrameState
  allocated_head : AllocatedInfo → FrameState
  allocated_tail : ℕ → FrameState
  slab : Slab → FrameState
  kernel : FrameState

-- The metadata of the frames, by page frame number.
pub record FrameList : Type 0 where
  pub base_page : ℕ
  pub total_pages : ℕ
  pub state : ℕ → FrameState

abbrev pub max_order : ℕ
max_order = 10

abbrev pub slab_order : ℕ
slab_order = 2

-- `1 << order`
abbrev pub pages : ℕ → ℕ
pages order = 2 ^ order

-- The lists of free blocks by order, each block by its first page frame. That a frame is linked into one list
-- at most is what the links in the frames ask for.
pub record Inner : Type 0 where
  pub frame_list : FrameList
  pub free_pages : ℕ
  pub free_lists : ℕ → List ℕ

-- `n ^ (1 << order)`: the exclusive or flips one bit.
unfoldable pub buddy : ℕ → ℕ → ℕ
buddy pfn order = if (pfn / pages order) % 2 == 0 then pfn + pages order else pfn - pages order

-- The two assertions of `pfn_to_index`.
unfoldable pub is_managed : FrameList → ℕ → Bool
is_managed l pfn = leb l.base_page pfn && ltb (pfn - l.base_page) l.total_pages

unfoldable pub get_frame : Inner → ℕ → Exec FrameState
unfolding is_managed
get_frame self pfn =
    if is_managed self.frame_list pfn then done (self.frame_list.state pfn) else panicked

abbrev pub at_put : {A : Type 0} → ℕ → A → (ℕ → A) → ℕ → A
at_put i a f j = if j == i then a else f j

-- `self.get_frame_mut(pfn).state = state`
unfoldable pub set_frame : ℕ → FrameState → Inner → Exec Inner
unfolding is_managed
set_frame pfn state self =
    if is_managed self.frame_list pfn
    then done (record self {
      frame_list = record self.frame_list { state = at_put pfn state self.frame_list.state };
    })
    else panicked

unfoldable pub add_to_free_list : ℕ → ℕ → Inner → Exec Inner
unfolding is_managed
add_to_free_list pfn order self =
    if is_managed self.frame_list pfn
    then done
        (record self { free_lists = at_put order (pfn ∷ self.free_lists order) self.free_lists })
    else panicked

unfoldable pub take_out : ℕ → List ℕ → Option (List ℕ)
take_out pfn [] = none
take_out pfn (p ∷ ps) =
    let rest = take_out pfn ps in
    if p == pfn then some ps else elim rest [ none ↦ none | some qs ↦ some (p ∷ qs) ]

unfoldable pub remove_from_free_list : ℕ → ℕ → Inner → Exec Inner
unfolding take_out set_frame
remove_from_free_list pfn order self = elim (take_out pfn (self.free_lists order)) [
  | none ↦ panicked
  | some ps ↦
      set_frame pfn FrameState.uninitialized
        (record self { free_lists = at_put order ps self.free_lists })
]

abbrev pub is_free_of : ℕ → FrameState → Bool
is_free_of order (FrameState.free o) = o == order
is_free_of order _ = false

-- The loop of `free_frames` over the orders: the order and the first frame of the merged block.
unfoldable pub merge_up : ℕ → ℕ → ℕ → Inner → Exec (ℕ × ℕ × Inner)
unfolding buddy get_frame remove_from_free_list
merge_up zero order pfn self = done (order, pfn, self)
merge_up (suc n) order pfn self =
    let l = self.frame_list in
    elim (ltb (buddy pfn order) l.base_page
      || leb (l.base_page + l.total_pages) (buddy pfn order)) [
        | true ↦ done (order, pfn, self)
        | false ↦ elim (get_frame self (buddy pfn order)) [
          | panicked ↦ panicked
          | done state ↦ elim (is_free_of order state) [
            | false ↦ done (order, pfn, self)
            | true ↦ elim (remove_from_free_list (buddy pfn order) order self) [
              | panicked ↦ panicked
              | done self' ↦ merge_up n (suc order) (min pfn (buddy pfn order)) self'
            ]
          ]
        ]
      ]

-- What `free_frames` does where no reference is left.
unfoldable pub release : ℕ → ℕ → Inner → Exec Inner
unfolding set_frame merge_up add_to_free_list
release head_pfn order self =
    set_frame head_pfn FrameState.uninitialized self
    >>= (λ s. merge_up (max_order - order) order head_pfn s)
    >>= (λ (merged_order, pfn, s).
        set_frame pfn (FrameState.free merged_order) s
        >>= (λ s. add_to_free_list pfn merged_order s))
    >>= (λ s. done (record s { free_pages = wadd s.free_pages (pages order) }))

unfoldable pub free_frames : Region → Inner → Exec Inner
unfolding get_frame set_frame release
free_frames region self =
    let head_pfn = region.address / page_size in
    elim (get_frame self head_pfn) [
      | panicked ↦ panicked
      | done state ↦ elim state [
        | FrameState.allocated_head info ↦ elim (ltb 1 info.ref_count) [
          | true ↦
              set_frame head_pfn
                (FrameState.allocated_head (record info { ref_count = info.ref_count - 1 })) self
          | false ↦ release head_pfn info.order self
        ]
        | _ ↦ panicked
      ]
    ]

-- The first list from this order on that is not empty, among so many.
unfoldable pub pop_from : ℕ → ℕ → (ℕ → List ℕ) → Option (ℕ × ℕ × (ℕ → List ℕ))
pop_from zero order lists = none
pop_from (suc n) order lists = elim (lists order) [
  | [] ↦ pop_from n (suc order) lists
  | p ∷ ps ↦ some (p, order, at_put order ps lists)
]

-- The loop that splits the block; the order is so many above the one requested.
unfoldable pub split : ℕ → ℕ → ℕ → Inner → Exec Inner
unfolding buddy set_frame add_to_free_list
split zero requested pfn self = done self
split (suc d) requested pfn self =
    set_frame (buddy pfn (requested + d)) (FrameState.free (requested + d)) self
    >>= (λ s. add_to_free_list (buddy pfn (requested + d)) (requested + d) s)
    >>= (λ s. split d requested pfn s)

unfoldable pub mark_tails : ℕ → ℕ → ℕ → Inner → Exec Inner
unfolding set_frame
mark_tails zero i head self = done self
mark_tails (suc n) i head self =
    set_frame (head + i) (FrameState.allocated_tail head) self
    >>= (λ s. mark_tails n (suc i) head s)

unfoldable pub alloc_frames : ℕ → Inner → Exec (Result Region × Inner)
unfolding pop_from set_frame split mark_tails
alloc_frames requested self = elim (ltb max_order requested) [
  | true ↦ done (err KernelError.invalid_value, self)
  | false ↦ elim (pop_from (max_order + 1 - requested) requested self.free_lists) [
    | none ↦ done (err KernelError.no_memory, self)
    | some (pfn, current, lists) ↦
        set_frame pfn FrameState.uninitialized (record self { free_lists = lists })
        >>= (λ s. split (current - requested) requested pfn s)
        >>= (λ s.
            set_frame pfn (FrameState.allocated_head (record { ref_count = 1; order = requested }))
              s)
        >>= (λ s. mark_tails (pages requested - 1) 1 pfn s)
        >>= (λ s. done (
          ok (record {
            address = (pfn * page_size) % usize_mod;
            size = (pages requested * page_size) % usize_mod;
          }),
          record s { free_pages = wsub s.free_pages (pages requested) },
        ))
  ]
]
