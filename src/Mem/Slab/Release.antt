-- ===== src/Mem/Slab/Release.antt =====
-- libkernel/src/memory/allocators/slab/allocator.rs: how an object is put back, and what becomes of its slab.
use moss.Common.{
  ℕ, zero, suc, ◌/◌, Bool, true, false, ◌||◌, Option, none, some, List, [], ◌∷◌, ◌==◌,
  if◌then◌else◌, wadd, wsub, Exec, done, panicked,
}
use moss.Mem.Region.{page_size}
use moss.Mem.Frames.{FrameState, Inner, get_frame, take_out}
use moss.Mem.Frames.Calls.{free_slab}
use moss.Mem.Slab.{SlabState, put_object, state}
use moss.Mem.Slab.Manager.{SlabManager, Kernel, max_free_slabs, store_slab}

-- `is_linked` of a slab's frame, which is in one of the lists if it is linked
abbrev is_in : ℕ → List ℕ → Bool
is_in pfn [] = false
is_in pfn (p ∷ ps) = p == pfn || is_in pfn ps

abbrev pub is_linked : ℕ → SlabManager → Bool
is_linked pfn m = is_in pfn m.free || is_in pfn m.partial

-- `do_free_obj`, which follows a tail to its head; none where the rounds given are not enough.
unfoldable pub do_free_obj : ℕ → ℕ → ℕ → ℕ → Kernel → Exec (Option (ℕ × SlabState × Kernel))
unfolding get_frame
do_free_obj zero pfn ptr obj_shift k = done none
do_free_obj (suc n) pfn ptr obj_shift k = elim (get_frame k.frames pfn) [
  | panicked ↦ panicked
  | done st ↦ elim st [
    | FrameState.allocated_tail head ↦ do_free_obj n head ptr obj_shift k
    | FrameState.slab s ↦ elim (s.obj_shift == obj_shift) [
      | false ↦ panicked
      | true ↦ elim (put_object ptr k.memory s) [
        | panicked ↦ panicked
        | done r ↦ elim (store_slab pfn r.0 (record k { memory = r.1 })) [
          | panicked ↦ panicked
          | done k' ↦ done (some (pfn, state r.0, k'))
        ]
      ]
    ]
    | _ ↦ panicked
  ]
]

-- The loop that gives slabs back: so many from the front of the free list.
unfoldable pub batch_free : ℕ → List ℕ → Inner → Exec (List ℕ × Inner)
unfolding free_slab
batch_free zero fs frames = done (fs, frames)
batch_free (suc n) [] frames = panicked
batch_free (suc n) (pfn ∷ fs) frames = elim (free_slab pfn frames) [
  | panicked ↦ panicked
  | done frames' ↦ batch_free n fs frames'
]

-- `if self.free_list_sz == MAX_FREE_SLABS`
unfoldable pub trim : SlabManager → Kernel → Exec (SlabManager × Kernel)
unfolding batch_free
trim m k = elim (m.free_list_sz == max_free_slabs) [
  | false ↦ done (m, k)
  | true ↦ elim (batch_free (max_free_slabs / 2) m.free k.frames) [
    | panicked ↦ panicked
    | done r ↦ done (
      record m { free = r.0; free_list_sz = wsub m.free_list_sz (max_free_slabs / 2) },
      record k { frames = r.1 },
    )
  ]
]

-- `cursor_mut_from_ptr(frame).remove()` where the frame is linked, which must be in the partial list
unfoldable pub unlink : Bool → ℕ → SlabManager → Exec SlabManager
unfolding take_out
unlink false pfn m = done m
unlink true pfn m = elim (take_out pfn m.partial) [
  | none ↦ panicked
  | some ps ↦ done (record m { partial = ps })
]

abbrev pub push_free : ℕ → SlabManager → SlabManager
push_free pfn m = record m { free = pfn ∷ m.free; free_list_sz = wadd m.free_list_sz 1 }

-- the match on the state of the slab after the object was put
unfoldable pub relink : SlabState → Bool → ℕ → SlabManager → Kernel → Exec (SlabManager × Kernel)
unfolding trim unlink
relink SlabState.free linked pfn m k = elim (trim m k) [
  | panicked ↦ panicked
  | done r ↦ elim (unlink linked pfn r.0) [
    | panicked ↦ panicked
    | done m' ↦ done (push_free pfn m', r.1)
  ]
]
relink SlabState.partial linked pfn m k =
    done (if linked then m else record m { partial = pfn ∷ m.partial }, k)
relink SlabState.full linked pfn m k = panicked

-- `free`; a tail points to a head, so that two rounds do.
unfoldable pub free : (ℕ → ℕ) → ℕ → SlabManager → Kernel → Exec (SlabManager × Kernel)
unfolding do_free_obj relink
free to_pa ptr m k = elim (do_free_obj 2 (to_pa ptr / page_size) ptr m.obj_shift k) [
  | panicked ↦ panicked
  | done o ↦ elim o [ none ↦ panicked | some (pfn, st, k') ↦ relink st (is_linked pfn m) pfn m k' ]
]
