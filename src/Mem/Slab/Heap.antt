-- ===== src/Mem/Slab/Heap.antt =====
-- libkernel/src/memory/allocators/slab/cache.rs and heap.rs: the pointers that a processor keeps for each size of
-- objects, and the kernel's heap on top of them. Locks and the storage of the cache are left out: a call is one step.
use moss.Common.{
  ℕ, zero, suc, ◌+◌, ◌-◌, ◌*◌, ◌/◌, ◌^◌, Bool, true, false, Option, none, some, List, [], ◌∷◌, max,
  ltb, ◌==◌, if◌then◌else◌, length, get_elem?, set, replicate, Exec, done, panicked, ok, err,
}
use moss.Mem.Region.{page_size}
use moss.Mem.Frames.{at_put, alloc_frames, free_frames}
use moss.Mem.Slab.Manager.{SlabManager, new_manager, Kernel, log2_ceil, alloc_order, try_alloc}
use moss.Mem.Slab.Manager as Manager
use moss.Mem.Slab.Release as Release

abbrev pub ptrs_per_sz_class : ℕ
ptrs_per_sz_class = 32

pub record PtrCache : Type 0 where
  pub next_free : ℕ
  pub ptrs : List ℕ

abbrev pub new_cache : PtrCache
new_cache = record { next_free = 0; ptrs = replicate ptrs_per_sz_class 0 }

abbrev pub is_empty : PtrCache → Bool
is_empty c = c.next_free == 0

abbrev pub is_full : PtrCache → Bool
is_full c = c.next_free == ptrs_per_sz_class

-- `self.ptrs[self.next_free] = ptr; self.next_free += 1`
unfoldable pub push_ptr : ℕ → PtrCache → Exec PtrCache
push_ptr ptr c = elim (ltb c.next_free (length c.ptrs)) [
  | false ↦ panicked
  | true ↦ done (record { next_free = c.next_free + 1; ptrs = set c.ptrs c.next_free ptr })
]

-- `self.next_free -= 1; self.ptrs[self.next_free]`
unfoldable pub pop_ptr : PtrCache → Exec (ℕ × PtrCache)
pop_ptr c = elim (get_elem? c.ptrs (c.next_free - 1)) [
  | none ↦ panicked
  | some ptr ↦ done (ptr, record c { next_free = c.next_free - 1 })
]

abbrev just : Exec (ℕ × PtrCache) → Exec (Option ℕ × PtrCache)
just panicked = panicked
just (done (p, c)) = done (some p, c)

-- `PtrCache::alloc` and `PtrCache::free`, which answers whether there was room
unfoldable pub cache_alloc : PtrCache → Exec (Option ℕ × PtrCache)
cache_alloc c = if is_empty c then done (none, c) else just (pop_ptr c)

unfoldable pub cache_free : ℕ → PtrCache → Exec (Option PtrCache)
cache_free ptr c = elim (is_full c) [
  | true ↦ done none
  | false ↦ elim (push_ptr ptr c) [ panicked ↦ panicked | done c' ↦ done (some c') ]
]

-- the loop of `fill_from`, for at most so many rounds
unfoldable pub fill_from :
    ℕ → PtrCache → SlabManager → Kernel → Exec (PtrCache × SlabManager × Kernel)
fill_from zero c m k = done (c, m, k)
fill_from (suc n) c m k = elim (is_full c) [
  | true ↦ done (c, m, k)
  | false ↦ elim (try_alloc m k) [
    | panicked ↦ panicked
    | done r ↦ elim r.0 [
      | none ↦ done (c, r.1, r.2)
      | some ptr ↦ elim (push_ptr ptr c) [ panicked ↦ panicked | done c' ↦ fill_from n c' r.1 r.2 ]
    ]
  ]
]

-- `cmp::max(size, align)` in whole pages, as an order
unfoldable pub calculate_huge_order : ℕ → ℕ → ℕ
calculate_huge_order size align = log2_ceil 63 0 ((max size align + page_size - 1) / page_size)

-- The caches and the slabs by the order of the objects.
pub record Heap : Type 0 where
  pub caches : ℕ → PtrCache
  pub managers : ℕ → SlabManager
  pub kernel : Kernel

abbrev take : ℕ → List ℕ → List ℕ
take zero xs = []
take (suc n) [] = []
take (suc n) (x ∷ xs) = x ∷ take n xs

-- `from_page` and `SlabAllocator::new`: empty caches, and managers without slabs
abbrev pub new_heap : Kernel → Heap
new_heap k = record { caches = λ o. new_cache; managers = new_manager; kernel = k }

abbrev set_cache : ℕ → PtrCache → Heap → Heap
set_cache o c h = record h { caches = at_put o c h.caches }

abbrev set_manager : ℕ → SlabManager → Kernel → Heap → Heap
set_manager o m k h = record h { managers = at_put o m h.managers; kernel = k }

module _ (to_va to_pa : ℕ → ℕ) where
  -- the loop of `drain_into`, for so many rounds
  unfoldable pub drain_into :
      ℕ → PtrCache → SlabManager → Kernel → Exec (PtrCache × SlabManager × Kernel)
  drain_into zero c m k = done (c, m, k)
  drain_into (suc n) c m k = elim (pop_ptr c) [
    | panicked ↦ panicked
    | done p ↦ elim (Release.free to_pa p.0 m k) [
      | panicked ↦ panicked
      | done r ↦ drain_into n p.1 r.0 r.1
    ]
  ]

  -- an object that does not fit into slabs
  unfoldable pub alloc_huge : ℕ → Heap → Exec (ℕ × Heap)
  alloc_huge order h = elim (alloc_frames order h.kernel.frames) [
    | panicked ↦ panicked
    | done r ↦ elim r.0 [
      | err e ↦ panicked
      | ok region ↦
          done (to_va region.address, record h { kernel = record h.kernel { frames = r.1 } })
    ]
  ]

  -- the slow path: the slabs of this order, and the cache filled from them
  unfoldable pub alloc_slow : ℕ → Heap → Exec (ℕ × Heap)
  alloc_slow o h = elim (Manager.alloc to_va (h.managers o) h.kernel) [
    | panicked ↦ panicked
    | done r ↦ elim (fill_from ptrs_per_sz_class (h.caches o) r.1 r.2) [
      | panicked ↦ panicked
      | done f ↦ done (r.0, set_cache o f.0 (set_manager o f.1 f.2 h))
    ]
  ]

  -- `GlobalAlloc::alloc` and `dealloc`, for a layout of this size and alignment
  unfoldable pub alloc : ℕ → ℕ → Heap → Exec (ℕ × Heap)
  alloc size align h = elim (alloc_order size align) [
    | none ↦ alloc_huge (calculate_huge_order size align) h
    | some o ↦ elim (cache_alloc (h.caches o)) [
      | panicked ↦ panicked
      | done r ↦ elim r.0 [ some ptr ↦ done (ptr, set_cache o r.1 h) | none ↦ alloc_slow o h ]
    ]
  ]

  unfoldable pub dealloc_huge : ℕ → ℕ → Heap → Exec Heap
  dealloc_huge ptr order h =
      elim (free_frames (record { address = to_pa ptr; size = page_size * 2 ^ order })
        h.kernel.frames) [
          | panicked ↦ panicked
          | done frames ↦ done (record h { kernel = record h.kernel { frames = frames } })
        ]

  unfoldable pub dealloc_slow : ℕ → ℕ → Heap → Exec Heap
  dealloc_slow ptr o h = elim (Release.free to_pa ptr (h.managers o) h.kernel) [
    | panicked ↦ panicked
    | done r ↦
        let c = h.caches o in
        elim (drain_into (c.next_free / 2) c r.0 r.1) [
          | panicked ↦ panicked
          | done f ↦ done (set_cache o f.0 (set_manager o f.1 f.2 h))
        ]
  ]

  unfoldable pub dealloc : ℕ → ℕ → ℕ → Heap → Exec Heap
  dealloc ptr size align h = elim (alloc_order size align) [
    | none ↦ dealloc_huge ptr (calculate_huge_order size align) h
    | some o ↦ elim (cache_free ptr (h.caches o)) [
      | panicked ↦ panicked
      | done c ↦ elim c [ some c' ↦ done (set_cache o c' h) | none ↦ dealloc_slow ptr o h ]
    ]
  ]

  -- `for ptr in line.ptrs.iter().take(line.next_free)` of `purge_into`
  unfoldable pub free_each : List ℕ → SlabManager → Kernel → Exec (SlabManager × Kernel)
  free_each [] m k = done (m, k)
  free_each (p ∷ ps) m k = elim (Release.free to_pa p m k) [
    | panicked ↦ panicked
    | done r ↦ free_each ps r.0 r.1
  ]

  -- `purge_into`, over so many orders from `o` on; there are fourteen.
  unfoldable pub purge_into : ℕ → ℕ → Heap → Exec Heap
  purge_into zero o h = done h
  purge_into (suc n) o h =
      let c = h.caches o in
      elim (free_each (take c.next_free c.ptrs) (h.managers o) h.kernel) [
        | panicked ↦ panicked
        | done r ↦
            purge_into n (suc o)
              (set_cache o (record c { next_free = 0 }) (set_manager o r.0 r.1 h))
      ]
