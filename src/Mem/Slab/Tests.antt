-- ===== src/Mem/Slab/Tests.antt =====
-- The theorems about slabs (libkernel/src/memory/allocators/slab) at concrete slabs.
use moss.Common.{
  ℕ, ◌+◌, ◌*◌, ◌/◌, ◌^◌, ◌≡◌, refl, Option, none, some, [], ◌∷◌, arith, Exec, done, ◌>>=◌,
}
use moss.Mem.Frames.{Slab, FrameState, at_put}
use moss.Mem.Frames.Sound.{Runs}
use moss.Mem.Slab.{
  Memory, slab_size_bytes, new, alloc_object, put_object, calc_obj_idx, capacity, link_of,
}
use moss.Mem.Slab.Manager.{alloc_order, log2_ceil}
use moss.Mem.Slab.Order.{FitsOrder, alloc_order-FitsOrder}
use moss.Mem.Slab.Chain.{range}
use moss.Mem.Slab.Heap.{Heap, new_heap, alloc, dealloc}
use moss.Mem.Slab.Reuse.{Reused, alloc-dealloc}
use moss.Mem.Slab.Stack.{
  Holds, Answers, Released, alloc_object-Answers, put_object-Released, new-Holds,
}

-- The objects 1 and 3 of 4 KiB are free, in this order: the first says that the third follows.
abbrev memory : Memory
memory = at_put 0x5000 3 (at_put 0x7000 0xffff (λ a. 0xabcd))

abbrev slab : Slab
slab = record { obj_shift = 12; num_free = 2; next_free = some 1; base = 0x4000 }

slab-Holds : Holds memory slab (1 ∷ 3 ∷ [])
unfolding calc_obj_idx capacity link_of
slab-Holds = record {
  placed = record { least = omega arith; most = omega arith; fits = omega arith };
  chain = (refl, (refl, tt));
  count = refl;
  small = (omega arith, (omega arith, tt));
  distinct = ((λ e. ground (arith, e), tt), (tt, tt));
}

abbrev answer : Exec (Option ℕ × Slab) → Option ℕ
answer (done r) = r.0
answer _ = none

allocates_first : answer (alloc_object memory slab) ≡ some 0x5000
unfolding alloc_object calc_obj_idx
allocates_first = refl

alloc_object-Answers_example : Runs (Answers memory slab (1 ∷ 3 ∷ [])) (alloc_object memory slab)
alloc_object-Answers_example = alloc_object-Answers memory slab (1 ∷ 3 ∷ []) slab-Holds

put_object-Released_example :
    Runs (Released 2 (1 ∷ 3 ∷ [])) (put_object (0x4000 + 2 * 2 ^ 12) memory slab)
unfolding capacity
put_object-Released_example =
    put_object-Released memory slab 2 (1 ∷ 3 ∷ []) slab-Holds (omega arith)
      (λ e. ground (arith, e), (λ e. ground (arith, e), tt))

new-Holds_example :
    Runs
      (λ r.
        Holds r.1 r.0 (range (slab_size_bytes / 2 ^ 5) 0)
        × (r.0.base ≡ 0x4000)
        × (r.0.obj_shift ≡ 5))
      (new 0x4000 slab_size_bytes 5 memory)
new-Holds_example = new-Holds 0x4000 5 memory (omega arith) (omega arith) (omega arith)

order_of_100 : alloc_order 100 8 ≡ some 7
unfolding alloc_order log2_ceil
order_of_100 = refl

alloc_order-FitsOrder_example : FitsOrder 100 8 (alloc_order 100 8)
alloc_order-FitsOrder_example = alloc_order-FitsOrder 100 8 (omega arith) (omega arith)

-- nothing but the caches matters here
abbrev heap : Heap
heap = new_heap (record {
  frames = record {
    frame_list = record { base_page = 0; total_pages = 0; state = λ p. FrameState.uninitialized };
    free_pages = 0;
    free_lists = λ o. [];
  };
  memory = memory;
})

alloc-dealloc_example :
    Runs
      (Reused 0x5000 7 heap)
      (dealloc (λ a. a) (λ a. a) 0x5000 100 8 heap >>= alloc (λ a. a) (λ a. a) 100 8)
alloc-dealloc_example =
    alloc-dealloc (λ a. a) (λ a. a) 0x5000 100 8 7 heap order_of_100
      (record { room = omega arith; size = refl })
