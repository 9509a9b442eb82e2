-- ===== src/Mem/Slab/Reuse.antt =====
-- libkernel/src/memory/allocators/slab/heap.rs: an object that was freed is the next one of its size.
use moss.Common.{
  ℕ, ◌+◌, ◌-◌, ◌<◌, ◌≡◌, refl, ap, ◌∙◌, true, false, some, ltb, ◌==◌, length, get_elem?, set,
  get_elem?-set_self, arith, done, ◌>>=◌,
}
use moss.Mem.Frames.{at_put}
use moss.Mem.Frames.Sound.{Runs}
use moss.Mem.Slab.Manager.{alloc_order}
use moss.Mem.Slab.Chain.{at_put_self}
use moss.Mem.Slab.Heap.{
  ptrs_per_sz_class, PtrCache, is_full, push_ptr, pop_ptr, cache_alloc, cache_free, Heap, alloc,
  dealloc,
}

-- A cache with room for a pointer.
pub record HasRoom (c : PtrCache) : Type 0 where
  pub room : c.next_free < ptrs_per_sz_class
  pub size : length c.ptrs ≡ ptrs_per_sz_class

abbrev pushed : ℕ → PtrCache → PtrCache
pushed ptr c = record { next_free = c.next_free + 1; ptrs = set c.ptrs c.next_free ptr }

abbrev popped : ℕ → PtrCache → PtrCache
popped ptr c = record (pushed ptr c) { next_free = c.next_free + 1 - 1 }

cache_free-pushed :
    (ptr : ℕ) (c : PtrCache) → HasRoom c → cache_free ptr c ≡ done (some (pushed ptr c))
unfolding cache_free push_ptr
cache_free-pushed ptr c h =
    let f : is_full c ≡ false = ground (arith, h.room) in
    let l : ltb c.next_free (length c.ptrs) ≡ true = ground (arith, h.room, h.size) in
    simp (f, l, cache_free, push_ptr) refl

cache_alloc-popped :
    (ptr : ℕ) (c : PtrCache)
    → HasRoom c
    → cache_alloc (pushed ptr c) ≡ done (some ptr, popped ptr c)
unfolding cache_alloc pop_ptr
cache_alloc-popped ptr c h =
    let z : (c.next_free + 1 == 0) ≡ false = ground arith in
    let i : c.next_free + 1 - 1 ≡ c.next_free = omega arith in
    let g : get_elem? (set c.ptrs c.next_free ptr) (c.next_free + 1 - 1) ≡ some ptr =
      ap (get_elem? (set c.ptrs c.next_free ptr)) i
      ∙ get_elem?-set_self c.ptrs c.next_free ptr (omega (arith, h.room, h.size)) in
    simp (z, g, cache_alloc, pop_ptr) refl

-- What `alloc` answers after `dealloc`.
abbrev pub Reused : ℕ → ℕ → Heap → ℕ × Heap → Type 0
Reused ptr o h r =
    (r.0 ≡ ptr)
    × (r.1.managers ≡ h.managers)
    × (r.1.kernel ≡ h.kernel)
    × ((r.1.caches o).next_free ≡ (h.caches o).next_free)

module _ (to_va to_pa : ℕ → ℕ) where
  -- Where a layout has an order, and the processor's cache for that order has room, `dealloc` and then `alloc` of
  -- the same layout do not panic: `alloc` answers the pointer that was freed, the slabs, the frames and the memory
  -- are unchanged, and the cache has as many pointers as before.
  pub alloc-dealloc :
      (ptr size align o : ℕ) (h : Heap)
      → alloc_order size align ≡ some o
      → HasRoom (h.caches o)
      → Runs
          (Reused ptr o h)
          (dealloc to_va to_pa ptr size align h >>= alloc to_va to_pa size align)
  unfolding alloc dealloc
  alloc-dealloc ptr size align o h e r =
      let c = h.caches o in
      let h1 = record h { caches = at_put o (pushed ptr c) h.caches } in
      let h2 = record h { caches = at_put o (popped ptr c) h1.caches } in
      let d : dealloc to_va to_pa ptr size align h ≡ done h1 =
        simp (e, cache_free-pushed ptr c r, dealloc) refl in
      let s = at_put_self o (pushed ptr c) h.caches in
      let a : alloc to_va to_pa size align h1 ≡ done (ptr, h2) =
        simp (e, s, cache_alloc-popped ptr c r, alloc) refl in
      (
        (ptr, h2),
        ap (λ x. x >>= alloc to_va to_pa size align) d ∙ a,
        (
          refl,
          refl,
          refl,
          ap (λ x. x.next_free) (at_put_self o (popped ptr c) h1.caches) ∙ omega arith,
        ),
      )
