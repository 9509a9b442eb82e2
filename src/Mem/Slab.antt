-- ===== src/Mem/Slab.antt =====
-- libkernel/src/memory/allocators/slab/slab.rs and mod.rs: a slab, a block of four pages cut into objects of one
-- size. Each free object begins with the number of the next free one.
pub mod Slots
pub mod Chain
pub mod Stack
pub mod Manager
pub mod Release
pub mod Order
pub mod Heap
pub mod Reuse
mod Tests
use moss.Common.{
  ℕ, zero, suc, ◌+◌, ◌-◌, ◌*◌, ◌/◌, ◌%◌, ◌^◌, Bool, true, false, ◌&&◌, Option, none, some, List,
  max, leb, ltb, ◌==◌, if◌then◌else◌, usize_mod, wadd, Exec, done, panicked,
}
use moss.Mem.Region.{Region, page_size, contains_address}
use moss.Mem.Frames.{Slab, slab_order, at_put}

abbrev pub slab_size_bytes : ℕ
slab_size_bytes = page_size * 2 ^ slab_order

abbrev pub slab_max_obj_shift : ℕ
slab_max_obj_shift = 13

-- `u16::MAX`
abbrev pub u16_max : ℕ
u16_max = 2 ^ 16 - 1

pub data SlabState : Type 0 where
  free partial full : SlabState

-- The raw memory: the u16 that begins at an address. Objects have two bytes at least, so that those at their
-- starts do not overlap.
abbrev pub Memory : Type 0
Memory = ℕ → ℕ

-- The address of an object, `base.add_bytes(idx * (1 << obj_shift))`.
unfoldable pub calc_obj_idx : Slab → ℕ → ℕ
calc_obj_idx s idx = wadd s.base (idx * 2 ^ s.obj_shift)

unfoldable pub capacity : Slab → ℕ
capacity s = slab_size_bytes / 2 ^ s.obj_shift

-- The loop of `new`, from the object `i` on, where `n` are left.
unfoldable pub write_links : ℕ → ℕ → Slab → Memory → Memory
unfolding calc_obj_idx
write_links zero i s m = m
write_links (suc n) i s m =
    write_links n (suc i) s
      (at_put (calc_obj_idx s i) (if n == 0 then u16_max else (i + 1) % 2 ^ 16) m)

-- `new`, for the block of frames with this virtual address and size
unfoldable pub new : ℕ → ℕ → ℕ → Memory → Exec (Slab × Memory)
new va size obj_shift m =
    let s : Slab = record {
      obj_shift = obj_shift;
      num_free = slab_size_bytes / 2 ^ obj_shift;
      next_free = some 0;
      base = va;
    } in
    if size == slab_size_bytes && leb 1 obj_shift && leb obj_shift slab_max_obj_shift
    then done (s, write_links (slab_size_bytes / 2 ^ obj_shift) 0 s m)
    else panicked

-- `if next_free == u16::MAX { None } else { Some(next_free) }`
unfoldable pub link_of : ℕ → Option ℕ
link_of next_free = if next_free == u16_max then none else some next_free

-- `self.next_free.unwrap_or(u16::MAX)`
abbrev pub link_to : Option ℕ → ℕ
link_to none = u16_max
link_to (some i) = i

unfoldable pub alloc_object : Memory → Slab → Exec (Option ℕ × Slab)
unfolding calc_obj_idx link_of
alloc_object m s = elim (s.num_free == 0) [
  | true ↦ done (none, s)
  | false ↦ elim s.next_free [
    | none ↦ panicked
    | some i ↦ done (
      some (calc_obj_idx s i),
      record s { next_free = link_of (m (calc_obj_idx s i)); num_free = s.num_free - 1 },
    )
  ]
]

unfoldable pub put_object : ℕ → Memory → Slab → Exec (Slab × Memory)
put_object ptr m s =
    elim (contains_address (record { address = s.base; size = slab_size_bytes }) ptr) [
      | false ↦ panicked
      | true ↦ done (
        record s {
          num_free = s.num_free + 1;
          next_free = some ((ptr - s.base) / 2 ^ s.obj_shift % 2 ^ 16);
        },
        at_put ptr (link_to s.next_free) m,
      )
    ]

unfoldable pub state : Slab → SlabState
unfolding capacity
state s =
    if s.num_free == 0
    then SlabState.full
    else if s.num_free == capacity s
    then SlabState.free
    else SlabState.partial
