-- ===== src/Lib.antt =====
-- A verification library for moss, a kernel in Rust with the system call interface of Linux. It
-- models the part of the kernel that decides what a process may do and what it sees (its memory
-- map, its file descriptors, its identities and capabilities), the allocators of physical memory
-- and the kernel's heap, the state machine by which tasks sleep and are woken, and the run queue
-- that chooses which one runs.
--
-- The program has two crates. libkernel holds the code that does not depend on a machine
-- (addresses, regions, areas, the memory map, the allocators, capabilities, errors); src holds the
-- kernel proper, of which the descriptor table, the credentials, the task states and the run queue
-- are modelled. A system call finds the structures of the calling process, locks them, and calls
-- the operations below. The memory map in turn calls the page tables of the architecture.
--
-- The scheduler keeps the state of each task in one atomic cell, which the task's processor and its
-- wakers change without a lock. Each processor has a run queue of its own, whose `schedule` takes
-- the task that ran so far off, puts it back or lets it stay, and chooses the next one by virtual
-- time. The heap keeps some pointers for each size of objects, takes more from slabs, and slabs
-- from the page allocator.
--
-- Files, with the code that they are about:
--
--   * Common.antt: library names, machine words (Common/Word), lists over the native numbers
--     (Common/Lists), Boolean tests (Common/Tests), the error values of libkernel/src/error.rs
--     (Common/Errors), and `Exec`, a value or a panic (Common/Panic).
--   * Mem/Region.antt: `Address` and `MemoryRegion` of libkernel/src/memory/address.rs and
--     region.rs. Region/Points is about the addresses that a region covers, Region/Pages about
--     whole pages.
--   * Mem/Vma.antt: `VMArea` of libkernel/src/memory/proc_vm/vmarea.rs. Vma/Source says where the
--     first content of an address comes from, Vma/Fault is about page faults.
--   * Mem/AddressSpace.antt: `PtePermissions` of libkernel/src/memory/paging/permissions.rs, and
--     the trait `UserAddressSpace` of libkernel/src/memory/address_space.rs as a record of
--     operations.
--   * Mem/BTree.antt: what the memory map uses of `BTreeMap`.
--   * Mem/Map.antt: `MemoryMap` of libkernel/src/memory/proc_vm/memory_map/mod.rs: the searches,
--     `merge_vma`, `fixup_pg_tables`, `unmap_region`, `insert_and_merge`. Map/Calls has `mmap`,
--     `munmap`, `mprotect` and `from_vmas`, Map/Remap has `mremap`, Map/Fork has `clone_as_cow`,
--     all on the state passing of Map/Effect. Map/Order, Lookup, Carve, Unmap, View, Content,
--     Munmap and Cow are proofs.
--   * Mem/RegionList.antt: `RegionList` of libkernel/src/memory/allocators/smalloc.rs.
--     RegionList/Insert and Clear are proofs about `insert_region`.
--   * Mem/Smalloc.antt: `Smalloc` of the same file: the search for a place, `free` and
--     `grow_region_list`, which call each other. Smalloc/Calls has `alloc` and the other
--     operations, and the walk of `FreeRegionsIter`. Smalloc/Search, Find, Alloc, Free and
--     Unreserved are proofs.
--   * Mem/Frames.antt: the buddy allocator of libkernel/src/memory/allocators/phys.rs over the
--     metadata of frame.rs: `alloc_frames` and `free_frames`. Frames/Calls has references, slabs,
--     queries, and how the allocator is set up from `Smalloc`. Frames/Weight, Sound, Release,
--     Allocate, Cycle, Populate and Setup are proofs.
--   * Mem/Slab.antt: `Slab` of libkernel/src/memory/allocators/slab/slab.rs. Slab/Manager and
--     Release have `SlabManager` of allocator.rs, Slab/Heap has `PtrCache` of cache.rs and the heap
--     of heap.rs. Slab/Slots, Chain, Stack, Order and Reuse are proofs.
--   * Mem/Kbuf.antt: `copy_slices` of libkernel/src/memory/kbuf.rs. Kbuf/Poll has what a poll of
--     `splice_from` does, over the interface of ring buffers in Kbuf/RingBuf. Kbuf/Parts, Splice
--     and Sizes are proofs.
--   * Proc/Caps.antt: `Capabilities` of libkernel/src/proc/caps.rs, over the interface
--     Proc/Bitflags.antt.
--   * Proc/Creds.antt: `Uid` and `Gid` of libkernel/src/proc/ids.rs, and `Credentials` with its
--     system calls of src/process/creds.rs. Creds/Confined and Creds/Effects are proofs.
--   * Proc/Limits.antt: `ResourceLimits` and `sys_prlimit64` of
--     src/process/thread_group/rsrc_lim.rs. Limits/Hard has the proofs. Proc/FlagLists.antt is an
--     instance of Proc/Bitflags.antt.
--   * Fs/Attr.antt: modes, attributes and `check_access` of libkernel/src/fs/attr.rs. Attr/Access
--     has the proofs.
--   * Errno.antt: `kern_err_to_syscall` of libkernel/src/error/syscall_error.rs.
--   * FdTable.antt: `FileDescriptorTable` of src/process/fd_table.rs, with dup.rs and the
--     duplicating arms of fcntl.rs below it. FdTable/Search, Hint and Lowest are proofs.
--   * Sched/TaskStates.antt: `TaskStateMachine` of src/sched/sched_task/state.rs, one atomic access
--     at a time. Sched/Deactivation puts the calls of the task's processor together with the part
--     of `RunQueue::schedule` (src/sched/runqueue/mod.rs) that follows them, as in
--     src/sched/uspc_ret.rs. Sched/Wakeups has the proofs over all interleavings.
--   * Sched/Time.antt: instants of src/drivers/timer/mod.rs and `VClock` of
--     src/sched/runqueue/vclock.rs. Sched/RunnableTask.antt: `RunnableTask` of
--     src/sched/sched_task/mod.rs. Sched/BinaryHeap.antt: what is used of `BinaryHeap`, with an
--     instance in Sched/ListHeap.
--   * Sched/RunQueue.antt: `RunQueue` of src/sched/runqueue/mod.rs. RunQueue/Order is about the
--     orders of its heaps; Loops, Choice and Find are proofs about `find_next_task`; Insert, Leave,
--     Stages and Next about the parts of `schedule`; Schedule, Dispatch, Busy and Invariant have
--     what it comes to, with Balance and Total below the last.
--
-- How state and results are modelled. `&mut self` is an argument and a component of the result.
-- `Result` has the constructors ok and err. A failed `assert!` or `unwrap` is `panicked`, and no
-- code after it runs; `debug_assert!` is no check, as in a release build. A mask with `!(align -
-- 1)`, behind the assertion that `align` is a power of two, is the removal of the remainder. A
-- `usize` or `u64` is a number below 2 ^ 64 whose sums and differences wrap, written out with
-- `wadd` and `wsub`; a theorem that needs a sum not to wrap says so. A u32 is a number below 2 ^
-- 32. Every loop is recursion on the list or the count that it runs over, so that few functions
-- need fuel. Those that do are the loop of `settle`, which gets one round more than there are
-- reservations; `free`, `grow_region_list` and `alloc`, which call each other or themselves: a list
-- with room needs one round in `free` and two in `alloc`, and `spins` says that the rounds did not
-- suffice; `is_allocated_exclusive` and `do_free_obj`, for which two rounds do where tails point to
-- heads; and the loops of `find_next_task`, which get a round for each task in the heap, and its
-- calls to itself, one for each task that is not eligible. The loop of `wake`, which can go round
-- as often as other processors interfere, is a step function from one access to the next.
--
-- What stands for code outside the repository or below the part modelled: the page tables are the
-- record `AddressSpace`, whose operations may do anything and may fail; sets of flags are the
-- record `Bitflags`, of which only the order of `contains` is assumed (file permissions, whose bits
-- are shifted, are numbers); an open file is an element of an arbitrary type; an inode and a shared
-- backing object are the numbers by which their references compare. `BTreeMap` is the list of its
-- values in the order of their keys. `BinaryHeap` is a record of operations, of which the laws say
-- what a heap contains and that `pop` takes a greatest value. What wakers do to the state of the
-- task that `schedule` takes off is an argument; the context switch and the preemption interrupt
-- are what `schedule` answers. The address translator of the early allocator and the size of a
-- frame's metadata are parameters. The raw memory behind a region list, and the linked lists of
-- free frames, are lists; the links that frames have for them are not modelled, so that the
-- theorems that speak of one free block for a page at most ask for it.
--
-- Not modelled: the implementations of the page tables, drivers, file systems, the choice of a
-- processor for a task, signals and the network; system calls that only copy data to user memory;
-- the order in which locks are taken, each operation on a map, a table or credentials being one
-- step under its lock. Sums of an area's end wrap, so that the theorems about maps ask for areas
-- that end below 2 ^ 64.

pub mod Common
pub mod Proc
pub mod Errno
pub mod FdTable
pub mod Fs
pub mod Mem
pub mod Sched
