-- ===== src/Mem/Frames/Tests.antt =====
-- Runs of the buddy allocator, and the theorems about it at concrete states.
use moss.Common.{
  ℕ, ◌≡◌, inl, inr, refl, true, false, Option, none, some, List, [], ◌∷◌, arith, Exec, done,
  panicked, ◌>>=◌, Result, ok, err, KernelError, ◌==◌, Bool-cases,
}
use mathlib.Core.Path.{subst}
use moss.Mem.Region.{Region, punch_hole}
use moss.Mem.RegionList.{merge_first, requires_reallocation, insert_region}
use moss.Mem.Smalloc.{Smalloc, Run, returns, panics, spins, settle}
use moss.Mem.Frames.{Slab, FrameState, Inner, at_put, buddy, alloc_frames, free_frames}
use moss.Mem.Frames.Calls.{
  clone_allocation, into_slab, free_slab, is_allocated, is_allocated_exclusive,
  populate_free_region, mark_reserved, new_frames, init_from_region, init,
}
use moss.Mem.Frames.Weight.{Additive, Block, has_page}
use moss.Mem.Frames.Sound.{Runs, Sound, free_weight}
use moss.Mem.Frames.Allocate.{Allocated, alloc_frames-Allocated}
use moss.Mem.Frames.Release.{Freed, free_frames-Freed}
use moss.Mem.Frames.Cycle.{alloc_frames-exclusive, free-alloc_frames}
use moss.Mem.Frames.Setup.{Started, populate_new_frames}

-- Four pages from page 4 on, one free block.
abbrev block_of_four : Inner
block_of_four = record {
  frame_list = record {
    base_page = 4;
    total_pages = 4;
    state = at_put 4 (FrameState.free 2) (λ pfn. FrameState.uninitialized);
  };
  free_pages = 4;
  free_lists = at_put 2 (4 ∷ []) (λ order. []);
}

whole_block : Block 4 4 2 4
whole_block = record { index = 1; aligned = refl; low = omega arith; high = omega arith }

block_of_four-Sound : Sound 4 4 block_of_four
block_of_four-Sound = record {
  base_eq = refl;
  total_eq = refl;
  blocks = λ o h. elim (Bool-cases (o == 2)) [
    | inl e ↦ rw e (subst (λ x. Block 4 4 x 4) (ground arith) whole_block, tt)
    | inr e ↦ rw e tt
  ];
  listed = λ p o. elim (Bool-cases (p == 4)) [
    | inl d ↦ rw d (λ e. let k : o ≡ 2 = ground arith in rw k (omega arith, inl (ground arith)))
    | inr d ↦ rw d (λ e. ground arith)
  ];
}

buddies : buddy 12 1 ≡ 14
unfolding buddy
buddies = refl

buddies_back : buddy 14 1 ≡ 12
unfolding buddy
buddies_back = refl

-- What a call answers, and the count of free pages.
abbrev answered : {A : Type 0} → Exec (A × Inner) → Option (A × ℕ)
answered panicked = none
answered (done (a, s)) = some (a, s.free_pages)

abbrev left_after : Exec (Result Region × Inner) → (Region → Inner → Exec Inner) → Exec Inner
left_after panicked f = panicked
left_after (done (err e, s)) f = panicked
left_after (done (ok r, s)) f = f r s

splits :
    answered (alloc_frames 0 block_of_four)
    ≡ some (ok (record { address = 0x4000; size = 0x1000 }), 3)
unfolding alloc_frames
splits = refl

too_large : answered (alloc_frames 11 block_of_four) ≡ some (err KernelError.invalid_value, 4)
unfolding alloc_frames
too_large = refl

-- A page is allocated, and freed again: the lists are as they were.
merges :
    (left_after (alloc_frames 0 block_of_four) free_frames >>= (λ s. done (s.free_lists 2)))
    ≡ done (4 ∷ [])
unfolding alloc_frames free_frames
merges = refl

-- A second reference keeps the block allocated.
keeps_shared :
    (left_after
        (alloc_frames 1 block_of_four)
        (λ r s. clone_allocation r s >>= (λ s. free_frames r s))
      >>= (λ s. is_allocated_exclusive 2 5 s))
    ≡ done (some true)
unfolding alloc_frames free_frames clone_allocation is_allocated_exclusive
keeps_shared = refl

-- The second page of a block still says that it is allocated after the block was freed.
stays_allocated :
    (left_after (alloc_frames 1 block_of_four) free_frames >>= (λ s. is_allocated 5 s)) ≡ done true
unfolding alloc_frames free_frames is_allocated
stays_allocated = refl

abbrev a_slab : Slab
a_slab = record { obj_shift = 5; num_free = 512; next_free = some 0; base = 0x4000 }

frees_slab :
    (left_after
        (alloc_frames 2 block_of_four)
        (λ r s. into_slab r a_slab s >>= (λ s. free_slab 4 s))
      >>= (λ s. done s.free_pages))
    ≡ done 4
unfolding alloc_frames free_slab into_slab
frees_slab = refl

-- Two blocks of the largest order, and reservations: the first page, and one page within the second block.
abbrev two_blocks : Region
two_blocks = record { address = 0; size = 0x800000 }

abbrev reserved_pages : List Region
reserved_pages =
    record { address = 0; size = 0x1000 } ∷ record { address = 0x480000; size = 0x1000 } ∷ []

populates :
    (mark_reserved two_blocks reserved_pages (new_frames two_blocks)
      >>= (λ s. populate_free_region two_blocks s)
      >>= (λ s. done s.free_pages))
    ≡ done 1024
unfolding mark_reserved new_frames populate_free_region
populates = refl

-- The block of four pages after it was allocated.
abbrev one_allocated : Inner
one_allocated = record {
  frame_list = record {
    base_page = 4;
    total_pages = 4;
    state =
        at_put 4 (FrameState.allocated_head (record { ref_count = 1; order = 2 }))
          (λ pfn. FrameState.uninitialized);
  };
  free_pages = 0;
  free_lists = λ order. [];
}

one_allocated-Sound : Sound 4 4 one_allocated
one_allocated-Sound = record {
  base_eq = refl;
  total_eq = refl;
  blocks = λ o h. tt;
  listed = λ p o. elim (Bool-cases (p == 4)) [
    | inl d ↦ rw d (λ e. ground arith)
    | inr d ↦ rw d (λ e. ground arith)
  ];
}

abbrev four_pages : Region
four_pages = record { address = 0x4000; size = 0x4000 }

-- The pages by whose number the block is known.
alloc_frames-Allocated_example : Runs (Allocated 4 4 1 block_of_four) (alloc_frames 1 block_of_four)
alloc_frames-Allocated_example =
    alloc_frames-Allocated 4 4 1 block_of_four (omega arith) block_of_four-Sound

free_frames-Freed_example :
    Runs
      (Freed 4 4 one_allocated (record { ref_count = 1; order = 2 }) 4)
      (free_frames four_pages one_allocated)
free_frames-Freed_example =
    free_frames-Freed 4 4 one_allocated four_pages (record { ref_count = 1; order = 2 })
      one_allocated-Sound refl (omega arith) whole_block

-- What is left of the block of four after one of its pages is allocated.
abbrev after_one : Exec (Result Region × Inner) → Inner
after_one (done (r, s)) = s
after_one panicked = block_of_four

allocates_one :
    alloc_frames 0 block_of_four
    ≡ done
        (ok (record { address = 0x4000; size = 0x1000 }), after_one (alloc_frames 0 block_of_four))
unfolding alloc_frames
allocates_one = refl

alloc_frames-exclusive_example :
    (free_weight (has_page 4) block_of_four ≡ 1)
    × (free_weight (has_page 4) (after_one (alloc_frames 0 block_of_four)) ≡ 0)
alloc_frames-exclusive_example =
    alloc_frames-exclusive 4 4 0 block_of_four (after_one (alloc_frames 0 block_of_four))
      (record { address = 0x4000; size = 0x1000 }) 4 (omega arith) block_of_four-Sound allocates_one
      (omega arith) (omega arith) (omega arith)

free-alloc_frames_example :
    Runs
      (λ s.
        Sound 4 4 s
        × (s.free_pages ≡ 4)
        × ((f : ℕ → ℕ → ℕ) → Additive f → free_weight f s ≡ free_weight f block_of_four))
      (free_frames
        (record { address = 0x4000; size = 0x1000 })
        (after_one (alloc_frames 0 block_of_four)))
free-alloc_frames_example =
    free-alloc_frames 4 4 0 block_of_four (after_one (alloc_frames 0 block_of_four))
      (record { address = 0x4000; size = 0x1000 }) (omega arith) (omega arith) (omega arith)
      block_of_four-Sound allocates_one

populate_new_frames_example : Runs (Started two_blocks reserved_pages) (
    mark_reserved two_blocks reserved_pages (new_frames two_blocks)
    >>= (λ s. populate_free_region two_blocks s))
populate_new_frames_example =
    populate_new_frames two_blocks reserved_pages (omega arith) (omega arith) (omega arith)

-- One block, with the kernel in its page 128.
abbrev kernel_within : Inner
kernel_within = record {
  frame_list = record {
    base_page = 0;
    total_pages = 1024;
    state = at_put 128 FrameState.kernel (λ pfn. FrameState.uninitialized);
  };
  free_pages = 0;
  free_lists = λ order. [];
}

kernel_within-Sound : Sound 0 1024 kernel_within
kernel_within-Sound = record {
  base_eq = refl;
  total_eq = refl;
  blocks = λ o h. tt;
  listed = λ p o. elim (Bool-cases (p == 128)) [
    | inl d ↦ rw d (λ e. ground arith)
    | inr d ↦ rw d (λ e. ground arith)
  ];
}

-- The early allocator hands over one block of its memory; the frames' metadata stays with it.
abbrev early : Smalloc
early = record {
  memory = record {
    regions = record { address = 0; size = 0x1000000 } ∷ [];
    max = 8;
    buffer = 0x700000;
  };
  res = record { regions = reserved_pages; max = 8; buffer = 0x700100 };
  permit_region_realloc = false;
}

abbrev managing : Run (Smalloc × Inner) → Option (ℕ × ℕ)
managing panics = none
managing spins = none
managing (returns (s, i)) = some (i.free_pages, i.frame_list.total_pages)

hands_over :
    managing
      (init_from_region (λ a. a) 32 8 2 early (record { address = 0x800000; size = 0x400000 }))
    ≡ some (1024, 1024)
unfolding init_from_region merge_first requires_reallocation punch_hole insert_region settle
hands_over = refl

abbrev managing_all : Run Inner → Option (ℕ × ℕ)
managing_all panics = none
managing_all spins = none
managing_all (returns i) = some (i.free_pages, i.frame_list.total_pages)

takes_all : managing_all (init (λ a. a) 32 8 2 early) ≡ some (2048, 4096)
unfolding init merge_first requires_reallocation punch_hole insert_region settle
    populate_free_region
takes_all = refl
