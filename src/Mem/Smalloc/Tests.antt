-- ===== src/Mem/Smalloc/Tests.antt =====
-- Runs of the early allocator, and the theorems about it at concrete lists.
use moss.Common.{ℕ, ◌≡◌, inl, inr, refl, true, false, not, ◌&&◌, some, List, [], ◌∷◌, ok, arith}
use moss.Mem.Region.{Region, punch_hole}
use moss.Mem.RegionList
use moss.Mem.RegionList.{RegionList, merge_first, requires_reallocation, insert_region}
use moss.Mem.RegionList.Insert.{covered}
use moss.Mem.Smalloc.{Smalloc, returns, search_in, settle, free, new, permit_region_list_reallocs}
use moss.Mem.Smalloc.Calls.{
  alloc, alloc_page, add_reservation, add_memory, claim_region, free_regions, iter_free,
  base_ram_base_address,
}
use moss.Mem.Smalloc.Alloc.{Allocated, alloc-Allocated}
use moss.Mem.Smalloc.Free.{Released, free-Released}
use moss.Mem.Smalloc.Unreserved.{free_regions-covered}

abbrev banks : List Region
banks = record { address = 0; size = 0x10000 } ∷ record { address = 0x20000; size = 0x10000 } ∷ []

abbrev kept : List Region
kept = record { address = 0x1000; size = 0x3000 } ∷ record { address = 0x21000; size = 0x100 } ∷ []

abbrev machine : Smalloc
machine = record {
  memory = record { regions = banks; max = 8; buffer = 0x9000 };
  res = record { regions = kept; max = 8; buffer = 0xa000 };
  permit_region_realloc = false;
}

abbrev same_address : ℕ → ℕ
same_address a = a

-- The zero page goes first, and then what follows the reservation that it joins.
allocates :
    alloc same_address 2 0x100 0x100 machine
    ≡ returns (
      ok 0x4000,
      record machine {
        res = record machine.res {
          regions =
              record { address = 0; size = 0x4100 }
              ∷ record { address = 0x21000; size = 0x100 }
              ∷ [];
        };
      },
    )
unfolding alloc merge_first requires_reallocation settle insert_region
allocates = refl

frees :
    free same_address 1 0x2000 0x1000 machine
    ≡ returns (
      ok tt,
      record machine {
        res = record machine.res {
          regions =
              record { address = 0x1000; size = 0x1000 }
              ∷ record { address = 0x3000; size = 0x1000 }
              ∷ record { address = 0x21000; size = 0x100 }
              ∷ [];
        };
      },
    )
unfolding free merge_first requires_reallocation insert_region
frees = refl

claims :
    claim_region same_address 1 (record { address = 0x8000; size = 0x1000 }) machine
    ≡ returns (
      ok tt,
      record machine {
        memory = record machine.memory {
          regions =
              record { address = 0; size = 0x8000 }
              ∷ record { address = 0x9000; size = 0x7000 }
              ∷ record { address = 0x20000; size = 0x10000 }
              ∷ [];
        };
      },
    )
unfolding claim_region merge_first requires_reallocation punch_hole insert_region
claims = refl

walks :
    iter_free machine
    ≡ record { address = 0; size = 0x1000 }
      ∷ record { address = 0x4000; size = 0xc000 }
      ∷ record { address = 0x20000; size = 0x1000 }
      ∷ record { address = 0x21100; size = 0xef00 }
      ∷ []
unfolding iter_free
walks = refl

-- A list of reservations that is about to be full, and may grow.
abbrev crowded : Smalloc
crowded = record machine {
  res = record {
    regions =
        record { address = 0; size = 0x1000 }
        ∷ record { address = 0x2000; size = 0x1000 }
        ∷ record { address = 0x9000; size = 0x40 }
        ∷ [];
    max = 4;
    buffer = 0x9000;
  };
  permit_region_realloc = true;
}

-- The list moves to 0x1000, next to the first reservation; the old one, the last, is freed before that.
grows :
    free same_address 5 0x2800 0x100 crowded
    ≡ returns (
      ok tt,
      record crowded {
        res = record {
          regions =
              record { address = 0; size = 0x1080 }
              ∷ record { address = 0x2000; size = 0x800 }
              ∷ record { address = 0x2900; size = 0x700 }
              ∷ [];
          max = 8;
          buffer = 0x1000;
        };
      },
    )
unfolding free merge_first requires_reallocation search_in settle insert_region
grows = refl

-- The list moves from before the block to behind it, and joins the reservation that holds the block; `free`
-- still uses the index that it found before.
abbrev moved : Smalloc
moved = record machine {
  memory = record {
    regions = record { address = 0x1000; size = 0x9000 } ∷ [];
    max = 8;
    buffer = 0xb000;
  };
  res = record {
    regions =
        record { address = 0x1000; size = 0x40 }
        ∷ record { address = 0x1080; size = 0xf80 }
        ∷ record { address = 0x3000; size = 0x1000 }
        ∷ [];
    max = 4;
    buffer = 0x1000;
  };
  permit_region_realloc = true;
}

-- The block stays reserved, and the reservation at 0x3000 is gone.
frees_another :
    free same_address 5 0x1100 0x100 moved
    ≡ returns (
      ok tt,
      record moved {
        res = record {
          regions = record { address = 0x1080; size = 0x1000 } ∷ [];
          max = 8;
          buffer = 0x2000;
        };
      },
    )
unfolding free merge_first requires_reallocation search_in settle insert_region
frees_another = refl

-- The first bank of a new allocator, a reservation, and a page.
starts :
    add_memory same_address 1
      (record { address = 0x1000; size = 0x10000 })
      (new (RegionList.new 4 0x9000) (RegionList.new 4 0xa000))
    ≡ returns (
      ok tt,
      record {
        memory = record {
          regions = record { address = 0x1000; size = 0x10000 } ∷ [];
          max = 4;
          buffer = 0x9000;
        };
        res = RegionList.new 4 0xa000;
        permit_region_realloc = false;
      },
    )
unfolding add_memory new RegionList.new merge_first requires_reallocation insert_region
starts = refl

base : base_ram_base_address machine ≡ some 0
unfolding base_ram_base_address
base = refl

reserves :
    add_reservation same_address 1 (record { address = 0x4000; size = 0x10 }) machine
    ≡ returns (
      ok tt,
      record machine {
        res = record machine.res {
          regions =
              record { address = 0x1000; size = 0x3010 }
              ∷ record { address = 0x21000; size = 0x100 }
              ∷ [];
        };
      },
    )
unfolding add_reservation merge_first requires_reallocation insert_region
reserves = refl

gives_page :
    alloc_page same_address 2 (permit_region_list_reallocs machine)
    ≡ returns (
      ok 4,
      record machine {
        res = record machine.res {
          regions =
              record { address = 0; size = 0x5000 }
              ∷ record { address = 0x21000; size = 0x100 }
              ∷ [];
        };
        permit_region_realloc = true;
      },
    )
unfolding alloc_page alloc permit_region_list_reallocs merge_first requires_reallocation settle
    insert_region
gives_page = refl

alloc-Allocated_example : Allocated 0x100 0x100 machine (alloc same_address 2 0x100 0x100 machine)
alloc-Allocated_example =
    alloc-Allocated same_address 0x100 0x100 (omega arith) refl (omega arith) 0 machine
      (record {
        memory =
            (omega arith, omega arith, omega arith, (omega arith, omega arith, omega arith, tt));
        spaced = (omega arith, omega arith, (omega arith, omega arith, tt));
        roomy = (omega arith, (omega arith, tt));
      })
      (omega arith) (omega arith)

free-Released_example :
    Released
      (record { address = 0x2000; size = 0x1000 })
      machine
      (free same_address 1 0x2000 0x1000 machine)
free-Released_example =
    free-Released (record { address = 0x2000; size = 0x1000 }) machine (omega arith) (omega arith)
      same_address 0 (omega arith) (omega arith, omega arith, (omega arith, omega arith, tt))
      (omega arith, (omega arith, tt)) (omega arith)

free_regions-covered_example :
    covered (free_regions banks kept) 0x21000
    ≡ (covered banks 0x21000 && not (covered kept 0x21000))
free_regions-covered_example =
    free_regions-covered 0 banks kept (omega arith, omega arith, (omega arith, omega arith, tt))
      (omega arith, omega arith, (omega arith, omega arith, tt))
      ((inr (omega arith), (inl (omega arith), tt)), ((tt, (tt, tt)), tt)) 0x21000
