-- ===== src/Mem/RegionList/Tests.antt =====
-- Runs of the insertion into a region list, and the theorems about it at a concrete list.
use moss.Common.{ℕ, ◌≡◌, refl, true, ◌||◌, List, [], ◌∷◌, done, panicked, arith}
use moss.Mem.Region.{Region}
use moss.Mem.RegionList.{RegionList, merged, insert_region, merge_first, new, list_is_empty}
use moss.Mem.RegionList.Insert.{Spaced, inside, covered, merged-Spaced}

abbrev two_regions : List Region
two_regions =
    record { address = 0x1000; size = 0x1000 } ∷ record { address = 0x4000; size = 0x1000 } ∷ []

-- It touches both.
abbrev between : Region
between = record { address = 0x2000; size = 0x2000 }

abbrev list_of_two : RegionList
list_of_two = record { regions = two_regions; max = 3; buffer = 0x8000 }

joins_both : merged between two_regions ≡ record { address = 0x1000; size = 0x4000 } ∷ []
unfolding merged merge_first
joins_both = refl

goes_between :
    insert_region list_of_two (record { address = 0x3000; size = 0x10 })
    ≡ done (record list_of_two {
      regions =
          record { address = 0x1000; size = 0x1000 }
          ∷ record { address = 0x3000; size = 0x10 }
          ∷ record { address = 0x4000; size = 0x1000 }
          ∷ [];
    })
unfolding insert_region merge_first
goes_between = refl

starts_empty : list_is_empty (new 4 0x8000) ≡ true
unfolding list_is_empty new
starts_empty = refl

no_room : insert_region (record list_of_two { max = 2 }) between ≡ panicked
unfolding insert_region
no_room = refl

merged-Spaced_example :
    Spaced 0 (merged between two_regions)
    × ((a : ℕ)
        → covered (merged between two_regions) a ≡ (inside between a || covered two_regions a))
merged-Spaced_example =
    merged-Spaced between two_regions (omega arith, omega arith, (omega arith, omega arith, tt))
      (omega arith)
