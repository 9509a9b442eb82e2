-- ===== src/Mem/Vma/Tests.antt =====
-- The areas of the source's unit tests, and the theorems about areas at concrete ones.
use moss.Common.{ℕ, ◌+◌, ◌-◌, true, false, ◌≡◌, ◌⊎◌, refl, none, some, arith}
use moss.Mem.Region.{Region, page_aligned}
use moss.Mem.Vma.{Vma, file, anon, FileMapping, FileRead, Permissions, resolve_fault}
use moss.Mem.Vma.Source.{IsSane}
use moss.Mem.Vma.Fault.{Reads, resolve_fault-Backed, resolve_fault_unbacked}

abbrev rw_only : Permissions
rw_only = record { read = true; write = true; execute = false }

-- `unaligned_segment`: 0x300 bytes at 0x40100, backed by the file from 0x5100 on
abbrev slice : FileMapping
slice = record { file = 1; offset = 0x5100; len = 0x300 }

abbrev segment : Vma
segment = record {
  region = record { address = 0x40100; size = 0x1300 };
  name = "";
  kind = file slice;
  permissions = rw_only;
}

abbrev heap_area : ℕ → ℕ → Vma
heap_area a n = record {
  region = record { address = a; size = n };
  name = "";
  kind = anon;
  permissions = rw_only;
}

unaligned_segment :
    resolve_fault segment 0x40280
    ≡ some (record { file_offset = 0x5100; page_offset = 0x100; read_len = 0x300; inode = 1 })
unfolding resolve_fault
unaligned_segment = refl

zero_page : resolve_fault segment 0x41000 ≡ none
unfolding resolve_fault
zero_page = refl

segment-IsSane : IsSane segment
segment-IsSane = omega arith

resolve_fault-Backed_example :
    (r : FileRead) × (resolve_fault segment 0x40280 ≡ some r)
    × (r.inode ≡ 1)
    × Reads r (page_aligned 0x40280) 0x40200
    × (r.file_offset + (0x40200 - (page_aligned 0x40280 + r.page_offset))
        ≡ 0x5100 + (0x40200 - 0x40100))
resolve_fault-Backed_example =
    resolve_fault-Backed segment slice 0x40280 0x40200 refl (omega arith) refl (omega arith)

resolve_fault_unbacked_example :
    (resolve_fault segment 0x41000 ≡ none)
    ⊎ ((r : FileRead) × (resolve_fault segment 0x41000 ≡ some r)
        × (¬ (Reads r (page_aligned 0x41000) 0x41004)))
resolve_fault_unbacked_example =
    resolve_fault_unbacked segment slice 0x41000 0x41004 refl (omega arith) refl (omega arith)

abbrev second_part : Region
second_part = record { address = 0x40200; size = 0x100 }
