-- ===== src/Mem/AddressSpace.antt =====
-- libkernel/src/memory/paging/permissions.rs and libkernel/src/memory/address_space.rs: the permissions of a page, and the
-- trait `UserAddressSpace` as an interface. Each architecture implements it; the memory map calls it.
use moss.Common.{ℕ, Bool, true, false, Option, Result, List}
use moss.Mem.Region.{Region}
use moss.Mem.Vma.{Permissions}

pub record PtePermissions : Type 0 where
  pub read : Bool
  pub write : Bool
  pub execute : Bool
  pub user : Bool
  pub cow : Bool

-- `PtePermissions::from(VMAPermissions)`
unfoldable pub pte_of : Permissions → PtePermissions
pte_of p = record { read = p.read; write = p.write; execute = p.execute; user = true; cow = false }

unfoldable pub into_cow : PtePermissions → PtePermissions
into_cow p = record p { write = false; cow = true }

unfoldable pub from_cow : PtePermissions → PtePermissions
from_cow p = record p { write = true; cow = false }

pub record PageInfo : Type 0 where
  pub pfn : ℕ
  pub perms : PtePermissions

-- A method on `&mut self` takes the space last and returns it beside its result.
pub record AddressSpace : Type 1 where
  pub Space : Type 0
  pub new_space : Result Space
  pub map_page : ℕ → ℕ → PtePermissions → Space → Result (Unit {0}) × Space
  pub unmap : ℕ → Space → Result ℕ × Space
  pub protect_range : Region → PtePermissions → Space → Result (Unit {0}) × Space
  pub unmap_range : Region → Space → Result (List ℕ) × Space
  pub translate : Space → ℕ → Option PageInfo
  pub protect_and_clone_region :
      Region → PtePermissions → Space → Space → Result (Unit {0}) × Space × Space
