-- ===== src/Mem/Map/Calls.antt =====
-- libkernel/src/memory/proc_vm/memory_map/mod.rs: `mmap`, `munmap` and `mprotect`.
use Prim.Native.String.{String}
use moss.Common.{
  ℕ, ◌-◌, Bool, true, false, not, ◌&&◌, Option, none, some, List, [], ◌∷◌, ◌==◌, if◌then◌else◌,
  checked_add, done, Result, ok, err, KernelError,
}
use moss.Mem.Region.{
  Region, page_size, page_aligned, addr_is_page_aligned, align_to_page_boundary, contains,
  punch_hole,
}
use moss.Mem.Vma.{Vma, Kind, Permissions, shrink_to}
use moss.Mem.BTree.{key, insert}
use moss.Mem.AddressSpace.{AddressSpace, pte_of}
use moss.Mem.Map.{find_vma, is_region_free, find_free_region, unmap_region}
use moss.Mem.Map.Effect
use moss.Mem.Map.Effect.{
  Eff, pure, fail, from_exec, ok_or, get_vmas, on_space, remove_key, inserting,
}

pub data AddressRequest : Type 0 where
  any : AddressRequest
  hint : ℕ → AddressRequest
  fixed : ℕ → Bool → AddressRequest

abbrev free_or_no_memory : Option Region → Result Region
free_or_no_memory none = err KernelError.no_memory
free_or_no_memory (some r) = ok r

-- The region of a new mapping, for a length that is a whole number of pages.
unfoldable pub choose_region : List Vma → AddressRequest → ℕ → Result Region
choose_region vmas any len = free_or_no_memory (find_free_region vmas len)
choose_region vmas (hint address) len =
    let region : Region = record { address = page_aligned address; size = len } in
    if is_region_free vmas region then ok region else free_or_no_memory (find_free_region vmas len)
choose_region vmas (fixed address permit_overlap) len =
    let region : Region = record { address = address; size = len } in
    if not (addr_is_page_aligned address)
    then err KernelError.invalid_value
    else if not permit_overlap && not (is_region_free vmas region)
    then err KernelError.invalid_value
    else ok region

-- `len.checked_add(PAGE_MASK)` and `& !PAGE_MASK`
unfoldable pub round_len : ℕ → Option ℕ
round_len len = elim (checked_add len (page_size - 1)) [
  | none ↦ none
  | some n ↦ some (page_aligned n)
]

abbrev pub region_eq : Region → Region → Bool
region_eq r s = r.address == s.address && r.size == s.size

module _ (AS : AddressSpace) where
  open AS use {protect_range}

  infixl 5 ◌>>=◌ ◌>>◌
  abbrev ◌>>=◌ : {A B : Type 0} → Eff AS A → (A → Eff AS B) → Eff AS B
  f >>= k = Effect.bind AS f k

  abbrev ◌>>◌ : {B : Type 0} → Eff AS (Unit {0}) → Eff AS B → Eff AS B
  f >> k = Effect.bind AS f (λ _. k)

  abbrev from_result : {A : Type 0} → Result A → Eff AS A
  from_result r m = done (r, m)

  abbrev guard : Bool → KernelError → Eff AS (Unit {0})
  guard b e m = if b then done (ok tt, m) else done (err e, m)

  unfoldable pub mmap_impl :
      AddressRequest → ℕ → Permissions → Kind → String → Bool → Eff AS (ℕ × List ℕ)
  mmap_impl request len perms kind name replace = do
    guard (not (len == 0)) KernelError.invalid_value
    len' ← ok_or AS (round_len len) KernelError.no_memory
    vmas ← get_vmas AS
    region ← from_result (choose_region vmas request len')
    pages ← if replace then unmap_region AS region none else pure AS []
    inserting AS (record { region = region; name = name; kind = kind; permissions = perms })
    pure AS (region.address, pages)

  -- `mmap` drops the pages, of which there are none; `mmap_replacing` hands them to its caller.
  unfoldable pub mmap : AddressRequest → ℕ → Permissions → Kind → String → Eff AS ℕ
  mmap request len perms kind name = do
    (address, pages) ← mmap_impl request len perms kind name false
    pure AS address

  unfoldable pub mmap_replacing :
      AddressRequest → ℕ → Permissions → Kind → String → Eff AS (ℕ × List ℕ)
  mmap_replacing request len perms kind name = mmap_impl request len perms kind name true

  unfoldable pub munmap : Region → Eff AS (List ℕ)
  munmap range = do
    guard (addr_is_page_aligned range.address) KernelError.invalid_value
    guard (not (range.size == 0)) KernelError.invalid_value
    aligned ← from_exec AS (align_to_page_boundary range)
    unmap_region AS aligned none

  abbrev inserting_part : Vma → Option Region → Eff AS (Unit {0})
  inserting_part vma none = pure AS tt
  inserting_part vma (some r) = inserting AS (shrink_to vma r)

  -- The second case of `mprotect`: part of an area changes.
  unfoldable pub protect_part : Vma → Region → Permissions → Eff AS (Unit {0})
  protect_part vma region new_perms = do
    (left, right) ← from_exec AS (punch_hole vma.region region)
    inserting_part vma left
    inserting AS (record (shrink_to vma region) { permissions = new_perms })
    inserting_part vma right

  -- `self.vmas[&start]` is the area that `find_vma` found. The last `Err(NoMemory)` of the code is never
  -- reached: the first test has returned where the area does not contain the region.
  unfoldable pub mprotect : Region → Permissions → Eff AS (Unit {0})
  mprotect region new_perms = do
    guard (addr_is_page_aligned region.address) KernelError.invalid_value
    guard (not (region.size == 0)) KernelError.invalid_value
    vmas ← get_vmas AS
    vma ← ok_or AS (find_vma vmas region.address) KernelError.no_memory
    guard (contains vma.region region) KernelError.no_memory
    on_space AS (protect_range region (pte_of new_perms))
    remove_key AS (key vma)
    if region_eq vma.region region
        then inserting AS (record vma { permissions = new_perms })
        else protect_part vma region new_perms

-- `from_vmas`: later areas replace earlier ones at the same start.
unfoldable pub vmas_of : List Vma → List Vma → List Vma
vmas_of acc [] = acc
vmas_of acc (v ∷ vs) = vmas_of (insert v acc) vs
