-- ===== src/Mem/Vma.antt =====
-- libkernel/src/memory/proc_vm/vmarea.rs: a virtual memory area. An `Arc` (of an inode, of a shared backing object) is
-- the number that `Arc::ptr_eq` compares. `usize` and `u64` sums wrap, as in a release build, where
-- `debug_assert!` is no check.
pub mod Source
pub mod Fault
mod Tests
use Prim.Native.String.{String}
use moss.Common.{
  ℕ, ◌-◌, min, max, Bool, true, false, not, ◌&&◌, ◌||◌, Option, none, some, ltb, ◌==◌,
  if◌then◌else◌, wadd, wsub, checked_add, saturating_sub, Exec, done, panicked, ◌>>=◌, ◌≡◌,
}
use moss.Mem.Region.{
  Region, MappableRegion, page_size, page_aligned, page_offset, contains_address,
  to_mappable_region,
}

pub record Permissions : Type 0 where
  pub read : Bool
  pub write : Bool
  pub execute : Bool

pub data FaultValidation : Type 0 where
  valid not_present permission_denied : FaultValidation

pub data AccessKind : Type 0 where
  read write execute : AccessKind

pub record FileRead : Type 0 where
  pub file_offset : ℕ
  pub page_offset : ℕ
  pub read_len : ℕ
  pub inode : ℕ

pub record FileMapping : Type 0 where
  pub file : ℕ
  pub offset : ℕ
  pub len : ℕ

pub record SharedMapping : Type 0 where
  pub backing : ℕ
  pub offset : ℕ

pub data Kind : Type 0 where
  file : FileMapping → Kind
  anon : Kind
  shared_anon : SharedMapping → Kind

pub record Vma : Type 0 where
  pub region : Region
  pub name : String
  pub kind : Kind
  pub permissions : Permissions

unfoldable pub new : Region → Kind → Permissions → Vma
new region kind permissions = record {
  region = region;
  name = "";
  kind = kind;
  permissions = permissions;
}

abbrev bool_eq : Bool → Bool → Bool
bool_eq true b = b
bool_eq false b = not b

-- `self.permissions == other.permissions`, derived
unfoldable pub permissions_eq : Permissions → Permissions → Bool
permissions_eq a b =
    bool_eq a.read b.read && (bool_eq a.write b.write && bool_eq a.execute b.execute)

-- What the crate `object` reads from a LOAD program header: the bits of `p_flags`, and the numbers.
pub record ProgramHeader : Type 0 where
  pub flag_x : Bool
  pub flag_r : Bool
  pub flag_w : Bool
  pub vaddr : ℕ
  pub memsz : ℕ
  pub offset : ℕ
  pub filesz : ℕ

unfoldable pub from_pheader : ℕ → ProgramHeader → Option ℕ → Exec Vma
unfolding to_mappable_region
from_pheader f hdr address_bias =
    let bias : ℕ = elim address_bias [ none ↦ 0 | some b ↦ b ] in
    to_mappable_region (record { address = wadd hdr.vaddr bias; size = hdr.memsz }) >>= λ m.
    done (record {
      region = m.region;
      name = "";
      kind = file (record {
        file = f;
        offset = wsub hdr.offset m.offset_from_page_start;
        len = wadd hdr.filesz m.offset_from_page_start;
      });
      permissions = record { read = hdr.flag_r; write = hdr.flag_w; execute = hdr.flag_x };
    })

abbrev pub allows : Permissions → AccessKind → Bool
allows p AccessKind.read = p.read
allows p AccessKind.write = p.write
allows p AccessKind.execute = p.execute

unfoldable pub validate_fault : Vma → ℕ → AccessKind → FaultValidation
validate_fault self addr kind =
    if not (contains_address self.region addr)
    then FaultValidation.not_present
    else if allows self.permissions kind
    then FaultValidation.valid
    else FaultValidation.permission_denied

-- The arm of `resolve_fault` for a file mapping.
unfoldable pub file_read : ℕ → FileMapping → ℕ → Option FileRead
file_read start mapping faulting_addr =
    let vaddr_page_offset = page_offset start in
    let map_start_vaddr = page_aligned start in
    let map_start_foffset = wsub mapping.offset vaddr_page_offset in
    let fault_page_vaddr = page_aligned faulting_addr in
    let fault_page_offset_in_map = saturating_sub fault_page_vaddr map_start_vaddr in
    let file_offset_for_page_start = wadd map_start_foffset fault_page_offset_in_map in
    let page_write_offset = if fault_page_vaddr == map_start_vaddr then vaddr_page_offset else 0 in
    let read_start_file_offset = max file_offset_for_page_start mapping.offset in
    let read_end_file_offset = wadd mapping.offset mapping.len in
    let read_len = saturating_sub read_end_file_offset read_start_file_offset in
    let final_read_len = min read_len (page_size - page_write_offset) in
    if final_read_len == 0
    then none
    else some (record {
      file_offset = read_start_file_offset;
      page_offset = page_write_offset;
      read_len = final_read_len;
      inode = mapping.file;
    })

unfoldable pub resolve_fault : Vma → ℕ → Option FileRead
unfolding file_read
resolve_fault self faulting_addr = elim self.kind [
  | anon ↦ none
  | shared_anon m ↦ none
  | file mapping ↦ file_read self.region.address mapping faulting_addr
]

-- The match of `can_merge_with` on the two kinds; `size` is the size of the first area.
unfoldable pub kinds_merge : ℕ → Kind → Kind → Bool
kinds_merge size anon anon = true
kinds_merge size (shared_anon l) (shared_anon r) =
    l.backing == r.backing
    && elim (checked_add l.offset size) [ none ↦ false | some o ↦ o == r.offset ]
kinds_merge size (file l) (file r) = l.file == r.file && r.offset == wadd l.offset size
kinds_merge size _ _ = false

unfoldable pub can_merge_with : Vma → Vma → Bool
unfolding kinds_merge permissions_eq
can_merge_with self other =
    if not (permissions_eq self.permissions other.permissions)
    then false
    else kinds_merge self.region.size self.kind other.kind

-- the kind of `clone_with_new_region`, with the start of the old and of the new region
unfoldable pub rebased_kind : ℕ → ℕ → Kind → Kind
rebased_kind old new (shared_anon m) =
    shared_anon (record m { offset = wadd m.offset (wsub new old) })
rebased_kind old new (file m) = file m
rebased_kind old new anon = anon

unfoldable pub clone_with_new_region : Vma → Region → Vma
unfolding rebased_kind
clone_with_new_region self new_region = record self {
  region = new_region;
  kind = rebased_kind self.region.address new_region.address self.kind;
}

abbrev pub is_file_backed : Vma → Bool
is_file_backed self = elim self.kind [ file m ↦ true | _ ↦ false ]

abbrev pub is_shared : Vma → Bool
is_shared self = elim self.kind [ shared_anon m ↦ true | _ ↦ false ]

-- the file arm of `shrink_to`
unfoldable pub shrunk_file : FileMapping → ℕ → ℕ → Kind
shrunk_file m start_offset size =
    let new_sz = min (saturating_sub m.len start_offset) size in
    if new_sz == 0
    then anon
    else file (record { file = m.file; offset = wadd m.offset start_offset; len = new_sz })

unfoldable pub shrink_to : Vma → Region → Vma
unfolding clone_with_new_region shrunk_file
shrink_to self new_region =
    let new_vma = clone_with_new_region self new_region in
    elim self.kind [
      | file m ↦ record new_vma {
        kind = shrunk_file m (wsub new_region.address self.region.address) new_region.size;
      }
      | anon ↦ new_vma
      | shared_anon m ↦ new_vma
    ]
