-- ===== src/Mem/Vma/Source.antt =====
-- libkernel/src/memory/proc_vm/vmarea.rs: where the first content of each address of an area comes from, and which
-- operations keep it.
use moss.Common.{ℕ, ◌+◌, ◌-◌, ◌≤◌, ◌<◌, true, false, ◌≡◌, ltb, if◌then◌else◌, arith, usize_mod}
use moss.Mem.Region.{Region}
use moss.Mem.Region.Points.{Fits, Covers}
use moss.Mem.Vma.{
  Vma, Kind, file, anon, shared_anon, FileMapping, shrink_to, clone_with_new_region, can_merge_with,
  is_file_backed,
}

-- What a fault at an address finds: zeroes, a byte of a file, or a byte of a shared object.
pub data Source : Type 0 where
  zeroes : Source
  file_byte : ℕ → ℕ → Source
  shared_byte : ℕ → ℕ → Source

-- The source of address `a` in an area that starts at `start`. A file mapping reaches `len` bytes from
-- the start of the area; what lies beyond is zero-filled.
abbrev pub kind_source : ℕ → Kind → ℕ → Source
kind_source start anon a = zeroes
kind_source start (file m) a =
    if ltb (a - start) m.len then file_byte m.file (m.offset + (a - start)) else zeroes
kind_source start (shared_anon m) a = shared_byte m.backing (m.offset + (a - start))

abbrev pub source : Vma → ℕ → Source
source v a = kind_source v.region.address v.kind a

-- The offsets of the area's mapping do not wrap.
abbrev pub KindFits : ℕ → Kind → Type 0
KindFits size anon = Unit
KindFits size (file m) = (m.offset + m.len < usize_mod) × (m.offset + size < usize_mod)
KindFits size (shared_anon m) = m.offset + size < usize_mod

pub record IsSane (v : Vma) : Type 0 where
  pub fits : Fits v.region
  pub kind_fit : KindFits v.region.size v.kind

abbrev pub Within : Region → Region → Type 0
Within r s = (s.address ≤ r.address) × (r.address + r.size ≤ s.address + s.size)

-- `shrink_to` a part of the area keeps the source of every address in that part.
pub shrink_to-source :
    (v : Vma) (r : Region) (a : ℕ)
    → IsSane v
    → Within r v.region
    → Covers r a
    → source (shrink_to v r) a ≡ source v a
unfolding shrink_to
shrink_to-source v r a s w c = ground arith

-- `clone_with_new_region` at a part of an area that is not file-backed keeps the source of every
-- address in that part.
pub clone_with_new_region-source :
    (v : Vma) (r : Region) (a : ℕ)
    → is_file_backed v ≡ false
    → IsSane v
    → Within r v.region
    → Covers r a
    → source (clone_with_new_region v r) a ≡ source v a
unfolding clone_with_new_region
clone_with_new_region-source v r a n s w c = ground arith

-- An area that takes over the region of its successor, as `merge_vma` makes it.
abbrev pub extended : Vma → ℕ → Vma
extended u size = record u {
  region = record { address = u.region.address; size = u.region.size + size };
}

-- Where two adjacent areas that are not file-backed merge, the first area, extended over the second,
-- has the source of the first at each address of the first and that of the second at each of the second.
pub merge-source :
    (u v : Vma) (a : ℕ)
    → can_merge_with u v ≡ true
    → is_file_backed u ≡ false
    → u.region.address + u.region.size ≡ v.region.address
    → IsSane u
    → IsSane v
    → Covers (extended u v.region.size).region a
    → source (extended u v.region.size) a
      ≡ (if ltb a v.region.address then source u a else source v a)
unfolding can_merge_with
merge-source u v a h n e s t c = ground arith

-- Where two adjacent file-backed areas merge and the first one's mapping ends within it, the first area,
-- extended over the second, has zeroes at each address of the second.
pub merge-file_source :
    (u v : Vma) (m : FileMapping) (a : ℕ)
    → u.kind ≡ file m
    → m.len ≤ u.region.size
    → u.region.address + u.region.size ≡ v.region.address
    → Covers v.region a
    → source (extended u v.region.size) a ≡ zeroes
merge-file_source u v m a k l e c = ground arith
