-- ===== src/Mem/Vma/Fault.antt =====
-- libkernel/src/memory/proc_vm/vmarea.rs: the answers to a page fault.
use moss.Common.{
  ℕ, ◌+◌, ◌-◌, ◌%◌, ◌≤◌, ◌<◌, true, false, ◌≡◌, ◌⊎◌, ◌↔◌, none, some, arith, usize_mod,
  Option-cases, inl, inr, ◌∙◌,
}
use moss.Mem.Region.{page_size, contains_address, page_aligned}
use moss.Mem.Region.Points.{Fits, Covers}
use moss.Mem.Vma.{
  Vma, file, FileMapping, FileRead, FaultValidation, AccessKind, allows, validate_fault,
  resolve_fault, file_read,
}

-- A fault is valid exactly when the area covers the address and allows the access, and is denied
-- exactly when it covers the address and does not; else it is not present.
pub validate_fault_iff :
    (v : Vma) (a : ℕ) (k : AccessKind)
    → Fits v.region
    → ((validate_fault v a k ≡ FaultValidation.valid)
        ↔ (Covers v.region a × (allows v.permissions k ≡ true)))
      × ((validate_fault v a k ≡ FaultValidation.permission_denied)
          ↔ (Covers v.region a × (allows v.permissions k ≡ false)))
      × ((validate_fault v a k ≡ FaultValidation.not_present) ↔ (¬ (Covers v.region a)))
unfolding validate_fault contains_address
validate_fault_iff v a k f = (
  (λ h. ground arith, λ h. ground arith),
  (λ h. ground arith, λ h. ground arith),
  (λ h. ground arith, λ h. ground arith),
)

-- Address `a` is backed by the file: it is one of the `len` addresses from the start of the area.
abbrev pub Backed : ℕ → FileMapping → ℕ → Type 0
Backed start m a = (start ≤ a) × (a < start + m.len)

-- The read puts a byte of the file at address `a` of the page at `page`.
abbrev pub Reads : FileRead → ℕ → ℕ → Type 0
Reads r page a = (page + r.page_offset ≤ a) × (a < page + r.page_offset + r.read_len)

-- the bounds under which nothing wraps
pub record IsMapped (start : ℕ) (m : FileMapping) (fault : ℕ) : Type 0 where
  pub congruent : start % page_size ≤ m.offset
  pub starts : start ≤ fault
  pub ends : m.offset + m.len + (fault - start) + page_size < usize_mod

file_read-some :
    (start : ℕ) (m : FileMapping) (fault a : ℕ) (r : FileRead)
    → IsMapped start m fault
    → file_read start m fault ≡ some r
    → page_aligned a ≡ page_aligned fault
    → (r.inode ≡ m.file)
      × (Reads r (page_aligned fault) a ↔ Backed start m a)
      × (Reads r (page_aligned fault) a
          → r.file_offset + (a - (page_aligned fault + r.page_offset)) ≡ m.offset + (a - start))
unfolding file_read
file_read-some start m fault a r i h e =
    (ground arith, (λ x. ground arith, λ x. ground arith), λ x. ground arith)

file_read-none :
    (start : ℕ) (m : FileMapping) (fault a : ℕ)
    → IsMapped start m fault
    → file_read start m fault ≡ none
    → page_aligned a ≡ page_aligned fault
    → ¬ (Backed start m a)
unfolding file_read
file_read-none start m fault a i h e b = ground arith

resolve_fault-file :
    (v : Vma) (m : FileMapping) (fault : ℕ)
    → v.kind ≡ file m
    → resolve_fault v fault ≡ file_read v.region.address m fault
unfolding resolve_fault
resolve_fault-file v m fault k = rw (k, resolve_fault)

-- A fault in a file-backed area, at or after its start, in the page of a backed address: the read that
-- it answers puts at that address of the page the byte of the file that lies as far from the mapping's
-- offset as the address lies from the area's start.
pub resolve_fault-Backed :
    (v : Vma) (m : FileMapping) (fault a : ℕ)
    → v.kind ≡ file m
    → IsMapped v.region.address m fault
    → page_aligned a ≡ page_aligned fault
    → Backed v.region.address m a
    → (r : FileRead) × (resolve_fault v fault ≡ some r)
      × (r.inode ≡ m.file)
      × Reads r (page_aligned fault) a
      × (r.file_offset + (a - (page_aligned fault + r.page_offset))
          ≡ m.offset + (a - v.region.address))
resolve_fault-Backed v m fault a k i e b =
    elim (Option-cases (file_read v.region.address m fault)) [
      | inl n ↦ absurd (file_read-none v.region.address m fault a i n e b)
      | inr (r, q) ↦
          let (same, reads, at) = file_read-some v.region.address m fault a r i q e in
          (r, resolve_fault-file v m fault k ∙ q, same, reads.1 b, at (reads.1 b))
    ]

-- A fault in the page of an address that the file does not back answers no read, or one that leaves that
-- address alone, so that it keeps the zero of a fresh page.
pub resolve_fault_unbacked :
    (v : Vma) (m : FileMapping) (fault a : ℕ)
    → v.kind ≡ file m
    → IsMapped v.region.address m fault
    → page_aligned a ≡ page_aligned fault
    → ¬ (Backed v.region.address m a)
    → (resolve_fault v fault ≡ none)
      ⊎ ((r : FileRead) × (resolve_fault v fault ≡ some r) × (¬ (Reads r (page_aligned fault) a)))
resolve_fault_unbacked v m fault a k i e b =
    elim (Option-cases (file_read v.region.address m fault)) [
      | inl n ↦ inl (resolve_fault-file v m fault k ∙ n)
      | inr (r, q) ↦
          let (same, reads, at) = file_read-some v.region.address m fault a r i q e in
          inr (r, resolve_fault-file v m fault k ∙ q, λ x. b (reads.0 x))
    ]
