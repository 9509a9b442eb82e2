-- ===== src/Mem/Kbuf/RingBuf.antt =====
-- What the kernel's buffers (libkernel/src/memory/kbuf.rs) use of the crate `ringbuf` (not part of the repository): a
-- ring buffer whose places that are in use, and those that are not, are two slices each.
use moss.Common.{ℕ, ◌+◌, ◌≤◌, ◌==◌, Bool, ◌≡◌, List, [], ◌++◌, length}
use moss.Mem.Kbuf.{take, drop}

pub record RingBuf (A : Type 0) : Type 1 where
  pub Rb : Type 0
  -- what was pushed and not popped, the oldest first
  pub contents : Rb → List A
  pub capacity : Rb → ℕ
  pub occupied_len : Rb → ℕ
  pub vacant_len : Rb → ℕ
  pub is_empty : Rb → Bool
  pub is_full : Rb → Bool
  pub occupied_slices : Rb → List A × List A
  pub vacant_slices : Rb → List A × List A
  pub advance_read_index : ℕ → Rb → Rb
  -- writes through `vacant_slices_mut`, and `advance_write_index` after them
  pub write_vacant : List A → List A → Rb → Rb
  pub advance_write_index : ℕ → Rb → Rb
  pub occupied_len_law : (r : Rb) → occupied_len r ≡ length (contents r)
  pub vacant_len_law : (r : Rb) → length (contents r) + vacant_len r ≡ capacity r
  pub is_empty_law : (r : Rb) → is_empty r ≡ (length (contents r) == 0)
  pub is_full_law : (r : Rb) → is_full r ≡ (capacity r == length (contents r))
  pub occupied_all : (r : Rb) → (occupied_slices r).0 ++ (occupied_slices r).1 ≡ contents r
  pub occupied_first : (r : Rb) → length (occupied_slices r).0 ≡ 0 → contents r ≡ []
  pub vacant_all :
      (r : Rb)
      → length (contents r) + (length (vacant_slices r).0 + length (vacant_slices r).1) ≡ capacity r
  pub vacant_first : (r : Rb) → length (vacant_slices r).0 ≡ 0 → length (vacant_slices r).1 ≡ 0
  pub read_law :
      (n : ℕ) (r : Rb)
      → n ≤ length (contents r)
      → contents (advance_read_index n r) ≡ drop n (contents r)
  pub write_law :
      (h t : List A) (n : ℕ) (r : Rb)
      → length h ≡ length (vacant_slices r).0
      → length t ≡ length (vacant_slices r).1
      → n ≤ length h + length t
      → contents (advance_write_index n (write_vacant h t r)) ≡ contents r ++ take n (h ++ t)
