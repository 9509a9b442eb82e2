-- ===== src/Mem/Kbuf.antt =====
-- libkernel/src/memory/kbuf.rs: ring buffers of the kernel. `copy_slices` copies between the parts that a ring buffer
-- has before and behind the end of its storage.
pub mod Parts
pub mod Splice
pub mod Sizes
pub mod RingBuf
pub mod Poll
mod Tests
use moss.Common.{
  ℕ, zero, suc, ◌+◌, ◌-◌, ◌≤◌, Bool, true, false, Option, none, some, List, [], ◌∷◌, ◌++◌, length,
  min, ◌==◌, leb, if◌then◌else◌, ◌≡◌,
}

-- How much was copied, and the two parts of the destination.
pub record Copied (A : Type 0) : Type 0 where
  pub copied : ℕ
  pub head : List A
  pub tail : List A

module _ {A : Type 0} where
  abbrev pub take : ℕ → List A → List A
  take zero xs = []
  take (suc n) [] = []
  take (suc n) (x ∷ xs) = x ∷ take n xs

  abbrev pub drop : ℕ → List A → List A
  drop zero xs = xs
  drop (suc n) [] = []
  drop (suc n) (x ∷ xs) = drop n xs

  -- `dst[at..][..n].copy_from_slice(&src[..n])`
  abbrev pub copy_at : ℕ → ℕ → List A → List A → List A
  copy_at at n src dst = take at dst ++ (take n src ++ drop n (drop at dst))

  -- the third copy, with `amount` left of `original_amount`
  unfoldable pub copy_third : ℕ → ℕ → ℕ → List A → List A → List A → Copied A
  copy_third original_amount amount n1 src_tail dst_head dst_tail =
      let n3 = min amount (min (length src_tail) (length (drop n1 dst_head))) in
      record {
        copied = original_amount - (amount - n3);
        head = copy_at n1 n3 src_tail dst_head;
        tail = dst_tail;
      }

  -- the second copy, likewise
  unfoldable pub copy_second : ℕ → ℕ → ℕ → List A → List A → List A → List A → Copied A
  copy_second original_amount amount n1 src_head src_tail dst_head dst_tail =
      let n2 = min amount (min (length (drop n1 src_head)) (length dst_tail)) in
      let dst_tail' = copy_at 0 n2 (drop n1 src_head) dst_tail in
      if amount - n2 == 0
      then record { copied = original_amount; head = dst_head; tail = dst_tail' }
      else copy_third original_amount (amount - n2) n1 src_tail dst_head dst_tail'

  unfoldable pub copy_slices : List A → List A → List A → List A → ℕ → Copied A
  copy_slices src_head src_tail dst_head dst_tail amount =
      let n1 = min amount (min (length src_head) (length dst_head)) in
      let dst_head' = copy_at 0 n1 src_head dst_head in
      if amount - n1 == 0
      then record { copied = amount; head = dst_head'; tail = dst_tail }
      else copy_second amount (amount - n1) n1 src_head src_tail dst_head' dst_tail
