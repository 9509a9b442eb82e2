-- ===== src/Mem/Kbuf/Poll.antt =====
-- libkernel/src/memory/kbuf.rs: `splice_from`, which moves what one buffer holds to another.
use moss.Common.{
  ℕ, ◌+◌, ◌≤◌, ◌<◌, ◌≡◌, inl, inr, sym, ap, ◌∙◌, Bool, true, min, List, ◌++◌, length, length-append,
  ltb, ◌==◌, ◌||◌, if◌then◌else◌, Bool-cases, arith,
}
use mathlib.Core.Path.{subst}
use moss.Mem.Kbuf.{take, drop, copy_slices}
use moss.Mem.Kbuf.Parts.{length-take}
use moss.Mem.Kbuf.Splice.{take_first, copy_slices-IsCopy}
use moss.Mem.Kbuf.Sizes.{copy_slices-Sizes}
use moss.Mem.Kbuf.RingBuf.{RingBuf}

module _ {A : Type 0} (R : RingBuf A) where
  -- What a poll answers. `ready` comes with the buffers `self` and `source`; it wakes a reader of the first and a
  -- writer of the second. `pending` says whether the waker was registered with the readers of the source,
  -- and with the writers of `self`.
  pub data Poll : Type 0 where
    ready : ℕ → R.Rb → R.Rb → Poll
    pending : Bool → Bool → Poll

  -- the branch that moves data
  unfoldable pub move_data : ℕ → R.Rb → R.Rb → Poll
  move_data bytes_to_move self source =
      let src = R.occupied_slices source in
      let dst = R.vacant_slices self in
      let c = copy_slices src.0 src.1 dst.0 dst.1 bytes_to_move in
      Poll.ready c.copied (R.advance_write_index c.copied (R.write_vacant c.head c.tail self))
        (R.advance_read_index c.copied source)

  -- `splice_from` of a buffer other than itself, polled once; `count` is not zero.
  unfoldable pub poll_splice : ℕ → R.Rb → R.Rb → Poll
  poll_splice count self source =
      let bytes_to_move = min count (min (R.occupied_len source) (R.vacant_len self)) in
      if ltb 0 bytes_to_move
      then move_data bytes_to_move self source
      else Poll.pending (R.is_empty source) (R.is_full self)

  -- A poll moves the oldest values of the source in order to the end of `self`, one at least and `count` at most; or it
  -- waits, registered with a buffer that is empty or full.
  abbrev pub Spliced : ℕ → R.Rb → R.Rb → Poll → Type 0
  Spliced count self source (Poll.ready n self' source') =
      (0 < n)
      × (n ≤ count)
      × (R.contents self' ≡ R.contents self ++ take n (R.contents source))
      × (R.contents source' ≡ drop n (R.contents source))
  Spliced count self source (Poll.pending on_source on_self) =
      (on_source ≡ (length (R.contents source) == 0))
      × (on_self ≡ (R.capacity self == length (R.contents self)))
      × ((on_source || on_self) ≡ true)

  occupied_sum :
      (r : R.Rb)
      → length (R.occupied_slices r).0 + length (R.occupied_slices r).1 ≡ R.occupied_len r
  occupied_sum r =
      sym (length-append (R.occupied_slices r).0 (R.occupied_slices r).1)
      ∙ ap length (R.occupied_all r)
      ∙ sym (R.occupied_len_law r)

  vacant_sum :
      (r : R.Rb) → length (R.vacant_slices r).0 + length (R.vacant_slices r).1 ≡ R.vacant_len r
  vacant_sum r = omega (arith, R.vacant_all r, R.vacant_len_law r)

  source_first : (r : R.Rb) → 0 < R.occupied_len r → 0 < length (R.occupied_slices r).0
  source_first r h = elim (Bool-cases (length (R.occupied_slices r).0 == 0)) [
    | inl e ↦ absurd (
        let k = ap length (R.occupied_first r (ground (arith, e))) in
        omega (arith, h, k, R.occupied_len_law r))
    | inr e ↦ ground (arith, e)
  ]

  room_first : (r : R.Rb) → 0 < R.vacant_len r → 0 < length (R.vacant_slices r).0
  room_first r h = elim (Bool-cases (length (R.vacant_slices r).0 == 0)) [
    | inl e ↦ absurd (
        let z : length (R.vacant_slices r).0 ≡ 0 = ground (arith, e) in
        omega (arith, h, z, R.vacant_first r z, vacant_sum r))
    | inr e ↦ ground (arith, e)
  ]

  -- the values that come to stand in `self`
  moved : (n : ℕ) (xs ys zs : List A) → n ≤ length xs → zs ≡ take n xs ++ ys → take n zs ≡ take n xs
  moved n xs ys zs h e =
      let k = take_first (take n xs) ys in
      ap (take n) e ∙ subst (λ x. take x (take n xs ++ ys) ≡ take n xs) (length-take n xs h) k

  move_data-Spliced :
      (count bytes : ℕ) (self source : R.Rb)
      → 0 < bytes
      → bytes ≤ count
      → bytes ≤ R.occupied_len source
      → bytes ≤ R.vacant_len self
      → Spliced count self source (move_data bytes self source)
  unfolding move_data
  move_data-Spliced count bytes self source p b o v =
      let src = R.occupied_slices source in
      let dst = R.vacant_slices self in
      let c = copy_slices src.0 src.1 dst.0 dst.1 bytes in
      let i = copy_slices-IsCopy src.0 src.1 dst.0 dst.1 bytes in
      let z = copy_slices-Sizes src.0 src.1 dst.0 dst.1 bytes in
      let l : c.copied ≤ length (src.0 ++ src.1) =
        omega (arith, i.at_most, o, length-append src.0 src.1, occupied_sum source) in
      let m = moved c.copied (src.0 ++ src.1) _ (c.head ++ c.tail) l i.places in
      (
        omega (
          arith,
          z.least,
          p,
          source_first source (omega (arith, p, o)),
          room_first self (omega (arith, p, v)),
        ),
        omega (arith, i.at_most, b),
        R.write_law c.head c.tail c.copied self z.head_eq z.tail_eq
              (omega (arith, i.at_most, v, z.head_eq, z.tail_eq, vacant_sum self))
            ∙ ap (λ x. R.contents self ++ x) (m ∙ ap (take c.copied) (R.occupied_all source)),
        R.read_law c.copied source (omega (arith, l, ap length (R.occupied_all source))),
      )

  -- A poll of `splice_from` from one buffer to another, with a count that is not zero. Where it answers a number n, n is
  -- from 1 to the count, the first n values of the source now stand in order behind what the buffer held, and the
  -- source has kept the others. Where it waits, the source is empty or the buffer is full; the waker is registered
  -- with the source exactly if that is empty, and with the buffer exactly if that is full.
  pub poll_splice-Spliced :
      (count : ℕ) (self source : R.Rb)
      → 0 < count
      → Spliced count self source (poll_splice count self source)
  unfolding poll_splice
  poll_splice-Spliced count self source h =
      let bytes = min count (min (R.occupied_len source) (R.vacant_len self)) in
      elim (Bool-cases (ltb 0 bytes)) [
        | inl e ↦
            rw (e, poll_splice)
              (move_data-Spliced count bytes self source (ground (arith, e)) (omega arith)
                (omega arith) (omega arith))
        | inr e ↦
            rw (e, poll_splice)
              (
                R.is_empty_law source,
                R.is_full_law self,
                ground (
                  arith,
                  e,
                  h,
                  R.is_empty_law source,
                  R.is_full_law self,
                  R.occupied_len_law source,
                  R.vacant_len_law self,
                ),
              )
      ]
