-- ===== src/Mem/Kbuf/Sizes.antt =====
-- libkernel/src/memory/kbuf.rs: `copy_slices` leaves the parts of the destination as long as they are, and copies
-- something where there is something to copy.
use moss.Common.{
  ℕ, ◌-◌, ◌≤◌, ◌≡◌, inl, inr, refl, ◌∙◌, min, List, ◌++◌, length, ◌==◌, Bool-cases, length-append,
  arith,
}
use moss.Mem.Kbuf.{take, drop, copy_at, Copied, copy_third, copy_second, copy_slices}
use moss.Mem.Kbuf.Parts.{length-take, length-drop}

module _ {A : Type 0} where
  -- The parts keep their lengths, and `n` places at least are copied.
  pub record Sizes (h t n : ℕ) (r : Copied A) : Type 0 where
    pub head_eq : length r.head ≡ h
    pub tail_eq : length r.tail ≡ t
    pub least : n ≤ r.copied

  length-copy_at :
      (at n : ℕ) (src dst : List A)
      → at ≤ length dst
      → n ≤ length src
      → n ≤ length (drop at dst)
      → length (copy_at at n src dst) ≡ length dst
  length-copy_at at n src dst a b c = omega (
    arith,
    length-append (take at dst) (take n src ++ drop n (drop at dst)),
    length-append (take n src) (drop n (drop at dst)),
    length-take at dst a,
    length-take n src b,
    length-drop n (drop at dst),
    length-drop at dst,
    a,
    c,
  )

  copy_third-Sizes :
      (o a n : ℕ) (st h t : List A)
      → n ≤ length h
      → Sizes (length h) (length t) (o - a) (copy_third o a n st h t)
  unfolding copy_third
  copy_third-Sizes o a n st h t l =
      let m = min a (min (length st) (length (drop n h))) in
      record {
        head_eq = length-copy_at n m st h l (omega arith) (omega arith);
        tail_eq = refl;
        least = omega arith;
      }

  copy_second-Sizes :
      (o a n : ℕ) (sh st h t : List A)
      → n ≤ length h
      → Sizes (length h) (length t) (o - a) (copy_second o a n sh st h t)
  unfolding copy_second
  copy_second-Sizes o a n sh st h t l =
      let m = min a (min (length (drop n sh)) (length t)) in
      let t' = copy_at 0 m (drop n sh) t in
      let e : length t' ≡ length t =
        length-copy_at 0 m (drop n sh) t (omega arith) (omega arith) (omega arith) in
      elim (Bool-cases (a - m == 0)) [
        | inl b ↦ rw (b, copy_second) (record { head_eq = refl; tail_eq = e; least = omega arith })
        | inr b ↦
            let k = copy_third-Sizes o (a - m) n st h t' l in
            rw (b, copy_second)
              (record {
                head_eq = k.head_eq;
                tail_eq = k.tail_eq ∙ e;
                least = omega (arith, k.least);
              })
      ]

  pub copy_slices-Sizes :
      (sh st dh dt : List A) (amount : ℕ)
      → Sizes
          (length dh)
          (length dt)
          (min amount (min (length sh) (length dh)))
          (copy_slices sh st dh dt amount)
  unfolding copy_slices
  copy_slices-Sizes sh st dh dt amount =
      let n = min amount (min (length sh) (length dh)) in
      let h' = copy_at 0 n sh dh in
      let e : length h' ≡ length dh =
        length-copy_at 0 n sh dh (omega arith) (omega arith) (omega arith) in
      elim (Bool-cases (amount - n == 0)) [
        | inl b ↦ rw (b, copy_slices) (record { head_eq = e; tail_eq = refl; least = omega arith })
        | inr b ↦
            let k = copy_second-Sizes amount (amount - n) n sh st h' dt (omega (arith, e)) in
            rw (b, copy_slices)
              (record {
                head_eq = k.head_eq ∙ e;
                tail_eq = k.tail_eq;
                least = omega (arith, k.least);
              })
      ]
