-- ===== src/Mem/Kbuf/Splice.antt =====
-- libkernel/src/memory/kbuf.rs: `copy_slices` keeps the order of what it copies.
use moss.Common.{
  ℕ, ◌+◌, ◌-◌, ◌≤◌, ◌<◌, ◌≡◌, inl, inr, sym, ap, ap₂, ◌∙◌, false, min, List, ◌++◌, length, ◌==◌,
  Bool-cases, leb, leb→le, arith,
}
use mathlib.Core.Path.{subst}
use mathlib.Core.List.{append_assoc, append-nil}
use moss.Mem.Kbuf.{take, drop, copy_at, Copied, copy_third, copy_second, copy_slices}
use moss.Mem.Kbuf.Parts.{
  take-append, drop-append, take-append_past, drop-append_past, take_all, drop_all, take_add,
  drop_add, length-take, length-drop,
}

module _ {A : Type 0} where
  -- The first `copied` places of the destination are those of the source, and the others are as before.
  pub record IsCopy (sh st dh dt : List A) (amount : ℕ) (r : Copied A) : Type 0 where
    pub at_most : r.copied ≤ amount
    pub places : r.head ++ r.tail ≡ take r.copied (sh ++ st) ++ drop r.copied (dh ++ dt)

  -- one copy, that ends within the first parts
  within :
      (n : ℕ) (sh st dh dt : List A)
      → n ≤ length sh
      → n ≤ length dh
      → copy_at 0 n sh dh ++ dt ≡ take n (sh ++ st) ++ drop n (dh ++ dt)
  within n sh st dh dt h k =
      append_assoc (take n sh) (drop n dh) dt
      ∙ ap₂ (λ x y. x ++ y) (sym (take-append n sh st h)) (sym (drop-append n dh dt k))

  -- The destination's first part is full, and the copy goes on in its second.
  past_head :
      (m : ℕ) (sh st dh dt : List A)
      → length dh + m ≤ length sh
      → take (length dh) sh ++ copy_at 0 m (drop (length dh) sh) dt
        ≡ take (length dh + m) (sh ++ st) ++ drop (length dh + m) (dh ++ dt)
  past_head m sh st dh dt h =
      sym (append_assoc (take (length dh) sh) (take m (drop (length dh) sh)) (drop m dt))
      ∙ ap₂ (λ x y. x ++ y)
          (sym (take_add (length dh) m sh) ∙ sym (take-append (length dh + m) sh st h))
          (sym (drop-append_past m dh dt))

  pub take_first : (xs ys : List A) → take (length xs) (xs ++ ys) ≡ xs
  take_first xs ys =
      take-append (length xs) xs ys (omega arith) ∙ take_all (length xs) xs (omega arith)

  drop_first : (xs ys : List A) → drop (length xs) (xs ++ ys) ≡ ys
  drop_first xs ys =
      drop-append (length xs) xs ys (omega arith)
      ∙ ap (λ l. l ++ ys) (drop_all (length xs) xs (omega arith))

  -- The source's first part is used up, and the copy goes on with its second.
  past_source :
      (m : ℕ) (sh st dh dt : List A)
      → length sh + m ≤ length dh
      → copy_at (length sh) m st (sh ++ drop (length sh) dh) ++ dt
        ≡ take (length sh + m) (sh ++ st) ++ drop (length sh + m) (dh ++ dt)
  past_source m sh st dh dt h =
      let d = drop (length sh) dh in
      ap₂ (λ x y. (x ++ (take m st ++ drop m y)) ++ dt) (take_first sh d) (drop_first sh d)
      ∙ ap (λ l. l ++ dt) (sym (append_assoc sh (take m st) (drop m d)))
      ∙ append_assoc (sh ++ take m st) (drop m d) dt
      ∙ ap₂ (λ x y. x ++ y) (sym (take-append_past m sh st))
          (ap (λ l. l ++ dt) (sym (drop_add (length sh) m dh))
            ∙ sym (drop-append (length sh + m) dh dt h))

  -- A third copy that has no place left copies nothing.
  third_nothing :
      (o a n : ℕ) (st h t : List A)
      → length h ≤ n
      → copy_third o a n st h t ≡ record { copied = o - a; head = h; tail = t }
  unfolding copy_third
  third_nothing o a n st h t l =
      let e = drop_all n h l in
      let z : min a (min (length st) (length (drop n h))) ≡ 0 = omega (arith, ap length e) in
      let k : copy_at n 0 st h ≡ h = ap₂ (λ x y. x ++ y) (take_all n h l) e ∙ append-nil h in
      let k' : copy_at n (min a (min (length st) (length (drop n h)))) st h ≡ h =
        ap (λ x. copy_at n x st h) z ∙ k in
      let c : o - (a - min a (min (length st) (length (drop n h)))) ≡ o - a =
        ap (λ x. o - (a - x)) z ∙ omega arith in
      ap₂ (λ x y. record { copied = x; head = y; tail = t }) c k'

  -- a copy of `n` places, given by its parts
  IsCopy-parts :
      (sh st dh dt h t : List A) (amount n c : ℕ)
      → n ≤ amount
      → c ≡ n
      → h ++ t ≡ take n (sh ++ st) ++ drop n (dh ++ dt)
      → IsCopy sh st dh dt amount (record { copied = c; head = h; tail = t })
  IsCopy-parts sh st dh dt h t amount n c l e p = record {
    at_most = omega (arith, l, e);
    places = p ∙ ap (λ x. take x (sh ++ st) ++ drop x (dh ++ dt)) (sym e);
  }

  past_head_more :
      (amount m : ℕ) (sh st dh dt : List A)
      → length dh + m ≤ length sh
      → length dh + m ≤ amount
      → IsCopy sh st dh dt amount (
          copy_third amount
            (amount - length dh - m)
            (length dh)
            st
            (take (length dh) sh)
            (copy_at 0 m (drop (length dh) sh) dt))
  past_head_more amount m sh st dh dt h l =
      let t = copy_at 0 m (drop (length dh) sh) dt in
      let k : length (take (length dh) sh) ≤ length dh =
        omega (arith, length-take (length dh) sh (omega (arith, h))) in
      subst (IsCopy sh st dh dt amount)
        (sym
          (third_nothing amount (amount - length dh - m) (length dh) st (take (length dh) sh) t k))
        (IsCopy-parts sh st dh dt (take (length dh) sh) t amount (length dh + m) _ l
          (omega (arith, l)) (past_head m sh st dh dt h))

  past_head-IsCopy :
      (amount : ℕ) (sh st dh dt : List A)
      → length dh ≤ length sh
      → length dh < amount
      → IsCopy sh st dh dt amount
          (copy_second amount (amount - length dh) (length dh) sh st (take (length dh) sh) dt)
  unfolding copy_second
  past_head-IsCopy amount sh st dh dt h l =
      let m = min (amount - length dh) (min (length (drop (length dh) sh)) (length dt)) in
      let d = length-drop (length dh) sh in
      let k : length dh + m ≤ length sh = omega (arith, h, l, d) in
      let k' : length dh + m ≤ amount = omega (arith, h, l, d) in
      elim (Bool-cases (amount - length dh - m == 0)) [
        | inl e ↦
            rw (e, copy_second)
              (IsCopy-parts sh st dh dt (take (length dh) sh) (copy_at 0 m (drop (length dh) sh) dt)
                amount (length dh + m) amount k' (ground (arith, e, k'))
                (past_head m sh st dh dt k))
        | inr e ↦ rw (e, copy_second) (past_head_more amount m sh st dh dt k k')
      ]

  -- A second copy from a part that is used up copies nothing.
  second_nothing :
      (o a n : ℕ) (sh st h t : List A)
      → length sh ≤ n
      → 0 < a
      → copy_second o a n sh st h t ≡ copy_third o a n st h t
  unfolding copy_second
  second_nothing o a n sh st h t l p =
      let m = min a (min (length (drop n sh)) (length t)) in
      let z : m ≡ 0 = omega (arith, ap length (drop_all n sh l)) in
      let e : (a - m == 0) ≡ false = ground (arith, z, p) in
      rw (e, copy_second)
        (ap₂ (λ x y. copy_third o x n st h y) (omega (arith, z))
          (ap (λ x. copy_at 0 x (drop n sh) t) z))

  past_source-IsCopy :
      (amount : ℕ) (sh st dh dt : List A)
      → length sh < length dh
      → length sh < amount
      → IsCopy sh st dh dt amount
          (copy_second amount (amount - length sh) (length sh) sh st (sh ++ drop (length sh) dh) dt)
  unfolding copy_third
  past_source-IsCopy amount sh st dh dt h l =
      let n = length sh in
      let d = sh ++ drop n dh in
      let m = min (amount - n) (min (length st) (length (drop n d))) in
      let f = ap length (drop_first sh (drop n dh)) ∙ length-drop n dh in
      let k : n + m ≤ length dh = omega (arith, f, h) in
      subst (IsCopy sh st dh dt amount)
        (sym (second_nothing amount (amount - n) n sh st d dt (omega arith) (omega (arith, l))))
        (IsCopy-parts sh st dh dt (copy_at n m st d) dt amount (n + m) (amount - (amount - n - m))
          (omega (arith, l)) (omega (arith, l)) (past_source m sh st dh dt k))

  full_head : (sh dh : List A) → copy_at 0 (length dh) sh dh ≡ take (length dh) sh
  full_head sh dh =
      ap (λ l. take (length dh) sh ++ l) (drop_all (length dh) dh (omega arith))
      ∙ append-nil (take (length dh) sh)

  -- `copy_slices` copies in order.
  pub copy_slices-IsCopy :
      (sh st dh dt : List A) (amount : ℕ)
      → IsCopy sh st dh dt amount (copy_slices sh st dh dt amount)
  unfolding copy_slices
  copy_slices-IsCopy sh st dh dt amount =
      let n = min amount (min (length sh) (length dh)) in
      let w = within n sh st dh dt (omega arith) (omega arith) in
      elim (Bool-cases (amount - n == 0)) [
        | inl e ↦
            let k : amount ≡ n = ground (arith, e) in
            rw (e, copy_slices)
              (IsCopy-parts sh st dh dt (copy_at 0 n sh dh) dt amount n amount (omega arith) k w)
        | inr e ↦
            let g : n < amount = ground (arith, e) in
            rw (e, copy_slices)
              (elim (Bool-cases (leb (length dh) (length sh))) [
                | inl b ↦
                    let b' = leb→le (length dh) (length sh) b in
                    let k : n ≡ length dh = omega (arith, g, b') in
                    subst
                      (λ x.
                        IsCopy sh st dh dt amount
                          (copy_second amount (amount - x) x sh st (copy_at 0 x sh dh) dt))
                      (sym k)
                      (subst
                        (λ y.
                          IsCopy sh st dh dt amount
                            (copy_second amount (amount - length dh) (length dh) sh st y dt))
                        (sym (full_head sh dh))
                        (past_head-IsCopy amount sh st dh dt b' (omega (arith, g, k))))
                | inr b ↦
                    let b' : length sh < length dh = ground (arith, b) in
                    let k : n ≡ length sh = omega (arith, g, b') in
                    subst
                      (λ x.
                        IsCopy sh st dh dt amount
                          (copy_second amount (amount - x) x sh st (copy_at 0 x sh dh) dt))
                      (sym k)
                      (subst
                        (λ y.
                          IsCopy sh st dh dt amount
                            (copy_second amount (amount - length sh) (length sh) sh st y dt))
                        (ap (λ l. l ++ drop (length sh) dh)
                          (sym (take_all (length sh) sh (omega arith))))
                        (past_source-IsCopy amount sh st dh dt b' (omega (arith, g, k))))
              ])
      ]
