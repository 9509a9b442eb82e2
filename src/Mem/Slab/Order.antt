-- ===== src/Mem/Slab/Order.antt =====
-- libkernel/src/memory/allocators/slab/mod.rs: the size of the objects for a layout.
use moss.Common.{
  ℕ, zero, suc, ◌+◌, ◌^◌, ◌≤◌, ◌<◌, ◌≡◌, inl, inr, sym, leb→le, ==_iff, false, Option, none, some,
  max, leb, ltb, ◌==◌, if◌then◌else◌, Bool-cases, arith,
}
use mathlib.Core.Path.{subst}
use native.Mathlib.Nat.{eq-or-lt_of_le}
use moss.Mem.Slab.{slab_max_obj_shift}
use moss.Mem.Slab.Manager.{log2_ceil, alloc_order}

log2_ceil-fits : (n i size : ℕ) → size ≤ 2 ^ (i + n) → size ≤ 2 ^ log2_ceil n i size
unfolding log2_ceil
log2_ceil-fits zero i size h = subst (λ x. size ≤ 2 ^ x) (omega arith) h
log2_ceil-fits (suc n) i size h = elim (Bool-cases (leb size (2 ^ i))) [
  | inl e ↦ rw (e, log2_ceil) (ground (arith, e))
  | inr e ↦
      rw (e, log2_ceil) (log2_ceil-fits n (suc i) size (subst (λ x. size ≤ 2 ^ x) (omega arith) h))
]

not_yet : (size i j : ℕ) → size ≤ 2 ^ j → i ≤ j → leb size (2 ^ i) ≡ false → suc i ≤ j
not_yet size i j h a e = elim (eq-or-lt_of_le a) [
  | inl k ↦
      absurd (let b : size ≤ 2 ^ i = subst (λ x. size ≤ 2 ^ x) (sym k) h in ground (arith, b, e))
  | inr k ↦ omega (arith, k)
]

log2_ceil-least : (n i size j : ℕ) → size ≤ 2 ^ j → i ≤ j → j ≤ i + n → log2_ceil n i size ≤ j
unfolding log2_ceil
log2_ceil-least zero i size j h a b = a
log2_ceil-least (suc n) i size j h a b = elim (Bool-cases (leb size (2 ^ i))) [
  | inl e ↦ rw (e, log2_ceil) a
  | inr e ↦
      rw (e, log2_ceil)
        (log2_ceil-least n (suc i) size j h (not_yet size i j h a e) (omega (arith, b)))
]

-- What `alloc_order` is to answer for a layout.
abbrev pub FitsOrder : ℕ → ℕ → Option ℕ → Type 0
FitsOrder size align none = 2 ^ slab_max_obj_shift < max size align
FitsOrder size align (some k) =
    (size ≤ 2 ^ k) × (align ≤ 2 ^ k) × (1 ≤ k) × (k ≤ slab_max_obj_shift)

order-FitsOrder :
    (size align o : ℕ)
    → max size align ≤ 2 ^ o
    → (max size align ≤ 2 ^ slab_max_obj_shift → o ≤ slab_max_obj_shift)
    → FitsOrder size align
        (if ltb slab_max_obj_shift o then none else if o == 0 then some 1 else some o)
order-FitsOrder size align o f l = elim (Bool-cases (ltb slab_max_obj_shift o)) [
  | inl e ↦ rw e (elim (Bool-cases (leb (max size align) (2 ^ slab_max_obj_shift))) [
    | inl b ↦ absurd (let k = l (leb→le _ _ b) in ground (arith, e, k))
    | inr b ↦ ground (arith, b)
  ])
  | inr e ↦ elim (Bool-cases (o == 0)) [
    | inl z ↦
        let k : max size align ≤ 2 ^ 0 = subst (λ x. max size align ≤ 2 ^ x) ((==_iff o 0).0 z) f in
        rw (e, z) (omega (arith, k), omega (arith, k), omega arith, omega arith)
    | inr z ↦ rw (e, z) (omega (arith, f), omega (arith, f), ground (arith, z), ground (arith, e))
  ]
]

-- For a size and an alignment of at most 2 ^ 63, `alloc_order` answers an order from 1 to 13 such that objects of
-- that order are not smaller than the size nor than the alignment; it answers none only where the size or the
-- alignment is above 8 KiB.
pub alloc_order-FitsOrder :
    (size align : ℕ)
    → size ≤ 2 ^ 63
    → align ≤ 2 ^ 63
    → FitsOrder size align (alloc_order size align)
unfolding alloc_order
alloc_order-FitsOrder size align h1 h2 =
    let m = max size align in
    order-FitsOrder size align (log2_ceil 63 0 m) (log2_ceil-fits 63 0 m (omega (arith, h1, h2)))
      (λ k. log2_ceil-least 63 0 m slab_max_obj_shift k (omega arith) (omega arith))
