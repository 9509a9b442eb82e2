-- ===== src/Mem/Slab/Slots.antt =====
-- libkernel/src/memory/allocators/slab/slab.rs: the places of the objects of a slab.
use moss.Common.{
  ℕ, zero, suc, ◌+◌, ◌-◌, ◌*◌, ◌/◌, ◌%◌, ◌^◌, ◌≤◌, ◌<◌, ◌≡◌, ◌≢◌, ap, ◌∙◌, true, usize_mod, arith,
}
use native.Mathlib.Nat.{
  suc-mul, mul-div_cancel, div-mul-le_self, mul-le-mul_right, mul-le-mul_left,
  eq_of_mul-eq-mul_right, one-le-pow, pow-suc, mod-eq_of_lt,
}
use moss.Mem.Region.{contains_address}
use moss.Mem.Frames.{Slab}
use moss.Mem.Slab.{slab_size_bytes, slab_max_obj_shift, calc_obj_idx, capacity}

-- A slab of a size that `new` accepts, which ends within the address space.
pub record IsPlaced (s : Slab) : Type 0 where
  pub least : 1 ≤ s.obj_shift
  pub most : s.obj_shift ≤ slab_max_obj_shift
  pub fits : s.base + slab_size_bytes < usize_mod

width_pos : (k : ℕ) → 1 ≤ 2 ^ k
width_pos k = one-le-pow k 2 (omega arith)

width_two : (k : ℕ) → 1 ≤ k → 2 ≤ 2 ^ k
width_two zero h = absurd (omega arith)
width_two (suc k) h = omega (arith, pow-suc 2 k, width_pos k)

-- `n / w` places of `w` bytes lie within `n` bytes.
place_within : (n w i : ℕ) → 1 ≤ w → i < n / w → i * w + w ≤ n
place_within n w i p h =
    let e : suc i * w ≤ n / w * w = mul-le-mul_right w h in
    omega (arith, e, div-mul-le_self n w, suc-mul i w)

module _ (s : Slab) (h : IsPlaced s) where
  pub capacity_small : capacity s ≤ 8192
  unfolding capacity
  capacity_small =
      let w = 2 ^ s.obj_shift in
      omega (
        arith,
        mul-le-mul_left (slab_size_bytes / w) (width_two s.obj_shift h.least),
        div-mul-le_self slab_size_bytes w,
      )

  pub calc_obj_idx-eq : (i : ℕ) → i < capacity s → calc_obj_idx s i ≡ s.base + i * 2 ^ s.obj_shift
  unfolding calc_obj_idx capacity
  calc_obj_idx-eq i l = mod-eq_of_lt (
      omega
        (arith, place_within slab_size_bytes (2 ^ s.obj_shift) i (width_pos s.obj_shift) l, h.fits))

  pub calc_obj_idx_ne :
      (i j : ℕ) → i < capacity s → j < capacity s → i ≢ j → calc_obj_idx s i ≢ calc_obj_idx s j
  calc_obj_idx_ne i j l m n e = n (
      eq_of_mul-eq-mul_right (2 ^ s.obj_shift) (width_pos s.obj_shift) i j
        (omega (arith, e, calc_obj_idx-eq i l, calc_obj_idx-eq j m)))

  pub contains-calc_obj_idx :
      (i : ℕ)
      → i < capacity s
      → contains_address (record { address = s.base; size = slab_size_bytes }) (calc_obj_idx s i)
        ≡ true
  unfolding contains_address capacity
  contains-calc_obj_idx i l =
      let e = calc_obj_idx-eq i l in
      let k = place_within slab_size_bytes (2 ^ s.obj_shift) i (width_pos s.obj_shift) l in
      let p = width_pos s.obj_shift in ground (arith, e, k, p, h.fits)

  pub idx-calc_obj_idx :
      (i : ℕ) → i < capacity s → (calc_obj_idx s i - s.base) / 2 ^ s.obj_shift % 2 ^ 16 ≡ i
  idx-calc_obj_idx i l =
      let e : calc_obj_idx s i - s.base ≡ i * 2 ^ s.obj_shift =
        omega (arith, calc_obj_idx-eq i l) in
      ap (λ x. x / 2 ^ s.obj_shift % 2 ^ 16) e
      ∙ ap (λ x. x % 2 ^ 16) (mul-div_cancel i (width_pos s.obj_shift))
      ∙ mod-eq_of_lt (omega (arith, l, capacity_small))
