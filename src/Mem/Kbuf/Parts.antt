-- ===== src/Mem/Kbuf/Parts.antt =====
-- libkernel/src/memory/kbuf.rs: first places and remaining places of two lists in a row.
use moss.Common.{
  ℕ, zero, suc, ◌+◌, ◌-◌, ◌≤◌, ◌≡◌, refl, sym, ap, ◌∙◌, List, [], ◌∷◌, ◌++◌, length, arith,
}
use native.Mathlib.Nat.{suc-add, zero-add}
use moss.Mem.Kbuf.{take, drop}

module _ {A : Type 0} where
  pub take-append : (n : ℕ) (xs ys : List A) → n ≤ length xs → take n (xs ++ ys) ≡ take n xs
  take-append zero xs ys h = refl
  take-append (suc n) [] ys h = absurd (omega arith)
  take-append (suc n) (x ∷ xs) ys h = ap (λ l. x ∷ l) (take-append n xs ys (omega arith))

  pub drop-append : (n : ℕ) (xs ys : List A) → n ≤ length xs → drop n (xs ++ ys) ≡ drop n xs ++ ys
  drop-append zero xs ys h = refl
  drop-append (suc n) [] ys h = absurd (omega arith)
  drop-append (suc n) (x ∷ xs) ys h = drop-append n xs ys (omega arith)

  pub take-append_past :
      (n : ℕ) (xs ys : List A) → take (length xs + n) (xs ++ ys) ≡ xs ++ take n ys
  take-append_past n [] ys = ap (λ k. take k ys) (zero-add n)
  take-append_past n (x ∷ xs) ys =
      ap (λ k. take k (x ∷ (xs ++ ys))) (suc-add (length xs) n)
      ∙ ap (λ l. x ∷ l) (take-append_past n xs ys)

  pub drop-append_past : (n : ℕ) (xs ys : List A) → drop (length xs + n) (xs ++ ys) ≡ drop n ys
  drop-append_past n [] ys = ap (λ k. drop k ys) (zero-add n)
  drop-append_past n (x ∷ xs) ys =
      ap (λ k. drop k (x ∷ (xs ++ ys))) (suc-add (length xs) n) ∙ drop-append_past n xs ys

  pub take_all : (n : ℕ) (xs : List A) → length xs ≤ n → take n xs ≡ xs
  take_all zero [] h = refl
  take_all zero (x ∷ xs) h = absurd (omega arith)
  take_all (suc n) [] h = refl
  take_all (suc n) (x ∷ xs) h = ap (λ l. x ∷ l) (take_all n xs (omega arith))

  pub drop_all : (n : ℕ) (xs : List A) → length xs ≤ n → drop n xs ≡ []
  drop_all zero [] h = refl
  drop_all zero (x ∷ xs) h = absurd (omega arith)
  drop_all (suc n) [] h = refl
  drop_all (suc n) (x ∷ xs) h = drop_all n xs (omega arith)

  pub take_add : (n m : ℕ) (xs : List A) → take (n + m) xs ≡ take n xs ++ take m (drop n xs)
  take_add zero m xs = ap (λ k. take k xs) (zero-add m)
  take_add (suc n) m [] = ap (λ k. take k []) (suc-add n m) ∙ sym (take_nil m)
    where
      take_nil : (k : ℕ) → take {A = A} k [] ≡ []
      take_nil zero = refl
      take_nil (suc k) = refl
  take_add (suc n) m (x ∷ xs) =
      ap (λ k. take k (x ∷ xs)) (suc-add n m) ∙ ap (λ l. x ∷ l) (take_add n m xs)

  pub drop_add : (n m : ℕ) (xs : List A) → drop (n + m) xs ≡ drop m (drop n xs)
  drop_add zero m xs = ap (λ k. drop k xs) (zero-add m)
  drop_add (suc n) m [] = ap (λ k. drop k []) (suc-add n m) ∙ sym (drop_nil m)
    where
      drop_nil : (k : ℕ) → drop {A = A} k [] ≡ []
      drop_nil zero = refl
      drop_nil (suc k) = refl
  drop_add (suc n) m (x ∷ xs) = ap (λ k. drop k (x ∷ xs)) (suc-add n m) ∙ drop_add n m xs

  pub length-take : (n : ℕ) (xs : List A) → n ≤ length xs → length (take n xs) ≡ n
  length-take zero xs h = refl
  length-take (suc n) [] h = absurd (omega arith)
  length-take (suc n) (x ∷ xs) h = ap suc (length-take n xs (omega arith))

  pub length-drop : (n : ℕ) (xs : List A) → length (drop n xs) ≡ length xs - n
  length-drop zero xs = omega arith
  length-drop (suc n) [] = omega arith
  length-drop (suc n) (x ∷ xs) = omega (arith, length-drop n xs)
