-- ===== src/FdTable/Search.antt =====
-- src/process/fd_table.rs: what the search for a free slot finds, and what a write to a slot changes.
use moss.Common.{
  ℕ, zero, suc, ◌+◌, ◌-◌, ◌≤◌, ◌<◌, true, false, ◌≡◌, refl, Option, none, some, List, [], ◌∷◌, ◌++◌,
  if◌then◌else◌, ◌==◌, arith, length, set, replicate, Bool-cases, inl, inr, ◌∙◌, dec_lt, ap,
  length-append, length-replicate, get_elem?-set_self, get_elem?-set_ne,
}
use moss.FdTable.{Entry, Table, slot, is_free, first_free, resized, insert_at, as_usize}

module _ {F : Type 0} where
  -- What `first_free` found: the first free slot of those from `i` on.
  pub record IsFirst (es : List (Option (Entry F))) (i n j : ℕ) : Type 0 where
    pub from : i ≤ j
    pub below : j < i + n
    pub free : is_free es j ≡ true
    pub busy : (k : ℕ) → i ≤ k → k < j → is_free es k ≡ false

  IsFirst-here :
      (es : List (Option (Entry F))) (i n j : ℕ)
      → is_free es i ≡ true
      → i ≡ j
      → IsFirst es i (suc n) j
  IsFirst-here es i n j free e = record {
    from = omega arith;
    below = omega arith;
    free = rw (← e) free;
    busy = λ k a b. absurd (omega arith);
  }

  -- A slot from `i` on is slot `i` or lies after it.
  busy_from :
      (es : List (Option (Entry F))) (i k : ℕ)
      → is_free es i ≡ false
      → i ≤ k
      → (i + 1 ≤ k → is_free es k ≡ false)
      → is_free es k ≡ false
  busy_from es i k busy a later = elim (dec_lt i k) [
    | yes p ↦ later (omega arith)
    | no p ↦ let e : k ≡ i = omega arith in rw e busy
  ]

  IsFirst-later :
      (es : List (Option (Entry F))) (i n j : ℕ)
      → is_free es i ≡ false
      → IsFirst es (i + 1) n j
      → IsFirst es i (suc n) j
  IsFirst-later es i n j busy r = record {
    from = omega arith;
    below = omega arith;
    free = r.free;
    busy = λ k a b. busy_from es i k busy a (λ p. r.busy k p b);
  }

  pub first_free-some :
      (es : List (Option (Entry F))) (i n j : ℕ) → first_free es i n ≡ some j → IsFirst es i n j
  unfolding first_free
  first_free-some es i zero j h = cc
  first_free-some es i (suc n) j h = elim (Bool-cases (is_free es i)) [
    | inl free ↦ IsFirst-here es i n j free (ground arith)
    | inr busy ↦ IsFirst-later es i n j busy (first_free-some es (i + 1) n j (ground arith))
  ]

  pub first_free-none :
      (es : List (Option (Entry F))) (i n : ℕ)
      → first_free es i n ≡ none
      → (k : ℕ) → i ≤ k
      → k < i + n
      → is_free es k ≡ false
  unfolding first_free
  first_free-none es i zero h k a b = absurd (omega arith)
  first_free-none es i (suc n) h k a b = elim (Bool-cases (is_free es i)) [
    | inl free ↦ absurd (ground arith)
    | inr busy ↦
        busy_from es i k busy a (λ p. first_free-none es (i + 1) n (ground arith) k p (omega arith))
  ]

  pub first_free-past : (es : List (Option (Entry F))) (i n : ℕ) → n ≡ 0 → first_free es i n ≡ none
  unfolding first_free
  first_free-past es i zero h = refl
  first_free-past es i (suc n) h = absurd (omega arith)

  pub slot-append_end :
      (es : List (Option (Entry F))) (e : Entry F) → slot (es ++ some e ∷ []) (length es) ≡ some e
  unfolding slot
  slot-append_end [] e = refl
  slot-append_end (x ∷ es) e = slot-append_end es e

  slot-out : (es : List (Option (Entry F))) (i : ℕ) → length es ≤ i → slot es i ≡ none
  unfolding slot
  slot-out [] i h = refl
  slot-out (x ∷ es) zero h = absurd (omega arith)
  slot-out (x ∷ es) (suc i) h = slot-out es i (omega arith)

  pub lt_of_busy : (es : List (Option (Entry F))) (i : ℕ) → is_free es i ≡ false → i < length es
  lt_of_busy es i h = elim (dec_lt i (length es)) [
    | yes p ↦ p
    | no p ↦ absurd (ground (arith, slot-out es i))
  ]

  slot-replicate : (n i : ℕ) → slot {F = F} (replicate n none) i ≡ none
  unfolding slot
  slot-replicate zero i = refl
  slot-replicate (suc n) zero = refl
  slot-replicate (suc n) (suc i) = slot-replicate n i

  slot-grown :
      (es : List (Option (Entry F))) (n i : ℕ) → slot (es ++ replicate n none) i ≡ slot es i
  unfolding slot
  slot-grown [] n i = slot-replicate n i
  slot-grown (x ∷ es) n zero = refl
  slot-grown (x ∷ es) n (suc i) = slot-grown es n i

  slot-resized : (es : List (Option (Entry F))) (n i : ℕ) → slot (resized es n) i ≡ slot es i
  slot-resized es n i = ground (arith, slot-grown es (n - length es) i)

  length-resized : (es : List (Option (Entry F))) (n : ℕ) → n ≤ length (resized es n)
  length-resized es n = ground (
    arith,
    length-append es (replicate (n - length es) none),
    length-replicate {A = Option (Entry F)} (n - length es) none,
  )

  pub slot-set :
      (es : List (Option (Entry F))) (i j : ℕ) (v : Option (Entry F))
      → i < length es
      → slot (set es i v) j ≡ (if i == j then v else slot es j)
  unfolding slot
  slot-set es i j v h = ground (arith, get_elem?-set_self es i v, get_elem?-set_ne es i j v)

  -- `insert_at` writes its slot and no other, growing the table where it must.
  pub slot-insert_at :
      (t : Table F) (fd : ℕ) (e : Entry F) (j : ℕ)
      → slot (insert_at t fd e).1.entries j
        ≡ (if as_usize fd == j then some e else slot t.entries j)
  unfolding insert_at
  slot-insert_at t fd e j =
      slot-set (resized t.entries (as_usize fd + 1)) (as_usize fd) j (some e)
        (omega (arith, length-resized t.entries (as_usize fd + 1)))
      ∙ ap (λ s. if as_usize fd == j then some e else s)
          (slot-resized t.entries (as_usize fd + 1) j)
