-- ===== src/Mem/Smalloc/Search.antt =====
-- libkernel/src/memory/allocators/smalloc.rs: the search for a place in one memory region.
use moss.Common.{
  done, panicked, ℕ, zero, suc, ◌+◌, ◌-◌, ◌%◌, ◌/◌, ◌*◌, ◌≤◌, ◌<◌, ◌≡◌, ◌⊎◌, inl, inr, refl, true,
  false, List, [], ◌∷◌, All, leb, usize_mod, arith, Bool-cases, length,
}
use native.Mathlib.Nat.{div-add-mod, mul-mod_right, div-lt_iff_lt-mul}
use moss.Mem.Region.{
  Region, rounded_up, align_up, align_up-eq-done, is_power_of_two, contains, overlaps, end_address,
}
use moss.Mem.RegionList.Insert.{Spaced}
use moss.Mem.RegionList.Clear.{Clears}
use moss.Mem.Smalloc.{Location, at, passed, running, failed, skip_before, settle}

pub rounded_up-ge : (x a : ℕ) → 0 < a → x + a ≤ usize_mod → x ≤ rounded_up x a
unfolding rounded_up
rounded_up-ge x a p f = grind arith

pub rounded_up-eq-mul :
    (x a : ℕ) → 0 < a → x + a ≤ usize_mod → rounded_up x a ≡ a * ((x + a - 1) / a)
unfolding rounded_up
rounded_up-eq-mul x a p f =
    let y : (x + (a - 1)) % usize_mod ≡ x + a - 1 = omega arith in
    rw y (omega (arith, div-add-mod (x + a - 1) a))

pub rounded_up-mod : (x a : ℕ) → 0 < a → x + a ≤ usize_mod → rounded_up x a % a ≡ 0
rounded_up-mod x a p f = rw (rounded_up-eq-mul x a p f) (mul-mod_right a ((x + a - 1) / a))

pub rounded_up-least :
    (x a d : ℕ) → 0 < a → x + a ≤ usize_mod → x ≤ d → d % a ≡ 0 → rounded_up x a ≤ d
rounded_up-least x a d p f h e =
    let whole : a * (d / a) ≡ d = omega (arith, div-add-mod d a) in
    let q : (x + a - 1) / a < d / a + 1 = (div-lt_iff_lt-mul p).1 (grind arith) in
    rw (rounded_up-eq-mul x a p f) (grind arith)

-- No region ends so high that aligning its end, and adding the size, wraps.
abbrev pub IsRoomy : ℕ → ℕ → List Region → Type 0
IsRoomy size align res = All (λ r. r.address + r.size + align + size ≤ usize_mod) res

-- The `size` bytes at `d` lie within the region.
abbrev pub Within : Region → ℕ → ℕ → Type 0
Within mem d size = (mem.address ≤ d) × (d + size ≤ mem.address + mem.size)

abbrev pub WithinSome : List Region → ℕ → ℕ → Type 0
WithinSome [] d size = ⊥
WithinSome (m ∷ ms) d size = Within m d size ⊎ WithinSome ms d size

-- A later part of the reservations that says as much about every place from `bound` on.
pub record Later (size bound : ℕ) (res rest : List Region) : Type 0 where
  pub shorter : length rest ≤ length res
  pub weaken : (d : ℕ) → Clears d size res → Clears d size rest
  pub strengthen : (d : ℕ) → bound ≤ d → Clears d size rest → Clears d size res

Later-refl : (size bound : ℕ) (res : List Region) → Later size bound res res
Later-refl size bound res = record {
  shorter = omega arith;
  weaken = λ d c. c;
  strengthen = λ d h c. c;
}

Later-trans :
    (size bound : ℕ) (a b c : List Region)
    → Later size bound a b
    → Later size bound b c
    → Later size bound a c
Later-trans size bound a b c p q = record {
  shorter = omega (arith, p.shorter, q.shorter);
  weaken = λ d k. q.weaken d (p.weaken d k);
  strengthen = λ d h k. p.strengthen d h (q.strengthen d h k);
}

Later-raise :
    (size bound bound' : ℕ) (a b : List Region)
    → bound ≤ bound'
    → Later size bound a b
    → Later size bound' a b
Later-raise size bound bound' a b h p = record {
  shorter = p.shorter;
  weaken = p.weaken;
  strengthen = λ d k c. p.strengthen d (omega arith) c;
}

-- What `skip_before` leaves starts, if at all, with a region that ends behind `start`.
abbrev EndsBehind : ℕ → List Region → Type 0
EndsBehind start [] = Unit
EndsBehind start (r ∷ rs) = start < r.address + r.size

record Skipped (size align start : ℕ) (res rest : List Region) : Type 0 where
  later : Later size start res rest
  spaced : Spaced 0 rest
  roomy : IsRoomy size align rest
  beyond : EndsBehind start rest

skip_before-Skipped :
    (size align lo start : ℕ) (res : List Region)
    → Spaced lo res
    → IsRoomy size align res
    → Skipped size align start res (skip_before start res)
unfolding skip_before
skip_before-Skipped size align lo start [] s m = record {
  later = Later-refl size start [];
  spaced = tt;
  roomy = tt;
  beyond = tt;
}
skip_before-Skipped size align lo start (r ∷ rs) s m =
    elim (Bool-cases (leb (end_address r) start)) [
      | inr e ↦ rw e (record {
        later = Later-refl size start (r ∷ rs);
        spaced = (omega arith, s.1, s.2);
        roomy = m;
        beyond = ground arith;
      })
      | inl e ↦
          let ih = skip_before-Skipped size align (r.address + r.size + 1) start rs s.2 m.1 in
          rw e (record {
            later = record {
              shorter = omega (arith, ih.later.shorter);
              weaken = λ d c. ih.later.weaken d c.1;
              strengthen = λ d h c. (inl (ground arith), ih.later.strengthen d h c);
            };
            spaced = ih.spaced;
            roomy = ih.roomy;
            beyond = ih.beyond;
          })
    ]

-- Where every region starts behind a place, the place is clear of them.
Clears-below :
    (d size lo : ℕ) (res : List Region) → Spaced lo res → d + size ≤ lo → Clears d size res
Clears-below d size lo [] s h = tt
Clears-below d size lo (r ∷ rs) s h =
    (inr (omega arith), Clears-below d size (r.address + r.size + 1) rs s.2 (omega arith))

-- A search in one memory region ended: with the lowest place from `start` on that fits, or with none.
abbrev pub Settled : Region → ℕ → ℕ → ℕ → List Region → Location → Type 0
Settled mem size align start res (at d) =
    (start ≤ d) × Within mem d size × (d % align ≡ 0) × Clears d size res
Settled mem size align start res (passed rest) =
    Later size (mem.address + mem.size) res rest
    × Spaced 0 rest
    × IsRoomy size align rest
    × ((d : ℕ) → start ≤ d → d % align ≡ 0 → Within mem d size → Clears d size res → ⊥)
Settled mem size align start res running = ⊥
Settled mem size align start res failed = ⊥

pub skip_before-le : (start : ℕ) (res : List Region) → length (skip_before start res) ≤ length res
unfolding skip_before
skip_before-le start [] = omega arith
skip_before-le start (r ∷ rs) = ground (arith, skip_before-le start rs)

skip_before-drop :
    (start : ℕ) (r : Region) (rs : List Region)
    → end_address r ≤ start
    → length (skip_before start (r ∷ rs)) ≤ length rs
unfolding skip_before
skip_before-drop start r rs h = ground (arith, skip_before-le start rs)

pub rounded_up-le : (x a : ℕ) → 0 < a → x + a ≤ usize_mod → rounded_up x a + 1 ≤ x + a
unfolding rounded_up
rounded_up-le x a p f = omega arith

overlaps-no :
    (start size : ℕ) (r : Region)
    → start + size < usize_mod
    → r.address + r.size < usize_mod
    → start < r.address + r.size
    → overlaps (record { address = start; size = size }) r ≡ false
    → start + size ≤ r.address
unfolding overlaps
overlaps-no start size r g h a e = ground arith

overlaps-yes :
    (start size : ℕ) (r : Region)
    → start + size < usize_mod
    → overlaps (record { address = start; size = size }) r ≡ true
    → r.address < start + size
unfolding overlaps
overlaps-yes start size r g e = ground arith

module _ (mem : Region) (size align : ℕ) (p : 0 < size) (q : 0 < align)
    (two : is_power_of_two align ≡ true) (o : 0 < mem.size)
    (f : mem.address + mem.size + align + size ≤ usize_mod) where
  fits-yes :
      (start : ℕ)
      → start + size ≤ usize_mod
      → contains mem (record { address = start; size = size }) ≡ true
      → Within mem start size
  unfolding contains
  fits-yes start g c = ground arith

  fits-no :
      (start d : ℕ)
      → start + size ≤ usize_mod
      → mem.address ≤ start
      → contains mem (record { address = start; size = size }) ≡ false
      → start ≤ d
      → Within mem d size
      → ⊥
  unfolding contains
  fits-no start d g h c l w = ground arith

  -- A search that goes on behind the region `r`, which reaches into the candidate.
  settle-moved :
      (start next : ℕ) (res rest : List Region) (r : Region) (x : Location)
      → Within mem start size
      → start < r.address + r.size
      → r.address < start + size
      → next ≡ rounded_up (r.address + r.size) align
      → r.address + r.size + align + size ≤ usize_mod
      → Later size start res (r ∷ rest)
      → Settled mem size align next (r ∷ rest) x
      → Settled mem size align start res x
  settle-moved start next res rest r (at d) w a b e m l (g, i, z, c) =
      let h : start ≤ d = omega (arith, rounded_up-ge (r.address + r.size) align q (omega arith)) in
      (h, i, z, l.strengthen d h c)
  settle-moved start next res rest r (passed later) w a b e m l (k, s, t, u) = (
    Later-trans size _ _ _ _ (Later-raise size start (mem.address + mem.size) _ _ (omega arith) l)
        k,
    s,
    t,
    λ d g z i c.
        let c' = l.weaken d c in
        let h : r.address + r.size ≤ d = omega (arith, c'.0) in
        u d (omega (arith, rounded_up-least (r.address + r.size) align d q (omega arith) h z)) z i
          c',
  )
  settle-moved start next res rest r running w a b e m l h = h
  settle-moved start next res rest r failed w a b e m l h = h

  next_round : ℕ → ℕ → List Region → Location
  next_round n start [] = at start
  next_round n start (r ∷ rs) = elim (overlaps (record { address = start; size = size }) r) [
    | false ↦ at start
    | true ↦ elim (align_up (end_address r) align) [
      | panicked ↦ failed
      | done next ↦ settle n mem size align next (r ∷ rs)
    ]
  ]

  abbrev pub Goal : ℕ → ℕ → Type 0
  Goal n start =
      (res : List Region)
      → length (skip_before start res) < n
      → mem.address ≤ start
      → start + size ≤ usize_mod
      → start % align ≡ 0
      → Spaced 0 res
      → IsRoomy size align res
      → Settled mem size align start res (settle n mem size align start res)

  next_round-Settled :
      (n start : ℕ) (res rest : List Region)
      → Within mem start size
      → start % align ≡ 0
      → length rest < suc n
      → Skipped size align start res rest
      → ((next : ℕ) → Goal n next)
      → Settled mem size align start res (next_round n start rest)
  unfolding next_round
  next_round-Settled n start res [] w e b k go =
      (omega arith, w, e, k.later.strengthen start (omega arith) tt)
  next_round-Settled n start res (r ∷ rs) w e b k go =
      elim (Bool-cases (overlaps (record { address = start; size = size }) r)) [
        | inr v ↦
            let far = overlaps-no start size r (omega arith) k.spaced.1 k.beyond v in
            rw (v, next_round)
              (
                omega arith,
                w,
                e,
                k.later.strengthen start (omega arith) (
                    Clears-below start size r.address (r ∷ rs) (omega arith, k.spaced.1, k.spaced.2)
                      far),
              )
        | inl v ↦
            let near = overlaps-yes start size r (omega arith) v in
            let plain : end_address r ≡ r.address + r.size = omega (arith, k.spaced.1) in
            let room : r.address + r.size + align + size ≤ usize_mod = k.roomy.0 in
            let fits : r.address + r.size + align ≤ usize_mod = omega arith in
            let up = rounded_up-ge (r.address + r.size) align q fits in
            rw (v, align_up-eq-done (end_address r) align two, next_round)
              (rw plain (
                settle-moved start (rounded_up (r.address + r.size) align) res rs r _ w k.beyond
                  near refl room k.later
                  (go (rounded_up (r.address + r.size) align) (r ∷ rs)
                    (omega (
                      arith,
                      skip_before-drop (rounded_up (r.address + r.size) align) r rs
                          (omega (arith, plain)),
                    ))
                    (omega arith) (omega (arith, rounded_up-le (r.address + r.size) align q fits))
                    (rounded_up-mod (r.address + r.size) align q fits) k.spaced k.roomy)))
      ]

  pub settle-Settled : (n start : ℕ) → Goal n start
  unfolding settle next_round
  settle-Settled zero start res b h g e s m = absurd (omega arith)
  settle-Settled (suc n) start res b h g e s m =
      elim (Bool-cases (contains mem (record { address = start; size = size }))) [
        | inr c ↦
            rw (c, settle)
              (
                Later-refl size (mem.address + mem.size) res,
                s,
                m,
                λ d l z i k. fits-no start d g h c l i,
              )
        | inl c ↦
            rw (c, settle)
              (next_round-Settled n start res (skip_before start res) (fits-yes start g c) e b
                (skip_before-Skipped size align 0 start res s m) (settle-Settled n))
      ]
