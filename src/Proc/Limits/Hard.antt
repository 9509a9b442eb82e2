-- ===== src/Proc/Limits/Hard.antt =====
-- src/process/thread_group/rsrc_lim.rs: what keeps hard limits.
use moss.Common.{
  ℕ, zero, suc, ◌+◌, ◌≤◌, ◌<◌, ◌≡◌, ◌⊎◌, inl, inr, refl, ◌∙◌, Bool, true, false, not, ◌&&◌, none,
  some, List, [], ◌∷◌, All, ltb, arith, Bool-cases, Exec, done, panicked, Result, ok, err,
  KernelError, length, get_elem?, set, length-set,
}
use moss.Proc.Limits.{
  RlimitId, RLimit, ResourceLimits, variants, as_usize, try_from, get, set_limit, sys_prlimit64,
}

-- Sixteen limits, and none has a soft limit above its hard one.
pub record IsOrdered (s : ResourceLimits) : Type 0 where
  pub full : length s.limits ≡ 16
  pub soft : All (λ (l : RLimit). l.rlim_cur ≤ l.rlim_max) s.limits

-- Limit by limit, the hard limits of the second list are no higher.
abbrev pub NoneRaised : List RLimit → List RLimit → Type 0
NoneRaised [] [] = Unit
NoneRaised [] (y ∷ ys) = ⊥
NoneRaised (x ∷ xs) [] = ⊥
NoneRaised (x ∷ xs) (y ∷ ys) = (y.rlim_max ≤ x.rlim_max) × NoneRaised xs ys

NoneRaised-refl : (xs : List RLimit) → NoneRaised xs xs
NoneRaised-refl [] = tt
NoneRaised-refl (x ∷ xs) = (omega arith, NoneRaised-refl xs)

NoneRaised-set :
    (xs : List RLimit) (i : ℕ) (old new : RLimit)
    → get_elem? xs i ≡ some old
    → new.rlim_max ≤ old.rlim_max
    → NoneRaised xs (set xs i new)
NoneRaised-set [] i old new e h = tt
NoneRaised-set (x ∷ xs) zero old new e h = (ground arith, NoneRaised-refl xs)
NoneRaised-set (x ∷ xs) (suc i) old new e h = (omega arith, NoneRaised-set xs i old new e h)

All-set :
    (P : RLimit → Type 0) (xs : List RLimit) (i : ℕ) (v : RLimit)
    → All P xs
    → P v
    → All P (set xs i v)
All-set P [] i v a h = tt
All-set P (x ∷ xs) zero v a h = (h, a.1)
All-set P (x ∷ xs) (suc i) v a h = (a.0, All-set P xs i v a.1 h)

get_elem?-some :
    (xs : List RLimit) (i : ℕ) → i < length xs → (x : RLimit) × (get_elem? xs i ≡ some x)
get_elem?-some [] i h = absurd (omega arith)
get_elem?-some (x ∷ xs) zero h = (x, refl)
get_elem?-some (x ∷ xs) (suc i) h = get_elem?-some xs i (omega arith)

-- The variants are in the order of their numbers from `k` on.
abbrev Numbered : ℕ → List RlimitId → Type 0
Numbered k [] = Unit
Numbered k (x ∷ xs) = (as_usize x ≡ k) × Numbered (k + 1) xs

Numbered-at :
    (k n : ℕ) (xs : List RlimitId)
    → Numbered k xs
    → ((n < length xs) × ((id : RlimitId) × (get_elem? xs n ≡ some id) × (as_usize id ≡ k + n)))
      ⊎ ((length xs ≤ n) × (get_elem? xs n ≡ none))
Numbered-at k n [] h = inr (omega arith, refl)
Numbered-at k zero (x ∷ xs) h = inl (omega arith, (x, refl, omega (arith, h.0)))
Numbered-at k (suc n) (x ∷ xs) h = elim (Numbered-at (k + 1) n xs h.1) [
  | inl (l, (id, e, u)) ↦ inl (omega arith, (id, e, omega arith))
  | inr (l, e) ↦ inr (omega arith, e)
]

-- The numbers below sixteen name the limits, and no other number does: each is read as a limit that has this number,
-- and a larger one is refused.
pub try_from-as_usize :
    (n : ℕ)
    → ((n < 16) × ((id : RlimitId) × (try_from n ≡ ok id) × (as_usize id ≡ n)))
      ⊎ ((16 ≤ n) × (try_from n ≡ err KernelError.invalid_value))
unfolding try_from as_usize
try_from-as_usize n =
    elim (Numbered-at 0 n variants (
      refl,
      (
        refl,
        (
          refl,
          (
            refl,
            (
              refl,
              (
                refl,
                (refl, (refl, (refl, (refl, (refl, (refl, (refl, (refl, (refl, (refl, tt)))))))))),
              ),
            ),
          ),
        ),
      ),
    )) [
      | inl (l, (id, e, u)) ↦ inl (l, (id, rw (e, try_from) refl, omega (arith, u)))
      | inr (l, e) ↦ inr (l, rw (e, try_from) refl)
    ]

-- What comes of a call on ordered limits.
abbrev pub Kept :
    ResourceLimits → RlimitId → RLimit → Bool → Exec (Result RLimit × ResourceLimits) → Type 0
Kept s id new privileged panicked = ⊥
Kept s id new privileged (done (err e, s')) =
    (s' ≡ s)
    × (((new.rlim_max < new.rlim_cur) × (e ≡ KernelError.invalid_value))
        ⊎ ((privileged ≡ false) × (e ≡ KernelError.not_permitted)))
Kept s id new privileged (done (ok old, s')) =
    (get_elem? s.limits (as_usize id) ≡ some old)
    × (s'.limits ≡ set s.limits (as_usize id) new)
    × IsOrdered s'
    × (privileged ≡ false → NoneRaised s.limits s'.limits)

-- On limits none of which is soft above hard, for a limit that there is: `set` does not panic; it stores the new limit
-- and answers the old one, the limits stay ordered, and a caller that is not privileged raises no hard limit;
-- or it refuses and changes nothing.
pub set_limit-Kept :
    (s : ResourceLimits) (id : RlimitId) (new : RLimit) (privileged : Bool)
    → IsOrdered s
    → as_usize id < 16
    → Kept s id new privileged (set_limit s id new privileged)
unfolding set_limit get
set_limit-Kept s id new privileged h l =
    let (old, e) = get_elem?-some s.limits (as_usize id) (omega (arith, h.full)) in
    rw (e, set_limit)
      (elim (Bool-cases (ltb new.rlim_max new.rlim_cur)) [
        | inl a ↦ rw a (refl, inl (ground arith, refl))
        | inr a ↦ elim (Bool-cases (ltb old.rlim_max new.rlim_max && not privileged)) [
          | inl b ↦ rw (a, b) (refl, inr (ground arith, refl))
          | inr b ↦
              rw (a, b)
                (
                  e,
                  refl,
                  record {
                    full = length-set s.limits (as_usize id) new ∙ h.full;
                    soft =
                        All-set (λ (l : RLimit). l.rlim_cur ≤ l.rlim_max) s.limits (as_usize id) new
                          h.soft (ground arith);
                  },
                  λ q. NoneRaised-set s.limits (as_usize id) old new e (ground arith),
                )
        ]
      ])

set_limit-privileged :
    (s : ResourceLimits) (id : RlimitId) (new old : RLimit)
    → get_elem? s.limits (as_usize id) ≡ some old
    → new.rlim_cur ≤ new.rlim_max
    → set_limit s id new true ≡ done (ok old, record { limits = set s.limits (as_usize id) new })
unfolding set_limit get
set_limit-privileged s id new old e o =
    let a : ltb new.rlim_max new.rlim_cur ≡ false = ground arith in
    let b : (ltb old.rlim_max new.rlim_max && not true) ≡ false = ground arith in
    rw (e, a, b, set_limit) refl

-- For limits that are ordered and a new one that is ordered too, the system call stores it, however high its hard
-- limit is and whoever calls.
pub sys_prlimit64_raises :
    (s : ResourceLimits) (n : ℕ) (new : RLimit) (copy_out : RLimit → Result (Unit {0}))
    → IsOrdered s
    → n < 16
    → new.rlim_cur ≤ new.rlim_max
    → ((l : RLimit) → copy_out l ≡ ok tt)
    → sys_prlimit64 n (some s) (some (ok new)) copy_out
      ≡ done (ok 0, some (record s { limits = set s.limits n new }))
unfolding sys_prlimit64
sys_prlimit64_raises s n new copy_out h l o c = elim (try_from-as_usize n) [
  | inr k ↦ absurd (omega (arith, k.0))
  | inl (k, (id, t, u)) ↦
      let (old, e) = get_elem?-some s.limits (as_usize id) (omega (arith, h.full, u)) in
      rw (t, sys_prlimit64)
        (rw (set_limit-privileged s id new old e o, sys_prlimit64)
          (rw (c old, sys_prlimit64) (rw u refl)))
]
