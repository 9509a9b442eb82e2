-- ===== src/Proc/Caps/Bounded.antt =====
-- libkernel/src/proc/caps.rs: what `set_public` can do to the capability sets, once and repeatedly.
use moss.Common.{true, false, ◌≡◌, ◌⊎◌, refl, List, [], ◌∷◌, ok, err, KernelError, arith, ◌∙◌}
use moss.Proc.Bitflags.{Bitflags}
use moss.Proc.Caps.{Capabilities, set_public, cap_setpcap}

-- One request of a caller, and the requests of many callers in order.
pub record Request (B : Bitflags) : Type 0 where
  pub caller : Capabilities B
  pub effective : B.Flags
  pub permitted : B.Flags
  pub inheritable : B.Flags

module _ (B : Bitflags) where
  open B use {Flags, bit, contains, contains_refl, contains_trans}

  abbrev pub set_all : Capabilities B → List (Request B) → Capabilities B
  set_all c [] = c
  set_all c (r ∷ rs) = set_all (set_public B c r.caller r.effective r.permitted r.inheritable).1 rs

  -- What can be used is permitted.
  abbrev pub IsBounded : Capabilities B → Type 0
  IsBounded c = contains c.permitted c.effective ≡ true

  step-IsBounded :
      (p : Flags) (c caller : Capabilities B) (e q i : Flags)
      → contains p c.permitted ≡ true
      → IsBounded c
      → (contains p (set_public B c caller e q i).1.permitted ≡ true)
        × IsBounded (set_public B c caller e q i).1
        × ((set_public B c caller e q i).1.bounding ≡ c.bounding)
        × ((set_public B c caller e q i).1.ambient ≡ c.ambient)
  unfolding set_public
  step-IsBounded p c caller e q i h b = ground (arith, contains_trans p c.permitted q)

  -- After any sequence of `set_public` calls, by any callers, the permitted set lies within the one at
  -- the start, the effective set lies within the permitted set if it did at the start, and the
  -- bounding and ambient sets are as they were.
  pub set_all-IsBounded :
      (c : Capabilities B) (rs : List (Request B))
      → IsBounded c
      → (contains c.permitted (set_all c rs).permitted ≡ true)
        × IsBounded (set_all c rs)
        × ((set_all c rs).bounding ≡ c.bounding)
        × ((set_all c rs).ambient ≡ c.ambient)
  set_all-IsBounded c rs h = go c rs (contains_refl c.permitted) h refl refl
    where
      go :
          (d : Capabilities B) (rs : List (Request B))
          → contains c.permitted d.permitted ≡ true
          → IsBounded d
          → d.bounding ≡ c.bounding
          → d.ambient ≡ c.ambient
          → (contains c.permitted (set_all d rs).permitted ≡ true)
            × IsBounded (set_all d rs)
            × ((set_all d rs).bounding ≡ c.bounding)
            × ((set_all d rs).ambient ≡ c.ambient)
      go d [] p b x y = (p, b, x, y)
      go d (r ∷ rs) p b x y =
          let s = step-IsBounded c.permitted d r.caller r.effective r.permitted r.inheritable p b in
          go (set_public B d r.caller r.effective r.permitted r.inheritable).1 rs s.0 s.1 (s.2 ∙ x)
            (s.3 ∙ y)

  -- `set_public` succeeds exactly when the new permitted set lies within the old one, the new effective
  -- set within the new permitted one, and the new inheritable set within the bounding set or the
  -- caller holds CAP_SETPCAP; otherwise it changes nothing.
  pub set_public_guard :
      (c caller : Capabilities B) (e q i : Flags)
      → ((contains c.permitted q ≡ true)
          × (contains q e ≡ true)
          × ((contains c.bounding i ≡ true) ⊎ (contains caller.effective (bit cap_setpcap) ≡ true))
          × (set_public B c caller e q i
              ≡ (ok tt, record c { effective = e; permitted = q; inheritable = i })))
        ⊎ (((contains c.permitted q ≡ false)
              ⊎ ((contains q e ≡ false)
                  ⊎ ((contains c.bounding i ≡ false)
                      × (contains caller.effective (bit cap_setpcap) ≡ false))))
            × (set_public B c caller e q i ≡ (err KernelError.not_permitted, c)))
  unfolding set_public
  set_public_guard c caller e q i = ground arith
