-- ===== src/Proc/Creds/Confined.antt =====
-- src/process/creds.rs: what a process without CAP_SETUID or CAP_SETGID can make of its identities.
use moss.Common.{
  ℕ, Bool, true, false, ◌||◌, ◌==◌, ◌≡◌, ◌⊎◌, refl, List, [], ◌∷◌, arith, Result, ◌∙◌,
}
use moss.Proc.Bitflags.{Bitflags}
use moss.Proc.Creds.{
  Credentials, can_setuid, can_setgid, sys_setuid, sys_setgid, sys_setreuid, sys_setregid,
  sys_setresuid, sys_setresgid,
}

-- A system call that changes identities.
pub data Call : Type 0 where
  setuid : ℕ → Call
  setgid : ℕ → Call
  setreuid : ℕ → ℕ → Call
  setregid : ℕ → ℕ → Call
  setresuid : ℕ → ℕ → ℕ → Call
  setresgid : ℕ → ℕ → ℕ → Call

module _ (B : Bitflags) where
  abbrev pub call : Credentials B → Call → Result ℕ × Credentials B
  call c (setuid u) = sys_setuid B c u
  call c (setgid g) = sys_setgid B c g
  call c (setreuid r e) = sys_setreuid B c r e
  call c (setregid r e) = sys_setregid B c r e
  call c (setresuid r e s) = sys_setresuid B c r e s
  call c (setresgid r e s) = sys_setresgid B c r e s

  abbrev pub run : Credentials B → List Call → Credentials B
  run c [] = c
  run c (k ∷ ks) = run (call c k).1 ks

  -- One test holds of the three user identities.
  abbrev UidsPass : (ℕ → Bool) → Credentials B → Type 0
  UidsPass p c = (p c.uid ≡ true) × (p c.euid ≡ true) × (p c.suid ≡ true)

  abbrev GidsPass : (ℕ → Bool) → Credentials B → Type 0
  GidsPass p c = (p c.gid ≡ true) × (p c.egid ≡ true) × (p c.sgid ≡ true)

  call-UidsPass :
      (p : ℕ → Bool) (c : Credentials B) (k : Call)
      → can_setuid B c ≡ false
      → UidsPass p c
      → UidsPass p (call c k).1 × ((call c k).1.caps ≡ c.caps)
  unfolding sys_setuid sys_setgid sys_setreuid sys_setregid sys_setresuid sys_setresgid
  call-UidsPass p c (setuid u) h q = ground arith
  call-UidsPass p c k h q = ground arith

  call-GidsPass :
      (p : ℕ → Bool) (c : Credentials B) (k : Call)
      → can_setgid B c ≡ false
      → GidsPass p c
      → GidsPass p (call c k).1 × ((call c k).1.caps ≡ c.caps)
  unfolding sys_setuid sys_setgid sys_setreuid sys_setregid sys_setresuid sys_setresgid
  call-GidsPass p c (setuid u) h q = ground arith
  call-GidsPass p c k h q = ground arith

  run-UidsPass :
      (p : ℕ → Bool) (c : Credentials B) (ks : List Call)
      → can_setuid B c ≡ false
      → UidsPass p c
      → UidsPass p (run c ks) × ((run c ks).caps ≡ c.caps)
  run-UidsPass p c [] h q = (q, refl)
  run-UidsPass p c (k ∷ ks) h q =
      let s = call-UidsPass p c k h q in
      let r = run-UidsPass p (call c k).1 ks (rw s.1 h) s.0 in (r.0, r.1 ∙ s.1)

  run-GidsPass :
      (p : ℕ → Bool) (c : Credentials B) (ks : List Call)
      → can_setgid B c ≡ false
      → GidsPass p c
      → GidsPass p (run c ks) × ((run c ks).caps ≡ c.caps)
  run-GidsPass p c [] h q = (q, refl)
  run-GidsPass p c (k ∷ ks) h q =
      let s = call-GidsPass p c k h q in
      let r = run-GidsPass p (call c k).1 ks (rw s.1 h) s.0 in (r.0, r.1 ∙ s.1)

  -- `x` is one of three identities.
  abbrev pub OneOf : ℕ → ℕ → ℕ → ℕ → Type 0
  OneOf x a b c = (x ≡ a) ⊎ ((x ≡ b) ⊎ (x ≡ c))

  abbrev one_of : ℕ → ℕ → ℕ → ℕ → Bool
  one_of a b c x = x == a || (x == b || x == c)

  one_of_all :
      (a b c : ℕ) → (one_of a b c a ≡ true) × (one_of a b c b ≡ true) × (one_of a b c c ≡ true)
  one_of_all a b c = ground arith

  one_of-OneOf : (x a b c : ℕ) → one_of a b c x ≡ true → OneOf x a b c
  one_of-OneOf x a b c h = ground arith

  -- Without CAP_SETUID no sequence of the six calls gives a process a user identity that it did not
  -- have among its real, effective and saved ones, nor changes its capabilities.
  pub uids_confined :
      (c : Credentials B) (ks : List Call)
      → can_setuid B c ≡ false
      → OneOf (run c ks).uid c.uid c.euid c.suid
        × OneOf (run c ks).euid c.uid c.euid c.suid
        × OneOf (run c ks).suid c.uid c.euid c.suid
        × ((run c ks).caps ≡ c.caps)
  uids_confined c ks h =
      let r = run-UidsPass (one_of c.uid c.euid c.suid) c ks h (one_of_all c.uid c.euid c.suid) in
      (one_of-OneOf _ _ _ _ r.0.0, one_of-OneOf _ _ _ _ r.0.1, one_of-OneOf _ _ _ _ r.0.2, r.1)

  -- Without CAP_SETGID no sequence of the six calls gives a process a group identity that it did not
  -- have among its real, effective and saved ones, nor changes its capabilities.
  pub gids_confined :
      (c : Credentials B) (ks : List Call)
      → can_setgid B c ≡ false
      → OneOf (run c ks).gid c.gid c.egid c.sgid
        × OneOf (run c ks).egid c.gid c.egid c.sgid
        × OneOf (run c ks).sgid c.gid c.egid c.sgid
        × ((run c ks).caps ≡ c.caps)
  gids_confined c ks h =
      let r = run-GidsPass (one_of c.gid c.egid c.sgid) c ks h (one_of_all c.gid c.egid c.sgid) in
      (one_of-OneOf _ _ _ _ r.0.0, one_of-OneOf _ _ _ _ r.0.1, one_of-OneOf _ _ _ _ r.0.2, r.1)
