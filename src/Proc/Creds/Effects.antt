-- ===== src/Proc/Creds/Effects.antt =====
-- src/process/creds.rs: the exact effect of the calls that set user identities.
use moss.Common.{ℕ, true, ◌≡◌, ◌⊎◌, ◌≢◌, arith, Result, ok, err, KernelError, usize_max}
use moss.Proc.Bitflags.{Bitflags}
use moss.Proc.Creds.{
  Credentials, new_id, new_or, can_setuid, sys_setuid, sys_setreuid, sys_setresuid, sys_setgid,
  sys_setregid, sys_setresgid,
}
use moss.Proc.Creds.Confined.{Call, call}

module _ (B : Bitflags) where
  -- Success with 0, or EPERM and no change.
  abbrev pub Settled : Credentials B → Result ℕ × Credentials B → Type 0
  Settled c r = (r.0 ≡ ok 0) ⊎ (r ≡ (err KernelError.not_permitted, c))

  sys_setuid-cases : (c : Credentials B) (u : ℕ) → Settled c (sys_setuid B c u)
  unfolding sys_setuid
  sys_setuid-cases c u = ground arith

  sys_setgid-cases : (c : Credentials B) (u : ℕ) → Settled c (sys_setgid B c u)
  unfolding sys_setgid
  sys_setgid-cases c u = ground arith

  sys_setreuid-cases : (c : Credentials B) (r e : ℕ) → Settled c (sys_setreuid B c r e)
  unfolding sys_setreuid
  sys_setreuid-cases c r e = ground arith

  sys_setregid-cases : (c : Credentials B) (r e : ℕ) → Settled c (sys_setregid B c r e)
  unfolding sys_setregid
  sys_setregid-cases c r e = ground arith

  sys_setresuid-cases : (c : Credentials B) (r e s : ℕ) → Settled c (sys_setresuid B c r e s)
  unfolding sys_setresuid
  sys_setresuid-cases c r e s = ground arith

  sys_setresgid-cases : (c : Credentials B) (r e s : ℕ) → Settled c (sys_setresgid B c r e s)
  unfolding sys_setresgid
  sys_setresgid-cases c r e s = ground arith

  -- Each of the six calls answers 0, or it answers EPERM and changes nothing.
  pub call-Settled : (c : Credentials B) (k : Call) → Settled c (call B c k)
  call-Settled c (Call.setuid u) = sys_setuid-cases c u
  call-Settled c (Call.setgid u) = sys_setgid-cases c u
  call-Settled c (Call.setreuid r e) = sys_setreuid-cases c r e
  call-Settled c (Call.setregid r e) = sys_setregid-cases c r e
  call-Settled c (Call.setresuid r e s) = sys_setresuid-cases c r e s
  call-Settled c (Call.setresgid r e s) = sys_setresgid-cases c r e s

  -- With CAP_SETUID, `setresuid` succeeds, and sets each identity whose argument is not `usize::MAX` to
  -- the low 32 bits of that argument; it leaves the others, the groups and the capabilities alone.
  pub setresuid_privileged :
      (c : Credentials B) (r e s : ℕ)
      → can_setuid B c ≡ true
      → sys_setresuid B c r e s ≡ (
        ok 0,
        record c { uid = new_or B r c.uid; euid = new_or B e c.euid; suid = new_or B s c.suid },
      )
  unfolding sys_setresuid
  setresuid_privileged c r e s h = ground arith

  -- `setreuid` sets the saved identity to the new effective one when it succeeds and a real identity is
  -- given, or an effective identity is given that differs from the old real one; else it keeps it.
  pub setreuid_saved :
      (c : Credentials B) (r e : ℕ)
      → (sys_setreuid B c r e).0 ≡ ok 0
      → (((r ≢ usize_max) ⊎ ((e ≢ usize_max) × (new_id e ≢ c.uid)))
          × ((sys_setreuid B c r e).1.suid ≡ (sys_setreuid B c r e).1.euid))
        ⊎ ((r ≡ usize_max)
            × ((e ≡ usize_max) ⊎ (new_id e ≡ c.uid))
            × ((sys_setreuid B c r e).1.suid ≡ c.suid))
  unfolding sys_setreuid
  setreuid_saved c r e h = ground arith
