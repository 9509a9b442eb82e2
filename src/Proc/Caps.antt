-- ===== src/Proc/Caps.antt =====
-- libkernel/src/proc/caps.rs: the five capability sets of a process.
pub mod Bounded
use moss.Common.{ℕ, Bool, true, false, not, ◌&&◌, ◌||◌, if◌then◌else◌, Result, ok, err, KernelError}
use moss.Proc.Bitflags.{Bitflags}

-- The flags that the kernel tests, by their bit.
abbrev pub cap_setgid : ℕ
cap_setgid = 6

abbrev pub cap_setuid : ℕ
cap_setuid = 7

abbrev pub cap_setpcap : ℕ
cap_setpcap = 8

module _ (B : Bitflags) where
  open B use {Flags, bit, all, empty, contains}

  pub record Capabilities : Type 0 where
    pub effective : Flags
    pub permitted : Flags
    pub inheritable : Flags
    pub ambient : Flags
    pub bounding : Flags

  unfoldable pub new_cap : Flags → Capabilities
  new_cap cap = record {
    effective = cap;
    permitted = cap;
    inheritable = cap;
    ambient = cap;
    bounding = cap;
  }

  unfoldable pub new_root : Capabilities
  new_root = record {
    effective = all;
    permitted = all;
    inheritable = all;
    ambient = all;
    bounding = all;
  }

  unfoldable pub new_empty : Capabilities
  new_empty = record {
    effective = empty;
    permitted = empty;
    inheritable = empty;
    ambient = empty;
    bounding = empty;
  }

  -- `&mut self` comes back as the second component.
  unfoldable pub set_public :
      Capabilities → Capabilities → Flags → Flags → Flags → Result (Unit {0}) × Capabilities
  set_public self caller_caps effective permitted inheritable =
      if not (contains self.permitted permitted)
        || not (contains permitted effective)
        || (not (contains self.bounding inheritable)
            && not (contains caller_caps.effective (bit cap_setpcap)))
      then (err KernelError.not_permitted, self)
      else (
        ok tt,
        record self { effective = effective; permitted = permitted; inheritable = inheritable },
      )

  unfoldable pub is_capable : Capabilities → Flags → Bool
  is_capable self cap = contains self.effective cap

  unfoldable pub check_capable : Capabilities → Flags → Result (Unit {0})
  check_capable self cap =
      if not (contains self.effective cap) then err KernelError.not_permitted else ok tt
