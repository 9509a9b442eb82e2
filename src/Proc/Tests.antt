-- ===== src/Proc/Tests.antt =====
-- The theorems about credentials, capabilities and limits at concrete processes.
use moss.Common.{
  ◌≤◌, ◌<◌, All, some, none, done, true, false, ◌≡◌, refl, List, [], ◌∷◌, arith, ok, err,
  KernelError, usize_max,
}
use moss.Proc.FlagLists.{bits}
use moss.Proc.Caps.{
  Capabilities, new_cap, new_empty, set_public, cap_setgid, cap_setuid, cap_setpcap, check_capable,
  is_capable,
}
use moss.Proc.Caps
use moss.Proc.Limits.{RlimitId, RLimit, default_limits, set_limit, sys_prlimit64, as_usize}
use moss.Proc.Limits.Hard.{IsOrdered, Kept, set_limit-Kept}
use moss.Proc.Caps.Bounded.{Request}
use moss.Proc.Creds.{Credentials}
use moss.Proc.Creds.Confined.{
  Call, setuid, setreuid, setresuid, setresgid, run, OneOf, uids_confined, gids_confined,
}

-- CAP_SETGID alone
abbrev group_caps : Capabilities bits
group_caps = new_cap bits (6 ∷ [])

abbrev no_caps : Capabilities bits
no_caps = new_empty bits

abbrev user : Credentials bits
user = record {
  uid = 1000;
  euid = 1001;
  suid = 1002;
  gid = 100;
  egid = 101;
  sgid = 102;
  caps = no_caps;
}

abbrev drop_all : Request bits
drop_all = record { caller = group_caps; effective = []; permitted = []; inheritable = [] }

abbrev swaps : List Call
swaps = setreuid 1002 1000 ∷ setuid 1002 ∷ setresgid 102 usize_max 100 ∷ setresuid 0 0 0 ∷ []

root_is_capable : is_capable bits (Caps.new_root bits) (7 ∷ []) ≡ true
unfolding is_capable Caps.new_root
root_is_capable = refl

user_is_not : check_capable bits no_caps (7 ∷ []) ≡ err KernelError.not_permitted
unfolding check_capable new_empty
user_is_not = refl

uids_confined_example :
    OneOf bits (run bits user swaps).uid 1000 1001 1002
    × OneOf bits (run bits user swaps).euid 1000 1001 1002
    × OneOf bits (run bits user swaps).suid 1000 1001 1002
    × ((run bits user swaps).caps ≡ no_caps)
unfolding is_capable new_empty
uids_confined_example = uids_confined bits user swaps refl

gids_confined_example :
    OneOf bits (run bits user swaps).gid 100 101 102
    × OneOf bits (run bits user swaps).egid 100 101 102
    × OneOf bits (run bits user swaps).sgid 100 101 102
    × ((run bits user swaps).caps ≡ no_caps)
unfolding is_capable new_empty
gids_confined_example = gids_confined bits user swaps refl

abbrev higher : RLimit
higher = record { rlim_cur = 5000; rlim_max = 9000 }

refuses_raise :
    set_limit default_limits RlimitId.nproc higher false
    ≡ done (err KernelError.not_permitted, default_limits)
unfolding set_limit default_limits
refuses_raise = refl

no_such_limit :
    sys_prlimit64 16 (some default_limits) none (λ l. ok tt)
    ≡ done (err KernelError.invalid_value, some default_limits)
unfolding sys_prlimit64
no_such_limit = refl

default_limits-IsOrdered : IsOrdered default_limits
unfolding default_limits
default_limits-IsOrdered = record { full = refl; soft = all_ordered }
  where
    all_ordered : All (λ (l : RLimit). l.rlim_cur ≤ l.rlim_max) default_limits.limits
    all_ordered = (
      omega arith,
      (
        omega arith,
        (
          omega arith,
          (
            omega arith,
            (
              omega arith,
              (
                omega arith,
                (
                  omega arith,
                  (
                    omega arith,
                    (
                      omega arith,
                      (
                        omega arith,
                        (
                          omega arith,
                          (
                            omega arith,
                            (omega arith, (omega arith, (omega arith, (omega arith, tt)))),
                          ),
                        ),
                      ),
                    ),
                  ),
                ),
              ),
            ),
          ),
        ),
      ),
    )

is_index : as_usize RlimitId.nproc < 16
unfolding as_usize
is_index = omega arith

set_limit-Kept_example :
    Kept default_limits RlimitId.nproc higher true
      (set_limit default_limits RlimitId.nproc higher true)
set_limit-Kept_example =
    set_limit-Kept default_limits RlimitId.nproc higher true default_limits-IsOrdered is_index
