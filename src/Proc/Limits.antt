-- ===== src/Proc/Limits.antt =====
-- src/process/thread_group/rsrc_lim.rs: the resource limits of a process.
pub mod Hard
use moss.Common.{
  ℕ, zero, suc, ◌+◌, ◌-◌, ◌*◌, ◌^◌, Bool, true, false, not, ◌&&◌, Option, none, some, List, [], ◌∷◌,
  ltb, leb, ◌==◌, if◌then◌else◌, usize_max, Exec, done, panicked, Result, ok, err, KernelError,
  length, get_elem?, set,
}

pub data RlimitId : Type 0 where
  cpu fsize data_size stack core rss nproc nofile memlock address_space locks sigpending msgqueue
        nice rprio rttime nlimits :
      RlimitId

unfoldable pub as_usize : RlimitId → ℕ
as_usize RlimitId.cpu = 0
as_usize RlimitId.fsize = 1
as_usize RlimitId.data_size = 2
as_usize RlimitId.stack = 3
as_usize RlimitId.core = 4
as_usize RlimitId.rss = 5
as_usize RlimitId.nproc = 6
as_usize RlimitId.nofile = 7
as_usize RlimitId.memlock = 8
as_usize RlimitId.address_space = 9
as_usize RlimitId.locks = 10
as_usize RlimitId.sigpending = 11
as_usize RlimitId.msgqueue = 12
as_usize RlimitId.nice = 13
as_usize RlimitId.rprio = 14
as_usize RlimitId.rttime = 15
as_usize RlimitId.nlimits = 16

-- The variants by their numbers, for the `transmute`.
abbrev pub variants : List RlimitId
variants =
    RlimitId.cpu ∷ RlimitId.fsize ∷ RlimitId.data_size ∷ RlimitId.stack ∷ RlimitId.core
    ∷ RlimitId.rss ∷ RlimitId.nproc ∷ RlimitId.nofile ∷ RlimitId.memlock ∷ RlimitId.address_space
    ∷ RlimitId.locks ∷ RlimitId.sigpending ∷ RlimitId.msgqueue ∷ RlimitId.nice ∷ RlimitId.rprio
    ∷ RlimitId.rttime ∷ []

unfoldable pub try_from : ℕ → Result RlimitId
try_from value = elim (get_elem? variants value) [
  | none ↦ err KernelError.invalid_value
  | some id ↦ ok id
]

abbrev pub rlim_infinity : ℕ
rlim_infinity = usize_max

pub record RLimit : Type 0 where
  pub rlim_cur : ℕ
  pub rlim_max : ℕ

pub record ResourceLimits : Type 0 where
  pub limits : List RLimit

abbrev both : ℕ → RLimit
both n = record { rlim_cur = n; rlim_max = n }

unfoldable pub default_limits : ResourceLimits
default_limits = record {
  limits =
      both rlim_infinity
      ∷ both rlim_infinity
      ∷ both rlim_infinity
      ∷ record { rlim_cur = 8 * 1024 * 1024; rlim_max = rlim_infinity }
      ∷ record { rlim_cur = 0; rlim_max = rlim_infinity }
      ∷ both rlim_infinity
      ∷ record { rlim_cur = 4096; rlim_max = 8192 }
      ∷ record { rlim_cur = 1024; rlim_max = 4096 }
      ∷ both 65536
      ∷ both rlim_infinity
      ∷ both rlim_infinity
      ∷ both 4096
      ∷ both 819200
      ∷ both 0
      ∷ both 0
      ∷ both rlim_infinity
      ∷ [];
}

-- An index behind the array panics.
unfoldable pub get : ResourceLimits → RlimitId → Exec RLimit
unfolding as_usize
get self id = elim (get_elem? self.limits (as_usize id)) [ none ↦ panicked | some l ↦ done l ]

unfoldable pub set_limit :
    ResourceLimits → RlimitId → RLimit → Bool → Exec (Result RLimit × ResourceLimits)
unfolding get as_usize
set_limit self id new_limit is_privileged = elim (get self id) [
  | panicked ↦ panicked
  | done old_limit ↦
      if ltb new_limit.rlim_max new_limit.rlim_cur
      then done (err KernelError.invalid_value, self)
      else if ltb old_limit.rlim_max new_limit.rlim_max && not is_privileged
      then done (err KernelError.not_permitted, self)
      else done (ok old_limit, record self { limits = set self.limits (as_usize id) new_limit })
]

-- `sys_prlimit64`, from the limits of the process that the search found (none where there is no such process).
-- The new limit is none for a null pointer, else what copying it in came to; the last argument is what copying the
-- old limit out comes to (`ok` for a null pointer).
unfoldable pub sys_prlimit64 :
    ℕ
    → Option ResourceLimits
    → Option (Result RLimit)
    → (RLimit → Result (Unit {0}))
    → Exec (Result ℕ × Option ResourceLimits)
unfolding try_from get set_limit
sys_prlimit64 resource found new_rlim copy_out = elim (try_from resource) [
  | err e ↦ done (err e, found)
  | ok id ↦ elim found [
    | none ↦ done (err KernelError.no_process, none)
    | some self ↦ elim new_rlim [
      | none ↦ elim (get self id) [
        | panicked ↦ panicked
        | done old_lim ↦ elim (copy_out old_lim) [
          | err e ↦ done (err e, some self)
          | ok _ ↦ done (ok 0, some self)
        ]
      ]
      | some copied ↦ elim copied [
        | err e ↦ done (err e, some self)
        | ok new_limit ↦ elim (set_limit self id new_limit true) [
          | panicked ↦ panicked
          | done (r, self') ↦ elim r [
            | err e ↦ done (err e, some self')
            | ok old_lim ↦ elim (copy_out old_lim) [
              | err e ↦ done (err e, some self')
              | ok _ ↦ done (ok 0, some self')
            ]
          ]
        ]
      ]
    ]
  ]
]
