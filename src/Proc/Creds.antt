-- ===== src/Proc/Creds.antt =====
-- libkernel/src/proc/ids.rs and src/process/creds.rs: the user and group identities of a process and the
-- system calls that change them. `Uid` and `Gid` are their u32; `u` as a `usize` argument.
pub mod Confined
pub mod Effects
use moss.Common.{
  ℕ, Bool, not, ◌&&◌, ◌||◌, ◌%◌, if◌then◌else◌, ◌==◌, Result, ok, err, KernelError, usize_max,
  u32_mod,
}
use moss.Proc.Bitflags.{Bitflags}
use moss.Proc.Caps.{Capabilities, is_capable, cap_setuid, cap_setgid}
use moss.Proc.Caps

-- `Uid::new(x as u32)` and `Gid::new(x as u32)`
abbrev pub new_id : ℕ → ℕ
new_id x = x % u32_mod

module _ (B : Bitflags) where
  pub record Credentials : Type 0 where
    pub uid : ℕ
    pub euid : ℕ
    pub suid : ℕ
    pub gid : ℕ
    pub egid : ℕ
    pub sgid : ℕ
    pub caps : Capabilities B

  unfoldable pub new_root : Credentials
  unfolding Caps.new_root
  new_root = record {
    uid = 0;
    euid = 0;
    suid = 0;
    gid = 0;
    egid = 0;
    sgid = 0;
    caps = Caps.new_root B;
  }

  abbrev pub can_setuid : Credentials → Bool
  can_setuid creds = is_capable B creds.caps (B.bit cap_setuid)

  abbrev pub can_setgid : Credentials → Bool
  can_setgid creds = is_capable B creds.caps (B.bit cap_setgid)

  -- `arg == usize::MAX` keeps the old value.
  abbrev pub new_or : ℕ → ℕ → ℕ
  new_or arg old = if arg == usize_max then old else new_id arg

  -- the guard of one argument: it is given, and names none of the three identities
  abbrev pub is_foreign : ℕ → ℕ → ℕ → ℕ → ℕ → Bool
  is_foreign arg new a b c =
      not (arg == usize_max) && not (new == a) && not (new == b) && not (new == c)

  unfoldable pub sys_setuid : Credentials → ℕ → Result ℕ × Credentials
  sys_setuid creds uid =
      let new_uid = new_id uid in
      if can_setuid creds
      then (ok 0, record creds { uid = new_uid; euid = new_uid; suid = new_uid })
      else if new_uid == creds.uid || new_uid == creds.suid
      then (ok 0, record creds { euid = new_uid })
      else (err KernelError.not_permitted, creds)

  unfoldable pub sys_setgid : Credentials → ℕ → Result ℕ × Credentials
  sys_setgid creds gid =
      let new_gid = new_id gid in
      if can_setgid creds
      then (ok 0, record creds { gid = new_gid; egid = new_gid; sgid = new_gid })
      else if new_gid == creds.gid || new_gid == creds.sgid
      then (ok 0, record creds { egid = new_gid })
      else (err KernelError.not_permitted, creds)

  unfoldable pub sys_setreuid : Credentials → ℕ → ℕ → Result ℕ × Credentials
  sys_setreuid creds ruid euid =
      let new_ruid = new_or ruid creds.uid in
      let new_euid = new_or euid creds.euid in
      if not (can_setuid creds)
        && (is_foreign ruid new_ruid creds.uid creds.euid creds.suid
            || is_foreign euid new_euid creds.uid creds.euid creds.suid)
      then (err KernelError.not_permitted, creds)
      else (
        ok 0,
        record creds {
          uid = new_ruid;
          euid = new_euid;
          suid =
              if not (ruid == usize_max) || (not (euid == usize_max) && not (new_euid == creds.uid))
              then new_euid
              else creds.suid;
        },
      )

  unfoldable pub sys_setregid : Credentials → ℕ → ℕ → Result ℕ × Credentials
  sys_setregid creds rgid egid =
      let new_rgid = new_or rgid creds.gid in
      let new_egid = new_or egid creds.egid in
      if not (can_setgid creds)
        && (is_foreign rgid new_rgid creds.gid creds.egid creds.sgid
            || is_foreign egid new_egid creds.gid creds.egid creds.sgid)
      then (err KernelError.not_permitted, creds)
      else (
        ok 0,
        record creds {
          gid = new_rgid;
          egid = new_egid;
          sgid =
              if not (rgid == usize_max) || (not (egid == usize_max) && not (new_egid == creds.gid))
              then new_egid
              else creds.sgid;
        },
      )

  unfoldable pub sys_setresuid : Credentials → ℕ → ℕ → ℕ → Result ℕ × Credentials
  sys_setresuid creds ruid euid suid =
      let new_ruid = new_or ruid creds.uid in
      let new_euid = new_or euid creds.euid in
      let new_suid = new_or suid creds.suid in
      if not (can_setuid creds)
        && (is_foreign ruid new_ruid creds.uid creds.euid creds.suid
            || is_foreign euid new_euid creds.uid creds.euid creds.suid
            || is_foreign suid new_suid creds.uid creds.euid creds.suid)
      then (err KernelError.not_permitted, creds)
      else (ok 0, record creds { uid = new_ruid; euid = new_euid; suid = new_suid })

  unfoldable pub sys_setresgid : Credentials → ℕ → ℕ → ℕ → Result ℕ × Credentials
  sys_setresgid creds rgid egid sgid =
      let new_rgid = new_or rgid creds.gid in
      let new_egid = new_or egid creds.egid in
      let new_sgid = new_or sgid creds.sgid in
      if not (can_setgid creds)
        && (is_foreign rgid new_rgid creds.gid creds.egid creds.sgid
            || is_foreign egid new_egid creds.gid creds.egid creds.sgid
            || is_foreign sgid new_sgid creds.gid creds.egid creds.sgid)
      then (err KernelError.not_permitted, creds)
      else (ok 0, record creds { gid = new_rgid; egid = new_egid; sgid = new_sgid })

  -- `setfsuid` and `setfsgid` ignore their argument and answer the real identity, as `getuid` does.
  unfoldable pub sys_getuid : Credentials → ℕ
  sys_getuid creds = creds.uid

  unfoldable pub sys_geteuid : Credentials → ℕ
  sys_geteuid creds = creds.euid

  unfoldable pub sys_getgid : Credentials → ℕ
  sys_getgid creds = creds.gid

  unfoldable pub sys_getegid : Credentials → ℕ
  sys_getegid creds = creds.egid
