-- ===== src/Fs/Attr.antt =====
-- libkernel/src/fs/attr.rs: modes, attributes, and the check of an access.
pub mod Access
mod Tests
use moss.Common.{
  ℕ, ◌+◌, ◌*◌, ◌/◌, ◌%◌, ◌^◌, Bool, true, false, not, ◌&&◌, ◌||◌, ◌==◌, if◌then◌else◌, Result, ok,
  err, KernelError,
}
use moss.Proc.Bitflags.{Bitflags}
use moss.Proc.Caps.{Capabilities, is_capable}

pub record CharDevDescriptor : Type 0 where
  pub major : ℕ
  pub minor : ℕ

pub data FileType : Type 0 where
  file directory symlink : FileType
  block_device char_device : CharDevDescriptor → FileType
  fifo socket : FileType

-- Whether the flag of this bit is in a set of flags, and `intersects` for the flags of three bits.
abbrev pub has_bit : ℕ → ℕ → Bool
has_bit flags bit = (flags / 2 ^ bit) % 2 == 1

-- `FilePermissions::from_bits_truncate`: the flags are the twelve lowest bits.
abbrev pub from_bits_truncate : ℕ → ℕ
from_bits_truncate bits = bits % 2 ^ 12

-- `FilePermissions::from(mode)`
unfoldable pub permissions_of : ℕ → ℕ
permissions_of mode = from_bits_truncate mode

-- `FileMode::new`: the flags of the file types are above those of the permissions, so that `|=` adds.
unfoldable pub new_mode : FileType → ℕ → ℕ
new_mode file_type permissions =
    let mode = permissions % 2 ^ 16 in
    elim file_type [
      | FileType.directory ↦ mode + 0x4000
      | FileType.file ↦ mode + 0x8000
      | FileType.symlink ↦ mode + 0xa000
      | FileType.block_device d ↦ mode + 0x6000
      | FileType.char_device d ↦ mode + 0x2000
      | FileType.fifo ↦ mode + 0x1000
      | FileType.socket ↦ mode + 0xc000
    ]

pub record InodeId : Type 0 where
  pub fs_id : ℕ
  pub inode_id : ℕ

-- Times are durations since the epoch.
pub record FileAttr : Type 0 where
  pub id : InodeId
  pub size : ℕ
  pub block_size : ℕ
  pub blocks : ℕ
  pub atime : ℕ
  pub btime : ℕ
  pub mtime : ℕ
  pub ctime : ℕ
  pub file_type : FileType
  pub permissions : ℕ
  pub nlinks : ℕ
  pub uid : ℕ
  pub gid : ℕ

unfoldable pub mode : FileAttr → ℕ
unfolding new_mode
mode self = new_mode self.file_type self.permissions

abbrev pub is_directory : FileType → Bool
is_directory FileType.directory = true
is_directory _ = false

-- `AccessMode`
pub record AccessMode : Type 0 where
  pub x_ok : Bool
  pub w_ok : Bool
  pub r_ok : Bool

abbrev pub cap_dac_override : ℕ
cap_dac_override = 1

abbrev pub cap_dac_read_search : ℕ
cap_dac_read_search = 2

-- A shift of a 16-bit number drops what it moves out.
unfoldable pub perms_to_check : FileAttr → ℕ → ℕ → ℕ
perms_to_check self uid gid =
    if self.uid == uid
    then self.permissions
    else if self.gid == gid
    then from_bits_truncate ((self.permissions * 2 ^ 3) % 2 ^ 16)
    else from_bits_truncate ((self.permissions * 2 ^ 6) % 2 ^ 16)

-- The bits S_IXUSR, S_IXGRP and S_IXOTH
abbrev pub any_execute : ℕ → Bool
any_execute permissions = has_bit permissions 6 || has_bit permissions 3 || has_bit permissions 0

module _ (B : Bitflags) where
  open B use {bit}

  unfoldable pub check_access : FileAttr → ℕ → ℕ → Capabilities B → AccessMode → Result (Unit {0})
  unfolding is_capable perms_to_check
  check_access self uid gid caps requested_mode =
      let perms = perms_to_check self uid gid in
      let search = is_capable B caps (bit cap_dac_read_search) in
      if is_capable B caps (bit cap_dac_override)
      then ok tt
      else if (uid == 0) && (if requested_mode.x_ok then any_execute self.permissions else true)
      then ok tt
      else if requested_mode.r_ok && not (has_bit perms 8) && not search
      then err KernelError.not_permitted
      else if requested_mode.w_ok && not (has_bit perms 7)
      then err KernelError.not_permitted
      else if requested_mode.x_ok
          && not (has_bit perms 6)
          && (not (is_directory self.file_type) || not search)
      then err KernelError.not_permitted
      else ok tt
