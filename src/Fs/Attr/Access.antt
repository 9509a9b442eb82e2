-- ===== src/Fs/Attr/Access.antt =====
-- libkernel/src/fs/attr.rs: who gets which access, by the class of the caller.
use moss.Common.{
  ℕ, ◌+◌, ◌^◌, ◌<◌, ◌≡◌, refl, inl, inr, Bool, not, ◌&&◌, ◌||◌, ◌==◌, if◌then◌else◌, ok, err,
  KernelError, arith, Bool-cases,
}
use moss.Proc.Bitflags.{Bitflags}
use moss.Proc.Caps.{Capabilities, is_capable}
use moss.Fs.Attr.{
  FileType, FileAttr, AccessMode, has_bit, is_directory, cap_dac_override, cap_dac_read_search,
  perms_to_check, any_execute, check_access, new_mode, permissions_of,
}

pub data Class : Type 0 where
  owner group other : Class

-- The class of the caller: the first that fits.
abbrev pub class_of : FileAttr → ℕ → ℕ → Class
class_of f uid gid =
    if f.uid == uid then Class.owner else if f.gid == gid then Class.group else Class.other

-- The lowest bit of the three of a class.
abbrev pub base_bit : Class → ℕ
base_bit Class.owner = 6
base_bit Class.group = 3
base_bit Class.other = 0

-- Who may do what, class by class: reading, writing and executing have the bits 2, 1 and 0 of a class.
abbrev pub is_allowed : FileAttr → Class → Bool → Bool → Bool → AccessMode → Bool
is_allowed f c is_root override search m =
    override
    || (is_root && (not m.x_ok || any_execute f.permissions))
    || ((not m.r_ok || has_bit f.permissions (base_bit c + 2) || search)
        && (not m.w_ok || has_bit f.permissions (base_bit c + 1))
        && (not m.x_ok
            || has_bit f.permissions (base_bit c)
            || (is_directory f.file_type && search)))

-- The bits that are tested are those of the class.
record Tested (f : FileAttr) (uid gid : ℕ) : Type 0 where
  read :
      has_bit (perms_to_check f uid gid) 8
      ≡ has_bit f.permissions (base_bit (class_of f uid gid) + 2)
  write :
      has_bit (perms_to_check f uid gid) 7
      ≡ has_bit f.permissions (base_bit (class_of f uid gid) + 1)
  execute :
      has_bit (perms_to_check f uid gid) 6 ≡ has_bit f.permissions (base_bit (class_of f uid gid))

tested : (f : FileAttr) (uid gid : ℕ) → Tested f uid gid
unfolding perms_to_check
tested f uid gid = elim (Bool-cases (f.uid == uid)) [
  | inl e ↦ record { read = rw e refl; write = rw e refl; execute = rw e refl }
  | inr e ↦ elim (Bool-cases (f.gid == gid)) [
    | inl d ↦ record {
      read = rw (e, d) (ground arith);
      write = rw (e, d) (ground arith);
      execute = rw (e, d) (ground arith);
    }
    | inr d ↦ record {
      read = rw (e, d) (ground arith);
      write = rw (e, d) (ground arith);
      execute = rw (e, d) (ground arith);
    }
  ]
]

module _ (B : Bitflags) where
  open B use {bit}

  -- Access is granted exactly to whom the rules by class grant it: a caller that overrides the rules; root, for
  -- execution where some execute bit is set; else by the bits of the first class that fits, where a caller that
  -- may search reads anything and searches directories. It is refused with one error.
  pub check_access-allowed :
      (f : FileAttr) (uid gid : ℕ) (caps : Capabilities B) (m : AccessMode)
      → check_access B f uid gid caps m ≡ (
          if is_allowed f
            (class_of f uid gid)
            (uid == 0)
            (is_capable B caps (bit cap_dac_override))
            (is_capable B caps (bit cap_dac_read_search))
            m
          then ok tt
          else err KernelError.not_permitted)
  unfolding check_access
  check_access-allowed f uid gid caps m =
      let t = tested f uid gid in rw (t.read, t.write, t.execute, check_access) (ground arith)

-- A mode keeps the permissions that it is made from.
pub permissions_of-new_mode :
    (t : FileType) (p : ℕ) → p < 2 ^ 12 → permissions_of (new_mode t p) ≡ p
unfolding permissions_of new_mode
permissions_of-new_mode FileType.file p h = omega arith
permissions_of-new_mode FileType.directory p h = omega arith
permissions_of-new_mode FileType.symlink p h = omega arith
permissions_of-new_mode (FileType.block_device d) p h = omega arith
permissions_of-new_mode (FileType.char_device d) p h = omega arith
permissions_of-new_mode FileType.fifo p h = omega arith
permissions_of-new_mode FileType.socket p h = omega arith
