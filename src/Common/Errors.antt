-- ===== src/Common/Errors.antt =====
-- libkernel/src/error.rs: the kernel's error values and `Result`.
use Prim.Native.String.{String}
use mathlib.Core.Path.{◌≡◌, refl}
use mathlib.Core.Logic.{◌⊎◌, inl, inr}

pub data ProbeError : Type 0 where
  no_reg no_reg_size no_interrupts no_parent_interrupt not_interrupt_controller : ProbeError
  deferred no_match : ProbeError

pub data MapError : Type 0 where
  phys_not_aligned virt_not_aligned size_mismatch walk_failed invalid_descriptor : MapError
  too_small already_mapped non_canonical_address not_l3_mapped : MapError

pub data IoError : Type 0 where
  out_of_bounds metadata_corruption : IoError

pub data FsError : Type 0 where
  not_found not_a_directory is_a_directory already_exists directory_not_empty busy : FsError
  invalid_input invalid_fs out_of_bounds permission_denied driver_not_found : FsError
  too_many_files no_device loop cross_device : FsError

pub data ExecError : Type 0 where
  invalid_elf_format invalid_script_format invalid_p_hdr_format : ExecError

pub data KernelError : Type 0 where
  no_memory no_mem_region invalid_value in_use : KernelError
  mapping_error : MapError → KernelError
  too_large not_supported address_family_not_supported : KernelError
  probe : ProbeError → KernelError
  io : IoError → KernelError
  fs : FsError → KernelError
  exec : ExecError → KernelError
  not_a_tty fault bad_fd seek_pipe broken_pipe not_permitted buffer_full : KernelError
  try_again no_process no_child_process timed_out range_error : KernelError
  op_not_supported interrupted name_too_long not_a_socket : KernelError
  other : String → KernelError

pub data Result {ℓ} (A : Type ℓ) : Type ℓ where
  ok : A → Result A
  err : KernelError → Result A

pub Result-cases {ℓ} :
    {A : Type ℓ} (r : Result A) → ((a : A) × (r ≡ ok a)) ⊎ ((e : KernelError) × (r ≡ err e))
Result-cases (ok a) = inl (a, refl)
Result-cases (err e) = inr (e, refl)
