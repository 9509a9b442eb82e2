-- ===== src/Errno.antt =====
-- libkernel/src/error/syscall_error.rs: the numbers that a system call answers for its errors.
use moss.Common.{
  ℕ, ℤ, zero, suc, ◌<◌, ◌≡◌, refl, Bool, true, false, arith, Exec, done, panicked, KernelError,
  FsError,
}

abbrev neg : ℕ → ℤ
neg zero = ℤ.pos 0
neg (suc n) = ℤ.negsuc n

-- The number that is answered; `todo!` panics.
unfoldable pub kern_err_to_syscall : KernelError → Exec ℤ
kern_err_to_syscall KernelError.bad_fd = done (neg 9)
kern_err_to_syscall KernelError.invalid_value = done (neg 22)
kern_err_to_syscall KernelError.fault = done (neg 14)
kern_err_to_syscall KernelError.try_again = done (neg 11)
kern_err_to_syscall KernelError.broken_pipe = done (neg 32)
kern_err_to_syscall KernelError.in_use = done (neg 16)
kern_err_to_syscall KernelError.not_permitted = done (neg 1)
kern_err_to_syscall KernelError.buffer_full = done (neg 36)
kern_err_to_syscall KernelError.name_too_long = done (neg 36)
kern_err_to_syscall (KernelError.fs FsError.not_found) = done (neg 2)
kern_err_to_syscall (KernelError.fs FsError.is_a_directory) = done (neg 21)
kern_err_to_syscall (KernelError.fs FsError.not_a_directory) = done (neg 20)
kern_err_to_syscall (KernelError.fs FsError.already_exists) = done (neg 17)
kern_err_to_syscall (KernelError.fs FsError.directory_not_empty) = done (neg 39)
kern_err_to_syscall (KernelError.fs FsError.busy) = done (neg 16)
kern_err_to_syscall (KernelError.fs FsError.invalid_input) = done (neg 22)
kern_err_to_syscall (KernelError.fs FsError.permission_denied) = done (neg 13)
kern_err_to_syscall (KernelError.fs FsError.too_many_files) = done (neg 24)
kern_err_to_syscall (KernelError.fs FsError.no_device) = done (neg 19)
kern_err_to_syscall (KernelError.fs FsError.loop) = done (neg 40)
kern_err_to_syscall KernelError.not_a_tty = done (neg 25)
kern_err_to_syscall KernelError.seek_pipe = done (neg 29)
kern_err_to_syscall KernelError.not_supported = done (neg 38)
kern_err_to_syscall KernelError.no_memory = done (neg 12)
kern_err_to_syscall KernelError.timed_out = done (neg 110)
kern_err_to_syscall KernelError.range_error = done (neg 34)
kern_err_to_syscall KernelError.no_child_process = done (neg 10)
kern_err_to_syscall KernelError.op_not_supported = done (neg 95)
kern_err_to_syscall KernelError.interrupted = done (neg 4)
kern_err_to_syscall KernelError.no_process = done (neg 3)
kern_err_to_syscall KernelError.address_family_not_supported = done (neg 97)
kern_err_to_syscall _ = panicked

-- The errors that no number stands for.
abbrev pub is_unmapped : KernelError → Bool
is_unmapped KernelError.no_mem_region = true
is_unmapped (KernelError.mapping_error e) = true
is_unmapped KernelError.too_large = true
is_unmapped (KernelError.probe e) = true
is_unmapped (KernelError.io e) = true
is_unmapped (KernelError.fs FsError.invalid_fs) = true
is_unmapped (KernelError.fs FsError.out_of_bounds) = true
is_unmapped (KernelError.fs FsError.driver_not_found) = true
is_unmapped (KernelError.fs FsError.cross_device) = true
is_unmapped (KernelError.exec e) = true
is_unmapped KernelError.not_a_socket = true
is_unmapped (KernelError.other s) = true
is_unmapped _ = false

-- A panic for the errors without a number, and else a number from -4095 to -1, which no success has.
abbrev pub Answers : Bool → Exec ℤ → Type 0
Answers true r = r ≡ panicked
Answers false panicked = ⊥
Answers false (done (ℤ.pos n)) = ⊥
Answers false (done (ℤ.negsuc n)) = n < 4095

-- The kernel panics when a system call fails with an error that has no number; these are the errors of `is_unmapped`, the
-- failures to read a program and the use of a descriptor that is no socket among them. For every other error it
-- answers a number from -4095 to -1.
pub kern_err_to_syscall-Answers :
    (e : KernelError) → Answers (is_unmapped e) (kern_err_to_syscall e)
unfolding kern_err_to_syscall
kern_err_to_syscall-Answers KernelError.no_memory = omega arith
kern_err_to_syscall-Answers KernelError.no_mem_region = refl
kern_err_to_syscall-Answers KernelError.invalid_value = omega arith
kern_err_to_syscall-Answers KernelError.in_use = omega arith
kern_err_to_syscall-Answers KernelError.too_large = refl
kern_err_to_syscall-Answers KernelError.not_supported = omega arith
kern_err_to_syscall-Answers KernelError.address_family_not_supported = omega arith
kern_err_to_syscall-Answers KernelError.not_a_tty = omega arith
kern_err_to_syscall-Answers KernelError.fault = omega arith
kern_err_to_syscall-Answers KernelError.bad_fd = omega arith
kern_err_to_syscall-Answers KernelError.seek_pipe = omega arith
kern_err_to_syscall-Answers KernelError.broken_pipe = omega arith
kern_err_to_syscall-Answers KernelError.not_permitted = omega arith
kern_err_to_syscall-Answers KernelError.buffer_full = omega arith
kern_err_to_syscall-Answers KernelError.try_again = omega arith
kern_err_to_syscall-Answers KernelError.no_process = omega arith
kern_err_to_syscall-Answers KernelError.no_child_process = omega arith
kern_err_to_syscall-Answers KernelError.timed_out = omega arith
kern_err_to_syscall-Answers KernelError.range_error = omega arith
kern_err_to_syscall-Answers KernelError.op_not_supported = omega arith
kern_err_to_syscall-Answers KernelError.interrupted = omega arith
kern_err_to_syscall-Answers KernelError.name_too_long = omega arith
kern_err_to_syscall-Answers KernelError.not_a_socket = refl
kern_err_to_syscall-Answers (KernelError.fs FsError.not_found) = omega arith
kern_err_to_syscall-Answers (KernelError.fs FsError.not_a_directory) = omega arith
kern_err_to_syscall-Answers (KernelError.fs FsError.is_a_directory) = omega arith
kern_err_to_syscall-Answers (KernelError.fs FsError.already_exists) = omega arith
kern_err_to_syscall-Answers (KernelError.fs FsError.directory_not_empty) = omega arith
kern_err_to_syscall-Answers (KernelError.fs FsError.busy) = omega arith
kern_err_to_syscall-Answers (KernelError.fs FsError.invalid_input) = omega arith
kern_err_to_syscall-Answers (KernelError.fs FsError.invalid_fs) = refl
kern_err_to_syscall-Answers (KernelError.fs FsError.out_of_bounds) = refl
kern_err_to_syscall-Answers (KernelError.fs FsError.permission_denied) = omega arith
kern_err_to_syscall-Answers (KernelError.fs FsError.driver_not_found) = refl
kern_err_to_syscall-Answers (KernelError.fs FsError.too_many_files) = omega arith
kern_err_to_syscall-Answers (KernelError.fs FsError.no_device) = omega arith
kern_err_to_syscall-Answers (KernelError.fs FsError.loop) = omega arith
kern_err_to_syscall-Answers (KernelError.fs FsError.cross_device) = refl
kern_err_to_syscall-Answers (KernelError.mapping_error x) = refl
kern_err_to_syscall-Answers (KernelError.probe x) = refl
kern_err_to_syscall-Answers (KernelError.io x) = refl
kern_err_to_syscall-Answers (KernelError.exec x) = refl
kern_err_to_syscall-Answers (KernelError.other x) = refl
