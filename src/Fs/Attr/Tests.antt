-- ===== src/Fs/Attr/Tests.antt =====
-- Runs of the access check, and the theorems about it at a concrete file.
use moss.Common.{◌≡◌, ◌==◌, refl, true, false, [], ◌∷◌, ok, err, KernelError, if◌then◌else◌}
use moss.Proc.FlagLists.{bits}
use moss.Proc.Caps.{new_empty, new_cap, is_capable}
use moss.Fs.Attr.{
  FileType, FileAttr, AccessMode, mode, check_access, cap_dac_override, cap_dac_read_search,
}
use moss.Fs.Attr.Access.{class_of, is_allowed, check_access-allowed}

-- rw-r----- of user 1000 and group 2000
abbrev report : FileAttr
report = record {
  id = record { fs_id = 1; inode_id = 7 };
  size = 10;
  block_size = 512;
  blocks = 1;
  atime = 0;
  btime = 0;
  mtime = 0;
  ctime = 0;
  file_type = FileType.file;
  permissions = 0x1a0;
  nlinks = 1;
  uid = 1000;
  gid = 2000;
}

abbrev reading : AccessMode
reading = record { x_ok = false; w_ok = false; r_ok = true }

abbrev writing : AccessMode
writing = record { x_ok = false; w_ok = true; r_ok = false }

abbrev running : AccessMode
running = record { x_ok = true; w_ok = false; r_ok = false }

group_reads : check_access bits report 1001 2000 (new_empty bits) reading ≡ ok tt
unfolding check_access new_empty
group_reads = refl

group_writes :
    check_access bits report 1001 2000 (new_empty bits) writing ≡ err KernelError.not_permitted
unfolding check_access new_empty
group_writes = refl

root_runs : check_access bits report 0 0 (new_empty bits) running ≡ err KernelError.not_permitted
unfolding check_access new_empty
root_runs = refl

searcher_reads : check_access bits report 5 5 (new_cap bits (2 ∷ [])) reading ≡ ok tt
unfolding check_access new_cap
searcher_reads = refl

mode_of_report : mode report ≡ 0x81a0
unfolding mode
mode_of_report = refl

check_access-allowed_example : check_access bits report 1001 2000 (new_empty bits) writing ≡ (
    if is_allowed report
      (class_of report 1001 2000)
      (1001 == 0)
      (is_capable bits (new_empty bits) (cap_dac_override ∷ []))
      (is_capable bits (new_empty bits) (cap_dac_read_search ∷ []))
      writing
    then ok tt
    else err KernelError.not_permitted)
check_access-allowed_example = check_access-allowed bits report 1001 2000 (new_empty bits) writing
