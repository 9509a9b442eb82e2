-- ===== src/FdTable/Tests.antt =====
-- The theorems about the descriptor table at concrete tables. A file is a number.
use moss.Common.{
  ℕ, zero, suc, ◌≤◌, ◌≡◌, ◌⊎◌, true, false, refl, Option, none, some, [], ◌∷◌, arith, ok, err,
  KernelError, FsError,
}
use moss.FdTable.{Entry, Table, new, slot, max_fds, insert_with_flags, remove}
use moss.FdTable.Hint
use moss.FdTable.Hint.{HintOk, IsSmall, Reach, start, next, close, Reach-HintOk}
use moss.FdTable.Lowest.{Inserted, insert_with_flags_lem}

abbrev entry : ℕ → Option (Entry ℕ)
entry n = some (record { file = n; cloexec = false })

-- Descriptors 0 and 2 are open.
abbrev two_files : Table ℕ
two_files = record { entries = entry 10 ∷ none ∷ entry 12 ∷ []; next_fd_hint = 1 }

two_files-HintOk : HintOk two_files
unfolding slot
two_files-HintOk zero p = refl
two_files-HintOk (suc k) p = absurd (omega arith)

reopened : (remove two_files 0).1.next_fd_hint ≡ 0
unfolding remove slot
reopened = refl

insert_with_flags_lem_example :
    ((fd : ℕ) × ((insert_with_flags two_files 11 true).0 ≡ ok fd)
      × Inserted two_files
          (record { file = 11; cloexec = true })
          fd
          (insert_with_flags two_files 11 true).1)
    ⊎ ((insert_with_flags two_files 11 true
          ≡ (err (KernelError.fs FsError.too_many_files), two_files))
        × (max_fds ≤ 3))
insert_with_flags_lem_example =
    insert_with_flags_lem two_files 11 true two_files-HintOk (omega arith)

abbrev one_file : Table ℕ
one_file = (insert_with_flags (new ℕ) 10 false).1

one_file-Reach : Reach one_file
unfolding new
one_file-Reach = next start (Hint.insert 10 false (omega arith))

Reach-HintOk_example : HintOk (remove one_file 0).1
Reach-HintOk_example = Reach-HintOk (next one_file-Reach (close 0))
