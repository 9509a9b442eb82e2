-- ===== src/FdTable.antt =====
-- src/process/fd_table.rs, src/process/fd_table/dup.rs and src/process/fd_table/fcntl.rs: the file descriptor
-- table of a process. An `Fd` is the bit pattern of its i32, below 2 ^ 32; the flag CLOEXEC, the only
-- one of `FdFlags`, is a Boolean. `F` is what stands for `Arc<OpenFile>`.
pub mod Search
pub mod Hint
pub mod Lowest
mod Tests
use moss.Common.{
  ℕ, zero, suc, ◌+◌, ◌-◌, ◌%◌, ◌^◌, min, Bool, true, false, ◌||◌, Option, none, some, List, [], ◌∷◌,
  ◌++◌, ltb, leb, ◌==◌, if◌then◌else◌, Result, ok, err, KernelError, FsError, length, get_elem?,
  set, replicate,
}

-- `fd.0 as usize`: the sign bit is copied into the upper half.
abbrev pub as_usize : ℕ → ℕ
as_usize fd = if ltb fd (2 ^ 31) then fd else fd + (2 ^ 64 - 2 ^ 32)

-- `Fd(i as i32)`
abbrev pub fd_of : ℕ → ℕ
fd_of i = i % 2 ^ 32

abbrev pub max_fds : ℕ
max_fds = 8192

module _ (F : Type 0) where
  pub record Entry : Type 0 where
    pub file : F
    pub cloexec : Bool

  pub record Table : Type 0 where
    pub entries : List (Option Entry)
    pub next_fd_hint : ℕ

  unfoldable pub new : Table
  new = record { entries = []; next_fd_hint = 0 }

module _ {F : Type 0} where
  -- `entries.get(i).and_then(|entry| entry.as_ref())`
  unfoldable pub slot : List (Option (Entry F)) → ℕ → Option (Entry F)
  slot es i = elim (get_elem? es i) [ none ↦ none | some e ↦ e ]

  -- `entries[i].is_none()`, out of range too, where the code does not look
  abbrev pub is_free : List (Option (Entry F)) → ℕ → Bool
  is_free es i = elim (slot es i) [ none ↦ true | some e ↦ false ]

  unfoldable pub get : Table F → ℕ → Option F
  get t fd = elim (slot t.entries (as_usize fd)) [ none ↦ none | some e ↦ some e.file ]

  -- The loop `for i in i..self.entries.len()`, over the `n` rounds that are left.
  unfoldable pub first_free : List (Option (Entry F)) → ℕ → ℕ → Option ℕ
  first_free es i zero = none
  first_free es i (suc n) =
      let rest = first_free es (i + 1) n in if is_free es i then some i else rest

  unfoldable pub find_free_fd : Table F → Result ℕ × Table F
  find_free_fd t = elim (first_free t.entries t.next_fd_hint (length t.entries - t.next_fd_hint)) [
    | some i ↦ (ok (fd_of i), record t { next_fd_hint = i + 1 })
    | none ↦
        if leb max_fds (length t.entries)
        then (err (KernelError.fs FsError.too_many_files), t)
        else (ok (fd_of (length t.entries)), record t { next_fd_hint = length t.entries + 1 })
  ]

  -- `resize_with(n, || None)`, where it grows
  abbrev pub resized : List (Option (Entry F)) → ℕ → List (Option (Entry F))
  resized es n = if ltb (length es) n then es ++ replicate (n - length es) none else es

  unfoldable pub insert_at : Table F → ℕ → Entry F → Option (Entry F) × Table F
  insert_at t fd e =
      let es = resized t.entries (as_usize fd + 1) in
      (slot es (as_usize fd), record t { entries = set es (as_usize fd) (some e) })

  unfoldable pub insert_with_flags : Table F → F → Bool → Result ℕ × Table F
  insert_with_flags t file cloexec =
      let (r, t') = find_free_fd t in
      elim r [
        | ok fd ↦ (ok fd, (insert_at t' fd (record { file = file; cloexec = cloexec })).1)
        | err e ↦ (err e, t')
      ]

  unfoldable pub insert : Table F → F → Result ℕ × Table F
  insert t file = insert_with_flags t file false

  unfoldable pub insert_above : Table F → ℕ → F → Result ℕ × Table F
  insert_above t min_fd file =
      let e : Entry F = record { file = file; cloexec = false } in
      elim (first_free t.entries (as_usize min_fd) (length t.entries - as_usize min_fd)) [
        | some i ↦ (ok (fd_of i), (insert_at t (fd_of i) e).1)
        | none ↦ (ok (fd_of (length t.entries)), record t { entries = t.entries ++ some e ∷ [] })
      ]

  -- `flags.insert(flags)`
  unfoldable pub add_flags : Table F → ℕ → Bool → Result (Unit {0}) × Table F
  add_flags t fd cloexec = elim (slot t.entries (as_usize fd)) [
    | none ↦ (err KernelError.bad_fd, t)
    | some e ↦ (
      ok tt,
      record t {
        entries =
            set t.entries (as_usize fd)
              (some (record { file = e.file; cloexec = e.cloexec || cloexec }));
      },
    )
  ]

  unfoldable pub remove : Table F → ℕ → Option F × Table F
  remove t fd = elim (slot t.entries (as_usize fd)) [
    | none ↦ (none, t)
    | some e ↦ (
      some e.file,
      record {
        entries = set t.entries (as_usize fd) none;
        next_fd_hint = min t.next_fd_hint (as_usize fd);
      },
    )
  ]

  -- The descriptors that `close_cloexec_entries` collects, from index `i` on.
  unfoldable pub cloexec_fds : List (Option (Entry F)) → ℕ → List ℕ
  cloexec_fds [] i = []
  cloexec_fds (none ∷ es) i = cloexec_fds es (i + 1)
  cloexec_fds (some e ∷ es) i =
      let rest = cloexec_fds es (i + 1) in if e.cloexec then i ∷ rest else rest

  unfoldable pub remove_all : Table F → List ℕ → Table F
  remove_all t [] = t
  remove_all t (i ∷ is) = remove_all (remove t (fd_of i)).1 is

  -- The release of each file whose last reference goes is left out: it does not touch the table.
  unfoldable pub close_cloexec_entries : Table F → Table F
  unfolding cloexec_fds remove_all
  close_cloexec_entries t = remove_all t (cloexec_fds t.entries 0)

  -- `dup_fd`, which `sys_dup` calls without and F_DUPFD with a least descriptor
  unfoldable pub dup_fd : Table F → ℕ → Option ℕ → Result ℕ × Table F
  dup_fd t fd min_fd = elim (get t fd) [
    | none ↦ (err KernelError.bad_fd, t)
    | some file ↦ elim min_fd [ some m ↦ insert_above t m file | none ↦ insert t file ]
  ]

  -- The arm F_DUPFD_CLOEXEC of `sys_fcntl`; the lock is taken twice, and
  -- no call of another thread is taken to come between.
  unfoldable pub dup_fd_cloexec : Table F → ℕ → ℕ → Result ℕ × Table F
  dup_fd_cloexec t fd arg =
      let (r, t') = dup_fd t fd (some (fd_of arg)) in
      elim r [
        | err e ↦ (err e, t')
        | ok new_fd ↦
            (let (a, t'') = add_flags t' new_fd true in
              elim a [ ok _ ↦ (ok new_fd, t'') | err e ↦ (err e, t'') ])
      ]

  -- `sys_dup3`, with what the code asks of `flags`: is there a flag other than O_CLOEXEC, and is
  -- O_CLOEXEC there
  unfoldable pub sys_dup3 : Table F → ℕ → ℕ → Bool → Bool → Result ℕ × Table F
  sys_dup3 t oldfd newfd other_flags cloexec =
      if oldfd == newfd
      then (err KernelError.invalid_value, t)
      else if other_flags
      then (err KernelError.invalid_value, t)
      else elim (get t oldfd) [
        | none ↦ (err KernelError.bad_fd, t)
        | some file ↦ (ok newfd, (insert_at t newfd (record { file = file; cloexec = cloexec })).1)
      ]
