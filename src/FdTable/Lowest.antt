-- ===== src/FdTable/Lowest.antt =====
-- src/process/fd_table.rs: what insertion, lookup and removal mean to a client of the table.
use moss.Common.{
  ℕ, ◌+◌, ◌-◌, ◌≤◌, ◌<◌, ◌^◌, Bool, true, false, ◌≡◌, ◌≢◌, ◌⊎◌, none, some, arith, length, ok, err,
  KernelError, FsError, inl, inr, Option-cases,
}
use moss.FdTable.{
  Entry, Table, slot, get, is_free, first_free, as_usize, max_fds, insert_with_flags, insert_at,
  insert_above, remove, dup_fd,
}
use moss.FdTable.Search.{
  slot-insert_at, slot-set, lt_of_busy, first_free-some, first_free-none, first_free-past,
  slot-append_end,
}
use moss.FdTable.Hint.{
  HintOk, IsSmall, FreeAt, free_past, find_free_fd-cases, insert_with_flags-answer,
  insert_with_flags-full,
}

module _ {F : Type 0} where
  -- The descriptor `fd` was the lowest free one; the entry stands there now, and all else is as it was.
  pub record Inserted (t : Table F) (e : Entry F) (fd : ℕ) (u : Table F) : Type 0 where
    pub was_free : is_free t.entries fd ≡ true
    pub lowest : (k : ℕ) → k < fd → is_free t.entries k ≡ false
    pub here : slot u.entries fd ≡ some e
    pub others : (k : ℕ) → k ≢ fd → slot u.entries k ≡ slot t.entries k

  FreeAt-Inserted :
      (t : Table F) (e : Entry F) (i : ℕ)
      → IsSmall t
      → FreeAt t i
      → Inserted t e i (insert_at (record t { next_fd_hint = i + 1 }) i e).1
  FreeAt-Inserted t e i s f = record {
    was_free = f.free;
    lowest = f.busy;
    here = ground (arith, f.within, slot-insert_at (record t { next_fd_hint = i + 1 }) i e i);
    others =
        λ k n. ground (arith, f.within, slot-insert_at (record t { next_fd_hint = i + 1 }) i e k);
  }

  -- In a table whose hint is sound and that has fewer than 2 ^ 31 slots, `insert_with_flags` puts the
  -- file, with its flag, at the lowest free descriptor and changes no other slot; or it answers that
  -- too many files are open and changes nothing, which happens only at 8192 slots or more.
  pub insert_with_flags_lem :
      (t : Table F) (file : F) (c : Bool)
      → HintOk t
      → IsSmall t
      → ((fd : ℕ) × ((insert_with_flags t file c).0 ≡ ok fd)
          × Inserted t (record { file = file; cloexec = c }) fd (insert_with_flags t file c).1)
        ⊎ ((insert_with_flags t file c ≡ (err (KernelError.fs FsError.too_many_files), t))
            × (max_fds ≤ length t.entries))
  insert_with_flags_lem t file c h s = elim (find_free_fd-cases t h s) [
    | inl (i, f) ↦ inl (
      i,
      rw (insert_with_flags-answer t file c i f),
      rw (insert_with_flags-answer t file c i f) (FreeAt-Inserted t _ i s f),
    )
    | inr (e, full) ↦ inr (insert_with_flags-full t file c e, full)
  ]

  -- `remove` answers the file that `get` found at the descriptor, and empties that slot and no other.
  pub remove_lem :
      (t : Table F) (fd k : ℕ)
      → ((remove t fd).0 ≡ get t fd)
        × (get (remove t fd).1 fd ≡ none)
        × ((as_usize k ≡ as_usize fd) ⊎ (get (remove t fd).1 k ≡ get t k))
  unfolding remove get
  remove_lem t fd k = elim (Option-cases (slot t.entries (as_usize fd))) [
    | inl e ↦ (ground arith, ground arith, ground arith)
    | inr (e, q) ↦ (
      ground arith,
      ground (
        arith,
        slot-set t.entries (as_usize fd) (as_usize fd) none,
        lt_of_busy t.entries (as_usize fd),
      ),
      ground (
        arith,
        slot-set t.entries (as_usize fd) (as_usize k) none,
        lt_of_busy t.entries (as_usize fd),
      ),
    )
  ]

  -- F_DUPFD with a least descriptor at or below the end of the table answers a descriptor that is at
  -- least that, was free, and has no other free one between; a file then stands there.
  pub insert_above_lem :
      (t : Table F) (m : ℕ) (file : F)
      → IsSmall t
      → m ≤ length t.entries
      → (fd : ℕ) × ((insert_above t m file).0 ≡ ok fd)
        × (m ≤ fd)
        × (is_free t.entries fd ≡ true)
        × ((k : ℕ) → m ≤ k → k < fd → is_free t.entries k ≡ false)
        × (get (insert_above t m file).1 fd ≡ some file)
  unfolding insert_above get
  insert_above_lem t m file s h =
      elim (Option-cases (first_free t.entries m (length t.entries - m))) [
        | inl e ↦ (
          length t.entries,
          ground arith,
          h,
          free_past t.entries,
          λ k a b. first_free-none t.entries m (length t.entries - m) e k a (omega arith),
          ground (arith, slot-append_end t.entries (record { file = file; cloexec = false })),
        )
        | inr (i, e) ↦
            let f = first_free-some t.entries m (length t.entries - m) i e in
            (
              i,
              ground (arith, f.below),
              f.from,
              f.free,
              f.busy,
              ground
                  (arith, f.below, slot-insert_at t i (record { file = file; cloexec = false }) i),
            )
      ]

  -- F_DUPFD with a least descriptor above the end of the table answers the end of the table, which is
  -- below the least descriptor asked for.
  pub dup_fd_below_minimum :
      (t : Table F) (fd m : ℕ) (file : F)
      → get t fd ≡ some file
      → length t.entries < m
      → m < 2 ^ 31
      → (n : ℕ) × ((dup_fd t fd (some m)).0 ≡ ok n) × (n < m)
  unfolding dup_fd insert_above
  dup_fd_below_minimum t fd m file g h s =
      (length t.entries, ground (arith, first_free-past t.entries m (length t.entries - m)), h)
