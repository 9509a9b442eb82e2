-- ===== src/FdTable/Hint.antt =====
-- src/process/fd_table.rs: the search hint is sound. Every slot below `next_fd_hint` is in use, in every table that
-- the operations make from a new one.
use moss.Common.{
  ℕ, zero, suc, ◌+◌, ◌-◌, ◌≤◌, ◌<◌, ◌^◌, Bool, true, false, ◌≡◌, refl, Option, none, some, List, [],
  ◌∷◌, ◌++◌, arith, length, Bool-cases, inl, inr, dec_lt, leb, ok, err, KernelError, FsError,
  Option-cases, ◌||◌, ◌⊎◌,
}
use moss.FdTable.{
  Entry, Table, new, slot, is_free, first_free, insert_at, as_usize, fd_of, max_fds, find_free_fd,
  insert_with_flags, insert_above, add_flags, remove,
}
use moss.FdTable.Search.{
  IsFirst, first_free-some, first_free-none, lt_of_busy, slot-set, slot-insert_at,
}

module _ {F : Type 0} where
  -- Every slot below the hint is in use.
  abbrev pub HintOk : Table F → Type 0
  HintOk t = (k : ℕ) → k < t.next_fd_hint → is_free t.entries k ≡ false

  -- An index fits in the i32 of a descriptor.
  abbrev pub IsSmall : Table F → Type 0
  IsSmall t = length t.entries < 2 ^ 31

  -- `find_free_fd` answers `i`, the lowest free index, which may lie one past the end.
  pub record FreeAt (t : Table F) (i : ℕ) : Type 0 where
    pub answer : find_free_fd t ≡ (ok i, record t { next_fd_hint = i + 1 })
    pub within : i ≤ length t.entries
    pub free : is_free t.entries i ≡ true
    pub busy : (k : ℕ) → k < i → is_free t.entries k ≡ false

  pub free_past : (es : List (Option (Entry F))) → is_free es (length es) ≡ true
  free_past es = elim (Bool-cases (is_free es (length es))) [
    | inl free ↦ free
    | inr busy ↦ absurd (omega (arith, lt_of_busy es (length es) busy))
  ]

  found_at :
      (t : Table F)
      → HintOk t
      → IsSmall t
      → (i : ℕ) → first_free t.entries t.next_fd_hint (length t.entries - t.next_fd_hint) ≡ some i
      → IsFirst t.entries t.next_fd_hint (length t.entries - t.next_fd_hint) i
      → (i : ℕ) × FreeAt t i
  unfolding find_free_fd
  found_at t h s i found f = (
    i,
    record {
      answer = ground (arith, f.below, f.from);
      within = omega (arith, f.below, f.from);
      free = f.free;
      busy =
          λ k p. elim (dec_lt k t.next_fd_hint) [ yes q ↦ h k q | no q ↦ f.busy k (omega arith) p ];
    },
  )

  at_end :
      (t : Table F)
      → HintOk t
      → IsSmall t
      → first_free t.entries t.next_fd_hint (length t.entries - t.next_fd_hint) ≡ none
      → ((k : ℕ)
          → t.next_fd_hint ≤ k
          → k < t.next_fd_hint + (length t.entries - t.next_fd_hint)
          → is_free t.entries k ≡ false)
      → ((i : ℕ) × FreeAt t i)
        ⊎ ((find_free_fd t ≡ (err (KernelError.fs FsError.too_many_files), t))
            × (max_fds ≤ length t.entries))
  unfolding find_free_fd
  at_end t h s full busy = elim (Bool-cases (leb max_fds (length t.entries))) [
    | inl big ↦ inr (ground arith, ground arith)
    | inr room ↦ inl (
      length t.entries,
      record {
        answer = ground arith;
        within = omega arith;
        free = free_past t.entries;
        busy = λ k p. elim (dec_lt k t.next_fd_hint) [
          | yes q ↦ h k q
          | no q ↦ busy k (omega arith) (omega arith)
        ];
      },
    )
  ]

  -- What `find_free_fd` answers, with the entries as they were: the lowest free index, which may lie
  -- one past the end, or too many files.
  pub find_free_fd-cases :
      (t : Table F)
      → HintOk t
      → IsSmall t
      → ((i : ℕ) × FreeAt t i)
        ⊎ ((find_free_fd t ≡ (err (KernelError.fs FsError.too_many_files), t))
            × (max_fds ≤ length t.entries))
  find_free_fd-cases t h s = elim (Option-cases (first_free es hint (length es - hint))) [
    | inl full ↦ at_end t h s full (first_free-none es hint (length es - hint) full)
    | inr (i, found) ↦
        inl (found_at t h s i found (first_free-some es hint (length es - hint) i found))
  ]
    where
      open t use {entries as es, next_fd_hint as hint}

  pub insert_at-busy :
      (t : Table F) (fd : ℕ) (e : Entry F) (k : ℕ)
      → is_free t.entries k ≡ false
      → is_free (insert_at t fd e).1.entries k ≡ false
  insert_at-busy t fd e k h = ground (arith, slot-insert_at t fd e k)

  pub insert_at-here :
      (t : Table F) (fd : ℕ) (e : Entry F)
      → is_free (insert_at t fd e).1.entries (as_usize fd) ≡ false
  insert_at-here t fd e = ground (arith, slot-insert_at t fd e (as_usize fd))

  hint-insert_at :
      (t : Table F) (fd : ℕ) (e : Entry F) → (insert_at t fd e).1.next_fd_hint ≡ t.next_fd_hint
  unfolding insert_at
  hint-insert_at t fd e = refl

  pub insert_at-HintOk :
      (t : Table F) (fd : ℕ) (e : Entry F) → HintOk t → HintOk (insert_at t fd e).1
  insert_at-HintOk t fd e h k p =
      insert_at-busy t fd e k (h k (omega (arith, hint-insert_at t fd e)))

  pub insert_with_flags-answer :
      (t : Table F) (file : F) (c : Bool) (i : ℕ)
      → FreeAt t i
      → insert_with_flags t file c ≡ (
        ok i,
        (insert_at (record t { next_fd_hint = i + 1 }) i (record { file = file; cloexec = c })).1,
      )
  unfolding insert_with_flags
  insert_with_flags-answer t file c i f = rw (f.answer, insert_with_flags) (rw f.answer)

  pub insert_with_flags-full :
      (t : Table F) (file : F) (c : Bool)
      → find_free_fd t ≡ (err (KernelError.fs FsError.too_many_files), t)
      → insert_with_flags t file c ≡ (err (KernelError.fs FsError.too_many_files), t)
  unfolding insert_with_flags
  insert_with_flags-full t file c e = rw (e, insert_with_flags) (rw e)

  pub insert_with_flags-HintOk :
      (t : Table F) (file : F) (c : Bool)
      → HintOk t
      → IsSmall t
      → HintOk (insert_with_flags t file c).1
  insert_with_flags-HintOk t file c h s = elim (find_free_fd-cases t h s) [
    | inl (i, f) ↦ rw (insert_with_flags-answer t file c i f) λ k p. elim (dec_lt k i) [
      | yes q ↦ insert_at-busy _ i _ k (f.busy k q)
      | no q ↦
          let r : Table F = record t { next_fd_hint = i + 1 } in
          let e : Entry F = record { file = file; cloexec = c } in
          ground (arith, slot-insert_at r i e k, hint-insert_at r i e)
    ]
    | inr (e, full) ↦ rw (insert_with_flags-full t file c e) h
  ]

  pub remove-HintOk : (t : Table F) (fd : ℕ) → HintOk t → HintOk (remove t fd).1
  unfolding remove
  remove-HintOk t fd h k p =
      ground
        (arith, h k, lt_of_busy t.entries (as_usize fd), slot-set t.entries (as_usize fd) k none)

  slot-append :
      (es : List (Option (Entry F))) (e : Entry F) (k : ℕ)
      → is_free es k ≡ false
      → is_free (es ++ some e ∷ []) k ≡ false
  unfolding slot
  slot-append [] e k h = cc
  slot-append (x ∷ es) e zero h = h
  slot-append (x ∷ es) e (suc k) h = slot-append es e k h

  pub insert_above-HintOk :
      (t : Table F) (m : ℕ) (file : F) → HintOk t → HintOk (insert_above t m file).1
  unfolding insert_above
  insert_above-HintOk t m file h =
      elim (Option-cases (first_free t.entries (as_usize m) (length t.entries - as_usize m))) [
        | inl e ↦ rw (e, insert_above) (λ k p. slot-append t.entries _ k (h k p))
        | inr (i, e) ↦ rw (e, insert_above) (insert_at-HintOk t (fd_of i) _ h)
      ]

  pub add_flags-HintOk : (t : Table F) (fd : ℕ) (c : Bool) → HintOk t → HintOk (add_flags t fd c).1
  unfolding add_flags
  add_flags-HintOk t fd c h k p = elim (Option-cases (slot t.entries (as_usize fd))) [
    | inl e ↦ ground (arith, h k)
    | inr (e, q) ↦
        let e' : Entry F = record { file = e.file; cloexec = e.cloexec || c } in
        ground (
          arith,
          h k,
          lt_of_busy t.entries (as_usize fd),
          slot-set t.entries (as_usize fd) k (some e'),
        )
  ]

  -- A change that a system call makes to a table: an insertion (`open`, `dup`, …), F_DUPFD, `dup3`, the
  -- setting of CLOEXEC, and a removal (`close`, and each removal of `close_cloexec_entries`).
  pub data Step (t : Table F) : Table F → Type 0 where
    insert : (file : F) (c : Bool) → IsSmall t → Step t (insert_with_flags t file c).1
    dup_above : (m : ℕ) (file : F) → Step t (insert_above t m file).1
    replace : (fd : ℕ) (e : Entry F) → Step t (insert_at t fd e).1
    flag : (fd : ℕ) (c : Bool) → Step t (add_flags t fd c).1
    close : (fd : ℕ) → Step t (remove t fd).1

  pub data Reach : Table F → Type 0 where
    start : Reach (new F)
    next : {t u : Table F} → Reach t → Step t u → Reach u

  Step-HintOk : {t u : Table F} → Step t u → HintOk t → HintOk u
  Step-HintOk {t} (insert file c s) h = insert_with_flags-HintOk t file c h s
  Step-HintOk {t} (dup_above m file) h = insert_above-HintOk t m file h
  Step-HintOk {t} (replace fd e) h = insert_at-HintOk t fd e h
  Step-HintOk {t} (flag fd c) h = add_flags-HintOk t fd c h
  Step-HintOk {t} (close fd) h = remove-HintOk t fd h

  -- In every table that these changes make from a new one, each insertion by search on a table with
  -- fewer than 2 ^ 31 slots, every slot below the search hint is in use.
  pub Reach-HintOk : {t : Table F} → Reach t → HintOk t
  unfolding new
  Reach-HintOk start = λ k p. absurd (omega arith)
  Reach-HintOk (next r s) = Step-HintOk s (Reach-HintOk r)
