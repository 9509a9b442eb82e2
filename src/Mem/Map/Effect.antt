-- ===== src/Mem/Map/Effect.antt =====
-- A method of `MemoryMap` on `&mut self`: it may panic, and it gives a result beside the changed map. An error
-- that `?` passes on leaves the map as it is at that point.
use moss.Common.{ℕ, Option, none, some, List, Exec, done, panicked, Result, ok, err, KernelError}
use moss.Mem.Vma.{Vma}
use moss.Mem.BTree.{find, remove}
use moss.Mem.AddressSpace.{AddressSpace}
use moss.Mem.Map.{Map, merge_vma, insert_and_merge}

module _ (AS : AddressSpace) where
  open AS use {Space}

  abbrev pub Eff : Type 0 → Type 0
  Eff A = Map AS → Exec (Result A × Map AS)

  abbrev pub pass :
      {A B : Type 0} → Exec (Result A × Map AS) → (A → Eff B) → Exec (Result B × Map AS)
  pass panicked k = panicked
  pass (done (ok a, m)) k = k a m
  pass (done (err e, m)) k = done (err e, m)

  abbrev pub bind : {A B : Type 0} → Eff A → (A → Eff B) → Eff B
  bind f k m = pass (f m) k

  abbrev pub pure : {A : Type 0} → A → Eff A
  pure a m = done (ok a, m)

  abbrev pub fail : {A : Type 0} → KernelError → Eff A
  fail e m = done (err e, m)

  -- a call that does not touch the map, and may panic
  abbrev pub from_exec : {A : Type 0} → Exec A → Eff A
  from_exec panicked m = panicked
  from_exec (done a) m = done (ok a, m)

  -- `option.ok_or(e)?`
  abbrev pub ok_or : {A : Type 0} → Option A → KernelError → Eff A
  ok_or none e m = done (err e, m)
  ok_or (some a) e m = done (ok a, m)

  abbrev pub get_vmas : Eff (List Vma)
  get_vmas m = done (ok m.vmas, m)

  -- a method of the address space
  abbrev pub on_space : {A : Type 0} → (Space → Result A × Space) → Eff A
  on_space f m = let (r, s) = f m.space in done (r, record m { space = s })

  -- `self.vmas.remove(&k);` and `self.vmas.remove(&k).unwrap();`
  abbrev pub remove_key : ℕ → Eff (Unit {0})
  remove_key k m = done (ok tt, record m { vmas = remove k m.vmas })

  abbrev pub remove_unwrap : ℕ → Eff (Unit {0})
  remove_unwrap k m = elim (find k m.vmas) [
    | none ↦ panicked
    | some _ ↦ done (ok tt, record m { vmas = remove k m.vmas })
  ]

  abbrev pub merging : Vma → Eff (Unit {0})
  merging v m = elim (merge_vma m.vmas v) [
    | panicked ↦ panicked
    | done vs ↦ done (ok tt, record m { vmas = vs })
  ]

  abbrev pub inserting : Vma → Eff (Unit {0})
  inserting v m = elim (insert_and_merge AS v m) [
    | panicked ↦ panicked
    | done m' ↦ done (ok tt, m')
  ]
