-- ===== src/Mem/Map/Cow.antt =====
-- libkernel/src/memory/proc_vm/memory_map/mod.rs: what a fork asks of the page tables.
use moss.Common.{
  ◌+◌, ◌<◌, ◌≡◌, ◌⊎◌, inl, inr, refl, sym, true, not, ◌&&◌, arith, List, [], ◌∷◌, All, Exec, done,
  panicked, Result, ok, err, Result-cases, usize_mod,
}
use mathlib.Core.Path.{subst}
use moss.Mem.Region.{Region, page_size}
use moss.Mem.Region.Pages.{IsPageHull, align_to_page_boundary_hull}
use moss.Mem.Vma.{Vma, is_shared}
use moss.Mem.AddressSpace.{AddressSpace, PtePermissions, pte_of, into_cow}
use moss.Mem.Map.{Map}
use moss.Mem.Map.Fork.{cow_permissions, clone_areas, clone_as_cow}

-- The page permissions that both processes have after a fork: a private area is not writable, and is marked to be
-- copied on a write where it was writable.
abbrev pub forked : Vma → PtePermissions
forked v = record {
  read = v.permissions.read;
  write = is_shared v && v.permissions.write;
  execute = v.permissions.execute;
  user = true;
  cow = not (is_shared v) && v.permissions.write;
}

-- an area that ends, rounded up, below 2 ^ 64
abbrev pub IsLow : Vma → Type 0
IsLow v = v.region.address + v.region.size + page_size < usize_mod

module _ (AS : AddressSpace) where
  open AS use {Space, protect_and_clone_region, new_space}

  -- What the loop over the areas came to, and what one call answers.
  abbrev pub Clone : Type 0
  Clone = Result (Unit {0}) × Space × Space

  abbrev pub Continues : (Space → Space → Type 0) → Clone → Clone → Type 0
  Continues rest x (ok u, s, t) = rest s t
  Continues rest x (err e, s, t) = x ≡ (err e, s, t)

  -- The pages of every area, one area after the other, are cloned from the page tables `s` to `t` with the permissions
  -- of `forked`, up to the first that fails; this comes to `x`.
  abbrev pub Clones : List Vma → Space → Space → Clone → Type 0
  Clones [] s t x = x ≡ (ok tt, s, t)
  Clones (v ∷ vs) s t x =
      (h : Region) × IsPageHull v.region h
      × Continues (λ s' t'. Clones vs s' t' x) x (protect_and_clone_region h (forked v) s t)

  cow_permissions-forked : (v : Vma) → cow_permissions AS v ≡ forked v
  unfolding cow_permissions pte_of into_cow
  cow_permissions-forked v = ground arith

  abbrev pub ClonesTo : List Vma → Space → Space → Exec Clone → Type 0
  ClonesTo vs s t panicked = ⊥
  ClonesTo vs s t (done x) = Clones vs s t x

  clone_areas-Clones :
      (vs : List Vma) (s t : Space)
      → All IsLow vs
      → (x : Clone) × (clone_areas AS vs s t ≡ done x) × Clones vs s t x
  unfolding clone_areas
  clone_areas-Clones [] s t p = ((ok tt, s, t), refl, refl)
  clone_areas-Clones (v ∷ vs) s t p =
      let (h, e, hull) = align_to_page_boundary_hull v.region (omega arith) in
      let c = cow_permissions-forked v in
      let s' = (protect_and_clone_region h (forked v) s t).1 in
      let t' = (protect_and_clone_region h (forked v) s t).2 in
      elim (Result-cases (protect_and_clone_region h (forked v) s t).0) [
        | inl (u, o) ↦
            let (x, d, k) = clone_areas-Clones vs s' t' p.1 in
            let rest = λ (a b : Space). Clones vs a b x in
            (
              x,
              simp (e, c, o, clone_areas) d,
              (h, hull, subst (λ r. Continues rest x (r, s', t')) (sym o) k),
            )
        | inr (r, o) ↦
            let x : Clone = (err r, s', t') in
            let rest = λ (a b : Space). Clones vs a b x in
            (
              x,
              simp (e, c, o, clone_areas) refl,
              (h, hull, subst (λ r. Continues rest x (r, s', t')) (sym o) refl),
            )
      ]

  -- What a fork comes to: the maps of the child and of the parent, and what was asked of the page tables.
  abbrev pub Forked : Map AS → Exec (Result (Map AS) × Map AS) → Type 0
  Forked m panicked = ⊥
  Forked m (done (err e, m')) =
      ((new_space ≡ err e) × (m' ≡ m))
      ⊎ ((fresh : Space) × (t : Space) × (new_space ≡ ok fresh)
          × Clones m.vmas m.space fresh (err e, m'.space, t)
          × (m'.vmas ≡ m.vmas))
  Forked m (done (ok child, m')) =
      (fresh : Space) × (new_space ≡ ok fresh)
      × Clones m.vmas m.space fresh (ok tt, m'.space, child.space)
      × (child.vmas ≡ m.vmas)
      × (m'.vmas ≡ m.vmas)

  -- For a map whose areas end, rounded up, below 2 ^ 64: `clone_as_cow` does not panic. Where it succeeds, parent and
  -- child have the areas of the parent, and for each area in order the pages that it touches were cloned from the page
  -- tables of the parent to new ones: with the permissions of the area, except that a private area is not writable in
  -- either, and is marked as copy-on-write exactly if it was writable. Where new page tables are refused, nothing
  -- changes; where a cloning fails, the parent keeps its areas, the ones before were cloned so, and none after.
  pub clone_as_cow-Forked : (m : Map AS) → All IsLow m.vmas → Forked m (clone_as_cow AS m)
  unfolding clone_as_cow
  clone_as_cow-Forked m p = elim (Result-cases new_space) [
    | inr (e, q) ↦ rw (q, clone_as_cow) (inl (q, refl))
    | inl (fresh, q) ↦
        let (x, d, k) = clone_areas-Clones m.vmas m.space fresh p in
        rw (q, clone_as_cow) (rw (d, clone_as_cow) (finish fresh q x k))
  ]
    where
      finish :
          (fresh : Space) (q : new_space ≡ ok fresh) (x : Clone)
          → Clones m.vmas m.space fresh x
          → Forked m (elim x.0 [
            | err e ↦ done (err e, record m { space = x.1 })
            | ok _ ↦ done (ok (record { vmas = m.vmas; space = x.2 }), record m { space = x.1 })
          ])
      finish fresh q (ok u, s, t) k = (fresh, q, k, refl, refl)
      finish fresh q (err e, s, t) k = inr (fresh, t, q, k, refl)
