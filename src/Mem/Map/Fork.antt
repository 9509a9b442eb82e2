-- ===== src/Mem/Map/Fork.antt =====
-- libkernel/src/memory/proc_vm/memory_map/mod.rs: `clone_as_cow`, the memory map of a fork.
use moss.Common.{not, ◌&&◌, List, [], ◌∷◌, if◌then◌else◌, Exec, done, panicked, Result, ok, err}
use moss.Mem.Region.{align_to_page_boundary}
use moss.Mem.Vma.{Vma, is_shared}
use moss.Mem.AddressSpace.{AddressSpace, PtePermissions, pte_of, into_cow}
use moss.Mem.Map.{Map}
use moss.Mem.Map.Effect.{Eff}

module _ (AS : AddressSpace) where
  open AS use {Space, protect_and_clone_region, new_space}

  -- the page permissions that a fork gives an area in both processes
  unfoldable pub cow_permissions : Vma → PtePermissions
  unfolding pte_of into_cow
  cow_permissions vma =
      let p = pte_of vma.permissions in if not (is_shared vma) && p.write then into_cow p else p

  unfoldable pub clone_areas : List Vma → Space → Space → Exec (Result (Unit {0}) × Space × Space)
  unfolding cow_permissions
  clone_areas [] s t = done (ok tt, s, t)
  clone_areas (v ∷ vs) s t = elim (align_to_page_boundary v.region) [
    | panicked ↦ panicked
    | done r ↦
        (let (res, s', t') = protect_and_clone_region r (cow_permissions v) s t in
          elim res [ ok _ ↦ clone_areas vs s' t' | err e ↦ done (err e, s', t') ])
  ]

  unfoldable pub clone_as_cow : Eff AS (Map AS)
  unfolding clone_areas
  clone_as_cow m = elim new_space [
    | err e ↦ done (err e, m)
    | ok fresh ↦ elim (clone_areas m.vmas m.space fresh) [
      | panicked ↦ panicked
      | done (res, s, t) ↦ elim res [
        | err e ↦ done (err e, record m { space = s })
        | ok _ ↦ done (ok (record { vmas = m.vmas; space = t }), record m { space = s })
      ]
    ]
  ]
