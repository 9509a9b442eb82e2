-- ===== src/Mem/Map/Unmap.antt =====
-- libkernel/src/memory/proc_vm/memory_map/mod.rs: `unmap_region` never panics on a map in order, and carves the region out of
-- its areas.
use moss.Common.{
  ℕ, ◌≤◌, ◌<◌, ◌≡◌, ◌⊎◌, inl, inr, refl, true, Option, some, List, [], ◌∷◌, ◌++◌, ltb, usize_mod,
  arith, ap, ◌∙◌, sym, Bool-cases, Result-cases, dec_lt, dec_le, Exec, done, Result, ok, err,
  KernelError,
}
use mathlib.Core.List.{append_assoc}
use moss.Mem.Region.{Region, end_address}
use moss.Mem.Region.Points.{Fits}
use moss.Mem.Vma.{Vma}
use moss.Mem.BTree.{key, find, remove, last_lt, range_from}
use moss.Mem.AddressSpace.{AddressSpace}
use moss.Mem.Map.{
  Map, starts_within, affected, put_back, fixup_pg_tables, unmap_one, unmap_all, unmap_region,
}
use moss.Mem.Map.Order.{
  stop, Tiled, Below, Below-raise, Below-append, remove-middle, find-middle, last_lt-none,
  range_from-all,
}
use moss.Mem.Map.Carve.{
  hits, pieces, carve, put_back-middle, Below-pieces, carve-above, pieces-miss,
}

module _ (AS : AddressSpace) where
  -- The code did not panic: the page tables gave an error, or the areas are these now.
  abbrev pub Carved : List Vma → Exec (Result (List ℕ) × Map AS) → Type 0
  Carved target x =
      ((e : KernelError) × (m : Map AS) × (x ≡ done (err e, m)))
      ⊎ ((ps : List ℕ) × (m : Map AS) × (x ≡ done (ok ps, m)) × (m.vmas ≡ target))

  unmap_one-Carved :
      (r : Region) (w : Option Vma) (v : Vma) (us vs : List Vma) (m : Map AS)
      → m.vmas ≡ us ++ v ∷ vs
      → Fits r
      → 0 < v.region.size
      → stop v < usize_mod
      → hits r v ≡ true
      → Below (key v) us
      → Tiled (stop v) vs
      → Carved (us ++ (pieces r v ++ vs)) (unmap_one AS r w v m)
  unfolding unmap_one
  unmap_one-Carved r w v us vs m e f p g h b t =
      elim (Result-cases (fixup_pg_tables AS r v w m.space).0) [
        | inl (ps, q) ↦ inr (
          ps,
          record {
            vmas = put_back r v (remove (key v) m.vmas);
            space = (fixup_pg_tables AS r v w m.space).1;
          },
          ground (arith, found),
          (ap (put_back r v) removed ∙ put_back-middle r v us vs f p g h b t),
        )
        | inr (e', q) ↦ inl (
          e',
          record { vmas = remove (key v) m.vmas; space = (fixup_pg_tables AS r v w m.space).1 },
          ground (arith, found),
        )
      ]
    where
      found : find (key v) m.vmas ≡ some v
      found = rw e (find-middle v us vs b)

      removed : remove (key v) m.vmas ≡ us ++ vs
      removed = rw e (remove-middle v us vs b)

  Carved-target :
      (a b : List Vma) (x : Exec (Result (List ℕ) × Map AS)) → a ≡ b → Carved a x → Carved b x
  Carved-target a b x e (inl s) = inl s
  Carved-target a b x e (inr (ps, m, q, v)) = inr (ps, m, q, v ∙ e)

  unmap_all-ok :
      (r : Region) (w : Option Vma) (v : Vma) (rest : List Vma) (pages ps : List ℕ) (m m' : Map AS)
      → unmap_one AS r w v m ≡ done (ok ps, m')
      → unmap_all AS r w (v ∷ rest) pages m ≡ unmap_all AS r w rest (pages ++ ps) m'
  unfolding unmap_all
  unmap_all-ok r w v rest pages ps m m' q = rw (q, unmap_all)

  unmap_all-err :
      (r : Region) (w : Option Vma) (v : Vma) (rest : List Vma) (pages : List ℕ) (m m' : Map AS)
      (e : KernelError)
      → unmap_one AS r w v m ≡ done (err e, m')
      → unmap_all AS r w (v ∷ rest) pages m ≡ done (err e, m')
  unfolding unmap_all
  unmap_all-err r w v rest pages m m' e q = rw (q, unmap_all)

  -- One round, and the rest of the loop as `go` has it.
  unmap_step-Carved :
      (r : Region) (w : Option Vma) (v : Vma) (us vs rest : List Vma) (pages : List ℕ) (m : Map AS)
      → m.vmas ≡ us ++ v ∷ vs
      → Fits r
      → 0 < v.region.size
      → stop v < usize_mod
      → hits r v ≡ true
      → Below (key v) us
      → Tiled (stop v) vs
      → ((pages' : List ℕ) (m' : Map AS)
          → m'.vmas ≡ (us ++ pieces r v) ++ vs
          → Below (stop v) (us ++ pieces r v)
          → Carved ((us ++ pieces r v) ++ carve r vs) (unmap_all AS r w rest pages' m'))
      → Carved (us ++ (pieces r v ++ carve r vs)) (unmap_all AS r w (v ∷ rest) pages m)
  unmap_step-Carved r w v us vs rest pages m e f p g h b t go =
      elim (unmap_one-Carved r w v us vs m e f p g h b t) [
        | inl (e', m', q) ↦ inl (e', m', unmap_all-err r w v rest pages m m' e' q)
        | inr (ps, m', q, em) ↦ rw (unmap_all-ok r w v rest pages ps m m' q) (
            Carved-target _ _ _ (append_assoc us (pieces r v) (carve r vs)) (
              go (pages ++ ps) m' (em ∙ sym (append_assoc us (pieces r v) vs)) (
                Below-append (stop v) us (pieces r v)
                  (Below-raise (key v) (stop v) us (omega arith) b) (Below-pieces r v p g))))
      ]

  unmap_none-Carved :
      (r : Region) (w : Option Vma) (vs : List Vma) (pages : List ℕ) (m : Map AS)
      → m.vmas ≡ vs
      → Carved vs (unmap_all AS r w [] pages m)
  unfolding unmap_all
  unmap_none-Carved r w vs pages m e = inr (pages, m, refl, e)

  -- The loop over the areas that start within the region, behind those that are done.
  unmap_within-Carved :
      (r : Region) (w : Option Vma) (us vs : List Vma) (lo : ℕ) (pages : List ℕ) (m : Map AS)
      → m.vmas ≡ us ++ vs
      → Fits r
      → Below lo us
      → Tiled lo vs
      → r.address ≤ lo
      → Carved (us ++ carve r vs) (unmap_all AS r w (starts_within (end_address r) vs) pages m)
  unfolding starts_within carve
  unmap_within-Carved r w us [] lo pages m e f b t l = unmap_none-Carved r w (us ++ []) pages m e
  unmap_within-Carved r w us (v ∷ vs) lo pages m e f b t l =
      elim (Bool-cases (ltb (key v) (end_address r))) [
        | inl q ↦ rw q (
            unmap_step-Carved r w v us vs _ pages m e f t.1 t.2 (ground arith)
              (Below-raise lo (key v) us t.0 b) t.3
              (λ pages' m' e' b'.
                unmap_within-Carved r w (us ++ pieces r v) vs (stop v) pages' m' e' f b' t.3
                  (omega arith)))
        | inr q ↦ rw q (
            Carved-target _ _ _
              (ap (λ ws. us ++ ws)
                (sym (carve-above (key v) r (v ∷ vs) (omega arith, t.1, t.2, t.3) (ground arith))))
              (unmap_none-Carved r w (us ++ v ∷ vs) pages m e))
      ]

  affected-skip :
      (r : Region) (v : Vma) (vs : List Vma)
      → 0 < v.region.size
      → stop v < usize_mod
      → stop v ≤ r.address
      → affected (v ∷ vs) r ≡ affected vs r
  unfolding affected last_lt range_from
  affected-skip r v vs p f h = ground arith

  affected-straddle :
      (r : Region) (v : Vma) (vs : List Vma)
      → Tiled (stop v) vs
      → stop v < usize_mod
      → r.address < stop v
      → key v < r.address
      → affected (v ∷ vs) r ≡ v ∷ starts_within (end_address r) vs
  unfolding affected last_lt range_from
  affected-straddle r v vs t f h k = ground (
    arith,
    last_lt-none (stop v) r.address vs t (omega arith),
    range_from-all (stop v) r.address vs t (omega arith),
  )

  affected-inside :
      (r : Region) (lo : ℕ) (vs : List Vma)
      → Tiled lo vs
      → r.address ≤ lo
      → affected vs r ≡ starts_within (end_address r) vs
  unfolding affected
  affected-inside r lo vs t h =
      rw (last_lt-none lo r.address vs t h, affected) (rw (range_from-all lo r.address vs t h))

  unmap_affected-Carved :
      (r : Region) (w : Option Vma) (us vs : List Vma) (lo : ℕ) (pages : List ℕ) (m : Map AS)
      → m.vmas ≡ us ++ vs
      → Fits r
      → Below lo us
      → Tiled lo vs
      → Carved (us ++ carve r vs) (unmap_all AS r w (affected vs r) pages m)
  unfolding carve starts_within
  unmap_affected-Carved r w us [] lo pages m e f b t =
      rw (affected-inside r r.address [] tt (omega arith))
        (unmap_none-Carved r w (us ++ []) pages m e)
  unmap_affected-Carved r w us (v ∷ vs) lo pages m e f b t = elim (dec_le (stop v) r.address) [
    | yes h ↦
        rw (affected-skip r v vs t.1 t.2 h, pieces-miss r v (ground arith))
          (Carved-target _ _ _ (append_assoc us (v ∷ []) (carve r vs)) (
            unmap_affected-Carved r w (us ++ v ∷ []) vs (stop v) pages m
              (e ∙ sym (append_assoc us (v ∷ []) vs)) f
              (Below-append (stop v) us (v ∷ []) (Below-raise lo (stop v) us (omega arith) b)
                (omega arith, tt))
              t.3))
    | no h ↦ elim (dec_lt (key v) r.address) [
      | yes k ↦ rw (affected-straddle r v vs t.3 t.2 (omega arith) k) (
          unmap_step-Carved r w v us vs _ pages m e f t.1 t.2 (ground arith)
            (Below-raise lo (key v) us t.0 b) t.3
            (λ pages' m' e' b'.
              unmap_within-Carved r w (us ++ pieces r v) vs (stop v) pages' m' e' f b' t.3
                (omega arith)))
      | no k ↦ rw (affected-inside r (key v) (v ∷ vs) (omega arith, t.1, t.2, t.3) (omega arith)) (
          unmap_within-Carved r w us (v ∷ vs) (key v) pages m e f (Below-raise lo (key v) us t.0 b)
            (omega arith, t.1, t.2, t.3) (omega arith))
    ]
  ]

  -- On a map whose areas are in order, `unmap_region` of a region that does not wrap finds each area that
  -- it removes, so that no `unwrap` fails; unless the page tables give an error, the areas are
  -- afterwards those of the map with the region carved out of each.
  pub unmap_region-Carved :
      (r : Region) (w : Option Vma) (lo : ℕ) (m : Map AS)
      → Fits r
      → Tiled lo m.vmas
      → Carved (carve r m.vmas) (unmap_region AS r w m)
  unfolding unmap_region
  unmap_region-Carved r w lo m f t = unmap_affected-Carved r w [] m.vmas lo [] m refl f tt t
