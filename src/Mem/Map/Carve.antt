-- ===== src/Mem/Map/Carve.antt =====
-- libkernel/src/memory/proc_vm/memory_map/mod.rs: `unmap_region` as one pass over the areas in order, which replaces each
-- by what is left of it.
use moss.Common.{
  ℕ, ◌+◌, ◌-◌, ◌≤◌, ◌<◌, ◌≡◌, inl, inr, refl, Bool, true, false, List, [], ◌∷◌, ◌++◌, ltb,
  if◌then◌else◌, usize_mod, arith, ap, ◌∙◌, sym, ◌&&◌, Bool-cases,
}
use mathlib.Core.List.{append_assoc}
use moss.Mem.Region.{Region}
use moss.Mem.Region.Points.{Fits}
use moss.Mem.Vma.{Vma, clone_with_new_region}
use moss.Mem.BTree.{key, insert}
use moss.Mem.Map.{truncated_front, put_back}
use moss.Mem.Map.Order.{stop, Tiled, Below, Below-raise, insert-front, insert-append}

-- What is left of an area before the region, and after it.
abbrev pub left_piece : Region → Vma → Vma
left_piece r v = clone_with_new_region v (record { address = key v; size = r.address - key v })

abbrev pub right_piece : Region → Vma → Vma
right_piece r v =
    if ltb (key v) r.address
    then clone_with_new_region v
        (record { address = r.address + r.size; size = stop v - (r.address + r.size) })
    else truncated_front v (r.address + r.size)

abbrev pub hits : Region → Vma → Bool
hits r v = ltb r.address (stop v) && ltb (key v) (r.address + r.size)

abbrev pub left_list : Region → Vma → List Vma
left_list r v = if ltb (key v) r.address then left_piece r v ∷ [] else []

abbrev pub right_list : Region → Vma → List Vma
right_list r v = if ltb (r.address + r.size) (stop v) then right_piece r v ∷ [] else []

unfoldable pub pieces : Region → Vma → List Vma
pieces r v = if hits r v then left_list r v ++ right_list r v else v ∷ []

unfoldable pub carve : Region → List Vma → List Vma
carve r [] = []
carve r (v ∷ vs) = pieces r v ++ carve r vs

pub key-clone : (v : Vma) (r : Region) → (clone_with_new_region v r).region ≡ r
unfolding clone_with_new_region
key-clone v r = refl

pub region-truncated_front :
    (v : Vma) (e : ℕ)
    → stop v < usize_mod
    → e ≤ stop v
    → (truncated_front v e).region ≡ record { address = e; size = stop v - e }
unfolding truncated_front clone_with_new_region
region-truncated_front v e f h = ground arith

abbrev put_plain : Region → Vma → List Vma → List Vma
put_plain r v ws =
    let kept = if ltb (key v) r.address then insert (left_piece r v) ws else ws in
    if ltb (r.address + r.size) (stop v) then insert (right_piece r v) kept else kept

put_back-eq-plain :
    (r : Region) (v : Vma) (ws : List Vma)
    → Fits r
    → stop v < usize_mod
    → put_back r v ws ≡ put_plain r v ws
unfolding put_back
put_back-eq-plain r v ws f g = ground arith

key-left : (r : Region) (v : Vma) → key (left_piece r v) ≡ key v
unfolding clone_with_new_region
key-left r v = refl

key-right :
    (r : Region) (v : Vma)
    → stop v < usize_mod
    → r.address + r.size ≤ stop v
    → key (right_piece r v) ≡ r.address + r.size
unfolding truncated_front clone_with_new_region
key-right r v f h = ground arith

stop-right :
    (r : Region) (v : Vma)
    → stop v < usize_mod
    → r.address + r.size ≤ stop v
    → stop (right_piece r v) ≡ stop v
unfolding truncated_front clone_with_new_region
stop-right r v f h = ground arith

-- Inserted behind areas with smaller keys and before the areas from `lo` on.
insert-between :
    (x : Vma) (k lo : ℕ) (us vs : List Vma)
    → key x ≡ k
    → Below k us
    → Tiled lo vs
    → k < lo
    → insert x (us ++ vs) ≡ us ++ x ∷ vs
insert-between x k lo us vs e b t h =
    insert-append x k us vs e b ∙ ap (λ ws. us ++ ws) (insert-front lo x vs t (rw e h))

insert-both :
    (x y : Vma) (j k lo : ℕ) (us vs : List Vma)
    → key x ≡ j
    → key y ≡ k
    → j < k
    → Below j us
    → Tiled lo vs
    → k < lo
    → insert y (insert x (us ++ vs)) ≡ us ++ x ∷ y ∷ vs
insert-both x y j k lo us vs d e l b t h =
    ap (insert y) (insert-between x j lo us vs d b t (omega arith))
    ∙ insert-append y k us (x ∷ vs) e (Below-raise j k us (omega arith) b)
    ∙ ap (λ ws. us ++ ws) (insert-between y k lo (x ∷ []) vs e (omega arith, tt) t h)

-- Both ends of an area are pushed into the middle of a list in order.
put_plain-middle :
    (r : Region) (v : Vma) (us vs : List Vma)
    → 0 < v.region.size
    → stop v < usize_mod
    → hits r v ≡ true
    → Below (key v) us
    → Tiled (stop v) vs
    → put_plain r v (us ++ vs) ≡ us ++ (left_list r v ++ (right_list r v ++ vs))
put_plain-middle r v us vs p g h b t = elim (Bool-cases (ltb (key v) r.address)) [
  | inl l ↦ elim (Bool-cases (ltb (r.address + r.size) (stop v))) [
    | inl q ↦
        rw (l, q)
          (insert-both _ _ (key v) (r.address + r.size) (stop v) us vs (key-left r v)
            (ap (λ (x : Region). x.address) (key-clone v _)) (ground arith) b t (ground arith))
    | inr q ↦
        rw (l, q)
          (insert-between (left_piece r v) (key v) (stop v) us vs (key-left r v) b t (omega arith))
  ]
  | inr l ↦ elim (Bool-cases (ltb (r.address + r.size) (stop v))) [
    | inl q ↦
        rw (l, q)
          (insert-between _ (r.address + r.size) (stop v) us vs
            (ap (λ (x : Region). x.address) (region-truncated_front v _ g (ground arith)))
            (Below-raise (key v) (r.address + r.size) us (ground arith) b) t (ground arith))
    | inr q ↦ rw (l, q) refl
  ]
]

pub put_back-middle :
    (r : Region) (v : Vma) (us vs : List Vma)
    → Fits r
    → 0 < v.region.size
    → stop v < usize_mod
    → hits r v ≡ true
    → Below (key v) us
    → Tiled (stop v) vs
    → put_back r v (us ++ vs) ≡ us ++ (pieces r v ++ vs)
unfolding pieces
put_back-middle r v us vs f p g h b t =
    put_back-eq-plain r v (us ++ vs) f g
    ∙ put_plain-middle r v us vs p g h b t
    ∙ ap (λ ws. us ++ ws) (rw h (sym (append_assoc (left_list r v) (right_list r v) vs)))

pub Below-pieces :
    (r : Region) (v : Vma) → 0 < v.region.size → stop v < usize_mod → Below (stop v) (pieces r v)
unfolding pieces
Below-pieces r v p f = ground (arith, key-left r v, key-right r v f)

pub pieces-miss : (r : Region) (v : Vma) → hits r v ≡ false → pieces r v ≡ v ∷ []
unfolding pieces
pieces-miss r v h = rw h

-- Areas from the end of the region on are left as they are.
pub carve-above :
    (lo : ℕ) (r : Region) (vs : List Vma) → Tiled lo vs → r.address + r.size ≤ lo → carve r vs ≡ vs
unfolding carve
carve-above lo r [] t h = refl
carve-above lo r (v ∷ vs) t h =
    rw (pieces-miss r v (ground arith))
      (ap (λ ws. v ∷ ws) (carve-above (stop v) r vs t.3 (omega arith)))
