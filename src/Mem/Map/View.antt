-- ===== src/Mem/Map/View.antt =====
-- libkernel/src/memory/proc_vm/memory_map/mod.rs: what an address of the process stands for after `unmap_region`.
use moss.Common.{
  ℕ, ◌+◌, ◌-◌, ◌≤◌, ◌<◌, ◌≡◌, inl, inr, refl, ◌%◌, Bool, true, not, Option, none, some, List, [],
  ◌∷◌, ◌++◌, ltb, leb, if◌then◌else◌, usize_mod, arith, ap, ◌∙◌, sym, Bool-cases, ◌&&◌, done, ok,
}
use mathlib.Core.Path.{subst}
use mathlib.Core.List.{append_assoc}
use moss.Mem.Region.{Region}
use moss.Mem.Region.Points.{Fits}
use moss.Mem.Vma.{Vma, Kind, file, anon, shared_anon, clone_with_new_region, rebased_kind}
use moss.Mem.BTree.{key}
use moss.Mem.AddressSpace.{AddressSpace}
use moss.Mem.Map.{Map, unmap_region, truncated_front}
use moss.Mem.Map.Order.{stop, Tiled, Tiled-lower}
use moss.Mem.Map.Lookup.{covers, area_at}
use moss.Mem.Map.Unmap.{unmap_region-Carved}
use moss.Mem.Map.Carve.{
  hits, left_piece, right_piece, right_list, pieces, carve, key-clone, region-truncated_front,
}

-- The region covers the address.
abbrev pub inside : Region → ℕ → Bool
inside r a = leb r.address a && ltb a (r.address + r.size)

-- A mapping whose first bytes are cut off, so many: its offset moves on, and wraps at 2 ^ 64.
abbrev pub moved : ℕ → Kind → Kind
moved n (shared_anon m) = shared_anon (record m { offset = (m.offset + n) % usize_mod })
moved n (file m) = file (record m { offset = (m.offset + n) % usize_mod })
moved n anon = anon

-- One that is split, with the part from so many bytes on: a file's offset stays.
abbrev pub split : ℕ → Kind → Kind
split n (shared_anon m) = shared_anon (record m { offset = (m.offset + n) % usize_mod })
split n (file m) = file m
split n anon = anon

-- The part of an area that is left at an address outside the region: what is before the region, or what is behind
-- it; the area itself, where it shares no address with the region.
abbrev pub piece_at : Region → ℕ → Vma → Vma
piece_at r a v =
    let end = r.address + r.size in
    if ltb r.address (stop v) && ltb (key v) end
    then (if ltb a r.address
        then record v {
          region = record { address = key v; size = r.address - key v };
          kind = split 0 v.kind;
        }
        else record v {
          region = record { address = end; size = stop v - end };
          kind = (if ltb (key v) r.address then split else moved) (end - key v) v.kind;
        })
    else v

-- the same, as the code makes it
abbrev made_at : Region → ℕ → Vma → Vma
made_at r a v =
    if hits r v then (if ltb a r.address then left_piece r v else right_piece r v) else v

split-rebased : (x y : ℕ) (k : Kind) → x ≤ y → y < usize_mod → rebased_kind x y k ≡ split (y - x) k
unfolding rebased_kind
split-rebased x y (shared_anon m) h l =
    ap (λ o. shared_anon (record m { offset = o })) (omega arith)
split-rebased x y (file m) h l = refl
split-rebased x y anon h l = refl

truncated_front-kind :
    (v : Vma) (x : Kind) (e : ℕ)
    → v.kind ≡ x
    → key v ≤ e
    → e ≤ stop v
    → stop v < usize_mod
    → (truncated_front v e).kind ≡ moved (e - key v) x
unfolding truncated_front clone_with_new_region rebased_kind
truncated_front-kind v (shared_anon m) e q k h f =
    rw (q, truncated_front, clone_with_new_region)
      (ap (rebased_kind (key v) e) q
        ∙ ap (λ o. shared_anon (record m { offset = o })) (omega arith))
truncated_front-kind v (file m) e q k h f =
    rw (q, truncated_front, clone_with_new_region)
      (ap (λ o. file (record m { offset = o })) (omega arith))
truncated_front-kind v anon e q k h f =
    rw (q, truncated_front, clone_with_new_region) (ap (rebased_kind (key v) e) q)

truncated_front-rest :
    (v : Vma) (x : Kind) (e : ℕ)
    → v.kind ≡ x
    → truncated_front v e
      ≡ record v { region = (truncated_front v e).region; kind = (truncated_front v e).kind }
unfolding truncated_front clone_with_new_region rebased_kind
truncated_front-rest v (shared_anon m) e q = rw (q, truncated_front, clone_with_new_region) refl
truncated_front-rest v (file m) e q = rw (q, truncated_front, clone_with_new_region) refl
truncated_front-rest v anon e q = rw (q, truncated_front, clone_with_new_region) refl

truncated_front-eq :
    (v : Vma) (e : ℕ)
    → key v ≤ e
    → e ≤ stop v
    → stop v < usize_mod
    → truncated_front v e ≡ record v {
      region = record { address = e; size = stop v - e };
      kind = moved (e - key v) v.kind;
    }
truncated_front-eq v e k h f =
    truncated_front-rest v v.kind e refl
    ∙ ap (λ r. record v { region = r; kind = (truncated_front v e).kind })
        (region-truncated_front v e f h)
    ∙ ap (λ x. record v { region = record { address = e; size = stop v - e }; kind = x })
        (truncated_front-kind v v.kind e refl k h f)

cloned-eq :
    (v : Vma) (x n : ℕ)
    → key v ≤ x
    → x < usize_mod
    → clone_with_new_region v (record { address = x; size = n })
      ≡ record v { region = record { address = x; size = n }; kind = split (x - key v) v.kind }
unfolding clone_with_new_region
cloned-eq v x n h l =
    ap (λ k. record v { region = record { address = x; size = n }; kind = k })
      (split-rebased (key v) x v.kind h l)

made_at-eq :
    (r : Region) (a : ℕ) (v : Vma)
    → stop v < usize_mod
    → covers v a && not (inside r a) ≡ true
    → made_at r a v ≡ piece_at r a v
made_at-eq r a v f c = ground (
  arith,
  cloned-eq v (key v) (r.address - key v),
  cloned-eq v (r.address + r.size) (stop v - (r.address + r.size)),
  truncated_front-eq v (r.address + r.size),
)

region-left :
    (r : Region) (v : Vma)
    → (left_piece r v).region ≡ record { address = key v; size = r.address - key v }
region-left r v = key-clone v _

region-right :
    (r : Region) (v : Vma)
    → stop v < usize_mod
    → r.address + r.size ≤ stop v
    → (right_piece r v).region
      ≡ record { address = r.address + r.size; size = stop v - (r.address + r.size) }
region-right r v f h = elim (Bool-cases (ltb (key v) r.address)) [
  | inl e ↦ rw e (key-clone v _)
  | inr e ↦ rw e (region-truncated_front v _ f h)
]

area_at-made :
    (r : Region) (v : Vma) (ws : List Vma) (a : ℕ)
    → stop v < usize_mod
    → area_at (pieces r v ++ ws) a
      ≡ (if covers v a && not (inside r a) then some (made_at r a v) else area_at ws a)
unfolding pieces
area_at-made r v ws a f = ground (arith, region-left r v, region-right r v f)

area_at-pieces :
    (r : Region) (v : Vma) (ws : List Vma) (a : ℕ)
    → stop v < usize_mod
    → area_at (pieces r v ++ ws) a
      ≡ (if covers v a && not (inside r a) then some (piece_at r a v) else area_at ws a)
area_at-pieces r v ws a f = elim (Bool-cases (covers v a && not (inside r a))) [
  | inl c ↦ rw c (area_at-made r v ws a f ∙ rw c (ap some (made_at-eq r a v f c)))
  | inr c ↦ rw c (area_at-made r v ws a f ∙ rw c refl)
]

abbrev pub map_option {ℓ κ} : {A : Type ℓ} {B : Type κ} → (A → B) → Option A → Option B
map_option f none = none
map_option f (some a) = some (f a)

area_at-carve :
    (lo : ℕ) (r : Region) (vs : List Vma) (a : ℕ)
    → Tiled lo vs
    → area_at (carve r vs) a
      ≡ (if inside r a then none else map_option (piece_at r a) (area_at vs a))
unfolding carve
area_at-carve lo r [] a t = ground arith
area_at-carve lo r (v ∷ vs) a t =
    ground (arith, area_at-pieces r v (carve r vs) a t.2, area_at-carve (stop v) r vs a t.3)

Tiled-one :
    (lo hi k n : ℕ) (x : Vma) (ws : List Vma)
    → x.region ≡ record { address = k; size = n }
    → lo ≤ k
    → 0 < n
    → k + n ≤ hi
    → hi < usize_mod
    → Tiled hi ws
    → Tiled lo (x ∷ ws)
Tiled-one lo hi k n x ws e l p s f t =
    let a : key x ≡ k = ap (λ (r : Region). r.address) e in
    let b : x.region.size ≡ n = ap (λ (r : Region). r.size) e in
    (omega arith, omega arith, omega arith, Tiled-lower hi (stop x) ws (omega arith) t)

Tiled-right :
    (lo : ℕ) (r : Region) (v : Vma) (ws : List Vma)
    → lo ≤ r.address + r.size
    → stop v < usize_mod
    → lo ≤ stop v
    → Tiled (stop v) ws
    → Tiled lo (right_list r v ++ ws)
Tiled-right lo r v ws l f s t = elim (Bool-cases (ltb (r.address + r.size) (stop v))) [
  | inl q ↦ rw q (
      Tiled-one lo (stop v) (r.address + r.size) (stop v - (r.address + r.size)) (right_piece r v)
        ws (region-right r v f (ground arith)) l (ground arith) (ground arith) f t)
  | inr q ↦ rw q (Tiled-lower (stop v) lo ws s t)
]

Tiled-pieces :
    (lo : ℕ) (r : Region) (v : Vma) (ws : List Vma)
    → lo ≤ key v
    → 0 < v.region.size
    → stop v < usize_mod
    → Tiled (stop v) ws
    → Tiled lo (pieces r v ++ ws)
unfolding pieces
Tiled-pieces lo r v ws h p f t = elim (Bool-cases (hits r v)) [
  | inr m ↦ rw m (h, p, f, t)
  | inl m ↦
      rw (m, append_assoc)
        (elim (Bool-cases (ltb (key v) r.address)) [
          | inl l ↦
              subst (λ us. Tiled lo (us ++ (right_list r v ++ ws)))
                (ap (λ b. if b then left_piece r v ∷ [] else []) (sym l))
                (Tiled-one lo r.address (key v) (r.address - key v) (left_piece r v)
                  (right_list r v ++ ws) (region-left r v) h (ground arith) (ground arith)
                  (ground arith) (Tiled-right r.address r v ws (omega arith) f (ground arith) t))
          | inr l ↦
              subst (λ us. Tiled lo (us ++ (right_list r v ++ ws)))
                (ap (λ b. if b then left_piece r v ∷ [] else []) (sym l))
                (Tiled-right lo r v ws (ground arith) f (ground arith) t)
        ])
]

pub carve-Tiled : (lo : ℕ) (r : Region) (vs : List Vma) → Tiled lo vs → Tiled lo (carve r vs)
unfolding carve
carve-Tiled lo r [] t = tt
carve-Tiled lo r (v ∷ vs) t =
    Tiled-pieces lo r v (carve r vs) t.0 t.1 t.2 (carve-Tiled (stop v) r vs t.3)

module _ (AS : AddressSpace) where
  -- On a map whose areas are in order, a region that does not wrap is unmapped like this: where
  -- `unmap_region` succeeds, no address of the region has an area, and every other address has what is
  -- left of the area that it had, or none as before. What is left has the name and the permissions of the area, and
  -- the part of its region before or behind the unmapped one; the offset of a shared mapping moves on with the start,
  -- that of a file does where the front of the area is cut off, and stays where the area is split. The areas
  -- are in order again.
  pub unmap_region-area_at :
      (r : Region) (w : Option Vma) (lo a : ℕ) (m m' : Map AS) (ps : List ℕ)
      → Fits r
      → Tiled lo m.vmas
      → unmap_region AS r w m ≡ done (ok ps, m')
      → (area_at m'.vmas a
          ≡ (if inside r a then none else map_option (piece_at r a) (area_at m.vmas a)))
        × Tiled lo m'.vmas
  unmap_region-area_at r w lo a m m' ps f t h = elim (unmap_region-Carved AS r w lo m f t) [
    | inl (e, n, q) ↦ cc
    | inr (ps', n, q, v) ↦
        let answer : m' ≡ n = cc in
        let same : m'.vmas ≡ carve r m.vmas = ap (λ (x : Map AS). x.vmas) answer ∙ v in
        (rw same (area_at-carve lo r m.vmas a t), rw same (carve-Tiled lo r m.vmas t))
  ]
