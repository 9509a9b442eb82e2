-- ===== src/Mem/Frames/Cycle.antt =====
-- libkernel/src/memory/allocators/phys.rs: a block that is allocated and freed again.
use moss.Common.{
  ℕ, ◌+◌, ◌*◌, ◌/◌, ◌≤◌, ◌<◌, ◌≡◌, inl, inr, sym, ap, ◌∙◌, usize_mod, arith, wadd, wsub, Exec, done,
  panicked, ok,
}
use mathlib.Core.Path.{subst}
use native.Mathlib.Nat.{mul-div_cancel}
use moss.Mem.Region.{Region, page_size}
use moss.Mem.Frames.{Inner, AllocatedInfo, pages, max_order, free_frames, alloc_frames}
use moss.Mem.Frames.Weight.{Additive, Block, has_page, has_page-Additive}
use moss.Mem.Frames.Sound.{Runs, free_weight, Sound}
use moss.Mem.Frames.Allocate.{Allocated, alloc_frames-Allocated}
use moss.Mem.Frames.Release.{free_frames-Freed}

value : {A : Type 0} → A → Exec A → A
value a (done b) = b
value a panicked = a

Runs-done : {A : Type 0} (P : A → Type 0) (m : Exec A) (a : A) → Runs P m → m ≡ done a → P a
unfolding value
Runs-done P m a (b, e, h) d = subst P (ap (value a) (sym e ∙ d)) h

wadd-wsub : (a b : ℕ) → a < usize_mod → b ≤ usize_mod → wadd (wsub a b) b ≡ a
wadd-wsub a b h k = omega arith

module _ (base total : ℕ) where
  -- The pages of an answered block that were in one free block before are in none afterwards.
  pub alloc_frames-exclusive :
      (order : ℕ) (s s' : Inner) (r : Region) (x : ℕ)
      → (base + total) * page_size < usize_mod
      → Sound base total s
      → alloc_frames order s ≡ done (ok r, s')
      → free_weight (has_page x) s ≤ 1
      → r.address ≤ x * page_size
      → x * page_size < r.address + r.size
      → (free_weight (has_page x) s ≡ 1) × (free_weight (has_page x) s' ≡ 0)
  alloc_frames-exclusive order s s' r x w h e u l m =
      let (p, a, b, c, d, f, g, t) =
        Runs-done (Allocated base total order s) (alloc_frames order s) (ok r, s')
          (alloc_frames-Allocated base total order s w h) e in
      let lo : r.address ≡ p * page_size = ap (λ (r : Region). r.address) a in
      let hi : r.size ≡ pages order * page_size = ap (λ (r : Region). r.size) a in
      let i : has_page x order p ≡ 1 = ground arith in
      let j = f (has_page x) (has_page-Additive x) in (omega arith, omega arith)

  -- A block that was allocated by itself and is freed again: the free pages are as many as before, and every page is
  -- in as many free blocks as before.
  pub free-alloc_frames :
      (order : ℕ) (s s' : Inner) (r : Region)
      → (base + total) * page_size < usize_mod
      → s.free_pages < usize_mod
      → order ≤ max_order
      → Sound base total s
      → alloc_frames order s ≡ done (ok r, s')
      → Runs
          (λ s''.
            Sound base total s''
            × (s''.free_pages ≡ s.free_pages)
            × ((f : ℕ → ℕ → ℕ) → Additive f → free_weight f s'' ≡ free_weight f s))
          (free_frames r s')
  free-alloc_frames order s s' r w n l h e =
      let (p, a, b, c, d, f, g, t) =
        Runs-done (Allocated base total order s) (alloc_frames order s) (ok r, s')
          (alloc_frames-Allocated base total order s w h) e in
      let lo : r.address / page_size ≡ p =
        ap (λ (r : Region). r.address / page_size) a ∙ mul-div_cancel p (omega arith) in
      let info : AllocatedInfo = record { ref_count = 1; order = order } in
      let (s'', i, j) =
        free_frames-Freed base total s' r info c (ap s'.frame_list.state lo ∙ g) l
          (subst (Block base total order) (sym lo) b) in
      (
        s'',
        i,
        elim j [
          | inl k ↦ absurd (omega (arith, k.0))
          | inr k ↦ (
            k.1.sound,
            k.1.count
                ∙ (ap (λ m. wadd m (pages order)) d
                    ∙ wadd-wsub s.free_pages (pages order) n (omega (arith, b.high))),
            λ v z. k.1.weight v z ∙ (ap (λ q. free_weight v s' + v order q) lo ∙ sym (f v z)),
          )
        ],
      )
