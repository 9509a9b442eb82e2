-- ===== src/Mem/Frames/Release.antt =====
-- libkernel/src/memory/allocators/phys.rs: what `free_frames` does to the free blocks.
use moss.Common.{
  ℕ, zero, suc, ◌+◌, ◌-◌, ◌/◌, ◌≤◌, ◌<◌, ◌≡◌, ◌⊎◌, inl, inr, refl, sym, ap, ◌∙◌, true, false, ◌||◌,
  List, [], ◌∷◌, All, ltb, leb, min, arith, Bool-cases, done, wadd,
}
use mathlib.Core.Path.{subst}
use moss.Mem.Region.{Region, page_size}
use moss.Mem.Frames.{
  AllocatedInfo, FrameState, Inner, pages, max_order, buddy, is_managed, get_frame, is_free_of,
  remove_from_free_list, merge_up, release, free_frames,
}
use moss.Mem.Frames.Weight.{Additive, weigh, IsIn, take_out-some, Block, Block-Joined}
use moss.Mem.Frames.Sound.{
  Runs, free_weight, Sound, Kept, taken, taken-Taken, put_state, put_state-Sound, set_frame-eq,
  managed, added, added-eq, added-Sound, added-weight, uninitialized_ne, remove-eq, get_frame-eq,
  put_state-at, counted-Sound, added-count, put_state-count, put_state-lists,
}

is_free_of-eq : (o : ℕ) (st : FrameState) → is_free_of o st ≡ true → st ≡ FrameState.free o
is_free_of-eq o (FrameState.free r) h = ap FrameState.free (ground arith)
is_free_of-eq o FrameState.uninitialized h = ground arith
is_free_of-eq o (FrameState.allocated_head i) h = ground arith
is_free_of-eq o (FrameState.allocated_tail i) h = ground arith
is_free_of-eq o (FrameState.slab i) h = ground arith
is_free_of-eq o FrameState.kernel h = ground arith

All-at : (P : ℕ → Type 0) (p : ℕ) (ps : List ℕ) → All P ps → IsIn p ps → P p
All-at P p [] h i = absurd i
All-at P p (x ∷ ps) h (inl e) = subst P (sym e) h.0
All-at P p (x ∷ ps) h (inr i) = All-at P p ps h.1 i

module _ (base total : ℕ) where
  -- What a merge leaves: a block of an order that there is.
  abbrev Merged : Inner → ℕ → ℕ → ℕ × ℕ × Inner → Type 0
  Merged s o p (o', p', s') = (o' ≤ max_order) × Kept base total s o p s' o' p'

  Kept-refl :
      (s : Inner) (o p : ℕ)
      → Sound base total s
      → Block base total o p
      → Kept base total s o p s o p
  Kept-refl s o p h b = record { sound = h; count = refl; block = b; weight = λ f a. refl }

  within :
      (s : Inner) (b : ℕ)
      → Sound base total s
      → (ltb b s.frame_list.base_page || leb (s.frame_list.base_page + s.frame_list.total_pages) b)
        ≡ false
      → get_frame s b ≡ done (s.frame_list.state b)
  unfolding get_frame is_managed
  within s b h e = ground arith

  merge_stop :
      (n o p : ℕ) (s : Inner)
      → Sound base total s
      → (ltb (buddy p o) s.frame_list.base_page
          || leb (s.frame_list.base_page + s.frame_list.total_pages) (buddy p o))
        ≡ false
      → is_free_of o (s.frame_list.state (buddy p o)) ≡ false
      → merge_up (suc n) o p s ≡ done (o, p, s)
  unfolding merge_up
  merge_stop n o p s h r k = rw (r, within s (buddy p o) h r, k, merge_up) refl

  merge_step :
      (n o p : ℕ) (s s1 : Inner)
      → Sound base total s
      → (ltb (buddy p o) s.frame_list.base_page
          || leb (s.frame_list.base_page + s.frame_list.total_pages) (buddy p o))
        ≡ false
      → is_free_of o (s.frame_list.state (buddy p o)) ≡ true
      → remove_from_free_list (buddy p o) o s ≡ done s1
      → merge_up (suc n) o p s ≡ merge_up n (suc o) (min p (buddy p o)) s1
  unfolding merge_up
  merge_step n o p s s1 h r k m = rw (r, within s (buddy p o) h r, k, m, merge_up) refl

  merge_up-Merged :
      (n o p : ℕ) (s : Inner)
      → n + o ≡ max_order
      → Sound base total s
      → Block base total o p
      → Runs (Merged s o p) (merge_up n o p s)
  unfolding merge_up
  merge_up-Merged zero o p s e h b = ((o, p, s), refl, (omega arith, Kept-refl s o p h b))
  merge_up-Merged (suc n) o p s e h b =
      let l = s.frame_list in
      elim (Bool-cases
        (ltb (buddy p o) l.base_page || leb (l.base_page + l.total_pages) (buddy p o))) [
          | inl r ↦ ((o, p, s), rw (r, merge_up) refl, (omega arith, Kept-refl s o p h b))
          | inr r ↦ elim (Bool-cases (is_free_of o (l.state (buddy p o)))) [
            | inr k ↦ ((o, p, s), merge_stop n o p s h r k, (omega arith, Kept-refl s o p h b))
            | inl k ↦
                let i = h.listed (buddy p o) o (is_free_of-eq o (l.state (buddy p o)) k) in
                let c =
                  All-at (Block base total o) (buddy p o) (s.free_lists o) (h.blocks o i.0) i.1 in
                let (qs, q, t) = take_out-some (buddy p o) (s.free_lists o) i.1 in
                let s1 = taken base total (buddy p o) o qs s in
                let t1 = taken-Taken base total s (buddy p o) o qs h i.0 t in
                let j = Block-Joined base total o p b c in
                let (z, d, m) =
                  merge_up-Merged n (suc o) (min p (buddy p o)) s1 (omega arith) t1.sound j.block in
                (
                  z,
                  merge_step n o p s s1 h r k (remove-eq base total s (buddy p o) o qs h c q) ∙ d,
                  (
                    m.0,
                    record {
                      sound = m.1.sound;
                      count = m.1.count ∙ t1.count;
                      block = m.1.block;
                      weight = λ f a. omega (arith, m.1.weight f a, t1.weight f, j.sum f a);
                    },
                  ),
                )
          ]
        ]

  -- A state with one block more that is free.
  pub record Released (s : Inner) (o p : ℕ) (s' : Inner) : Type 0 where
    pub sound : Sound base total s'
    pub count : s'.free_pages ≡ wadd s.free_pages (pages o)
    pub weight : (f : ℕ → ℕ → ℕ) → Additive f → free_weight f s' ≡ free_weight f s + f o p

  release-after :
      (s : Inner) (o p o' p' : ℕ) (s' : Inner)
      → Sound base total s
      → Block base total o p
      → merge_up (max_order - o) o p (put_state base total p FrameState.uninitialized s)
        ≡ done (o', p', s')
      → o' ≤ max_order
      → Kept base total (put_state base total p FrameState.uninitialized s) o p s' o' p'
      → Runs (Released s o p) (release p o s)
  unfolding release
  release-after s o p o' p' s' h b d l k =
      let s2 = added base total p' o' s' in
      (
        record s2 { free_pages = wadd s2.free_pages (pages o) },
        rw
            (
              set_frame-eq base total s p FrameState.uninitialized (managed base total s o p h b),
              release,
            )
            (rw (d, release) (rw (added-eq base total s' p' o' k.sound k.block, release) refl)),
        record {
          sound = counted-Sound base total s2 _ (added-Sound base total s' p' o' k.sound l k.block);
          count =
              ap (λ n. wadd n (pages o))
                (added-count base total s' p' o'
                  ∙ (k.count ∙ put_state-count base total s p FrameState.uninitialized));
          weight = λ f a.
              added-weight base total f s' p' o' l
              ∙ (k.weight f a
                  ∙ ap (λ ls. weigh f (max_order + 1) ls + f o p)
                      (put_state-lists base total s p FrameState.uninitialized));
        },
      )

  pub release-Released :
      (s : Inner) (o p : ℕ)
      → Sound base total s
      → o ≤ max_order
      → Block base total o p
      → Runs (Released s o p) (release p o s)
  release-Released s o p h l b =
      let h0 = put_state-Sound base total s p FrameState.uninitialized uninitialized_ne h in
      let ((o', p', s'), d, m) = merge_up-Merged (max_order - o) o p _ (omega arith) h0 b in
      release-after s o p o' p' s' h b d m.0 m.1

  -- What `free_frames` comes to, by the references that the head counts.
  abbrev pub Freed : Inner → AllocatedInfo → ℕ → Inner → Type 0
  Freed s info p s' =
      ((1 < info.ref_count)
        × Sound base total s'
        × (s'.free_lists ≡ s.free_lists)
        × (s'.free_pages ≡ s.free_pages)
        × (s'.frame_list.state p
            ≡ FrameState.allocated_head (record info { ref_count = info.ref_count - 1 })))
      ⊎ ((info.ref_count ≤ 1) × Released s info.order p s')

  -- For an allocator in order and a block that is allocated: `free_frames` does not panic. Where other references
  -- are left it only counts one less; else the invariant holds afterwards, the count of free pages has grown by
  -- the pages of the block, and each page is in as many free blocks as before, and one more if it is in the block.
  pub free_frames-Freed :
      (s : Inner) (region : Region) (info : AllocatedInfo)
      → Sound base total s
      → s.frame_list.state (region.address / page_size) ≡ FrameState.allocated_head info
      → info.order ≤ max_order
      → Block base total info.order (region.address / page_size)
      → Runs (Freed s info (region.address / page_size)) (free_frames region s)
  unfolding free_frames
  free_frames-Freed s region info h e l b =
      let p = region.address / page_size in
      let g = get_frame-eq base total s info.order p h b in
      elim (Bool-cases (ltb 1 info.ref_count)) [
        | inl k ↦
            let st = FrameState.allocated_head (record info { ref_count = info.ref_count - 1 }) in
            (
              put_state base total p st s,
              rw (g, free_frames)
                  (rw (e, k, free_frames)
                    (set_frame-eq base total s p st (managed base total s info.order p h b))),
              inl (
                ground arith,
                put_state-Sound base total s p st (λ o d. ground arith) h,
                put_state-lists base total s p st,
                put_state-count base total s p st,
                put_state-at base total s p st,
              ),
            )
        | inr k ↦
            let (s', d, m) = release-Released s info.order p h l b in
            (s', rw (g, free_frames) (rw (e, k, free_frames) d), inr (ground arith, m))
      ]
