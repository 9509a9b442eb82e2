-- ===== src/Mem/Frames/Allocate.antt =====
-- libkernel/src/memory/allocators/phys.rs: what `alloc_frames` answers.
use moss.Common.{
  ℕ, zero, suc, ◌+◌, ◌-◌, ◌*◌, ◌%◌, ◌≤◌, ◌<◌, ◌≡◌, ◌⊎◌, inl, inr, refl, sym, ap, ◌∙◌, false, Option,
  none, some, List, [], ◌∷◌, ltb, ◌==◌, arith, Bool-cases, Option-cases, done, wsub, usize_mod,
  Result, ok, err, KernelError,
}
use mathlib.Core.Path.{subst}
use moss.Mem.Region.{Region, page_size}
use moss.Mem.Frames.{
  FrameState, Inner, pages, max_order, at_put, set_frame, pop_from, split, mark_tails, alloc_frames,
}
use moss.Mem.Frames.Weight.{
  Additive, weigh, TakenOut, TakenOut-head, Block, Halves, Block-Halves, pages-pos,
}
use moss.Mem.Frames.Sound.{
  Runs, free_weight, Sound, Kept, Kept-trans, Taken, taken, taken-Taken, put_state, put_state-Sound,
  set_frame-eq, managed, taken-eq, added, added-eq, added-Sound, added-weight, added-count,
  counted-Sound, put_state-count, put_state-lists, put_state-at, put_state-other, managed_page,
}

-- What `pop_from` finds among `n` lists from the order `o` on.
abbrev Popped : ℕ → ℕ → (ℕ → List ℕ) → Option (ℕ × ℕ × (ℕ → List ℕ)) → Type 0
Popped n o lists none = (i : ℕ) → o ≤ i → i < o + n → lists i ≡ []
Popped n o lists (some (p, c, lists')) =
    (o ≤ c) × (c < o + n) × ((ps : List ℕ) × (lists c ≡ p ∷ ps) × (lists' ≡ at_put c ps lists))

pop_from-Popped : (n o : ℕ) (lists : ℕ → List ℕ) → Popped n o lists (pop_from n o lists)
unfolding pop_from
pop_from-Popped zero o lists = λ i a b. absurd (omega arith)
pop_from-Popped (suc n) o lists = go (lists o) refl (pop_from-Popped n (suc o) lists)
  where
    later :
        (x : Option (ℕ × ℕ × (ℕ → List ℕ)))
        → lists o ≡ []
        → Popped n (suc o) lists x
        → Popped (suc n) o lists x
    later none e k = λ i a b. elim (Bool-cases (i == o)) [
      | inl d ↦ let d' : i ≡ o = ground arith in ap lists d' ∙ e
      | inr d ↦ k i (ground arith) (omega arith)
    ]
    later (some (p, c, l)) e k = (omega (arith, k.0), omega (arith, k.1), k.2)

    go :
        (l : List ℕ)
        → lists o ≡ l
        → Popped n (suc o) lists (pop_from n (suc o) lists)
        → Popped (suc n) o lists (pop_from (suc n) o lists)
    go (p ∷ ps) e k = rw (e, pop_from) (omega arith, omega arith, (ps, e, refl))
    go [] e k = rw (e, pop_from) (later (pop_from n (suc o) lists) e k)

module _ (base total : ℕ) where
  -- One round: the upper half becomes free.
  halved-Kept :
      (s : Inner) (o p : ℕ)
      → suc o ≤ max_order
      → Sound base total s
      → Halves base total o p
      → Kept base total s (suc o) p (added base total (p + pages o) o s) o p
  halved-Kept s o p l h v = record {
    sound = added-Sound base total s (p + pages o) o h (omega arith) v.upper;
    count = added-count base total s (p + pages o) o;
    block = v.lower;
    weight = λ f a. omega (arith, added-weight base total f s (p + pages o) o (omega arith), a o p);
  }

  split-Kept :
      (d r p o : ℕ) (s : Inner)
      → o ≡ r + d
      → o ≤ max_order
      → Sound base total s
      → Block base total o p
      → Runs (λ s'. Kept base total s o p s' r p) (split d r p s)
  unfolding split
  split-Kept zero r p o s e l h b = (
    s,
    refl,
    subst (λ n. Kept base total s o p s n p) (omega arith)
        (record { sound = h; count = refl; block = b; weight = λ f a. refl }),
  )
  split-Kept (suc d) r p o s e l h b =
      let e' : o ≡ suc (r + d) = omega arith in
      let v = Block-Halves base total (r + d) p (subst (λ n. Block base total n p) e' b) in
      let k = halved-Kept s (r + d) p (omega arith) h v in
      let s1 = added base total (p + pages (r + d)) (r + d) s in
      let (s', m, q) = split-Kept d r p (r + d) s1 refl (omega arith) k.sound k.block in
      (
        s',
        rw (v.other, split)
            (rw (added-eq base total s (p + pages (r + d)) (r + d) h v.upper, split) m),
        subst (λ n. Kept base total s n p s' r p) (sym e')
            (Kept-trans base total s s1 s' (suc (r + d)) p (r + d) p r p k q),
      )

  -- The pages behind the head say where it is; nothing else changes.
  record Tailed (n i head : ℕ) (s s' : Inner) : Type 0 where
    sound : Sound base total s'
    count : s'.free_pages ≡ s.free_pages
    lists : s'.free_lists ≡ s.free_lists
    tails :
        (j : ℕ)
        → i ≤ j
        → j < i + n
        → s'.frame_list.state (head + j) ≡ FrameState.allocated_tail head
    others :
        (q : ℕ) → (q < head + i) ⊎ (head + i + n ≤ q) → s'.frame_list.state q ≡ s.frame_list.state q

  mark_tails-Tailed :
      (n i head : ℕ) (s : Inner)
      → Sound base total s
      → base ≤ head
      → head + i + n ≤ base + total
      → Runs (Tailed n i head s) (mark_tails n i head s)
  unfolding mark_tails
  mark_tails-Tailed zero i head s h l m = (
    s,
    refl,
    record {
      sound = h;
      count = refl;
      lists = refl;
      tails = λ j a b. absurd (omega arith);
      others = λ q a. refl;
    },
  )
  mark_tails-Tailed (suc n) i head s h l m =
      let st = FrameState.allocated_tail head in
      let s1 = put_state base total (head + i) st s in
      let h1 = put_state-Sound base total s (head + i) st (λ o d. ground arith) h in
      let (s', d, k) = mark_tails-Tailed n (suc i) head s1 h1 l (omega arith) in
      (
        s',
        rw
            (
              set_frame-eq base total s (head + i) st
                  (managed_page base total s (head + i) h (omega arith) (omega arith)),
              mark_tails,
            )
            d,
        record {
          sound = k.sound;
          count = k.count ∙ put_state-count base total s (head + i) st;
          lists = k.lists ∙ put_state-lists base total s (head + i) st;
          tails = λ j a b. elim (Bool-cases (j == i)) [
            | inl e ↦
                let e' : j ≡ i = ground arith in
                k.others (head + j) (inl (omega arith))
                ∙ (ap (λ x. s1.frame_list.state (head + x)) e'
                    ∙ put_state-at base total s (head + i) st)
            | inr e ↦ k.tails j (ground arith) (omega arith)
          ];
          others = λ q a.
              k.others q (ground arith)
              ∙ put_state-other base total s (head + i) q st (λ e. ground arith);
        },
      )

  -- What `alloc_frames` comes to. An answer is a block of the order requested, and every sum over the free blocks
  -- has lost that of the block; else the order is too large, or every list from it on is empty.
  abbrev pub Allocated : ℕ → Inner → Result Region × Inner → Type 0
  Allocated order s (err e, s') =
      (s' ≡ s)
      × (((max_order < order) × (e ≡ KernelError.invalid_value))
          ⊎ ((e ≡ KernelError.no_memory)
              × ((i : ℕ) → order ≤ i → i ≤ max_order → s.free_lists i ≡ [])))
  Allocated order s (ok r, s') =
      (p : ℕ) × (r ≡ record { address = p * page_size; size = pages order * page_size })
      × Block base total order p
      × Sound base total s'
      × (s'.free_pages ≡ wsub s.free_pages (pages order))
      × ((f : ℕ → ℕ → ℕ) → Additive f → free_weight f s ≡ free_weight f s' + f order p)
      × (s'.frame_list.state p
          ≡ FrameState.allocated_head (record { ref_count = 1; order = order }))
      × ((j : ℕ)
          → 0 < j
          → j < pages order
          → s'.frame_list.state (p + j) ≡ FrameState.allocated_tail p)

  head_of : ℕ → FrameState
  head_of order = FrameState.allocated_head (record { ref_count = 1; order = order })

  answer : ℕ → ℕ → Inner → Result Region × Inner
  answer order p s = (
    ok (record {
      address = (p * page_size) % usize_mod;
      size = (pages order * page_size) % usize_mod;
    }),
    record s { free_pages = wsub s.free_pages (pages order) },
  )

  alloc_frames-answer :
      (order p c : ℕ) (lists : ℕ → List ℕ) (s s1 s2 s3 s4 : Inner)
      → order ≤ max_order
      → pop_from (max_order + 1 - order) order s.free_lists ≡ some (p, c, lists)
      → set_frame p FrameState.uninitialized (record s { free_lists = lists }) ≡ done s1
      → split (c - order) order p s1 ≡ done s2
      → set_frame p (head_of order) s2 ≡ done s3
      → mark_tails (pages order - 1) 1 p s3 ≡ done s4
      → alloc_frames order s ≡ done (answer order p s4)
  unfolding alloc_frames answer head_of
  alloc_frames-answer order p c lists s s1 s2 s3 s4 l d e1 e2 e3 e4 =
      let x : ltb max_order order ≡ false = ground arith in
      rw (x, alloc_frames)
        (rw (d, alloc_frames)
          (rw (e1, alloc_frames)
            (rw (e2, alloc_frames) (rw (e3, alloc_frames) (rw (e4, alloc_frames) refl)))))

  answer-Allocated :
      (order p c : ℕ) (s s1 s2 s4 : Inner)
      → (base + total) * page_size < usize_mod
      → Taken base total s c p s1
      → Kept base total s1 c p s2 order p
      → Tailed (pages order - 1) 1 p (put_state base total p (head_of order) s2) s4
      → Allocated order s (answer order p s4)
  unfolding answer head_of
  answer-Allocated order p c s s1 s2 s4 w t k v =
      let n : p + pages order ≤ base + total = k.block.high in
      let o = pages-pos order in
      let a : (p * page_size) % usize_mod ≡ p * page_size = omega arith in
      let b : (pages order * page_size) % usize_mod ≡ pages order * page_size = omega (arith, n) in
      (
        p,
        rw (a, b) refl,
        k.block,
        counted-Sound base total s4 _ v.sound,
        ap (λ n. wsub n (pages order))
            (v.count ∙ (put_state-count base total s2 p (head_of order) ∙ (k.count ∙ t.count))),
        (λ f x. omega (
          arith,
          t.weight f,
          k.weight f x,
          ap (weigh f (max_order + 1)) (v.lists ∙ put_state-lists base total s2 p (head_of order)),
        )),
        v.others p (inl (omega arith)) ∙ put_state-at base total s2 p (head_of order),
        λ j y z. v.tails j (omega arith) (omega arith),
      )

  -- The block popped, and the rest of the call.
  popped-Allocated :
      (order p c : ℕ) (s : Inner) (ps : List ℕ)
      → (base + total) * page_size < usize_mod
      → order ≤ c
      → c ≤ max_order
      → s.free_lists c ≡ p ∷ ps
      → pop_from (max_order + 1 - order) order s.free_lists ≡ some (p, c, at_put c ps s.free_lists)
      → Sound base total s
      → Runs (Allocated order s) (alloc_frames order s)
  unfolding head_of
  popped-Allocated order p c s ps w a b e d h =
      let t =
        taken-Taken base total s p c ps h b
          (subst (λ l. TakenOut p l ps) (sym e) (TakenOut-head p ps)) in
      let s1 = taken base total p c ps s in
      let (s2, m, k) = split-Kept (c - order) order p c s1 (omega arith) b t.sound t.block in
      let s3 = put_state base total p (head_of order) s2 in
      let h3 = put_state-Sound base total s2 p (head_of order) (λ o x. ground arith) k.sound in
      let (s4, n, v) =
        mark_tails-Tailed (pages order - 1) 1 p s3 h3 k.block.low
          (omega (arith, k.block.high, pages-pos order)) in
      (
        answer order p s4,
        alloc_frames-answer order p c (at_put c ps s.free_lists) s s1 s2 s3 s4 (omega arith) d
            (taken-eq base total s p c ps h t.block) m
            (set_frame-eq base total s2 p (head_of order)
              (managed base total s2 order p k.sound k.block))
            n,
        answer-Allocated order p c s s1 s2 s4 w t k v,
      )

  -- For an allocator in order, whose frames lie below 2 ^ 64: `alloc_frames` does not panic, and answers as
  -- `Allocated` says.
  pub alloc_frames-Allocated :
      (order : ℕ) (s : Inner)
      → (base + total) * page_size < usize_mod
      → Sound base total s
      → Runs (Allocated order s) (alloc_frames order s)
  unfolding alloc_frames
  alloc_frames-Allocated order s w h = elim (Bool-cases (ltb max_order order)) [
    | inl e ↦ (
      (err KernelError.invalid_value, s),
      rw (e, alloc_frames) refl,
      (refl, inl (ground arith, refl)),
    )
    | inr e ↦
        let k = pop_from-Popped (max_order + 1 - order) order s.free_lists in
        elim (Option-cases (pop_from (max_order + 1 - order) order s.free_lists)) [
          | inl d ↦
              let k' = subst (Popped (max_order + 1 - order) order s.free_lists) d k in
              (
                (err KernelError.no_memory, s),
                rw (e, alloc_frames) (rw (d, alloc_frames) refl),
                (refl, inr (refl, λ i a b. k' i a (omega arith))),
              )
          | inr ((p, c, lists), d) ↦
              let (a, b, (ps, m, q)) =
                subst (Popped (max_order + 1 - order) order s.free_lists) d k in
              popped-Allocated order p c s ps w a (omega arith) m (d ∙ ap (λ l. some (p, c, l)) q) h
        ]
  ]
