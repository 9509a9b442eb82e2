-- ===== src/Mem/Frames/Sound.antt =====
-- libkernel/src/memory/allocators/phys.rs: the invariant of the buddy allocator, and what its steps keep.
use moss.Common.{
  ℕ, ◌+◌, ◌≤◌, ◌<◌, ◌≡◌, ◌≢◌, inl, inr, refl, sym, ap, ◌∙◌, true, false, some, List, ◌∷◌, All, ◌==◌,
  arith, Bool-cases, Exec, done, ◌>>=◌,
}
use mathlib.Core.Path.{subst}
use moss.Mem.Frames.{
  FrameState, Inner, max_order, is_managed, at_put, get_frame, set_frame, add_to_free_list,
  take_out, remove_from_free_list,
}
use moss.Mem.Frames.Weight.{Additive, weigh, weigh-at_put, IsIn, TakenOut, Block, pages-pos}

-- The code does not panic, and its result is as the predicate says.
abbrev pub Runs {ℓ} : {A : Type 0} → (A → Type ℓ) → Exec A → Type ℓ
Runs {A = A} P m = (a : A) × (m ≡ done a) × P a

pub Runs-bind {ℓ κ} :
    {A B : Type 0} {P : A → Type ℓ} (Q : B → Type κ) (m : Exec A) (f : A → Exec B)
    → Runs P m
    → ((a : A) → P a → Runs Q (f a))
    → Runs Q (m >>= f)
Runs-bind Q m f (a, e, h) k = let (b, d, q) = k a h in (b, ap (λ x. x >>= f) e ∙ d, q)

pub uninitialized_ne : (o : ℕ) → FrameState.uninitialized ≢ FrameState.free o
uninitialized_ne o k = ground arith

free_inj : (o r : ℕ) → FrameState.free o ≡ FrameState.free r → o ≡ r
free_inj o r k = ground arith

refl_test : (o : ℕ) → (o == o) ≡ true
refl_test o = ground arith

-- The sum over the free blocks.
abbrev pub free_weight : (ℕ → ℕ → ℕ) → Inner → ℕ
free_weight f s = weigh f (max_order + 1) s.free_lists

module _ (base total : ℕ) where
  -- The free blocks are blocks of the orders of their lists, and every frame that says that it heads a free block
  -- is in the list of that order.
  pub record Sound (s : Inner) : Type 0 where
    pub base_eq : s.frame_list.base_page ≡ base
    pub total_eq : s.frame_list.total_pages ≡ total
    pub blocks : (o : ℕ) → o ≤ max_order → All (Block base total o) (s.free_lists o)
    pub listed :
        (p o : ℕ)
        → s.frame_list.state p ≡ FrameState.free o
        → (o ≤ max_order) × IsIn p (s.free_lists o)

  -- What a step does that takes a block in hand to another one.
  pub record Kept (s : Inner) (o p : ℕ) (s' : Inner) (o' p' : ℕ) : Type 0 where
    pub sound : Sound s'
    pub count : s'.free_pages ≡ s.free_pages
    pub block : Block base total o' p'
    pub weight : (f : ℕ → ℕ → ℕ) → Additive f → free_weight f s' + f o' p' ≡ free_weight f s + f o p

  pub Kept-trans :
      (s s1 s2 : Inner) (o p o1 p1 o2 p2 : ℕ)
      → Kept s o p s1 o1 p1
      → Kept s1 o1 p1 s2 o2 p2
      → Kept s o p s2 o2 p2
  Kept-trans s s1 s2 o p o1 p1 o2 p2 h k = record {
    sound = k.sound;
    count = k.count ∙ h.count;
    block = k.block;
    weight = λ f a. k.weight f a ∙ h.weight f a;
  }

  pub managed_page :
      (s : Inner) (p : ℕ) → Sound s → base ≤ p → p < base + total → is_managed s.frame_list p ≡ true
  unfolding is_managed
  managed_page s p h l m = ground (arith, h.base_eq, h.total_eq)

  pub managed :
      (s : Inner) (o p : ℕ) → Sound s → Block base total o p → is_managed s.frame_list p ≡ true
  managed s o p h b = managed_page s p h b.low (omega (arith, b.high, pages-pos o))

  pub get_frame-eq :
      (s : Inner) (o p : ℕ)
      → Sound s
      → Block base total o p
      → get_frame s p ≡ done (s.frame_list.state p)
  unfolding get_frame
  get_frame-eq s o p h b = rw (managed s o p h b) refl

  pub put_state : ℕ → FrameState → Inner → Inner
  put_state p st s = record s {
    frame_list = record s.frame_list { state = at_put p st s.frame_list.state };
  }

  pub set_frame-eq :
      (s : Inner) (p : ℕ) (st : FrameState)
      → is_managed s.frame_list p ≡ true
      → set_frame p st s ≡ done (put_state p st s)
  unfolding set_frame put_state
  set_frame-eq s p st e = rw e refl

  -- A frame that comes to say something else than that it heads a free block.
  pub put_state-Sound :
      (s : Inner) (p : ℕ) (st : FrameState)
      → ((o : ℕ) → st ≢ FrameState.free o)
      → Sound s
      → Sound (put_state p st s)
  unfolding put_state
  put_state-Sound s p st n h = record {
    base_eq = h.base_eq;
    total_eq = h.total_eq;
    blocks = h.blocks;
    listed = λ q o. elim (Bool-cases (q == p)) [
      | inl e ↦ rw e (λ k. absurd (n o k))
      | inr e ↦ rw e (h.listed q o)
    ];
  }

  pub put_state-count :
      (s : Inner) (p : ℕ) (st : FrameState) → (put_state p st s).free_pages ≡ s.free_pages
  unfolding put_state
  put_state-count s p st = refl

  pub put_state-lists :
      (s : Inner) (p : ℕ) (st : FrameState) → (put_state p st s).free_lists ≡ s.free_lists
  unfolding put_state
  put_state-lists s p st = refl

  pub put_state-at :
      (s : Inner) (p : ℕ) (st : FrameState) → (put_state p st s).frame_list.state p ≡ st
  unfolding put_state
  put_state-at s p st = rw (refl_test p) refl

  pub put_state-other :
      (s : Inner) (p q : ℕ) (st : FrameState)
      → q ≢ p
      → (put_state p st s).frame_list.state q ≡ s.frame_list.state q
  unfolding put_state
  put_state-other s p q st n = let e : (q == p) ≡ false = ground arith in rw e refl

  -- The count of free pages is no part of the invariant.
  pub counted-Sound : (s : Inner) (n : ℕ) → Sound s → Sound (record s { free_pages = n })
  counted-Sound s n h = record {
    base_eq = h.base_eq;
    total_eq = h.total_eq;
    blocks = h.blocks;
    listed = h.listed;
  }

  -- A free block is taken out of its list.
  pub taken : ℕ → ℕ → List ℕ → Inner → Inner
  unfolding put_state
  taken p o qs s =
      put_state p FrameState.uninitialized (record s { free_lists = at_put o qs s.free_lists })

  pub taken-eq :
      (s : Inner) (p o : ℕ) (qs : List ℕ)
      → Sound s
      → Block base total o p
      → set_frame p FrameState.uninitialized (record s { free_lists = at_put o qs s.free_lists })
        ≡ done (taken p o qs s)
  unfolding taken put_state
  taken-eq s p o qs h b =
      set_frame-eq (record s { free_lists = at_put o qs s.free_lists }) p FrameState.uninitialized
        (managed s o p h b)

  pub remove-eq :
      (s : Inner) (p o : ℕ) (qs : List ℕ)
      → Sound s
      → Block base total o p
      → take_out p (s.free_lists o) ≡ some qs
      → remove_from_free_list p o s ≡ done (taken p o qs s)
  unfolding remove_from_free_list
  remove-eq s p o qs h b e = rw (e, remove_from_free_list) (taken-eq s p o qs h b)

  pub record Taken (s : Inner) (o p : ℕ) (s' : Inner) : Type 0 where
    pub sound : Sound s'
    pub count : s'.free_pages ≡ s.free_pages
    pub block : Block base total o p
    pub weight : (f : ℕ → ℕ → ℕ) → free_weight f s' + f o p ≡ free_weight f s

  pub taken-Taken :
      (s : Inner) (p o : ℕ) (qs : List ℕ)
      → Sound s
      → o ≤ max_order
      → TakenOut p (s.free_lists o) qs
      → Taken s o p (taken p o qs s)
  unfolding taken put_state
  taken-Taken s p o qs h l t = record {
    sound = record {
      base_eq = h.base_eq;
      total_eq = h.total_eq;
      blocks = λ r k. elim (Bool-cases (r == o)) [
        | inl e ↦
            let e' : r ≡ o = ground arith in
            rw e (rw e' (t.held (Block base total o) (h.blocks o l)).1)
        | inr e ↦ rw e (h.blocks r k)
      ];
      listed = λ q r. elim (Bool-cases (q == p)) [
        | inl e ↦ rw e (λ k. absurd (uninitialized_ne r k))
        | inr e ↦ rw e (λ k. (
          (h.listed q r k).0,
          elim (Bool-cases (r == o)) [
            | inl d ↦
                let d' : r ≡ o = ground arith in
                rw d (
                  t.left q (ground arith)
                    (subst (λ x. IsIn q (s.free_lists x)) d' (h.listed q r k).1))
            | inr d ↦ rw d (h.listed q r k).1
          ],
        ))
      ];
    };
    count = refl;
    block = (t.held (Block base total o) (h.blocks o l)).0;
    weight = λ f.
        omega (arith, weigh-at_put f (max_order + 1) o qs s.free_lists (omega arith), t.sum f o);
  }

  -- A block comes to its list.
  pub added : ℕ → ℕ → Inner → Inner
  unfolding put_state
  added p o s = record (put_state p (FrameState.free o) s) {
    free_lists = at_put o (p ∷ s.free_lists o) s.free_lists;
  }

  pub added-eq :
      (s : Inner) (p o : ℕ)
      → Sound s
      → Block base total o p
      → (set_frame p (FrameState.free o) s >>= (λ s'. add_to_free_list p o s')) ≡ done (added p o s)
  unfolding added put_state set_frame add_to_free_list
  added-eq s p o h b =
      let e : is_managed (put_state p (FrameState.free o) s).frame_list p ≡ true =
        managed s o p h b in
      rw (set_frame-eq s p (FrameState.free o) (managed s o p h b)) (rw (e, add_to_free_list) refl)

  pub added-Sound :
      (s : Inner) (p o : ℕ) → Sound s → o ≤ max_order → Block base total o p → Sound (added p o s)
  unfolding added put_state
  added-Sound s p o h l b = record {
    base_eq = h.base_eq;
    total_eq = h.total_eq;
    blocks = λ r k. elim (Bool-cases (r == o)) [
      | inl e ↦
          let e' : r ≡ o = ground arith in
          rw e
            (subst (λ x. All (Block base total x) (p ∷ s.free_lists o)) (sym e') (b, h.blocks o l))
      | inr e ↦ rw e (h.blocks r k)
    ];
    listed = λ q r. elim (Bool-cases (q == p)) [
      | inl e ↦ rw e (λ k.
          let d : o ≡ r = free_inj o r k in rw (sym d) (rw (refl_test o) (l, inl (ground arith))))
      | inr e ↦ rw e (λ k. (
        (h.listed q r k).0,
        elim (Bool-cases (r == o)) [
          | inl d ↦
              let d' : r ≡ o = ground arith in
              rw d (inr (subst (λ x. IsIn q (s.free_lists x)) d' (h.listed q r k).1))
          | inr d ↦ rw d (h.listed q r k).1
        ],
      ))
    ];
  }

  pub added-other :
      (s : Inner) (p o q : ℕ) → q ≢ p → (added p o s).frame_list.state q ≡ s.frame_list.state q
  unfolding added
  added-other s p o q n = put_state-other s p q (FrameState.free o) n

  pub added-count : (s : Inner) (p o : ℕ) → (added p o s).free_pages ≡ s.free_pages
  unfolding added put_state
  added-count s p o = refl

  pub added-weight :
      (f : ℕ → ℕ → ℕ) (s : Inner) (p o : ℕ)
      → o ≤ max_order
      → free_weight f (added p o s) ≡ free_weight f s + f o p
  unfolding added put_state
  added-weight f s p o l =
      omega
        (arith, weigh-at_put f (max_order + 1) o (p ∷ s.free_lists o) s.free_lists (omega arith))
