-- ===== src/Pcc/Reuse/Steps.antt =====
-- The steps of the tracker of src/pcc/huge_page_reuse.h on one of its caches, and the loop over the
-- base pages of a region.
use elastic_translations_mic.Prelude.{
  ℕ, zero, suc, ◌+◌, ◌*◌, ◌≤◌, ◌<◌, ◌≡◌, refl, ◌∙◌, true, false, Bool, Bool-cases, eq_of_==, inl,
  inr, some, arith, ◌==◌, if◌then◌else◌, subst,
}
use elastic_translations_mic.Pcc.Doubles.{Doubles}
use elastic_translations_mic.Pcc.Cache.Defs.{FunctionalCache, page_size, huge_page_size}
use elastic_translations_mic.Pcc.Cache.Ready.{
  IsReady, held, access-IsReady, insert-IsReady, evict-IsReady, same_line_self,
}
use elastic_translations_mic.Pcc.Reuse.State.{Slot, Tracker, word, written}
use elastic_translations_mic.Pcc.Reuse.Defs.{drop_line, fill, drop_pages}

either_false : (b h : Bool) → h ≡ false → (if b then false else h) ≡ false
either_false b h e = ground arith

module _ (d : Doubles) (log2 : ℕ → ℕ) where
  -- Dropping a line never faults, and the line is not held afterwards; no other line comes in.
  pub drop_line-IsReady :
      (c : FunctionalCache) (s : Slot) (addr : ℕ) (is_2m : Bool)
      → IsReady log2 c
      → (c' : FunctionalCache) × (s' : Slot) × (drop_line d log2 c s addr is_2m ≡ some (c', s'))
        × IsReady log2 c'
        × (held log2 c' is_2m addr ≡ false)
        × ((is_2m' : Bool) (b : ℕ) → held log2 c is_2m' b ≡ false → held log2 c' is_2m' b ≡ false)
  unfolding drop_line
  drop_line-IsReady c s addr is_2m r =
      let (c1, run, r1, same) = access-IsReady log2 r is_2m addr true in
      elim (Bool-cases (held log2 c is_2m addr)) [
        | inl h ↦
            let (c2, dirty, run', r2, gone) =
              evict-IsReady log2 r1 is_2m addr (same is_2m addr ∙ h) in
            (
              c2,
              record s { dirty_evict = dirty },
              rw (run, h, run') refl,
              r2,
              gone is_2m addr ∙ rw (same_line_self log2 c1 is_2m addr) refl,
              λ m b e. gone m b ∙ either_false _ _ (same m b ∙ e),
            )
        | inr h ↦ (c1, s, rw (run, h) refl, r1, same is_2m addr ∙ h, λ m b e. same m b ∙ e)
      ]

  pub fill-IsReady :
      (c : FunctionalCache) (s : Slot) (addr : ℕ) (is_2m : Bool)
      → IsReady log2 c
      → (c' : FunctionalCache) × (s' : Slot) × (fill d log2 c s addr is_2m ≡ some (c', s'))
        × IsReady log2 c'
        × (held log2 c' is_2m addr ≡ true)
  unfolding fill
  fill-IsReady c s addr is_2m r =
      let (c', o, run, r', h) = insert-IsReady log2 r is_2m addr true in
      (c', written s o, rw run refl, r', h)

  -- The three TLBs are ready.
  pub record AreReady (l1_tlb_4k l1_tlb_2m l2_tlb : FunctionalCache) : Type 0 where
    pub l1_4k_ready : IsReady log2 l1_tlb_4k
    pub l1_2m_ready : IsReady log2 l1_tlb_2m
    pub l2_ready : IsReady log2 l2_tlb

  abbrev pub IsTlbs : Tracker d → Type 0
  IsTlbs t = AreReady t.l1_tlb_4k t.l1_tlb_2m t.l2_tlb

  -- The tracker with other TLBs.
  abbrev pub with_tlbs :
      Tracker d
      → FunctionalCache
      → Slot
      → FunctionalCache
      → Slot
      → FunctionalCache
      → Slot
      → Tracker d
  with_tlbs t c1 s1 c2 s2 c3 s3 = record t {
    l1_tlb_4k = c1;
    l1_4k = s1;
    l1_tlb_2m = c2;
    l1_2m = s2;
    l2_tlb = c3;
    l2 = s3;
  }

  -- No page of the region from the i-th on, n of them, is held.
  abbrev pub LacksPages : FunctionalCache → ℕ → ℕ → ℕ → Type 0
  LacksPages c base i n =
      (j : ℕ)
      → i ≤ j
      → j < i + n
      → held log2 c false (word (base * huge_page_size + j * page_size)) ≡ false

  cons_page :
      (c : FunctionalCache) (base i n : ℕ)
      → held log2 c false (word (base * huge_page_size + i * page_size)) ≡ false
      → LacksPages c base (suc i) n
      → LacksPages c base i (suc n)
  cons_page c base i n e l j h k = elim (Bool-cases (i == j)) [
    | inl q ↦
        subst (λ x. held log2 c false (word (base * huge_page_size + x * page_size)) ≡ false)
          (eq_of_== i j q) e
    | inr q ↦ l j (ground arith) (omega arith)
  ]

  -- The loop of a promotion: no fault, and none of the pages is held by the 4K TLB or, as a base
  -- page, by the second level.
  pub drop_pages-LacksPages :
      (t : Tracker d) (base i n : ℕ)
      → IsTlbs t
      → (c : FunctionalCache) × (s : Slot) × (c' : FunctionalCache) × (s' : Slot) × (drop_pages d
            log2 t base i n
          ≡ some (record t { l1_tlb_4k = c; l1_4k = s; l2_tlb = c'; l2 = s' }))
        × IsReady log2 c
        × IsReady log2 c'
        × LacksPages c base i n
        × LacksPages c' base i n
        × ((is_2m : Bool) (b : ℕ)
            → held log2 t.l1_tlb_4k is_2m b ≡ false
            → held log2 c is_2m b ≡ false)
        × ((is_2m : Bool) (b : ℕ)
            → held log2 t.l2_tlb is_2m b ≡ false
            → held log2 c' is_2m b ≡ false)
  unfolding drop_pages
  drop_pages-LacksPages t base i zero w = (
    t.l1_tlb_4k,
    t.l1_4k,
    t.l2_tlb,
    t.l2,
    refl,
    w.l1_4k_ready,
    w.l2_ready,
    λ j h k. ground arith,
    λ j h k. ground arith,
    λ m b e. e,
    λ m b e. e,
  )
  drop_pages-LacksPages t base i (suc n) w =
      let addr = word (base * huge_page_size + i * page_size) in
      let (c, s, run, r, out, old) =
        drop_line-IsReady t.l1_tlb_4k t.l1_4k addr false w.l1_4k_ready in
      let (c', s', run', r', out', old') = drop_line-IsReady t.l2_tlb t.l2 addr false w.l2_ready in
      let (k, u, k', u', rest, q, q', lacks, lacks', more, more') =
        drop_pages-LacksPages (record t { l1_tlb_4k = c; l1_4k = s; l2_tlb = c'; l2 = s' }) base
          (suc i) n (record { l1_4k_ready = r; l1_2m_ready = w.l1_2m_ready; l2_ready = r' }) in
      (
        k,
        u,
        k',
        u',
        rw (run, run') rest,
        q,
        q',
        cons_page k base i n (more false addr out) lacks,
        cons_page k' base i n (more' false addr out') lacks',
        λ m b e. more m b (old m b e),
        λ m b e. more' m b (old' m b e),
      )
