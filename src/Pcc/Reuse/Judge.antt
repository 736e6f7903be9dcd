-- ===== src/Pcc/Reuse/Judge.antt =====
-- The judgement of a region in src/pcc/huge_page_reuse.h: promotion, demotion, or neither.
use elastic_translations_mic.Prelude.{
  ℕ, ◌+◌, ◌*◌, ◌/◌, ◌<◌, ◌≡◌, refl, ◌∙◌, true, false, Bool, Bool-cases, eq_of_==, inl, inr, Option,
  none, some, arith, ◌==◌, if◌then◌else◌, update, not, ◌&&◌, ltb, ==-self,
}
use elastic_translations_mic.Pcc.Doubles.{Doubles}
use elastic_translations_mic.Pcc.Cache.Defs.{FunctionalCache, page_size, huge_page_size}
use elastic_translations_mic.Pcc.Cache.Ready.{held}
use elastic_translations_mic.Pcc.Reuse.State.{is_some, Slot, Tracker, Entry, word, is_promoted}
use elastic_translations_mic.Pcc.Reuse.Defs.{promote, demote, judge}
use elastic_translations_mic.Pcc.Reuse.Steps.{IsTlbs, drop_line-IsReady, drop_pages-LacksPages}

settled :
    (promoted : ℕ → Bool) (b base : ℕ) (v e : Bool)
    → v ≡ (not (promoted base) && e)
    → (if b == base then v else promoted b)
      ≡ (if b == base then not (promoted b) && e else promoted b)
settled promoted b base v e q = elim (Bool-cases (b == base)) [
  | inl h ↦ rw (h, eq_of_== b base h) q
  | inr h ↦ rw h refl
]

unsettled :
    (promoted : ℕ → Bool) (b base : ℕ)
    → promoted base ≡ false
    → promoted b ≡ (if b == base then not (promoted b) && false else promoted b)
unsettled promoted b base q = elim (Bool-cases (b == base)) [
  | inl h ↦ rw (h, eq_of_== b base h, q) refl
  | inr h ↦ rw h refl
]

module _ (d : Doubles) (log2 : ℕ → ℕ) where
  -- The tracker with other TLBs and other maps.
  abbrev pub with_maps :
      Tracker d
      → (ℕ → Option (Entry d))
      → (ℕ → Option ℕ)
      → FunctionalCache
      → Slot
      → FunctionalCache
      → Slot
      → FunctionalCache
      → Slot
      → Tracker d
  with_maps t m p c1 s1 c2 s2 c3 s3 = record t {
    reuse_map = m;
    pcc_promotions = p;
    l1_tlb_4k = c1;
    l1_4k = s1;
    l1_tlb_2m = c2;
    l1_2m = s2;
    l2_tlb = c3;
    l2 = s3;
  }

  -- A run that never faults and keeps the promotion cache and the counts.
  -- Which regions are promoted after it is given by `after`.
  abbrev pub Judges : Tracker d → (ℕ → Bool) → Option (Tracker d) → Type 0
  Judges t after r =
      (m : ℕ → Option (Entry d)) × (p : ℕ → Option ℕ) × (c1 : FunctionalCache) × (s1 : Slot)
      × (c2 : FunctionalCache) × (s2 : Slot) × (c3 : FunctionalCache) × (s3 : Slot) × (r
          ≡ some (with_maps t m p c1 s1 c2 s2 c3 s3))
      × IsTlbs d log2 (with_maps t m p c1 s1 c2 s2 c3 s3)
      × ((b : ℕ) → is_some d (p b) ≡ after b)

  is_some-update :
      {A : Type 0} (b : Bool) (o : Option A) (p : Option A)
      → is_some d (if b then o else p) ≡ (if b then is_some d o else is_some d p)
  is_some-update true o p = refl
  is_some-update false o p = refl

  -- The regions that are promoted after the judgement of one.
  unfoldable pub judged : Tracker d → ℕ → Bool → ℕ → Bool
  judged t base earned b =
      if b == base then not (is_promoted d t b) && earned else is_promoted d t b

  promote-Judges :
      (t : Tracker d) (base : ℕ)
      → IsTlbs d log2 t
      → Judges t (λ b. if b == base then true else is_promoted d t b) (promote d log2 t base)
  unfolding promote is_promoted
  promote-Judges t base w =
      let t' : Tracker d = record t {
        pcc_promotions = update t.pcc_promotions base (some 0);
        reuse_map = update t.reuse_map base none;
      } in
      let (c, s, c', s', run, r, r', lacks, lacks', old, old') =
        drop_pages-LacksPages d log2 t' base 0 (huge_page_size / page_size) w in
      (
        t'.reuse_map,
        t'.pcc_promotions,
        c,
        s,
        t.l1_tlb_2m,
        t.l1_2m,
        c',
        s',
        run,
        record { l1_4k_ready = r; l1_2m_ready = w.l1_2m_ready; l2_ready = r' },
        λ b. is_some-update (b == base) (some 0) (t.pcc_promotions b),
      )

  demote-Judges :
      (t : Tracker d) (base i : ℕ)
      → IsTlbs d log2 t
      → Judges t (λ b. if b == base then false else is_promoted d t b) (demote d log2 t base i)
  unfolding demote is_promoted
  demote-Judges t base i w =
      let addr = word (base * huge_page_size + i * page_size) in
      let (c, s, run, r, out, old) =
        drop_line-IsReady d log2 t.l1_tlb_2m t.l1_2m addr true w.l1_2m_ready in
      let (c', s', run', r', out', old') =
        drop_line-IsReady d log2 t.l2_tlb t.l2 addr true w.l2_ready in
      (
        t.reuse_map,
        update t.pcc_promotions base none,
        t.l1_tlb_4k,
        t.l1_4k,
        c,
        s,
        c',
        s',
        rw (run, run') refl,
        record { l1_4k_ready = w.l1_4k_ready; l1_2m_ready = r; l2_ready = r' },
        λ b. is_some-update (b == base) none (t.pcc_promotions b),
      )

  idle-Judges : (t : Tracker d) → IsTlbs d log2 t → Judges t (is_promoted d t) (some t)
  unfolding is_promoted
  idle-Judges t w = (
    t.reuse_map,
    t.pcc_promotions,
    t.l1_tlb_4k,
    t.l1_4k,
    t.l1_tlb_2m,
    t.l1_2m,
    t.l2_tlb,
    t.l2,
    refl,
    w,
    λ b. refl,
  )

  alike-Judges :
      (t : Tracker d) (f g : ℕ → Bool) (r : Option (Tracker d))
      → ((b : ℕ) → f b ≡ g b)
      → Judges t f r
      → Judges t g r
  alike-Judges t f g r same (m, p, c1, s1, c2, s2, c3, s3, run, w, at) =
      (m, p, c1, s1, c2, s2, c3, s3, run, w, λ b. at b ∙ same b)

  pub judge-Judges :
      (t : Tracker d) (base i freq : ℕ)
      → IsTlbs d log2 t
      → Judges t (judged t base (ltb 0 freq)) (judge d log2 t base i freq)
  unfolding judge judged
  judge-Judges t base i freq w = elim (Bool-cases (is_promoted d t base)) [
    | inl h ↦ rw h (
        alike-Judges t _ _ _ (λ b. settled (is_promoted d t) b base false (ltb 0 freq) (rw h refl))
          (demote-Judges t base i w))
    | inr h ↦ elim (Bool-cases (ltb 0 freq)) [
      | inl k ↦
          rw (h, k)
            (alike-Judges t _ _ _ (λ b. settled (is_promoted d t) b base true true (rw h refl))
              (promote-Judges t base w))
      | inr k ↦
          rw (h, k)
            (alike-Judges t _ _ _ (λ b. unsettled (is_promoted d t) b base h) (idle-Judges t w))
    ]
  ]

  -- With ready TLBs a promotion never faults. Afterwards the region is promoted, has no record of
  -- reuse, and none of its 512 base pages is held by the 4K TLB or, as a base page, by the second
  -- level.
  pub promote_lets_go :
      (t : Tracker d) (base : ℕ)
      → IsTlbs d log2 t
      → (t' : Tracker d) × (promote d log2 t base ≡ some t')
        × (is_promoted d t' base ≡ true)
        × (t'.reuse_map base ≡ none)
        × ((j : ℕ)
            → j < 512
            → (held log2 t'.l1_tlb_4k false (word (base * huge_page_size + j * page_size)) ≡ false)
              × (held log2 t'.l2_tlb false (word (base * huge_page_size + j * page_size)) ≡ false))
  unfolding promote is_promoted
  promote_lets_go t base w =
      let t1 : Tracker d = record t {
        pcc_promotions = update t.pcc_promotions base (some 0);
        reuse_map = update t.reuse_map base none;
      } in
      let (c, s, c', s', run, r, r', lacks, lacks', old, old') =
        drop_pages-LacksPages d log2 t1 base 0 (huge_page_size / page_size) w in
      (
        record t1 { l1_tlb_4k = c; l1_4k = s; l2_tlb = c'; l2 = s' },
        run,
        rw (==-self base) refl,
        rw (==-self base) refl,
        λ j h.
            (lacks j (omega arith) (omega (arith, h)), lacks' j (omega arith) (omega (arith, h))),
      )

  -- A demotion never faults. Afterwards the region is not promoted, and the huge page of the address
  -- `base * HUGE_PAGE_SIZE + i * PAGE_SIZE` is held neither by the 2M TLB nor by the second level.
  pub demote_lets_go :
      (t : Tracker d) (base i : ℕ)
      → IsTlbs d log2 t
      → (t' : Tracker d) × (demote d log2 t base i ≡ some t')
        × (is_promoted d t' base ≡ false)
        × (held log2 t'.l1_tlb_2m true (word (base * huge_page_size + i * page_size)) ≡ false)
        × (held log2 t'.l2_tlb true (word (base * huge_page_size + i * page_size)) ≡ false)
  unfolding demote is_promoted
  demote_lets_go t base i w =
      let addr = word (base * huge_page_size + i * page_size) in
      let (c, s, run, r, out, old) =
        drop_line-IsReady d log2 t.l1_tlb_2m t.l1_2m addr true w.l1_2m_ready in
      let (c', s', run', r', out', old') =
        drop_line-IsReady d log2 t.l2_tlb t.l2 addr true w.l2_ready in
      (
        record t {
          pcc_promotions = update t.pcc_promotions base none;
          l1_tlb_2m = c;
          l1_2m = s;
          l2_tlb = c';
          l2 = s';
        },
        rw (run, run') refl,
        rw (==-self base) refl,
        out,
        out',
      )
