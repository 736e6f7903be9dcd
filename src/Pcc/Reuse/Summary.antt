-- ===== src/Pcc/Reuse/Summary.antt =====
-- `summarize_promotions` of src/pcc/huge_page_reuse.h: the loop over the promotion cache.
use elastic_translations_mic.Prelude.{
  mem_apart, ℕ, suc, ◌*◌, ◌<◌, ◌≡◌, refl, ◌∙◌, sym, ap, true, false, not, ◌&&◌, ◌||◌, Bool,
  Bool-cases, eq_of_==, inl, inr, Option, none, some, List, [], ◌∷◌, arith, ◌==◌, if◌then◌else◌,
  mem, IsDistinct, ==-self, ltb,
}
use elastic_translations_mic.Pcc.Doubles.{Doubles}
use elastic_translations_mic.Pcc.CacheSet.Held.{holds}
use elastic_translations_mic.Pcc.CacheSet.Covered.{IsListing}
use elastic_translations_mic.Pcc.CacheSet.Defs.{CacheSet}
use elastic_translations_mic.Pcc.Cache.Defs.{FunctionalCache, page_size, get_freq}
use elastic_translations_mic.Pcc.Cache.Single.{
  IsSingle, tag_bound, get_freq-IsSingle, evict-IsSingle, get_entries-IsSingle,
}
use elastic_translations_mic.Pcc.Reuse.State.{
  Slot, Entry, Tracker, word, entry_of, set_entry, is_some, is_promoted,
}
use elastic_translations_mic.Pcc.Reuse.Defs.{summarize_loop, summarize_promotions}
use elastic_translations_mic.Pcc.Reuse.Steps.{IsTlbs}
use elastic_translations_mic.Pcc.Reuse.Judge.{with_maps, judged, judge-Judges}

left_over : (x y h : Bool) → ((if x then false else h) && not y) ≡ (h && not (x || y))
left_over x y h = ground arith

toggled :
    (x y p3 p e4 e n : Bool)
    → p3 ≡ (if x then not p && n else p)
    → (x ≡ true → n ≡ e)
    → (y ≡ true → e4 ≡ e)
    → (y ≡ true → x ≡ false)
    → (if y then not p3 && e4 else p3) ≡ (if x || y then not p && e else p)
toggled true true p3 p e4 e n h at old out = ground (arith, out refl)
toggled true false p3 p e4 e n h at old out = h ∙ rw (at refl) refl
toggled false true p3 p e4 e n h at old out = rw (h, old refl) refl
toggled false false p3 p e4 e n h at old out = h

-- A frequency above 0.
unfoldable pub is_used : Option ℕ → Bool
is_used none = false
is_used (some n) = ltb 0 n

module _ (d : Doubles) (log2 : ℕ → ℕ) where
  -- The tracker with other TLBs, maps and promotion cache.
  abbrev pub with_caches :
      Tracker d
      → (ℕ → Option (Entry d))
      → (ℕ → Option ℕ)
      → FunctionalCache
      → Slot
      → FunctionalCache
      → Slot
      → FunctionalCache
      → Slot
      → FunctionalCache
      → Tracker d
  with_caches t m p c1 s1 c2 s2 c3 s3 c4 = record (with_maps d log2 t m p c1 s1 c2 s2 c3 s3) {
    promotion_cache = c4;
  }

  -- The promotion cache has a frequency above 0 for the region.
  unfoldable pub earns : FunctionalCache → ℕ → Bool
  earns c b = is_used (get_freq log2 c (word (b * page_size)) false)

  -- The regions that are promoted once the list has been gone through.
  unfoldable pub promoted_after : Tracker d → List ℕ → ℕ → Bool
  promoted_after t bases b =
      if mem b bases
      then not (is_promoted d t b) && earns t.promotion_cache b
      else is_promoted d t b

  -- A run that never faults and keeps the counts, where the tags `bases` are let go of.
  abbrev pub Sums :
      (t : Tracker d) → IsSingle log2 t.promotion_cache → List ℕ → Option (Tracker d) → Type 0
  Sums t s bases r =
      (m : ℕ → Option (Entry d)) × (p : ℕ → Option ℕ) × (c1 : FunctionalCache) × (s1 : Slot)
      × (c2 : FunctionalCache) × (s2 : Slot) × (c3 : FunctionalCache) × (s3 : Slot)
      × (c4 : FunctionalCache) × (r ≡ some (with_caches t m p c1 s1 c2 s2 c3 s3 c4))
      × IsTlbs d log2 (with_caches t m p c1 s1 c2 s2 c3 s3 c4)
      × (s' : IsSingle log2 c4) × ((b : ℕ)
          → holds s'.only b ≡ (holds s.only b && not (mem b bases)))
      × ((b : ℕ) → is_some d (p b) ≡ promoted_after t bases b)

  pub summarize_loop-Sums :
      (t : Tracker d) (i : ℕ) (bases : List ℕ)
      → IsTlbs d log2 t
      → (s : IsSingle log2 t.promotion_cache) → IsDistinct bases
      → ((b : ℕ) → mem b bases ≡ true → (holds s.only b ≡ true) × (b < tag_bound))
      → Sums t s bases (summarize_loop d log2 t i bases)
  unfolding summarize_loop set_entry is_promoted promoted_after judged earns is_used
  summarize_loop-Sums t i [] w s dist there = (
    t.reuse_map,
    t.pcc_promotions,
    t.l1_tlb_4k,
    t.l1_4k,
    t.l1_tlb_2m,
    t.l1_2m,
    t.l2_tlb,
    t.l2,
    t.promotion_cache,
    refl,
    w,
    s,
    λ b. ground arith,
    λ b. refl,
  )
  summarize_loop-Sums t i (base ∷ bases) w s (out, dist) there =
      let (h, small) = there base (ground (arith, ==-self base)) in
      let (n, freq) = get_freq-IsSingle log2 s base small h in
      let t1 = set_entry d t base (entry_of d t base) in
      let (m, p, c1, s1, c2, s2, c3, s3, run, w', at) = judge-Judges d log2 t1 base i n w in
      let (c4, dirty, run', s', gone, freqs) = evict-IsSingle log2 s base small h in
      let t3 = record (with_maps d log2 t1 m p c1 s1 c2 s2 c3 s3) {
        promotion_cache = c4;
        l1_2m = record s2 { dirty_evict = dirty };
      } in
      let (m', p', k1, u1, k2, u2, k3, u3, k4, rest, w'', s'', gone', at') =
        summarize_loop-Sums t3 (suc i) bases w' s' dist (λ b k. (
          gone b ∙ rw (mem_apart b base bases out k) ((there b (ground arith)).0),
          (there b (ground arith)).1,
        )) in
      (
        m',
        p',
        k1,
        u1,
        k2,
        u2,
        k3,
        u3,
        k4,
        rw (freq, run, run') rest,
        w'',
        s'',
        λ b. gone' b ∙ rw (gone b) (left_over (b == base) (mem b bases) (holds s.only b)),
        λ b.
            at' b
            ∙ toggled (b == base) (mem b bases) _ _ _ _ (ltb 0 n) (at b)
                (λ e. rw (eq_of_== b base e, freq) refl)
                (λ k.
                  ap is_used (freqs b ((there b (ground arith)).1) (mem_apart b base bases out k)))
                (mem_apart b base bases out),
      )

  pub listing :
      {s : CacheSet} {bases : List ℕ} (b : ℕ)
      → IsListing s tag_bound bases
      → mem b bases ≡ holds s b
  listing b l = elim (Bool-cases (mem b _)) [
    | inl h ↦ h ∙ sym ((l.held b h).0)
    | inr h ↦ ground (arith, h, l.complete b)
  ]

  -- With ready TLBs and a promotion cache of one set, the summary never faults and keeps the
  -- number of accesses; the TLBs stay ready and the promotion cache holds no tag afterwards. A
  -- region whose tag it held is promoted afterwards just if it was not before and has a frequency
  -- above 0; no other region is promoted or demoted.
  pub summarize_promotions_empty :
      (t : Tracker d)
      → IsTlbs d log2 t
      → (s : IsSingle log2 t.promotion_cache)
      → (t' : Tracker d) × (summarize_promotions d log2 t ≡ some t')
        × (t'.total_num_accesses ≡ t.total_num_accesses)
        × IsTlbs d log2 t'
        × (s' : IsSingle log2 t'.promotion_cache) × ((b : ℕ) → holds s'.only b ≡ false)
        × ((b : ℕ)
            → is_promoted d t' b ≡ (
                if holds s.only b
                then not (is_promoted d t b) && earns t.promotion_cache b
                else is_promoted d t b))
  unfolding summarize_promotions is_promoted promoted_after
  summarize_promotions_empty t w s =
      let (bases, listed, l) = get_entries-IsSingle log2 s in
      let (m, p, c1, s1, c2, s2, c3, s3, c4, run, w', s', gone, at) =
        summarize_loop-Sums t 0 bases w s l.distinct l.held in
      (
        with_caches t m p c1 s1 c2 s2 c3 s3 c4,
        rw listed run,
        refl,
        w',
        s',
        λ b. ground (arith, gone b, l.complete b),
        λ b. at b ∙ rw (listing b l) refl,
      )
