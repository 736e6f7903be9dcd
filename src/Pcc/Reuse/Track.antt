-- ===== src/Pcc/Reuse/Track.antt =====
-- The reuse tracking of src/pcc/huge_page_reuse.h: what an access does that missed all TLBs.
use elastic_translations_mic.Prelude.{
  ℕ, ◌+◌, ◌*◌, ◌/◌, ◌^◌, ◌<◌, ◌≡◌, refl, ◌∙◌, sym, ap, true, false, not, ◌&&◌, Bool, Bool-cases,
  inl, inr, ◌⊎◌, Option, none, some, arith, ◌==◌, if◌then◌else◌, update,
}
use elastic_translations_mic.Pcc.Doubles.{Doubles}
use elastic_translations_mic.Pcc.CacheSet.Held.{holds}
use elastic_translations_mic.Pcc.Cache.Defs.{FunctionalCache, Output, page_size, tag_of}
use elastic_translations_mic.Pcc.Cache.Single.{
  IsSingle, tag_bound, Replaces, access-IsSingle, insert-IsSingle,
}
use elastic_translations_mic.Pcc.Reuse.State.{
  Slot, Entry, Tracker, word, no_entry, no_tag, written, entry_of, set_entry, is_promoted, is_some,
}
use elastic_translations_mic.Pcc.Reuse.Defs.{
  fill, forget_evicted, promotion_access, reused, track_reuse, track,
}
use elastic_translations_mic.Pcc.Reuse.Steps.{IsTlbs}

-- The region whose record an insertion in the promotion cache loses: that of the tag that it reports
-- or, where it reports none, that of the tag that was in the TLB's variables before.
abbrev pub loses : Option (ℕ × ℕ) → Slot → ℕ → Bool
loses none s b =
    not (s.evicted_tag == no_tag)
    && b == word (s.evicted_tag * page_size + s.evicted_offset) / page_size
loses (some (tag, offset)) s b = b == word (tag * page_size + offset) / page_size

-- A tag of the promotion cache is not the tag that says that nothing was evicted.
abbrev IsSmall : Option (ℕ × ℕ) → Type 0
IsSmall none = Unit {0}
IsSmall (some (tag, offset)) = tag < tag_bound

loses-written :
    (s : Slot) (o : Output) (x : Option (ℕ × ℕ)) (b : ℕ)
    → o.evicted ≡ x
    → IsSmall x
    → loses none (written s o) b ≡ loses x s b
unfolding written
loses-written s o none b e h = rw e refl
loses-written s o (some (tag, offset)) b e h = rw (e, no_clash tag h) refl
  where
    no_clash : (tag : ℕ) → tag < tag_bound → (tag == no_tag) ≡ false
    no_clash tag h = ground (arith, h)

module _ (d : Doubles) (log2 : ℕ → ℕ) where
  -- The caches are ready.
  pub record IsSound (t : Tracker d) : Type 0 where
    pub tlbs : IsTlbs d log2 t
    pub single : IsSingle log2 t.promotion_cache

  -- The state with other values of what stands besides the TLBs.
  abbrev pub with_rest :
      Tracker d → ℕ → (ℕ → Option (Entry d)) → FunctionalCache → Slot → ℕ → Tracker d
  with_rest t n m c s a = record t {
    num_2mb_ptw = n;
    reuse_map = m;
    promotion_cache = c;
    l1_4k = s;
    evicted_addr = a;
  }

  -- A run that changes what stands besides the TLBs, and leaves a single-set promotion cache.
  abbrev pub Tracks : Tracker d → Option (Tracker d) → Type 0
  Tracks t r =
      (n : ℕ) × (m : ℕ → Option (Entry d)) × (c : FunctionalCache) × (s : Slot) × (a : ℕ) × (r
        ≡ some (with_rest t n m c s a))
      × IsSingle log2 c

  -- The tag of a region in the promotion cache.
  abbrev pub key : Tracker d → ℕ → ℕ
  key t base = tag_of log2 t.promotion_cache (is_promoted d t base) (word (base * page_size))

  -- Which records are lost. On a hit, none, and the promotion cache holds the same tags. On a miss,
  -- the region's tag is held in place of the one that the insertion reports, if it reports one, which
  -- was held; the record that is lost is that of the reported tag, or else that of an old tag.
  abbrev pub Forgets :
      (t : Tracker d)
      → IsSingle log2 t.promotion_cache
      → ℕ
      → (c : FunctionalCache) → IsSingle log2 c
      → (ℕ → Bool)
      → Type 0
  Forgets t w base c w' lost =
      ((holds w.only (key t base) ≡ true)
        × ((x : ℕ) → holds w'.only x ≡ holds w.only x)
        × ((b : ℕ) → lost b ≡ false))
      ⊎ ((holds w.only (key t base) ≡ false)
          × (o : Option (ℕ × ℕ)) × Replaces log2 w c w' (key t base) o
          × ((b : ℕ) → lost b ≡ loses o t.l1_4k b))

  -- A run of the access to the promotion cache.
  abbrev Accesses :
      (t : Tracker d) → IsSingle log2 t.promotion_cache → ℕ → Option (Tracker d) → Type 0
  Accesses t w base r =
      (n : ℕ) × (m : ℕ → Option (Entry d)) × (c : FunctionalCache) × (s : Slot) × (a : ℕ) × (r
        ≡ some (with_rest t n m c s a))
      × (w' : IsSingle log2 c) × (lost : ℕ → Bool) × Forgets t w base c w' lost
      × ((b : ℕ) → m b ≡ (if lost b then some (no_entry d) else t.reuse_map b))

  forget_evicted_form :
      (t : Tracker d)
      → (m : ℕ → Option (Entry d)) × (a : ℕ) × (forget_evicted d log2 t
          ≡ record t { reuse_map = m; evicted_addr = a })
        × ((b : ℕ) → m b ≡ (if loses none t.l1_4k b then some (no_entry d) else t.reuse_map b))
  unfolding forget_evicted set_entry
  forget_evicted_form t = elim (Bool-cases (t.l1_4k.evicted_tag == no_tag)) [
    | inl h ↦ (t.reuse_map, t.evicted_addr, rw h refl, λ b. rw h refl)
    | inr h ↦
        let addr = word (t.l1_4k.evicted_tag * page_size + t.l1_4k.evicted_offset) / page_size in
        (update t.reuse_map addr (some (no_entry d)), addr, rw h refl, λ b. rw h refl)
  ]

  fill-IsSingle :
      (c : FunctionalCache) (s : Slot) (addr : ℕ) (is_2m : Bool)
      → (w : IsSingle log2 c) → addr < 2 ^ 64
      → holds w.only (tag_of log2 c is_2m addr) ≡ false
      → (c' : FunctionalCache) × (o : Output) × (fill d log2 c s addr is_2m
          ≡ some (c', written s o))
        × (w' : IsSingle log2 c') × Replaces log2 w c' w' (tag_of log2 c is_2m addr) o.evicted
  unfolding fill
  fill-IsSingle c s addr is_2m w h out =
      let (c', o, run, w', swaps) = insert-IsSingle log2 w addr true is_2m h out in
      (c', o, rw run refl, w', swaps)

  -- The same tags held before.
  Replaces-from :
      {c1 : FunctionalCache} (w1 : IsSingle log2 c1) {c : FunctionalCache} (w : IsSingle log2 c)
      (c' : FunctionalCache) (w' : IsSingle log2 c') (tag1 tag : ℕ) (o : Option (ℕ × ℕ))
      → ((x : ℕ) → holds w1.only x ≡ holds w.only x)
      → tag1 ≡ tag
      → Replaces log2 w1 c' w' tag1 o
      → Replaces log2 w c' w' tag o × IsSmall o
  Replaces-from w1 w c' w' tag1 tag none same e (was, swaps) =
      ((tt, λ x. swaps x ∙ rw (e, same x) refl), tt)
  Replaces-from w1 w c' w' tag1 tag (some (x, offset)) same e (was, swaps) =
      (((sym (same x) ∙ was.0, was.1), λ y. swaps y ∙ rw (e, same y) refl), was.1)

  promotion_access-Accesses :
      (t : Tracker d) (base : ℕ) (w : IsSingle log2 t.promotion_cache)
      → Accesses t w base (promotion_access d log2 t base)
  unfolding promotion_access
  promotion_access-Accesses t base w =
      let is_2m = is_promoted d t base in
      let addr = word (base * page_size) in
      let (c, run, w1, same, tags) = access-IsSingle log2 w addr true is_2m in
      elim (Bool-cases (holds w.only (key t base))) [
        | inl h ↦ (
          t.num_2mb_ptw,
          t.reuse_map,
          c,
          t.l1_4k,
          t.evicted_addr,
          rw (run, h) refl,
          w1,
          λ b. false,
          inl (h, same, λ b. refl),
          λ b. refl,
        )
        | inr h ↦
            let walked =
              is_2m
              && not ((entry_of d (record t { promotion_cache = c }) base).last_access == 0) in
            let n = if walked then word (t.num_2mb_ptw + 1) else t.num_2mb_ptw in
            let (c', o, run', w', swaps) =
              fill-IsSingle c t.l1_4k addr is_2m w1 (omega arith)
                (ap (λ x. holds w1.only x) (tags is_2m addr) ∙ same (key t base) ∙ h) in
            let (m, a, e, others) =
              forget_evicted_form
                (record t { num_2mb_ptw = n; promotion_cache = c'; l1_4k = written t.l1_4k o }) in
            let (swaps', small) =
              Replaces-from w1 w c' w' (tag_of log2 c is_2m addr) (key t base) o.evicted same
                (tags is_2m addr) swaps in
            (
              n,
              m,
              c',
              written t.l1_4k o,
              a,
              rw (run, h, run', e) refl,
              w',
              λ b. loses none (written t.l1_4k o) b,
              inr (h, o.evicted, swaps', λ b. loses-written t.l1_4k o o.evicted b refl small),
              others,
            )
      ]

  -- The record that TRACK_REUSE stores carries the time of the access.
  track_reuse_form :
      (t : Tracker d) (base : ℕ)
      → (e : Entry d) × (track_reuse d log2 t base ≡ set_entry d t base e)
        × (e.last_access ≡ t.total_num_accesses)
  unfolding track_reuse reused
  track_reuse_form t base =
      let e = entry_of d t base in
      elim (Bool-cases (e.last_access == 0)) [
        | inl h ↦ (record e { last_access = t.total_num_accesses }, rw h refl, refl)
        | inr h ↦ (reused d log2 t.total_num_accesses e, rw h refl, refl)
      ]

  pub track-Tracks :
      (t : Tracker d) (base : ℕ) → IsSingle log2 t.promotion_cache → Tracks t (track d log2 t base)
  unfolding track set_entry
  track-Tracks t base w = elim (Bool-cases (is_some d (t.reuse_map base))) [
    | inl h ↦
        let (n, m, c, s, a, run, w', lost, forgets, at) = promotion_access-Accesses t base w in
        let (e, stored, now) = track_reuse_form (with_rest t n m c s a) base in
        (n, update m base (some e), c, s, a, rw (h, run, stored) refl, w')
    | inr h ↦ (
      t.num_2mb_ptw,
      update t.reuse_map base (some (no_entry d)),
      t.promotion_cache,
      t.l1_4k,
      t.evicted_addr,
      rw h refl,
      w,
    )
  ]
