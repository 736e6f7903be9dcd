-- ===== src/Pcc/Reuse/Print.antt =====
-- The final summary of src/pcc/huge_page_reuse.h: `summarize_reuse`, and what it prints.
use elastic_translations_mic.Prelude.{
  ℕ, ◌≡◌, refl, ◌∙◌, not, ◌&&◌, Bool-cases, inl, inr, some, ltb, List, [], ◌∷◌, mem, IsDistinct,
}
use elastic_translations_mic.Pcc.Doubles.{Doubles}
use elastic_translations_mic.Pcc.CacheSet.Held.{holds}
use elastic_translations_mic.Pcc.Cache.Single.{print-IsSingle}
use elastic_translations_mic.Pcc.Reuse.State.{Tracker, access_interval}
use elastic_translations_mic.Pcc.Reuse.Defs.{summarize_reuse}
use elastic_translations_mic.Pcc.Reuse.Summary.{summarize_promotions_empty, listing}
use elastic_translations_mic.Pcc.Reuse.Track.{IsSound}

module _ (d : Doubles) (log2 : ℕ → ℕ) where
  -- A final summary of a tracker with sound caches never faults, keeps the number of accesses and
  -- keeps the caches sound. It prints the promotion cache as one set, each tag once: the tags that
  -- were held, or none where fewer accesses than an interval were counted.
  pub summarize_reuse_prints :
      (t : Tracker d)
      → (w : IsSound d log2 t)
      → (t' : Tracker d) × (ts : List ℕ) × (summarize_reuse d log2 t ≡ some (t', ts ∷ []))
        × (t'.total_num_accesses ≡ t.total_num_accesses)
        × IsSound d log2 t'
        × IsDistinct ts
        × ((b : ℕ)
            → mem b ts ≡ (not (ltb t.total_num_accesses access_interval) && holds w.single.only b))
  unfolding summarize_reuse
  summarize_reuse_prints t w = elim (Bool-cases (ltb t.total_num_accesses access_interval)) [
    | inl h ↦
        let (t', run, n, tlbs, single, gone, promoted) =
          summarize_promotions_empty d log2 t w.tlbs w.single in
        let (ts, run', l) = print-IsSingle log2 single in
        (
          t',
          ts,
          rw (h, run, run') refl,
          n,
          record { tlbs = tlbs; single = single },
          l.distinct,
          λ b. rw h (listing d log2 b l ∙ gone b),
        )
    | inr h ↦
        let (ts, run', l) = print-IsSingle log2 w.single in
        (t, ts, rw (h, run') refl, refl, w, l.distinct, λ b. rw h (listing d log2 b l))
  ]
