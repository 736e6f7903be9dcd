-- ===== src/Pcc/Hawkeye/Summary.antt =====
-- `summarize` of src/pcc/hawkeye.h: all covered regions are placed anew, then regions are promoted.
use elastic_translations_mic.Prelude.{
  sym, subst, Option, ℕ, zero, suc, ◌≡◌, refl, ◌∙◌, ap, true, Option-cases, inl, inr, ◌⊎◌, none,
  some, List, [], ◌∷◌, ◌++◌, length, length-append, mem, get_elem?, IsDistinct, arith,
}
use elastic_translations_mic.Pcc.Doubles.{Doubles}
use elastic_translations_mic.Pcc.Hawkeye.Defs.{
  returned, Hawkeye, Bitset, num_buckets, rebucket_all, regions, result_of, summarize,
}
use elastic_translations_mic.Pcc.Hawkeye.Buckets.{home, bucket_of_ema, IsPlaced, old_is_index}
use elastic_translations_mic.Pcc.Hawkeye.Promote.{
  rest_of_zero, queue_below, queue_from, promote_regions, promote_loop-promote_regions,
  promote_loop_past_end,
}
use elastic_translations_mic.Pcc.Hawkeye.Bound.{IsPromotion, promote_regions-IsPromotion}
use elastic_translations_mic.Pcc.Hawkeye.Rebucket.{
  bases_of, queued, rebucketed, promoted, rebucket_all-Rebuckets, promote_regions-promoted,
  known_ema,
}

regions_lem : (buckets : ℕ → List ℕ) (n : ℕ) → length (queue_below buckets n) ≡ regions buckets n
unfolding queue_below regions
regions_lem buckets zero = refl
regions_lem buckets (suc n) =
    omega (arith, length-append (buckets n) (queue_below buckets n), regions_lem buckets n)

queue_top : (buckets : ℕ → List ℕ) (n : ℕ) → queue_from buckets n 0 ≡ queue_below buckets (suc n)
unfolding queue_from queue_below
queue_top buckets n = ap (λ bs. bs ++ queue_below buckets n) (rest_of_zero (buckets n))

no_first : (bs : List ℕ) → get_elem? bs 0 ≡ none → bs ≡ []
no_first [] e = refl
no_first (b ∷ bs) e = ground (arith, e)

module _ (d : Doubles) where
  -- What a summary is to do.
  abbrev pub Summarizes : (List (ℕ × Bitset) → List (ℕ × Bitset)) → Hawkeye d → Type 0
  Summarizes order h =
      (ema1 : ℕ → Option d.Double) × (buckets1 : ℕ → List ℕ) × (rebucket_all d h (order h.coverage)
        ≡ some (rebucketed d h ema1 buckets1))
      × IsPlaced d (rebucketed d h ema1 buckets1)
      × (((buckets1 9 ≡ []) × (summarize d order h ≡ none))
          ⊎ ((ema2 : ℕ → Option d.Double) × (promotions : ℕ → Option ℕ) × (news : List ℕ)
              × (summarize d order h
                  ≡ some (promoted d (rebucketed d h ema1 buckets1) ema2 promotions))
              × IsPlaced d (promoted d (rebucketed d h ema1 buckets1) ema2 promotions)
              × IsPromotion d (rebucketed d h ema1 buckets1)
                  (promoted d (rebucketed d h ema1 buckets1) ema2 promotions) 0
                  (queue_below buckets1 num_buckets) news))

  pub summarize_promotes :
      (order : List (ℕ × Bitset) → List (ℕ × Bitset)) (h : Hawkeye d)
      → IsPlaced d h
      → IsDistinct (bases_of (order h.coverage))
      → ((b : ℕ) → mem b (bases_of (order h.coverage)) ≡ true → old_is_index d h b ≡ true)
      → Summarizes order h
  unfolding summarize result_of
  summarize_promotes order h w dist ix =
      let (ema1, buckets1, run, w1, others) =
        rebucket_all-Rebuckets d h (order h.coverage) w dist ix in
      let h1 = rebucketed d h ema1 buckets1 in
      let queue = queue_below buckets1 num_buckets in
      (
        ema1,
        buckets1,
        run,
        w1,
        elim (Option-cases (get_elem? (buckets1 9) 0)) [
          | inl e ↦ inl (
            no_first (buckets1 9) e,
            rw run
                (ap result_of (promote_loop_past_end d (regions buckets1 num_buckets) h1 9 0 0 e)),
          )
          | inr (b, e) ↦
              let (news, q) = promote_regions-IsPromotion d h1 0 queue (omega arith) in
              let (ema2, promotions, form, same) =
                promote_regions-promoted d h1 0 queue (λ x m.
                  let (i, p) = queued buckets1 num_buckets x m in known_ema d h1 w1 i x p) in
              inr (
                ema2,
                promotions,
                news,
                rw run (
                    ap result_of (
                      promote_loop-promote_regions d (suc (regions buckets1 num_buckets)) h1 9 0 0 b
                        e
                        (omega (
                          arith,
                          ap length (queue_top buckets1 9),
                          regions_lem buckets1 num_buckets,
                        ))
                      ∙ ap (λ q. returned (promote_regions d h1 0 q)) (queue_top buckets1 9)
                      ∙ ap returned form)),
                λ i x. w1 i x ∙ ap (λ o. home i (bucket_of_ema d o)) (sym (same x)),
                subst (λ h2. IsPromotion d h1 h2 0 queue news) form q,
              )
        ],
      )
