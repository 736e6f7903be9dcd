-- ===== src/Pcc/Hawkeye/Rebucket.antt =====
-- The two loops of `summarize` in src/pcc/hawkeye.h, on averages, buckets and promotions.
use elastic_translations_mic.Prelude.{
  mem_apart, mem-append, ltb, ◌||◌, Bool-cases, Option, eq_of_==, ◌<◌, if◌then◌else◌, ℕ, zero, suc,
  ◌≡◌, refl, ◌∙◌, ap, true, false, Option-cases, inl, inr, none, some, List, [], ◌∷◌, ◌==◌, update,
  mem, IsDistinct, arith, ==-self,
}
use elastic_translations_mic.Pcc.Doubles.{Doubles}
use elastic_translations_mic.Pcc.Hawkeye.Defs.{
  Hawkeye, Bitset, new_ema, count_bits, num_base_pages, rebucket_all, promote_region, ema_or_zero,
  repeats, max_num_promotions,
}
use elastic_translations_mic.Pcc.Hawkeye.Buckets.{
  tally, home, bucket_of_ema, IsPlaced, old_is_index, rebucket-IsPlaced, rebucket_fault,
}
use elastic_translations_mic.Pcc.Hawkeye.Promote.{queue_below, promote_regions}

-- The regions of the pairs.
abbrev pub bases_of : List (ℕ × Bitset) → List ℕ
bases_of [] = []
bases_of ((base, bits) ∷ rest) = base ∷ bases_of rest

tally_pos : (b : ℕ) (xs : List ℕ) → mem b xs ≡ true → 0 < tally b xs
tally_pos b [] m = ground (arith, m)
tally_pos b (x ∷ xs) m = ground (arith, tally_pos b xs)

-- A region of the queue has a place in one of the buckets.
pub queued :
    (buckets : ℕ → List ℕ) (n b : ℕ)
    → mem b (queue_below buckets n) ≡ true
    → (i : ℕ) × (0 < tally b (buckets i))
unfolding queue_below
queued buckets zero b m = ground (arith, m)
queued buckets (suc n) b m = elim (Bool-cases (mem b (buckets n))) [
  | inl e ↦ (n, tally_pos b (buckets n) e)
  | inr e ↦
      queued buckets n b (ground (arith, m, e, mem-append b (buckets n) (queue_below buckets n)))
]

module _ (d : Doubles) where
  -- The state with other averages and buckets, and with other averages and promotions.
  abbrev pub rebucketed : Hawkeye d → (ℕ → Option d.Double) → (ℕ → List ℕ) → Hawkeye d
  rebucketed h ema' buckets' = record h { ema = ema'; buckets = buckets' }

  abbrev pub promoted : Hawkeye d → (ℕ → Option d.Double) → (ℕ → Option ℕ) → Hawkeye d
  promoted h ema' promotions' = record h { ema = ema'; hawkeye_promotions = promotions' }

  -- A run of the loop over the coverage that places the regions anew.
  abbrev pub Rebuckets : Hawkeye d → List ℕ → Option (Hawkeye d) → Type 0
  Rebuckets h bases r =
      (ema' : ℕ → Option d.Double) × (buckets' : ℕ → List ℕ) × (r
        ≡ some (rebucketed h ema' buckets'))
      × IsPlaced d (rebucketed h ema' buckets')
      × ((b : ℕ) → mem b bases ≡ false → ema' b ≡ h.ema b)

  -- Distinct regions whose old buckets are in the array are all placed anew.
  pub rebucket_all-Rebuckets :
      (h : Hawkeye d) (pairs : List (ℕ × Bitset))
      → IsPlaced d h
      → IsDistinct (bases_of pairs)
      → ((b : ℕ) → mem b (bases_of pairs) ≡ true → old_is_index d h b ≡ true)
      → Rebuckets h (bases_of pairs) (rebucket_all d h pairs)
  unfolding rebucket_all old_is_index
  rebucket_all-Rebuckets h [] w dist ix = (h.ema, h.buckets, refl, w, λ b m. refl)
  rebucket_all-Rebuckets h ((base, bits) ∷ rest) w (out, dist) ix =
      let new = new_ema d (h.ema base) (count_bits num_base_pages bits) in
      let (buckets', run, w') =
        rebucket-IsPlaced d h base bits w (ix base (rw (==-self base) refl)) in
      let (ema'', buckets'', run', w'', others) =
        rebucket_all-Rebuckets (rebucketed h (update h.ema base (some new)) buckets') rest w' dist
          (λ b m. rw (mem_apart b base (bases_of rest) out m) (ix b (ground (arith, m)))) in
      (
        ema'',
        buckets'',
        rw run run',
        w'',
        λ b m. others b (ground (arith, m)) ∙ rw (first_differs b base (bases_of rest) m) refl,
      )
    where
      first_differs :
          (b base : ℕ) (bases : List ℕ) → mem b (base ∷ bases) ≡ false → (b == base) ≡ false
      first_differs b base bases m = ground (arith, m)

  -- A covered region whose old bucket is outside the array makes the loop fault.
  pub rebucket_all_fault :
      (h : Hawkeye d) (pairs : List (ℕ × Bitset)) (b : ℕ)
      → IsPlaced d h
      → IsDistinct (bases_of pairs)
      → mem b (bases_of pairs) ≡ true
      → old_is_index d h b ≡ false
      → rebucket_all d h pairs ≡ none
  unfolding rebucket_all old_is_index
  rebucket_all_fault h [] b w dist m bad = ground (arith, m)
  rebucket_all_fault h ((base, bits) ∷ rest) b w (out, dist) m bad =
      elim (Bool-cases (old_is_index d h base)) [
        | inr ix ↦ rw (rebucket_fault d h base bits ix) refl
        | inl ix ↦
            let new = new_ema d (h.ema base) (count_bits num_base_pages bits) in
            let (buckets', run, w') = rebucket-IsPlaced d h base bits w ix in
            let m' : mem b (bases_of rest) ≡ true = in_rest b base ix bad m in
            rw run (
              rebucket_all_fault (rebucketed h (update h.ema base (some new)) buckets') rest b w'
                dist m' (rw (mem_apart b base (bases_of rest) out m') bad))
      ]
    where
      in_rest :
          (b base : ℕ)
          → old_is_index d h base ≡ true
          → old_is_index d h b ≡ false
          → ((b == base) || mem b (bases_of rest)) ≡ true
          → mem b (bases_of rest) ≡ true
      in_rest b base ix bad m = elim (Bool-cases (b == base)) [
        | inl e ↦ ground (arith, ix, bad, ap (old_is_index d h) (eq_of_== b base e))
        | inr e ↦ ground (arith, m, e)
      ]

  -- The promotion of regions that have an average changes promotions only.
  pub promote_regions-promoted :
      (h : Hawkeye d) (num : ℕ) (bases : List ℕ)
      → ((b : ℕ) → mem b bases ≡ true → (e : d.Double) × (h.ema b ≡ some e))
      → (ema' : ℕ → Option d.Double) × (promotions' : ℕ → Option ℕ) × (promote_regions d h num bases
          ≡ promoted h ema' promotions')
        × ((b : ℕ) → ema' b ≡ h.ema b)
  unfolding promote_regions promote_region ema_or_zero
  promote_regions-promoted h num [] known = (h.ema, h.hawkeye_promotions, refl, λ b. refl)
  promote_regions-promoted h num (base ∷ bases) known =
      let (e, at) = known base (rw (==-self base) refl) in
      let h1 = promote_region d h base in
      let same : (b : ℕ) → h1.ema b ≡ h.ema b = λ b. stays base e at b in
      let num' = if repeats d h base then num else suc num in
      let (ema', promotions', run, others) =
        promote_regions-promoted h1 num' bases
          (λ b m. let (x, q) = known b (ground (arith, m)) in (x, same b ∙ q)) in
      elim (Bool-cases (ltb num' max_num_promotions)) [
        | inl r ↦ (ema', promotions', rw r run, λ b. others b ∙ same b)
        | inr r ↦ (h1.ema, h1.hawkeye_promotions, rw r refl, same)
      ]
    where
      stays :
          (base : ℕ) (e : d.Double)
          → h.ema base ≡ some e
          → (b : ℕ) → (if b == base then some (ema_or_zero d (h.ema base)) else h.ema b) ≡ h.ema b
      stays base e at b = elim (Bool-cases (b == base)) [
        | inl q ↦ rw (q, eq_of_== b base q, at) refl
        | inr q ↦ rw q refl
      ]

  -- A region with a place has an average.
  pub known_ema :
      (h : Hawkeye d)
      → IsPlaced d h
      → (i b : ℕ) → 0 < tally b (h.buckets i)
      → (e : d.Double) × (h.ema b ≡ some e)
  known_ema h w i b pos' = elim (Option-cases (h.ema b)) [
    | inl q ↦ ground (arith, pos', w i b, ap (λ o. home i (bucket_of_ema d o)) q)
    | inr (e, q) ↦ (e, q)
  ]
