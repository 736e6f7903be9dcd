-- ===== src/Pcc/Main/Run.antt =====
-- The two modes of `main` in src/pcc/main.cpp, over a trace of any length.
use elastic_translations_mic.Prelude.{
  ℕ, ◌+◌, ◌^◌, ◌<◌, ◌≡◌, refl, ◌∙◌, true, false, Option-cases, inl, inr, Option, none, some, List,
  [], ◌∷◌, length, arith, ◌>>=◌, Bool-cases, ◌⊎◌, ltb,
}
use elastic_translations_mic.Pcc.Doubles.{Doubles}
use elastic_translations_mic.Pcc.Cache.Defs.{print}
use elastic_translations_mic.Pcc.Reuse.State.{Tracker, word, access_interval}
use elastic_translations_mic.Pcc.Reuse.Defs.{
  promotion_cache_init, summarize_promotions, summarize_reuse,
}
use elastic_translations_mic.Pcc.Reuse.Track.{IsSound}
use elastic_translations_mic.Pcc.Reuse.Run.{pcc_track_access-IsSound}
use elastic_translations_mic.Pcc.Reuse.Print.{summarize_reuse_prints}
use elastic_translations_mic.Pcc.Reuse.Init.{IsLog2, promotion_cache_init-IsSound}
use elastic_translations_mic.Pcc.Hawkeye.Defs.{Bitset, hawkeye_track_access}
use elastic_translations_mic.Pcc.Main.Defs.{
  Globals, globals_start, track_address, track_addresses, accesses, summarize_promotions_at,
  print_at, finish, main,
}

module _ (d : Doubles) (log2 : ℕ → ℕ) (order : List (ℕ × Bitset) → List (ℕ × Bitset)) where
  -- A run that returns with a sound tracker that has counted `n` accesses.
  abbrev pub Tracked : ℕ → Option (Globals d log2 order) → Type 0
  Tracked n r =
      (g : Globals d log2 order) × (t : Tracker d) × (r ≡ some g)
      × (g.tracker ≡ some t)
      × (t.total_num_accesses ≡ n)
      × IsSound d log2 t

  track_addresses-Tracked :
      (g : Globals d log2 order) (t : Tracker d) (trace : List ℕ)
      → g.tracker ≡ some t
      → t.total_num_accesses < 2 ^ 64
      → IsSound d log2 t
      → Tracked
          (word (t.total_num_accesses + length trace))
          (track_addresses d log2 order true g trace)
  unfolding track_addresses track_address
  track_addresses-Tracked g t [] e l w = (g, t, refl, e, omega (arith, l), w)
  track_addresses-Tracked g t (addr ∷ trace) e l w =
      let (t', run, n, w', hit) = pcc_track_access-IsSound d log2 t addr w in
      let (g2, t2, run', e', n', w2) =
        track_addresses-Tracked (record g { tracker = some t' }) t' trace refl (omega (arith, n))
          w' in
      (g2, t2, rw (e, run) run', e', n' ∙ omega (arith, n), w2)

  -- With caches, the end of the run is summarize_reuse.
  finish-tracker :
      (g : Globals d log2 order) (t : Tracker d)
      → g.tracker ≡ some t
      → finish d log2 order g
        ≡ (summarize_reuse d log2 t >>= (λ p. some (record g { tracker = some p.0 })))
  unfolding finish accesses summarize_promotions_at print_at summarize_reuse
  finish-tracker g t e = elim (Bool-cases (ltb t.total_num_accesses access_interval)) [
    | inl l ↦
        rw (e, l)
          (elim (Option-cases (summarize_promotions d log2 t)) [
            | inl q ↦ rw q refl
            | inr (t1, q) ↦ rw q (elim (Option-cases (print t1.promotion_cache)) [
              | inl o ↦ rw o refl
              | inr (ts, o) ↦ rw o refl
            ])
          ])
    | inr l ↦
        rw (e, l)
          (elim (Option-cases (print t.promotion_cache)) [
            | inl o ↦ rw o refl
            | inr (ts, o) ↦ rw o refl
          ])
  ]

  finish-Tracked :
      (g : Globals d log2 order) (t : Tracker d)
      → g.tracker ≡ some t
      → IsSound d log2 t
      → Tracked t.total_num_accesses (finish d log2 order g)
  finish-Tracked g t e w =
      let (t', ts, run, n, w', distinct, printed) = summarize_reuse_prints d log2 t w in
      (record g { tracker = some t' }, t', finish-tracker g t e ∙ rw run refl, refl, n, w')

  -- Without arguments, the program returns on every trace, with sound caches and the trace counted
  -- modulo 2 ^ 64, where log2 is the integer logarithm.
  pub main_pcc :
      IsLog2 log2 → (trace : List ℕ) → Tracked (word (length trace)) (main d log2 order true trace)
  unfolding main globals_start promotion_cache_init
  main_pcc l trace =
      let t0 = promotion_cache_init d log2 in
      let (g, t, run, e, n, w) =
        track_addresses-Tracked (globals_start d log2 order true) t0 trace refl (omega arith)
          (promotion_cache_init-IsSound log2 l d) in
      let (g', t', run', e', n', w') = finish-Tracked g t e w in
      (g', t', rw run run', e', n' ∙ n ∙ omega arith, w')

  -- Without caches, the end of the run reads through a null pointer.
  finish_null : (g : Globals d log2 order) → g.tracker ≡ none → finish d log2 order g ≡ none
  unfolding finish accesses summarize_promotions_at print_at
  finish_null g e = elim (Bool-cases (ltb g.hawkeye.total_num_accesses access_interval)) [
    | inl l ↦ rw (e, l) refl
    | inr l ↦ rw (e, l) refl
  ]

  -- The tracking faults, or it returns and the end of the run faults on what it leaves.
  abbrev pub Faults : Option (Globals d log2 order) → Type 0
  Faults r =
      (r ≡ none)
      ⊎ ((g : Globals d log2 order) × (r ≡ some g)
          × (g.tracker ≡ none)
          × (finish d log2 order g ≡ none))

  no_pointers :
      (g : Globals d log2 order) (trace : List ℕ)
      → g.tracker ≡ none
      → Faults (track_addresses d log2 order false g trace)
  unfolding track_addresses track_address
  no_pointers g [] e = inr (g, refl, e, finish_null g e)
  no_pointers g (addr ∷ trace) e =
      elim (Option-cases (hawkeye_track_access d order g.hawkeye addr)) [
        | inl h ↦ inl (rw h refl)
        | inr (h', h) ↦ rw h (no_pointers (record g { hawkeye = h' }) trace e)
      ]

  -- With an argument, the program returns on no trace: if the tracking does, the final summary still
  -- reads through a null pointer, since no caches were made.
  pub main_hawkeye :
      (trace : List ℕ)
      → (main d log2 order false trace ≡ none)
        × Faults (track_addresses d log2 order false (globals_start d log2 order false) trace)
  unfolding main globals_start
  main_hawkeye trace = elim (no_pointers (globals_start d log2 order false) trace refl) [
    | inl e ↦ (rw e refl, inl e)
    | inr (g, e, t, f) ↦ (rw e f, inr (g, e, t, f))
  ]
