-- ===== src/Pcc/Main/Phases.antt =====
-- The phases of src/pcc/hawkeye.h over the addresses of a trace, as the loop of `main` in
-- src/pcc/main.cpp reads them.
use elastic_translations_mic.Prelude.{
  ℕ, suc, ◌+◌, ◌*◌, ◌/◌, ◌<◌, ◌≡◌, refl, ◌∙◌, Bool, true, false, ◌||◌, Bool-cases, inl, inr, some,
  List, [], ◌∷◌, length, ◌==◌, arith, if◌then◌else◌,
}
use elastic_translations_mic.Pcc.Doubles.{Doubles}
use elastic_translations_mic.Pcc.Cache.Defs.{page_size}
use elastic_translations_mic.Pcc.Reuse.State.{factor, access_interval}
use elastic_translations_mic.Pcc.Hawkeye.Defs.{Bitset}
use elastic_translations_mic.Pcc.Hawkeye.Phases.{
  bit, hawkeye_track_access_pause, hawkeye_track_access_covers,
}
use elastic_translations_mic.Pcc.Main.Defs.{Globals, track_address, track_addresses}

-- The trace has an address in the page of `v`.
abbrev pub touches : List ℕ → ℕ → Bool
touches [] v = false
touches (u ∷ trace) v = (v / page_size == u / page_size) || touches trace v

either_or : (x y b : Bool) → (y || (if x then true else b)) ≡ ((x || y) || b)
either_or x y b = ground arith

module _ (d : Doubles) (log2 : ℕ → ℕ) (order : List (ℕ × Bitset) → List (ℕ × Bitset)) where
  -- While accesses are tracked, a trace that ends before the interval does returns, and the
  -- coverage then has, beside the old bits, exactly those of the pages that the trace touches.
  pub track_addresses_covers :
      (g : Globals d log2 order) (trace : List ℕ)
      → g.hawkeye.tracking ≡ true
      → g.hawkeye.curr_num_accesses + length trace < access_interval
      → (g' : Globals d log2 order) × (track_addresses d log2 order false g trace ≡ some g')
        × (g'.hawkeye.tracking ≡ true)
        × (g'.hawkeye.curr_num_accesses ≡ g.hawkeye.curr_num_accesses + length trace)
        × ((v : ℕ) → bit d g'.hawkeye v ≡ (touches trace v || bit d g.hawkeye v))
  unfolding track_addresses track_address
  track_addresses_covers g [] on l = (g, refl, on, omega arith, λ v. refl)
  track_addresses_covers g (addr ∷ trace) on l =
      let (h, run, w, on', bits, n) =
        hawkeye_track_access_covers d order g.hawkeye addr on (rw on (omega (arith, l)))
          (ground (arith, l)) in
      let (g', run', on'', n', bits') =
        track_addresses_covers (record g { hawkeye = h }) trace on' (omega (arith, n, l)) in
      (
        g',
        rw run run',
        on'',
        omega (arith, n, n'),
        λ v.
            bits' v
            ∙ rw (bits v) (
                either_or (v / page_size == addr / page_size) (touches trace v)
                  (bit d g.hawkeye v)),
      )

  -- A pause ends: as many accesses as are left of it return, whatever they are, and turn tracking
  -- on again, with the coverage and the promotions as they were.
  pub track_addresses_resumes :
      (g : Globals d log2 order) (trace : List ℕ)
      → g.hawkeye.tracking ≡ false
      → g.hawkeye.curr_num_accesses < factor * access_interval
      → g.hawkeye.curr_num_accesses + length trace ≡ factor * access_interval
      → (g' : Globals d log2 order) × (track_addresses d log2 order false g trace ≡ some g')
        × (g'.hawkeye.tracking ≡ true)
        × (g'.hawkeye.curr_num_accesses ≡ 0)
        × (g'.hawkeye.coverage ≡ g.hawkeye.coverage)
        × (g'.hawkeye.hawkeye_promotions ≡ g.hawkeye.hawkeye_promotions)
  unfolding track_addresses track_address
  track_addresses_resumes g [] off l e = ground (arith, l, e)
  track_addresses_resumes g (addr ∷ trace) off l e =
      let (h, run, w, on, same, kept, n) =
        hawkeye_track_access_pause d order g.hawkeye addr off (rw off l) in
      elim (Bool-cases (suc g.hawkeye.curr_num_accesses == factor * access_interval)) [
        | inl q ↦ (
          record g { hawkeye = h },
          rw run (no_more trace (ground (arith, q, e)) (record g { hawkeye = h })),
          on ∙ q,
          n ∙ rw q refl,
          same,
          kept,
        )
        | inr q ↦
            let n' : h.curr_num_accesses ≡ suc g.hawkeye.curr_num_accesses = n ∙ rw q refl in
            let (g', run', on', zero', same', kept') =
              track_addresses_resumes (record g { hawkeye = h }) trace (on ∙ q)
                (ground (arith, n', q, l)) (omega (arith, n', e)) in
            (g', rw run run', on', zero', same' ∙ same, kept' ∙ kept)
      ]
    where
      no_more :
          (rest : List ℕ)
          → length rest ≡ 0
          → (g' : Globals d log2 order) → track_addresses d log2 order false g' rest ≡ some g'
      no_more [] z g' = refl
      no_more (x ∷ rest) z g' = ground (arith, z)
