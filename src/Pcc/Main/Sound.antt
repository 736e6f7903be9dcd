-- ===== src/Pcc/Main/Sound.antt =====
-- The hawkeye mode of `main` in src/pcc/main.cpp over a trace: up to where it faults, if it does.
use elastic_translations_mic.Prelude.{
  ℕ, ◌+◌, ◌^◌, ◌<◌, ◌≡◌, refl, ap, false, inl, inr, ◌⊎◌, none, some, List, [], ◌∷◌, ◌++◌, length,
  arith,
}
use elastic_translations_mic.Pcc.Doubles.{Doubles}
use elastic_translations_mic.Pcc.Reuse.State.{word}
use elastic_translations_mic.Pcc.Hawkeye.Defs.{Bitset}
use elastic_translations_mic.Pcc.Hawkeye.Sound.{IsSound, FaultsAt, hawkeye_track_access-IsSound}
use elastic_translations_mic.Pcc.Hawkeye.Faults.{IsOrder}
use elastic_translations_mic.Pcc.Main.Defs.{Globals, track_address, track_addresses}

module _ (d : Doubles) (log2 : ℕ → ℕ) (order : List (ℕ × Bitset) → List (ℕ × Bitset)) where
  -- The loop returns with a sound state that has counted the trace.
  abbrev pub Returns : Globals d log2 order → List ℕ → Type 0
  Returns g trace =
      (g' : Globals d log2 order) × (track_addresses d log2 order false g trace ≡ some g')
      × IsSound d g'.hawkeye
      × (g'.hawkeye.total_num_accesses ≡ word (g.hawkeye.total_num_accesses + length trace))

  -- The loop returns with a sound state before `addr`, and faults there.
  abbrev pub FaultsIn : Globals d log2 order → List ℕ → Type 0
  FaultsIn g trace =
      (before : List ℕ) × (addr : ℕ) × (after : List ℕ) × (trace ≡ before ++ addr ∷ after)
      × (g1 : Globals d log2 order) × (track_addresses d log2 order false g before ≡ some g1)
      × IsSound d g1.hawkeye
      × FaultsAt d order g1.hawkeye addr
      × (track_addresses d log2 order false g trace ≡ none)

  -- Where a map is gone through with each key as often as the map has it, the loop of the hawkeye
  -- mode over a trace, from a sound state, returns with a sound state that has counted the trace,
  -- or it returns with a sound state on a part of the trace before an address and faults there, at
  -- the last access of an interval, since a covered region has its old bucket outside the array or
  -- since the top bucket is empty once all covered regions are placed anew.
  pub track_addresses-IsSound :
      (g : Globals d log2 order) (trace : List ℕ)
      → IsOrder order
      → IsSound d g.hawkeye
      → g.hawkeye.total_num_accesses < 2 ^ 64
      → Returns g trace ⊎ FaultsIn g trace
  unfolding track_addresses track_address
  track_addresses-IsSound g [] o w l = inl (g, refl, w, omega (arith, l))
  track_addresses-IsSound g (addr ∷ trace) o w l =
      elim (hawkeye_track_access-IsSound d order g.hawkeye addr o w) [
        | inr (why, fault) ↦ inr ([], addr, trace, refl, g, refl, w, why, rw fault refl)
        | inl (h, run, w', n) ↦
            elim (track_addresses-IsSound (record g { hawkeye = h }) trace o w'
              (omega (arith, n))) [
                | inl (g', run', w'', n') ↦ inl (g', rw run run', w'', omega (arith, n, n'))
                | inr (before, a, after, split, g1, run', w1, why, fault) ↦ inr (
                  addr ∷ before,
                  a,
                  after,
                  ap (λ t. addr ∷ t) split,
                  g1,
                  rw run run',
                  w1,
                  why,
                  rw run fault,
                )
              ]
      ]
