-- ===== src/Pcc/Main/Tests.antt =====
-- The runs of `main` of src/pcc/main.cpp at concrete traces.
use elastic_translations_mic.Prelude.{
  ℕ, ◌+◌, ◌||◌, ◌≡◌, refl, some, arith, none, List, [], ◌∷◌, true, false, ◌⊎◌,
}
use elastic_translations_mic.Pcc.Hawkeye.Defs.{hawkeye_start}
use elastic_translations_mic.Pcc.Hawkeye.Phases.{bit}
use elastic_translations_mic.Pcc.Reuse.State.{word}
use elastic_translations_mic.Pcc.Reuse.Tests.{log2, log2-IsLog2, whole}
use elastic_translations_mic.Pcc.Hawkeye.Tests.{
  as_stored, as_stored-IsOrder, last_one, last_one-IsSound,
}
use elastic_translations_mic.Pcc.Main.Sound.{Returns, FaultsIn, track_addresses-IsSound}
use elastic_translations_mic.Pcc.Main.Defs.{Globals, globals_start, main, track_addresses}
use elastic_translations_mic.Pcc.Main.Run.{Tracked, Faults, main_pcc, main_hawkeye}
use elastic_translations_mic.Pcc.Main.Phases.{
  touches, track_addresses_covers, track_addresses_resumes,
}

abbrev trace : List ℕ
trace = 0x200000 ∷ 0x201000 ∷ 0x200008 ∷ []

main_pcc_example : Tracked whole log2 as_stored (word 3) (main whole log2 as_stored true trace)
main_pcc_example = main_pcc whole log2 as_stored log2-IsLog2 trace

main_hawkeye_example :
    (main whole log2 as_stored false trace ≡ none)
    × Faults whole log2 as_stored (
        track_addresses whole log2 as_stored false (globals_start whole log2 as_stored false) trace)
main_hawkeye_example = main_hawkeye whole log2 as_stored trace

abbrev paused : Globals whole log2 as_stored
paused = record {
  tracker = none;
  hawkeye = record (hawkeye_start whole) { tracking = false; curr_num_accesses = 2999998 };
}

abbrev tracking : Globals whole log2 as_stored
tracking = record { tracker = none; hawkeye = hawkeye_start whole }

track_addresses_covers_example :
    (g' : Globals whole log2 as_stored) × (track_addresses whole log2 as_stored false tracking trace
      ≡ some g')
    × (g'.hawkeye.tracking ≡ true)
    × (g'.hawkeye.curr_num_accesses ≡ 0 + 3)
    × ((v : ℕ) → bit whole g'.hawkeye v ≡ (touches trace v || bit whole (hawkeye_start whole) v))
unfolding hawkeye_start
track_addresses_covers_example =
    track_addresses_covers whole log2 as_stored tracking trace refl (omega arith)

track_addresses_resumes_example :
    (g' : Globals whole log2 as_stored) × (track_addresses whole log2 as_stored false paused
        (0x200000 ∷ 0x201000 ∷ [])
      ≡ some g')
    × (g'.hawkeye.tracking ≡ true)
    × (g'.hawkeye.curr_num_accesses ≡ 0)
    × (g'.hawkeye.coverage ≡ paused.hawkeye.coverage)
    × (g'.hawkeye.hawkeye_promotions ≡ paused.hawkeye.hawkeye_promotions)
track_addresses_resumes_example =
    track_addresses_resumes whole log2 as_stored paused (0x200000 ∷ 0x201000 ∷ []) refl
      (omega arith) (omega arith)

abbrev summing : Globals whole log2 as_stored
summing = record { tracker = none; hawkeye = last_one }

track_addresses-IsSound_example :
    Returns whole log2 as_stored summing trace ⊎ FaultsIn whole log2 as_stored summing trace
track_addresses-IsSound_example =
    track_addresses-IsSound whole log2 as_stored summing trace as_stored-IsOrder last_one-IsSound
      (omega arith)
