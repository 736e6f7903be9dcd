-- ===== src/Gups/Tests.antt =====
-- The generator of src/benchmarks/gups/gups.c at concrete numbers.
use elastic_translations_mic.Prelude.{◌^◌, ◌%◌, ◌≤◌, ◌≡◌, refl, true, false, arith, [], ◌∷◌, map}
use elastic_translations_mic.Gups.Defs.{
  shift_left, step, only, m2, combine, top_bit, jump, reduce, hpcc_starts, steps, period,
}
use elastic_translations_mic.Gups.Jump.{hpcc_starts-steps}

-- 64 steps from 1 give 7.
low_bits : map (hpcc_starts 64) (0 ∷ 1 ∷ 2 ∷ 3 ∷ 63 ∷ []) ≡ true ∷ true ∷ true ∷ false ∷ false ∷ []
unfolding shift_left step m2 combine top_bit jump reduce hpcc_starts
low_bits = refl

hpcc_starts-steps_example :
    (hpcc_starts (2 ^ 60) ≡ steps (reduce 7 (2 ^ 60)) (only 0))
    × (reduce 7 (2 ^ 60) ≤ period)
    × (reduce 7 (2 ^ 60) % period ≡ 2 ^ 60 % period)
hpcc_starts-steps_example = hpcc_starts-steps (2 ^ 60) (omega arith)
