-- ===== src/Pcc/Hawkeye/Tests.antt =====
-- Runs of src/pcc/hawkeye.h, and the theorems at concrete inputs.
use elastic_translations_mic.Prelude.{
  ℕ, ◌≡◌, refl, true, Option, some, none, List, [], ◌∷◌, ltb, ◌==◌, if◌then◌else◌, arith, ◌>>=◌,
  ◌⊎◌,
}
use elastic_translations_mic.Pcc.Reuse.Tests.{whole}
use elastic_translations_mic.Pcc.Hawkeye.Defs.{
  Hawkeye, Bitset, returned, hawkeye_start, put_bits, find_bits, bits_or_none, count_bits, clamp,
  change_bucket, next_place, bucket_of, ema_or_zero, new_ema, rebucket, rebucket_all, repeats,
  promoted_again, is_promoted_before, promote_region, promote_loop, regions, result_of, summarize,
  cover, clear_coverage, hawkeye_track_access,
}
use elastic_translations_mic.Pcc.Hawkeye.Buckets.{IsPlaced, is_index, old_is_index}
use elastic_translations_mic.Pcc.Hawkeye.Promote.{rest_of, queue_below, queue_from, promote_regions}
use elastic_translations_mic.Pcc.Hawkeye.Bound.{IsPromotion, promote_loop-IsPromotion}
use elastic_translations_mic.Pcc.Hawkeye.Sound.{
  IsSound, Steps, FaultsAt, hawkeye_track_access-IsSound,
}
use elastic_translations_mic.Pcc.Hawkeye.Faults.{IsOrder}

program : Unit {0}
unfolding put_bits find_bits bits_or_none count_bits clamp change_bucket next_place bucket_of
    ema_or_zero new_ema rebucket rebucket_all repeats promoted_again is_promoted_before
    promote_region promote_loop regions result_of summarize cover clear_coverage
    hawkeye_track_access hawkeye_start is_index old_is_index rest_of queue_below queue_from
    promote_regions
program = tt

abbrev pub as_stored : List (ℕ × Bitset) → List (ℕ × Bitset)
as_stored pairs = pairs

abbrev hawkeye_at_start : Hawkeye whole
hawkeye_at_start = hawkeye_start whole

-- All pages of a region, and its first hundred.
abbrev all_pages : Bitset
all_pages = λ i. true

abbrev hundred_pages : Bitset
hundred_pages = λ i. ltb i 100

-- Two covered regions: the one with all its pages gets the top bucket, the other bucket 2, and both
-- are promoted.
abbrev covered : Hawkeye whole
covered = record hawkeye_at_start { coverage = (7, hundred_pages) ∷ (5, all_pages) ∷ [] }

abbrev shown : Hawkeye whole → List ℕ × List ℕ × Option ℕ × Option ℕ
shown h = (h.buckets 9, h.buckets 2, h.hawkeye_promotions 5, h.hawkeye_promotions 7)

promotes_both :
    (do h ← summarize whole as_stored covered; some (shown h))
    ≡ some (5 ∷ [], 7 ∷ [], some 0, some 0)
unfolding program
promotes_both = refl

-- With the hundred pages alone the top bucket stays empty, and the loop reads past its end.
empty_top :
    summarize whole as_stored (record hawkeye_at_start { coverage = (7, hundred_pages) ∷ [] })
    ≡ none
unfolding program
empty_top = refl

-- The average of a region with all its pages, 512, stands for bucket 10: the next summary reads
-- outside the array.
past_buckets :
    (do h ← summarize whole as_stored covered; rebucket_all whole h (as_stored covered.coverage))
    ≡ none
unfolding program
past_buckets = refl

hawkeye_at_start-IsPlaced : IsPlaced whole hawkeye_at_start
unfolding program
hawkeye_at_start-IsPlaced i b = refl

-- Three regions in two buckets.
abbrev three : Hawkeye whole
three = record hawkeye_at_start {
  buckets = λ i. if i == 9 then 5 ∷ 6 ∷ [] else if i == 2 then 7 ∷ [] else [];
}

promote_loop-IsPromotion_example :
    (h' : Hawkeye whole) × (news : List ℕ) × (promote_loop whole 3 three 9 0 0 ≡ returned h')
    × IsPromotion whole three h' 0 (queue_from three.buckets 9 0) news
unfolding program
promote_loop-IsPromotion_example =
    promote_loop-IsPromotion whole 3 three 9 0 0 5 refl (omega arith) (omega arith)

-- The last access of an interval.
abbrev pub last_one : Hawkeye whole
last_one = record covered { curr_num_accesses = 99999; total_num_accesses = 99999 }

pub as_stored-IsOrder : IsOrder as_stored
as_stored-IsOrder pairs b = refl

pub last_one-IsSound : IsSound whole last_one
unfolding program
last_one-IsSound = record {
  placed = hawkeye_at_start-IsPlaced;
  phased = omega arith;
  keys = λ b. ground arith;
}

hawkeye_track_access-IsSound_example :
    Steps whole as_stored last_one (hawkeye_track_access whole as_stored last_one 0x200000)
    ⊎ (FaultsAt whole as_stored last_one 0x200000
        × (hawkeye_track_access whole as_stored last_one 0x200000 ≡ none))
hawkeye_track_access-IsSound_example =
    hawkeye_track_access-IsSound whole as_stored last_one 0x200000 as_stored-IsOrder
      last_one-IsSound
