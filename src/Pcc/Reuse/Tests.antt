-- ===== src/Pcc/Reuse/Tests.antt =====
-- Runs of the tracker of src/pcc/huge_page_reuse.h, and the theorems at concrete inputs.
use elastic_translations_mic.Prelude.{
  ℕ, zero, suc, ◌+◌, ◌-◌, ◌*◌, ◌/◌, ◌^◌, ◌<◌, ◌≤◌, ◌≡◌, true, false, not, ◌&&◌, ◌||◌, Bool-cases,
  inl, inr, pos, some, none, ltb, ◌==◌, if◌then◌else◌, arith, List, [], ◌∷◌, mem, IsDistinct,
}
use elastic_translations_mic.Pcc.Doubles.{Doubles}
use elastic_translations_mic.Pcc.CacheSet.Held.{holds}
use elastic_translations_mic.Pcc.Cache.Defs.{page_size, huge_page_size}
use elastic_translations_mic.Pcc.Cache.Ready.{held}
use elastic_translations_mic.Pcc.Cache.Single.{IsSingle}
use elastic_translations_mic.Pcc.Reuse.State.{Tracker, word, access_interval, no_entry, is_promoted}
use elastic_translations_mic.Pcc.Reuse.Defs.{
  promotion_cache_init, summarize_promotions, promote, summarize_reuse,
}
use elastic_translations_mic.Pcc.Reuse.Steps.{IsTlbs}
use elastic_translations_mic.Pcc.Reuse.Judge.{promote_lets_go}
use elastic_translations_mic.Pcc.Reuse.Summary.{earns, summarize_promotions_empty}
use elastic_translations_mic.Pcc.Reuse.Track.{IsSound}
use elastic_translations_mic.Pcc.Reuse.Run.{Accesses, pcc_track_access-IsSound}
use elastic_translations_mic.Pcc.Reuse.Print.{summarize_reuse_prints}
use elastic_translations_mic.Pcc.Reuse.Init.{IsLog2, promotion_cache_init-IsSound}

-- The logarithm, by halving.
abbrev pub halvings : ℕ → ℕ → ℕ
halvings zero n = 0
halvings (suc fuel) n = if ltb n 2 then 0 else suc (halvings fuel (n / 2))

one_more : (n k : ℕ) → 2 ^ k ≤ n / 2 → n / 2 < 2 ^ suc k → (2 ^ suc k ≤ n) × (n < 2 ^ suc (suc k))
one_more n k l r = omega (arith, l, r)

halvings_lem :
    (fuel n : ℕ)
    → 0 < n
    → n < 2 ^ fuel
    → (2 ^ halvings fuel n ≤ n) × (n < 2 ^ suc (halvings fuel n))
halvings_lem zero n p h = omega (arith, p, h)
halvings_lem (suc fuel) n p h = elim (Bool-cases (ltb n 2)) [
  | inl e ↦ rw e (ground (arith, e, p))
  | inr e ↦
      let (l, r) = halvings_lem fuel (n / 2) (ground (arith, e)) (omega (arith, h)) in
      rw e (one_more n (halvings fuel (n / 2)) l r)
]

abbrev pub log2 : ℕ → ℕ
log2 = halvings 64

pub log2-IsLog2 : IsLog2 log2
log2-IsLog2 n p h = halvings_lem 64 n p h

-- Whole numbers in the place of the machine's.
abbrev pub whole : Doubles
whole = record {
  Double = ℕ;
  of_nat = λ n. n;
  alpha = 2;
  add = λ x y. x + y;
  sub = λ x y. x - y;
  mul = λ x y. x * y;
  div = λ x y. x / y;
  pow = λ x y. x ^ y;
  sqrt = λ x. x;
  eq = λ x y. x == y;
  to_int = λ x. pos x;
}

abbrev tracker_at_start : Tracker whole
tracker_at_start = promotion_cache_init whole log2

tracker_at_start-IsSound : IsSound whole log2 tracker_at_start
tracker_at_start-IsSound = promotion_cache_init-IsSound log2 log2-IsLog2 whole

pcc_track_access-IsSound_example : Accesses whole log2 tracker_at_start 0x200000
pcc_track_access-IsSound_example =
    pcc_track_access-IsSound whole log2 tracker_at_start 0x200000 tracker_at_start-IsSound

-- The promotion cache after two accesses to pages of one region.
one_access : Accesses whole log2 tracker_at_start 0x200000
one_access = pcc_track_access-IsSound whole log2 tracker_at_start 0x200000 tracker_at_start-IsSound

two_accesses : Accesses whole log2 one_access.0 0x201000
two_accesses = pcc_track_access-IsSound whole log2 one_access.0 0x201000 one_access.3

abbrev tracked : Tracker whole
tracked = two_accesses.0

tracked-IsSound : IsSound whole log2 tracked
tracked-IsSound = two_accesses.3

summarize_promotions_empty_example :
    (t' : Tracker whole) × (summarize_promotions whole log2 tracked ≡ some t')
    × (t'.total_num_accesses ≡ tracked.total_num_accesses)
    × IsTlbs whole log2 t'
    × (s' : IsSingle log2 t'.promotion_cache) × ((b : ℕ) → holds s'.only b ≡ false)
    × ((b : ℕ)
        → is_promoted whole t' b ≡ (
            if holds (tracked-IsSound.single).only b
            then not (is_promoted whole tracked b) && earns whole log2 tracked.promotion_cache b
            else is_promoted whole tracked b))
summarize_promotions_empty_example =
    summarize_promotions_empty whole log2 tracked tracked-IsSound.tlbs tracked-IsSound.single

promote_lets_go_example :
    (t' : Tracker whole) × (promote whole log2 tracked 1 ≡ some t')
    × (is_promoted whole t' 1 ≡ true)
    × (t'.reuse_map 1 ≡ none)
    × ((j : ℕ)
        → j < 512
        → (held log2 t'.l1_tlb_4k false (word (1 * huge_page_size + j * page_size)) ≡ false)
          × (held log2 t'.l2_tlb false (word (1 * huge_page_size + j * page_size)) ≡ false))
promote_lets_go_example = promote_lets_go whole log2 tracked 1 tracked-IsSound.tlbs

-- Regions 1 and 5 have records, and an eviction of the 4K TLB left the tag 5.
abbrev known : Tracker whole
known = record tracker_at_start {
  reuse_map = λ b. if b == 1 || b == 5 then some (no_entry whole) else none;
  l1_4k = record { dirty_evict = false; evicted_tag = 5; evicted_offset = 0 };
}

summarize_reuse_prints_example :
    (t' : Tracker whole) × (ts : List ℕ) × (summarize_reuse whole log2 tracked ≡ some (t', ts ∷ []))
    × (t'.total_num_accesses ≡ tracked.total_num_accesses)
    × IsSound whole log2 t'
    × IsDistinct ts
    × ((b : ℕ)
        → mem b ts ≡ (
            not (ltb tracked.total_num_accesses access_interval)
            && holds (tracked-IsSound.single).only b))
summarize_reuse_prints_example = summarize_reuse_prints whole log2 tracked tracked-IsSound
