-- ===== src/Pcc/Hawkeye/Defs.antt =====
-- src/pcc/hawkeye.h. A step gives `none` where the code reads or writes outside an array or a vector.
use elastic_translations_mic.Prelude.{
  ℕ, zero, suc, ◌+◌, ◌-◌, ◌*◌, ◌/◌, ◌%◌, ◌^◌, Bool, true, false, not, ℤ, pos, negsuc, Option, none,
  some, List, [], ◌∷◌, ◌++◌, map, ltb, ◌==◌, if◌then◌else◌, ◌>>=◌, update, remove, length,
  get_elem?,
}
use elastic_translations_mic.Pcc.Doubles.{Doubles}
use elastic_translations_mic.Pcc.Cache.Defs.{page_size, huge_page_size}
use elastic_translations_mic.Pcc.Reuse.State.{word, factor, access_interval}

-- NUM_BUCKETS, BUCKET_SIZE, NUM_BASE_PAGES, MAX_NUM_PROMOTIONS.
abbrev pub num_buckets : ℕ
num_buckets = 10

abbrev pub bucket_size : ℕ
bucket_size = 50

abbrev pub num_base_pages : ℕ
num_base_pages = 512

abbrev pub max_num_promotions : ℕ
max_num_promotions = 8

-- bitset<NUM_BASE_PAGES>: the bits below 512.
abbrev pub Bitset : Type 0
Bitset = ℕ → Bool

abbrev pub no_bits : Bitset
no_bits = λ i. false

-- bitset::count, over the first `n` bits.
unfoldable pub count_bits : ℕ → Bitset → ℕ
count_bits zero bits = 0
count_bits (suc n) bits = (if bits n then 1 else 0) + count_bits n bits

-- coverage[base] = bits, over the map's pairs in the order in which their keys came in.
unfoldable pub put_bits : List (ℕ × Bitset) → ℕ → Bitset → List (ℕ × Bitset)
put_bits [] base bits = (base, bits) ∷ []
put_bits ((b, old) ∷ rest) base bits =
    let rest' = put_bits rest base bits in if b == base then (b, bits) ∷ rest else (b, old) ∷ rest'

unfoldable pub find_bits : List (ℕ × Bitset) → ℕ → Option Bitset
find_bits [] base = none
find_bits ((b, bits) ∷ rest) base =
    let o = find_bits rest base in if b == base then some bits else o

unfoldable pub bits_or_none : Option Bitset → Bitset
bits_or_none none = no_bits
bits_or_none (some bits) = bits

-- The count of a promoted region, an unsigned short: 0 at first, one more at each repetition.
unfoldable pub promoted_again : Option ℕ → ℕ
promoted_again none = 0
promoted_again (some n) = (n + 1) % 2 ^ 16

unfoldable pub is_promoted_before : Option ℕ → Bool
is_promoted_before none = false
is_promoted_before (some n) = true

-- The end of the promotion loop: it returned, it read past the end of a bucket, or the fuel ran out.
pub data Outcome {ℓ} (A : Type ℓ) : Type ℓ where
  returned : A → Outcome A
  faulted : Outcome A
  unfinished : Outcome A

unfoldable pub result_of {ℓ} : {A : Type ℓ} → Outcome A → Option A
result_of (returned a) = some a
result_of faulted = none
result_of unfinished = none

-- The new bucket as an index of the array.
unfoldable pub clamp : ℤ → ℕ
clamp (pos n) = if ltb (num_buckets - 1) n then num_buckets - 1 else n
clamp (negsuc n) = 0

-- `buckets`, an array of ten vectors.
unfoldable pub change_bucket : (ℕ → List ℕ) → ℕ → ℤ → ℤ → Option (ℕ → List ℕ)
change_bucket buckets base (pos old) new =
    let removed = update buckets old (remove base (buckets old)) in
    let i = clamp new in
    if ltb old num_buckets then some (update removed i (removed i ++ base ∷ [])) else none
change_bucket buckets base (negsuc n) new = none

-- The inner loop: the next place at or after index `idx` of bucket `i`, if there is one.
unfoldable pub next_place : (ℕ → List ℕ) → ℕ → ℕ → Option (ℕ × ℕ)
next_place buckets zero idx = if ltb idx (length (buckets 0)) then some (0, idx) else none
next_place buckets (suc i) idx =
    let rest = next_place buckets i 0 in
    if ltb idx (length (buckets (suc i))) then some (suc i, idx) else rest

-- The number of regions in the buckets below `n`.
unfoldable pub regions : (ℕ → List ℕ) → ℕ → ℕ
regions buckets zero = 0
regions buckets (suc n) = length (buckets n) + regions buckets n

module _ (d : Doubles) where
  open d use {Double, of_nat, alpha, add, sub, mul, div, to_int}

  -- The globals.
  pub record Hawkeye : Type 0 where
    pub tracking : Bool
    pub coverage : List (ℕ × Bitset)
    pub ema : ℕ → Option Double
    pub buckets : ℕ → List ℕ
    pub hawkeye_promotions : ℕ → Option ℕ
    pub curr_num_accesses : ℕ
    pub total_num_accesses : ℕ

  unfoldable pub hawkeye_start : Hawkeye
  hawkeye_start = record {
    tracking = true;
    coverage = [];
    ema = λ base. none;
    buckets = λ i. [];
    hawkeye_promotions = λ base. none;
    curr_num_accesses = 0;
    total_num_accesses = 0;
  }

  unfoldable pub clear_coverage : Hawkeye → Hawkeye
  clear_coverage h = record h { coverage = map (λ p. (p.0, no_bits)) h.coverage }

  -- ema[base], which stores 0 under a missing key.
  unfoldable pub ema_or_zero : Option Double → Double
  ema_or_zero none = of_nat 0
  ema_or_zero (some e) = e

  -- (int) (e / BUCKET_SIZE).
  unfoldable pub bucket_of : Double → ℤ
  bucket_of e = to_int (div e (of_nat bucket_size))

  unfoldable pub new_ema : Option Double → ℕ → Double
  new_ema none acc_cov = of_nat acc_cov
  new_ema (some e) acc_cov = add (mul alpha e) (mul (sub (of_nat 1) alpha) (of_nat acc_cov))

  -- The body of the loop over the coverage.
  unfoldable pub rebucket : Hawkeye → ℕ → Bitset → Option Hawkeye
  rebucket h base bits = do
    let acc_ema = new_ema (h.ema base) (count_bits num_base_pages bits)
    buckets' ←
        change_bucket h.buckets base (bucket_of (ema_or_zero (h.ema base))) (bucket_of acc_ema)
    some (record h { ema = update h.ema base (some acc_ema); buckets = buckets' })

  unfoldable pub rebucket_all : Hawkeye → List (ℕ × Bitset) → Option Hawkeye
  rebucket_all h [] = some h
  rebucket_all h ((base, bits) ∷ rest) = do h' ← rebucket h base bits; rebucket_all h' rest

  -- The promotion of one region, and whether it was promoted before. The printed ema[base] stores 0
  -- under a missing key.
  unfoldable pub repeats : Hawkeye → ℕ → Bool
  repeats h base = is_promoted_before (h.hawkeye_promotions base)

  unfoldable pub promote_region : Hawkeye → ℕ → Hawkeye
  promote_region h base = record h {
    ema = update h.ema base (some (ema_or_zero (h.ema base)));
    hawkeye_promotions =
        update h.hawkeye_promotions base (some (promoted_again (h.hawkeye_promotions base)));
  }

  -- The promotion loop from index `idx` of bucket `i`.
  unfoldable pub promote_loop : ℕ → Hawkeye → ℕ → ℕ → ℕ → Outcome Hawkeye
  promote_loop zero h i idx num_promotions = unfinished
  promote_loop (suc fuel) h i idx num_promotions = elim (get_elem? (h.buckets i) idx) [
    | none ↦ faulted
    | some base ↦
        let h' = promote_region h base in
        let num' = if repeats h base then num_promotions else suc num_promotions in
        elim (next_place h.buckets i (suc idx)) [
          | none ↦ returned h'
          | some (i', idx') ↦
              let rest = promote_loop fuel h' i' idx' num' in
              if ltb num' max_num_promotions then rest else returned h'
        ]
  ]

  -- `order` gives the pairs in the order in which the map is gone through.
  module _ (order : List (ℕ × Bitset) → List (ℕ × Bitset)) where
    unfoldable pub summarize : Hawkeye → Option Hawkeye
    summarize h = do
      h' ← rebucket_all h (order h.coverage)
      result_of (promote_loop (suc (regions h'.buckets num_buckets)) h' (num_buckets - 1) 0 0)

    -- coverage[base].set(offset), after bitset(0) is stored under a missing key.
    unfoldable pub cover : Hawkeye → ℕ → Hawkeye
    cover h vaddr =
        let page = vaddr / page_size in
        let base = vaddr / huge_page_size in
        let offset = page - base * (huge_page_size / page_size) in
        record h {
          coverage =
              put_bits h.coverage base
                (update (bits_or_none (find_bits h.coverage base)) offset true);
        }

    unfoldable pub hawkeye_track_access : Hawkeye → ℕ → Option Hawkeye
    hawkeye_track_access h vaddr =
        let curr = word (h.curr_num_accesses + 1) in
        let h1 = record h {
          curr_num_accesses = curr;
          total_num_accesses = word (h.total_num_accesses + 1);
        } in
        if not h.tracking
        then (if curr % (factor * access_interval) == 0
            then some (record h1 { tracking = true; curr_num_accesses = 0 })
            else some h1)
        else if curr % access_interval == 0
        then (do
          h2 ← summarize (cover h1 vaddr)
          some (record (clear_coverage h2) { tracking = false; curr_num_accesses = 0 }))
        else some (cover h1 vaddr)
