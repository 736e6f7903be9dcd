-- ===== src/Pcc/Hawkeye/Sound.antt =====
-- The globals of src/pcc/hawkeye.h over one access: what stays true, and where the code faults.
use elastic_translations_mic.Prelude.{
  Bool-cases, Option, eq_of_==, ◌+◌, ◌*◌, ◌%◌, ◌<◌, ◌≤◌, if◌then◌else◌, ℕ, suc, ◌≡◌, refl, true,
  false, inl, inr, ◌⊎◌, none, some, subst, List, ◌==◌, arith,
}
use elastic_translations_mic.Pcc.Doubles.{Doubles}
use elastic_translations_mic.Pcc.Reuse.State.{word, factor, access_interval}
use elastic_translations_mic.Pcc.Hawkeye.Defs.{
  Hawkeye, Bitset, cover, clear_coverage, hawkeye_track_access, hawkeye_start,
}
use elastic_translations_mic.Pcc.Hawkeye.Buckets.{tally, IsPlaced}
use elastic_translations_mic.Pcc.Hawkeye.Phases.{IsPhased, counted}
use elastic_translations_mic.Pcc.Hawkeye.Rebucket.{bases_of, rebucketed, promoted}
use elastic_translations_mic.Pcc.Hawkeye.Faults.{
  bases_of_cleared, IsOrder, Faults, cover-keys, summarize-Sums,
}

module _ (d : Doubles) where
  -- The regions are placed, the count is below the length of its phase, and the coverage has a
  -- region once.
  pub record IsSound (h : Hawkeye d) : Type 0 where
    pub placed : IsPlaced d h
    pub phased : IsPhased d h
    pub keys : (b : ℕ) → tally b (bases_of h.coverage) ≤ 1

  pub start-IsSound : IsSound (hawkeye_start d)
  unfolding hawkeye_start
  start-IsSound = record { placed = λ i b. refl; phased = omega arith; keys = λ b. omega arith }

  module _ (order : List (ℕ × Bitset) → List (ℕ × Bitset)) where
    -- A step that leaves a sound state with one more access counted.
    abbrev pub Steps : Hawkeye d → Option (Hawkeye d) → Type 0
    Steps h r =
        (h' : Hawkeye d) × (r ≡ some h')
        × IsSound h'
        × (h'.total_num_accesses ≡ word (h.total_num_accesses + 1))

    -- The access is the last of an interval, and its summary faults.
    abbrev pub FaultsAt : Hawkeye d → ℕ → Type 0
    FaultsAt h vaddr =
        (h.tracking ≡ true)
        × (suc h.curr_num_accesses ≡ access_interval)
        × Faults d order (cover d order (counted d order h vaddr) vaddr)

    pause-Steps :
        (h : Hawkeye d) (vaddr : ℕ)
        → IsSound h
        → h.tracking ≡ false
        → Steps h (hawkeye_track_access d order h vaddr)
    unfolding hawkeye_track_access
    pause-Steps h vaddr w off =
        let below : h.curr_num_accesses < factor * access_interval =
          subst
            (λ b. h.curr_num_accesses < (if b then access_interval else factor * access_interval))
            off w.phased in
        elim (Bool-cases (word (h.curr_num_accesses + 1) % (factor * access_interval) == 0)) [
          | inl e ↦ (
            record (counted d order h vaddr) { tracking = true; curr_num_accesses = 0 },
            rw (off, e) refl,
            record { placed = w.placed; phased = omega arith; keys = w.keys },
            refl,
          )
          | inr e ↦ (
            counted d order h vaddr,
            rw (off, e) refl,
            record { placed = w.placed; phased = rw off (ground (arith, e, below)); keys = w.keys },
            refl,
          )
        ]

    cover-Steps :
        (h : Hawkeye d) (vaddr : ℕ)
        → IsSound h
        → h.tracking ≡ true
        → (suc h.curr_num_accesses == access_interval) ≡ false
        → Steps h (hawkeye_track_access d order h vaddr)
    unfolding hawkeye_track_access cover
    cover-Steps h vaddr w on more =
        let below : h.curr_num_accesses < access_interval =
          subst
            (λ b. h.curr_num_accesses < (if b then access_interval else factor * access_interval))
            on w.phased in
        let e : (word (h.curr_num_accesses + 1) % access_interval == 0) ≡ false =
          ground (arith, below, more) in
        (
          cover d order (counted d order h vaddr) vaddr,
          rw (on, e) refl,
          record {
            placed = w.placed;
            phased = rw on (ground (arith, below, more));
            keys = λ b. cover-keys d order (counted d order h vaddr) vaddr b (w.keys b);
          },
          refl,
        )

    summary-Steps :
        (h : Hawkeye d) (vaddr : ℕ)
        → IsOrder order
        → IsSound h
        → h.tracking ≡ true
        → suc h.curr_num_accesses ≡ access_interval
        → Steps h (hawkeye_track_access d order h vaddr)
          ⊎ (FaultsAt h vaddr × (hawkeye_track_access d order h vaddr ≡ none))
    unfolding hawkeye_track_access cover clear_coverage
    summary-Steps h vaddr o w on last =
        let h1 = cover d order (counted d order h vaddr) vaddr in
        let once : (b : ℕ) → tally b (bases_of h1.coverage) ≤ 1 =
          λ b. cover-keys d order (counted d order h vaddr) vaddr b (w.keys b) in
        let e : (word (h.curr_num_accesses + 1) % access_interval == 0) ≡ true =
          ground (arith, last) in
        elim (summarize-Sums d order h1 o w.placed once) [
          | inr (why, fault) ↦ inr ((on, last, why), rw (fault, on, e) refl)
          | inl (ema2, buckets2, promotions, run, w2) ↦
              let h2 = promoted d (rebucketed d h1 ema2 buckets2) ema2 promotions in
              inl (
                record (clear_coverage d h2) { tracking = false; curr_num_accesses = 0 },
                rw (run, on, e) refl,
                record {
                  placed = w2;
                  phased = omega arith;
                  keys = λ b. rw (bases_of_cleared h1.coverage) (once b);
                },
                refl,
              )
        ]

    -- Where a map is gone through with each key as often as the map has it, an access of a sound
    -- state gives a sound state that has counted it, or it is the last of an interval and faults,
    -- since a covered region has its old bucket outside the array or since the top bucket is empty
    -- once all covered regions are placed anew.
    pub hawkeye_track_access-IsSound :
        (h : Hawkeye d) (vaddr : ℕ)
        → IsOrder order
        → IsSound h
        → Steps h (hawkeye_track_access d order h vaddr)
          ⊎ (FaultsAt h vaddr × (hawkeye_track_access d order h vaddr ≡ none))
    hawkeye_track_access-IsSound h vaddr o w = elim (Bool-cases h.tracking) [
      | inr off ↦ inl (pause-Steps h vaddr w off)
      | inl on ↦ elim (Bool-cases (suc h.curr_num_accesses == access_interval)) [
        | inr more ↦ inl (cover-Steps h vaddr w on more)
        | inl e ↦
            summary-Steps h vaddr o w on (eq_of_== (suc h.curr_num_accesses) access_interval e)
      ]
    ]
