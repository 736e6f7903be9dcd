-- ===== src/Pcc/Reuse/Run.antt =====
-- A whole access of src/pcc/huge_page_reuse.h: `pcc_track_access`.
use elastic_translations_mic.Prelude.{
  ℕ, ◌+◌, ◌*◌, ◌/◌, ◌%◌, ◌≡◌, refl, true, Bool-cases, inl, inr, Option, some, ◌==◌,
}
use elastic_translations_mic.Pcc.Doubles.{Doubles}
use elastic_translations_mic.Pcc.Cache.Defs.{huge_page_size}
use elastic_translations_mic.Pcc.Reuse.State.{Tracker, word, factor, access_interval}
use elastic_translations_mic.Pcc.Reuse.Defs.{summarize_promotions, count_access, pcc_track_access}
use elastic_translations_mic.Pcc.Reuse.Steps.{with_tlbs}
use elastic_translations_mic.Pcc.Reuse.Summary.{summarize_promotions_empty}
use elastic_translations_mic.Pcc.Reuse.Track.{IsSound, track-Tracks, with_rest}
use elastic_translations_mic.Pcc.Reuse.Lookup.{l1_hit, look_up_tlbs-LooksUp}

module _ (d : Doubles) (log2 : ℕ → ℕ) where
  -- A run that never faults and leaves `n` as the number of accesses.
  abbrev pub Counts : ℕ → Option (Tracker d) → Type 0
  Counts n r = (t' : Tracker d) × (r ≡ some t') × (t'.total_num_accesses ≡ n) × IsSound d log2 t'

  counted : Tracker d → Tracker d
  counted t = record t { total_num_accesses = word (t.total_num_accesses + 1) }

  pub summary-Counts :
      (t : Tracker d)
      → IsSound d log2 t
      → Counts t.total_num_accesses (summarize_promotions d log2 t)
  summary-Counts t w =
      let (t', run, n, tlbs, single, gone, promoted) =
        summarize_promotions_empty d log2 t w.tlbs w.single in
      (t', run, n, record { tlbs = tlbs; single = single })

  count_access-Counts :
      (t : Tracker d)
      → IsSound d log2 t
      → Counts (word (t.total_num_accesses + 1)) (count_access d log2 t)
  unfolding count_access counted
  count_access-Counts t w =
      let n = word (t.total_num_accesses + 1) in
      let w' : IsSound d log2 (counted t) = record { tlbs = w.tlbs; single = w.single } in
      elim (Bool-cases (n % (factor * access_interval) == access_interval)) [
        | inl h ↦ rw h (summary-Counts (counted t) w')
        | inr h ↦ elim (Bool-cases (n % (factor * access_interval) == 0)) [
          | inl k ↦ rw (h, k) (summary-Counts (counted t) w')
          | inr k ↦ rw (h, k) (counted t, refl, refl, w')
        ]
      ]

  -- What an access is to leave.
  abbrev pub Accesses : Tracker d → ℕ → Type 0
  Accesses t vaddr =
      (t' : Tracker d) × (pcc_track_access d log2 t vaddr ≡ some t')
      × (t'.total_num_accesses ≡ word (t.total_num_accesses + 1))
      × IsSound d log2 t'
      × (l1_hit d log2 t'.l1_tlb_4k t'.l1_tlb_2m vaddr ≡ true)

  -- An access of a tracker with sound caches never faults, counts itself, keeps the caches sound,
  -- and leaves the address as a hit of the first level.
  pub pcc_track_access-IsSound : (t : Tracker d) (vaddr : ℕ) → IsSound d log2 t → Accesses t vaddr
  unfolding pcc_track_access
  pcc_track_access-IsSound t vaddr w =
      let (t1, run, n, w1) = count_access-Counts t w in
      let (c1, s1, c2, s2, c3, s3, missed, run', w2, hit) =
        look_up_tlbs-LooksUp d log2 t1 vaddr w1.tlbs in
      let t2 = with_tlbs d log2 t1 c1 s1 c2 s2 c3 s3 in
      elim (Bool-cases missed) [
        | inl h ↦
            let (p, m, c, s, a, run'', w3) =
              track-Tracks d log2 t2 (vaddr / huge_page_size) w1.single in
            (
              with_rest d log2 t2 p m c s a,
              rw (run, run', h) run'',
              n,
              record { tlbs = w2; single = w3 },
              hit,
            )
        | inr h ↦ (t2, rw (run, run', h) refl, n, record { tlbs = w2; single = w1.single }, hit)
      ]
