-- ===== src/Pcc/Main/Defs.antt =====
-- `main` of src/pcc/main.cpp. The trace is the list of the addresses that `trace >> hex >> addr` reads
-- before it fails; what is printed is left out.
use elastic_translations_mic.Prelude.{
  ℕ, Bool, true, false, Option, none, some, List, [], ◌∷◌, if◌then◌else◌, ◌>>=◌, ltb,
}
use elastic_translations_mic.Pcc.Doubles.{Doubles}
use elastic_translations_mic.Pcc.Reuse.State.{Tracker, access_interval}
use elastic_translations_mic.Pcc.Cache.Defs.{print}
use elastic_translations_mic.Pcc.Reuse.Defs.{
  promotion_cache_init, pcc_track_access, summarize_promotions,
}
use elastic_translations_mic.Pcc.Hawkeye.Defs.{Hawkeye, Bitset, hawkeye_start, hawkeye_track_access}

module _ (d : Doubles) (log2 : ℕ → ℕ) (order : List (ℕ × Bitset) → List (ℕ × Bitset)) where
  -- The globals of both trackers. `none` for the first: its four pointers are still null. A run uses
  -- one of the trackers, so each has a `total_num_accesses` of its own.
  pub record Globals : Type 0 where
    pub tracker : Option (Tracker d)
    pub hawkeye : Hawkeye d

  unfoldable pub globals_start : Bool → Globals
  globals_start pcc = record {
    tracker = if pcc then some (promotion_cache_init d log2) else none;
    hawkeye = hawkeye_start d;
  }

  -- pcc ? pcc_track_access(addr) : hawkeye_track_access(addr).
  unfoldable pub track_address : Bool → Globals → ℕ → Option Globals
  track_address true g addr = do
    t ← g.tracker
    t' ← pcc_track_access d log2 t addr
    some (record g { tracker = some t' })
  track_address false g addr = do
    h ← hawkeye_track_access d order g.hawkeye addr
    some (record g { hawkeye = h })

  unfoldable pub track_addresses : Bool → Globals → List ℕ → Option Globals
  track_addresses pcc g [] = some g
  track_addresses pcc g (addr ∷ trace) = do
    g' ← track_address pcc g addr
    track_addresses pcc g' trace

  -- The one `total_num_accesses` that the code has: that of the tracker in use.
  unfoldable pub accesses : Globals → ℕ
  accesses g = elim g.tracker [
    | none ↦ g.hawkeye.total_num_accesses
    | some t ↦ t.total_num_accesses
  ]

  -- summarize_promotions in summarize_reuse, which starts with promotion_cache->get_entries().
  unfoldable pub summarize_promotions_at : Globals → Option Globals
  summarize_promotions_at g = do
    t ← g.tracker
    t' ← summarize_promotions d log2 t
    some (record g { tracker = some t' })

  -- promotion_cache->print().
  unfoldable pub print_at : Globals → Option (List (List ℕ))
  print_at g = do t ← g.tracker; print t.promotion_cache

  -- The final summarize_reuse, where the pointers may be null: what it reads through them are the
  -- caches, in summarize_promotions and in print. The records of reuse are no pointers.
  unfoldable pub finish : Globals → Option Globals
  finish g = do
    g' ← if ltb (accesses g) access_interval then summarize_promotions_at g else some g
    printed ← print_at g'
    some g'

  unfoldable pub main : Bool → List ℕ → Option Globals
  main pcc trace = do g ← track_addresses pcc (globals_start pcc) trace; finish g
