-- ===== src/Pcc/Reuse/State.antt =====
-- The state of the tracker of src/pcc/huge_page_reuse.h.
use elastic_translations_mic.Prelude.{
  ℕ, ◌-◌, ◌%◌, ◌^◌, Bool, true, false, Option, none, some, update,
}
use elastic_translations_mic.Pcc.Doubles.{Doubles}
use elastic_translations_mic.Pcc.Cache.Defs.{FunctionalCache, Output}

-- FACTOR, ACCESS_INTERVAL and PROMOTION_CACHE_SIZE, which nothing changes.
abbrev pub factor : ℕ
factor = 30

abbrev pub access_interval : ℕ
access_interval = 100000

abbrev pub promotion_cache_size : ℕ
promotion_cache_size = 128

-- L1_TLB_4K_ENTRIES, L1_TLB_2M_ENTRIES, L2_TLB_ENTRIES, L1_ASSOC, L2_ASSOC, EVICTION_POLICY.
abbrev pub l1_tlb_4k_entries : ℕ
l1_tlb_4k_entries = 64

abbrev pub l1_tlb_2m_entries : ℕ
l1_tlb_2m_entries = 32

abbrev pub l2_tlb_entries : ℕ
l2_tlb_entries = 1024

abbrev pub l1_assoc : ℕ
l1_assoc = 4

abbrev pub l2_assoc : ℕ
l2_assoc = 6

abbrev pub lfu_policy : ℕ
lfu_policy = 2

-- 64-bit words, with -1 for the tag that says that nothing was evicted.
abbrev pub word : ℕ → ℕ
word n = n % 2 ^ 64

abbrev pub no_tag : ℕ
no_tag = 2 ^ 64 - 1

-- The output variables of one of the TLBs.
pub record Slot : Type 0 where
  pub dirty_evict : Bool
  pub evicted_tag : ℕ
  pub evicted_offset : ℕ

abbrev pub no_slot : Slot
no_slot = record { dirty_evict = false; evicted_tag = no_tag; evicted_offset = 0 }

-- What `insert` stores through its pointers.
unfoldable pub written : Slot → Output → Slot
written s o = elim o.evicted [
  | none ↦ record s { dirty_evict = o.dirty_evict }
  | some (tag, offset) ↦ record s {
    dirty_evict = o.dirty_evict;
    evicted_tag = tag;
    evicted_offset = offset;
  }
]

module _ (d : Doubles) where
  open d use {Double, of_nat, alpha, add, sub, mul, div, pow, sqrt, eq}

  -- The tuple of reuse_map.
  pub record Entry : Type 0 where
    pub last_access : ℕ
    pub sum_sq : Double
    pub count : ℕ
    pub ema : Double

  abbrev pub no_entry : Entry
  no_entry = record { last_access = 0; sum_sq = of_nat 0; count = 0; ema = of_nat 0 }

  -- The globals. A map gives `none` for a missing key.
  pub record Tracker : Type 0 where
    pub total_num_accesses : ℕ
    pub num_2mb_ptw : ℕ
    pub reuse_map : ℕ → Option Entry
    pub pcc_promotions : ℕ → Option ℕ
    pub l1_tlb_4k : FunctionalCache
    pub l1_tlb_2m : FunctionalCache
    pub l2_tlb : FunctionalCache
    pub promotion_cache : FunctionalCache
    pub l1_4k : Slot
    pub l1_2m : Slot
    pub l2 : Slot
    pub evicted_addr : ℕ

  abbrev pub is_some {ℓ} : {A : Type ℓ} → Option A → Bool
  is_some none = false
  is_some (some a) = true

  -- reuse_map[base], which stores zeros under a missing key.
  unfoldable pub entry_of : Tracker → ℕ → Entry
  entry_of t base = elim (t.reuse_map base) [ none ↦ no_entry | some e ↦ e ]

  unfoldable pub set_entry : Tracker → ℕ → Entry → Tracker
  set_entry t base e = record t { reuse_map = update t.reuse_map base (some e) }

  unfoldable pub is_promoted : Tracker → ℕ → Bool
  is_promoted t base = is_some (t.pcc_promotions base)
