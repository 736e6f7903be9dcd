-- ===== src/Pcc/Reuse/Defs.antt =====
-- The tracker of src/pcc/huge_page_reuse.h. A step gives `none` where one of the caches faults.
use elastic_translations_mic.Prelude.{
  ℕ, zero, suc, ◌+◌, ◌-◌, ◌*◌, ◌/◌, ◌%◌, ◌^◌, Bool, true, false, not, ◌&&◌, ◌||◌, Option, none,
  some, List, [], ◌∷◌, ltb, ◌==◌, if◌then◌else◌, ◌>>=◌, update,
}
use elastic_translations_mic.Pcc.Doubles.{Doubles}
use elastic_translations_mic.Pcc.Cache.Defs.{
  FunctionalCache, page_size, huge_page_size, new_cache, access, insert, evict, get_freq,
  get_entries, print,
}
use elastic_translations_mic.Pcc.Reuse.State.{
  factor, access_interval, promotion_cache_size, l1_tlb_4k_entries, l1_tlb_2m_entries,
  l2_tlb_entries, l1_assoc, l2_assoc, lfu_policy, word, no_tag, Slot, no_slot, written, Entry,
  no_entry, Tracker, is_some, entry_of, set_entry, is_promoted,
}

module _ (d : Doubles) (log2 : ℕ → ℕ) where
  open d use {Double, of_nat, alpha, add, sub, mul, div, pow, sqrt, eq}

  unfoldable pub promotion_cache_init : Tracker d
  promotion_cache_init = record {
    total_num_accesses = 0;
    num_2mb_ptw = 0;
    reuse_map = λ base. none;
    pcc_promotions = λ base. none;
    l1_tlb_4k = new_cache log2 (l1_tlb_4k_entries * page_size) l1_assoc page_size 0;
    l1_tlb_2m = new_cache log2 (l1_tlb_2m_entries * huge_page_size) l1_assoc huge_page_size 0;
    l2_tlb = new_cache log2 (l2_tlb_entries * page_size) l2_assoc page_size 0;
    promotion_cache =
        new_cache log2 (promotion_cache_size * page_size) promotion_cache_size page_size lfu_policy;
    l1_4k = no_slot;
    l1_2m = no_slot;
    l2 = no_slot;
    evicted_addr = 0;
  }

  -- res = c->access(addr, true, is_2m); if (res) c->evict(addr, &dirty, is_2m).
  unfoldable pub drop_line : FunctionalCache → Slot → ℕ → Bool → Option (FunctionalCache × Slot)
  drop_line c s addr is_2m = do
    (c1, res) ← access log2 c addr true is_2m
    if res
        then (do
          (c2, dirty) ← evict log2 c1 addr is_2m
          some (c2, record s { dirty_evict = dirty }))
        else some (c1, s)

  -- c->insert(addr, true, &dirty, &tag, &offset, is_2m).
  unfoldable pub fill : FunctionalCache → Slot → ℕ → Bool → Option (FunctionalCache × Slot)
  fill c s addr is_2m = do (c', o) ← insert log2 c addr true is_2m; some (c', written s o)

  -- The loop over the base pages of a promoted region: the pages i, ..., i + n - 1.
  unfoldable pub drop_pages : Tracker d → ℕ → ℕ → ℕ → Option (Tracker d)
  drop_pages t base i zero = some t
  drop_pages t base i (suc n) = do
    let addr = word (base * huge_page_size + i * page_size)
    (c, s) ← drop_line t.l1_tlb_4k t.l1_4k addr false
    (c', s') ← drop_line t.l2_tlb t.l2 addr false
    drop_pages (record t { l1_tlb_4k = c; l1_4k = s; l2_tlb = c'; l2 = s' }) base (suc i) n

  -- The branch that promotes a region.
  unfoldable pub promote : Tracker d → ℕ → Option (Tracker d)
  promote t base =
      drop_pages
        (record t {
          pcc_promotions = update t.pcc_promotions base (some 0);
          reuse_map = update t.reuse_map base none;
        })
        base 0 (huge_page_size / page_size)

  -- The branch that demotes it; `i` is the place in the list of the promotion cache.
  unfoldable pub demote : Tracker d → ℕ → ℕ → Option (Tracker d)
  demote t base i = do
    let addr = word (base * huge_page_size + i * page_size)
    (c, s) ← drop_line t.l1_tlb_2m t.l1_2m addr true
    (c', s') ← drop_line t.l2_tlb t.l2 addr true
    some (record t {
      pcc_promotions = update t.pcc_promotions base none;
      l1_tlb_2m = c;
      l1_2m = s;
      l2_tlb = c';
      l2 = s';
    })

  -- The choice between the two.
  unfoldable pub judge : Tracker d → ℕ → ℕ → ℕ → Option (Tracker d)
  judge t base i cache_freq =
      if not (is_promoted d t base) && ltb 0 cache_freq
      then promote t base
      else if is_promoted d t base
      then demote t base i
      else some t

  -- The loop of summarize_promotions over the addresses from the i-th on.
  unfoldable pub summarize_loop : Tracker d → ℕ → List ℕ → Option (Tracker d)
  summarize_loop t i [] = some t
  summarize_loop t i (base ∷ bases) = do
    let t1 = set_entry d t base (entry_of d t base)
    cache_freq ← get_freq log2 t1.promotion_cache (word (base * page_size)) false
    t2 ← judge t1 base i cache_freq
    (c, dirty) ← evict log2 t2.promotion_cache (word (base * page_size)) false
    let t3 = record t2 { promotion_cache = c; l1_2m = record (t2.l1_2m) { dirty_evict = dirty } }
    summarize_loop t3 (suc i) bases

  unfoldable pub summarize_promotions : Tracker d → Option (Tracker d)
  summarize_promotions t = do bases ← get_entries t.promotion_cache; summarize_loop t 0 bases

  -- The count of the access, and the summary when it is due.
  unfoldable pub count_access : Tracker d → Option (Tracker d)
  count_access t =
      let n = word (t.total_num_accesses + 1) in
      let t' = record t { total_num_accesses = n } in
      if ltb 1 factor && (n % (factor * access_interval) == access_interval)
      then summarize_promotions t'
      else if n % (factor * access_interval) == 0
      then summarize_promotions t'
      else some t'

  -- The three returns of the TLB part, and its end.
  unfoldable pub fill_l1_4k : Tracker d → ℕ → Option (Tracker d)
  fill_l1_4k t vaddr = do
    (c, s) ← fill t.l1_tlb_4k t.l1_4k vaddr false
    some (record t { l1_tlb_4k = c; l1_4k = s })

  unfoldable pub fill_l1_2m : Tracker d → ℕ → Option (Tracker d)
  fill_l1_2m t vaddr = do
    (c, s) ← fill t.l1_tlb_2m t.l1_2m vaddr false
    some (record t { l1_tlb_2m = c; l1_2m = s })

  -- A miss in all TLBs: the line is filled in the second level and in one of the first, and then
  -- in the 4K one.
  unfoldable pub walk : Tracker d → ℕ → Option (Tracker d)
  walk t vaddr = do
    let is_2m = is_promoted d t (vaddr / huge_page_size)
    (c, s) ← fill t.l2_tlb t.l2 vaddr is_2m
    let t1 = record t { l2_tlb = c; l2 = s }
    t2 ← (if is_2m then fill_l1_2m t1 vaddr else fill_l1_4k t1 vaddr)
    fill_l1_4k t2 vaddr

  -- A miss in the first level.
  unfoldable pub look_up_l2 : Tracker d → ℕ → Option (Tracker d × Bool)
  look_up_l2 t vaddr = do
    (c, hit) ← access log2 t.l2_tlb vaddr true false
    let t1 = record t { l2_tlb = c }
    if hit then (do t2 ← fill_l1_4k t1 vaddr; some (t2, false)) else (do
      (c', hit') ← access log2 t1.l2_tlb vaddr true true
      let t2 = record t1 { l2_tlb = c' }
      if hit'
          then (do t3 ← fill_l1_2m t2 vaddr; some (t3, false))
          else (do t3 ← walk t2 vaddr; some (t3, true)))

  -- The TLB hierarchy. The Boolean says that the access goes on to the reuse tracking.
  unfoldable pub look_up_tlbs : Tracker d → ℕ → Option (Tracker d × Bool)
  look_up_tlbs t vaddr = do
    (c, l1_4k_hit) ← access log2 t.l1_tlb_4k vaddr true false
    (c', l1_2m_hit) ← access log2 t.l1_tlb_2m vaddr true false
    let t' = record t { l1_tlb_4k = c; l1_tlb_2m = c' }
    if l1_4k_hit || l1_2m_hit then some (t', false) else look_up_l2 t' vaddr

  -- if (l1_4k_evicted_tag != -1): the region's record is lost.
  unfoldable pub forget_evicted : Tracker d → Tracker d
  forget_evicted t =
      let addr = word (t.l1_4k.evicted_tag * page_size + t.l1_4k.evicted_offset) / page_size in
      if t.l1_4k.evicted_tag == no_tag
      then t
      else record (set_entry d t addr (no_entry d)) { evicted_addr = addr }

  -- The access to the promotion cache, and the insertion on a miss.
  unfoldable pub promotion_access : Tracker d → ℕ → Option (Tracker d)
  promotion_access t base = do
    let is_2m = is_promoted d t base
    let addr = word (base * page_size)
    (c, res) ← access log2 t.promotion_cache addr true is_2m
    let t1 = record t { promotion_cache = c }
    if res then some t1 else (do
      let walked = is_2m && not ((entry_of d t1 base).last_access == 0)
      (c', s) ← fill t1.promotion_cache t1.l1_4k addr is_2m
      some (
          forget_evicted (record t1 {
            num_2mb_ptw = if walked then word (t1.num_2mb_ptw + 1) else t1.num_2mb_ptw;
            promotion_cache = c';
            l1_4k = s;
          })))

  -- The new record of a region that was accessed before.
  unfoldable pub reused : ℕ → Entry d → Entry d
  reused now e =
      let reuse_dist = of_nat (word (now + 2 ^ 64 - e.last_access)) in
      let ema' =
        if eq e.ema (of_nat 0)
        then reuse_dist
        else add (mul e.ema alpha) (mul reuse_dist (sub (of_nat 1) alpha)) in
      record {
        last_access = now;
        sum_sq = add e.sum_sq (pow (sub ema' reuse_dist) (of_nat 2));
        count = word (e.count + 1);
        ema = ema';
      }

  -- TRACK_REUSE.
  unfoldable pub track_reuse : Tracker d → ℕ → Tracker d
  track_reuse t base =
      let e = entry_of d t base in
      if e.last_access == 0
      then set_entry d t base (record e { last_access = t.total_num_accesses })
      else set_entry d t base (reused t.total_num_accesses e)

  -- The rest of an access that missed all TLBs.
  unfoldable pub track : Tracker d → ℕ → Option (Tracker d)
  track t base =
      if is_some d (t.reuse_map base)
      then (do t' ← promotion_access t base; some (track_reuse t' base))
      else some (set_entry d t base (no_entry d))

  unfoldable pub pcc_track_access : Tracker d → ℕ → Option (Tracker d)
  pcc_track_access t vaddr = do
    t1 ← count_access t
    (t2, missed) ← look_up_tlbs t1 vaddr
    if missed then track t2 (vaddr / huge_page_size) else some t2

  -- The lines that summarize_reuse prints, for the bases in the order of the map.
  unfoldable pub summary_lines : Tracker d → List ℕ → List (ℕ × Double × ℕ × Double)
  summary_lines t [] = []
  summary_lines t (base ∷ bases) =
      let e = entry_of d t base in
      let rest = summary_lines t bases in
      if not (is_some d (t.reuse_map base)) || eq e.ema (of_nat 0)
      then rest
      else (base, e.ema, e.count, sqrt (div e.sum_sq (of_nat e.count))) ∷ rest

  -- The tracker, and what is printed of the promotion cache. What is printed of the records,
  -- `summary_lines`, reads them only.
  unfoldable pub summarize_reuse : Tracker d → Option (Tracker d × List (List ℕ))
  summarize_reuse t = do
    t' ← if ltb t.total_num_accesses access_interval then summarize_promotions t else some t
    printed ← print t'.promotion_cache
    some (t', printed)
