-- ===== src/Pcc/Cache/Tests.antt =====
-- Runs of a cache with the parameters of the simulated TLBs, and the theorems at concrete inputs.
use elastic_translations_mic.Prelude.{
  ℕ, zero, suc, ◌+◌, ◌*◌, ◌/◌, ◌%◌, ◌^◌, ◌≡◌, refl, Bool, true, false, Option, some, arith, ltb,
  if◌then◌else◌, ◌>>=◌, ◌==◌, ◌&&◌,
}
use elastic_translations_mic.Pcc.CacheSet.Tests.{program}
use elastic_translations_mic.Pcc.Cache.Defs.{
  FunctionalCache, new_sets, shift_one, extract, new_cache, log_pofs, offset_of, setid_of, tag_of,
  access, insert, evict, get_freq, output, flush_sets, flush, entries_of, get_entries, page_size,
}
use elastic_translations_mic.Pcc.Cache.Fields.{extract_lem, extract_top, fields-address}

cache_program : Unit {0}
unfolding program new_sets shift_one extract new_cache log_pofs offset_of setid_of tag_of access
    insert evict get_freq output flush_sets flush entries_of get_entries
cache_program = tt

-- The logarithm, by halving.
abbrev halvings : ℕ → ℕ → ℕ
halvings zero n = 0
halvings (suc fuel) n = if ltb n 2 then 0 else suc (halvings fuel (n / 2))

abbrev log2 : ℕ → ℕ
log2 = halvings 64

-- `l1_tlb_4k`: 16 sets of 4 lines of 4096 bytes, LRU.
abbrev l1_tlb_4k : FunctionalCache
l1_tlb_4k = new_cache log2 (64 * page_size) 4 page_size 0

-- An insertion, a hit on the same page, and a miss on the next page of the same set.
abbrev answers : Option (Bool × Bool × Bool)
answers = do
  (f, o) ← insert log2 l1_tlb_4k 0x12345678 true false
  (g, hit) ← access log2 f 0x12345fff true false
  (h, miss) ← access log2 g 0x12355678 true false
  some (o.dirty_evict, hit, miss)

insert_access : answers ≡ some (false, true, false)
unfolding cache_program
insert_access = refl

-- The fifth page of a set throws out the first; what is reported is its number.
fifth_page :
    (do
      (f, o) ← insert log2 l1_tlb_4k 0x10000 true false
      (f, o) ← insert log2 f 0x20000 true false
      (f, o) ← insert log2 f 0x30000 false false
      (f, o) ← insert log2 f 0x40000 true false
      (f, o) ← insert log2 f 0x50123 true false
      some o.evicted)
    ≡ some (some (0x10, 0))
unfolding cache_program
fifth_page = refl

extract_lem_example :
    extract 63 60 0x9000000012345678
    ≡ (if 60 == 0 && 4 == 64 then 0 else 0x9000000012345678 / 2 ^ 60 % 2 ^ 4)
extract_lem_example = extract_lem 60 4 0x9000000012345678 (omega arith) (omega arith) (omega arith)

extract_top_example : extract 63 16 0x12345678 ≡ 0x12345678 / 2 ^ 16
extract_top_example = extract_top 16 0x12345678 (omega arith) (omega arith) (omega arith)

fields-address_example :
    (tag_of log2 l1_tlb_4k false 0x12345678 * 2 ^ l1_tlb_4k.log_set_count
          + setid_of log2 l1_tlb_4k false 0x12345678)
        * 2 ^ log_pofs log2 l1_tlb_4k false
      + offset_of log2 l1_tlb_4k false 0x12345678
    ≡ 0x12345678
unfolding new_cache log_pofs
fields-address_example =
    fields-address log2 l1_tlb_4k false (omega arith, omega arith) 0x12345678 (omega arith)
