-- ===== src/Pcc/Reuse/Init.antt =====
-- `promotion_cache_init` of src/pcc/huge_page_reuse.h: the caches that the tracker starts with.
use elastic_translations_mic.Prelude.{
  ℕ, zero, suc, ◌*◌, ◌/◌, ◌^◌, ◌≤◌, ◌<◌, ◌≡◌, refl, ap, true, false, Bool, inl, inr, some, arith,
  length, get_elem?, subst,
}
use elastic_translations_mic.Prelude.Bits.{pow_pos}
use elastic_translations_mic.Pcc.Doubles.{Doubles}
use elastic_translations_mic.Pcc.CacheSet.Defs.{CacheSet, new_set}
use elastic_translations_mic.Pcc.CacheSet.Relink.{IsUsed}
use elastic_translations_mic.Pcc.CacheSet.Ready as SetReady
use elastic_translations_mic.Pcc.Cache.Defs.{
  new_cache, new_sets, log_pofs, page_size, huge_page_size,
}
use elastic_translations_mic.Pcc.Cache.Fields.{Fits}
use elastic_translations_mic.Pcc.Cache.Ready.{IsReady}
use elastic_translations_mic.Pcc.Cache.Single.{IsSingle, tag_bound}
use elastic_translations_mic.Pcc.Reuse.State.{
  promotion_cache_size, l1_tlb_4k_entries, l1_tlb_2m_entries, l2_tlb_entries, l1_assoc, l2_assoc,
  lfu_policy,
}
use elastic_translations_mic.Pcc.Reuse.Defs.{promotion_cache_init}
use elastic_translations_mic.Pcc.Reuse.Track.{IsSound}

-- The integer logarithm of a positive 64-bit integer.
abbrev pub IsLog2 : (ℕ → ℕ) → Type 0
IsLog2 log2 = (n : ℕ) → 0 < n → n < 2 ^ 64 → (2 ^ log2 n ≤ n) × (n < 2 ^ suc (log2 n))

pow_mono : (a b : ℕ) → a ≤ b → 2 ^ a ≤ 2 ^ b
pow_mono zero b h = omega (arith, pow_pos b)
pow_mono (suc a) zero h = elim h [ ]
pow_mono (suc a) (suc b) h = omega (arith, pow_mono a b (omega (arith, h)))

length-new_sets : (n assoc policy : ℕ) → length (new_sets n assoc policy) ≡ n
unfolding new_sets
length-new_sets zero assoc policy = refl
length-new_sets (suc n) assoc policy = omega (arith, length-new_sets n assoc policy)

new_sets-IsReady :
    (n assoc policy : ℕ)
    → 0 < assoc
    → IsUsed policy
    → (i : ℕ) (c : CacheSet) → get_elem? (new_sets n assoc policy) i ≡ some c
    → SetReady.IsReady c
unfolding new_sets
new_sets-IsReady zero assoc policy h u i c e = ground (arith, e)
new_sets-IsReady (suc n) assoc policy h u zero c e =
    subst (λ x. SetReady.IsReady x) (cc e) (SetReady.new_set-IsReady assoc policy h u)
new_sets-IsReady (suc n) assoc policy h u (suc i) c e = new_sets-IsReady n assoc policy h u i c e

module _ (log2 : ℕ → ℕ) (l : IsLog2 log2) where
  pub log2_known : (k n : ℕ) → 2 ^ k ≤ n → n < 2 ^ suc k → k ≤ 32 → log2 n ≡ k
  log2_known k n h h' small = omega (arith, below, above)
    where
      bounded : n < 2 ^ 64
      bounded = omega (arith, h', pow_mono (suc k) 64 (omega (arith, small)))

      positive : 0 < n
      positive = omega (arith, h, pow_mono 0 k (omega arith))

      below : log2 n ≤ k
      below = ground (arith, pow_mono (suc k) (log2 n), (l n positive bounded).0, h')

      above : k ≤ log2 n
      above = ground (arith, pow_mono (suc (log2 n)) k, (l n positive bounded).1, h)

  -- A cache that `new_cache` makes with `k` bits for the set and lines of `2 ^ p` bytes.
  module _ (size assoc line_size policy k p : ℕ) where
    abbrev pub HasShape : Type 0
    HasShape =
        (0 < assoc)
        × (0 < p)
        × (p ≤ 21)
        × (k ≤ 32)
        × (2 ^ p ≤ line_size)
        × (line_size < 2 ^ suc p)
        × (2 ^ k ≤ size / line_size / assoc)
        × (size / line_size / assoc < 2 ^ suc k)

    pub new_cache-IsReady :
        HasShape → IsUsed policy → IsReady log2 (new_cache log2 size assoc line_size policy)
    unfolding new_cache log_pofs
    new_cache-IsReady (h, p0, p21, k32, line, line', sets, sets') u =
        let log_sets = log2_known k (size / line_size / assoc) sets sets' k32 in
        let log_line = log2_known p line_size line line' (omega (arith, p21)) in
        record {
          fits = λ is_2m. fields is_2m log_sets log_line;
          room = omega (
            arith,
            length-new_sets (size / line_size / assoc) assoc policy,
            sets,
            ap (λ x. 2 ^ x) log_sets,
          );
          sets_ready = λ i c e. new_sets-IsReady (size / line_size / assoc) assoc policy h u i c e;
        }
      where
        huge : log2 huge_page_size ≡ 21
        huge = log2_known 21 huge_page_size (omega arith) (omega arith) (omega arith)

        fields :
            (is_2m : Bool)
            → log2 (size / line_size / assoc) ≡ k
            → log2 line_size ≡ p
            → Fits log2 (new_cache log2 size assoc line_size policy) is_2m
        fields true e e' = omega (arith, huge, e, k32)
        fields false e e' = omega (arith, e, e', p0, p21, k32)

  module _ (d : Doubles) where
    -- The constructor's call of `new FunctionalCache` for the promotion cache: a single set.
    promotion_cache-IsSingle : IsSingle log2 (promotion_cache_init d log2).promotion_cache
    unfolding promotion_cache_init new_cache new_sets
    promotion_cache-IsSingle = record {
      only = new_set promotion_cache_size lfu_policy;
      one = refl;
      single = refl;
      log_zero = log2_known 0 1 (omega arith) (omega arith) (omega arith);
      page = log2_known 12 page_size (omega arith) (omega arith) (omega arith);
      huge = log2_known 21 huge_page_size (omega arith) (omega arith) (omega arith);
      ready = SetReady.new_set-IsReady promotion_cache_size lfu_policy (omega arith) (inr refl);
      covered =
          SetReady.new_set-IsCovered tag_bound promotion_cache_size lfu_policy (omega arith)
            (inr refl);
    }

    -- The initial caches are sound.
    pub promotion_cache_init-IsSound : IsSound d log2 (promotion_cache_init d log2)
    unfolding promotion_cache_init
    promotion_cache_init-IsSound = record {
      tlbs = record {
        l1_4k_ready =
            new_cache-IsReady (l1_tlb_4k_entries * page_size) l1_assoc page_size 0 4 12
              (omega arith) (inl refl);
        l1_2m_ready =
            new_cache-IsReady (l1_tlb_2m_entries * huge_page_size) l1_assoc huge_page_size 0 3 21
              (omega arith) (inl refl);
        l2_ready =
            new_cache-IsReady (l2_tlb_entries * page_size) l2_assoc page_size 0 7 12 (omega arith)
              (inl refl);
      };
      single = promotion_cache-IsSingle;
    }
