-- ===== src/Pcc/Cache/Single.antt =====
-- A cache of src/pcc/tlb.h of one set with lines of a base page, as the promotion cache is.
use mathlib.Core.List.{append-nil}
use elastic_translations_mic.Prelude.{
  ℕ, ◌*◌, ◌/◌, ◌%◌, ◌^◌, ◌≤◌, ◌<◌, ◌≡◌, refl, ◌∙◌, ap, true, false, Bool, Option, none, some, List,
  [], ◌∷◌, ◌+◌, arith, ◌==◌, if◌then◌else◌, get_elem?, set, subst,
}
use elastic_translations_mic.Pcc.CacheSet.Defs.{CacheSet, Evicted}
use elastic_translations_mic.Pcc.CacheSet.Ready as SetReady
use elastic_translations_mic.Pcc.CacheSet.Evict.{print-get_set}
use elastic_translations_mic.Pcc.CacheSet.Covered.{IsListing, get_set-IsListing, get_freq-held}
use elastic_translations_mic.Pcc.CacheSet.Held.{holds}
use elastic_translations_mic.Pcc.Cache.Defs.{
  FunctionalCache, Output, page_size, huge_page_size, setid_of, tag_of, offset_of, log_pofs, access,
  insert, evict, output, get_freq, get_entries, print, print_sets, entries_of,
}
use elastic_translations_mic.Pcc.Cache.Fields.{Fits, setid-lt, tag_lem}

-- The bound of the tags.
abbrev pub tag_bound : ℕ
tag_bound = 2 ^ 52

-- The tag that `insert` reports.
abbrev pub tag_is : Option (ℕ × ℕ) → ℕ → Bool
tag_is none t = false
tag_is (some (tag, offset)) t = t == tag

module _ (log2 : ℕ → ℕ) where
  -- One set, pages of 2 ^ 12 bytes, and no tag twice.
  pub record IsSingle (f : FunctionalCache) : Type 0 where
    pub only : CacheSet
    pub one : f.sets ≡ only ∷ []
    pub single : f.set_count ≡ 1
    pub log_zero : f.log_set_count ≡ 0
    pub page : f.log_line_size ≡ 12
    pub huge : log2 huge_page_size ≡ 21
    pub ready : SetReady.IsReady only
    pub covered : SetReady.IsCovered tag_bound only ready

  module _ {f : FunctionalCache} (s : IsSingle f) where
    pofs : (is_2m : Bool) → (12 ≤ log_pofs log2 f is_2m) × (log_pofs log2 f is_2m ≤ 21)
    unfolding log_pofs
    pofs true = omega (arith, s.huge)
    pofs false = omega (arith, s.page)

    fits : (is_2m : Bool) → Fits log2 f is_2m
    fits is_2m = omega (arith, pofs is_2m, s.log_zero)

    setid_zero : (is_2m : Bool) (a : ℕ) → setid_of log2 f is_2m a ≡ 0
    setid_zero is_2m a = omega (
      arith,
      subst (λ k. setid_of log2 f is_2m a < 2 ^ k) s.log_zero
          (setid-lt log2 f is_2m (fits is_2m) a),
    )

    huge_tag : (a : ℕ) → a < 2 ^ 64 → tag_of log2 f true a ≡ a / 2 ^ 21
    unfolding log_pofs
    huge_tag a h = tag_lem log2 f true (fits true) a h ∙ rw (s.log_zero, s.huge) refl

    page_tag : (a : ℕ) → a < 2 ^ 64 → tag_of log2 f false a ≡ a / 2 ^ 12
    unfolding log_pofs
    page_tag a h = tag_lem log2 f false (fits false) a h ∙ rw (s.log_zero, s.page) refl

    tag_small : (is_2m : Bool) (a : ℕ) → a < 2 ^ 64 → tag_of log2 f is_2m a < tag_bound
    tag_small true a h = omega (arith, huge_tag a h)
    tag_small false a h = omega (arith, page_tag a h)

    tag_of_page : (t : ℕ) → t < tag_bound → tag_of log2 f false ((t * page_size) % 2 ^ 64) ≡ t
    tag_of_page t h = page_tag _ (omega arith) ∙ omega (arith, h)

    with_set :
        (c : CacheSet) (r : SetReady.IsReady c)
        → SetReady.IsCovered tag_bound c r
        → (is_2m : Bool) (a : ℕ)
        → IsSingle (record f { sets = set f.sets (setid_of log2 f is_2m a) c })
    with_set c r cov is_2m a = record {
      only = c;
      one = rw (setid_zero is_2m a, s.one) refl;
      single = s.single;
      log_zero = s.log_zero;
      page = s.page;
      huge = s.huge;
      ready = r;
      covered = cov;
    }

    there : (is_2m : Bool) (a : ℕ) → get_elem? f.sets (setid_of log2 f is_2m a) ≡ some s.only
    there is_2m a = rw (setid_zero is_2m a, s.one) refl

    -- `access` never faults and answers whether the tag is held.
    pub access-IsSingle :
        (a : ℕ) (is_load is_2m : Bool)
        → (f' : FunctionalCache) × (access log2 f a is_load is_2m
            ≡ some (f', holds s.only (tag_of log2 f is_2m a)))
          × (s' : IsSingle f') × ((t : ℕ) → holds s'.only t ≡ holds s.only t)
          × ((is_2m' : Bool) (b : ℕ) → tag_of log2 f' is_2m' b ≡ tag_of log2 f is_2m' b)
    unfolding access tag_of log_pofs with_set
    access-IsSingle a is_load is_2m =
        let (c', run, (r', cov), same) =
          SetReady.access-IsReady s.ready (tag_of log2 f is_2m a) (offset_of log2 f is_2m a)
            is_load in
        (
          _,
          rw (there is_2m a, run) refl,
          with_set c' r' (cov tag_bound s.covered) is_2m a,
          same,
          λ is_2m' b. refl,
        )

    -- What is reported was held.
    abbrev pub WasHeld : Option (ℕ × ℕ) → Type 0
    WasHeld none = Unit {0}
    WasHeld (some (tag, offset)) = (holds s.only tag ≡ true) × (tag < tag_bound)

    -- The tag is held in place of the one that is reported, which was held.
    abbrev pub Replaces : (f' : FunctionalCache) → IsSingle f' → ℕ → Option (ℕ × ℕ) → Type 0
    Replaces f' s' tag o =
        WasHeld o
        × ((t : ℕ)
            → holds s'.only t
              ≡ (if t == tag then true else if tag_is o t then false else holds s.only t))

    same_tag :
        (tag setid : ℕ) → setid ≡ 0 → tag < tag_bound → (tag * f.set_count + setid) % 2 ^ 64 ≡ tag
    same_tag tag setid z h = rw (z, s.single) (omega (arith, h))

    report-Replaces :
        (setid tag : ℕ) (c' : CacheSet) (e : Option Evicted) (f' : FunctionalCache)
        (s' : IsSingle f')
        → setid ≡ 0
        → s'.only ≡ c'
        → SetReady.IsReported s.only s.ready e
        → SetReady.Swaps s.only tag e c'
        → Replaces f' s' tag (output f setid e).evicted
    unfolding output
    report-Replaces setid tag c' none f' s' z q rep swaps =
        (tt, λ t. ap (λ k. holds k t) q ∙ swaps t)
    report-Replaces setid tag c' (some v) f' s' z q rep swaps =
        let (there_v, small) = rep tag_bound s.covered in
        let same : (v.addr * f.set_count + setid) % 2 ^ 64 ≡ v.addr =
          same_tag v.addr setid z small in
        rw same ((there_v, small), λ t. ap (λ k. holds k t) q ∙ swaps t)

    -- `insert` of an address whose tag is not held never faults.
    pub insert-IsSingle :
        (a : ℕ) (is_load is_2m : Bool)
        → a < 2 ^ 64
        → holds s.only (tag_of log2 f is_2m a) ≡ false
        → (f' : FunctionalCache) × (o : Output) × (insert log2 f a is_load is_2m ≡ some (f', o))
          × (s' : IsSingle f') × Replaces f' s' (tag_of log2 f is_2m a) o.evicted
    unfolding insert with_set
    insert-IsSingle a is_load is_2m h out =
        let (c', x, run, r', cov, swaps, reported) =
          SetReady.insert-IsReady s.ready (tag_of log2 f is_2m a) (offset_of log2 f is_2m a)
            is_load in
        (
          _,
          output f (setid_of log2 f is_2m a) x,
          rw (there is_2m a, run) refl,
          with_set c' r' (cov tag_bound out (tag_small is_2m a h) s.covered) is_2m a,
          report-Replaces (setid_of log2 f is_2m a) (tag_of log2 f is_2m a) c' x _
              (with_set c' r' (cov tag_bound out (tag_small is_2m a h) s.covered) is_2m a)
              (setid_zero is_2m a) refl reported swaps,
        )

    -- `get_freq` and `evict` of a page whose number is held as a tag.
    module _ (t : ℕ) (small : t < tag_bound) (there_t : holds s.only t ≡ true) where
      pub get_freq-IsSingle : (n : ℕ) × (get_freq log2 f ((t * page_size) % 2 ^ 64) false ≡ some n)
      unfolding get_freq
      get_freq-IsSingle =
          let (n, e) = get_freq-held s.ready t there_t in
          (n, rw (there false ((t * page_size) % 2 ^ 64), tag_of_page t small) e)

      pub evict-IsSingle :
          (f' : FunctionalCache) × (dirty : Bool) × (evict log2 f ((t * page_size) % 2 ^ 64) false
            ≡ some (f', dirty))
          × (s' : IsSingle f') × ((b : ℕ)
              → holds s'.only b ≡ (if b == t then false else holds s.only b))
          × ((b : ℕ)
              → b < tag_bound
              → (b == t) ≡ false
              → get_freq log2 f' ((b * page_size) % 2 ^ 64) false
                ≡ get_freq log2 f ((b * page_size) % 2 ^ 64) false)
      unfolding evict get_freq with_set tag_of setid_of log_pofs
      evict-IsSingle =
          let (c', d, run, (r', cov), gone, freqs) = SetReady.evict-IsReady s.ready t there_t in
          (
            _,
            d,
            rw (there false ((t * page_size) % 2 ^ 64), tag_of_page t small, run) refl,
            with_set c' r' (cov tag_bound s.covered) false ((t * page_size) % 2 ^ 64),
            gone,
            λ b h ne.
                rw
                  (
                    setid_zero false ((b * page_size) % 2 ^ 64),
                    setid_zero false ((t * page_size) % 2 ^ 64),
                    s.one,
                    tag_of_page b h,
                  )
                  (freqs b ne),
          )

    -- `get_entries` lists tags that are held, each once.
    pub get_entries-IsSingle :
        (ts : List ℕ) × (get_entries f ≡ some ts) × IsListing s.only tag_bound ts
    unfolding get_entries entries_of
    get_entries-IsSingle =
        let (ts, l) = get_set-IsListing s.ready tag_bound s.covered in
        (ts, rw (s.one, entries_of, l.listed) (ap some (append-nil ts)), l)

    -- `print` prints the tags that are held, each once.
    pub print-IsSingle : (ts : List ℕ) × (print f ≡ some (ts ∷ [])) × IsListing s.only tag_bound ts
    unfolding print print_sets
    print-IsSingle =
        let (ts, l) = get_set-IsListing s.ready tag_bound s.covered in
        (ts, rw (s.one, print_sets, print-get_set s.only, l.listed) refl, l)
