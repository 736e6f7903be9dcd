-- ===== src/Pcc/Cache/Defs.antt =====
-- src/pcc/tlb.h, `FunctionalCache`: a set-associative cache. `sets` is the vector, and `none` also
-- stands for the exception of `sets.at`. `log2` is the C library's function on a positive integer,
-- truncated as the assignments to `int` do.
use Prim.Native.Nat.{bit_and}
use elastic_translations_mic.Prelude.{
  ℕ, zero, suc, ◌+◌, ◌-◌, ◌*◌, ◌/◌, ◌%◌, ◌^◌, Bool, false, Option, none, some, List, [], ◌∷◌, ◌++◌,
  if◌then◌else◌, ◌>>=◌, get_elem?, set,
}
use elastic_translations_mic.Pcc.CacheSet.Defs.{CacheSet, Evicted, new_set}
use elastic_translations_mic.Pcc.CacheSet.Defs as CacheSet

abbrev pub page_size : ℕ
page_size = 4096

abbrev pub huge_page_size : ℕ
huge_page_size = 2097152

pub record FunctionalCache : Type 0 where
  pub line_count : ℕ
  pub set_count : ℕ
  pub log_set_count : ℕ
  pub cache_line_size : ℕ
  pub log_line_size : ℕ
  pub sets : List CacheSet

-- for (i = 0; i < n; i++) sets.push_back(new CacheSet(...)).
unfoldable pub new_sets : ℕ → ℕ → ℕ → List CacheSet
new_sets zero assoc policy = []
new_sets (suc n) assoc policy = new_set assoc policy ∷ new_sets n assoc policy

-- 1 << k on 64 bits. A count of 64 is undefined in C; the machines take it modulo 64.
unfoldable pub shift_one : ℕ → ℕ
shift_one k = 2 ^ (k % 64)

-- The bits `min`, ..., `max` of an address. Differences are modulo 2 ^ 64.
unfoldable pub extract : ℕ → ℕ → ℕ → ℕ
extract max min address =
    let maxmask = shift_one (max + 1) - 1 in
    let minmask = shift_one min - 1 in
    let mask = (maxmask + 2 ^ 64 - minmask) % 2 ^ 64 in bit_and address mask / 2 ^ (min % 64)

-- What the output parameters are set to: the dirty bit, and, if a line was thrown out, its tag with
-- the set's number as an address, and its offset.
pub record Output : Type 0 where
  pub dirty_evict : Bool
  pub evicted : Option (ℕ × ℕ)

-- if (evictedAddr && evictedTag != -1) *evictedAddr = evictedTag * set_count + setid.
unfoldable pub output : FunctionalCache → ℕ → Option Evicted → Output
output f setid none = record { dirty_evict = false; evicted = none }
output f setid (some e) = record {
  dirty_evict = e.dirty;
  evicted = some ((e.addr * f.set_count + setid) % 2 ^ 64, e.offset);
}

-- The loop of `flush`, set by set.
unfoldable pub flush_sets : List CacheSet → Option (List CacheSet)
flush_sets [] = some []
flush_sets (c ∷ cs) = do c' ← CacheSet.flush c; cs' ← flush_sets cs; some (c' ∷ cs')

unfoldable pub flush : FunctionalCache → Option FunctionalCache
flush f = do cs ← flush_sets f.sets; some (record f { sets = cs })

-- The loop of `get_entries`.
unfoldable pub entries_of : List CacheSet → Option (List ℕ)
entries_of [] = some []
entries_of (c ∷ cs) = do as' ← CacheSet.get_set c; bs ← entries_of cs; some (as' ++ bs)

unfoldable pub get_entries : FunctionalCache → Option (List ℕ)
get_entries f = entries_of f.sets

-- The loop of `print`: what each set prints.
unfoldable pub print_sets : List CacheSet → Option (List (List ℕ))
print_sets [] = some []
print_sets (c ∷ cs) = do printed ← CacheSet.print c; rest ← print_sets cs; some (printed ∷ rest)

unfoldable pub print : FunctionalCache → Option (List (List ℕ))
print f = print_sets f.sets

module _ (log2 : ℕ → ℕ) where
  unfoldable pub new_cache : ℕ → ℕ → ℕ → ℕ → FunctionalCache
  new_cache size assoc line_size eviction_policy =
      let line_count = size / line_size in
      let set_count = line_count / assoc in
      record {
        line_count = line_count;
        set_count = set_count;
        log_set_count = log2 set_count;
        cache_line_size = line_size;
        log_line_size = log2 line_size;
        sets = new_sets set_count assoc eviction_policy;
      }

  unfoldable pub log_pofs : FunctionalCache → Bool → ℕ
  log_pofs f is_2m = if is_2m then log2 huge_page_size else f.log_line_size

  -- The three fields of an address. A line has at least two bytes, so `- 1` stays in ℕ.
  unfoldable pub offset_of : FunctionalCache → Bool → ℕ → ℕ
  offset_of f is_2m address = extract (log_pofs f is_2m - 1) 0 address

  unfoldable pub setid_of : FunctionalCache → Bool → ℕ → ℕ
  setid_of f is_2m address =
      extract (f.log_set_count + log_pofs f is_2m - 1) (log_pofs f is_2m) address

  unfoldable pub tag_of : FunctionalCache → Bool → ℕ → ℕ
  tag_of f is_2m address = extract 63 (f.log_set_count + log_pofs f is_2m) address

  unfoldable pub access : FunctionalCache → ℕ → Bool → Bool → Option (FunctionalCache × Bool)
  access f address is_load is_2m = do
    let setid = setid_of f is_2m address
    c ← get_elem? f.sets setid
    (c', res) ← CacheSet.access c (tag_of f is_2m address) (offset_of f is_2m address) is_load
    some (record f { sets = set f.sets setid c' }, res)

  unfoldable pub insert : FunctionalCache → ℕ → Bool → Bool → Option (FunctionalCache × Output)
  insert f address is_load is_2m = do
    let setid = setid_of f is_2m address
    c ← get_elem? f.sets setid
    (c', e) ← CacheSet.insert c (tag_of f is_2m address) (offset_of f is_2m address) is_load
    some (record f { sets = set f.sets setid c' }, output f setid e)

  -- The cache, and the dirty bit.
  unfoldable pub evict : FunctionalCache → ℕ → Bool → Option (FunctionalCache × Bool)
  evict f address is_2m = do
    let setid = setid_of f is_2m address
    c ← get_elem? f.sets setid
    (c', dirty) ← CacheSet.evict c (tag_of f is_2m address)
    some (record f { sets = set f.sets setid c' }, dirty)

  unfoldable pub get_freq : FunctionalCache → ℕ → Bool → Option ℕ
  get_freq f address is_2m = do
    c ← get_elem? f.sets (setid_of f is_2m address)
    CacheSet.get_freq c (tag_of f is_2m address)
