-- ===== src/Pcc/CacheSet/Run.antt =====
-- A new set, and what a client of the LFU set can do with it, in any order and number.
use elastic_translations_mic.Prelude.{
  ℕ, zero, suc, ◌+◌, ◌<◌, ◌≡◌, refl, ◌∙◌, true, false, Bool, Option, some, List, [], ◌∷◌, arith,
  if◌then◌else◌, mem, IsDistinct, length, ◌>>=◌,
}
use elastic_translations_mic.Pcc.CacheSet.Defs.{
  CacheSet, Ptr, first_entry, all_entries, new_set, access, insert, evict,
}
use elastic_translations_mic.Pcc.CacheSet.Valid.{IsValid}
use elastic_translations_mic.Pcc.CacheSet.Lfu.{IsLfu}
use elastic_translations_mic.Pcc.CacheSet.Held.{holds}
use elastic_translations_mic.Pcc.CacheSet.Promotion.{
  access-IsLfu, insert_full-least, insert-free-IsLfu, evict-IsLfu,
}

length-all_entries : (n : ℕ) → length (all_entries n) ≡ n
unfolding all_entries
length-all_entries zero = refl
length-all_entries (suc n) = omega (arith, length-all_entries n)

mem-all_entries : (n a : ℕ) → mem a (all_entries n) ≡ true → (2 < a) × (a < first_entry + n)
unfolding all_entries
mem-all_entries zero a m = ground arith
mem-all_entries (suc n) a m = ground (arith, mem-all_entries n a)

all_entries-IsDistinct : (n : ℕ) → IsDistinct (all_entries n)
unfolding all_entries
all_entries-IsDistinct zero = tt
all_entries-IsDistinct (suc n) =
    (ground (arith, mem-all_entries n (first_entry + n)), all_entries-IsDistinct n)

-- The constructor gives a valid set with no line in its list.
pub new_set-IsValid : (n policy : ℕ) → IsValid (new_set n policy) []
unfolding new_set
new_set-IsValid n policy = record {
  chain = (refl, refl);
  distinct = tt;
  free_distinct = all_entries-IsDistinct n;
  apart = λ a m. ground arith;
  entries = λ a m. ground (arith, mem-all_entries n a);
  count = omega (arith, length-all_entries n);
  mapped = λ a c e ne. ground arith;
  tail_freq = refl;
}

pub new_set-IsLfu : (n : ℕ) → 0 < n → IsLfu (new_set n 2) []
unfolding new_set
new_set-IsLfu n h = record { valid = new_set-IsValid n 2; lfu = refl; positive = h; falls = tt }

-- What a client asks of a set. It evicts only an address that it found by an access, which is what
-- `summarize_promotions` does.
pub data Request : Type 0 where
  reads : ℕ → ℕ → Bool → Request
  inserts : ℕ → ℕ → Bool → Request
  drops : ℕ → Request

unfoldable pub step : CacheSet → Request → Option CacheSet
step s (reads a offset is_load) = do (s', hit) ← access s a offset is_load; some s'
step s (inserts a offset is_load) = do (s', e) ← insert s a offset is_load; some s'
step s (drops a) = do
  (s1, hit) ← access s a 0 true
  if hit then (do (s2, d) ← evict s1 a; some s2) else some s1

unfoldable pub run : CacheSet → List Request → Option CacheSet
run s [] = some s
run s (q ∷ qs) = do s' ← step s q; run s' qs

-- A run that ends well: no fault, and the invariant.
abbrev pub Ends : Option CacheSet → Type 0
Ends r = (s' : CacheSet) × (ys : List Ptr) × (r ≡ some s') × IsLfu s' ys

module _ {s : CacheSet} {xs : List Ptr} (l : IsLfu s xs) where
  inserts-Ends :
      (a offset : ℕ) (is_load : Bool) (free : List Ptr)
      → s.free_entries ≡ free
      → Ends (step s (inserts a offset is_load))
  unfolding step
  inserts-Ends a offset is_load [] e =
      let (c, s', ys, m, least, run, l', h) = insert_full-least l a offset is_load e in
      (s', ys, rw run refl, l')
  inserts-Ends a offset is_load (c ∷ free) e =
      let (s', ys, run, l', f, h) = insert-free-IsLfu l a offset is_load c free e in
      (s', ys, rw run refl, l')

  drops-Ends : (a : ℕ) (hit : Bool) → holds s a ≡ hit → Ends (step s (drops a))
  unfolding step
  drops-Ends a true e =
      let (s1, ys, run, l1, same) = access-IsLfu l a 0 true in
      let (s2, zs, d, run2, l2, h) = evict-IsLfu l1 a (same a ∙ e) in
      (s2, zs, rw (run, e, run2) refl, l2)
  drops-Ends a false e =
      let (s1, ys, run, l1, same) = access-IsLfu l a 0 true in (s1, ys, rw (run, e) refl, l1)

  pub step-Ends : (q : Request) → Ends (step s q)
  unfolding step
  step-Ends (reads a offset is_load) =
      let (s', ys, run, l', same) = access-IsLfu l a offset is_load in (s', ys, rw run refl, l')
  step-Ends (inserts a offset is_load) = inserts-Ends a offset is_load s.free_entries refl
  step-Ends (drops a) = drops-Ends a (holds s a) refl

run-Ends : (qs : List Request) {s : CacheSet} {xs : List Ptr} → IsLfu s xs → Ends (run s qs)
unfolding run
run-Ends [] {s} {xs} l = (s, xs, refl, l)
run-Ends (q ∷ qs) {s} {xs} l =
    let (s', ys, done, l') = step-Ends l q in
    let (t, zs, done', m) = run-Ends qs l' in (t, zs, rw (done, done') refl, m)

-- From a new LFU set with at least one entry, every sequence of reads, insertions and drops runs
-- without a fault (no failed assertion, no null dereference, no loop without end) and ends in a
-- valid set, sorted by frequency, with all counters below MAX_FREQ.
pub run-new_set : (n : ℕ) (qs : List Request) → 0 < n → Ends (run (new_set n 2) qs)
run-new_set n qs h = run-Ends qs (new_set-IsLfu n h)
