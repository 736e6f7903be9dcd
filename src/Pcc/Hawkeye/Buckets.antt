-- ===== src/Pcc/Hawkeye/Buckets.antt =====
-- The buckets of src/pcc/hawkeye.h: `change_bucket`, and the bucket of a region's average.
use elastic_translations_mic.Prelude.{
  ℕ, ◌+◌, ◌-◌, ◌≤◌, ◌≡◌, refl, ◌∙◌, ap, Bool, true, false, ℤ, pos, negsuc, Bool-cases, inl, inr,
  ◌⊎◌, Option, none, some, List, [], ◌∷◌, ◌++◌, ltb, ◌==◌, if◌then◌else◌, update, remove, arith,
  eq_of_==, ==-self,
}
use elastic_translations_mic.Pcc.Doubles.{Doubles}
use elastic_translations_mic.Pcc.Hawkeye.Defs.{
  Hawkeye, Bitset, num_buckets, clamp, change_bucket, bucket_of, ema_or_zero, new_ema, count_bits,
  num_base_pages, rebucket,
}

-- How often a region occurs in a list.
abbrev pub tally : ℕ → List ℕ → ℕ
tally b [] = 0
tally b (x ∷ xs) = (if b == x then 1 else 0) + tally b xs

tally-remove_self : (a : ℕ) (xs : List ℕ) → tally a (remove a xs) ≡ tally a xs - 1
tally-remove_self a [] = refl
tally-remove_self a (x ∷ xs) = ground (arith, tally-remove_self a xs)

tally-remove : (a b : ℕ) (xs : List ℕ) → (b == a) ≡ false → tally b (remove a xs) ≡ tally b xs
tally-remove a b [] h = refl
tally-remove a b (x ∷ xs) h = ground (arith, tally-remove a b xs h, eq_of_== a x, ==-self b)

tally-append :
    (a b : ℕ) (xs : List ℕ) → tally b (xs ++ a ∷ []) ≡ tally b xs + (if b == a then 1 else 0)
tally-append a b [] = ground arith
tally-append a b (x ∷ xs) = ground (arith, tally-append a b xs)

-- An index of the array.
unfoldable pub is_index : ℤ → Bool
is_index (pos n) = ltb n num_buckets
is_index (negsuc n) = false

-- The bucket of an average, as an index.
abbrev pub home : ℕ → Option ℤ → ℕ
home i none = 0
home i (some z) = if i == clamp z then 1 else 0

home_small : (i : ℕ) (was : Option ℤ) → home i was ≤ 1
home_small i none = omega arith
home_small i (some z) = ground arith

clamp_index : (o : ℕ) → is_index (pos o) ≡ true → clamp (pos o) ≡ o
unfolding clamp is_index
clamp_index o ix = ground (arith, ix)

-- Taking a region out of a bucket where it may be leaves it in no bucket, and the others as they are.
taken_out :
    (buckets : ℕ → List ℕ) (base o : ℕ) (was : Option ℤ)
    → is_index (pos o) ≡ true
    → (was ≡ none) ⊎ (was ≡ some (pos o))
    → ((i : ℕ) → tally base (buckets i) ≡ home i was)
    → (i : ℕ) → tally base (update buckets o (remove base (buckets o)) i) ≡ 0
taken_out buckets base o was ix w at i = elim (Bool-cases (i == o)) [
  | inl e ↦ rw e (tally-remove_self base (buckets o) ∙ omega (arith, at o, home_small o was))
  | inr e ↦ rw e (at i ∙ away w e)
]
  where
    away : (was ≡ none) ⊎ (was ≡ some (pos o)) → (i == o) ≡ false → home i was ≡ 0
    away (inl q) e = ap (home i) q
    away (inr q) e = ap (home i) q ∙ rw (clamp_index o ix, e) refl

others_stay :
    (buckets : ℕ → List ℕ) (base o i b : ℕ)
    → (b == base) ≡ false
    → tally b (update buckets o (remove base (buckets o)) i) ≡ tally b (buckets i)
others_stay buckets base o i b ne = elim (Bool-cases (i == o)) [
  | inl e ↦ rw (e, eq_of_== i o e) (tally-remove base b (buckets o) ne)
  | inr e ↦ rw e refl
]

-- Putting a region at the end of bucket `k`.
put_last :
    (buckets : ℕ → List ℕ) (base k i b : ℕ)
    → tally b (update buckets k (buckets k ++ base ∷ []) i)
      ≡ tally b (buckets i) + (if i == k then (if b == base then 1 else 0) else 0)
put_last buckets base k i b = elim (Bool-cases (i == k)) [
  | inl e ↦ rw (e, eq_of_== i k e) (tally-append base b (buckets k))
  | inr e ↦ rw e (omega arith)
]

-- The tallies of a region in the array after a change of its bucket.
tally-change_bucket :
    (buckets : ℕ → List ℕ) (base : ℕ) (old new : ℤ) (was : Option ℤ)
    → is_index old ≡ true
    → (was ≡ none) ⊎ (was ≡ some old)
    → ((i : ℕ) → tally base (buckets i) ≡ home i was)
    → (buckets' : ℕ → List ℕ) × (change_bucket buckets base old new ≡ some buckets')
      × ((i : ℕ) → tally base (buckets' i) ≡ home i (some new))
      × ((i b : ℕ) → (b == base) ≡ false → tally b (buckets' i) ≡ tally b (buckets i))
unfolding change_bucket is_index
tally-change_bucket buckets base (negsuc n) new was ix w at = ground (arith, ix)
tally-change_bucket buckets base (pos o) new was ix w at =
    let removed = update buckets o (remove base (buckets o)) in
    (
      update removed (clamp new) (removed (clamp new) ++ base ∷ []),
      rw ix refl,
      λ i.
          put_last removed base (clamp new) i base
          ∙ rw (taken_out buckets base o was ix w at i, ==-self base) (omega arith),
      λ i b ne.
          ground
            (arith, put_last removed base (clamp new) i b, others_stay buckets base o i b ne, ne),
    )

-- Outside the array, nothing is returned.
change_bucket_fault :
    (buckets : ℕ → List ℕ) (base : ℕ) (old new : ℤ)
    → is_index old ≡ false
    → change_bucket buckets base old new ≡ none
unfolding change_bucket is_index
change_bucket_fault buckets base (pos o) new ix = rw ix refl
change_bucket_fault buckets base (negsuc n) new ix = refl

module _ (d : Doubles) where
  -- The bucket of a region's average.
  abbrev pub bucket_of_ema : Option d.Double → Option ℤ
  bucket_of_ema none = none
  bucket_of_ema (some e) = some (bucket_of d e)

  -- Each region with an average is in the bucket of that average, once, and in no other bucket; a
  -- region without one is in no bucket.
  abbrev pub IsPlaced : Hawkeye d → Type 0
  IsPlaced h = (i b : ℕ) → tally b (h.buckets i) ≡ home i (bucket_of_ema (h.ema b))

  -- The bucket from which the region is taken is one of the array.
  unfoldable pub old_is_index : Hawkeye d → ℕ → Bool
  old_is_index h base = is_index (bucket_of d (ema_or_zero d (h.ema base)))

  old_bucket :
      (o : Option d.Double)
      → (bucket_of_ema o ≡ none) ⊎ (bucket_of_ema o ≡ some (bucket_of d (ema_or_zero d o)))
  unfolding ema_or_zero
  old_bucket none = inl refl
  old_bucket (some e) = inr refl

  -- Where all regions are placed and the old bucket of a region is one of the array, the body of
  -- the loop returns: the region is placed by its new average, and all regions are placed
  -- afterwards.
  pub rebucket-IsPlaced :
      (h : Hawkeye d) (base : ℕ) (bits : Bitset)
      → IsPlaced h
      → old_is_index h base ≡ true
      → (buckets' : ℕ → List ℕ) × (rebucket d h base bits
          ≡ some (record h {
            ema =
                update h.ema base (some (new_ema d (h.ema base) (count_bits num_base_pages bits)));
            buckets = buckets';
          }))
        × IsPlaced (record h {
          ema = update h.ema base (some (new_ema d (h.ema base) (count_bits num_base_pages bits)));
          buckets = buckets';
        })
  unfolding rebucket old_is_index
  rebucket-IsPlaced h base bits w ix =
      let new = new_ema d (h.ema base) (count_bits num_base_pages bits) in
      let (buckets', run, here, others) =
        tally-change_bucket h.buckets base (bucket_of d (ema_or_zero d (h.ema base)))
          (bucket_of d new) (bucket_of_ema (h.ema base)) ix (old_bucket (h.ema base))
          (λ i. w i base) in
      (
        buckets',
        rw run refl,
        λ i b. elim (Bool-cases (b == base)) [
          | inl e ↦ rw (e, eq_of_== b base e) (here i)
          | inr e ↦ rw e (others i b e ∙ w i b)
        ],
      )

  -- Where it is not, the body reads outside the array.
  pub rebucket_fault :
      (h : Hawkeye d) (base : ℕ) (bits : Bitset)
      → old_is_index h base ≡ false
      → rebucket d h base bits ≡ none
  unfolding rebucket old_is_index
  rebucket_fault h base bits ix =
      rw
        (change_bucket_fault h.buckets base _
          (bucket_of d (new_ema d (h.ema base) (count_bits num_base_pages bits))) ix)
        refl
