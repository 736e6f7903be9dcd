-- ===== src/Pcc/Hawkeye/Faults.antt =====
-- `summarize` of src/pcc/hawkeye.h where the coverage has a region once: what it does, and why it faults.
use elastic_translations_mic.Prelude.{
  ltb, Bool-cases, Option, eq_of_==, ◌+◌, ◌*◌, ◌-◌, ◌/◌, ◌<◌, ◌≤◌, if◌then◌else◌, ℕ, ◌≡◌, refl, ◌∙◌,
  ap, true, false, inl, inr, ◌⊎◌, none, some, map, List, [], ◌∷◌, ◌==◌, update, mem, IsDistinct,
  arith, ==-self,
}
use elastic_translations_mic.Pcc.Doubles.{Doubles}
use elastic_translations_mic.Pcc.Cache.Defs.{page_size, huge_page_size}
use elastic_translations_mic.Pcc.Hawkeye.Defs.{
  Hawkeye, Bitset, no_bits, put_bits, find_bits, bits_or_none, cover, rebucket_all, summarize,
}
use elastic_translations_mic.Pcc.Hawkeye.Buckets.{tally, IsPlaced, old_is_index}
use elastic_translations_mic.Pcc.Hawkeye.Rebucket.{
  bases_of, rebucketed, promoted, rebucket_all_fault,
}
use elastic_translations_mic.Pcc.Hawkeye.Summary.{summarize_promotes}

mem_of_tally : (b : ℕ) (xs : List ℕ) → mem b xs ≡ ltb 0 (tally b xs)
mem_of_tally b [] = ground arith
mem_of_tally b (x ∷ xs) = ground (arith, mem_of_tally b xs)

tally-IsDistinct : (xs : List ℕ) → ((b : ℕ) → tally b xs ≤ 1) → IsDistinct xs
tally-IsDistinct [] once = tt
tally-IsDistinct (x ∷ xs) once = (
  mem_of_tally x xs ∙ ground (arith, once x, ==-self x),
  tally-IsDistinct xs (λ b. omega (arith, once b)),
)

tally-put_bits :
    (pairs : List (ℕ × Bitset)) (base : ℕ) (bits : Bitset) (b : ℕ)
    → tally b (bases_of (put_bits pairs base bits))
      ≡ tally b (bases_of pairs) + (if b == base then 1 - tally b (bases_of pairs) else 0)
unfolding put_bits
tally-put_bits [] base bits b = ground arith
tally-put_bits ((x, old) ∷ rest) base bits b = elim (Bool-cases (x == base)) [
  | inl e ↦ rw (e, eq_of_== x base e) (ground arith)
  | inr e ↦ rw e (ground (arith, tally-put_bits rest base bits b, e))
]

pub bases_of_cleared :
    (pairs : List (ℕ × Bitset)) → bases_of (map (λ p. (p.0, no_bits)) pairs) ≡ bases_of pairs
bases_of_cleared [] = refl
bases_of_cleared ((x, bits) ∷ rest) = ap (λ bs. x ∷ bs) (bases_of_cleared rest)

-- An order of going through a map: each key as often as the map has it.
abbrev pub IsOrder : (List (ℕ × Bitset) → List (ℕ × Bitset)) → Type 0
IsOrder order =
    (pairs : List (ℕ × Bitset)) (b : ℕ)
    → tally b (bases_of (order pairs)) ≡ tally b (bases_of pairs)

module _ (d : Doubles) where
  pub cover-keys :
      (order : List (ℕ × Bitset) → List (ℕ × Bitset)) (h : Hawkeye d) (vaddr b : ℕ)
      → tally b (bases_of h.coverage) ≤ 1
      → tally b (bases_of (cover d order h vaddr).coverage) ≤ 1
  unfolding cover
  cover-keys order h vaddr b l =
      let base = vaddr / huge_page_size in
      let bits =
        update (bits_or_none (find_bits h.coverage base))
          (vaddr / page_size - base * (huge_page_size / page_size)) true in
      ground (arith, tally-put_bits h.coverage base bits b, l)

  -- A region whose old bucket is outside the array, if the list has one.
  find_bad :
      (h : Hawkeye d) (bases : List ℕ)
      → ((b : ℕ) × (mem b bases ≡ true) × (old_is_index d h b ≡ false))
        ⊎ ((b : ℕ) → mem b bases ≡ true → old_is_index d h b ≡ true)
  find_bad h [] = inr (λ b m. ground (arith, m))
  find_bad h (x ∷ bases) = elim (Bool-cases (old_is_index d h x)) [
    | inr bad ↦ inl (x, rw (==-self x) refl, bad)
    | inl ix ↦ elim (find_bad h bases) [
      | inl (b, m, bad) ↦ inl (b, ground (arith, m), bad)
      | inr all ↦ inr (λ b m. elim (Bool-cases (b == x)) [
        | inl e ↦ rw (eq_of_== b x e) ix
        | inr e ↦ all b (ground (arith, m, e))
      ])
    ]
  ]

  module _ (order : List (ℕ × Bitset) → List (ℕ × Bitset)) where
    -- Why a summary faults: a covered region has its old bucket outside the array, or no region is
    -- in the top bucket once all are placed anew.
    abbrev pub Faults : Hawkeye d → Type 0
    Faults h =
        ((b : ℕ) × (0 < tally b (bases_of h.coverage)) × (old_is_index d h b ≡ false))
        ⊎ ((ema1 : ℕ → Option d.Double) × (buckets1 : ℕ → List ℕ) × (rebucket_all d h
                (order h.coverage)
              ≡ some (rebucketed d h ema1 buckets1))
            × (buckets1 9 ≡ []))

    -- What a summary of a sound state does.
    abbrev pub Sums : Hawkeye d → Type 0
    Sums h =
        ((ema2 : ℕ → Option d.Double) × (buckets2 : ℕ → List ℕ) × (promotions : ℕ → Option ℕ)
          × (summarize d order h ≡ some (promoted d (rebucketed d h ema2 buckets2) ema2 promotions))
          × IsPlaced d (promoted d (rebucketed d h ema2 buckets2) ema2 promotions))
        ⊎ (Faults h × (summarize d order h ≡ none))

    pub summarize-Sums :
        (h : Hawkeye d)
        → IsOrder order
        → IsPlaced d h
        → ((b : ℕ) → tally b (bases_of h.coverage) ≤ 1)
        → Sums h
    unfolding summarize
    summarize-Sums h o w once =
        let dist =
          tally-IsDistinct (bases_of (order h.coverage)) (λ b. rw (o h.coverage b) (once b)) in
        elim (find_bad h (bases_of (order h.coverage))) [
          | inl (b, m, bad) ↦ inr (
            inl (
              b,
              ground (arith, m, mem_of_tally b (bases_of (order h.coverage)), o h.coverage b),
              bad,
            ),
            rw (rebucket_all_fault d h (order h.coverage) b w dist m bad) refl,
          )
          | inr ix ↦
              let (ema1, buckets1, run, w1, ends) = summarize_promotes d order h w dist ix in
              elim ends [
                | inl (e, fault) ↦ inr (inr (ema1, buckets1, run, e), fault)
                | inr (ema2, promotions, news, ret, w2, p) ↦
                    inl (ema2, buckets1, promotions, ret, w2)
              ]
        ]
