-- ===== src/Pcc/Hawkeye/Promote.antt =====
-- The promotion loop of src/pcc/hawkeye.h, and the list of the regions by bucket.
use elastic_translations_mic.Prelude.{
  ℕ, zero, suc, ◌≤◌, ◌≡◌, refl, ◌∙◌, sym, ap, Bool, true, false, Bool-cases, Option-cases, inl, inr,
  Option, none, some, List, [], ◌∷◌, ◌++◌, ltb, if◌then◌else◌, length, get_elem?, arith, subst,
}
use elastic_translations_mic.Pcc.Doubles.{Doubles}
use elastic_translations_mic.Pcc.Hawkeye.Defs.{
  Hawkeye, returned, faulted, max_num_promotions, next_place, promote_region, repeats, promote_loop,
}

-- The regions from index `idx` on.
unfoldable pub rest_of : List ℕ → ℕ → List ℕ
rest_of [] idx = []
rest_of (b ∷ bs) zero = b ∷ bs
rest_of (b ∷ bs) (suc idx) = rest_of bs idx

-- The regions of the buckets below `n`, from the top bucket down.
unfoldable pub queue_below : (ℕ → List ℕ) → ℕ → List ℕ
queue_below buckets zero = []
queue_below buckets (suc n) = buckets n ++ queue_below buckets n

-- The regions from index `idx` of bucket `i` on.
unfoldable pub queue_from : (ℕ → List ℕ) → ℕ → ℕ → List ℕ
queue_from buckets i idx = rest_of (buckets i) idx ++ queue_below buckets i

rest_of_next :
    (bs : List ℕ) (idx b : ℕ)
    → get_elem? bs idx ≡ some b
    → rest_of bs idx ≡ b ∷ rest_of bs (suc idx)
unfolding rest_of
rest_of_next [] idx b e = ground (arith, e)
rest_of_next (x ∷ []) zero b e = ground (arith, e)
rest_of_next (x ∷ (y ∷ bs)) zero b e = ground (arith, e)
rest_of_next (x ∷ bs) (suc idx) b e = rest_of_next bs idx b e

queue_from_next :
    (buckets : ℕ → List ℕ) (i idx b : ℕ)
    → get_elem? (buckets i) idx ≡ some b
    → queue_from buckets i idx ≡ b ∷ queue_from buckets i (suc idx)
unfolding queue_from
queue_from_next buckets i idx b e = rw (rest_of_next (buckets i) idx b e) refl

rest_of_end : (bs : List ℕ) (idx : ℕ) → ltb idx (length bs) ≡ false → rest_of bs idx ≡ []
unfolding rest_of
rest_of_end [] idx h = refl
rest_of_end (b ∷ bs) zero h = ground (arith, h)
rest_of_end (b ∷ bs) (suc idx) h = rest_of_end bs idx (ground (arith, h))

pub rest_of_zero : (bs : List ℕ) → rest_of bs 0 ≡ bs
unfolding rest_of
rest_of_zero [] = refl
rest_of_zero (b ∷ bs) = refl

get_elem?-ltb :
    (bs : List ℕ) (idx : ℕ) → ltb idx (length bs) ≡ true → (b : ℕ) × (get_elem? bs idx ≡ some b)
get_elem?-ltb [] idx h = ground (arith, h)
get_elem?-ltb (b ∷ bs) zero h = (b, refl)
get_elem?-ltb (b ∷ bs) (suc idx) h = get_elem?-ltb bs idx (ground (arith, h))

-- Where the inner loop arrives: at the first region of the rest of the queue, or at its end.
abbrev pub Arrives : (ℕ → List ℕ) → List ℕ → Option (ℕ × ℕ) → Type 0
Arrives buckets q none = q ≡ []
Arrives buckets q (some (i, idx)) =
    (b : ℕ) × (get_elem? (buckets i) idx ≡ some b) × (queue_from buckets i idx ≡ q)

next_place-Arrives :
    (buckets : ℕ → List ℕ) (i idx : ℕ)
    → Arrives buckets (queue_from buckets i idx) (next_place buckets i idx)
unfolding next_place queue_from queue_below
next_place-Arrives buckets zero idx = elim (Bool-cases (ltb idx (length (buckets 0)))) [
  | inl h ↦ rw h (let (b, e) = get_elem?-ltb (buckets 0) idx h in (b, e, refl))
  | inr h ↦ rw (h, rest_of_end (buckets 0) idx h) refl
]
next_place-Arrives buckets (suc i) idx = elim (Bool-cases (ltb idx (length (buckets (suc i))))) [
  | inl h ↦ rw h (let (b, e) = get_elem?-ltb (buckets (suc i)) idx h in (b, e, refl))
  | inr h ↦
      rw (h, rest_of_end (buckets (suc i)) idx h)
        (subst (λ q. Arrives buckets (q ++ queue_below buckets i) (next_place buckets i 0))
          (rest_of_zero (buckets i)) (next_place-Arrives buckets i 0))
]

same_branches {ℓ} : {A : Type ℓ} (b : Bool) (x : A) → (if b then x else x) ≡ x
same_branches true x = refl
same_branches false x = refl

returned-if {ℓ} :
    {A : Type ℓ} (b : Bool) (x y : A)
    → (if b then returned x else returned y) ≡ returned (if b then x else y)
returned-if true x y = refl
returned-if false x y = refl

module _ (d : Doubles) where
  -- The regions of a list are promoted in turn, until `max_num_promotions` are new.
  unfoldable pub promote_regions : Hawkeye d → ℕ → List ℕ → Hawkeye d
  promote_regions h num [] = h
  promote_regions h num (base ∷ bases) =
      let h' = promote_region d h base in
      let num' = if repeats d h base then num else suc num in
      let rest = promote_regions h' num' bases in if ltb num' max_num_promotions then rest else h'

  -- From a place that has a region, the loop returns when it has fuel for the rest of the queue, and
  -- has done what the recursion on the queue does.
  pub promote_loop-promote_regions :
      (fuel : ℕ) (h : Hawkeye d) (i idx num b : ℕ)
      → get_elem? (h.buckets i) idx ≡ some b
      → length (queue_from h.buckets i idx) ≤ fuel
      → promote_loop d fuel h i idx num
        ≡ returned (promote_regions h num (queue_from h.buckets i idx))
  unfolding promote_loop promote_regions promote_region
  promote_loop-promote_regions zero h i idx num b e l =
      let h : 1 ≤ 0 = omega (arith, ap length (queue_from_next h.buckets i idx b e), l) in
      elim h [ ]
  promote_loop-promote_regions (suc fuel) h i idx num b e l =
      let q' = queue_from h.buckets i (suc idx) in
      let q_next : queue_from h.buckets i idx ≡ b ∷ q' = queue_from_next h.buckets i idx b e in
      let num' = if repeats d h b then num else suc num in
      let shorter : length q' ≤ fuel = omega (arith, ap length q_next, l) in
      rw (q_next, promote_loop, e)
        (elim (Option-cases (next_place h.buckets i (suc idx))) [
          | inl n ↦
              let done : q' ≡ [] =
                subst (λ o. Arrives h.buckets q' o) n (next_place-Arrives h.buckets i (suc idx)) in
              rw (n, done)
                (ap returned
                  (sym (same_branches (ltb num' max_num_promotions) (promote_region d h b))))
          | inr ((i', idx'), n) ↦
              let (b', e', same) =
                subst (λ o. Arrives h.buckets q' o) n (next_place-Arrives h.buckets i (suc idx)) in
              let ih : promote_loop d fuel (promote_region d h b) i' idx' num'
                  ≡ returned (promote_regions (promote_region d h b) num' q') =
                promote_loop-promote_regions fuel (promote_region d h b) i' idx' num' b' e'
                  (omega (arith, shorter, ap length same))
                ∙ ap (λ q. returned (promote_regions (promote_region d h b) num' q)) same in
              rw (n, ih) (returned-if (ltb num' max_num_promotions) _ _)
        ])

  -- At a place that has no region, the loop reads past the end of the bucket.
  pub promote_loop_past_end :
      (fuel : ℕ) (h : Hawkeye d) (i idx num : ℕ)
      → get_elem? (h.buckets i) idx ≡ none
      → promote_loop d (suc fuel) h i idx num ≡ faulted
  unfolding promote_loop
  promote_loop_past_end fuel h i idx num e = rw (promote_loop, e) refl
