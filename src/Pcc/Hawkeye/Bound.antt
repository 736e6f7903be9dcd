-- ===== src/Pcc/Hawkeye/Bound.antt =====
-- The number of regions that the promotion loop of src/pcc/hawkeye.h promotes, and which they are.
use elastic_translations_mic.Prelude.{
  ℕ, zero, suc, ◌+◌, ◌%◌, ◌^◌, ◌≤◌, ◌<◌, ◌≡◌, refl, ◌∙◌, ap, sym, Bool, true, false, ◌||◌,
  Bool-cases, inl, inr, ◌⊎◌, Option, none, some, List, [], ◌∷◌, ◌++◌, ltb, ◌==◌, if◌then◌else◌,
  length, mem, get_elem?, IsDistinct, arith, eq_of_==, ==-self,
}
use elastic_translations_mic.Pcc.Doubles.{Doubles}
use elastic_translations_mic.Pcc.Hawkeye.Defs.{
  Hawkeye, returned, max_num_promotions, promoted_again, promote_region, promote_loop, repeats,
  is_promoted_before,
}
use elastic_translations_mic.Pcc.Hawkeye.Buckets.{tally}
use elastic_translations_mic.Pcc.Hawkeye.Promote.{
  queue_from, promote_regions, promote_loop-promote_regions,
}
use elastic_translations_mic.Pcc.Hawkeye.Rebucket.{promoted}

old_region : (x r n : Bool) → (x ≡ true → r ≡ true) → ((if x then true else r) || n) ≡ (r || n)
old_region x r n h = ground (arith, h)

new_region : (x r n : Bool) → ((if x then true else r) || n) ≡ (r || (x || n))
new_region x r n = ground arith

last_one : (x r : Bool) → (if x then true else r) ≡ (r || (x || false))
last_one x r = ground arith

-- The count of a region after `n` more promotions: an unsigned short, 0 after the first of all.
abbrev pub times : ℕ → Option ℕ → Option ℕ
times zero o = o
times (suc n) none = some (n % 2 ^ 16)
times (suc n) (some k) = some ((k + suc n) % 2 ^ 16)

times-promoted_again : (n : ℕ) (o : Option ℕ) → times n (some (promoted_again o)) ≡ times (suc n) o
unfolding promoted_again
times-promoted_again zero none = refl
times-promoted_again zero (some k) = refl
times-promoted_again (suc n) none = ap (λ (t : ℕ). some t) (omega arith)
times-promoted_again (suc n) (some k) = ap (λ (t : ℕ). some t) (omega arith)

module _ (d : Doubles) where
  repeats-promote_region :
      (h : Hawkeye d) (base b : ℕ)
      → repeats d (promote_region d h base) b ≡ (if b == base then true else repeats d h b)
  unfolding repeats promote_region is_promoted_before
  repeats-promote_region h base b = elim (Bool-cases (b == base)) [
    | inl e ↦ rw e refl
    | inr e ↦ rw e refl
  ]

  counts_step :
      (h : Hawkeye d) (base b : ℕ) (front : List ℕ)
      → times (tally b front) ((promote_region d h base).hawkeye_promotions b)
        ≡ times (tally b (base ∷ front)) (h.hawkeye_promotions b)
  unfolding promote_region
  counts_step h base b front = elim (Bool-cases (b == base)) [
    | inl e ↦ rw e (
        times-promoted_again (tally b front) (h.hawkeye_promotions base)
        ∙ ap (λ c. times (suc (tally b front)) (h.hawkeye_promotions c)) (sym (eq_of_== b base e))
        ∙ as_times (suc (tally b front)) (1 + tally b front) (omega arith))
    | inr e ↦ rw e (as_times (tally b front) (0 + tally b front) (omega arith))
  ]
    where
      as_times :
          (n m : ℕ) → n ≡ m → times n (h.hawkeye_promotions b) ≡ times m (h.hawkeye_promotions b)
      as_times n m q = ap (λ (t : ℕ). times t (h.hawkeye_promotions b)) q

  -- The regions of `front`, the first of the listed ones, are promoted once each time that they
  -- stand there. The regions `news`, all different, are those of them that were not promoted before.
  -- They are as many as there is room for, or all that are listed are promoted afterwards.
  pub record IsPromotion (h h' : Hawkeye d) (num : ℕ) (bases news : List ℕ) : Type 0 where
    pub front : List ℕ
    pub back : List ℕ
    pub split : bases ≡ front ++ back
    pub kept : h' ≡ promoted d h h'.ema h'.hawkeye_promotions
    pub counts : (b : ℕ) → h'.hawkeye_promotions b ≡ times (tally b front) (h.hawkeye_promotions b)
    pub bound : length news + num ≤ max_num_promotions
    pub distinct : IsDistinct news
    pub after : (b : ℕ) → repeats d h' b ≡ (repeats d h b || mem b news)
    pub listed : (b : ℕ) → mem b news ≡ true → (mem b front ≡ true) × (repeats d h b ≡ false)
    pub enough :
        (length news + num ≡ max_num_promotions)
        ⊎ ((b : ℕ) → mem b bases ≡ true → repeats d h' b ≡ true)

  repeated :
      (h : Hawkeye d) (base num : ℕ) (bases news : List ℕ) (h' : Hawkeye d)
      → repeats d h base ≡ true
      → IsPromotion (promote_region d h base) h' num bases news
      → IsPromotion h h' num (base ∷ bases) news
  unfolding promote_region
  repeated h base num bases news h' r p = record {
    front = base ∷ p.front;
    back = p.back;
    split = ap (λ bs. base ∷ bs) p.split;
    kept = p.kept;
    counts = λ b. p.counts b ∙ counts_step h base b p.front;
    bound = p.bound;
    distinct = p.distinct;
    after = λ b.
        p.after b
        ∙ rw (repeats-promote_region h base b) (old_region (b == base) _ (mem b news) (known b));
    listed = λ b m.
        let (k, out) = p.listed b m in
        (ground (arith, k), ground (arith, repeats-promote_region h base b, out));
    enough = elim p.enough [
      | inl e ↦ inl e
      | inr all ↦ inr (λ b m. elim (Bool-cases (b == base)) [
        | inl e ↦ p.after b ∙ rw (repeats-promote_region h base b, e) refl
        | inr e ↦ all b (ground (arith, m, e))
      ])
    ];
  }
    where
      known : (b : ℕ) → (b == base) ≡ true → repeats d h b ≡ true
      known b e = rw (eq_of_== b base e) r

  listed_first :
      (h : Hawkeye d) (base : ℕ) (bases news : List ℕ) (b : ℕ)
      → repeats d h base ≡ false
      → (mem b news ≡ true → (mem b bases ≡ true) × (repeats d h b ≡ false))
      → mem b (base ∷ news) ≡ true
      → (mem b (base ∷ bases) ≡ true) × (repeats d h b ≡ false)
  listed_first h base bases news b r old m = elim (Bool-cases (b == base)) [
    | inl e ↦ (rw e refl, rw (eq_of_== b base e) r)
    | inr e ↦ let (k, out) = old (ground (arith, m, e)) in (ground (arith, k), out)
  ]

  added :
      (h : Hawkeye d) (base num : ℕ) (bases news : List ℕ) (h' : Hawkeye d)
      → repeats d h base ≡ false
      → IsPromotion (promote_region d h base) h' (suc num) bases news
      → IsPromotion h h' num (base ∷ bases) (base ∷ news)
  unfolding promote_region
  added h base num bases news h' r p = record {
    front = base ∷ p.front;
    back = p.back;
    split = ap (λ bs. base ∷ bs) p.split;
    kept = p.kept;
    counts = λ b. p.counts b ∙ counts_step h base b p.front;
    bound = omega (arith, p.bound);
    distinct = (not_new, p.distinct);
    after = λ b.
        p.after b ∙ rw (repeats-promote_region h base b) (new_region (b == base) _ (mem b news));
    listed = λ b m.
        listed_first h base p.front news b r
          (λ k.
            let (j, out) = p.listed b k in
            (j, ground (arith, repeats-promote_region h base b, out)))
          m;
    enough = elim p.enough [
      | inl e ↦ inl (omega (arith, e))
      | inr all ↦ inr (λ b m. elim (Bool-cases (b == base)) [
        | inl e ↦ p.after b ∙ rw (repeats-promote_region h base b, e) refl
        | inr e ↦ all b (ground (arith, m, e))
      ])
    ];
  }
    where
      not_new : mem base news ≡ false
      not_new = elim (Bool-cases (mem base news)) [
        | inl m ↦ ground (arith, p.listed base m, repeats-promote_region h base base, ==-self base)
        | inr m ↦ m
      ]

  pub promote_regions-IsPromotion :
      (h : Hawkeye d) (num : ℕ) (bases : List ℕ)
      → num < max_num_promotions
      → (news : List ℕ) × IsPromotion h (promote_regions d h num bases) num bases news
  unfolding promote_regions promote_region
  promote_regions-IsPromotion h num [] l = (
    [],
    record {
      front = [];
      back = [];
      split = refl;
      kept = refl;
      counts = λ b. refl;
      distinct = tt;
      bound = omega (arith, l);
      after = λ b. ground arith;
      listed = λ b m. ground (arith, m);
      enough = inr (λ b m. ground (arith, m));
    },
  )
  promote_regions-IsPromotion h num (base ∷ bases) l =
      let h1 = promote_region d h base in
      elim (Bool-cases (repeats d h base)) [
        | inl r ↦
            let (news, p) = promote_regions-IsPromotion h1 num bases l in
            let room : ltb num max_num_promotions ≡ true = ground (arith, l) in
            (news, rw (r, room) (repeated h base num bases news _ r p))
        | inr r ↦ elim (Bool-cases (ltb (suc num) max_num_promotions)) [
          | inl room ↦
              let (news, p) =
                promote_regions-IsPromotion h1 (suc num) bases (ground (arith, room)) in
              (base ∷ news, rw (r, room) (added h base num bases news _ r p))
          | inr full ↦ (
            base ∷ [],
            rw (r, full)
                (record {
                  front = base ∷ [];
                  back = bases;
                  split = refl;
                  kept = refl;
                  counts = λ b. counts_step h base b [];
                  distinct = (refl, tt);
                  bound = omega (arith, l);
                  after =
                      λ b. repeats-promote_region h base b ∙ last_one (b == base) (repeats d h b);
                  listed = λ b m. listed_first h base [] [] b r (λ k. ground (arith, k)) m;
                  enough = inl (ground (arith, l, full));
                }),
          )
        ]
      ]

  -- From a place that has a region, with fewer than eight regions newly promoted so far, the loop
  -- returns when it has fuel for the rest of the queue. It has promoted the first regions of the
  -- queue, each as often as it stands among them, and changed nothing else but the averages. Those
  -- of them that were not promoted before bring the number to eight at most, and to exactly eight
  -- where not all regions of the queue are promoted then.
  pub promote_loop-IsPromotion :
      (fuel : ℕ) (h : Hawkeye d) (i idx num b : ℕ)
      → get_elem? (h.buckets i) idx ≡ some b
      → num < max_num_promotions
      → length (queue_from h.buckets i idx) ≤ fuel
      → (h' : Hawkeye d) × (news : List ℕ) × (promote_loop d fuel h i idx num ≡ returned h')
        × IsPromotion h h' num (queue_from h.buckets i idx) news
  promote_loop-IsPromotion fuel h i idx num b e room l =
      let (news, p) = promote_regions-IsPromotion h num (queue_from h.buckets i idx) room in
      (_, news, promote_loop-promote_regions d fuel h i idx num b e l, p)
