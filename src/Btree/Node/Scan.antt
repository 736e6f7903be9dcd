-- ===== src/Btree/Node/Scan.antt =====
-- The loops of Defs.antt, element by element.
use elastic_translations_mic.Prelude.{
  ℕ, zero, suc, ◌+◌, ◌-◌, ◌≤◌, ◌<◌, ◌≡◌, refl, sym, ◌∙◌, subst, Bool, true, false, ◌&&◌, inl, inr,
  arith, ltb, leb, ◌==◌, update_ne, if◌then◌else◌, Bool-cases, eq_of_==, update,
}
use elastic_translations_mic.Btree.Node.Defs.{
  scan, shift_up, insert_at, spread, copy, clear, temporary, cut, null,
}

-- A scan stops in bounds, at the first place that fails the test.
pub scan-le : (test : ℕ → Bool) (i n : ℕ) → (i ≤ scan test i n) × (scan test i n ≤ i + n)
unfolding scan
scan-le test i zero = omega arith
scan-le test i (suc n) = ground (arith, scan-le test (suc i) n)

pub scan-passed : (test : ℕ → Bool) (i n j : ℕ) → i ≤ j → j < scan test i n → test j ≡ true
unfolding scan
scan-passed test i zero j a b = ground arith
scan-passed test i (suc n) j a b = elim (Bool-cases (test i)) [
  | inl e ↦ elim (Bool-cases (i == j)) [
    | inl q ↦ subst (λ k. test k ≡ true) (eq_of_== i j q) e
    | inr q ↦ scan-passed test (suc i) n j (ground arith) (ground (arith, b, e))
  ]
  | inr e ↦ ground (arith, b, e)
]

pub scan-stopped :
    (test : ℕ → Bool) (i n : ℕ) → scan test i n < i + n → test (scan test i n) ≡ false
unfolding scan
scan-stopped test i zero b = ground arith
scan-stopped test i (suc n) b = elim (Bool-cases (test i)) [
  | inl e ↦ ground (arith, scan-stopped test (suc i) n)
  | inr e ↦ ground arith
]

-- One more element moved: a store one place above the moved range, seen through the move.
shift_step :
    (a : ℕ → ℕ) (first n j : ℕ)
    → (if ltb first j && leb j (first + n)
        then update a (suc (first + n)) (a (first + n)) (j - 1)
        else update a (suc (first + n)) (a (first + n)) j)
      ≡ (if ltb first j && leb j (first + suc n) then a (j - 1) else a j)
shift_step a first n j = elim (Bool-cases (j == suc (first + n))) [
  | inl e ↦
      subst
        (λ k.
          (if ltb first k && leb k (first + n)
            then update a (suc (first + n)) (a (first + n)) (k - 1)
            else update a (suc (first + n)) (a (first + n)) k)
          ≡ (if ltb first k && leb k (first + suc n) then a (k - 1) else a k))
        (sym (eq_of_== j (suc (first + n)) e)) (at_end (first + n) (omega arith) refl)
  | inr e ↦ elim (Bool-cases (ltb first j && leb j (first + n))) [
    | inl q ↦ rw (q, update_ne a (suc (first + n)) (a (first + n)) (j - 1) (below q), within q) refl
    | inr q ↦ rw (q, update_ne a (suc (first + n)) (a (first + n)) j e, outside e q) refl
  ]
]
  where
    below : (ltb first j && leb j (first + n)) ≡ true → ((j - 1) == suc (first + n)) ≡ false
    below q = ground arith

    within :
        (ltb first j && leb j (first + n)) ≡ true → (ltb first j && leb j (first + suc n)) ≡ true
    within q = ground arith

    outside :
        (j == suc (first + n)) ≡ false
        → (ltb first j && leb j (first + n)) ≡ false
        → (ltb first j && leb j (first + suc n)) ≡ false
    outside e q = ground arith

    at_end :
        (m : ℕ)
        → first ≤ m
        → m ≡ first + n
        → (if ltb first (suc m) && leb (suc m) m
            then update a (suc m) (a m) (suc m - 1)
            else update a (suc m) (a m) (suc m))
          ≡ (if ltb first (suc m) && leb (suc m) (first + suc n) then a (suc m - 1) else a (suc m))
    at_end m h e = ground arith

pub shift_up_lem :
    (a : ℕ → ℕ) (first n j : ℕ)
    → shift_up a first n j ≡ (if ltb first j && leb j (first + n) then a (j - 1) else a j)
unfolding shift_up
shift_up_lem a first zero j = ground arith
shift_up_lem a first (suc n) j =
    shift_up_lem (update a (suc (first + n)) (a (first + n))) first n j ∙ shift_step a first n j

-- The sequence `a` with `v` put in at place `p`.
unfoldable pub inserted : (ℕ → ℕ) → ℕ → ℕ → ℕ → ℕ
inserted a p v j = if ltb j p then a j else if j == p then v else a (j - 1)

pub insert_at_lem :
    (a : ℕ → ℕ) (count p v j : ℕ)
    → p ≤ count
    → j ≤ count
    → insert_at a count p v j ≡ inserted a p v j
unfolding insert_at inserted
insert_at_lem a count p v j h k = ground (arith, shift_up_lem a p (count - p) j)

pub insert_at-beyond :
    (a : ℕ → ℕ) (count p v j : ℕ) → p ≤ count → count < j → insert_at a count p v j ≡ a j
unfolding insert_at
insert_at-beyond a count p v j h k = ground (arith, shift_up_lem a p (count - p) j)

-- Behind the gap the elements are moved as they are.
spread_after :
    (a : ℕ → ℕ) (gap : ℕ) (b : ℕ → ℕ) (i j n k : ℕ)
    → gap < j
    → spread a gap b i j n k ≡ (if leb j k && ltb k (j + n) then a (i + (k - j)) else b k)
unfolding spread
spread_after a gap b i j zero k h = ground arith
spread_after a gap b i j (suc n) k h =
    ground (arith, spread_after a gap (update b j (a i)) (suc i) (suc j) n k)

spread_lem :
    (a : ℕ → ℕ) (gap : ℕ) (b : ℕ → ℕ) (i n k : ℕ)
    → i ≤ gap
    → gap ≤ i + n
    → k ≤ i + n
    → (k == gap) ≡ false
    → spread a gap b i i n k ≡ (if ltb k i then b k else if ltb k gap then a k else a (k - 1))
unfolding spread
spread_lem a gap b i zero k h g l e = ground arith
spread_lem a gap b i (suc n) k h g l e = elim (Bool-cases (i == gap)) [
  | inl q ↦ ground (arith, spread_after a gap (update b (suc i) (a i)) (suc i) (suc (suc i)) n k)
  | inr q ↦ ground (arith, spread_lem a gap (update b i (a i)) (suc i) n k)
]

pub temporary_lem :
    (temp a : ℕ → ℕ) (count p v k : ℕ)
    → p ≤ count
    → k ≤ count
    → temporary temp a count p v k ≡ inserted a p v k
unfolding temporary inserted
temporary_lem temp a count p v k h l = ground (arith, spread_lem a p temp 0 count k)

pub copy_lem :
    (a b : ℕ → ℕ) (i j n k : ℕ)
    → copy a b i j n k ≡ (if leb j k && ltb k (j + n) then a (i + (k - j)) else b k)
unfolding copy
copy_lem a b i j zero k = ground arith
copy_lem a b i j (suc n) k = ground (arith, copy_lem a (update b j (a i)) (suc i) (suc j) n k)

pub clear_lem :
    (b : ℕ → ℕ) (i n k : ℕ) → clear b i n k ≡ (if leb i k && ltb k (i + n) then null else b k)
unfolding clear
clear_lem b i zero k = ground arith
clear_lem b i (suc n) k = ground (arith, clear_lem (update b i null) (suc i) n k)

pub cut-bounds : (n : ℕ) → (n ≤ cut n + cut n) × (cut n + cut n ≤ n + 1)
unfolding cut
cut-bounds n = ground arith
