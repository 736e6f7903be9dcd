-- ===== src/Gups/Jump.antt =====
-- HPCC_starts of src/benchmarks/gups/gups.c skips as many numbers as it is told to.
use mathlib.Core.Path.{fun_ext}
use native.Mathlib.Nat.{div-div-eq-div-mul, two-pow-succ}
use elastic_translations_mic.Prelude.{
  ℕ, zero, suc, ◌-◌, ◌*◌, ◌/◌, ◌%◌, ◌^◌, ◌<◌, ◌≤◌, ◌≡◌, refl, sym, ◌∙◌, ap, Bool, true, false, ltb,
  ◌==◌, if◌then◌else◌, arith, Bool-cases, inl, inr, eq_of_==,
}
use elastic_translations_mic.Gups.Defs.{
  Word, xor_bit, xor, zero_word, shift_left, poly, step, only, m2, combine, steps, bit_of, top_bit,
  jump, reduce, period, hpcc_starts,
}
use elastic_translations_mic.Gups.Linear.{step-xor, steps_128, step-only}

m2-steps : (i : ℕ) → m2 i ≡ steps (2 * i) (only 0)
unfolding m2 steps
m2-steps zero = refl
m2-steps (suc i) =
    let e : suc (suc (2 * i)) ≡ 2 * suc i = omega arith in
    ap (λ w. step (step w)) (m2-steps i) ∙ ap (λ k. steps k (only 0)) e

out_bits : (i : ℕ) → shift_left zero_word i ≡ false
unfolding shift_left
out_bits zero = refl
out_bits (suc i) = ground arith

step_no_bits : step zero_word ≡ zero_word
unfolding step
step_no_bits = fun_ext (λ i. rw (out_bits i) refl)

combine-xor : (v w : Word) (n : ℕ) → combine (xor v w) n ≡ xor (combine v n) (combine w n)
unfolding combine
combine-xor v w zero = refl
combine-xor v w (suc n) =
    rw (combine-xor v w n) (sums (v n) (w n) (combine v n) (combine w n) (m2 n))
  where
    sums :
        (a b : Bool) (x y z : Word)
        → (if xor_bit a b then xor (xor x y) z else xor x y)
          ≡ xor (if a then xor x z else x) (if b then xor y z else y)
    sums true true x y z = fun_ext (λ i. ground arith)
    sums true false x y z = fun_ext (λ i. ground arith)
    sums false true x y z = fun_ext (λ i. ground arith)
    sums false false x y z = refl

combine-zero_word : (n : ℕ) → combine zero_word n ≡ zero_word
unfolding combine
combine-zero_word zero = refl
combine-zero_word (suc n) = combine-zero_word n

combine-poly : combine poly 64 ≡ xor (xor (m2 0) (m2 1)) (m2 2)
unfolding combine
combine-poly = refl

combine_lem :
    (w : Word) (n : ℕ) → combine w (suc n) ≡ (if w n then xor (combine w n) (m2 n) else combine w n)
unfolding combine
combine_lem w n = refl

shift_left_lem : (w : Word) (n : ℕ) → suc n < 64 → shift_left w (suc n) ≡ w n
unfolding shift_left
shift_left_lem w n l = ground (arith, l)

twice-xor : (v w : Word) → step (step (xor v w)) ≡ xor (step (step v)) (step (step w))
twice-xor v w = ap step (step-xor v w) ∙ step-xor (step v) (step w)

twice_under :
    (b : Bool) (v : Word) (n : ℕ)
    → (if b then xor (step (step v)) (m2 (suc n)) else step (step v))
      ≡ step (step (if b then xor v (m2 n) else v))
unfolding m2
twice_under true v n = sym (twice-xor v (m2 n))
twice_under false v n = refl

combine_start : (w : Word) → combine (shift_left w) 1 ≡ zero_word
unfolding combine shift_left
combine_start w = refl

combine_zero : (w : Word) → combine w 0 ≡ zero_word
unfolding combine
combine_zero w = refl

step_lem : (w : Word) → step w ≡ xor (shift_left w) (if w 63 then poly else zero_word)
unfolding step
step_lem w = refl

plain : (b : Bool) → xor_bit b false ≡ b
plain b = ground arith

-- The square of a word shifted, but for its highest bit.
combine-shift_left :
    (w : Word) (n : ℕ) → n < 64 → combine (shift_left w) (suc n) ≡ step (step (combine w n))
combine-shift_left w zero l =
    combine_start w
    ∙ sym (ap step step_no_bits ∙ step_no_bits)
    ∙ ap (λ v. step (step v)) (sym (combine_zero w))
combine-shift_left w (suc n) l =
    combine_lem (shift_left w) (suc n)
    ∙ rw (shift_left_lem w n l, combine-shift_left w n (omega (arith, l)))
        (twice_under (w n) (combine w n) n)
    ∙ ap (λ v. step (step v)) (sym (combine_lem w n))

m2_64 : step (step (m2 63)) ≡ steps 128 (only 0)
unfolding m2
m2_64 = m2-steps 64

combine-poly_square : combine poly 64 ≡ step (step (m2 63))
combine-poly_square = rw (m2_64, combine-poly, m2-steps 0, m2-steps 1, m2-steps 2) (sym steps_128)

-- The square of a step is the square two steps on.
combine-step : (w : Word) → combine (step w) 64 ≡ step (step (combine w 64))
combine-step w =
    ap (λ v. combine v 64) (step_lem w)
    ∙ combine-xor (shift_left w) (if w 63 then poly else zero_word) 64
    ∙ ap (λ v. xor v (combine (if w 63 then poly else zero_word) 64))
        (combine-shift_left w 63 (omega arith))
    ∙ highest (w 63) (combine w 63)
    ∙ ap (λ v. step (step v)) (sym (combine_lem w 63))
  where
    highest :
        (b : Bool) (v : Word)
        → xor (step (step v)) (combine (if b then poly else zero_word) 64)
          ≡ step (step (if b then xor v (m2 63) else v))
    highest true v = ap (xor (step (step v))) combine-poly_square ∙ sym (twice-xor v (m2 63))
    highest false v =
        ap (xor (step (step v))) (combine-zero_word 64) ∙ fun_ext (λ i. plain (step (step v) i))

combine_one : combine (only 0) 64 ≡ only 0
unfolding combine m2
combine_one = refl

-- The square of the word after `k` steps is the word after twice as many.
combine-steps : (k : ℕ) → combine (steps k (only 0)) 64 ≡ steps (2 * k) (only 0)
unfolding steps
combine-steps zero = combine_one
combine-steps (suc k) =
    let e : suc (suc (2 * k)) ≡ 2 * suc k = omega arith in
    combine-step (steps k (only 0))
    ∙ ap (λ w. step (step w)) (combine-steps k)
    ∙ ap (λ n. steps n (only 0)) e

half : (n i : ℕ) → n / 2 ^ suc i ≡ n / 2 ^ i / 2
half n i =
    let e : 2 ^ suc i ≡ 2 ^ i * 2 = omega (arith, two-pow-succ i) in
    ap (λ (t : ℕ). n / t) e ∙ sym (div-div-eq-div-mul n (2 ^ i) 2)

jump-steps :
    (n i : ℕ) (ran : Word) → ran ≡ steps (n / 2 ^ i) (only 0) → jump n ran i ≡ steps n (only 0)
unfolding jump steps
jump-steps n zero ran e =
    let whole : n / 2 ^ 0 ≡ n = omega arith in e ∙ ap (λ k. steps k (only 0)) whole
jump-steps n (suc i) ran e =
    jump-steps n i _
      (next (n / 2 ^ i) (bit_of n i) refl (e ∙ ap (λ k. steps k (only 0)) (half n i)))
  where
    next :
        (q : ℕ) (b : Bool)
        → (q % 2 == 1) ≡ b
        → ran ≡ steps (q / 2) (only 0)
        → (if b then step (combine ran 64) else combine ran 64) ≡ steps q (only 0)
    next q true bit r =
        let e : suc (2 * (q / 2)) ≡ q = ground (arith, bit) in
        ap (λ w. step (combine w 64)) r
        ∙ ap step (combine-steps (q / 2))
        ∙ ap (λ k. steps k (only 0)) e
    next q false bit r =
        let e : 2 * (q / 2) ≡ q = ground (arith, bit) in
        ap (λ w. combine w 64) r ∙ combine-steps (q / 2) ∙ ap (λ k. steps k (only 0)) e

top_bit_lem : (n m : ℕ) → 0 < n → n / 2 ^ m ≡ 0 → n / 2 ^ top_bit n m ≡ 1
unfolding top_bit
top_bit_lem n zero p e = ground (arith, p, e)
top_bit_lem n (suc m) p e = elim (Bool-cases (bit_of n m)) [
  | inl b ↦ rw b (ground (arith, b, e, half n m))
  | inr b ↦ rw b (top_bit_lem n m p (ground (arith, b, e, half n m)))
]

pub reduce_lem :
    (fuel n : ℕ)
    → n ≤ suc fuel * period
    → (reduce fuel n ≤ period) × (reduce fuel n % period ≡ n % period)
unfolding reduce
reduce_lem zero n l = omega (arith, l)
reduce_lem (suc fuel) n l = elim (Bool-cases (ltb period n)) [
  | inl b ↦
      let (small, same) = reduce_lem fuel (n - period) (omega (arith, l)) in
      rw b (small, same ∙ ground (arith, b))
  | inr b ↦ rw b (ground (arith, b), refl)
]

only_one : step (only 0) ≡ only 1
only_one = step-only 0 (omega arith)

-- For a number below 2 ^ 63, HPCC_starts gives the word that the updates of the loop reach from 1
-- after as many steps as the number that is left when the period is taken off: one up to the period
-- with the same remainder.
pub hpcc_starts-steps :
    (n : ℕ)
    → n < 2 ^ 63
    → (hpcc_starts n ≡ steps (reduce 7 n) (only 0))
      × (reduce 7 n ≤ period)
      × (reduce 7 n % period ≡ n % period)
unfolding hpcc_starts steps
hpcc_starts-steps n l =
    let (small, same) = reduce_lem 7 n (omega (arith, l)) in
    (started (reduce 7 n) small, small, same)
  where
    started :
        (r : ℕ)
        → r ≤ period
        → (if r == 0 then only 0 else jump r (only 1) (top_bit r 63)) ≡ steps r (only 0)
    started r small = elim (Bool-cases (r == 0)) [
      | inl e ↦ rw (e, eq_of_== r 0 e) refl
      | inr e ↦
          let high : r / 2 ^ 63 ≡ 0 = omega (arith, small) in
          rw e (
            jump-steps r (top_bit r 63) (only 1) (
              sym only_one
              ∙ ap (λ k. steps k (only 0)) (sym (top_bit_lem r 63 (ground (arith, e)) high))))
    ]
