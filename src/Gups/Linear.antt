-- ===== src/Gups/Linear.antt =====
-- The generator of src/benchmarks/gups/gups.c is linear in the bits.
use mathlib.Core.Path.{fun_ext}
use elastic_translations_mic.Prelude.{
  ℕ, zero, suc, ◌+◌, ◌<◌, ◌≤◌, ◌≡◌, refl, sym, ◌∙◌, ap, Bool, true, false, ◌==◌, if◌then◌else◌,
  arith,
}
use elastic_translations_mic.Gups.Defs.{
  Word, xor_bit, xor, zero_word, shift_left, poly, step, only, steps,
}

xor_bit_swap :
    (a b c d : Bool) → xor_bit (xor_bit a b) (xor_bit c d) ≡ xor_bit (xor_bit a c) (xor_bit b d)
xor_bit_swap a b c d = ground arith

pub xor_swap : (a b c d : Word) → xor (xor a b) (xor c d) ≡ xor (xor a c) (xor b d)
xor_swap a b c d = fun_ext (λ i. xor_bit_swap (a i) (b i) (c i) (d i))

shift_bits : (v w : Word) (i : ℕ) → shift_left (xor v w) i ≡ xor (shift_left v) (shift_left w) i
unfolding shift_left
shift_bits v w zero = refl
shift_bits v w (suc i) = ground arith

shift_left-xor : (v w : Word) → shift_left (xor v w) ≡ xor (shift_left v) (shift_left w)
shift_left-xor v w = fun_ext (shift_bits v w)

feedback :
    (a b : Bool) (p : Word)
    → (if xor_bit a b then p else zero_word)
      ≡ xor (if a then p else zero_word) (if b then p else zero_word)
feedback true true p = fun_ext (λ i. ground arith)
feedback true false p = fun_ext (λ i. ground arith)
feedback false true p = refl
feedback false false p = refl

-- A step of a sum.
pub step-xor : (v w : Word) → step (xor v w) ≡ xor (step v) (step w)
unfolding step
step-xor v w =
    rw (shift_left-xor v w, feedback (v 63) (w 63) poly)
      (xor_swap (shift_left v) (shift_left w) (if v 63 then poly else zero_word)
        (if w 63 then poly else zero_word))

pub steps-xor : (n : ℕ) (v w : Word) → steps n (xor v w) ≡ xor (steps n v) (steps n w)
unfolding steps
steps-xor zero v w = refl
steps-xor (suc n) v w = ap step (steps-xor n v w) ∙ step-xor (steps n v) (steps n w)

pub steps-steps : (m n : ℕ) (w : Word) → steps m (steps n w) ≡ steps (m + n) w
unfolding steps
steps-steps zero n w = let e : n ≡ 0 + n = omega arith in ap (λ k. steps k w) e
steps-steps (suc m) n w =
    let e : suc (m + n) ≡ suc m + n = omega arith in
    ap step (steps-steps m n w) ∙ ap (λ k. steps k w) e

-- Below the highest place a step moves a bit up; the highest one comes back as 7.
only_bits : (k : ℕ) → k < 63 → (i : ℕ) → shift_left (only k) i ≡ only (suc k) i
unfolding shift_left
only_bits k l zero = ground arith
only_bits k l (suc i) = ground (arith, l)

pub step-only : (k : ℕ) → k < 63 → step (only k) ≡ only (suc k)
unfolding step
step-only k l =
    let low : (63 == k) ≡ false = ground (arith, l) in
    rw low (fun_ext (λ i. plain (shift_left (only k) i) ∙ only_bits k l i))
  where
    plain : (b : Bool) → xor_bit b false ≡ b
    plain b = ground arith

out_bits : (i : ℕ) → shift_left (only 63) i ≡ false
unfolding shift_left
out_bits zero = refl
out_bits (suc i) = ground arith

step_highest : step (only 63) ≡ poly
unfolding step
step_highest = fun_ext (λ i. rw (out_bits i) refl)

steps-only : (k : ℕ) → k ≤ 63 → steps k (only 0) ≡ only k
unfolding steps
steps-only zero l = refl
steps-only (suc k) l = ap step (steps-only k (omega (arith, l))) ∙ step-only k (omega (arith, l))

-- 64 steps from 1 give 7, the sum of 1, 2 and 4.
steps_64 : steps 64 (only 0) ≡ poly
unfolding steps
steps_64 = ap step (steps-only 63 (omega arith)) ∙ step_highest

poly_sum : poly ≡ xor (xor (only 0) (steps 1 (only 0))) (steps 2 (only 0))
poly_sum =
    fun_ext (λ i. ground arith)
    ∙ ap (λ v. xor (xor (only 0) v) (only 2)) (sym (steps-only 1 (omega arith)))
    ∙ ap (λ v. xor (xor (only 0) (steps 1 (only 0))) v) (sym (steps-only 2 (omega arith)))

-- 64 more steps.
pub steps_more :
    (m : ℕ)
    → steps (m + 64) (only 0)
      ≡ xor (xor (steps m (only 0)) (steps (m + 1) (only 0))) (steps (m + 2) (only 0))
steps_more m =
    sym (steps-steps m 64 (only 0))
    ∙ ap (steps m) (steps_64 ∙ poly_sum)
    ∙ steps-xor m (xor (only 0) (steps 1 (only 0))) (steps 2 (only 0))
    ∙ ap (λ v. xor v (steps m (steps 2 (only 0)))) (steps-xor m (only 0) (steps 1 (only 0)))
    ∙ rw (steps-steps m 1 (only 0), steps-steps m 2 (only 0)) refl

cancel :
    (a b c d e : Bool)
    → xor_bit
        (xor_bit (xor_bit (xor_bit a b) c) (xor_bit (xor_bit b c) d))
        (xor_bit (xor_bit c d) e)
      ≡ xor_bit (xor_bit a c) e
cancel a b c d e = ground arith

-- 128 steps from 1 give the sum of 1, 4 and 16.
pub steps_128 :
    steps 128 (only 0) ≡ xor (xor (steps 0 (only 0)) (steps 2 (only 0))) (steps 4 (only 0))
steps_128 =
    steps_more 64
    ∙ rw (steps_more 0, steps_more 1, steps_more 2)
        (fun_ext (λ i.
          cancel (steps 0 (only 0) i) (steps 1 (only 0) i) (steps 2 (only 0) i) (steps 3 (only 0) i)
            (steps 4 (only 0) i)))
