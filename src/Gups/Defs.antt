-- ===== src/Gups/Defs.antt =====
-- The generator of src/benchmarks/gups/gups.c. A 64-bit word is the function from a place to its bit;
-- the places from 64 on have none.
use elastic_translations_mic.Prelude.{
  ℕ, zero, suc, ◌-◌, ◌/◌, ◌%◌, ◌^◌, Bool, false, not, ◌&&◌, ltb, ◌==◌, if◌then◌else◌,
}

abbrev pub Word : Type 0
Word = ℕ → Bool

abbrev pub xor_bit : Bool → Bool → Bool
xor_bit a b = if a then not b else b

abbrev pub xor : Word → Word → Word
xor v w = λ i. xor_bit (v i) (w i)

abbrev pub zero_word : Word
zero_word = λ i. false

-- `w << 1`.
unfoldable pub shift_left : Word → Word
shift_left w zero = false
shift_left w (suc i) = ltb (suc i) 64 && w i

-- POLY, 7.
abbrev pub poly : Word
poly = λ i. ltb i 3

-- PERIOD.
abbrev pub period : ℕ
period = 1317624576693539401

-- `(w << 1) ^ ((int64_t) w < 0 ? POLY : 0)`.
unfoldable pub step : Word → Word
step w = xor (shift_left w) (if w 63 then poly else zero_word)

-- The word 2 ^ k.
abbrev pub only : ℕ → Word
only k = λ i. i == k

-- m2[i].
unfoldable pub m2 : ℕ → Word
m2 zero = only 0
m2 (suc i) = step (step (m2 i))

-- `for (j = 0; j < 64; j++) if ((ran >> j) & 1) temp ^= m2[j];`, after n rounds.
unfoldable pub combine : Word → ℕ → Word
combine ran zero = zero_word
combine ran (suc j) = if ran j then xor (combine ran j) (m2 j) else combine ran j

-- `(n >> i) & 1`.
abbrev pub bit_of : ℕ → ℕ → Bool
bit_of n i = n / 2 ^ i % 2 == 1

-- `for (i = 62; i >= 0; i--) if ((n >> i) & 1) break;`. A number that is not 0 has a bit, so the loop
-- does not get to -1.
unfoldable pub top_bit : ℕ → ℕ → ℕ
top_bit n zero = 0
top_bit n (suc i) = let rest = top_bit n i in if bit_of n i then i else rest

-- `while (i > 0) { ... }`.
unfoldable pub jump : ℕ → Word → ℕ → Word
jump n ran zero = ran
jump n ran (suc i) =
    let square = combine ran 64 in jump n (if bit_of n i then step square else square) i

-- `while (n > PERIOD) n -= PERIOD;`, with fuel.
unfoldable pub reduce : ℕ → ℕ → ℕ
reduce zero n = n
reduce (suc fuel) n = if ltb period n then reduce fuel (n - period) else n

-- HPCC_starts, for a number that is not negative, as those are that `main` gives. It is below 2 ^ 63,
-- which is seven times the period and one.
unfoldable pub hpcc_starts : ℕ → Word
hpcc_starts n = let r = reduce 7 n in if r == 0 then only 0 else jump r (only 1) (top_bit r 63)

-- The updates of the loop in `main`, `n` of them.
unfoldable pub steps : ℕ → Word → Word
steps zero w = w
steps (suc n) w = step (steps n w)
