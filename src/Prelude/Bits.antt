-- ===== src/Prelude/Bits.antt =====
-- `bit_and` with a mask of ones at the places m, ..., m + k - 1, as a quotient and a remainder.
use Prim.Native.Nat.{
  ℕ, zero, suc, ◌+◌, ◌-◌, ◌*◌, ◌/◌, ◌%◌, ◌^◌, ◌≤◌, ◌<◌, min, bit_and, digits, bit_and-bitwise,
}
use mathlib.Core.Path.{◌≡◌, refl, sym, ◌∙◌, ap, ap₂}
use native.Mathlib.Nat.{
  two-pow-succ, pow-succ', zero-add, suc-add, mul_assoc, div-div-eq-div-mul, mod-eq-sub-mul-div,
  mul-div-le,
}
use native.Mathlib.Omega.{arith}

-- The digits of `bit_and`, to a given depth.
abbrev meet : ℕ → ℕ → ℕ → ℕ
meet = digits (λ _. zero) min

meet_depth : (m n a b : ℕ) → a ≤ m → a ≤ n → meet m a b ≡ meet n a b
meet_depth zero zero zero b h k = refl
meet_depth zero (suc n) zero b h k = refl
meet_depth (suc m) zero zero b h k = refl
meet_depth (suc m) (suc n) zero b h k = refl
meet_depth (suc m) (suc n) (suc a) b h k =
    let up = meet_depth m n (suc a / 2) (b / 2) (omega arith) (omega arith) in
    ap (λ (t : ℕ). t * 2 + min (suc a % 2) (b % 2)) up
meet_depth zero n (suc a) b h k = absurd (omega arith)
meet_depth (suc m) zero (suc a) b h k = absurd (omega arith)

none-bit_and : (b : ℕ) → bit_and 0 b ≡ 0
none-bit_and b = bit_and-bitwise 0 b

-- The lowest digit apart.
pub bit_and-halves : (a b : ℕ) → bit_and a b ≡ bit_and (a / 2) (b / 2) * 2 + min (a % 2) (b % 2)
bit_and-halves zero b = omega (arith, none-bit_and b, none-bit_and (b / 2))
bit_and-halves (suc a) b =
    bit_and-bitwise (suc a) b
    ∙ ap (λ (t : ℕ). t * 2 + min (suc a % 2) (b % 2))
        (meet_depth a (suc a / 2) (suc a / 2) (b / 2) (omega arith) (omega arith)
          ∙ sym (λ i. bit_and-bitwise (suc a / 2) (b / 2) i))

pub pow_pos : (k : ℕ) → 0 < 2 ^ k
pow_pos zero = omega arith
pow_pos (suc k) = omega (arith, two-pow-succ k, pow_pos k)

double_mod : (a p : ℕ) → 0 < p → a % (p + p) ≡ (a / 2 % p) * 2 + a % 2
double_mod a p h =
    let e : a / 2 / p ≡ a / (p + p) =
      div-div-eq-div-mul a 2 p ∙ ap (λ (t : ℕ). a / t) (omega arith) in
    omega (
      arith,
      e,
      mod-eq-sub-mul-div a (p + p),
      mod-eq-sub-mul-div (a / 2) p,
      mul-div-le a (p + p),
      mul-div-le (a / 2) p,
      ap (λ (t : ℕ). p * t) e,
    )

bit_and-zero_below : (n a : ℕ) → a ≤ n → bit_and a 0 ≡ 0
bit_and-zero_below n zero h = none-bit_and 0
bit_and-zero_below zero (suc a) h = absurd (omega arith)
bit_and-zero_below (suc n) (suc a) h =
    omega (arith, bit_and-halves (suc a) 0, bit_and-zero_below n (suc a / 2) (omega arith))

pub bit_and-zero : (a : ℕ) → bit_and a 0 ≡ 0
bit_and-zero a = bit_and-zero_below a a (omega arith)

div_one : (x : ℕ) → x / 2 ^ 0 ≡ x
div_one x = omega arith

shift_suc : (m x : ℕ) → x / 2 ^ suc m ≡ x / 2 / 2 ^ m
shift_suc m x = ap (λ (t : ℕ). x / t) (pow-succ' 2 m) ∙ sym (div-div-eq-div-mul x 2 (2 ^ m))

-- A mask of the k lowest places.
pub bit_and-ones : (k a : ℕ) → bit_and a (2 ^ k - 1) ≡ a % 2 ^ k
bit_and-ones zero a = bit_and-zero a ∙ omega arith
bit_and-ones (suc k) a =
    bit_and-halves a (2 ^ suc k - 1)
    ∙ ap (λ (t : ℕ). t * 2 + min (a % 2) ((2 ^ suc k - 1) % 2))
        (ap (λ (t : ℕ). bit_and (a / 2) t) (omega (arith, two-pow-succ k, pow_pos k))
          ∙ bit_and-ones k (a / 2))
    ∙ omega (
      arith,
      double_mod a (2 ^ k) (pow_pos k),
      two-pow-succ k,
      pow_pos k,
      ap (λ (t : ℕ). a % t) (two-pow-succ k),
    )

-- Shifts to the right pass through.
pub bit_and-shift : (m a b : ℕ) → bit_and a b / 2 ^ m ≡ bit_and (a / 2 ^ m) (b / 2 ^ m)
bit_and-shift zero a b = div_one (bit_and a b) ∙ sym (ap₂ bit_and (div_one a) (div_one b))
bit_and-shift (suc m) a b =
    shift_suc m (bit_and a b)
    ∙ ap (λ (t : ℕ). t / 2 ^ m) (omega (arith, bit_and-halves a b))
    ∙ bit_and-shift m (a / 2) (b / 2)
    ∙ sym (ap₂ bit_and (shift_suc m a) (shift_suc m b))

pub pow-add : (m k : ℕ) → 2 ^ (m + k) ≡ 2 ^ m * 2 ^ k
pow-add zero k = omega (arith, ap (λ (t : ℕ). 2 ^ t) (zero-add k))
pow-add (suc m) k =
    ap (λ (t : ℕ). 2 ^ t) (suc-add m k)
    ∙ pow-succ' 2 (m + k)
    ∙ ap (λ (t : ℕ). 2 * t) (pow-add m k)
    ∙ sym (mul_assoc 2 (2 ^ m) (2 ^ k))
    ∙ ap (λ (t : ℕ). t * 2 ^ k) (sym (pow-succ' 2 m))
