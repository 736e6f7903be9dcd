-- ===== src/Btree/Random.antt =====
-- The random generator of src/benchmarks/btree/btree1.c: a linear congruence on 48 bits, kept in
-- three digits of 16 bits and computed digit by digit.
use elastic_translations_mic.Prelude.{
  ℕ, ◌+◌, ◌*◌, ◌/◌, ◌%◌, ◌^◌, ◌<◌, ◌≤◌, ◌≡◌, subst, refl, arith, ltb, if◌then◌else◌,
}

-- The static arrays x[3] and a[3], and c.
pub record Random : Type 0 where
  pub x0 : ℕ
  pub x1 : ℕ
  pub x2 : ℕ
  pub a0 : ℕ
  pub a1 : ℕ
  pub a2 : ℕ
  pub c : ℕ

-- LOW and HIGH: the two lowest digits. The `int32_t` between MUL's product and its digits keeps
-- the 32 bits that they read.
unfoldable pub low : ℕ → ℕ
low x = x % 2 ^ 16

unfoldable pub high : ℕ → ℕ
high x = x / 2 ^ 16 % 2 ^ 16

-- CARRY.
unfoldable pub carry : ℕ → ℕ → ℕ
carry x y = if ltb 0xffff (x + y) then 1 else 0

abbrev pub start : Random
start = record {
  x0 = 0x330e;
  x1 = 0xabcd;
  x2 = 0x1234;
  a0 = 0xe66d;
  a1 = 0xdeec;
  a2 = 0x5;
  c = 0xb;
}

-- redisSrand48, with SEED.
unfoldable pub redis_srand48 : ℕ → Random
redis_srand48 seedval = record start { x1 = low seedval; x2 = high seedval }

-- `next`. Sums are below 2 ^ 64, so the words do not wrap.
unfoldable pub next : Random → Random
next r =
    let p = r.a0 * r.x0 in
    let carry0 = carry (low p) r.c in
    let p0 = low (low p + r.c) in
    let carry1 = carry (high p) carry0 in
    let p1 = low (high p + carry0) in
    let q = r.a0 * r.x1 in
    let carry0' = carry p1 (low q) in
    let p1' = low (p1 + low q) in
    let s = r.a1 * r.x0 in
    record r {
      x2 = low (
          carry0'
          + carry1
          + carry p1' (low s)
          + high q
          + high s
          + r.a0 * r.x2
          + r.a1 * r.x1
          + r.a2 * r.x0);
      x1 = low (p1' + low s);
      x0 = low p0;
    }

-- redisLrand48: the 31 highest bits.
unfoldable pub redis_lrand48 : Random → Random × ℕ
redis_lrand48 r = let r' = next r in (r', r'.x2 * 2 ^ 15 + r'.x1 / 2)

-- The state as one number.
abbrev pub state : Random → ℕ
state r = r.x2 * 2 ^ 32 + r.x1 * 2 ^ 16 + r.x0

-- The digits are digits, and the multiplier is the constant one.
pub record IsRandom (r : Random) : Type 0 where
  pub x0_small : r.x0 < 2 ^ 16
  pub x1_small : r.x1 < 2 ^ 16
  pub x2_small : r.x2 < 2 ^ 16
  pub a0_eq : r.a0 ≡ 0xe66d
  pub a1_eq : r.a1 ≡ 0xdeec
  pub a2_eq : r.a2 ≡ 0x5
  pub c_eq : r.c ≡ 0xb

pub redis_srand48-IsRandom : (seed : ℕ) → IsRandom (redis_srand48 seed)
unfolding redis_srand48 low high
redis_srand48-IsRandom seed = omega arith

low-lt : (x : ℕ) → low x < 2 ^ 16
unfolding low
low-lt x = omega arith

-- A number below 2 ^ 32 from its two digits, and any number from its lowest one.
digits_lem : (x : ℕ) → x < 2 ^ 32 → x ≡ high x * 2 ^ 16 + low x
unfolding low high
digits_lem x h = omega arith

low_lem : (x : ℕ) → x ≡ x / 2 ^ 16 * 2 ^ 16 + low x
unfolding low
low_lem x = omega arith

high-lt : (x : ℕ) → high x < 2 ^ 16
unfolding high
high-lt x = omega arith

carry-le : (x y : ℕ) → carry x y ≤ 1
unfolding carry
carry-le x y = ground arith

carry_lem : (x y : ℕ) → x < 2 ^ 16 → y < 2 ^ 16 → x + y ≡ carry x y * 2 ^ 16 + low (x + y)
unfolding low carry
carry_lem x y h k = ground arith

low_small : (x : ℕ) → x < 2 ^ 16 → low x ≡ x
unfolding low
low_small x h = omega arith

-- A number that differs from a digit triple by multiples of 2 ^ 48.
congruent :
    (n k x0 x1 x2 : ℕ)
    → x0 < 2 ^ 16
    → x1 < 2 ^ 16
    → x2 < 2 ^ 16
    → n ≡ k * 2 ^ 48 + (x2 * 2 ^ 32 + x1 * 2 ^ 16 + x0)
    → x2 * 2 ^ 32 + x1 * 2 ^ 16 + x0 ≡ n % 2 ^ 48
congruent n k x0 x1 x2 a b c e = omega arith

-- `next` on the digits, with the constants in place.
next_digits :
    (x0 x1 x2 : ℕ)
    → x0 < 2 ^ 16
    → x1 < 2 ^ 16
    → x2 < 2 ^ 16
    → state (next (record start { x0 = x0; x1 = x1; x2 = x2 }))
      ≡ (0x5deece66d * (x2 * 2 ^ 32 + x1 * 2 ^ 16 + x0) + 0xb) % 2 ^ 48
unfolding next
next_digits x0 x1 x2 h0 h1 h2 =
    let p = 0xe66d * x0 in
    let q = 0xe66d * x1 in
    let s = 0xdeec * x0 in
    let p0 = low p + 0xb in
    let k0 = carry (low p) 0xb in
    let p1 = low (high p + k0) in
    let k1 = carry (high p) k0 in
    let k2 = carry p1 (low q) in
    let p2 = low (p1 + low q) in
    let k3 = carry p2 (low s) in
    let t = k2 + k1 + k3 + high q + high s + 0xe66d * x2 + 0xdeec * x1 + 0x5 * x0 in
    congruent _ (t / 2 ^ 16 + 0x5 * x1 + 0xdeec * x2 + 0x5 * x2 * 2 ^ 16) (low (low p0))
      (low (p2 + low s)) (low t) (low-lt _) (low-lt _) (low-lt _)
      (omega (
        arith,
        digits_lem p (omega arith),
        digits_lem q (omega arith),
        digits_lem s (omega arith),
        carry_lem (low p) 0xb (low-lt p) (omega arith),
        carry_lem (high p) k0 (high-lt p) (omega (arith, carry-le (low p) 0xb)),
        carry_lem p1 (low q) (low-lt _) (low-lt q),
        carry_lem p2 (low s) (low-lt _) (low-lt s),
        low_small (low p0) (low-lt _),
        low_lem t,
      ))

module _ {r : Random} (w : IsRandom r) where
  next-IsRandom : IsRandom (next r)
  unfolding next
  next-IsRandom = record {
    x0_small = low-lt _;
    x1_small = low-lt _;
    x2_small = low-lt _;
    a0_eq = w.a0_eq;
    a1_eq = w.a1_eq;
    a2_eq = w.a2_eq;
    c_eq = w.c_eq;
  }

  -- `next` is the congruence x ↦ 0x5deece66d x + 0xb modulo 2 ^ 48 on the state.
  pub next-congruence :
      IsRandom (next r) × (state (next r) ≡ (0x5deece66d * state r + 0xb) % 2 ^ 48)
  next-congruence = (
    next-IsRandom,
    subst (λ s. state (next s) ≡ (0x5deece66d * state s + 0xb) % 2 ^ 48) constants
        (next_digits r.x0 r.x1 r.x2 w.x0_small w.x1_small w.x2_small),
  )
    where
      constants : record start { x0 = r.x0; x1 = r.x1; x2 = r.x2 } ≡ r
      constants = ground arith

  -- The number drawn is the new state's 31 highest bits.
  pub redis_lrand48-bits :
      ((redis_lrand48 r).0 ≡ next r)
      × ((redis_lrand48 r).1 ≡ state (next r) / 2 ^ 17)
      × ((redis_lrand48 r).1 < 2 ^ 31)
  unfolding redis_lrand48
  redis_lrand48-bits = let n = next-IsRandom in (refl, omega (arith, n), omega (arith, n))
