-- ===== src/Pcc/Cache/Fields.antt =====
-- The fields of an address: `extract` as a quotient and a remainder, the range of the set's number,
-- and the address back from its fields.
use Prim.Native.Nat.{bit_and}
use mathlib.Core.Path.{ap₂}
use elastic_translations_mic.Prelude.{
  ℕ, ◌+◌, ◌-◌, ◌*◌, ◌/◌, ◌%◌, ◌^◌, ◌≤◌, ◌<◌, ◌≡◌, sym, ap, ◌∙◌, arith, Bool, ◌⊎◌, inl, inr,
  if◌then◌else◌, ◌==◌, ◌&&◌, false, subst,
}
use elastic_translations_mic.Prelude.Bits.{
  bit_and-ones, bit_and-shift, bit_and-zero, pow-add, pow_pos,
}
use native.Mathlib.Nat.{
  add-zero, mul_comm, div-add-mod, div-div-eq-div-mul, pow-le-pow_right, add-mul-div_left,
  div-eq_of_lt, mod-eq_of_lt, div-lt_iff_lt-mul,
}
use elastic_translations_mic.Pcc.Cache.Defs.{
  FunctionalCache, shift_one, extract, log_pofs, offset_of, setid_of, tag_of,
}

-- A power of two, less one, times another.
top_block : (y z x : ℕ) → 0 < z → x ≡ y * z → y * (z - 1) + y ≡ x
top_block y z x h e = omega (arith, e, ap (λ (t : ℕ). y * t) (minus_plus z h))
  where
    minus_plus : (z : ℕ) → 0 < z → z ≡ (z - 1) + 1
    minus_plus z h = omega arith

block : (m k : ℕ) → 2 ^ m * (2 ^ k - 1) + 2 ^ m ≡ 2 ^ (m + k)
block m k = top_block (2 ^ m) (2 ^ k) (2 ^ (m + k)) (pow_pos k) (pow-add m k)

-- The mask that `extract` computes: ones at the places m, ..., m + k - 1.
mask_block :
    (m k : ℕ)
    → m + k < 64
    → ((2 ^ (m + k) - 1) + 2 ^ 64 - (2 ^ m - 1)) % 2 ^ 64 ≡ 2 ^ m * (2 ^ k - 1)
mask_block m k hi = omega (
  arith,
  block m k,
  pow_pos m,
  pow-le-pow_right {n = 2} (omega arith) {i = m + k} {j = 63} (omega arith),
)

-- The mask for the top bit: ones from the place m on, and one at place 0.
mask_top : (m : ℕ) → m ≤ 64 → (2 ^ 64 - (2 ^ m - 1)) ≡ 2 ^ m * (2 ^ (64 - m) - 1) + 1
mask_top m h = omega (arith, block m (64 - m), pow_pos m, ap (λ (t : ℕ). 2 ^ t) (plus_minus m h))
  where
    plus_minus : (m : ℕ) → m ≤ 64 → m + (64 - m) ≡ 64
    plus_minus m h = omega arith

-- Cutting with a mask of blocks of ones.
cut_block : (a m c r : ℕ) → r < 2 ^ m → bit_and a (2 ^ m * c + r) / 2 ^ m ≡ bit_and (a / 2 ^ m) c
cut_block a m c r h =
    bit_and-shift m a (2 ^ m * c + r) ∙ ap (λ (t : ℕ). bit_and (a / 2 ^ m) t) (down (2 ^ m) c r h)
  where
    down : (y c r : ℕ) → r < y → (y * c + r) / y ≡ c
    down y c r h =
        ap (λ (t : ℕ). t / y) (omega arith)
        ∙ add-mul-div_left r c (omega arith)
        ∙ omega (arith, div-eq_of_lt h)

-- `extract` of the bits `min`, ..., `max`: `k` of them, for a `max` below 63.
pub extract-bits :
    (m k address : ℕ)
    → 0 < m + k
    → m + k < 64
    → extract (m + k - 1) m address ≡ address / 2 ^ m % 2 ^ k
unfolding extract shift_one
extract-bits m k address lo hi =
    ap₂ (λ (u w : ℕ). bit_and address ((2 ^ u - 1 + 2 ^ 64 - (2 ^ w - 1)) % 2 ^ 64) / 2 ^ w)
      (up m k lo hi) (low m (omega arith))
    ∙ ap (λ (t : ℕ). bit_and address t / 2 ^ m) (mask_block m k hi ∙ sym (add-zero _))
    ∙ cut_block address m (2 ^ k - 1) 0 (pow_pos m)
    ∙ bit_and-ones k (address / 2 ^ m)
  where
    up : (m k : ℕ) → 0 < m + k → m + k < 64 → (m + k - 1 + 1) % 64 ≡ m + k
    up m k lo hi = omega arith

    low : (m : ℕ) → m < 64 → m % 64 ≡ m
    low m h = omega arith

-- What is left of an address above the place m.
top_below : (m address : ℕ) → m < 64 → address < 2 ^ 64 → address / 2 ^ m < 2 ^ (64 - m)
top_below m address hi h =
    (div-lt_iff_lt-mul (pow_pos m)).1
      (omega (arith, h, pow-add (64 - m) m, ap (λ (t : ℕ). 2 ^ t) (whole m hi)))
  where
    whole : (m : ℕ) → m < 64 → (64 - m) + m ≡ 64
    whole m h = omega arith

-- `extract` up to the top bit, where the shift count is 64.
pub extract_top :
    (m address : ℕ) → 0 < m → m < 64 → address < 2 ^ 64 → extract 63 m address ≡ address / 2 ^ m
unfolding extract shift_one
extract_top m address lo hi h =
    ap (λ (w : ℕ). bit_and address ((2 ^ 64 - (2 ^ w - 1)) % 2 ^ 64) / 2 ^ w) (low m hi)
    ∙ ap (λ (t : ℕ). bit_and address t / 2 ^ m) (wrap m lo hi ∙ mask_top m (omega arith))
    ∙ cut_block address m (2 ^ (64 - m) - 1) 1 (two_le m lo)
    ∙ bit_and-ones (64 - m) (address / 2 ^ m)
    ∙ mod-eq_of_lt (top_below m address hi h)
  where
    low : (m : ℕ) → m < 64 → m % 64 ≡ m
    low m h = omega arith

    two_le : (m : ℕ) → 0 < m → 1 < 2 ^ m
    two_le m lo = pow-le-pow_right {n = 2} (omega arith) {i = 1} {j = m} (omega arith)

    wrap : (m : ℕ) → 0 < m → m < 64 → (2 ^ 64 - (2 ^ m - 1)) % 2 ^ 64 ≡ 2 ^ 64 - (2 ^ m - 1)
    wrap m lo hi =
        omega (
          arith,
          two_le m lo,
          pow-le-pow_right {n = 2} (omega arith) {i = m} {j = 63} (omega arith),
        )

-- All 64 bits: the shift by 64 leaves no mask at all.
extract_whole : (address : ℕ) → extract 63 0 address ≡ 0
unfolding extract shift_one
extract_whole address = ap (λ (t : ℕ). t / 1) (bit_and-zero address)

extract_split :
    (m k address : ℕ)
    → 0 < k
    → address < 2 ^ 64
    → (m + k < 64) ⊎ ((m ≡ 0) × (k ≡ 64)) ⊎ ((0 < m) × (m + k ≡ 64))
    → extract (m + k - 1) m address ≡ (if m == 0 && k == 64 then 0 else address / 2 ^ m % 2 ^ k)
extract_split m k address pos' h (inl lt) =
    rw (not_all m k lt) (extract-bits m k address (omega arith) lt)
  where
    not_all : (m k : ℕ) → m + k < 64 → (m == 0 && k == 64) ≡ false
    not_all m k lt = ground (arith, lt)
extract_split m k address pos' h (inr (inl (e, q))) = rw (e, q) (extract_whole address)
extract_split m k address pos' h (inr (inr (lo, e))) = rw (not_zero m k lo) (
    ap (λ (t : ℕ). extract t m address) (omega (arith, e))
    ∙ extract_top m address lo (omega (arith, e, pos')) h
    ∙ sym (
        mod-eq_of_lt (
          subst (λ (t : ℕ). address / 2 ^ m < 2 ^ t) (omega (arith, e))
            (top_below m address (omega (arith, e, pos')) h))))
  where
    not_zero : (m k : ℕ) → 0 < m → (m == 0 && k == 64) ≡ false
    not_zero m k lo = ground (arith, lo)

-- `extract` of the bits m, ..., m + k - 1 of an address, at least one and none above bit 63, is the
-- address shifted down by m, modulo 2 ^ k, but for all 64 bits together it is 0.
pub extract_lem :
    (m k address : ℕ)
    → 0 < k
    → m + k ≤ 64
    → address < 2 ^ 64
    → extract (m + k - 1) m address ≡ (if m == 0 && k == 64 then 0 else address / 2 ^ m % 2 ^ k)
extract_lem m k address pos' le h = extract_split m k address pos' h (omega (arith, pos', le))

-- An address cut at two places.
recompose : (y z a : ℕ) → (a / (y * z) * z + a / y % z) * y + a % y ≡ a
recompose y z a =
    ap (λ (t : ℕ). t * y + a % y)
      (ap (λ (t : ℕ). t * z + a / y % z) (sym (div-div-eq-div-mul a y z)) ∙ whole (a / y) z)
    ∙ whole a y
  where
    whole : (n m : ℕ) → n / m * m + n % m ≡ n
    whole n m = omega (arith, div-add-mod n m)

-- What the accesses of a cache need of its shape: lines of more than one byte, and fields that
-- leave room for a tag.
abbrev pub Fits : (ℕ → ℕ) → FunctionalCache → Bool → Type 0
Fits log2 f is_2m = (0 < log_pofs log2 f is_2m) × (f.log_set_count + log_pofs log2 f is_2m < 64)

module _ (log2 : ℕ → ℕ) (f : FunctionalCache) (is_2m : Bool) (fits : Fits log2 f is_2m)
    (address : ℕ) where
  offset_lem : offset_of log2 f is_2m address ≡ address % 2 ^ log_pofs log2 f is_2m
  unfolding offset_of
  offset_lem =
      ap (λ (t : ℕ). extract (t - 1) 0 address) (omega arith)
      ∙ extract-bits 0 (log_pofs log2 f is_2m) address (omega (arith, fits.0))
          (omega (arith, fits.1))
      ∙ ap (λ (t : ℕ). t % 2 ^ log_pofs log2 f is_2m) (omega arith)

  setid_lem :
      setid_of log2 f is_2m address ≡ address / 2 ^ log_pofs log2 f is_2m % 2 ^ f.log_set_count
  unfolding setid_of
  setid_lem =
      ap (λ (t : ℕ). extract (t - 1) (log_pofs log2 f is_2m) address) (omega arith)
      ∙ extract-bits (log_pofs log2 f is_2m) f.log_set_count address (omega (arith, fits.0))
          (omega (arith, fits.1))

  pub tag_lem :
      address < 2 ^ 64
      → tag_of log2 f is_2m address ≡ address / (2 ^ log_pofs log2 f is_2m * 2 ^ f.log_set_count)
  unfolding tag_of
  tag_lem h =
      extract_top (f.log_set_count + log_pofs log2 f is_2m) address (omega (arith, fits.0)) fits.1 h
      ∙ ap (λ (t : ℕ). address / t)
          (pow-add f.log_set_count (log_pofs log2 f is_2m)
            ∙ mul_comm (2 ^ f.log_set_count) (2 ^ log_pofs log2 f is_2m))

  -- The number of the set is below the power of two that `log_set_count` gives.
  pub setid-lt : setid_of log2 f is_2m address < 2 ^ f.log_set_count
  setid-lt = omega (arith, setid_lem, pow_pos f.log_set_count)

  -- The offset, the number of the set and the tag give the address back: an access reads every bit
  -- of the address into exactly one field.
  pub fields-address :
      address < 2 ^ 64
      → (tag_of log2 f is_2m address * 2 ^ f.log_set_count + setid_of log2 f is_2m address)
            * 2 ^ log_pofs log2 f is_2m
          + offset_of log2 f is_2m address
        ≡ address
  fields-address h =
      rw (setid_lem, offset_lem, tag_lem h)
        (recompose (2 ^ log_pofs log2 f is_2m) (2 ^ f.log_set_count) address)
