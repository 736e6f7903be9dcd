-- ===== src/Prelude/Lists.antt =====
-- Lists of native numbers: length, membership, distinctness, removal.
use Prim.Native.Nat.{ℕ, zero, suc, ◌+◌}
use mathlib.Core.Option.{Option, none, some}
use mathlib.Core.Path.{◌≡◌, refl}
use mathlib.Core.Bool.{Bool, true, false, ◌||◌}
use mathlib.Core.List.{List, [], ◌∷◌, ◌++◌}
use native.Mathlib.Omega.{arith}
use elastic_translations_mic.Prelude.Tests.{◌==◌, if◌then◌else◌}

module _ {ℓ} {A : Type ℓ} where
  abbrev pub length : List A → ℕ
  length [] = 0
  length (x ∷ xs) = suc (length xs)

  pub length-append : (xs ys : List A) → length (xs ++ ys) ≡ length xs + length ys
  length-append [] ys = omega arith
  length-append (x ∷ xs) ys = omega (arith, length-append xs ys)

-- Is `a` in the list?
abbrev pub mem : ℕ → List ℕ → Bool
mem a [] = false
mem a (x ∷ xs) = (a == x) || mem a xs

abbrev pub IsDistinct : List ℕ → Type 0
IsDistinct [] = Unit {0}
IsDistinct (x ∷ xs) = (mem x xs ≡ false) × IsDistinct xs

-- A member differs from what is no member.
pub mem_apart : (b a : ℕ) (xs : List ℕ) → mem a xs ≡ false → mem b xs ≡ true → (b == a) ≡ false
mem_apart b a [] out m = ground arith
mem_apart b a (x ∷ xs) out m = ground (arith, mem_apart b a xs)

-- The list without the first `a`.
abbrev pub remove : ℕ → List ℕ → List ℕ
remove a [] = []
remove a (x ∷ xs) = if a == x then xs else x ∷ remove a xs

pub mem-append : (a : ℕ) (xs ys : List ℕ) → mem a (xs ++ ys) ≡ (mem a xs || mem a ys)
mem-append a [] ys = refl
mem-append a (x ∷ xs) ys = ground (arith, mem-append a xs ys)

pub mem-remove_ne : (a b : ℕ) (xs : List ℕ) → (a == b) ≡ false → mem a (remove b xs) ≡ mem a xs
mem-remove_ne a b [] h = refl
mem-remove_ne a b (x ∷ xs) h = ground (arith, mem-remove_ne a b xs)

pub mem-remove_self : (a : ℕ) (xs : List ℕ) → IsDistinct xs → mem a (remove a xs) ≡ false
mem-remove_self a [] d = refl
mem-remove_self a (x ∷ xs) d = ground (arith, mem-remove_self a xs)

pub not-mem-remove : (a b : ℕ) (xs : List ℕ) → mem a xs ≡ false → mem a (remove b xs) ≡ false
not-mem-remove a b [] h = refl
not-mem-remove a b (x ∷ xs) h = ground (arith, not-mem-remove a b xs)

pub remove-IsDistinct : (a : ℕ) (xs : List ℕ) → IsDistinct xs → IsDistinct (remove a xs)
remove-IsDistinct a [] d = d
remove-IsDistinct a (x ∷ xs) d = ground (arith, remove-IsDistinct a xs, not-mem-remove x a xs)

pub length-remove : (a : ℕ) (xs : List ℕ) → mem a xs ≡ true → suc (length (remove a xs)) ≡ length xs
length-remove a [] h = ground arith
length-remove a (x ∷ xs) h = ground (arith, length-remove a xs)

module _ {ℓ} {A : Type ℓ} where
  abbrev pub get_elem? : List A → ℕ → Option A
  get_elem? [] i = none
  get_elem? (x ∷ xs) zero = some x
  get_elem? (x ∷ xs) (suc i) = get_elem? xs i

  -- A store out of bounds changes nothing.
  abbrev pub set : List A → ℕ → A → List A
  set [] i v = []
  set (x ∷ xs) zero v = v ∷ xs
  set (x ∷ xs) (suc i) v = x ∷ set xs i v
