-- ===== src/Prelude/Store.antt =====
-- One field of the heap: a function from addresses, and the store that overwrites one place.
use Prim.Native.Nat.{ℕ}
use mathlib.Core.Path.{◌≡◌}
use mathlib.Core.Bool.{false}
use elastic_translations_mic.Prelude.Tests.{◌==◌, if◌then◌else◌, ==-self}

module _ {ℓ} {A : Type ℓ} where
  abbrev pub update : (ℕ → A) → ℕ → A → ℕ → A
  update f p v a = if a == p then v else f a

  pub update_self : (f : ℕ → A) (p : ℕ) (v : A) → update f p v p ≡ v
  update_self f p v = rw (==-self p)

  pub update_ne : (f : ℕ → A) (p : ℕ) (v : A) (a : ℕ) → (a == p) ≡ false → update f p v a ≡ f a
  update_ne f p v a h = rw h
