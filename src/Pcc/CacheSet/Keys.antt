-- ===== src/Pcc/CacheSet/Keys.antt =====
-- The map of a set of src/pcc/tlb.h after a miss, an erased key and a filled line.
use elastic_translations_mic.Prelude.{
  ℕ, ◌<◌, ◌≡◌, ◌∙◌, sym, ap, ◌⊎◌, inl, inr, true, false, Bool, Option, none, some, List, arith,
  ◌==◌, if◌then◌else◌, update, mem, ==-self, Bool-cases, eq_of_==,
}
use elastic_translations_mic.Pcc.CacheSet.Defs.{Ptr, null}
use elastic_translations_mic.Pcc.CacheSet.Relink.{order}
use elastic_translations_mic.Pcc.CacheSet.Order.{mem-order}
use elastic_translations_mic.Pcc.CacheSet.Held.{stored}

-- A line's tag is none that the map lacks or has with NULL.
pub miss_covered :
    (map' m : ℕ → Option Ptr) (address x : ℕ) (c : Ptr)
    → (map' address ≡ none) ⊎ (map' address ≡ some null)
    → map' x ≡ some c
    → 2 < c
    → ((x == address) ≡ false → m x ≡ map' x)
    → m x ≡ some c
miss_covered map' m address x c e q big old = old (apart e) ∙ q
  where
    apart : (map' address ≡ none) ⊎ (map' address ≡ some null) → (x == address) ≡ false
    apart (inl e) = ground (arith, q, e, big)
    apart (inr e) = ground (arith, q, e, big)

-- Erasing one line's tag leaves the other lines under theirs.
pub erased_covered :
    (map' : ℕ → Option Ptr) (addr : Ptr → ℕ) (c a : Ptr)
    → map' (addr c) ≡ some c
    → map' (addr a) ≡ some a
    → (a == c) ≡ false
    → update map' (addr c) none (addr a) ≡ some a
erased_covered map' addr c a p q ne = elim (Bool-cases (addr a == addr c)) [
  | inl e ↦ ground (arith, p, q, ne, ap map' (eq_of_== (addr a) (addr c) e))
  | inr e ↦ rw e q
]

-- A line that is filled and put among covered ones, under a tag that none of them has.
pub inserted_covered :
    (bound : ℕ) (law map' : ℕ → Option Ptr) (addr : Ptr → ℕ) (address : ℕ) (policy : ℕ) (f : ℕ → ℕ)
    (c : Ptr) (rest : List Ptr) (a : Ptr)
    → ((x : ℕ) → map' x ≡ (if x == address then some c else law x))
    → stored (law address) ≡ false
    → mem a (order policy f c rest) ≡ true
    → ((a == c) ≡ false → mem a rest ≡ true → (law (addr a) ≡ some a) × (addr a < bound) × (2 < a))
    → address < bound
    → (map' (update addr c address a) ≡ some a) × (update addr c address a < bound)
unfolding stored
inserted_covered bound law map' addr address policy f c rest a at out k old fits =
    elim (Bool-cases (a == c)) [
      | inl e ↦ rw (e, at address, ==-self address) (ap some (sym (eq_of_== a c e)), fits)
      | inr e ↦
          let (q, small, big) = old e (ground (arith, mem-order f c policy a rest)) in
          rw (e, at (addr a), apart q big) (q, small)
    ]
  where
    apart : law (addr a) ≡ some a → 2 < a → (addr a == address) ≡ false
    apart q big = elim (Bool-cases (addr a == address)) [
      | inl e ↦ ground (arith, out, big, sym q ∙ ap law (eq_of_== (addr a) address e))
      | inr e ↦ e
    ]

pub not_held : (b h : Bool) → h ≡ false → (if b then false else h) ≡ false
not_held b h e = ground arith
